-- ===== src/Runner/Guarantees.antt =====
-- What a run guarantees of the commands that its process issued (apps/server/src/codex-runner.ts).
use code_jam.Prelude.{
  ◌==◌, ltb-false→le, le→ltb-false, ==_iff, length, ok-inj, Text, trim, Result, ok, err, bind,
  bind-eq-ok, ℕ, ◌≤◌, ◌≡◌, refl, sym, ap, ◌∙◌, inl, inr, Bool, true, false, not, Option, none, some,
  List, [], ◌∷◌, arith,
}
use mathlib.Core.Path.{subst}
use code_jam.Policy.Scan.{Evaluator, DetectedViolation}
use code_jam.Service.Errors.{RunError, other, RunnerResult}
use code_jam.Service.Execution.{Outcome, finished, RunnerInput}
use code_jam.Runner.{Parser, ParsedEvents, parse_lines}
use code_jam.Runner.Lines.{flush_line-Grows}
use code_jam.Runner.Stream.{
  RunnerConfig, Running, started, RunStep, line_parts, first_of, note_violations, apply_policy,
  run_steps, flush_line, flush_run, enforced_denial, final_output, failed_with, fault_text, deliver,
  throw_if, throw_denial, conclude_run, close_run, run_codex,
}
use code_jam.Runner.Judging.{judged, HasJudged, apply_policy-HasJudged}
use code_jam.Runner.Following.{
  Follows, first_events, stream_events, all_written, all_counted, run_steps-Follows,
}
use code_jam.Runner.Returning.{apply_policy-exceeded, run_steps-returned}

throw_if-finished :
    (is_thrown : Bool) (e : RunError) (r : Running) (rest : Outcome) {result : RunnerResult}
    → throw_if is_thrown e r rest ≡ finished result
    → (is_thrown ≡ false) × (rest ≡ finished result)
unfolding throw_if failed_with
throw_if-finished true e r rest h = cc
throw_if-finished false e r rest h = (refl, h)

throw_denial-finished :
    (o : Option RunError) (r : Running) (rest : Outcome) {result : RunnerResult}
    → throw_denial o r rest ≡ finished result
    → (o ≡ none) × (rest ≡ finished result)
unfolding throw_denial failed_with
throw_denial-finished none r rest h = (refl, h)
throw_denial-finished (some e) r rest h = cc

deliver-finished :
    (missing : Text) (r : Running) (o : Option Text) {result : RunnerResult}
    → deliver missing r o ≡ finished result
    → o ≡ some result.output
unfolding deliver failed_with
deliver-finished missing r none h = cc
deliver-finished missing r (some output) {result} h = cc

not-false : (b : Bool) → not b ≡ false → b ≡ true
not-false true h = refl
not-false false h = sym h

conclude_run-finished :
    (config : RunnerConfig) (exit_code : ℕ) (r : Running) {result : RunnerResult}
    → conclude_run config exit_code r ≡ finished result
    → (enforced_denial config.is_enforced r.violation ≡ none)
      × (r.budget_exceeded ≡ false)
      × (r.output_exceeded ≡ false)
      × (exit_code ≡ 0)
      × (final_output r.parsed ≡ some result.output)
unfolding conclude_run
conclude_run-finished config exit_code r h =
    let (_, a) = throw_if-finished r.cancelled _ r _ h in
    let (allowed, b) =
      throw_denial-finished (enforced_denial config.is_enforced r.violation) r _ a in
    let (kept, c) = throw_if-finished r.budget_exceeded _ r _ b in
    let (_, d) = throw_if-finished r.timed_out _ r _ c in
    let (within, e) = throw_if-finished r.output_exceeded _ r _ d in
    let (clean, f) = throw_if-finished (not (exit_code == 0)) _ r _ e in
    let is_zero : (exit_code == 0) ≡ true = not-false (exit_code == 0) clean in
    (
      allowed,
      kept,
      within,
      (==_iff exit_code 0).0 is_zero,
      deliver-finished _ r (final_output r.parsed) f,
    )

none_denied :
    (found : List DetectedViolation)
    → enforced_denial true (first_of none found) ≡ none
    → found ≡ []
unfolding enforced_denial first_of
none_denied [] h = refl
none_denied (v ∷ found) h = cc

module _ (parse : Parser) (evaluate : Evaluator) (config : RunnerConfig)
    (request : RunnerInput) where
  flush_run-HasJudged :
      (text : Text) (r : Running) (p : ParsedEvents)
      → Follows parse evaluate config request text r
      → flush_line parse (trim r.stdout) r.parsed ≡ ok p
      → (t : Running) × (flush_run parse evaluate config request r ≡ ok t)
        × (t.parsed ≡ p)
        × HasJudged parse evaluate config request p.commands t
  unfolding flush_run note_violations
  flush_run-HasJudged text r p (done, _, _, _) h =
      let (new, grown) = flush_line-Grows parse (trim r.stdout) r.parsed p h in
      let next : Running = record r { parsed = p } in
      let (scan, after) =
        apply_policy-HasJudged parse evaluate config request next r.parsed.commands new done
          grown in
      let t =
        note_violations parse evaluate config request next
          (judged parse evaluate config request new) in
      (
        t,
        rw h scan,
        refl,
        subst (λ u. HasJudged parse evaluate config request u t) (sym grown) after,
      )

  flush_run-parsed :
      (r t : Running)
      → flush_run parse evaluate config request r ≡ ok t
      → (p : ParsedEvents) × (flush_line parse (trim r.stdout) r.parsed ≡ ok p)
        × (t.output_exceeded ≡ r.output_exceeded)
  unfolding flush_run
  flush_run-parsed r t h =
      let next : ParsedEvents → Running = λ p. record r { parsed = p } in
      let (p, e, scan) =
        bind-eq-ok (flush_line parse (trim r.stdout) r.parsed)
          (λ p. apply_policy parse evaluate config request (next p)) h in
      (p, e, apply_policy-exceeded parse evaluate config request (next p) t scan)

  pub close_run-flush_run :
      (exit_code : ℕ) (r t : Running)
      → flush_run parse evaluate config request r ≡ ok t
      → close_run parse evaluate config request exit_code r ≡ conclude_run config exit_code t
  unfolding close_run
  close_run-flush_run exit_code r t e = rw (e, close_run) refl

  -- What a returned result says of the state that it was concluded from.
  finished-IsAllowed :
      (exit_code : ℕ) (t : Running) (p : ParsedEvents) (result : RunnerResult)
      → config.is_enforced ≡ true
      → conclude_run config exit_code t ≡ finished result
      → t.parsed ≡ p
      → HasJudged parse evaluate config request p.commands t
      → (judged parse evaluate config request p.commands ≡ [])
        × (length p.commands ≤ config.policy_max_commands)
        × (exit_code ≡ 0)
        × (final_output p ≡ some result.output)
  finished-IsAllowed exit_code t p result enforced h same (_, _, first, over) =
      let (allowed, budget, _, zero_code, output) = conclude_run-finished config exit_code t h in
      let undenied : enforced_denial true
            (first_of none (judged parse evaluate config request p.commands))
          ≡ none =
        rw (← enforced, ← first) allowed in
      (
        none_denied (judged parse evaluate config request p.commands) undenied,
        ltb-false→le config.policy_max_commands (length p.commands) (sym over ∙ budget),
        zero_code,
        ap final_output (sym same) ∙ output,
      )

  close_run-finished :
      (exit_code : ℕ) (r : Running) (result : RunnerResult)
      → close_run parse evaluate config request exit_code r ≡ finished result
      → (t : Running) × (flush_run parse evaluate config request r ≡ ok t)
        × (conclude_run config exit_code t ≡ finished result)
  unfolding close_run failed_with
  close_run-finished exit_code r result h = go (flush_run parse evaluate config request r) refl
    where
      go :
          (m : Result Running)
          → flush_run parse evaluate config request r ≡ m
          → (t : Running) × (flush_run parse evaluate config request r ≡ ok t)
            × (conclude_run config exit_code t ≡ finished result)
      go (ok t) e = (t, e, rw (e, close_run) at h)
      go (err fault) e =
          let broken : failed_with r (other (fault_text fault)) ≡ finished result =
            rw (e, close_run) at h in
          cc broken

  started-Follows : Follows parse evaluate config request [] (started request)
  unfolding started line_parts parse_lines first_of
  started-Follows = (
    (refl, refl, refl, sym (le→ltb-false config.policy_max_commands 0 (omega arith))),
    refl,
    refl,
    refl,
  )

  -- However the process cuts its output into chunks, and whatever it writes to stderr between them:
  -- if the chunks stay within the limit and the lines of the whole output parse, then the run ends
  -- with the events of the whole output read at once, one violation for each command in them that
  -- is denied, in their order, the first of them as the one that ends the run, and the budget exceeded
  -- just where there are more commands than allowed.
  pub run_codex-reads_whole :
      (steps : List RunStep) (exit_code : ℕ) (p : ParsedEvents)
      → all_counted steps ≤ config.codex_max_output_bytes
      → stream_events parse (first_events parse evaluate config request) (all_written steps) ≡ ok p
      → (t : Running) × (run_codex parse evaluate config request steps exit_code
          ≡ ok (conclude_run config exit_code t))
        × (t.parsed ≡ p)
        × HasJudged parse evaluate config request p.commands t
  unfolding run_codex close_run started
  run_codex-reads_whole steps exit_code p below h =
      let text = all_written steps in
      let (q, lines, last) =
        bind-eq-ok
          (parse_lines parse (line_parts [] text).0 (first_events parse evaluate config request))
          (flush_line parse (trim (line_parts [] text).1)) h in
      let (r, ran, follows) =
        run_steps-Follows parse evaluate config request steps [] (started request) q started-Follows
          (omega arith) lines in
      let (_, _, kept, read) = follows in
      let same : r.parsed ≡ q = ok-inj (sym read ∙ lines) in
      let (t, flushed, parsed, judges) =
        flush_run-HasJudged text r p follows (rw (kept, same) last) in
      (
        t,
        ap (λ m. bind m (λ r. ok (close_run parse evaluate config request exit_code r))) ran
            ∙ ap ok (close_run-flush_run exit_code r t flushed),
        parsed,
        judges,
      )

  -- If the policy is enforced and a run returns a result, then the lines of the whole output parse,
  -- no command in them is denied, there are no more of them than allowed, the process ended with
  -- exit code 0, and the result's output is the trimmed last message of the whole output, which is
  -- not empty.
  pub run_codex-IsAllowed :
      (steps : List RunStep) (exit_code : ℕ) (result : RunnerResult)
      → config.is_enforced ≡ true
      → run_codex parse evaluate config request steps exit_code ≡ ok (finished result)
      → (p : ParsedEvents) × (stream_events parse
            (first_events parse evaluate config request)
            (all_written steps)
          ≡ ok p)
        × (judged parse evaluate config request p.commands ≡ [])
        × (length p.commands ≤ config.policy_max_commands)
        × (exit_code ≡ 0)
        × (final_output p ≡ some result.output)
  unfolding run_codex
  run_codex-IsAllowed steps exit_code result enforced h =
      let (r, ran, closed) =
        bind-eq-ok (run_steps parse evaluate config request steps (started request))
          (λ r. ok (close_run parse evaluate config request exit_code r)) h in
      elim (run_steps-returned parse evaluate config request steps [] (started request) r
        started-Follows ran) [
          | inl over ↦
              let (t, flushed, done) = close_run-finished exit_code r result (ok-inj closed) in
              let (_, _, kept) = flush_run-parsed r t flushed in
              let (_, _, within, _, _) = conclude_run-finished config exit_code t done in
              let broken : true ≡ false = sym over ∙ sym kept ∙ within in cc broken
          | inr follows ↦
              let (t, flushed, done) = close_run-finished exit_code r result (ok-inj closed) in
              let (p, last, _) = flush_run-parsed r t flushed in
              let (_, _, kept, lines) = follows in
              let (u, again, same, judges) =
                flush_run-HasJudged (all_written steps) r p follows last in
              let ended =
                ap (conclude_run config exit_code) (ok-inj (sym again ∙ flushed)) ∙ done in
              let whole : stream_events parse (first_events parse evaluate config request)
                    (all_written steps)
                  ≡ ok p =
                rw lines (rw kept at last) in
              let (undenied, within, zero_code, output) =
                finished-IsAllowed exit_code u p result enforced ended same judges in
              (p, whole, undenied, within, zero_code, output)
        ]
