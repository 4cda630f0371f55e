-- ===== src/Runner/Returning.antt =====
-- What a run that came to its end has read (apps/server/src/codex-runner.ts).
use code_jam.Prelude.{
  ltb, ltb-false→le, Bool-cases, ok-inj, Text, Result, ok, bind-eq-ok, ℕ, ◌+◌, ◌≡◌, sym, ap, ◌∙◌,
  ◌⊎◌, inl, inr, true, List, [], ◌∷◌, ◌++◌,
}
use mathlib.Core.Path.{subst}
use mathlib.Core.List.{append_assoc}
use code_jam.Policy.Scan.{Evaluator, scan_commands}
use code_jam.Service.Execution.{RunnerInput}
use code_jam.Runner.{Parser, ParsedEvents, parse_lines}
use code_jam.Runner.Stream.{
  RunnerConfig, Running, RunStep, out_chunk, err_chunk, time_out, cancel, line_parts, actor_of,
  context_of, note_violations, apply_policy, read_out, read_err, consume, step, run_steps,
}
use code_jam.Runner.Following.{
  Follows, written, all_written, parts_parsed, nothing_more, step-Follows,
}

module _ (parse : Parser) (evaluate : Evaluator) (config : RunnerConfig)
    (request : RunnerInput) where
  pub apply_policy-exceeded :
      (r t : Running)
      → apply_policy parse evaluate config request r ≡ ok t
      → t.output_exceeded ≡ r.output_exceeded
  unfolding apply_policy note_violations
  apply_policy-exceeded r t h =
      let (found, _, e) =
        bind-eq-ok
          (scan_commands evaluate (actor_of request) r.parsed.commands r.scanned_commands
            (context_of config request))
          (λ found. ok (note_violations parse evaluate config request r found)) h in
      ap (λ (u : Running). u.output_exceeded) (sym (ok-inj e))

  read_out-exceeded :
      (text : Text) (r t : Running)
      → read_out parse evaluate config request text r ≡ ok t
      → t.output_exceeded ≡ r.output_exceeded
  unfolding read_out
  read_out-exceeded text r t h =
      let parts = line_parts [] (r.stdout ++ text) in
      let next : ParsedEvents → Running = λ p. record r { stdout = parts.1; parsed = p } in
      let (p, _, e) =
        bind-eq-ok (parse_lines parse parts.0 r.parsed)
          (λ p. apply_policy parse evaluate config request (next p)) h in
      apply_policy-exceeded (next p) t e

  -- The limit, once exceeded, stays exceeded.
  consume-exceeded :
      (bytes : ℕ) (read : Running → Result Running) (r t : Running)
      → ((s : Running) → read s ≡ ok t → t.output_exceeded ≡ s.output_exceeded)
      → consume parse evaluate config request bytes read r ≡ ok t
      → r.output_exceeded ≡ true
      → t.output_exceeded ≡ true
  unfolding consume
  consume-exceeded bytes read r t keeps h k =
      let total = r.total_bytes + bytes in
      elim (Bool-cases (ltb config.codex_max_output_bytes total)) [
        | inl e ↦ ap (λ (u : Running). u.output_exceeded) (sym (ok-inj (rw e at h)))
        | inr e ↦ keeps (record r { total_bytes = total }) (rw e at h) ∙ k
      ]

  step-exceeded :
      (s : RunStep) (r t : Running)
      → step parse evaluate config request s r ≡ ok t
      → r.output_exceeded ≡ true
      → t.output_exceeded ≡ true
  unfolding step read_err
  step-exceeded (out_chunk bytes text) r t h k =
      consume-exceeded bytes (read_out parse evaluate config request text) r t
        (λ s. read_out-exceeded text s t) h k
  step-exceeded (err_chunk bytes text) r t h k =
      consume-exceeded bytes (read_err parse evaluate config request text) r t
        (λ s e. ap (λ (u : Running). u.output_exceeded) (sym (ok-inj e))) h k
  step-exceeded time_out r t h k = ap (λ (u : Running). u.output_exceeded) (sym (ok-inj h)) ∙ k
  step-exceeded cancel r t h k = ap (λ (u : Running). u.output_exceeded) (sym (ok-inj h)) ∙ k

  -- What a chunk of stdout that was read within the limit made of the events.
  read_out-parsed :
      (text : Text) (r t : Running)
      → read_out parse evaluate config request text r ≡ ok t
      → (p : ParsedEvents) × (parse_lines parse (line_parts [] (r.stdout ++ text)).0 r.parsed
          ≡ ok p)
  unfolding read_out
  read_out-parsed text r t h =
      let parts = line_parts [] (r.stdout ++ text) in
      let next : ParsedEvents → Running = λ p. record r { stdout = parts.1; parsed = p } in
      let (p, e, _) =
        bind-eq-ok (parse_lines parse parts.0 r.parsed)
          (λ p. apply_policy parse evaluate config request (next p)) h in
      (p, e)

  -- A step that returned exceeded the limit, or the run still follows what was written.
  step-returned :
      (s : RunStep) (text : Text) (r t : Running)
      → Follows parse evaluate config request text r
      → step parse evaluate config request s r ≡ ok t
      → (t.output_exceeded ≡ true) ⊎ Follows parse evaluate config request (text ++ written s) t
  unfolding step consume read_err
  step-returned (out_chunk bytes more) text r t h e =
      elim (Bool-cases (ltb config.codex_max_output_bytes (r.total_bytes + bytes))) [
        | inl over ↦ inl (ap (λ (u : Running). u.output_exceeded) (sym (ok-inj (rw over at e))))
        | inr below ↦
            let next : Running = record r { total_bytes = r.total_bytes + bytes } in
            let reads : read_out parse evaluate config request more next ≡ ok t = rw below at e in
            let (p, parsed) = read_out-parsed more next t reads in
            let (u, stepped, follows, _) =
              step-Follows parse evaluate config request (out_chunk bytes more) text r p h
                (ltb-false→le config.codex_max_output_bytes (r.total_bytes + bytes) below)
                (parts_parsed parse evaluate config request text more r h ∙ parsed) in
            inr (
              subst (Follows parse evaluate config request (text ++ more))
                (ok-inj (sym stepped ∙ e)) follows)
      ]
  step-returned (err_chunk bytes more) text r t h e =
      elim (Bool-cases (ltb config.codex_max_output_bytes (r.total_bytes + bytes))) [
        | inl over ↦ inl (ap (λ (u : Running). u.output_exceeded) (sym (ok-inj (rw over at e))))
        | inr below ↦ inr (
            subst (Follows parse evaluate config request (text ++ [])) (ok-inj (rw below at e))
              (nothing_more parse evaluate config request text r h))
      ]
  step-returned time_out text r t h e = inr (
      subst (Follows parse evaluate config request (text ++ [])) (ok-inj e)
        (nothing_more parse evaluate config request text r h))
  step-returned cancel text r t h e = inr (
      subst (Follows parse evaluate config request (text ++ [])) (ok-inj e)
        (nothing_more parse evaluate config request text r h))

  run_steps-exceeded :
      (steps : List RunStep) (r t : Running)
      → run_steps parse evaluate config request steps r ≡ ok t
      → r.output_exceeded ≡ true
      → t.output_exceeded ≡ true
  unfolding run_steps
  run_steps-exceeded [] r t h k = ap (λ (u : Running). u.output_exceeded) (sym (ok-inj h)) ∙ k
  run_steps-exceeded (s ∷ steps) r t h k =
      let (m, e, later) =
        bind-eq-ok (step parse evaluate config request s r)
          (run_steps parse evaluate config request steps) h in
      run_steps-exceeded steps m t later (step-exceeded s r m e k)

  pub run_steps-returned :
      (steps : List RunStep) (text : Text) (r t : Running)
      → Follows parse evaluate config request text r
      → run_steps parse evaluate config request steps r ≡ ok t
      → (t.output_exceeded ≡ true)
        ⊎ Follows parse evaluate config request (text ++ all_written steps) t
  unfolding run_steps
  run_steps-returned [] text r t h e = inr (
      subst (Follows parse evaluate config request (text ++ [])) (ok-inj e)
        (nothing_more parse evaluate config request text r h))
  run_steps-returned (s ∷ steps) text r t h e =
      let (m, stepped, later) =
        bind-eq-ok (step parse evaluate config request s r)
          (run_steps parse evaluate config request steps) e in
      elim (step-returned s text r m h stepped) [
        | inl over ↦ inl (run_steps-exceeded steps m t later over)
        | inr follows ↦ elim (run_steps-returned steps (text ++ written s) m t follows later) [
          | inl over ↦ inl over
          | inr after ↦ inr (
              subst (λ u. Follows parse evaluate config request u t)
                (append_assoc text (written s) (all_written steps)) after)
        ]
      ]
