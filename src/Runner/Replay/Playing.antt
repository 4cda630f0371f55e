-- ===== src/Runner/Replay/Playing.antt =====
-- About the loop of the replay (apps/server/src/replay-runner.ts).
use code_jam.Prelude.{
  ltb, Bool-cases, length, ok-inj, Text, ok, bind-eq-ok, ◌≡◌, refl, sym, ap, ◌∙◌, ◌⊎◌, inl, inr,
  Bool, true, false, ◌&&◌, Option, none, some, List, [], ◌∷◌, ◌++◌,
}
use mathlib.Core.Path.{subst}
use code_jam.Policy.Scan.{Evaluator, DetectedViolation, scan_commands}
use code_jam.Policy.Scan.Laws.{violations-append, scan_commands_complete}
use code_jam.Service.Execution.{RunnerInput}
use code_jam.Runner.{Parser, ParsedEvents, parse_codex_event_line, parse_lines}
use code_jam.Runner.Lines.{parse_codex_event_line-Grows, parse_lines-Grows}
use code_jam.Runner.Stream.{RunnerConfig, actor_of, context_of, first_of}
use code_jam.Runner.Judging.{judged, drop-length, first_of-append, over_append}
use code_jam.Runner.Replay.{
  Replaying, went_on, from_result, is_refused, replay_violations, replay_policy, replay_line,
  replay_lines,
}

stop-cases :
    (o : Option DetectedViolation) (is_enforced : Bool)
    → (is_refused o && is_enforced) ≡ true
    → (is_enforced ≡ true) × ((v : DetectedViolation) × (o ≡ some v))
stop-cases none is_enforced h = cc
stop-cases (some v) is_enforced h = (h, (v, refl))

module _ (parse : Parser) (evaluate : Evaluator) (config : RunnerConfig)
    (request : RunnerInput) where
  -- The replay has judged the first commands of those it read.
  abbrev pub HasPlayed : List Text → Replaying → Type 0
  HasPlayed commands r =
      (r.scanned_commands ≡ length commands)
      × (r.observations ≡ judged parse evaluate config request commands)
      × (r.violation ≡ first_of none (judged parse evaluate config request commands))
      × (r.budget_exceeded ≡ ltb config.policy_max_commands (length commands))

  pub replay_policy-HasPlayed :
      (r : Replaying) (old new : List Text)
      → HasPlayed old r
      → r.parsed.commands ≡ old ++ new
      → (s : Replaying) × (replay_policy parse evaluate config request r ≡ went_on s)
        × (s.parsed ≡ r.parsed)
        × HasPlayed (old ++ new) s
  unfolding replay_policy replay_violations from_result
  replay_policy-HasPlayed r old new (scanned, seen, first, over) e =
      let judge : List Text → List DetectedViolation = judged parse evaluate config request in
      let split =
        violations-append evaluate (actor_of request) (context_of config request) old new in
      let scan : scan_commands evaluate (actor_of request) r.parsed.commands r.scanned_commands
            (context_of config request)
          ≡ ok (judged parse evaluate config request new) =
        rw
          (
            e,
            scanned,
            scan_commands_complete evaluate (actor_of request) (old ++ new) (length old)
                (context_of config request),
            drop-length old new,
          )
          refl in
      (
        replay_violations parse evaluate config request r
            (judged parse evaluate config request new),
        rw scan refl,
        refl,
        (
          ap length e,
          rw (seen, split) refl,
          rw (first, split)
              (sym (
                first_of-append (judged parse evaluate config request old)
                  (judged parse evaluate config request new))),
          rw (over, e) (over_append config.policy_max_commands old new),
        ),
      )

  -- The replay stopped at the denial that the whole of the lines starts with.
  abbrev pub HasStopped : ParsedEvents → Replaying → Type 0
  HasStopped p r =
      (config.is_enforced ≡ true)
      × ((v : DetectedViolation) × (r.violation ≡ some v)
          × (first_of none (judged parse evaluate config request p.commands) ≡ some v))

  stopped-first :
      (p q : ParsedEvents) (r : Replaying) (new : List Text) (v : DetectedViolation)
      → p.commands ≡ q.commands ++ new
      → HasPlayed q.commands r
      → r.violation ≡ some v
      → first_of none (judged parse evaluate config request p.commands) ≡ some v
  unfolding first_of
  stopped-first p q r new v grown (_, _, first, _) found =
      let split =
        violations-append evaluate (actor_of request) (context_of config request) q.commands new in
      let here = sym first ∙ found in
      rw
        (
          grown,
          split,
          first_of-append (judged parse evaluate config request q.commands)
              (judged parse evaluate config request new),
          here,
        )
        refl

  -- The loop over lines that parse reads all of them, or stops at an enforced denial.
  pub replay_lines-HasPlayed :
      (lines : List Text) (r : Replaying) (p : ParsedEvents)
      → HasPlayed r.parsed.commands r
      → parse_lines parse lines r.parsed ≡ ok p
      → (s : Replaying) × (replay_lines parse evaluate config request false lines r ≡ went_on s)
        × HasPlayed s.parsed.commands s
        × ((s.parsed ≡ p) ⊎ HasStopped p s)
  unfolding replay_lines replay_line parse_lines from_result
  replay_lines-HasPlayed [] r p h e = (r, refl, h, inl (ok-inj e))
  replay_lines-HasPlayed (line ∷ lines) r p h e =
      let (q, read, later) =
        bind-eq-ok (parse_codex_event_line parse line r.parsed) (parse_lines parse lines) e in
      let (new, grown) = parse_codex_event_line-Grows parse line r.parsed q read in
      let (s, judges, same, plays) =
        replay_policy-HasPlayed (record r { parsed = q }) r.parsed.commands new h grown in
      let played : HasPlayed s.parsed.commands s =
        subst (λ u. HasPlayed u s) (sym grown ∙ ap (λ (t : ParsedEvents). t.commands) (sym same))
          plays in
      let again : parse_lines parse lines s.parsed ≡ ok p =
        ap (parse_lines parse lines) same ∙ later in
      let line_read : replay_line parse evaluate config request false line r ≡ went_on s =
        rw (read) judges in
      elim (Bool-cases (is_refused s.violation && config.is_enforced)) [
        | inl stop ↦
            let (enforced, (v, found)) = stop-cases s.violation config.is_enforced stop in
            let (more, longer) = parse_lines-Grows parse lines q p later in
            let first =
              stopped-first p q s more v longer
                (subst (λ u. HasPlayed u s) (ap (λ (t : ParsedEvents). t.commands) same) played)
                found in
            (s, rw (line_read, stop) refl, played, inr (enforced, (v, found, first)))
        | inr on ↦
            let (t, ran, after, ended) = replay_lines-HasPlayed lines s p played again in
            (t, rw (line_read, on) ran, after, ended)
      ]
