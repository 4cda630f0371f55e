-- ===== src/Runner/Judging.antt =====
-- About `applyPolicy` of the runner (apps/server/src/codex-runner.ts).
use code_jam.Prelude.{
  ltb, ltb→lt, lt→ltb, Bool-cases, length, drop, length-append, Text, ok, ℕ, ◌≡◌, refl, sym, ap,
  inl, inr, ◌||◌, none, List, [], ◌∷◌, ◌++◌, arith,
}
use code_jam.Policy.Scan.{Evaluator, DetectedViolation, scan_commands}
use code_jam.Policy.Scan.Laws.{violations, violations-append, scan_commands_complete}
use code_jam.Service.Execution.{RunnerInput}
use code_jam.Runner.{Parser}
use code_jam.Runner.Stream.{
  RunnerConfig, actor_of, context_of, Running, first_of, note_violations, apply_policy,
}

pub drop-length {ℓ} : {A : Type ℓ} (xs ys : List A) → drop (length xs) (xs ++ ys) ≡ ys
drop-length [] ys = refl
drop-length (x ∷ xs) ys = drop-length xs ys

pub first_of-append :
    (xs ys : List DetectedViolation) → first_of none (xs ++ ys) ≡ first_of (first_of none xs) ys
unfolding first_of
first_of-append [] ys = refl
first_of-append (x ∷ xs) ys = refl

pub over_append :
    (limit : ℕ) (xs ys : List Text)
    → (ltb limit (length xs) || ltb limit (length (xs ++ ys))) ≡ ltb limit (length (xs ++ ys))
over_append limit xs ys = elim (Bool-cases (ltb limit (length xs))) [
  | inl e ↦
      let below = ltb→lt limit (length xs) e in
      let above = lt→ltb limit (length (xs ++ ys)) (omega (arith, below, length-append xs ys)) in
      rw (e, above) refl
  | inr e ↦ rw e refl
]

module _ (parse : Parser) (evaluate : Evaluator) (config : RunnerConfig)
    (request : RunnerInput) where
  -- The violations of a list of commands, as the run's context judges them.
  abbrev pub judged : List Text → List DetectedViolation
  judged commands = violations evaluate (actor_of request) (context_of config request) commands

  -- The run has judged the first commands of those it read.
  abbrev pub HasJudged : List Text → Running → Type 0
  HasJudged commands r =
      (r.scanned_commands ≡ length commands)
      × (r.observations ≡ judged commands)
      × (r.violation ≡ first_of none (judged commands))
      × (r.budget_exceeded ≡ ltb config.policy_max_commands (length commands))

  pub apply_policy-HasJudged :
      (r : Running) (old new : List Text)
      → HasJudged old r
      → r.parsed.commands ≡ old ++ new
      → (apply_policy parse evaluate config request r
          ≡ ok (note_violations parse evaluate config request r (judged new)))
        × HasJudged (old ++ new) (note_violations parse evaluate config request r (judged new))
  unfolding apply_policy note_violations
  apply_policy-HasJudged r old new (scanned, seen, first, over) e =
      let split =
        violations-append evaluate (actor_of request) (context_of config request) old new in
      let scan : scan_commands evaluate (actor_of request) r.parsed.commands r.scanned_commands
            (context_of config request)
          ≡ ok (judged new) =
        rw
          (
            e,
            scanned,
            scan_commands_complete evaluate (actor_of request) (old ++ new) (length old)
                (context_of config request),
            drop-length old new,
          )
          refl in
      (
        rw scan refl,
        (
          ap length e,
          rw (seen, split) refl,
          rw (first, split) (sym (first_of-append (judged old) (judged new))),
          rw (over, e) (over_append config.policy_max_commands old new),
        ),
      )
