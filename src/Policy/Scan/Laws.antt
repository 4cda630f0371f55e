-- ===== src/Policy/Scan/Laws.antt =====
-- About `scanCommands` (command-policy.ts) and its loop by index.
use code_jam.Prelude.{
  length, drop, get_elem?, Text, split, Result, ok, err, ℕ, zero, suc, ◌+◌, ◌-◌, ◌≤◌, ◌≡◌, refl,
  sym, ap, ◌∙◌, Option, none, some, List, [], ◌∷◌, ◌++◌, arith,
}
use mathlib.Core.List.{append-nil, append_assoc}
use native.Mathlib.Numerals.{add-one}
use code_jam.Policy.Types.{PolicyContext, Actor, PolicyViolation}
use code_jam.Policy.Redact.{redact_command}
use code_jam.Policy.Scan.{
  Evaluator, policy_error, guarded_evaluate, DetectedViolation, secrets_of, scan_one, scan_from,
  scan_commands_with, scan_commands,
}

-- The verdict of an evaluator, with a throw read as a denial.
abbrev pub verdict : Result (Option PolicyViolation) → Option PolicyViolation
verdict (ok v) = v
verdict (err _) = some policy_error

module _ (evaluate : Evaluator) (actor : Actor) (context : PolicyContext) where
  -- The violations of a list of commands, one for each that is denied, in their order.
  abbrev pub violations : List Text → List DetectedViolation
  violations [] = []
  violations ([] ∷ commands) = violations commands
  violations ((c ∷ s) ∷ commands) = elim (verdict (evaluate actor (c ∷ s) context)) [
    | none ↦ violations commands
    | some v ↦
        record { violation = v; command = redact_command (c ∷ s) (secrets_of context) }
        ∷ violations commands
  ]

drop-get {ℓ} :
    {A : Type ℓ} (n i : ℕ) (xs : List A)
    → length xs ≡ suc (n + i)
    → (x : A) × (get_elem? xs i ≡ some x) × (drop i xs ≡ x ∷ drop (suc i) xs)
drop-get n i [] h = absurd (omega arith)
drop-get n zero (x ∷ xs) h = (x, refl, refl)
drop-get n (suc i) (x ∷ xs) h = drop-get n i xs (omega arith)

drop-all {ℓ} : {A : Type ℓ} (i : ℕ) (xs : List A) → length xs ≤ i → drop i xs ≡ []
drop-all zero [] h = refl
drop-all zero (x ∷ xs) h = absurd (omega arith)
drop-all (suc i) [] h = refl
drop-all (suc i) (x ∷ xs) h = drop-all i xs (omega arith)

module _ (evaluate : Evaluator) (actor : Actor) (context : PolicyContext) where
  scan_one-violations :
      (command : Text) (found : List DetectedViolation)
      → scan_one (guarded_evaluate evaluate) actor context (some command) found
        ≡ ok (found ++ violations evaluate actor context (command ∷ []))
  unfolding scan_one guarded_evaluate
  scan_one-violations [] found = ap ok (sym (append-nil found))
  scan_one-violations (c ∷ s) found = go (evaluate actor (c ∷ s) context) refl
    where
      go :
          (r : Result (Option PolicyViolation))
          → evaluate actor (c ∷ s) context ≡ r
          → scan_one (guarded_evaluate evaluate) actor context (some (c ∷ s)) found
            ≡ ok (found ++ violations evaluate actor context ((c ∷ s) ∷ []))
      go (ok none) e =
          rw (e, guarded_evaluate, violations, scan_one) (ap ok (sym (append-nil found)))
      go (ok (some v)) e = rw (e, guarded_evaluate, violations, scan_one)
      go (err _) e = rw (e, guarded_evaluate, violations, scan_one)

  violations-cons :
      (command : Text) (rest : List Text)
      → violations evaluate actor context (command ∷ rest)
        ≡ violations evaluate actor context (command ∷ []) ++ violations evaluate actor context rest
  violations-cons [] rest = refl
  violations-cons (c ∷ s) rest = ground arith

  pub violations-append :
      (xs ys : List Text)
      → violations evaluate actor context (xs ++ ys)
        ≡ violations evaluate actor context xs ++ violations evaluate actor context ys
  violations-append [] ys = refl
  violations-append (x ∷ xs) ys =
      violations-cons x (xs ++ ys)
      ∙ ap (λ t. violations evaluate actor context (x ∷ []) ++ t) (violations-append xs ys)
      ∙ sym (
          append_assoc (violations evaluate actor context (x ∷ []))
            (violations evaluate actor context xs) (violations evaluate actor context ys))
      ∙ ap (λ t. t ++ violations evaluate actor context ys) (sym (violations-cons x xs))

  scan_from-violations :
      (n i : ℕ) (commands : List Text) (found : List DetectedViolation)
      → length commands - i ≡ n
      → scan_from (guarded_evaluate evaluate) actor context n i commands found
        ≡ ok (found ++ violations evaluate actor context (drop i commands))
  unfolding scan_from
  scan_from-violations zero i commands found h =
      rw (drop-all i commands (omega arith)) (ap ok (sym (append-nil found)))
  scan_from-violations (suc n) i commands found h =
      let (command, here, split) = drop-get n i commands (omega arith) in
      let next = found ++ violations evaluate actor context (command ∷ []) in
      let later = scan_from-violations n (suc i) commands next (omega arith) in
      rw (here, scan_one-violations command found, add-one i, later, split)
        (ap ok (
          append_assoc found (violations evaluate actor context (command ∷ [])) _
          ∙ ap (λ v. found ++ v) (sym (violations-cons command (drop (suc i) commands)))))

-- A scan always returns, whatever the evaluator throws, and what it returns is one redacted
-- violation for each non-empty command from the start index on that is denied, where a throw counts
-- as a denial, in the order of the commands.
pub scan_commands_complete :
    (evaluate : Evaluator) (actor : Actor) (commands : List Text) (start : ℕ)
    (context : PolicyContext)
    → scan_commands evaluate actor commands start context
      ≡ ok (violations evaluate actor context (drop start commands))
unfolding scan_commands scan_commands_with
scan_commands_complete evaluate actor commands start context =
    scan_from-violations evaluate actor context (length commands - start) start commands [] refl
