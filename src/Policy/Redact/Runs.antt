-- ===== src/Policy/Redact/Runs.antt =====
-- About the last pass of `redactCommand` (command-policy.ts), which masks high-entropy runs.
use mathlib.Core.List.{append-nil, append_assoc}
use code_jam.Prelude.{
  if◌then◌else◌, Bool-cases, All, All-append, All-split, Text, codes, ℕ, ◌≡◌, refl, sym, ◌∙◌, inl,
  inr, true, false, List, [], ◌∷◌, ◌++◌, arith,
}
use code_jam.Policy.Redact.{
  redacted_mark, is_run, is_high_entropy, show_run, mask_runs, redact_command, mask_urls,
  mask_secrets,
}

abbrev emitted : Text → List Text
emitted [] = []
emitted (c ∷ s) = (c ∷ s) ∷ []

-- The matches of HIGH_ENTROPY_RUN in a text, behind a run that is being read.
unfoldable pub runs_from : Text → Text → List Text
runs_from cur [] = emitted cur
runs_from cur (c ∷ s) =
    let inside = runs_from (cur ++ c ∷ []) s in
    let after = emitted cur ++ runs_from [] s in if is_run c then inside else after

abbrev IsRun : Text → Type 0
IsRun = All (λ c. is_run c ≡ true)

abbrev pub IsCalm : Text → Type 0
IsCalm run = is_high_entropy run ≡ false

runs_from-append :
    (cur run s : Text) → IsRun run → runs_from cur (run ++ s) ≡ runs_from (cur ++ run) s
unfolding runs_from
runs_from-append cur [] s h = rw append-nil
runs_from-append cur (c ∷ run) s (q, h) =
    rw q (runs_from-append (cur ++ c ∷ []) run s h ∙ rw append_assoc)

mark-IsCalm : is_high_entropy (codes "REDACTED") ≡ false
unfolding is_high_entropy codes
mark-IsCalm = refl

runs_from-mark_other :
    (c : ℕ) (s : Text)
    → is_run c ≡ false
    → runs_from [] (redacted_mark ++ (c ∷ s)) ≡ codes "REDACTED" ∷ runs_from [] s
unfolding runs_from is_run codes
runs_from-mark_other c s h = ground arith

runs_from-mark_end : runs_from [] (redacted_mark) ≡ codes "REDACTED" ∷ []
unfolding runs_from is_run codes
runs_from-mark_end = refl

IsCalm-emitted : (run : Text) → IsCalm run → All IsCalm (emitted run)
IsCalm-emitted [] h = tt
IsCalm-emitted (c ∷ s) h = (h, tt)

runs_from-run : (run : Text) → IsRun run → runs_from [] run ≡ emitted run
unfolding runs_from
runs_from-run run h = rw (append-nil run) at (runs_from-append [] run [] h)

runs_from-other :
    (run : Text) (c : ℕ) (s : Text)
    → is_run c ≡ false
    → runs_from run (c ∷ s) ≡ emitted run ++ runs_from [] s
unfolding runs_from
runs_from-other run c s o = rw o

mask_runs-IsCalm : (run s : Text) → IsRun run → All IsCalm (runs_from [] (mask_runs run s))
unfolding mask_runs
mask_runs-IsCalm run [] h = elim (Bool-cases (is_high_entropy run)) [
  | inl e ↦ rw (e, runs_from-mark_end) (mark-IsCalm, tt)
  | inr e ↦ rw e (rw (runs_from-run run h) (IsCalm-emitted run e))
]
mask_runs-IsCalm run (c ∷ s) h = elim (Bool-cases (is_run c)) [
  | inl i ↦ rw i (
      mask_runs-IsCalm (run ++ c ∷ []) s (All-append (λ d. is_run d ≡ true) run (c ∷ []) h (i, tt)))
  | inr o ↦ elim (Bool-cases (is_high_entropy run)) [
    | inl e ↦ rw (o, e, runs_from-mark_other c _ o) (mark-IsCalm, mask_runs-IsCalm [] s tt)
    | inr e ↦
        rw (o, e, runs_from-append [] run _ h, runs_from-other run c _ o)
          (All-append IsCalm (emitted run) _ (IsCalm-emitted run e) (mask_runs-IsCalm [] s tt))
  ]
]

-- Whatever the command, what is recorded of it holds no run of 28 or more key-like code units with
-- both a letter and a digit.
pub redact_command-IsCalm :
    (command : Text) (secrets : List Text)
    → All IsCalm (runs_from [] (redact_command command secrets))
unfolding redact_command
redact_command-IsCalm command secrets =
    mask_runs-IsCalm [] (mask_urls 0 false (mask_secrets command secrets)) tt

show_run_calm : (run : Text) → All IsCalm (emitted run) → show_run run ≡ run
unfolding is_high_entropy
show_run_calm [] h = refl
show_run_calm (c ∷ run) (h, _) = rw h

mask_runs_calm :
    (run s : Text) → IsRun run → All IsCalm (runs_from run s) → mask_runs run s ≡ run ++ s
unfolding mask_runs runs_from
mask_runs_calm run [] h k = show_run_calm run k ∙ sym (append-nil run)
mask_runs_calm run (c ∷ s) h k = elim (Bool-cases (is_run c)) [
  | inl i ↦ rw i (
      mask_runs_calm (run ++ c ∷ []) s (All-append (λ d. is_run d ≡ true) run (c ∷ []) h (i, tt))
        (rw i at k)
      ∙ append_assoc run (c ∷ []) s)
  | inr o ↦
      let (front, back) = All-split IsCalm (emitted run) (runs_from [] s) (rw o at k) in
      rw (o, show_run_calm run front, mask_runs_calm [] s tt back)
]

-- A second pass changes nothing.
pub mask_runs_idempotent : (s : Text) → mask_runs [] (mask_runs [] s) ≡ mask_runs [] s
mask_runs_idempotent s = mask_runs_calm [] (mask_runs [] s) tt (mask_runs-IsCalm [] s tt)
