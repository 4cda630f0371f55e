-- ===== src/Store/Json/Durable.antt =====
-- About `mutate` of `JsonStore` (store.ts) when it returns, and the log's file.
use mathlib.Core.Path.{subst, fun_ext}
use mathlib.Core.List.{append-nil, append_assoc}
use code_jam.Prelude.{
  Bool-cases, keep, All, All-append, All-split, All-keep, All-keep_self, Fault, Result, ok, err,
  ◌≤◌, ◌≡◌, refl, sym, ap, ◌∙◌, ◌⊎◌, inl, inr, Bool, not, Option, none, some, List, [], ◌∷◌, ◌++◌,
  map, arith,
}
use code_jam.Data.{PolicyDecision, Database}
use code_jam.Store.Log.{
  World, is_expired, write, compact, drop_prefix, drop_expired, enforce_retention, append,
  parsed_lines,
}
use code_jam.Store.Log.Retention.{InOrder, keep-All, drop_prefix-keep}
use code_jam.Store.Log.Adoption.{parsed_lines-some}
use code_jam.Store.Json.{append_all, mutate, Mutation, to_stored}
use code_jam.Store.Json.Atomic.{SameState, append-SameState, committed, commit_done}

-- The events that are within retention.
abbrev pub unexpired : World → List PolicyDecision → List PolicyDecision
unexpired w = keep (λ e. not (is_expired w e))

-- Within retention, the log in memory and the one in the file agree.
abbrev pub LogsAgree : World → Type 0
LogsAgree w = unexpired w (parsed_lines w.lines) ≡ unexpired w w.events

parsed_lines-concat :
    (lines : List (Option PolicyDecision)) (e : PolicyDecision)
    → parsed_lines (lines ++ some e ∷ []) ≡ parsed_lines lines ++ e ∷ []
unfolding parsed_lines
parsed_lines-concat [] e = refl
parsed_lines-concat (none ∷ lines) e = parsed_lines-concat lines e
parsed_lines-concat (some f ∷ lines) e = ap (◌∷◌ f) (parsed_lines-concat lines e)

module _ {ℓ} {A : Type ℓ} (p : A → Bool) where
  keep-append : (xs ys : List A) → keep p (xs ++ ys) ≡ keep p xs ++ keep p ys
  keep-append [] ys = refl
  keep-append (x ∷ xs) ys = ground (arith, keep-append xs ys)

  keep-keep : (xs : List A) → keep p (keep p xs) ≡ keep p xs
  keep-keep xs = keep-All p (keep p xs) (All-keep_self p xs)

InOrder-keep :
    (p : PolicyDecision → Bool) (xs ys : List PolicyDecision)
    → InOrder (xs ++ ys)
    → InOrder (keep p xs ++ ys)
InOrder-keep p [] ys h = h
InOrder-keep p (x ∷ xs) ys (q, h) = elim (Bool-cases (p x)) [
  | inl e ↦ rw e (later, InOrder-keep p xs ys h)
  | inr e ↦ rw e (InOrder-keep p xs ys h)
]
  where
    later : All (λ (f : PolicyDecision). x.decided_at ≤ f.decided_at) (keep p xs ++ ys)
    later =
        let P = λ (f : PolicyDecision). x.decided_at ≤ f.decided_at in
        let (front, back) = All-split P xs ys q in
        All-append P (keep p xs) ys (All-keep P p xs front) back

InOrder-front : (xs ys : List PolicyDecision) → InOrder (xs ++ ys) → InOrder xs
InOrder-front [] ys h = tt
InOrder-front (x ∷ xs) ys (q, h) = (
  (All-split (λ (f : PolicyDecision). x.decided_at ≤ f.decided_at) xs ys q).0,
  InOrder-front xs ys h,
)

-- What an append that succeeded leaves in memory and in the file.
append_files :
    (e : PolicyDecision) (w w' : World)
    → append e w ≡ (ok tt, w')
    → (w'.events ≡ (drop_prefix (is_expired w) (w.events ++ e ∷ [])).0)
      × ((w'.lines ≡ w.lines ++ some e ∷ []) ⊎ (w'.lines ≡ map some w'.events))
unfolding append write enforce_retention drop_expired compact
append_files e w w' h = (ground arith, ground arith)

-- One append: memory and file hold the unexpired events of before, and then the new one.
append_one :
    (e : PolicyDecision) (w w' : World)
    → InOrder (w.events ++ e ∷ [])
    → LogsAgree w
    → append e w ≡ (ok tt, w')
    → (w'.events ≡ unexpired w (w.events ++ e ∷ []))
      × (unexpired w (parsed_lines w'.lines) ≡ unexpired w (w.events ++ e ∷ []))
append_one e w w' order agree h =
    let (events, lines) = append_files e w w' h in
    let memory = events ∙ drop_prefix-keep w (w.events ++ e ∷ []) order in
    (
      memory,
      elim lines [
        | inl added ↦
            rw (added, parsed_lines-concat)
              (keep-append (λ f. not (is_expired w f)) (parsed_lines w.lines) (e ∷ [])
                ∙ ap (λ es. es ++ unexpired w (e ∷ [])) agree
                ∙ sym (keep-append (λ f. not (is_expired w f)) w.events (e ∷ [])))
        | inr rewritten ↦
            rw (rewritten, parsed_lines-some w'.events, memory)
              (keep-keep (λ f. not (is_expired w f)) (w.events ++ e ∷ []))
      ],
    )

same_expiry : {w w' : World} → SameState w w' → is_expired w' ≡ is_expired w
same_expiry s = fun_ext (λ e. rw (s.clock, s.days))

append_all-cons_ok :
    (e : PolicyDecision) (es : List PolicyDecision) (w v : World)
    → append e w ≡ (ok tt, v)
    → append_all (e ∷ es) w ≡ append_all es v
unfolding append_all
append_all-cons_ok e es w v q = rw q

append_all-cons_err :
    (e : PolicyDecision) (es : List PolicyDecision) (w v : World) (f : Fault)
    → append e w ≡ (err f, v)
    → append_all (e ∷ es) w ≡ (err f, v)
unfolding append_all
append_all-cons_err e es w v f q = rw q

same_unexpired : (w v : World) → is_expired v ≡ is_expired w → unexpired v ≡ unexpired w
same_unexpired w v s = λ i. keep (λ e. not (s i e))

append_expiry :
    (e : PolicyDecision) (w v : World) → append e w ≡ (ok tt, v) → unexpired v ≡ unexpired w
append_expiry e w v q =
    same_unexpired w v (same_expiry (subst (SameState w) (ap (λ r. r.1) q) (append-SameState e w)))

module _ (e : PolicyDecision) (es : List PolicyDecision) (w v : World)
    (order : InOrder (w.events ++ (e ∷ es))) (agree : LogsAgree w)
    (appended : append e w ≡ (ok tt, v)) where
  step_order : InOrder ((w.events ++ e ∷ []) ++ es)
  step_order = subst InOrder (sym (append_assoc w.events (e ∷ []) es)) order

  step_one :
      (v.events ≡ unexpired w (w.events ++ e ∷ []))
      × (unexpired w (parsed_lines v.lines) ≡ unexpired w (w.events ++ e ∷ []))
  step_one = append_one e w v (InOrder-front (w.events ++ e ∷ []) es step_order) agree appended

  step-InOrder : InOrder (v.events ++ es)
  step-InOrder =
      subst (λ xs. InOrder (xs ++ es)) (sym step_one.0)
        (InOrder-keep (λ f. not (is_expired w f)) (w.events ++ e ∷ []) es step_order)

  step-LogsAgree : LogsAgree v
  step-LogsAgree =
      subst (λ u. u (parsed_lines v.lines) ≡ u v.events) (sym (append_expiry e w v appended))
        (step_one.1
          ∙ sym (keep-keep (λ f. not (is_expired w f)) (w.events ++ e ∷ []))
          ∙ ap (unexpired w) (sym step_one.0))

  step_file :
      unexpired w (parsed_lines v.lines)
      ≡ unexpired w (parsed_lines w.lines) ++ unexpired w (e ∷ [])
  step_file =
      step_one.1
      ∙ keep-append (λ f. not (is_expired w f)) w.events (e ∷ [])
      ∙ ap (λ xs. xs ++ unexpired w (e ∷ [])) (sym agree)

-- What several appends leave in the file, within retention: what was there, then the new events.
abbrev Files : List PolicyDecision → World → Type 0
Files es w =
    unexpired w (parsed_lines (append_all es w).1.lines)
    ≡ unexpired w (parsed_lines w.lines) ++ unexpired w es

Files-cons :
    (e : PolicyDecision) (es : List PolicyDecision) (w v : World)
    → InOrder (w.events ++ (e ∷ es))
    → LogsAgree w
    → append e w ≡ (ok tt, v)
    → Files es v
    → Files (e ∷ es) w
Files-cons e es w v order agree q later =
    let later' =
      subst (λ u. u (parsed_lines (append_all es v).1.lines) ≡ u (parsed_lines v.lines) ++ u es)
        (append_expiry e w v q) later in
    ap (λ r. unexpired w (parsed_lines r.1.lines)) (append_all-cons_ok e es w v q)
    ∙ later'
    ∙ ap (λ xs. xs ++ unexpired w es) (step_file e es w v order agree q)
    ∙ append_assoc (unexpired w (parsed_lines w.lines)) (unexpired w (e ∷ [])) (unexpired w es)
    ∙ ap (λ xs. unexpired w (parsed_lines w.lines) ++ xs)
        (sym (keep-append (λ f. not (is_expired w f)) (e ∷ []) es))

append_many :
    (es : List PolicyDecision) (w : World)
    → InOrder (w.events ++ es)
    → LogsAgree w
    → (append_all es w).0 ≡ ok tt
    → Files es w
append_many [] w order agree h =
    unfold append_all in sym (append-nil (unexpired w (parsed_lines w.lines)))
append_many (e ∷ es) w order agree h = go (append e w).0 (append e w).1 refl (append_many es)
  where
    go :
        (r : Result (Unit {0})) (v : World)
        → append e w ≡ (r, v)
        → ((v : World)
            → InOrder (v.events ++ es)
            → LogsAgree v
            → (append_all es v).0 ≡ ok tt
            → Files es v)
        → Files (e ∷ es) w
    go (ok u) v q later = Files-cons e es w v order agree q (
        later v (step-InOrder e es w v order agree q) (step-LogsAgree e es w v order agree q)
          (sym (ap (λ r. r.0) (append_all-cons_ok e es w v q)) ∙ h))
    go (err f) v q later =
        let failed : ◌≡◌ {A = Result (Unit {0})} (err f) (ok tt) =
          sym (ap (λ r. r.0) (append_all-cons_err e es w v f q)) ∙ h in
        cc failed

-- If the events in memory and then those of a mutation are in time order, the events in memory and in
-- the log's file are the same within retention, and the mutation succeeds, then it took effect whole:
-- the database in memory and the one in the file are what it made, pruned and without its events, and
-- within retention the log's file holds what it held before and then exactly those events.
pub mutate_done :
    {A : Type 0} (mutation : Mutation A) (a : A) (next : Database) (w w' : World)
    → mutation w.memory ≡ ok (a, next)
    → InOrder (w.events ++ next.policy_events)
    → LogsAgree w
    → mutate mutation w ≡ (ok a, w')
    → (w'.memory ≡ committed w next)
      × (w'.stored ≡ some (to_stored (committed w next)))
      × (unexpired w (parsed_lines w'.lines)
          ≡ unexpired w (parsed_lines w.lines) ++ unexpired w next.policy_events)
unfolding mutate
mutate_done mutation a next w w' ran order agree h =
    let (_, logged', memory, stored, lines, _) =
      commit_done a a next w w' (rw (ran, mutate) at h) in
    (
      memory,
      stored,
      ap (λ ls. unexpired w (parsed_lines ls)) lines
          ∙ append_many next.policy_events w order agree logged',
    )
