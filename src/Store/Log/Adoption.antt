-- ===== src/Store/Log/Adoption.antt =====
-- About `load` of `PolicyEventLog` (store.ts): which events are admitted, and a second load.
use mathlib.Core.Path.{subst, fun_ext}
use code_jam.Prelude.{
  Bool-cases, All, All-split, All-imp, All-split, Text, text_eq_refl, text_eq_sym, includes, ok,
  ◌≡◌, refl, sym, ap, ◌∙◌, ◌⊎◌, inl, inr, Bool, true, false, ◌||◌, some, List, [], ◌∷◌, ◌++◌, map,
  arith,
}
use code_jam.Data.{PolicyDecision}
use code_jam.Store.Log.{World, is_expired, write, compact, parsed_lines, admit, sort_events, load}
use code_jam.Store.Log.Retention.{InOrder}
use code_jam.Store.Log.Loading.{
  All-sort_events, sort_events-InOrder, sort_events_sorted, has_id, HasDistinctIds,
  has_id-sort_events, sort_events-HasDistinctIds,
}

module _ (expired : PolicyDecision → Bool) where
  abbrev IsFresh : List Text → PolicyDecision → Type 0
  IsFresh seen e = (expired e ≡ false) × (includes e.id seen ≡ false)

  admit-IsFresh :
      (es : List PolicyDecision) (seen : List Text) → All (IsFresh seen) (admit expired seen es)
  unfolding admit
  admit-IsFresh [] seen = tt
  admit-IsFresh (e ∷ es) seen = elim (Bool-cases (expired e)) [
    | inl x ↦ rw x (admit-IsFresh es seen)
    | inr x ↦ elim (Bool-cases (includes e.id seen)) [
      | inl s ↦ rw (x, s) (admit-IsFresh es seen)
      | inr s ↦
          rw (x, s)
            (
              (x, s),
              All-imp (IsFresh (e.id ∷ seen)) (IsFresh seen) (admit expired (e.id ∷ seen) es)
                  (λ f h. ground arith) (admit-IsFresh es (e.id ∷ seen)),
            )
    ]
  ]

  fresh-has_id :
      (id : Text) (es : List PolicyDecision) (seen : List Text)
      → All (IsFresh (id ∷ seen)) es
      → has_id id es ≡ false
  fresh-has_id id [] seen h = refl
  fresh-has_id id (e ∷ es) seen (q, h) =
      ground (arith, fresh-has_id id es seen h, text_eq_sym id e.id)

  admit-HasDistinctIds :
      (es : List PolicyDecision) (seen : List Text) → HasDistinctIds (admit expired seen es)
  unfolding admit
  admit-HasDistinctIds [] seen = tt
  admit-HasDistinctIds (e ∷ es) seen = elim (Bool-cases (expired e)) [
    | inl x ↦ rw x (admit-HasDistinctIds es seen)
    | inr x ↦ elim (Bool-cases (includes e.id seen)) [
      | inl s ↦ rw (x, s) (admit-HasDistinctIds es seen)
      | inr s ↦
          rw (x, s)
            (
              fresh-has_id e.id (admit expired (e.id ∷ seen) es) seen
                  (admit-IsFresh es (e.id ∷ seen)),
              admit-HasDistinctIds es (e.id ∷ seen),
            )
    ]
  ]

  -- An event that is expired, or whose id is there already.
  abbrev IsCovered : List Text → List PolicyDecision → PolicyDecision → Type 0
  IsCovered seen kept e = (expired e ≡ true) ⊎ ((includes e.id seen || has_id e.id kept) ≡ true)

  admit_expired :
      (e : PolicyDecision) (es : List PolicyDecision) (seen : List Text)
      → expired e ≡ true
      → admit expired seen (e ∷ es) ≡ admit expired seen es
  unfolding admit
  admit_expired e es seen x = rw x

  admit_seen :
      (e : PolicyDecision) (es : List PolicyDecision) (seen : List Text)
      → includes e.id seen ≡ true
      → admit expired seen (e ∷ es) ≡ admit expired seen es
  unfolding admit
  admit_seen e es seen s = ground arith

  admit_new :
      (e : PolicyDecision) (es : List PolicyDecision) (seen : List Text)
      → expired e ≡ false
      → includes e.id seen ≡ false
      → admit expired seen (e ∷ es) ≡ e ∷ admit expired (e.id ∷ seen) es
  unfolding admit
  admit_new e es seen x s = rw (x, s)

  admit-IsCovered :
      (es : List PolicyDecision) (seen : List Text)
      → All (IsCovered seen (admit expired seen es)) es
  admit-IsCovered [] seen = tt
  admit-IsCovered (e ∷ es) seen =
      let P = λ (kept : List PolicyDecision). All (IsCovered seen kept) (e ∷ es) in
      elim (Bool-cases (expired e)) [
        | inl x ↦ subst P (sym (admit_expired e es seen x)) (inl x, admit-IsCovered es seen)
        | inr x ↦ elim (Bool-cases (includes e.id seen)) [
          | inl s ↦ subst P (sym (admit_seen e es seen s)) (inr (rw s), admit-IsCovered es seen)
          | inr s ↦ subst P (sym (admit_new e es seen x s)) (
            inr (ground (arith, text_eq_refl e.id)),
            All-imp (IsCovered (e.id ∷ seen) (admit expired (e.id ∷ seen) es))
                (IsCovered seen (e ∷ admit expired (e.id ∷ seen) es)) es (λ f h. ground arith)
                (admit-IsCovered es (e.id ∷ seen)),
          )
        ]
      ]

  IsFresh-cons :
      (id : Text) (xs : List PolicyDecision) (seen : List Text)
      → All (IsFresh seen) xs
      → has_id id xs ≡ false
      → All (IsFresh (id ∷ seen)) xs
  IsFresh-cons id [] seen h n = tt
  IsFresh-cons id (x ∷ xs) seen ((u, s), h) n =
      ((u, ground (arith, text_eq_sym id x.id)), IsFresh-cons id xs seen h (ground arith))

  admit_covered :
      (ys : List PolicyDecision) (seen : List Text)
      → All (IsCovered seen []) ys
      → admit expired seen ys ≡ []
  unfolding admit
  admit_covered [] seen h = refl
  admit_covered (y ∷ ys) seen (q, h) = ground (arith, admit_covered ys seen h)

  -- What is fresh and distinct is admitted whole, and what it covers is not admitted again.
  admit_fresh :
      (xs ys : List PolicyDecision) (seen : List Text)
      → All (IsFresh seen) xs
      → HasDistinctIds xs
      → All (IsCovered seen xs) ys
      → admit expired seen (xs ++ ys) ≡ xs
  admit_fresh [] ys seen h d k = admit_covered ys seen k
  admit_fresh (x ∷ xs) ys seen ((u, s), h) (n, d) k =
      admit_new x (xs ++ ys) seen u s
      ∙ ap (◌∷◌ x) (
          admit_fresh xs ys (x.id ∷ seen) (IsFresh-cons x.id xs seen h n) d (
            All-imp (IsCovered seen (x ∷ xs)) (IsCovered (x.id ∷ seen) xs) ys (λ f q. ground arith)
              k))

pub parsed_lines-some : (es : List PolicyDecision) → parsed_lines (map some es) ≡ es
unfolding parsed_lines
parsed_lines-some [] = refl
parsed_lines-some (e ∷ es) = ap (◌∷◌ e) (parsed_lines-some es)

-- What a load holds in memory, whether or not the rewrite of the file fails.
load_events :
    (adopted : List PolicyDecision) (w : World)
    → (load adopted w).1.events
      ≡ sort_events (admit (is_expired w) [] (parsed_lines w.lines ++ adopted))
unfolding load compact write
load_events adopted w = ground arith

-- A load leaves in memory events that are in time order, each within retention and under an id of
-- its own, and every event of the file or adopted that is not expired is among them by its id;
-- whether or not a write fails.
pub load-IsComplete :
    (adopted : List PolicyDecision) (w : World)
    → InOrder (load adopted w).1.events
      × HasDistinctIds (load adopted w).1.events
      × All (λ e. is_expired w e ≡ false) (load adopted w).1.events
      × All
          (λ e. (is_expired w e ≡ true) ⊎ (has_id e.id (load adopted w).1.events ≡ true))
          (parsed_lines w.lines ++ adopted)
load-IsComplete adopted w =
    let es = parsed_lines w.lines ++ adopted in
    let kept = admit (is_expired w) [] es in
    rw (load_events adopted w) (
      sort_events-InOrder kept,
      sort_events-HasDistinctIds kept (admit-HasDistinctIds (is_expired w) es []),
      All-sort_events (λ e. is_expired w e ≡ false) kept
          (All-imp (IsFresh (is_expired w) []) (λ e. is_expired w e ≡ false) kept (λ e h. h.0)
            (admit-IsFresh (is_expired w) es [])),
      All-imp (IsCovered (is_expired w) [] kept)
          (λ e. (is_expired w e ≡ true) ⊎ (has_id e.id (sort_events kept) ≡ true)) es
          (λ e h. ground (arith, has_id-sort_events e.id kept))
          (admit-IsCovered (is_expired w) es []),
    )

-- What was admitted and sorted is admitted and sorted again as it is.
reload :
    (expired : PolicyDecision → Bool) (on_disk adopted : List PolicyDecision)
    → sort_events
        (admit expired [] (sort_events (admit expired [] (on_disk ++ adopted)) ++ adopted))
      ≡ sort_events (admit expired [] (on_disk ++ adopted))
reload expired on_disk adopted =
    let es = on_disk ++ adopted in
    let kept = admit expired [] es in
    let covered =
      All-imp (IsCovered expired [] kept) (IsCovered expired [] (sort_events kept)) es
        (λ e h. ground (arith, has_id-sort_events e.id kept)) (admit-IsCovered expired es []) in
    ap sort_events (
      admit_fresh expired (sort_events kept) adopted []
        (All-sort_events (IsFresh expired []) kept (admit-IsFresh expired es []))
        (sort_events-HasDistinctIds kept (admit-HasDistinctIds expired es []))
        (All-split (IsCovered expired [] (sort_events kept)) on_disk adopted covered).1)
    ∙ sort_events_sorted (sort_events kept) (sort_events-InOrder kept)

record LoadedWorld (adopted : List PolicyDecision) (w w' : World) : Type 0 where
  events : w'.events ≡ sort_events (admit (is_expired w) [] (parsed_lines w.lines ++ adopted))
  lines : (w'.lines ≡ map some w'.events) ⊎ ((w'.lines ≡ w.lines) × (adopted ≡ []))
  clock : w'.clock ≡ w.clock
  days : w'.retention_days ≡ w.retention_days

load-LoadedWorld :
    (adopted : List PolicyDecision) (w w' : World)
    → load adopted w ≡ (ok tt, w')
    → LoadedWorld adopted w w'
unfolding load compact write
load-LoadedWorld adopted w w' h = record {
  events = ground arith;
  lines = ground arith;
  clock = ground arith;
  days = ground arith;
}

-- Adoption is idempotent: if a load succeeded, then a server that starts again on the file it left,
-- within the same millisecond, and is offered the same events once more, holds exactly the same
-- events.
pub load_idempotent :
    (adopted : List PolicyDecision) (w w' : World)
    → load adopted w ≡ (ok tt, w')
    → (load adopted w').1.events ≡ w'.events
load_idempotent adopted w w' h =
    let l = load-LoadedWorld adopted w w' h in
    let same : is_expired w' ≡ is_expired w = fun_ext (λ e. rw (l.clock, l.days)) in
    load_events adopted w'
    ∙ rw same (elim l.lines [
      | inl rewritten ↦
          rw (rewritten, parsed_lines-some w'.events, l.events)
            (reload (is_expired w) (parsed_lines w.lines) adopted)
      | inr (kept, nothing) ↦ rw kept (sym l.events)
    ])
