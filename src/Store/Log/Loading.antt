-- ===== src/Store/Log/Loading.antt =====
-- About the sort of the loaded events in `load` (store.ts).
use code_jam.Prelude.{
  leb, Bool-cases, any, All, All-imp, Text, text_eq, text_eq_sym, ℕ, ◌≤◌, ◌≡◌, refl, ◌∙◌, inl, inr,
  Bool, false, ◌||◌, List, [], ◌∷◌, arith,
}
use code_jam.Data.{PolicyDecision}
use code_jam.Store.Log.{insert_event, sort_events}
use code_jam.Store.Log.Retention.{InOrder}

module _ {ℓ} (P : PolicyDecision → Type ℓ) where
  All-insert_event :
      (e : PolicyDecision) (es : List PolicyDecision) → P e → All P es → All P (insert_event e es)
  unfolding insert_event
  All-insert_event e [] p h = (p, tt)
  All-insert_event e (f ∷ fs) p (q, h) = elim (Bool-cases (leb e.decided_at f.decided_at)) [
    | inl x ↦ rw x (p, (q, h))
    | inr x ↦ rw x (q, All-insert_event e fs p h)
  ]

  pub All-sort_events : (es : List PolicyDecision) → All P es → All P (sort_events es)
  unfolding sort_events
  All-sort_events [] h = tt
  All-sort_events (e ∷ es) (p, h) = All-insert_event e (sort_events es) p (All-sort_events es h)

later_le :
    (n m : ℕ) (es : List PolicyDecision)
    → n ≤ m
    → All (λ (f : PolicyDecision). m ≤ f.decided_at) es
    → All (λ (f : PolicyDecision). n ≤ f.decided_at) es
later_le n m es h =
    All-imp (λ (f : PolicyDecision). m ≤ f.decided_at) (λ (f : PolicyDecision). n ≤ f.decided_at) es
      (λ f k. omega arith)

insert_event-InOrder :
    (e : PolicyDecision) (es : List PolicyDecision) → InOrder es → InOrder (insert_event e es)
unfolding insert_event
insert_event-InOrder e [] h = (tt, tt)
insert_event-InOrder e (f ∷ fs) (q, h) = elim (Bool-cases (leb e.decided_at f.decided_at)) [
  | inl x ↦
      let le : e.decided_at ≤ f.decided_at = ground arith in
      rw x ((le, later_le e.decided_at f.decided_at fs le q), (q, h))
  | inr x ↦ rw x (
    All-insert_event (λ (g : PolicyDecision). f.decided_at ≤ g.decided_at) e fs (ground arith) q,
    insert_event-InOrder e fs h,
  )
]

pub sort_events-InOrder : (es : List PolicyDecision) → InOrder (sort_events es)
unfolding sort_events
sort_events-InOrder [] = tt
sort_events-InOrder (e ∷ es) = insert_event-InOrder e (sort_events es) (sort_events-InOrder es)

-- A list in time order is left alone, so the sort is stable on it.
pub sort_events_sorted : (es : List PolicyDecision) → InOrder es → sort_events es ≡ es
unfolding sort_events insert_event
sort_events_sorted [] h = refl
sort_events_sorted (e ∷ []) h = refl
sort_events_sorted (e ∷ f ∷ fs) ((le, _), h) = rw (sort_events_sorted (f ∷ fs) h) (ground arith)

-- The id of an event is among those of a list.
abbrev pub has_id : Text → List PolicyDecision → Bool
has_id id = any (λ (e : PolicyDecision). text_eq e.id id)

-- No two events have one id.
abbrev pub HasDistinctIds : List PolicyDecision → Type 0
HasDistinctIds [] = Unit
HasDistinctIds (e ∷ es) = (has_id e.id es ≡ false) × HasDistinctIds es

has_id-insert_event :
    (id : Text) (e : PolicyDecision) (es : List PolicyDecision)
    → has_id id (insert_event e es) ≡ (text_eq e.id id || has_id id es)
unfolding insert_event
has_id-insert_event id e [] = refl
has_id-insert_event id e (f ∷ fs) = ground (arith, has_id-insert_event id e fs)

pub has_id-sort_events :
    (id : Text) (es : List PolicyDecision) → has_id id (sort_events es) ≡ has_id id es
unfolding sort_events
has_id-sort_events id [] = refl
has_id-sort_events id (e ∷ es) =
    has_id-insert_event id e (sort_events es) ∙ rw (has_id-sort_events id es)

insert_event-HasDistinctIds :
    (e : PolicyDecision) (es : List PolicyDecision)
    → has_id e.id es ≡ false
    → HasDistinctIds es
    → HasDistinctIds (insert_event e es)
unfolding insert_event
insert_event-HasDistinctIds e [] h k = (refl, tt)
insert_event-HasDistinctIds e (f ∷ fs) h (q, k) =
    elim (Bool-cases (leb e.decided_at f.decided_at)) [
      | inl x ↦ rw x (h, (q, k))
      | inr x ↦ rw x (
        ground (arith, has_id-insert_event f.id e fs, text_eq_sym e.id f.id),
        insert_event-HasDistinctIds e fs (ground arith) k,
      )
    ]

pub sort_events-HasDistinctIds :
    (es : List PolicyDecision) → HasDistinctIds es → HasDistinctIds (sort_events es)
unfolding sort_events
sort_events-HasDistinctIds [] h = tt
sort_events-HasDistinctIds (e ∷ es) (q, h) =
    insert_event-HasDistinctIds e (sort_events es) (has_id-sort_events e.id es ∙ q)
      (sort_events-HasDistinctIds es h)
