-- ===== src/Store/Log/Retention.antt =====
-- About `dropExpired` and `all` of `PolicyEventLog` (store.ts), on events in time order.
use code_jam.Prelude.{
  Bool-cases, keep, All, ok, ◌≤◌, ◌≡◌, refl, sym, ap, inl, inr, Bool, true, false, not, List, [],
  ◌∷◌, arith,
}
use code_jam.Data.{PolicyDecision}
use code_jam.Store.Log.{World, is_expired, drop_prefix, drop_expired, all_events}

-- The events are in time order.
abbrev pub InOrder : List PolicyDecision → Type 0
InOrder [] = Unit
InOrder (e ∷ es) = All (λ (f : PolicyDecision). e.decided_at ≤ f.decided_at) es × InOrder es

pub keep-All {ℓ} :
    {A : Type ℓ} (p : A → Bool) (xs : List A) → All (λ x. p x ≡ true) xs → keep p xs ≡ xs
keep-All p [] h = refl
keep-All p (x ∷ xs) (q, h) = rw q (ap (◌∷◌ x) (keep-All p xs h))

later-unexpired :
    (w : World) (e : PolicyDecision) (es : List PolicyDecision)
    → is_expired w e ≡ false
    → All (λ (f : PolicyDecision). e.decided_at ≤ f.decided_at) es
    → All (λ f. not (is_expired w f) ≡ true) es
later-unexpired w e [] h k = tt
later-unexpired w e (f ∷ fs) h (q, k) = (ground arith, later-unexpired w e fs h k)

pub drop_prefix-keep :
    (w : World) (es : List PolicyDecision)
    → InOrder es
    → (drop_prefix (is_expired w) es).0 ≡ keep (λ e. not (is_expired w e)) es
unfolding drop_prefix
drop_prefix-keep w [] h = refl
drop_prefix-keep w (e ∷ es) (q, h) = elim (Bool-cases (is_expired w e)) [
  | inl x ↦ rw x (drop_prefix-keep w es h)
  | inr x ↦ rw x (ap (◌∷◌ e) (sym (keep-All _ es (later-unexpired w e es x q))))
]

-- If the events in memory are in time order, then a reader gets exactly those that are within retention,
-- in that order, and the others leave memory.
pub all_events-exact :
    (w : World)
    → InOrder w.events
    → all_events w ≡ (
      ok (keep (λ e. not (is_expired w e)) w.events),
      record w { events = keep (λ e. not (is_expired w e)) w.events },
    )
unfolding all_events drop_expired
all_events-exact w h = rw (drop_prefix-keep w w.events h)
