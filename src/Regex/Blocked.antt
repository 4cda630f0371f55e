-- ===== src/Regex/Blocked.antt =====
-- Expressions that cannot match in a text without certain code units, for the tests of
-- capabilities.ts (apps/server/src).
use code_jam.Prelude.{
  ltb, ◌==◌, if◌then◌else◌, if_rule, length, all, Text, ℕ, zero, suc, ◌+◌, ◌≡◌, refl, ap, Bool,
  true, false, Option, none, some, List, [], ◌∷◌, ◌++◌, arith,
}
use code_jam.Regex.{
  Regex, nothing, one, ◌▸◌, ◌∪◌, many, few, group, same, at_start, at_end, boundary, Cursor,
  get_group, greedy, lazy, eat, run,
}
use code_jam.Regex.Search.{
  Match, group_texts, search_from, tests, matches_from, match_all, group_all,
}

-- `test` holds of the code units that the text has.
module _ (test : ℕ → Bool) where
  -- No way goes on from a place in such a text.
  abbrev Fails : (Cursor → Option Cursor) → Type 0
  Fails k = (d : Cursor) → all test d.rest ≡ true → k d ≡ none

  all-tail : (u : ℕ) (s : Text) → all test (u ∷ s) ≡ true → all test s ≡ true
  all-tail u s h = ground (arith, h)

  or_else :
      (a b : Option Cursor)
      → a ≡ none
      → b ≡ none
      → elim a as (λ _. Option Cursor) [ some d ↦ some d | none ↦ b ] ≡ none
  or_else (some d) b e h = cc
  or_else none b e h = h

  eat-Fails : (t : Text) (k : Cursor → Option Cursor) → Fails k → Fails (eat t k)
  unfolding eat
  eat-Fails [] k h c o = h c o
  eat-Fails (d ∷ t) k h c o = go c.rest (λ e p. eat-Fails t k h e p) o
    where
      go :
          (s : Text)
          → Fails (eat t k)
          → all test s ≡ true
          → elim s as (λ _. Option Cursor) [
            | [] ↦ none
            | u ∷ s ↦
                let next : Cursor = record c { before = some u; rest = s } in
                let onward = eat t k next in if u == d then onward else none
          ]
            ≡ none
      go [] ih q = refl
      go (u ∷ s) ih q =
          if_rule (λ (r : Option Cursor). r ≡ none) (u == d)
            (λ _. ih (record c { before = some u; rest = s }) (all-tail u s q)) (λ _. refl)

  greedy-Fails :
      (m : (Cursor → Option Cursor) → Cursor → Option Cursor)
      → ((k : Cursor → Option Cursor) → Fails k → Fails (m k))
      → (k : Cursor → Option Cursor) (fuel : ℕ) → Fails k
      → Fails (greedy m k fuel)
  unfolding greedy
  greedy-Fails m g k zero h c o = h c o
  greedy-Fails m g k (suc fuel) h c o =
      let next : Cursor → Option Cursor =
        λ d. (if ltb (length d.rest) (length c.rest) then greedy m k fuel d else none) in
      let inner : m next c ≡ none =
        g next
          (λ d p.
            if_rule (λ (r : Option Cursor). r ≡ none) (ltb (length d.rest) (length c.rest))
              (λ _. greedy-Fails m g k fuel h d p) (λ _. refl))
          c o in
      or_else (m next c) (k c) inner (h c o)

  lazy-Fails :
      (m : (Cursor → Option Cursor) → Cursor → Option Cursor)
      → ((k : Cursor → Option Cursor) → Fails k → Fails (m k))
      → (k : Cursor → Option Cursor) (fuel : ℕ) → Fails k
      → Fails (lazy m k fuel)
  unfolding lazy
  lazy-Fails m g k zero h c o = h c o
  lazy-Fails m g k (suc fuel) h c o =
      let next : Cursor → Option Cursor =
        λ d. (if ltb (length d.rest) (length c.rest) then lazy m k fuel d else none) in
      or_else (k c) (m next c) (h c o) (
        g next
          (λ d p.
            if_rule (λ (r : Option Cursor). r ≡ none) (ltb (length d.rest) (length c.rest))
              (λ _. lazy-Fails m g k fuel h d p) (λ _. refl))
          c o)

  one_unit :
      (p : ℕ → Bool) (k : Cursor → Option Cursor)
      → Fails k
      → (c : Cursor) (s : Text) → all test s ≡ true
      → elim s as (λ _. Option Cursor) [
        | [] ↦ none
        | u ∷ rest ↦
            let next : Cursor = record c { before = some u; rest = rest } in
            if p u then k next else none
      ]
        ≡ none
  one_unit p k h c [] q = refl
  one_unit p k h c (u ∷ s) q =
      if_rule (λ (r : Option Cursor). r ≡ none) (p u)
        (λ _. h (record c { before = some u; rest = s }) (all-tail u s q)) (λ _. refl)

  back_reference :
      (k : Cursor → Option Cursor)
      → Fails k
      → (c : Cursor) (found : Option Text) → all test c.rest ≡ true
      → elim found as (λ _. Option Cursor) [ none ↦ k c | some t ↦ eat t k c ] ≡ none
  back_reference k h c none o = h c o
  back_reference k h c (some t) o = eat-Fails t k h c o

  start :
      (k : Cursor → Option Cursor)
      → Fails k
      → (c : Cursor) (b : Option ℕ) → all test c.rest ≡ true
      → elim b as (λ _. Option Cursor) [ none ↦ k c | some _ ↦ none ] ≡ none
  start k h c none o = h c o
  start k h c (some _) o = refl

  end :
      (k : Cursor → Option Cursor)
      → Fails k
      → (c : Cursor) (s : Text) → all test c.rest ≡ true
      → elim s as (λ _. Option Cursor) [ [] ↦ k c | _ ∷ _ ↦ none ] ≡ none
  end k h c [] o = h c o
  end k h c (_ ∷ _) o = refl

  -- Where the rest of a match fails at every place, so does the match.
  run-Fails : (r : Regex) (k : Cursor → Option Cursor) → Fails k → Fails (run r k)
  unfolding run
  run-Fails nothing k h c o = h c o
  run-Fails (one p) k h c o = one_unit p k h c c.rest o
  run-Fails (r ▸ s) k h c o = run-Fails r (run s k) (run-Fails s k h) c o
  run-Fails (r ∪ s) k h c o = rw (run-Fails r k h c o) (run-Fails s k h c o)
  run-Fails (many r) k h c o = greedy-Fails (run r) (run-Fails r) k (length c.rest) h c o
  run-Fails (few r) k h c o = lazy-Fails (run r) (run-Fails r) k (length c.rest) h c o
  run-Fails (group n r) k h c o = run-Fails r _ (λ d p. h _ p) c o
  run-Fails (same n) k h c o = back_reference k h c (get_group n c.groups) o
  run-Fails at_start k h c o = start k h c c.before o
  run-Fails at_end k h c o = end k h c c.rest o
  run-Fails boundary k h c o = if_rule (λ (r : Option Cursor). r ≡ none) _ (λ _. h c o) (λ _. refl)

  -- A part of the expression that must read a unit that the text has not.
  pub data IsBlocked : Regex → Type 0 where
    unit : {p : ℕ → Bool} → ((u : ℕ) → test u ≡ true → p u ≡ false) → IsBlocked (one p)
    left : {r s : Regex} → IsBlocked r → IsBlocked (r ▸ s)
    right : {r s : Regex} → IsBlocked s → IsBlocked (r ▸ s)
    both : {r s : Regex} → IsBlocked r → IsBlocked s → IsBlocked (r ∪ s)

  blocked_unit :
      (p : ℕ → Bool)
      → ((u : ℕ) → test u ≡ true → p u ≡ false)
      → (k : Cursor → Option Cursor) (c : Cursor) (s : Text) → all test s ≡ true
      → elim s as (λ _. Option Cursor) [
        | [] ↦ none
        | u ∷ rest ↦
            let next : Cursor = record c { before = some u; rest = rest } in
            if p u then k next else none
      ]
        ≡ none
  blocked_unit p h k c [] q = refl
  blocked_unit p h k c (u ∷ s) q =
      let seen : test u ≡ true = ground (arith, q) in rw (h u seen) refl

  run-IsBlocked : {r : Regex} → IsBlocked r → (k : Cursor → Option Cursor) → Fails (run r k)
  unfolding run
  run-IsBlocked (unit {p} h) k c o = blocked_unit p h k c c.rest o
  run-IsBlocked (left {r} {s} b) k c o = run-IsBlocked b (run s k) c o
  run-IsBlocked (right {r} {s} b) k c o = run-Fails r (run s k) (run-IsBlocked b k) c o
  run-IsBlocked (both {r} {s} a b) k c o =
      or_else (run r k c) (run s k c) (run-IsBlocked a k c o) (run-IsBlocked b k c o)

  search_from-IsBlocked :
      {r : Regex}
      → IsBlocked r
      → (b : Option ℕ) (lead s : Text) → all test s ≡ true
      → search_from r b lead s ≡ none
  unfolding search_from
  search_from-IsBlocked {r} h b lead [] o =
      rw
        (
          run-IsBlocked h (λ d. some d) (record { before = b; rest = []; groups = [] }) o,
          search_from,
        )
        refl
  search_from-IsBlocked {r} h b lead (c ∷ s) o =
      rw
        (
          run-IsBlocked h (λ d. some d) (record { before = b; rest = c ∷ s; groups = [] }) o,
          search_from,
        )
        (search_from-IsBlocked h (some c) (lead ++ c ∷ []) s (all-tail c s o))

  pub tests-IsBlocked :
      {r : Regex} → IsBlocked r → (s : Text) → all test s ≡ true → tests r s ≡ false
  unfolding tests
  tests-IsBlocked {r} h s o = rw (search_from-IsBlocked h none [] s o, tests) refl

  pub group_all-IsBlocked :
      {r : Regex} → IsBlocked r → (n : ℕ) (s : Text) → all test s ≡ true → group_all n r s ≡ []
  unfolding group_all match_all matches_from
  group_all-IsBlocked {r} h n s o =
      ap (λ (ms : List Match). group_texts n ms)
        (no_matches (length s + 1) (search_from-IsBlocked h none [] s o))
    where
      no_matches : (fuel : ℕ) → search_from r none [] s ≡ none → matches_from fuel r none [] s ≡ []
      no_matches zero e = refl
      no_matches (suc f) e = rw (e, matches_from) refl
