-- ===== src/Regex.antt =====
-- The regular expressions of shell-parse.ts and capabilities.ts (apps/server/src) as data, and the
-- backtracking matcher of the language that runs them.
pub mod Search
pub mod Blocked
use code_jam.Prelude.{
  ltb, leb, ◌==◌, if◌then◌else◌, ltb→lt, ltb-false→le, lt→ltb, le→ltb-false, ==_iff, Bool-cases,
  Option-cases, true-of-ne-false, length, take, drop, get_elem?, keep, any, all, find, modify_first,
  length-append, All, All-append, All-split, All-keep, All-modify_first, All-find, All-imp,
  All-keep_self, find-modify_first, find-test, some-inj, ok-inj, Text, codes, text_eq, text_eq_iff,
  text_eq_refl, text_eq_sym, includes, is_white, is_empty, trim_start, trim_end, trim, to_lower,
  lower, split_from, split, starts_with, index_of, join, Fault, http, failure, Result, ok, err,
  bind, bind-eq-ok, guard, Exec, pure, raise, continue, ◌>>=◌, ◌>>◌, ℕ, zero, suc, ◌+◌, ◌-◌, ◌*◌,
  ◌/◌, ◌%◌, ◌^◌, ◌≤◌, ◌<◌, String, ◌≡◌, refl, sym, ap, ◌∙◌, ◌≢◌, ◌↔◌, ◌⊎◌, inl, inr, Bool, true,
  false, not, ◌&&◌, ◌||◌, Option, none, some, List, [], ◌∷◌, ◌++◌, map, arith,
}

-- One code unit, a sequence, an ordered choice, `*`, `*?`, a numbered group, a back reference, and
-- the assertions `^`, `$` and `\b`. No expression of the source has a group inside a repetition.
pub data Regex : Type 0 where
  nothing : Regex
  one : (ℕ → Bool) → Regex
  ◌▸◌ : Regex → Regex → Regex
  ◌∪◌ : Regex → Regex → Regex
  many : Regex → Regex
  few : Regex → Regex
  group : ℕ → Regex → Regex
  same : ℕ → Regex
  at_start : Regex
  at_end : Regex
  boundary : Regex

-- A place in the text: the code unit before it, what follows it, and the groups that are set.
pub record Cursor : Type 0 where
  pub before : Option ℕ
  pub rest : Text
  pub groups : List (ℕ × Text)

abbrev pub get_group : ℕ → List (ℕ × Text) → Option Text
get_group n [] = none
get_group n ((k, t) ∷ gs) = if k == n then some t else get_group n gs

abbrev pub is_digit_unit : ℕ → Bool
is_digit_unit c = leb b'0' c && leb c b'9'

abbrev pub is_alpha : ℕ → Bool
is_alpha c = (leb b'A' c && leb c b'Z') || (leb b'a' c && leb c b'z')

-- `\w`
abbrev pub is_word_unit : ℕ → Bool
is_word_unit c = is_alpha c || is_digit_unit c || c == b'_'

abbrev is_inside : Option ℕ → Bool
is_inside none = false
is_inside (some c) = is_word_unit c

abbrev head : Text → Option ℕ
head [] = none
head (c ∷ s) = some c

abbrev differs : Bool → Bool → Bool
differs true b = not b
differs false b = b

-- Membership in a class of listed code units.
unfoldable pub has_unit : Text → ℕ → Bool
has_unit [] u = false
has_unit (c ∷ s) u = u == c || has_unit s u

abbrev Go : Type 0
Go = Cursor → Option Cursor

-- The greedy and the lazy loop. A round that consumes nothing is refused, as in the language.
greedy : (Go → Go) → Go → ℕ → Go
greedy round k zero c = k c
greedy round k (suc fuel) c =
    let next : Go =
      λ d. (if ltb (length d.rest) (length c.rest) then greedy round k fuel d else none) in
    elim (round next c) [ some d ↦ some d | none ↦ k c ]

lazy : (Go → Go) → Go → ℕ → Go
lazy round k zero c = k c
lazy round k (suc fuel) c =
    let next : Go =
      λ d. (if ltb (length d.rest) (length c.rest) then lazy round k fuel d else none) in
    elim (k c) [ some d ↦ some d | none ↦ round next c ]

-- Consumes the given text.
eat : Text → Go → Go
eat [] k c = k c
eat (d ∷ p) k c = elim c.rest [
  | [] ↦ none
  | u ∷ s ↦
      let next : Cursor = record c { before = some u; rest = s } in
      let onward = eat p k next in if u == d then onward else none
]

-- The matcher: an expression, what must match after it, and a place; the first way in the order of
-- backtracking.
unfoldable pub run : Regex → Go → Go
unfolding greedy lazy eat has_unit is_white codes
run nothing k c = k c
run (one p) k c = elim c.rest [
  | [] ↦ none
  | u ∷ s ↦
      let next : Cursor = record c { before = some u; rest = s } in if p u then k next else none
]
run (r ▸ s) k c = run r (run s k) c
run (r ∪ s) k c = let other = run s k c in elim (run r k c) [ some d ↦ some d | none ↦ other ]
run (many r) k c = greedy (run r) k (length c.rest) c
run (few r) k c = lazy (run r) k (length c.rest) c
run (group n r) k c =
    let close : Go = λ d.
      (let read = take (length c.rest - length d.rest) c.rest in
        k (record d { groups = (n, read) ∷ d.groups })) in
    run r close c
run (same n) k c = elim (get_group n c.groups) [ none ↦ k c | some t ↦ eat t k c ]
run at_start k c = elim c.before [ none ↦ k c | some _ ↦ none ]
run at_end k c = elim c.rest [ [] ↦ k c | _ ∷ _ ↦ none ]
run boundary k c = if differs (is_inside c.before) (is_inside (head c.rest)) then k c else none

infixr 60 ◌▸◌
infixr 55 ◌∪◌
-- A literal, and a literal under the flag `i`.
abbrev pub literal : Text → Regex
literal [] = nothing
literal (c ∷ s) = one (λ u. u == c) ▸ literal s

abbrev pub fold : ℕ → ℕ
fold c = if leb b'A' c && leb c b'Z' then c + 32 else c

abbrev pub literal_i : Text → Regex
literal_i [] = nothing
literal_i (c ∷ s) = one (λ u. fold u == fold c) ▸ literal_i s

abbrev pub lit : String → Regex
unfolding codes
lit s = literal (codes s)

abbrev pub lit_i : String → Regex
unfolding codes
lit_i s = literal_i (codes s)

-- A choice between literals.
abbrev pub among : List String → Regex
among [] = one (λ _. false)
among (s ∷ []) = lit s
among (s ∷ t ∷ ts) = lit s ∪ among (t ∷ ts)

abbrev pub among_i : List String → Regex
among_i [] = one (λ _. false)
among_i (s ∷ []) = lit_i s
among_i (s ∷ t ∷ ts) = lit_i s ∪ among_i (t ∷ ts)

-- `r?`, `r+`, `r{n,}` and `r{0,n}`.
abbrev pub optional : Regex → Regex
optional r = r ∪ nothing

abbrev pub plus : Regex → Regex
plus r = r ▸ many r

abbrev pub at_least : ℕ → Regex → Regex
at_least zero r = many r
at_least (suc n) r = r ▸ at_least n r

abbrev pub at_most : ℕ → Regex → Regex
at_most zero r = nothing
at_most (suc n) r = optional (r ▸ at_most n r)

-- A class of listed code units (by `has_unit`), its complement, `\s`, `\S`, `\w`, `\d` and `[\s\S]`.
abbrev pub in_class : String → Regex
unfolding codes has_unit
in_class s = one (λ u. has_unit (codes s) u)

abbrev pub not_in : String → Regex
unfolding codes has_unit
not_in s = one (λ u. not (has_unit (codes s) u))

abbrev pub white : Regex
unfolding is_white
white = one is_white

abbrev pub solid : Regex
unfolding is_white
solid = one (λ u. not (is_white u))

abbrev pub wordly : Regex
wordly = one is_word_unit

abbrev pub digit : Regex
digit = one is_digit_unit

abbrev pub any_unit : Regex
any_unit = one (λ _. true)

-- `[\s…]` and `[^\s…]`
abbrev pub white_or : String → Regex
unfolding codes has_unit is_white
white_or s = one (λ u. is_white u || has_unit (codes s) u)

abbrev pub solid_not : String → Regex
unfolding codes has_unit is_white
solid_not s = one (λ u. not (is_white u || has_unit (codes s) u))

-- `.`
abbrev pub dot : Regex
dot = one (λ u. not (u == 10 || u == 13 || u == 0x2028 || u == 0x2029))
