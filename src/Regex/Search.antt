-- ===== src/Regex/Search.antt =====
-- `test`, `match`, `matchAll` and `replace` with the expressions of shell-parse.ts and
-- capabilities.ts (apps/server/src).
use code_jam.Prelude.{
  if◌then◌else◌, length, take, Text, is_empty, ℕ, zero, suc, ◌+◌, ◌-◌, Bool, true, false, Option,
  none, some, List, [], ◌∷◌, ◌++◌,
}
use code_jam.Regex.{Regex, Cursor, run, get_group}

-- A match: what was passed over before it, what it read, its groups, and what follows it.
pub record Match : Type 0 where
  pub lead : Text
  pub whole : Text
  pub found : List (ℕ × Text)
  pub last_unit : Option ℕ
  pub after : Text

-- The first match at or after a place.
unfoldable pub search_from : Regex → Option ℕ → Text → Text → Option Match
unfolding run
search_from r b lead [] =
    let start : Cursor = record { before = b; rest = []; groups = [] } in
    elim (run r (λ d. some d) start) [
      | none ↦ none
      | some d ↦
          some (record { lead = lead; whole = []; found = d.groups; last_unit = b; after = [] })
    ]
search_from r b lead (c ∷ s) =
    let start : Cursor = record { before = b; rest = c ∷ s; groups = [] } in
    elim (run r (λ d. some d) start) [
      | none ↦ search_from r (some c) (lead ++ c ∷ []) s
      | some d ↦ some (record {
        lead = lead;
        whole = take (length (c ∷ s) - length d.rest) (c ∷ s);
        found = d.groups;
        last_unit = d.before;
        after = d.rest;
      })
    ]

abbrev pub search : Regex → Text → Option Match
search r s = search_from r none [] s

-- `r.test(s)`
unfoldable pub tests : Regex → Text → Bool
unfolding search_from
tests r s = elim (search_from r none [] s) [ none ↦ false | some _ ↦ true ]

-- `s.match(r)?.[n]`
unfoldable pub match_group : ℕ → Regex → Text → Option Text
unfolding search_from
match_group n r s = elim (search_from r none [] s) [ none ↦ none | some m ↦ get_group n m.found ]

-- `s.replace(r, t)` without the flag `g`.
unfoldable pub replace_first : Regex → Text → Text → Text
unfolding search_from
replace_first r t s = elim (search_from r none [] s) [
  | none ↦ s
  | some m ↦ m.lead ++ (t ++ m.after)
]

-- `s.matchAll(r)`. After an empty match the search goes on one code unit later.
unfoldable pub matches_from : ℕ → Regex → Option ℕ → Text → Text → List Match
unfolding search_from
matches_from zero r b lead s = []
matches_from (suc fuel) r b lead s = elim (search_from r b lead s) [
  | none ↦ []
  | some m ↦
      let further = matches_from fuel r m.last_unit [] m.after in
      let stepped : List Match = elim m.after [
        | [] ↦ []
        | c ∷ t ↦ matches_from fuel r (some c) (c ∷ []) t
      ] in
      m ∷ (if is_empty m.whole then stepped else further)
]

-- A match takes a code unit, or the next search starts one later.
unfoldable pub match_all : Regex → Text → List Match
unfolding matches_from
match_all r s = matches_from (length s + 1) r none [] s

abbrev glue : Text → Text → List Match → Text
glue s t [] = s
glue s t (m ∷ []) = m.lead ++ (t ++ m.after)
glue s t (m ∷ n ∷ ms) = m.lead ++ (t ++ glue s t (n ∷ ms))

-- `s.replace(r, t)` with the flag `g`, for an expression that matches no empty text.
unfoldable pub replace_all : Regex → Text → Text → Text
unfolding match_all
replace_all r t s = glue s t (match_all r s)

abbrev pub group_texts : ℕ → List Match → List Text
group_texts n [] = []
group_texts n (m ∷ ms) =
    let later = group_texts n ms in elim (get_group n m.found) [ none ↦ later | some t ↦ t ∷ later ]

-- The texts that group `n` reads in all matches, where it takes part.
unfoldable pub group_all : ℕ → Regex → Text → List Text
unfolding match_all
group_all n r s = group_texts n (match_all r s)
