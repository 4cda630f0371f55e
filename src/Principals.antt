-- ===== src/Principals.antt =====
-- The table of principals (apps/server/src/principals.ts): which bearer token names whom. The digest
-- of a token, SHA-256 in the source, is a parameter.
pub mod Laws
mod Tests
use code_jam.Prelude.{
  ltb, leb, ◌==◌, if◌then◌else◌, ltb→lt, ltb-false→le, lt→ltb, le→ltb-false, ==_iff, Bool-cases,
  Option-cases, true-of-ne-false, length, take, drop, get_elem?, keep, any, all, find, modify_first,
  length-append, All, All-append, All-split, All-keep, All-modify_first, All-find, All-imp,
  All-keep_self, find-modify_first, find-test, some-inj, ok-inj, Text, codes, text_eq, text_eq_iff,
  text_eq_refl, text_eq_sym, includes, is_white, is_empty, trim_start, trim_end, trim, to_lower,
  lower, split_from, split, starts_with, index_of, join, Fault, http, failure, Result, ok, err,
  bind, bind-eq-ok, guard, Exec, pure, raise, continue, ◌>>=◌, ◌>>◌, ℕ, zero, suc, ◌+◌, ◌-◌, ◌*◌,
  ◌/◌, ◌%◌, ◌^◌, ◌≤◌, ◌<◌, String, ◌≡◌, refl, sym, ap, ◌∙◌, ◌≢◌, ◌↔◌, ◌⊎◌, inl, inr, Bool, true,
  false, not, ◌&&◌, ◌||◌, Option, none, some, List, [], ◌∷◌, ◌++◌, map, arith,
}
use code_jam.Service.Errors.{Principal}

-- What an entry can be refused for; the last reason names no entry.
pub data Reason : Type 0 where
  no_colon invalid_id empty_token invalid_token short_token placeholder duplicate_id reused_token :
      Reason

-- `index` counts from 0.
pub record Refusal : Type 0 where
  pub index : ℕ
  pub reason : Reason

abbrev is_alphanumeric : ℕ → Bool
is_alphanumeric c =
    (leb b'A' c && leb c b'Z') || ((leb b'a' c && leb c b'z') || (leb b'0' c && leb c b'9'))

abbrev is_id_char : ℕ → Bool
is_id_char c = is_alphanumeric c || (c == b'.' || (c == b'_' || (c == b'@' || c == b'-')))

abbrev is_token_char : ℕ → Bool
is_token_char c = is_alphanumeric c || (c == b'.' || (c == b'_' || (c == b'~' || c == b'-')))

-- ID_PATTERN and TOKEN_PATTERN
unfoldable pub is_id : Text → Bool
is_id s = leb 1 (length s) && (leb (length s) 64 && all is_id_char s)

unfoldable pub is_token : Text → Bool
is_token s = leb 1 (length s) && (leb (length s) 128 && all is_token_char s)

-- The text before the first colon, and the text behind it.
unfoldable pub split_first : Text → Option (Text × Text)
split_first [] = none
split_first (c ∷ s) =
    if c == b':'
    then some ([], s)
    else elim (split_first s) [ none ↦ none | some (front, back) ↦ some (c ∷ front, back) ]

-- `byTokenDigest`, in the order of insertion
abbrev pub Registry : Type 0
Registry = List (Text × Principal)

unfoldable pub get : Text → Registry → Option Principal
get digest [] = none
get digest ((d, p) ∷ m) = if text_eq d digest then some p else get digest m

abbrev is_found {ℓ} : {A : Type ℓ} → Option A → Bool
is_found none = false
is_found (some _) = true

-- The ids seen and the table, while the entries are read.
pub record Reading : Type 0 where
  pub ids : List Text
  pub table : Registry

module _ (digest_of : Text → Text) (min_length : ℕ) where
  -- The tests on a pair of an id and a token, in the order of the source.
  unfoldable pub register : Text → Text → Reading → Reason ⊎ Reading
  unfolding is_id is_token get
  register id token r =
      if not (is_id id)
      then inl invalid_id
      else if length token == 0
      then inl empty_token
      else if not (is_token token)
      then inl invalid_token
      else if ltb (length token) min_length
      then inl short_token
      else if starts_with token (codes "replace-")
      then inl placeholder
      else if includes id r.ids
      then inl duplicate_id
      else if is_found (get (digest_of token) r.table)
      then inl reused_token
      else inr (record {
        ids = r.ids ++ id ∷ [];
        table = r.table ++ (digest_of token, record { id = id }) ∷ [];
      })

  unfoldable pub read_entry : Text → Reading → Reason ⊎ Reading
  unfolding register split_first
  read_entry entry r = elim (split_first entry) [
    | none ↦ inl no_colon
    | some (id, token) ↦ register (trim id) (trim token) r
  ]

  -- `entries.forEach(…)`, which a throw ends
  unfoldable pub read_entries : ℕ → List Text → Reading → Refusal ⊎ Reading
  read_entries index [] r = inr r
  read_entries index (entry ∷ entries) r =
      let rest = read_entries (index + 1) entries in
      elim (read_entry entry r) [
        | inl reason ↦ inl (record { index = index; reason = reason })
        | inr r' ↦ rest r'
      ]

  abbrev pub entries_of : Text → List Text
  entries_of raw = keep (λ entry. not (is_empty entry)) (map trim (split b',' raw))

  -- `PrincipalRegistry.parse`
  unfoldable pub parse : Text → Refusal ⊎ Reading
  unfolding read_entries
  parse raw = read_entries 0 (entries_of raw) (record { ids = []; table = [] })

-- `size`
abbrev pub size : Registry → ℕ
size = length

-- `resolve`
unfoldable pub resolve : (Text → Text) → Text → Registry → Option Principal
unfolding get
resolve digest_of token table = if is_empty token then none else get (digest_of token) table
