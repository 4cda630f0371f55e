-- ===== src/Capabilities/Sets.antt =====
-- The sets of texts and the quote stripping that apps/server/src/capabilities.ts uses.
use code_jam.Prelude.{
  ◌==◌, if◌then◌else◌, Text, text_eq, includes, is_empty, starts_with, Bool, not, ◌||◌, List, [],
  ◌∷◌,
}
use code_jam.Regex.{
  Regex, one, ◌▸◌, ◌∪◌, many, group, at_start, at_end, in_class, plus, lit, white_or, dot,
}
use code_jam.Regex.Search.{replace_first}

-- `[...new Set(xs)]`: the first of equal texts, in order; the list holds what was met.
unfoldable pub unique_from : List Text → List Text → List Text
unfolding text_eq
unique_from met [] = []
unique_from met (x ∷ xs) =
    let old = unique_from met xs in
    let new = x ∷ unique_from (x ∷ met) xs in if includes x met then old else new

abbrev pub unique : List Text → List Text
unique xs = unique_from [] xs

-- `s.includes(part)`
unfoldable pub has_part : Text → Text → Bool
unfolding starts_with
has_part part [] = is_empty part
has_part part (c ∷ s) = starts_with (c ∷ s) part || has_part part s

-- `.replace(/^['"]+/, "").replace(/['"]+$/, "")`
unfoldable pub strip_quotes : Text → Text
unfolding replace_first
strip_quotes s =
    replace_first (plus (in_class "'\"") ▸ at_end) []
      (replace_first (at_start ▸ plus (in_class "'\"")) [] s)

-- `.replace(/^['"]/, "").replace(/['"]$/, "")`
unfoldable pub strip_quote : Text → Text
unfolding replace_first
strip_quote s =
    replace_first (in_class "'\"" ▸ at_end) [] (replace_first (at_start ▸ in_class "'\"") [] s)

-- Where a command may start in a line: `(^|[\s;&|("'`])`.
abbrev pub command_start : Regex
command_start = at_start ∪ white_or ";&|(\"'`"

-- `\s+(?:-\S+\s+)*`, `\\.` and LITERAL, whose groups are the bodies
abbrev pub escaped_unit : Regex
escaped_unit = one (λ u. u == 92) ▸ dot

abbrev pub quoted_literal : Regex
quoted_literal =
    (lit "'" ▸ group 1 (many (one (λ u. not (u == 39 || u == 92)) ∪ escaped_unit)) ▸ lit "'")
    ∪ (lit "\"" ▸ group 2 (many (one (λ u. not (u == b'"' || u == 92)) ∪ escaped_unit)) ▸ lit "\"")
