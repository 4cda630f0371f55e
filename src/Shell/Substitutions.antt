-- ===== src/Shell/Substitutions.antt =====
-- `splitSubstitutions` and `matchingParen` (apps/server/src/shell-parse.ts): the bodies of command and
-- process substitutions are lifted out of a command.
use mathlib.Core.Option
use code_jam.Prelude.{
  ◌==◌, if◌then◌else◌, take, drop, Text, codes, starts_with, index_of, ℕ, zero, suc, ◌+◌, ◌-◌, Bool,
  true, false, ◌&&◌, ◌||◌, Option, none, some, List, [], ◌∷◌, ◌++◌,
}
use code_jam.Shell.Quoting.{Quote, is_quote, is_single, starts_escape, toggle}

abbrev pub substitution_placeholder : Text
substitution_placeholder = codes "$SUBSTITUTION"

-- `matchingParen`, from the opening parenthesis on: the offset of the one that closes it.
unfoldable pub matching_paren : ℕ → Text → Option ℕ
matching_paren depth [] = none
matching_paren depth (c ∷ s) =
    let depth' = if c == b'(' then depth + 1 else if c == b')' then depth - 1 else depth in
    let further = Option.map suc (matching_paren depth' s) in
    if c == b')' && depth' == 0 then some 0 else further

-- A body that was found, and the number of code units up to its end.
abbrev Body : Type 0
Body = Text × ℕ

-- The substitution that opens at `c` before `s`, if it is closed.
unfoldable pub substitution_at : ℕ → Text → Option Body
unfolding matching_paren index_of
substitution_at c s =
    let opens = (c == b'$' || c == b'<' || c == b'>') && starts_with s (codes "(") in
    if opens
    then Option.map (λ closed. (take (closed - 1) (drop 1 s), closed + 1)) (matching_paren 0 s)
    else if c == 96
    then Option.map (λ closed. (take closed s, closed + 1)) (index_of 96 s)
    else none

-- One round of the loop: the text for `outer`, the bodies for `inner`, and the state after it.
pub record Round : Type 0 where
  pub outer : Text
  pub inner : List Text
  pub quote : Quote
  pub is_escaped : Bool
  pub skip : ℕ

abbrev plain : Quote → Bool → ℕ → Round
plain q escaped c = record { outer = c ∷ []; inner = []; quote = q; is_escaped = escaped; skip = 0 }

unfoldable pub substitution_round : Quote → Bool → ℕ → Text → Round
unfolding substitution_at
substitution_round q true c s = plain q false c
substitution_round q false c s =
    if starts_escape q c
    then plain q true c
    else if is_quote c
    then plain (toggle q c) false c
    else if is_single q
    then plain q false c
    else elim (substitution_at c s) [
      | none ↦ plain q false c
      | some (body, size) ↦ record {
        outer = substitution_placeholder;
        inner = body ∷ [];
        quote = q;
        is_escaped = false;
        skip = size;
      }
    ]

unfoldable pub substitutions_from : ℕ → Quote → Bool → Text → Text × List Text
unfolding substitution_round
substitutions_from skip q escaped [] = ([], [])
substitutions_from (suc k) q escaped (c ∷ s) = substitutions_from k q escaped s
substitutions_from zero q escaped (c ∷ s) =
    let round = substitution_round q escaped c s in
    let (outer, inner) = substitutions_from round.skip round.quote round.is_escaped s in
    (round.outer ++ outer, round.inner ++ inner)

abbrev pub split_substitutions : Text → Text × List Text
split_substitutions command = substitutions_from 0 none false command
