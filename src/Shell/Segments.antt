-- ===== src/Shell/Segments.antt =====
-- `commandSegments` and `stripGrouping` (apps/server/src/shell-parse.ts).
pub mod Laws
use code_jam.Prelude.{
  ltb, leb, ◌==◌, if◌then◌else◌, ltb→lt, ltb-false→le, lt→ltb, le→ltb-false, ==_iff, Bool-cases,
  Option-cases, true-of-ne-false, length, take, drop, get_elem?, get_or, keep, any, all, find,
  modify_first, length-append, All, All-append, All-split, All-keep, All-modify_first, All-find,
  All-imp, All-keep_self, find-modify_first, find-test, some-inj, ok-inj, Text, codes, text_eq,
  text_eq_iff, text_eq_refl, text_eq_sym, includes, is_white, is_empty, trim_start, trim_end, trim,
  to_lower, lower, split_from, split, starts_with, index_of, join, Fault, http, failure, Result, ok,
  err, bind, bind-eq-ok, guard, Exec, pure, raise, continue, ◌>>=◌, ◌>>◌, ℕ, zero, suc, ◌+◌, ◌-◌,
  ◌*◌, ◌/◌, ◌%◌, ◌^◌, ◌≤◌, ◌<◌, String, ◌≡◌, refl, sym, ap, ◌∙◌, ◌≢◌, ◌↔◌, ◌⊎◌, inl, inr, Bool,
  true, false, not, ◌&&◌, ◌||◌, Option, none, some, List, [], ◌∷◌, ◌++◌, map, arith,
}
use code_jam.Regex.{
  Regex, nothing, one, ◌▸◌, ◌∪◌, many, at_start, at_end, white, in_class, plus, optional, lit,
}
use code_jam.Regex.Search.{tests, replace_first}
use code_jam.Shell.Quoting.{Quote, is_unquoted, starts_escape, next_quote}

-- `char === ";" || char === "|" || char === "&" || char === "\n"`
abbrev pub is_separator : ℕ → Bool
is_separator c = c == b';' || c == b'|' || c == b'&' || c == 10

-- `if (current.trim()) segments.push(current.trim())`
abbrev pub close_segment : Text → List Text → List Text
close_segment cur segments = let t = trim cur in if is_empty t then segments else t ∷ segments

abbrev pub is_doubled : ℕ → Text → Bool
is_doubled c s = (c == b'|' || c == b'&') && starts_with s (c ∷ [])

-- The first flag says that the code unit at hand is skipped.
unfoldable pub segments_from : Bool → Quote → Bool → Text → Text → List Text
unfolding trim starts_with
segments_from skip q escaped cur [] = close_segment cur []
segments_from true q escaped cur (c ∷ s) = segments_from false q escaped cur s
segments_from false q true cur (c ∷ s) = segments_from false q false (cur ++ c ∷ []) s
segments_from false q false cur (c ∷ s) =
    let closed = close_segment cur (segments_from (is_doubled c s) q false [] s) in
    let longer = segments_from false (next_quote q c) (starts_escape q c) (cur ++ c ∷ []) s in
    if is_unquoted q && is_separator c then closed else longer

abbrev pub command_segments : Text → List Text
command_segments command = segments_from false none false [] command

-- `/^[({]\s/`, `/^[({]$/` on the first code unit, `/^[({]+\s*/` and `/\s*[)}]+;?$/`
abbrev group_opens : Regex
group_opens = at_start ▸ in_class "({" ▸ white

abbrev group_unit : Regex
group_unit = at_start ▸ in_class "({" ▸ at_end

abbrev group_head : Regex
group_head = at_start ▸ plus (in_class "({") ▸ many white

abbrev group_tail : Regex
group_tail = many white ▸ plus (in_class ")}") ▸ optional (lit ";") ▸ at_end

abbrev ungroup : Text → Text
ungroup out = trim (replace_first group_tail [] (replace_first group_head [] out))

-- The loop of `stripGrouping`: each round that goes on has dropped a code unit.
unfoldable pub strip_from : ℕ → Text → Text
unfolding tests replace_first trim
strip_from zero out = out
strip_from (suc fuel) out =
    let trimmed = ungroup out in
    let further = strip_from fuel trimmed in
    let opens = tests group_opens out || tests group_unit (take 1 out) in
    if opens && (not (is_empty trimmed) && not (text_eq trimmed out)) then further else out

unfoldable pub strip_grouping : Text → Text
unfolding strip_from
strip_grouping segment = strip_from (length segment) (trim segment)
