-- ===== src/Shell/Words.antt =====
-- `shellWords` (apps/server/src/shell-parse.ts): the words of one segment, their quotes removed.
pub mod Laws
use code_jam.Prelude.{
  ltb, leb, ◌==◌, if◌then◌else◌, ltb→lt, ltb-false→le, lt→ltb, le→ltb-false, ==_iff, Bool-cases,
  Option-cases, true-of-ne-false, length, take, drop, get_elem?, get_or, keep, any, all, find,
  modify_first, length-append, All, All-append, All-split, All-keep, All-modify_first, All-find,
  All-imp, All-keep_self, find-modify_first, find-test, some-inj, ok-inj, Text, codes, text_eq,
  text_eq_iff, text_eq_refl, text_eq_sym, includes, is_white, is_empty, trim_start, trim_end, trim,
  to_lower, lower, split_from, split, starts_with, index_of, join, Fault, http, failure, Result, ok,
  err, bind, bind-eq-ok, guard, Exec, pure, raise, continue, ◌>>=◌, ◌>>◌, ℕ, zero, suc, ◌+◌, ◌-◌,
  ◌*◌, ◌/◌, ◌%◌, ◌^◌, ◌≤◌, ◌<◌, String, ◌≡◌, refl, sym, ap, ◌∙◌, ◌≢◌, ◌↔◌, ◌⊎◌, inl, inr, Bool,
  true, false, not, ◌&&◌, ◌||◌, Option, none, some, List, [], ◌∷◌, ◌++◌, map, arith,
}
use code_jam.Shell.Quoting.{Quote, is_quote, is_unquoted, starts_escape, toggle, backslash}

-- `if (current) words.push(current)`
abbrev pub flush : Text → List Text → List Text
flush cur words = if is_empty cur then words else cur ∷ words

-- What a quote character adds to the word: only the one that does not open or close.
abbrev pub quoted_unit : Quote → ℕ → Text
quoted_unit none c = []
quoted_unit (some d) c = if d == c then [] else c ∷ []

unfoldable pub words_from : Quote → Bool → Text → Text → List Text
unfolding is_white
words_from q escaped cur [] = flush (if escaped then cur ++ backslash ∷ [] else cur) []
words_from q true cur (c ∷ s) = words_from q false (cur ++ c ∷ []) s
words_from q false cur (c ∷ s) =
    let after_escape = words_from q true cur s in
    let after_quote = words_from (toggle q c) false (cur ++ quoted_unit q c) s in
    let after_space = flush cur (words_from q false [] s) in
    let longer = words_from q false (cur ++ c ∷ []) s in
    if starts_escape q c
    then after_escape
    else if is_quote c
    then after_quote
    else if is_unquoted q && is_white c
    then after_space
    else longer

abbrev pub shell_words : Text → List Text
shell_words segment = words_from none false [] segment
