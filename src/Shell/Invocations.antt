-- ===== src/Shell/Invocations.antt =====
-- `invocationFromSegment` (apps/server/src/shell-parse.ts): the command that a segment invokes, after
-- assignments and wrappers.
pub mod Fuel
use code_jam.Prelude.{
  ltb, leb, ◌==◌, if◌then◌else◌, ltb→lt, ltb-false→le, lt→ltb, le→ltb-false, ==_iff, Bool-cases,
  Option-cases, true-of-ne-false, length, take, drop, get_elem?, get_or, keep, any, all, find,
  modify_first, length-append, All, All-append, All-split, All-keep, All-modify_first, All-find,
  All-imp, All-keep_self, find-modify_first, find-test, some-inj, ok-inj, Text, codes, text_eq,
  text_eq_iff, text_eq_refl, text_eq_sym, includes, is_white, is_empty, trim_start, trim_end, trim,
  to_lower, lower, split_from, split, starts_with, index_of, join, Fault, http, failure, Result, ok,
  err, bind, bind-eq-ok, guard, Exec, pure, raise, continue, ◌>>=◌, ◌>>◌, ℕ, zero, suc, ◌+◌, ◌-◌,
  ◌*◌, ◌/◌, ◌%◌, ◌^◌, ◌≤◌, ◌<◌, String, ◌≡◌, refl, sym, ap, ◌∙◌, ◌≢◌, ◌↔◌, ◌⊎◌, inl, inr, Bool,
  true, false, not, ◌&&◌, ◌||◌, Option, none, some, List, [], ◌∷◌, ◌++◌, map, arith,
}
use code_jam.Shell.Words.{shell_words, words_from}
use code_jam.Shell.Names.{
  has, simple_wrappers, shell_prefixes, sudo_value_options, is_assignment, base_name,
}

pub record Invocation : Type 0 where
  pub tool : Text
  pub args : List Text

abbrev pub is_flag : Text → Bool
is_flag word = starts_with word (codes "-")

abbrev pub is : String → Text → Bool
is name word = text_eq (codes name) word

-- What bounds the loops: the code units of the words, and the words.
abbrev pub weight : List Text → ℕ
weight [] = 0
weight (w ∷ ws) = length w + 1 + weight ws

-- `while (words[index]?.startsWith("-")) index += 1;`
unfoldable pub skip_flags : List Text → List Text
unfolding starts_with
skip_flags [] = []
skip_flags (w ∷ ws) = if is_flag w then skip_flags ws else w ∷ ws

-- The same, up to `--`.
unfoldable pub skip_wrapper_flags : List Text → List Text
unfolding starts_with
skip_wrapper_flags [] = []
skip_wrapper_flags (w ∷ ws) = if is_flag w && not (is "--" w) then skip_wrapper_flags ws else w ∷ ws

-- `if (words[index] === "--") index += 1;`
abbrev pub skip_dashes : List Text → List Text
skip_dashes [] = []
skip_dashes (w ∷ ws) = if is "--" w then ws else w ∷ ws

-- The options of `sudo`; the flag says that the word at hand is the value of one.
unfoldable pub skip_sudo : Bool → List Text → List Text
unfolding starts_with has
skip_sudo value [] = []
skip_sudo true (w ∷ ws) = skip_sudo false ws
skip_sudo false (w ∷ ws) =
    let further = skip_sudo (not (any (λ c. c == b'=') w) && has sudo_value_options w) ws in
    if is_flag w then further else w ∷ ws

unfoldable pub skip_assignments : List Text → List Text
unfolding is_assignment
skip_assignments [] = []
skip_assignments (w ∷ ws) = if is_assignment w then skip_assignments ws else w ∷ ws

-- The loop over the arguments of `env`: `inl` goes on with these words, `inr` leaves the loop.
unfoldable pub env_round : Text → List Text → List Text ⊎ List Text
unfolding words_from starts_with is_assignment
env_round w ws =
    if is "--" w
    then inr ws
    else if is "-S" w || is "--split-string" w
    then inl (shell_words (get_or [] 0 ws) ++ drop 1 ws)
    else if starts_with w (codes "--split-string=")
    then inl (shell_words (drop 15 w) ++ ws)
    else if is "-u" w || is "--unset" w || is "-C" w || is "--chdir" w
    then inl (drop 1 ws)
    else if is_flag w || is_assignment w
    then inl ws
    else inr (w ∷ ws)

unfoldable pub env_words : ℕ → List Text → List Text
unfolding env_round
env_words zero ws = ws
env_words (suc fuel) [] = []
env_words (suc fuel) (w ∷ ws) = elim (env_round w ws) [
  | inl more ↦ env_words fuel more
  | inr done ↦ done
]

-- One round of the main loop, at the word `w`: the words it goes on with, or the invocation.
unfoldable pub invocation_round : Bool → Text → List Text → List Text ⊎ Invocation
unfolding base_name has skip_flags skip_wrapper_flags skip_sudo env_words
invocation_round unwrap_env w ws =
    let tool = base_name w in
    let found : Invocation = record { tool = tool; args = ws } in
    if has shell_prefixes tool
    then inl (if is "time" tool then skip_flags ws else ws)
    else if is "command" tool
    then (let next = get_or [] 0 ws in
        if is "-v" next || is "-V" next then inr found else inl (skip_dashes ws))
    else if has simple_wrappers tool
    then inl (skip_dashes (skip_wrapper_flags ws))
    else if is "sudo" tool
    then inl (skip_sudo false ws)
    else if is "timeout" tool
    then inl (drop 1 (skip_flags ws))
    else if is "busybox" tool
    then inl ws
    else if is "env" tool && unwrap_env
    then inl (env_words (weight ws) ws)
    else inr found

unfoldable pub resolve : ℕ → Bool → List Text → Option Invocation
unfolding invocation_round
resolve zero unwrap_env ws = none
resolve (suc fuel) unwrap_env [] = none
resolve (suc fuel) unwrap_env (w ∷ ws) = elim (invocation_round unwrap_env w ws) [
  | inl more ↦ resolve fuel unwrap_env more
  | inr found ↦ some found
]

unfoldable pub invocation_from_segment : Text → Bool → Option Invocation
unfolding resolve words_from skip_assignments
invocation_from_segment segment unwrap_env =
    let words = skip_assignments (shell_words segment) in
    resolve (weight words + 1) unwrap_env words
