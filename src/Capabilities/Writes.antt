-- ===== src/Capabilities/Writes.antt =====
-- The write targets of a command and where they lie: `writeTargets` and `classifyWriteTarget`
-- (apps/server/src/capabilities.ts).
pub mod Laws
use code_jam.Prelude.{
  ltb, leb, ◌==◌, if◌then◌else◌, ltb→lt, ltb-false→le, lt→ltb, le→ltb-false, ==_iff, Bool-cases,
  Option-cases, true-of-ne-false, length, take, drop, get_elem?, get_or, flat_map, keep, any, all,
  find, modify_first, length-append, All, All-append, All-split, All-keep, All-modify_first,
  All-find, All-imp, All-keep_self, find-modify_first, find-test, some-inj, ok-inj, Text, codes,
  text_eq, text_eq_iff, text_eq_refl, text_eq_sym, includes, is_white, is_empty, trim_start,
  trim_end, trim, to_lower, lower, split_from, split, starts_with, index_of, join, Fault, http,
  failure, Result, ok, err, bind, bind-eq-ok, guard, Exec, pure, raise, continue, ◌>>=◌, ◌>>◌, ℕ,
  zero, suc, ◌+◌, ◌-◌, ◌*◌, ◌/◌, ◌%◌, ◌^◌, ◌≤◌, ◌<◌, String, ◌≡◌, refl, sym, ap, ◌∙◌, ◌≢◌, ◌↔◌, ◌⊎◌,
  inl, inr, Bool, true, false, not, ◌&&◌, ◌||◌, Option, none, some, List, [], ◌∷◌, ◌++◌, map, arith,
}
use code_jam.Regex.{
  Regex, nothing, one, ◌▸◌, ◌∪◌, many, group, at_start, at_end, boundary, white, digit, in_class,
  not_in, plus, optional, lit, among, solid_not,
}
use code_jam.Regex.Search.{tests, replace_first, group_all}
use code_jam.Shell.{
  Node, Invocation, has, is_flag, executable_from, executable_segments, invocations,
}
use code_jam.Capabilities.Sets.{strip_quotes}

abbrev last_of : List Text → List Text
last_of [] = []
last_of (x ∷ []) = x ∷ []
last_of (x ∷ y ∷ xs) = last_of (y ∷ xs)

unfoldable pub write_targets_from_invocation : Text → List Text → List Text
unfolding starts_with has
write_targets_from_invocation tool args =
    let positional = keep (λ a. not (is_flag a)) args in
    if has ("cp" ∷ "mv" ∷ []) tool
    then last_of positional
    else if has ("tee" ∷ "rm" ∷ "mkdir" ∷ []) tool
    then positional
    else []

-- DISCARD_TARGET and SOCKET_TARGET
abbrev discard_target : Regex
discard_target =
    at_start
    ▸ lit "/dev/"
    ▸ (among ("null" ∷ "stdout" ∷ "stderr" ∷ []) ∪ (lit "fd/" ▸ plus digit))
    ▸ at_end

abbrev socket_target : Regex
socket_target = at_start ▸ lit "/dev/" ▸ among ("tcp" ∷ "udp" ∷ []) ▸ lit "/" ▸ plus (not_in "/")

unfoldable pub is_discarded_stream : Text → Bool
unfolding tests strip_quotes
is_discarded_stream target = tests discard_target (strip_quotes target)

unfoldable pub is_raw_socket : Text → Bool
unfolding tests strip_quotes
is_raw_socket target = tests socket_target (strip_quotes target)

-- `/>>?\|?\s*([^\s;&|<>]+)/g`
abbrev redirect : Regex
redirect =
    lit ">"
    ▸ optional (lit ">")
    ▸ optional (lit "|")
    ▸ many white
    ▸ group 1 (plus (solid_not ";&|<>"))

unfoldable pub write_targets : Node → Text → List Text
unfolding group_all executable_from invocations write_targets_from_invocation is_discarded_stream
    is_raw_socket
write_targets node command =
    let targets =
      group_all 1 redirect command
      ++ flat_map (λ (found : Invocation). write_targets_from_invocation found.tool found.args)
          (invocations (executable_segments node command)) in
    keep (λ target. not (is_discarded_stream target) && not (is_raw_socket target)) targets

pub data WriteTargetVerdict : Type 0 where
  inside outside unresolved : WriteTargetVerdict

-- SETTLED_EXPANSIONS: the working directory and the scratch directory
abbrev working_directory : Regex
working_directory =
    (at_start ▸ lit "$(pwd)")
    ∪ (at_start ▸ lit "`pwd`")
    ∪ (at_start ▸ lit "${PWD}")
    ∪ (at_start ▸ lit "$PWD" ▸ boundary)

abbrev scratch_directory : Regex
scratch_directory = (at_start ▸ lit "${TMPDIR}") ∪ (at_start ▸ lit "$TMPDIR" ▸ boundary)

-- OUTSIDE_EXPANSIONS
abbrev home_directory : Regex
home_directory =
    (at_start ▸ lit "~") ∪ (at_start ▸ lit "${HOME}") ∪ (at_start ▸ lit "$HOME" ▸ boundary)

abbrev here_prefix : Regex
here_prefix = at_start ▸ lit "./"

-- The loop over the settled expansions: the first that fits is put in.
unfoldable pub settle : Text → Text
unfolding tests replace_first
settle cleaned =
    if tests working_directory cleaned
    then replace_first here_prefix [] (replace_first working_directory (codes ".") cleaned)
    else if tests scratch_directory cleaned
    then replace_first here_prefix [] (replace_first scratch_directory (codes "/tmp") cleaned)
    else cleaned

unfoldable pub is_outside_expansion : Text → Bool
unfolding tests
is_outside_expansion cleaned = tests home_directory cleaned

-- `cleaned.split("/").includes("..")`
unfoldable pub has_walk : Text → Bool
unfolding text_eq split_from
has_walk path = includes (codes "..") (split b'/' path)

-- `cleaned.includes("$") || cleaned.includes("`")`
abbrev pub is_expansion_unit : ℕ → Bool
is_expansion_unit c = c == b'$' || c == 96

abbrev pub has_expansion : Text → Bool
has_expansion path = any is_expansion_unit path

-- `writeRoot.replace(/\/+$/, "")`
unfoldable pub trim_slashes : Text → Text
unfolding replace_first
trim_slashes root = replace_first (plus (lit "/") ▸ at_end) [] root

unfoldable pub is_under : Text → Text → Bool
unfolding trim_slashes text_eq starts_with
is_under path write_root =
    let root = trim_slashes write_root in
    not (is_empty root) && (text_eq path root || starts_with path (root ++ codes "/"))

-- From the walk on: the target is settled.
unfoldable pub classify_settled : Text → List Text → WriteTargetVerdict
unfolding has_walk text_eq starts_with is_under
classify_settled cleaned write_roots =
    if has_walk cleaned
    then outside
    else if has_expansion cleaned
    then unresolved
    else if is_empty cleaned || text_eq cleaned (codes ".")
    then inside
    else if starts_with cleaned (codes "/")
    then (if any (λ root. not (is_empty root) && is_under cleaned root) write_roots
        then inside
        else outside)
    else inside

unfoldable pub classify_write_target : Text → List Text → WriteTargetVerdict
unfolding strip_quotes is_outside_expansion settle classify_settled
classify_write_target target write_roots =
    let cleaned = strip_quotes target in
    if is_outside_expansion cleaned then outside else classify_settled (settle cleaned) write_roots
