-- ===== src/Capabilities/Scripts.antt =====
-- Whether a command runs a file that it wrote: `runsWrittenScript`, `writesByToolThenRuns` and what they
-- call (apps/server/src/capabilities.ts).
use code_jam.Prelude.{
  leb, ◌==◌, if◌then◌else◌, drop, flat_map, keep, any, Text, codes, text_eq, includes, is_empty,
  trim, to_lower, lower, split_from, split, starts_with, ℕ, String, Bool, true, false, not, ◌&&◌,
  ◌||◌, none, some, List, [], ◌∷◌, ◌++◌, map,
}
use code_jam.Regex.{
  Regex, one, ◌▸◌, ◌∪◌, many, group, at_start, at_end, is_word_unit, white, solid, in_class, plus,
  optional, lit, get_group, literal_i, among_i, white_or, solid_not,
}
use code_jam.Regex.Search.{Match, tests, match_all, group_all}
use code_jam.Shell.{
  Node, Invocation, is, is_flag, has, shell_names, last_or, executable_from, executable_segments,
  invocations,
}
use code_jam.Capabilities.Sets.{strip_quotes, has_part, quoted_literal}

unfoldable pub script_identity : Text → Text
unfolding strip_quotes split_from to_lower
script_identity token =
    let unquoted = strip_quotes token in lower (last_or unquoted (split b'/' unquoted))

-- `/>>?\s*([^\s;&|<>]+)/g`
abbrev pub redirect : Regex
redirect = lit ">" ▸ optional (lit ">") ▸ many white ▸ group 1 (plus (solid_not ";&|<>"))

abbrev pub redirected_scripts : Text → List Text
redirected_scripts command = map script_identity (group_all 1 redirect command)

-- `(?:^|\s)(?:eval|source|\.)\s[^\n]*name` with the flag `i`
abbrev pub executor_of : Text → Regex
executor_of name =
    (at_start ∪ white)
    ▸ among_i ("eval" ∷ "source" ∷ "." ∷ [])
    ▸ white
    ▸ many (one (λ u. not (u == 10)))
    ▸ literal_i name

unfoldable pub executes_one_of : Invocation → List Text → Bool
unfolding script_identity text_eq has starts_with to_lower has_part
executes_one_of found written =
    let by_argument =
      any
        (λ argument.
          not (is_flag argument)
          && (includes (script_identity argument) written
              || any (λ name. not (is_empty name) && has_part name (lower argument)) written))
        found.args in
    let runs_arguments =
      has shell_names found.tool
      || is "source" found.tool
      || is "." found.tool
      || is "eval" found.tool in
    includes (script_identity found.tool) written || (runs_arguments && by_argument)

unfoldable pub runs_written_script : Node → Text → Bool
unfolding group_all script_identity tests executable_from invocations executes_one_of
runs_written_script node command =
    let written = redirected_scripts command in
    not (is_empty written)
    && (any (λ name. not (is_empty name) && tests (executor_of name) command) written
        || any (λ found. executes_one_of found written)
            (invocations (executable_segments node command)))

abbrev write_tools : List String
write_tools = "tee" ∷ "dd" ∷ "sed" ∷ "awk" ∷ "python" ∷ "python3" ∷ "node" ∷ "perl" ∷ "ruby" ∷ []

-- `/^[\w.~$/@+-]+$/`, with `/[./]/` and `/\w/`
abbrev file_name_token : Regex
file_name_token = at_start ▸ plus (one is_word_unit ∪ in_class ".~$/@+-") ▸ at_end

unfoldable pub is_file_name_token : Text → Bool
unfolding tests
is_file_name_token token =
    tests file_name_token token
    && (any (λ u. u == b'.' || u == b'/') token && any is_word_unit token)

-- `match[1] ?? match[2] ?? ""`
abbrev first_group : List (ℕ × Text) → Text
first_group groups = elim (get_group 1 groups) [
  | some body ↦ body
  | none ↦ elim (get_group 2 groups) [ some body ↦ body | none ↦ [] ]
]

-- The same, trimmed, for each literal.
unfoldable pub literals_of : List Match → List Text
unfolding trim
literals_of [] = []
literals_of (m ∷ ms) = trim (first_group m.found) ∷ literals_of ms

unfoldable pub literals_in : Text → List Text
unfolding match_all literals_of
literals_in text = literals_of (match_all quoted_literal text)

abbrev program_text : Regex
program_text = white_or "(){};>="

-- `/>>?\s*["']?([^\s"'();]+)/g`
abbrev program_redirect : Regex
program_redirect =
    lit ">"
    ▸ optional (lit ">")
    ▸ many white
    ▸ optional (in_class "'\"")
    ▸ group 1 (plus (solid_not "\"'();"))

-- The files that one argument of an interpreter names.
unfoldable pub program_files : Text → List Text
unfolding tests literals_in is_file_name_token group_all
program_files argument =
    if tests program_text argument
    then keep is_file_name_token (literals_in argument)
      ++ keep is_file_name_token (group_all 1 program_redirect argument)
    else []

-- `/^-[a-zA-Z]*i/` and `/(?:^|[;\s}/])[wW]\s+(\S+)/g`
abbrev in_place_flag : Regex
in_place_flag =
    at_start
    ▸ lit "-"
    ▸ many (one (λ u. (leb b'A' u && leb u b'Z') || (leb b'a' u && leb u b'z')))
    ▸ lit "i"

abbrev sed_write : Regex
sed_write = (at_start ∪ white_or ";}/") ▸ in_class "wW" ▸ plus white ▸ group 1 (plus solid)

unfoldable pub tool_write_targets : Text → List Text → List Text
unfolding starts_with tests group_all program_files
tool_write_targets tool args =
    let positional = keep (λ a. not (is_flag a)) args in
    if is "tee" tool
    then positional
    else if is "dd" tool
    then flat_map (λ a. if starts_with a (codes "of=") then drop 3 a ∷ [] else []) args
    else if is "sed" tool
    then (if any (λ a. tests in_place_flag a) args then drop 1 positional else [])
      ++ flat_map (λ a. group_all 1 sed_write a) args
    else flat_map program_files args

-- The loop of `writesByToolThenRuns`, with the files written so far.
unfoldable pub writes_then_runs : List Text → List Invocation → Bool
unfolding executes_one_of has tool_write_targets script_identity
writes_then_runs written [] = false
writes_then_runs written (found ∷ more) =
    let targets =
      if has write_tools found.tool
      then map script_identity (tool_write_targets found.tool found.args)
      else [] in
    let later = writes_then_runs (written ++ targets) more in
    if not (is_empty written) && executes_one_of found written then true else later

unfoldable pub writes_by_tool_then_runs : Node → Text → Bool
unfolding writes_then_runs executable_from invocations
writes_by_tool_then_runs node command =
    writes_then_runs [] (invocations (executable_segments node command))
