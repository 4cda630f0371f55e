-- ===== src/Shell/Commands.antt =====
-- Every command that would run: `unwrapShell`, `nestedCommands`, `executableSegments` and the network
-- tools among them (apps/server/src/shell-parse.ts).
use code_jam.Prelude.{
  ◌==◌, if◌then◌else◌, drop, get_or, flat_map, keep, any, Text, codes, is_empty, trim, starts_with,
  join, ℕ, zero, suc, String, Bool, true, false, not, ◌&&◌, ◌||◌, Option, none, some, List, [], ◌∷◌,
  ◌++◌, map,
}
use code_jam.Regex.{
  Regex, ◌▸◌, many, group, same, at_start, at_end, white, solid, any_unit, in_class, plus, optional,
  lit, lit_i, among_i,
}
use code_jam.Regex.Search.{match_group}
use code_jam.Shell.Substitutions.{substitutions_from, split_substitutions}
use code_jam.Shell.Segments.{segments_from, command_segments, strip_grouping}
use code_jam.Shell.Names.{has, shell_names, find_exec_options, network_tool_names}
use code_jam.Shell.Invocations.{Invocation, is, is_flag, invocation_from_segment}
use code_jam.Shell.Options.{positional_args}
use code_jam.Shell.Hosts.{Node, host_from_token}

-- `/^\s*(?:\S*\/)?(?:ba|z|da)?sh\s+-\S*c\s+(['"])([\s\S]*)\1\s*$/i`
abbrev shell_wrapper : Regex
shell_wrapper =
    at_start
    ▸ many white
    ▸ optional (many solid ▸ lit "/")
    ▸ optional (among_i ("ba" ∷ "z" ∷ "da" ∷ []))
    ▸ lit_i "sh"
    ▸ plus white
    ▸ lit "-"
    ▸ many solid
    ▸ lit_i "c"
    ▸ plus white
    ▸ group 1 (in_class "'\"")
    ▸ group 2 (many any_unit)
    ▸ same 1
    ▸ many white
    ▸ at_end

unfoldable pub unwrap_from : ℕ → Text → Text
unfolding match_group
unwrap_from zero inner = inner
unwrap_from (suc rounds) inner = elim (match_group 2 shell_wrapper inner) [
  | none ↦ inner
  | some body ↦ unwrap_from rounds body
]

abbrev pub unwrap_shell : Text → Text
unwrap_shell command = unwrap_from 8 command

-- `sh -c body`
unfoldable pub shell_body : List Text → List Text
unfolding starts_with
shell_body [] = []
shell_body (a ∷ args) =
    let next = get_or [] 0 args in
    if is_flag a && (any (λ c. c == b'c') (drop 1 a) && not (is_empty next))
    then next ∷ []
    else shell_body args

-- `if (body.length > 0) nested.push(body.join(" "))`
abbrev close_body : List Text → List Text → List Text
close_body body nested = if is_empty body then nested else join (codes " ") body ∷ nested

-- `find -exec body ;`, with the body that is being read
unfoldable pub find_bodies : Option (List Text) → List Text → List Text
unfolding has join
find_bodies none [] = []
find_bodies (some body) [] = close_body body []
find_bodies none (a ∷ args) = find_bodies (if has find_exec_options a then some [] else none) args
find_bodies (some body) (a ∷ args) =
    let closed = close_body body (find_bodies none args) in
    let longer = find_bodies (some (body ++ a ∷ [])) args in
    if is ";" a || is "+" a then closed else longer

abbrev xargs_value_options : List String
xargs_value_options =
    "-I" ∷ "-i" ∷ "-L" ∷ "-n" ∷ "-P" ∷ "-s" ∷ "-d" ∷ "-E" ∷ "-a" ∷ "--replace" ∷ "--max-args"
    ∷ "--max-procs" ∷ "--delimiter" ∷ "--arg-file" ∷ []

-- The words after the options of `xargs`; the flag says that the word at hand is a value.
unfoldable pub xargs_words : Bool → List Text → List Text
unfolding starts_with has
xargs_words value [] = []
xargs_words true (a ∷ args) = xargs_words false args
xargs_words false (a ∷ args) =
    let further = xargs_words (not (any (λ c. c == b'=') a) && has xargs_value_options a) args in
    if is_flag a then further else a ∷ args

-- The words after the first that names a host.
unfoldable pub remote_words : Node → List Text → List Text
unfolding host_from_token
remote_words node [] = []
remote_words node (a ∷ args) =
    let further = remote_words node args in
    elim (host_from_token node a) [ none ↦ further | some _ ↦ args ]

abbrev joined : List Text → List Text
joined words = let body = join (codes " ") words in if is_empty body then [] else body ∷ []

unfoldable pub carried_commands : Node → Invocation → List Text
unfolding trim has shell_body find_bodies xargs_words remote_words positional_args starts_with join
carried_commands node found =
    if is "eval" found.tool
    then keep (λ a. not (is_flag a) && not (is_empty (trim a))) found.args
    else if has shell_names found.tool
    then shell_body found.args
    else if is "find" found.tool
    then find_bodies none found.args
    else if is "xargs" found.tool
    then joined (xargs_words false found.args)
    else if is "ssh" found.tool
    then close_body (remote_words node (positional_args found.tool found.args)) []
    else []

unfoldable pub nested_commands : Node → Text → List Text
unfolding invocation_from_segment carried_commands
nested_commands node segment = elim (invocation_from_segment segment true) [
  | none ↦ []
  | some found ↦ carried_commands node found
]

-- `executableSegments`; the number is how many further levels are read.
unfoldable pub executable_from : ℕ → Node → Text → List Text
unfolding substitutions_from segments_from strip_grouping nested_commands
executable_from zero node command = []
executable_from (suc levels) node command =
    let (outer, inner) = split_substitutions command in
    flat_map
      (λ raw.
        let segment = strip_grouping raw in
        segment
        ∷ flat_map (λ nested. executable_from levels node nested) (nested_commands node segment))
      (command_segments outer)
    ++ flat_map (λ body. executable_from levels node body) inner

abbrev pub executable_segments : Node → Text → List Text
executable_segments node command = executable_from 7 node command

-- The invocations among some segments.
unfoldable pub invocations : List Text → List Invocation
unfolding invocation_from_segment
invocations [] = []
invocations (s ∷ ss) =
    let more = invocations ss in
    elim (invocation_from_segment s true) [ none ↦ more | some found ↦ found ∷ more ]

unfoldable pub network_tool_invocations : Node → Text → List Invocation
unfolding executable_from invocations has
network_tool_invocations node command =
    keep (λ found. has network_tool_names found.tool)
      (invocations (executable_segments node command))

unfoldable pub network_tool_segments : Node → Text → List Text
unfolding network_tool_invocations join
network_tool_segments node command =
    map (λ found. found.tool ++ (codes " " ++ join (codes " ") found.args))
      (network_tool_invocations node command)
