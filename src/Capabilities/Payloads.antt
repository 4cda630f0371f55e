-- ===== src/Capabilities/Payloads.antt =====
-- The texts that a command materialises: `feedsAnExecutor`, `pipedScriptPayloads`,
-- `writtenScriptPayloads` and `materialisedLiterals` (apps/server/src/capabilities.ts).
use code_jam.Prelude.{
  ◌==◌, if◌then◌else◌, flat_map, keep, any, all, Text, text_eq, is_empty, trim, starts_with, ℕ,
  Bool, not, ◌&&◌, ◌||◌, List, [], ◌∷◌, ◌++◌, map,
}
use code_jam.Regex.{
  Regex, one, ◌▸◌, ◌∪◌, many, few, group, same, at_start, at_end, is_alpha, wordly, white, any_unit,
  in_class, not_in, plus, optional, lit, among, white_or,
}
use code_jam.Regex.Search.{tests, group_all}
use code_jam.Shell.{
  Node, Invocation, is, is_flag, has, shell_names, executable_from, executable_segments,
  invocations,
}
use code_jam.Capabilities.Sets.{unique_from, unique, strip_quote}
use code_jam.Capabilities.Scripts.{literals_in, runs_written_script, writes_by_tool_then_runs}

-- `(?:^|[\s;&|])`
abbrev executor_start : Regex
executor_start = at_start ∪ white_or ";&|"

-- HERESTRING_TO_SHELL and PROCSUB_TO_SHELL
abbrev pub herestring_to_shell : Regex
herestring_to_shell =
    executor_start
    ▸ among ("sh" ∷ "bash" ∷ "zsh" ∷ "dash" ∷ "ksh" ∷ "eval" ∷ "source" ∷ [])
    ▸ many (not_in "<")
    ▸ lit "<<<"

abbrev pub procsub_to_shell : Regex
procsub_to_shell =
    executor_start ▸ among ("sh" ∷ "bash" ∷ "zsh" ∷ "dash" ∷ "ksh" ∷ []) ▸ plus white ▸ lit "<("

-- One invocation that reads its script from the standard input.
unfoldable pub reads_stdin : Invocation → Bool
unfolding has starts_with text_eq
reads_stdin found =
    is "xargs" found.tool
    || has ("eval" ∷ "source" ∷ "." ∷ []) found.tool
    || (has shell_names found.tool
        && is_empty (keep (λ a. not (is "-" a) && not (is_flag a)) found.args))

unfoldable pub feeds_an_executor : Node → Text → Bool
unfolding tests executable_from invocations reads_stdin
feeds_an_executor node command =
    (tests herestring_to_shell command || tests procsub_to_shell command)
    || (any (λ c. c == b'|') command
        && any reads_stdin (invocations (executable_segments node command)))

-- `text && text !== "%s" && text !== "%b"`
abbrev is_payload : Text → Bool
is_payload text = not (is_empty text) && (not (is "%s" text) && not (is "%b" text))

-- The arguments of `echo` and `printf`, without flags and outer quotes.
unfoldable pub emitted_texts : Node → Text → List Text
unfolding executable_from invocations has starts_with strip_quote
emitted_texts node command =
    flat_map
      (λ (found : Invocation).
        if has ("echo" ∷ "printf" ∷ []) found.tool
        then map strip_quote (keep (λ a. not (is_flag a)) found.args)
        else [])
      (invocations (executable_segments node command))

unfoldable pub piped_script_payloads : Node → Text → List Text
unfolding feeds_an_executor emitted_texts text_eq
piped_script_payloads node command =
    if feeds_an_executor node command then keep is_payload (emitted_texts node command) else []

-- `/^[%\\a-z:\t\n ]*$/i`
abbrev is_format_unit : ℕ → Bool
is_format_unit u = u == b'%' || u == 92 || is_alpha u || u == b':' || u == 9 || u == 10 || u == 32

unfoldable pub written_script_payloads : Node → Text → List Text
unfolding runs_written_script writes_by_tool_then_runs emitted_texts text_eq
written_script_payloads node command =
    if runs_written_script node command || writes_by_tool_then_runs node command
    then keep (λ text. is_payload text && not (all is_format_unit text))
        (emitted_texts node command)
    else []

-- `/^\$\{?\w+\}?$/`
abbrev bare_expansion : Regex
bare_expansion = at_start ▸ lit "$" ▸ optional (lit "{") ▸ plus wordly ▸ optional (lit "}") ▸ at_end

-- `/<<<\s*([^\n]+)/g` and `/<<-?\s*['"]?(\w+)['"]?\n([\s\S]*?)\n\1/g`
abbrev herestring : Regex
herestring = lit "<<<" ▸ many white ▸ group 1 (plus (one (λ u. not (u == 10))))

abbrev line_end : Regex
line_end = one (λ u. u == 10)

abbrev heredoc : Regex
heredoc =
    lit "<<"
    ▸ optional (lit "-")
    ▸ many white
    ▸ optional (in_class "'\"")
    ▸ group 1 (plus wordly)
    ▸ optional (in_class "'\"")
    ▸ line_end
    ▸ group 2 (few any_unit)
    ▸ line_end
    ▸ same 1

-- The literals of the command, its herestrings and its heredocs.
unfoldable pub outer_literals : Text → List Text
unfolding literals_in tests group_all trim strip_quote
outer_literals command =
    keep (λ text. not (is_empty text) && not (tests bare_expansion text)) (literals_in command)
    ++ (map (λ t. trim (strip_quote t)) (group_all 1 herestring command)
        ++ map (λ t. trim t) (group_all 2 heredoc command))

unfoldable pub materialised_literals : Text → List Text
unfolding outer_literals literals_in unique_from
materialised_literals command =
    let out = outer_literals command in
    let nested = flat_map (λ literal. keep (λ t. not (is_empty t)) (literals_in literal)) out in
    keep (λ t. not (is_empty t)) (unique (out ++ nested))
