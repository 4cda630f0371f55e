-- ===== src/Shell/Options.antt =====
-- The options of the network tools, and the arguments that are positions or values of options
-- (apps/server/src/shell-parse.ts).
use code_jam.Prelude.{
  ltb, ◌==◌, if◌then◌else◌, length, take, drop, get_or, any, Text, codes, is_empty, split_from,
  split, starts_with, index_of, ◌+◌, String, Bool, true, false, not, ◌&&◌, none, some, List, [],
  ◌∷◌, ◌++◌,
}
use code_jam.Shell.Names.{has}
use code_jam.Shell.Invocations.{is}

-- TOOL_VALUE_OPTIONS
abbrev pub tool_value_options : List (String × List String)
tool_value_options =
    (
      "curl",
      "-o" ∷ "--output" ∷ "-d" ∷ "--data" ∷ "--data-ascii" ∷ "--data-binary" ∷ "--data-raw"
          ∷ "--data-urlencode" ∷ "-H" ∷ "--header" ∷ "-A" ∷ "--user-agent" ∷ "-e" ∷ "--referer"
          ∷ "-F" ∷ "--form" ∷ "-T" ∷ "--upload-file" ∷ "-u" ∷ "--user" ∷ "-x" ∷ "--proxy"
          ∷ "--preproxy" ∷ "--url" ∷ "-X" ∷ "--request" ∷ "-w" ∷ "--write-out" ∷ "--cacert"
          ∷ "--capath" ∷ "--cert" ∷ "--key" ∷ "--resolve" ∷ "--connect-to" ∷ "--unix-socket"
          ∷ "--max-time" ∷ "--connect-timeout" ∷ "--retry" ∷ "--retry-delay" ∷ "--limit-rate" ∷ "-b"
          ∷ "--cookie" ∷ "-c" ∷ "--cookie-jar" ∷ "-K" ∷ "--config" ∷ "--netrc-file" ∷ "--trace"
          ∷ "--trace-ascii" ∷ "-D" ∷ "--dump-header" ∷ "--output-dir" ∷ [],
    )
    ∷ (
      "wget",
      "-O" ∷ "--output-document" ∷ "-o" ∷ "--output-file" ∷ "-P" ∷ "--directory-prefix" ∷ "--header"
          ∷ "--post-data" ∷ "--post-file" ∷ "--user-agent" ∷ "--referer" ∷ "--timeout" ∷ "--tries"
          ∷ "--wait" ∷ "--quota" ∷ "--bind-address" ∷ "--ca-certificate" ∷ "--certificate"
          ∷ "--private-key" ∷ "-e" ∷ "--execute" ∷ "-i" ∷ "--input-file" ∷ [],
    )
    ∷ (
      "aria2c",
      "-o" ∷ "--out" ∷ "-d" ∷ "--dir" ∷ "--header" ∷ "--user-agent" ∷ "--referer" ∷ "--timeout"
          ∷ "--connect-timeout" ∷ "--load-cookies" ∷ "--save-cookies" ∷ "--all-proxy"
          ∷ "--http-proxy" ∷ "--https-proxy" ∷ "--ftp-proxy" ∷ [],
    )
    ∷ (
      "ssh",
      "-b" ∷ "-c" ∷ "-D" ∷ "-E" ∷ "-F" ∷ "-i" ∷ "-J" ∷ "-L" ∷ "-l" ∷ "-m" ∷ "-O" ∷ "-o" ∷ "-p"
          ∷ "-Q" ∷ "-R" ∷ "-S" ∷ "-W" ∷ "-w" ∷ [],
    )
    ∷ (
      "sftp",
      "-B" ∷ "-b" ∷ "-c" ∷ "-D" ∷ "-F" ∷ "-i" ∷ "-J" ∷ "-l" ∷ "-o" ∷ "-P" ∷ "-R" ∷ "-S" ∷ [],
    )
    ∷ ("scp", "-c" ∷ "-D" ∷ "-F" ∷ "-i" ∷ "-J" ∷ "-l" ∷ "-o" ∷ "-P" ∷ "-S" ∷ "-X" ∷ [])
    ∷ ("rsync", "-e" ∷ "--rsh" ∷ "--rsync-path" ∷ "--password-file" ∷ [])
    ∷ (
      "ping",
      "-c" ∷ "-i" ∷ "-I" ∷ "-l" ∷ "-M" ∷ "-m" ∷ "-p" ∷ "-Q" ∷ "-s" ∷ "-t" ∷ "-W" ∷ "-w" ∷ [],
    )
    ∷ (
      "ping6",
      "-c" ∷ "-i" ∷ "-I" ∷ "-l" ∷ "-M" ∷ "-m" ∷ "-p" ∷ "-Q" ∷ "-s" ∷ "-t" ∷ "-W" ∷ "-w" ∷ [],
    )
    ∷ ("nc", "-e" ∷ "-i" ∷ "-p" ∷ "-q" ∷ "-s" ∷ "-w" ∷ "-x" ∷ "-X" ∷ [])
    ∷ (
      "ncat",
      "-e" ∷ "--exec" ∷ "-i" ∷ "--idle-timeout" ∷ "-p" ∷ "--source-port" ∷ "-s" ∷ "--source" ∷ "-w"
          ∷ "--wait" ∷ "--proxy" ∷ "--proxy-type" ∷ [],
    )
    ∷ ("netcat", "-e" ∷ "-i" ∷ "-p" ∷ "-q" ∷ "-s" ∷ "-w" ∷ "-x" ∷ "-X" ∷ [])
    ∷ []

-- TOOL_HOST_OPTIONS
abbrev pub tool_host_options : List (String × List String)
tool_host_options =
    ("curl", "-x" ∷ "--proxy" ∷ "--preproxy" ∷ "--url" ∷ [])
    ∷ ("aria2c", "--all-proxy" ∷ "--http-proxy" ∷ "--https-proxy" ∷ "--ftp-proxy" ∷ [])
    ∷ ("ssh", "-J" ∷ "-W" ∷ [])
    ∷ ("sftp", "-J" ∷ [])
    ∷ ("scp", "-J" ∷ [])
    ∷ ("nc", "-x" ∷ [])
    ∷ ("ncat", "--proxy" ∷ [])
    ∷ ("netcat", "-x" ∷ [])
    ∷ []

-- `TABLE[tool] ?? new Set()`
unfoldable pub options_of : List (String × List String) → Text → List String
options_of [] tool = []
options_of ((name, options) ∷ more) tool = if is name tool then options else options_of more tool

abbrev has_equals : Text → Bool
has_equals word = any (λ c. c == b'=') word

-- `s.slice(0, s.indexOf("="))` and `s.slice(s.indexOf("=") + 1)`, where there is one.
abbrev pub before_equals : Text → Text
before_equals word = elim (index_of b'=' word) [ none ↦ [] | some i ↦ take i word ]

abbrev pub after_equals : Text → Text
after_equals word = elim (index_of b'=' word) [ none ↦ word | some i ↦ drop (i + 1) word ]

-- `if (args[0]) values.push(...args[0].split(","))`
abbrev split_commas : Text → List Text
split_commas value = if is_empty value then [] else split b',' value

-- The hosts that one argument of `hostOptionValues` names, with the arguments after it.
unfoldable pub host_values_at : List String → Text → List Text → List Text
unfolding has starts_with index_of split_from
host_values_at options argument rest =
    if starts_with argument (codes "--") && has_equals argument
    then (if has options (before_equals argument) then split b',' (after_equals argument) else [])
    else if has options argument
    then split_commas (get_or [] 0 rest)
    else if ltb 2 (length argument) && has options (take 2 argument)
    then split b',' (drop 2 argument)
    else []

-- The loop of `hostOptionValues`; the flag says that the argument at hand was a value.
unfoldable pub host_values : List String → Bool → List Text → List Text
unfolding host_values_at
host_values options skip [] = []
host_values options true (a ∷ args) = host_values options false args
host_values options false (a ∷ args) =
    let long = starts_with a (codes "--") && has_equals a in
    host_values_at options a args ++ host_values options (not long && has options a) args

unfoldable pub host_option_values : Text → List Text → List Text
unfolding options_of host_values
host_option_values tool args = host_values (options_of tool_host_options tool) false args

-- One argument of `optionValues`: the values it gives, and whether the next one was taken.
unfoldable pub option_value_at : List String → Text → List Text → List Text × Bool
unfolding has index_of
option_value_at names argument rest =
    let next = get_or [] 0 rest in
    let key = before_equals argument in
    if not (is_empty key) && has names key
    then (after_equals argument ∷ [], false)
    else if has names argument && not (is_empty next)
    then (next ∷ [], true)
    else if ltb 2 (length argument) && has names (take 2 argument)
    then (drop 2 argument ∷ [], false)
    else ([], false)

unfoldable pub option_values_from : List String → Bool → List Text → List Text
unfolding option_value_at
option_values_from names skip [] = []
option_values_from names true (a ∷ args) = option_values_from names false args
option_values_from names false (a ∷ args) =
    let (values, taken) = option_value_at names a args in
    values ++ option_values_from names taken args

abbrev pub option_values : List Text → List String → List Text
option_values args names = option_values_from names false args

-- `colonFields`, with the state of its loop.
unfoldable pub colon_fields_from : Bool → Text → Text → List Text
colon_fields_from bracketed cur [] = cur ∷ []
colon_fields_from bracketed cur (c ∷ s) =
    let inside = if c == b'[' then true else if c == b']' then false else bracketed in
    let closed = cur ∷ colon_fields_from inside [] s in
    let longer = colon_fields_from inside (cur ++ c ∷ []) s in
    if c == b':' && not inside then closed else longer

abbrev pub colon_fields : Text → List Text
colon_fields value = colon_fields_from false [] value

-- `shortBundleTakesNextArgument`, from position 1 on.
unfoldable pub bundle_takes_next : List String → Text → Bool
unfolding has
bundle_takes_next options [] = false
bundle_takes_next options (c ∷ s) =
    if has options (b'-' ∷ c ∷ []) then is_empty s else bundle_takes_next options s

unfoldable pub positions_from : List String → Bool → List Text → List Text
unfolding bundle_takes_next starts_with
positions_from options skip [] = []
positions_from options true (a ∷ args) = positions_from options false args
positions_from options false (a ∷ args) =
    let after_long = positions_from options (not (has_equals a) && has options a) args in
    let after_short = positions_from options (bundle_takes_next options (drop 1 a)) args in
    let position = a ∷ positions_from options false args in
    if is "--" a
    then args
    else if starts_with a (codes "--")
    then after_long
    else if starts_with a (codes "-")
    then after_short
    else position

unfoldable pub positional_args : Text → List Text → List Text
unfolding options_of positions_from
positional_args tool args = positions_from (options_of tool_value_options tool) false args
