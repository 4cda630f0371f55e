-- ===== src/Shell/Names.antt =====
-- The names and options that apps/server/src/shell-parse.ts knows, and `baseName`.
use code_jam.Prelude.{
  ◌==◌, Text, codes, text_eq, to_lower, lower, split_from, split, String, Bool, false, ◌||◌, List,
  [], ◌∷◌,
}
use code_jam.Regex.{
  Regex, one, ◌▸◌, many, at_start, at_end, is_alpha, is_digit_unit, in_class, plus, optional, lit,
}
use code_jam.Regex.Search.{tests, replace_first}

-- `new Set([...]).has(s)`
unfoldable pub has : List String → Text → Bool
has [] s = false
has (n ∷ ns) s = text_eq (codes n) s || has ns s

abbrev pub network_tool_names : List String
network_tool_names =
    "curl" ∷ "wget" ∷ "nc" ∷ "ncat" ∷ "netcat" ∷ "telnet" ∷ "ssh" ∷ "scp" ∷ "sftp" ∷ "rsync" ∷ "ftp"
    ∷ "socat" ∷ "openssl" ∷ "aria2c" ∷ "httpie" ∷ "http" ∷ "xh" ∷ "dig" ∷ "nslookup" ∷ "host"
    ∷ "ping" ∷ "ping6" ∷ "lwp-request" ∷ []

abbrev pub simple_wrappers : List String
simple_wrappers = "exec" ∷ "nohup" ∷ []

abbrev pub shell_prefixes : List String
shell_prefixes = "then" ∷ "do" ∷ "else" ∷ "elif" ∷ "time" ∷ "builtin" ∷ []

abbrev pub sudo_value_options : List String
sudo_value_options =
    "-u" ∷ "--user" ∷ "-g" ∷ "--group" ∷ "-h" ∷ "--host" ∷ "-p" ∷ "--prompt" ∷ "-C" ∷ "--chdir" ∷ []

abbrev pub shell_names : List String
shell_names = "sh" ∷ "bash" ∷ "zsh" ∷ "dash" ∷ "ksh" ∷ []

abbrev pub find_exec_options : List String
find_exec_options = "-exec" ∷ "-execdir" ∷ "-ok" ∷ "-okdir" ∷ []

abbrev pub one_destination_tools : List String
one_destination_tools =
    "ssh" ∷ "sftp" ∷ "telnet" ∷ "ftp" ∷ "ping" ∷ "ping6" ∷ "nc" ∷ "ncat" ∷ "netcat" ∷ "dig"
    ∷ "nslookup" ∷ "host" ∷ []

-- `/^[A-Za-z_][A-Za-z0-9_]*=/`
abbrev assignment : Regex
assignment =
    at_start
    ▸ one (λ u. is_alpha u || u == b'_')
    ▸ many (one (λ u. is_alpha u || is_digit_unit u || u == b'_'))
    ▸ lit "="

unfoldable pub is_assignment : Text → Bool
unfolding tests
is_assignment word = tests assignment word

-- `parts.pop()`
abbrev pub last_or : Text → List Text → Text
last_or t [] = t
last_or t (s ∷ ss) = last_or s ss

unfoldable pub base_name : Text → Text
unfolding replace_first split_from to_lower
base_name token =
    let opened = replace_first (at_start ▸ optional (lit "$") ▸ plus (lit "(")) [] token in
    let marked = replace_first (at_start ▸ plus (in_class "!{")) [] opened in
    let structural = replace_first (plus (in_class ")}") ▸ at_end) [] marked in
    lower (last_or structural (split b'/' structural))
