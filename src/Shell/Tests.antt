-- ===== src/Shell/Tests.antt =====
-- The shell parser run on concrete commands.
use code_jam.Prelude.{
  get_or, Text, codes, text_eq, trim, split_from, split, starts_with, index_of, ◌≡◌, refl, true,
  some, List, [], ◌∷◌, ◌++◌, map, arith,
}
use code_jam.Shell.Words.{words_from, shell_words}
use code_jam.Shell.Words.Laws.{quoted_line, shell_words-quoted_line}
use code_jam.Shell.Segments.Laws.{
  unit, taken, Part, plain, escaped, single, double, parts_text, command_line,
  command_segments-command_line,
}
use code_jam.Shell.Invocations.{weight, resolve, env_words, skip_assignments}
use code_jam.Shell.Invocations.Fuel.{invocation_from_segment_rounds}
use code_jam.Shell.Tools.{invocation_hosts, ssh_routing_hosts}
use code_jam.Shell.Tools.Fuel.{hosts_from_network_invocation_depth}
use code_jam.Shell.Names.{base_name}
use code_jam.Shell.Substitutions.{substitutions_from, split_substitutions}
use code_jam.Shell.Segments.{segments_from, command_segments, strip_grouping}
use code_jam.Shell.Invocations.{invocation_from_segment}
use code_jam.Shell.Hosts.{Node, host_from_token}
use code_jam.Shell.Tools.{hosts_from_network_invocation}
use code_jam.Shell.Commands.{unwrap_from, unwrap_shell, executable_from, executable_segments}

-- A Node that knows no addresses, and that reads the authority of a URL up to a slash or a colon.
abbrev simple_node : Node
simple_node = record {
  is_ip = λ s. 0;
  url_hostname = λ s. some (get_or [] 0 (split b':' (get_or [] 2 (split b'/' s))));
  from_base64 = λ s. [];
  from_hex = λ s. [];
}

quoted_words :
    shell_words (codes "echo 'a b' \"c'd\" e\\ f")
    ≡ codes "echo" ∷ codes "a b" ∷ codes "c'd" ∷ codes "e f" ∷ []
unfolding words_from codes text_eq starts_with index_of
quoted_words = refl

segments_of_line :
    command_segments (codes "a 'x;y' && b | c") ≡ codes "a 'x;y'" ∷ codes "b" ∷ codes "c" ∷ []
unfolding segments_from codes text_eq starts_with index_of
segments_of_line = refl

bodies_of_line :
    split_substitutions (codes "echo $(nc h 4) `x`")
    ≡ (codes "echo $SUBSTITUTION $SUBSTITUTION", codes "nc h 4" ∷ codes "x" ∷ [])
unfolding substitutions_from codes text_eq starts_with index_of
bodies_of_line = refl

base_of_path : base_name (codes "$(/usr/bin/CURL)") ≡ codes "curl"
unfolding base_name codes text_eq starts_with index_of
base_of_path = refl

grouped : strip_grouping (codes "( nc h 4 )") ≡ codes "nc h 4"
unfolding strip_grouping codes text_eq starts_with index_of
grouped = refl

unwrapped : unwrap_shell (codes "/bin/bash -lc 'ls -l'") ≡ codes "ls -l"
unfolding unwrap_from codes text_eq starts_with index_of
unwrapped = refl

env_invocation :
    invocation_from_segment (codes "A=1 sudo -u bob env -S 'B=2 curl' h") true
    ≡ some (record { tool = codes "curl"; args = codes "h" ∷ [] })
unfolding invocation_from_segment codes text_eq starts_with index_of
env_invocation = refl

host_of_url :
    host_from_token simple_node (codes "'https://Evil.example:80/x'") ≡ some (codes "evil.example")
unfolding host_from_token split_from codes text_eq starts_with index_of
host_of_url = refl

proxy_hosts :
    hosts_from_network_invocation simple_node
      (codes "ssh")
      (codes "-oProxyCommand=nc jump 22" ∷ codes "bob@target" ∷ codes "ls" ∷ [])
    ≡ codes "target" ∷ codes "jump" ∷ codes "jump" ∷ []
unfolding hosts_from_network_invocation split_from codes text_eq starts_with index_of
proxy_hosts = refl

nested_line :
    executable_segments simple_node (codes "ls; sh -c 'nc h 4' $(cat x)")
    ≡ codes "ls" ∷ codes "sh -c 'nc h 4' $SUBSTITUTION" ∷ codes "nc h 4" ∷ codes "cat x" ∷ []
unfolding executable_from split_from codes text_eq starts_with index_of
nested_line = refl

-- Words, commands and invocations that the theorems are applied to.
abbrev odd_words : List Text
odd_words = codes "a b" ∷ codes "c\"d;" ∷ codes "$(x) \\" ∷ []

shell_words-quoted_line_example : shell_words (quoted_line odd_words) ≡ odd_words
shell_words-quoted_line_example =
    shell_words-quoted_line odd_words
      (unfold codes in ((refl, refl), ((refl, refl), ((refl, refl), tt))))

abbrev plainly : Text → List Part
plainly [] = []
plainly (c ∷ s) = plain c ∷ plainly s

-- `echo 'a;b'"|\""`, `ls x\;y` and `nc h 4`
abbrev odd_commands : List (List Part)
odd_commands =
    (plainly (codes "echo ") ++ (single (codes "a;b") ∷ double (unit b'|' ∷ taken 34 ∷ []) ∷ []))
    ∷ (plainly (codes "ls x") ++ (escaped b';' ∷ plain b'y' ∷ []))
    ∷ plainly (codes "nc h 4")
    ∷ []

command_segments-command_line_example :
    command_segments (command_line odd_commands) ≡ map parts_text odd_commands
command_segments-command_line_example =
    command_segments-command_line odd_commands (unfold codes trim in ground arith)

abbrev env_segment : Text
env_segment = codes "A=1 env -S 'B=2 curl' h"

invocation_from_segment_rounds_example :
    (resolve 99 true (skip_assignments (shell_words env_segment))
      ≡ invocation_from_segment env_segment true)
    × (env_words 99 (codes "-S" ∷ codes "B=2 curl" ∷ [])
        ≡ env_words
            (weight (codes "-S" ∷ codes "B=2 curl" ∷ []))
            (codes "-S" ∷ codes "B=2 curl" ∷ []))
invocation_from_segment_rounds_example =
    invocation_from_segment_rounds 99 env_segment true (codes "-S" ∷ codes "B=2 curl" ∷ [])
      (unfold codes in omega arith) (unfold codes in omega arith)

abbrev proxy_args : List Text
proxy_args = codes "-oProxyCommand=ssh -J a b" ∷ codes "bob@target" ∷ []

hosts_from_network_invocation_depth_example :
    invocation_hosts simple_node
      (ssh_routing_hosts 99 simple_node proxy_args)
      (codes "ssh")
      proxy_args
    ≡ hosts_from_network_invocation simple_node (codes "ssh") proxy_args
hosts_from_network_invocation_depth_example =
    hosts_from_network_invocation_depth 99 simple_node (codes "ssh") proxy_args
      (unfold codes in omega arith)
