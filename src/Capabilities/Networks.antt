-- ===== src/Capabilities/Networks.antt =====
-- The network tools and destinations of a command: `usesNetworkTool`, `extractHosts` and their
-- expressions (apps/server/src/capabilities.ts).
use code_jam.Prelude.{
  if◌then◌else◌, flat_map, any, Text, codes, is_empty, to_lower, lower, String, Bool, not, ◌||◌,
  List, [], ◌∷◌, ◌++◌, map,
}
use code_jam.Regex.{
  Regex, nothing, ◌▸◌, ◌∪◌, many, group, boundary, white, solid, digit, any_unit, in_class, not_in,
  plus, optional, lit, lit_i, among_i, solid_not,
}
use code_jam.Regex.Search.{tests, group_all}
use code_jam.Shell.{
  Node, Invocation, scheme, named_hosts, network_tool_invocations, network_tool_segments,
  hosts_from_network_invocation,
}
use code_jam.Capabilities.Sets.{unique_from, unique, command_start}

-- `\s+(?:-\S+\s+)*`
abbrev flags : Regex
flags = plus white ▸ many (lit "-" ▸ plus solid ▸ plus white)

abbrev verb : List String → Regex
verb names = among_i names ▸ boundary

-- CONDITIONAL_NETWORK
abbrev conditional_network : List Regex
conditional_network =
    (command_start
      ▸ lit_i "git"
      ▸ flags
      ▸ verb ("push" ∷ "pull" ∷ "fetch" ∷ "clone" ∷ "remote" ∷ "submodule" ∷ "ls-remote" ∷ []))
    ∷ (command_start
        ▸ among_i ("npm" ∷ "pnpm" ∷ "yarn" ∷ "npx" ∷ [])
        ▸ flags
        ▸ verb (
            "install" ∷ "ci" ∷ "add" ∷ "publish" ∷ "update" ∷ "audit" ∷ "pack" ∷ "dlx" ∷ "exec"
            ∷ []))
    ∷ (command_start
        ▸ lit_i "pip"
        ▸ optional (lit "3")
        ▸ flags
        ▸ verb ("install" ∷ "download" ∷ "wheel" ∷ []))
    ∷ (command_start ▸ lit_i "go" ▸ plus white ▸ verb ("get" ∷ "mod" ∷ "install" ∷ []))
    ∷ (command_start
        ▸ among_i ("apt" ∷ "apt-get" ∷ "brew" ∷ "gem" ∷ "cargo" ∷ "poetry" ∷ [])
        ▸ flags
        ▸ verb ("install" ∷ "add" ∷ "update" ∷ "upgrade" ∷ "fetch" ∷ []))
    ∷ []

-- ANY_URL
abbrev any_url : Regex
any_url = boundary ▸ scheme ▸ plus (solid_not "\"'`)")

unfoldable pub names_url : Text → Bool
unfolding tests
names_url text = tests any_url text

unfoldable pub uses_network_tool : Node → Text → Bool
unfolding network_tool_segments tests
uses_network_tool node command =
    not (is_empty (network_tool_segments node command))
    || any (λ expression. tests expression command) conditional_network

-- A program text that is given to an interpreter.
abbrev inline : Regex → String → List String → Regex
inline program flag names =
    program ▸ plus white ▸ lit_i flag ▸ boundary ▸ many any_unit ▸ boundary ▸ verb names

-- INLINE_NETWORK
abbrev inline_network : Regex
inline_network =
    inline (lit_i "python" ▸ optional (lit "3")) "-c"
      ("socket" ∷ "urllib" ∷ "requests" ∷ "httpx" ∷ "http.client" ∷ "getaddrinfo" ∷ [])
    ∪ inline (lit_i "node") "-e"
        ("fetch" ∷ "https" ∷ "http" ∷ "net" ∷ "dns" ∷ "dgram" ∷ "axios" ∷ [])
    ∪ inline (lit_i "perl") "-e" ("Socket" ∷ "LWP" ∷ [])
    ∪ (lit_i "/dev/" ▸ among_i ("tcp" ∷ "udp" ∷ []) ▸ lit "/")
    ∪ inline (lit_i "ruby") "-e" ("Net::HTTP" ∷ "open-uri" ∷ "Socket" ∷ [])
    ∪ (lit_i "deno" ▸ plus white ▸ verb ("eval" ∷ "run" ∷ []))
    ∪ inline (lit_i "php") "-r" ("file_get_contents" ∷ "curl_" ∷ "fsockopen" ∷ [])

unfoldable pub is_inline_network : Text → Bool
unfolding tests
is_inline_network command = tests inline_network command

-- A call with a literal host: the name, what stands before the literal, and the host in group 1.
abbrev call_of : List String → Regex → Regex
call_of names before =
    among_i names
    ▸ many white
    ▸ lit "("
    ▸ many white
    ▸ before
    ▸ in_class "'\""
    ▸ group 1 (plus (not_in "'\""))
    ▸ in_class "'\""

abbrev inline_calls : List Regex
inline_calls =
    call_of ("connect" ∷ "getaddrinfo" ∷ "create_connection" ∷ []) (optional (lit "(") ▸ many white)
    ∷ call_of ("resolve" ∷ "resolve4" ∷ "resolve6" ∷ "lookup" ∷ []) nothing
    ∷ call_of ("connect" ∷ "createConnection" ∷ []) (plus digit ▸ many white ▸ lit "," ▸ many white)
    ∷ []

unfoldable pub inline_network_hosts : Node → Text → List Text
unfolding named_hosts group_all
inline_network_hosts node command =
    flat_map (λ call. named_hosts node (group_all 1 call command)) inline_calls

-- `/\b[a-z][a-z0-9+.-]*:\/\/([^\s\\"'`)]+)/gi` and `/\/dev\/(?:tcp|udp)\/([^/\s"'`)]+)/gi`
abbrev url_authority : Regex
url_authority = boundary ▸ scheme ▸ group 1 (plus (solid_not "\\\"'`)"))

abbrev raw_socket : Regex
raw_socket =
    lit_i "/dev/" ▸ among_i ("tcp" ∷ "udp" ∷ []) ▸ lit "/" ▸ group 1 (plus (solid_not "/\"'`)"))

unfoldable pub extract_hosts : Node → Text → List Text
unfolding unique_from named_hosts group_all to_lower network_tool_invocations
    hosts_from_network_invocation is_inline_network inline_network_hosts
extract_hosts node command = unique (
    named_hosts node (map (λ m. codes "scheme://" ++ m) (group_all 1 url_authority command))
    ++ (map (λ m. lower m) (group_all 1 raw_socket command)
        ++ (flat_map
              (λ (found : Invocation). hosts_from_network_invocation node found.tool found.args)
              (network_tool_invocations node command)
            ++ (if is_inline_network command then inline_network_hosts node command else []))))
