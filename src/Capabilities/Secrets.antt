-- ===== src/Capabilities/Secrets.antt =====
-- Protected material in a command: `findProtectedSecret` and what it calls
-- (apps/server/src/capabilities.ts).
use code_jam.Prelude.{
  ◌==◌, if◌then◌else◌, any, Text, codes, is_empty, String, Bool, true, false, not, ◌&&◌, ◌||◌,
  Option, none, some, List, [], ◌∷◌,
}
use code_jam.Regex.{
  Regex, ◌▸◌, ◌∪◌, many, at_start, at_end, boundary, in_class, not_in, plus, optional, lit, lit_i,
  solid_not,
}
use code_jam.Regex.Search.{tests}
use code_jam.Shell.{
  Node, Invocation, Quote, is, has, is_single, next_quote, starts_escape, words_from, shell_words,
  unwrap_from, unwrap_shell, invocation_from_segment, executable_from, executable_segments,
}

-- `/^\$ARK_API_KEY\b/` and `/^\$\{!?ARK_API_KEY(?::?[-+?=][^}]*)?\}/`
abbrev ark_name : Regex
ark_name = at_start ▸ lit "$ARK_API_KEY" ▸ boundary

abbrev ark_braces : Regex
ark_braces =
    at_start
    ▸ lit "${"
    ▸ optional (lit "!")
    ▸ lit "ARK_API_KEY"
    ▸ optional (optional (lit ":") ▸ in_class "-+?=" ▸ many (not_in "}"))
    ▸ lit "}"

-- The loop of `hasShellArkDereference`.
unfoldable pub ark_from : Quote → Bool → Text → Bool
unfolding tests
ark_from q escaped [] = false
ark_from q true (c ∷ s) = ark_from q false s
ark_from q false (c ∷ s) =
    let further = ark_from (next_quote q c) (starts_escape q c) s in
    let named = tests ark_name (c ∷ s) || tests ark_braces (c ∷ s) in
    if c == b'$' && not (is_single q) && named then true else further

abbrev pub has_shell_ark_dereference : Text → Bool
has_shell_ark_dereference command = ark_from none false command

abbrev runtime_tools : List String
runtime_tools = "node" ∷ "deno" ∷ "python" ∷ "python3" ∷ "perl" ∷ "ruby" ∷ "php" ∷ []

abbrev quoted_key : Regex
quoted_key = in_class "'\"" ▸ lit_i "ARK_API_KEY" ▸ in_class "'\""

-- RUNTIME_ARK_ACCESS
abbrev runtime_ark_access : Regex
runtime_ark_access =
    ((lit_i "process.env" ∪ lit_i "Deno.env")
      ▸ ((lit "[" ▸ quoted_key ▸ lit "]") ∪ lit_i ".ARK_API_KEY"))
    ∪ (lit_i "os."
        ▸ ((lit_i "environ"
              ▸ ((lit "[" ▸ quoted_key ▸ lit "]") ∪ (lit_i ".get(" ▸ quoted_key ▸ lit ")")))
            ∪ (lit_i "getenv(" ▸ quoted_key ▸ lit ")")))
    ∪ (lit_i "ENV[" ▸ quoted_key ▸ lit "]")
    ∪ (lit_i "getenv(" ▸ quoted_key ▸ lit ")")

-- ARK_FILTER_TOKEN
abbrev ark_filter_token : Regex
ark_filter_token =
    at_start
    ▸ optional (lit "^")
    ▸ lit_i "ARK"
    ▸ optional (optional (lit "_") ▸ lit_i "API" ▸ optional (optional (lit "_") ▸ lit_i "KEY"))
    ▸ optional (lit "$")
    ▸ at_end

-- `invocation?.tool === name && invocation.args.length === 0`
abbrev is_bare : String → Option Invocation → Bool
is_bare name none = false
is_bare name (some found) = is name found.tool && is_empty found.args

-- What a resolved invocation of the segment reads, when the environment was dumped before or not.
unfoldable pub reads_ark : Bool → Text → Invocation → Bool
unfolding has tests words_from
reads_ark dumped segment found =
    (is "printenv" found.tool && any (λ a. is "ARK_API_KEY" a) found.args)
    || (has runtime_tools found.tool && tests runtime_ark_access segment)
    || (dumped && any (λ a. tests ark_filter_token a) (shell_words segment))

-- The loop of `hasNamedArkAccess`; the flag is `fullEnvironmentSeen`.
unfoldable pub ark_access_from : Bool → List Text → Bool
unfolding invocation_from_segment reads_ark
ark_access_from dumped [] = false
ark_access_from dumped (segment ∷ segments) =
    let raw = invocation_from_segment segment false in
    let dumped' = dumped || is_bare "printenv" raw || is_bare "env" raw in
    let later = ark_access_from dumped' segments in
    elim (invocation_from_segment segment true) [
      | none ↦ later
      | some found ↦ if reads_ark dumped' segment found then true else later
    ]

unfoldable pub has_named_ark_access : Node → Text → Bool
unfolding ark_from unwrap_from executable_from ark_access_from
has_named_ark_access node command =
    let segments = executable_segments node command in
    has_shell_ark_dereference (unwrap_shell command)
    || any (λ s. has_shell_ark_dereference s) segments
    || ark_access_from false segments

-- PROTECTED_SECRETS
abbrev protected_secrets : List (Regex × String)
protected_secrets =
    ((lit ".secret" ▸ optional (lit "s") ▸ boundary) ∪ lit ".sec*", "protected .secrets/ directory")
    ∷ (lit "customer-db-url", "protected credential fixture")
    ∷ (
      lit "/proc/" ▸ many (plus (solid_not "/") ▸ lit "/") ▸ lit "environ" ▸ boundary,
      "process environment dump",
    )
    ∷ ((boundary ▸ lit "id_rsa" ▸ boundary) ∪ lit ".ssh/id_", "SSH private key")
    ∷ (lit ".aws/credentials", "AWS credentials file")
    ∷ []

unfoldable pub protected_label : List (Regex × String) → Text → Option Text
unfolding tests
protected_label [] command = none
protected_label ((expression, label) ∷ more) command =
    if tests expression command then some (codes label) else protected_label more command

unfoldable pub find_protected_secret : Node → Text → Option Text
unfolding has_named_ark_access protected_label
find_protected_secret node command =
    if has_named_ark_access node command
    then some (codes "Ark API key")
    else protected_label protected_secrets command
