-- ===== src/Shell/Tools.antt =====
-- The hosts that an invocation of a network tool reaches: `hostsFromNetworkInvocation` and what it calls
-- (apps/server/src/shell-parse.ts).
pub mod Fuel
use code_jam.Prelude.{
  ltb, leb, ◌==◌, if◌then◌else◌, ltb→lt, ltb-false→le, lt→ltb, le→ltb-false, ==_iff, Bool-cases,
  Option-cases, true-of-ne-false, length, take, drop, get_elem?, get_or, flat_map, keep, any, all,
  find, modify_first, length-append, All, All-append, All-split, All-keep, All-modify_first,
  All-find, All-imp, All-keep_self, find-modify_first, find-test, some-inj, ok-inj, Text, codes,
  text_eq, text_eq_iff, text_eq_refl, text_eq_sym, includes, is_white, is_empty, trim_start,
  trim_end, trim, to_lower, lower, split_from, split, starts_with, index_of, join, Fault, http,
  failure, Result, ok, err, bind, bind-eq-ok, guard, Exec, pure, raise, continue, ◌>>=◌, ◌>>◌, ℕ,
  zero, suc, ◌+◌, ◌-◌, ◌*◌, ◌/◌, ◌%◌, ◌^◌, ◌≤◌, ◌<◌, String, ◌≡◌, refl, sym, ap, ◌∙◌, ◌≢◌, ◌↔◌, ◌⊎◌,
  inl, inr, Bool, true, false, not, ◌&&◌, ◌||◌, Option, none, some, List, [], ◌∷◌, ◌++◌, map, arith,
}
use code_jam.Regex.{
  Regex, nothing, one, ◌▸◌, ◌∪◌, many, group, at_start, at_end, in_class, plus, optional, lit,
  lit_i, among_i, dot,
}
use code_jam.Regex.Search.{tests, match_group}
use code_jam.Shell.Names.{has, network_tool_names, one_destination_tools}
use code_jam.Shell.Invocations.{Invocation, is, weight, invocation_from_segment}
use code_jam.Shell.Options.{
  options_of, before_equals, after_equals, host_option_values, option_values_from, option_values,
  colon_fields, colon_fields_from, positional_args,
}
use code_jam.Shell.Hosts.{Node, host_from_token, hosts_of, named_hosts}

unfoldable pub curl_override_hosts : Node → List Text → List Text
unfolding option_values_from colon_fields_from named_hosts split_from join
curl_override_hosts node args =
    flat_map
      (λ value. named_hosts node (split b',' (join (codes ":") (drop 2 (colon_fields value)))))
      (option_values args ("--resolve" ∷ []))
    ++ flat_map (λ value. named_hosts node (get_or [] 2 (colon_fields value) ∷ []))
        (option_values args ("--connect-to" ∷ []))

-- `fields.length >= 2 ? fields[fields.length - 2] : fields[0]`
abbrev forward_target : List Text → Text
forward_target fields =
    if leb 2 (length fields) then get_or [] (length fields - 2) fields else get_or [] 0 fields

-- `-L`, `-R` and `-W`
unfoldable pub forward_hosts : Node → List Text → List Text
unfolding option_values_from colon_fields_from named_hosts
forward_hosts node args =
    flat_map (λ value. named_hosts node (forward_target (colon_fields value) ∷ []))
      (option_values args ("-L" ∷ "-R" ∷ "-W" ∷ []))

-- `/^-o(?:ProxyJump|ProxyCommand)=(.+)$/i`
abbrev pub attached_proxy : Regex
attached_proxy =
    at_start
    ▸ lit_i "-o"
    ▸ among_i ("ProxyJump" ∷ "ProxyCommand" ∷ [])
    ▸ lit "="
    ▸ group 1 (plus dot)
    ▸ at_end

-- The arguments that carry their option: what follows `-o` in each.
unfoldable pub attached_proxies : List Text → List Text
unfolding tests
attached_proxies args = map (λ a. drop 2 a) (keep (λ a. tests attached_proxy a) args)

-- One value of `-o`, with the call that a proxy command makes.
unfoldable pub ssh_option_hosts : Node → (Text → List Text → List Text) → Text → List Text
unfolding index_of to_lower named_hosts split_from has invocation_from_segment
ssh_option_hosts node proxied value =
    if not (any (λ c. c == b'=') value)
    then []
    else let key = lower (before_equals value) in
      if is "proxyjump" key
      then named_hosts node (split b',' (after_equals value))
      else if is "proxycommand" key
      then elim (invocation_from_segment (after_equals value) true) [
        | none ↦ []
        | some proxy ↦
            if has network_tool_names proxy.tool then proxied proxy.tool proxy.args else []
      ]
      else []

-- SOCAT_CONNECT_ADDRESS
abbrev socat_address : Regex
socat_address =
    at_start
    ▸ group 1 (
        among_i ("tcp" ∷ "udp" ∷ "sctp" ∷ "dccp" ∷ "openssl" ∷ "ssl" ∷ [])
        ∪ (lit_i "socks4" ▸ optional (lit_i "a"))
        ∪ among_i ("socks5" ∷ "proxy" ∷ []))
    ▸ optional (in_class "46")
    ▸ optional (among_i ("-connect" ∷ "-c" ∷ []))
    ▸ lit ":"
    ▸ group 2 (plus dot)
    ▸ at_end

unfoldable pub socat_hosts : Node → List Text → List Text
unfolding match_group tests colon_fields_from named_hosts split_from
socat_hosts node args =
    flat_map
      (λ argument. elim (match_group 2 socat_address argument) [
        | none ↦ []
        | some address ↦
            let family : Text = elim (match_group 1 socat_address argument) [
              | none ↦ []
              | some f ↦ f
            ] in
            let hops = if tests (lit_i "socks" ∪ lit_i "proxy") family then 2 else 1 in
            named_hosts node
              (map (λ field. get_or [] 0 (split b',' field)) (take hops (colon_fields address)))
      ])
      args

-- `-connect` and `-proxy` of `openssl`
unfoldable pub openssl_hosts : Node → List Text → List Text
unfolding named_hosts
openssl_hosts node [] = []
openssl_hosts node (a ∷ []) = []
openssl_hosts node (a ∷ b ∷ args) =
    let more = openssl_hosts node (b ∷ args) in
    if is "-connect" a || is "-proxy" a then named_hosts node (b ∷ []) ++ more else more

abbrev is_remote : Text → Bool
is_remote argument = any (λ c. c == b':' || c == b'@') argument

abbrev is_some {ℓ} : {A : Type ℓ} → Option A → Bool
is_some none = false
is_some (some _) = true

-- The method of `http POST host` is dropped.
unfoldable pub destination_args : Node → Text → List Text → List Text
unfolding positional_args has host_from_token tests
destination_args node tool args =
    let positionals = positional_args tool args in
    let upper = at_start ▸ plus (one (λ u. leb b'A' u && leb u b'Z')) ▸ at_end in
    let trimmed =
      if (is "http" tool || is "httpie" tool || is "xh" tool)
        && tests upper (get_or [] 0 positionals)
      then drop 1 positionals
      else positionals in
    if has one_destination_tools tool
    then take 1 (keep (λ a. is_some (host_from_token node a)) trimmed)
    else trimmed

-- `hostsFromNetworkInvocation`, with the hosts that `sshRoutingHosts(args)` gives.
unfoldable pub invocation_hosts : Node → List Text → Text → List Text → List Text
unfolding hosts_of positional_args host_option_values openssl_hosts socat_hosts destination_args
    curl_override_hosts
invocation_hosts node routing tool args =
    let remote = hosts_of node (keep is_remote (positional_args tool args)) in
    if is "scp" tool
    then hosts_of node (remote ++ (host_option_values tool args ++ routing))
    else if is "rsync" tool
    then remote
    else if is "openssl" tool
    then openssl_hosts node args
    else if is "socat" tool
    then socat_hosts node args
    else hosts_of node (
        destination_args node tool args
        ++ (host_option_values tool args
            ++ ((if is "curl" tool then curl_override_hosts node args else [])
                ++ (if is "ssh" tool || is "sftp" tool then routing else []))))

-- `sshRoutingHosts`: a proxy command is an invocation of its own, and an attached option is read again
-- as an option with a value.
unfoldable pub ssh_routing_hosts : ℕ → Node → List Text → List Text
unfolding forward_hosts option_values_from ssh_option_hosts attached_proxies invocation_hosts
ssh_routing_hosts zero node args = []
ssh_routing_hosts (suc fuel) node args =
    let proxied : Text → List Text → List Text =
      λ tool more. invocation_hosts node (ssh_routing_hosts fuel node more) tool more in
    forward_hosts node args
    ++ (flat_map (ssh_option_hosts node proxied) (option_values args ("-o" ∷ []))
        ++ flat_map (λ value. ssh_routing_hosts fuel node (codes "-o" ∷ value ∷ []))
            (attached_proxies args))

unfoldable pub hosts_from_network_invocation : Node → Text → List Text → List Text
unfolding ssh_routing_hosts
hosts_from_network_invocation node tool args =
    invocation_hosts node (ssh_routing_hosts (weight args + 2) node args) tool args
