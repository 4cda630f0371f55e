-- ===== src/Capabilities/Extract.antt =====
-- `extractCapabilities` and `untrustedDestinations` (apps/server/src/capabilities.ts): the requests of a
-- command and of what it materialises.
pub mod Trust
pub mod Carried
use code_jam.Prelude.{
  ltb, leb, ◌==◌, if◌then◌else◌, ltb→lt, ltb-false→le, lt→ltb, le→ltb-false, ==_iff, Bool-cases,
  Option-cases, true-of-ne-false, length, take, drop, get_elem?, get_or, flat_map, keep, any, all,
  find, modify_first, length-append, All, All-append, All-split, All-keep, All-modify_first,
  All-find, All-imp, All-keep_self, find-modify_first, find-test, some-inj, ok-inj, Text, codes,
  text_eq, text_eq_iff, text_eq_refl, text_eq_sym, includes, is_white, is_empty, trim_start,
  trim_end, trim, to_lower, lower, split_from, split, starts_with, index_of, join, Fault, http,
  failure, Result, ok, err, bind, bind-eq-ok, guard, Exec, pure, raise, continue, ◌>>=◌, ◌>>◌, ℕ,
  zero, suc, ◌+◌, ◌-◌, ◌*◌, ◌/◌, ◌%◌, ◌^◌, ◌≤◌, ◌<◌, String, ◌≡◌, refl, sym, ap, ◌∙◌, ◌≢◌, ◌↔◌, ◌⊎◌,
  inl, inr, Bool, true, false, not, ◌&&◌, ◌||◌, Option, none, some, List, [], ◌∷◌, ◌++◌, map, arith,
}
use code_jam.Policy.Types.{
  Capability, network_egress, secret_read, file_write, Evidence, network_tool, interpreter,
  destination_only, protected_material, file_write_literal, file_write_unresolved,
  CapabilityRequest, PolicyContext, same_capability,
}
use code_jam.Shell.{Node}
use code_jam.Capabilities.Sets.{unique_from, unique, strip_quotes}
use code_jam.Capabilities.Secrets.{find_protected_secret}
use code_jam.Capabilities.Networks.{uses_network_tool, is_inline_network, names_url, extract_hosts}
use code_jam.Capabilities.Writes.{
  write_targets, classify_write_target, WriteTargetVerdict, inside, outside, unresolved,
}
use code_jam.Capabilities.Decoders.{decoded_payloads, max_decode_depth}
use code_jam.Capabilities.Payloads.{
  piped_script_payloads, written_script_payloads, materialised_literals,
}

abbrev pub egress_request : Text → Bool → Evidence → CapabilityRequest
egress_request host is_trusted via = record {
  capability = network_egress;
  resource = host;
  trusted = is_trusted;
  via = via;
  decoded = false;
}

-- The requests for the hosts, when the command reaches the network.
unfoldable pub egress_requests : List Text → List Text → Evidence → List CapabilityRequest
unfolding text_eq
egress_requests allowed [] via = egress_request [] true via ∷ []
egress_requests allowed (h ∷ hosts) via =
    map (λ host. egress_request host (includes host allowed) via) (h ∷ hosts)

unfoldable pub network_requests : Node → Text → PolicyContext → List CapabilityRequest
unfolding to_lower uses_network_tool is_inline_network extract_hosts names_url egress_requests
network_requests node command context =
    let named_tool = uses_network_tool node command in
    let is_interpreter = is_inline_network command in
    let hosts = extract_hosts node command in
    let implicit = not (is_empty hosts) && names_url command in
    let allowed = map (λ host. lower host) context.allowed_hosts in
    if named_tool
    then egress_requests allowed hosts network_tool
    else if is_interpreter
    then egress_requests allowed hosts interpreter
    else if implicit
    then egress_requests allowed hosts destination_only
    else []

unfoldable pub secret_requests : Node → Text → List CapabilityRequest
unfolding find_protected_secret
secret_requests node command = elim (find_protected_secret node command) [
  | none ↦ []
  | some label ↦
      record {
        capability = secret_read;
        resource = label;
        trusted = false;
        via = protected_material;
        decoded = false;
      }
      ∷ []
]

abbrev pub is_inside_verdict : WriteTargetVerdict → Bool
is_inside_verdict inside = true
is_inside_verdict _ = false

abbrev write_evidence : WriteTargetVerdict → Evidence
write_evidence unresolved = file_write_unresolved
write_evidence _ = file_write_literal

-- The request for one write target, its quotes removed.
unfoldable pub write_request : List Text → Text → CapabilityRequest
unfolding classify_write_target
write_request write_roots resource = record {
  capability = file_write;
  resource = resource;
  trusted = is_inside_verdict (classify_write_target resource write_roots);
  via = write_evidence (classify_write_target resource write_roots);
  decoded = false;
}

unfoldable pub write_requests : Node → Text → PolicyContext → List CapabilityRequest
unfolding write_targets strip_quotes write_request
write_requests node command context =
    map (λ resource. write_request context.write_roots resource)
      (keep (λ r. not (is_empty r)) (map strip_quotes (write_targets node command)))

-- What the text of the command itself asks for.
unfoldable pub own_requests : Node → Text → PolicyContext → List CapabilityRequest
unfolding network_requests secret_requests write_requests
own_requests node command context =
    network_requests node command context
    ++ (secret_requests node command ++ write_requests node command context)

-- `r.capability + "\u0000" + r.resource`, compared: no name of a capability holds that code unit.
abbrev pub same_key : CapabilityRequest → CapabilityRequest → Bool
same_key r s = same_capability r.capability s.capability && text_eq r.resource s.resource

-- `seen`, and the requests that are not there yet
unfoldable pub absorb : List CapabilityRequest → List CapabilityRequest → List CapabilityRequest
unfolding text_eq
absorb seen [] = []
absorb seen (r ∷ rs) =
    let known = absorb seen rs in
    let fresh = record r { decoded = true } ∷ absorb (r ∷ seen) rs in
    if any (λ s. same_key s r) seen then known else fresh

unfoldable pub payloads : Node → Text → List Text
unfolding decoded_payloads piped_script_payloads written_script_payloads materialised_literals
payloads node command =
    decoded_payloads node command
    ++ (piped_script_payloads node command
        ++ (written_script_payloads node command ++ materialised_literals command))

-- The levels of materialised text that are still read.
unfoldable pub extract_from : ℕ → Node → Text → PolicyContext → List CapabilityRequest
unfolding own_requests absorb payloads
extract_from zero node command context = own_requests node command context
extract_from (suc levels) node command context =
    let own = own_requests node command context in
    own
    ++ absorb own
        (flat_map (λ payload. extract_from levels node payload context) (payloads node command))

abbrev pub extract_capabilities : Node → Text → PolicyContext → List CapabilityRequest
extract_capabilities node command context = extract_from max_decode_depth node command context

abbrev pub is_untrusted_destination : CapabilityRequest → Bool
is_untrusted_destination r =
    same_capability r.capability network_egress && (not r.trusted && not (is_empty r.resource))

unfoldable pub untrusted_destinations : List CapabilityRequest → List Text
unfolding unique_from
untrusted_destinations requests =
    unique (map (λ (r : CapabilityRequest). r.resource) (keep is_untrusted_destination requests))
