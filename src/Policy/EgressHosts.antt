-- ===== src/Policy/EgressHosts.antt =====
-- About the hosts that a refused egress offers to an approver (command-policy.ts).
use code_jam.Prelude.{
  keep, Text, codes, text_eq, text_eq_refl, Result, ok, ◌≡◌, refl, ap, ◌∙◌, Bool, false, not, ◌&&◌,
  some, List, [], ◌∷◌, map, arith,
}
use code_jam.Policy.Types.{
  network_egress, CapabilityRequest, PolicyContext, Actor, DecisionContext, PolicyViolation,
  same_capability, is_destination_only, Resource, to_resource,
}
use code_jam.Policy.Rules.{
  protected_secret_access, file_write_outside_workspace, network_egress_denied,
  network_egress_denied_implicit, file_write_unresolved_target, secret_exfiltration,
}
use code_jam.Policy.Evaluate.{combine, judge, evaluate_command}
use code_jam.Policy.Evaluate.Grouping.{claimed}
use code_jam.Policy.Evaluate.FirstRule.{first_claimed, judge-first_claimed}
use code_jam.Policy.Guarantees.{decision_context}

-- A request that the named-tool egress rule is about: an untrusted destination of a recognised tool.
abbrev pub is_refused_egress : CapabilityRequest → Bool
is_refused_egress r =
    same_capability r.capability network_egress
    && (not r.trusted && not (is_destination_only r.via))

ids_differ :
    (text_eq protected_secret_access network_egress_denied ≡ false)
    × (text_eq file_write_outside_workspace network_egress_denied ≡ false)
    × (text_eq file_write_unresolved_target network_egress_denied ≡ false)
    × (text_eq network_egress_denied_implicit network_egress_denied ≡ false)
    × (text_eq secret_exfiltration network_egress_denied ≡ false)
unfolding text_eq codes
ids_differ = (refl, refl, refl, refl, refl)

claimed-egress :
    (c : DecisionContext) (rs : List CapabilityRequest)
    → claimed network_egress_denied c rs ≡ map to_resource (keep is_refused_egress rs)
claimed-egress c [] = refl
claimed-egress c (r ∷ rs) =
    let (s, o, u, i, x) = ids_differ in
    ground (arith, claimed-egress c rs, text_eq_refl network_egress_denied)

map-value :
    (rs : List CapabilityRequest)
    → map (λ (x : Resource). x.value) (map to_resource rs)
      ≡ map (λ (r : CapabilityRequest). r.resource) rs
map-value [] = refl
map-value (r ∷ rs) = ap (◌∷◌ r.resource) (map-value rs)

judge-egress :
    (actor : Actor) (c : DecisionContext) (rs : List CapabilityRequest) (v : PolicyViolation)
    → judge actor c rs ≡ some v
    → v.rule ≡ network_egress_denied
    → v.hosts ≡ some (map (λ (x : Resource). x.value) (claimed network_egress_denied c rs))
unfolding combine first_claimed
judge-egress actor c rs v e k =
    let (s, o, u, i, x) = ids_differ in
    ground (arith, judge-first_claimed actor c rs, text_eq_refl network_egress_denied)

-- A violation of the rule on egress by a recognised tool names the destinations of exactly the requests
-- that this rule refuses, in their order: every untrusted egress request of the command that is more
-- than a bare destination. An untrusted bare destination, which another rule refuses, is not among
-- them.
pub egress_hosts_complete :
    (extract : Text → PolicyContext → Result (List CapabilityRequest)) (textual : Text → Bool)
    (actor : Actor) (command : Text) (context : PolicyContext) (rs : List CapabilityRequest)
    (v : PolicyViolation)
    → extract command context ≡ ok rs
    → evaluate_command extract textual actor command context ≡ ok (some v)
    → v.rule ≡ network_egress_denied
    → v.hosts ≡ some (map (λ (r : CapabilityRequest). r.resource) (keep is_refused_egress rs))
unfolding evaluate_command
egress_hosts_complete extract textual actor command context rs v e h k =
    let c = decision_context textual command context in
    let judged : judge actor c rs ≡ some v = ground (arith, e) in
    judge-egress actor c rs v judged k
    ∙ rw (claimed-egress c rs) (ap some (map-value (keep is_refused_egress rs)))
