-- ===== src/Policy/Rules/Verdicts.antt =====
-- What `decide` says over the rule table, against a description by cases on the capability.
use code_jam.Prelude.{if◌then◌else◌, ◌≡◌, refl, not, Option, none, some, [], ◌∷◌, arith}
use code_jam.Policy.Types.{
  Capability, network_egress, secret_read, file_write, CapabilityRequest, Actor, Resource,
  DecisionContext, Decision, allow, deny, Policy, to_resource, is_destination_only, is_unresolved,
}
use code_jam.Policy.Rules.{
  rule_secret, rule_outside, rule_unresolved, rule_egress, rule_implicit, policy_rules, decide,
  hosts_of,
}

-- The rule that claims a request, stated without the table's order.
abbrev pub claimed_by : DecisionContext → CapabilityRequest → Option Policy
claimed_by c r = elim r.capability [
  | secret_read ↦ some rule_secret
  | file_write ↦
      if r.trusted
      then none
      else if is_unresolved r.via
      then some rule_unresolved
      else some rule_outside
  | network_egress ↦
      if r.trusted
      then none
      else if not (is_destination_only r.via)
      then some rule_egress
      else if c.textual_only
      then none
      else some rule_implicit
]

-- The decision that a rule makes on one resource.
abbrev pub denial : DecisionContext → Resource → Option Policy → Decision
denial c r none = allow
denial c r (some p) = deny p.id (p.detail (r ∷ []) c) p.reviewable (hosts_of p (r ∷ []))

pub decide_lem :
    (actor : Actor) (r : CapabilityRequest) (c : DecisionContext)
    → decide actor r.capability (to_resource r) c policy_rules
      ≡ denial c (to_resource r) (claimed_by c r)
unfolding decide
decide_lem actor r c = go r.capability refl
  where
    go :
        (k : Capability)
        → r.capability ≡ k
        → decide actor r.capability (to_resource r) c policy_rules
          ≡ denial c (to_resource r) (claimed_by c r)
    go secret_read e = rw e refl
    go file_write e = ground arith
    go network_egress e = ground arith
