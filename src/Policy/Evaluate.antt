-- ===== src/Policy/Evaluate.antt =====
-- `evaluateCommand`, over any extraction of capabilities (capabilities.ts) that may throw.
pub mod Grouping
pub mod FirstRule
pub mod Decisions
use code_jam.Prelude.{
  ltb, leb, ◌==◌, if◌then◌else◌, ltb→lt, ltb-false→le, lt→ltb, le→ltb-false, ==_iff, Bool-cases,
  Option-cases, true-of-ne-false, length, take, drop, get_elem?, keep, any, all, find, modify_first,
  length-append, All, All-append, All-keep, All-modify_first, All-find, All-imp, All-keep_self,
  Text, codes, text_eq, text_eq_iff, text_eq_refl, text_eq_sym, includes, is_white, is_empty,
  trim_start, trim_end, trim, to_lower, lower, split_from, split, starts_with, index_of, join,
  Fault, http, failure, Result, ok, err, bind, bind-eq-ok, guard, Exec, pure, raise, continue,
  ◌>>=◌, ◌>>◌, ℕ, zero, suc, ◌+◌, ◌-◌, ◌*◌, ◌/◌, ◌%◌, ◌^◌, ◌≤◌, ◌<◌, String, ◌≡◌, refl, sym, ap,
  ◌∙◌, ◌≢◌, ◌↔◌, ◌⊎◌, inl, inr, Bool, true, false, not, ◌&&◌, ◌||◌, Option, none, some, List, [],
  ◌∷◌, ◌++◌, map, arith,
}
use code_jam.Policy.Types.{
  CapabilityRequest, PolicyContext, Actor, Resource, DecisionContext, Decision, allow, deny, Policy,
  CombinationPolicy, PolicyViolation, to_resource,
}
use code_jam.Policy.Rules.{combination_policies, policy_rules, hosts_of, decide}

-- The `Map` from a rule's id to the resources that it claimed, in the order of first claim.
abbrev pub Claims : Type 0
Claims = List (Text × List Resource)

-- `denied.get(rule)`
unfoldable pub get_claims : Text → Claims → Option (List Resource)
get_claims rule [] = none
get_claims rule ((id, rs) ∷ m) = if text_eq id rule then some rs else get_claims rule m

-- `denied.set(rule, [...(denied.get(rule) ?? []), resource])`
unfoldable pub add_claim : Text → Resource → Claims → Claims
add_claim rule r [] = (rule, r ∷ []) ∷ []
add_claim rule r ((id, rs) ∷ m) =
    if text_eq id rule then (id, rs ++ r ∷ []) ∷ m else (id, rs) ∷ add_claim rule r m

abbrev pub note_denial : Decision → Resource → Claims → Claims
note_denial allow r m = m
note_denial (deny rule _ _ _) r m = add_claim rule r m

-- the loop over the requests
unfoldable pub collect : Actor → DecisionContext → List CapabilityRequest → Claims → Claims
collect actor c [] m = m
collect actor c (r ∷ rs) m =
    collect actor c rs
      (note_denial (decide actor r.capability (to_resource r) c policy_rules) (to_resource r) m)

-- `hosts && hosts.length > 0 ? { hosts } : {}`
abbrev pub offered : Option (List Text) → Option (List Text)
offered none = none
offered (some []) = none
offered (some (h ∷ hs)) = some (h ∷ hs)

-- the loop over the rules: the first one that claimed a resource reports all that it claimed
unfoldable pub report :
    List Policy → Claims → DecisionContext → List CapabilityRequest → Option PolicyViolation
report [] denied c requests = none
report (p ∷ ps) denied c requests = elim (get_claims p.id denied) [
  | none ↦ report ps denied c requests
  | some matching ↦ some (record {
    rule = p.id;
    detail = p.detail matching c;
    hosts = offered (hosts_of p matching);
    capabilities = some requests;
  })
]

-- the loop over the combination rules
unfoldable pub combine :
    List CombinationPolicy → DecisionContext → List CapabilityRequest → Option PolicyViolation
combine [] c requests = none
combine (p ∷ ps) c requests =
    if not (p.when requests c)
    then combine ps c requests
    else some (record {
      rule = p.id;
      detail = p.detail requests;
      hosts = none;
      capabilities = some requests;
    })

unfoldable pub judge : Actor → DecisionContext → List CapabilityRequest → Option PolicyViolation
judge actor c requests = elim (combine combination_policies c requests) [
  | some v ↦ some v
  | none ↦ report policy_rules (collect actor c requests []) c requests
]

module _ (extract_capabilities : Text → PolicyContext → Result (List CapabilityRequest))
    (is_textual_url_only : Text → Bool) where
  unfoldable pub evaluate_command : Actor → Text → PolicyContext → Result (Option PolicyViolation)
  evaluate_command actor command context =
      if is_empty (trim command)
      then ok none
      else bind (extract_capabilities command context) (λ requests. ok (
          judge actor (record { base = context; textual_only = is_textual_url_only command })
            requests))

  -- `describeCapabilities`
  unfoldable pub describe_capabilities : Text → PolicyContext → Result (List CapabilityRequest)
  describe_capabilities command context =
      if not (is_empty (trim command)) then extract_capabilities command context else ok []
