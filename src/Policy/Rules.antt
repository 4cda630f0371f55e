-- ===== src/Policy/Rules.antt =====
-- The rule tables and `decide` (apps/server/src/command-policy.ts).
pub mod Ids
pub mod Verdicts
use code_jam.Prelude.{
  ltb, leb, ◌==◌, if◌then◌else◌, ltb→lt, ltb-false→le, lt→ltb, le→ltb-false, ==_iff, Bool-cases,
  Option-cases, true-of-ne-false, length, take, drop, get_elem?, keep, any, all, find, modify_first,
  length-append, All, All-append, All-keep, All-modify_first, All-find, All-imp, All-keep_self,
  Text, codes, text_eq, text_eq_iff, text_eq_refl, text_eq_sym, includes, is_white, is_empty,
  trim_start, trim_end, trim, to_lower, lower, split_from, split, starts_with, index_of, join,
  Fault, http, failure, Result, ok, err, bind, bind-eq-ok, guard, Exec, pure, raise, continue,
  ◌>>=◌, ◌>>◌, ℕ, zero, suc, ◌+◌, ◌-◌, ◌*◌, ◌/◌, ◌%◌, ◌^◌, ◌≤◌, ◌<◌, String, ◌≡◌, refl, sym, ap,
  ◌∙◌, ◌≢◌, ◌↔◌, ◌⊎◌, inl, inr, Bool, true, false, not, ◌&&◌, ◌||◌, Option, none, some, List, [],
  ◌∷◌, ◌++◌, map, arith,
}
use code_jam.Policy.Types.{
  Capability, network_egress, secret_read, file_write, CapabilityRequest, Actor, Resource,
  DecisionContext, Decision, allow, deny, Policy, CombinationPolicy, same_capability,
  is_destination_only, is_unresolved, names_tool,
}

-- The rules' ids.
abbrev pub secret_exfiltration : Text
secret_exfiltration = codes "secret-exfiltration"

abbrev pub protected_secret_access : Text
protected_secret_access = codes "protected-secret-access"

abbrev pub file_write_outside_workspace : Text
file_write_outside_workspace = codes "file-write-outside-workspace"

abbrev pub file_write_unresolved_target : Text
file_write_unresolved_target = codes "file-write-unresolved-target"

abbrev pub network_egress_denied : Text
network_egress_denied = codes "network-egress-denied"

abbrev pub network_egress_denied_implicit : Text
network_egress_denied_implicit = codes "network-egress-denied-implicit"

-- `resources.map((r) => r.value).join(", ")`
unfoldable pub listed : List Resource → Text
listed rs = join (codes ", ") (map (λ r. r.value) rs)

-- `resources[0]?.value`, which prints as "undefined" on an empty list
pub first_value : List Resource → Text
first_value [] = codes "undefined"
first_value (r ∷ _) = r.value

pub first_secret : List CapabilityRequest → Text
first_secret rs = elim (find (λ r. same_capability r.capability secret_read) rs) [
  | none ↦ []
  | some r ↦ r.resource
]

abbrev pub reads_secret : List CapabilityRequest → Bool
reads_secret = any (λ r. same_capability r.capability secret_read)

abbrev pub egresses_by_tool : List CapabilityRequest → Bool
egresses_by_tool = any (λ r. same_capability r.capability network_egress && names_tool r.via)

abbrev pub combination_policies : List CombinationPolicy
combination_policies =
    record {
      id = secret_exfiltration;
      statement = codes "An actor holding SECRET_READ may not also exercise NETWORK_EGRESS.";
      reviewable = false;
      when = λ requests _. reads_secret requests && egresses_by_tool requests;
      detail = λ requests.
          codes "Command combines network egress with access to "
          ++ (first_secret requests ++ codes ".");
    }
    ∷ []

abbrev pub rule_secret : Policy
rule_secret = record {
  id = protected_secret_access;
  statement = codes "SECRET_READ on protected material is denied on its own.";
  action = secret_read;
  reviewable = false;
  when = λ _ _ _. true;
  detail = λ resources _. codes "Command reads " ++ (first_value resources ++ codes ".");
  hosts = none;
}

abbrev pub rule_outside : Policy
rule_outside = record {
  id = file_write_outside_workspace;
  statement = codes "FILE_WRITE is permitted only inside the run's workspace.";
  action = file_write;
  reviewable = false;
  when = λ r _ _. not r.trusted && not (is_unresolved r.via);
  detail = λ resources _.
      codes "Command writes outside the workspace: " ++ (listed resources ++ codes ".");
  hosts = none;
}

abbrev pub rule_unresolved : Policy
rule_unresolved = record {
  id = file_write_unresolved_target;
  statement =
      codes "A FILE_WRITE whose destination cannot be settled from the command text "
      ++ codes "is neither permitted nor refused on the engine's own authority.";
  action = file_write;
  reviewable = true;
  when = λ r _ _. is_unresolved r.via && not r.trusted;
  detail = λ resources _.
      codes "Command writes to a target whose destination cannot be resolved from the "
      ++ (codes "command text: "
          ++ (listed resources
              ++ codes ". It may be inside the workspace or outside it; the text does not say."));
  hosts = none;
}

abbrev pub rule_egress : Policy
rule_egress = record {
  id = network_egress_denied;
  statement = codes "NETWORK_EGRESS is permitted only to destinations on the run's allowlist.";
  action = network_egress;
  reviewable = true;
  when = λ r _ _. not r.trusted && not (is_destination_only r.via);
  detail = λ resources _.
      codes "Command contacts non-allowlisted host(s): " ++ (listed resources ++ codes ".");
  hosts = some (map (λ r. r.value));
}

abbrev pub rule_implicit : Policy
rule_implicit = record {
  id = network_egress_denied_implicit;
  statement =
      codes "A destination with no recognised network tool is still NETWORK_EGRESS: "
      ++ codes "an obfuscated command can hide its binary but not where it connects.";
  action = network_egress;
  reviewable = true;
  when = λ r c _. not r.trusted && (is_destination_only r.via && not c.textual_only);
  detail = λ resources _.
      codes "Command references non-allowlisted host(s) without a recognised "
      ++ (codes "network tool, which is how an obfuscated command hides its binary: "
          ++ (listed resources ++ codes "."));
  hosts = some (map (λ r. r.value));
}

abbrev pub policy_rules : List Policy
policy_rules = rule_secret ∷ rule_outside ∷ rule_unresolved ∷ rule_egress ∷ rule_implicit ∷ []

-- `policy.hosts?.(resources)`
abbrev pub hosts_of : Policy → List Resource → Option (List Text)
hosts_of p resources = elim p.hosts [ none ↦ none | some f ↦ some (f resources) ]

unfoldable pub decide : Actor → Capability → Resource → DecisionContext → List Policy → Decision
decide actor action resource context [] = allow
decide actor action resource context (p ∷ ps) =
    if not (same_capability p.action action)
    then decide actor action resource context ps
    else if not (p.when resource context actor)
    then decide actor action resource context ps
    else deny p.id (p.detail (resource ∷ []) context) p.reviewable (hosts_of p (resource ∷ []))

-- `REVIEWABLE_RULES`, derived from the tables' own flags
unfoldable pub reviewable_rules : List Text
reviewable_rules =
    map (λ (p : Policy). p.id) (keep (λ (p : Policy). p.reviewable) policy_rules)
    ++ map (λ (p : CombinationPolicy). p.id)
        (keep (λ (p : CombinationPolicy). p.reviewable) combination_policies)

-- `isReviewableRule`
unfoldable pub is_reviewable_rule : Text → Bool
is_reviewable_rule rule = includes rule reviewable_rules
