-- ===== src/Policy/Rules/Ids.antt =====
-- About the ids of the rules and `isReviewableRule` (command-policy.ts).
use code_jam.Prelude.{Text, codes, text_eq, text_eq_iff, ◌≡◌, refl, ◌↔◌, ◌⊎◌, true, false, arith}
use code_jam.Policy.Rules.{
  protected_secret_access, file_write_outside_workspace, file_write_unresolved_target,
  network_egress_denied, network_egress_denied_implicit, is_reviewable_rule, reviewable_rules,
}

pub secret-ne-outside : text_eq file_write_outside_workspace protected_secret_access ≡ false
unfolding text_eq codes
secret-ne-outside = refl

-- A rule is reviewable exactly if it is one of the three that name no protected resource.
pub is_reviewable_iff :
    (rule : Text)
    → (is_reviewable_rule rule ≡ true) ↔ (
        (rule ≡ file_write_unresolved_target)
        ⊎ ((rule ≡ network_egress_denied) ⊎ (rule ≡ network_egress_denied_implicit)))
unfolding is_reviewable_rule reviewable_rules
is_reviewable_iff rule = ground (
  arith,
  text_eq_iff file_write_unresolved_target rule,
  text_eq_iff network_egress_denied rule,
  text_eq_iff network_egress_denied_implicit rule,
)
