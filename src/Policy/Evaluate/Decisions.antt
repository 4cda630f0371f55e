-- ===== src/Policy/Evaluate/Decisions.antt =====
-- What a verdict of `evaluateCommand` says about the requests of the command.
use code_jam.Prelude.{All, All-imp, text_eq_refl, ◌≡◌, refl, ◌↔◌, false, none, List, [], ◌∷◌, arith}
use code_jam.Policy.Types.{CapabilityRequest, Actor, DecisionContext, Policy}
use code_jam.Policy.Rules.{
  protected_secret_access, file_write_outside_workspace, network_egress_denied, reads_secret,
  file_write_unresolved_target, network_egress_denied_implicit, policy_rules,
}
use code_jam.Policy.Rules.Verdicts.{claimed_by}
use code_jam.Policy.Evaluate.{combine, judge}
use code_jam.Policy.Evaluate.Grouping.{claims, claimed}
use code_jam.Policy.Evaluate.FirstRule.{
  first_claimed, first_claimed-none, claimed-nil, claimed_by-none_iff, IsPermitted,
  judge-first_claimed,
}

abbrev NoClaim : DecisionContext → List CapabilityRequest → Policy → Type 0
NoClaim c rs p = All (λ r. claims p.id (claimed_by c r) ≡ false) rs

claimed_by-none :
    (c : DecisionContext) (r : CapabilityRequest)
    → All (λ (p : Policy). claims p.id (claimed_by c r) ≡ false) policy_rules
    → claimed_by c r ≡ none
claimed_by-none c r h = ground (
  arith,
  text_eq_refl protected_secret_access,
  text_eq_refl file_write_outside_workspace,
  text_eq_refl file_write_unresolved_target,
  text_eq_refl network_egress_denied,
  text_eq_refl network_egress_denied_implicit,
)

-- A request that no rule of the table claims is permitted, and the other way round.
NoClaim-IsPermitted :
    (c : DecisionContext) (rs : List CapabilityRequest)
    → All (NoClaim c rs) policy_rules
    → All (IsPermitted c) rs
NoClaim-IsPermitted c [] h = tt
NoClaim-IsPermitted c (r ∷ rs) ((s, ss), ((o, os), ((u, us), ((e, es), ((i, is), z))))) = (
  (claimed_by-none_iff c r).0 (claimed_by-none c r (s, (o, (u, (e, (i, tt)))))),
  NoClaim-IsPermitted c rs (ss, (os, (us, (es, (is, tt))))),
)

IsPermitted-NoClaim :
    (c : DecisionContext) (p : Policy) (rs : List CapabilityRequest)
    → All (IsPermitted c) rs
    → NoClaim c rs p
IsPermitted-NoClaim c p [] h = tt
IsPermitted-NoClaim c p (r ∷ rs) (q, h) =
    (rw ((claimed_by-none_iff c r).1 q), IsPermitted-NoClaim c p rs h)

All-every {ℓ κ} : {A : Type ℓ} (P : A → Type κ) → ((x : A) → P x) → (xs : List A) → All P xs
All-every P h [] = tt
All-every P h (x ∷ xs) = (h x, All-every P h xs)

first_claimed-none_iff :
    (c : DecisionContext) (rs : List CapabilityRequest)
    → (first_claimed policy_rules c rs ≡ none) ↔ All (IsPermitted c) rs
first_claimed-none_iff c rs =
    let (to, from) = first_claimed-none policy_rules c rs in
    (
      λ h. NoClaim-IsPermitted c rs (
          All-imp (λ (p : Policy). claimed p.id c rs ≡ []) (NoClaim c rs) policy_rules
            (λ p. (claimed-nil p.id c rs).0) (to h)),
      λ h. from (
          All-imp (NoClaim c rs) (λ (p : Policy). claimed p.id c rs ≡ []) policy_rules
            (λ p. (claimed-nil p.id c rs).1)
            (All-every (NoClaim c rs) (λ p. IsPermitted-NoClaim c p rs h) policy_rules)),
    )

-- Reading a secret is never permitted, so a command that the rules permit combines nothing.
pub reads_secret-false :
    (c : DecisionContext) (rs : List CapabilityRequest)
    → All (IsPermitted c) rs
    → reads_secret rs ≡ false
reads_secret-false c [] h = refl
reads_secret-false c (r ∷ rs) (q, h) = ground (arith, reads_secret-false c rs h)

pub judge-none_iff :
    (actor : Actor) (c : DecisionContext) (rs : List CapabilityRequest)
    → (judge actor c rs ≡ none) ↔ All (IsPermitted c) rs
unfolding combine
judge-none_iff actor c rs =
    let (to, from) = first_claimed-none_iff c rs in
    rw judge-first_claimed
      (λ h. to (ground arith), λ h. ground (arith, from h, reads_secret-false c rs h))
