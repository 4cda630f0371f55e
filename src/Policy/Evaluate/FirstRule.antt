-- ===== src/Policy/Evaluate/FirstRule.antt =====
-- `judge` read off the requests: the first rule that claims one of them.
use code_jam.Prelude.{
  Bool-cases, All, Text, ◌≡◌, refl, ◌≢◌, ◌↔◌, ◌⊎◌, inl, inr, true, false, Option, none, some, List,
  [], ◌∷◌, arith,
}
use code_jam.Policy.Types.{
  network_egress, secret_read, CapabilityRequest, Actor, destination_only, DecisionContext, Policy,
  PolicyViolation,
}
use code_jam.Policy.Rules.{policy_rules, hosts_of, combination_policies}
use code_jam.Policy.Rules.Verdicts.{claimed_by}
use code_jam.Policy.Evaluate.{offered, collect, report, combine, judge}
use code_jam.Policy.Evaluate.Grouping.{claims, claimed, get_claims-collect_nil}

-- `report` read off the requests.
unfoldable pub first_claimed :
    List Policy → DecisionContext → List CapabilityRequest → Option PolicyViolation
first_claimed [] c rs = none
first_claimed (p ∷ ps) c rs = elim (claimed p.id c rs) [
  | [] ↦ first_claimed ps c rs
  | x ∷ xs ↦ some (record {
    rule = p.id;
    detail = p.detail (x ∷ xs) c;
    hosts = offered (hosts_of p (x ∷ xs));
    capabilities = some rs;
  })
]

pub List-cases {ℓ} :
    {A : Type ℓ} (xs : List A) → (xs ≡ []) ⊎ ((y : A) × (ys : List A) × (xs ≡ y ∷ ys))
List-cases [] = inl refl
List-cases (x ∷ xs) = inr (x, xs, refl)

report-first_claimed :
    (ps : List Policy) (actor : Actor) (c : DecisionContext) (rs : List CapabilityRequest)
    → report ps (collect actor c rs []) c rs ≡ first_claimed ps c rs
unfolding report first_claimed
report-first_claimed [] actor c rs = refl
report-first_claimed (p ∷ ps) actor c rs = elim (List-cases (claimed p.id c rs)) [
  | inl e ↦
      rw (get_claims-collect_nil p.id actor c rs, report, e, first_claimed)
        (report-first_claimed ps actor c rs)
  | inr (x, xs, e) ↦ rw (get_claims-collect_nil p.id actor c rs, report, e, first_claimed)
]

pub judge-first_claimed :
    (actor : Actor) (c : DecisionContext) (rs : List CapabilityRequest)
    → judge actor c rs ≡ elim (combine combination_policies c rs) [
      | some v ↦ some v
      | none ↦ first_claimed policy_rules c rs
    ]
unfolding judge
judge-first_claimed actor c rs = ground (arith, report-first_claimed policy_rules actor c rs)

-- What the rules permit, stated request by request: no secret is read, and an untrusted resource is
-- at most a bare destination that is written as text.
abbrev pub IsPermitted : DecisionContext → CapabilityRequest → Type 0
IsPermitted c r =
    (r.capability ≢ secret_read)
    × ((r.trusted ≡ true)
        ⊎ ((r.capability ≡ network_egress) × (r.via ≡ destination_only) × (c.textual_only ≡ true)))

pub first_claimed-none :
    (ps : List Policy) (c : DecisionContext) (rs : List CapabilityRequest)
    → (first_claimed ps c rs ≡ none) ↔ All (λ (p : Policy). claimed p.id c rs ≡ []) ps
unfolding first_claimed
first_claimed-none [] c rs = (λ _. tt, λ _. refl)
first_claimed-none (p ∷ ps) c rs = elim (List-cases (claimed p.id c rs)) [
  | inl e ↦
      let (to, from) = first_claimed-none ps c rs in
      (λ h. (e, to (rw (e, first_claimed) at h)), λ a. rw (a.0, first_claimed) (from a.1))
  | inr (x, xs, e) ↦ (λ h. ground arith, λ a. ground arith)
]

pub claimed-nil :
    (rule : Text) (c : DecisionContext) (rs : List CapabilityRequest)
    → (claimed rule c rs ≡ []) ↔ All (λ r. claims rule (claimed_by c r) ≡ false) rs
claimed-nil rule c [] = (λ _. tt, λ _. refl)
claimed-nil rule c (r ∷ rs) =
    let (to, from) = claimed-nil rule c rs in
    elim (Bool-cases (claims rule (claimed_by c r))) [
      | inl e ↦ rw e (λ h. ground arith, λ a. ground arith)
      | inr e ↦ rw e (λ h. (refl, to h), λ a. from a.1)
    ]

pub claimed_by-none_iff :
    (c : DecisionContext) (r : CapabilityRequest) → (claimed_by c r ≡ none) ↔ IsPermitted c r
claimed_by-none_iff c r = (λ h. (ground arith, ground arith), λ a. ground arith)
