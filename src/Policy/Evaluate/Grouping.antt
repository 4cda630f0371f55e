-- ===== src/Policy/Evaluate/Grouping.antt =====
-- About the loop of `evaluateCommand` (command-policy.ts) that groups the denied resources by
-- rule.
use code_jam.Prelude.{
  if◌then◌else◌, Bool-cases, Text, text_eq, text_eq_iff, ◌≡◌, refl, sym, ap, ◌∙◌, inl, inr, Bool,
  false, Option, none, some, List, [], ◌∷◌, ◌++◌, arith,
}
use mathlib.Core.List.{append-nil, append_assoc}
use code_jam.Policy.Types.{CapabilityRequest, Actor, Resource, DecisionContext, Policy, to_resource}
use code_jam.Policy.Rules.Verdicts.{claimed_by, denial, decide_lem}
use code_jam.Policy.Evaluate.{Claims, get_claims, add_claim, note_denial, collect}

abbrev pub claims : Text → Option Policy → Bool
claims rule none = false
claims rule (some p) = text_eq p.id rule

-- The resources of the requests that a rule claims, in their order.
abbrev pub claimed : Text → DecisionContext → List CapabilityRequest → List Resource
claimed rule c [] = []
claimed rule c (r ∷ rs) =
    if claims rule (claimed_by c r) then to_resource r ∷ claimed rule c rs else claimed rule c rs

abbrev merge : Option (List Resource) → List Resource → Option (List Resource)
merge none [] = none
merge none (x ∷ xs) = some (x ∷ xs)
merge (some old) xs = some (old ++ xs)

get_claims-add_claim :
    (rule id : Text) (x : Resource) (m : Claims)
    → get_claims rule (add_claim id x m)
      ≡ (if text_eq id rule then merge (get_claims rule m) (x ∷ []) else get_claims rule m)
unfolding get_claims add_claim
get_claims-add_claim rule id x [] = refl
get_claims-add_claim rule id x ((k, rs) ∷ m) = ground (
  arith,
  get_claims-add_claim rule id x m,
  text_eq_iff k id,
  text_eq_iff k rule,
  text_eq_iff id rule,
)

merge-merge :
    (o : Option (List Resource)) (x : Resource) (xs : List Resource)
    → merge (merge o (x ∷ [])) xs ≡ merge o (x ∷ xs)
merge-merge none x [] = refl
merge-merge none x (y ∷ ys) = refl
merge-merge (some old) x xs = ap some (append_assoc old (x ∷ []) xs)

merge-nil : (o : Option (List Resource)) → merge o [] ≡ o
merge-nil none = refl
merge-nil (some old) = ap some (append-nil old)

note_denial_lem :
    (rule : Text) (c : DecisionContext) (r : CapabilityRequest) (o : Option Policy) (m : Claims)
    → get_claims rule (note_denial (denial c (to_resource r) o) (to_resource r) m) ≡ (
        if claims rule o then merge (get_claims rule m) (to_resource r ∷ []) else get_claims rule m)
note_denial_lem rule c r none m = refl
note_denial_lem rule c r (some p) m = get_claims-add_claim rule p.id (to_resource r) m

pub get_claims-collect :
    (rule : Text) (actor : Actor) (c : DecisionContext) (rs : List CapabilityRequest) (m : Claims)
    → get_claims rule (collect actor c rs m) ≡ merge (get_claims rule m) (claimed rule c rs)
unfolding collect
get_claims-collect rule actor c [] m = sym (merge-nil (get_claims rule m))
get_claims-collect rule actor c (r ∷ rs) m =
    let first = note_denial_lem rule c r (claimed_by c r) m in
    let rest =
      get_claims-collect rule actor c rs
        (note_denial (denial c (to_resource r) (claimed_by c r)) (to_resource r) m) in
    rw (decide_lem actor r c) (elim (Bool-cases (claims rule (claimed_by c r))) [
      | inl yes' ↦ rw yes' (
          rest
          ∙ rw (first, yes') (merge-merge (get_claims rule m) (to_resource r) (claimed rule c rs)))
      | inr no' ↦ rw no' (rest ∙ rw (first, no'))
    ])

-- With an empty map to begin with, a rule has an entry exactly if it claims a resource.
pub get_claims-collect_nil :
    (rule : Text) (actor : Actor) (c : DecisionContext) (rs : List CapabilityRequest)
    → get_claims rule (collect actor c rs []) ≡ merge none (claimed rule c rs)
unfolding get_claims
get_claims-collect_nil rule actor c rs = get_claims-collect rule actor c rs []
