-- ===== src/Policy/Guarantees.antt =====
-- What a verdict of `evaluateCommand` says about the requests of the command, whatever capabilities
-- are extracted from it.
use code_jam.Prelude.{
  Option-cases, All, Text, codes, text_eq, text_eq_refl, is_empty, trim, Result, ok, ◌≡◌, refl, sym,
  ap, ◌∙◌, ◌≢◌, ◌↔◌, ◌⊎◌, inl, inr, Bool, true, false, none, some, List, [], ◌∷◌, arith,
}
use mathlib.Core.Bool.{false≢true}
use code_jam.Policy.Types.{
  secret_read, file_write, CapabilityRequest, PolicyContext, Actor, file_write_unresolved,
  DecisionContext, PolicyViolation,
}
use code_jam.Policy.Rules.{
  protected_secret_access, file_write_outside_workspace, reads_secret, secret_exfiltration,
  is_reviewable_rule, reviewable_rules,
}
use code_jam.Policy.Rules.Verdicts.{claimed_by}
use code_jam.Policy.Evaluate.{combine, judge, evaluate_command}
use code_jam.Policy.Evaluate.Grouping.{claims, claimed}
use code_jam.Policy.Evaluate.FirstRule.{
  first_claimed, claimed-nil, IsPermitted, judge-first_claimed,
}
use code_jam.Policy.Evaluate.Decisions.{judge-none_iff, reads_secret-false}

-- The context that the command's own text completes.
abbrev pub decision_context : (Text → Bool) → Text → PolicyContext → DecisionContext
decision_context textual command context = record { base = context; textual_only = textual command }

pub evaluate_command-judge :
    (extract : Text → PolicyContext → Result (List CapabilityRequest)) (textual : Text → Bool)
    (actor : Actor) (command : Text) (context : PolicyContext) (rs : List CapabilityRequest)
    → is_empty (trim command) ≡ false
    → extract command context ≡ ok rs
    → evaluate_command extract textual actor command context
      ≡ ok (judge actor (decision_context textual command context) rs)
unfolding evaluate_command
evaluate_command-judge extract textual actor command context rs h e = rw (h, e)

-- A command whose requests could be extracted runs with no objection exactly if each request is
-- permitted: none reads a secret, and each is for a trusted resource or is a bare destination in a
-- command that only writes text.
pub permits_iff :
    (extract : Text → PolicyContext → Result (List CapabilityRequest)) (textual : Text → Bool)
    (actor : Actor) (command : Text) (context : PolicyContext) (rs : List CapabilityRequest)
    → is_empty (trim command) ≡ false
    → extract command context ≡ ok rs
    → (evaluate_command extract textual actor command context ≡ ok none)
      ↔ All (IsPermitted (decision_context textual command context)) rs
permits_iff extract textual actor command context rs h e =
    let (to, from) = judge-none_iff actor (decision_context textual command context) rs in
    rw (evaluate_command-judge extract textual actor command context rs h e)
      (λ q. to (cc), λ a. ap ok (from a))

-- Requests that no approval may cover: a secret read, and a write that demonstrably leaves the
-- workspace.
abbrev pub IsApprovable : CapabilityRequest → Type 0
IsApprovable r =
    (r.capability ≢ secret_read)
    × ((r.capability ≢ file_write) ⊎ ((r.trusted ≡ true) ⊎ (r.via ≡ file_write_unresolved)))

exfiltration-not_reviewable : is_reviewable_rule secret_exfiltration ≡ false
unfolding is_reviewable_rule reviewable_rules text_eq codes
exfiltration-not_reviewable = refl

secret-not_reviewable : is_reviewable_rule protected_secret_access ≡ false
unfolding is_reviewable_rule reviewable_rules text_eq codes
secret-not_reviewable = refl

outside-not_reviewable : is_reviewable_rule file_write_outside_workspace ≡ false
unfolding is_reviewable_rule reviewable_rules text_eq codes
outside-not_reviewable = refl

-- A verdict under a reviewable rule: nothing is claimed by the rules that lead the table.
judge-reviewable :
    (actor : Actor) (c : DecisionContext) (rs : List CapabilityRequest) (v : PolicyViolation)
    → judge actor c rs ≡ some v
    → is_reviewable_rule v.rule ≡ true
    → (claimed protected_secret_access c rs ≡ []) × (claimed file_write_outside_workspace c rs ≡ [])
unfolding combine first_claimed
judge-reviewable actor c rs v e h = ground (
  arith,
  judge-first_claimed actor c rs,
  exfiltration-not_reviewable,
  secret-not_reviewable,
  outside-not_reviewable,
)

claims-false-IsApprovable :
    (c : DecisionContext) (r : CapabilityRequest)
    → claims protected_secret_access (claimed_by c r) ≡ false
    → claims file_write_outside_workspace (claimed_by c r) ≡ false
    → IsApprovable r
claims-false-IsApprovable c r h k =
    ground (arith, text_eq_refl protected_secret_access, text_eq_refl file_write_outside_workspace)

All-IsApprovable :
    (c : DecisionContext) (rs : List CapabilityRequest)
    → All (λ r. claims protected_secret_access (claimed_by c r) ≡ false) rs
    → All (λ r. claims file_write_outside_workspace (claimed_by c r) ≡ false) rs
    → All IsApprovable rs
All-IsApprovable c [] h k = tt
All-IsApprovable c (r ∷ rs) (h, hs) (k, ks) =
    (claims-false-IsApprovable c r h k, All-IsApprovable c rs hs ks)

-- If a command is denied under a rule that a human may approve, then none of its requests reads a
-- secret or demonstrably writes outside the workspace: an approval never covers a hard denial.
pub reviewable-IsApprovable :
    (extract : Text → PolicyContext → Result (List CapabilityRequest)) (textual : Text → Bool)
    (actor : Actor) (command : Text) (context : PolicyContext) (rs : List CapabilityRequest)
    (v : PolicyViolation)
    → extract command context ≡ ok rs
    → evaluate_command extract textual actor command context ≡ ok (some v)
    → is_reviewable_rule v.rule ≡ true
    → All IsApprovable rs
unfolding evaluate_command
reviewable-IsApprovable extract textual actor command context rs v e h k =
    let c = decision_context textual command context in
    let judged : judge actor c rs ≡ some v = ground (arith, e) in
    let (secret, outside) = judge-reviewable actor c rs v judged k in
    All-IsApprovable c rs ((claimed-nil protected_secret_access c rs).0 secret)
      ((claimed-nil file_write_outside_workspace c rs).0 outside)

reads_secret-claimed :
    (c : DecisionContext) (rs : List CapabilityRequest)
    → reads_secret rs ≡ true
    → claimed protected_secret_access c rs ≢ []
reads_secret-claimed c [] h = cc
reads_secret-claimed c (r ∷ rs) h =
    ground (arith, reads_secret-claimed c rs, text_eq_refl protected_secret_access)

judge-secret :
    (actor : Actor) (c : DecisionContext) (rs : List CapabilityRequest) (v : PolicyViolation)
    → reads_secret rs ≡ true
    → judge actor c rs ≡ some v
    → (is_reviewable_rule v.rule ≡ false) × (v.capabilities ≡ some rs)
unfolding combine first_claimed
judge-secret actor c rs v k e = ground (
  arith,
  judge-first_claimed actor c rs,
  reads_secret-claimed c rs k,
  exfiltration-not_reviewable,
  secret-not_reviewable,
)

-- A command with a secret read among its requests is always denied, with all requests as evidence,
-- and always under a rule that no human may approve.
pub secret_read-denied :
    (extract : Text → PolicyContext → Result (List CapabilityRequest)) (textual : Text → Bool)
    (actor : Actor) (command : Text) (context : PolicyContext) (rs : List CapabilityRequest)
    → is_empty (trim command) ≡ false
    → extract command context ≡ ok rs
    → reads_secret rs ≡ true
    → (v : PolicyViolation) × (evaluate_command extract textual actor command context ≡ ok (some v))
      × (is_reviewable_rule v.rule ≡ false)
      × (v.capabilities ≡ some rs)
secret_read-denied extract textual actor command context rs h e k =
    let c = decision_context textual command context in
    elim (Option-cases (judge actor c rs)) [
      | inl nothing ↦
          let clear = reads_secret-false c rs ((judge-none_iff actor c rs).0 nothing) in
          absurd (false≢true (sym clear ∙ k))
      | inr (v, found) ↦
          let (rule, evidence) = judge-secret actor c rs v k found in
          (
            v,
            evaluate_command-judge extract textual actor command context rs h e ∙ ap ok found,
            rule,
            evidence,
          )
    ]
