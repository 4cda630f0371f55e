-- ===== src/Service/System/Sound.antt =====
-- About the approvals of every database that the service can reach (agent-service.ts).
use code_jam.Prelude.{
  Bool-cases, length, All, Text, codes, text_eq, text_eq_iff, text_eq_refl, is_empty, ℕ, ◌+◌, ◌≡◌,
  refl, sym, ap, ◌∙◌, inl, inr, Bool, true, false, not, ◌||◌, arith,
}
use code_jam.Policy.Rules.{is_reviewable_rule, reviewable_rules}
use code_jam.Data.{ApprovalStatus, ApprovalRequest, Database, is_pending}
use code_jam.Service.Errors.{
  Config, RunError, run_cancelled, budget_exceeded, policy_violation, other,
}
use code_jam.Service.Approvals.{step_budget_exceeded, is_budget, is_missing}
use code_jam.Service.Evidence.{error_approvals, observed_list}
use code_jam.Service.Failing.{is_held}
use code_jam.Service.System.{
  Step, recovered, created, updated, status_set, deleted, host_added, host_removed, sent,
  run_opened, run_completed, run_failed, run_released, request_approved, request_denied, kept,
  restarted, Reachable, start, later,
}
use code_jam.Service.System.Asked.{is_approved, IsDecision, Asks, Step-All}

-- A human was asked only what a human may decide, the command allowance offers no hosts, the time of
-- the decision is there exactly once the request is decided, and the continuation exactly if it was
-- approved.
pub record IsSound (a : ApprovalRequest) : Type 0 where
  pub is_decidable : (is_reviewable_rule a.rule || is_budget a.rule) ≡ true
  pub offers : (not (is_budget a.rule) || is_empty a.hosts) ≡ true
  pub is_timed : is_missing a.resolved_at ≡ is_pending a.status
  pub is_continued : is_missing a.continuation_run_id ≡ not (is_approved a.status)

abbrev pub AreSound : Database → Type 0
AreSound d = All IsSound d.approvals

budget-decidable : is_budget step_budget_exceeded ≡ true
budget-decidable = text_eq_refl step_budget_exceeded

budget-not_reviewable : is_reviewable_rule step_budget_exceeded ≡ false
unfolding is_reviewable_rule reviewable_rules text_eq codes
budget-not_reviewable = refl

reviewable-not_budget : (rule : Text) → is_reviewable_rule rule ≡ true → is_budget rule ≡ false
reviewable-not_budget rule h = elim (Bool-cases (is_budget rule)) [
  | inl e ↦
      let same = (text_eq_iff rule step_budget_exceeded).0 e in
      let broken : false ≡ true =
        sym budget-not_reviewable ∙ (ap is_reviewable_rule (sym same) ∙ h) in
      cc broken
  | inr e ↦ e
]

error_approvals-IsSound :
    (config : Config) (is_grant_run : Bool) (id agent_id run_id prompt : Text) (at : ℕ)
    (e : RunError)
    → All IsSound (error_approvals id agent_id run_id prompt (is_held config is_grant_run e) at e)
unfolding error_approvals is_held
error_approvals-IsSound config g id agent_id run_id prompt at run_cancelled = tt
error_approvals-IsSound config g id agent_id run_id prompt at (other m) = tt
error_approvals-IsSound config g id agent_id run_id prompt at (budget_exceeded l o t) = (
  record {
    is_decidable = ground (arith, budget-decidable);
    offers = ground arith;
    is_timed = refl;
    is_continued = refl;
  },
  tt,
)
error_approvals-IsSound config g id agent_id run_id prompt at (policy_violation r c d h k) =
    elim (Bool-cases (is_held config g (policy_violation r c d h k))) [
      | inl e ↦ rw e (
        record {
          is_decidable = ground arith;
          offers = ground (arith, reviewable-not_budget r);
          is_timed = refl;
          is_continued = refl;
        },
        tt,
      )
      | inr e ↦ rw e tt
    ]

pending-not_approved : (s : ApprovalStatus) → is_pending s ≡ true → is_approved s ≡ false
pending-not_approved s h = ground arith

decision-IsSound :
    (a b : ApprovalRequest) → IsSound a → is_pending a.status ≡ true → IsDecision a b → IsSound b
decision-IsSound a b s h k =
    let unlinked : is_missing a.continuation_run_id ≡ true =
      s.is_continued ∙ ap not (pending-not_approved a.status h) in
    record {
      is_decidable = rw k.same_rule s.is_decidable;
      offers = rw (k.same_rule, k.same_hosts) s.offers;
      is_timed = k.has_time ∙ sym k.is_closed;
      is_continued = k.continues ∙ ground (arith, unlinked);
    }

Step-Asks : {d d' : Database} (s : Step d d') → Asks IsSound decision-IsSound s
Step-Asks (run_failed config fresh run agent_id is_grant_run ended at e) =
    error_approvals-IsSound config is_grant_run
      (fresh (length (observed_list ended.network_denials) + 1)) agent_id run.id run.prompt at
      ended.error
Step-Asks (recovered _ _) = tt
Step-Asks (created _ _) = tt
Step-Asks (updated _ _ _ _ _) = tt
Step-Asks (status_set _ _ _ _ _) = tt
Step-Asks (deleted _ _) = tt
Step-Asks (host_added _ _ _) = tt
Step-Asks (host_removed _ _ _) = tt
Step-Asks (sent _ _ _ _ _ _ _) = tt
Step-Asks (run_opened _ _ _) = tt
Step-Asks (run_completed _ _ _ _ _ _) = tt
Step-Asks (run_released _ _ _ _ _) = tt
Step-Asks (request_approved _ _ _ _ _ _ _ _) = tt
Step-Asks (request_denied _ _ _ _ _ _) = tt
Step-Asks (kept _ _) = tt
Step-Asks (restarted _) = tt

-- If the requests for a decision in a database are sound, then they are so in every database that the
-- writes of the service, as the store keeps them, and its restarts lead to from there, such as from
-- the empty one: a human was asked only about a rule that a human may decide or about the command
-- allowance, which offers no hosts; the request has the time of its decision exactly if it is no
-- longer pending; and it names a continuation exactly if it was approved.
pub Reachable-AreSound :
    (initial d : Database) → AreSound initial → Reachable initial d → AreSound d
Reachable-AreSound initial d h start = h
Reachable-AreSound initial d h (later r s) =
    Step-All IsSound decision-IsSound s (Step-Asks s) (Reachable-AreSound initial _ h r)
