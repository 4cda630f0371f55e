-- ===== src/Service/Outcomes.antt =====
-- About the classification of a run that ended in an error (`executeRun` in agent-service.ts).
use code_jam.Prelude.{
  if◌then◌else◌, Bool-cases, length, keep, Text, ℕ, ◌≡◌, refl, inl, inr, Bool, true, false, not,
  ◌||◌, [], arith,
}
use code_jam.Data.{
  AgentStatus, ready, busy, error, blocked, held, RunStatus, PolicyDecision, is_active, is_busy,
  Agent, is_stopped, stopped,
}
use code_jam.Service.Errors.{
  RunError, run_cancelled, budget_exceeded, policy_violation, other, Config,
}
use code_jam.Service.Evidence.{error_events, error_approvals}
use code_jam.Service.Failing.{
  is_held, is_blocked, failed_status, is_contained, failed_agent, is_over_budget,
}

abbrev pub is_held_status : RunStatus → Bool
is_held_status held = true
is_held_status _ = false

abbrev pub is_blocked_status : RunStatus → Bool
is_blocked_status blocked = true
is_blocked_status _ = false

abbrev pub is_unenforced : PolicyDecision → Bool
is_unenforced p = not p.enforced

-- How many of the events that an error adds are enforced, and how many requests it adds.
pub evidence-agrees :
    (config : Config) (is_grant_run : Bool) (e : RunError)
    (event_id id agent_id run_id prompt : Text) (at : ℕ)
    → (length (error_approvals id agent_id run_id prompt (is_held config is_grant_run e) at e)
        ≡ (if is_held_status (failed_status config is_grant_run e) then 1 else 0))
      × (length (
            keep
              (λ (p : PolicyDecision). p.enforced)
              (error_events event_id agent_id run_id (is_blocked config is_grant_run e) at e))
          ≡ (if is_blocked_status (failed_status config is_grant_run e) || is_over_budget e
              then 1
              else 0))
      × (keep is_unenforced
            (error_events event_id agent_id run_id (is_blocked config is_grant_run e) at e)
          ≡ [])
unfolding failed_status is_blocked is_held error_approvals error_events
evidence-agrees config is_grant_run run_cancelled event_id id agent_id run_id prompt at =
    (refl, refl, refl)
evidence-agrees config is_grant_run (budget_exceeded l o t) event_id id agent_id run_id prompt at =
    (refl, refl, refl)
evidence-agrees config is_grant_run (policy_violation r c d h k) event_id id agent_id run_id prompt
      at =
    elim (Bool-cases (is_held config is_grant_run (policy_violation r c d h k))) [
      | inl y ↦ rw y (refl, refl, refl)
      | inr n ↦ rw n (refl, refl, refl)
    ]
evidence-agrees config is_grant_run (other m) event_id id agent_id run_id prompt at =
    (refl, refl, refl)

failed_status-IsInactive :
    (config : Config) (is_grant_run : Bool) (e : RunError)
    → is_active (failed_status config is_grant_run e) ≡ false
unfolding failed_status
failed_status-IsInactive config is_grant_run e = ground arith

freed-IsIdle :
    (s : AgentStatus) (c : Bool)
    → is_busy (if not (is_stopped s) then (if c then ready else error) else s) ≡ false
freed-IsIdle stopped c = refl
freed-IsIdle ready c = ground arith
freed-IsIdle busy c = ground arith
freed-IsIdle error c = ground arith

-- The write of an error leaves the run neither queued nor running, and the agent not busy.
pub failed-IsSettled :
    (config : Config) (is_grant_run : Bool) (e : RunError) (at : ℕ) (a : Agent)
    → (is_active (failed_status config is_grant_run e) ≡ false)
      × (is_busy (failed_agent config is_grant_run e at a).status ≡ false)
unfolding failed_agent
failed-IsSettled config is_grant_run e at a = (
  failed_status-IsInactive config is_grant_run e,
  freed-IsIdle a.status (is_contained config is_grant_run e),
)
