-- ===== src/Service/Failing.antt =====
-- The write of a run that ended in an error (`executeRun` in apps/server/src/agent-service.ts).
use code_jam.Prelude.{
  if◌then◌else◌, length, modify_first, Text, includes, ℕ, ◌+◌, Bool, true, false, not, ◌&&◌, ◌||◌,
  Option, none, some, [], ◌∷◌, ◌++◌,
}
use code_jam.Data.{
  ready, error, failed, cancelled, blocked, held, RunStatus, Agent, AgentRun, Database, is_stopped,
}
use code_jam.Policy.Rules.{is_reviewable_rule}
use code_jam.Service.Errors.{
  RunError, run_cancelled, budget_exceeded, policy_violation, error_message, RunFailure, Config,
}
use code_jam.Service.Agents.{is_agent, is_run}
use code_jam.Service.Evidence.{
  observed_list, record_network_evidence, observed_events, error_events, error_approvals,
}

abbrev pub is_cancelled : RunError → Bool
is_cancelled run_cancelled = true
is_cancelled _ = false

abbrev pub is_over_budget : RunError → Bool
is_over_budget (budget_exceeded _ _ _) = true
is_over_budget _ = false

-- Held for a human: only a reviewable rule, only if configured, and never for a run that was
-- itself granted.
unfoldable pub is_held : Config → (is_grant_run : Bool) → RunError → Bool
is_held config is_grant_run (policy_violation rule _ _ _ _) =
    is_reviewable_rule rule && (includes rule config.policy_review_rules && not is_grant_run)
is_held config is_grant_run _ = false

abbrev pub is_denied : RunError → Bool
is_denied (policy_violation _ _ _ _ _) = true
is_denied _ = false

unfoldable pub is_blocked : Config → (is_grant_run : Bool) → RunError → Bool
is_blocked config is_grant_run e = is_denied e && not (is_held config is_grant_run e)

unfoldable pub failed_status : Config → Bool → RunError → RunStatus
failed_status config is_grant_run e =
    if is_cancelled e
    then cancelled
    else if is_held config is_grant_run e || is_over_budget e
    then held
    else if is_blocked config is_grant_run e
    then blocked
    else failed

-- `cancelled || blocked || held || overBudget`: the control worked, and the agent stays usable.
unfoldable pub is_contained : Config → Bool → RunError → Bool
is_contained config is_grant_run e =
    is_cancelled e
    || (is_blocked config is_grant_run e || (is_held config is_grant_run e || is_over_budget e))

abbrev pub resumed_thread : RunError → Option Text → Option Text
resumed_thread (budget_exceeded _ _ (some (c ∷ s))) old = some (c ∷ s)
resumed_thread _ old = old

unfoldable pub failed_agent : Config → Bool → RunError → ℕ → Agent → Agent
failed_agent config is_grant_run e at a = record a {
  codex_thread_id = resumed_thread e a.codex_thread_id;
  status =
      if not (is_stopped a.status)
      then (if is_contained config is_grant_run e then ready else error)
      else a.status;
  last_error = if is_contained config is_grant_run e then none else some (error_message e);
  updated_at = at;
}

-- The write of a run that ended in an error. Ids are numbered in the order of the source; a number
-- stays unused where its branch is not taken.
unfoldable pub fail_in :
    Config → (ℕ → Text) → AgentRun → (agent_id : Text) → Bool → RunFailure → ℕ → Database → Database
fail_in config fresh run agent_id is_grant_run f at d =
    let e = f.error in
    let n = length (observed_list f.network_denials) in
    let evidenced = record_network_evidence fresh 0 run.id agent_id f.network_denials at d in
    let is_blocked' = is_blocked config is_grant_run e in
    let is_held' = is_held config is_grant_run e in
    record evidenced {
      runs =
          modify_first (is_run run.id)
            (λ r. record r {
              status = failed_status config is_grant_run e;
              error = some (error_message e);
              completed_at = some at;
            })
            evidenced.runs;
      agents = modify_first (is_agent agent_id) (failed_agent config is_grant_run e at) d.agents;
      policy_events =
          d.policy_events
          ++ (error_events (fresh n) agent_id run.id is_blocked' at e
              ++ (if config.monitor
                  then observed_events fresh (n + 2) agent_id run.id at f.observations
                  else []));
      approvals =
          d.approvals ++ error_approvals (fresh (n + 1)) agent_id run.id run.prompt is_held' at e;
    }
