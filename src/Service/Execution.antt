-- ===== src/Service/Execution.antt =====
-- `executeRun` (apps/server/src/agent-service.ts): the opening write, the runner, and the write
-- of what the run ended with.
use code_jam.Prelude.{
  if◌then◌else◌, Text, ok, err, Exec, ◌>>=◌, ◌>>◌, ℕ, Bool, Option, List, [], ◌++◌,
}
use code_jam.Data.{AgentRun, Agent}
use code_jam.Store.Log.{World}
use code_jam.Store.Json.{snapshot}
use code_jam.Service.Errors.{
  RunError, run_cancelled, other, no_broker, RunnerResult, RunFailure, Config,
}
use code_jam.Service.Runs.{settle_run, open_in, complete_in, fault_message}
use code_jam.Service.Failing.{fail_in}

-- What `runner.run` is called with.
pub record RunnerInput : Type 0 where
  pub agent_id : Text
  pub workspace_path : Text
  pub prompt : Text
  pub thread_id : Option Text
  pub extra_allowed_hosts : List Text
  pub run_id : Text

-- It returns a result or throws.
pub data Outcome : Type 0 where
  finished : RunnerResult → Outcome
  threw : RunFailure → Outcome

abbrev pub plain_failure : RunError → RunFailure
plain_failure e = record { error = e; network_denials = no_broker; observations = [] }

abbrev pub runner_input : Agent → AgentRun → (extra_hosts allowlist : List Text) → RunnerInput
runner_input agent run extra_hosts allowlist = record {
  agent_id = agent.id;
  workspace_path = agent.workspace_path;
  prompt = run.prompt;
  thread_id = agent.codex_thread_id;
  extra_allowed_hosts = allowlist ++ extra_hosts;
  run_id = run.id;
}

module _ (config : Config) (fresh : ℕ → Text) (agent : Agent) (run : AgentRun)
    (is_grant_run : Bool) where
  -- The `catch` of `executeRun`.
  unfoldable pub settle_failure : RunFailure → Exec World (Unit {0})
  settle_failure f w =
      settle_run run.id agent.id (fail_in config fresh run agent.id is_grant_run f w.clock) w

  -- A write of the outcome that throws is caught as any other error of the run.
  unfoldable pub conclude : Outcome → Exec World (Unit {0})
  conclude (finished result) w =
      let (r, w') =
        settle_run run.id agent.id (complete_in fresh run.id agent.id result w.clock) w in
      elim r [
        | ok _ ↦ (ok tt, w')
        | err e ↦ settle_failure (plain_failure (other (fault_message e))) w'
      ]
  conclude (threw f) w = settle_failure f w

  -- `executeRun`, for the hosts that an approval granted
  unfoldable pub execute_run :
      (extra_hosts : List Text) (is_cancel_requested : Bool) (runner : RunnerInput → Outcome)
      → Exec World (Unit {0})
  execute_run extra_hosts is_cancel_requested runner = do
    λ w. settle_run run.id agent.id (open_in run.id w.clock) w
    if is_cancel_requested
        then conclude (threw (plain_failure run_cancelled))
        else (do d ← snapshot; conclude (runner (runner_input agent run extra_hosts d.allowlist)))
