-- ===== src/Service/Runs.antt =====
-- Runs (apps/server/src/agent-service.ts): `sendMessage`, `settleRun`, and the write of a
-- completed run.
use code_jam.Prelude.{
  if◌then◌else◌, length, find, modify_first, Text, codes, Fault, http, failure, ok, err, bind, Exec,
  pure, raise, ◌>>=◌, ℕ, ◌+◌, not, none, some, [], ◌∷◌, ◌++◌,
}
use code_jam.Data.{
  ready, error, queued, running, completed, failed, user, assistant, Agent, Message, AgentRun,
  Database, is_busy, is_stopped, is_active,
}
use code_jam.Store.Log.{World}
use code_jam.Store.Json.{Mutation, mutate}
use code_jam.Service.Errors.{RunnerResult, Config}
use code_jam.Service.Agents.{is_agent, is_run, update, find_agent, put_agent}
use code_jam.Service.Approvals.{busy_agent}
use code_jam.Service.Evidence.{observed_list, record_network_evidence, observed_events}

abbrev pub new_run : (run_id agent_id prompt : Text) → ℕ → AgentRun
new_run run_id agent_id prompt at = record {
  id = run_id;
  agent_id = agent_id;
  status = queued;
  prompt = prompt;
  output = none;
  error = none;
  usage = none;
  started_at = none;
  completed_at = none;
  created_at = at;
  network_evidence = none;
}

abbrev pub user_message : (message_id run_id agent_id prompt : Text) → ℕ → Message
user_message message_id run_id agent_id prompt at = record {
  id = message_id;
  agent_id = agent_id;
  run_id = run_id;
  role = user;
  content = prompt;
  created_at = at;
}

-- The mutation of `sendMessage`, which returns the agent as it was.
unfoldable pub send_in : (run_id message_id agent_id prompt : Text) → ℕ → Mutation Agent
send_in run_id message_id agent_id prompt at d = bind (find_agent agent_id d) (λ agent.
    if is_stopped agent.status
    then err (http 409)
    else if is_busy agent.status
    then err (http 409)
    else ok (
      agent,
      record (put_agent agent_id (busy_agent at agent) d) {
        runs = d.runs ++ new_run run_id agent_id prompt at ∷ [];
        messages = d.messages ++ user_message message_id run_id agent_id prompt at ∷ [];
      },
    ))

-- `sendMessage`, up to the start of the execution
unfoldable pub send_message :
    Config → (run_id message_id agent_id prompt : Text) → Exec World (Agent × AgentRun)
send_message config run_id message_id agent_id prompt =
    if not config.ark_configured then raise (http 503) else λ w.
    (do
      agent ← mutate (send_in run_id message_id agent_id prompt w.clock)
      pure (agent, new_run run_id agent_id prompt w.clock))
      w

abbrev pub fail_active : Text → ℕ → AgentRun → AgentRun
fail_active reason at r =
    if is_active r.status
    then record r { status = failed; error = some reason; completed_at = some at }
    else r

abbrev pub release_busy : Text → ℕ → Agent → Agent
release_busy reason at a =
    if is_busy a.status
    then record a { status = error; last_error = some reason; updated_at = at }
    else a

-- The smallest write that frees the agent, made when the write of an outcome failed.
unfoldable pub release_in : (run_id agent_id reason : Text) → ℕ → Database → Database
release_in run_id agent_id reason at d = record d {
  runs = modify_first (is_run run_id) (fail_active reason at) d.runs;
  agents = modify_first (is_agent agent_id) (release_busy reason at) d.agents;
}

abbrev pub fault_message : Fault → Text
fault_message (http _) = codes "HttpError"
fault_message (failure message) = message

-- The second write of `settleRun`; what it throws is dropped, and the first error is thrown again.
unfoldable pub release : (run_id agent_id : Text) → Fault → Exec World (Unit {0})
release run_id agent_id e w =
    let reason = codes "Run outcome could not be recorded: " ++ fault_message e in
    (err e, (mutate (update (release_in run_id agent_id reason w.clock)) w).1)

-- `settleRun`
unfoldable pub settle_run : (run_id agent_id : Text) → (Database → Database) → Exec World (Unit {0})
settle_run run_id agent_id apply w =
    let (r, w') = mutate (update apply) w in
    elim r [ ok _ ↦ (ok tt, w') | err e ↦ release run_id agent_id e w' ]

-- The opening write of `executeRun`.
unfoldable pub open_in : Text → ℕ → Database → Database
open_in run_id at d = record d {
  runs =
      modify_first (is_run run_id) (λ r. record r { status = running; started_at = some at })
        d.runs;
}

abbrev pub completed_run : RunnerResult → ℕ → AgentRun → AgentRun
completed_run result at r = record r {
  status = completed;
  output = some result.output;
  usage = result.usage;
  completed_at = some at;
}

abbrev pub completed_agent : RunnerResult → ℕ → Agent → Agent
completed_agent result at a = record a {
  status = ready;
  codex_thread_id = result.thread_id;
  last_error = none;
  updated_at = at;
}

abbrev pub assistant_message : Text → (agent_id run_id : Text) → RunnerResult → ℕ → Message
assistant_message id agent_id run_id result at = record {
  id = id;
  agent_id = agent_id;
  run_id = run_id;
  role = assistant;
  content = result.output;
  created_at = at;
}

-- The write of an outcome, once the run and the agent are known to be there.
unfoldable pub complete_found :
    (ℕ → Text) → (run_id agent_id : Text) → RunnerResult → ℕ → Database → Database
complete_found fresh run_id agent_id result at d =
    let written = record d {
      runs = modify_first (is_run run_id) (completed_run result at) d.runs;
      agents = modify_first (is_agent agent_id) (completed_agent result at) d.agents;
      messages = d.messages ++ assistant_message (fresh 0) agent_id run_id result at ∷ [];
    } in
    let evidenced =
      record_network_evidence fresh 1 run_id agent_id result.network_denials at written in
    record evidenced {
      policy_events =
          d.policy_events
          ++ observed_events fresh (1 + length (observed_list result.network_denials)) agent_id
              run_id at result.violations;
    }

-- `if (!storedRun || !agent) return`
unfoldable pub complete_in :
    (ℕ → Text) → (run_id agent_id : Text) → RunnerResult → ℕ → Database → Database
complete_in fresh run_id agent_id result at d = elim (find (is_run run_id) d.runs) [
  | none ↦ d
  | some _ ↦ elim (find (is_agent agent_id) d.agents) [
    | none ↦ d
    | some _ ↦ complete_found fresh run_id agent_id result at d
  ]
]
