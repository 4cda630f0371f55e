-- ===== src/Service/Agents.antt =====
-- Agents (apps/server/src/agent-service.ts): creation, edits, status, deletion, and the recovery
-- at a start.
use code_jam.Prelude.{
  if◌then◌else◌, keep, find, modify_first, Text, codes, text_eq, trim, http, Result, ok, err, bind,
  Exec, pure, raise, ◌>>=◌, ◌>>◌, ℕ, Bool, not, ◌&&◌, Option, none, some, [], ◌∷◌, ◌++◌, map,
}
use code_jam.Data.{
  AgentStatus, ready, stopped, cancelled, Agent, Message, AgentRun, NetworkDenial, ApprovalRequest,
  Database, is_busy, is_ready, is_active,
}
use code_jam.Store.Log.{World, remove_for_agent}
use code_jam.Store.Json.{Mutation, mutate, snapshot, initialize}

-- `items.find((item) => item.id === id)` on each collection
abbrev pub is_agent : Text → Agent → Bool
is_agent id a = text_eq a.id id

abbrev pub is_run : Text → AgentRun → Bool
is_run id r = text_eq r.id id

abbrev pub is_approval : Text → ApprovalRequest → Bool
is_approval id a = text_eq a.id id

-- A mutation that only changes the database.
abbrev pub update : (Database → Database) → Mutation (Unit {0})
update f d = ok (tt, f d)

abbrev pub recover_run : ℕ → AgentRun → AgentRun
recover_run at r =
    if is_active r.status
    then record r {
      status = cancelled;
      error = some (codes "Server restarted while this run was active");
      completed_at = some at;
    }
    else r

abbrev pub recover_agent : ℕ → Agent → Agent
recover_agent at a = if is_busy a.status then record a { status = ready; updated_at = at } else a

-- The mutation of `initialize`.
unfoldable pub recover : ℕ → Database → Database
recover at d = record d {
  runs = map (recover_run at) d.runs;
  agents = map (recover_agent at) d.agents;
}

unfoldable pub start_service : Exec World (Unit {0})
start_service = do initialize; λ w. mutate (update (recover w.clock)) w

unfoldable pub find_agent : Text → Database → Result Agent
find_agent id d = elim (find (is_agent id) d.agents) [ none ↦ err (http 404) | some a ↦ ok a ]

-- `getAgent`
unfoldable pub get_agent : Text → Exec World Agent
get_agent id = do d ← snapshot; λ w. (find_agent id d, w)

pub record CreateAgentInput : Type 0 where
  pub name : Text
  pub description : Option Text
  pub instructions : Option Text

-- `value?.trim() ?? ""`
abbrev trimmed : Option Text → Text
trimmed none = []
trimmed (some s) = trim s

abbrev pub new_agent : Text → Text → ℕ → CreateAgentInput → Agent
new_agent id path at input = record {
  id = id;
  name = trim input.name;
  description = trimmed input.description;
  instructions = trimmed input.instructions;
  status = ready;
  workspace_path = path;
  codex_thread_id = none;
  last_error = none;
  created_at = at;
  updated_at = at;
}

abbrev pub push_agent : Agent → Database → Database
push_agent a d = record d { agents = d.agents ++ a ∷ [] }

-- `createAgent`: the directory is made first, and that may fail.
unfoldable pub create_agent : Result (Unit {0}) → Text → Text → CreateAgentInput → Exec World Agent
create_agent made id path input = do
  λ w. (made, w)
  λ w.
      let agent = new_agent id path w.clock input in
      (do mutate (update (push_agent agent)); pure agent) w

pub record UpdateAgentInput : Type 0 where
  pub name : Option Text
  pub description : Option Text
  pub instructions : Option Text

-- `if (value !== undefined) field = value.trim()`
abbrev edited : Option Text → Text → Text
edited none old = old
edited (some s) old = trim s

abbrev pub edit_agent : ℕ → UpdateAgentInput → Agent → Agent
edit_agent at input a = record a {
  name = edited input.name a.name;
  description = edited input.description a.description;
  instructions = edited input.instructions a.instructions;
  last_error = none;
  updated_at = at;
}

abbrev pub put_agent : Text → Agent → Database → Database
put_agent id a d = record d { agents = modify_first (is_agent id) (λ _. a) d.agents }

-- The mutation of `updateAgent`.
unfoldable pub update_agent_in : Text → ℕ → UpdateAgentInput → Mutation Agent
unfolding find_agent
update_agent_in id at input d = bind (find_agent id d) (λ agent.
    if is_busy agent.status
    then err (http 409)
    else let agent' = edit_agent at input agent in ok (agent', put_agent id agent' d))

unfoldable pub change_agent : Text → UpdateAgentInput → Exec World Agent
change_agent id input w = mutate (update_agent_in id w.clock input) w

-- `updateAgent`: the instructions are written to the workspace at the end, and that may fail.
unfoldable pub update_agent :
    Text → UpdateAgentInput → (Agent → Result (Unit {0})) → Exec World Agent
update_agent id input write_instructions = do
  current ← get_agent id
  updated ← if is_busy current.status then raise (http 409) else change_agent id input
  λ w. (write_instructions updated, w)
  pure updated

-- `setStatus`
unfoldable pub set_status_in : Text → ℕ → AgentStatus → Mutation Agent
unfolding find_agent
set_status_in id at status d = bind (find_agent id d) (λ agent.
    if is_ready status && is_busy agent.status
    then err (http 409)
    else let agent' = record agent {
      status = status;
      last_error = if is_ready status then none else agent.last_error;
      updated_at = at;
    } in
      ok (agent', put_agent id agent' d))

unfoldable pub start_agent : Text → Exec World Agent
start_agent id w = mutate (set_status_in id w.clock ready) w

-- `stopAgent`, once the execution in flight has been cancelled and has ended
unfoldable pub stop_agent : Text → Exec World Agent
stop_agent id = do get_agent id; λ w. mutate (set_status_in id w.clock stopped) w

-- The mutation of `deleteAgent`.
unfoldable pub delete_agent_in : Text → Database → Database
delete_agent_in id d = record d {
  agents = keep (λ (a : Agent). not (text_eq a.id id)) d.agents;
  messages = keep (λ (m : Message). not (text_eq m.agent_id id)) d.messages;
  runs = keep (λ (r : AgentRun). not (text_eq r.agent_id id)) d.runs;
  approvals = keep (λ (a : ApprovalRequest). not (text_eq a.agent_id id)) d.approvals;
  network_events = keep (λ (n : NetworkDenial). not (text_eq n.agent_id id)) d.network_events;
}

-- `deleteAgent`, once the execution in flight has ended; archiving the directory may fail.
unfoldable pub delete_agent : Text → (Agent → Result Text) → Exec World Text
delete_agent id archive = do
  agent ← get_agent id
  archived ← λ w. (archive agent, w)
  mutate (update (delete_agent_in id))
  remove_for_agent id
  pure archived
