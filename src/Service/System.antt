-- ===== src/Service/System.antt =====
-- agent-service.ts as a state machine: each write that a method makes is a step of the database.
pub mod Unchanged
pub mod Asked
pub mod Sound
pub mod Once
pub mod Distinct
mod Tests
use code_jam.Prelude.{
  ltb, leb, ◌==◌, if◌then◌else◌, ltb→lt, ltb-false→le, lt→ltb, le→ltb-false, ==_iff, Bool-cases,
  Option-cases, true-of-ne-false, length, take, drop, get_elem?, keep, any, all, find, modify_first,
  length-append, All, All-append, All-split, All-keep, All-modify_first, All-find, All-imp,
  All-keep_self, find-modify_first, find-test, some-inj, ok-inj, Text, codes, text_eq, text_eq_iff,
  text_eq_refl, text_eq_sym, includes, is_white, is_empty, trim_start, trim_end, trim, to_lower,
  lower, split_from, split, starts_with, index_of, join, Fault, http, failure, Result, ok, err,
  bind, bind-eq-ok, guard, Exec, pure, raise, continue, ◌>>=◌, ◌>>◌, ℕ, zero, suc, ◌+◌, ◌-◌, ◌*◌,
  ◌/◌, ◌%◌, ◌^◌, ◌≤◌, ◌<◌, String, ◌≡◌, refl, sym, ap, ◌∙◌, ◌≢◌, ◌↔◌, ◌⊎◌, inl, inr, Bool, true,
  false, not, ◌&&◌, ◌||◌, Option, none, some, List, [], ◌∷◌, ◌++◌, map, arith,
}
use code_jam.Data.{AgentStatus, Agent, AgentRun, ApprovalRequest, Database}
use code_jam.Store.Log.{World}
use code_jam.Store.Json.{to_stored, from_stored}
use code_jam.Store.Json.Atomic.{committed}
use code_jam.Service.Errors.{Principal, Config, RunnerResult, RunFailure}
use code_jam.Service.Agents.{
  recover, push_agent, UpdateAgentInput, update_agent_in, set_status_in, delete_agent_in,
}
use code_jam.Service.Allowlist.{add_host_in, remove_host_in}
use code_jam.Service.Approvals.{approve_in, deny_in, Grant}
use code_jam.Service.Runs.{send_in, open_in, complete_in, release_in}
use code_jam.Service.Failing.{fail_in}

pub data Step (d d' : Database) : Type 0 where
  recovered : (at : ℕ) → recover at d ≡ d' → Step d d'
  created : (agent : Agent) → push_agent agent d ≡ d' → Step d d'
  updated :
      (id : Text) (at : ℕ) (input : UpdateAgentInput) (agent : Agent)
      → update_agent_in id at input d ≡ ok (agent, d')
      → Step d d'
  status_set :
      (id : Text) (at : ℕ) (status : AgentStatus) (agent : Agent)
      → set_status_in id at status d ≡ ok (agent, d')
      → Step d d'
  deleted : (id : Text) → delete_agent_in id d ≡ d' → Step d d'
  host_added : (host : Text) (hosts : List Text) → add_host_in host d ≡ ok (hosts, d') → Step d d'
  host_removed :
      (host : Text) (hosts : List Text) → remove_host_in host d ≡ ok (hosts, d') → Step d d'
  sent :
      (run_id message_id agent_id prompt : Text) (at : ℕ) (agent : Agent)
      → send_in run_id message_id agent_id prompt at d ≡ ok (agent, d')
      → Step d d'
  run_opened : (run_id : Text) (at : ℕ) → open_in run_id at d ≡ d' → Step d d'
  run_completed :
      (fresh : ℕ → Text) (run_id agent_id : Text) (result : RunnerResult) (at : ℕ)
      → complete_in fresh run_id agent_id result at d ≡ d'
      → Step d d'
  run_failed :
      (config : Config) (fresh : ℕ → Text) (run : AgentRun) (agent_id : Text) (is_grant_run : Bool)
      (ended : RunFailure) (at : ℕ)
      → fail_in config fresh run agent_id is_grant_run ended at d ≡ d'
      → Step d d'
  run_released :
      (run_id agent_id reason : Text) (at : ℕ)
      → release_in run_id agent_id reason at d ≡ d'
      → Step d d'
  request_approved :
      (id run_id : Text) (principal : Option Principal) (reason : Text) (add_to_allowlist : Bool)
      (at : ℕ) (grant : Grant)
      → approve_in id run_id principal reason add_to_allowlist at d ≡ ok (grant, d')
      → Step d d'
  request_denied :
      (id : Text) (principal : Option Principal) (reason : Text) (at : ℕ)
      (approval : ApprovalRequest)
      → deny_in id principal reason at d ≡ ok (approval, d')
      → Step d d'
  -- what `mutate` does to every changed copy before it is kept: its events go to the log, and it is
  -- pruned
  kept : (w : World) → committed w d ≡ d' → Step d d'
  -- a restart, on the file that the database was written to
  restarted : from_stored (to_stored d) ≡ d' → Step d d'

-- The databases that the service can come to from one that it started with.
pub data Reachable (initial : Database) : Database → Type 0 where
  start : Reachable initial initial
  later : {d d' : Database} → Reachable initial d → Step d d' → Reachable initial d'
