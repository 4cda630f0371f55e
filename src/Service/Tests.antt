-- ===== src/Service/Tests.antt =====
-- The service run on a small database: an agent that is busy with a run, and a request that waits.
use code_jam.Prelude.{
  find, Text, codes, text_eq, Result, ok, err, ℕ, ◌+◌, ◌≡◌, refl, true, false, none, some, [], ◌∷◌,
}
use code_jam.Policy.Rules.{is_reviewable_rule, reviewable_rules}
use code_jam.Data.{absent, ready, busy, queued, pending, Agent, AgentRun, ApprovalRequest, Database}
use code_jam.Store.Log.{World, write, drop_expired, all_events, disk_fault}
use code_jam.Store.Json.{empty_database, mutate, commit, append_all, persist, prune, snapshot}
use code_jam.Service.Errors.{RunFailure, Config, RunError, policy_violation, no_broker}
use code_jam.Service.Evidence.{error_events}
use code_jam.Service.Runs.{settle_run, release, open_in}
use code_jam.Service.Failing.{is_held, is_blocked, fail_in}
use code_jam.Service.Execution.{Outcome, threw, RunnerInput, execute_run, conclude, settle_failure}
use code_jam.Service.Settling.{is_settled, IsKnown}
use code_jam.Service.Agents.{is_run, update}
use code_jam.Service.Recording.{Records, fail_in-Records}
use code_jam.Service.Releasing.{AfterRelease, settle_run-released}
use code_jam.Service.Conclusion.{execute_run-IsSettled}

abbrev pub config : Config
config = record {
  ark_configured = true;
  monitor = false;
  policy_review_rules = codes "network-egress-denied" ∷ [];
  policy_allowed_hosts = [];
}

abbrev pub worker : Agent
worker = record {
  id = codes "a1";
  name = codes "Ann";
  description = [];
  instructions = [];
  status = busy;
  workspace_path = codes "/w/a1";
  codex_thread_id = none;
  last_error = none;
  created_at = 1;
  updated_at = 1;
}

abbrev pub task : AgentRun
task = record {
  id = codes "r1";
  agent_id = codes "a1";
  status = queued;
  prompt = codes "fetch it";
  output = none;
  error = none;
  usage = none;
  started_at = none;
  completed_at = none;
  created_at = 1;
  network_evidence = none;
}

abbrev pub waiting : ApprovalRequest
waiting = record {
  id = codes "p1";
  agent_id = codes "a1";
  run_id = codes "r0";
  prompt = codes "fetch it";
  rule = codes "network-egress-denied";
  command = codes "curl pypi.org";
  detail = codes "blocked";
  hosts = codes "pypi.org" ∷ [];
  status = pending;
  requested_at = 1;
  resolved_by = none;
  resolved_by_attribution = none;
  decision_reason = none;
  resolved_at = none;
  continuation_run_id = none;
  allowlist_widened = absent;
}

abbrev pub working : Database
working = record empty_database { agents = worker ∷ []; runs = task ∷ [] }

abbrev pub idle : Database
idle = record empty_database {
  agents = record worker { status = ready } ∷ [];
  approvals = waiting ∷ [];
}

abbrev pub world : World
world = record {
  memory = working;
  events = [];
  last_compacted_at = 0;
  stored = none;
  lines = [];
  disk = [];
  clock = 1000;
  retention_days = 1;
}

abbrev denial : RunError
denial =
    policy_violation (codes "network-egress-denied") (codes "curl pypi.org") (codes "blocked")
      (codes "pypi.org" ∷ []) []

world-IsKnown : IsKnown (codes "r1") (codes "a1") world.memory
unfolding text_eq codes
world-IsKnown = record { run = task; agent = worker; has_run = refl; has_agent = refl }

-- The first write fails, and the smaller one does not.
abbrev failing : World
failing = record world { disk = false ∷ true ∷ [] }

settling-throws :
    settle_run (codes "r1") (codes "a1") (open_in (codes "r1") 1000) failing
    ≡ (err disk_fault, (settle_run (codes "r1") (codes "a1") (open_in (codes "r1") 1000) failing).1)
unfolding settle_run release mutate commit append_all persist write open_in
settling-throws = refl

settle_run-released_example :
    (refused : World) × (mutate (update (open_in (codes "r1") 1000)) failing
      ≡ (err disk_fault, refused))
    × (refused.memory ≡ working)
    × AfterRelease
        (codes "r1")
        (codes "a1")
        disk_fault
        failing
        refused
        (settle_run (codes "r1") (codes "a1") (open_in (codes "r1") 1000) failing).1
settle_run-released_example =
    settle_run-released (codes "r1") (codes "a1") (open_in (codes "r1") 1000) failing
      (settle_run (codes "r1") (codes "a1") (open_in (codes "r1") 1000) failing).1 disk_fault
      world-IsKnown settling-throws

abbrev numbered : ℕ → Text
numbered n = (b'0' + n) ∷ []

abbrev denied_failure : RunFailure
denied_failure = record { error = denial; network_denials = no_broker; observations = [] }

task_stored : find (is_run (codes "r1")) working.runs ≡ some task
unfolding text_eq codes
task_stored = refl

fail_in-Records_example :
    Records config
      (codes "r1")
      denied_failure
      working
      (fail_in config numbered task (codes "a1") false denied_failure 1000 working)
fail_in-Records_example =
    fail_in-Records config numbered task (codes "a1") false denied_failure 1000 working task
      task_stored

-- A runner that is denied whatever it is asked.
abbrev denied_runner : RunnerInput → Outcome
denied_runner _ = threw (record { error = denial; network_denials = no_broker; observations = [] })

abbrev executed : Result (Unit {0}) × World
executed = execute_run config numbered worker task false [] false denied_runner world

execution-returns : executed ≡ (ok tt, executed.1)
unfolding execute_run conclude settle_failure settle_run release mutate commit append_all persist
    write snapshot all_events drop_expired open_in fail_in prune error_events is_blocked is_held
    is_reviewable_rule reviewable_rules text_eq codes
execution-returns = refl

execute_run-IsSettled_example : is_settled (codes "r1") (codes "a1") executed.1.memory ≡ true
execute_run-IsSettled_example =
    execute_run-IsSettled config numbered worker task false [] false denied_runner world executed.1
      tt world-IsKnown execution-returns
