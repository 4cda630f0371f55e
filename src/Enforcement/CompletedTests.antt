-- ===== src/Enforcement/CompletedTests.antt =====
-- A run that lists its directory and answers, from its start to its end.
use code_jam.Prelude.{
  if◌then◌else◌, length, All, Text, codes, text_eq, split_from, starts_with, index_of, Result, ok,
  ℕ, ◌+◌, ◌≤◌, ◌≡◌, refl, true, false, none, some, List, [], ◌∷◌, ◌++◌,
}
use code_jam.Data.{busy, queued, Agent, AgentRun}
use code_jam.Policy.Rules.{decide}
use code_jam.Policy.Evaluate.{judge, collect, combine, report, get_claims}
use code_jam.Policy.Scan.{scan_commands_with, scan_from, scan_one, guarded_evaluate}
use code_jam.Store.Log.{World, write, all_events, drop_expired}
use code_jam.Store.Json.{empty_database, mutate, commit, append_all, persist, prune, snapshot}
use code_jam.Service.Errors.{Config, no_broker}
use code_jam.Service.Runs.{settle_run, release, open_in, complete_in, complete_found}
use code_jam.Service.Execution.{
  Outcome, finished, RunnerInput, runner_input, execute_run, conclude, settle_failure,
}
use code_jam.Service.Evidence.{record_network_evidence, observed_events}
use code_jam.Service.Settling.{IsKnown}
use code_jam.Service.Completing.{run_completed}
use code_jam.Shell.{Node}
use code_jam.Capabilities.{inert_sink}
use code_jam.Runner.{Json, string, object, no_fields, field, Parser, ParsedEvents}
use code_jam.Runner.Stream.{RunnerConfig, RunStep, out_chunk, actor_of, context_of, run_codex}
use code_jam.Runner.Following.{stream_events, first_events, all_written}
use code_jam.Enforcement.{govern_command}
use code_jam.Enforcement.Completed.{IsLetPass, completed-IsGoverned}

abbrev simple_node : Node
simple_node = record {
  is_ip = λ s. 0;
  url_hostname = λ s. none;
  from_base64 = λ s. [];
  from_hex = λ s. [];
}

abbrev event : Text → Text → Text → Json
event type key text = object (
    field (codes "type") (string (codes "item.completed")) (
      field (codes "item")
        (object (field (codes "type") (string type) (field key (string text) no_fields)))
        no_fields))

-- A line "m" is a message, and "c" a command.
unfoldable parse : Parser
unfolding codes text_eq
parse line =
    if text_eq line (codes "m")
    then some (event (codes "agent_message") (codes "text") (codes "done"))
    else if text_eq line (codes "c")
    then some (event (codes "command_execution") (codes "command") (codes "ls"))
    else none

abbrev runner_config : RunnerConfig
runner_config = record {
  codex_sandbox_mode = codes "workspace-write";
  codex_max_output_bytes = 100;
  codex_timeout_ms = 1000;
  policy_max_commands = 2;
  policy_allowed_hosts = [];
  ark_host = none;
  ark_api_key = codes "key";
  is_enforced = true;
}

abbrev service_config : Config
service_config = record {
  ark_configured = true;
  monitor = false;
  policy_review_rules = [];
  policy_allowed_hosts = [];
}

abbrev agent : Agent
agent = record {
  id = codes "a1";
  name = codes "Ann";
  description = [];
  instructions = [];
  status = busy;
  workspace_path = codes "/w/a1";
  codex_thread_id = none;
  last_error = none;
  created_at = 1;
  updated_at = 1;
}

abbrev task : AgentRun
task = record {
  id = codes "r1";
  agent_id = codes "a1";
  status = queued;
  prompt = codes "list it";
  output = none;
  error = none;
  usage = none;
  started_at = none;
  completed_at = none;
  created_at = 1;
  network_evidence = none;
}

abbrev world : World
world = record {
  memory = record empty_database { agents = agent ∷ []; runs = task ∷ [] };
  events = [];
  last_compacted_at = 0;
  stored = none;
  lines = [];
  disk = [];
  clock = 1000;
  retention_days = 1;
}

abbrev steps : List RunStep
steps = out_chunk 3 (codes "c" ++ (10 ∷ codes "m")) ∷ []

abbrev input : RunnerInput
input = runner_input agent task [] []

abbrev runner : RunnerInput → Outcome
runner _ = finished (record {
  output = codes "done";
  thread_id = none;
  usage = none;
  violations = [];
  network_denials = no_broker;
})

abbrev numbered : ℕ → Text
numbered n = (b'0' + n) ∷ []

live_run :
    run_codex parse (govern_command inert_sink simple_node) runner_config input steps 0
    ≡ ok (runner input)
unfolding run_codex parse scan_commands_with scan_from scan_one guarded_evaluate govern_command
    combine report collect decide judge get_claims split_from codes text_eq starts_with index_of
live_run = refl

world-IsKnown : IsKnown (codes "r1") (codes "a1") world.memory
unfolding text_eq codes
world-IsKnown = record { run = task; agent = agent; has_run = refl; has_agent = refl }

abbrev executed : Result (Unit {0}) × World
executed = execute_run service_config numbered agent task false [] false runner world

execution-returns :
    (executed ≡ (ok tt, executed.1)) × (run_completed (codes "r1") executed.1.memory ≡ true)
unfolding execute_run conclude settle_failure settle_run release mutate commit append_all persist
    write snapshot all_events drop_expired open_in complete_in complete_found
    record_network_evidence observed_events prune text_eq codes
execution-returns = (refl, refl)

completed-IsGoverned_example :
    (p : ParsedEvents) × (stream_events parse
        (first_events parse (govern_command inert_sink simple_node) runner_config input)
        (all_written steps)
      ≡ ok p)
    × All
        (IsLetPass
          (govern_command inert_sink simple_node)
          (actor_of input)
          (context_of runner_config input))
        p.commands
    × (length p.commands ≤ 2)
completed-IsGoverned_example =
    completed-IsGoverned inert_sink simple_node parse runner_config steps 0 service_config numbered
      agent task false [] false runner world executed.1 tt refl live_run world-IsKnown
      execution-returns.0 execution-returns.1
