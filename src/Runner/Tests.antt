-- ===== src/Runner/Tests.antt =====
-- The runner on a short stream of events, cut in the middle of a line.
use code_jam.Prelude.{
  false, if◌then◌else◌, length, Text, codes, text_eq, trim, failure, Result, ok, err, ℕ, ◌≤◌, ◌≡◌,
  refl, true, none, some, List, [], ◌∷◌, ◌++◌, arith, All,
}
use code_jam.Policy.Scan.{Evaluator, scan_commands_with, scan_from, scan_one, guarded_evaluate}
use code_jam.Policy.Redact.{
  redact_command, mask_runs, mask_urls, mask_secrets, url_credentials, strip_prefix, span, is_run,
  is_high_entropy,
}
use code_jam.Service.Errors.{RunnerResult, policy_violation, no_broker}
use code_jam.Service.Execution.{Outcome, finished, threw, RunnerInput}
use code_jam.Runner.{
  Json, null, string, object, no_fields, field, Parser, ParsedEvents, parse_lines,
  empty_parsed_events,
}
use code_jam.Runner.Stream.{
  RunnerConfig, Running, RunStep, out_chunk, err_chunk, build_codex_args, line_parts, run_codex,
  conclude_run, final_output, flush_line,
}
use code_jam.Runner.Judging.{judged, HasJudged}
use code_jam.Runner.Following.{stream_events, first_events, all_written}
use code_jam.Runner.Replay.{ReplayFixture, select_fixture, replay_run}
use code_jam.Runner.Endings.{ending}
use code_jam.Runner.Parity.{IsLine, unlines, replay_run-decides_as_live}
use code_jam.Runner.Guarantees.{run_codex-reads_whole, run_codex-IsAllowed}

abbrev event : Text → Text → Text → Json
event type key text = object (
    field (codes "type") (string (codes "item.completed")) (
      field (codes "item")
        (object (field (codes "type") (string type) (field key (string text) no_fields)))
        no_fields))

-- A line "m" is a message, "c" a command, "n" the text `null`.
unfoldable parse : Parser
unfolding codes text_eq
parse line =
    if text_eq line (codes "m")
    then some (event (codes "agent_message") (codes "text") (codes " done "))
    else if text_eq line (codes "c")
    then some (event (codes "command_execution") (codes "command") (codes "ls"))
    else if text_eq line (codes "n")
    then some null
    else none

abbrev allow_all : Evaluator
allow_all actor command context = ok none

abbrev deny_all : Evaluator
deny_all actor command context =
    ok (some (record { rule = codes "r"; detail = []; hosts = none; capabilities = none }))

abbrev config : RunnerConfig
config = record {
  codex_sandbox_mode = codes "workspace-write";
  codex_max_output_bytes = 100;
  codex_timeout_ms = 1000;
  policy_max_commands = 2;
  policy_allowed_hosts = [];
  ark_host = none;
  ark_api_key = codes "key";
  is_enforced = true;
}

abbrev request : RunnerInput
request = record {
  agent_id = codes "a1";
  workspace_path = codes "/w";
  prompt = codes "go";
  thread_id = some (codes "t");
  extra_allowed_hosts = [];
  run_id = codes "r1";
}

-- "c\r", then "\nm": the line end is cut in two.
abbrev steps : List RunStep
steps =
    out_chunk 2 (codes "c" ++ (13 ∷ []))
    ∷ err_chunk 1 (codes "!")
    ∷ out_chunk 2 (10 ∷ codes "m")
    ∷ []

args_resume :
    build_codex_args request (codes "read-only") (codes "/w")
    ≡ codes "exec"
      ∷ codes "--json"
      ∷ codes "--sandbox"
      ∷ codes "read-only"
      ∷ codes "--skip-git-repo-check"
      ∷ codes "-C"
      ∷ codes "/w"
      ∷ codes "resume"
      ∷ codes "t"
      ∷ codes "go"
      ∷ []
unfolding build_codex_args codes
args_resume = refl

abbrev whole : Result ParsedEvents
whole = stream_events parse (first_events parse allow_all config request) (all_written steps)

abbrev events : ParsedEvents
events = record {
  messages = codes " done " ∷ [];
  thread_id = some (codes "t");
  usage = none;
  errors = [];
  commands = codes "ls" ∷ [];
  seen_command_ids = [];
}

whole_events : whole ≡ ok events
unfolding line_parts parse codes trim flush_line parse_lines empty_parsed_events
whole_events = refl

abbrev result : RunnerResult
result = record {
  output = codes "done";
  thread_id = some (codes "t");
  usage = none;
  violations = [];
  network_denials = no_broker;
}

run_returns : run_codex parse allow_all config request steps 0 ≡ ok (finished result)
unfolding run_codex parse codes scan_commands_with scan_from scan_one guarded_evaluate
run_returns = refl

-- The command in the same output, denied, blocks the run.
run_denied :
    run_codex parse deny_all config request steps 0
    ≡ ok (
        threw (record {
          error = policy_violation (codes "r") (codes "ls") [] [] [];
          network_denials = no_broker;
          observations =
              record { rule = codes "r"; command = codes "ls"; detail = []; capabilities = none }
              ∷ [];
        }))
unfolding run_codex parse codes scan_commands_with scan_from scan_one guarded_evaluate
    redact_command mask_runs mask_urls mask_secrets url_credentials strip_prefix span is_run
    is_high_entropy
run_denied = refl

-- A line `null` is not caught in a callback.
null_throws :
    run_codex parse allow_all config request (out_chunk 2 (codes "n" ++ (10 ∷ [])) ∷ []) 0
    ≡ err (failure (codes "Cannot read properties of null (reading 'type')"))
unfolding run_codex parse codes scan_commands_with scan_from scan_one guarded_evaluate
null_throws = refl

run_codex-reads_whole_example :
    (t : Running) × (run_codex parse allow_all config request steps 0
      ≡ ok (conclude_run config 0 t))
    × (t.parsed ≡ events)
    × HasJudged parse allow_all config request events.commands t
run_codex-reads_whole_example =
    run_codex-reads_whole parse allow_all config request steps 0 events (omega arith) whole_events

run_codex-IsAllowed_example :
    (p : ParsedEvents) × (whole ≡ ok p)
    × (judged parse allow_all config request p.commands ≡ [])
    × (length p.commands ≤ 2)
    × (◌≡◌ {A = ℕ} 0 0)
    × (final_output p ≡ some (codes "done"))
run_codex-IsAllowed_example =
    run_codex-IsAllowed parse allow_all config request steps 0 result refl run_returns

abbrev fixtures : List ReplayFixture
fixtures =
    record {
      name = codes "listing";
      match = codes "GO" ∷ [];
      lines = codes "c" ∷ codes "m" ∷ [];
      source = codes "synthesized";
    }
    ∷ []

abbrev fixture : ReplayFixture
fixture = record {
  name = codes "listing";
  match = codes "GO" ∷ [];
  lines = codes "c" ∷ codes "m" ∷ [];
  source = codes "synthesized";
}

fixture_selected : select_fixture fixtures (codes "go") ≡ some fixture
unfolding select_fixture codes
fixture_selected = refl

fixture_lines : All IsLine fixture.lines
unfolding line_parts codes
fixture_lines = ((refl, refl), ((refl, refl), tt))

fixture_events :
    parse_lines parse fixture.lines (first_events parse deny_all config request) ≡ ok events
unfolding parse_lines empty_parsed_events parse codes
fixture_events = refl

replay_run-decides_as_live_example :
    (live : Outcome) × (run_codex parse deny_all config request
        (out_chunk 4 (unlines fixture.lines) ∷ [])
        0
      ≡ ok live)
    × (ending (replay_run parse deny_all config fixtures false request) ≡ ending live)
replay_run-decides_as_live_example =
    replay_run-decides_as_live parse deny_all config request fixtures fixture 4 events
      fixture_selected fixture_lines (omega arith) fixture_events
