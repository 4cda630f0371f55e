-- ===== src/Runner/Stream.antt =====
-- `CodexRunner.run` (apps/server/src/codex-runner.ts) from the start of the process to its end: the
-- callbacks as steps of the run's state.
use code_jam.Prelude.{
  ltb, ◌==◌, if◌then◌else◌, length, drop, Text, codes, is_empty, trim, Fault, http, failure, Result,
  ok, err, bind, ℕ, ◌+◌, ◌-◌, Bool, true, false, not, ◌&&◌, ◌||◌, Option, none, some, List, [], ◌∷◌,
  ◌++◌, map,
}
use code_jam.Policy.Types.{PolicyContext, Actor}
use code_jam.Policy.Scan.{Evaluator, DetectedViolation, scan_commands, policy_context_from}
use code_jam.Service.Errors.{
  RunError, run_cancelled, budget_exceeded, policy_violation, other, decimal, PolicyObservation,
  no_broker,
}
use code_jam.Service.Execution.{Outcome, finished, threw, RunnerInput}
use code_jam.Runner.{Parser, ParsedEvents, empty_parsed_events, parse_codex_event_line, parse_lines}

-- The part of `AppConfig` that a run reads; `ark_host` is the host of `arkBaseUrl`.
pub record RunnerConfig : Type 0 where
  pub codex_sandbox_mode : Text
  pub codex_max_output_bytes : ℕ
  pub codex_timeout_ms : ℕ
  pub policy_max_commands : ℕ
  pub policy_allowed_hosts : List Text
  pub ark_host : Option Text
  pub ark_api_key : Text
  pub is_enforced : Bool

-- `buildCodexArgs`. An empty thread id is falsy.
unfoldable pub resume_args : Option Text → Text → List Text
resume_args none prompt = prompt ∷ []
resume_args (some []) prompt = prompt ∷ []
resume_args (some (c ∷ id)) prompt = codes "resume" ∷ (c ∷ id) ∷ prompt ∷ []

unfoldable pub build_codex_args : RunnerInput → Text → Text → List Text
unfolding resume_args
build_codex_args request sandbox_mode workspace_path =
    codes "exec"
    ∷ codes "--json"
    ∷ codes "--sandbox"
    ∷ sandbox_mode
    ∷ codes "--skip-git-repo-check"
    ∷ codes "-C"
    ∷ workspace_path
    ∷ resume_args request.thread_id request.prompt

unfoldable pub actor_of : RunnerInput → Actor
actor_of request = record { agent_id = request.agent_id; thread_id = request.thread_id }

unfoldable pub context_of : RunnerConfig → RunnerInput → PolicyContext
unfolding policy_context_from
context_of config request =
    policy_context_from config.ark_host (config.policy_allowed_hosts ++ request.extra_allowed_hosts)
      (config.ark_api_key ∷ []) (request.workspace_path ∷ [])

-- The variables of a run. `is_terminated` tells that `terminate` was called.
pub record Running : Type 0 where
  pub cancelled : Bool
  pub timed_out : Bool
  pub output_exceeded : Bool
  pub violation : Option DetectedViolation
  pub budget_exceeded : Bool
  pub is_terminated : Bool
  pub parsed : ParsedEvents
  pub stdout : Text
  pub stderr : Text
  pub total_bytes : ℕ
  pub scanned_commands : ℕ
  pub observations : List DetectedViolation

unfoldable pub started : RunnerInput → Running
unfolding empty_parsed_events
started request = record {
  cancelled = false;
  timed_out = false;
  output_exceeded = false;
  violation = none;
  budget_exceeded = false;
  is_terminated = false;
  parsed = empty_parsed_events request.thread_id;
  stdout = [];
  stderr = [];
  total_bytes = 0;
  scanned_commands = 0;
  observations = [];
}

-- What is called back: a chunk with its bytes and its text, the timer, and `cancel`.
pub data RunStep : Type 0 where
  out_chunk err_chunk : (bytes : ℕ) (text : Text) → RunStep
  time_out cancel : RunStep

-- `text.split(/\r?\n/)`: the pieces that a line end closes, and the last piece. A carriage return
-- before a line feed belongs to the line end.
unfoldable pub drop_return : Text → Text
drop_return [] = []
drop_return (c ∷ s) = let rest = drop_return s in if c == 13 && is_empty s then [] else c ∷ rest

unfoldable pub line_parts : Text → Text → List Text × Text
unfolding drop_return
line_parts piece [] = ([], piece)
line_parts piece (c ∷ s) =
    let closed = line_parts [] s in
    let longer = line_parts (piece ++ c ∷ []) s in
    if c == 10 then (drop_return piece ∷ closed.0, closed.1) else longer

-- `text.slice(-16_384)`
unfoldable pub last_units : Text → Text
last_units s = drop (length s - 16384) s

-- `violations[0] ?? before`, with the first violation kept
unfoldable pub first_of :
    Option DetectedViolation → List DetectedViolation → Option DetectedViolation
first_of (some v) found = some v
first_of none [] = none
first_of none (v ∷ found) = some v

abbrev pub is_armed : Option DetectedViolation → List DetectedViolation → Bool
is_armed none (_ ∷ _) = true
is_armed _ _ = false

-- `if (stdout.trim()) parseCodexEventLine(stdout.trim(), parsed)`, on the trimmed text
unfoldable pub flush_line : Parser → Text → ParsedEvents → Result ParsedEvents
unfolding parse_codex_event_line
flush_line parse [] p = ok p
flush_line parse (c ∷ s) p = parse_codex_event_line parse (c ∷ s) p

module _ (parse : Parser) (evaluate : Evaluator) (config : RunnerConfig)
    (request : RunnerInput) where
  -- What `applyPolicy` does with the violations that it found.
  unfoldable pub note_violations : Running → List DetectedViolation → Running
  unfolding first_of
  note_violations r found =
      let is_over = ltb config.policy_max_commands (length r.parsed.commands) in
      record r {
        scanned_commands = length r.parsed.commands;
        budget_exceeded = r.budget_exceeded || is_over;
        observations = r.observations ++ found;
        violation = first_of r.violation found;
        is_terminated =
            r.is_terminated
            || (not r.budget_exceeded && is_over)
            || (config.is_enforced && is_armed r.violation found);
      }

  -- `applyPolicy`
  unfoldable pub apply_policy : Running → Result Running
  unfolding scan_commands note_violations actor_of context_of
  apply_policy r =
      bind
        (scan_commands evaluate (actor_of request) r.parsed.commands r.scanned_commands
          (context_of config request))
        (λ found. ok (note_violations r found))

  -- `consume` of what the process wrote to stdout, within the limit
  unfoldable pub read_out : Text → Running → Result Running
  unfolding line_parts parse_lines apply_policy
  read_out text r =
      let parts = line_parts [] (r.stdout ++ text) in
      bind (parse_lines parse parts.0 r.parsed)
        (λ p. apply_policy (record r { stdout = parts.1; parsed = p }))

  unfoldable pub read_err : Text → Running → Result Running
  unfolding last_units
  read_err text r =
      let all = r.stderr ++ text in
      ok (record r { stderr = if ltb 16384 (length all) then last_units all else all })

  -- `totalBytes += chunk.byteLength`, and the limit
  unfoldable pub consume : ℕ → (Running → Result Running) → Running → Result Running
  consume bytes read r =
      let total = r.total_bytes + bytes in
      if ltb config.codex_max_output_bytes total
      then ok (record r { total_bytes = total; output_exceeded = true; is_terminated = true })
      else read (record r { total_bytes = total })

  unfoldable pub step : RunStep → Running → Result Running
  unfolding consume read_out read_err
  step (out_chunk bytes text) r = consume bytes (read_out text) r
  step (err_chunk bytes text) r = consume bytes (read_err text) r
  step time_out r = ok (record r { timed_out = true; is_terminated = true })
  step cancel r = ok (record r { cancelled = true; is_terminated = true })

  unfoldable pub run_steps : List RunStep → Running → Result Running
  unfolding step
  run_steps [] r = ok r
  run_steps (s ∷ steps) r = bind (step s r) (run_steps steps)

  -- The last line, and the last `applyPolicy`.
  unfoldable pub flush_run : Running → Result Running
  unfolding flush_line apply_policy trim
  flush_run r =
      bind (flush_line parse (trim r.stdout) r.parsed) (λ p. apply_policy (record r { parsed = p }))

-- `xs.at(-1)`
unfoldable pub last_text : List Text → Option Text
last_text [] = none
last_text (s ∷ []) = some s
last_text (s ∷ t ∷ rest) = last_text (t ∷ rest)

abbrev pub observed : DetectedViolation → PolicyObservation
observed v = record {
  rule = v.violation.rule;
  command = v.command;
  detail = v.violation.detail;
  capabilities = v.violation.capabilities;
}

abbrev pub or_none {ℓ} : {A : Type ℓ} → Option (List A) → List A
or_none none = []
or_none (some xs) = xs

unfoldable pub denial_error : DetectedViolation → RunError
denial_error v =
    policy_violation v.violation.rule v.command v.violation.detail (or_none v.violation.hosts)
      (or_none v.violation.capabilities)

unfoldable pub enforced_denial : (is_enforced : Bool) → Option DetectedViolation → Option RunError
unfolding denial_error
enforced_denial true (some v) = some (denial_error v)
enforced_denial _ _ = none

-- `parsed.errors.at(-1) ?? stderr.trim()`
unfoldable pub exit_detail : Running → Text
unfolding last_text trim
exit_detail r = elim (last_text r.parsed.errors) [ some message ↦ message | none ↦ trim r.stderr ]

-- `!output`, for the trimmed last message
unfoldable pub final_output : ParsedEvents → Option Text
unfolding last_text trim
final_output p = elim (last_text p.messages) [
  | none ↦ none
  | some s ↦ elim (trim s) [ [] ↦ none | c ∷ rest ↦ some (c ∷ rest) ]
]

unfoldable pub failed_with : Running → RunError → Outcome
failed_with r e =
    threw (record {
      error = e;
      network_denials = no_broker;
      observations = map observed r.observations;
    })

unfoldable pub deliver : Text → Running → Option Text → Outcome
unfolding failed_with
deliver missing r none = failed_with r (other missing)
deliver missing r (some output) = finished (record {
  output = output;
  thread_id = r.parsed.thread_id;
  usage = r.parsed.usage;
  violations = map observed r.observations;
  network_denials = no_broker;
})

-- `if (test) throw error`, before the rest
unfoldable pub throw_if : Bool → RunError → Running → Outcome → Outcome
unfolding failed_with
throw_if is_thrown e r rest = if is_thrown then failed_with r e else rest

unfoldable pub throw_denial : Option RunError → Running → Outcome → Outcome
unfolding failed_with
throw_denial none r rest = rest
throw_denial (some e) r rest = failed_with r e

-- The tests after the process has closed, in their order.
unfoldable pub conclude_run : RunnerConfig → ℕ → Running → Outcome
unfolding enforced_denial exit_detail final_output throw_if throw_denial deliver decimal
conclude_run config exit_code r =
    let over =
      budget_exceeded config.policy_max_commands (length r.parsed.commands) r.parsed.thread_id in
    let late = codes "Codex timed out after " ++ (decimal config.codex_timeout_ms ++ codes " ms") in
    let failed =
      codes "Codex exited with code " ++ (decimal exit_code ++ (codes ": " ++ exit_detail r)) in
    let silent = codes "Codex completed without an agent message" in
    throw_if r.cancelled run_cancelled r (
      throw_denial (enforced_denial config.is_enforced r.violation) r (
        throw_if r.budget_exceeded over r (
          throw_if r.timed_out (other late) r (
            throw_if r.output_exceeded
              (other (codes "Codex output exceeded CODEX_MAX_OUTPUT_BYTES")) r
              (throw_if (not (exit_code == 0)) (other failed) r
                (deliver silent r (final_output r.parsed)))))))

abbrev pub fault_text : Fault → Text
fault_text (http _) = []
fault_text (failure message) = message

-- A throw of the flush_run is caught, and ends the run with what was observed before it.
unfoldable pub close_run : Parser → Evaluator → RunnerConfig → RunnerInput → ℕ → Running → Outcome
unfolding flush_run conclude_run failed_with
close_run parse evaluate config request exit_code r =
    elim (flush_run parse evaluate config request r) [
      | ok done ↦ conclude_run config exit_code done
      | err e ↦ failed_with r (other (fault_text e))
    ]

-- `run`, on the steps until the process closes and its exit code. A throw in a callback is not
-- caught: no outcome comes back.
unfoldable pub run_codex :
    Parser → Evaluator → RunnerConfig → RunnerInput → List RunStep → ℕ → Result Outcome
unfolding run_steps started close_run
run_codex parse evaluate config request steps exit_code =
    bind (run_steps parse evaluate config request steps (started request))
      (λ r. ok (close_run parse evaluate config request exit_code r))
