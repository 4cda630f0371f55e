-- ===== src/Runner/Endings.antt =====
-- What a run and a replay decide: `ReplayRunner.run`
-- (apps/server/src/replay-runner.ts) and `CodexRunner.run` (apps/server/src/codex-runner.ts).
use code_jam.Prelude.{
  if◌then◌else◌, length, Text, codes, ℕ, ◌≡◌, refl, ◌∙◌, Bool, true, false, Option, none, some,
  List, ◌++◌, map,
}
use code_jam.Policy.Scan.{DetectedViolation}
use code_jam.Service.Errors.{
  RunError, run_cancelled, budget_exceeded, policy_violation, other, decimal, RunnerResult,
  no_broker,
}
use code_jam.Service.Execution.{Outcome, finished, threw}
use code_jam.Runner.{ParsedEvents}
use code_jam.Runner.Stream.{
  RunnerConfig, Running, observed, or_none, denial_error, enforced_denial, exit_detail,
  final_output, failed_with, deliver, throw_if, throw_denial, conclude_run,
}
use code_jam.Runner.Replay.{Replaying, replay_failed, replay_denial, replay_output, replay_verdict}

-- What a run decided: an error keeps what an approver sees of it, and a failure nothing.
pub data Ending : Type 0 where
  answered : RunnerResult → Ending
  refused : (rule command detail : Text) (hosts : List Text) → Ending
  over_budget : (limit observed : ℕ) (thread_id : Option Text) → Ending
  broken_off failed : Ending

abbrev pub error_ending : RunError → Ending
error_ending run_cancelled = broken_off
error_ending (budget_exceeded limit observed thread_id) = over_budget limit observed thread_id
error_ending (policy_violation rule command detail hosts _) = refused rule command detail hosts
error_ending (other _) = failed

abbrev pub ending : Outcome → Ending
ending (finished result) = answered result
ending (threw f) = error_ending f.error

-- What both decide by the events, the first violation and the budget.
abbrev output_ending : Option Text → ParsedEvents → List DetectedViolation → Ending
output_ending none p found = failed
output_ending (some output) p found = answered (record {
  output = output;
  thread_id = p.thread_id;
  usage = p.usage;
  violations = map observed found;
  network_denials = no_broker;
})

abbrev unrefused : ℕ → (is_over : Bool) → ParsedEvents → List DetectedViolation → Ending
unrefused limit is_over p found =
    if is_over
    then over_budget limit (length p.commands) p.thread_id
    else output_ending (final_output p) p found

abbrev pub decided :
    (is_enforced : Bool)
    → Option DetectedViolation
    → ℕ
    → (is_over : Bool) → ParsedEvents
    → List DetectedViolation
    → Ending
decided true (some v) limit is_over p found =
    refused v.violation.rule v.command v.violation.detail (or_none v.violation.hosts)
decided _ _ limit is_over p found = unrefused limit is_over p found

deliver-ending :
    (missing : Text) (r : Running) (o : Option Text)
    → ending (deliver missing r o) ≡ output_ending o r.parsed r.observations
unfolding deliver failed_with
deliver-ending missing r none = refl
deliver-ending missing r (some output) = refl

replay_output-ending :
    (r : Replaying) (o : Option Text)
    → ending (replay_output r o) ≡ output_ending o r.parsed r.observations
unfolding replay_output replay_failed
replay_output-ending r none = refl
replay_output-ending r (some output) = refl

passes :
    (b : Bool) (e : RunError) (r : Running) (rest : Outcome) {end : Ending}
    → b ≡ false
    → ending rest ≡ end
    → ending (throw_if b e r rest) ≡ end
unfolding throw_if failed_with
passes true e r rest h k = cc
passes false e r rest h k = k

throw_if-over :
    (config : RunnerConfig) (is_over : Bool) (r : Running) (rest : Outcome)
    → ending rest ≡ output_ending (final_output r.parsed) r.parsed r.observations
    → ending (
        throw_if is_over
          (budget_exceeded config.policy_max_commands (length r.parsed.commands) r.parsed.thread_id)
          r
          rest)
      ≡ unrefused config.policy_max_commands is_over r.parsed r.observations
unfolding throw_if failed_with
throw_if-over config true r rest h = refl
throw_if-over config false r rest h = h

throw_denial-ending :
    (is_enforced : Bool) (o : Option DetectedViolation) (r : Running) (rest : Outcome) (limit : ℕ)
    (is_over : Bool)
    → ending rest ≡ unrefused limit is_over r.parsed r.observations
    → ending (throw_denial (enforced_denial is_enforced o) r rest)
      ≡ decided is_enforced o limit is_over r.parsed r.observations
unfolding throw_denial enforced_denial denial_error failed_with
throw_denial-ending true (some v) r rest limit is_over h = refl
throw_denial-ending true none r rest limit is_over h = h
throw_denial-ending false none r rest limit is_over h = h
throw_denial-ending false (some v) r rest limit is_over h = h

-- The end of a run that was neither cancelled nor late, nor wrote too much.
pub conclude_run-ending :
    (config : RunnerConfig) (r : Running)
    → r.cancelled ≡ false
    → r.timed_out ≡ false
    → r.output_exceeded ≡ false
    → ending (conclude_run config 0 r)
      ≡ decided config.is_enforced r.violation config.policy_max_commands r.budget_exceeded r.parsed
          r.observations
unfolding conclude_run
conclude_run-ending config r calm timely within = passes r.cancelled _ r _ calm (
    throw_denial-ending config.is_enforced r.violation r _ config.policy_max_commands
      r.budget_exceeded
      (throw_if-over config r.budget_exceeded r _ (
        passes r.timed_out _ r _ timely (
          passes r.output_exceeded _ r _ within (
            passes false
              (other
                (codes "Codex exited with code " ++ (decimal 0 ++ (codes ": " ++ exit_detail r))))
              r _ refl (deliver-ending _ r (final_output r.parsed)))))))

replay_unrefused :
    (config : RunnerConfig) (r : Replaying) (is_over : Bool)
    → ending (
        if is_over
        then replay_failed
            (budget_exceeded config.policy_max_commands
              (length r.parsed.commands)
              r.parsed.thread_id)
            r
        else replay_output r (final_output r.parsed))
      ≡ unrefused config.policy_max_commands is_over r.parsed r.observations
unfolding replay_failed
replay_unrefused config r true = refl
replay_unrefused config r false = replay_output-ending r (final_output r.parsed)

refusal_ending :
    (is_enforced : Bool) (v : DetectedViolation) (r : Replaying) (rest : Outcome) (limit : ℕ)
    (is_over : Bool)
    → ending rest ≡ unrefused limit is_over r.parsed r.observations
    → ending (if is_enforced then replay_failed (replay_denial v) r else rest)
      ≡ decided is_enforced (some v) limit is_over r.parsed r.observations
unfolding replay_failed replay_denial
refusal_ending true v r rest limit is_over h = refl
refusal_ending false v r rest limit is_over h = h

pub decided-same :
    (is_enforced : Bool) (limit : ℕ) {o o' : Option DetectedViolation} {b b' : Bool}
    {p p' : ParsedEvents} {found found' : List DetectedViolation}
    → o ≡ o'
    → b ≡ b'
    → p ≡ p'
    → found ≡ found'
    → decided is_enforced o limit b p found ≡ decided is_enforced o' limit b' p' found'
decided-same is_enforced limit h i j k = rw (h, i, j, k) refl

pub decided-refused :
    (limit : ℕ) (is_over : Bool) (p : ParsedEvents) (found : List DetectedViolation)
    {is_enforced : Bool} {o : Option DetectedViolation} {v : DetectedViolation}
    → is_enforced ≡ true
    → o ≡ some v
    → decided is_enforced o limit is_over p found
      ≡ refused v.violation.rule v.command v.violation.detail (or_none v.violation.hosts)
decided-refused limit is_over p found e h = rw (e, h) refl

undenied :
    (is_enforced : Bool) (limit : ℕ) (is_over : Bool) (p : ParsedEvents)
    (found : List DetectedViolation)
    → unrefused limit is_over p found ≡ decided is_enforced none limit is_over p found
undenied true limit is_over p found = refl
undenied false limit is_over p found = refl

pub replay_verdict-ending :
    (config : RunnerConfig) (r : Replaying) (o : Option DetectedViolation)
    → ending (replay_verdict config r o)
      ≡ decided config.is_enforced o config.policy_max_commands r.budget_exceeded r.parsed
          r.observations
unfolding replay_verdict
replay_verdict-ending config r none =
    replay_unrefused config r r.budget_exceeded
    ∙ undenied config.is_enforced config.policy_max_commands r.budget_exceeded r.parsed
        r.observations
replay_verdict-ending config r (some v) =
    refusal_ending config.is_enforced v r _ config.policy_max_commands r.budget_exceeded
      (replay_unrefused config r r.budget_exceeded)
