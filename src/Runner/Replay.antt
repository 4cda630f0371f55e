-- ===== src/Runner/Replay.antt =====
-- The replay of a recorded stream (apps/server/src/replay-runner.ts).
pub mod Playing
use code_jam.Prelude.{
  ltb, leb, ◌==◌, if◌then◌else◌, ltb→lt, ltb-false→le, lt→ltb, le→ltb-false, ==_iff, Bool-cases,
  if_rule, Option-cases, true-of-ne-false, length, take, drop, get_elem?, get_or, flat_map, keep,
  any, all, find, modify_first, length-append, All, All-append, All-split, All-keep,
  All-modify_first, All-find, All-imp, All-keep_self, find-modify_first, find-test, some-inj,
  ok-inj, Text, codes, text_eq, text_eq_iff, text_eq_refl, text_eq_sym, includes, is_white,
  is_empty, trim_start, trim_end, trim, to_lower, lower, split_from, split, starts_with, index_of,
  join, Fault, http, failure, Result, ok, err, bind, bind-eq-ok, guard, Exec, pure, raise, continue,
  ◌>>=◌, ◌>>◌, ℕ, zero, suc, ◌+◌, ◌-◌, ◌*◌, ◌/◌, ◌%◌, ◌^◌, ◌≤◌, ◌<◌, String, ◌≡◌, refl, sym, ap,
  ◌∙◌, ◌≢◌, ◌↔◌, ◌⊎◌, inl, inr, Bool, true, false, not, ◌&&◌, ◌||◌, Option, none, some, List, [],
  ◌∷◌, ◌++◌, map, arith,
}
use code_jam.Data.{RunUsage}
use code_jam.Policy.Types.{PolicyViolation}
use code_jam.Policy.Scan.{Evaluator, DetectedViolation, scan_commands}
use code_jam.Service.Errors.{
  RunError, run_cancelled, budget_exceeded, policy_violation, other, RunnerResult, RunFailure,
  no_broker,
}
use code_jam.Service.Execution.{Outcome, finished, threw, RunnerInput, plain_failure}
use code_jam.Runner.{Parser, ParsedEvents, empty_parsed_events, parse_codex_event_line}
use code_jam.Runner.Stream.{
  RunnerConfig, actor_of, context_of, first_of, final_output, observed, or_none, fault_text,
}

pub record ReplayFixture : Type 0 where
  pub name : Text
  pub match : List Text
  pub lines : List Text
  pub source : Text

-- `haystack.includes(needle)`
unfoldable pub has_text : Text → Text → Bool
unfolding starts_with
has_text [] needle = starts_with [] needle
has_text (c ∷ s) needle = starts_with (c ∷ s) needle || has_text s needle

abbrev pub first_some {ℓ} : {A : Type ℓ} → Option A → Option A → Option A
first_some none o = o
first_some (some a) o = some a

-- `selectFixture`
unfoldable pub select_fixture : List ReplayFixture → Text → Option ReplayFixture
unfolding has_text to_lower
select_fixture fixtures prompt =
    first_some
      (find (λ (f : ReplayFixture). any (λ needle. has_text (lower prompt) (lower needle)) f.match)
        fixtures)
      (find (λ (f : ReplayFixture). is_empty f.match) fixtures)

-- The variables of a replay.
pub record Replaying : Type 0 where
  pub parsed : ParsedEvents
  pub observations : List DetectedViolation
  pub violation : Option DetectedViolation
  pub budget_exceeded : Bool
  pub scanned_commands : ℕ

-- The loop runs on, or has thrown with what was observed before.
pub data Replayed : Type 0 where
  went_on : Replaying → Replayed
  thrown : RunError → Replaying → Replayed

abbrev pub and_then : Replayed → (Replaying → Replayed) → Replayed
and_then (went_on r) f = f r
and_then (thrown e r) f = thrown e r

unfoldable pub from_result {ℓ} : {A : Type ℓ} → Replaying → Result A → (A → Replayed) → Replayed
from_result r (ok a) f = f a
from_result r (err e) f = thrown (other (fault_text e)) r

abbrev pub is_refused {ℓ} : {A : Type ℓ} → Option A → Bool
is_refused none = false
is_refused (some a) = true

module _ (parse : Parser) (evaluate : Evaluator) (config : RunnerConfig)
    (request : RunnerInput) where
  unfoldable pub replay_violations : Replaying → List DetectedViolation → Replaying
  unfolding first_of
  replay_violations r found = record r {
    scanned_commands = length r.parsed.commands;
    budget_exceeded =
        r.budget_exceeded || ltb config.policy_max_commands (length r.parsed.commands);
    observations = r.observations ++ found;
    violation = first_of r.violation found;
  }

  -- `applyPolicy`
  unfoldable pub replay_policy : Replaying → Replayed
  unfolding scan_commands replay_violations actor_of context_of from_result
  replay_policy r =
      from_result r
        (scan_commands evaluate (actor_of request) r.parsed.commands r.scanned_commands
          (context_of config request))
        (λ found. went_on (replay_violations r found))

  unfoldable pub replay_line : (is_cancelled : Bool) → Text → Replaying → Replayed
  unfolding replay_policy parse_codex_event_line from_result
  replay_line true line r = thrown run_cancelled r
  replay_line false line r =
      from_result r (parse_codex_event_line parse line r.parsed)
        (λ p. replay_policy (record r { parsed = p }))

  -- `for (const line of fixture.lines)`, which stops at a denial that is enforced
  unfoldable pub replay_lines : (is_cancelled : Bool) → List Text → Replaying → Replayed
  unfolding replay_line
  replay_lines is_cancelled [] r = went_on r
  replay_lines is_cancelled (line ∷ lines) r = and_then (replay_line is_cancelled line r) (λ s.
      let rest = replay_lines is_cancelled lines s in
      if is_refused s.violation && config.is_enforced then went_on s else rest)

unfoldable pub replay_failed : RunError → Replaying → Outcome
replay_failed e r =
    threw (record {
      error = e;
      network_denials = no_broker;
      observations = map observed r.observations;
    })

-- The error of a denial, which leaves the capabilities out.
unfoldable pub replay_denial : DetectedViolation → RunError
replay_denial v =
    policy_violation v.violation.rule v.command v.violation.detail (or_none v.violation.hosts) []

unfoldable pub replay_output : Replaying → Option Text → Outcome
unfolding replay_failed
replay_output r none = replay_failed (other (codes "Replay fixture produced no agent message")) r
replay_output r (some output) = finished (record {
  output = output;
  thread_id = r.parsed.thread_id;
  usage = r.parsed.usage;
  violations = map observed r.observations;
  network_denials = no_broker;
})

unfoldable pub replay_verdict : RunnerConfig → Replaying → Option DetectedViolation → Outcome
unfolding replay_failed replay_denial replay_output final_output
replay_verdict config r violation =
    let over =
      budget_exceeded config.policy_max_commands (length r.parsed.commands) r.parsed.thread_id in
    let rest =
      if r.budget_exceeded then replay_failed over r else replay_output r (final_output r.parsed) in
    elim violation [
      | none ↦ rest
      | some v ↦ if config.is_enforced then replay_failed (replay_denial v) r else rest
    ]

unfoldable pub replay_end : RunnerConfig → (is_cancelled : Bool) → Replayed → Outcome
unfolding replay_failed replay_verdict
replay_end config is_cancelled (thrown e r) = replay_failed e r
replay_end config is_cancelled (went_on r) =
    if is_cancelled then replay_failed run_cancelled r else replay_verdict config r r.violation

unfoldable pub replay_start : RunnerInput → Replaying
unfolding empty_parsed_events
replay_start request = record {
  parsed = empty_parsed_events request.thread_id;
  observations = [];
  violation = none;
  budget_exceeded = false;
  scanned_commands = 0;
}

unfoldable pub missing_fixture : List ReplayFixture → Text
unfolding join
missing_fixture fixtures =
    codes "No replay fixture matches this prompt. Available: "
    ++ join (codes ", ") (map (λ (f : ReplayFixture). f.name) fixtures)

-- `run`, on the fixtures that `load` returned. The loop does not wait, so a cancellation comes
-- before it or not at all.
unfoldable pub replay_run :
    Parser
    → Evaluator
    → RunnerConfig
    → List ReplayFixture
    → (is_cancelled : Bool) → RunnerInput
    → Outcome
unfolding select_fixture replay_lines replay_policy replay_end replay_start missing_fixture
replay_run parse evaluate config fixtures is_cancelled request =
    elim (select_fixture fixtures request.prompt) [
      | none ↦ threw (plain_failure (other (missing_fixture fixtures)))
      | some fixture ↦ replay_end config is_cancelled (
          and_then
            (replay_lines parse evaluate config request is_cancelled fixture.lines
              (replay_start request))
            (replay_policy parse evaluate config request))
    ]
