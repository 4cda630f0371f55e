-- ===== src/Service/Completing.antt =====
-- Which runs end completed (`executeRun` in agent-service.ts).
use code_jam.Prelude.{
  if◌then◌else◌, find, Text, Result, ok, err, Exec, ◌>>=◌, ℕ, ◌≡◌, refl, sym, ap, ◌∙◌, Bool, true,
  false, Option, none, some, List, arith,
}
use mathlib.Core.Path.{subst}
use code_jam.Data.{completed, RunStatus, Agent, AgentRun, Database}
use code_jam.Store.Log.{World, drop_expired, all_events}
use code_jam.Store.Json.{prune, snapshot}
use code_jam.Service.Errors.{Config, RunFailure, run_cancelled, RunError, RunnerResult}
use code_jam.Service.Agents.{is_run}
use code_jam.Service.Runs.{settle_run, open_in}
use code_jam.Service.Failing.{failed_status, fail_in}
use code_jam.Service.Execution.{
  Outcome, finished, threw, RunnerInput, plain_failure, runner_input, settle_failure, conclude,
  execute_run,
}
use code_jam.Service.Settling.{IsKnown, find_run-write, evidence-find}
use code_jam.Service.Releasing.{settle_run-memory}
use code_jam.Service.Conclusion.{opened-IsKnown}

abbrev is_completed : RunStatus → Bool
is_completed completed = true
is_completed _ = false

abbrev found_completed : Option AgentRun → Bool
found_completed none = false
found_completed (some r) = is_completed r.status

-- The run is stored as completed.
abbrev pub run_completed : Text → Database → Bool
run_completed run_id d = found_completed (find (is_run run_id) d.runs)

failed_status-uncompleted :
    (config : Config) (is_grant_run : Bool) (e : RunError)
    → is_completed (failed_status config is_grant_run e) ≡ false
unfolding failed_status
failed_status-uncompleted config is_grant_run e = ground arith

module _ (config : Config) (fresh : ℕ → Text) (agent : Agent) (run : AgentRun)
    (is_grant_run : Bool) where
  fail_in-uncompleted :
      (f : RunFailure) (at : ℕ) (d : Database)
      → IsKnown run.id agent.id d
      → run_completed run.id (fail_in config fresh run agent.id is_grant_run f at d) ≡ false
  unfolding fail_in
  fail_in-uncompleted f at d k =
      let (r, found, _, _) =
        evidence-find run.id agent.id fresh 0 f.network_denials at d k.has_run in
      ap found_completed (find_run-write run.id agent.id _ _ found refl)
      ∙ failed_status-uncompleted config is_grant_run f.error

  settle_failure-uncompleted :
      (f : RunFailure) (w w' : World) (u : Unit {0})
      → IsKnown run.id agent.id w.memory
      → settle_failure config fresh agent run is_grant_run f w ≡ (ok u, w')
      → run_completed run.id w'.memory ≡ false
  unfolding settle_failure prune
  settle_failure-uncompleted f w w' u k h =
      let write = fail_in config fresh run agent.id is_grant_run f w.clock in
      ap (run_completed run.id) (settle_run-memory run.id agent.id write w w' u h)
      ∙ fail_in-uncompleted f w.clock w.memory k

  conclude-completed :
      (o : Outcome) (w w' : World) (u : Unit {0})
      → IsKnown run.id agent.id w.memory
      → conclude config fresh agent run is_grant_run o w ≡ (ok u, w')
      → run_completed run.id w'.memory ≡ true
      → (result : RunnerResult) × (o ≡ finished result)
  unfolding conclude
  conclude-completed (finished result) w w' u k h done = (result, refl)
  conclude-completed (threw f) w w' u k h done =
      let broken : true ≡ false = sym done ∙ settle_failure-uncompleted f w w' u k h in cc broken

  -- What ended completed was returned by the runner.
  pub execute_run-completed :
      (extra_hosts : List Text) (is_cancel_requested : Bool) (runner : RunnerInput → Outcome)
      (w w' : World) (u : Unit {0})
      → IsKnown run.id agent.id w.memory
      → execute_run config fresh agent run is_grant_run extra_hosts is_cancel_requested runner w
        ≡ (ok u, w')
      → run_completed run.id w'.memory ≡ true
      → (result : RunnerResult) × (runner (runner_input agent run extra_hosts w.memory.allowlist)
          ≡ finished result)
  unfolding execute_run snapshot all_events drop_expired open_in prune
  execute_run-completed extra_hosts is_cancel_requested runner w w' u k h done =
      go (opened w).0 refl
    where
      opened : Exec World (Unit {0})
      opened v = settle_run run.id agent.id (open_in run.id v.clock) v

      Returned : List Text → Type 0
      Returned allowlist =
          (result : RunnerResult) × (runner (runner_input agent run extra_hosts allowlist)
            ≡ finished result)

      after :
          (c : Bool) (v : World)
          → IsKnown run.id agent.id v.memory
          → (if c
                then conclude config fresh agent run is_grant_run
                    (threw (plain_failure run_cancelled))
                else (do
                  d ← snapshot
                  conclude config fresh agent run is_grant_run
                      (runner (runner_input agent run extra_hosts d.allowlist))))
              v
            ≡ (ok u, w')
          → Returned v.memory.allowlist
      after true v known e =
          let (result, broken) =
            conclude-completed (threw (plain_failure run_cancelled)) v w' u known e done in
          cc broken
      after false v known e =
          let (result, same) = conclude-completed _ (snapshot v).1 w' u known e done in
          (result, same)

      go : (r : Result (Unit {0})) → (opened w).0 ≡ r → Returned w.memory.allowlist
      go (ok v) q =
          let w1 = (opened w).1 in
          let opens =
            settle_run-memory run.id agent.id (open_in run.id w.clock) w w1 v
              (ap (λ r. (r, w1)) q) in
          subst Returned (ap (λ (d : Database). d.allowlist) opens) (
            after is_cancel_requested w1
              (opened-IsKnown config fresh agent run is_grant_run w w1 v k (ap (λ r. (r, w1)) q))
              (rw (q, execute_run) at h))
      go (err e) q = ground arith
