-- ===== src/Service/Conclusion.antt =====
-- About the end of `executeRun` (agent-service.ts).
use code_jam.Prelude.{
  if◌then◌else◌, Text, Result, ok, err, Exec, ◌>>=◌, ℕ, ◌≡◌, refl, sym, ap, ◌∙◌, Bool, true, false,
  List, arith,
}
use code_jam.Data.{AgentRun, Agent, Database}
use code_jam.Store.Log.{World, all_events, drop_expired}
use code_jam.Store.Json.{snapshot}
use code_jam.Service.Errors.{RunFailure, Config, other, run_cancelled}
use code_jam.Service.Runs.{settle_run, open_in, complete_in, fault_message}
use code_jam.Service.Failing.{fail_in, failed_agent}
use code_jam.Service.Outcomes.{failed-IsSettled}
use code_jam.Service.Settling.{
  is_settled, IsKnown, settled_of, find_run-write, find_agent-write, evidence-find,
}
use code_jam.Service.Execution.{
  Outcome, finished, threw, RunnerInput, plain_failure, settle_failure, conclude, execute_run,
  runner_input,
}
use code_jam.Service.Releasing.{
  committed-settled, committed-IsKnown, settle_run-memory, settle_run-IsKnown, open_in-IsKnown,
  complete_in-IsSettled,
}

module _ (config : Config) (fresh : ℕ → Text) (agent : Agent) (run : AgentRun)
    (is_grant_run : Bool) where
  fail_in-IsSettled :
      (f : RunFailure) (at : ℕ) (d : Database)
      → IsKnown run.id agent.id d
      → is_settled run.id agent.id (fail_in config fresh run agent.id is_grant_run f at d) ≡ true
  unfolding fail_in failed_agent
  fail_in-IsSettled f at d k =
      let (r, found, _, same) =
        evidence-find run.id agent.id fresh 0 f.network_denials at d k.has_run in
      let (ended, idle) = failed-IsSettled config is_grant_run f.error at k.agent in
      settled_of run.id agent.id (fail_in config fresh run agent.id is_grant_run f at d)
        (find_run-write run.id agent.id _ _ found refl) ended
        (find_agent-write run.id agent.id (failed_agent config is_grant_run f.error at) d.agents
          k.has_agent refl)
        idle

  settle_failure-IsSettled :
      (f : RunFailure) (w w' : World) (u : Unit {0})
      → IsKnown run.id agent.id w.memory
      → settle_failure config fresh agent run is_grant_run f w ≡ (ok u, w')
      → is_settled run.id agent.id w'.memory ≡ true
  unfolding settle_failure
  settle_failure-IsSettled f w w' u k h =
      ap (is_settled run.id agent.id) (
        settle_run-memory run.id agent.id (fail_in config fresh run agent.id is_grant_run f w.clock)
          w w' u h)
      ∙ (committed-settled run.id agent.id w
            (fail_in config fresh run agent.id is_grant_run f w.clock w.memory)
          ∙ fail_in-IsSettled f w.clock w.memory k)

  conclude-IsSettled :
      (o : Outcome) (w w' : World) (u : Unit {0})
      → IsKnown run.id agent.id w.memory
      → conclude config fresh agent run is_grant_run o w ≡ (ok u, w')
      → is_settled run.id agent.id w'.memory ≡ true
  unfolding conclude
  conclude-IsSettled (threw f) w w' u k h = settle_failure-IsSettled f w w' u k h
  conclude-IsSettled (finished result) w w' u k h = go (settle_run run.id agent.id write w).0 refl
    where
      write : Database → Database
      write = complete_in fresh run.id agent.id result w.clock

      go :
          (r : Result (Unit {0}))
          → (settle_run run.id agent.id write w).0 ≡ r
          → is_settled run.id agent.id w'.memory ≡ true
      go (ok v) q =
          let w1 = (settle_run run.id agent.id write w).1 in
          let left : w1 ≡ w' = ap (λ p. p.1) (rw (q, conclude) at h) in
          ap (λ v. is_settled run.id agent.id v.memory) (sym left)
          ∙ (ap (is_settled run.id agent.id)
                (settle_run-memory run.id agent.id write w w1 v (ap (λ r. (r, w1)) q))
              ∙ (committed-settled run.id agent.id w (write w.memory)
                  ∙ complete_in-IsSettled run.id agent.id fresh result w.clock w.memory k))
      go (err e) q =
          let w1 = (settle_run run.id agent.id write w).1 in
          settle_failure-IsSettled (plain_failure (other (fault_message e))) w1 w' u
            (settle_run-IsKnown run.id agent.id write w w1 e k (ap (λ r. (r, w1)) q))
            (rw (q, conclude) at h)

  pub opened-IsKnown :
      (w w' : World) (u : Unit {0})
      → IsKnown run.id agent.id w.memory
      → settle_run run.id agent.id (open_in run.id w.clock) w ≡ (ok u, w')
      → IsKnown run.id agent.id w'.memory
  opened-IsKnown w w' u k h =
      rw (settle_run-memory run.id agent.id (open_in run.id w.clock) w w' u h) (
        committed-IsKnown run.id agent.id w (open_in run.id w.clock w.memory)
          (open_in-IsKnown run.id agent.id w.clock w.memory k))

  -- An execution that returns leaves the run neither queued nor running and its agent not busy,
  -- whatever the runner returns or throws, whether a cancellation was asked for, and whichever
  -- writes failed on the way.
  pub execute_run-IsSettled :
      (extra_hosts : List Text) (is_cancel_requested : Bool) (runner : RunnerInput → Outcome)
      (w w' : World) (u : Unit {0})
      → IsKnown run.id agent.id w.memory
      → execute_run config fresh agent run is_grant_run extra_hosts is_cancel_requested runner w
        ≡ (ok u, w')
      → is_settled run.id agent.id w'.memory ≡ true
  unfolding execute_run snapshot all_events drop_expired
  execute_run-IsSettled extra_hosts is_cancel_requested runner w w' u k h = go (opened w).0 refl
    where
      opened : Exec World (Unit {0})
      opened v = settle_run run.id agent.id (open_in run.id v.clock) v

      after :
          (c : Bool) (v : World)
          → IsKnown run.id agent.id v.memory
          → (if c
                then conclude config fresh agent run is_grant_run
                    (threw (plain_failure run_cancelled))
                else (do
                  d ← snapshot
                  conclude config fresh agent run is_grant_run
                      (runner (runner_input agent run extra_hosts d.allowlist))))
              v
            ≡ (ok u, w')
          → is_settled run.id agent.id w'.memory ≡ true
      after true v known e = conclude-IsSettled (threw (plain_failure run_cancelled)) v w' u known e
      after false v known e = conclude-IsSettled _ (snapshot v).1 w' u known e

      go : (r : Result (Unit {0})) → (opened w).0 ≡ r → is_settled run.id agent.id w'.memory ≡ true
      go (ok v) q =
          let w1 = (opened w).1 in
          after is_cancel_requested w1 (opened-IsKnown w w1 v k (ap (λ r. (r, w1)) q))
            (rw (q, execute_run) at h)
      go (err e) q = ground arith
