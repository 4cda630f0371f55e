-- ===== src/Service/Releasing.antt =====
-- About `settleRun` (agent-service.ts): what it leaves in memory.
use code_jam.Prelude.{
  sym, find, modify_first, Text, codes, Fault, Result, ok, err, ℕ, ◌≡◌, refl, ap, ◌∙◌, ◌⊎◌, inl,
  inr, true, [], ◌∷◌, ◌++◌, arith,
}
use code_jam.Data.{Database, is_active}
use code_jam.Store.Log.{World}
use code_jam.Store.Json.{mutate, prune}
use code_jam.Store.Json.Atomic.{committed, commit_done, mutate_atomic}
use code_jam.Service.Errors.{RunnerResult}
use code_jam.Service.Agents.{is_agent, is_run, update}
use code_jam.Service.Runs.{
  release_in, release, settle_run, open_in, complete_found, complete_in, fault_message,
  completed_run, completed_agent, assistant_message,
}
use code_jam.Service.Settling.{
  is_settled, IsKnown, settled_of, find_run-write, find_agent-write, evidence-find, evidence-agents,
  release_in-IsSettled, release_in-IsKnown,
}

-- A write that took effect left what it made, pruned.
pub update-memory :
    (f : Database → Database) (w w' : World) (u : Unit {0})
    → mutate (update f) w ≡ (ok u, w')
    → w'.memory ≡ committed w (f w.memory)
unfolding mutate
update-memory f w w' u h =
    let (_, _, memory, _, _, _) = commit_done tt u (f w.memory) w w' h in memory

err-inj : {e f : Fault} → ◌≡◌ {A = Result (Unit {0})} (err e) (err f) → e ≡ f
err-inj h = cc

module _ (run_id agent_id : Text) where
  pub committed-settled :
      (w : World) (d : Database)
      → is_settled run_id agent_id (committed w d) ≡ is_settled run_id agent_id d
  unfolding prune
  committed-settled w d = refl

  pub committed-IsKnown :
      (w : World) (d : Database)
      → IsKnown run_id agent_id d
      → IsKnown run_id agent_id (committed w d)
  unfolding prune
  committed-IsKnown w d k = record {
    run = k.run;
    agent = k.agent;
    has_run = k.has_run;
    has_agent = k.has_agent;
  }

  pub settle_run-memory :
      (apply : Database → Database) (w w' : World) (u : Unit {0})
      → settle_run run_id agent_id apply w ≡ (ok u, w')
      → w'.memory ≡ committed w (apply w.memory)
  unfolding settle_run release
  settle_run-memory apply w w' u h = go (mutate (update apply) w).0 refl
    where
      go :
          (r : Result (Unit {0}))
          → (mutate (update apply) w).0 ≡ r
          → w'.memory ≡ committed w (apply w.memory)
      go (ok v) e = update-memory apply w w' v (ground (arith, h))
      go (err f) e = ground arith

  -- What the smaller write does to the memory: nothing, or it frees the run and the agent.
  pub record WasReleased (before after : Database) : Type 0 where
    pub settled : is_settled run_id agent_id after ≡ true
    pub known : IsKnown run_id agent_id after

  pub release-memory :
      (reason : Text) (at : ℕ) (w w' : World) (r : Result (Unit {0}))
      → IsKnown run_id agent_id w.memory
      → mutate (update (release_in run_id agent_id reason at)) w ≡ (r, w')
      → (w'.memory ≡ w.memory) ⊎ WasReleased w.memory w'.memory
  release-memory reason at w w' (ok u) k h =
      let smaller = release_in run_id agent_id reason at in
      let left = update-memory smaller w w' u h in
      inr (record {
        settled =
            ap (is_settled run_id agent_id) left
            ∙ (committed-settled w (smaller w.memory)
                ∙ release_in-IsSettled run_id agent_id reason at w.memory k);
        known = rw left (
            committed-IsKnown w (smaller w.memory)
              (release_in-IsKnown run_id agent_id reason at w.memory k));
      })
  release-memory reason at w w' (err f) k h =
      inl (mutate_atomic (update (release_in run_id agent_id reason at)) w w' f h).0

  pub settle_run-failed :
      (apply : Database → Database) (w w' : World) (e : Fault)
      → IsKnown run_id agent_id w.memory
      → settle_run run_id agent_id apply w ≡ (err e, w')
      → (w'.memory ≡ w.memory) ⊎ WasReleased w.memory w'.memory
  unfolding settle_run release
  settle_run-failed apply w w' e k h = go (mutate (update apply) w).0 refl
    where
      go :
          (r : Result (Unit {0}))
          → (mutate (update apply) w).0 ≡ r
          → (w'.memory ≡ w.memory) ⊎ WasReleased w.memory w'.memory
      go (ok v) q = ground arith
      go (err f) q =
          let w1 = (mutate (update apply) w).1 in
          let same = (mutate_atomic (update apply) w w1 f (ap (λ r. (r, w1)) q)).0 in
          let reason = codes "Run outcome could not be recorded: " ++ fault_message f in
          let smaller = mutate (update (release_in run_id agent_id reason w1.clock)) w1 in
          let left : smaller.1 ≡ w' = ap (λ p. p.1) (rw (q, settle_run) at h) in
          rw (← same) (
            release-memory reason w1.clock w1 w' smaller.0 (rw same k)
              (ap (λ v. (smaller.0, v)) left))

  -- What the error of a refused write makes the smaller write.
  abbrev pub release_after : Fault → World → Result (Unit {0}) × World
  release_after e w =
      mutate
        (update (
          release_in run_id agent_id
            (codes "Run outcome could not be recorded: " ++ fault_message e) w.clock))
        w

  -- The smaller write was refused as well and changed nothing, or the run has ended.
  abbrev pub AfterRelease : Fault → (before refused after : World) → Type 0
  AfterRelease e w w1 w' =
      ((f : Fault) × (release_after e w1 ≡ (err f, w')) × (w'.memory ≡ w.memory))
      ⊎ (is_settled run_id agent_id w'.memory ≡ true)

  release_after-cases :
      (e : Fault) (w w1 w' : World) (r : Result (Unit {0}))
      → IsKnown run_id agent_id w.memory
      → w1.memory ≡ w.memory
      → release_after e w1 ≡ (r, w')
      → AfterRelease e w w1 w'
  release_after-cases e w w1 w' (err f) k same h =
      let smaller = update (
        release_in run_id agent_id (codes "Run outcome could not be recorded: " ++ fault_message e)
          w1.clock) in
      inl (f, h, (mutate_atomic smaller w1 w' f h).0 ∙ same)
  release_after-cases e w w1 w' (ok u) k same h =
      let reason = codes "Run outcome could not be recorded: " ++ fault_message e in
      let smaller = release_in run_id agent_id reason w1.clock in
      inr (
        ap (is_settled run_id agent_id) (update-memory smaller w1 w' u h)
        ∙ committed-settled w1 (smaller w1.memory)
        ∙ release_in-IsSettled run_id agent_id reason w1.clock w1.memory (rw same k))

  -- If the write of a run's end throws, then that write was refused with this error and left the
  -- database in memory as it was; and either the smaller write that would free the run and its agent
  -- was refused too, so that the database in memory is still what it was, or the run has ended and its
  -- agent is free.
  pub settle_run-released :
      (apply : Database → Database) (w w' : World) (e : Fault)
      → IsKnown run_id agent_id w.memory
      → settle_run run_id agent_id apply w ≡ (err e, w')
      → (w1 : World) × (mutate (update apply) w ≡ (err e, w1))
        × (w1.memory ≡ w.memory)
        × AfterRelease e w w1 w'
  unfolding settle_run release
  settle_run-released apply w w' e k h = go (mutate (update apply) w).0 refl
    where
      go :
          (r : Result (Unit {0}))
          → (mutate (update apply) w).0 ≡ r
          → (w1 : World) × (mutate (update apply) w ≡ (err e, w1))
            × (w1.memory ≡ w.memory)
            × AfterRelease e w w1 w'
      go (ok v) q = ground arith
      go (err f) q =
          let w1 = (mutate (update apply) w).1 in
          let released : ◌≡◌ {A = Result (Unit {0}) × World} (err f, (release_after f w1).1)
              (err e, w') =
            rw (q, settle_run) at h in
          let same_error : f ≡ e = err-inj (ap (λ p. p.0) released) in
          let refused : mutate (update apply) w ≡ (err e, w1) =
            ap (λ r. (r, w1)) (q ∙ ap err same_error) in
          let same = (mutate_atomic (update apply) w w1 e refused).0 in
          let left : (release_after e w1).1 ≡ w' =
            ap (λ g. (release_after g w1).1) (sym same_error) ∙ ap (λ p. p.1) released in
          (
            w1,
            refused,
            same,
            release_after-cases e w w1 w' (release_after e w1).0 k same
                (ap (λ v. ((release_after e w1).0, v)) left),
          )

  pub settle_run-IsKnown :
      (apply : Database → Database) (w w' : World) (e : Fault)
      → IsKnown run_id agent_id w.memory
      → settle_run run_id agent_id apply w ≡ (err e, w')
      → IsKnown run_id agent_id w'.memory
  settle_run-IsKnown apply w w' e k h = elim (settle_run-failed apply w w' e k h) [
    | inl same ↦ rw same k
    | inr freed ↦ freed.known
  ]

  pub open_in-IsKnown :
      (at : ℕ) (d : Database)
      → IsKnown run_id agent_id d
      → IsKnown run_id agent_id (open_in run_id at d)
  unfolding open_in
  open_in-IsKnown at d k = record {
    run = _;
    agent = k.agent;
    has_run = find_run-write run_id agent_id _ d.runs k.has_run refl;
    has_agent = k.has_agent;
  }

  pub complete_found-IsSettled :
      (fresh : ℕ → Text) (result : RunnerResult) (at : ℕ) (d : Database)
      → IsKnown run_id agent_id d
      → is_settled run_id agent_id (complete_found fresh run_id agent_id result at d) ≡ true
  unfolding complete_found
  complete_found-IsSettled fresh result at d k =
      let written = record d {
        runs = modify_first (is_run run_id) (completed_run result at) d.runs;
        agents = modify_first (is_agent agent_id) (completed_agent result at) d.agents;
        messages = d.messages ++ assistant_message (fresh 0) agent_id run_id result at ∷ [];
      } in
      let (r, found, status, _) =
        evidence-find run_id agent_id fresh 1 result.network_denials at written
          (find_run-write run_id agent_id (completed_run result at) d.runs k.has_run refl) in
      settled_of run_id agent_id (complete_found fresh run_id agent_id result at d) found
        (ap is_active status)
        (ap (find (is_agent agent_id))
            (evidence-agents run_id agent_id fresh 1 result.network_denials at written)
          ∙ find_agent-write run_id agent_id (completed_agent result at) d.agents k.has_agent refl)
        refl

  pub complete_in-IsSettled :
      (fresh : ℕ → Text) (result : RunnerResult) (at : ℕ) (d : Database)
      → IsKnown run_id agent_id d
      → is_settled run_id agent_id (complete_in fresh run_id agent_id result at d) ≡ true
  unfolding complete_in
  complete_in-IsSettled fresh result at d k =
      rw (k.has_run, complete_in, k.has_agent) (complete_found-IsSettled fresh result at d k)
