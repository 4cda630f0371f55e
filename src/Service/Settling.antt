-- ===== src/Service/Settling.antt =====
-- About the writes that end a run (`executeRun` and `settleRun` in agent-service.ts).
use code_jam.Prelude.{
  Bool-cases, find, modify_first, find-modify_first, find-test, Text, text_eq, ℕ, ◌≡◌, refl, ap,
  ◌∙◌, inl, inr, Bool, true, false, not, ◌&&◌, Option, none, some, List, arith,
}
use code_jam.Data.{AgentRun, Agent, Database, is_active, is_busy}
use code_jam.Service.Errors.{Denials, no_broker, unreadable, read}
use code_jam.Service.Agents.{is_agent, is_run}
use code_jam.Service.Evidence.{record_network_evidence}
use code_jam.Service.Runs.{fail_active, release_busy, release_in}

abbrev run_ended : Option AgentRun → Bool
run_ended none = true
run_ended (some r) = not (is_active r.status)

abbrev agent_idle : Option Agent → Bool
agent_idle none = true
agent_idle (some a) = not (is_busy a.status)

-- The run is neither queued nor running, and the agent is not busy.
abbrev pub is_settled : (run_id agent_id : Text) → Database → Bool
is_settled run_id agent_id d =
    run_ended (find (is_run run_id) d.runs) && agent_idle (find (is_agent agent_id) d.agents)

-- The database has the run and the agent.
pub record IsKnown (run_id agent_id : Text) (d : Database) : Type 0 where
  pub run : AgentRun
  pub agent : Agent
  pub has_run : find (is_run run_id) d.runs ≡ some run
  pub has_agent : find (is_agent agent_id) d.agents ≡ some agent

module _ (run_id agent_id : Text) where
  pub settled_of :
      (d : Database) {r : AgentRun} {a : Agent}
      → find (is_run run_id) d.runs ≡ some r
      → is_active r.status ≡ false
      → find (is_agent agent_id) d.agents ≡ some a
      → is_busy a.status ≡ false
      → is_settled run_id agent_id d ≡ true
  settled_of d h i k j = rw (h, i, k, j) refl

  pub find_run-write :
      (f : AgentRun → AgentRun) (rs : List AgentRun) {r : AgentRun}
      → find (is_run run_id) rs ≡ some r
      → (f r).id ≡ r.id
      → find (is_run run_id) (modify_first (is_run run_id) f rs) ≡ some (f r)
  find_run-write f rs {r} h same =
      find-modify_first (is_run run_id) f rs h
        (ap (λ i. text_eq i run_id) same ∙ find-test (is_run run_id) rs h)

  pub find_agent-write :
      (f : Agent → Agent) (xs : List Agent) {a : Agent}
      → find (is_agent agent_id) xs ≡ some a
      → (f a).id ≡ a.id
      → find (is_agent agent_id) (modify_first (is_agent agent_id) f xs) ≡ some (f a)
  find_agent-write f xs {a} h same =
      find-modify_first (is_agent agent_id) f xs h
        (ap (λ i. text_eq i agent_id) same ∙ find-test (is_agent agent_id) xs h)

  -- Evidence on a run changes neither its status nor the agents.
  pub evidence-find :
      (fresh : ℕ → Text) (n : ℕ) (o : Denials) (at : ℕ) (d : Database) {r : AgentRun}
      → find (is_run run_id) d.runs ≡ some r
      → (r' : AgentRun) × (find
            (is_run run_id)
            (record_network_evidence fresh n run_id agent_id o at d).runs
          ≡ some r')
        × (r'.status ≡ r.status)
        × (r'.id ≡ r.id)
  unfolding record_network_evidence
  evidence-find fresh n no_broker at d {r} h = (r, h, refl, refl)
  evidence-find fresh n unreadable at d {r} h = (_, find_run-write _ d.runs h refl, refl, refl)
  evidence-find fresh n (read os) at d {r} h = (_, find_run-write _ d.runs h refl, refl, refl)

  pub evidence-agents :
      (fresh : ℕ → Text) (n : ℕ) (o : Denials) (at : ℕ) (d : Database)
      → (record_network_evidence fresh n run_id agent_id o at d).agents ≡ d.agents
  unfolding record_network_evidence
  evidence-agents fresh n no_broker at d = refl
  evidence-agents fresh n unreadable at d = refl
  evidence-agents fresh n (read os) at d = refl

  fail_active-ended :
      (reason : Text) (at : ℕ) (r : AgentRun) → is_active (fail_active reason at r).status ≡ false
  fail_active-ended reason at r = elim (Bool-cases (is_active r.status)) [
    | inl e ↦ rw e refl
    | inr e ↦ rw (e, e) refl
  ]

  release_busy-idle :
      (reason : Text) (at : ℕ) (a : Agent) → is_busy (release_busy reason at a).status ≡ false
  release_busy-idle reason at a = elim (Bool-cases (is_busy a.status)) [
    | inl e ↦ rw e refl
    | inr e ↦ rw (e, e) refl
  ]

  fail_active-id : (reason : Text) (at : ℕ) (r : AgentRun) → (fail_active reason at r).id ≡ r.id
  fail_active-id reason at r = ground arith

  release_busy-id : (reason : Text) (at : ℕ) (a : Agent) → (release_busy reason at a).id ≡ a.id
  release_busy-id reason at a = ground arith

  pub release_in-IsSettled :
      (reason : Text) (at : ℕ) (d : Database)
      → IsKnown run_id agent_id d
      → is_settled run_id agent_id (release_in run_id agent_id reason at d) ≡ true
  unfolding release_in
  release_in-IsSettled reason at d k =
      settled_of (release_in run_id agent_id reason at d)
        (find_run-write (fail_active reason at) d.runs k.has_run (fail_active-id reason at k.run))
        (fail_active-ended reason at k.run)
        (find_agent-write (release_busy reason at) d.agents k.has_agent
          (release_busy-id reason at k.agent))
        (release_busy-idle reason at k.agent)

  pub release_in-IsKnown :
      (reason : Text) (at : ℕ) (d : Database)
      → IsKnown run_id agent_id d
      → IsKnown run_id agent_id (release_in run_id agent_id reason at d)
  unfolding release_in
  release_in-IsKnown reason at d k = record {
    run = fail_active reason at k.run;
    agent = release_busy reason at k.agent;
    has_run =
        find_run-write (fail_active reason at) d.runs k.has_run (fail_active-id reason at k.run);
    has_agent =
        find_agent-write (release_busy reason at) d.agents k.has_agent
          (release_busy-id reason at k.agent);
  }
