-- ===== src/Service/System/Unchanged.antt =====
-- The writes of agent-service.ts that do not touch the approvals.
use code_jam.Prelude.{Option-cases, find, Text, Result, ok, err, ℕ, ◌≡◌, refl, inl, inr, arith}
use code_jam.Data.{AgentStatus, Agent, Database}
use code_jam.Service.Errors.{Denials, no_broker, unreadable, read, RunnerResult}
use code_jam.Service.Agents.{
  is_agent, is_run, find_agent, UpdateAgentInput, update_agent_in, set_status_in,
}
use code_jam.Service.Evidence.{record_network_evidence}
use code_jam.Service.Runs.{send_in, complete_in, complete_found}

pub update_agent_in-approvals :
    (id : Text) (at : ℕ) (input : UpdateAgentInput) (d d' : Database) (agent : Agent)
    → update_agent_in id at input d ≡ ok (agent, d')
    → d'.approvals ≡ d.approvals
unfolding update_agent_in
update_agent_in-approvals id at input d d' agent h = go (find_agent id d) refl
  where
    go : (r : Result Agent) → find_agent id d ≡ r → d'.approvals ≡ d.approvals
    go (ok a) e = ground arith
    go (err f) e = ground arith

pub set_status_in-approvals :
    (id : Text) (at : ℕ) (status : AgentStatus) (d d' : Database) (agent : Agent)
    → set_status_in id at status d ≡ ok (agent, d')
    → d'.approvals ≡ d.approvals
unfolding set_status_in
set_status_in-approvals id at status d d' agent h = go (find_agent id d) refl
  where
    go : (r : Result Agent) → find_agent id d ≡ r → d'.approvals ≡ d.approvals
    go (ok a) e = ground arith
    go (err f) e = ground arith

pub send_in-approvals :
    (run_id message_id agent_id prompt : Text) (at : ℕ) (d d' : Database) (agent : Agent)
    → send_in run_id message_id agent_id prompt at d ≡ ok (agent, d')
    → d'.approvals ≡ d.approvals
unfolding send_in
send_in-approvals run_id message_id agent_id prompt at d d' agent h =
    go (find_agent agent_id d) refl
  where
    go : (r : Result Agent) → find_agent agent_id d ≡ r → d'.approvals ≡ d.approvals
    go (ok a) e = ground arith
    go (err f) e = ground arith

pub evidence-approvals :
    (fresh : ℕ → Text) (n : ℕ) (run_id agent_id : Text) (o : Denials) (at : ℕ) (d : Database)
    → (record_network_evidence fresh n run_id agent_id o at d).approvals ≡ d.approvals
unfolding record_network_evidence
evidence-approvals fresh n run_id agent_id no_broker at d = refl
evidence-approvals fresh n run_id agent_id unreadable at d = refl
evidence-approvals fresh n run_id agent_id (read os) at d = refl

pub complete_in-approvals :
    (fresh : ℕ → Text) (run_id agent_id : Text) (result : RunnerResult) (at : ℕ) (d : Database)
    → (complete_in fresh run_id agent_id result at d).approvals ≡ d.approvals
unfolding complete_in complete_found
complete_in-approvals fresh run_id agent_id result at d =
    elim (Option-cases (find (is_run run_id) d.runs)) [
      | inl e ↦ rw (e, complete_in) refl
      | inr (r, e) ↦ elim (Option-cases (find (is_agent agent_id) d.agents)) [
        | inl f ↦ rw (e, complete_in, f) refl
        | inr (a, f) ↦
            rw (e, complete_in, f)
              (evidence-approvals fresh 1 run_id agent_id result.network_denials at _)
      ]
    ]
