-- ===== src/Service/System/Distinct.antt =====
-- About the standing allowlist of every database that the service can reach (agent-service.ts).
use code_jam.Prelude.{
  ltb, Bool-cases, if_rule, Option-cases, length, keep, find, ok-inj, Text, includes, http, Result,
  ok, err, bind-eq-ok, ℕ, ◌≡◌, refl, inl, inr, Bool, true, false, ◌&&◌, ◌||◌, Option, List, [], ◌∷◌,
  arith,
}
use mathlib.Core.Path.{subst}
use code_jam.Data.{AgentStatus, Agent, AgentRun, ApprovalRequest, Database, is_busy, is_stopped}
use code_jam.Store.Json.{prune}
use code_jam.Service.Errors.{
  Principal, Config, Denials, no_broker, unreadable, read, RunnerResult, RunFailure,
}
use code_jam.Service.Agents.{
  is_agent, is_run, find_agent, recover, UpdateAgentInput, update_agent_in, set_status_in,
  delete_agent_in,
}
use code_jam.Service.Allowlist.{remove_host, add_host_in, remove_host_in}
use code_jam.Service.Approvals.{pending_approval, approve_in, deny_in, Grant}
use code_jam.Service.Evidence.{record_network_evidence}
use code_jam.Service.Runs.{send_in, open_in, complete_in, complete_found, release_in}
use code_jam.Service.Failing.{fail_in}
use code_jam.Service.Allowing.{is_distinct, is_distinct-add_host, is_distinct-widen}
use code_jam.Service.System.{
  Step, recovered, created, updated, status_set, deleted, host_added, host_removed, sent,
  run_opened, run_completed, run_failed, run_released, request_approved, request_denied, kept,
  restarted, Reachable, start, later,
}

abbrev SameHosts : Database → Database → Type 0
SameHosts d d' = d'.allowlist ≡ d.allowlist

update_agent_in-SameHosts :
    (id : Text) (at : ℕ) (input : UpdateAgentInput) (d d' : Database) (agent : Agent)
    → update_agent_in id at input d ≡ ok (agent, d')
    → SameHosts d d'
unfolding update_agent_in
update_agent_in-SameHosts id at input d d' agent h = go (find_agent id d) refl
  where
    go : (r : Result Agent) → find_agent id d ≡ r → SameHosts d d'
    go (ok a) e = ground arith
    go (err f) e = ground arith

set_status_in-SameHosts :
    (id : Text) (at : ℕ) (status : AgentStatus) (d d' : Database) (agent : Agent)
    → set_status_in id at status d ≡ ok (agent, d')
    → SameHosts d d'
unfolding set_status_in
set_status_in-SameHosts id at status d d' agent h = go (find_agent id d) refl
  where
    go : (r : Result Agent) → find_agent id d ≡ r → SameHosts d d'
    go (ok a) e = ground arith
    go (err f) e = ground arith

send_in-SameHosts :
    (run_id message_id agent_id prompt : Text) (at : ℕ) (d d' : Database) (agent : Agent)
    → send_in run_id message_id agent_id prompt at d ≡ ok (agent, d')
    → SameHosts d d'
unfolding send_in
send_in-SameHosts run_id message_id agent_id prompt at d d' agent h =
    go (find_agent agent_id d) refl
  where
    go : (r : Result Agent) → find_agent agent_id d ≡ r → SameHosts d d'
    go (ok a) e = ground arith
    go (err f) e = ground arith

deny_in-SameHosts :
    (id : Text) (principal : Option Principal) (reason : Text) (at : ℕ) (d d' : Database)
    (a : ApprovalRequest)
    → deny_in id principal reason at d ≡ ok (a, d')
    → SameHosts d d'
unfolding deny_in
deny_in-SameHosts id principal reason at d d' a h = go (pending_approval id d) refl
  where
    go : (r : Result ApprovalRequest) → pending_approval id d ≡ r → SameHosts d d'
    go (ok a) e = ground arith
    go (err f) e = ground arith

evidence-SameHosts :
    (fresh : ℕ → Text) (n : ℕ) (run_id agent_id : Text) (o : Denials) (at : ℕ) (d : Database)
    → SameHosts d (record_network_evidence fresh n run_id agent_id o at d)
unfolding record_network_evidence
evidence-SameHosts fresh n run_id agent_id no_broker at d = refl
evidence-SameHosts fresh n run_id agent_id unreadable at d = refl
evidence-SameHosts fresh n run_id agent_id (read os) at d = refl

complete_in-SameHosts :
    (fresh : ℕ → Text) (run_id agent_id : Text) (result : RunnerResult) (at : ℕ) (d : Database)
    → SameHosts d (complete_in fresh run_id agent_id result at d)
unfolding complete_in complete_found
complete_in-SameHosts fresh run_id agent_id result at d =
    elim (Option-cases (find (is_run run_id) d.runs)) [
      | inl e ↦ rw (e, complete_in) refl
      | inr (r, e) ↦ elim (Option-cases (find (is_agent agent_id) d.agents)) [
        | inl f ↦ rw (e, complete_in, f) refl
        | inr (a, f) ↦
            rw (e, complete_in, f)
              (evidence-SameHosts fresh 1 run_id agent_id result.network_denials at _)
      ]
    ]

includes-keep :
    (p : Text → Bool) (x : Text) (xs : List Text)
    → includes x xs ≡ false
    → includes x (keep p xs) ≡ false
includes-keep p x [] h = refl
includes-keep p x (y ∷ xs) h = ground (arith, includes-keep p x xs)

is_distinct-keep :
    (p : Text → Bool) (xs : List Text) → is_distinct xs ≡ true → is_distinct (keep p xs) ≡ true
is_distinct-keep p [] h = refl
is_distinct-keep p (x ∷ xs) h = ground (arith, includes-keep p x xs, is_distinct-keep p xs)

abbrev pub ListsOnce : Database → Type 0
ListsOnce d = is_distinct d.allowlist ≡ true

approve_in-ListsOnce :
    (id run_id : Text) (principal : Option Principal) (reason : Text) (add_to_allowlist : Bool)
    (at : ℕ) (d d' : Database) (g : Grant)
    → approve_in id run_id principal reason add_to_allowlist at d ≡ ok (g, d')
    → ListsOnce d
    → ListsOnce d'
unfolding approve_in
approve_in-ListsOnce id run_id principal reason add_to_allowlist at d d' g e h =
    let (request, _, e1) = bind-eq-ok (pending_approval id d) _ e in
    let (agent, _, e2) = bind-eq-ok (find_agent request.agent_id d) _ e1 in
    elim (Bool-cases (is_busy agent.status || is_stopped agent.status)) [
      | inl b ↦ (let broken : err (http 409) ≡ ok (g, d') = rw b at e2 in cc broken)
      | inr b ↦
          subst (λ p. ListsOnce p.1) (ok-inj (rw b at e2))
            (if_rule (λ (hosts : List Text). is_distinct hosts ≡ true)
              (add_to_allowlist && ltb 0 (length request.hosts))
              (λ _. is_distinct-widen request.hosts d.allowlist h) (λ _. h))
    ]

fail_in-SameHosts :
    (config : Config) (fresh : ℕ → Text) (run : AgentRun) (agent_id : Text) (is_grant_run : Bool)
    (ended : RunFailure) (at : ℕ) (d : Database)
    → SameHosts d (fail_in config fresh run agent_id is_grant_run ended at d)
unfolding fail_in
fail_in-SameHosts config fresh run agent_id is_grant_run ended at d =
    evidence-SameHosts fresh 0 run.id agent_id ended.network_denials at d

Step-ListsOnce : {d d' : Database} → Step d d' → ListsOnce d → ListsOnce d'
unfolding recover delete_agent_in add_host_in remove_host_in remove_host open_in release_in prune
Step-ListsOnce (recovered at e) h = subst ListsOnce e h
Step-ListsOnce (created agent e) h = subst ListsOnce e h
Step-ListsOnce {d} {d'} (updated id at input agent e) h =
    rw (update_agent_in-SameHosts id at input d d' agent e) h
Step-ListsOnce {d} {d'} (status_set id at status agent e) h =
    rw (set_status_in-SameHosts id at status d d' agent e) h
Step-ListsOnce (deleted id e) h = subst ListsOnce e h
Step-ListsOnce {d} (host_added host hosts e) h =
    subst (λ p. ListsOnce p.1) (ok-inj e) (is_distinct-add_host host d.allowlist h)
Step-ListsOnce {d} (host_removed host hosts e) h =
    subst (λ p. ListsOnce p.1) (ok-inj e) (is_distinct-keep _ d.allowlist h)
Step-ListsOnce {d} {d'} (sent run_id message_id agent_id prompt at agent e) h =
    rw (send_in-SameHosts run_id message_id agent_id prompt at d d' agent e) h
Step-ListsOnce (run_opened run_id at e) h = subst ListsOnce e h
Step-ListsOnce {d} (run_completed fresh run_id agent_id result at e) h =
    subst ListsOnce e (rw (complete_in-SameHosts fresh run_id agent_id result at d) h)
Step-ListsOnce {d} (run_failed config fresh run agent_id is_grant_run ended at e) h =
    subst ListsOnce e (rw (fail_in-SameHosts config fresh run agent_id is_grant_run ended at d) h)
Step-ListsOnce (run_released run_id agent_id reason at e) h = subst ListsOnce e h
Step-ListsOnce {d} {d'} (request_approved id run_id principal reason add_to_allowlist at grant e)
      h =
    approve_in-ListsOnce id run_id principal reason add_to_allowlist at d d' grant e h
Step-ListsOnce {d} {d'} (request_denied id principal reason at approval e) h =
    rw (deny_in-SameHosts id principal reason at d d' approval e) h
Step-ListsOnce (kept w e) h = subst ListsOnce e h
Step-ListsOnce (restarted e) h = subst ListsOnce e h

-- If the standing allowlist of a database lists each host once, then so does that of every database
-- that the writes of the service, as the store keeps them, and its restarts lead to from there, such as
-- from the empty one.
pub Reachable-ListsOnce :
    (initial d : Database) → ListsOnce initial → Reachable initial d → ListsOnce d
Reachable-ListsOnce initial d h start = h
Reachable-ListsOnce initial d h (later r s) = Step-ListsOnce s (Reachable-ListsOnce initial _ h r)
