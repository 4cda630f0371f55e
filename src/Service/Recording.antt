-- ===== src/Service/Recording.antt =====
-- What the write of a failed run records (`executeRun` in agent-service.ts).
use code_jam.Prelude.{
  if◌then◌else◌, Bool-cases, length, keep, find, Text, ℕ, suc, ◌+◌, ◌≡◌, refl, ap, ◌∙◌, inl, inr,
  Bool, ◌||◌, some, List, [], ◌∷◌, ◌++◌, arith,
}
use mathlib.Core.List.{append-nil}
use code_jam.Data.{AgentRun, PolicyDecision, ApprovalRequest, Database}
use code_jam.Service.Errors.{Config, PolicyObservation, RunFailure}
use code_jam.Service.Agents.{is_run}
use code_jam.Service.Evidence.{
  observed_list, observed_events, error_events, record_network_evidence,
}
use code_jam.Service.Failing.{is_blocked, is_over_budget, fail_in}
use code_jam.Service.Outcomes.{is_held_status, is_blocked_status, is_unenforced, evidence-agrees}
use code_jam.Service.Settling.{find_run-write, evidence-find}

module _ {ℓ} {A : Type ℓ} (p : A → Bool) where
  keep-append : (xs ys : List A) → keep p (xs ++ ys) ≡ keep p xs ++ keep p ys
  keep-append [] ys = refl
  keep-append (x ∷ xs) ys = ground (arith, keep-append xs ys)

-- What was observed is recorded as not enforced.
observed-unenforced :
    (fresh : ℕ → Text) (n : ℕ) (agent_id run_id : Text) (at : ℕ) (os : List PolicyObservation)
    → (keep (λ (p : PolicyDecision). p.enforced) (observed_events fresh n agent_id run_id at os)
        ≡ [])
      × (length (keep is_unenforced (observed_events fresh n agent_id run_id at os)) ≡ length os)
unfolding observed_events
observed-unenforced fresh n agent_id run_id at [] = (refl, refl)
observed-unenforced fresh n agent_id run_id at (o ∷ os) =
    let (none_enforced, counts) = observed-unenforced fresh (n + 1) agent_id run_id at os in
    (none_enforced, ap suc counts)

-- What a failed run leaves in the database.
pub record Records (config : Config) (run_id : Text) (f : RunFailure) (d d' : Database)
    : Type 0 where
  pub stored : AgentRun
  pub is_stored : find (is_run run_id) d'.runs ≡ some stored
  pub asked : List ApprovalRequest
  pub adds_requests : d'.approvals ≡ d.approvals ++ asked
  pub asks : length asked ≡ (if is_held_status stored.status then 1 else 0)
  pub added : List PolicyDecision
  pub adds_events : d'.policy_events ≡ d.policy_events ++ added
  pub enforces :
      length (keep (λ (p : PolicyDecision). p.enforced) added)
      ≡ (if is_blocked_status stored.status || is_over_budget f.error then 1 else 0)
  pub observes :
      length (keep is_unenforced added) ≡ (if config.monitor then length f.observations else 0)

module _ (config : Config) where
  -- The events of the error and of what was observed.
  abbrev events_of : List PolicyDecision → List PolicyDecision → List PolicyDecision
  events_of own seen = own ++ (if config.monitor then seen else [])

  counted_events :
      (own seen : List PolicyDecision)
      → keep is_unenforced own ≡ []
      → (keep (λ (p : PolicyDecision). p.enforced) seen ≡ [])
      → (length (keep (λ (p : PolicyDecision). p.enforced) (events_of own seen))
          ≡ length (keep (λ (p : PolicyDecision). p.enforced) own))
        × (length (keep is_unenforced (events_of own seen))
            ≡ (if config.monitor then length (keep is_unenforced seen) else 0))
  counted_events own seen h k = elim (Bool-cases config.monitor) [
    | inl m ↦
        rw
          (
            m,
            keep-append (λ (p : PolicyDecision). p.enforced) own seen,
            keep-append is_unenforced own seen,
            h,
            k,
          )
          (ap length (append-nil (keep (λ (p : PolicyDecision). p.enforced) own)), refl)
    | inr m ↦ rw (m, append-nil own, h) (refl, refl)
  ]

-- The write of a run that ended in an error, where the run is stored, agrees with the status that it
-- gives the run: it adds one request for a decision if the run is held and none otherwise; one enforced
-- event if the run is blocked or was over its allowance and none otherwise; and, in monitor mode, one
-- event that is not enforced for each denial that was observed, and none otherwise.
pub fail_in-Records :
    (config : Config) (fresh : ℕ → Text) (run : AgentRun) (agent_id : Text) (is_grant_run : Bool)
    (f : RunFailure) (at : ℕ) (d : Database) (r : AgentRun)
    → find (is_run run.id) d.runs ≡ some r
    → Records config run.id f d (fail_in config fresh run agent_id is_grant_run f at d)
unfolding fail_in
fail_in-Records config fresh run agent_id is_grant_run f at d r h =
    let n = length (observed_list f.network_denials) in
    let (asks, enforces, unenforced) =
      evidence-agrees config is_grant_run f.error (fresh n) (fresh (n + 1)) agent_id run.id
        run.prompt at in
    let (none_enforced, counts) =
      observed-unenforced fresh (n + 2) agent_id run.id at f.observations in
    let own =
      error_events (fresh n) agent_id run.id (is_blocked config is_grant_run f.error) at f.error in
    let seen = observed_events fresh (n + 2) agent_id run.id at f.observations in
    let (as_enforced, as_seen) = counted_events config own seen unenforced none_enforced in
    let evidenced = record_network_evidence fresh 0 run.id agent_id f.network_denials at d in
    let (_, found, _, _) = evidence-find run.id agent_id fresh 0 f.network_denials at d h in
    record {
      stored = _;
      is_stored = find_run-write run.id agent_id _ evidenced.runs found refl;
      asked = _;
      adds_requests = refl;
      asks = asks;
      added = _;
      adds_events = refl;
      enforces = as_enforced ∙ enforces;
      observes = as_seen ∙ ap (λ m. if config.monitor then m else 0) counts;
    }
