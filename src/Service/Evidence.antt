-- ===== src/Service/Evidence.antt =====
-- The evidence that goes into the mutation of a run's outcome. `fresh n` is the
-- `randomUUID()` for the n-th place.
use code_jam.Prelude.{
  if◌then◌else◌, modify_first, Text, ℕ, ◌+◌, Bool, true, false, Option, none, some, List, [], ◌∷◌,
  ◌++◌,
}
use code_jam.Policy.Types.{CapabilityRequest}
use code_jam.Data.{
  collected, unavailable, pending, absent, NetworkDenial, PolicyDecision, ApprovalRequest, Database,
}
use code_jam.Service.Errors.{
  RunError, budget_exceeded, policy_violation, error_message, budget_command,
  NetworkDenialObservation, Denials, no_broker, unreadable, read, PolicyObservation,
}
use code_jam.Service.Agents.{is_run}
use code_jam.Service.Approvals.{step_budget_exceeded}

-- `denial.observedAt || at`
abbrev observed_time : Option ℕ → ℕ → ℕ
observed_time none at = at
observed_time (some t) at = t

abbrev pub or_else {ℓ} : {A : Type ℓ} → Option A → A → A
or_else none d = d
or_else (some a) d = a

unfoldable pub network_event :
    Text → (agent_id run_id : Text) → ℕ → NetworkDenialObservation → NetworkDenial
network_event id agent_id run_id at o = record {
  id = id;
  agent_id = agent_id;
  run_id = run_id;
  host = o.host;
  port = o.port;
  reason = o.reason;
  observed_at = observed_time o.observed_at at;
}

unfoldable pub network_events_of :
    (ℕ → Text)
    → ℕ
    → (agent_id run_id : Text) → ℕ
    → List NetworkDenialObservation
    → List NetworkDenial
network_events_of fresh n agent_id run_id at [] = []
network_events_of fresh n agent_id run_id at (o ∷ os) =
    network_event (fresh n) agent_id run_id at o
    ∷ network_events_of fresh (n + 1) agent_id run_id at os

abbrev pub observed_list : Denials → List NetworkDenialObservation
observed_list (read os) = os
observed_list _ = []

-- `recordNetworkEvidence`
unfoldable pub record_network_evidence :
    (ℕ → Text) → ℕ → (run_id agent_id : Text) → Denials → ℕ → Database → Database
record_network_evidence fresh n run_id agent_id no_broker at d = d
record_network_evidence fresh n run_id agent_id unreadable at d = record d {
  runs =
      modify_first (is_run run_id) (λ r. record r { network_evidence = some unavailable }) d.runs;
}
record_network_evidence fresh n run_id agent_id (read os) at d = record d {
  runs = modify_first (is_run run_id) (λ r. record r { network_evidence = some collected }) d.runs;
  network_events = d.network_events ++ network_events_of fresh n agent_id run_id at os;
}

abbrev pub decision :
    Text
    → (agent_id run_id : Text) → (rule command detail : Text) → Bool
    → Option (List CapabilityRequest)
    → ℕ
    → PolicyDecision
decision id agent_id run_id rule command detail enforced capabilities at = record {
  id = id;
  agent_id = agent_id;
  run_id = run_id;
  rule = rule;
  command = command;
  detail = detail;
  enforced = enforced;
  capabilities = capabilities;
  decided_at = at;
}

-- The loop over what was observed in monitor mode: nothing of it was enforced.
unfoldable pub observed_events :
    (ℕ → Text) → ℕ → (agent_id run_id : Text) → ℕ → List PolicyObservation → List PolicyDecision
observed_events fresh n agent_id run_id at [] = []
observed_events fresh n agent_id run_id at (o ∷ os) =
    decision (fresh n) agent_id run_id o.rule o.command o.detail false o.capabilities at
    ∷ observed_events fresh (n + 1) agent_id run_id at os

-- `error.capabilities.length > 0 ? { capabilities } : {}`
abbrev pub some_capabilities : List CapabilityRequest → Option (List CapabilityRequest)
some_capabilities [] = none
some_capabilities (c ∷ cs) = some (c ∷ cs)

abbrev pub pending_request :
    Text
    → (agent_id run_id prompt : Text) → (rule command detail : Text) → List Text
    → ℕ
    → ApprovalRequest
pending_request id agent_id run_id prompt rule command detail hosts at = record {
  id = id;
  agent_id = agent_id;
  run_id = run_id;
  prompt = prompt;
  rule = rule;
  command = command;
  detail = detail;
  hosts = hosts;
  status = pending;
  requested_at = at;
  resolved_by = none;
  resolved_by_attribution = none;
  decision_reason = none;
  resolved_at = none;
  continuation_run_id = none;
  allowlist_widened = absent;
}

-- What the error itself adds to the log: an exhausted allowance and a blocked command are recorded
-- as enforced.
unfoldable pub error_events :
    Text → (agent_id run_id : Text) → (is_blocked : Bool) → ℕ → RunError → List PolicyDecision
error_events id agent_id run_id is_blocked at (budget_exceeded limit observed thread_id) =
    decision id agent_id run_id step_budget_exceeded (budget_command limit observed)
      (error_message (budget_exceeded limit observed thread_id)) true none at
    ∷ []
error_events id agent_id run_id is_blocked at (policy_violation rule command detail hosts caps) =
    if is_blocked
    then decision id agent_id run_id rule command detail true (some_capabilities caps) at ∷ []
    else []
error_events id agent_id run_id is_blocked at _ = []

-- The request for a decision that the error adds.
unfoldable pub error_approvals :
    Text → (agent_id run_id prompt : Text) → (is_held : Bool) → ℕ → RunError → List ApprovalRequest
error_approvals id agent_id run_id prompt is_held at (budget_exceeded limit observed thread_id) =
    pending_request id agent_id run_id prompt step_budget_exceeded (budget_command limit observed)
      (error_message (budget_exceeded limit observed thread_id)) [] at
    ∷ []
error_approvals id agent_id run_id prompt is_held at
      (policy_violation rule command detail hosts caps) =
    if is_held
    then pending_request id agent_id run_id prompt rule command detail hosts at ∷ []
    else []
error_approvals id agent_id run_id prompt is_held at _ = []
