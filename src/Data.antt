-- ===== src/Data.antt =====
-- The records that the server stores (apps/server/src/types.ts). A time is its number of
-- milliseconds, as `new Date(text).getTime()` reads the stored ISO text.
use code_jam.Prelude.{Text, ℕ, Bool, true, false, Option, List}
use code_jam.Policy.Types.{CapabilityRequest}

pub data AgentStatus : Type 0 where
  ready busy stopped error : AgentStatus

pub data RunStatus : Type 0 where
  queued running completed failed cancelled blocked held terminated : RunStatus

pub data MessageRole : Type 0 where
  user assistant : MessageRole

pub record Agent : Type 0 where
  pub id : Text
  pub name : Text
  pub description : Text
  pub instructions : Text
  pub status : AgentStatus
  pub workspace_path : Text
  pub codex_thread_id : Option Text
  pub last_error : Option Text
  pub created_at : ℕ
  pub updated_at : ℕ

pub record Message : Type 0 where
  pub id : Text
  pub agent_id : Text
  pub run_id : Text
  pub role : MessageRole
  pub content : Text
  pub created_at : ℕ

pub record RunUsage : Type 0 where
  pub input_tokens : Option ℕ
  pub cached_input_tokens : Option ℕ
  pub output_tokens : Option ℕ

pub data NetworkEvidence : Type 0 where
  collected unavailable : NetworkEvidence

pub record AgentRun : Type 0 where
  pub id : Text
  pub agent_id : Text
  pub status : RunStatus
  pub prompt : Text
  pub output : Option Text
  pub error : Option Text
  pub usage : Option RunUsage
  pub started_at : Option ℕ
  pub completed_at : Option ℕ
  pub created_at : ℕ
  pub network_evidence : Option NetworkEvidence

-- `source` is always the broker.
pub record NetworkDenial : Type 0 where
  pub id : Text
  pub agent_id : Text
  pub run_id : Text
  pub host : Text
  pub port : ℕ
  pub reason : Text
  pub observed_at : ℕ

pub record PolicyDecision : Type 0 where
  pub id : Text
  pub agent_id : Text
  pub run_id : Text
  pub rule : Text
  pub command : Text
  pub detail : Text
  pub enforced : Bool
  pub capabilities : Option (List CapabilityRequest)
  pub decided_at : ℕ

pub data ApprovalStatus : Type 0 where
  pending approved denied : ApprovalStatus

pub data ApproverAttribution : Type 0 where
  credential self_asserted : ApproverAttribution

-- `allowlistWidened?: string[] | null`
pub data Widening : Type 0 where
  absent null : Widening
  hosts : List Text → Widening

pub record ApprovalRequest : Type 0 where
  pub id : Text
  pub agent_id : Text
  pub run_id : Text
  pub prompt : Text
  pub rule : Text
  pub command : Text
  pub detail : Text
  pub hosts : List Text
  pub status : ApprovalStatus
  pub requested_at : ℕ
  pub resolved_by : Option Text
  pub resolved_by_attribution : Option ApproverAttribution
  pub decision_reason : Option Text
  pub resolved_at : Option ℕ
  pub continuation_run_id : Option Text
  pub allowlist_widened : Widening

pub record Database : Type 0 where
  pub agents : List Agent
  pub messages : List Message
  pub runs : List AgentRun
  pub policy_events : List PolicyDecision
  pub network_events : List NetworkDenial
  pub approvals : List ApprovalRequest
  pub allowlist : List Text

-- What was parsed from the file: the version, and the fields that are there. `agents` is absent
-- also where it is not an array.
pub record StoredDatabase : Type 0 where
  pub version : ℕ
  pub agents : Option (List Agent)
  pub messages : Option (List Message)
  pub runs : Option (List AgentRun)
  pub policy_events : Option (List PolicyDecision)
  pub network_events : Option (List NetworkDenial)
  pub approvals : Option (List ApprovalRequest)
  pub allowlist : Option (List Text)

abbrev pub is_busy : AgentStatus → Bool
is_busy busy = true
is_busy _ = false

abbrev pub is_stopped : AgentStatus → Bool
is_stopped stopped = true
is_stopped _ = false

abbrev pub is_ready : AgentStatus → Bool
is_ready ready = true
is_ready _ = false

-- `status === "queued" || status === "running"`
abbrev pub is_active : RunStatus → Bool
is_active queued = true
is_active running = true
is_active _ = false

abbrev pub is_pending : ApprovalStatus → Bool
is_pending pending = true
is_pending _ = false
