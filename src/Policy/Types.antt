-- ===== src/Policy/Types.antt =====
-- The data of the command policy: requests (capabilities.ts), resources, rules and decisions.
use code_jam.Prelude.{Text, Bool, true, false, Option, List}

pub data Capability : Type 0 where
  network_egress secret_read file_write : Capability

-- How a capability was established.
pub data Evidence : Type 0 where
  network_tool interpreter destination_only protected_material : Evidence
  file_write_literal file_write_unresolved : Evidence

pub record CapabilityRequest : Type 0 where
  pub capability : Capability
  pub resource : Text
  pub trusted : Bool
  pub via : Evidence
  pub decoded : Bool

pub record PolicyContext : Type 0 where
  pub allowed_hosts : List Text
  pub secret_values : Option (List Text)
  pub write_roots : List Text

-- Who issued the command.
pub record Actor : Type 0 where
  pub agent_id : Text
  pub thread_id : Option Text

pub data ResourceKind : Type 0 where
  host secret path : ResourceKind

pub record Resource : Type 0 where
  pub kind : ResourceKind
  pub value : Text
  pub trusted : Bool
  pub via : Evidence

pub record DecisionContext : Type 0 where
  pub base : PolicyContext
  pub textual_only : Bool

pub data Decision : Type 0 where
  allow : Decision
  deny : (rule detail : Text) (reviewable : Bool) (hosts : Option (List Text)) → Decision

-- A rule about one capability; `hosts` is there for the rules that offer a scoped exception.
pub record Policy : Type 0 where
  pub id : Text
  pub statement : Text
  pub action : Capability
  pub reviewable : Bool
  pub when : Resource → DecisionContext → Actor → Bool
  pub detail : List Resource → DecisionContext → Text
  pub hosts : Option (List Resource → List Text)

-- A rule about the set of requests of one command.
pub record CombinationPolicy : Type 0 where
  pub id : Text
  pub statement : Text
  pub reviewable : Bool
  pub when : List CapabilityRequest → DecisionContext → Bool
  pub detail : List CapabilityRequest → Text

pub record PolicyViolation : Type 0 where
  pub rule : Text
  pub detail : Text
  pub hosts : Option (List Text)
  pub capabilities : Option (List CapabilityRequest)

abbrev pub same_capability : Capability → Capability → Bool
same_capability network_egress network_egress = true
same_capability secret_read secret_read = true
same_capability file_write file_write = true
same_capability _ _ = false

abbrev pub is_destination_only : Evidence → Bool
is_destination_only destination_only = true
is_destination_only _ = false

abbrev pub is_unresolved : Evidence → Bool
is_unresolved file_write_unresolved = true
is_unresolved _ = false

-- `via === "network-tool" || via === "interpreter"`
abbrev pub names_tool : Evidence → Bool
names_tool network_tool = true
names_tool interpreter = true
names_tool _ = false

abbrev pub kind_of : Capability → ResourceKind
kind_of network_egress = host
kind_of secret_read = secret
kind_of file_write = path

-- `toResource`
abbrev pub to_resource : CapabilityRequest → Resource
to_resource r = record {
  kind = kind_of r.capability;
  value = r.resource;
  trusted = r.trusted;
  via = r.via;
}
