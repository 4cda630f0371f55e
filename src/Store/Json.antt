-- ===== src/Store/Json.antt =====
-- `JsonStore`: the database in memory and in its file, and the mutations, which its queue runs one
-- at a time.
pub mod Atomic
pub mod Durable
use code_jam.Prelude.{
  ltb, leb, ◌==◌, if◌then◌else◌, ltb→lt, ltb-false→le, lt→ltb, le→ltb-false, ==_iff, Bool-cases,
  Option-cases, true-of-ne-false, length, take, drop, get_elem?, keep, any, all, find, modify_first,
  length-append, All, All-append, All-split, All-keep, All-modify_first, All-find, All-imp,
  All-keep_self, Text, codes, text_eq, text_eq_iff, text_eq_refl, text_eq_sym, includes, is_white,
  is_empty, trim_start, trim_end, trim, to_lower, lower, split_from, split, starts_with, index_of,
  join, Fault, http, failure, Result, ok, err, bind, bind-eq-ok, guard, Exec, pure, raise, continue,
  ◌>>=◌, ◌>>◌, ℕ, zero, suc, ◌+◌, ◌-◌, ◌*◌, ◌/◌, ◌%◌, ◌^◌, ◌≤◌, ◌<◌, String, ◌≡◌, refl, sym, ap,
  ◌∙◌, ◌≢◌, ◌↔◌, ◌⊎◌, inl, inr, Bool, true, false, not, ◌&&◌, ◌||◌, Option, none, some, List, [],
  ◌∷◌, ◌++◌, map, arith,
}
use code_jam.Data.{ApprovalRequest, Agent, PolicyDecision, Database, StoredDatabase, is_pending}
use code_jam.Store.Migration.{current_version, unsupported, type_error, migrate}
use code_jam.Store.Log.{
  World, is_past, retention, write, append, all_events, remove_for_agent, load,
}

-- `emptyDatabase()`
abbrev pub empty_database : Database
empty_database = record {
  agents = [];
  messages = [];
  runs = [];
  policy_events = [];
  network_events = [];
  approvals = [];
  allowlist = [];
}

-- `{ ...data, policyEvents: [] }`, as it is written
abbrev pub to_stored : Database → StoredDatabase
to_stored d = record {
  version = current_version;
  agents = some d.agents;
  messages = some d.messages;
  runs = some d.runs;
  policy_events = some [];
  network_events = some d.network_events;
  approvals = some d.approvals;
  allowlist = some d.allowlist;
}

-- `prune`: a pending approval stays whatever its age, and so does one without a time.
abbrev pub is_retained : World → ApprovalRequest → Bool
is_retained w a =
    is_pending a.status || elim a.resolved_at [ none ↦ true | some at ↦ not (is_past w at) ]

unfoldable pub prune : World → Database → Database
prune w d = record d { approvals = keep (is_retained w) d.approvals }

-- `persist`: a temporary file, and a rename over the database
unfoldable pub persist : Database → Exec World (Unit {0})
persist d = do write (λ w. w); write (λ w. record w { stored = some (to_stored d) })

-- `for (const event of appended) await this.log.append(event)`
unfoldable pub append_all : List PolicyDecision → Exec World (Unit {0})
append_all [] w = (ok tt, w)
append_all (e ∷ es) w =
    let rest = λ (v : World). append_all es v in continue (append e w).0 (λ _. rest) (append e w).1

-- A mutation works on a copy of the database, and throws or returns it changed.
abbrev pub Mutation : Type 0 → Type 0
Mutation A = Database → Result (A × Database)

-- What `mutate` does with the copy that the mutation has changed.
unfoldable pub commit : {A : Type 0} → A → Database → Exec World A
commit a next w =
    let kept = prune w (record next { policy_events = [] }) in
    (do append_all next.policy_events; persist kept; λ v. (ok a, record v { memory = kept })) w

unfoldable pub mutate : {A : Type 0} → Mutation A → Exec World A
mutate mutation w = elim (mutation w.memory) [ err e ↦ (err e, w) | ok (a, next) ↦ commit a next w ]

-- `snapshot`
unfoldable pub snapshot : Exec World Database
snapshot = do events ← all_events; λ w. (ok (record w.memory { policy_events = events }), w)

-- `field ?? []`, and the spread of the stored fields over the empty database
abbrev pub or_empty {ℓ} : {A : Type ℓ} → Option (List A) → List A
or_empty none = []
or_empty (some xs) = xs

abbrev pub from_stored : StoredDatabase → Database
from_stored d = record {
  agents = or_empty d.agents;
  messages = or_empty d.messages;
  runs = or_empty d.runs;
  policy_events = [];
  network_events = or_empty d.network_events;
  approvals = or_empty d.approvals;
  allowlist = or_empty d.allowlist;
}

unfoldable pub persist_memory : Exec World (Unit {0})
persist_memory w = persist w.memory w

-- The file was read and walked forward: the events it carries are adopted first, and the upgrade is
-- written back last.
unfoldable pub adopt : StoredDatabase → Bool → Exec World (Unit {0})
adopt walked migrated = do
  λ w. (ok tt, record w { memory = from_stored walked })
  load (or_empty walked.policy_events)
  if migrated then persist_memory else pure tt

abbrev pub is_array {ℓ} : {A : Type ℓ} → Option A → Bool
is_array none = false
is_array (some _) = true

-- `initialize`, for a server whose memory is still the empty database
unfoldable pub initialize : Exec World (Unit {0})
initialize w = elim w.stored [
  | none ↦ (do persist_memory; load []) w
  | some parsed ↦
      if not (is_array parsed.agents) then (err unsupported, w) else elim (migrate parsed) [
        | none ↦ (err type_error, w)
        | some (err e) ↦ (err e, w)
        | some (ok (walked, migrated)) ↦ adopt walked migrated w
      ]
]
