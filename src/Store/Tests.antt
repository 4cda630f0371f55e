-- ===== src/Store/Tests.antt =====
-- The store run on a small world.
use code_jam.Prelude.{
  keep, All, Text, codes, ok, err, ℕ, ◌≡◌, refl, ◌⊎◌, true, false, not, none, some, List, [], ◌∷◌,
  ◌++◌, arith,
}
use code_jam.Data.{absent, denied, ApprovalRequest, PolicyDecision, Database, StoredDatabase}
use code_jam.Store.Migration.{migrate}
use code_jam.Store.Migration.Laws.{migrated_approvals, migrate_total}
use code_jam.Store.Log.{
  World, is_expired, all_events, load, parsed_lines, write, compact, append, drop_expired,
  drop_prefix, enforce_retention, disk_fault,
}
use code_jam.Store.Log.Retention.{InOrder, all_events-exact}
use code_jam.Store.Log.Loading.{HasDistinctIds, has_id}
use code_jam.Store.Log.Adoption.{load-IsComplete}
use code_jam.Store.Json.{Mutation, mutate, commit, append_all, persist, empty_database, to_stored}
use code_jam.Store.Json.Atomic.{mutate_atomic, committed}
use code_jam.Store.Json.Durable.{mutate_done, LogsAgree, unexpired}

abbrev event : Text → ℕ → PolicyDecision
event id at = record {
  id = id;
  agent_id = codes "a1";
  run_id = codes "r1";
  rule = codes "network-egress-denied";
  command = codes "curl evil.example";
  detail = codes "blocked";
  enforced = true;
  capabilities = none;
  decided_at = at;
}

-- A day is kept, and it is the first millisecond of the third day.
abbrev world : World
world = record {
  memory = empty_database;
  events = event (codes "e1") 5 ∷ event (codes "e2") 172000000 ∷ [];
  last_compacted_at = 0;
  stored = none;
  lines = some (event (codes "e1") 5) ∷ none ∷ some (event (codes "e2") 172000000) ∷ [];
  disk = [];
  clock = 172800000;
  retention_days = 1;
}

abbrev old_approval : ApprovalRequest
old_approval = record {
  id = codes "p1";
  agent_id = codes "a1";
  run_id = codes "r1";
  prompt = codes "fetch it";
  rule = codes "network-egress-denied";
  command = codes "curl evil.example";
  detail = codes "blocked";
  hosts = codes "evil.example" ∷ [];
  status = denied;
  requested_at = 5;
  resolved_by = some (codes "ann");
  resolved_by_attribution = none;
  decision_reason = some (codes "no");
  resolved_at = some 9;
  continuation_run_id = none;
  allowlist_widened = absent;
}

abbrev version_1 : StoredDatabase
version_1 = record {
  version = 1;
  agents = some [];
  messages = some [];
  runs = some [];
  policy_events = some [];
  network_events = none;
  approvals = some (old_approval ∷ []);
  allowlist = none;
}

abbrev version_5 : StoredDatabase
version_5 = record version_1 {
  version = 5;
  approvals = some (migrated_approvals 1 (old_approval ∷ []));
  allowlist = some [];
  network_events = some [];
}

migrate_total_example : migrate version_1 ≡ some (ok (version_5, true))
migrate_total_example = migrate_total version_1 (old_approval ∷ []) refl

world-InOrder : InOrder world.events
world-InOrder = ((ground arith, tt), (tt, tt))

all_events-exact_example : all_events world ≡ (
  ok (keep (λ e. not (is_expired world e)) world.events),
  record world { events = keep (λ e. not (is_expired world e)) world.events },
)
all_events-exact_example = all_events-exact world world-InOrder

abbrev adopted : List PolicyDecision
adopted = event (codes "e2") 172000000 ∷ event (codes "e3") 172500000 ∷ []

load-IsComplete_example :
    InOrder (load adopted world).1.events
    × HasDistinctIds (load adopted world).1.events
    × All (λ e. is_expired world e ≡ false) (load adopted world).1.events
    × All
        (λ e. (is_expired world e ≡ true) ⊎ (has_id e.id (load adopted world).1.events ≡ true))
        (parsed_lines world.lines ++ adopted)
load-IsComplete_example = load-IsComplete adopted world

loaded : load adopted world ≡ (ok tt, (load adopted world).1)
unfolding load write compact
loaded = ground arith

-- A mutation that records an event and adds a host.
abbrev note_and_add : Mutation Text
note_and_add d = ok (
  codes "done",
  record d {
    allowlist = codes "pypi.org" ∷ d.allowlist;
    policy_events = event (codes "e4") 172700000 ∷ [];
  },
)

abbrev noted : Database
noted = record empty_database {
  allowlist = codes "pypi.org" ∷ [];
  policy_events = event (codes "e4") 172700000 ∷ [];
}

-- The second write fails: the event is in the log's file, and the database is as it was.
abbrev failing : World
failing = record world { disk = false ∷ true ∷ [] }

failing-fails : mutate note_and_add failing ≡ (err disk_fault, (mutate note_and_add failing).1)
unfolding mutate commit append_all append write enforce_retention drop_expired drop_prefix compact
    persist
failing-fails = refl

mutate_atomic_example :
    ((mutate note_and_add failing).1.memory ≡ failing.memory)
    × ((mutate note_and_add failing).1.stored ≡ failing.stored)
mutate_atomic_example =
    mutate_atomic note_and_add failing (mutate note_and_add failing).1 disk_fault failing-fails

world-LogsAgree : LogsAgree world
unfolding parsed_lines
world-LogsAgree = refl

mutate-works : mutate note_and_add world ≡ (ok (codes "done"), (mutate note_and_add world).1)
unfolding mutate commit append_all append write enforce_retention drop_expired drop_prefix compact
    persist
mutate-works = refl

mutate_done_example :
    ((mutate note_and_add world).1.memory ≡ committed world noted)
    × ((mutate note_and_add world).1.stored ≡ some (to_stored (committed world noted)))
    × (unexpired world (parsed_lines (mutate note_and_add world).1.lines)
        ≡ unexpired world (parsed_lines world.lines) ++ unexpired world noted.policy_events)
mutate_done_example =
    mutate_done note_and_add (codes "done") noted world (mutate note_and_add world).1 refl
      (((ground arith, (ground arith, tt)), ((ground arith, tt), (tt, tt)))) world-LogsAgree
      mutate-works
