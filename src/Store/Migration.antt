-- ===== src/Store/Migration.antt =====
-- The migration registry and the loop over it (apps/server/src/store.ts).
pub mod Laws
use code_jam.Prelude.{
  ltb, leb, ◌==◌, if◌then◌else◌, ltb→lt, ltb-false→le, lt→ltb, le→ltb-false, ==_iff, Bool-cases,
  Option-cases, true-of-ne-false, length, take, drop, get_elem?, keep, any, all, find, modify_first,
  length-append, All, All-append, All-split, All-keep, All-modify_first, All-find, All-imp,
  All-keep_self, Text, codes, text_eq, text_eq_iff, text_eq_refl, text_eq_sym, includes, is_white,
  is_empty, trim_start, trim_end, trim, to_lower, lower, split_from, split, starts_with, index_of,
  join, Fault, http, failure, Result, ok, err, bind, bind-eq-ok, guard, Exec, pure, raise, continue,
  ◌>>=◌, ◌>>◌, ℕ, zero, suc, ◌+◌, ◌-◌, ◌*◌, ◌/◌, ◌%◌, ◌^◌, ◌≤◌, ◌<◌, String, ◌≡◌, refl, sym, ap,
  ◌∙◌, ◌≢◌, ◌↔◌, ◌⊎◌, inl, inr, Bool, true, false, not, ◌&&◌, ◌||◌, Option, none, some, List, [],
  ◌∷◌, ◌++◌, map, arith,
}
use code_jam.Data.{
  ApprovalRequest, ApproverAttribution, self_asserted, StoredDatabase, Database, null,
}

abbrev pub current_version : ℕ
current_version = 5

abbrev pub unsupported : Fault
unsupported = failure (codes "Unsupported database format")

-- What JavaScript throws at a property of `undefined`.
abbrev pub type_error : Fault
type_error = failure (codes "TypeError")

abbrev pub MigrationStep : Type 0
MigrationStep = StoredDatabase → Result StoredDatabase

abbrev pub self_assert : ApprovalRequest → ApprovalRequest
self_assert a = record a {
  resolved_by_attribution = elim a.resolved_by [ none ↦ none | some _ ↦ some self_asserted ];
}

-- `migrateV1ToV2`
unfoldable pub migrate_v1_to_v2 : MigrationStep
migrate_v1_to_v2 d = elim d.approvals [
  | none ↦ err type_error
  | some approvals ↦ ok (record d { version = 2; approvals = some (map self_assert approvals) })
]

unfoldable pub migrate_v2_to_v3 : MigrationStep
migrate_v2_to_v3 d = ok (record d { version = 3 })

unfoldable pub migrate_v3_to_v4 : MigrationStep
migrate_v3_to_v4 d = elim d.approvals [
  | none ↦ err type_error
  | some approvals ↦ ok (record d {
    version = 4;
    allowlist = some [];
    approvals =
        some (map (λ (a : ApprovalRequest). record a { allowlist_widened = null }) approvals);
  })
]

unfoldable pub migrate_v4_to_v5 : MigrationStep
migrate_v4_to_v5 d = ok (record d { version = 5; network_events = some [] })

-- `MIGRATIONS[version]`
unfoldable pub migrations : ℕ → Option MigrationStep
migrations version =
    if version == 1
    then some migrate_v1_to_v2
    else if version == 2
    then some migrate_v2_to_v3
    else if version == 3
    then some migrate_v3_to_v4
    else if version == 4
    then some migrate_v4_to_v5
    else none

-- The loop of `migrate`, on fuel; `none` means that the fuel ran out.
unfoldable pub migrate_from : ℕ → StoredDatabase → Bool → Option (Result (StoredDatabase × Bool))
migrate_from zero current migrated = none
migrate_from (suc n) current migrated =
    if current.version == current_version
    then some (ok (current, migrated))
    else elim (migrations current.version) [
      | none ↦ some (err unsupported)
      | some step ↦ elim (step current) [
        | err e ↦ some (err e)
        | ok next ↦ migrate_from n next true
      ]
    ]

-- Five rounds are enough: each step adds one to a version between 1 and 4.
unfoldable pub migrate : StoredDatabase → Option (Result (StoredDatabase × Bool))
migrate parsed = migrate_from 5 parsed false
