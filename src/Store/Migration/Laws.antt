-- ===== src/Store/Migration/Laws.antt =====
-- About `migrate` (store.ts) and what it makes of old approvals.
use code_jam.Prelude.{
  ltb, leb, ◌==◌, if◌then◌else◌, All, ok, err, ℕ, ◌≡◌, refl, ◌≢◌, ◌⊎◌, Bool, ◌&&◌, none, some, List,
  [], ◌∷◌, map, arith,
}
use code_jam.Data.{ApprovalRequest, self_asserted, StoredDatabase, null}
use code_jam.Store.Migration.{
  unsupported, self_assert, migrate_v1_to_v2, migrate_v2_to_v3, migrate_v3_to_v4, migrate_v4_to_v5,
  migrations, migrate_from, migrate,
}

-- What the approvals become on the way from a version to the current one.
abbrev pub migrated_approvals : ℕ → List ApprovalRequest → List ApprovalRequest
migrated_approvals version approvals =
    let labelled = if version == 1 then map self_assert approvals else approvals in
    if ltb version 4
    then map (λ (a : ApprovalRequest). record a { allowlist_widened = null }) labelled
    else labelled

-- For a stored database with its approvals, the loop ends within five rounds: it throws exactly if
-- the version is not one of 1 to 5, and otherwise gives a database of version 5 that has kept every
-- field but those that a step on its way adds.
pub migrate_total :
    (d : StoredDatabase) (approvals : List ApprovalRequest)
    → d.approvals ≡ some approvals
    → migrate d
      ≡ some (
          if leb 1 d.version && leb d.version 5
          then ok (
            record d {
              version = 5;
              approvals = some (migrated_approvals d.version approvals);
              allowlist = if ltb d.version 4 then some [] else d.allowlist;
              network_events = if ltb d.version 5 then some [] else d.network_events;
            },
            ltb d.version 5,
          )
          else err unsupported)
unfolding migrate migrate_from migrations migrate_v1_to_v2 migrate_v2_to_v3 migrate_v3_to_v4
    migrate_v4_to_v5
migrate_total d approvals h = ground arith

-- How an approval is labelled that predates attribution.
abbrev pub IsLabelled : ApprovalRequest → Type 0
IsLabelled a =
    ((a.resolved_by ≡ none) × (a.resolved_by_attribution ≡ none))
    ⊎ ((a.resolved_by ≢ none) × (a.resolved_by_attribution ≡ some self_asserted))

self_assert-IsLabelled :
    (approvals : List ApprovalRequest)
    → All
        (λ (a : ApprovalRequest). IsLabelled a × (a.allowlist_widened ≡ null))
        (map
          (λ (a : ApprovalRequest). record a { allowlist_widened = null })
          (map self_assert approvals))
self_assert-IsLabelled [] = tt
self_assert-IsLabelled (a ∷ approvals) = ((ground arith, refl), self_assert-IsLabelled approvals)

-- An approval that a version 1 release wrote comes out labelled: with an approver it is
-- self-asserted, never a credential, and without one it has no label; and no widening is claimed.
pub migrate_v1-IsLabelled :
    (d d' : StoredDatabase) (approvals : List ApprovalRequest) (migrated : Bool)
    → d.version ≡ 1
    → d.approvals ≡ some approvals
    → migrate d ≡ some (ok (d', migrated))
    → (labelled : List ApprovalRequest) × (d'.approvals ≡ some labelled)
      × All (λ (a : ApprovalRequest). IsLabelled a × (a.allowlist_widened ≡ null)) labelled
migrate_v1-IsLabelled d d' approvals migrated v h e =
    (_, ground (arith, migrate_total d approvals h), self_assert-IsLabelled approvals)
