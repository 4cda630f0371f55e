-- ===== src/Store/Json/Atomic.antt =====
-- About `mutate` of `JsonStore` (store.ts) when it throws.
use code_jam.Prelude.{Fault, Result, ok, err, continue, ◌≡◌, refl, ◌∙◌, some, List, [], ◌∷◌, arith}
use code_jam.Data.{PolicyDecision, Database}
use code_jam.Store.Log.{World, write, compact, drop_expired, enforce_retention, append}
use code_jam.Store.Json.{append_all, persist, prune, commit, mutate, Mutation, to_stored}

-- What an operation on the log leaves alone.
pub record SameState (w w' : World) : Type 0 where
  pub memory : w'.memory ≡ w.memory
  pub stored : w'.stored ≡ w.stored
  pub clock : w'.clock ≡ w.clock
  pub days : w'.retention_days ≡ w.retention_days

compact-SameState : (w : World) → SameState w (compact w).1
unfolding compact write
compact-SameState w = record {
  memory = ground arith;
  stored = ground arith;
  clock = ground arith;
  days = ground arith;
}

pub append-SameState : (e : PolicyDecision) (w : World) → SameState w (append e w).1
unfolding append write enforce_retention drop_expired compact
append-SameState e w = record {
  memory = ground arith;
  stored = ground arith;
  clock = ground arith;
  days = ground arith;
}

SameState-trans : {u v w : World} → SameState u v → SameState v w → SameState u w
SameState-trans p q = record {
  memory = q.memory ∙ p.memory;
  stored = q.stored ∙ p.stored;
  clock = q.clock ∙ p.clock;
  days = q.days ∙ p.days;
}

continue-SameState :
    (r : Result (Unit {0})) (es : List PolicyDecision) (u v : World)
    → ((v : World) → SameState v (append_all es v).1)
    → SameState u v
    → SameState u (continue r (λ _ (x : World). append_all es x) v).1
continue-SameState (ok _) es u v step h = SameState-trans h (step v)
continue-SameState (err _) es u v step h = h

append_all-SameState : (es : List PolicyDecision) (w : World) → SameState w (append_all es w).1
unfolding append_all
append_all-SameState [] w = record { memory = refl; stored = refl; clock = refl; days = refl }
append_all-SameState (e ∷ es) w =
    continue-SameState (append e w).0 es w (append e w).1 (append_all-SameState es)
      (append-SameState e w)

-- What persisting leaves alone, and what it does when it succeeds.
persist_lem :
    (d : Database) (w : World)
    → ((persist d w).0 ≡ ok tt → (persist d w).1.stored ≡ some (to_stored d))
      × ((e : Fault) → (persist d w).0 ≡ err e → (persist d w).1.stored ≡ w.stored)
      × ((persist d w).1.memory ≡ w.memory)
      × ((persist d w).1.lines ≡ w.lines)
      × ((persist d w).1.events ≡ w.events)
unfolding persist write
persist_lem d w = (λ h. ground arith, λ e h. ground arith, ground arith, ground arith, ground arith)

-- The database that a mutation leaves.
abbrev pub committed : World → Database → Database
committed w next = prune w (record next { policy_events = [] })

abbrev pub logged : World → Database → World
logged w next = (append_all next.policy_events w).1

commit_refused :
    {A : Type 0} (a : A) (next : Database) (w w' : World) (e : Fault)
    → commit a next w ≡ (err e, w')
    → (w'.memory ≡ w.memory) × (w'.stored ≡ w.stored)
unfolding commit
commit_refused a next w w' e h =
    let same = append_all-SameState next.policy_events w in
    let (done, undone, memory, _, _) = persist_lem (committed w next) (logged w next) in
    ground (arith, same.memory, same.stored, undone e, memory)

pub commit_done :
    {A : Type 0} (a b : A) (next : Database) (w w' : World)
    → commit a next w ≡ (ok b, w')
    → (a ≡ b)
      × ((append_all next.policy_events w).0 ≡ ok tt)
      × (w'.memory ≡ committed w next)
      × (w'.stored ≡ some (to_stored (committed w next)))
      × (w'.lines ≡ (logged w next).lines)
      × (w'.events ≡ (logged w next).events)
unfolding commit
commit_done a b next w w' h =
    let (done, undone, memory, lines, events) = persist_lem (committed w next) (logged w next) in
    (
      ground arith,
      ground arith,
      ground arith,
      ground (arith, done),
      ground (arith, lines),
      ground (arith, events),
    )

-- If a mutation is refused, by its own throw or by a write that fails, then the database in memory
-- and the one in the file are what they were.
pub mutate_atomic :
    {A : Type 0} (mutation : Mutation A) (w w' : World) (e : Fault)
    → mutate mutation w ≡ (err e, w')
    → (w'.memory ≡ w.memory) × (w'.stored ≡ w.stored)
unfolding mutate
mutate_atomic {A} mutation w w' e h = go (mutation w.memory) refl
  where
    go :
        (r : Result (A × Database))
        → mutation w.memory ≡ r
        → (w'.memory ≡ w.memory) × (w'.stored ≡ w.stored)
    go (err f) q = (ground arith, ground arith)
    go (ok (a, next)) q = commit_refused a next w w' e (rw (q, mutate) at h)
