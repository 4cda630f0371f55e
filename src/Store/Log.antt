-- ===== src/Store/Log.antt =====
-- `PolicyEventLog` (apps/server/src/store.ts): the audit log in memory and in its file, on a
-- disk whose writes may fail.
pub mod Retention
pub mod Loading
pub mod Adoption
use code_jam.Prelude.{
  ltb, leb, ◌==◌, if◌then◌else◌, ltb→lt, ltb-false→le, lt→ltb, le→ltb-false, ==_iff, Bool-cases,
  Option-cases, true-of-ne-false, length, take, drop, get_elem?, keep, any, all, find, modify_first,
  length-append, All, All-append, All-split, All-keep, All-modify_first, All-find, All-imp,
  All-keep_self, Text, codes, text_eq, text_eq_iff, text_eq_refl, text_eq_sym, includes, is_white,
  is_empty, trim_start, trim_end, trim, to_lower, lower, split_from, split, starts_with, index_of,
  join, Fault, http, failure, Result, ok, err, bind, bind-eq-ok, guard, Exec, pure, raise, continue,
  ◌>>=◌, ◌>>◌, ℕ, zero, suc, ◌+◌, ◌-◌, ◌*◌, ◌/◌, ◌%◌, ◌^◌, ◌≤◌, ◌<◌, String, ◌≡◌, refl, sym, ap,
  ◌∙◌, ◌≢◌, ◌↔◌, ◌⊎◌, inl, inr, Bool, true, false, not, ◌&&◌, ◌||◌, Option, none, some, List, [],
  ◌∷◌, ◌++◌, map, arith,
}
use code_jam.Data.{PolicyDecision, Database, StoredDatabase}

-- The server's memory and its two files. `lines` is what the log's file holds, `none` for a line
-- that does not parse; `disk` says of each coming write whether it fails, and a write beyond the
-- list succeeds. `clock` is `Date.now()`.
pub record World : Type 0 where
  pub memory : Database
  pub events : List PolicyDecision
  pub last_compacted_at : ℕ
  pub stored : Option StoredDatabase
  pub lines : List (Option PolicyDecision)
  pub disk : List Bool
  pub clock : ℕ
  pub retention_days : ℕ

abbrev pub disk_fault : Fault
disk_fault = failure (codes "write failed")

-- One write: `run` is what it does if it succeeds.
unfoldable pub write : (World → World) → Exec World (Unit {0})
write run w = elim w.disk [
  | [] ↦ (ok tt, run w)
  | fails ∷ later ↦
      if fails
      then (err disk_fault, record w { disk = later })
      else (ok tt, run (record w { disk = later }))
]

abbrev pub compaction_interval : ℕ
compaction_interval = 60000

-- `retentionDays * 24 * 60 * 60 * 1000`
abbrev pub retention : World → ℕ
retention w = w.retention_days * 86400000

-- `time < Date.now() - retentionMs`, with no negative numbers
abbrev pub is_past : World → ℕ → Bool
is_past w time = ltb (time + retention w) w.clock

abbrev pub is_expired : World → PolicyDecision → Bool
is_expired w e = is_past w e.decided_at

-- the scan of `dropExpired`, which stops at the first survivor: what is left, and how many went
unfoldable pub drop_prefix : (PolicyDecision → Bool) → List PolicyDecision → List PolicyDecision × ℕ
drop_prefix expired [] = ([], 0)
drop_prefix expired (e ∷ es) =
    let (left, gone) = drop_prefix expired es in if expired e then (left, gone + 1) else (e ∷ es, 0)

-- `dropExpired`
unfoldable pub drop_expired : Exec World ℕ
drop_expired w =
    let (left, gone) = drop_prefix (is_expired w) w.events in (ok gone, record w { events = left })

-- `compact`: a temporary file, and a rename over the log
unfoldable pub compact : Exec World (Unit {0})
compact = do
  write (λ w. w)
  write (λ w. record w { lines = map some w.events })
  λ w. (ok tt, record w { last_compacted_at = w.clock })

-- `enforceRetention`
unfoldable pub enforce_retention : Exec World (Unit {0})
enforce_retention = do
  gone ← drop_expired
  if gone == 0 then pure tt else λ w.
      if ltb w.clock (w.last_compacted_at + compaction_interval) then (ok tt, w) else compact w

-- `append`
unfoldable pub append : PolicyDecision → Exec World (Unit {0})
append event = do
  λ w. (ok tt, record w { events = w.events ++ event ∷ [] })
  write (λ w. record w { lines = w.lines ++ some event ∷ [] })
  enforce_retention

-- `all`
unfoldable pub all_events : Exec World (List PolicyDecision)
all_events = do drop_expired; λ w. (ok w.events, w)

-- `removeForAgent`
unfoldable pub remove_for_agent : Text → Exec World (Unit {0})
remove_for_agent agent_id w =
    let left = keep (λ (e : PolicyDecision). not (text_eq e.agent_id agent_id)) w.events in
    let w' = record w { events = left } in
    if not (length left == length w.events) then compact w' else (ok tt, w')

unfoldable pub parsed_lines : List (Option PolicyDecision) → List PolicyDecision
parsed_lines [] = []
parsed_lines (none ∷ lines) = parsed_lines lines
parsed_lines (some e ∷ lines) = e ∷ parsed_lines lines

-- the loop of `load`: within retention, and each id once
unfoldable pub admit :
    (PolicyDecision → Bool) → List Text → List PolicyDecision → List PolicyDecision
admit expired seen [] = []
admit expired seen (e ∷ es) =
    let skipped = admit expired seen es in
    let kept = e ∷ admit expired (e.id ∷ seen) es in
    if expired e then skipped else if includes e.id seen then skipped else kept

-- `kept.sort((a, b) => …)`: sorting is stable
unfoldable pub insert_event : PolicyDecision → List PolicyDecision → List PolicyDecision
insert_event e [] = e ∷ []
insert_event e (f ∷ fs) =
    if leb e.decided_at f.decided_at then e ∷ f ∷ fs else f ∷ insert_event e fs

unfoldable pub sort_events : List PolicyDecision → List PolicyDecision
sort_events [] = []
sort_events (e ∷ es) = insert_event e (sort_events es)

-- `load`
unfoldable pub load : List PolicyDecision → Exec World (Unit {0})
unfolding parsed_lines
load adopted w =
    let on_disk = parsed_lines w.lines in
    let kept = admit (is_expired w) [] (on_disk ++ adopted) in
    let w' = record w { events = sort_events kept } in
    if not (length kept == length on_disk) || ltb 0 (length adopted)
    then compact w'
    else (ok tt, w')
