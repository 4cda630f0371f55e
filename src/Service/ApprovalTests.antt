-- ===== src/Service/ApprovalTests.antt =====
-- Approvals, the allowlist, a restart and a deletion on a small database.
use code_jam.Prelude.{
  length, keep, All, Text, codes, text_eq, trim, to_lower, Result, ok, err, ℕ, ◌≤◌, ◌≡◌, refl, true,
  false, Option, some, List, [], ◌∷◌, arith,
}
use code_jam.Data.{Agent, AgentRun, Database, is_busy, is_active}
use code_jam.Service.Errors.{Principal, policy_violation, no_broker, RunFailure}
use code_jam.Service.Agents.{recover, find_agent, is_approval}
use code_jam.Service.Allowlist.{normalize_allowlist_host, is_host_pattern, is_host_tail}
use code_jam.Service.Approvals.{approve_in, deny_in, Grant, find_approval, pending_approval}
use code_jam.Service.Resolving.{by_approval}
use code_jam.Service.System.{run_failed, kept}
use code_jam.Service.System.Once.{here, next, Later, refusal, Resolves-once}
use code_jam.Service.Failing.{fail_in}
use code_jam.Store.Json.Atomic.{committed}
use code_jam.Service.Clearing.{recover-IsIdle}
use code_jam.Service.Allowing.{is_distinct}
use code_jam.Service.Tests.{idle, task, waiting, worker, working, config, world}

recover-IsIdle_example :
    All (λ (r : AgentRun). is_active r.status ≡ false) (recover 1000 working).runs
    × All (λ (a : Agent). is_busy a.status ≡ false) (recover 1000 working).agents
recover-IsIdle_example = recover-IsIdle 1000 working

abbrev entries : List Text
entries = codes "pypi.org" ∷ codes "npmjs.org" ∷ []

entries-is_distinct : is_distinct entries ≡ true
unfolding text_eq codes
entries-is_distinct = refl

abbrev ann : Option Principal
ann = some (record { id = codes "ann" })

abbrev fallback : Grant
fallback = record {
  approval = waiting;
  agent_snapshot = worker;
  run = task;
  hosts = [];
  is_grant_run = false;
}

abbrev granted_of : Result (Grant × Database) → Grant × Database
granted_of (ok p) = p
granted_of (err _) = (fallback, idle)

-- Ann approves the request, and adds its host to the allowlist.
abbrev granted : Grant × Database
granted = granted_of (approve_in (codes "p1") (codes "r2") ann (codes "needed") true 1000 idle)

approval-returns :
    approve_in (codes "p1") (codes "r2") ann (codes "needed") true 1000 idle
    ≡ ok (granted.0, granted.1)
unfolding approve_in pending_approval find_approval find_agent text_eq codes
approval-returns = refl

-- A later run fails and is held, and its request takes another id.
abbrev second : RunFailure
second = record {
  error =
      policy_violation (codes "network-egress-denied") (codes "curl npmjs.org") (codes "blocked") []
        [];
  network_denials = no_broker;
  observations = [];
}

abbrev named_second : ℕ → Text
named_second n = codes "p2"

abbrev failed_later : Database
failed_later = fail_in config named_second task (codes "a1") false second 1500 granted.1

abbrev kept_later : Database
kept_later = committed world failed_later

other_id : text_eq (codes "p2") (codes "p1") ≡ false
unfolding text_eq codes
other_id = refl

path_after : Later (codes "p1") granted.1 kept_later
path_after =
    next
      (next here (run_failed config named_second task (codes "a1") false second 1500 refl)
        (λ n. other_id))
      (kept world refl) tt

alone : length (keep (is_approval (codes "p1")) idle.approvals) ≤ 1
unfolding text_eq codes
alone = omega arith

Resolves-once_example :
    (approve_in (codes "p1") (codes "r3") ann (codes "again") false 2000 kept_later
      ≡ err (refusal (codes "p1") kept_later))
    × (deny_in (codes "p1") ann (codes "again") 2000 kept_later
        ≡ err (refusal (codes "p1") kept_later))
Resolves-once_example =
    Resolves-once (codes "p1") idle granted.1 kept_later (codes "r3") ann (codes "again") false 2000
      alone (by_approval (codes "r2") ann (codes "needed") true 1000 granted.0 approval-returns)
      path_after

pypi-accepted : normalize_allowlist_host (codes " PyPI.org ") ≡ ok (codes "pypi.org")
unfolding normalize_allowlist_host is_host_pattern is_host_tail trim to_lower codes
pypi-accepted = refl
