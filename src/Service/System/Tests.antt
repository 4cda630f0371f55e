-- ===== src/Service/System/Tests.antt =====
-- A run that is denied, held and approved, as steps from the empty database.
use code_jam.Prelude.{
  Text, codes, text_eq, Result, ok, err, ℕ, ◌+◌, ◌≡◌, refl, true, false, Option, none, some, [],
  ◌∷◌,
}
use code_jam.Policy.Rules.{is_reviewable_rule, reviewable_rules}
use code_jam.Data.{ready, Agent, Database}
use code_jam.Store.Json.{empty_database}
use code_jam.Service.Errors.{Principal, Config, policy_violation, no_broker, RunFailure}
use code_jam.Service.Agents.{find_agent, push_agent}
use code_jam.Service.Approvals.{approve_in, Grant, pending_approval, find_approval}
use code_jam.Service.Evidence.{error_approvals, record_network_evidence}
use code_jam.Service.Runs.{send_in, new_run}
use code_jam.Service.Failing.{fail_in, is_held, is_blocked, failed_agent, is_contained}
use code_jam.Service.System.{created, sent, run_failed, request_approved, Reachable, start, later}
use code_jam.Service.System.Sound.{AreSound, Reachable-AreSound}
use code_jam.Service.System.Distinct.{ListsOnce, Reachable-ListsOnce}

abbrev config : Config
config = record {
  ark_configured = true;
  monitor = false;
  policy_review_rules = codes "network-egress-denied" ∷ [];
  policy_allowed_hosts = [];
}

abbrev worker : Agent
worker = record {
  id = codes "a1";
  name = codes "Ann";
  description = [];
  instructions = [];
  status = ready;
  workspace_path = codes "/w/a1";
  codex_thread_id = none;
  last_error = none;
  created_at = 1;
  updated_at = 1;
}

abbrev numbered : ℕ → Text
numbered n = (b'0' + n) ∷ []

abbrev denial : RunFailure
denial = record {
  error =
      policy_violation (codes "network-egress-denied") (codes "curl pypi.org") (codes "blocked")
        (codes "pypi.org" ∷ []) [];
  network_denials = no_broker;
  observations = [];
}

abbrev with_agent : Database
with_agent = push_agent worker empty_database

abbrev database_of {ℓ} : {A : Type ℓ} → Result (A × Database) → Database
database_of (ok p) = p.1
database_of (err _) = empty_database

abbrev with_run : Database
with_run =
    database_of (send_in (codes "r1") (codes "m1") (codes "a1") (codes "fetch it") 2 with_agent)

abbrev with_request : Database
with_request =
    fail_in config numbered (new_run (codes "r1") (codes "a1") (codes "fetch it") 2) (codes "a1")
      false denial 3 with_run

steps : Unit {0}
unfolding send_in fail_in find_agent text_eq codes error_approvals is_held is_reviewable_rule
    reviewable_rules approve_in pending_approval find_approval record_network_evidence failed_agent
    is_contained is_blocked
steps = tt

agent_of_send :
    send_in (codes "r1") (codes "m1") (codes "a1") (codes "fetch it") 2 with_agent
    ≡ ok (worker, with_run)
unfolding steps
agent_of_send = refl

abbrev ann : Option Principal
ann = some (record { id = codes "ann" })

abbrev decided : Result (Grant × Database)
decided = approve_in (codes "1") (codes "r2") ann (codes "needed") true 4 with_request

abbrev with_approval : Database
with_approval = database_of decided

granted : (g : Grant) × (decided ≡ ok (g, with_approval))
unfolding steps
granted = (_, refl)

arrived : Reachable empty_database with_approval
arrived =
    later
      (later (later (later start (created worker refl)) (sent _ _ _ _ _ _ agent_of_send))
        (run_failed config numbered _ (codes "a1") false denial 3 refl))
      (request_approved (codes "1") (codes "r2") ann (codes "needed") true 4 granted.0 granted.1)

Reachable-AreSound_example : AreSound with_approval
Reachable-AreSound_example = Reachable-AreSound empty_database with_approval tt arrived

Reachable-ListsOnce_example : ListsOnce with_approval
Reachable-ListsOnce_example = Reachable-ListsOnce empty_database with_approval refl arrived
