-- ===== src/Service/System/Asked.antt =====
-- The requests for a decision over the writes of the service (agent-service.ts): a request is added
-- by a failed run, decided, or dropped, and never changed otherwise.
use code_jam.Prelude.{
  Bool-cases, Option-cases, length, find, modify_first, All, All-append, All-keep, All-modify_first,
  All-find, ok-inj, Text, http, ok, err, bind-eq-ok, ℕ, ◌+◌, ◌≡◌, refl, ap, inl, inr, Bool, true,
  false, not, ◌&&◌, ◌||◌, Option, arith,
}
use mathlib.Core.Path.{subst}
use code_jam.Data.{
  approved, ApprovalStatus, ApprovalRequest, Database, is_pending, is_busy, is_stopped,
}
use code_jam.Store.Json.{prune, is_retained}
use code_jam.Service.Errors.{Principal}
use code_jam.Service.Agents.{is_approval, find_agent, recover, delete_agent_in}
use code_jam.Service.Allowlist.{add_host_in, remove_host_in}
use code_jam.Service.Approvals.{
  is_missing, find_approval, pending_approval, approve_in, deny_in, Grant,
}
use code_jam.Service.Evidence.{error_approvals, observed_list}
use code_jam.Service.Runs.{open_in, release_in}
use code_jam.Service.Failing.{fail_in, is_held}
use code_jam.Service.Resolving.{pending_approval-eq_ok}
use code_jam.Service.System.Unchanged.{
  update_agent_in-approvals, set_status_in-approvals, send_in-approvals, complete_in-approvals,
}
use code_jam.Service.System.{
  Step, recovered, created, updated, status_set, deleted, host_added, host_removed, sent,
  run_opened, run_completed, run_failed, run_released, request_approved, request_denied, kept,
  restarted,
}

abbrev pub is_approved : ApprovalStatus → Bool
is_approved approved = true
is_approved _ = false

-- What a decision makes of a request.
pub record IsDecision (a b : ApprovalRequest) : Type 0 where
  pub same_rule : b.rule ≡ a.rule
  pub same_hosts : b.hosts ≡ a.hosts
  pub is_closed : is_pending b.status ≡ false
  pub has_time : is_missing b.resolved_at ≡ false
  pub continues :
      is_missing b.continuation_run_id
      ≡ (not (is_approved b.status) && is_missing a.continuation_run_id)

-- The write of a decision about the pending request with the id.
pub record Decides (id : Text) (d d' : Database) : Type 0 where
  pub before : ApprovalRequest
  pub after : ApprovalRequest
  pub is_found : find_approval id d ≡ ok before
  pub was_pending : is_pending before.status ≡ true
  pub decides : IsDecision before after
  pub put : modify_first (is_approval id) (λ _. after) d.approvals ≡ d'.approvals

pub deny_in-Decides :
    (id : Text) (principal : Option Principal) (reason : Text) (at : ℕ) (d d' : Database)
    (a : ApprovalRequest)
    → deny_in id principal reason at d ≡ ok (a, d')
    → Decides id d d'
unfolding deny_in
deny_in-Decides id principal reason at d d' a e =
    let (request, waits, e1) = bind-eq-ok (pending_approval id d) _ e in
    let (found, pending) = pending_approval-eq_ok id d request waits in
    record {
      before = request;
      after = _;
      is_found = found;
      was_pending = pending;
      decides = record {
        same_rule = refl;
        same_hosts = refl;
        is_closed = refl;
        has_time = refl;
        continues = refl;
      };
      put = ap (λ p. p.1.approvals) (ok-inj e1);
    }

pub approve_in-Decides :
    (id run_id : Text) (principal : Option Principal) (reason : Text) (add_to_allowlist : Bool)
    (at : ℕ) (d d' : Database) (g : Grant)
    → approve_in id run_id principal reason add_to_allowlist at d ≡ ok (g, d')
    → Decides id d d'
unfolding approve_in
approve_in-Decides id run_id principal reason add_to_allowlist at d d' g e =
    let (request, waits, e1) = bind-eq-ok (pending_approval id d) _ e in
    let (agent, _, e2) = bind-eq-ok (find_agent request.agent_id d) _ e1 in
    let (found, pending) = pending_approval-eq_ok id d request waits in
    elim (Bool-cases (is_busy agent.status || is_stopped agent.status)) [
      | inl b ↦ (let broken : err (http 409) ≡ ok (g, d') = rw b at e2 in cc broken)
      | inr b ↦ record {
        before = request;
        after = _;
        is_found = found;
        was_pending = pending;
        decides = record {
          same_rule = refl;
          same_hosts = refl;
          is_closed = refl;
          has_time = refl;
          continues = refl;
        };
        put = ap (λ p. p.1.approvals) (ok-inj (rw b at e2));
      }
    ]

-- A property of requests that a decision preserves.
module _ (P : ApprovalRequest → Type 0)
    (decide : (a b : ApprovalRequest)
      → P a
      → is_pending a.status ≡ true
      → IsDecision a b
      → P b) where
  -- What a failed run asks for has the property.
  abbrev pub Asks : {d d' : Database} → Step d d' → Type 0
  Asks (run_failed config fresh run agent_id is_grant_run ended at e) = All P (
      error_approvals (fresh (length (observed_list ended.network_denials) + 1)) agent_id run.id
        run.prompt (is_held config is_grant_run ended.error) at ended.error)
  Asks _ = Unit {0}

  found_approval-All :
      (id : Text) (d : Database) {a : ApprovalRequest}
      → All P d.approvals
      → find_approval id d ≡ ok a
      → P a
  unfolding find_approval
  found_approval-All id d {a} h e = elim (Option-cases (find (is_approval id) d.approvals)) [
    | inl f ↦ ground arith
    | inr (b, f) ↦
        let same : b ≡ a = ok-inj (rw (f, find_approval) at e) in
        rw (← same) ((All-find P (is_approval id) d.approvals h f).0)
  ]

  Decides-All :
      (id : Text) (d d' : Database) → All P d.approvals → Decides id d d' → All P d'.approvals
  Decides-All id d d' h w =
      let k =
        decide w.before w.after (found_approval-All id d h w.is_found) w.was_pending w.decides in
      rw (← w.put) (All-modify_first P (is_approval id) (λ _. w.after) d.approvals (λ _ _ _. k) h)

  pub Step-All : {d d' : Database} (s : Step d d') → Asks s → All P d.approvals → All P d'.approvals
  unfolding recover delete_agent_in add_host_in remove_host_in open_in release_in prune fail_in
  Step-All (recovered at e) _ h = subst (λ u. All P u.approvals) e h
  Step-All (created agent e) _ h = subst (λ u. All P u.approvals) e h
  Step-All {d} {d'} (updated id at input agent e) _ h =
      rw (update_agent_in-approvals id at input d d' agent e) h
  Step-All {d} {d'} (status_set id at status agent e) _ h =
      rw (set_status_in-approvals id at status d d' agent e) h
  Step-All {d} {d'} (deleted id e) _ h =
      subst (λ u. All P u.approvals) e (All-keep P _ d.approvals h)
  Step-All (host_added host hosts e) _ h = subst (λ p. All P p.1.approvals) (ok-inj e) h
  Step-All (host_removed host hosts e) _ h = subst (λ p. All P p.1.approvals) (ok-inj e) h
  Step-All {d} {d'} (sent run_id message_id agent_id prompt at agent e) _ h =
      rw (send_in-approvals run_id message_id agent_id prompt at d d' agent e) h
  Step-All (run_opened run_id at e) _ h = subst (λ u. All P u.approvals) e h
  Step-All {d} {d'} (run_completed fresh run_id agent_id result at e) _ h =
      subst (λ u. All P u.approvals) e
        (rw (complete_in-approvals fresh run_id agent_id result at d) h)
  Step-All {d} {d'} (run_failed config fresh run agent_id is_grant_run ended at e) asked h =
      subst (λ u. All P u.approvals) e (All-append P d.approvals _ h asked)
  Step-All (run_released run_id agent_id reason at e) _ h = subst (λ u. All P u.approvals) e h
  Step-All {d} {d'} (request_approved id run_id principal reason add_to_allowlist at grant e) _ h =
      Decides-All id d d' h
        (approve_in-Decides id run_id principal reason add_to_allowlist at d d' grant e)
  Step-All {d} {d'} (request_denied id principal reason at approval e) _ h =
      Decides-All id d d' h (deny_in-Decides id principal reason at d d' approval e)
  Step-All {d} {d'} (kept w e) _ h =
      subst (λ u. All P u.approvals) e (All-keep P (is_retained w) d.approvals h)
  Step-All (restarted e) _ h = subst (λ u. All P u.approvals) e h
