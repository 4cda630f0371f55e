-- ===== src/Service/System/Once.antt =====
-- A request for a decision is decided once (`resolveApproval` in agent-service.ts), whatever the
-- service writes later.
use code_jam.Prelude.{
  if◌then◌else◌, Bool-cases, length, keep, any, find, modify_first, All, Text, text_eq, Fault, http,
  err, ℕ, suc, ◌+◌, ◌≤◌, ◌≡◌, refl, sym, ◌∙◌, ◌⊎◌, inl, inr, Bool, true, false, Option, none, some,
  List, [], ◌∷◌, arith,
}
use code_jam.Data.{ApprovalRequest, Database, is_pending}
use code_jam.Service.Errors.{
  Principal, RunError, run_cancelled, budget_exceeded, policy_violation, other,
}
use code_jam.Service.Agents.{is_approval}
use code_jam.Service.Approvals.{find_approval, pending_approval, approve_in, deny_in}
use code_jam.Service.Evidence.{error_approvals, observed_list}
use code_jam.Service.Failing.{is_held}
use code_jam.Service.Resolving.{Resolves, by_approval, by_denial}
use code_jam.Service.System.{
  Step, recovered, created, updated, status_set, deleted, host_added, host_removed, sent,
  run_opened, run_completed, run_failed, run_released, request_approved, request_denied, kept,
  restarted,
}
use code_jam.Service.System.Asked.{
  IsDecision, Decides, deny_in-Decides, approve_in-Decides, Asks, Step-All,
}

module _ (id : Text) where
  -- The request does not wait under the id.
  abbrev IsClosed : ApprovalRequest → Type 0
  IsClosed a = is_approval id a ≡ true → is_pending a.status ≡ false

  decision-IsClosed :
      (a b : ApprovalRequest)
      → IsClosed a
      → is_pending a.status ≡ true
      → IsDecision a b
      → IsClosed b
  decision-IsClosed a b _ _ k _ = k.is_closed

  -- The ids that a write gives to the requests it adds are not this one.
  abbrev pub Avoids : {d d' : Database} → Step d d' → Type 0
  Avoids (run_failed config fresh run agent_id is_grant_run ended at e) =
      (n : ℕ) → text_eq (fresh n) id ≡ false
  Avoids _ = Unit {0}

  -- What the service can write after a database, where no new request takes the id.
  pub data Later (d : Database) : Database → Type 0 where
    here : Later d d
    next : {e f : Database} → Later d e → (s : Step e f) → Avoids s → Later d f

  error_approvals-IsClosed :
      (new_id agent_id run_id prompt : Text) (is_held' : Bool) (at : ℕ) (e : RunError)
      → text_eq new_id id ≡ false
      → All IsClosed (error_approvals new_id agent_id run_id prompt is_held' at e)
  unfolding error_approvals
  error_approvals-IsClosed n agent_id run_id prompt y at run_cancelled h = tt
  error_approvals-IsClosed n agent_id run_id prompt y at (other m) h = tt
  error_approvals-IsClosed n agent_id run_id prompt y at (budget_exceeded l o t) h = ((λ k. cc), tt)
  error_approvals-IsClosed n agent_id run_id prompt true at (policy_violation r c d hs ks) h =
      ((λ k. cc), tt)
  error_approvals-IsClosed n agent_id run_id prompt false at (policy_violation r c d hs ks) h = tt

  Avoids-Asks : {d d' : Database} (s : Step d d') → Avoids s → Asks IsClosed decision-IsClosed s
  Avoids-Asks (run_failed config fresh run agent_id is_grant_run ended at e) h =
      let n = length (observed_list ended.network_denials) + 1 in
      error_approvals-IsClosed (fresh n) agent_id run.id run.prompt
        (is_held config is_grant_run ended.error) at ended.error (h n)
  Avoids-Asks (recovered _ _) h = tt
  Avoids-Asks (created _ _) h = tt
  Avoids-Asks (updated _ _ _ _ _) h = tt
  Avoids-Asks (status_set _ _ _ _ _) h = tt
  Avoids-Asks (deleted _ _) h = tt
  Avoids-Asks (host_added _ _ _) h = tt
  Avoids-Asks (host_removed _ _ _) h = tt
  Avoids-Asks (sent _ _ _ _ _ _ _) h = tt
  Avoids-Asks (run_opened _ _ _) h = tt
  Avoids-Asks (run_completed _ _ _ _ _ _) h = tt
  Avoids-Asks (run_released _ _ _ _ _) h = tt
  Avoids-Asks (request_approved _ _ _ _ _ _ _ _) h = tt
  Avoids-Asks (request_denied _ _ _ _ _ _) h = tt
  Avoids-Asks (kept _ _) h = tt
  Avoids-Asks (restarted _) h = tt

  Later-IsClosed :
      {d e : Database} → Later d e → All IsClosed d.approvals → All IsClosed e.approvals
  Later-IsClosed here h = h
  Later-IsClosed (next l s a) h =
      Step-All IsClosed decision-IsClosed s (Avoids-Asks s a) (Later-IsClosed l h)

  -- No two requests have the id.
  abbrev pub IsAlone : Database → Type 0
  IsAlone d = length (keep (is_approval id) d.approvals) ≤ 1

  none-IsClosed :
      (rs : List ApprovalRequest) → length (keep (is_approval id) rs) ≡ 0 → All IsClosed rs
  none-IsClosed [] h = tt
  none-IsClosed (a ∷ rs) h = elim (Bool-cases (is_approval id a)) [
    | inl e ↦
        let broken : suc (length (keep (is_approval id) rs)) ≡ 0 = rw e at h in absurd (omega arith)
    | inr e ↦
        ((λ k. let broken : true ≡ false = sym k ∙ e in cc broken), none-IsClosed rs (rw e at h))
  ]

  -- The write of the only request with the id.
  written-IsClosed :
      (b : ApprovalRequest) (rs : List ApprovalRequest)
      → is_pending b.status ≡ false
      → length (keep (is_approval id) rs) ≤ 1
      → All IsClosed (modify_first (is_approval id) (λ _. b) rs)
  written-IsClosed b [] h k = tt
  written-IsClosed b (a ∷ rs) h k = elim (Bool-cases (is_approval id a)) [
    | inl e ↦
        let few : suc (length (keep (is_approval id) rs)) ≤ 1 = rw e at k in
        rw e ((λ _. h), none-IsClosed rs (omega arith))
    | inr e ↦ rw e (
      (λ y. let broken : true ≡ false = sym y ∙ e in cc broken),
      written-IsClosed b rs h (rw e at k),
    )
  ]

  Decides-IsClosed : (d d' : Database) → IsAlone d → Decides id d d' → All IsClosed d'.approvals
  Decides-IsClosed d d' h w =
      rw (← w.put) (written-IsClosed w.after d.approvals w.decides.is_closed h)

  Resolves-IsClosed : (d d' : Database) → IsAlone d → Resolves id d d' → All IsClosed d'.approvals
  Resolves-IsClosed d d' h (by_approval r p s w t g e) =
      Decides-IsClosed d d' h (approve_in-Decides id r p s w t d d' g e)
  Resolves-IsClosed d d' h (by_denial p s t a e) =
      Decides-IsClosed d d' h (deny_in-Decides id p s t d d' a e)

  -- A conflict while the request is there, and not found once it is gone.
  abbrev pub refusal : Database → Fault
  refusal d = http (if any (is_approval id) d.approvals then 409 else 404)

  -- What a search for the id finds among requests that do not wait under it.
  find_closed :
      (rs : List ApprovalRequest)
      → All IsClosed rs
      → ((find (is_approval id) rs ≡ none) × (any (is_approval id) rs ≡ false))
        ⊎ ((a : ApprovalRequest) × (find (is_approval id) rs ≡ some a)
            × (any (is_approval id) rs ≡ true)
            × (is_pending a.status ≡ false))
  find_closed [] h = inl (refl, refl)
  find_closed (a ∷ rs) (k, h) = elim (Bool-cases (is_approval id a)) [
    | inl e ↦ inr (a, rw e refl, rw e refl, k e)
    | inr e ↦ rw e (find_closed rs h)
  ]

  closed_refusal :
      (d : Database) → All IsClosed d.approvals → pending_approval id d ≡ err (refusal d)
  unfolding pending_approval find_approval
  closed_refusal d h = elim (find_closed d.approvals h) [
    | inl (gone, none_there) ↦ rw (gone, pending_approval, find_approval, none_there) refl
    | inr (a, found, there, settled) ↦
        rw (found, pending_approval, find_approval, settled, there) refl
  ]

  -- Once the only request with an id has been decided, by either decision, then after whatever the
  -- service writes later, where no new request takes that id, every further decision about it is
  -- refused: rs a conflict (409) while the request is stored, and rs not found (404) once it is gone.
  pub Resolves-once :
      (d d' later : Database) (run_id : Text) (principal : Option Principal) (reason : Text)
      (add_to_allowlist : Bool) (at : ℕ)
      → IsAlone d
      → Resolves id d d'
      → Later d' later
      → (approve_in id run_id principal reason add_to_allowlist at later ≡ err (refusal later))
        × (deny_in id principal reason at later ≡ err (refusal later))
  unfolding approve_in deny_in
  Resolves-once d d' later run_id principal reason add_to_allowlist at alone resolved l =
      let closed =
        closed_refusal later (Later-IsClosed l (Resolves-IsClosed d d' alone resolved)) in
      (rw (closed, approve_in) refl, rw (closed, deny_in) refl)
