-- ===== src/Service/Approvals.antt =====
-- Approvals (apps/server/src/agent-service.ts): `resolveApproval` and
-- `resolveBudgetContinuation`.
use code_jam.Prelude.{
  ltb, if◌then◌else◌, length, find, modify_first, Text, codes, text_eq, is_empty, trim, http,
  Result, ok, err, bind, Exec, pure, raise, ◌>>=◌, ℕ, Bool, true, false, not, ◌&&◌, ◌||◌, Option,
  none, some, List, [], ◌∷◌, ◌++◌,
}
use code_jam.Data.{
  busy, queued, approved, denied, credential, null, hosts, Agent, AgentRun, ApprovalRequest,
  ApproverAttribution, Database, is_busy, is_stopped, is_pending,
}
use code_jam.Store.Log.{World}
use code_jam.Store.Json.{Mutation, mutate, snapshot}
use code_jam.Service.Errors.{Principal}
use code_jam.Service.Agents.{is_approval, find_agent, put_agent}
use code_jam.Service.Allowlist.{add_host}

abbrev pub step_budget_exceeded : Text
step_budget_exceeded = codes "step-budget-exceeded"

abbrev pub is_budget : Text → Bool
is_budget rule = text_eq rule step_budget_exceeded

unfoldable pub find_approval : Text → Database → Result ApprovalRequest
find_approval id d = elim (find (is_approval id) d.approvals) [
  | none ↦ err (http 404)
  | some a ↦ ok a
]

-- `getApproval`
unfoldable pub get_approval : Text → Exec World ApprovalRequest
get_approval id = do d ← snapshot; λ w. (find_approval id d, w)

abbrev pub principal_id : Option Principal → Option Text
principal_id none = none
principal_id (some p) = some p.id

abbrev pub attribution : Option Principal → Option ApproverAttribution
attribution none = none
attribution (some _) = some credential

abbrev pub put_approval : Text → ApprovalRequest → Database → Database
put_approval id a d = record d { approvals = modify_first (is_approval id) (λ _. a) d.approvals }

-- The approval with the id, if it is still pending.
unfoldable pub pending_approval : Text → Database → Result ApprovalRequest
pending_approval id d =
    bind (find_approval id d)
      (λ approval. if not (is_pending approval.status) then err (http 409) else ok approval)

-- The mutation of a denial.
unfoldable pub deny_in : Text → Option Principal → Text → ℕ → Mutation ApprovalRequest
deny_in id principal reason at d = bind (pending_approval id d) (λ approval.
    let approval' = record approval {
      status = denied;
      resolved_by = principal_id principal;
      resolved_by_attribution = attribution principal;
      decision_reason = some reason;
      resolved_at = some at;
      allowlist_widened = null;
    } in
    ok (approval', put_approval id approval' d))

-- What the mutation of an approval returns.
pub record Grant : Type 0 where
  pub approval : ApprovalRequest
  pub agent_snapshot : Agent
  pub run : AgentRun
  pub hosts : List Text
  pub is_grant_run : Bool

unfoldable pub continuation_prompt : ApprovalRequest → Text
continuation_prompt approval =
    if is_budget approval.rule
    then codes "Continue the previous task from where you left off."
    else approval.prompt

abbrev pub continuation_run : Text → ℕ → ApprovalRequest → AgentRun
continuation_run run_id at approval = record {
  id = run_id;
  agent_id = approval.agent_id;
  status = queued;
  prompt = continuation_prompt approval;
  output = none;
  error = none;
  usage = none;
  started_at = none;
  completed_at = none;
  created_at = at;
  network_evidence = none;
}

-- `for (const host of approval.hosts) …`
unfoldable pub widen : List Text → List Text → List Text
widen [] allowlist = allowlist
widen (h ∷ hs) allowlist = widen hs (add_host h allowlist)

abbrev pub busy_agent : ℕ → Agent → Agent
busy_agent at agent = record agent { status = busy; last_error = none; updated_at = at }

-- The mutation of an approval: the approval, the continuation run and the busy agent in one.
unfoldable pub approve_in :
    (id run_id : Text) (principal : Option Principal) (reason : Text) (add_to_allowlist : Bool)
    (at : ℕ)
    → Mutation Grant
approve_in id run_id principal reason add_to_allowlist at d =
    bind (pending_approval id d) (λ approval. bind (find_agent approval.agent_id d) (λ agent.
      if is_busy agent.status || is_stopped agent.status
      then err (http 409)
      else let run = continuation_run run_id at approval in
        let widens = add_to_allowlist && ltb 0 (length approval.hosts) in
        let approval' = record approval {
          status = approved;
          resolved_by = principal_id principal;
          resolved_by_attribution = attribution principal;
          decision_reason = some reason;
          resolved_at = some at;
          continuation_run_id = some run_id;
          allowlist_widened = if widens then hosts approval.hosts else null;
        } in
        ok (
          record {
            approval = approval';
            agent_snapshot = agent;
            run = run;
            hosts = if is_budget approval.rule then [] else approval.hosts;
            is_grant_run = not (is_budget approval.rule);
          },
          record (put_approval id approval' (put_agent approval.agent_id (busy_agent at agent) d)) {
            runs = d.runs ++ run ∷ [];
            allowlist = if widens then widen approval.hosts d.allowlist else d.allowlist;
          },
        )))

pub data Choice : Type 0 where
  approve deny : Choice

abbrev pub is_missing {ℓ} : {A : Type ℓ} → Option A → Bool
is_missing none = true
is_missing (some _) = false

-- The part of `resolveApproval` that changes the store; an approval's grant is then executed.
unfoldable pub settle_approval :
    (id run_id : Text)
    → Choice
    → Option Principal
    → (reason : Text) → Bool
    → Exec World (ApprovalRequest × Option Grant)
settle_approval id run_id deny principal reason add_to_allowlist = do
  refused ← λ w. mutate (deny_in id principal reason w.clock) w
  pure (refused, none)
settle_approval id run_id approve principal reason add_to_allowlist = do
  grant ← λ w. mutate (approve_in id run_id principal reason add_to_allowlist w.clock) w
  pure (grant.approval, some grant)

-- `resolveApproval`
unfoldable pub resolve_approval :
    (id run_id : Text)
    → Choice
    → Option Principal
    → (reason : Text) → Bool
    → Exec World (ApprovalRequest × Option Grant)
resolve_approval id run_id choice principal reason add_to_allowlist = do
  request ← get_approval id
  if is_missing principal && not (is_budget request.rule)
      then raise (http 401)
      else if is_empty (trim reason)
      then raise (http 400)
      else settle_approval id run_id choice principal (trim reason) add_to_allowlist

pub data BudgetChoice : Type 0 where
  continue_run stop_run : BudgetChoice

abbrev budget_choice : BudgetChoice → Choice
budget_choice continue_run = approve
budget_choice stop_run = deny

abbrev budget_reason : BudgetChoice → Text
budget_reason continue_run = codes "User granted another command allowance"
budget_reason stop_run = codes "User stopped the task after its command allowance was exhausted"

-- `resolveBudgetContinuation`
unfoldable pub resolve_budget_continuation :
    (id run_id : Text)
    → BudgetChoice
    → Option Principal
    → Exec World (ApprovalRequest × Option Grant)
resolve_budget_continuation id run_id choice principal = do
  request ← get_approval id
  if not (is_budget request.rule)
      then raise (http 409)
      else resolve_approval id run_id (budget_choice choice) principal (budget_reason choice) false
