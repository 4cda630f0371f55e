-- ===== src/Service/Resolving.antt =====
-- About `resolveApproval` (agent-service.ts): what its two mutations need.
use code_jam.Prelude.{
  if◌then◌else◌, Bool-cases, Text, http, ok, err, bind-eq-ok, ℕ, ◌≡◌, sym, ap, ◌∙◌, inl, inr, Bool,
  true, not, Option, arith,
}
use code_jam.Data.{ApprovalRequest, Database, is_pending}
use code_jam.Service.Errors.{Principal}
use code_jam.Service.Approvals.{find_approval, pending_approval, deny_in, approve_in, Grant}

pub pending_approval-eq_ok :
    (id : Text) (d : Database) (a : ApprovalRequest)
    → pending_approval id d ≡ ok a
    → (find_approval id d ≡ ok a) × (is_pending a.status ≡ true)
unfolding pending_approval
pending_approval-eq_ok id d a h =
    let (b, found, tested) =
      bind-eq-ok (find_approval id d)
        (λ approval. if not (is_pending approval.status) then err (http 409) else ok approval) h in
    elim (Bool-cases (is_pending b.status)) [
      | inl e ↦
          let same : b ≡ a = ground arith in
          (found ∙ ap ok same, ap (λ x. is_pending x.status) (sym same) ∙ e)
      | inr e ↦ ground arith
    ]

-- One resolution of the approval with the id, by either decision.
pub data Resolves (id : Text) (before after : Database) : Type 0 where
  by_approval :
      (run_id : Text) (principal : Option Principal) (reason : Text) (add_to_allowlist : Bool)
      (at : ℕ) (g : Grant)
      → approve_in id run_id principal reason add_to_allowlist at before ≡ ok (g, after)
      → Resolves id before after
  by_denial :
      (principal : Option Principal) (reason : Text) (at : ℕ) (a : ApprovalRequest)
      → deny_in id principal reason at before ≡ ok (a, after)
      → Resolves id before after
