-- ===== src/Service/Clearing.antt =====
-- About `initialize` (agent-service.ts).
use code_jam.Prelude.{Bool-cases, All, ℕ, ◌≡◌, refl, inl, inr, false, List, [], ◌∷◌, map}
use code_jam.Data.{Agent, AgentRun, Database, is_busy, is_active}
use code_jam.Service.Agents.{recover, recover_run, recover_agent}

All-map {ℓ κ μ} :
    {A : Type ℓ} {B : Type κ} (P : B → Type μ) (f : A → B) (xs : List A)
    → ((x : A) → P (f x))
    → All P (map f xs)
All-map P f [] k = tt
All-map P f (x ∷ xs) k = (k x, All-map P f xs k)

recovered_run-ended : (at : ℕ) (r : AgentRun) → is_active (recover_run at r).status ≡ false
recovered_run-ended at r = elim (Bool-cases (is_active r.status)) [
  | inl e ↦ rw e refl
  | inr e ↦ rw (e, e) refl
]

recovered_agent-idle : (at : ℕ) (a : Agent) → is_busy (recover_agent at a).status ≡ false
recovered_agent-idle at a = elim (Bool-cases (is_busy a.status)) [
  | inl e ↦ rw e refl
  | inr e ↦ rw (e, e) refl
]

-- After the recovery at a start, no run is queued or running and no agent is busy, so that every
-- agent can be used again.
pub recover-IsIdle :
    (at : ℕ) (d : Database)
    → All (λ (r : AgentRun). is_active r.status ≡ false) (recover at d).runs
      × All (λ (a : Agent). is_busy a.status ≡ false) (recover at d).agents
unfolding recover
recover-IsIdle at d = (
  All-map _ (recover_run at) d.runs (recovered_run-ended at),
  All-map _ (recover_agent at) d.agents (recovered_agent-idle at),
)
