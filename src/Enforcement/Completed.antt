-- ===== src/Enforcement/Completed.antt =====
-- A run from its start to its end: `executeRun` (apps/server/src/agent-service.ts) on the runner of
-- apps/server/src/codex-runner.ts, with the policy of apps/server/src/command-policy.ts.
use code_jam.Prelude.{
  length, All, Text, is_empty, Result, ok, err, ℕ, ◌≤◌, ◌≡◌, refl, ap, ◌∙◌, ◌⊎◌, inl, inr, Bool,
  true, Option, none, some, List, [], ◌∷◌,
}
use code_jam.Data.{Agent, AgentRun}
use code_jam.Policy.Types.{PolicyContext, Actor, PolicyViolation}
use code_jam.Policy.Scan.{Evaluator}
use code_jam.Policy.Scan.Laws.{verdict, violations}
use code_jam.Store.Log.{World}
use code_jam.Service.Errors.{Config}
use code_jam.Service.Execution.{Outcome, RunnerInput, runner_input, execute_run}
use code_jam.Service.Settling.{IsKnown}
use code_jam.Service.Completing.{run_completed, execute_run-completed}
use code_jam.Runner.{Parser, ParsedEvents}
use code_jam.Runner.Stream.{RunnerConfig, RunStep, actor_of, context_of, run_codex}
use code_jam.Runner.Following.{stream_events, first_events, all_written}
use code_jam.Runner.Guarantees.{run_codex-IsAllowed}
use code_jam.Shell.{Node}
use code_jam.Capabilities.{CarveoutMode}
use code_jam.Enforcement.{govern_command}

-- The policy has no objection to a command, or the command is empty.
abbrev pub IsLetPass : Evaluator → Actor → PolicyContext → Text → Type 0
IsLetPass evaluate actor context command =
    (is_empty command ≡ true) ⊎ (evaluate actor command context ≡ ok none)

verdict-none : (r : Result (Option PolicyViolation)) → verdict r ≡ none → r ≡ ok none
verdict-none (ok v) h = ap ok h
verdict-none (err e) h = cc

refused : {A : Type 0} {x : A} {xs : List A} → (x ∷ xs) ≡ [] → ⊥
refused h = cc

-- Commands without a violation were let pass.
violations-none :
    (evaluate : Evaluator) (actor : Actor) (context : PolicyContext) (commands : List Text)
    → violations evaluate actor context commands ≡ []
    → All (IsLetPass evaluate actor context) commands
violations-none evaluate actor context [] h = tt
violations-none evaluate actor context ([] ∷ commands) h =
    (inl refl, violations-none evaluate actor context commands h)
violations-none evaluate actor context ((c ∷ s) ∷ commands) h =
    go (verdict (evaluate actor (c ∷ s) context)) refl
      (λ k. violations-none evaluate actor context commands k)
  where
    go :
        (o : Option PolicyViolation)
        → verdict (evaluate actor (c ∷ s) context) ≡ o
        → (violations evaluate actor context commands ≡ []
            → All (IsLetPass evaluate actor context) commands)
        → All (IsLetPass evaluate actor context) ((c ∷ s) ∷ commands)
    go none e later =
        (inr (verdict-none (evaluate actor (c ∷ s) context) e), later (rw (e, violations) at h))
    go (some v) e later = absurd (refused (rw (e, violations) at h))

-- Let an execution be given what `CodexRunner.run` returns, which scans what its process writes with the
-- composed policy, and let that policy be enforced. If the execution returns and leaves its run stored
-- as completed, then the lines of all that the process wrote parse, the composed policy had no
-- objection to any command in them that is not empty, over the allowlist that was stored at the start
-- and the hosts that were granted to the run, and there are no more commands than allowed; whichever
-- writes failed on the way.
pub completed-IsGoverned :
    (mode : CarveoutMode) (node : Node) (parse : Parser) (runner_config : RunnerConfig)
    (steps : List RunStep) (exit_code : ℕ) (config : Config) (fresh : ℕ → Text) (agent : Agent)
    (run : AgentRun) (is_grant_run : Bool) (extra_hosts : List Text) (is_cancel_requested : Bool)
    (runner : RunnerInput → Outcome) (w w' : World) (u : Unit {0})
    → runner_config.is_enforced ≡ true
    → run_codex parse
        (govern_command mode node)
        runner_config
        (runner_input agent run extra_hosts w.memory.allowlist)
        steps
        exit_code
      ≡ ok (runner (runner_input agent run extra_hosts w.memory.allowlist))
    → IsKnown run.id agent.id w.memory
    → execute_run config fresh agent run is_grant_run extra_hosts is_cancel_requested runner w
      ≡ (ok u, w')
    → run_completed run.id w'.memory ≡ true
    → (p : ParsedEvents) × (stream_events parse
          (first_events parse
            (govern_command mode node)
            runner_config
            (runner_input agent run extra_hosts w.memory.allowlist))
          (all_written steps)
        ≡ ok p)
      × All
          (IsLetPass
            (govern_command mode node)
            (actor_of (runner_input agent run extra_hosts w.memory.allowlist))
            (context_of runner_config (runner_input agent run extra_hosts w.memory.allowlist)))
          p.commands
      × (length p.commands ≤ runner_config.policy_max_commands)
completed-IsGoverned mode node parse runner_config steps exit_code config fresh agent run
      is_grant_run extra_hosts is_cancel_requested runner w w' u enforced runs known returned done =
    let (result, finishes) =
      execute_run-completed config fresh agent run is_grant_run extra_hosts is_cancel_requested
        runner w w' u known returned done in
    let input = runner_input agent run extra_hosts w.memory.allowlist in
    let (p, whole, undenied, few, _, _) =
      run_codex-IsAllowed parse (govern_command mode node) runner_config input steps exit_code
        result enforced (runs ∙ ap ok finishes) in
    (
      p,
      whole,
      violations-none (govern_command mode node) (actor_of input) (context_of runner_config input)
          p.commands undenied,
      few,
    )
