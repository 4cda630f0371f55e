-- ===== src/Policy/Scan.antt =====
-- `scanCommands` (apps/server/src/command-policy.ts), which both runners share, and the run's
-- context.
pub mod Laws
use code_jam.Prelude.{
  ltb, leb, ◌==◌, if◌then◌else◌, ltb→lt, ltb-false→le, lt→ltb, le→ltb-false, ==_iff, Bool-cases,
  Option-cases, true-of-ne-false, length, take, drop, get_elem?, keep, any, all, find, modify_first,
  length-append, All, All-append, All-split, All-keep, All-modify_first, All-find, All-imp,
  All-keep_self, Text, codes, text_eq, text_eq_iff, text_eq_refl, text_eq_sym, includes, is_white,
  is_empty, trim_start, trim_end, trim, to_lower, lower, split_from, split, starts_with, index_of,
  join, Fault, http, failure, Result, ok, err, bind, bind-eq-ok, guard, Exec, pure, raise, continue,
  ◌>>=◌, ◌>>◌, ℕ, zero, suc, ◌+◌, ◌-◌, ◌*◌, ◌/◌, ◌%◌, ◌^◌, ◌≤◌, ◌<◌, String, ◌≡◌, refl, sym, ap,
  ◌∙◌, ◌≢◌, ◌↔◌, ◌⊎◌, inl, inr, Bool, true, false, not, ◌&&◌, ◌||◌, Option, none, some, List, [],
  ◌∷◌, ◌++◌, map, arith,
}
use code_jam.Policy.Types.{PolicyContext, Actor, PolicyViolation}
use code_jam.Policy.Redact.{redact_command}

-- An evaluator may throw.
abbrev pub Evaluator : Type 0
Evaluator = Actor → Text → PolicyContext → Result (Option PolicyViolation)

-- `guardedEvaluate`: a throw is caught and denied.
abbrev pub policy_error : PolicyViolation
policy_error = record {
  rule = codes "policy-error";
  detail = codes "Policy evaluation failed; failing closed and denying the command.";
  hosts = none;
  capabilities = none;
}

unfoldable pub guarded_evaluate : Evaluator → Evaluator
guarded_evaluate evaluate actor command context = elim (evaluate actor command context) [
  | ok v ↦ ok v
  | err _ ↦ ok (some policy_error)
]

pub record DetectedViolation : Type 0 where
  pub violation : PolicyViolation
  pub command : Text

-- `redactCommand(command, context.secretValues)`, whose parameter has a default
abbrev pub secrets_of : PolicyContext → List Text
secrets_of context = elim context.secret_values [ none ↦ [] | some secrets ↦ secrets ]

module _ (evaluate : Evaluator) (actor : Actor) (context : PolicyContext) where
  -- One round of the loop, on `commands[index]`.
  unfoldable pub scan_one : Option Text → List DetectedViolation → Result (List DetectedViolation)
  scan_one none found = ok found
  scan_one (some []) found = ok found
  scan_one (some (c ∷ s)) found = bind (evaluate actor (c ∷ s) context) (λ v. elim v [
    | none ↦ ok found
    | some violation ↦ ok (
        found
        ++ (record { violation = violation; command = redact_command (c ∷ s) (secrets_of context) }
            ∷ []))
  ])

  -- `for (index = startIndex; index < commands.length; index += 1)`, on the rounds that are left
  unfoldable pub scan_from :
      (rounds index : ℕ) → List Text → List DetectedViolation → Result (List DetectedViolation)
  scan_from zero index commands found = ok found
  scan_from (suc n) index commands found =
      bind (scan_one (get_elem? commands index) found) (scan_from n (index + 1) commands)

  -- `scanCommandsWith`
  unfoldable pub scan_commands_with : List Text → ℕ → Result (List DetectedViolation)
  scan_commands_with commands start = scan_from (length commands - start) start commands []

-- `scanCommands`: the evaluator is the guarded one.
unfoldable pub scan_commands :
    Evaluator → Actor → List Text → ℕ → PolicyContext → Result (List DetectedViolation)
scan_commands evaluate actor commands start context =
    scan_commands_with (guarded_evaluate evaluate) actor context commands start

abbrev pub loopback_hosts : List Text
loopback_hosts = codes "localhost" ∷ codes "127.0.0.1" ∷ codes "::1" ∷ []

-- `policyContextFrom`, over the host of the model's address, where that address is a URL
unfoldable pub policy_context_from : Option Text → List Text → List Text → List Text → PolicyContext
policy_context_from ark_host extra_hosts secret_values write_roots = record {
  allowed_hosts =
      elim ark_host [ none ↦ [] | some h ↦ lower h ∷ [] ] ++ (loopback_hosts ++ extra_hosts);
  secret_values = some secret_values;
  write_roots = write_roots;
}
