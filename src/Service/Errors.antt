-- ===== src/Service/Errors.antt =====
-- What a run can end with, and the messages of the errors (apps/server/src/errors.ts).
use code_jam.Prelude.{
  ◌==◌, if◌then◌else◌, Text, codes, ℕ, zero, suc, ◌+◌, ◌/◌, ◌%◌, Bool, Option, List, [], ◌∷◌, ◌++◌,
}
use code_jam.Policy.Types.{CapabilityRequest}
use code_jam.Data.{RunUsage}

-- The decimal digits of a number, on fuel; its number of digits is at most its successor.
unfoldable pub decimal_from : ℕ → ℕ → Text → Text
decimal_from zero n digits = digits
decimal_from (suc f) n digits =
    let here = (b'0' + n % 10) ∷ digits in
    let more = decimal_from f (n / 10) here in if n / 10 == 0 then here else more

unfoldable pub decimal : ℕ → Text
unfolding decimal_from
decimal n = decimal_from (n + 1) n []

pub data RunError : Type 0 where
  run_cancelled : RunError
  budget_exceeded : (limit observed : ℕ) (thread_id : Option Text) → RunError
  policy_violation :
      (rule command detail : Text) (hosts : List Text) (capabilities : List CapabilityRequest)
      → RunError
  other : Text → RunError

-- `error.message`
unfoldable pub error_message : RunError → Text
error_message run_cancelled = codes "Run cancelled"
error_message (budget_exceeded limit observed _) =
    codes "Run paused: command allowance of "
    ++ (decimal limit ++ (codes " commands exceeded (" ++ (decimal observed ++ codes " observed)")))
error_message (policy_violation rule _ detail _ _) =
    codes "Blocked by command policy (" ++ (rule ++ (codes "): " ++ detail))
error_message (other message) = message

-- `"(" + error.observed + " commands; limit " + error.limit + ")"`
unfoldable pub budget_command : ℕ → ℕ → Text
budget_command limit observed =
    codes "(" ++ (decimal observed ++ (codes " commands; limit " ++ (decimal limit ++ codes ")")))

-- `observed_at` is absent where the broker's log gave an empty text.
pub record NetworkDenialObservation : Type 0 where
  pub host : Text
  pub port : ℕ
  pub reason : Text
  pub observed_at : Option ℕ

-- `NetworkDenialObservation[] | null | undefined`
pub data Denials : Type 0 where
  no_broker unreadable : Denials
  read : List NetworkDenialObservation → Denials

pub record PolicyObservation : Type 0 where
  pub rule : Text
  pub command : Text
  pub detail : Text
  pub capabilities : Option (List CapabilityRequest)

pub record RunnerResult : Type 0 where
  pub output : Text
  pub thread_id : Option Text
  pub usage : Option RunUsage
  pub violations : List PolicyObservation
  pub network_denials : Denials

-- What a runner throws: the error and what it carries beside it.
pub record RunFailure : Type 0 where
  pub error : RunError
  pub network_denials : Denials
  pub observations : List PolicyObservation

pub record Principal : Type 0 where
  pub id : Text

-- The part of the configuration that the service reads.
pub record Config : Type 0 where
  pub ark_configured : Bool
  pub monitor : Bool
  pub policy_review_rules : List Text
  pub policy_allowed_hosts : List Text
