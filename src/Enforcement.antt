-- ===== src/Enforcement.antt =====
-- The command policy with the extraction of capabilities put in: `evaluateCommand` of
-- apps/server/src/command-policy.ts as it calls apps/server/src/capabilities.ts.
mod Guarantees
mod Completed
mod Tests
mod CompletedTests
use code_jam.Prelude.{
  ltb, leb, ◌==◌, if◌then◌else◌, ltb→lt, ltb-false→le, lt→ltb, le→ltb-false, ==_iff, Bool-cases,
  if_rule, Option-cases, true-of-ne-false, length, take, drop, get_elem?, get_or, flat_map, keep,
  any, all, find, modify_first, length-append, All, All-append, All-split, All-keep,
  All-modify_first, All-find, All-imp, All-keep_self, find-modify_first, find-test, some-inj,
  ok-inj, Text, codes, text_eq, text_eq_iff, text_eq_refl, text_eq_sym, includes, is_white,
  is_empty, trim_start, trim_end, trim, to_lower, lower, split_from, split, starts_with, index_of,
  join, Fault, http, failure, Result, ok, err, bind, bind-eq-ok, guard, Exec, pure, raise, continue,
  ◌>>=◌, ◌>>◌, ℕ, zero, suc, ◌+◌, ◌-◌, ◌*◌, ◌/◌, ◌%◌, ◌^◌, ◌≤◌, ◌<◌, String, ◌≡◌, refl, sym, ap,
  ◌∙◌, ◌≢◌, ◌↔◌, ◌⊎◌, inl, inr, Bool, true, false, not, ◌&&◌, ◌||◌, Option, none, some, List, [],
  ◌∷◌, ◌++◌, map, arith,
}
use code_jam.Policy.Types.{CapabilityRequest, PolicyContext, Actor, PolicyViolation}
use code_jam.Policy.Evaluate.{evaluate_command, describe_capabilities}
use code_jam.Shell.{Node}
use code_jam.Capabilities.{extract_from, extract_capabilities, CarveoutMode, is_textual_url_only}

-- Extraction does not fail.
abbrev pub extracted : Node → Text → PolicyContext → Result (List CapabilityRequest)
extracted node command context = ok (extract_capabilities node command context)

unfoldable pub govern_command :
    CarveoutMode → Node → Actor → Text → PolicyContext → Result (Option PolicyViolation)
unfolding evaluate_command extract_from is_textual_url_only
govern_command mode node actor command context =
    evaluate_command (extracted node) (λ text. is_textual_url_only mode node text) actor command
      context
