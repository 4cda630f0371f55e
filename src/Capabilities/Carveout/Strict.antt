-- ===== src/Capabilities/Carveout/Strict.antt =====
-- How the modes of the textual carve-out (apps/server/src/capabilities.ts) compare.
use code_jam.Prelude.{
  ◌==◌, if◌then◌else◌, if_rule, drop, keep, any, all, Text, codes, is_empty, trim, ℕ, ◌≡◌, refl, ap,
  ◌∙◌, Bool, true, false, not, ◌&&◌, ◌||◌, Option, none, some, List, [], ◌∷◌, map, arith,
}
use code_jam.Regex.{lit}
use code_jam.Regex.Search.{tests}
use code_jam.Regex.Blocked.{IsBlocked, unit, left, right, tests-IsBlocked, group_all-IsBlocked}
use code_jam.Shell.{
  Node, Quote, Invocation, invocation_from_segment, executable_segments, invocations,
}
use code_jam.Capabilities.Scripts.{
  redirect, redirected_scripts, script_identity, executor_of, executes_one_of, runs_written_script,
  writes_then_runs, writes_by_tool_then_runs,
}
use code_jam.Capabilities.Networks.{names_url, extract_hosts}
use code_jam.Capabilities.Payloads.{herestring_to_shell, procsub_to_shell, feeds_an_executor}
use code_jam.Capabilities.Carveout.{
  is_textual_context, enumerate, strict, inert_sink, StageState, start_stage, stage_unit,
  stages_from, top_level_pipeline_stages, is_unknown_sink, feeds_unknown_sink, is_control,
  is_one_textual, is_inert_textual_output, is_enumerated_text, is_textual_url_only,
}

abbrev is_inert_unit : ℕ → Bool
is_inert_unit c = not (is_control c)

all-inert : (s : Text) → any is_control s ≡ false → all is_inert_unit s ≡ true
all-inert [] h = refl
all-inert (c ∷ s) h = ground (arith, all-inert s)

-- A unit that the expressions below must read, and that an inert text has not.
no_less : (u : ℕ) → is_inert_unit u ≡ true → (u == b'<') ≡ false
no_less u h = ground (arith, h)

no_greater : (u : ℕ) → is_inert_unit u ≡ true → (u == b'>') ≡ false
no_greater u h = ground (arith, h)

redirect-IsBlocked : IsBlocked is_inert_unit redirect
unfolding codes
redirect-IsBlocked = left (left (unit no_greater))

herestring-IsBlocked : IsBlocked is_inert_unit herestring_to_shell
unfolding codes
herestring-IsBlocked = right (right (right (left (unit no_less))))

procsub-IsBlocked : IsBlocked is_inert_unit procsub_to_shell
unfolding codes
procsub-IsBlocked = right (right (right (left (unit no_less))))

not-true : (b : Bool) → not b ≡ true → b ≡ false
not-true true h = cc
not-true false h = refl

no_pipe : (s : Text) → all is_inert_unit s ≡ true → any (λ c. c == b'|') s ≡ false
no_pipe [] h = refl
no_pipe (c ∷ s) h = ground (arith, no_pipe s)

none_holds : (a b c d : Bool) → a ≡ false → b ≡ false → c ≡ false → (a || b) || (c && d) ≡ false
none_holds true b c d e f g = cc
none_holds false true c d e f g = cc
none_holds false false true d e f g = cc
none_holds false false false d e f g = refl

-- Without a pipe the line is one stage.
one_stage :
    (st : StageState) (s : Text)
    → all is_inert_unit s ≡ true
    → (stage : Text) × (stages_from false st s ≡ stage ∷ [])
unfolding stages_from
one_stage st [] h = (trim st.current, refl)
one_stage st (c ∷ s) h =
    let (stage, e) = one_stage (stage_unit st c) s (ground (arith, h)) in
    (stage, rw (no_end st.quote) e)
  where
    no_end :
        (q : Quote)
        → elim q as (λ _. Bool) [ some _ ↦ false | none ↦ c == b'|' && st.opens == st.closes ]
          ≡ false
    no_end none = ground (arith, h)
    no_end (some _) = refl

no_sink_after :
    (p : Text → Bool) (stage : Text) → any is_unknown_sink (drop 1 (keep p (stage ∷ []))) ≡ false
no_sink_after p stage =
    if_rule (λ (ss : List Text). any is_unknown_sink (drop 1 ss) ≡ false) (p stage) (λ _. refl)
      (λ _. refl)

module _ (node : Node) (command : Text) (inert : all is_inert_unit command ≡ true) where
  nothing_redirected : redirected_scripts command ≡ []
  nothing_redirected =
      ap (λ names. map script_identity names)
        (group_all-IsBlocked is_inert_unit redirect-IsBlocked 1 command inert)

  not_written : runs_written_script node command ≡ false
  unfolding runs_written_script
  not_written =
      ap
        (λ (written : List Text).
          not (is_empty written)
          && (any (λ name. not (is_empty name) && tests (executor_of name) command) written
              || any (λ found. executes_one_of found written)
                  (invocations (executable_segments node command))))
        nothing_redirected

  not_fed : feeds_an_executor node command ≡ false
  unfolding feeds_an_executor
  not_fed =
      none_holds (tests herestring_to_shell command) (tests procsub_to_shell command) _ _
        (tests-IsBlocked is_inert_unit herestring-IsBlocked command inert)
        (tests-IsBlocked is_inert_unit procsub-IsBlocked command inert) (no_pipe command inert)

  not_piped : feeds_unknown_sink command ≡ false
  unfolding feeds_unknown_sink top_level_pipeline_stages
  not_piped =
      let (stage, e) = one_stage start_stage command inert in
      ap (λ stages. any is_unknown_sink (drop 1 (keep (λ t. not (is_empty t)) stages))) e
      ∙ no_sink_after (λ t. not (is_empty t)) stage

single_run :
    (found : Option Invocation)
    → writes_then_runs []
        (elim found as (λ _. List Invocation) [ none ↦ [] | some one_found ↦ one_found ∷ [] ])
      ≡ false
unfolding writes_then_runs
single_run none = refl
single_run (some found) = refl

single_segment : (segment : Text) → writes_then_runs [] (invocations (segment ∷ [])) ≡ false
unfolding invocations
single_segment segment = single_run (invocation_from_segment segment true)

-- A line of one segment has nothing that could run what it wrote before.
not_run_later :
    (node : Node) (command segment : Text)
    → executable_segments node command ≡ segment ∷ []
    → writes_by_tool_then_runs node command ≡ false
unfolding writes_by_tool_then_runs
not_run_later node command segment e =
    ap (λ ss. writes_then_runs [] (invocations ss)) e ∙ single_segment segment

one_textual_segment :
    (ss : List Text)
    → is_one_textual ss ≡ true
    → (segment : Text) × (ss ≡ segment ∷ []) × (is_textual_context segment ≡ true)
one_textual_segment [] h = cc
one_textual_segment (s ∷ []) h = (s, refl, h)
one_textual_segment (s ∷ t ∷ ss) h = cc

-- The segments of a textual line that carry a destination are textual.
carrying_textual :
    (p : Text → Bool) (command segment : Text)
    → is_textual_context command ≡ true
    → is_textual_context segment ≡ true
    → (if is_empty (keep p (segment ∷ []))
        then is_textual_context command
        else all is_textual_context (keep p (segment ∷ [])))
      ≡ true
carrying_textual p command segment h k =
    if_rule
      (λ (ss : List Text).
        (if is_empty ss then is_textual_context command else all is_textual_context ss) ≡ true)
      (p segment) (λ _. rw k refl) (λ _. h)

and-both : (a b : Bool) → a && b ≡ true → (a ≡ true) × (b ≡ true)
and-both true b h = (refl, h)
and-both false b h = cc

and_intro : (a b : Bool) → a ≡ true → b ≡ true → a && b ≡ true
and_intro a b h k = rw h k

enumerated :
    (node : Node) (command segment : Text)
    → all is_inert_unit command ≡ true
    → is_textual_context command ≡ true
    → executable_segments node command ≡ segment ∷ []
    → is_textual_context segment ≡ true
    → is_enumerated_text node command ≡ true
unfolding is_enumerated_text
enumerated node command segment inert context one_only textual =
    rw
      (
        not_written node command inert,
        not_run_later node command segment one_only,
        not_fed node command inert,
      )
      (ap
          (λ ss.
            let carried = keep (λ s. not (is_empty (extract_hosts node s)) || names_url s) ss in
            if is_empty carried then is_textual_context command else all is_textual_context carried)
          one_only
        ∙ carrying_textual (λ s. not (is_empty (extract_hosts node s)) || names_url s) command
            segment context textual)

-- The strict mode of the textual carve-out is the narrowest: a command that it exempts as text is
-- exempt in the shipping mode, and in the mode that only enumerates, as well.
pub strict_narrowest :
    (node : Node) (command : Text)
    → is_textual_url_only strict node command ≡ true
    → (is_textual_url_only inert_sink node command ≡ true)
      × (is_textual_url_only enumerate node command ≡ true)
unfolding is_textual_url_only is_inert_textual_output
strict_narrowest node command h =
    let (context, inert_text) = and-both (is_textual_context command) _ h in
    let (plain, more) = and-both (not (any is_control command)) _ inert_text in
    let (_, one_textual) = and-both (not (tests (lit "$(") command)) _ more in
    let inert = all-inert command (not-true _ plain) in
    let (segment, one_only, textual) =
      one_textual_segment (executable_segments node command) one_textual in
    let e = enumerated node command segment inert context one_only textual in
    (
      and_intro (is_textual_context command) _ context (
          and_intro (not (feeds_unknown_sink command)) _ (ap not (not_piped node command inert)) e),
      and_intro (is_textual_context command) _ context e,
    )
