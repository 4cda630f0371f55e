-- ===== src/Capabilities/Carveout.antt =====
-- The textual carve-out: `isTextualUrlOnly` in its three modes (apps/server/src/capabilities.ts).
pub mod Strict
use code_jam.Prelude.{
  ◌==◌, if◌then◌else◌, drop, keep, any, all, Text, codes, is_empty, trim, starts_with, ℕ, ◌+◌,
  String, Bool, true, false, not, ◌&&◌, ◌||◌, none, some, List, [], ◌∷◌, ◌++◌,
}
use code_jam.Regex.{
  Regex, ◌▸◌, ◌∪◌, many, at_start, boundary, white, solid, in_class, plus, optional, lit, lit_i,
  among_i,
}
use code_jam.Regex.Search.{tests}
use code_jam.Shell.{
  Node, has, Quote, is_quote, invocation_from_segment, executable_from, executable_segments,
}
use code_jam.Capabilities.Scripts.{runs_written_script, writes_by_tool_then_runs}
use code_jam.Capabilities.Networks.{names_url, extract_hosts}
use code_jam.Capabilities.Payloads.{feeds_an_executor}

-- TEXTUAL_URL_CONTEXT
abbrev textual_url_context : Regex
textual_url_context =
    at_start
    ▸ many white
    ▸ optional (many solid ▸ lit_i "sh" ▸ plus white ▸ lit "-" ▸ plus solid ▸ plus white)
    ▸ optional (in_class "\"'")
    ▸ many white
    ▸ (among_i ("echo" ∷ "printf" ∷ [])
        ∪ (lit_i "git" ▸ plus white ▸ among_i ("commit" ∷ "tag" ∷ [])))
    ▸ boundary

unfoldable pub is_textual_context : Text → Bool
unfolding tests
is_textual_context text = tests textual_url_context text

pub data CarveoutMode : Type 0 where
  enumerate strict inert_sink : CarveoutMode

abbrev inert_sinks : List String
inert_sinks =
    "tee" ∷ "cat" ∷ "head" ∷ "tail" ∷ "grep" ∷ "egrep" ∷ "fgrep" ∷ "wc" ∷ "sort" ∷ "uniq" ∷ "less"
    ∷ "more" ∷ "tr" ∷ "cut" ∷ "column" ∷ "fold" ∷ "nl" ∷ "rev" ∷ "tac" ∷ "jq" ∷ "base64" ∷ "gunzip"
    ∷ "gzip" ∷ "tostdout" ∷ []

-- The state of the loop of `topLevelPipelineStages`: the depth is the parentheses that opened less
-- those that closed.
pub record StageState : Type 0 where
  pub quote : Quote
  pub previous : ℕ
  pub opens : ℕ
  pub closes : ℕ
  pub current : Text

-- The state after a code unit that does not end a stage.
unfoldable pub stage_unit : StageState → ℕ → StageState
stage_unit st c =
    let read : StageState = record st { previous = c; current = st.current ++ c ∷ [] } in
    elim st.quote [
      | some q ↦ if c == q && not (st.previous == 92) then record read { quote = none } else read
      | none ↦
          if is_quote c
          then record read { quote = some c }
          else if c == b'('
          then record read { opens = st.opens + 1 }
          else if c == b')'
          then record read { closes = st.closes + 1 }
          else read
    ]

abbrev pub is_stage_end : StageState → ℕ → Bool
is_stage_end st c = elim st.quote [ some _ ↦ false | none ↦ c == b'|' && st.opens == st.closes ]

-- The flag says that the code unit at hand, the second of `||`, was read already.
unfoldable pub stages_from : Bool → StageState → Text → List Text
unfolding trim starts_with stage_unit
stages_from skip st [] = trim st.current ∷ []
stages_from true st (c ∷ s) = stages_from false st s
stages_from false st (c ∷ s) =
    let doubled : StageState = record st { previous = c; current = st.current ++ codes "||" } in
    let ended : StageState = record st { previous = c; current = [] } in
    let both = stages_from true doubled s in
    let closed = trim st.current ∷ stages_from false ended s in
    let longer = stages_from false (stage_unit st c) s in
    if is_stage_end st c then (if starts_with s (codes "|") then both else closed) else longer

abbrev pub start_stage : StageState
start_stage = record { quote = none; previous = 0; opens = 0; closes = 0; current = [] }

unfoldable pub top_level_pipeline_stages : Text → List Text
unfolding stages_from
top_level_pipeline_stages command =
    keep (λ t. not (is_empty t)) (stages_from false start_stage command)

-- `invocation && !INERT_SINKS.has(invocation.tool)`
unfoldable pub is_unknown_sink : Text → Bool
unfolding invocation_from_segment has
is_unknown_sink stage = elim (invocation_from_segment stage true) [
  | none ↦ false
  | some found ↦ not (has inert_sinks found.tool)
]

unfoldable pub feeds_unknown_sink : Text → Bool
unfolding top_level_pipeline_stages is_unknown_sink
feeds_unknown_sink command = any is_unknown_sink (drop 1 (top_level_pipeline_stages command))

-- `segments.length === 1 && TEXTUAL_URL_CONTEXT.test(segments[0])`
abbrev pub is_one_textual : List Text → Bool
is_one_textual (segment ∷ []) = is_textual_context segment
is_one_textual _ = false

-- `/[|><;&`]/`
abbrev pub is_control : ℕ → Bool
is_control c = c == b'|' || c == b'>' || c == b'<' || c == b';' || c == b'&' || c == 96

unfoldable pub is_inert_textual_output : Node → Text → Bool
unfolding tests executable_from is_textual_context
is_inert_textual_output node command =
    not (any is_control command)
    && (not (tests (lit "$(") command) && is_one_textual (executable_segments node command))

-- The segments that carry a destination.
abbrev pub carrying : Node → Text → List Text
carrying node command =
    keep (λ segment. not (is_empty (extract_hosts node segment)) || names_url segment)
      (executable_segments node command)

-- The branch of "enumerate" and "inert-sink".
unfoldable pub is_enumerated_text : Node → Text → Bool
unfolding runs_written_script writes_by_tool_then_runs feeds_an_executor executable_from
    extract_hosts names_url is_textual_context
is_enumerated_text node command =
    not (
      runs_written_script node command
      || (writes_by_tool_then_runs node command || feeds_an_executor node command))
    && (if is_empty (carrying node command)
        then is_textual_context command
        else all is_textual_context (carrying node command))

unfoldable pub is_textual_url_only : CarveoutMode → Node → Text → Bool
unfolding is_textual_context is_inert_textual_output feeds_unknown_sink is_enumerated_text
is_textual_url_only strict node command =
    is_textual_context command && is_inert_textual_output node command
is_textual_url_only inert_sink node command =
    is_textual_context command
    && (not (feeds_unknown_sink command) && is_enumerated_text node command)
is_textual_url_only enumerate node command =
    is_textual_context command && is_enumerated_text node command
