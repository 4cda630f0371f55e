-- ===== src/Runner.antt =====
-- The runners of the agents: what they read of the event stream of Codex
-- (apps/server/src/codex-runner.ts).
pub mod Stream
pub mod Lines
pub mod Replay
pub mod Judging
pub mod Following
pub mod Returning
pub mod Guarantees
pub mod Endings
pub mod Parity
mod Tests
use code_jam.Prelude.{
  ltb, leb, ◌==◌, if◌then◌else◌, ltb→lt, ltb-false→le, lt→ltb, le→ltb-false, ==_iff, Bool-cases,
  if_rule, Option-cases, true-of-ne-false, length, take, drop, get_elem?, get_or, flat_map, keep,
  any, all, find, modify_first, length-append, All, All-append, All-split, All-keep,
  All-modify_first, All-find, All-imp, All-keep_self, find-modify_first, find-test, some-inj,
  ok-inj, Text, codes, text_eq, text_eq_iff, text_eq_refl, text_eq_sym, includes, is_white,
  is_empty, trim_start, trim_end, trim, to_lower, lower, split_from, split, starts_with, index_of,
  join, Fault, http, failure, Result, ok, err, bind, bind-eq-ok, guard, Exec, pure, raise, continue,
  ◌>>=◌, ◌>>◌, ℕ, zero, suc, ◌+◌, ◌-◌, ◌*◌, ◌/◌, ◌%◌, ◌^◌, ◌≤◌, ◌<◌, String, ◌≡◌, refl, sym, ap,
  ◌∙◌, ◌≢◌, ◌↔◌, ◌⊎◌, inl, inr, Bool, true, false, not, ◌&&◌, ◌||◌, Option, none, some, List, [],
  ◌∷◌, ◌++◌, map, arith,
}
use code_jam.Data.{RunUsage}

-- What `JSON.parse` returns. A number is one that counts; the fields of an object are in order,
-- each name once.
mutual
  pub data Json : Type 0 where
    null : Json
    boolean : Bool → Json
    number : ℕ → Json
    string : Text → Json
    array : Items → Json
    object : Fields → Json

  pub data Items : Type 0 where
    no_items : Items
    item : Json → Items → Items

  pub data Fields : Type 0 where
    no_fields : Fields
    field : Text → Json → Fields → Fields

-- `JSON.parse`, which throws where it is `none`
abbrev pub Parser : Type 0
Parser = Text → Option Json

unfoldable pub get_field : Text → Fields → Option Json
unfolding text_eq
get_field name no_fields = none
get_field name (field key value rest) =
    let later = get_field name rest in if text_eq key name then some value else later

-- `value.name` where the value is not null; of all values only an object has the fields read here.
unfoldable pub member : Text → Json → Option Json
unfolding get_field
member name (object fields) = get_field name fields
member name _ = none

-- `typeof value === "string" ? value : …`
unfoldable pub as_text : Option Json → Option Text
as_text (some (string s)) = some s
as_text _ = none

unfoldable pub as_number : Option Json → Option ℕ
as_number (some (number n)) = some n
as_number _ = none

-- `value && typeof value === "object"`, which holds of an array
unfoldable pub as_object : Option Json → Option Json
as_object (some (object fields)) = some (object fields)
as_object (some (array items)) = some (array items)
as_object _ = none

-- `value === text`
unfoldable pub is_text : Option Json → Text → Bool
unfolding text_eq
is_text (some (string s)) t = text_eq s t
is_text _ t = false

unfoldable pub text_items : Items → List Text
text_items no_items = []
text_items (item (string s) rest) = s ∷ text_items rest
text_items (item _ rest) = text_items rest

-- `readCommand`
unfoldable pub command_text : Option Json → Option Text
unfolding text_items join
command_text (some (string s)) = some s
command_text (some (array items)) = elim (text_items items) [
  | [] ↦ none
  | s ∷ rest ↦ some (join (codes " ") (s ∷ rest))
]
command_text _ = none

unfoldable pub read_command : Json → Option Text
unfolding member command_text
read_command value = command_text (member (codes "command") value)

pub record ParsedEvents : Type 0 where
  pub messages : List Text
  pub thread_id : Option Text
  pub usage : Option RunUsage
  pub errors : List Text
  pub commands : List Text
  pub seen_command_ids : List Text

unfoldable pub empty_parsed_events : Option Text → ParsedEvents
empty_parsed_events thread_id = record {
  messages = [];
  thread_id = thread_id;
  usage = none;
  errors = [];
  commands = [];
  seen_command_ids = [];
}

unfoldable pub with_thread : Option Text → ParsedEvents → ParsedEvents
with_thread none p = p
with_thread (some id) p = record p { thread_id = some id }

-- `event.type === "thread.started"`
unfoldable pub note_thread : Json → ParsedEvents → ParsedEvents
unfolding member is_text as_text with_thread
note_thread event p =
    if is_text (member (codes "type") event) (codes "thread.started")
    then with_thread (as_text (member (codes "thread_id") event)) p
    else p

-- `if (command && !(id && parsed.seenCommandIds.has(id)))`
unfoldable pub record_command : Option Text → Option Text → ParsedEvents → ParsedEvents
unfolding text_eq
record_command none id p = p
record_command (some []) id p = p
record_command (some (c ∷ s)) none p = record p { commands = p.commands ++ ((c ∷ s) ∷ []) }
record_command (some (c ∷ s)) (some []) p = record p { commands = p.commands ++ ((c ∷ s) ∷ []) }
record_command (some (c ∷ s)) (some (d ∷ id)) p =
    if includes (d ∷ id) p.seen_command_ids then p else record p {
      commands = p.commands ++ ((c ∷ s) ∷ []);
      seen_command_ids = p.seen_command_ids ++ ((d ∷ id) ∷ []);
    }

unfoldable pub with_message : Option Text → ParsedEvents → ParsedEvents
with_message none p = p
with_message (some text) p = record p { messages = p.messages ++ (text ∷ []) }

unfoldable pub note_message : (is_completed : Bool) → Json → ParsedEvents → ParsedEvents
unfolding member is_text as_text with_message
note_message is_completed value p =
    if is_completed && is_text (member (codes "type") value) (codes "agent_message")
    then with_message (as_text (member (codes "text") value)) p
    else p

unfoldable pub note_command : Json → ParsedEvents → ParsedEvents
unfolding member is_text as_text record_command read_command
note_command value p =
    if is_text (member (codes "type") value) (codes "command_execution")
    then record_command (read_command value) (as_text (member (codes "id") value)) p
    else p

unfoldable pub with_item : (is_completed : Bool) → Option Json → ParsedEvents → ParsedEvents
unfolding note_message note_command
with_item is_completed none p = p
with_item is_completed (some value) p = note_command value (note_message is_completed value p)

-- `event.type === "item.completed" || event.type === "item.started"`
unfoldable pub note_item : Json → ParsedEvents → ParsedEvents
unfolding member is_text as_object with_item
note_item event p =
    let type = member (codes "type") event in
    let is_completed = is_text type (codes "item.completed") in
    if is_completed || is_text type (codes "item.started")
    then with_item is_completed (as_object (member (codes "item") event)) p
    else p

unfoldable pub with_usage : Option Json → ParsedEvents → ParsedEvents
unfolding member as_number
with_usage none p = p
with_usage (some usage) p = record p {
  usage = some (record {
    input_tokens = as_number (member (codes "input_tokens") usage);
    cached_input_tokens = as_number (member (codes "cached_input_tokens") usage);
    output_tokens = as_number (member (codes "output_tokens") usage);
  });
}

-- `event.type === "turn.completed"`
unfoldable pub note_usage : Json → ParsedEvents → ParsedEvents
unfolding member is_text as_object with_usage
note_usage event p =
    if is_text (member (codes "type") event) (codes "turn.completed")
    then with_usage (as_object (member (codes "usage") event)) p
    else p

-- `event.type === "error"`
unfoldable pub error_text : Json → Text
unfolding member as_text
error_text event = elim (as_text (member (codes "message") event)) [
  | some message ↦ message
  | none ↦ elim (as_text (member (codes "error") event)) [
    | some message ↦ message
    | none ↦ codes "Codex reported an unknown error"
  ]
]

unfoldable pub note_error : Json → ParsedEvents → ParsedEvents
unfolding member is_text error_text
note_error event p =
    if is_text (member (codes "type") event) (codes "error")
    then record p { errors = p.errors ++ (error_text event ∷ []) }
    else p

-- `event.type` of null throws, outside the `try` around `JSON.parse`.
unfoldable pub note_event : Json → ParsedEvents → Result ParsedEvents
unfolding note_thread note_item note_usage note_error
note_event null p = err (failure (codes "Cannot read properties of null (reading 'type')"))
note_event event p =
    ok (note_error event (note_usage event (note_item event (note_thread event p))))

unfoldable pub read_event : Option Json → ParsedEvents → Result ParsedEvents
unfolding note_event
read_event none p = ok p
read_event (some event) p = note_event event p

-- `parseCodexEventLine`
unfoldable pub parse_codex_event_line : Parser → Text → ParsedEvents → Result ParsedEvents
unfolding read_event
parse_codex_event_line parse line p = read_event (parse line) p

-- `for (const line of lines) parseCodexEventLine(line, parsed)`
unfoldable pub parse_lines : Parser → List Text → ParsedEvents → Result ParsedEvents
unfolding parse_codex_event_line
parse_lines parse [] p = ok p
parse_lines parse (line ∷ lines) p =
    bind (parse_codex_event_line parse line p) (parse_lines parse lines)
