-- ===== src/Runner/Lines.antt =====
-- About the lines of a stream and the events that are read from them
-- (apps/server/src/codex-runner.ts).
use code_jam.Prelude.{
  ◌==◌, Bool-cases, if_rule, ok-inj, Text, codes, includes, Result, ok, err, bind, bind-eq-ok, ◌≡◌,
  refl, sym, ap, ◌∙◌, inl, inr, Bool, ◌&&◌, ◌||◌, Option, none, some, List, [], ◌∷◌, ◌++◌,
}
use mathlib.Core.Path.{subst}
use mathlib.Core.List.{append-nil, append_assoc}
use code_jam.Runner.{
  Json, null, boolean, number, string, array, object, Parser, ParsedEvents, member, as_text,
  as_object, is_text, read_command, with_thread, with_message, with_item, with_usage, note_thread,
  record_command, note_message, note_command, note_item, note_usage, note_error, note_event,
  read_event, parse_codex_event_line, parse_lines,
}
use code_jam.Runner.Stream.{line_parts, flush_line}

-- The split of a text in two: the last piece of the first half goes on into the second.
pub line_parts-append :
    (piece a b : Text)
    → line_parts piece (a ++ b) ≡ (
      (line_parts piece a).0 ++ (line_parts (line_parts piece a).1 b).0,
      (line_parts (line_parts piece a).1 b).1,
    )
unfolding line_parts
line_parts-append piece [] b = refl
line_parts-append piece (c ∷ a) b = elim (Bool-cases (c == 10)) [
  | inl e ↦ rw (e, line_parts-append [] a b)
  | inr e ↦ rw (e, line_parts-append (piece ++ c ∷ []) a b)
]

-- The last piece has no line end in it.
pub line_parts-rest :
    (piece a : Text)
    → line_parts [] piece ≡ ([], piece)
    → line_parts [] (line_parts piece a).1 ≡ ([], (line_parts piece a).1)
unfolding line_parts
line_parts-rest piece [] h = h
line_parts-rest piece (c ∷ a) h = elim (Bool-cases (c == 10)) [
  | inl e ↦ rw e (line_parts-rest [] a refl)
  | inr e ↦
      let longer : line_parts [] (piece ++ c ∷ []) ≡ ([], piece ++ c ∷ []) =
        rw (line_parts-append [] piece (c ∷ []), h, e) refl in
      rw e (line_parts-rest (piece ++ c ∷ []) a longer)
]

pub parse_lines-append :
    (parse : Parser) (xs ys : List Text) (p : ParsedEvents)
    → parse_lines parse (xs ++ ys) p ≡ bind (parse_lines parse xs p) (parse_lines parse ys)
unfolding parse_lines
parse_lines-append parse [] ys p = refl
parse_lines-append parse (x ∷ xs) ys p =
    go (λ q. parse_lines-append parse xs ys q) (parse_codex_event_line parse x p)
  where
    go :
        ((q : ParsedEvents)
          → parse_lines parse (xs ++ ys) q ≡ bind (parse_lines parse xs q) (parse_lines parse ys))
        → (r : Result ParsedEvents)
        → bind r (parse_lines parse (xs ++ ys))
          ≡ bind (bind r (parse_lines parse xs)) (parse_lines parse ys)
    go later (ok q) = later q
    go later (err e) = refl

-- Commands are only added, at the end.
abbrev pub Grows : ParsedEvents → ParsedEvents → Type 0
Grows p q = (new : List Text) × (q.commands ≡ p.commands ++ new)

Grows-refl : (p q : ParsedEvents) → q.commands ≡ p.commands → Grows p q
Grows-refl p q e = ([], e ∙ sym (append-nil p.commands))

pub Grows-trans : (p q r : ParsedEvents) → Grows p q → Grows q r → Grows p r
Grows-trans p q r (new, h) (more, k) =
    (new ++ more, k ∙ ap (λ t. t ++ more) h ∙ append_assoc p.commands new more)

with_thread-commands :
    (o : Option Text) (p : ParsedEvents) → (with_thread o p).commands ≡ p.commands
unfolding with_thread
with_thread-commands none p = refl
with_thread-commands (some id) p = refl

with_message-commands :
    (o : Option Text) (p : ParsedEvents) → (with_message o p).commands ≡ p.commands
unfolding with_message
with_message-commands none p = refl
with_message-commands (some text) p = refl

with_usage-commands : (o : Option Json) (p : ParsedEvents) → (with_usage o p).commands ≡ p.commands
unfolding with_usage
with_usage-commands none p = refl
with_usage-commands (some usage) p = refl

record_command-Grows : (c id : Option Text) (p : ParsedEvents) → Grows p (record_command c id p)
unfolding record_command
record_command-Grows none id p = Grows-refl p p refl
record_command-Grows (some []) id p = Grows-refl p p refl
record_command-Grows (some (c ∷ s)) none p = ((c ∷ s) ∷ [], refl)
record_command-Grows (some (c ∷ s)) (some []) p = ((c ∷ s) ∷ [], refl)
record_command-Grows (some (c ∷ s)) (some (d ∷ id)) p =
    if_rule (Grows p) (includes (d ∷ id) p.seen_command_ids) (λ _. Grows-refl p p refl)
      (λ _. ((c ∷ s) ∷ [], refl))

note_command-Grows : (value : Json) (p : ParsedEvents) → Grows p (note_command value p)
unfolding note_command
note_command-Grows value p =
    if_rule (Grows p) (is_text (member (codes "type") value) (codes "command_execution"))
      (λ _. record_command-Grows (read_command value) (as_text (member (codes "id") value)) p)
      (λ _. Grows-refl p p refl)

note_message-commands :
    (is_completed : Bool) (value : Json) (p : ParsedEvents)
    → (note_message is_completed value p).commands ≡ p.commands
unfolding note_message
note_message-commands is_completed value p =
    if_rule (λ (q : ParsedEvents). q.commands ≡ p.commands)
      (is_completed && is_text (member (codes "type") value) (codes "agent_message"))
      (λ _. with_message-commands (as_text (member (codes "text") value)) p) (λ _. refl)

with_item-Grows :
    (is_completed : Bool) (o : Option Json) (p : ParsedEvents)
    → Grows p (with_item is_completed o p)
unfolding with_item
with_item-Grows is_completed none p = Grows-refl p p refl
with_item-Grows is_completed (some value) p =
    let q = note_message is_completed value p in
    Grows-trans p q (note_command value q)
      (Grows-refl p q (note_message-commands is_completed value p)) (note_command-Grows value q)

note_item-Grows : (event : Json) (p : ParsedEvents) → Grows p (note_item event p)
unfolding note_item
note_item-Grows event p =
    let type = member (codes "type") event in
    let is_completed = is_text type (codes "item.completed") in
    if_rule (Grows p) (is_completed || is_text type (codes "item.started"))
      (λ _. with_item-Grows is_completed (as_object (member (codes "item") event)) p)
      (λ _. Grows-refl p p refl)

note_thread-commands :
    (event : Json) (p : ParsedEvents) → (note_thread event p).commands ≡ p.commands
unfolding note_thread
note_thread-commands event p =
    if_rule (λ (q : ParsedEvents). q.commands ≡ p.commands)
      (is_text (member (codes "type") event) (codes "thread.started"))
      (λ _. with_thread-commands (as_text (member (codes "thread_id") event)) p) (λ _. refl)

note_usage-commands : (event : Json) (p : ParsedEvents) → (note_usage event p).commands ≡ p.commands
unfolding note_usage
note_usage-commands event p =
    if_rule (λ (q : ParsedEvents). q.commands ≡ p.commands)
      (is_text (member (codes "type") event) (codes "turn.completed"))
      (λ _. with_usage-commands (as_object (member (codes "usage") event)) p) (λ _. refl)

note_error-commands : (event : Json) (p : ParsedEvents) → (note_error event p).commands ≡ p.commands
unfolding note_error
note_error-commands event p =
    if_rule (λ (q : ParsedEvents). q.commands ≡ p.commands)
      (is_text (member (codes "type") event) (codes "error")) (λ _. refl) (λ _. refl)

note_all-Grows :
    (event : Json) (p : ParsedEvents)
    → Grows p (note_error event (note_usage event (note_item event (note_thread event p))))
note_all-Grows event p =
    let q = note_thread event p in
    let r = note_item event q in
    let s = note_usage event r in
    let later =
      Grows-refl r (note_error event s)
        (note_error-commands event s ∙ note_usage-commands event r) in
    Grows-trans p q (note_error event s) (Grows-refl p q (note_thread-commands event p))
      (Grows-trans q r (note_error event s) (note_item-Grows event q) later)

note_event-Grows : (event : Json) (p q : ParsedEvents) → note_event event p ≡ ok q → Grows p q
unfolding note_event
note_event-Grows null p q h = cc
note_event-Grows (boolean b) p q h = subst (Grows p) (ok-inj h) (note_all-Grows (boolean b) p)
note_event-Grows (number n) p q h = subst (Grows p) (ok-inj h) (note_all-Grows (number n) p)
note_event-Grows (string s) p q h = subst (Grows p) (ok-inj h) (note_all-Grows (string s) p)
note_event-Grows (array items) p q h = subst (Grows p) (ok-inj h) (note_all-Grows (array items) p)
note_event-Grows (object fields) p q h =
    subst (Grows p) (ok-inj h) (note_all-Grows (object fields) p)

read_event-Grows : (o : Option Json) (p q : ParsedEvents) → read_event o p ≡ ok q → Grows p q
unfolding read_event
read_event-Grows none p q h = Grows-refl p q (ap (λ r. r.commands) (sym (ok-inj h)))
read_event-Grows (some event) p q h = note_event-Grows event p q h

pub parse_codex_event_line-Grows :
    (parse : Parser) (line : Text) (p q : ParsedEvents)
    → parse_codex_event_line parse line p ≡ ok q
    → Grows p q
unfolding parse_codex_event_line
parse_codex_event_line-Grows parse line p q h = read_event-Grows (parse line) p q h

pub parse_lines-Grows :
    (parse : Parser) (lines : List Text) (p q : ParsedEvents)
    → parse_lines parse lines p ≡ ok q
    → Grows p q
unfolding parse_lines
parse_lines-Grows parse [] p q h = Grows-refl p q (ap (λ r. r.commands) (sym (ok-inj h)))
parse_lines-Grows parse (line ∷ lines) p q h =
    let (r, e, k) = bind-eq-ok (parse_codex_event_line parse line p) (parse_lines parse lines) h in
    Grows-trans p r q (parse_codex_event_line-Grows parse line p r e)
      (parse_lines-Grows parse lines r q k)

pub flush_line-Grows :
    (parse : Parser) (line : Text) (p q : ParsedEvents) → flush_line parse line p ≡ ok q → Grows p q
unfolding flush_line
flush_line-Grows parse [] p q h = Grows-refl p q (ap (λ r. r.commands) (sym (ok-inj h)))
flush_line-Grows parse (c ∷ s) p q h = parse_codex_event_line-Grows parse (c ∷ s) p q h
