-- ===== src/Runner/Following.antt =====
-- The run's state against the whole of what the process wrote (apps/server/src/codex-runner.ts).
use code_jam.Prelude.{
  le→ltb-false, Text, trim, Result, ok, bind, bind-eq-ok, ℕ, ◌+◌, ◌≤◌, ◌≡◌, refl, sym, ap, ◌∙◌,
  false, List, [], ◌∷◌, ◌++◌, arith,
}
use mathlib.Core.Path.{subst}
use mathlib.Core.List.{append-nil, append_assoc}
use code_jam.Policy.Scan.{Evaluator}
use code_jam.Service.Execution.{RunnerInput}
use code_jam.Runner.{Parser, ParsedEvents, empty_parsed_events, parse_lines}
use code_jam.Runner.Lines.{
  line_parts-append, line_parts-rest, parse_lines-append, parse_lines-Grows,
}
use code_jam.Runner.Stream.{
  RunnerConfig, Running, RunStep, out_chunk, err_chunk, time_out, cancel, line_parts,
  note_violations, read_out, read_err, consume, step, run_steps, flush_line,
}
use code_jam.Runner.Judging.{judged, HasJudged, apply_policy-HasJudged}

-- The events of an output that is read as a whole, at once.
abbrev pub stream_events : Parser → ParsedEvents → Text → Result ParsedEvents
stream_events parse start text =
    let parts = line_parts [] text in
    bind (parse_lines parse parts.0 start) (flush_line parse (trim parts.1))

-- What a step writes to stdout, and what its chunk counts.
abbrev pub written : RunStep → Text
written (out_chunk bytes text) = text
written _ = []

abbrev pub counted : RunStep → ℕ
counted (out_chunk bytes text) = bytes
counted (err_chunk bytes text) = bytes
counted _ = 0

abbrev pub all_written : List RunStep → Text
all_written [] = []
all_written (s ∷ steps) = written s ++ all_written steps

abbrev pub all_counted : List RunStep → ℕ
all_counted [] = 0
all_counted (s ∷ steps) = counted s + all_counted steps

module _ (parse : Parser) (evaluate : Evaluator) (config : RunnerConfig)
    (request : RunnerInput) where
  abbrev pub first_events : ParsedEvents
  first_events = empty_parsed_events request.thread_id

  -- The state after the process has written a text, within the limit.
  abbrev pub Follows : Text → Running → Type 0
  Follows text r =
      HasJudged parse evaluate config request r.parsed.commands r
      × (r.output_exceeded ≡ false)
      × (r.stdout ≡ (line_parts [] text).1)
      × (parse_lines parse (line_parts [] text).0 first_events ≡ ok r.parsed)

  -- The pieces of a longer text, by those of the text and what was kept of it.
  parts_longer :
      (text more : Text) (stdout : Text)
      → stdout ≡ (line_parts [] text).1
      → line_parts [] (text ++ more) ≡ (
        (line_parts [] text).0 ++ (line_parts [] (stdout ++ more)).0,
        (line_parts [] (stdout ++ more)).1,
      )
  unfolding line_parts
  parts_longer text more stdout e =
      let kept = line_parts-append [] (line_parts [] text).1 more in
      let open_end = line_parts-rest [] text refl in
      rw (e, line_parts-append [] text more, kept, open_end) refl

  pub parts_parsed :
      (text more : Text) (r : Running)
      → Follows text r
      → parse_lines parse (line_parts [] (text ++ more)).0 first_events
        ≡ parse_lines parse (line_parts [] (r.stdout ++ more)).0 r.parsed
  parts_parsed text more r (_, _, kept, read) =
      rw
        (
          parts_longer text more r.stdout kept,
          parse_lines-append parse (line_parts [] text).0 (line_parts [] (r.stdout ++ more)).0
              first_events,
          read,
        )
        refl

  -- A chunk of stdout whose lines parse.
  read_out-Follows :
      (text more : Text) (r : Running) (p : ParsedEvents)
      → Follows text r
      → parse_lines parse (line_parts [] (r.stdout ++ more)).0 r.parsed ≡ ok p
      → (s : Running) × (read_out parse evaluate config request more r ≡ ok s)
        × Follows (text ++ more) s
        × (s.total_bytes ≡ r.total_bytes)
  unfolding read_out note_violations
  read_out-Follows text more r p (done, within, kept, read) h =
      let parts = line_parts [] (r.stdout ++ more) in
      let (new, grown) = parse_lines-Grows parse parts.0 r.parsed p h in
      let next : Running = record r { stdout = parts.1; parsed = p } in
      let (scan, after) =
        apply_policy-HasJudged parse evaluate config request next r.parsed.commands new done
          grown in
      let s =
        note_violations parse evaluate config request next
          (judged parse evaluate config request new) in
      let longer = parts_longer text more r.stdout kept in
      let parsed = parts_parsed text more r (done, within, kept, read) ∙ h in
      (
        s,
        rw h scan,
        (
          subst (λ t. HasJudged parse evaluate config request t s) (sym grown) after,
          within,
          ap (λ t. t.1) (sym longer),
          parsed,
        ),
        refl,
      )

  pub nothing_more : (text : Text) (r : Running) → Follows text r → Follows (text ++ []) r
  nothing_more text r h = subst (λ t. Follows t r) (sym (append-nil text)) h

  pub consume-within :
      (bytes : ℕ) (read : Running → Result Running) (r : Running)
      → r.total_bytes + bytes ≤ config.codex_max_output_bytes
      → consume parse evaluate config request bytes read r
        ≡ read (record r { total_bytes = r.total_bytes + bytes })
  unfolding consume
  consume-within bytes read r h =
      rw (le→ltb-false config.codex_max_output_bytes (r.total_bytes + bytes) h) refl

  -- A step within the limit, whose lines parse.
  pub step-Follows :
      (s : RunStep) (text : Text) (r : Running) (p : ParsedEvents)
      → Follows text r
      → r.total_bytes + counted s ≤ config.codex_max_output_bytes
      → parse_lines parse (line_parts [] (text ++ written s)).0 first_events ≡ ok p
      → (t : Running) × (step parse evaluate config request s r ≡ ok t)
        × Follows (text ++ written s) t
        × (t.total_bytes ≡ r.total_bytes + counted s)
  unfolding step read_err
  step-Follows (out_chunk bytes more) text r p h below parsed =
      let next : Running = record r { total_bytes = r.total_bytes + bytes } in
      let (t, reads, follows, total) =
        read_out-Follows text more next p h (sym (parts_parsed text more r h) ∙ parsed) in
      (
        t,
        consume-within bytes (read_out parse evaluate config request more) r below ∙ reads,
        follows,
        total,
      )
  step-Follows (err_chunk bytes more) text r p h below parsed =
      let all = r.stderr ++ more in
      (
        _,
        consume-within bytes (read_err parse evaluate config request more) r below,
        nothing_more text r h,
        refl,
      )
  step-Follows time_out text r p h below parsed = (_, refl, nothing_more text r h, omega arith)
  step-Follows cancel text r p h below parsed = (_, refl, nothing_more text r h, omega arith)

  prefix_parsed :
      (text more : Text) (p : ParsedEvents)
      → parse_lines parse (line_parts [] (text ++ more)).0 first_events ≡ ok p
      → (q : ParsedEvents) × (parse_lines parse (line_parts [] text).0 first_events ≡ ok q)
  prefix_parsed text more p h =
      let rest = (line_parts (line_parts [] text).1 more).0 in
      let split = ap (λ t. parse_lines parse t.0 first_events) (line_parts-append [] text more) in
      let (q, e, _) =
        bind-eq-ok (parse_lines parse (line_parts [] text).0 first_events) (parse_lines parse rest)
          (sym (parse_lines-append parse (line_parts [] text).0 rest first_events)
            ∙ sym split
            ∙ h) in
      (q, e)

  -- The steps of a run within the limit, where all that was written parses.
  pub run_steps-Follows :
      (steps : List RunStep) (text : Text) (r : Running) (p : ParsedEvents)
      → Follows text r
      → r.total_bytes + all_counted steps ≤ config.codex_max_output_bytes
      → parse_lines parse (line_parts [] (text ++ all_written steps)).0 first_events ≡ ok p
      → (t : Running) × (run_steps parse evaluate config request steps r ≡ ok t)
        × Follows (text ++ all_written steps) t
  unfolding run_steps
  run_steps-Follows [] text r p h below parsed = (r, refl, nothing_more text r h)
  run_steps-Follows (s ∷ steps) text r p h below parsed =
      let joined = append_assoc text (written s) (all_written steps) in
      let whole =
        subst (λ t. parse_lines parse (line_parts [] t).0 first_events ≡ ok p) (sym joined)
          parsed in
      let (q, first) = prefix_parsed (text ++ written s) (all_written steps) p whole in
      let (m, stepped, follows, total) = step-Follows s text r q h (omega arith) first in
      let (t, ran, after) =
        run_steps-Follows steps (text ++ written s) m p follows (rw total (omega arith)) whole in
      (t, rw stepped ran, subst (λ u. Follows u t) joined after)
