-- ===== src/Runner/Parity.antt =====
-- The replay of a stream against the run of it: `ReplayRunner.run`
-- (apps/server/src/replay-runner.ts) and `CodexRunner.run` (apps/server/src/codex-runner.ts).
use code_jam.Prelude.{
  ltb, le→ltb-false, length, All, Text, trim, ok, ℕ, ◌+◌, ◌≤◌, ◌≡◌, refl, sym, ap, ◌∙◌, ◌⊎◌, inl,
  inr, false, none, some, List, [], ◌∷◌, ◌++◌, arith,
}
use mathlib.Core.Path.{subst}
use mathlib.Core.List.{append-nil}
use code_jam.Policy.Scan.{Evaluator}
use code_jam.Service.Execution.{Outcome, RunnerInput}
use code_jam.Runner.{Parser, ParsedEvents, empty_parsed_events, parse_lines}
use code_jam.Runner.Lines.{line_parts-append, parse_lines-Grows}
use code_jam.Runner.Stream.{
  RunnerConfig, Running, started, out_chunk, drop_return, line_parts, first_of, note_violations,
  read_out, step, run_steps, flush_line, flush_run, conclude_run, close_run, run_codex,
}
use code_jam.Runner.Judging.{judged, HasJudged, apply_policy-HasJudged}
use code_jam.Runner.Following.{first_events, consume-within}
use code_jam.Runner.Guarantees.{close_run-flush_run}
use code_jam.Runner.Replay.{
  ReplayFixture, select_fixture, Replaying, replay_verdict, replay_end, replay_start, replay_run,
}
use code_jam.Runner.Replay.Playing.{
  HasPlayed, HasStopped, replay_policy-HasPlayed, replay_lines-HasPlayed,
}
use code_jam.Runner.Endings.{
  ending, conclude_run-ending, replay_verdict-ending, decided-same, decided-refused,
}

-- A text without a line end.
abbrev pub IsLine : Text → Type 0
IsLine line = (line_parts [] line ≡ ([], line)) × (drop_return line ≡ line)

-- The lines, each closed by a line feed.
abbrev pub unlines : List Text → Text
unlines [] = []
unlines (line ∷ lines) = line ++ (10 ∷ unlines lines)

line_parts-unlines :
    (lines : List Text) → All IsLine lines → line_parts [] (unlines lines) ≡ (lines, [])
unfolding line_parts
line_parts-unlines [] h = refl
line_parts-unlines (line ∷ lines) ((open_end, bare), h) =
    rw (line_parts-append [] line (10 ∷ unlines lines), open_end, line_parts-unlines lines h, bare)
      refl

module _ (parse : Parser) (evaluate : Evaluator) (config : RunnerConfig)
    (request : RunnerInput) where
  -- A run whose only chunk holds the lines, to the state that it is concluded from.
  run_codex-chunk :
      (lines : List Text) (bytes : ℕ) (p : ParsedEvents)
      → All IsLine lines
      → bytes ≤ config.codex_max_output_bytes
      → parse_lines parse lines (first_events parse evaluate config request) ≡ ok p
      → (t : Running) × (run_codex parse evaluate config request
            (out_chunk bytes (unlines lines) ∷ [])
            0
          ≡ ok (conclude_run config 0 t))
        × (t.parsed ≡ p)
        × HasJudged parse evaluate config request p.commands t
        × (t.cancelled ≡ false)
        × (t.timed_out ≡ false)
        × (t.output_exceeded ≡ false)
  unfolding run_codex run_steps step read_out started flush_run flush_line note_violations close_run
      trim first_of empty_parsed_events
  run_codex-chunk lines bytes p bare below h =
      let start = first_events parse evaluate config request in
      let text = unlines lines in
      let opened : Running = record (started request) { total_bytes = 0 + bytes } in
      let fed : Running = record opened { stdout = []; parsed = p } in
      let (new, grown) = parse_lines-Grows parse lines start p h in
      let no_budget = sym (le→ltb-false config.policy_max_commands 0 (omega arith)) in
      let (scan, judges) =
        apply_policy-HasJudged parse evaluate config request fed [] new
          (refl, refl, refl, no_budget) grown in
      let r =
        note_violations parse evaluate config request fed
          (judged parse evaluate config request new) in
      let reads : read_out parse evaluate config request text opened ≡ ok r =
        rw (line_parts-unlines lines bare, h) scan in
      let stepped : step parse evaluate config request (out_chunk bytes text) (started request)
          ≡ ok r =
        consume-within parse evaluate config request bytes
          (read_out parse evaluate config request text) (started request) (omega arith)
        ∙ reads in
      let (again, ended) =
        apply_policy-HasJudged parse evaluate config request r new [] judges
          (grown ∙ sym (append-nil new)) in
      let t =
        note_violations parse evaluate config request r (judged parse evaluate config request []) in
      (
        t,
        rw stepped (ap ok (close_run-flush_run parse evaluate config request 0 r t again)),
        refl,
        subst (λ u. HasJudged parse evaluate config request u t) (append-nil new ∙ sym grown) ended,
        refl,
        refl,
        refl,
      )

  -- A replay whose lines parse, to the state that it is concluded from.
  replay_run-lines :
      (fixtures : List ReplayFixture) (fixture : ReplayFixture) (p : ParsedEvents)
      → select_fixture fixtures request.prompt ≡ some fixture
      → parse_lines parse fixture.lines (first_events parse evaluate config request) ≡ ok p
      → (s : Replaying) × (replay_run parse evaluate config fixtures false request
          ≡ replay_verdict config s s.violation)
        × HasPlayed parse evaluate config request s.parsed.commands s
        × ((s.parsed ≡ p) ⊎ HasStopped parse evaluate config request p s)
  unfolding replay_run replay_start replay_end first_of empty_parsed_events
  replay_run-lines fixtures fixture p chosen h =
      let no_budget = sym (le→ltb-false config.policy_max_commands 0 (omega arith)) in
      let (s, ran, played, ended) =
        replay_lines-HasPlayed parse evaluate config request fixture.lines (replay_start request) p
          (refl, refl, refl, no_budget) h in
      let (u, judges, same, replayed) =
        replay_policy-HasPlayed parse evaluate config request s s.parsed.commands [] played
          (sym (append-nil s.parsed.commands)) in
      let commands =
        append-nil s.parsed.commands ∙ ap (λ (q : ParsedEvents). q.commands) (sym same) in
      let again = subst (λ c. HasPlayed parse evaluate config request c u) commands replayed in
      let (_, _, before, _) = played in
      let (_, _, after, _) =
        subst (λ c. HasPlayed parse evaluate config request c u) (append-nil s.parsed.commands)
          replayed in
      let kept : u.violation ≡ s.violation = after ∙ sym before in
      (
        u,
        rw (chosen, replay_run, ran, judges) refl,
        again,
        elim ended [
          | inl whole ↦ inl (same ∙ whole)
          | inr stop ↦
              let (enforced, (v, found, first)) = stop in inr (enforced, (v, kept ∙ found, first))
        ],
      )

  -- If the fixture that a prompt selects holds lines without line ends that parse, then its replay
  -- decides what a live run decides whose process writes these lines in one chunk within the limit and
  -- ends with exit code 0: the same result, the same refusal with its rule, command, detail and hosts,
  -- the same exceeded budget, or a failure.
  pub replay_run-decides_as_live :
      (fixtures : List ReplayFixture) (fixture : ReplayFixture) (bytes : ℕ) (p : ParsedEvents)
      → select_fixture fixtures request.prompt ≡ some fixture
      → All IsLine fixture.lines
      → bytes ≤ config.codex_max_output_bytes
      → parse_lines parse fixture.lines (first_events parse evaluate config request) ≡ ok p
      → (live : Outcome) × (run_codex parse evaluate config request
            (out_chunk bytes (unlines fixture.lines) ∷ [])
            0
          ≡ ok live)
        × (ending (replay_run parse evaluate config fixtures false request) ≡ ending live)
  replay_run-decides_as_live fixtures fixture bytes p chosen bare below h =
      let (t, ran, same, judges, calm, timely, within) =
        run_codex-chunk fixture.lines bytes p bare below h in
      let (s, replayed, played, ended) = replay_run-lines fixtures fixture p chosen h in
      let live = conclude_run-ending config t calm timely within in
      let replay = ap ending replayed ∙ replay_verdict-ending config s s.violation in
      let (_, seen, first, over) = judges in
      (
        conclude_run config 0 t,
        ran,
        elim ended [
          | inl whole ↦
              let (_, played_seen, played_first, played_over) = played in
              let commands = ap (λ (q : ParsedEvents). q.commands) whole in
              let judge = judged parse evaluate config request in
              replay
              ∙ decided-same config.is_enforced config.policy_max_commands
                  (played_first ∙ ap (λ c. first_of none (judge c)) commands ∙ sym first)
                  (played_over
                    ∙ ap (λ c. ltb config.policy_max_commands (length c)) commands
                    ∙ sym over)
                  (whole ∙ sym same) (played_seen ∙ ap judge commands ∙ sym seen)
              ∙ sym live
          | inr stop ↦
              let (enforced, (v, found, whole)) = stop in
              replay
              ∙ decided-refused config.policy_max_commands s.budget_exceeded s.parsed s.observations
                  enforced found
              ∙ sym (
                  decided-refused config.policy_max_commands t.budget_exceeded t.parsed
                    t.observations enforced (first ∙ whole))
              ∙ sym live
        ],
      )
