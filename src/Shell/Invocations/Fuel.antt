-- ===== src/Shell/Invocations/Fuel.antt =====
-- The rounds that the loops of `invocationFromSegment` (apps/server/src/shell-parse.ts) can make.
use code_jam.Prelude.{
  ◌==◌, if◌then◌else◌, Bool-cases, if_rule, length, drop, get_or, any, length-append, some-inj,
  Text, codes, is_white, starts_with, ℕ, zero, suc, ◌+◌, ◌-◌, ◌≤◌, ◌<◌, ◌≡◌, refl, ◌⊎◌, inl, inr,
  Bool, true, false, not, ◌&&◌, ◌||◌, Option, none, some, List, [], ◌∷◌, ◌++◌, arith,
}
use code_jam.Shell.Quoting.{Quote, backslash, is_quote, is_unquoted, starts_escape, toggle}
use code_jam.Shell.Words.{words_from, shell_words, flush, quoted_unit}
use code_jam.Shell.Names.{
  has, simple_wrappers, shell_prefixes, sudo_value_options, is_assignment, base_name,
}
use code_jam.Shell.Invocations.{
  Invocation, is, is_flag, weight, skip_flags, skip_wrapper_flags, skip_dashes, skip_sudo,
  skip_assignments, env_round, env_words, invocation_round, resolve, invocation_from_segment,
}

weight-append : (xs ys : List Text) → weight (xs ++ ys) ≡ weight xs + weight ys
weight-append [] ys = omega arith
weight-append (x ∷ xs) ys = omega (arith, weight-append xs ys)

weight-flush : (cur : Text) (ws : List Text) → weight (flush cur ws) ≤ length cur + 1 + weight ws
weight-flush [] ws = omega arith
weight-flush (c ∷ cur) ws = omega arith

length-quoted_unit : (q : Quote) (c : ℕ) → length (quoted_unit q c) ≤ 1
length-quoted_unit none c = omega arith
length-quoted_unit (some d) c = ground arith

-- The words of a text are no longer than the text.
weight-words_from :
    (q : Quote) (e : Bool) (cur s : Text)
    → weight (words_from q e cur s) ≤ length cur + length s + (if e then 2 else 1)
unfolding words_from
weight-words_from q true cur [] =
    omega (arith, weight-flush (cur ++ backslash ∷ []) [], length-append cur (backslash ∷ []))
weight-words_from q false cur [] = omega (arith, weight-flush cur [])
weight-words_from q true cur (c ∷ s) =
    omega (arith, weight-words_from q false (cur ++ c ∷ []) s, length-append cur (c ∷ []))
weight-words_from q false cur (c ∷ s) =
    let escape : weight (words_from q true cur s) ≤ length cur + length s + 2 =
      weight-words_from q true cur s in
    let mark : weight (words_from (toggle q c) false (cur ++ quoted_unit q c) s)
        ≤ length (cur ++ quoted_unit q c) + length s + 1 =
      weight-words_from (toggle q c) false (cur ++ quoted_unit q c) s in
    let space : weight (words_from q false [] s) ≤ length s + 1 =
      omega (arith, weight-words_from q false [] s) in
    let plain : weight (words_from q false (cur ++ c ∷ []) s)
        ≤ length (cur ++ c ∷ []) + length s + 1 =
      weight-words_from q false (cur ++ c ∷ []) s in
    let flushed = weight-flush cur (words_from q false [] s) in
    let short : length (cur ++ quoted_unit q c) ≤ length cur + 1 =
      omega (arith, length-append cur (quoted_unit q c), length-quoted_unit q c) in
    let longer = length-append cur (c ∷ []) in
    elim (Bool-cases (starts_escape q c)) [
      | inl e ↦ rw e (omega arith)
      | inr n ↦ rw n (elim (Bool-cases (is_quote c)) [
        | inl e ↦ rw e (omega arith)
        | inr n' ↦ rw n' (elim (Bool-cases (is_unquoted q && is_white c)) [
          | inl e ↦ rw e (omega arith)
          | inr n'' ↦ rw n'' (omega arith)
        ])
      ])
    ]

weight-shell_words : (s : Text) → weight (shell_words s) ≤ length s + 1
weight-shell_words s = omega (arith, weight-words_from none false [] s)

weight-skip_flags : (ws : List Text) → weight (skip_flags ws) ≤ weight ws
unfolding skip_flags
weight-skip_flags [] = omega arith
weight-skip_flags (w ∷ ws) = ground (arith, weight-skip_flags ws)

weight-skip_wrapper_flags : (ws : List Text) → weight (skip_wrapper_flags ws) ≤ weight ws
unfolding skip_wrapper_flags
weight-skip_wrapper_flags [] = omega arith
weight-skip_wrapper_flags (w ∷ ws) = ground (arith, weight-skip_wrapper_flags ws)

weight-skip_dashes : (ws : List Text) → weight (skip_dashes ws) ≤ weight ws
weight-skip_dashes [] = omega arith
weight-skip_dashes (w ∷ ws) = ground arith

weight-skip_sudo : (b : Bool) (ws : List Text) → weight (skip_sudo b ws) ≤ weight ws
unfolding skip_sudo
weight-skip_sudo b [] = omega arith
weight-skip_sudo true (w ∷ ws) = omega (arith, weight-skip_sudo false ws)
weight-skip_sudo false (w ∷ ws) =
    ground (arith, weight-skip_sudo (not (any (λ c. c == b'=') w) && has sudo_value_options w) ws)

weight-drop : (ws : List Text) → weight (drop 1 ws) ≤ weight ws
weight-drop [] = omega arith
weight-drop (w ∷ ws) = omega arith

weight-skip_assignments : (ws : List Text) → weight (skip_assignments ws) ≤ weight ws
unfolding skip_assignments
weight-skip_assignments [] = omega arith
weight-skip_assignments (w ∷ ws) = ground (arith, weight-skip_assignments ws)

length-starts_with : (s p : Text) → starts_with s p ≡ true → length p ≤ length s
unfolding starts_with
length-starts_with s [] h = omega arith
length-starts_with [] (d ∷ p) h = cc
length-starts_with (c ∷ s) (d ∷ p) h = ground (arith, length-starts_with s p)

length-drop : (n : ℕ) (s : Text) → length (drop n s) ≤ length s - n
length-drop zero s = omega arith
length-drop (suc n) [] = omega arith
length-drop (suc n) (c ∷ s) = omega (arith, length-drop n s)

-- The words that a round of `env` puts in are lighter than those it takes.
weight-split_option :
    (w : Text) (ws : List Text)
    → weight (shell_words (get_or [] 0 ws) ++ drop 1 ws) < length w + 1 + weight ws
unfolding words_from
weight-split_option w [] = omega arith
weight-split_option w (v ∷ ws) =
    omega (arith, weight-append (shell_words v) ws, weight-shell_words v)

weight-split_value :
    (w : Text) (ws : List Text)
    → starts_with w (codes "--split-string=") ≡ true
    → weight (shell_words (drop 15 w) ++ ws) < length w + 1 + weight ws
weight-split_value w ws h =
    let long : 15 ≤ length w = unfold codes in length-starts_with w (codes "--split-string=") h in
    omega (
      arith,
      weight-append (shell_words (drop 15 w)) ws,
      weight-shell_words (drop 15 w),
      length-drop 15 w,
    )

abbrev Lighter : ℕ → List Text ⊎ List Text → Type 0
Lighter n (inl ws) = weight ws < n
Lighter n (inr ws) = weight ws ≤ n

env_round-Lighter :
    (w : Text) (ws : List Text) → Lighter (length w + 1 + weight ws) (env_round w ws)
unfolding env_round
env_round-Lighter w ws =
    let n = length w + 1 + weight ws in
    let P = λ (r : List Text ⊎ List Text). Lighter n r in
    if_rule P (is "--" w) (λ _. omega arith)
      λ _.
        if_rule P (is "-S" w || is "--split-string" w) (λ _. weight-split_option w ws)
          λ _.
            if_rule P (starts_with w (codes "--split-string=")) (λ h. weight-split_value w ws h)
              λ _.
                if_rule P (is "-u" w || is "--unset" w || is "-C" w || is "--chdir" w)
                  (λ _. omega (arith, weight-drop ws))
                  λ _. if_rule P (is_flag w || is_assignment w) (λ _. omega arith) λ _. omega arith

weight-env_words : (fuel : ℕ) (ws : List Text) → weight (env_words fuel ws) ≤ weight ws
unfolding env_words
weight-env_words zero ws = omega arith
weight-env_words (suc f) [] = omega arith
weight-env_words (suc f) (w ∷ ws) =
    go (env_round w ws) (env_round-Lighter w ws) (λ more. weight-env_words f more)
  where
    go :
        (r : List Text ⊎ List Text)
        → Lighter (length w + 1 + weight ws) r
        → ((more : List Text) → weight (env_words f more) ≤ weight more)
        → weight (elim r [ inl more ↦ env_words f more | inr done ↦ done ])
          ≤ length w + 1 + weight ws
    go (inl more) h ih = omega (arith, ih more)
    go (inr done) h ih = h

-- More rounds than the words weigh make no difference to the loop of `env`.
env_words-stable :
    (f g : ℕ) (ws : List Text) → weight ws ≤ f → weight ws ≤ g → env_words f ws ≡ env_words g ws
unfolding env_words
env_words-stable zero zero ws h k = refl
env_words-stable zero (suc g) [] h k = refl
env_words-stable zero (suc g) (w ∷ ws) h k = absurd (omega arith)
env_words-stable (suc f) zero [] h k = refl
env_words-stable (suc f) zero (w ∷ ws) h k = absurd (omega arith)
env_words-stable (suc f) (suc g) [] h k = refl
env_words-stable (suc f) (suc g) (w ∷ ws) h k =
    go (env_round w ws) (env_round-Lighter w ws) (λ more p q. env_words-stable f g more p q)
  where
    go :
        (r : List Text ⊎ List Text)
        → Lighter (length w + 1 + weight ws) r
        → ((more : List Text)
            → weight more ≤ f
            → weight more ≤ g
            → env_words f more ≡ env_words g more)
        → elim r as (λ _. List Text) [ inl more ↦ env_words f more | inr done ↦ done ]
          ≡ elim r as (λ _. List Text) [ inl more ↦ env_words g more | inr done ↦ done ]
    go (inl more) l ih = ih more (omega arith) (omega arith)
    go (inr done) l ih = refl

abbrev LighterRound : ℕ → List Text ⊎ Invocation → Type 0
LighterRound n (inl ws) = weight ws ≤ n
LighterRound n (inr found) = weight found.args ≤ n

invocation_round-Lighter :
    (u : Bool) (w : Text) (ws : List Text) → LighterRound (weight ws) (invocation_round u w ws)
unfolding invocation_round
invocation_round-Lighter u w ws =
    let n = weight ws in
    let P = λ (r : List Text ⊎ Invocation). LighterRound n r in
    let tool = base_name w in
    if_rule P (has shell_prefixes tool)
      (λ _.
        if_rule (λ (r : List Text). weight r ≤ n) (is "time" tool) (λ _. weight-skip_flags ws)
          (λ _. omega arith))
      λ _.
        if_rule P (is "command" tool)
          (λ _.
            if_rule P (is "-v" (get_or [] 0 ws) || is "-V" (get_or [] 0 ws)) (λ _. omega arith)
              (λ _. weight-skip_dashes ws))
          λ _.
            if_rule P (has simple_wrappers tool)
              (λ _.
                omega
                  (arith, weight-skip_dashes (skip_wrapper_flags ws), weight-skip_wrapper_flags ws))
              λ _.
                if_rule P (is "sudo" tool) (λ _. weight-skip_sudo false ws)
                  λ _.
                    if_rule P (is "timeout" tool)
                      (λ _. omega (arith, weight-drop (skip_flags ws), weight-skip_flags ws))
                      λ _.
                        if_rule P (is "busybox" tool) (λ _. omega arith)
                          λ _.
                            if_rule P (is "env" tool && u) (λ _. weight-env_words (weight ws) ws)
                              λ _. omega arith

-- More rounds than the words weigh make no difference to the main loop.
resolve-stable :
    (f g : ℕ) (u : Bool) (ws : List Text)
    → weight ws < f
    → weight ws < g
    → resolve f u ws ≡ resolve g u ws
unfolding resolve
resolve-stable zero g u ws h k = absurd (omega arith)
resolve-stable (suc f) zero u ws h k = absurd (omega arith)
resolve-stable (suc f) (suc g) u [] h k = refl
resolve-stable (suc f) (suc g) u (w ∷ ws) h k =
    go (invocation_round u w ws) (invocation_round-Lighter u w ws)
      (λ more p q. resolve-stable f g u more p q)
  where
    go :
        (r : List Text ⊎ Invocation)
        → LighterRound (weight ws) r
        → ((more : List Text)
            → weight more < f
            → weight more < g
            → resolve f u more ≡ resolve g u more)
        → elim r as (λ _. Option Invocation) [
          | inl more ↦ resolve f u more
          | inr found ↦ some found
        ]
          ≡ elim r as (λ _. Option Invocation) [
            | inl more ↦ resolve g u more
            | inr found ↦ some found
          ]
    go (inl more) l ih = ih more (omega arith) (omega arith)
    go (inr found) l ih = refl

-- The loops of `invocationFromSegment` end: with any number of rounds above the code units and words
-- that they are given, the main loop and the loop over the words of `env` give what the model's own
-- number of rounds gives, so neither is ever cut off.
pub invocation_from_segment_rounds :
    (rounds : ℕ) (segment : Text) (unwrap_env : Bool) (ws : List Text)
    → length segment + 1 < rounds
    → weight ws < rounds
    → (resolve rounds unwrap_env (skip_assignments (shell_words segment))
        ≡ invocation_from_segment segment unwrap_env)
      × (env_words rounds ws ≡ env_words (weight ws) ws)
unfolding invocation_from_segment
invocation_from_segment_rounds rounds segment u ws h k =
    let words = skip_assignments (shell_words segment) in
    (
      resolve-stable rounds (weight words + 1) u words
          (omega (arith, weight-skip_assignments (shell_words segment), weight-shell_words segment))
          (omega arith),
      env_words-stable rounds (weight ws) ws (omega arith) (omega arith),
    )

-- The arguments of an invocation are lighter than its segment.
weight-resolve :
    (f : ℕ) (u : Bool) (ws : List Text) {found : Invocation}
    → resolve f u ws ≡ some found
    → weight found.args ≤ weight ws
unfolding resolve
weight-resolve zero u ws e = cc
weight-resolve (suc f) u [] e = cc
weight-resolve (suc f) u (w ∷ ws) {found} e =
    go (invocation_round u w ws) (invocation_round-Lighter u w ws)
      (λ more p. weight-resolve f u more p) e
  where
    go :
        (r : List Text ⊎ Invocation)
        → LighterRound (weight ws) r
        → ((more : List Text) → resolve f u more ≡ some found → weight found.args ≤ weight more)
        → elim r as (λ _. Option Invocation) [ inl more ↦ resolve f u more | inr got ↦ some got ]
          ≡ some found
        → weight found.args ≤ length w + 1 + weight ws
    go (inl more) l ih q = omega (arith, ih more q)
    go (inr got) l ih q = let same : got ≡ found = some-inj q in rw (← same) (omega arith)

pub weight-invocation :
    (segment : Text) (u : Bool) {found : Invocation}
    → invocation_from_segment segment u ≡ some found
    → weight found.args ≤ length segment + 1
unfolding invocation_from_segment
weight-invocation segment u e = omega (
  arith,
  weight-resolve _ u (skip_assignments (shell_words segment)) e,
  weight-skip_assignments (shell_words segment),
  weight-shell_words segment,
)
