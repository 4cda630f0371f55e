-- ===== src/Shell/Tools/Fuel.antt =====
-- The depth of the calls between `sshRoutingHosts` and `hostsFromNetworkInvocation`
-- (apps/server/src/shell-parse.ts).
use code_jam.Prelude.{
  ltb, ◌==◌, if◌then◌else◌, Bool-cases, if_rule, Option-cases, length, take, drop, get_or, flat_map,
  any, All, All-append, All-imp, some-inj, Text, codes, text_eq, is_empty, lower, index_of, ℕ, zero,
  suc, ◌+◌, ◌≤◌, String, ◌≡◌, refl, sym, ap, ◌∙◌, ◌≢◌, inl, inr, Bool, true, false, not, ◌&&◌,
  Option, none, some, List, [], ◌∷◌, ◌++◌, arith,
}
use mathlib.Core.Path.{subst}
use code_jam.Regex.{fold}
use code_jam.Regex.Search.{tests}
use code_jam.Shell.Names.{has, network_tool_names}
use code_jam.Shell.Invocations.{Invocation, is, weight, invocation_from_segment}
use code_jam.Shell.Invocations.Fuel.{weight-invocation}
use code_jam.Shell.Options.{
  before_equals, after_equals, option_value_at, option_values_from, option_values,
}
use code_jam.Shell.Hosts.{Node}
use code_jam.Shell.Tools.{
  attached_proxy, attached_proxies, forward_hosts, ssh_option_hosts, invocation_hosts,
  ssh_routing_hosts, hosts_from_network_invocation,
}

module _ {ℓ κ} {A : Type ℓ} {B : Type κ} (f g : A → List B) where
  flat_map-All : (xs : List A) → All (λ x. f x ≡ g x) xs → flat_map f xs ≡ flat_map g xs
  flat_map-All [] h = refl
  flat_map-All (x ∷ xs) (e, h) =
      ap (λ t. t ++ flat_map f xs) e ∙ ap (λ t. g x ++ t) (flat_map-All xs h)

length-after_index :
    (w : Text) (i : ℕ) → index_of b'=' w ≡ some i → length (drop (suc i) w) + suc i ≡ length w
unfolding index_of
length-after_index [] i h = cc
length-after_index (c ∷ w) i h = go (index_of b'=' w) (λ k e. length-after_index w k e) h
  where
    go :
        (r : Option ℕ)
        → ((k : ℕ) → r ≡ some k → length (drop (suc k) w) + suc k ≡ length w)
        → (if c == b'='
            then some 0
            else elim r as (λ _. Option ℕ) [ none ↦ none | some j ↦ some (suc j) ])
          ≡ some i
        → length (drop i w) + suc i ≡ suc (length w)
    go none ih q = elim (Bool-cases (c == b'=')) [
      | inl e ↦ let z : 0 ≡ i = some-inj (rw e at q) in rw (← z) (omega arith)
      | inr n ↦ let broken : none ≡ some i = rw n at q in cc broken
    ]
    go (some k) ih q = elim (Bool-cases (c == b'=')) [
      | inl e ↦ let z : 0 ≡ i = some-inj (rw e at q) in rw (← z) (omega arith)
      | inr n ↦ let z : suc k ≡ i = some-inj (rw n at q) in rw (← z) (omega (arith, ih k refl))
    ]

has_equals-index : (w : Text) → any (λ c. c == b'=') w ≡ true → index_of b'=' w ≢ none
unfolding index_of
has_equals-index [] h = cc
has_equals-index (c ∷ w) h = ground (arith, has_equals-index w)

after_equals-some : (w : Text) (i : ℕ) → index_of b'=' w ≡ some i → after_equals w ≡ drop (suc i) w
after_equals-some w i e =
    let succ : i + 1 ≡ suc i = omega arith in rw (e, after_equals) (ap (λ n. drop n w) succ)

length-after_equals :
    (w : Text) → any (λ c. c == b'=') w ≡ true → length (after_equals w) + 1 ≤ length w
length-after_equals w h = elim (Option-cases (index_of b'=' w)) [
  | inl n ↦ absurd (has_equals-index w h n)
  | inr (i, e) ↦ rw (after_equals-some w i e) (omega (arith, length-after_index w i e))
]

length-after_key :
    (w : Text) → is_empty (before_equals w) ≡ false → length (after_equals w) + 2 ≤ length w
length-after_key w h = elim (Option-cases (index_of b'=' w)) [
  | inl n ↦
      let gone : before_equals w ≡ [] = rw (n, before_equals) refl in
      let broken : true ≡ false = rw gone at h in cc broken
  | inr (zero, e) ↦
      let gone : before_equals w ≡ [] = rw (e, before_equals) refl in
      let broken : true ≡ false = rw gone at h in cc broken
  | inr (suc i, e) ↦
      rw (after_equals-some w (suc i) e) (omega (arith, length-after_index w (suc i) e))
]

length-drop_two : (w : Text) → ltb 2 (length w) ≡ true → length (drop 2 w) + 2 ≡ length w
length-drop_two [] h = cc
length-drop_two (a ∷ []) h = cc
length-drop_two (a ∷ b ∷ w) h = omega arith

-- `-o`, the only option whose values are followed further.
abbrev routed : List String
routed = "-o" ∷ []

length-routed : (a : Text) → has routed a ≡ true → 2 ≤ length a
unfolding has
length-routed [] h = unfold codes text_eq in cc h
length-routed (c ∷ []) h = unfold codes text_eq in ground (arith, h)
length-routed (c ∷ d ∷ a) h = omega arith

abbrev Fits : ℕ → Text → Type 0
Fits n v = length v + 3 ≤ n

not-of-and : (a b : Bool) → not a && b ≡ true → a ≡ false
not-of-and true b h = cc
not-of-and false b h = refl

of-and : (a b : Bool) → a && b ≡ true → a ≡ true
of-and true b h = refl
of-and false b h = cc

Fits-next :
    (a : Text) (args : List Text)
    → 2 ≤ length a
    → Fits (length a + 1 + weight args) (get_or [] 0 args)
Fits-next a [] h = omega arith
Fits-next a (v ∷ args) h = omega arith

Fits-option_value_at :
    (a : Text) (args : List Text)
    → All (λ v. Fits (length a + 1 + weight args) v) (option_value_at routed a args).0
unfolding option_value_at
Fits-option_value_at a args =
    let n = length a + 1 + weight args in
    let P = λ (r : List Text × Bool). All (λ v. Fits n v) r.0 in
    let key = before_equals a in
    if_rule P (not (is_empty key) && has routed key)
      (λ h. (omega (arith, length-after_key a (not-of-and (is_empty key) _ h)), tt))
      λ _.
        if_rule P (has routed a && not (is_empty (get_or [] 0 args)))
          (λ h. (Fits-next a args (length-routed a (of-and (has routed a) _ h)), tt))
          λ _.
            if_rule P (ltb 2 (length a) && has routed (take 2 a))
              (λ h. (omega (arith, length-drop_two a (of-and (ltb 2 (length a)) _ h)), tt)) λ _. tt

Fits-option_values :
    (skip : Bool) (args : List Text)
    → All (λ v. Fits (weight args) v) (option_values_from routed skip args)
unfolding option_values_from
Fits-option_values skip [] = tt
Fits-option_values true (a ∷ args) =
    All-imp (λ v. Fits (weight args) v) (λ v. Fits (weight (a ∷ args)) v) _ (λ v h. omega arith)
      (Fits-option_values false args)
Fits-option_values false (a ∷ args) =
    All-append (λ v. Fits (weight (a ∷ args)) v) _ _ (Fits-option_value_at a args)
      (All-imp (λ v. Fits (weight args) v) (λ v. Fits (weight (a ∷ args)) v) _ (λ v h. omega arith)
        (Fits-option_values (option_value_at routed a args).1 args))

-- A value of `-o` calls for an invocation that is lighter than the arguments.
ssh_option_hosts-stable :
    (node : Node) (p q : Text → List Text → List Text) (value : Text)
    → ((tool : Text) (more : List Text) → weight more ≤ length value → p tool more ≡ q tool more)
    → ssh_option_hosts node p value ≡ ssh_option_hosts node q value
unfolding ssh_option_hosts
ssh_option_hosts-stable node p q value h = elim (Bool-cases (any (λ c. c == b'=') value)) [
  | inr n ↦ rw n refl
  | inl e ↦
      let bound : length (after_equals value) + 1 ≤ length value = length-after_equals value e in
      let proxy =
        go (invocation_from_segment (after_equals value) true)
          (λ found k. omega (arith, weight-invocation (after_equals value) true k)) in
      rw e (elim (Bool-cases (is "proxyjump" (lower (before_equals value)))) [
        | inl j ↦ rw j refl
        | inr n ↦ rw n (elim (Bool-cases (is "proxycommand" (lower (before_equals value)))) [
          | inl c ↦ rw c proxy
          | inr n' ↦ rw n' refl
        ])
      ])
]
  where
    go :
        (r : Option Invocation)
        → ((found : Invocation) → r ≡ some found → weight found.args ≤ length value)
        → elim r as (λ _. List Text) [
          | none ↦ []
          | some proxy ↦ if has network_tool_names proxy.tool then p proxy.tool proxy.args else []
        ]
          ≡ elim r as (λ _. List Text) [
            | none ↦ []
            | some proxy ↦ if has network_tool_names proxy.tool then q proxy.tool proxy.args else []
          ]
    go none w = refl
    go (some found) w = rw (h found.tool found.args (w found refl)) refl

-- An attached option, read again.
abbrev again : Text → List Text
again value = codes "-o" ∷ value ∷ []

weight-again : (v : Text) → weight (again v) ≡ length v + 4
weight-again v = unfold codes in omega arith

length-attached : (a : Text) → tests attached_proxy a ≡ true → 2 ≤ length a
unfolding tests
length-attached [] h = cc h
length-attached (c ∷ []) h =
    let none_read : tests attached_proxy (c ∷ []) ≡ false = elim (Bool-cases (fold c == 45)) [
      | inl e ↦ rw (e, tests) refl
      | inr n ↦ rw (n, tests) refl
    ] in
    let broken : false ≡ true = sym none_read ∙ h in cc broken
length-attached (c ∷ d ∷ a) h = omega arith

dash_o-attached : tests attached_proxy (codes "-o") ≡ false
unfolding tests
dash_o-attached = refl

length-drop_long : (a : Text) → 2 ≤ length a → length (drop 2 a) + 2 ≡ length a
length-drop_long [] h = absurd (omega arith)
length-drop_long (c ∷ []) h = absurd (omega arith)
length-drop_long (c ∷ d ∷ a) h = omega arith

Fits-attached : (args : List Text) → All (λ v. Fits (weight args) v) (attached_proxies args)
unfolding attached_proxies
Fits-attached [] = tt
Fits-attached (a ∷ args) =
    let later =
      All-imp (λ v. Fits (weight args) v) (λ v. Fits (weight (a ∷ args)) v) _ (λ v h. omega arith)
        (Fits-attached args) in
    elim (Bool-cases (tests attached_proxy a)) [
      | inl e ↦ rw e (omega (arith, length-drop_long a (length-attached a e)), later)
      | inr n ↦ rw n later
    ]

attached-cons_none :
    (a : Text) (args : List Text)
    → tests attached_proxy a ≡ false
    → attached_proxies (a ∷ args) ≡ attached_proxies args
unfolding attached_proxies
attached-cons_none a args h = rw h refl

attached-cons_some :
    (a : Text) (args : List Text)
    → tests attached_proxy a ≡ true
    → attached_proxies (a ∷ args) ≡ drop 2 a ∷ attached_proxies args
unfolding attached_proxies
attached-cons_some a args h = rw h refl

attached-nil : attached_proxies [] ≡ []
unfolding attached_proxies
attached-nil = refl

attached-again : (v : Text) → All (λ u. length u + 2 ≤ length v) (attached_proxies (again v))
attached-again v =
    let P = λ (us : List Text). All (λ u. length u + 2 ≤ length v) us in
    subst P (sym (attached-cons_none (codes "-o") (v ∷ []) dash_o-attached))
      (elim (Bool-cases (tests attached_proxy v)) [
        | inl e ↦
            subst P (sym (attached-cons_some v [] e ∙ ap (◌∷◌ (drop 2 v)) attached-nil))
              (omega (arith, length-drop_long v (length-attached v e)), tt)
        | inr n ↦ subst P (sym (attached-cons_none v [] n ∙ attached-nil)) tt
      ])

module _ (node : Node) where
  -- One level of calls, when the calls of the next one agree.
  ssh_routing_hosts-step :
      (f g : ℕ) (args : List Text)
      → ((more : List Text)
          → weight more + 3 ≤ weight args
          → ssh_routing_hosts f node more ≡ ssh_routing_hosts g node more)
      → All
          (λ v. ssh_routing_hosts f node (again v) ≡ ssh_routing_hosts g node (again v))
          (attached_proxies args)
      → ssh_routing_hosts (suc f) node args ≡ ssh_routing_hosts (suc g) node args
  unfolding ssh_routing_hosts
  ssh_routing_hosts-step f g args same_proxy same_attached =
      let p : Text → List Text → List Text =
        λ tool more. invocation_hosts node (ssh_routing_hosts f node more) tool more in
      let q : Text → List Text → List Text =
        λ tool more. invocation_hosts node (ssh_routing_hosts g node more) tool more in
      let values = option_values args routed in
      let proxied : flat_map (ssh_option_hosts node p) values
          ≡ flat_map (ssh_option_hosts node q) values =
        flat_map-All (ssh_option_hosts node p) (ssh_option_hosts node q) values (
          All-imp (λ v. Fits (weight args) v)
            (λ v. ssh_option_hosts node p v ≡ ssh_option_hosts node q v) values
            (λ v fits. ssh_option_hosts-stable node p q v (λ tool more light.
              ap (λ r. invocation_hosts node r tool more) (same_proxy more (omega arith))))
            (Fits-option_values false args)) in
      let attached =
        flat_map-All (λ v. ssh_routing_hosts f node (again v))
          (λ v. ssh_routing_hosts g node (again v)) (attached_proxies args) same_attached in
      ap
        (λ hosts.
          forward_hosts node args
          ++ (hosts ++ flat_map (λ v. ssh_routing_hosts f node (again v)) (attached_proxies args)))
        proxied
      ∙ ap
          (λ hosts. forward_hosts node args ++ (flat_map (ssh_option_hosts node q) values ++ hosts))
          attached

  -- With fuel above the weight of the arguments more fuel makes no difference.
  ssh_routing_hosts-both :
      (f g : ℕ)
      → ((args : List Text)
          → weight args + 2 ≤ f
          → weight args + 2 ≤ g
          → ssh_routing_hosts f node args ≡ ssh_routing_hosts g node args)
        × ((v : Text)
            → length v + 4 ≤ f
            → length v + 4 ≤ g
            → ssh_routing_hosts f node (again v) ≡ ssh_routing_hosts g node (again v))
  ssh_routing_hosts-both zero g = (λ args h k. absurd (omega arith), λ v h k. absurd (omega arith))
  ssh_routing_hosts-both (suc f) zero =
      (λ args h k. absurd (omega arith), λ v h k. absurd (omega arith))
  ssh_routing_hosts-both (suc f) (suc g) =
      let (any_args, pair) = ssh_routing_hosts-both f g in
      (
        λ args h k.
            ssh_routing_hosts-step f g args
              (λ more light. any_args more (omega arith) (omega arith))
              (All-imp (λ v. Fits (weight args) v)
                (λ v. ssh_routing_hosts f node (again v) ≡ ssh_routing_hosts g node (again v))
                (attached_proxies args) (λ v fits. pair v (omega arith) (omega arith))
                (Fits-attached args)),
        λ v h k.
            ssh_routing_hosts-step f g (again v)
              (λ more light.
                any_args more (omega (arith, weight-again v)) (omega (arith, weight-again v)))
              (All-imp (λ u. length u + 2 ≤ length v)
                (λ u. ssh_routing_hosts f node (again u) ≡ ssh_routing_hosts g node (again u))
                (attached_proxies (again v)) (λ u fits. pair u (omega arith) (omega arith))
                (attached-again v)),
      )

-- The calls between `sshRoutingHosts` and `hostsFromNetworkInvocation`, through proxy commands and
-- attached options, end: any depth above the code units and arguments of the invocation gives the
-- hosts that the model's own depth gives, so no hop is ever cut off.
pub hosts_from_network_invocation_depth :
    (depth : ℕ) (node : Node) (tool : Text) (args : List Text)
    → weight args + 2 ≤ depth
    → invocation_hosts node (ssh_routing_hosts depth node args) tool args
      ≡ hosts_from_network_invocation node tool args
unfolding hosts_from_network_invocation
hosts_from_network_invocation_depth depth node tool args h =
    ap (λ r. invocation_hosts node r tool args)
      ((ssh_routing_hosts-both node depth (weight args + 2)).0 args h (omega arith))
