-- ===== src/Enforcement/Guarantees.antt =====
-- What a command that `evaluateCommand` (apps/server/src/command-policy.ts) lets pass can do, and the
-- texts it materialises with it (apps/server/src/capabilities.ts).
use code_jam.Prelude.{
  if◌then◌else◌, Bool-cases, if_rule, Option-cases, keep, any, All, Text, text_eq, text_eq_iff,
  text_eq_refl, includes, is_empty, trim, ok, ◌≡◌, refl, sym, ap, ◌∙◌, ◌⊎◌, inl, inr, Bool, true,
  false, not, ◌&&◌, ◌||◌, none, some, List, [], ◌∷◌, ◌++◌, map,
}
use code_jam.Policy.Types.{
  Capability, network_egress, secret_read, file_write, Evidence, network_tool, interpreter,
  destination_only, CapabilityRequest, PolicyContext, Actor, DecisionContext, same_capability,
}
use code_jam.Policy.Evaluate.FirstRule.{IsPermitted}
use code_jam.Policy.Guarantees.{decision_context, permits_iff}
use code_jam.Shell.{Node}
use code_jam.Capabilities.{
  strip_quotes, find_protected_secret, uses_network_tool, is_inline_network, names_url,
  extract_hosts, write_targets, classify_write_target, WriteTargetVerdict, inside, outside,
  unresolved, is_inside_verdict, max_decode_depth, egress_request, egress_requests,
  network_requests, secret_requests, write_request, write_requests, own_requests,
  extract_capabilities, CarveoutMode, is_textual_url_only,
}
use code_jam.Capabilities.Extract.Trust.{allowlist, IsJudged, extract_capabilities-IsJudged}
use code_jam.Capabilities.Extract.Carried.{
  is_for, asks, asks-append, same_capability_eq, and-both, Materialises, asks-Materialises, or-true,
}
use code_jam.Enforcement.{extracted, govern_command}

-- Some request with a property is for the capability on the resource.
abbrev Found : (CapabilityRequest → Type 0) → Capability → Text → Type 0
Found P k v = (r : CapabilityRequest) × P r × (r.capability ≡ k) × (r.resource ≡ v)

All-asks :
    (P : CapabilityRequest → Type 0) (k : Capability) (v : Text) (rs : List CapabilityRequest)
    → All P rs
    → asks k v rs ≡ true
    → Found P k v
All-asks P k v [] h e = cc
All-asks P k v (r ∷ rs) (p, h) e = elim (Bool-cases (is_for k v r)) [
  | inl m ↦
      let (c, t) = and-both (same_capability r.capability k) _ m in
      (r, p, same_capability_eq r.capability k c, (text_eq_iff r.resource v).0 t)
  | inr n ↦ All-asks P k v rs h (rw n at e)
]

-- The parts of what a text asks for on its own.
asks-left :
    (k : Capability) (v : Text) (rs ss : List CapabilityRequest)
    → asks k v rs ≡ true
    → asks k v (rs ++ ss) ≡ true
asks-left k v rs ss h = asks-append k v rs ss ∙ rw h refl

asks-right :
    (k : Capability) (v : Text) (rs ss : List CapabilityRequest)
    → asks k v ss ≡ true
    → asks k v (rs ++ ss) ≡ true
asks-right k v rs ss h = asks-append k v rs ss ∙ rw h (or-true (asks k v rs))

any-map {ℓ κ} :
    {A : Type ℓ} {B : Type κ} (p : B → Bool) (f : A → B) (xs : List A)
    → any p (map f xs) ≡ any (λ x. p (f x)) xs
any-map p f [] = refl
any-map p f (x ∷ xs) = ap (λ b. p (f x) || b) (any-map p f xs)

includes-map :
    (f : Text → Text) (t : Text) (xs : List Text)
    → includes t xs ≡ true
    → includes (f t) (map f xs) ≡ true
includes-map f t [] h = cc
includes-map f t (x ∷ xs) h = elim (Bool-cases (text_eq x t)) [
  | inl e ↦ let same : x ≡ t = (text_eq_iff x t).0 e in rw (ap f same, text_eq_refl (f t)) refl
  | inr n ↦ rw (includes-map f t xs (rw n at h)) (or-true (text_eq (f x) (f t)))
]

includes-keep :
    (p : Text → Bool) (t : Text) (xs : List Text)
    → includes t xs ≡ true
    → p t ≡ true
    → includes t (keep p xs) ≡ true
includes-keep p t [] h e = cc
includes-keep p t (x ∷ xs) h e = elim (Bool-cases (text_eq x t)) [
  | inl m ↦ let same : x ≡ t = (text_eq_iff x t).0 m in rw (same, e) (rw (text_eq_refl t) refl)
  | inr n ↦
      let later = includes-keep p t xs (rw n at h) e in
      if_rule (λ (ys : List Text). includes t ys ≡ true) (p x)
        (λ _. rw later (or-true (text_eq x t))) (λ _. later)
]

asks-secret_requests :
    (node : Node) (text label : Text)
    → find_protected_secret node text ≡ some label
    → asks secret_read label (secret_requests node text) ≡ true
unfolding secret_requests
asks-secret_requests node text label h = rw (h, secret_requests) (rw (text_eq_refl label) refl)

asks-secret :
    (node : Node) (text label : Text) (context : PolicyContext)
    → find_protected_secret node text ≡ some label
    → asks secret_read label (own_requests node text context) ≡ true
unfolding own_requests
asks-secret node text label context h =
    asks-right secret_read label (network_requests node text context) _ (
      asks-left secret_read label (secret_requests node text) _
        (asks-secret_requests node text label h))

asks-egress_requests :
    (allowed : List Text) (via : Evidence) (host : Text) (hosts : List Text)
    → includes host hosts ≡ true
    → asks network_egress host (egress_requests allowed hosts via) ≡ true
unfolding egress_requests
asks-egress_requests allowed via host [] h = cc
asks-egress_requests allowed via host (x ∷ xs) h =
    any-map (λ r. is_for network_egress host r)
      (λ name. egress_request name (includes name allowed) via) (x ∷ xs)
    ∙ h

-- A text that reaches the network: by a tool, by an interpreter, or by a bare URL.
abbrev pub reaches_network : Node → Text → Bool
reaches_network node text =
    uses_network_tool node text || (is_inline_network text || names_url text)

not-empty-of-includes :
    (t : Text) (xs : List Text) → includes t xs ≡ true → not (is_empty xs) ≡ true
not-empty-of-includes t [] h = cc
not-empty-of-includes t (x ∷ xs) h = refl

asks-network :
    (node : Node) (text host : Text) (context : PolicyContext)
    → reaches_network node text ≡ true
    → includes host (extract_hosts node text) ≡ true
    → asks network_egress host (network_requests node text context) ≡ true
unfolding network_requests
asks-network node text host context r h =
    let hosts = extract_hosts node text in
    let P = λ (rs : List CapabilityRequest). asks network_egress host rs ≡ true in
    let found = λ (via : Evidence). asks-egress_requests (allowlist context) via host hosts h in
    if_rule P (uses_network_tool node text) (λ _. found network_tool)
      λ n.
        if_rule P (is_inline_network text) (λ _. found interpreter)
          λ m.
            if_rule P (not (is_empty hosts) && names_url text) (λ _. found destination_only)
              λ q.
                let broken : false ≡ true =
                  sym (rw (not-empty-of-includes host hosts h) at q) ∙ (rw (n, m) at r) in
                cc broken

asks-host :
    (node : Node) (text host : Text) (context : PolicyContext)
    → reaches_network node text ≡ true
    → includes host (extract_hosts node text) ≡ true
    → asks network_egress host (own_requests node text context) ≡ true
unfolding own_requests
asks-host node text host context r h =
    asks-left network_egress host (network_requests node text context) _
      (asks-network node text host context r h)

asks-write_requests :
    (roots : List Text) (v : Text) (xs : List Text)
    → includes v xs ≡ true
    → asks file_write v (map (λ resource. write_request roots resource) xs) ≡ true
unfolding write_request
asks-write_requests roots v xs h = any-map _ _ xs ∙ h

asks-write :
    (node : Node) (text target : Text) (context : PolicyContext)
    → includes target (write_targets node text) ≡ true
    → is_empty (strip_quotes target) ≡ false
    → asks file_write (strip_quotes target) (own_requests node text context) ≡ true
unfolding own_requests write_requests
asks-write node text target context h e =
    let v = strip_quotes target in
    let kept =
      includes-keep (λ r. not (is_empty r)) v _
        (includes-map strip_quotes target (write_targets node text) h) (rw e refl) in
    asks-right file_write v (network_requests node text context) _ (
      asks-right file_write v (secret_requests node text) _
        (asks-write_requests context.write_roots v _ kept))

-- What a text may ask for on its own when the command that materialises it is let pass.
abbrev pub AllowedHost : Bool → PolicyContext → Text → Type 0
AllowedHost is_textual context host =
    (host ≡ []) ⊎ ((includes host (allowlist context) ≡ true) ⊎ (is_textual ≡ true))

egress-AllowedHost :
    (c : DecisionContext) (host : Text)
    → Found (λ r. IsPermitted c r × IsJudged c.base r) network_egress host
    → AllowedHost c.textual_only c.base host
egress-AllowedHost c host (r, (permitted, judged), k, v) = elim judged.0 [
  | inl other ↦ absurd (other k)
  | inr (inl empty) ↦ inl (sym v ∙ empty)
  | inr (inr j) ↦ elim permitted.1 [
    | inl t ↦ inr (inl (ap (λ x. includes x (allowlist c.base)) (sym v) ∙ sym j ∙ t))
    | inr (_, _, textual) ↦ inr (inr textual)
  ]
]

inside-of : (verdict : WriteTargetVerdict) → is_inside_verdict verdict ≡ true → verdict ≡ inside
inside-of inside h = refl
inside-of outside h = cc
inside-of unresolved h = cc

write-inside :
    (c : DecisionContext) (target : Text)
    → Found (λ r. IsPermitted c r × IsJudged c.base r) file_write target
    → classify_write_target target c.base.write_roots ≡ inside
write-inside c target (r, (permitted, judged), k, v) = elim judged.1 [
  | inl other ↦ absurd (other k)
  | inr j ↦ elim permitted.1 [
    | inl t ↦
        ap (λ x. classify_write_target x c.base.write_roots) (sym v)
        ∙ inside-of (classify_write_target r.resource c.base.write_roots) (sym j ∙ t)
    | inr (e, _, _) ↦ let broken : file_write ≡ network_egress = sym k ∙ e in cc broken
  ]
]

All-of_includes :
    (P : Text → Type 0) (xs : List Text) → ((x : Text) → includes x xs ≡ true → P x) → All P xs
All-of_includes P [] h = tt
All-of_includes P (x ∷ xs) h = (
  h x (rw (text_eq_refl x) refl),
  All-of_includes P xs (λ y m. h y (rw m (or-true (text_eq x y)))),
)

All-both {ℓ κ μ} :
    {A : Type ℓ} (P : A → Type κ) (Q : A → Type μ) (xs : List A)
    → All P xs
    → All Q xs
    → All (λ x. P x × Q x) xs
All-both P Q [] h k = tt
All-both P Q (x ∷ xs) (p, h) (q, k) = ((p, q), All-both P Q xs h k)

module _ (mode : CarveoutMode) (node : Node) (actor : Actor) (command : Text)
    (context : PolicyContext) (is_command : is_empty (trim command) ≡ false)
    (passed : govern_command mode node actor command context ≡ ok none) (text : Text)
    (materialised : Materialises node max_decode_depth command text) where
  found :
      (k : Capability) (v : Text)
      → asks k v (own_requests node text context) ≡ true
      → Found
          (λ r.
            IsPermitted (decision_context (λ t. is_textual_url_only mode node t) command context) r
            × IsJudged context r)
          k
          v
  unfolding govern_command
  found k v h =
      let textual = λ (t : Text). is_textual_url_only mode node t in
      let c = decision_context textual command context in
      let rs = extract_capabilities node command context in
      let permitted : All (IsPermitted c) rs =
        (permits_iff (extracted node) textual actor command context rs is_command refl).0 passed in
      All-asks (λ r. IsPermitted c r × IsJudged context r) k v rs
        (All-both (λ r. IsPermitted c r) (λ r. IsJudged context r) rs permitted
          (extract_capabilities-IsJudged node command context))
        (asks-Materialises k v node context materialised h)

  passed_secret : find_protected_secret node text ≡ none
  passed_secret = elim (Option-cases (find_protected_secret node text)) [
    | inl e ↦ e
    | inr (label, e) ↦
        let (r, (permitted, _), k, _) =
          found secret_read label (asks-secret node text label context e) in
        absurd (permitted.0 k)
  ]

  -- What a command may do that the composed policy lets pass: neither it nor any text that it
  -- materialises within four levels names protected material; where such a text reaches the network,
  -- each of its hosts is empty or on the allowlist, or else the command as a whole is exempt as text;
  -- and each of its write targets that is not just quotes is classified as inside.
  pub govern_command_passed :
      (find_protected_secret node text ≡ none)
      × All
          (λ host. AllowedHost (is_textual_url_only mode node command) context host)
          (if reaches_network node text then extract_hosts node text else [])
      × All
          (λ target.
            (is_empty (strip_quotes target) ≡ true)
            ⊎ (classify_write_target (strip_quotes target) context.write_roots ≡ inside))
          (write_targets node text)
  govern_command_passed =
      let c = decision_context (λ t. is_textual_url_only mode node t) command context in
      let P = λ (host : Text). AllowedHost (is_textual_url_only mode node command) context host in
      (
        passed_secret,
        if_rule (λ (hosts : List Text). All P hosts) (reaches_network node text)
            (λ r. All-of_includes P (extract_hosts node text) (λ host h.
              egress-AllowedHost c host
                (found network_egress host (asks-host node text host context r h))))
            (λ _. tt),
        All-of_includes _ (write_targets node text) (λ target w.
            elim (Bool-cases (is_empty (strip_quotes target))) [
              | inl e ↦ inl e
              | inr e ↦ inr (
                  write-inside c (strip_quotes target) (
                    found file_write (strip_quotes target)
                      (asks-write node text target context w e)))
            ]),
      )
