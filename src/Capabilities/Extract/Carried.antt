-- ===== src/Capabilities/Extract/Carried.antt =====
-- Which requests of a command and of the texts it materialises `extractCapabilities` reports
-- (apps/server/src/capabilities.ts).
use code_jam.Prelude.{
  Bool-cases, flat_map, any, Text, text_eq, text_eq_iff, text_eq_refl, includes, ℕ, zero, suc, ◌≡◌,
  refl, sym, ap, ◌∙◌, ◌↔◌, inl, inr, Bool, true, false, ◌&&◌, ◌||◌, List, [], ◌∷◌, ◌++◌,
}
use code_jam.Policy.Types.{
  Capability, network_egress, secret_read, file_write, CapabilityRequest, PolicyContext,
  same_capability,
}
use code_jam.Shell.{Node}
use code_jam.Capabilities.Decoders.{max_decode_depth}
use code_jam.Capabilities.Extract.{
  own_requests, same_key, absorb, payloads, extract_from, extract_capabilities,
}

abbrev pub is_for : Capability → Text → CapabilityRequest → Bool
is_for capability resource r =
    same_capability r.capability capability && text_eq r.resource resource

-- Some request is for this capability on this resource.
abbrev pub asks : Capability → Text → List CapabilityRequest → Bool
asks capability resource rs = any (λ r. is_for capability resource r) rs

or_assoc : (a b c : Bool) → a || (b || c) ≡ (a || b) || c
or_assoc true b c = refl
or_assoc false b c = refl

pub or-true : (b : Bool) → b || true ≡ true
or-true true = refl
or-true false = refl

or_known : (a m x y : Bool) → (m ≡ true → a ≡ true) → a || x ≡ a || y → a || x ≡ a || (m || y)
or_known true m x y h e = refl
or_known false true x y h e = let broken : false ≡ true = h refl in cc broken
or_known false false x y h e = e

or_new : (a m x y : Bool) → (m || a) || x ≡ (m || a) || y → a || (m || x) ≡ a || (m || y)
or_new true m x y e = refl
or_new false true x y e = refl
or_new false false x y e = e

pub asks-append :
    (k : Capability) (v : Text) (rs ss : List CapabilityRequest)
    → asks k v (rs ++ ss) ≡ asks k v rs || asks k v ss
asks-append k v [] ss = refl
asks-append k v (r ∷ rs) ss =
    rw (asks-append k v rs ss) (or_assoc (is_for k v r) (asks k v rs) (asks k v ss))

pub same_capability_eq : (a b : Capability) → same_capability a b ≡ true → a ≡ b
same_capability_eq network_egress network_egress h = refl
same_capability_eq network_egress secret_read h = cc h
same_capability_eq network_egress file_write h = cc h
same_capability_eq secret_read network_egress h = cc h
same_capability_eq secret_read secret_read h = refl
same_capability_eq secret_read file_write h = cc h
same_capability_eq file_write network_egress h = cc h
same_capability_eq file_write secret_read h = cc h
same_capability_eq file_write file_write h = refl

pub and-both : (a b : Bool) → a && b ≡ true → (a ≡ true) × (b ≡ true)
and-both true b h = (refl, h)
and-both false b h = cc

is_for-same_key :
    (k : Capability) (v : Text) (s r : CapabilityRequest)
    → same_key s r ≡ true
    → is_for k v s ≡ is_for k v r
is_for-same_key k v s r h =
    let (c, t) = and-both (same_capability s.capability r.capability) _ h in
    ap (λ x. same_capability x k && text_eq s.resource v)
      (same_capability_eq s.capability r.capability c)
    ∙ ap (λ x. same_capability r.capability k && text_eq x v)
        ((text_eq_iff s.resource r.resource).0 t)

-- A request that is known stands for another of its key.
asks-known :
    (k : Capability) (v : Text) (r : CapabilityRequest) (seen : List CapabilityRequest)
    → any (λ s. same_key s r) seen ≡ true
    → is_for k v r ≡ true
    → asks k v seen ≡ true
asks-known k v r [] h e = cc
asks-known k v r (s ∷ seen) h e = elim (Bool-cases (same_key s r)) [
  | inl same ↦ rw (is_for-same_key k v s r same ∙ e) refl
  | inr n ↦ rw (asks-known k v r seen (rw n at h) e) (or-true (is_for k v s))
]

asks-absorb :
    (k : Capability) (v : Text) (seen rs : List CapabilityRequest)
    → asks k v seen || asks k v (absorb seen rs) ≡ asks k v seen || asks k v rs
unfolding absorb
asks-absorb k v seen [] = refl
asks-absorb k v seen (r ∷ rs) = elim (Bool-cases (any (λ s. same_key s r) seen)) [
  | inl e ↦ rw e (
      or_known (asks k v seen) (is_for k v r) _ _ (asks-known k v r seen e)
        (asks-absorb k v seen rs))
  | inr n ↦ rw n (or_new (asks k v seen) (is_for k v r) _ _ (asks-absorb k v (r ∷ seen) rs))
]

asks-flat_map {ℓ} :
    {A : Type ℓ} (k : Capability) (v : Text) (f : A → List CapabilityRequest) (xs : List A)
    → asks k v (flat_map f xs) ≡ any (λ x. asks k v (f x)) xs
asks-flat_map k v f [] = refl
asks-flat_map k v f (x ∷ xs) =
    asks-append k v (f x) (flat_map f xs) ∙ ap (λ b. asks k v (f x) || b) (asks-flat_map k v f xs)

-- One level of materialised text adds exactly the requests that this text makes.
asks-extract_from :
    (k : Capability) (v : Text) (n : ℕ) (node : Node) (command : Text) (context : PolicyContext)
    → asks k v (extract_from (suc n) node command context)
      ≡ asks k v (own_requests node command context)
        || any (λ p. asks k v (extract_from n node p context)) (payloads node command)
unfolding extract_from
asks-extract_from k v n node command context =
    let own = own_requests node command context in
    let inner = flat_map (λ p. extract_from n node p context) (payloads node command) in
    asks-append k v own (absorb own inner)
    ∙ asks-absorb k v own inner
    ∙ ap (λ b. asks k v own || b)
        (asks-flat_map k v (λ p. extract_from n node p context) (payloads node command))

-- A text that a command materialises within a number of levels.
pub data Materialises (node : Node) : ℕ → Text → Text → Type 0 where
  itself : {n : ℕ} {t u : Text} → t ≡ u → Materialises node n t u
  further :
      {n : ℕ} {t u : Text} (payload : Text)
      → includes payload (payloads node t) ≡ true
      → Materialises node n payload u
      → Materialises node (suc n) t u

pub any-includes :
    (f : Text → Bool) (x : Text) (xs : List Text)
    → includes x xs ≡ true
    → f x ≡ true
    → any f xs ≡ true
any-includes f x [] h e = cc
any-includes f x (y ∷ xs) h e = elim (Bool-cases (text_eq y x)) [
  | inl same ↦ let eq : y ≡ x = (text_eq_iff y x).0 same in rw (ap f eq ∙ e) refl
  | inr n ↦ rw (any-includes f x xs (rw n at h) e) (or-true (f y))
]

includes-any :
    (f : Text → Bool) (xs : List Text)
    → any f xs ≡ true
    → (x : Text) × (includes x xs ≡ true) × (f x ≡ true)
includes-any f [] h = cc
includes-any f (y ∷ xs) h = elim (Bool-cases (f y)) [
  | inl e ↦ (y, rw (text_eq_refl y) refl, e)
  | inr n ↦ let (x, m, e) = includes-any f xs (rw n at h) in (x, rw m (or-true (text_eq y x)), e)
]

module _ (k : Capability) (v : Text) (node : Node) (context : PolicyContext) where
  asks-own :
      (n : ℕ) (t : Text)
      → asks k v (own_requests node t context) ≡ true
      → asks k v (extract_from n node t context) ≡ true
  asks-own zero t h = unfold extract_from in h
  asks-own (suc n) t h = asks-extract_from k v n node t context ∙ rw h refl

  pub asks-Materialises :
      {n : ℕ} {t u : Text}
      → Materialises node n t u
      → asks k v (own_requests node u context) ≡ true
      → asks k v (extract_from n node t context) ≡ true
  asks-Materialises {n} {t} {u} (itself e) h =
      asks-own n t (ap (λ x. asks k v (own_requests node x context)) e ∙ h)
  asks-Materialises {t} (further {n} p m d) h =
      asks-extract_from k v n node t context
      ∙ rw
          (any-includes (λ p. asks k v (extract_from n node p context)) p (payloads node t) m
            (asks-Materialises d h))
          (or-true (asks k v (own_requests node t context)))

  Materialises-asks :
      (n : ℕ) (t : Text)
      → asks k v (extract_from n node t context) ≡ true
      → (u : Text) × Materialises node n t u × (asks k v (own_requests node u context) ≡ true)
  Materialises-asks zero t h = (t, itself refl, unfold extract_from in h)
  Materialises-asks (suc n) t h = elim (Bool-cases (asks k v (own_requests node t context))) [
    | inl own ↦ (t, itself refl, own)
    | inr none_own ↦
        let split_up = sym (asks-extract_from k v n node t context) ∙ h in
        let (p, m, e) =
          includes-any (λ p. asks k v (extract_from n node p context)) (payloads node t)
            (rw none_own at split_up) in
        let (u, d, own) = Materialises-asks n p e in (u, further p m d, own)
  ]

  -- `extractCapabilities` asks for a capability on a resource exactly when the command, or a text that
  -- it materialises within four levels of decoding, piping, writing and quoting, asks for it on its
  -- own: hiding a request inside another text neither loses it nor makes one up.
  pub extract_capabilities_iff :
      (command : Text)
      → (asks k v (extract_capabilities node command context) ≡ true) ↔ (
          (text : Text) × Materialises node max_decode_depth command text
          × (asks k v (own_requests node text context) ≡ true))
  extract_capabilities_iff command =
      (λ h. Materialises-asks max_decode_depth command h, λ (t, d, h). asks-Materialises d h)
