-- ===== src/Broker/Gate/Laws.antt =====
-- About the handling of one CONNECT request (egress-broker.ts): what it makes the broker
-- contact.
use code_jam.Prelude.{
  if◌then◌else◌, Bool-cases, Option-cases, any, find, All, All-imp, Text, text_eq, text_eq_refl,
  includes, is_empty, Result, ok, err, ℕ, ◌≡◌, refl, sym, ◌∙◌, inl, inr, Bool, true, false, Option,
  some, List, [], ◌∷◌, arith,
}
use code_jam.Broker.Addresses.{is_forbidden_address}
use code_jam.Broker.Endpoints.{EgressEndpoint, same_endpoint, parse_connect_target}
use code_jam.Broker.Gate.{
  tunnel, dropped, is_truthy, Handled, connect_to_any, connect, handle_target, handle,
}

connect_to_any-All {ℓ} :
    (P : Text → Type ℓ) (dial : EgressEndpoint → Bool) (addresses : List Text) (port : ℕ)
    → All P addresses
    → All
        (λ (e : EgressEndpoint). P e.host × (e.port ≡ port))
        (connect_to_any dial addresses port).0
unfolding connect_to_any
connect_to_any-All P dial [] port h = tt
connect_to_any-All P dial (a ∷ more) port (p, h) =
    elim (Bool-cases (dial (record { host = a; port = port }))) [
      | inl e ↦ rw e ((p, refl), tt)
      | inr e ↦ rw e ((p, refl), connect_to_any-All P dial more port h)
    ]

connect_to_any-first :
    (dial : EgressEndpoint → Bool) (addresses : List Text) (port : ℕ)
    → (connect_to_any dial addresses port).1
      ≡ find (λ a. dial (record { host = a; port = port })) addresses
unfolding connect_to_any
connect_to_any-first dial [] port = refl
connect_to_any-first dial (a ∷ more) port =
    elim (Bool-cases (dial (record { host = a; port = port }))) [
      | inl e ↦ rw e refl
      | inr e ↦ rw e (connect_to_any-first dial more port)
    ]

includes_self : (xs : List Text) → All (λ a. includes a xs ≡ true) xs
includes_self [] = tt
includes_self (x ∷ xs) = (
  ground (arith, text_eq_refl x),
  All-imp (λ a. includes a xs ≡ true) (λ a. includes a (x ∷ xs) ≡ true) xs (λ a h. ground arith)
      (includes_self xs),
)

any-find :
    (p : Text → Bool) (xs : List Text)
    → All (λ a. is_empty a ≡ false) xs
    → is_truthy (find p xs) ≡ any p xs
any-find p [] h = refl
any-find p (x ∷ xs) (q, h) = elim (Bool-cases (p x)) [
  | inl e ↦ rw (e, q) refl
  | inr e ↦ rw e (any-find p xs h)
]

any-find_none :
    (p : Text → Bool) (xs : List Text) → any p xs ≡ false → is_truthy (find p xs) ≡ false
any-find_none p [] h = refl
any-find_none p (x ∷ xs) h = ground (arith, any-find_none p xs)

module _ (number : Text → Option ℕ) (ip_version : Text → ℕ) (allow : List EgressEndpoint)
    (resolve : Text → Result (List Text)) (dial : EgressEndpoint → Bool)
    (is_client_gone : Bool) where
  -- An endpoint that may be dialled: its address is among those that an allowlisted name resolved to,
  -- at the port that is allowlisted for the name, and none of those addresses is forbidden.
  pub record IsReachable (e : EgressEndpoint) : Type 0 where
    pub name : Text
    pub addresses : List Text
    pub is_allowed : any (same_endpoint (record { host = name; port = e.port })) allow ≡ true
    pub resolves : resolve name ≡ ok addresses
    pub is_answer : includes e.host addresses ≡ true
    pub is_public : any (is_forbidden_address ip_version) addresses ≡ false

  abbrev pub IsListed : Text → Type 0
  IsListed name = any (λ (e : EgressEndpoint). text_eq name e.host) allow ≡ true

  -- What a request makes the broker do is only what the allowlist covers.
  abbrev pub IsGated : Handled → Type 0
  IsGated h = All IsListed h.resolved × All IsReachable h.dialled

  listed_of :
      (target : EgressEndpoint) (es : List EgressEndpoint)
      → any (same_endpoint target) es ≡ true
      → any (λ (e : EgressEndpoint). text_eq target.host e.host) es ≡ true
  listed_of target [] h = cc
  listed_of target (e ∷ es) h = ground (arith, listed_of target es)

  connect-IsGated :
      (target : EgressEndpoint) (addresses : List Text)
      → any (same_endpoint target) allow ≡ true
      → resolve target.host ≡ ok addresses
      → All (λ a. is_empty a ≡ false) addresses
      → IsGated (connect number ip_version allow resolve dial is_client_gone target addresses)
  unfolding connect
  connect-IsGated target addresses h r full = elim (Bool-cases (is_empty addresses)) [
    | inl e ↦ rw (e, connect) ((listed_of target allow h, tt), tt)
    | inr e ↦ elim (Bool-cases (is_truthy (find (is_forbidden_address ip_version) addresses))) [
      | inl f ↦ rw (e, connect, f) ((listed_of target allow h, tt), tt)
      | inr f ↦
          rw (e, connect, f)
            (
              (listed_of target allow h, tt),
              reachable (sym (any-find (is_forbidden_address ip_version) addresses full) ∙ f),
            )
    ]
  ]
    where
      reachable :
          any (is_forbidden_address ip_version) addresses ≡ false
          → All IsReachable (connect_to_any dial addresses target.port).0
      reachable f =
          All-imp _ IsReachable (connect_to_any dial addresses target.port).0
            (λ e k. record {
              name = target.host;
              addresses = addresses;
              is_allowed = rw k.1 h;
              resolves = r;
              is_answer = k.0;
              is_public = f;
            })
            (connect_to_any-All (λ a. includes a addresses ≡ true) dial addresses target.port
              (includes_self addresses))

  -- A name resolves to addresses, none of which is an empty text.
  abbrev pub ResolvesToTexts : Type 0
  ResolvesToTexts =
      (name : Text) (addresses : List Text)
      → resolve name ≡ ok addresses
      → All (λ a. is_empty a ≡ false) addresses

  handle_target-IsGated :
      (target : EgressEndpoint)
      → ResolvesToTexts
      → IsGated (handle_target number ip_version allow resolve dial is_client_gone target)
  unfolding handle_target
  handle_target-IsGated target full =
      go (any (same_endpoint target) allow) refl (resolve target.host) refl
    where
      go :
          (b : Bool)
          → any (same_endpoint target) allow ≡ b
          → (r : Result (List Text)) → resolve target.host ≡ r
          → IsGated (handle_target number ip_version allow resolve dial is_client_gone target)
      go false e r f = rw (e, handle_target) (tt, tt)
      go true e (err _) f = rw (e, handle_target, f) ((listed_of target allow e, tt), tt)
      go true e (ok addresses) f =
          rw (e, handle_target, f)
            (connect-IsGated target addresses e f (full target.host addresses f))

  -- If no name resolves to an empty text, then whatever a client sends, the broker resolves only names that are on the allowlist, and dials only
  -- addresses to which such a name resolved, at the port that is allowlisted for the name, when none
  -- of the addresses of the name is forbidden.
  pub handle-IsGated :
      (request_head : Text)
      → ((name : Text) (addresses : List Text)
          → resolve name ≡ ok addresses
          → All (λ a. is_empty a ≡ false) addresses)
      → IsGated (handle number ip_version allow resolve dial is_client_gone request_head)
  unfolding handle
  handle-IsGated request_head full =
      elim (Option-cases (parse_connect_target number request_head)) [
        | inl e ↦ rw (e, handle) (tt, tt)
        | inr (target, e) ↦ rw (e, handle) (handle_target-IsGated target full)
      ]

  connect-tunnel :
      (target : EgressEndpoint) (addresses : List Text) (address : Text)
      → any (is_forbidden_address ip_version) addresses ≡ false
      → find (λ a. dial (record { host = a; port = target.port })) addresses ≡ some address
      → (connect number ip_version allow resolve dial is_client_gone target addresses).answer
        ≡ (if is_client_gone then dropped else tunnel address target.port)
  unfolding connect
  connect-tunnel target [] address f d = cc
  connect-tunnel target (a ∷ more) address f d =
      let answered : (connect_to_any dial (a ∷ more) target.port).1 ≡ some address =
        connect_to_any-first dial (a ∷ more) target.port ∙ d in
      let safe = any-find_none (is_forbidden_address ip_version) (a ∷ more) f in
      rw (safe, connect, answered) refl

  -- If the target of a request is on the allowlist, its name resolves to addresses of which none is
  -- forbidden, and one of them answers, then the client gets a tunnel to the first that answers, and is
  -- dropped only if it went away.
  pub handle-tunnel :
      (request_head : Text) (target : EgressEndpoint) (addresses : List Text) (address : Text)
      → parse_connect_target number request_head ≡ some target
      → any (same_endpoint target) allow ≡ true
      → resolve target.host ≡ ok addresses
      → any (is_forbidden_address ip_version) addresses ≡ false
      → find (λ a. dial (record { host = a; port = target.port })) addresses ≡ some address
      → (handle number ip_version allow resolve dial is_client_gone request_head).answer
        ≡ (if is_client_gone then dropped else tunnel address target.port)
  unfolding handle handle_target
  handle-tunnel request_head target addresses address p h r f d =
      rw (p, handle, h, handle_target, r) (connect-tunnel target addresses address f d)
