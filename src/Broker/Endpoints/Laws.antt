-- ===== src/Broker/Endpoints/Laws.antt =====
-- About `parseConnectTarget` and `parseEgressEndpoints` (egress-broker.ts).
use code_jam.Prelude.{
  some-inj, ok-inj, Bool-cases, Option-cases, any, All, All-imp, Text, codes, text_eq, text_eq_sym,
  is_empty, trim, to_lower, lower, split, Result, ok, bind, bind-eq-ok, ℕ, ◌≤◌, ◌≡◌, refl, inl, inr,
  false, ◌&&◌, ◌||◌, Option, none, some, List, [], ◌∷◌, arith,
}
use code_jam.Broker.Endpoints.{
  EgressEndpoint, same_endpoint, collapse, parse_egress_endpoints, first_line, words_from,
  split_last, is_port, port_of, parse_authority, target_of, parse_connect_target,
}

to_lower-to_lower : (c : ℕ) → to_lower (to_lower c) ≡ to_lower c
unfolding to_lower
to_lower-to_lower c = ground arith

lower-lower : (s : Text) → lower (lower s) ≡ lower s
lower-lower [] = refl
lower-lower (c ∷ s) = ground (arith, to_lower-to_lower c, lower-lower s)

is_empty-lower : (s : Text) → is_empty s ≡ false → is_empty (lower s) ≡ false
is_empty-lower [] h = h
is_empty-lower (c ∷ s) h = refl

-- A target has a host, in lower case, and a port of the range.
abbrev pub IsTarget : EgressEndpoint → Type 0
IsTarget t = (is_empty t.host ≡ false) × (lower t.host ≡ t.host) × (1 ≤ t.port) × (t.port ≤ 65535)

module _ (number : Text → Option ℕ) where
  port_of-IsTarget :
      (host text : Text) {t : EgressEndpoint}
      → is_empty host ≡ false
      → port_of number (lower host) text ≡ some t
      → IsTarget t
  port_of-IsTarget host text {t} h e = elim (Option-cases (number text)) [
    | inl n ↦ ground arith
    | inr (n, k) ↦ elim (Bool-cases (is_port n)) [
      | inl p ↦
          let same : record { host = lower host; port = n } ≡ t =
            some-inj (rw (k, port_of, p) at e) in
          rw (← same) (is_empty-lower host h, lower-lower host, ground arith, ground arith)
      | inr p ↦ ground arith
    ]
  ]

  parse_authority-IsTarget :
      (authority : Text) {t : EgressEndpoint}
      → parse_authority number authority ≡ some t
      → IsTarget t
  unfolding parse_authority
  parse_authority-IsTarget authority {t} e = elim (Option-cases (split_last authority)) [
    | inl n ↦ ground arith
    | inr ((host, text), k) ↦ elim (Bool-cases (is_empty host)) [
      | inl b ↦ ground arith
      | inr b ↦ port_of-IsTarget host text b (rw (k, parse_authority, b) at e)
    ]
  ]

  target_of-IsTarget :
      (words : List Text) {t : EgressEndpoint} → target_of number words ≡ some t → IsTarget t
  unfolding target_of
  target_of-IsTarget (v ∷ a ∷ w ∷ []) {t} e =
      let is_connect =
        text_eq (lower v) (codes "connect")
        && (text_eq (lower w) (codes "http/1.0") || text_eq (lower w) (codes "http/1.1")) in
      elim (Bool-cases is_connect) [
        | inl c ↦ parse_authority-IsTarget a (rw (c, target_of) at e)
        | inr c ↦ (let broken : none ≡ some t = rw (c, target_of) at e in cc broken)
      ]
  target_of-IsTarget [] e = cc
  target_of-IsTarget (v ∷ []) e = cc
  target_of-IsTarget (v ∷ a ∷ []) e = cc
  target_of-IsTarget (v ∷ a ∷ w ∷ x ∷ more) e = cc

  -- The target that a request names has a host, in lower case, and a port from 1 to 65535.
  pub parse_connect_target-IsTarget :
      (head : Text) (t : EgressEndpoint) → parse_connect_target number head ≡ some t → IsTarget t
  unfolding parse_connect_target
  parse_connect_target-IsTarget head t e = target_of-IsTarget (words_from [] (first_line head)) e

-- No endpoint is equal to a later one.
abbrev pub IsDistinct : List EgressEndpoint → Type 0
IsDistinct [] = Unit
IsDistinct (e ∷ es) = (any (same_endpoint e) es ≡ false) × IsDistinct es

same_endpoint-sym : (e f : EgressEndpoint) → same_endpoint e f ≡ same_endpoint f e
same_endpoint-sym e f = ground (arith, text_eq_sym e.host f.host)

abbrev Unseen : List EgressEndpoint → EgressEndpoint → Type 0
Unseen seen e = any (same_endpoint e) seen ≡ false

Unseen-any :
    (e : EgressEndpoint) (seen es : List EgressEndpoint)
    → All (Unseen (e ∷ seen)) es
    → any (same_endpoint e) es ≡ false
Unseen-any e seen [] h = refl
Unseen-any e seen (f ∷ es) (q, h) = ground (arith, same_endpoint-sym e f, Unseen-any e seen es h)

module _ (parse : Text → Result EgressEndpoint) where
  kept-IsDistinct :
      (endpoint : EgressEndpoint) (seen : List EgressEndpoint) (parts : List Text)
      {es : List EgressEndpoint}
      → any (same_endpoint endpoint) seen ≡ false
      → ((later : List EgressEndpoint)
          → collapse parse (endpoint ∷ seen) parts ≡ ok later
          → All (Unseen (endpoint ∷ seen)) later × IsDistinct later)
      → bind (collapse parse (endpoint ∷ seen) parts) (λ endpoints. ok (endpoint ∷ endpoints))
        ≡ ok es
      → All (Unseen seen) es × IsDistinct es
  kept-IsDistinct endpoint seen parts {es} new step h =
      let (later, read, h3) = bind-eq-ok (collapse parse (endpoint ∷ seen) parts) _ h in
      let same : (endpoint ∷ later) ≡ es = ok-inj h3 in
      let (unseen, distinct) = step later read in
      rw (← same) (
        (new, All-imp (Unseen (endpoint ∷ seen)) (Unseen seen) later (λ e k. ground arith) unseen),
        (Unseen-any endpoint seen later unseen, distinct),
      )

  collapse-IsDistinct :
      (parts : List Text) (seen : List EgressEndpoint) {es : List EgressEndpoint}
      → collapse parse seen parts ≡ ok es
      → All (Unseen seen) es × IsDistinct es
  unfolding collapse
  collapse-IsDistinct [] seen {es} h = let same : [] ≡ es = ground arith in rw (← same) (tt, tt)
  collapse-IsDistinct (part ∷ parts) seen {es} h = elim (Bool-cases (is_empty (trim part))) [
    | inl blank ↦ collapse-IsDistinct parts seen (rw (blank, collapse) at h)
    | inr t ↦
        let (endpoint, _, h1) = bind-eq-ok (parse (trim part)) _ (rw (t, collapse) at h) in
        elim (Bool-cases (any (same_endpoint endpoint) seen)) [
          | inl known ↦ collapse-IsDistinct parts seen (rw known at h1)
          | inr new ↦
              kept-IsDistinct endpoint seen parts new
                (λ _ read. collapse-IsDistinct parts (endpoint ∷ seen) read) (rw new at h1)
        ]
  ]

  -- The endpoints that are read from the configuration are pairwise different: each is listed once,
  -- however often it is written.
  pub parse_egress_endpoints-IsDistinct :
      (raw : Text) (es : List EgressEndpoint)
      → parse_egress_endpoints parse raw ≡ ok es
      → IsDistinct es
  unfolding parse_egress_endpoints
  parse_egress_endpoints-IsDistinct raw es h = (collapse-IsDistinct (split b',' raw) [] h).1
