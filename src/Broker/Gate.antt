-- ===== src/Broker/Gate.antt =====
-- The handling of one CONNECT request (`createEgressBroker` in
-- apps/server/src/egress-broker.ts).
pub mod Laws
use code_jam.Prelude.{
  ltb, leb, ◌==◌, if◌then◌else◌, ltb→lt, ltb-false→le, lt→ltb, le→ltb-false, ==_iff, Bool-cases,
  Option-cases, true-of-ne-false, length, take, drop, get_elem?, keep, any, all, find, modify_first,
  length-append, All, All-append, All-split, All-keep, All-modify_first, All-find, All-imp,
  All-keep_self, find-modify_first, find-test, Text, codes, text_eq, text_eq_iff, text_eq_refl,
  text_eq_sym, includes, is_white, is_empty, trim_start, trim_end, trim, to_lower, lower,
  split_from, split, starts_with, index_of, join, Fault, http, failure, Result, ok, err, bind,
  bind-eq-ok, guard, Exec, pure, raise, continue, ◌>>=◌, ◌>>◌, ℕ, zero, suc, ◌+◌, ◌-◌, ◌*◌, ◌/◌,
  ◌%◌, ◌^◌, ◌≤◌, ◌<◌, String, ◌≡◌, refl, sym, ap, ◌∙◌, ◌≢◌, ◌↔◌, ◌⊎◌, inl, inr, Bool, true, false,
  not, ◌&&◌, ◌||◌, Option, none, some, List, [], ◌∷◌, ◌++◌, map, arith,
}
use code_jam.Broker.Addresses.{is_forbidden_address}
use code_jam.Broker.Endpoints.{EgressEndpoint, same_endpoint, parse_connect_target}

-- What the client is told, with the status, or the address that the tunnel goes to; a client that
-- went away while the broker was connecting is dropped.
pub data Answer : Type 0 where
  refused : (code : ℕ) (reason : Text) (target : Option EgressEndpoint) → Answer
  tunnel : (address : Text) (port : ℕ) → Answer
  dropped : Answer

-- What one request makes the broker do: the names that it resolves, the addresses that it dials, in
-- order, and its answer.
pub record Handled : Type 0 where
  pub resolved : List Text
  pub dialled : List EgressEndpoint
  pub answer : Answer

-- `deny`, after the names were resolved
abbrev pub deny : List Text → ℕ → Text → Option EgressEndpoint → Handled
deny resolved code reason target = record {
  resolved = resolved;
  dialled = [];
  answer = refused code reason target;
}

-- `connectToAny`, over whether a dial succeeds: what is dialled, and the address that answered.
unfoldable pub connect_to_any :
    (EgressEndpoint → Bool) → List Text → ℕ → List EgressEndpoint × Option Text
connect_to_any dial [] port = ([], none)
connect_to_any dial (address ∷ addresses) port =
    let (later, reached) = connect_to_any dial addresses port in
    let here : EgressEndpoint = record { host = address; port = port } in
    if dial here then (here ∷ [], some address) else (here ∷ later, reached)

abbrev reached : EgressEndpoint → (is_client_gone : Bool) → Option Text → Answer
reached target is_client_gone none = refused 502 (codes "upstream failed") (some target)
reached target is_client_gone (some address) =
    if is_client_gone then dropped else tunnel address target.port

-- `if (forbidden)`, which an empty text does not pass
abbrev pub is_truthy : Option Text → Bool
is_truthy none = false
is_truthy (some s) = not (is_empty s)

module _ (number : Text → Option ℕ) (ip_version : Text → ℕ) (allow : List EgressEndpoint)
    (resolve : Text → Result (List Text)) (dial : EgressEndpoint → Bool)
    (is_client_gone : Bool) where
  -- The addresses that a name resolved to.
  unfoldable pub connect : EgressEndpoint → List Text → Handled
  unfolding is_forbidden_address connect_to_any
  connect target addresses =
      if is_empty addresses
      then deny (target.host ∷ []) 502 (codes "DNS returned no addresses") (some target)
      else if is_truthy (find (is_forbidden_address ip_version) addresses)
      then deny (target.host ∷ []) 403 (codes "resolves to a private address") (some target)
      else let (dialled, answered) = connect_to_any dial addresses target.port in
        record {
          resolved = target.host ∷ [];
          dialled = dialled;
          answer = reached target is_client_gone answered;
        }

  unfoldable pub handle_target : EgressEndpoint → Handled
  unfolding connect
  handle_target target =
      if not (any (same_endpoint target) allow)
      then deny [] 403 (codes "destination not allowlisted") (some target)
      else elim (resolve target.host) [
        | err _ ↦ deny (target.host ∷ []) 502 (codes "DNS resolution failed") (some target)
        | ok addresses ↦ connect target addresses
      ]

  -- `handle`
  unfoldable pub handle : Text → Handled
  unfolding handle_target parse_connect_target
  handle request_head = elim (parse_connect_target number request_head) [
    | none ↦ deny [] 400 (codes "not a CONNECT request") none
    | some target ↦ handle_target target
  ]
