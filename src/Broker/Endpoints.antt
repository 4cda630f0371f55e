-- ===== src/Broker/Endpoints.antt =====
-- The endpoints that an agent may reach, and the target that a request names
-- (apps/server/src/egress-broker.ts).
pub mod Laws
use code_jam.Prelude.{
  ltb, leb, ◌==◌, if◌then◌else◌, ltb→lt, ltb-false→le, lt→ltb, le→ltb-false, ==_iff, Bool-cases,
  Option-cases, true-of-ne-false, length, take, drop, get_elem?, keep, any, all, find, modify_first,
  length-append, All, All-append, All-split, All-keep, All-modify_first, All-find, All-imp,
  All-keep_self, find-modify_first, find-test, Text, codes, text_eq, text_eq_iff, text_eq_refl,
  text_eq_sym, includes, is_white, is_empty, trim_start, trim_end, trim, to_lower, lower,
  split_from, split, starts_with, index_of, join, Fault, http, failure, Result, ok, err, bind,
  bind-eq-ok, guard, Exec, pure, raise, continue, ◌>>=◌, ◌>>◌, ℕ, zero, suc, ◌+◌, ◌-◌, ◌*◌, ◌/◌,
  ◌%◌, ◌^◌, ◌≤◌, ◌<◌, String, ◌≡◌, refl, sym, ap, ◌∙◌, ◌≢◌, ◌↔◌, ◌⊎◌, inl, inr, Bool, true, false,
  not, ◌&&◌, ◌||◌, Option, none, some, List, [], ◌∷◌, ◌++◌, map, arith,
}

pub record EgressEndpoint : Type 0 where
  pub host : Text
  pub port : ℕ

abbrev pub same_endpoint : EgressEndpoint → EgressEndpoint → Bool
same_endpoint e f = text_eq e.host f.host && e.port == f.port

-- The loop over the parts. The key in `seen` is the host, a colon and the digits of the port, which
-- hold no colon, so equal keys are equal endpoints.
unfoldable pub collapse :
    (Text → Result EgressEndpoint) → List EgressEndpoint → List Text → Result (List EgressEndpoint)
collapse parse seen [] = ok []
collapse parse seen (part ∷ parts) =
    let skipped = collapse parse seen parts in
    if is_empty (trim part)
    then skipped
    else bind (parse (trim part)) (λ endpoint.
      let rest = collapse parse (endpoint ∷ seen) parts in
      if any (same_endpoint endpoint) seen
      then skipped
      else bind rest (λ endpoints. ok (endpoint ∷ endpoints)))

-- `parseEgressEndpoints`, over `parseEgressEndpoint`, which is the platform's URL parser
unfoldable pub parse_egress_endpoints :
    (Text → Result EgressEndpoint) → Text → Result (List EgressEndpoint)
unfolding collapse split_from
parse_egress_endpoints parse raw = collapse parse [] (split b',' raw)

-- `head.split("\r\n", 1)[0]`
unfoldable pub first_line : Text → Text
first_line [] = []
first_line (c ∷ []) = c ∷ []
first_line (c ∷ d ∷ s) = if c == 13 && d == 10 then [] else c ∷ first_line (d ∷ s)

-- The maximal runs without white space.
unfoldable pub words_from : Text → Text → List Text
words_from cur [] = if is_empty cur then [] else cur ∷ []
words_from cur (c ∷ s) =
    let inside = words_from (cur ++ c ∷ []) s in
    let after = words_from [] s in
    if is_white c then (if is_empty cur then after else cur ∷ after) else inside

-- The split at the last colon, if it is not the first code unit: `lastIndexOf(":")` and the two slices.
unfoldable pub split_last : Text → Option (Text × Text)
split_last [] = none
split_last (c ∷ s) = elim (split_last s) [
  | some (before, after) ↦ some (c ∷ before, after)
  | none ↦ if c == b':' then some ([], s) else none
]

-- `Number.isInteger(port) && port >= 1 && port <= 65535`
abbrev pub is_port : ℕ → Bool
is_port n = leb 1 n && leb n 65535

-- `Number(text)` of the platform, where it is an integer that is not negative
module _ (number : Text → Option ℕ) where
  abbrev pub port_of : Text → Text → Option EgressEndpoint
  port_of host text = elim (number text) [
    | none ↦ none
    | some n ↦ if is_port n then some (record { host = host; port = n }) else none
  ]

  unfoldable pub parse_authority : Text → Option EgressEndpoint
  unfolding split_last
  parse_authority authority = elim (split_last authority) [
    | none ↦ none
    | some (host, text) ↦ if is_empty host then none else port_of (lower host) text
  ]

  -- The words of `/^CONNECT\s+(\S+)\s+HTTP\/1\.[01]$/i`, and the target in the second.
  unfoldable pub target_of : List Text → Option EgressEndpoint
  unfolding parse_authority
  target_of (verb ∷ authority ∷ version ∷ []) =
      if text_eq (lower verb) (codes "connect")
        && (text_eq (lower version) (codes "http/1.0")
            || text_eq (lower version) (codes "http/1.1"))
      then parse_authority authority
      else none
  target_of _ = none

  -- `parseConnectTarget`
  unfoldable pub parse_connect_target : Text → Option EgressEndpoint
  unfolding target_of words_from first_line
  parse_connect_target head = target_of (words_from [] (first_line head))

  -- `normalizeUpstream`
  unfoldable pub normalize_upstream : Text → EgressEndpoint
  unfolding split_last
  normalize_upstream raw =
      let plain : EgressEndpoint = record { host = trim raw; port = 53 } in
      elim (split_last (trim raw)) [
        | none ↦ plain
        | some (host, text) ↦
            if is_empty host
            then plain
            else elim (port_of host text) [ none ↦ plain | some endpoint ↦ endpoint ]
      ]
