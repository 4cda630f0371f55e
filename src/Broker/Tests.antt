-- ===== src/Broker/Tests.antt =====
-- The broker run on concrete addresses and requests.
use code_jam.Prelude.{
  ◌==◌, if◌then◌else◌, Bool-cases, length, any, All, ok-inj, Text, codes, text_eq, is_white,
  is_empty, trim, to_lower, split_from, Result, ok, ℕ, ◌≡◌, refl, inl, inr, Bool, true, false,
  Option, none, some, List, [], ◌∷◌, ◌++◌, arith,
}
use code_jam.Broker.Addresses.{
  is_forbidden_ipv4, is_forbidden_address, ipv4_bytes, ipv6_bytes, zeroes, quad_bytes, quad_byte,
  decimal_value, halves_bytes, split_double, without_zone, expand, groups_bytes, group_bytes,
  hex_value,
}
use code_jam.Broker.Addresses.Blocks.{address_of, in_forbidden_block, is_forbidden_ipv4-blocks}
use code_jam.Broker.Addresses.Bytes.{AreBytes, bytes-AreBytes}
use code_jam.Broker.Endpoints.{
  EgressEndpoint, same_endpoint, parse_connect_target, parse_egress_endpoints, target_of,
  words_from, first_line, parse_authority, split_last, collapse,
}
use code_jam.Broker.Endpoints.Laws.{IsTarget, parse_connect_target-IsTarget}
use code_jam.Broker.Gate.{handle, tunnel}
use code_jam.Broker.Gate.Laws.{IsGated, handle-IsGated, handle-tunnel}

-- The metadata service, 169.254.169.254.
is_forbidden_ipv4-blocks_example :
    is_forbidden_ipv4 (169 ∷ 254 ∷ 169 ∷ 254 ∷ []) ≡ in_forbidden_block (address_of 169 254 169 254)
is_forbidden_ipv4-blocks_example =
    is_forbidden_ipv4-blocks 169 254 169 254 (ground arith) (ground arith) (ground arith)
      (ground arith)

addresses : Unit {0}
unfolding ipv4_bytes ipv6_bytes quad_bytes quad_byte decimal_value halves_bytes split_double
    without_zone expand groups_bytes group_bytes hex_value codes split_from to_lower
addresses = tt

ipv4-read : ipv4_bytes (codes "127.0.0.1") ≡ some (127 ∷ 0 ∷ 0 ∷ 1 ∷ [])
unfolding addresses
ipv4-read = refl

ipv6-read :
    ipv6_bytes (codes "::FFFF:7f00:1%eth0") ≡ some (zeroes 10 ++ (255 ∷ 255 ∷ 127 ∷ 0 ∷ 0 ∷ 1 ∷ []))
unfolding addresses
ipv6-read = refl

abbrev loopback : List ℕ
loopback = 127 ∷ 0 ∷ 0 ∷ 1 ∷ []

abbrev mapped_loopback : List ℕ
mapped_loopback = zeroes 10 ++ (255 ∷ 255 ∷ loopback)

bytes-AreBytes_example :
    (AreBytes loopback × (length loopback ≡ 4))
    × (AreBytes mapped_loopback × (length mapped_loopback ≡ 16))
bytes-AreBytes_example =
    bytes-AreBytes (codes "127.0.0.1") (codes "::FFFF:7f00:1%eth0") loopback mapped_loopback
      ipv4-read ipv6-read

-- `Number` on digits, and `isIP` told apart by a dot.
abbrev number : Text → Option ℕ
number text = if is_empty text then none else some (decimal_value 0 text)

abbrev ip_version : Text → ℕ
ip_version address = if any (λ c. c == b'.') address then 4 else 0

abbrev endpoint : Text → EgressEndpoint
endpoint host = record { host = host; port = 443 }

abbrev allow : List EgressEndpoint
allow = endpoint (codes "api.example") ∷ endpoint (codes "rebound.example") ∷ []

-- One name has a public address, and another one is bound to the metadata service.
abbrev resolve : Text → Result (List Text)
resolve name =
    if text_eq name (codes "api.example")
    then ok (codes "93.184.216.34" ∷ [])
    else ok (codes "93.184.216.34" ∷ codes "169.254.169.254" ∷ [])

abbrev answers : EgressEndpoint → Bool
answers _ = true

abbrev head : Text
head = codes "CONNECT API.example:443 HTTP/1.1"

broker : Unit {0}
unfolding addresses parse_connect_target target_of words_from first_line parse_authority split_last
    text_eq is_white is_forbidden_address is_forbidden_ipv4 parse_egress_endpoints collapse trim
broker = tt

head-target : parse_connect_target number head ≡ some (endpoint (codes "api.example"))
unfolding broker
head-target = refl

parse_connect_target-IsTarget_example : IsTarget (endpoint (codes "api.example"))
parse_connect_target-IsTarget_example =
    parse_connect_target-IsTarget number head (endpoint (codes "api.example")) head-target

resolves-full :
    (name : Text) (addresses : List Text)
    → resolve name ≡ ok addresses
    → All (λ a. is_empty a ≡ false) addresses
unfolding codes
resolves-full name addresses h = elim (Bool-cases (text_eq name (codes "api.example"))) [
  | inl e ↦
      let same : (codes "93.184.216.34" ∷ []) ≡ addresses = ok-inj (rw (e, resolve) at h) in
      rw (← same) (refl, tt)
  | inr e ↦
      let same : (codes "93.184.216.34" ∷ codes "169.254.169.254" ∷ []) ≡ addresses =
        ok-inj (rw (e, resolve) at h) in
      rw (← same) (refl, (refl, tt))
]

handle-IsGated_example :
    IsGated number ip_version allow resolve answers false
      (handle number ip_version allow resolve answers false head)
handle-IsGated_example =
    handle-IsGated number ip_version allow resolve answers false head resolves-full

target-allowed : any (same_endpoint (endpoint (codes "api.example"))) allow ≡ true
unfolding broker
target-allowed = refl

target-resolves : resolve (codes "api.example") ≡ ok (codes "93.184.216.34" ∷ [])
unfolding broker
target-resolves = refl

target-public : any (is_forbidden_address ip_version) (codes "93.184.216.34" ∷ []) ≡ false
unfolding broker
target-public = refl

handle-tunnel_example :
    (handle number ip_version allow resolve answers false head).answer
    ≡ tunnel (codes "93.184.216.34") 443
handle-tunnel_example =
    handle-tunnel number ip_version allow resolve answers false head
      (endpoint (codes "api.example")) (codes "93.184.216.34" ∷ []) (codes "93.184.216.34")
      head-target target-allowed target-resolves target-public refl

-- The endpoint parser takes the whole part as the host.
abbrev parse : Text → Result EgressEndpoint
parse part = ok (endpoint part)

abbrev configured : List EgressEndpoint
configured = endpoint (codes "a") ∷ endpoint (codes "b") ∷ []

configured-read : parse_egress_endpoints parse (codes "a, b,,a") ≡ ok configured
unfolding broker
configured-read = refl
