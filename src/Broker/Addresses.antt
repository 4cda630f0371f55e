-- ===== src/Broker/Addresses.antt =====
-- `isForbiddenAddress` (apps/server/src/egress-broker.ts): the bytes of an address, and which
-- are forbidden.
pub mod Blocks
pub mod Bytes
use code_jam.Prelude.{
  ltb, leb, ◌==◌, if◌then◌else◌, ltb→lt, ltb-false→le, lt→ltb, le→ltb-false, ==_iff, Bool-cases,
  Option-cases, true-of-ne-false, length, take, drop, get_elem?, keep, any, all, find, modify_first,
  length-append, All, All-append, All-split, All-keep, All-modify_first, All-find, All-imp,
  All-keep_self, find-modify_first, find-test, Text, codes, text_eq, text_eq_iff, text_eq_refl,
  text_eq_sym, includes, is_white, is_empty, trim_start, trim_end, trim, to_lower, lower,
  split_from, split, starts_with, index_of, join, Fault, http, failure, Result, ok, err, bind,
  bind-eq-ok, guard, Exec, pure, raise, continue, ◌>>=◌, ◌>>◌, ℕ, zero, suc, ◌+◌, ◌-◌, ◌*◌, ◌/◌,
  ◌%◌, ◌^◌, ◌≤◌, ◌<◌, String, ◌≡◌, refl, sym, ap, ◌∙◌, ◌≢◌, ◌↔◌, ◌⊎◌, inl, inr, Bool, true, false,
  not, ◌&&◌, ◌||◌, Option, none, some, List, [], ◌∷◌, ◌++◌, map, arith,
}

-- `bytes[i] === v`, false where there is no such byte
abbrev pub is_byte : List ℕ → ℕ → ℕ → Bool
is_byte bytes i v = elim (get_elem? bytes i) [ none ↦ false | some b ↦ b == v ]

-- `(bytes[i] & mask) === v`, for a mask that clears the bits below `step`
abbrev pub is_masked : ℕ → List ℕ → ℕ → ℕ → Bool
is_masked step bytes i v = elim (get_elem? bytes i) [ none ↦ false | some b ↦ b / step * step == v ]

-- `isForbiddenIPv4`
unfoldable pub is_forbidden_ipv4 : List ℕ → Bool
is_forbidden_ipv4 (a ∷ b ∷ _) =
    if a == 0
    then true
    else if a == 10
    then true
    else if a == 127
    then true
    else if a == 169 && b == 254
    then true
    else if a == 172 && (leb 16 b && leb b 31)
    then true
    else if a == 192 && b == 168
    then true
    else if a == 100 && (leb 64 b && leb b 127)
    then true
    else leb 224 a
is_forbidden_ipv4 (a ∷ []) = a == 0 || a == 10 || a == 127 || leb 224 a
is_forbidden_ipv4 [] = false

-- `zeroesThrough`
abbrev pub zeroes_through : ℕ → List ℕ → Bool
zeroes_through n bytes = all (λ b. b == 0) (take n bytes)

-- `isForbiddenIPv6`
unfoldable pub is_forbidden_ipv6 : List ℕ → Bool
unfolding is_forbidden_ipv4
is_forbidden_ipv6 b =
    if zeroes_through 15 b && (is_byte b 15 0 || is_byte b 15 1)
    then true
    else if zeroes_through 10 b && (is_byte b 10 0xff && is_byte b 11 0xff)
    then is_forbidden_ipv4 (drop 12 b)
    else if zeroes_through 12 b
    then is_forbidden_ipv4 (drop 12 b)
    else if is_byte b 0 0xff
    then true
    else if is_byte b 0 0xfe && is_masked 64 b 1 0x80
    then true
    else if is_byte b 0 0xfe && is_masked 64 b 1 0xc0
    then true
    else if is_masked 2 b 0 0xfc
    then true
    else if is_byte b 0 0x20 && is_byte b 1 0x02
    then is_forbidden_ipv4 (take 4 (drop 2 b))
    else is_byte b 0 0x20 && (is_byte b 1 0x01 && (is_byte b 2 0 && is_byte b 3 0))

abbrev pub is_digit : ℕ → Bool
is_digit c = leb b'0' c && leb c b'9'

-- `Number(part)` of a text of digits
unfoldable pub decimal_value : ℕ → Text → ℕ
decimal_value n [] = n
decimal_value n (c ∷ s) = decimal_value (n * 10 + (c - b'0')) s

-- One part of a dotted quad: `/^\d{1,3}$/`, and at most 255.
unfoldable pub quad_byte : Text → Option ℕ
unfolding decimal_value
quad_byte part =
    if not (leb 1 (length part) && (leb (length part) 3 && all is_digit part))
    then none
    else if ltb 255 (decimal_value 0 part)
    then none
    else some (decimal_value 0 part)

-- The values of all parts, if each has one.
unfoldable pub quad_bytes : List Text → Option (List ℕ)
unfolding quad_byte
quad_bytes [] = some []
quad_bytes (part ∷ parts) = elim (quad_byte part) [
  | none ↦ none
  | some b ↦ elim (quad_bytes parts) [ none ↦ none | some bs ↦ some (b ∷ bs) ]
]

-- `ipv4Bytes`
unfoldable pub ipv4_bytes : Text → Option (List ℕ)
unfolding quad_bytes split_from
ipv4_bytes address =
    let parts = split b'.' address in if not (length parts == 4) then none else quad_bytes parts

-- `[0-9a-f]`
abbrev pub is_hex : ℕ → Bool
is_hex c = is_digit c || (leb b'a' c && leb c b'f')

abbrev pub hex_digit : ℕ → ℕ
hex_digit c = if is_digit c then c - b'0' else c - 87

-- `Number.parseInt(group, 16)` of hexadecimal digits
unfoldable pub hex_value : ℕ → Text → ℕ
hex_value n [] = n
hex_value n (c ∷ s) = hex_value (n * 16 + hex_digit c) s

-- One group of an address: its bytes, where a dotted quad may only be the last group.
unfoldable pub group_bytes : (is_last : Bool) → Text → Option (List ℕ)
unfolding ipv4_bytes hex_value
group_bytes is_last group =
    if any (λ c. c == b'.') group
    then (if not is_last then none else ipv4_bytes group)
    else if not (leb 1 (length group) && (leb (length group) 4 && all is_hex group))
    then none
    else some (hex_value 0 group / 256 ∷ hex_value 0 group % 256 ∷ [])

abbrev joined : Option (List ℕ) → Option (List ℕ) → Option (List ℕ)
joined none _ = none
joined (some _) none = none
joined (some bs) (some cs) = some (bs ++ cs)

unfoldable pub groups_bytes : List Text → Option (List ℕ)
unfolding group_bytes
groups_bytes [] = some []
groups_bytes (group ∷ groups) = joined (group_bytes (is_empty groups) group) (groups_bytes groups)

-- `expand`
unfoldable pub expand : Text → Option (List ℕ)
unfolding groups_bytes split_from
expand part = if is_empty part then some [] else groups_bytes (split b':' part)

-- `text.split("::")`
unfoldable pub split_double : Text → Text → List Text
split_double cur [] = cur ∷ []
split_double cur (c ∷ []) = (cur ++ c ∷ []) ∷ []
split_double cur (c ∷ d ∷ s) =
    let closed = cur ∷ split_double [] s in
    let longer = split_double (cur ++ c ∷ []) (d ∷ s) in
    if c == b':' && d == b':' then closed else longer

abbrev pub zeroes : ℕ → List ℕ
zeroes zero = []
zeroes (suc n) = 0 ∷ zeroes n

-- `bytes.set(head, 0); bytes.set(tail, 16 - tail.length)`, if `::` stands for a zero group at least
abbrev pub around : Option (List ℕ) → Option (List ℕ) → Option (List ℕ)
around none _ = none
around (some _) none = none
around (some head) (some tail) =
    if ltb 14 (length head + length tail)
    then none
    else some (head ++ (zeroes (16 - (length head + length tail)) ++ tail))

abbrev pub whole : Option (List ℕ) → Option (List ℕ)
whole none = none
whole (some head) = if not (length head == 16) then none else some head

-- The two halves at `::`, or the one if there is none.
unfoldable pub halves_bytes : List Text → Option (List ℕ)
unfolding expand
halves_bytes (h ∷ []) = whole (expand h)
halves_bytes (h ∷ t ∷ []) = around (expand h) (expand t)
halves_bytes _ = none

-- `text.split("%")[0]`
unfoldable pub without_zone : Text → Text
without_zone [] = []
without_zone (c ∷ s) = if c == b'%' then [] else c ∷ without_zone s

-- `ipv6Bytes`
unfoldable pub ipv6_bytes : Text → Option (List ℕ)
unfolding halves_bytes split_double without_zone
ipv6_bytes address = halves_bytes (split_double [] (without_zone (lower address)))

-- `isForbiddenAddress`, over `isIP` of the platform, which gives 0, 4 or 6
unfoldable pub is_forbidden_address : (Text → ℕ) → Text → Bool
unfolding ipv4_bytes ipv6_bytes is_forbidden_ipv4 is_forbidden_ipv6
is_forbidden_address ip_version address =
    if ip_version address == 0
    then true
    else if ip_version address == 4
    then elim (ipv4_bytes address) [ none ↦ true | some bytes ↦ is_forbidden_ipv4 bytes ]
    else elim (ipv6_bytes address) [ none ↦ true | some bytes ↦ is_forbidden_ipv6 bytes ]
