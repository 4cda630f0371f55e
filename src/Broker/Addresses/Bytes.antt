-- ===== src/Broker/Addresses/Bytes.antt =====
-- About `ipv4Bytes` and `ipv6Bytes` (egress-broker.ts).
use code_jam.Prelude.{
  some-inj, leb, ◌==◌, ==_iff, Bool-cases, Option-cases, length, any, all, length-append, All,
  All-append, Text, is_empty, lower, split, ℕ, zero, suc, ◌+◌, ◌-◌, ◌*◌, ◌/◌, ◌%◌, ◌≤◌, ◌<◌, ◌≡◌,
  refl, ap, ◌∙◌, inl, inr, Bool, true, ◌&&◌, Option, none, some, List, [], ◌∷◌, ◌++◌, arith,
}
use code_jam.Broker.Addresses.{
  quad_byte, quad_bytes, ipv4_bytes, is_hex, hex_digit, hex_value, group_bytes, groups_bytes,
  expand, zeroes, around, whole, halves_bytes, ipv6_bytes, split_double, without_zone, joined,
}

abbrev pub AreBytes : List ℕ → Type 0
AreBytes = All (λ b. b < 256)

quad_byte-bound : (part : Text) {b : ℕ} → quad_byte part ≡ some b → b < 256
unfolding quad_byte
quad_byte-bound part h = ground arith

quad_bytes-AreBytes :
    (parts : List Text) {bs : List ℕ}
    → quad_bytes parts ≡ some bs
    → AreBytes bs × (length bs ≡ length parts)
unfolding quad_bytes
quad_bytes-AreBytes [] {bs} h = let same : [] ≡ bs = ground arith in rw (← same) (tt, refl)
quad_bytes-AreBytes (part ∷ parts) {bs} h = elim (Option-cases (quad_byte part)) [
  | inl e ↦ ground arith
  | inr (b, e) ↦ elim (Option-cases (quad_bytes parts)) [
    | inl f ↦ ground arith
    | inr (cs, f) ↦
        let (bytes, count) = quad_bytes-AreBytes parts f in
        let same : (b ∷ cs) ≡ bs = ground arith in
        rw (← same) ((quad_byte-bound part e, bytes), ground arith)
  ]
]

hex_digit-bound : (c : ℕ) → is_hex c ≡ true → hex_digit c < 16
hex_digit-bound c h = ground arith

-- What the digits read so far are worth, after one more.
hex_step : (n m c : ℕ) → n < m → is_hex c ≡ true → n * 16 + hex_digit c < m * 16
hex_step n m c h k = let bound = hex_digit-bound c k in omega (arith, bound)

-- `m * 16 ^ length s`
abbrev scaled : ℕ → Text → ℕ
scaled m [] = m
scaled m (_ ∷ s) = scaled (m * 16) s

hex_value-scaled : (s : Text) (n m : ℕ) → n < m → all is_hex s ≡ true → hex_value n s < scaled m s
unfolding hex_value
hex_value-scaled [] n m k h = k
hex_value-scaled (c ∷ s) n m k h = elim (Bool-cases (is_hex c)) [
  | inl e ↦ hex_value-scaled s (n * 16 + hex_digit c) (m * 16) (hex_step n m c k e) (rw e at h)
  | inr e ↦ ground arith
]

scaled-bound : (s : Text) → leb (length s) 4 ≡ true → scaled 1 s ≤ 65536
scaled-bound [] k = ground arith
scaled-bound (_ ∷ []) k = ground arith
scaled-bound (_ ∷ _ ∷ []) k = ground arith
scaled-bound (_ ∷ _ ∷ _ ∷ []) k = ground arith
scaled-bound (_ ∷ _ ∷ _ ∷ _ ∷ []) k = ground arith
scaled-bound (_ ∷ _ ∷ _ ∷ _ ∷ _ ∷ s) k = ground arith

hex_value-bound : (s : Text) → leb (length s) 4 ≡ true → all is_hex s ≡ true → hex_value 0 s < 65536
hex_value-bound s k h =
    let below = hex_value-scaled s 0 1 (omega arith) h in
    let scale = scaled-bound s k in omega (arith, below, scale)

pair-AreBytes : (v : ℕ) → v < 65536 → AreBytes (v / 256 ∷ v % 256 ∷ [])
pair-AreBytes v h = (omega arith, (omega arith, tt))

ipv4_bytes-AreBytes :
    (address : Text) {bs : List ℕ} → ipv4_bytes address ≡ some bs → AreBytes bs × (length bs ≡ 4)
unfolding ipv4_bytes
ipv4_bytes-AreBytes address {bs} h = elim (Bool-cases (length (split b'.' address) == 4)) [
  | inl e ↦
      let (bytes, count) = quad_bytes-AreBytes (split b'.' address) (rw e at h) in
      (bytes, count ∙ (==_iff (length (split b'.' address)) 4).0 e)
  | inr e ↦ ground arith
]

group_bytes-AreBytes :
    (is_last : Bool) (group : Text) {bs : List ℕ}
    → group_bytes is_last group ≡ some bs
    → AreBytes bs
unfolding group_bytes
group_bytes-AreBytes is_last group {bs} h = elim (Bool-cases (any (λ c. c == b'.') group)) [
  | inl e ↦ elim (Bool-cases is_last) [
    | inl l ↦ (ipv4_bytes-AreBytes group (rw (e, l) at h)).0
    | inr n ↦ ground arith
  ]
  | inr e ↦ elim (Bool-cases (leb 1 (length group) && (leb (length group) 4 && all is_hex group))) [
    | inl t ↦
        let bound = hex_value-bound group (ground arith) (ground arith) in
        let same : (hex_value 0 group / 256 ∷ hex_value 0 group % 256 ∷ []) ≡ bs =
          some-inj (rw (e, t) at h) in
        rw (← same) (pair-AreBytes (hex_value 0 group) bound)
    | inr n ↦ (let broken : none ≡ some bs = rw (e, n) at h in cc broken)
  ]
]

joined-eq_some :
    (o p : Option (List ℕ)) {bs : List ℕ}
    → joined o p ≡ some bs
    → (xs ys : List ℕ) × (o ≡ some xs) × (p ≡ some ys) × (xs ++ ys ≡ bs)
joined-eq_some none p h = cc
joined-eq_some (some xs) none h = cc
joined-eq_some (some xs) (some ys) h = (xs, ys, refl, refl, cc)

groups_bytes-AreBytes :
    (groups : List Text) {bs : List ℕ} → groups_bytes groups ≡ some bs → AreBytes bs
unfolding groups_bytes
groups_bytes-AreBytes [] {bs} h = let same : [] ≡ bs = ground arith in rw (← same) tt
groups_bytes-AreBytes (group ∷ groups) {bs} h =
    let (xs, ys, front, back, same) =
      joined-eq_some (group_bytes (is_empty groups) group) (groups_bytes groups) h in
    rw (← same) (
      All-append _ xs ys (group_bytes-AreBytes (is_empty groups) group front)
        (groups_bytes-AreBytes groups back))

expand-AreBytes : (part : Text) {bs : List ℕ} → expand part ≡ some bs → AreBytes bs
unfolding expand
expand-AreBytes [] {bs} h = let same : [] ≡ bs = ground arith in rw (← same) tt
expand-AreBytes (c ∷ part) h = groups_bytes-AreBytes (split b':' (c ∷ part)) h

zeroes-AreBytes : (n : ℕ) → AreBytes (zeroes n) × (length (zeroes n) ≡ n)
zeroes-AreBytes zero = (tt, refl)
zeroes-AreBytes (suc n) =
    let (bytes, count) = zeroes-AreBytes n in ((omega arith, bytes), ap suc count)

filled-length :
    (head tail : List ℕ)
    → length head + length tail ≤ 14
    → length (head ++ (zeroes (16 - (length head + length tail)) ++ tail)) ≡ 16
filled-length head tail h =
    let gap = zeroes (16 - (length head + length tail)) in
    let (_, count) = zeroes-AreBytes (16 - (length head + length tail)) in
    omega (arith, length-append head (gap ++ tail), length-append gap tail, count, h)

around-eq_some :
    (o p : Option (List ℕ)) {bs : List ℕ}
    → around o p ≡ some bs
    → (head tail : List ℕ) × (o ≡ some head)
      × (p ≡ some tail)
      × (length head + length tail ≤ 14)
      × (head ++ (zeroes (16 - (length head + length tail)) ++ tail) ≡ bs)
around-eq_some none p h = cc
around-eq_some (some head) none h = cc
around-eq_some (some head) (some tail) h = (head, tail, refl, refl, ground arith, ground arith)

whole-eq_some :
    (o : Option (List ℕ)) {bs : List ℕ} → whole o ≡ some bs → (o ≡ some bs) × (length bs ≡ 16)
whole-eq_some none h = cc
whole-eq_some (some head) h = (ground arith, ground arith)

halves_bytes-AreBytes :
    (halves : List Text) {bs : List ℕ}
    → halves_bytes halves ≡ some bs
    → AreBytes bs × (length bs ≡ 16)
unfolding halves_bytes
halves_bytes-AreBytes [] h = cc
halves_bytes-AreBytes (a ∷ []) h =
    let (read, count) = whole-eq_some (expand a) h in (expand-AreBytes a read, count)
halves_bytes-AreBytes (a ∷ b ∷ []) h =
    let (head, tail, front, back, short, same) = around-eq_some (expand a) (expand b) h in
    let (nought, count) = zeroes-AreBytes (16 - (length head + length tail)) in
    rw (← same) (
      All-append _ head _ (expand-AreBytes a front)
          (All-append _ _ tail nought (expand-AreBytes b back)),
      filled-length head tail short,
    )
halves_bytes-AreBytes (a ∷ b ∷ c ∷ rest) h = cc

-- What is read as an IPv4 address is 4 bytes, and what is read as an IPv6 address 16, each of them
-- below 256, however the texts are spelled.
pub bytes-AreBytes :
    (address wide : Text) (four sixteen : List ℕ)
    → ipv4_bytes address ≡ some four
    → ipv6_bytes wide ≡ some sixteen
    → (AreBytes four × (length four ≡ 4)) × (AreBytes sixteen × (length sixteen ≡ 16))
unfolding ipv6_bytes
bytes-AreBytes address wide four sixteen h k = (
  ipv4_bytes-AreBytes address h,
  halves_bytes-AreBytes (split_double [] (without_zone (lower wide))) k,
)
