-- ===== src/Broker/Addresses/Blocks.antt =====
-- About `isForbiddenIPv4` (egress-broker.ts) and the blocks of the IPv4 address space.
use code_jam.Prelude.{
  ltb, leb, ◌==◌, ℕ, ◌+◌, ◌-◌, ◌*◌, ◌≤◌, ◌<◌, ◌≡◌, Bool, ◌&&◌, ◌||◌, [], ◌∷◌, arith,
}
use code_jam.Broker.Addresses.{is_forbidden_ipv4}

-- The address as a number of 32 bits.
abbrev pub address_of : (a b c d : ℕ) → ℕ
address_of a b c d = ((a * 256 + b) * 256 + c) * 256 + d

-- The block of `size` addresses from `base` on.
abbrev pub in_block : ℕ → (base size : ℕ) → Bool
in_block n base size = leb base n && ltb n (base + size)

-- 0/8, 10/8, 127/8, 169.254/16, 172.16/12, 192.168/16, 100.64/10 and 224/3
abbrev pub in_forbidden_block : ℕ → Bool
in_forbidden_block n =
    in_block n 0 0x1000000
    || in_block n 0x0a000000 0x1000000
    || in_block n 0x7f000000 0x1000000
    || in_block n 0xa9fe0000 0x10000
    || in_block n 0xac100000 0x100000
    || in_block n 0xc0a80000 0x10000
    || in_block n 0x64400000 0x400000
    || in_block n 0xe0000000 0x20000000

module _ (a b c d : ℕ) (ha : a < 256) (hb : b < 256) (hc : c < 256) (hd : d < 256) where
  -- A block that a first byte names.
  in_block-byte : (v : ℕ) → in_block (address_of a b c d) (v * 0x1000000) 0x1000000 ≡ (a == v)
  in_block-byte v = ground arith

  -- A block that a first byte and a range of second bytes name.
  in_block-range :
      (v lo hi : ℕ)
      → lo ≤ hi
      → hi < 256
      → in_block (address_of a b c d) ((v * 256 + lo) * 0x10000) ((hi - lo + 1) * 0x10000)
        ≡ (a == v && (leb lo b && leb b hi))
  in_block-range v lo hi h k = ground arith

  in_block-one :
      (v u : ℕ)
      → u < 256
      → in_block (address_of a b c d) ((v * 256 + u) * 0x10000) 0x10000 ≡ (a == v && b == u)
  in_block-one v u k = ground arith

  in_block-high : in_block (address_of a b c d) 0xe0000000 0x20000000 ≡ leb 224 a
  in_block-high = ground arith

  -- The address of four bytes is forbidden exactly if it lies in one of the blocks that are private,
  -- reserved, link-local, loopback, shared or multicast.
  pub is_forbidden_ipv4-blocks :
      is_forbidden_ipv4 (a ∷ b ∷ c ∷ d ∷ []) ≡ in_forbidden_block (address_of a b c d)
  unfolding is_forbidden_ipv4
  is_forbidden_ipv4-blocks =
      rw
        (
          in_block-byte 0,
          in_block-byte 10,
          in_block-byte 127,
          in_block-one 169 254 (ground arith),
          in_block-range 172 16 31 (ground arith) (ground arith),
          in_block-one 192 168 (ground arith),
          in_block-range 100 64 127 (ground arith) (ground arith),
          in_block-high,
        )
        (ground arith)
