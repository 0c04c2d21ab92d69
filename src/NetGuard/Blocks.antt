-- ===== src/NetGuard/Blocks.antt =====
-- The tests on octets against blocks of addresses in CIDR notation.
use yunova.Base.{
  ℕ, ◌+◌, ◌-◌, ◌*◌, ◌/◌, ◌^◌, ◌<◌, ◌≡◌, Bool, true, false, ◌&&◌, ◌||◌, List, [], ◌∷◌, any, ◌==◌,
  arith, if◌then◌else◌, leb,
}
use yunova.NetGuard.Address.{
  Ipv4Addr, is_loopback, is_unspecified, is_broadcast, is_link_local, is_multicast,
}
use yunova.NetGuard.{is_private_ipv4, clear_low}

-- `base / length`
pub record Block : Type 0 where
  pub base : Ipv4Addr
  pub length : ℕ

-- The number of an address.
abbrev pub number : Ipv4Addr → ℕ
number v = v.o0 * 2 ^ 24 + v.o1 * 2 ^ 16 + v.o2 * 2 ^ 8 + v.o3

abbrev pub contains : Ipv4Addr → Block → Bool
contains v b = number v / 2 ^ (32 - b.length) == number b.base / 2 ^ (32 - b.length)

abbrev block : ℕ → ℕ → ℕ → ℕ → Block
block a b c n = record { base = record { o0 = a; o1 = b; o2 = c; o3 = 0 }; length = n }

-- What is not on the public Internet.
abbrev pub reserved : List Block
reserved =
    block 0 0 0 8
    ∷ block 10 0 0 8
    ∷ block 100 64 0 10
    ∷ block 127 0 0 8
    ∷ block 169 254 0 16
    ∷ block 172 16 0 12
    ∷ block 192 0 0 24
    ∷ block 192 0 2 24
    ∷ block 192 168 0 16
    ∷ block 198 51 100 24
    ∷ block 203 0 113 24
    ∷ block 224 0 0 4
    ∷ block 240 0 0 4
    ∷ []

-- Octets are below 256.
pub record IsOctets (v : Ipv4Addr) : Type 0 where
  pub o0 : v.o0 < 256
  pub o1 : v.o1 < 256
  pub o2 : v.o2 < 256
  pub o3 : v.o3 < 256

module _ (v : Ipv4Addr) (h : IsOctets v) where
  top8 : number v / 2 ^ 24 ≡ v.o0
  top8 = omega (arith, h)

  top16 : number v / 2 ^ 16 ≡ v.o0 * 256 + v.o1
  top16 = omega (arith, h)

  top24 : number v / 2 ^ 8 ≡ v.o0 * 65536 + v.o1 * 256 + v.o2
  top24 = omega (arith, h)

  top10 : number v / 2 ^ 22 ≡ v.o0 * 4 + v.o1 / 64
  top10 = omega (arith, h)

  top12 : number v / 2 ^ 20 ≡ v.o0 * 16 + v.o1 / 16
  top12 = omega (arith, h)

  top4 : number v / 2 ^ 28 ≡ v.o0 / 16
  top4 = omega (arith, h)

  in_0_8 : contains v (block 0 0 0 8) ≡ (v.o0 == 0)
  in_0_8 = rw (top8) (ground arith)

  in_10_8 : contains v (block 10 0 0 8) ≡ (v.o0 == 10)
  in_10_8 = rw (top8) (ground arith)

  in_127_8 : contains v (block 127 0 0 8) ≡ is_loopback v
  in_127_8 = rw (top8) (ground arith)

  in_100_64_10 : contains v (block 100 64 0 10) ≡ (v.o0 == 100 && clear_low 6 v.o1 == 64)
  in_100_64_10 = rw (top10) (ground (arith, h))

  in_169_254_16 : contains v (block 169 254 0 16) ≡ is_link_local v
  in_169_254_16 = rw (top16) (ground (arith, h))

  in_172_16_12 : contains v (block 172 16 0 12) ≡ (v.o0 == 172 && leb 16 v.o1 && leb v.o1 31)
  in_172_16_12 = rw (top12) (ground (arith, h))

  in_192_0_0_24 : contains v (block 192 0 0 24) ≡ (v.o0 == 192 && v.o1 == 0 && v.o2 == 0)
  in_192_0_0_24 = rw (top24) (ground (arith, h))

  in_192_0_2_24 : contains v (block 192 0 2 24) ≡ (v.o0 == 192 && v.o1 == 0 && v.o2 == 2)
  in_192_0_2_24 = rw (top24) (ground (arith, h))

  in_192_168_16 : contains v (block 192 168 0 16) ≡ (v.o0 == 192 && v.o1 == 168)
  in_192_168_16 = rw (top16) (ground (arith, h))

  in_198_51_100_24 : contains v (block 198 51 100 24) ≡ (v.o0 == 198 && v.o1 == 51 && v.o2 == 100)
  in_198_51_100_24 = rw (top24) (ground (arith, h))

  in_203_0_113_24 : contains v (block 203 0 113 24) ≡ (v.o0 == 203 && v.o1 == 0 && v.o2 == 113)
  in_203_0_113_24 = rw (top24) (ground (arith, h))

  in_224_4 : contains v (block 224 0 0 4) ≡ is_multicast v
  in_224_4 = rw (top4) (ground (arith, h))

  in_240_4 : contains v (block 240 0 0 4) ≡ leb 240 v.o0
  in_240_4 = rw (top4) (ground (arith, h))

-- The order of the tests does not matter; the addresses 0.0.0.0 and 255.255.255.255 lie in blocks.
regrouped :
    (lo un br mu p10 p172 p192 ll d1 d2 d3 z cg ietf top : Bool)
    → un ≡ (un && z)
    → br ≡ (br && top)
    → (if lo || un || br || mu
        then true
        else if (p10 || p172 || p192) || ll || (d1 || d2 || d3)
        then true
        else if z
        then true
        else if cg
        then true
        else if ietf
        then true
        else top)
      ≡ (z
          || (p10
              || (cg
                  || (lo
                      || (ll
                          || (p172
                              || (ietf
                                  || (d1 || (p192 || (d2 || (d3 || (mu || (top || false)))))))))))))
regrouped lo un br mu p10 p172 p192 ll d1 d2 d3 z cg ietf top u b = ground arith

-- An IPv4 address is private exactly if it lies in one of the reserved blocks, its octets being
-- below 256.
pub is_private_ipv4_blocks :
    (v : Ipv4Addr) → IsOctets v → is_private_ipv4 v ≡ any (contains v) reserved
unfolding is_private_ipv4
is_private_ipv4_blocks v h =
    rw
      (
        in_0_8 v h,
        in_10_8 v h,
        in_100_64_10 v h,
        in_127_8 v h,
        in_169_254_16 v h,
        in_172_16_12 v h,
        in_192_0_0_24 v h,
        in_192_0_2_24 v h,
        in_192_168_16 v h,
        in_198_51_100_24 v h,
        in_203_0_113_24 v h,
        in_224_4 v h,
        in_240_4 v h,
      )
      (regrouped (is_loopback v) (is_unspecified v) (is_broadcast v) (is_multicast v) (v.o0 == 10)
        (v.o0 == 172 && leb 16 v.o1 && leb v.o1 31) (v.o0 == 192 && v.o1 == 168) (is_link_local v)
        (v.o0 == 192 && v.o1 == 0 && v.o2 == 2) (v.o0 == 198 && v.o1 == 51 && v.o2 == 100)
        (v.o0 == 203 && v.o1 == 0 && v.o2 == 113) (v.o0 == 0)
        (v.o0 == 100 && clear_low 6 v.o1 == 64) (v.o0 == 192 && v.o1 == 0 && v.o2 == 0)
        (leb 240 v.o0) (ground arith) (ground arith))
