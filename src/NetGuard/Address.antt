-- ===== src/NetGuard/Address.antt =====
-- The addresses of the standard library, and its tests on them that src/net_guard.rs calls.
use yunova.Base.{ℕ, ◌/◌, ◌%◌, Bool, ◌&&◌, ◌||◌, Option, none, some, ◌==◌, leb, if◌then◌else◌}

-- `Ipv4Addr`, by its octets
pub record Ipv4Addr : Type 0 where
  pub o0 : ℕ
  pub o1 : ℕ
  pub o2 : ℕ
  pub o3 : ℕ

-- `Ipv6Addr`, by its segments of 16 bits
pub record Ipv6Addr : Type 0 where
  pub s0 : ℕ
  pub s1 : ℕ
  pub s2 : ℕ
  pub s3 : ℕ
  pub s4 : ℕ
  pub s5 : ℕ
  pub s6 : ℕ
  pub s7 : ℕ

pub data IpAddr : Type 0 where
  v4 : Ipv4Addr → IpAddr
  v6 : Ipv6Addr → IpAddr

-- The tests of the standard library on an `Ipv4Addr`.
abbrev pub is_loopback : Ipv4Addr → Bool
is_loopback v = v.o0 == 127

abbrev pub is_unspecified : Ipv4Addr → Bool
is_unspecified v = v.o0 == 0 && v.o1 == 0 && v.o2 == 0 && v.o3 == 0

abbrev pub is_broadcast : Ipv4Addr → Bool
is_broadcast v = v.o0 == 255 && v.o1 == 255 && v.o2 == 255 && v.o3 == 255

abbrev pub is_multicast : Ipv4Addr → Bool
is_multicast v = leb 224 v.o0 && leb v.o0 239

abbrev pub is_private : Ipv4Addr → Bool
is_private v = v.o0 == 10 || v.o0 == 172 && leb 16 v.o1 && leb v.o1 31 || v.o0 == 192 && v.o1 == 168

abbrev pub is_link_local : Ipv4Addr → Bool
is_link_local v = v.o0 == 169 && v.o1 == 254

abbrev pub is_documentation : Ipv4Addr → Bool
is_documentation v =
    v.o0 == 192 && v.o1 == 0 && v.o2 == 2
    || v.o0 == 198 && v.o1 == 51 && v.o2 == 100
    || v.o0 == 203 && v.o1 == 0 && v.o2 == 113

-- the first six segments are zero
abbrev pub is_small : Ipv6Addr → Bool
is_small v = v.s0 == 0 && v.s1 == 0 && v.s2 == 0 && v.s3 == 0 && v.s4 == 0 && v.s5 == 0

-- `to_ipv4_mapped`: `::ffff:a.b.c.d`
unfoldable pub to_ipv4_mapped : Ipv6Addr → Option Ipv4Addr
to_ipv4_mapped v =
    if v.s0 == 0 && v.s1 == 0 && v.s2 == 0 && v.s3 == 0 && v.s4 == 0 && v.s5 == 0xffff
    then some (record { o0 = v.s6 / 256; o1 = v.s6 % 256; o2 = v.s7 / 256; o3 = v.s7 % 256 })
    else none
