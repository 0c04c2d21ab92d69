-- ===== src/NetGuard.antt =====
-- src/net_guard.rs: which addresses a URL of a user may reach.
pub mod Address
pub mod Blocks
pub mod Upstream
use yunova.Base.{
  ℕ, ◌*◌, ◌/◌, ◌^◌, Bool, true, false, ◌&&◌, ◌||◌, Option, none, some, ◌==◌, leb, if◌then◌else◌,
}
use yunova.NetGuard.Address.{
  Ipv4Addr, Ipv6Addr, IpAddr, v4, v6, is_loopback, is_unspecified, is_broadcast, is_multicast,
  is_private, is_link_local, is_documentation, is_small, to_ipv4_mapped,
}

-- `n & m` for a mask `m` that clears the low `k` bits
abbrev pub clear_low : ℕ → ℕ → ℕ
clear_low k n = n / 2 ^ k * 2 ^ k

unfoldable pub is_private_ipv4 : Ipv4Addr → Bool
is_private_ipv4 v =
    if is_loopback v || is_unspecified v || is_broadcast v || is_multicast v
    then true
    else if is_private v || is_link_local v || is_documentation v
    then true
    else if v.o0 == 0
    then true
    else if v.o0 == 100 && clear_low 6 v.o1 == 64
    then true
    else if v.o0 == 192 && v.o1 == 0 && v.o2 == 0
    then true
    else leb 240 v.o0

private_if_mapped : Option Ipv4Addr → Bool
private_if_mapped none = false
private_if_mapped (some v) = is_private_ipv4 v

unfoldable pub is_private_ipv6 : Ipv6Addr → Bool
unfolding private_if_mapped
is_private_ipv6 v =
    if is_small v && v.s6 == 0 && v.s7 == 1
      || is_small v && v.s6 == 0 && v.s7 == 0
      || clear_low 8 v.s0 == 0xff00
    then true
    else if clear_low 9 v.s0 == 0xfc00
    then true
    else if clear_low 6 v.s0 == 0xfe80
    then true
    else if clear_low 6 v.s0 == 0xfec0
    then true
    else private_if_mapped (to_ipv4_mapped v)

abbrev pub is_fake_octets : Ipv4Addr → Bool
is_fake_octets v = v.o0 == 198 && (v.o1 == 18 || v.o1 == 19)

fake_if_mapped : Option Ipv4Addr → Bool
fake_if_mapped none = false
fake_if_mapped (some v) = is_fake_octets v

unfoldable pub is_dns_fake_ip : IpAddr → Bool
unfolding fake_if_mapped
is_dns_fake_ip (v4 v) = is_fake_octets v
is_dns_fake_ip (v6 v) = fake_if_mapped (to_ipv4_mapped v)

unfoldable pub is_private_ip : IpAddr → Bool
is_private_ip (v4 v) = if is_dns_fake_ip (v4 v) then false else is_private_ipv4 v
is_private_ip (v6 v) = if is_dns_fake_ip (v6 v) then false else is_private_ipv6 v
