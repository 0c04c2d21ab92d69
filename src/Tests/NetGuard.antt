-- ===== src/Tests/NetGuard.antt =====
-- Examples of addresses and upstreams.
use yunova.Base.{◌≡◌, refl, true, false, none, some, [], ◌∷◌, any, arith}
use yunova.NetGuard.Address.{Ipv4Addr, v4}
use yunova.NetGuard.{is_private_ipv4, is_private_ip, is_dns_fake_ip}
use yunova.NetGuard.Blocks.{contains, reserved, is_private_ipv4_blocks}
use yunova.NetGuard.Upstream.{
  Url, SocketAddr, Target, Network, ok, guarded, IsPublic, validate_upstream_url, check_addrs,
  client_for_upstream, guarded_client, guarded_client_with_timeout, validate_upstream_url-IsPublic,
  client_for_upstream-IsPinned,
}

-- 192.168.1.7
abbrev printer : Ipv4Addr
printer = record { o0 = 192; o1 = 168; o2 = 1; o3 = 7 }

is_private_ipv4_blocks_example : is_private_ipv4 printer ≡ any (contains printer) reserved
is_private_ipv4_blocks_example =
    is_private_ipv4_blocks printer
      (record { o0 = omega arith; o1 = omega arith; o2 = omega arith; o3 = omega arith })

-- 93.184.216.34, port 443
abbrev site : SocketAddr
site = record { ip = v4 (record { o0 = 93; o1 = 184; o2 = 216; o3 = 34 }); port = 443 }

abbrev url : Url
url = record { scheme = "https"; host_str = some "example.org"; port_or_known_default = some 443 }

abbrev net : Network
net = record {
  parse_url = λ raw. some url;
  parse_ip = λ host. none;
  lookup_host = λ host port. some (site ∷ []);
  builds = λ host addrs. true;
}

abbrev target : Target
target = record { url = url; host = "example.org"; addrs = site ∷ [] }

target_validated : validate_upstream_url net "https://example.org/" ≡ ok target
unfolding validate_upstream_url check_addrs is_private_ip is_dns_fake_ip is_private_ipv4
target_validated = refl

validate_upstream_url-IsPublic_example : IsPublic target
validate_upstream_url-IsPublic_example =
    validate_upstream_url-IsPublic net target "https://example.org/" target_validated

client_built :
    client_for_upstream net "https://example.org/" false
    ≡ ok (guarded "example.org" (site ∷ []) 180)
unfolding client_for_upstream guarded_client guarded_client_with_timeout validate_upstream_url
    check_addrs is_private_ip is_dns_fake_ip is_private_ipv4
client_built = refl

client_for_upstream-IsPinned_example :
    (t : Target) × IsPublic t
    × (validate_upstream_url net "https://example.org/" ≡ ok t)
    × (guarded "example.org" (site ∷ []) 180 ≡ guarded t.host t.addrs 180)
client_for_upstream-IsPinned_example =
    client_for_upstream-IsPinned net "https://example.org/" (guarded "example.org" (site ∷ []) 180)
      client_built
