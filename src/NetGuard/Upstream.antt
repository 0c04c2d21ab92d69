-- ===== src/NetGuard/Upstream.antt =====
-- `validate_upstream_url` and the clients of src/net_guard.rs. The parser of URLs, the parser of
-- addresses, the resolver and the builder of clients are parameters: a function from what they are
-- given to their answer.
use yunova.Base.{
  ℕ, Bool, true, false, not, ◌&&◌, Option, none, some, List, [], ◌∷◌, any, String, ◌≡◌, ◌≢◌, refl,
  arith, inl, inr, Option-cases, ◌||◌, if◌then◌else◌,
}
use text.Mathlib.Text.{◌==◌ as str_eq}
use yunova.NetGuard.Address.{IpAddr}
use yunova.NetGuard.{is_private_ip}

-- what the code asks of a `Url`
pub record Url : Type 0 where
  pub scheme : String
  pub host_str : Option String
  pub port_or_known_default : Option ℕ

pub record SocketAddr : Type 0 where
  pub ip : IpAddr
  pub port : ℕ

-- The answers with status 400.
pub data Refusal : Type 0 where
  bad_url bad_scheme no_host no_port private_address lookup_failed no_address resolved_privately
        build_failed :
      Refusal

pub data Result (A : Type 0) : Type 0 where
  ok : A → Result A
  err : Refusal → Result A

pub record Target : Type 0 where
  pub url : Url
  pub host : String
  pub addrs : List SocketAddr

pub record Network : Type 0 where
  -- `Url::parse`
  pub parse_url : String → Option Url
  -- `str::parse::<IpAddr>`
  pub parse_ip : String → Option IpAddr
  -- `tokio::net::lookup_host`
  pub lookup_host : String → ℕ → Option (List SocketAddr)
  -- `ClientBuilder::build`
  pub builds : String → List SocketAddr → Bool

unfoldable pub check_addrs : Url → String → List SocketAddr → Result Target
check_addrs url host [] = err no_address
check_addrs url host (a ∷ addrs) =
    if any (λ (b : SocketAddr). is_private_ip b.ip) (a ∷ addrs)
    then err resolved_privately
    else ok (record { url = url; host = host; addrs = a ∷ addrs })

unfoldable pub check_literal : Url → String → ℕ → IpAddr → Result Target
check_literal url host port ip =
    if is_private_ip ip
    then err private_address
    else ok (record { url = url; host = host; addrs = record { ip = ip; port = port } ∷ [] })

module _ (net : Network) where
  check_host : Url → String → ℕ → Result Target
  check_host url host port = elim (net.parse_ip host) [
    | some ip ↦ check_literal url host port ip
    | none ↦ elim (net.lookup_host host port) [
      | none ↦ err lookup_failed
      | some addrs ↦ check_addrs url host addrs
    ]
  ]

  check_url : Url → Result Target
  unfolding check_host
  check_url url =
      if not (str_eq url.scheme "http") && not (str_eq url.scheme "https")
      then err bad_scheme
      else elim url.host_str [
        | none ↦ err no_host
        | some host ↦ elim url.port_or_known_default [
          | none ↦ err no_port
          | some port ↦ check_host url host port
        ]
      ]

  unfoldable pub validate_upstream_url : String → Result Target
  unfolding check_url
  validate_upstream_url raw = elim (net.parse_url raw) [
    | none ↦ err bad_url
    | some url ↦ check_url url
  ]

-- The shared client; one that resolves a host to these addresses; and one that resolves any host. The
-- latter two follow no redirects and have a time limit in seconds.
pub data Client : Type 0 where
  shared : Client
  guarded : String → List SocketAddr → ℕ → Client
  unguarded : ℕ → Client

module _ (net : Network) where
  unfoldable pub guarded_client_with_timeout : String → List SocketAddr → ℕ → Result Client
  guarded_client_with_timeout host addrs timeout =
      if net.builds host addrs then ok (guarded host addrs timeout) else err build_failed

  -- with 180 seconds
  unfoldable pub guarded_client : String → List SocketAddr → Result Client
  guarded_client host addrs = guarded_client_with_timeout host addrs 180

  build_for : ℕ → Result Target → Result Client
  build_for timeout (err r) = err r
  build_for timeout (ok t) = guarded_client_with_timeout t.host t.addrs timeout

  unfoldable pub client_for_upstream_with_timeout : String → Bool → ℕ → Result Client
  unfolding build_for
  client_for_upstream_with_timeout url is_channel timeout =
      if is_channel then ok shared else build_for timeout (validate_upstream_url net url)

  unfoldable pub client_for_upstream : String → Bool → Result Client
  unfolding guarded_client
  client_for_upstream url is_channel =
      if is_channel then ok shared else pinned (validate_upstream_url net url)
    where
      pinned : Result Target → Result Client
      pinned (err r) = err r
      pinned (ok t) = guarded_client t.host t.addrs

  -- `allowed` tells whether YUNOVA_ALLOW_PRIVATE_VIDEO_UPSTREAM is 1, and `built` whether the client
  -- without a guard can be built.
  unfoldable pub client_for_video_upstream : Bool → Bool → String → ℕ → Result Client
  client_for_video_upstream allowed built url timeout =
      if allowed
      then if built then ok (unguarded timeout) else err build_failed
      else client_for_upstream_with_timeout url false timeout

-- A target that was validated has `http` or `https`, one address at least, and none that is private.
pub record IsPublic (t : Target) : Type 0 where
  pub web : (str_eq t.url.scheme "http" || str_eq t.url.scheme "https") ≡ true
  pub some_address : t.addrs ≢ []
  pub no_private : any (λ (b : SocketAddr). is_private_ip b.ip) t.addrs ≡ false

check_addrs-IsPublic :
    (url : Url) (host : String) (addrs : List SocketAddr) (t : Target)
    → (str_eq url.scheme "http" || str_eq url.scheme "https") ≡ true
    → check_addrs url host addrs ≡ ok t
    → IsPublic t
unfolding check_addrs
check_addrs-IsPublic url host [] t w e = absurd (ground arith)
check_addrs-IsPublic url host (a ∷ addrs) t w e = record {
  web = ground arith;
  some_address = ground arith;
  no_private = ground arith;
}

check_literal-IsPublic :
    (url : Url) (host : String) (port : ℕ) (ip : IpAddr) (t : Target)
    → (str_eq url.scheme "http" || str_eq url.scheme "https") ≡ true
    → check_literal url host port ip ≡ ok t
    → IsPublic t
unfolding check_literal
check_literal-IsPublic url host port ip t w e = record {
  web = ground arith;
  some_address = ground arith;
  no_private = ground arith;
}

module _ (net : Network) (t : Target) where
  check_host-IsPublic :
      (url : Url) (host : String) (port : ℕ)
      → (str_eq url.scheme "http" || str_eq url.scheme "https") ≡ true
      → check_host net url host port ≡ ok t
      → IsPublic t
  unfolding check_host
  check_host-IsPublic url host port w e = elim (Option-cases (net.parse_ip host)) [
    | inr (ip, p) ↦ check_literal-IsPublic url host port ip t w (rw (p, check_host) at e)
    | inl n ↦ elim (Option-cases (net.lookup_host host port)) [
      | inl m ↦ absurd (ground arith)
      | inr (addrs, q) ↦ check_addrs-IsPublic url host addrs t w (ground (arith, n, q))
    ]
  ]

  check_url-IsPublic : (url : Url) → check_url net url ≡ ok t → IsPublic t
  unfolding check_url
  check_url-IsPublic url e = elim (Option-cases url.host_str) [
    | inl n ↦ absurd (ground arith)
    | inr (host, p) ↦ elim (Option-cases url.port_or_known_default) [
      | inl m ↦ absurd (ground arith)
      | inr (port, q) ↦ check_host-IsPublic url host port (ground arith) (ground (arith, p, q))
    ]
  ]

  -- A target that is validated has `http` or `https`, one address at least, and none that is private,
  -- whatever the parser and the resolver answer.
  pub validate_upstream_url-IsPublic :
      (raw : String) → validate_upstream_url net raw ≡ ok t → IsPublic t
  unfolding validate_upstream_url
  validate_upstream_url-IsPublic raw e = elim (Option-cases (net.parse_url raw)) [
    | inl n ↦ absurd (ground arith)
    | inr (url, p) ↦ check_url-IsPublic url (ground arith)
  ]

-- A request to the URL of a user, not of a channel, gets a client that is pinned to a host and to
-- addresses none of which is private, with a time limit of 180 seconds, and never the shared client.
pub client_for_upstream-IsPinned :
    (net : Network) (url : String) (c : Client)
    → client_for_upstream net url false ≡ ok c
    → (t : Target) × IsPublic t
      × (validate_upstream_url net url ≡ ok t)
      × (c ≡ guarded t.host t.addrs 180)
unfolding client_for_upstream guarded_client guarded_client_with_timeout
client_for_upstream-IsPinned net url c e = go (validate_upstream_url net url) refl
  where
    go :
        (r : Result Target)
        → validate_upstream_url net url ≡ r
        → (t : Target) × IsPublic t
          × (validate_upstream_url net url ≡ ok t)
          × (c ≡ guarded t.host t.addrs 180)
    go (err r) p = absurd (ground arith)
    go (ok t) p = (t, validate_upstream_url-IsPublic net t url p, p, ground arith)
