-- ===== src/Server/Mirror.antt =====
-- src/server/mod.rs: is_blocked_mirror_ip and fetch_mirror_blob. The network and the parsing of URLs are
-- the record `Network`; the addresses that a fetch connects to are written down in order.
pub mod Fetch
mod Tests
use blossom_rs.Prelude.{
  ℕ, zero, suc, ◌+◌, ◌-◌, ◌*◌, ◌/◌, ◌%◌, ◌^◌, min, Bool, true, false, ◌==◌, ◌&&◌, ◌||◌, not,
  nat_key, list_key, Option, none, some, List, [], ◌∷◌, ◌++◌, length, ltb, leb, if◌then◌else◌, Text,
  bytes_of,
}

-- The bytes of an IPv4 address, and the segments of an IPv6 address.
pub data IpAddr : Type 0 where
  v4 : ℕ → ℕ → ℕ → ℕ → IpAddr
  v6 : ℕ → ℕ → ℕ → ℕ → ℕ → ℕ → ℕ → ℕ → IpAddr

unfoldable pub is_blocked_v4 : ℕ → ℕ → ℕ → Bool
is_blocked_v4 a b c =
    a == 0
    || a == 10
    || a == 127
    || leb 224 a
    || (a == 100 && leb 64 b && leb b 127)
    || (a == 169 && b == 254)
    || (a == 172 && leb 16 b && leb b 31)
    || (a == 192 && b == 168)
    || (a == 192 && b == 0)
    || (a == 192 && b == 88 && c == 99)
    || (a == 198 && leb 18 b && leb b 19)
    || (a == 198 && b == 51 && c == 100)
    || (a == 203 && b == 0 && c == 113)

-- `first & 0xfe00` and `first & 0xffc0`, and the test of the first byte by `is_multicast`.
abbrev high_bits : ℕ → ℕ → ℕ
high_bits first low = first / 2 ^ low * 2 ^ low

-- `to_ipv4` gives an address for ::a.b.c.d and ::ffff:a.b.c.d. The loopback and the unspecified address
-- are of the first form.
unfoldable pub is_blocked_mirror_ip : IpAddr → Bool
unfolding is_blocked_v4
is_blocked_mirror_ip (v4 a b c d) = is_blocked_v4 a b c
is_blocked_mirror_ip (v6 s₀ s₁ s₂ s₃ s₄ s₅ s₆ s₇) =
    if s₀ == 0 && s₁ == 0 && s₂ == 0 && s₃ == 0 && s₄ == 0 && (s₅ == 0 || s₅ == 65535)
    then is_blocked_v4 (s₆ / 256) (s₆ % 256) (s₇ / 256)
    else high_bits s₀ 8 == 65280
      || high_bits s₀ 9 == 64512
      || high_bits s₀ 6 == 65152
      || high_bits s₀ 6 == 65216
      || (s₀ == 8193 && s₁ == 3512)

-- A response: a body comes in chunks, of which one can fail. `send` is `none` also where no client can
-- be made.
pub record Response : Type 0 where
  pub is_redirection : Bool
  pub location : Option Text
  pub is_success : Bool
  pub content_length : Option ℕ
  pub chunks : List (Option Text)

pub record Network : Type 1 where
  pub Url : Type 0
  pub parse : Text → Option Url
  pub scheme : Url → Text
  pub username : Url → Text
  pub password : Url → Option Text
  pub host_str : Url → Option Text
  pub port_or_known_default : Url → Option ℕ
  pub join : Url → Text → Option Url
  pub lookup_host : Text → ℕ → Option (List IpAddr)
  pub send : Url → IpAddr → Option Response

pub data FetchError : Type 0 where
  invalid_url : FetchError
  wrong_scheme : FetchError
  has_credentials : FetchError
  no_host : FetchError
  no_port : FetchError
  lookup_failed : FetchError
  blocked_network : FetchError
  send_failed : FetchError
  no_location : FetchError
  invalid_redirect : FetchError
  bad_status : FetchError
  too_large : FetchError
  read_failed : FetchError
  too_many_redirects : FetchError

pub data Fetched : Type 0 where
  body : Text → Fetched
  failed : FetchError → Fetched

-- The loop over the chunks; the sum of the lengths saturates.
unfoldable pub read_chunks : ℕ → Text → List (Option Text) → Fetched
read_chunks max_bytes data_read [] = body data_read
read_chunks max_bytes data_read (none ∷ chunks) = failed read_failed
read_chunks max_bytes data_read (some chunk ∷ chunks) =
    let rest = read_chunks max_bytes (data_read ++ chunk) chunks in
    if ltb max_bytes (min (length data_read + length chunk) (2 ^ 64 - 1))
    then failed too_large
    else rest

abbrev pub exceeds : Option ℕ → ℕ → Bool
exceeds none max_bytes = false
exceeds (some n) max_bytes = ltb max_bytes n

abbrev pub is_some : {A : Type 0} → Option A → Bool
is_some none = false
is_some (some a) = true

abbrev pub any_blocked : List IpAddr → Bool
any_blocked [] = false
any_blocked (ip ∷ ips) = is_blocked_mirror_ip ip || any_blocked ips

-- The address to connect to, if every address is fit.
unfoldable pub fit_address : List IpAddr → Option IpAddr
unfolding is_blocked_mirror_ip
fit_address [] = none
fit_address (ip ∷ ips) = if any_blocked (ip ∷ ips) then none else some ip

module _ (net : Network) where
  -- What a round does: it ends, or goes on at another URL; the address it connected to, if it did.
  pub data Round : Type 0 where
    ends : Fetched → Round
    follows : net.Url → Round

  abbrev pub redirected : net.Url → Option Text → Round
  redirected url none = ends (failed no_location)
  redirected url (some location) = elim (net.join url location) [
    | none ↦ ends (failed invalid_redirect)
    | some next ↦ follows next
  ]

  abbrev pub received : net.Url → ℕ → Option Response → Round
  received url max_bytes none = ends (failed send_failed)
  received url max_bytes (some r) =
      if r.is_redirection
      then redirected url r.location
      else if not r.is_success
      then ends (failed bad_status)
      else if exceeds r.content_length max_bytes
      then ends (failed too_large)
      else ends (read_chunks max_bytes [] r.chunks)

  abbrev pub connected : net.Url → ℕ → Option IpAddr → List IpAddr × Round
  connected url max_bytes none = ([], ends (failed blocked_network))
  connected url max_bytes (some ip) = (ip ∷ [], received url max_bytes (net.send url ip))

  abbrev pub resolved : net.Url → ℕ → Option (List IpAddr) → List IpAddr × Round
  resolved url max_bytes none = ([], ends (failed lookup_failed))
  resolved url max_bytes (some ips) = connected url max_bytes (fit_address ips)

  abbrev pub at_port : net.Url → ℕ → Text → Option ℕ → List IpAddr × Round
  at_port url max_bytes host none = ([], ends (failed no_port))
  at_port url max_bytes host (some port) = resolved url max_bytes (net.lookup_host host port)

  abbrev pub at_host : net.Url → ℕ → Option Text → List IpAddr × Round
  at_host url max_bytes none = ([], ends (failed no_host))
  at_host url max_bytes (some host) = at_port url max_bytes host (net.port_or_known_default url)

  -- One round of the loop over the redirects.
  unfoldable pub fetch_round : net.Url → ℕ → List IpAddr × Round
  unfolding fit_address read_chunks
  fetch_round url max_bytes =
      if not (net.scheme url == bytes_of "http" || net.scheme url == bytes_of "https")
      then ([], ends (failed wrong_scheme))
      else if not (net.username url == []) || is_some (net.password url)
      then ([], ends (failed has_credentials))
      else at_host url max_bytes (net.host_str url)

  unfoldable pub fetch_rounds : ℕ → net.Url → ℕ → List IpAddr × Fetched
  unfolding fetch_round
  fetch_rounds zero url max_bytes = ([], failed too_many_redirects)
  fetch_rounds (suc rounds) url max_bytes =
      let (ips, round) = fetch_round url max_bytes in
      elim round [
        | ends result ↦ (ips, result)
        | follows next ↦
            let (more, result) = fetch_rounds rounds next max_bytes in (ips ++ more, result)
      ]

  -- The addresses that were connected to, and the result.
  unfoldable pub fetch_mirror_blob : Text → ℕ → List IpAddr × Fetched
  unfolding fetch_rounds
  fetch_mirror_blob source max_bytes = elim (net.parse source) [
    | none ↦ ([], failed invalid_url)
    | some url ↦ fetch_rounds 4 url max_bytes
  ]
