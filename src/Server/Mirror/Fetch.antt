-- ===== src/Server/Mirror/Fetch.antt =====
-- Where a mirror fetch connects to, and how much it takes.
use blossom_rs.Prelude.{
  ℕ, zero, suc, ◌+◌, ◌-◌, ◌^◌, min, ◌≡◌, ◌≤◌, ◌<◌, refl, sym, ap, ◌∙◌, false, arith, List, [], ◌∷◌,
  ◌++◌, Option, none, some, length, length-append, Text, Bool-cases, Option-cases, inl, inr, ltb,
  ◌||◌, not, ◌==◌, list_key, nat_key, bytes_of,
}
use blossom_rs.Server.Mirror.{
  IpAddr, is_blocked_mirror_ip, Network, Response, Fetched, body, failed, read_chunks, fit_address,
  Round, ends, follows, redirected, received, connected, at_host, fetch_round, fetch_rounds,
  fetch_mirror_blob, exceeds, any_blocked, is_some,
}

-- None of the addresses is blocked.
abbrev pub AllFit : List IpAddr → Type 0
AllFit [] = Unit
AllFit (ip ∷ ips) = (is_blocked_mirror_ip ip ≡ false) × AllFit ips

-- A body is no longer than the limit.
abbrev pub Fits : ℕ → Fetched → Type 0
Fits max_bytes (body data_read) = length data_read ≤ max_bytes
Fits max_bytes (failed e) = Unit

AllFit-append : (xs ys : List IpAddr) → AllFit xs → AllFit ys → AllFit (xs ++ ys)
AllFit-append [] ys h k = k
AllFit-append (x ∷ xs) ys h k = (h.0, AllFit-append xs ys h.1 k)

read_chunks-Fits :
    (max_bytes : ℕ) (data_read : Text) (chunks : List (Option Text))
    → max_bytes < 2 ^ 64 - 1
    → length data_read ≤ max_bytes
    → Fits max_bytes (read_chunks max_bytes data_read chunks)
unfolding read_chunks
read_chunks-Fits max_bytes data_read [] m h = h
read_chunks-Fits max_bytes data_read (none ∷ chunks) m h = tt
read_chunks-Fits max_bytes data_read (some chunk ∷ chunks) m h =
    elim (Bool-cases (ltb max_bytes (min (length data_read + length chunk) (2 ^ 64 - 1)))) [
      | inl e ↦ rw e tt
      | inr e ↦
          let fits : length (data_read ++ chunk) ≤ max_bytes =
            ground (arith, m, e, length-append data_read chunk) in
          rw e (read_chunks-Fits max_bytes (data_read ++ chunk) chunks m fits)
    ]

fit_address-fit :
    (ips : List IpAddr) (ip : IpAddr) → fit_address ips ≡ some ip → is_blocked_mirror_ip ip ≡ false
unfolding fit_address
fit_address-fit [] ip h = absurd (ground (arith, h))
fit_address-fit (x ∷ ips) ip h = elim (Bool-cases (is_blocked_mirror_ip x)) [
  | inl e ↦ absurd (ground (arith, h, e))
  | inr e ↦ elim (Bool-cases (any_blocked ips)) [
    | inl f ↦ absurd (ground (arith, h, e, f))
    | inr f ↦
        let same : some x ≡ some ip = ground (arith, h, e, f) in
        ap is_blocked_mirror_ip (sym (ap (λ o. elim o [ none ↦ x | some y ↦ y ]) same)) ∙ e
  ]
]

module _ (net : Network) where
  -- A round that ends has a body within the limit, and connected to fit addresses, one at most.
  abbrev RoundFits : ℕ → Round net → Type 0
  RoundFits max_bytes (ends result) = Fits max_bytes result
  RoundFits max_bytes (follows url) = Unit

  abbrev RoundSafe : ℕ → List IpAddr × Round net → Type 0
  RoundSafe max_bytes r = AllFit r.0 × (length r.0 ≤ 1) × RoundFits max_bytes r.1

  redirected-fits :
      (url : net.Url) (max_bytes : ℕ) (location : Option Text)
      → RoundFits max_bytes (redirected net url location)
  redirected-fits url max_bytes none = tt
  redirected-fits url max_bytes (some l) = elim (Option-cases (net.join url l)) [
    | inl e ↦ rw (e, RoundFits) tt
    | inr (next, e) ↦ rw (e, RoundFits) tt
  ]

  received-fits :
      (url : net.Url) (max_bytes : ℕ) (r : Option Response)
      → max_bytes < 2 ^ 64 - 1
      → RoundFits max_bytes (received net url max_bytes r)
  received-fits url max_bytes none m = tt
  received-fits url max_bytes (some r) m = elim (Bool-cases r.is_redirection) [
    | inl e ↦ rw e (redirected-fits url max_bytes r.location)
    | inr e ↦ elim (Bool-cases (not r.is_success)) [
      | inl f ↦ rw (e, f) tt
      | inr f ↦ elim (Bool-cases (exceeds r.content_length max_bytes)) [
        | inl g ↦ rw (e, f, g) tt
        | inr g ↦ rw (e, f, g) (read_chunks-Fits max_bytes [] r.chunks m (omega arith))
      ]
    ]
  ]

  connected-safe :
      (url : net.Url) (max_bytes : ℕ) (ips : List IpAddr) (found : Option IpAddr)
      → max_bytes < 2 ^ 64 - 1
      → fit_address ips ≡ found
      → RoundSafe max_bytes (connected net url max_bytes found)
  connected-safe url max_bytes ips none m e = (tt, ground arith, tt)
  connected-safe url max_bytes ips (some ip) m e = (
    (fit_address-fit ips ip e, tt),
    ground arith,
    received-fits url max_bytes (net.send url ip) m,
  )

  at_host-safe :
      (url : net.Url) (max_bytes : ℕ) (host : Option Text)
      → max_bytes < 2 ^ 64 - 1
      → RoundSafe max_bytes (at_host net url max_bytes host)
  at_host-safe url max_bytes none m = (tt, ground arith, tt)
  at_host-safe url max_bytes (some host) m = elim (Option-cases (net.port_or_known_default url)) [
    | inl e ↦ rw e (tt, ground arith, tt)
    | inr (port, e) ↦ elim (Option-cases (net.lookup_host host port)) [
      | inl f ↦ rw (e, f) (tt, ground arith, tt)
      | inr (ips, f) ↦ rw (e, f) (connected-safe url max_bytes ips (fit_address ips) m refl)
    ]
  ]

  fetch_round-safe :
      (url : net.Url) (max_bytes : ℕ)
      → max_bytes < 2 ^ 64 - 1
      → RoundSafe max_bytes (fetch_round net url max_bytes)
  unfolding fetch_round
  fetch_round-safe url max_bytes m =
      elim (Bool-cases
        (not (net.scheme url == bytes_of "http" || net.scheme url == bytes_of "https"))) [
          | inl e ↦ rw e (tt, ground arith, tt)
          | inr e ↦ elim (Bool-cases (not (net.username url == []) || is_some (net.password url))) [
            | inl f ↦ rw (e, f) (tt, ground arith, tt)
            | inr f ↦ rw (e, f) (at_host-safe url max_bytes (net.host_str url) m)
          ]
        ]

  -- What a round leads to, with so many rounds left.
  abbrev after : ℕ → ℕ → List IpAddr × Round net → List IpAddr × Fetched
  after rounds max_bytes (ips, ends result) = (ips, result)
  after rounds max_bytes (ips, follows next) = (
    ips ++ (fetch_rounds net rounds next max_bytes).0,
    (fetch_rounds net rounds next max_bytes).1,
  )

  -- What holds of a fetch of so many rounds.
  abbrev pub FetchSafe : ℕ → ℕ → List IpAddr × Fetched → Type 0
  FetchSafe rounds max_bytes r = AllFit r.0 × (length r.0 ≤ rounds) × Fits max_bytes r.1

  after-safe :
      (rounds max_bytes : ℕ) (r : List IpAddr × Round net)
      → ((next : net.Url) → FetchSafe rounds max_bytes (fetch_rounds net rounds next max_bytes))
      → RoundSafe max_bytes r
      → FetchSafe (suc rounds) max_bytes (after rounds max_bytes r)
  after-safe rounds max_bytes (ips, ends result) rest (fit, few, fits) =
      (fit, ground (arith, few), fits)
  after-safe rounds max_bytes (ips, follows next) rest (fit, few, fits) =
      let (fit', few', fits') = rest next in
      let more = (fetch_rounds net rounds next max_bytes).0 in
      (AllFit-append ips more fit fit', ground (arith, few, few', length-append ips more), fits')

  fetch_rounds-safe :
      (rounds : ℕ) (url : net.Url) (max_bytes : ℕ)
      → max_bytes < 2 ^ 64 - 1
      → FetchSafe rounds max_bytes (fetch_rounds net rounds url max_bytes)
  unfolding fetch_rounds
  fetch_rounds-safe zero url max_bytes m = (tt, ground arith, tt)
  fetch_rounds-safe (suc rounds) url max_bytes m =
      after-safe rounds max_bytes (fetch_round net url max_bytes)
        (λ next. fetch_rounds-safe rounds next max_bytes m) (fetch_round-safe url max_bytes m)

  -- A mirror fetch connects to no blocked address, through any redirects, and to four addresses at most;
  -- what it gives is no longer than the limit, where the limit is below the largest u64.
  pub fetch_mirror_blob-safe :
      (source : Text) (max_bytes : ℕ)
      → max_bytes < 2 ^ 64 - 1
      → FetchSafe 4 max_bytes (fetch_mirror_blob net source max_bytes)
  unfolding fetch_mirror_blob
  fetch_mirror_blob-safe source max_bytes m = elim (Option-cases (net.parse source)) [
    | inl e ↦ rw (e, fetch_mirror_blob) (tt, ground arith, tt)
    | inr (url, e) ↦ rw (e, fetch_mirror_blob) (fetch_rounds-safe 4 url max_bytes m)
  ]
