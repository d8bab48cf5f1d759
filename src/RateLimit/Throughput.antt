-- ===== src/RateLimit/Throughput.antt =====
-- How many requests of one key pass over a stretch of time.
use native.Mathlib.Decide.{dec_le}
use blossom_rs.Prelude.{
  ℕ, ◌+◌, ◌-◌, ◌*◌, ◌≤◌, ◌<◌, ◌≡◌, ap, Text, list_key, nat_key, Option, none, some, List, [], ◌∷◌,
  arith, inl, inr, Bool, true, false, Bool-cases, ◌==◌, if◌then◌else◌, list_same_iff, length,
}
use blossom_rs.HashMap.{get, len, get-insert, get-insert_self, len-insert}
use blossom_rs.RateLimit.{
  RateLimiter, RateLimitConfig, Bucket, refill, consume, bucket_for, admit, check, max_tracked_keys,
}

-- A request: the key and the two readings of the clock.
pub record Request : Type 0 where
  pub key : Text
  pub now_ms : ℕ
  pub cleanup_ms : ℕ

-- Every request was made between the two times.
abbrev pub During : ℕ → ℕ → List Request → Type 0
During start end [] = Unit
During start end (r ∷ rs) = (start ≤ r.now_ms) × (r.now_ms ≤ end) × During start end rs

abbrev passed : Bool → ℕ
passed true = 1
passed false = 0

module _ {F : Type 0} (tokens_for : ℕ → F → ℕ) where
  -- The limiter after the requests, and how many of them that carry `key` it let through.
  unfoldable pub serve : RateLimiter F → Text → List Request → RateLimiter F × ℕ
  serve l key [] = (l, 0)
  serve l key (r ∷ rs) =
      let (l', allowed) = check tokens_for l r.key r.now_ms r.cleanup_ms in
      let (l'', n) = serve l' key rs in (l'', (if r.key == key then passed allowed + n else n))

span_split :
    (last now end rate : ℕ)
    → last ≤ now
    → now ≤ end
    → (end - last) * rate ≡ (end - now) * rate + (now - last) * rate
span_split last now end rate h k =
    let parts : end - last ≡ (end - now) + (now - last) = omega arith in
    rw parts (mul_distrib (end - now) (now - last) rate)
  where
    mul_distrib : (x y z : ℕ) → (x + y) * z ≡ x * z + y * z
    mul_distrib x y z = omega arith

module _ {F : Type 0} (tokens_for : ℕ → F → ℕ) (c : RateLimitConfig F) (rate start end : ℕ)
    (linear : (ms : ℕ) → tokens_for ms c.refill_rate * 1000 ≤ ms * rate) where
  -- What a key may still spend until `end`, in thousandths of a token.
  abbrev credit : Option Bucket → ℕ
  credit none = 1000 * c.max_tokens + (end - start) * rate
  credit (some b) = 1000 * b.tokens + (end - b.last_refill) * rate

  credit-refill :
      (b : Bucket) (now_ms : ℕ)
      → now_ms ≤ end
      → credit (some (refill tokens_for c now_ms b)) ≤ credit (some b)
  unfolding refill
  credit-refill b now_ms h = elim (dec_le b.last_refill now_ms) [
    | yes past ↦
        ground
          (arith, linear (now_ms - b.last_refill), span_split b.last_refill now_ms end rate past h)
    | no ahead ↦ ground arith
  ]

  credit-bucket_for :
      (o : Option Bucket) (now_ms : ℕ)
      → start ≤ now_ms
      → credit (some (bucket_for c o now_ms)) ≤ credit o
  unfolding bucket_for
  credit-bucket_for none now_ms h = grind arith
  credit-bucket_for (some b) now_ms h = omega arith

  credit-consume :
      (b : Bucket) → credit (some (consume b).0) + 1000 * passed (consume b).1 ≡ credit (some b)
  unfolding consume
  credit-consume b = ground arith

  credit-admit :
      (l : RateLimiter F) (k : Text) (now_ms : ℕ)
      → l.config ≡ c
      → start ≤ now_ms
      → now_ms ≤ end
      → credit (get (admit tokens_for l k now_ms).0.buckets k)
          + 1000 * passed (admit tokens_for l k now_ms).1
        ≤ credit (get l.buckets k)
  unfolding admit
  credit-admit l k now_ms e h h' =
      let b = bucket_for c (get l.buckets k) now_ms in
      rw (e, get-insert_self)
        (omega (
          arith,
          credit-consume (refill tokens_for c now_ms b),
          credit-refill b now_ms h',
          credit-bucket_for (get l.buckets k) now_ms h,
        ))

  get-admit_ne :
      (l : RateLimiter F) (k key : Text) (now_ms : ℕ)
      → (k == key) ≡ false
      → get (admit tokens_for l k now_ms).0.buckets key ≡ get l.buckets key
  unfolding admit
  get-admit_ne l k key now_ms h = rw (get-insert, h)

  len-admit-le :
      (l : RateLimiter F) (k : Text) (now_ms : ℕ)
      → len (admit tokens_for l k now_ms).0.buckets ≤ len l.buckets + 1
  unfolding admit
  len-admit-le l k now_ms = grind (arith, len-insert)

  check-admit :
      (l : RateLimiter F) (k : Text) (now_ms cleanup_ms : ℕ)
      → len l.buckets < max_tracked_keys
      → check tokens_for l k now_ms cleanup_ms ≡ admit tokens_for l k now_ms
  unfolding check
  check-admit l k now_ms cleanup_ms h = ground arith

  serve-credit :
      (key : Text) (rs : List Request) (l : RateLimiter F)
      → l.config ≡ c
      → During start end rs
      → len l.buckets + length rs ≤ max_tracked_keys
      → 1000 * (serve tokens_for l key rs).1 ≤ credit (get l.buckets key)
  unfolding serve
  serve-credit key [] l e d room = omega arith
  serve-credit key (r ∷ rs) l e d room =
      let l' = (admit tokens_for l r.key r.now_ms).0 in
      let rest =
        serve-credit key rs l' (unfold admit in e) d.2
          (omega (arith, len-admit-le l r.key r.now_ms)) in
      rw (check-admit l r.key r.now_ms r.cleanup_ms (omega arith))
        (elim (Bool-cases (r.key == key)) [
          | inl hit ↦ rw hit (
              let same : r.key ≡ key = (list_same_iff r.key key).0 hit in
              ground (
                arith,
                rest,
                ap (get l.buckets) same,
                ap (get l'.buckets) same,
                credit-admit l r.key r.now_ms e d.0 d.1,
              ))
          | inr miss ↦
              rw miss (omega (arith, rest, ap credit (get-admit_ne l r.key key r.now_ms miss)))
        ])

  -- Where the clock stays between `start` and `end`, a config refills at most `rate` tokens a second, and
  -- the keys of the table and the requests are together at most MAX_TRACKED_KEYS (so that no cleanup
  -- runs), a key that is not
  -- tracked yet passes at most the burst and what is refilled from `start` to `end`.
  pub throughput :
      (key : Text) (rs : List Request) (l : RateLimiter F)
      → l.config ≡ c
      → get l.buckets key ≡ none
      → During start end rs
      → len l.buckets + length rs ≤ max_tracked_keys
      → 1000 * (serve tokens_for l key rs).1 ≤ 1000 * c.max_tokens + (end - start) * rate
  throughput key rs l e fresh d room =
      omega (arith, serve-credit key rs l e d room, ap credit fresh)
