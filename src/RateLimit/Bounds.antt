-- ===== src/RateLimit/Bounds.antt =====
-- What every bucket and the table keep within: the burst and the number of tracked keys.
use blossom_rs.Prelude.{
  ◌-◌, list_key, nat_key, ℕ, ◌≤◌, ◌<◌, ◌≡◌, refl, Text, none, some, arith, inl, inr, Bool-cases,
  Option, length-keep-le, ltb, ◌⊎◌, leb, true,
}
use blossom_rs.HashMap.{
  get, len, len-insert, contains_key, Each, Each-insert, Each-get, Each-retain,
}
use blossom_rs.RateLimit.{
  RateLimiter, RateLimitConfig, Bucket, refill, consume, bucket_for, admit, cleanup, check,
  max_tracked_keys,
}

abbrev pub WithinBurst : ℕ → Text → Bucket → Type 0
WithinBurst burst k b = b.tokens ≤ burst

pub record IsBounded {F : Type 0} (l : RateLimiter F) : Type 0 where
  pub burst : Each (WithinBurst l.config.max_tokens) l.buckets
  pub keys : len l.buckets ≤ max_tracked_keys

module _ {F : Type 0} (tokens_for : ℕ → F → ℕ) where
  refill-WithinBurst :
      (c : RateLimitConfig F) (now_ms : ℕ) (b : Bucket)
      → b.tokens ≤ c.max_tokens
      → (refill tokens_for c now_ms b).tokens ≤ c.max_tokens
  unfolding refill
  refill-WithinBurst c now_ms b h = ground arith

  consume-WithinBurst : (b : Bucket) (n : ℕ) → b.tokens ≤ n → (consume b).0.tokens ≤ n
  unfolding consume
  consume-WithinBurst b n h = ground arith

  bucket_for-WithinBurst :
      (l : RateLimiter F) (key : Text) (now_ms : ℕ)
      → Each (WithinBurst l.config.max_tokens) l.buckets
      → (o : Option Bucket) → get l.buckets key ≡ o
      → (bucket_for l.config o now_ms).tokens ≤ l.config.max_tokens
  unfolding bucket_for
  bucket_for-WithinBurst l key now_ms a none h = omega arith
  bucket_for-WithinBurst l key now_ms a (some b) h =
      Each-get (WithinBurst l.config.max_tokens) l.buckets key b a h

  admit-burst :
      (l : RateLimiter F) (key : Text) (now_ms : ℕ)
      → Each (WithinBurst l.config.max_tokens) l.buckets
      → Each (WithinBurst l.config.max_tokens) (admit tokens_for l key now_ms).0.buckets
  unfolding admit
  admit-burst l key now_ms a =
      Each-insert (WithinBurst l.config.max_tokens) l.buckets key _
        (consume-WithinBurst _ _ (
          refill-WithinBurst _ _ _
            (bucket_for-WithinBurst l key now_ms a (get l.buckets key) refl)))
        a

  admit-keys :
      (l : RateLimiter F) (key : Text) (now_ms : ℕ)
      → ((contains_key l.buckets key ≡ true) ⊎ (len l.buckets < max_tracked_keys))
      → len l.buckets ≤ max_tracked_keys
      → len (admit tokens_for l key now_ms).0.buckets ≤ max_tracked_keys
  unfolding admit
  admit-keys l key now_ms room h = grind (arith, len-insert)

  admit-IsBounded :
      (l : RateLimiter F) (key : Text) (now_ms : ℕ)
      → ((contains_key l.buckets key ≡ true) ⊎ (len l.buckets < max_tracked_keys))
      → IsBounded l
      → IsBounded (admit tokens_for l key now_ms).0
  admit-IsBounded l key now_ms room v = record {
    burst = unfold admit in admit-burst l key now_ms v.burst;
    keys = admit-keys l key now_ms room v.keys;
  }

  cleanup-IsBounded :
      (l : RateLimiter F) (max_age now_ms : ℕ) → IsBounded l → IsBounded (cleanup l max_age now_ms)
  unfolding cleanup
  cleanup-IsBounded l max_age now_ms v = record {
    burst = Each-retain (WithinBurst l.config.max_tokens) _ l.buckets v.burst;
    keys = omega (
      arith,
      length-keep-le (λ (x : Text × Bucket). ltb (now_ms - max_age) x.1.last_refill) l.buckets,
      v.keys,
    );
  }

  -- A check, on every branch, keeps each bucket within the burst and the table within its limit.
  check-IsBounded :
      (l : RateLimiter F) (key : Text) (now_ms cleanup_ms : ℕ)
      → IsBounded l
      → IsBounded (check tokens_for l key now_ms cleanup_ms).0
  unfolding check
  check-IsBounded l key now_ms cleanup_ms v =
      let cleaned = cleanup l 600_000 cleanup_ms in
      elim (Bool-cases (contains_key l.buckets key)) [
        | inl known ↦ rw known (admit-IsBounded l key now_ms (inl known) v)
        | inr fresh ↦ rw fresh (elim (Bool-cases (leb max_tracked_keys (len l.buckets))) [
          | inl full ↦ rw full (elim (Bool-cases (leb max_tracked_keys (len cleaned.buckets))) [
            | inl still ↦ rw still (cleanup-IsBounded l _ _ v)
            | inr room ↦ rw room (
                admit-IsBounded cleaned key now_ms (inr (ground arith)) (cleanup-IsBounded l _ _ v))
          ])
          | inr room ↦ rw room (admit-IsBounded l key now_ms (inr (ground arith)) v)
        ])
      ]
