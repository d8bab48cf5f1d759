-- ===== src/RateLimit.antt =====
-- src/ratelimit.rs: the token-bucket rate limiter.
-- The two readings of the clock in `check` are arguments, in milliseconds. `F` stands for `f64`, and
-- `tokens_for ms r` for `(ms as f64 / 1000.0 * r) as u64`. The shard lock that `entry` holds
-- makes the rest of a check atomic, so the loop on `compare_exchange_weak` is one step.
pub mod Bounds
pub mod Cleanup
pub mod Throughput
pub mod Waiting
mod Tests
use blossom_rs.Prelude.{
  ℕ, ◌+◌, ◌-◌, ◌*◌, ◌^◌, Bool, true, false, Text, Option, none, some, [], ◌==◌, nat_key, list_key,
  not, ◌&&◌, ltb, leb, if◌then◌else◌, min, bytes_of, list_same_iff,
}
use blossom_rs.HashMap.{HashMap, get, insert, contains_key, len, retain}

abbrev pub max_tracked_keys : ℕ
max_tracked_keys = 10_000

abbrev pub u64_max : ℕ
u64_max = 2 ^ 64 - 1

pub record RateLimitConfig (F : Type 0) : Type 0 where
  pub max_tokens : ℕ
  pub refill_rate : F

pub record Bucket : Type 0 where
  pub tokens : ℕ
  pub last_refill : ℕ

pub record RateLimiter (F : Type 0) : Type 0 where
  pub buckets : HashMap Text Bucket
  pub config : RateLimitConfig F

abbrev pub saturating_add : ℕ → ℕ → ℕ
saturating_add a b = min (a + b) u64_max

-- The loop under "Try to consume a token".
unfoldable pub consume : Bucket → Bucket × Bool
consume b = if b.tokens == 0 then (b, false) else (record b { tokens = b.tokens - 1 }, true)

module _ {F : Type 0} where
  -- `entry(key).or_insert_with(...)`.
  unfoldable pub bucket_for : RateLimitConfig F → Option Bucket → ℕ → Bucket
  bucket_for c none now_ms = record { tokens = c.max_tokens; last_refill = now_ms }
  bucket_for c (some b) now_ms = b

  -- `max_age` is in milliseconds.
  unfoldable pub cleanup : RateLimiter F → ℕ → ℕ → RateLimiter F
  cleanup l max_age now_ms =
      let threshold = now_ms - max_age in
      record l { buckets = retain (λ _ b. ltb threshold b.last_refill) l.buckets }

  pub remaining : RateLimiter F → Text → ℕ
  remaining l key = elim (get l.buckets key) [ none ↦ l.config.max_tokens | some b ↦ b.tokens ]

  pub tracked_keys : RateLimiter F → ℕ
  tracked_keys l = len l.buckets

  unfoldable pub new : RateLimitConfig F → RateLimiter F
  new c = record { buckets = []; config = c }

module _ {F : Type 0} (tokens_for : ℕ → F → ℕ) where
  -- The part of `check` under "Refill tokens based on elapsed time".
  unfoldable pub refill : RateLimitConfig F → ℕ → Bucket → Bucket
  refill c now_ms b =
      let elapsed_ms = now_ms - b.last_refill in
      let new_tokens = tokens_for elapsed_ms c.refill_rate in
      if ltb 0 elapsed_ms
      then (if ltb 0 new_tokens
          then record {
            tokens = min (saturating_add b.tokens new_tokens) c.max_tokens;
            last_refill = now_ms;
          }
          else b)
      else b

  -- `check` from `entry` on.
  unfoldable pub admit : RateLimiter F → Text → ℕ → RateLimiter F × Bool
  admit l key now_ms =
      let (b, allowed) =
        consume (refill l.config now_ms (bucket_for l.config (get l.buckets key) now_ms)) in
      (record l { buckets = insert l.buckets key b }, allowed)

  unfoldable pub check : RateLimiter F → Text → ℕ → ℕ → RateLimiter F × Bool
  check l key now_ms cleanup_ms =
      let cleaned = cleanup l 600_000 cleanup_ms in
      if not (contains_key l.buckets key) && leb max_tracked_keys (len l.buckets)
      then (if leb max_tracked_keys (len cleaned.buckets)
          then (cleaned, false)
          else admit cleaned key now_ms)
      else admit l key now_ms
