-- ===== src/RateLimit/Tests.antt =====
-- The limiter on concrete input: a rate of whole tokens a second, and no float.
use blossom_rs.Prelude.{
  ℕ, ◌+◌, ◌-◌, ◌*◌, ◌/◌, ◌≤◌, ◌≡◌, refl, true, list_key, nat_key, [], ◌∷◌, arith, bytes_of,
}
use blossom_rs.HashMap.{get, insert, contains_key}
use blossom_rs.RateLimit.{
  RateLimiter, RateLimitConfig, Bucket, refill, consume, bucket_for, admit, cleanup, check,
  remaining,
}
use blossom_rs.RateLimit.Throughput.{Request, serve, throughput}
use blossom_rs.RateLimit.Waiting.{check-waited}
use blossom_rs.RateLimit.Cleanup.{cleanup_forgets_use}

abbrev per_second : ℕ → ℕ → ℕ
per_second ms r = ms * r / 1000

abbrev config : RateLimitConfig ℕ
config = record { max_tokens = 3; refill_rate = 2 }

abbrev limiter : RateLimiter ℕ
limiter = record { buckets = []; config = config }

abbrev tracked : RateLimiter ℕ
tracked = record {
  buckets = ((bytes_of "a"), record { tokens = 2; last_refill = 1000 }) ∷ [];
  config = record { max_tokens = 3; refill_rate = 0 };
}

abbrev at_second : ℕ → Request
at_second s = record { key = (bytes_of "a"); now_ms = s * 1000; cleanup_ms = s * 1000 }

-- Five requests at once and one a second later: three pass at first, and one after the refill.
burst_then_refill :
    (serve per_second limiter
      (bytes_of "a")
      (at_second 1 ∷ at_second 1 ∷ at_second 1 ∷ at_second 1 ∷ at_second 1 ∷ at_second 2 ∷ [])).1
    ≡ 4
unfolding serve check admit refill consume bucket_for cleanup get insert contains_key
burst_then_refill = refl

throughput_example :
    1000 * (serve per_second limiter (bytes_of "a") (at_second 1 ∷ at_second 4 ∷ [])).1
    ≤ 1000 * 3 + (5000 - 1000) * 2
unfolding get contains_key
throughput_example =
    throughput per_second config 2 1000 5000 (λ ms. omega arith) (bytes_of "a")
      (at_second 1 ∷ at_second 4 ∷ []) limiter refl refl (omega arith) (omega arith)

cleanup_forgets_use_example :
    remaining
      (cleanup (check per_second tracked (bytes_of "a") 700_000 700_000).0 600_000 700_000)
      (bytes_of "a")
    ≡ 3
unfolding get contains_key
cleanup_forgets_use_example =
    cleanup_forgets_use per_second tracked (bytes_of "a")
      (record { tokens = 2; last_refill = 1000 }) 600_000 700_000 700_000 (refl, tt) refl refl
      (omega arith)

abbrev empty_bucket : Bucket
empty_bucket = record { tokens = 0; last_refill = 1000 }

check-waited_example :
    (check per_second
      (record { buckets = (bytes_of "a", empty_bucket) ∷ []; config = config })
      (bytes_of "a")
      2000
      2000).1
    ≡ true
unfolding get
check-waited_example =
    check-waited per_second
      (record { buckets = (bytes_of "a", empty_bucket) ∷ []; config = config }) (bytes_of "a")
      empty_bucket 2000 2000 refl (omega arith) (omega arith) (omega arith)
