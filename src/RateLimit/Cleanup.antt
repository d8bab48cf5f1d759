-- ===== src/RateLimit/Cleanup.antt =====
-- What `cleanup` forgets: a bucket's age is that of its last refill, and not of its last use.
use blossom_rs.Prelude.{ℕ, ◌+◌, ◌-◌, ◌≤◌, ◌≡◌, Text, list_key, nat_key, some, arith, ltb}
use blossom_rs.HashMap.{
  get, insert, contains_key-get, get-insert_self, get-retain, IsMap, IsMap-insert,
}
use blossom_rs.RateLimit.{
  RateLimiter, Bucket, refill, consume, bucket_for, admit, cleanup, check, remaining,
}

module _ {F : Type 0} (tokens_for : ℕ → F → ℕ) where
  check_known :
      (l : RateLimiter F) (k : Text) (b : Bucket) (now_ms cleanup_ms : ℕ)
      → get l.buckets k ≡ some b
      → check tokens_for l k now_ms cleanup_ms ≡ admit tokens_for l k now_ms
  unfolding check
  check_known l k b now_ms cleanup_ms h = ground (arith, contains_key-get l.buckets k)

  admit_unrefilled :
      (l : RateLimiter F) (k : Text) (b : Bucket) (now_ms : ℕ)
      → get l.buckets k ≡ some b
      → tokens_for (now_ms - b.last_refill) l.config.refill_rate ≡ 0
      → (admit tokens_for l k now_ms).0 ≡ record l { buckets = insert l.buckets k (consume b).0 }
  unfolding admit refill bucket_for
  admit_unrefilled l k b now_ms h dry = rw (h, dry) (ground arith)

  -- A tracked key whose bucket was last refilled `max_age` or more ago and gains no token now
  -- has its full burst again after a check and a cleanup, however lately it was used.
  pub cleanup_forgets_use :
      (l : RateLimiter F) (k : Text) (b : Bucket) (max_age now_ms cleanup_ms : ℕ)
      → IsMap l.buckets
      → get l.buckets k ≡ some b
      → tokens_for (now_ms - b.last_refill) l.config.refill_rate ≡ 0
      → b.last_refill + max_age ≤ now_ms
      → remaining (cleanup (check tokens_for l k now_ms cleanup_ms).0 max_age now_ms) k
        ≡ l.config.max_tokens
  unfolding remaining cleanup consume
  cleanup_forgets_use l k b max_age now_ms cleanup_ms unique h dry old =
      let m = insert l.buckets k (consume b).0 in
      rw (check_known l k b now_ms cleanup_ms h, admit_unrefilled l k b now_ms h dry)
        (ground (
          arith,
          get-retain (λ _ x. ltb (now_ms - max_age) x.last_refill) m k
              (IsMap-insert l.buckets k (consume b).0 unique),
          get-insert_self l.buckets k (consume b).0,
        ))
