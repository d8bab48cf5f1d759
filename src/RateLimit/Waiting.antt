-- ===== src/RateLimit/Waiting.antt =====
-- A key that waits passes.
use blossom_rs.Prelude.{ℕ, ◌-◌, ◌<◌, ◌≡◌, refl, ◌∙◌, true, some, arith, Text, list_key, nat_key}
use blossom_rs.HashMap.{get, contains_key, contains_key-get}
use blossom_rs.RateLimit.{
  RateLimiter, RateLimitConfig, Bucket, consume, bucket_for, refill, admit, check,
}

module _ {F : Type 0} (tokens_for : ℕ → F → ℕ) where
  refill-token :
      (c : RateLimitConfig F) (b : Bucket) (now_ms : ℕ)
      → 0 < c.max_tokens
      → 0 < now_ms - b.last_refill
      → 0 < tokens_for (now_ms - b.last_refill) c.refill_rate
      → 0 < (refill tokens_for c now_ms b).tokens
  unfolding refill
  refill-token c b now_ms room later refilled = ground arith

  consume-passes : (b : Bucket) → 0 < b.tokens → (consume b).1 ≡ true
  unfolding consume
  consume-passes b h = ground arith

  -- Where the burst is above 0, a key that is tracked passes once it has waited for as long as a token takes, however many it used.
  pub check-waited :
      (l : RateLimiter F) (key : Text) (b : Bucket) (now_ms cleanup_ms : ℕ)
      → get l.buckets key ≡ some b
      → 0 < l.config.max_tokens
      → b.last_refill < now_ms
      → 0 < tokens_for (now_ms - b.last_refill) l.config.refill_rate
      → (check tokens_for l key now_ms cleanup_ms).1 ≡ true
  unfolding check admit bucket_for
  check-waited l key b now_ms cleanup_ms found room later refilled =
      let tracked : contains_key l.buckets key ≡ true =
        contains_key-get l.buckets key ∙ rw found refl in
      rw (tracked, found)
        (consume-passes (refill tokens_for l.config now_ms b)
          (refill-token l.config b now_ms room (omega arith) refilled))
