-- ===== src/Auth/Single.antt =====
-- verify_auth_event of src/server/mod.rs: an event and its entry in the replay cache.
use blossom_rs.Prelude.{
  ℕ, ◌+◌, ◌<◌, ◌≤◌, ◌^◌, ◌≡◌, ◌≢◌, refl, ap, ◌∙◌, true, Option, nat_key, list_key, arith, Text, inl,
  inr,
}
use blossom_rs.HashMap.{get}
use blossom_rs.ReplayCache.{ReplayCache, check_and_insert}
use blossom_rs.ReplayCache.Replays.{check_and_insert-made, check_and_insert-held}
use blossom_rs.Auth.{NostrEvent, AuthResult, accepted, rejected, Crypto, saturating_add}
use blossom_rs.Auth.Claims.{verify_auth_event_claims, verify_auth_event_claims-accepted}
use blossom_rs.Auth.Window.{mark_auth_event_once, marked-accepted, marked-state}

module _ (crypto : Crypto) where
  abbrev mark_after : AuthResult → ReplayCache → NostrEvent → ℕ → ReplayCache × AuthResult
  mark_after accepted s event now = mark_auth_event_once s event now
  mark_after (rejected e) s event now = (s, rejected e)

  unfoldable pub verify_auth_event :
      ReplayCache
      → NostrEvent
      → Text
      → Text
      → Text
      → Text
      → Option Text
      → ℕ
      → ReplayCache × AuthResult
  unfolding verify_auth_event_claims mark_auth_event_once
  verify_auth_event s event action base_url path method hash now =
      mark_after (verify_auth_event_claims crypto event action base_url path method hash now) s
        event now

  -- The date of an event whose claims hold.
  claims-date :
      (event : NostrEvent) (action base_url path method : Text) (hash : Option Text) (now : ℕ)
      → verify_auth_event_claims crypto event action base_url path method hash now ≡ accepted
      → (event.created_at ≤ saturating_add now 30) × (now ≤ event.created_at + 60)
  claims-date event action base_url path method hash now h =
      elim ((verify_auth_event_claims-accepted crypto event action base_url path method hash now).0
        h) [ inl b ↦ (b.0.1.0, b.0.1.1.0) | inr b ↦ (b.1.0, b.1.1.0) ]

  pub mark_after-accepted :
      (r : AuthResult) (s : ReplayCache) (event : NostrEvent) (now : ℕ)
      → (mark_after r s event now).1 ≡ accepted
      → (r ≡ accepted)
        × ((check_and_insert s event.pubkey event.id now (saturating_add now 120)).1 ≡ true)
        × ((mark_after r s event now).0
            ≡ (check_and_insert s event.pubkey event.id now (saturating_add now 120)).0)
  unfolding mark_auth_event_once
  mark_after-accepted accepted s event now h =
      let r = check_and_insert s event.pubkey event.id now (saturating_add now 120) in
      (refl, marked-accepted r h, marked-state r)
  mark_after-accepted (rejected e) s event now h = absurd (ground (arith, h))

  -- An event that was taken for a request is not taken again as long as the cache has the entry that was
  -- made for it: whatever became of the cache otherwise, and whatever the request and the time, if the
  -- event's claims are checked at a time below 2^63.
  pub verify_auth_event-once :
      (s t : ReplayCache) (event : NostrEvent) (action base_url path method : Text)
      (hash : Option Text) (now : ℕ) (action' base_url' path' method' : Text) (hash' : Option Text)
      (later : ℕ)
      → now < 2 ^ 63
      → (verify_auth_event s event action base_url path method hash now).1 ≡ accepted
      → get t.entries event.id
        ≡ get (verify_auth_event s event action base_url path method hash now).0.entries event.id
      → (verify_auth_event t event action' base_url' path' method' hash' later).1 ≢ accepted
  unfolding verify_auth_event
  verify_auth_event-once s t event action base_url path method hash now action' base_url' path'
        method' hash' later bound h stands k =
      let expiry = saturating_add now 120 in
      let (claims, fresh, next) =
        mark_after-accepted
          (verify_auth_event_claims crypto event action base_url path method hash now) s event now
          h in
      let (claims', again, _) =
        mark_after-accepted
          (verify_auth_event_claims crypto event action' base_url' path' method' hash' later) t
          event later k in
      let (made, _) = claims-date event action base_url path method hash now claims in
      let (_, valid) = claims-date event action' base_url' path' method' hash' later claims' in
      let soon : later < expiry = ground (arith, made, valid, bound) in
      let entry =
        stands
        ∙ ap (λ c. get c.entries event.id) next
        ∙ check_and_insert-made s event.pubkey event.id now expiry fresh in
      let refused =
        check_and_insert-held t event.pubkey event.id later (saturating_add later 120)
          (record { principal = event.pubkey; expires_at = expiry }) entry soon in
      absurd (ground (arith, again, refused))
