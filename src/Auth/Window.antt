-- ===== src/Auth/Window.antt =====
-- How long an event that was used can be used again, against how long the replay cache keeps it.
-- src/server/mod.rs: mark_auth_event_once keeps an event for 120 seconds from its use.
use blossom_rs.Prelude.{
  ℕ, ◌+◌, ◌<◌, ◌^◌, ◌≡◌, refl, Bool, true, false, some, nat_key, list_key, arith, Text,
}
use blossom_rs.ReplayCache.{ReplayCache, check_and_insert}
use blossom_rs.ReplayCache.Replays.{check_and_insert-twice}
use blossom_rs.Auth.{
  NostrEvent, AuthResult, accepted, rejected, replay, Crypto, saturating_add, verify_blossom_auth,
}
use blossom_rs.Auth.Request.{verify_blossom_auth-accepted}

abbrev pub marked : ReplayCache × Bool → ReplayCache × AuthResult
marked (s, true) = (s, accepted)
marked (s, false) = (s, rejected replay)

pub marked-accepted : (r : ReplayCache × Bool) → (marked r).1 ≡ accepted → r.1 ≡ true
marked-accepted (s, true) h = refl
marked-accepted (s, false) h = absurd (ground (arith, h))

pub marked-refused : (r : ReplayCache × Bool) → r.1 ≡ false → (marked r).1 ≡ rejected replay
marked-refused (s, true) h = absurd (ground (arith, h))
marked-refused (s, false) h = refl

pub marked-state : (r : ReplayCache × Bool) → (marked r).0 ≡ r.0
marked-state (s, true) = refl
marked-state (s, false) = refl

-- `mark_auth_event_once` on the cache that all requests share.
unfoldable pub mark_auth_event_once : ReplayCache → NostrEvent → ℕ → ReplayCache × AuthResult
mark_auth_event_once s event now =
    marked (check_and_insert s event.pubkey event.id now (saturating_add now 120))

module _ (crypto : Crypto) where
  -- An event that was current at one time is not at a time that is 120 seconds later or more.
  use_before :
      (event : NostrEvent) (action other : Text) (now later : ℕ)
      → verify_blossom_auth crypto event (some action) now ≡ accepted
      → verify_blossom_auth crypto event (some other) later ≡ accepted
      → later < now + 120
  use_before event action other now later h k =
      let (_, first) = (verify_blossom_auth-accepted crypto event action now).0 h in
      let (_, second) = (verify_blossom_auth-accepted crypto event other later).0 k in
      ground (arith, first.0, second.1.0)

  -- An event that passed the check and was marked is refused as a replay when it passes the check
  -- again as the next event, whatever it is used for and however much later; times are below 2^63.
  pub mark_auth_event_once-twice :
      (s : ReplayCache) (event : NostrEvent) (action other : Text) (now later : ℕ)
      → now < 2 ^ 63
      → verify_blossom_auth crypto event (some action) now ≡ accepted
      → (mark_auth_event_once s event now).1 ≡ accepted
      → verify_blossom_auth crypto event (some other) later ≡ accepted
      → (mark_auth_event_once (mark_auth_event_once s event now).0 event later).1 ≡ rejected replay
  mark_auth_event_once-twice s event action other now later bound h m k =
      let expiry = saturating_add now 120 in
      let next = (check_and_insert s event.pubkey event.id now expiry).0 in
      let taken =
        marked-accepted (check_and_insert s event.pubkey event.id now expiry)
          (unfold mark_auth_event_once in m) in
      let soon : later < expiry =
        ground (arith, use_before event action other now later h k, bound) in
      unfold mark_auth_event_once in
      rw (marked-state (check_and_insert s event.pubkey event.id now expiry)) (
        marked-refused
          (check_and_insert next event.pubkey event.id later (saturating_add later 120))
          (check_and_insert-twice s event.pubkey event.pubkey event.id now expiry later
            (saturating_add later 120) taken soon))
