-- ===== src/Server/Entry.antt =====
-- src/server/mod.rs: how handle_mirror and handle_media_upload begin, and how they bind the event to
-- what the body holds. `next` is what follows.
use blossom_rs.Prelude.{
  ℕ, ◌≡◌, ◌⊎◌, refl, Bool, true, false, Option, none, some, nat_key, list_key, Text, bytes_of,
  Bool-cases, inl, inr, if◌then◌else◌,
}
use blossom_rs.Access.{Action}
use blossom_rs.Auth.{NostrEvent, AuthResult, accepted, rejected, Crypto}
use blossom_rs.Auth.Claims.{verify_auth_event_claims}
use blossom_rs.Auth.Single.{verify_auth_event, mark_after-accepted}
use blossom_rs.RateLimit.{RateLimiter}
use blossom_rs.ReplayCache.{ReplayCache}
use blossom_rs.Server.Store.{StatusCode, unauthorized, forbidden, too_many_requests}
use blossom_rs.Server.Upload.{
  Config, ServerState, AuthHeader, absent, malformed, event_of, Request, limited,
}

module _ {F : Type 0} (crypto : Crypto) (config : Config) (tokens_for : ℕ → F → ℕ)
    (path method : Text) (action : Action) where
  abbrev pub Next : Type 0
  Next = ServerState F → NostrEvent → ServerState F × StatusCode

  abbrev pub rate_passed :
      ServerState F → NostrEvent → Next → Option (RateLimiter F) × Bool → ServerState F × StatusCode
  rate_passed s event next (limiter, false) =
      (record s { rate_limiter = limiter }, too_many_requests)
  rate_passed s event next (limiter, true) = next (record s { rate_limiter = limiter }) event

  abbrev pub claims_checked :
      ServerState F → Request → NostrEvent → Next → AuthResult → ServerState F × StatusCode
  claims_checked s req event next (rejected e) = (s, unauthorized)
  claims_checked s req event next accepted =
      if config.is_allowed event.pubkey action
      then rate_passed s event next
          (limited tokens_for s.rate_limiter event.pubkey req.limited_at_ms req.cleaned_at_ms)
      else (s, forbidden)

  unfoldable pub entered : ServerState F → Request → AuthHeader → Next → ServerState F × StatusCode
  unfolding verify_auth_event_claims
  entered s req absent next = (s, unauthorized)
  entered s req malformed next = (s, unauthorized)
  entered s req (event_of event) next = claims_checked s req event next (
      verify_auth_event_claims crypto event (bytes_of "upload") config.base_url path method none
        req.checked_at)

  abbrev pub marked_as :
      ServerState F → NostrEvent → Next → ReplayCache × AuthResult → ServerState F × StatusCode
  marked_as s event next (seen, rejected e) = (record s { seen = seen }, unauthorized)
  marked_as s event next (seen, accepted) = next (record s { seen = seen }) event

  unfoldable pub marked :
      ServerState F → Request → NostrEvent → Text → Next → ServerState F × StatusCode
  unfolding verify_auth_event
  marked s req event hash next = marked_as s event next (
      verify_auth_event crypto s.seen event (bytes_of "upload") config.base_url path method
        (some hash) req.bound_at)

  -- Either nothing is stored, or the event of the request may do this and what follows is the result.
  abbrev pub Entered : ServerState F → AuthHeader → Next → ServerState F × StatusCode → Type 0
  Entered s auth next r =
      (r.0.stored ≡ s.stored)
      ⊎ ((event : NostrEvent) × (t : ServerState F) × (auth ≡ event_of event)
          × (config.is_allowed event.pubkey action ≡ true)
          × (t.stored ≡ s.stored)
          × (r ≡ next t event))

  rate_passed-Entered :
      (s : ServerState F) (event : NostrEvent) (next : Next) (r : Option (RateLimiter F) × Bool)
      → config.is_allowed event.pubkey action ≡ true
      → Entered s (event_of event) next (rate_passed s event next r)
  rate_passed-Entered s event next (limiter, false) may = inl refl
  rate_passed-Entered s event next (limiter, true) may =
      inr (event, record s { rate_limiter = limiter }, refl, may, refl, refl)

  claims_checked-Entered :
      (s : ServerState F) (req : Request) (event : NostrEvent) (next : Next) (r : AuthResult)
      → Entered s (event_of event) next (claims_checked s req event next r)
  claims_checked-Entered s req event next (rejected e) = inl refl
  claims_checked-Entered s req event next accepted =
      elim (Bool-cases (config.is_allowed event.pubkey action)) [
        | inl may ↦ rw may (
            rate_passed-Entered s event next
              (limited tokens_for s.rate_limiter event.pubkey req.limited_at_ms req.cleaned_at_ms)
              may)
        | inr not_allowed ↦ rw not_allowed (inl refl)
      ]

  pub entered-Entered :
      (s : ServerState F) (req : Request) (auth : AuthHeader) (next : Next)
      → Entered s auth next (entered s req auth next)
  unfolding entered
  entered-Entered s req absent next = inl refl
  entered-Entered s req malformed next = inl refl
  entered-Entered s req (event_of event) next = claims_checked-Entered s req event next (
      verify_auth_event_claims crypto event (bytes_of "upload") config.base_url path method none
        req.checked_at)

  -- Either nothing is stored, or the claims of the event hold for the hash.
  abbrev pub Marked :
      ServerState F → Request → NostrEvent → Text → Next → ServerState F × StatusCode → Type 0
  Marked s req event hash next r =
      (r.0.stored ≡ s.stored)
      ⊎ ((verify_auth_event_claims crypto event (bytes_of "upload") config.base_url path method
              (some hash) req.bound_at
            ≡ accepted)
          × ((t : ServerState F) × (t.stored ≡ s.stored) × (r ≡ next t event)))

  marked_as-Marked :
      (s : ServerState F) (req : Request) (event : NostrEvent) (hash : Text) (next : Next)
      (r : ReplayCache × AuthResult)
      → (r.1 ≡ accepted
          → verify_auth_event_claims crypto event
              (bytes_of "upload")
              config.base_url
              path
              method
              (some hash)
              req.bound_at
            ≡ accepted)
      → Marked s req event hash next (marked_as s event next r)
  marked_as-Marked s req event hash next (seen, rejected e) h = inl refl
  marked_as-Marked s req event hash next (seen, accepted) h =
      inr (h refl, (record s { seen = seen }, refl, refl))

  pub marked-Marked :
      (s : ServerState F) (req : Request) (event : NostrEvent) (hash : Text) (next : Next)
      → Marked s req event hash next (marked s req event hash next)
  unfolding marked verify_auth_event
  marked-Marked s req event hash next =
      let claims =
        verify_auth_event_claims crypto event (bytes_of "upload") config.base_url path method
          (some hash) req.bound_at in
      marked_as-Marked s req event hash next
        (verify_auth_event crypto s.seen event (bytes_of "upload") config.base_url path method
          (some hash) req.bound_at)
        (λ k. (mark_after-accepted crypto claims s.seen event req.bound_at k).0)
