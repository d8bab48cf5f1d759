-- ===== src/Server/Upload/Accepted.antt =====
-- What the checks of an upload ensure of one that is stored.
use blossom_rs.Prelude.{
  ℕ, ◌≡◌, ◌≢◌, refl, ap, Bool, true, false, some, Option, Text, bytes_of, arith, ◌==◌, list_key,
  nat_key, Bool-cases, inl, inr, [], length, list_same_iff, ◌∙◌,
}
use blossom_rs.Access.{upload}
use blossom_rs.Auth.{AuthResult, accepted, rejected, Crypto}
use blossom_rs.Auth.Claims.{verify_auth_event_claims}
use blossom_rs.Auth.Single.{verify_auth_event, mark_after-accepted}
use blossom_rs.ReplayCache.{ReplayCache}
use blossom_rs.RateLimit.{RateLimiter}
use blossom_rs.Server.{State}
use blossom_rs.Server.Body.{BodyResult, read, failed, too_large, exhausted}
use blossom_rs.Server.Encode.{Crates}
use blossom_rs.Server.Store.{status_ok, store}
use blossom_rs.Server.Upload.{
  AuthHeader, absent, malformed, event_of, mime_allowed, over, Config, ServerState, Request,
  Checked, pass, refuse, storable, admitted, bind, limited, stored_as, bound_to, upload_body,
  rate_checked, after_admission, handle_upload, context_of, owner_name, pubkey_of, mime_or_detected,
  extract_content_type, over_quota,
}

module _ (crypto : Crypto) (crates : Crates) (config : Config) where
  -- The event, if there has to be one or there is one, is for this upload of these bytes by a key that may upload.
  abbrev Authorized : AuthHeader → Text → ℕ → Type 0
  Authorized absent sha256 now = config.requirements.require_auth ≡ false
  Authorized malformed sha256 now = ⊥
  Authorized (event_of event) sha256 now =
      (verify_auth_event_claims crypto event (bytes_of "upload") config.base_url
          (bytes_of "/upload") (bytes_of "PUT") (some sha256) now
        ≡ accepted)
      × (config.is_allowed event.pubkey upload ≡ true)

  -- What holds of an upload that is stored.
  abbrev Checks : {F : Type 0} → ServerState F → Request → Text → Type 0
  Checks s req bytes =
      let sha256 = crates.sha256_hex bytes in
      (bytes ≢ [])
      × Authorized req.auth sha256 req.bound_at
      × (over config.requirements.max_size (length bytes) ≡ false)
      × (over_quota s.stored.database (pubkey_of req.auth) sha256 (length bytes) ≡ false)
      × (mime_allowed config.requirements
            (mime_or_detected (extract_content_type req.content_type) bytes)
          ≡ true)

module _ {F : Type 0} (tokens_for : ℕ → F → ℕ) (crypto : Crypto) (crates : Crates)
    (config : Config) where
  -- An upload that is answered with OK, with what holds of it.
  abbrev pub Outcome : ServerState F → Request → State → Type 0
  Outcome s req after =
      (bytes : Text) × (req.body ≡ read bytes)
      × Checks crypto crates config s req bytes
      × (after
          ≡ (store crates s.stored (context_of req.auth)
              (mime_or_detected (extract_content_type req.content_type) bytes)
              (owner_name (pubkey_of req.auth)) bytes req.stored_at).0)

  stored_as-ok :
      (s : ServerState F) (req : Request) (bytes mime : Text) (c : Checked (Unit {0}))
      → c ≢ refuse status_ok
      → (stored_as tokens_for crypto crates config s req bytes mime c).1 ≡ status_ok
      → (c ≡ pass tt)
        × ((stored_as tokens_for crypto crates config s req bytes mime c).0.stored
            ≡ (store crates s.stored
                (context_of req.auth)
                mime
                (owner_name (pubkey_of req.auth))
                bytes
                req.stored_at).0)
  stored_as-ok s req bytes mime (refuse code) n h = absurd (n (ap (λ x. refuse x) h))
  stored_as-ok s req bytes mime (pass tt) n h = (refl, refl)

  storable-pass :
      (s : ServerState F) (req : Request) (sha256 bytes mime : Text)
      → storable config.requirements s.stored.database (pubkey_of req.auth) sha256 bytes mime
        ≡ pass tt
      → (over config.requirements.max_size (length bytes) ≡ false)
        × (over_quota s.stored.database (pubkey_of req.auth) sha256 (length bytes) ≡ false)
        × (mime_allowed config.requirements mime ≡ true)
  unfolding storable
  storable-pass s req sha256 bytes mime h = ground (arith, h)

  storable-refused :
      (s : ServerState F) (req : Request) (sha256 bytes mime : Text)
      → storable config.requirements s.stored.database (pubkey_of req.auth) sha256 bytes mime
        ≢ refuse status_ok
  unfolding storable
  storable-refused s req sha256 bytes mime h = ground (arith, h)

  authorized :
      (auth : AuthHeader) (seen : ReplayCache) (sha256 : Text) (now bound_at : ℕ)
      → admitted crypto config auth now ≡ pass tt
      → (bind crypto config seen auth sha256 bound_at).1 ≡ accepted
      → Authorized crypto crates config auth sha256 bound_at
  unfolding admitted verify_auth_event
  authorized absent seen sha256 now bound_at h k = ground (arith, h)
  authorized malformed seen sha256 now bound_at h k = ground (arith, h)
  authorized (event_of event) seen sha256 now bound_at h k =
      let claims =
        verify_auth_event_claims crypto event (bytes_of "upload") config.base_url
          (bytes_of "/upload") (bytes_of "PUT") in
      (
        (mark_after-accepted crypto (claims (some sha256) bound_at) seen event bound_at k).0,
        ground (arith, h),
      )

  bound_to-ok :
      (s : ServerState F) (req : Request) (bytes : Text) (r : ReplayCache × AuthResult)
      → let mime = mime_or_detected (extract_content_type req.content_type) bytes in
        let sha256 = crates.sha256_hex bytes in
        (bound_to tokens_for crypto crates config s req bytes sha256 r).1 ≡ status_ok
        → (r.1 ≡ accepted)
          × (storable config.requirements s.stored.database (pubkey_of req.auth) sha256 bytes mime
              ≡ pass tt)
          × ((bound_to tokens_for crypto crates config s req bytes sha256 r).0.stored
              ≡ (store crates s.stored
                  (context_of req.auth)
                  mime
                  (owner_name (pubkey_of req.auth))
                  bytes
                  req.stored_at).0)
  bound_to-ok s req bytes (seen, rejected e) h = absurd (ground (arith, h))
  bound_to-ok s req bytes (seen, accepted) h =
      let mime = mime_or_detected (extract_content_type req.content_type) bytes in
      let sha256 = crates.sha256_hex bytes in
      let (passed, same) =
        stored_as-ok (record s { seen = seen }) req bytes mime
          (storable config.requirements s.stored.database (pubkey_of req.auth) sha256 bytes mime)
          (storable-refused s req sha256 bytes mime) h in
      (refl, passed, same)

  upload_body-ok :
      (s : ServerState F) (req : Request) (body : BodyResult)
      → req.body ≡ body
      → admitted crypto config req.auth req.checked_at ≡ pass tt
      → (upload_body tokens_for crypto crates config s req body).1 ≡ status_ok
      → Outcome s req (upload_body tokens_for crypto crates config s req body).0.stored
  upload_body-ok s req (failed too_large) e a = λ h. absurd (ground (arith, h))
  upload_body-ok s req (failed exhausted) e a = λ h. absurd (ground (arith, h))
  upload_body-ok s req (read bytes) e a = elim (Bool-cases (bytes == [])) [
    | inl f ↦ rw f (λ h. absurd (ground (arith, h)))
    | inr f ↦
        let sha256 = crates.sha256_hex bytes in
        let mime = mime_or_detected (extract_content_type req.content_type) bytes in
        rw f λ h.
          let (bound, passed, same) =
            bound_to-ok s req bytes (bind crypto config s.seen req.auth sha256 req.bound_at) h in
          let (small, quota, allowed) = storable-pass s req sha256 bytes mime passed in
          (
            bytes,
            e,
            (
              λ nil. ground (arith, f, (list_same_iff bytes []).1 nil),
              authorized req.auth s.seen sha256 req.checked_at req.bound_at a bound,
              small,
              quota,
              allowed,
            ),
            same,
          )
  ]

  admitted-refused :
      (auth : AuthHeader) (now : ℕ) → admitted crypto config auth now ≢ refuse status_ok
  unfolding admitted
  admitted-refused absent now h = ground (arith, h)
  admitted-refused malformed now h = ground (arith, h)
  admitted-refused (event_of event) now h = ground (arith, h)

  rate_checked-ok :
      (s : ServerState F) (req : Request) (r : Option (RateLimiter F) × Bool)
      → admitted crypto config req.auth req.checked_at ≡ pass tt
      → (rate_checked tokens_for crypto crates config s req r).1 ≡ status_ok
      → Outcome s req (rate_checked tokens_for crypto crates config s req r).0.stored
  rate_checked-ok s req (limiter, false) a h = absurd (ground (arith, h))
  rate_checked-ok s req (limiter, true) a h =
      upload_body-ok (record s { rate_limiter = limiter }) req req.body refl a h

  after_admission-ok :
      (s : ServerState F) (req : Request) (c : Checked (Unit {0}))
      → admitted crypto config req.auth req.checked_at ≡ c
      → (after_admission tokens_for crypto crates config s req c).1 ≡ status_ok
      → Outcome s req (after_admission tokens_for crypto crates config s req c).0.stored
  after_admission-ok s req (refuse code) a h =
      absurd (admitted-refused req.auth req.checked_at (a ∙ ap (λ x. refuse x) h))
  after_admission-ok s req (pass tt) a h =
      rate_checked-ok s req
        (limited tokens_for s.rate_limiter (owner_name (pubkey_of req.auth)) req.limited_at_ms
          req.cleaned_at_ms)
        a h

  -- An upload that is answered with OK has a body that is not empty, is no larger than the limit, is of
  -- an allowed type and is within its owner's quota; it has an event whose claims hold for these bytes, of
  -- a key that may upload, unless it has no event and none is required; and it is stored as `store` does.
  pub handle_upload-accepted :
      (s : ServerState F) (req : Request)
      → (handle_upload tokens_for crypto crates config s req).1 ≡ status_ok
      → Outcome s req (handle_upload tokens_for crypto crates config s req).0.stored
  unfolding handle_upload
  handle_upload-accepted s req =
      after_admission-ok s req (admitted crypto config req.auth req.checked_at) refl
