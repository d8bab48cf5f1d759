-- ===== src/Server/Nip96/Stored.antt =====
-- What an upload over NIP-96 may change.
use blossom_rs.Prelude.{
  ℕ, ◌≡◌, ◌⊎◌, refl, Bool, true, false, Option, none, some, [], ◌==◌, nat_key, list_key, Text,
  bytes_of, Bool-cases, inl, inr,
}
use blossom_rs.Access.{upload}
use blossom_rs.Auth.{NostrEvent, AuthResult, accepted, rejected, Crypto}
use blossom_rs.Auth.Claims.{verify_auth_event_claims}
use blossom_rs.Auth.Single.{verify_auth_event, mark_after-accepted}
use blossom_rs.RateLimit.{RateLimiter}
use blossom_rs.ReplayCache.{ReplayCache}
use blossom_rs.Server.Body.{BodyResult, read, failed}
use blossom_rs.Server.Upload.{
  Config, ServerState, AuthHeader, absent, malformed, event_of, Request, Checked, pass, refuse,
  extract_content_type, mime_or_detected, limited,
}
use blossom_rs.Server.{State}
use blossom_rs.Server.Nip96.{
  n96_storable, n96_store, n96_stored, n96_bound, n96_body, n96_limited, n96_claimed,
  n96_upload_with, handle_nip96_upload,
}

module _ {F : Type 0} (crypto : Crypto) (config : Config) (tokens_for : ℕ → F → ℕ)
    (sha256_hex : Text → Text) where
  -- The bytes of the body are stored, for an event whose claims hold for these bytes, of a key that may
  -- upload, and they pass the checks.
  abbrev pub StoredFor : ServerState F → Request → State → Type 0
  StoredFor s req after =
      (event : NostrEvent) × (bytes : Text) × (req.auth ≡ event_of event)
      × (req.body ≡ read bytes)
      × (config.is_allowed event.pubkey upload ≡ true)
      × (verify_auth_event_claims crypto event (bytes_of "upload") config.base_url (bytes_of "/n96")
            (bytes_of "POST") (some (sha256_hex bytes)) req.bound_at
          ≡ accepted)
      × (let content_type = mime_or_detected (extract_content_type req.content_type) bytes in
          (n96_storable crypto config tokens_for sha256_hex s.stored.database event.pubkey
              (sha256_hex bytes) bytes content_type
            ≡ pass tt)
          × (after
              ≡ (n96_store crypto config tokens_for sha256_hex s.stored event.pubkey
                  (sha256_hex bytes) bytes content_type req.stored_at).0))

  n96_stored-cases :
      (s : ServerState F) (req : Request) (pubkey bytes content_type : Text)
      (c : Checked (Unit {0}))
      → let t =
          (n96_stored crypto config tokens_for sha256_hex s req pubkey bytes content_type c).0 in
        (t.stored ≡ s.stored)
        ⊎ ((c ≡ pass tt)
            × (t.stored
                ≡ (n96_store crypto config tokens_for sha256_hex s.stored pubkey
                    (sha256_hex bytes)
                    bytes
                    content_type
                    req.stored_at).0))
  n96_stored-cases s req pubkey bytes content_type (refuse code) = inl refl
  n96_stored-cases s req pubkey bytes content_type (pass tt) = inr (refl, refl)

  n96_bound-cases :
      (s : ServerState F) (req : Request) (event : NostrEvent) (bytes : Text)
      (r : ReplayCache × AuthResult)
      → req.auth ≡ event_of event
      → req.body ≡ read bytes
      → config.is_allowed event.pubkey upload ≡ true
      → (r.1 ≡ accepted
          → verify_auth_event_claims crypto event
              (bytes_of "upload")
              config.base_url
              (bytes_of "/n96")
              (bytes_of "POST")
              (some (sha256_hex bytes))
              req.bound_at
            ≡ accepted)
      → let t = (n96_bound crypto config tokens_for sha256_hex s req event.pubkey bytes r).0 in
        (t.stored ≡ s.stored) ⊎ StoredFor s req t.stored
  n96_bound-cases s req event bytes (seen, rejected e) a b may h = inl refl
  n96_bound-cases s req event bytes (seen, accepted) a b may h =
      let content_type = mime_or_detected (extract_content_type req.content_type) bytes in
      elim (n96_stored-cases (record s { seen = seen }) req event.pubkey bytes content_type
        (n96_storable crypto config tokens_for sha256_hex s.stored.database event.pubkey
          (sha256_hex bytes) bytes content_type)) [
            | inl same ↦ inl same
            | inr (passed, stored) ↦ inr (event, bytes, a, b, may, h refl, (passed, stored))
          ]

  n96_body-cases :
      (s : ServerState F) (req : Request) (event : NostrEvent) (body : BodyResult)
      → req.auth ≡ event_of event
      → req.body ≡ body
      → config.is_allowed event.pubkey upload ≡ true
      → let t = (n96_body crypto config tokens_for sha256_hex s req event body).0 in
        (t.stored ≡ s.stored) ⊎ StoredFor s req t.stored
  unfolding verify_auth_event
  n96_body-cases s req event (failed e) a b may = inl refl
  n96_body-cases s req event (read bytes) a b may = elim (Bool-cases (bytes == [])) [
    | inl nothing ↦ rw nothing (inl refl)
    | inr something ↦
        let claims =
          verify_auth_event_claims crypto event (bytes_of "upload") config.base_url
            (bytes_of "/n96") (bytes_of "POST") (some (sha256_hex bytes)) req.bound_at in
        rw something (
          n96_bound-cases s req event bytes
            (verify_auth_event crypto s.seen event (bytes_of "upload") config.base_url
              (bytes_of "/n96") (bytes_of "POST") (some (sha256_hex bytes)) req.bound_at)
            a b may (λ k. (mark_after-accepted crypto claims s.seen event req.bound_at k).0))
  ]

  n96_limited-cases :
      (s : ServerState F) (req : Request) (event : NostrEvent) (r : Option (RateLimiter F) × Bool)
      → req.auth ≡ event_of event
      → config.is_allowed event.pubkey upload ≡ true
      → let t = (n96_limited crypto config tokens_for sha256_hex s req event r).0 in
        (t.stored ≡ s.stored) ⊎ StoredFor s req t.stored
  n96_limited-cases s req event (limiter, false) a may = inl refl
  n96_limited-cases s req event (limiter, true) a may =
      n96_body-cases (record s { rate_limiter = limiter }) req event req.body a refl may

  n96_claimed-cases :
      (s : ServerState F) (req : Request) (event : NostrEvent) (r : AuthResult)
      → req.auth ≡ event_of event
      → let t = (n96_claimed crypto config tokens_for sha256_hex s req event r).0 in
        (t.stored ≡ s.stored) ⊎ StoredFor s req t.stored
  n96_claimed-cases s req event (rejected e) a = inl refl
  n96_claimed-cases s req event accepted a =
      elim (Bool-cases (config.is_allowed event.pubkey upload)) [
        | inl may ↦ rw may (
            n96_limited-cases s req event
              (limited tokens_for s.rate_limiter event.pubkey req.limited_at_ms req.cleaned_at_ms) a
              may)
        | inr not_allowed ↦ rw not_allowed (inl refl)
      ]

  n96_upload_with-cases :
      (s : ServerState F) (req : Request) (auth : AuthHeader)
      → req.auth ≡ auth
      → let t = (n96_upload_with crypto config tokens_for sha256_hex s req auth).0 in
        (t.stored ≡ s.stored) ⊎ StoredFor s req t.stored
  unfolding verify_auth_event_claims
  n96_upload_with-cases s req absent a = inl refl
  n96_upload_with-cases s req malformed a = inl refl
  n96_upload_with-cases s req (event_of event) a =
      n96_claimed-cases s req event
        (verify_auth_event_claims crypto event (bytes_of "upload") config.base_url (bytes_of "/n96")
          (bytes_of "POST") none req.checked_at)
        a

  -- An upload over NIP-96 leaves the blobs, the metadata and the LFS versions as they are, whatever the
  -- answer, unless it has an event whose claims hold for the bytes of its body, of a key that may upload,
  -- and the bytes pass the checks of type, size and quota: then they are stored as they are.
  pub handle_nip96_upload-guarded :
      (s : ServerState F) (req : Request)
      → let t = (handle_nip96_upload crypto config tokens_for sha256_hex s req).0 in
        (t.stored ≡ s.stored) ⊎ StoredFor s req t.stored
  unfolding handle_nip96_upload
  handle_nip96_upload-guarded s req = n96_upload_with-cases s req req.auth refl
