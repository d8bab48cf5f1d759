-- ===== src/Server/Upload/Refused.antt =====
-- What an upload that is refused leaves.
use blossom_rs.Prelude.{
  ℕ, ◌≡◌, ◌≢◌, refl, Bool, true, false, Option, Text, ◌==◌, list_key, nat_key, Bool-cases, inl, inr,
  [], ◌⊎◌,
}
use blossom_rs.Auth.{AuthResult, accepted, rejected, Crypto}
use blossom_rs.ReplayCache.{ReplayCache}
use blossom_rs.RateLimit.{RateLimiter}
use blossom_rs.Db.{Result}
use blossom_rs.Server.{State}
use blossom_rs.Server.Body.{BodyResult, read, failed}
use blossom_rs.Server.Encode.{Crates}
use blossom_rs.Server.Store.{StatusCode, status_ok, internal_server_error, status_of, store}
use blossom_rs.Lfs.{LfsContext}
use blossom_rs.Server.Upload.{
  Config, ServerState, Request, Checked, pass, refuse, storable, admitted, bind, limited, stored_as,
  bound_to, upload_body, rate_checked, after_admission, handle_upload, context_of, owner_name,
  pubkey_of, mime_or_detected, extract_content_type,
}

-- The blobs, the database and the LFS versions are as before, or the status is one of two.
abbrev Kept : {F : Type 0} → ServerState F → ServerState F × StatusCode → Type 0
Kept s r = r.1 ≢ status_ok → r.1 ≢ internal_server_error → r.0.stored ≡ s.stored

status_of-either :
    (r : Result (Unit {0})) → (status_of r ≡ status_ok) ⊎ (status_of r ≡ internal_server_error)
status_of-either (Result.ok u) = inl refl
status_of-either (Result.err e) = inr refl

store-status :
    (crates : Crates) (s : State) (ctx : LfsContext) (mime pubkey bytes : Text) (now : ℕ)
    → ((store crates s ctx mime pubkey bytes now).1 ≡ status_ok)
      ⊎ ((store crates s ctx mime pubkey bytes now).1 ≡ internal_server_error)
unfolding store
store-status crates s ctx mime pubkey bytes now = status_of-either _

module _ {F : Type 0} (tokens_for : ℕ → F → ℕ) (crypto : Crypto) (crates : Crates)
    (config : Config) where
  stored_as-Kept :
      (s : ServerState F) (req : Request) (bytes mime : Text) (c : Checked (Unit {0}))
      → Kept s (stored_as tokens_for crypto crates config s req bytes mime c)
  stored_as-Kept s req bytes mime (refuse code) p q = refl
  stored_as-Kept s req bytes mime (pass u) p q =
      elim (store-status crates s.stored (context_of req.auth) mime
        (owner_name (pubkey_of req.auth)) bytes req.stored_at) [
          | inl e ↦ absurd (p e)
          | inr e ↦ absurd (q e)
        ]

  bound_to-Kept :
      (s : ServerState F) (req : Request) (bytes sha256 : Text) (r : ReplayCache × AuthResult)
      → Kept s (bound_to tokens_for crypto crates config s req bytes sha256 r)
  bound_to-Kept s req bytes sha256 (seen, rejected e) p q = refl
  bound_to-Kept s req bytes sha256 (seen, accepted) p q =
      let mime = mime_or_detected (extract_content_type req.content_type) bytes in
      stored_as-Kept (record s { seen = seen }) req bytes mime
        (storable config.requirements s.stored.database (pubkey_of req.auth) sha256 bytes mime) p q

  upload_body-Kept :
      (s : ServerState F) (req : Request) (body : BodyResult)
      → Kept s (upload_body tokens_for crypto crates config s req body)
  upload_body-Kept s req (failed e) = λ p q. refl
  upload_body-Kept s req (read bytes) = elim (Bool-cases (bytes == [])) [
    | inl e ↦ rw e (λ p q. refl)
    | inr e ↦ rw e (
        bound_to-Kept s req bytes (crates.sha256_hex bytes)
          (bind crypto config s.seen req.auth (crates.sha256_hex bytes) req.bound_at))
  ]

  rate_checked-Kept :
      (s : ServerState F) (req : Request) (r : Option (RateLimiter F) × Bool)
      → Kept s (rate_checked tokens_for crypto crates config s req r)
  rate_checked-Kept s req (limiter, false) p q = refl
  rate_checked-Kept s req (limiter, true) p q =
      upload_body-Kept (record s { rate_limiter = limiter }) req req.body p q

  after_admission-Kept :
      (s : ServerState F) (req : Request) (c : Checked (Unit {0}))
      → Kept s (after_admission tokens_for crypto crates config s req c)
  after_admission-Kept s req (refuse code) = λ p q. refl
  after_admission-Kept s req (pass u) = rate_checked-Kept s req (
      limited tokens_for s.rate_limiter (owner_name (pubkey_of req.auth)) req.limited_at_ms
        req.cleaned_at_ms)

  -- An upload that is answered with neither OK nor an internal server error leaves the blobs, the
  -- database and the LFS versions as they are.
  pub handle_upload-refused :
      (s : ServerState F) (req : Request)
      → (handle_upload tokens_for crypto crates config s req).1 ≢ status_ok
      → (handle_upload tokens_for crypto crates config s req).1 ≢ internal_server_error
      → (handle_upload tokens_for crypto crates config s req).0.stored ≡ s.stored
  unfolding handle_upload
  handle_upload-refused s req =
      after_admission-Kept s req (admitted crypto config req.auth req.checked_at)
