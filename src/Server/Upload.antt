-- ===== src/Server/Upload.antt =====
-- src/server/mod.rs: handle_upload, the checks of an upload in their order, and what it changes. One
-- request at a time.
pub mod Refused
pub mod Accepted
mod Tests
use blossom_rs.Prelude.{
  ℕ, Bool, true, false, ◌||◌, ◌&&◌, ◌==◌, nat_key, list_key, Option, none, some, List, [], ◌∷◌, map,
  length, ltb, if◌then◌else◌, Text, bytes_of,
}
use blossom_rs.Access.{Action, upload, trim}
use blossom_rs.Auth.{NostrEvent, AuthResult, accepted, rejected, Crypto}
use blossom_rs.Auth.Claims.{verify_auth_event_claims, eq_ignore_ascii_case}
use blossom_rs.Auth.Single.{verify_auth_event}
use blossom_rs.ReplayCache.{ReplayCache}
use blossom_rs.RateLimit.{RateLimiter, check}
use blossom_rs.Db.{MemoryDatabase, Result, is_upload_owner, check_quota}
use blossom_rs.Lfs.{LfsContext, default_context, from_event}
use blossom_rs.Server.{State, owned}
use blossom_rs.Server.Body.{BodyError, too_large, exhausted, BodyResult, read, failed}
use blossom_rs.Server.Encode.{Crates}
use blossom_rs.Server.Read.{detect_mime, octet_stream}
use blossom_rs.Server.Store.{
  StatusCode, status_ok, bad_request, unauthorized, forbidden, payload_too_large,
  unsupported_media_type, too_many_requests, internal_server_error, service_unavailable,
  insufficient_storage, store,
}

pub record UploadRequirements : Type 0 where
  pub max_size : Option ℕ
  pub allowed_types : List Text
  pub require_auth : Bool

-- The part of `ServerState` that does not change; `is_allowed` is the access control's.
pub record Config : Type 0 where
  pub base_url : Text
  pub requirements : UploadRequirements
  pub is_allowed : Text → Action → Bool

-- The part that does, with the process's replay cache.
pub record ServerState (F : Type 0) : Type 0 where
  pub stored : State
  pub seen : ReplayCache
  pub rate_limiter : Option (RateLimiter F)

-- What the `authorization` header holds: nothing, no event, or an event.
pub data AuthHeader : Type 0 where
  absent : AuthHeader
  malformed : AuthHeader
  event_of : NostrEvent → AuthHeader

-- A request: its headers, what reading its body gives, and the clock at each use.
pub record Request : Type 0 where
  pub auth : AuthHeader
  pub body : BodyResult
  pub content_type : Option Text
  pub checked_at : ℕ
  pub limited_at_ms : ℕ
  pub cleaned_at_ms : ℕ
  pub bound_at : ℕ
  pub stored_at : ℕ

-- A check passes with what it found or ends the request.
pub data Checked (A : Type 0) : Type 0 where
  pass : A → Checked A
  refuse : StatusCode → Checked A

abbrev pub status_of_body : BodyError → StatusCode
status_of_body too_large = payload_too_large
status_of_body exhausted = service_unavailable

-- `extract_content_type`, of a header that is text.
abbrev pub extract_content_type : Option Text → Option Text
extract_content_type none = none
extract_content_type (some ct) = if ct == octet_stream then none else some ct

abbrev pub mime_or_detected : Option Text → Text → Text
mime_or_detected none data_raw = detect_mime data_raw
mime_or_detected (some ct) data_raw = ct

-- What stands before the first semicolon.
abbrev essence : Text → Text
essence [] = []
essence (c ∷ s) = let rest = essence s in if c == b';' then [] else c ∷ rest

abbrev any_type : List Text → Text → Bool
any_type [] normalized = false
any_type (t ∷ ts) normalized = eq_ignore_ascii_case (trim t) normalized || any_type ts normalized

-- The comparison ignores case, so that lowering the case of the type before it is left out.
unfoldable pub mime_allowed : UploadRequirements → Text → Bool
unfolding trim
mime_allowed requirements mime =
    requirements.allowed_types == [] || any_type requirements.allowed_types (trim (essence mime))

abbrev pub owner_name : Option Text → Text
owner_name none = bytes_of "anonymous"
owner_name (some pubkey) = pubkey

abbrev pub over : Option ℕ → ℕ → Bool
over none size = false
over (some limit) size = ltb limit size

abbrev refused_by : Result (Unit {0}) → Bool
refused_by (Result.ok u) = false
refused_by (Result.err e) = true

-- An upload by nobody has no quota.
abbrev pub over_quota : MemoryDatabase → Option Text → Text → ℕ → Bool
over_quota db none sha256 size = false
over_quota db (some owner) sha256 size =
    refused_by (check_quota db owner (if owned (is_upload_owner db sha256 owner) then 0 else size))

-- The checks of the bytes.
unfoldable pub storable :
    UploadRequirements → MemoryDatabase → Option Text → Text → Text → Text → Checked (Unit {0})
unfolding mime_allowed check_quota is_upload_owner
storable requirements db pubkey sha256 bytes mime =
    if over requirements.max_size (length bytes)
    then refuse payload_too_large
    else if over_quota db pubkey sha256 (length bytes)
    then refuse insufficient_storage
    else if mime_allowed requirements mime
    then pass tt
    else refuse unsupported_media_type

abbrev pub pubkey_of : AuthHeader → Option Text
pubkey_of absent = none
pubkey_of malformed = none
pubkey_of (event_of event) = some event.pubkey

abbrev pub context_of : AuthHeader → LfsContext
context_of absent = default_context
context_of malformed = default_context
context_of (event_of event) = from_event event

module _ {F : Type 0} (tokens_for : ℕ → F → ℕ) where
  abbrev pub limited : Option (RateLimiter F) → Text → ℕ → ℕ → Option (RateLimiter F) × Bool
  limited none key now_ms cleanup_ms = (none, true)
  limited (some l) key now_ms cleanup_ms =
      let (l', allowed) = check tokens_for l key now_ms cleanup_ms in (some l', allowed)

module _ (crypto : Crypto) (config : Config) where
  abbrev allowed_to : AuthResult → Text → Action → Checked (Unit {0})
  allowed_to (rejected e) pubkey action = refuse unauthorized
  allowed_to accepted pubkey action =
      if config.is_allowed pubkey action then pass tt else refuse forbidden

  -- The checks before the body is read.
  unfoldable pub admitted : AuthHeader → ℕ → Checked (Unit {0})
  unfolding verify_auth_event_claims
  admitted malformed now = refuse unauthorized
  admitted absent now = if config.requirements.require_auth then refuse unauthorized else pass tt
  admitted (event_of event) now =
      allowed_to
        (verify_auth_event_claims crypto event (bytes_of "upload") config.base_url
          (bytes_of "/upload") (bytes_of "PUT") none now)
        event.pubkey upload

  abbrev pub bind : ReplayCache → AuthHeader → Text → ℕ → ReplayCache × AuthResult
  bind seen absent sha256 now = (seen, accepted)
  bind seen malformed sha256 now = (seen, accepted)
  bind seen (event_of event) sha256 now =
      verify_auth_event crypto seen event (bytes_of "upload") config.base_url (bytes_of "/upload")
        (bytes_of "PUT") (some sha256) now

module _ {F : Type 0} (tokens_for : ℕ → F → ℕ) (crypto : Crypto) (crates : Crates)
    (config : Config) where
  abbrev stored_as :
      ServerState F → Request → Text → Text → Checked (Unit {0}) → ServerState F × StatusCode
  stored_as s req bytes mime (refuse code) = (s, code)
  stored_as s req bytes mime (pass u) =
      let (stored, code) =
        store crates s.stored (context_of req.auth) mime (owner_name (pubkey_of req.auth)) bytes
          req.stored_at in
      (record s { stored = stored }, code)

  abbrev bound_to :
      ServerState F → Request → Text → Text → ReplayCache × AuthResult → ServerState F × StatusCode
  bound_to s req bytes sha256 (seen, rejected e) = (record s { seen = seen }, unauthorized)
  bound_to s req bytes sha256 (seen, accepted) =
      let mime = mime_or_detected (extract_content_type req.content_type) bytes in
      stored_as (record s { seen = seen }) req bytes mime
        (storable config.requirements s.stored.database (pubkey_of req.auth) sha256 bytes mime)

  abbrev upload_body : ServerState F → Request → BodyResult → ServerState F × StatusCode
  upload_body s req (failed e) = (s, status_of_body e)
  upload_body s req (read bytes) =
      let sha256 = crates.sha256_hex bytes in
      if bytes == []
      then (s, bad_request)
      else bound_to s req bytes sha256 (bind crypto config s.seen req.auth sha256 req.bound_at)

  abbrev rate_checked :
      ServerState F → Request → Option (RateLimiter F) × Bool → ServerState F × StatusCode
  rate_checked s req (limiter, false) = (record s { rate_limiter = limiter }, too_many_requests)
  rate_checked s req (limiter, true) =
      upload_body (record s { rate_limiter = limiter }) req req.body

  abbrev after_admission : ServerState F → Request → Checked (Unit {0}) → ServerState F × StatusCode
  after_admission s req (refuse code) = (s, code)
  after_admission s req (pass u) = rate_checked s req (
      limited tokens_for s.rate_limiter (owner_name (pubkey_of req.auth)) req.limited_at_ms
        req.cleaned_at_ms)

  unfoldable pub handle_upload : ServerState F → Request → ServerState F × StatusCode
  unfolding admitted storable store verify_auth_event detect_mime
  handle_upload s req = after_admission s req (admitted crypto config req.auth req.checked_at)
