-- ===== src/Server/Nip96.antt =====
-- src/server/nip96.rs: the upload, the list and the deletion of the NIP-96 interface.
pub mod Stranded
pub mod Paging
pub mod Stored
use blossom_rs.Prelude.{
  ℕ, ◌+◌, ◌-◌, ◌*◌, ◌%◌, ◌^◌, Bool, true, false, Option, none, some, List, [], ◌∷◌, ◌++◌, ◌==◌,
  nat_key, list_key, pair_key, map, length, take, drop, ltb, if◌then◌else◌, Text, bytes_of,
}
use blossom_rs.Access.{Action, upload, Role, admin, member, denied}
use blossom_rs.Auth.{NostrEvent, AuthResult, accepted, rejected, Crypto}
use blossom_rs.Auth.Claims.{verify_auth_event_claims}
use blossom_rs.Auth.Single.{verify_auth_event}
use blossom_rs.Db.{
  MemoryDatabase, Result, DbError, UploadRecord, is_upload_owner, upload_owner_count,
  delete_upload_owner, delete_upload, list_uploads_by_pubkey, check_quota, record_upload,
}
use blossom_rs.RateLimit.{RateLimiter}
use blossom_rs.ReplayCache.{ReplayCache}
use blossom_rs.Server.{State, insert_with_hash, delete_blob, owned}
use blossom_rs.Server.Body.{BodyResult, read, failed}
use blossom_rs.Server.Read.{is_valid_sha256, detect_mime}
use blossom_rs.Server.Store.{
  StatusCode, status_ok, bad_request, unauthorized, forbidden, not_found, payload_too_large,
  unsupported_media_type, too_many_requests, internal_server_error, insufficient_storage, status_of,
}
use blossom_rs.Server.Upload.{
  Config, ServerState, AuthHeader, absent, malformed, event_of, Request, Checked, pass, refuse,
  status_of_body, extract_content_type, mime_or_detected, mime_allowed, over, limited,
}

-- What the deletions of this interface and of the administration do to a blob: the backend and the
-- metadata forget it. 404; 500; 200.
abbrev pub forgotten : State → MemoryDatabase × Result Bool → State × StatusCode
forgotten s (db, Result.err e) = (record s { database = db }, internal_server_error)
forgotten s (db, Result.ok found) = (record s { database = db }, status_ok)

unfoldable pub delete_plain : State → Text → State × StatusCode
unfolding delete_blob delete_upload
delete_plain s sha256 =
    let (backend, found) = delete_blob s.backend sha256 in
    if found
    then forgotten (record s { backend = backend }) (delete_upload s.database sha256)
    else (record s { backend = backend }, not_found)

abbrev pub disowned_plain : State → MemoryDatabase × Result Bool → State × StatusCode
disowned_plain s (db, Result.err e) = (record s { database = db }, internal_server_error)
disowned_plain s (db, Result.ok found) = (record s { database = db }, status_ok)

abbrev pub released_plain : State → Text → Text → Result ℕ → State × StatusCode
released_plain s sha256 pubkey (Result.err e) = (s, internal_server_error)
released_plain s sha256 pubkey (Result.ok owner_count) =
    if ltb 1 owner_count
    then disowned_plain s (delete_upload_owner s.database sha256 pubkey)
    else delete_plain s sha256

-- The deletion for a key, by its role.
unfoldable pub delete_plain_as : Role → State → Text → Text → State × StatusCode
unfolding delete_plain is_upload_owner upload_owner_count delete_upload_owner
delete_plain_as denied s sha256 pubkey = (s, forbidden)
delete_plain_as admin s sha256 pubkey = delete_plain s sha256
delete_plain_as member s sha256 pubkey =
    if owned (is_upload_owner s.database sha256 pubkey)
    then released_plain s sha256 pubkey (upload_owner_count s.database sha256)
    else (s, forbidden)

-- The records of a page. `saturating_sub` stops at 0; the product is of `u32`s and wraps in a release
-- build.
unfoldable pub page_of : List UploadRecord → ℕ → ℕ → List UploadRecord
page_of records page count = take count (drop ((page - 1) * count % 2 ^ 32) records)

-- How many files there are, and those of the page.
pub data ListResponse : Type 0 where
  refused : StatusCode → ListResponse
  page_listed : ℕ → List UploadRecord → ListResponse

abbrev pub paged : Result (List UploadRecord) → ℕ → ℕ → ListResponse
paged (Result.err e) page_no count = refused internal_server_error
paged (Result.ok records) page_no count =
    page_listed (length records) (page_of records page_no count)

abbrev pub exceeds_quota : Result (Unit {0}) → Bool
exceeds_quota (Result.ok u) = false
exceeds_quota (Result.err (DbError.quota_exceeded used requested limit)) = true
exceeds_quota (Result.err DbError.not_found) = false
exceeds_quota (Result.err (DbError.internal m)) = false

module _ {F : Type 0} (crypto : Crypto) (config : Config) where
  abbrev list_checked :
      ServerState F → NostrEvent → ℕ → ℕ → ReplayCache × AuthResult → ServerState F × ListResponse
  list_checked s event page_no count (seen, rejected e) =
      (record s { seen = seen }, refused unauthorized)
  list_checked s event page_no count (seen, accepted) = (
    record s { seen = seen },
    paged (list_uploads_by_pubkey s.stored.database event.pubkey) page_no count,
  )

  unfoldable pub handle_nip96_list :
      ServerState F → AuthHeader → ℕ → ℕ → ℕ → ServerState F × ListResponse
  unfolding verify_auth_event page_of
  handle_nip96_list s absent page_no count now = (s, refused unauthorized)
  handle_nip96_list s malformed page_no count now = (s, refused unauthorized)
  handle_nip96_list s (event_of event) page_no count now = list_checked s event page_no count (
      verify_auth_event crypto s.seen event (bytes_of "get") config.base_url (bytes_of "/n96")
        (bytes_of "GET") none now)

  module _ (role : Text → Role) where
    abbrev pub n96_delete_checked :
        ServerState F → NostrEvent → Text → ReplayCache × AuthResult → ServerState F × StatusCode
    n96_delete_checked s event sha256 (seen, rejected e) = (record s { seen = seen }, unauthorized)
    n96_delete_checked s event sha256 (seen, accepted) =
        let (stored, code) = delete_plain_as (role event.pubkey) s.stored sha256 event.pubkey in
        (record s { stored = stored; seen = seen }, code)

    abbrev pub n96_delete_with : ServerState F → AuthHeader → Text → ℕ → ServerState F × StatusCode
    n96_delete_with s absent sha256 now = (s, unauthorized)
    n96_delete_with s malformed sha256 now = (s, unauthorized)
    n96_delete_with s (event_of event) sha256 now = n96_delete_checked s event sha256 (
        verify_auth_event crypto s.seen event (bytes_of "delete") config.base_url
          (bytes_of "/n96/" ++ sha256) (bytes_of "DELETE") (some sha256) now)

    unfoldable pub handle_nip96_delete :
        ServerState F → AuthHeader → Text → ℕ → ServerState F × StatusCode
    unfolding verify_auth_event delete_plain_as is_valid_sha256
    handle_nip96_delete s auth sha256 now =
        if is_valid_sha256 sha256 then n96_delete_with s auth sha256 now else (s, bad_request)

  module _ (tokens_for : ℕ → F → ℕ) (sha256_hex : Text → Text) where
    -- The checks of the bytes, in their order.
    unfoldable pub n96_storable : MemoryDatabase → Text → Text → Text → Text → Checked (Unit {0})
    unfolding mime_allowed check_quota is_upload_owner
    n96_storable db pubkey sha256 bytes content_type =
        if mime_allowed config.requirements content_type
        then (if over config.requirements.max_size (length bytes)
            then refuse payload_too_large
            else if exceeds_quota (
                check_quota db pubkey
                  (if owned (is_upload_owner db sha256 pubkey) then 0 else length bytes))
            then refuse insufficient_storage
            else pass tt)
        else refuse unsupported_media_type

    -- `try_insert`, which writes the bytes over what is stored, and the record.
    unfoldable pub n96_store : State → Text → Text → Text → Text → ℕ → State × StatusCode
    unfolding insert_with_hash record_upload
    n96_store s pubkey sha256 bytes content_type now =
        let (database, result) = record_upload s.database (record {
          sha256 = sha256;
          size = length bytes;
          mime_type = content_type;
          pubkey = pubkey;
          created_at = now;
          phash = none;
        }) in
        (
          record s {
            backend = insert_with_hash s.backend bytes sha256 (length bytes);
            database = database;
          },
          status_of result,
        )

    abbrev pub n96_stored :
        ServerState F
        → Request
        → Text
        → Text
        → Text
        → Checked (Unit {0})
        → ServerState F × StatusCode
    n96_stored s req pubkey bytes content_type (refuse code) = (s, code)
    n96_stored s req pubkey bytes content_type (pass u) =
        let (stored, code) =
          n96_store s.stored pubkey (sha256_hex bytes) bytes content_type req.stored_at in
        (record s { stored = stored }, code)

    abbrev pub n96_bound :
        ServerState F
        → Request
        → Text
        → Text
        → ReplayCache × AuthResult
        → ServerState F × StatusCode
    n96_bound s req pubkey bytes (seen, rejected e) = (record s { seen = seen }, unauthorized)
    n96_bound s req pubkey bytes (seen, accepted) =
        let content_type = mime_or_detected (extract_content_type req.content_type) bytes in
        n96_stored (record s { seen = seen }) req pubkey bytes content_type
          (n96_storable s.stored.database pubkey (sha256_hex bytes) bytes content_type)

    abbrev pub n96_body :
        ServerState F → Request → NostrEvent → BodyResult → ServerState F × StatusCode
    n96_body s req event (failed e) = (s, status_of_body e)
    n96_body s req event (read bytes) =
        if bytes == []
        then (s, bad_request)
        else n96_bound s req event.pubkey bytes (
            verify_auth_event crypto s.seen event (bytes_of "upload") config.base_url
              (bytes_of "/n96") (bytes_of "POST") (some (sha256_hex bytes)) req.bound_at)

    abbrev pub n96_limited :
        ServerState F
        → Request
        → NostrEvent
        → Option (RateLimiter F) × Bool
        → ServerState F × StatusCode
    n96_limited s req event (limiter, false) =
        (record s { rate_limiter = limiter }, too_many_requests)
    n96_limited s req event (limiter, true) =
        n96_body (record s { rate_limiter = limiter }) req event req.body

    abbrev pub n96_claimed :
        ServerState F → Request → NostrEvent → AuthResult → ServerState F × StatusCode
    n96_claimed s req event (rejected e) = (s, unauthorized)
    n96_claimed s req event accepted =
        if config.is_allowed event.pubkey upload
        then n96_limited s req event
            (limited tokens_for s.rate_limiter event.pubkey req.limited_at_ms req.cleaned_at_ms)
        else (s, forbidden)

    abbrev pub n96_upload_with : ServerState F → Request → AuthHeader → ServerState F × StatusCode
    n96_upload_with s req absent = (s, unauthorized)
    n96_upload_with s req malformed = (s, unauthorized)
    n96_upload_with s req (event_of event) = n96_claimed s req event (
        verify_auth_event_claims crypto event (bytes_of "upload") config.base_url (bytes_of "/n96")
          (bytes_of "POST") none req.checked_at)

    unfoldable pub handle_nip96_upload : ServerState F → Request → ServerState F × StatusCode
    unfolding verify_auth_event verify_auth_event_claims n96_storable n96_store detect_mime
    handle_nip96_upload s req = n96_upload_with s req req.auth
