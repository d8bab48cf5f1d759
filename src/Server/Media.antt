-- ===== src/Server/Media.antt =====
-- handle_media_upload of src/server/mod.rs. The processor and its deadline are a parameter.
pub mod Guarded
use blossom_rs.Prelude.{
  ℕ, ◌≡◌, ◌⊎◌, refl, ap, sym, ◌∙◌, subst, Bool, true, false, Option, none, some, [], ◌==◌, nat_key,
  list_key, pair_key, length, Text, bytes_of, Bool-cases, inl, inr, if◌then◌else◌,
}
use blossom_rs.Access.{upload}
use blossom_rs.Auth.{NostrEvent, accepted, Crypto}
use blossom_rs.Auth.Claims.{verify_auth_event_claims}
use blossom_rs.Db.{Result, is_upload_owner, check_quota, record_upload}
use blossom_rs.Server.{State, insert_with_hash, owned}
use blossom_rs.Server.Body.{BodyResult, read, failed}
use blossom_rs.Server.Entry.{entered, marked, entered-Entered, marked-Marked}
use blossom_rs.Server.Read.{detect_mime}
use blossom_rs.Server.Store.{
  StatusCode, status_of, bad_request, unsupported_media_type, service_unavailable,
  internal_server_error, insufficient_storage, not_implemented, unprocessable_entity,
  request_timeout,
}
use blossom_rs.Server.Upload.{Config, ServerState, event_of, Request, status_of_body, mime_allowed}

-- What is stored of a processed medium; its measures are in the answer alone.
pub record MediaResult : Type 0 where
  pub bytes : Text
  pub mime_type : Text
  pub phash : Option ℕ

-- `process_media_with_deadline`.
pub data MediaOutcome : Type 0 where
  processed : MediaResult → MediaOutcome
  processing_failed : MediaOutcome
  worker_failed : MediaOutcome
  timed_out : MediaOutcome

abbrev pub is_over : Result (Unit {0}) → Bool
is_over (Result.ok u) = false
is_over (Result.err e) = true

-- `processor` takes the bytes and their type; `free_slot` says whether a permit of the processing is free.
module _ {F : Type 0} (crypto : Crypto) (config : Config) (tokens_for : ℕ → F → ℕ)
    (sha256_hex : Text → Text) (processor : Option (Text → Text → MediaOutcome))
    (free_slot : Bool) where
  unfoldable pub store_media : State → Text → MediaResult → ℕ → State × StatusCode
  unfolding insert_with_hash record_upload
  store_media s pubkey m now =
      let sha256 = sha256_hex m.bytes in
      let (database, result) = record_upload s.database (record {
        sha256 = sha256;
        size = length m.bytes;
        mime_type = m.mime_type;
        pubkey = pubkey;
        created_at = now;
        phash = m.phash;
      }) in
      (
        record s {
          backend = insert_with_hash s.backend m.bytes sha256 (length m.bytes);
          database = database;
        },
        status_of result,
      )

  abbrev pub media_quota : State → Text → MediaResult → Bool
  media_quota s pubkey m =
      let size = length m.bytes in
      is_over (
        check_quota s.database pubkey
          (if owned (is_upload_owner s.database (sha256_hex m.bytes) pubkey) then 0 else size))

  abbrev pub media_done :
      Request → ServerState F → NostrEvent → MediaOutcome → ServerState F × StatusCode
  media_done req s event processing_failed = (s, unprocessable_entity)
  media_done req s event worker_failed = (s, internal_server_error)
  media_done req s event timed_out = (s, request_timeout)
  media_done req s event (processed m) =
      if media_quota s.stored event.pubkey m
      then (s, insufficient_storage)
      else (let (stored, code) = store_media s.stored event.pubkey m req.stored_at in
          (record s { stored = stored }, code))

  abbrev pub media_marked :
      (Text → Text → MediaOutcome)
      → Text
      → Request
      → ServerState F
      → NostrEvent
      → ServerState F × StatusCode
  media_marked process bytes req s event =
      if mime_allowed config.requirements (detect_mime bytes)
      then media_done req s event (process bytes (detect_mime bytes))
      else (s, unsupported_media_type)

  abbrev pub media_body :
      (Text → Text → MediaOutcome)
      → Request
      → ServerState F
      → NostrEvent
      → BodyResult
      → ServerState F × StatusCode
  media_body process req s event (failed e) = (s, status_of_body e)
  media_body process req s event (read bytes) =
      if bytes == []
      then (s, bad_request)
      else marked crypto config tokens_for (bytes_of "/media") (bytes_of "PUT") upload s req event
          (sha256_hex bytes) (media_marked process bytes req)

  abbrev pub media_entered :
      Option (Text → Text → MediaOutcome)
      → Request
      → ServerState F
      → NostrEvent
      → ServerState F × StatusCode
  media_entered none req s event = (s, not_implemented)
  media_entered (some process) req s event =
      if free_slot then media_body process req s event req.body else (s, service_unavailable)

  unfoldable pub handle_media_upload : ServerState F → Request → ServerState F × StatusCode
  unfolding entered marked mime_allowed detect_mime store_media is_upload_owner check_quota
  handle_media_upload s req =
      entered crypto config tokens_for (bytes_of "/media") (bytes_of "PUT") upload s req req.auth
        (media_entered processor req)
