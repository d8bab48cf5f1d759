-- ===== src/Transport/Handlers.antt =====
-- src/transport/iroh_transport.rs: handle_get, handle_head, handle_upload, handle_delete and
-- handle_list. A handler gives the response line and the bytes after it.
pub mod Same
pub mod ReadBack
use blossom_rs.Prelude.{
  ℕ, Bool, true, false, Option, none, some, List, [], ◌∷◌, ◌++◌, ◌==◌, nat_key, list_key, pair_key,
  not, ◌&&◌, ltb, map, length, if◌then◌else◌, Text, bytes_of, to_string,
}
use blossom_rs.Access.{Action, upload, Role, admin, member, denied}
use blossom_rs.Db.{
  MemoryDatabase, Result, UploadRecord, is_upload_owner, check_quota, upload_owner_count,
  delete_upload_owner, delete_upload, list_uploads_by_pubkey, record_upload,
}
use blossom_rs.Lfs.{Codec, MemoryLfsVersionDatabase, get_by_sha256}
use blossom_rs.Locks.{LockRecord}
use blossom_rs.Server.{State, exists, get_blob, owned, rebase, deltas_of, forget, delete_blob}
use blossom_rs.Server.Encode.{Crates, encode_upload}
use blossom_rs.Server.Read.{BlobDescriptor, octet_stream, served, descriptor_of}
use blossom_rs.Server.Store.{insert_new, record_lfs}
use blossom_rs.Server.Upload.{Config, over, owner_name}
use blossom_rs.Transport.{Request, Response, Status}
use blossom_rs.Transport.Binding.{parse_lfs_from_request}
use blossom_rs.Transport.Gate.{Texts}

-- What serde makes of the values that the handlers answer with.
pub record Json : Type 1 where
  pub Value : Type 0
  pub of_descriptor : BlobDescriptor → Value
  pub of_lock : LockRecord → Value
  pub of_locks : List LockRecord → Option Text → Value
  pub of_shares : List LockRecord → List LockRecord → Option Text → Value
  pub list_to_vec : List BlobDescriptor → Text

module _ (json : Json) where
  abbrev pub Reply : Type 0
  Reply = Response json.Value × Text

  abbrev pub reply : Status → Text → Reply
  reply status message = (
    record { status = status; body_len = 0; content_type = []; error = message; descriptor = none },
    [],
  )

  abbrev pub describe : json.Value → Reply
  describe value = (
    record {
      status = Status.ok;
      body_len = 0;
      content_type = [];
      error = [];
      descriptor = some value;
    },
    [],
  )

  abbrev pub with_body : Text → Text → Reply
  with_body content_type bytes = (
    record {
      status = Status.ok;
      body_len = length bytes;
      content_type = content_type;
      error = [];
      descriptor = none;
    },
    bytes,
  )

  abbrev original_size : Option MemoryLfsVersionDatabase → Text → ℕ
  original_size none sha256 = 0
  original_size (some db) sha256 = elim (get_by_sha256 db sha256) [
    | none ↦ 0
    | some v ↦ v.original_size
  ]

  unfoldable pub handle_head : State → Text → Reply
  unfolding exists
  handle_head s sha256 =
      if exists s.backend sha256
      then (
        record {
          status = Status.ok;
          body_len = original_size s.lfs_version_db sha256;
          content_type = [];
          error = [];
          descriptor = none;
        },
        [],
      )
      else reply Status.not_found []

  module _ (texts : Texts) where
    abbrev listed : Text → Result (List UploadRecord) → Reply
    listed base_url (Result.err e) = reply Status.error (texts.of_db e)
    listed base_url (Result.ok records) =
        with_body (bytes_of "application/json")
          (json.list_to_vec (map (descriptor_of base_url) records))

    unfoldable pub handle_list : State → Text → Text → Reply
    handle_list s base_url pubkey = listed base_url (list_uploads_by_pubkey s.database pubkey)

  module _ (crates : Crates) where
    abbrev got : State → Text → Option Text → Reply
    got s sha256 none = reply Status.not_found (bytes_of "not found")
    got s sha256 (some raw_data) =
        with_body octet_stream (served crates s s.lfs_version_db sha256 raw_data)

    unfoldable pub handle_get : State → Text → Reply
    unfolding get_blob
    handle_get s sha256 = got s sha256 (get_blob s.backend sha256)

  module _ (texts : Texts) (crates : Crates) (config : Config) where
    -- The checks of `handle_upload`; `none` where it goes on.
    unfoldable pub upload_refusal : State → Text → Request → Option Text → Option Reply
    unfolding check_quota is_upload_owner
    upload_refusal s bytes req auth_pubkey =
        let pubkey = owner_name auth_pubkey in
        let size = length bytes in
        if bytes == []
        then some (reply Status.error (bytes_of "empty body"))
        else if config.requirements.require_auth && is_absent auth_pubkey
        then some (reply Status.unauthorized (bytes_of "auth required for upload"))
        else if not (config.is_allowed pubkey upload)
        then some (reply Status.forbidden (bytes_of "upload not allowed for this pubkey"))
        else if over config.requirements.max_size size
        then some (reply Status.error (too_big config.requirements.max_size))
        else quota_refusal bytes req (
            check_quota s.database pubkey
              (if owned (is_upload_owner s.database req.sha256 pubkey) then 0 else size))
      where
        is_absent : Option Text → Bool
        is_absent none = true
        is_absent (some pubkey) = false

        too_big : Option ℕ → Text
        too_big none = []
        too_big (some limit) =
            bytes_of "exceeds max upload size of " ++ to_string limit ++ bytes_of " bytes"

        quota_refusal : Text → Request → Result (Unit {0}) → Option Reply
        quota_refusal bytes req (Result.err e) = some (reply Status.forbidden (texts.of_db e))
        quota_refusal bytes req (Result.ok u) =
            if crates.sha256_hex bytes == req.sha256
            then none
            else some (reply Status.error (bytes_of "upload body SHA256 does not match request"))

    abbrev pub recorded : Text → ℕ → ℕ → Result (Unit {0}) → Reply
    recorded sha256 size now (Result.err e) =
        reply Status.error (bytes_of "metadata write failed: " ++ texts.of_db e)
    recorded sha256 size now (Result.ok u) = describe (
        json.of_descriptor (record {
          sha256 = sha256;
          size = size;
          content_type = some octet_stream;
          url = some (config.base_url ++ b'/' ∷ sha256);
          uploaded = some now;
        }))

    -- `handle_upload` from `parse_lfs_from_request` on.
    unfoldable pub store_upload : State → Text → Request → Text → ℕ → State × Reply
    unfolding encode_upload record_upload parse_lfs_from_request
    store_upload s bytes req pubkey now =
        let sha256 = crates.sha256_hex bytes in
        let size = length bytes in
        let ctx = parse_lfs_from_request req in
        let e = encode_upload crates s.lfs_version_db s.backend.blobs ctx bytes in
        let (database, result) = record_upload s.database (record {
          sha256 = sha256;
          size = size;
          mime_type = octet_stream;
          pubkey = pubkey;
          created_at = now;
          phash = none;
        }) in
        (
          record {
            backend = insert_new s.backend e.bytes sha256 size;
            database = database;
            lfs_version_db = record_lfs s.lfs_version_db ctx sha256 size e now;
          },
          recorded sha256 size now result,
        )

    abbrev upload_or : State → Text → Request → Option Text → ℕ → Option Reply → State × Reply
    upload_or s bytes req auth_pubkey now (some refusal) = (s, refusal)
    upload_or s bytes req auth_pubkey now none =
        store_upload s bytes req (owner_name auth_pubkey) now

    unfoldable pub handle_upload : State → Text → Request → Option Text → ℕ → State × Reply
    unfolding upload_refusal store_upload
    handle_upload s bytes req auth_pubkey now =
        upload_or s bytes req auth_pubkey now (upload_refusal s bytes req auth_pubkey)

  module _ (texts : Texts) (codec : Codec) (compress : Text → Option Text) where
    abbrev pub deleted_from : State → Text → MemoryDatabase × Result Bool → State × Reply
    deleted_from s sha256 (db, Result.err e) = (
      record s { database = db },
      reply Status.error (bytes_of "metadata delete failed: " ++ texts.of_db e),
    )
    deleted_from s sha256 (db, Result.ok found) = (
      record s { database = db; lfs_version_db = forget codec compress s.lfs_version_db sha256 },
      reply Status.ok [],
    )

    -- `handle_delete` from the rebasing of deltas on.
    unfoldable pub delete_content : State → Text → State × Reply
    unfolding rebase delete_blob delete_upload
    delete_content s sha256 =
        let hash = sha256 in
        let s = rebase codec compress s (deltas_of codec compress s.lfs_version_db hash) in
        let (backend, found) = delete_blob s.backend hash in
        if found
        then deleted_from (record s { backend = backend }) hash (delete_upload s.database sha256)
        else (record s { backend = backend }, reply Status.not_found (bytes_of "not found"))

    abbrev pub disowned : State → MemoryDatabase × Result Bool → State × Reply
    disowned s (db, Result.err e) = (
      record s { database = db },
      reply Status.error (bytes_of "failed to update blob ownership"),
    )
    disowned s (db, Result.ok found) = (record s { database = db }, reply Status.ok [])

    abbrev pub released : State → Text → Text → Result ℕ → State × Reply
    released s sha256 pubkey (Result.err e) =
        (s, reply Status.error (bytes_of "failed to count blob owners"))
    released s sha256 pubkey (Result.ok owner_count) =
        if ltb 1 owner_count
        then disowned s (delete_upload_owner s.database sha256 pubkey)
        else delete_content s sha256

    abbrev pub delete_by : Role → State → Text → Text → State × Reply
    delete_by denied s sha256 pubkey =
        (s, reply Status.forbidden (bytes_of "delete not allowed for this pubkey"))
    delete_by admin s sha256 pubkey = delete_content s sha256
    delete_by member s sha256 pubkey =
        if owned (is_upload_owner s.database sha256 pubkey)
        then released s sha256 pubkey (upload_owner_count s.database sha256)
        else (s, reply Status.forbidden (bytes_of "not the blob owner"))

    module _ (role : Text → Role) where
      unfoldable pub handle_delete : State → Text → Option Text → State × Reply
      unfolding delete_content is_upload_owner upload_owner_count delete_upload_owner
      handle_delete s sha256 none =
          (s, reply Status.unauthorized (bytes_of "auth required for delete"))
      handle_delete s sha256 (some pubkey) = delete_by (role pubkey) s sha256 pubkey
