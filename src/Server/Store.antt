-- ===== src/Server/Store.antt =====
-- handle_upload of src/server/mod.rs, from the storage pipeline on: the backend, the LFS version and
-- the metadata of an upload that passed its checks.
use blossom_rs.Prelude.{
  ℕ, Option, none, some, length, nat_key, list_key, if◌then◌else◌, Text, bytes_of,
}
use blossom_rs.Db.{Result, record_upload}
use blossom_rs.Lfs.{
  LfsContext, LfsStorageType, raw, compressed, delta, LfsFileVersion, MemoryLfsVersionDatabase,
  record_version,
}
use blossom_rs.Lfs.Latest.{next_version}
use blossom_rs.Server.{State, MemoryBackend, insert_with_hash, exists}
use blossom_rs.Server.Encode.{Crates, Encoded, encode_upload}

-- The status codes of the handlers.
pub data StatusCode : Type 0 where
  status_ok : StatusCode
  bad_request : StatusCode
  unauthorized : StatusCode
  forbidden : StatusCode
  not_found : StatusCode
  payload_too_large : StatusCode
  unsupported_media_type : StatusCode
  too_many_requests : StatusCode
  internal_server_error : StatusCode
  service_unavailable : StatusCode
  bad_gateway : StatusCode
  insufficient_storage : StatusCode
  not_implemented : StatusCode
  unprocessable_entity : StatusCode
  request_timeout : StatusCode

abbrev pub delta_algo : LfsStorageType → Option Text
delta_algo raw = none
delta_algo compressed = none
delta_algo delta = some (bytes_of "xdelta3")

-- The version record of an upload. Its stored size is the size of the descriptor, which is that of the
-- bytes before the encoding.
abbrev pub version_of :
    MemoryLfsVersionDatabase → Text → Text → Text → ℕ → Encoded → ℕ → LfsFileVersion
version_of db repo path sha256 original_size e now = record {
  repo_id = repo;
  path = path;
  version = next_version db repo path;
  sha256 = sha256;
  base_sha256 = e.base_sha256;
  storage = e.storage;
  delta_algo = delta_algo e.storage;
  original_size = original_size;
  stored_size = original_size;
  created_at = now;
}

abbrev pub record_at :
    MemoryLfsVersionDatabase
    → Option Text
    → Option Text
    → Text
    → ℕ
    → Encoded
    → ℕ
    → MemoryLfsVersionDatabase
record_at db none path sha256 size e now = db
record_at db (some repo) none sha256 size e now = db
record_at db (some repo) (some path) sha256 size e now =
    (record_version db (version_of db repo path sha256 size e now)).0

abbrev pub record_lfs :
    Option MemoryLfsVersionDatabase
    → LfsContext
    → Text
    → ℕ
    → Encoded
    → ℕ
    → Option MemoryLfsVersionDatabase
record_lfs none ctx sha256 size e now = none
record_lfs (some db) ctx sha256 size e now =
    some (if ctx.is_lfs then record_at db ctx.repo ctx.path sha256 size e now else db)

abbrev pub status_of : Result (Unit {0}) → StatusCode
status_of (Result.ok u) = status_ok
status_of (Result.err e) = internal_server_error

abbrev pub insert_new : MemoryBackend → Text → Text → ℕ → MemoryBackend
insert_new b bytes sha256 size = if exists b sha256 then b else insert_with_hash b bytes sha256 size

unfoldable pub store : Crates → State → LfsContext → Text → Text → Text → ℕ → State × StatusCode
unfolding record_upload encode_upload
store crates s ctx mime_type pubkey bytes now =
    let sha256 = crates.sha256_hex bytes in
    let size = length bytes in
    let e = encode_upload crates s.lfs_version_db s.backend.blobs ctx bytes in
    let (database, result) = record_upload s.database (record {
      sha256 = sha256;
      size = size;
      mime_type = mime_type;
      pubkey = pubkey;
      created_at = now;
      phash = none;
    }) in
    (
      record {
        backend = insert_new s.backend e.bytes sha256 size;
        database = database;
        lfs_version_db = record_lfs s.lfs_version_db ctx sha256 size e now;
      },
      status_of result,
    )
