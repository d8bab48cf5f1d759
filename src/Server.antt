-- ===== src/Server.antt =====
-- src/storage/memory.rs and handle_delete_blob of src/server/mod.rs: the in-memory backend, and what
-- a deletion does to the backend, the database and the LFS versions once its event is verified.
pub mod Delete
pub mod Body
pub mod Calendar
pub mod LockApi
pub mod Nip96
pub mod AdminRequest
pub mod Admin
pub mod Entry
pub mod MirrorApi
pub mod Media
pub mod Encode
pub mod Store
pub mod Upload
pub mod Mirror
pub mod Remove
pub mod Read
pub mod ReadBack
mod ApiTests
use blossom_rs.Prelude.{
  ℕ, ◌+◌, Bool, true, false, Text, list_key, nat_key, Option, none, some, List, [], ◌∷◌, ltb, not,
  if◌then◌else◌, length, bytes_of, list_same_iff,
}
use blossom_rs.HashMap.{HashMap, get, insert, remove, contains_key, len, values}
use blossom_rs.Access.{Role, admin, member, denied}
use blossom_rs.Db.{
  MemoryDatabase, Result, is_upload_owner, upload_owner_count, delete_upload_owner, delete_upload,
}
use blossom_rs.Lfs.{
  MemoryLfsVersionDatabase, LfsFileVersion, compressed, Codec, Rebuilt, reconstruct_blob,
  get_deltas_for_base, update_version, delete_by_sha256,
}

pub record MemoryBackend : Type 0 where
  pub blobs : HashMap Text Text
  pub index : HashMap Text ℕ

unfoldable pub insert_with_hash : MemoryBackend → Text → Text → ℕ → MemoryBackend
insert_with_hash b bytes hash original_size = record {
  blobs = insert b.blobs hash bytes;
  index = insert b.index hash original_size;
}

unfoldable pub get_blob : MemoryBackend → Text → Option Text
get_blob b sha256 = get b.blobs sha256

unfoldable pub exists : MemoryBackend → Text → Bool
exists b sha256 = contains_key b.index sha256

unfoldable pub delete_blob : MemoryBackend → Text → MemoryBackend × Bool
delete_blob b sha256 = (
  record { blobs = remove b.blobs sha256; index = remove b.index sha256 },
  contains_key b.index sha256,
)

pub blob_count : MemoryBackend → ℕ
blob_count b = len b.index

sum : List ℕ → ℕ
sum [] = 0
sum (n ∷ ns) = n + sum ns

pub total_bytes : MemoryBackend → ℕ
unfolding sum
total_bytes b = sum (values b.index)

pub record State : Type 0 where
  pub backend : MemoryBackend
  pub database : MemoryDatabase
  pub lfs_version_db : Option MemoryLfsVersionDatabase

-- 403; 200 with `blob_retained`; 200; 404; 500.
pub data Response : Type 0 where
  forbidden : Response
  blob_retained : Response
  deleted : Response
  not_found : Response
  failed : Response

abbrev pub owned : Result Bool → Bool
owned (Result.ok b) = b
owned (Result.err e) = false

module _ (codec : Codec) (compress : Text → Option Text) where
  abbrev or_same : Option Text → Text → Text
  or_same none bytes = bytes
  or_same (some c) bytes = c

  abbrev rebased : State → MemoryLfsVersionDatabase → LfsFileVersion → Rebuilt → State
  rebased s db v (Rebuilt.err e) = s
  rebased s db v (Rebuilt.ok bytes) = record s {
    backend = insert_with_hash s.backend (or_same (compress bytes) bytes) v.sha256 v.original_size;
    lfs_version_db = some (update_version db v.sha256 compressed none (length bytes));
  }

  -- One round of the loop over the deltas of the blob.
  pub rebase_one : State → LfsFileVersion → State
  unfolding insert_with_hash
  rebase_one s v = elim s.lfs_version_db [
    | none ↦ s
    | some db ↦ elim (get_blob s.backend v.sha256) [
      | none ↦ s
      | some stored ↦ rebased s db v (reconstruct_blob codec db s.backend.blobs v)
    ]
  ]

  unfoldable pub rebase : State → List LfsFileVersion → State
  unfolding rebase_one
  rebase s [] = s
  rebase s (v ∷ vs) = rebase (rebase_one s v) vs

  abbrev pub deltas_of : Option MemoryLfsVersionDatabase → Text → List LfsFileVersion
  deltas_of none sha256 = []
  deltas_of (some db) sha256 = get_deltas_for_base db sha256

  abbrev pub forget : Option MemoryLfsVersionDatabase → Text → Option MemoryLfsVersionDatabase
  forget none sha256 = none
  forget (some db) sha256 = some (delete_by_sha256 db sha256)

  abbrev pub recorded : State → Text → MemoryDatabase × Result Bool → State × Response
  recorded s hash (db, Result.err e) = (record s { database = db }, failed)
  recorded s hash (db, Result.ok found) =
      (record s { database = db; lfs_version_db = forget s.lfs_version_db hash }, deleted)

  -- From the rebasing of deltas on.
  unfoldable pub delete_physical : State → Text → State × Response
  unfolding rebase delete_blob
  delete_physical s sha256 =
      let hash = sha256 in
      let s = rebase s (deltas_of s.lfs_version_db hash) in
      let (backend, found) = delete_blob s.backend hash in
      if found
      then recorded (record s { backend = backend }) hash (delete_upload s.database sha256)
      else (record s { backend = backend }, not_found)

  abbrev pub disowned : State → MemoryDatabase × Result Bool → State × Response
  disowned s (db, Result.err e) = (record s { database = db }, failed)
  disowned s (db, Result.ok found) = (record s { database = db }, blob_retained)

  abbrev pub member_delete : State → Text → Text → Result ℕ → State × Response
  member_delete s sha256 pubkey (Result.err e) = (s, failed)
  member_delete s sha256 pubkey (Result.ok owner_count) =
      if ltb 1 owner_count
      then disowned s (delete_upload_owner s.database sha256 pubkey)
      else delete_physical s sha256

  -- `handle_delete_blob` for a key whose event is verified, with the role of the key.
  unfoldable pub delete_as : Role → State → Text → Text → State × Response
  unfolding delete_physical
  delete_as denied s sha256 pubkey = (s, forbidden)
  delete_as admin s sha256 pubkey = delete_physical s sha256
  delete_as member s sha256 pubkey =
      if owned (is_upload_owner s.database sha256 pubkey)
      then member_delete s sha256 pubkey (upload_owner_count s.database sha256)
      else (s, forbidden)
