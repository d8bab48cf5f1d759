-- ===== src/Lfs.antt =====
-- src/lfs/mod.rs: LFS contexts, the versions of LFS files, and the reconstruction of a blob from
-- its chain of deltas. Signed 64-bit numbers are natural numbers here: the server makes none below 0.
pub mod Chain
pub mod Latest
pub mod Stats
pub mod Within
mod Tests
use blossom_rs.Prelude.{
  ℕ, zero, suc, ◌+◌, ◌++◌, Bool, true, false, Option, none, some, List, [], ◌∷◌, ◌==◌, nat_key,
  list_key, ltb, not, ◌&&◌, if◌then◌else◌, keep, find, reverse, Text, bytes_of,
}
use blossom_rs.HashMap.{HashMap, get}
use blossom_rs.Auth.{NostrEvent}
use blossom_rs.Xdelta.{Xd3, encode, decode}

abbrev pub max_delta_chain_depth : ℕ
max_delta_chain_depth = 10

pub record LfsContext : Type 0 where
  pub is_lfs : Bool
  pub path : Option Text
  pub repo : Option Text
  pub base : Option Text
  pub is_manifest : Bool

abbrev pub default_context : LfsContext
default_context = record {
  is_lfs = false;
  path = none;
  repo = none;
  base = none;
  is_manifest = false;
}

-- The arms of the `match` on a tag with a value, and without.
abbrev read_pair : LfsContext → Text → Text → LfsContext
read_pair ctx name v =
    if name == bytes_of "t" && v == bytes_of "lfs"
    then record ctx { is_lfs = true }
    else if name == bytes_of "path"
    then record ctx { path = some v }
    else if name == bytes_of "repo"
    then record ctx { repo = some v }
    else if name == bytes_of "base"
    then record ctx { base = some v }
    else if name == bytes_of "manifest"
    then record ctx { is_manifest = true }
    else ctx

unfoldable pub read_tag : LfsContext → List Text → LfsContext
read_tag ctx [] = ctx
read_tag ctx (name ∷ []) =
    if name == bytes_of "manifest" then record ctx { is_manifest = true } else ctx
read_tag ctx (name ∷ v ∷ vs) = read_pair ctx name v

unfoldable pub read_tags : LfsContext → List (List Text) → LfsContext
unfolding read_tag
read_tags ctx [] = ctx
read_tags ctx (t ∷ ts) = read_tags (read_tag ctx t) ts

unfoldable pub from_event : NostrEvent → LfsContext
unfolding read_tags
from_event event = read_tags default_context event.tags

pub data LfsStorageType : Type 0 where
  raw : LfsStorageType
  compressed : LfsStorageType
  delta : LfsStorageType

abbrev pub is_delta : LfsStorageType → Bool
is_delta raw = false
is_delta compressed = false
is_delta delta = true

abbrev pub is_compressed : LfsStorageType → Bool
is_compressed raw = false
is_compressed compressed = true
is_compressed delta = false

pub record LfsFileVersion : Type 0 where
  pub repo_id : Text
  pub path : Text
  pub version : ℕ
  pub sha256 : Text
  pub base_sha256 : Option Text
  pub storage : LfsStorageType
  pub delta_algo : Option Text
  pub original_size : ℕ
  pub stored_size : ℕ
  pub created_at : ℕ

pub record MemoryLfsVersionDatabase : Type 0 where
  pub versions : List LfsFileVersion

unfoldable pub record_version :
    MemoryLfsVersionDatabase → LfsFileVersion → MemoryLfsVersionDatabase × ℕ
record_version db v = (record { versions = db.versions ++ v ∷ [] }, v.version)

unfoldable pub get_by_sha256 : MemoryLfsVersionDatabase → Text → Option LfsFileVersion
get_by_sha256 db sha256 = find (λ v. v.sha256 == sha256) db.versions

-- `max_by_key`, which gives the last of several that are largest.
pub latest : Option LfsFileVersion → List LfsFileVersion → Option LfsFileVersion
latest best [] = best
latest none (v ∷ vs) = latest (some v) vs
latest (some b) (v ∷ vs) = latest (some (if ltb v.version b.version then b else v)) vs

pub get_latest_version : MemoryLfsVersionDatabase → Text → Text → Option LfsFileVersion
unfolding latest
get_latest_version db repo_id path =
    latest none (keep (λ v. v.repo_id == repo_id && v.path == path) db.versions)

pub delete_by_sha256 : MemoryLfsVersionDatabase → Text → MemoryLfsVersionDatabase
delete_by_sha256 db sha256 = record { versions = keep (λ v. not (v.sha256 == sha256)) db.versions }

abbrev is_base : Option Text → Text → Bool
is_base none sha256 = false
is_base (some b) sha256 = b == sha256

pub get_deltas_for_base : MemoryLfsVersionDatabase → Text → List LfsFileVersion
get_deltas_for_base db base =
    keep (λ v. is_delta v.storage && is_base v.base_sha256 base) db.versions

update_first : List LfsFileVersion → Text → LfsStorageType → Option Text → ℕ → List LfsFileVersion
update_first [] sha256 storage base stored_size = []
update_first (v ∷ vs) sha256 storage base stored_size =
    if v.sha256 == sha256
    then record v { storage = storage; base_sha256 = base; stored_size = stored_size } ∷ vs
    else v ∷ update_first vs sha256 storage base stored_size

pub update_version :
    MemoryLfsVersionDatabase → Text → LfsStorageType → Option Text → ℕ → MemoryLfsVersionDatabase
unfolding update_first
update_version db sha256 storage base stored_size = record {
  versions = update_first db.versions sha256 storage base stored_size;
}

-- `compress::decompress`, whose `none` is an error, and the xdelta3 library.
pub record Codec : Type 0 where
  pub decompress : Text → Option Text
  pub xd3 : Xd3

-- Of src/lfs/compress.rs: the base comes first.
unfoldable pub encode_delta : Codec → Text → Text → Option Text
unfolding encode
encode_delta codec base new = encode codec.xd3 new base

unfoldable pub decode_delta : Codec → Text → Text → Option Text
unfolding decode
decode_delta codec base d = decode codec.xd3 d base

pub data RebuildError : Type 0 where
  chain_broken : RebuildError
  no_base : RebuildError
  base_missing : Text → RebuildError
  delta_missing : Text → RebuildError
  delta_failed : RebuildError

pub data Rebuilt : Type 0 where
  ok : Text → Rebuilt
  err : RebuildError → Rebuilt

-- The base that the walk goes on to from a version.
abbrev pub next_base : LfsFileVersion → Option Text
next_base v = if is_delta v.storage then v.base_sha256 else none

abbrev pub onto : LfsFileVersion → Option (List LfsFileVersion) → Option (List LfsFileVersion)
onto v none = none
onto v (some vs) = some (v ∷ vs)

-- The first loop of `reconstruct_blob`; `none` is the error that the chain is broken.
pub walk : ℕ → MemoryLfsVersionDatabase → Text → Option (List LfsFileVersion)
unfolding get_by_sha256
walk zero db hash = some []
walk (suc hops) db hash = elim (get_by_sha256 db hash) [
  | none ↦ none
  | some v ↦ elim (next_base v) [ none ↦ some (v ∷ []) | some base ↦ onto v (walk hops db base) ]
]

-- The base of a reversed chain.
abbrev pub base_hash : List LfsFileVersion → Option Text
base_hash [] = none
base_hash (v ∷ vs) = if is_delta v.storage then v.base_sha256 else some v.sha256

abbrev pub and_then : Rebuilt → (Text → Rebuilt) → Rebuilt
and_then (err e) next = err e
and_then (ok r) next = next r

-- `unwrap_or`.
abbrev pub or_raw : Option Text → Text → Text
or_raw none data_raw = data_raw
or_raw (some r) data_raw = r

module _ (codec : Codec) (db : MemoryLfsVersionDatabase) (backend : HashMap Text Text) where
  abbrev stored_compressed : Option LfsFileVersion → Bool
  stored_compressed none = false
  stored_compressed (some v) = is_compressed v.storage

  -- The bytes of the base.
  unfoldable pub fetch : Text → Rebuilt
  fetch hash = elim (get backend hash) [
    | none ↦ err (base_missing hash)
    | some bytes ↦ ok (
        if stored_compressed (get_by_sha256 db hash)
        then or_raw (codec.decompress bytes) bytes
        else bytes)
  ]

  abbrev decoded : Option Text → Rebuilt
  decoded none = err delta_failed
  decoded (some r) = ok r

  -- One round of the second loop, on a delta.
  unfoldable pub patch_one : LfsFileVersion → Text → Rebuilt
  patch_one v result = elim (get backend v.sha256) [
    | none ↦ err (delta_missing v.sha256)
    | some bytes ↦ decoded (decode_delta codec result (or_raw (codec.decompress bytes) bytes))
  ]

  pub patch : List LfsFileVersion → Text → Rebuilt
  unfolding patch_one
  patch [] result = ok result
  patch (v ∷ vs) result =
      if is_delta v.storage then and_then (patch_one v result) (patch vs) else patch vs result

  pub finish : List LfsFileVersion → Rebuilt
  unfolding fetch patch
  finish chain = elim (base_hash chain) [
    | none ↦ err no_base
    | some hash ↦ and_then (fetch hash) (patch chain)
  ]

  pub reconstruct_blob : LfsFileVersion → Rebuilt
  unfolding walk finish
  reconstruct_blob version = elim (walk max_delta_chain_depth db version.sha256) [
    | none ↦ err chain_broken
    | some chain ↦ finish (reverse chain)
  ]
