-- ===== src/Server/Encode.antt =====
-- handle_upload of src/server/mod.rs, "LFS compression/delta pipeline": how the bytes are stored.
use blossom_rs.Prelude.{
  ℕ, ◌==◌, nat_key, list_key, Bool, false, Option, none, some, length, not, ◌&&◌, if◌then◌else◌,
  Text,
}
use blossom_rs.HashMap.{HashMap, get}
use blossom_rs.Lfs.{
  encode_delta, LfsContext, LfsStorageType, raw, compressed, delta, LfsFileVersion,
  MemoryLfsVersionDatabase, get_by_sha256, Codec, Rebuilt, reconstruct_blob, or_raw,
}

-- `sha256_hex`, zstd and, in `codec`, xdelta3; `none` is an error. `below_threshold` is the comparison of the two
-- lengths' ratio with 0.8 in floating point.
pub record Crates : Type 0 where
  pub sha256_hex : Text → Text
  pub codec : Codec
  pub compress : Text → Option Text
  pub below_threshold : ℕ → ℕ → Bool

-- What is stored: the bytes, their form, and the base of a delta.
pub record Encoded : Type 0 where
  pub bytes : Text
  pub storage : LfsStorageType
  pub base_sha256 : Option Text

abbrev pub whole : Text → Encoded
whole bytes = record { bytes = bytes; storage = raw; base_sha256 = none }

abbrev rebuilt_or : Rebuilt → Text → Text
rebuilt_or (Rebuilt.ok r) bytes = r
rebuilt_or (Rebuilt.err e) bytes = bytes

module _ (crates : Crates) where
  abbrev pub compressed_or_raw : Text → Encoded
  compressed_or_raw bytes = record {
    bytes = or_raw (crates.compress bytes) bytes;
    storage = compressed;
    base_sha256 = none;
  }

  unfoldable pub delta_is_worthwhile : ℕ → ℕ → Bool
  delta_is_worthwhile delta_len original_len =
      if original_len == 0 then false else crates.below_threshold delta_len original_len

  -- The bytes of the base, by the form that its version has; also what a read serves of a blob.
  abbrev pub decoded_as :
      LfsStorageType → MemoryLfsVersionDatabase → HashMap Text Text → LfsFileVersion → Text → Text
  decoded_as raw db blobs v bytes = bytes
  decoded_as compressed db blobs v bytes = or_raw (crates.codec.decompress bytes) bytes
  decoded_as delta db blobs v bytes = rebuilt_or (reconstruct_blob crates.codec db blobs v) bytes

  abbrev pub packed_delta : Text → Text → Option Text → Encoded
  packed_delta base_hash bytes none = compressed_or_raw bytes
  packed_delta base_hash bytes (some packed) = record {
    bytes = packed;
    storage = delta;
    base_sha256 = some base_hash;
  }

  abbrev pub delta_or_compressed : Text → Text → Option Text → Encoded
  delta_or_compressed base_hash bytes none = compressed_or_raw bytes
  delta_or_compressed base_hash bytes (some d) =
      if delta_is_worthwhile (length d) (length bytes)
      then packed_delta base_hash bytes (crates.compress d)
      else compressed_or_raw bytes

  unfoldable pub encode_on_base :
      MemoryLfsVersionDatabase → HashMap Text Text → Text → Text → Encoded
  encode_on_base db blobs base_hash bytes = elim (get_by_sha256 db base_hash) [
    | none ↦ compressed_or_raw bytes
    | some v ↦ elim (get blobs base_hash) [
      | none ↦ compressed_or_raw bytes
      | some stored ↦
          delta_or_compressed base_hash bytes
            (encode_delta crates.codec (decoded_as v.storage db blobs v stored) bytes)
    ]
  ]

  abbrev pub encode_lfs :
      MemoryLfsVersionDatabase → HashMap Text Text → Option Text → Text → Encoded
  encode_lfs db blobs none bytes = compressed_or_raw bytes
  encode_lfs db blobs (some base_hash) bytes = encode_on_base db blobs base_hash bytes

  unfoldable pub encode_upload :
      Option MemoryLfsVersionDatabase → HashMap Text Text → LfsContext → Text → Encoded
  unfolding encode_on_base
  encode_upload none blobs ctx bytes = whole bytes
  encode_upload (some db) blobs ctx bytes =
      if ctx.is_lfs && not ctx.is_manifest then encode_lfs db blobs ctx.base bytes else whole bytes
