-- ===== src/Lfs/Tests.antt =====
-- LFS versions and chains on concrete input.
use blossom_rs.Prelude.{
  ℕ, ◌≡◌, refl, Option, none, some, [], ◌∷◌, ◌++◌, nat_key, list_key, Text, bytes_of,
}
use blossom_rs.HashMap.{HashMap, get}
use blossom_rs.Lfs.{
  LfsFileVersion, LfsStorageType, raw, delta, MemoryLfsVersionDatabase, Codec, ok, reconstruct_blob,
  max_delta_chain_depth, decode_delta,
}
use blossom_rs.Lfs.Chain.{content, reconstruct_blob-content}

-- Nothing is compressed, and a delta is what follows the base.
abbrev codec : Codec
codec = record {
  decompress = λ bytes. none;
  xd3 = record {
    xd3_encode_memory = λ input src room. none;
    xd3_decode_memory = λ input src room. some (src ++ input);
  };
}

abbrev sample_version : Text → ℕ → LfsStorageType → Option Text → LfsFileVersion
sample_version sha256 n storage base = record {
  repo_id = bytes_of "r";
  path = bytes_of "p";
  version = n;
  sha256 = sha256;
  base_sha256 = base;
  storage = storage;
  delta_algo = none;
  original_size = 1;
  stored_size = 1;
  created_at = 0;
}

abbrev second : LfsFileVersion
second = sample_version (bytes_of "b") 2 delta (some (bytes_of "a"))

abbrev db : MemoryLfsVersionDatabase
db = record { versions = sample_version (bytes_of "a") 1 raw none ∷ second ∷ [] }

abbrev backend : HashMap Text Text
backend = (bytes_of "a", bytes_of "x") ∷ (bytes_of "b", bytes_of "y") ∷ []

reconstruct_blob-content_example :
    reconstruct_blob codec db backend second
    ≡ content codec db backend max_delta_chain_depth second.sha256
reconstruct_blob-content_example = reconstruct_blob-content codec db backend second

delta_on_base : reconstruct_blob codec db backend second ≡ ok (bytes_of "xy")
unfolding reconstruct_blob get decode_delta
delta_on_base = refl
