-- ===== src/Lfs/Stats.antt =====
-- src/lfs/mod.rs: the statistics of the versions. The sums are of natural numbers and do not wrap.
use blossom_rs.Prelude.{
  ℕ, ◌+◌, ◌≡◌, refl, Option, none, some, List, [], ◌∷◌, ◌==◌, nat_key, list_key, list_same_iff,
  arith, if◌then◌else◌, keep, length, Text, bytes_of,
}
use blossom_rs.HashMap.{HashMap, get, insert, get-insert}
use blossom_rs.Lfs.{
  LfsStorageType, raw, compressed, delta, LfsFileVersion, MemoryLfsVersionDatabase,
}

-- The text of a storage type.
unfoldable pub storage_name : LfsStorageType → Text
storage_name raw = bytes_of "raw"
storage_name compressed = bytes_of "compressed"
storage_name delta = bytes_of "delta"

pub record LfsStorageTypeStats : Type 0 where
  pub count : ℕ
  pub original_bytes : ℕ
  pub stored_bytes : ℕ

pub record LfsStorageStats : Type 0 where
  pub total_versions : ℕ
  pub total_original_bytes : ℕ
  pub total_stored_bytes : ℕ
  pub by_storage_type : HashMap Text LfsStorageTypeStats

abbrev or_default : Option LfsStorageTypeStats → LfsStorageTypeStats
or_default none = record { count = 0; original_bytes = 0; stored_bytes = 0 }
or_default (some e) = e

abbrev counted : LfsStorageTypeStats → LfsFileVersion → LfsStorageTypeStats
counted e v = record {
  count = e.count + 1;
  original_bytes = e.original_bytes + v.original_size;
  stored_bytes = e.stored_bytes + v.stored_size;
}

-- One round of the loop.
pub add_version : LfsStorageStats → LfsFileVersion → LfsStorageStats
add_version s v =
    let key = storage_name v.storage in
    record {
      total_versions = s.total_versions + 1;
      total_original_bytes = s.total_original_bytes + v.original_size;
      total_stored_bytes = s.total_stored_bytes + v.stored_size;
      by_storage_type =
          insert s.by_storage_type key (counted (or_default (get s.by_storage_type key)) v);
    }

pub add_versions : LfsStorageStats → List LfsFileVersion → LfsStorageStats
unfolding add_version
add_versions s [] = s
add_versions s (v ∷ vs) = add_versions (add_version s v) vs

pub lfs_stats : MemoryLfsVersionDatabase → LfsStorageStats
unfolding add_versions
lfs_stats db =
    add_versions
      (record {
        total_versions = 0;
        total_original_bytes = 0;
        total_stored_bytes = 0;
        by_storage_type = [];
      })
      db.versions

pub count_of : LfsStorageStats → Text → ℕ
count_of s key = (or_default (get s.by_storage_type key)).count

add_version-count :
    (s : LfsStorageStats) (v : LfsFileVersion) (key : Text)
    → count_of (add_version s v) key
      ≡ (if storage_name v.storage == key then count_of s key + 1 else count_of s key)
unfolding count_of add_version
add_version-count s v key =
    let name = storage_name v.storage in
    ground (
      arith,
      list_same_iff name key,
      get-insert s.by_storage_type name key (counted (or_default (get s.by_storage_type name)) v),
    )

add_versions-count :
    (s : LfsStorageStats) (vs : List LfsFileVersion) (key : Text)
    → count_of (add_versions s vs) key
      ≡ count_of s key + length (keep (λ v. storage_name v.storage == key) vs)
unfolding add_versions
add_versions-count s [] key = omega arith
add_versions-count s (v ∷ vs) key =
    ground (arith, add_version-count s v key, add_versions-count (add_version s v) vs key)

-- The statistics count, for every name of a storage type, the versions stored that way.
pub lfs_stats-count :
    (db : MemoryLfsVersionDatabase) (key : Text)
    → count_of (lfs_stats db) key ≡ length (keep (λ v. storage_name v.storage == key) db.versions)
unfolding lfs_stats
lfs_stats-count db key =
    let none_yet : LfsStorageStats = record {
      total_versions = 0;
      total_original_bytes = 0;
      total_stored_bytes = 0;
      by_storage_type = [];
    } in
    let start : count_of none_yet key ≡ 0 = unfold count_of get in refl in
    ground (arith, add_versions-count none_yet db.versions key, start)
