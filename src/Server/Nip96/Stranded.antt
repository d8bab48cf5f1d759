-- ===== src/Server/Nip96/Stranded.antt =====
-- What a deletion over NIP-96 leaves of the deltas that are built on the blob.
use blossom_rs.Prelude.{◌≡◌, none, nat_key, list_key, Text}
use blossom_rs.HashMap.{HashMap, get}
use blossom_rs.Lfs.{Rebuilt, RebuildError}
use blossom_rs.Server.{State}

-- It is an error.
abbrev pub IsError : Rebuilt → Type 0
IsError r = (e : RebuildError) × (r ≡ Rebuilt.err e)

-- The backend loses the blob, and the versions stay.
record Plain (s : State) (sha256 : Text) (t : State) : Type 0 where
  gone : get t.backend.blobs sha256 ≡ none
  versions : t.lfs_version_db ≡ s.lfs_version_db
