-- ===== src/Db/Tests.antt =====
-- The database on concrete input.
use blossom_rs.Prelude.{
  ℕ, ◌≡◌, refl, Text, list_key, nat_key, pair_key, none, some, List, [], ◌∷◌, bytes_of,
}
use blossom_rs.HashMap.{get, insert, remove, contains_key}
use blossom_rs.Db.{
  UploadRecord, record_upload, delete_upload_owner, empty, ok, upload_owner_count, get_role,
  upload_count, user_count, debit, set_role, record_access, set_quota,
}
use blossom_rs.Db.Accounts.{used_bytes_of, owned_bytes}
use blossom_rs.Db.History.{
  Call, uploads, disowns, limits, appoints, serves, history, used_bytes-owned_bytes,
}

abbrev blob : Text → Text → ℕ → UploadRecord
blob sha256 pubkey size = record {
  sha256 = sha256;
  size = size;
  mime_type = (bytes_of "text/plain");
  pubkey = pubkey;
  created_at = 1;
  phash = none;
}

abbrev calls : List Call
calls =
    limits (bytes_of "ann") (some 10)
    ∷ uploads (blob (bytes_of "h") (bytes_of "ann") 4)
    ∷ uploads (blob (bytes_of "h") (bytes_of "bob") 4)
    ∷ uploads (blob (bytes_of "k") (bytes_of "ann") 9)
    ∷ disowns (bytes_of "h") (bytes_of "bob")
    ∷ serves (bytes_of "h") 4 7
    ∷ appoints (bytes_of "ann") (bytes_of "admin")
    ∷ []

-- The third upload is over the quota, and stores nothing.
accounts_after :
    (used_bytes_of (history empty calls) (bytes_of "ann") ≡ 4)
    × (used_bytes_of (history empty calls) (bytes_of "bob") ≡ 0)
    × (upload_count (history empty calls) ≡ 1)
    × (user_count (history empty calls) ≡ 2)
    × (get_role (history empty calls) (bytes_of "ann") ≡ (bytes_of "admin"))
    × (upload_owner_count (history empty calls) (bytes_of "h") ≡ ok 1)
unfolding history record_upload upload_count user_count get_role upload_owner_count get insert
    remove contains_key set_role record_access delete_upload_owner set_quota debit
accounts_after = (refl, refl, refl, refl, refl, refl)

used_bytes-owned_bytes_example :
    used_bytes_of (history empty calls) (bytes_of "ann")
    ≡ owned_bytes (history empty calls) (bytes_of "ann")
used_bytes-owned_bytes_example = used_bytes-owned_bytes calls (bytes_of "ann")
