-- ===== src/Db/Upload.antt =====
-- The branches of `record_upload`.
use blossom_rs.Prelude.{
  ℕ, ◌≡◌, true, false, list_key, nat_key, pair_key, none, some, Option-cases, Bool-cases, inl, inr,
  bytes_of,
}
use blossom_rs.HashMap.{insert, contains_key}
use blossom_rs.Db.{
  UploadRecord, MemoryDatabase, record_upload, get_or_create_user, update_used_bytes, user_or_new,
  checked_add, over_limit, limit_of, Result, ok, err, quota_exceeded, internal, or_insert,
}

-- The state after `get_or_create_user`, in which the errors leave the database.
abbrev pub touched : MemoryDatabase → UploadRecord → MemoryDatabase
touched db r = (get_or_create_user db r.pubkey).0

-- The state that a new owner's upload leaves.
abbrev pub stored : MemoryDatabase → UploadRecord → ℕ → MemoryDatabase
stored db r used =
    (update_used_bytes
      (record (touched db r) {
        uploads = or_insert (touched db r).uploads r.sha256 r;
        owners = insert (touched db r).owners (r.sha256, r.pubkey) r;
      })
      r.pubkey used).0

module _ {ℓ} (P : MemoryDatabase × Result (Unit {0}) → Type ℓ) (db : MemoryDatabase)
    (r : UploadRecord) where
  pub record_upload_cases :
      (contains_key db.owners (r.sha256, r.pubkey) ≡ true → P (db, ok tt))
      → (checked_add (user_or_new db.users r.pubkey).used_bytes r.size ≡ none
          → P (touched db r, err (internal (bytes_of "used byte count overflow"))))
      → ((used : ℕ)
          → contains_key db.owners (r.sha256, r.pubkey) ≡ false
          → over_limit (user_or_new db.users r.pubkey).quota_bytes used ≡ true
          → checked_add (user_or_new db.users r.pubkey).used_bytes r.size ≡ some used
          → P (
            touched db r,
            err (
                quota_exceeded
                  (user_or_new db.users r.pubkey).used_bytes
                  r.size
                  (limit_of (user_or_new db.users r.pubkey).quota_bytes)),
          ))
      → ((used : ℕ)
          → contains_key db.owners (r.sha256, r.pubkey) ≡ false
          → over_limit (user_or_new db.users r.pubkey).quota_bytes used ≡ false
          → checked_add (user_or_new db.users r.pubkey).used_bytes r.size ≡ some used
          → P (stored db r used, ok tt))
      → P (record_upload db r)
  unfolding record_upload
  record_upload_cases same overflow over new =
      elim (Bool-cases (contains_key db.owners (r.sha256, r.pubkey))) [
        | inl e ↦ rw e (same e)
        | inr e ↦
            rw e
              (elim (Option-cases (checked_add (user_or_new db.users r.pubkey).used_bytes r.size)) [
                | inl f ↦ rw (f, record_upload) (overflow f)
                | inr (used, f) ↦
                    elim (Bool-cases
                      (over_limit (user_or_new db.users r.pubkey).quota_bytes used)) [
                        | inl g ↦ rw (f, record_upload, g) (over used e g f)
                        | inr g ↦ rw (f, record_upload, g) (new used e g f)
                      ]
              ])
      ]
