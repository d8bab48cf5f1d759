-- ===== src/Db/Quota.antt =====
-- Quotas: what an upload may store, and that `check_quota` foretells it.
use blossom_rs.Prelude.{
  ℕ, ◌+◌, ◌≤◌, ◌<◌, ◌≡◌, refl, ◌∙◌, false, Text, list_key, nat_key, pair_key, some, arith,
  Option-cases, inl, inr, same_refl,
}
use blossom_rs.HashMap.{get, contains_key, get-insert_self}
use blossom_rs.Db.{
  UploadRecord, UserRecord, MemoryDatabase, record_upload, get_or_create_user, update_used_bytes,
  user_or_new, DbError, ok, err, check_quota, u64_mod,
}
use blossom_rs.Db.Upload.{touched, stored, record_upload_cases}
use blossom_rs.Db.Accounts.{used_bytes_of, used_of-touch, used_of-set_used}

-- Where no sum overflows, the result of a new owner's upload is that of `check_quota`.
pub record_upload-check_quota :
    (db : MemoryDatabase) (r : UploadRecord)
    → contains_key db.owners (r.sha256, r.pubkey) ≡ false
    → used_bytes_of db r.pubkey + r.size < u64_mod
    → (record_upload db r).1 ≡ check_quota db r.pubkey r.size
unfolding record_upload update_used_bytes check_quota
record_upload-check_quota db r fresh room = elim (Option-cases (get db.users r.pubkey)) [
  | inl e ↦ ground (arith, e, fresh)
  | inr (u, e) ↦ ground (arith, e, fresh)
]

-- An upload that succeeds for a new owner with a quota leaves the account at most at the quota,
-- larger by the blob's size, and the owner recorded.
record_upload-within_quota :
    (db : MemoryDatabase) (r : UploadRecord) (u : UserRecord) (limit : ℕ)
    → contains_key db.owners (r.sha256, r.pubkey) ≡ false
    → get db.users r.pubkey ≡ some u
    → u.quota_bytes ≡ some limit
    → (record_upload db r).1 ≡ ok tt
    → (used_bytes_of (record_upload db r).0 r.pubkey ≤ limit)
      × (used_bytes_of (record_upload db r).0 r.pubkey ≡ u.used_bytes + r.size)
      × (get (record_upload db r).0.owners (r.sha256, r.pubkey) ≡ some r)
record_upload-within_quota db r u limit fresh e q =
    record_upload_cases
      (λ x.
        x.1 ≡ ok tt
        → (used_bytes_of x.0 r.pubkey ≤ limit)
          × (used_bytes_of x.0 r.pubkey ≡ u.used_bytes + r.size)
          × (get x.0.owners (r.sha256, r.pubkey) ≡ some r))
      db r (λ old h. cc) (λ f h. cc) (λ used _ f g h. cc)
      λ used _ under sum h.
        let at : used_bytes_of (stored db r used) r.pubkey ≡ used =
          used_of-set_used _ r.pubkey r.pubkey used ∙ rw same_refl in
        (
          ground (arith, at, e, q, under),
          ground (arith, at, e, sum),
          unfold get_or_create_user update_used_bytes in
              get-insert_self db.owners (r.sha256, r.pubkey) r,
        )

-- The tables of blobs and owners and one user's account are as they were.
abbrev pub Untouched : MemoryDatabase → Text → MemoryDatabase → Type 0
Untouched db p db' =
    (db'.uploads ≡ db.uploads)
    × (db'.owners ≡ db.owners)
    × (db'.stats ≡ db.stats)
    × (used_bytes_of db' p ≡ used_bytes_of db p)

touched-Untouched :
    (db : MemoryDatabase) (r : UploadRecord) (p : Text) → Untouched db p (touched db r)
unfolding get_or_create_user
touched-Untouched db r p =
    (refl, refl, refl, used_of-touch db r.pubkey p (user_or_new db.users r.pubkey) refl)

-- An upload that fails stores nothing and changes no account.
record_upload-failed :
    (db : MemoryDatabase) (r : UploadRecord) (e : DbError) (p : Text)
    → (record_upload db r).1 ≡ err e
    → Untouched db p (record_upload db r).0
record_upload-failed db r e p =
    record_upload_cases (λ x. x.1 ≡ err e → Untouched db p x.0) db r (λ old h. cc)
      (λ f h. touched-Untouched db r p) (λ used _ f g h. touched-Untouched db r p)
      (λ used _ f g h. cc)
