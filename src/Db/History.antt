-- ===== src/Db/History.antt =====
-- Histories of the database's methods, but for direct calls of update_used_bytes.
use blossom_rs.Prelude.{
  ℕ, ◌+◌, ◌≡◌, refl, false, Text, list_key, nat_key, pair_key, Option, some, List, [], ◌∷◌, arith,
  list_same_iff, Option-cases, Bool-cases, inl, inr,
}
use blossom_rs.HashMap.{
  HashMap, get, insert, remove, contains_key, get-insert, Each, Each-get, Each-insert, IsMap-insert,
}
use blossom_rs.HashMap.Totals.{total-insert_fresh}
use blossom_rs.Db.{
  UploadRecord, UserRecord, MemoryDatabase, record_upload, delete_upload, delete_upload_owner,
  release_owner, get_or_create_user, update_used_bytes, set_quota, set_role, user_or_new,
  checked_add, record_access, empty, owner_keys,
}
use blossom_rs.Db.Upload.{stored, record_upload_cases}
use blossom_rs.Db.Accounts.{
  IsConsistent, KeyedBy, share, owned_bytes, used_bytes_of, used_of,
  get_or_create_user-IsConsistent, set_quota-IsConsistent, set_role-IsConsistent,
  release_owner-IsConsistent, release_owners-IsConsistent,
}

user_or_new-used :
    (users : HashMap Text UserRecord) (p : Text)
    → (user_or_new users p).used_bytes ≡ used_of (get users p)
user_or_new-used users p = ground arith

stored-accounts :
    (db : MemoryDatabase) (r : UploadRecord) (used : ℕ)
    → contains_key db.owners (r.sha256, r.pubkey) ≡ false
    → used ≡ (user_or_new db.users r.pubkey).used_bytes + r.size
    → ((p : Text) → used_bytes_of db p ≡ owned_bytes db p)
    → (p : Text) → used_bytes_of (stored db r used) p ≡ owned_bytes (stored db r used) p
unfolding get_or_create_user update_used_bytes
stored-accounts db r used fresh e v p =
    let user = user_or_new db.users r.pubkey in
    let m = insert db.users r.pubkey user in
    ground (
      arith,
      get-insert m r.pubkey p (record (user_or_new m r.pubkey) { used_bytes = used }),
      get-insert db.users r.pubkey p user,
      list_same_iff r.pubkey p,
      user_or_new-used db.users p,
      total-insert_fresh (share p) db.owners (r.sha256, r.pubkey) r fresh,
      v p,
    )

stored-IsConsistent :
    (db : MemoryDatabase) (r : UploadRecord) (used : ℕ)
    → contains_key db.owners (r.sha256, r.pubkey) ≡ false
    → used ≡ (user_or_new db.users r.pubkey).used_bytes + r.size
    → IsConsistent db
    → IsConsistent (stored db r used)
stored-IsConsistent db r used fresh e v = record {
  unique =
      unfold get_or_create_user update_used_bytes in
      IsMap-insert db.owners (r.sha256, r.pubkey) r v.unique;
  keyed =
      unfold get_or_create_user update_used_bytes in
      Each-insert KeyedBy db.owners (r.sha256, r.pubkey) r (refl, refl) v.keyed;
  accounts = stored-accounts db r used fresh e v.accounts;
}

pub checked_add-eq : (a b c : ℕ) → checked_add a b ≡ some c → c ≡ a + b
checked_add-eq a b c h = ground arith

record_upload-IsConsistent :
    (db : MemoryDatabase) (r : UploadRecord) → IsConsistent db → IsConsistent (record_upload db r).0
record_upload-IsConsistent db r v =
    let touch = get_or_create_user-IsConsistent db r.pubkey v in
    record_upload_cases (λ x. IsConsistent x.0) db r (λ e. v) (λ e. touch) (λ used e f g. touch)
      λ used fresh f g.
        stored-IsConsistent db r used fresh
          (checked_add-eq (user_or_new db.users r.pubkey).used_bytes r.size used g) v

delete_upload-IsConsistent :
    (db : MemoryDatabase) (sha256 : Text)
    → IsConsistent db
    → IsConsistent (delete_upload db sha256).0
unfolding delete_upload
delete_upload-IsConsistent db sha256 v = elim (Bool-cases (contains_key db.uploads sha256)) [
  | inr e ↦ rw e v
  | inl e ↦ rw e (
      let released =
        release_owners-IsConsistent (owner_keys db.owners sha256)
          (record db { uploads = remove db.uploads sha256 })
          (record { unique = v.unique; keyed = v.keyed; accounts = v.accounts }) in
      record { unique = released.unique; keyed = released.keyed; accounts = released.accounts })
]

-- One owner's removal is a round of the loop that removes them all.
delete_upload_owner-release_owner :
    (db : MemoryDatabase) (sha256 pubkey : Text)
    → Each KeyedBy db.owners
    → (delete_upload_owner db sha256 pubkey).0 ≡ release_owner db (sha256, pubkey)
unfolding delete_upload_owner release_owner
delete_upload_owner-release_owner db sha256 pubkey keyed =
    elim (Option-cases (get db.owners (sha256, pubkey))) [
      | inl e ↦ ground (arith, e)
      | inr (r, e) ↦
          let (_, same) = Each-get KeyedBy db.owners (sha256, pubkey) r keyed e in
          ground (arith, e, same)
    ]

delete_upload_owner-IsConsistent :
    (db : MemoryDatabase) (sha256 pubkey : Text)
    → IsConsistent db
    → IsConsistent (delete_upload_owner db sha256 pubkey).0
delete_upload_owner-IsConsistent db sha256 pubkey v =
    rw (delete_upload_owner-release_owner db sha256 pubkey v.keyed)
      (release_owner-IsConsistent db (sha256, pubkey) v)

record_access-IsConsistent :
    (db : MemoryDatabase) (sha256 : Text) (bytes now : ℕ)
    → IsConsistent db
    → IsConsistent (record_access db sha256 bytes now).0
unfolding record_access
record_access-IsConsistent db sha256 bytes now v = record {
  unique = v.unique;
  keyed = v.keyed;
  accounts = v.accounts;
}

-- The calls that change the database, but for update_used_bytes, which sets an account to a number of its
-- caller's; the one caller is record_upload.
pub data Call : Type 0 where
  uploads : UploadRecord → Call
  deletes : Text → Call
  disowns : Text → Text → Call
  registers : Text → Call
  limits : Text → Option ℕ → Call
  appoints : Text → Text → Call
  serves : Text → ℕ → ℕ → Call

unfoldable pub call : MemoryDatabase → Call → MemoryDatabase
call db (uploads r) = (record_upload db r).0
call db (deletes sha256) = (delete_upload db sha256).0
call db (disowns sha256 pubkey) = (delete_upload_owner db sha256 pubkey).0
call db (registers pubkey) = (get_or_create_user db pubkey).0
call db (limits pubkey quota) = (set_quota db pubkey quota).0
call db (appoints pubkey role) = (set_role db pubkey role).0
call db (serves sha256 bytes now) = (record_access db sha256 bytes now).0

unfoldable pub history : MemoryDatabase → List Call → MemoryDatabase
unfolding call
history db [] = db
history db (c ∷ cs) = history (call db c) cs

call-IsConsistent : (db : MemoryDatabase) (c : Call) → IsConsistent db → IsConsistent (call db c)
unfolding call
call-IsConsistent db (uploads r) v = record_upload-IsConsistent db r v
call-IsConsistent db (deletes sha256) v = delete_upload-IsConsistent db sha256 v
call-IsConsistent db (disowns sha256 p) v = delete_upload_owner-IsConsistent db sha256 p v
call-IsConsistent db (registers p) v = get_or_create_user-IsConsistent db p v
call-IsConsistent db (limits p quota) v = set_quota-IsConsistent db p quota v
call-IsConsistent db (appoints p role) v = set_role-IsConsistent db p role v
call-IsConsistent db (serves sha256 n now) v = record_access-IsConsistent db sha256 n now v

-- A consistent database stays consistent through any of these calls, failing ones included.
pub history-IsConsistent :
    (cs : List Call) (db : MemoryDatabase) → IsConsistent db → IsConsistent (history db cs)
unfolding history
history-IsConsistent [] db v = v
history-IsConsistent (c ∷ cs) db v = history-IsConsistent cs (call db c) (call-IsConsistent db c v)

-- After any calls on a new database, none of them a direct call of update_used_bytes, what a user's
-- account shows is the sum of the sizes of the blobs that the user owns.
pub used_bytes-owned_bytes :
    (cs : List Call) (p : Text)
    → used_bytes_of (history empty cs) p ≡ owned_bytes (history empty cs) p
used_bytes-owned_bytes cs p =
    let v =
      history-IsConsistent cs empty
        (record { unique = tt; keyed = tt; accounts = λ q. unfold get in refl }) in
    v.accounts p
