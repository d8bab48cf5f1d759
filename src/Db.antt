-- ===== src/Db.antt =====
-- src/db/mod.rs and src/db/memory.rs: the in-memory metadata database.
-- A method returns the new state and its result; `now` is the clock, in seconds.
pub mod Accounts
pub mod History
pub mod Upload
pub mod Quota
pub mod Deletion
pub mod Listing
mod Tests
use blossom_rs.Prelude.{
  ℕ, ◌+◌, ◌-◌, ◌%◌, ◌^◌, Bool, true, false, Text, list_key, nat_key, pair_key, Option, none, some,
  List, [], ◌∷◌, map, ◌==◌, ltb, if◌then◌else◌, keep, length, sort_by, bytes_of, list_same_iff,
}
use blossom_rs.HashMap.{HashMap, get, insert, remove, contains_key, values, len}

abbrev pub u64_mod : ℕ
u64_mod = 2 ^ 64

abbrev pub checked_add : ℕ → ℕ → Option ℕ
checked_add a b = if ltb (a + b) u64_mod then some (a + b) else none

pub record UploadRecord : Type 0 where
  pub sha256 : Text
  pub size : ℕ
  pub mime_type : Text
  pub pubkey : Text
  pub created_at : ℕ
  pub phash : Option ℕ

pub record UserRecord : Type 0 where
  pub pubkey : Text
  pub role : Text
  pub quota_bytes : Option ℕ
  pub used_bytes : ℕ

pub record FileStats : Type 0 where
  pub sha256 : Text
  pub egress_bytes : ℕ
  pub last_accessed : ℕ

pub data DbError : Type 0 where
  quota_exceeded : ℕ → ℕ → ℕ → DbError
  not_found : DbError
  internal : Text → DbError

pub data Result (A : Type 0) : Type 0 where
  ok : A → Result A
  err : DbError → Result A

abbrev pub ok_or : {A : Type 0} → Option A → DbError → Result A
ok_or none e = err e
ok_or (some a) e = ok a

pub record MemoryDatabase : Type 0 where
  pub uploads : HashMap Text UploadRecord
  pub owners : HashMap (Text × Text) UploadRecord
  pub users : HashMap Text UserRecord
  pub stats : HashMap Text FileStats

abbrev pub empty : MemoryDatabase
empty = record { uploads = []; owners = []; users = []; stats = [] }

-- The record that `or_insert_with` makes for an unknown user.
abbrev pub new_user : Text → UserRecord
new_user pubkey = record {
  pubkey = pubkey;
  role = (bytes_of "member");
  quota_bytes = none;
  used_bytes = 0;
}

abbrev pub user_or_new : HashMap Text UserRecord → Text → UserRecord
user_or_new users pubkey = elim (get users pubkey) [ none ↦ new_user pubkey | some u ↦ u ]

pub get_or_create_user : MemoryDatabase → Text → MemoryDatabase × Result UserRecord
get_or_create_user db pubkey =
    let user = user_or_new db.users pubkey in
    (record db { users = insert db.users pubkey user }, ok user)

pub update_used_bytes : MemoryDatabase → Text → ℕ → MemoryDatabase × Result (Unit {0})
update_used_bytes db pubkey used_bytes =
    let user = record (user_or_new db.users pubkey) { used_bytes = used_bytes } in
    (record db { users = insert db.users pubkey user }, ok tt)

pub set_quota : MemoryDatabase → Text → Option ℕ → MemoryDatabase × Result (Unit {0})
set_quota db pubkey quota_bytes =
    let user = record (user_or_new db.users pubkey) { quota_bytes = quota_bytes } in
    (record db { users = insert db.users pubkey user }, ok tt)

unfoldable pub set_role : MemoryDatabase → Text → Text → MemoryDatabase × Result (Unit {0})
set_role db pubkey role =
    let user = record (user_or_new db.users pubkey) { role = role } in
    (record db { users = insert db.users pubkey user }, ok tt)

unfoldable pub get_role : MemoryDatabase → Text → Text
get_role db pubkey = elim (get db.users pubkey) [ none ↦ (bytes_of "member") | some u ↦ u.role ]

unfoldable pub list_users_by_role : MemoryDatabase → Text → Result (List UserRecord)
list_users_by_role db role = ok (keep (λ u. u.role == role) (values db.users))

-- The test of `record_upload` and `check_quota` against a limit that is set.
abbrev pub over_limit : Option ℕ → ℕ → Bool
over_limit none total = false
over_limit (some limit) total = ltb limit total

abbrev pub limit_of : Option ℕ → ℕ
limit_of none = 0
limit_of (some limit) = limit

-- `entry(sha256).or_insert_with(record)`.
abbrev pub or_insert : HashMap Text UploadRecord → Text → UploadRecord → HashMap Text UploadRecord
or_insert m k v = insert m k (elim (get m k) [ none ↦ v | some old ↦ old ])

unfoldable pub record_upload : MemoryDatabase → UploadRecord → MemoryDatabase × Result (Unit {0})
unfolding get_or_create_user update_used_bytes
record_upload db r =
    if contains_key db.owners (r.sha256, r.pubkey)
    then (db, ok tt)
    else (let user = user_or_new db.users r.pubkey in
        let db₁ = (get_or_create_user db r.pubkey).0 in
        elim (checked_add user.used_bytes r.size) [
          | none ↦ (db₁, err (internal (bytes_of "used byte count overflow")))
          | some new_used ↦
              if over_limit user.quota_bytes new_used
              then (db₁, err (quota_exceeded user.used_bytes r.size (limit_of user.quota_bytes)))
              else update_used_bytes
                  (record db₁ {
                    uploads = or_insert db₁.uploads r.sha256 r;
                    owners = insert db₁.owners (r.sha256, r.pubkey) r;
                  })
                  r.pubkey new_used
        ])

unfoldable pub get_upload : MemoryDatabase → Text → Result UploadRecord
get_upload db sha256 = ok_or (get db.uploads sha256) not_found

-- Newest first, by `sort_by_key` with `Reverse`.
pub list_uploads_by_pubkey : MemoryDatabase → Text → Result (List UploadRecord)
list_uploads_by_pubkey db pubkey = ok (
    sort_by (λ x y. ltb y.created_at x.created_at)
      (keep (λ r. r.pubkey == pubkey) (values db.owners)))

-- `user.used_bytes.saturating_sub(size)` for a user that is there.
pub debit : HashMap Text UserRecord → Text → ℕ → HashMap Text UserRecord
debit users pubkey size = elim (get users pubkey) [
  | none ↦ users
  | some user ↦ insert users pubkey (record user { used_bytes = user.used_bytes - size })
]

-- One round of the loop in `delete_upload`.
pub release_owner : MemoryDatabase → Text × Text → MemoryDatabase
release_owner db key = elim (get db.owners key) [
  | none ↦ db
  | some owner ↦ record db {
    owners = remove db.owners key;
    users = debit db.users owner.pubkey owner.size;
  }
]

pub release_owners : MemoryDatabase → List (Text × Text) → MemoryDatabase
unfolding release_owner
release_owners db [] = db
release_owners db (key ∷ keys) = release_owners (release_owner db key) keys

abbrev pub owner_keys : HashMap (Text × Text) UploadRecord → Text → List (Text × Text)
owner_keys owners sha256 = keep (λ k. k.0 == sha256) (map (λ e. e.0) owners)

unfoldable pub delete_upload : MemoryDatabase → Text → MemoryDatabase × Result Bool
unfolding release_owners
delete_upload db sha256 =
    if contains_key db.uploads sha256
    then (let released =
          release_owners (record db { uploads = remove db.uploads sha256 })
            (owner_keys db.owners sha256) in
        (record released { stats = remove released.stats sha256 }, ok true))
    else (db, ok false)

unfoldable pub is_upload_owner : MemoryDatabase → Text → Text → Result Bool
is_upload_owner db sha256 pubkey = ok (contains_key db.owners (sha256, pubkey))

unfoldable pub upload_owner_count : MemoryDatabase → Text → Result ℕ
upload_owner_count db sha256 = ok (length (owner_keys db.owners sha256))

unfoldable pub delete_upload_owner : MemoryDatabase → Text → Text → MemoryDatabase × Result Bool
delete_upload_owner db sha256 pubkey = elim (get db.owners (sha256, pubkey)) [
  | none ↦ (db, ok false)
  | some r ↦ (
    record db { owners = remove db.owners (sha256, pubkey); users = debit db.users pubkey r.size },
    ok true,
  )
]

unfoldable pub check_quota : MemoryDatabase → Text → ℕ → Result (Unit {0})
check_quota db pubkey additional_bytes = elim (get db.users pubkey) [
  | none ↦ ok tt
  | some user ↦ elim user.quota_bytes [
    | none ↦ ok tt
    | some limit ↦
        let exceeds_limit : Bool = elim (checked_add user.used_bytes additional_bytes) [
          | some total ↦ ltb limit total
          | none ↦ true
        ] in
        if exceeds_limit then err (quota_exceeded user.used_bytes additional_bytes limit) else ok tt
  ]
]

-- The addition wraps, as `+=` does in a release build.
unfoldable pub record_access : MemoryDatabase → Text → ℕ → ℕ → MemoryDatabase × Result (Unit {0})
record_access db sha256 bytes_served now =
    let old : FileStats = elim (get db.stats sha256) [
      | none ↦ record { sha256 = sha256; egress_bytes = 0; last_accessed = 0 }
      | some s ↦ s
    ] in
    (
      record db {
        stats = insert db.stats sha256 (record old {
          egress_bytes = (old.egress_bytes + bytes_served) % u64_mod;
          last_accessed = now;
        });
      },
      ok tt,
    )

unfoldable pub get_stats : MemoryDatabase → Text → Result FileStats
get_stats db sha256 = ok_or (get db.stats sha256) not_found

pub upload_count : MemoryDatabase → ℕ
upload_count db = len db.uploads

pub user_count : MemoryDatabase → ℕ
user_count db = len db.users
