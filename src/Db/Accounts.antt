-- ===== src/Db/Accounts.antt =====
-- The accounts: a user's `used_bytes` is the sum of the sizes of the blobs that the user owns.
use blossom_rs.Prelude.{
  ℕ, ◌-◌, ◌≡◌, refl, ap, ◌∙◌, Text, list_key, nat_key, pair_key, Option, none, some, List, [], ◌∷◌,
  ◌==◌, arith, if◌then◌else◌, list_same_iff, Option-cases, inl, inr,
}
use blossom_rs.HashMap.{get, insert, get-insert, Each, Each-remove, IsMap, IsMap-remove}
use blossom_rs.HashMap.Totals.{total, weight, total-remove}
use blossom_rs.Db.{
  UploadRecord, UserRecord, MemoryDatabase, release_owner, release_owners, debit,
  get_or_create_user, update_used_bytes, set_quota, set_role, user_or_new,
}

-- What one owner record counts for a user.
abbrev pub share : Text → Text × Text → UploadRecord → ℕ
share pubkey k r = if r.pubkey == pubkey then r.size else 0

-- The bytes of the blobs that a user owns.
abbrev pub owned_bytes : MemoryDatabase → Text → ℕ
owned_bytes db pubkey = total (share pubkey) db.owners

abbrev pub used_of : Option UserRecord → ℕ
used_of none = 0
used_of (some u) = u.used_bytes

-- The bytes that a user's account shows.
abbrev pub used_bytes_of : MemoryDatabase → Text → ℕ
used_bytes_of db pubkey = used_of (get db.users pubkey)

-- An owner record stands under its own hash and key.
abbrev pub KeyedBy : Text × Text → UploadRecord → Type 0
KeyedBy k r = (r.sha256 ≡ k.0) × (r.pubkey ≡ k.1)

pub record IsConsistent (db : MemoryDatabase) : Type 0 where
  pub unique : IsMap db.owners
  pub keyed : Each KeyedBy db.owners
  pub accounts : (p : Text) → used_bytes_of db p ≡ owned_bytes db p

pub used_bytes_of-debit :
    (db : MemoryDatabase) (owner p : Text) (size : ℕ)
    → used_of (get (debit db.users owner size) p)
      ≡ used_bytes_of db p - (if owner == p then size else 0)
unfolding debit
used_bytes_of-debit db owner p size = elim (Option-cases (get db.users owner)) [
  | inl e ↦ ground (arith, list_same_iff owner p, e)
  | inr (u, e) ↦ ground (
    arith,
    list_same_iff owner p,
    e,
    get-insert db.users owner p (record u { used_bytes = u.used_bytes - size }),
  )
]

pub used_of-set_used :
    (db : MemoryDatabase) (owner p : Text) (bytes : ℕ)
    → used_bytes_of (update_used_bytes db owner bytes).0 p
      ≡ (if owner == p then bytes else used_bytes_of db p)
unfolding update_used_bytes
used_of-set_used db owner p bytes = ground (
  arith,
  get-insert db.users owner p (record (user_or_new db.users owner) { used_bytes = bytes }),
)

-- To touch a user's record without its `used_bytes` changes no account.
pub used_of-touch :
    (db : MemoryDatabase) (owner p : Text) (u : UserRecord)
    → u.used_bytes ≡ (user_or_new db.users owner).used_bytes
    → used_of (get (insert db.users owner u) p) ≡ used_bytes_of db p
used_of-touch db owner p u e =
    ground (arith, get-insert db.users owner p u, list_same_iff owner p, e)

pub get_or_create_user-IsConsistent :
    (db : MemoryDatabase) (p : Text) → IsConsistent db → IsConsistent (get_or_create_user db p).0
unfolding get_or_create_user
get_or_create_user-IsConsistent db p v = record {
  unique = v.unique;
  keyed = v.keyed;
  accounts = λ q. used_of-touch db p q (user_or_new db.users p) refl ∙ v.accounts q;
}

pub set_quota-IsConsistent :
    (db : MemoryDatabase) (p : Text) (quota : Option ℕ)
    → IsConsistent db
    → IsConsistent (set_quota db p quota).0
unfolding set_quota
set_quota-IsConsistent db p quota v = record {
  unique = v.unique;
  keyed = v.keyed;
  accounts = λ q.
      used_of-touch db p q (record (user_or_new db.users p) { quota_bytes = quota }) refl
      ∙ v.accounts q;
}

pub set_role-IsConsistent :
    (db : MemoryDatabase) (p role : Text) → IsConsistent db → IsConsistent (set_role db p role).0
unfolding set_role
set_role-IsConsistent db p role v = record {
  unique = v.unique;
  keyed = v.keyed;
  accounts = λ q.
      used_of-touch db p q (record (user_or_new db.users p) { role = role }) refl ∙ v.accounts q;
}

pub release_owner-IsConsistent :
    (db : MemoryDatabase) (k : Text × Text) → IsConsistent db → IsConsistent (release_owner db k)
unfolding release_owner
release_owner-IsConsistent db k v = elim (Option-cases (get db.owners k)) [
  | inl e ↦ rw (e, release_owner) v
  | inr (r, e) ↦
      rw (e, release_owner)
        (record {
          unique = IsMap-remove db.owners k v.unique;
          keyed = Each-remove KeyedBy db.owners k v.keyed;
          accounts = λ p. omega (
            arith,
            used_bytes_of-debit db r.pubkey p r.size,
            total-remove (share p) db.owners k v.unique,
            ap (weight (share p) k) e,
            v.accounts p,
          );
        })
]

pub release_owners-IsConsistent :
    (keys : List (Text × Text)) (db : MemoryDatabase)
    → IsConsistent db
    → IsConsistent (release_owners db keys)
unfolding release_owners
release_owners-IsConsistent [] db v = v
release_owners-IsConsistent (k ∷ keys) db v =
    release_owners-IsConsistent keys (release_owner db k) (release_owner-IsConsistent db k v)
