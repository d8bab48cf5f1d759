-- ===== src/Db/Deletion.antt =====
-- What a deletion removes, and what it leaves.
use blossom_rs.Prelude.{
  ◌≡◌, refl, ◌∙◌, Bool, true, false, Text, list_key, nat_key, pair_key, none, List, [], ◌∷◌, ◌==◌,
  arith, list_same_iff, if◌then◌else◌, Option-cases, inl, inr, any, pair_same_iff,
}
use blossom_rs.HashMap.{HashMap, get, remove, contains_key, get-remove, contains_key-get}
use blossom_rs.Db.{
  UploadRecord, MemoryDatabase, delete_upload, release_owner, release_owners, owner_keys, ok, err,
  not_found, is_upload_owner, get_upload, get_stats,
}

abbrev among : List (Text × Text) → Text × Text → Bool
among keys k = any (λ j. j == k) keys

get-release_owner :
    (db : MemoryDatabase) (key k : Text × Text)
    → get (release_owner db key).owners k ≡ (if key == k then none else get db.owners k)
unfolding release_owner
get-release_owner db key k = elim (Option-cases (get db.owners key)) [
  | inl e ↦ ground (arith, e, pair_same_iff key k)
  | inr (r, e) ↦ ground (arith, e, get-remove db.owners key k)
]

-- The loop removes exactly the owners that it is given.
get-release_owners :
    (keys : List (Text × Text)) (db : MemoryDatabase) (k : Text × Text)
    → get (release_owners db keys).owners k ≡ (if among keys k then none else get db.owners k)
unfolding release_owners
get-release_owners [] db k = refl
get-release_owners (key ∷ keys) db k =
    ground (arith, get-release_owners keys (release_owner db key) k, get-release_owner db key k)

release_owner-others :
    (db : MemoryDatabase) (key : Text × Text)
    → ((release_owner db key).uploads ≡ db.uploads) × ((release_owner db key).stats ≡ db.stats)
unfolding release_owner
release_owner-others db key = elim (Option-cases (get db.owners key)) [
  | inl e ↦ rw (e, release_owner) (refl, refl)
  | inr (r, e) ↦ rw (e, release_owner) (refl, refl)
]

release_owners-others :
    (keys : List (Text × Text)) (db : MemoryDatabase)
    → ((release_owners db keys).uploads ≡ db.uploads) × ((release_owners db keys).stats ≡ db.stats)
unfolding release_owners
release_owners-others [] db = (refl, refl)
release_owners-others (key ∷ keys) db =
    let (u, s) = release_owners-others keys (release_owner db key) in
    let (u', s') = release_owner-others db key in (u ∙ u', s ∙ s')

among-owner_keys :
    (m : HashMap (Text × Text) UploadRecord) (sha256 : Text) (k : Text × Text)
    → among (owner_keys m sha256) k ≡ (if k.0 == sha256 then contains_key m k else false)
unfolding contains_key
among-owner_keys [] sha256 k = ground arith
among-owner_keys (((h, p), r) ∷ m) sha256 (h', p') = ground (
  arith,
  among-owner_keys m sha256 (h', p'),
  list_same_iff h sha256,
  list_same_iff h' sha256,
  list_same_iff h h',
  list_same_iff p p',
)

-- After a deletion that finds its blob nobody owns it, and its record and statistics are gone;
-- what is known of every other blob stays.
delete_upload-removes :
    (db : MemoryDatabase) (sha256 h p : Text)
    → contains_key db.uploads sha256 ≡ true
    → let db' = (delete_upload db sha256).0 in
      ((delete_upload db sha256).1 ≡ ok true)
      × (is_upload_owner db' h p ≡ (if h == sha256 then ok false else is_upload_owner db h p))
      × (get_upload db' h ≡ (if h == sha256 then err not_found else get_upload db h))
      × (get_stats db' h ≡ (if h == sha256 then err not_found else get_stats db h))
unfolding delete_upload is_upload_owner get_upload get_stats
delete_upload-removes db sha256 h p found =
    let db₁ = record db { uploads = remove db.uploads sha256 } in
    let keys = owner_keys db.owners sha256 in
    let (u, s) = release_owners-others keys db₁ in
    rw found (
      refl,
      ground (
        arith,
        get-release_owners keys db₁ (h, p),
        among-owner_keys db.owners sha256 (h, p),
        contains_key-get (release_owners db₁ keys).owners (h, p),
        contains_key-get db.owners (h, p),
      ),
      rw u (
          ground (
            arith,
            get-remove db.uploads sha256 h,
            list_same_iff h sha256,
            list_same_iff sha256 h,
          )),
      rw s (
          ground
            (arith, get-remove db.stats sha256 h, list_same_iff h sha256, list_same_iff sha256 h)),
    )
