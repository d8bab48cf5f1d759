-- ===== src/Db/Listing.antt =====
-- The list of a user's blobs.
use blossom_rs.Prelude.{
  ◌≤◌, ◌≡◌, refl, Bool, Text, list_key, nat_key, pair_key, List, [], ◌∷◌, ◌==◌, arith,
  list_same_iff, ltb, Bool-cases, inl, inr, keep, length, All, IsSorted, sort_by, sort_by-IsSorted,
  All-sort_by, keep-sort_by,
}
use blossom_rs.HashMap.{values}
use blossom_rs.Db.{UploadRecord, MemoryDatabase, list_uploads_by_pubkey, ok}

abbrev pub NewerFirst : UploadRecord → UploadRecord → Type 0
NewerFirst x y = y.created_at ≤ x.created_at

All-keep_owner :
    (p : Text) (rs : List UploadRecord) → All (λ r. r.pubkey ≡ p) (keep (λ r. r.pubkey == p) rs)
All-keep_owner p [] = tt
All-keep_owner p (r ∷ rs) = elim (Bool-cases (r.pubkey == p)) [
  | inl hit ↦ rw hit ((list_same_iff r.pubkey p).0 hit, All-keep_owner p rs)
  | inr miss ↦ rw miss (All-keep_owner p rs)
]

-- The list runs from the newest blob to the oldest, holds records of that user alone, and each kind
-- of record as often as the table does.
list_uploads_by_pubkey_lem :
    (db : MemoryDatabase) (p : Text)
    → (rs : List UploadRecord) × (list_uploads_by_pubkey db p ≡ ok rs)
      × IsSorted NewerFirst rs
      × All (λ r. r.pubkey ≡ p) rs
      × ((kind : UploadRecord → Bool)
          → length (keep kind rs)
            ≡ length (keep kind (keep (λ r. r.pubkey == p) (values db.owners))))
unfolding list_uploads_by_pubkey
list_uploads_by_pubkey_lem db p =
    let before = λ (x : UploadRecord) (y : UploadRecord). ltb y.created_at x.created_at in
    let mine = keep (λ (r : UploadRecord). r.pubkey == p) (values db.owners) in
    (
      sort_by before mine,
      refl,
      sort_by-IsSorted before NewerFirst (λ x y h. ground arith) (λ x y h. ground arith)
          (λ x y z h k. omega arith) mine,
      All-sort_by before (λ r. r.pubkey ≡ p) mine (All-keep_owner p (values db.owners)),
      λ kind. keep-sort_by before kind mine,
    )
