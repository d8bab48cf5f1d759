-- ===== src/Server/Delete.antt =====
-- What a deletion leaves.
use blossom_rs.Prelude.{
  ℕ, ◌<◌, ◌≡◌, ◌≢◌, refl, ap, ◌∙◌, Bool, Text, list_key, nat_key, pair_key, Option, none, ltb,
  arith, length, Bool-cases, Option-cases, inl, inr, same_refl, list_same_iff,
}
use blossom_rs.HashMap.{get, remove, contains_key, get-remove, contains_key-remove}
use blossom_rs.Access.{Role, admin, member, denied}
use blossom_rs.Db.{
  MemoryDatabase, Result, is_upload_owner, upload_owner_count, delete_upload_owner, delete_upload,
  owner_keys,
}
use blossom_rs.Lfs.{Codec}
use blossom_rs.Server.{
  State, deleted, get_blob, delete_blob, delete_as, delete_physical, rebase, deltas_of, recorded,
}

module _ (codec : Codec) (compress : Text → Option Text) where
  -- A member's deletion of a blob with several owners keeps the backend and the LFS versions, and the
  -- ownership of everybody else.
  delete_as-shared :
      (s : State) (sha256 pubkey q h : Text) (count : ℕ)
      → upload_owner_count s.database sha256 ≡ Result.ok count
      → 1 < count
      → q ≢ pubkey
      → let after = (delete_as codec compress member s sha256 pubkey).0 in
        (after.backend ≡ s.backend)
        × (after.lfs_version_db ≡ s.lfs_version_db)
        × (is_upload_owner after.database h q ≡ is_upload_owner s.database h q)
  unfolding delete_as is_upload_owner delete_upload_owner
  delete_as-shared s sha256 pubkey q h count many more d =
      let owners = s.database.owners in
      elim (Bool-cases (contains_key owners (sha256, pubkey))) [
        | inr e ↦ ground (arith, e)
        | inl e ↦ elim (Option-cases (get owners (sha256, pubkey))) [
          | inl n ↦ ground (arith, e, n, many, more)
          | inr (r, n) ↦ ground (
            arith,
            e,
            n,
            many,
            more,
            d,
            list_same_iff pubkey q,
            contains_key-remove owners (sha256, pubkey) (h, q),
          )
        ]
      ]

  recorded-backend :
      (s : State) (hash : Text) (r : MemoryDatabase × Result Bool)
      → (recorded codec compress s hash r).0.backend ≡ s.backend
  recorded-backend s hash (db, Result.ok b) = refl
  recorded-backend s hash (db, Result.err e) = refl

  delete_physical-gone :
      (s : State) (sha256 : Text)
      → get_blob (delete_physical codec compress s sha256).0.backend sha256 ≡ none
  unfolding delete_physical get_blob delete_upload
  delete_physical-gone s sha256 =
      let hash = sha256 in
      let t = rebase codec compress s (deltas_of codec compress s.lfs_version_db hash) in
      let gone : get (remove t.backend.blobs hash) hash ≡ none =
        get-remove t.backend.blobs hash hash ∙ rw (same_refl hash) refl in
      elim (Bool-cases (contains_key t.backend.index hash)) [
        | inr e ↦ rw (e, delete_physical) gone
        | inl e ↦
            rw (e, delete_physical)
              (ap (λ b. get b.blobs hash)
                  (recorded-backend (record t { backend = (delete_blob t.backend hash).0 }) hash
                    (delete_upload t.database sha256))
                ∙ gone)
      ]

  abbrev shares_of : MemoryDatabase → Text → ℕ
  shares_of db sha256 = length (owner_keys db.owners sha256)

  -- Where a deletion answers that the blob is deleted, the backend no longer has it.
  delete_as-deleted :
      (s : State) (role : Role) (sha256 pubkey : Text)
      → (delete_as codec compress role s sha256 pubkey).1 ≡ deleted
      → get_blob (delete_as codec compress role s sha256 pubkey).0.backend sha256 ≡ none
  unfolding delete_as get_blob is_upload_owner upload_owner_count delete_upload_owner
  delete_as-deleted s admin sha256 pubkey h = delete_physical-gone s sha256
  delete_as-deleted s denied sha256 pubkey h = absurd (ground (arith, h))
  delete_as-deleted s member sha256 pubkey h =
      elim (Bool-cases (contains_key s.database.owners (sha256, pubkey))) [
        | inr e ↦ absurd (ground (arith, h, e))
        | inl e ↦ elim (Bool-cases (ltb 1 (shares_of s.database sha256))) [
          | inr f ↦ rw (e, f, delete_as) (delete_physical-gone s sha256)
          | inl f ↦ elim (Option-cases (get s.database.owners (sha256, pubkey))) [
            | inl n ↦ absurd (ground (arith, h, e, f, n))
            | inr (r, n) ↦ absurd (ground (arith, h, e, f, n))
          ]
        ]
      ]
