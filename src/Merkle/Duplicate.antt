-- ===== src/Merkle/Duplicate.antt =====
-- Two lists of leaves with one root: a row of odd length is completed with its own last node.
use mathlib.Core.List.{map-append}
use blossom_rs.Prelude.{
  ℕ, zero, suc, ◌%◌, ◌<◌, ◌≡◌, ◌≢◌, refl, sym, ap, ◌∙◌, some, List, [], ◌∷◌, ◌++◌, lt→ltb, length,
  length-append, arith, length-map,
}
use blossom_rs.Merkle.{
  Sha256, IntegrityEntry, hash_pair, next_level, fold_levels, compute_merkle_root, leaf_hashes,
  first_hash, decode_or_zeros,
}
use blossom_rs.Merkle.Levels.{length-next_level, fold_levels-total}

module _ (sha : Sha256) where
  open sha use {Digest}

  next_level-twice :
      (hs : List Digest) (d : Digest)
      → length hs % 2 ≡ 0
      → next_level sha (hs ++ d ∷ d ∷ []) ≡ next_level sha (hs ++ d ∷ [])
  unfolding next_level
  next_level-twice [] d h = refl
  next_level-twice (a ∷ []) d h = absurd (omega arith)
  next_level-twice (a ∷ b ∷ hs) d h =
      ap (λ row. hash_pair sha a b ∷ row) (next_level-twice hs d (omega arith))

  fold_levels-suc :
      (fuel : ℕ) (hs row : List Digest)
      → fold_levels sha fuel hs ≡ some row
      → fold_levels sha (suc fuel) hs ≡ some row
  unfolding fold_levels
  fold_levels-suc zero hs row h = cc
  fold_levels-suc (suc fuel) hs row h = ground (arith, fold_levels-suc fuel (next_level sha hs) row)

  fold_one :
      (fuel : ℕ) (row : List Digest)
      → 1 < length row
      → fold_levels sha (suc fuel) row ≡ fold_levels sha fuel (next_level sha row)
  unfolding fold_levels
  fold_one fuel row h = rw (lt→ltb 1 (length row) h)

  root_row-twice :
      (hs : List Digest) (d : Digest)
      → length hs % 2 ≡ 0
      → 0 < length hs
      → fold_levels sha (length (hs ++ d ∷ d ∷ [])) (hs ++ d ∷ d ∷ [])
        ≡ fold_levels sha (length (hs ++ d ∷ [])) (hs ++ d ∷ [])
  root_row-twice hs d even h =
      let m = length hs in
      let long : length (hs ++ d ∷ d ∷ []) ≡ suc (suc m) =
        omega (arith, length-append hs (d ∷ d ∷ [])) in
      let short : length (hs ++ d ∷ []) ≡ suc m = omega (arith, length-append hs (d ∷ [])) in
      let next = next_level sha (hs ++ d ∷ []) in
      let (top, e) =
        fold_levels-total sha m next (omega (arith, length-next_level sha (hs ++ d ∷ []), short))
          (omega (arith, length-next_level sha (hs ++ d ∷ []), short)) in
      rw (long, short)
        (fold_one (suc m) (hs ++ d ∷ d ∷ []) (omega (arith, long))
          ∙ ap (fold_levels sha (suc m)) (next_level-twice hs d even)
          ∙ fold_levels-suc m next (top ∷ []) e
          ∙ sym e
          ∙ sym (fold_one m (hs ++ d ∷ []) (omega (arith, short))))

  -- Where the number of leaves is odd and above one, a tree with its last leaf twice has the root
  -- of the tree with it once.
  pub compute_merkle_root-twice :
      (ls : List (IntegrityEntry sha)) (l : IntegrityEntry sha)
      → length ls % 2 ≡ 0
      → ls ≢ []
      → compute_merkle_root sha (ls ++ l ∷ l ∷ []) ≡ compute_merkle_root sha (ls ++ l ∷ [])
  compute_merkle_root-twice [] l even h = absurd (h refl)
  compute_merkle_root-twice (k ∷ ks) l even h =
      let digest = λ (e : IntegrityEntry sha). decode_or_zeros sha e.sha256 in
      let hs = leaf_hashes sha (k ∷ ks) in
      let size : length hs ≡ length (k ∷ ks) = length-map (k ∷ ks) digest in
      let rows : fold_levels sha (length (leaf_hashes sha (k ∷ ks ++ l ∷ l ∷ [])))
            (leaf_hashes sha (k ∷ ks ++ l ∷ l ∷ []))
          ≡ fold_levels sha (length (leaf_hashes sha (k ∷ ks ++ l ∷ [])))
              (leaf_hashes sha (k ∷ ks ++ l ∷ [])) =
        simp map-append
          (root_row-twice hs (digest l) (omega (arith, size)) (omega (arith, size))) in
      unfold compute_merkle_root in ap (first_hash sha) rows
