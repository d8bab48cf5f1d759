-- ===== src/Merkle/Levels.antt =====
-- Rows of the tree: how a row shrinks, and where a node and its sibling go.
use blossom_rs.Prelude.{
  ◌∙◌, ℕ, zero, suc, ◌+◌, ◌/◌, ◌%◌, ◌≤◌, ◌<◌, ◌≡◌, refl, nat_key, some, List, [], ◌∷◌, ◌==◌, lt→ltb,
  if◌then◌else◌, length, get_elem?, arith,
}
use blossom_rs.Merkle.{Sha256, hash_pair, next_level, fold_levels, sibling, sibling_idx}

sibling_idx-suc : (i : ℕ) → sibling_idx (suc (suc i)) ≡ suc (suc (sibling_idx i))
unfolding sibling_idx
sibling_idx-suc i = ground arith

half-suc : (i : ℕ) → suc (suc i) / 2 ≡ suc (i / 2)
half-suc i = omega arith

parity-suc : (i : ℕ) → suc (suc i) % 2 ≡ i % 2
parity-suc i = omega arith

module _ (sha : Sha256) where
  open sha use {Digest}

  pub length-next_level : (hs : List Digest) → length (next_level sha hs) ≡ (length hs + 1) / 2
  unfolding next_level
  length-next_level [] = omega arith
  length-next_level (a ∷ []) = omega arith
  length-next_level (a ∷ b ∷ hs) = omega (arith, length-next_level hs)

  -- With as much fuel as nodes, the rows end in the one root.
  pub fold_levels-total :
      (fuel : ℕ) (hs : List Digest)
      → 0 < length hs
      → length hs ≤ fuel
      → (top : Digest) × (fold_levels sha fuel hs ≡ some (top ∷ []))
  unfolding fold_levels
  fold_levels-total zero hs h k = absurd (omega arith)
  fold_levels-total (suc fuel) [] h k = absurd (omega arith)
  fold_levels-total (suc fuel) (a ∷ []) h k = (a, refl)
  fold_levels-total (suc fuel) (a ∷ b ∷ hs) h k =
      rw (lt→ltb 1 (length (a ∷ b ∷ hs)) (omega arith)) (
        fold_levels-total fuel (next_level sha (a ∷ b ∷ hs))
          (omega (arith, length-next_level (a ∷ b ∷ hs)))
          (omega (arith, length-next_level (a ∷ b ∷ hs))))

  abbrev pub joined : ℕ → Digest → Digest → Digest
  joined idx d s = if idx % 2 == 0 then hash_pair sha d s else hash_pair sha s d

  sibling_skip :
      (a b : Digest) (hs : List Digest) (i : ℕ)
      → sibling sha (a ∷ b ∷ hs) (suc (suc i)) ≡ sibling sha hs i
  unfolding sibling
  sibling_skip a b hs i = rw (sibling_idx-suc i) (ground arith)

  -- A node's parent is the hash of the node and its sibling, in the order of the row.
  pub next_level-sibling :
      (hs : List Digest) (idx : ℕ) (d : Digest)
      → get_elem? hs idx ≡ some d
      → (s : Digest) × (sibling sha hs idx ≡ some s)
        × (get_elem? (next_level sha hs) (idx / 2) ≡ some (joined idx d s))
  unfolding next_level
  next_level-sibling [] idx d h = cc
  next_level-sibling (a ∷ []) zero d h = (a, unfold sibling sibling_idx in refl, ground arith)
  next_level-sibling (a ∷ []) (suc i) d h = cc
  next_level-sibling (a ∷ b ∷ hs) zero d h =
      (b, unfold sibling sibling_idx in ground arith, ground arith)
  next_level-sibling (a ∷ b ∷ hs) (suc zero) d h =
      (a, unfold sibling sibling_idx in ground arith, ground arith)
  next_level-sibling (a ∷ b ∷ hs) (suc (suc i)) d h =
      let (s, e, f) = next_level-sibling hs i d h in
      (s, sibling_skip a b hs i ∙ e, rw (half-suc i, parity-suc i) f)
