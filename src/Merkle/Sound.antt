-- ===== src/Merkle/Sound.antt =====
-- What a proof that verifies shows: a leaf, or two pairs of digests that hash alike.
use blossom_rs.Prelude.{
  ◌≢◌, ltb, ◌++◌, Bool-cases, ℕ, zero, suc, ◌%◌, ◌/◌, ◌≡◌, ◌⊎◌, refl, ap, ◌∙◌, Bool, true, false,
  nat_key, string_key, Option, none, some, List, [], ◌∷◌, ◌==◌, lt→ltb, get_elem?, length, arith,
  inl, inr, String, Option-cases, if◌then◌else◌, length-map,
}
use blossom_rs.Merkle.{
  Sha256, IntegrityEntry, SourceMerkleTree, MerkleProof, hash_pair, next_level, fold_levels,
  sibling, proof_loop, merkle_proof, climb, compute_merkle_root, leaf_hashes, proof_for,
  verify_proof, verify_merkle_proof, position,
}
use blossom_rs.Merkle.Complete.{IsBuilt, compute_merkle_root_lem, merkle_proof-loop}

abbrev pub Elem : {A : Type 0} → A → List A → Type 0
Elem x [] = ⊥
Elem x (y ∷ ys) = (x ≡ y) ⊎ Elem x ys

Elem-right : {A : Type 0} (x : A) (xs ys : List A) → Elem x ys → Elem x (xs ++ ys)
Elem-right x [] ys h = h
Elem-right x (y ∷ xs) ys h = inr (Elem-right x xs ys h)

Elem-left : {A : Type 0} (x : A) (xs ys : List A) → Elem x xs → Elem x (xs ++ ys)
Elem-left x [] ys h = absurd h
Elem-left x (y ∷ xs) ys (inl e) = inl e
Elem-left x (y ∷ xs) ys (inr h) = inr (Elem-left x xs ys h)

module _ (sha : Sha256) where
  open sha use {Digest, Hex, hex_encode, hex_decode, decode-encode}

  -- The pairs that `verify_merkle_proof` hashes, from a digest on.
  abbrev pub climb_pairs : Digest → List (Hex × Bool) → List (Digest × Digest)
  climb_pairs d [] = []
  climb_pairs d ((x, right) ∷ rest) = elim (hex_decode x) [
    | none ↦ []
    | some s ↦
        (if right then (d, s) else (s, d))
        ∷ climb_pairs (if right then hash_pair sha d s else hash_pair sha s d) rest
  ]

  -- The pairs that one round of `compute_merkle_root` hashes, and those of all its rounds.
  abbrev pub row_pairs : List Digest → List (Digest × Digest)
  row_pairs [] = []
  row_pairs (a ∷ []) = (a, a) ∷ []
  row_pairs (a ∷ b ∷ hs) = (a, b) ∷ row_pairs hs

  abbrev pub level_pairs : ℕ → List Digest → List (Digest × Digest)
  level_pairs zero hs = []
  level_pairs (suc fuel) hs =
      let rest = level_pairs fuel (next_level sha hs) in
      if ltb 1 (length hs) then row_pairs hs ++ rest else []

  -- Two pairs, one of each list, that are not the same and hash alike.
  abbrev pub Collision : List (Digest × Digest) → List (Digest × Digest) → Type 0
  Collision ps qs =
      (p : Digest × Digest) × (q : Digest × Digest) × Elem p ps
      × Elem q qs
      × (hash_pair sha p.0 p.1 ≡ hash_pair sha q.0 q.1)
      × (p ≢ q)

  -- A pair of the row that is not the given one and hashes alike.
  abbrev Alike : Digest → Digest → List Digest → Type 0
  Alike a b hs =
      (q : Digest × Digest) × Elem q (row_pairs hs)
      × (hash_pair sha a b ≡ hash_pair sha q.0 q.1)
      × (◌≢◌ {A = Digest × Digest} (a, b) q)

  same_or_not : (a b : Digest) → (a ≡ b) ⊎ (a ≢ b)
  same_or_not a b = elim (Bool-cases (sha.hex_key.same (hex_encode a) (hex_encode b))) [
    | inl e ↦
        let texts = (sha.hex_key.same_iff (hex_encode a) (hex_encode b)).0 e in
        inl (cc (decode-encode a, decode-encode b, ap hex_decode texts))
    | inr e ↦
        inr (λ h. cc (e, (sha.hex_key.same_iff (hex_encode a) (hex_encode b)).1 (ap hex_encode h)))
  ]

  paired : (a b x y : Digest) → ((a ≡ x) × (b ≡ y)) ⊎ (◌≢◌ {A = Digest × Digest} (a, b) (x, y))
  paired a b x y = elim (same_or_not a x) [
    | inr e ↦ inr (λ h. e (ap (λ p. p.0) h))
    | inl e ↦ elim (same_or_not b y) [ inr f ↦ inr (λ h. f (ap (λ p. p.1) h)) | inl f ↦ inl (e, f) ]
  ]

  next_level-Elem :
      (hs : List Digest) (a b : Digest)
      → Elem (hash_pair sha a b) (next_level sha hs)
      → (Elem a hs × Elem b hs) ⊎ Alike a b hs
  unfolding next_level
  next_level-Elem [] a b h = absurd h
  next_level-Elem (x ∷ []) a b (inr h) = absurd h
  next_level-Elem (x ∷ []) a b (inl e) = elim (paired a b x x) [
    | inl (p, q) ↦ inl (inl p, inl q)
    | inr other ↦ inr ((x, x), inl refl, e, other)
  ]
  next_level-Elem (x ∷ y ∷ hs) a b (inl e) = elim (paired a b x y) [
    | inl (p, q) ↦ inl (inl p, inr (inl q))
    | inr other ↦ inr ((x, y), inl refl, e, other)
  ]
  next_level-Elem (x ∷ y ∷ hs) a b (inr h) = elim (next_level-Elem hs a b h) [
    | inl (p, q) ↦ inl (inr (inr p), inr (inr q))
    | inr (q, place, e, other) ↦ inr (q, inr place, e, other)
  ]

  loop_inv :
      (o : Option Digest) (r : Option (List (Digest × Bool))) (even : Bool)
      (q : List (Digest × Bool))
      → elim o [ none ↦ none | some s ↦ elim r [ none ↦ none | some p ↦ some ((s, even) ∷ p) ] ]
        ≡ some q
      → (p : List (Digest × Bool)) × (r ≡ some p) × (length q ≡ suc (length p))
  loop_inv none r even q h = cc
  loop_inv (some s) none even q h = cc
  loop_inv (some s) (some p) even q h = (p, refl, ground arith)

  -- A step of the climb from `d` meets the row, or a pair of it that hashes alike.
  side-Elem :
      (right : Bool) (d s : Digest) (hs : List Digest) (rest qs : List (Digest × Digest))
      → Elem (if right then hash_pair sha d s else hash_pair sha s d) (next_level sha hs)
      → Elem d hs ⊎ Collision ((if right then (d, s) else (s, d)) ∷ rest) (row_pairs hs ++ qs)
  side-Elem true d s hs rest qs h = elim (next_level-Elem hs d s h) [
    | inl (p, q) ↦ inl p
    | inr (q, place, e, other) ↦
        inr ((d, s), q, inl refl, Elem-left q (row_pairs hs) qs place, e, other)
  ]
  side-Elem false d s hs rest qs h = elim (next_level-Elem hs s d h) [
    | inl (p, q) ↦ inl q
    | inr (q, place, e, other) ↦
        inr ((s, d), q, inl refl, Elem-left q (row_pairs hs) qs place, e, other)
  ]

  climb-Elem :
      (fuel : ℕ) (hs : List Digest) (i : ℕ) (d top : Digest) (proof : List (Hex × Bool))
      (q : List (Digest × Bool))
      → proof_loop sha fuel hs i ≡ some q
      → fold_levels sha fuel hs ≡ some (top ∷ [])
      → length proof ≡ length q
      → climb sha d proof ≡ some top
      → Elem d hs ⊎ Collision (climb_pairs d proof) (level_pairs fuel hs)
  unfolding proof_loop fold_levels climb
  climb-Elem zero hs i d top proof q h k n c = cc
  climb-Elem (suc fuel) [] i d top proof q h k n c = cc
  climb-Elem (suc fuel) (a ∷ []) i d top [] q h k n c = inl (inl (ground arith))
  climb-Elem (suc fuel) (a ∷ []) i d top (x ∷ proof) q h k n c = absurd (ground arith)
  climb-Elem (suc fuel) (a ∷ b ∷ hs) i d top [] q h k n c = absurd (ground arith)
  climb-Elem (suc fuel) (a ∷ b ∷ hs) i d top ((x, right) ∷ proof) q h k n c =
      let row = a ∷ b ∷ hs in
      let longer = lt→ltb 1 (length row) (omega arith) in
      let (p, made, size) =
        loop_inv (sibling sha row i) (proof_loop sha fuel (next_level sha row) (i / 2)) (i % 2 == 0)
          q (rw longer at h) in
      elim (Option-cases (hex_decode x)) [
        | inl e ↦ cc (rw (e, climb) at c)
        | inr (s, e) ↦
            let up = if right then hash_pair sha d s else hash_pair sha s d in
            rw (longer, climb_pairs, e)
              (elim (climb-Elem fuel (next_level sha row) (i / 2) up top proof p made
                (rw longer at k) (omega (arith, n, size)) (rw (e, climb) at c)) [
                  | inl there ↦
                      side-Elem right d s row (climb_pairs up proof)
                        (level_pairs fuel (next_level sha row)) there
                  | inr (u, v, first, second, alike, other) ↦ inr (
                    u,
                    v,
                    inr first,
                    Elem-right v (row_pairs row) (level_pairs fuel (next_level sha row)) second,
                    alike,
                    other,
                  )
                ])
      ]

  verify_inv :
      (h root : Hex) (proof : List (Hex × Bool))
      → verify_merkle_proof sha h proof root ≡ true
      → (d : Digest) × (top : Digest) × (hex_decode h ≡ some d)
        × (climb sha d proof ≡ some top)
        × (hex_encode top ≡ root)
  unfolding verify_merkle_proof
  verify_inv h root proof v = elim (Option-cases (hex_decode h)) [
    | inl e ↦ cc (rw (e, verify_merkle_proof) at v)
    | inr (d, e) ↦ elim (Option-cases (climb sha d proof)) [
      | inl c ↦ cc (rw (e, verify_merkle_proof, c) at v)
      | inr (top, c) ↦ (
        d,
        top,
        e,
        c,
        (sha.hex_key.same_iff (hex_encode top) root).0 (rw (e, verify_merkle_proof, c) at v),
      )
    ]
  ]

  hex_encode-injective : (a b : Digest) → hex_encode a ≡ hex_encode b → a ≡ b
  hex_encode-injective a b h = cc (decode-encode a, decode-encode b, ap hex_decode h)

  -- A digest is one of the leaves, or the climb from it and the tree hash two pairs alike.
  abbrev pub IsLeafOr : List (IntegrityEntry sha) → Digest → List (Hex × Bool) → Type 0
  IsLeafOr leaves d proof =
      let hashes = leaf_hashes sha leaves in
      Elem d hashes ⊎ Collision (climb_pairs d proof) (level_pairs (length hashes) hashes)

  verify-Elem :
      (leaves : List (IntegrityEntry sha)) (i : ℕ) (leaf : IntegrityEntry sha) (h root : Hex)
      (proof : List (Hex × Bool)) (q : List (Digest × Bool))
      → compute_merkle_root sha leaves ≡ some root
      → get_elem? leaves i ≡ some leaf
      → merkle_proof sha (leaf_hashes sha leaves) i ≡ some q
      → length proof ≡ length q
      → verify_merkle_proof sha h proof root ≡ true
      → (d : Digest) × (hex_decode h ≡ some d) × IsLeafOr leaves d proof
  verify-Elem [] i leaf h root proof q r found m n v = cc
  verify-Elem (l ∷ ls) i leaf h root proof q r found m n v =
      let (d, top, e, c, t) = verify_inv h root proof v in
      let (top', folded, rooted) = compute_merkle_root_lem sha l ls in
      let same : top' ≡ top = hex_encode-injective top' top (cc (rooted, r, t)) in
      (
        d,
        e,
        climb-Elem (length (leaf_hashes sha (l ∷ ls))) (leaf_hashes sha (l ∷ ls)) i d top proof q
            (rw merkle_proof-loop at m) (rw same at folded) n c,
      )

  proof_for_inv :
      (t : SourceMerkleTree sha) (path : String) (q : MerkleProof sha)
      → proof_for sha t path ≡ some q
      → (i : ℕ) × (leaf : IntegrityEntry sha) × (p : List (Digest × Bool)) × (get_elem? t.leaves i
          ≡ some leaf)
        × (merkle_proof sha (leaf_hashes sha t.leaves) i ≡ some p)
        × (length q.proof ≡ length p)
  unfolding proof_for
  proof_for_inv t path q h = elim (Option-cases (position sha path t.leaves)) [
    | inl e ↦ cc (rw (e, proof_for) at h)
    | inr (i, e) ↦ elim (Option-cases (get_elem? t.leaves i)) [
      | inl f ↦ cc (rw (e, proof_for, f) at h)
      | inr (leaf, f) ↦ elim (Option-cases (merkle_proof sha (leaf_hashes sha t.leaves) i)) [
        | inl g ↦ cc (rw (e, proof_for, f, g) at h)
        | inr (p, g) ↦
            let found = rw (e, proof_for, f, g) at h in
            (
              i,
              leaf,
              p,
              f,
              g,
              ground (
                arith,
                found,
                length-map {B = Hex × Bool} p (λ (x : Digest × Bool). (hex_encode x.0, x.1)),
              ),
            )
      ]
    ]
  ]

  -- A proof that verifies against a built tree, of the length that the tree's own proofs have, is one
  -- for the hash of some leaf; or two pairs of digests that are not the same have the same `hash_pair`,
  -- one among those that the check of the proof hashes, and one among those that the tree does.
  pub verify_proof_sound :
      (t : SourceMerkleTree sha) (path : String) (p q : MerkleProof sha)
      → IsBuilt sha t
      → proof_for sha t path ≡ some q
      → length p.proof ≡ length q.proof
      → verify_proof sha t p ≡ true
      → (d : Digest) × (hex_decode p.leaf_hash ≡ some d) × IsLeafOr t.leaves d p.proof
  verify_proof_sound t path p q b m n v =
      let (i, leaf, r, found, made, size) = proof_for_inv t path q m in
      verify-Elem t.leaves i leaf p.leaf_hash t.root p.proof r b.rooted found made (n ∙ size)
        (unfold verify_proof in v)
