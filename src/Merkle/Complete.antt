-- ===== src/Merkle/Complete.antt =====
-- The proof that the tree gives for a file verifies against the tree's root.
use blossom_rs.Prelude.{
  ℕ, zero, suc, ◌/◌, ◌%◌, ◌≡◌, refl, get_elem?-map, All-get_elem?, Bool, true, nat_key, string_key,
  Option, none, some, List, [], ◌∷◌, map, ◌==◌, lt→ltb, if◌then◌else◌, length, get_elem?, arith,
  All, String, sort_by, All-sort_by,
}
use blossom_rs.Merkle.{
  Sha256, IntegrityEntry, SourceMerkleTree, MerkleProof, next_level, fold_levels, proof_loop,
  merkle_proof, climb, compute_merkle_root, decode_or_zeros, proof_for, verify_proof,
  verify_merkle_proof, position, build, leaf_of, sha256_hex, leaf_hashes, path_before,
}
use blossom_rs.Merkle.Levels.{next_level-sibling, fold_levels-total}

module _ (sha : Sha256) where
  open sha use {Digest, Hex, hex_encode, hex_decode, decode-encode}

  abbrev pub encoded : List (Digest × Bool) → List (Hex × Bool)
  encoded = map (λ (x : Digest × Bool). (hex_encode x.0, x.1))

  -- The loop that makes a proof and the one that folds the rows meet at the root.
  pub proof_loop-climb :
      (fuel : ℕ) (hs : List Digest) (idx : ℕ) (d top : Digest)
      → get_elem? hs idx ≡ some d
      → fold_levels sha fuel hs ≡ some (top ∷ [])
      → (p : List (Digest × Bool)) × (proof_loop sha fuel hs idx ≡ some p)
        × (climb sha d (encoded p) ≡ some top)
  unfolding fold_levels proof_loop climb
  proof_loop-climb zero hs idx d top h k = cc
  proof_loop-climb (suc fuel) [] idx d top h k = cc
  proof_loop-climb (suc fuel) (a ∷ []) zero d top h k = ([], refl, ground arith)
  proof_loop-climb (suc fuel) (a ∷ []) (suc idx) d top h k = cc
  proof_loop-climb (suc fuel) (a ∷ b ∷ hs) idx d top h k =
      let row = a ∷ b ∷ hs in
      let longer = lt→ltb 1 (length row) (omega arith) in
      let (s, e, f) = next_level-sibling sha row idx d h in
      let (p, g, c) =
        proof_loop-climb fuel (next_level sha row) (idx / 2) _ top f (rw longer at k) in
      ((s, idx % 2 == 0) ∷ p, rw (longer, e, g) refl, rw decode-encode c)

  -- The leaves hold digests, and the root is the one of the leaves.
  pub record IsBuilt (t : SourceMerkleTree sha) : Type 0 where
    pub decodable :
        All (λ (e : IntegrityEntry sha). (d : Digest) × (hex_decode e.sha256 ≡ some d)) t.leaves
    pub rooted : compute_merkle_root sha t.leaves ≡ some t.root

  abbrev pub root_row : List (IntegrityEntry sha) → Option (List Digest)
  root_row ls = fold_levels sha (length (leaf_hashes sha ls)) (leaf_hashes sha ls)

  pub compute_merkle_root_lem :
      (l : IntegrityEntry sha) (ls : List (IntegrityEntry sha))
      → (top : Digest) × (root_row (l ∷ ls) ≡ some (top ∷ []))
        × (compute_merkle_root sha (l ∷ ls) ≡ some (hex_encode top))
  unfolding compute_merkle_root
  compute_merkle_root_lem l ls =
      let hs = leaf_hashes sha (l ∷ ls) in
      let (top, e) = fold_levels-total sha (length hs) hs (omega arith) (omega arith) in
      (top, e, rw (e, compute_merkle_root))

  -- The root is there for any leaves: the fuel is enough.
  compute_merkle_root-total :
      (leaves : List (IntegrityEntry sha))
      → (root : Hex) × (compute_merkle_root sha leaves ≡ some root)
  unfolding compute_merkle_root
  compute_merkle_root-total [] = (hex_encode sha.zeros, refl)
  compute_merkle_root-total (l ∷ ls) =
      let (top, _, e) = compute_merkle_root_lem l ls in (hex_encode top, e)

  leaf_of-decodable :
      (files : List (String × List ℕ))
      → All
          (λ (e : IntegrityEntry sha). (d : Digest) × (hex_decode e.sha256 ≡ some d))
          (map (leaf_of sha) files)
  unfolding leaf_of sha256_hex
  leaf_of-decodable [] = tt
  leaf_of-decodable ((path, content) ∷ files) =
      ((sha.digest content, decode-encode (sha.digest content)), leaf_of-decodable files)

  -- A build always gives a tree, whose root is that of its leaves, and whose leaves hold digests.
  build-IsBuilt :
      (files : List (String × List ℕ))
      → (t : SourceMerkleTree sha) × (build sha files ≡ some t) × IsBuilt t
  unfolding build
  build-IsBuilt files =
      let leaves = sort_by (path_before sha) (map (leaf_of sha) files) in
      let (root, e) = compute_merkle_root-total leaves in
      (
        record {
          version = 1;
          hash_algorithm = "sha256";
          root = root;
          file_count = length leaves;
          leaves = leaves;
          signer_npub = none;
          signature = none;
        },
        rw (e, build),
        record {
          decodable =
              All-sort_by (path_before sha) _ (map (leaf_of sha) files) (leaf_of-decodable files);
          rooted = e;
        },
      )

  pub merkle_proof-loop :
      (h : Digest) (hs : List Digest) (i : ℕ)
      → merkle_proof sha (h ∷ hs) i ≡ proof_loop sha (length (h ∷ hs)) (h ∷ hs) i
  unfolding merkle_proof proof_loop
  merkle_proof-loop h [] i = refl
  merkle_proof-loop h (k ∷ hs) i = ground arith

  position-get_elem? :
      (path : String) (es : List (IntegrityEntry sha)) (i : ℕ)
      → position sha path es ≡ some i
      → (leaf : IntegrityEntry sha) × (get_elem? es i ≡ some leaf)
  unfolding position
  position-get_elem? path [] i h = cc
  position-get_elem? path (e ∷ es) zero h = (e, refl)
  position-get_elem? path (e ∷ es) (suc i) h =
      position-get_elem? path es i (position-suc (position sha path es) h)
    where
      position-suc :
          (o : Option ℕ)
          → (if e.path == path then some 0 else elim o [ none ↦ none | some j ↦ some (suc j) ])
            ≡ some (suc i)
          → o ≡ some i
      position-suc o h = ground arith

  abbrev IsLeaf : IntegrityEntry sha → Type 0
  IsLeaf e = (d : Digest) × (hex_decode e.sha256 ≡ some d)

  decode_or_zeros-decoded :
      (h : Hex) (d : Digest) → hex_decode h ≡ some d → decode_or_zeros sha h ≡ d
  unfolding decode_or_zeros
  decode_or_zeros-decoded h d e = rw (e, decode_or_zeros)

  verify-climb :
      (h root : Hex) (d top : Digest) (proof : List (Hex × Bool))
      → hex_decode h ≡ some d
      → climb sha d proof ≡ some top
      → hex_encode top ≡ root
      → verify_merkle_proof sha h proof root ≡ true
  unfolding verify_merkle_proof
  verify-climb h root d top proof e c r =
      rw (e, verify_merkle_proof, c) ((sha.hex_key.same_iff (hex_encode top) root).1 r)

  leaf_proof :
      (leaves : List (IntegrityEntry sha)) (i : ℕ) (leaf : IntegrityEntry sha) (root : Hex)
      → All IsLeaf leaves
      → compute_merkle_root sha leaves ≡ some root
      → get_elem? leaves i ≡ some leaf
      → (p : List (Digest × Bool)) × (merkle_proof sha (leaf_hashes sha leaves) i ≡ some p)
        × (verify_merkle_proof sha leaf.sha256 (encoded p) root ≡ true)
  leaf_proof [] i leaf root a r h = cc
  leaf_proof (l ∷ ls) i leaf root a r h =
      let (d, decoded) = All-get_elem? IsLeaf (l ∷ ls) i leaf a h in
      let (top, folded, rooted) = compute_merkle_root_lem l ls in
      let at : get_elem? (leaf_hashes sha (l ∷ ls)) i ≡ some (decode_or_zeros sha leaf.sha256) =
        get_elem?-map (λ (e : IntegrityEntry sha). decode_or_zeros sha e.sha256) (l ∷ ls) i leaf
          h in
      let (p, made, climbed) =
        proof_loop-climb (length (leaf_hashes sha (l ∷ ls))) (leaf_hashes sha (l ∷ ls)) i d top
          (rw (decode_or_zeros-decoded leaf.sha256 d decoded) at at) folded in
      (
        p,
        rw merkle_proof-loop made,
        verify-climb leaf.sha256 root d top (encoded p) decoded climbed (cc (rooted, r)),
      )

  -- In a built tree every path among the leaves has a proof, and the proof verifies.
  pub proof_for-verify_proof :
      (t : SourceMerkleTree sha) (path : String) (i : ℕ)
      → IsBuilt t
      → position sha path t.leaves ≡ some i
      → (p : MerkleProof sha) × (proof_for sha t path ≡ some p) × (verify_proof sha t p ≡ true)
  proof_for-verify_proof t path i v h =
      let (leaf, at_i) = position-get_elem? path t.leaves i h in
      let (p, made, verified) = leaf_proof t.leaves i leaf t.root v.decodable v.rooted at_i in
      (
        record {
          path = path;
          leaf_hash = leaf.sha256;
          leaf_index = i;
          proof = encoded p;
          root = t.root;
        },
        unfold proof_for in rw (h, proof_for, at_i, made) refl,
        unfold verify_proof in verified,
      )
