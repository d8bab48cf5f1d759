-- ===== src/Merkle.antt =====
-- src/integrity.rs: the Merkle tree over the source files, its inclusion proofs and their check.
-- Digests, the hasher and the hex text are the crates' (`sha2`, `hex`); they enter as a record.
pub mod Levels
pub mod Sound
pub mod Duplicate
mod Tests
pub mod Complete
use blossom_rs.Prelude.{
  ℕ, zero, suc, ◌+◌, ◌-◌, ◌/◌, ◌%◌, ◌≡◌, Bool, true, false, String, string_key, nat_key, Option,
  none, some, List, [], ◌∷◌, map, ◌==◌, Key, ltb, leb, if◌then◌else◌, length, get_elem?, find,
  sort_by, str_lt,
}

pub record Sha256 : Type 1 where
  pub Digest : Type 0
  pub Hasher : Type 0
  -- `Sha256::new()`, `update` with the bytes of a digest, and `finalize`.
  pub new_hasher : Hasher
  pub update : Hasher → Digest → Hasher
  pub finalize : Hasher → Digest
  -- A digest of bytes at once, and `[0u8; 32]`.
  pub digest : List ℕ → Digest
  pub zeros : Digest
  -- The texts that hold a digest, `hex::encode`, and `hex::decode` with the conversion to 32 bytes.
  pub Hex : Type 0
  pub hex_key : Key Hex
  pub hex_encode : Digest → Hex
  pub hex_decode : Hex → Option Digest
  pub decode-encode : (d : Digest) → hex_decode (hex_encode d) ≡ some d

module _ (sha : Sha256) where
  open sha use {Digest, Hex}

  pub record IntegrityEntry : Type 0 where
    pub path : String
    pub sha256 : Hex

  pub record MerkleProof : Type 0 where
    pub path : String
    pub leaf_hash : Hex
    pub leaf_index : ℕ
    -- The flag says that the sibling is on the right.
    pub proof : List (Hex × Bool)
    pub root : Hex

  pub record SourceMerkleTree : Type 0 where
    pub version : ℕ
    pub hash_algorithm : String
    pub root : Hex
    pub file_count : ℕ
    pub leaves : List IntegrityEntry
    pub signer_npub : Option String
    pub signature : Option String

pub sibling_idx : ℕ → ℕ
sibling_idx idx = if idx % 2 == 0 then idx + 1 else idx - 1

module _ (sha : Sha256) where
  open sha use {Digest, Hex, zeros, hex_encode, hex_decode}

  pub hash_pair : Digest → Digest → Digest
  hash_pair left right = sha.finalize (sha.update (sha.update sha.new_hasher left) right)

  -- One round of the `while` loops: the hashes of `chunks(2)`.
  pub next_level : List Digest → List Digest
  next_level [] = []
  next_level (a ∷ []) = hash_pair a a ∷ []
  next_level (a ∷ b ∷ hs) = hash_pair a b ∷ next_level hs

  -- `while hashes.len() > 1`; `none` means that the fuel ran out.
  pub fold_levels : ℕ → List Digest → Option (List Digest)
  fold_levels zero hs = none
  fold_levels (suc fuel) hs =
      let rest = fold_levels fuel (next_level hs) in if ltb 1 (length hs) then rest else some hs

  pub decode_or_zeros : Hex → Digest
  decode_or_zeros h = elim (hex_decode h) [ none ↦ zeros | some d ↦ d ]

  abbrev pub leaf_hashes : List (IntegrityEntry sha) → List Digest
  leaf_hashes = map (λ (e : IntegrityEntry sha). decode_or_zeros e.sha256)

  -- `hex::encode(hashes[0])`; `none` would be its panic.
  abbrev pub first_hash : Option (List Digest) → Option Hex
  first_hash (some (h ∷ hs)) = some (hex_encode h)
  first_hash (some []) = none
  first_hash none = none

  pub compute_merkle_root : List (IntegrityEntry sha) → Option Hex
  compute_merkle_root [] = some (hex_encode zeros)
  compute_merkle_root (l ∷ ls) =
      let hashes = leaf_hashes (l ∷ ls) in first_hash (fold_levels (length hashes) hashes)

  -- The sibling of `hashes[idx]`, or the node itself where the row ends with it.
  pub sibling : List Digest → ℕ → Option Digest
  sibling hashes idx =
      if ltb (sibling_idx idx) (length hashes)
      then get_elem? hashes (sibling_idx idx)
      else get_elem? hashes idx

  -- The loop of `merkle_proof`; `none` is an index out of range, or fuel that ran out.
  pub proof_loop : ℕ → List Digest → ℕ → Option (List (Digest × Bool))
  proof_loop zero hashes idx = none
  proof_loop (suc fuel) hashes idx =
      let rest = proof_loop fuel (next_level hashes) (idx / 2) in
      if ltb 1 (length hashes)
      then elim (sibling hashes idx) [
        | none ↦ none
        | some s ↦ elim rest [ none ↦ none | some p ↦ some ((s, idx % 2 == 0) ∷ p) ]
      ]
      else some []

  pub merkle_proof : List Digest → ℕ → Option (List (Digest × Bool))
  merkle_proof leaves index =
      let proof = proof_loop (length leaves) leaves index in
      if leb (length leaves) 1 then some [] else proof

  -- The loop of `verify_merkle_proof`; `none` is a sibling that is no digest.
  pub climb : Digest → List (Hex × Bool) → Option Digest
  climb current [] = some current
  climb current ((sibling_hex, is_right) ∷ rest) = elim (hex_decode sibling_hex) [
    | none ↦ none
    | some s ↦ climb (if is_right then hash_pair current s else hash_pair s current) rest
  ]

  pub verify_merkle_proof : Hex → List (Hex × Bool) → Hex → Bool
  verify_merkle_proof leaf_hash proof expected_root = elim (hex_decode leaf_hash) [
    | none ↦ false
    | some h ↦ elim (climb h proof) [
      | none ↦ false
      | some top ↦ sha.hex_key.same (hex_encode top) expected_root
    ]
  ]

  -- `Iterator::position` by the path.
  pub position : String → List (IntegrityEntry sha) → Option ℕ
  position path [] = none
  position path (e ∷ es) =
      if e.path == path
      then some 0
      else elim (position path es) [ none ↦ none | some i ↦ some (suc i) ]

  pub proof_for : SourceMerkleTree sha → String → Option (MerkleProof sha)
  proof_for t path = elim (position path t.leaves) [
    | none ↦ none
    | some i ↦ elim (get_elem? t.leaves i) [
      | none ↦ none
      | some leaf ↦ elim (merkle_proof (leaf_hashes t.leaves) i) [
        | none ↦ none
        | some p ↦ some (record {
          path = path;
          leaf_hash = leaf.sha256;
          leaf_index = i;
          proof = map (λ (x : Digest × Bool). (hex_encode x.0, x.1)) p;
          root = t.root;
        })
      ]
    ]
  ]

  -- `protocol::sha256_hex`.
  pub sha256_hex : List ℕ → Hex
  sha256_hex content = hex_encode (sha.digest content)

  abbrev pub path_before : IntegrityEntry sha → IntegrityEntry sha → Bool
  path_before x y = str_lt x.path y.path

  pub leaf_of : String × List ℕ → IntegrityEntry sha
  leaf_of (path, content) = record { path = path; sha256 = sha256_hex content }

  -- `SourceMerkleTree::build` once the files are read.
  pub build : List (String × List ℕ) → Option (SourceMerkleTree sha)
  unfolding leaf_of
  build files =
      let leaves = sort_by path_before (map leaf_of files) in
      elim (compute_merkle_root leaves) [
        | none ↦ none
        | some root ↦ some (record {
          version = 1;
          hash_algorithm = "sha256";
          root = root;
          file_count = length leaves;
          leaves = leaves;
          signer_npub = none;
          signature = none;
        })
      ]

  -- `none` is the error that the file is not in the tree.
  pub verify_file : SourceMerkleTree sha → String → List ℕ → Option Bool
  verify_file t path content = elim (find (λ (e : IntegrityEntry sha). e.path == path) t.leaves) [
    | none ↦ none
    | some e ↦ some (sha.hex_key.same (sha256_hex content) e.sha256)
  ]

  pub verify_proof : SourceMerkleTree sha → MerkleProof sha → Bool
  verify_proof t p = verify_merkle_proof p.leaf_hash p.proof t.root
