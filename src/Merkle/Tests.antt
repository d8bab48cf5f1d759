-- ===== src/Merkle/Tests.antt =====
-- The tree over digests that are numbers.
use blossom_rs.Prelude.{
  ℕ, ◌+◌, ◌*◌, ◌≡◌, refl, true, false, nat_key, String, string_key, Option, none, some, List, [],
  ◌∷◌, arith, length, sort_by,
}
use blossom_rs.Merkle.{
  Sha256, IntegrityEntry, SourceMerkleTree, MerkleProof, hash_pair, build, proof_for, verify_proof,
  position, compute_merkle_root, sha256_hex, merkle_proof, proof_loop, sibling, sibling_idx,
  next_level, fold_levels, decode_or_zeros, climb, verify_merkle_proof, verify_file,
}
use blossom_rs.Merkle.Complete.{IsBuilt, proof_for-verify_proof}
use blossom_rs.Merkle.Sound.{IsLeafOr, verify_proof_sound}
use blossom_rs.Merkle.Duplicate.{compute_merkle_root-twice}

abbrev pair : ℕ → ℕ → ℕ
pair a b = (a + b) * (a + b) + a

abbrev toy_finalize : List ℕ → ℕ
toy_finalize (b ∷ a ∷ []) = pair a b
toy_finalize _ = 0

abbrev toy : Sha256
toy = record {
  Digest = ℕ;
  Hasher = List ℕ;
  new_hasher = [];
  update = λ h d. d ∷ h;
  finalize = toy_finalize;
  digest = length;
  zeros = 0;
  Hex = ℕ;
  hex_key = nat_key;
  hex_encode = λ d. d;
  hex_decode = some;
  decode-encode = λ d. refl;
}

abbrev leaf : String → ℕ → IntegrityEntry toy
leaf path hash = record { path = path; sha256 = hash }

-- pair 1 2 = 10 and pair 3 3 = 39; pair 10 39 = 2411.
abbrev tree : SourceMerkleTree toy
tree = record {
  root = 2411;
  file_count = 3;
  version = 1;
  hash_algorithm = "sha256";
  signer_npub = none;
  signature = none;
  leaves = leaf "a" 1 ∷ leaf "b" 2 ∷ leaf "c" 3 ∷ [];
}

abbrev proof_of_c : MerkleProof toy
proof_of_c = record {
  path = "c";
  leaf_hash = 3;
  leaf_index = 2;
  proof = (3, true) ∷ (10, false) ∷ [];
  root = 2411;
}

build_sorts : build toy (("c", 7 ∷ 7 ∷ 7 ∷ []) ∷ ("a", 7 ∷ []) ∷ ("b", 7 ∷ 7 ∷ []) ∷ []) ≡ some tree
unfolding build sort_by compute_merkle_root sha256_hex fold_levels next_level hash_pair
    decode_or_zeros
build_sorts = refl

proof_for_c : proof_for toy tree "c" ≡ some proof_of_c
unfolding proof_for position merkle_proof proof_loop sibling sibling_idx next_level hash_pair
    decode_or_zeros
proof_for_c = refl

files_checked :
    (verify_file toy tree "b" (0 ∷ 0 ∷ []) ≡ some true)
    × (verify_file toy tree "b" (0 ∷ []) ≡ some false)
    × (verify_file toy tree "d" [] ≡ none)
unfolding verify_file sha256_hex
files_checked = (refl, refl, refl)

tampered_leaf : verify_proof toy tree (record proof_of_c { leaf_hash = 4 }) ≡ false
unfolding verify_proof verify_merkle_proof climb hash_pair
tampered_leaf = refl

tree-IsBuilt : IsBuilt toy tree
unfolding compute_merkle_root fold_levels next_level hash_pair decode_or_zeros
tree-IsBuilt = record { decodable = ((1, refl), ((2, refl), ((3, refl), tt))); rooted = refl }

proof_for-verify_proof_example :
    (p : MerkleProof toy) × (proof_for toy tree "c" ≡ some p) × (verify_proof toy tree p ≡ true)
unfolding position
proof_for-verify_proof_example = proof_for-verify_proof toy tree "c" 2 tree-IsBuilt refl

verify_proof_sound_example :
    (d : ℕ) × (◌≡◌ {A = Option ℕ} (some 3) (some d)) × IsLeafOr toy tree.leaves d proof_of_c.proof
verify_proof_sound_example =
    verify_proof_sound toy tree "c" proof_of_c proof_of_c tree-IsBuilt proof_for_c refl verified
  where
    verified : verify_proof toy tree proof_of_c ≡ true
    verified = unfold verify_proof verify_merkle_proof climb hash_pair in refl

compute_merkle_root-twice_example :
    compute_merkle_root toy (leaf "a" 1 ∷ leaf "b" 2 ∷ leaf "c" 3 ∷ leaf "c" 3 ∷ [])
    ≡ compute_merkle_root toy (leaf "a" 1 ∷ leaf "b" 2 ∷ leaf "c" 3 ∷ [])
compute_merkle_root-twice_example =
    compute_merkle_root-twice toy (leaf "a" 1 ∷ leaf "b" 2 ∷ []) (leaf "c" 3) (omega arith)
      (λ e. cc)
