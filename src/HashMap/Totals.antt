-- ===== src/HashMap/Totals.antt =====
-- Sums over the entries of a table.
use blossom_rs.Prelude.{
  ℕ, ◌+◌, ◌≡◌, refl, false, Option, none, some, [], ◌∷◌, arith, Key, ◌==◌, Bool-cases, inl, inr,
}
use blossom_rs.HashMap.{HashMap, get, insert, remove, contains_key, IsMap}

abbrev pub total {ℓ κ} : {K : Type ℓ} {V : Type κ} → (K → V → ℕ) → HashMap K V → ℕ
total w [] = 0
total w ((k, v) ∷ m) = w k v + total w m

abbrev pub weight {ℓ κ} : {K : Type ℓ} {V : Type κ} → (K → V → ℕ) → K → Option V → ℕ
weight w k none = 0
weight w k (some v) = w k v

module _ {ℓ κ} {K : Type ℓ} {V : Type κ} ⦃key : Key K⦄ where
  pub remove_absent : (m : HashMap K V) (k : K) → contains_key m k ≡ false → remove m k ≡ m
  unfolding remove contains_key
  remove_absent [] k h = refl
  remove_absent ((j, v) ∷ m) k h = ground (arith, remove_absent m k)

  module _ (w : K → V → ℕ) where
    pub total-insert_fresh :
        (m : HashMap K V) (k : K) (v : V)
        → contains_key m k ≡ false
        → total w (insert m k v) ≡ total w m + w k v
    unfolding insert contains_key
    total-insert_fresh [] k v h = omega arith
    total-insert_fresh ((j, u) ∷ m) k v h = ground (arith, total-insert_fresh m k v)

    -- What `remove` takes from the sum is the weight of the entry that was there.
    pub total-remove :
        (m : HashMap K V) (k : K)
        → IsMap m
        → total w m ≡ total w (remove m k) + weight w k (get m k)
    unfolding remove get
    total-remove [] k h = refl
    total-remove ((j, v) ∷ m) k h = elim (Bool-cases (j == k)) [
      | inl hit ↦
          let e : j ≡ k = (key.same_iff j k).0 hit in
          let gone : remove m k ≡ m = remove_absent m k (rw (← e) h.0) in
          rw (hit, gone, e) (omega arith)
      | inr miss ↦ rw miss (omega (arith, total-remove m k h.1))
    ]
