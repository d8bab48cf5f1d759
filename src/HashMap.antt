-- ===== src/HashMap.antt =====
-- `std::collections::HashMap` and `DashMap`, as lists of entries.
pub mod Totals
use mathlib.Core.Path.{subst₂}
use blossom_rs.Prelude.{
  ℕ, suc, ◌≤◌, ◌<◌, ◌≡◌, refl, ap, Bool, true, false, Option, none, some, List, [], ◌∷◌, map, arith,
  Key, ◌==◌, if◌then◌else◌, length, keep, Bool-cases, inl, inr, same_refl,
}

abbrev pub HashMap {ℓ κ} : Type ℓ → Type κ → Type (ℓ ⊔ κ)
HashMap K V = List (K × V)

module _ {ℓ κ} {K : Type ℓ} {V : Type κ} ⦃e : Key K⦄ where
  unfoldable pub get : HashMap K V → K → Option V
  get [] k = none
  get ((j, v) ∷ m) k = if j == k then some v else get m k

  unfoldable pub insert : HashMap K V → K → V → HashMap K V
  insert [] k v = (k, v) ∷ []
  insert ((j, w) ∷ m) k v = if j == k then (k, v) ∷ m else (j, w) ∷ insert m k v

  unfoldable pub remove : HashMap K V → K → HashMap K V
  remove [] k = []
  remove ((j, v) ∷ m) k = if j == k then remove m k else (j, v) ∷ remove m k

  unfoldable pub contains_key : HashMap K V → K → Bool
  contains_key [] k = false
  contains_key ((j, v) ∷ m) k = if j == k then true else contains_key m k

module _ {ℓ κ} {K : Type ℓ} {V : Type κ} where
  abbrev pub values : HashMap K V → List V
  values m = map (λ p. p.1) m

  abbrev pub len : HashMap K V → ℕ
  len m = length m

  -- `HashMap::retain`, which drops the entries that fail the test.
  abbrev pub retain : (K → V → Bool) → HashMap K V → HashMap K V
  retain p m = keep (λ x. p x.0 x.1) m

module _ {ℓ κ} {K : Type ℓ} {V : Type κ} ⦃e : Key K⦄ where
  pub get-insert :
      (m : HashMap K V) (k j : K) (v : V)
      → get (insert m k v) j ≡ (if k == j then some v else get m j)
  unfolding get insert
  get-insert [] k j v = refl
  get-insert ((i, w) ∷ m) k j v =
      ground (arith, e.same_iff k j, e.same_iff i k, e.same_iff i j, get-insert m k j v)

  pub get-insert_self : (m : HashMap K V) (k : K) (v : V) → get (insert m k v) k ≡ some v
  get-insert_self m k v = rw (get-insert, same_refl)

  pub get-remove :
      (m : HashMap K V) (k j : K) → get (remove m k) j ≡ (if k == j then none else get m j)
  unfolding get remove
  get-remove [] k j = ground arith
  get-remove ((i, w) ∷ m) k j =
      ground (arith, e.same_iff k j, e.same_iff i k, e.same_iff i j, get-remove m k j)

  pub contains_key-get :
      (m : HashMap K V) (k : K) → contains_key m k ≡ elim (get m k) [ none ↦ false | some _ ↦ true ]
  unfolding get contains_key
  contains_key-get [] k = refl
  contains_key-get ((j, v) ∷ m) k = ground (arith, contains_key-get m k)

  pub len-insert :
      (m : HashMap K V) (k : K) (v : V)
      → len (insert m k v) ≡ (if contains_key m k then len m else suc (len m))
  unfolding insert contains_key
  len-insert [] k v = refl
  len-insert ((j, w) ∷ m) k v = ground (arith, len-insert m k v)

  pub len-remove-le : (m : HashMap K V) (k : K) → len (remove m k) ≤ len m
  unfolding remove
  len-remove-le [] k = omega arith
  len-remove-le ((j, w) ∷ m) k = ground (arith, len-remove-le m k)

  pub len-remove-lt : (m : HashMap K V) (k : K) → contains_key m k ≡ true → len (remove m k) < len m
  unfolding remove contains_key
  len-remove-lt [] k h = cc
  len-remove-lt ((j, w) ∷ m) k h = ground (arith, len-remove-lt m k, len-remove-le m k)

pub ruleset map_laws = (get-insert, get-remove)

-- Every entry satisfies `P`.
abbrev pub Each {ℓ κ μ} : {K : Type ℓ} {V : Type κ} → (K → V → Type μ) → HashMap K V → Type μ
Each P [] = Unit
Each P ((k, v) ∷ m) = P k v × Each P m

module _ {ℓ κ μ} {K : Type ℓ} {V : Type κ} ⦃e : Key K⦄ (P : K → V → Type μ) where
  pub Each-insert : (m : HashMap K V) (k : K) (v : V) → P k v → Each P m → Each P (insert m k v)
  unfolding insert
  Each-insert [] k v h a = (h, tt)
  Each-insert ((j, w) ∷ m) k v h a = elim (Bool-cases (j == k)) [
    | inl hit ↦ rw hit (h, a.1)
    | inr miss ↦ rw miss (a.0, Each-insert m k v h a.1)
  ]

  pub Each-remove : (m : HashMap K V) (k : K) → Each P m → Each P (remove m k)
  unfolding remove
  Each-remove [] k a = tt
  Each-remove ((j, w) ∷ m) k a = elim (Bool-cases (j == k)) [
    | inl hit ↦ rw hit (Each-remove m k a.1)
    | inr miss ↦ rw miss (a.0, Each-remove m k a.1)
  ]

  pub Each-get : (m : HashMap K V) (k : K) (v : V) → Each P m → get m k ≡ some v → P k v
  unfolding get
  Each-get [] k v a h = cc
  Each-get ((j, w) ∷ m) k v a h = elim (Bool-cases (j == k)) [
    | inl hit ↦
        let e₁ : j ≡ k = (e.same_iff j k).0 hit in
        let e₂ : w ≡ v = ground arith in subst₂ P e₁ e₂ a.0
    | inr miss ↦ Each-get m k v a.1 (ground arith)
  ]

  pub Each-retain : (p : K → V → Bool) (m : HashMap K V) → Each P m → Each P (retain p m)
  Each-retain p [] a = tt
  Each-retain p ((j, w) ∷ m) a = elim (Bool-cases (p j w)) [
    | inl kept ↦ rw kept (a.0, Each-retain p m a.1)
    | inr dropped ↦ rw dropped (Each-retain p m a.1)
  ]

-- The keys are pairwise different, as they are in every table of the program.
abbrev pub IsMap {ℓ κ} : {K : Type ℓ} {V : Type κ} ⦃e : Key K⦄ → HashMap K V → Type 0
IsMap [] = Unit
IsMap ((k, v) ∷ m) = (contains_key m k ≡ false) × IsMap m

module _ {ℓ κ} {K : Type ℓ} {V : Type κ} ⦃e : Key K⦄ where
  pub contains_key-insert :
      (m : HashMap K V) (k j : K) (v : V)
      → contains_key (insert m k v) j ≡ (if k == j then true else contains_key m j)
  unfolding contains_key insert
  contains_key-insert [] k j v = refl
  contains_key-insert ((i, w) ∷ m) k j v =
      ground (arith, e.same_iff k j, e.same_iff i k, e.same_iff i j, contains_key-insert m k j v)

  pub contains_key-remove :
      (m : HashMap K V) (k j : K)
      → contains_key (remove m k) j ≡ (if k == j then false else contains_key m j)
  unfolding contains_key remove
  contains_key-remove [] k j = ground arith
  contains_key-remove ((i, w) ∷ m) k j =
      ground (arith, e.same_iff k j, e.same_iff i k, e.same_iff i j, contains_key-remove m k j)

  contains_key-retain :
      (p : K → V → Bool) (m : HashMap K V) (k : K)
      → contains_key m k ≡ false
      → contains_key (retain p m) k ≡ false
  unfolding contains_key
  contains_key-retain p [] k h = refl
  contains_key-retain p ((i, w) ∷ m) k h = ground (arith, contains_key-retain p m k)

  pub IsMap-insert : (m : HashMap K V) (k : K) (v : V) → IsMap m → IsMap (insert m k v)
  unfolding insert
  IsMap-insert [] k v h = (unfold contains_key in refl, tt)
  IsMap-insert ((i, w) ∷ m) k v h =
      ground
        (arith, e.same_iff i k, e.same_iff k i, contains_key-insert m k i v, IsMap-insert m k v h.1)

  pub IsMap-remove : (m : HashMap K V) (k : K) → IsMap m → IsMap (remove m k)
  unfolding remove
  IsMap-remove [] k h = tt
  IsMap-remove ((i, w) ∷ m) k h = ground (arith, contains_key-remove m k i, IsMap-remove m k h.1)

  pub IsMap-retain : (p : K → V → Bool) (m : HashMap K V) → IsMap m → IsMap (retain p m)
  IsMap-retain p [] h = tt
  IsMap-retain p ((i, w) ∷ m) h = ground (arith, contains_key-retain p m i, IsMap-retain p m h.1)

  abbrev pub kept : (K → V → Bool) → K → Option V → Option V
  kept p k none = none
  kept p k (some v) = if p k v then some v else none

  get_absent : (m : HashMap K V) (k : K) → contains_key m k ≡ false → get m k ≡ none
  get_absent m k h = ground (arith, contains_key-get m k)

  pub get-retain :
      (p : K → V → Bool) (m : HashMap K V) (k : K)
      → IsMap m
      → get (retain p m) k ≡ kept p k (get m k)
  unfolding get
  get-retain p [] k h = refl
  get-retain p ((i, w) ∷ m) k h = elim (Bool-cases (i == k)) [
    | inl hit ↦
        let same : i ≡ k = (e.same_iff i k).0 hit in
        let gone : contains_key (retain p m) k ≡ false =
          rw (← same) (contains_key-retain p m i h.0) in
        ground (arith, gone, get_absent (retain p m) k, ap (λ j. p j w) same)
    | inr miss ↦ ground (arith, get-retain p m k h.1)
  ]
