-- ===== src/Prelude/Sort.antt =====
-- `slice::sort_by`, which is stable: what it keeps, and that a sort by a number orders the list.
use Prim.Native.Nat.{suc}
use mathlib.Core.Path.{◌≡◌, refl}
use mathlib.Core.Logic.{inl, inr}
use mathlib.Core.Bool.{Bool, true, false}
use mathlib.Core.List.{List, [], ◌∷◌}
use native.Mathlib.Omega.{arith}
use blossom_rs.Prelude.Tests.{if◌then◌else◌, Bool-cases}
use blossom_rs.Prelude.Lists.{length, All, keep}

module _ {ℓ} {A : Type ℓ} (before : A → A → Bool) where
  unfoldable pub place : A → List A → List A
  place a [] = a ∷ []
  place a (x ∷ xs) = if before x a then x ∷ place a xs else a ∷ x ∷ xs

  unfoldable pub sort_by : List A → List A
  unfolding place
  sort_by [] = []
  sort_by (x ∷ xs) = place x (sort_by xs)

  length-place : (a : A) (xs : List A) → length (place a xs) ≡ suc (length xs)
  unfolding place
  length-place a [] = refl
  length-place a (x ∷ xs) = ground (arith, length-place a xs)

  pub length-sort_by : (xs : List A) → length (sort_by xs) ≡ length xs
  unfolding sort_by
  length-sort_by [] = refl
  length-sort_by (x ∷ xs) = ground (arith, length-place x (sort_by xs), length-sort_by xs)

  module _ {κ} (P : A → Type κ) where
    All-place : (a : A) (xs : List A) → P a → All P xs → All P (place a xs)
    unfolding place
    All-place a [] h k = (h, tt)
    All-place a (x ∷ xs) h k = elim (Bool-cases (before x a)) [
      | inl later ↦ rw later (k.0, All-place a xs h k.1)
      | inr here ↦ rw here (h, k)
    ]

    pub All-sort_by : (xs : List A) → All P xs → All P (sort_by xs)
    unfolding sort_by
    All-sort_by [] k = tt
    All-sort_by (x ∷ xs) k = All-place x (sort_by xs) k.0 (All-sort_by xs k.1)

-- Each item stands in the relation `Le` to all that follow.
abbrev pub IsSorted {ℓ} : {A : Type ℓ} → (A → A → Type 0) → List A → Type 0
IsSorted Le [] = Unit
IsSorted Le (x ∷ xs) = All (Le x) xs × IsSorted Le xs

module _ {ℓ} {A : Type ℓ} (before : A → A → Bool) (Le : A → A → Type 0)
    (le_of_before : (x y : A) → before x y ≡ true → Le x y)
    (le_of_not : (x y : A) → before x y ≡ false → Le y x)
    (Le_trans : (x y z : A) → Le x y → Le y z → Le x z) where
  All-Le : (x y : A) (xs : List A) → Le x y → All (Le y) xs → All (Le x) xs
  All-Le x y [] h k = tt
  All-Le x y (z ∷ xs) h k = (Le_trans x y z h k.0, All-Le x y xs h k.1)

  place-IsSorted : (a : A) (xs : List A) → IsSorted Le xs → IsSorted Le (place before a xs)
  unfolding place
  place-IsSorted a [] h = (tt, tt)
  place-IsSorted a (x ∷ xs) h = elim (Bool-cases (before x a)) [
    | inl e ↦ rw e (All-place before (Le x) a xs (le_of_before x a e) h.0, place-IsSorted a xs h.1)
    | inr e ↦ let le = le_of_not x a e in rw e ((le, All-Le a x xs le h.0), h)
  ]

  pub sort_by-IsSorted : (xs : List A) → IsSorted Le (sort_by before xs)
  unfolding sort_by
  sort_by-IsSorted [] = tt
  sort_by-IsSorted (x ∷ xs) = place-IsSorted x (sort_by before xs) (sort_by-IsSorted xs)

module _ {ℓ} {A : Type ℓ} (before : A → A → Bool) where
  keep-place :
      (p : A → Bool) (a : A) (xs : List A)
      → length (keep p (place before a xs)) ≡ length (keep p (a ∷ xs))
  unfolding place
  keep-place p a [] = refl
  keep-place p a (x ∷ xs) = ground (arith, keep-place p a xs)

  -- As many items pass a test after the sort as before it.
  pub keep-sort_by :
      (p : A → Bool) (xs : List A) → length (keep p (sort_by before xs)) ≡ length (keep p xs)
  unfolding sort_by
  keep-sort_by p [] = refl
  keep-sort_by p (x ∷ xs) = ground (arith, keep-place p x (sort_by before xs), keep-sort_by p xs)
