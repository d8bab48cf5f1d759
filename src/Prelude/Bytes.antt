-- ===== src/Prelude/Bytes.antt =====
-- Texts as the lists of their bytes, with Rust's `to_string` and `parse::<usize>` on numbers.
use Prim.Native.Nat.{ℕ, zero, suc, ◌+◌, ◌-◌, ◌*◌, ◌/◌, ◌%◌, ◌^◌, ◌≤◌, ◌<◌}
use Prim.Native.Char.{code}
use Prim.Native.String.{String}
use mathlib.Core.Path.{◌≡◌, refl, ◌∙◌}
use mathlib.Core.Logic.{◌↔◌, inl, inr}
use mathlib.Core.Bool.{Bool, true, false, ◌&&◌}
use mathlib.Core.Option.{Option, none, some}
use mathlib.Core.List.{List, [], ◌∷◌, ◌++◌}
use native.Mathlib.Omega.{arith}
use blossom_rs.Prelude.Tests.{if◌then◌else◌, Bool-cases, ltb, leb, Key, nat_key, ◌==◌}

abbrev pub Text : Type 0
Text = List ℕ

-- A literal.
abbrev pub bytes_of : String → Text
bytes_of String.[] = []
bytes_of (String.◌∷◌ c s) = code c ∷ bytes_of s

module _ {ℓ} {A : Type ℓ} ⦃key : Key A⦄ where
  abbrev pub list_same : List A → List A → Bool
  list_same [] [] = true
  list_same [] (y ∷ ys) = false
  list_same (x ∷ xs) [] = false
  list_same (x ∷ xs) (y ∷ ys) = key.same x y && list_same xs ys

  list_same-eq : (xs ys : List A) → list_same xs ys ≡ true → xs ≡ ys
  list_same-eq [] [] h = refl
  list_same-eq [] (y ∷ ys) h = cc
  list_same-eq (x ∷ xs) [] h = cc
  list_same-eq (x ∷ xs) (y ∷ ys) h = ground (arith, key.same_iff x y, list_same-eq xs ys)

  list_same_refl : (xs : List A) → list_same xs xs ≡ true
  list_same_refl [] = refl
  list_same_refl (x ∷ xs) = ground (arith, key.same_iff x x, list_same_refl xs)

  pub list_same_iff : (xs ys : List A) → (list_same xs ys ≡ true) ↔ (xs ≡ ys)
  list_same_iff xs ys = (list_same-eq xs ys, λ e. rw e (list_same_refl ys))

  instance abbrev pub list_key : Key (List A)
  list_key = record { same = list_same; same_iff = list_same_iff }

-- The decimal digits, the last one outermost; the fuel is one more than the number.
digits : ℕ → ℕ → Text
digits zero n = []
digits (suc fuel) n =
    let front = digits fuel (n / 10) in
    if ltb n 10 then (b'0' + n) ∷ [] else front ++ (b'0' + n % 10) ∷ []

unfoldable pub to_string : ℕ → Text
unfolding digits
to_string n = digits (suc n) n

abbrev pub is_ascii_digit : ℕ → Bool
is_ascii_digit c = leb b'0' c && leb c b'9'

read : ℕ → Text → Option ℕ
read n [] = some n
read n (c ∷ cs) = if is_ascii_digit c then read (n * 10 + (c - b'0')) cs else none

abbrev read_usize : Text → Option ℕ
read_usize [] = none
read_usize (c ∷ cs) = elim (read 0 (c ∷ cs)) [
  | none ↦ none
  | some n ↦ if ltb n (2 ^ 64) then some n else none
]

-- `str::parse::<usize>`, which takes a leading `+` too.
unfoldable pub parse_usize : Text → Option ℕ
unfolding read
parse_usize [] = none
parse_usize (c ∷ cs) = if c == b'+' then read_usize cs else read_usize (c ∷ cs)

read-append : (a b : ℕ) (xs ys : Text) → read a xs ≡ some b → read a (xs ++ ys) ≡ read b ys
unfolding read
read-append a b [] ys h = ground arith
read-append a b (x ∷ xs) ys h = ground (arith, read-append (a * 10 + (x - b'0')) b xs ys)

read-digits : (fuel n : ℕ) → n < fuel → read 0 (digits fuel n) ≡ some n
unfolding read digits
read-digits zero n h = elim h [ ]
read-digits (suc fuel) n h = elim (Bool-cases (ltb n 10)) [
  | inl small ↦ rw small (ground arith)
  | inr big ↦ rw big (
      read-append 0 (n / 10) (digits fuel (n / 10)) ((b'0' + n % 10) ∷ [])
        (read-digits fuel (n / 10) (ground arith))
      ∙ ground arith)
]

digits-head :
    (fuel n : ℕ) → n < fuel → (c : ℕ) × (cs : Text) × (digits fuel n ≡ c ∷ cs) × (b'0' ≤ c)
unfolding digits
digits-head zero n h = elim h [ ]
digits-head (suc fuel) n h = elim (Bool-cases (ltb n 10)) [
  | inl small ↦ rw small (b'0' + n, [], refl, omega arith)
  | inr big ↦
      let (c, cs, e, le) = digits-head fuel (n / 10) (ground arith) in
      rw (big, e) (c, cs ++ (b'0' + n % 10) ∷ [], refl, le)
]

parse_usize_head :
    (c : ℕ) (cs : Text) (n : ℕ)
    → b'0' ≤ c
    → n < 2 ^ 64
    → read 0 (c ∷ cs) ≡ some n
    → parse_usize (c ∷ cs) ≡ some n
unfolding parse_usize
parse_usize_head c cs n le h e = ground (arith, e)

-- A printed number is read back.
pub parse_usize-to_string : (n : ℕ) → n < 2 ^ 64 → parse_usize (to_string n) ≡ some n
unfolding to_string
parse_usize-to_string n h =
    let (c, cs, e, le) = digits-head (suc n) n (omega arith) in
    rw e (parse_usize_head c cs n le h (rw e at (read-digits (suc n) n (omega arith))))
