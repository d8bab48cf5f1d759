-- ===== src/Server/Nip96/Paging.antt =====
-- The pages of the NIP-96 list.
use blossom_rs.Prelude.{
  ℕ, zero, suc, ◌+◌, ◌-◌, ◌*◌, ◌%◌, ◌^◌, ◌<◌, ◌≡◌, refl, ap, sym, ◌∙◌, List, [], ◌∷◌, ◌++◌, take,
  drop, arith,
}
use blossom_rs.Db.{UploadRecord}
use blossom_rs.Server.Nip96.{page_of}

-- The first so many pages, one after the other.
abbrev pub pages : List UploadRecord → ℕ → ℕ → List UploadRecord
pages records zero count = []
pages records (suc n) count = pages records n count ++ page_of records (suc n) count

take_none : (n : ℕ) → take {A = UploadRecord} n [] ≡ []
take_none zero = refl
take_none (suc n) = refl

take-sum : (m n : ℕ) (xs : List UploadRecord) → take m xs ++ take n (drop m xs) ≡ take (m + n) xs
take-sum zero n xs = let e : n ≡ 0 + n = omega arith in ap (λ k. take k xs) e
take-sum (suc m) n [] = take_none n ∙ sym (take_none (suc m + n))
take-sum (suc m) n (x ∷ xs) =
    let e : suc (m + n) ≡ suc m + n = omega arith in
    ap (λ ys. x ∷ ys) (take-sum m n xs) ∙ ap (λ k. take k (x ∷ xs)) e

below : (k : ℕ) → k < 2 ^ 32 → k % 2 ^ 32 ≡ k
below k h = omega (arith, h)

-- The first pages, one after the other, are the first of the records, none of them twice and none left
-- out, as long as the number of the records before the last of the pages is below 2^32.
pages-take :
    (records : List UploadRecord) (n count : ℕ)
    → n * count < 2 ^ 32
    → pages records n count ≡ take (n * count) records
unfolding page_of
pages-take records zero count h = let e : 0 ≡ 0 * count = omega arith in ap (λ k. take k records) e
pages-take records (suc n) count h =
    let size : suc n * count ≡ n * count + count = omega arith in
    let less : n * count < 2 ^ 32 = omega (arith, h, size) in
    let before : suc n - 1 ≡ n = omega arith in
    let small : (suc n - 1) * count % 2 ^ 32 ≡ n * count =
      ap (λ k. k * count % 2 ^ 32) before ∙ below (n * count) less in
    rw (small, size)
      (ap (λ xs. xs ++ take count (drop (n * count) records)) (pages-take records n count less)
        ∙ take-sum (n * count) count records)
