-- ===== src/Lfs/Chain.antt =====
-- The loops over a chain of deltas against the recursion that they stand for.
use mathlib.Core.List.{reverse_aux}
use blossom_rs.Prelude.{
  ℕ, zero, suc, ◌≡◌, refl, sym, ap, ◌∙◌, true, none, some, List, [], ◌∷◌, ◌++◌, nat_key, list_key,
  arith, if◌then◌else◌, reverse, Text, Option-cases, Bool-cases, inl, inr,
}
use blossom_rs.HashMap.{HashMap}
use blossom_rs.Lfs.{
  LfsFileVersion, is_delta, MemoryLfsVersionDatabase, get_by_sha256, Codec, Rebuilt, ok, err,
  chain_broken, no_base, next_base, walk, base_hash, and_then, fetch, patch_one, patch, finish,
  reconstruct_blob, max_delta_chain_depth,
}

and_then_assoc :
    (x : Rebuilt) (f g h : Text → Rebuilt)
    → ((y : Text) → f y ≡ and_then (g y) h)
    → and_then x f ≡ and_then (and_then x g) h
and_then_assoc (ok y) f g h e = e y
and_then_assoc (err x) f g h e = refl

and_then-ok : (x : Rebuilt) → and_then x (λ y. ok y) ≡ x
and_then-ok (ok y) = refl
and_then-ok (err e) = refl

and_then_pure : (x : Rebuilt) (f : Text → Rebuilt) → ((y : Text) → f y ≡ ok y) → and_then x f ≡ x
and_then_pure (ok y) f h = h y
and_then_pure (err e) f h = refl

-- A reversed list that grows at its front grows at its end.
reverse_aux-append :
    {A : Type 0} (xs ys zs : List A) → reverse_aux xs (ys ++ zs) ≡ reverse_aux xs ys ++ zs
reverse_aux-append [] ys zs = refl
reverse_aux-append (x ∷ xs) ys zs = reverse_aux-append xs (x ∷ ys) zs

-- The reverse of a list that is not empty is not empty.
reverse_first :
    {A : Type 0} (x : A) (xs : List A) → (y : A) × (ys : List A) × (reverse (x ∷ xs) ≡ y ∷ ys)
reverse_first x [] = (x, [], refl)
reverse_first x (w ∷ xs) =
    let (y, ys, e) = reverse_first w xs in
    (y, ys ++ x ∷ [], reverse_aux-append xs (w ∷ []) (x ∷ []) ∙ ap (λ l. l ++ x ∷ []) e)

module _ (codec : Codec) (db : MemoryLfsVersionDatabase) (backend : HashMap Text Text) where
  -- The bytes of a blob: its own, or its delta on the bytes of its base, in so many hops.
  unfoldable pub content : ℕ → Text → Rebuilt
  content zero hash = fetch codec db backend hash
  content (suc hops) hash = elim (get_by_sha256 db hash) [
    | none ↦ err chain_broken
    | some v ↦ elim (next_base v) [
      | none ↦ if is_delta v.storage then err no_base else fetch codec db backend v.sha256
      | some base ↦ and_then (content hops base) (patch_one codec db backend v)
    ]
  ]

  patch-append :
      (vs : List LfsFileVersion) (v : LfsFileVersion) (r : Text)
      → is_delta v.storage ≡ true
      → patch codec db backend (vs ++ v ∷ []) r
        ≡ and_then (patch codec db backend vs r) (patch_one codec db backend v)
  unfolding patch
  patch-append [] v r d = rw d (and_then-ok (patch_one codec db backend v r))
  patch-append (w ∷ vs) v r d = elim (Bool-cases (is_delta w.storage)) [
    | inr e ↦ rw e (patch-append vs v r d)
    | inl e ↦ rw e (
        and_then_assoc (patch_one codec db backend w r) (patch codec db backend (vs ++ v ∷ []))
          (patch codec db backend vs) (patch_one codec db backend v) (λ y. patch-append vs v y d))
  ]

  finish-append :
      (w v : LfsFileVersion) (vs : List LfsFileVersion)
      → is_delta v.storage ≡ true
      → finish codec db backend ((w ∷ vs) ++ v ∷ [])
        ≡ and_then (finish codec db backend (w ∷ vs)) (patch_one codec db backend v)
  unfolding finish
  finish-append w v vs d = elim (Option-cases (base_hash (w ∷ vs))) [
    | inl e ↦ rw (e, finish) refl
    | inr (hash, e) ↦
        rw (e, finish)
          (and_then_assoc (fetch codec db backend hash)
            (patch codec db backend ((w ∷ vs) ++ v ∷ [])) (patch codec db backend (w ∷ vs))
            (patch_one codec db backend v) (λ y. patch-append (w ∷ vs) v y d))
  ]

  -- `finish` on the reverse of a chain that a delta is put on.
  finish-onto :
      (v w : LfsFileVersion) (vs : List LfsFileVersion)
      → is_delta v.storage ≡ true
      → finish codec db backend (reverse (v ∷ w ∷ vs))
        ≡ and_then (finish codec db backend (reverse (w ∷ vs))) (patch_one codec db backend v)
  finish-onto v w vs d =
      let (y, ys, e) = reverse_first w vs in
      rw (reverse_aux-append vs (w ∷ []) (v ∷ []), e) (finish-append y v ys d)

  finish-whole :
      (v : LfsFileVersion)
      → next_base v ≡ none
      → finish codec db backend (v ∷ [])
        ≡ (if is_delta v.storage then err no_base else fetch codec db backend v.sha256)
  unfolding finish patch
  finish-whole v e = elim (Bool-cases (is_delta v.storage)) [
    | inl d ↦ ground (arith, e, d)
    | inr d ↦
        rw (d, finish)
          (and_then_pure (fetch codec db backend v.sha256) (patch codec db backend (v ∷ []))
            (λ y. ground (arith, d)))
  ]

  finish-delta :
      (v : LfsFileVersion) (base : Text)
      → next_base v ≡ some base
      → finish codec db backend (v ∷ [])
        ≡ and_then (fetch codec db backend base) (patch_one codec db backend v)
  unfolding finish
  finish-delta v base e =
      let d : is_delta v.storage ≡ true = ground (arith, e) in
      let b : v.base_sha256 ≡ some base = ground (arith, e) in
      rw (d, b, finish)
        (and_then_assoc (fetch codec db backend base) (patch codec db backend ([] ++ v ∷ []))
            (λ y. ok y) (patch_one codec db backend v)
            (λ y. patch-append [] v y d ∙ unfold patch in refl)
          ∙ ap (λ x. and_then x (patch_one codec db backend v))
              (and_then-ok (fetch codec db backend base)))

  walk-broken :
      (hops : ℕ) (hash : Text) → walk hops db hash ≡ none → content hops hash ≡ err chain_broken
  unfolding walk content
  walk-broken zero hash h = absurd (ground (arith, h))
  walk-broken (suc hops) hash h = elim (Option-cases (get_by_sha256 db hash)) [
    | inl e ↦ rw (e, content) refl
    | inr (v, e) ↦ elim (Option-cases (next_base v)) [
      | inl n ↦ absurd (ground (arith, h, e, n))
      | inr (base, n) ↦
          rw (e, n, content)
            (ap (λ x. and_then x (patch_one codec db backend v))
              (walk-broken hops base (ground (arith, h, e, n))))
    ]
  ]

  walk-content :
      (hops : ℕ) (hash : Text) (chain : List LfsFileVersion)
      → walk (suc hops) db hash ≡ some chain
      → (w : LfsFileVersion) × (ws : List LfsFileVersion) × (chain ≡ w ∷ ws)
        × (finish codec db backend (reverse chain) ≡ content (suc hops) hash)
  unfolding walk content
  walk-content zero hash chain h = elim (Option-cases (get_by_sha256 db hash)) [
    | inl e ↦ absurd (ground (arith, h, e))
    | inr (v, e) ↦
        let same : chain ≡ v ∷ [] = ground (arith, h, e) in
        elim (Option-cases (next_base v)) [
          | inl n ↦ (v, [], same, rw (same, e, n, content) (finish-whole v n))
          | inr (base, n) ↦ (v, [], same, rw (same, e, n, content) (finish-delta v base n))
        ]
  ]
  walk-content (suc hops) hash chain h = elim (Option-cases (get_by_sha256 db hash)) [
    | inl e ↦ absurd (ground (arith, h, e))
    | inr (v, e) ↦ elim (Option-cases (next_base v)) [
      | inl n ↦
          let same : chain ≡ v ∷ [] = ground (arith, h, e, n) in
          (v, [], same, rw (same, e, n, content) (finish-whole v n))
      | inr (base, n) ↦ elim (Option-cases (walk (suc hops) db base)) [
        | inl broken ↦ absurd (ground (arith, h, e, n, broken))
        | inr (vs, found) ↦
            let (w, ws, split, rest) = walk-content hops base vs found in
            let same : chain ≡ v ∷ w ∷ ws = ground (arith, h, e, n, found, split) in
            let deltas : is_delta v.storage ≡ true = ground (arith, n) in
            (
              v,
              w ∷ ws,
              same,
              rw (same, e, n, content)
                  (finish-onto v w ws deltas
                    ∙ ap (λ x. and_then x (patch_one codec db backend v))
                        (ap (λ l. finish codec db backend (reverse l)) (sym split) ∙ rest)),
            )
      ]
    ]
  ]

  -- The loops of `reconstruct_blob` give what the recursion along the chain of bases gives, for ten
  -- hops: a version that is no delta is its own bytes, decompressed where the record says so, and a
  -- delta is decoded on the bytes of its base.
  pub reconstruct_blob-content :
      (version : LfsFileVersion)
      → reconstruct_blob codec db backend version ≡ content max_delta_chain_depth version.sha256
  unfolding reconstruct_blob
  reconstruct_blob-content version =
      elim (Option-cases (walk max_delta_chain_depth db version.sha256)) [
        | inl broken ↦
            rw (broken, reconstruct_blob)
              (sym (walk-broken max_delta_chain_depth version.sha256 broken))
        | inr (chain, found) ↦
            let (_, _, _, same) = walk-content 9 version.sha256 chain found in
            rw (found, reconstruct_blob) same
      ]
