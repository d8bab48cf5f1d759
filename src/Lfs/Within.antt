-- ===== src/Lfs/Within.antt =====
-- Chains of deltas that end within so many hops, as versions and blobs are added.
use blossom_rs.Prelude.{
  ℕ, zero, suc, ◌≡◌, refl, ap, ◌∙◌, Bool, true, false, none, some, List, [], ◌∷◌, ◌++◌, nat_key,
  list_key, list_same_iff, same_refl, ◌==◌, arith, if◌then◌else◌, Text, find, Option-cases,
  Bool-cases, inl, inr,
}
use blossom_rs.HashMap.{HashMap, get, insert, get-insert}
use blossom_rs.Lfs.{
  LfsFileVersion, is_delta, MemoryLfsVersionDatabase, get_by_sha256, record_version, Codec, Rebuilt,
  ok, err, chain_broken, no_base, next_base, and_then, fetch, patch_one,
}
use blossom_rs.Lfs.Chain.{content}

module _ {A : Type 0} (p : A → Bool) where
  find-append : (xs ys : List A) (x : A) → find p xs ≡ some x → find p (xs ++ ys) ≡ some x
  find-append [] ys x h = absurd (ground (arith, h))
  find-append (w ∷ xs) ys x h = ground (arith, h, find-append xs ys x)

  find-append_new :
      (xs : List A) (x : A) → find p xs ≡ none → p x ≡ true → find p (xs ++ x ∷ []) ≡ some x
  find-append_new [] x h k = ground (arith, k)
  find-append_new (w ∷ xs) x h k = ground (arith, h, find-append_new xs x)

  find-passes : (xs : List A) (x : A) → find p xs ≡ some x → p x ≡ true
  find-passes [] x h = absurd (ground (arith, h))
  find-passes (w ∷ xs) x h = elim (Bool-cases (p w)) [
    | inl e ↦ ground (arith, h, e)
    | inr e ↦ ground (arith, h, e, find-passes xs x)
  ]

pub get_by_sha256-same :
    (db : MemoryLfsVersionDatabase) (hash : Text) (v : LfsFileVersion)
    → get_by_sha256 db hash ≡ some v
    → v.sha256 ≡ hash
unfolding get_by_sha256
get_by_sha256-same db hash v h =
    (list_same_iff v.sha256 hash).0 (find-passes (λ w. w.sha256 == hash) db.versions v h)

pub get_by_sha256-kept :
    (db : MemoryLfsVersionDatabase) (w v : LfsFileVersion) (hash : Text)
    → get_by_sha256 db hash ≡ some v
    → get_by_sha256 (record_version db w).0 hash ≡ some v
unfolding get_by_sha256 record_version
get_by_sha256-kept db w v hash h = find-append (λ u. u.sha256 == hash) db.versions (w ∷ []) v h

pub get_by_sha256-new :
    (db : MemoryLfsVersionDatabase) (w : LfsFileVersion)
    → get_by_sha256 db w.sha256 ≡ none
    → get_by_sha256 (record_version db w).0 w.sha256 ≡ some w
unfolding get_by_sha256 record_version
get_by_sha256-new db w h =
    find-append_new (λ u. u.sha256 == w.sha256) db.versions w h (same_refl w.sha256)

module _ (codec : Codec) (db : MemoryLfsVersionDatabase) (backend : HashMap Text Text) where
  -- The bytes of a blob whose chain has at most so many versions.
  unfoldable pub within : ℕ → Text → Rebuilt
  within zero hash = err chain_broken
  within (suc hops) hash = elim (get_by_sha256 db hash) [
    | none ↦ err chain_broken
    | some v ↦ elim (next_base v) [
      | none ↦ if is_delta v.storage then err no_base else fetch codec db backend v.sha256
      | some base ↦ and_then (within hops base) (patch_one codec db backend v)
    ]
  ]

  and_then-ok :
      (r : Rebuilt) (f : Text → Rebuilt) (x : Text)
      → and_then r f ≡ ok x
      → (y : Text) × (r ≡ ok y) × (f y ≡ ok x)
  and_then-ok (ok y) f x h = (y, refl, h)
  and_then-ok (err e) f x h = absurd (ground (arith, h))

  -- The rounds that are left do not matter.
  pub content-within :
      (hops : ℕ) (hash x : Text)
      → within hops hash ≡ ok x
      → (content codec db backend hops hash ≡ ok x)
        × (content codec db backend (suc hops) hash ≡ ok x)
  unfolding within content
  content-within zero hash x h = absurd (ground (arith, h))
  content-within (suc hops) hash x h = elim (Option-cases (get_by_sha256 db hash)) [
    | inl e ↦ absurd (ground (arith, h, e))
    | inr (v, e) ↦ elim (Option-cases (next_base v)) [
      | inl n ↦
          let same : (if is_delta v.storage then err no_base else fetch codec db backend v.sha256)
              ≡ ok x =
            ground (arith, h, e, n) in
          (rw (e, n, content) same, rw (e, n, content) same)
      | inr (base, n) ↦
          let below : and_then (within hops base) (patch_one codec db backend v) ≡ ok x =
            ground (arith, h, e, n) in
          let (y, found, patched) =
            and_then-ok (within hops base) (patch_one codec db backend v) x below in
          let (c, d) = content-within hops base y found in
          (rw (e, n, content, c) patched, rw (e, n, content, d) patched)
    ]
  ]

module _ (codec : Codec) (db : MemoryLfsVersionDatabase) (backend : HashMap Text Text)
    (w : LfsFileVersion) (bytes : Text) (fresh : get_by_sha256 db w.sha256 ≡ none) where
  abbrev more : HashMap Text Text
  more = insert backend w.sha256 bytes

  pub other :
      (hash : Text) (v : LfsFileVersion)
      → get_by_sha256 db hash ≡ some v
      → (w.sha256 == hash) ≡ false
  other hash v e = elim (Bool-cases (w.sha256 == hash)) [
    | inl same ↦ absurd (
        ground
          (arith, ap (λ h. get_by_sha256 db h) ((list_same_iff w.sha256 hash).0 same), fresh, e))
    | inr differs ↦ differs
  ]

  kept_blob :
      (hash : Text) (v : LfsFileVersion)
      → get_by_sha256 db hash ≡ some v
      → get more hash ≡ get backend hash
  kept_blob hash v e = get-insert backend w.sha256 hash bytes ∙ rw (other hash v e) refl

  fetch-kept :
      (hash : Text) (v : LfsFileVersion)
      → get_by_sha256 db hash ≡ some v
      → fetch codec (record_version db w).0 more hash ≡ fetch codec db backend hash
  unfolding fetch
  fetch-kept hash v e = ground (arith, kept_blob hash v e, get_by_sha256-kept db w v hash e, e)

  patched-kept :
      (v : LfsFileVersion) (y : Text)
      → get more v.sha256 ≡ get backend v.sha256
      → patch_one codec (record_version db w).0 more v y ≡ patch_one codec db backend v y
  unfolding patch_one
  patched-kept v y e = rw (e, patch_one) refl

  -- A version and a blob of a hash that has no version yet leave the chains as they are.
  pub within-kept :
      (hops : ℕ) (hash x : Text)
      → within codec db backend hops hash ≡ ok x
      → within codec (record_version db w).0 more hops hash ≡ ok x
  unfolding within
  within-kept zero hash x h = absurd (ground (arith, h))
  within-kept (suc hops) hash x h = elim (Option-cases (get_by_sha256 db hash)) [
    | inl e ↦ absurd (ground (arith, h, e))
    | inr (v, e) ↦
        let own : v.sha256 ≡ hash = get_by_sha256-same db hash v e in
        let found = get_by_sha256-kept db w v hash e in
        elim (Option-cases (next_base v)) [
          | inl n ↦
              let same : (if is_delta v.storage then err no_base else fetch codec db backend hash)
                  ≡ ok x =
                rw (← own) (ground (arith, h, e, n)) in
              rw (found, n, within, own, fetch-kept hash v e) same
          | inr (base, n) ↦
              let below : and_then (within codec db backend hops base)
                    (patch_one codec db backend v)
                  ≡ ok x =
                ground (arith, h, e, n) in
              let (y, deeper, patched) =
                and_then-ok codec db backend (within codec db backend hops base)
                  (patch_one codec db backend v) x below in
              rw (found, n, within, within-kept hops base y deeper)
                (patched-kept v y (rw own (kept_blob hash v e)) ∙ patched)
        ]
  ]
