-- ===== src/Lfs/Latest.antt =====
-- The version numbers of a file's uploads (src/server/mod.rs, handle_upload, "Record LFS version").
use blossom_rs.Prelude.{
  ℕ, ◌+◌, ◌≤◌, ◌<◌, ◌≡◌, refl, sym, subst, Bool, true, Option, none, some, List, [], ◌∷◌, ◌==◌,
  ◌&&◌, nat_key, list_key, arith, ltb, if◌then◌else◌, keep, All, Text, Bool-cases, inl, inr,
}
use blossom_rs.Lfs.{LfsFileVersion, MemoryLfsVersionDatabase, latest, get_latest_version}

-- The number that an upload to the path gets.
pub next_version : MemoryLfsVersionDatabase → Text → Text → ℕ
next_version db repo path = elim (get_latest_version db repo path) [
  | none ↦ 1
  | some v ↦ v.version + 1
]

abbrev number : Option LfsFileVersion → ℕ
number none = 0
number (some v) = v.version

latest-All :
    (best : Option LfsFileVersion) (vs : List LfsFileVersion)
    → (number best ≤ number (latest best vs)) × All (λ w. w.version ≤ number (latest best vs)) vs
unfolding latest
latest-All best [] = (omega arith, tt)
latest-All none (v ∷ vs) = let (top, rest) = latest-All (some v) vs in (omega arith, (top, rest))
latest-All (some b) (v ∷ vs) =
    let best : LfsFileVersion = if ltb v.version b.version then b else v in
    let (top, rest) = latest-All (some best) vs in
    (ground (arith, top), (ground (arith, top), rest))

All-keep :
    {A : Type 0} (P : A → Type 0) (p : A → Bool) (xs : List A)
    → All P (keep p xs)
    → All (λ x. p x ≡ true → P x) xs
All-keep P p [] h = tt
All-keep P p (x ∷ xs) h = elim (Bool-cases (p x)) [
  | inl e ↦
      let kept : P x × All P (keep p xs) =
        subst (λ b. All P (if b then x ∷ keep p xs else keep p xs)) e h in
      (λ _. kept.0, All-keep P p xs kept.1)
  | inr e ↦ (
    λ t. absurd (ground (arith, e, t)),
    All-keep P p xs (subst (λ b. All P (if b then x ∷ keep p xs else keep p xs)) e h),
  )
]

All-below :
    (n : ℕ) (vs : List LfsFileVersion)
    → All (λ w. w.version ≤ n) vs
    → All (λ w. w.version < n + 1) vs
All-below n [] h = tt
All-below n (v ∷ vs) h = (omega (arith, h.0), All-below n vs h.1)

next_version-number :
    (best : Option LfsFileVersion)
    → elim best as (λ _. ℕ) [ none ↦ 1 | some v ↦ v.version + 1 ] ≡ number best + 1
next_version-number none = omega arith
next_version-number (some v) = refl

-- An upload to a path gets a number above those of all earlier uploads to it.
pub next_version-above :
    (db : MemoryLfsVersionDatabase) (repo path : Text)
    → All
        (λ w. (w.repo_id == repo && w.path == path) ≡ true → w.version < next_version db repo path)
        db.versions
unfolding next_version get_latest_version
next_version-above db repo path =
    let mine : LfsFileVersion → Bool = λ w. w.repo_id == repo && w.path == path in
    let best = latest none (keep mine db.versions) in
    All-keep (λ w. w.version < next_version db repo path) mine db.versions
      (subst (λ n. All (λ w. w.version < n) (keep mine db.versions))
        (sym (next_version-number best))
        (All-below (number best) (keep mine db.versions)
          ((latest-All none (keep mine db.versions)).1)))
