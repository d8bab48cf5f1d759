-- ===== src/Transport/Binding/Context.antt =====
-- The LFS context of a QUIC upload, which the request names, against the one that its event names.
use blossom_rs.Prelude.{
  ◌≡◌, refl, ◌∙◌, sym, Bool, true, false, Option, none, some, List, [], ◌∷◌, ◌==◌, nat_key,
  list_key, list_same_iff, not, ◌||◌, keep, length, any, arith, Text, bytes_of, Bool-cases, inl,
  inr,
}
use blossom_rs.Auth.{NostrEvent, is_named, named}
use blossom_rs.Lfs.{LfsContext, default_context, read_tag, read_tags, from_event}
use blossom_rs.Transport.{Request}
use blossom_rs.Transport.Binding.{
  BindingResult, bound, unbound, ◌then_check◌, bound_if, non_empty, parse_lfs_from_request, one_if,
  unique_of, unique, matches, is_lfs_tag, is_manifest_tag, lfs_tags_match, manifest_tags_match,
  verify_lfs_auth_binding, other_context,
}

-- A field that the tags of one name set: each to its value, where it has one.
module _ (field : LfsContext → Option Text) (name : Text)
    (kept : (ctx : LfsContext) (t : List Text)
      → is_named name t ≡ false
      → field (read_tag ctx t) ≡ field ctx)
    (set : (ctx : LfsContext) (v : Text) → field (read_tag ctx (name ∷ v ∷ [])) ≡ some v) where
  field_kept :
      (tags : List (List Text)) (ctx : LfsContext)
      → named name tags ≡ []
      → field (read_tags ctx tags) ≡ field ctx
  unfolding read_tags
  field_kept [] ctx h = refl
  field_kept (t ∷ tags) ctx h = elim (Bool-cases (is_named name t)) [
    | inl e ↦ absurd (ground (arith, e, h))
    | inr e ↦ field_kept tags (read_tag ctx t) (ground (arith, e, h)) ∙ kept ctx t e
  ]

  field_set :
      (tags : List (List Text)) (ctx : LfsContext) (v : Text)
      → named name tags ≡ (name ∷ v ∷ []) ∷ []
      → field (read_tags ctx tags) ≡ some v
  unfolding read_tags
  field_set [] ctx v h = cc
  field_set (t ∷ tags) ctx v h = elim (Bool-cases (is_named name t)) [
    | inl e ↦
        let same : t ≡ name ∷ v ∷ [] = ground (arith, e, h) in
        rw same (field_kept tags (read_tag ctx (name ∷ v ∷ [])) (ground (arith, e, h)) ∙ set ctx v)
    | inr e ↦ field_set tags (read_tag ctx t) v (ground (arith, e, h))
  ]

named_head :
    (name : Text) (tags : List (List Text)) (n v : Text)
    → named name tags ≡ (n ∷ v ∷ []) ∷ []
    → n ≡ name
named_head name [] n v h = cc
named_head name (t ∷ tags) n v h = elim (Bool-cases (is_named name t)) [
  | inl e ↦
      let same : t ≡ n ∷ v ∷ [] = ground (arith, e, h) in
      (list_same_iff n name).0 (ground (arith, same, e))
  | inr e ↦ named_head name tags n v (ground (arith, e, h))
]

module _ (field : LfsContext → Option Text) (name : Text)
    (kept : (ctx : LfsContext) (t : List Text)
      → is_named name t ≡ false
      → field (read_tag ctx t) ≡ field ctx)
    (set : (ctx : LfsContext) (v : Text) → field (read_tag ctx (name ∷ v ∷ [])) ≡ some v)
    (fresh : field default_context ≡ none) where
  field_rows :
      (tags rows : List (List Text)) (expected : Option Text)
      → named name tags ≡ rows
      → matches name (unique_of rows) expected ≡ bound
      → expected ≡ field (read_tags default_context tags)
  field_rows tags [] none e h = sym (field_kept field name kept set tags default_context e ∙ fresh)
  field_rows tags [] (some v) e h = cc
  field_rows tags ([] ∷ []) expected e h = cc
  field_rows tags ((n ∷ []) ∷ []) expected e h = cc
  field_rows tags ((n ∷ v ∷ []) ∷ []) none e h = cc
  field_rows tags ((n ∷ v ∷ []) ∷ []) (some w) e h =
      let head : n ≡ name = named_head name tags n v e in
      let value : v ≡ w = ground (arith, list_same_iff v w, h) in
      sym (field_set field name kept set tags default_context w (e ∙ rw (head, value) refl))
  field_rows tags ((n ∷ v ∷ w ∷ vs) ∷ []) expected e h = cc
  field_rows tags (t ∷ u ∷ ts) expected e h = cc

  -- A field of the request that passes its check is what the tags of the event set.
  field_bound :
      (tags : List (List Text)) (expected : Option Text)
      → matches name (unique tags name) expected ≡ bound
      → expected ≡ field (read_tags default_context tags)
  unfolding unique
  field_bound tags expected h = field_rows tags (named name tags) expected refl h

pub then_check-bound : (a b : BindingResult) → (a then_check b) ≡ bound → (a ≡ bound) × (b ≡ bound)
then_check-bound bound b h = (refl, h)
then_check-bound (unbound e) b h = cc

read_tag-is_lfs :
    (ctx : LfsContext) (t : List Text) → (read_tag ctx t).is_lfs ≡ (ctx.is_lfs || is_lfs_tag t)
unfolding read_tag
read_tag-is_lfs ctx [] = ground arith
read_tag-is_lfs ctx (n ∷ []) = ground arith
read_tag-is_lfs ctx (n ∷ v ∷ vs) = ground arith

read_tags-is_lfs :
    (tags : List (List Text)) (ctx : LfsContext)
    → (read_tags ctx tags).is_lfs ≡ (ctx.is_lfs || any is_lfs_tag tags)
unfolding read_tags
read_tags-is_lfs [] ctx = ground arith
read_tags-is_lfs (t ∷ tags) ctx =
    ground (arith, read_tags-is_lfs tags (read_tag ctx t), read_tag-is_lfs ctx t)

counted-any :
    (p : List Text → Bool) (tags : List (List Text)) (b : Bool)
    → length (keep p tags) ≡ one_if b
    → any p tags ≡ b
counted-any p [] b h = ground arith
counted-any p (t ∷ tags) true h = ground (arith, counted-any p tags true)
counted-any p (t ∷ tags) false h = ground (arith, counted-any p tags false)

read_tag-is_manifest :
    (ctx : LfsContext) (t : List Text)
    → (ctx.is_manifest || is_manifest_tag t) ≡ true
    → (read_tag ctx t).is_manifest ≡ true
unfolding read_tag
read_tag-is_manifest ctx [] h = ground arith
read_tag-is_manifest ctx (n ∷ []) h = ground (arith, h)
read_tag-is_manifest ctx (n ∷ v ∷ vs) h = ground (arith, h)

read_tags-is_manifest :
    (tags : List (List Text)) (ctx : LfsContext)
    → (ctx.is_manifest || any is_manifest_tag tags) ≡ true
    → (read_tags ctx tags).is_manifest ≡ true
unfolding read_tags
read_tags-is_manifest [] ctx h = ground (arith, h)
read_tags-is_manifest (t ∷ tags) ctx h =
    ground (arith, h, read_tags-is_manifest tags (read_tag ctx t), read_tag-is_manifest ctx t)

read_tag-path_kept :
    (ctx : LfsContext) (t : List Text)
    → is_named (bytes_of "path") t ≡ false
    → (read_tag ctx t).path ≡ ctx.path
unfolding read_tag
read_tag-path_kept ctx [] h = refl
read_tag-path_kept ctx (n ∷ []) h = ground (arith, h)
read_tag-path_kept ctx (n ∷ v ∷ vs) h = ground (arith, h)

read_tag-repo_kept :
    (ctx : LfsContext) (t : List Text)
    → is_named (bytes_of "repo") t ≡ false
    → (read_tag ctx t).repo ≡ ctx.repo
unfolding read_tag
read_tag-repo_kept ctx [] h = refl
read_tag-repo_kept ctx (n ∷ []) h = ground (arith, h)
read_tag-repo_kept ctx (n ∷ v ∷ vs) h = ground (arith, h)

read_tag-base_kept :
    (ctx : LfsContext) (t : List Text)
    → is_named (bytes_of "base") t ≡ false
    → (read_tag ctx t).base ≡ ctx.base
unfolding read_tag
read_tag-base_kept ctx [] h = refl
read_tag-base_kept ctx (n ∷ []) h = ground (arith, h)
read_tag-base_kept ctx (n ∷ v ∷ vs) h = ground (arith, h)

-- The context of a request agrees with the one that is read from the tags of an event. The request says
-- that it is a manifest exactly where the event has the tag `manifest` with nothing after it; what is
-- read from the event takes the tag with further values as well.
pub record Agree (tags : List (List Text)) (c d : LfsContext) : Type 0 where
  pub is_lfs : c.is_lfs ≡ d.is_lfs
  pub path : c.path ≡ d.path
  pub repo : c.repo ≡ d.repo
  pub base : c.base ≡ d.base
  pub is_manifest : c.is_manifest ≡ true → d.is_manifest ≡ true
  pub tagged : c.is_manifest ≡ any is_manifest_tag tags

-- If the event of a QUIC upload is bound to its LFS context, then the context that the transport
-- records of the request agrees with the one that the HTTP server reads from the event.
pub verify_lfs_auth_binding-agrees :
    (event : NostrEvent) (req : Request)
    → verify_lfs_auth_binding event req ≡ bound
    → Agree event.tags (parse_lfs_from_request req) (from_event event)
unfolding verify_lfs_auth_binding from_event parse_lfs_from_request
verify_lfs_auth_binding-agrees event req h =
    let (lfs, h₁) = then_check-bound (bound_if (lfs_tags_match event.tags req) other_context) _ h in
    let (path, h₂) = then_check-bound _ _ h₁ in
    let (repo, h₃) = then_check-bound _ _ h₂ in
    let (base, manifest) =
      then_check-bound _ (bound_if (manifest_tags_match event.tags req) other_context) h₃ in
    record {
      is_lfs = ground (
        arith,
        lfs,
        read_tags-is_lfs event.tags default_context,
        counted-any is_lfs_tag event.tags (not (req.lfs_path == []) || not (req.lfs_repo == [])),
      );
      path =
          field_bound (λ c. c.path) (bytes_of "path") read_tag-path_kept
            (λ c v. unfold read_tag in refl) refl event.tags (non_empty req.lfs_path) path;
      repo =
          field_bound (λ c. c.repo) (bytes_of "repo") read_tag-repo_kept
            (λ c v. unfold read_tag in refl) refl event.tags (non_empty req.lfs_repo) repo;
      base =
          field_bound (λ c. c.base) (bytes_of "base") read_tag-base_kept
            (λ c v. unfold read_tag in refl) refl event.tags (non_empty req.lfs_base) base;
      is_manifest = λ m.
          read_tags-is_manifest event.tags default_context
            (ground (arith, manifest, m, counted-any is_manifest_tag event.tags req.lfs_manifest));
      tagged = ground (arith, manifest, counted-any is_manifest_tag event.tags req.lfs_manifest);
    }
