-- ===== src/Auth/Bound.antt =====
-- Which events the check takes for a request.
use blossom_rs.Prelude.{
  ℕ, ◌≤◌, ◌≡◌, refl, ◌↔◌, Bool, true, false, Option, none, some, List, [], ◌∷◌, nat_key, list_key,
  list_same_iff, arith, Text, bytes_of, parse_usize, Bool-cases, Option-cases, inl, inr,
}
use blossom_rs.Auth.{
  NostrEvent, AuthError, AuthResult, accepted, rejected, ◌and_then◌, require, saturating_add,
  is_named, named, unique_value, verify_unique_tag, verify_expiration, verify_action, actions,
  single_value, expect_value, expires,
}

-- The event has one tag of the name, and its value is the given one.
abbrev pub OnlyTag : NostrEvent → Text → Text → Type 0
OnlyTag event name v = named name event.tags ≡ (name ∷ v ∷ []) ∷ []

named_first :
    (name : Text) (tags : List (List Text)) (t : List Text) (ts : List (List Text))
    → named name tags ≡ t ∷ ts
    → is_named name t ≡ true
named_first name [] t ts h = cc
named_first name (u ∷ tags) t ts h = elim (Bool-cases (is_named name u)) [
  | inl e ↦ ground (arith, e, h)
  | inr e ↦ named_first name tags t ts (ground (arith, e, h))
]

single_value-some :
    (name v : Text) (tags rows : List (List Text))
    → named name tags ≡ rows
    → ((single_value name rows).0 ≡ some v) ↔ (rows ≡ (name ∷ v ∷ []) ∷ [])
single_value-some name v tags [] h = ground arith
single_value-some name v tags ([] ∷ []) h = ground arith
single_value-some name v tags ((n ∷ []) ∷ []) h = ground arith
single_value-some name v tags ((n ∷ w ∷ []) ∷ []) h =
    ground (arith, named_first name tags (n ∷ w ∷ []) [] h, list_same_iff n name)
single_value-some name v tags ((n ∷ w ∷ x ∷ ws) ∷ []) h = ground arith
single_value-some name v tags (t ∷ u ∷ ts) h = ground arith

pub unique_value-some :
    (event : NostrEvent) (name v : Text)
    → ((unique_value event name).0 ≡ some v) ↔ OnlyTag event name v
unfolding unique_value
unique_value-some event name v = single_value-some name v event.tags (named name event.tags) refl

expect_value-accepted :
    (f : Option Text × AuthError) (expected : Text) (mismatch : AuthError)
    → (expect_value f expected mismatch ≡ accepted) ↔ (f.0 ≡ some expected)
expect_value-accepted (none, e) expected mismatch = ground arith
expect_value-accepted (some v, e) expected mismatch = ground (arith, list_same_iff v expected)

pub verify_unique_tag-accepted :
    (event : NostrEvent) (name expected : Text) (mismatch : AuthError)
    → (verify_unique_tag event name expected mismatch ≡ accepted) ↔ OnlyTag event name expected
unfolding verify_unique_tag
verify_unique_tag-accepted event name expected mismatch =
    let found = expect_value-accepted (unique_value event name) expected mismatch in
    let only = unique_value-some event name expected in
    (λ h. only.0 (found.0 h), λ o. found.1 (only.1 o))

-- The one expiration tag is a time from `now` to two minutes after the event.
abbrev pub Expiring : NostrEvent → ℕ → Type 0
Expiring event now =
    (text : Text) × (exp : ℕ) × OnlyTag event (bytes_of "expiration") text
    × (parse_usize text ≡ some exp)
    × (now ≤ exp)
    × (exp ≤ saturating_add event.created_at 120)

expires-accepted :
    (f : Option Text × AuthError) (now created_at : ℕ)
    → (expires f now created_at ≡ accepted) ↔ (
        (text : Text) × (exp : ℕ) × (f.0 ≡ some text)
        × (parse_usize text ≡ some exp)
        × (now ≤ exp)
        × (exp ≤ saturating_add created_at 120))
expires-accepted (none, e) now created_at =
    (λ h. ground (arith, h), λ (text, exp, found, at, lo, hi). ground (arith, found))
expires-accepted (some v, e) now created_at = elim (Option-cases (parse_usize v)) [
  | inl none_at ↦ (
    λ h. ground (arith, none_at, h),
    λ (text, exp, same, at, lo, hi). ground (arith, none_at, same, at),
  )
  | inr (exp, at) ↦ (
    λ h. (v, exp, refl, at, ground (arith, at, h), ground (arith, at, h)),
    λ (text, exp', same, at', lo, hi). ground (arith, at, same, at', lo, hi),
  )
]

pub verify_expiration-accepted :
    (event : NostrEvent) (now : ℕ) → (verify_expiration event now ≡ accepted) ↔ Expiring event now
unfolding verify_expiration
verify_expiration-accepted event now =
    let name = bytes_of "expiration" in
    let checked = expires-accepted (unique_value event name) now event.created_at in
    (
      λ h.
          let (text, exp, found, at, lo, hi) = checked.0 h in
          (text, exp, (unique_value-some event name text).0 found, at, lo, hi),
      λ (text, exp, only, at, lo, hi).
          checked.1 (text, exp, (unique_value-some event name text).1 only, at, lo, hi),
    )

pub verify_action-accepted :
    (event : NostrEvent) (expected : Text)
    → (verify_action event (some expected) ≡ accepted) ↔ (actions expected event.tags ≡ 1)
unfolding verify_action
verify_action-accepted event expected = ground arith

-- Two checks in turn, and one test.
pub and_then-accepted :
    {P Q : Type 0} (a b : AuthResult)
    → (a ≡ accepted) ↔ P
    → (b ≡ accepted) ↔ Q
    → ((a and_then b) ≡ accepted) ↔ (P × Q)
and_then-accepted accepted b p q = (λ h. (p.0 refl, q.0 h), λ h. q.1 h.1)
and_then-accepted (rejected e) b p q =
    (λ h. absurd (ground (arith, h)), λ h. absurd (ground (arith, p.1 h.0)))

pub require-accepted :
    {P : Type 0} (b : Bool) (e : AuthError) → (b ≡ true) ↔ P → (require b e ≡ accepted) ↔ P
require-accepted true e p = (λ h. p.0 refl, λ h. refl)
require-accepted false e p = (λ h. absurd (ground (arith, h)), λ h. absurd (ground (arith, p.1 h)))
