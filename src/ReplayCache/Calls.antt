-- ===== src/ReplayCache/Calls.antt =====
-- The replay cache stays within its limits through any calls.
use blossom_rs.Prelude.{ℕ, ◌≤◌, ◌<◌, ◌≡◌, refl, ◌∙◌, List, [], ◌∷◌, nat_key, list_key, arith, Text}
use blossom_rs.HashMap.{get, contains_key, len}
use blossom_rs.ReplayCache.{ReplayCache, check_and_insert, new}
use blossom_rs.ReplayCache.Shrinking.{share}
use blossom_rs.ReplayCache.Bounds.{IsBounded, check_and_insert-IsBounded}

-- One call: the principal, the event's id, the time and the expiry.
abbrev pub Presented : Type 0
Presented = Text × Text × ℕ × ℕ

unfoldable pub present : ReplayCache → List Presented → ReplayCache
unfolding check_and_insert
present s [] = s
present s ((p, id, now, expires) ∷ rs) = present (check_and_insert s p id now expires).0 rs

present-IsBounded :
    (rs : List Presented) (s : ReplayCache)
    → 0 < s.capacity
    → 0 < s.per_principal
    → IsBounded s
    → IsBounded (present s rs)
      × ((present s rs).capacity ≡ s.capacity)
      × ((present s rs).per_principal ≡ s.per_principal)
unfolding present
present-IsBounded [] s limit per b = (b, refl, refl)
present-IsBounded ((p, id, now, expires) ∷ rs) s limit per b =
    let t = (check_and_insert s p id now expires).0 in
    let (c, same_cap, same_per) = check_and_insert-IsBounded s p id now expires limit per b in
    let (d, limit', per') = present-IsBounded rs t (rw same_cap limit) (rw same_per per) c in
    (d, limit' ∙ same_cap, per' ∙ same_per)

new-IsBounded : (capacity per_principal : ℕ) → IsBounded (new capacity per_principal)
unfolding new
new-IsBounded capacity per_principal = record {
  total = omega arith;
  shares = λ p. unfold get in omega arith;
  queue = λ id k. unfold contains_key in absurd (ground (arith, k));
}

-- Whatever events are presented to a new cache with positive limits, it never holds more entries than
-- its capacity, nor lists more ids for a principal than the limit for one.
pub present-bounded :
    (capacity per_principal : ℕ) (rs : List Presented) (p : Text)
    → 0 < capacity
    → 0 < per_principal
    → let t = present (new capacity per_principal) rs in
      (len t.entries ≤ capacity) × (share t p ≤ per_principal)
unfolding new
present-bounded capacity per_principal rs p limit per =
    let (b, same_cap, same_per) =
      present-IsBounded rs (new capacity per_principal) limit per
        (new-IsBounded capacity per_principal) in
    (omega (arith, b.total, same_cap), omega (arith, b.shares p, same_per))
