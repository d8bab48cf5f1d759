-- ===== src/Transport/Replay/Bounds.antt =====
-- The replay cache of the QUIC transport stays within its limits, and its counts are exact.
use blossom_rs.Prelude.{
  ℕ, zero, suc, ◌<◌, ◌≡◌, refl, ap, ◌∙◌, Bool, true, false, false≢true, subst, Option, none, some,
  List, [], ◌∷◌, ◌==◌, ◌||◌, nat_key, list_key, list_same_iff, same_refl, arith, leb, length, Text,
  Option-cases, Bool-cases, inl, inr,
}
use blossom_rs.HashMap.{HashMap, get, contains_key, len, IsMap, contains_key-get}
use blossom_rs.HashMap.Totals.{total}
use blossom_rs.Transport.Replay.{
  ReplayEntry, ReplayCache, remove_entry, evict_principal, evict_oldest, evict_oldest_for, count_of,
  remove_first, is_of, with_head,
}
use blossom_rs.Transport.Replay.Shrinking.{
  one_of, queued, Queued, IsCounted, Shrunk, Shrunk-trans, Pruned, Pruned-after, same_tables,
  remove_entry-Shrunk, popped-Queued,
}

total-none :
    (w : Text → ReplayEntry → ℕ) (m : HashMap Text ReplayEntry)
    → IsMap m
    → ((k : Text) (e : ReplayEntry) → get m k ≡ some e → w k e ≡ 0)
    → total w m ≡ 0
unfolding get
total-none w [] d h = refl
total-none w ((j, e) ∷ m) d h = omega (
  arith,
  h j e (ground (arith, same_refl j)),
  total-none w m d.1
      (λ k v found. h k v (ground (arith, list_same_iff j k, d.0, found, contains_key-get m k))),
)

-- What `remove_first` finds.
abbrev Found : (Text → Bool) → List Text → Option (Text × List Text) → Type 0
Found p order none = (x : Text) → queued order x ≡ true → p x ≡ false
Found p order (some (id, rest)) =
    (p id ≡ true)
    × ((length order ≡ suc (length rest))
        × ((x : Text) → queued order x ≡ (id == x || queued rest x)))

with_head-Found :
    (p : Text → Bool) (x : Text) (order : List Text) (found : Option (Text × List Text))
    → p x ≡ false
    → Found p order found
    → Found p (x ∷ order) (with_head x found)
with_head-Found p x order none miss h = λ y k. ground (arith, list_same_iff x y, h y, k, miss, ap p)
with_head-Found p x order (some (id, rest)) miss (hit, (size, same)) =
    (hit, (omega (arith, size), λ y. ground (arith, same y)))

remove_first-Found : (p : Text → Bool) (order : List Text) → Found p order (remove_first p order)
unfolding remove_first
remove_first-Found p [] = λ x h. absurd (false≢true h)
remove_first-Found p (x ∷ order) = elim (Bool-cases (p x)) [
  | inl hit ↦ rw (hit, remove_first) (hit, (refl, λ y. ground arith))
  | inr miss ↦
      rw (miss, remove_first)
        (with_head-Found p x order (remove_first p order) miss (remove_first-Found p order))
]

-- Where no id of the queue is the principal's, it has no entry.
none_of :
    (s : ReplayCache) (p : Text)
    → IsCounted s
    → Queued s.order s
    → ((x : Text) → queued s.order x ≡ true → is_of s p x ≡ false)
    → count_of s.per_principal p ≡ 0
none_of s p c q h =
    c.counts p
    ∙ total-none (one_of p) s.entries c.distinct
        (λ k e found. ground (arith, found, h k, q k, contains_key-get s.entries k))

-- What the first loop leaves, with fuel for every id of the queue.
pub record Evicted (s t : ReplayCache) (p : Text) : Type 0 where
  pub pruned : Pruned s t
  pub room : count_of t.per_principal p < t.max_per_principal

remove_entry-order : (s : ReplayCache) (id : Text) → (remove_entry s id).order ≡ s.order
unfolding remove_entry
remove_entry-order s id = ground arith

stopped :
    (s : ReplayCache) (p : Text)
    → IsCounted s
    → Queued s.order s
    → count_of s.per_principal p < s.max_per_principal
    → Evicted s s p
stopped s p c q room = record {
  pruned = record { shrunk = same_tables s s.order c; queue = q };
  room = room;
}

Evicted-after : (s t u : ReplayCache) (p : Text) → Shrunk s t → Evicted t u p → Evicted s u p
Evicted-after s t u p f e = record { pruned = Pruned-after s t u f e.pruned; room = e.room }

pub evict_principal-Evicted :
    (fuel : ℕ) (s : ReplayCache) (p : Text)
    → IsCounted s
    → Queued s.order s
    → 0 < s.max_per_principal
    → length s.order < fuel
    → Evicted s (evict_principal fuel s p) p
unfolding evict_principal evict_oldest_for
evict_principal-Evicted zero s p c q pos h = absurd (omega (arith, h))
evict_principal-Evicted (suc fuel) s p c q pos h =
    let found = remove_first-Found (is_of s p) s.order in
    elim (Option-cases (remove_first (is_of s p) s.order)) [
      | inl e ↦
          let f : Found (is_of s p) s.order none = subst (Found (is_of s p) s.order) e found in
          rw (e, evict_principal, evict_oldest_for)
            (stopped s p c q (omega (arith, pos, none_of s p c q f)))
      | inr ((id, rest), e) ↦
          let f : Found (is_of s p) s.order (some (id, rest)) =
            subst (Found (is_of s p) s.order) e found in
          let popped = record s { order = rest } in
          let next = remove_entry popped id in
          let shorter : next.order ≡ rest = remove_entry-order popped id in
          let c' = (same_tables s rest c).counted in
          let g = remove_entry-Shrunk popped id c' in
          let queue : Queued next.order next =
            rw shorter (popped-Queued popped id s.order rest f.1.1 q) in
          elim (Bool-cases (leb s.max_per_principal (count_of s.per_principal p))) [
            | inr room ↦
                rw (e, room, evict_principal, evict_oldest_for)
                  (stopped s p c q (ground (arith, room)))
            | inl full ↦
                rw (e, full, evict_principal, evict_oldest_for)
                  (Evicted-after s next (evict_principal fuel next p) p
                    (Shrunk-trans s popped next (same_tables s rest c) g)
                    (evict_principal-Evicted fuel next p g.counted queue
                      (omega (arith, pos, g.max_per_principal))
                      (omega (arith, h, f.1.0, ap length shorter))))
          ]
    ]

-- A table of which no id is queued is empty.
empty-len :
    (m : HashMap Text ReplayEntry)
    → ((id : Text) → contains_key m id ≡ true → false ≡ true)
    → len m ≡ 0
unfolding contains_key
empty-len [] h = refl
empty-len ((j, e) ∷ m) h = absurd (false≢true (h j (ground (arith, same_refl j))))

pub evict_oldest-room :
    (order : List Text) (s : ReplayCache)
    → IsCounted s
    → 0 < s.max_entries
    → Queued order s
    → len (evict_oldest s order).entries < s.max_entries
unfolding evict_oldest
evict_oldest-room [] s c pos q = omega (arith, pos, empty-len s.entries q)
evict_oldest-room (id ∷ order) s c pos q = elim (Bool-cases (leb s.max_entries (len s.entries))) [
  | inr room ↦ rw (room, evict_oldest) (ground (arith, room))
  | inl full ↦
      let next = remove_entry s id in
      let g = remove_entry-Shrunk s id c in
      rw (full, evict_oldest)
        (omega (
          arith,
          g.max_entries,
          evict_oldest-room order next g.counted (omega (arith, pos, g.max_entries))
              (popped-Queued s id (id ∷ order) order (λ x. ground arith) q),
        ))
]
