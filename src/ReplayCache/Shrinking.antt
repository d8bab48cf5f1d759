-- ===== src/ReplayCache/Shrinking.antt =====
-- What the loops of the replay cache remove, and what they leave.
use blossom_rs.Prelude.{
  ℕ, ◌≤◌, ◌<◌, ◌≡◌, refl, ◌∙◌, Bool, true, false, none, List, [], ◌∷◌, ◌==◌, nat_key, list_key,
  list_same_iff, same_refl, arith, leb, not, if◌then◌else◌, keep, length, length-keep-le, any, Text,
  Option-cases, Bool-cases, inl, inr,
}
use blossom_rs.HashMap.{
  HashMap, get, contains_key, len, get-remove, get-insert, contains_key-get, len-remove-le,
  contains_key-remove,
}
use blossom_rs.ReplayCache.{
  ReplayEntry, ReplayCache, remove_id, prune_loop, evict_oldest, ids_of, without, put_back,
}

-- How many ids a principal has.
abbrev pub share : ReplayCache → Text → ℕ
share s p = length (ids_of (get s.by_principal p))

abbrev pub queued : List Text → Text → Bool
queued order id = any (λ x. x == id) order

-- Every id of the table is in the queue.
abbrev pub Queued : List Text → ReplayCache → Type 0
Queued order s = (id : Text) → contains_key s.entries id ≡ true → queued order id ≡ true

pub share-put_back :
    (m : HashMap Text (List Text)) (p q : Text) (ids : List Text)
    → length (ids_of (get (put_back m p ids) q))
      ≡ (if p == q then length ids else length (ids_of (get m q)))
share-put_back m p q [] = ground (arith, get-remove m p q)
share-put_back m p q (x ∷ xs) = ground (arith, get-insert m p q (x ∷ xs))

pub share-without :
    (m : HashMap Text (List Text)) (p q id : Text)
    → length (ids_of (get (without m p id) q)) ≤ length (ids_of (get m q))
share-without m p q id = elim (Option-cases (get m p)) [
  | inl e ↦ ground (arith, e)
  | inr (ids, e) ↦ ground (
    arith,
    e,
    list_same_iff p q,
    share-put_back m p q (keep (λ x. not (x == id)) ids),
    length-keep-le (λ x. not (x == id)) ids,
  )
]

pub share-remove_id : (s : ReplayCache) (id q : Text) → share (remove_id s id) q ≤ share s q
unfolding remove_id
share-remove_id s id q = elim (Option-cases (get s.entries id)) [
  | inl e ↦ ground (arith, e)
  | inr (entry, e) ↦ ground (arith, e, share-without s.by_principal entry.principal q id)
]

pub len-remove_id : (s : ReplayCache) (id : Text) → len (remove_id s id).entries ≤ len s.entries
unfolding remove_id
len-remove_id s id = ground (arith, len-remove-le s.entries id)

pub contains_key-remove_id :
    (s : ReplayCache) (id x : Text)
    → contains_key (remove_id s id).entries x
      ≡ (if id == x then false else contains_key s.entries x)
unfolding remove_id
contains_key-remove_id s id x =
    ground
      (arith, list_same_iff id x, contains_key-remove s.entries id x, contains_key-get s.entries x)

-- `t` is `s` with some ids removed.
pub record Shrunk (s t : ReplayCache) : Type 0 where
  pub fewer : len t.entries ≤ len s.entries
  pub shares : (p : Text) → share t p ≤ share s p
  pub within : (id : Text) → contains_key t.entries id ≡ true → contains_key s.entries id ≡ true
  pub capacity : t.capacity ≡ s.capacity
  pub per_principal : t.per_principal ≡ s.per_principal

pub Shrunk-trans : (s t u : ReplayCache) → Shrunk s t → Shrunk t u → Shrunk s u
Shrunk-trans s t u f g = record {
  fewer = omega (arith, f.fewer, g.fewer);
  shares = λ p. omega (arith, f.shares p, g.shares p);
  within = λ id h. f.within id (g.within id h);
  capacity = g.capacity ∙ f.capacity;
  per_principal = g.per_principal ∙ f.per_principal;
}

pub remove_id-Shrunk : (s : ReplayCache) (id : Text) → Shrunk s (remove_id s id)
remove_id-Shrunk s id = record {
  fewer = len-remove_id s id;
  shares = share-remove_id s id;
  within = λ x h. ground (arith, contains_key-remove_id s id x, h);
  capacity = unfold remove_id in ground arith;
  per_principal = unfold remove_id in ground arith;
}

-- The ids that stay in the table after `id` is removed are in the rest of the queue.
pub Queued-remove_id :
    (s : ReplayCache) (id : Text) (order : List Text)
    → Queued (id ∷ order) s
    → Queued order (remove_id s id)
Queued-remove_id s id order h x k =
    ground (arith, contains_key-remove_id s id x, list_same_iff id x, h x, k)

pub Queued-absent :
    (s : ReplayCache) (id : Text) (order : List Text)
    → Queued (id ∷ order) s
    → get s.entries id ≡ none
    → Queued order s
Queued-absent s id order h e x k =
    ground (arith, contains_key-get s.entries id, list_same_iff id x, h x, k, e)

pub record Pruned (s t : ReplayCache) : Type 0 where
  pub shrunk : Shrunk s t
  pub queue : Queued t.insertion_order t

pub same_table :
    (s : ReplayCache) (order : List Text) → Shrunk s (record s { insertion_order = order })
same_table s order = record {
  fewer = omega arith;
  shares = λ p. omega arith;
  within = λ id k. k;
  capacity = refl;
  per_principal = refl;
}

pub prune_loop-Pruned :
    (order : List Text) (s : ReplayCache) (now : ℕ)
    → Queued order s
    → Pruned s (prune_loop s now order)
unfolding prune_loop
prune_loop-Pruned [] s now h = record { shrunk = same_table s []; queue = h }
prune_loop-Pruned (id ∷ order) s now h = elim (Option-cases (get s.entries id)) [
  | inl e ↦ rw (e, prune_loop) (prune_loop-Pruned order s now (Queued-absent s id order h e))
  | inr (entry, e) ↦ elim (Bool-cases (leb entry.expires_at now)) [
    | inl old ↦
        let rest = prune_loop-Pruned order (remove_id s id) now (Queued-remove_id s id order h) in
        rw (e, old, prune_loop)
          (record {
            shrunk =
                Shrunk-trans s (remove_id s id) (prune_loop (remove_id s id) now order)
                  (remove_id-Shrunk s id) rest.shrunk;
            queue = rest.queue;
          })
    | inr live ↦ rw (e, live, prune_loop) (record { shrunk = same_table s (id ∷ order); queue = h })
  ]
]

pub evict_oldest-Pruned :
    (order : List Text) (s : ReplayCache) → Queued order s → Pruned s (evict_oldest s order)
unfolding evict_oldest
evict_oldest-Pruned [] s h = record { shrunk = same_table s []; queue = h }
evict_oldest-Pruned (id ∷ order) s h = elim (Bool-cases (leb s.capacity (len s.entries))) [
  | inl full ↦
      let rest = evict_oldest-Pruned order (remove_id s id) (Queued-remove_id s id order h) in
      rw (full, evict_oldest)
        (record {
          shrunk =
              Shrunk-trans s (remove_id s id) (evict_oldest (remove_id s id) order)
                (remove_id-Shrunk s id) rest.shrunk;
          queue = rest.queue;
        })
  | inr room ↦ rw (room, evict_oldest) (record { shrunk = same_table s (id ∷ order); queue = h })
]

pub len-unqueued :
    (m : HashMap Text ReplayEntry)
    → ((id : Text) → contains_key m id ≡ true → queued [] id ≡ true)
    → len m ≡ 0
unfolding contains_key
len-unqueued [] h = refl
len-unqueued ((k, e) ∷ m) h = absurd (ground (arith, h k, same_refl k))

pub evict_oldest-room :
    (order : List Text) (s : ReplayCache)
    → 0 < s.capacity
    → Queued order s
    → len (evict_oldest s order).entries < s.capacity
unfolding evict_oldest
evict_oldest-room [] s pos h = omega (arith, len-unqueued s.entries h)
evict_oldest-room (id ∷ order) s pos h = ground (
  arith,
  (remove_id-Shrunk s id).capacity,
  evict_oldest-room order (remove_id s id),
  Queued-remove_id s id order h,
)
