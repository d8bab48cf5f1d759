-- ===== src/Transport/Replay/Shrinking.antt =====
-- What the evictions of the transport's replay cache remove, and what they leave.
use blossom_rs.Prelude.{
  ℕ, ◌-◌, ◌≤◌, ◌≡◌, refl, ◌∙◌, Bool, true, false, none, List, [], ◌∷◌, ◌==◌, ◌||◌, nat_key,
  list_key, list_same_iff, arith, leb, if◌then◌else◌, any, Text, Option-cases, Bool-cases, inl, inr,
}
use blossom_rs.HashMap.{
  HashMap, get, contains_key, len, IsMap, IsMap-remove, get-remove, get-insert, contains_key-get,
  len-remove-le, contains_key-remove,
}
use blossom_rs.HashMap.Totals.{total, total-remove}
use blossom_rs.Transport.Replay.{
  ReplayEntry, ReplayCache, remove_entry, prune_loop, evict_oldest, count_of, decrement,
  set_or_remove,
}

abbrev pub one_of : Text → Text → ReplayEntry → ℕ
one_of p id entry = if entry.principal == p then 1 else 0

-- How many entries a principal has in the table.
abbrev pub entries_of : ReplayCache → Text → ℕ
entries_of s p = total (one_of p) s.entries

abbrev pub queued : List Text → Text → Bool
queued order id = any (λ x. x == id) order

-- Every id of the table is in the queue.
abbrev pub Queued : List Text → ReplayCache → Type 0
Queued order s = (id : Text) → contains_key s.entries id ≡ true → queued order id ≡ true

-- The ids are different, and the counts are those of the table.
pub record IsCounted (s : ReplayCache) : Type 0 where
  pub distinct : IsMap s.entries
  pub counts : (p : Text) → count_of s.per_principal p ≡ entries_of s p

-- `t` is `s` with some ids removed.
pub record Shrunk (s t : ReplayCache) : Type 0 where
  pub fewer : len t.entries ≤ len s.entries
  pub shares : (p : Text) → count_of t.per_principal p ≤ count_of s.per_principal p
  pub within : (id : Text) → contains_key t.entries id ≡ true → contains_key s.entries id ≡ true
  pub counted : IsCounted t
  pub max_entries : t.max_entries ≡ s.max_entries
  pub max_per_principal : t.max_per_principal ≡ s.max_per_principal

pub Shrunk-trans : (s t u : ReplayCache) → Shrunk s t → Shrunk t u → Shrunk s u
Shrunk-trans s t u f g = record {
  fewer = omega (arith, f.fewer, g.fewer);
  shares = λ p. omega (arith, f.shares p, g.shares p);
  within = λ id h. f.within id (g.within id h);
  counted = g.counted;
  max_entries = g.max_entries ∙ f.max_entries;
  max_per_principal = g.max_per_principal ∙ f.max_per_principal;
}

pub same_tables :
    (s : ReplayCache) (order : List Text) → IsCounted s → Shrunk s (record s { order = order })
same_tables s order c = record {
  fewer = omega arith;
  shares = λ p. omega arith;
  within = λ id h. h;
  counted = record { distinct = c.distinct; counts = c.counts };
  max_entries = refl;
  max_per_principal = refl;
}

count_of-set :
    (m : HashMap Text ℕ) (q p : Text) (count : ℕ)
    → count_of (set_or_remove m q count) p ≡ (if q == p then count else count_of m p)
count_of-set m q p count = ground (arith, get-remove m q p, get-insert m q p count)

count_of-decrement :
    (m : HashMap Text ℕ) (q p : Text)
    → count_of (decrement m q) p ≡ (if q == p then count_of m p - 1 else count_of m p)
count_of-decrement m q p = elim (Option-cases (get m q)) [
  | inl e ↦ ground (arith, e, list_same_iff q p)
  | inr (count, e) ↦ ground (arith, e, list_same_iff q p, count_of-set m q p (count - 1))
]

remove_entry-counts :
    (s : ReplayCache) (id p : Text)
    → IsCounted s
    → count_of (remove_entry s id).per_principal p ≡ entries_of (remove_entry s id) p
unfolding remove_entry
remove_entry-counts s id p c = elim (Option-cases (get s.entries id)) [
  | inl e ↦ ground (arith, e, c.counts p)
  | inr (entry, e) ↦ ground (
    arith,
    e,
    c.counts p,
    total-remove (one_of p) s.entries id c.distinct,
    count_of-decrement s.per_principal entry.principal p,
  )
]

pub contains_key-remove_entry :
    (s : ReplayCache) (id x : Text)
    → contains_key (remove_entry s id).entries x
      ≡ (if id == x then false else contains_key s.entries x)
unfolding remove_entry
contains_key-remove_entry s id x =
    ground
      (arith, list_same_iff id x, contains_key-remove s.entries id x, contains_key-get s.entries x)

remove_entry-len : (s : ReplayCache) (id : Text) → len (remove_entry s id).entries ≤ len s.entries
unfolding remove_entry
remove_entry-len s id = ground (arith, len-remove-le s.entries id)

remove_entry-shares :
    (s : ReplayCache) (id p : Text)
    → count_of (remove_entry s id).per_principal p ≤ count_of s.per_principal p
unfolding remove_entry
remove_entry-shares s id p = elim (Option-cases (get s.entries id)) [
  | inl e ↦ ground (arith, e)
  | inr (entry, e) ↦ ground (arith, e, count_of-decrement s.per_principal entry.principal p)
]

remove_entry-distinct :
    (s : ReplayCache) (id : Text) → IsMap s.entries → IsMap (remove_entry s id).entries
unfolding remove_entry
remove_entry-distinct s id d = elim (Option-cases (get s.entries id)) [
  | inl e ↦ rw (e, remove_entry) d
  | inr (entry, e) ↦ rw (e, remove_entry) (IsMap-remove s.entries id d)
]

remove_entry-max :
    (s : ReplayCache) (id : Text)
    → ((remove_entry s id).max_entries ≡ s.max_entries)
      × ((remove_entry s id).max_per_principal ≡ s.max_per_principal)
unfolding remove_entry
remove_entry-max s id = ground arith

pub remove_entry-Shrunk : (s : ReplayCache) (id : Text) → IsCounted s → Shrunk s (remove_entry s id)
remove_entry-Shrunk s id c = record {
  fewer = remove_entry-len s id;
  shares = remove_entry-shares s id;
  within = λ x h. ground (arith, h, contains_key-remove_entry s id x);
  counted = record {
    distinct = remove_entry-distinct s id c.distinct;
    counts = λ p. remove_entry-counts s id p c;
  };
  max_entries = (remove_entry-max s id).0;
  max_per_principal = (remove_entry-max s id).1;
}

-- An id leaves the queue together with its entry.
pub popped-Queued :
    (s : ReplayCache) (id : Text) (order rest : List Text)
    → ((x : Text) → queued order x ≡ (id == x || queued rest x))
    → Queued order s
    → Queued rest (remove_entry s id)
popped-Queued s id order rest e q x h =
    ground (arith, e x, q x, h, contains_key-remove_entry s id x)

-- What a loop on the queue leaves.
pub record Pruned (s t : ReplayCache) : Type 0 where
  pub shrunk : Shrunk s t
  pub queue : Queued t.order t

pub Pruned-after : (s t u : ReplayCache) → Shrunk s t → Pruned t u → Pruned s u
Pruned-after s t u f g = record { shrunk = Shrunk-trans s t u f g.shrunk; queue = g.queue }

stopped :
    (s : ReplayCache) (order : List Text)
    → IsCounted s
    → Queued order s
    → Pruned s (record s { order = order })
stopped s order c q = record { shrunk = same_tables s order c; queue = q }

queued_head :
    (id : Text) (order : List Text) (x : Text) → queued (id ∷ order) x ≡ (id == x || queued order x)
queued_head id order x = ground arith

skipped-Queued :
    (s : ReplayCache) (id : Text) (order : List Text)
    → get s.entries id ≡ none
    → Queued (id ∷ order) s
    → Queued order s
skipped-Queued s id order e q x h =
    ground (arith, q x, h, list_same_iff id x, contains_key-get s.entries x, e)

pub prune_loop-Pruned :
    (order : List Text) (s : ReplayCache) (now : ℕ)
    → IsCounted s
    → Queued order s
    → Pruned s (prune_loop s now order)
unfolding prune_loop
prune_loop-Pruned [] s now c q = stopped s [] c q
prune_loop-Pruned (id ∷ order) s now c q = elim (Option-cases (get s.entries id)) [
  | inl e ↦ rw (e, prune_loop) (prune_loop-Pruned order s now c (skipped-Queued s id order e q))
  | inr (entry, e) ↦ elim (Bool-cases (leb entry.expires_at now)) [
    | inl old ↦
        let next = remove_entry s id in
        let f = remove_entry-Shrunk s id c in
        rw (e, old, prune_loop)
          (Pruned-after s next (prune_loop next now order) f (
            prune_loop-Pruned order next now f.counted
              (popped-Queued s id (id ∷ order) order (queued_head id order) q)))
    | inr live ↦ rw (e, live, prune_loop) (stopped s (id ∷ order) c q)
  ]
]

pub evict_oldest-Pruned :
    (order : List Text) (s : ReplayCache)
    → IsCounted s
    → Queued order s
    → Pruned s (evict_oldest s order)
unfolding evict_oldest
evict_oldest-Pruned [] s c q = stopped s [] c q
evict_oldest-Pruned (id ∷ order) s c q = elim (Bool-cases (leb s.max_entries (len s.entries))) [
  | inr room ↦ rw (room, evict_oldest) (stopped s (id ∷ order) c q)
  | inl full ↦
      let next = remove_entry s id in
      let f = remove_entry-Shrunk s id c in
      rw (full, evict_oldest)
        (Pruned-after s next (evict_oldest next order) f (
          evict_oldest-Pruned order next f.counted
            (popped-Queued s id (id ∷ order) order (queued_head id order) q)))
]
