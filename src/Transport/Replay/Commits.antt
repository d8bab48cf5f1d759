-- ===== src/Transport/Replay/Commits.antt =====
-- What each commit keeps of the transport's replay cache.
use blossom_rs.Prelude.{
  ℕ, suc, ◌+◌, ◌≤◌, ◌<◌, ◌≡◌, refl, false, List, [], ◌∷◌, ◌++◌, ◌==◌, ◌||◌, nat_key, list_key,
  list_same_iff, arith, length, Text, Bool-cases, inl, inr,
}
use blossom_rs.HashMap.{
  get, contains_key, len, IsMap-insert, get-insert, len-insert, contains_key-insert,
}
use blossom_rs.HashMap.Totals.{total-insert_fresh}
use blossom_rs.Auth.{saturating_add}
use blossom_rs.Transport.Replay.{
  ReplayEntry, ReplayCache, new, prune_loop, prune_expired, push, make_room, commit,
  evict_principal, evict_oldest, count_of,
}
use blossom_rs.Transport.Replay.Shrinking.{
  one_of, entries_of, queued, Queued, IsCounted, Shrunk, Shrunk-trans, prune_loop-Pruned,
  evict_oldest-Pruned,
}
use blossom_rs.Transport.Replay.Bounds.{evict_principal-Evicted, evict_oldest-room}

-- The counts are those of the table, which is within its limit, every principal within its own, and
-- every id of the table in the queue.
pub record IsBounded (s : ReplayCache) : Type 0 where
  pub counted : IsCounted s
  pub queue : Queued s.order s
  pub total : len s.entries ≤ s.max_entries
  pub shares : (p : Text) → entries_of s p ≤ s.max_per_principal

queued-append :
    (order : List Text) (id x : Text) → queued (order ++ id ∷ []) x ≡ (queued order x || id == x)
queued-append [] id x = ground arith
queued-append (y ∷ order) id x = ground (arith, queued-append order id x)

push-counts :
    (s : ReplayCache) (id p q : Text) (now : ℕ)
    → contains_key s.entries id ≡ false
    → IsCounted s
    → count_of (push s id p now).per_principal q ≡ entries_of (push s id p now) q
unfolding push
push-counts s id p q now fresh c = ground (
  arith,
  list_same_iff p q,
  c.counts q,
  get-insert s.per_principal p q (count_of s.per_principal p + 1),
  total-insert_fresh (one_of q) s.entries id
      (record { principal = p; expires_at = saturating_add now 120 }) fresh,
)

push-IsBounded :
    (s : ReplayCache) (id p : Text) (now : ℕ)
    → contains_key s.entries id ≡ false
    → IsCounted s
    → Queued s.order s
    → len s.entries < s.max_entries
    → count_of s.per_principal p < s.max_per_principal
    → ((q : Text) → count_of s.per_principal q ≤ s.max_per_principal)
    → IsBounded (push s id p now)
unfolding push
push-IsBounded s id p now fresh c queue room space shares =
    let entry : ReplayEntry = record { principal = p; expires_at = saturating_add now 120 } in
    record {
      counted = record {
        distinct = IsMap-insert s.entries id entry c.distinct;
        counts = λ q. push-counts s id p q now fresh c;
      };
      queue = λ x k.
          ground (
            arith,
            queued-append s.order id x,
            contains_key-insert s.entries id x entry,
            queue x,
            k,
          );
      total = ground (arith, room, len-insert s.entries id entry);
      shares = λ q. ground (
        arith,
        push-counts s id p q now fresh c,
        get-insert s.per_principal p q (count_of s.per_principal p + 1),
        shares q,
        space,
        list_same_iff p q,
        total-insert_fresh (one_of q) s.entries id entry fresh,
        c.counts q,
      );
    }

-- A commit keeps the cache within its limits and its counts exact, where the limits are not zero.
commit-IsBounded :
    (s : ReplayCache) (id p : Text) (now : ℕ)
    → 0 < s.max_entries
    → 0 < s.max_per_principal
    → IsBounded s
    → let t = (commit s id p now).0 in
      IsBounded t × (t.max_entries ≡ s.max_entries) × (t.max_per_principal ≡ s.max_per_principal)
unfolding commit prune_expired make_room
commit-IsBounded s id p now limit per b =
    let s₁ = prune_loop s now s.order in
    let one = prune_loop-Pruned s.order s now b.counted b.queue in
    let f₁ = one.shrunk in
    let per₁ : 0 < s₁.max_per_principal = omega (arith, per, f₁.max_per_principal) in
    let fuel = suc (length s₁.order) in
    let s₂ = evict_principal fuel s₁ p in
    let two = evict_principal-Evicted fuel s₁ p f₁.counted one.queue per₁ (omega arith) in
    let f₂ = two.pruned.shrunk in
    let s₃ = evict_oldest s₂ s₂.order in
    let three = evict_oldest-Pruned s₂.order s₂ f₂.counted two.pruned.queue in
    let f₃ = three.shrunk in
    let f = Shrunk-trans s s₂ s₃ (Shrunk-trans s s₁ s₂ f₁ f₂) f₃ in
    let limit₂ : 0 < s₂.max_entries = omega (arith, limit, f₁.max_entries, f₂.max_entries) in
    elim (Bool-cases (contains_key s₁.entries id)) [
      | inl seen ↦ rw seen (
        record {
          counted = f₁.counted;
          queue = one.queue;
          total = omega (arith, f₁.fewer, b.total, f₁.max_entries);
          shares = λ q. omega (
            arith,
            f₁.shares q,
            b.shares q,
            f₁.max_per_principal,
            b.counted.counts q,
            f₁.counted.counts q,
          );
        },
        f₁.max_entries,
        f₁.max_per_principal,
      )
      | inr fresh ↦ rw fresh (
        push-IsBounded s₃ id p now (gone s₁ s₃ id (Shrunk-trans s₁ s₂ s₃ f₂ f₃) fresh) f₃.counted
            three.queue
            (omega (
              arith,
              evict_oldest-room s₂.order s₂ f₂.counted limit₂ two.pruned.queue,
              f₃.max_entries,
            ))
            (omega (arith, two.room, f₃.shares p, f₃.max_per_principal))
            (λ q. omega (arith, f.shares q, b.shares q, b.counted.counts q, f.max_per_principal)),
        unfold push in f.max_entries,
        unfold push in f.max_per_principal,
      )
    ]
  where
    gone :
        (s t : ReplayCache) (id : Text)
        → Shrunk s t
        → contains_key s.entries id ≡ false
        → contains_key t.entries id ≡ false
    gone s t id f fresh = ground (arith, f.within id, fresh)

-- The caches that the transport reaches from an empty one.
pub new-IsBounded :
    (max_entries max_per_principal : ℕ) → IsBounded (new max_entries max_per_principal)
unfolding new contains_key get
new-IsBounded max_entries max_per_principal = record {
  counted = record { distinct = tt; counts = λ p. refl };
  queue = λ id h. h;
  total = omega arith;
  shares = λ p. omega arith;
}
