-- ===== src/ReplayCache/Bounds.antt =====
-- The replay cache stays within its capacity, and every principal within its share.
use blossom_rs.Prelude.{
  ℕ, zero, suc, ◌≤◌, ◌<◌, ◌≡◌, refl, ap, ◌∙◌, List, [], ◌∷◌, ◌++◌, ◌==◌, ◌||◌, ◌⊎◌, nat_key,
  list_key, list_same_iff, same_refl, arith, leb, length, length-append, Text, Bool-cases, inl, inr,
}
use blossom_rs.HashMap.{get, insert, contains_key, len, get-insert, len-insert, contains_key-insert}
use blossom_rs.ReplayCache.{
  ReplayCache, remove_id, prune_loop, prune_expired, push, make_room, check_and_insert,
  evict_principal, evict_oldest, ids_of,
}
use blossom_rs.ReplayCache.Shrinking.{
  share, queued, Queued, Shrunk, Shrunk-trans, same_table, remove_id-Shrunk, prune_loop-Pruned,
  evict_oldest-Pruned, evict_oldest-room,
}

-- The principal's oldest id leaves its list.
popped-Shrunk :
    (s : ReplayCache) (p oldest : Text) (rest : List Text)
    → ids_of (get s.by_principal p) ≡ oldest ∷ rest
    → Shrunk s (record s { by_principal = insert s.by_principal p rest })
popped-Shrunk s p oldest rest e = record {
  fewer = omega arith;
  shares = λ q. ground (arith, get-insert s.by_principal p q rest, list_same_iff p q, ap length e);
  within = λ id k. k;
  capacity = refl;
  per_principal = refl;
}

ids-cases : (ids : List Text) → (ids ≡ []) ⊎ ((x : Text) × (xs : List Text) × (ids ≡ x ∷ xs))
ids-cases [] = inl refl
ids-cases (x ∷ xs) = inr (x, xs, refl)

evict_principal-Shrunk :
    (fuel : ℕ) (s : ReplayCache) (p : Text) → Shrunk s (evict_principal fuel s p)
unfolding evict_principal
evict_principal-Shrunk zero s p = same_table s s.insertion_order
evict_principal-Shrunk (suc fuel) s p = elim (ids-cases (ids_of (get s.by_principal p))) [
  | inl e ↦ rw (e, evict_principal) (same_table s s.insertion_order)
  | inr (oldest, rest, e) ↦
      let popped = record s { by_principal = insert s.by_principal p rest } in
      let next = remove_id popped oldest in
      elim (Bool-cases (leb s.per_principal (length (oldest ∷ rest)))) [
        | inr room ↦ rw (e, room, evict_principal) (same_table s s.insertion_order)
        | inl full ↦
            rw (e, full, evict_principal)
              (Shrunk-trans s next (evict_principal fuel next p)
                (Shrunk-trans s popped next (popped-Shrunk s p oldest rest e)
                  (remove_id-Shrunk popped oldest))
                (evict_principal-Shrunk fuel next p))
      ]
]

evict_principal-room :
    (fuel : ℕ) (s : ReplayCache) (p : Text)
    → 0 < s.per_principal
    → share s p < fuel
    → share (evict_principal fuel s p) p < s.per_principal
unfolding evict_principal
evict_principal-room zero s p pos h = absurd (omega (arith, h))
evict_principal-room (suc fuel) s p pos h = elim (ids-cases (ids_of (get s.by_principal p))) [
  | inl e ↦ rw (e, evict_principal) (omega (arith, ap length e))
  | inr (oldest, rest, e) ↦
      let popped = record s { by_principal = insert s.by_principal p rest } in
      let next = remove_id popped oldest in
      let fewer : share next p ≤ length rest = ground (
        arith,
        (remove_id-Shrunk popped oldest).shares p,
        get-insert s.by_principal p p rest,
        same_refl p,
      ) in
      elim (Bool-cases (leb s.per_principal (length (oldest ∷ rest)))) [
        | inr room ↦ rw (e, room, evict_principal) (ground (arith, ap length e, room))
        | inl full ↦
            let same : next.per_principal ≡ s.per_principal =
              (remove_id-Shrunk popped oldest).per_principal in
            rw (e, full, evict_principal)
              (ground (arith, same, fewer, ap length e, evict_principal-room fuel next p))
      ]
]

-- What `check_and_insert` keeps.
pub record IsBounded (s : ReplayCache) : Type 0 where
  pub total : len s.entries ≤ s.capacity
  pub shares : (p : Text) → share s p ≤ s.per_principal
  pub queue : Queued s.insertion_order s

queued-append :
    (order : List Text) (id x : Text) → queued (order ++ id ∷ []) x ≡ (queued order x || id == x)
queued-append [] id x = ground arith
queued-append (y ∷ order) id x = ground (arith, queued-append order id x)

push-IsBounded :
    (s : ReplayCache) (p id : Text) (expires : ℕ)
    → len s.entries < s.capacity
    → share s p < s.per_principal
    → ((q : Text) → share s q ≤ s.per_principal)
    → Queued s.insertion_order s
    → IsBounded (push s p id expires)
unfolding push
push-IsBounded s p id expires room space shares queue = record {
  total = ground (arith, len-insert s.entries id (record { principal = p; expires_at = expires }));
  shares = λ q.
      let ids = ids_of (get s.by_principal p) in
      ground (
        arith,
        get-insert s.by_principal p q (ids ++ id ∷ []),
        length-append ids (id ∷ []),
        shares q,
        space,
      );
  queue = λ x k. ground (
    arith,
    queued-append s.insertion_order id x,
    contains_key-insert s.entries id x (record { principal = p; expires_at = expires }),
    queue x,
    k,
  );
}

remove_id-order :
    (s : ReplayCache) (id : Text) → (remove_id s id).insertion_order ≡ s.insertion_order
unfolding remove_id
remove_id-order s id = ground arith

evict_principal-order :
    (fuel : ℕ) (s : ReplayCache) (p : Text)
    → (evict_principal fuel s p).insertion_order ≡ s.insertion_order
unfolding evict_principal
evict_principal-order zero s p = refl
evict_principal-order (suc fuel) s p = elim (ids-cases (ids_of (get s.by_principal p))) [
  | inl e ↦ ground (arith, e)
  | inr (oldest, rest, e) ↦
      let popped = record s { by_principal = insert s.by_principal p rest } in
      ground (
        arith,
        e,
        remove_id-order popped oldest,
        evict_principal-order fuel (remove_id popped oldest) p,
      )
]

pub check_and_insert-IsBounded :
    (s : ReplayCache) (p id : Text) (now expires : ℕ)
    → 0 < s.capacity
    → 0 < s.per_principal
    → IsBounded s
    → let t = (check_and_insert s p id now expires).0 in
      IsBounded t × (t.capacity ≡ s.capacity) × (t.per_principal ≡ s.per_principal)
unfolding check_and_insert prune_expired make_room
check_and_insert-IsBounded s p id now expires limit per b =
    let s₁ = prune_loop s now s.insertion_order in
    let one = prune_loop-Pruned s.insertion_order s now b.queue in
    let f₁ = one.shrunk in
    let fuel = suc (share s₁ p) in
    let s₂ = evict_principal fuel s₁ p in
    let f₂ = evict_principal-Shrunk fuel s₁ p in
    let queue₂ : Queued s₂.insertion_order s₂ =
      λ x k. rw (evict_principal-order fuel s₁ p) (one.queue x (f₂.within x k)) in
    let s₃ = evict_oldest s₂ s₂.insertion_order in
    let three = evict_oldest-Pruned s₂.insertion_order s₂ queue₂ in
    let f₃ = three.shrunk in
    let cap₂ : s₂.capacity ≡ s.capacity = f₂.capacity ∙ f₁.capacity in
    let per₁ : s₁.per_principal ≡ s.per_principal = f₁.per_principal in
    let per₃ : s₃.per_principal ≡ s.per_principal = f₃.per_principal ∙ f₂.per_principal ∙ per₁ in
    let cap₃ : s₃.capacity ≡ s.capacity = f₃.capacity ∙ cap₂ in
    let room : len s₃.entries < s₃.capacity = omega (
      arith,
      evict_oldest-room s₂.insertion_order s₂ (omega (arith, limit, cap₂)) queue₂,
      cap₃,
      cap₂,
    ) in
    let space : share s₃ p < s₃.per_principal = omega (
      arith,
      evict_principal-room fuel s₁ p (omega (arith, per, per₁)) (omega arith),
      f₃.shares p,
      per₃,
      per₁,
    ) in
    elim (Bool-cases (contains_key s₁.entries id)) [
      | inl seen ↦ rw seen (
        record {
          total = omega (arith, f₁.fewer, b.total, f₁.capacity);
          shares = λ q. omega (arith, f₁.shares q, b.shares q, per₁);
          queue = one.queue;
        },
        f₁.capacity,
        f₁.per_principal,
      )
      | inr fresh ↦ rw fresh (
        push-IsBounded s₃ p id expires room space
            (λ q. omega (arith, f₃.shares q, f₂.shares q, f₁.shares q, b.shares q, per₃))
            three.queue,
        unfold push in cap₃,
        unfold push in per₃,
      )
    ]
