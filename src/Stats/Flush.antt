-- ===== src/Stats/Flush.antt =====
-- A flush loses no access.
use blossom_rs.Prelude.{
  ℕ, ◌+◌, ◌%◌, ◌^◌, ◌≡◌, refl, ◌∙◌, false, Option, none, some, List, [], ◌∷◌, ◌==◌, ltb,
  if◌then◌else◌, nat_key, list_key, list_same_iff, same_refl, arith, Text, Option-cases, Bool-cases,
  inl, inr, any,
}
use blossom_rs.HashMap.{HashMap, get, remove, len, get-insert, get-remove}
use blossom_rs.Db
use blossom_rs.Db.{MemoryDatabase, FileStats}
use blossom_rs.Stats.{
  BlobCounters, StatsAccumulator, egress_of, drain_keys, keys, drain, write_rows, flush,
  tracked_count, get_egress,
}

abbrev stored_of : Option FileStats → ℕ
stored_of none = 0
stored_of (some f) = f.egress_bytes

-- The egress bytes that the database has for a blob.
abbrev pub stored_egress : MemoryDatabase → Text → ℕ
stored_egress db h = stored_of (get db.stats h)

record_access-egress :
    (db : MemoryDatabase) (k h : Text) (bytes now : ℕ)
    → stored_egress (Db.record_access db k bytes now).0 h
      ≡ (if k == h then (stored_egress db h + bytes) % 2 ^ 64 else stored_egress db h)
unfolding Db.record_access
record_access-egress db k h bytes now = elim (Option-cases (get db.stats k)) [
  | inl e ↦ ground (
    arith,
    e,
    list_same_iff k h,
    get-insert db.stats k h
        (record { sha256 = k; egress_bytes = (0 + bytes) % 2 ^ 64; last_accessed = now }),
  )
  | inr (f, e) ↦ ground (
    arith,
    e,
    list_same_iff k h,
    get-insert db.stats k h
        (record f { egress_bytes = (f.egress_bytes + bytes) % 2 ^ 64; last_accessed = now }),
  )
]

-- What the database and the counters have of a blob together is kept by the loop.
drain_keys-kept :
    (ks : List Text) (m : HashMap Text BlobCounters) (db : MemoryDatabase) (now : ℕ) (h : Text)
    → let (left, rows) = drain_keys m ks in
      (stored_egress (write_rows db rows now) h + egress_of (get left h)) % 2 ^ 64
      ≡ (stored_egress db h + egress_of (get m h)) % 2 ^ 64
unfolding drain_keys write_rows
drain_keys-kept [] m db now h = refl
drain_keys-kept (k ∷ ks) m db now h = elim (Option-cases (get m k)) [
  | inl e ↦ rw (e, drain_keys) (drain_keys-kept ks m db now h)
  | inr (c, e) ↦
      let removed : get (remove m k) h ≡ (if k == h then none else get m h) = get-remove m k h in
      elim (Bool-cases (ltb 0 c.egress_bytes)) [
        | inl some_bytes ↦
            let db₁ = (Db.record_access db k c.egress_bytes now).0 in
            rw (e, some_bytes, drain_keys)
              (drain_keys-kept ks (remove m k) db₁ now h
                ∙ ground (
                  arith,
                  removed,
                  e,
                  list_same_iff k h,
                  record_access-egress db k h c.egress_bytes now,
                ))
        | inr no_bytes ↦
            rw (e, no_bytes, drain_keys)
              (drain_keys-kept ks (remove m k) db now h
                ∙ ground (arith, removed, e, list_same_iff k h, no_bytes))
      ]
]

drain_keys-left :
    (ks : List Text) (m : HashMap Text BlobCounters) (h : Text)
    → get (drain_keys m ks).0 h ≡ (if any (λ k. k == h) ks then none else get m h)
unfolding drain_keys
drain_keys-left [] m h = refl
drain_keys-left (k ∷ ks) m h = elim (Option-cases (get m k)) [
  | inl e ↦ ground (arith, e, list_same_iff k h, drain_keys-left ks m h)
  | inr (c, e) ↦
      ground (arith, e, list_same_iff k h, drain_keys-left ks (remove m k) h, get-remove m k h)
]

keys-get :
    (m : HashMap Text BlobCounters) (h : Text) → any (λ k. k == h) (keys m) ≡ false → get m h ≡ none
unfolding get
keys-get [] h a = refl
keys-get ((k, c) ∷ m) h a = ground (arith, a, keys-get m h)

len-absent : (m : HashMap Text BlobCounters) → ((h : Text) → get m h ≡ none) → len m ≡ 0
unfolding get
len-absent [] a = refl
len-absent ((k, c) ∷ m) a = absurd (ground (arith, a k, same_refl k))

-- A flush leaves no counter, and adds to what the database has of every blob what its counter had; the
-- counts are taken modulo 2^64, as both keep them.
pub flush-kept :
    (s : StatsAccumulator) (db : MemoryDatabase) (now : ℕ) (h : Text)
    → let (left, written) = flush s db now in
      (tracked_count left ≡ 0)
      × (stored_egress written h % 2 ^ 64 ≡ (stored_egress db h + get_egress s h) % 2 ^ 64)
unfolding flush drain tracked_count get_egress
flush-kept s db now h =
    let gone : (x : Text) → get (drain_keys s.counters (keys s.counters)).0 x ≡ none =
      λ x. ground (arith, drain_keys-left (keys s.counters) s.counters x, keys-get s.counters x) in
    (
      len-absent (drain_keys s.counters (keys s.counters)).0 gone,
      ground (arith, gone h, drain_keys-kept (keys s.counters) s.counters db now h),
    )
