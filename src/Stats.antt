-- ===== src/Stats.antt =====
-- src/stats.rs: the counters of blob accesses in memory, and their flush to the database.
-- The atomic counters wrap at 2^64.
pub mod Flush
mod Tests
use blossom_rs.Prelude.{
  ℕ, ◌+◌, ◌%◌, ◌^◌, Bool, true, false, Option, none, some, List, [], ◌∷◌, ◌++◌, map, ltb,
  if◌then◌else◌, nat_key, list_key, Text,
}
use blossom_rs.HashMap.{HashMap, get, insert, remove, len}
use blossom_rs.Db
use blossom_rs.Db.{MemoryDatabase}

pub record BlobCounters : Type 0 where
  pub egress_bytes : ℕ
  pub last_accessed : ℕ

pub record StatsAccumulator : Type 0 where
  pub counters : HashMap Text BlobCounters

abbrev pub egress_of : Option BlobCounters → ℕ
egress_of none = 0
egress_of (some c) = c.egress_bytes

abbrev or_new : Option BlobCounters → BlobCounters
or_new none = record { egress_bytes = 0; last_accessed = 0 }
or_new (some c) = c

unfoldable pub record_access : StatsAccumulator → Text → ℕ → ℕ → StatsAccumulator
record_access s sha256 bytes_served now =
    let c = or_new (get s.counters sha256) in
    record {
      counters =
          insert s.counters sha256 (record {
            egress_bytes = (c.egress_bytes + bytes_served) % 2 ^ 64;
            last_accessed = now;
          });
    }

-- What is drained of a blob: its hash, its egress bytes and its last access.
abbrev pub Drained : Type 0
Drained = Text × ℕ × ℕ

abbrev reported : Text → BlobCounters → List Drained → List Drained
reported k c rest =
    if ltb 0 c.egress_bytes then (k, c.egress_bytes, c.last_accessed) ∷ rest else rest

-- The loop of `drain` on the keys.
pub drain_keys : HashMap Text BlobCounters → List Text → HashMap Text BlobCounters × List Drained
drain_keys m [] = (m, [])
drain_keys m (k ∷ keys) = elim (get m k) [
  | none ↦ drain_keys m keys
  | some c ↦ let (left, rest) = drain_keys (remove m k) keys in (left, reported k c rest)
]

abbrev pub keys : HashMap Text BlobCounters → List Text
keys m = map (λ e. e.0) m

pub drain : StatsAccumulator → StatsAccumulator × List Drained
unfolding drain_keys
drain s =
    let (left, rows) = drain_keys s.counters (keys s.counters) in (record { counters = left }, rows)

-- The loop of `flush`; the error of a database that fails is only logged.
pub write_rows : MemoryDatabase → List Drained → ℕ → MemoryDatabase
write_rows db [] now = db
write_rows db ((sha256, egress, last) ∷ rows) now =
    write_rows (Db.record_access db sha256 egress now).0 rows now

unfoldable pub flush : StatsAccumulator → MemoryDatabase → ℕ → StatsAccumulator × MemoryDatabase
unfolding drain write_rows
flush s db now = let (left, rows) = drain s in (left, write_rows db rows now)

unfoldable pub tracked_count : StatsAccumulator → ℕ
tracked_count s = len s.counters

unfoldable pub get_egress : StatsAccumulator → Text → ℕ
get_egress s sha256 = egress_of (get s.counters sha256)
