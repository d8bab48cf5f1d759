-- ===== src/Transport/Replay.antt =====
-- src/transport/iroh_transport.rs: ReplayCache, the authorization events that the transport took.
-- It is not the cache of src/server/mod.rs: it counts the entries of a principal and keeps one queue.
pub mod Kept
pub mod Shrinking
pub mod Bounds
pub mod Commits
use blossom_rs.Prelude.{
  ℕ, zero, suc, ◌-◌, Bool, true, false, Option, none, some, List, [], ◌∷◌, ◌++◌, ◌==◌, ◌+◌, nat_key,
  list_key, leb, if◌then◌else◌, length, Text,
}
use blossom_rs.Auth.{saturating_add}
use blossom_rs.HashMap.{HashMap, get, insert, remove, contains_key, len}

pub record ReplayEntry : Type 0 where
  pub principal : Text
  pub expires_at : ℕ

pub record ReplayCache : Type 0 where
  pub entries : HashMap Text ReplayEntry
  pub order : List Text
  pub per_principal : HashMap Text ℕ
  pub max_entries : ℕ
  pub max_per_principal : ℕ

unfoldable pub new : ℕ → ℕ → ReplayCache
new max_entries max_per_principal = record {
  entries = [];
  order = [];
  per_principal = [];
  max_entries = max_entries;
  max_per_principal = max_per_principal;
}

-- `get(principal).copied().unwrap_or(0)`.
abbrev pub count_of : HashMap Text ℕ → Text → ℕ
count_of m principal = elim (get m principal) [ none ↦ 0 | some count ↦ count ]

abbrev pub set_or_remove : HashMap Text ℕ → Text → ℕ → HashMap Text ℕ
set_or_remove m principal count =
    if count == 0 then remove m principal else insert m principal count

abbrev pub decrement : HashMap Text ℕ → Text → HashMap Text ℕ
decrement m principal = elim (get m principal) [
  | none ↦ m
  | some count ↦ set_or_remove m principal (count - 1)
]

unfoldable pub remove_entry : ReplayCache → Text → ReplayCache
remove_entry s event_id = elim (get s.entries event_id) [
  | none ↦ s
  | some entry ↦ record s {
    entries = remove s.entries event_id;
    per_principal = decrement s.per_principal entry.principal;
  }
]

-- The loop of `prune_expired` on the queue, which pops an id where the code calls `evict_oldest`.
unfoldable pub prune_loop : ReplayCache → ℕ → List Text → ReplayCache
unfolding remove_entry
prune_loop s now [] = record s { order = [] }
prune_loop s now (event_id ∷ order) = elim (get s.entries event_id) [
  | none ↦ prune_loop s now order
  | some entry ↦
      if leb entry.expires_at now
      then prune_loop (remove_entry s event_id) now order
      else record s { order = event_id ∷ order }
]

unfoldable pub prune_expired : ReplayCache → ℕ → ReplayCache
unfolding prune_loop
prune_expired s now = prune_loop s now s.order

abbrev pub is_of : ReplayCache → Text → Text → Bool
is_of s principal event_id = elim (get s.entries event_id) [
  | none ↦ false
  | some entry ↦ entry.principal == principal
]

abbrev pub with_head : Text → Option (Text × List Text) → Option (Text × List Text)
with_head x none = none
with_head x (some (found, rest)) = some (found, x ∷ rest)

-- `position` and the `remove` at that position: the first id that passes, and the queue without it.
unfoldable pub remove_first : (Text → Bool) → List Text → Option (Text × List Text)
remove_first p [] = none
remove_first p (x ∷ order) =
    let rest = remove_first p order in if p x then some (x, order) else with_head x rest

-- The next state, or `none` where the code returns false.
unfoldable pub evict_oldest_for : ReplayCache → Text → Option ReplayCache
unfolding remove_first remove_entry
evict_oldest_for s principal = elim (remove_first (is_of s principal) s.order) [
  | none ↦ none
  | some (event_id, order) ↦ some (remove_entry (record s { order = order }) event_id)
]

-- The first loop of `commit`, on fuel: a round takes an id from the queue.
unfoldable pub evict_principal : ℕ → ReplayCache → Text → ReplayCache
unfolding evict_oldest_for
evict_principal zero s principal = s
evict_principal (suc fuel) s principal = elim (evict_oldest_for s principal) [
  | none ↦ s
  | some next ↦
      if leb s.max_per_principal (count_of s.per_principal principal)
      then evict_principal fuel next principal
      else s
]

-- The second loop, on the queue of ids.
unfoldable pub evict_oldest : ReplayCache → List Text → ReplayCache
unfolding remove_entry
evict_oldest s [] = record s { order = [] }
evict_oldest s (event_id ∷ order) =
    if leb s.max_entries (len s.entries)
    then evict_oldest (remove_entry s event_id) order
    else record s { order = event_id ∷ order }

-- What follows the loops.
unfoldable pub push : ReplayCache → Text → Text → ℕ → ReplayCache
push s event_id principal now = record s {
  entries =
      insert s.entries event_id
        (record { principal = principal; expires_at = saturating_add now 120 });
  order = s.order ++ event_id ∷ [];
  per_principal = insert s.per_principal principal (count_of s.per_principal principal + 1);
}

unfoldable pub make_room : ReplayCache → Text → ReplayCache
unfolding evict_principal evict_oldest
make_room s principal =
    let s = evict_principal (suc (length s.order)) s principal in evict_oldest s s.order

unfoldable pub commit : ReplayCache → Text → Text → ℕ → ReplayCache × Bool
unfolding prune_expired make_room push
commit s event_id principal now =
    let s = prune_expired s now in
    if contains_key s.entries event_id
    then (s, false)
    else (push (make_room s principal) event_id principal now, true)
