-- ===== src/ReplayCache.antt =====
-- src/server/mod.rs: ReplayCache, the authorization events that were used lately.
-- Ids and principals are texts as lists of bytes.
pub mod Shrinking
pub mod Bounds
pub mod Calls
pub mod Replays
mod Tests
use blossom_rs.Prelude.{
  ℕ, zero, suc, Bool, true, false, Option, none, some, List, [], ◌∷◌, ◌++◌, ◌==◌, nat_key, list_key,
  leb, not, if◌then◌else◌, keep, length, Text,
}
use blossom_rs.HashMap.{HashMap, get, insert, remove, contains_key, len}

pub record ReplayEntry : Type 0 where
  pub principal : Text
  pub expires_at : ℕ

pub record ReplayCache : Type 0 where
  pub entries : HashMap Text ReplayEntry
  pub insertion_order : List Text
  pub by_principal : HashMap Text (List Text)
  pub capacity : ℕ
  pub per_principal : ℕ

unfoldable pub new : ℕ → ℕ → ReplayCache
new capacity per_principal = record {
  entries = [];
  insertion_order = [];
  by_principal = [];
  capacity = capacity;
  per_principal = per_principal;
}

-- The ids of a principal without the one that is removed.
abbrev put_back : HashMap Text (List Text) → Text → List Text → HashMap Text (List Text)
put_back m principal [] = remove m principal
put_back m principal (x ∷ xs) = insert m principal (x ∷ xs)

abbrev without : HashMap Text (List Text) → Text → Text → HashMap Text (List Text)
without m principal event_id = elim (get m principal) [
  | none ↦ m
  | some ids ↦ put_back m principal (keep (λ id. not (id == event_id)) ids)
]

-- `ReplayCache::remove`.
pub remove_id : ReplayCache → Text → ReplayCache
remove_id s event_id = elim (get s.entries event_id) [
  | none ↦ s
  | some entry ↦ record s {
    entries = remove s.entries event_id;
    by_principal = without s.by_principal entry.principal event_id;
  }
]

-- The loop of `prune_expired` on the queue of ids.
pub prune_loop : ReplayCache → ℕ → List Text → ReplayCache
prune_loop s now [] = record s { insertion_order = [] }
prune_loop s now (event_id ∷ order) = elim (get s.entries event_id) [
  | none ↦ prune_loop s now order
  | some entry ↦
      if leb entry.expires_at now
      then prune_loop (remove_id s event_id) now order
      else record s { insertion_order = event_id ∷ order }
]

pub prune_expired : ReplayCache → ℕ → ReplayCache
unfolding prune_loop
prune_expired s now = prune_loop s now s.insertion_order

abbrev pub ids_of : Option (List Text) → List Text
ids_of none = []
ids_of (some ids) = ids

-- The first loop of `check_and_insert`, on fuel; each round pops an id of the principal.
pub evict_principal : ℕ → ReplayCache → Text → ReplayCache
evict_principal zero s principal = s
evict_principal (suc fuel) s principal = elim (ids_of (get s.by_principal principal)) [
  | [] ↦ s
  | oldest ∷ rest ↦
      if leb s.per_principal (length (oldest ∷ rest))
      then evict_principal fuel
          (remove_id (record s { by_principal = insert s.by_principal principal rest }) oldest)
          principal
      else s
]

-- The second loop, on the queue of ids.
pub evict_oldest : ReplayCache → List Text → ReplayCache
evict_oldest s [] = record s { insertion_order = [] }
evict_oldest s (oldest ∷ order) =
    if leb s.capacity (len s.entries)
    then evict_oldest (remove_id s oldest) order
    else record s { insertion_order = oldest ∷ order }

-- What follows the loops.
pub push : ReplayCache → Text → Text → ℕ → ReplayCache
push s principal event_id expires_at = record s {
  entries = insert s.entries event_id (record { principal = principal; expires_at = expires_at });
  insertion_order = s.insertion_order ++ event_id ∷ [];
  by_principal =
      insert s.by_principal principal (ids_of (get s.by_principal principal) ++ event_id ∷ []);
}

pub make_room : ReplayCache → Text → ReplayCache
unfolding evict_principal evict_oldest
make_room s principal =
    let s = evict_principal (suc (length (ids_of (get s.by_principal principal)))) s principal in
    evict_oldest s s.insertion_order

unfoldable pub check_and_insert : ReplayCache → Text → Text → ℕ → ℕ → ReplayCache × Bool
unfolding prune_expired make_room push
check_and_insert s principal event_id now expires_at =
    let s = prune_expired s now in
    if contains_key s.entries event_id
    then (s, false)
    else (push (make_room s principal) principal event_id expires_at, true)
