-- ===== src/ReplayCache/Replays.antt =====
-- An event is not taken twice while its entry stands.
use blossom_rs.Prelude.{
  ℕ, ◌<◌, ◌≡◌, ◌≢◌, true, false, some, List, [], ◌∷◌, nat_key, list_key, list_same_iff, arith, Text,
}
use blossom_rs.HashMap.{get, get-remove, get-insert_self, contains_key-get}
use blossom_rs.ReplayCache.{
  ReplayEntry, ReplayCache, remove_id, prune_loop, prune_expired, push, make_room, check_and_insert,
}

remove_id-get :
    (s : ReplayCache) (x id : Text) → id ≢ x → get (remove_id s id).entries x ≡ get s.entries x
unfolding remove_id
remove_id-get s x id d = ground (arith, get-remove s.entries id x, list_same_iff id x)

-- The loop drops no entry that has not expired.
prune_loop-get :
    (order : List Text) (s : ReplayCache) (now : ℕ) (x : Text) (e : ReplayEntry)
    → get s.entries x ≡ some e
    → now < e.expires_at
    → get (prune_loop s now order).entries x ≡ some e
unfolding prune_loop
prune_loop-get [] s now x e h lt = h
prune_loop-get (id ∷ order) s now x e h lt = ground (
  arith,
  list_same_iff id x,
  remove_id-get s x id,
  prune_loop-get order s now x e h lt,
  prune_loop-get order (remove_id s id) now x e,
)

pub check_and_insert-held :
    (s : ReplayCache) (p id : Text) (now expires : ℕ) (e : ReplayEntry)
    → get s.entries id ≡ some e
    → now < e.expires_at
    → (check_and_insert s p id now expires).1 ≡ false
unfolding check_and_insert prune_expired
check_and_insert-held s p id now expires e h lt = ground (
  arith,
  prune_loop-get s.insertion_order s now id e h lt,
  contains_key-get (prune_loop s now s.insertion_order).entries id,
)

-- The entry that is made of an event that is taken.
pub check_and_insert-made :
    (s : ReplayCache) (p id : Text) (now expires : ℕ)
    → (check_and_insert s p id now expires).1 ≡ true
    → get (check_and_insert s p id now expires).0.entries id
      ≡ some (record { principal = p; expires_at = expires })
unfolding check_and_insert prune_expired push
check_and_insert-made s p id now expires h = ground (
  arith,
  h,
  get-insert_self (make_room (prune_loop s now s.insertion_order) p).entries id
      (record { principal = p; expires_at = expires }),
)

-- An event that was taken is refused until it expires, if it is the next to be presented: from
-- whomever it comes, and with whatever expiry.
pub check_and_insert-twice :
    (s : ReplayCache) (p q id : Text) (now expires later expires' : ℕ)
    → (check_and_insert s p id now expires).1 ≡ true
    → later < expires
    → (check_and_insert (check_and_insert s p id now expires).0 q id later expires').1 ≡ false
check_and_insert-twice s p q id now expires later expires' h lt =
    check_and_insert-held (check_and_insert s p id now expires).0 q id later expires'
      (record { principal = p; expires_at = expires }) (check_and_insert-made s p id now expires h)
      lt
