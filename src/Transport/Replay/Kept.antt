-- ===== src/Transport/Replay/Kept.antt =====
-- An event is not taken twice while its entry stands, by the replay cache of the QUIC transport.
use blossom_rs.Prelude.{
  ℕ, ◌<◌, ◌≡◌, ◌≢◌, true, false, some, List, [], ◌∷◌, nat_key, list_key, list_same_iff, arith, Text,
}
use blossom_rs.Auth.{saturating_add}
use blossom_rs.HashMap.{get, get-remove, get-insert_self, contains_key-get}
use blossom_rs.Transport.Replay.{
  ReplayEntry, ReplayCache, remove_entry, prune_loop, prune_expired, push, make_room, commit,
}

remove_entry-get :
    (s : ReplayCache) (x id : Text) → id ≢ x → get (remove_entry s id).entries x ≡ get s.entries x
unfolding remove_entry
remove_entry-get s x id d = ground (arith, get-remove s.entries id x, list_same_iff id x)

-- The loop drops no entry that has not expired.
prune_loop-get :
    (order : List Text) (s : ReplayCache) (now : ℕ) (x : Text) (e : ReplayEntry)
    → get s.entries x ≡ some e
    → now < e.expires_at
    → get (prune_loop s now order).entries x ≡ some e
unfolding prune_loop
prune_loop-get [] s now x e h lt = h
prune_loop-get (id ∷ order) s now x e h lt = ground (
  arith,
  list_same_iff id x,
  remove_entry-get s x id,
  prune_loop-get order s now x e h lt,
  prune_loop-get order (remove_entry s id) now x e,
)

commit-held :
    (s : ReplayCache) (id p : Text) (now : ℕ) (e : ReplayEntry)
    → get s.entries id ≡ some e
    → now < e.expires_at
    → (commit s id p now).1 ≡ false
unfolding commit prune_expired
commit-held s id p now e h lt = ground (
  arith,
  prune_loop-get s.order s now id e h lt,
  contains_key-get (prune_loop s now s.order).entries id,
)

-- An event that was taken is refused for two minutes, from whomever it comes, if it is the next to be
-- presented.
pub commit-twice :
    (s : ReplayCache) (id p q : Text) (now later : ℕ)
    → (commit s id p now).1 ≡ true
    → later < saturating_add now 120
    → (commit (commit s id p now).0 id q later).1 ≡ false
unfolding push
commit-twice s id p q now later h lt =
    commit-held (commit s id p now).0 id q later
      (record { principal = p; expires_at = saturating_add now 120 })
      (unfold commit prune_expired in
        (ground (
          arith,
          get-insert_self (make_room (prune_loop s now s.order) p).entries id
              (record { principal = p; expires_at = saturating_add now 120 }),
        )))
      lt
