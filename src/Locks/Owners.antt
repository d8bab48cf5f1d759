-- ===== src/Locks/Owners.antt =====
-- Who deletes a lock, and what is left.
use blossom_rs.Prelude.{
  ◌≡◌, ◌≢◌, Bool, ◌==◌, nat_key, list_key, same_refl, list_same_iff, arith, ◌||◌, if◌then◌else◌,
  Text,
}
use blossom_rs.HashMap.{get-remove}
use blossom_rs.Locks.{
  LockRecord, MemoryLockDatabase, LockResult, ok, err, not_found, forbidden, refusal, lock_key,
  delete_lock, get_lock, unlock,
}

-- What a requester gets for a lock that the table holds or does not.
abbrev pub verdict : Bool → Text → LockResult LockRecord → LockResult LockRecord
verdict force requester (ok lock) =
    if force || lock.pubkey == requester then ok lock else err (forbidden refusal)
verdict force requester (err e) = err e

-- The lock of the key, or none, after a call that was answered `r`.
abbrev pub left : LockResult LockRecord → LockResult LockRecord → LockResult LockRecord
left (ok lock) before = err not_found
left (err e) before = before

-- `delete_lock` gives the lock that `get_lock` gives, to its owner and by force only. Then the lock is
-- gone, and every lock at another key stays; a refusal leaves the table as it was.
delete_lock-get_lock :
    (db : MemoryLockDatabase) (repo id requester : Text) (force : Bool)
    → let (after, r) = delete_lock db repo id force requester in
      (r ≡ verdict force requester (get_lock db repo id))
      × (get_lock after repo id ≡ left r (get_lock db repo id))
      × ((s j : Text) → lock_key s j ≢ lock_key repo id → get_lock after s j ≡ get_lock db s j)
unfolding delete_lock unlock get_lock
delete_lock-get_lock db repo id requester force =
    let key = lock_key repo id in
    (
      ground arith,
      ground (arith, same_refl key, get-remove db.locks key key),
      λ s j d.
          ground (arith, list_same_iff key (lock_key s j), get-remove db.locks key (lock_key s j)),
    )
