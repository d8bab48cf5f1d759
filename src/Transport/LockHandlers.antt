-- ===== src/Transport/LockHandlers.antt =====
-- src/transport/iroh_transport.rs: handle_lock_create, handle_lock_delete, handle_lock_list and
-- handle_lock_verify.
use blossom_rs.Prelude.{
  ℕ, Bool, Option, none, some, List, ◌==◌, nat_key, list_key, not, ◌&&◌, keep, if◌then◌else◌, Text,
  bytes_of,
}
use blossom_rs.Access.{Action, lock, Role}
use blossom_rs.Locks.{
  MemoryLockDatabase, LockRecord, LockFilters, LockError, LockResult, create_lock, delete_lock,
  list_locks,
}
use blossom_rs.Transport.{Request, Status}
use blossom_rs.Transport.Binding.{non_empty}
use blossom_rs.Transport.Gate.{Texts, is_admin}
use blossom_rs.Transport.Handlers.{Json, Reply, reply, describe}

abbrev pub filters_of : Request → LockFilters
filters_of req = record {
  path = none;
  id = none;
  cursor = non_empty req.cursor;
  limit = if req.limit == 0 then none else some req.limit;
}

module _ (json : Json) (texts : Texts) where
  abbrev no_locks : Reply json
  no_locks = reply json Status.not_found (bytes_of "lock support not configured")

  abbrev created :
      MemoryLockDatabase × LockResult LockRecord → Option MemoryLockDatabase × Reply json
  created (db, LockResult.ok found) = (some db, describe json (json.of_lock found))
  created (db, LockResult.err (LockError.conflict id)) =
      (some db, reply json Status.conflict (bytes_of "path already locked"))
  created (db, LockResult.err LockError.not_found) =
      (some db, reply json Status.error (texts.of_lock LockError.not_found))
  created (db, LockResult.err (LockError.forbidden m)) =
      (some db, reply json Status.error (texts.of_lock (LockError.forbidden m)))
  created (db, LockResult.err (LockError.internal m)) =
      (some db, reply json Status.error (texts.of_lock (LockError.internal m)))

  module _ (is_allowed : Text → Action → Bool) where
    abbrev create_in :
        Option MemoryLockDatabase
        → Request
        → Text
        → Text
        → ℕ
        → Option MemoryLockDatabase × Reply json
    create_in none req pubkey id now = (none, no_locks)
    create_in (some db) req pubkey id now =
        created (create_lock db req.repo_id req.lock_path pubkey id now)

    -- `id` is the one that `uuid` draws.
    unfoldable pub handle_lock_create :
        Option MemoryLockDatabase
        → Request
        → Option Text
        → Text
        → ℕ
        → Option MemoryLockDatabase × Reply json
    unfolding create_lock
    handle_lock_create db req none id now =
        (db, reply json Status.unauthorized (bytes_of "auth required for lock"))
    handle_lock_create db req (some pubkey) id now =
        if is_allowed pubkey lock
        then create_in db req pubkey id now
        else (db, reply json Status.forbidden (bytes_of "lock not allowed"))

  abbrev unlocked :
      MemoryLockDatabase × LockResult LockRecord → Option MemoryLockDatabase × Reply json
  unlocked (db, LockResult.ok found) = (some db, describe json (json.of_lock found))
  unlocked (db, LockResult.err LockError.not_found) =
      (some db, reply json Status.not_found (bytes_of "lock not found"))
  unlocked (db, LockResult.err (LockError.forbidden m)) = (some db, reply json Status.forbidden m)
  unlocked (db, LockResult.err (LockError.conflict id)) =
      (some db, reply json Status.error (texts.of_lock (LockError.conflict id)))
  unlocked (db, LockResult.err (LockError.internal m)) =
      (some db, reply json Status.error (texts.of_lock (LockError.internal m)))

  module _ (role : Text → Role) where
    abbrev delete_in :
        Option MemoryLockDatabase → Request → Text → Option MemoryLockDatabase × Reply json
    delete_in none req pubkey = (none, no_locks)
    delete_in (some db) req pubkey =
        let force = req.force && is_admin (role pubkey) in
        unlocked (delete_lock db req.repo_id req.lock_id force pubkey)

    unfoldable pub handle_lock_delete :
        Option MemoryLockDatabase → Request → Option Text → Option MemoryLockDatabase × Reply json
    unfolding delete_lock
    handle_lock_delete db req none =
        (db, reply json Status.unauthorized (bytes_of "auth required for unlock"))
    handle_lock_delete db req (some pubkey) = delete_in db req pubkey

  abbrev paged : LockResult (List LockRecord × Option Text) → Reply json
  paged (LockResult.err e) = reply json Status.error (texts.of_lock e)
  paged (LockResult.ok (records, next_cursor)) = describe json (json.of_locks records next_cursor)

  unfoldable pub handle_lock_list : Option MemoryLockDatabase → Request → Reply json
  unfolding list_locks
  handle_lock_list none req = no_locks
  handle_lock_list (some db) req = paged (list_locks db req.repo_id (filters_of req))

  abbrev shared_out : Text → LockResult (List LockRecord × Option Text) → Reply json
  shared_out pubkey (LockResult.err e) = reply json Status.error (texts.of_lock e)
  shared_out pubkey (LockResult.ok (records, next_cursor)) = describe json (
      json.of_shares (keep (λ l. l.pubkey == pubkey) records)
        (keep (λ l. not (l.pubkey == pubkey)) records) next_cursor)

  abbrev verify_in : Option MemoryLockDatabase → Request → Text → Reply json
  verify_in none req pubkey = no_locks
  verify_in (some db) req pubkey = shared_out pubkey (list_locks db req.repo_id (filters_of req))

  unfoldable pub handle_lock_verify : Option MemoryLockDatabase → Request → Option Text → Reply json
  handle_lock_verify db req none =
      reply json Status.unauthorized (bytes_of "auth required for verify")
  handle_lock_verify db req (some pubkey) = verify_in db req pubkey
