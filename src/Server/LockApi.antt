-- ===== src/Server/LockApi.antt =====
-- src/server/locks.rs: the four endpoints of the LFS locks.
pub mod Guarded
use blossom_rs.Prelude.{
  ℕ, Bool, true, false, Option, none, some, List, [], ◌∷◌, ◌++◌, ◌==◌, nat_key, list_key, map, keep,
  not, ◌&&◌, if◌then◌else◌, Text, bytes_of,
}
use blossom_rs.Access.{Action, lock, Role, admin, member, denied}
use blossom_rs.Auth.{NostrEvent, AuthResult, accepted, rejected, Crypto}
use blossom_rs.Auth.Single.{verify_auth_event}
use blossom_rs.Locks.{
  MemoryLockDatabase, LockRecord, LockFilters, LockError, LockResult, create_lock, delete_lock,
  get_lock, list_locks,
}
use blossom_rs.ReplayCache.{ReplayCache}
use blossom_rs.Server.Calendar.{format_unix_timestamp}
use blossom_rs.Server.Upload.{AuthHeader, absent, malformed, event_of}

pub record LfsOwner : Type 0 where
  pub name : Text

pub record LfsLock : Type 0 where
  pub id : Text
  pub path : Text
  pub locked_at : Text
  pub owner : LfsOwner

unfoldable pub lock_record_to_lfs : LockRecord → LfsLock
unfolding format_unix_timestamp
lock_record_to_lfs r = record {
  id = r.id;
  path = r.path;
  locked_at = format_unix_timestamp r.locked_at;
  owner = record { name = r.pubkey };
}

-- 401; 403; 404; 500; 409, with the lock that stands where it is found; 201; 200.
pub data LockResponse : Type 0 where
  unauthorized : LockResponse
  forbidden : Text → LockResponse
  not_found : Text → LockResponse
  internal_server_error : LockError → LockResponse
  conflict : Option LfsLock → LockResponse
  created : LfsLock → LockResponse
  unlocked : LfsLock → LockResponse
  listed : List LfsLock → Option Text → LockResponse
  shared : List LfsLock → List LfsLock → Option Text → LockResponse

-- The part of `ServerState` that the endpoints change, with the process's replay cache.
pub record LockState : Type 0 where
  pub lock_db : Option MemoryLockDatabase
  pub seen : ReplayCache

abbrev pub lock_not_configured : LockResponse
lock_not_configured = not_found (bytes_of "lock support not configured")

abbrev pub locks_path : Text → Text
locks_path repo_id = bytes_of "/lfs/" ++ repo_id ++ bytes_of "/locks"

abbrev pub verify_path : Text → Text
verify_path repo_id = bytes_of "/lfs/" ++ repo_id ++ bytes_of "/locks/verify"

abbrev pub unlock_path : Text → Text → Text
unlock_path repo_id lock_id =
    bytes_of "/lfs/" ++ repo_id ++ bytes_of "/locks/" ++ lock_id ++ bytes_of "/unlock"

abbrev pub is_admin : Role → Bool
is_admin admin = true
is_admin member = false
is_admin denied = false

module _ (crypto : Crypto) (base_url : Text) where
  abbrev pub with_verified :
      LockState
      → NostrEvent
      → (LockState → Text → LockState × LockResponse)
      → ReplayCache × AuthResult
      → LockState × LockResponse
  with_verified s event handle (seen, rejected e) = (record s { seen = seen }, unauthorized)
  with_verified s event handle (seen, accepted) = handle (record s { seen = seen }) event.pubkey

  -- How each of the endpoints begins: `handle` is what it does for the key of the event.
  unfoldable pub with_event :
      LockState
      → AuthHeader
      → Text
      → Text
      → ℕ
      → (LockState → Text → LockState × LockResponse)
      → LockState × LockResponse
  unfolding verify_auth_event
  with_event s absent path method now handle = (s, unauthorized)
  with_event s malformed path method now handle = (s, unauthorized)
  with_event s (event_of event) path method now handle =
      with_verified s event handle
        (verify_auth_event crypto s.seen event (bytes_of "lock") base_url path method none now)

  abbrev pub existing_lock : LockResult LockRecord → Option LfsLock
  existing_lock (LockResult.err e) = none
  existing_lock (LockResult.ok existing) = some (lock_record_to_lfs existing)

  abbrev pub creation :
      LockState → Text → MemoryLockDatabase × LockResult LockRecord → LockState × LockResponse
  creation s repo_id (db, LockResult.ok made) =
      (record s { lock_db = some db }, created (lock_record_to_lfs made))
  creation s repo_id (db, LockResult.err (LockError.conflict existing_id)) =
      (record s { lock_db = some db }, conflict (existing_lock (get_lock db repo_id existing_id)))
  creation s repo_id (db, LockResult.err LockError.not_found) =
      (record s { lock_db = some db }, internal_server_error LockError.not_found)
  creation s repo_id (db, LockResult.err (LockError.forbidden m)) =
      (record s { lock_db = some db }, internal_server_error (LockError.forbidden m))
  creation s repo_id (db, LockResult.err (LockError.internal m)) =
      (record s { lock_db = some db }, internal_server_error (LockError.internal m))

  abbrev pub create_in :
      LockState
      → Option MemoryLockDatabase
      → Text
      → Text
      → Text
      → Text
      → ℕ
      → LockState × LockResponse
  create_in s none repo_id path pubkey id now = (s, lock_not_configured)
  create_in s (some db) repo_id path pubkey id now =
      creation s repo_id (create_lock db repo_id path pubkey id now)

  -- `id` is the one that `uuid` draws, `now` the clock at both of its uses.
  unfoldable pub handle_create_lock :
      (Text → Action → Bool)
      → LockState
      → AuthHeader
      → Text
      → Text
      → Text
      → ℕ
      → LockState × LockResponse
  unfolding with_event create_lock get_lock lock_record_to_lfs
  handle_create_lock is_allowed s auth repo_id path id now =
      with_event s auth (locks_path repo_id) (bytes_of "POST") now (λ s pubkey.
        if is_allowed pubkey lock
        then create_in s s.lock_db repo_id path pubkey id now
        else (s, forbidden (bytes_of "lock not allowed")))

  abbrev pub page_of : LockResult (List LockRecord × Option Text) → LockResponse
  page_of (LockResult.err e) = internal_server_error e
  page_of (LockResult.ok (records, next_cursor)) =
      listed (map lock_record_to_lfs records) next_cursor

  abbrev pub list_in : Option MemoryLockDatabase → Text → LockFilters → LockResponse
  list_in none repo_id filters = lock_not_configured
  list_in (some db) repo_id filters = page_of (list_locks db repo_id filters)

  unfoldable pub handle_list_locks :
      LockState → AuthHeader → Text → LockFilters → ℕ → LockState × LockResponse
  unfolding with_event list_locks lock_record_to_lfs
  handle_list_locks s auth repo_id filters now =
      with_event s auth (locks_path repo_id) (bytes_of "GET") now
        (λ s pubkey. (s, list_in s.lock_db repo_id filters))

  abbrev pub shares_of : Text → LockResult (List LockRecord × Option Text) → LockResponse
  shares_of pubkey (LockResult.err e) = internal_server_error e
  shares_of pubkey (LockResult.ok (records, next_cursor)) =
      shared (map lock_record_to_lfs (keep (λ l. l.pubkey == pubkey) records))
        (map lock_record_to_lfs (keep (λ l. not (l.pubkey == pubkey)) records)) next_cursor

  abbrev pub verify_in :
      Option MemoryLockDatabase → Text → Text → Option Text → Option ℕ → LockResponse
  verify_in none pubkey repo_id cursor limit = lock_not_configured
  verify_in (some db) pubkey repo_id cursor limit =
      shares_of pubkey
        (list_locks db repo_id (record { path = none; id = none; cursor = cursor; limit = limit }))

  unfoldable pub handle_verify_locks :
      LockState → AuthHeader → Text → Option Text → Option ℕ → ℕ → LockState × LockResponse
  unfolding with_event list_locks lock_record_to_lfs
  handle_verify_locks s auth repo_id cursor limit now =
      with_event s auth (verify_path repo_id) (bytes_of "POST") now
        (λ s pubkey. (s, verify_in s.lock_db pubkey repo_id cursor limit))

  abbrev pub unlocking :
      LockState → MemoryLockDatabase × LockResult LockRecord → LockState × LockResponse
  unlocking s (db, LockResult.ok gone) =
      (record s { lock_db = some db }, unlocked (lock_record_to_lfs gone))
  unlocking s (db, LockResult.err LockError.not_found) =
      (record s { lock_db = some db }, not_found (bytes_of "lock not found"))
  unlocking s (db, LockResult.err (LockError.forbidden m)) =
      (record s { lock_db = some db }, forbidden m)
  unlocking s (db, LockResult.err (LockError.conflict id)) =
      (record s { lock_db = some db }, internal_server_error (LockError.conflict id))
  unlocking s (db, LockResult.err (LockError.internal m)) =
      (record s { lock_db = some db }, internal_server_error (LockError.internal m))

  abbrev pub unlock_in :
      LockState → Option MemoryLockDatabase → Text → Text → Bool → Text → LockState × LockResponse
  unlock_in s none repo_id lock_id force pubkey = (s, lock_not_configured)
  unlock_in s (some db) repo_id lock_id force pubkey =
      unlocking s (delete_lock db repo_id lock_id force pubkey)

  unfoldable pub handle_unlock :
      (Text → Role) → LockState → AuthHeader → Text → Text → Bool → ℕ → LockState × LockResponse
  unfolding with_event delete_lock lock_record_to_lfs
  handle_unlock role s auth repo_id lock_id force now =
      with_event s auth (unlock_path repo_id lock_id) (bytes_of "POST") now
        (λ s pubkey. unlock_in s s.lock_db repo_id lock_id (force && is_admin (role pubkey)) pubkey)
