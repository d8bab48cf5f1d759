-- ===== src/Locks.antt =====
-- src/locks/mod.rs: the in-memory database of LFS file locks.
-- Texts are lists of bytes. The id that `uuid` draws and the clock are arguments of `create_lock`.
pub mod Keys
pub mod Owners
pub mod Pages
pub mod Paths
mod Tests
use blossom_rs.Prelude.{
  ℕ, ◌+◌, ◌-◌, ◌%◌, ◌^◌, min, Bool, true, false, Option, none, some, List, [], ◌∷◌, ◌++◌, ◌==◌,
  list_key, nat_key, ltb, leb, not, ◌&&◌, if◌then◌else◌, keep, find, length, take, drop, sort_by,
  Text, bytes_of, to_string, parse_usize,
}
use blossom_rs.HashMap.{HashMap, get, insert, remove, values}

pub record LockRecord : Type 0 where
  pub id : Text
  pub repo_id : Text
  pub path : Text
  pub pubkey : Text
  pub locked_at : ℕ

pub record LockFilters : Type 0 where
  pub path : Option Text
  pub id : Option Text
  pub cursor : Option Text
  pub limit : Option ℕ

pub data LockError : Type 0 where
  conflict : Text → LockError
  not_found : LockError
  forbidden : Text → LockError
  internal : Text → LockError

pub data LockResult (A : Type 0) : Type 0 where
  ok : A → LockResult A
  err : LockError → LockResult A

abbrev pub ok_or : {A : Type 0} → Option A → LockError → LockResult A
ok_or none e = err e
ok_or (some a) e = ok a

pub record MemoryLockDatabase : Type 0 where
  pub locks : HashMap Text LockRecord

pub new : MemoryLockDatabase
new = record { locks = [] }

pub lock_key : Text → Text → Text
lock_key repo id = repo ++ b':' ∷ id

pub path_key : Text → Text → Text
path_key repo path = repo ++ b':' ∷ path

unfoldable pub create_lock :
    MemoryLockDatabase → Text → Text → Text → Text → ℕ → MemoryLockDatabase × LockResult LockRecord
create_lock db repo path pubkey id now =
    let pk = path_key repo path in
    let lock : LockRecord = record {
      id = id;
      repo_id = repo;
      path = path;
      pubkey = pubkey;
      locked_at = now;
    } in
    elim (find (λ l. path_key l.repo_id l.path == pk) (values db.locks)) [
      | some existing ↦ (db, err (conflict existing.id))
      | none ↦ (record { locks = insert db.locks (lock_key repo id) lock }, ok lock)
    ]

abbrev pub refusal : Text
refusal = bytes_of "only the lock owner or an admin can unlock"

-- `delete_lock` at a key of the table.
unfoldable pub unlock :
    MemoryLockDatabase → Text → Bool → Text → MemoryLockDatabase × LockResult LockRecord
unlock db key force requester = elim (get db.locks key) [
  | none ↦ (db, err not_found)
  | some lock ↦
      if not force && not (lock.pubkey == requester)
      then (db, err (forbidden refusal))
      else (record { locks = remove db.locks key }, ok lock)
]

unfoldable pub delete_lock :
    MemoryLockDatabase → Text → Text → Bool → Text → MemoryLockDatabase × LockResult LockRecord
unfolding unlock
delete_lock db repo id force requester = unlock db (lock_key repo id) force requester

unfoldable pub get_lock : MemoryLockDatabase → Text → Text → LockResult LockRecord
get_lock db repo id = ok_or (get db.locks (lock_key repo id)) not_found

pub get_lock_by_path : MemoryLockDatabase → Text → Text → LockResult LockRecord
get_lock_by_path db repo path =
    ok_or (find (λ l. l.repo_id == repo && l.path == path) (values db.locks)) not_found

-- `is_none_or` with an equality.
abbrev pub none_or_same : Option Text → Text → Bool
none_or_same none t = true
none_or_same (some s) t = t == s

-- The locks of a repository that pass the filters, the oldest first.
pub matching : MemoryLockDatabase → Text → LockFilters → List LockRecord
matching db repo filters =
    sort_by (λ x y. ltb x.locked_at y.locked_at)
      (keep (λ l. none_or_same filters.id l.id)
        (keep (λ l. none_or_same filters.path l.path)
          (keep (λ l. l.repo_id == repo) (values db.locks))))

abbrev pub limit_of : Option ℕ → ℕ
limit_of none = 100
limit_of (some n) = n

abbrev pub start_of : Option Text → ℕ
start_of none = 0
start_of (some c) = elim (parse_usize c) [ none ↦ 0 | some n ↦ n ]

-- The sum of the cursor and the limit wraps at 2^64, as in a release build.
pub page : List LockRecord → ℕ → ℕ → List LockRecord × Option Text
page locks start limit =
    let end = min ((start + limit) % 2 ^ 64) (length locks) in
    if leb (length locks) start then ([], none) else (
      take (end - start) (drop start locks),
      (if ltb end (length locks) then some (to_string end) else none),
    )

unfoldable pub list_locks :
    MemoryLockDatabase → Text → LockFilters → LockResult (List LockRecord × Option Text)
unfolding matching page
list_locks db repo filters =
    ok (page (matching db repo filters) (start_of filters.cursor) (limit_of filters.limit))
