-- ===== src/Locks/Paths.antt =====
-- One lock to a path: when `create_lock` refuses, and that no path is ever locked twice.
use blossom_rs.Prelude.{
  ℕ, ◌≡◌, refl, Bool, false, none, List, [], ◌∷◌, ◌==◌, nat_key, list_key, list_same_iff, arith,
  All, find, any, ◌&&◌, Text, Option-cases, inl, inr,
}
use blossom_rs.HashMap.{HashMap, insert, remove, values}
use blossom_rs.Locks.{
  LockRecord, MemoryLockDatabase, LockResult, ok, err, conflict, lock_key, path_key, create_lock,
  delete_lock, get_lock_by_path, new, unlock,
}
use blossom_rs.Locks.Keys.{NoColon, path_key_same}

abbrev pub granted : LockRecord → LockResult LockRecord → LockResult LockRecord
granted fresh (ok old) = err (conflict old.id)
granted fresh (err e) = ok fresh

module _ (repo path : Text) (plain : NoColon repo) where
  -- The search of `create_lock` and that of `get_lock_by_path` find the same lock.
  find_path :
      (ls : List LockRecord)
      → All (λ l. NoColon l.repo_id) ls
      → find (λ l. path_key l.repo_id l.path == path_key repo path) ls
        ≡ find (λ l. l.repo_id == repo && l.path == path) ls
  find_path [] a = refl
  find_path (l ∷ ls) a =
      ground (arith, path_key_same l.repo_id repo l.path path a.0 plain, find_path ls a.1)

  -- Where no repository has a colon, a lock is refused exactly if `get_lock_by_path` finds one, and
  -- the refusal names that one.
  create_lock-get_lock_by_path :
      (db : MemoryLockDatabase) (pubkey id : Text) (now : ℕ)
      → All (λ l. NoColon l.repo_id) (values db.locks)
      → (create_lock db repo path pubkey id now).1
        ≡ granted
            (record { id = id; repo_id = repo; path = path; pubkey = pubkey; locked_at = now })
            (get_lock_by_path db repo path)
  unfolding create_lock get_lock_by_path
  create_lock-get_lock_by_path db pubkey id now a = ground (arith, find_path (values db.locks) a)

abbrev locked : Text → List LockRecord → Bool
locked pk ls = any (λ l. path_key l.repo_id l.path == pk) ls

-- No two locks of the table have the same repository and path.
abbrev pub IsExclusive : HashMap Text LockRecord → Type 0
IsExclusive [] = Unit
IsExclusive ((k, l) ∷ m) = (locked (path_key l.repo_id l.path) (values m) ≡ false) × IsExclusive m

locked-find :
    (pk : Text) (ls : List LockRecord)
    → find (λ l. path_key l.repo_id l.path == pk) ls ≡ none
    → locked pk ls ≡ false
locked-find pk [] h = refl
locked-find pk (l ∷ ls) h = ground (arith, locked-find pk ls)

locked-remove :
    (pk key : Text) (m : HashMap Text LockRecord)
    → locked pk (values m) ≡ false
    → locked pk (values (remove m key)) ≡ false
unfolding remove
locked-remove pk key [] h = refl
locked-remove pk key ((k, l) ∷ m) h = ground (arith, locked-remove pk key m)

locked-insert :
    (pk key : Text) (x : LockRecord) (m : HashMap Text LockRecord)
    → locked pk (values m) ≡ false
    → (path_key x.repo_id x.path == pk) ≡ false
    → locked pk (values (insert m key x)) ≡ false
unfolding insert
locked-insert pk key x [] h d = ground (arith, d)
locked-insert pk key x ((k, l) ∷ m) h d = ground (arith, d, locked-insert pk key x m)

remove-IsExclusive :
    (key : Text) (m : HashMap Text LockRecord) → IsExclusive m → IsExclusive (remove m key)
unfolding remove
remove-IsExclusive key [] h = tt
remove-IsExclusive key ((k, l) ∷ m) h =
    ground
      (arith, remove-IsExclusive key m h.1, locked-remove (path_key l.repo_id l.path) key m h.0)

insert-IsExclusive :
    (key : Text) (x : LockRecord) (m : HashMap Text LockRecord)
    → locked (path_key x.repo_id x.path) (values m) ≡ false
    → IsExclusive m
    → IsExclusive (insert m key x)
unfolding insert
insert-IsExclusive key x [] f h = (refl, tt)
insert-IsExclusive key x ((k, l) ∷ m) f h =
    let there = path_key l.repo_id l.path in
    let here = path_key x.repo_id x.path in
    ground (
      arith,
      list_same_iff there here,
      list_same_iff here there,
      insert-IsExclusive key x m,
      locked-insert there key x m h.0,
      h.1,
    )

-- The changes that the lock handlers make, one after another from the empty table.
pub data Reachable : MemoryLockDatabase → Type 0 where
  start : Reachable new
  creates :
      {db : MemoryLockDatabase} (repo path pubkey id : Text) (now : ℕ)
      → Reachable db
      → Reachable (create_lock db repo path pubkey id now).0
  deletes :
      {db : MemoryLockDatabase} (repo id : Text) (force : Bool) (requester : Text)
      → Reachable db
      → Reachable (delete_lock db repo id force requester).0

create_lock-IsExclusive :
    (db : MemoryLockDatabase) (repo path pubkey id : Text) (now : ℕ)
    → IsExclusive db.locks
    → IsExclusive (create_lock db repo path pubkey id now).0.locks
unfolding create_lock
create_lock-IsExclusive db repo path pubkey id now h =
    elim (Option-cases
      (find (λ l. path_key l.repo_id l.path == path_key repo path) (values db.locks))) [
        | inr (l, e) ↦ rw (e, create_lock, IsExclusive) h
        | inl e ↦
            rw (e, create_lock, IsExclusive)
              (insert-IsExclusive (lock_key repo id)
                (record { id = id; repo_id = repo; path = path; pubkey = pubkey; locked_at = now })
                db.locks (locked-find (path_key repo path) (values db.locks) e) h)
      ]

delete_lock-IsExclusive :
    (db : MemoryLockDatabase) (repo id : Text) (force : Bool) (requester : Text)
    → IsExclusive db.locks
    → IsExclusive (delete_lock db repo id force requester).0.locks
unfolding delete_lock unlock
delete_lock-IsExclusive db repo id force requester h =
    ground (arith, remove-IsExclusive (lock_key repo id) db.locks h)

-- However locks are made and deleted, and whatever ids are drawn, no path of a repository is locked
-- twice.
pub Reachable-IsExclusive : (db : MemoryLockDatabase) → Reachable db → IsExclusive db.locks
Reachable-IsExclusive db start = unfold new in tt
Reachable-IsExclusive db (creates {db = d} repo path pubkey id now r) =
    create_lock-IsExclusive d repo path pubkey id now (Reachable-IsExclusive d r)
Reachable-IsExclusive db (deletes {db = d} repo id force requester r) =
    delete_lock-IsExclusive d repo id force requester (Reachable-IsExclusive d r)
