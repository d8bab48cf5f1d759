-- ===== src/Locks/Tests.antt =====
-- The lock database on concrete input.
use blossom_rs.Prelude.{
  ℕ, ◌+◌, ◌<◌, ◌^◌, ◌≡◌, ◌≢◌, refl, Bool, true, false, Option, none, some, List, [], ◌∷◌, ◌++◌,
  nat_key, list_key, arith, length, Text, bytes_of, All,
}
use blossom_rs.HashMap.{values}
use blossom_rs.Locks.{
  LockRecord, LockFilters, MemoryLockDatabase, LockResult, ok, err, conflict, not_found, forbidden,
  create_lock, delete_lock, get_lock, get_lock_by_path, list_locks, matching, new, lock_key,
  refusal,
}
use blossom_rs.Locks.Keys.{delete_lock-across}
use blossom_rs.Locks.Paths.{IsExclusive, start, creates, deletes, Reachable-IsExclusive}
use blossom_rs.Locks.Pages.{follow, list_locks-follow}

abbrev repo : Text
repo = bytes_of "r"

abbrev ann : Text
ann = bytes_of "ann"

abbrev lock_of : Text → Text → Text → ℕ → LockRecord
lock_of id repo path at = record {
  id = id;
  repo_id = repo;
  path = path;
  pubkey = ann;
  locked_at = at;
}

abbrev two : MemoryLockDatabase
two = record {
  locks =
      (bytes_of "r:i", lock_of (bytes_of "i") repo (bytes_of "b") 2)
      ∷ (bytes_of "r:j", lock_of (bytes_of "j") repo (bytes_of "a") 1)
      ∷ [];
}

abbrev after_two : MemoryLockDatabase
after_two =
    (delete_lock
      (create_lock (create_lock new repo (bytes_of "a") ann (bytes_of "i") 1).0 repo (bytes_of "b")
        ann (bytes_of "j") 2).0
      repo (bytes_of "i") false ann).0

Reachable-IsExclusive_example : IsExclusive after_two.locks
Reachable-IsExclusive_example = Reachable-IsExclusive after_two (
    deletes repo (bytes_of "i") false ann (
      creates repo (bytes_of "b") ann (bytes_of "j") 2
        (creates repo (bytes_of "a") ann (bytes_of "i") 1 start)))

abbrev one_each : LockFilters
one_each = record { path = none; id = none; cursor = none; limit = some 1 }

list_locks-follow_example : follow 3 two repo one_each ≡ some (matching two repo one_each)
unfolding matching blossom_rs.Prelude.sort_by
list_locks-follow_example =
    list_locks-follow two repo one_each 1 3 refl (ground arith) (ground arith) (ground arith)

oldest_first :
    follow 3 two repo one_each
    ≡ some (
        lock_of (bytes_of "j") repo (bytes_of "a") 1
        ∷ lock_of (bytes_of "i") repo (bytes_of "b") 2
        ∷ [])
unfolding list_locks blossom_rs.Prelude.sort_by blossom_rs.Prelude.parse_usize
    blossom_rs.Prelude.to_string
oldest_first = refl

abbrev nested : MemoryLockDatabase
nested = (create_lock new (bytes_of "r:x") (bytes_of "p") ann (bytes_of "i") 1).0

abbrev nested_lock : LockRecord
nested_lock = record (lock_of (bytes_of "i") repo (bytes_of "p") 1) { repo_id = bytes_of "r:x" }

nested_made :
    (create_lock new (bytes_of "r:x") (bytes_of "p") ann (bytes_of "i") 1).1 ≡ ok nested_lock
unfolding create_lock new
nested_made = refl

-- A caller of `r` deletes the lock of `r:x`.
delete_lock-across_example :
    let (after, answer) = delete_lock nested repo (bytes_of "x:i") false ann in
    (get_lock nested repo (bytes_of "x:i") ≡ ok nested_lock)
    × (answer ≡ ok nested_lock)
    × (get_lock after (bytes_of "r:x") (bytes_of "i") ≡ err not_found)
delete_lock-across_example =
    delete_lock-across new repo (bytes_of "x") (bytes_of "p") ann (bytes_of "i") ann 1 false
      nested_lock nested_made refl

-- A lock of the repository `r:x` keeps the repository `r` from another path.
refused_across :
    (create_lock
      (create_lock new (bytes_of "r:x") (bytes_of "p") ann (bytes_of "i") 1).0
      repo
      (bytes_of "x:p")
      ann
      (bytes_of "j")
      2).1
    ≡ err (conflict (bytes_of "i"))
unfolding create_lock new blossom_rs.HashMap.insert blossom_rs.Locks.path_key
refused_across = refl
