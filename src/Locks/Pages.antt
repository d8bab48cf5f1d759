-- ===== src/Locks/Pages.antt =====
-- `list_locks` as a client reads it: following the cursors from page to page.
use mathlib.Core.List.{append-nil}
use blossom_rs.Prelude.{
  ℕ, zero, suc, ◌+◌, ◌-◌, ◌%◌, ◌^◌, ◌≤◌, ◌<◌, min, ◌≡◌, refl, sym, ap, ◌∙◌, Option, none, some,
  List, [], ◌∷◌, ◌++◌, nat_key, list_key, arith, ltb, ltb→lt, length, take, drop, take-append-drop,
  Text, Bool-cases, inl, inr, to_string, parse_usize-to_string,
}
use blossom_rs.Locks.{
  LockRecord, LockFilters, MemoryLockDatabase, LockResult, ok, err, matching, list_locks, page,
  start_of, limit_of,
}

abbrev prepend : List LockRecord → Option (List LockRecord) → Option (List LockRecord)
prepend ls none = none
prepend ls (some more) = some (ls ++ more)

abbrev onward :
    LockResult (List LockRecord × Option Text)
    → (Text → Option (List LockRecord))
    → Option (List LockRecord)
onward (err e) next = none
onward (ok (ls, none)) next = some ls
onward (ok (ls, some cursor)) next = prepend ls (next cursor)

-- The pages that a client reads in `fuel` requests, in one list.
abbrev pub follow : ℕ → MemoryLockDatabase → Text → LockFilters → Option (List LockRecord)
follow zero db repo filters = none
follow (suc fuel) db repo filters =
    onward (list_locks db repo filters)
      (λ cursor. follow fuel db repo (record filters { cursor = some cursor }))

drop_nil : {A : Type 0} (n : ℕ) → drop {A = A} n [] ≡ []
drop_nil zero = refl
drop_nil (suc n) = refl

take_nil : {A : Type 0} (n : ℕ) → take {A = A} n [] ++ [] ≡ []
take_nil zero = refl
take_nil (suc n) = refl

drop_all : {A : Type 0} (xs : List A) (n : ℕ) → length xs ≤ n → drop n xs ≡ []
drop_all [] n h = drop_nil n
drop_all (x ∷ xs) zero h = elim h [ ]
drop_all (x ∷ xs) (suc n) h = drop_all xs n (omega arith)

take-drop :
    {A : Type 0} (xs : List A) (s e : ℕ) → s ≤ e → take (e - s) (drop s xs) ++ drop e xs ≡ drop s xs
take-drop [] s e h = rw (drop_nil s, drop_nil e) (take_nil (e - s))
take-drop (x ∷ xs) zero e h =
    let all : e - 0 ≡ e = omega arith in rw all (take-append-drop e (x ∷ xs))
take-drop (x ∷ xs) (suc s) zero h = elim h [ ]
take-drop (x ∷ xs) (suc s) (suc e) h =
    let same : suc e - suc s ≡ e - s = omega arith in rw same (take-drop xs s e (omega arith))

page_past :
    (locks : List LockRecord) (start limit : ℕ)
    → length locks ≤ start
    → page locks start limit ≡ ([], none)
unfolding page
page_past locks start limit h = ground arith

page_middle :
    (locks : List LockRecord) (start limit : ℕ)
    → length locks + limit < 2 ^ 64
    → start + limit < length locks
    → page locks start limit
      ≡ (take (start + limit - start) (drop start locks), some (to_string (start + limit)))
unfolding page
page_middle locks start limit bound h =
    let no_wrap : (start + limit) % 2 ^ 64 ≡ start + limit = omega arith in
    let at : min (start + limit) (length locks) ≡ start + limit = ground arith in
    rw (no_wrap, at) (ground arith)

page_last :
    (locks : List LockRecord) (start limit : ℕ)
    → length locks + limit < 2 ^ 64
    → start < length locks
    → length locks ≤ start + limit
    → page locks start limit ≡ (take (length locks - start) (drop start locks), none)
unfolding page
page_last locks start limit bound h k =
    let no_wrap : (start + limit) % 2 ^ 64 ≡ start + limit = omega arith in
    let at : min (start + limit) (length locks) ≡ length locks = ground arith in
    rw (no_wrap, at) (ground arith)

last_part :
    (locks : List LockRecord) (start : ℕ)
    → start ≤ length locks
    → take (length locks - start) (drop start locks) ≡ drop start locks
last_part locks start h =
    sym (append-nil (take (length locks - start) (drop start locks)))
    ∙ rw (sym (drop_all locks (length locks) (omega arith)))
        (take-drop locks start (length locks) h)

-- What a client has from a page on, where it has the rest from the cursor on.
paged :
    (locks : List LockRecord) (start limit : ℕ) (next : Text → Option (List LockRecord))
    → length locks + limit < 2 ^ 64
    → start ≤ length locks
    → (start + limit < length locks
        → next (to_string (start + limit)) ≡ some (drop (start + limit) locks))
    → onward (ok (page locks start limit)) next ≡ some (drop start locks)
paged locks start limit next bound h more = elim (Bool-cases (ltb (start + limit) (length locks))) [
  | inl e ↦
      rw
        (
          page_middle locks start limit bound (ltb→lt (start + limit) (length locks) e),
          more (ltb→lt (start + limit) (length locks) e),
        )
        (ap some (take-drop locks start (start + limit) (omega arith)))
  | inr e ↦ elim (Bool-cases (ltb start (length locks))) [
    | inl f ↦
        rw (page_last locks start limit bound (ltb→lt start (length locks) f) (ground arith))
          (ap some (last_part locks start h))
    | inr f ↦
        rw (page_past locks start limit (ground arith))
          (ap some (sym (drop_all locks start (ground arith))))
  ]
]

module _ (db : MemoryLockDatabase) (repo : Text) (filters : LockFilters) where
  follow_from :
      (fuel start limit : ℕ) (cursor : Option Text)
      → let locks = matching db repo filters in
        filters.limit ≡ some limit
        → 0 < limit
        → length locks + limit < 2 ^ 64
        → start_of cursor ≡ start
        → length locks < fuel + start
        → start ≤ length locks
        → follow fuel db repo (record filters { cursor = cursor }) ≡ some (drop start locks)
  unfolding list_locks
  follow_from zero start limit cursor el pos bound es hf hs = absurd (omega (arith, hf, hs))
  follow_from (suc fuel) start limit cursor el pos bound es hf hs =
      let at : limit_of filters.limit ≡ limit = ground (arith, el) in
      rw (es, at)
        (paged (matching db repo filters) start limit
          (λ c. follow fuel db repo (record filters { cursor = some c })) bound hs
          λ more.
            follow_from fuel (start + limit) limit (some (to_string (start + limit))) el pos bound
              (ground (arith, parse_usize-to_string (start + limit))) (omega arith) (omega arith))

  -- Where the filters set a limit that is not 0, a client that starts without a cursor and follows
  -- the cursors gets every matching lock once, in order: one request more than there are locks is
  -- enough. The limit and the number of locks do not reach 2^64 together.
  pub list_locks-follow :
      (limit fuel : ℕ)
      → filters.limit ≡ some limit
      → 0 < limit
      → length (matching db repo filters) + limit < 2 ^ 64
      → length (matching db repo filters) < fuel
      → follow fuel db repo (record filters { cursor = none }) ≡ some (matching db repo filters)
  list_locks-follow limit fuel el pos bound hf =
      follow_from fuel 0 limit none el pos bound refl (omega (arith, hf)) (omega arith)
