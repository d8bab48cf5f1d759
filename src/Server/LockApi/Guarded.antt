-- ===== src/Server/LockApi/Guarded.antt =====
-- Which locks the HTTP endpoint removes.
use blossom_rs.Prelude.{
  ℕ, ◌≡◌, ◌⊎◌, refl, ap, sym, ◌∙◌, Bool, true, Option, none, some, ◌==◌, nat_key, list_key,
  list_same_iff, ◌&&◌, arith, Text, bytes_of, Bool-cases, Option-cases, inl, inr,
}
use blossom_rs.Access.{Role, admin, member, denied}
use blossom_rs.Auth.{NostrEvent, AuthResult, accepted, rejected, Crypto}
use blossom_rs.Auth.Claims.{verify_auth_event_claims}
use blossom_rs.Auth.Single.{verify_auth_event, mark_after-accepted}
use blossom_rs.HashMap.{get, remove}
use blossom_rs.Locks.{
  MemoryLockDatabase, LockRecord, LockError, LockResult, delete_lock, unlock, lock_key,
}
use blossom_rs.ReplayCache.{ReplayCache}
use blossom_rs.Server.Upload.{AuthHeader, absent, malformed, event_of}
use blossom_rs.Server.LockApi.{
  LockState, LockResponse, with_event, with_verified, unlock_in, unlocking, unlock_path,
  handle_unlock, is_admin,
}

-- The lock of the id is in the table, and is the key's, or the request forces and the key is an admin.
abbrev pub MayUnlock : MemoryLockDatabase → Text → Text → Bool → Role → Text → Type 0
MayUnlock db repo_id lock_id force role pubkey =
    (l : LockRecord) × (get db.locks (lock_key repo_id lock_id) ≡ some l)
    × ((l.pubkey ≡ pubkey) ⊎ ((force ≡ true) × (role ≡ admin)))

delete_lock-cases :
    (db : MemoryLockDatabase) (repo_id lock_id pubkey : Text) (force : Bool) (role : Role)
    → let r = (delete_lock db repo_id lock_id (force && is_admin role) pubkey).0 in
      (r ≡ db)
      ⊎ (MayUnlock db repo_id lock_id force role pubkey
          × (r ≡ record { locks = remove db.locks (lock_key repo_id lock_id) }))
unfolding delete_lock unlock
delete_lock-cases db repo_id lock_id pubkey force role =
    elim (Option-cases (get db.locks (lock_key repo_id lock_id))) [
      | inl e ↦ inl (rw (e, delete_lock, unlock) refl)
      | inr (l, e) ↦ elim (Bool-cases (l.pubkey == pubkey)) [
        | inl own ↦
            inr ((l, e, inl ((list_same_iff l.pubkey pubkey).0 own)), ground (arith, e, own))
        | inr other ↦ elim (Bool-cases (force && is_admin role)) [
          | inl forced ↦ inr (
            (l, e, inr (ground (arith, forced), admin_role role (ground (arith, forced)))),
            ground (arith, e, other, forced),
          )
          | inr unforced ↦ inl (ground (arith, e, other, unforced))
        ]
      ]
    ]
  where
    admin_role : (r : Role) → is_admin r ≡ true → r ≡ admin
    admin_role admin h = refl
    admin_role member h = absurd (ground (arith, h))
    admin_role denied h = absurd (ground (arith, h))

module _ (crypto : Crypto) (base_url : Text) where
  -- The event is for the lock endpoint of this path and method.
  abbrev pub ForLocks : AuthHeader → Text → Text → ℕ → NostrEvent → Type 0
  ForLocks auth path method now event =
      (auth ≡ event_of event)
      × (verify_auth_event_claims crypto event (bytes_of "lock") base_url path method none now
          ≡ accepted)

  abbrev pub Handled :
      LockState
      → AuthHeader
      → Text
      → Text
      → ℕ
      → (LockState → Text → LockState × LockResponse)
      → LockState × LockResponse
      → Type 0
  Handled s auth path method now handle r =
      (r.0.lock_db ≡ s.lock_db)
      ⊎ ((event : NostrEvent) × (seen : ReplayCache) × ForLocks auth path method now event
          × (r ≡ handle (record s { seen = seen }) event.pubkey))

  with_verified-Handled :
      (s : LockState) (event : NostrEvent) (path method : Text) (now : ℕ)
      (handle : LockState → Text → LockState × LockResponse) (v : ReplayCache × AuthResult)
      → (v.1 ≡ accepted
          → verify_auth_event_claims crypto event (bytes_of "lock") base_url path method none now
            ≡ accepted)
      → Handled s
          (event_of event)
          path
          method
          now
          handle
          (with_verified crypto base_url s event handle v)
  with_verified-Handled s event path method now handle (seen, rejected e) h = inl refl
  with_verified-Handled s event path method now handle (seen, accepted) h =
      inr (event, seen, (refl, h refl), refl)

  pub with_event-Handled :
      (s : LockState) (auth : AuthHeader) (path method : Text) (now : ℕ)
      (handle : LockState → Text → LockState × LockResponse)
      → Handled s auth path method now handle
          (with_event crypto base_url s auth path method now handle)
  unfolding with_event verify_auth_event
  with_event-Handled s absent path method now handle = inl refl
  with_event-Handled s malformed path method now handle = inl refl
  with_event-Handled s (event_of event) path method now handle =
      let claims =
        verify_auth_event_claims crypto event (bytes_of "lock") base_url path method none now in
      with_verified-Handled s event path method now handle
        (verify_auth_event crypto s.seen event (bytes_of "lock") base_url path method none now)
        (λ k. (mark_after-accepted crypto claims s.seen event now k).0)

  unlocking-db :
      (s : LockState) (r : MemoryLockDatabase × LockResult LockRecord)
      → (unlocking crypto base_url s r).0.lock_db ≡ some r.0
  unlocking-db s (db, LockResult.ok gone) = refl
  unlocking-db s (db, LockResult.err LockError.not_found) = refl
  unlocking-db s (db, LockResult.err (LockError.forbidden m)) = refl
  unlocking-db s (db, LockResult.err (LockError.conflict id)) = refl
  unlocking-db s (db, LockResult.err (LockError.internal m)) = refl

  -- The lock is removed, and may be.
  abbrev pub Unlocks :
      Option MemoryLockDatabase
      → Option MemoryLockDatabase
      → Text
      → Text
      → Bool
      → Role
      → Text
      → Type 0
  Unlocks before after repo_id lock_id force role pubkey =
      (db : MemoryLockDatabase) × (before ≡ some db)
      × MayUnlock db repo_id lock_id force role pubkey
      × (after ≡ some (record { locks = remove db.locks (lock_key repo_id lock_id) }))

  unlock_in-cases :
      (s : LockState) (o : Option MemoryLockDatabase) (repo_id lock_id pubkey : Text) (force : Bool)
      (role : Role)
      → s.lock_db ≡ o
      → let t = (unlock_in crypto base_url s o repo_id lock_id (force && is_admin role) pubkey).0 in
        (t.lock_db ≡ s.lock_db) ⊎ Unlocks s.lock_db t.lock_db repo_id lock_id force role pubkey
  unlock_in-cases s none repo_id lock_id pubkey force role e = inl refl
  unlock_in-cases s (some db) repo_id lock_id pubkey force role e =
      let r = delete_lock db repo_id lock_id (force && is_admin role) pubkey in
      let next = unlocking-db s r in
      elim (delete_lock-cases db repo_id lock_id pubkey force role) [
        | inl same ↦ inl (next ∙ ap (λ d. some d) same ∙ sym e)
        | inr (may, gone) ↦ inr (db, e, may, next ∙ ap (λ d. some d) gone)
      ]

  -- A request to unlock leaves the locks as they are, unless it has an event whose claims hold for this
  -- path; the lock of the id is there, and is the key's, or the request forces and the key is an admin's;
  -- and what it changes is that this lock is removed.
  pub handle_unlock-guarded :
      (role : Text → Role) (s : LockState) (auth : AuthHeader) (repo_id lock_id : Text)
      (force : Bool) (now : ℕ)
      → let t = (handle_unlock crypto base_url role s auth repo_id lock_id force now).0 in
        (t.lock_db ≡ s.lock_db)
        ⊎ ((event : NostrEvent) × ForLocks auth
              (unlock_path repo_id lock_id)
              (bytes_of "POST")
              now
              event
            × Unlocks s.lock_db t.lock_db repo_id lock_id force (role event.pubkey) event.pubkey)
  unfolding handle_unlock
  handle_unlock-guarded role s auth repo_id lock_id force now =
      let handle : LockState → Text → LockState × LockResponse = λ u pubkey.
        unlock_in crypto base_url u u.lock_db repo_id lock_id (force && is_admin (role pubkey))
          pubkey in
      elim (with_event-Handled s auth (unlock_path repo_id lock_id) (bytes_of "POST") now handle) [
        | inl same ↦ inl same
        | inr (event, seen, ok, e) ↦
            elim (unlock_in-cases (record s { seen = seen }) s.lock_db repo_id lock_id event.pubkey
              force (role event.pubkey) refl) [
                | inl same ↦ inl (ap (λ r. r.0.lock_db) e ∙ same)
                | inr (db, has, may, gone) ↦
                    inr (event, ok, (db, has, may, ap (λ r. r.0.lock_db) e ∙ gone))
              ]
      ]
