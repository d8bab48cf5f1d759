-- ===== src/Locks/Keys.antt =====
-- The keys of the lock table: `repo:id` and `repo:path` are one to one where repositories hold no
-- colon, and not otherwise.
use mathlib.Core.List.{append_assoc}
use blossom_rs.HashMap.{get, remove, values, HashMap, get-insert_self, get-remove}
use blossom_rs.Prelude.{
  ℕ, true, some, none, find, Option-cases, same_refl, inl, inr, ◌||◌, ◌∙◌, ◌≡◌, ◌≢◌, refl, sym, ap,
  Bool, [], ◌∷◌, ◌++◌, ◌==◌, nat_key, list_key, list_same_iff, arith, All, ◌&&◌, Text,
}
use blossom_rs.Locks.{
  lock_key, path_key, MemoryLockDatabase, delete_lock, unlock, create_lock, get_lock, LockRecord,
  ok, err, ok_or, not_found,
}

abbrev pub NoColon : Text → Type 0
NoColon = All (λ c. c ≢ b':')

split_at_colon :
    (a b c d : Text) → NoColon a → NoColon c → a ++ b':' ∷ b ≡ c ++ b':' ∷ d → (a ≡ c) × (b ≡ d)
split_at_colon [] b [] d h k e = (refl, ground arith)
split_at_colon [] b (y ∷ c) d h k e = absurd (k.0 (ground arith))
split_at_colon (x ∷ a) b [] d h k e = absurd (h.0 (ground arith))
split_at_colon (x ∷ a) b (y ∷ c) d h k e =
    let same : x ≡ y = ground arith in
    let rest : a ++ b':' ∷ b ≡ c ++ b':' ∷ d = ground arith in
    let (p, q) = split_at_colon a b c d h.1 k.1 rest in (ground (arith, same, p), q)

pub path_key-injective :
    (r s p q : Text) → NoColon r → NoColon s → path_key r p ≡ path_key s q → (r ≡ s) × (p ≡ q)
unfolding path_key
path_key-injective r s p q h k e = split_at_colon r p s q h k e

pub lock_key-injective :
    (r s i j : Text) → NoColon r → NoColon s → lock_key r i ≡ lock_key s j → (r ≡ s) × (i ≡ j)
unfolding lock_key
lock_key-injective r s i j h k e = split_at_colon r i s j h k e

-- The test by the joined key is the test by both parts.
pub path_key_same :
    (r s p q : Text) → NoColon r → NoColon s → (path_key r p == path_key s q) ≡ (r == s && p == q)
path_key_same r s p q h k = ground (
  arith,
  list_same_iff (path_key r p) (path_key s q),
  list_same_iff r s,
  list_same_iff p q,
  path_key-injective r s p q h k,
)

pub path_key_shift : (r x p : Text) → path_key (r ++ b':' ∷ x) p ≡ path_key r (x ++ b':' ∷ p)
unfolding path_key
path_key_shift r x p = rw append_assoc

lock_key_shift : (r x i : Text) → lock_key (r ++ b':' ∷ x) i ≡ lock_key r (x ++ b':' ∷ i)
unfolding lock_key
lock_key_shift r x i = rw append_assoc

created-get :
    (db : MemoryLockDatabase) (repo path pubkey id : Text) (now : ℕ) (lock : LockRecord)
    → (create_lock db repo path pubkey id now).1 ≡ ok lock
    → (get (create_lock db repo path pubkey id now).0.locks (lock_key repo id) ≡ some lock)
      × (lock.pubkey ≡ pubkey)
unfolding create_lock
created-get db repo path pubkey id now lock h =
    let pk = path_key repo path in
    elim (Option-cases (find (λ l. path_key l.repo_id l.path == pk) (values db.locks))) [
      | inr (existing, e) ↦ cc (rw (e, create_lock) at h)
      | inl e ↦
          let made : LockRecord = record {
            id = id;
            repo_id = repo;
            path = path;
            pubkey = pubkey;
            locked_at = now;
          } in
          let same : made ≡ lock =
            ap (λ r. elim r [ ok l ↦ l | err x ↦ made ]) (rw (e, create_lock) at h) in
          (
            rw (e, create_lock)
                (get-insert_self db.locks (lock_key repo id) made ∙ ap (λ l. some l) same),
            ap (λ l. l.pubkey) (sym same),
          )
    ]

unlocked :
    (db : MemoryLockDatabase) (key requester : Text) (force : Bool) (lock : LockRecord)
    → get db.locks key ≡ some lock
    → (force || lock.pubkey == requester) ≡ true
    → unlock db key force requester ≡ (record { locks = remove db.locks key }, ok lock)
unfolding unlock
unlocked db key requester force lock e h = ground (arith, e, h)

get-removed : (m : HashMap Text LockRecord) (k : Text) → get (remove m k) k ≡ none
get-removed m k = rw (get-remove, same_refl)

-- A lock that create_lock makes in the repository `r:x` is one that get_lock finds, and delete_lock gives
-- up, for a caller of the repository `r` who owns it or forces: then the repository `r:x`, which the
-- calls do not name, has the lock no more.
pub delete_lock-across :
    (db : MemoryLockDatabase) (r x path pubkey id requester : Text) (now : ℕ) (force : Bool)
    (lock : LockRecord)
    → (create_lock db (r ++ b':' ∷ x) path pubkey id now).1 ≡ ok lock
    → (force || pubkey == requester) ≡ true
    → let t = (create_lock db (r ++ b':' ∷ x) path pubkey id now).0 in
      let (after, answer) = delete_lock t r (x ++ b':' ∷ id) force requester in
      (get_lock t r (x ++ b':' ∷ id) ≡ ok lock)
      × (answer ≡ ok lock)
      × (get_lock after (r ++ b':' ∷ x) id ≡ err not_found)
unfolding delete_lock get_lock
delete_lock-across db r x path pubkey id requester now force lock made may =
    let t = (create_lock db (r ++ b':' ∷ x) path pubkey id now).0 in
    let key = lock_key (r ++ b':' ∷ x) id in
    let (found, owner) = created-get db (r ++ b':' ∷ x) path pubkey id now lock made in
    let gone = unlocked t key requester force lock found (rw owner may) in
    rw (← lock_key_shift r x id) (
      ap (λ o. ok_or o not_found) found,
      ap (λ u. u.1) gone,
      ap (λ u. ok_or (get u.0.locks key) not_found) gone
          ∙ ap (λ o. ok_or o not_found) (get-removed t.locks key),
    )
