-- ===== src/Access/Roles.antt =====
-- The roles in memory against those of the database.
use blossom_rs.Prelude.{
  ◌≡◌, refl, Bool, false, Text, list_key, nat_key, Option, none, some, List, [], ◌∷◌, map, arith,
  ◌==◌, list_same_iff, if◌then◌else◌, keep, bytes_of,
}
use blossom_rs.HashMap.{
  HashMap, get, remove, values, contains_key, contains_key-get, contains_key-insert,
  contains_key-remove, get-insert, IsMap, Each,
}
use blossom_rs.Db.{UserRecord, MemoryDatabase, list_users_by_role, set_role, user_or_new}
use blossom_rs.Access.{
  Codecs, Role, admin, member, denied, set_of, normalized, RoleBasedAccess, role_of,
}
use blossom_rs.Access.RoleBased

-- The role that a user's record says.
abbrev pub stored_role : Option UserRecord → Role
stored_role none = denied
stored_role (some u) =
    if u.role == (bytes_of "admin")
    then admin
    else (if u.role == (bytes_of "member") then member else denied)

abbrev pub Synced : RoleBasedAccess → MemoryDatabase → Type 0
Synced acc db = (p : Text) → RoleBased.role acc p ≡ stored_role (get db.users p)

abbrev has_role : Text → Option UserRecord → Bool
has_role r none = false
has_role r (some u) = u.role == r

abbrev pub KeyedUser : Text → UserRecord → Type 0
KeyedUser k u = k ≡ u.pubkey

set_of-has_role :
    (m : HashMap Text UserRecord) (r p : Text)
    → IsMap m
    → Each KeyedUser m
    → contains_key (set_of (map (λ u. u.pubkey) (keep (λ u. u.role == r) (values m)))) p
      ≡ has_role r (get m p)
unfolding get
set_of-has_role [] r p u k = unfold contains_key in refl
set_of-has_role ((j, x) ∷ m) r p u k =
    let rest = set_of (map (λ u. u.pubkey) (keep (λ u. u.role == r) (values m))) in
    ground (
      arith,
      u.0,
      k.0,
      list_same_iff j p,
      list_same_iff x.pubkey p,
      contains_key-get m p,
      contains_key-insert rest x.pubkey p tt,
      set_of-has_role m r p u.1 k.1,
    )

-- A change of a role: `promote_admin`, `demote_to_member` and `set_role`.
pub data Change : Type 0 where
  promotes : Text → Change
  demotes : Text → Change
  assigns : Text → Text → Change

module _ (codecs : Codecs) where
  unfoldable pub changed :
      RoleBasedAccess × MemoryDatabase → Change → RoleBasedAccess × MemoryDatabase
  changed (acc, db) (promotes p) =
      let (acc', db', _) = RoleBased.promote_admin codecs acc db p in (acc', db')
  changed (acc, db) (demotes p) =
      let (acc', db', _) = RoleBased.demote_to_member codecs acc db p in (acc', db')
  changed (acc, db) (assigns p r) =
      let (acc', db', _) = RoleBased.assign_role codecs acc db p r in (acc', db')

  unfoldable pub changes :
      RoleBasedAccess × MemoryDatabase → List Change → RoleBasedAccess × MemoryDatabase
  unfolding changed
  changes s [] = s
  changes s (c ∷ cs) = changes (changed s c) cs

  changed-Synced :
      (acc : RoleBasedAccess) (db : MemoryDatabase) (c : Change)
      → Synced acc db
      → Synced (changed (acc, db) c).0 (changed (acc, db) c).1
  unfolding changed RoleBased.promote_admin RoleBased.demote_to_member RoleBased.assign_role
      set_role RoleBased.role role_of
  changed-Synced acc db (promotes key) h p =
      let k = normalized codecs key in
      ground (
        arith,
        h p,
        list_same_iff k p,
        contains_key-insert acc.admins k p tt,
        contains_key-remove acc.members k p,
        get-insert db.users k p (record (user_or_new db.users k) { role = (bytes_of "admin") }),
      )
  changed-Synced acc db (demotes key) h p =
      let k = normalized codecs key in
      ground (
        arith,
        h p,
        list_same_iff k p,
        contains_key-insert acc.members k p tt,
        contains_key-remove acc.admins k p,
        get-insert db.users k p (record (user_or_new db.users k) { role = (bytes_of "member") }),
      )
  changed-Synced acc db (assigns key r) h p =
      let k = normalized codecs key in
      ground (
        arith,
        h p,
        list_same_iff k p,
        contains_key-insert (remove acc.members k) k p tt,
        contains_key-insert (remove acc.admins k) k p tt,
        contains_key-remove acc.admins k p,
        contains_key-remove acc.members k p,
        get-insert db.users k p (record (user_or_new db.users k) { role = r }),
      )

  load_from_database-Synced :
      (db : MemoryDatabase)
      → IsMap db.users
      → Each KeyedUser db.users
      → Synced (RoleBased.load_from_database db) db
  unfolding RoleBased.load_from_database list_users_by_role RoleBased.role role_of
  load_from_database-Synced db u k p = ground (
    arith,
    set_of-has_role db.users (bytes_of "admin") p u k,
    set_of-has_role db.users (bytes_of "member") p u k,
  )

  changes-kept :
      (acc : RoleBasedAccess) (db : MemoryDatabase) (cs : List Change)
      → Synced acc db
      → Synced (changes (acc, db) cs).0 (changes (acc, db) cs).1
  unfolding changes
  changes-kept acc db [] h = h
  changes-kept acc db (c ∷ cs) h =
      changes-kept (changed (acc, db) c).0 (changed (acc, db) c).1 cs (changed-Synced acc db c h)

  -- Access control that starts from the roles of a database, whose users stand under their own keys,
  -- gives every key the role of its record, through any calls of promote_admin, demote_to_member and
  -- set_role, which change both; add_admin, add_member and remove change the roles in memory alone.
  pub changes-Synced :
      (db : MemoryDatabase) (cs : List Change)
      → IsMap db.users
      → Each KeyedUser db.users
      → let (acc', db') = changes (RoleBased.load_from_database db, db) cs in Synced acc' db'
  changes-Synced db cs u k =
      changes-kept (RoleBased.load_from_database db) db cs (load_from_database-Synced db u k)
