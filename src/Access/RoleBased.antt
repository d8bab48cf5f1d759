-- ===== src/Access/RoleBased.antt =====
-- src/access/mod.rs: RoleBasedAccess, alone and with the database.
use blossom_rs.Prelude.{
  Bool, Text, list_key, nat_key, some, List, [], map, ◌==◌, if◌then◌else◌, bytes_of,
}
use blossom_rs.HashMap.{remove}
use blossom_rs.Db.{UserRecord, MemoryDatabase, Result, ok, err, list_users_by_role, set_role}
use blossom_rs.Access.{
  Action, Role, set_of, add_to, Codecs, normalized, RoleBasedAccess, role_of, is_allowed_of,
}

abbrev unwrap_or_default : Result (List UserRecord) → List UserRecord
unwrap_or_default (err e) = []
unwrap_or_default (ok us) = us

-- With neither lock held.
unfoldable pub role : RoleBasedAccess → Text → Role
unfolding role_of
role acc pubkey = role_of (some acc.admins) (some acc.members) pubkey

unfoldable pub is_allowed : RoleBasedAccess → Text → Action → Bool
unfolding is_allowed_of
is_allowed acc pubkey action = is_allowed_of (some acc.admins) (some acc.members) pubkey action

unfoldable pub load_from_database : MemoryDatabase → RoleBasedAccess
unfolding list_users_by_role
load_from_database db = record {
  admins =
      set_of (map (λ u. u.pubkey) (unwrap_or_default (list_users_by_role db (bytes_of "admin"))));
  members =
      set_of (map (λ u. u.pubkey) (unwrap_or_default (list_users_by_role db (bytes_of "member"))));
}

module _ (codecs : Codecs) where
  unfoldable pub add_admin : RoleBasedAccess → Text → RoleBasedAccess
  add_admin acc pubkey = record acc { admins = add_to acc.admins (normalized codecs pubkey) }

  unfoldable pub add_member : RoleBasedAccess → Text → RoleBasedAccess
  add_member acc pubkey = record acc { members = add_to acc.members (normalized codecs pubkey) }

  unfoldable pub discard : RoleBasedAccess → Text → RoleBasedAccess
  discard acc pubkey = record {
    admins = remove acc.admins (normalized codecs pubkey);
    members = remove acc.members (normalized codecs pubkey);
  }

  -- The error of the database is passed on before the sets change.
  unfoldable pub promote_admin :
      RoleBasedAccess → MemoryDatabase → Text → RoleBasedAccess × MemoryDatabase × Result (Unit {0})
  promote_admin acc db pubkey =
      let key = normalized codecs pubkey in
      let (db', r) = set_role db key (bytes_of "admin") in
      elim r [
        | err e ↦ (acc, db', err e)
        | ok u ↦
            (record { admins = add_to acc.admins key; members = remove acc.members key }, db', ok u)
      ]

  unfoldable pub demote_to_member :
      RoleBasedAccess → MemoryDatabase → Text → RoleBasedAccess × MemoryDatabase × Result (Unit {0})
  demote_to_member acc db pubkey =
      let key = normalized codecs pubkey in
      let (db', r) = set_role db key (bytes_of "member") in
      elim r [
        | err e ↦ (acc, db', err e)
        | ok u ↦
            (record { admins = remove acc.admins key; members = add_to acc.members key }, db', ok u)
      ]

  -- `RoleBasedAccess::set_role`.
  unfoldable pub assign_role :
      RoleBasedAccess
      → MemoryDatabase
      → Text
      → Text
      → RoleBasedAccess × MemoryDatabase × Result (Unit {0})
  assign_role acc db pubkey r =
      let key = normalized codecs pubkey in
      let admins = remove acc.admins key in
      let members = remove acc.members key in
      let (db', result) = set_role db key r in
      elim result [
        | err e ↦ (acc, db', err e)
        | ok u ↦ (
          record {
            admins = if r == (bytes_of "admin") then add_to admins key else admins;
            members =
                if r == (bytes_of "admin")
                then members
                else (if r == (bytes_of "member") then add_to members key else members);
          },
          db',
          ok u,
        )
      ]
