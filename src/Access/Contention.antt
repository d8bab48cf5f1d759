-- ===== src/Access/Contention.antt =====
-- Access control while its tables are being written, and the role that a permission implies.
use blossom_rs.Prelude.{
  ◌≡◌, refl, Bool, true, false, Text, list_key, nat_key, Option, none, some, arith,
}
use blossom_rs.HashMap.{contains_key}
use blossom_rs.Access.{
  Action, upload, download, delete, list, mirror, admin_action, lock, admin, member, HashSet,
  default_role, RoleBasedAccess, role_of, is_allowed_of,
}
use blossom_rs.Access.Whitelist
use blossom_rs.Access.OpenAccess
use blossom_rs.Access.RoleBased

-- What one `try_read` may give of a set.
abbrev pub try_read : Bool → HashSet → Option HashSet
try_read true keys = none
try_read false keys = some keys

-- A lock that is held takes rights away and grants none: what is allowed then is allowed also with
-- the locks free, by the roles.
is_allowed_free :
    (acc : RoleBasedAccess) (a_held m_held : Bool) (pubkey : Text) (action : Action)
    → is_allowed_of (try_read a_held acc.admins) (try_read m_held acc.members) pubkey action ≡ true
    → RoleBased.is_allowed acc pubkey action ≡ true
unfolding is_allowed_of role_of RoleBased.is_allowed
is_allowed_free acc false false pubkey action h = h
is_allowed_free acc false true pubkey action h = ground (arith, h)
is_allowed_free acc true true pubkey action h = ground (arith, h)
is_allowed_free acc true false pubkey upload h = ground (arith, h)
is_allowed_free acc true false pubkey download h = ground (arith, h)
is_allowed_free acc true false pubkey delete h = ground (arith, h)
is_allowed_free acc true false pubkey list h = ground (arith, h)
is_allowed_free acc true false pubkey mirror h = ground (arith, h)
is_allowed_free acc true false pubkey lock h = ground (arith, h)
is_allowed_free acc true false pubkey admin_action h = ground (arith, h)

-- With roles, the explicit role is the one that the permissions imply. With a whitelist or open
-- access it is not: whom they allow at all they allow the admin action, and the role says member.
pub default_role-role :
    (acc : RoleBasedAccess) (keys : HashSet) (pubkey : Text)
    → (default_role (RoleBased.is_allowed acc) pubkey ≡ RoleBased.role acc pubkey)
      × (contains_key keys pubkey ≡ true
          → (default_role (Whitelist.is_allowed (some keys)) pubkey ≡ admin)
            × (Whitelist.role (some keys) pubkey ≡ member))
      × (default_role OpenAccess.is_allowed pubkey ≡ admin)
      × (OpenAccess.role pubkey ≡ member)
unfolding default_role RoleBased.is_allowed RoleBased.role is_allowed_of role_of
    Whitelist.is_allowed Whitelist.role OpenAccess.is_allowed OpenAccess.role
default_role-role acc keys pubkey =
    (ground arith, λ h. (ground (arith, h), ground (arith, h)), refl, refl)
