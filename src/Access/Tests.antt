-- ===== src/Access/Tests.antt =====
-- Access control on concrete input.
use blossom_rs.Prelude.{◌≡◌, refl, true, list_key, nat_key, none, some, List, [], ◌∷◌, ℕ, bytes_of}
use blossom_rs.HashMap.{contains_key}
use blossom_rs.Db.{MemoryDatabase, new_user, empty}
use blossom_rs.Access.{
  Codecs, Action, upload, download, delete, list, mirror, admin_action, lock, Role, admin, member,
  denied, HashSet, default_role, normalize_pubkey, RoleBasedAccess, is_allowed_of,
}
use blossom_rs.Access.Whitelist
use blossom_rs.Access.OpenAccess
use blossom_rs.Access.RoleBased
use blossom_rs.Access.Contention.{default_role-role}
use blossom_rs.Access.Roles.{Synced, promotes, demotes, assigns, changes, changes-Synced}

-- Every text decodes to one key.
abbrev zeros : List ℕ
zeros =
    0 ∷ 0 ∷ 0 ∷ 0 ∷ 0 ∷ 0 ∷ 0 ∷ 0 ∷ 0 ∷ 0 ∷ 0 ∷ 0 ∷ 0 ∷ 0 ∷ 0 ∷ 0 ∷ 0 ∷ 0 ∷ 0 ∷ 0 ∷ 0 ∷ 0 ∷ 0 ∷ 0
    ∷ 0 ∷ 0 ∷ 0 ∷ 0 ∷ 0 ∷ 0 ∷ 0 ∷ 0 ∷ []

abbrev codecs : Codecs
codecs = record { decode = λ s. some ((bytes_of "npub"), zeros); encode = λ b. (bytes_of "k") }

abbrev acc : RoleBasedAccess
acc = record { admins = ((bytes_of "ann"), tt) ∷ []; members = ((bytes_of "bob"), tt) ∷ [] }

default_role-role_example :
    (default_role (RoleBased.is_allowed acc) (bytes_of "bob") ≡ RoleBased.role acc (bytes_of "bob"))
    × (contains_key acc.members (bytes_of "bob") ≡ true
        → (default_role (Whitelist.is_allowed (some acc.members)) (bytes_of "bob") ≡ admin)
          × (Whitelist.role (some acc.members) (bytes_of "bob") ≡ member))
    × (default_role OpenAccess.is_allowed (bytes_of "bob") ≡ admin)
    × (OpenAccess.role (bytes_of "bob") ≡ member)
default_role-role_example = default_role-role acc acc.members (bytes_of "bob")

abbrev db : MemoryDatabase
db = record empty {
  users =
      ((bytes_of "ann"), record (new_user (bytes_of "ann")) { role = (bytes_of "admin") })
      ∷ ((bytes_of "bob"), new_user (bytes_of "bob"))
      ∷ [];
}

changes-Synced_example :
    let (acc', db') =
      changes codecs
        (RoleBased.load_from_database db, db)
        (promotes (bytes_of "bob")
          ∷ assigns (bytes_of "ann") (bytes_of "denied")
          ∷ demotes (bytes_of "cid")
          ∷ []) in
    Synced acc' db'
changes-Synced_example =
    changes-Synced codecs db
      (promotes (bytes_of "bob")
        ∷ assigns (bytes_of "ann") (bytes_of "denied")
        ∷ demotes (bytes_of "cid")
        ∷ [])
      (unfold contains_key in (refl, (refl, tt))) (refl, (refl, tt))

key_of_blanks : normalize_pubkey codecs (bytes_of "  npub1x\n") ≡ some (bytes_of "k")
unfolding normalize_pubkey blossom_rs.Access.starts_with blossom_rs.Access.trim
key_of_blanks = refl

short_key : normalize_pubkey codecs (bytes_of "abc") ≡ none
unfolding normalize_pubkey blossom_rs.Access.starts_with blossom_rs.Access.trim
short_key = refl
