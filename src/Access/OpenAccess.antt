-- ===== src/Access/OpenAccess.antt =====
-- src/access/mod.rs: OpenAccess.
use blossom_rs.Prelude.{Bool, true, Text, list_key, nat_key}
use blossom_rs.Access.{Action, Role, member}

unfoldable pub is_allowed : Text → Action → Bool
is_allowed pubkey action = true

unfoldable pub role : Text → Role
role pubkey = member
