-- ===== src/Access/Whitelist.antt =====
-- src/access/mod.rs: Whitelist. `try_read` gives `none` where a writer holds the lock.
use blossom_rs.Prelude.{Bool, false, Text, list_key, nat_key, Option, none, some, if◌then◌else◌}
use blossom_rs.HashMap.{remove, contains_key}
use blossom_rs.Access.{Action, upload, Role, member, denied, HashSet, add_to, Codecs, normalized}

unfoldable pub is_allowed : Option HashSet → Text → Action → Bool
is_allowed none pubkey action = false
is_allowed (some keys) pubkey action = contains_key keys pubkey

unfoldable pub role : Option HashSet → Text → Role
unfolding is_allowed
role keys pubkey = if is_allowed keys pubkey upload then member else denied

module _ (codecs : Codecs) where
  unfoldable pub add : HashSet → Text → HashSet
  add keys pubkey = add_to keys (normalized codecs pubkey)

  unfoldable pub discard : HashSet → Text → HashSet
  discard keys pubkey = remove keys (normalized codecs pubkey)
