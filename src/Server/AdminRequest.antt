-- ===== src/Server/AdminRequest.antt =====
-- src/server/admin.rs: what the routes of the administration ask for, and what the event of such a
-- request is for.
use blossom_rs.Prelude.{ℕ, Option, none, some, ◌++◌, Text, bytes_of}

-- The routes of `admin_router`, with what the requests carry.
pub data AdminRequest : Type 0 where
  get_admin_stats : AdminRequest
  list_users : AdminRequest
  get_user : Text → AdminRequest
  put_quota : Text → Option ℕ → AdminRequest
  put_role : Text → Text → AdminRequest
  list_roles : AdminRequest
  get_lfs_stats : AdminRequest
  list_blobs : AdminRequest
  remove_blob : Text → AdminRequest
  list_whitelist : AdminRequest
  put_whitelist : Text → AdminRequest
  delete_whitelist : Text → AdminRequest

-- The path, the method and the hash that the event of a request is for.
abbrev pub path_of : AdminRequest → Text
path_of get_admin_stats = bytes_of "/admin/stats"
path_of list_users = bytes_of "/admin/users"
path_of (get_user pubkey) = bytes_of "/admin/users/" ++ pubkey
path_of (put_quota pubkey quota_bytes) = bytes_of "/admin/users/" ++ pubkey ++ bytes_of "/quota"
path_of (put_role pubkey r) = bytes_of "/admin/users/" ++ pubkey ++ bytes_of "/role"
path_of list_roles = bytes_of "/admin/roles"
path_of get_lfs_stats = bytes_of "/admin/lfs-stats"
path_of list_blobs = bytes_of "/admin/blobs"
path_of (remove_blob sha256) = bytes_of "/admin/blobs/" ++ sha256
path_of list_whitelist = bytes_of "/admin/whitelist"
path_of (put_whitelist pubkey) = bytes_of "/admin/whitelist/" ++ pubkey
path_of (delete_whitelist pubkey) = bytes_of "/admin/whitelist/" ++ pubkey

abbrev pub method_of : AdminRequest → Text
method_of get_admin_stats = bytes_of "GET"
method_of list_users = bytes_of "GET"
method_of (get_user pubkey) = bytes_of "GET"
method_of (put_quota pubkey quota_bytes) = bytes_of "PUT"
method_of (put_role pubkey r) = bytes_of "PUT"
method_of list_roles = bytes_of "GET"
method_of get_lfs_stats = bytes_of "GET"
method_of list_blobs = bytes_of "GET"
method_of (remove_blob sha256) = bytes_of "DELETE"
method_of list_whitelist = bytes_of "GET"
method_of (put_whitelist pubkey) = bytes_of "PUT"
method_of (delete_whitelist pubkey) = bytes_of "DELETE"

abbrev pub hash_of : AdminRequest → Option Text
hash_of get_admin_stats = none
hash_of list_users = none
hash_of (get_user pubkey) = none
hash_of (put_quota pubkey quota_bytes) = none
hash_of (put_role pubkey r) = none
hash_of list_roles = none
hash_of get_lfs_stats = none
hash_of list_blobs = none
hash_of (remove_blob sha256) = some sha256
hash_of list_whitelist = none
hash_of (put_whitelist pubkey) = none
hash_of (delete_whitelist pubkey) = none
