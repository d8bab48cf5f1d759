-- ===== src/Server/Admin.antt =====
-- src/server/admin.rs: the requests of an administrator, one at a time. The share of bytes that the
-- versions save, in floating point, is left out of the answer of `/admin/lfs-stats`.
pub mod Guarded
use blossom_rs.Prelude.{
  ℕ, ◌+◌, Bool, true, false, Option, none, some, List, [], ◌∷◌, ◌++◌, ◌==◌, nat_key, list_key, map,
  not, ltb, ◌&&◌, ◌||◌, length, if◌then◌else◌, Text, bytes_of,
}
use blossom_rs.Access.{Action, admin_action, HashSet, Codecs, normalize_pubkey, RoleBasedAccess}
use blossom_rs.Access.RoleBased
use blossom_rs.Access.Whitelist
use blossom_rs.Auth.{NostrEvent, AuthResult, accepted, rejected, Crypto}
use blossom_rs.Auth.Single.{verify_auth_event}
use blossom_rs.Db.{
  MemoryDatabase, Result, UserRecord, get_or_create_user, set_quota, set_role, list_users_by_role,
  upload_count, user_count,
}
use blossom_rs.HashMap.{HashMap}
use blossom_rs.Lfs.{MemoryLfsVersionDatabase}
use blossom_rs.Lfs.Stats.{LfsStorageStats, lfs_stats}
use blossom_rs.ReplayCache.{ReplayCache}
use blossom_rs.Server.{State, blob_count, total_bytes}
use blossom_rs.Server.AdminRequest.{
  AdminRequest, get_admin_stats, list_users, get_user, put_quota, put_role, list_roles,
  get_lfs_stats, list_blobs, remove_blob, list_whitelist, put_whitelist, delete_whitelist, path_of,
  method_of, hash_of,
}
use blossom_rs.Server.Nip96.{delete_plain}
use blossom_rs.Server.Read.{is_valid_sha256}
use blossom_rs.Server.Store.{
  StatusCode, status_ok, bad_request, unauthorized, forbidden, not_found, internal_server_error,
}
use blossom_rs.Server.Upload.{AuthHeader, absent, malformed, event_of, Checked, pass, refuse}
use blossom_rs.Stats.{StatsAccumulator, tracked_count}

-- The parts of `ServerState` that these requests read and change, with the process's replay cache.
pub record AdminState : Type 0 where
  pub stored : State
  pub role_based_access : Option RoleBasedAccess
  pub whitelist : Option HashSet
  pub stats : StatsAccumulator
  pub seen : ReplayCache

pub data AdminResponse : Type 0 where
  refused : StatusCode → AdminResponse
  counts : ℕ → ℕ → ℕ → ℕ → ℕ → AdminResponse
  lfs : LfsStorageStats → AdminResponse
  users : ℕ → AdminResponse
  user : UserRecord → AdminResponse
  quota : Text → Option ℕ → AdminResponse
  blobs : ℕ → ℕ → AdminResponse
  deleted : AdminResponse
  role_set : Text → Text → AdminResponse
  roles : List Text → List Text → List Text → AdminResponse
  keys : ℕ → List Text → AdminResponse
  added : Text → AdminResponse
  removed : Text → AdminResponse

abbrev to_ascii_lowercase : Text → Text
to_ascii_lowercase t = map (λ c. if ltb 64 c && ltb c 91 then c + 32 else c) t

abbrev pub is_role : Text → Bool
is_role r = r == bytes_of "admin" || r == bytes_of "member" || r == bytes_of "denied"

abbrev keys_of : Result (List UserRecord) → List Text
keys_of (Result.err e) = []
keys_of (Result.ok records) = map (λ u. u.pubkey) records

-- What the handlers do, once the request is an administrator's.
abbrev pub admin_stats_body : AdminState → AdminState × AdminResponse
admin_stats_body s = (
  s,
  counts (blob_count s.stored.backend) (total_bytes s.stored.backend)
      (upload_count s.stored.database) (user_count s.stored.database) (tracked_count s.stats),
)

abbrev lfs_of : Option MemoryLfsVersionDatabase → AdminResponse
lfs_of none = refused not_found
lfs_of (some db) = lfs (lfs_stats db)

abbrev pub lfs_stats_body : AdminState → AdminState × AdminResponse
lfs_stats_body s = (s, lfs_of s.stored.lfs_version_db)

abbrev pub list_users_body : AdminState → AdminState × AdminResponse
list_users_body s = (s, users (user_count s.stored.database))

abbrev with_database : AdminState → MemoryDatabase → AdminState
with_database s db = record s { stored = record s.stored { database = db } }

abbrev user_found : AdminState → MemoryDatabase × Result UserRecord → AdminState × AdminResponse
user_found s (db, Result.err e) = (with_database s db, refused internal_server_error)
user_found s (db, Result.ok found) = (with_database s db, user found)

abbrev pub get_user_body : AdminState → Text → AdminState × AdminResponse
get_user_body s pubkey = user_found s (get_or_create_user s.stored.database pubkey)

abbrev database_set :
    AdminState → AdminResponse → MemoryDatabase × Result (Unit {0}) → AdminState × AdminResponse
database_set s answer (db, Result.err e) = (with_database s db, refused internal_server_error)
database_set s answer (db, Result.ok u) = (with_database s db, answer)

abbrev pub set_quota_body : AdminState → Text → Option ℕ → AdminState × AdminResponse
set_quota_body s pubkey quota_bytes =
    database_set s (quota pubkey quota_bytes) (set_quota s.stored.database pubkey quota_bytes)

abbrev pub list_all_blobs_body : AdminState → AdminState × AdminResponse
list_all_blobs_body s = (s, blobs (blob_count s.stored.backend) (total_bytes s.stored.backend))

abbrev deletion_of : StatusCode → AdminResponse
deletion_of code = elim code [ status_ok ↦ deleted | other ↦ refused other ]

abbrev pub admin_delete_blob_body : AdminState → Text → AdminState × AdminResponse
unfolding delete_plain
admin_delete_blob_body s sha256 =
    let (stored, code) = delete_plain s.stored sha256 in
    (record s { stored = stored }, deletion_of code)

abbrev pub list_roles_body : AdminState → AdminState × AdminResponse
unfolding list_users_by_role
list_roles_body s =
    let of_role : Text → List Text = λ r. keys_of (list_users_by_role s.stored.database r) in
    (
      s,
      roles (of_role (bytes_of "admin")) (of_role (bytes_of "member"))
          (of_role (bytes_of "denied")),
    )

abbrev whitelist_keys : Option HashSet → AdminResponse
whitelist_keys none = refused not_found
whitelist_keys (some keys_set) = keys (length keys_set) (map (λ e. e.0) keys_set)

abbrev pub whitelist_list_body : AdminState → AdminState × AdminResponse
whitelist_list_body s = (s, whitelist_keys s.whitelist)

module _ (codecs : Codecs) where
  abbrev normalized_or : Text → Text
  normalized_or pubkey = elim (normalize_pubkey codecs pubkey) [ none ↦ pubkey | some k ↦ k ]

  abbrev live_set :
      AdminState
      → AdminResponse
      → RoleBasedAccess × MemoryDatabase × Result (Unit {0})
      → AdminState × AdminResponse
  live_set s answer (acc, db, Result.err e) =
      (record (with_database s db) { role_based_access = some acc }, refused internal_server_error)
  live_set s answer (acc, db, Result.ok u) =
      (record (with_database s db) { role_based_access = some acc }, answer)

  abbrev role_update :
      AdminState → Option RoleBasedAccess → Text → Text → AdminState × AdminResponse
  role_update s none key r = database_set s (role_set key r) (set_role s.stored.database key r)
  role_update s (some acc) key r =
      live_set s (role_set key r) (RoleBased.assign_role codecs acc s.stored.database key r)

  abbrev pub set_role_body : AdminState → Text → Text → AdminState × AdminResponse
  set_role_body s pubkey body_role =
      let key = normalized_or pubkey in
      let r = to_ascii_lowercase body_role in
      if is_role r then role_update s s.role_based_access key r else (s, refused bad_request)

  abbrev listing_set :
      AdminState → Option HashSet → (HashSet → HashSet) → AdminResponse → AdminState × AdminResponse
  listing_set s none change answer = (s, refused not_found)
  listing_set s (some listed) change answer =
      (record s { whitelist = some (change listed) }, answer)

  abbrev pub whitelist_add_body : AdminState → Text → AdminState × AdminResponse
  whitelist_add_body s pubkey =
      listing_set s s.whitelist (λ listed. Whitelist.add codecs listed pubkey) (added pubkey)

  abbrev pub whitelist_remove_body : AdminState → Text → AdminState × AdminResponse
  whitelist_remove_body s pubkey =
      listing_set s s.whitelist (λ listed. Whitelist.discard codecs listed pubkey) (removed pubkey)

  -- What each route does for an administrator.
  abbrev pub handle : AdminRequest → AdminState → AdminState × AdminResponse
  handle get_admin_stats s = admin_stats_body s
  handle list_users s = list_users_body s
  handle (get_user pubkey) s = get_user_body s pubkey
  handle (put_quota pubkey quota_bytes) s = set_quota_body s pubkey quota_bytes
  handle (put_role pubkey r) s = set_role_body s pubkey r
  handle list_roles s = list_roles_body s
  handle get_lfs_stats s = lfs_stats_body s
  handle list_blobs s = list_all_blobs_body s
  handle (remove_blob sha256) s = admin_delete_blob_body s sha256
  handle list_whitelist s = whitelist_list_body s
  handle (put_whitelist pubkey) s = whitelist_add_body s pubkey
  handle (delete_whitelist pubkey) s = whitelist_remove_body s pubkey

  -- `is_allowed` is the access control's, which may share the roles and the whitelist.
  module _ (crypto : Crypto) (base_url : Text)
      (is_allowed : Option RoleBasedAccess → Option HashSet → Text → Action → Bool) where
    abbrev pub admin_key :
        AdminState → NostrEvent → ReplayCache × AuthResult → AdminState × Checked Text
    admin_key s event (seen, rejected e) = (record s { seen = seen }, refuse unauthorized)
    admin_key s event (seen, accepted) = (
      record s { seen = seen },
      if is_allowed s.role_based_access s.whitelist event.pubkey admin_action
          then pass event.pubkey
          else refuse forbidden,
    )

    unfoldable pub extract_admin_pubkey :
        AdminState → AuthHeader → Text → Text → Option Text → ℕ → AdminState × Checked Text
    unfolding verify_auth_event
    extract_admin_pubkey s absent path method expected_hash now = (s, refuse unauthorized)
    extract_admin_pubkey s malformed path method expected_hash now = (s, refuse unauthorized)
    extract_admin_pubkey s (event_of event) path method expected_hash now = admin_key s event (
        verify_auth_event crypto s.seen event (bytes_of "admin") base_url path method expected_hash
          now)

    -- Every handler begins with `extract_admin_pubkey`, and returns what it refuses.
    abbrev pub for_admin :
        (AdminState → AdminState × AdminResponse)
        → AdminState × Checked Text
        → AdminState × AdminResponse
    for_admin body (s, refuse code) = (s, refused code)
    for_admin body (s, pass pubkey) = body s

    unfoldable pub handle_admin_stats : AdminState → AuthHeader → ℕ → AdminState × AdminResponse
    unfolding extract_admin_pubkey
    handle_admin_stats s auth now =
        for_admin (λ s. admin_stats_body s)
          (extract_admin_pubkey s auth (bytes_of "/admin/stats") (bytes_of "GET") none now)

    unfoldable pub handle_list_users : AdminState → AuthHeader → ℕ → AdminState × AdminResponse
    unfolding extract_admin_pubkey
    handle_list_users s auth now =
        for_admin (λ s. list_users_body s)
          (extract_admin_pubkey s auth (bytes_of "/admin/users") (bytes_of "GET") none now)

    unfoldable pub handle_get_user : AdminState → AuthHeader → Text → ℕ → AdminState × AdminResponse
    unfolding extract_admin_pubkey
    handle_get_user s auth pubkey now =
        for_admin (λ s. get_user_body s pubkey)
          (extract_admin_pubkey s auth (bytes_of "/admin/users/" ++ pubkey) (bytes_of "GET") none
            now)

    unfoldable pub handle_set_quota :
        AdminState → AuthHeader → Text → Option ℕ → ℕ → AdminState × AdminResponse
    unfolding extract_admin_pubkey
    handle_set_quota s auth pubkey quota_bytes now =
        for_admin (λ s. set_quota_body s pubkey quota_bytes)
          (extract_admin_pubkey s auth (bytes_of "/admin/users/" ++ pubkey ++ bytes_of "/quota")
            (bytes_of "PUT") none now)

    unfoldable pub handle_set_role :
        AdminState → AuthHeader → Text → Text → ℕ → AdminState × AdminResponse
    unfolding extract_admin_pubkey
    handle_set_role s auth pubkey r now =
        for_admin (λ s. set_role_body s pubkey r)
          (extract_admin_pubkey s auth (bytes_of "/admin/users/" ++ pubkey ++ bytes_of "/role")
            (bytes_of "PUT") none now)

    unfoldable pub handle_list_roles : AdminState → AuthHeader → ℕ → AdminState × AdminResponse
    unfolding extract_admin_pubkey
    handle_list_roles s auth now =
        for_admin (λ s. list_roles_body s)
          (extract_admin_pubkey s auth (bytes_of "/admin/roles") (bytes_of "GET") none now)

    unfoldable pub handle_lfs_stats : AdminState → AuthHeader → ℕ → AdminState × AdminResponse
    unfolding extract_admin_pubkey
    handle_lfs_stats s auth now =
        for_admin (λ s. lfs_stats_body s)
          (extract_admin_pubkey s auth (bytes_of "/admin/lfs-stats") (bytes_of "GET") none now)

    unfoldable pub handle_list_all_blobs : AdminState → AuthHeader → ℕ → AdminState × AdminResponse
    unfolding extract_admin_pubkey
    handle_list_all_blobs s auth now =
        for_admin (λ s. list_all_blobs_body s)
          (extract_admin_pubkey s auth (bytes_of "/admin/blobs") (bytes_of "GET") none now)

    unfoldable pub handle_admin_delete_blob :
        AdminState → AuthHeader → Text → ℕ → AdminState × AdminResponse
    unfolding extract_admin_pubkey is_valid_sha256
    handle_admin_delete_blob s auth sha256 now =
        if is_valid_sha256 sha256
        then for_admin (λ s. admin_delete_blob_body s sha256)
            (extract_admin_pubkey s auth (bytes_of "/admin/blobs/" ++ sha256) (bytes_of "DELETE")
              (some sha256) now)
        else (s, refused bad_request)

    unfoldable pub handle_whitelist_list : AdminState → AuthHeader → ℕ → AdminState × AdminResponse
    unfolding extract_admin_pubkey
    handle_whitelist_list s auth now =
        for_admin (λ s. whitelist_list_body s)
          (extract_admin_pubkey s auth (bytes_of "/admin/whitelist") (bytes_of "GET") none now)

    unfoldable pub handle_whitelist_add :
        AdminState → AuthHeader → Text → ℕ → AdminState × AdminResponse
    unfolding extract_admin_pubkey
    handle_whitelist_add s auth pubkey now =
        for_admin (λ s. whitelist_add_body s pubkey)
          (extract_admin_pubkey s auth (bytes_of "/admin/whitelist/" ++ pubkey) (bytes_of "PUT")
            none now)

    unfoldable pub handle_whitelist_remove :
        AdminState → AuthHeader → Text → ℕ → AdminState × AdminResponse
    unfolding extract_admin_pubkey
    handle_whitelist_remove s auth pubkey now =
        for_admin (λ s. whitelist_remove_body s pubkey)
          (extract_admin_pubkey s auth (bytes_of "/admin/whitelist/" ++ pubkey) (bytes_of "DELETE")
            none now)

    -- `admin_router`: a request, by its route.
    unfoldable pub handle_admin :
        AdminState → AuthHeader → AdminRequest → ℕ → AdminState × AdminResponse
    unfolding handle_admin_stats handle_list_users handle_get_user handle_set_quota handle_set_role
        handle_list_roles handle_lfs_stats handle_list_all_blobs handle_admin_delete_blob
        handle_whitelist_list handle_whitelist_add handle_whitelist_remove
    handle_admin s auth get_admin_stats now = handle_admin_stats s auth now
    handle_admin s auth list_users now = handle_list_users s auth now
    handle_admin s auth (get_user pubkey) now = handle_get_user s auth pubkey now
    handle_admin s auth (put_quota pubkey quota_bytes) now =
        handle_set_quota s auth pubkey quota_bytes now
    handle_admin s auth (put_role pubkey r) now = handle_set_role s auth pubkey r now
    handle_admin s auth list_roles now = handle_list_roles s auth now
    handle_admin s auth get_lfs_stats now = handle_lfs_stats s auth now
    handle_admin s auth list_blobs now = handle_list_all_blobs s auth now
    handle_admin s auth (remove_blob sha256) now = handle_admin_delete_blob s auth sha256 now
    handle_admin s auth list_whitelist now = handle_whitelist_list s auth now
    handle_admin s auth (put_whitelist pubkey) now = handle_whitelist_add s auth pubkey now
    handle_admin s auth (delete_whitelist pubkey) now = handle_whitelist_remove s auth pubkey now
