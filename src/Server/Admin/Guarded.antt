-- ===== src/Server/Admin/Guarded.antt =====
-- Who may change what over the administration.
use blossom_rs.Prelude.{
  ℕ, ◌≡◌, ◌⊎◌, refl, Bool, true, Option, nat_key, list_key, Text, bytes_of, Bool-cases, inl, inr,
}
use blossom_rs.Access.{Action, admin_action, HashSet, Codecs, RoleBasedAccess}
use blossom_rs.Auth.{NostrEvent, AuthResult, accepted, rejected, Crypto}
use blossom_rs.Auth.Claims.{verify_auth_event_claims}
use blossom_rs.Auth.Single.{verify_auth_event, mark_after-accepted}
use blossom_rs.ReplayCache.{ReplayCache}
use blossom_rs.Server.Read.{is_valid_sha256}
use blossom_rs.Server.Upload.{AuthHeader, absent, malformed, event_of}
use blossom_rs.Server.AdminRequest.{
  AdminRequest, get_admin_stats, list_users, get_user, put_quota, put_role, list_roles,
  get_lfs_stats, list_blobs, remove_blob, list_whitelist, put_whitelist, delete_whitelist, path_of,
  method_of, hash_of,
}
use blossom_rs.Server.Admin.{
  AdminState, AdminResponse, handle, admin_key, extract_admin_pubkey, for_admin, handle_admin,
}

module _ (codecs : Codecs) (crypto : Crypto) (base_url : Text)
    (is_allowed : Option RoleBasedAccess → Option HashSet → Text → Action → Bool) where
  -- Nothing but the replay cache is another.
  abbrev pub SameBut : AdminState → AdminState → Type 0
  SameBut s t = (seen : ReplayCache) × (t ≡ record s { seen = seen })

  -- The request has an event whose claims hold for the action `admin` and for the path, the method and
  -- the hash of the request, of a key that is allowed to administer.
  abbrev pub IsAdmin : AdminState → AuthHeader → AdminRequest → ℕ → Type 0
  IsAdmin s auth req now =
      (event : NostrEvent) × (auth ≡ event_of event)
      × (verify_auth_event_claims crypto event (bytes_of "admin") base_url (path_of req)
            (method_of req) (hash_of req) now
          ≡ accepted)
      × (is_allowed s.role_based_access s.whitelist event.pubkey admin_action ≡ true)

  abbrev pub Handled :
      AdminState → AuthHeader → AdminRequest → ℕ → AdminState × AdminResponse → Type 0
  Handled s auth req now r =
      SameBut s r.0
      ⊎ (IsAdmin s auth req now
          × ((seen : ReplayCache) × (r ≡ handle codecs req (record s { seen = seen }))))

  admin_key-Handled :
      (s : AdminState) (event : NostrEvent) (req : AdminRequest) (now : ℕ)
      (v : ReplayCache × AuthResult)
      → (v.1 ≡ accepted
          → verify_auth_event_claims crypto event
              (bytes_of "admin")
              base_url
              (path_of req)
              (method_of req)
              (hash_of req)
              now
            ≡ accepted)
      → Handled s (event_of event) req now (
          for_admin codecs crypto base_url is_allowed
            (handle codecs req)
            (admin_key codecs crypto base_url is_allowed s event v))
  admin_key-Handled s event req now (seen, rejected e) h = inl (seen, refl)
  admin_key-Handled s event req now (seen, accepted) h =
      elim (Bool-cases (is_allowed s.role_based_access s.whitelist event.pubkey admin_action)) [
        | inl may ↦ rw may (inr ((event, refl, h refl, may), (seen, refl)))
        | inr not_allowed ↦ rw not_allowed (inl (seen, refl))
      ]

  extract-Handled :
      (s : AdminState) (auth : AuthHeader) (req : AdminRequest) (now : ℕ)
      → Handled s auth req now (
          for_admin codecs crypto base_url is_allowed (handle codecs req) (
            extract_admin_pubkey codecs crypto base_url is_allowed s auth
              (path_of req)
              (method_of req)
              (hash_of req)
              now))
  unfolding extract_admin_pubkey verify_auth_event
  extract-Handled s absent req now = inl (s.seen, refl)
  extract-Handled s malformed req now = inl (s.seen, refl)
  extract-Handled s (event_of event) req now =
      let claims =
        verify_auth_event_claims crypto event (bytes_of "admin") base_url (path_of req)
          (method_of req) (hash_of req) now in
      admin_key-Handled s event req now
        (verify_auth_event crypto s.seen event (bytes_of "admin") base_url (path_of req)
          (method_of req) (hash_of req) now)
        (λ k. (mark_after-accepted crypto claims s.seen event now k).0)

  -- A request of the administration, whichever it is, changes nothing but the replay cache, unless it has
  -- an event whose claims hold for the action, the path, the method and the hash of the request, of a key
  -- that is allowed to administer; then it does what its handler does.
  pub handle_admin-guarded :
      (s : AdminState) (auth : AuthHeader) (req : AdminRequest) (now : ℕ)
      → Handled s auth req now (handle_admin codecs crypto base_url is_allowed s auth req now)
  unfolding handle_admin
  handle_admin-guarded s auth get_admin_stats now = extract-Handled s auth get_admin_stats now
  handle_admin-guarded s auth list_users now = extract-Handled s auth list_users now
  handle_admin-guarded s auth (get_user pubkey) now = extract-Handled s auth (get_user pubkey) now
  handle_admin-guarded s auth (put_quota pubkey quota_bytes) now =
      extract-Handled s auth (put_quota pubkey quota_bytes) now
  handle_admin-guarded s auth (put_role pubkey r) now =
      extract-Handled s auth (put_role pubkey r) now
  handle_admin-guarded s auth list_roles now = extract-Handled s auth list_roles now
  handle_admin-guarded s auth get_lfs_stats now = extract-Handled s auth get_lfs_stats now
  handle_admin-guarded s auth list_blobs now = extract-Handled s auth list_blobs now
  handle_admin-guarded s auth (remove_blob sha256) now =
      elim (Bool-cases (is_valid_sha256 sha256)) [
        | inl good ↦ rw good (extract-Handled s auth (remove_blob sha256) now)
        | inr bad ↦ rw bad (inl (s.seen, refl))
      ]
  handle_admin-guarded s auth list_whitelist now = extract-Handled s auth list_whitelist now
  handle_admin-guarded s auth (put_whitelist pubkey) now =
      extract-Handled s auth (put_whitelist pubkey) now
  handle_admin-guarded s auth (delete_whitelist pubkey) now =
      extract-Handled s auth (delete_whitelist pubkey) now
