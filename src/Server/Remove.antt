-- ===== src/Server/Remove.antt =====
-- handle_delete_blob of src/server/mod.rs, from the request on.
mod Tests
use blossom_rs.Prelude.{
  ℕ, ◌≡◌, ◌⊎◌, refl, true, false, some, none, Option, Text, bytes_of, list_key, nat_key, pair_key,
  ◌∷◌, if◌then◌else◌, arith, Bool-cases, inl, inr, ◌==◌,
}
use blossom_rs.Access.{Role, admin, member, denied}
use blossom_rs.Auth.{NostrEvent, AuthResult, accepted, rejected, Crypto}
use blossom_rs.Auth.Claims.{verify_auth_event_claims}
use blossom_rs.Auth.Single.{verify_auth_event, mark_after-accepted}
use blossom_rs.ReplayCache.{ReplayCache}
use blossom_rs.Db.{is_upload_owner}
use blossom_rs.Lfs.{Codec}
use blossom_rs.Server.{State, Response, delete_as, owned}
use blossom_rs.Server.Read.{is_valid_sha256}
use blossom_rs.Server.Upload.{ServerState, AuthHeader, absent, malformed, event_of}

-- 400; 401; or the answer of the deletion.
pub data DeleteResponse : Type 0 where
  bad_request : DeleteResponse
  unauthorized : DeleteResponse
  answered : Response → DeleteResponse

module _ {F : Type 0} (crypto : Crypto) (codec : Codec) (compress : Text → Option Text)
    (base_url : Text) (role : Text → Role) where
  abbrev delete_checked :
      ServerState F → NostrEvent → Text → ReplayCache × AuthResult → ServerState F × DeleteResponse
  delete_checked s event sha256 (seen, rejected e) = (record s { seen = seen }, unauthorized)
  delete_checked s event sha256 (seen, accepted) =
      let (stored, response) =
        delete_as codec compress (role event.pubkey) s.stored sha256 event.pubkey in
      (record s { stored = stored; seen = seen }, answered response)

  abbrev delete_with : ServerState F → AuthHeader → Text → ℕ → ServerState F × DeleteResponse
  delete_with s absent sha256 now = (s, unauthorized)
  delete_with s malformed sha256 now = (s, unauthorized)
  delete_with s (event_of event) sha256 now = delete_checked s event sha256 (
      verify_auth_event crypto s.seen event (bytes_of "delete") base_url (b'/' ∷ sha256)
        (bytes_of "DELETE") (some sha256) now)

  unfoldable pub handle_delete_blob :
      ServerState F → AuthHeader → Text → ℕ → ServerState F × DeleteResponse
  unfolding is_valid_sha256 verify_auth_event delete_as
  handle_delete_blob s auth sha256 now =
      if is_valid_sha256 sha256 then delete_with s auth sha256 now else (s, bad_request)

  -- The key may delete: it is an admin's, or that of a member that owns the blob.
  abbrev pub MayDelete : ServerState F → Text → Text → Type 0
  MayDelete s sha256 pubkey =
      (role pubkey ≡ admin)
      ⊎ ((role pubkey ≡ member) × (owned (is_upload_owner s.stored.database sha256 pubkey) ≡ true))

  -- The request has an event for the deletion of this blob, of a key that may delete it.
  abbrev pub IsAuthorized : ServerState F → AuthHeader → Text → ℕ → Type 0
  IsAuthorized s auth sha256 now =
      (event : NostrEvent) × (auth ≡ event_of event)
      × (verify_auth_event_claims crypto event (bytes_of "delete") base_url (b'/' ∷ sha256)
            (bytes_of "DELETE") (some sha256) now
          ≡ accepted)
      × MayDelete s sha256 event.pubkey

  delete_as-may :
      (s : ServerState F) (sha256 pubkey : Text) (r : Role)
      → role pubkey ≡ r
      → ((delete_as codec compress r s.stored sha256 pubkey).0 ≡ s.stored)
        ⊎ MayDelete s sha256 pubkey
  unfolding delete_as
  delete_as-may s sha256 pubkey admin e = inr (inl e)
  delete_as-may s sha256 pubkey denied e = inl refl
  delete_as-may s sha256 pubkey member e =
      elim (Bool-cases (owned (is_upload_owner s.stored.database sha256 pubkey))) [
        | inl o ↦ inr (inr (e, o))
        | inr o ↦ inl (rw (o, delete_as) refl)
      ]

  delete_checked-may :
      (s : ServerState F) (event : NostrEvent) (sha256 : Text) (now : ℕ)
      (r : ReplayCache × AuthResult)
      → (r.1 ≡ accepted
          → verify_auth_event_claims crypto event
              (bytes_of "delete")
              base_url
              (b'/' ∷ sha256)
              (bytes_of "DELETE")
              (some sha256)
              now
            ≡ accepted)
      → ((delete_checked s event sha256 r).0.stored ≡ s.stored)
        ⊎ IsAuthorized s (event_of event) sha256 now
  delete_checked-may s event sha256 now (seen, rejected e) h = inl refl
  delete_checked-may s event sha256 now (seen, accepted) h =
      elim (delete_as-may s sha256 event.pubkey (role event.pubkey) refl) [
        | inl same ↦ inl same
        | inr may ↦ inr (event, refl, h refl, may)
      ]

  delete_with-may :
      (s : ServerState F) (auth : AuthHeader) (sha256 : Text) (now : ℕ)
      → ((delete_with s auth sha256 now).0.stored ≡ s.stored) ⊎ IsAuthorized s auth sha256 now
  unfolding verify_auth_event
  delete_with-may s absent sha256 now = inl refl
  delete_with-may s malformed sha256 now = inl refl
  delete_with-may s (event_of event) sha256 now =
      let claims =
        verify_auth_event_claims crypto event (bytes_of "delete") base_url (b'/' ∷ sha256)
          (bytes_of "DELETE") (some sha256) now in
      delete_checked-may s event sha256 now
        (verify_auth_event crypto s.seen event (bytes_of "delete") base_url (b'/' ∷ sha256)
          (bytes_of "DELETE") (some sha256) now)
        (λ k. (mark_after-accepted crypto claims s.seen event now k).0)

  -- A request to delete leaves the blobs, the database and the LFS versions as they are, unless it has
  -- an event whose claims hold for the deletion of this blob, of an admin or of a member that owns it.
  pub handle_delete_blob-guarded :
      (s : ServerState F) (auth : AuthHeader) (sha256 : Text) (now : ℕ)
      → ((handle_delete_blob s auth sha256 now).0.stored ≡ s.stored)
        ⊎ IsAuthorized s auth sha256 now
  unfolding handle_delete_blob
  handle_delete_blob-guarded s auth sha256 now = elim (Bool-cases (is_valid_sha256 sha256)) [
    | inl e ↦ rw (e, handle_delete_blob) (delete_with-may s auth sha256 now)
    | inr e ↦ inl (rw (e, handle_delete_blob) refl)
  ]
