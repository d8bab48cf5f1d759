-- ===== src/Transport/Handlers/Same.antt =====
-- What the QUIC handlers do to the state, against the handlers of the HTTP server.
use blossom_rs.Prelude.{
  ℕ, ◌≡◌, refl, Bool, Option, some, nat_key, list_key, pair_key, ltb, Text, Bool-cases, inl, inr,
}
use blossom_rs.Access.{Role, admin, member, denied}
use blossom_rs.Db.{
  MemoryDatabase, Result, is_upload_owner, upload_owner_count, delete_upload_owner, delete_upload,
}
use blossom_rs.Lfs.{Codec}
use blossom_rs.Server.{
  State, delete_as, delete_physical, owned, rebase, deltas_of, delete_blob, forget, recorded,
  disowned, member_delete,
}
use blossom_rs.Server as Deletion
use blossom_rs.Transport.Handlers as Handlers
use blossom_rs.Server.Encode.{Crates}
use blossom_rs.Server.Read.{octet_stream}
use blossom_rs.Server.Store.{store}
use blossom_rs.Server.Upload.{Config}
use blossom_rs.Transport.{Request, Status}
use blossom_rs.Transport.Binding.{parse_lfs_from_request}
use blossom_rs.Transport.Gate.{Texts}
use blossom_rs.Transport.Handlers.{
  Json, Reply, reply, store_upload, handle_delete, delete_by, delete_content, deleted_from,
  released,
}

-- The status of an answer of the HTTP handler.
abbrev pub status_as : Deletion.Response → Status
status_as Deletion.forbidden = Status.forbidden
status_as Deletion.blob_retained = Status.ok
status_as Deletion.deleted = Status.ok
status_as Deletion.not_found = Status.not_found
status_as Deletion.failed = Status.error

module _ (json : Json) (texts : Texts) (codec : Codec) (compress : Text → Option Text) where
  -- The same next state, and the status of the answer.
  abbrev pub Same : State × Reply json → State × Deletion.Response → Type 0
  Same r h = (r.0 ≡ h.0) × (r.1.0.status ≡ status_as h.1)

  deleted_from-Same :
      (s : State) (sha256 : Text) (r : MemoryDatabase × Result Bool)
      → Same
          (deleted_from json texts codec compress s sha256 r)
          (recorded codec compress s sha256 r)
  deleted_from-Same s sha256 (db, Result.err e) = (refl, refl)
  deleted_from-Same s sha256 (db, Result.ok found) = (refl, refl)

  delete_content-Same :
      (s : State) (sha256 : Text)
      → Same
          (delete_content json texts codec compress s sha256)
          (delete_physical codec compress s sha256)
  unfolding delete_content delete_physical
  delete_content-Same s sha256 =
      let t = rebase codec compress s (deltas_of codec compress s.lfs_version_db sha256) in
      elim (Bool-cases (delete_blob t.backend sha256).1) [
        | inl found ↦ rw found (
            deleted_from-Same (record t { backend = (delete_blob t.backend sha256).0 }) sha256
              (delete_upload t.database sha256))
        | inr missing ↦ rw missing (refl, refl)
      ]

  disowned-Same :
      (s : State) (r : MemoryDatabase × Result Bool)
      → Same (Handlers.disowned json texts codec compress s r) (disowned codec compress s r)
  disowned-Same s (db, Result.err e) = (refl, refl)
  disowned-Same s (db, Result.ok found) = (refl, refl)

  released-Same :
      (s : State) (sha256 pubkey : Text) (count : Result ℕ)
      → Same
          (released json texts codec compress s sha256 pubkey count)
          (member_delete codec compress s sha256 pubkey count)
  released-Same s sha256 pubkey (Result.err e) = (refl, refl)
  released-Same s sha256 pubkey (Result.ok count) = elim (Bool-cases (ltb 1 count)) [
    | inl more ↦ rw more (disowned-Same s (delete_upload_owner s.database sha256 pubkey))
    | inr last ↦ rw last (delete_content-Same s sha256)
  ]

  delete_by-Same :
      (r : Role) (s : State) (sha256 pubkey : Text)
      → Same
          (delete_by json texts codec compress r s sha256 pubkey)
          (delete_as codec compress r s sha256 pubkey)
  unfolding delete_as
  delete_by-Same denied s sha256 pubkey = (refl, refl)
  delete_by-Same admin s sha256 pubkey = delete_content-Same s sha256
  delete_by-Same member s sha256 pubkey =
      elim (Bool-cases (owned (is_upload_owner s.database sha256 pubkey))) [
        | inl mine ↦ rw mine (released-Same s sha256 pubkey (upload_owner_count s.database sha256))
        | inr other ↦ rw other (refl, refl)
      ]

  -- A key deletes the same over QUIC and over HTTP: whatever its role, the next states are equal, and
  -- the two answers have the same status.
  pub handle_delete-Same :
      (role : Text → Role) (s : State) (sha256 pubkey : Text)
      → Same
          (handle_delete json texts codec compress role s sha256 (some pubkey))
          (delete_as codec compress (role pubkey) s sha256 pubkey)
  unfolding handle_delete
  handle_delete-Same role s sha256 pubkey = delete_by-Same (role pubkey) s sha256 pubkey

module _ (json : Json) (texts : Texts) (crates : Crates) (config : Config) where
  -- What passes the checks is stored as the HTTP server stores an upload of the same bytes, of no
  -- type of its own, under the LFS context of the request.
  pub store_upload-store :
      (s : State) (bytes : Text) (req : Request) (pubkey : Text) (now : ℕ)
      → (store_upload json texts crates config s bytes req pubkey now).0
        ≡ (store crates s (parse_lfs_from_request req) octet_stream pubkey bytes now).0
  unfolding store_upload store
  store_upload-store s bytes req pubkey now = refl
