-- ===== src/Transport/Handlers/ReadBack.antt =====
-- An upload over QUIC, and what reads of the blob give.
use blossom_rs.Prelude.{
  ℕ, ◌≡◌, ◌≢◌, refl, ◌∙◌, true, false, Option, none, some, [], nat_key, list_key, pair_key,
  list_same_iff, arith, Text, Option-cases, inl, inr,
}
use blossom_rs.Server.{State, get_blob, exists}
use blossom_rs.Server.Encode.{Crates}
use blossom_rs.Server.Read.{is_valid_sha256, octet_stream, handle_get_blob}
use blossom_rs.Server.ReadBack.{CratesLaws}
use blossom_rs.Server.ReadBack.RoundTrip.{IsReady, IsNamed, stem-is_valid, store-handle_get_blob}
use blossom_rs.Server.Store.{status_ok, store}
use blossom_rs.Server.Upload.{Config, owner_name}
use blossom_rs.Stats.{StatsAccumulator}
use blossom_rs.Transport.{Request, Status}
use blossom_rs.Transport.Binding.{parse_lfs_from_request}
use blossom_rs.Transport.Gate.{Texts}
use blossom_rs.Transport.Handlers.{Json, Reply, handle_get, handle_upload, upload_refusal}
use blossom_rs.Transport.Handlers.Same.{store_upload-store}

module _ (json : Json) (crates : Crates) where
  -- Both transports serve the same bytes of a blob.
  handle_get-handle_get_blob :
      (s : State) (stats : StatsAccumulator) (sha256 : Text) (now : ℕ)
      → is_valid_sha256 sha256 ≡ true
      → let r = (handle_get_blob crates s stats sha256 now).1 in
        r.status ≡ status_ok
        → ((handle_get json crates s sha256).0.status ≡ Status.ok)
          × ((handle_get json crates s sha256).1 ≡ r.body)
  unfolding handle_get handle_get_blob
  handle_get-handle_get_blob s stats sha256 now valid h =
      elim (Option-cases (get_blob s.backend sha256)) [
        | inl e ↦ absurd (ground (arith, stem-is_valid sha256 valid, valid, e, h))
        | inr (stored, e) ↦ rw (stem-is_valid sha256 valid, valid, e) (refl, refl)
      ]

  module _ (texts : Texts) (config : Config) where
    -- A refusal is not `Ok`.
    upload_refusal-status :
        (s : State) (bytes : Text) (req : Request) (key : Option Text) (r : Reply json)
        → upload_refusal json texts crates config s bytes req key ≡ some r
        → r.0.status ≢ Status.ok
    unfolding upload_refusal
    upload_refusal-status s bytes req key r h = ground (arith, h)

    upload_refusal-digest :
        (s : State) (bytes : Text) (req : Request) (key : Option Text)
        → upload_refusal json texts crates config s bytes req key ≡ none
        → crates.sha256_hex bytes ≡ req.sha256
    unfolding upload_refusal
    upload_refusal-digest s bytes req key h =
        ground (arith, h, list_same_iff (crates.sha256_hex bytes) req.sha256)

    -- A blob that the backend and the LFS versions do not have yet, and that an upload over QUIC is
    -- answered with `Ok` for, is read back over QUIC as the bytes that were uploaded, raw, compressed
    -- or as a delta: where zstd, xdelta3 and the digest keep their laws, the chains of the bases end
    -- within nine versions, an LFS upload names its repository and path, and where it is encoded as a
    -- delta, it is at most as long as the buffer that `xdelta3::decode` makes for it, with its base and
    -- itself below 2^32 bytes.
    pub handle_upload-handle_get :
        (laws : CratesLaws crates) (s : State) (bytes : Text) (req : Request) (key : Option Text)
        (now : ℕ)
        → (handle_upload json texts crates config s bytes req key now).1.0.status ≡ Status.ok
        → exists s.backend req.sha256 ≡ false
        → IsReady crates s.lfs_version_db s.backend.blobs
            (parse_lfs_from_request req)
            req.sha256
            bytes
        → IsNamed crates (parse_lfs_from_request req)
        → let after = (handle_upload json texts crates config s bytes req key now).0 in
          ((handle_get json crates after req.sha256).0.status ≡ Status.ok)
          × ((handle_get json crates after req.sha256).1 ≡ bytes)
    unfolding handle_upload
    handle_upload-handle_get laws s bytes req key now ok absent ready named =
        elim (Option-cases (upload_refusal json texts crates config s bytes req key)) [
          | inr (r, e) ↦
              absurd (upload_refusal-status s bytes req key r e (rw (e, handle_upload) at ok))
          | inl e ↦
              let pubkey = owner_name key in
              let ctx = parse_lfs_from_request req in
              let digest = upload_refusal-digest s bytes req key e in
              let after = (store crates s ctx octet_stream pubkey bytes now).0 in
              let stats : StatsAccumulator = record { counters = [] } in
              let (status, body) =
                store-handle_get_blob crates laws s ctx octet_stream pubkey bytes now stats now
                  (rw digest absent) (rw digest ready) named in
              let (found, same) =
                handle_get-handle_get_blob after stats (crates.sha256_hex bytes) now
                  (laws.digest bytes) status in
              let moved : (handle_upload json texts crates config s bytes req key now).0 ≡ after =
                rw (e, handle_upload)
                  (store_upload-store json texts crates config s bytes req pubkey now) in
              rw (moved, ← digest) (found, same ∙ body)
        ]
