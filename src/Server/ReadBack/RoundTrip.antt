-- ===== src/Server/ReadBack/RoundTrip.antt =====
-- A blob that is stored and then read, by `store` and `handle_get_blob`.
use blossom_rs.Prelude.{
  ℕ, ◌≡◌, refl, ap, ◌∙◌, true, false, Option, none, some, [], ◌∷◌, nat_key, list_key, length, ◌&&◌,
  ◌||◌, leb, arith, Text, Option-cases, Bool-cases, inl, inr, is_ascii_digit,
}
use blossom_rs.HashMap.{HashMap, get, insert, get-insert_self}
use blossom_rs.Access.{all}
use blossom_rs.Stats.{StatsAccumulator}
use blossom_rs.Lfs.{
  LfsContext, LfsFileVersion, MemoryLfsVersionDatabase, get_by_sha256, record_version, Rebuilt,
}
use blossom_rs.Lfs.Within.{within, get_by_sha256-new}
use blossom_rs.Server.{State, MemoryBackend, get_blob, exists, insert_with_hash}
use blossom_rs.Server.Encode.{Crates, Encoded, whole, compressed_or_raw, encode_upload}
use blossom_rs.Server.Store.{status_ok, version_of, record_lfs, insert_new, store}
use blossom_rs.Server.Read.{is_valid_sha256, stem, served, handle_get_blob}
use blossom_rs.Server.ReadBack.{
  CratesLaws, HasRoom, encode_on_base_cases, decoded_new, decoded_new-zipped, decoded_new-delta,
}

stem-all :
    (s : Text) → all (λ c. is_ascii_digit c || (leb b'a' c && leb c b'f')) s ≡ true → stem s ≡ s
unfolding stem
stem-all [] h = refl
stem-all (c ∷ s) h = ground (arith, h, stem-all s)

pub stem-is_valid : (s : Text) → is_valid_sha256 s ≡ true → stem s ≡ s
unfolding is_valid_sha256
stem-is_valid s h = stem-all s (ground (arith, h))

module _ (crates : Crates) where
  -- The chain of every base that an upload can be stored on ends within nine versions, and a delta on
  -- what it gives leaves `decode` room for the upload.
  abbrev pub IsShallow : MemoryLfsVersionDatabase → HashMap Text Text → LfsContext → Text → Type 0
  IsShallow db blobs ctx bytes =
      (base stored : Text) (v : LfsFileVersion)
      → ctx.base ≡ some base
      → get_by_sha256 db base ≡ some v
      → get blobs base ≡ some stored
      → (x : Text) × (within crates.codec db blobs 9 base ≡ Rebuilt.ok x)
        × HasRoom crates.codec x bytes

  -- An upload that the pipeline encodes names its repository and its path.
  abbrev pub IsNamed : LfsContext → Type 0
  IsNamed ctx =
      ctx.is_lfs ≡ true
      → ctx.is_manifest ≡ false
      → (repo : Text) × (path : Text) × (ctx.repo ≡ some repo) × (ctx.path ≡ some path)

  module _ (laws : CratesLaws crates) (db : MemoryLfsVersionDatabase) (blobs : HashMap Text Text)
      (ctx : LfsContext) (sha256 : Text) (size now : ℕ)
      (fresh : get_by_sha256 db sha256 ≡ none) where
    abbrev w : Text → Text → Encoded → LfsFileVersion
    w repo path e = version_of db repo path sha256 size e now

    encoded-decoded :
        (repo path bytes : Text)
        → IsShallow db blobs ctx bytes
        → ctx.is_lfs ≡ true
        → ctx.is_manifest ≡ false
        → (base : Option Text) → ctx.base ≡ base
        → let e = encode_upload crates (some db) blobs ctx bytes in
          decoded_new crates laws db blobs (w repo path e) fresh e ≡ bytes
    unfolding encode_upload
    encoded-decoded repo path bytes shallow l m none b =
        rw (l, m, b)
          (decoded_new-zipped crates laws db blobs (w repo path (compressed_or_raw crates bytes))
            fresh bytes)
    encoded-decoded repo path bytes shallow l m (some base) b =
        rw (l, m, b)
          (encode_on_base_cases crates db blobs
            (λ e. decoded_new crates laws db blobs (w repo path e) fresh e ≡ bytes) bytes base
            (decoded_new-zipped crates laws db blobs (w repo path (compressed_or_raw crates bytes))
              fresh bytes)
            (λ e d.
              let (x, h, room) = shallow base d.stored d.version b d.versioned d.present in
              decoded_new-delta crates laws db blobs (w repo path e) fresh bytes base x e d refl
                refl h room))

    served_named :
        (s : State) (bytes repo path : Text) (e : Encoded)
        → s.backend.blobs ≡ insert blobs sha256 e.bytes
        → ctx.is_lfs ≡ true
        → ctx.repo ≡ some repo
        → ctx.path ≡ some path
        → decoded_new crates laws db blobs (w repo path e) fresh e ≡ bytes
        → served crates s (record_lfs (some db) ctx sha256 size e now) sha256 e.bytes ≡ bytes
    served_named s bytes repo path e stored l r p h =
        let found : get_by_sha256 (record_version db (w repo path e)).0 sha256
            ≡ some (w repo path e) =
          get_by_sha256-new db (w repo path e) fresh in
        rw (l, r, p, found, stored) h

    served_new :
        (s : State) (bytes : Text)
        → let e = encode_upload crates (some db) blobs ctx bytes in
          s.backend.blobs ≡ insert blobs sha256 e.bytes
          → IsShallow db blobs ctx bytes
          → IsNamed ctx
          → served crates s (record_lfs (some db) ctx sha256 size e now) sha256 e.bytes ≡ bytes
    unfolding encode_upload
    served_new s bytes stored shallow named = elim (Bool-cases ctx.is_lfs) [
      | inr l ↦ rw (l, fresh) refl
      | inl l ↦ elim (Bool-cases ctx.is_manifest) [
        | inl m ↦ elim (Option-cases ctx.repo) [
          | inl r ↦ rw (l, m, r, fresh) refl
          | inr (repo, r) ↦ elim (Option-cases ctx.path) [
            | inl p ↦ rw (l, m, r, p, fresh) refl
            | inr (path, p) ↦
                rw (l, m, r, p, get_by_sha256-new db (w repo path (whole bytes)) fresh) refl
          ]
        ]
        | inr m ↦
            let (repo, path, r, p) = named l m in
            let e = encode_upload crates (some db) blobs ctx bytes in
            let read = encoded-decoded repo path bytes shallow l m ctx.base refl in
            served_named s bytes repo path e stored l r p read
      ]
    ]

  -- The hash has no version yet, and chains are short enough.
  abbrev pub IsReady :
      Option MemoryLfsVersionDatabase → HashMap Text Text → LfsContext → Text → Text → Type 0
  IsReady none blobs ctx sha256 bytes = Unit
  IsReady (some db) blobs ctx sha256 bytes =
      (get_by_sha256 db sha256 ≡ none) × IsShallow db blobs ctx bytes

  inserted :
      (b : MemoryBackend) (bytes sha256 : Text) (size : ℕ)
      → exists b sha256 ≡ false
      → (insert_new b bytes sha256 size).blobs ≡ insert b.blobs sha256 bytes
  unfolding insert_with_hash
  inserted b bytes sha256 size h = rw h refl

  got :
      (s : State) (stats : StatsAccumulator) (sha256 stored : Text) (now : ℕ)
      → is_valid_sha256 sha256 ≡ true
      → get s.backend.blobs sha256 ≡ some stored
      → let r = (handle_get_blob crates s stats sha256 now).1 in
        (r.status ≡ status_ok) × (r.body ≡ served crates s s.lfs_version_db sha256 stored)
  unfolding handle_get_blob get_blob
  got s stats sha256 stored now valid h = rw (stem-is_valid sha256 valid, valid, h) (refl, refl)

  served_option :
      (laws : CratesLaws crates) (lfs : Option MemoryLfsVersionDatabase) (blobs : HashMap Text Text)
      (ctx : LfsContext) (sha256 : Text) (size now : ℕ) (s : State) (bytes : Text)
      → IsReady lfs blobs ctx sha256 bytes
      → IsNamed ctx
      → let e = encode_upload crates lfs blobs ctx bytes in
        s.backend.blobs ≡ insert blobs sha256 e.bytes
        → served crates s (record_lfs lfs ctx sha256 size e now) sha256 e.bytes ≡ bytes
  unfolding encode_upload
  served_option laws none blobs ctx sha256 size now s bytes ready named stored = refl
  served_option laws (some db) blobs ctx sha256 size now s bytes ready named stored =
      served_new laws db blobs ctx sha256 size now ready.0 s bytes stored ready.1 named

  -- A blob that the backend and the LFS versions do not have yet is read back as the bytes that were
  -- uploaded, raw, compressed or as a delta: where a read comes after `store`, zstd, xdelta3 and the
  -- digest keep their laws, the chains of the bases end within nine versions, an LFS upload names its
  -- repository and path, and where it is encoded as a delta, it is at most as long as the buffer that
  -- `xdelta3::decode` makes for it, with its base and itself below 2^32 bytes.
  pub store-handle_get_blob :
      (laws : CratesLaws crates) (s : State) (ctx : LfsContext) (mime_type pubkey bytes : Text)
      (now : ℕ) (stats : StatsAccumulator) (later : ℕ)
      → exists s.backend (crates.sha256_hex bytes) ≡ false
      → IsReady s.lfs_version_db s.backend.blobs ctx (crates.sha256_hex bytes) bytes
      → IsNamed ctx
      → let after = (store crates s ctx mime_type pubkey bytes now).0 in
        let response = (handle_get_blob crates after stats (crates.sha256_hex bytes) later).1 in
        (response.status ≡ status_ok) × (response.body ≡ bytes)
  unfolding store
  store-handle_get_blob laws s ctx mime_type pubkey bytes now stats later absent ready named =
      let sha256 = crates.sha256_hex bytes in
      let e = encode_upload crates s.lfs_version_db s.backend.blobs ctx bytes in
      let after = (store crates s ctx mime_type pubkey bytes now).0 in
      let stored : after.backend.blobs ≡ insert s.backend.blobs sha256 e.bytes =
        inserted s.backend e.bytes sha256 (length bytes) absent in
      let found : get after.backend.blobs sha256 ≡ some e.bytes =
        ap (λ m. get m sha256) stored ∙ get-insert_self s.backend.blobs sha256 e.bytes in
      let (ok, body) = got after stats sha256 e.bytes later (laws.digest bytes) found in
      (
        ok,
        body
            ∙ served_option laws s.lfs_version_db s.backend.blobs ctx sha256 (length bytes) now
                after bytes ready named stored,
      )
