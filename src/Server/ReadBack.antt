-- ===== src/Server/ReadBack.antt =====
-- What the storage pipeline of an upload writes, against what a read decodes.
pub mod RoundTrip
mod Tests
use blossom_rs.Prelude.{
  ℕ, ◌≡◌, refl, sym, ap, ◌∙◌, true, false, Option, none, some, nat_key, list_key, same_refl, length,
  ◌&&◌, not, if◌then◌else◌, arith, Text, Option-cases, Bool-cases, inl, inr,
}
use blossom_rs.HashMap.{HashMap, get, insert, get-insert_self}
use blossom_rs.Lfs.{
  LfsContext, LfsStorageType, raw, compressed, delta, LfsFileVersion, is_delta,
  MemoryLfsVersionDatabase, get_by_sha256, record_version, Codec, Rebuilt, or_raw, next_base,
  and_then, fetch, patch_one, reconstruct_blob, encode_delta, decode_delta,
}
use blossom_rs.Xdelta.{Xd3Laws, Fits, decode-encode}
use blossom_rs.Lfs.Chain.{content, reconstruct_blob-content}
use blossom_rs.Lfs.Within.{
  within, content-within, within-kept, get_by_sha256-same, get_by_sha256-new,
}
use blossom_rs.Server.Read.{is_valid_sha256}
use blossom_rs.Server.Encode.{
  Crates, Encoded, whole, compressed_or_raw, decoded_as, delta_is_worthwhile, packed_delta,
  delta_or_compressed, encode_on_base, encode_lfs, encode_upload,
}

-- What the crates document: a digest is lowercase hex, what zstd writes it reads, and xdelta3's laws.
pub record CratesLaws (crates : Crates) : Type 0 where
  pub digest : (bytes : Text) → is_valid_sha256 (crates.sha256_hex bytes) ≡ true
  pub zipped :
      (bytes : Text)
      → (c : Text) × (crates.compress bytes ≡ some c) × (crates.codec.decompress c ≡ some bytes)
  pub patched : Xd3Laws crates.codec.xd3

-- Where the bytes are encoded as a delta on a base, they fit the room that `decode` gives.
abbrev pub HasRoom : Codec → Text → Text → Type 0
HasRoom codec base bytes = (d : Text) → encode_delta codec base bytes ≡ some d → Fits bytes base d

module _ (crates : Crates) (db : MemoryLfsVersionDatabase) (blobs : HashMap Text Text) where
  -- A delta on a base that has a version and a blob.
  pub record IsDelta (bytes base_hash : Text) (e : Encoded) : Type 0 where
    pub version : LfsFileVersion
    pub stored : Text
    pub difference : Text
    pub versioned : get_by_sha256 db base_hash ≡ some version
    pub present : get blobs base_hash ≡ some stored
    pub encoded :
        encode_delta crates.codec (decoded_as crates version.storage db blobs version stored) bytes
        ≡ some difference
    pub packed : crates.compress difference ≡ some e.bytes
    pub marked : e.storage ≡ delta
    pub based : e.base_sha256 ≡ some base_hash

  module _ {ℓ} (P : Encoded → Type ℓ) (bytes base_hash : Text)
      (zip : P (compressed_or_raw crates bytes))
      (diff : (e : Encoded) → IsDelta bytes base_hash e → P e) where
    encode_on_base_cases : P (encode_on_base crates db blobs base_hash bytes)
    unfolding encode_on_base delta_is_worthwhile
    encode_on_base_cases = elim (Option-cases (get_by_sha256 db base_hash)) [
      | inl e ↦ rw (e, encode_on_base) zip
      | inr (v, e) ↦ elim (Option-cases (get blobs base_hash)) [
        | inl f ↦ rw (e, f, encode_on_base) zip
        | inr (stored, f) ↦
            let base = decoded_as crates v.storage db blobs v stored in
            elim (Option-cases (encode_delta crates.codec base bytes)) [
              | inl g ↦ rw (e, f, encode_on_base, g) zip
              | inr (d, g) ↦
                  elim (Bool-cases (delta_is_worthwhile crates (length d) (length bytes))) [
                    | inr k ↦ rw (e, f, encode_on_base, g, k) zip
                    | inl k ↦ elim (Option-cases (crates.compress d)) [
                      | inl c ↦ rw (e, f, encode_on_base, g, k, c) zip
                      | inr (packed, c) ↦
                          rw (e, f, encode_on_base, g, k, c)
                            (diff
                              (record {
                                bytes = packed;
                                storage = delta;
                                base_sha256 = some base_hash;
                              })
                              (record {
                                version = v;
                                stored = stored;
                                difference = d;
                                versioned = e;
                                present = f;
                                encoded = g;
                                packed = c;
                                marked = refl;
                                based = refl;
                              }))
                    ]
                  ]
            ]
      ]
    ]

  -- The bytes of a base whose chain ends within nine versions.
  decoded-within :
      (v : LfsFileVersion) (hash stored x : Text) (t : LfsStorageType)
      → v.storage ≡ t
      → get_by_sha256 db hash ≡ some v
      → get blobs hash ≡ some stored
      → within crates.codec db blobs 9 hash ≡ Rebuilt.ok x
      → decoded_as crates t db blobs v stored ≡ x
  unfolding within fetch
  decoded-within v hash stored x raw s e f h =
      let own = get_by_sha256-same db hash v e in ground (arith, s, e, f, h, own)
  decoded-within v hash stored x compressed s e f h =
      let own = get_by_sha256-same db hash v e in ground (arith, s, e, f, h, own)
  decoded-within v hash stored x delta s e f h =
      let own = get_by_sha256-same db hash v e in
      let (_, ten) = content-within crates.codec db blobs 9 hash x h in
      let whole : reconstruct_blob crates.codec db blobs v ≡ Rebuilt.ok x =
        reconstruct_blob-content crates.codec db blobs v
        ∙ ap (λ k. content crates.codec db blobs 10 k) own
        ∙ ten in
      rw whole refl

module _ (crates : Crates) (laws : CratesLaws crates) (db : MemoryLfsVersionDatabase)
    (blobs : HashMap Text Text) (w : LfsFileVersion)
    (fresh : get_by_sha256 db w.sha256 ≡ none) where
  abbrev added : MemoryLfsVersionDatabase
  added = (record_version db w).0

  -- What a read decodes of the bytes that are stored for the new version.
  abbrev pub decoded_new : Encoded → Text
  decoded_new e = decoded_as crates e.storage added (insert blobs w.sha256 e.bytes) w e.bytes

  decoded_new-zipped : (bytes : Text) → decoded_new (compressed_or_raw crates bytes) ≡ bytes
  decoded_new-zipped bytes = let (c, zip, unzip) = laws.zipped bytes in rw (zip, unzip) refl

  rebuilt :
      (bytes base_hash x : Text) (e : Encoded) (d : IsDelta crates db blobs bytes base_hash e)
      → w.storage ≡ delta
      → w.base_sha256 ≡ some base_hash
      → within crates.codec db blobs 9 base_hash ≡ Rebuilt.ok x
      → HasRoom crates.codec x bytes
      → content crates.codec added (insert blobs w.sha256 e.bytes) 10 w.sha256 ≡ Rebuilt.ok bytes
  unfolding content patch_one decode_delta encode_delta
  rebuilt bytes base_hash x e d s b h room =
      let more = insert blobs w.sha256 e.bytes in
      let (below, _) =
        content-within crates.codec added more 9 base_hash x
          (within-kept crates.codec db blobs w e.bytes fresh 9 base_hash x h) in
      let found = get_by_sha256-new db w fresh in
      let base : decoded_as crates d.version.storage db blobs d.version d.stored ≡ x =
        decoded-within crates db blobs d.version base_hash d.stored x d.version.storage refl
          d.versioned d.present h in
      let (c, zip, unzip) = laws.zipped d.difference in
      let same : c ≡ e.bytes = ground (arith, zip, d.packed) in
      let undone =
        let made = ap (λ y. encode_delta crates.codec y bytes) (sym base) ∙ d.encoded in
        decode-encode crates.codec.xd3 laws.patched bytes x d.difference (room d.difference made)
          made in
      let read : crates.codec.decompress e.bytes ≡ some d.difference =
        ap (λ y. crates.codec.decompress y) (sym same) ∙ unzip in
      rw
        (
          found,
          content,
          s,
          b,
          below,
          patch_one,
          get-insert_self blobs w.sha256 e.bytes,
          read,
          undone,
        )
        refl

  decoded_new-delta :
      (bytes base_hash x : Text) (e : Encoded)
      → IsDelta crates db blobs bytes base_hash e
      → w.storage ≡ e.storage
      → w.base_sha256 ≡ e.base_sha256
      → within crates.codec db blobs 9 base_hash ≡ Rebuilt.ok x
      → HasRoom crates.codec x bytes
      → decoded_new e ≡ bytes
  decoded_new-delta bytes base_hash x e d s b h room =
      let more = insert blobs w.sha256 e.bytes in
      let whole =
        reconstruct_blob-content crates.codec added more w
        ∙ rebuilt bytes base_hash x e d (s ∙ d.marked) (b ∙ d.based) h room in
      rw (d.marked, whole) refl
