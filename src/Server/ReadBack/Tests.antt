-- ===== src/Server/ReadBack/Tests.antt =====
-- Storing and reading on concrete input.
use blossom_rs.Prelude.{
  leb, length, arith, if◌then◌else◌, ◌≡◌, refl, ap, subst, true, false, Option, none, some, [], ◌∷◌,
  Text, bytes_of, list_key, nat_key,
}
use blossom_rs.HashMap.{HashMap, get, contains_key}
use blossom_rs.Stats.{StatsAccumulator}
use blossom_rs.Db
use blossom_rs.Lfs.{
  LfsContext, LfsFileVersion, compressed, MemoryLfsVersionDatabase, get_by_sha256, Rebuilt, fetch,
  encode_delta,
}
use blossom_rs.Lfs.Within.{within}
use blossom_rs.Server.{State, exists}
use blossom_rs.Server.Encode.{Crates}
use blossom_rs.Server.Store.{status_ok, store}
use blossom_rs.Server.Read.{handle_get_blob, is_valid_sha256}
use blossom_rs.Server.ReadBack.{CratesLaws, HasRoom}
use blossom_rs.Xdelta.{Xd3, Xd3Laws, Fits}
use blossom_rs.Server.ReadBack.RoundTrip.{IsShallow, store-handle_get_blob}

abbrev zeros : Text
zeros = bytes_of "0000000000000000000000000000000000000000000000000000000000000000"

abbrev unwrapped : Text → Option Text
unwrapped [] = none
unwrapped (c ∷ bytes) = some bytes

-- A delta is the whole, where there is room for it.
abbrev whole_delta : Xd3
whole_delta = record {
  xd3_encode_memory = λ input src room. if leb (length input) room then some input else none;
  xd3_decode_memory = λ input src room. if leb (length input) room then some input else none;
}

whole_delta_laws : Xd3Laws whole_delta
whole_delta_laws = record {
  encoded_room = λ input src d room h. ground (arith, h);
  decoded_room = λ d src bytes room h. ground (arith, h);
  reverse = λ input src d room room' short source_short h k. ground (arith, h, k);
}

-- Compression puts a byte in front, and every digest is the same.
abbrev toy : Crates
toy = record {
  sha256_hex = λ bytes. zeros;
  codec = record { decompress = unwrapped; xd3 = whole_delta };
  compress = λ bytes. some (1 ∷ bytes);
  below_threshold = λ d n. true;
}

toy_laws : CratesLaws toy
unfolding is_valid_sha256
toy_laws = record {
  digest = λ bytes. refl;
  zipped = λ bytes. (1 ∷ bytes, refl, refl);
  patched = whole_delta_laws;
}

abbrev base_version : LfsFileVersion
base_version = record {
  repo_id = bytes_of "r";
  path = bytes_of "p";
  version = 1;
  sha256 = bytes_of "b";
  base_sha256 = none;
  storage = compressed;
  delta_algo = none;
  original_size = 3;
  stored_size = 3;
  created_at = 7;
}

abbrev versions : MemoryLfsVersionDatabase
versions = record { versions = base_version ∷ [] }

abbrev blobs : HashMap Text Text
blobs = (bytes_of "b", 1 ∷ bytes_of "old") ∷ []

abbrev before : State
before = record {
  backend = record { blobs = blobs; index = (bytes_of "b", 3) ∷ [] };
  database = Db.empty;
  lfs_version_db = some versions;
}

abbrev context : Option Text → Option Text → LfsContext
context path base = record {
  is_lfs = true;
  path = path;
  repo = some (bytes_of "r");
  base = base;
  is_manifest = false;
}

abbrev on_base : LfsContext
on_base = context (some (bytes_of "p")) (some (bytes_of "b"))

abbrev no_stats : StatsAccumulator
no_stats = record { counters = [] }

old_read : within toy.codec versions blobs 9 (bytes_of "b") ≡ Rebuilt.ok (bytes_of "old")
unfolding within get_by_sha256 fetch get
old_read = refl

new_fits : HasRoom toy.codec (bytes_of "old") (bytes_of "new")
unfolding encode_delta
new_fits d h =
    let same : bytes_of "new" ≡ d = ap (λ x. elim x [ none ↦ bytes_of "new" | some y ↦ y ]) h in
    subst (λ x. Fits (bytes_of "new") (bytes_of "old") x) same
      (record { short = omega arith; source_short = omega arith; room = omega arith })

shallow : IsShallow toy versions blobs on_base (bytes_of "new")
shallow base stored v b e f =
    let same : bytes_of "b" ≡ base = ap (λ x. elim x [ none ↦ bytes_of "b" | some y ↦ y ]) b in
    (
      bytes_of "old",
      subst (λ h. within toy.codec versions blobs 9 h ≡ Rebuilt.ok (bytes_of "old")) same old_read,
      new_fits,
    )

not_yet : get_by_sha256 versions zeros ≡ none
unfolding get_by_sha256
not_yet = refl

absent : exists before.backend zeros ≡ false
unfolding exists contains_key
absent = refl

store-handle_get_blob_example :
    let after =
      (store toy before on_base (bytes_of "text/plain") (bytes_of "ann") (bytes_of "new") 10).0 in
    let response = (handle_get_blob toy after no_stats zeros 11).1 in
    (response.status ≡ status_ok) × (response.body ≡ bytes_of "new")
store-handle_get_blob_example =
    store-handle_get_blob toy toy_laws before on_base (bytes_of "text/plain") (bytes_of "ann")
      (bytes_of "new") 10 no_stats 11 absent (not_yet, shallow)
      (λ l m. (bytes_of "r", bytes_of "p", refl, refl))
