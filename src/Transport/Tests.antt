-- ===== src/Transport/Tests.antt =====
-- The transport on concrete input.
use blossom_rs.Prelude.{
  leb, ℕ, ◌≡◌, ◌≢◌, ◌⊎◌, ◌<◌, ◌≤◌, refl, ap, sym, true, false, false≢true, Option, none, some, List,
  [], ◌∷◌, ◌++◌, Text, bytes_of, list_key, nat_key, pair_key, ◌==◌, arith, length, if◌then◌else◌,
}
use blossom_rs.Access.{Role, admin, member, denied}
use blossom_rs.Auth.{NostrEvent, Crypto, verify_blossom_auth}
use blossom_rs.Base64.{base64url_decode}
use blossom_rs.HashMap.{get, contains_key}
use blossom_rs.Db
use blossom_rs.Server.{State, exists, delete_as}
use blossom_rs.Server.Encode.{Crates}
use blossom_rs.Server.Read.{is_valid_sha256}
use blossom_rs.Server.ReadBack.{CratesLaws}
use blossom_rs.Xdelta.{Xd3, Xd3Laws}
use blossom_rs.Server.Upload.{Config}
use blossom_rs.Transport.{Op, Request, Status}
use blossom_rs.Transport.Wire.{Decoded, Serde, max_wire_header, read_header, decode_line}
use blossom_rs.Transport.Replay.{new}
use blossom_rs.Transport.Binding.{
  Bindings, verified, verify_auth, verify_event, request_auth_binding, parse_lfs_from_request,
}
use blossom_rs.Transport.Binding.Verified.{Verifies, verify_auth-verified}
use blossom_rs.Transport.Gate.{Texts, SharedState}
use blossom_rs.Transport.Handlers.{Json, handle_get, handle_upload, handle_delete}
use blossom_rs.Transport.Handlers.Same.{Same, handle_delete-Same}
use blossom_rs.Transport.Handlers.ReadBack.{handle_upload-handle_get}
use blossom_rs.Transport.Stream.{Incoming, Server, handle_stream}
use blossom_rs.Transport.Stream.Gates.{SameData, Authorized}
use blossom_rs.Transport.Stream.Guarded.{Carries, handle_stream-guarded}
use blossom_rs.Transport.Stream.Once.{handle_stream-once}

abbrev zeros : Text
zeros = bytes_of "0000000000000000000000000000000000000000000000000000000000000000"

abbrev ann : Text
ann = bytes_of "ann"

abbrev request : Op → Text → Text → Request
request op auth lfs_path = record {
  op = op;
  sha256 = zeros;
  pubkey = [];
  auth = auth;
  content_type = [];
  body_len = 3;
  repo_id = [];
  lock_id = [];
  lock_path = [];
  force = false;
  cursor = [];
  limit = 0;
  lfs_path = lfs_path;
  lfs_repo = lfs_path;
  lfs_base = [];
  lfs_manifest = false;
}

-- A request to delete the blob, with an event.
abbrev deletion : Request
deletion = request Op.delete (bytes_of "Nostr AAAA") []

-- Every request is written as one letter, and read as the deletion.
abbrev letters : Serde Request
letters = record { to_vec = λ req. bytes_of "d"; from_slice = λ text. Decoded.ok deletion }

abbrev event : NostrEvent
event = record {
  id = bytes_of "e";
  pubkey = ann;
  created_at = 100;
  kind = 24242;
  tags =
      (bytes_of "t" ∷ bytes_of "delete" ∷ [])
      ∷ (bytes_of "expiration" ∷ bytes_of "200" ∷ [])
      ∷ (bytes_of "server" ∷ bytes_of "iroh://s" ∷ [])
      ∷ (bytes_of "x" ∷ zeros ∷ [])
      ∷ [];
  content = bytes_of "e";
  sig = ann;
}

-- The content stands for its own digest, and a key signs with itself.
abbrev plain : Crypto
plain = record {
  Digest = Text;
  to_json = λ pubkey created_at kind tags content. content;
  sha256 = λ bytes. bytes;
  hex_encode = λ digest. digest;
  verify = λ pubkey digest sig. sig == pubkey;
}

abbrev bindings : Bindings
bindings = record {
  event_from_slice = λ json. some event;
  sha256_hex = λ bytes. zeros;
  lock_create_json = λ repo path. [];
  lock_delete_json = λ repo id force. [];
  lock_verify_json = λ repo cursor limit. [];
}

abbrev json : Json
json = record {
  Value = Text;
  of_descriptor = λ d. d.sha256;
  of_lock = λ l. l.id;
  of_locks = λ locks cursor. [];
  of_shares = λ ours theirs cursor. [];
  list_to_vec = λ descriptors. [];
}

abbrev texts : Texts
texts = record { of_binding = λ e. []; of_db = λ e. []; of_lock = λ e. [] }

abbrev unwrapped : Text → Option Text
unwrapped [] = none
unwrapped (c ∷ bytes) = some bytes

-- A delta is the whole, where there is room for it.
abbrev whole_delta : Xd3
whole_delta = record {
  xd3_encode_memory = λ input src room. if leb (length input) room then some input else none;
  xd3_decode_memory = λ input src room. if leb (length input) room then some input else none;
}

whole_delta_laws : Xd3Laws whole_delta
whole_delta_laws = record {
  encoded_room = λ input src d room h. ground (arith, h);
  decoded_room = λ d src bytes room h. ground (arith, h);
  reverse = λ input src d room room' short source_short h k. ground (arith, h, k);
}

-- Compression puts a byte in front, and every digest is the same.
abbrev crates : Crates
crates = record {
  sha256_hex = λ bytes. zeros;
  codec = record { decompress = unwrapped; xd3 = whole_delta };
  compress = λ bytes. some (1 ∷ bytes);
  below_threshold = λ d n. true;
}

crates_laws : CratesLaws crates
unfolding is_valid_sha256
crates_laws = record {
  digest = λ bytes. refl;
  zipped = λ bytes. (1 ∷ bytes, refl, refl);
  patched = whole_delta_laws;
}

abbrev config : Config
config = record {
  base_url = bytes_of "s";
  requirements = record { max_size = none; allowed_types = []; require_auth = true };
  is_allowed = λ pubkey action. true;
}

abbrev server : Server ℕ
server = record {
  tokens_for = λ ms r. ms;
  crypto = plain;
  crates = crates;
  bindings = bindings;
  json = json;
  requests = letters;
  texts = texts;
  config = config;
  role = λ pubkey. admin;
  receiver = bytes_of "iroh://s";
}

abbrev blank : State
blank = record {
  backend = record { blobs = []; index = [] };
  database = Db.empty;
  lfs_version_db = none;
}

abbrev holding : State
holding = record blank {
  backend = record { blobs = (zeros, bytes_of "old") ∷ []; index = (zeros, 3) ∷ [] };
}

abbrev start : SharedState ℕ
start = record { stored = holding; lock_db = none; rate_limiter = none; seen = new 10 2 }

abbrev incoming : ℕ → Incoming
incoming now = record {
  bytes = bytes_of "d\n";
  broken = false;
  free = 0;
  checked_at = now;
  limited_at_ms = 0;
  cleaned_at_ms = 0;
  committed_at = now;
  stored_at = now;
  lock_id = [];
}

taken :
    verify_auth bindings plain deletion.auth deletion (bytes_of "iroh://s") 130
    ≡ verified (record { pubkey = ann; event_id = bytes_of "e" })
unfolding verify_auth verify_event base64url_decode verify_blossom_auth request_auth_binding
    blossom_rs.Access.starts_with blossom_rs.Prelude.parse_usize
taken = refl

verify_auth-verified_example :
    Verifies bindings plain deletion.auth deletion
      (bytes_of "iroh://s")
      130
      (record { pubkey = ann; event_id = bytes_of "e" })
verify_auth-verified_example =
    verify_auth-verified bindings plain deletion.auth deletion (bytes_of "iroh://s") 130
      (record { pubkey = ann; event_id = bytes_of "e" }) taken

handle_delete-Same_example :
    Same json texts crates.codec crates.compress
      (handle_delete json texts crates.codec crates.compress
        (λ pubkey. admin)
        holding
        zeros
        (some ann))
      (delete_as crates.codec crates.compress admin holding zeros ann)
handle_delete-Same_example =
    handle_delete-Same json texts crates.codec crates.compress (λ pubkey. admin) holding zeros ann

answered_ok :
    (handle_upload json texts crates config blank
      (bytes_of "new")
      (request Op.upload [] [])
      (some ann)
      10).1.0.status
    ≡ Status.ok
unfolding handle_upload get contains_key
answered_ok = refl

handle_upload-handle_get_example :
    let after =
      (handle_upload json texts crates config blank
        (bytes_of "new")
        (request Op.upload [] [])
        (some ann)
        10).0 in
    ((handle_get json crates after zeros).0.status ≡ Status.ok)
    × ((handle_get json crates after zeros).1 ≡ bytes_of "new")
handle_upload-handle_get_example =
    handle_upload-handle_get json crates texts config crates_laws blank (bytes_of "new")
      (request Op.upload [] []) (some ann) 10 answered_ok (unfold exists contains_key in refl) tt
      (unfold parse_lfs_from_request in λ l m. absurd (false≢true l))

handle_stream-guarded_example :
    let t = (handle_stream server start (incoming 130)).0 in
    SameData server start t
    ⊎ ((req : Request) × Carries server (incoming 130) req
        × Authorized server start t req (incoming 130))
handle_stream-guarded_example = handle_stream-guarded server start (incoming 130)

-- The first stream deletes the blob.
gone : get (handle_stream server start (incoming 130)).0.stored.backend.blobs zeros ≡ none
unfolding handle_stream get max_wire_header blossom_rs.Access.starts_with
    blossom_rs.Prelude.parse_usize contains_key new blossom_rs.HashMap.remove
gone = refl

carried : (now : ℕ) → Carries server (incoming now) deletion
unfolding read_header decode_line max_wire_header
carried now = (bytes_of "d\n", [], 2, refl, refl)

retaken :
    verify_auth bindings plain deletion.auth deletion (bytes_of "iroh://s") 131
    ≡ verified (record { pubkey = ann; event_id = bytes_of "e" })
unfolding verify_auth verify_event base64url_decode verify_blossom_auth request_auth_binding
    blossom_rs.Access.starts_with blossom_rs.Prelude.parse_usize
retaken = refl

handle_stream-once_example :
    let t = (handle_stream server start (incoming 130)).0 in
    let u = (handle_stream server t (incoming 131)).0 in
    SameData server start t ⊎ SameData server t u
handle_stream-once_example =
    handle_stream-once server start (incoming 130) (incoming 131) deletion deletion
      (record { pubkey = ann; event_id = bytes_of "e" })
      (record { pubkey = ann; event_id = bytes_of "e" }) (carried 130, λ h. cc, taken)
      (carried 131, λ h. cc, retaken) refl (omega arith)
