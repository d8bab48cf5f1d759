-- ===== src/Server/Remove/Tests.antt =====
-- A request to delete, on concrete input.
use blossom_rs.Prelude.{
  ◌≡◌, ◌⊎◌, refl, none, [], ◌∷◌, Text, Option, bytes_of, list_key, nat_key, pair_key, ◌==◌,
  if◌then◌else◌,
}
use blossom_rs.Access.{Role, admin, denied}
use blossom_rs.Auth.{NostrEvent, Crypto, verify_blossom_auth_bound}
use blossom_rs.Auth.Claims.{server_of}
use blossom_rs.Auth.Single.{verify_auth_event}
use blossom_rs.HashMap.{get, contains_key}
use blossom_rs.ReplayCache
use blossom_rs.ReplayCache.{check_and_insert}
use blossom_rs.Db
use blossom_rs.Lfs.{Codec}
use blossom_rs.Server.{delete_as, deleted}
use blossom_rs.Server.Read.{is_valid_sha256}
use blossom_rs.Server.Upload.{event_of, ServerState}
use blossom_rs.Server.Remove.{
  IsAuthorized, answered, handle_delete_blob, handle_delete_blob-guarded,
}

-- The content stands for its own digest, and a key signs with itself.
abbrev plain : Crypto
plain = record {
  Digest = Text;
  to_json = λ pubkey created_at kind tags content. content;
  sha256 = λ bytes. bytes;
  hex_encode = λ digest. digest;
  verify = λ pubkey digest sig. sig == pubkey;
}

abbrev codec : Codec
codec = record {
  decompress = λ bytes. none;
  xd3 = record {
    xd3_encode_memory = λ input src room. none;
    xd3_decode_memory = λ input src room. none;
  };
}

abbrev raw_only : Text → Option Text
raw_only bytes = none

abbrev ann : Text
ann = bytes_of "ann"

abbrev zeros : Text
zeros = bytes_of "0000000000000000000000000000000000000000000000000000000000000000"

abbrev event : NostrEvent
event = record {
  id = bytes_of "e";
  pubkey = ann;
  created_at = 100;
  kind = 24242;
  tags =
      (bytes_of "t" ∷ bytes_of "delete" ∷ [])
      ∷ (bytes_of "expiration" ∷ bytes_of "200" ∷ [])
      ∷ (bytes_of "server" ∷ bytes_of "s" ∷ [])
      ∷ (bytes_of "u" ∷ (b's' ∷ b'/' ∷ zeros) ∷ [])
      ∷ (bytes_of "method" ∷ bytes_of "DELETE" ∷ [])
      ∷ (bytes_of "x" ∷ zeros ∷ [])
      ∷ [];
  content = bytes_of "e";
  sig = ann;
}

abbrev server : ServerState Text
server = record {
  stored = record {
    backend = record { blobs = (zeros, bytes_of "x") ∷ []; index = (zeros, 1) ∷ [] };
    database = record Db.empty {
      uploads =
          (
            zeros,
            record {
              sha256 = zeros;
              size = 1;
              mime_type = bytes_of "text/plain";
              pubkey = ann;
              created_at = 1;
              phash = none;
            },
          )
          ∷ [];
    };
    lfs_version_db = none;
  };
  seen = ReplayCache.new 10 2;
  rate_limiter = none;
}

abbrev role : Text → Role
role pubkey = if pubkey == ann then admin else denied

gone :
    (handle_delete_blob plain codec raw_only
      (bytes_of "s/")
      role
      server
      (event_of event)
      zeros
      130).1
    ≡ answered deleted
unfolding handle_delete_blob is_valid_sha256 verify_auth_event delete_as server_of
    verify_blossom_auth_bound contains_key get blossom_rs.Prelude.parse_usize check_and_insert
    blossom_rs.ReplayCache.new blossom_rs.Db.delete_upload
gone = refl

handle_delete_blob-guarded_example :
    let after =
      (handle_delete_blob plain codec raw_only
        (bytes_of "s/")
        role
        server
        (event_of event)
        zeros
        130).0 in
    (after.stored ≡ server.stored)
    ⊎ IsAuthorized plain codec raw_only (bytes_of "s/") role server (event_of event) zeros 130
handle_delete_blob-guarded_example =
    handle_delete_blob-guarded plain codec raw_only (bytes_of "s/") role server (event_of event)
      zeros 130
