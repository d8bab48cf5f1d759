-- ===== src/Server/Upload/Tests.antt =====
-- Uploads on concrete input.
use blossom_rs.Prelude.{
  ℕ, ◌≡◌, ◌≢◌, refl, true, false, Option, none, some, [], ◌∷◌, Text, bytes_of, list_key, nat_key,
  pair_key, ◌==◌, arith,
}
use blossom_rs.HashMap.{get, insert, contains_key}
use blossom_rs.ReplayCache
use blossom_rs.RateLimit
use blossom_rs.RateLimit.{RateLimiter}
use blossom_rs.Auth.{NostrEvent, Crypto, verify_blossom_auth_bound}
use blossom_rs.Auth.Claims.{server_of}
use blossom_rs.Auth.Single.{verify_auth_event}
use blossom_rs.Db
use blossom_rs.Db.{record_upload, check_quota}
use blossom_rs.Server.{insert_with_hash}
use blossom_rs.Server.Body.{read}
use blossom_rs.Server.Encode.{Crates}
use blossom_rs.Server.Store.{status_ok, payload_too_large, store}
use blossom_rs.Server.Upload.{
  AuthHeader, absent, event_of, Config, ServerState, Request, handle_upload, storable, admitted,
  mime_allowed,
}
use blossom_rs.Server.Upload.Accepted.{Outcome, handle_upload-accepted}
use blossom_rs.Server.Upload.Refused.{handle_upload-refused}

-- The content stands for its own digest, and a key signs with itself.
abbrev plain : Crypto
plain = record {
  Digest = Text;
  to_json = λ pubkey created_at kind tags content. content;
  sha256 = λ bytes. bytes;
  hex_encode = λ digest. digest;
  verify = λ pubkey digest sig. sig == pubkey;
}

abbrev crates : Crates
crates = record {
  sha256_hex = λ bytes. bytes;
  codec = record {
    decompress = λ bytes. none;
    xd3 = record {
      xd3_encode_memory = λ input src room. none;
      xd3_decode_memory = λ input src room. none;
    };
  };
  compress = λ bytes. none;
  below_threshold = λ d n. true;
}

abbrev ann : Text
ann = bytes_of "ann"

abbrev event : NostrEvent
event = record {
  id = bytes_of "e";
  pubkey = ann;
  created_at = 100;
  kind = 24242;
  tags =
      (bytes_of "t" ∷ bytes_of "upload" ∷ [])
      ∷ (bytes_of "expiration" ∷ bytes_of "200" ∷ [])
      ∷ (bytes_of "server" ∷ bytes_of "s" ∷ [])
      ∷ (bytes_of "u" ∷ bytes_of "s/upload" ∷ [])
      ∷ (bytes_of "method" ∷ bytes_of "PUT" ∷ [])
      ∷ (bytes_of "x" ∷ bytes_of "cat" ∷ [])
      ∷ [];
  content = bytes_of "e";
  sig = ann;
}

abbrev config : Config
config = record {
  base_url = bytes_of "s/";
  requirements = record {
    max_size = some 4;
    allowed_types = bytes_of " Text/plain" ∷ [];
    require_auth = true;
  };
  is_allowed = λ pubkey action. pubkey == ann;
}

abbrev per_second : ℕ → ℕ → ℕ
per_second ms r = ms

abbrev server : ServerState ℕ
server = record {
  stored = record {
    backend = record { blobs = []; index = [] };
    database = Db.empty;
    lfs_version_db = none;
  };
  seen = ReplayCache.new 10 2;
  rate_limiter = some (RateLimit.new (record { max_tokens = 3; refill_rate = 1 }));
}

abbrev put : AuthHeader → Text → Request
put auth bytes = record {
  auth = auth;
  body = read bytes;
  content_type = some (bytes_of "TEXT/PLAIN; charset=utf-8");
  checked_at = 130;
  limited_at_ms = 130_000;
  cleaned_at_ms = 130_000;
  bound_at = 131;
  stored_at = 131;
}

taken :
    (handle_upload per_second plain crates config server (put (event_of event) (bytes_of "cat"))).1
    ≡ status_ok
unfolding handle_upload admitted verify_auth_event storable store record_upload mime_allowed
    insert_with_hash check_quota blossom_rs.Access.trim server_of verify_blossom_auth_bound
    contains_key get insert blossom_rs.Prelude.parse_usize blossom_rs.ReplayCache.check_and_insert
    blossom_rs.ReplayCache.new blossom_rs.RateLimit.check blossom_rs.RateLimit.new
    blossom_rs.RateLimit.admit blossom_rs.RateLimit.consume blossom_rs.RateLimit.refill
    blossom_rs.RateLimit.bucket_for
taken = refl

handle_upload-accepted_example :
    Outcome per_second plain crates config server
      (put (event_of event) (bytes_of "cat"))
      (handle_upload per_second plain crates config server
        (put (event_of event) (bytes_of "cat"))).0.stored
handle_upload-accepted_example =
    handle_upload-accepted per_second plain crates config server
      (put (event_of event) (bytes_of "cat")) taken

abbrev lax : Config
lax = record config {
  requirements = record { max_size = some 4; allowed_types = []; require_auth = false };
}

too_long :
    (handle_upload per_second plain crates lax server (put absent (bytes_of "horse"))).1
    ≡ payload_too_large
unfolding handle_upload admitted storable blossom_rs.RateLimit.check blossom_rs.RateLimit.new
    blossom_rs.RateLimit.admit blossom_rs.RateLimit.consume blossom_rs.RateLimit.refill
    blossom_rs.RateLimit.bucket_for contains_key get insert
too_long = refl

handle_upload-refused_example :
    (handle_upload per_second plain crates lax server (put absent (bytes_of "horse"))).0.stored
    ≡ server.stored
handle_upload-refused_example =
    handle_upload-refused per_second plain crates lax server (put absent (bytes_of "horse"))
      (λ h. ground (arith, h, too_long)) (λ h. ground (arith, h, too_long))
