-- ===== src/Server/ApiTests.antt =====
-- The locks, NIP-96, the administration, the mirror and the media on concrete input.
use blossom_rs.Prelude.{
  ℕ, ◌≡◌, ◌⊎◌, ◌<◌, ◌*◌, ◌^◌, refl, true, false, Option, none, some, List, [], ◌∷◌, ◌++◌, Text,
  bytes_of, list_key, nat_key, pair_key, ◌==◌, arith, take, Bool,
}
use blossom_rs.Access.{Action, admin, RoleBasedAccess, HashSet, Codecs}
use blossom_rs.Auth.{NostrEvent, Crypto}
use blossom_rs.Db
use blossom_rs.Db.{UploadRecord}
use blossom_rs.HashMap.{get, remove}
use blossom_rs.Lfs.{LfsFileVersion, delta, MemoryLfsVersionDatabase, Codec}
use blossom_rs.ReplayCache
use blossom_rs.Server.{State}
use blossom_rs.Server.Body.{read}
use blossom_rs.Server.Calendar.{days_to_date, format_unix_timestamp}
use blossom_rs.Server.Calendar.Gregorian.{IsDateOf, days_to_date-IsDateOf}
use blossom_rs.Server.LockApi.{LockState, handle_unlock, unlock_path}
use blossom_rs.Server.LockApi.Guarded.{ForLocks, Unlocks, handle_unlock-guarded}
use blossom_rs.Server.Nip96.{page_of, handle_nip96_upload}
use blossom_rs.Server.Nip96.Stored.{StoredFor, handle_nip96_upload-guarded}
use blossom_rs.Server.Admin.{AdminState, handle_admin}
use blossom_rs.Server.AdminRequest.{put_whitelist}
use blossom_rs.Server.Admin.Guarded.{Handled, handle_admin-guarded}
use blossom_rs.Server.Mirror.{Network, v4}
use blossom_rs.Server.Store.{status_ok}
use blossom_rs.Server.MirrorApi.{handle_mirror}
use blossom_rs.Server.MirrorApi.Guarded.{Mirrored, handle_mirror-guarded}
use blossom_rs.Server.Media.{MediaOutcome, processed, handle_media_upload}
use blossom_rs.Server.Upload.{AuthHeader, event_of, Config, ServerState, Request}

-- The content stands for its own digest, and a key signs with itself.
abbrev plain : Crypto
plain = record {
  Digest = Text;
  to_json = λ pubkey created_at kind tags content. content;
  sha256 = λ bytes. bytes;
  hex_encode = λ digest. digest;
  verify = λ pubkey digest sig. sig == pubkey;
}

abbrev ann : Text
ann = bytes_of "ann"

abbrev event : Text → Text → Text → Text → NostrEvent
event action path method hash = record {
  id = bytes_of "e";
  pubkey = ann;
  created_at = 100;
  kind = 24242;
  tags =
      (bytes_of "t" ∷ action ∷ [])
      ∷ (bytes_of "expiration" ∷ bytes_of "200" ∷ [])
      ∷ (bytes_of "server" ∷ bytes_of "s" ∷ [])
      ∷ (bytes_of "u" ∷ (b's' ∷ path) ∷ [])
      ∷ (bytes_of "method" ∷ method ∷ [])
      ∷ (bytes_of "x" ∷ hash ∷ [])
      ∷ [];
  content = bytes_of "e";
  sig = ann;
}

abbrev config : Config
config = record {
  base_url = bytes_of "s/";
  requirements = record { max_size = some 9; allowed_types = []; require_auth = true };
  is_allowed = λ pubkey action. true;
}

abbrev per_second : ℕ → ℕ → ℕ
per_second ms r = ms

abbrev blank : State
blank = record {
  backend = record { blobs = []; index = [] };
  database = Db.empty;
  lfs_version_db = none;
}

abbrev server : ServerState ℕ
server = record { stored = blank; seen = ReplayCache.new 10 2; rate_limiter = none }

abbrev sending : NostrEvent → Text → Request
sending e bytes = record {
  auth = event_of e;
  body = read bytes;
  content_type = none;
  checked_at = 130;
  limited_at_ms = 130_000;
  cleaned_at_ms = 130_000;
  bound_at = 131;
  stored_at = 131;
}

-- Every digest is the same.
abbrev hashed : Text → Text
hashed bytes = bytes_of "h"

dated : format_unix_timestamp 951827696 ≡ bytes_of "2000-02-29T12:34:56Z"
unfolding format_unix_timestamp blossom_rs.Prelude.to_string
dated = refl

days_to_date-IsDateOf_example : IsDateOf 11016 (days_to_date 11016)
days_to_date-IsDateOf_example = days_to_date-IsDateOf 11016

abbrev locked : LockState
locked = record {
  lock_db = some (record {
    locks =
        (
          bytes_of "r:1",
          record {
            id = bytes_of "1";
            repo_id = bytes_of "r";
            path = bytes_of "p";
            pubkey = ann;
            locked_at = 5;
          },
        )
        ∷ [];
  });
  seen = ReplayCache.new 10 2;
}

abbrev unlocking : AuthHeader
unlocking =
    event_of
      (event (bytes_of "lock") (bytes_of "/lfs/r/locks/1/unlock") (bytes_of "POST") (bytes_of "h"))

handle_unlock-guarded_example :
    let t =
      (handle_unlock plain
        (bytes_of "s/")
        (λ pubkey. admin)
        locked
        unlocking
        (bytes_of "r")
        (bytes_of "1")
        true
        130).0 in
    (t.lock_db ≡ locked.lock_db)
    ⊎ ((e : NostrEvent) × ForLocks plain
          (bytes_of "s/")
          unlocking
          (unlock_path (bytes_of "r") (bytes_of "1"))
          (bytes_of "POST")
          130
          e
        × Unlocks plain
            (bytes_of "s/")
            locked.lock_db
            t.lock_db
            (bytes_of "r")
            (bytes_of "1")
            true
            admin
            e.pubkey)
handle_unlock-guarded_example =
    handle_unlock-guarded plain (bytes_of "s/") (λ pubkey. admin) locked unlocking (bytes_of "r")
      (bytes_of "1") true 130

abbrev upload_of : Text → UploadRecord
upload_of sha256 = record {
  sha256 = sha256;
  size = 1;
  mime_type = [];
  pubkey = ann;
  created_at = 1;
  phash = none;
}

abbrev uploads : List UploadRecord
uploads = upload_of (bytes_of "1") ∷ upload_of (bytes_of "2") ∷ upload_of (bytes_of "3") ∷ []

-- Page 65537 of 65536 files each is the first page again.
wrapped : page_of uploads 65537 65536 ≡ page_of uploads 1 65536
unfolding page_of
wrapped = refl

abbrev patched : LfsFileVersion
patched = record {
  repo_id = bytes_of "r";
  path = bytes_of "p";
  version = 2;
  sha256 = bytes_of "v";
  base_sha256 = some (bytes_of "b");
  storage = delta;
  delta_algo = none;
  original_size = 3;
  stored_size = 3;
  created_at = 7;
}

abbrev versions : MemoryLfsVersionDatabase
versions = record { versions = patched ∷ [] }

abbrev with_delta : State
with_delta = record {
  backend = record {
    blobs = (bytes_of "b", bytes_of "old") ∷ (bytes_of "v", bytes_of "new") ∷ [];
    index = (bytes_of "b", 3) ∷ (bytes_of "v", 3) ∷ [];
  };
  database = Db.empty;
  lfs_version_db = some versions;
}

abbrev codec : Codec
codec = record {
  decompress = λ bytes. none;
  xd3 = record {
    xd3_encode_memory = λ input src room. none;
    xd3_decode_memory = λ input src room. some input;
  };
}

abbrev posting : Request
posting =
    sending (event (bytes_of "upload") (bytes_of "/n96") (bytes_of "POST") (bytes_of "h"))
      (bytes_of "new")

posted : (handle_nip96_upload plain config per_second hashed server posting).1 ≡ status_ok
unfolding handle_nip96_upload blossom_rs.Prelude.parse_usize blossom_rs.ReplayCache.check_and_insert
    blossom_rs.HashMap.contains_key blossom_rs.ReplayCache.new get
posted = refl

handle_nip96_upload-guarded_example :
    let t = (handle_nip96_upload plain config per_second hashed server posting).0 in
    (t.stored ≡ server.stored) ⊎ StoredFor plain config per_second hashed server posting t.stored
handle_nip96_upload-guarded_example =
    handle_nip96_upload-guarded plain config per_second hashed server posting

abbrev codecs : Codecs
codecs = record { decode = λ t. none; encode = λ bytes. [] }

abbrev administered : AdminState
administered = record {
  stored = blank;
  role_based_access = none;
  whitelist = some [];
  stats = record { counters = [] };
  seen = ReplayCache.new 10 2;
}

abbrev anybody : Option RoleBasedAccess → Option HashSet → Text → Action → Bool
anybody acc listed pubkey action = true

abbrev administering : AuthHeader
administering =
    event_of (event (bytes_of "admin") (bytes_of "/admin/whitelist/bob") (bytes_of "PUT") [])

handle_admin-guarded_example :
    Handled codecs plain
      (bytes_of "s/")
      anybody
      administered
      administering
      (put_whitelist (bytes_of "bob"))
      130
      (handle_admin codecs plain
        (bytes_of "s/")
        anybody
        administered
        administering
        (put_whitelist (bytes_of "bob"))
        130)
handle_admin-guarded_example =
    handle_admin-guarded codecs plain (bytes_of "s/") anybody administered administering
      (put_whitelist (bytes_of "bob")) 130

-- Every URL is at a public address and holds the same bytes.
abbrev net : Network
net = record {
  Url = Text;
  parse = λ text. some text;
  scheme = λ url. bytes_of "http";
  username = λ url. [];
  password = λ url. none;
  host_str = λ url. some url;
  port_or_known_default = λ url. some 80;
  join = λ url text. none;
  lookup_host = λ host port. some (v4 8 8 8 8 ∷ []);
  send = λ url ip. some (record {
    is_redirection = false;
    location = none;
    is_success = true;
    content_length = none;
    chunks = some (bytes_of "new") ∷ [];
  });
}

abbrev mirroring : Request
mirroring =
    sending (event (bytes_of "upload") (bytes_of "/mirror") (bytes_of "PUT") (bytes_of "h"))
      (bytes_of "url")

mirrored :
    (handle_mirror plain config per_second hashed net (λ text. some text) 256 server mirroring).1
    ≡ status_ok
unfolding handle_mirror blossom_rs.Prelude.parse_usize blossom_rs.ReplayCache.check_and_insert
    blossom_rs.HashMap.contains_key blossom_rs.ReplayCache.new get
mirrored = refl

handle_mirror-guarded_example :
    let t =
      (handle_mirror plain config per_second hashed net
        (λ text. some text)
        256
        server
        mirroring).0 in
    (t.stored ≡ server.stored)
    ⊎ Mirrored plain config per_second hashed net (λ text. some text) 256 server mirroring t.stored
handle_mirror-guarded_example =
    handle_mirror-guarded plain config per_second hashed net (λ text. some text) 256 server
      mirroring

abbrev as_is : Text → Text → MediaOutcome
as_is bytes mime_type = processed (record { bytes = bytes; mime_type = mime_type; phash = some 7 })

abbrev filming : Request
filming =
    sending (event (bytes_of "upload") (bytes_of "/media") (bytes_of "PUT") (bytes_of "h"))
      (bytes_of "new")

filmed :
    (handle_media_upload plain config per_second hashed (some as_is) true server filming).1
    ≡ status_ok
unfolding handle_media_upload blossom_rs.Prelude.parse_usize blossom_rs.ReplayCache.check_and_insert
    blossom_rs.HashMap.contains_key blossom_rs.ReplayCache.new get
filmed = refl
