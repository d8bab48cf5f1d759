-- ===== src/Transport/Stream.antt =====
-- src/transport/iroh_transport.rs: handle_stream, one request and its response. One stream at a time;
-- the machine's words have 64 bits, so that a length of a body is a `usize`.
pub mod Gates
pub mod Guarded
pub mod Once
use blossom_rs.Prelude.{
  ℕ, ◌+◌, ◌*◌, Bool, true, false, Option, none, some, List, [], ◌∷◌, ◌++◌, ◌==◌, nat_key, list_key,
  not, ◌&&◌, ltb, leb, length, take, if◌then◌else◌, Text, bytes_of, to_string,
}
use blossom_rs.Access.{Role}
use blossom_rs.Auth.{Crypto}
use blossom_rs.Server.{State}
use blossom_rs.Server.Encode.{Crates}
use blossom_rs.Server.Read.{is_valid_sha256}
use blossom_rs.Server.Upload.{Config}
use blossom_rs.Locks.{MemoryLockDatabase}
use blossom_rs.Transport.{Op, Request, Response, Status}
use blossom_rs.Transport.Wire.{
  Decoded, Serde, max_wire_header, newline_position, read_header, decode_line,
}
use blossom_rs.Transport.Replay.{ReplayCache, commit}
use blossom_rs.Transport.Binding.{
  Bindings, VerifiedAuth, Verification, verified, failed, request_auth_binding, verify_auth,
}
use blossom_rs.Transport.Gate.{
  Texts, SharedState, GateResult, passes, gate_error, Reservation, reserved, refused, try_reserve,
  preflight_upload, preflight_mutation,
}
use blossom_rs.Transport.Handlers.{
  Json, Reply, reply, handle_get, handle_head, handle_upload, handle_delete, handle_list,
}
use blossom_rs.Transport.LockHandlers.{
  handle_lock_create, handle_lock_delete, handle_lock_list, handle_lock_verify,
}

abbrev pub default_max_iroh_body : ℕ
default_max_iroh_body = 256 * 1024 * 1024

abbrev pub max_in_flight_iroh_body_bytes : ℕ
max_in_flight_iroh_body_bytes = 256 * 1024 * 1024

-- A stream: the bytes that the peer sends, whether reading breaks after them, the bytes that are left
-- of the budget, the clock at each use, and the id for a lock.
pub record Incoming : Type 0 where
  pub bytes : Text
  pub broken : Bool
  pub free : ℕ
  pub checked_at : ℕ
  pub limited_at_ms : ℕ
  pub cleaned_at_ms : ℕ
  pub committed_at : ℕ
  pub stored_at : ℕ
  pub lock_id : Text

-- What is fixed while the server runs, with the crates' parts.
pub record Server (F : Type 0) : Type 1 where
  pub tokens_for : ℕ → F → ℕ
  pub crypto : Crypto
  pub crates : Crates
  pub bindings : Bindings
  pub json : Json
  pub requests : Serde Request
  pub texts : Texts
  pub config : Config
  pub role : Text → Role
  pub receiver : Text

abbrev pub names_blob : Op → Bool
names_blob Op.get = true
names_blob Op.head = true
names_blob Op.upload = true
names_blob Op.delete = true
names_blob Op.list = false
names_blob Op.lock_create = false
names_blob Op.lock_delete = false
names_blob Op.lock_list = false
names_blob Op.lock_verify = false

abbrev pub key_of : Option VerifiedAuth → Option Text
key_of none = none
key_of (some auth) = some auth.pubkey

abbrev pub max_body : Option ℕ → ℕ
max_body none = default_max_iroh_body
max_body (some limit) = limit

abbrev pub is_cut : Option ℕ → Bool → Bool
is_cut none broken = broken
is_cut (some n) broken = false

module _ {F : Type 0} (server : Server F) where
  -- The next state and the response, if one is written.
  abbrev pub Outcome : Type 0
  Outcome = SharedState F × Option (Reply server.json)

  abbrev pub reject : SharedState F → Status → Text → Outcome
  reject s status message = (s, some (reply server.json status message))

  abbrev pub stored_in : SharedState F → State × Reply server.json → Outcome
  stored_in s (stored, answer) = (record s { stored = stored }, some answer)

  abbrev pub locked_in : SharedState F → Option MemoryLockDatabase × Reply server.json → Outcome
  locked_in s (db, answer) = (record s { lock_db = db }, some answer)

  -- "Dispatch by operation."
  unfoldable pub dispatch : Op → SharedState F → Request → Option Text → Text → Incoming → Outcome
  unfolding handle_upload handle_delete handle_lock_create handle_lock_delete
  dispatch Op.get s req auth_pubkey body i =
      (s, some (handle_get server.json server.crates s.stored req.sha256))
  dispatch Op.head s req auth_pubkey body i =
      (s, some (handle_head server.json s.stored req.sha256))
  dispatch Op.upload s req auth_pubkey body i = stored_in s (
      handle_upload server.json server.texts server.crates server.config s.stored body req
        auth_pubkey i.stored_at)
  dispatch Op.delete s req auth_pubkey body i = stored_in s (
      handle_delete server.json server.texts server.crates.codec server.crates.compress server.role
        s.stored req.sha256 auth_pubkey)
  dispatch Op.list s req auth_pubkey body i =
      (s, some (handle_list server.json server.texts s.stored server.config.base_url req.pubkey))
  dispatch Op.lock_create s req auth_pubkey body i = locked_in s (
      handle_lock_create server.json server.texts server.config.is_allowed s.lock_db req auth_pubkey
        i.lock_id i.stored_at)
  dispatch Op.lock_delete s req auth_pubkey body i =
      locked_in s
        (handle_lock_delete server.json server.texts server.role s.lock_db req auth_pubkey)
  dispatch Op.lock_list s req auth_pubkey body i =
      (s, some (handle_lock_list server.json server.texts s.lock_db req))
  dispatch Op.lock_verify s req auth_pubkey body i =
      (s, some (handle_lock_verify server.json server.texts s.lock_db req auth_pubkey))

  abbrev pub used_before : SharedState F → Outcome
  used_before s =
      reject s Status.unauthorized (bytes_of "authorization event has already been used")

  -- `read_exact`, and the dispatch of an upload.
  abbrev pub read_body : SharedState F → Request → Option VerifiedAuth → Text → Incoming → Outcome
  read_body s req auth rest i =
      if ltb (length rest) req.body_len
      then (s, none)
      else dispatch Op.upload s req (key_of auth) (take req.body_len rest) i

  abbrev pub after_commit :
      SharedState F → Request → VerifiedAuth → Text → Incoming → ReplayCache × Bool → Outcome
  after_commit s req auth rest i (seen, false) = used_before (record s { seen = seen })
  after_commit s req auth rest i (seen, true) =
      read_body (record s { seen = seen }) req (some auth) rest i

  abbrev pub upload_committed :
      SharedState F → Request → Option VerifiedAuth → Text → Incoming → Outcome
  upload_committed s req none rest i = read_body s req none rest i
  upload_committed s req (some auth) rest i =
      after_commit s req auth rest i (commit s.seen auth.event_id auth.pubkey i.committed_at)

  abbrev pub upload_reserved :
      SharedState F → Request → Option VerifiedAuth → Text → Incoming → Reservation → Outcome
  upload_reserved s req auth rest i (refused message) = reject s Status.error message
  upload_reserved s req auth rest i reserved = upload_committed s req auth rest i

  abbrev pub upload_gated :
      Request → Option VerifiedAuth → Text → Incoming → SharedState F × GateResult → Outcome
  upload_gated req auth rest i (s, gate_error status message) = reject s status message
  upload_gated req auth rest i (s, passes) =
      upload_reserved s req auth rest i
        (try_reserve max_in_flight_iroh_body_bytes i.free req.body_len)

  -- The arm of an upload.
  unfoldable pub upload_stream :
      SharedState F → Request → Option VerifiedAuth → Text → Incoming → Outcome
  unfolding preflight_upload try_reserve commit dispatch
  upload_stream s req auth rest i =
      let limit = max_body server.config.requirements.max_size in
      if req.body_len == 0
      then reject s Status.error (bytes_of "empty body")
      else if ltb limit req.body_len
      then reject s Status.error
          (bytes_of "body exceeds maximum of " ++ to_string limit ++ bytes_of " bytes")
      else upload_gated req auth rest i (
          preflight_upload server.tokens_for server.texts server.config server.role s req auth
            i.limited_at_ms i.cleaned_at_ms)

  abbrev pub mutation_committed :
      SharedState F → Request → VerifiedAuth → Incoming → ReplayCache × Bool → Outcome
  mutation_committed s req auth i (seen, false) = used_before (record s { seen = seen })
  mutation_committed s req auth i (seen, true) =
      dispatch req.op (record s { seen = seen }) req (some auth.pubkey) [] i

  abbrev pub mutation_gated :
      Request → VerifiedAuth → Incoming → SharedState F × GateResult → Outcome
  mutation_gated req auth i (s, gate_error status message) = reject s status message
  mutation_gated req auth i (s, passes) =
      mutation_committed s req auth i (commit s.seen auth.event_id auth.pubkey i.committed_at)

  abbrev pub bound_stream :
      SharedState F → Request → Option VerifiedAuth → Incoming → Option Text → Outcome
  bound_stream s req auth i none = dispatch req.op s req (key_of auth) [] i
  bound_stream s req none i (some binding) = reject s Status.unauthorized (bytes_of "auth required")
  bound_stream s req (some auth) i (some binding) = mutation_gated req auth i (
      preflight_mutation server.tokens_for server.texts server.config server.role s req auth
        i.limited_at_ms i.cleaned_at_ms)

  abbrev pub stream_of :
      Op → SharedState F → Request → Option VerifiedAuth → Text → Incoming → Outcome
  stream_of Op.upload s req auth rest i = upload_stream s req auth rest i
  stream_of Op.get s req auth rest i =
      bound_stream s req auth i (request_auth_binding server.bindings req)
  stream_of Op.head s req auth rest i =
      bound_stream s req auth i (request_auth_binding server.bindings req)
  stream_of Op.delete s req auth rest i =
      bound_stream s req auth i (request_auth_binding server.bindings req)
  stream_of Op.list s req auth rest i =
      bound_stream s req auth i (request_auth_binding server.bindings req)
  stream_of Op.lock_create s req auth rest i =
      bound_stream s req auth i (request_auth_binding server.bindings req)
  stream_of Op.lock_delete s req auth rest i =
      bound_stream s req auth i (request_auth_binding server.bindings req)
  stream_of Op.lock_list s req auth rest i =
      bound_stream s req auth i (request_auth_binding server.bindings req)
  stream_of Op.lock_verify s req auth rest i =
      bound_stream s req auth i (request_auth_binding server.bindings req)

  abbrev pub verified_stream : SharedState F → Request → Text → Incoming → Verification → Outcome
  verified_stream s req rest i (failed e) = reject s Status.unauthorized (server.texts.of_binding e)
  verified_stream s req rest i (verified auth) = stream_of req.op s req (some auth) rest i

  -- From the request on that the header holds.
  unfoldable pub on_request : SharedState F → Request → Text → Incoming → Outcome
  unfolding upload_stream verify_auth is_valid_sha256 preflight_mutation request_auth_binding
  on_request s req rest i =
      if names_blob req.op && not (is_valid_sha256 req.sha256)
      then reject s Status.error (bytes_of "invalid SHA256 hash")
      else if req.auth == []
      then stream_of req.op s req none rest i
      else verified_stream s req rest i
          (verify_auth server.bindings server.crypto req.auth req server.receiver i.checked_at)

  abbrev pub on_line : SharedState F → Text → Incoming → Decoded (Request × ℕ) → Outcome
  on_line s rest i (Decoded.err message) = reject s Status.error message
  on_line s rest i (Decoded.ok (req, consumed)) = on_request s req rest i

  abbrev pub on_header : SharedState F → Incoming → Option (Text × Text) → Outcome
  on_header s i none = (s, none)
  on_header s i (some (header, rest)) =
      if is_cut (newline_position header) i.broken
      then (s, none)
      else on_line s rest i (decode_line server.requests header)

  unfoldable pub handle_stream : SharedState F → Incoming → Outcome
  unfolding on_request read_header decode_line
  handle_stream s i = on_header s i (read_header max_wire_header i.bytes)
