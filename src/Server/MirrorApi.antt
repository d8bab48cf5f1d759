-- ===== src/Server/MirrorApi.antt =====
-- handle_mirror of src/server/mod.rs, around the fetch of the blob.
pub mod Guarded
use blossom_rs.Prelude.{
  ℕ, ◌*◌, ◌≡◌, ◌⊎◌, refl, ap, sym, ◌∙◌, subst, true, Option, none, some, [], ◌==◌, nat_key,
  list_key, ltb, Text, bytes_of, Bool-cases, inl, inr, if◌then◌else◌,
}
use blossom_rs.Access.{mirror}
use blossom_rs.Auth.{NostrEvent, accepted, Crypto}
use blossom_rs.Auth.Claims.{verify_auth_event_claims}
use blossom_rs.Server.{State}
use blossom_rs.Server.Body.{BodyResult, read, failed, units, max_buffered_body_bytes}
use blossom_rs.Server.Entry.{entered, marked, entered-Entered, marked-Marked}
use blossom_rs.Server.Mirror.{Network, Fetched, fetch_mirror_blob}
use blossom_rs.Server.Nip96.{n96_storable, n96_store}
use blossom_rs.Server.Read.{detect_mime, octet_stream}
use blossom_rs.Server.Store.{
  StatusCode, bad_request, payload_too_large, service_unavailable, bad_gateway,
}
use blossom_rs.Server.Upload.{
  Config, ServerState, event_of, Request, Checked, pass, refuse, status_of_body,
}

abbrev pub max_mirror_size : Option ℕ → ℕ
max_mirror_size none = 256 * 1024 * 1024
max_mirror_size (some limit) = limit

-- `from_slice` reads the URL of the JSON body; `free` is what the budget of body buffers has left.
module _ {F : Type 0} (crypto : Crypto) (config : Config) (tokens_for : ℕ → F → ℕ)
    (sha256_hex : Text → Text) (net : Network) (from_slice : Text → Option Text) (free : ℕ) where
  abbrev pub mirror_stored :
      ServerState F → Request → NostrEvent → Text → Checked (Unit {0}) → ServerState F × StatusCode
  mirror_stored s req event bytes (refuse code) = (s, code)
  mirror_stored s req event bytes (pass u) =
      let (stored, code) =
        n96_store crypto config tokens_for sha256_hex s.stored event.pubkey (sha256_hex bytes) bytes
          octet_stream req.stored_at in
      (record s { stored = stored }, code)

  abbrev pub checks_of : ServerState F → NostrEvent → Text → Checked (Unit {0})
  checks_of s event bytes =
      n96_storable crypto config tokens_for sha256_hex s.stored.database event.pubkey
        (sha256_hex bytes) bytes (detect_mime bytes)

  abbrev pub mirror_fetched :
      ServerState F → Request → NostrEvent → Fetched → ServerState F × StatusCode
  mirror_fetched s req event (Fetched.failed e) = (s, bad_gateway)
  mirror_fetched s req event (Fetched.body bytes) =
      if bytes == []
      then (s, bad_request)
      else mirror_stored s req event bytes (checks_of s event bytes)

  -- From the permits of the fetch on.
  abbrev pub mirror_from : Text → Request → ServerState F → NostrEvent → ServerState F × StatusCode
  mirror_from url req s event =
      let size = max_mirror_size config.requirements.max_size in
      if ltb max_buffered_body_bytes size
      then (s, payload_too_large)
      else if ltb free (units size)
      then (s, service_unavailable)
      else mirror_fetched s req event (fetch_mirror_blob net url size).1

  -- A Blossom event names the hash of the URL, and an HTTP event that of the body.
  abbrev pub expected_hash : NostrEvent → Text → Text → Text
  expected_hash event url body = if event.kind == 27235 then sha256_hex body else sha256_hex url

  abbrev pub mirror_url :
      ServerState F → Request → NostrEvent → Text → Option Text → ServerState F × StatusCode
  mirror_url s req event body none = (s, bad_request)
  mirror_url s req event body (some url) =
      marked crypto config tokens_for (bytes_of "/mirror") (bytes_of "PUT") mirror s req event
        (expected_hash event url body) (mirror_from url req)

  abbrev pub mirror_body :
      Request → BodyResult → ServerState F → NostrEvent → ServerState F × StatusCode
  mirror_body req (failed e) s event = (s, status_of_body e)
  mirror_body req (read body) s event = mirror_url s req event body (from_slice body)

  unfoldable pub handle_mirror : ServerState F → Request → ServerState F × StatusCode
  unfolding entered marked fetch_mirror_blob n96_storable n96_store detect_mime
  handle_mirror s req =
      entered crypto config tokens_for (bytes_of "/mirror") (bytes_of "PUT") mirror s req req.auth
        (mirror_body req req.body)
