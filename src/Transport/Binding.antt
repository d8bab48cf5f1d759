-- ===== src/Transport/Binding.antt =====
-- src/transport/iroh_transport.rs: verify_auth, request_auth_binding, verify_lfs_auth_binding and
-- parse_lfs_from_request, which bind an event to a request and to the receiver.
pub mod Verified
pub mod Context
use blossom_rs.Prelude.{
  ℕ, Bool, true, false, Option, none, some, List, [], ◌∷◌, ◌==◌, nat_key, list_key, not, ◌&&◌, ◌||◌,
  if◌then◌else◌, keep, length, drop, Text, bytes_of,
}
use blossom_rs.Access.{starts_with}
use blossom_rs.Auth.{
  NostrEvent, AuthError, AuthResult, accepted, rejected, Crypto, is_named, named,
  verify_blossom_auth,
}
use blossom_rs.Base64.{base64url_decode, Decoded}
use blossom_rs.Lfs.{LfsContext}
use blossom_rs.Transport.{Op, Request}

-- serde's and the crates': `None` of `event_from_slice` is an error; the tuples are those of
-- `request_auth_binding`.
pub record Bindings : Type 0 where
  pub event_from_slice : Text → Option NostrEvent
  pub sha256_hex : Text → Text
  pub lock_create_json : Text → Text → Text
  pub lock_delete_json : Text → Text → Bool → Text
  pub lock_verify_json : Text → Text → ℕ → Text

pub data BindingError : Type 0 where
  invalid_encoding : BindingError
  invalid_event : BindingError
  not_blossom : BindingError
  auth : AuthError → BindingError
  other_server : BindingError
  other_request : BindingError
  malformed_tag : Text → BindingError
  other_context : BindingError

-- `Result<(), String>`, and the steps after `?`.
pub data BindingResult : Type 0 where
  bound : BindingResult
  unbound : BindingError → BindingResult

infixr 20 ◌then_check◌
abbrev pub ◌then_check◌ : BindingResult → BindingResult → BindingResult
bound then_check next = next
unbound e then_check next = unbound e

abbrev pub bound_if : Bool → BindingError → BindingResult
bound_if true e = bound
bound_if false e = unbound e

abbrev pub of_auth : AuthResult → BindingResult
of_auth accepted = bound
of_auth (rejected e) = unbound (auth e)

abbrev pub non_empty : Text → Option Text
non_empty [] = none
non_empty (c ∷ s) = some (c ∷ s)

unfoldable pub parse_lfs_from_request : Request → LfsContext
parse_lfs_from_request req = record {
  is_lfs = not (req.lfs_path == []) || not (req.lfs_repo == []);
  path = non_empty req.lfs_path;
  repo = non_empty req.lfs_repo;
  base = non_empty req.lfs_base;
  is_manifest = req.lfs_manifest;
}

-- `usize::from`.
abbrev pub one_if : Bool → ℕ
one_if true = 1
one_if false = 0

abbrev pub same_option : Option Text → Option Text → Bool
same_option none none = true
same_option none (some v) = false
same_option (some u) none = false
same_option (some u) (some v) = u == v

-- `unique`: the value of the one tag of the name, if there is any tag.
pub data Unique : Type 0 where
  found : Option Text → Unique
  malformed : Unique

abbrev pub unique_of : List (List Text) → Unique
unique_of [] = found none
unique_of ((n ∷ v ∷ []) ∷ []) = found (some v)
unique_of ([] ∷ []) = malformed
unique_of ((n ∷ []) ∷ []) = malformed
unique_of ((n ∷ v ∷ w ∷ vs) ∷ []) = malformed
unique_of (t ∷ u ∷ ts) = malformed

unfoldable pub unique : List (List Text) → Text → Unique
unique tags name = unique_of (named name tags)

abbrev pub matches : Text → Unique → Option Text → BindingResult
matches name malformed expected = unbound (malformed_tag name)
matches name (found v) expected = bound_if (same_option v expected) other_context

abbrev pub is_lfs_tag : List Text → Bool
is_lfs_tag [] = false
is_lfs_tag (n ∷ []) = false
is_lfs_tag (n ∷ v ∷ vs) = n == bytes_of "t" && v == bytes_of "lfs"

abbrev pub is_manifest_tag : List Text → Bool
is_manifest_tag tag = tag == bytes_of "manifest" ∷ []

abbrev pub lfs_tags_match : List (List Text) → Request → Bool
lfs_tags_match tags req =
    length (keep is_lfs_tag tags) == one_if (not (req.lfs_path == []) || not (req.lfs_repo == []))

abbrev pub manifest_tags_match : List (List Text) → Request → Bool
manifest_tags_match tags req = length (keep is_manifest_tag tags) == one_if req.lfs_manifest

unfoldable pub verify_lfs_auth_binding : NostrEvent → Request → BindingResult
unfolding unique
verify_lfs_auth_binding event req =
    let tags = event.tags in
    bound_if (lfs_tags_match tags req) other_context
    then_check matches (bytes_of "path") (unique tags (bytes_of "path")) (non_empty req.lfs_path)
    then_check matches (bytes_of "repo") (unique tags (bytes_of "repo")) (non_empty req.lfs_repo)
    then_check matches (bytes_of "base") (unique tags (bytes_of "base")) (non_empty req.lfs_base)
    then_check bound_if (manifest_tags_match tags req) other_context

abbrev pub is_x_pair : List Text → Bool
is_x_pair [] = false
is_x_pair (n ∷ []) = false
is_x_pair (n ∷ v ∷ []) = n == bytes_of "x"
is_x_pair (n ∷ v ∷ w ∷ vs) = false

-- There is one tag, a pair, and its value is the given one.
abbrev pub is_only : List (List Text) → Text → Bool
is_only [] expected = false
is_only ((n ∷ v ∷ []) ∷ []) expected = v == expected
is_only ([] ∷ []) expected = false
is_only ((n ∷ []) ∷ []) expected = false
is_only ((n ∷ v ∷ w ∷ vs) ∷ []) expected = false
is_only (t ∷ u ∷ ts) expected = false

abbrev pub action_of : Op → Text
action_of Op.upload = bytes_of "upload"
action_of Op.delete = bytes_of "delete"
action_of Op.get = bytes_of "get"
action_of Op.list = bytes_of "get"
action_of Op.head = bytes_of "get"
action_of Op.lock_create = bytes_of "lock"
action_of Op.lock_delete = bytes_of "lock"
action_of Op.lock_list = bytes_of "lock"
action_of Op.lock_verify = bytes_of "lock"

pub record VerifiedAuth : Type 0 where
  pub pubkey : Text
  pub event_id : Text

pub data Verification : Type 0 where
  verified : VerifiedAuth → Verification
  failed : BindingError → Verification

abbrev pub scheme : Text
scheme = bytes_of "Nostr "

-- `strip_prefix("Nostr ").unwrap_or(auth_header)`.
abbrev pub without_scheme : Text → Text
without_scheme header = if starts_with header scheme then drop (length scheme) header else header

module _ (b : Bindings) where
  abbrev pub binding_for : Op → Request → Option Text
  binding_for Op.upload req = some req.sha256
  binding_for Op.delete req = some req.sha256
  binding_for Op.lock_create req =
      some (b.sha256_hex (b.lock_create_json req.repo_id req.lock_path))
  binding_for Op.lock_delete req =
      some (b.sha256_hex (b.lock_delete_json req.repo_id req.lock_id req.force))
  binding_for Op.lock_verify req =
      some (b.sha256_hex (b.lock_verify_json req.repo_id req.cursor req.limit))
  binding_for Op.get req = none
  binding_for Op.head req = none
  binding_for Op.list req = none
  binding_for Op.lock_list req = none

  unfoldable pub request_auth_binding : Request → Option Text
  request_auth_binding req = binding_for req.op req

  -- The checks of the tags `server` and `x`.
  abbrev pub bound_to : NostrEvent → Text → Option Text → BindingResult
  bound_to event receiver none = bound
  bound_to event receiver (some expected) =
      bound_if (is_only (named (bytes_of "server") event.tags) receiver) other_server
      then_check bound_if (is_only (keep is_x_pair event.tags) expected) other_request

  abbrev pub lfs_bound : Op → NostrEvent → Request → BindingResult
  lfs_bound Op.upload event req = verify_lfs_auth_binding event req
  lfs_bound Op.get event req = bound
  lfs_bound Op.head event req = bound
  lfs_bound Op.delete event req = bound
  lfs_bound Op.list event req = bound
  lfs_bound Op.lock_create event req = bound
  lfs_bound Op.lock_delete event req = bound
  lfs_bound Op.lock_list event req = bound
  lfs_bound Op.lock_verify event req = bound

  module _ (crypto : Crypto) where
    -- The checks of an event that is read.
    unfoldable pub verify_event : NostrEvent → Request → Text → ℕ → BindingResult
    unfolding verify_blossom_auth request_auth_binding verify_lfs_auth_binding
    verify_event event req receiver now =
        bound_if (event.kind == 24242) not_blossom
        then_check of_auth (verify_blossom_auth crypto event (some (action_of req.op)) now)
        then_check bound_to event receiver (request_auth_binding req)
        then_check lfs_bound req.op event req

    abbrev pub verification : NostrEvent → BindingResult → Verification
    verification event (unbound e) = failed e
    verification event bound = verified (record { pubkey = event.pubkey; event_id = event.id })

    abbrev pub verify_read : Option NostrEvent → Request → Text → ℕ → Verification
    verify_read none req receiver now = failed invalid_event
    verify_read (some event) req receiver now =
        verification event (verify_event event req receiver now)

    abbrev pub verify_decoded : Decoded → Request → Text → ℕ → Verification
    verify_decoded (Decoded.err e) req receiver now = failed invalid_encoding
    verify_decoded (Decoded.ok json_bytes) req receiver now =
        verify_read (b.event_from_slice json_bytes) req receiver now

    unfoldable pub verify_auth : Text → Request → Text → ℕ → Verification
    unfolding verify_event base64url_decode
    verify_auth auth_header req receiver now =
        verify_decoded (base64url_decode (without_scheme auth_header)) req receiver now
