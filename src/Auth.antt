-- ===== src/Auth.antt =====
-- src/auth/mod.rs: the check of a Blossom authorization event and its binding to a request.
-- Texts are lists of bytes. JSON, SHA-256, hex and the BIP-340 check are the crates', in a record.
pub mod Bound
pub mod Request
pub mod Claims
pub mod Single
pub mod Window
mod Tests
use blossom_rs.Prelude.{
  ℕ, ◌+◌, ◌-◌, ◌^◌, min, Bool, true, false, Option, none, some, List, [], ◌∷◌, ◌==◌, nat_key,
  list_key, ltb, not, ◌&&◌, ◌||◌, if◌then◌else◌, keep, any, length, map, Text, bytes_of,
  parse_usize,
}

pub record NostrEvent : Type 0 where
  pub id : Text
  pub pubkey : Text
  pub created_at : ℕ
  pub kind : ℕ
  pub tags : List (List Text)
  pub content : Text
  pub sig : Text

pub data AuthError : Type 0 where
  wrong_kind : ℕ → AuthError
  expired : AuthError
  future_dated : AuthError
  missing_tag : Text → AuthError
  duplicate_tag : Text → AuthError
  malformed_tag : Text → AuthError
  wrong_action : AuthError
  wrong_server : AuthError
  wrong_resource : AuthError
  invalid_event_id : AuthError
  invalid_signature : AuthError
  replay : AuthError

-- `Result<(), AuthError>`, and the steps after `?`.
pub data AuthResult : Type 0 where
  accepted : AuthResult
  rejected : AuthError → AuthResult

infixr 20 ◌and_then◌
abbrev pub ◌and_then◌ : AuthResult → AuthResult → AuthResult
accepted and_then next = next
rejected e and_then next = rejected e

abbrev pub require : Bool → AuthError → AuthResult
require true e = accepted
require false e = rejected e

-- What the crates compute of an event: the JSON text of `[0, pubkey, created_at, kind, tags,
-- content]`, its SHA-256, the hex text, and `Signer::verify` on key, digest and signature.
pub record Crypto : Type 1 where
  pub Digest : Type 0
  pub to_json : Text → ℕ → ℕ → List (List Text) → Text → Text
  pub sha256 : Text → Digest
  pub hex_encode : Digest → Text
  pub verify : Text → Digest → Text → Bool

abbrev u64_max : ℕ
u64_max = 2 ^ 64 - 1

abbrev pub saturating_add : ℕ → ℕ → ℕ
saturating_add a b = min (a + b) u64_max

abbrev pub is_named : Text → List Text → Bool
is_named name [] = false
is_named name (v ∷ vs) = v == name

abbrev pub named : Text → List (List Text) → List (List Text)
named name tags = keep (is_named name) tags

-- The value of the one tag among them, which has a name and a value.
abbrev pub Found : Type 0
Found = Option Text × AuthError

abbrev tag_value : Text → List Text → Found
tag_value name (n ∷ v ∷ []) = (some v, malformed_tag name)
tag_value name [] = (none, malformed_tag name)
tag_value name (n ∷ []) = (none, malformed_tag name)
tag_value name (n ∷ v ∷ w ∷ vs) = (none, malformed_tag name)

abbrev single_value : Text → List (List Text) → Found
single_value name [] = (none, missing_tag name)
single_value name (t ∷ []) = tag_value name t
single_value name (t ∷ u ∷ ts) = (none, duplicate_tag name)

pub unique_value : NostrEvent → Text → Found
unique_value event name = single_value name (named name event.tags)

abbrev expect_value : Found → Text → AuthError → AuthResult
expect_value (none, e) expected mismatch = rejected e
expect_value (some v, e) expected mismatch = require (v == expected) mismatch

pub verify_unique_tag : NostrEvent → Text → Text → AuthError → AuthResult
unfolding unique_value
verify_unique_tag event name expected mismatch =
    expect_value (unique_value event name) expected mismatch

abbrev within : ℕ → ℕ → ℕ → AuthResult
within now created_at exp =
    require (not (ltb exp now || ltb (saturating_add created_at 120) exp)) expired

abbrev expires : Found → ℕ → ℕ → AuthResult
expires (none, e) now created_at = rejected e
expires (some v, e) now created_at = elim (parse_usize v) [
  | none ↦ rejected (malformed_tag (bytes_of "expiration"))
  | some exp ↦ within now created_at exp
]

pub verify_expiration : NostrEvent → ℕ → AuthResult
unfolding unique_value
verify_expiration event now =
    expires (unique_value event (bytes_of "expiration")) now event.created_at

abbrev is_action : Text → List Text → Bool
is_action expected [] = false
is_action expected (n ∷ []) = false
is_action expected (n ∷ v ∷ []) = n == bytes_of "t" && v == expected
is_action expected (n ∷ v ∷ w ∷ vs) = false

abbrev pub actions : Text → List (List Text) → ℕ
actions expected tags = length (keep (is_action expected) tags)

pub verify_action : NostrEvent → Option Text → AuthResult
verify_action event none = accepted
verify_action event (some expected) =
    if actions expected event.tags == 1
    then accepted
    else rejected (
        if actions expected event.tags == 0
        then (if any (is_named (bytes_of "t")) event.tags
            then wrong_action
            else missing_tag (bytes_of "t"))
        else duplicate_tag (bytes_of "t"))

module _ (crypto : Crypto) where
  pub compute_event_id : NostrEvent → crypto.Digest
  compute_event_id event =
      crypto.sha256
        (crypto.to_json event.pubkey event.created_at event.kind event.tags event.content)

  pub verify_identity : NostrEvent → AuthResult
  unfolding compute_event_id
  verify_identity event =
      require (crypto.hex_encode (compute_event_id event) == event.id) invalid_event_id
      and_then require (crypto.verify event.pubkey (compute_event_id event) event.sig)
          invalid_signature

  unfoldable pub verify_blossom_auth : NostrEvent → Option Text → ℕ → AuthResult
  unfolding verify_expiration verify_action verify_identity
  verify_blossom_auth event expected_action now =
      require (event.kind == 24242) (wrong_kind event.kind)
      and_then require (not (ltb (saturating_add now 30) event.created_at)) future_dated
      and_then require (not (ltb 60 (now - event.created_at))) expired
      and_then verify_expiration event now
      and_then verify_action event expected_action
      and_then verify_identity event

abbrev pub to_ascii_uppercase : Text → Text
to_ascii_uppercase t = map (λ c. if ltb 96 c && ltb c 123 then c - 32 else c) t

module _ (crypto : Crypto) where
  abbrev verify_hash : NostrEvent → Option Text → AuthResult
  verify_hash event none = accepted
  verify_hash event (some hash) = verify_unique_tag event (bytes_of "x") hash wrong_resource

  unfoldable pub verify_blossom_auth_bound :
      NostrEvent → Text → Text → Text → Text → Option Text → ℕ → AuthResult
  unfolding verify_blossom_auth verify_unique_tag
  verify_blossom_auth_bound event action server url method hash now =
      verify_blossom_auth crypto event (some action) now
      and_then verify_unique_tag event (bytes_of "server") server wrong_server
      and_then verify_unique_tag event (bytes_of "u") url wrong_resource
      and_then verify_unique_tag event (bytes_of "method") (to_ascii_uppercase method) wrong_action
      and_then verify_hash event hash
