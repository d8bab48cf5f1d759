-- ===== src/Auth/Tests.antt =====
-- The check of authorization events on concrete input.
use blossom_rs.Prelude.{
  ◌++◌, ◌⊎◌, ◌≢◌, if◌then◌else◌, ℕ, ◌≡◌, ◌↔◌, refl, Bool, true, false, Option, none, some, List, [],
  ◌∷◌, ◌==◌, nat_key, list_key, arith, Text, bytes_of,
}
use blossom_rs.HashMap.{get, contains_key}
use blossom_rs.ReplayCache.{ReplayCache, new, check_and_insert}
use blossom_rs.Auth.{
  NostrEvent, accepted, rejected, missing_tag, Crypto, verify_blossom_auth_bound,
  to_ascii_uppercase,
}
use blossom_rs.Auth.Bound.{OnlyTag}
use blossom_rs.Auth.Request.{Current, HashTag, verify_blossom_auth_bound-accepted}
use blossom_rs.Auth.Claims.{
  server_of, has_body, BlossomBound, HttpBound, verify_auth_event_claims,
  verify_auth_event_claims-accepted,
}
use blossom_rs.Auth.Single.{verify_auth_event, verify_auth_event-once}

-- The content stands for its own digest, and a key signs with itself.
abbrev plain : Crypto
plain = record {
  Digest = Text;
  to_json = λ pubkey created_at kind tags content. content;
  sha256 = λ bytes. bytes;
  hex_encode = λ digest. digest;
  verify = λ pubkey digest sig. sig == pubkey;
}

abbrev ann : Text
ann = bytes_of "ann"

abbrev put : Text
put = bytes_of "put"

abbrev url : Text
url = bytes_of "s/upload"

abbrev event : NostrEvent
event = record {
  id = bytes_of "e";
  pubkey = ann;
  created_at = 100;
  kind = 24242;
  tags =
      (bytes_of "t" ∷ bytes_of "upload" ∷ [])
      ∷ (bytes_of "expiration" ∷ bytes_of "200" ∷ [])
      ∷ (bytes_of "server" ∷ bytes_of "s" ∷ [])
      ∷ (bytes_of "u" ∷ url ∷ [])
      ∷ (bytes_of "method" ∷ bytes_of "PUT" ∷ [])
      ∷ [];
  content = bytes_of "e";
  sig = ann;
}

taken :
    verify_blossom_auth_bound plain event (bytes_of "upload") (bytes_of "s") url put none 130
    ≡ accepted
unfolding verify_blossom_auth_bound blossom_rs.Prelude.parse_usize
taken = refl

no_hash :
    verify_blossom_auth_bound plain event (bytes_of "upload") (bytes_of "s") url put (some ann) 130
    ≡ rejected (missing_tag (bytes_of "x"))
unfolding verify_blossom_auth_bound blossom_rs.Prelude.parse_usize
no_hash = refl

verify_blossom_auth_bound-accepted_example :
    (verify_blossom_auth_bound plain event (bytes_of "upload") (bytes_of "s") url put none 130
      ≡ accepted)
    ↔ (Current plain event (bytes_of "upload") 130
        × (OnlyTag event (bytes_of "server") (bytes_of "s")
            × (OnlyTag event (bytes_of "u") url
                × (OnlyTag event (bytes_of "method") (to_ascii_uppercase put)
                    × HashTag event none))))
verify_blossom_auth_bound-accepted_example =
    verify_blossom_auth_bound-accepted plain event (bytes_of "upload") (bytes_of "s") url put none
      130

abbrev base : Text
base = bytes_of "s/"

verify_auth_event_claims-accepted_example :
    (verify_auth_event_claims plain event (bytes_of "upload") base (bytes_of "/upload") put none 130
      ≡ accepted)
    ↔ (BlossomBound plain event
          (bytes_of "upload")
          (server_of base)
          (server_of base ++ bytes_of "/upload")
          put
          none
          130
        ⊎ HttpBound plain event
            (server_of base ++ bytes_of "/upload")
            put
            (if has_body put then none else none)
            130)
verify_auth_event_claims-accepted_example =
    verify_auth_event_claims-accepted plain event (bytes_of "upload") base (bytes_of "/upload") put
      none 130

claims_hold :
    verify_auth_event_claims plain event (bytes_of "upload") base (bytes_of "/upload") put none 130
    ≡ accepted
unfolding verify_auth_event_claims verify_blossom_auth_bound server_of
    blossom_rs.Prelude.parse_usize
claims_hold = refl

first_use :
    (verify_auth_event plain
      (new 10 2)
      event
      (bytes_of "upload")
      base
      (bytes_of "/upload")
      put
      none
      130).1
    ≡ accepted
unfolding verify_auth_event new contains_key server_of verify_blossom_auth_bound
    blossom_rs.Prelude.parse_usize check_and_insert
first_use = refl

abbrev used : ReplayCache
used =
    (verify_auth_event plain (new 10 2) event (bytes_of "upload") base (bytes_of "/upload") put none
      130).0

-- After another event.
abbrev used_then : ReplayCache
used_then = (check_and_insert used (bytes_of "bob") (bytes_of "other") 135 255).0

entry_stands : get used_then.entries event.id ≡ get used.entries event.id
unfolding verify_auth_event new contains_key server_of verify_blossom_auth_bound
    blossom_rs.Prelude.parse_usize check_and_insert get blossom_rs.HashMap.insert
entry_stands = refl

verify_auth_event-once_example :
    (verify_auth_event plain used_then event
      (bytes_of "upload")
      base
      (bytes_of "/upload")
      put
      none
      140).1
    ≢ accepted
verify_auth_event-once_example =
    verify_auth_event-once plain (new 10 2) used_then event (bytes_of "upload") base
      (bytes_of "/upload") put none 130 (bytes_of "upload") base (bytes_of "/upload") put none 140
      (omega arith) first_use entry_stands
