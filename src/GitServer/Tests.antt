-- ===== src/GitServer/Tests.antt =====
-- A push on concrete input.
use blossom_rs.Prelude.{
  ◌≡◌, ◌≢◌, refl, true, false, none, some, List, [], ◌∷◌, ◌++◌, ◌==◌, Text, bytes_of, list_key,
  nat_key, if◌then◌else◌, ℕ, Bool,
}
use blossom_rs.HashMap.{get, insert}
use blossom_rs.Auth.{NostrEvent}
use blossom_rs.GitServer.{
  RefUpdate, null_oid, ok, err, too_short, beyond_body, out_of_fuel, parse_ref_updates, is_delete,
  is_create,
}
use blossom_rs.GitServer.Validation.{Nostr, repo_state, checked, mismatch, validate_push}
use blossom_rs.GitServer.Fuel.{parse_ref_updates-Returns}
use blossom_rs.GitServer.Push.{Taken, validate_push-accepted}

abbrev ann : Text
ann = bytes_of "ann"

abbrev ones : Text
ones = bytes_of "1111111111111111111111111111111111111111"

abbrev main : Text
main = bytes_of "refs/heads/main"

abbrev any_text : Text → Bool
any_text t = true

one_line :
    parse_ref_updates any_text
      (bytes_of "0066" ++ null_oid ++ b' ' ∷ ones ++ b' ' ∷ main ++ bytes_of "\n0000")
    ≡ ok (record { old_oid = null_oid; new_oid = ones; refname = main; capabilities = none } ∷ [])
unfolding parse_ref_updates blossom_rs.Access.is_ascii_hexdigit
one_line = refl

cut_short : parse_ref_updates any_text (bytes_of "0005") ≡ err beyond_body
unfolding parse_ref_updates blossom_rs.Access.is_ascii_hexdigit
cut_short = refl

no_length : parse_ref_updates any_text (bytes_of "0003") ≡ err too_short
unfolding parse_ref_updates blossom_rs.Access.is_ascii_hexdigit
no_length = refl

parse_ref_updates-Returns_example :
    parse_ref_updates any_text (bytes_of "0005x0003") ≢ err out_of_fuel
parse_ref_updates-Returns_example = parse_ref_updates-Returns any_text (bytes_of "0005x0003")

abbrev event : ℕ → List (List Text) → NostrEvent
event kind tags = record {
  id = bytes_of "i";
  pubkey = ann;
  created_at = 1;
  kind = kind;
  tags = tags;
  content = [];
  sig = [];
}

abbrev nostr : Nostr
nostr = record {
  from_hex = λ s. some s;
  is_maintainers = λ t. false;
  query = λ f.
      if f.kind == repo_state
      then some (event f.kind ((main ∷ ones ∷ []) ∷ []) ∷ [])
      else some (event f.kind [] ∷ []);
}

abbrev one_push : Text → List RefUpdate
one_push oid =
    record { old_oid = null_oid; new_oid = oid; refname = main; capabilities = none } ∷ []

no_error : validate_push nostr (one_push ones) ann (bytes_of "r") ≡ checked []
unfolding validate_push is_delete is_create get insert
no_error = refl

other_oid :
    validate_push nostr (one_push (bytes_of "2")) ann (bytes_of "r")
    ≡ checked ((main, mismatch) ∷ [])
unfolding validate_push is_delete is_create get insert
other_oid = refl

validate_push-accepted_example : Taken nostr (one_push ones) ann (bytes_of "r")
validate_push-accepted_example =
    validate_push-accepted nostr (one_push ones) ann (bytes_of "r") no_error
