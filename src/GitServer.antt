-- ===== src/GitServer.antt =====
-- blossom-nip34/src/git_server/pktline.rs: the ref updates of a push. Texts are UTF-8 bytes.
pub mod Validation
pub mod Push
pub mod Fuel
mod Tests
use blossom_rs.Prelude.{
  ℕ, ◌+◌, ◌-◌, ◌*◌, ◌^◌, suc, zero, Bool, true, false, Option, none, some, List, [], ◌∷◌, ◌++◌,
  ◌==◌, ◌&&◌, ◌||◌, not, nat_key, list_key, ltb, leb, length, take, drop, if◌then◌else◌, Text,
  bytes_of, is_ascii_digit, reverse,
}
use blossom_rs.HashMap.{HashMap, get, insert}
use blossom_rs.Access.{all, starts_with, is_ascii_hexdigit, trim}
use blossom_rs.Auth.{NostrEvent}

abbrev pub null_oid : Text
null_oid = bytes_of "0000000000000000000000000000000000000000"

pub record RefUpdate : Type 0 where
  pub old_oid : Text
  pub new_oid : Text
  pub refname : Text
  pub capabilities : Option Text

unfoldable pub is_create : RefUpdate → Bool
is_create u = u.old_oid == null_oid

unfoldable pub is_delete : RefUpdate → Bool
is_delete u = u.new_oid == null_oid

unfoldable pub is_valid_sha1 : Text → Bool
is_valid_sha1 s = length s == 40 && all is_ascii_hexdigit s

pub data PktError : Type 0 where
  invalid_utf8 : PktError
  missing_old_oid : PktError
  missing_new_oid : PktError
  missing_refname : PktError
  invalid_old_oid : PktError
  invalid_new_oid : PktError
  not_refs : PktError
  length_not_utf8 : PktError
  length_not_hex : PktError
  too_short : PktError
  beyond_body : PktError
  out_of_fuel : PktError

pub data Parsed {ℓ} (A : Type ℓ) : Type ℓ where
  ok : A → Parsed A
  err : PktError → Parsed A

-- What stands before the first `c`, and after it if there is one.
unfoldable pub split_once : ℕ → Text → Text × Option Text
split_once c [] = ([], none)
split_once c (d ∷ s) =
    let (before, after) = split_once c s in if d == c then ([], some s) else (d ∷ before, after)

abbrev pub strip_newline : Text → Text
strip_newline s = elim (reverse s) [ [] ↦ s | d ∷ back ↦ if d == b'\n' then reverse back else s ]

abbrev capabilities_of : Option Text → Option Text
capabilities_of none = none
capabilities_of (some caps) = some (trim caps)

-- The checks of the three parts.
abbrev pub checked_update : Text → Text → Text → Parsed RefUpdate
checked_update old_oid new_oid ref_with_caps =
    let (refname, caps) = split_once 0 ref_with_caps in
    if not (is_valid_sha1 old_oid)
    then err invalid_old_oid
    else if not (is_valid_sha1 new_oid)
    then err invalid_new_oid
    else if not (starts_with refname (bytes_of "refs/"))
    then err not_refs
    else ok (record {
      old_oid = old_oid;
      new_oid = new_oid;
      refname = refname;
      capabilities = capabilities_of caps;
    })

abbrev pub with_ref : Text → Text × Option Text → Parsed RefUpdate
with_ref old_oid (new_oid, none) = err missing_refname
with_ref old_oid (new_oid, some ref_with_caps) = checked_update old_oid new_oid ref_with_caps

abbrev pub with_new : Text × Option Text → Parsed RefUpdate
with_new (old_oid, none) = err missing_new_oid
with_new (old_oid, some rest) = with_ref old_oid (split_once b' ' rest)

module _ (is_utf8 : Text → Bool) where
  unfoldable pub parse_ref_update : Text → Parsed RefUpdate
  unfolding split_once is_valid_sha1 starts_with trim
  parse_ref_update payload =
      let s = strip_newline payload in
      if is_utf8 s then with_new (split_once b' ' s) else err invalid_utf8

-- A hex digit's value.
abbrev digit_value : ℕ → Option ℕ
digit_value c =
    if is_ascii_digit c
    then some (c - b'0')
    else if leb b'a' c && leb c b'f'
    then some (c - b'a' + 10)
    else if leb b'A' c && leb c b'F'
    then some (c - b'A' + 10)
    else none

abbrev shifted : ℕ → Option ℕ → Option ℕ
shifted acc none = none
shifted acc (some d) = some (acc * 16 + d)

abbrev hex_digits : Text → ℕ → Option ℕ
hex_digits [] acc = some acc
hex_digits (c ∷ s) acc = elim (shifted acc (digit_value c)) [
  | none ↦ none
  | some acc' ↦ hex_digits s acc'
]

-- `u16::from_str_radix(_, 16)` of four bytes, which takes a plus sign in front.
abbrev pub from_str_radix_16 : Text → Option ℕ
from_str_radix_16 [] = none
from_str_radix_16 (c ∷ s) = if c == b'+' then hex_digits s 0 else hex_digits (c ∷ s) 0

abbrev second_part : Option Text → Text
second_part none = []
second_part (some s) = (split_once b' ' s).0

abbrev pub and_update : Parsed RefUpdate → Parsed (List RefUpdate) → Parsed (List RefUpdate)
and_update (err e) rest = err e
and_update (ok u) (err e) = err e
and_update (ok u) (ok us) = ok (u ∷ us)

module _ (is_utf8 : Text → Bool) where
  -- Whether a line starts with two object names.
  unfoldable pub is_update : Text → Bool
  unfolding split_once is_valid_sha1
  is_update payload =
      let (first, rest) = split_once b' ' payload in
      is_utf8 payload && is_valid_sha1 first && is_valid_sha1 (second_part rest)

  -- One round of the loop for a line of a length, before what is left.
  abbrev pub parse_line : ℕ → Text → Parsed (List RefUpdate) → Parsed (List RefUpdate)
  parse_line len body rest =
      let payload = take (len - 4) (drop 4 body) in
      if leb len 2
      then ok []
      else if ltb len 4
      then err too_short
      else if ltb (length body) len
      then err beyond_body
      else if is_update payload
      then and_update (parse_ref_update is_utf8 payload) rest
      else rest

  -- The loop of `parse_ref_updates` on what is left of the body.
  unfoldable pub parse_lines : ℕ → Text → Parsed (List RefUpdate)
  unfolding is_update parse_ref_update
  parse_lines zero body = if ltb (length body) 4 then ok [] else err out_of_fuel
  parse_lines (suc fuel) body =
      if ltb (length body) 4
      then ok []
      else if not (is_utf8 (take 4 body))
      then err length_not_utf8
      else elim (from_str_radix_16 (take 4 body)) [
        | none ↦ err length_not_hex
        | some len ↦ let rest = parse_lines fuel (drop len body) in parse_line len body rest
      ]

  -- Every line takes four bytes at least, so that the length of the body is fuel enough.
  unfoldable pub parse_ref_updates : Text → Parsed (List RefUpdate)
  unfolding parse_lines
  parse_ref_updates body = parse_lines (length body) body
