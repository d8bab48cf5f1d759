-- ===== src/Server/Body.antt =====
-- read_body_limited of src/server/mod.rs: the body of a request, within its limit and within the
-- memory that all requests share.
use blossom_rs.Prelude.{
  ℕ, ◌+◌, ◌-◌, ◌*◌, ◌/◌, ◌^◌, nat_key, Bool, false, Option, none, some, ltb, leb, if◌then◌else◌,
  Text,
}

abbrev pub max_buffered_body_bytes : ℕ
max_buffered_body_bytes = 256 * 1024 * 1024

abbrev pub body_buffer_unit_bytes : ℕ
body_buffer_unit_bytes = 1024 * 1024

pub data BodyError : Type 0 where
  too_large : BodyError
  exhausted : BodyError

pub data BodyResult : Type 0 where
  read : Text → BodyResult
  failed : BodyError → BodyResult

abbrev max : ℕ → ℕ → ℕ
max a b = if ltb a b then b else a

abbrev or_else : Option ℕ → ℕ → ℕ
or_else none n = n
or_else (some m) n = m

-- `max(1).div_ceil(BODY_BUFFER_UNIT_BYTES)`.
abbrev pub units : ℕ → ℕ
units n = (max n 1 + (body_buffer_unit_bytes - 1)) / body_buffer_unit_bytes

abbrev pub reservation : ℕ → Option ℕ → Option ℕ → ℕ
reservation limit declared_len hinted_len = or_else declared_len (or_else hinted_len limit)

abbrev exceeds : Option ℕ → ℕ → Bool
exceeds none limit = false
exceeds (some n) limit = ltb limit n

abbrev taken : Option Text → BodyResult
taken none = failed too_large
taken (some bytes) = read bytes

-- `body limit` is what `to_bytes` gives of the body, and `free` the permits that the semaphore has.
unfoldable pub read_body_limited : (ℕ → Option Text) → ℕ → Option ℕ → Option ℕ → ℕ → BodyResult
read_body_limited body limit declared_len hinted_len free =
    let permits = units (reservation limit declared_len hinted_len) in
    if ltb max_buffered_body_bytes limit
    then failed too_large
    else if exceeds declared_len limit
    then failed too_large
    else if leb (2 ^ 32) permits
    then failed too_large
    else if ltb free permits
    then failed exhausted
    else taken (body limit)
