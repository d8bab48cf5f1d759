-- ===== src/Base64.antt =====
-- base64url_encode and base64url_decode of src/protocol.rs. Bytes are numbers below 256; where the
-- source joins shifted parts by `|`, the parts have no bit in common, and the join is their sum.
pub mod RoundTrip
mod Tests
use blossom_rs.Prelude.{
  ℕ, ◌+◌, ◌-◌, ◌*◌, ◌/◌, ◌%◌, ◌^◌, Bool, true, false, ◌==◌, ◌||◌, ◌&&◌, not, nat_key, Option, none,
  some, List, [], ◌∷◌, ◌++◌, map, length, ltb, leb, if◌then◌else◌, Text,
}

-- `CHARS[i]`.
pub char_at : ℕ → ℕ
char_at i =
    if ltb i 26
    then i + b'A'
    else if ltb i 52
    then i - 26 + b'a'
    else if ltb i 62
    then i - 52 + b'0'
    else if i == 62
    then b'+'
    else b'/'

-- The character of one group of six bits: `CHARS[((triple >> shift) & 0x3F)]`.
abbrev pub sextet : ℕ → ℕ → ℕ
sextet triple shift = char_at (triple / 2 ^ shift % 64)

abbrev pub joined : ℕ → ℕ → ℕ → ℕ
joined a b c = a * 2 ^ 16 + b * 2 ^ 8 + c

-- The loop over the chunks of three bytes.
pub encode_chunks : List ℕ → Text
encode_chunks [] = []
encode_chunks (a ∷ []) = sextet (joined a 0 0) 18 ∷ sextet (joined a 0 0) 12 ∷ []
encode_chunks (a ∷ b ∷ []) =
    sextet (joined a b 0) 18 ∷ sextet (joined a b 0) 12 ∷ sextet (joined a b 0) 6 ∷ []
encode_chunks (a ∷ b ∷ c ∷ rest) =
    sextet (joined a b c) 18
    ∷ sextet (joined a b c) 12
    ∷ sextet (joined a b c) 6
    ∷ sextet (joined a b c) 0
    ∷ encode_chunks rest

-- `replace`, one character for another.
abbrev pub to_url : ℕ → ℕ
to_url c = if c == b'+' then b'-' else if c == b'/' then b'_' else c

abbrev pub to_standard : ℕ → ℕ
to_standard c = if c == b'-' then b'+' else if c == b'_' then b'/' else c

pub base64url_encode : List ℕ → Text
unfolding encode_chunks char_at
base64url_encode bytes = map to_url (encode_chunks bytes)

pub data DecodeError : Type 0 where
  invalid_length : DecodeError
  invalid_character : DecodeError

pub data Decoded : Type 0 where
  ok : List ℕ → Decoded
  err : DecodeError → Decoded

-- The match on the bytes of the padded text.
pub value_of : ℕ → ℕ
value_of b =
    if leb b'A' b && leb b b'Z'
    then b - b'A'
    else if leb b'a' b && leb b b'z'
    then b - b'a' + 26
    else if leb b'0' b && leb b b'9'
    then b - b'0' + 52
    else if b == b'+'
    then 62
    else if b == b'/'
    then 63
    else if b == b'='
    then 0
    else 255

pub pad : Text → Option Text
pad s =
    let over = length s % 4 in
    if over == 2
    then some (s ++ b'=' ∷ b'=' ∷ [])
    else if over == 3
    then some (s ++ b'=' ∷ [])
    else if over == 0
    then some s
    else none

abbrev pub prepend : List ℕ → Decoded → Decoded
prepend out (err e) = err e
prepend out (ok rest) = ok (out ++ rest)

-- What one chunk pushes, by its last two characters and its 24 bits.
abbrev pub pushed : ℕ → ℕ → ℕ → List ℕ
pushed y z triple =
    (triple / 2 ^ 16 % 256) ∷ (if y == b'=' then [] else (triple / 2 ^ 8 % 256) ∷ [])
    ++ (if z == b'=' then [] else (triple % 256) ∷ [])

abbrev pub is_bad : ℕ → Bool
is_bad c = value_of c == 255

-- The loop over the chunks of four characters.
pub decode_chunks : Text → Decoded
unfolding value_of
decode_chunks (w ∷ x ∷ y ∷ z ∷ s) =
    let rest = decode_chunks s in
    let triple = value_of w * 2 ^ 18 + value_of x * 2 ^ 12 + value_of y * 2 ^ 6 + value_of z in
    if is_bad w || is_bad x || is_bad y || is_bad z
    then err invalid_character
    else prepend (pushed y z triple) rest
decode_chunks [] = ok []
decode_chunks (w ∷ []) = ok []
decode_chunks (w ∷ x ∷ []) = ok []
decode_chunks (w ∷ x ∷ y ∷ []) = ok []

abbrev pub decode_padded : Option Text → Decoded
decode_padded none = err invalid_length
decode_padded (some s) = decode_chunks s

unfoldable pub base64url_decode : Text → Decoded
unfolding pad decode_chunks
base64url_decode s = decode_padded (pad (map to_standard s))
