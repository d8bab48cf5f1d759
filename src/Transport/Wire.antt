-- ===== src/Transport/Wire.antt =====
-- src/transport/wire.rs, encode_request, encode_response and decode_line, and the loop of handle_stream
-- in src/transport/iroh_transport.rs that reads the header: frames are JSON lines.
use blossom_rs.Prelude.{
  ℕ, zero, suc, ◌+◌, ◌*◌, ◌≤◌, ◌≡◌, refl, ap, false, Option, none, some, [], ◌∷◌, ◌++◌, ◌==◌,
  nat_key, any, arith, take, length, length-append, if◌then◌else◌, Text, bytes_of,
}

abbrev pub newline : ℕ
newline = 10

-- `Result<T, String>`.
pub data Decoded (A : Type 0) : Type 0 where
  ok : A → Decoded A
  err : Text → Decoded A

-- `serde_json::to_vec` and `from_slice` at a type.
pub record Serde (A : Type 0) : Type 0 where
  pub to_vec : A → Text
  pub from_slice : Text → Decoded A

unfoldable pub max_wire_header : ℕ
max_wire_header = 16 * 1024

abbrev pub add_one : Option ℕ → Option ℕ
add_one none = none
add_one (some n) = some (suc n)

-- `position` of the newline.
unfoldable pub newline_position : Text → Option ℕ
newline_position [] = none
newline_position (b ∷ buf) =
    let rest = newline_position buf in if b == newline then some 0 else add_one rest

-- What the loop reads of a stream: the bytes up to the newline or the end, and what follows. It gives
-- up on the byte that takes the header past its limit.
unfoldable pub read_header : ℕ → Text → Option (Text × Text)
read_header zero [] = some ([], [])
read_header (suc n) [] = some ([], [])
read_header zero (b ∷ stream) = none
read_header (suc n) (b ∷ stream) =
    let rest = read_header n stream in
    if b == newline
    then some (b ∷ [], stream)
    else elim rest [ none ↦ none | some (header, body) ↦ some (b ∷ header, body) ]

module _ {A : Type 0} (serde : Serde A) where
  -- `encode_request` and `encode_response`, at the two types.
  unfoldable pub encode_line : A → Text
  encode_line value = serde.to_vec value ++ newline ∷ []

  abbrev pub parsed : ℕ → Decoded A → Decoded (A × ℕ)
  parsed n (err e) = err (bytes_of "parse JSON line: " ++ e)
  parsed n (ok value) = ok (value, n + 1)

  unfoldable pub decode_line : Text → Decoded (A × ℕ)
  unfolding newline_position
  decode_line buf = elim (newline_position buf) [
    | none ↦ err (bytes_of "no newline found in buffer")
    | some n ↦ parsed n (serde.from_slice (take n buf))
  ]

-- A text of one line.
abbrev pub IsLine : Text → Type 0
IsLine text = any (λ b. b == newline) text ≡ false

newline_position-line :
    (text rest : Text)
    → IsLine text
    → newline_position (text ++ newline ∷ rest) ≡ some (length text)
unfolding newline_position
newline_position-line [] rest h = refl
newline_position-line (b ∷ text) rest h = ground (arith, newline_position-line text rest)

take-append : (text rest : Text) → take (length text) (text ++ rest) ≡ text
take-append [] rest = refl
take-append (b ∷ text) rest = ap (λ t. b ∷ t) (take-append text rest)

read_header-line :
    (n : ℕ) (text body : Text)
    → IsLine text
    → length text + 1 ≤ n
    → read_header n (text ++ newline ∷ body) ≡ some (text ++ newline ∷ [], body)
unfolding read_header
read_header-line zero text body h le = absurd (omega (arith, le))
read_header-line (suc n) [] body h le = refl
read_header-line (suc n) (b ∷ text) body h le = ground (arith, read_header-line n text body)

append_line : (text rest : Text) → (text ++ newline ∷ []) ++ rest ≡ text ++ newline ∷ rest
append_line [] rest = refl
append_line (b ∷ text) rest = ap (λ t. b ∷ t) (append_line text rest)

module _ {A : Type 0} (serde : Serde A) where
  decode_line-line :
      (value : A) (rest : Text)
      → IsLine (serde.to_vec value)
      → serde.from_slice (serde.to_vec value) ≡ ok value
      → decode_line serde (serde.to_vec value ++ newline ∷ rest)
        ≡ ok (value, length (serde.to_vec value) + 1)
  unfolding decode_line
  decode_line-line value rest line back = ground (
    arith,
    newline_position-line (serde.to_vec value) rest line,
    take-append (serde.to_vec value) (newline ∷ rest),
    back,
  )

  -- A frame that serde writes on one line and reads back comes through: of a stream that starts with
  -- the frame and holds any bytes after it, the header loop takes the frame, if it is within the limit,
  -- and leaves these bytes; and the decoder gives the value and the length of the frame.
  decode_line-encode_line :
      (value : A) (body : Text)
      → IsLine (serde.to_vec value)
      → serde.from_slice (serde.to_vec value) ≡ ok value
      → length (encode_line serde value) ≤ max_wire_header
      → (read_header max_wire_header (encode_line serde value ++ body)
          ≡ some (encode_line serde value, body))
        × (decode_line serde (encode_line serde value)
            ≡ ok (value, length (encode_line serde value)))
  unfolding encode_line
  decode_line-encode_line value body line back le =
      let text = serde.to_vec value in
      let len : length (text ++ newline ∷ []) ≡ length text + 1 =
        length-append text (newline ∷ []) in
      (
        rw (append_line text body)
            (read_header-line max_wire_header text body line (omega (arith, len, le))),
        rw len (decode_line-line value [] line back),
      )
