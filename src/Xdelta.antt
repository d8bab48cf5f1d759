-- ===== src/Xdelta.antt =====
-- src/xdelta3.rs: the calls of the xdelta3 library, whose two functions are parameters. Lengths are
-- cast to `c_uint`, and the sums of the buffer's length wrap at 2^32, as in a release build.
use blossom_rs.Prelude.{
  ℕ, zero, suc, [], ◌∷◌, ◌+◌, ◌*◌, ◌%◌, ◌^◌, ◌≤◌, ◌<◌, ◌≡◌, ◌∙◌, ap, Option, some, nat_key,
  list_key, length, take, arith, Text,
}

-- `xd3_encode_memory` and `xd3_decode_memory`: the input, the source and the room for the output;
-- `none` is a result that is not 0.
pub record Xd3 : Type 0 where
  pub xd3_encode_memory : Text → Text → ℕ → Option Text
  pub xd3_decode_memory : Text → Text → ℕ → Option Text

abbrev pub c_uint : ℕ → ℕ
c_uint n = n % 2 ^ 32

abbrev pub estimated_out_len : ℕ → ℕ → ℕ
estimated_out_len input_len src_len = c_uint ((c_uint input_len + c_uint src_len) * 2)

-- What the library sees of a slice.
abbrev pub seen_of : Text → Text
seen_of bytes = take (c_uint (length bytes)) bytes

module _ (xd3 : Xd3) where
  unfoldable pub encode : Text → Text → Option Text
  encode input src =
      xd3.xd3_encode_memory (seen_of input) (seen_of src)
        (estimated_out_len (length input) (length src))

  unfoldable pub decode : Text → Text → Option Text
  decode input src =
      xd3.xd3_decode_memory (seen_of input) (seen_of src)
        (estimated_out_len (length input) (length src))

-- What the library documents: it writes no more than it has room for, and decoding is the reverse of
-- encoding, where the room is enough.
pub record Xd3Laws (xd3 : Xd3) : Type 0 where
  pub encoded_room :
      (input src d : Text) (room : ℕ)
      → xd3.xd3_encode_memory input src room ≡ some d
      → length d ≤ room
  pub decoded_room :
      (d src bytes : Text) (room : ℕ)
      → xd3.xd3_decode_memory d src room ≡ some bytes
      → length bytes ≤ room
  pub reverse :
      (input src d : Text) (room room' : ℕ)
      → length input < 2 ^ 32
      → length src < 2 ^ 32
      → xd3.xd3_encode_memory input src room ≡ some d
      → length input ≤ room'
      → xd3.xd3_decode_memory d src room' ≡ some input

-- The bytes and the source are below 2^32 in length, and `decode` gives the library room for the bytes.
pub record Fits (bytes src d : Text) : Type 0 where
  pub short : length bytes < 2 ^ 32
  pub source_short : length src < 2 ^ 32
  pub room : length bytes ≤ estimated_out_len (length d) (length src)

take-length : (bytes : Text) (n : ℕ) → n ≡ length bytes → take n bytes ≡ bytes
take-length [] n h = ground (arith, h)
take-length (b ∷ bytes) zero h = absurd (ground (arith, h))
take-length (b ∷ bytes) (suc n) h = ap (λ t. b ∷ t) (take-length bytes n (omega (arith, h)))

seen-all : (bytes : Text) → length bytes < 2 ^ 32 → seen_of bytes ≡ bytes
seen-all bytes h = take-length bytes (c_uint (length bytes)) (omega (arith, h))

module _ (xd3 : Xd3) (laws : Xd3Laws xd3) where
  pub decode-encode :
      (bytes src d : Text)
      → Fits bytes src d
      → encode xd3 bytes src ≡ some d
      → decode xd3 d src ≡ some bytes
  unfolding encode decode
  decode-encode bytes src d fits h =
      let made =
        laws.encoded_room (seen_of bytes) (seen_of src) d
          (estimated_out_len (length bytes) (length src)) h in
      let small : length d < 2 ^ 32 = omega (arith, made) in
      let b = seen-all bytes fits.short in
      rw (decode, seen-all d small)
        (laws.reverse (seen_of bytes) (seen_of src) d _ _ (rw b fits.short)
            (rw (seen-all src fits.source_short) fits.source_short) h (rw b fits.room)
          ∙ ap (λ t. some t) b)

  -- What is decoded is at most twice as long as the delta and its source together.
  decode-bounded :
      (bytes src d : Text)
      → decode xd3 d src ≡ some bytes
      → length bytes ≤ estimated_out_len (length d) (length src)
  unfolding decode
  decode-bounded bytes src d h = laws.decoded_room (seen_of d) (seen_of src) bytes _ h
