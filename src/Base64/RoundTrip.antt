-- ===== src/Base64/RoundTrip.antt =====
-- What base64url_decode gives of what base64url_encode gives.
use blossom_rs.Prelude.{
  ℕ, ◌+◌, ◌*◌, ◌/◌, ◌%◌, ◌^◌, ◌<◌, ◌≡◌, refl, ap, ◌∙◌, false, ◌==◌, nat_key, Option, none, some,
  List, [], ◌∷◌, ◌++◌, map, arith, Text,
}
use blossom_rs.Base64.{
  char_at, sextet, joined, encode_chunks, to_url, to_standard, base64url_encode, ok, value_of, pad,
  prepend, pushed, decode_chunks, decode_padded, base64url_decode,
}

value_of-char_at : (i : ℕ) → i < 64 → value_of (char_at i) ≡ i
unfolding value_of char_at
value_of-char_at i h = ground arith

restored : (i : ℕ) → i < 64 → to_standard (to_url (char_at i)) ≡ char_at i
unfolding char_at
restored i h = ground arith

plain_char : (i : ℕ) → i < 64 → (char_at i == b'=') ≡ false
unfolding char_at
plain_char i h = ground arith

-- Numbers that are bytes.
abbrev pub AreBytes : List ℕ → Type 0
AreBytes [] = Unit
AreBytes (b ∷ bs) = (b < 256) × AreBytes bs

small : (n : ℕ) → n % 64 < 64
small n = omega arith

sextet-restored : (t shift : ℕ) → to_standard (to_url (sextet t shift)) ≡ sextet t shift
sextet-restored t shift = restored (t / 2 ^ shift % 64) (small _)

value_of-sextet : (t shift : ℕ) → value_of (sextet t shift) ≡ t / 2 ^ shift % 64
value_of-sextet t shift = value_of-char_at (t / 2 ^ shift % 64) (small _)

plain_sextet : (t shift : ℕ) → (sextet t shift == b'=') ≡ false
plain_sextet t shift = plain_char (t / 2 ^ shift % 64) (small _)

encode_chunks-restored :
    (bs : List ℕ) → map to_standard (map to_url (encode_chunks bs)) ≡ encode_chunks bs
unfolding encode_chunks
encode_chunks-restored [] = refl
encode_chunks-restored (a ∷ []) =
    rw (sextet-restored (joined a 0 0) 18, sextet-restored (joined a 0 0) 12) refl
encode_chunks-restored (a ∷ b ∷ []) =
    rw
      (
        sextet-restored (joined a b 0) 18,
        sextet-restored (joined a b 0) 12,
        sextet-restored (joined a b 0) 6,
      )
      refl
encode_chunks-restored (a ∷ b ∷ c ∷ rest) =
    rw
      (
        sextet-restored (joined a b c) 18,
        sextet-restored (joined a b c) 12,
        sextet-restored (joined a b c) 6,
        sextet-restored (joined a b c) 0,
        encode_chunks-restored rest,
      )
      refl

abbrev four : ℕ → ℕ → ℕ → ℕ → Option Text → Option Text
four w x y z none = none
four w x y z (some s) = some (w ∷ x ∷ y ∷ z ∷ s)

pad-four : (w x y z : ℕ) (s : Text) → pad (w ∷ x ∷ y ∷ z ∷ s) ≡ four w x y z (pad s)
unfolding pad
pad-four w x y z s = ground arith

-- The bits of a chunk come back.
split_up :
    (a b c : ℕ)
    → a < 256
    → b < 256
    → c < 256
    → let t = joined a b c in
      t / 2 ^ 18 % 64 * 2 ^ 18 + t / 2 ^ 12 % 64 * 2 ^ 12 + t / 2 ^ 6 % 64 * 2 ^ 6 + t / 2 ^ 0 % 64
      ≡ t
split_up a b c ha hb hc = omega arith

first_byte : (a b c : ℕ) → a < 256 → b < 256 → c < 256 → joined a b c / 2 ^ 16 % 256 ≡ a
first_byte a b c ha hb hc = omega arith

second_byte : (a b c : ℕ) → a < 256 → b < 256 → c < 256 → joined a b c / 2 ^ 8 % 256 ≡ b
second_byte a b c ha hb hc = omega arith

third_byte : (a b c : ℕ) → a < 256 → b < 256 → c < 256 → joined a b c % 256 ≡ c
third_byte a b c ha hb hc = omega arith

good_sextet : (t shift : ℕ) → (value_of (sextet t shift) == 255) ≡ false
good_sextet t shift = rw (value_of-sextet t shift) (ground (arith, small (t / 2 ^ shift)))

-- A chunk of four whose characters are those of 24 bits.
decode-whole :
    (t : ℕ) (s : Text)
    → decode_chunks (sextet t 18 ∷ sextet t 12 ∷ sextet t 6 ∷ sextet t 0 ∷ s)
      ≡ prepend
          (pushed (sextet t 6) (sextet t 0) (
            t / 2 ^ 18 % 64 * 2 ^ 18
            + t / 2 ^ 12 % 64 * 2 ^ 12
            + t / 2 ^ 6 % 64 * 2 ^ 6
            + t / 2 ^ 0 % 64))
          (decode_chunks s)
unfolding decode_chunks
decode-whole t s =
    rw
      (
        good_sextet t 18,
        good_sextet t 12,
        good_sextet t 6,
        good_sextet t 0,
        value_of-sextet t 18,
        value_of-sextet t 12,
        value_of-sextet t 6,
        value_of-sextet t 0,
      )
      refl

decode-three :
    (a b c : ℕ) (s : Text)
    → a < 256
    → b < 256
    → c < 256
    → let t = joined a b c in
      decode_chunks (sextet t 18 ∷ sextet t 12 ∷ sextet t 6 ∷ sextet t 0 ∷ s)
      ≡ prepend (a ∷ b ∷ c ∷ []) (decode_chunks s)
decode-three a b c s ha hb hc =
    let t = joined a b c in
    decode-whole t s
    ∙ rw
        (
          split_up a b c ha hb hc,
          plain_sextet t 6,
          plain_sextet t 0,
          first_byte a b c ha hb hc,
          second_byte a b c ha hb hc,
          third_byte a b c ha hb hc,
        )
        refl

decode-one :
    (a : ℕ)
    → a < 256
    → decode_padded (pad (sextet (joined a 0 0) 18 ∷ sextet (joined a 0 0) 12 ∷ [])) ≡ ok (a ∷ [])
unfolding pad decode_chunks value_of
decode-one a ha =
    let t = joined a 0 0 in
    let back : (t / 2 ^ 18 % 64 * 2 ^ 18 + t / 2 ^ 12 % 64 * 2 ^ 12 + 0 * 2 ^ 6 + 0) / 2 ^ 16 % 256
        ≡ a =
      omega arith in
    rw (good_sextet t 18, good_sextet t 12, value_of-sextet t 18, value_of-sextet t 12, back) refl

decode-two :
    (a b : ℕ)
    → a < 256
    → b < 256
    → let t = joined a b 0 in
      decode_padded (pad (sextet t 18 ∷ sextet t 12 ∷ sextet t 6 ∷ [])) ≡ ok (a ∷ b ∷ [])
unfolding pad decode_chunks value_of
decode-two a b ha hb =
    let t = joined a b 0 in
    let whole = t / 2 ^ 18 % 64 * 2 ^ 18 + t / 2 ^ 12 % 64 * 2 ^ 12 + t / 2 ^ 6 % 64 * 2 ^ 6 + 0 in
    let back : whole / 2 ^ 16 % 256 ≡ a = omega arith in
    let next : whole / 2 ^ 8 % 256 ≡ b = omega arith in
    rw
      (
        good_sextet t 18,
        good_sextet t 12,
        good_sextet t 6,
        value_of-sextet t 18,
        value_of-sextet t 12,
        value_of-sextet t 6,
        plain_sextet t 6,
        back,
        next,
      )
      refl

decode_four :
    (w x y z : ℕ) (out : List ℕ) (p : Option Text) (bs : List ℕ)
    → ((s : Text) → decode_chunks (w ∷ x ∷ y ∷ z ∷ s) ≡ prepend out (decode_chunks s))
    → decode_padded p ≡ ok bs
    → decode_padded (four w x y z p) ≡ ok (out ++ bs)
decode_four w x y z out none bs each h = absurd (ground (arith, h))
decode_four w x y z out (some s) bs each h = each s ∙ ap (λ r. prepend out r) h

decode-encode_chunks : (bs : List ℕ) → AreBytes bs → decode_padded (pad (encode_chunks bs)) ≡ ok bs
unfolding encode_chunks
decode-encode_chunks [] h = unfold pad in unfold decode_chunks in refl
decode-encode_chunks (a ∷ []) h = decode-one a h.0
decode-encode_chunks (a ∷ b ∷ []) h = decode-two a b h.0 h.1.0
decode-encode_chunks (a ∷ b ∷ c ∷ rest) h =
    let t = joined a b c in
    ap decode_padded
      (pad-four (sextet t 18) (sextet t 12) (sextet t 6) (sextet t 0) (encode_chunks rest))
    ∙ decode_four (sextet t 18) (sextet t 12) (sextet t 6) (sextet t 0) (a ∷ b ∷ c ∷ [])
        (pad (encode_chunks rest)) rest (λ s. decode-three a b c s h.0 h.1.0 h.1.1.0)
        (decode-encode_chunks rest h.1.1.1)

-- Decoding gives back every list of bytes that was encoded, of any length.
pub base64url_decode-encode :
    (bytes : List ℕ) → AreBytes bytes → base64url_decode (base64url_encode bytes) ≡ ok bytes
unfolding base64url_decode base64url_encode
base64url_decode-encode bytes h =
    ap (λ s. decode_padded (pad s)) (encode_chunks-restored bytes) ∙ decode-encode_chunks bytes h
