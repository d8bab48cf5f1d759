-- ===== src/Base64/Tests.antt =====
-- The codec on concrete input.
use blossom_rs.Prelude.{◌≡◌, refl, [], ◌∷◌, bytes_of, arith}
use blossom_rs.Base64.{
  base64url_encode, base64url_decode, ok, err, invalid_length, invalid_character,
}
use blossom_rs.Base64.RoundTrip.{base64url_decode-encode}

encoded : base64url_encode (251 ∷ 255 ∷ []) ≡ bytes_of "-_8"
unfolding base64url_encode
encoded = refl

too_short : base64url_decode (bytes_of "A") ≡ err invalid_length
unfolding base64url_decode
too_short = refl

unknown : base64url_decode (bytes_of "A!") ≡ err invalid_character
unfolding base64url_decode
unknown = refl

base64url_decode-encode_example :
    base64url_decode (base64url_encode (251 ∷ 255 ∷ 0 ∷ 7 ∷ [])) ≡ ok (251 ∷ 255 ∷ 0 ∷ 7 ∷ [])
base64url_decode-encode_example =
    base64url_decode-encode (251 ∷ 255 ∷ 0 ∷ 7 ∷ [])
      (omega arith, (omega arith, (omega arith, (omega arith, tt))))
