-- ===== src/Base64url/Examples.antt =====
-- Runs of base64url.js, and its theorems at concrete inputs.
use vti_didcomm_js.Prelude.{refl, ◌≡◌, ◌≢◌, ◌↔◌, ok, err, List, [], ◌∷◌, length, All, arith, ℕ, ◌%◌}
use vti_didcomm_js.Prelude.Text.{codes}
use vti_didcomm_js.Base64url.{encode, decode, normalize, invalid_character}
use vti_didcomm_js.Base64url.RoundTrip.{decode-encode, char_of}
use vti_didcomm_js.Base64url.Decode.{IsKnown, decode_ok_iff, decode_stray_bits}

foob-encode : encode (102 ∷ 111 ∷ 111 ∷ 98 ∷ []) ≡ codes "Zm9vYg"
unfolding encode
foob-encode = refl

foob-decode : decode (codes "Zm9vYg==") ≡ ok (102 ∷ 111 ∷ 111 ∷ 98 ∷ [])
unfolding decode
foob-decode = refl

star-decode : decode (codes "Zm9*Yg==") ≡ err (invalid_character 42 3)
unfolding decode
star-decode = refl

decode-encode_example : decode (encode (255 ∷ 0 ∷ 128 ∷ 7 ∷ [])) ≡ ok (255 ∷ 0 ∷ 128 ∷ 7 ∷ [])
decode-encode_example =
    decode-encode (255 ∷ 0 ∷ 128 ∷ 7 ∷ [])
      (omega arith, (omega arith, (omega arith, (omega arith, tt))))

decode_ok_iff_example :
    ((bs : List ℕ) × (decode (codes "Zm9vYg") ≡ ok bs))
    ↔ ((length (normalize (codes "Zm9vYg")) % 4 ≢ 1) × All IsKnown (normalize (codes "Zm9vYg")))
decode_ok_iff_example = decode_ok_iff (codes "Zm9vYg")

decode_stray_bits_example :
    decode (char_of 25 ∷ char_of 32 ∷ []) ≡ decode (char_of 25 ∷ char_of 47 ∷ [])
decode_stray_bits_example =
    decode_stray_bits 25 32 47 (omega arith) (omega arith) (omega arith) refl
