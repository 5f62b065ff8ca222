-- ===== src/Multibase/Examples.antt =====
-- Runs of multibase.js, and its theorems at concrete inputs.
use vti_didcomm_js.Prelude.{refl, ◌≡◌, ok, [], ◌∷◌, arith}
use vti_didcomm_js.Prelude.Text.{codes}
use vti_didcomm_js.Multibase.{base58btc_encode, base58btc_decode, encode_multikey, decode_multikey}
use vti_didcomm_js.Multibase.RoundTrip.{base58btc_decode-encode, decode_multikey-encode_multikey}

hello : base58btc_encode (0 ∷ 0 ∷ 104 ∷ 101 ∷ 108 ∷ 108 ∷ 111 ∷ []) ≡ codes "11Cn8eVZg"
unfolding base58btc_encode
hello = refl

hello_back : base58btc_decode (codes "11Cn8eVZg") ≡ ok (0 ∷ 0 ∷ 104 ∷ 101 ∷ 108 ∷ 108 ∷ 111 ∷ [])
unfolding base58btc_decode
hello_back = refl

base58btc_decode-encode_example :
    base58btc_decode (base58btc_encode (0 ∷ 0 ∷ 255 ∷ [])) ≡ ok (0 ∷ 0 ∷ 255 ∷ [])
base58btc_decode-encode_example =
    base58btc_decode-encode (0 ∷ 0 ∷ 255 ∷ []) (omega arith, (omega arith, (omega arith, tt)))

decode_multikey-encode_multikey_example :
    decode_multikey (encode_multikey (0xed ∷ 0x01 ∷ []) (7 ∷ 200 ∷ []))
    ≡ ok (record { codec = 0xed ∷ 0x01 ∷ []; key = 7 ∷ 200 ∷ [] })
decode_multikey-encode_multikey_example =
    decode_multikey-encode_multikey (0xed ∷ 0x01 ∷ []) (7 ∷ 200 ∷ [])
      (omega arith, omega arith, omega arith)
      (omega arith, (omega arith, (omega arith, (omega arith, tt))))
