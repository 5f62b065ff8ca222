-- ===== src/DidKey/Examples.antt =====
-- Runs of src/did-key.js, and its theorems at concrete inputs.
use vti_didcomm_js.Prelude.{
  ℕ, some, ◌%◌, ◌^◌, List, ◌∷◌, length, replicate, ok, err, ◌≡◌, refl, arith,
}
use vti_didcomm_js.Prelude.Text.{codes, starts_with}
use vti_didcomm_js.Multibase.{ed25519_pub, x25519_pub, encode_multikey, decode_multikey}
use vti_didcomm_js.DidKey.{
  le_to_big_int, big_int_to_le, mod_pow_loop, mod_pow, mod_inverse, clear_sign, denominator,
  montgomery_u, ed25519_public_key_to_x25519, resolve, not_did_key,
}
use vti_didcomm_js.DidKey.Field.{mod_pow-power}
use vti_didcomm_js.Json.{Json, get}
use vti_didcomm_js.DidKey.Published.{IsPublished, did_key, resolve-ed25519}

-- The base point of Ed25519.
abbrev base_point : List ℕ
base_point = 0x58 ∷ replicate 31 0x66

base_point-x25519 : ed25519_public_key_to_x25519 base_point ≡ ok (9 ∷ replicate 31 0)
unfolding ed25519_public_key_to_x25519 montgomery_u mod_inverse mod_pow mod_pow_loop denominator
    clear_sign le_to_big_int big_int_to_le
base_point-x25519 = refl

web-resolve : resolve (codes "did:web:x") ≡ err not_did_key
unfolding resolve starts_with
web-resolve = refl

mod_pow-power_example : mod_pow 3 3 5 7 ≡ 3 ^ 5 % 7
mod_pow-power_example = mod_pow-power 3 3 5 7 (omega arith) (omega arith)

resolve-ed25519_example :
    (x : List ℕ) × (result : Json) × (document : Json) × (resolve
        (did_key (encode_multikey ed25519_pub base_point))
      ≡ ok result)
    × (get result (codes "didDocument") ≡ some document)
    × IsPublished
        (did_key (encode_multikey ed25519_pub base_point))
        (encode_multikey ed25519_pub base_point)
        (encode_multikey x25519_pub x)
        document
    × (decode_multikey (encode_multikey ed25519_pub base_point)
        ≡ ok (record { codec = ed25519_pub; key = base_point }))
    × (decode_multikey (encode_multikey x25519_pub x) ≡ ok (record { codec = x25519_pub; key = x }))
    × (ed25519_public_key_to_x25519 base_point ≡ ok x)
    × (length x ≡ 32)
resolve-ed25519_example = resolve-ed25519 base_point refl (omega arith)
