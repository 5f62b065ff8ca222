-- ===== src/Envelope/ContentEncryption.antt =====
-- src/a256cbc-hs512.js: `encrypt` and `decrypt`, and src/aes.js: `wrapKey` and `unwrapKey`.
pub mod Inverse
use vti_didcomm_js.Prelude.{
  ℕ, ◌+◌, ◌*◌, ◌/◌, ◌%◌, ◌^◌, Bool, true, false, Option, none, some, List, [], ◌∷◌, ◌++◌, length,
  take, drop, ◌==◌, ◌&&◌, Result, ok, err, guard, or_throw, ◌>>=◌, ◌>>◌,
}
use vti_didcomm_js.Platform.{Platform}
use vti_didcomm_js.Envelope.{
  EnvelopeError, wrong_length, tag_mismatch, cipher_failed, unwrap_failed,
}

-- What `encrypt` returns.
pub record Sealed : Type 0 where
  pub ciphertext : List ℕ
  pub tag : List ℕ

-- uint64beBitLen
unfoldable pub uint64be_bit_len : ℕ → List ℕ
uint64be_bit_len byte_len =
    let bits = byte_len * 8 in
    bits / 2 ^ 56 % 256
    ∷ bits / 2 ^ 48 % 256
    ∷ bits / 2 ^ 40 % 256
    ∷ bits / 2 ^ 32 % 256
    ∷ bits / 2 ^ 24 % 256
    ∷ bits / 2 ^ 16 % 256
    ∷ bits / 2 ^ 8 % 256
    ∷ bits % 256
    ∷ []

-- constantTimeEqual: acc === 0 where acc collects the differences of all bytes
unfoldable pub same_bytes : List ℕ → List ℕ → Bool
same_bytes [] [] = true
same_bytes [] (y ∷ ys) = false
same_bytes (x ∷ xs) [] = false
same_bytes (x ∷ xs) (y ∷ ys) = x == y && same_bytes xs ys

unfoldable pub constant_time_equal : List ℕ → List ℕ → Bool
constant_time_equal a b = length a == length b && same_bytes a b

-- assertBytes with an exact length
unfoldable pub assert_length : List ℕ → ℕ → Result EnvelopeError (Unit {0})
assert_length value exact = guard (length value == exact) (wrong_length (length value))

module _ (p : Platform) where
  -- hmacTag
  unfoldable pub hmac_tag : (mac_key aad iv ciphertext : List ℕ) → List ℕ
  hmac_tag mac_key aad iv ciphertext =
      take 32 (p.hmac_sha512 mac_key (aad ++ (iv ++ (ciphertext ++ uint64be_bit_len (length aad)))))

  unfoldable pub encrypt : (cek iv aad plaintext : List ℕ) → Result EnvelopeError Sealed
  encrypt cek iv aad plaintext = do
    assert_length cek 64
    assert_length iv 16
    let ciphertext = p.aes_cbc_encrypt (drop 32 cek) iv plaintext
    ok (record { ciphertext = ciphertext; tag = hmac_tag (take 32 cek) aad iv ciphertext })

  unfoldable pub decrypt : (cek iv aad ciphertext tag : List ℕ) → Result EnvelopeError (List ℕ)
  decrypt cek iv aad ciphertext tag = do
    assert_length cek 64
    assert_length iv 16
    assert_length tag 32
    guard (constant_time_equal (hmac_tag (take 32 cek) aad iv ciphertext) tag) tag_mismatch
    or_throw (p.aes_cbc_decrypt (drop 32 cek) iv ciphertext) cipher_failed

  -- wrapKey and unwrapKey
  unfoldable pub wrap_key : (kek cek : List ℕ) → Result EnvelopeError (List ℕ)
  wrap_key kek cek = assert_length kek 32 >> ok (p.aes_kw_wrap kek cek)

  unfoldable pub unwrap_key : (kek wrapped : List ℕ) → Result EnvelopeError (List ℕ)
  unwrap_key kek wrapped =
      assert_length kek 32 >> or_throw (p.aes_kw_unwrap kek wrapped) unwrap_failed
