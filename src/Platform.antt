-- ===== src/Platform.antt =====
-- What the library takes from its platform and from @noble/curves: JSON, UTF-8, SHA-256, HMAC, AES and the
-- two Diffie-Hellman functions. A function that may throw gives an option. `IsPlatform` states what
-- their documents promise, and the library relies on.
use vti_didcomm_js.Prelude.{
  ℕ, ◌+◌, ◌%◌, ◌≤◌, Bool, true, false, Option, some, List, [], ◌∷◌, ◌++◌, ◌≡◌, length, All, IsByte,
}
use vti_didcomm_js.Prelude.Text.{Text, starts_with}
use vti_didcomm_js.Json.{Json, is_plain}

pub record Platform : Type 0 where
  pub parse : Text → Option Json
  pub stringify : Json → Text
  pub is_well_formed : Text → Bool
  pub utf8_encode : Text → List ℕ
  pub utf8_decode : List ℕ → Text
  pub sha256 : List ℕ → List ℕ
  pub hmac_sha512 : (key message : List ℕ) → List ℕ
  pub aes_cbc_encrypt : (key iv plaintext : List ℕ) → List ℕ
  pub aes_cbc_decrypt : (key iv ciphertext : List ℕ) → Option (List ℕ)
  pub aes_kw_wrap : (kek key : List ℕ) → List ℕ
  pub aes_kw_unwrap : (kek wrapped : List ℕ) → Option (List ℕ)
  pub x25519_public : List ℕ → List ℕ
  pub x25519_shared : (private_key peer : List ℕ) → Option (List ℕ)
  pub p256_public : List ℕ → Option (List ℕ)
  pub p256_shared : (private_key peer : List ℕ) → Option (List ℕ)
  pub p256_is_point : List ℕ → Bool

-- U+FEFF, which a TextDecoder takes away from the start.
abbrev pub byte_order_mark : Text
byte_order_mark = 0xfeff ∷ []

-- An uncompressed SEC1 point with its coordinates.
pub record IsPoint (point : List ℕ) : Type 0 where
  pub x : List ℕ
  pub y : List ℕ
  pub parts : point ≡ 4 ∷ (x ++ y)
  pub x_size : length x ≡ 32
  pub y_size : length y ≡ 32
  pub x_bytes : All IsByte x
  pub y_bytes : All IsByte y

pub record IsPlatform (p : Platform) : Type 0 where
  pub parse-stringify : (j : Json) → is_plain j ≡ true → p.parse (p.stringify j) ≡ some j
  pub stringify_well_formed : (j : Json) → p.is_well_formed (p.stringify j) ≡ true
  pub stringify_unmarked : (j : Json) → starts_with (p.stringify j) byte_order_mark ≡ false
  pub decode-encode :
      (t : Text)
      → p.is_well_formed t ≡ true
      → starts_with t byte_order_mark ≡ false
      → p.utf8_decode (p.utf8_encode t) ≡ t
  pub utf8_size : (c : ℕ) (t : Text) → 1 ≤ length (p.utf8_encode (c ∷ t))
  pub utf8_bytes : (t : Text) → All IsByte (p.utf8_encode t)
  pub sha256_bytes : (m : List ℕ) → All IsByte (p.sha256 m)
  pub sha256_size : (m : List ℕ) → length (p.sha256 m) ≡ 32
  pub hmac_bytes : (k m : List ℕ) → All IsByte (p.hmac_sha512 k m)
  pub hmac_size : (k m : List ℕ) → length (p.hmac_sha512 k m) ≡ 64
  pub cbc_bytes : (k iv m : List ℕ) → All IsByte (p.aes_cbc_encrypt k iv m)
  pub cbc_inverse :
      (k iv m : List ℕ)
      → length k ≡ 32
      → length iv ≡ 16
      → All IsByte m
      → p.aes_cbc_decrypt k iv (p.aes_cbc_encrypt k iv m) ≡ some m
  pub wrap_bytes : (kek k : List ℕ) → All IsByte (p.aes_kw_wrap kek k)
  pub wrap_size :
      (kek k : List ℕ)
      → length kek ≡ 32
      → 16 ≤ length k
      → length k % 8 ≡ 0
      → length (p.aes_kw_wrap kek k) ≡ length k + 8
  pub wrap_inverse :
      (kek k : List ℕ)
      → length kek ≡ 32
      → 16 ≤ length k
      → length k % 8 ≡ 0
      → All IsByte k
      → p.aes_kw_unwrap kek (p.aes_kw_wrap kek k) ≡ some k
  pub x25519_size : (a : List ℕ) → length (p.x25519_public a) ≡ 32
  pub x25519_bytes : (a : List ℕ) → All IsByte (p.x25519_public a)
  pub x25519_agree :
      (a b : List ℕ)
      → length a ≡ 32
      → length b ≡ 32
      → (z : List ℕ) × (p.x25519_shared a (p.x25519_public b) ≡ some z)
        × (p.x25519_shared b (p.x25519_public a) ≡ some z)
  pub p256_point :
      (a point : List ℕ)
      → p.p256_public a ≡ some point
      → IsPoint point × (p.p256_is_point point ≡ true)
  pub p256_agree :
      (a b point_a point_b : List ℕ)
      → p.p256_public a ≡ some point_a
      → p.p256_public b ≡ some point_b
      → (z : List ℕ) × (p.p256_shared a point_b ≡ some z) × (p.p256_shared b point_a ≡ some z)
