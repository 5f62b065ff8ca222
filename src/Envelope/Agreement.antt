-- ===== src/Envelope/Agreement.antt =====
-- src/key-agreement.js over src/x25519.js and src/p256.js, and the two sides of the key-encryption key
-- of src/ecdh-1pu.js and src/ecdh-es.js. A secret that the platform would draw is an argument.
pub mod Symmetry
use vti_didcomm_js.Prelude.{
  ℕ, Bool, true, false, Option, none, some, List, [], ◌∷◌, ◌++◌, length, take, drop, ◌==◌, ◌&&◌,
  ◌||◌, if◌then◌else◌, Result, ok, err, guard, or_throw, ◌>>=◌, ◌>>◌,
}
use vti_didcomm_js.Prelude.Text.{Text, codes, text_eq}
use vti_didcomm_js.Platform.{Platform}
use vti_didcomm_js.ConcatKdf.{derive_key}
use vti_didcomm_js.Envelope.{
  EnvelopeError, throw_on, agreement_failed, invalid_point, unsupported_curve, key_derivation,
  wrong_length,
}
use vti_didcomm_js.Envelope.ContentEncryption.{assert_length}

-- The keys of CURVES.
pub data Curve : Type 0 where
  x25519 p256 : Curve

abbrev pub crv_of : Curve → Text
crv_of x25519 = codes "X25519"
crv_of p256 = codes "P-256"

-- impl
unfoldable pub impl : Text → Result EnvelopeError Curve
impl crv =
    if text_eq crv (codes "X25519")
    then ok x25519
    else if text_eq crv (codes "P-256")
    then ok p256
    else err (unsupported_curve crv)

unfoldable pub is_supported : Text → Bool
is_supported crv = text_eq crv (codes "X25519") || text_eq crv (codes "P-256")

-- pointCoordinates
unfoldable pub is_uncompressed : List ℕ → Bool
is_uncompressed [] = false
is_uncompressed (b ∷ point) = b == 4 && length point == 64

unfoldable pub point_coordinates : List ℕ → Result EnvelopeError (List ℕ × List ℕ)
point_coordinates public_key =
    guard (is_uncompressed public_key) invalid_point
    >> ok (take 32 (drop 1 public_key), drop 33 public_key)

module _ (p : Platform) where
  -- pointFromCoordinates
  unfoldable pub point_from_coordinates : (x y : List ℕ) → Result EnvelopeError (List ℕ)
  point_from_coordinates x y = do
    assert_length x 32
    assert_length y 32
    guard (p.p256_is_point (4 ∷ (x ++ y))) invalid_point
    ok (4 ∷ (x ++ y))

  -- The public key of generateKeyPair, for the secret that it drew.
  unfoldable pub key_pair_on : Curve → (secret : List ℕ) → Result EnvelopeError (List ℕ)
  key_pair_on x25519 secret = ok (p.x25519_public secret)
  key_pair_on p256 secret = or_throw (p.p256_public secret) agreement_failed

  unfoldable pub generate_key_pair :
      (crv : Text) → (secret : List ℕ) → Result EnvelopeError (List ℕ)
  generate_key_pair crv secret = impl crv >>= λ curve. key_pair_on curve secret

  -- publicKeyFrom
  unfoldable pub public_key_on : Curve → (private_key : List ℕ) → Result EnvelopeError (List ℕ)
  public_key_on x25519 private_key =
      assert_length private_key 32 >> ok (p.x25519_public private_key)
  public_key_on p256 private_key =
      assert_length private_key 32 >> or_throw (p.p256_public private_key) agreement_failed

  unfoldable pub public_key_from :
      (crv : Text) → (private_key : List ℕ) → Result EnvelopeError (List ℕ)
  public_key_from crv private_key = impl crv >>= λ curve. public_key_on curve private_key

  -- sharedSecret of x25519.js and of p256.js, which drops the sign byte
  unfoldable pub shared_on : Curve → (private_key peer : List ℕ) → Result EnvelopeError (List ℕ)
  shared_on x25519 private_key peer = do
    assert_length private_key 32
    assert_length peer 32
    or_throw (p.x25519_shared private_key peer) agreement_failed
  shared_on p256 private_key peer = do
    assert_length private_key 32
    point ← or_throw (p.p256_shared private_key peer) agreement_failed
    ok (take 32 (drop 1 point))

  unfoldable pub shared_secret :
      (crv : Text) → (private_key peer : List ℕ) → Result EnvelopeError (List ℕ)
  shared_secret crv private_key peer = impl crv >>= λ curve. shared_on curve private_key peer

  -- deriveKey of concat-kdf.js, for 256 bits
  unfoldable pub derive_kek :
      (z : List ℕ) (alg : Text) (apu apv : List ℕ)
      → Option (List ℕ)
      → Bool
      → Result EnvelopeError (List ℕ)
  derive_kek z alg apu apv tag legacy =
      throw_on key_derivation (derive_key p.sha256 z (p.utf8_encode alg) apu apv tag legacy 256)

  -- deriveKekAuthcrypt and recipientKekAuthcrypt
  unfoldable pub derive_kek_authcrypt :
      (crv : Text) (ephemeral_private sender_private recipient_public : List ℕ) (alg : Text)
      (apu apv cc_tag : List ℕ) (legacy : Bool)
      → Result EnvelopeError (List ℕ)
  derive_kek_authcrypt crv ephemeral_private sender_private recipient_public alg apu apv cc_tag
        legacy =
      do
        ze ← shared_secret crv ephemeral_private recipient_public
        zs ← shared_secret crv sender_private recipient_public
        derive_kek (ze ++ zs) alg apu apv (some cc_tag) legacy

  unfoldable pub recipient_kek_authcrypt :
      (crv : Text) (recipient_private ephemeral_public sender_public : List ℕ) (alg : Text)
      (apu apv cc_tag : List ℕ) (legacy : Bool)
      → Result EnvelopeError (List ℕ)
  recipient_kek_authcrypt crv recipient_private ephemeral_public sender_public alg apu apv cc_tag
        legacy =
      do
        ze ← shared_secret crv recipient_private ephemeral_public
        zs ← shared_secret crv recipient_private sender_public
        derive_kek (ze ++ zs) alg apu apv (some cc_tag) legacy

  -- deriveKekAnoncrypt and recipientKekAnoncrypt
  unfoldable pub derive_kek_anoncrypt :
      (crv : Text) (ephemeral_private recipient_public : List ℕ) (alg : Text) (apu apv : List ℕ)
      → Result EnvelopeError (List ℕ)
  derive_kek_anoncrypt crv ephemeral_private recipient_public alg apu apv = do
    z ← shared_secret crv ephemeral_private recipient_public
    derive_kek z alg apu apv none false

  unfoldable pub recipient_kek_anoncrypt :
      (crv : Text) (recipient_private ephemeral_public : List ℕ) (alg : Text) (apu apv : List ℕ)
      → Result EnvelopeError (List ℕ)
  recipient_kek_anoncrypt crv recipient_private ephemeral_public alg apu apv = do
    z ← shared_secret crv recipient_private ephemeral_public
    derive_kek z alg apu apv none false
