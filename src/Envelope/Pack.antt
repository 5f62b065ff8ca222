-- ===== src/Envelope/Pack.antt =====
-- src/pack.js `pack` and src/anoncrypt.js `packAnoncrypt`. What the platform draws at random is the
-- argument `draw`. The wiping of key buffers is not modelled.
use vti_didcomm_js.Prelude.{
  ℕ, false, Option, none, some, List, [], not, if◌then◌else◌, Result, ok, guard, ◌>>=◌, ◌>>◌,
}
use vti_didcomm_js.Prelude.Text.{Text, codes, text_eq}
use vti_didcomm_js.Json.{Json, object, array, string, member, end, cons, nil, get, as_string}
use vti_didcomm_js.Base64url.{encode}
use vti_didcomm_js.DidScid.{scid_src, scid_identity, with_scid_src}
use vti_didcomm_js.Platform.{Platform}
use vti_didcomm_js.Envelope.{
  EnvelopeError, no_sender, no_recipient_entry, unsupported_curve, curve_mismatch,
}
use vti_didcomm_js.Envelope.ContentEncryption.{Sealed, encrypt, wrap_key}
use vti_didcomm_js.Envelope.Agreement.{
  is_supported, generate_key_pair, derive_kek_authcrypt, derive_kek_anoncrypt,
}
use vti_didcomm_js.Envelope.Jwk.{curve_of, raw_private, raw_public, public_jwk}

-- A party: its key id, and its private or its public key.
pub record Party : Type 0 where
  pub kid : Text
  pub jwk : Json

-- The ephemeral secret of generateKeyPair, and the bytes of generateCekAndIv.
pub record Draw : Type 0 where
  pub ephemeral : List ℕ
  pub cek : List ℕ
  pub iv : List ℕ

abbrev pub alg_authcrypt : Text
alg_authcrypt = codes "ECDH-1PU+A256KW"

abbrev pub alg_anoncrypt : Text
alg_anoncrypt = codes "ECDH-ES+A256KW"

abbrev pub enc : Text
enc = codes "A256CBC-HS512"

abbrev pub typ : Text
typ = codes "application/didcomm-encrypted+json"

-- senderKid
unfoldable pub kid_with_src : Text → Text → Option Text → Text
kid_with_src kid from none = kid
kid_with_src kid from (some src) =
    if text_eq (scid_identity kid) (scid_identity from) then with_scid_src kid src else kid

unfoldable pub sender_kid : Text → Option Text → Text
sender_kid kid none = kid
sender_kid kid (some from) = kid_with_src kid from (scid_src from)

-- protectedHeader of either form
unfoldable pub authcrypt_header : (apu apv : List ℕ) (skid : Text) (epk : Json) → Json
authcrypt_header apu apv skid epk = object (
    member (codes "typ") (string typ) (
      member (codes "alg") (string alg_authcrypt) (
        member (codes "enc") (string enc) (
          member (codes "apu") (string (encode apu)) (
            member (codes "apv") (string (encode apv))
              (member (codes "skid") (string skid) (member (codes "epk") epk end)))))))

unfoldable pub anoncrypt_header : (apv : List ℕ) (epk : Json) → Json
anoncrypt_header apv epk = object (
    member (codes "typ") (string typ) (
      member (codes "alg") (string alg_anoncrypt) (
        member (codes "enc") (string enc)
          (member (codes "apv") (string (encode apv)) (member (codes "epk") epk end)))))

-- The JWE for one recipient.
unfoldable pub recipient_entry : Text → List ℕ → Json
recipient_entry kid encrypted_key = object (
    member (codes "header") (object (member (codes "kid") (string kid) end))
      (member (codes "encrypted_key") (string (encode encrypted_key)) end))

unfoldable pub jwe_value : (protected kid : Text) (encrypted_key iv : List ℕ) → Sealed → Json
jwe_value protected kid encrypted_key iv s = object (
    member (codes "protected") (string protected) (
      member (codes "recipients") (array (cons (recipient_entry kid encrypted_key) nil)) (
        member (codes "iv") (string (encode iv)) (
          member (codes "ciphertext") (string (encode s.ciphertext))
            (member (codes "tag") (string (encode s.tag)) end)))))

module _ (p : Platform) where
  -- The curve of the recipient's key, if it is supported.
  unfoldable pub recipient_curve : Json → Result EnvelopeError Text
  recipient_curve public_key = do
    crv ← curve_of public_key
    guard (is_supported crv) (unsupported_curve crv)
    ok crv

  -- The base64url form of a protected header, which is the additional data of the encryption.
  unfoldable pub protect : Json → Text
  protect header = encode (p.utf8_encode (p.stringify header))

  unfoldable pub seal : (protected : Text) (message : Json) → Draw → Result EnvelopeError Sealed
  seal protected message draw =
      encrypt p draw.cek draw.iv (p.utf8_encode protected) (p.utf8_encode (p.stringify message))

  -- The envelope, once the key-encryption key is derived.
  unfoldable pub assemble :
      (protected kid : Text) (kek : List ℕ) → Draw → Sealed → Result EnvelopeError Text
  assemble protected kid kek draw s = do
    encrypted_key ← wrap_key p kek draw.cek
    ok (p.stringify (jwe_value protected kid encrypted_key draw.iv s))

  -- The curve of `pack`, on which both keys are.
  unfoldable pub common_curve : (recipient_public sender_private : Json) → Result EnvelopeError Text
  common_curve recipient_public sender_private = do
    crv ← recipient_curve recipient_public
    sender_crv ← curve_of sender_private
    guard (text_eq sender_crv crv) (curve_mismatch sender_crv crv)
    ok crv

  -- `pack` once the keys are read, for the `skid` that names the sender.
  unfoldable pub pack_as :
      Json
      → (skid recipient_kid crv : Text) (sender_private recipient_public : List ℕ) → Draw
      → Result EnvelopeError Text
  pack_as message skid recipient_kid crv sender_private recipient_public draw = do
    ephemeral_public ← generate_key_pair p crv draw.ephemeral
    let apu = p.utf8_encode skid
    let apv = p.sha256 (p.utf8_encode recipient_kid)
    epk ← public_jwk crv ephemeral_public none
    let protected = protect (authcrypt_header apu apv skid epk)
    s ← seal protected message draw
    kek ←
        derive_kek_authcrypt p crv draw.ephemeral sender_private recipient_public alg_authcrypt apu
          apv s.tag false
    assemble protected recipient_kid kek draw s

  -- pack
  unfoldable pub pack : Json → (sender recipient : Party) → Draw → Result EnvelopeError Text
  pack message sender recipient draw = do
    guard (not (text_eq sender.kid [])) no_sender
    guard (not (text_eq recipient.kid [])) no_recipient_entry
    crv ← common_curve recipient.jwk sender.jwk
    sender_private ← raw_private sender.jwk
    recipient_public ← raw_public p recipient.jwk
    let skid = sender_kid sender.kid (as_string (get message (codes "from")))
    pack_as message skid recipient.kid crv sender_private recipient_public draw

  -- packAnoncrypt
  unfoldable pub pack_anoncrypt : Json → (recipient : Party) → Draw → Result EnvelopeError Text
  pack_anoncrypt message recipient draw = do
    guard (not (text_eq recipient.kid [])) no_recipient_entry
    crv ← recipient_curve recipient.jwk
    recipient_public ← raw_public p recipient.jwk
    ephemeral_public ← generate_key_pair p crv draw.ephemeral
    let apv = p.sha256 (p.utf8_encode recipient.kid)
    epk ← public_jwk crv ephemeral_public none
    let protected = protect (anoncrypt_header apv epk)
    s ← seal protected message draw
    kek ← derive_kek_anoncrypt p crv draw.ephemeral recipient_public alg_anoncrypt [] apv
    assemble protected recipient.kid kek draw s
