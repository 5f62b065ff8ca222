-- ===== src/Envelope/Unpack.antt =====
-- src/unpack.js: `unpack`, in the order of its numbered steps. The wiping of key buffers is not modelled.
pub mod Bound
pub mod Reads
use vti_didcomm_js.Prelude.{
  ℕ, Bool, true, false, Option, none, some, List, [], ◌∷◌, not, ◌&&◌, ◌||◌, is_some, if◌then◌else◌,
  Result, ok, err, guard, or_throw, ◌>>=◌, ◌>>◌,
}
use vti_didcomm_js.Prelude.Text.{Text, codes, text_eq, starts_with, includes}
use vti_didcomm_js.Json.{
  Json, Items, object, array, string, member, end, cons, nil, null, boolean, number, get, as_string,
  is_truthy, is_object, is_record,
}
use vti_didcomm_js.DidScid.{scid_identity}
use vti_didcomm_js.Platform.{Platform}
use vti_didcomm_js.Envelope.{
  EnvelopeError, not_json, invalid_jwe, unsupported_alg, unsupported_enc, invalid_epk, no_skid,
  no_sender, no_recipient_entry, no_encrypted_key, apu_mismatch, invalid_message, sender_mismatch,
  curve_mismatch,
}
use vti_didcomm_js.Envelope.ContentEncryption.{decrypt, unwrap_key}
use vti_didcomm_js.Envelope.Agreement.{recipient_kek_authcrypt, recipient_kek_anoncrypt}
use vti_didcomm_js.Envelope.Jwk.{curve_of, raw_private, raw_public, decode_member}
use vti_didcomm_js.Envelope.Pack.{Party, alg_authcrypt, alg_anoncrypt, enc}

-- The JWE with its header, once both are parsed.
pub record Jwe : Type 0 where
  pub value : Json
  pub protected : Text
  pub header : Json
  pub recipients : Items

-- The algorithm of the header, with the curve of its `epk`, its `skid` and the key of the sender.
pub data Mode : Type 0 where
  authcrypt : (crv skid : Text) (sender : Json) → Mode
  anoncrypt : (crv : Text) → Mode

pub record Agreed : Type 0 where
  pub recipient_private : List ℕ
  pub ephemeral_public : List ℕ
  pub apu : List ℕ
  pub apv : List ℕ

pub record Content : Type 0 where
  pub iv : List ℕ
  pub ciphertext : List ℕ
  pub tag : List ℕ

pub record Unpacked : Type 0 where
  pub message : Json
  pub sender_kid : Option Text
  pub sender_did : Option Text
  pub authenticated : Bool
  pub legacy_kek_used : Bool

-- assertJweShape, with the entries of `recipients`
unfoldable pub has_fields : Json → Bool
has_fields jwe =
    is_some (get jwe (codes "protected"))
    && (is_some (get jwe (codes "recipients"))
        && (is_some (get jwe (codes "iv"))
            && (is_some (get jwe (codes "ciphertext")) && is_some (get jwe (codes "tag")))))

unfoldable pub as_entries : Option Json → Option Items
as_entries (some (array (cons x xs))) = some (cons x xs)
as_entries (some (array nil)) = none
as_entries (some null) = none
as_entries (some (boolean b)) = none
as_entries (some (number n)) = none
as_entries (some (string t)) = none
as_entries (some (object ms)) = none
as_entries none = none

unfoldable pub assert_jwe_shape : Json → Result EnvelopeError Items
assert_jwe_shape jwe = do
  guard (is_object jwe && has_fields jwe) invalid_jwe
  or_throw (as_entries (get jwe (codes "recipients"))) invalid_jwe

-- A member that b64u.decode is given, or an empty array where it is falsy.
unfoldable pub decode_json : Option Json → Result EnvelopeError (List ℕ)
decode_json j = or_throw (as_string j) invalid_jwe >>= λ s. decode_member s

unfoldable pub decode_or_empty : Option Json → Result EnvelopeError (List ℕ)
decode_or_empty j = if is_truthy j then decode_json j else ok []

-- Whether a member is this string.
unfoldable pub text_is : Option Text → Text → Bool
text_is none u = false
text_is (some s) u = text_eq s u

-- epkCurve
unfoldable pub curve_of_epk : Json → Result EnvelopeError Text
curve_of_epk epk =
    let kty = as_string (get epk (codes "kty")) in
    let crv = as_string (get epk (codes "crv")) in
    if is_object epk && (text_is kty (codes "OKP") && text_is crv (codes "X25519"))
    then ok (codes "X25519")
    else if is_object epk && (text_is kty (codes "EC") && text_is crv (codes "P-256"))
    then ok (codes "P-256")
    else err invalid_epk

-- The checks of the header after its `alg`.
unfoldable pub authcrypt_mode :
    (crv : Text) → (skid : Option Json) → (sender : Option Json) → Result EnvelopeError Mode
authcrypt_mode crv skid sender = do
  guard (is_truthy skid) no_skid
  jwk ← or_throw sender no_sender
  text ← or_throw (as_string skid) apu_mismatch
  ok (authcrypt crv text jwk)

unfoldable pub check_header : Json → (sender : Option Json) → Result EnvelopeError Mode
check_header header sender = do
  let alg = as_string (get header (codes "alg"))
  guard (text_is alg alg_authcrypt || text_is alg alg_anoncrypt) unsupported_alg
  guard (text_is (as_string (get header (codes "enc"))) enc) unsupported_enc
  epk ← or_throw (get header (codes "epk")) invalid_epk
  crv ← curve_of_epk epk
  if text_is alg alg_authcrypt
      then authcrypt_mode crv (get header (codes "skid")) sender
      else ok (anoncrypt crv)

-- The first entry of `recipients` for this key id, and its wrapped key.
unfoldable pub entry_kid : Json → Option Text
entry_kid entry = elim (get entry (codes "header")) [
  | none ↦ none
  | some header ↦ as_string (get header (codes "kid"))
]

unfoldable pub find_entry : Items → Text → Option Json
find_entry nil kid = none
find_entry (cons entry rest) kid =
    let later = find_entry rest kid in if text_is (entry_kid entry) kid then some entry else later

unfoldable pub encrypted_key_of : Items → Text → Result EnvelopeError Json
encrypted_key_of recipients kid = do
  entry ← or_throw (find_entry recipients kid) no_recipient_entry
  guard (is_truthy (get entry (codes "encrypted_key"))) no_encrypted_key
  or_throw (get entry (codes "encrypted_key")) no_encrypted_key

unfoldable pub read_content : Json → Result EnvelopeError Content
read_content jwe = do
  iv ← decode_json (get jwe (codes "iv"))
  ciphertext ← decode_json (get jwe (codes "ciphertext"))
  tag ← decode_json (get jwe (codes "tag"))
  ok (record { iv = iv; ciphertext = ciphertext; tag = tag })

abbrev pub curve_in : Mode → Text
curve_in (authcrypt crv skid sender) = crv
curve_in (anoncrypt crv) = crv

-- The sender that the message claims is the one that the envelope was authenticated with.
unfoldable pub is_bound : Text → Option Text → Bool
is_bound sender_did none = false
is_bound sender_did (some from) =
    starts_with sender_did (codes "did:")
    && (not (includes from (codes "#")) && text_eq (scid_identity from) sender_did)

unfoldable pub accept_sender : Mode → Json → Bool → Result EnvelopeError Unpacked
accept_sender (anoncrypt crv) message legacy = ok (record {
  message = message;
  sender_kid = none;
  sender_did = none;
  authenticated = false;
  legacy_kek_used = legacy;
})
accept_sender (authcrypt crv skid sender) message legacy =
    guard (is_bound (scid_identity skid) (as_string (get message (codes "from")))) sender_mismatch
    >> ok (record {
      message = message;
      sender_kid = some skid;
      sender_did = some (scid_identity skid);
      authenticated = true;
      legacy_kek_used = legacy;
    })

module _ (p : Platform) where
  unfoldable pub read_jwe : Text → Result EnvelopeError Jwe
  read_jwe text = do
    value ← or_throw (p.parse text) not_json
    recipients ← assert_jwe_shape value
    protected ← or_throw (as_string (get value (codes "protected"))) invalid_jwe
    bytes ← decode_member protected
    header ← or_throw (p.parse (p.utf8_decode bytes)) not_json
    ok (record { value = value; protected = protected; header = header; recipients = recipients })

  unfoldable pub read_agreed : Json → Text → Json → Result EnvelopeError Agreed
  read_agreed header crv recipient_key = do
    own ← curve_of recipient_key
    guard (text_eq own crv) (curve_mismatch own crv)
    recipient_private ← raw_private recipient_key
    epk ← or_throw (get header (codes "epk")) invalid_epk
    ephemeral_public ← raw_public p epk
    apu ← decode_or_empty (get header (codes "apu"))
    apv ← decode_or_empty (get header (codes "apv"))
    ok (record {
      recipient_private = recipient_private;
      ephemeral_public = ephemeral_public;
      apu = apu;
      apv = apv;
    })

  -- The key under the spec's derivation, or else under the one of versions before 0.5.
  unfoldable pub or_legacy :
      Result EnvelopeError (List ℕ)
      → Result EnvelopeError (List ℕ)
      → List ℕ
      → Result EnvelopeError (List ℕ × Bool)
  or_legacy (ok cek) legacy_kek encrypted_key = ok (cek, false)
  or_legacy (err e) legacy_kek encrypted_key = do
    kek ← legacy_kek
    cek ← unwrap_key p kek encrypted_key
    ok (cek, true)

  unfoldable pub unwrap_cek :
      Mode → Agreed → (tag encrypted_key : List ℕ) → Result EnvelopeError (List ℕ × Bool)
  unwrap_cek (anoncrypt crv) a tag encrypted_key = do
    kek ←
        recipient_kek_anoncrypt p crv a.recipient_private a.ephemeral_public alg_anoncrypt a.apu
          a.apv
    cek ← unwrap_key p kek encrypted_key
    ok (cek, false)
  unwrap_cek (authcrypt crv skid sender) a tag encrypted_key = do
    guard (text_eq (p.utf8_decode a.apu) skid) apu_mismatch
    sender_crv ← curve_of sender
    guard (text_eq sender_crv crv) (curve_mismatch sender_crv crv)
    sender_public ← raw_public p sender
    let kek_of =
        recipient_kek_authcrypt p crv a.recipient_private a.ephemeral_public sender_public
          alg_authcrypt a.apu a.apv tag
    kek ← kek_of false
    or_legacy (unwrap_key p kek encrypted_key) (kek_of true) encrypted_key

  unfoldable pub read_message : List ℕ → Result EnvelopeError Json
  read_message plaintext = do
    message ← or_throw (p.parse (p.utf8_decode plaintext)) not_json
    guard (is_record message) invalid_message
    ok message

  -- unpack; `sender` is the public key of the sender, if the caller has one
  unfoldable pub unpack :
      Text → (recipient : Party) → (sender : Option Json) → Result EnvelopeError Unpacked
  unpack text recipient sender = do
    guard (not (text_eq recipient.kid [])) no_recipient_entry
    jwe ← read_jwe text
    mode ← check_header jwe.header sender
    wrapped ← encrypted_key_of jwe.recipients recipient.kid
    content ← read_content jwe.value
    agreed ← read_agreed jwe.header (curve_in mode) recipient.jwk
    encrypted_key ← decode_json (some wrapped)
    (cek, legacy) ← unwrap_cek mode agreed content.tag encrypted_key
    plaintext ←
        decrypt p cek content.iv (p.utf8_encode jwe.protected) content.ciphertext content.tag
    message ← read_message plaintext
    accept_sender mode message legacy
