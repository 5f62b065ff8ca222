-- ===== src/DidKey.antt =====
-- src/did-key.js. A BigInt is a natural number; where the source takes a remainder of a negative one,
-- `denominator` writes it out.
pub mod Field
pub mod Published
mod Examples
use vti_didcomm_js.Prelude.{
  ℕ, zero, suc, ◌+◌, ◌-◌, ◌*◌, ◌/◌, ◌%◌, ◌^◌, Bool, true, false, List, [], ◌∷◌, ◌++◌, length, take,
  drop, get_or, ◌==◌, ◌&&◌, if◌then◌else◌, Result, ok, err, guard, ◌>>=◌, ◌>>◌,
}
use vti_didcomm_js.Prelude.Text.{Text, codes, text_eq, starts_with}
use vti_didcomm_js.Json.{Json, Members, object, array, string, member, end, cons, nil}
use vti_didcomm_js.Multibase.{
  MultikeyError, Multikey, ed25519_pub, x25519_pub, p256_pub, secp256k1_pub, encode_multikey,
  decode_multikey,
}

pub data DidKeyError : Type 0 where
  not_did_key not_base58btc : DidKeyError
  invalid_multikey : MultikeyError → DidKeyError
  wrong_length : (actual : ℕ) → DidKeyError
  unsupported_codec : List ℕ → DidKeyError

-- ED25519_FIELD_PRIME
abbrev pub field_prime : ℕ
field_prime = 0x7fffffffffffffffffffffffffffffffffffffffffffffffffffffffffffffed

-- leToBigInt
unfoldable pub le_to_big_int : List ℕ → ℕ
le_to_big_int [] = 0
le_to_big_int (b ∷ bytes) = le_to_big_int bytes * 256 + b

-- bigIntToLe32, with the number of bytes
unfoldable pub big_int_to_le : ℕ → ℕ → List ℕ
big_int_to_le zero n = []
big_int_to_le (suc len) n = (n % 256) ∷ big_int_to_le len (n / 256)

-- The loop of modPow; the fuel is the number of bits of the exponent.
unfoldable pub mod_pow_loop : (fuel result base e modulus : ℕ) → ℕ
mod_pow_loop zero result base e modulus = result
mod_pow_loop (suc fuel) result base e modulus =
    let rest =
      mod_pow_loop fuel (if e % 2 == 1 then result * base % modulus else result)
        (base * base % modulus) (e / 2) modulus in
    if e == 0 then result else rest

unfoldable pub mod_pow : (fuel base exp modulus : ℕ) → ℕ
mod_pow fuel base exp modulus = mod_pow_loop fuel 1 (base % modulus) exp modulus

-- modInverse
unfoldable pub mod_inverse : ℕ → ℕ → ℕ
mod_inverse a p = mod_pow 255 a (p - 2) p

-- `yLe[31] &= 0x7f`
unfoldable pub clear_sign : List ℕ → List ℕ
clear_sign ed_pub = take 31 ed_pub ++ (get_or ed_pub 31 0 % 128 ∷ [])

-- `(one - y) % p`, raised to a positive number
unfoldable pub denominator : ℕ → ℕ
denominator zero = 1
denominator (suc y) = let r = y % field_prime in if r == 0 then 0 else field_prime - r

-- ed25519PublicKeyToX25519, on 32 bytes
unfoldable pub montgomery_u : ℕ → ℕ
montgomery_u y = (1 + y) % field_prime * mod_inverse (denominator y) field_prime % field_prime

unfoldable pub ed25519_public_key_to_x25519 : List ℕ → Result DidKeyError (List ℕ)
ed25519_public_key_to_x25519 ed_pub =
    guard (length ed_pub == 32) (wrong_length (length ed_pub))
    >> ok (big_int_to_le 32 (montgomery_u (le_to_big_int (clear_sign ed_pub))))

-- bytesEqual
unfoldable pub bytes_equal : List ℕ → List ℕ → Bool
bytes_equal a b = length a == length b && text_eq a b

-- assertLen
unfoldable pub assert_len : List ℕ → ℕ → Result DidKeyError (Unit {0})
assert_len buf expected = guard (length buf == expected) (wrong_length (length buf))

-- The parts that the documents share.
unfoldable pub context : Json
context = array (
    cons (string (codes "https://www.w3.org/ns/did/v1"))
      (cons (string (codes "https://w3id.org/security/multikey/v1")) nil))

unfoldable pub verification_method : (id did multibase_str : Text) → Json
verification_method id did multibase_str = object (
    member (codes "id") (string id) (
      member (codes "type") (string (codes "Multikey")) (
        member (codes "controller") (string did)
          (member (codes "publicKeyMultibase") (string multibase_str) end))))

abbrev pub only : Text → Json
only kid = array (cons (string kid) nil)

unfoldable pub kid_of : (did multibase_str : Text) → Text
kid_of did multibase_str = did ++ (codes "#" ++ multibase_str)

-- The four relationships of a signing key, before the members that follow.
unfoldable pub signing_relationships : Text → Members → Members
signing_relationships kid rest = member (codes "authentication") (only kid) (
    member (codes "assertionMethod") (only kid) (
      member (codes "capabilityDelegation") (only kid)
        (member (codes "capabilityInvocation") (only kid) rest)))

-- ed25519DidDocument, for the multikey of the derived X25519 key
unfoldable pub ed25519_document : (did multibase_str agreement_str : Text) → Json
ed25519_document did multibase_str agreement_str =
    let signing_kid = kid_of did multibase_str in
    let agreement_kid = kid_of did agreement_str in
    object (
      member (codes "@context") context (
        member (codes "id") (string did) (
          member (codes "verificationMethod")
            (array (
              cons (verification_method signing_kid did multibase_str)
                (cons (verification_method agreement_kid did agreement_str) nil)))
            (signing_relationships signing_kid
              (member (codes "keyAgreement") (only agreement_kid) end)))))

unfoldable pub ed25519_did_document : (did multibase_str : Text) → List ℕ → Result DidKeyError Json
ed25519_did_document did multibase_str ed_pub_bytes = do
  x_pub_bytes ← ed25519_public_key_to_x25519 ed_pub_bytes
  ok (ed25519_document did multibase_str (encode_multikey x25519_pub x_pub_bytes))

-- x25519DidDocument and signingKeyDidDocument
unfoldable pub single_document : (did multibase_str : Text) → Members → Json
single_document did multibase_str relationships = object (
    member (codes "@context") context (
      member (codes "id") (string did) (
        member (codes "verificationMethod")
          (array (cons (verification_method (kid_of did multibase_str) did multibase_str) nil))
          relationships)))

unfoldable pub x25519_did_document : (did multibase_str : Text) → Json
x25519_did_document did multibase_str =
    single_document did multibase_str
      (member (codes "keyAgreement") (only (kid_of did multibase_str)) end)

unfoldable pub signing_key_did_document : (did multibase_str : Text) → Json
signing_key_did_document did multibase_str =
    single_document did multibase_str (signing_relationships (kid_of did multibase_str) end)

unfoldable pub resolution : Json → Json
resolution document = object (
    member (codes "didDocument") document (
      member (codes "didResolutionMetadata")
        (object (member (codes "contentType") (string (codes "application/did+ld+json")) end))
        (member (codes "didDocumentMetadata") (object end) end)))

-- The document for a decoded multikey.
unfoldable pub document_for : (did multibase_str : Text) → Multikey → Result DidKeyError Json
document_for did multibase_str k =
    if bytes_equal k.codec ed25519_pub
    then (assert_len k.key 32 >> ed25519_did_document did multibase_str k.key)
    else if bytes_equal k.codec x25519_pub
    then (assert_len k.key 32 >> ok (x25519_did_document did multibase_str))
    else if bytes_equal k.codec p256_pub
    then (assert_len k.key 33 >> ok (signing_key_did_document did multibase_str))
    else if bytes_equal k.codec secp256k1_pub
    then (assert_len k.key 33 >> ok (signing_key_did_document did multibase_str))
    else err (unsupported_codec k.codec)

unfoldable pub multikey_or_throw : Result MultikeyError Multikey → Result DidKeyError Multikey
multikey_or_throw (ok k) = ok k
multikey_or_throw (err e) = err (invalid_multikey e)

-- resolve
unfoldable pub resolve : Text → Result DidKeyError Json
resolve did = do
  guard (starts_with did (codes "did:key:")) not_did_key
  guard (starts_with (drop 8 did) (codes "z")) not_base58btc
  k ← multikey_or_throw (decode_multikey (drop 8 did))
  document ← document_for did (drop 8 did) k
  ok (resolution document)
