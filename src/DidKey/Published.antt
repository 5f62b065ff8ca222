-- ===== src/DidKey/Published.antt =====
-- What src/did-key.js resolves a did:key of an Ed25519 key to.
use vti_didcomm_js.Prelude.{
  ℕ, ◌<◌, true, Option, some, List, [], ◌∷◌, ◌++◌, length, ◌==◌, ==_iff, ok, guard, >>=-ok, ◌≡◌,
  refl, ap, ◌∙◌, arith, All, IsByte,
}
use vti_didcomm_js.Prelude.Text.{Text, codes, text_eq, starts_with}
use vti_didcomm_js.Multibase.{ed25519_pub, x25519_pub, encode_multikey, decode_multikey}
use vti_didcomm_js.Multibase.RoundTrip.{decode_multikey-encode_multikey}
use vti_didcomm_js.Json.{Json, object, array, string, member, end, cons, nil, get, field}
use vti_didcomm_js.DidKey.{
  verification_method, signing_relationships, kid_of, wrong_length, not_base58btc, big_int_to_le,
  ed25519_public_key_to_x25519, montgomery_u, le_to_big_int, clear_sign, bytes_equal, assert_len,
  ed25519_document, ed25519_did_document, document_for, multikey_or_throw, resolution, resolve,
}
use vti_didcomm_js.DidKey.Field.{length-big_int_to_le, big_int_to_le-bytes}

abbrev pub did_key : (multibase_str : Text) → Text
did_key multibase_str = codes "did:key:" ++ multibase_str

length-guard :
    (key : List ℕ) (n : ℕ)
    → length key ≡ n
    → guard (length key == n) (wrong_length (length key)) ≡ ok tt
length-guard key n h = ap (λ b. guard b (wrong_length (length key))) ((==_iff (length key) n).1 h)

ed25519_public_key_to_x25519-ok :
    (key : List ℕ)
    → length key ≡ 32
    → (x : List ℕ) × (ed25519_public_key_to_x25519 key ≡ ok x) × (length x ≡ 32) × All IsByte x
unfolding ed25519_public_key_to_x25519
ed25519_public_key_to_x25519-ok key h =
    let u = montgomery_u (le_to_big_int (clear_sign key)) in
    (
      big_int_to_le 32 u,
      >>=-ok _ _ tt (length-guard key 32 h),
      length-big_int_to_le 32 u,
      big_int_to_le-bytes 32 u,
    )

prefixed-bytes :
    (a b : ℕ) (key : List ℕ) → a < 256 → b < 256 → All IsByte key → All IsByte ((a ∷ b ∷ []) ++ key)
prefixed-bytes a b key ha hb h = (ha, (hb, h))

document_for-ed25519 :
    (did multibase_str : Text) (key x : List ℕ)
    → length key ≡ 32
    → ed25519_public_key_to_x25519 key ≡ ok x
    → document_for did multibase_str (record { codec = ed25519_pub; key = key })
      ≡ ok (ed25519_document did multibase_str (encode_multikey x25519_pub x))
unfolding document_for bytes_equal text_eq assert_len ed25519_did_document
document_for-ed25519 did multibase_str key x h e =
    >>=-ok _ _ tt (length-guard key 32 h) ∙ >>=-ok _ _ x e

starts-z : (codec key : List ℕ) → starts_with (encode_multikey codec key) (codes "z") ≡ true
unfolding encode_multikey starts_with
starts-z codec key = refl

-- A verification method of type Multikey that the DID controls, and the list of one reference.
abbrev pub multikey_method : (id did multibase_str : Text) → Json
multikey_method id did multibase_str = object (
    member (codes "id") (string id) (
      member (codes "type") (string (codes "Multikey")) (
        member (codes "controller") (string did)
          (member (codes "publicKeyMultibase") (string multibase_str) end))))

abbrev pub one_reference : Text → Option Json
one_reference id = some (array (cons (string id) nil))

-- A document of two methods, whose first key signs and whose second agrees on keys.
pub record IsPublished (did signing agreement : Text) (document : Json) : Type 0 where
  pub of_id : get document (codes "id") ≡ some (string did)
  pub methods :
      get document (codes "verificationMethod")
      ≡ some (
          array (
            cons
              (multikey_method (did ++ (codes "#" ++ signing)) did signing)
              (cons (multikey_method (did ++ (codes "#" ++ agreement)) did agreement) nil)))
  pub authentication :
      get document (codes "authentication") ≡ one_reference (did ++ (codes "#" ++ signing))
  pub assertion_method :
      get document (codes "assertionMethod") ≡ one_reference (did ++ (codes "#" ++ signing))
  pub capability_delegation :
      get document (codes "capabilityDelegation") ≡ one_reference (did ++ (codes "#" ++ signing))
  pub capability_invocation :
      get document (codes "capabilityInvocation") ≡ one_reference (did ++ (codes "#" ++ signing))
  pub key_agreement :
      get document (codes "keyAgreement") ≡ one_reference (did ++ (codes "#" ++ agreement))

ed25519_document-IsPublished :
    (did signing agreement : Text)
    → IsPublished did signing agreement (ed25519_document did signing agreement)
unfolding ed25519_document verification_method signing_relationships kid_of get field text_eq
ed25519_document-IsPublished did signing agreement = record {
  of_id = refl;
  methods = refl;
  authentication = refl;
  assertion_method = refl;
  capability_delegation = refl;
  capability_invocation = refl;
  key_agreement = refl;
}

resolution-document :
    (document : Json) → get (resolution document) (codes "didDocument") ≡ some document
unfolding resolution get field text_eq
resolution-document document = refl

-- The did:key of an Ed25519 key of 32 bytes resolves to a document whose id is the DID and whose verification methods are
-- two Multikeys that it controls: the multikey of the DID, under `#` with this multikey, which decodes to that key and is
-- the one reference of the four signing relationships; and, under `#` with its own multikey, one that decodes to the
-- X25519 key of 32 bytes which `ed25519PublicKeyToX25519` gives for it, the one reference of `keyAgreement`.
pub resolve-ed25519 :
    (key : List ℕ)
    → length key ≡ 32
    → All IsByte key
    → (x : List ℕ) × (result : Json) × (document : Json) × (resolve
          (did_key (encode_multikey ed25519_pub key))
        ≡ ok result)
      × (get result (codes "didDocument") ≡ some document)
      × IsPublished
          (did_key (encode_multikey ed25519_pub key))
          (encode_multikey ed25519_pub key)
          (encode_multikey x25519_pub x)
          document
      × (decode_multikey (encode_multikey ed25519_pub key)
          ≡ ok (record { codec = ed25519_pub; key = key }))
      × (decode_multikey (encode_multikey x25519_pub x)
          ≡ ok (record { codec = x25519_pub; key = x }))
      × (ed25519_public_key_to_x25519 key ≡ ok x)
      × (length x ≡ 32)
unfolding resolve multikey_or_throw starts_with
resolve-ed25519 key h hb =
    let m = encode_multikey ed25519_pub key in
    let (x, ex, size, xb) = ed25519_public_key_to_x25519-ok key h in
    let own =
      decode_multikey-encode_multikey ed25519_pub key (omega arith)
        (prefixed-bytes _ _ key (omega arith) (omega arith) hb) in
    let agreed =
      decode_multikey-encode_multikey x25519_pub x (omega arith)
        (prefixed-bytes _ _ x (omega arith) (omega arith) xb) in
    let document = ed25519_document (did_key m) m (encode_multikey x25519_pub x) in
    (
      x,
      resolution document,
      document,
      >>=-ok _ _ tt (ap (λ b. guard b not_base58btc) (starts-z ed25519_pub key))
          ∙ >>=-ok _ _ (record { codec = ed25519_pub; key = key }) (ap multikey_or_throw own)
          ∙ >>=-ok _ _ _ (document_for-ed25519 (did_key m) m key x h ex),
      resolution-document document,
      ed25519_document-IsPublished (did_key m) m (encode_multikey x25519_pub x),
      own,
      agreed,
      ex,
      size,
    )
