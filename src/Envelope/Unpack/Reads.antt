-- ===== src/Envelope/Unpack/Reads.antt =====
-- Each step of `unpack` on what `pack` writes (src/unpack.js, src/pack.js).
use vti_didcomm_js.Prelude.{
  ℕ, true, Option, some, List, [], ◌∷◌, ok, or_throw, >>=-ok, ◌≡◌, refl, ap, ◌∙◌, All, IsByte,
}
use vti_didcomm_js.Prelude.Text.{Text, text_eq, text_eq_refl}
use vti_didcomm_js.Json.{
  Json, object, string, cons, nil, get, field, as_string, is_truthy, is_object, is_record, is_plain,
  is_plain_name,
}
use vti_didcomm_js.Base64url.{encode}
use vti_didcomm_js.Platform.{Platform, IsPlatform}
use vti_didcomm_js.Envelope.{not_json, invalid_message}
use vti_didcomm_js.Envelope.ContentEncryption.{Sealed}
use vti_didcomm_js.Envelope.ContentEncryption.Inverse.{guard-ok}
use vti_didcomm_js.Envelope.Agreement.{Curve, x25519, p256, crv_of}
use vti_didcomm_js.Envelope.Jwk.{okp_members, ec_members}
use vti_didcomm_js.Envelope.Jwk.Raw.{jwk_members, decode_member-encode, encode-cons}
use vti_didcomm_js.Envelope.Pack.{
  authcrypt_header, anoncrypt_header, recipient_entry, jwe_value, protect,
}
use vti_didcomm_js.Envelope.Unpack.{
  authcrypt, anoncrypt, has_fields, as_entries, assert_jwe_shape, decode_json, decode_or_empty,
  text_is, curve_of_epk, authcrypt_mode, check_header, entry_kid, find_entry, encrypted_key_of,
  read_content, read_jwe, read_message,
}

module _ (p : Platform) (laws : IsPlatform p) where
  -- A JSON value survives UTF-8.
  pub parse-bytes :
      (j : Json)
      → is_plain j ≡ true
      → p.parse (p.utf8_decode (p.utf8_encode (p.stringify j))) ≡ some j
  parse-bytes j plain =
      ap p.parse (
        laws.decode-encode (p.stringify j) (laws.stringify_well_formed j)
          (laws.stringify_unmarked j))
      ∙ laws.parse-stringify j plain

  jwe_value-plain :
      (protected kid : Text) (ek iv : List ℕ) (s : Sealed)
      → is_plain (jwe_value protected kid ek iv s) ≡ true
  unfolding is_plain is_plain_name field text_eq jwe_value recipient_entry
  jwe_value-plain protected kid ek iv s = refl

  pub read_jwe-ok :
      (header : Json) (kid : Text) (ek iv : List ℕ) (s : Sealed)
      → is_plain header ≡ true
      → read_jwe p (p.stringify (jwe_value (protect p header) kid ek iv s))
        ≡ ok (record {
          value = jwe_value (protect p header) kid ek iv s;
          protected = protect p header;
          header = header;
          recipients = cons (recipient_entry kid ek) nil;
        })
  unfolding read_jwe assert_jwe_shape has_fields as_entries jwe_value protect get field as_string
      is_object text_eq
  read_jwe-ok header kid ek iv s plain =
      >>=-ok _ _ _ (
        ap (λ o. or_throw o not_json)
          (laws.parse-stringify (jwe_value (protect p header) kid ek iv s)
            (jwe_value-plain (protect p header) kid ek iv s)))
      ∙ >>=-ok _ _ _ (
          decode_member-encode (p.utf8_encode (p.stringify header))
            (laws.utf8_bytes (p.stringify header)))
      ∙ >>=-ok _ _ header (ap (λ o. or_throw o not_json) (parse-bytes header plain))

  pub read_message-ok :
      (message : Json)
      → is_plain message ≡ true
      → is_record message ≡ true
      → read_message p (p.utf8_encode (p.stringify message)) ≡ ok message
  unfolding read_message
  read_message-ok message plain h =
      >>=-ok _ _ message (ap (λ o. or_throw o not_json) (parse-bytes message plain))
      ∙ >>=-ok _ _ tt (guard-ok _ invalid_message h)

pub decode_json-encode :
    (bs : List ℕ) → All IsByte bs → decode_json (some (string (encode bs))) ≡ ok bs
unfolding decode_json as_string
decode_json-encode bs h = decode_member-encode bs h

-- An empty array is written as an empty text, which is falsy.
pub decode_or_empty-encode :
    (bs : List ℕ) → All IsByte bs → decode_or_empty (some (string (encode bs))) ≡ ok bs
unfolding decode_or_empty is_truthy encode
decode_or_empty-encode [] h = refl
decode_or_empty-encode (b ∷ bs) h =
    let (c, (t, e)) = encode-cons b bs in
    let truthy : is_truthy (some (string (encode (b ∷ bs)))) ≡ true = rw e refl in
    rw truthy (decode_json-encode (b ∷ bs) h)

pub curve_of_epk-written :
    (c : Curve) (x y : List ℕ) → curve_of_epk (object (jwk_members c x y)) ≡ ok (crv_of c)
unfolding curve_of_epk jwk_members okp_members ec_members text_is is_object get field as_string
    text_eq
curve_of_epk-written x25519 x y = refl
curve_of_epk-written p256 x y = refl

pub check_header-authcrypt :
    (apu apv : List ℕ) (d : ℕ) (skid : Text) (c : Curve) (x y : List ℕ) (key : Json)
    → check_header (authcrypt_header apu apv (d ∷ skid) (object (jwk_members c x y))) (some key)
      ≡ ok (authcrypt (crv_of c) (d ∷ skid) key)
unfolding check_header authcrypt_mode authcrypt_header text_is is_truthy get field as_string text_eq
check_header-authcrypt apu apv d skid c x y key = >>=-ok _ _ (crv_of c) (curve_of_epk-written c x y)

pub check_header-anoncrypt :
    (apv : List ℕ) (c : Curve) (x y : List ℕ) (sender : Option Json)
    → check_header (anoncrypt_header apv (object (jwk_members c x y))) sender
      ≡ ok (anoncrypt (crv_of c))
unfolding check_header anoncrypt_header text_is get field as_string text_eq
check_header-anoncrypt apv c x y sender = >>=-ok _ _ (crv_of c) (curve_of_epk-written c x y)

pub encrypted_key_of-entry :
    (kid : Text) (b : ℕ) (ek : List ℕ)
    → encrypted_key_of (cons (recipient_entry kid (b ∷ ek)) nil) kid ≡ ok (string (encode (b ∷ ek)))
unfolding encrypted_key_of find_entry entry_kid recipient_entry text_is get field as_string
    is_truthy text_eq
encrypted_key_of-entry kid b ek =
    let (c, (t, e)) = encode-cons b ek in rw (text_eq_refl kid, e) refl

pub read_content-ok :
    (protected kid : Text) (ek iv : List ℕ) (s : Sealed)
    → All IsByte iv
    → All IsByte s.ciphertext
    → All IsByte s.tag
    → read_content (jwe_value protected kid ek iv s)
      ≡ ok (record { iv = iv; ciphertext = s.ciphertext; tag = s.tag })
unfolding read_content jwe_value get field text_eq
read_content-ok protected kid ek iv s hi hc ht =
    >>=-ok _ _ iv (decode_json-encode iv hi)
    ∙ >>=-ok _ _ s.ciphertext (decode_json-encode s.ciphertext hc)
    ∙ >>=-ok _ _ s.tag (decode_json-encode s.tag ht)

pub authcrypt_header-plain :
    (apu apv : List ℕ) (skid : Text) (c : Curve) (x y : List ℕ)
    → is_plain (authcrypt_header apu apv skid (object (jwk_members c x y))) ≡ true
unfolding is_plain is_plain_name field text_eq authcrypt_header jwk_members okp_members ec_members
authcrypt_header-plain apu apv skid x25519 x y = refl
authcrypt_header-plain apu apv skid p256 x y = refl

pub anoncrypt_header-plain :
    (apv : List ℕ) (c : Curve) (x y : List ℕ)
    → is_plain (anoncrypt_header apv (object (jwk_members c x y))) ≡ true
unfolding is_plain is_plain_name field text_eq anoncrypt_header jwk_members okp_members ec_members
anoncrypt_header-plain apv x25519 x y = refl
anoncrypt_header-plain apv p256 x y = refl
