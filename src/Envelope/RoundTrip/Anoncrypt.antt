-- ===== src/Envelope/RoundTrip/Anoncrypt.antt =====
-- `unpack` of what `packAnoncrypt` returns (src/anoncrypt.js, src/unpack.js).
use vti_didcomm_js.Prelude.{
  ℕ, ◌≤◌, true, false, Option, none, List, [], length, not, ok, guard, >>=-ok, ◌≡◌, ap, sym, ◌∙◌,
  arith, All, IsByte,
}
use mathlib.Core.Path.{subst}
use vti_didcomm_js.Prelude.Text.{Text, codes, text_eq, text_eq_refl}
use vti_didcomm_js.Json.{Json, string, cons, nil, get, field, is_truthy, is_record, is_plain}
use vti_didcomm_js.Base64url.{encode}
use vti_didcomm_js.Platform.{Platform, IsPlatform}
use vti_didcomm_js.Envelope.{no_recipient_entry, curve_mismatch}
use vti_didcomm_js.Envelope.ContentEncryption.{Sealed, decrypt, wrap_key, unwrap_key}
use vti_didcomm_js.Envelope.ContentEncryption.Inverse.{
  guard-ok, decrypt-encrypt, encrypt-bytes, unwrap_key-wrap_key,
}
use vti_didcomm_js.Envelope.Agreement.{Curve, crv_of, derive_kek_anoncrypt, recipient_kek_anoncrypt}
use vti_didcomm_js.Envelope.Agreement.Symmetry.{IsKeyPair, kek_anoncrypt-agree}
use vti_didcomm_js.Envelope.Jwk.Raw.{
  curve_of-private, raw_private-written, IsWritten, IsKeyPair-IsWritten,
}
use vti_didcomm_js.Envelope.Pack.{
  Draw, alg_anoncrypt, anoncrypt_header, recipient_entry, jwe_value, protect, seal, assemble,
  pack_anoncrypt,
}
use vti_didcomm_js.Envelope.Unpack.{
  Agreed, Unpacked, anoncrypt, accept_sender, encrypted_key_of, decode_or_empty, read_agreed,
  unwrap_cek, unpack,
}
use vti_didcomm_js.Envelope.Unpack.Reads.{
  read_jwe-ok, read_message-ok, decode_json-encode, decode_or_empty-encode, check_header-anoncrypt,
  anoncrypt_header-plain, encrypted_key_of-entry, read_content-ok,
}
use vti_didcomm_js.Envelope.RoundTrip.{
  IsDraw, IsHolder, IsHolder-values, public_value, private_value, generate_key_pair-ok,
  public_jwk-ok, recipient_curve-ok, wrapped-cons,
}

-- What `unpack` reports of a message without a sender.
abbrev pub unauthenticated : Json → Unpacked
unauthenticated message = record {
  message = message;
  sender_kid = none;
  sender_did = none;
  authenticated = false;
  legacy_kek_used = false;
}

module _ (p : Platform) (laws : IsPlatform p) (c : Curve) where
  abbrev header_for : (recipient_kid : Text) (x y : List ℕ) → Json
  header_for recipient_kid x y =
      anoncrypt_header (p.sha256 (p.utf8_encode recipient_kid)) (public_value c x y)

  pack_anoncrypt-ok :
      (message : Json) (recipient_kid : Text) (public_r xr yr public_e x y kek : List ℕ)
      (draw : Draw) (sealed : Sealed)
      → text_eq recipient_kid [] ≡ false
      → IsWritten p laws c public_r xr yr
      → IsKeyPair p c draw.ephemeral public_e
      → IsWritten p laws c public_e x y
      → seal p (protect p (header_for recipient_kid x y)) message draw ≡ ok sealed
      → derive_kek_anoncrypt p
          (crv_of c)
          draw.ephemeral
          public_r
          alg_anoncrypt
          []
          (p.sha256 (p.utf8_encode recipient_kid))
        ≡ ok kek
      → wrap_key p kek draw.cek ≡ ok (p.aes_kw_wrap kek draw.cek)
      → pack_anoncrypt p message (record { kid = recipient_kid; jwk = public_value c xr yr }) draw
        ≡ ok (
            p.stringify (
              jwe_value
                (protect p (header_for recipient_kid x y))
                recipient_kid
                (p.aes_kw_wrap kek draw.cek)
                draw.iv
                sealed))
  unfolding pack_anoncrypt assemble
  pack_anoncrypt-ok message recipient_kid public_r xr yr public_e x y kek draw sealed hn wr ke we es
        ek ew =
      >>=-ok _ _ tt (ap (λ b. guard (not b) no_recipient_entry) hn)
      ∙ >>=-ok _ _ _ (recipient_curve-ok p laws c xr yr)
      ∙ >>=-ok _ _ public_r wr.raw
      ∙ >>=-ok _ _ public_e (generate_key_pair-ok p laws c draw.ephemeral public_e ke)
      ∙ >>=-ok _ _ _ (public_jwk-ok p laws c public_e x y we)
      ∙ >>=-ok _ _ sealed es
      ∙ >>=-ok _ _ kek ek
      ∙ >>=-ok _ _ _ ew

  read_agreed-anoncrypt :
      (apv r x y xr yr public_e public_r : List ℕ)
      → All IsByte apv
      → IsKeyPair p c r public_r
      → IsWritten p laws c public_e x y
      → read_agreed p
          (anoncrypt_header apv (public_value c x y))
          (crv_of c)
          (private_value c xr yr r)
        ≡ ok (record { recipient_private = r; ephemeral_public = public_e; apu = []; apv = apv })
  unfolding read_agreed anoncrypt_header decode_or_empty is_truthy get field text_eq
  read_agreed-anoncrypt apv r x y xr yr public_e public_r hv kr we =
      >>=-ok _ _ _ (curve_of-private c xr yr (string (encode r)))
      ∙ >>=-ok _ _ tt (guard-ok _ (curve_mismatch (crv_of c) (crv_of c)) (text_eq_refl (crv_of c)))
      ∙ >>=-ok _ _ r (raw_private-written c xr yr r kr.private_size kr.private_bytes)
      ∙ >>=-ok _ _ public_e we.raw
      ∙ >>=-ok _ _ apv (decode_or_empty-encode apv hv)

  unpack-value :
      (message : Json) (recipient_kid : Text) (r public_r public_e xr yr x y kek : List ℕ)
      (sender : Option Json) (draw : Draw) (sealed : Sealed)
      → IsDraw draw
      → IsKeyPair p c r public_r
      → IsWritten p laws c public_e x y
      → text_eq recipient_kid [] ≡ false
      → is_plain message ≡ true
      → is_record message ≡ true
      → All IsByte sealed.ciphertext × All IsByte sealed.tag × (length sealed.tag ≡ 32)
      → decrypt p draw.cek draw.iv
          (p.utf8_encode (protect p (header_for recipient_kid x y)))
          sealed.ciphertext
          sealed.tag
        ≡ ok (p.utf8_encode (p.stringify message))
      → recipient_kek_anoncrypt p
          (crv_of c)
          r
          public_e
          alg_anoncrypt
          []
          (p.sha256 (p.utf8_encode recipient_kid))
        ≡ ok kek
      → length kek ≡ 32
      → unwrap_key p kek (p.aes_kw_wrap kek draw.cek) ≡ ok draw.cek
      → unpack p
          (p.stringify (
            jwe_value
              (protect p (header_for recipient_kid x y))
              recipient_kid
              (p.aes_kw_wrap kek draw.cek)
              draw.iv
              sealed))
          (record { kid = recipient_kid; jwk = private_value c xr yr r })
          sender
        ≡ ok (unauthenticated message)
  unfolding unpack unwrap_cek accept_sender
  unpack-value message recipient_kid r public_r public_e xr yr x y kek sender draw sealed hd kr we
        hn hp hm sb ed ek size eu =
      let (ct_bytes, tag_bytes, tag_size) = sb in
      let apv = p.sha256 (p.utf8_encode recipient_kid) in
      let wrapped = p.aes_kw_wrap kek draw.cek in
      let (b, (rest, cons_wrapped)) = wrapped-cons p laws c kek draw.cek size hd.cek_size in
      let a : Agreed = record {
        recipient_private = r;
        ephemeral_public = public_e;
        apu = [];
        apv = apv;
      } in
      let found : encrypted_key_of (cons (recipient_entry recipient_kid wrapped) nil) recipient_kid
          ≡ ok (string (encode wrapped)) =
        subst
          (λ w.
            encrypted_key_of (cons (recipient_entry recipient_kid w) nil) recipient_kid
            ≡ ok (string (encode w)))
          (sym cons_wrapped) (encrypted_key_of-entry recipient_kid b rest) in
      let content_key : unwrap_cek p (anoncrypt (crv_of c)) a sealed.tag wrapped
          ≡ ok (draw.cek, false) =
        >>=-ok _ _ kek ek ∙ >>=-ok _ _ draw.cek eu in
      >>=-ok _ _ tt (ap (λ b. guard (not b) no_recipient_entry) hn)
      ∙ >>=-ok _ _ _ (
          read_jwe-ok p laws (header_for recipient_kid x y) recipient_kid wrapped draw.iv sealed
            (anoncrypt_header-plain apv c x y))
      ∙ >>=-ok _ _ _ (check_header-anoncrypt apv c x y sender)
      ∙ >>=-ok _ _ _ found
      ∙ >>=-ok _ _ _ (
          read_content-ok (protect p (header_for recipient_kid x y)) recipient_kid wrapped draw.iv
            sealed hd.iv_bytes ct_bytes tag_bytes)
      ∙ >>=-ok _ _ a (
          read_agreed-anoncrypt apv r x y xr yr public_e public_r
            (laws.sha256_bytes (p.utf8_encode recipient_kid)) kr we)
      ∙ >>=-ok _ _ wrapped (decode_json-encode wrapped (laws.wrap_bytes kek draw.cek))
      ∙ >>=-ok _ _ (draw.cek, false) content_key
      ∙ >>=-ok _ _ _ ed
      ∙ >>=-ok _ _ message (read_message-ok p laws message hp hm)

  -- Given the laws of the platform: for a recipient with a key pair on a supported curve and a key id that is not empty, and
  -- a message that is an object of plain values, `packAnoncrypt` returns a text, and `unpack` of it with the recipient's
  -- private JWK gives that message, not authenticated and without a sender, whatever sender key it is given.
  pub unpack-pack_anoncrypt :
      (message : Json) (recipient_id : Text) (draw : Draw) (public_e r public_r : List ℕ)
      (recipient_jwk recipient_public : Json) (sender : Option Json)
      → IsDraw draw
      → IsKeyPair p c draw.ephemeral public_e
      → IsHolder p c r public_r recipient_jwk recipient_public
      → is_plain message ≡ true
      → is_record message ≡ true
      → text_eq recipient_id [] ≡ false
      → length (p.utf8_encode alg_anoncrypt) ≤ 0xffffffff
      → (text : Text) × (pack_anoncrypt p message
            (record { kid = recipient_id; jwk = recipient_public })
            draw
          ≡ ok text)
        × (unpack p text (record { kid = recipient_id; jwk = recipient_jwk }) sender
            ≡ ok (unauthenticated message))
  unfolding seal
  unpack-pack_anoncrypt message recipient_id draw public_e r public_r recipient_jwk recipient_public
        sender hd ke hr plain rec nr ha =
      let (x, y, we) = IsKeyPair-IsWritten p laws c draw.ephemeral public_e ke in
      let (xr, yr, wr, own_r, shared_r) =
        IsHolder-values p laws c r public_r recipient_jwk recipient_public hr in
      let apv = p.sha256 (p.utf8_encode recipient_id) in
      let protected = protect p (header_for recipient_id x y) in
      let plaintext = p.utf8_encode (p.stringify message) in
      let (sealed, es, ed) =
        decrypt-encrypt p laws draw.cek draw.iv (p.utf8_encode protected) plaintext hd.cek_size
          hd.iv_size (laws.utf8_bytes (p.stringify message)) in
      let sb =
        encrypt-bytes p laws draw.cek draw.iv (p.utf8_encode protected) plaintext sealed es in
      let (kek, ek, er, size) =
        kek_anoncrypt-agree p laws c draw.ephemeral public_e r public_r 69 (codes "CDH-ES+A256KW")
          [] apv ke hr.pair ha (omega arith)
          (omega (arith, laws.sha256_size (p.utf8_encode recipient_id))) in
      let (ew, eu) = unwrap_key-wrap_key p laws kek draw.cek size hd.cek_size hd.cek_bytes in
      rw (sym own_r, sym shared_r)
        (
          _,
          pack_anoncrypt-ok message recipient_id public_r xr yr public_e x y kek draw sealed nr wr
              ke we es ek ew,
          unpack-value message recipient_id r public_r public_e xr yr x y kek sender draw sealed hd
              hr.pair we nr plain rec sb ed er size eu,
        )
