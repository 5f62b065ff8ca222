-- ===== src/MediatorTransport/Peek.antt =====
-- `peekSkid` of src/mediator-transport.js names the sender that `unpack` of src/unpack.js authenticates.
use vti_didcomm_js.Prelude.{
  ℕ, Bool, true, false, Option, some, List, [], not, Result, ok, err, guard, or_throw, >>=-eq-ok,
  or_throw-eq-ok, ok-injective, ◌≡◌, ap, ◌∙◌,
}
use vti_didcomm_js.Prelude.Text.{Text, codes, text_eq}
use vti_didcomm_js.Json.{Json, get, as_string}
use vti_didcomm_js.Platform.{Platform}
use vti_didcomm_js.Base64url.{DecodeError, decode}
use vti_didcomm_js.DidScid.{scid_identity}
use vti_didcomm_js.Envelope.{
  throw_on, base64, not_json, invalid_jwe, no_recipient_entry, sender_mismatch,
}
use vti_didcomm_js.Envelope.ContentEncryption.{decrypt}
use vti_didcomm_js.Envelope.Jwk.{decode_member}
use vti_didcomm_js.Envelope.Pack.{Party}
use vti_didcomm_js.Envelope.Unpack.{
  Jwe, Mode, authcrypt, anoncrypt, Unpacked, assert_jwe_shape, check_header, encrypted_key_of,
  read_content, curve_in, decode_json, accept_sender, is_bound, read_jwe, read_agreed, unwrap_cek,
  read_message, unpack,
}
use vti_didcomm_js.Envelope.Unpack.Bound.{check_header-parts}
use vti_didcomm_js.MediatorTransport.Messages.{json_in, text_member, header_in, peek_skid}

module _ (p : Platform) where
  decoded-json :
      (protected : Text) (bytes : List ℕ)
      → decode_member protected ≡ ok bytes
      → json_in p (decode protected) ≡ p.parse (p.utf8_decode bytes)
  unfolding decode_member json_in
  decoded-json protected bytes e = go (decode protected) e
    where
      go :
          (r : Result DecodeError (List ℕ))
          → throw_on base64 r ≡ ok bytes
          → json_in p r ≡ p.parse (p.utf8_decode bytes)
      go (ok bs) h = ap (λ b. p.parse (p.utf8_decode b)) (ok-injective h)
      go (err x) h = cc

  read_jwe-peek :
      (text : Text) (jwe : Jwe)
      → read_jwe p text ≡ ok jwe
      → peek_skid p text ≡ as_string (get jwe.header (codes "skid"))
  unfolding read_jwe peek_skid text_member header_in
  read_jwe-peek text jwe e =
      let (value, ev, e₁) = >>=-eq-ok (or_throw (p.parse text) not_json) _ e in
      let (recipients, er, e₂) = >>=-eq-ok (assert_jwe_shape value) _ e₁ in
      let (protected, ep, e₃) =
        >>=-eq-ok (or_throw (as_string (get value (codes "protected"))) invalid_jwe) _ e₂ in
      let (bytes, eb, e₄) = >>=-eq-ok (decode_member protected) _ e₃ in
      let (header, eh, e₅) = >>=-eq-ok (or_throw (p.parse (p.utf8_decode bytes)) not_json) _ e₄ in
      ap (λ o. text_member p (header_in p (text_member p o (codes "protected"))) (codes "skid"))
        (or_throw-eq-ok (p.parse text) not_json ev)
      ∙ ap (λ o. text_member p (header_in p o) (codes "skid")) (or_throw-eq-ok _ invalid_jwe ep)
      ∙ ap (λ o. text_member p o (codes "skid"))
          (decoded-json protected bytes eb
            ∙ or_throw-eq-ok (p.parse (p.utf8_decode bytes)) not_json eh)
      ∙ ap (λ j. as_string (get j.header (codes "skid"))) (ok-injective e₅)

  accepted-skid :
      (mode : Mode) (message : Json) (legacy : Bool) (r : Unpacked) (header : Json)
      (sender : Option Json)
      → check_header header sender ≡ ok mode
      → accept_sender mode message legacy ≡ ok r
      → r.authenticated ≡ true
      → as_string (get header (codes "skid")) ≡ r.sender_kid
  unfolding accept_sender
  accepted-skid (anoncrypt crv) message legacy r header sender em ea auth =
      let plain : false ≡ true = ap (λ u. u.authenticated) (ok-injective ea) ∙ auth in cc
  accepted-skid (authcrypt crv skid key) message legacy r header sender em ea auth =
      let (u, eg, e₁) =
        >>=-eq-ok
          (guard (is_bound (scid_identity skid) (as_string (get message (codes "from"))))
            sender_mismatch)
          _ ea in
      (check_header-parts header sender crv skid key em).1
      ∙ ap (λ q. q.sender_kid) (ok-injective e₁)

  -- Where `unpack` authenticates a sender, `peekSkid` of the same text gave that sender's key id.
  pub unpack-peek_skid :
      (text : Text) (recipient : Party) (sender : Option Json) (r : Unpacked)
      → unpack p text recipient sender ≡ ok r
      → r.authenticated ≡ true
      → peek_skid p text ≡ r.sender_kid
  unfolding unpack
  unpack-peek_skid text recipient sender r e auth =
      let (u, eg, e₀) = >>=-eq-ok (guard (not (text_eq recipient.kid [])) no_recipient_entry) _ e in
      let (jwe, ej, e₁) = >>=-eq-ok (read_jwe p text) _ e₀ in
      let (mode, em, e₂) = >>=-eq-ok (check_header jwe.header sender) _ e₁ in
      let (wrapped, ew, e₃) = >>=-eq-ok (encrypted_key_of jwe.recipients recipient.kid) _ e₂ in
      let (content, ec, e₄) = >>=-eq-ok (read_content jwe.value) _ e₃ in
      let (agreed, ea, e₅) =
        >>=-eq-ok (read_agreed p jwe.header (curve_in mode) recipient.jwk) _ e₄ in
      let (key, ek, e₆) = >>=-eq-ok (decode_json (some wrapped)) _ e₅ in
      let ((cek, legacy), eu, e₇) = >>=-eq-ok (unwrap_cek p mode agreed content.tag key) _ e₆ in
      let (plaintext, ed, e₈) =
        >>=-eq-ok
          (decrypt p cek content.iv (p.utf8_encode jwe.protected) content.ciphertext content.tag) _
          e₇ in
      let (message, er, e₉) = >>=-eq-ok (read_message p plaintext) _ e₈ in
      read_jwe-peek text jwe ej ∙ accepted-skid mode message legacy r jwe.header sender em e₉ auth
