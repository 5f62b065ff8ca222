-- ===== src/Envelope/Unpack/Bound.antt =====
-- Who an unpacked message is from (src/unpack.js).
use vti_didcomm_js.Prelude.{
  ℕ, true, false, Option, some, List, ◌||◌, Bool-cases, inl, inr, ok, guard, or_throw, >>=-eq-ok,
  or_throw-eq-ok, ok-injective, ◌≡◌, ap, ◌∙◌,
}
use vti_didcomm_js.Prelude.Text.{Text, codes, starts_with, includes}
use vti_didcomm_js.Json.{Json, get, as_string, is_truthy}
use vti_didcomm_js.DidScid.{scid_identity}
use vti_didcomm_js.Platform.{Platform}
use vti_didcomm_js.Envelope.{
  unsupported_alg, unsupported_enc, invalid_epk, no_skid, no_sender, apu_mismatch,
}
use vti_didcomm_js.Envelope.ContentEncryption.{decrypt}
use vti_didcomm_js.Envelope.Pack.{Party, alg_authcrypt, alg_anoncrypt, enc}
use vti_didcomm_js.Envelope.Unpack.{
  Jwe, Content, authcrypt, anoncrypt, Agreed, Unpacked, decode_json, curve_of_epk, authcrypt_mode,
  check_header, encrypted_key_of, read_content, text_is, read_jwe, read_agreed, unwrap_cek,
  read_message,
}

-- How an authenticated result comes from the text: the envelope and the parts of it that are read; the
-- header's `skid` and the key of the sender that the caller gave; the content key that unwraps under the
-- agreement of these; the plaintext that decrypts under the content key. The result reports the `skid`,
-- and the `from` of its message has no fragment and is the same identity, a DID.
pub record IsBound (p : Platform) (text : Text) (recipient : Party) (sender : Option Json)
    (r : Unpacked) : Type 0 where
  pub jwe : Jwe
  pub content : Content
  pub entry : Json
  pub skid : Text
  pub from : Text
  pub key : Json
  pub crv : Text
  pub agreed : Agreed
  pub wrapped : List ℕ
  pub cek : List ℕ
  pub plaintext : List ℕ
  pub of_text : read_jwe p text ≡ ok jwe
  pub of_header : check_header jwe.header sender ≡ ok (authcrypt crv skid key)
  pub of_skid_member : as_string (get jwe.header (codes "skid")) ≡ some skid
  pub of_sender : sender ≡ some key
  pub of_entry : encrypted_key_of jwe.recipients recipient.kid ≡ ok entry
  pub of_wrapped : decode_json (some entry) ≡ ok wrapped
  pub of_content : read_content jwe.value ≡ ok content
  pub of_agreed : read_agreed p jwe.header crv recipient.jwk ≡ ok agreed
  pub of_apu : p.utf8_decode agreed.apu ≡ skid
  pub unwraps :
      unwrap_cek p (authcrypt crv skid key) agreed content.tag wrapped ≡ ok (cek, r.legacy_kek_used)
  pub decrypts :
      decrypt p cek content.iv (p.utf8_encode jwe.protected) content.ciphertext content.tag
      ≡ ok plaintext
  pub of_message : read_message p plaintext ≡ ok r.message
  pub of_skid : r.sender_kid ≡ some skid
  pub of_did : r.sender_did ≡ some (scid_identity skid)
  pub is_did : starts_with (scid_identity skid) (codes "did:") ≡ true
  pub of_from : as_string (get r.message (codes "from")) ≡ some from
  pub no_fragment : includes from (codes "#") ≡ false
  pub same_identity : scid_identity from ≡ scid_identity skid

authcrypt_mode-parts :
    (crv crv' : Text) (skid sender : Option Json) (skid' : Text) (key : Json)
    → authcrypt_mode crv skid sender ≡ ok (authcrypt crv' skid' key)
    → (sender ≡ some key) × (as_string skid ≡ some skid')
unfolding authcrypt_mode
authcrypt_mode-parts crv crv' skid sender skid' key e =
    let (a, ea, e₁) = >>=-eq-ok (guard (is_truthy skid) no_skid) _ e in
    let (jwk, ej, e₂) = >>=-eq-ok (or_throw sender no_sender) _ e₁ in
    let (text, et, e₃) = >>=-eq-ok (or_throw (as_string skid) apu_mismatch) _ e₂ in
    let (same_key, same_skid) = same (ok-injective e₃) in
    (
      or_throw-eq-ok sender no_sender (ej ∙ ap ok same_key),
      or_throw-eq-ok (as_string skid) apu_mismatch (et ∙ ap ok same_skid),
    )
  where
    same :
        {c c' s s' : Text} {k k' : Json}
        → authcrypt c s k ≡ authcrypt c' s' k'
        → (k ≡ k') × (s ≡ s')
    same h = (cc, cc)

pub check_header-parts :
    (header : Json) (sender : Option Json) (crv skid : Text) (key : Json)
    → check_header header sender ≡ ok (authcrypt crv skid key)
    → (sender ≡ some key) × (as_string (get header (codes "skid")) ≡ some skid)
unfolding check_header
check_header-parts header sender crv skid key e =
    let alg = as_string (get header (codes "alg")) in
    let (a, ea, e₁) =
      >>=-eq-ok (guard (text_is alg alg_authcrypt || text_is alg alg_anoncrypt) unsupported_alg) _
        e in
    let (b, eb, e₂) =
      >>=-eq-ok (guard (text_is (as_string (get header (codes "enc"))) enc) unsupported_enc) _ e₁ in
    let (epk, ep, e₃) = >>=-eq-ok (or_throw (get header (codes "epk")) invalid_epk) _ e₂ in
    let (c, ec, e₄) = >>=-eq-ok (curve_of_epk epk) _ e₃ in
    elim (Bool-cases (text_is alg alg_authcrypt)) [
      | inl auth ↦ authcrypt_mode-parts c crv _ sender skid key (rw auth at e₄)
      | inr anon ↦ absurd (different (ok-injective (rw anon at e₄)))
    ]
  where
    different : {c c' s : Text} {k : Json} → anoncrypt c ≡ authcrypt c' s k → ⊥
    different h = cc
