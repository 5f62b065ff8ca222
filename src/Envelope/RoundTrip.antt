-- ===== src/Envelope/RoundTrip.antt =====
-- `unpack` on what `pack` and `packAnoncrypt` return (src/pack.js, src/anoncrypt.js, src/unpack.js).
pub mod Authcrypt
pub mod Message
pub mod Anoncrypt
use vti_didcomm_js.Prelude.{
  ℕ, ◌+◌, ◌%◌, ◌≤◌, Bool, true, false, Option, none, some, List, [], ◌∷◌, ◌++◌, length, not, ◌&&◌,
  ◌||◌, Result, ok, err, guard, or_throw, >>=-ok, ok-injective, ◌≡◌, refl, ap, sym, ◌∙◌, arith, All,
  IsByte,
}
use mathlib.Core.Path.{subst}
use vti_didcomm_js.Prelude.Text.{Text, codes, text_eq, text_eq_refl, starts_with}
use vti_didcomm_js.Json.{Json, object, string, get, field, as_string, is_record}
use vti_didcomm_js.Base64url.{encode}
use vti_didcomm_js.DidScid.{scid_identity}
use vti_didcomm_js.Platform.{Platform, IsPlatform, byte_order_mark}
use vti_didcomm_js.Envelope.{
  EnvelopeError, no_sender, no_recipient_entry, unsupported_curve, curve_mismatch, invalid_epk,
  apu_mismatch, sender_mismatch,
}
use vti_didcomm_js.Envelope.ContentEncryption.{Sealed, wrap_key, unwrap_key}
use vti_didcomm_js.Envelope.ContentEncryption.Inverse.{
  guard-ok, assert_length-ok, decrypt-encrypt, encrypt-bytes, unwrap_key-wrap_key,
}
use vti_didcomm_js.Envelope.Agreement.{
  Curve, x25519, p256, crv_of, is_supported, generate_key_pair, derive_kek_authcrypt,
  recipient_kek_authcrypt, derive_kek_anoncrypt, recipient_kek_anoncrypt,
}
use vti_didcomm_js.Envelope.Agreement.Symmetry.{
  IsKeyPair, impl-crv_of, kek_authcrypt-agree, kek_anoncrypt-agree,
}
use vti_didcomm_js.Envelope.Jwk.{
  curve_of, raw_private, raw_public, public_jwk, private_jwk, with_member, with_kid, public_members,
}
use vti_didcomm_js.Envelope.Jwk.Raw.{
  jwk_members, curve_of-written, curve_of-private, raw_private-written, IsWritten,
  IsKeyPair-IsWritten,
}
use vti_didcomm_js.Envelope.Pack.{
  Party, Draw, alg_authcrypt, alg_anoncrypt, authcrypt_header, anoncrypt_header, recipient_entry,
  jwe_value, sender_kid, protect, seal, assemble, recipient_curve, common_curve, pack_as, pack,
  pack_anoncrypt,
}
use vti_didcomm_js.Envelope.Unpack.{
  Agreed, Unpacked, authcrypt, anoncrypt, is_bound, accept_sender, decode_or_empty, read_agreed,
  unwrap_cek, or_legacy, unpack,
}
use vti_didcomm_js.Envelope.Unpack.Reads.{
  read_jwe-ok, read_message-ok, decode_json-encode, decode_or_empty-encode, check_header-authcrypt,
  check_header-anoncrypt, encrypted_key_of-entry, read_content-ok,
}

-- What generateCekAndIv draws.
pub record IsDraw (draw : Draw) : Type 0 where
  pub cek_size : length draw.cek ≡ 64
  pub cek_bytes : All IsByte draw.cek
  pub iv_size : length draw.iv ≡ 16
  pub iv_bytes : All IsByte draw.iv

is_supported-crv_of : (c : Curve) → is_supported (crv_of c) ≡ true
unfolding is_supported text_eq
is_supported-crv_of x25519 = refl
is_supported-crv_of p256 = refl

-- The JWK of a pair's public key, and of the pair.
abbrev pub public_value : Curve → (x y : List ℕ) → Json
public_value c x y = object (jwk_members c x y)

abbrev pub private_value : Curve → (x y key : List ℕ) → Json
private_value c x y key = object (with_member (jwk_members c x y) (codes "d") (string (encode key)))

module _ (p : Platform) (laws : IsPlatform p) (c : Curve) where
  pub generate_key_pair-ok :
      (e public_e : List ℕ)
      → IsKeyPair p c e public_e
      → generate_key_pair p (crv_of c) e ≡ ok public_e
  unfolding generate_key_pair
  generate_key_pair-ok e public_e k = >>=-ok _ _ c (impl-crv_of c) ∙ k.matches

  pub public_jwk-ok :
      (key x y : List ℕ)
      → IsWritten p laws c key x y
      → public_jwk (crv_of c) key none ≡ ok (public_value c x y)
  unfolding public_jwk with_kid
  public_jwk-ok key x y w = >>=-ok _ _ (jwk_members c x y) w.members

  pub recipient_curve-ok : (x y : List ℕ) → recipient_curve p (public_value c x y) ≡ ok (crv_of c)
  unfolding recipient_curve
  recipient_curve-ok x y =
      >>=-ok _ _ _ (curve_of-written c x y)
      ∙ >>=-ok _ _ tt (guard-ok _ (unsupported_curve (crv_of c)) (is_supported-crv_of c))

  pub common_curve-ok :
      (x y x' y' key : List ℕ)
      → common_curve p (public_value c x y) (private_value c x' y' key) ≡ ok (crv_of c)
  unfolding common_curve
  common_curve-ok x y x' y' key =
      >>=-ok _ _ _ (recipient_curve-ok x y)
      ∙ >>=-ok _ _ _ (curve_of-private c x' y' (string (encode key)))
      ∙ >>=-ok _ _ tt (guard-ok _ (curve_mismatch (crv_of c) (crv_of c)) (text_eq_refl (crv_of c)))

  -- Reading the keys of an authcrypt envelope that is addressed to the private key `r`.
  pub read_agreed-ok :
      (apu apv : List ℕ) (skid : Text) (r x y x' y' public_e : List ℕ) (public_r : List ℕ)
      → All IsByte apu
      → All IsByte apv
      → IsKeyPair p c r public_r
      → IsWritten p laws c public_e x y
      → read_agreed p
          (authcrypt_header apu apv skid (public_value c x y))
          (crv_of c)
          (private_value c x' y' r)
        ≡ ok (record { recipient_private = r; ephemeral_public = public_e; apu = apu; apv = apv })
  unfolding read_agreed authcrypt_header get field text_eq
  read_agreed-ok apu apv skid r x y x' y' public_e public_r hu hv kr we =
      >>=-ok _ _ _ (curve_of-private c x' y' (string (encode r)))
      ∙ >>=-ok _ _ tt (guard-ok _ (curve_mismatch (crv_of c) (crv_of c)) (text_eq_refl (crv_of c)))
      ∙ >>=-ok _ _ r (raw_private-written c x' y' r kr.private_size kr.private_bytes)
      ∙ >>=-ok _ _ public_e we.raw
      ∙ >>=-ok _ _ apu (decode_or_empty-encode apu hu)
      ∙ >>=-ok _ _ apv (decode_or_empty-encode apv hv)

  -- Unwrapping the content key of an authcrypt envelope.
  pub unwrap_cek-ok :
      (a : Agreed) (skid : Text) (x y public_s tag kek cek : List ℕ)
      → p.utf8_decode a.apu ≡ skid
      → IsWritten p laws c public_s x y
      → recipient_kek_authcrypt p
          (crv_of c)
          a.recipient_private
          a.ephemeral_public
          public_s
          alg_authcrypt
          a.apu
          a.apv
          tag
          false
        ≡ ok kek
      → unwrap_key p kek (p.aes_kw_wrap kek cek) ≡ ok cek
      → unwrap_cek p (authcrypt (crv_of c) skid (public_value c x y)) a tag (p.aes_kw_wrap kek cek)
        ≡ ok (cek, false)
  unfolding unwrap_cek or_legacy
  unwrap_cek-ok a skid x y public_s tag kek cek hu ws ek eu =
      let same : text_eq (p.utf8_decode a.apu) skid ≡ true = rw hu (text_eq_refl skid) in
      >>=-ok _ _ tt (guard-ok _ apu_mismatch same)
      ∙ >>=-ok _ _ _ (curve_of-written c x y)
      ∙ >>=-ok _ _ tt (guard-ok _ (curve_mismatch (crv_of c) (crv_of c)) (text_eq_refl (crv_of c)))
      ∙ >>=-ok _ _ public_s ws.raw
      ∙ >>=-ok _ _ kek ek
      ∙ ap
          (λ r.
            or_legacy p r
              (recipient_kek_authcrypt p (crv_of c) a.recipient_private a.ephemeral_public public_s
                alg_authcrypt a.apu a.apv tag true)
              (p.aes_kw_wrap kek cek))
          eu

  -- The wrapped key of an envelope is not empty.
  pub wrapped-cons :
      (kek cek : List ℕ)
      → length kek ≡ 32
      → length cek ≡ 64
      → (b : ℕ) × ((rest : List ℕ) × (p.aes_kw_wrap kek cek ≡ b ∷ rest))
  wrapped-cons kek cek hk hc =
      go (p.aes_kw_wrap kek cek) refl (laws.wrap_size kek cek hk (omega (arith, hc)) (rw hc refl))
    where
      go :
          (w : List ℕ)
          → p.aes_kw_wrap kek cek ≡ w
          → length (p.aes_kw_wrap kek cek) ≡ length cek + 8
          → (b : ℕ) × ((rest : List ℕ) × (p.aes_kw_wrap kek cek ≡ b ∷ rest))
      go [] e size = absurd (omega (arith, rw e at size))
      go (b ∷ rest) e size = (b, (rest, e))

  pub private_jwk-ok :
      (private_key key x y : List ℕ)
      → length private_key ≡ 32
      → IsWritten p laws c key x y
      → private_jwk (crv_of c) private_key key none ≡ ok (private_value c x y private_key)
  unfolding private_jwk with_kid
  private_jwk-ok private_key key x y size w =
      >>=-ok _ _ (jwk_members c x y) w.members
      ∙ >>=-ok _ _ tt (assert_length-ok private_key 32 size)

-- A holder of a key pair, with the JWKs that `privateJwk` and `publicJwk` give for it.
pub record IsHolder (p : Platform) (c : Curve) (private_key public_key : List ℕ) (own shared : Json)
    : Type 0 where
  pub pair : IsKeyPair p c private_key public_key
  pub own_jwk : private_jwk (crv_of c) private_key public_key none ≡ ok own
  pub shared_jwk : public_jwk (crv_of c) public_key none ≡ ok shared

pub IsHolder-values :
    (p : Platform) (laws : IsPlatform p) (c : Curve) (private_key public_key : List ℕ)
    (own shared : Json)
    → IsHolder p c private_key public_key own shared
    → (x y : List ℕ) × IsWritten p laws c public_key x y
      × (private_value c x y private_key ≡ own)
      × (public_value c x y ≡ shared)
IsHolder-values p laws c private_key public_key own shared h =
    let (x, y, w) = IsKeyPair-IsWritten p laws c private_key public_key h.pair in
    (
      x,
      y,
      w,
      ok-injective (
          sym (private_jwk-ok p laws c private_key public_key x y h.pair.private_size w)
          ∙ h.own_jwk),
      ok-injective (sym (public_jwk-ok p laws c public_key x y w) ∙ h.shared_jwk),
    )
