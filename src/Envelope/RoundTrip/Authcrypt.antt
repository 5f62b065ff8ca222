-- ===== src/Envelope/RoundTrip/Authcrypt.antt =====
-- What `pack` returns, `unpack` opens (src/pack.js, src/unpack.js).
use vti_didcomm_js.Prelude.{
  ℕ, true, false, some, List, [], ◌∷◌, length, not, ok, guard, >>=-ok, ◌≡◌, ap, sym, ◌∙◌, All,
  IsByte,
}
use mathlib.Core.Path.{subst}
use vti_didcomm_js.Prelude.Text.{Text, codes, text_eq}
use vti_didcomm_js.Json.{Json, string, cons, nil, get, as_string, is_record, is_plain}
use vti_didcomm_js.Base64url.{encode}
use vti_didcomm_js.DidScid.{scid_identity}
use vti_didcomm_js.Platform.{Platform, IsPlatform}
use vti_didcomm_js.Envelope.{no_sender, no_recipient_entry, sender_mismatch}
use vti_didcomm_js.Envelope.ContentEncryption.{Sealed, decrypt, wrap_key, unwrap_key}
use vti_didcomm_js.Envelope.ContentEncryption.Inverse.{guard-ok}
use vti_didcomm_js.Envelope.Agreement.{Curve, crv_of, derive_kek_authcrypt, recipient_kek_authcrypt}
use vti_didcomm_js.Envelope.Agreement.Symmetry.{IsKeyPair}
use vti_didcomm_js.Envelope.Jwk.Raw.{raw_private-written, IsWritten}
use vti_didcomm_js.Envelope.Pack.{
  Draw, alg_authcrypt, authcrypt_header, recipient_entry, jwe_value, sender_kid, protect, seal,
  assemble, pack_as, pack,
}
use vti_didcomm_js.Envelope.Unpack.{
  Agreed, Unpacked, is_bound, accept_sender, encrypted_key_of, unpack,
}
use vti_didcomm_js.Envelope.Unpack.Reads.{
  read_jwe-ok, read_message-ok, decode_json-encode, check_header-authcrypt, authcrypt_header-plain,
  encrypted_key_of-entry, read_content-ok,
}
use vti_didcomm_js.Envelope.RoundTrip.{
  IsDraw, public_value, private_value, generate_key_pair-ok, public_jwk-ok, common_curve-ok,
  read_agreed-ok, unwrap_cek-ok, wrapped-cons,
}

-- What `unpack` reports of a message of the key id `skid`.
abbrev pub authenticated_as : Text → Json → Unpacked
authenticated_as skid message = record {
  message = message;
  sender_kid = some skid;
  sender_did = some (scid_identity skid);
  authenticated = true;
  legacy_kek_used = false;
}

module _ (p : Platform) (laws : IsPlatform p) (c : Curve) where
  -- The protected header of `pack_as`, for an ephemeral key with the coordinates `x` and `y`.
  abbrev pub header_for : (skid recipient_kid : Text) (x y : List ℕ) → Json
  header_for skid recipient_kid x y =
      authcrypt_header (p.utf8_encode skid) (p.sha256 (p.utf8_encode recipient_kid)) skid
        (public_value c x y)

  pub pack_as-ok :
      (message : Json) (skid recipient_kid : Text) (s public_r public_e x y kek : List ℕ)
      (draw : Draw) (sealed : Sealed)
      → IsKeyPair p c draw.ephemeral public_e
      → IsWritten p laws c public_e x y
      → seal p (protect p (header_for skid recipient_kid x y)) message draw ≡ ok sealed
      → derive_kek_authcrypt p
          (crv_of c)
          draw.ephemeral
          s
          public_r
          alg_authcrypt
          (p.utf8_encode skid)
          (p.sha256 (p.utf8_encode recipient_kid))
          sealed.tag
          false
        ≡ ok kek
      → wrap_key p kek draw.cek ≡ ok (p.aes_kw_wrap kek draw.cek)
      → pack_as p message skid recipient_kid (crv_of c) s public_r draw
        ≡ ok (
            p.stringify (
              jwe_value
                (protect p (header_for skid recipient_kid x y))
                recipient_kid
                (p.aes_kw_wrap kek draw.cek)
                draw.iv
                sealed))
  unfolding pack_as assemble
  pack_as-ok message skid recipient_kid s public_r public_e x y kek draw sealed ke we es ek ew =
      >>=-ok _ _ public_e (generate_key_pair-ok p laws c draw.ephemeral public_e ke)
      ∙ >>=-ok _ _ _ (public_jwk-ok p laws c public_e x y we)
      ∙ >>=-ok _ _ sealed es
      ∙ >>=-ok _ _ kek ek
      ∙ >>=-ok _ _ _ ew

  pub pack-pack_as :
      (message : Json) (sender_id recipient_id skid : Text) (draw : Draw)
      (s public_r xs ys xr yr : List ℕ)
      → text_eq sender_id [] ≡ false
      → text_eq recipient_id [] ≡ false
      → length s ≡ 32
      → All IsByte s
      → IsWritten p laws c public_r xr yr
      → sender_kid sender_id (as_string (get message (codes "from"))) ≡ skid
      → pack p message
          (record { kid = sender_id; jwk = private_value c xs ys s })
          (record { kid = recipient_id; jwk = public_value c xr yr })
          draw
        ≡ pack_as p message skid recipient_id (crv_of c) s public_r draw
  unfolding pack
  pack-pack_as message sender_id recipient_id skid draw s public_r xs ys xr yr hs hr ss sb wr id =
      >>=-ok _ _ tt (ap (λ b. guard (not b) no_sender) hs)
      ∙ >>=-ok _ _ tt (ap (λ b. guard (not b) no_recipient_entry) hr)
      ∙ >>=-ok _ _ _ (common_curve-ok p laws c xr yr xs ys s)
      ∙ >>=-ok _ _ s (raw_private-written c xs ys s ss sb)
      ∙ >>=-ok _ _ public_r wr.raw
      ∙ ap (λ k. pack_as p message k recipient_id (crv_of c) s public_r draw) id

  -- `unpack` of such an envelope.
  pub unpack-value :
      (message : Json) (d : ℕ) (skid recipient_kid : Text)
      (r public_r public_s public_e xs ys xr yr x y kek : List ℕ) (draw : Draw) (sealed : Sealed)
      → IsDraw draw
      → IsKeyPair p c r public_r
      → IsWritten p laws c public_s xs ys
      → IsWritten p laws c public_e x y
      → text_eq recipient_kid [] ≡ false
      → is_plain message ≡ true
      → is_record message ≡ true
      → p.utf8_decode (p.utf8_encode (d ∷ skid)) ≡ d ∷ skid
      → is_bound (scid_identity (d ∷ skid)) (as_string (get message (codes "from"))) ≡ true
      → All IsByte sealed.ciphertext × All IsByte sealed.tag × (length sealed.tag ≡ 32)
      → decrypt p draw.cek draw.iv
          (p.utf8_encode (protect p (header_for (d ∷ skid) recipient_kid x y)))
          sealed.ciphertext
          sealed.tag
        ≡ ok (p.utf8_encode (p.stringify message))
      → recipient_kek_authcrypt p
          (crv_of c)
          r
          public_e
          public_s
          alg_authcrypt
          (p.utf8_encode (d ∷ skid))
          (p.sha256 (p.utf8_encode recipient_kid))
          sealed.tag
          false
        ≡ ok kek
      → length kek ≡ 32
      → unwrap_key p kek (p.aes_kw_wrap kek draw.cek) ≡ ok draw.cek
      → unpack p
          (p.stringify (
            jwe_value
              (protect p (header_for (d ∷ skid) recipient_kid x y))
              recipient_kid
              (p.aes_kw_wrap kek draw.cek)
              draw.iv
              sealed))
          (record { kid = recipient_kid; jwk = private_value c xr yr r })
          (some (public_value c xs ys))
        ≡ ok (authenticated_as (d ∷ skid) message)
  unfolding unpack accept_sender
  unpack-value message d skid recipient_kid r public_r public_s public_e xs ys xr yr x y kek draw
        sealed hd kr ws we hn hp hm hu hb sb ed ek size eu =
      let (ct_bytes, tag_bytes, tag_size) = sb in
      let apu = p.utf8_encode (d ∷ skid) in
      let apv = p.sha256 (p.utf8_encode recipient_kid) in
      let wrapped = p.aes_kw_wrap kek draw.cek in
      let (b, (rest, cons_wrapped)) = wrapped-cons p laws c kek draw.cek size hd.cek_size in
      let a : Agreed = record {
        recipient_private = r;
        ephemeral_public = public_e;
        apu = apu;
        apv = apv;
      } in
      let found : encrypted_key_of (cons (recipient_entry recipient_kid wrapped) nil) recipient_kid
          ≡ ok (string (encode wrapped)) =
        subst
          (λ w.
            encrypted_key_of (cons (recipient_entry recipient_kid w) nil) recipient_kid
            ≡ ok (string (encode w)))
          (sym cons_wrapped) (encrypted_key_of-entry recipient_kid b rest) in
      >>=-ok _ _ tt (ap (λ b. guard (not b) no_recipient_entry) hn)
      ∙ >>=-ok _ _ _ (
          read_jwe-ok p laws (header_for (d ∷ skid) recipient_kid x y) recipient_kid wrapped draw.iv
            sealed (authcrypt_header-plain apu apv (d ∷ skid) c x y))
      ∙ >>=-ok _ _ _ (check_header-authcrypt apu apv d skid c x y (public_value c xs ys))
      ∙ >>=-ok _ _ _ found
      ∙ >>=-ok _ _ _ (
          read_content-ok (protect p (header_for (d ∷ skid) recipient_kid x y)) recipient_kid
            wrapped draw.iv sealed hd.iv_bytes ct_bytes tag_bytes)
      ∙ >>=-ok _ _ a (
          read_agreed-ok p laws c apu apv (d ∷ skid) r x y xr yr public_e public_r
            (laws.utf8_bytes (d ∷ skid)) (laws.sha256_bytes (p.utf8_encode recipient_kid)) kr we)
      ∙ >>=-ok _ _ wrapped (decode_json-encode wrapped (laws.wrap_bytes kek draw.cek))
      ∙ >>=-ok _ _ (draw.cek, false)
          (unwrap_cek-ok p laws c a (d ∷ skid) xs ys public_s sealed.tag kek draw.cek hu ws ek eu)
      ∙ >>=-ok _ _ _ ed
      ∙ >>=-ok _ _ message (read_message-ok p laws message hp hm)
      ∙ >>=-ok _ _ tt (guard-ok _ sender_mismatch hb)
