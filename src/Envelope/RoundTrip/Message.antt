-- ===== src/Envelope/RoundTrip/Message.antt =====
-- `unpack` of what `pack` returns (src/pack.js, src/unpack.js).
use vti_didcomm_js.Prelude.{
  ℕ, ◌≤◌, true, false, some, List, [], ◌∷◌, length, ok, ◌≡◌, sym, ◌∙◌, arith,
}
use vti_didcomm_js.Prelude.Text.{Text, codes, text_eq, starts_with}
use vti_didcomm_js.Json.{Json, get, as_string, is_record, is_plain}
use vti_didcomm_js.DidScid.{scid_identity}
use vti_didcomm_js.Platform.{Platform, IsPlatform, byte_order_mark}
use vti_didcomm_js.Envelope.ContentEncryption.Inverse.{
  decrypt-encrypt, encrypt-bytes, unwrap_key-wrap_key,
}
use vti_didcomm_js.Envelope.Agreement.{Curve}
use vti_didcomm_js.Envelope.Agreement.Symmetry.{IsKeyPair, kek_authcrypt-agree}
use vti_didcomm_js.Envelope.Jwk.Raw.{IsWritten, IsKeyPair-IsWritten}
use vti_didcomm_js.Envelope.Pack.{Draw, alg_authcrypt, sender_kid, protect, seal, pack}
use vti_didcomm_js.Envelope.Unpack.{is_bound, unpack}
use vti_didcomm_js.Envelope.RoundTrip.{
  IsDraw, public_value, private_value, IsHolder, IsHolder-values,
}
use vti_didcomm_js.Envelope.RoundTrip.Authcrypt.{
  authenticated_as, header_for, pack_as-ok, pack-pack_as, unpack-value,
}

module _ (p : Platform) (laws : IsPlatform p) (c : Curve) where
  pack-unpack_values :
      (message : Json) (sender_id recipient_id : Text) (d : ℕ) (skid : Text) (draw : Draw)
      (public_e x y s public_s xs ys r public_r xr yr : List ℕ)
      → IsDraw draw
      → IsKeyPair p c draw.ephemeral public_e
      → IsWritten p laws c public_e x y
      → IsKeyPair p c s public_s
      → IsWritten p laws c public_s xs ys
      → IsKeyPair p c r public_r
      → IsWritten p laws c public_r xr yr
      → is_plain message ≡ true
      → is_record message ≡ true
      → text_eq sender_id [] ≡ false
      → text_eq recipient_id [] ≡ false
      → sender_kid sender_id (as_string (get message (codes "from"))) ≡ d ∷ skid
      → p.utf8_decode (p.utf8_encode (d ∷ skid)) ≡ d ∷ skid
      → is_bound (scid_identity (d ∷ skid)) (as_string (get message (codes "from"))) ≡ true
      → length (p.utf8_encode alg_authcrypt) ≤ 0xffffffff
      → length (p.utf8_encode (d ∷ skid)) ≤ 0xffffffff
      → (text : Text) × (pack p message
            (record { kid = sender_id; jwk = private_value c xs ys s })
            (record { kid = recipient_id; jwk = public_value c xr yr })
            draw
          ≡ ok text)
        × (unpack p text
              (record { kid = recipient_id; jwk = private_value c xr yr r })
              (some (public_value c xs ys))
            ≡ ok (authenticated_as (d ∷ skid) message))
  unfolding seal
  pack-unpack_values message sender_id recipient_id d skid draw public_e x y s public_s xs ys r
        public_r xr yr hd ke we ks ws kr wr hp hm hs hr id hu hb ha hk =
      let apu = p.utf8_encode (d ∷ skid) in
      let apv = p.sha256 (p.utf8_encode recipient_id) in
      let protected = protect p (header_for p laws c (d ∷ skid) recipient_id x y) in
      let plaintext = p.utf8_encode (p.stringify message) in
      let (sealed, es, ed) =
        decrypt-encrypt p laws draw.cek draw.iv (p.utf8_encode protected) plaintext hd.cek_size
          hd.iv_size (laws.utf8_bytes (p.stringify message)) in
      let sb =
        encrypt-bytes p laws draw.cek draw.iv (p.utf8_encode protected) plaintext sealed es in
      let (ct_bytes, tag_bytes, tag_size) = sb in
      let (kek, ek, er, size) =
        kek_authcrypt-agree p laws c draw.ephemeral public_e s public_s r public_r 69
          (codes "CDH-1PU+A256KW") apu apv sealed.tag false ke ks kr ha hk
          (omega (arith, laws.sha256_size (p.utf8_encode recipient_id)))
          (omega (arith, tag_size)) in
      let (ew, eu) = unwrap_key-wrap_key p laws kek draw.cek size hd.cek_size hd.cek_bytes in
      (
        _,
        pack-pack_as p laws c message sender_id recipient_id (d ∷ skid) draw s public_r xs ys xr yr
              hs hr ks.private_size ks.private_bytes wr id
            ∙ pack_as-ok p laws c message (d ∷ skid) recipient_id s public_r public_e x y kek draw
                sealed ke we es ek ew,
        unpack-value p laws c message d skid recipient_id r public_r public_s public_e xs ys xr yr x
            y kek draw sealed hd kr ws we hr hp hm hu hb sb ed er size eu,
      )

  -- Given the laws of the platform: for parties with key pairs on a supported curve and key ids that are
  -- not empty, a message that is an object of plain values, and a sender whose `from` is a DID without
  -- a fragment and the identity of the key id that `pack` derives, `pack` returns a text, and `unpack` of it
  -- with the recipient's private and the sender's public JWK gives that message, authenticated, from
  -- that key id and DID, and without the legacy key derivation.
  pub unpack-pack :
      (message : Json) (sender_id recipient_id : Text) (d : ℕ) (skid : Text) (draw : Draw)
      (public_e s public_s r public_r : List ℕ)
      (sender_jwk sender_public recipient_jwk recipient_public : Json)
      → IsDraw draw
      → IsKeyPair p c draw.ephemeral public_e
      → IsHolder p c s public_s sender_jwk sender_public
      → IsHolder p c r public_r recipient_jwk recipient_public
      → is_plain message ≡ true
      → is_record message ≡ true
      → text_eq sender_id [] ≡ false
      → text_eq recipient_id [] ≡ false
      → sender_kid sender_id (as_string (get message (codes "from"))) ≡ d ∷ skid
      → p.is_well_formed (d ∷ skid) ≡ true
      → starts_with (d ∷ skid) byte_order_mark ≡ false
      → is_bound (scid_identity (d ∷ skid)) (as_string (get message (codes "from"))) ≡ true
      → length (p.utf8_encode alg_authcrypt) ≤ 0xffffffff
      → length (p.utf8_encode (d ∷ skid)) ≤ 0xffffffff
      → (text : Text) × (pack p message
            (record { kid = sender_id; jwk = sender_jwk })
            (record { kid = recipient_id; jwk = recipient_public })
            draw
          ≡ ok text)
        × (unpack p text (record { kid = recipient_id; jwk = recipient_jwk }) (some sender_public)
            ≡ ok (authenticated_as (d ∷ skid) message))
  unpack-pack message sender_id recipient_id d skid draw public_e s public_s r public_r sender_jwk
        sender_public recipient_jwk recipient_public hd ke hs hr plain rec ns nr id wf nb bound ha
        hk =
      let (x, y, we) = IsKeyPair-IsWritten p laws c draw.ephemeral public_e ke in
      let (xs, ys, ws, own_s, shared_s) =
        IsHolder-values p laws c s public_s sender_jwk sender_public hs in
      let (xr, yr, wr, own_r, shared_r) =
        IsHolder-values p laws c r public_r recipient_jwk recipient_public hr in
      rw (sym own_s, sym shared_s, sym own_r, sym shared_r)
        (pack-unpack_values message sender_id recipient_id d skid draw public_e x y s public_s xs ys
          r public_r xr yr hd ke we hs.pair ws hr.pair wr plain rec ns nr id
          (laws.decode-encode (d ∷ skid) wf nb) bound ha hk)
