-- ===== src/Envelope/Jwk/Raw.antt =====
-- Reading back the keys that `publicJwk` and `privateJwk` write (src/jwk.js).
use vti_didcomm_js.Prelude.{
  ℕ, true, some, List, [], ◌∷◌, length, ◌==◌, ◌&&◌, ok, or_throw-eq-ok, ok-injective, >>=-ok, ◌≡◌,
  refl, ap, sym, ◌∙◌, arith, All, IsByte,
}
use mathlib.Core.Path.{subst}
use vti_didcomm_js.Prelude.Text.{Text, codes, text_eq}
use vti_didcomm_js.Json.{Json, Members, object, string, get, field, as_string, is_object, is_truthy}
use vti_didcomm_js.Base64url.{encode}
use vti_didcomm_js.Base64url.RoundTrip.{decode-encode}
use vti_didcomm_js.Platform.{Platform, IsPlatform, IsPoint}
use vti_didcomm_js.Envelope.{throw_on, base64, invalid_jwk, no_private_key}
use vti_didcomm_js.Envelope.ContentEncryption.Inverse.{assert_length-ok, guard-ok}
use vti_didcomm_js.Envelope.Agreement.{Curve, x25519, p256, crv_of, key_pair_on}
use vti_didcomm_js.Envelope.Agreement.Symmetry.{
  IsKeyPair, point_coordinates-IsPoint, point_from_coordinates-IsPoint,
}
use vti_didcomm_js.Envelope.Jwk.{
  Shape, okp, ec, crv_member, assert_shape, shape_of_kty, okp_shape, ec_shape, is_okp_curve,
  is_ec_curve, curve_of, decode_member, private_member, raw_private, with_member, ec_members,
  okp_members, public_members, raw_of_shape, raw_public,
}

pub decode_member-encode : (bs : List ℕ) → All IsByte bs → decode_member (encode bs) ≡ ok bs
unfolding decode_member
decode_member-encode bs h = ap (throw_on base64) (decode-encode bs h)

-- The members of a JWK that was written for a curve, with the private member `d` or without.
unfoldable pub jwk_members : Curve → (x y : List ℕ) → Members
jwk_members x25519 x y = okp_members (codes "X25519") x
jwk_members p256 x y = ec_members (codes "P-256") (x, y)

shape_of : Curve → (x y : List ℕ) → Shape
shape_of x25519 x y = okp (codes "X25519") (encode x)
shape_of p256 x y = ec (codes "P-256") (encode x) (encode y)

assert_shape-written :
    (c : Curve) (x y : List ℕ) → assert_shape (object (jwk_members c x y)) ≡ ok (shape_of c x y)
unfolding assert_shape shape_of_kty okp_shape ec_shape is_okp_curve is_ec_curve jwk_members
    okp_members ec_members shape_of get field as_string is_object text_eq
assert_shape-written x25519 x y = refl
assert_shape-written p256 x y = refl

assert_shape-private :
    (c : Curve) (x y : List ℕ) (d : Json)
    → assert_shape (object (with_member (jwk_members c x y) (codes "d") d)) ≡ ok (shape_of c x y)
unfolding assert_shape shape_of_kty okp_shape ec_shape is_okp_curve is_ec_curve jwk_members
    okp_members ec_members shape_of with_member get field as_string is_object text_eq
assert_shape-private x25519 x y d = refl
assert_shape-private p256 x y d = refl

crv_member-shape_of : (c : Curve) (x y : List ℕ) → crv_member (shape_of c x y) ≡ crv_of c
unfolding shape_of
crv_member-shape_of x25519 x y = refl
crv_member-shape_of p256 x y = refl

pub curve_of-written :
    (c : Curve) (x y : List ℕ) → curve_of (object (jwk_members c x y)) ≡ ok (crv_of c)
unfolding curve_of
curve_of-written c x y =
    >>=-ok _ _ _ (assert_shape-written c x y) ∙ ap ok (crv_member-shape_of c x y)

pub curve_of-private :
    (c : Curve) (x y : List ℕ) (d : Json)
    → curve_of (object (with_member (jwk_members c x y) (codes "d") d)) ≡ ok (crv_of c)
unfolding curve_of
curve_of-private c x y d =
    >>=-ok _ _ _ (assert_shape-private c x y d) ∙ ap ok (crv_member-shape_of c x y)

-- A byte array that is not empty has a text that is not empty.
pub encode-cons : (b : ℕ) (bs : List ℕ) → (c : ℕ) × ((t : Text) × (encode (b ∷ bs) ≡ c ∷ t))
unfolding encode
encode-cons b [] = (_, (_, refl))
encode-cons b (b' ∷ []) = (_, (_, refl))
encode-cons b (b' ∷ b'' ∷ bs) = (_, (_, refl))

private_member-encode :
    (bytes : List ℕ)
    → length bytes ≡ 32
    → All IsByte bytes
    → private_member (some (string (encode bytes))) ≡ ok bytes
unfolding private_member as_string is_truthy
private_member-encode [] size h = absurd (omega (arith, size))
private_member-encode (b ∷ bs) size h =
    let (c, (t, e)) = encode-cons b bs in
    let truthy : is_truthy (some (string (encode (b ∷ bs)))) ≡ true = rw e refl in
    >>=-ok _ _ tt (guard-ok _ no_private_key truthy)
    ∙ >>=-ok _ _ (b ∷ bs) (decode_member-encode (b ∷ bs) h)
    ∙ >>=-ok _ _ tt (assert_length-ok (b ∷ bs) 32 size)

d-private :
    (c : Curve) (x y : List ℕ) (d : Json)
    → get (object (with_member (jwk_members c x y) (codes "d") d)) (codes "d") ≡ some d
unfolding jwk_members okp_members ec_members with_member get field text_eq
d-private x25519 x y d = refl
d-private p256 x y d = refl

pub raw_private-written :
    (c : Curve) (x y private_key : List ℕ)
    → length private_key ≡ 32
    → All IsByte private_key
    → raw_private
        (object (with_member (jwk_members c x y) (codes "d") (string (encode private_key))))
      ≡ ok private_key
unfolding raw_private
raw_private-written c x y private_key size h =
    let d = string (encode private_key) in
    >>=-ok _ _ _ (assert_shape-private c x y d)
    ∙ ap private_member (d-private c x y d)
    ∙ private_member-encode private_key size h

module _ (p : Platform) (laws : IsPlatform p) where
  -- How `publicJwk` writes the public key of a pair, and what `rawPublic` reads.
  pub record IsWritten (c : Curve) (public_key x y : List ℕ) : Type 0 where
    pub members : public_members (crv_of c) public_key ≡ ok (jwk_members c x y)
    pub raw : raw_public p (object (jwk_members c x y)) ≡ ok public_key

  IsWritten-x25519 : (key : List ℕ) → length key ≡ 32 → All IsByte key → IsWritten x25519 key key []
  unfolding public_members is_ec_curve is_okp_curve jwk_members raw_public raw_of_shape shape_of
      text_eq
  IsWritten-x25519 key size h = record {
    members = >>=-ok _ _ tt (assert_length-ok key 32 size);
    raw =
        >>=-ok _ _ _ (assert_shape-written x25519 key [])
        ∙ >>=-ok _ _ key (decode_member-encode key h)
        ∙ >>=-ok _ _ tt (assert_length-ok key 32 size);
  }

  sizes : (x y : List ℕ) → length x ≡ 32 → length y ≡ 32 → (length x == 32 && length y == 32) ≡ true
  sizes x y hx hy = rw (hx, hy) refl

  IsWritten-p256 :
      (point : List ℕ) (h : IsPoint point)
      → p.p256_is_point point ≡ true
      → IsWritten p256 point h.x h.y
  unfolding public_members is_ec_curve is_okp_curve jwk_members raw_public raw_of_shape shape_of
      text_eq
  IsWritten-p256 point h valid = record {
    members = >>=-ok _ _ (h.x, h.y) (point_coordinates-IsPoint point h);
    raw =
        >>=-ok _ _ _ (assert_shape-written p256 h.x h.y)
        ∙ >>=-ok _ _ h.x (decode_member-encode h.x h.x_bytes)
        ∙ >>=-ok _ _ h.y (decode_member-encode h.y h.y_bytes)
        ∙ >>=-ok _ _ tt (guard-ok _ invalid_jwk (sizes h.x h.y h.x_size h.y_size))
        ∙ point_from_coordinates-IsPoint p point h valid;
  }

  pub IsKeyPair-IsWritten :
      (c : Curve) (private_key public_key : List ℕ)
      → IsKeyPair p c private_key public_key
      → (x y : List ℕ) × IsWritten c public_key x y
  unfolding key_pair_on
  IsKeyPair-IsWritten x25519 private_key public_key k =
      let same : p.x25519_public private_key ≡ public_key = ok-injective k.matches in
      (
        public_key,
        [],
        IsWritten-x25519 public_key (ap length (sym same) ∙ laws.x25519_size private_key)
            (subst (All IsByte) same (laws.x25519_bytes private_key)),
      )
  IsKeyPair-IsWritten p256 private_key public_key k =
      let (point, valid) = laws.p256_point private_key public_key (or_throw-eq-ok _ _ k.matches) in
      (point.x, point.y, IsWritten-p256 public_key point valid)
