-- ===== src/Envelope/Jwk.antt =====
-- src/jwk.js: keys as JSON values and as bytes.
pub mod Raw
use vti_didcomm_js.Prelude.{
  ℕ, Bool, true, false, Option, none, some, List, [], ◌∷◌, ◌++◌, length, take, drop, ◌==◌, ◌&&◌,
  ◌||◌, if◌then◌else◌, is_some, Result, ok, err, guard, or_throw, ◌>>=◌, ◌>>◌,
}
use vti_didcomm_js.Prelude.Text.{Text, codes, text_eq}
use vti_didcomm_js.Json.{
  Json, Members, object, string, member, end, get, as_string, is_object, is_truthy,
}
use vti_didcomm_js.Base64url.{encode, decode, DecodeError}
use vti_didcomm_js.Platform.{Platform}
use vti_didcomm_js.Envelope.{
  EnvelopeError, throw_on, base64, invalid_jwk, no_private_key, unsupported_curve, wrong_length,
}
use vti_didcomm_js.Envelope.ContentEncryption.{assert_length}
use vti_didcomm_js.Envelope.Agreement.{point_coordinates, point_from_coordinates}

-- The members that assertShape checks.
pub data Shape : Type 0 where
  okp : (crv x : Text) → Shape
  ec : (crv x y : Text) → Shape

-- OKP_CURVES and EC_CURVES
unfoldable pub is_okp_curve : Text → Bool
is_okp_curve crv = text_eq crv (codes "X25519") || text_eq crv (codes "Ed25519")

unfoldable pub is_ec_curve : Text → Bool
is_ec_curve crv = text_eq crv (codes "P-256")

-- The members `kty`, `crv`, `x` and `y`, as strings where they are strings.
unfoldable pub okp_shape : Option Text → Option Text → Result EnvelopeError Shape
okp_shape none x = err invalid_jwk
okp_shape (some crv) x = do
  guard (is_okp_curve crv) (unsupported_curve crv)
  x' ← or_throw x invalid_jwk
  ok (okp crv x')

unfoldable pub ec_shape : Option Text → Option Text → Option Text → Result EnvelopeError Shape
ec_shape none x y = err invalid_jwk
ec_shape (some crv) x y = do
  guard (is_ec_curve crv) (unsupported_curve crv)
  x' ← or_throw x invalid_jwk
  y' ← or_throw y invalid_jwk
  ok (ec crv x' y')

unfoldable pub shape_of_kty : Option Text → Json → Result EnvelopeError Shape
shape_of_kty none jwk = err invalid_jwk
shape_of_kty (some kty) jwk =
    let crv = as_string (get jwk (codes "crv")) in
    let x = as_string (get jwk (codes "x")) in
    if text_eq kty (codes "OKP")
    then okp_shape crv x
    else if text_eq kty (codes "EC")
    then ec_shape crv x (as_string (get jwk (codes "y")))
    else err invalid_jwk

-- assertShape
unfoldable pub assert_shape : Json → Result EnvelopeError Shape
assert_shape jwk =
    guard (is_object jwk) invalid_jwk >> shape_of_kty (as_string (get jwk (codes "kty"))) jwk

-- curveOf
abbrev pub crv_member : Shape → Text
crv_member (okp crv x) = crv
crv_member (ec crv x y) = crv

unfoldable pub curve_of : Json → Result EnvelopeError Text
curve_of jwk = assert_shape jwk >>= λ shape. ok (crv_member shape)

unfoldable pub decode_member : Text → Result EnvelopeError (List ℕ)
decode_member s = throw_on base64 (decode s)

-- rawPrivate
unfoldable pub private_member : Option Json → Result EnvelopeError (List ℕ)
private_member d =
    guard (is_truthy d) no_private_key
    >> (or_throw (as_string d) invalid_jwk >>= λ s.
        decode_member s >>= λ bytes. assert_length bytes 32 >> ok bytes)

unfoldable pub raw_private : Json → Result EnvelopeError (List ℕ)
raw_private jwk = assert_shape jwk >>= λ shape. private_member (get jwk (codes "d"))

-- A member set after the others.
unfoldable pub with_member : Members → Text → Json → Members
with_member end name v = member name v end
with_member (member n w rest) name v = member n w (with_member rest name v)

-- `if (kid) jwk.kid = kid`
unfoldable pub with_kid : Option Text → Members → Members
with_kid none ms = ms
with_kid (some []) ms = ms
with_kid (some (c ∷ kid)) ms = with_member ms (codes "kid") (string (c ∷ kid))

-- publicJwk
unfoldable pub ec_members : Text → List ℕ × List ℕ → Members
ec_members crv point = member (codes "kty") (string (codes "EC")) (
    member (codes "crv") (string crv) (
      member (codes "x") (string (encode point.0))
        (member (codes "y") (string (encode point.1)) end)))

unfoldable pub okp_members : Text → List ℕ → Members
okp_members crv key_bytes =
    member (codes "kty") (string (codes "OKP"))
      (member (codes "crv") (string crv) (member (codes "x") (string (encode key_bytes)) end))

unfoldable pub public_members : Text → List ℕ → Result EnvelopeError Members
public_members crv key_bytes =
    if is_ec_curve crv
    then (point_coordinates key_bytes >>= λ point. ok (ec_members crv point))
    else (guard (is_okp_curve crv) (unsupported_curve crv)
        >> (assert_length key_bytes 32 >> ok (okp_members crv key_bytes)))

unfoldable pub public_jwk : Text → List ℕ → Option Text → Result EnvelopeError Json
public_jwk crv key_bytes kid = public_members crv key_bytes >>= λ ms. ok (object (with_kid kid ms))

-- privateJwk
unfoldable pub private_jwk :
    Text → (private_bytes public_bytes : List ℕ) → Option Text → Result EnvelopeError Json
private_jwk crv private_bytes public_bytes kid = do
  ms ← public_members crv public_bytes
  assert_length private_bytes 32
  ok (object (with_member (with_kid kid ms) (codes "d") (string (encode private_bytes))))

-- toPublic
unfoldable pub public_part : Shape → Members
public_part (okp crv x) =
    member (codes "kty") (string (codes "OKP"))
      (member (codes "crv") (string crv) (member (codes "x") (string x) end))
public_part (ec crv x y) = member (codes "kty") (string (codes "EC")) (
    member (codes "crv") (string crv)
      (member (codes "x") (string x) (member (codes "y") (string y) end)))

unfoldable pub to_public : Json → Result EnvelopeError Json
to_public jwk = assert_shape jwk >>= λ shape.
    ok (object (with_kid (as_string (get jwk (codes "kid"))) (public_part shape)))

module _ (p : Platform) where
  -- rawPublic
  unfoldable pub raw_of_shape : Shape → Result EnvelopeError (List ℕ)
  raw_of_shape (okp crv x) = decode_member x >>= λ bytes. assert_length bytes 32 >> ok bytes
  raw_of_shape (ec crv x y) = do
    bx ← decode_member x
    by ← decode_member y
    guard (length bx == 32 && length by == 32) invalid_jwk
    point_from_coordinates p bx by

  unfoldable pub raw_public : Json → Result EnvelopeError (List ℕ)
  raw_public jwk = assert_shape jwk >>= λ shape. raw_of_shape shape
