-- ===== src/Envelope/Agreement/Symmetry.antt =====
-- Both sides of a key agreement derive the same key.
use vti_didcomm_js.Prelude.{
  ℕ, ◌≤◌, Bool, true, false, Option, none, some, List, ◌∷◌, ◌++◌, length, length-append, take, drop,
  take-length_append, drop-length_append, ok, or_throw, >>=-ok, or_throw-eq-ok, ◌≡◌, refl, ap, sym,
  ◌∙◌, arith, ok-injective, All, IsByte,
}
use mathlib.Core.Path.{subst}
use vti_didcomm_js.Prelude.Text.{Text, text_eq}
use vti_didcomm_js.Platform.{Platform, IsPlatform, IsPoint}
use vti_didcomm_js.ConcatKdf.Length.{derive_key-returns, IsShortTag}
use vti_didcomm_js.ConcatKdf.{is_key_length}
use vti_didcomm_js.Envelope.{throw_on, agreement_failed, invalid_point, key_derivation}
use vti_didcomm_js.Envelope.ContentEncryption.Inverse.{assert_length-ok, guard-ok}
use vti_didcomm_js.Envelope.Agreement.{
  Curve, x25519, p256, crv_of, impl, is_uncompressed, point_coordinates, point_from_coordinates,
  key_pair_on, shared_on, shared_secret, derive_kek, derive_kek_authcrypt, recipient_kek_authcrypt,
  derive_kek_anoncrypt, recipient_kek_anoncrypt,
}

pub impl-crv_of : (c : Curve) → impl (crv_of c) ≡ ok c
unfolding impl text_eq
impl-crv_of x25519 = refl
impl-crv_of p256 = refl

module _ (p : Platform) where
  -- A private key of 32 bytes with its public key.
  pub record IsKeyPair (c : Curve) (private_key public_key : List ℕ) : Type 0 where
    pub private_size : length private_key ≡ 32
    pub private_bytes : All IsByte private_key
    pub matches : key_pair_on p c private_key ≡ ok public_key

  module _ (laws : IsPlatform p) where
    shared_on-agree :
        (c : Curve) (a public_a b public_b : List ℕ)
        → IsKeyPair c a public_a
        → IsKeyPair c b public_b
        → (z : List ℕ) × (shared_on p c a public_b ≡ ok z) × (shared_on p c b public_a ≡ ok z)
    unfolding shared_on key_pair_on
    shared_on-agree x25519 a public_a b public_b ka kb =
        let (z, ea, eb) = laws.x25519_agree a b ka.private_size kb.private_size in
        let side : (s t : List ℕ)
            → length s ≡ 32
            → p.x25519_shared s (p.x25519_public t) ≡ some z
            → shared_on p x25519 s (p.x25519_public t) ≡ ok z =
          λ s t h e.
            >>=-ok _ _ tt (assert_length-ok s 32 h)
            ∙ >>=-ok _ _ tt (assert_length-ok (p.x25519_public t) 32 (laws.x25519_size t))
            ∙ ap (λ o. or_throw o agreement_failed) e in
        (
          z,
          subst (λ q. shared_on p x25519 a q ≡ ok z) (ok-injective kb.matches)
              (side a b ka.private_size ea),
          subst (λ q. shared_on p x25519 b q ≡ ok z) (ok-injective ka.matches)
              (side b a kb.private_size eb),
        )
    shared_on-agree p256 a public_a b public_b ka kb =
        let (point, ea, eb) =
          laws.p256_agree a b public_a public_b (or_throw-eq-ok _ _ ka.matches)
            (or_throw-eq-ok _ _ kb.matches) in
        let side : (s q : List ℕ)
            → length s ≡ 32
            → p.p256_shared s q ≡ some point
            → shared_on p p256 s q ≡ ok (take 32 (drop 1 point)) =
          λ s q h e.
            >>=-ok _ _ tt (assert_length-ok s 32 h)
            ∙ >>=-ok _ _ point (ap (λ o. or_throw o agreement_failed) e) in
        (
          take 32 (drop 1 point),
          side a public_b ka.private_size ea,
          side b public_a kb.private_size eb,
        )

    pub shared_secret-agree :
        (c : Curve) (a public_a b public_b : List ℕ)
        → IsKeyPair c a public_a
        → IsKeyPair c b public_b
        → (z : List ℕ) × (shared_secret p (crv_of c) a public_b ≡ ok z)
          × (shared_secret p (crv_of c) b public_a ≡ ok z)
    unfolding shared_secret
    shared_secret-agree c a public_a b public_b ka kb =
        let (z, ea, eb) = shared_on-agree c a public_a b public_b ka kb in
        (z, >>=-ok _ _ c (impl-crv_of c) ∙ ea, >>=-ok _ _ c (impl-crv_of c) ∙ eb)

    derive_kek-ok :
        (z : List ℕ) (c : ℕ) (alg : Text) (apu apv : List ℕ) (tag : Option (List ℕ)) (legacy : Bool)
        → length (p.utf8_encode (c ∷ alg)) ≤ 0xffffffff
        → length apu ≤ 0xffffffff
        → length apv ≤ 0xffffffff
        → IsShortTag tag
        → (kek : List ℕ) × (derive_kek p z (c ∷ alg) apu apv tag legacy ≡ ok kek)
          × (length kek ≡ 32)
    unfolding derive_kek is_key_length
    derive_kek-ok z c alg apu apv tag legacy ha hu hv ht =
        let (kek, e, size) =
          derive_key-returns p.sha256 laws.sha256_size z (p.utf8_encode (c ∷ alg)) apu apv tag
            legacy 256 (laws.utf8_size c alg) ha hu hv ht refl in
        (kek, ap (throw_on key_derivation) e, omega (arith, size))

    -- The sender, with the ephemeral and its own private key, and the recipient, with their public keys,
    -- derive the same key of 32 bytes, in the prefixed and in the legacy form.
    pub kek_authcrypt-agree :
        (c : Curve) (e public_e s public_s r public_r : List ℕ) (a : ℕ) (alg : Text)
        (apu apv tag : List ℕ) (legacy : Bool)
        → IsKeyPair c e public_e
        → IsKeyPair c s public_s
        → IsKeyPair c r public_r
        → length (p.utf8_encode (a ∷ alg)) ≤ 0xffffffff
        → length apu ≤ 0xffffffff
        → length apv ≤ 0xffffffff
        → length tag ≤ 0xffffffff
        → (kek : List ℕ) × (derive_kek_authcrypt p
              (crv_of c)
              e
              s
              public_r
              (a ∷ alg)
              apu
              apv
              tag
              legacy
            ≡ ok kek)
          × (recipient_kek_authcrypt p (crv_of c) r public_e public_s (a ∷ alg) apu apv tag legacy
              ≡ ok kek)
          × (length kek ≡ 32)
    unfolding derive_kek_authcrypt recipient_kek_authcrypt
    kek_authcrypt-agree c e public_e s public_s r public_r a alg apu apv tag legacy ke ks kr ha hu
          hv ht =
        let (ze, ee, er) = shared_secret-agree c e public_e r public_r ke kr in
        let (zs, es, er') = shared_secret-agree c s public_s r public_r ks kr in
        let (kek, ek, size) =
          derive_kek-ok (ze ++ zs) a alg apu apv (some tag) legacy ha hu hv ht in
        (
          kek,
          >>=-ok _ _ ze ee ∙ >>=-ok _ _ zs es ∙ ek,
          >>=-ok _ _ ze er ∙ >>=-ok _ _ zs er' ∙ ek,
          size,
        )

    -- The same without a sender.
    pub kek_anoncrypt-agree :
        (c : Curve) (e public_e r public_r : List ℕ) (a : ℕ) (alg : Text) (apu apv : List ℕ)
        → IsKeyPair c e public_e
        → IsKeyPair c r public_r
        → length (p.utf8_encode (a ∷ alg)) ≤ 0xffffffff
        → length apu ≤ 0xffffffff
        → length apv ≤ 0xffffffff
        → (kek : List ℕ) × (derive_kek_anoncrypt p (crv_of c) e public_r (a ∷ alg) apu apv ≡ ok kek)
          × (recipient_kek_anoncrypt p (crv_of c) r public_e (a ∷ alg) apu apv ≡ ok kek)
          × (length kek ≡ 32)
    unfolding derive_kek_anoncrypt recipient_kek_anoncrypt
    kek_anoncrypt-agree c e public_e r public_r a alg apu apv ke kr ha hu hv =
        let (z, ee, er) = shared_secret-agree c e public_e r public_r ke kr in
        let (kek, ek, size) = derive_kek-ok z a alg apu apv none false ha hu hv tt in
        (kek, >>=-ok _ _ z ee ∙ ek, >>=-ok _ _ z er ∙ ek, size)

is_uncompressed-parts :
    (x y : List ℕ) → length x ≡ 32 → length y ≡ 32 → is_uncompressed (4 ∷ (x ++ y)) ≡ true
unfolding is_uncompressed
is_uncompressed-parts x y hx hy =
    let size : length (x ++ y) ≡ 64 = omega (arith, hx, hy, length-append x y) in
    ground (arith, size)

-- The point of an EC key survives its coordinates.
pub point_coordinates-IsPoint :
    (point : List ℕ) (h : IsPoint point) → point_coordinates point ≡ ok (h.x, h.y)
unfolding point_coordinates is_uncompressed
point_coordinates-IsPoint point h =
    let split : (is_uncompressed (4 ∷ (h.x ++ h.y)) ≡ true)
        × (take 32 (h.x ++ h.y) ≡ h.x)
        × (drop 32 (h.x ++ h.y) ≡ h.y) =
      (
        is_uncompressed-parts h.x h.y h.x_size h.y_size,
        subst (λ n. take n (h.x ++ h.y) ≡ h.x) h.x_size (take-length_append h.x h.y),
        subst (λ n. drop n (h.x ++ h.y) ≡ h.y) h.x_size (drop-length_append h.x h.y),
      ) in
    subst (λ q. point_coordinates q ≡ ok (h.x, h.y)) (sym h.parts)
      (>>=-ok _ _ tt (guard-ok _ invalid_point split.0) ∙ ap ok (cc split.1))

pub point_from_coordinates-IsPoint :
    (p : Platform) (point : List ℕ) (h : IsPoint point)
    → p.p256_is_point point ≡ true
    → point_from_coordinates p h.x h.y ≡ ok point
unfolding point_from_coordinates
point_from_coordinates-IsPoint p point h valid =
    >>=-ok _ _ tt (assert_length-ok h.x 32 h.x_size)
    ∙ >>=-ok _ _ tt (assert_length-ok h.y 32 h.y_size)
    ∙ >>=-ok _ _ tt (guard-ok _ invalid_point (subst (λ q. p.p256_is_point q ≡ true) h.parts valid))
    ∙ ap ok (sym h.parts)
