-- ===== src/ConcatKdf/Length.antt =====
-- How long a derived key is (src/concat-kdf.js).
use vti_didcomm_js.Prelude.{
  ℕ, zero, suc, ◌+◌, ◌*◌, ◌/◌, ◌≤◌, Bool, true, false, Option, none, some, List, [], ◌∷◌, ◌++◌,
  length, length-append, take, leb, ◌≡◌, refl, ap, ◌∙◌, arith, ok, guard, >>=-ok, >>=-eq-ok,
  guard-eq-ok, ok-injective,
}
use mathlib.Core.Path.{subst}
use vti_didcomm_js.ConcatKdf.{
  be32, uint32be, length_prefix, supp_priv_info, other_info, digests, is_key_length, derive_key,
  empty_alg, invalid_key_length,
}

length-take : (n : ℕ) (xs : List ℕ) → n ≤ length xs → length (take n xs) ≡ n
length-take zero xs h = refl
length-take (suc n) [] h = absurd (omega (arith, h))
length-take (suc n) (x ∷ xs) h = omega (arith, h, length-take n xs)

uint32be-ok : (n : ℕ) → n ≤ 0xffffffff → uint32be n ≡ ok (be32 n)
unfolding uint32be
uint32be-ok n h = let small : leb n 0xffffffff ≡ true = ground (arith, h) in rw small refl

length_prefix-ok :
    (xs : List ℕ) → length xs ≤ 0xffffffff → length_prefix xs ≡ ok (be32 (length xs) ++ xs)
unfolding length_prefix
length_prefix-ok xs h = >>=-ok (uint32be (length xs)) _ _ (uint32be-ok (length xs) h)

-- The optional field is not too long.
abbrev pub IsShortTag : Option (List ℕ) → Type 0
IsShortTag none = Unit
IsShortTag (some tag) = length tag ≤ 0xffffffff

supp_priv_info-ok :
    (tag : Option (List ℕ)) (legacy : Bool)
    → IsShortTag tag
    → (s : List ℕ) × (supp_priv_info tag legacy ≡ ok s)
unfolding supp_priv_info
supp_priv_info-ok none legacy h = ([], refl)
supp_priv_info-ok (some tag) true h = (tag, refl)
supp_priv_info-ok (some tag) false h = (_, length_prefix-ok tag h)

digests-ok :
    (sha256 : List ℕ → List ℕ) (z info : List ℕ) (i reps : ℕ)
    → i + reps ≤ 0xffffffff
    → (out : List ℕ) × (digests sha256 z info i reps ≡ ok out)
unfolding digests
digests-ok sha256 z info i zero h = ([], refl)
digests-ok sha256 z info i (suc reps) h =
    let (rest, er) = digests-ok sha256 z info (i + 1) reps (omega (arith, h)) in
    (
      sha256 (be32 i ++ (z ++ info)) ++ rest,
      >>=-ok (uint32be i) _ (be32 i) (uint32be-ok i (omega (arith, h)))
          ∙ >>=-ok (digests sha256 z info (i + 1) reps) _ rest er,
    )

is_key_length-small : (bits : ℕ) → is_key_length bits ≡ true → bits ≤ 4096
unfolding is_key_length
is_key_length-small bits h = ground (arith, h)

other_info-ok :
    (alg apu apv : List ℕ) (tag : Option (List ℕ)) (legacy : Bool) (bits : ℕ)
    → length alg ≤ 0xffffffff
    → length apu ≤ 0xffffffff
    → length apv ≤ 0xffffffff
    → IsShortTag tag
    → bits ≤ 0xffffffff
    → (info : List ℕ) × (other_info alg apu apv bits tag legacy ≡ ok info)
unfolding other_info
other_info-ok alg apu apv tag legacy bits ha hu hv ht hb =
    let (supp, es) = supp_priv_info-ok tag legacy ht in
    (
      _,
      >>=-ok (supp_priv_info tag legacy) _ supp es
          ∙ >>=-ok (length_prefix alg) _ _ (length_prefix-ok alg ha)
          ∙ >>=-ok (length_prefix apu) _ _ (length_prefix-ok apu hu)
          ∙ >>=-ok (length_prefix apv) _ _ (length_prefix-ok apv hv)
          ∙ >>=-ok (uint32be bits) _ _ (uint32be-ok bits hb),
    )

derive_key-ok :
    (sha256 : List ℕ → List ℕ) (z alg apu apv : List ℕ) (tag : Option (List ℕ)) (legacy : Bool)
    (bits : ℕ)
    → 1 ≤ length alg
    → length alg ≤ 0xffffffff
    → length apu ≤ 0xffffffff
    → length apv ≤ 0xffffffff
    → IsShortTag tag
    → is_key_length bits ≡ true
    → (key : List ℕ) × (derive_key sha256 z alg apu apv tag legacy bits ≡ ok key)
unfolding derive_key
derive_key-ok sha256 z alg apu apv tag legacy bits named ha hu hv ht valid =
    let small = is_key_length-small bits valid in
    let (info, ei) = other_info-ok alg apu apv tag legacy bits ha hu hv ht (omega (arith, small)) in
    let (out, eo) = digests-ok sha256 z info 1 ((bits / 8 + 31) / 32) (omega (arith, small)) in
    let present : leb 1 (length alg) ≡ true = ground (arith, named) in
    (
      take (bits / 8) out,
      >>=-ok (guard (leb 1 (length alg)) empty_alg) _ tt (ap (λ b. guard b empty_alg) present)
          ∙ >>=-ok (guard (is_key_length bits) (invalid_key_length bits)) _ tt
              (ap (λ b. guard b (invalid_key_length bits)) valid)
          ∙ >>=-ok (other_info alg apu apv bits tag legacy) _ info ei
          ∙ >>=-ok (digests sha256 z info 1 ((bits / 8 + 31) / 32)) _ out eo,
    )

module _ (sha256 : List ℕ → List ℕ) (digest_length : (m : List ℕ) → length (sha256 m) ≡ 32) where
  digests-length :
      (z info : List ℕ) (i reps : ℕ) (out : List ℕ)
      → digests sha256 z info i reps ≡ ok out
      → length out ≡ reps * 32
  unfolding digests
  digests-length z info i zero out e = subst (λ o. length o ≡ 0) (ok-injective e) refl
  digests-length z info i (suc reps) out e =
      let (c, ec, e₁) = >>=-eq-ok (uint32be i) _ e in
      let (rest, er, e₂) = >>=-eq-ok (digests sha256 z info (i + 1) reps) _ e₁ in
      let block = sha256 (c ++ (z ++ info)) in
      let tail : length rest ≡ reps * 32 = digests-length z info (i + 1) reps rest er in
      let both : length (block ++ rest) ≡ suc reps * 32 =
        omega (arith, length-append block rest, digest_length (c ++ (z ++ info)), tail) in
      subst (λ o. length o ≡ suc reps * 32) (ok-injective e₂) both

  derive_key-length :
      (z alg apu apv : List ℕ) (tag : Option (List ℕ)) (legacy : Bool) (bits : ℕ) (key : List ℕ)
      → derive_key sha256 z alg apu apv tag legacy bits ≡ ok key
      → length key * 8 ≡ bits
  unfolding derive_key is_key_length
  derive_key-length z alg apu apv tag legacy bits key e =
      let (a, ea, e₁) = >>=-eq-ok (guard (leb 1 (length alg)) empty_alg) _ e in
      let (b, eb, e₂) = >>=-eq-ok (guard (is_key_length bits) (invalid_key_length bits)) _ e₁ in
      let (info, ei, e₃) = >>=-eq-ok (other_info alg apu apv bits tag legacy) _ e₂ in
      let (out, eo, e₄) = >>=-eq-ok (digests sha256 z info 1 ((bits / 8 + 31) / 32)) _ e₃ in
      let valid = guard-eq-ok (is_key_length bits) _ eb in
      let size = digests-length z info 1 ((bits / 8 + 31) / 32) out eo in
      let cut : length (take (bits / 8) out) ≡ bits / 8 =
        length-take (bits / 8) out (omega (arith, size)) in
      subst (λ k. length k * 8 ≡ bits) (ok-injective e₄) (ground (arith, cut, valid))

  -- With a hash of 32 bytes, an algorithm name that is not empty, fields below 2^32 bytes and a positive
  -- multiple of 8 up to 4096 as the number of bits, a key is derived, and it has this number of bits.
  pub derive_key-returns :
      (z alg apu apv : List ℕ) (tag : Option (List ℕ)) (legacy : Bool) (bits : ℕ)
      → 1 ≤ length alg
      → length alg ≤ 0xffffffff
      → length apu ≤ 0xffffffff
      → length apv ≤ 0xffffffff
      → IsShortTag tag
      → is_key_length bits ≡ true
      → (key : List ℕ) × (derive_key sha256 z alg apu apv tag legacy bits ≡ ok key)
        × (length key * 8 ≡ bits)
  derive_key-returns z alg apu apv tag legacy bits named ha hu hv ht valid =
      let (key, e) = derive_key-ok sha256 z alg apu apv tag legacy bits named ha hu hv ht valid in
      (key, e, derive_key-length z alg apu apv tag legacy bits key e)
