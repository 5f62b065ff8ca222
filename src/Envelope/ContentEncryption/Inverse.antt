-- ===== src/Envelope/ContentEncryption/Inverse.antt =====
-- What the content encryption and the key wrap give back.
use vti_didcomm_js.Prelude.{
  ℕ, zero, suc, ◌-◌, ◌≤◌, Bool, true, some, List, [], ◌∷◌, length, take, drop, ◌==◌, ==_iff,
  ==_refl, ok, ◌↔◌, guard, or_throw, >>=-ok, >>=-eq-ok, guard-eq-ok, or_throw-eq-ok, ok-injective,
  ◌≡◌, refl, ap, sym, ◌∙◌, arith, All, IsByte, and-true,
}
use mathlib.Core.Path.{subst}
use vti_didcomm_js.Platform.{Platform, IsPlatform}
use vti_didcomm_js.Envelope.{tag_mismatch, cipher_failed, unwrap_failed}
use vti_didcomm_js.Envelope.ContentEncryption.{
  Sealed, same_bytes, constant_time_equal, assert_length, hmac_tag, encrypt, decrypt, wrap_key,
  unwrap_key,
}

pub guard-ok : {E : Type 0} (b : Bool) (e : E) → b ≡ true → guard b e ≡ ok tt
guard-ok b e h = ap (λ c. guard c e) h

length-drop : (n : ℕ) (xs : List ℕ) → length (drop n xs) ≡ length xs - n
length-drop zero xs = omega arith
length-drop (suc n) [] = omega arith
length-drop (suc n) (x ∷ xs) = omega (arith, length-drop n xs)

pub assert_length-ok : (value : List ℕ) (n : ℕ) → length value ≡ n → assert_length value n ≡ ok tt
unfolding assert_length
assert_length-ok value n h = guard-ok (length value == n) _ ((==_iff (length value) n).1 h)

same_bytes_iff : (xs ys : List ℕ) → (same_bytes xs ys ≡ true) ↔ (xs ≡ ys)
unfolding same_bytes
same_bytes_iff [] [] = (λ _. refl, λ _. refl)
same_bytes_iff [] (y ∷ ys) = (λ h. cc, λ h. cc)
same_bytes_iff (x ∷ xs) [] = (λ h. cc, λ h. cc)
same_bytes_iff (x ∷ xs) (y ∷ ys) = ground (arith, same_bytes_iff xs ys)

pub constant_time_equal_iff : (a b : List ℕ) → (constant_time_equal a b ≡ true) ↔ (a ≡ b)
unfolding constant_time_equal
constant_time_equal_iff a b = (
  λ h. (same_bytes_iff a b).0 (and-true (length a == length b) (same_bytes a b) h).1,
  λ e. rw (e, ==_refl) ((same_bytes_iff b b).1 refl),
)

length-take_le : (n : ℕ) (xs : List ℕ) → n ≤ length xs → length (take n xs) ≡ n
length-take_le zero xs h = refl
length-take_le (suc n) [] h = absurd (omega (arith, h))
length-take_le (suc n) (x ∷ xs) h = omega (arith, h, length-take_le n xs)

module _ (p : Platform) (laws : IsPlatform p) where
  pub hmac_tag-length : (k aad iv c : List ℕ) → length (hmac_tag p k aad iv c) ≡ 32
  unfolding hmac_tag
  hmac_tag-length k aad iv c = length-take_le 32 _ (omega (arith, laws.hmac_size k _))

  -- What `encrypt` seals with a key and an IV of the right lengths, `decrypt` opens under the same.
  pub decrypt-encrypt :
      (cek iv aad plaintext : List ℕ)
      → length cek ≡ 64
      → length iv ≡ 16
      → All IsByte plaintext
      → (s : Sealed) × (encrypt p cek iv aad plaintext ≡ ok s)
        × (decrypt p cek iv aad s.ciphertext s.tag ≡ ok plaintext)
  unfolding encrypt decrypt
  decrypt-encrypt cek iv aad plaintext hc hi hb =
      let ciphertext = p.aes_cbc_encrypt (drop 32 cek) iv plaintext in
      let tag = hmac_tag p (take 32 cek) aad iv ciphertext in
      let half : length (drop 32 cek) ≡ 32 = omega (arith, hc, length-drop 32 cek) in
      let key = assert_length-ok cek 64 hc in
      let start = assert_length-ok iv 16 hi in
      (
        record { ciphertext = ciphertext; tag = tag },
        >>=-ok _ _ tt key ∙ >>=-ok _ _ tt start,
        >>=-ok _ _ tt key
            ∙ >>=-ok _ _ tt start
            ∙ >>=-ok _ _ tt
                (assert_length-ok tag 32 (hmac_tag-length (take 32 cek) aad iv ciphertext))
            ∙ >>=-ok _ _ tt (guard-ok _ tag_mismatch ((constant_time_equal_iff tag tag).1 refl))
            ∙ ap (λ o. or_throw o cipher_failed)
                (laws.cbc_inverse (drop 32 cek) iv plaintext half hi hb),
      )

  All-take : (n : ℕ) (xs : List ℕ) → All IsByte xs → All IsByte (take n xs)
  All-take zero xs h = tt
  All-take (suc n) [] h = tt
  All-take (suc n) (x ∷ xs) (b, h) = (b, All-take n xs h)

  -- Both parts of what `encrypt` returns are bytes, and the tag has 32.
  pub encrypt-bytes :
      (cek iv aad plaintext : List ℕ) (s : Sealed)
      → encrypt p cek iv aad plaintext ≡ ok s
      → All IsByte s.ciphertext × All IsByte s.tag × (length s.tag ≡ 32)
  unfolding encrypt
  encrypt-bytes cek iv aad plaintext s e =
      let (a, ea, e₁) = >>=-eq-ok (assert_length cek 64) _ e in
      let (b, eb, e₂) = >>=-eq-ok (assert_length iv 16) _ e₁ in
      subst (λ t. All IsByte t.ciphertext × All IsByte t.tag × (length t.tag ≡ 32))
        (ok-injective e₂)
        (
          laws.cbc_bytes (drop 32 cek) iv plaintext,
          unfold hmac_tag in All-take 32 _ (laws.hmac_bytes (take 32 cek) _),
          hmac_tag-length (take 32 cek) aad iv (p.aes_cbc_encrypt (drop 32 cek) iv plaintext),
        )

  pub unwrap_key-wrap_key :
      (kek cek : List ℕ)
      → length kek ≡ 32
      → length cek ≡ 64
      → All IsByte cek
      → (wrap_key p kek cek ≡ ok (p.aes_kw_wrap kek cek))
        × (unwrap_key p kek (p.aes_kw_wrap kek cek) ≡ ok cek)
  unfolding wrap_key unwrap_key
  unwrap_key-wrap_key kek cek hk hc hb = (
    >>=-ok _ _ tt (assert_length-ok kek 32 hk),
    >>=-ok _ _ tt (assert_length-ok kek 32 hk)
        ∙ ap (λ o. or_throw o unwrap_failed)
            (laws.wrap_inverse kek cek hk (omega (arith, hc)) (rw hc refl) hb),
  )

  -- `decrypt` refuses a tag that is not the one of the key, the header, the IV and the ciphertext.
  pub decrypt_tag :
      (cek iv aad ciphertext tag plaintext : List ℕ)
      → decrypt p cek iv aad ciphertext tag ≡ ok plaintext
      → (tag ≡ hmac_tag p (take 32 cek) aad iv ciphertext)
        × (p.aes_cbc_decrypt (drop 32 cek) iv ciphertext ≡ some plaintext)
  unfolding decrypt
  decrypt_tag cek iv aad ciphertext tag plaintext e =
      let (a, ea, e₁) = >>=-eq-ok (assert_length cek 64) _ e in
      let (b, eb, e₂) = >>=-eq-ok (assert_length iv 16) _ e₁ in
      let (c, ec, e₃) = >>=-eq-ok (assert_length tag 32) _ e₂ in
      let expected = hmac_tag p (take 32 cek) aad iv ciphertext in
      let (d, ed, e₄) = >>=-eq-ok (guard (constant_time_equal expected tag) tag_mismatch) _ e₃ in
      (
        sym ((constant_time_equal_iff expected tag).0 (guard-eq-ok _ tag_mismatch ed)),
        or_throw-eq-ok _ cipher_failed e₄,
      )
