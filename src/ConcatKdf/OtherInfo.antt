-- ===== src/ConcatKdf/OtherInfo.antt =====
-- OtherInfo tells its fields apart (src/concat-kdf.js).
use vti_didcomm_js.Prelude.{
  ℕ, ◌≤◌, Bool, false, Option, none, some, List, [], ◌∷◌, ◌++◌, length, leb, ◌≡◌, refl, ap, sym,
  ◌∙◌, arith, ok, guard, >>=-eq-ok, guard-eq-ok, ok-injective, append_assoc,
}
use mathlib.Core.Path.{subst}
use vti_didcomm_js.ConcatKdf.{
  out_of_range, be32, uint32be, length_prefix, supp_priv_info, other_info,
}

be32-injective :
    (m n : ℕ) (s t : List ℕ)
    → m ≤ 0xffffffff
    → n ≤ 0xffffffff
    → be32 m ++ s ≡ be32 n ++ t
    → (m ≡ n) × (s ≡ t)
unfolding be32
be32-injective m n s t hm hn e = ground arith

append-injective :
    (xs ys s t : List ℕ) → length xs ≡ length ys → xs ++ s ≡ ys ++ t → (xs ≡ ys) × (s ≡ t)
append-injective [] [] s t h e = (refl, e)
append-injective [] (y ∷ ys) s t h e = absurd (omega (arith, h))
append-injective (x ∷ xs) [] s t h e = absurd (omega (arith, h))
append-injective (x ∷ xs) (y ∷ ys) s t h e = ground (arith, append-injective xs ys s t)

-- What `length_prefix` returns.
length_prefix-eq-ok :
    (xs p : List ℕ)
    → length_prefix xs ≡ ok p
    → (length xs ≤ 0xffffffff) × (be32 (length xs) ++ xs ≡ p)
unfolding length_prefix uint32be
length_prefix-eq-ok xs p e =
    let (c, ec, e₁) = >>=-eq-ok (uint32be (length xs)) _ e in
    let (u, eu, e₂) =
      >>=-eq-ok (guard (leb (length xs) 0xffffffff) (out_of_range (length xs))) _ ec in
    let small = guard-eq-ok (leb (length xs) 0xffffffff) _ eu in
    (ground (arith, small), ap (λ c'. c' ++ xs) (ok-injective e₂) ∙ ok-injective e₁)

length_prefix-injective :
    (xs ys p q s t : List ℕ)
    → length_prefix xs ≡ ok p
    → length_prefix ys ≡ ok q
    → p ++ s ≡ q ++ t
    → (xs ≡ ys) × (s ≡ t)
length_prefix-injective xs ys p q s t ep eq e =
    let (hx, ex) = length_prefix-eq-ok xs p ep in
    let (hy, ey) = length_prefix-eq-ok ys q eq in
    let joined : be32 (length xs) ++ (xs ++ s) ≡ be32 (length ys) ++ (ys ++ t) =
      sym (append_assoc (be32 (length xs)) xs s)
      ∙ ap (λ l. l ++ s) ex
      ∙ e
      ∙ ap (λ l. l ++ t) (sym ey)
      ∙ append_assoc (be32 (length ys)) ys t in
    let (same, rest) = be32-injective (length xs) (length ys) _ _ hx hy joined in
    append-injective xs ys s t same rest

supp_priv_info-injective :
    (a b : Option (List ℕ)) (s : List ℕ)
    → supp_priv_info a false ≡ ok s
    → supp_priv_info b false ≡ ok s
    → a ≡ b
unfolding supp_priv_info be32
supp_priv_info-injective none none s ea eb = refl
supp_priv_info-injective none (some t) s ea eb =
    let (h, e) = length_prefix-eq-ok t s eb in let empty : [] ≡ s = ok-injective ea in cc
supp_priv_info-injective (some t) none s ea eb =
    let (h, e) = length_prefix-eq-ok t s ea in let empty : [] ≡ s = ok-injective eb in cc
supp_priv_info-injective (some t) (some u) s ea eb =
    ap some (length_prefix-injective t u s s [] [] ea eb refl).0

-- The fields of `other_info`, encoded one after the other, and its last field.
other_info-eq-ok :
    (alg apu apv : List ℕ) (bits : ℕ) (tag : Option (List ℕ)) (legacy : Bool) (o : List ℕ)
    → other_info alg apu apv bits tag legacy ≡ ok o
    → (supp a u v b : List ℕ) × (supp_priv_info tag legacy ≡ ok supp)
      × (length_prefix alg ≡ ok a)
      × (length_prefix apu ≡ ok u)
      × (length_prefix apv ≡ ok v)
      × (uint32be bits ≡ ok b)
      × (a ++ (u ++ (v ++ (b ++ supp))) ≡ o)
unfolding other_info
other_info-eq-ok alg apu apv bits tag legacy o e =
    let (supp, es, e₁) = >>=-eq-ok (supp_priv_info tag legacy) _ e in
    let (a, ea, e₂) = >>=-eq-ok (length_prefix alg) _ e₁ in
    let (u, eu, e₃) = >>=-eq-ok (length_prefix apu) _ e₂ in
    let (v, ev, e₄) = >>=-eq-ok (length_prefix apv) _ e₃ in
    let (b, eb, e₅) = >>=-eq-ok (uint32be bits) _ e₄ in
    (supp, a, u, v, b, es, ea, eu, ev, eb, ok-injective e₅)

uint32be-eq-ok : (n : ℕ) (b : List ℕ) → uint32be n ≡ ok b → (n ≤ 0xffffffff) × (be32 n ≡ b)
unfolding uint32be
uint32be-eq-ok n b e =
    let (u, eu, e₁) = >>=-eq-ok (guard (leb n 0xffffffff) (out_of_range n)) _ e in
    let small = guard-eq-ok (leb n 0xffffffff) _ eu in (ground (arith, small), ok-injective e₁)

-- Two lists of fields that give the same OtherInfo, outside the legacy form, are the same: the
-- algorithm, both parties, the key's length and the authentication tag, present or absent.
pub other_info-injective :
    (alg apu apv alg' apu' apv' : List ℕ) (bits bits' : ℕ) (tag tag' : Option (List ℕ)) (o : List ℕ)
    → other_info alg apu apv bits tag false ≡ ok o
    → other_info alg' apu' apv' bits' tag' false ≡ ok o
    → (alg ≡ alg') × (apu ≡ apu') × (apv ≡ apv') × (bits ≡ bits') × (tag ≡ tag')
other_info-injective alg apu apv alg' apu' apv' bits bits' tag tag' o e e' =
    let (s, a, u, v, b, es, ea, eu, ev, eb, eo) = other_info-eq-ok alg apu apv bits tag false o e in
    let (s', a', u', v', b', es', ea', eu', ev', eb', eo') =
      other_info-eq-ok alg' apu' apv' bits' tag' false o e' in
    let (same_alg, r₁) = length_prefix-injective alg alg' a a' _ _ ea ea' (eo ∙ sym eo') in
    let (same_apu, r₂) = length_prefix-injective apu apu' u u' _ _ eu eu' r₁ in
    let (same_apv, r₃) = length_prefix-injective apv apv' v v' _ _ ev ev' r₂ in
    let (hb, fb) = uint32be-eq-ok bits b eb in
    let (hb', fb') = uint32be-eq-ok bits' b' eb' in
    let r₄ : be32 bits ++ s ≡ be32 bits' ++ s' =
      ap (λ l. l ++ s) fb ∙ r₃ ∙ ap (λ l. l ++ s') (sym fb') in
    let (same_bits, same_supp) = be32-injective bits bits' s s' hb hb' r₄ in
    (
      same_alg,
      same_apu,
      same_apv,
      same_bits,
      supp_priv_info-injective tag tag' s es
          (subst (λ t. supp_priv_info tag' false ≡ ok t) (sym same_supp) es'),
    )
