-- ===== src/Multibase/Radix.antt =====
-- Positional numbers, least significant digit first: `absorb` multiplies and adds, and a canonical
-- list of digits is determined by its value.
use vti_didcomm_js.Prelude.{
  ℕ, zero, suc, ◌+◌, ◌*◌, ◌/◌, ◌%◌, ◌≤◌, ◌<◌, ◌≡◌, ◌≢◌, refl, sym, ap, ◌∙◌, arith, List, [], ◌∷◌,
  ◌++◌, All, reverse, ◌==◌, Bool-cases, inl, inr,
}
use mathlib.Core.List.{foldl, reverse-cons}
use native.Mathlib.Nat.{
  div-add-mod, mod-lt, add-mul-mod_self_left, mod-eq_of_lt, add-mul-div_left, div-eq_of_lt,
}
use vti_didcomm_js.Multibase.{spill, absorb}

abbrev pub value : ℕ → List ℕ → ℕ
value r [] = 0
value r (d ∷ ds) = d + r * value r ds

-- No most significant zero.
abbrev pub IsCanonical : List ℕ → Type 0
IsCanonical [] = Unit
IsCanonical (d ∷ []) = d ≢ 0
IsCanonical (d ∷ e ∷ ds) = IsCanonical (e ∷ ds)

abbrev pub IsBelow : ℕ → ℕ → Type 0
IsBelow r d = d < r

module _ (r : ℕ) (hr : 1 < r) where
  low_part : (x a : ℕ) → x < r → (x + r * a) % r ≡ x
  low_part x a h = add-mul-mod_self_left x r a ∙ mod-eq_of_lt h

  high_part : (x a : ℕ) → x < r → (x + r * a) / r ≡ a
  high_part x a h = add-mul-div_left x a (omega arith) ∙ rw (div-eq_of_lt h) (omega arith)

  head_tail : (x y a b : ℕ) → x < r → y < r → x + r * a ≡ y + r * b → (x ≡ y) × (a ≡ b)
  head_tail x y a b px py e =
      let first : x ≡ y = sym (low_part x a px) ∙ ap (λ (t : ℕ). t % r) e ∙ low_part y b py in
      let rest : a ≡ b = sym (high_part x a px) ∙ ap (λ (t : ℕ). t / r) e ∙ high_part y b py in
      (first, rest)

  div-lt_self : (c : ℕ) → 0 < c → c / r < c
  div-lt_self c h = grind (arith, div-add-mod c r)

  value-spill : (fuel c : ℕ) → c ≤ fuel → value r (spill r fuel c) ≡ c
  unfolding spill
  value-spill zero c h = omega arith
  value-spill (suc fuel) c h = elim (Bool-cases (c == 0)) [
    | inl z ↦ rw z (ground arith)
    | inr n ↦
        let pos : 0 < c = ground arith in
        let small : c / r ≤ fuel = omega (arith, div-lt_self c pos) in
        rw n (rw (value-spill fuel (c / r) small) (omega (arith, div-add-mod c r)))
  ]

  value-absorb : (f : ℕ) (ds : List ℕ) (c : ℕ) → value r (absorb f r ds c) ≡ f * value r ds + c
  unfolding absorb
  value-absorb f [] c = value-spill c c (omega arith) ∙ omega arith
  value-absorb f (d ∷ ds) c =
      rw (value-absorb f ds ((c + d * f) / r)) (grind (arith, div-add-mod (c + d * f) r))

  IsBelow-spill : (fuel c : ℕ) → All (IsBelow r) (spill r fuel c)
  unfolding spill
  IsBelow-spill zero c = tt
  IsBelow-spill (suc fuel) c = elim (Bool-cases (c == 0)) [
    | inl z ↦ rw z tt
    | inr n ↦ rw n (mod-lt c (omega arith), IsBelow-spill fuel (c / r))
  ]

  IsBelow-absorb : (f : ℕ) (ds : List ℕ) (c : ℕ) → All (IsBelow r) (absorb f r ds c)
  unfolding absorb
  IsBelow-absorb f [] c = IsBelow-spill c c
  IsBelow-absorb f (d ∷ ds) c = (mod-lt _ (omega arith), IsBelow-absorb f ds _)

  -- Canonical lists of digits with one value are one list.
  canonical-pos : (d : ℕ) (ds : List ℕ) → IsCanonical (d ∷ ds) → 0 < value r (d ∷ ds)
  canonical-pos d [] h = omega arith
  canonical-pos d (e ∷ ds) h = grind (arith, canonical-pos e ds h)

  IsCanonical-tail : (d : ℕ) (ds : List ℕ) → IsCanonical (d ∷ ds) → IsCanonical ds
  IsCanonical-tail d [] h = tt
  IsCanonical-tail d (e ∷ ds) h = h

  pub value-injective :
      (xs ys : List ℕ)
      → All (IsBelow r) xs
      → All (IsBelow r) ys
      → IsCanonical xs
      → IsCanonical ys
      → value r xs ≡ value r ys
      → xs ≡ ys
  value-injective [] [] hx hy cx cy e = refl
  value-injective [] (y ∷ ys) hx hy cx cy e = absurd (omega (arith, canonical-pos y ys cy))
  value-injective (x ∷ xs) [] hx hy cx cy e = absurd (omega (arith, canonical-pos x xs cx))
  value-injective (x ∷ xs) (y ∷ ys) (px, hx) (py, hy) cx cy e =
      let (first, more) = head_tail x y (value r xs) (value r ys) px py e in
      let tails =
        value-injective xs ys hx hy (IsCanonical-tail x xs cx) (IsCanonical-tail y ys cy) more in
      cc (first, tails)

  IsCanonical-cons :
      (d : ℕ) (ds : List ℕ) → IsCanonical ds → 0 < value r (d ∷ ds) → IsCanonical (d ∷ ds)
  IsCanonical-cons d [] h p = omega arith
  IsCanonical-cons d (e ∷ ds) h p = h

  IsCanonical-spill : (fuel c : ℕ) → c ≤ fuel → IsCanonical (spill r fuel c)
  unfolding spill
  IsCanonical-spill zero c h = tt
  IsCanonical-spill (suc fuel) c h = elim (Bool-cases (c == 0)) [
    | inl z ↦ rw z tt
    | inr n ↦
        let pos : 0 < c = ground arith in
        let small : c / r ≤ fuel = omega (arith, div-lt_self c pos) in
        rw n (
          IsCanonical-cons (c % r) (spill r fuel (c / r)) (IsCanonical-spill fuel (c / r) small) (
            omega (
              arith,
              value-spill fuel (c / r) small,
              ap (λ (t : ℕ). r * t) (value-spill fuel (c / r) small),
              div-add-mod c r,
            )))
  ]

  IsCanonical-absorb :
      (f : ℕ) (ds : List ℕ) (c : ℕ) → 0 < f → IsCanonical ds → IsCanonical (absorb f r ds c)
  unfolding absorb
  IsCanonical-absorb f [] c hf h = IsCanonical-spill c c (omega arith)
  IsCanonical-absorb f (d ∷ ds) c hf h =
      IsCanonical-cons ((c + d * f) % r) (absorb f r ds ((c + d * f) / r))
        (IsCanonical-absorb f ds ((c + d * f) / r) hf (IsCanonical-tail d ds h))
        (grind (arith, value-absorb f (d ∷ ds) c, canonical-pos d ds h))

-- The value of digits given most significant first.
abbrev pub horner : ℕ → ℕ → List ℕ → ℕ
horner f acc [] = acc
horner f acc (b ∷ bs) = horner f (f * acc + b) bs

horner-append :
    (f acc : ℕ) (xs : List ℕ) (y : ℕ) → horner f acc (xs ++ (y ∷ [])) ≡ f * horner f acc xs + y
horner-append f acc [] y = refl
horner-append f acc (x ∷ xs) y = horner-append f (f * acc + x) xs y

pub horner-reverse : (f : ℕ) (ds : List ℕ) → horner f 0 (reverse ds) ≡ value f ds
horner-reverse f [] = refl
horner-reverse f (d ∷ ds) =
    rw (reverse-cons, horner-append f 0 (reverse ds) d, horner-reverse f ds) (omega arith)

module _ (f r : ℕ) (hf : 0 < f) (hr : 1 < r) where
  -- The digits after the whole loop.
  pub value-foldl : (bs ds : List ℕ) → value r (foldl (absorb f r) ds bs) ≡ horner f (value r ds) bs
  value-foldl [] ds = refl
  value-foldl (b ∷ bs) ds =
      value-foldl bs (absorb f r ds b) ∙ ap (λ (t : ℕ). horner f t bs) (value-absorb r hr f ds b)

  pub IsBelow-foldl :
      (bs ds : List ℕ) → All (IsBelow r) ds → All (IsBelow r) (foldl (absorb f r) ds bs)
  IsBelow-foldl [] ds h = h
  IsBelow-foldl (b ∷ bs) ds h = IsBelow-foldl bs (absorb f r ds b) (IsBelow-absorb r hr f ds b)

  pub IsCanonical-foldl : (bs ds : List ℕ) → IsCanonical ds → IsCanonical (foldl (absorb f r) ds bs)
  IsCanonical-foldl [] ds h = h
  IsCanonical-foldl (b ∷ bs) ds h =
      IsCanonical-foldl bs (absorb f r ds b) (IsCanonical-absorb r hr f ds b hf h)
