-- ===== src/NetGuard/Ipv4/Ranges.antt =====
-- `v4_blocked` as a list of address ranges.
use vti_didcomm_js.Prelude.{ℕ, ◌≡◌, refl, arith, Bool, List, [], ◌∷◌, any, leb, ◌&&◌}
use vti_didcomm_js.NetGuard.Ipv4.{v4_blocked, in_net, blocked_nets, v4_to_uint}

-- a.b.c.d as a number
abbrev dotted : (a b c d : ℕ) → ℕ
dotted a b c d = v4_to_uint (record { a = a; b = b; c = c; d = d })

abbrev within : ℕ → ℕ × ℕ → Bool
within n (first, last) = leb first n && leb n last

-- The special-purpose ranges, by their first and last address.
abbrev pub non_public_ranges : List (ℕ × ℕ)
non_public_ranges =
    (dotted 0 0 0 0, dotted 0 255 255 255)
    ∷ (dotted 10 0 0 0, dotted 10 255 255 255)
    ∷ (dotted 100 64 0 0, dotted 100 127 255 255)
    ∷ (dotted 127 0 0 0, dotted 127 255 255 255)
    ∷ (dotted 169 254 0 0, dotted 169 254 255 255)
    ∷ (dotted 172 16 0 0, dotted 172 31 255 255)
    ∷ (dotted 192 0 0 0, dotted 192 0 0 255)
    ∷ (dotted 192 0 2 0, dotted 192 0 2 255)
    ∷ (dotted 192 168 0 0, dotted 192 168 255 255)
    ∷ (dotted 198 18 0 0, dotted 198 19 255 255)
    ∷ (dotted 198 51 100 0, dotted 198 51 100 255)
    ∷ (dotted 203 0 113 0, dotted 203 0 113 255)
    ∷ (dotted 224 0 0 0, dotted 239 255 255 255)
    ∷ (dotted 240 0 0 0, dotted 255 255 255 255)
    ∷ []

abbrev pub in_non_public_range : ℕ → Bool
in_non_public_range n = any (within n) non_public_ranges

-- Tests that agree entry by entry agree on the lists.
abbrev Agree : {A B : Type 0} → (A → Bool) → (B → Bool) → List A → List B → Type 0
Agree f g [] [] = Unit
Agree f g [] (y ∷ ys) = ⊥
Agree f g (x ∷ xs) [] = ⊥
Agree f g (x ∷ xs) (y ∷ ys) = (f x ≡ g y) × Agree f g xs ys

any-Agree :
    {A B : Type 0} (f : A → Bool) (g : B → Bool) (xs : List A) (ys : List B)
    → Agree f g xs ys
    → any f xs ≡ any g ys
any-Agree f g [] [] h = refl
any-Agree f g [] (y ∷ ys) h = absurd h
any-Agree f g (x ∷ xs) [] h = absurd h
any-Agree f g (x ∷ xs) (y ∷ ys) (e, h) = cc (e, any-Agree f g xs ys h)

-- An address is refused exactly when it lies in one of the listed ranges.
pub v4_blocked-ranges : (n : ℕ) → v4_blocked n ≡ in_non_public_range n
unfolding v4_blocked
v4_blocked-ranges n = any-Agree (in_net n) (within n) blocked_nets non_public_ranges (
  ground arith,
  (
    ground arith,
    (
      ground arith,
      (
        ground arith,
        (
          ground arith,
          (
            ground arith,
            (
              ground arith,
              (
                ground arith,
                (
                  ground arith,
                  (
                    ground arith,
                    (ground arith, (ground arith, (ground arith, (ground arith, tt)))),
                  ),
                ),
              ),
            ),
          ),
        ),
      ),
    ),
  ),
)
