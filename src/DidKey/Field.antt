-- ===== src/DidKey/Field.antt =====
-- The arithmetic of src/did-key.js.
use vti_didcomm_js.Prelude.{
  ℕ, zero, suc, ◌+◌, ◌*◌, ◌/◌, ◌%◌, ◌^◌, ◌<◌, true, false, length, ◌==◌, Bool-cases, inl, inr, ◌≡◌,
  refl, ap, sym, ◌∙◌, arith, All, IsByte,
}
use native.Mathlib.Nat.{div-add-mod, mod-lt, mod-eq_of_lt, mul-add-mod_self_left, pow-suc, pow-zero}
use vti_didcomm_js.DidKey.{mod_pow_loop, mod_pow, le_to_big_int, big_int_to_le}

-- A factor may be reduced first.
mul-mod_left : (a b m : ℕ) → (a % m * b) % m ≡ (a * b) % m
mul-mod_left a b m =
    let split : a * b ≡ m * (a / m * b) + a % m * b = grind (arith, div-add-mod a m) in
    sym (ap (λ (t : ℕ). t % m) split ∙ mul-add-mod_self_left m (a / m * b) (a % m * b))

mul_comm : (a b : ℕ) → a * b ≡ b * a
mul_comm a b = grind arith

mul-mod_right : (a b m : ℕ) → (a * (b % m)) % m ≡ (a * b) % m
mul-mod_right a b m =
    ap (λ (t : ℕ). t % m) (mul_comm a (b % m))
    ∙ mul-mod_left b a m
    ∙ ap (λ (t : ℕ). t % m) (mul_comm b a)

-- A power of a reduced base.
pow-mod : (b e m : ℕ) → (b % m) ^ e % m ≡ b ^ e % m
pow-mod b zero m = ap (λ (t : ℕ). t % m) (pow-zero (b % m) ∙ sym (pow-zero b))
pow-mod b (suc e) m =
    ap (λ (t : ℕ). t % m) (pow-suc (b % m) e)
    ∙ sym (mul-mod_left ((b % m) ^ e) (b % m) m)
    ∙ ap (λ (t : ℕ). (t * (b % m)) % m) (pow-mod b e m)
    ∙ mul-mod_left (b ^ e) (b % m) m
    ∙ mul-mod_right (b ^ e) b m
    ∙ ap (λ (t : ℕ). t % m) (sym (pow-suc b e))

pow_square : (b h : ℕ) → (b * b) ^ h ≡ b ^ (h + h)
pow_square b zero = pow-zero (b * b) ∙ sym (pow-zero b)
pow_square b (suc h) =
    pow-suc (b * b) h
    ∙ ap (λ (t : ℕ). t * (b * b)) (pow_square b h)
    ∙ assoc (b ^ (h + h)) b
    ∙ ap (λ (t : ℕ). t * b) (sym (pow-suc b (h + h)))
    ∙ sym (pow-suc b (suc (h + h)))
    ∙ ap (λ (t : ℕ). b ^ t) (index h)
  where
    assoc : (x y : ℕ) → x * (y * y) ≡ x * y * y
    assoc x y = grind arith

    index : (n : ℕ) → suc (suc (n + n)) ≡ suc n + suc n
    index n = omega arith

-- A power of a reduced square, in a product.
square_mod : (x b h m : ℕ) → (x * (b * b % m) ^ h) % m ≡ (x * b ^ (h + h)) % m
square_mod x b h m =
    sym (mul-mod_right x ((b * b % m) ^ h) m)
    ∙ ap (λ (t : ℕ). (x * t) % m) (pow-mod (b * b) h m)
    ∙ mul-mod_right x ((b * b) ^ h) m
    ∙ ap (λ (t : ℕ). (x * t) % m) (pow_square b h)

zero_power : (r b m : ℕ) → r < m → r ≡ (r * b ^ 0) % m
zero_power r b m h = sym (
    ap (λ (t : ℕ). (r * t) % m) (pow-zero b)
    ∙ ap (λ (t : ℕ). t % m) (one_factor r)
    ∙ mod-eq_of_lt h)
  where
    one_factor : (x : ℕ) → x * 1 ≡ x
    one_factor x = omega arith

odd_power : (r b h m : ℕ) → ((r * b % m) * b ^ (h + h)) % m ≡ (r * b ^ (h + h + 1)) % m
odd_power r b h m =
    mul-mod_left (r * b) (b ^ (h + h)) m
    ∙ ap (λ (t : ℕ). t % m) (swap r b (b ^ (h + h)))
    ∙ ap (λ (t : ℕ). (r * t) % m) (sym (pow-suc b (h + h)))
    ∙ ap (λ (t : ℕ). (r * b ^ t) % m) (index h)
  where
    swap : (x y z : ℕ) → x * y * z ≡ x * (z * y)
    swap x y z = grind arith

    index : (n : ℕ) → suc (n + n) ≡ n + n + 1
    index n = omega arith

halves_odd : (e : ℕ) → (e % 2 == 1) ≡ true → e / 2 + e / 2 + 1 ≡ e
halves_odd e h = ground (arith, h)

halves_even : (e : ℕ) → (e % 2 == 1) ≡ false → e / 2 + e / 2 ≡ e
halves_even e h = ground (arith, h)

half_below : (e fuel : ℕ) → e < 2 ^ suc fuel → e / 2 < 2 ^ fuel
half_below e fuel h = omega (arith, h)

mod_pow_loop-power :
    (fuel r b e m : ℕ) → r < m → e < 2 ^ fuel → mod_pow_loop fuel r b e m ≡ (r * b ^ e) % m
unfolding mod_pow_loop
mod_pow_loop-power zero r b e m hr he =
    let none_left : 0 ≡ e = omega (arith, he) in
    zero_power r b m hr ∙ ap (λ (t : ℕ). (r * b ^ t) % m) none_left
mod_pow_loop-power (suc fuel) r b e m hr he = elim (Bool-cases (e == 0)) [
  | inl done ↦
      let none_left : 0 ≡ e = ground (arith, done) in
      rw done (zero_power r b m hr ∙ ap (λ (t : ℕ). (r * b ^ t) % m) none_left)
  | inr more ↦ elim (Bool-cases (e % 2 == 1)) [
    | inl odd ↦
        rw (more, odd)
          (mod_pow_loop-power fuel (r * b % m) (b * b % m) (e / 2) m
              (mod-lt (r * b) (omega (arith, hr))) (half_below e fuel he)
            ∙ square_mod (r * b % m) b (e / 2) m
            ∙ odd_power r b (e / 2) m
            ∙ ap (λ (t : ℕ). (r * b ^ t) % m) (halves_odd e odd))
    | inr even ↦
        rw (more, even)
          (mod_pow_loop-power fuel r (b * b % m) (e / 2) m hr (half_below e fuel he)
            ∙ square_mod r b (e / 2) m
            ∙ ap (λ (t : ℕ). (r * b ^ t) % m) (halves_even e even))
  ]
]

-- With as many rounds as the exponent has bits, and a modulus above 1, `mod_pow` gives the remainder of the power.
pub mod_pow-power :
    (fuel base exp m : ℕ) → 1 < m → exp < 2 ^ fuel → mod_pow fuel base exp m ≡ base ^ exp % m
unfolding mod_pow
mod_pow-power fuel base exp m hm he =
    mod_pow_loop-power fuel 1 (base % m) exp m hm he
    ∙ ap (λ (t : ℕ). t % m) (one_factor ((base % m) ^ exp))
    ∙ pow-mod base exp m
  where
    one_factor : (x : ℕ) → 1 * x ≡ x
    one_factor x = omega arith

pub length-big_int_to_le : (len n : ℕ) → length (big_int_to_le len n) ≡ len
unfolding big_int_to_le
length-big_int_to_le zero n = refl
length-big_int_to_le (suc len) n = ap suc (length-big_int_to_le len (n / 256))

pub big_int_to_le-bytes : (len n : ℕ) → All IsByte (big_int_to_le len n)
unfolding big_int_to_le
big_int_to_le-bytes zero n = tt
big_int_to_le-bytes (suc len) n = (mod-lt n (omega arith), big_int_to_le-bytes len (n / 256))

-- A number below 256 ^ len comes back from its bytes.
pub le_to_big_int-big_int_to_le :
    (len n : ℕ) → n < 256 ^ len → le_to_big_int (big_int_to_le len n) ≡ n
unfolding big_int_to_le le_to_big_int
le_to_big_int-big_int_to_le zero n h = omega (arith, h)
le_to_big_int-big_int_to_le (suc len) n h =
    let high : n / 256 < 256 ^ len = omega (arith, h) in
    ap (λ (t : ℕ). t * 256 + n % 256) (le_to_big_int-big_int_to_le len (n / 256) high)
    ∙ omega (arith, div-add-mod n 256)
