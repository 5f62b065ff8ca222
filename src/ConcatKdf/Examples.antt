-- ===== src/ConcatKdf/Examples.antt =====
-- Runs of concat-kdf.js, and its theorems at concrete inputs.
use vti_didcomm_js.Prelude.{
  ℕ, ◌*◌, ◌≡◌, refl, arith, true, false, some, Option, List, [], ◌∷◌, length, replicate,
  length-replicate, ok,
}
use vti_didcomm_js.ConcatKdf.{
  be32, uint32be, length_prefix, supp_priv_info, other_info, is_key_length, derive_key,
}
use vti_didcomm_js.ConcatKdf.OtherInfo.{other_info-injective}
use vti_didcomm_js.ConcatKdf.Length.{derive_key-returns}

-- A hash that only counts.
abbrev hash : List ℕ → List ℕ
hash m = replicate {A = ℕ} 32 (length m)

hash-length : (m : List ℕ) → length (hash m) ≡ 32
hash-length m = length-replicate {A = ℕ} 32 (length m)

abbrev alg : List ℕ
alg = 65 ∷ []

info-bytes :
    other_info alg [] (9 ∷ []) 256 (some (7 ∷ [])) false
    ≡ ok (
        0 ∷ 0 ∷ 0 ∷ 1 ∷ 65 ∷ 0 ∷ 0 ∷ 0 ∷ 0 ∷ 0 ∷ 0 ∷ 0 ∷ 1 ∷ 9 ∷ 0 ∷ 0 ∷ 1 ∷ 0 ∷ 0 ∷ 0 ∷ 0 ∷ 1 ∷ 7
        ∷ [])
unfolding other_info supp_priv_info length_prefix uint32be be32
info-bytes = refl

other_info-injective_example :
    (alg ≡ alg)
    × (◌≡◌ {A = List ℕ} [] [])
    × (◌≡◌ {A = List ℕ} (9 ∷ []) (9 ∷ []))
    × (◌≡◌ {A = ℕ} 256 256)
    × (◌≡◌ {A = Option (List ℕ)} (some (7 ∷ [])) (some (7 ∷ [])))
other_info-injective_example =
    other_info-injective alg [] (9 ∷ []) alg [] (9 ∷ []) 256 256 (some (7 ∷ [])) (some (7 ∷ [])) _
      info-bytes info-bytes

valid : is_key_length 256 ≡ true
unfolding is_key_length
valid = refl

derive_key-returns_example :
    (key : List ℕ) × (derive_key hash [] alg [] [] (some (7 ∷ [])) false 256 ≡ ok key)
    × (length key * 8 ≡ 256)
derive_key-returns_example =
    derive_key-returns hash hash-length [] alg [] [] (some (7 ∷ [])) false 256 (omega arith)
      (omega arith) (omega arith) (omega arith) (omega arith) valid
