-- ===== src/Base64url.antt =====
-- src/base64url.js: base64url without padding. Byte arrays are lists of numbers, and the fields
-- that `|` joins are disjoint because an element of a Uint8Array is below 256, so `|` is `+`.
-- The proofs are in the modules below.
pub mod Decode
pub mod RoundTrip
mod Examples
use vti_didcomm_js.Prelude.{
  ℕ, ◌+◌, ◌-◌, ◌*◌, ◌/◌, ◌%◌, ◌^◌, Bool, Option, none, some, List, [], ◌∷◌, ◌++◌, map, reverse,
  length, get_or, leb, ◌==◌, if◌then◌else◌, Result, ok, err, ◌>>=◌, ◌>>◌, guard, not,
}
use vti_didcomm_js.Prelude.Text.{Text, codes}

-- B64_CHARS
abbrev pub b64_chars : Text
b64_chars = codes "ABCDEFGHIJKLMNOPQRSTUVWXYZabcdefghijklmnopqrstuvwxyz0123456789-_"

-- B64_CHARS[(n >> shift) & 0x3f]
unfoldable pub sextet : ℕ → ℕ → ℕ
sextet n shift = get_or b64_chars (n / 2 ^ shift % 64) 0

-- encode: the loop takes three bytes a round, and `rem` is the length of what is left.
unfoldable pub encode : List ℕ → Text
unfolding sextet
encode [] = []
encode (a ∷ []) = let n = a * 2 ^ 16 in sextet n 18 ∷ sextet n 12 ∷ []
encode (a ∷ b ∷ []) = let n = a * 2 ^ 16 + b * 2 ^ 8 in sextet n 18 ∷ sextet n 12 ∷ sextet n 6 ∷ []
encode (a ∷ b ∷ c ∷ rest) =
    let n = a * 2 ^ 16 + b * 2 ^ 8 + c in
    sextet n 18 ∷ sextet n 12 ∷ sextet n 6 ∷ sextet n 0 ∷ encode rest

-- The table is filled from left to right, so a later entry for the same character would win.
fill_lookup : Text → ℕ → ℕ → Option ℕ
fill_lookup [] i ch = none
fill_lookup (c ∷ cs) i ch = elim (fill_lookup cs (i + 1) ch) [
  | some j ↦ some j
  | none ↦ if ch == c then some i else none
]

-- B64_LOOKUP[ch], where undefined is `none`
pub b64_lookup : ℕ → Option ℕ
unfolding fill_lookup
b64_lookup ch = fill_lookup b64_chars 0 ch

pub data DecodeError : Type 0 where
  invalid_length : ℕ → DecodeError
  invalid_character : (ch position : ℕ) → DecodeError

-- .replace(/[+]/g, "-").replace(/[/]/g, "_")
pub url_safe : ℕ → ℕ
url_safe ch = if ch == b'+' then b'-' else if ch == b'/' then b'_' else ch

-- .replace(/=+$/, ""), on the reversed text
drop_padding : Text → Text
drop_padding [] = []
drop_padding (c ∷ s) = let rest = drop_padding s in if c == b'=' then rest else c ∷ s

pub normalize : Text → Text
unfolding url_safe drop_padding
normalize s = reverse (drop_padding (reverse (map url_safe s)))

-- The loop, with its variables `i`, `n`, `bits` and `out`. `n` is an int32, kept as its bit pattern:
-- `n >> bits` has `bits` < 8, so the low eight bits of the shift do not depend on the sign.
pub decode_loop : Text → (i n bits : ℕ) → List ℕ → Result DecodeError (List ℕ)
unfolding b64_lookup
decode_loop [] i n bits out = ok out
decode_loop (ch ∷ rest) i n bits out = elim (b64_lookup ch) [
  | none ↦ err (invalid_character ch i)
  | some v ↦
      let n' = (n * 64 + v) % 2 ^ 32 in
      let bits' = bits + 6 in
      decode_loop rest (i + 1) n' (if leb 8 bits' then bits' - 8 else bits')
        (if leb 8 bits' then out ++ (n' / 2 ^ (bits' - 8) % 256 ∷ []) else out)
]

-- What follows the normalisation.
pub decode_normalized : Text → Result DecodeError (List ℕ)
unfolding decode_loop
decode_normalized norm =
    (guard (not (length norm % 4 == 1)) (invalid_length (length norm)) >> decode_loop norm 0 0 0 [])

unfoldable pub decode : Text → Result DecodeError (List ℕ)
unfolding normalize decode_normalized
decode s = decode_normalized (normalize s)
