-- ===== src/Multibase.antt =====
-- src/multibase.js: base58btc and multikeys. Carries stay below 2 ^ 14, so `| 0`, `<<` and `>>` are
-- plain division and multiplication. The proofs are in the modules below.
pub mod Radix
pub mod RoundTrip
mod Examples
use vti_didcomm_js.Prelude.{
  ℕ, zero, suc, ◌+◌, ◌*◌, ◌/◌, ◌%◌, Bool, Option, none, some, List, [], ◌∷◌, ◌++◌, map, reverse,
  length, get_or, take, drop, replicate, ◌==◌, if◌then◌else◌, Result, ok, err, ◌>>=◌,
}
use mathlib.Core.List.{foldl}
use vti_didcomm_js.Prelude.Text.{Text, codes, starts_with}

abbrev pub b58 : Text
b58 = codes "123456789ABCDEFGHJKLMNPQRSTUVWXYZabcdefghijkmnopqrstuvwxyz"

-- MULTICODEC
abbrev pub ed25519_pub : List ℕ
ed25519_pub = 0xed ∷ 0x01 ∷ []

abbrev pub x25519_pub : List ℕ
x25519_pub = 0xec ∷ 0x01 ∷ []

abbrev pub p256_pub : List ℕ
p256_pub = 0x80 ∷ 0x24 ∷ []

abbrev pub secp256k1_pub : List ℕ
secp256k1_pub = 0xe7 ∷ 0x01 ∷ []

-- `while (carry > 0) push(carry % radix)`; a fuel of `carry` rounds is enough.
spill : (radix fuel carry : ℕ) → List ℕ
spill radix zero carry = []
spill radix (suc fuel) carry =
    let rest = (carry % radix) ∷ spill radix fuel (carry / radix) in if carry == 0 then [] else rest

-- One round of the loop over `i`: the digits, least significant first, times `factor`, plus
-- `carry`. base58btcEncode has factor 256 and radix 58, base58btcDecode factor 58 and radix 256.
pub absorb : (factor radix : ℕ) → List ℕ → ℕ → List ℕ
unfolding spill
absorb factor radix [] carry = spill radix carry carry
absorb factor radix (d ∷ ds) carry =
    let c = carry + d * factor in (c % radix) ∷ absorb factor radix ds (c / radix)

-- `while (xs[zeros] === first) zeros++`
pub leading : ℕ → List ℕ → ℕ
leading first [] = 0
leading first (x ∷ xs) = let more = suc (leading first xs) in if x == first then more else 0

unfoldable pub base58btc_encode : List ℕ → Text
unfolding absorb leading
base58btc_encode bytes =
    let zeros = leading 0 bytes in
    let digits = foldl (absorb 256 58) [] (drop zeros bytes) in
    replicate zeros b'1' ++ map (λ d. get_or b58 d 0) (reverse digits)

fill_lookup : Text → ℕ → ℕ → Option ℕ
fill_lookup [] i ch = none
fill_lookup (c ∷ cs) i ch = elim (fill_lookup cs (i + 1) ch) [
  | some j ↦ some j
  | none ↦ if ch == c then some i else none
]

-- B58_LOOKUP[ch], where undefined is `none`; a later entry of the table would win
pub b58_lookup : ℕ → Option ℕ
unfolding fill_lookup
b58_lookup ch = fill_lookup b58 0 ch

pub data MultikeyError : Type 0 where
  not_base58btc : MultikeyError
  invalid_char : (ch position : ℕ) → MultikeyError

-- The loop of base58btcDecode from position `i` on.
pub decode_digits : Text → ℕ → List ℕ → Result MultikeyError (List ℕ)
unfolding b58_lookup absorb
decode_digits [] i bytes = ok bytes
decode_digits (ch ∷ rest) i bytes = elim (b58_lookup ch) [
  | none ↦ err (invalid_char ch i)
  | some carry ↦ decode_digits rest (i + 1) (absorb 58 256 bytes carry)
]

unfoldable pub base58btc_decode : Text → Result MultikeyError (List ℕ)
unfolding decode_digits leading
base58btc_decode s = do
  let zeros = leading b'1' s
  bytes ← decode_digits (drop zeros s) zeros []
  ok (replicate zeros 0 ++ reverse bytes)

unfoldable pub encode_multikey : (varint key_bytes : List ℕ) → Text
unfolding base58btc_encode
encode_multikey varint key_bytes = b'z' ∷ base58btc_encode (varint ++ key_bytes)

-- The bytes up to and with the first whose high bit is clear.
pub codec_len : List ℕ → ℕ
codec_len [] = 0
codec_len (b ∷ bs) = let more = suc (codec_len bs) in if b / 128 % 2 == 0 then 1 else more

pub record Multikey : Type 0 where
  pub codec : List ℕ
  pub key : List ℕ

unfoldable pub decode_multikey : Text → Result MultikeyError Multikey
unfolding base58btc_decode codec_len starts_with
decode_multikey s =
    if starts_with s (codes "z")
    then (do
      raw ← base58btc_decode (drop 1 s)
      ok (record { codec = take (codec_len raw) raw; key = drop (codec_len raw) raw }))
    else err not_base58btc
