-- ===== src/Multibase/RoundTrip.antt =====
-- base58btcDecode reads back what base58btcEncode wrote, and decodeMultikey what encodeMultikey wrote.
use vti_didcomm_js.Prelude.{
  ℕ, zero, suc, ◌+◌, ◌≤◌, ◌<◌, ◌≡◌, ◌≢◌, refl, sym, ap, ◌∙◌, arith, List, [], ◌∷◌, ◌++◌, All,
  reverse, ◌==◌, Bool-cases, inl, inr, ==_iff, append_assoc, All-reverse, All-append_right,
  append-nil, ◌||◌, Bool, true, false, Option, some, none, not, map, length, get_or, drop,
  replicate, ok, IsByte, reverse-reverse, drop-length_append, take-length_append, length-replicate,
}
use mathlib.Core.List.{foldl, reverse-cons}
use vti_didcomm_js.Prelude.Text.{starts_with}
use vti_didcomm_js.Prelude.Tables.{all_below, all_below_sound}
use vti_didcomm_js.Multibase.{
  b58, absorb, leading, base58btc_encode, base58btc_decode, b58_lookup, decode_digits,
  encode_multikey, decode_multikey, codec_len,
}
use vti_didcomm_js.Multibase.Radix.{
  IsCanonical, IsBelow, horner, horner-reverse, value-foldl, IsBelow-foldl, IsCanonical-foldl,
  value-injective,
}

abbrev char_of : ℕ → ℕ
char_of d = get_or b58 d 0

value_is : Option ℕ → ℕ → Bool
value_is none v = false
value_is (some w) v = w == v

value_is→eq : (o : Option ℕ) (v : ℕ) → value_is o v ≡ true → o ≡ some v
unfolding value_is
value_is→eq none v h = cc
value_is→eq (some w) v h = ap some ((==_iff w v).0 h)

lookup_table : all_below 58 (λ v. value_is (b58_lookup (char_of v)) v) ≡ true
unfolding all_below value_is b58_lookup
lookup_table = refl

b58_lookup-char_of : (v : ℕ) → v < 58 → b58_lookup (char_of v) ≡ some v
b58_lookup-char_of v h = value_is→eq _ v (all_below_sound 58 _ v lookup_table h)

decode_digits-map :
    (ds : List ℕ) (i : ℕ) (bytes : List ℕ)
    → All (IsBelow 58) ds
    → decode_digits (map char_of ds) i bytes ≡ ok (foldl (absorb 58 256) bytes ds)
unfolding decode_digits
decode_digits-map [] i bytes h = refl
decode_digits-map (d ∷ ds) i bytes (p, h) =
    rw (b58_lookup-char_of d p, decode_digits)
      (decode_digits-map ds (i + 1) (absorb 58 256 bytes d) h)

-- What does not begin with `x`.
abbrev Without : ℕ → List ℕ → Type 0
Without x [] = Unit
Without x (y ∷ ys) = y ≢ x

leading-append : (x n : ℕ) (ys : List ℕ) → Without x ys → leading x (replicate n x ++ ys) ≡ n
unfolding leading
leading-append x zero [] h = refl
leading-append x zero (y ∷ ys) h = ground arith
leading-append x (suc n) ys h = ground (arith, leading-append x n ys h)

leading_split : (x : ℕ) (xs : List ℕ) → replicate (leading x xs) x ++ drop (leading x xs) xs ≡ xs
unfolding leading
leading_split x [] = refl
leading_split x (y ∷ ys) = elim (Bool-cases (y == x)) [
  | inl same ↦ rw same (cc (leading_split x ys, (==_iff y x).0 same))
  | inr other ↦ rw other
]

Without-drop : (x : ℕ) (xs : List ℕ) → Without x (drop (leading x xs) xs)
unfolding leading
Without-drop x [] = tt
Without-drop x (y ∷ ys) = elim (Bool-cases (y == x)) [
  | inl same ↦ rw same (Without-drop x ys)
  | inr other ↦ rw other (ground arith)
]

IsCanonical-append : (xs : List ℕ) (d : ℕ) → d ≢ 0 → IsCanonical (xs ++ (d ∷ []))
IsCanonical-append [] d h = h
IsCanonical-append (x ∷ []) d h = h
IsCanonical-append (x ∷ y ∷ xs) d h = IsCanonical-append (y ∷ xs) d h

IsCanonical-reverse : (xs : List ℕ) → Without 0 xs → IsCanonical (reverse xs)
IsCanonical-reverse [] h = tt
IsCanonical-reverse (x ∷ xs) h = rw reverse-cons (IsCanonical-append (reverse xs) x h)

-- A canonical list of digits does not begin with 0 when it is reversed.
reverse_first :
    (ds : List ℕ) (e : ℕ) (after : List ℕ)
    → IsCanonical (e ∷ ds)
    → Without 0 (reverse (e ∷ ds) ++ after)
reverse_first [] e after h = h
reverse_first (d ∷ ds) e after h =
    rw (reverse-cons, append_assoc) (reverse_first ds d (e ∷ after) h)

Without-reverse : (ds : List ℕ) → IsCanonical ds → Without 0 (reverse ds)
Without-reverse [] h = tt
Without-reverse (d ∷ ds) h = rw append-nil at (reverse_first ds d [] h)

one_table : all_below 58 (λ d. d == 0 || not (char_of d == b'1')) ≡ true
unfolding all_below
one_table = refl

char_of-ne-one : (d : ℕ) → d < 58 → d ≢ 0 → char_of d ≢ b'1'
char_of-ne-one d h p e = ground (arith, all_below_sound 58 _ d one_table h)

Without-map : (ds : List ℕ) → All (IsBelow 58) ds → Without 0 ds → Without b'1' (map char_of ds)
Without-map [] h w = tt
Without-map (d ∷ ds) (p, h) w = char_of-ne-one d p w

-- The digits that base58btcEncode leaves.
abbrev digits_of : List ℕ → List ℕ
digits_of bytes = foldl (absorb 256 58) [] bytes

decode-digits_of :
    (rest : List ℕ)
    → All IsByte rest
    → Without 0 rest
    → foldl (absorb 58 256) [] (reverse (digits_of rest)) ≡ reverse rest
decode-digits_of rest h w =
    value-injective 256 (omega arith) _ (reverse rest)
      (IsBelow-foldl 58 256 (omega arith) (omega arith) (reverse (digits_of rest)) [] tt)
      (All-reverse IsByte rest h)
      (IsCanonical-foldl 58 256 (omega arith) (omega arith) (reverse (digits_of rest)) [] tt)
      (IsCanonical-reverse rest w)
      (value-foldl 58 256 (omega arith) (omega arith) (reverse (digits_of rest)) []
        ∙ horner-reverse 58 (digits_of rest)
        ∙ value-foldl 256 58 (omega arith) (omega arith) rest []
        ∙ ap (horner 256 0) (sym (reverse-reverse rest))
        ∙ horner-reverse 256 (reverse rest))

-- The text of `zeros` leading zeros and a rest that begins with no zero.
decode_parts :
    (zeros : ℕ) (rest : List ℕ)
    → All IsByte rest
    → Without 0 rest
    → base58btc_decode (replicate zeros b'1' ++ map char_of (reverse (digits_of rest)))
      ≡ ok (replicate zeros 0 ++ rest)
unfolding base58btc_decode
decode_parts zeros rest h w =
    let ds = reverse (digits_of rest) in
    let below : All (IsBelow 58) ds =
      All-reverse (IsBelow 58) (digits_of rest)
        (IsBelow-foldl 256 58 (omega arith) (omega arith) rest [] tt) in
    let first : Without 0 ds =
      Without-reverse (digits_of rest)
        (IsCanonical-foldl 256 58 (omega arith) (omega arith) rest [] tt) in
    let text = map char_of ds in
    let count = leading-append b'1' zeros text (Without-map ds below first) in
    let cut : drop zeros (replicate zeros b'1' ++ text) ≡ text =
      rw (length-replicate {A = ℕ} zeros b'1') at
        (drop-length_append (replicate zeros b'1') text) in
    rw (
      count,
      cut,
      decode_digits-map ds zeros [] below,
      decode-digits_of rest h w,
      reverse-reverse rest,
    )

-- For every array of bytes, base58btcDecode returns what base58btcEncode was given, leading zeros
-- included.
pub base58btc_decode-encode :
    (bytes : List ℕ) → All IsByte bytes → base58btc_decode (base58btc_encode bytes) ≡ ok bytes
unfolding base58btc_encode
base58btc_decode-encode bytes h =
    let zeros = leading 0 bytes in
    let rest = drop zeros bytes in
    let whole = leading_split 0 bytes in
    let tail : All IsByte rest = All-append_right IsByte (replicate zeros 0) rest (rw whole h) in
    decode_parts zeros rest tail (Without-drop 0 bytes) ∙ ap ok whole

-- A varint: every byte but the last has its high bit set.
abbrev pub IsVarint : List ℕ → Type 0
IsVarint [] = ⊥
IsVarint (b ∷ []) = b < 128
IsVarint (b ∷ c ∷ bs) = (128 ≤ b) × (b < 256) × IsVarint (c ∷ bs)

codec_len-append :
    (varint key : List ℕ) → IsVarint varint → codec_len (varint ++ key) ≡ length varint
unfolding codec_len
codec_len-append [] key h = absurd h
codec_len-append (b ∷ []) key h = ground arith
codec_len-append (b ∷ c ∷ bs) key (lo, hi, h) = ground (arith, codec_len-append (c ∷ bs) key h)

-- decodeMultikey splits what encodeMultikey joined, for every varint prefix and every key.
pub decode_multikey-encode_multikey :
    (varint key : List ℕ)
    → IsVarint varint
    → All IsByte (varint ++ key)
    → decode_multikey (encode_multikey varint key) ≡ ok (record { codec = varint; key = key })
unfolding decode_multikey encode_multikey starts_with
decode_multikey-encode_multikey varint key v h = rw (
  base58btc_decode-encode (varint ++ key) h,
  codec_len-append varint key v,
  take-length_append varint key,
  drop-length_append varint key,
)
