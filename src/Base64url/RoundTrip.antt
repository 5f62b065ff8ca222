-- ===== src/Base64url/RoundTrip.antt =====
-- `decode` reads back what `encode` wrote.
use vti_didcomm_js.Prelude.{
  ℕ, ◌+◌, ◌-◌, ◌*◌, ◌/◌, ◌%◌, ◌^◌, ◌<◌, ◌≡◌, refl, ap, ◌∙◌, arith, Bool, true, false, Option, none,
  some, List, [], ◌∷◌, ◌++◌, map, reverse, append-nil, append_assoc, length, get_or, leb, ◌==◌,
  if◌then◌else◌, ok, not, All, IsByte, ==_iff, All-reverse, reverse-reverse,
}
use vti_didcomm_js.Prelude.Text.{Text}
use vti_didcomm_js.Prelude.Tables.{all_below, all_below_sound}
use vti_didcomm_js.Base64url.{
  b64_chars, sextet, encode, b64_lookup, url_safe, drop_padding, normalize, decode_loop, decode,
}

-- The character of a value below 64.
abbrev pub char_of : ℕ → ℕ
char_of v = get_or b64_chars v 0

value_is : Option ℕ → ℕ → Bool
value_is none v = false
value_is (some w) v = w == v

value_is→eq : (o : Option ℕ) (v : ℕ) → value_is o v ≡ true → o ≡ some v
unfolding value_is
value_is→eq none v h = cc
value_is→eq (some w) v h = ap some ((==_iff w v).0 h)

lookup_table : all_below 64 (λ v. value_is (b64_lookup (char_of v)) v) ≡ true
unfolding all_below value_is b64_lookup
lookup_table = refl

pub b64_lookup-char_of : (v : ℕ) → v < 64 → b64_lookup (char_of v) ≡ some v
b64_lookup-char_of v h = value_is→eq _ v (all_below_sound 64 _ v lookup_table h)

safe_table : all_below 64 (λ v. url_safe (char_of v) == char_of v) ≡ true
unfolding all_below url_safe
safe_table = refl

url_safe-char_of : (v : ℕ) → v < 64 → url_safe (char_of v) ≡ char_of v
url_safe-char_of v h = (==_iff _ _).0 (all_below_sound 64 _ v safe_table h)

pad_table : all_below 64 (λ v. not (char_of v == b'=')) ≡ true
unfolding all_below
pad_table = refl

-- A character that the encoder can write.
abbrev pub IsB64 : ℕ → Type 0
IsB64 c = (url_safe c ≡ c) × ((c == b'=') ≡ false)

pub char_of-IsB64 : (v : ℕ) → v < 64 → IsB64 (char_of v)
char_of-IsB64 v h = (url_safe-char_of v h, ground (arith, all_below_sound 64 _ v pad_table h))

sextet-IsB64 : (n s : ℕ) → IsB64 (sextet n s)
unfolding sextet
sextet-IsB64 n s = char_of-IsB64 (n / 2 ^ s % 64) (omega arith)

pub encode-IsB64 : (bs : List ℕ) → All IsB64 (encode bs)
unfolding encode
encode-IsB64 [] = tt
encode-IsB64 (a ∷ []) = let n = a * 2 ^ 16 in (sextet-IsB64 n 18, (sextet-IsB64 n 12, tt))
encode-IsB64 (a ∷ b ∷ []) =
    let n = a * 2 ^ 16 + b * 2 ^ 8 in
    (sextet-IsB64 n 18, (sextet-IsB64 n 12, (sextet-IsB64 n 6, tt)))
encode-IsB64 (a ∷ b ∷ c ∷ rest) =
    let n = a * 2 ^ 16 + b * 2 ^ 8 + c in
    (
      sextet-IsB64 n 18,
      (sextet-IsB64 n 12, (sextet-IsB64 n 6, (sextet-IsB64 n 0, encode-IsB64 rest))),
    )

map-url_safe : (s : Text) → All IsB64 s → map url_safe s ≡ s
map-url_safe [] h = refl
map-url_safe (c ∷ s) (p, h) = cc (p.0, map-url_safe s h)

drop_padding-IsB64 : (s : Text) → All IsB64 s → drop_padding s ≡ s
unfolding drop_padding
drop_padding-IsB64 [] h = refl
drop_padding-IsB64 (c ∷ s) (p, h) = rw p.1

pub normalize-IsB64 : (s : Text) → All IsB64 s → normalize s ≡ s
unfolding normalize
normalize-IsB64 s h =
    rw (map-url_safe s h, drop_padding-IsB64 (reverse s) (All-reverse IsB64 s h), reverse-reverse s)

decode_step :
    (ch : ℕ) (rest : Text) (i n bits : ℕ) (out : List ℕ) {v : ℕ}
    → b64_lookup ch ≡ some v
    → decode_loop (ch ∷ rest) i n bits out
      ≡ decode_loop rest
          (i + 1)
          ((n * 64 + v) % 2 ^ 32)
          (if leb 8 (bits + 6) then bits + 6 - 8 else bits + 6)
          (if leb 8 (bits + 6)
            then out ++ ((n * 64 + v) % 2 ^ 32 / 2 ^ (bits + 6 - 8) % 256 ∷ [])
            else out)
unfolding decode_loop
decode_step ch rest i n bits out e = rw (e, decode_loop)

sextet-lookup : (n s : ℕ) → b64_lookup (sextet n s) ≡ some (n / 2 ^ s % 64)
unfolding sextet
sextet-lookup n s = b64_lookup-char_of (n / 2 ^ s % 64) (omega arith)

-- The accumulator after the six bits of `w` at `shift`.
abbrev next : (n w shift : ℕ) → ℕ
next n w shift = (n * 64 + w / 2 ^ shift % 64) % 2 ^ 32

-- The three bytes of the word `w`, whatever the accumulator held before.
first_byte : (n w : ℕ) → next (next n w 18) w 12 / 16 % 256 ≡ w / 65536 % 256
first_byte n w = omega arith

second_byte : (n w : ℕ) → next (next n w 12) w 6 / 4 % 256 ≡ w / 256 % 256
second_byte n w = omega arith

third_byte : (n w : ℕ) → next (next n w 6) w 0 % 256 ≡ w % 256
third_byte n w = omega arith

regroup :
    (out rest : List ℕ) {a b c x y z : ℕ}
    → x ≡ a
    → y ≡ b
    → z ≡ c
    → (((out ++ (x ∷ [])) ++ (y ∷ [])) ++ (z ∷ [])) ++ rest ≡ out ++ (a ∷ b ∷ c ∷ rest)
regroup out rest p q r = rw (p, q, r) (simp append_assoc)

decode_loop-encode :
    (bs : List ℕ) (i n : ℕ) (out : List ℕ)
    → All IsByte bs
    → decode_loop (encode bs) i n 0 out ≡ ok (out ++ bs)
unfolding encode
decode_loop-encode [] i n out h = unfold decode_loop in rw append-nil
decode_loop-encode (a ∷ []) i n out (ha, _) =
    let w = a * 2 ^ 16 in
    decode_step (sextet w 18) (sextet w 12 ∷ []) i n 0 out (sextet-lookup w 18)
    ∙ decode_step (sextet w 12) [] (i + 1) (next n w 18) 6 out (sextet-lookup w 12)
    ∙ unfold decode_loop in ap (λ (x : ℕ). ok (out ++ (x ∷ []))) (omega (arith, first_byte n w))
decode_loop-encode (a ∷ b ∷ []) i n out (ha, (hb, _)) =
    let w = a * 2 ^ 16 + b * 2 ^ 8 in
    let x : a ≡ w / 65536 % 256 = omega arith in
    let y : b ≡ w / 256 % 256 = omega arith in
    decode_step (sextet w 18) (sextet w 12 ∷ sextet w 6 ∷ []) i n 0 out (sextet-lookup w 18)
    ∙ decode_step (sextet w 12) (sextet w 6 ∷ []) (i + 1) (next n w 18) 6 out (sextet-lookup w 12)
    ∙ decode_step (sextet w 6) [] (i + 1 + 1) (next (next n w 18) w 12) 4 _ (sextet-lookup w 6)
    ∙ unfold decode_loop in
      cc (append_assoc out (a ∷ []) (b ∷ []), x, y, first_byte n w, second_byte (next n w 18) w)
decode_loop-encode (a ∷ b ∷ c ∷ rest) i n out (ha, (hb, (hc, h))) =
    let w = a * 2 ^ 16 + b * 2 ^ 8 + c in
    let x : a ≡ w / 65536 % 256 = omega arith in
    let y : b ≡ w / 256 % 256 = omega arith in
    let z : c ≡ w % 256 = omega arith in
    let n₂ = next (next n w 18) w 12 in
    let more = sextet w 6 ∷ sextet w 0 ∷ encode rest in
    decode_step (sextet w 18) (sextet w 12 ∷ more) i n 0 out (sextet-lookup w 18)
    ∙ decode_step (sextet w 12) more (i + 1) (next n w 18) 6 out (sextet-lookup w 12)
    ∙ decode_step (sextet w 6) (sextet w 0 ∷ encode rest) (i + 1 + 1) n₂ 4 _ (sextet-lookup w 6)
    ∙ decode_step (sextet w 0) (encode rest) (i + 1 + 1 + 1) (next n₂ w 6) 2 _ (sextet-lookup w 0)
    ∙ decode_loop-encode rest (i + 1 + 1 + 1 + 1) (next (next n₂ w 6) w 0) _ h
    ∙ ap ok (
        regroup out rest (omega (arith, first_byte n w))
          (omega (arith, second_byte (next n w 18) w)) (omega (arith, third_byte n₂ w)))

length-encode : (bs : List ℕ) → (length (encode bs) % 4 == 1) ≡ false
unfolding encode
length-encode [] = refl
length-encode (a ∷ []) = refl
length-encode (a ∷ b ∷ []) = refl
length-encode (a ∷ b ∷ c ∷ rest) = ground (arith, length-encode rest)

-- For every array of bytes, `decode` returns what `encode` was given.
pub decode-encode : (bs : List ℕ) → All IsByte bs → decode (encode bs) ≡ ok bs
unfolding decode
decode-encode bs h =
    rw (normalize-IsB64 (encode bs) (encode-IsB64 bs), length-encode bs)
      (decode_loop-encode bs 0 0 [] h)
