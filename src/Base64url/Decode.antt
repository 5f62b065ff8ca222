-- ===== src/Base64url/Decode.antt =====
-- `decode`: what it accepts, how many bytes it returns, and which inputs it does not tell apart.
use vti_didcomm_js.Prelude.{
  ℕ, zero, suc, ◌+◌, ◌-◌, ◌*◌, ◌/◌, ◌%◌, ◌^◌, ◌<◌, ◌≡◌, refl, sym, ap, ◌∙◌, arith, none, List, [],
  ◌∷◌, ◌++◌, map, reverse, length, leb, ◌==◌, if◌then◌else◌, ok, All, IsByte, ==_iff, ◌≢◌, ◌↔◌,
  length-append, All-append, replicate, Option-cases, Bool-cases, inl, inr,
}
use mathlib.Core.List.{map-append, reverse-append, reverse-cons}
use vti_didcomm_js.Prelude.Text.{Text}
use vti_didcomm_js.Base64url.{
  b64_lookup, url_safe, drop_padding, normalize, decode_loop, decode_normalized, decode,
}
use vti_didcomm_js.Base64url.RoundTrip.{char_of, b64_lookup-char_of, normalize-IsB64, char_of-IsB64}

-- The length and the range of what the loop appends.
decode_loop_shape :
    (s : Text) (i n bits : ℕ) (out bs : List ℕ)
    → bits < 8
    → All IsByte out
    → decode_loop s i n bits out ≡ ok bs
    → (length bs ≡ length out + (bits + 6 * length s) / 8) × All IsByte bs
unfolding decode_loop
decode_loop_shape [] i n bits out bs hb ho e =
    let same : out ≡ bs = cc in rw (← same) (omega arith, ho)
decode_loop_shape (ch ∷ s) i n bits out bs hb ho e = elim (Option-cases (b64_lookup ch)) [
  | inl missing ↦ cc (rw (missing, decode_loop) at e)
  | inr (v, found) ↦ elim (Bool-cases (leb 8 (bits + 6))) [
    | inl full ↦
        let (len, bytes) =
          decode_loop_shape s _ _ _ _ bs (ground arith)
            (All-append IsByte out _ ho (omega arith, tt)) (rw (found, full, decode_loop) at e) in
        (
          ground (arith, length-append out ((n * 64 + v) % 2 ^ 32 / 2 ^ (bits + 6 - 8) % 256 ∷ [])),
          bytes,
        )
    | inr short ↦
        let (len, bytes) =
          decode_loop_shape s _ _ _ _ bs (ground arith) ho (rw (found, short, decode_loop) at e) in
        (ground arith, bytes)
  ]
]

-- Every character of the alphabet decodes.
abbrev pub IsKnown : ℕ → Type 0
IsKnown ch = b64_lookup ch ≢ none

decode_loop_total :
    (s : Text) (i n bits : ℕ) (out : List ℕ)
    → All IsKnown s
    → (bs : List ℕ) × (decode_loop s i n bits out ≡ ok bs)
unfolding decode_loop
decode_loop_total [] i n bits out h = (out, refl)
decode_loop_total (ch ∷ s) i n bits out (k, h) = elim (Option-cases (b64_lookup ch)) [
  | inl missing ↦ absurd (k missing)
  | inr (v, found) ↦ rw (found, decode_loop) (decode_loop_total s _ _ _ _ h)
]

decode_loop-IsKnown :
    (s : Text) (i n bits : ℕ) (out bs : List ℕ) → decode_loop s i n bits out ≡ ok bs → All IsKnown s
unfolding decode_loop
decode_loop-IsKnown [] i n bits out bs e = tt
decode_loop-IsKnown (ch ∷ s) i n bits out bs e = elim (Option-cases (b64_lookup ch)) [
  | inl missing ↦ cc (rw (missing, decode_loop) at e)
  | inr (v, found) ↦ (cc found, decode_loop-IsKnown s _ _ _ _ bs (rw (found, decode_loop) at e))
]

drop_padding-append : (k : ℕ) (s : Text) → drop_padding (replicate k b'=' ++ s) ≡ drop_padding s
unfolding drop_padding
drop_padding-append zero s = refl
drop_padding-append (suc k) s = drop_padding-append k s

replicate-append : (k c : ℕ) → replicate k c ++ (c ∷ []) ≡ c ∷ replicate k c
replicate-append zero c = refl
replicate-append (suc k) c = ap (λ (l : Text). c ∷ l) (replicate-append k c)

reverse-replicate : (k c : ℕ) → reverse (replicate k c) ≡ replicate k c
reverse-replicate zero c = refl
reverse-replicate (suc k) c = rw (reverse-cons, reverse-replicate k c) (replicate-append k c)

map-replicate : (k : ℕ) → map url_safe (replicate k b'=') ≡ replicate k b'='
unfolding url_safe
map-replicate zero = refl
map-replicate (suc k) = ap (λ (l : Text). b'=' ∷ l) (map-replicate k)

normalize-padding : (s : Text) (k : ℕ) → normalize (s ++ replicate k b'=') ≡ normalize s
unfolding normalize
normalize-padding s k =
    rw (map-append, map-replicate k, reverse-append, reverse-replicate k, drop_padding-append k)

-- The character of standard base64 for one of base64url.
abbrev pub standard : ℕ → ℕ
standard ch = if ch == b'-' then b'+' else if ch == b'_' then b'/' else ch

url_safe-standard : (ch : ℕ) → url_safe (standard ch) ≡ url_safe ch
unfolding url_safe
url_safe-standard ch = ground arith

map-standard : (s : Text) → map url_safe (map standard s) ≡ map url_safe s
map-standard [] = refl
map-standard (c ∷ s) = cc (url_safe-standard c, map-standard s)

normalize-standard : (s : Text) → normalize (map standard s) ≡ normalize s
unfolding normalize
normalize-standard s = ap (λ (t : Text). reverse (drop_padding (reverse t))) (map-standard s)

-- The guard of `decode` passed.
decode_normalized-ok :
    (t : Text) (bs : List ℕ)
    → decode_normalized t ≡ ok bs
    → (length t % 4 ≢ 1) × (decode_loop t 0 0 0 [] ≡ ok bs)
unfolding decode_normalized
decode_normalized-ok t bs e = elim (Bool-cases (length t % 4 == 1)) [
  | inl bad ↦ cc (rw bad at e)
  | inr good ↦ (λ h. ground arith, rw good at e)
]

decode_normalized-run :
    (t : Text) (bs : List ℕ)
    → length t % 4 ≢ 1
    → decode_loop t 0 0 0 [] ≡ ok bs
    → decode_normalized t ≡ ok bs
unfolding decode_normalized
decode_normalized-run t bs h run = elim (Bool-cases (length t % 4 == 1)) [
  | inl bad ↦ absurd (h ((==_iff _ _).0 bad))
  | inr good ↦ rw good run
]

-- Standard base64, with `+`, `/` and any number of `=` at the end, decodes like base64url.
pub decode-standard : (s : Text) (k : ℕ) → decode (map standard s ++ replicate k b'=') ≡ decode s
unfolding decode
decode-standard s k =
    ap decode_normalized (normalize-padding (map standard s) k ∙ normalize-standard s)

-- A result fills the array that `decode` allocates, floor(length * 3 / 4), and holds bytes.
pub decode_bounds :
    (s : Text) (bs : List ℕ)
    → decode s ≡ ok bs
    → (length bs ≡ length (normalize s) * 3 / 4) × All IsByte bs
unfolding decode
decode_bounds s bs e =
    let (len, bytes) =
      decode_loop_shape (normalize s) 0 0 0 [] bs (omega arith) tt
        (decode_normalized-ok (normalize s) bs e).1 in
    (omega (arith, len), bytes)

-- `decode` returns bytes exactly for the texts that, normalised, hold only characters of the alphabet
-- and do not have a length of 1 modulo 4.
pub decode_ok_iff :
    (s : Text)
    → ((bs : List ℕ) × (decode s ≡ ok bs))
      ↔ ((length (normalize s) % 4 ≢ 1) × All IsKnown (normalize s))
unfolding decode
decode_ok_iff s = (
  λ (bs, e).
      let (len, run) = decode_normalized-ok (normalize s) bs e in
      (len, decode_loop-IsKnown (normalize s) 0 0 0 [] bs run),
  λ (len, known).
      let (bs, run) = decode_loop_total (normalize s) 0 0 0 [] known in
      (bs, decode_normalized-run (normalize s) bs len run),
)

decode_two :
    (a v : ℕ)
    → a < 64
    → v < 64
    → decode (char_of a ∷ char_of v ∷ []) ≡ ok ((a * 4 + v / 16) % 256 ∷ [])
unfolding decode
decode_two a v ha hv =
    rw (normalize-IsB64 (char_of a ∷ char_of v ∷ []) (char_of-IsB64 a ha, (char_of-IsB64 v hv, tt)))
      (unfold decode_normalized decode_loop in
        rw (b64_lookup-char_of a ha, decode_loop)
          (rw (b64_lookup-char_of v hv, decode_loop) (ap (λ (x : ℕ). ok (x ∷ [])) (omega arith))))

-- For a text of exactly two base64url characters, the low four bits of the second are ignored: values
-- that agree in the upper two bits decode to the same result.
pub decode_stray_bits :
    (a v w : ℕ)
    → a < 64
    → v < 64
    → w < 64
    → v / 16 ≡ w / 16
    → decode (char_of a ∷ char_of v ∷ []) ≡ decode (char_of a ∷ char_of w ∷ [])
decode_stray_bits a v w ha hv hw e =
    decode_two a v ha hv
    ∙ ap (λ (x : ℕ). ok ((a * 4 + x) % 256 ∷ [])) e
    ∙ sym (decode_two a w ha hw)
