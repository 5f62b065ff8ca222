-- ===== src/TspFrame/Framing.antt =====
-- The text test of tsp-frame.js on what base64url.js writes, as a condition on the bytes.
use vti_didcomm_js.Prelude.{
  ℕ, ◌+◌, ◌*◌, ◌/◌, ◌%◌, ◌^◌, ◌<◌, ◌≡◌, refl, sym, ◌∙◌, arith, Bool, true, false, List, [], ◌∷◌,
  get_or, ◌==◌, ◌&&◌, ◌||◌, All, IsByte,
}
use vti_didcomm_js.Prelude.Text.{Text, starts_with}
use vti_didcomm_js.Prelude.Tables.{all_below, all_below_sound}
use vti_didcomm_js.Base64url.{sextet, encode}
use vti_didcomm_js.Base64url.RoundTrip.{char_of}
use vti_didcomm_js.TspFrame.{is_tsp_frame_text, is_tsp_frame_bytes}

same : Bool → Bool → Bool
same true b = b
same false true = false
same false false = true

same→eq : (a b : Bool) → same a b ≡ true → a ≡ b
unfolding same
same→eq true b h = sym h
same→eq false true h = cc
same→eq false false h = refl

dash_table : all_below 64 (λ v. same (char_of v == b'-') (v == 62)) ≡ true
unfolding all_below same
dash_table = refl

char_of-dash : (v : ℕ) → v < 64 → (char_of v == b'-') ≡ (v == 62)
char_of-dash v h = same→eq _ _ (all_below_sound 64 _ v dash_table h)

e_table : all_below 64 (λ v. same (char_of v == b'E') (v == 4)) ≡ true
unfolding all_below same
e_table = refl

char_of-e : (v : ℕ) → v < 64 → (char_of v == b'E') ≡ (v == 4)
char_of-e v h = same→eq _ _ (all_below_sound 64 _ v e_table h)

sextet-dash : (n s : ℕ) → (sextet n s == b'-') ≡ (n / 2 ^ s % 64 == 62)
unfolding sextet
sextet-dash n s = char_of-dash (n / 2 ^ s % 64) (omega arith)

sextet-e : (n s : ℕ) → (sextet n s == b'E') ≡ (n / 2 ^ s % 64 == 4)
unfolding sextet
sextet-e n s = char_of-e (n / 2 ^ s % 64) (omega arith)

-- The heads of the two framings, with 0 for a byte that is not there.
abbrev pub has_tsp_head : List ℕ → Bool
has_tsp_head bs =
    (get_or bs 0 0 == 0xf8 && get_or bs 1 0 / 16 == 4)
    || (get_or bs 0 0 == 0xfb && (get_or bs 1 0 == 0xe1 && get_or bs 2 0 / 64 == 0))

-- The two prefix tests on a text of three characters or more, and of two.
tests : (x y z : ℕ) → Bool
tests x y z =
    (x == b'-' && (y == b'-' && (z == b'E' && true)))
    || ((x == b'-' && (y == b'E' && true)) || false)

text_tests : (x y z : ℕ) (rest : Text) → is_tsp_frame_text (x ∷ y ∷ z ∷ rest) ≡ tests x y z
unfolding is_tsp_frame_text starts_with tests
text_tests x y z rest = refl

text_two :
    (x y : ℕ)
    → is_tsp_frame_text (x ∷ y ∷ [])
      ≡ ((x == b'-' && (y == b'-' && false)) || ((x == b'-' && (y == b'E' && true)) || false))
unfolding is_tsp_frame_text starts_with
text_two x y = refl

-- The sextets of a word in terms of its bytes.
numeric :
    (a b c : ℕ)
    → a < 256
    → b < 256
    → c < 256
    → ((a / 4 == 62 && ((a % 4 * 16 + b / 16) == 62 && ((b % 16 * 4 + c / 64) == 4 && true)))
        || ((a / 4 == 62 && ((a % 4 * 16 + b / 16) == 4 && true)) || false))
      ≡ has_tsp_head (a ∷ b ∷ c ∷ [])
numeric a b c ha hb hc = ground arith

tests-word :
    (a b c : ℕ)
    → a < 256
    → b < 256
    → c < 256
    → let n = a * 2 ^ 16 + b * 2 ^ 8 + c in
      tests (sextet n 18) (sextet n 12) (sextet n 6) ≡ has_tsp_head (a ∷ b ∷ c ∷ [])
unfolding tests
tests-word a b c ha hb hc =
    let n = a * 2 ^ 16 + b * 2 ^ 8 + c in
    let p : n / 2 ^ 18 % 64 ≡ a / 4 = omega arith in
    let q : n / 2 ^ 12 % 64 ≡ a % 4 * 16 + b / 16 = omega arith in
    let r : n / 2 ^ 6 % 64 ≡ b % 16 * 4 + c / 64 = omega arith in
    rw (sextet-dash n 18, sextet-dash n 12, sextet-e n 6, sextet-e n 12, p, q, r)
      (numeric a b c ha hb hc)

-- The text of an array of bytes is taken for a TSP frame exactly when the bytes begin with F8 4x,
-- or with FB E1 and a byte below 64 (or no third byte).
pub is_tsp_frame_text-encode :
    (bs : List ℕ) → All IsByte bs → is_tsp_frame_text (encode bs) ≡ has_tsp_head bs
is_tsp_frame_text-encode [] h = unfold is_tsp_frame_text encode starts_with in refl
is_tsp_frame_text-encode (a ∷ []) (ha, _) =
    let n = a * 2 ^ 16 in
    let p : n / 2 ^ 18 % 64 ≡ a / 4 = omega arith in
    let q : n / 2 ^ 12 % 64 ≡ a % 4 * 16 = omega arith in
    unfold encode in
    text_two (sextet n 18) (sextet n 12)
    ∙ rw (sextet-dash n 18, sextet-dash n 12, sextet-e n 12, p, q) (ground arith)
is_tsp_frame_text-encode (a ∷ b ∷ []) (ha, (hb, _)) =
    let n = a * 2 ^ 16 + b * 2 ^ 8 in
    let same_word : n ≡ a * 2 ^ 16 + b * 2 ^ 8 + 0 = omega arith in
    unfold encode in
    text_tests (sextet n 18) (sextet n 12) (sextet n 6) _
    ∙ rw same_word (tests-word a b 0 ha hb (omega arith))
is_tsp_frame_text-encode (a ∷ b ∷ c ∷ rest) (ha, (hb, (hc, h))) =
    let n = a * 2 ^ 16 + b * 2 ^ 8 + c in
    unfold encode in
    text_tests (sextet n 18) (sextet n 12) (sextet n 6) _ ∙ tests-word a b c ha hb hc

-- Bytes whose text is taken for a TSP frame are taken for one themselves.
pub is_tsp_frame_bytes_of_text :
    (bs : List ℕ)
    → All IsByte bs
    → is_tsp_frame_text (encode bs) ≡ true
    → is_tsp_frame_bytes bs ≡ true
unfolding is_tsp_frame_bytes
is_tsp_frame_bytes_of_text [] h e = ground (arith, is_tsp_frame_text-encode [] h)
is_tsp_frame_bytes_of_text (a ∷ bs) h e = ground (arith, is_tsp_frame_text-encode (a ∷ bs) h)
