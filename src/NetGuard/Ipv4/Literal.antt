-- ===== src/NetGuard/Ipv4/Literal.antt =====
-- `parse_ipv4` accepts exactly one spelling of each address, the dotted quad without leading zeros.
use vti_didcomm_js.Prelude.{
  ℕ, ◌+◌, ◌/◌, ◌%◌, ◌<◌, ◌≡◌, refl, sym, ap, ◌∙◌, arith, Bool, true, false, Option, some, none,
  List, [], ◌∷◌, ◌++◌, all, ltb, ◌==◌, not, if◌then◌else◌, ==_iff, Bool-cases, inl, inr,
}
use vti_didcomm_js.Prelude.Text.{Text, split_at, push_piece}
use vti_didcomm_js.Prelude.Tables.{all_below, all_below_sound}
use vti_didcomm_js.NetGuard.Ipv4.{V4, number, octet, octets, parse_ipv4}

-- A number below 256 in decimal.
abbrev pub decimal : ℕ → Text
decimal n =
    if ltb n 10
    then (48 + n) ∷ []
    else if ltb n 100
    then (48 + n / 10) ∷ (48 + n % 10) ∷ []
    else (48 + n / 100) ∷ (48 + n / 10 % 10) ∷ (48 + n % 10) ∷ []

abbrev pub dotted_quad : V4 → Text
dotted_quad v =
    decimal v.a ++ (b'.' ∷ (decimal v.b ++ (b'.' ∷ (decimal v.c ++ (b'.' ∷ decimal v.d)))))

pub record IsV4 (v : V4) : Type 0 where
  pub first : v.a < 256
  pub second : v.b < 256
  pub third : v.c < 256
  pub fourth : v.d < 256

value_is : Option ℕ → ℕ → Bool
value_is none v = false
value_is (some w) v = w == v

value_is→eq : (o : Option ℕ) (v : ℕ) → value_is o v ≡ true → o ≡ some v
unfolding value_is
value_is→eq none v h = cc
value_is→eq (some w) v h = ap some ((==_iff w v).0 h)

octet_table : all_below 256 (λ n. value_is (octet (decimal n)) n) ≡ true
unfolding all_below value_is octet
octet_table = refl

octet-decimal : (n : ℕ) → n < 256 → octet (decimal n) ≡ some n
octet-decimal n h = value_is→eq _ n (all_below_sound 256 _ n octet_table h)

dotless : Text → Bool
dotless s = all (λ ch. not (ch == b'.')) s

dotless_table : all_below 256 (λ n. dotless (decimal n)) ≡ true
unfolding all_below dotless
dotless_table = refl

split_at-dotless : (s : Text) → dotless s ≡ true → split_at b'.' s ≡ s ∷ []
unfolding split_at dotless
split_at-dotless [] h = refl
split_at-dotless (c ∷ s) h = ground (arith, split_at-dotless s)

split_at-append :
    (s rest : Text) → dotless s ≡ true → split_at b'.' (s ++ (b'.' ∷ rest)) ≡ s ∷ split_at b'.' rest
unfolding split_at dotless
split_at-append [] rest h = refl
split_at-append (c ∷ s) rest h = ground (arith, split_at-append s rest)

split_at-quad :
    (v : V4)
    → IsV4 v
    → split_at b'.' (dotted_quad v) ≡ decimal v.a ∷ decimal v.b ∷ decimal v.c ∷ decimal v.d ∷ []
split_at-quad v h =
    split_at-append (decimal v.a) _ (all_below_sound 256 _ v.a dotless_table h.first)
    ∙ ap (λ (t : List Text). decimal v.a ∷ t)
        (split_at-append (decimal v.b) _ (all_below_sound 256 _ v.b dotless_table h.second)
          ∙ ap (λ (t : List Text). decimal v.b ∷ t)
              (split_at-append (decimal v.c) _ (all_below_sound 256 _ v.c dotless_table h.third)
                ∙ ap (λ (t : List Text). decimal v.c ∷ t)
                    (split_at-dotless (decimal v.d)
                      (all_below_sound 256 _ v.d dotless_table h.fourth))))

octets-some :
    (p q r s : Text) (v : V4)
    → octet p ≡ some v.a
    → octet q ≡ some v.b
    → octet r ≡ some v.c
    → octet s ≡ some v.d
    → octets (p ∷ q ∷ r ∷ s ∷ []) ≡ some v
unfolding octets
octets-some p q r s v a b c d = rw (a, b, c, d)

-- The dotted quad of every address is parsed back.
pub parse_ipv4-dotted_quad : (v : V4) → IsV4 v → parse_ipv4 (dotted_quad v) ≡ some v
unfolding parse_ipv4
parse_ipv4-dotted_quad v h =
    ap octets (split_at-quad v h)
    ∙ octets-some (decimal v.a) (decimal v.b) (decimal v.c) (decimal v.d) v
        (octet-decimal v.a h.first) (octet-decimal v.b h.second) (octet-decimal v.c h.third)
        (octet-decimal v.d h.fourth)

-- An accepted octet is the decimal of its value.
decimal-octet : (s : Text) (n : ℕ) → octet s ≡ some n → (s ≡ decimal n) × (n < 256)
unfolding octet number
decimal-octet [] n e = cc
decimal-octet (x ∷ []) n e = ground arith
decimal-octet (x ∷ y ∷ []) n e = ground arith
decimal-octet (x ∷ y ∷ z ∷ []) n e = ground arith
decimal-octet (x ∷ y ∷ z ∷ w ∷ s) n e = ground arith

join_dots : List Text → Text
join_dots [] = []
join_dots (p ∷ []) = p
join_dots (p ∷ q ∷ ps) = p ++ (b'.' ∷ join_dots (q ∷ ps))

join_dots-push :
    (c : ℕ) (p : Text) (ps : List Text) → join_dots (push_piece c (p ∷ ps)) ≡ c ∷ join_dots (p ∷ ps)
unfolding join_dots
join_dots-push c p [] = refl
join_dots-push c p (q ∷ ps) = refl

join_dots-dot : (p : Text) (ps : List Text) → join_dots ([] ∷ p ∷ ps) ≡ b'.' ∷ join_dots (p ∷ ps)
unfolding join_dots
join_dots-dot p ps = refl

-- What the split left over begins with a piece.
split_first : (s : Text) → (p : Text) × (ps : List Text) × (split_at b'.' s ≡ p ∷ ps)
unfolding split_at
split_first [] = ([], [], refl)
split_first (c ∷ s) = elim (Bool-cases (c == b'.')) [
  | inl dot ↦ ([], split_at b'.' s, rw dot)
  | inr other ↦ let (p, ps, e) = split_first s in (c ∷ p, ps, rw (other, e))
]

join_dots-split_at : (s : Text) → join_dots (split_at b'.' s) ≡ s
unfolding split_at
join_dots-split_at [] = unfold join_dots in refl
join_dots-split_at (c ∷ s) =
    let (p, ps, e) = split_first s in
    let same : join_dots (p ∷ ps) ≡ s = rw (← e) (join_dots-split_at s) in
    elim (Bool-cases (c == b'.')) [
      | inl dot ↦ rw (dot, e) (join_dots-dot p ps ∙ cc (same, (==_iff c b'.').0 dot))
      | inr other ↦ rw (other, e) (join_dots-push c p ps ∙ ap (λ (t : Text). c ∷ t) same)
    ]

octets-parts :
    (p q r s : Text) (v : V4)
    → octets (p ∷ q ∷ r ∷ s ∷ []) ≡ some v
    → (octet p ≡ some v.a) × (octet q ≡ some v.b) × (octet r ≡ some v.c) × (octet s ≡ some v.d)
unfolding octets
octets-parts p q r s v e = ground arith

octets-eq-some :
    (parts : List Text) (v : V4)
    → octets parts ≡ some v
    → (join_dots parts ≡ dotted_quad v) × IsV4 v
unfolding octets join_dots
octets-eq-some (p ∷ q ∷ r ∷ s ∷ []) v e =
    let (ea, eb, ec, ed) = octets-parts p q r s v e in
    let (pa, ha) = decimal-octet p v.a ea in
    let (pb, hb) = decimal-octet q v.b eb in
    let (pc, hc) = decimal-octet r v.c ec in
    let (pd, hd) = decimal-octet s v.d ed in
    (rw (pa, pb, pc, pd), record { first = ha; second = hb; third = hc; fourth = hd })
octets-eq-some _ v e = cc

-- Whatever is accepted is the dotted quad of an address, so no other spelling (a leading zero, a
-- part above 255, three or five parts) names one.
pub dotted_quad-parse_ipv4 :
    (s : Text) (v : V4) → parse_ipv4 s ≡ some v → (s ≡ dotted_quad v) × IsV4 v
unfolding parse_ipv4
dotted_quad-parse_ipv4 s v e =
    let (join, valid) = octets-eq-some (split_at b'.' s) v e in
    (sym (join_dots-split_at s) ∙ join, valid)
