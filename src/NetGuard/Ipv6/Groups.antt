-- ===== src/NetGuard/Ipv6/Groups.antt =====
-- What `parse_ipv6` returns.
use vti_didcomm_js.Prelude.{
  ℕ, zero, suc, ◌+◌, ◌-◌, ◌≤◌, ◌<◌, ◌≡◌, arith, true, List, [], ◌∷◌, ◌++◌, inl, inr, All,
  All-append, length, length-append, length-replicate, Option, some, none, ◌&&◌, leb, ltb, ◌==◌,
  replicate, take, drop, Bool-cases, ltb→lt, ==_iff,
}
use mathlib.Core.Path.{subst}
use vti_didcomm_js.Prelude.Maybe.{require, >>=-eq-some, require-eq-some, some-injective}
use vti_didcomm_js.Prelude.Text.{Text, codes, includes, last_index_of, index_of, split_at}
use vti_didcomm_js.NetGuard.Ipv4.{V4, parse_ipv4}
use vti_didcomm_js.NetGuard.Ipv4.Literal.{IsV4, dotted_quad-parse_ipv4}
use vti_didcomm_js.NetGuard.Ipv6.{
  is_hex, hex_value, group, group_list, groups, v4_tail, cut_tail, no_gap, fill_gap, at_gap, expand,
  unbracket, parse_ipv6,
}

abbrev pub IsGroup : ℕ → Type 0
IsGroup g = g < 65536

hex_value-lt : (c : ℕ) → is_hex c ≡ true → hex_value c < 16
hex_value-lt c h = ground arith

group-IsGroup : (piece : Text) (n : ℕ) → group piece ≡ some n → IsGroup n
unfolding group
group-IsGroup [] n e = cc
group-IsGroup (x ∷ []) n e = ground (arith, hex_value-lt x)
group-IsGroup (x ∷ y ∷ []) n e = ground (arith, hex_value-lt x, hex_value-lt y)
group-IsGroup (x ∷ y ∷ z ∷ []) n e = ground (arith, hex_value-lt x, hex_value-lt y, hex_value-lt z)
group-IsGroup (x ∷ y ∷ z ∷ w ∷ []) n e =
    ground (arith, hex_value-lt x, hex_value-lt y, hex_value-lt z, hex_value-lt w)
group-IsGroup (x ∷ y ∷ z ∷ w ∷ v ∷ s) n e = ground arith

group_list-IsGroup :
    (pieces : List Text) (gs : List ℕ) → group_list pieces ≡ some gs → All IsGroup gs
unfolding group_list
group_list-IsGroup [] gs e = subst (All IsGroup) (some-injective e) tt
group_list-IsGroup (p ∷ ps) gs e =
    let (g, eg, e₁) = >>=-eq-some (group p) _ e in
    let (rest, er, e₂) = >>=-eq-some (group_list ps) _ e₁ in
    subst (All IsGroup) (some-injective e₂) (group-IsGroup p g eg, group_list-IsGroup ps rest er)

groups-IsGroup : (s : Text) (gs : List ℕ) → groups s ≡ some gs → All IsGroup gs
unfolding groups
groups-IsGroup [] gs e = subst (All IsGroup) (some-injective e) tt
groups-IsGroup (c ∷ s) gs e = group_list-IsGroup (split_at b':' (c ∷ s)) gs e

-- Eight groups of 16 bits.
abbrev pub IsAddress : List ℕ → Type 0
IsAddress gs = (length gs ≡ 8) × All IsGroup gs

no_gap-IsAddress :
    (tail : List ℕ) (s : Text) (gs : List ℕ)
    → length tail ≤ 8
    → All IsGroup tail
    → no_gap tail (8 - length tail) s ≡ some gs
    → IsAddress gs
unfolding no_gap
no_gap-IsAddress tail s gs short ht e =
    let (all_groups, eg, e₁) = >>=-eq-some (groups s) _ e in
    let (u, ec, e₂) = >>=-eq-some (require (length all_groups == 8 - length tail)) _ e₁ in
    let count = (==_iff _ _).0 (require-eq-some _ ec) in
    subst IsAddress (some-injective e₂) (
      omega (arith, count, length-append all_groups tail),
      All-append IsGroup all_groups tail (groups-IsGroup s all_groups eg) ht,
    )

All-zeros : (n : ℕ) → All IsGroup (replicate n 0)
All-zeros zero = tt
All-zeros (suc n) = (omega arith, All-zeros n)

fill_gap-IsAddress :
    (tail : List ℕ) (s : Text) (gap : ℕ) (gs : List ℕ)
    → length tail ≤ 8
    → All IsGroup tail
    → fill_gap tail (8 - length tail) s gap ≡ some gs
    → IsAddress gs
unfolding fill_gap
fill_gap-IsAddress tail s gap gs short ht e =
    let (last, el, e₁) = >>=-eq-some (last_index_of s (codes "::")) _ e in
    let (u, eu, e₂) = >>=-eq-some (require (gap == last)) _ e₁ in
    let (head, eh, e₃) = >>=-eq-some (groups (take gap s)) _ e₂ in
    let (rest, er, e₄) = >>=-eq-some (groups (drop (gap + 2) s)) _ e₃ in
    let (w, ew, e₅) =
      >>=-eq-some (require (ltb (length head + length rest) (8 - length tail))) _ e₄ in
    let room = ltb→lt _ _ (require-eq-some _ ew) in
    let fill = 8 - length tail - length head - length rest in
    let zeros = replicate {A = ℕ} fill 0 in
    subst IsAddress (some-injective e₅) (
      omega (
        arith,
        room,
        length-append head (zeros ++ (rest ++ tail)),
        length-append zeros (rest ++ tail),
        length-append rest tail,
        length-replicate {A = ℕ} fill 0,
      ),
      All-append IsGroup head _ (groups-IsGroup _ head eh) (
          All-append IsGroup zeros _ (All-zeros fill)
            (All-append IsGroup rest tail (groups-IsGroup _ rest er) ht)),
    )

expand-IsAddress :
    (tail : List ℕ) (s : Text) (gs : List ℕ)
    → length tail ≤ 8
    → All IsGroup tail
    → expand (tail, s) ≡ some gs
    → IsAddress gs
unfolding expand
expand-IsAddress tail s gs short ht e = go (index_of s (codes "::")) e
  where
    go : (gap : Option ℕ) → at_gap tail (8 - length tail) s gap ≡ some gs → IsAddress gs
    go none h = no_gap-IsAddress tail s gs short ht h
    go (some gap) h = fill_gap-IsAddress tail s gap gs short ht h

v4_tail-IsGroup : (v : V4) → IsV4 v → All IsGroup (v4_tail v)
v4_tail-IsGroup v h = (omega arith, (omega arith, tt))

-- The tail that a dotted quad leaves is two groups, or there is none.
abbrev IsTail : List ℕ × Text → Type 0
IsTail parts = (length parts.0 ≤ 8) × All IsGroup parts.0

cut_tail-IsTail :
    (s : Text) (last : ℕ) (parts : List ℕ × Text) → cut_tail s last ≡ some parts → IsTail parts
unfolding cut_tail
cut_tail-IsTail s last parts e = elim (Bool-cases (includes s (codes "."))) [
  | inl quad ↦
      let (v, ev, e₁) = >>=-eq-some (parse_ipv4 (drop (last + 1) s)) _ (rw quad at e) in
      let valid = (dotted_quad-parse_ipv4 _ v ev).1 in
      subst IsTail (some-injective e₁) (omega arith, (v4_tail-IsGroup v valid))
  | inr plain ↦ subst IsTail (some-injective (rw plain at e)) (omega arith, tt)
]

-- Whatever `parse_ipv6` accepts is eight groups of 16 bits.
pub parse_ipv6-IsAddress : (s : Text) (gs : List ℕ) → parse_ipv6 s ≡ some gs → IsAddress gs
unfolding parse_ipv6
parse_ipv6-IsAddress s gs e =
    let (u, eu, e₁) = >>=-eq-some (require (leb 1 (length (unbracket s)) && _)) _ e in
    let (last, el, e₂) = >>=-eq-some (last_index_of (unbracket s) (codes ":")) _ e₁ in
    let (parts, ep, e₃) = >>=-eq-some (cut_tail (unbracket s) last) _ e₂ in
    let (short, ht) = cut_tail-IsTail (unbracket s) last parts ep in
    expand-IsAddress parts.0 parts.1 gs short ht e₃
