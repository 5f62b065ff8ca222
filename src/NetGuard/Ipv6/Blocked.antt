-- ===== src/NetGuard/Ipv6/Blocked.antt =====
-- `v6_blocked`: which addresses pass, as ranges and embedding prefixes.
use vti_didcomm_js.Prelude.{
  ℕ, ◌+◌, ◌*◌, ◌/◌, ◌%◌, ◌^◌, ◌≤◌, ◌≡◌, ◌≢◌, arith, false, List, [], ◌∷◌, ◌⊎◌, ◌↔◌, ◌++◌, sym, inl,
  inr,
}
use mathlib.Core.Path.{subst}
use vti_didcomm_js.NetGuard.Ipv4.{v4_blocked}
use vti_didcomm_js.NetGuard.Ipv6.{v6_blocked}

-- The /96 prefixes whose last 32 bits are an IPv4 address.
pub data Embedding : Type 0 where
  compatible mapped translated nat64 : Embedding

abbrev pub prefix_of : Embedding → List ℕ
prefix_of compatible = 0 ∷ 0 ∷ 0 ∷ 0 ∷ 0 ∷ 0 ∷ []
prefix_of mapped = 0 ∷ 0 ∷ 0 ∷ 0 ∷ 0 ∷ 0xffff ∷ []
prefix_of translated = 0 ∷ 0 ∷ 0 ∷ 0 ∷ 0xffff ∷ 0 ∷ []
prefix_of nat64 = 0x64 ∷ 0xff9b ∷ 0 ∷ 0 ∷ 0 ∷ 0 ∷ []

-- 2000::/3 without 2001::/23, 2001:db8::/32, 2002::/16 and 3fff::/20.
abbrev pub IsPlainGlobal : (a b : ℕ) → Type 0
IsPlainGlobal a b =
    (a / 2 ^ 13 % 8 ≡ 1)
    × (a ≢ 0x2002)
    × ((a ≢ 0x2001) ⊎ ((0x200 ≤ b) × (b ≢ 0xdb8)))
    × ((a ≢ 0x3fff) ⊎ (b / 2 ^ 12 % 16 ≢ 0))

-- The address embeds an IPv4 address that passes, under one of the four prefixes.
abbrev pub IsEmbedded : (a b c d e f g h : ℕ) → Type 0
IsEmbedded a b c d e f g h =
    (p : Embedding) × (a ∷ b ∷ c ∷ d ∷ e ∷ f ∷ [] ≡ prefix_of p)
    × (v4_blocked (g * 2 ^ 16 + h) ≡ false)

-- The first six groups of an embedding prefix, group by group.
abbrev IsGroups : (p q r s t u a b c d e f : ℕ) → Type 0
IsGroups p q r s t u a b c d e f = (a ≡ p) × (b ≡ q) × (c ≡ r) × (d ≡ s) × (e ≡ t) × (f ≡ u)

IsGroups-eq :
    {p q r s t u a b c d e f : ℕ}
    → IsGroups p q r s t u a b c d e f
    → a ∷ b ∷ c ∷ d ∷ e ∷ f ∷ [] ≡ p ∷ q ∷ r ∷ s ∷ t ∷ u ∷ []
IsGroups-eq (ha, hb, hc, hd, he, hf) = cc

v6_blocked-cases :
    (a b c d e f g h : ℕ)
    → v6_blocked (a ∷ b ∷ c ∷ d ∷ e ∷ f ∷ g ∷ h ∷ []) ≡ false
    → ((IsGroups 0 0 0 0 0 0 a b c d e f
          ⊎ IsGroups 0 0 0 0 0 0xffff a b c d e f
          ⊎ IsGroups 0 0 0 0 0xffff 0 a b c d e f
          ⊎ IsGroups 0x64 0xff9b 0 0 0 0 a b c d e f)
        × (v4_blocked (g * 2 ^ 16 + h) ≡ false))
      ⊎ (IsPlainGlobal a b ⊎ ((a ≡ 0x2002) × (v4_blocked (b * 2 ^ 16 + c) ≡ false)))
unfolding v6_blocked
v6_blocked-cases a b c d e f g h p = ground arith

-- What passes, of the three kinds.
abbrev pub IsPassing : (a b c d e f g h : ℕ) → Type 0
IsPassing a b c d e f g h =
    IsEmbedded a b c d e f g h
    ⊎ (IsPlainGlobal a b ⊎ ((a ≡ 0x2002) × (v4_blocked (b * 2 ^ 16 + c) ≡ false)))

v6_blocked-IsPassing :
    (a b c d e f g h : ℕ)
    → v6_blocked (a ∷ b ∷ c ∷ d ∷ e ∷ f ∷ g ∷ h ∷ []) ≡ false
    → IsPassing a b c d e f g h
v6_blocked-IsPassing a b c d e f g h p = elim (v6_blocked-cases a b c d e f g h p) [
  | inl (inl k, v) ↦ inl (compatible, IsGroups-eq k, v)
  | inl (inr (inl k), v) ↦ inl (mapped, IsGroups-eq k, v)
  | inl (inr (inr (inl k)), v) ↦ inl (translated, IsGroups-eq k, v)
  | inl (inr (inr (inr k)), v) ↦ inl (nat64, IsGroups-eq k, v)
  | inr outside ↦ inr outside
]

embedding-passes :
    (p : Embedding) (g h : ℕ)
    → v4_blocked (g * 2 ^ 16 + h) ≡ false
    → v6_blocked (prefix_of p ++ (g ∷ h ∷ [])) ≡ false
unfolding v6_blocked
embedding-passes compatible g h v = v
embedding-passes mapped g h v = v
embedding-passes translated g h v = v
embedding-passes nat64 g h v = v

global-passes :
    (a b c d e f g h : ℕ)
    → IsPlainGlobal a b ⊎ ((a ≡ 0x2002) × (v4_blocked (b * 2 ^ 16 + c) ≡ false))
    → v6_blocked (a ∷ b ∷ c ∷ d ∷ e ∷ f ∷ g ∷ h ∷ []) ≡ false
unfolding v6_blocked
global-passes a b c d e f g h k = ground arith

-- Eight groups pass exactly where they are of one of three kinds: the first six are one of the prefixes
-- ::/96, ::ffff:0:0/96, ::ffff:0:0:0/96 and 64:ff9b::/96 and the last two an IPv4 address that is not
-- refused; or the address is of 2000::/3 and outside 2001::/23, 2001:db8::/32, 2002::/16 and 3fff::/20;
-- or it is of 2002::/16, and its second and third group are an IPv4 address that is not refused.
pub v6_blocked-false_iff :
    (a b c d e f g h : ℕ)
    → (v6_blocked (a ∷ b ∷ c ∷ d ∷ e ∷ f ∷ g ∷ h ∷ []) ≡ false) ↔ IsPassing a b c d e f g h
v6_blocked-false_iff a b c d e f g h = (
  v6_blocked-IsPassing a b c d e f g h,
  λ k. elim k [
    | inl (p, same, v) ↦
        subst (λ groups. v6_blocked (groups ++ (g ∷ h ∷ [])) ≡ false) (sym same)
          (embedding-passes p g h v)
    | inr outside ↦ global-passes a b c d e f g h outside
  ],
)
