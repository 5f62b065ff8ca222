-- ===== src/NetGuard/Policy/Hosts.antt =====
-- What the rules of an allow-list match.
use vti_didcomm_js.Prelude.{
  ◌≡◌, ◌≢◌, ◌↔◌, refl, ap, arith, true, [], ◌∷◌, ◌++◌, length, length-append, ltb, Bool-cases, inl,
  inr, and-true, ltb→lt,
}
use vti_didcomm_js.Prelude.Text.{Text, text_eq, text_eq_iff, text_eq_refl, ends_with}
use vti_didcomm_js.NetGuard.Policy.{suffix, rule_allows}

ends_with-cut : (s p : Text) → ends_with s p ≡ true → (q : Text) × (s ≡ q ++ p)
unfolding ends_with
ends_with-cut [] p h = ([], (text_eq_iff [] p).0 h)
ends_with-cut (c ∷ s) p h = elim (Bool-cases (text_eq (c ∷ s) p)) [
  | inl whole ↦ ([], (text_eq_iff (c ∷ s) p).0 whole)
  | inr part ↦ let (q, e) = ends_with-cut s p (rw part at h) in (c ∷ q, ap (λ (t : Text). c ∷ t) e)
]

ends_with-append : (q p : Text) → ends_with (q ++ p) p ≡ true
unfolding ends_with
ends_with-append [] [] = refl
ends_with-append [] (c ∷ p) = rw (text_eq_refl (c ∷ p))
ends_with-append (c ∷ q) p = ground (arith, ends_with-append q p)

longer : (q s : Text) → q ≢ [] → ltb (length s) (length (q ++ s)) ≡ true
longer [] s h = absurd (h refl)
longer (c ∷ q) s h = ground (arith, length-append q s)

-- A `*.` entry matches exactly the names that put something before its suffix, never the suffix
-- alone, and so not the apex either.
pub rule_allows-suffix_iff :
    (host s : Text)
    → (rule_allows host (suffix s) ≡ true) ↔ ((q : Text) × (q ≢ []) × (host ≡ q ++ s))
unfolding rule_allows
rule_allows-suffix_iff host s = (
  λ h.
      let (longer, ends) = and-true (ltb (length s) (length host)) _ h in
      let (q, e) = ends_with-cut host s ends in
      (
        q,
        (λ none_before. absurd (
            omega
              (arith, ltb→lt _ _ longer, ap length e, ap length none_before, length-append q s))),
        e,
      ),
  λ (q, some_before, e). rw (e, ends_with-append q s, longer q s some_before),
)
