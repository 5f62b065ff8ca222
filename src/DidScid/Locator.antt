-- ===== src/DidScid/Locator.antt =====
-- Giving a bare did:scid reference a locator and taking it away again (src/did-scid.js).
use vti_didcomm_js.Prelude.{
  ℕ, suc, Bool, true, false, Option, none, some, [], ◌∷◌, ◌++◌, not, ◌||◌, ◌==◌, ◌≡◌, refl, ◌∙◌,
  arith, Bool-cases, inl, inr, is_some, all,
}
use vti_didcomm_js.Prelude.Text.{Text, codes, text_eq, starts_with, index_of, includes}
use mathlib.Core.Option
use vti_didcomm_js.DidScid.{
  prefix, before, from, split_rest, split_src, without, strip_scid_src, scid_src, with_scid_src,
}

-- None of the characters is `c`.
abbrev pub lacks : ℕ → Text → Bool
lacks c s = all (λ d. not (d == c)) s

module _ (c : ℕ) where
  pub before-append : (s t : Text) → lacks c s ≡ true → before c t ≡ [] → before c (s ++ t) ≡ s
  unfolding before
  before-append [] t h e = e
  before-append (d ∷ s) t h e = ground (arith, before-append s t)

  pub from-append : (s t : Text) → lacks c s ≡ true → from c (s ++ t) ≡ from c t
  unfolding from
  from-append [] t h = refl
  from-append (d ∷ s) t h = ground (arith, from-append s t)

  pub before-from : (s : Text) → before c s ++ from c s ≡ s
  unfolding before from
  before-from [] = refl
  before-from (d ∷ s) = ground (arith, before-from s)

  before-of-from : (s : Text) → before c (from c s) ≡ []
  unfolding before from
  before-of-from [] = refl
  before-of-from (d ∷ s) = ground (arith, before-of-from s)

  from-of-from : (s : Text) → from c (from c s) ≡ from c s
  unfolding from
  from-of-from [] = refl
  from-of-from (d ∷ s) = ground (arith, from-of-from s)

  lacks-before : (d : ℕ) (s : Text) → lacks d s ≡ true → lacks d (before c s) ≡ true
  unfolding before
  lacks-before d [] h = refl
  lacks-before d (x ∷ s) h = ground (arith, lacks-before d s)

  starts_with-before :
      (s p : Text) → lacks c p ≡ true → starts_with s p ≡ true → starts_with (before c s) p ≡ true
  unfolding before starts_with
  starts_with-before [] [] l h = refl
  starts_with-before (d ∷ s) [] l h = refl
  starts_with-before [] (x ∷ p) l h = cc
  starts_with-before (d ∷ s) (x ∷ p) l h = ground (arith, starts_with-before s p)

  includes-cons : (d : ℕ) (s : Text) → includes (d ∷ s) (c ∷ []) ≡ (d == c || includes s (c ∷ []))
  unfolding includes index_of starts_with
  includes-cons d s = elim (Bool-cases (d == c)) [
    | inl here ↦ rw here refl
    | inr pass ↦ rw pass (is_some-map (index_of s (c ∷ [])))
  ]
    where
      is_some-map : (o : Option ℕ) → is_some (Option.map suc o) ≡ is_some o
      is_some-map none = refl
      is_some-map (some n) = refl

  includes-lacks : (s : Text) → includes s (c ∷ []) ≡ false → lacks c s ≡ true
  includes-lacks [] h = refl
  includes-lacks (d ∷ s) h = ground (arith, includes-cons d s, includes-lacks s)

  pub includes-append : (s t : Text) → includes (s ++ (c ∷ t)) (c ∷ []) ≡ true
  includes-append [] t = ground (arith, includes-cons c t)
  includes-append (d ∷ s) t = ground (arith, includes-cons d (s ++ (c ∷ t)), includes-append s t)

starts_with-append : (s t p : Text) → starts_with s p ≡ true → starts_with (s ++ t) p ≡ true
unfolding starts_with
starts_with-append [] t [] h = refl
starts_with-append (d ∷ s) t [] h = refl
starts_with-append [] t (x ∷ p) h = cc
starts_with-append (d ∷ s) t (x ∷ p) h = ground (arith, starts_with-append s t p)

-- The DID URL with a locator, taken apart.
split_src-joined :
    (d src frag : Text)
    → starts_with d prefix ≡ true
    → lacks b'?' d ≡ true
    → lacks b'#' src ≡ true
    → text_eq src [] ≡ false
    → includes src (codes "&") ≡ false
    → before b'#' frag ≡ []
    → from b'#' frag ≡ frag
    → split_src (d ++ (codes "?src=" ++ (src ++ frag)))
      ≡ some (record { did = d; src = src; fragment = frag })
unfolding split_src split_rest before from starts_with
split_src-joined d src frag hp hq hh he ha hb hf =
    let rest = codes "src=" ++ (src ++ frag) in
    let query : before b'#' rest ≡ codes "src=" ++ src =
      before-append b'#' (codes "src=" ++ src) frag hh hb in
    let hash : from b'#' rest ≡ frag = from-append b'#' (codes "src=" ++ src) frag hh ∙ hf in
    let did : before b'?' (d ++ (b'?' ∷ rest)) ≡ d = before-append b'?' d (b'?' ∷ rest) hq refl in
    let tail : from b'?' (d ++ (b'?' ∷ rest)) ≡ b'?' ∷ rest = from-append b'?' d (b'?' ∷ rest) hq in
    rw
      (
        starts_with-append d (b'?' ∷ rest) prefix hp,
        includes-append b'?' d rest,
        did,
        tail,
        query,
        hash,
        he,
        ha,
      )
      refl

-- A did:scid reference without a query or a path keeps what it is under a locator `src` that is not empty
-- and has neither `&` nor `#`: the locator can be read back, and taking it away gives the reference again.
pub with_scid_src-roundtrip :
    (reference src : Text)
    → starts_with reference prefix ≡ true
    → includes reference (codes "?") ≡ false
    → includes reference (codes "/") ≡ false
    → text_eq src [] ≡ false
    → includes src (codes "&") ≡ false
    → includes src (codes "#") ≡ false
    → (scid_src (with_scid_src reference src) ≡ some src)
      × (strip_scid_src (with_scid_src reference src) ≡ reference)
unfolding scid_src strip_scid_src without with_scid_src
with_scid_src-roundtrip reference src hp hq hs he ha hh =
    let d = before b'#' reference in
    let frag = from b'#' reference in
    let parts =
      split_src-joined d src frag (starts_with-before b'#' reference prefix refl hp)
        (lacks-before b'#' b'?' reference (includes-lacks b'?' reference hq))
        (includes-lacks b'#' src hh) he ha (before-of-from b'#' reference)
        (from-of-from b'#' reference) in
    (rw (hp, hq, hs, parts) refl, rw (hp, hq, hs, parts) (before-from b'#' reference))
