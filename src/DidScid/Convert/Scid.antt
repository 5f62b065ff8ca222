-- ===== src/DidScid/Convert/Scid.antt =====
-- The SCID under `scidToWebvhDid` and `webvhToScidDidUrl` (src/did-scid.js).
use vti_didcomm_js.Prelude.{
  ℕ, suc, ◌+◌, Bool, true, false, Option, none, some, [], ◌∷◌, ◌++◌, length, drop, take, not, ◌||◌,
  Bool-cases, inl, inr, ◌≡◌, refl, ap, sym, ◌∙◌, arith,
}
use mathlib.Core.Path.{subst}
use mathlib.Core.Option
use mathlib.Core.List.{append_assoc}
use vti_didcomm_js.Prelude.Maybe.{require, >>=-eq-some, require-eq-some, some-injective}
use vti_didcomm_js.Prelude.Text.{Text, codes, text_eq, starts_with, index_of}
use vti_didcomm_js.DidScid.{before, from}
use vti_didcomm_js.DidScid.Locator.{lacks, before-append, from-append, before-from, includes-append}
use vti_didcomm_js.DidScid.Convert.{
  vh_prefix, webvh_prefix, has_any, replace_all, location, scid_to_webvh_did, webvh_to_scid_did_url,
}

starts_with-parts : (s p : Text) → starts_with s p ≡ true → s ≡ p ++ drop (length p) s
unfolding starts_with
starts_with-parts s [] h = refl
starts_with-parts [] (c ∷ p) h = cc
starts_with-parts (d ∷ s) (c ∷ p) h = ground (arith, starts_with-parts s p)

starts_with-append_self : (p s : Text) → starts_with (p ++ s) p ≡ true
unfolding starts_with
starts_with-append_self [] s = refl
starts_with-append_self (c ∷ p) s = ground (arith, starts_with-append_self p s)

map-suc : (o : Option ℕ) (i : ℕ) → Option.map suc o ≡ some i → (j : ℕ) × (o ≡ some j) × (suc j ≡ i)
map-suc none i h = cc
map-suc (some j) i h = (j, refl, some-injective h)

-- Where a text is found, it stands.
index_of-parts :
    (s p : Text) (i : ℕ) → index_of s p ≡ some i → s ≡ take i s ++ (p ++ drop (length p) (drop i s))
unfolding index_of
index_of-parts [] p i h = elim (Bool-cases (starts_with [] p)) [
  | inl here ↦
      let at_start : 0 ≡ i = some-injective (rw here at h) in
      subst (λ (n : ℕ). [] ≡ take n [] ++ (p ++ drop (length p) (drop n []))) at_start
        (starts_with-parts [] p here)
  | inr pass ↦ absurd (missing (rw pass at h))
]
  where
    missing : none ≡ some i → ⊥
    missing x = cc
index_of-parts (c ∷ s) p i h = elim (Bool-cases (starts_with (c ∷ s) p)) [
  | inl here ↦
      let at_start : 0 ≡ i = some-injective (rw here at h) in
      subst (λ (n : ℕ). c ∷ s ≡ take n (c ∷ s) ++ (p ++ drop (length p) (drop n (c ∷ s)))) at_start
        (starts_with-parts (c ∷ s) p here)
  | inr pass ↦
      let (j, found, next) = map-suc (index_of s p) i (rw pass at h) in
      subst (λ (n : ℕ). c ∷ s ≡ take n (c ∷ s) ++ (p ++ drop (length p) (drop n (c ∷ s)))) next
        (ap (λ t. c ∷ t) (index_of-parts s p j found))
]

-- A SCID without `:` is read back from the did:webvh form.
webvh_to_scid_did_url-built :
    (scid rest : Text)
    → lacks b':' scid ≡ true
    → webvh_to_scid_did_url (webvh_prefix ++ (scid ++ (b':' ∷ rest)))
      ≡ some (vh_prefix ++ (scid ++ (codes "?src=" ++ replace_all b':' b'/' rest)))
unfolding webvh_to_scid_did_url starts_with before from
webvh_to_scid_did_url-built scid rest h =
    rw
      (
        includes-append b':' scid rest,
        before-append b':' scid (b':' ∷ rest) h refl,
        from-append b':' scid (b':' ∷ rest) h,
      )
      refl

not-false : (b : Bool) → not b ≡ true → b ≡ false
not-false true h = cc
not-false false h = refl

or-false : (a b : Bool) → (a || b) ≡ false → (a ≡ false) × (b ≡ false)
or-false a b h = ground (arith, h)

has_any-lacks : (s : Text) → has_any (codes ":/?") s ≡ false → lacks b':' s ≡ true
unfolding has_any
has_any-lacks [] h = refl
has_any-lacks (c ∷ s) h = ground (arith, h, has_any-lacks s)

-- What `scidToWebvhDid` gives for a did:scid DID URL has the SCID of that URL, which is not empty, up to its first `:`, and
-- `webvhToScidDidUrl` of it is a did:scid DID URL with the same SCID.
pub scid_to_webvh_did-scid :
    (id webvh : Text)
    → scid_to_webvh_did id ≡ some webvh
    → (scid tail rest : Text) × (id ≡ vh_prefix ++ (scid ++ (codes "?src=" ++ tail)))
      × (text_eq scid [] ≡ false)
      × (webvh ≡ webvh_prefix ++ (scid ++ (b':' ∷ rest)))
      × (webvh_to_scid_did_url webvh
          ≡ some (vh_prefix ++ (scid ++ (codes "?src=" ++ replace_all b':' b'/' rest))))
unfolding scid_to_webvh_did
scid_to_webvh_did-scid id webvh e =
    let (u, eu, e₁) = >>=-eq-some (require (starts_with id vh_prefix)) _ e in
    let whole = drop 14 id in
    let text = before b'#' whole in
    let (marker, em, e₂) = >>=-eq-some (index_of text (codes "?src=")) _ e₁ in
    let scid = take marker text in
    let src = drop (marker + 5) text in
    let (v, ev, e₃) =
      >>=-eq-some
        (require
          (not (text_eq scid [] || (has_any (codes ":/?") scid || has_any (codes "&?") src))))
        _ e₂ in
    let (place, ep, e₄) = >>=-eq-some (location src) _ e₃ in
    let (filled, clean) = or-false (text_eq scid []) _ (not-false _ (require-eq-some _ ev)) in
    let (plain, tame) = or-false (has_any (codes ":/?") scid) _ clean in
    let after = drop 5 (drop marker text) in
    let rest = place ++ from b'#' whole in
    let built : webvh ≡ webvh_prefix ++ (scid ++ (b':' ∷ rest)) = sym (some-injective e₄) in
    let inner : whole ≡ scid ++ (codes "?src=" ++ (after ++ from b'#' whole)) =
      sym (before-from b'#' whole)
      ∙ ap (λ t. t ++ from b'#' whole) (index_of-parts text (codes "?src=") marker em)
      ∙ append_assoc scid (codes "?src=" ++ after) (from b'#' whole) in
    (
      scid,
      after ++ from b'#' whole,
      rest,
      starts_with-parts id vh_prefix (require-eq-some _ eu) ∙ ap (λ t. vh_prefix ++ t) inner,
      filled,
      built,
      ap webvh_to_scid_did_url built
          ∙ webvh_to_scid_did_url-built scid rest (has_any-lacks scid plain),
    )
