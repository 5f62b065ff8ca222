-- ===== src/DidScid/Book/Advance.antt =====
-- A source book never goes back to an older log (src/did-scid.js, `accept`).
use vti_didcomm_js.Prelude.{
  ℕ, ◌<◌, Bool, true, false, Option, none, some, [], ◌∷◌, ◌++◌, not, ltb, ok, ◌≡◌, refl, arith,
  Bool-cases, ◌⊎◌, inl, inr, >>=-eq-ok, guard-eq-ok, ok-injective, ltb→lt,
}
use vti_didcomm_js.Prelude.Text.{Text, text_eq, text_eq_refl, text_eq_iff}
use mathlib.Core.Path.{subst}
use vti_didcomm_js.DidScid.{scid_identity}
use vti_didcomm_js.DidScid.Book.{
  Version, Entry, Book, get, delete, version_in, latest, is_behind, check_version, room_for,
  put_last, accept,
}

get-append_last :
    (seen : Book) (k : Text) (e : Entry) → get (delete seen k ++ ((k, e) ∷ [])) k ≡ some e
unfolding get delete
get-append_last [] k e = rw text_eq_refl refl
get-append_last (f ∷ seen) k e = elim (Bool-cases (text_eq f.0 k)) [
  | inl same ↦ rw same (get-append_last seen k e)
  | inr other ↦ rw (other, other) (get-append_last seen k e)
]

Version-eq : (v w : Version) → v.number ≡ w.number → v.id ≡ w.id → v ≡ w
Version-eq v w e f = cc

is_behind-false :
    (offered last : Version)
    → is_behind offered last ≡ false
    → (last.number < offered.number) ⊎ (offered ≡ last)
unfolding is_behind
is_behind-false offered last h = elim (Bool-cases (text_eq offered.id last.id)) [
  | inl same ↦ elim (Bool-cases (ltb last.number offered.number)) [
    | inl newer ↦ inl (ltb→lt _ _ newer)
    | inr old ↦ inr (Version-eq offered last (ground arith) ((text_eq_iff _ _).0 same))
  ]
  | inr other ↦ inl (ground arith)
]

-- There was no version before, or the one that there was is older or the same.
abbrev pub IsAdvance : Option Version → Version → Type 0
IsAdvance o offered =
    (o ≡ none)
    ⊎ ((last : Version) × (o ≡ some last) × ((last.number < offered.number) ⊎ (offered ≡ last)))

check_version-eq-ok :
    (k src : Text) (offered : Version) (o : Option Version) {u : Unit {0}}
    → check_version k src offered o ≡ ok u
    → IsAdvance o offered
unfolding check_version
check_version-eq-ok k src offered none e = inl refl
check_version-eq-ok k src offered (some v) e =
    inr (v, refl, is_behind-false offered v (not-true (is_behind offered v) (guard-eq-ok _ _ e)))
  where
    not-true : (b : Bool) → not b ≡ true → b ≡ false
    not-true true h = cc
    not-true false h = refl

latest-put_last :
    (capacity : ℕ) (seen : Book) (k : Text) (e : Entry)
    → latest (put_last capacity seen k e) k ≡ e.version
unfolding latest put_last version_in
latest-put_last capacity seen k e =
    rw (get-append_last (room_for capacity seen (get seen k)) k e) refl

-- A version that the book accepts becomes the latest one of its SCID. Before, there was no version of
-- this SCID, or the accepted version has a greater number than the latest one, or is the same version.
pub accept_advances :
    (capacity : ℕ) (seen : Book) (did src : Text) (offered : Version) (next : Book)
    → accept capacity seen did src offered ≡ ok next
    → (latest next (scid_identity did) ≡ some offered)
      × IsAdvance (latest seen (scid_identity did)) offered
unfolding accept
accept_advances capacity seen did src offered next e =
    let k = scid_identity did in
    let (u, eu, e₁) = >>=-eq-ok (check_version k src offered (latest seen k)) _ e in
    (
      subst (λ b. latest b k ≡ some offered) (ok-injective e₁) (latest-put_last capacity seen k _),
      check_version-eq-ok k src offered (latest seen k) eu,
    )
