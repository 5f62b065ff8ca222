-- ===== src/DidScid/Book/Kept.antt =====
-- What a source book keeps (src/did-scid.js, `createScidSourceBook`).
use vti_didcomm_js.Prelude.{
  ℕ, ◌≤◌, ◌<◌, Option, none, some, [], ◌∷◌, ◌++◌, length, length-append, ok, ◌≡◌, refl, arith,
  >>=-eq-ok, ok-injective,
}
use vti_didcomm_js.Prelude.Text.{Text}
use mathlib.Core.Path.{subst}
use vti_didcomm_js.DidScid.{scid_src, scid_identity}
use vti_didcomm_js.DidScid.Book.{
  Version, Entry, Book, get, delete, make_room, set_source, record_source, add_from, add_source,
  check_version, room_for, put_last, accept,
}

make_room-length :
    (capacity : ℕ) (seen : Book) → 0 < capacity → length (make_room capacity seen) < capacity
unfolding make_room
make_room-length capacity [] h = h
make_room-length capacity (e ∷ seen) h = ground (arith, make_room-length capacity seen h)

delete-length : (seen : Book) (k : Text) → length (delete seen k) ≤ length seen
unfolding delete
delete-length [] k = omega arith
delete-length (e ∷ seen) k = ground (arith, delete-length seen k)

-- A key that is there is deleted.
delete-shorter :
    (seen : Book) (k : Text) (e : Entry)
    → get seen k ≡ some e
    → length (delete seen k) < length seen
unfolding delete get
delete-shorter [] k e h = cc
delete-shorter (f ∷ seen) k e h = ground (arith, delete-shorter seen k e, delete-length seen k)

set_source-length : (seen : Book) (k src : Text) → length (set_source seen k src) ≡ length seen
unfolding set_source
set_source-length [] k src = refl
set_source-length (e ∷ seen) k src = ground (arith, set_source-length seen k src)

module _ (capacity : ℕ) (seen : Book) (room : 0 < capacity) (size : length seen ≤ capacity) where
  record_source-length :
      (k src : Text) (found : Option Entry)
      → length (record_source capacity seen k src found) ≤ capacity
  unfolding record_source
  record_source-length k src (some e) = omega (arith, set_source-length seen k src, size)
  record_source-length k src none = omega (
    arith,
    length-append (make_room capacity seen) ((k, _) ∷ []),
    make_room-length capacity seen room,
  )

  put_last-length : (k : Text) (e : Entry) → length (put_last capacity seen k e) ≤ capacity
  unfolding put_last room_for
  put_last-length k e = go (get seen k) refl
    where
      go :
          (found : Option Entry)
          → get seen k ≡ found
          → length (delete (room_for capacity seen found) k ++ ((k, e) ∷ [])) ≤ capacity
      go (some f) h =
          omega
            (arith, length-append (delete seen k) ((k, e) ∷ []), delete-shorter seen k f h, size)
      go none h =
          let kept = make_room capacity seen in
          omega (
            arith,
            length-append (delete kept k) ((k, e) ∷ []),
            delete-length kept k,
            make_room-length capacity seen room,
          )

  -- A book within its positive capacity is within it after `add_source` of any DID URL.
  pub add_source-length : (did_url : Text) → length (add_source capacity seen did_url).0 ≤ capacity
  unfolding add_source add_from
  add_source-length did_url = go (scid_src did_url)
    where
      go : (src : Option Text) → length (add_from capacity seen did_url src).0 ≤ capacity
      go none = size
      go (some src) = record_source-length (scid_identity did_url) src _

  -- A book within its positive capacity is within it after `accept` of any version that it does not refuse.
  pub accept-length :
      (did src : Text) (offered : Version) (next : Book)
      → accept capacity seen did src offered ≡ ok next
      → length next ≤ capacity
  unfolding accept
  accept-length did src offered next e =
      let (u, eu, e₁) = >>=-eq-ok (check_version _ _ _ _) _ e in
      subst (λ b. length b ≤ capacity) (ok-injective e₁) (put_last-length (scid_identity did) _)
