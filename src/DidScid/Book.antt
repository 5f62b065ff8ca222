-- ===== src/DidScid/Book.antt =====
-- src/did-scid.js, `createScidSourceBook`: a Map from the identity of a did:scid to where its log was found
-- and the latest version seen, as a list in insertion order. The capacity is a positive whole number.
pub mod Kept
pub mod Advance
use vti_didcomm_js.Prelude.{
  ℕ, suc, ◌+◌, Bool, true, false, Option, none, some, List, [], ◌∷◌, ◌++◌, length, is_some, not,
  ◌&&◌, ◌||◌, ◌==◌, leb, ltb, map, if◌then◌else◌, Result, ok, err, guard, ◌>>=◌, ◌>>◌,
}
use vti_didcomm_js.Prelude.Text.{Text, text_eq}
use vti_didcomm_js.DidScid.{scid_src, scid_identity}

pub record Version : Type 0 where
  pub number : ℕ
  pub id : Text

pub record Entry : Type 0 where
  pub source : Text
  pub version : Option Version

abbrev pub Book : Type 0
Book = List (Text × Entry)

-- The error of `accept`, with the versions that it compares.
pub data BookError : Type 0 where
  behind : (did source : Text) (offered latest : Text) → BookError

-- seen.get, seen.has and seen.delete
unfoldable pub get : Book → Text → Option Entry
get [] k = none
get (e ∷ seen) k = let later = get seen k in if text_eq e.0 k then some e.1 else later

unfoldable pub delete : Book → Text → Book
delete [] k = []
delete (e ∷ seen) k = let rest = delete seen k in if text_eq e.0 k then rest else e ∷ rest

-- makeRoom
unfoldable pub make_room : ℕ → Book → Book
make_room capacity [] = []
make_room capacity (e ∷ seen) =
    let rest = make_room capacity seen in
    if leb capacity (length (e ∷ seen)) then rest else e ∷ seen

-- entry.source = src, in place
unfoldable pub set_source : Book → Text → Text → Book
set_source [] k src = []
set_source (e ∷ seen) k src =
    let rest = set_source seen k src in
    if text_eq e.0 k then (e.0, record { source = src; version = e.1.version }) ∷ seen else e ∷ rest

-- source
unfoldable pub source_of : Option Entry → Option Text
source_of none = none
source_of (some e) = some e.source

unfoldable pub source : Book → Text → Option Text
source seen did = source_of (get seen (scid_identity did))

-- addSource, with whether the DID URL carries a `src`
unfoldable pub record_source : ℕ → Book → Text → Text → Option Entry → Book
record_source capacity seen k src (some e) = set_source seen k src
record_source capacity seen k src none =
    make_room capacity seen ++ ((k, record { source = src; version = none }) ∷ [])

unfoldable pub add_from : ℕ → Book → Text → Option Text → Book × Bool
add_from capacity seen did_url none = (seen, false)
add_from capacity seen did_url (some src) = (
  record_source capacity seen (scid_identity did_url) src (get seen (scid_identity did_url)),
  true,
)

unfoldable pub add_source : ℕ → Book → Text → Book × Bool
add_source capacity seen did_url = add_from capacity seen did_url (scid_src did_url)

-- The latest version seen for a key.
unfoldable pub version_in : Option Entry → Option Version
version_in none = none
version_in (some e) = e.version

unfoldable pub latest : Book → Text → Option Version
latest seen k = version_in (get seen k)

-- Whether an offered version is older than the latest one, or another one of the same number.
unfoldable pub is_behind : Version → Version → Bool
is_behind offered last =
    ltb offered.number last.number
    || (offered.number == last.number && not (text_eq offered.id last.id))

unfoldable pub check_version : Text → Text → Version → Option Version → Result BookError (Unit {0})
check_version k src offered none = ok tt
check_version k src offered (some last) =
    guard (not (is_behind offered last)) (behind k src offered.id last.id)

-- accept
unfoldable pub room_for : ℕ → Book → Option Entry → Book
room_for capacity seen (some e) = seen
room_for capacity seen none = make_room capacity seen

unfoldable pub put_last : ℕ → Book → Text → Entry → Book
put_last capacity seen k e = delete (room_for capacity seen (get seen k)) k ++ ((k, e) ∷ [])

unfoldable pub accept : ℕ → Book → (did src : Text) → Version → Result BookError Book
accept capacity seen did src offered =
    let k = scid_identity did in
    (check_version k src offered (latest seen k)
      >> ok (put_last capacity seen k (record { source = src; version = some offered })))
