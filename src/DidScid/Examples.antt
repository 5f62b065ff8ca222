-- ===== src/DidScid/Examples.antt =====
-- Runs of did-scid.js, and its theorems at concrete inputs.
use vti_didcomm_js.Prelude.{refl, ◌≡◌, true, false, some, ok, [], ◌∷◌, ◌++◌, ◌≤◌, length, arith}
use vti_didcomm_js.Prelude.Text.{Text, codes, text_eq, starts_with, includes, index_of, split_at}
use vti_didcomm_js.DidScid.{
  before, from, without, split_src, split_rest, scid_src, strip_scid_src, with_scid_src,
  scid_identity,
}
use vti_didcomm_js.DidScid.Locator.{with_scid_src-roundtrip}
use vti_didcomm_js.DidScid.Book.{
  Version, Book, latest, accept, put_last, room_for, make_room, get, delete, version_in,
  check_version, is_behind,
}
use vti_didcomm_js.DidScid.Book.Kept.{accept-length}
use vti_didcomm_js.DidScid.Convert.{
  vh_prefix, webvh_prefix, has_any, drop_slashes, trim_slashes, replace_all, drop_scheme, decimal,
  are_digits, digits_of_port, is_port, encode_port, encode_path, location, scid_to_webvh_did,
  webvh_to_scid_did_url,
}
use vti_didcomm_js.DidScid.Convert.Scid.{scid_to_webvh_did-scid}
use vti_didcomm_js.DidScid.Book.Advance.{IsAdvance, accept_advances}

abbrev key_reference : Text
key_reference = codes "did:scid:vh:1:Qm#key-1"

located :
    with_scid_src key_reference (codes "example.com")
    ≡ codes "did:scid:vh:1:Qm?src=example.com#key-1"
unfolding with_scid_src starts_with includes before from
located = refl

stripped : strip_scid_src (codes "did:scid:vh:1:Qm?src=example.com#key-1") ≡ key_reference
unfolding strip_scid_src without split_src split_rest starts_with includes before from text_eq
stripped = refl

plain :
    (starts_with key_reference (codes "did:scid:") ≡ true)
    × ((includes key_reference (codes "?") ≡ false) × (includes key_reference (codes "/") ≡ false))
unfolding starts_with includes
plain = (refl, (refl, refl))

clean :
    (text_eq (codes "example.com") [] ≡ false)
    × ((includes (codes "example.com") (codes "&") ≡ false)
        × (includes (codes "example.com") (codes "#") ≡ false))
unfolding text_eq includes
clean = (refl, (refl, refl))

with_scid_src-roundtrip_example :
    (scid_src (with_scid_src key_reference (codes "example.com")) ≡ some (codes "example.com"))
    × (strip_scid_src (with_scid_src key_reference (codes "example.com")) ≡ key_reference)
with_scid_src-roundtrip_example =
    with_scid_src-roundtrip key_reference (codes "example.com") plain.0 plain.1.0 plain.1.1 clean.0
      clean.1.0 clean.1.1

abbrev first : Version
first = record { number = 1; id = codes "1-a" }

abbrev second : Version
second = record { number = 2; id = codes "2-b" }

abbrev held : Book
held =
    (codes "did:scid:vh:1:Qm", record { source = codes "example.com"; version = some first }) ∷ []

abbrev moved : Book
moved =
    (codes "did:scid:vh:1:Qm", record { source = codes "example.org"; version = some second }) ∷ []

accepted : accept 1 held (codes "did:scid:vh:1:Qm#key-1") (codes "example.org") second ≡ ok moved
unfolding accept put_last room_for make_room get delete latest version_in check_version is_behind
    text_eq scid_identity strip_scid_src without split_src split_rest starts_with includes before
    from
accepted = refl

known : latest held (scid_identity (codes "did:scid:vh:1:Qm#key-1")) ≡ some first
unfolding latest version_in get text_eq scid_identity strip_scid_src without split_src starts_with
    includes before from
known = refl

accept_advances_example :
    (latest moved (scid_identity (codes "did:scid:vh:1:Qm#key-1")) ≡ some second)
    × IsAdvance (latest held (scid_identity (codes "did:scid:vh:1:Qm#key-1"))) second
accept_advances_example =
    accept_advances 1 held (codes "did:scid:vh:1:Qm#key-1") (codes "example.org") second moved
      accepted

accept-length_example : length moved ≤ 1
accept-length_example =
    accept-length 1 held (omega arith) (omega arith) (codes "did:scid:vh:1:Qm#key-1")
      (codes "example.org") second moved accepted

located_url-webvh :
    scid_to_webvh_did (codes "did:scid:vh:1:Qm?src=https://a.ex:8080/b/c/#key-1")
    ≡ some (codes "did:webvh:Qm:a.ex%3A8080:b:c#key-1")
unfolding scid_to_webvh_did location encode_port encode_path trim_slashes drop_slashes drop_scheme
    has_any replace_all is_port are_digits digits_of_port decimal before from starts_with index_of
    includes split_at text_eq
located_url-webvh = refl

scid_to_webvh_did-scid_example :
    (scid tail rest : Text) × (codes "did:scid:vh:1:Qm?src=https://a.ex:8080/b/c/#key-1"
      ≡ vh_prefix ++ (scid ++ (codes "?src=" ++ tail)))
    × (text_eq scid [] ≡ false)
    × (codes "did:webvh:Qm:a.ex%3A8080:b:c#key-1" ≡ webvh_prefix ++ (scid ++ (b':' ∷ rest)))
    × (webvh_to_scid_did_url (codes "did:webvh:Qm:a.ex%3A8080:b:c#key-1")
        ≡ some (vh_prefix ++ (scid ++ (codes "?src=" ++ replace_all b':' b'/' rest))))
scid_to_webvh_did-scid_example =
    scid_to_webvh_did-scid (codes "did:scid:vh:1:Qm?src=https://a.ex:8080/b/c/#key-1")
      (codes "did:webvh:Qm:a.ex%3A8080:b:c#key-1") located_url-webvh
