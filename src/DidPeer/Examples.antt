-- ===== src/DidPeer/Examples.antt =====
-- A run of src/did-peer.js, and its theorem at a concrete input.
use vti_didcomm_js.Prelude.{List, [], ◌∷◌, ◌++◌, ok, err, ◌≡◌, refl}
use vti_didcomm_js.Prelude.Text.{Text, codes, text_eq, starts_with, split_at}
use vti_didcomm_js.Envelope.Toy.{toy}
use vti_didcomm_js.Multibase.{decode_multikey}
use vti_didcomm_js.DidPeer.{
  key_agreement, authentication, Found, purpose_relationship, digits, decimal, checked_multikey,
  add_key, elements_of, add_element, add_elements, resolve_found, unknown_purpose,
}
use vti_didcomm_js.DidPeer.Keys.{IsKeyed, key_elements, resolve_found-IsKeyed}

abbrev peer : Text
peer = codes "did:peer:2.Ez2.Vz2"

abbrev found : Found
found = record {
  methods =
      record { id = peer ++ codes "#key-1"; public_key_multibase = codes "z2" }
      ∷ record { id = peer ++ codes "#key-2"; public_key_multibase = codes "z2" }
      ∷ [];
  references =
      (key_agreement, peer ++ codes "#key-1") ∷ (authentication, peer ++ codes "#key-2") ∷ [];
  services = [];
  key_n = 2;
  service_n = 0;
}

decimal_12 : decimal 12 ≡ codes "12"
unfolding decimal digits
decimal_12 = refl

unknown-resolve : resolve_found toy (codes "did:peer:2.Xabc") ≡ err unknown_purpose
unfolding resolve_found elements_of add_elements add_element purpose_relationship starts_with
    split_at text_eq
unknown-resolve = refl

peer-found : resolve_found toy peer ≡ ok found
unfolding resolve_found elements_of add_elements add_element purpose_relationship checked_multikey
    decode_multikey add_key decimal digits starts_with split_at text_eq
peer-found = refl

resolve_found-IsKeyed_example :
    (elements : List Text) × (elements_of peer ≡ ok elements)
    × IsKeyed peer (key_elements elements) found
resolve_found-IsKeyed_example = resolve_found-IsKeyed toy peer found peer-found
