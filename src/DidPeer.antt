-- ===== src/DidPeer.antt =====
-- src/did-peer.js, numalgo 2. A service has no member that is named like one of Object.prototype, which the source would
-- look up in its tables of abbreviations.
pub mod Keys
mod Examples
use vti_didcomm_js.Prelude.{
  ℕ, zero, suc, ◌+◌, ◌/◌, ◌%◌, Bool, true, false, Option, none, some, List, [], ◌∷◌, ◌++◌, length,
  drop, not, ◌&&◌, ◌||◌, ◌==◌, leb, if◌then◌else◌, Result, ok, err, guard, or_throw, ◌>>=◌, ◌>>◌,
}
use vti_didcomm_js.Prelude.Text.{Text, codes, text_eq, starts_with, split_at}
use vti_didcomm_js.Json.{
  Json, Items, Members, null, boolean, number, string, array, object, nil, cons, end, member, get,
  is_truthy,
}
use vti_didcomm_js.Platform.{Platform}
use vti_didcomm_js.Base64url.{DecodeError, decode}
use vti_didcomm_js.Multibase.{MultikeyError, Multikey, decode_multikey}
use vti_didcomm_js.DidKey.{context, verification_method, resolution}
use vti_didcomm_js.DidScid.Resolution.{set_member}

pub data PeerError : Type 0 where
  not_did_peer unsupported_numalgo malformed empty_element unknown_purpose invalid_service :
      PeerError
  invalid_multikey : MultikeyError → PeerError

-- PURPOSE_RELATIONSHIP
pub data Relationship : Type 0 where
  assertion_method key_agreement authentication capability_invocation capability_delegation :
      Relationship

unfoldable pub purpose_relationship : ℕ → Option Relationship
purpose_relationship code =
    if code == b'A'
    then some assertion_method
    else if code == b'E'
    then some key_agreement
    else if code == b'V'
    then some authentication
    else if code == b'I'
    then some capability_invocation
    else if code == b'D'
    then some capability_delegation
    else none

-- A verification method: its id and its multikey.
pub record Method : Type 0 where
  pub id : Text
  pub public_key_multibase : Text

-- The variables of the loop of `resolve`.
pub record Found : Type 0 where
  pub methods : List Method
  pub references : List (Relationship × Text)
  pub services : List Members
  pub key_n : ℕ
  pub service_n : ℕ

-- A number in decimal.
unfoldable pub digits : (fuel n : ℕ) → Text → Text
digits zero n tail = tail
digits (suc fuel) n tail =
    let here = (b'0' + n % 10) ∷ tail in
    let more = digits fuel (n / 10) here in if n / 10 == 0 then here else more

unfoldable pub decimal : ℕ → Text
decimal n = digits (suc n) n []

-- SERVICE_FIELD and SERVICE_TYPE
unfoldable pub service_field : Text → Text
service_field k =
    if text_eq k (codes "t")
    then codes "type"
    else if text_eq k (codes "s")
    then codes "serviceEndpoint"
    else if text_eq k (codes "r")
    then codes "routingKeys"
    else if text_eq k (codes "a")
    then codes "accept"
    else k

unfoldable pub service_type : Json → Json
service_type (string v) = string (if text_eq v (codes "dm") then codes "DIDCommMessaging" else v)
service_type null = null
service_type (boolean b) = boolean b
service_type (number n) = number n
service_type (array xs) = array xs
service_type (object ms) = object ms

-- expandService
unfoldable pub expand_members : Members → Members → Members
expand_members out end = out
expand_members out (member k v ms) =
    let name = service_field k in
    expand_members (set_member out name (if text_eq name (codes "type") then service_type v else v))
      ms

unfoldable pub entries_from : ℕ → Items → Members
entries_from i nil = end
entries_from i (cons x xs) = member (decimal i) x (entries_from (suc i) xs)

unfoldable pub expand_service : Json → Result PeerError Members
expand_service (object ms) = ok (expand_members end ms)
expand_service (array xs) = ok (expand_members end (entries_from 0 xs))
expand_service null = err invalid_service
expand_service (boolean b) = err invalid_service
expand_service (number n) = err invalid_service
expand_service (string t) = err invalid_service

-- The id of a service without one.
unfoldable pub service_id : (did : Text) → ℕ → Text
service_id did n =
    if n == 0 then did ++ codes "#service" else did ++ (codes "#service-" ++ decimal n)

unfoldable pub named_service : (did : Text) → Found → Members → Found
named_service did s expanded =
    if is_truthy (get (object expanded) (codes "id"))
    then record s { services = s.services ++ (expanded ∷ []) }
    else record s {
      services =
          s.services
          ++ (set_member expanded (codes "id") (string (service_id did s.service_n)) ∷ []);
      service_n = suc s.service_n;
    }

-- The services of one element.
unfoldable pub add_services : (did : Text) → Found → Items → Result PeerError Found
add_services did s nil = ok s
add_services did s (cons svc rest) = do
  expanded ← expand_service svc
  add_services did (named_service did s expanded) rest

unfoldable pub as_list : Json → Items
as_list (array xs) = xs
as_list null = cons null nil
as_list (boolean b) = cons (boolean b) nil
as_list (number n) = cons (number n) nil
as_list (string t) = cons (string t) nil
as_list (object ms) = cons (object ms) nil

unfoldable pub decoded : Result DecodeError (List ℕ) → Result PeerError (List ℕ)
decoded (ok bytes) = ok bytes
decoded (err e) = err invalid_service

unfoldable pub checked_multikey : Result MultikeyError Multikey → Result PeerError (Unit {0})
checked_multikey (ok k) = ok tt
checked_multikey (err e) = err (invalid_multikey e)

-- A key element: a verification method `#key-N`, listed under its relationship.
unfoldable pub add_key : (did : Text) → Found → Relationship → Text → Found
add_key did s relationship value =
    let id = did ++ (codes "#key-" ++ decimal (suc s.key_n)) in
    record {
      methods = s.methods ++ (record { id = id; public_key_multibase = value } ∷ []);
      references = s.references ++ ((relationship, id) ∷ []);
      services = s.services;
      key_n = suc s.key_n;
      service_n = s.service_n;
    }

-- The document that the loop's variables are written into, whose shared parts are those of DidKey. A relationship without
-- references is left out.
unfoldable pub is_relationship : Relationship → Relationship → Bool
is_relationship assertion_method assertion_method = true
is_relationship key_agreement key_agreement = true
is_relationship authentication authentication = true
is_relationship capability_invocation capability_invocation = true
is_relationship capability_delegation capability_delegation = true
is_relationship a b = false

unfoldable pub references_of : Relationship → List (Relationship × Text) → Items
references_of r [] = nil
references_of r (e ∷ references) =
    let rest = references_of r references in
    if is_relationship e.0 r then cons (string e.1) rest else rest

unfoldable pub unless_empty : Text → Items → Members → Members
unless_empty name nil rest = rest
unless_empty name (cons x xs) rest = member name (array (cons x xs)) rest

unfoldable pub method_items : (did : Text) → List Method → Items
method_items did [] = nil
method_items did (m ∷ methods) =
    cons (verification_method m.id did m.public_key_multibase) (method_items did methods)

unfoldable pub service_items : List Members → Items
service_items [] = nil
service_items (s ∷ services) = cons (object s) (service_items services)

unfoldable pub peer_document : (did : Text) → Found → Json
peer_document did s = object (
    member (codes "@context") context (
      member (codes "id") (string did) (
        member (codes "verificationMethod") (array (method_items did s.methods)) (
          unless_empty (codes "authentication") (references_of authentication s.references) (
            unless_empty (codes "assertionMethod") (references_of assertion_method s.references) (
              unless_empty (codes "keyAgreement") (references_of key_agreement s.references) (
                unless_empty (codes "capabilityInvocation")
                  (references_of capability_invocation s.references)
                  (unless_empty (codes "capabilityDelegation")
                    (references_of capability_delegation s.references)
                    (unless_empty (codes "service") (service_items s.services) end)))))))))

-- The elements after the numalgo.
unfoldable pub elements_of : Text → Result PeerError (List Text)
elements_of did = do
  guard (starts_with did (codes "did:peer:")) not_did_peer
  guard (starts_with (drop 9 did) (codes "2")) unsupported_numalgo
  first_empty (split_at b'.' (drop 10 did))
  where
    first_empty : List Text → Result PeerError (List Text)
    first_empty [] = err malformed
    first_empty (first ∷ []) = err malformed
    first_empty (first ∷ e ∷ rest) = guard (text_eq first []) malformed >> ok (e ∷ rest)

module _ (p : Platform) where
  -- decodeService
  unfoldable pub decode_service : (did value : Text) → Found → Result PeerError Found
  decode_service did value s = do
    bytes ← decoded (decode value)
    parsed ← or_throw (p.parse (p.utf8_decode bytes)) invalid_service
    add_services did s (as_list parsed)

  unfoldable pub add_element : (did : Text) → Found → Text → Result PeerError Found
  add_element did s [] = err empty_element
  add_element did s (code ∷ []) = err empty_element
  add_element did s (code ∷ c ∷ rest) =
      if code == b'S' then decode_service did (c ∷ rest) s else (do
        relationship ← or_throw (purpose_relationship code) unknown_purpose
        checked_multikey (decode_multikey (c ∷ rest))
        ok (add_key did s relationship (c ∷ rest)))

  unfoldable pub add_elements : (did : Text) → Found → List Text → Result PeerError Found
  add_elements did s [] = ok s
  add_elements did s (element ∷ elements) =
      add_element did s element >>= λ t. add_elements did t elements

  -- resolve: its loop, and the document
  unfoldable pub resolve_found : Text → Result PeerError Found
  resolve_found did = do
    elements ← elements_of did
    add_elements did
        (record { methods = []; references = []; services = []; key_n = 0; service_n = 0 }) elements

  unfoldable pub resolve : Text → Result PeerError Json
  resolve did = resolve_found did >>= λ s. ok (resolution (peer_document did s))
