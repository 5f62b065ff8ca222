-- ===== src/MediatorAuth.antt =====
-- src/mediator-auth.js: `parseMediatorEndpoints` and what it calls. The URL parser is a parameter.
pub mod Vetted
pub mod Exchange
mod Examples
use vti_didcomm_js.Prelude.{
  ℕ, suc, Bool, true, false, Option, none, some, List, [], ◌∷◌, ◌++◌, not, ◌&&◌, ◌||◌, ◌==◌, get_or,
  if◌then◌else◌, Result, ok, err, guard, or_throw, unless, ◌>>=◌, ◌>>◌,
}
use vti_didcomm_js.Prelude.Text.{Text, codes, text_eq, starts_with}
use vti_didcomm_js.Json.{
  Json, Items, Members, null, boolean, number, string, array, object, nil, cons, end, member, get,
  as_string, is_truthy,
}
use vti_didcomm_js.Multibase.{MultikeyError, Multikey, x25519_pub, encode_multikey, decode_multikey}
use vti_didcomm_js.DidScid.{same_reference}
use vti_didcomm_js.DidScid.Convert.{trim_slashes}
use vti_didcomm_js.NetGuard.Policy.{Url, EndpointPolicy, EndpointError, assert_safe_endpoint}

pub data MediatorError : Type 0 where
  no_rest_endpoint no_auth_endpoint no_key_agreement unresolvable no_multibase not_x25519
        malformed :
      MediatorError
  insecure : (url : Text) → MediatorError
  refused : EndpointError → MediatorError
  invalid_multikey : MultikeyError → MediatorError

-- NetPolicy, where an absent member is `none`
pub record NetPolicy : Type 0 where
  pub allow_insecure : Option Bool
  pub allow_private : Option Bool
  pub allow_hosts : Option (List Text)

-- mergeNetPolicy; the schemes are set for each endpoint
unfoldable pub first_of : Option Bool → Option Bool → Bool
first_of (some b) legacy = b
first_of none (some legacy) = legacy
first_of none none = false

unfoldable pub merge_net_policy :
    Option NetPolicy → (legacy_allow_insecure : Option Bool) → EndpointPolicy
merge_net_policy none legacy = record {
  schemes = none;
  allow_insecure = first_of none legacy;
  allow_private = false;
  allow_hosts = none;
}
merge_net_policy (some net_policy) legacy = record {
  schemes = none;
  allow_insecure = first_of net_policy.allow_insecure legacy;
  allow_private = first_of net_policy.allow_private none;
  allow_hosts = net_policy.allow_hosts;
}

-- serviceTypeIncludes
unfoldable pub includes_text : Items → Text → Bool
includes_text nil wanted = false
includes_text (cons (string t) xs) wanted = text_eq t wanted || includes_text xs wanted
includes_text (cons x xs) wanted = includes_text xs wanted

unfoldable pub type_is : Option Json → Text → Bool
type_is (some (string t)) wanted = text_eq t wanted
type_is (some (array xs)) wanted = includes_text xs wanted
type_is t wanted = false

unfoldable pub find_service : Items → Text → Option Json
find_service nil wanted = none
find_service (cons s services) wanted =
    let later = find_service services wanted in
    if type_is (get s (codes "type")) wanted then some s else later

-- An array, or nothing.
unfoldable pub as_items : Option Json → Items
as_items (some (array xs)) = xs
as_items j = nil

-- normalizeServiceEndpoints
unfoldable pub normalize_service_endpoints : Option Json → Items
normalize_service_endpoints (some (array xs)) = xs
normalize_service_endpoints (some null) = nil
normalize_service_endpoints none = nil
normalize_service_endpoints (some j) = cons j nil

unfoldable pub uri_of : Json → Option Text
uri_of (string t) = some t
uri_of j = as_string (get j (codes "uri"))

-- The last REST and the last WebSocket URI.
pub record Endpoints : Type 0 where
  pub rest : Option Text
  pub ws : Option Text

unfoldable pub take_uri : Endpoints → Option Text → Endpoints
take_uri found none = found
take_uri found (some uri) =
    if starts_with uri (codes "ws://") || starts_with uri (codes "wss://")
    then record found { ws = some uri }
    else if starts_with uri (codes "http://") || starts_with uri (codes "https://")
    then record found { rest = some uri }
    else found

unfoldable pub read_endpoints : Endpoints → Items → Endpoints
read_endpoints found nil = found
read_endpoints found (cons ep eps) = read_endpoints (take_uri found (uri_of ep)) eps

unfoldable pub messaging_endpoints : Option Json → Endpoints
messaging_endpoints none = record { rest = none; ws = none }
messaging_endpoints (some messaging) =
    read_endpoints (record { rest = none; ws = none })
      (normalize_service_endpoints (get messaging (codes "serviceEndpoint")))

-- authEndpoint
unfoldable pub explicit_endpoint : Option Json → Option Text
explicit_endpoint none = none
explicit_endpoint (some service) = as_string (get service (codes "serviceEndpoint"))

unfoldable pub derived_endpoint : Option Text → Option Text
derived_endpoint none = none
derived_endpoint (some rest) = some (trim_slashes rest ++ codes "/authenticate")

unfoldable pub auth_endpoint_of : (explicit rest : Option Text) → Option Text
auth_endpoint_of (some url) rest = some url
auth_endpoint_of none rest = derived_endpoint rest

unfoldable pub non_empty : Option Text → MediatorError → Result MediatorError Text
non_empty none e = err e
non_empty (some []) e = err e
non_empty (some (c ∷ t)) e = ok (c ∷ t)

-- The refusal of plaintext URLs.
unfoldable pub is_plaintext : Text → Bool
is_plaintext url = starts_with url (codes "http://") || starts_with url (codes "ws://")

unfoldable pub check_secure : Bool → Text → Result MediatorError (Unit {0})
check_secure allow_insecure url = guard (allow_insecure || not (is_plaintext url)) (insecure url)

unfoldable pub check_present :
    (Text → Result MediatorError (Unit {0})) → Option Text → Result MediatorError (Unit {0})
check_present check none = ok tt
check_present check (some url) = check url

-- extractX25519KeyAgreement
-- `ka.length === 0` of an object, and its member `ka[0]`
unfoldable pub is_zero : Option Json → Bool
is_zero (some (number n)) = n == 0
is_zero j = false

unfoldable pub first_member : Members → Result MediatorError Json
first_member ms =
    if is_zero (get (object ms) (codes "length"))
    then err no_key_agreement
    else or_throw (get (object ms) (codes "0")) malformed

unfoldable pub first_agreement : Option Json → Result MediatorError Json
first_agreement (some (array (cons x xs))) = ok x
first_agreement (some (string (c ∷ t))) = ok (string (c ∷ []))
first_agreement (some (object ms)) = first_member ms
first_agreement (some (boolean true)) = err malformed
first_agreement (some (number (suc n))) = err malformed
first_agreement j = err no_key_agreement

unfoldable pub is_reference : Option Text → Text → Bool
is_reference none reference = false
is_reference (some id) reference = same_reference id reference

unfoldable pub find_method : Items → Text → Result MediatorError Json
find_method nil reference = err unresolvable
find_method (cons null methods) reference = err malformed
find_method (cons v methods) reference =
    let later = find_method methods reference in
    if is_reference (as_string (get v (codes "id"))) reference then ok v else later

unfoldable pub methods_of : Option Json → Result MediatorError Items
methods_of none = ok nil
methods_of (some null) = ok nil
methods_of (some (array xs)) = ok xs
methods_of (some j) = err malformed

unfoldable pub dereference : (document vm : Json) → Result MediatorError Json
dereference document (string reference) =
    methods_of (get document (codes "verificationMethod")) >>= λ methods.
    find_method methods reference
dereference document vm = ok vm

unfoldable pub decoded_key : Result MultikeyError Multikey → Result MediatorError (List ℕ)
decoded_key (err e) = err (invalid_multikey e)
decoded_key (ok k) =
    guard (get_or k.codec 0 0 == 0xec && get_or k.codec 1 0 == 0x01) not_x25519 >> ok k.key

-- The key agreement: its key id, as the document has it, and its key.
pub record Agreement : Type 0 where
  pub kid : Option Json
  pub x25519_public : List ℕ

unfoldable pub extract_x25519_key_agreement : (document : Json) → Result MediatorError Agreement
extract_x25519_key_agreement document = do
  entry ← first_agreement (get document (codes "keyAgreement"))
  vm ← dereference document entry
  guard (is_truthy (get vm (codes "publicKeyMultibase"))) no_multibase
  multibase_str ← or_throw (as_string (get vm (codes "publicKeyMultibase"))) malformed
  key ← decoded_key (decode_multikey multibase_str)
  ok (record { kid = get vm (codes "id"); x25519_public = key })

-- defaultClientKid
unfoldable pub default_client_kid : (did : Text) → (x25519_public : List ℕ) → Text
default_client_kid did x25519_public =
    did ++ (codes "#" ++ encode_multikey x25519_pub x25519_public)

pub record Mediator : Type 0 where
  pub did : Text
  pub rest_endpoint : Text
  pub ws_endpoint : Option Text
  pub auth_endpoint : Text
  pub agreement : Agreement

unfoldable pub refuse : Result EndpointError Url → Result MediatorError (Unit {0})
refuse (ok u) = ok tt
refuse (err e) = err (refused e)

module _ (url_of : Text → Option Url) where
  unfoldable pub check_endpoint :
      EndpointPolicy → (scheme : Text) → Text → Result MediatorError (Unit {0})
  check_endpoint policy scheme url =
      refuse (assert_safe_endpoint url_of url (record policy { schemes = some (scheme ∷ []) }))

  -- parseMediatorEndpoints, on a document that is an object
  unfoldable pub parse_mediator_endpoints :
      (document : Json) (mediator_did : Text) → EndpointPolicy → Result MediatorError Mediator
  parse_mediator_endpoints document mediator_did policy = do
    let services = as_items (get document (codes "service"))
    let found = messaging_endpoints (find_service services (codes "DIDCommMessaging"))
    let explicit = explicit_endpoint (find_service services (codes "Authentication"))
    rest ← non_empty found.rest no_rest_endpoint
    auth ← non_empty (auth_endpoint_of explicit found.rest) no_auth_endpoint
    check_secure policy.allow_insecure rest
    check_secure policy.allow_insecure auth
    check_present (check_secure policy.allow_insecure) found.ws
    check_endpoint policy (codes "https:") rest
    check_endpoint policy (codes "https:") auth
    check_present (check_endpoint policy (codes "wss:")) found.ws
    agreement ← extract_x25519_key_agreement document
    ok (record {
      did = mediator_did;
      rest_endpoint = trim_slashes rest;
      ws_endpoint = found.ws;
      auth_endpoint = auth;
      agreement = agreement;
    })
