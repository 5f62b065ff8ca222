-- ===== src/MediatorAuth/Examples.antt =====
-- A run of src/mediator-auth.js, and its theorem at a concrete input.
use vti_didcomm_js.Prelude.{false, Option, none, some, [], ok, ◌≡◌, refl, if◌then◌else◌}
use vti_didcomm_js.Prelude.Text.{Text, codes, text_eq, starts_with}
use vti_didcomm_js.Json.{
  Json, object, array, string, nil, cons, member, end, get, field, as_string, is_truthy,
}
use vti_didcomm_js.Multibase.{decode_multikey}
use vti_didcomm_js.DidScid.Convert.{trim_slashes, drop_slashes}
use vti_didcomm_js.NetGuard.Policy.{Url, EndpointPolicy, assert_safe_endpoint}
use vti_didcomm_js.MediatorAuth.{
  Mediator, type_is, find_service, as_items, normalize_service_endpoints, uri_of, take_uri,
  read_endpoints, messaging_endpoints, explicit_endpoint, auth_endpoint_of, non_empty, is_plaintext,
  check_secure, check_present, first_agreement, dereference, decoded_key,
  extract_x25519_key_agreement, refuse, check_endpoint, parse_mediator_endpoints,
}
use vti_didcomm_js.MediatorAuth.Vetted.{IsVetted, IsVettedOption, parse_mediator_endpoints-IsVetted}

abbrev endpoint : Url
endpoint = record {
  protocol = codes "https:";
  username = [];
  password = [];
  hostname = codes "8.8.8.8";
  port = [];
  host = codes "8.8.8.8";
  pathname = codes "/dns";
}

abbrev read_url : Text → Option Url
read_url s = if text_eq s (codes "https://8.8.8.8/dns") then some endpoint else none

abbrev policy : EndpointPolicy
policy = record {
  schemes = none;
  allow_insecure = false;
  allow_private = false;
  allow_hosts = none;
}

abbrev service : Text → Json
service type = object (
    member (codes "type") (string type)
      (member (codes "serviceEndpoint") (string (codes "https://8.8.8.8/dns")) end))

abbrev document : Json
document = object (
    member (codes "service")
      (array
        (cons (service (codes "Authentication")) (cons (service (codes "DIDCommMessaging")) nil)))
      (member (codes "keyAgreement")
        (array
          (cons (object (member (codes "publicKeyMultibase") (string (codes "zJxg")) end)) nil))
        end))

abbrev mediator : Mediator
mediator = record {
  did = codes "did:ex:m";
  rest_endpoint = codes "https://8.8.8.8/dns";
  ws_endpoint = none;
  auth_endpoint = codes "https://8.8.8.8/dns";
  agreement = record { kid = none; x25519_public = [] };
}

mediator-parsed : parse_mediator_endpoints read_url document (codes "did:ex:m") policy ≡ ok mediator
unfolding parse_mediator_endpoints type_is find_service as_items normalize_service_endpoints uri_of
    take_uri read_endpoints messaging_endpoints explicit_endpoint auth_endpoint_of non_empty
    is_plaintext check_secure check_present first_agreement dereference decoded_key
    extract_x25519_key_agreement refuse check_endpoint trim_slashes drop_slashes decode_multikey
    assert_safe_endpoint get field as_string is_truthy text_eq starts_with
mediator-parsed = refl

parse_mediator_endpoints-IsVetted_example :
    (rest : Text) × (codes "https://8.8.8.8/dns" ≡ trim_slashes rest)
    × IsVetted read_url policy rest
    × IsVetted read_url policy (codes "https://8.8.8.8/dns")
    × IsVettedOption read_url policy none
parse_mediator_endpoints-IsVetted_example =
    parse_mediator_endpoints-IsVetted read_url policy document (codes "did:ex:m") mediator
      mediator-parsed
