-- ===== src/MediatorAuth/Vetted.antt =====
-- The endpoints that src/mediator-auth.js takes from a mediator's DID document.
use vti_didcomm_js.Prelude.{
  Bool, true, false, Option, none, some, [], ◌∷◌, not, ◌||◌, ◌⊎◌, inl, inr, Result, ok, err,
  >>=-eq-ok, guard-eq-ok, ok-injective, ◌≡◌, refl, ap, sym,
}
use mathlib.Core.Path.{subst}
use vti_didcomm_js.Prelude.Text.{Text, codes, starts_with}
use vti_didcomm_js.Json.{Json, get}
use vti_didcomm_js.DidScid.Convert.{trim_slashes}
use vti_didcomm_js.NetGuard.Policy.{
  Url, EndpointPolicy, EndpointError, assert_safe_endpoint, canonical_host,
}
use vti_didcomm_js.NetGuard.Policy.Safe.{IsPublicHost, assert_safe_endpoint-IsAllowed}
use vti_didcomm_js.MediatorAuth.{
  no_rest_endpoint, no_auth_endpoint, insecure, Mediator, as_items, find_service,
  messaging_endpoints, explicit_endpoint, auth_endpoint_of, non_empty, is_plaintext, check_secure,
  check_present, extract_x25519_key_agreement, refuse, check_endpoint, parse_mediator_endpoints,
}

module _ (url_of : Text → Option Url) (policy : EndpointPolicy) where
  -- A URL that parses, with no user in it, on a public host unless the policy allows private ones, and of a secure
  -- scheme unless the policy allows insecure ones.
  pub record IsVetted (url : Text) : Type 0 where
    pub parsed : Url
    pub read : url_of url ≡ some parsed
    pub no_username : parsed.username ≡ []
    pub no_password : parsed.password ≡ []
    pub is_public :
        (policy.allow_private ≡ true)
        ⊎ IsPublicHost (starts_with parsed.hostname (codes "[")) (canonical_host parsed.hostname)
    pub is_secure : (policy.allow_insecure ≡ true) ⊎ (is_plaintext url ≡ false)

  abbrev pub IsVettedOption : Option Text → Type 0
  IsVettedOption none = Unit
  IsVettedOption (some url) = IsVetted url

  secure-ok :
      (url : Text) {u : Unit {0}}
      → check_secure policy.allow_insecure url ≡ ok u
      → (policy.allow_insecure ≡ true) ⊎ (is_plaintext url ≡ false)
  unfolding check_secure
  secure-ok url e = either policy.allow_insecure (is_plaintext url) (guard-eq-ok _ (insecure url) e)
    where
      either : (a b : Bool) → (a || not b) ≡ true → (a ≡ true) ⊎ (b ≡ false)
      either true b h = inl refl
      either false false h = inr refl
      either false true h = cc

  refuse-ok :
      (r : Result EndpointError Url) {u : Unit {0}} → refuse r ≡ ok u → (v : Url) × (r ≡ ok v)
  unfolding refuse
  refuse-ok (ok v) e = (v, refl)
  refuse-ok (err x) e = cc

  endpoint-IsVetted :
      (scheme url : Text) {u v : Unit {0}}
      → check_secure policy.allow_insecure url ≡ ok u
      → check_endpoint url_of policy scheme url ≡ ok v
      → IsVetted url
  unfolding check_endpoint
  endpoint-IsVetted scheme url es ec =
      let narrowed : EndpointPolicy = record policy { schemes = some (scheme ∷ []) } in
      let (parsed, ep) = refuse-ok (assert_safe_endpoint url_of url narrowed) ec in
      let (read, (schemes, allow_list, e₁, e₂, allowed)) =
        assert_safe_endpoint-IsAllowed url_of url narrowed parsed ep in
      record {
        parsed = parsed;
        read = read;
        no_username = allowed.no_username;
        no_password = allowed.no_password;
        is_public = allowed.is_public;
        is_secure = secure-ok url es;
      }

  present-IsVettedOption :
      (scheme : Text) (url : Option Text) {u v : Unit {0}}
      → check_present (check_secure policy.allow_insecure) url ≡ ok u
      → check_present (check_endpoint url_of policy scheme) url ≡ ok v
      → IsVettedOption url
  unfolding check_present
  present-IsVettedOption scheme none es ec = tt
  present-IsVettedOption scheme (some url) es ec = endpoint-IsVetted scheme url es ec

  -- What `parseMediatorEndpoints` returns has passed the endpoint guard: the REST endpoint, before its trailing slashes are
  -- cut, the authentication endpoint and the WebSocket endpoint, if there is one, parse, carry no user or password, are on
  -- public hosts unless the policy allows private ones, and do not start with http:// or ws:// unless the policy
  -- allows that.
  pub parse_mediator_endpoints-IsVetted :
      (document : Json) (mediator_did : Text) (m : Mediator)
      → parse_mediator_endpoints url_of document mediator_did policy ≡ ok m
      → (rest : Text) × (m.rest_endpoint ≡ trim_slashes rest)
        × IsVetted rest
        × IsVetted m.auth_endpoint
        × IsVettedOption m.ws_endpoint
  unfolding parse_mediator_endpoints
  parse_mediator_endpoints-IsVetted document mediator_did m e =
      let services = as_items (get document (codes "service")) in
      let found = messaging_endpoints (find_service services (codes "DIDCommMessaging")) in
      let explicit = explicit_endpoint (find_service services (codes "Authentication")) in
      let (rest, er, e₁) = >>=-eq-ok (non_empty found.rest no_rest_endpoint) _ e in
      let (auth, ea, e₂) =
        >>=-eq-ok (non_empty (auth_endpoint_of explicit found.rest) no_auth_endpoint) _ e₁ in
      let (s₁, es₁, e₃) = >>=-eq-ok (check_secure policy.allow_insecure rest) _ e₂ in
      let (s₂, es₂, e₄) = >>=-eq-ok (check_secure policy.allow_insecure auth) _ e₃ in
      let (s₃, es₃, e₅) =
        >>=-eq-ok (check_present (check_secure policy.allow_insecure) found.ws) _ e₄ in
      let (c₁, ec₁, e₆) = >>=-eq-ok (check_endpoint url_of policy (codes "https:") rest) _ e₅ in
      let (c₂, ec₂, e₇) = >>=-eq-ok (check_endpoint url_of policy (codes "https:") auth) _ e₆ in
      let (c₃, ec₃, e₈) =
        >>=-eq-ok (check_present (check_endpoint url_of policy (codes "wss:")) found.ws) _ e₇ in
      let (agreement, ek, e₉) = >>=-eq-ok (extract_x25519_key_agreement document) _ e₈ in
      let built = ok-injective e₉ in
      (
        rest,
        ap (λ r. r.rest_endpoint) (sym built),
        endpoint-IsVetted (codes "https:") rest es₁ ec₁,
        subst (λ r. IsVetted r.auth_endpoint) built
            (endpoint-IsVetted (codes "https:") auth es₂ ec₂),
        subst (λ r. IsVettedOption r.ws_endpoint) built
            (present-IsVettedOption (codes "wss:") found.ws es₃ ec₃),
      )
