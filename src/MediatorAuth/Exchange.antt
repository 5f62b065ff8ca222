-- ===== src/MediatorAuth/Exchange.antt =====
-- src/mediator-auth.js: `authenticateToMediator`, once the mediator is resolved. The guarded fetch, with the text of
-- its reply, is a parameter; the time, the UUID and what `pack` draws are arguments. A key id of the document is a text.
use vti_didcomm_js.Prelude.{
  ℕ, ◌+◌, Bool, true, Option, none, some, List, [], ◌++◌, not, ◌&&◌, length, ◌==◌, Result, ok, err,
  guard, or_throw, ◌>>=◌, ◌>>◌, >>=-eq-ok, guard-eq-ok, or_throw-eq-ok, ok-injective, ◌≡◌, ap, sym,
  ◌∙◌,
}
use vti_didcomm_js.Prelude.Text.{Text, codes, text_eq}
use vti_didcomm_js.Json.{
  Json, object, array, number, string, member, end, cons, nil, null, get, as_string, is_truthy,
}
use vti_didcomm_js.Platform.{Platform}
use vti_didcomm_js.Envelope.{EnvelopeError}
use vti_didcomm_js.Envelope.Jwk.{private_jwk, public_jwk}
use vti_didcomm_js.Envelope.Pack.{Draw, pack}
use vti_didcomm_js.MediatorAuth.{Mediator, default_client_kid}

pub data AuthError : Type 0 where
  empty_argument wrong_key_length no_challenge no_access_token not_json : AuthError
  bad_status : (status : ℕ) → AuthError
  unreachable : (reason : Text) → AuthError
  not_packed : EnvelopeError → AuthError

pub record Reply : Type 0 where
  pub is_ok : Bool
  pub status : ℕ
  pub text : Text

abbrev pub Fetch : Type 0
Fetch = (url content_type body : Text) → Result AuthError Reply

pub record Client : Type 0 where
  pub did : Text
  pub private_key : List ℕ
  pub public_key : List ℕ
  pub kid : Option Text

pub record Tokens : Type 0 where
  pub access_token : Json
  pub access_expires_at : Option Json
  pub refresh_token : Option Json
  pub refresh_expires_at : Option Json
  pub session_id : Option Json

-- `value?.name`
unfoldable pub optional : Option Json → Text → Option Json
optional none name = none
optional (some value) name = get value name

-- `a ?? b`
unfoldable pub or_else : Option Json → Option Json → Option Json
or_else none b = b
or_else (some null) b = b
or_else (some a) b = some a

-- The challenge and the session id of the first reply.
unfoldable pub challenge_of : Json → Result AuthError (Json × Json)
challenge_of reply = do
  let data_member = get reply (codes "data")
  let challenge = optional data_member (codes "challenge")
  let session = or_else (optional data_member (codes "session_id")) (get reply (codes "sessionId"))
  guard (is_truthy challenge && is_truthy session) no_challenge
  c ← or_throw challenge no_challenge
  s ← or_throw session no_challenge
  ok (c, s)

-- AUTH_MESSAGE_TYPE
abbrev pub auth_message_type : Text
auth_message_type = codes "https://affinidi.com/atm/1.0/authenticate"

unfoldable pub auth_message :
    (uuid client_did mediator_did : Text) (now : ℕ) (challenge session : Json) → Json
auth_message uuid client_did mediator_did now challenge session = object (
    member (codes "id") (string (codes "urn:uuid:" ++ uuid)) (
      member (codes "typ") (string (codes "application/didcomm-plain+json")) (
        member (codes "type") (string auth_message_type) (
          member (codes "from") (string client_did) (
            member (codes "to") (array (cons (string mediator_did) nil)) (
              member (codes "created_time") (number now) (
                member (codes "expires_time") (number (now + 300)) (
                  member (codes "body")
                    (object (
                      member (codes "challenge") challenge
                        (member (codes "session_id") session end)))
                    end))))))))

unfoldable pub packed : {A : Type 0} → Result EnvelopeError A → Result AuthError A
packed (ok a) = ok a
packed (err e) = err (not_packed e)

unfoldable pub kid_or : Option Text → Text → Text
kid_or (some kid) default = kid
kid_or none default = default

unfoldable pub text_of : Option Text → Text
text_of (some t) = t
text_of none = []

unfoldable pub tokens_of : Json → Result AuthError Tokens
tokens_of auth = do
  let data_member = get auth (codes "data")
  guard (is_truthy (optional data_member (codes "access_token"))) no_access_token
  token ← or_throw (optional data_member (codes "access_token")) no_access_token
  ok (record {
    access_token = token;
    access_expires_at = optional data_member (codes "access_expires_at");
    refresh_token = optional data_member (codes "refresh_token");
    refresh_expires_at = optional data_member (codes "refresh_expires_at");
    session_id = get auth (codes "sessionId");
  })

module _ (p : Platform) where
  -- parseResponse
  unfoldable pub parse_response : Reply → Result AuthError Json
  parse_response reply =
      guard reply.is_ok (bad_status reply.status) >> or_throw (p.parse reply.text) not_json

  -- postJson and postRaw
  unfoldable pub post_raw : Fetch → (url body : Text) → Result AuthError Json
  post_raw fetch url body = fetch url (codes "application/json") body >>= parse_response

  unfoldable pub post_json : Fetch → (url : Text) → Json → Result AuthError Json
  post_json fetch url body = post_raw fetch url (p.stringify body)

  -- The packing of the authenticate message.
  unfoldable pub pack_auth : Client → Mediator → Json → Draw → Result AuthError Text
  pack_auth client mediator message draw = do
    sender_jwk ← packed (private_jwk (codes "X25519") client.private_key client.public_key none)
    recipient_jwk ← packed (public_jwk (codes "X25519") mediator.agreement.x25519_public none)
    packed (
        pack p message
          (record {
            kid = kid_or client.kid (default_client_kid client.did client.public_key);
            jwk = sender_jwk;
          })
          (record { kid = text_of (as_string mediator.agreement.kid); jwk = recipient_jwk }) draw)

  -- authenticateToMediator
  unfoldable pub authenticate_to_mediator :
      Fetch → Client → Mediator → (uuid : Text) (now : ℕ) → Draw → Result AuthError Tokens
  authenticate_to_mediator fetch client mediator uuid now draw = do
    guard (not (text_eq mediator.did [])) empty_argument
    guard (not (text_eq client.did [])) empty_argument
    guard (length client.private_key == 32) wrong_key_length
    guard (length client.public_key == 32) wrong_key_length
    reply ←
        post_json fetch (mediator.auth_endpoint ++ codes "/challenge")
          (object (member (codes "did") (string client.did) end))
    (challenge, session) ← challenge_of reply
    jwe ←
        pack_auth client mediator (auth_message uuid client.did mediator.did now challenge session)
          draw
    auth ← post_raw fetch mediator.auth_endpoint jwe
    tokens_of auth

-- The steps behind a successful exchange.
pub record IsExchange (p : Platform) (fetch : Fetch) (client : Client) (mediator : Mediator)
    (uuid : Text) (now : ℕ) (draw : Draw) (tokens : Tokens) : Type 0 where
  pub challenge : Json
  pub session : Json
  pub reply : Json
  pub jwe : Text
  pub auth : Json
  pub asked :
      post_json p fetch
        (mediator.auth_endpoint ++ codes "/challenge")
        (object (member (codes "did") (string client.did) end))
      ≡ ok reply
  pub given : challenge_of reply ≡ ok (challenge, session)
  pub sealed :
      pack_auth p client mediator
        (auth_message uuid client.did mediator.did now challenge session)
        draw
      ≡ ok jwe
  pub posted : post_raw p fetch mediator.auth_endpoint jwe ≡ ok auth
  pub answered : tokens_of auth ≡ ok tokens
  pub has_token : is_truthy (some tokens.access_token) ≡ true

tokens_of-access_token :
    (auth : Json) (tokens : Tokens)
    → tokens_of auth ≡ ok tokens
    → is_truthy (some tokens.access_token) ≡ true
unfolding tokens_of
tokens_of-access_token auth tokens e =
    let token = optional (get auth (codes "data")) (codes "access_token") in
    let (u, eg, e₁) = >>=-eq-ok (guard (is_truthy token) no_access_token) _ e in
    let (t, et, e₂) = >>=-eq-ok (or_throw token no_access_token) _ e₁ in
    ap (λ r. is_truthy (some r.access_token)) (sym (ok-injective e₂))
    ∙ ap is_truthy (sym (or_throw-eq-ok token no_access_token et))
    ∙ guard-eq-ok (is_truthy token) no_access_token eg

-- Tokens are returned only after a challenge was given to the client's DID, and a message with that challenge and session,
-- from the client to the mediator, was packed and posted to the authentication endpoint, whose answer has an access token.
pub authenticate_to_mediator-IsExchange :
    (p : Platform) (fetch : Fetch) (client : Client) (mediator : Mediator) (uuid : Text) (now : ℕ)
    (draw : Draw) (tokens : Tokens)
    → authenticate_to_mediator p fetch client mediator uuid now draw ≡ ok tokens
    → IsExchange p fetch client mediator uuid now draw tokens
unfolding authenticate_to_mediator
authenticate_to_mediator-IsExchange p fetch client mediator uuid now draw tokens e =
    let (g₁, h₁, e₁) = >>=-eq-ok (guard (not (text_eq mediator.did [])) empty_argument) _ e in
    let (g₂, h₂, e₂) = >>=-eq-ok (guard (not (text_eq client.did [])) empty_argument) _ e₁ in
    let (g₃, h₃, e₃) = >>=-eq-ok (guard (length client.private_key == 32) wrong_key_length) _ e₂ in
    let (g₄, h₄, e₄) = >>=-eq-ok (guard (length client.public_key == 32) wrong_key_length) _ e₃ in
    let (reply, er, e₅) =
      >>=-eq-ok
        (post_json p fetch (mediator.auth_endpoint ++ codes "/challenge")
          (object (member (codes "did") (string client.did) end)))
        _ e₄ in
    let ((challenge, session), ec, e₆) = >>=-eq-ok (challenge_of reply) _ e₅ in
    let (jwe, ej, e₇) =
      >>=-eq-ok
        (pack_auth p client mediator
          (auth_message uuid client.did mediator.did now challenge session) draw)
        _ e₆ in
    let (auth, ea, e₈) = >>=-eq-ok (post_raw p fetch mediator.auth_endpoint jwe) _ e₇ in
    record {
      challenge = challenge;
      session = session;
      reply = reply;
      jwe = jwe;
      auth = auth;
      asked = er;
      given = ec;
      sealed = ej;
      posted = ea;
      answered = e₈;
      has_token = tokens_of-access_token auth tokens e₈;
    }
