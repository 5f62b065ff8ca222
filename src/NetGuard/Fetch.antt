-- ===== src/NetGuard/Fetch.antt =====
-- src/net-guard.js `guardedFetch` and src/net-guard-node.js `guardedLookup`. The fetch and the DNS
-- lookup that they wrap are parameters; what they were asked is returned beside the outcome.
pub mod Guarded
use vti_didcomm_js.Prelude.{
  ℕ, Bool, true, false, Option, none, some, List, [], ◌∷◌, any, leb, ltb, ◌==◌, ◌&&◌, ◌||◌, not,
  if◌then◌else◌, Result, ok, err, ◌>>=◌, ◌>>◌,
}
use vti_didcomm_js.Prelude.Text.{Text, codes, text_eq}
use vti_didcomm_js.NetGuard.Ipv6.{is_blocked_ip}
use vti_didcomm_js.NetGuard.Policy.{
  Url, EndpointPolicy, EndpointError, blocked, invalid_url, redirect, canonical_host, display_url,
  normalize_schemes, normalize_allow_hosts, assert_safe_endpoint,
}

-- The input of fetch: a string or the href of a URL, or another value by its `url`.
pub data Input : Type 0 where
  address : Text → Input
  request_object : (url : Option Text) → Input

unfoldable pub target : Input → Option Text
target (address url) = some url
target (request_object url) = url

-- A member of the init object: a string, or the identity of another value.
pub data InitValue : Type 0 where
  string : Text → InitValue
  opaque : ℕ → InitValue

abbrev pub Init : Type 0
Init = List (Text × InitValue)

-- `{ ...members, name: value }`, which keeps the place of a member that is there
unfoldable pub with_member : Init → Text → InitValue → Init
with_member [] name value = (name, value) ∷ []
with_member (m ∷ members) name value =
    let rest = with_member members name value in
    if text_eq m.0 name then (name, value) ∷ members else m ∷ rest

-- `init ?? {}`
unfoldable pub init_or_empty : Option Init → Init
init_or_empty none = []
init_or_empty (some init) = init

-- What is handed to fetch.
pub record Request : Type 0 where
  pub input : Input
  pub init : Init

pub record Response : Type 0 where
  pub kind : Text
  pub status : ℕ

-- A refusal by the guard, of the endpoint or of a redirect, or the rejection of the wrapped fetch.
pub data FetchError : Type 0 where
  refused : EndpointError → FetchError
  redirected : EndpointError → (status : ℕ) → FetchError
  failed : ℕ → FetchError

abbrev pub is_redirect : Response → Bool
is_redirect resp =
    text_eq resp.kind (codes "opaqueredirect") || (leb 300 resp.status && ltb resp.status 400)

module _ (url_of : Text → Option Url) (impl : Request → Result ℕ Response) where
  -- After the answer of the wrapped fetch; cancelling the body of a redirect is not modelled.
  pub settle : Url → Result ℕ Response → Result FetchError Response
  unfolding text_eq canonical_host
  settle parsed (err e) = err (failed e)
  settle parsed (ok resp) =
      if is_redirect resp
      then err (
          redirected
            (blocked redirect (some (display_url parsed)) (some (canonical_host parsed.hostname)))
            resp.status)
      else ok resp

  -- The request that an accepted endpoint leads to.
  pub dispatch :
      Input → Option Init → Result EndpointError Url → List Request × Result FetchError Response
  unfolding with_member init_or_empty
  dispatch input init (err e) = ([], err (refused e))
  dispatch input init (ok parsed) =
      let request : Request = record {
        input = input;
        init = with_member (init_or_empty init) (codes "redirect") (string (codes "manual"));
      } in
      (request ∷ [], settle parsed (impl request))

  -- assertSafeEndpoint of a target that is no string and no URL still reads the policy first.
  unfoldable pub check_target : EndpointPolicy → Option Text → Result EndpointError Url
  check_target policy (some url) = assert_safe_endpoint url_of url policy
  check_target policy none = do
    schemes ← normalize_schemes policy.schemes policy.allow_insecure
    allow_list ← normalize_allow_hosts url_of policy.allow_hosts
    err (blocked invalid_url none none)

  unfoldable pub net_guarded_fetch :
      EndpointPolicy → Input → Option Init → List Request × Result FetchError Response
  unfolding assert_safe_endpoint settle dispatch
  net_guarded_fetch policy input init = dispatch input init (check_target policy (target input))

  -- The policy is checked once when the wrapper is built.
  unfoldable pub guarded_fetch :
      EndpointPolicy
      → Result EndpointError (Input → Option Init → List Request × Result FetchError Response)
  unfolding normalize_schemes normalize_allow_hosts net_guarded_fetch
  guarded_fetch policy = do
    schemes ← normalize_schemes policy.schemes policy.allow_insecure
    allow_list ← normalize_allow_hosts url_of policy.allow_hosts
    ok (net_guarded_fetch policy)

pub record Address : Type 0 where
  pub address : Text
  pub family : ℕ

-- What the callback receives.
pub data LookupReply : Type 0 where
  lookup_failed : ℕ → LookupReply
  no_addresses : LookupReply
  non_public : Address → LookupReply
  all_addresses : List Address → LookupReply
  one_address : Address → LookupReply

-- list.find((a) => isBlockedIp(a.address))
pub find_blocked : List Address → Option Address
find_blocked [] = none
find_blocked (a ∷ as') =
    let rest = find_blocked as' in if is_blocked_ip a.address then some a else rest

hand_over : (wants_all : Bool) → Address → List Address → LookupReply
hand_over true a list = all_addresses (a ∷ list)
hand_over false a list = one_address a

-- The name is refused if any of its addresses is.
unless_blocked : Option Address → LookupReply → LookupReply
unless_blocked (some bad) reply = non_public bad
unless_blocked none reply = reply

-- The callback of the wrapped lookup.
vet : (allow_private wants_all : Bool) → Result ℕ (List Address) → LookupReply
unfolding hand_over unless_blocked
vet allow_private wants_all (err e) = lookup_failed e
vet allow_private wants_all (ok []) = no_addresses
vet true wants_all (ok (a ∷ list)) = hand_over wants_all a list
vet false wants_all (ok (a ∷ list)) =
    unless_blocked (find_blocked (a ∷ list)) (hand_over wants_all a list)

-- guardedLookup: `lookup` is asked for every address of the name, `wants_all` is the caller's `all`
unfoldable pub guarded_lookup :
    (lookup : Text → Result ℕ (List Address))
    → (allow_private : Bool) → (hostname : Text) → (wants_all : Bool) → LookupReply
unfolding is_blocked_ip find_blocked vet
guarded_lookup lookup allow_private hostname wants_all =
    vet allow_private wants_all (lookup hostname)
