-- ===== src/NetGuard/Fetch/Guarded.antt =====
-- What the wrapped fetch and the wrapped lookup let through.
use vti_didcomm_js.Prelude.{
  ℕ, ◌≤◌, ◌<◌, ◌≡◌, ◌≢◌, ◌⊎◌, refl, ap, arith, Bool, true, false, Option, none, some, List, [], ◌∷◌,
  All, ok, err, Result, Bool-cases, inl, inr, ok-injective, >>=-eq-ok, if◌then◌else◌,
}
use vti_didcomm_js.Prelude.Text.{Text, codes, text_eq, text_eq_refl, text_eq_iff}
use mathlib.Core.Path.{subst}
use vti_didcomm_js.NetGuard.Ipv6.{is_blocked_ip}
use vti_didcomm_js.NetGuard.Policy.{
  Url, EndpointPolicy, EndpointError, HostRule, normalize_schemes, normalize_allow_hosts,
}
use vti_didcomm_js.NetGuard.Policy.Safe.{IsAllowed, assert_safe_endpoint-IsAllowed}
use vti_didcomm_js.NetGuard.Fetch.{
  Input, target, Init, InitValue, string, with_member, init_or_empty, Request, Response,
  is_redirect, settle, check_target, net_guarded_fetch, Address, LookupReply, all_addresses,
  one_address, find_blocked, unless_blocked, dispatch, vet, hand_over, guarded_lookup,
}

-- The member of an init object, and the members that have another name.
abbrev pub member_of : Init → Text → Option InitValue
member_of [] name = none
member_of (m ∷ members) name =
    let rest = member_of members name in if text_eq m.0 name then some m.1 else rest

abbrev pub others : Init → Text → Init
others [] name = []
others (m ∷ members) name =
    let rest = others members name in if text_eq m.0 name then rest else m ∷ rest

-- What a request of the wrapper implies: it is for the input, whose endpoint the policy allows; its
-- `redirect` is "manual" and its other members are those that the caller gave.
pub record IsVetted (url_of : Text → Option Url) (policy : EndpointPolicy) (input : Input)
    (init : Option Init) (request : Request) : Type 0 where
  pub of_input : request.input ≡ input
  pub manual : member_of request.init (codes "redirect") ≡ some (string (codes "manual"))
  pub same_others :
      others request.init (codes "redirect") ≡ others (init_or_empty init) (codes "redirect")
  pub url : Text
  pub of_url : target input ≡ some url
  pub parsed : Url
  pub schemes : List Text
  pub allow_list : Option (List HostRule)
  pub read : url_of url ≡ some parsed
  pub of_schemes : normalize_schemes policy.schemes policy.allow_insecure ≡ ok schemes
  pub of_allow_list : normalize_allow_hosts url_of policy.allow_hosts ≡ ok allow_list
  pub allowed : IsAllowed policy schemes allow_list parsed

member_of-with_member :
    (init : Init) (name : Text) (value : InitValue)
    → member_of (with_member init name value) name ≡ some value
unfolding with_member
member_of-with_member [] name value = rw text_eq_refl refl
member_of-with_member (m ∷ init) name value = elim (Bool-cases (text_eq m.0 name)) [
  | inl same ↦ rw (same, text_eq_refl) refl
  | inr other ↦ rw (other, other) (member_of-with_member init name value)
]

others-with_member :
    (init : Init) (name : Text) (value : InitValue)
    → others (with_member init name value) name ≡ others init name
unfolding with_member
others-with_member [] name value = rw text_eq_refl refl
others-with_member (m ∷ init) name value = elim (Bool-cases (text_eq m.0 name)) [
  | inl same ↦ rw (same, text_eq_refl) refl
  | inr other ↦ rw (other, other) (ap (λ t. m ∷ t) (others-with_member init name value))
]

-- A response whose kind is not that of a redirect and whose status is outside of 300 to 399.
abbrev pub IsFinal : Response → Type 0
IsFinal resp = (resp.kind ≢ codes "opaqueredirect") × ((resp.status < 300) ⊎ (400 ≤ resp.status))

is_redirect-IsFinal : (resp : Response) → is_redirect resp ≡ false → IsFinal resp
is_redirect-IsFinal resp h = ground (arith, text_eq_iff resp.kind (codes "opaqueredirect"))

module _ (url_of : Text → Option Url) (impl : Request → Result ℕ Response) where
  settle-safe :
      (parsed : Url) (answer : Result ℕ Response) (resp : Response)
      → settle url_of impl parsed answer ≡ ok resp
      → (answer ≡ ok resp) × IsFinal resp
  unfolding settle
  settle-safe parsed (err n) resp e = cc
  settle-safe parsed (ok r) resp e = elim (Bool-cases (is_redirect r)) [
    | inl yes_redirect ↦ cc (rw yes_redirect at e)
    | inr other ↦
        let same : r ≡ resp = ok-injective (rw other at e) in
        (ap ok same, subst IsFinal same (is_redirect-IsFinal r other))
  ]

  dispatch-IsVetted :
      (policy : EndpointPolicy) (input : Input) (init : Option Init) (address : Option Text)
      (checked : Result EndpointError Url)
      → target input ≡ address
      → check_target url_of impl policy address ≡ checked
      → All (IsVetted url_of policy input init) (dispatch url_of impl input init checked).0
  unfolding dispatch check_target
  dispatch-IsVetted policy input init (some url) (ok parsed) t e =
      let (read, (schemes, allow_list, es, el, allowed)) =
        assert_safe_endpoint-IsAllowed url_of url policy parsed e in
      (
        record {
          of_input = refl;
          manual = member_of-with_member (init_or_empty init) (codes "redirect") _;
          same_others = others-with_member (init_or_empty init) (codes "redirect") _;
          url = url;
          of_url = t;
          parsed = parsed;
          schemes = schemes;
          allow_list = allow_list;
          read = read;
          of_schemes = es;
          of_allow_list = el;
          allowed = allowed;
        },
        tt,
      )
  dispatch-IsVetted policy input init none (ok parsed) t e =
      let (schemes, es, e₁) =
        >>=-eq-ok (normalize_schemes policy.schemes policy.allow_insecure) _ e in
      let (allow_list, el, e₂) = >>=-eq-ok (normalize_allow_hosts url_of policy.allow_hosts) _ e₁ in
      cc
  dispatch-IsVetted policy input init address (err x) t e = tt

  dispatch-IsFinal :
      (input : Input) (init : Option Init) (checked : Result EndpointError Url) (resp : Response)
      → (dispatch url_of impl input init checked).1 ≡ ok resp
      → IsFinal resp
  unfolding dispatch
  dispatch-IsFinal input init (ok parsed) resp h = (settle-safe parsed (impl _) resp h).1
  dispatch-IsFinal input init (err x) resp h = cc

  -- Every request that is made is for the given input, whose URL the policy allows: the policy's schemes
  -- hold its protocol, it has no userinfo and has a host, the host is public unless allowPrivate is set,
  -- and it is on the allow-list where there is one. Whatever the caller's init object says, `redirect`
  -- is "manual", and the members of other names are the caller's.
  pub net_guarded_fetch-IsVetted :
      (policy : EndpointPolicy) (input : Input) (init : Option Init)
      → All (IsVetted url_of policy input init) (net_guarded_fetch url_of impl policy input init).0
  unfolding net_guarded_fetch
  net_guarded_fetch-IsVetted policy input init =
      dispatch-IsVetted policy input init (target input) _ refl refl

  -- An answer that is returned has a type other than "opaqueredirect" and a status outside of 300 to
  -- 399, whatever the wrapped fetch answers.
  pub net_guarded_fetch-not_redirect :
      (policy : EndpointPolicy) (input : Input) (init : Option Init) (resp : Response)
      → (net_guarded_fetch url_of impl policy input init).1 ≡ ok resp
      → (resp.kind ≢ codes "opaqueredirect") × ((resp.status < 300) ⊎ (400 ≤ resp.status))
  unfolding net_guarded_fetch
  net_guarded_fetch-not_redirect policy input init resp h =
      dispatch-IsFinal input init (check_target url_of impl policy (target input)) resp h

-- Nothing is refused among them.
abbrev pub IsPublic : Address → Type 0
IsPublic a = is_blocked_ip a.address ≡ false

find_blocked-none : (list : List Address) → find_blocked list ≡ none → All IsPublic list
unfolding find_blocked
find_blocked-none [] e = tt
find_blocked-none (a ∷ list) e = elim (Bool-cases (is_blocked_ip a.address)) [
  | inl bad ↦ cc (rw bad at e)
  | inr good ↦ (good, find_blocked-none list (rw good at e))
]

-- The addresses that a reply gives to the socket.
abbrev pub given : LookupReply → List Address
given (all_addresses list) = list
given (one_address a) = a ∷ []
given _ = []

given-hand_over :
    (wants_all : Bool) (a : Address) (list : List Address)
    → All IsPublic (a ∷ list)
    → All IsPublic (given (hand_over wants_all a list))
unfolding hand_over
given-hand_over true a list h = h
given-hand_over false a list (p, h) = (p, tt)

given-vet :
    (answer : Result ℕ (List Address)) (wants_all : Bool)
    → All IsPublic (given (vet false wants_all answer))
unfolding vet
given-vet (err e) wants_all = tt
given-vet (ok []) wants_all = tt
given-vet (ok (a ∷ list)) wants_all = go (find_blocked (a ∷ list)) refl
  where
    go :
        (found : Option Address)
        → find_blocked (a ∷ list) ≡ found
        → All IsPublic (given (unless_blocked found (hand_over wants_all a list)))
    go none clean = given-hand_over wants_all a list (find_blocked-none (a ∷ list) clean)
    go (some bad) found = tt

-- Without `allowPrivate` every address that reaches the socket is public.
pub given-guarded_lookup :
    (lookup : Text → Result ℕ (List Address)) (hostname : Text) (wants_all : Bool)
    → All IsPublic (given (guarded_lookup lookup false hostname wants_all))
unfolding guarded_lookup
given-guarded_lookup lookup hostname wants_all = given-vet (lookup hostname) wants_all
