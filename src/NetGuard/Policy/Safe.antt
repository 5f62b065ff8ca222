-- ===== src/NetGuard/Policy/Safe.antt =====
-- What an endpoint that `assertSafeEndpoint` returns satisfies.
use vti_didcomm_js.Prelude.{
  ◌≡◌, ◌≢◌, refl, sym, ap, ◌∙◌, arith, Bool, true, false, Option, none, some, List, [], ◌∷◌, not,
  ok, Bool-cases, inl, inr, ◌⊎◌, ◌||◌, ◌&&◌, guard, >>=-eq-ok, guard-eq-ok, unless, unless-eq-ok,
  or_throw-eq-ok, ok-injective, or_throw, is_some, any, and-true,
}
use mathlib.Core.Path.{subst}
use vti_didcomm_js.Prelude.Text.{
  Text, codes, text_eq, text_eq_iff, starts_with, ends_with, includes,
}
use vti_didcomm_js.NetGuard.Ipv4.{parse_ipv4, v4_to_uint, V4}
use vti_didcomm_js.NetGuard.Ipv4.Ranges.{in_non_public_range, v4_blocked-ranges}
use vti_didcomm_js.NetGuard.Ipv6.{is_blocked_ip, is_blocked_ip-v4}
use vti_didcomm_js.NetGuard.Policy.{
  Url, EndpointPolicy, blocked, invalid_url, has, canonical_host, display_url, normalize_schemes,
  normalize_allow_hosts, check_private, check_allow_list, check_url, assert_safe_endpoint, HostRule,
  host_allowed, is_blocked_name, blocked_name_suffixes,
}

-- A host that is not local: a public address, or a name with a dot and without a local suffix.
abbrev pub IsPublicHost : (bracketed : Bool) → Text → Type 0
IsPublicHost bracketed host =
    (((bracketed || is_some (parse_ipv4 host)) ≡ true) × (is_blocked_ip host ≡ false))
    ⊎ (((bracketed || is_some (parse_ipv4 host)) ≡ false)
        × ((includes host (codes ".") ≡ true)
            × (any (ends_with host) blocked_name_suffixes ≡ false)))

-- A host that a rule of the allow-list allows, where there is a list.
abbrev pub IsListed : Option (List HostRule) → Text → Type 0
IsListed none host = Unit
IsListed (some rules) host = host_allowed host rules ≡ true

pub record IsAllowed (policy : EndpointPolicy) (schemes : List Text)
    (allow_list : Option (List HostRule)) (u : Url) : Type 0 where
  pub of_scheme : has schemes u.protocol ≡ true
  pub no_username : u.username ≡ []
  pub no_password : u.password ≡ []
  pub has_host : canonical_host u.hostname ≢ []
  pub is_public :
      (policy.allow_private ≡ true)
      ⊎ IsPublicHost (starts_with u.hostname (codes "[")) (canonical_host u.hostname)
  pub is_listed : IsListed allow_list (canonical_host u.hostname)

not-true : (b : Bool) → not b ≡ true → b ≡ false
not-true true h = cc
not-true false h = refl

module _ (url_of : Text → Option Url) where
  check_private-ok :
      (bracketed : Bool) (host shown : Text) {t : Unit {0}}
      → check_private url_of bracketed host shown ≡ ok t
      → IsPublicHost bracketed host
  unfolding check_private is_blocked_name
  check_private-ok bracketed host shown e = ground arith

  check_allow_list-ok :
      (allow_list : Option (List HostRule)) (host shown : Text) {t : Unit {0}}
      → check_allow_list url_of allow_list host shown ≡ ok t
      → IsListed allow_list host
  unfolding check_allow_list
  check_allow_list-ok none host shown e = tt
  check_allow_list-ok (some rules) host shown e = ground arith

  check_url-ok :
      (policy : EndpointPolicy) (schemes : List Text) (allow_list : Option (List HostRule))
      (u v : Url)
      → check_url url_of policy schemes allow_list u ≡ ok v
      → (v ≡ u) × IsAllowed policy schemes allow_list u
  unfolding check_url
  check_url-ok policy schemes allow_list u v e =
      let (a, ea, e₁) = >>=-eq-ok (guard (has schemes u.protocol) _) _ e in
      let (b, eb, e₂) = >>=-eq-ok (guard (text_eq u.username [] && text_eq u.password []) _) _ e₁ in
      let (c, ec, e₃) = >>=-eq-ok (guard (not (text_eq (canonical_host u.hostname) [])) _) _ e₂ in
      let host = canonical_host u.hostname in
      let private_check =
        check_private url_of (starts_with u.hostname (codes "[")) host (display_url u) in
      let (d, ed, e₄) = >>=-eq-ok (unless policy.allow_private private_check) _ e₃ in
      let (f, ef, e₅) = >>=-eq-ok (check_allow_list url_of allow_list host (display_url u)) _ e₄ in
      let (user, pass) = and-true (text_eq u.username []) _ (guard-eq-ok _ _ eb) in
      (
        sym (ok-injective e₅),
        record {
          of_scheme = guard-eq-ok _ _ ea;
          no_username = (text_eq_iff _ _).0 user;
          no_password = (text_eq_iff _ _).0 pass;
          has_host = λ h. cc ((text_eq_iff host []).1 h, not-true _ (guard-eq-ok _ _ ec));
          is_public = elim (Bool-cases policy.allow_private) [
            | inl private_too ↦ inl private_too
            | inr strict ↦ inr (
                check_private-ok (starts_with u.hostname (codes "[")) host (display_url u)
                  (unless-eq-ok policy.allow_private private_check ed strict))
          ];
          is_listed = check_allow_list-ok allow_list host (display_url u) ef;
        },
      )

  -- An endpoint that is returned is what the URL parser read; the policy's schemes hold its
  -- protocol, it carries no userinfo and has a host, the host is public unless allowPrivate is set,
  -- and it matches a rule of the allow-list where there is one.
  pub assert_safe_endpoint-IsAllowed :
      (url : Text) (policy : EndpointPolicy) (u : Url)
      → assert_safe_endpoint url_of url policy ≡ ok u
      → (url_of url ≡ some u)
        × ((schemes : List Text) × (allow_list : Option (List HostRule)) × (normalize_schemes
                policy.schemes policy.allow_insecure
              ≡ ok schemes)
            × (normalize_allow_hosts url_of policy.allow_hosts ≡ ok allow_list)
            × IsAllowed policy schemes allow_list u)
  unfolding assert_safe_endpoint
  assert_safe_endpoint-IsAllowed url policy u e =
      let (schemes, es, e₁) =
        >>=-eq-ok (normalize_schemes policy.schemes policy.allow_insecure) _ e in
      let (allow_list, el, e₂) = >>=-eq-ok (normalize_allow_hosts url_of policy.allow_hosts) _ e₁ in
      let (parsed, ep, e₃) =
        >>=-eq-ok (or_throw (url_of url) (blocked invalid_url none none)) _ e₂ in
      let (same, allowed) = check_url-ok policy schemes allow_list parsed u e₃ in
      (
        or_throw-eq-ok (url_of url) _ (ep ∙ ap ok (sym same)),
        (
          schemes,
          allow_list,
          es,
          el,
          subst (IsAllowed policy schemes allow_list) (sym same) allowed,
        ),
      )

or-some : (b : Bool) (o : Option V4) {v : V4} → o ≡ some v → (b || is_some o) ≡ true
or-some true o e = refl
or-some false o e = rw e

-- A public literal is not refused.
refuses :
    (allow_private bracketed : Bool) (host : Text)
    → allow_private ≡ false
    → (bracketed || is_some (parse_ipv4 host)) ≡ true
    → (allow_private ≡ true) ⊎ IsPublicHost bracketed host
    → is_blocked_ip host ≡ false
refuses allow_private bracketed host strict literal (inl h) = cc
refuses allow_private bracketed host strict literal (inr (inl (l, p))) = p
refuses allow_private bracketed host strict literal (inr (inr (l, p))) = cc

default_schemes : normalize_schemes none false ≡ ok (codes "https:" ∷ codes "wss:" ∷ [])
unfolding normalize_schemes
default_schemes = refl

-- Under the default policy an endpoint that is returned has the protocol https: or wss:, and an IPv4
-- literal as its host lies outside the ranges that are not public.
pub assert_safe_endpoint-strict :
    (url_of : Text → Option Url) (url : Text) (policy : EndpointPolicy) (u : Url) (v : V4)
    → policy.schemes ≡ none
    → policy.allow_insecure ≡ false
    → policy.allow_private ≡ false
    → assert_safe_endpoint url_of url policy ≡ ok u
    → parse_ipv4 (canonical_host u.hostname) ≡ some v
    → ((u.protocol ≡ codes "https:") ⊎ (u.protocol ≡ codes "wss:"))
      × (in_non_public_range (v4_to_uint v) ≡ false)
assert_safe_endpoint-strict url_of url policy u v hs hi hp e pv =
    let host = canonical_host u.hostname in
    let (read, (schemes, allow_list, es, el, allowed)) =
      assert_safe_endpoint-IsAllowed url_of url policy u e in
    let known : schemes ≡ codes "https:" ∷ codes "wss:" ∷ [] =
      ok-injective (sym es ∙ rw (hs, hi) default_schemes) in
    let among = rw known at allowed.of_scheme in
    (
      ground (
        arith,
        text_eq_iff u.protocol (codes "https:"),
        text_eq_iff u.protocol (codes "wss:"),
        among,
      ),
      sym (v4_blocked-ranges (v4_to_uint v))
          ∙ sym (is_blocked_ip-v4 host v pv)
          ∙ refuses policy.allow_private _ host hp (or-some _ (parse_ipv4 host) pv)
              allowed.is_public,
    )
