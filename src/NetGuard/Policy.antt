-- ===== src/NetGuard/Policy.antt =====
-- src/net-guard.js: `assertSafeEndpoint` and the policy it applies. The WHATWG URL parser belongs to
-- the platform and is the parameter `url_of`, `none` where `new URL` throws. Arguments of another
-- JavaScript type than the documented one are not modelled.
pub mod Safe
pub mod Hosts
use vti_didcomm_js.Prelude.{
  ℕ, ◌+◌, ◌-◌, Bool, true, false, Option, none, some, List, [], ◌∷◌, ◌++◌, reverse, length, drop,
  any, ltb, ◌==◌, ◌&&◌, ◌||◌, not, if◌then◌else◌, is_some, Result, ok, err, ◌>>=◌, ◌>>◌, guard,
  unless, or_throw,
}
use vti_didcomm_js.Prelude.Text.{
  is_blank, Text, codes, text_eq, starts_with, ends_with, includes, to_lower_case,
}
use vti_didcomm_js.NetGuard.Ipv4.{parse_ipv4}
use vti_didcomm_js.NetGuard.Ipv6.{parse_ipv6, is_blocked_ip, unbracket}

-- The members of a URL object that the guard reads.
pub record Url : Type 0 where
  pub protocol : Text
  pub username : Text
  pub password : Text
  pub hostname : Text
  pub port : Text
  pub host : Text
  pub pathname : Text

-- EndpointPolicy, where an absent member is `none`
pub record EndpointPolicy : Type 0 where
  pub schemes : Option (List Text)
  pub allow_insecure : Bool
  pub allow_private : Bool
  pub allow_hosts : Option (List Text)

pub data BlockedReason : Type 0 where
  invalid_url scheme userinfo private_address private_name not_allowlisted redirect : BlockedReason

-- The details of a BlockedEndpointError, and the TypeErrors of a malformed policy.
pub data EndpointError : Type 0 where
  blocked : BlockedReason → (url host : Option Text) → EndpointError
  empty_schemes : EndpointError
  unsupported_scheme : Text → EndpointError
  invalid_host_entry : Text → EndpointError

abbrev pub network_schemes : List Text
network_schemes = codes "https:" ∷ codes "wss:" ∷ codes "http:" ∷ codes "ws:" ∷ []

-- PLAINTEXT_OF
abbrev pub plaintext_of : Text → Option Text
plaintext_of s =
    if text_eq s (codes "https:")
    then some (codes "http:")
    else if text_eq s (codes "wss:")
    then some (codes "ws:")
    else none

abbrev pub blocked_name_suffixes : List Text
blocked_name_suffixes =
    codes ".localhost" ∷ codes ".local" ∷ codes ".internal" ∷ codes ".home.arpa" ∷ []

-- The members of a Set of texts, in insertion order.
abbrev pub has : List Text → Text → Bool
has set s = any (text_eq s) set

-- One round of the loop of normalizeSchemes.
with_colon : Text → Text
unfolding to_lower_case ends_with
with_colon raw = let s = to_lower_case raw in if ends_with s (codes ":") then s else s ++ codes ":"

add_scheme : Bool → Text → List Text
unfolding text_eq
add_scheme allow_insecure s = elim (plaintext_of s) [
  | none ↦ s ∷ []
  | some plain ↦ if allow_insecure then s ∷ plain ∷ [] else s ∷ []
]

pub scheme_loop : Bool → List Text → Result EndpointError (List Text)
unfolding with_colon add_scheme text_eq
scheme_loop allow_insecure [] = ok []
scheme_loop allow_insecure (raw ∷ list) =
    let rest = scheme_loop allow_insecure list in
    (guard (has network_schemes (with_colon raw)) (unsupported_scheme raw)
      >> (do out ← rest; ok (add_scheme allow_insecure (with_colon raw) ++ out)))

unfoldable pub normalize_schemes : Option (List Text) → Bool → Result EndpointError (List Text)
unfolding scheme_loop
normalize_schemes none allow_insecure =
    scheme_loop allow_insecure (codes "https:" ∷ codes "wss:" ∷ [])
normalize_schemes (some []) allow_insecure = err empty_schemes
normalize_schemes (some (s ∷ list)) allow_insecure = scheme_loop allow_insecure (s ∷ list)

-- .replace(/\.+$/, "")
drop_dots : Text → Text
drop_dots [] = []
drop_dots (c ∷ s) = let rest = drop_dots s in if c == b'.' then rest else c ∷ s

-- canonicalHost
unfoldable pub canonical_host : Text → Text
unfolding to_lower_case starts_with ends_with drop_dots
canonical_host hostname =
    let h = to_lower_case hostname in
    if starts_with h (codes "[") && ends_with h (codes "]")
    then unbracket h
    else reverse (drop_dots (reverse h))

-- What an entry of allowHosts becomes.
pub data HostRule : Type 0 where
  exact : Text → HostRule
  suffix : Text → HostRule

-- hostAllowed, for one rule and for the list
unfoldable pub rule_allows : Text → HostRule → Bool
unfolding text_eq ends_with
rule_allows host (exact h) = text_eq host h
rule_allows host (suffix s) = ltb (length s) (length host) && ends_with host s

abbrev pub host_allowed : Text → List HostRule → Bool
host_allowed host allow_list = any (rule_allows host) allow_list

-- isBlockedName
unfoldable pub is_blocked_name : Text → Bool
unfolding includes ends_with
is_blocked_name host =
    if includes host (codes ".") then any (ends_with host) blocked_name_suffixes else true

-- displayUrl
abbrev pub display_url : Url → Text
display_url parsed = parsed.protocol ++ (codes "//" ++ (parsed.host ++ parsed.pathname))

-- .trim()
skip_blanks : Text → Text
skip_blanks [] = []
skip_blanks (c ∷ s) = let rest = skip_blanks s in if is_blank c then rest else c ∷ s

pub trim : Text → Text
unfolding skip_blanks
trim s = reverse (skip_blanks (reverse (skip_blanks s)))

-- /[/@?#\s*]/.test(name)
abbrev pub is_forbidden : ℕ → Bool
is_forbidden ch = ch == b'/' || ch == b'@' || ch == b'?' || ch == b'#' || ch == b'*' || is_blank ch

module _ (url_of : Text → Option Url) where
  -- An IPv6 literal without brackets gets them; any other colon is a port.
  pub authority_of : Text → Option Text
  authority_of name =
      if not (starts_with name (codes "[")) && includes name (codes ":")
      then (if is_some (parse_ipv6 name) then some (codes "[" ++ (name ++ codes "]")) else none)
      else some name

  -- The host that the URL parser reads from an entry, if it has no port.
  pub host_of_entry : Text → Option Text
  host_of_entry name = elim (authority_of name) [
    | none ↦ none
    | some authority ↦ elim (url_of (codes "https://" ++ (authority ++ codes "/"))) [
      | none ↦ none
      | some u ↦ if text_eq u.port [] then some (canonical_host u.hostname) else none
    ]
  ]

  pub host_rule : Text → Result EndpointError HostRule
  host_rule entry =
      let trimmed = to_lower_case (trim entry) in
      let wildcard = starts_with trimmed (codes "*.") in
      let name = if wildcard then drop 2 trimmed else trimmed in
      (guard (not (text_eq name [] || any is_forbidden name)) (invalid_host_entry entry) >> (do
        host ← or_throw (host_of_entry name) (invalid_host_entry entry)
        ok (if wildcard then suffix (codes "." ++ host) else exact host)))

  pub host_rules : List Text → Result EndpointError (List HostRule)
  host_rules [] = ok []
  host_rules (entry ∷ entries) = do
    rule ← host_rule entry
    rules ← host_rules entries
    ok (rule ∷ rules)

  -- normalizeAllowHosts; null stays null
  unfoldable pub normalize_allow_hosts :
      Option (List Text) → Result EndpointError (Option (List HostRule))
  normalize_allow_hosts none = ok none
  normalize_allow_hosts (some entries) = do rules ← host_rules entries; ok (some rules)

  -- The check of a host that is not exempt by `allowPrivate`.
  pub check_private : (bracketed : Bool) → (host shown : Text) → Result EndpointError (Unit {0})
  check_private bracketed host shown =
      if bracketed || is_some (parse_ipv4 host)
      then guard (not (is_blocked_ip host)) (blocked private_address (some shown) (some host))
      else guard (not (is_blocked_name host)) (blocked private_name (some shown) (some host))

  pub check_allow_list :
      Option (List HostRule) → (host shown : Text) → Result EndpointError (Unit {0})
  check_allow_list none host shown = ok tt
  check_allow_list (some rules) host shown =
      guard (host_allowed host rules) (blocked not_allowlisted (some shown) (some host))

  -- The checks of assertSafeEndpoint on a parsed URL.
  unfoldable pub check_url :
      EndpointPolicy → List Text → Option (List HostRule) → Url → Result EndpointError Url
  check_url policy schemes allow_list parsed = do
    let shown = display_url parsed
    let host = canonical_host parsed.hostname
    guard (has schemes parsed.protocol) (blocked scheme (some shown) none)
    guard (text_eq parsed.username [] && text_eq parsed.password [])
        (blocked userinfo (some shown) none)
    guard (not (text_eq host [])) (blocked invalid_url none none)
    unless policy.allow_private (check_private (starts_with parsed.hostname (codes "[")) host shown)
    check_allow_list allow_list host shown
    ok parsed

  -- All that a run of the checks computes with.
  entry_check : Unit {0}
  unfolding host_rules host_rule host_of_entry authority_of trim to_lower_case starts_with text_eq
      includes parse_ipv6
  entry_check = tt

  url_check : Unit {0}
  unfolding canonical_host check_private check_allow_list is_blocked_ip is_blocked_name rule_allows
  url_check = tt

  unfoldable pub assert_safe_endpoint : Text → EndpointPolicy → Result EndpointError Url
  unfolding normalize_schemes normalize_allow_hosts check_url entry_check url_check
  assert_safe_endpoint url policy = do
    schemes ← normalize_schemes policy.schemes policy.allow_insecure
    allow_list ← normalize_allow_hosts policy.allow_hosts
    parsed ← or_throw (url_of url) (blocked invalid_url none none)
    check_url policy schemes allow_list parsed
