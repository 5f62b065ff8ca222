-- ===== src/NetGuard/Examples.antt =====
-- Runs of net-guard.js, and its theorems at concrete inputs.
use vti_didcomm_js.Prelude.{
  refl, ◌≡◌, ◌≢◌, ◌↔◌, ◌⊎◌, true, false, some, none, Option, [], ◌∷◌, ◌++◌, List, ok, Result, All,
  arith, ℕ, ◌<◌, ◌≤◌, if◌then◌else◌,
}
use vti_didcomm_js.Prelude.Text.{Text, codes, text_eq}
use vti_didcomm_js.NetGuard.Ipv4.{V4, parse_ipv4, v4_to_uint, v4_blocked}
use vti_didcomm_js.NetGuard.Ipv4.Ranges.{in_non_public_range, v4_blocked-ranges}
use vti_didcomm_js.NetGuard.Ipv4.Literal.{dotted_quad, parse_ipv4-dotted_quad}
use vti_didcomm_js.NetGuard.Ipv6.{is_blocked_ip, parse_ipv6, v6_blocked}
use vti_didcomm_js.NetGuard.Ipv6.Blocked.{IsPassing, v6_blocked-false_iff}
use vti_didcomm_js.NetGuard.Policy.{
  Url, EndpointPolicy, assert_safe_endpoint, normalize_schemes, normalize_allow_hosts,
  canonical_host, HostRule, suffix, rule_allows,
}
use vti_didcomm_js.NetGuard.Policy.Safe.{
  IsAllowed, assert_safe_endpoint-IsAllowed, assert_safe_endpoint-strict,
}
use vti_didcomm_js.NetGuard.Policy.Hosts.{rule_allows-suffix_iff}
use vti_didcomm_js.NetGuard.Fetch.{
  Input, address, target, Init, string, opaque, check_target, Request, Response, net_guarded_fetch,
  Address, guarded_lookup, non_public, all_addresses,
}
use vti_didcomm_js.NetGuard.Fetch.Guarded.{
  IsVetted, IsPublic, net_guarded_fetch-IsVetted, net_guarded_fetch-not_redirect,
  given-guarded_lookup,
}

abbrev google_v4 : V4
google_v4 = record { a = 8; b = 8; c = 8; d = 8 }

abbrev loop_v4 : V4
loop_v4 = record { a = 127; b = 0; c = 0; d = 1 }

abbrev local_net_v4 : V4
local_net_v4 = record { a = 10; b = 0; c = 200; d = 255 }

ips :
    (is_blocked_ip (codes "127.0.0.1") ≡ true)
    × (is_blocked_ip (codes "8.8.8.8") ≡ false)
    × (is_blocked_ip (codes "0177.0.0.1") ≡ true)
    × (is_blocked_ip (codes "[::ffff:7f00:1]") ≡ true)
    × (is_blocked_ip (codes "::ffff:8.8.8.8") ≡ false)
    × (is_blocked_ip (codes "2606:4700::1111") ≡ false)
    × (is_blocked_ip (codes "fe80::1%eth0") ≡ true)
    × (parse_ipv6 (codes "1:2:3:4:5:6:1.2.3.4") ≡ some (1 ∷ 2 ∷ 3 ∷ 4 ∷ 5 ∷ 6 ∷ 258 ∷ 772 ∷ []))
    × (parse_ipv6 (codes ":::") ≡ none)
unfolding is_blocked_ip
ips = (refl, refl, refl, refl, refl, refl, refl, refl, refl)

-- A URL parser that reads one endpoint.
abbrev endpoint : Url
endpoint = record {
  protocol = codes "https:";
  username = [];
  password = [];
  hostname = codes "8.8.8.8";
  port = [];
  host = codes "8.8.8.8";
  pathname = codes "/dns";
}

abbrev read_url : Text → Option Url
read_url s = if text_eq s (codes "https://8.8.8.8/dns") then some endpoint else none

abbrev default_policy : EndpointPolicy
default_policy = record {
  schemes = none;
  allow_insecure = false;
  allow_private = false;
  allow_hosts = none;
}

accepted : assert_safe_endpoint read_url (codes "https://8.8.8.8/dns") default_policy ≡ ok endpoint
unfolding assert_safe_endpoint text_eq
accepted = refl

google : parse_ipv4 (canonical_host endpoint.hostname) ≡ some google_v4
unfolding parse_ipv4 canonical_host
google = refl

assert_safe_endpoint-IsAllowed_example :
    (read_url (codes "https://8.8.8.8/dns") ≡ some endpoint)
    × ((schemes : List Text) × (allow_list : Option (List HostRule)) × (normalize_schemes none false
          ≡ ok schemes)
        × (normalize_allow_hosts read_url none ≡ ok allow_list)
        × IsAllowed default_policy schemes allow_list endpoint)
assert_safe_endpoint-IsAllowed_example =
    assert_safe_endpoint-IsAllowed read_url (codes "https://8.8.8.8/dns") default_policy endpoint
      accepted

assert_safe_endpoint-strict_example :
    ((codes "https:" ≡ codes "https:") ⊎ (codes "https:" ≡ codes "wss:"))
    × (in_non_public_range (v4_to_uint google_v4) ≡ false)
assert_safe_endpoint-strict_example =
    assert_safe_endpoint-strict read_url (codes "https://8.8.8.8/dns") default_policy endpoint
      google_v4 refl refl refl accepted google

abbrev answer : Request → Result ℕ Response
answer request = ok (record { kind = codes "basic"; status = 200 })

abbrev input : Input
input = address (codes "https://8.8.8.8/dns")

-- A caller that asks for redirects to be followed.
abbrev following : Option Init
following = some (
    (codes "method", string (codes "POST"))
    ∷ (codes "redirect", string (codes "follow"))
    ∷ (codes "signal", opaque 1)
    ∷ [])

request-manual :
    (net_guarded_fetch read_url answer default_policy input following).0
    ≡ record {
      input = input;
      init =
          (codes "method", string (codes "POST"))
          ∷ (codes "redirect", string (codes "manual"))
          ∷ (codes "signal", opaque 1)
          ∷ [];
    }
      ∷ []
unfolding net_guarded_fetch check_target target text_eq
request-manual = refl

net_guarded_fetch-IsVetted_example :
    All
      (IsVetted read_url default_policy input following)
      (net_guarded_fetch read_url answer default_policy input following).0
net_guarded_fetch-IsVetted_example =
    net_guarded_fetch-IsVetted read_url answer default_policy input following

answered :
    (net_guarded_fetch read_url answer default_policy input following).1
    ≡ ok (record { kind = codes "basic"; status = 200 })
unfolding net_guarded_fetch check_target target text_eq
answered = refl

net_guarded_fetch-not_redirect_example :
    (codes "basic" ≢ codes "opaqueredirect") × ((200 < 300) ⊎ (400 ≤ 200))
net_guarded_fetch-not_redirect_example =
    net_guarded_fetch-not_redirect read_url answer default_policy input following
      (record { kind = codes "basic"; status = 200 }) answered

abbrev rebinding : Text → Result ℕ (List Address)
rebinding name = ok (
    record { address = codes "8.8.8.8"; family = 4 }
    ∷ record { address = codes "127.0.0.1"; family = 4 }
    ∷ [])

rebinding-refused :
    guarded_lookup rebinding false (codes "example.com") true
    ≡ non_public (record { address = codes "127.0.0.1"; family = 4 })
unfolding guarded_lookup is_blocked_ip
rebinding-refused = refl

abbrev public_addresses : List Address
public_addresses =
    record { address = codes "8.8.8.8"; family = 4 }
    ∷ record { address = codes "2606:4700::1111"; family = 6 }
    ∷ []

abbrev resolving : Text → Result ℕ (List Address)
resolving name = ok public_addresses

resolving-given :
    guarded_lookup resolving false (codes "example.com") true ≡ all_addresses public_addresses
unfolding guarded_lookup is_blocked_ip
resolving-given = refl

given-guarded_lookup_example : All IsPublic public_addresses
unfolding guarded_lookup is_blocked_ip
given-guarded_lookup_example = given-guarded_lookup resolving (codes "example.com") true

v4_blocked-ranges_example : v4_blocked 0xc0a80001 ≡ in_non_public_range 0xc0a80001
v4_blocked-ranges_example = v4_blocked-ranges 0xc0a80001

loopback : parse_ipv4 (codes "127.0.0.1") ≡ some loop_v4
unfolding parse_ipv4
loopback = refl

parse_ipv4-dotted_quad_example : parse_ipv4 (dotted_quad local_net_v4) ≡ some local_net_v4
parse_ipv4-dotted_quad_example = parse_ipv4-dotted_quad local_net_v4 (omega arith)

public_6to4 : v6_blocked (0x2002 ∷ 0x808 ∷ 0x808 ∷ 0 ∷ 0 ∷ 0 ∷ 0 ∷ 1 ∷ []) ≡ false
unfolding v6_blocked v4_blocked
public_6to4 = refl

v6_blocked-false_iff_example :
    (v6_blocked (0x2002 ∷ 0x808 ∷ 0x808 ∷ 0 ∷ 0 ∷ 0 ∷ 0 ∷ 1 ∷ []) ≡ false)
    ↔ IsPassing 0x2002 0x808 0x808 0 0 0 0 1
v6_blocked-false_iff_example = v6_blocked-false_iff 0x2002 0x808 0x808 0 0 0 0 1

compressed : parse_ipv6 (codes "2001:db8::1") ≡ some (0x2001 ∷ 0xdb8 ∷ 0 ∷ 0 ∷ 0 ∷ 0 ∷ 0 ∷ 1 ∷ [])
unfolding parse_ipv6
compressed = refl

rule_allows-suffix_iff_example :
    (rule_allows (codes "a.example.com") (suffix (codes ".example.com")) ≡ true)
    ↔ ((q : Text) × (q ≢ []) × (codes "a.example.com" ≡ q ++ codes ".example.com"))
rule_allows-suffix_iff_example =
    rule_allows-suffix_iff (codes "a.example.com") (codes ".example.com")
