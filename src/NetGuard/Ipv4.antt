-- ===== src/NetGuard/Ipv4.antt =====
-- src/net-guard.js: IPv4 literals and the ranges that are not public.
pub mod Ranges
pub mod Literal
use vti_didcomm_js.Prelude.{
  ℕ, ◌+◌, ◌-◌, ◌*◌, ◌/◌, ◌^◌, Bool, true, false, Option, none, some, List, [], ◌∷◌, map, length,
  get_or, any, all, leb, ltb, ◌==◌, ◌&&◌, ◌||◌, not, if◌then◌else◌, ◌≤◌, ◌<◌,
}
use mathlib.Core.List.{foldl}
use Prim.Native.String.{String}
use vti_didcomm_js.Prelude.Maybe.{◌>>=◌}
use vti_didcomm_js.Prelude.Text.{Text, codes, split_at}

pub record V4 : Type 0 where
  pub a : ℕ
  pub b : ℕ
  pub c : ℕ
  pub d : ℕ

abbrev pub is_digit : ℕ → Bool
is_digit ch = leb b'0' ch && leb ch b'9'

-- Number(m[i]), for a text of digits
pub number : Text → ℕ
number s = foldl (λ n ch. n * 10 + (ch - b'0')) 0 s

-- `\d{1,3}`, and the loop's checks on the octet: no leading zero, at most 255
pub octet : Text → Option ℕ
unfolding number
octet s =
    if all is_digit s && (leb 1 (length s) && leb (length s) 3)
    then (if ltb 1 (length s) && get_or s 0 0 == b'0'
        then none
        else if ltb 255 (number s)
        then none
        else some (number s))
    else none

-- The four groups of the regular expression are what the dots separate.
octets : List Text → Option V4
octets (p ∷ q ∷ r ∷ s ∷ []) = do
  a ← octet p
  b ← octet q
  c ← octet r
  d ← octet s
  some (record { a = a; b = b; c = c; d = d })
octets parts = none

-- parseIpv4
unfoldable pub parse_ipv4 : Text → Option V4
unfolding octets octet split_at
parse_ipv4 s = octets (split_at b'.' s)

-- v4ToUint
abbrev pub v4_to_uint : V4 → ℕ
v4_to_uint v = v.a * 2 ^ 24 + v.b * 2 ^ 16 + v.c * 2 ^ 8 + v.d

-- V4_BLOCKED as it is written, and as it is after `map`.
abbrev nets : List (String × ℕ)
nets =
    ("0.0.0.0", 8)
    ∷ ("10.0.0.0", 8)
    ∷ ("100.64.0.0", 10)
    ∷ ("127.0.0.0", 8)
    ∷ ("169.254.0.0", 16)
    ∷ ("172.16.0.0", 12)
    ∷ ("192.0.0.0", 24)
    ∷ ("192.0.2.0", 24)
    ∷ ("192.168.0.0", 16)
    ∷ ("198.18.0.0", 15)
    ∷ ("198.51.100.0", 24)
    ∷ ("203.0.113.0", 24)
    ∷ ("224.0.0.0", 4)
    ∷ ("240.0.0.0", 4)
    ∷ []

net_number : Text → ℕ
unfolding parse_ipv4
net_number s = elim (parse_ipv4 s) [ none ↦ 0 | some v ↦ v4_to_uint v ]

blocked_nets : List (ℕ × ℕ)
unfolding net_number
blocked_nets = map (λ entry. (net_number (codes entry.0), entry.1)) nets

-- `n >>> (32 - prefix) === net >>> (32 - prefix)`
in_net : ℕ → ℕ × ℕ → Bool
in_net n (net, prefix) = n / 2 ^ (32 - prefix) == net / 2 ^ (32 - prefix)

-- v4Blocked
unfoldable pub v4_blocked : ℕ → Bool
unfolding blocked_nets in_net
v4_blocked n = any (in_net n) blocked_nets
