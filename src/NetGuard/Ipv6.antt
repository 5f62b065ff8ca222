-- ===== src/NetGuard/Ipv6.antt =====
-- src/net-guard.js: IPv6 literals, the addresses that embed an IPv4 address, and `isBlockedIp`.
pub mod Blocked
pub mod Groups
use vti_didcomm_js.Prelude.{
  ℕ, ◌+◌, ◌-◌, ◌*◌, ◌/◌, ◌%◌, ◌^◌, Bool, true, false, Option, none, some, List, [], ◌∷◌, ◌++◌,
  length, get_or, take, drop, replicate, any, all, leb, ltb, ◌==◌, ◌&&◌, ◌||◌, not, if◌then◌else◌,
  is_some, ◌≡◌, ap,
}
use mathlib.Core.List.{foldl}
use mathlib.Core.Option
use vti_didcomm_js.Prelude.Maybe.{◌>>=◌, ◌>>◌, require}
use vti_didcomm_js.Prelude.Text.{
  Text, codes, split_at, starts_with, ends_with, index_of, last_index_of, includes,
}
use vti_didcomm_js.NetGuard.Ipv4.{V4, is_digit, parse_ipv4, v4_to_uint, v4_blocked}

abbrev pub is_hex : ℕ → Bool
is_hex ch = is_digit ch || (leb b'A' ch && leb ch b'F') || (leb b'a' ch && leb ch b'f')

abbrev pub hex_value : ℕ → ℕ
hex_value ch =
    if leb b'a' ch then ch - b'a' + 10 else if leb b'A' ch then ch - b'A' + 10 else ch - b'0'

-- `/^[0-9A-Fa-f]{1,4}$/` and parseInt(piece, 16)
unfoldable pub group : Text → Option ℕ
group piece =
    if all is_hex piece && (leb 1 (length piece) && leb (length piece) 4)
    then some (foldl (λ n ch. n * 16 + hex_value ch) 0 piece)
    else none

pub group_list : List Text → Option (List ℕ)
group_list [] = some []
group_list (piece ∷ pieces) = do g ← group piece; rest ← group_list pieces; some (g ∷ rest)

-- The local function `groups`.
pub groups : Text → Option (List ℕ)
groups [] = some []
groups (c ∷ s) = group_list (split_at b':' (c ∷ s))

-- The last two groups of a v4 tail, and the text before it.
abbrev pub v4_tail : V4 → List ℕ
v4_tail v = (v.a * 2 ^ 8 + v.b) ∷ (v.c * 2 ^ 8 + v.d) ∷ []

pub cut_tail : Text → ℕ → Option (List ℕ × Text)
cut_tail s last_colon =
    if includes s (codes ".")
    then (do
      v4 ← parse_ipv4 (drop (last_colon + 1) s)
      let s' = take (last_colon + 1) s
      some (v4_tail v4, (if ends_with s' (codes "::") then s' else take (length s' - 1) s')))
    else some ([], s)

-- Without a gap every group is written.
no_gap : List ℕ → ℕ → Text → Option (List ℕ)
no_gap tail want s = do
  all_groups ← groups s
  require (length all_groups == want)
  some (all_groups ++ tail)

-- One gap stands for as many zeros as are missing, at least one.
fill_gap : List ℕ → ℕ → Text → ℕ → Option (List ℕ)
fill_gap tail want s gap = do
  last ← last_index_of s (codes "::")
  require (gap == last)
  head ← groups (take gap s)
  rest ← groups (drop (gap + 2) s)
  require (ltb (length head + length rest) want)
  some (head ++ (replicate (want - length head - length rest) 0 ++ (rest ++ tail)))

at_gap : List ℕ → ℕ → Text → Option ℕ → Option (List ℕ)
at_gap tail want s none = no_gap tail want s
at_gap tail want s (some gap) = fill_gap tail want s gap

-- The part from `const want` on.
pub expand : List ℕ × Text → Option (List ℕ)
unfolding at_gap no_gap fill_gap
expand (tail, s) = at_gap tail (8 - length tail) s (index_of s (codes "::"))

abbrev pub unbracket : Text → Text
unbracket s =
    if starts_with s (codes "[") && ends_with s (codes "]")
    then take (length s - 2) (drop 1 s)
    else s

-- parseIpv6
unfoldable pub parse_ipv6 : Text → Option (List ℕ)
unfolding starts_with ends_with index_of last_index_of includes cut_tail expand groups group_list
    group split_at parse_ipv4
parse_ipv6 input = do
  let s = unbracket input
  require (leb 1 (length s) && all (λ ch. is_hex ch || ch == b':' || ch == b'.') s)
  last_colon ← last_index_of s (codes ":")
  parts ← cut_tail s last_colon
  expand parts

abbrev pub zeros : List ℕ → (from to : ℕ) → Bool
zeros g from to = all (λ x. x == 0) (take (to - from) (drop from g))

-- v6Blocked
unfoldable pub v6_blocked : List ℕ → Bool
v6_blocked g =
    let at = λ (i : ℕ). get_or g i 0 in
    let embedded = λ (hi lo : ℕ). v4_blocked (hi * 2 ^ 16 + lo) in
    if zeros g 0 6
    then embedded (at 6) (at 7)
    else if zeros g 0 5 && at 5 == 0xffff
    then embedded (at 6) (at 7)
    else if zeros g 0 4 && (at 4 == 0xffff && at 5 == 0)
    then embedded (at 6) (at 7)
    else if at 0 == 0x64 && (at 1 == 0xff9b && zeros g 2 6)
    then embedded (at 6) (at 7)
    else if at 0 == 0x64 && (at 1 == 0xff9b && at 2 == 1)
    then true
    else if at 0 == 0x2002
    then embedded (at 1) (at 2)
    else if at 0 == 0x2001 && ltb (at 1) 0x200
    then true
    else if at 0 == 0x2001 && at 1 == 0xdb8
    then true
    else if at 0 == 0x3fff && at 1 / 2 ^ 12 % 16 == 0
    then true
    else if not (at 0 / 2 ^ 13 % 8 == 1)
    then true
    else false

judge_v6 : Option (List ℕ) → Bool
judge_v6 (some v6) = v6_blocked v6
judge_v6 none = true

judge : Option V4 → Text → Bool
judge (some v4) ip = v4_blocked (v4_to_uint v4)
judge none ip = judge_v6 (parse_ipv6 ip)

-- isBlockedIp
unfoldable pub is_blocked_ip : Text → Bool
unfolding parse_ipv4 parse_ipv6 v4_blocked v6_blocked judge judge_v6
is_blocked_ip ip = judge (parse_ipv4 ip) ip

pub is_blocked_ip-v4 :
    (host : Text) (v : V4)
    → parse_ipv4 host ≡ some v
    → is_blocked_ip host ≡ v4_blocked (v4_to_uint v)
unfolding is_blocked_ip
is_blocked_ip-v4 host v e = ap (λ o. judge o host) e
