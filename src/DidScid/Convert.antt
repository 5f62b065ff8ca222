-- ===== src/DidScid/Convert.antt =====
-- src/did-scid.js: `scidToWebvhDid`, `webvhToScidDidUrl`, `toScidDidDocument` and `resolveWith`, over the
-- did:webvh resolution as a parameter.
pub mod Scid
use vti_didcomm_js.Prelude.{
  ℕ, zero, suc, ◌+◌, ◌*◌, ◌-◌, Bool, true, false, Option, none, some, List, [], ◌∷◌, ◌++◌, length,
  drop, take, reverse, map, any, all, not, is_some, ◌&&◌, ◌||◌, ◌==◌, leb, if◌then◌else◌, Result,
  ok, err, guard, or_throw,
}
use vti_didcomm_js.Prelude.Maybe.{◌>>=◌, ◌>>◌, require}
use vti_didcomm_js.Prelude.Text.{Text, codes, text_eq, starts_with, index_of, includes, split_at}
use vti_didcomm_js.Json.{
  Json, Items, Members, null, boolean, number, string, array, object, nil, cons, end, member, get,
  as_string, is_truthy, is_plain,
}
use vti_didcomm_js.DidScid.{prefix, before, from, scid_src, scid_identity}
use vti_didcomm_js.DidScid.Book.{Book, BookError, Version, accept, source}

abbrev pub vh_prefix : Text
vh_prefix = codes "did:scid:vh:1:"

abbrev pub webvh_prefix : Text
webvh_prefix = codes "did:webvh:"

-- `/[…]/.test`
unfoldable pub has_any : Text → Text → Bool
has_any characters s = any (λ c. any (λ d. d == c) characters) s

-- `.replace(/\/+$/, "")`
unfoldable pub drop_slashes : Text → Text
drop_slashes [] = []
drop_slashes (c ∷ s) = let rest = drop_slashes s in if c == b'/' then rest else c ∷ s

unfoldable pub trim_slashes : Text → Text
trim_slashes s = reverse (drop_slashes (reverse s))

-- `.replaceAll`, of one character by another
unfoldable pub replace_all : ℕ → ℕ → Text → Text
replace_all a b s = map (λ c. if c == a then b else c) s

unfoldable pub drop_scheme : Text → Text
drop_scheme src =
    if starts_with src (codes "https://")
    then drop 8 src
    else if starts_with src (codes "http://")
    then drop 7 src
    else src

-- `/^\+?\d+$/.test(port)` and `Number(port) <= 65535`
unfoldable pub decimal : ℕ → Text → ℕ
decimal value [] = value
decimal value (c ∷ s) = decimal (value * 10 + (c - b'0')) s

unfoldable pub are_digits : Text → Bool
are_digits [] = false
are_digits (c ∷ s) = all (λ d. leb b'0' d && leb d b'9') (c ∷ s)

unfoldable pub digits_of_port : Text → Text
digits_of_port [] = []
digits_of_port (c ∷ port) = if c == b'+' then port else c ∷ port

unfoldable pub is_port : Text → Bool
is_port port = let digits = digits_of_port port in are_digits digits && leb (decimal 0 digits) 65535

-- The host with an encoded port.
unfoldable pub encode_port : Text → Option Text
encode_port host =
    if includes host (codes ":")
    then (let port = drop 1 (from b':' host) in
        (require (is_port port) >> some (before b':' host ++ (codes "%3A" ++ port))))
    else some host

unfoldable pub encode_path : Text → Option Text
encode_path [] = some []
encode_path (c ∷ path) =
    (require (not (any (λ segment. text_eq segment []) (split_at b'/' (c ∷ path))))
      >> some (b':' ∷ replace_all b'/' b':' (c ∷ path)))

-- The host and path of a `src`, with the path's `/` written as `:`.
unfoldable pub location : Text → Option Text
location src = do
  let bare = trim_slashes (drop_scheme src)
  host ← encode_port (before b'/' bare)
  require (not (text_eq host [] || starts_with host (codes "%")))
  path ← encode_path (trim_slashes (drop 1 (from b'/' bare)))
  some (host ++ path)

-- scidToWebvhDid
unfoldable pub scid_to_webvh_did : Text → Option Text
scid_to_webvh_did id = do
  require (starts_with id vh_prefix)
  let rest = before b'#' (drop 14 id)
  marker ← index_of rest (codes "?src=")
  let scid = take marker rest
  let src = drop (marker + 5) rest
  require (not (text_eq scid [] || (has_any (codes ":/?") scid || has_any (codes "&?") src)))
  place ← location src
  some (webvh_prefix ++ (scid ++ (b':' ∷ (place ++ from b'#' (drop 14 id)))))

-- webvhToScidDidUrl
unfoldable pub webvh_to_scid_did_url : Text → Option Text
webvh_to_scid_did_url webvh_did = do
  require (starts_with webvh_did webvh_prefix)
  let rest = drop 10 webvh_did
  require (includes rest (codes ":"))
  some (
      vh_prefix
      ++ (before b':' rest ++ (codes "?src=" ++ replace_all b':' b'/' (drop 1 (from b':' rest)))))

-- `rewrite` of toScidDidDocument
unfoldable pub rewrite_text : (webvh_did scid_did : Text) → Text → Text
rewrite_text webvh_did scid_did s =
    if text_eq s webvh_did
    then scid_did
    else if starts_with s (webvh_did ++ codes "#")
    then scid_did ++ drop (length webvh_did) s
    else s

unfoldable mutual
  pub rewrite : (webvh_did scid_did : Text) → Json → Json
  rewrite webvh_did scid_did null = null
  rewrite webvh_did scid_did (boolean b) = boolean b
  rewrite webvh_did scid_did (number n) = number n
  rewrite webvh_did scid_did (string s) = string (rewrite_text webvh_did scid_did s)
  rewrite webvh_did scid_did (array xs) = array (rewrite_items webvh_did scid_did xs)
  rewrite webvh_did scid_did (object ms) = object (rewrite_members webvh_did scid_did ms)

  pub rewrite_items : (webvh_did scid_did : Text) → Items → Items
  rewrite_items webvh_did scid_did nil = nil
  rewrite_items webvh_did scid_did (cons x xs) =
      cons (rewrite webvh_did scid_did x) (rewrite_items webvh_did scid_did xs)

  pub rewrite_members : (webvh_did scid_did : Text) → Members → Members
  rewrite_members webvh_did scid_did end = end
  rewrite_members webvh_did scid_did (member n v ms) =
      member n (rewrite webvh_did scid_did v) (rewrite_members webvh_did scid_did ms)
