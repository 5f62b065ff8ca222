-- ===== src/Resolver.antt =====
-- src/resolver.js: the cache of `createResolver`, a Map in insertion order as a list, and the resolutions in
-- flight. What `Date.now()` gives is the argument `now`. A handler is a parameter, as it stands at
-- the time of the resolution; the source book that did:scid takes is in DidScid/Book.
pub mod Runs
pub mod Distinct
pub mod Bounded
pub mod Consistent
pub mod Backed
pub mod Answers
mod Examples
use vti_didcomm_js.Prelude.{
  ℕ, suc, ◌+◌, Bool, true, false, Option, none, some, List, [], ◌∷◌, ◌++◌, length, take, drop,
  is_some, not, ◌&&◌, ◌||◌, ◌==◌, leb, ltb, if◌then◌else◌, Result, ok, err, guard, or_throw, ◌>>=◌,
  ◌>>◌,
}
use vti_didcomm_js.Prelude.Text.{Text, codes, text_eq, starts_with, index_of}
use vti_didcomm_js.Json.{Json, get, is_truthy}
use vti_didcomm_js.DidScid.{strip_scid_src}

pub data ResolverError : Type 0 where
  not_a_did : Text → ResolverError
  no_identifier : Text → ResolverError
  no_handler : (method : Text) → ResolverError
  failed : (reason : Text) → ResolverError

-- The handler of a method: `resolve(did)`, which may throw.
abbrev pub Handlers : Type 0
Handlers = (method : Text) → Option ((did : Text) → Result ResolverError Json)

pub record CacheEntry : Type 0 where
  pub expires : ℕ
  pub result : Json

abbrev pub Cache : Type 0
Cache = List (Text × CacheEntry)

pub record Resolver : Type 0 where
  pub cache : Cache
  pub inflight : List Text
  pub ttl : ℕ

-- Where the answer to a call of `resolve` comes from: a resolution of its own that leaves the cache alone, the
-- cache, a resolution in flight, or one that the call starts.
pub data Answer : Type 0 where
  direct joined started : Answer
  cached : Json → Answer

-- parseMethod
unfoldable pub parse_method : Text → Result ResolverError Text
parse_method did = do
  guard (starts_with did (codes "did:")) (not_a_did did)
  colon ← or_throw (index_of (drop 4 did) (codes ":")) (no_identifier did)
  ok (take colon (drop 4 did))

-- rawResolve
unfoldable pub raw_resolve : Handlers → Text → Result ResolverError Json
raw_resolve handlers did = do
  method ← parse_method did
  handler ← or_throw (handlers method) (no_handler method)
  handler did

-- isCacheable
unfoldable pub metadata_error : Option Json → Option Json
metadata_error none = none
metadata_error (some metadata) = get metadata (codes "error")

unfoldable pub is_cacheable : Json → Bool
is_cacheable result =
    is_truthy (some result)
    && (is_truthy (get result (codes "didDocument"))
        && not (is_truthy (metadata_error (get result (codes "didResolutionMetadata")))))

-- UNCACHED_METHODS.has
unfoldable pub is_uncached : Text → Bool
is_uncached method = text_eq method (codes "key") || text_eq method (codes "peer")

-- cacheKey
unfoldable pub cache_key : Text → Text
cache_key did = strip_scid_src did

-- cache.get, cache.delete and cache.set, which keeps the place of a key that is there
unfoldable pub lookup : Cache → Text → Option CacheEntry
lookup [] key = none
lookup (e ∷ cache) key = let later = lookup cache key in if text_eq e.0 key then some e.1 else later

unfoldable pub remove : Cache → Text → Cache
remove [] key = []
remove (e ∷ cache) key = let rest = remove cache key in if text_eq e.0 key then rest else e ∷ rest

unfoldable pub set : Cache → Text → CacheEntry → Cache
set [] key entry = (key, entry) ∷ []
set (e ∷ cache) key entry =
    let rest = set cache key entry in if text_eq e.0 key then (e.0, entry) ∷ cache else e ∷ rest

-- The two loops of evictFor; `kept` entries stand before those that are left.
unfoldable pub drop_expired : (limit now kept : ℕ) → Cache → Cache
drop_expired limit now kept [] = []
drop_expired limit now kept (e ∷ cache) =
    let without = drop_expired limit now kept cache in
    let further = drop_expired limit now (suc kept) cache in
    if ltb (kept + length (e ∷ cache)) limit
    then e ∷ cache
    else if leb e.1.expires now
    then without
    else e ∷ further

unfoldable pub drop_oldest : (limit : ℕ) → Cache → Cache
drop_oldest limit [] = []
drop_oldest limit (e ∷ cache) =
    let rest = drop_oldest limit cache in if leb limit (length (e ∷ cache)) then rest else e ∷ cache

unfoldable pub evict_for : (limit now : ℕ) → Cache → Cache
evict_for limit now cache = drop_oldest limit (drop_expired limit now 0 cache)

-- store
unfoldable pub store : (limit now ttl : ℕ) → Cache → Text → Json → Cache
store limit now ttl cache key result =
    set (evict_for limit now cache) key (record { expires = now + ttl; result = result })

-- inflight.has and inflight.delete
unfoldable pub is_pending : List Text → Text → Bool
is_pending [] did = false
is_pending (d ∷ inflight) did = let later = is_pending inflight did in text_eq d did || later

unfoldable pub settle_pending : List Text → Text → List Text
settle_pending [] did = []
settle_pending (d ∷ inflight) did =
    let rest = settle_pending inflight did in if text_eq d did then rest else d ∷ rest

-- The second half of `resolve`, on a miss.
unfoldable pub share : Resolver → Text → Resolver × Answer
share s did =
    if is_pending s.inflight did
    then (s, joined)
    else (record s { inflight = s.inflight ++ (did ∷ []) }, started)

-- The part of `resolve` that reads the cache.
unfoldable pub consult : Resolver → (did : Text) (now : ℕ) → Option CacheEntry → Resolver × Answer
consult s did now none = share s did
consult s did now (some hit) =
    let without = remove s.cache (cache_key did) in
    if ltb now hit.expires
    then (record s { cache = without ++ ((cache_key did, hit) ∷ []) }, cached hit.result)
    else share (record s { cache = without }) did

-- resolve; `historical` says that the call has a `versionTime`
unfoldable pub resolve :
    (limit : ℕ)
    → Resolver
    → (did : Text) (historical : Bool) (now : ℕ) → Result ResolverError (Resolver × Answer)
resolve limit s did historical now = do
  method ← parse_method did
  ok (
      if historical || (s.ttl == 0 || (limit == 0 || is_uncached method))
      then (s, direct)
      else consult s did now (lookup s.cache (cache_key did)))

-- What the resolution in flight does when it settles.
unfoldable pub settled_cache : (limit now : ℕ) → Resolver → Text → Result ResolverError Json → Cache
settled_cache limit now s did (err e) = s.cache
settled_cache limit now s did (ok result) =
    if is_cacheable result then store limit now s.ttl s.cache (cache_key did) result else s.cache

unfoldable pub settle : (limit now : ℕ) → Resolver → Text → Result ResolverError Json → Resolver
settle limit now s did outcome = record s {
  cache = settled_cache limit now s did outcome;
  inflight = settle_pending s.inflight did;
}

-- clearCache, invalidate, setCacheTtl and size
unfoldable pub clear_cache : Resolver → Resolver
clear_cache s = record s { cache = [] }

unfoldable pub invalidate : Resolver → Text → Resolver
invalidate s did = record s { cache = remove s.cache (cache_key did) }

unfoldable pub set_cache_ttl : Resolver → ℕ → Resolver
set_cache_ttl s ms = record {
  cache = if ms == 0 then [] else s.cache;
  inflight = s.inflight;
  ttl = ms;
}

unfoldable pub size : Resolver → ℕ
size s = length s.cache

-- createResolver
abbrev pub create_resolver : (ttl : ℕ) → Resolver
create_resolver ttl = record { cache = []; inflight = []; ttl = ttl }
