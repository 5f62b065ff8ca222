-- ===== src/Resolver/Backed.antt =====
-- What a cached answer of src/resolver.js is backed by.
use vti_didcomm_js.Prelude.{
  ℕ, ◌+◌, true, false, Option, none, some, List, [], ◌∷◌, ◌++◌, length, leb, ltb, Bool-cases, inl,
  inr, suc, All, ok, ◌≡◌, sym,
}
use mathlib.Core.Path.{subst}
use mathlib.Core.List.{Mem, mem-cons_of_mem}
use vti_didcomm_js.Prelude.Maybe.{some-injective}
use vti_didcomm_js.Prelude.Text.{Text, text_eq, text_eq_iff}
use vti_didcomm_js.Resolver.{
  Resolver, Cache, CacheEntry, lookup, remove, set, drop_expired, drop_oldest, is_pending,
  settle_pending, share, consult, cache_key, parse_method, raw_resolve, is_cacheable, is_uncached,
}
use vti_didcomm_js.Resolver.Runs.{Fact}

-- A DID whose method is cached.
pub record IsCachedDid (did : Text) : Type 0 where
  pub method : Text
  pub of_did : parse_method did ≡ ok method
  pub is_cached : is_uncached method ≡ false

-- The entry is what a resolution in the history gave for a DID with this key, with the time it lives.
pub record IsBacked (h : List Fact) (key : Text) (e : CacheEntry) : Type 0 where
  pub fact : Fact
  pub in_history : Mem fact h
  pub of_key : cache_key fact.did ≡ key
  pub resolved : raw_resolve fact.handlers fact.did ≡ ok e.result
  pub fit : is_cacheable e.result ≡ true
  pub lifetime : e.expires ≡ fact.time + fact.ttl
  pub of_method : IsCachedDid fact.did

abbrev pub AreBacked : List Fact → Cache → Type 0
AreBacked h cache = All (λ e. IsBacked h e.0 e.1) cache

pub later-AreBacked :
    (f : Fact) (h : List Fact) (cache : Cache) → AreBacked h cache → AreBacked (f ∷ h) cache
later-AreBacked f h [] b = tt
later-AreBacked f h (e ∷ cache) (first, b) = (
  record {
    fact = first.fact;
    in_history = mem-cons_of_mem f first.in_history;
    of_key = first.of_key;
    resolved = first.resolved;
    fit = first.fit;
    lifetime = first.lifetime;
    of_method = first.of_method;
  },
  later-AreBacked f h cache b,
)

pub lookup-IsBacked :
    (h : List Fact) (cache : Cache) (key : Text) (hit : CacheEntry)
    → AreBacked h cache
    → lookup cache key ≡ some hit
    → IsBacked h key hit
unfolding lookup
lookup-IsBacked h [] key hit b e = cc
lookup-IsBacked h (f ∷ cache) key hit (first, b) e = elim (Bool-cases (text_eq f.0 key)) [
  | inl same ↦
      subst (λ k. IsBacked h k hit) ((text_eq_iff f.0 key).0 same)
        (subst (λ c. IsBacked h f.0 c) (some-injective (rw same at e)) first)
  | inr other ↦ lookup-IsBacked h cache key hit b (rw other at e)
]

pub remove-AreBacked :
    (h : List Fact) (cache : Cache) (key : Text)
    → AreBacked h cache
    → AreBacked h (remove cache key)
unfolding remove
remove-AreBacked h [] key b = tt
remove-AreBacked h (e ∷ cache) key (first, b) = elim (Bool-cases (text_eq e.0 key)) [
  | inl gone ↦ rw gone (remove-AreBacked h cache key b)
  | inr stays ↦ rw stays (first, remove-AreBacked h cache key b)
]

append-AreBacked :
    (h : List Fact) (cache : Cache) (key : Text) (e : CacheEntry)
    → AreBacked h cache
    → IsBacked h key e
    → AreBacked h (cache ++ ((key, e) ∷ []))
append-AreBacked h [] key e b new = (new, tt)
append-AreBacked h (f ∷ cache) key e (first, b) new = (first, append-AreBacked h cache key e b new)

pub set-AreBacked :
    (h : List Fact) (cache : Cache) (key : Text) (e : CacheEntry)
    → AreBacked h cache
    → IsBacked h key e
    → AreBacked h (set cache key e)
unfolding set
set-AreBacked h [] key e b new = (new, tt)
set-AreBacked h (f ∷ cache) key e (first, b) new = elim (Bool-cases (text_eq f.0 key)) [
  | inl here ↦ rw here (subst (λ k. IsBacked h k e) (sym ((text_eq_iff f.0 key).0 here)) new, b)
  | inr stays ↦ rw stays (first, set-AreBacked h cache key e b new)
]

pub drop_expired-AreBacked :
    (h : List Fact) (limit now kept : ℕ) (cache : Cache)
    → AreBacked h cache
    → AreBacked h (drop_expired limit now kept cache)
unfolding drop_expired
drop_expired-AreBacked h limit now kept [] b = tt
drop_expired-AreBacked h limit now kept (e ∷ cache) (first, b) =
    elim (Bool-cases (ltb (kept + length (e ∷ cache)) limit)) [
      | inl room ↦ rw room (first, b)
      | inr full ↦ elim (Bool-cases (leb e.1.expires now)) [
        | inl old ↦ rw (full, old) (drop_expired-AreBacked h limit now kept cache b)
        | inr live ↦ rw (full, live) (first, drop_expired-AreBacked h limit now (suc kept) cache b)
      ]
    ]

pub drop_oldest-AreBacked :
    (h : List Fact) (limit : ℕ) (cache : Cache)
    → AreBacked h cache
    → AreBacked h (drop_oldest limit cache)
unfolding drop_oldest
drop_oldest-AreBacked h limit [] b = tt
drop_oldest-AreBacked h limit (e ∷ cache) (first, b) =
    elim (Bool-cases (leb limit (length (e ∷ cache)))) [
      | inl full ↦ rw full (drop_oldest-AreBacked h limit cache b)
      | inr room ↦ rw room (first, b)
    ]

pub pending-IsCachedDid :
    (inflight : List Text) (did : Text)
    → All IsCachedDid inflight
    → is_pending inflight did ≡ true
    → IsCachedDid did
unfolding is_pending
pending-IsCachedDid [] did a h = cc
pending-IsCachedDid (d ∷ inflight) did (first, a) h = elim (Bool-cases (text_eq d did)) [
  | inl same ↦ subst IsCachedDid ((text_eq_iff d did).0 same) first
  | inr other ↦ pending-IsCachedDid inflight did a (rw other at h)
]

pub settle-IsCachedDid :
    (inflight : List Text) (did : Text)
    → All IsCachedDid inflight
    → All IsCachedDid (settle_pending inflight did)
unfolding settle_pending
settle-IsCachedDid [] did a = tt
settle-IsCachedDid (d ∷ inflight) did (first, a) = elim (Bool-cases (text_eq d did)) [
  | inl gone ↦ rw gone (settle-IsCachedDid inflight did a)
  | inr stays ↦ rw stays (first, settle-IsCachedDid inflight did a)
]

append-IsCachedDid :
    (inflight : List Text) (did : Text)
    → All IsCachedDid inflight
    → IsCachedDid did
    → All IsCachedDid (inflight ++ (did ∷ []))
append-IsCachedDid [] did a new = (new, tt)
append-IsCachedDid (d ∷ inflight) did (first, a) new =
    (first, append-IsCachedDid inflight did a new)

-- Every entry is backed, and every DID in flight has a method that is cached.
pub record IsSound (h : List Fact) (s : Resolver) : Type 0 where
  pub entries : AreBacked h s.cache
  pub pending : All IsCachedDid s.inflight

share-IsSound :
    (h : List Fact) (s : Resolver) (did : Text)
    → IsCachedDid did
    → IsSound h s
    → IsSound h (share s did).0
unfolding share
share-IsSound h s did new c = elim (Bool-cases (is_pending s.inflight did)) [
  | inl waits ↦ rw waits c
  | inr fresh ↦
      rw fresh
        (record { entries = c.entries; pending = append-IsCachedDid s.inflight did c.pending new })
]

pub consult-IsSound :
    (h : List Fact) (s : Resolver) (did : Text) (now : ℕ) (found : Option CacheEntry)
    → lookup s.cache (cache_key did) ≡ found
    → IsCachedDid did
    → IsSound h s
    → IsSound h (consult s did now found).0
unfolding consult
consult-IsSound h s did now none e new c = share-IsSound h s did new c
consult-IsSound h s did now (some hit) e new c =
    let key = cache_key did in
    let without = remove-AreBacked h s.cache key c.entries in
    elim (Bool-cases (ltb now hit.expires)) [
      | inl live ↦ rw live (record {
        entries =
            append-AreBacked h (remove s.cache key) key hit without
              (lookup-IsBacked h s.cache key hit c.entries e);
        pending = c.pending;
      })
      | inr old ↦ rw old (
          share-IsSound h (record s { cache = remove s.cache key }) did new
            (record { entries = without; pending = c.pending }))
    ]
