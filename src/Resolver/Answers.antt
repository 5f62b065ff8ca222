-- ===== src/Resolver/Answers.antt =====
-- Which answers src/resolver.js takes from its cache.
use vti_didcomm_js.Prelude.{
  ℕ, ◌+◌, ◌<◌, Bool, true, false, Option, none, some, List, ◌∷◌, ltb, ltb→lt, Bool-cases, inl, inr,
  ◌==◌, Result, ok, err, ◌≡◌, ◌≢◌, refl, ap, ◌∙◌, arith,
}
use mathlib.Core.Path.{subst}
use mathlib.Core.List.{Mem, mem-cons_self}
use vti_didcomm_js.Prelude.Text.{Text}
use vti_didcomm_js.Json.{Json}
use vti_didcomm_js.Resolver.{
  Handlers, Resolver, ResolverError, direct, joined, started, cached, CacheEntry, lookup, remove,
  drop_expired, drop_oldest, evict_for, store, is_pending, share, consult, resolve, settled_cache,
  settle, clear_cache, invalidate, set_cache_ttl, cache_key, raw_resolve, is_cacheable,
}
use vti_didcomm_js.Resolver.Bounded.{IsShared, resolve-cases}
use vti_didcomm_js.Resolver.Runs.{
  Fact, Runs, created, called, settled, cleared, invalidated, ttl_set,
}
use vti_didcomm_js.Resolver.Backed.{
  IsCachedDid, AreBacked, later-AreBacked, lookup-IsBacked, remove-AreBacked, set-AreBacked,
  drop_expired-AreBacked, drop_oldest-AreBacked, pending-IsCachedDid, settle-IsCachedDid, IsSound,
  consult-IsSound,
}

settled-AreBacked :
    (limit now : ℕ) (s : Resolver) (did : Text) (handlers : Handlers) (h : List Fact)
    (outcome : Result ResolverError Json)
    → raw_resolve handlers did ≡ outcome
    → IsCachedDid did
    → AreBacked h s.cache
    → AreBacked
        (record { did = did; handlers = handlers; time = now; ttl = s.ttl } ∷ h)
        (settled_cache limit now s did outcome)
unfolding settled_cache store evict_for
settled-AreBacked limit now s did handlers h (err e) eo m b = later-AreBacked _ h s.cache b
settled-AreBacked limit now s did handlers h (ok result) eo m b =
    let fact : Fact = record { did = did; handlers = handlers; time = now; ttl = s.ttl } in
    let before = later-AreBacked fact h s.cache b in
    elim (Bool-cases (is_cacheable result)) [
      | inl kept ↦ rw kept (
          set-AreBacked (fact ∷ h) (drop_oldest limit (drop_expired limit now 0 s.cache))
            (cache_key did) (record { expires = now + s.ttl; result = result })
            (drop_oldest-AreBacked (fact ∷ h) limit (drop_expired limit now 0 s.cache)
              (drop_expired-AreBacked (fact ∷ h) limit now 0 s.cache before))
            (record {
              fact = fact;
              in_history = mem-cons_self;
              of_key = refl;
              resolved = eo;
              fit = kept;
              lifetime = refl;
              of_method = m;
            }))
      | inr unfit ↦ rw unfit before
    ]

cached_did :
    (limit : ℕ) (did : Text) (historical : Bool) → IsShared limit did historical → IsCachedDid did
cached_did limit did historical c = record {
  method = c.method;
  of_did = c.of_did;
  is_cached = c.is_cached;
}

pub Runs-IsSound : (limit : ℕ) (s : Resolver) (h : List Fact) → Runs limit s h → IsSound h s
unfolding settle clear_cache invalidate set_cache_ttl
Runs-IsSound limit s h (created ttl) = record { entries = tt; pending = tt }
Runs-IsSound limit s h (called {s = before} did historical now r e) =
    let c = Runs-IsSound limit before h r in
    elim (resolve-cases limit before s did historical now _ e) [
      | inl (same, d) ↦ subst (IsSound h) same c
      | inr (shared, consulted) ↦
          subst (λ q. IsSound h q.0) consulted
            (consult-IsSound h before did now (lookup before.cache (cache_key did)) refl
              (cached_did limit did historical shared) c)
    ]
Runs-IsSound limit s _ (settled {s = before} {h = h} did handlers now r waits) =
    let c = Runs-IsSound limit before h r in
    record {
      entries =
          settled-AreBacked limit now before did handlers h _ refl
            (pending-IsCachedDid before.inflight did c.pending waits) c.entries;
      pending = settle-IsCachedDid before.inflight did c.pending;
    }
Runs-IsSound limit s h (cleared {s = before} r) =
    let c = Runs-IsSound limit before h r in record { entries = tt; pending = c.pending }
Runs-IsSound limit s h (invalidated {s = before} did r) =
    let c = Runs-IsSound limit before h r in
    record {
      entries = remove-AreBacked h before.cache (cache_key did) c.entries;
      pending = c.pending;
    }
Runs-IsSound limit s h (ttl_set {s = before} ms r) =
    let c = Runs-IsSound limit before h r in
    elim (Bool-cases (ms == 0)) [
      | inl off ↦ rw off (record { entries = tt; pending = c.pending })
      | inr on ↦ rw on (record { entries = c.entries; pending = c.pending })
    ]

share-answer : (s : Resolver) (did : Text) (result : Json) → (share s did).1 ≢ cached result
unfolding share
share-answer s did result = λ e. elim (Bool-cases (is_pending s.inflight did)) [
  | inl waits ↦ absurd (no_join (rw waits at e))
  | inr fresh ↦ absurd (no_start (rw fresh at e))
]
  where
    no_join : joined ≡ cached result → ⊥
    no_join x = cc

    no_start : started ≡ cached result → ⊥
    no_start x = cc

consult-hit :
    (s : Resolver) (did : Text) (now : ℕ) (found : Option CacheEntry) (result : Json)
    → (consult s did now found).1 ≡ cached result
    → (hit : CacheEntry) × (found ≡ some hit) × (now < hit.expires) × (hit.result ≡ result)
unfolding consult
consult-hit s did now none result e = absurd (share-answer s did result e)
consult-hit s did now (some hit) result e = elim (Bool-cases (ltb now hit.expires)) [
  | inl live ↦ (hit, refl, ltb→lt now hit.expires live, same (rw live at e))
  | inr old ↦
      absurd (
        share-answer (record s { cache = remove s.cache (cache_key did) }) did result (rw old at e))
]
  where
    same : cached hit.result ≡ cached result → hit.result ≡ result
    same x = cc

-- A resolution in the history that the answer repeats, still within the time that it lives.
pub record IsServed (h : List Fact) (did : Text) (historical : Bool) (now : ℕ) (result : Json)
    : Type 0 where
  pub fact : Fact
  pub in_history : Mem fact h
  pub same_key : cache_key fact.did ≡ cache_key did
  pub resolved : raw_resolve fact.handlers fact.did ≡ ok result
  pub fit : is_cacheable result ≡ true
  pub live : now < fact.time + fact.ttl
  pub current : historical ≡ false
  pub of_method : IsCachedDid fact.did
  pub of_asked : IsCachedDid did

served :
    (limit : ℕ) (s : Resolver) (h : List Fact) (did : Text) (historical : Bool) (now : ℕ)
    (result : Json)
    → IsSound h s
    → IsShared limit did historical
    → (consult s did now (lookup s.cache (cache_key did))).1 ≡ cached result
    → IsServed h did historical now result
served limit s h did historical now result c shared e =
    let (hit, found, live, same) =
      consult-hit s did now (lookup s.cache (cache_key did)) result e in
    let b = lookup-IsBacked h s.cache (cache_key did) hit c.entries found in
    record {
      fact = b.fact;
      in_history = b.in_history;
      same_key = b.of_key;
      resolved = b.resolved ∙ ap ok same;
      fit = subst (λ r. is_cacheable r ≡ true) same b.fit;
      live = omega (arith, live, b.lifetime);
      current = shared.current;
      of_method = b.of_method;
      of_asked = cached_did limit did historical shared;
    }

-- In a state that a resolver reaches, an answer from the cache is the result of an earlier resolution of a DID with
-- the same cache key, as the handlers then gave it: it was cacheable and is younger than the TTL of that time, the
-- call has no version time, and neither DID is a did:key or a did:peer.
pub resolve-IsServed :
    (limit : ℕ) (s s' : Resolver) (h : List Fact) (did : Text) (historical : Bool) (now : ℕ)
    (result : Json)
    → Runs limit s h
    → resolve limit s did historical now ≡ ok (s', cached result)
    → IsServed h did historical now result
resolve-IsServed limit s s' h did historical now result r e =
    elim (resolve-cases limit s s' did historical now (cached result) e) [
      | inl (same, d) ↦ absurd (clash d)
      | inr (shared, consulted) ↦
          served limit s h did historical now result (Runs-IsSound limit s h r) shared
            (ap (λ q. q.1) consulted)
    ]
  where
    clash : direct ≡ cached result → ⊥
    clash x = cc
