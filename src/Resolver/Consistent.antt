-- ===== src/Resolver/Consistent.antt =====
-- What holds of every state that a resolver of src/resolver.js reaches.
use vti_didcomm_js.Prelude.{
  ℕ, ◌≤◌, true, false, Option, none, some, List, [], ◌∷◌, length, length-append, ◌==◌, ltb,
  Bool-cases, inl, inr, Result, ok, err, ◌≡◌, refl, arith,
}
use mathlib.Core.Path.{subst}
use vti_didcomm_js.Prelude.Text.{Text}
use vti_didcomm_js.Json.{Json}
use vti_didcomm_js.Resolver.{
  Resolver, ResolverError, CacheEntry, lookup, remove, is_pending, share, consult, settled_cache,
  settle, clear_cache, invalidate, set_cache_ttl, cache_key, is_cacheable,
}
use vti_didcomm_js.Prelude.{◌⊎◌}
use vti_didcomm_js.Resolver.Distinct.{
  HasDistinctKeys, IsDistinct, lookup-remove_same, remove-HasDistinctKeys, append-HasDistinctKeys,
  store-HasDistinctKeys, append-IsDistinct, settle-IsDistinct,
}
use vti_didcomm_js.Resolver.Runs.{
  Fact, Runs, created, called, settled, cleared, invalidated, ttl_set,
}
use vti_didcomm_js.Resolver.Bounded.{remove-length, remove-found, store-length, resolve-cases}

-- Within the limit, one entry for a key and one resolution in flight for a DID; with a limit of 0, none.
pub record IsConsistent (limit : ℕ) (s : Resolver) : Type 0 where
  pub within : length s.cache ≤ limit
  pub keys : HasDistinctKeys s.cache
  pub pending : IsDistinct s.inflight
  pub idle : (limit == 0) ≡ false ⊎ (s.inflight ≡ [])

share-IsConsistent :
    (limit : ℕ) (s : Resolver) (did : Text)
    → 1 ≤ limit
    → IsConsistent limit s
    → IsConsistent limit (share s did).0
unfolding share
share-IsConsistent limit s did room c = elim (Bool-cases (is_pending s.inflight did)) [
  | inl waits ↦ rw waits c
  | inr fresh ↦ rw fresh (record {
    within = c.within;
    keys = c.keys;
    pending = append-IsDistinct s.inflight did fresh c.pending;
    idle = inl (ground (arith, room));
  })
]

consult-IsConsistent :
    (limit : ℕ) (s : Resolver) (did : Text) (now : ℕ) (found : Option CacheEntry)
    → lookup s.cache (cache_key did) ≡ found
    → 1 ≤ limit
    → IsConsistent limit s
    → IsConsistent limit (consult s did now found).0
unfolding consult
consult-IsConsistent limit s did now none e room c = share-IsConsistent limit s did room c
consult-IsConsistent limit s did now (some hit) e room c =
    let key = cache_key did in
    let without = remove s.cache key in
    let keys = remove-HasDistinctKeys s.cache key c.keys in
    elim (Bool-cases (ltb now hit.expires)) [
      | inl live ↦ rw live (record {
        within = omega (
          arith,
          c.within,
          remove-found s.cache key hit e,
          length-append without ((key, hit) ∷ []),
        );
        keys = append-HasDistinctKeys without key hit (lookup-remove_same s.cache key) keys;
        pending = c.pending;
        idle = c.idle;
      })
      | inr old ↦ rw old (
          share-IsConsistent limit (record s { cache = without }) did room
            (record {
              within = omega (arith, c.within, remove-length s.cache key);
              keys = keys;
              pending = c.pending;
              idle = c.idle;
            }))
    ]

cache-IsConsistent :
    (limit now : ℕ) (s : Resolver) (did : Text) (outcome : Result ResolverError Json)
    → (limit == 0) ≡ false
    → IsConsistent limit s
    → (length (settled_cache limit now s did outcome) ≤ limit)
      × HasDistinctKeys (settled_cache limit now s did outcome)
unfolding settled_cache
cache-IsConsistent limit now s did (err e) room c = (c.within, c.keys)
cache-IsConsistent limit now s did (ok result) room c = elim (Bool-cases (is_cacheable result)) [
  | inl kept ↦ rw kept (
    store-length limit now s.ttl s.cache (cache_key did) result (ground (arith, room)),
    store-HasDistinctKeys limit now s.ttl s.cache (cache_key did) result c.keys,
  )
  | inr unfit ↦ rw unfit (c.within, c.keys)
]

pending-room :
    (limit : ℕ) (s : Resolver) (did : Text)
    → IsConsistent limit s
    → is_pending s.inflight did ≡ true
    → (limit == 0) ≡ false
unfolding is_pending
pending-room limit s did c waits = elim c.idle [
  | inl room ↦ room
  | inr nobody ↦ absurd (clash (rw nobody at waits))
]
  where
    clash : false ≡ true → ⊥
    clash x = cc

settle-IsConsistent :
    (limit now : ℕ) (s : Resolver) (did : Text) (outcome : Result ResolverError Json)
    → is_pending s.inflight did ≡ true
    → IsConsistent limit s
    → IsConsistent limit (settle limit now s did outcome)
unfolding settle
settle-IsConsistent limit now s did outcome waits c =
    let room = pending-room limit s did c waits in
    let (within, keys) = cache-IsConsistent limit now s did outcome room c in
    record {
      within = within;
      keys = keys;
      pending = settle-IsDistinct s.inflight did c.pending;
      idle = inl room;
    }

-- In every state that a resolver reaches, by calls, settled resolutions, `clearCache`, `invalidate` and `setCacheTtl`
-- in any order, the cache has at most `limit` entries and one for a key, and at most one resolution of
-- a DID is in flight; with a limit of 0 none is.
pub Runs-IsConsistent :
    (limit : ℕ) (s : Resolver) (h : List Fact) → Runs limit s h → IsConsistent limit s
unfolding clear_cache invalidate set_cache_ttl
Runs-IsConsistent limit s h (created ttl) = record {
  within = omega arith;
  keys = tt;
  pending = tt;
  idle = inr refl;
}
Runs-IsConsistent limit s h (called {s = before} did historical now r e) =
    let c = Runs-IsConsistent limit before h r in
    elim (resolve-cases limit before s did historical now _ e) [
      | inl (same, d) ↦ subst (IsConsistent limit) same c
      | inr (shared, consulted) ↦
          subst (λ q. IsConsistent limit q.0) consulted
            (consult-IsConsistent limit before did now (lookup before.cache (cache_key did)) refl
              shared.some_room c)
    ]
Runs-IsConsistent limit s h (settled {s = before} did handlers now r waits) =
    settle-IsConsistent limit now before did _ waits (Runs-IsConsistent limit before _ r)
Runs-IsConsistent limit s h (cleared {s = before} r) =
    let c = Runs-IsConsistent limit before h r in
    record { within = omega arith; keys = tt; pending = c.pending; idle = c.idle }
Runs-IsConsistent limit s h (invalidated {s = before} did r) =
    let c = Runs-IsConsistent limit before h r in
    record {
      within = omega (arith, c.within, remove-length before.cache (cache_key did));
      keys = remove-HasDistinctKeys before.cache (cache_key did) c.keys;
      pending = c.pending;
      idle = c.idle;
    }
Runs-IsConsistent limit s h (ttl_set {s = before} ms r) =
    let c = Runs-IsConsistent limit before h r in
    elim (Bool-cases (ms == 0)) [
      | inl off ↦
          rw off (record { within = omega arith; keys = tt; pending = c.pending; idle = c.idle })
      | inr on ↦
          rw on (record { within = c.within; keys = c.keys; pending = c.pending; idle = c.idle })
    ]
