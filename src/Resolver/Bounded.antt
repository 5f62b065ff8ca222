-- ===== src/Resolver/Bounded.antt =====
-- The size of the cache of src/resolver.js.
use vti_didcomm_js.Prelude.{
  ℕ, ◌+◌, ◌≤◌, Bool, false, some, [], ◌∷◌, length, ◌==◌, Bool-cases, inl, inr, ok, >>=-eq-ok,
  ok-injective, ◌≡◌, ap, arith, ◌||◌,
}
use vti_didcomm_js.Prelude.Text.{Text, text_eq}
use vti_didcomm_js.Json.{Json}
use vti_didcomm_js.Resolver.{
  Resolver, Answer, Cache, CacheEntry, lookup, remove, set, drop_expired, drop_oldest, evict_for,
  store, consult, resolve, cache_key, parse_method, is_uncached,
}
use vti_didcomm_js.Resolver.{direct}
use vti_didcomm_js.Prelude.{◌⊎◌}

pub remove-length : (cache : Cache) (key : Text) → length (remove cache key) ≤ length cache
unfolding remove
remove-length [] key = omega arith
remove-length (e ∷ cache) key = ground (arith, remove-length cache key)

pub remove-found :
    (cache : Cache) (key : Text) (hit : CacheEntry)
    → lookup cache key ≡ some hit
    → length (remove cache key) + 1 ≤ length cache
unfolding remove lookup
remove-found [] key hit h = cc
remove-found (e ∷ cache) key hit h = elim (Bool-cases (text_eq e.0 key)) [
  | inl same ↦ rw same (omega (arith, remove-length cache key))
  | inr other ↦ rw other (omega (arith, remove-found cache key hit (rw other at h)))
]

length-set :
    (cache : Cache) (key : Text) (e : CacheEntry) → length (set cache key e) ≤ length cache + 1
unfolding set
length-set [] key e = omega arith
length-set (f ∷ cache) key e = ground (arith, length-set cache key e)

length-drop_oldest :
    (limit : ℕ) (cache : Cache) → 1 ≤ limit → length (drop_oldest limit cache) + 1 ≤ limit
unfolding drop_oldest
length-drop_oldest limit [] h = omega arith
length-drop_oldest limit (e ∷ cache) h = ground (arith, length-drop_oldest limit cache h)

pub store-length :
    (limit now ttl : ℕ) (cache : Cache) (key : Text) (result : Json)
    → 1 ≤ limit
    → length (store limit now ttl cache key result) ≤ limit
unfolding store evict_for
store-length limit now ttl cache key result h =
    let entry : CacheEntry = record { expires = now + ttl; result = result } in
    let room = drop_expired limit now 0 cache in
    omega (arith, length-drop_oldest limit room h, length-set (drop_oldest limit room) key entry)

-- A call that reads the cache: it has no version time, and its method is cached.
pub record IsShared (limit : ℕ) (did : Text) (historical : Bool) : Type 0 where
  pub current : historical ≡ false
  pub some_room : 1 ≤ limit
  pub method : Text
  pub of_did : parse_method did ≡ ok method
  pub is_cached : is_uncached method ≡ false

or-false : (a b : Bool) → (a || b) ≡ false → (a ≡ false) × (b ≡ false)
or-false a b h = ground (arith, h)

resolve-IsShared :
    (limit : ℕ) (s : Resolver) (did method : Text) (historical : Bool)
    → parse_method did ≡ ok method
    → (historical || (s.ttl == 0 || (limit == 0 || is_uncached method))) ≡ false
    → IsShared limit did historical
resolve-IsShared limit s did method historical em h =
    let (current, h₁) = or-false historical _ h in
    let (live, h₂) = or-false (s.ttl == 0) _ h₁ in
    let (room, is_cached) = or-false (limit == 0) _ h₂ in
    record {
      current = current;
      some_room = ground (arith, room);
      method = method;
      of_did = em;
      is_cached = is_cached;
    }

pub resolve-cases :
    (limit : ℕ) (s s' : Resolver) (did : Text) (historical : Bool) (now : ℕ) (answer : Answer)
    → resolve limit s did historical now ≡ ok (s', answer)
    → ((s ≡ s') × (direct ≡ answer))
      ⊎ (IsShared limit did historical
          × (consult s did now (lookup s.cache (cache_key did)) ≡ (s', answer)))
unfolding resolve
resolve-cases limit s s' did historical now answer e =
    let (method, em, e₁) = >>=-eq-ok (parse_method did) _ e in
    elim (Bool-cases (historical || (s.ttl == 0 || (limit == 0 || is_uncached method)))) [
      | inl bypass ↦
          let same : (s, direct) ≡ (s', answer) = ok-injective (rw bypass at e₁) in
          inl (ap (λ q. q.0) same, ap (λ q. q.1) same)
      | inr reads ↦
          inr
            (resolve-IsShared limit s did method historical em reads, ok-injective (rw reads at e₁))
    ]
