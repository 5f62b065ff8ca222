-- ===== src/Resolver/Runs.antt =====
-- The states that a resolver of src/resolver.js reaches, in any order of its calls and of the resolutions that settle.
use vti_didcomm_js.Prelude.{ℕ, Bool, true, List, [], ◌∷◌, ok, ◌≡◌}
use vti_didcomm_js.Prelude.Text.{Text}
use vti_didcomm_js.Resolver.{
  Handlers, Resolver, Answer, raw_resolve, is_pending, resolve, settle, clear_cache, invalidate,
  set_cache_ttl, create_resolver,
}

-- A resolution that settled: its DID, the handlers as they stood, the time and the TTL.
pub record Fact : Type 0 where
  pub did : Text
  pub handlers : Handlers
  pub time : ℕ
  pub ttl : ℕ

-- The history is what settled, the latest first.
pub data Runs (limit : ℕ) : Resolver → List Fact → Type 0 where
  created : (ttl : ℕ) → Runs limit (create_resolver ttl) []
  called :
      {s s' : Resolver} {h : List Fact} {answer : Answer}
      → (did : Text) (historical : Bool) (now : ℕ) → Runs limit s h
      → resolve limit s did historical now ≡ ok (s', answer)
      → Runs limit s' h
  settled :
      {s : Resolver} {h : List Fact}
      → (did : Text) (handlers : Handlers) (now : ℕ) → Runs limit s h
      → is_pending s.inflight did ≡ true
      → Runs limit
          (settle limit now s did (raw_resolve handlers did))
          (record { did = did; handlers = handlers; time = now; ttl = s.ttl } ∷ h)
  cleared : {s : Resolver} {h : List Fact} → Runs limit s h → Runs limit (clear_cache s) h
  invalidated :
      {s : Resolver} {h : List Fact}
      → (did : Text) → Runs limit s h
      → Runs limit (invalidate s did) h
  ttl_set :
      {s : Resolver} {h : List Fact} → (ms : ℕ) → Runs limit s h → Runs limit (set_cache_ttl s ms) h
