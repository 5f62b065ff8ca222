-- ===== src/Resolver/Examples.antt =====
-- Runs of src/resolver.js, and its theorems at concrete inputs.
use vti_didcomm_js.Prelude.{true, false, some, [], ◌∷◌, ok, err, ◌≡◌, refl}
use mathlib.Core.Path.{subst}
use vti_didcomm_js.Prelude.Text.{Text, codes, text_eq, starts_with, index_of, includes}
use vti_didcomm_js.Json.{Json, object, string, member, end, get, field, is_truthy}
use vti_didcomm_js.DidScid.{strip_scid_src, split_src, without}
use vti_didcomm_js.Resolver.{
  Handlers, Resolver, CacheEntry, cached, started, parse_method, raw_resolve, metadata_error,
  is_cacheable, is_uncached, cache_key, lookup, remove, set, drop_expired, drop_oldest, evict_for,
  store, is_pending, settle_pending, share, consult, resolve, settled_cache, settle,
  create_resolver, no_identifier,
}
use vti_didcomm_js.Resolver.Runs.{Fact, Runs, created, called, settled}
use vti_didcomm_js.Resolver.Consistent.{IsConsistent, Runs-IsConsistent}
use vti_didcomm_js.Resolver.Answers.{IsServed, resolve-IsServed}

abbrev alice : Text
alice = codes "did:ex:alice"

abbrev found : Json
found = object (member (codes "didDocument") (string (codes "doc")) end)

abbrev world : Handlers
world = λ method. some (λ did. ok found)

abbrev waiting : Resolver
waiting = record { cache = []; inflight = alice ∷ []; ttl = 10 }

abbrev entry : CacheEntry
entry = record { expires = 11; result = found }

abbrev filled : Resolver
filled = record { cache = (alice, entry) ∷ []; inflight = []; ttl = 10 }

abbrev fact : Fact
fact = record { did = alice; handlers = world; time = 1; ttl = 10 }

key_resolves-direct : parse_method (codes "did:key") ≡ err (no_identifier (codes "did:key"))
unfolding parse_method starts_with index_of
key_resolves-direct = refl

alice-started : resolve 2 (create_resolver 10) alice false 0 ≡ ok (waiting, started)
unfolding resolve parse_method consult share lookup is_uncached is_pending starts_with index_of
    text_eq
alice-started = refl

alice-filled : settle 2 1 waiting alice (raw_resolve world alice) ≡ filled
unfolding settle settled_cache raw_resolve parse_method is_cacheable metadata_error cache_key
    strip_scid_src split_src without store evict_for drop_expired drop_oldest set settle_pending
    is_truthy get field starts_with index_of includes text_eq
alice-filled = refl

alice-cached : resolve 2 filled alice false 5 ≡ ok (filled, cached found)
unfolding resolve parse_method consult share lookup remove is_uncached is_pending cache_key
    strip_scid_src split_src without starts_with index_of includes text_eq
alice-cached = refl

alice_waits : is_pending (alice ∷ []) alice ≡ true
unfolding is_pending text_eq
alice_waits = refl

filled-Runs : Runs 2 filled (fact ∷ [])
filled-Runs =
    subst (λ s. Runs 2 s (fact ∷ [])) alice-filled
      (settled alice world 1 (called alice false 0 (created 10) alice-started) alice_waits)

Runs-IsConsistent_example : IsConsistent 2 filled
Runs-IsConsistent_example = Runs-IsConsistent 2 filled (fact ∷ []) filled-Runs

resolve-IsServed_example : IsServed (fact ∷ []) alice false 5 found
resolve-IsServed_example =
    resolve-IsServed 2 filled filled (fact ∷ []) alice false 5 found filled-Runs alice-cached
