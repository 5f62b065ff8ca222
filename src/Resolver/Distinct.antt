-- ===== src/Resolver/Distinct.antt =====
-- The keys of the two Maps of src/resolver.js stay distinct.
use vti_didcomm_js.Prelude.{
  ℕ, suc, ◌+◌, true, false, none, List, [], ◌∷◌, ◌++◌, length, leb, ltb, Bool-cases, inl, inr, ◌≡◌,
  refl, sym, ◌∙◌, arith,
}
use vti_didcomm_js.Prelude.Text.{Text, text_eq, text_eq_iff}
use vti_didcomm_js.Json.{Json}
use vti_didcomm_js.Resolver.{
  Cache, CacheEntry, lookup, remove, set, drop_expired, drop_oldest, evict_for, store, is_pending,
  settle_pending,
}

abbrev pub HasDistinctKeys : Cache → Type 0
HasDistinctKeys [] = Unit
HasDistinctKeys (e ∷ cache) = (lookup cache e.0 ≡ none) × HasDistinctKeys cache

abbrev pub IsDistinct : List Text → Type 0
IsDistinct [] = Unit
IsDistinct (d ∷ inflight) = (is_pending inflight d ≡ false) × IsDistinct inflight

lookup-none :
    (e : Text × CacheEntry) (cache : Cache) (k : Text)
    → lookup (e ∷ cache) k ≡ none
    → (text_eq e.0 k ≡ false) × (lookup cache k ≡ none)
unfolding lookup
lookup-none e cache k h = ground (arith, h)

lookup-remove :
    (cache : Cache) (key k : Text) → lookup cache k ≡ none → lookup (remove cache key) k ≡ none
unfolding lookup remove
lookup-remove [] key k h = refl
lookup-remove (e ∷ cache) key k h =
    let (other, later) = lookup-none e cache k h in
    elim (Bool-cases (text_eq e.0 key)) [
      | inl gone ↦ rw gone (lookup-remove cache key k later)
      | inr stays ↦ rw (stays, other) (lookup-remove cache key k later)
    ]

pub lookup-remove_same : (cache : Cache) (key : Text) → lookup (remove cache key) key ≡ none
unfolding lookup remove
lookup-remove_same [] key = refl
lookup-remove_same (e ∷ cache) key = elim (Bool-cases (text_eq e.0 key)) [
  | inl gone ↦ rw gone (lookup-remove_same cache key)
  | inr stays ↦ rw (stays, stays) (lookup-remove_same cache key)
]

pub remove-HasDistinctKeys :
    (cache : Cache) (key : Text) → HasDistinctKeys cache → HasDistinctKeys (remove cache key)
unfolding remove
remove-HasDistinctKeys [] key h = tt
remove-HasDistinctKeys (e ∷ cache) key (fresh, h) = elim (Bool-cases (text_eq e.0 key)) [
  | inl gone ↦ rw gone (remove-HasDistinctKeys cache key h)
  | inr stays ↦ rw stays (lookup-remove cache key e.0 fresh, remove-HasDistinctKeys cache key h)
]

lookup-set :
    (cache : Cache) (key k : Text) (entry : CacheEntry)
    → text_eq key k ≡ false
    → lookup cache k ≡ none
    → lookup (set cache key entry) k ≡ none
unfolding lookup set
lookup-set [] key k entry d h = rw d refl
lookup-set (e ∷ cache) key k entry d h =
    let (other, later) = lookup-none e cache k h in
    elim (Bool-cases (text_eq e.0 key)) [
      | inl here ↦ rw (here, other) later
      | inr stays ↦ rw (stays, other) (lookup-set cache key k entry d later)
    ]

text_eq_sym : (a b : Text) → text_eq a b ≡ false → text_eq b a ≡ false
text_eq_sym a b h = elim (Bool-cases (text_eq b a)) [
  | inl same ↦ absurd (clash (sym ((text_eq_iff a b).1 (sym ((text_eq_iff b a).0 same))) ∙ h))
  | inr other ↦ other
]
  where
    clash : true ≡ false → ⊥
    clash x = cc

set-HasDistinctKeys :
    (cache : Cache) (key : Text) (entry : CacheEntry)
    → HasDistinctKeys cache
    → HasDistinctKeys (set cache key entry)
unfolding set lookup
set-HasDistinctKeys [] key entry h = (refl, tt)
set-HasDistinctKeys (e ∷ cache) key entry (fresh, h) = elim (Bool-cases (text_eq e.0 key)) [
  | inl here ↦ rw here (fresh, h)
  | inr stays ↦ rw stays (
    lookup-set cache key e.0 entry (text_eq_sym e.0 key stays) fresh,
    set-HasDistinctKeys cache key entry h,
  )
]

lookup-append :
    (cache : Cache) (key k : Text) (entry : CacheEntry)
    → text_eq key k ≡ false
    → lookup cache k ≡ none
    → lookup (cache ++ ((key, entry) ∷ [])) k ≡ none
unfolding lookup
lookup-append [] key k entry d h = rw d refl
lookup-append (e ∷ cache) key k entry d h =
    let (other, later) = lookup-none e cache k h in
    rw other (lookup-append cache key k entry d later)

pub append-HasDistinctKeys :
    (cache : Cache) (key : Text) (entry : CacheEntry)
    → lookup cache key ≡ none
    → HasDistinctKeys cache
    → HasDistinctKeys (cache ++ ((key, entry) ∷ []))
unfolding lookup
append-HasDistinctKeys [] key entry n h = (refl, tt)
append-HasDistinctKeys (e ∷ cache) key entry n (fresh, h) =
    let (other, later) = lookup-none e cache key n in
    (
      lookup-append cache key e.0 entry (text_eq_sym e.0 key other) fresh,
      append-HasDistinctKeys cache key entry later h,
    )

lookup-drop_expired :
    (limit now kept : ℕ) (cache : Cache) (k : Text)
    → lookup cache k ≡ none
    → lookup (drop_expired limit now kept cache) k ≡ none
unfolding lookup drop_expired
lookup-drop_expired limit now kept [] k h = refl
lookup-drop_expired limit now kept (e ∷ cache) k h =
    let (other, later) = lookup-none e cache k h in
    elim (Bool-cases (ltb (kept + length (e ∷ cache)) limit)) [
      | inl room ↦ rw (room, other) later
      | inr full ↦ elim (Bool-cases (leb e.1.expires now)) [
        | inl old ↦ rw (full, old) (lookup-drop_expired limit now kept cache k later)
        | inr live ↦ rw (full, live, other) (lookup-drop_expired limit now (suc kept) cache k later)
      ]
    ]

drop_expired-HasDistinctKeys :
    (limit now kept : ℕ) (cache : Cache)
    → HasDistinctKeys cache
    → HasDistinctKeys (drop_expired limit now kept cache)
unfolding drop_expired
drop_expired-HasDistinctKeys limit now kept [] h = tt
drop_expired-HasDistinctKeys limit now kept (e ∷ cache) (fresh, h) =
    elim (Bool-cases (ltb (kept + length (e ∷ cache)) limit)) [
      | inl room ↦ rw room (fresh, h)
      | inr full ↦ elim (Bool-cases (leb e.1.expires now)) [
        | inl old ↦ rw (full, old) (drop_expired-HasDistinctKeys limit now kept cache h)
        | inr live ↦
            rw (full, live)
              (
                lookup-drop_expired limit now (suc kept) cache e.0 fresh,
                drop_expired-HasDistinctKeys limit now (suc kept) cache h,
              )
      ]
    ]

drop_oldest-HasDistinctKeys :
    (limit : ℕ) (cache : Cache) → HasDistinctKeys cache → HasDistinctKeys (drop_oldest limit cache)
unfolding drop_oldest
drop_oldest-HasDistinctKeys limit [] h = tt
drop_oldest-HasDistinctKeys limit (e ∷ cache) (fresh, h) =
    elim (Bool-cases (leb limit (length (e ∷ cache)))) [
      | inl full ↦ rw full (drop_oldest-HasDistinctKeys limit cache h)
      | inr room ↦ rw room (fresh, h)
    ]

pub store-HasDistinctKeys :
    (limit now ttl : ℕ) (cache : Cache) (key : Text) (result : Json)
    → HasDistinctKeys cache
    → HasDistinctKeys (store limit now ttl cache key result)
unfolding store evict_for
store-HasDistinctKeys limit now ttl cache key result h =
    set-HasDistinctKeys (drop_oldest limit (drop_expired limit now 0 cache)) key
      (record { expires = now + ttl; result = result })
      (drop_oldest-HasDistinctKeys limit (drop_expired limit now 0 cache)
        (drop_expired-HasDistinctKeys limit now 0 cache h))

pending-none :
    (d : Text) (inflight : List Text) (did : Text)
    → is_pending (d ∷ inflight) did ≡ false
    → (text_eq d did ≡ false) × (is_pending inflight did ≡ false)
unfolding is_pending
pending-none d inflight did h = ground (arith, h)

pending-append :
    (inflight : List Text) (did d : Text)
    → text_eq did d ≡ false
    → is_pending inflight d ≡ false
    → is_pending (inflight ++ (did ∷ [])) d ≡ false
unfolding is_pending
pending-append [] did d other h = rw other refl
pending-append (e ∷ inflight) did d other h =
    let (apart, later) = pending-none e inflight d h in
    rw apart (pending-append inflight did d other later)

pub append-IsDistinct :
    (inflight : List Text) (did : Text)
    → is_pending inflight did ≡ false
    → IsDistinct inflight
    → IsDistinct (inflight ++ (did ∷ []))
unfolding is_pending
append-IsDistinct [] did n h = (refl, tt)
append-IsDistinct (d ∷ inflight) did n (fresh, h) =
    let (other, later) = pending-none d inflight did n in
    (
      pending-append inflight did d (text_eq_sym d did other) fresh,
      append-IsDistinct inflight did later h,
    )

pending-settle :
    (inflight : List Text) (did d : Text)
    → is_pending inflight d ≡ false
    → is_pending (settle_pending inflight did) d ≡ false
unfolding is_pending settle_pending
pending-settle [] did d h = refl
pending-settle (e ∷ inflight) did d h =
    let (other, later) = pending-none e inflight d h in
    elim (Bool-cases (text_eq e did)) [
      | inl gone ↦ rw gone (pending-settle inflight did d later)
      | inr stays ↦ rw (stays, other) (pending-settle inflight did d later)
    ]

pub settle-IsDistinct :
    (inflight : List Text) (did : Text)
    → IsDistinct inflight
    → IsDistinct (settle_pending inflight did)
unfolding settle_pending
settle-IsDistinct [] did h = tt
settle-IsDistinct (d ∷ inflight) did (fresh, h) = elim (Bool-cases (text_eq d did)) [
  | inl gone ↦ rw gone (settle-IsDistinct inflight did h)
  | inr stays ↦ rw stays (pending-settle inflight did d fresh, settle-IsDistinct inflight did h)
]
