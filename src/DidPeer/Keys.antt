-- ===== src/DidPeer/Keys.antt =====
-- The keys of the document that src/did-peer.js builds.
use vti_didcomm_js.Prelude.{
  ℕ, zero, suc, ◌+◌, Option, some, or_throw-eq-ok, append_assoc, append-nil, if◌then◌else◌, List,
  [], ◌∷◌, ◌++◌, length, length-append, map, ◌==◌, Bool-cases, inl, inr, Result, ok, err, or_throw,
  >>=-eq-ok, ok-injective, ◌≡◌, refl, ap, sym, ◌∙◌, arith, All, All-append,
}
use mathlib.Core.Path.{subst}
use vti_didcomm_js.Prelude.Text.{Text, codes}
use vti_didcomm_js.Json.{Items, Members, cons, nil, object, get, is_truthy}
use vti_didcomm_js.Platform.{Platform}
use vti_didcomm_js.Base64url.{decode}
use vti_didcomm_js.Multibase.{MultikeyError, Multikey, decode_multikey}
use vti_didcomm_js.DidPeer.{
  unknown_purpose, invalid_service, Relationship, Method, Found, purpose_relationship,
  expand_service, named_service, add_services, as_list, decoded, checked_multikey, add_key, decimal,
  elements_of, decode_service, add_element, add_elements, resolve_found,
}

-- The key elements, all but those of purpose `S`, with the relationship of their purpose and their multikey.
abbrev pub key_elements : List Text → List (Option Relationship × Text)
key_elements [] = []
key_elements ([] ∷ elements) = key_elements elements
key_elements ((code ∷ value) ∷ elements) =
    let rest = key_elements elements in
    if code == b'S' then rest else (purpose_relationship code, value) ∷ rest

-- did#key-N for `count` numbers N from `first` on.
abbrev pub key_ids : (did : Text) (first count : ℕ) → List Text
key_ids did first zero = []
key_ids did first (suc count) =
    (did ++ (codes "#key-" ++ decimal first)) ∷ key_ids did (suc first) count

-- The methods are those of these keys, in order: their multikeys are the keys' and decode, their ids are did#key-1,
-- did#key-2 and so on, and the references list these ids, each under the relationship of its key.
pub record IsKeyed (did : Text) (keys : List (Option Relationship × Text)) (s : Found)
    : Type 0 where
  pub decodes :
      All (λ m. (k : Multikey) × (decode_multikey m.public_key_multibase ≡ ok k)) s.methods
  pub counted : s.key_n ≡ length keys
  pub values : map (λ m. m.public_key_multibase) s.methods ≡ map (λ k. k.1) keys
  pub ids : map (λ m. m.id) s.methods ≡ key_ids did 1 (length keys)
  pub listed : map (λ e. e.1) s.references ≡ key_ids did 1 (length keys)
  pub purposes : map (λ e. some e.0) s.references ≡ map (λ k. k.0) keys

key_ids-snoc :
    (did : Text) (first count next : ℕ)
    → next ≡ count + first
    → key_ids did first count ++ ((did ++ (codes "#key-" ++ decimal next)) ∷ [])
      ≡ key_ids did first (suc count)
key_ids-snoc did first zero next h = let same : next ≡ first = omega (arith, h) in rw same refl
key_ids-snoc did first (suc count) next h =
    ap (λ t. (did ++ (codes "#key-" ++ decimal first)) ∷ t)
      (key_ids-snoc did (suc first) count next (omega (arith, h)))

map-snoc {ℓ} :
    {A B : Type ℓ} (f : A → B) (xs : List A) (x : A)
    → map f (xs ++ (x ∷ [])) ≡ map f xs ++ (f x ∷ [])
map-snoc f [] x = refl
map-snoc f (y ∷ xs) x = ap (λ t. f y ∷ t) (map-snoc f xs x)

-- One more key: a list that agreed with the keys does so with one element more.
extended {ℓ} :
    {A B C : Type ℓ} (f : A → C) (g : B → C) (xs : List A) (ys : List B) (x : A) (y : B)
    → map f xs ≡ map g ys
    → f x ≡ g y
    → map f (xs ++ (x ∷ [])) ≡ map g (ys ++ (y ∷ []))
extended f g xs ys x y h e = rw (map-snoc f xs x, map-snoc g ys y, h, e) refl

numbered :
    {A : Type 0} (did : Text) (f : A → Text) (xs : List A) (x : A) (n m : ℕ)
    → map f xs ≡ key_ids did 1 n
    → f x ≡ did ++ (codes "#key-" ++ decimal (suc n))
    → m ≡ n + 1
    → map f (xs ++ (x ∷ [])) ≡ key_ids did 1 m
numbered did f xs x n m h e size =
    let next : m ≡ suc n = omega (arith, size) in
    rw (map-snoc f xs x, h, e, next) (key_ids-snoc did 1 n (suc n) (omega arith))

add_key-IsKeyed :
    (did : Text) (keys : List (Option Relationship × Text)) (s : Found) (r : Relationship)
    (value : Text) (k : Multikey)
    → decode_multikey value ≡ ok k
    → IsKeyed did keys s
    → IsKeyed did (keys ++ ((some r, value) ∷ [])) (add_key did s r value)
unfolding add_key
add_key-IsKeyed did keys s r value k e h =
    let key : Option Relationship × Text = (some r, value) in
    let id = did ++ (codes "#key-" ++ decimal (suc s.key_n)) in
    let m : Method = record { id = id; public_key_multibase = value } in
    let size = length-append keys (key ∷ []) in
    let same : id ≡ did ++ (codes "#key-" ++ decimal (suc (length keys))) =
      ap (λ (n : ℕ). did ++ (codes "#key-" ++ decimal (suc n))) h.counted in
    record {
      decodes =
          All-append (λ f. (k : Multikey) × (decode_multikey f.public_key_multibase ≡ ok k))
            s.methods (m ∷ []) h.decodes ((k, e), tt);
      counted = next s.key_n (length keys) h.counted ∙ sym size;
      values = extended (λ f. f.public_key_multibase) (λ q. q.1) s.methods keys m key h.values refl;
      ids = numbered did (λ f. f.id) s.methods m (length keys) _ h.ids same size;
      listed = numbered did (λ f. f.1) s.references (r, id) (length keys) _ h.listed same size;
      purposes = extended (λ f. some f.0) (λ q. q.0) s.references keys (r, id) key h.purposes refl;
    }
  where
    next : (a b : ℕ) → a ≡ b → suc a ≡ b + 1
    next a b h = omega arith

module _ (did : Text) (keys : List (Option Relationship × Text)) where
  named_service-IsKeyed :
      (s : Found) (expanded : Members)
      → IsKeyed did keys s
      → IsKeyed did keys (named_service did s expanded)
  unfolding named_service
  named_service-IsKeyed s expanded h =
      elim (Bool-cases (is_truthy (get (object expanded) (codes "id")))) [
        | inl own ↦ rw own (same h)
        | inr none_given ↦ rw none_given (same h)
      ]
    where
      same :
          {services : _} {n : ℕ}
          → IsKeyed did keys s
          → IsKeyed did keys (record {
            methods = s.methods;
            references = s.references;
            services = services;
            key_n = s.key_n;
            service_n = n;
          })
      same h = record {
        decodes = h.decodes;
        counted = h.counted;
        values = h.values;
        ids = h.ids;
        listed = h.listed;
        purposes = h.purposes;
      }

  add_services-IsKeyed :
      (s t : Found) (xs : Items)
      → add_services did s xs ≡ ok t
      → IsKeyed did keys s
      → IsKeyed did keys t
  unfolding add_services
  add_services-IsKeyed s t nil e h = subst (IsKeyed did keys) (ok-injective e) h
  add_services-IsKeyed s t (cons svc rest) e h =
      let (expanded, ee, e₁) = >>=-eq-ok (expand_service svc) _ e in
      add_services-IsKeyed (named_service did s expanded) t rest e₁
        (named_service-IsKeyed s expanded h)

key_elements-cons :
    (element : Text) (elements : List Text)
    → key_elements (element ∷ elements) ≡ key_elements (element ∷ []) ++ key_elements elements
key_elements-cons [] elements = refl
key_elements-cons (code ∷ value) elements = elim (Bool-cases (code == b'S')) [
  | inl service ↦ rw service refl
  | inr key ↦ rw key refl
]

checked_multikey-ok :
    (r : Result MultikeyError Multikey) {u : Unit {0}}
    → checked_multikey r ≡ ok u
    → (k : Multikey) × (r ≡ ok k)
unfolding checked_multikey
checked_multikey-ok (ok k) h = (k, refl)
checked_multikey-ok (err e) h = cc

module _ (p : Platform) (did : Text) where
  add_element-IsKeyed :
      (keys : List (Option Relationship × Text)) (s t : Found) (element : Text)
      → add_element p did s element ≡ ok t
      → IsKeyed did keys s
      → IsKeyed did (keys ++ key_elements (element ∷ [])) t
  unfolding add_element decode_service
  add_element-IsKeyed keys s t [] e h = cc
  add_element-IsKeyed keys s t (code ∷ []) e h = cc
  add_element-IsKeyed keys s t (code ∷ c ∷ rest) e h = elim (Bool-cases (code == b'S')) [
    | inl service ↦
        let (bytes, eb, e₁) = >>=-eq-ok (decoded (decode (c ∷ rest))) _ (rw service at e) in
        let (parsed, ep, e₂) =
          >>=-eq-ok (or_throw (p.parse (p.utf8_decode bytes)) invalid_service) _ e₁ in
        rw (service, append-nil keys) (add_services-IsKeyed did keys s t (as_list parsed) e₂ h)
    | inr key ↦
        let (r, er, e₁) =
          >>=-eq-ok (or_throw (purpose_relationship code) unknown_purpose) _ (rw key at e) in
        let (u, eu, e₂) = >>=-eq-ok (checked_multikey (decode_multikey (c ∷ rest))) _ e₁ in
        let (k, ek) = checked_multikey-ok (decode_multikey (c ∷ rest)) eu in
        let purpose = or_throw-eq-ok (purpose_relationship code) unknown_purpose er in
        rw (key, purpose)
          (subst (IsKeyed did (keys ++ ((some r, c ∷ rest) ∷ []))) (ok-injective e₂)
            (add_key-IsKeyed did keys s r (c ∷ rest) k ek h))
  ]

  add_elements-IsKeyed :
      (keys : List (Option Relationship × Text)) (s t : Found) (elements : List Text)
      → add_elements p did s elements ≡ ok t
      → IsKeyed did keys s
      → IsKeyed did (keys ++ key_elements elements) t
  unfolding add_elements
  add_elements-IsKeyed keys s t [] e h =
      rw (append-nil keys) (subst (IsKeyed did keys) (ok-injective e) h)
  add_elements-IsKeyed keys s t (element ∷ elements) e h =
      let (next, en, e₁) = >>=-eq-ok (add_element p did s element) _ e in
      let rest =
        add_elements-IsKeyed (keys ++ key_elements (element ∷ [])) next t elements e₁
          (add_element-IsKeyed keys s next element en h) in
      subst (λ ks. IsKeyed did ks t)
        (append_assoc keys (key_elements (element ∷ [])) (key_elements elements)
          ∙ ap (λ ks. keys ++ ks) (sym (key_elements-cons element elements)))
        rest

  -- Where a did:peer resolves, its verification methods are its key elements, in order: each has the multikey of its
  -- element, which decodes, and the ids are did#key-1, did#key-2 and so on. The references are these ids in the same
  -- order, each under the relationship that the purpose of its element stands for.
  pub resolve_found-IsKeyed :
      (s : Found)
      → resolve_found p did ≡ ok s
      → (elements : List Text) × (elements_of did ≡ ok elements)
        × IsKeyed did (key_elements elements) s
  unfolding resolve_found
  resolve_found-IsKeyed s e =
      let (elements, ee, e₁) = >>=-eq-ok (elements_of did) _ e in
      (
        elements,
        ee,
        add_elements-IsKeyed []
            (record { methods = []; references = []; services = []; key_n = 0; service_n = 0 }) s
            elements e₁
            (record {
              decodes = tt;
              counted = refl;
              values = refl;
              ids = refl;
              listed = refl;
              purposes = refl;
            }),
      )
