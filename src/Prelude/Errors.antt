-- ===== src/Prelude/Errors.antt =====
-- What a function that may throw returns, with its errors `E`.
use mathlib.Core.Path.{◌≡◌, refl, ap}
use mathlib.Core.Bool.{Bool, true, false}
use mathlib.Core.Option.{Option, none, some}
use mathlib.Core.Logic.{◌⊎◌, inl, inr}

pub data Result {ℓ} (E : Type 0) (A : Type ℓ) : Type ℓ where
  ok : A → Result E A
  err : E → Result E A

infixl 5 ◌>>=◌ ◌>>◌
abbrev pub ◌>>=◌ {ℓ κ} :
    {E : Type 0} {A : Type ℓ} {B : Type κ} → Result E A → (A → Result E B) → Result E B
ok a >>= f = f a
err e >>= f = err e

abbrev pub ◌>>◌ {ℓ} : {E : Type 0} {B : Type ℓ} → Result E (Unit {0}) → Result E B → Result E B
m >> k = m >>= λ _. k

-- `if (!b) throw e`
abbrev pub guard : {E : Type 0} → Bool → E → Result E (Unit {0})
guard true e = ok tt
guard false e = err e

-- `if (!b) m`
abbrev pub unless : {E : Type 0} → Bool → Result E (Unit {0}) → Result E (Unit {0})
unless true m = ok tt
unless false m = m

abbrev pub or_throw {ℓ} : {E : Type 0} {A : Type ℓ} → Option A → E → Result E A
or_throw none e = err e
or_throw (some a) e = ok a

-- A chain that returns: what its first step returned, and the rest on it.
pub >>=-eq-ok {ℓ κ} :
    {E : Type 0} {S : Type ℓ} {T : Type κ} (first : Result E S) (next : S → Result E T) {t : T}
    → (first >>= next) ≡ ok t
    → (s : S) × (first ≡ ok s) × (next s ≡ ok t)
>>=-eq-ok (err thrown) next returns = cc
>>=-eq-ok (ok s) next returns = (s, refl, returns)

pub guard-eq-ok : {E : Type 0} (b : Bool) (e : E) {u : Unit {0}} → guard b e ≡ ok u → b ≡ true
guard-eq-ok true e h = refl
guard-eq-ok false e h = cc

pub Result-cases {ℓ} :
    {E : Type 0} {A : Type ℓ} (r : Result E A) → ((a : A) × (r ≡ ok a)) ⊎ ((e : E) × (r ≡ err e))
Result-cases (ok a) = inl (a, refl)
Result-cases (err e) = inr (e, refl)

pub ok-injective {ℓ} :
    {E : Type 0} {A : Type ℓ} {a b : A} → ◌≡◌ {A = Result E A} (ok a) (ok b) → a ≡ b
ok-injective h = cc

pub unless-eq-ok :
    {E : Type 0} (b : Bool) (m : Result E (Unit {0})) {u : Unit {0}}
    → unless b m ≡ ok u
    → b ≡ false
    → m ≡ ok u
unless-eq-ok true m e h = cc
unless-eq-ok false m e h = e

pub or_throw-eq-ok {ℓ} :
    {E : Type 0} {A : Type ℓ} (o : Option A) (e : E) {a : A} → or_throw o e ≡ ok a → o ≡ some a
or_throw-eq-ok none e h = cc
or_throw-eq-ok (some b) e h = cc

-- A chain whose first step returns goes on with the rest.
pub >>=-ok {ℓ κ} :
    {E : Type 0} {S : Type ℓ} {T : Type κ} (first : Result E S) (next : S → Result E T) (s : S)
    → first ≡ ok s
    → (first >>= next) ≡ next s
>>=-ok first next s h = ap (λ r. r >>= next) h
