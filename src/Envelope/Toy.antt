-- ===== src/Envelope/Toy.antt =====
-- A platform for the examples: its functions are simple ones for which the laws of `IsPlatform` hold.
use vti_didcomm_js.Prelude.{
  ℕ, zero, suc, ◌+◌, ◌%◌, ◌==◌, true, false, Option, none, some, List, [], ◌∷◌, ◌++◌, map, length,
  length-append, drop, replicate, if◌then◌else◌, ◌≡◌, refl, ap, ◌∙◌, arith, All, All-append, IsByte,
}
use mathlib.Core.Path.{subst}
use vti_didcomm_js.Prelude.Text.{Text, starts_with}
use vti_didcomm_js.Json.{
  Json, Items, Members, null, boolean, number, string, array, object, nil, cons, end, member,
}
use vti_didcomm_js.Platform.{Platform, IsPlatform, IsPoint}

-- JSON in postfix form: a text is a row of operations, each with an argument, for a machine with a stack.
pub data Entry : Type 0 where
  value : Json → Entry
  items : Items → Entry
  members : Members → Entry
  name : Text → Entry

pub data Op : Type 0 where
  null_op boolean_op number_op name_op char_op string_op items_op cons_op array_op members_op
        member_op object_op other_op :
      Op

abbrev op_of : ℕ → Op
op_of c =
    if c == 0
    then null_op
    else if c == 1
    then boolean_op
    else if c == 2
    then number_op
    else if c == 3
    then name_op
    else if c == 4
    then char_op
    else if c == 5
    then string_op
    else if c == 6
    then items_op
    else if c == 7
    then cons_op
    else if c == 8
    then array_op
    else if c == 9
    then members_op
    else if c == 10
    then member_op
    else if c == 11
    then object_op
    else other_op

abbrev emit_text : Text → Text → Text
emit_text [] k = 3 ∷ 0 ∷ k
emit_text (c ∷ t) k = emit_text t (4 ∷ c ∷ k)

abbrev mutual
  emit : Json → Text → Text
  emit null k = 0 ∷ 0 ∷ k
  emit (boolean true) k = 1 ∷ 1 ∷ k
  emit (boolean false) k = 1 ∷ 0 ∷ k
  emit (number n) k = 2 ∷ n ∷ k
  emit (string t) k = emit_text t (5 ∷ 0 ∷ k)
  emit (array xs) k = emit_items xs (8 ∷ 0 ∷ k)
  emit (object ms) k = emit_members ms (11 ∷ 0 ∷ k)

  emit_items : Items → Text → Text
  emit_items nil k = 6 ∷ 0 ∷ k
  emit_items (cons x xs) k = emit_items xs (emit x (7 ∷ 0 ∷ k))

  emit_members : Members → Text → Text
  emit_members end k = 9 ∷ 0 ∷ k
  emit_members (member n v ms) k = emit_members ms (emit v (emit_text n (10 ∷ 0 ∷ k)))

abbrev step : Op → (arg : ℕ) → List Entry → List Entry
step null_op a s = value null ∷ s
step boolean_op a s = value (boolean (a == 1)) ∷ s
step number_op a s = value (number a) ∷ s
step name_op a s = name [] ∷ s
step char_op a (name t ∷ s) = name (a ∷ t) ∷ s
step string_op a (name t ∷ s) = value (string t) ∷ s
step items_op a s = items nil ∷ s
step cons_op a (value x ∷ items xs ∷ s) = items (cons x xs) ∷ s
step array_op a (items xs ∷ s) = value (array xs) ∷ s
step members_op a s = members end ∷ s
step member_op a (name n ∷ value v ∷ members ms ∷ s) = members (member n v ms) ∷ s
step object_op a (members ms ∷ s) = value (object ms) ∷ s
step op a s = s

abbrev run : List Entry → Text → List Entry
run s [] = s
run s (op ∷ []) = s
run s (op ∷ a ∷ t) = run (step (op_of op) a s) t

run-emit_text : (t : Text) (s : List Entry) (k : Text) → run s (emit_text t k) ≡ run (name t ∷ s) k
run-emit_text [] s k = refl
run-emit_text (c ∷ t) s k = run-emit_text t s (4 ∷ c ∷ k)

mutual
  run-emit : (j : Json) (s : List Entry) (k : Text) → run s (emit j k) ≡ run (value j ∷ s) k
  run-emit null s k = refl
  run-emit (boolean true) s k = refl
  run-emit (boolean false) s k = refl
  run-emit (number n) s k = refl
  run-emit (string t) s k = run-emit_text t s (5 ∷ 0 ∷ k)
  run-emit (array xs) s k = run-emit_items xs s (8 ∷ 0 ∷ k)
  run-emit (object ms) s k = run-emit_members ms s (11 ∷ 0 ∷ k)

  run-emit_items :
      (xs : Items) (s : List Entry) (k : Text) → run s (emit_items xs k) ≡ run (items xs ∷ s) k
  run-emit_items nil s k = refl
  run-emit_items (cons x xs) s k =
      run-emit_items xs s (emit x (7 ∷ 0 ∷ k)) ∙ run-emit x (items xs ∷ s) (7 ∷ 0 ∷ k)

  run-emit_members :
      (ms : Members) (s : List Entry) (k : Text)
      → run s (emit_members ms k) ≡ run (members ms ∷ s) k
  run-emit_members end s k = refl
  run-emit_members (member n v ms) s k =
      run-emit_members ms s (emit v (emit_text n (10 ∷ 0 ∷ k)))
      ∙ run-emit v (members ms ∷ s) (emit_text n (10 ∷ 0 ∷ k))
      ∙ run-emit_text n (value v ∷ members ms ∷ s) (10 ∷ 0 ∷ k)

abbrev result : List Entry → Option Json
result [] = none
result (value j ∷ s) = some j
result (items xs ∷ s) = none
result (members ms ∷ s) = none
result (name t ∷ s) = none

-- UTF-8 replaced by a unary form.
abbrev bytes_of : Text → List ℕ
bytes_of [] = []
bytes_of (c ∷ t) = replicate c 1 ++ (0 ∷ bytes_of t)

abbrev text_of : ℕ → List ℕ → Text
text_of n [] = []
text_of n (zero ∷ bs) = n ∷ text_of 0 bs
text_of n (suc b ∷ bs) = text_of (suc n) bs

text_of-replicate : (c n : ℕ) (bs : List ℕ) → text_of n (replicate c 1 ++ bs) ≡ text_of (n + c) bs
text_of-replicate zero n bs = ap (λ m. text_of m bs) (omega arith)
text_of-replicate (suc c) n bs =
    text_of-replicate c (suc n) bs ∙ ap (λ m. text_of m bs) (omega arith)

zero_add : (c : ℕ) → 0 + c ≡ c
zero_add c = omega arith

text_of-bytes_of : (t : Text) → text_of 0 (bytes_of t) ≡ t
text_of-bytes_of [] = refl
text_of-bytes_of (c ∷ t) =
    text_of-replicate c 0 (0 ∷ bytes_of t)
    ∙ ap (λ m. m ∷ text_of 0 (bytes_of t)) (zero_add c)
    ∙ ap (λ u. c ∷ u) (text_of-bytes_of t)

All-replicate : (n b : ℕ) → IsByte b → All IsByte (replicate n b)
All-replicate zero b h = tt
All-replicate (suc n) b h = (h, All-replicate n b h)

bytes_of-bytes : (t : Text) → All IsByte (bytes_of t)
bytes_of-bytes [] = tt
bytes_of-bytes (c ∷ t) =
    All-append IsByte (replicate c 1) _ (All-replicate c 1 (omega arith))
      (omega arith, bytes_of-bytes t)

-- The bytes of a list, which stands for the ciphers.
abbrev narrow : List ℕ → List ℕ
narrow bs = map (λ b. b % 256) bs

narrow-bytes : (bs : List ℕ) → All IsByte (narrow bs)
narrow-bytes [] = tt
narrow-bytes (b ∷ bs) = (omega arith, narrow-bytes bs)

narrow_id : (bs : List ℕ) → All IsByte bs → narrow bs ≡ bs
narrow_id [] h = refl
narrow_id (b ∷ bs) (hb, h) =
    let same : b % 256 ≡ b = omega (arith, hb) in rw (same, narrow_id bs h) refl

length-narrow : (bs : List ℕ) → length (narrow bs) ≡ length bs
length-narrow [] = refl
length-narrow (b ∷ bs) = omega (arith, length-narrow bs)

some-injective : {a b : List ℕ} → some a ≡ some b → a ≡ b
some-injective e = cc

zeros : (n : ℕ) → All IsByte (replicate n 0)
zeros n = All-replicate n 0 (omega arith)

abbrev pub toy : Platform
toy = record {
  parse = λ t. result (run [] t);
  stringify = λ j. 12 ∷ 0 ∷ emit j [];
  is_well_formed = λ t. true;
  utf8_encode = bytes_of;
  utf8_decode = text_of 0;
  sha256 = λ m. replicate 32 0;
  hmac_sha512 = λ k m. replicate 64 0;
  aes_cbc_encrypt = λ k iv m. narrow m;
  aes_cbc_decrypt = λ k iv c. some c;
  aes_kw_wrap = λ kek k. replicate 8 0 ++ narrow k;
  aes_kw_unwrap = λ kek w. some (drop 8 w);
  x25519_public = λ a. replicate 32 0;
  x25519_shared = λ a b. some (replicate 32 0);
  p256_public = λ a. some (4 ∷ (replicate 32 0 ++ replicate 32 0));
  p256_shared = λ a b. some (4 ∷ (replicate 32 0 ++ replicate 32 0));
  p256_is_point = λ q. true;
}

toy-IsPoint : IsPoint (4 ∷ (replicate 32 0 ++ replicate 32 0))
toy-IsPoint = record {
  x = replicate 32 0;
  y = replicate 32 0;
  parts = refl;
  x_size = refl;
  y_size = refl;
  x_bytes = zeros 32;
  y_bytes = zeros 32;
}

pub toy-IsPlatform : IsPlatform toy
unfolding starts_with
toy-IsPlatform = record {
  parse-stringify = λ j plain. ap result (run-emit j [] []);
  stringify_well_formed = λ j. refl;
  stringify_unmarked = λ j. refl;
  decode-encode = λ t wf nb. text_of-bytes_of t;
  utf8_size = λ c t. omega (arith, length-append (replicate c 1) (0 ∷ bytes_of t));
  utf8_bytes = bytes_of-bytes;
  sha256_bytes = λ m. zeros 32;
  sha256_size = λ m. refl;
  hmac_bytes = λ k m. zeros 64;
  hmac_size = λ k m. refl;
  cbc_bytes = λ k iv m. narrow-bytes m;
  cbc_inverse = λ k iv m hk hi hb. ap some (narrow_id m hb);
  wrap_bytes = λ kek k. All-append IsByte (replicate 8 0) (narrow k) (zeros 8) (narrow-bytes k);
  wrap_size = λ kek k hk h16 h8. omega (arith, length-narrow k);
  wrap_inverse = λ kek k hk h16 h8 hb. ap some (narrow_id k hb);
  x25519_size = λ a. refl;
  x25519_bytes = λ a. zeros 32;
  x25519_agree = λ a b ha hb. (replicate 32 0, refl, refl);
  p256_point = λ a point e. (subst IsPoint (some-injective e) toy-IsPoint, refl);
  p256_agree = λ a b pa pb ea eb. (4 ∷ (replicate 32 0 ++ replicate 32 0), refl, refl);
}
