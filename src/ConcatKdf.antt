-- ===== src/ConcatKdf.antt =====
-- src/concat-kdf.js: the key derivation of ECDH in JOSE. SHA-256, which is the platform's, is the parameter
-- `sha256`; `alg` is given as its UTF-8 bytes, and arguments of another type than bytes are not modelled.
pub mod OtherInfo
pub mod Length
mod Examples
use vti_didcomm_js.Prelude.{
  ℕ, zero, suc, ◌+◌, ◌/◌, ◌%◌, ◌^◌, Bool, true, false, Option, none, some, List, [], ◌∷◌, ◌++◌,
  length, take, not, ◌&&◌, ◌||◌, ◌==◌, leb, Result, ok, err, guard, ◌>>=◌, ◌>>◌,
}

-- The RangeError of uint32be and the errors of deriveKey.
pub data KdfError : Type 0 where
  out_of_range : ℕ → KdfError
  empty_alg : KdfError
  invalid_key_length : ℕ → KdfError

-- uint32be
unfoldable pub be32 : ℕ → List ℕ
be32 n = n / 2 ^ 24 % 256 ∷ n / 2 ^ 16 % 256 ∷ n / 2 ^ 8 % 256 ∷ n % 256 ∷ []

unfoldable pub uint32be : ℕ → Result KdfError (List ℕ)
uint32be n = guard (leb n 0xffffffff) (out_of_range n) >> ok (be32 n)

-- lengthPrefix
unfoldable pub length_prefix : List ℕ → Result KdfError (List ℕ)
length_prefix bytes = uint32be (length bytes) >>= λ prefix. ok (prefix ++ bytes)

-- `supp` of deriveKey: the optional last field, without its length in the legacy form
unfoldable pub supp_priv_info : Option (List ℕ) → (legacy : Bool) → Result KdfError (List ℕ)
supp_priv_info none legacy = ok []
supp_priv_info (some tag) true = ok tag
supp_priv_info (some tag) false = length_prefix tag

-- `otherInfo` of deriveKey
unfoldable pub other_info :
    (alg apu apv : List ℕ)
    → (bits : ℕ) → Option (List ℕ)
    → (legacy : Bool) → Result KdfError (List ℕ)
other_info alg apu apv bits tag legacy = do
  supp ← supp_priv_info tag legacy
  a ← length_prefix alg
  u ← length_prefix apu
  v ← length_prefix apv
  b ← uint32be bits
  ok (a ++ (u ++ (v ++ (b ++ supp))))

-- The digests of the counters from `i` on, one after the other.
unfoldable pub digests :
    (sha256 : List ℕ → List ℕ) → (z info : List ℕ) → (i reps : ℕ) → Result KdfError (List ℕ)
digests sha256 z info i zero = ok []
digests sha256 z info i (suc reps) = do
  counter ← uint32be i
  rest ← digests sha256 z info (i + 1) reps
  ok (sha256 (counter ++ (z ++ info)) ++ rest)

unfoldable pub is_key_length : ℕ → Bool
is_key_length bits = leb 1 bits && (bits % 8 == 0 && leb bits 4096)

-- deriveKey
unfoldable pub derive_key :
    (sha256 : List ℕ → List ℕ)
    → (z alg apu apv : List ℕ) → Option (List ℕ)
    → (legacy : Bool) → (bits : ℕ) → Result KdfError (List ℕ)
derive_key sha256 z alg apu apv tag legacy bits = do
  guard (leb 1 (length alg)) empty_alg
  guard (is_key_length bits) (invalid_key_length bits)
  info ← other_info alg apu apv bits tag legacy
  out ← digests sha256 z info 1 ((bits / 8 + 31) / 32)
  ok (take (bits / 8) out)
