-- ===== src/DidScid.antt =====
-- src/did-scid.js, the `src` locator of a did:scid DID URL: `splitSrc`, `stripScidSrc`, `scidSrc`,
-- `withScidSrc`, `sameReference` and `scidIdentity`, on strings. The child Book is the source book.
pub mod Locator
pub mod Book
pub mod Convert
pub mod Resolution
mod Examples
use vti_didcomm_js.Prelude.{
  ℕ, ◌+◌, Bool, true, false, Option, none, some, List, [], ◌∷◌, ◌++◌, drop, take, not, ◌&&◌, ◌||◌,
  ◌==◌, if◌then◌else◌,
}
use vti_didcomm_js.Prelude.Maybe.{◌>>=◌, ◌>>◌, require}
use vti_didcomm_js.Prelude.Text.{Text, codes, text_eq, starts_with, index_of, includes}

abbrev pub prefix : Text
prefix = codes "did:scid:"

-- The text before the first `c`, and what `c` starts.
unfoldable pub before : ℕ → Text → Text
before c [] = []
before c (d ∷ s) = let rest = before c s in if d == c then [] else d ∷ rest

unfoldable pub from : ℕ → Text → Text
from c [] = []
from c (d ∷ s) = let rest = from c s in if d == c then d ∷ s else rest

pub record Parts : Type 0 where
  pub did : Text
  pub src : Text
  pub fragment : Text

-- splitSrc; `rest` is the text after the first `?`
unfoldable pub split_rest : Text → Text → Option Parts
split_rest did rest =
    let query = before b'#' rest in
    let src = drop 4 query in
    (require (starts_with query (codes "src="))
      >> (require (not (text_eq src [] || includes src (codes "&")))
          >> some (record { did = did; src = src; fragment = from b'#' rest })))

unfoldable pub split_src : Text → Option Parts
split_src did_url = do
  require (starts_with did_url prefix)
  require (includes did_url (codes "?"))
  split_rest (before b'?' did_url) (drop 1 (from b'?' did_url))

-- stripScidSrc
unfoldable pub without : Option Parts → Text → Text
without (some parts) did_url = parts.did ++ parts.fragment
without none did_url = did_url

unfoldable pub strip_scid_src : Text → Text
strip_scid_src did_url = without (split_src did_url) did_url

-- scidSrc
unfoldable pub scid_src : Text → Option Text
scid_src did_url = do parts ← split_src did_url; some parts.src

-- withScidSrc
unfoldable pub with_scid_src : Text → Text → Text
with_scid_src reference src =
    if not (starts_with reference prefix)
      || includes reference (codes "?")
      || includes reference (codes "/")
    then reference
    else before b'#' reference ++ (codes "?src=" ++ (src ++ from b'#' reference))

-- sameReference
unfoldable pub same_reference : Text → Text → Bool
same_reference a b = text_eq a b || text_eq (strip_scid_src a) (strip_scid_src b)

-- scidIdentity
unfoldable pub scid_identity : Text → Text
scid_identity reference = strip_scid_src (before b'#' reference)
