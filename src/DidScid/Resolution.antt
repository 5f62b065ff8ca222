-- ===== src/DidScid/Resolution.antt =====
-- src/did-scid.js: `toScidDidDocument` and `resolveWith`; the did:webvh resolution is a parameter.
use vti_didcomm_js.Prelude.{
  ℕ, ◌+◌, ◌*◌, ◌-◌, Bool, true, false, Option, none, some, [], ◌∷◌, ◌++◌, drop, take, not, ◌&&◌,
  ◌||◌, ◌==◌, leb, if◌then◌else◌, Result, ok, err, guard, or_throw, ◌>>=◌, ◌>>◌,
}
use vti_didcomm_js.Prelude.Text.{Text, is_blank, codes, text_eq, starts_with, index_of}
use vti_didcomm_js.Json.{
  Json, Items, Members, null, boolean, number, string, array, object, nil, cons, end, member, get,
  as_string, is_truthy,
}
use vti_didcomm_js.DidScid.{prefix, before, scid_src, scid_identity}
use vti_didcomm_js.DidScid.Book.{Book, BookError, Version, accept, source}
use vti_didcomm_js.DidScid.Convert.{
  vh_prefix, webvh_prefix, scid_to_webvh_did, webvh_to_scid_did_url, rewrite,
}

pub data ScidError : Type 0 where
  not_webvh not_scid unsupported_format no_location invalid_aliases no_source unusable deactivated :
      ScidError
  refused : BookError → ScidError
  failed : (reason : Text) → ScidError

-- Whether an entry of `alsoKnownAs` is this text.
unfoldable pub is_alias : Json → Text → Bool
is_alias (string s) alias = text_eq s alias
is_alias null alias = false
is_alias (boolean b) alias = false
is_alias (number n) alias = false
is_alias (array xs) alias = false
is_alias (object ms) alias = false

unfoldable pub without_alias : Items → Text → Items
without_alias nil alias = nil
without_alias (cons x xs) alias =
    let rest = without_alias xs alias in if is_alias x alias then rest else cons x rest

unfoldable pub has_alias : Items → Text → Bool
has_alias nil alias = false
has_alias (cons x xs) alias = is_alias x alias || has_alias xs alias

unfoldable pub push_alias : Items → Text → Items
push_alias nil alias = cons (string alias) nil
push_alias (cons x xs) alias = cons x (push_alias xs alias)

unfoldable pub add_alias : Items → Text → Items
add_alias aliases alias = if has_alias aliases alias then aliases else push_alias aliases alias

-- The entries that the controller gave, without the bare DID.
unfoldable pub own_aliases : Option Json → (scid_did : Text) → Result ScidError Items
own_aliases none scid_did = ok nil
own_aliases (some null) scid_did = ok nil
own_aliases (some (array xs)) scid_did = ok (without_alias xs scid_did)
own_aliases (some (boolean b)) scid_did = err invalid_aliases
own_aliases (some (number n)) scid_did = err invalid_aliases
own_aliases (some (string s)) scid_did = err invalid_aliases
own_aliases (some (object ms)) scid_did = err invalid_aliases

-- `doc[name] = value`
unfoldable pub set_member : Members → Text → Json → Members
set_member end name value = member name value end
set_member (member n v ms) name value =
    let rest = set_member ms name value in
    if text_eq n name then member n value ms else member n v rest

unfoldable pub assign : Json → Text → Json → Json
assign (object ms) name value = object (set_member ms name value)
assign null name value = null
assign (boolean b) name value = boolean b
assign (number n) name value = number n
assign (string s) name value = string s
assign (array xs) name value = array xs

unfoldable pub webvh_id : Json → Result ScidError Text
webvh_id state = do
  id ← or_throw (as_string (get state (codes "id"))) not_webvh
  guard (starts_with id webvh_prefix) not_webvh
  ok id

-- toScidDidDocument
unfoldable pub to_scid_did_document : Json → Result ScidError Json
to_scid_did_document state = do
  webvh_did ← webvh_id state
  scid_url ← or_throw (webvh_to_scid_did_url webvh_did) no_location
  marker ← or_throw (index_of scid_url (codes "?src=")) no_location
  let scid_did = take marker scid_url
  aliases ← own_aliases (get state (codes "alsoKnownAs")) scid_did
  ok (
      assign (rewrite webvh_did scid_did state) (codes "alsoKnownAs")
        (array (add_alias (add_alias aliases scid_url) webvh_did)))

-- `.split("?src=")[1]`
unfoldable pub up_to_marker : Text → Option ℕ → Text
up_to_marker s none = s
up_to_marker s (some i) = take i s

unfoldable pub second_piece : Text → Option ℕ → Text
second_piece url none = []
second_piece url (some i) =
    up_to_marker (drop (i + 5) url) (index_of (drop (i + 5) url) (codes "?src="))

-- Number.parseInt(…, 10), after white space and a plus sign, and 0 for NaN; a minus sign cannot stand there
unfoldable pub leading_number : ℕ → Text → ℕ
leading_number value [] = value
leading_number value (c ∷ s) =
    let more = leading_number (value * 10 + (c - b'0')) s in
    if leb b'0' c && leb c b'9' then more else value

unfoldable pub drop_blanks : Text → Text
drop_blanks [] = []
drop_blanks (c ∷ s) = let rest = drop_blanks s in if is_blank c then rest else c ∷ s

unfoldable pub drop_plus : Text → Text
drop_plus [] = []
drop_plus (c ∷ s) = if c == b'+' then s else c ∷ s

unfoldable pub version_number : Text → ℕ
version_number version_id = leading_number 0 (drop_plus (drop_blanks (before b'-' version_id)))

-- What did:webvh resolves to.
pub record Resolved : Type 0 where
  pub document : Json
  pub resolution_metadata : Json
  pub document_metadata : Json

unfoldable pub text_or : Option Text → Text
text_or none = []
text_or (some s) = s

-- The source that the DID URL names, or else the one of the book.
unfoldable pub source_for : Book → Text → Option Text → Option Text
source_for book bare (some src) = some src
source_for book bare none = source book bare

unfoldable pub usable : Option Text → Result ScidError Text
usable none = err no_source
usable (some []) = err no_source
usable (some (c ∷ src)) = ok (c ∷ src)

unfoldable pub record_version :
    ℕ → Book → (bare location : Text) → Version → (historical : Bool) → Result ScidError Book
record_version capacity book bare location version true = ok book
record_version capacity book bare location version false =
    accepted (accept capacity book bare location version)
  where
    accepted : Result BookError Book → Result ScidError Book
    accepted (ok seen) = ok seen
    accepted (err e) = err (refused e)

-- resolveWith, with a book; `historical` says that the call has a `versionTime`
module _ (webvh : Text → Result ScidError Resolved) where
  unfoldable pub resolve_with :
      ℕ → Book → (did : Text) (historical : Bool) → Result ScidError (Resolved × Book)
  resolve_with capacity book did historical = do
    guard (starts_with did prefix) not_scid
    guard (starts_with did vh_prefix) unsupported_format
    let bare = scid_identity did
    src ← usable (source_for book bare (scid_src did))
    webvh_did ← or_throw (scid_to_webvh_did (bare ++ (codes "?src=" ++ src))) unusable
    result ← webvh webvh_did
    let meta = result.document_metadata
    guard (not (is_truthy (get meta (codes "deactivated")))) deactivated
    document ← to_scid_did_document result.document
    log_did ← webvh_id result.document
    scid_url ← or_throw (webvh_to_scid_did_url log_did) no_location
    let location = second_piece scid_url (index_of scid_url (codes "?src="))
    let version_id = text_or (as_string (get meta (codes "versionId")))
    seen ←
        record_version capacity book bare location
          (record { number = version_number version_id; id = version_id }) historical
    ok (
      record {
        document = document;
        resolution_metadata = result.resolution_metadata;
        document_metadata =
            assign (assign meta (codes "webvhDid") (string log_did)) (codes "scidSource")
              (string location);
      },
      seen,
    )
