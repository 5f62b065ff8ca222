-- ===== src/Forward.antt =====
-- src/forward.js: `buildForward`. The id that `randomUuid` draws is an argument.
pub mod Opened
use vti_didcomm_js.Prelude.{
  ℕ, Bool, true, false, Option, none, some, List, [], ◌∷◌, ◌++◌, not, if◌then◌else◌, Result, ok,
  err, guard, or_throw, ◌>>=◌, ◌>>◌,
}
use vti_didcomm_js.Prelude.Text.{Text, codes, text_eq}
use vti_didcomm_js.Json.{
  Json, Members, null, boolean, number, object, array, string, member, end, cons, nil,
}
use vti_didcomm_js.Platform.{Platform}

pub data ForwardError : Type 0 where
  empty_argument one_without_the_other invalid_inner : ForwardError

-- FORWARD_MESSAGE_TYPE
abbrev pub forward_message_type : Text
forward_message_type = codes "https://didcomm.org/routing/2.0/forward"

-- assertNonEmptyString
unfoldable pub assert_non_empty_string : Text → Result ForwardError (Unit {0})
assert_non_empty_string value = guard (not (text_eq value [])) empty_argument

-- `from` and `mediatorDid`: both or neither
unfoldable pub parties :
    (from mediator_did : Option Text) → Result ForwardError (Option (Text × Text))
parties none none = ok none
parties (some from) none = err one_without_the_other
parties none (some mediator_did) = err one_without_the_other
parties (some from) (some mediator_did) = do
  assert_non_empty_string from
  assert_non_empty_string mediator_did
  ok (some (from, mediator_did))

-- The members of an authcrypt forward.
unfoldable pub addressed : Option (Text × Text) → Members
addressed none = end
addressed (some (from, mediator_did)) =
    member (codes "from") (string from)
      (member (codes "to") (array (cons (string mediator_did) nil)) end)

unfoldable pub forward_message : (uuid next : Text) (inner : Json) → Option (Text × Text) → Json
forward_message uuid next inner between = object (
    member (codes "id") (string (codes "urn:uuid:" ++ uuid)) (
      member (codes "typ") (string (codes "application/didcomm-plain+json")) (
        member (codes "type") (string forward_message_type) (
          member (codes "body") (object (member (codes "next") (string next) end)) (
            member (codes "attachments")
              (array (
                cons (object (member (codes "data") (object (member (codes "json") inner end)) end))
                  nil))
              (addressed between))))))

module _ (p : Platform) where
  -- innerJwe: a JSON text, or an object
  unfoldable pub inner_value : Json → Result ForwardError Json
  inner_value (string text) = or_throw (p.parse text) invalid_inner
  inner_value (object ms) = ok (object ms)
  inner_value (array xs) = ok (array xs)
  inner_value null = err invalid_inner
  inner_value (boolean b) = err invalid_inner
  inner_value (number n) = err invalid_inner

  -- buildForward
  unfoldable pub build_forward :
      (uuid next : Text) (from mediator_did : Option Text) (inner_jwe : Json)
      → Result ForwardError Json
  build_forward uuid next from mediator_did inner_jwe = do
    assert_non_empty_string next
    between ← parties from mediator_did
    inner ← inner_value inner_jwe
    ok (forward_message uuid next inner between)
