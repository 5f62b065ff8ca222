-- ===== src/Json.antt =====
-- The values that JSON.parse gives and JSON.stringify takes, and reading their members. Numbers are
-- natural; the sources read no other. The members of an object stand in the order it has them.
use vti_didcomm_js.Prelude.{
  ℕ, zero, suc, Bool, true, false, not, ◌&&◌, Option, none, some, [], ◌∷◌, is_some, if◌then◌else◌,
  leb, ltb,
}
use vti_didcomm_js.Prelude.Text.{Text, text_eq}

mutual
  pub data Json : Type 0 where
    null : Json
    boolean : Bool → Json
    number : ℕ → Json
    string : Text → Json
    array : Items → Json
    object : Members → Json

  pub data Items : Type 0 where
    nil : Items
    cons : Json → Items → Items

  pub data Members : Type 0 where
    end : Members
    member : Text → Json → Members → Members

-- The member of this name, `none` where it is undefined.
unfoldable pub field : Members → Text → Option Json
field end name = none
field (member n v ms) name = let later = field ms name in if text_eq n name then some v else later

unfoldable pub get : Json → Text → Option Json
get (object ms) name = field ms name
get null name = none
get (boolean b) name = none
get (number n) name = none
get (string t) name = none
get (array xs) name = none

-- The value, if `typeof` it is "string".
unfoldable pub as_string : Option Json → Option Text
as_string (some (string t)) = some t
as_string (some null) = none
as_string (some (boolean b)) = none
as_string (some (number n)) = none
as_string (some (array xs)) = none
as_string (some (object ms)) = none
as_string none = none

-- Whether the value is truthy.
unfoldable pub is_truthy : Option Json → Bool
is_truthy none = false
is_truthy (some null) = false
is_truthy (some (boolean b)) = b
is_truthy (some (number zero)) = false
is_truthy (some (number (suc n))) = true
is_truthy (some (string [])) = false
is_truthy (some (string (c ∷ t))) = true
is_truthy (some (array xs)) = true
is_truthy (some (object ms)) = true

-- Whether `typeof` the value is "object", of a value that is not null.
unfoldable pub is_object : Json → Bool
is_object (object ms) = true
is_object (array xs) = true
is_object null = false
is_object (boolean b) = false
is_object (number n) = false
is_object (string t) = false

-- Whether it is an object and no array.
unfoldable pub is_record : Json → Bool
is_record (object ms) = true
is_record (array xs) = false
is_record null = false
is_record (boolean b) = false
is_record (number n) = false
is_record (string t) = false

-- The values that come back from their text: safe integers, and members with distinct names that
-- do not start with a digit, which the language would move to the front.
unfoldable pub is_plain_name : Text → Bool
is_plain_name [] = true
is_plain_name (c ∷ t) = not (leb 48 c && leb c 57)

unfoldable mutual
  pub is_plain : Json → Bool
  is_plain null = true
  is_plain (boolean b) = true
  is_plain (number n) = ltb n 0x20000000000000
  is_plain (string t) = true
  is_plain (array xs) = are_plain xs
  is_plain (object ms) = are_plain_members ms

  pub are_plain : Items → Bool
  are_plain nil = true
  are_plain (cons x xs) = is_plain x && are_plain xs

  pub are_plain_members : Members → Bool
  are_plain_members end = true
  are_plain_members (member n v ms) =
      is_plain_name n && (not (is_some (field ms n)) && (is_plain v && are_plain_members ms))
