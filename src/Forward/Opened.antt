-- ===== src/Forward/Opened.antt =====
-- What a mediator reads from a forward message (src/forward.js).
use vti_didcomm_js.Prelude.{Option, some, ok, >>=-eq-ok, ok-injective, ◌≡◌, refl, ap, sym, ◌∙◌}
use vti_didcomm_js.Prelude.Text.{Text, codes, text_eq}
use vti_didcomm_js.Json.{Json, object, string, array, cons, nil, member, end, get, field}
use vti_didcomm_js.Platform.{Platform}
use vti_didcomm_js.Forward.{
  assert_non_empty_string, parties, forward_message, inner_value, build_forward,
}

next-read :
    (uuid next : Text) (inner : Json) (between : Option (Text × Text))
    → get (forward_message uuid next inner between) (codes "body")
      ≡ some (object (member (codes "next") (string next) end))
unfolding forward_message get field text_eq
next-read uuid next inner between = refl

attachments-read :
    (uuid next : Text) (inner : Json) (between : Option (Text × Text))
    → get (forward_message uuid next inner between) (codes "attachments")
      ≡ some (
          array (
            cons
              (object (member (codes "data") (object (member (codes "json") inner end)) end))
              nil))
unfolding forward_message get field text_eq
attachments-read uuid next inner between = refl

-- A forward message that was built names the next hop in its body and carries the inner envelope, as it was given or as
-- its text parses, in its one attachment.
pub build_forward-carries :
    (p : Platform) (uuid next : Text) (from mediator_did : Option Text) (inner_jwe message : Json)
    → build_forward p uuid next from mediator_did inner_jwe ≡ ok message
    → (inner : Json) × (inner_value p inner_jwe ≡ ok inner)
      × (get message (codes "body") ≡ some (object (member (codes "next") (string next) end)))
      × (get message (codes "attachments")
          ≡ some (
              array (
                cons
                  (object (member (codes "data") (object (member (codes "json") inner end)) end))
                  nil)))
unfolding build_forward
build_forward-carries p uuid next from mediator_did inner_jwe message e =
    let (u, eu, e₁) = >>=-eq-ok (assert_non_empty_string next) _ e in
    let (between, eb, e₂) = >>=-eq-ok (parties from mediator_did) _ e₁ in
    let (inner, ei, e₃) = >>=-eq-ok (inner_value p inner_jwe) _ e₂ in
    let built = ok-injective e₃ in
    (
      inner,
      ei,
      ap (λ j. get j (codes "body")) (sym built) ∙ next-read uuid next inner between,
      ap (λ j. get j (codes "attachments")) (sym built) ∙ attachments-read uuid next inner between,
    )
