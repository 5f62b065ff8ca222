-- ===== src/MediatorTransport/Messages.antt =====
-- src/mediator-transport.js: the messages of message pickup, and what is read from a token or an envelope without
-- opening it.
use vti_didcomm_js.Prelude.{ℕ, ◌+◌, Bool, Option, none, some, List, [], ◌∷◌, ◌++◌, Result, ok, err}
use vti_didcomm_js.Prelude.Text.{Text, codes, split_at}
use vti_didcomm_js.Json.{
  Json, Items, boolean, number, object, array, string, member, end, cons, nil, get, as_string,
}
use vti_didcomm_js.Platform.{Platform}
use vti_didcomm_js.Base64url.{DecodeError, decode}

abbrev pub live_delivery_change_type : Text
live_delivery_change_type = codes "https://didcomm.org/messagepickup/3.0/live-delivery-change"

abbrev pub messages_received_type : Text
messages_received_type = codes "https://didcomm.org/messagepickup/3.0/messages-received"

-- The members that the two messages share.
unfoldable pub pickup_message : (uuid type from mediator_did : Text) (now : ℕ) (body : Json) → Json
pickup_message uuid type from mediator_did now body = object (
    member (codes "id") (string (codes "urn:uuid:" ++ uuid)) (
      member (codes "typ") (string (codes "application/didcomm-plain+json")) (
        member (codes "type") (string type) (
          member (codes "from") (string from) (
            member (codes "to") (array (cons (string mediator_did) nil)) (
              member (codes "created_time") (number now) (
                member (codes "expires_time") (number (now + 300)) (
                  member (codes "return_route") (string (codes "all"))
                    (member (codes "body") body end)))))))))

-- buildLiveDeliveryChange
unfoldable pub build_live_delivery_change :
    (uuid from mediator_did : Text) (now : ℕ) (live : Bool) → Json
build_live_delivery_change uuid from mediator_did now live =
    pickup_message uuid live_delivery_change_type from mediator_did now
      (object (member (codes "live_delivery") (boolean live) end))

-- buildMessagesReceived
unfoldable pub id_items : List Text → Items
id_items [] = nil
id_items (id ∷ ids) = cons (string id) (id_items ids)

unfoldable pub build_messages_received :
    (uuid from mediator_did : Text) (now : ℕ) (message_ids : List Text) → Json
build_messages_received uuid from mediator_did now message_ids =
    pickup_message uuid messages_received_type from mediator_did now
      (object (member (codes "message_id_list") (array (id_items message_ids)) end))

-- The JSON that a base64url text carries; nothing if it is malformed.
module _ (p : Platform) where
  unfoldable pub json_in : Result DecodeError (List ℕ) → Option Json
  json_in (err e) = none
  json_in (ok bytes) = p.parse (p.utf8_decode bytes)

  unfoldable pub text_member : Option Json → Text → Option Text
  text_member none name = none
  text_member (some j) name = as_string (get j name)

  unfoldable pub header_in : Option Text → Option Json
  header_in none = none
  header_in (some protected) = json_in (decode protected)

  -- peekSkid
  unfoldable pub peek_skid : Text → Option Text
  peek_skid jwe_string =
      text_member (header_in (text_member (p.parse jwe_string) (codes "protected"))) (codes "skid")

  -- decodeJwtExp
  unfoldable pub number_in : Option Json → Option ℕ
  number_in (some (number n)) = some n
  number_in j = none

  unfoldable pub member_of : Option Json → Text → Option Json
  member_of none name = none
  member_of (some j) name = get j name

  unfoldable pub exp_of : List Text → Option ℕ
  exp_of [] = none
  exp_of (head ∷ []) = none
  exp_of (head ∷ payload ∷ rest) = number_in (member_of (json_in (decode payload)) (codes "exp"))

  unfoldable pub decode_jwt_exp : Text → Option ℕ
  decode_jwt_exp jwt = exp_of (split_at b'.' jwt)
