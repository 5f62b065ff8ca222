-- ===== src/MediatorTransport.antt =====
-- src/mediator-transport.js: the messages that a session handles, `threadOf`,
-- `isStoredMediatorReply`, `normalizeFrom` and `acceptsSender`. Its children:
-- Sender is `unpackInbound`, Session the state of a MediatorSession and its operations.
pub mod Sender
pub mod Messages
pub mod Peek
pub mod Session
mod Examples
use vti_didcomm_js.Prelude.{
  ℕ, Bool, true, false, Option, none, some, List, [], ◌∷◌, ◌++◌, map, any, is_some, not, ◌&&◌, ◌||◌,
  if◌then◌else◌, Result, ok, err, guard, ◌>>=◌, ◌>>◌,
}
use vti_didcomm_js.Prelude.Text.{Text, codes, text_eq}
use vti_didcomm_js.DidScid.{scid_identity}

abbrev pub trust_task_envelope_type : Text
trust_task_envelope_type = codes "https://trusttasks.org/binding/didcomm/0.1/envelope"

abbrev pub problem_report_type : Text
problem_report_type = codes "https://didcomm.org/report-problem/2.0/problem-report"

-- A DIDComm plaintext message: the members that the transport reads, and its body.
pub record Message : Type 0 where
  pub id : Option Text
  pub typ : Option Text
  pub thid : Option Text
  pub pthid : Option Text
  pub body : Text

-- VerifiedSender
pub record VerifiedSender : Type 0 where
  pub did : Text
  pub kid : Text

-- A member that may be absent, compared with a text.
unfoldable pub is_text : Option Text → Text → Bool
is_text none t = false
is_text (some s) t = text_eq s t

-- threadOf
unfoldable pub parent_or_id : Message → Option Text
parent_or_id message =
    if is_text message.typ problem_report_type && is_some message.pthid
    then message.pthid
    else message.id

unfoldable pub thread_or : Option Text → Message → Option Text
thread_or (some thid) message = some thid
thread_or none message = parent_or_id message

unfoldable pub thread_of : Message → Option Text
thread_of message = thread_or message.thid message

-- isStoredMediatorReply
unfoldable pub is_stored_mediator_reply : Message → Bool
is_stored_mediator_reply message =
    is_text message.typ trust_task_envelope_type && is_some message.thid

-- The TypeError of normalizeFrom.
pub data FromError : Type 0 where
  invalid_from : FromError

-- normalizeFrom; null is any sender
unfoldable pub normalize_from : Option (List Text) → Result FromError (Option (List Text))
normalize_from none = ok none
normalize_from (some []) = err invalid_from
normalize_from (some (d ∷ list)) =
    guard (not (any (λ t. text_eq t []) (d ∷ list))) invalid_from
    >> ok (some (map scid_identity (d ∷ list)))

-- acceptsSender
unfoldable pub accepts_sender : Option (List Text) → VerifiedSender → Bool
accepts_sender none sender = true
accepts_sender (some dids) sender = any (text_eq sender.did) dids
