-- ===== src/MediatorTransport/Session.antt =====
-- src/mediator-transport.js, class MediatorSession after its socket opened: the inbox, the waiters and the
-- handled queue-ids, the dispatch of inbound frames (`_onFrame`, `_dispatchFrame`, `_dispatchTspFrame`,
-- `_deliver`, `_markSeen`, `_ackReceived`), `waitFor` with its timer, `close`, and the handlers of the
-- socket's error and close events. An `await` splits a method: what is left of it is a `Task`, and
-- other calls may run before the task is resumed. A log keeps what the session did, latest first.
pub mod Steps
pub mod Invariant
pub mod Sound
pub mod Always
pub mod Seen
pub mod Waiters
use vti_didcomm_js.Prelude.{
  ℕ, ◌+◌, Bool, true, false, Option, none, some, List, [], ◌∷◌, ◌++◌, map, any, is_some, not, ◌&&◌,
  ◌||◌, ◌==◌, ltb, length, drop, if◌then◌else◌, Result, ok, err,
}
use vti_didcomm_js.Prelude.Text.{Text, text_eq}
use vti_didcomm_js.DidScid.{scid_identity}
use vti_didcomm_js.Base64url.{DecodeError, decode}
use vti_didcomm_js.TspFrame.{is_tsp_frame_text}
use vti_didcomm_js.MediatorTransport.{
  Message, VerifiedSender, is_text, thread_of, is_stored_mediator_reply, accepts_sender,
}

abbrev pub max_inbox : ℕ
max_inbox = 256

abbrev pub max_seen : ℕ
max_seen = 1024

-- A buffered message, and a call of waitFor that is pending; `timer` tells calls apart.
pub record Held : Type 0 where
  pub thid : Option Text
  pub message : Message
  pub sender : VerifiedSender

pub record Waiter : Type 0 where
  pub timer : ℕ
  pub thid : Text
  pub from : Option (List Text)

-- The fields of a session that change; `is_open` is the getter of this name.
pub record Session : Type 0 where
  pub inbox : List Held
  pub waiters : List Waiter
  pub seen : List Text
  pub is_open : Bool
  pub user_closed : Bool

-- What the constructor was given: the mediator's DID, and which handlers there are.
pub record Config : Type 0 where
  pub mediator_did : Text
  pub on_message : Bool
  pub on_mediator_message : Bool
  pub on_tsp_frame : Bool
  pub on_close : Bool

-- What `unpackInbound` returns.
pub record Inbound : Type 0 where
  pub message : Message
  pub sender_did : Option Text
  pub sender_kid : Option Text

pub data Recipient : Type 0 where
  waiter : ℕ → Recipient
  listener mediator_listener nobody : Recipient

pub data Stage : Type 0 where
  decode_tsp_frame unpack_frame dispatch_message dispatch_tsp_frame : Stage

pub data WaitError : Type 0 where
  timed_out socket_error socket_closed session_closed : WaitError

-- What a session does that others see. A handoff names the queue-id of its frame, `none` for a frame
-- that is not queued; `refused` is the report of a frame that is dropped.
pub data Event : Type 0 where
  handoff : Option Text → Recipient → Message → VerifiedSender → Event
  tsp_handoff : Text → List ℕ → Event
  refused : Text → Event
  acked : Text → Event
  reported : Stage → Event
  resolved : ℕ → Message → VerifiedSender → Event
  rejected : ℕ → WaitError → Event
  close_called : Event

-- A suspended method: before its check of the queue-id, or after the handler it awaits.
pub data Task : Type 0 where
  dispatch : Inbound → Option Text → Task
  settle : Option Text → Task
  tsp_dispatch : List ℕ → Text → Task
  tsp_settle : Text → Task
  drop_refused : Text → Task

pub record Outcome : Type 0 where
  pub session : Session
  pub tasks : List Task
  pub events : List Event

-- this._seen.has(id)
abbrev pub is_seen : List Text → Text → Bool
is_seen seen id = any (text_eq id) seen

-- findIndex and splice: the first element that passes, and the list without it
unfoldable pub found_after : {A : Type 0} → A → Option (A × List A) → Option (A × List A)
found_after x none = none
found_after x (some found) = some (found.0, x ∷ found.1)

unfoldable pub take_first : {A : Type 0} → (A → Bool) → List A → Option (A × List A)
take_first p [] = none
take_first p (x ∷ xs) =
    let later = found_after x (take_first p xs) in if p x then some (x, xs) else later

-- `if (list.length > cap) list.shift()`
unfoldable pub shift_over {ℓ} : {A : Type ℓ} → ℕ → List A → List A
shift_over cap list = if ltb cap (length list) then drop 1 list else list

-- _markSeen; adding a member of a Set again changes nothing
unfoldable pub add_seen : List Text → Text → List Text
add_seen seen id = if is_seen seen id then seen else seen ++ (id ∷ [])

unfoldable pub mark_seen : Session → Text → Session
mark_seen s id = record s { seen = shift_over max_seen (add_seen s.seen id) }

-- _ackReceived of one queue-id: sent only over an open socket
unfoldable pub ack_received : Session → Text → List Event
ack_received s id = if s.is_open then acked id ∷ [] else []

unfoldable pub from_mediator : Config → Text → Bool
from_mediator cfg did = text_eq did (scid_identity cfg.mediator_did)

-- The thread of a message is the one that a waiter waits for, and the sender is one it accepts.
unfoldable pub wants : Option Text → VerifiedSender → Waiter → Bool
wants thid sender w = is_text thid w.thid && accepts_sender w.from sender

-- The listener of _deliver.
unfoldable pub listener_for : Config → Bool → Recipient
listener_for cfg mediator =
    if mediator && cfg.on_mediator_message
    then mediator_listener
    else if cfg.on_message
    then listener
    else nobody

-- Whether _deliver buffers a message.
unfoldable pub is_buffered : Bool → Message → Bool
is_buffered mediator message =
    not (mediator && not (is_some message.thid) && not (is_some message.pthid))

-- _deliver without a waiter, up to the awaited listener
unfoldable pub to_listener : Config → Option Text → Message → VerifiedSender → Session → Outcome
to_listener cfg id message sender s =
    let mediator = from_mediator cfg sender.did in
    let held : Held = record { thid = thread_of message; message = message; sender = sender } in
    let inbox =
      if is_buffered mediator message
      then shift_over max_inbox (s.inbox ++ (held ∷ []))
      else s.inbox in
    record {
      session = record s { inbox = inbox };
      tasks = settle id ∷ [];
      events = handoff id (listener_for cfg mediator) message sender ∷ [];
    }

-- _deliver to the waiter that was found
unfoldable pub to_waiter :
    Config
    → Option Text
    → Message
    → VerifiedSender
    → Session
    → Option (Waiter × List Waiter)
    → Outcome
to_waiter cfg id message sender s none = to_listener cfg id message sender s
to_waiter cfg id message sender s (some found) = record {
  session = record s { waiters = found.1 };
  tasks = settle id ∷ [];
  events =
      resolved found.0.timer message sender ∷ handoff id (waiter found.0.timer) message sender ∷ [];
}

-- _deliver; without a proven sender it throws, which the caller reports
unfoldable pub deliver :
    Config → Option Text → Message → (did kid : Option Text) → Session → Outcome
deliver cfg id message (some did) (some kid) s =
    let sender : VerifiedSender = record { did = did; kid = kid } in
    to_waiter cfg id message sender s (take_first (wants (thread_of message) sender) s.waiters)
deliver cfg id message none kid s = record {
  session = s;
  tasks = [];
  events = reported dispatch_message ∷ [];
}
deliver cfg id message (some did) none s = record {
  session = s;
  tasks = [];
  events = reported dispatch_message ∷ [];
}
