-- ===== src/MediatorTransport/Session/Steps.antt =====
-- src/mediator-transport.js, class MediatorSession: the synchronous parts between two awaits, and the
-- steps of a session in any order of frames, resumed methods, calls and timers. SHA-256 and
-- `unpackInbound`, on the platform's cryptography, are parameters.
use vti_didcomm_js.Prelude.{
  ℕ, Bool, true, false, Option, none, some, List, [], ◌∷◌, ◌++◌, map, reverse, not, ◌&&◌, ◌||◌,
  ◌==◌, if◌then◌else◌, Result, ok, err, ◌>>=◌,
}
use vti_didcomm_js.Prelude.Text.{Text, text_eq}
use vti_didcomm_js.DidScid.{scid_identity}
use vti_didcomm_js.Base64url.{DecodeError, decode}
use vti_didcomm_js.TspFrame.{is_tsp_frame_text}
use vti_didcomm_js.MediatorTransport.{
  is_text, is_stored_mediator_reply, accepts_sender, FromError, normalize_from,
}
use vti_didcomm_js.MediatorTransport.Sender.{FrameError, is_permanently_refused}
use vti_didcomm_js.MediatorTransport.Session.{
  Held, Waiter, Session, Config, Inbound, Event, WaitError, Task, Outcome, tsp_handoff, refused,
  reported, resolved, rejected, close_called, dispatch, settle, tsp_dispatch, tsp_settle,
  drop_refused, is_seen, mark_seen, ack_received, from_mediator, deliver, take_first,
  decode_tsp_frame, unpack_frame, dispatch_tsp_frame, timed_out, socket_error, socket_closed,
  session_closed,
}

-- Boolean(senderDid)
abbrev pub is_named : Option Text → Bool
is_named none = false
is_named (some did) = not (text_eq did [])

abbrev pub did_or_empty : Option Text → Text
did_or_empty none = []
did_or_empty (some did) = did

-- isQueued of _dispatchFrame
unfoldable pub is_queued : Config → Inbound → Bool
is_queued cfg r =
    is_named r.sender_did
    && (not (from_mediator cfg (did_or_empty r.sender_did)) || is_stored_mediator_reply r.message)

-- The part of a method that marks and acks a queue-id.
unfoldable pub mark_and_ack : Session → Text → Outcome
mark_and_ack s id = record { session = mark_seen s id; tasks = []; events = ack_received s id }

unfoldable pub ack_again : Session → Text → Outcome
ack_again s id = record { session = s; tasks = []; events = ack_received s id }

-- What resumes a suspended method; `threw` tells whether the awaited handler threw.
unfoldable pub resume_dispatch : Config → Inbound → Option Text → Session → Outcome
resume_dispatch cfg r none s = deliver cfg none r.message r.sender_did r.sender_kid s
resume_dispatch cfg r (some id) s =
    if is_seen s.seen id
    then ack_again s id
    else deliver cfg (some id) r.message r.sender_did r.sender_kid s

unfoldable pub resume_tsp : List ℕ → Text → Session → Outcome
resume_tsp qb2 id s =
    if is_seen s.seen id
    then ack_again s id
    else record { session = s; tasks = tsp_settle id ∷ []; events = tsp_handoff id qb2 ∷ [] }

unfoldable pub resume : Config → Task → (threw : Bool) → Session → Outcome
resume cfg (dispatch r id) threw s = resume_dispatch cfg r id s
resume cfg (settle none) threw s = record { session = s; tasks = []; events = [] }
resume cfg (settle (some id)) threw s = mark_and_ack s id
resume cfg (tsp_dispatch qb2 id) threw s = resume_tsp qb2 id s
resume cfg (tsp_settle id) true s = record {
  session = s;
  tasks = [];
  events = reported dispatch_tsp_frame ∷ [];
}
resume cfg (tsp_settle id) false s = mark_and_ack s id
resume cfg (drop_refused id) threw s = mark_and_ack s id

module _ (sha256_hex : Text → Text) (peek_skid : Text → Option Text)
    (unpack_frame_text : Text → Result FrameError Inbound) (cfg : Config) where
  unfoldable pub on_tsp_frame_text : Text → Result DecodeError (List ℕ) → Session → Outcome
  on_tsp_frame_text text (err e) s = record {
    session = s;
    tasks = [];
    events = reported decode_tsp_frame ∷ [];
  }
  on_tsp_frame_text text (ok qb2) s = record {
    session = s;
    tasks = if cfg.on_tsp_frame then tsp_dispatch qb2 (sha256_hex text) ∷ [] else [];
    events = [];
  }

  -- A frame refused for good is dropped, unless its `skid` names the mediator.
  unfoldable pub is_dropped : Text → FrameError → Bool
  is_dropped text e =
      is_permanently_refused e
      && not
          (text_eq (scid_identity (did_or_empty (peek_skid text))) (scid_identity cfg.mediator_did))

  unfoldable pub on_didcomm_frame : Text → Result FrameError Inbound → Session → Outcome
  on_didcomm_frame text (ok r) s = record {
    session = s;
    tasks = dispatch r (if is_queued cfg r then some (sha256_hex text) else none) ∷ [];
    events = [];
  }
  on_didcomm_frame text (err e) s =
      if is_dropped text e
      then record {
        session = s;
        tasks = drop_refused (sha256_hex text) ∷ [];
        events = refused (sha256_hex text) ∷ [];
      }
      else record { session = s; tasks = []; events = reported unpack_frame ∷ [] }

  -- _onFrame, of a text or of decoded bytes
  unfoldable pub on_frame : Text → Session → Outcome
  on_frame text s =
      if is_tsp_frame_text text
      then on_tsp_frame_text text (decode text) s
      else on_didcomm_frame text (unpack_frame_text text) s

-- waitFor; `timer` identifies the call
unfoldable pub wait_or_take :
    ℕ → Text → Option (List Text) → Session → Option (Held × List Held) → Outcome
wait_or_take timer thid from s (some found) = record {
  session = record s { inbox = found.1 };
  tasks = [];
  events = resolved timer found.0.message found.0.sender ∷ [];
}
wait_or_take timer thid from s none = record {
  session = record s {
    waiters = s.waiters ++ (record { timer = timer; thid = thid; from = from } ∷ []);
  };
  tasks = [];
  events = [];
}

unfoldable pub answers : Text → Option (List Text) → Held → Bool
answers thid from m = is_text m.thid thid && accepts_sender from m.sender

unfoldable pub wait_from : ℕ → Text → Option (List Text) → Session → Outcome
wait_from timer thid from s =
    wait_or_take timer thid from s (take_first (answers thid from) s.inbox)

unfoldable pub wait_for : ℕ → Text → Option (List Text) → Session → Result FromError Outcome
wait_for timer thid from s = normalize_from from >>= λ senders. ok (wait_from timer thid senders s)

-- The callback of a timer of waitFor.
abbrev pub rest_or {ℓ} : {A B : Type ℓ} → Option (A × B) → B → B
rest_or none b = b
rest_or (some found) b = found.1

unfoldable pub time_out : ℕ → Session → Outcome
time_out timer s = record {
  session = record s { waiters = rest_or (take_first (λ w. w.timer == timer) s.waiters) s.waiters };
  tasks = [];
  events = rejected timer timed_out ∷ [];
}

-- for (const w of this._waiters.splice(0)) w.reject(...)
unfoldable pub reject_all : WaitError → List Waiter → List Event
reject_all e ws = reverse (map (λ w. rejected w.timer e) ws)

-- close
unfoldable pub close : Session → Outcome
close s = record {
  session = record s { waiters = []; is_open = false; user_closed = true };
  tasks = [];
  events = reject_all session_closed s.waiters;
}

-- ws.onerror and ws.onclose, once connect() has settled
unfoldable pub on_error : Session → Outcome
on_error s = record {
  session = record s { waiters = [] };
  tasks = [];
  events = reject_all socket_error s.waiters;
}

unfoldable pub on_close : Config → Session → Outcome
on_close cfg s = record {
  session = record s { waiters = []; is_open = false };
  tasks = [];
  events =
      (if not s.user_closed && cfg.on_close then close_called ∷ [] else [])
      ++ reject_all socket_closed s.waiters;
}
