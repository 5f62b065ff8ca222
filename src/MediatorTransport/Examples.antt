-- ===== src/MediatorTransport/Examples.antt =====
-- Runs of mediator-transport.js, and its theorems at concrete inputs.
use vti_didcomm_js.Prelude.{
  refl, ◌≡◌, true, false, some, none, Option, ok, Result, List, [], ◌∷◌, ◌≤◌, length, arith,
  if◌then◌else◌,
}
use vti_didcomm_js.Json.{Json}
use vti_didcomm_js.Envelope.{EnvelopeError}
use vti_didcomm_js.Envelope.Unpack.{unpack}
use vti_didcomm_js.Envelope.Toy.{toy}
use vti_didcomm_js.Envelope.RoundTrip.Authcrypt.{authenticated_as}
use vti_didcomm_js.Envelope.Examples.{reader, shared, message, delivered}
use vti_didcomm_js.MediatorTransport.Messages.{peek_skid}
use vti_didcomm_js.MediatorTransport.Peek.{unpack-peek_skid}
use vti_didcomm_js.Prelude.{>>=-ok, or_throw, ap, ◌∙◌}
use vti_didcomm_js.Prelude.Text.{Text, codes, text_eq, starts_with, includes}
use vti_didcomm_js.TspFrame.{is_tsp_frame_text}
use vti_didcomm_js.DidScid.{
  before, without, split_src, strip_scid_src, same_reference, scid_identity,
}
use vti_didcomm_js.MediatorTransport.{
  Message, VerifiedSender, is_text, thread_of, thread_or, parent_or_id, accepts_sender,
}
use vti_didcomm_js.MediatorTransport.Sender.{
  FrameError, SenderKey, no_skid, sender_mismatch, not_unpacked, frame_error, or_frame_error,
  did_of_kid, absolute_kid, is_key_for, is_same_kid, key_for_skid, or_else, seeded_key, sender_key,
  unpack_inbound,
}
use vti_didcomm_js.MediatorTransport.Sender.Choice.{IsFrom, unpack_inbound-key}
use vti_didcomm_js.MediatorTransport.Session.{
  Session, Config, Inbound, handoff, acked, listener, dispatch, settle, is_seen, mark_seen,
  ack_received, from_mediator, deliver, take_first, shift_over, add_seen, max_inbox, max_seen,
  to_listener, to_waiter, listener_for, is_buffered, wants,
}
use vti_didcomm_js.MediatorTransport.Session.Steps.{
  resume, resume_dispatch, mark_and_ack, on_frame, on_didcomm_frame, is_queued, wait_from, answers,
}
use vti_didcomm_js.MediatorTransport.Session.Invariant.{
  System, fresh, Step, Reachable, receive, resumed, start, step, AckedAfter,
}
use vti_didcomm_js.MediatorTransport.Session.Always.{AckedAfter-handoff, Reachable-IsBounded}
use vti_didcomm_js.MediatorTransport.Session.Seen.{mark_all, mark_seen-window}
use vti_didcomm_js.MediatorTransport.Session.Waiters.{
  GoesToFirst, TakesOldest, deliver_first, wait_from_oldest,
}

abbrev report : Message
report = record {
  id = some (codes "m2");
  typ = some (codes "https://didcomm.org/report-problem/2.0/problem-report");
  thid = none;
  pthid = some (codes "m1");
  body = codes "denied";
}

-- A problem report answers its parent thread.
report-thread_of : thread_of report ≡ some (codes "m1")
unfolding thread_of thread_or parent_or_id is_text text_eq
report-thread_of = refl

abbrev alice : VerifiedSender
alice = record { did = codes "did:a:1"; kid = codes "did:a:1#k" }

abbrev config : Config
config = record {
  mediator_did = codes "did:m:1";
  on_message = true;
  on_mediator_message = false;
  on_tsp_frame = false;
  on_close = false;
}

abbrev inbound : Inbound
inbound = record { message = report; sender_did = some alice.did; sender_kid = some alice.kid }

abbrev digest : Text → Text
digest text = codes "q"

abbrev no_skid_of : Text → Option Text
no_skid_of text = none

abbrev unpacked : Text → Result FrameError Inbound
unpacked text = ok inbound

abbrev received : System
received = record {
  session = fresh.session;
  tasks = dispatch inbound (some (codes "q")) ∷ [];
  log = [];
}

abbrev buffered : Session
buffered = record {
  inbox = record { thid = some (codes "m1"); message = report; sender = alice } ∷ [];
  waiters = [];
  seen = [];
  is_open = true;
  user_closed = false;
}

abbrev handed : System
handed = record {
  session = buffered;
  tasks = settle (some (codes "q")) ∷ [];
  log = handoff (some (codes "q")) listener report alice ∷ [];
}

abbrev settled : System
settled = record {
  session = record buffered { seen = codes "q" ∷ [] };
  tasks = [];
  log = acked (codes "q") ∷ handoff (some (codes "q")) listener report alice ∷ [];
}

receiving : Step digest no_skid_of unpacked config fresh received
unfolding on_frame on_didcomm_frame is_tsp_frame_text is_queued from_mediator text_eq scid_identity
    strip_scid_src without split_src before starts_with includes
receiving = receive (codes "{}") fresh

handing : Step digest no_skid_of unpacked config received handed
unfolding resume resume_dispatch deliver to_waiter to_listener take_first is_buffered listener_for
    thread_of thread_or parent_or_id is_text shift_over from_mediator text_eq scid_identity
    strip_scid_src without split_src before starts_with includes
handing = resumed [] [] (dispatch inbound (some (codes "q"))) false fresh.session []

settling : Step digest no_skid_of unpacked config handed settled
unfolding resume mark_and_ack mark_seen add_seen shift_over ack_received
settling =
    resumed [] [] (settle (some (codes "q"))) false buffered
      (handoff (some (codes "q")) listener report alice ∷ [])

reached : Reachable digest no_skid_of unpacked config settled
reached = step (step (step start receiving) handing) settling

AckedAfter-handoff_example : AckedAfter config settled.log
AckedAfter-handoff_example = AckedAfter-handoff config digest no_skid_of unpacked settled reached

Reachable-IsBounded_example :
    (length settled.session.inbox ≤ max_inbox) × (length settled.session.seen ≤ max_seen)
Reachable-IsBounded_example = Reachable-IsBounded config digest no_skid_of unpacked settled reached

mark_seen-window_example :
    is_seen
      (mark_all (mark_seen fresh.session (codes "q")) (codes "r" ∷ codes "s" ∷ [])).seen
      (codes "q")
    ≡ true
mark_seen-window_example =
    mark_seen-window fresh.session (codes "q") (codes "r" ∷ codes "s" ∷ []) refl (omega arith)

abbrev waiting : Session
waiting = record {
  inbox = [];
  waiters =
      record { timer = 1; thid = codes "m1"; from = some (codes "did:b:1" ∷ []) }
      ∷ record { timer = 2; thid = codes "m1"; from = some (codes "did:a:1" ∷ []) }
      ∷ [];
  seen = [];
  is_open = true;
  user_closed = false;
}

deliver_first_example :
    GoesToFirst
      (some (codes "q"))
      report
      alice
      waiting
      (deliver config (some (codes "q")) report (some alice.did) (some alice.kid) waiting)
unfolding wants thread_of thread_or parent_or_id is_text accepts_sender text_eq
deliver_first_example = deliver_first config (some (codes "q")) report alice waiting refl

wait_from_oldest_example :
    TakesOldest 3
      (codes "m1")
      (some (codes "did:a:1" ∷ []))
      buffered
      (wait_from 3 (codes "m1") (some (codes "did:a:1" ∷ [])) buffered)
unfolding answers is_text accepts_sender text_eq
wait_from_oldest_example =
    wait_from_oldest 3 (codes "m1") (some (codes "did:a:1" ∷ [])) buffered refl

abbrev alice_key : SenderKey Json
alice_key = record { kid = some (codes "#1"); public_jwk = some shared }

abbrev seeds : Text → List (SenderKey Json)
seeds did = if text_eq did (codes "did:ex:alice") then alice_key ∷ [] else []

mismatch-frame_error :
    (frame_error EnvelopeError.sender_mismatch ≡ sender_mismatch)
    × (frame_error EnvelopeError.not_json ≡ not_unpacked)
unfolding frame_error
mismatch-frame_error = (refl, refl)

-- The frame that Alice packed.
abbrev frame : Text
frame = delivered.0

frame-skid : peek_skid toy frame ≡ some (codes "did:ex:alice#1")
frame-skid =
    unpack-peek_skid toy frame reader (some shared)
      (authenticated_as (codes "did:ex:alice#1") message) delivered.2 refl

alice-found :
    sender_key seeds none (codes "did:ex:alice#1") (seeded_key seeds none (codes "did:ex:alice#1"))
    ≡ ok alice_key
unfolding sender_key seeded_key or_else key_for_skid is_key_for is_same_kid absolute_kid did_of_kid
    same_reference text_eq scid_identity strip_scid_src without split_src before starts_with
    includes
alice-found = refl

frame-unpacked :
    or_frame_error (unpack toy frame reader (some shared))
    ≡ ok (authenticated_as (codes "did:ex:alice#1") message)
unfolding or_frame_error
frame-unpacked = ap or_frame_error delivered.2

opened :
    unpack_inbound toy reader seeds none frame
    ≡ ok (alice_key, authenticated_as (codes "did:ex:alice#1") message)
unfolding unpack_inbound text_eq
opened =
    >>=-ok _ _ (codes "did:ex:alice#1") (ap (λ o. or_throw o no_skid) frame-skid)
    ∙ >>=-ok _ _ alice_key alice-found
    ∙ >>=-ok _ _ (authenticated_as (codes "did:ex:alice#1") message) frame-unpacked

unpack_inbound-key_example :
    IsFrom toy reader frame alice_key (authenticated_as (codes "did:ex:alice#1") message)
unpack_inbound-key_example =
    unpack_inbound-key toy reader seeds none frame alice_key
      (authenticated_as (codes "did:ex:alice#1") message) opened
