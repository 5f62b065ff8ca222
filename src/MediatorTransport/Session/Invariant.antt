-- ===== src/MediatorTransport/Session/Invariant.antt =====
-- The invariant of the steps of a session (src/mediator-transport.js).
use vti_didcomm_js.Prelude.{
  not, ◌&&◌, ◌||◌, ℕ, ◌≤◌, Bool, true, false, Option, none, some, List, [], ◌∷◌, ◌++◌, ◌≡◌, Result,
  ok, any, arith, length, All, All-append,
}
use vti_didcomm_js.Prelude.Text.{Text, text_eq}
use vti_didcomm_js.MediatorTransport.Sender.{FrameError}
use vti_didcomm_js.MediatorTransport.Session.{
  Recipient, waiter, listener, mediator_listener, nobody, from_mediator, Session, Config, Inbound,
  Event, Task, Outcome, handoff, tsp_handoff, refused, acked, reported, resolved, rejected,
  close_called, dispatch, settle, tsp_dispatch, tsp_settle, drop_refused, max_inbox, max_seen,
}
use vti_didcomm_js.MediatorTransport.Session.Steps.{
  resume, on_frame, wait_for, time_out, close, on_error, on_close,
}

-- A session with its suspended methods and what it did, latest first.
pub record System : Type 0 where
  pub session : Session
  pub tasks : List Task
  pub log : List Event

-- An operation's outcome joins the tasks that stay suspended and the log.
abbrev pub after : List Task → Outcome → List Event → System
after tasks o log = record { session = o.session; tasks = tasks ++ o.tasks; log = o.events ++ log }

abbrev pub fresh : System
fresh = record {
  session = record { inbox = []; waiters = []; seen = []; is_open = true; user_closed = false };
  tasks = [];
  log = [];
}

module _ (sha256_hex : Text → Text) (peek_skid : Text → Option Text)
    (unpack_frame_text : Text → Result FrameError Inbound) (cfg : Config) where
  -- One step: a frame arrives, a suspended method goes on, a call, a timer, or an event of the socket.
  pub data Step : System → System → Type 0 where
    receive :
        (text : Text) (s : System)
        → Step s (
            after s.tasks
              (on_frame sha256_hex peek_skid unpack_frame_text cfg text s.session)
              s.log)
    resumed :
        (before later : List Task) (task : Task) (threw : Bool) (s : Session) (log : List Event)
        → Step
            (record { session = s; tasks = before ++ (task ∷ later); log = log })
            (after (before ++ later) (resume cfg task threw s) log)
    waiting :
        (timer : ℕ) (thid : Text) (from : Option (List Text)) (s : System) (o : Outcome)
        → wait_for timer thid from s.session ≡ ok o
        → Step s (after s.tasks o s.log)
    timing_out : (timer : ℕ) (s : System) → Step s (after s.tasks (time_out timer s.session) s.log)
    closing : (s : System) → Step s (after s.tasks (close s.session) s.log)
    socket_failing : (s : System) → Step s (after s.tasks (on_error s.session) s.log)
    socket_closing : (s : System) → Step s (after s.tasks (on_close cfg s.session) s.log)

  -- What steps from a fresh session reach.
  pub data Reachable : System → Type 0 where
    start : Reachable fresh
    step : {s t : System} → Reachable s → Step s t → Reachable t

-- The caps on what a session keeps.
abbrev pub IsBounded : Session → Type 0
IsBounded s = (length s.inbox ≤ max_inbox) × (length s.seen ≤ max_seen)

module _ (cfg : Config) where
  -- The consumer of a message from this sender: a waiter, or else the listener of the mediator's messages, or
  -- else the listener of all messages; nobody where there is no such listener.
  abbrev pub is_consumer : Text → Recipient → Bool
  is_consumer did (waiter n) = true
  is_consumer did mediator_listener = cfg.on_mediator_message && from_mediator cfg did
  is_consumer did listener =
      cfg.on_message && (not cfg.on_mediator_message || not (from_mediator cfg did))
  is_consumer did nobody =
      not cfg.on_message && (not cfg.on_mediator_message || not (from_mediator cfg did))

  -- The event hands the frame of a queue-id to its consumer, or reports it as refused for good.
  abbrev pub is_handing : Text → Event → Bool
  is_handing id (handoff (some q) to message sender) = text_eq id q && is_consumer sender.did to
  is_handing id (tsp_handoff q qb2) = text_eq id q
  is_handing id (refused q) = text_eq id q
  is_handing id (handoff none to message sender) = false
  is_handing id (acked q) = false
  is_handing id (reported stage) = false
  is_handing id (resolved n message sender) = false
  is_handing id (rejected n e) = false
  is_handing id close_called = false

  abbrev pub IsHanded : List Event → Text → Type 0
  IsHanded log id = any (is_handing id) log ≡ true

  -- An ack follows the handoff of its frame.
  abbrev pub IsAfterHandoff : List Event → Event → Type 0
  IsAfterHandoff log (acked id) = IsHanded log id
  IsAfterHandoff log (handoff q to message sender) = Unit
  IsAfterHandoff log (tsp_handoff q qb2) = Unit
  IsAfterHandoff log (refused q) = Unit
  IsAfterHandoff log (reported stage) = Unit
  IsAfterHandoff log (resolved n message sender) = Unit
  IsAfterHandoff log (rejected n e) = Unit
  IsAfterHandoff log close_called = Unit

  abbrev pub AckedAfter : List Event → Type 0
  AckedAfter [] = Unit
  AckedAfter (e ∷ log) = IsAfterHandoff log e × AckedAfter log

  -- A method that will ack a queue-id has handed its frame off.
  abbrev pub IsBacked : List Event → Task → Type 0
  IsBacked log (settle (some id)) = IsHanded log id
  IsBacked log (tsp_settle id) = IsHanded log id
  IsBacked log (drop_refused id) = IsHanded log id
  IsBacked log (settle none) = Unit
  IsBacked log (dispatch r id) = Unit
  IsBacked log (tsp_dispatch qb2 id) = Unit

  abbrev pub IsSound : System → Type 0
  IsSound s =
      IsBounded s.session
      × (All (IsHanded s.log) s.session.seen × (All (IsBacked s.log) s.tasks × AckedAfter s.log))

  -- What an operation owes the log that it extends.
  abbrev pub IsFair : List Event → Outcome → Type 0
  IsFair log o =
      IsBounded o.session
      × (All (IsHanded log) o.session.seen
          × (All (IsBacked (o.events ++ log)) o.tasks × All (IsAfterHandoff log) o.events))

  any-append_right :
      {A : Type 0} (p : A → Bool) (xs ys : List A) → any p ys ≡ true → any p (xs ++ ys) ≡ true
  any-append_right p [] ys h = h
  any-append_right p (x ∷ xs) ys h = ground (arith, any-append_right p xs ys h)

  IsAfterHandoff-append :
      (es log : List Event) (e : Event) → IsAfterHandoff log e → IsAfterHandoff (es ++ log) e
  IsAfterHandoff-append es log (acked id) h = any-append_right (is_handing id) es log h
  IsAfterHandoff-append es log (handoff q to message sender) h = tt
  IsAfterHandoff-append es log (tsp_handoff q qb2) h = tt
  IsAfterHandoff-append es log (refused q) h = tt
  IsAfterHandoff-append es log (reported stage) h = tt
  IsAfterHandoff-append es log (resolved n message sender) h = tt
  IsAfterHandoff-append es log (rejected n e) h = tt
  IsAfterHandoff-append es log close_called h = tt

  IsBacked-append : (es log : List Event) (t : Task) → IsBacked log t → IsBacked (es ++ log) t
  IsBacked-append es log (settle (some id)) h = any-append_right (is_handing id) es log h
  IsBacked-append es log (tsp_settle id) h = any-append_right (is_handing id) es log h
  IsBacked-append es log (drop_refused id) h = any-append_right (is_handing id) es log h
  IsBacked-append es log (settle none) h = tt
  IsBacked-append es log (dispatch r id) h = tt
  IsBacked-append es log (tsp_dispatch qb2 id) h = tt

  All-map {ℓ κ} :
      {A : Type ℓ} {P Q : A → Type κ} → ((x : A) → P x → Q x) → (xs : List A) → All P xs → All Q xs
  All-map f [] h = tt
  All-map f (x ∷ xs) (p, h) = (f x p, All-map f xs h)

  AckedAfter-append :
      (es log : List Event) → All (IsAfterHandoff log) es → AckedAfter log → AckedAfter (es ++ log)
  AckedAfter-append [] log h k = k
  AckedAfter-append (e ∷ es) log (p, h) k =
      (IsAfterHandoff-append es log e p, AckedAfter-append es log h k)

  -- A fair operation keeps the invariant.
  pub after-IsSound :
      (tasks : List Task) (o : Outcome) (log : List Event)
      → All (IsBacked log) tasks
      → AckedAfter log
      → IsFair log o
      → IsSound (after tasks o log)
  after-IsSound tasks o log backed acks (bounded, (seen, (new, events))) = (
    bounded,
    (
      All-map (λ id. any-append_right (is_handing id) o.events log) o.session.seen seen,
      (
        All-append (IsBacked (o.events ++ log)) tasks o.tasks
            (All-map (IsBacked-append o.events log) tasks backed) new,
        AckedAfter-append o.events log events acks,
      ),
    ),
  )
