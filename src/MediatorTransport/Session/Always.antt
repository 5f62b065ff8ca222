-- ===== src/MediatorTransport/Session/Always.antt =====
-- What holds of every session that steps reach (src/mediator-transport.js).
use vti_didcomm_js.Prelude.{
  ℕ, ◌≤◌, Bool, true, false, Option, none, some, List, [], ◌∷◌, ◌++◌, map, not, ◌&&◌, ◌≡◌,
  if◌then◌else◌, Result, ok, err, arith, length, All, All-append, All-append_left, All-append_right,
  Bool-cases, inl, inr, All-reverse, refl,
}
use vti_didcomm_js.Prelude.Text.{Text, text_eq_refl}
use vti_didcomm_js.Base64url.{DecodeError, decode}
use vti_didcomm_js.TspFrame.{is_tsp_frame_text}
use vti_didcomm_js.MediatorTransport.{normalize_from}
use vti_didcomm_js.MediatorTransport.Sender.{FrameError}
use vti_didcomm_js.MediatorTransport.Session.{
  Held, Waiter, Session, Config, Inbound, Event, WaitError, Outcome, decode_tsp_frame, unpack_frame,
  socket_error, socket_closed, session_closed, reported, rejected, close_called, tsp_dispatch,
  take_first, found_after, max_inbox, max_seen,
}
use vti_didcomm_js.MediatorTransport.Session.Steps.{
  resume, on_frame, on_tsp_frame_text, on_didcomm_frame, is_dropped, wait_for, wait_from,
  wait_or_take, answers, time_out, reject_all, close, on_error, on_close,
}
use vti_didcomm_js.MediatorTransport.Session.Invariant.{
  System, Step, Reachable, receive, resumed, waiting, timing_out, closing, socket_failing,
  socket_closing, start, step, IsHanded, IsAfterHandoff, AckedAfter, IsBacked, IsBounded, IsSound,
  IsFair, after-IsSound,
}
use vti_didcomm_js.Prelude.{>>=-eq-ok, ok-injective}
use mathlib.Core.Path.{subst}
use Prim.Native.Nat.{suc}
use vti_didcomm_js.Prelude.Maybe.{some-injective}
use vti_didcomm_js.MediatorTransport.Session.Sound.{IsSafe, IsFair-quiet, resume-IsFair}

take_first-length :
    {A : Type 0} (p : A → Bool) (xs : List A) (found : A × List A)
    → take_first p xs ≡ some found
    → length found.1 ≤ length xs
unfolding take_first found_after
take_first-length p [] found e = cc
take_first-length {A} p (x ∷ xs) found e = elim (Bool-cases (p x)) [
  | inl here ↦
      subst (λ f. length f.1 ≤ suc (length xs)) (some-injective (rw here at e)) (omega arith)
  | inr later ↦ go (take_first p xs) (λ f. take_first-length p xs f) (rw later at e)
]
  where
    go :
        (r : Option (A × List A))
        → ((f : A × List A) → r ≡ some f → length f.1 ≤ length xs)
        → found_after x r ≡ some found
        → length found.1 ≤ suc (length xs)
    go none shorter h = cc
    go (some f) shorter h =
        subst (λ f'. length f'.1 ≤ suc (length xs)) (some-injective h)
          (omega (arith, shorter f refl))

module _ (cfg : Config) where
  reject_all-IsAfterHandoff :
      (log : List Event) (e : WaitError) (ws : List Waiter)
      → All (IsAfterHandoff cfg log) (reject_all e ws)
  unfolding reject_all
  reject_all-IsAfterHandoff log e ws = All-reverse (IsAfterHandoff cfg log) _ (rejects ws)
    where
      rejects : (vs : List Waiter) → All (IsAfterHandoff cfg log) (map (λ w. rejected w.timer e) vs)
      rejects [] = tt
      rejects (v ∷ vs) = (tt, rejects vs)

  IsFair-bounded :
      (log : List Event) (s : Session) (events : List Event)
      → IsBounded s
      → All (IsHanded cfg log) s.seen
      → All (IsAfterHandoff cfg log) events
      → IsFair cfg log (record { session = s; tasks = []; events = events })
  IsFair-bounded log s events bounded seen h = IsFair-quiet cfg log s events (bounded, seen) h

  wait_from-IsFair :
      (log : List Event) (timer : ℕ) (thid : Text) (from : Option (List Text)) (s : Session)
      → IsSafe cfg log s
      → IsFair cfg log (wait_from timer thid from s)
  unfolding wait_from wait_or_take
  wait_from-IsFair log timer thid from s ((inbox, size), seen) =
      go (take_first (answers thid from) s.inbox) refl
    where
      go :
          (r : Option (Held × List Held))
          → take_first (answers thid from) s.inbox ≡ r
          → IsFair cfg log (wait_or_take timer thid from s r)
      go none e = ((inbox, size), (seen, (tt, tt)))
      go (some f) e =
          ((omega (arith, inbox, take_first-length _ s.inbox f e), size), (seen, (tt, (tt, tt))))

  wait_for-IsFair :
      (log : List Event) (timer : ℕ) (thid : Text) (from : Option (List Text)) (s : Session)
      (o : Outcome)
      → IsSafe cfg log s
      → wait_for timer thid from s ≡ ok o
      → IsFair cfg log o
  unfolding wait_for
  wait_for-IsFair log timer thid from s o safe e =
      let (senders, en, e₁) = >>=-eq-ok (normalize_from from) _ e in
      subst (IsFair cfg log) (ok-injective e₁) (wait_from-IsFair log timer thid senders s safe)

  on_close-IsFair :
      (log : List Event) (s : Session) → IsSafe cfg log s → IsFair cfg log (on_close cfg s)
  unfolding on_close
  on_close-IsFair log s safe = (
    safe.0,
    (
      safe.1,
      (
        tt,
        All-append (IsAfterHandoff cfg log) _ _ (called (not s.user_closed && cfg.on_close))
            (reject_all-IsAfterHandoff log socket_closed s.waiters),
      ),
    ),
  )
    where
      called : (b : Bool) → All (IsAfterHandoff cfg log) (if b then close_called ∷ [] else [])
      called true = (tt, tt)
      called false = tt

  time_out-IsFair :
      (log : List Event) (timer : ℕ) (s : Session)
      → IsSafe cfg log s
      → IsFair cfg log (time_out timer s)
  unfolding time_out
  time_out-IsFair log timer s (bounded, seen) = (bounded, (seen, (tt, (tt, tt))))

  close-IsFair : (log : List Event) (s : Session) → IsSafe cfg log s → IsFair cfg log (close s)
  unfolding close
  close-IsFair log s safe =
      (safe.0, (safe.1, (tt, reject_all-IsAfterHandoff log session_closed s.waiters)))

  on_error-IsFair :
      (log : List Event) (s : Session) → IsSafe cfg log s → IsFair cfg log (on_error s)
  unfolding on_error
  on_error-IsFair log s safe =
      (safe.0, (safe.1, (tt, reject_all-IsAfterHandoff log socket_error s.waiters)))

  module _ (sha256_hex : Text → Text) (peek_skid : Text → Option Text)
      (unpack_frame_text : Text → Result FrameError Inbound) where
    on_frame-IsFair :
        (log : List Event) (text : Text) (s : Session)
        → IsSafe cfg log s
        → IsFair cfg log (on_frame sha256_hex peek_skid unpack_frame_text cfg text s)
    unfolding on_frame on_tsp_frame_text on_didcomm_frame
    on_frame-IsFair log text s safe = elim (Bool-cases (is_tsp_frame_text text)) [
      | inl tsp ↦ rw tsp (on_tsp (decode text))
      | inr plain ↦ rw plain (on_didcomm (unpack_frame_text text))
    ]
      where
        on_tsp :
            (r : Result DecodeError (List ℕ))
            → IsFair cfg log (on_tsp_frame_text sha256_hex peek_skid unpack_frame_text cfg text r s)
        on_tsp (err e) = IsFair-quiet cfg log s (reported decode_tsp_frame ∷ []) safe (tt, tt)
        on_tsp (ok qb2) = (safe.0, (safe.1, (taken cfg.on_tsp_frame, tt)))
          where
            taken :
                (b : Bool)
                → All (IsBacked cfg log) (if b then tsp_dispatch qb2 (sha256_hex text) ∷ [] else [])
            taken true = (tt, tt)
            taken false = tt

        on_didcomm :
            (r : Result FrameError Inbound)
            → IsFair cfg log (on_didcomm_frame sha256_hex peek_skid unpack_frame_text cfg text r s)
        on_didcomm (ok r) = (safe.0, (safe.1, ((tt, tt), tt)))
        on_didcomm (err e) =
            elim (Bool-cases (is_dropped sha256_hex peek_skid unpack_frame_text cfg text e)) [
              | inl dropped ↦ rw dropped (safe.0, (safe.1, ((rw text_eq_refl refl, tt), (tt, tt))))
              | inr kept ↦
                  rw kept (IsFair-quiet cfg log s (reported unpack_frame ∷ []) safe (tt, tt))
            ]

    step-IsSound :
        {s t : System}
        → IsSound cfg s
        → Step sha256_hex peek_skid unpack_frame_text cfg s t
        → IsSound cfg t
    step-IsSound (bounded, (seen, (tasks, acks))) (receive text s) =
        after-IsSound cfg s.tasks
          (on_frame sha256_hex peek_skid unpack_frame_text cfg text s.session) s.log tasks acks
          (on_frame-IsFair s.log text s.session (bounded, seen))
    step-IsSound (bounded, (seen, (tasks, acks))) (resumed before later task threw s log) =
        let left = All-append_left (IsBacked cfg log) before (task ∷ later) tasks in
        let right = All-append_right (IsBacked cfg log) before (task ∷ later) tasks in
        after-IsSound cfg (before ++ later) (resume cfg task threw s) log
          (All-append (IsBacked cfg log) before later left right.1) acks
          (resume-IsFair cfg log task threw s (bounded, seen) right.0)
    step-IsSound (bounded, (seen, (tasks, acks))) (waiting timer thid from s o e) =
        after-IsSound cfg s.tasks o s.log tasks acks
          (wait_for-IsFair s.log timer thid from s.session o (bounded, seen) e)
    step-IsSound (bounded, (seen, (tasks, acks))) (timing_out timer s) =
        after-IsSound cfg s.tasks (time_out timer s.session) s.log tasks acks
          (time_out-IsFair s.log timer s.session (bounded, seen))
    step-IsSound (bounded, (seen, (tasks, acks))) (closing s) =
        after-IsSound cfg s.tasks (close s.session) s.log tasks acks
          (close-IsFair s.log s.session (bounded, seen))
    step-IsSound (bounded, (seen, (tasks, acks))) (socket_failing s) =
        after-IsSound cfg s.tasks (on_error s.session) s.log tasks acks
          (on_error-IsFair s.log s.session (bounded, seen))
    step-IsSound (bounded, (seen, (tasks, acks))) (socket_closing s) =
        after-IsSound cfg s.tasks (on_close cfg s.session) s.log tasks acks
          (on_close-IsFair s.log s.session (bounded, seen))

    Reachable-IsSound :
        {s : System} → Reachable sha256_hex peek_skid unpack_frame_text cfg s → IsSound cfg s
    Reachable-IsSound start = ((omega arith, omega arith), (tt, (tt, tt)))
    Reachable-IsSound (step before last) = step-IsSound (Reachable-IsSound before) last

    -- In any order of frames, resumed methods, calls, timers and socket events, a `messages-received` ack
    -- of a queue-id is sent only after the frame of this queue-id was handed to its consumer, or was
    -- reported as refused for good. The consumer of a TSP frame is its handler; that of a message is a
    -- waiter, or the mediator listener where there is one and the sender is the mediator, or else the
    -- listener; a message counts as handed to nobody only where none of these listeners is configured for
    -- its sender.
    pub AckedAfter-handoff :
        (s : System) → Reachable sha256_hex peek_skid unpack_frame_text cfg s → AckedAfter cfg s.log
    AckedAfter-handoff s r = (Reachable-IsSound r).1.1.1

    -- In any such order, at most 256 messages are buffered and at most 1024 queue-ids remembered.
    pub Reachable-IsBounded :
        (s : System)
        → Reachable sha256_hex peek_skid unpack_frame_text cfg s
        → (length s.session.inbox ≤ max_inbox) × (length s.session.seen ≤ max_seen)
    Reachable-IsBounded s r = (Reachable-IsSound r).0
