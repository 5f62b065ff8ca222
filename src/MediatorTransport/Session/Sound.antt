-- ===== src/MediatorTransport/Session/Sound.antt =====
-- Every step of a session keeps the invariant (src/mediator-transport.js).
use vti_didcomm_js.Prelude.{
  ℕ, ◌+◌, ◌≤◌, Bool, true, false, Option, none, some, List, [], ◌∷◌, ◌++◌, ◌≡◌, if◌then◌else◌,
  arith, length, length-append, drop, All, All-append, Bool-cases, ltb, inl, inr, sym, refl,
}
use vti_didcomm_js.Prelude.Text.{Text, text_eq, text_eq_refl, text_eq_iff}
use vti_didcomm_js.MediatorTransport.{Message, VerifiedSender}
use vti_didcomm_js.MediatorTransport.Session.{
  Recipient, listener_for, Held, Waiter, Session, Config, Event, Task, dispatch_message,
  dispatch_tsp_frame, handoff, refused, reported, dispatch, settle, tsp_dispatch, tsp_settle,
  drop_refused, is_seen, mark_seen, ack_received, from_mediator, deliver, shift_over, add_seen,
  max_inbox, to_listener, to_waiter, is_buffered,
}
use vti_didcomm_js.MediatorTransport.Session.Steps.{
  resume, resume_dispatch, resume_tsp, mark_and_ack, ack_again,
}
use vti_didcomm_js.MediatorTransport.Session.Invariant.{
  is_consumer, IsHanded, IsAfterHandoff, IsBacked, IsBounded, IsFair,
}
use mathlib.Core.Path.{subst}

module _ (cfg : Config) where
  -- What the operations are given: a session and its log.
  abbrev pub IsSafe : List Event → Session → Type 0
  IsSafe log s = IsBounded s × All (IsHanded cfg log) s.seen

  shift_over-length :
      {A : Type 0} (cap : ℕ) (xs : List A) → length xs ≤ cap + 1 → length (shift_over cap xs) ≤ cap
  unfolding shift_over
  shift_over-length cap [] h = ground arith
  shift_over-length cap (x ∷ xs) h = ground arith

  shift_over-All {κ} :
      {A : Type 0} (P : A → Type κ) (cap : ℕ) (xs : List A) → All P xs → All P (shift_over cap xs)
  unfolding shift_over
  shift_over-All P cap xs h = elim (Bool-cases (ltb cap (length xs))) [
    | inl over ↦ rw over (All-drop xs h)
    | inr under ↦ rw under h
  ]
    where
      All-drop : (ys : List _) → All P ys → All P (drop 1 ys)
      All-drop [] k = tt
      All-drop (y ∷ ys) (p, k) = k

  is_handing-handoff : (id : Text) (log : List Event) → IsHanded cfg (refused id ∷ log) id
  is_handing-handoff id log = rw text_eq_refl refl

  mark_seen-IsSafe :
      (log : List Event) (s : Session) (id : Text)
      → IsSafe log s
      → IsHanded cfg log id
      → IsSafe log (mark_seen s id)
  unfolding mark_seen add_seen
  mark_seen-IsSafe log s id ((inbox, size), seen) h = elim (Bool-cases (is_seen s.seen id)) [
    | inl old ↦ rw old (
      (inbox, shift_over-length 1024 s.seen (omega (arith, size))),
      shift_over-All (IsHanded cfg log) 1024 s.seen seen,
    )
    | inr new ↦
        let grown = s.seen ++ (id ∷ []) in
        rw new (
          (
            inbox,
            shift_over-length 1024 grown (omega (arith, size, length-append s.seen (id ∷ []))),
          ),
          shift_over-All (IsHanded cfg log) 1024 grown
              (All-append (IsHanded cfg log) s.seen (id ∷ []) seen (h, tt)),
        )
  ]

  ack_received-IsAfterHandoff :
      (log : List Event) (s : Session) (id : Text)
      → IsHanded cfg log id
      → All (IsAfterHandoff cfg log) (ack_received s id)
  unfolding ack_received
  ack_received-IsAfterHandoff log s id h = elim (Bool-cases s.is_open) [
    | inl up ↦ rw up (h, tt)
    | inr down ↦ rw down tt
  ]

  -- What each operation owes, by its parts.
  pub IsFair-quiet :
      (log : List Event) (s : Session) (events : List Event)
      → IsSafe log s
      → All (IsAfterHandoff cfg log) events
      → IsFair cfg log (record { session = s; tasks = []; events = events })
  IsFair-quiet log s events (bounded, seen) h = (bounded, (seen, (tt, h)))

  mark_and_ack-IsFair :
      (log : List Event) (s : Session) (id : Text)
      → IsSafe log s
      → IsHanded cfg log id
      → IsFair cfg log (mark_and_ack s id)
  unfolding mark_and_ack
  mark_and_ack-IsFair log s id safe h =
      IsFair-quiet log (mark_seen s id) _ (mark_seen-IsSafe log s id safe h)
        (ack_received-IsAfterHandoff log s id h)

  is_seen-IsHanded :
      (log : List Event) (seen : List Text) (id : Text)
      → All (IsHanded cfg log) seen
      → is_seen seen id ≡ true
      → IsHanded cfg log id
  is_seen-IsHanded log [] id h e = cc
  is_seen-IsHanded log (q ∷ seen) id (p, h) e = elim (Bool-cases (text_eq id q)) [
    | inl same ↦ subst (IsHanded cfg log) (sym ((text_eq_iff id q).0 same)) p
    | inr other ↦ is_seen-IsHanded log seen id h (rw other at e)
  ]

  ack_again-IsFair :
      (log : List Event) (s : Session) (id : Text)
      → IsSafe log s
      → is_seen s.seen id ≡ true
      → IsFair cfg log (ack_again s id)
  unfolding ack_again
  ack_again-IsFair log s id safe e =
      IsFair-quiet log s _ safe
        (ack_received-IsAfterHandoff log s id (is_seen-IsHanded log s.seen id safe.1 e))

  -- The listener that is called is the one that the configuration has for the sender.
  listener_for-is_consumer :
      (did : Text) → is_consumer cfg did (listener_for cfg (from_mediator cfg did)) ≡ true
  unfolding listener_for
  listener_for-is_consumer did = ground arith

  -- The queue-id of a handoff, none or some, is handed once the event is in the log.
  settle-IsBacked :
      (id : Option Text) (to : Recipient) (message : Message) (sender : VerifiedSender)
      (log : List Event)
      → is_consumer cfg sender.did to ≡ true
      → IsBacked cfg (handoff id to message sender ∷ log) (settle id)
  settle-IsBacked none to message sender log h = tt
  settle-IsBacked (some id) to message sender log h = rw (text_eq_refl, h) refl

  buffer-length :
      (keep : Bool) (inbox : List Held) (held : Held)
      → length inbox ≤ max_inbox
      → length (if keep then shift_over max_inbox (inbox ++ (held ∷ [])) else inbox) ≤ max_inbox
  buffer-length true inbox held h =
      shift_over-length 256 (inbox ++ (held ∷ []))
        (omega (arith, h, length-append inbox (held ∷ [])))
  buffer-length false inbox held h = h

  module _ (log : List Event) where
    to_listener-IsFair :
        (id : Option Text) (message : Message) (sender : VerifiedSender) (s : Session)
        → IsSafe log s
        → IsFair cfg log (to_listener cfg id message sender s)
    unfolding to_listener
    to_listener-IsFair id message sender s ((inbox, size), seen) = (
      (buffer-length (is_buffered (from_mediator cfg sender.did) message) s.inbox _ inbox, size),
      (
        seen,
        (
          (settle-IsBacked id _ message sender log (listener_for-is_consumer sender.did), tt),
          (tt, tt),
        ),
      ),
    )

    to_waiter-IsFair :
        (id : Option Text) (message : Message) (sender : VerifiedSender) (s : Session)
        (found : Option (Waiter × List Waiter))
        → IsSafe log s
        → IsFair cfg log (to_waiter cfg id message sender s found)
    unfolding to_waiter
    to_waiter-IsFair id message sender s none safe = to_listener-IsFair id message sender s safe
    to_waiter-IsFair none message sender s (some found) (bounded, seen) =
        (bounded, (seen, ((tt, tt), (tt, (tt, tt)))))
    to_waiter-IsFair (some id) message sender s (some found) (bounded, seen) =
        (bounded, (seen, ((rw text_eq_refl refl, tt), (tt, (tt, tt)))))

    deliver-IsFair :
        (id : Option Text) (message : Message) (did kid : Option Text) (s : Session)
        → IsSafe log s
        → IsFair cfg log (deliver cfg id message did kid s)
    unfolding deliver
    deliver-IsFair id message (some did) (some kid) s safe = to_waiter-IsFair id message _ s _ safe
    deliver-IsFair id message none kid s safe =
        IsFair-quiet log s (reported dispatch_message ∷ []) safe (tt, tt)
    deliver-IsFair id message (some did) none s safe =
        IsFair-quiet log s (reported dispatch_message ∷ []) safe (tt, tt)

    pub resume-IsFair :
        (t : Task) (threw : Bool) (s : Session)
        → IsSafe log s
        → IsBacked cfg log t
        → IsFair cfg log (resume cfg t threw s)
    unfolding resume resume_dispatch resume_tsp
    resume-IsFair (dispatch r none) threw s safe h =
        deliver-IsFair none r.message r.sender_did r.sender_kid s safe
    resume-IsFair (dispatch r (some id)) threw s safe h = elim (Bool-cases (is_seen s.seen id)) [
      | inl old ↦ rw old (ack_again-IsFair log s id safe old)
      | inr new ↦ rw new (deliver-IsFair (some id) r.message r.sender_did r.sender_kid s safe)
    ]
    resume-IsFair (settle none) threw s safe h = IsFair-quiet log s [] safe tt
    resume-IsFair (settle (some id)) threw s safe h = mark_and_ack-IsFair log s id safe h
    resume-IsFair (tsp_dispatch qb2 id) threw s safe h = elim (Bool-cases (is_seen s.seen id)) [
      | inl old ↦ rw old (ack_again-IsFair log s id safe old)
      | inr new ↦ rw new (safe.0, (safe.1, ((rw text_eq_refl refl, tt), (tt, tt))))
    ]
    resume-IsFair (tsp_settle id) true s safe h =
        IsFair-quiet log s (reported dispatch_tsp_frame ∷ []) safe (tt, tt)
    resume-IsFair (tsp_settle id) false s safe h = mark_and_ack-IsFair log s id safe h
    resume-IsFair (drop_refused id) threw s safe h = mark_and_ack-IsFair log s id safe h
