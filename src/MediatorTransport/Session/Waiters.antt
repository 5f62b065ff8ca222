-- ===== src/MediatorTransport/Session/Waiters.antt =====
-- Which call of `waitFor` gets a message (src/mediator-transport.js, `_deliver` and `waitFor`).
use vti_didcomm_js.Prelude.{
  ℕ, Bool, true, false, Option, none, some, List, [], ◌∷◌, ◌++◌, ◌≡◌, refl, any, Bool-cases, inl,
  inr, sym, ◌∙◌, and-true, ap,
}
use vti_didcomm_js.Prelude.Maybe.{some-injective}
use vti_didcomm_js.Prelude.Text.{Text, text_eq_iff}
use mathlib.Core.Path.{subst}
use vti_didcomm_js.MediatorTransport.{Message, VerifiedSender, is_text, thread_of, accepts_sender}
use vti_didcomm_js.MediatorTransport.Session.{
  Session, Config, Held, Waiter, Outcome, take_first, found_after, wants, deliver, to_waiter,
  resolved, handoff, waiter, settle,
}
use vti_didcomm_js.MediatorTransport.Session.Steps.{answers, wait_from, wait_or_take}

-- `take_first` splits a list at its first element that passes.
take_first-split :
    {A : Type 0} (p : A → Bool) (xs : List A) (found : A × List A)
    → take_first p xs ≡ some found
    → (before : List A) × ((later : List A) × ((xs ≡ before ++ (found.0 ∷ later))
          × ((found.1 ≡ before ++ later) × ((p found.0 ≡ true) × (any p before ≡ false)))))
unfolding take_first found_after
take_first-split p [] found e = cc
take_first-split {A} p (x ∷ xs) found e = elim (Bool-cases (p x)) [
  | inl here ↦
      let same : (x, xs) ≡ found = some-injective (rw here at e) in
      (
        [],
        (
          xs,
          (
            ap (λ f. f.0 ∷ xs) same,
            (ap (λ f. f.1) (sym same), (subst (λ f. p f.0 ≡ true) same here, refl)),
          ),
        ),
      )
  | inr pass ↦ go (take_first p xs) (λ f. take_first-split p xs f) pass (rw pass at e)
]
  where
    go :
        (r : Option (A × List A))
        → ((f : A × List A)
            → r ≡ some f
            → (before : List A) × ((later : List A) × ((xs ≡ before ++ (f.0 ∷ later))
                  × ((f.1 ≡ before ++ later) × ((p f.0 ≡ true) × (any p before ≡ false))))))
        → p x ≡ false
        → found_after x r ≡ some found
        → (before : List A) × ((later : List A) × ((x ∷ xs ≡ before ++ (found.0 ∷ later))
              × ((found.1 ≡ before ++ later) × ((p found.0 ≡ true) × (any p before ≡ false)))))
    go none ih pass h = cc
    go (some f) ih pass h =
        let (before, (later, (e₁, (e₂, (e₃, e₄))))) = ih f refl in
        subst
          (λ found'.
            (before : List A) × ((later : List A) × ((x ∷ xs ≡ before ++ (found'.0 ∷ later))
                × ((found'.1 ≡ before ++ later) × ((p found'.0 ≡ true) × (any p before ≡ false))))))
          (some-injective h)
          (
            x ∷ before,
            (later, (ap (λ l. x ∷ l) e₁, (ap (λ l. x ∷ l) e₂, (e₃, rw (pass, e₄) refl)))),
          )

take_first-none :
    {A : Type 0} (p : A → Bool) (xs : List A) → take_first p xs ≡ none → any p xs ≡ false
unfolding take_first found_after
take_first-none p [] e = refl
take_first-none {A} p (x ∷ xs) e = elim (Bool-cases (p x)) [
  | inl here ↦
      let impossible : ◌≡◌ {A = Option (A × List A)} (some (x, xs)) none = rw here at e in cc
  | inr pass ↦ go (take_first p xs) (take_first-none p xs) pass (rw pass at e)
]
  where
    go :
        (r : Option (A × List A))
        → (r ≡ none → any p xs ≡ false)
        → p x ≡ false
        → found_after x r ≡ none
        → any p (x ∷ xs) ≡ false
    go none ih pass h = rw (pass, ih refl) refl
    go (some f) ih pass h = cc

is_text-eq : (o : Option Text) (t : Text) → is_text o t ≡ true → o ≡ some t
unfolding is_text
is_text-eq none t h = cc
is_text-eq (some s) t h = ap some ((text_eq_iff s t).0 h)

-- What became of a message: it went to the first waiter that waits for its thread and accepts its sender.
abbrev pub GoesToFirst : Option Text → Message → VerifiedSender → Session → Outcome → Type 0
GoesToFirst id message sender s o =
    (before : List Waiter) × ((w : Waiter) × ((later : List Waiter) × ((s.waiters
            ≡ before ++ (w ∷ later))
          × ((thread_of message ≡ some w.thid)
              × ((accepts_sender w.from sender ≡ true)
                  × ((any (wants (thread_of message) sender) before ≡ false)
                      × (o ≡ record {
                        session = record s { waiters = before ++ later };
                        tasks = settle id ∷ [];
                        events =
                            resolved w.timer message sender
                            ∷ handoff id (waiter w.timer) message sender
                            ∷ [];
                      })))))))

-- A message that some waiter wants goes to the first such waiter: the one that waits for its thread and
-- accepts its authenticated sender. That waiter alone is removed, and nothing is buffered.
pub deliver_first :
    (cfg : Config) (id : Option Text) (message : Message) (sender : VerifiedSender) (s : Session)
    → any (wants (thread_of message) sender) s.waiters ≡ true
    → GoesToFirst id message sender s (deliver cfg id message (some sender.did) (some sender.kid) s)
unfolding deliver wants to_waiter
deliver_first cfg id message sender s h =
    go (take_first (wants (thread_of message) sender) s.waiters) refl
  where
    go :
        (r : Option (Waiter × List Waiter))
        → take_first (wants (thread_of message) sender) s.waiters ≡ r
        → GoesToFirst id message sender s (to_waiter cfg id message sender s r)
    go none e = let impossible : true ≡ false = sym h ∙ take_first-none _ s.waiters e in cc
    go (some f) e =
        let (before, (later, (e₁, (e₂, (e₃, e₄))))) = take_first-split _ s.waiters f e in
        let both = and-true (is_text (thread_of message) f.0.thid) _ e₃ in
        (before, (f.0, (later, (e₁, (is_text-eq _ _ both.0, (both.1, (e₄, cc)))))))

-- What a call of `waitFor` took from the buffer: the oldest message on the thread from an accepted sender.
abbrev pub TakesOldest : ℕ → Text → Option (List Text) → Session → Outcome → Type 0
TakesOldest timer thid from s o =
    (before : List Held) × ((m : Held) × ((later : List Held) × ((s.inbox ≡ before ++ (m ∷ later))
          × ((m.thid ≡ some thid)
              × ((accepts_sender from m.sender ≡ true)
                  × ((any (answers thid from) before ≡ false)
                      × (o ≡ record {
                        session = record s { inbox = before ++ later };
                        tasks = [];
                        events = resolved timer m.message m.sender ∷ [];
                      })))))))

-- A call of `waitFor` that a buffered message answers takes the oldest such message, on its thread and
-- from a sender that it accepts, and leaves the others in their order.
pub wait_from_oldest :
    (timer : ℕ) (thid : Text) (from : Option (List Text)) (s : Session)
    → any (answers thid from) s.inbox ≡ true
    → TakesOldest timer thid from s (wait_from timer thid from s)
unfolding wait_from answers wait_or_take
wait_from_oldest timer thid from s h = go (take_first (answers thid from) s.inbox) refl
  where
    go :
        (r : Option (Held × List Held))
        → take_first (answers thid from) s.inbox ≡ r
        → TakesOldest timer thid from s (wait_or_take timer thid from s r)
    go none e = let impossible : true ≡ false = sym h ∙ take_first-none _ s.inbox e in cc
    go (some f) e =
        let (before, (later, (e₁, (e₂, (e₃, e₄))))) = take_first-split _ s.inbox f e in
        let both = and-true (is_text f.0.thid thid) _ e₃ in
        (before, (f.0, (later, (e₁, (is_text-eq _ _ both.0, (both.1, (e₄, cc)))))))
