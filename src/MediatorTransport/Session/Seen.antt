-- ===== src/MediatorTransport/Session/Seen.antt =====
-- The set of handled queue-ids (src/mediator-transport.js, `_markSeen`).
use vti_didcomm_js.Prelude.{
  ℕ, suc, ◌+◌, ◌≤◌, ◌<◌, true, false, List, [], ◌∷◌, ◌++◌, ◌≡◌, arith, length, length-append,
  Bool-cases, ltb, inl, inr, append_assoc, refl, ◌∙◌,
}
use vti_didcomm_js.Prelude.Text.{Text, text_eq_refl}
use vti_didcomm_js.MediatorTransport.Session.{
  Session, is_seen, mark_seen, add_seen, shift_over, max_seen,
}

-- Queue-ids marked one after the other.
unfoldable pub mark_all : Session → List Text → Session
mark_all s [] = s
mark_all s (id ∷ ids) = mark_all (mark_seen s id) ids

-- The queue-id stands in the set with at most `k` younger ones.
IsRecent : Text → ℕ → List Text → Type 0
IsRecent id k seen =
    (older : List Text) × ((younger : List Text) × ((seen ≡ older ++ (id ∷ younger))
        × (length younger ≤ k)))

is_seen-middle :
    (id : Text) (older younger : List Text) → is_seen (older ++ (id ∷ younger)) id ≡ true
is_seen-middle id [] younger = rw text_eq_refl refl
is_seen-middle id (q ∷ older) younger = ground (arith, is_seen-middle id older younger)

IsRecent-is_seen :
    (id : Text) (k : ℕ) (seen : List Text) → IsRecent id k seen → is_seen seen id ≡ true
unfolding IsRecent
IsRecent-is_seen id k seen (older, (younger, (e, h))) = rw e (is_seen-middle id older younger)

shift_over-short : (cap : ℕ) (seen : List Text) → length seen ≤ cap → shift_over cap seen ≡ seen
unfolding shift_over
shift_over-short cap seen h = ground arith

shift_over-IsRecent :
    (id : Text) (k : ℕ) (seen : List Text)
    → k < max_seen
    → IsRecent id k seen
    → IsRecent id k (shift_over max_seen seen)
unfolding IsRecent shift_over
shift_over-IsRecent id k seen room ([], (younger, (e, h))) =
    let short : length seen ≤ 1024 = rw e (omega (arith, h, room)) in
    ([], (younger, (shift_over-short 1024 seen short ∙ e, h)))
shift_over-IsRecent id k seen room (q ∷ older, (younger, (e, h))) =
    elim (Bool-cases (ltb max_seen (length seen))) [
      | inl over ↦ rw over (older, (younger, (rw e refl, h)))
      | inr under ↦ rw under (q ∷ older, (younger, (e, h)))
    ]

add_seen-IsRecent :
    (id : Text) (k : ℕ) (seen : List Text) (q : Text)
    → IsRecent id k seen
    → IsRecent id (suc k) (add_seen seen q)
unfolding IsRecent add_seen
add_seen-IsRecent id k seen q (older, (younger, (e, h))) = elim (Bool-cases (is_seen seen q)) [
  | inl old ↦ rw old (older, (younger, (e, omega (arith, h))))
  | inr new ↦ rw new (
    older,
    (
      younger ++ (q ∷ []),
      (
        rw e (append_assoc older (id ∷ younger) (q ∷ [])),
        omega (arith, h, length-append younger (q ∷ [])),
      ),
    ),
  )
]

mark_all-IsRecent :
    (id : Text) (k : ℕ) (ids : List Text) (s : Session)
    → k + length ids < max_seen
    → IsRecent id k s.seen
    → is_seen (mark_all s ids).seen id ≡ true
unfolding mark_all mark_seen
mark_all-IsRecent id k [] s room h = IsRecent-is_seen id k s.seen h
mark_all-IsRecent id k (q ∷ ids) s room h =
    mark_all-IsRecent id (suc k) ids (mark_seen s q) (omega (arith, room)) (
      shift_over-IsRecent id (suc k) (add_seen s.seen q) (omega (arith, room))
        (add_seen-IsRecent id k s.seen q h))

-- A queue-id marked as handled, when it was not before, is recognised as handled until at least 1024
-- further queue-ids are marked.
pub mark_seen-window :
    (s : Session) (id : Text) (ids : List Text)
    → is_seen s.seen id ≡ false
    → length ids < max_seen
    → is_seen (mark_all (mark_seen s id) ids).seen id ≡ true
unfolding mark_seen add_seen IsRecent
mark_seen-window s id ids new room =
    mark_all-IsRecent id 0 ids (mark_seen s id) (omega (arith, room)) (
      rw new (
        shift_over-IsRecent id 0 (s.seen ++ (id ∷ [])) (omega arith)
          (s.seen, ([], (refl, omega arith)))))
