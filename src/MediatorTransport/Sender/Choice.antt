-- ===== src/MediatorTransport/Sender/Choice.antt =====
-- Which key authenticates an inbound frame (src/mediator-transport.js, `unpackInbound`).
use vti_didcomm_js.Prelude.{
  arith, true, Option, none, some, List, [], ◌∷◌, not, ◌≡◌, ◌≢◌, refl, ap, sym, Bool-cases, inl,
  inr, ◌∙◌, and-true, Result, ok, err, >>=-eq-ok, ok-injective, guard-eq-ok, or_throw-eq-ok, guard,
  or_throw, is_some,
}
use vti_didcomm_js.Prelude.Maybe.{some-injective}
use vti_didcomm_js.Prelude.Text.{Text, text_eq, text_eq_iff}
use mathlib.Core.Path.{subst}
use vti_didcomm_js.Json.{Json}
use vti_didcomm_js.Platform.{Platform}
use vti_didcomm_js.DidScid.{same_reference}
use vti_didcomm_js.Envelope.{EnvelopeError}
use vti_didcomm_js.Envelope.Pack.{Party}
use vti_didcomm_js.Envelope.Unpack.{Unpacked, unpack}
use vti_didcomm_js.MediatorTransport.Messages.{peek_skid}
use vti_didcomm_js.MediatorTransport.Peek.{unpack-peek_skid}
use vti_didcomm_js.MediatorTransport.Sender.{
  FrameError, SenderKey, no_key, unauthenticated_frame, no_skid, did_of_kid, absolute_kid,
  is_key_for, is_same_kid, key_for_skid, or_else, seeded_key, resolved_key, sender_key,
  or_frame_error, unpack_inbound,
}

module _ {K : Type 0} where
  -- The key has a public JWK, and its id, made absolute under the DID, is the reference `skid`, but for a
  -- did:scid `src`.
  abbrev pub IsNamedBy : Text → SenderKey K → Type 0
  IsNamedBy skid key =
      (jwk : K) × (kid : Text) × (key.public_jwk ≡ some jwk)
      × (key.kid ≡ some kid)
      × (same_reference (absolute_kid (did_of_kid skid) kid) skid ≡ true)

  is_some-exists : (o : Option K) → is_some o ≡ true → (jwk : K) × (o ≡ some jwk)
  is_some-exists (some jwk) h = (jwk, refl)
  is_some-exists none h = cc

  is_same_kid-IsNamedBy :
      (skid : Text) (key : SenderKey K) (kid : Option Text)
      → is_some key.public_jwk ≡ true
      → key.kid ≡ kid
      → is_same_kid (did_of_kid skid) skid kid ≡ true
      → IsNamedBy skid key
  unfolding is_same_kid
  is_same_kid-IsNamedBy skid key none held e h = cc
  is_same_kid-IsNamedBy skid key (some kid) held e h =
      let (jwk, ej) = is_some-exists key.public_jwk held in (jwk, kid, ej, e, h)

  is_key_for-IsNamedBy :
      (skid : Text) (key : SenderKey K)
      → is_key_for (did_of_kid skid) skid key ≡ true
      → IsNamedBy skid key
  unfolding is_key_for
  is_key_for-IsNamedBy skid key h =
      let (held, same) = and-true (is_some key.public_jwk) _ h in
      is_same_kid-IsNamedBy skid key key.kid held refl same

  key_for_skid-IsNamedBy :
      (skid : Text) (keys : List (SenderKey K)) (key : SenderKey K)
      → key_for_skid keys (did_of_kid skid) skid ≡ some key
      → IsNamedBy skid key
  unfolding key_for_skid
  key_for_skid-IsNamedBy skid [] key e = cc
  key_for_skid-IsNamedBy skid (k ∷ keys) key e =
      elim (Bool-cases (is_key_for (did_of_kid skid) skid k)) [
        | inl here ↦
            subst (IsNamedBy skid) (some-injective (rw here at e))
              (is_key_for-IsNamedBy skid k here)
        | inr pass ↦ key_for_skid-IsNamedBy skid keys key (rw pass at e)
      ]

  or_else-IsNamedBy :
      (skid : Text) (a b : Option (SenderKey K)) (key : SenderKey K)
      → ((k : SenderKey K) → a ≡ some k → IsNamedBy skid k)
      → ((k : SenderKey K) → b ≡ some k → IsNamedBy skid k)
      → or_else a b ≡ some key
      → IsNamedBy skid key
  unfolding or_else
  or_else-IsNamedBy skid (some k) b key f g e = f key e
  or_else-IsNamedBy skid none b key f g e = g key e

  resolved_key-IsNamedBy :
      (resolve_sender : Option (Text → Text → Result FrameError (List (SenderKey K)))) (skid : Text)
      (key : SenderKey K)
      → resolved_key resolve_sender skid ≡ ok (some key)
      → IsNamedBy skid key
  unfolding resolved_key
  resolved_key-IsNamedBy none skid key e =
      let impossible : ◌≡◌ {A = Option (SenderKey K)} none (some key) = ok-injective e in cc
  resolved_key-IsNamedBy (some resolve) skid key e =
      let (keys, ek, e₁) = >>=-eq-ok (resolve (did_of_kid skid) skid) _ e in
      key_for_skid-IsNamedBy skid keys key (ok-injective e₁)

  module _ (sender_keys : Text → List (SenderKey K))
      (resolve_sender : Option (Text → Text → Result FrameError (List (SenderKey K)))) where
    sender_key-IsNamedBy :
        (skid : Text) (seeded : Option (SenderKey K)) (key : SenderKey K)
        → ((k : SenderKey K) → seeded ≡ some k → IsNamedBy skid k)
        → sender_key sender_keys resolve_sender skid seeded ≡ ok key
        → IsNamedBy skid key
    unfolding sender_key
    sender_key-IsNamedBy skid (some k) key f e = f key (ap some (ok-injective e))
    sender_key-IsNamedBy skid none key f e =
        let (found, ef, e₁) = >>=-eq-ok (resolved_key resolve_sender skid) _ e in
        resolved_key-IsNamedBy resolve_sender skid key (ef ∙ ap ok (or_throw-eq-ok found no_key e₁))

or_frame_error-eq-ok :
    (r : Result EnvelopeError Unpacked) (result : Unpacked)
    → or_frame_error r ≡ ok result
    → r ≡ ok result
unfolding or_frame_error
or_frame_error-eq-ok (ok u) result h = ap ok (ok-injective h)
or_frame_error-eq-ok (err e) result h = cc

not_empty : (text : Text) → not (text_eq text []) ≡ true → text ≢ []
not_empty text h = grind (arith, text_eq_iff text [])

-- What an accepted frame implies for its sender's key.
pub record IsFrom (p : Platform) (recipient : Party) (frame : Text) (key : SenderKey Json)
    (result : Unpacked) : Type 0 where
  pub skid : Text
  pub not_empty_skid : skid ≢ []
  pub jwk : Json
  pub kid : Text
  pub of_frame : peek_skid p frame ≡ some skid
  pub of_jwk : key.public_jwk ≡ some jwk
  pub of_kid : key.kid ≡ some kid
  pub named : same_reference (absolute_kid (did_of_kid skid) kid) skid ≡ true
  pub opened : unpack p frame recipient (some jwk) ≡ ok result
  pub authenticated : result.authenticated ≡ true
  pub of_sender : result.sender_kid ≡ some skid

-- A frame that `unpackInbound` accepts has a `skid`, which is not empty. The key that it used has this
-- `skid` as its id, made absolute and but for a did:scid `src`. The result is what `unpack` gives for the
-- frame under the public JWK of this key; it is authenticated, and the key id that it reports is the `skid`.
pub unpack_inbound-key :
    (p : Platform) (recipient : Party) (sender_keys : Text → List (SenderKey Json))
    (resolve_sender : Option (Text → Text → Result FrameError (List (SenderKey Json))))
    (frame : Text) (key : SenderKey Json) (result : Unpacked)
    → unpack_inbound p recipient sender_keys resolve_sender frame ≡ ok (key, result)
    → IsFrom p recipient frame key result
unfolding unpack_inbound seeded_key
unpack_inbound-key p recipient sender_keys resolve_sender frame key result e =
    let (skid, es, e₁) = >>=-eq-ok (or_throw (peek_skid p frame) no_skid) _ e in
    let (u, en, e₂) = >>=-eq-ok (guard (not (text_eq skid [])) no_skid) _ e₁ in
    let (k, ek, e₃) = >>=-eq-ok (sender_key sender_keys resolve_sender skid _) _ e₂ in
    let (r, er, e₄) = >>=-eq-ok (or_frame_error (unpack p frame recipient k.public_jwk)) _ e₃ in
    let (u', eu, e₅) = >>=-eq-ok (guard r.authenticated unauthenticated_frame) _ e₄ in
    let same : (k, r) ≡ (key, result) = ok-injective e₅ in
    let (jwk, kid, ej, ei, named) =
      sender_key-IsNamedBy sender_keys resolve_sender skid _ k
        (λ k'.
          or_else-IsNamedBy skid _ _ k' (λ k''. key_for_skid-IsNamedBy skid _ k'')
            (λ k''. key_for_skid-IsNamedBy skid _ k''))
        ek in
    let peeked = or_throw-eq-ok (peek_skid p frame) no_skid es in
    let opened =
      ap (λ o. unpack p frame recipient o) (sym ej)
      ∙ or_frame_error-eq-ok (unpack p frame recipient k.public_jwk) r er in
    let authenticated = guard-eq-ok r.authenticated unauthenticated_frame eu in
    subst (λ q. IsFrom p recipient frame q.0 q.1) same
      (record {
        skid = skid;
        not_empty_skid = not_empty skid (guard-eq-ok _ no_skid en);
        jwk = jwk;
        kid = kid;
        of_frame = peeked;
        of_jwk = ej;
        of_kid = ei;
        named = named;
        opened = opened;
        authenticated = authenticated;
        of_sender =
            sym (unpack-peek_skid p frame recipient (some jwk) r opened authenticated) ∙ peeked;
      })
