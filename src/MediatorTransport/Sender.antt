-- ===== src/MediatorTransport/Sender.antt =====
-- src/mediator-transport.js: `unpackInbound` and how it chooses the sender's key, with `peekSkid` of the
-- same file and `unpack` of src/unpack.js.
pub mod Choice
use vti_didcomm_js.Prelude.{
  ℕ, not, Bool, true, false, Option, none, some, List, [], ◌∷◌, ◌++◌, ◌&&◌, is_some, if◌then◌else◌,
  Result, ok, err, guard, or_throw, ◌>>=◌, ◌>>◌,
}
use vti_didcomm_js.Prelude.Text.{Text, codes, text_eq, starts_with}
use vti_didcomm_js.Json.{Json}
use vti_didcomm_js.Platform.{Platform}
use vti_didcomm_js.Envelope.{EnvelopeError}
use vti_didcomm_js.Envelope.Pack.{Party}
use vti_didcomm_js.Envelope.Unpack.{Unpacked, unpack}
use vti_didcomm_js.MediatorTransport.Messages.{peek_skid}
use vti_didcomm_js.DidScid.{before, scid_identity, same_reference}

-- Why a frame is not accepted. The codes of `sender_mismatch` (of `unpack`) and
-- `unauthenticated_frame` are the ones in PERMANENTLY_REFUSED.
pub data FrameError : Type 0 where
  no_skid no_key sender_mismatch unauthenticated_frame not_unpacked : FrameError

unfoldable pub is_permanently_refused : FrameError → Bool
is_permanently_refused sender_mismatch = true
is_permanently_refused unauthenticated_frame = true
is_permanently_refused no_skid = false
is_permanently_refused no_key = false
is_permanently_refused not_unpacked = false

-- didOfKid
unfoldable pub did_of_kid : Text → Text
did_of_kid kid = before b'#' kid

-- absoluteKid
unfoldable pub absolute_kid : Text → Text → Text
absolute_kid did kid = if starts_with kid (codes "#") then did ++ kid else kid

-- A key-agreement key of a sender, with its id.
pub record SenderKey (K : Type 0) : Type 0 where
  pub kid : Option Text
  pub public_jwk : Option K

-- The error of `unpack`, of which one code is told apart.
unfoldable pub frame_error : EnvelopeError → FrameError
frame_error EnvelopeError.sender_mismatch = sender_mismatch
frame_error _ = not_unpacked

unfoldable pub or_frame_error : Result EnvelopeError Unpacked → Result FrameError Unpacked
or_frame_error (ok result) = ok result
or_frame_error (err e) = err (frame_error e)

unfoldable pub is_same_kid : Text → Text → Option Text → Bool
is_same_kid did skid none = false
is_same_kid did skid (some kid) = same_reference (absolute_kid did kid) skid

module _ {K : Type 0} where
  unfoldable pub is_key_for : Text → Text → SenderKey K → Bool
  is_key_for did skid key = is_some key.public_jwk && is_same_kid did skid key.kid

  -- keyForSkid, for a list of keys
  unfoldable pub key_for_skid : List (SenderKey K) → Text → Text → Option (SenderKey K)
  key_for_skid [] did skid = none
  key_for_skid (key ∷ keys) did skid =
      let later = key_for_skid keys did skid in if is_key_for did skid key then some key else later

  -- a ?? b, where b is computed after a
  unfoldable pub or_else : Option (SenderKey K) → Option (SenderKey K) → Option (SenderKey K)
  or_else (some key) other = some key
  or_else none other = other

  -- The key among those that the fallback, if there is one, finds.
  unfoldable pub resolved_key :
      Option (Text → Text → Result FrameError (List (SenderKey K)))
      → Text
      → Result FrameError (Option (SenderKey K))
  resolved_key none skid = ok none
  resolved_key (some resolve) skid =
      resolve (did_of_kid skid) skid >>= λ keys. ok (key_for_skid keys (did_of_kid skid) skid)

  module _ (sender_keys : Text → List (SenderKey K))
      (resolve_sender : Option (Text → Text → Result FrameError (List (SenderKey K)))) where
    -- The seeded keys of the sender's identity, then of its DID.
    unfoldable pub seeded_key : Text → Option (SenderKey K)
    seeded_key skid =
        or_else (key_for_skid (sender_keys (scid_identity skid)) (did_of_kid skid) skid)
          (key_for_skid (sender_keys (did_of_kid skid)) (did_of_kid skid) skid)

    unfoldable pub sender_key : Text → Option (SenderKey K) → Result FrameError (SenderKey K)
    sender_key skid (some key) = ok key
    sender_key skid none = resolved_key resolve_sender skid >>= λ key. or_throw key no_key

-- unpackInbound, with the key that it used
unfoldable pub unpack_inbound :
    (p : Platform) (recipient : Party) (sender_keys : Text → List (SenderKey Json))
    (resolve_sender : Option (Text → Text → Result FrameError (List (SenderKey Json))))
    → (frame : Text) → Result FrameError (SenderKey Json × Unpacked)
unpack_inbound p recipient sender_keys resolve_sender frame = do
  skid ← or_throw (peek_skid p frame) no_skid
  guard (not (text_eq skid [])) no_skid
  sender ← sender_key sender_keys resolve_sender skid (seeded_key sender_keys resolve_sender skid)
  result ← or_frame_error (unpack p frame recipient sender.public_jwk)
  guard result.authenticated unauthenticated_frame >> ok (sender, result)
