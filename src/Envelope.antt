-- ===== src/Envelope.antt =====
-- The JWE envelopes of src/pack.js, src/anoncrypt.js and src/unpack.js, and what they are made of: the
-- children are named for the source files. Here are the errors that they throw.
pub mod ContentEncryption
pub mod Agreement
pub mod Jwk
pub mod Pack
pub mod Unpack
pub mod RoundTrip
pub mod Examples
pub mod Toy
use vti_didcomm_js.Prelude.{ℕ, Bool, Option, List, Result, ok, err}
use vti_didcomm_js.Prelude.Text.{Text}
use vti_didcomm_js.Base64url.{DecodeError}
use vti_didcomm_js.ConcatKdf.{KdfError}

pub data EnvelopeError : Type 0 where
  wrong_length : ℕ → EnvelopeError
  tag_mismatch cipher_failed unwrap_failed agreement_failed invalid_point : EnvelopeError
  unsupported_curve : Text → EnvelopeError
  invalid_jwk no_private_key : EnvelopeError
  key_derivation : KdfError → EnvelopeError
  base64 : DecodeError → EnvelopeError
  curve_mismatch : Text → Text → EnvelopeError
  not_json invalid_jwe unsupported_alg unsupported_enc invalid_epk no_skid : EnvelopeError
  no_sender no_recipient_entry no_encrypted_key apu_mismatch invalid_message sender_mismatch :
      EnvelopeError

-- The error of another file, thrown on.
abbrev pub throw_on {ℓ} :
    {E : Type 0} {A : Type ℓ} → (E → EnvelopeError) → Result E A → Result EnvelopeError A
throw_on f (ok a) = ok a
throw_on f (err e) = err (f e)
