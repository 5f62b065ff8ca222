-- ===== src/TspFrame/Examples.antt =====
-- Runs of tsp-frame.js, and its theorems at concrete inputs.
use vti_didcomm_js.Prelude.{refl, ◌≡◌, true, [], ◌∷◌, arith}
use vti_didcomm_js.Base64url.{encode}
use vti_didcomm_js.TspFrame.{is_tsp_frame_text, is_tsp_frame_bytes}
use vti_didcomm_js.TspFrame.Framing.{
  has_tsp_head, is_tsp_frame_text-encode, is_tsp_frame_bytes_of_text,
}

long_head : is_tsp_frame_text (encode (0xfb ∷ 0xe1 ∷ 0 ∷ 0 ∷ 0x1a ∷ 0x3f ∷ [])) ≡ true
unfolding is_tsp_frame_text encode
long_head = refl

is_tsp_frame_text-encode_example :
    is_tsp_frame_text (encode (0xfb ∷ 0xe1 ∷ 0 ∷ [])) ≡ has_tsp_head (0xfb ∷ 0xe1 ∷ 0 ∷ [])
is_tsp_frame_text-encode_example =
    is_tsp_frame_text-encode (0xfb ∷ 0xe1 ∷ 0 ∷ []) (omega arith, (omega arith, (omega arith, tt)))

is_tsp_frame_bytes_of_text_example :
    is_tsp_frame_bytes (0xfb ∷ 0xe1 ∷ 0 ∷ 0 ∷ 0x1a ∷ 0x3f ∷ []) ≡ true
is_tsp_frame_bytes_of_text_example =
    is_tsp_frame_bytes_of_text (0xfb ∷ 0xe1 ∷ 0 ∷ 0 ∷ 0x1a ∷ 0x3f ∷ [])
      (omega arith, (omega arith, (omega arith, (omega arith, (omega arith, (omega arith, tt))))))
      long_head
