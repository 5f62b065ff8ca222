-- ===== src/TspFrame.antt =====
-- src/tsp-frame.js: recognising a TSP frame by its count code. The proofs are in the module below.
pub mod Framing
mod Examples
use vti_didcomm_js.Prelude.{ℕ, Bool, false, List, [], ◌∷◌, any, ◌==◌, ◌||◌}
use vti_didcomm_js.Prelude.Text.{Text, codes, starts_with}

abbrev pub tsp_magic_byte : ℕ
tsp_magic_byte = 0xf8

abbrev pub tsp_magic_byte_long : ℕ
tsp_magic_byte_long = 0xfb

abbrev pub tsp_text_prefixes : List Text
tsp_text_prefixes = codes "--E" ∷ codes "-E" ∷ []

-- isTspFrameText
unfoldable pub is_tsp_frame_text : Text → Bool
unfolding starts_with
is_tsp_frame_text text = any (starts_with text) tsp_text_prefixes

-- isTspFrameBytes; an empty array has no first byte
unfoldable pub is_tsp_frame_bytes : List ℕ → Bool
is_tsp_frame_bytes [] = false
is_tsp_frame_bytes (first ∷ rest) = first == tsp_magic_byte || first == tsp_magic_byte_long
