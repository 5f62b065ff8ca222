-- ===== src/Prelude/Text.antt =====
-- JavaScript strings as lists of UTF-16 code units, with the methods that the sources call.
use Prim.Native.Char.{code}
use Prim.Native.Nat.{ℕ, suc, ◌+◌}
use Prim.Native.String.{String}
use mathlib.Core.Path.{◌≡◌, refl}
use mathlib.Core.Logic.{◌↔◌}
use mathlib.Core.Bool.{Bool, true, false, ◌&&◌, ◌||◌}
use mathlib.Core.Option.{Option, none, some}
use mathlib.Core.Option
use mathlib.Core.List.{List, [], ◌∷◌, map}
use native.Mathlib.Omega.{arith}
use vti_didcomm_js.Prelude.Tests.{◌==◌, leb, if◌then◌else◌, is_some}

abbrev pub Text : Type 0
Text = List ℕ

-- A literal of the sources; all are ASCII, where a code point is its code unit.
abbrev pub codes : String → Text
codes String.[] = []
codes (String.◌∷◌ c s) = code c ∷ codes s

-- s === t
unfoldable pub text_eq : Text → Text → Bool
text_eq [] [] = true
text_eq [] (d ∷ t) = false
text_eq (c ∷ s) [] = false
text_eq (c ∷ s) (d ∷ t) = c == d && text_eq s t

-- s.startsWith(p)
unfoldable pub starts_with : Text → Text → Bool
starts_with s [] = true
starts_with [] (c ∷ p) = false
starts_with (d ∷ s) (c ∷ p) = d == c && starts_with s p

-- s.endsWith(p)
unfoldable pub ends_with : Text → Text → Bool
unfolding text_eq
ends_with [] p = text_eq [] p
ends_with (c ∷ s) p = text_eq (c ∷ s) p || ends_with s p

-- s.indexOf(p), where -1 is `none`
unfoldable pub index_of : Text → Text → Option ℕ
unfolding starts_with
index_of [] p = if starts_with [] p then some 0 else none
index_of (c ∷ s) p =
    let later = Option.map suc (index_of s p) in if starts_with (c ∷ s) p then some 0 else later

-- s.includes(p)
unfoldable pub includes : Text → Text → Bool
unfolding index_of
includes s p = is_some (index_of s p)

-- s.lastIndexOf(p), for a p that is not empty
unfoldable pub last_index_of : Text → Text → Option ℕ
unfolding starts_with
last_index_of [] p = none
last_index_of (c ∷ s) p = elim (last_index_of s p) [
  | some i ↦ some (suc i)
  | none ↦ if starts_with (c ∷ s) p then some 0 else none
]

-- s.split(c) at a single code unit; the first piece and the rest
abbrev pub push_piece : ℕ → List Text → List Text
push_piece c [] = (c ∷ []) ∷ []
push_piece c (p ∷ ps) = (c ∷ p) ∷ ps

unfoldable pub split_at : ℕ → Text → List Text
split_at sep [] = [] ∷ []
split_at sep (c ∷ s) =
    let rest = split_at sep s in if c == sep then [] ∷ rest else push_piece c rest

-- s.toLowerCase(), on ASCII; other code units stay
-- The white space and line ends of .trim() and of \s
abbrev pub is_blank : ℕ → Bool
is_blank ch =
    (leb 9 ch && leb ch 13)
    || ch == 0x20
    || ch == 0xa0
    || ch == 0x1680
    || (leb 0x2000 ch && leb ch 0x200a)
    || ch == 0x2028
    || ch == 0x2029
    || ch == 0x202f
    || ch == 0x205f
    || ch == 0x3000
    || ch == 0xfeff

unfoldable pub to_lower : ℕ → ℕ
to_lower c = if leb b'A' c && leb c b'Z' then c + 32 else c

unfoldable pub to_lower_case : Text → Text
unfolding to_lower
to_lower_case = map to_lower

pub text_eq_iff : (s t : Text) → (text_eq s t ≡ true) ↔ (s ≡ t)
unfolding text_eq
text_eq_iff [] [] = (λ _. refl, λ _. refl)
text_eq_iff [] (d ∷ t) = (λ h. cc, λ h. cc)
text_eq_iff (c ∷ s) [] = (λ h. cc, λ h. cc)
text_eq_iff (c ∷ s) (d ∷ t) = ground (arith, text_eq_iff s t)

pub text_eq_refl : (s : Text) → text_eq s s ≡ true
text_eq_refl s = (text_eq_iff s s).1 refl
