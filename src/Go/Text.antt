-- ===== src/Go/Text.antt =====
-- A Go `string` as the list of its bytes, with ==, < and strings.TrimSpace.
pub mod Laws
use mathlib.Core.List.{reverse, reverse-reverse, reverse-append, append_assoc}
use Prim.Native.Char.{code}
use personal_memory.Prelude.{
  ℕ, zero, suc, String, ◌≡◌, refl, sym, ap, ◌∙◌, ◌↔◌, ◌⊎◌, inl, inr, Bool, true, false, not, ◌&&◌,
  ◌||◌, List, [], ◌∷◌, ◌++◌, arith, ltb, leb, ◌==◌, if◌then◌else◌, subst,
}

abbrev pub Text : Type 0
Text = List ℕ

-- A literal: the source's literals are ASCII, where bytes and code points agree.
abbrev pub text : String → Text
text String.[] = []
text (String.◌∷◌ c s) = code c ∷ text s

unfoldable pub text_eq : Text → Text → Bool
text_eq [] [] = true
text_eq (a ∷ s) (b ∷ t) = (a == b) && text_eq s t
text_eq _ _ = false

-- Go's `<` on strings compares bytes from the left.
unfoldable pub text_lt : Text → Text → Bool
text_lt [] [] = false
text_lt [] (b ∷ t) = true
text_lt (a ∷ s) [] = false
text_lt (a ∷ s) (b ∷ t) = ltb a b || ((a == b) && text_lt s t)

abbrev pub is_empty : Text → Bool
is_empty [] = true
is_empty (_ ∷ _) = false

is_ascii_space : ℕ → Bool
is_ascii_space c = (leb 9 c && leb c 13) || c == 32

-- U+0085 and U+00A0
is_space2 : ℕ → ℕ → Bool
is_space2 a b = (a == 0xC2) && (b == 0x85 || b == 0xA0)

-- U+1680, U+2000 to U+200A, U+2028, U+2029, U+202F, U+205F and U+3000
is_space3 : ℕ → ℕ → ℕ → Bool
is_space3 a b c =
    (a == 0xE1 && b == 0x9A && c == 0x80)
    || (a == 0xE2
        && b == 0x80
        && ((leb 0x80 c && leb c 0x8A) || c == 0xA8 || c == 0xA9 || c == 0xAF))
    || (a == 0xE2 && b == 0x81 && c == 0x9F)
    || (a == 0xE3 && b == 0x80 && c == 0x80)

-- How many bytes the space at the front takes; 0 if there is none.
leading_space : Text → ℕ
leading_space [] = 0
leading_space (a ∷ []) = if is_ascii_space a then 1 else 0
leading_space (a ∷ b ∷ []) = if is_ascii_space a then 1 else if is_space2 a b then 2 else 0
leading_space (a ∷ b ∷ c ∷ r) =
    if is_ascii_space a then 1 else if is_space2 a b then 2 else if is_space3 a b c then 3 else 0

-- The same at the end, over the reversed text.
trailing_space : Text → ℕ
trailing_space [] = 0
trailing_space (a ∷ []) = if is_ascii_space a then 1 else 0
trailing_space (b ∷ a ∷ []) = if is_ascii_space b then 1 else if is_space2 a b then 2 else 0
trailing_space (c ∷ b ∷ a ∷ r) =
    if is_ascii_space c then 1 else if is_space2 b c then 2 else if is_space3 a b c then 3 else 0

-- Drops `k` bytes, then spaces for as long as `width` finds one.
strip : (Text → ℕ) → ℕ → Text → Text
strip width k [] = []
strip width (suc k) (x ∷ r) = strip width k r
strip width zero (x ∷ r) = elim (width (x ∷ r)) [ zero ↦ x ∷ r | suc k ↦ strip width k r ]

unfoldable pub trim_space : Text → Text
unfolding strip leading_space trailing_space is_ascii_space is_space2 is_space3
trim_space s = reverse (strip trailing_space 0 (reverse (strip leading_space 0 s)))

trim_space_runs : trim_space (text " a b\n") ≡ text "a b"
unfolding trim_space
trim_space_runs = refl
