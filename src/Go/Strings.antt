-- ===== src/Go/Strings.antt =====
-- strings.Split and strings.SplitAfter at separators of one and two bytes, strings.HasPrefix,
-- strings.Index of one byte, and utf8.RuneStart.
use personal_memory.Go.Text.{Text}
use mathlib.Core.List.{append_assoc}
use personal_memory.Prelude.{
  ◌&&◌, ◌++◌, ◌/◌, ◌==◌, Bool, Bool-cases, List, Option, [], ap, false, if◌then◌else◌, inl, inr,
  none, not, refl, some, sym, true, ℕ, ◌∙◌, ◌∷◌, ◌≡◌, ◌∷◌,
}

-- The first piece of a list of pieces gets one more byte in front.
abbrev pub prepend : ℕ → List Text → List Text
prepend c [] = (c ∷ []) ∷ []
prepend c (p ∷ ps) = (c ∷ p) ∷ ps

-- strings.Split(s, sep)
unfoldable pub split : ℕ → Text → List Text
split sep [] = [] ∷ []
split sep (c ∷ r) = let rest = split sep r in if c == sep then [] ∷ rest else prepend c rest

-- strings.Split(s, sep + sep')
unfoldable pub split2 : ℕ → ℕ → Text → List Text
split2 a b [] = [] ∷ []
split2 a b (c ∷ []) = (c ∷ []) ∷ []
split2 a b (c ∷ d ∷ r) =
    let after = split2 a b r in
    let on = split2 a b (d ∷ r) in if c == a && d == b then [] ∷ after else prepend c on

-- strings.SplitAfter(s, sep + sep')
unfoldable pub split_after2 : ℕ → ℕ → Text → List Text
split_after2 a b [] = [] ∷ []
split_after2 a b (c ∷ []) = (c ∷ []) ∷ []
split_after2 a b (c ∷ d ∷ r) =
    let after = split_after2 a b r in
    let on = split_after2 a b (d ∷ r) in
    if c == a && d == b then (c ∷ d ∷ []) ∷ after else prepend c on

-- strings.HasPrefix(s, prefix)
unfoldable pub has_prefix : Text → Text → Bool
has_prefix s [] = true
has_prefix [] (p ∷ ps) = false
has_prefix (c ∷ s) (p ∷ ps) = (c == p) && has_prefix s ps

-- What stands behind the first `sep`: line[i+1:] for i = strings.Index(line, sep).
unfoldable pub after_first : ℕ → Text → Option Text
after_first sep [] = none
after_first sep (c ∷ r) = if c == sep then some r else after_first sep r

-- utf8.RuneStart: not a continuation byte, 10xxxxxx.
unfoldable pub rune_start : ℕ → Bool
rune_start c = not (c / 64 == 2)

abbrev pub concat : List Text → Text
concat [] = []
concat (p ∷ ps) = p ++ concat ps

concat-prepend : (c : ℕ) (ps : List Text) → concat (prepend c ps) ≡ c ∷ concat ps
concat-prepend c [] = refl
concat-prepend c (p ∷ ps) = refl

-- SplitAfter cuts and drops nothing.
pub concat-split_after2 : (a b : ℕ) (s : Text) → concat (split_after2 a b s) ≡ s
unfolding split_after2
concat-split_after2 a b [] = refl
concat-split_after2 a b (c ∷ []) = refl
concat-split_after2 a b (c ∷ d ∷ r) = elim (Bool-cases (c == a && d == b)) [
  | inl e ↦ rw e (ap (λ t. c ∷ d ∷ t) (concat-split_after2 a b r))
  | inr e ↦
      rw e
        (concat-prepend c (split_after2 a b (d ∷ r)) ∙ ap (◌∷◌ c) (concat-split_after2 a b (d ∷ r)))
]

pub concat-append : (ps qs : List Text) → concat (ps ++ qs) ≡ concat ps ++ concat qs
concat-append [] qs = refl
concat-append (p ∷ ps) qs = rw (concat-append ps qs) (sym (append_assoc p (concat ps) (concat qs)))
