-- ===== src/Go/Text/Laws.antt =====
-- Laws of text comparison and of strings.TrimSpace.
use mathlib.Core.List.{reverse, reverse-reverse, reverse-append}
use personal_memory.Prelude.{
  ℕ, zero, suc, ◌≡◌, refl, sym, ap, ◌∙◌, ◌↔◌, true, false, [], ◌∷◌, ◌++◌, arith, subst, ℕ-cases,
  inl, inr, Bool-cases, ◌≢◌,
}
use personal_memory.Go.Text.{
  Text, text_eq, text_lt, leading_space, trailing_space, strip, trim_space,
}

text_eq→eq : (s t : Text) → text_eq s t ≡ true → s ≡ t
unfolding text_eq
text_eq→eq [] [] h = refl
text_eq→eq [] (b ∷ t) h = cc
text_eq→eq (a ∷ s) [] h = cc
text_eq→eq (a ∷ s) (b ∷ t) h = ground (arith, text_eq→eq s t)

pub text_eq_refl : (s : Text) → text_eq s s ≡ true
unfolding text_eq
text_eq_refl [] = refl
text_eq_refl (a ∷ s) = ground (arith, text_eq_refl s)

-- The Boolean test decides equality of texts.
pub text_eq_iff : (s t : Text) → (text_eq s t ≡ true) ↔ (s ≡ t)
text_eq_iff s t = (text_eq→eq s t, λ p. subst (λ u. text_eq s u ≡ true) p (text_eq_refl s))

pub text_eq-ne : (s t : Text) → s ≢ t → text_eq s t ≡ false
text_eq-ne s t n = elim (Bool-cases (text_eq s t)) [
  | inl e ↦ absurd (n ((text_eq_iff s t).0 e))
  | inr e ↦ e
]

pub text_lt_irrefl : (s : Text) → text_lt s s ≡ false
unfolding text_lt
text_lt_irrefl [] = refl
text_lt_irrefl (a ∷ s) = ground (arith, text_lt_irrefl s)

pub text_lt_asymm : (s t : Text) → text_lt s t ≡ true → text_lt t s ≡ false
unfolding text_lt
text_lt_asymm [] [] h = refl
text_lt_asymm [] (b ∷ t) h = refl
text_lt_asymm (a ∷ s) [] h = cc
text_lt_asymm (a ∷ s) (b ∷ t) h = ground (arith, text_lt_asymm s t)

-- `s ≤ t` and `t ≤ u` give `s ≤ u`, each read as the failure of `<` the other way.
pub text_lt_negtrans :
    (s t u : Text) → text_lt t s ≡ false → text_lt u t ≡ false → text_lt u s ≡ false
unfolding text_lt
text_lt_negtrans [] t [] h k = refl
text_lt_negtrans [] [] (c ∷ u) h k = cc
text_lt_negtrans [] (b ∷ t) (c ∷ u) h k = cc
text_lt_negtrans (a ∷ s) [] [] h k = cc
text_lt_negtrans (a ∷ s) [] (c ∷ u) h k = ground arith
text_lt_negtrans (a ∷ s) (b ∷ t) [] h k = cc
text_lt_negtrans (a ∷ s) (b ∷ t) (c ∷ u) h k = ground (arith, text_lt_negtrans s t u)

pub text_lt_antisymm : (s t : Text) → text_lt s t ≡ false → text_lt t s ≡ false → s ≡ t
unfolding text_lt
text_lt_antisymm [] [] h k = refl
text_lt_antisymm [] (b ∷ t) h k = cc
text_lt_antisymm (a ∷ s) [] h k = cc
text_lt_antisymm (a ∷ s) (b ∷ t) h k = ground (arith, text_lt_antisymm s t)

module _ (width : Text → ℕ) (empty : width [] ≡ 0) where
  strip_suffix : (k : ℕ) (s : Text) → (pre : Text) × (s ≡ pre ++ strip width k s)
  unfolding strip
  strip_suffix k [] = ([], refl)
  strip_suffix (suc k) (x ∷ r) = let (pre, e) = strip_suffix k r in (x ∷ pre, ap (◌∷◌ x) e)
  strip_suffix zero (x ∷ r) = elim (ℕ-cases (width (x ∷ r))) [
    | inl e ↦ ([], rw (e, strip))
    | inr (k, e) ↦ let (pre, p) = strip_suffix k r in (x ∷ pre, rw (e, strip) (ap (◌∷◌ x) p))
  ]

  strip_clean : (k : ℕ) (s : Text) → width (strip width k s) ≡ 0
  unfolding strip
  strip_clean k [] = empty
  strip_clean (suc k) (x ∷ r) = strip_clean k r
  strip_clean zero (x ∷ r) = elim (ℕ-cases (width (x ∷ r))) [
    | inl e ↦ rw (e, strip) e
    | inr (k, e) ↦ rw (e, strip) (strip_clean k r)
  ]

strip_of_clean : (width : Text → ℕ) (s : Text) → width s ≡ 0 → strip width 0 s ≡ s
unfolding strip
strip_of_clean width [] h = refl
strip_of_clean width (x ∷ r) h = ground arith

leading_space-append : (s t : Text) → leading_space (s ++ t) ≡ 0 → leading_space s ≡ 0
unfolding leading_space
leading_space-append [] t h = refl
leading_space-append (a ∷ []) [] h = ground arith
leading_space-append (a ∷ []) (b ∷ []) h = ground arith
leading_space-append (a ∷ []) (b ∷ c ∷ t) h = ground arith
leading_space-append (a ∷ b ∷ []) [] h = ground arith
leading_space-append (a ∷ b ∷ []) (c ∷ t) h = ground arith
leading_space-append (a ∷ b ∷ c ∷ s) t h = h

-- Trimming twice is trimming once.
pub trim_space_idem : (s : Text) → trim_space (trim_space s) ≡ trim_space s
unfolding trim_space
trim_space_idem s =
    let y = strip leading_space 0 s in
    let z = strip trailing_space 0 (reverse y) in
    let (pre, e) = strip_suffix trailing_space refl 0 (reverse y) in
    let front : y ≡ reverse z ++ reverse pre =
      sym (reverse-reverse y) ∙ ap reverse e ∙ reverse-append pre z in
    let clean : leading_space (reverse z) ≡ 0 =
      leading_space-append (reverse z) (reverse pre)
        (rw (← front) (strip_clean leading_space refl 0 s)) in
    rw (
      strip_of_clean leading_space (reverse z) clean,
      reverse-reverse,
      strip_of_clean trailing_space z (strip_clean trailing_space refl 0 (reverse y)),
    )
