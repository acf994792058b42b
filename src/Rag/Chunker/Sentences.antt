-- ===== src/Rag/Chunker/Sentences.antt =====
-- splitSentences of internal/rag/chunker.go loses nothing and keeps every piece in bounds.
use mathlib.Core.List.{append_assoc, append-nil}
use personal_memory.Prelude.{
  ◌++◌, ◌<◌, All, List, [], ap, arith, drop, length, length-drop, length-take, refl, suc, take,
  take-append-drop, zero, ℕ, ◌∙◌, ◌∷◌, ◌≡◌, ◌≤◌, ◌&&◌, ◌+◌, All-append, Bool, Bool-cases, false,
  inl, inr, length-append, ltb, not, sym, true,
}
use personal_memory.Go.Text.{Text, is_empty}
use personal_memory.Rag.Chunker.{back_up, hard_split, one_if, sentences_from, cut, split_sentences}
use personal_memory.Go.Strings.{concat, concat-append, concat-split_after2, split_after2}

-- A piece that may be embedded: not empty and within the bound.
abbrev pub IsPiece : ℕ → Text → Type 0
IsPiece max t = (0 < length t) × (length t ≤ max)

back_up_bounds : (s : Text) (n : ℕ) → 0 < n → (0 < back_up s n) × (back_up s n ≤ n)
unfolding back_up
back_up_bounds s zero h = absurd (omega arith)
back_up_bounds s (suc zero) h = omega arith
back_up_bounds s (suc (suc n)) h = ground (arith, back_up_bounds s (suc n))

cut_bounds :
    (max : ℕ) (s : Text)
    → 0 < max
    → 0 < length s
    → (0 < cut max s) × (cut max s ≤ max) × (cut max s ≤ length s)
unfolding cut
cut_bounds max s h k = ground (arith, back_up_bounds s max)

-- With a round for each byte the sentence is cut up whole.
concat-hard_split :
    (rounds max : ℕ) (s : Text) → 0 < max → length s ≤ rounds → concat (hard_split rounds max s) ≡ s
unfolding hard_split
concat-hard_split rounds max [] h k = refl
concat-hard_split zero max (c ∷ s) h k = absurd (omega arith)
concat-hard_split (suc rounds) max (c ∷ s) h k =
    let n = cut max (c ∷ s) in
    let b = cut_bounds max (c ∷ s) h (omega arith) in
    let ih =
      concat-hard_split rounds max (drop n (c ∷ s)) h (omega (arith, b, length-drop n (c ∷ s))) in
    ap (λ t. take n (c ∷ s) ++ t) ih ∙ take-append-drop n (c ∷ s)

hard_split-IsPiece :
    (rounds max : ℕ) (s : Text) → 0 < max → All (IsPiece max) (hard_split rounds max s)
unfolding hard_split
hard_split-IsPiece rounds max [] h = tt
hard_split-IsPiece zero max (c ∷ s) h = tt
hard_split-IsPiece (suc rounds) max (c ∷ s) h =
    let n = cut max (c ∷ s) in
    let b = cut_bounds max (c ∷ s) h (omega arith) in
    let l = length-take n (c ∷ s) in
    ((omega (arith, b, l), omega (arith, b, l)), hard_split-IsPiece rounds max (drop n (c ∷ s)) h)

concat-one_if : (t : Text) → concat (one_if t) ≡ t
concat-one_if [] = refl
concat-one_if (c ∷ t) = append-nil (c ∷ t)

pub one_if-IsPiece : (max : ℕ) (t : Text) → length t ≤ max → All (IsPiece max) (one_if t)
one_if-IsPiece max [] h = tt
one_if-IsPiece max (c ∷ t) h = ((omega arith, h), tt)

abbrev overflows : ℕ → Text → Text → Bool
overflows max buf s = ltb max (length buf + length s) && not (is_empty buf)

overflows_filled : (max : ℕ) (buf s : Text) → overflows max buf s ≡ true → 0 < length buf
overflows_filled max [] s h = ground arith
overflows_filled max (c ∷ buf) s h = omega arith

-- A sentence that is too long by itself finds the buffer empty or flushes it.
long_unbuffered :
    (max : ℕ) (buf s : Text) → overflows max buf s ≡ false → ltb max (length s) ≡ true → buf ≡ []
long_unbuffered max [] s h k = refl
long_unbuffered max (c ∷ buf) s h k = ground arith

joined_fits :
    (max : ℕ) (buf s : Text)
    → overflows max buf s ≡ false
    → ltb max (length s) ≡ false
    → length (buf ++ s) ≤ max
joined_fits max [] s h k = ground arith
joined_fits max (c ∷ buf) s h k = ground (arith, length-append (c ∷ buf) s)

concat-sentences_from :
    (max : ℕ) (buf : Text) (ss : List Text)
    → 0 < max
    → concat (sentences_from max buf ss) ≡ buf ++ concat ss
unfolding sentences_from
concat-sentences_from max buf [] h = concat-one_if buf ∙ sym (append-nil buf)
concat-sentences_from max buf (s ∷ ss) h =
    let whole = concat-hard_split (length s) max s h (omega arith) in
    elim (Bool-cases (overflows max buf s)) [
      | inl o ↦ elim (Bool-cases (ltb max (length s))) [
        | inl l ↦
            rw (o, l, concat-append (hard_split (length s) max s), whole)
              (ap (λ t. buf ++ (s ++ t)) (concat-sentences_from max [] ss h))
        | inr l ↦ rw (o, l) (ap (λ t. buf ++ t) (concat-sentences_from max s ss h))
      ]
      | inr o ↦ elim (Bool-cases (ltb max (length s))) [
        | inl l ↦
            let e = long_unbuffered max buf s o l in
            rw
              (
                o,
                l,
                concat-append (hard_split (length s) max s),
                whole,
                concat-sentences_from max buf ss h,
              )
              (ap (λ b. s ++ (b ++ concat ss)) e ∙ ap (λ b. b ++ (s ++ concat ss)) (sym e))
        | inr l ↦
            rw (o, l) (concat-sentences_from max (buf ++ s) ss h ∙ append_assoc buf s (concat ss))
      ]
    ]

sentences_from-IsPiece :
    (max : ℕ) (buf : Text) (ss : List Text)
    → 0 < max
    → length buf ≤ max
    → All (IsPiece max) (sentences_from max buf ss)
unfolding sentences_from
sentences_from-IsPiece max buf [] h k = one_if-IsPiece max buf k
sentences_from-IsPiece max buf (s ∷ ss) h k =
    let cuts = hard_split-IsPiece (length s) max s h in
    elim (Bool-cases (overflows max buf s)) [
      | inl o ↦ elim (Bool-cases (ltb max (length s))) [
        | inl l ↦
            rw (o, l)
              (
                (overflows_filled max buf s o, k),
                All-append (IsPiece max) _ _ cuts
                    (sentences_from-IsPiece max [] ss h (omega arith)),
              )
        | inr l ↦
            rw (o, l)
              ((overflows_filled max buf s o, k), sentences_from-IsPiece max s ss h (ground arith))
      ]
      | inr o ↦ elim (Bool-cases (ltb max (length s))) [
        | inl l ↦
            rw (o, l) (All-append (IsPiece max) _ _ cuts (sentences_from-IsPiece max buf ss h k))
        | inr l ↦ rw (o, l) (sentences_from-IsPiece max (buf ++ s) ss h (joined_fits max buf s o l))
      ]
    ]

-- The pieces of splitSentences, joined, are the text.
pub concat-split_sentences : (max : ℕ) (s : Text) → 0 < max → concat (split_sentences max s) ≡ s
unfolding split_sentences
concat-split_sentences max s h =
    concat-sentences_from max [] (split_after2 b'.' b' ' s) h ∙ concat-split_after2 b'.' b' ' s

pub split_sentences-IsPiece :
    (max : ℕ) (s : Text) → 0 < max → All (IsPiece max) (split_sentences max s)
unfolding split_sentences
split_sentences-IsPiece max s h =
    sentences_from-IsPiece max [] (split_after2 b'.' b' ' s) h (omega arith)
