-- ===== src/Go/Sort/Reorder.antt =====
-- Sorting by a strict order does not depend on the order before, where any two elements differ in it.
use personal_memory.Go.Sort.{Pairwise, insert, sort, sort-All}
use personal_memory.Prelude.{
  All, Bool, Bool-cases, List, [], ap, false, inl, inr, length, refl, suc, sym, true, ◌∙◌, ◌∷◌, ◌≡◌,
  ◌⊎◌,
}
use personal_memory.Recall.Present.{decided}

-- The same elements in another order
pub data Reordered {ℓ} {A : Type ℓ} : List A → List A → Type ℓ where
  same : (xs : List A) → Reordered xs xs
  swapped : (x y : A) (xs : List A) → Reordered (x ∷ y ∷ xs) (y ∷ x ∷ xs)
  kept : (x : A) {xs ys : List A} → Reordered xs ys → Reordered (x ∷ xs) (x ∷ ys)
  through : {xs ys zs : List A} → Reordered xs ys → Reordered ys zs → Reordered xs zs

module _ {ℓ} {A : Type ℓ} where
  pub Reordered-length : {xs ys : List A} → Reordered xs ys → length xs ≡ length ys
  Reordered-length (same xs) = refl
  Reordered-length (swapped x y xs) = refl
  Reordered-length (kept x r) = ap suc (Reordered-length r)
  Reordered-length (through r s) = Reordered-length r ∙ Reordered-length s

  Reordered-All : (P : A → Type 0) {xs ys : List A} → Reordered xs ys → All P xs → All P ys
  Reordered-All P (same xs) h = h
  Reordered-All P (swapped x y xs) h = (h.1.0, (h.0, h.1.1))
  Reordered-All P (kept x r) h = (h.0, Reordered-All P r h.1)
  Reordered-All P (through r s) h = Reordered-All P s (Reordered-All P r h)

  Reordered-Pairwise :
      (R : A → A → Type 0) (swap : (a b : A) → R a b → R b a) {xs ys : List A}
      → Reordered xs ys
      → Pairwise R xs
      → Pairwise R ys
  Reordered-Pairwise R swap (same xs) h = h
  Reordered-Pairwise R swap (swapped x y xs) h = ((swap x y h.0.0, h.1.0), (h.0.1, h.1.1))
  Reordered-Pairwise R swap (kept x r) h =
      (Reordered-All (R x) r h.0, Reordered-Pairwise R swap r h.1)
  Reordered-Pairwise R swap (through r s) h =
      Reordered-Pairwise R swap s (Reordered-Pairwise R swap r h)

module _ {ℓ} {A : Type ℓ} (less : A → A → Bool) (P : A → Type 0)
    (asymm : (a b : A) → less a b ≡ true → less b a ≡ false)
    (negtrans : (a b c : A)
      → P a
      → P b
      → P c
      → less b a ≡ false
      → less c b ≡ false
      → less c a ≡ false) where
  insert-insert :
      (x y : A) (zs : List A)
      → P x
      → P y
      → All P zs
      → less x y ≡ true
      → insert less x (insert less y zs) ≡ insert less y (insert less x zs)
  unfolding insert
  insert-insert x y [] p q r h = rw (h, asymm x y h) refl
  insert-insert x y (z ∷ zs) p q r h =
      let k = asymm x y h in
      let ih = insert-insert x y zs p q r.1 h in
      elim (Bool-cases (less z x)) [
        | inl a ↦ elim (Bool-cases (less z y)) [
          | inl b ↦ rw (b, a) (rw b (ap (λ l. z ∷ l) ih))
          | inr b ↦ let n = negtrans x y z p q r.0 k b in cc
        ]
        | inr a ↦ elim (Bool-cases (less z y)) [
          | inl b ↦ rw (b, a) (rw h (rw b refl))
          | inr b ↦ rw (b, a) (rw (k, h) (rw b refl))
        ]
      ]

  pub sort-Reordered :
      (R : A → A → Type 0)
      → ((a b : A) → R a b → R b a)
      → ((a b : A) → P a → P b → R a b → (less a b ≡ true) ⊎ (less b a ≡ true))
      → {xs ys : List A} → Reordered xs ys
      → All P xs
      → Pairwise R xs
      → sort less xs ≡ sort less ys
  unfolding sort
  sort-Reordered R swap decided (same xs) p h = refl
  sort-Reordered R swap decided (swapped x y xs) p h =
      let rest = sort-All less P xs p.1.1 in
      elim (decided x y p.0 p.1.0 h.0.0) [
        | inl e ↦ insert-insert x y (sort less xs) p.0 p.1.0 rest e
        | inr e ↦ sym (insert-insert y x (sort less xs) p.1.0 p.0 rest e)
      ]
  sort-Reordered R swap decided (kept x r) p h =
      ap (insert less x) (sort-Reordered R swap decided r p.1 h.1)
  sort-Reordered R swap decided (through r s) p h =
      sort-Reordered R swap decided r p h
      ∙ sort-Reordered R swap decided s (Reordered-All P r p) (Reordered-Pairwise R swap r h)
