-- ===== src/Go/Sort.antt =====
-- sort.SliceStable: the list in the order of `less`, equal elements in their old order. Where
-- `less` is a strict weak order there is one such list, whatever the algorithm.
pub mod Reorder
use mathlib.Core.List.{Perm}
use mathlib.Core.List.Perm
use personal_memory.Prelude.{
  ◌≡◌, refl, ap, Bool, true, false, List, [], ◌∷◌, if◌then◌else◌, All, Bool-cases, inl, inr, length,
  suc, All-take, take, zero, ℕ,
}

-- A relation that holds of any two, the first of which stands before the second.
abbrev pub Pairwise {ℓ κ} : {A : Type ℓ} → (A → A → Type κ) → List A → Type κ
Pairwise R [] = Unit
Pairwise R (x ∷ xs) = All (R x) xs × Pairwise R xs

pub Pairwise-take {ℓ κ} :
    {A : Type ℓ} (R : A → A → Type κ) (n : ℕ) (xs : List A) → Pairwise R xs → Pairwise R (take n xs)
Pairwise-take R zero xs h = tt
Pairwise-take R (suc n) [] h = tt
Pairwise-take R (suc n) (x ∷ xs) h = (All-take (R x) n xs h.0, Pairwise-take R n xs h.1)

module _ {ℓ} {A : Type ℓ} (less : A → A → Bool) where
  -- `x` stood before all of `ys`, so it passes only what is strictly less.
  unfoldable pub insert : A → List A → List A
  insert x [] = x ∷ []
  insert x (y ∷ ys) = if less y x then y ∷ insert x ys else x ∷ y ∷ ys

  unfoldable pub sort : List A → List A
  unfolding insert
  sort [] = []
  sort (x ∷ xs) = insert x (sort xs)

  -- No element is strictly less than one before it.
  abbrev pub IsSorted : List A → Type ℓ
  IsSorted [] = Unit
  IsSorted (x ∷ xs) = All (λ y. less y x ≡ false) xs × IsSorted xs

  pub IsSorted-take : (n : ℕ) (xs : List A) → IsSorted xs → IsSorted (take n xs)
  IsSorted-take zero xs h = tt
  IsSorted-take (suc n) [] h = tt
  IsSorted-take (suc n) (x ∷ xs) h =
      (All-take (λ y. less y x ≡ false) n xs h.0, IsSorted-take n xs h.1)

  insert-perm : (x : A) (ys : List A) → Perm (insert x ys) (x ∷ ys)
  unfolding insert
  insert-perm x [] = Perm.refl (x ∷ [])
  insert-perm x (y ∷ ys) = elim (Bool-cases (less y x)) [
    | inl e ↦ rw e (Perm.trans (Perm.cons y (insert-perm x ys)) (Perm.swap x y ys))
    | inr e ↦ rw e (Perm.refl (x ∷ y ∷ ys))
  ]

  pub sort-perm : (xs : List A) → Perm (sort xs) xs
  unfolding sort
  sort-perm [] = Perm.refl []
  sort-perm (x ∷ xs) = Perm.trans (insert-perm x (sort xs)) (Perm.cons x (sort-perm xs))

  module _ {κ} (P : A → Type κ) where
    pub insert-All : (x : A) (ys : List A) → P x → All P ys → All P (insert x ys)
    unfolding insert
    insert-All x [] p h = (p, tt)
    insert-All x (y ∷ ys) p h = elim (Bool-cases (less y x)) [
      | inl e ↦ rw e (h.0, insert-All x ys p h.1)
      | inr e ↦ rw e (p, h)
    ]

    pub sort-All : (xs : List A) → All P xs → All P (sort xs)
    unfolding sort
    sort-All [] h = tt
    sort-All (x ∷ xs) h = insert-All x (sort xs) h.0 (sort-All xs h.1)

  module _ (asymm : (a b : A) → less a b ≡ true → less b a ≡ false)
      (negtrans : (a b c : A) → less b a ≡ false → less c b ≡ false → less c a ≡ false) where
    All-weaken :
        (x y : A) (ys : List A)
        → less y x ≡ false
        → All (λ z. less z y ≡ false) ys
        → All (λ z. less z x ≡ false) ys
    All-weaken x y [] h k = tt
    All-weaken x y (z ∷ ys) h k = (negtrans x y z h k.0, All-weaken x y ys h k.1)

    insert-IsSorted : (x : A) (ys : List A) → IsSorted ys → IsSorted (insert x ys)
    unfolding insert
    insert-IsSorted x [] s = (tt, tt)
    insert-IsSorted x (y ∷ ys) s = elim (Bool-cases (less y x)) [
      | inl e ↦
          rw e (insert-All (λ z. less z y ≡ false) x ys (asymm y x e) s.0, insert-IsSorted x ys s.1)
      | inr e ↦ rw e ((e, All-weaken x y ys e s.0), s)
    ]

    pub sort-IsSorted : (xs : List A) → IsSorted (sort xs)
    unfolding sort
    sort-IsSorted [] = tt
    sort-IsSorted (x ∷ xs) = insert-IsSorted x (sort xs) (sort-IsSorted xs)

  -- Sorting keeps what holds of any two, in whichever order.
  module _ {κ} (R : A → A → Type κ) (swap : (a b : A) → R a b → R b a) where
    insert-Pairwise :
        (x : A) (ys : List A) → All (R x) ys → Pairwise R ys → Pairwise R (insert x ys)
    unfolding insert
    insert-Pairwise x [] h k = (tt, tt)
    insert-Pairwise x (y ∷ ys) h k = elim (Bool-cases (less y x)) [
      | inl e ↦ rw e (insert-All (R y) x ys (swap x y h.0) k.0, insert-Pairwise x ys h.1 k.1)
      | inr e ↦ rw e (h, k)
    ]

    pub sort-Pairwise : (xs : List A) → Pairwise R xs → Pairwise R (sort xs)
    unfolding sort
    sort-Pairwise [] h = tt
    sort-Pairwise (x ∷ xs) h =
        insert-Pairwise x (sort xs) (sort-All (R x) xs h.0) (sort-Pairwise xs h.1)

  length-insert : (x : A) (ys : List A) → length (insert x ys) ≡ suc (length ys)
  unfolding insert
  length-insert x [] = refl
  length-insert x (y ∷ ys) = elim (Bool-cases (less y x)) [
    | inl e ↦ rw e (ap suc (length-insert x ys))
    | inr e ↦ rw e
  ]

  pub length-sort : (xs : List A) → length (sort xs) ≡ length xs
  unfolding sort
  length-sort [] = refl
  length-sort (x ∷ xs) = rw (length-insert x (sort xs)) (ap suc (length-sort xs))
