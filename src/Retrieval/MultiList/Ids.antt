-- ===== src/Retrieval/MultiList/Ids.antt =====
-- The candidates of internal/retrieval/multilist.go have distinct ids.
use personal_memory.Prelude.{
  ◌+◌, All, Bool-cases, List, [], ap, arith, drop, inl, inr, length, refl, some, suc, take, zero, ℕ,
  ◌∷◌, ◌≡◌, ◌≢◌, All-drop,
}
use personal_memory.Retrieval.MultiList.{
  FusedResult, RankedList, Scores, add_candidate, add_ids, add_lists, find_result, replace_last,
}
use personal_memory.Go.Sort.{Pairwise}
use personal_memory.Go.Text.{Text, text_eq}
use personal_memory.Retrieval.MultiList.Laws.{find_result-All}
use personal_memory.Go.Text.Laws.{text_eq_iff}

-- Two candidates with distinct ids
abbrev pub Differ : (scores : Scores) → FusedResult scores → FusedResult scores → Type 0
Differ scores a b = a.id ≢ b.id

module _ (scores : Scores) where
  add_candidate-All :
      (P : Text → Type 0) (name : Text) (rank : ℕ) (term : scores.Score) (id : Text)
      (cs : List (FusedResult scores))
      → P id
      → All (λ c. P c.id) cs
      → All (λ c. P c.id) (add_candidate scores name rank term id cs)
  unfolding add_candidate
  add_candidate-All P name rank term id [] p h = (p, tt)
  add_candidate-All P name rank term id (c ∷ cs) p h = elim (Bool-cases (text_eq c.id id)) [
    | inl e ↦ rw e h
    | inr e ↦ rw e (h.0, add_candidate-All P name rank term id cs p h.1)
  ]

  add_candidate-Pairwise :
      (name : Text) (rank : ℕ) (term : scores.Score) (id : Text) (cs : List (FusedResult scores))
      → Pairwise (Differ scores) cs
      → Pairwise (Differ scores) (add_candidate scores name rank term id cs)
  unfolding add_candidate
  add_candidate-Pairwise name rank term id [] h = (tt, tt)
  add_candidate-Pairwise name rank term id (c ∷ cs) h = elim (Bool-cases (text_eq c.id id)) [
    | inl e ↦ rw e h
    | inr e ↦ rw e (
      add_candidate-All (λ j. c.id ≢ j) name rank term id cs (ground (arith, text_eq_iff c.id id))
          h.0,
      add_candidate-Pairwise name rank term id cs h.1,
    )
  ]

  add_ids-Pairwise :
      (name : Text) (constant rank : ℕ) (ids : List Text) (cs : List (FusedResult scores))
      → Pairwise (Differ scores) cs
      → Pairwise (Differ scores) (add_ids scores name constant rank ids cs)
  unfolding add_ids
  add_ids-Pairwise name constant rank [] cs h = h
  add_ids-Pairwise name constant rank (id ∷ ids) cs h =
      let term = scores.rrf_term rank constant in
      add_ids-Pairwise name constant (rank + 1) ids (add_candidate scores name rank term id cs)
        (add_candidate-Pairwise name rank term id cs h)

  pub add_lists-Pairwise :
      (constant : ℕ) (ls : List RankedList) (cs : List (FusedResult scores))
      → Pairwise (Differ scores) cs
      → Pairwise (Differ scores) (add_lists scores constant ls cs)
  unfolding add_lists
  add_lists-Pairwise constant [] cs h = h
  add_lists-Pairwise constant (l ∷ ls) cs h =
      add_lists-Pairwise constant ls (add_ids scores l.name constant 1 l.ids cs)
        (add_ids-Pairwise l.name constant 1 l.ids cs h)

  -- What is found after the first `n` differs from each of them.
  pub drop-Differ :
      (n : ℕ) (j : Text) (cs : List (FusedResult scores)) (c : FusedResult scores)
      → find_result scores j (drop n cs) ≡ some c
      → Pairwise (Differ scores) cs
      → All (λ d. d.id ≢ c.id) (take n cs)
  drop-Differ zero j cs c e h = tt
  drop-Differ (suc n) j [] c e h = tt
  drop-Differ (suc n) j (d ∷ cs) c e h = (
    find_result-All scores (λ x. d.id ≢ x.id) j (drop n cs) c e
        (All-drop (Differ scores d) n cs h.0),
    drop-Differ n j cs c e h.1,
  )

  replace_last-All :
      (P : FusedResult scores → Type 0) (c : FusedResult scores) (cs : List (FusedResult scores))
      → P c
      → All P cs
      → All P (replace_last scores c cs)
  unfolding replace_last
  replace_last-All P c [] p h = tt
  replace_last-All P c (x ∷ []) p h = (p, tt)
  replace_last-All P c (x ∷ y ∷ cs) p h = (h.0, replace_last-All P c (y ∷ cs) p h.1)

  pub replace_last-Pairwise :
      (c : FusedResult scores) (cs : List (FusedResult scores))
      → All (λ d. d.id ≢ c.id) cs
      → Pairwise (Differ scores) cs
      → Pairwise (Differ scores) (replace_last scores c cs)
  unfolding replace_last
  replace_last-Pairwise c [] a h = tt
  replace_last-Pairwise c (x ∷ []) a h = (tt, tt)
  replace_last-Pairwise c (x ∷ y ∷ cs) a h = (
    replace_last-All (Differ scores x) c (y ∷ cs) a.0 h.0,
    replace_last-Pairwise c (y ∷ cs) a.1 h.1,
  )

  pub length-replace_last :
      (c : FusedResult scores) (cs : List (FusedResult scores))
      → length (replace_last scores c cs) ≡ length cs
  unfolding replace_last
  length-replace_last c [] = refl
  length-replace_last c (x ∷ []) = refl
  length-replace_last c (x ∷ y ∷ cs) = ap suc (length-replace_last c (y ∷ cs))
