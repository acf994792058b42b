-- ===== src/Retrieval/MultiList/Laws.antt =====
-- What FuseRankedLists of internal/retrieval/multilist.go gives back.
use personal_memory.Prelude.{
  ◌+◌, ◌<◌, All, Bool-cases, List, [], arith, drop, false, inl, inr, length, refl, suc, take, true,
  zero, ◌||◌, ℕ, ◌∷◌, ◌≡◌, Option-cases, ap, leb, leb→le, some, subst, ◌≤◌,
}
use personal_memory.Retrieval.MultiList.{
  FusedResult, RankedList, Scores, add_candidate, add_ids, add_lists, find_result, first_id,
  flat_top_id, fused_before, names_of, MultiListOptions, replace_last, top_results,
}
use personal_memory.Go.Text.{Text, text_eq, is_empty}
use personal_memory.Lifecycle.Model.{contains, is_some}
use personal_memory.Go.Sort.{insert, sort}
use personal_memory.Go.Text.Laws.{text_eq_iff, text_eq_refl, text_lt_asymm, text_lt_negtrans}

pub some_inj : {A : Type 0} {a b : A} → some a ≡ some b → a ≡ b
some_inj h = cc

take_all : {A : Type 0} (n : ℕ) (xs : List A) → length xs ≤ n → take n xs ≡ xs
take_all zero [] h = refl
take_all zero (x ∷ xs) h = absurd (omega arith)
take_all (suc n) [] h = refl
take_all (suc n) (x ∷ xs) h = ap (λ l. x ∷ l) (take_all n xs (omega arith))

nonempty_take :
    {A : Type 0} (n : ℕ) (xs : List A) → 0 < n → leb (length xs) n ≡ false → 0 < length (take n xs)
nonempty_take zero xs h k = absurd (omega arith)
nonempty_take (suc n) [] h k = absurd (ground arith)
nonempty_take (suc n) (x ∷ xs) h k = omega arith

module _ (scores : Scores) where
  open scores use {Score, above_asymm, above_negtrans}

  Has : Text → List (FusedResult scores) → Type 0
  Has id cs = is_some (find_result scores id cs) ≡ true

  pub fused_before_asymm :
      (a b : FusedResult scores) → fused_before scores a b ≡ true → fused_before scores b a ≡ false
  fused_before_asymm a b h =
      let x = a.rrf_score in
      let y = b.rrf_score in
      ground (arith, above_asymm x y, above_asymm y x, text_lt_asymm a.id b.id)

  pub fused_before_negtrans :
      (a b c : FusedResult scores)
      → fused_before scores b a ≡ false
      → fused_before scores c b ≡ false
      → fused_before scores c a ≡ false
  fused_before_negtrans a b c h k =
      let x = a.rrf_score in
      let y = b.rrf_score in
      let z = c.rrf_score in
      ground (
        arith,
        above_negtrans x y z,
        above_negtrans z y x,
        above_negtrans x z y,
        above_negtrans y x z,
        above_negtrans y z x,
        above_negtrans z x y,
        text_lt_negtrans a.id b.id c.id,
      )

  -- Which ids are there
  find-add_candidate :
      (name : Text) (rank : ℕ) (term : Score) (id j : Text) (cs : List (FusedResult scores))
      → is_some (find_result scores j (add_candidate scores name rank term id cs))
        ≡ (text_eq id j || is_some (find_result scores j cs))
  unfolding find_result add_candidate
  find-add_candidate name rank term id j [] = ground arith
  find-add_candidate name rank term id j (c ∷ cs) = ground (
    arith,
    find-add_candidate name rank term id j cs,
    text_eq_iff c.id id,
    text_eq_iff c.id j,
    text_eq_iff id j,
  )

  pub find-insert :
      (j : Text) (c : FusedResult scores) (cs : List (FusedResult scores))
      → is_some (find_result scores j (insert (fused_before scores) c cs))
        ≡ (text_eq c.id j || is_some (find_result scores j cs))
  unfolding find_result insert
  find-insert j c [] = ground arith
  find-insert j c (d ∷ cs) = ground (arith, find-insert j c cs)

  pub find-sort :
      (j : Text) (cs : List (FusedResult scores))
      → is_some (find_result scores j (sort (fused_before scores) cs))
        ≡ is_some (find_result scores j cs)
  unfolding find_result sort
  find-sort j [] = refl
  find-sort j (c ∷ cs) =
      ground (arith, find-insert j c (sort (fused_before scores) cs), find-sort j cs)

  find-take-drop :
      (n : ℕ) (j : Text) (cs : List (FusedResult scores))
      → is_some (find_result scores j cs)
        ≡ (is_some (find_result scores j (take n cs)) || is_some (find_result scores j (drop n cs)))
  unfolding find_result
  find-take-drop zero j cs = refl
  find-take-drop (suc n) j [] = refl
  find-take-drop (suc n) j (c ∷ cs) = ground (arith, find-take-drop n j cs)

  find-add_ids :
      (name j : Text) (constant rank : ℕ) (ids : List Text) (cs : List (FusedResult scores))
      → is_some (find_result scores j cs) ≡ true
      → is_some (find_result scores j (add_ids scores name constant rank ids cs)) ≡ true
  unfolding add_ids
  find-add_ids name j constant rank [] cs h = h
  find-add_ids name j constant rank (id ∷ ids) cs h =
      find-add_ids name j constant (rank + 1) ids
        (add_candidate scores name rank (scores.rrf_term rank constant) id cs)
        (ground (arith, find-add_candidate name rank (scores.rrf_term rank constant) id j cs))

  find-add_ids_first :
      (name : Text) (constant rank : ℕ) (ids : List Text) (cs : List (FusedResult scores))
      → 0 < length ids
      → is_some (find_result scores (first_id ids) (add_ids scores name constant rank ids cs))
        ≡ true
  unfolding add_ids
  find-add_ids_first name constant rank [] cs h = absurd (omega arith)
  find-add_ids_first name constant rank (id ∷ ids) cs h =
      find-add_ids name id constant (rank + 1) ids
        (add_candidate scores name rank (scores.rrf_term rank constant) id cs)
        (ground (
          arith,
          find-add_candidate name rank (scores.rrf_term rank constant) id id cs,
          text_eq_refl id,
        ))

  find-add_lists :
      (j : Text) (constant : ℕ) (ls : List RankedList) (cs : List (FusedResult scores))
      → is_some (find_result scores j cs) ≡ true
      → is_some (find_result scores j (add_lists scores constant ls cs)) ≡ true
  unfolding add_lists
  find-add_lists j constant [] cs h = h
  find-add_lists j constant (l ∷ ls) cs h =
      find-add_lists j constant ls (add_ids scores l.name constant 1 l.ids cs)
        (find-add_ids l.name j constant 1 l.ids cs h)

  pub find-flat_top_id :
      (source : Text) (constant : ℕ) (ls : List RankedList) (cs : List (FusedResult scores))
      → All (λ l. 0 < length l.ids) ls
      → contains source (names_of ls) ≡ true
      → is_some (find_result scores (flat_top_id ls source) (add_lists scores constant ls cs))
        ≡ true
  unfolding add_lists flat_top_id contains
  find-flat_top_id source constant [] cs f h = cc
  find-flat_top_id source constant (l ∷ ls) cs f h = elim (Bool-cases (text_eq l.name source)) [
    | inl e ↦ rw e (
        find-add_lists (first_id l.ids) constant ls (add_ids scores l.name constant 1 l.ids cs)
          (find-add_ids_first l.name constant 1 l.ids cs f.0))
    | inr e ↦ rw e (
        find-flat_top_id source constant ls (add_ids scores l.name constant 1 l.ids cs) f.1
          (ground arith))
  ]

  find-replace_last :
      (j : Text) (c : FusedResult scores) (cs : List (FusedResult scores))
      → text_eq c.id j ≡ true
      → 0 < length cs
      → is_some (find_result scores j (replace_last scores c cs)) ≡ true
  unfolding find_result replace_last
  find-replace_last j c [] e h = absurd (omega arith)
  find-replace_last j c (x ∷ []) e h = rw e refl
  find-replace_last j c (x ∷ y ∷ cs) e h =
      ground (arith, find-replace_last j c (y ∷ cs) e (omega arith))

  find_result-id :
      (j : Text) (cs : List (FusedResult scores)) (c : FusedResult scores)
      → find_result scores j cs ≡ some c
      → text_eq c.id j ≡ true
  unfolding find_result
  find_result-id j [] c h = cc
  find_result-id j (d ∷ cs) c h = elim (Bool-cases (text_eq d.id j)) [
    | inl e ↦ subst (λ x. text_eq x.id j ≡ true) (some_inj (rw e at h)) e
    | inr e ↦ find_result-id j cs c (rw e at h)
  ]

  pub find_result-All :
      (P : FusedResult scores → Type 0) (j : Text) (cs : List (FusedResult scores))
      (c : FusedResult scores)
      → find_result scores j cs ≡ some c
      → All P cs
      → P c
  unfolding find_result
  find_result-All P j [] c h a = cc
  find_result-All P j (d ∷ cs) c h a = elim (Bool-cases (text_eq d.id j)) [
    | inl e ↦ subst P (some_inj (rw e at h)) a.0
    | inr e ↦ find_result-All P j cs c (rw e at h) a.1
  ]

  -- The flat source's best candidate is among the results, wherever it is ranked.
  pub find-top_results :
      (ordered : List RankedList) (o : MultiListOptions) (all : List (FusedResult scores))
      → is_empty o.flat_source ≡ false
      → 0 < o.limit
      → is_some (find_result scores (flat_top_id ordered o.flat_source) all) ≡ true
      → is_some (
          find_result scores
            (flat_top_id ordered o.flat_source)
            (top_results scores ordered o all).0)
        ≡ true
  unfolding top_results
  find-top_results ordered o all e p h =
      let flat = flat_top_id ordered o.flat_source in
      let split = find-take-drop o.limit flat all in
      elim (Bool-cases (leb (length all) o.limit)) [
        | inl k ↦ rw (e, k) (rw (take_all o.limit all (leb→le (length all) o.limit k)) h)
        | inr k ↦ elim (Bool-cases (is_some (find_result scores flat (take o.limit all)))) [
          | inl t ↦ rw (e, k, t) t
          | inr t ↦ elim (Option-cases (find_result scores flat (drop o.limit all))) [
            | inl d ↦ absurd (ground arith)
            | inr (c, d) ↦
                rw (e, k, t, d)
                  (find-replace_last flat (record c { flat_rescued = true }) (take o.limit all)
                    (find_result-id flat (drop o.limit all) c d) (nonempty_take o.limit all p k))
          ]
        ]
      ]
