-- ===== src/Retrieval/MultiList/Results.antt =====
-- The results of FuseRankedLists of internal/retrieval/multilist.go.
use personal_memory.Prelude.{
  ◌<◌, All, Bool-cases, List, [], arith, drop, inl, inr, length, refl, some, take, true, ◌||◌, ◌∷◌,
  ◌≡◌, Bool, Option-cases, false, leb, ◌≤◌, length-take, some_inj, subst, sym, ◌∙◌,
}
use personal_memory.Retrieval.MultiList.{
  FusedResult, RankedList, Scores, add_lists, find_result, lists_valid, name_before, names_of,
  MultiListOptions, flat_top_id, fuse_ranked_lists, fused_before, fused_candidates, ordered_lists,
  top_results, validate_ranked_lists,
}
use personal_memory.Go.Sort.{
  Pairwise, insert, sort, IsSorted, sort-All, sort-IsSorted, sort-Pairwise, IsSorted-take,
  Pairwise-take,
}
use personal_memory.Go.Text.{Text, text_eq, is_empty}
use personal_memory.Lifecycle.Model.{contains, is_some}
use personal_memory.Retrieval.MultiList.Laws.{
  find-flat_top_id, find-sort, find-top_results, fused_before_asymm, fused_before_negtrans,
}
use personal_memory.Retrieval.MultiList.Ids.{
  add_lists-Pairwise, drop-Differ, length-replace_last, replace_last-Pairwise, Differ,
}

contains-insert :
    (t : Text) (l : RankedList) (ls : List RankedList)
    → contains t (names_of (insert name_before l ls))
      ≡ (text_eq l.name t || contains t (names_of ls))
unfolding contains insert
contains-insert t l [] = refl
contains-insert t l (m ∷ ls) = ground (arith, contains-insert t l ls)

contains-sort :
    (t : Text) (ls : List RankedList)
    → contains t (names_of (sort name_before ls)) ≡ contains t (names_of ls)
unfolding contains sort
contains-sort t [] = refl
contains-sort t (l ∷ ls) =
    ground (arith, contains-insert t l (sort name_before ls), contains-sort t ls)

lists_valid-filled :
    (names : List Text) (ls : List RankedList)
    → lists_valid names ls ≡ true
    → All (λ l. 0 < length l.ids) ls
unfolding lists_valid
lists_valid-filled names [] h = tt
lists_valid-filled names (l ∷ ls) h =
    (ground arith, lists_valid-filled (l.name ∷ names) ls (ground arith))

module _ (scores : Scores) where
  top_results-Pairwise :
      (ordered : List RankedList) (o : MultiListOptions) (all : List (FusedResult scores))
      → Pairwise (Differ scores) all
      → Pairwise (Differ scores) (top_results scores ordered o all).0
  unfolding top_results
  top_results-Pairwise ordered o all h =
      let flat = flat_top_id ordered o.flat_source in
      let t = Pairwise-take (Differ scores) o.limit all h in
      elim (Bool-cases (is_empty o.flat_source || leb (length all) o.limit)) [
        | inl k ↦ rw k t
        | inr k ↦ elim (Bool-cases (is_some (find_result scores flat (take o.limit all)))) [
          | inl i ↦ rw (k, i) t
          | inr i ↦ elim (Option-cases (find_result scores flat (drop o.limit all))) [
            | inl d ↦ rw (k, i, d) t
            | inr (c, d) ↦
                rw (k, i, d)
                  (replace_last-Pairwise scores (record c { flat_rescued = true })
                    (take o.limit all) (drop-Differ scores o.limit flat all c d h) t)
          ]
        ]
      ]

  length-top_results :
      (ordered : List RankedList) (o : MultiListOptions) (all : List (FusedResult scores))
      → length (top_results scores ordered o all).0 ≡ length (take o.limit all)
  unfolding top_results
  length-top_results ordered o all =
      let flat = flat_top_id ordered o.flat_source in
      elim (Bool-cases (is_empty o.flat_source || leb (length all) o.limit)) [
        | inl k ↦ rw k refl
        | inr k ↦ elim (Bool-cases (is_some (find_result scores flat (take o.limit all)))) [
          | inl i ↦ rw (k, i) refl
          | inr i ↦ elim (Option-cases (find_result scores flat (drop o.limit all))) [
            | inl d ↦ rw (k, i, d) refl
            | inr (c, d) ↦
                rw (k, i, d)
                  (length-replace_last scores (record c { flat_rescued = true }) (take o.limit all))
          ]
        ]
      ]

  -- Unless a result was rescued the results are the best of the candidates.
  top_results-best :
      (ordered : List RankedList) (o : MultiListOptions) (all : List (FusedResult scores))
      → (top_results scores ordered o all).1 ≡ false
      → (top_results scores ordered o all).0 ≡ take o.limit all
  unfolding top_results
  top_results-best ordered o all h =
      let flat = flat_top_id ordered o.flat_source in
      elim (Bool-cases (is_empty o.flat_source || leb (length all) o.limit)) [
        | inl k ↦ rw k refl
        | inr k ↦ elim (Bool-cases (is_some (find_result scores flat (take o.limit all)))) [
          | inl i ↦ rw (k, i) refl
          | inr i ↦ elim (Option-cases (find_result scores flat (drop o.limit all))) [
            | inl d ↦ rw (k, i, d) refl
            | inr (c, d) ↦ let f = rw (k, i, d, top_results) at h in cc
          ]
        ]
      ]

-- What a fusion gives back.
pub record IsFused (scores : Scores) (ls : List RankedList) (o : MultiListOptions)
    (results : List (FusedResult scores)) (rescued : Bool) : Type 0 where
  pub bounded : length results ≤ o.limit
  pub as_many : length results ≡ length (take o.limit (fused_candidates scores o.rrf_constant ls))
  pub distinct : Pairwise (Differ scores) results
  pub best : rescued ≡ false → IsSorted (fused_before scores) results
  pub flat_kept :
      is_empty o.flat_source ≡ false
      → is_some (find_result scores (flat_top_id (ordered_lists ls) o.flat_source) results) ≡ true

valid_parts :
    (ls : List RankedList) (o : MultiListOptions)
    → validate_ranked_lists ls o ≡ true
    → (0 < o.limit)
      × (lists_valid [] ls ≡ true)
      × (is_empty o.flat_source ≡ false → contains o.flat_source (names_of ls) ≡ true)
unfolding validate_ranked_lists
valid_parts ls o h = (ground arith, ground arith, λ e. ground arith)

top_results-IsFused :
    (scores : Scores) (ls : List RankedList) (o : MultiListOptions)
    → validate_ranked_lists ls o ≡ true
    → let r = top_results scores (ordered_lists ls) o (fused_candidates scores o.rrf_constant ls) in
      IsFused scores ls o r.0 r.1
top_results-IsFused scores ls o v =
    let (positive, valid, flat) = valid_parts ls o v in
    let ordered = ordered_lists ls in
    let sums = add_lists scores o.rrf_constant ordered [] in
    let all = fused_candidates scores o.rrf_constant ls in
    record {
      bounded =
          rw (length-top_results scores ordered o all) (omega (arith, length-take o.limit all));
      as_many = length-top_results scores ordered o all;
      distinct = top_results-Pairwise scores ordered o all (
          sort-Pairwise (fused_before scores) (Differ scores) (λ a b n e. n (sym e)) sums
            (add_lists-Pairwise scores o.rrf_constant ordered [] tt));
      best = λ e. rw (top_results-best scores ordered o all e) (
          IsSorted-take (fused_before scores) o.limit all (
            sort-IsSorted (fused_before scores) (fused_before_asymm scores)
              (fused_before_negtrans scores) sums));
      flat_kept = λ e. find-top_results scores ordered o all e positive (
          find-sort scores (flat_top_id ordered o.flat_source) sums
          ∙ find-flat_top_id scores o.flat_source o.rrf_constant ordered []
              (sort-All name_before (λ l. 0 < length l.ids) ls (lists_valid-filled [] ls valid))
              (contains-sort o.flat_source ls ∙ flat e));
    }

-- Lists that pass the checks are fused to at most the limit's number of candidates with distinct
-- ids, as many as there are up to the limit. They are in the order of the comparison unless the
-- last was rescued, and the best candidate of the flat source, if one is named, is among them.
pub fuse_ranked_lists-IsFused :
    (scores : Scores) (ls : List RankedList) (o : MultiListOptions)
    (results : List (FusedResult scores)) (rescued : Bool)
    → fuse_ranked_lists scores ls o ≡ some (results, rescued)
    → IsFused scores ls o results rescued
unfolding fuse_ranked_lists
fuse_ranked_lists-IsFused scores ls o results rescued h =
    elim (Bool-cases (validate_ranked_lists ls o)) [
      | inr v ↦ let c = rw (v, fuse_ranked_lists) at h in cc
      | inl v ↦
          let e = some_inj (rw (v, fuse_ranked_lists) at h) in
          subst (λ r. IsFused scores ls o r.0 r.1) e (top_results-IsFused scores ls o v)
    ]
