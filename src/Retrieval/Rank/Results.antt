-- ===== src/Retrieval/Rank/Results.antt =====
-- The results of Rank of internal/retrieval/fusion.go.
use Prim.Native.Nat.{min}
use personal_memory.Go.Float.{nan, Float}
use personal_memory.Retrieval.Rank.Order.{Differ, each_valid-Pairwise, valid_each}
use personal_memory.Prelude.{
  ◌+◌, ◌==◌, All, Bool-cases, List, [], ap, arith, false, if◌then◌else◌, inl, inr, length,
  length-take, map, refl, some, subst, suc, sym, true, ◌||◌, ℕ, ◌∙◌, ◌∷◌, ◌≡◌,
}
use personal_memory.Retrieval.Rank.{
  DenseCandidate, RankedCandidate, assign_lexical_ranks, dense_before, dense_ranks, each_valid,
  fused_score, lexical_before, lexical_ranks, rank_before, rank_validated, score_all, scores_differ,
  set_lexical_ranks, validate_candidates, with_signal, rank,
}
use personal_memory.Retrieval.Lexical.{Lexer, no_diagnostics}
use personal_memory.Go.Sort.{
  IsSorted, Pairwise, length-sort, sort, sort-IsSorted, sort-Pairwise, IsSorted-take, Pairwise-take,
}
use personal_memory.Retrieval.MultiList.{Scores}
use personal_memory.Go.Text.{Text}
use personal_memory.Go.Text.Laws.{text_lt_asymm, text_lt_negtrans}

abbrev pub candidates_of : List RankedCandidate → List DenseCandidate
candidates_of rs = map (λ r. r.candidate) rs

-- Two results with distinct ids
abbrev pub ResultsDiffer : RankedCandidate → RankedCandidate → Type 0
ResultsDiffer a b = Differ a.candidate b.candidate

candidates_of-dense_ranks :
    (index : ℕ) (before : Float) (rank : ℕ) (cs : List DenseCandidate)
    → candidates_of (dense_ranks index before rank cs) ≡ cs
unfolding dense_ranks
candidates_of-dense_ranks index before rank [] = refl
candidates_of-dense_ranks index before rank (c ∷ cs) =
    ap (λ l. c ∷ l)
      (candidates_of-dense_ranks (index + 1) c.dense_score
        (if (index == 0) || scores_differ c.dense_score before then index + 1 else rank) cs)

candidates_of-score_all :
    (lexer : Lexer) (query : Text) (rs : List RankedCandidate)
    → candidates_of (score_all lexer query rs) ≡ candidates_of rs
unfolding score_all
candidates_of-score_all lexer query [] = refl
candidates_of-score_all lexer query (r ∷ rs) =
    ap (λ l. r.candidate ∷ l) (candidates_of-score_all lexer query rs)

candidates_of-set_lexical_ranks :
    (ranks : List (Text × ℕ)) (rs : List RankedCandidate)
    → candidates_of (set_lexical_ranks ranks rs) ≡ candidates_of rs
unfolding set_lexical_ranks
candidates_of-set_lexical_ranks ranks [] = refl
candidates_of-set_lexical_ranks ranks (r ∷ rs) =
    ap (λ l. r.candidate ∷ l) (candidates_of-set_lexical_ranks ranks rs)

candidates_of-All :
    (P : DenseCandidate → Type 0) (rs : List RankedCandidate)
    → All P (candidates_of rs)
    → All (λ r. P r.candidate) rs
candidates_of-All P [] h = tt
candidates_of-All P (r ∷ rs) h = (h.0, candidates_of-All P rs h.1)

candidates_of-Pairwise :
    (rs : List RankedCandidate) → Pairwise Differ (candidates_of rs) → Pairwise ResultsDiffer rs
candidates_of-Pairwise [] h = tt
candidates_of-Pairwise (r ∷ rs) h =
    (candidates_of-All (Differ r.candidate) rs h.0, candidates_of-Pairwise rs h.1)

module _ (scores : Scores) (constant : ℕ) where
  rank_before-asymm :
      (a b : RankedCandidate)
      → rank_before scores constant a b ≡ true
      → rank_before scores constant b a ≡ false
  rank_before-asymm a b h =
      let x = fused_score scores constant a in
      let y = fused_score scores constant b in
      ground (
        arith,
        scores.above_asymm x y,
        scores.above_asymm y x,
        text_lt_asymm a.candidate.id b.candidate.id,
      )

  rank_before-negtrans :
      (a b c : RankedCandidate)
      → rank_before scores constant b a ≡ false
      → rank_before scores constant c b ≡ false
      → rank_before scores constant c a ≡ false
  rank_before-negtrans a b c h k =
      let x = fused_score scores constant a in
      let y = fused_score scores constant b in
      let z = fused_score scores constant c in
      ground (
        arith,
        scores.above_negtrans x y z,
        scores.above_negtrans z y x,
        scores.above_negtrans x z y,
        scores.above_negtrans y x z,
        scores.above_negtrans y z x,
        scores.above_negtrans z x y,
        text_lt_negtrans a.candidate.id b.candidate.id c.candidate.id,
      )

pub record IsRanking (scores : Scores) (cs : List DenseCandidate) (constant limit : ℕ)
    (rs : List RankedCandidate) : Type 0 where
  pub as_many : length rs ≡ min limit (length cs)
  pub sorted : IsSorted (rank_before scores constant) rs
  pub distinct : Pairwise ResultsDiffer rs

rank_validated-IsRanking :
    (scores : Scores) (lexer : Lexer) (query : Text) (cs : List DenseCandidate) (constant limit : ℕ)
    → Pairwise Differ cs
    → IsRanking scores cs constant limit (rank_validated scores lexer query cs constant limit)
unfolding rank_validated assign_lexical_ranks
rank_validated-IsRanking scores lexer query cs constant limit h =
    let ranked = dense_ranks 0 nan 0 (sort dense_before cs) in
    let scored = score_all lexer query ranked in
    let ranks = lexical_ranks 0 no_diagnostics 0 (sort lexical_before (with_signal scored)) in
    let all = set_lexical_ranks ranks scored in
    let same : candidates_of all ≡ sort dense_before cs =
      candidates_of-set_lexical_ranks ranks scored
      ∙ candidates_of-score_all lexer query ranked
      ∙ candidates_of-dense_ranks 0 nan 0 (sort dense_before cs) in
    let differ =
      subst (Pairwise Differ) (sym same)
        (sort-Pairwise dense_before Differ (λ a b n e. n (sym e)) cs h) in
    let ordered = sort (rank_before scores constant) all in
    record {
      as_many = omega (
        arith,
        length-take limit ordered,
        length-sort (rank_before scores constant) all,
        length_candidates all,
        ap length same,
        length-sort dense_before cs,
      );
      sorted = IsSorted-take (rank_before scores constant) limit ordered (
          sort-IsSorted (rank_before scores constant) (rank_before-asymm scores constant)
            (rank_before-negtrans scores constant) all);
      distinct = Pairwise-take ResultsDiffer limit ordered (
          sort-Pairwise (rank_before scores constant) ResultsDiffer (λ a b n e. n (sym e)) all
            (candidates_of-Pairwise all differ));
    }
  where
    length_candidates : (rs : List RankedCandidate) → length (candidates_of rs) ≡ length rs
    length_candidates [] = refl
    length_candidates (r ∷ rs) = ap suc (length_candidates rs)

-- The results of Rank are as many as the candidates, up to the limit, they have distinct ids, and
-- they are in the order of sortFused.
pub rank-IsRanking :
    (scores : Scores) (lexer : Lexer) (query : Text) (cs : List DenseCandidate) (constant limit : ℕ)
    (rs : List RankedCandidate)
    → rank scores lexer query cs constant limit ≡ some rs
    → IsRanking scores cs constant limit rs
unfolding rank
rank-IsRanking scores lexer query cs constant limit rs h =
    elim (Bool-cases (validate_candidates lexer cs)) [
      | inr e ↦ absurd (ground arith)
      | inl e ↦
          let v : each_valid lexer [] cs ≡ true = valid_each lexer cs e in
          let same : rank_validated scores lexer (lexer.normalize query) cs constant limit ≡ rs =
            ground arith in
          subst (IsRanking scores cs constant limit) same (
            rank_validated-IsRanking scores lexer (lexer.normalize query) cs constant limit
              (each_valid-Pairwise lexer [] cs v))
    ]
