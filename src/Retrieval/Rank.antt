-- ===== src/Retrieval/Rank.antt =====
-- internal/retrieval/fusion.go: Rank, which fuses the order of dense scores with that of lexical
-- matches. The arithmetic of the fused scores is a `Scores`.

pub mod Order
pub mod Results
use personal_memory.Go.Float.{float_eq, nan, Float, float_lt, is_finite}
use personal_memory.Prelude.{
  ◌&&◌, ◌+◌, ◌++◌, ◌==◌, Bool, List, Option, [], false, if◌then◌else◌, leb, length, ltb, map, none,
  not, some, take, true, ◌||◌, ℕ, ◌∷◌,
}
use personal_memory.Retrieval.MultiList.{Scores, is_plain}
use personal_memory.Go.Text.{Text, is_empty, text, text_eq, text_lt}
use personal_memory.Lifecycle.Model.{contains}
use personal_memory.Go.Sort.{sort}
use personal_memory.Retrieval.Lexical.{
  Lexer, LexicalDiagnostics, NamedField, lexical_differ, lexical_first, no_diagnostics,
  score_lexical,
}

-- Candidate of this package
pub record DenseCandidate : Type 0 where
  pub id : Text
  pub dense_score : Float
  pub fields : List NamedField
  pub dense_only : Bool

-- rankedCandidate; the lexical rank is 0 without a signal.
pub record RankedCandidate : Type 0 where
  pub candidate : DenseCandidate
  pub dense_rank : ℕ
  pub lexical_rank : ℕ
  pub lexical : LexicalDiagnostics

-- The order of the first sort: the higher dense score, then the id
abbrev pub dense_before : DenseCandidate → DenseCandidate → Bool
dense_before a b =
    if float_lt b.dense_score a.dense_score
    then true
    else if float_lt a.dense_score b.dense_score
    then false
    else text_lt a.id b.id

-- `!=` on scores
abbrev pub scores_differ : Float → Float → Bool
scores_differ a b = not (float_eq a b)

-- The loop that gives dense ranks, from an index; the candidate before has the score and the rank.
unfoldable pub dense_ranks : ℕ → Float → ℕ → List DenseCandidate → List RankedCandidate
dense_ranks index before rank [] = []
dense_ranks index before rank (c ∷ cs) =
    let own = if (index == 0) || scores_differ c.dense_score before then index + 1 else rank in
    record { candidate = c; dense_rank = own; lexical_rank = 0; lexical = no_diagnostics }
    ∷ dense_ranks (index + 1) c.dense_score own cs

module _ (lexer : Lexer) where
  open lexer use {normalize}

  unfoldable pub score_all : Text → List RankedCandidate → List RankedCandidate
  unfolding score_lexical
  score_all query [] = []
  score_all query (r ∷ rs) =
      record r { lexical = score_lexical lexer query r.candidate.fields } ∷ score_all query rs

  -- validateFields; whether its error is nil
  unfoldable pub fields_valid : Bool → List Text → List NamedField → Bool
  unfolding contains
  fields_valid has_text names [] = has_text
  fields_valid has_text names (f ∷ fs) =
      let filled = text_eq f.name (text "text") && not (is_empty (normalize f.value)) in
      let rest = fields_valid (has_text || filled) (f.name ∷ names) fs in
      if not (is_plain f.name) || contains f.name names then false else rest

  -- What validateCandidates asks of one candidate alone
  unfoldable pub candidate_valid : DenseCandidate → Bool
  unfolding fields_valid
  candidate_valid c =
      (is_plain c.id && is_finite c.dense_score)
      && (if c.dense_only
          then length c.fields == 0
          else not (length c.fields == 0) && fields_valid false [] c.fields)

  -- The loop of validateCandidates; `seen` holds the ids before this one.
  unfoldable pub each_valid : List Text → List DenseCandidate → Bool
  unfolding contains candidate_valid
  each_valid seen [] = true
  each_valid seen (c ∷ cs) =
      let rest = each_valid (c.id ∷ seen) cs in
      if not (candidate_valid c) || contains c.id seen then false else rest

  -- validateCandidates
  unfoldable pub validate_candidates : List DenseCandidate → Bool
  unfolding each_valid
  validate_candidates cs = (ltb 0 (length cs) && leb (length cs) 400) && each_valid [] cs

-- The order of the sort in assignLexicalRanks
abbrev pub lexical_before : RankedCandidate → RankedCandidate → Bool
lexical_before a b =
    if lexical_differ a.lexical b.lexical
    then lexical_first a.lexical b.lexical
    else if a.dense_rank == b.dense_rank
    then text_lt a.candidate.id b.candidate.id
    else ltb a.dense_rank b.dense_rank

unfoldable pub with_signal : List RankedCandidate → List RankedCandidate
with_signal [] = []
with_signal (r ∷ rs) = let rest = with_signal rs in if r.lexical.has_signal then r ∷ rest else rest

-- The last loop of assignLexicalRanks, as the rank of each id
unfoldable pub lexical_ranks : ℕ → LexicalDiagnostics → ℕ → List RankedCandidate → List (Text × ℕ)
unfolding lexical_first
lexical_ranks position before rank [] = []
lexical_ranks position before rank (r ∷ rs) =
    let own = if (position == 0) || lexical_differ before r.lexical then position + 1 else rank in
    (r.candidate.id, own) ∷ lexical_ranks (position + 1) r.lexical own rs

unfoldable pub rank_at : Text → List (Text × ℕ) → ℕ
rank_at id [] = 0
rank_at id ((j, n) ∷ ps) = if text_eq j id then n else rank_at id ps

unfoldable pub set_lexical_ranks : List (Text × ℕ) → List RankedCandidate → List RankedCandidate
unfolding rank_at
set_lexical_ranks ranks [] = []
set_lexical_ranks ranks (r ∷ rs) =
    record r { lexical_rank = rank_at r.candidate.id ranks } ∷ set_lexical_ranks ranks rs

-- assignLexicalRanks
unfoldable pub assign_lexical_ranks : List RankedCandidate → List RankedCandidate
unfolding lexical_first with_signal lexical_ranks set_lexical_ranks
assign_lexical_ranks rs =
    set_lexical_ranks (lexical_ranks 0 no_diagnostics 0 (sort lexical_before (with_signal rs))) rs

module _ (scores : Scores) where
  open scores use {Score, add_score, rrf_term, above}

  -- The fused score of a candidate
  unfoldable pub fused_score : ℕ → RankedCandidate → Score
  fused_score constant r =
      let dense = rrf_term r.dense_rank constant in
      if ltb 0 r.lexical_rank then add_score dense (rrf_term r.lexical_rank constant) else dense

  -- The order of sortFused
  abbrev pub rank_before : ℕ → RankedCandidate → RankedCandidate → Bool
  rank_before constant a b =
      if above (fused_score constant a) (fused_score constant b)
      then true
      else if above (fused_score constant b) (fused_score constant a)
      then false
      else if a.dense_rank == b.dense_rank
      then text_lt a.candidate.id b.candidate.id
      else ltb a.dense_rank b.dense_rank

  module _ (lexer : Lexer) where
    -- rankValidated
    unfoldable pub rank_validated : Text → List DenseCandidate → ℕ → ℕ → List RankedCandidate
    unfolding score_all assign_lexical_ranks dense_ranks fused_score
    rank_validated query cs constant limit =
        let ranked = dense_ranks 0 nan 0 (sort dense_before cs) in
        take limit
          (sort (rank_before constant) (assign_lexical_ranks (score_all lexer query ranked)))

    -- Rank; none is an error.
    unfoldable pub rank : Text → List DenseCandidate → ℕ → ℕ → Option (List RankedCandidate)
    unfolding rank_validated validate_candidates
    rank raw_query cs constant limit =
        if is_empty (lexer.normalize raw_query)
          || ((leb constant 0 || ltb 1000000 constant)
              || ((leb limit 0 || ltb 100 limit) || not (validate_candidates lexer cs)))
        then none
        else some (rank_validated (lexer.normalize raw_query) cs constant limit)

    -- RankAll
    unfoldable pub rank_all : Text → List DenseCandidate → ℕ → Option (List RankedCandidate)
    unfolding rank_validated validate_candidates
    rank_all raw_query cs constant =
        if is_empty (lexer.normalize raw_query)
          || ((leb constant 0 || ltb 1000000 constant) || not (validate_candidates lexer cs))
        then none
        else some (rank_validated (lexer.normalize raw_query) cs constant (length cs))
