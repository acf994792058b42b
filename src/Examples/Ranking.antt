-- ===== src/Examples/Ranking.antt =====
-- A ranking of two candidates with whole numbers as fused scores.
use personal_memory.Go.Sort.Reorder.{swapped}
use personal_memory.Go.Float.{Float, float_eq, float_lt, of_nat}
use personal_memory.Examples.Fusion.{whole_scores}
use personal_memory.Retrieval.Rank.{DenseCandidate, RankedCandidate, rank}
use personal_memory.Retrieval.Lexical.{Lexer, LexicalDiagnostics, score_lexical}
use personal_memory.Retrieval.Rank.Results.{IsRanking, rank-IsRanking}
use personal_memory.Prelude.{List, [], false, refl, some, ◌∷◌, ◌≡◌}
use personal_memory.Go.Text.{Text, text, text_eq, text_lt, trim_space}
use personal_memory.Retrieval.Rank.Order.{rank-Reordered}
use personal_memory.Go.Sort.{sort}

-- A text is its one token.
abbrev own_token : Text → List Text
own_token [] = []
own_token (c ∷ t) = (c ∷ t) ∷ []

abbrev no_token : Text → List Text
no_token t = []

abbrev plain_lexer : Lexer
plain_lexer = record {
  normalize = trim_space;
  tokens_of = own_token;
  identifiers_of = no_token;
  contains_phrase = text_eq;
}

abbrev candidate_of : Text → Float → Text → DenseCandidate
candidate_of id score value = record {
  id = id;
  dense_score = score;
  fields = record { name = text "text"; value = value } ∷ [];
  dense_only = false;
}

abbrev near : DenseCandidate
near = candidate_of (text "a") (of_nat 1) (text "tea")

abbrev far : DenseCandidate
far = candidate_of (text "b") (of_nat 0) (text "milk")

rank-Reordered_example :
    rank whole_scores plain_lexer (text "milk") (near ∷ far ∷ []) 60 2
    ≡ rank whole_scores plain_lexer (text "milk") (far ∷ near ∷ []) 60 2
rank-Reordered_example =
    rank-Reordered whole_scores plain_lexer (text "milk") (near ∷ far ∷ []) (far ∷ near ∷ []) 60 2
      (swapped near far [])

abbrev no_match : LexicalDiagnostics
no_match = score_lexical plain_lexer (text "milk") near.fields

abbrev milk_match : LexicalDiagnostics
milk_match = score_lexical plain_lexer (text "milk") far.fields

-- The match wins over the higher dense score.
abbrev milk_ranking : List RankedCandidate
milk_ranking =
    record { candidate = far; dense_rank = 2; lexical_rank = 1; lexical = milk_match }
    ∷ record { candidate = near; dense_rank = 1; lexical_rank = 0; lexical = no_match }
    ∷ []

milk_ranked : rank whole_scores plain_lexer (text "milk") (near ∷ far ∷ []) 60 2 ≡ some milk_ranking
unfolding rank float_lt float_eq of_nat text_eq text_lt trim_space sort
milk_ranked = refl

rank-IsRanking_example : IsRanking whole_scores (near ∷ far ∷ []) 60 2 milk_ranking
rank-IsRanking_example =
    rank-IsRanking whole_scores plain_lexer (text "milk") (near ∷ far ∷ []) 60 2 milk_ranking
      milk_ranked
