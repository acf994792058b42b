-- ===== src/Examples/Fusion.antt =====
-- A fusion of two ranked lists with whole numbers as scores.
use personal_memory.Prelude.{
  ◌+◌, ◌/◌, Bool, List, [], arith, false, ltb, refl, some, true, ℕ, ◌∷◌, ◌≡◌,
}
use personal_memory.Retrieval.MultiList.{
  FusedResult, MultiListOptions, RankedList, Scores, fuse_ranked_lists,
}
use personal_memory.Retrieval.MultiList.Results.{IsFused, fuse_ranked_lists-IsFused}
use personal_memory.Go.Text.{text, text_eq, text_lt, trim_space}

abbrev pub add_nat : ℕ → ℕ → ℕ
add_nat a b = a + b

abbrev pub term_nat : ℕ → ℕ → ℕ
term_nat rank constant = 1000000 / (constant + rank)

abbrev pub above_nat : ℕ → ℕ → Bool
above_nat a b = ltb b a

pub above_nat-asymm : (a b : ℕ) → above_nat a b ≡ true → above_nat b a ≡ false
above_nat-asymm a b h = ground arith

pub above_nat-negtrans :
    (a b c : ℕ) → above_nat b a ≡ false → above_nat c b ≡ false → above_nat c a ≡ false
above_nat-negtrans a b c h k = ground arith

abbrev pub whole_scores : Scores
whole_scores = record {
  Score = ℕ;
  zero_score = 0;
  add_score = add_nat;
  rrf_term = term_nat;
  above = above_nat;
  above_asymm = above_nat-asymm;
  above_negtrans = above_nat-negtrans;
}

-- The best of the flat source, c, is ranked third of three.
abbrev three_lists : List RankedList
three_lists =
    record { name = text "flat"; ids = text "c" ∷ [] }
    ∷ record { name = text "x"; ids = text "a" ∷ text "b" ∷ [] }
    ∷ record { name = text "y"; ids = text "a" ∷ text "b" ∷ [] }
    ∷ []

abbrev two_best : MultiListOptions
two_best = record { rrf_constant = 60; limit = 2; flat_source = text "flat" }

abbrev fused_pair : List (FusedResult whole_scores)
fused_pair =
    record {
      id = text "a";
      rrf_score = 32786;
      sources =
          record { source = text "x"; rank = 1 } ∷ record { source = text "y"; rank = 1 } ∷ [];
      flat_rescued = false;
    }
    ∷ record {
      id = text "c";
      rrf_score = 16393;
      sources = record { source = text "flat"; rank = 1 } ∷ [];
      flat_rescued = true;
    }
    ∷ []

fused_runs : fuse_ranked_lists whole_scores three_lists two_best ≡ some (fused_pair, true)
unfolding fuse_ranked_lists text_eq text_lt trim_space
fused_runs = refl

fuse_ranked_lists-IsFused_example : IsFused whole_scores three_lists two_best fused_pair true
fuse_ranked_lists-IsFused_example =
    fuse_ranked_lists-IsFused whole_scores three_lists two_best fused_pair true fused_runs
