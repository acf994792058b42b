-- ===== src/Lifecycle/Rank.antt =====
-- internal/memory/lifecycle/model.go: Candidate, rankTier and SortCandidates.
pub mod Laws
use personal_memory.Prelude.{ℕ, Bool, true, false, not, ◌&&◌, ◌||◌, List, ◌==◌, ltb, if◌then◌else◌}
use personal_memory.Go.Text.{Text, text_lt}
use personal_memory.Go.Float.{Float, is_finite, float_lt, float_eq}
use personal_memory.Go.Sort.{sort}
use personal_memory.Lifecycle.Model.{
  State, current, historical, superseded, disputed, unknown, View,
}

pub record Candidate : Type 0 where
  pub point_id : Text
  pub score : Float
  pub view : View

abbrev state_tier : State → Bool → ℕ
state_tier current canonical = if canonical then 0 else 1
state_tier disputed _ = 2
state_tier historical _ = 3
state_tier superseded _ = 4
state_tier (unknown _) _ = 5

-- rankTier
unfoldable pub rank_tier : View → ℕ
rank_tier v = if not v.valid then 5 else state_tier v.state v.canonical

-- The function that SortCandidates hands to sort.SliceStable.
unfoldable pub ranks_before : Candidate → Candidate → Bool
ranks_before a b =
    let left_finite = is_finite a.score in
    let right_finite = is_finite b.score in
    let left_tier = rank_tier a.view in
    let right_tier = rank_tier b.view in
    if (left_finite && not right_finite) || (not left_finite && right_finite)
    then left_finite
    else if not (left_tier == right_tier)
    then ltb left_tier right_tier
    else if left_finite && not (float_eq a.score b.score)
    then float_lt b.score a.score
    else text_lt a.point_id b.point_id

-- SortCandidates
unfoldable pub sort_candidates : List Candidate → List Candidate
sort_candidates = sort ranks_before
