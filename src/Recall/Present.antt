-- ===== src/Recall/Present.antt =====
-- internal/memory/lifecycle_recall.go: presentLifecycleRecallCandidates.
pub mod Laws
pub mod Order
use personal_memory.Go.Text.{Text, text_eq}
use personal_memory.Go.Float.{Float}
use personal_memory.Go.Time.{Instant}
use personal_memory.Go.Json.{Fields}
use personal_memory.Lifecycle.Model.{is_current, View, contains}
use personal_memory.Lifecycle.Parse.{lifecycle_view}
use personal_memory.Lifecycle.Rank.{Candidate, sort_candidates}
use personal_memory.Lifecycle.Presentation.{Decision, none_made, ReasonCode}
use personal_memory.Recall.Options.{
  Mode, Options, normalized_mode, as_of_mode, parse_calendar_date, is_visible, recall_decision,
}
use personal_memory.Recall.Expiry.{fact_expired_at}
use personal_memory.Prelude.{
  ◌&&◌, ◌+◌, Bool, List, Option, [], false, if◌then◌else◌, map, none, not, some, ◌||◌, ℕ, ◌∷◌,
}

-- qdrant.Point, without its vector
pub record Point : Type 0 where
  pub id : Text
  pub score : Float
  pub payload : Fields

-- lifecycleRecallCandidate
pub record RecallCandidate : Type 0 where
  pub point : Point
  pub view : View
  pub decision : Decision
  pub reason_codes : List ReasonCode
  pub semantic_rank : ℕ
  pub final_rank : ℕ

abbrev time_for : Mode → Option Instant → Instant → Instant
time_for as_of_mode (some t) now = t
time_for _ _ now = now

-- The time that expiry is read at.
unfoldable pub reference_time : Options → Instant → Instant
unfolding normalized_mode parse_calendar_date
reference_time o now = time_for (normalized_mode o) (parse_calendar_date o.as_of) now

-- `!view.Valid || factExpiredAt(...) || !lifecycleVisibleInRecallMode(...)`, negated
unfoldable pub is_shown : Mode → Instant → Point → Bool
unfolding lifecycle_view fact_expired_at is_visible
is_shown mode reference p =
    let view = lifecycle_view p.id p.payload in
    view.valid && (not (fact_expired_at p.payload reference) && is_visible view.state mode)

unfoldable pub recall_candidate : ℕ → Point → RecallCandidate
unfolding lifecycle_view
recall_candidate index p = record {
  point = p;
  view = lifecycle_view p.id p.payload;
  decision = none_made;
  reason_codes = [];
  semantic_rank = index + 1;
  final_rank = 0;
}

-- The loop over the points: what `byID` and `ordered` receive, in order.
unfoldable pub collect : Mode → Instant → ℕ → List Text → List Point → List RecallCandidate
unfolding is_shown recall_candidate
collect mode reference index seen [] = []
collect mode reference index seen (p ∷ ps) =
    let rest = collect mode reference (index + 1) (p.id ∷ seen) ps in
    if not (contains p.id seen) && is_shown mode reference p
    then recall_candidate index p ∷ rest
    else rest

abbrev pub to_candidate : RecallCandidate → Candidate
to_candidate c = record { point_id = c.point.id; score = c.point.score; view = c.view }

unfoldable pub has_canonical_current : List RecallCandidate → Bool
has_canonical_current [] = false
has_canonical_current (c ∷ cs) =
    (is_current c.view.state && c.view.canonical) || has_canonical_current cs

-- byID[id]
unfoldable pub find : Text → List RecallCandidate → Option RecallCandidate
find id [] = none
find id (c ∷ cs) = if text_eq c.point.id id then some c else find id cs

unfoldable pub decided : Mode → Bool → ℕ → RecallCandidate → RecallCandidate
unfolding recall_decision
decided mode has_canonical rank c = record c {
  decision = (recall_decision mode c.view has_canonical).decision;
  reason_codes = (recall_decision mode c.view has_canonical).reason_codes;
  final_rank = rank;
}

abbrev pub add_decided :
    Mode → Bool → ℕ → Option RecallCandidate → List RecallCandidate → List RecallCandidate
add_decided mode has_canonical rank none rest = rest
add_decided mode has_canonical rank (some r) rest = decided mode has_canonical rank r ∷ rest

-- The loop over the sorted candidates. Every one of them is in `by_id`; see `All-Found` in Laws.
unfoldable pub present :
    Mode → Bool → List RecallCandidate → ℕ → List Candidate → List RecallCandidate
unfolding find decided
present mode has_canonical by_id rank [] = []
present mode has_canonical by_id rank (c ∷ cs) =
    let rest = present mode has_canonical by_id (rank + 1) cs in
    add_decided mode has_canonical rank (find c.point_id by_id) rest

-- presentLifecycleRecallCandidates
unfoldable pub present_candidates : List Point → Options → Instant → List RecallCandidate
unfolding collect present has_canonical_current reference_time normalized_mode sort_candidates
present_candidates points o now =
    let mode = normalized_mode o in
    let shown = collect mode (reference_time o now) 0 [] points in
    present mode (has_canonical_current shown) shown 1 (sort_candidates (map to_candidate shown))
