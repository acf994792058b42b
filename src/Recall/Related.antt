-- ===== src/Recall/Related.antt =====
-- internal/memory/related.go: the duplicate of a new fact and the facts related to it, with
-- relatedSearchPoints of internal/memory/lifecycle_adapter.go. The projection of a point to what
-- the client sees is left out: a candidate is its point and its view.
pub mod Laws
pub mod Search
use personal_memory.Prelude.{
  ◌&&◌, Bool, List, Option, [], if◌then◌else◌, map, none, not, some, take, true, ◌||◌, ℕ, ◌∷◌,
}
use personal_memory.Lifecycle.Rank.{Candidate, ranks_before, sort_candidates}
use personal_memory.Go.Float.{Float, float_eq, float_lt, is_finite}
use personal_memory.Go.Time.{Instant}
use personal_memory.Recall.Present.{Point}
use personal_memory.Lifecycle.Model.{View, is_superseded}
use personal_memory.Recall.Expiry.{fact_expired_at}
use personal_memory.Lifecycle.Parse.{lifecycle_view}
use personal_memory.Go.Sort.{sort}
use personal_memory.Go.Text.{Text, text_eq}

-- lifecycleSearchPoint
pub record SearchPoint : Type 0 where
  pub point : Point
  pub view : View

abbrev pub search_point : Point → SearchPoint
search_point p = record { point = p; view = lifecycle_view p.id p.payload }

-- a >= b
abbrev pub at_least : Float → Float → Bool
at_least a b = float_lt b a || float_eq a b

abbrev pub search_candidate : SearchPoint → Candidate
search_candidate s = record { point_id = s.point.id; score = s.point.score; view = s.view }

-- isExpired: factExpiredAt at the present time
unfoldable pub is_expired_now : Instant → Point → Bool
unfolding fact_expired_at
is_expired_now now p = fact_expired_at p.payload now

-- `point.Score >= dedupThreshold && (!view.Valid || view.State != lifecycle.Superseded)`
unfoldable pub blocks_write : Float → SearchPoint → Bool
blocks_write threshold s =
    at_least s.point.score threshold && (not s.view.valid || not (is_superseded s.view.state))

abbrev better : Option SearchPoint → SearchPoint → Bool
better none s = true
better (some d) s = float_lt d.point.score s.point.score

-- The loop of selectRelatedCandidates: the duplicate so far, and those that are related.
unfoldable pub select :
    Instant → Float → Float → Option SearchPoint → List Point → Option SearchPoint × List Point
unfolding blocks_write is_expired_now lifecycle_view
select now low threshold duplicate [] = (duplicate, [])
select now low threshold duplicate (p ∷ ps) =
    let s = search_point p in
    let skipped = select now low threshold duplicate ps in
    let found = select now low threshold (some s) ps in
    if not (is_finite p.score)
    then skipped
    else if blocks_write threshold s
    then (if better duplicate s then found else skipped)
    else if not (at_least p.score low) || is_expired_now now p
    then skipped
    else (skipped.0, p ∷ skipped.1)

-- byID[id]: the last of the points with this id
unfoldable pub search_at : Text → List SearchPoint → Option SearchPoint
search_at id [] = none
search_at id (s ∷ ss) = elim (search_at id ss) [
  | some t ↦ some t
  | none ↦ if text_eq s.point.id id then some s else none
]

abbrev pub with_found : Option SearchPoint → List SearchPoint → List SearchPoint
with_found none ss = ss
with_found (some s) ss = s ∷ ss

-- The second loop of relatedSearchPoints. Every candidate is found; see `length-related_search_points`
-- in Search.
unfoldable pub found_points : List SearchPoint → List Candidate → List SearchPoint
unfolding search_at
found_points by_id [] = []
found_points by_id (c ∷ cs) = with_found (search_at c.point_id by_id) (found_points by_id cs)

-- relatedSearchPoints
unfoldable pub related_search_points : List Point → List SearchPoint
unfolding found_points sort_candidates lifecycle_view
related_search_points ps =
    found_points (map search_point ps)
      (sort_candidates (map search_candidate (map search_point ps)))

-- selectRelatedCandidates, for a limit that is not negative
unfoldable pub select_related_candidates :
    Instant → List Point → Float → Float → ℕ → Option SearchPoint × List SearchPoint
unfolding select related_search_points
select_related_candidates now ps low threshold limit =
    let r = select now low threshold none ps in (r.0, take limit (related_search_points r.1))
