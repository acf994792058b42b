-- ===== src/Recall/Present/Order.antt =====
-- presentLifecycleRecallCandidates of internal/memory/lifecycle_recall.go as a whole: the order of
-- its results, their ranks and what each result may be.
use mathlib.Core.List.{Perm}
use personal_memory.Prelude.{
  ◌≡◌, All, List, [], length, map, Bool, false, true, ◌≢◌, ap, map_All, refl, sym, ◌∙◌, ◌&&◌, arith,
  not, subst,
}
use personal_memory.Go.Time.{Instant}
use personal_memory.Recall.Present.Laws.{
  IsShown, ranks_from, All-Found, Found, collect-Distinct, collect-IsShown, find-ids, present_order,
  IsDecided, present-IsDecided, present_ranks,
}
use personal_memory.Go.Sort.{IsSorted, sort-All}
use personal_memory.Recall.Options.{
  history_mode, as_of_mode, include_all_mode, unknown_mode, Mode, Options, normalized_mode,
  is_valid_mode, is_visible, recall_decision, current_mode, intent_of, unknown_mode,
}
use personal_memory.Recall.Present.{
  Point, RecallCandidate, collect, has_canonical_current, present_candidates, reference_time,
  to_candidate, decided,
}
use personal_memory.Lifecycle.Rank.{ranks_before, sort_candidates}
use personal_memory.Lifecycle.Model.{
  current, historical, superseded, disputed, unknown, State, View, is_current_truth, unknown,
  is_valid_state,
}
use personal_memory.Lifecycle.Presentation.{
  decide_presentation, decide_state, presentation, suppress, none_made, Decision, current_intent,
  broad_intent,
}
use personal_memory.Recall.Expiry.{fact_expired_at}
use personal_memory.Lifecycle.Parse.{lifecycle_view}
use personal_memory.Lifecycle.Rank.Laws.{sort_candidates_lem}

module _ (points : List Point) (o : Options) (now : Instant) where
  abbrev mode : Mode
  mode = normalized_mode o

  -- The candidates that the loop over the points keeps.
  abbrev pub shown : List RecallCandidate
  shown = collect mode (reference_time o now) 0 [] points

  shown-Found :
      All
        (Found (IsShown mode (reference_time o now)) shown)
        (sort_candidates (map to_candidate shown))
  unfolding sort_candidates
  shown-Found = sort-All ranks_before _ (map to_candidate shown) (
      All-Found (IsShown mode (reference_time o now)) shown shown
        (find-ids shown (collect-Distinct mode (reference_time o now) 0 [] points))
        (collect-IsShown mode (reference_time o now) 0 [] points))

  present_candidates-order :
      map to_candidate (present_candidates points o now) ≡ sort_candidates (map to_candidate shown)
  unfolding present_candidates
  present_candidates-order =
      present_order (IsShown mode (reference_time o now)) mode (has_canonical_current shown) shown 1
        _ shown-Found

  present_candidates-ranks :
      map (λ c. c.final_rank) (present_candidates points o now)
      ≡ ranks_from 1 (length (present_candidates points o now))
  unfolding present_candidates
  present_candidates-ranks =
      present_ranks (IsShown mode (reference_time o now)) mode (has_canonical_current shown) shown 1
        _ shown-Found

  present_candidates-IsDecided :
      All
        (IsDecided (IsShown mode (reference_time o now)) mode (has_canonical_current shown) shown)
        (present_candidates points o now)
  unfolding present_candidates
  present_candidates-IsDecided =
      present-IsDecided (IsShown mode (reference_time o now)) mode (has_canonical_current shown)
        shown 1 _ shown-Found

-- The results are the candidates that the loop kept, in the order of the comparison, and their
-- final ranks count from 1.
pub present_candidates-IsSorted :
    (points : List Point) (o : Options) (now : Instant)
    → Perm
        (map to_candidate (present_candidates points o now))
        (map to_candidate (shown points o now))
      × IsSorted ranks_before (map to_candidate (present_candidates points o now))
      × (map (λ c. c.final_rank) (present_candidates points o now)
          ≡ ranks_from 1 (length (present_candidates points o now)))
present_candidates-IsSorted points o now =
    let l = sort_candidates_lem (map to_candidate (shown points o now)) in
    (
      rw (present_candidates-order points o now) l.0,
      rw (present_candidates-order points o now) l.1,
      present_candidates-ranks points o now,
    )

-- What a result of a recall may be.
pub record IsPresentable (o : Options) (now : Instant) (c : RecallCandidate) : Type 0 where
  pub parsed : c.view ≡ lifecycle_view c.point.id c.point.payload
  pub valid : c.view.valid ≡ true
  pub unexpired : fact_expired_at c.point.payload (reference_time o now) ≡ false
  pub current_only : normalized_mode o ≡ current_mode → is_current_truth c.view false ≡ true
  pub known_mode : is_valid_mode (normalized_mode o) ≡ true
  pub kept : c.decision ≢ suppress
  pub made : c.decision ≢ none_made

current_when_visible :
    (v : View) (m : Mode)
    → v.valid ≡ true
    → is_visible v.state m ≡ true
    → m ≡ current_mode
    → is_current_truth v false ≡ true
unfolding is_current_truth is_visible
current_when_visible v m h k e = rw h (ap (is_visible v.state) (sym e) ∙ k)

known_when_visible : (s : State) (m : Mode) → is_visible s m ≡ true → is_valid_mode m ≡ true
unfolding is_visible
known_when_visible s current_mode h = refl
known_when_visible s history_mode h = refl
known_when_visible s as_of_mode h = refl
known_when_visible s include_all_mode h = refl
known_when_visible s (unknown_mode t) h = h

abbrev IsKept : Decision → Type 0
IsKept d = (d ≢ suppress) × (d ≢ none_made)

IsKept-current :
    (s : State) (canonical has_canonical : Bool)
    → is_visible s current_mode ≡ true
    → IsKept ((decide_state current_intent s canonical has_canonical).decision)
unfolding is_visible decide_state presentation
IsKept-current current canonical has_canonical h = elim (not canonical && has_canonical) [
  | true ↦ ground arith
  | false ↦ ground arith
]
IsKept-current historical canonical has_canonical h = ground arith
IsKept-current superseded canonical has_canonical h = ground arith
IsKept-current disputed canonical has_canonical h = ground arith
IsKept-current (unknown t) canonical has_canonical h = ground arith

IsKept-broad :
    (s : State) (canonical has_canonical : Bool)
    → is_valid_state s ≡ true
    → IsKept ((decide_state broad_intent s canonical has_canonical).decision)
unfolding decide_state presentation
IsKept-broad current canonical has_canonical h = ground arith
IsKept-broad historical canonical has_canonical h = ground arith
IsKept-broad superseded canonical has_canonical h = ground arith
IsKept-broad disputed canonical has_canonical h = ground arith
IsKept-broad (unknown t) canonical has_canonical h = ground arith

IsKept-state :
    (s : State) (m : Mode) (canonical has_canonical : Bool)
    → is_visible s m ≡ true
    → IsKept ((decide_state (intent_of m) s canonical has_canonical).decision)
unfolding is_visible
IsKept-state s current_mode canonical has_canonical h = IsKept-current s canonical has_canonical h
IsKept-state s history_mode canonical has_canonical h = IsKept-broad s canonical has_canonical h
IsKept-state s as_of_mode canonical has_canonical h = IsKept-broad s canonical has_canonical h
IsKept-state s include_all_mode canonical has_canonical h = IsKept-broad s canonical has_canonical h
IsKept-state s (unknown_mode t) canonical has_canonical h = ground arith

IsKept-when_visible :
    (m : Mode) (v : View) (has_canonical : Bool)
    → v.valid ≡ true
    → is_visible v.state m ≡ true
    → IsKept ((recall_decision m v has_canonical).decision)
unfolding recall_decision decide_presentation
IsKept-when_visible m v has_canonical h k =
    rw h (IsKept-state v.state m v.canonical has_canonical k)

decided-IsPresentable :
    (o : Options) (now : Instant) (has_canonical : Bool) (by_id : List RecallCandidate)
    (c : RecallCandidate)
    → IsDecided
        (IsShown (normalized_mode o) (reference_time o now))
        (normalized_mode o)
        has_canonical
        by_id
        c
    → IsPresentable o now c
unfolding decided
decided-IsPresentable o now has_canonical by_id c (r, n, p, e) =
    let k = IsKept-when_visible (normalized_mode o) r.view has_canonical p.valid p.visible in
    subst (IsPresentable o now) (sym e) (record {
      parsed = p.parsed;
      valid = p.valid;
      unexpired = p.unexpired;
      current_only = current_when_visible r.view (normalized_mode o) p.valid p.visible;
      known_mode = known_when_visible r.view.state (normalized_mode o) p.visible;
      kept = k.0;
      made = k.1;
    })

-- Whatever the points are, each result is a valid fact that is not expired at the reference time;
-- in the current mode it is a current truth; no result is suppressed or left undecided, and an
-- unknown mode has no result.
pub present_candidates-IsPresentable :
    (points : List Point) (o : Options) (now : Instant)
    → All (IsPresentable o now) (present_candidates points o now)
present_candidates-IsPresentable points o now =
    map_All
      (decided-IsPresentable o now (has_canonical_current (shown points o now))
        (shown points o now))
      (present_candidates points o now) (present_candidates-IsDecided points o now)
