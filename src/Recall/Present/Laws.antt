-- ===== src/Recall/Present/Laws.antt =====
-- What presentLifecycleRecallCandidates of internal/memory/lifecycle_recall.go shows, and in which
-- order.
use personal_memory.Prelude.{
  ◌&&◌, ◌+◌, All, Bool, Bool-cases, List, [], arith, false, inl, inr, length, map, not, refl, some,
  suc, true, zero, ℕ, ◌∷◌, ◌≡◌, ◌≢◌,
}
use personal_memory.Lifecycle.Rank.{Candidate}
use personal_memory.Lifecycle.Model.Laws.{Distinct}
use personal_memory.Go.Time.{Instant}
use personal_memory.Recall.Options.{Mode, is_visible}
use personal_memory.Recall.Present.{
  Point, RecallCandidate, collect, decided, find, is_shown, present, recall_candidate, to_candidate,
}
use personal_memory.Go.Text.{Text}
use personal_memory.Lifecycle.Model.{contains}
use personal_memory.Recall.Expiry.{fact_expired_at}
use personal_memory.Lifecycle.Parse.{lifecycle_view}
use personal_memory.Go.Text.Laws.{text_eq_iff, text_eq_refl}

abbrev pub ids : List RecallCandidate → List Text
ids [] = []
ids (c ∷ cs) = c.point.id ∷ ids cs

-- A candidate that the loop kept: its view is that of its payload, and it may be shown.
pub record IsShown (mode : Mode) (reference : Instant) (c : RecallCandidate) : Type 0 where
  pub parsed : c.view ≡ lifecycle_view c.point.id c.point.payload
  pub valid : c.view.valid ≡ true
  pub unexpired : fact_expired_at c.point.payload reference ≡ false
  pub visible : is_visible c.view.state mode ≡ true

recall_candidate-IsShown :
    (mode : Mode) (reference : Instant) (index : ℕ) (p : Point)
    → is_shown mode reference p ≡ true
    → IsShown mode reference (recall_candidate index p)
unfolding is_shown recall_candidate
recall_candidate-IsShown mode reference index p h = record {
  parsed = refl;
  valid = ground arith;
  unexpired = ground arith;
  visible = ground arith;
}

unseen_before :
    (id : Text) (seen ts : List Text)
    → All (λ t. contains t (id ∷ seen) ≡ false) ts
    → All (λ t. contains t seen ≡ false) ts
unfolding contains
unseen_before id seen [] h = tt
unseen_before id seen (t ∷ ts) h = (ground arith, unseen_before id seen ts h.1)

unseen_apart :
    (id : Text) (seen ts : List Text)
    → All (λ t. contains t (id ∷ seen) ≡ false) ts
    → All (λ t. id ≢ t) ts
unfolding contains
unseen_apart id seen [] h = tt
unseen_apart id seen (t ∷ ts) h = (ground (arith, text_eq_iff id t), unseen_apart id seen ts h.1)

module _ (mode : Mode) (reference : Instant) where
  pub collect-IsShown :
      (index : ℕ) (seen : List Text) (ps : List Point)
      → All (IsShown mode reference) (collect mode reference index seen ps)
  unfolding collect
  collect-IsShown index seen [] = tt
  collect-IsShown index seen (p ∷ ps) =
      let ih = collect-IsShown (index + 1) (p.id ∷ seen) ps in
      elim (Bool-cases (not (contains p.id seen) && is_shown mode reference p)) [
        | inl e ↦ rw e (recall_candidate-IsShown mode reference index p (ground arith), ih)
        | inr e ↦ rw e ih
      ]

  -- No id is collected that was seen before.
  collect-unseen :
      (index : ℕ) (seen : List Text) (ps : List Point)
      → All (λ id. contains id seen ≡ false) (ids (collect mode reference index seen ps))
  unfolding collect
  collect-unseen index seen [] = tt
  collect-unseen index seen (p ∷ ps) =
      let ih = unseen_before p.id seen _ (collect-unseen (index + 1) (p.id ∷ seen) ps) in
      elim (Bool-cases (not (contains p.id seen) && is_shown mode reference p)) [
        | inl e ↦ rw e (unfold recall_candidate in (ground arith, ih))
        | inr e ↦ rw e ih
      ]

  pub collect-Distinct :
      (index : ℕ) (seen : List Text) (ps : List Point)
      → Distinct (ids (collect mode reference index seen ps))
  unfolding collect
  collect-Distinct index seen [] = tt
  collect-Distinct index seen (p ∷ ps) =
      let ih = collect-Distinct (index + 1) (p.id ∷ seen) ps in
      let apart = unseen_apart p.id seen _ (collect-unseen (index + 1) (p.id ∷ seen) ps) in
      elim (Bool-cases (not (contains p.id seen) && is_shown mode reference p)) [
        | inl e ↦ rw e (unfold recall_candidate in (apart, ih))
        | inr e ↦ rw e ih
      ]

find_past :
    (c : RecallCandidate) (cs ds : List RecallCandidate)
    → All (λ t. c.point.id ≢ t) (ids ds)
    → All (λ d. find d.point.id cs ≡ some d) ds
    → All (λ d. find d.point.id (c ∷ cs) ≡ some d) ds
unfolding find
find_past c cs [] n h = tt
find_past c cs (d ∷ ds) n h =
    (ground (arith, text_eq_iff c.point.id d.point.id, n.0, h.0), find_past c cs ds n.1 h.1)

-- Looking up the id of a candidate finds that candidate.
pub find-ids :
    (cs : List RecallCandidate) → Distinct (ids cs) → All (λ c. find c.point.id cs ≡ some c) cs
unfolding find
find-ids [] d = tt
find-ids (c ∷ cs) d = (rw (text_eq_refl c.point.id), find_past c cs cs d.0 (find-ids cs d.1))

-- A sorted candidate that the map of collected candidates holds.
abbrev pub Found : (RecallCandidate → Type 0) → List RecallCandidate → Candidate → Type 0
Found P by_id c =
    (r : RecallCandidate) × (find c.point_id by_id ≡ some r) × (to_candidate r ≡ c) × P r

pub All-Found :
    (P : RecallCandidate → Type 0) (by_id cs : List RecallCandidate)
    → All (λ c. find c.point.id by_id ≡ some c) cs
    → All P cs
    → All (Found P by_id) (map to_candidate cs)
All-Found P by_id [] f h = tt
All-Found P by_id (c ∷ cs) f h = ((c, f.0, refl, h.0), All-Found P by_id cs f.1 h.1)

-- The ranks of `n` results from `rank` on.
abbrev pub ranks_from : ℕ → ℕ → List ℕ
ranks_from rank zero = []
ranks_from rank (suc n) = rank ∷ ranks_from (rank + 1) n

module _ (P : RecallCandidate → Type 0) (mode : Mode) (has_canonical : Bool)
    (by_id : List RecallCandidate) where
  -- What `present` makes of a candidate that satisfies `P`.
  abbrev pub IsDecided : RecallCandidate → Type 0
  IsDecided c = (r : RecallCandidate) × (n : ℕ) × P r × (c ≡ decided mode has_canonical n r)

  pub present-IsDecided :
      (rank : ℕ) (cs : List Candidate)
      → All (Found P by_id) cs
      → All IsDecided (present mode has_canonical by_id rank cs)
  unfolding present
  present-IsDecided rank [] h = tt
  present-IsDecided rank (c ∷ cs) ((r, f, _, p), h) =
      rw f ((r, rank, p, refl), present-IsDecided (rank + 1) cs h)

  pub present_order :
      (rank : ℕ) (cs : List Candidate)
      → All (Found P by_id) cs
      → map to_candidate (present mode has_canonical by_id rank cs) ≡ cs
  unfolding present decided
  present_order rank [] h = refl
  present_order rank (c ∷ cs) ((r, f, e, p), h) = rw (f, e, present_order (rank + 1) cs h)

  pub present_ranks :
      (rank : ℕ) (cs : List Candidate)
      → All (Found P by_id) cs
      → map (λ c. c.final_rank) (present mode has_canonical by_id rank cs)
        ≡ ranks_from rank (length (present mode has_canonical by_id rank cs))
  unfolding present decided
  present_ranks rank [] h = refl
  present_ranks rank (c ∷ cs) ((r, f, e, p), h) = rw (f, present_ranks (rank + 1) cs h) refl
