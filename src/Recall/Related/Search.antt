-- ===== src/Recall/Related/Search.antt =====
-- relatedSearchPoints of internal/memory/lifecycle_adapter.go finds a point for every candidate.
use personal_memory.Prelude.{
  ◌≡◌, All, Bool-cases, List, Option-cases, [], ap, arith, inl, inr, length, length-take, map, refl,
  some, some_inj, subst, suc, take, true, zero, ℕ, ◌∙◌, ◌∷◌, ◌≤◌, Option, none,
}
use personal_memory.Lifecycle.Rank.{Candidate, ranks_before, sort_candidates}
use personal_memory.Recall.Present.{Point}
use personal_memory.Recall.Related.{
  SearchPoint, found_points, related_search_points, search_at, search_candidate, search_point,
  with_found,
}
use personal_memory.Go.Text.{Text, text_eq}
use personal_memory.Lifecycle.Model.{is_some}
use personal_memory.Go.Sort.{length-sort, sort-All}
use personal_memory.Go.Text.Laws.{text_eq_refl}

search_points-All :
    (P : SearchPoint → Type 0) (ps : List Point)
    → All (λ p. P (search_point p)) ps
    → All P (map search_point ps)
search_points-All P [] h = tt
search_points-All P (p ∷ ps) h = (h.0, search_points-All P ps h.1)

pub length-take_le : (n : ℕ) (ss : List SearchPoint) → length (take n ss) ≤ n
length-take_le n ss = let e = length-take n ss in omega arith

pub take-All :
    (P : SearchPoint → Type 0) (n : ℕ) (ss : List SearchPoint) → All P ss → All P (take n ss)
take-All P zero ss h = tt
take-All P (suc n) [] h = tt
take-All P (suc n) (s ∷ ss) h = (h.0, take-All P n ss h.1)

search_at-All :
    (P : SearchPoint → Type 0) (id : Text) (ss : List SearchPoint) (s : SearchPoint)
    → search_at id ss ≡ some s
    → All P ss
    → P s
unfolding search_at
search_at-All P id [] s e h = cc
search_at-All P id (t ∷ ss) s e h = elim (Option-cases (search_at id ss)) [
  | inr (u, f) ↦ search_at-All P id ss s (f ∙ (rw (f, search_at) at e)) h.1
  | inl f ↦ elim (Bool-cases (text_eq t.point.id id)) [
    | inl q ↦ subst P (some_inj (rw (f, q, search_at) at e)) h.0
    | inr q ↦ let k = rw (f, q, search_at) at e in cc
  ]
]

with_found-All :
    (P : SearchPoint → Type 0) (o : Option SearchPoint) (ss : List SearchPoint)
    → ((s : SearchPoint) → o ≡ some s → P s)
    → All P ss
    → All P (with_found o ss)
with_found-All P none ss k h = h
with_found-All P (some s) ss k h = (k s refl, h)

found_points-All :
    (P : SearchPoint → Type 0) (by_id : List SearchPoint) (cs : List Candidate)
    → All P by_id
    → All P (found_points by_id cs)
unfolding found_points
found_points-All P by_id [] h = tt
found_points-All P by_id (c ∷ cs) h =
    with_found-All P (search_at c.point_id by_id) (found_points by_id cs)
      (λ s e. search_at-All P c.point_id by_id s e h) (found_points-All P by_id cs h)

-- What holds of every point holds of every point that is given back.
pub related_search_points-All :
    (P : SearchPoint → Type 0) (ps : List Point)
    → All (λ p. P (search_point p)) ps
    → All P (related_search_points ps)
unfolding related_search_points
related_search_points-All P ps h =
    let ss = map search_point ps in
    found_points-All P ss (sort_candidates (map search_candidate ss)) (search_points-All P ps h)

abbrev IsKnown : List SearchPoint → Candidate → Type 0
IsKnown by_id c = is_some (search_at c.point_id by_id) ≡ true

search_at-grows :
    (t : SearchPoint) (ss : List SearchPoint) (cs : List Candidate)
    → All (IsKnown ss) cs
    → All (IsKnown (t ∷ ss)) cs
unfolding search_at
search_at-grows t ss [] h = tt
search_at-grows t ss (c ∷ cs) h = elim (Option-cases (search_at c.point_id ss)) [
  | inl e ↦ let k = rw e at h.0 in cc
  | inr (s, e) ↦ rw e (refl, search_at-grows t ss cs h.1)
]

search_at-own : (ss : List SearchPoint) → All (IsKnown ss) (map search_candidate ss)
unfolding search_at
search_at-own [] = tt
search_at-own (s ∷ ss) = elim (Option-cases (search_at s.point.id ss)) [
  | inl e ↦
      rw (e, text_eq_refl s.point.id)
        (refl, search_at-grows s ss (map search_candidate ss) (search_at-own ss))
  | inr (t, e) ↦ rw e (refl, search_at-grows s ss (map search_candidate ss) (search_at-own ss))
]

length-with_found :
    (o : Option SearchPoint) (ss : List SearchPoint)
    → is_some o ≡ true
    → length (with_found o ss) ≡ suc (length ss)
length-with_found none ss h = cc
length-with_found (some s) ss h = refl

length-found_points :
    (by_id : List SearchPoint) (cs : List Candidate)
    → All (IsKnown by_id) cs
    → length (found_points by_id cs) ≡ length cs
unfolding found_points
length-found_points by_id [] h = refl
length-found_points by_id (c ∷ cs) h =
    length-with_found (search_at c.point_id by_id) (found_points by_id cs) h.0
    ∙ ap suc (length-found_points by_id cs h.1)

length-candidates :
    (ps : List Point) → length (map search_candidate (map search_point ps)) ≡ length ps
length-candidates [] = refl
length-candidates (p ∷ ps) = ap suc (length-candidates ps)

-- There are as many points as there were.
length-related_search_points : (ps : List Point) → length (related_search_points ps) ≡ length ps
unfolding related_search_points sort_candidates
length-related_search_points ps =
    let ss = map search_point ps in
    length-found_points ss (sort_candidates (map search_candidate ss))
      (sort-All ranks_before (IsKnown ss) (map search_candidate ss) (search_at-own ss))
    ∙ length-sort ranks_before (map search_candidate ss)
    ∙ length-candidates ps
