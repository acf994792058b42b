-- ===== src/Recall/Related/Laws.antt =====
-- What selectRelatedCandidates of internal/memory/related.go takes for related, and for a
-- duplicate.
use personal_memory.Prelude.{
  All, Bool-cases, List, Option, [], arith, false, inl, inr, none, not, refl, some, true, ◌||◌, ◌∷◌,
  ◌≡◌, length, ℕ, ◌≤◌, if◌then◌else◌, branch,
}
use personal_memory.Go.Float.{
  Float, float_lt, is_finite, float_lt_asymm, float_lt_negtrans, float_lt_irrefl,
}
use personal_memory.Go.Time.{Instant}
use personal_memory.Recall.Present.{Point}
use personal_memory.Recall.Related.{
  SearchPoint, at_least, blocks_write, is_expired_now, search_point, select, better,
  related_search_points, select_related_candidates,
}
use personal_memory.Recall.Expiry.{fact_expired_at}
use personal_memory.Lifecycle.Parse.{lifecycle_view}
use personal_memory.Recall.Related.Search.{length-take_le, related_search_points-All, take-All}

-- A related fact: it has a finite score of at least `low`, has not expired and blocks no write.
pub record IsRelated (now : Instant) (low threshold : Float) (s : SearchPoint) : Type 0 where
  pub parsed : s.view ≡ lifecycle_view s.point.id s.point.payload
  pub scored : is_finite s.point.score ≡ true
  pub close : at_least s.point.score low ≡ true
  pub unexpired : fact_expired_at s.point.payload now ≡ false
  pub harmless : blocks_write threshold s ≡ false

-- The duplicate, if any, has a finite score of at least `x`.
abbrev pub IsBest : Option SearchPoint → Float → Type 0
IsBest none x = ⊥
IsBest (some d) x = (is_finite d.point.score ≡ true) × (float_lt d.point.score x ≡ false)

module _ (now : Instant) (low threshold : Float) where
  select-IsRelated :
      (d : Option SearchPoint) (ps : List Point)
      → All (λ p. IsRelated now low threshold (search_point p)) ((select now low threshold d ps).1)
  unfolding select
  select-IsRelated d [] = tt
  select-IsRelated d (p ∷ ps) =
      let skipped = select-IsRelated d ps in
      let found = select-IsRelated (some (search_point p)) ps in
      elim (Bool-cases (not (is_finite p.score))) [
        | inl e ↦ rw e skipped
        | inr e ↦ rw e (elim (Bool-cases (blocks_write threshold (search_point p))) [
          | inl b ↦ rw b (elim (Bool-cases (better d (search_point p))) [
            | inl t ↦ rw t found
            | inr t ↦ rw t skipped
          ])
          | inr b ↦ rw b (elim (Bool-cases (not (at_least p.score low) || is_expired_now now p)) [
            | inl x ↦ rw x skipped
            | inr x ↦ rw x (
              record {
                parsed = refl;
                scored = ground arith;
                close = ground arith;
                unexpired = unfold is_expired_now in ground arith;
                harmless = b;
              },
              skipped,
            )
          ])
        ])
      ]

  better-IsBest :
      (d : Option SearchPoint) (s : SearchPoint) (x : Float)
      → is_finite x ≡ true
      → is_finite s.point.score ≡ true
      → better d s ≡ true
      → IsBest d x
      → IsBest (some s) x
  better-IsBest none s x f g t h = ground arith
  better-IsBest (some d) s x f g t (k, h) = (
    g,
    float_lt_negtrans x d.point.score s.point.score f k g h
        (float_lt_asymm d.point.score s.point.score t),
  )

  -- A duplicate is only ever replaced by one with a higher score.
  select-keeps_IsBest :
      (d : Option SearchPoint) (ps : List Point) (x : Float)
      → is_finite x ≡ true
      → IsBest d x
      → IsBest ((select now low threshold d ps).0) x
  unfolding select
  select-keeps_IsBest d [] x f h = h
  select-keeps_IsBest d (p ∷ ps) x f h =
      let skipped = select-keeps_IsBest d ps x f h in
      elim (Bool-cases (not (is_finite p.score))) [
        | inl e ↦ rw e skipped
        | inr e ↦ rw e (elim (Bool-cases (blocks_write threshold (search_point p))) [
          | inl b ↦ rw b (elim (Bool-cases (better d (search_point p))) [
            | inl t ↦ rw t (
                select-keeps_IsBest (some (search_point p)) ps x f
                  (better-IsBest d (search_point p) x f (ground arith) t h))
            | inr t ↦ rw t skipped
          ])
          | inr b ↦ rw b (elim (Bool-cases (not (at_least p.score low) || is_expired_now now p)) [
            | inl k ↦ rw k skipped
            | inr k ↦ rw k skipped
          ])
        ])
      ]

  -- A point that blocks the write.
  abbrev pub Blocks : Point → Type 0
  Blocks p = (is_finite p.score ≡ true) × (blocks_write threshold (search_point p) ≡ true)

  -- The duplicate so far, where there is one, has a finite score.
  abbrev IsFound : Option SearchPoint → Type 0
  IsFound none = Unit
  IsFound (some d) = is_finite d.point.score ≡ true

  IsBest-found :
      (d : Option SearchPoint) (s : SearchPoint)
      → IsFound d
      → better d s ≡ false
      → IsBest d s.point.score
  IsBest-found none s f t = ground arith
  IsBest-found (some d) s f t = (f, t)

  -- A duplicate that is at least as good as every one of the points that block the write.
  abbrev AreBest : List Point → Option SearchPoint × List Point → Type 0
  AreBest ps r = All (λ p. Blocks p → IsBest r.0 p.score) ps

  select-IsBest :
      (d : Option SearchPoint) (ps : List Point)
      → IsFound d
      → AreBest ps (select now low threshold d ps)
  unfolding select
  select-IsBest d [] f = tt
  select-IsBest d (p ∷ ps) f =
      let P = AreBest (p ∷ ps) in
      let s = search_point p in
      let skipped = select now low threshold d ps in
      let found = select now low threshold (some s) ps in
      let ih = select-IsBest d ps f in
      let harmless : blocks_write threshold s ≡ false → P skipped =
        λ b. (λ (g, c). ground arith, ih) in
      branch P (not (is_finite p.score)) skipped _ (λ e. (λ (g, b). ground arith, ih))
        (λ e.
          let fin : is_finite p.score ≡ true = ground arith in
          branch P (blocks_write threshold s) (if better d s then found else skipped) _
            (λ b.
              branch P (better d s) found skipped
                (λ t. (
                  λ _. select-keeps_IsBest (some s) ps p.score fin (fin, float_lt_irrefl p.score),
                  select-IsBest (some s) ps fin,
                ))
                (λ t. (λ _. select-keeps_IsBest d ps p.score fin (IsBest-found d s f t), ih)))
            (λ b.
              branch P (not (at_least p.score low) || is_expired_now now p) skipped
                (skipped.0, p ∷ skipped.1) (λ _. harmless b) (λ _. harmless b)))

-- The related facts are at most `limit`, and each has a finite score of at least `low`, has not
-- expired and blocks no write; the duplicate has a finite score of at least that of every point
-- which blocks the write, so that there is one if any point does.
pub select_related_candidates-IsRelated :
    (now : Instant) (ps : List Point) (low threshold : Float) (limit : ℕ)
    → (length ((select_related_candidates now ps low threshold limit).1) ≤ limit)
      × (All
            (IsRelated now low threshold)
            ((select_related_candidates now ps low threshold limit).1)
          × All
              (λ p.
                Blocks now low threshold p
                → IsBest ((select_related_candidates now ps low threshold limit).0) p.score)
              ps)
unfolding select_related_candidates
select_related_candidates-IsRelated now ps low threshold limit =
    let related = (select now low threshold none ps).1 in
    (
      length-take_le limit (related_search_points related),
      (
        take-All (IsRelated now low threshold) limit (related_search_points related) (
            related_search_points-All (IsRelated now low threshold) related
              (select-IsRelated now low threshold none ps)),
        select-IsBest now low threshold none ps tt,
      ),
    )
