-- ===== src/Lifecycle/Rank/Laws.antt =====
-- The order of SortCandidates.
use mathlib.Core.List.{Perm}
use personal_memory.Prelude.{
  ◌≡◌, true, false, List, arith, Bool, ℕ, Bool-cases, if◌then◌else◌, inl, inr, ◌&&◌, ◌==◌, ltb, not,
  refl, ◌||◌, sym, ◌∙◌,
}
use personal_memory.Go.Text.Laws.{text_lt_asymm, text_lt_negtrans}
use personal_memory.Go.Float.{
  float_lt_asymm, float_lt_negtrans, float_eq-float_lt, is_finite, float_lt, Float,
}
use personal_memory.Go.Sort.{sort-perm, sort-IsSorted, IsSorted}
use personal_memory.Lifecycle.Rank.{Candidate, ranks_before, sort_candidates, rank_tier}
use personal_memory.Go.Text.{text_lt}

ranks_before_asymm : (a b : Candidate) → ranks_before a b ≡ true → ranks_before b a ≡ false
unfolding ranks_before
ranks_before_asymm a b h = ground (
  arith,
  float_lt_asymm a.score b.score,
  float_lt_asymm b.score a.score,
  float_eq-float_lt a.score b.score,
  float_eq-float_lt b.score a.score,
  text_lt_asymm a.point_id b.point_id,
)

-- The comparison as a function of what it reads: whether the scores are finite, the tiers, the
-- scores compared both ways, and the ids compared.
abbrev key_before : Bool → Bool → ℕ → ℕ → Bool → Bool → Bool → Bool
key_before fa fb ta tb below above ids =
    if (fa && not fb) || (not fa && fb)
    then fa
    else if not (ta == tb)
    then ltb ta tb
    else if fa && not (not below && not above)
    then above
    else ids

ranks_before-key :
    (a b : Candidate)
    → ranks_before a b
      ≡ key_before
          (is_finite a.score)
          (is_finite b.score)
          (rank_tier a.view)
          (rank_tier b.view)
          (float_lt a.score b.score)
          (float_lt b.score a.score)
          (text_lt a.point_id b.point_id)
unfolding ranks_before
ranks_before-key a b = elim (Bool-cases (is_finite a.score)) [
  | inl fa ↦ elim (Bool-cases (is_finite b.score)) [
    | inl fb ↦ rw (fa, fb, float_eq-float_lt a.score b.score fa fb)
    | inr fb ↦ rw (fa, fb)
  ]
  | inr fa ↦ rw fa
]

-- Transitivity of "not below" between three scores, for each order of the three.
abbrev ScoreLaws : (ab ba bc cb ac ca : Bool) → Type 0
ScoreLaws ab ba bc cb ac ca =
    (ab ≡ false → bc ≡ false → ac ≡ false)
    × (ac ≡ false → cb ≡ false → ab ≡ false)
    × (ba ≡ false → ac ≡ false → bc ≡ false)
    × (bc ≡ false → ca ≡ false → ba ≡ false)
    × (ca ≡ false → ab ≡ false → cb ≡ false)
    × (cb ≡ false → ba ≡ false → ca ≡ false)

score_laws :
    (a b c : Float)
    → is_finite a ≡ true
    → is_finite b ≡ true
    → is_finite c ≡ true
    → ScoreLaws
        (float_lt a b)
        (float_lt b a)
        (float_lt b c)
        (float_lt c b)
        (float_lt a c)
        (float_lt c a)
score_laws a b c fa fb fc = (
  λ p q. float_lt_negtrans c b a fc fb fa q p,
  λ p q. float_lt_negtrans b c a fb fc fa q p,
  λ p q. float_lt_negtrans c a b fc fa fb q p,
  λ p q. float_lt_negtrans a c b fa fc fb q p,
  λ p q. float_lt_negtrans b a c fb fa fc q p,
  λ p q. float_lt_negtrans a b c fa fb fc q p,
)

module _ (ta tb tc : ℕ) (ab ba bc cb ac ca iba icb ica : Bool)
    (ids : iba ≡ false → icb ≡ false → ica ≡ false) where
  key_negtrans :
      (fa fb fc : Bool)
      → (fa ≡ true → fb ≡ true → fc ≡ true → ScoreLaws ab ba bc cb ac ca)
      → key_before fb fa tb ta ba ab iba ≡ false
      → key_before fc fb tc tb cb bc icb ≡ false
      → key_before fc fa tc ta ca ac ica ≡ false
  key_negtrans true true true laws h k = let l = laws refl refl refl in ground arith
  key_negtrans true true false laws h k = refl
  key_negtrans true false true laws h k = cc
  key_negtrans true false false laws h k = refl
  key_negtrans false true true laws h k = cc
  key_negtrans false true false laws h k = cc
  key_negtrans false false true laws h k = cc
  key_negtrans false false false laws h k = ground arith

ranks_before_negtrans :
    (a b c : Candidate)
    → ranks_before b a ≡ false
    → ranks_before c b ≡ false
    → ranks_before c a ≡ false
ranks_before_negtrans a b c h k =
    ranks_before-key c a
    ∙ key_negtrans (rank_tier a.view) (rank_tier b.view) (rank_tier c.view)
        (float_lt a.score b.score) (float_lt b.score a.score) (float_lt b.score c.score)
        (float_lt c.score b.score) (float_lt a.score c.score) (float_lt c.score a.score)
        (text_lt b.point_id a.point_id) (text_lt c.point_id b.point_id)
        (text_lt c.point_id a.point_id) (text_lt_negtrans a.point_id b.point_id c.point_id)
        (is_finite a.score) (is_finite b.score) (is_finite c.score)
        (score_laws a.score b.score c.score) (sym (ranks_before-key b a) ∙ h)
        (sym (ranks_before-key c b) ∙ k)

-- What is sorted is a rearrangement of the candidates, in the order of the comparison.
pub sort_candidates_lem :
    (cs : List Candidate)
    → Perm (sort_candidates cs) cs × IsSorted ranks_before (sort_candidates cs)
unfolding sort_candidates
sort_candidates_lem cs = (
  sort-perm ranks_before cs,
  sort-IsSorted ranks_before ranks_before_asymm ranks_before_negtrans cs,
)
