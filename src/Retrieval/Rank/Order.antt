-- ===== src/Retrieval/Rank/Order.antt =====
-- Rank of internal/retrieval/fusion.go does not depend on the order of its candidates.
use personal_memory.Go.Sort.Reorder.{
  same, swapped, kept, through, Reordered, Reordered-length, sort-Reordered,
}
use personal_memory.Go.Sort.{Pairwise, sort}
use personal_memory.Prelude.{
  All, Bool-cases, List, [], ap, arith, false, inl, inr, refl, true, ◌||◌, ◌∙◌, ◌∷◌, ◌≡◌, ◌≢◌, ◌⊎◌,
  Bool, sym, ℕ,
}
use personal_memory.Retrieval.Rank.{
  DenseCandidate, candidate_valid, dense_before, each_valid, rank_validated, validate_candidates,
  rank,
}
use personal_memory.Retrieval.Lexical.{Lexer}
use personal_memory.Go.Text.{Text, text_eq}
use personal_memory.Lifecycle.Model.{contains}
use personal_memory.Go.Float.{float_lt_asymm, float_lt_negtrans, is_finite}
use personal_memory.Go.Text.Laws.{
  text_eq_refl, text_lt_antisymm, text_lt_asymm, text_lt_negtrans, text_eq_iff,
}
use personal_memory.Retrieval.MultiList.{Scores}

abbrev IsScored : DenseCandidate → Type 0
IsScored c = is_finite c.dense_score ≡ true

abbrev pub Differ : DenseCandidate → DenseCandidate → Type 0
Differ a b = a.id ≢ b.id

pub dense_before-asymm : (a b : DenseCandidate) → dense_before a b ≡ true → dense_before b a ≡ false
dense_before-asymm a b h = ground (
  arith,
  float_lt_asymm a.dense_score b.dense_score,
  float_lt_asymm b.dense_score a.dense_score,
  text_lt_asymm a.id b.id,
)

pub dense_before-negtrans :
    (a b c : DenseCandidate)
    → IsScored a
    → IsScored b
    → IsScored c
    → dense_before b a ≡ false
    → dense_before c b ≡ false
    → dense_before c a ≡ false
dense_before-negtrans a b c p q r h k =
    let x = a.dense_score in
    let y = b.dense_score in
    let z = c.dense_score in
    ground (
      arith,
      float_lt_negtrans x y z p q r,
      float_lt_negtrans z y x r q p,
      float_lt_negtrans x z y p r q,
      float_lt_negtrans y x z q p r,
      float_lt_negtrans y z x q r p,
      float_lt_negtrans z x y r p q,
      text_lt_negtrans a.id b.id c.id,
    )

dense_before-decided :
    (a b : DenseCandidate)
    → IsScored a
    → IsScored b
    → Differ a b
    → (dense_before a b ≡ true) ⊎ (dense_before b a ≡ true)
dense_before-decided a b p q n = elim (Bool-cases (dense_before a b)) [
  | inl e ↦ inl e
  | inr e ↦ elim (Bool-cases (dense_before b a)) [
    | inl f ↦ inr f
    | inr f ↦ absurd (n (text_lt_antisymm a.id b.id (ground arith) (ground arith)))
  ]
]

or_swap : (a b c : Bool) → (a || (b || c)) ≡ (b || (a || c))
or_swap true true c = refl
or_swap true false c = refl
or_swap false true c = refl
or_swap false false c = refl

module _ (lexer : Lexer) where
  -- The ids before count only by what they contain.
  each_valid-cong :
      (s t : List Text) (cs : List DenseCandidate)
      → ((id : Text) → contains id s ≡ contains id t)
      → each_valid lexer s cs ≡ each_valid lexer t cs
  unfolding each_valid contains
  each_valid-cong s t [] e = refl
  each_valid-cong s t (c ∷ cs) e = ground (
    arith,
    e c.id,
    each_valid-cong (c.id ∷ s) (c.id ∷ t) cs (λ id. ap (λ b. text_eq c.id id || b) (e id)),
  )

  each_valid-Reordered :
      {cs ds : List DenseCandidate}
      → Reordered cs ds
      → (seen : List Text) → each_valid lexer seen cs ≡ each_valid lexer seen ds
  unfolding each_valid contains
  each_valid-Reordered (same cs) seen = refl
  each_valid-Reordered (swapped c d cs) seen = ground (
    arith,
    text_eq_iff c.id d.id,
    text_eq_iff d.id c.id,
    each_valid-cong (d.id ∷ c.id ∷ seen) (c.id ∷ d.id ∷ seen) cs
        (λ id. or_swap (text_eq d.id id) (text_eq c.id id) (contains id seen)),
  )
  each_valid-Reordered (kept c r) seen = ground (arith, each_valid-Reordered r (c.id ∷ seen))
  each_valid-Reordered (through r s) seen =
      each_valid-Reordered r seen ∙ each_valid-Reordered s seen

  -- The ids of valid candidates are not among those before, and are distinct.
  each_valid-unseen :
      (seen : List Text) (id : Text) (cs : List DenseCandidate)
      → each_valid lexer seen cs ≡ true
      → contains id seen ≡ true
      → All (λ c. id ≢ c.id) cs
  unfolding each_valid contains
  each_valid-unseen seen id [] h k = tt
  each_valid-unseen seen id (c ∷ cs) h k = (
    λ e. let g : contains c.id seen ≡ false = ground arith in cc,
    each_valid-unseen (c.id ∷ seen) id cs (ground arith) (ground arith),
  )

  pub each_valid-Pairwise :
      (seen : List Text) (cs : List DenseCandidate)
      → each_valid lexer seen cs ≡ true
      → Pairwise Differ cs
  unfolding each_valid contains
  each_valid-Pairwise seen [] h = tt
  each_valid-Pairwise seen (c ∷ cs) h = (
    each_valid-unseen (c.id ∷ seen) c.id cs (ground arith)
        (unfold contains in rw (text_eq_refl c.id) refl),
    each_valid-Pairwise (c.id ∷ seen) cs (ground arith),
  )

  each_valid-IsScored :
      (seen : List Text) (cs : List DenseCandidate)
      → each_valid lexer seen cs ≡ true
      → All IsScored cs
  unfolding each_valid candidate_valid
  each_valid-IsScored seen [] h = tt
  each_valid-IsScored seen (c ∷ cs) h =
      (ground arith, each_valid-IsScored (c.id ∷ seen) cs (ground arith))

  pub valid_each :
      (cs : List DenseCandidate)
      → validate_candidates lexer cs ≡ true
      → each_valid lexer [] cs ≡ true
  unfolding validate_candidates
  valid_each cs h = ground arith

  validate_candidates-Reordered :
      {cs ds : List DenseCandidate}
      → Reordered cs ds
      → validate_candidates lexer cs ≡ validate_candidates lexer ds
  unfolding validate_candidates
  validate_candidates-Reordered r = rw (Reordered-length r, each_valid-Reordered r []) refl

  validate_candidates-sort :
      {cs ds : List DenseCandidate}
      → Reordered cs ds
      → validate_candidates lexer cs ≡ true
      → sort dense_before cs ≡ sort dense_before ds
  validate_candidates-sort {cs} r h =
      let v = valid_each cs h in
      sort-Reordered dense_before IsScored dense_before-asymm dense_before-negtrans Differ
        (λ a b n e. n (sym e)) dense_before-decided r (each_valid-IsScored [] cs v)
        (each_valid-Pairwise [] cs v)

-- Rank gives the same results, or none, in whatever order its candidates are given.
pub rank-Reordered :
    (scores : Scores) (lexer : Lexer) (query : Text) (cs ds : List DenseCandidate)
    (constant limit : ℕ)
    → Reordered cs ds
    → rank scores lexer query cs constant limit ≡ rank scores lexer query ds constant limit
unfolding rank rank_validated
rank-Reordered scores lexer query cs ds constant limit r =
    elim (Bool-cases (validate_candidates lexer cs)) [
      | inl e ↦
          rw (← validate_candidates-Reordered lexer r, ← validate_candidates-sort lexer r e) refl
      | inr e ↦ ground (arith, validate_candidates-Reordered lexer r)
    ]
