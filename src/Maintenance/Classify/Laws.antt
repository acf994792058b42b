-- ===== src/Maintenance/Classify/Laws.antt =====
-- What classify of internal/memory/maintenance/analyze.go finds of a fact, and which facts it
-- proposes for quarantine.
use personal_memory.Maintenance.Classify.{
  class_expired, class_superseded_retention, class_duplicate, class_stale_unused, class_malformed,
  class_protected, class_already_quarantined, CandidateClass, class_if, class_less, class_order,
  classes_of, contains_class, is_expired_fact, is_malformed_fact, is_protected_fact, is_stale_fact,
  is_superseded_fact, same_class, unique_classes, unique_sorted, ScrollPoint, classify, is_eligible,
}
use personal_memory.Prelude.{
  ◌&&◌, ◌++◌, ==_iff, Bool, Bool-cases, List, [], ap, arith, false, inl, inr, not, refl, true, ◌||◌,
  ◌∙◌, ◌∷◌, ◌≡◌, ◌||◌, ◌↔◌, ◌⊎◌,
}
use personal_memory.Go.Json.{Fields}
use personal_memory.Go.Float.{Float}
use personal_memory.Go.Time.{Instant}
use personal_memory.Maintenance.Status.{MaintenanceOptions, is_quarantined, is_active}
use personal_memory.Go.Text.{Text}
use personal_memory.Lifecycle.Model.{View}
use personal_memory.Go.Sort.{insert, sort, IsSorted, sort-IsSorted}
use personal_memory.Go.Int.{ℤ}
use personal_memory.Lifecycle.Parse.{lifecycle_view}

or_swap : (a b c : Bool) → (a || (b || c)) ≡ (b || (a || c))
or_swap true true c = refl
or_swap true false c = refl
or_swap false b c = refl

and_true : (a : Bool) → (a && true) ≡ a
and_true true = refl
and_true false = refl

and_false : (a : Bool) → (a && false) ≡ false
and_false true = refl
and_false false = refl

or_false : (a : Bool) → (a || false) ≡ a
or_false true = refl
or_false false = refl

same_class-contains_class :
    (c d : CandidateClass) (ds : List CandidateClass)
    → same_class d c ≡ true
    → contains_class c ds ≡ contains_class d ds
unfolding contains_class
same_class-contains_class c d [] h = refl
same_class-contains_class c d (x ∷ xs) h =
    let ih = same_class-contains_class c d xs h in
    let e = (==_iff (class_order d) (class_order c)).0 h in rw (e, ih) refl

contains_class-unique_classes :
    (c : CandidateClass) (seen cs : List CandidateClass)
    → contains_class c (unique_classes seen cs)
      ≡ (contains_class c cs && not (contains_class c seen))
unfolding unique_classes contains_class
contains_class-unique_classes c seen [] = refl
contains_class-unique_classes c seen (d ∷ cs) =
    let ih = contains_class-unique_classes c (d ∷ seen) cs in
    let same = same_class-contains_class c d seen in
    elim (Bool-cases (same_class d c)) [
      | inl e ↦ let f = same e in ground arith
      | inr e ↦ ground arith
    ]

contains_class-insert :
    (c d : CandidateClass) (ds : List CandidateClass)
    → contains_class c (insert class_less d ds) ≡ (same_class d c || contains_class c ds)
unfolding insert contains_class
contains_class-insert c d [] = refl
contains_class-insert c d (x ∷ xs) =
    let ih = contains_class-insert c d xs in
    elim (Bool-cases (class_less x d)) [
      | inl e ↦ rw e (
          ap (◌||◌ (same_class x c)) ih
          ∙ or_swap (same_class x c) (same_class d c) (contains_class c xs))
      | inr e ↦ rw e refl
    ]

contains_class-sort :
    (c : CandidateClass) (ds : List CandidateClass)
    → contains_class c (sort class_less ds) ≡ contains_class c ds
unfolding sort contains_class
contains_class-sort c [] = refl
contains_class-sort c (d ∷ ds) =
    contains_class-insert c d (sort class_less ds)
    ∙ ap (◌||◌ (same_class d c)) (contains_class-sort c ds)

-- uniqueSorted keeps every class.
contains_class-unique_sorted :
    (c : CandidateClass) (cs : List CandidateClass)
    → contains_class c (unique_sorted cs) ≡ contains_class c cs
unfolding unique_sorted
contains_class-unique_sorted c cs =
    contains_class-sort c (unique_classes [] cs)
    ∙ contains_class-unique_classes c [] cs
    ∙ unfold contains_class in and_true (contains_class c cs)

contains_class-class_if :
    (c d : CandidateClass) (t : Bool) (rest : List CandidateClass)
    → contains_class c (class_if t d ++ rest) ≡ ((t && same_class d c) || contains_class c rest)
unfolding contains_class
contains_class-class_if c d true rest = refl
contains_class-class_if c d false rest = refl

contains_class-last :
    (c d : CandidateClass) (t : Bool) → contains_class c (class_if t d) ≡ (t && same_class d c)
unfolding contains_class
contains_class-last c d true = ground arith
contains_class-last c d false = refl

-- Of conditions, one for each class in the order of classify, that of one class.
abbrev condition_of : CandidateClass → Bool → Bool → Bool → Bool → Bool → Bool → Bool → Bool
condition_of class_already_quarantined a b e f g h i = a
condition_of class_expired a b e f g h i = b
condition_of class_superseded_retention a b e f g h i = e
condition_of class_stale_unused a b e f g h i = f
condition_of class_duplicate a b e f g h i = g
condition_of class_malformed a b e f g h i = h
condition_of class_protected a b e f g h i = i

condition_of_lem :
    (c : CandidateClass) (a b e f g h i : Bool)
    → ((a && same_class class_already_quarantined c)
        || ((b && same_class class_expired c)
            || ((e && same_class class_superseded_retention c)
                || ((f && same_class class_stale_unused c)
                    || ((g && same_class class_duplicate c)
                        || ((h && same_class class_malformed c)
                            || (i && same_class class_protected c)))))))
      ≡ condition_of c a b e f g h i
condition_of_lem class_already_quarantined a b e f g h i = simp (and_true, and_false, or_false) refl
condition_of_lem class_expired a b e f g h i = simp (and_true, and_false, or_false) refl
condition_of_lem class_superseded_retention a b e f g h i =
    simp (and_true, and_false, or_false) refl
condition_of_lem class_stale_unused a b e f g h i = simp (and_true, and_false, or_false) refl
condition_of_lem class_duplicate a b e f g h i = simp (and_true, and_false, or_false) refl
condition_of_lem class_malformed a b e f g h i = simp (and_true, and_false, or_false) refl
condition_of_lem class_protected a b e f g h i = simp (and_true, and_false, or_false) refl

module _ (reference : Instant) (o : MaintenanceOptions) (p : Fields) (life : View)
    (int_of : Float → ℤ) (ids : List Text) (check_orphans duplicate : Bool) where
  -- When a fact is in a class.
  abbrev pub has_class : CandidateClass → Bool
  has_class c =
      condition_of c (is_quarantined p) (is_expired_fact reference o p life)
        (is_superseded_fact reference o p life) (is_stale_fact reference o p life int_of) duplicate
        (is_malformed_fact reference o p life ids check_orphans) (is_protected_fact p life)

  contains_class-classes_of :
      (c : CandidateClass)
      → contains_class c (classes_of reference o p life int_of ids check_orphans duplicate)
        ≡ has_class c
  unfolding classes_of is_quarantined
  contains_class-classes_of c =
      rw
        (
          contains_class-class_if, contains_class-class_if, contains_class-class_if,
          contains_class-class_if, contains_class-class_if, contains_class-class_if,
          contains_class-last,
        )
        (condition_of_lem c _ _ _ _ _ _ _)

  -- A fact that may be put into quarantine.
  pub record IsQuarantinable : Type 0 where
    pub active : is_active p ≡ true
    pub sound : is_malformed_fact reference o p life ids check_orphans ≡ false
    pub unprotected : is_protected_fact p life ≡ false
    pub due :
        (is_expired_fact reference o p life ≡ true) ⊎ (is_superseded_fact reference o p life ≡ true)

  is_eligible_iff :
      (is_eligible reference o p life
          (is_malformed_fact reference o p life ids check_orphans)
          (unique_sorted (classes_of reference o p life int_of ids check_orphans duplicate))
        ≡ true)
      ↔ IsQuarantinable
  unfolding is_eligible is_active
  is_eligible_iff =
      let cs = classes_of reference o p life int_of ids check_orphans duplicate in
      let expired =
        contains_class-unique_sorted class_expired cs ∙ contains_class-classes_of class_expired in
      let superseded =
        contains_class-unique_sorted class_superseded_retention cs
        ∙ contains_class-classes_of class_superseded_retention in
      (
        λ h. record {
          active = ground arith;
          sound = ground arith;
          unprotected = ground arith;
          due = elim (Bool-cases (is_expired_fact reference o p life)) [
            | inl e ↦ inl e
            | inr e ↦ inr (ground arith)
          ];
        },
        λ w.
            let a = w.active in
            let s = w.sound in
            let u = w.unprotected in elim w.due [ inl e ↦ ground arith | inr e ↦ ground arith ],
      )

module _ (int_of : Float → ℤ) (fingerprint : ScrollPoint → Text) where
  -- A finding proposes quarantine exactly for an active fact with sound metadata that is not
  -- protected and has expired or been superseded for long enough.
  pub classify-IsQuarantinable :
      (ids : List Text) (check_orphans duplicate : Bool) (reference : Instant)
      (o : MaintenanceOptions) (point : ScrollPoint)
      → ((classify int_of fingerprint ids check_orphans duplicate reference o
            point).eligible_for_quarantine
          ≡ true)
        ↔ IsQuarantinable reference o point.payload
            (lifecycle_view point.id point.payload)
            int_of
            ids
            check_orphans
            duplicate
  unfolding classify
  classify-IsQuarantinable ids check_orphans duplicate reference o point =
      is_eligible_iff reference o point.payload (lifecycle_view point.id point.payload) int_of ids
        check_orphans duplicate

  -- The classes of a finding are those whose condition the fact meets, in the order of their texts.
  pub classify-classes :
      (ids : List Text) (check_orphans duplicate : Bool) (reference : Instant)
      (o : MaintenanceOptions) (point : ScrollPoint)
      → ((c : CandidateClass)
          → contains_class c
              ((classify int_of fingerprint ids check_orphans duplicate reference o point).classes)
            ≡ has_class reference o point.payload
                (lifecycle_view point.id point.payload)
                int_of
                ids
                check_orphans
                duplicate
                c)
        × IsSorted class_less
            ((classify int_of fingerprint ids check_orphans duplicate reference o point).classes)
  unfolding classify
  classify-classes ids check_orphans duplicate reference o point = (
    λ c.
        contains_class-unique_sorted c _
        ∙ contains_class-classes_of reference o point.payload
            (lifecycle_view point.id point.payload) int_of ids check_orphans duplicate c,
    unfold unique_sorted in
        sort-IsSorted class_less (λ a b h. ground arith) (λ a b c h k. ground arith) _,
  )
