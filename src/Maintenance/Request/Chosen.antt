-- ===== src/Maintenance/Request/Chosen.antt =====
-- The set `selected` of validateRequest of internal/memory/maintenance/service.go.
use personal_memory.Prelude.{
  ◌≡◌, ◌&&◌, ◌++◌, Bool, Bool-cases, List, [], arith, false, if◌then◌else◌, inl, inr, refl, subst,
  true, ◌||◌, ◌∙◌, ◌∷◌,
}
use personal_memory.Maintenance.Classify.{Finding}
use personal_memory.Maintenance.Request.{Selection, eligible_ids, selected_ids, unique_texts}
use personal_memory.Go.Text.{Text, text_eq, text_lt}
use personal_memory.Lifecycle.Model.{contains}
use personal_memory.Go.Sort.{insert, sort}
use personal_memory.Go.Text.Laws.{text_eq_iff}

-- Some finding of this id is eligible.
unfoldable pub names_eligible : Text → List Finding → Bool
names_eligible id [] = false
names_eligible id (f ∷ fs) =
    (text_eq f.point_id id && f.eligible_for_quarantine) || names_eligible id fs

contains-eligible_ids :
    (id : Text) (fs : List Finding) → contains id (eligible_ids fs) ≡ names_eligible id fs
unfolding contains eligible_ids names_eligible
contains-eligible_ids id [] = refl
contains-eligible_ids id (f ∷ fs) = ground (arith, contains-eligible_ids id fs)

contains-append :
    (id : Text) (xs ys : List Text) → contains id (xs ++ ys) ≡ (contains id xs || contains id ys)
unfolding contains
contains-append id [] ys = refl
contains-append id (x ∷ xs) ys = ground (arith, contains-append id xs ys)

contains-unique_texts :
    (id : Text) (ids : List Text) → contains id (unique_texts ids) ≡ contains id ids
unfolding contains unique_texts
contains-unique_texts id [] = refl
contains-unique_texts id (x ∷ xs) =
    let ih = contains-unique_texts id xs in
    elim (Bool-cases (text_eq x id)) [
      | inl e ↦ elim (Bool-cases (contains x (unique_texts xs))) [
        | inl c ↦
            rw (e, c) (subst (λ y. contains y (unique_texts xs) ≡ true) ((text_eq_iff x id).0 e) c)
        | inr c ↦ rw (c, e) refl
      ]
      | inr e ↦ elim (Bool-cases (contains x (unique_texts xs))) [
        | inl c ↦ rw (e, c) ih
        | inr c ↦ rw (c, e) ih
      ]
    ]

contains-insert :
    (id x : Text) (ids : List Text)
    → contains id (insert text_lt x ids) ≡ (text_eq x id || contains id ids)
unfolding contains insert
contains-insert id x [] = refl
contains-insert id x (y ∷ ys) = ground (arith, contains-insert id x ys)

contains-sort : (id : Text) (ids : List Text) → contains id (sort text_lt ids) ≡ contains id ids
unfolding contains sort
contains-sort id [] = refl
contains-sort id (x ∷ xs) =
    ground (arith, contains-insert id x (sort text_lt xs), contains-sort id xs)

contains-chosen :
    (id : Text) (t : Bool) (fs : List Finding) (ids : List Text)
    → (contains id (if t then eligible_ids fs else []) || contains id ids)
      ≡ (contains id ids || (t && names_eligible id fs))
unfolding contains
contains-chosen id true fs ids = ground (arith, contains-eligible_ids id fs)
contains-chosen id false fs ids = ground arith

pub contains-selected_ids :
    (s : Selection) (fs : List Finding) (id : Text)
    → contains id (sort text_lt (selected_ids s fs))
      ≡ (contains id s.point_ids || (s.include_eligible && names_eligible id fs))
unfolding selected_ids
contains-selected_ids s fs id =
    let of_findings = if s.include_eligible then eligible_ids fs else [] in
    contains-sort id (unique_texts (of_findings ++ s.point_ids))
    ∙ contains-unique_texts id (of_findings ++ s.point_ids)
    ∙ contains-append id of_findings s.point_ids
    ∙ contains-chosen id s.include_eligible fs s.point_ids
