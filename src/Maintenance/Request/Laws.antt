-- ===== src/Maintenance/Request/Laws.antt =====
-- Which ids a request that validateRequest of internal/memory/maintenance/service.go accepts names.
use personal_memory.Maintenance.Request.Chosen.{names_eligible, contains-selected_ids}
use personal_memory.Prelude.{
  ◌<◌, All, Bool, Bool-cases, List, Option, [], arith, false, inl, inr, length, none, refl, some,
  true, ◌∷◌, ◌≡◌, ◌≢◌, ◌≤◌, ◌==◌, All-append, if◌then◌else◌, ltb, subst, sym, ◌||◌, ◌++◌, ◌&&◌,
}
use personal_memory.Lifecycle.Model.Laws.{Distinct}
use personal_memory.Maintenance.Classify.{Finding}
use personal_memory.Go.Sort.{
  IsSorted, insert, insert-All, length-sort, sort, sort-All, sort-IsSorted,
}
use personal_memory.Maintenance.Analyze.{Manifest}
use personal_memory.Maintenance.Request.{
  RequestFault, SavedManifest, Selection, Validated, eligible_ids, finding_at, or_fault,
  selection_fault, unique_texts, validate_request, selected, selected_ids, sorted_selection,
  findings_fault, manifest_fault,
}
use personal_memory.Go.Text.{Text, text_lt}
use personal_memory.Lifecycle.Model.{contains, is_some}
use personal_memory.Go.Text.Laws.{text_eq_iff, text_eq_refl, text_lt_asymm, text_lt_negtrans}

-- The ids that a request may act on: those that it names and, if it asks for them, those of the
-- eligible findings.
pub record IsSelection (m : Manifest) (s : Selection) (ids : List Text) : Type 0 where
  pub exactly :
      (id : Text)
      → contains id ids
        ≡ (contains id s.point_ids || (s.include_eligible && names_eligible id m.findings))
  pub filled : 0 < length ids
  pub bounded : length ids ≤ 100
  pub sorted : IsSorted text_lt ids
  pub distinct : Distinct ids
  pub known : All (λ id. is_some (finding_at id m.findings) ≡ true) ids

or_fault-selected :
    (r : Option RequestFault) (next : Validated) (ids : List Text)
    → or_fault r next ≡ selected ids
    → (r ≡ none) × (next ≡ selected ids)
or_fault-selected none next ids h = (refl, h)
or_fault-selected (some f) next ids h = cc

selected_inj : {a b : List Text} → selected a ≡ selected b → a ≡ b
selected_inj h = cc

contains-ne : (id : Text) (ids : List Text) → contains id ids ≡ false → All (λ y. id ≢ y) ids
unfolding contains
contains-ne id [] h = tt
contains-ne id (x ∷ xs) h =
    (ground (arith, text_eq_iff id x, text_eq_iff x id), contains-ne id xs (ground arith))

unique_texts-Distinct : (ids : List Text) → Distinct (unique_texts ids)
unfolding unique_texts
unique_texts-Distinct [] = tt
unique_texts-Distinct (id ∷ ids) =
    let ih = unique_texts-Distinct ids in
    elim (Bool-cases (contains id (unique_texts ids))) [
      | inl e ↦ rw e ih
      | inr e ↦ rw e (contains-ne id (unique_texts ids) e, ih)
    ]

unique_texts-All : (P : Text → Type 0) (ids : List Text) → All P ids → All P (unique_texts ids)
unfolding unique_texts
unique_texts-All P [] h = tt
unique_texts-All P (id ∷ ids) h =
    let ih = unique_texts-All P ids h.1 in
    elim (Bool-cases (contains id (unique_texts ids))) [ inl e ↦ rw e ih | inr e ↦ rw e (h.0, ih) ]

-- A finding is found by its id.
finding_at-eligible :
    (fs gs : List Finding)
    → All (λ f. is_some (finding_at f.point_id gs) ≡ true) fs
    → All (λ id. is_some (finding_at id gs) ≡ true) (eligible_ids fs)
unfolding eligible_ids
finding_at-eligible [] gs h = tt
finding_at-eligible (f ∷ fs) gs h =
    let ih = finding_at-eligible fs gs h.1 in
    elim (Bool-cases f.eligible_for_quarantine) [ inl e ↦ rw e (h.0, ih) | inr e ↦ rw e ih ]

finding_at-grows :
    (g : Finding) (fs gs : List Finding)
    → All (λ f. is_some (finding_at f.point_id gs) ≡ true) fs
    → All (λ f. is_some (finding_at f.point_id (g ∷ gs)) ≡ true) fs
unfolding finding_at
finding_at-grows g [] gs h = tt
finding_at-grows g (f ∷ fs) gs h = (ground arith, finding_at-grows g fs gs h.1)

finding_at-own : (fs : List Finding) → All (λ f. is_some (finding_at f.point_id fs) ≡ true) fs
unfolding finding_at
finding_at-own [] = tt
finding_at-own (f ∷ fs) =
    (rw (text_eq_refl f.point_id) refl, finding_at-grows f fs fs (finding_at-own fs))

selection_fault-known :
    (fs : List Finding) (seen ids : List Text)
    → selection_fault fs seen ids ≡ none
    → All (λ id. is_some (finding_at id fs) ≡ true) ids
unfolding selection_fault
selection_fault-known fs seen [] h = tt
selection_fault-known fs seen (id ∷ ids) h =
    (ground arith, selection_fault-known fs (id ∷ seen) ids (ground arith))

insert-Distinct :
    (id : Text) (ids : List Text)
    → All (λ y. id ≢ y) ids
    → Distinct ids
    → Distinct (insert text_lt id ids)
unfolding insert
insert-Distinct id [] a d = (tt, tt)
insert-Distinct id (x ∷ xs) a d = elim (Bool-cases (text_lt x id)) [
  | inl e ↦
      rw e (
        insert-All text_lt (λ y. x ≢ y) id xs (λ h. a.0 (sym h)) d.0,
        insert-Distinct id xs a.1 d.1,
      )
  | inr e ↦ rw e (a, d)
]

sort-Distinct : (ids : List Text) → Distinct ids → Distinct (sort text_lt ids)
unfolding sort
sort-Distinct [] d = tt
sort-Distinct (x ∷ xs) d =
    insert-Distinct x (sort text_lt xs) (sort-All text_lt (λ y. x ≢ y) xs d.0)
      (sort-Distinct xs d.1)

-- What `sorted_selection` gives back is within the bounds.
sorted_selection-IsSelection :
    (m : Manifest) (s : Selection) (us ids : List Text)
    → ((id : Text)
        → contains id (sort text_lt us)
          ≡ (contains id s.point_ids || (s.include_eligible && names_eligible id m.findings)))
    → Distinct us
    → All (λ id. is_some (finding_at id m.findings) ≡ true) us
    → sorted_selection us ≡ selected ids
    → IsSelection m s ids
sorted_selection-IsSelection m s us ids x d k h =
    elim (Bool-cases ((length us == 0) || ltb 100 (length us))) [
      | inl e ↦ let c = rw e at h in cc
      | inr e ↦ subst (IsSelection m s) (selected_inj (rw e at h)) (record {
        exactly = x;
        filled = rw (length-sort text_lt us) (ground arith);
        bounded = rw (length-sort text_lt us) (ground arith);
        sorted = sort-IsSorted text_lt text_lt_asymm text_lt_negtrans us;
        distinct = sort-Distinct us d;
        known = sort-All text_lt _ us k;
      })
    ]

-- The ids that a request may act on are those that its selection names and, if it asks for them,
-- those of the eligible findings. Each is that of a finding of its manifest; they are sorted and
-- distinct, and there are at least one and at most a hundred of them.
pub validate_request-IsSelection :
    (batch_id : SavedManifest → Text) (valid_digest : Text → Bool) (saved : SavedManifest)
    (s : Selection) (collection : Text) (ids : List Text)
    → validate_request batch_id valid_digest saved s collection ≡ selected ids
    → IsSelection saved.manifest s ids
unfolding validate_request
validate_request-IsSelection batch_id valid_digest saved s collection ids h =
    let fs = saved.manifest.findings in
    let chosen = selection_fault fs [] s.point_ids in
    let last = sorted_selection (selected_ids s fs) in
    let known : Text → Type 0 = λ id. is_some (finding_at id fs) ≡ true in
    let every = (if s.include_eligible then eligible_ids fs else []) ++ s.point_ids in
    let (_, h) =
      or_fault-selected (manifest_fault batch_id valid_digest saved collection)
        (or_fault (findings_fault valid_digest [] fs) (or_fault chosen last)) ids h in
    let (_, h) =
      or_fault-selected (findings_fault valid_digest [] fs) (or_fault chosen last) ids h in
    let (k, h) = or_fault-selected chosen last ids h in
    sorted_selection-IsSelection saved.manifest s (selected_ids s fs) ids
      (contains-selected_ids s fs) (unfold selected_ids in unique_texts-Distinct every)
      (unfold selected_ids in
        unique_texts-All known every (
          All-append known (if s.include_eligible then eligible_ids fs else []) s.point_ids
            (included s.include_eligible) (selection_fault-known fs [] s.point_ids k)))
      h
  where
    included :
        (t : Bool)
        → All
            (λ id. is_some (finding_at id saved.manifest.findings) ≡ true)
            (if t then eligible_ids saved.manifest.findings else [])
    included true =
        finding_at-eligible saved.manifest.findings saved.manifest.findings
          (finding_at-own saved.manifest.findings)
    included false = tt
