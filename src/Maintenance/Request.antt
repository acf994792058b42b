-- ===== src/Maintenance/Request.antt =====
-- internal/memory/maintenance/service.go: validateRequest, what a saved manifest and a selection
-- must be before anything is changed. The digest batchID is an argument, and so is whether a text
-- is a digest in hexadecimal.
pub mod Laws
pub mod Chosen
use personal_memory.Prelude.{
  ◌++◌, ◌==◌, Bool, List, Option, [], if◌then◌else◌, length, ltb, none, not, some, ◌||◌, ℕ, ◌∷◌,
}
use personal_memory.Maintenance.Classify.{Finding}
use personal_memory.Maintenance.Analyze.{Manifest}
use personal_memory.Go.Text.{Text, is_empty, text, text_eq, text_lt, trim_space}
use personal_memory.Lifecycle.Model.{contains, is_some}
use personal_memory.Go.Time.{parse_rfc3339}
use personal_memory.Go.Sort.{sort}

-- A manifest as it was saved, with the fields that Analyze fills by constants and by Format.
pub record SavedManifest : Type 0 where
  pub manifest : Manifest
  pub schema_version : ℕ
  pub policy_version : Text
  pub reference_text : Text

pub record Selection : Type 0 where
  pub point_ids : List Text
  pub include_eligible : Bool

pub data RequestFault : Type 0 where
  versions_incompatible not_actionable collection_incompatible findings_unbounded : RequestFault
  reference_invalid batch_mismatch finding_invalid finding_duplicate : RequestFault
  selection_blank selection_unknown selection_duplicate selection_unbounded : RequestFault

-- The ids of a request that is accepted, or what is wrong with it.
pub data Validated : Type 0 where
  selected : List Text → Validated
  faulty : RequestFault → Validated

-- findings[id]
unfoldable pub finding_at : Text → List Finding → Option Finding
finding_at id [] = none
finding_at id (f ∷ fs) = if text_eq f.point_id id then some f else finding_at id fs

abbrev pub is_blank : Text → Bool
is_blank t = is_empty (trim_space t)

-- The loop over the findings; `seen` holds the ids before this one.
unfoldable pub findings_fault : (Text → Bool) → List Text → List Finding → Option RequestFault
unfolding contains
findings_fault valid_digest seen [] = none
findings_fault valid_digest seen (f ∷ fs) =
    let rest = findings_fault valid_digest (f.point_id ∷ seen) fs in
    if is_blank f.point_id || not (valid_digest f.fingerprint)
    then some finding_invalid
    else if contains f.point_id seen
    then some finding_duplicate
    else rest

-- The ids of the findings that are eligible
unfoldable pub eligible_ids : List Finding → List Text
eligible_ids [] = []
eligible_ids (f ∷ fs) =
    let rest = eligible_ids fs in if f.eligible_for_quarantine then f.point_id ∷ rest else rest

-- The loop over the explicit ids; `seen` holds the ids before this one.
unfoldable pub selection_fault : List Finding → List Text → List Text → Option RequestFault
unfolding contains finding_at
selection_fault findings seen [] = none
selection_fault findings seen (id ∷ ids) =
    let rest = selection_fault findings (id ∷ seen) ids in
    if is_blank id
    then some selection_blank
    else if not (is_some (finding_at id findings))
    then some selection_unknown
    else if contains id seen
    then some selection_duplicate
    else rest

-- The keys of a set that holds `ids`
unfoldable pub unique_texts : List Text → List Text
unfolding contains
unique_texts [] = []
unique_texts (id ∷ ids) =
    let rest = unique_texts ids in if contains id rest then rest else id ∷ rest

-- The set `selected`
unfoldable pub selected_ids : Selection → List Finding → List Text
unfolding unique_texts eligible_ids
selected_ids s findings =
    unique_texts ((if s.include_eligible then eligible_ids findings else []) ++ s.point_ids)

abbrev pub sorted_selection : List Text → Validated
sorted_selection ids =
    if (length ids == 0) || ltb 100 (length ids)
    then faulty selection_unbounded
    else selected (sort text_lt ids)

abbrev pub or_fault : Option RequestFault → Validated → Validated
or_fault none next = next
or_fault (some f) next = faulty f

-- validateRequest
module _ (batch_id : SavedManifest → Text) (valid_digest : Text → Bool) where
  -- The tests before the first loop; none means that all are passed.
  unfoldable pub manifest_fault : SavedManifest → Text → Option RequestFault
  manifest_fault saved collection =
      let m = saved.manifest in
      if not (saved.schema_version == 1) || not (text_eq saved.policy_version (text "1.0.0"))
      then some versions_incompatible
      else if not m.is_complete || is_blank m.batch_id
      then some not_actionable
      else if not (text_eq m.collection collection)
      then some collection_incompatible
      else if (length m.findings == 0) || ltb 10000 (length m.findings)
      then some findings_unbounded
      else if not (is_some (parse_rfc3339 saved.reference_text))
      then some reference_invalid
      else if not (text_eq (batch_id saved) m.batch_id)
      then some batch_mismatch
      else none

  unfoldable pub validate_request : SavedManifest → Selection → Text → Validated
  unfolding manifest_fault findings_fault selection_fault selected_ids
  validate_request saved s collection =
      let fs = saved.manifest.findings in
      or_fault (manifest_fault saved collection) (
        or_fault (findings_fault valid_digest [] fs)
          (or_fault (selection_fault fs [] s.point_ids) (sorted_selection (selected_ids s fs))))
