-- ===== src/Maintenance/Analyze.antt =====
-- internal/memory/maintenance/analyze.go: Analyze. The snapshot of the policy, which repeats the
-- options in seconds, is left out of the manifest, and so are its two version constants.
use mathlib.Core.List.{Perm, filter}
use personal_memory.Prelude.{
  ◌&&◌, ◌+◌, ◌++◌, Bool, List, Option, [], false, if◌then◌else◌, length, ltb, map, none, refl, some,
  true, ◌||◌, ℕ, ◌∷◌, ◌≡◌, Bool-cases, inl, inr, subst,
}
use personal_memory.Maintenance.Classify.{Finding, ScrollPoint, classify, string_value}
use personal_memory.Go.Float.{Float}
use personal_memory.Go.Time.{Instant}
use personal_memory.Go.Sort.{IsSorted, sort, sort-IsSorted, sort-perm}
use personal_memory.Maintenance.Status.{
  MaintenanceOptions, OptionFault, validate_options, no_reference_time,
}
use personal_memory.Go.Text.{Text, is_empty, text_eq, text_lt}
use personal_memory.Go.Text.Laws.{text_lt_asymm, text_lt_negtrans}
use personal_memory.Go.Json.{get}
use personal_memory.Go.Int.{ℤ}

pub record Manifest : Type 0 where
  pub batch_id : Text
  pub collection : Text
  pub namespace : Text
  pub reference_time : Instant
  pub is_complete : Bool
  pub scanned : ℕ
  pub findings : List Finding

-- What ScrollAll returns.
pub data Scan : Type 0 where
  scan_failed : Scan
  scanned_points : List ScrollPoint → Scan

pub data Analysis : Type 0 where
  bad_options : OptionFault → Analysis
  scan_error : Analysis
  analysed : Manifest → Analysis

abbrev key_of : Text → Text → Option Text
key_of namespace [] = none
key_of namespace (c ∷ t) = some (namespace ++ (0 ∷ (c ∷ t)))

-- The key of textIDs that a point is put under, if any.
abbrev pub text_key : ScrollPoint → Option Text
text_key p = key_of (string_value (get "namespace" p.payload)) (string_value (get "text" p.payload))

abbrev has_text_key : Text → Option Text → Bool
has_text_key k none = false
has_text_key k (some j) = text_eq j k

-- len(textIDs[k])
unfoldable pub count_key : Text → List ScrollPoint → ℕ
count_key k [] = 0
count_key k (p ∷ ps) =
    let rest = count_key k ps in if has_text_key k (text_key p) then rest + 1 else rest

abbrev is_repeated : Option Text → List ScrollPoint → Bool
is_repeated none points = false
is_repeated (some k) points = ltb 1 (count_key k points)

-- duplicateIDs[id], for the points still to be looked at
unfoldable pub is_duplicate : List ScrollPoint → Text → List ScrollPoint → Bool
unfolding count_key
is_duplicate points id [] = false
is_duplicate points id (p ∷ ps) =
    (text_eq p.id id && is_repeated (text_key p) points) || is_duplicate points id ps

abbrev pub has_classes : Finding → Bool
has_classes f = elim f.classes [ [] ↦ false | c ∷ cs ↦ true ]

abbrev pub finding_less : Finding → Finding → Bool
finding_less a b = text_lt a.point_id b.point_id

abbrev pub has_classes_dec : (t : Bool) → Dec (t ≡ true)
has_classes_dec true = yes refl
has_classes_dec false = no (λ h. cc)

-- The findings that have a class
abbrev pub with_classes : List Finding → List Finding
with_classes fs = filter {p = λ f. has_classes f ≡ true} (λ f. has_classes_dec (has_classes f)) fs

module _ (int_of : Float → ℤ) (fingerprint : ScrollPoint → Text) (batch_id : Manifest → Text) where
  abbrev pub finding_of : Instant → MaintenanceOptions → List ScrollPoint → ScrollPoint → Finding
  finding_of reference o points p =
      classify int_of fingerprint (map (λ q. q.id) points) (is_empty o.namespace)
        (is_duplicate points p.id points) reference o p

  -- The loop that classifies.
  unfoldable pub findings_of :
      Instant → MaintenanceOptions → List ScrollPoint → List ScrollPoint → List Finding
  unfolding classify is_duplicate
  findings_of reference o points [] = []
  findings_of reference o points (p ∷ ps) =
      let rest = findings_of reference o points ps in
      let f = finding_of reference o points p in if has_classes f then f ∷ rest else rest

  -- The order of findings with the same id, which sort.Slice leaves open, is that of the scan.
  unfoldable pub manifest_of : Instant → MaintenanceOptions → List ScrollPoint → Manifest
  unfolding findings_of
  manifest_of reference o points =
      let m : Manifest = record {
        batch_id = [];
        collection = o.collection;
        namespace = o.namespace;
        reference_time = reference;
        is_complete = true;
        scanned = length points;
        findings = sort finding_less (findings_of reference o points points);
      } in
      record m { batch_id = batch_id m }

  abbrev pub analysis_of_scan : Option Instant → MaintenanceOptions → Scan → Analysis
  analysis_of_scan none o scan = bad_options no_reference_time
  analysis_of_scan (some reference) o scan_failed = scan_error
  analysis_of_scan (some reference) o (scanned_points points) =
      analysed (manifest_of reference o points)

  abbrev pub analysis_of : Option OptionFault → MaintenanceOptions → Scan → Analysis
  analysis_of (some f) o scan = bad_options f
  analysis_of none o scan = analysis_of_scan o.reference_time o scan

  -- Analyze, for a context that is not cancelled. The options that pass have a reference time.
  unfoldable pub analyze : MaintenanceOptions → Scan → Analysis
  unfolding manifest_of validate_options
  analyze o scan = analysis_of (validate_options o) o scan

  -- The loop leaves out the findings without a class, and no other.
  findings_of-with_classes :
      (reference : Instant) (o : MaintenanceOptions) (points ps : List ScrollPoint)
      → findings_of reference o points ps ≡ with_classes (map (finding_of reference o points) ps)
  unfolding findings_of
  findings_of-with_classes reference o points [] = refl
  findings_of-with_classes reference o points (p ∷ ps) =
      let ih = findings_of-with_classes reference o points ps in
      elim (Bool-cases (has_classes (finding_of reference o points p))) [
        | inl e ↦ rw (e, ih) refl
        | inr e ↦ rw (e, ih) refl
      ]

  -- The manifest of an analysis: complete, with the options that it was made for and under the id
  -- of its content; it counts the points, and its findings, by point id, are those of the points
  -- that have a class, each as often as there is such a point.
  pub record IsManifest (o : MaintenanceOptions) (reference : Instant) (points : List ScrollPoint)
      (m : Manifest) : Type 0 where
    pub complete : m.is_complete ≡ true
    pub of_collection : m.collection ≡ o.collection
    pub of_namespace : m.namespace ≡ o.namespace
    pub at_reference : m.reference_time ≡ reference
    pub identified : m.batch_id ≡ batch_id (record m { batch_id = [] })
    pub counted : m.scanned ≡ length points
    pub ordered : IsSorted finding_less m.findings
    pub exactly : Perm m.findings (with_classes (map (finding_of reference o points) points))

  -- Options that pass and a scan that succeeds give a manifest: it is complete and counts the
  -- scanned points, and its findings are those of the points that have a class, each as often as
  -- there is such a point, in the order of the point ids.
  pub analyze-IsManifest :
      (o : MaintenanceOptions) (reference : Instant) (points : List ScrollPoint)
      → validate_options o ≡ none
      → o.reference_time ≡ some reference
      → (m : Manifest) × (analyze o (scanned_points points) ≡ analysed m)
        × IsManifest o reference points m
  unfolding analyze manifest_of
  analyze-IsManifest o reference points v t = (
    manifest_of reference o points,
    rw (v, t) refl,
    record {
      complete = refl;
      of_collection = refl;
      of_namespace = refl;
      at_reference = refl;
      identified = refl;
      counted = refl;
      ordered =
          sort-IsSorted finding_less (λ a b. text_lt_asymm a.point_id b.point_id)
            (λ a b c. text_lt_negtrans a.point_id b.point_id c.point_id)
            (findings_of reference o points points);
      exactly =
          subst (Perm (sort finding_less (findings_of reference o points points)))
            (findings_of-with_classes reference o points points)
            (sort-perm finding_less (findings_of reference o points points));
    },
  )
