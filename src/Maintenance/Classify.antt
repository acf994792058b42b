-- ===== src/Maintenance/Classify.antt =====
-- internal/memory/maintenance/analyze.go: classify and Analyze.
--
-- The conversion of a float to an int, whose result Go leaves open out of range, and the digests of
-- crypto/sha256 are arguments, `int_of`, `fingerprint` and `batch_id`. A scan is its points.
pub mod Laws
use personal_memory.Lifecycle.Model.{
  disputed, State, View, contains, is_current, is_some, is_superseded, state_text,
}
use personal_memory.Prelude.{
  ◌&&◌, ◌+◌, ◌++◌, ◌==◌, Bool, List, Option, [], false, if◌then◌else◌, ltb, none, not, some, true,
  ◌||◌, ℕ, ◌∷◌,
}
use personal_memory.Go.Json.{Fields, Value, get, str, bool, float}
use personal_memory.Go.Float.{Float}
use personal_memory.Go.Time.{Instant, day_start, parse_rfc3339}
use personal_memory.Maintenance.Status.{
  MaintenanceOptions, Status, is_active_status, is_quarantined_status, parse_status, no_status,
}
use personal_memory.Go.Text.{Text, is_empty}
use personal_memory.Go.Int.{int_leb, ℤ, pos}
use personal_memory.Lifecycle.Parse.{lifecycle_view}
use personal_memory.Recall.Options.{parse_calendar_date}
use personal_memory.Go.Sort.{sort}

pub data CandidateClass : Type 0 where
  class_expired class_superseded_retention class_duplicate class_stale_unused : CandidateClass
  class_malformed class_protected class_already_quarantined : CandidateClass

-- The place of a class's text in the order of texts.
abbrev pub class_order : CandidateClass → ℕ
class_order class_already_quarantined = 0
class_order class_duplicate = 1
class_order class_expired = 2
class_order class_malformed = 3
class_order class_protected = 4
class_order class_stale_unused = 5
class_order class_superseded_retention = 6

abbrev pub same_class : CandidateClass → CandidateClass → Bool
same_class a b = class_order a == class_order b

-- contains
unfoldable pub contains_class : CandidateClass → List CandidateClass → Bool
contains_class c [] = false
contains_class c (d ∷ ds) = same_class d c || contains_class c ds

-- The loop of uniqueSorted; `seen` holds the classes before this one.
unfoldable pub unique_classes : List CandidateClass → List CandidateClass → List CandidateClass
unfolding contains_class
unique_classes seen [] = []
unique_classes seen (c ∷ cs) =
    let rest = unique_classes (c ∷ seen) cs in if contains_class c seen then rest else c ∷ rest

abbrev pub class_less : CandidateClass → CandidateClass → Bool
class_less a b = ltb (class_order a) (class_order b)

-- uniqueSorted
unfoldable pub unique_sorted : List CandidateClass → List CandidateClass
unfolding unique_classes
unique_sorted cs = sort class_less (unique_classes [] cs)

-- qdrant.ScrollPoint
pub record ScrollPoint : Type 0 where
  pub id : Text
  pub payload : Fields

pub record Finding : Type 0 where
  pub point_id : Text
  pub classes : List CandidateClass
  pub lifecycle_state : Text
  pub maintenance_status : Status
  pub lifecycle_transitioned_at : Text
  pub created_at : Text
  pub updated_at : Text
  pub valid_until : Text
  pub quarantined_at : Text
  pub is_protected : Bool
  pub eligible_for_quarantine : Bool
  pub fingerprint : Text

-- stringValue
abbrev pub string_value : Option Value → Text
string_value (some (str t)) = t
string_value _ = []

-- boolValue
abbrev pub bool_value : Option Value → Bool
bool_value (some (bool b)) = b
bool_value _ = false

-- recallCount; a stored payload, which is decoded JSON, holds no int.
abbrev pub recall_count : (Float → ℤ) → Option Value → ℤ
recall_count int_of (some (float x)) = int_of x
recall_count int_of _ = pos 0

-- A value that is present, but is no filled string.
abbrev pub is_bad_string : Option Value → Bool
is_bad_string none = false
is_bad_string (some (str t)) = is_empty t
is_bad_string (some _) = true

abbrev pub is_bad_bool : Option Value → Bool
is_bad_bool none = false
is_bad_bool (some (bool b)) = false
is_bad_bool (some _) = true

abbrev pub is_bad_count : Option Value → Bool
is_bad_count none = false
is_bad_count (some (float x)) = false
is_bad_count (some _) = true

-- The loop over the keys that hold strings, and the two tests after it.
unfoldable pub has_bad_value : Fields → Bool
has_bad_value p =
    is_bad_string (get "namespace" p)
    || (is_bad_string (get "created_at" p)
        || (is_bad_string (get "updated_at" p)
            || (is_bad_string (get "valid_until" p)
                || (is_bad_string (get "lifecycle_transitioned_at" p)
                    || (is_bad_bool (get "permanent" p) || is_bad_count (get "recall_count" p))))))

-- `text != "" && !ok`
abbrev pub is_unparsed {ℓ} : {A : Type ℓ} → Text → Option A → Bool
is_unparsed t r = not (is_empty t) && not (is_some r)

abbrev pub is_after_day : Option Instant → Instant → Bool
is_after_day none reference = false
is_after_day (some day) reference = ltb day (day_start reference)

-- `!options.ReferenceTime.Before(t.Add(wait))`
abbrev pub has_waited : Option Instant → ℕ → Instant → Bool
has_waited none wait reference = false
has_waited (some t) wait reference = not (ltb reference (t + wait))

abbrev pub is_disputed_state : State → Bool
is_disputed_state disputed = true
is_disputed_state _ = false

-- Some relationship leads to no scanned point.
unfoldable pub is_orphaned : List Text → List Text → Bool
unfolding contains
is_orphaned ids [] = false
is_orphaned ids (r ∷ rs) = not (contains r ids) || is_orphaned ids rs

-- f.Protected
unfoldable pub is_protected_fact : Fields → View → Bool
is_protected_fact p life =
    bool_value (get "permanent" p)
    || (life.valid && (is_disputed_state life.state || (is_current life.state && life.canonical)))

abbrev pub class_if : Bool → CandidateClass → List CandidateClass
class_if t c = if t then c ∷ [] else []

module _ (reference : Instant) (o : MaintenanceOptions) (p : Fields) (life : View) where
  unfoldable pub is_expired_fact : Bool
  unfolding parse_calendar_date day_start
  is_expired_fact =
      is_after_day (parse_calendar_date (string_value (get "valid_until" p))) reference

  unfoldable pub is_superseded_fact : Bool
  is_superseded_fact =
      life.valid
      && (is_superseded life.state
          && has_waited (parse_rfc3339 (string_value (get "lifecycle_transitioned_at" p)))
              o.superseded_retention reference)

  unfoldable pub is_stale_fact : (Float → ℤ) → Bool
  unfolding int_leb
  is_stale_fact int_of =
      has_waited (parse_rfc3339 (string_value (get "created_at" p))) o.stale_after reference
      && int_leb (recall_count int_of (get "recall_count" p)) o.low_recall_threshold

  -- malformed, after all that sets it
  unfoldable pub is_malformed_fact : List Text → Bool → Bool
  unfolding has_bad_value is_orphaned parse_status parse_calendar_date
  is_malformed_fact ids check_orphans =
      not (parse_status p).valid
      || (not life.valid
          || (has_bad_value p
              || (is_unparsed (string_value (get "valid_until" p))
                    (parse_calendar_date (string_value (get "valid_until" p)))
                  || ((life.valid
                        && (is_superseded life.state
                            && not (
                                is_some (
                                  parse_rfc3339
                                    (string_value (get "lifecycle_transitioned_at" p))))))
                      || (is_unparsed (string_value (get "created_at" p))
                            (parse_rfc3339 (string_value (get "created_at" p)))
                          || (is_unparsed (string_value (get "updated_at" p))
                                (parse_rfc3339 (string_value (get "updated_at" p)))
                              || (is_unparsed (string_value (get "lifecycle_transitioned_at" p)) (
                                    parse_rfc3339
                                      (string_value (get "lifecycle_transitioned_at" p)))
                                  || (check_orphans
                                      && (life.valid
                                          && is_orphaned ids
                                              (life.supersedes ++ life.superseded_by))))))))))

  -- f.Classes before uniqueSorted
  unfoldable pub classes_of : (Float → ℤ) → List Text → Bool → Bool → List CandidateClass
  unfolding is_expired_fact is_superseded_fact is_stale_fact is_malformed_fact is_protected_fact
  classes_of int_of ids check_orphans duplicate =
      class_if ((parse_status p).valid && is_quarantined_status (parse_status p).status)
        class_already_quarantined
      ++ (class_if is_expired_fact class_expired
          ++ (class_if is_superseded_fact class_superseded_retention
              ++ (class_if (is_stale_fact int_of) class_stale_unused
                  ++ (class_if duplicate class_duplicate
                      ++ (class_if (is_malformed_fact ids check_orphans) class_malformed
                          ++ class_if (is_protected_fact p life) class_protected)))))

  -- f.EligibleForQuarantine
  unfoldable pub is_eligible : Bool → List CandidateClass → Bool
  unfolding is_protected_fact parse_status contains_class
  is_eligible malformed classes =
      not (is_protected_fact p life)
      && ((parse_status p).valid
          && (is_active_status (parse_status p).status
              && (not malformed
                  && (contains_class class_expired classes
                      || contains_class class_superseded_retention classes))))

abbrev pub text_unless : Bool → Text → Text
text_unless true t = []
text_unless false t = t

-- classify
module _ (int_of : Float → ℤ) (fingerprint : ScrollPoint → Text) where
  unfoldable pub classify :
      List Text → Bool → Bool → Instant → MaintenanceOptions → ScrollPoint → Finding
  unfolding classes_of is_malformed_fact is_eligible unique_sorted lifecycle_view state_text
  classify ids check_orphans duplicate reference o point =
      let p = point.payload in
      let life = lifecycle_view point.id p in
      let malformed = is_malformed_fact reference o p life ids check_orphans in
      let classes =
        unique_sorted (classes_of reference o p life int_of ids check_orphans duplicate) in
      record {
        point_id = point.id;
        classes = classes;
        lifecycle_state = text_unless malformed (state_text life.state);
        maintenance_status = if malformed then no_status else (parse_status p).status;
        lifecycle_transitioned_at =
            text_unless malformed (string_value (get "lifecycle_transitioned_at" p));
        created_at = text_unless malformed (string_value (get "created_at" p));
        updated_at = text_unless malformed (string_value (get "updated_at" p));
        valid_until = text_unless malformed (string_value (get "valid_until" p));
        quarantined_at = text_unless malformed (parse_status p).quarantined_at;
        is_protected = is_protected_fact p life;
        eligible_for_quarantine = is_eligible reference o p life malformed classes;
        fingerprint = fingerprint point;
      }
