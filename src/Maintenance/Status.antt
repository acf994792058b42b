-- ===== src/Maintenance/Status.antt =====
-- internal/memory/maintenance/model.go: Parse, IsActive, IsQuarantined and ValidateOptions.
pub mod Laws
use personal_memory.Lifecycle.Parse.{has_key}
use personal_memory.Prelude.{
  ◌&&◌, Bool, Option, [], false, if◌then◌else◌, leb, none, not, some, true, ◌||◌, ℕ,
}
use personal_memory.Go.Json.{Fields, Value, get, str}
use personal_memory.Go.Time.{Instant, parse_rfc3339}
use personal_memory.Go.Text.{Text, is_empty, text, text_eq, trim_space}
use personal_memory.Lifecycle.Model.{is_some}
use personal_memory.Go.Int.{ℤ, pos, negsuc}

-- A Go string of type Status; `no_status` is the empty string of an invalid view.
pub data Status : Type 0 where
  active quarantined no_status : Status

pub data Fault : Type 0 where
  status_malformed active_with_metadata quarantined_at_malformed : Fault
  quarantine_reason_empty quarantine_reason_unknown batch_id_empty : Fault

-- View of this package
pub record StatusView : Type 0 where
  pub status : Status
  pub legacy : Bool
  pub valid : Bool
  pub fault : Option Fault
  pub quarantined_at : Text
  pub quarantine_reason : Text
  pub quarantine_batch_id : Text

abbrev pub plain_view : Status → Bool → StatusView
plain_view s legacy = record {
  status = s;
  legacy = legacy;
  valid = true;
  fault = none;
  quarantined_at = [];
  quarantine_reason = [];
  quarantine_batch_id = [];
}

-- invalid
unfoldable pub invalid_status : Fault → StatusView
invalid_status f = record (plain_view no_status false) { valid = false; fault = some f }

-- The second result of `v, ok := payload[k].(string)` as the Option
abbrev pub string_at : Option Value → Option Text
string_at (some (str t)) = some t
string_at _ = none

abbrev pub active_text : Value
active_text = str (text "active")

-- Not blank, and without blanks around it.
abbrev pub is_trimmed : Text → Bool
is_trimmed t = not (is_empty (trim_space t)) && text_eq (trim_space t) t

-- quarantineReasons
unfoldable pub is_known_reason : Text → Bool
is_known_reason t =
    text_eq t (text "expired")
    || (text_eq t (text "superseded_retention") || text_eq t (text "operator_selected"))

abbrev pub with_batch : Text → Text → Option Text → StatusView
with_batch at reason none = invalid_status batch_id_empty
with_batch at reason (some batch) =
    if is_trimmed batch
    then record (plain_view quarantined false) {
      quarantined_at = at;
      quarantine_reason = reason;
      quarantine_batch_id = batch;
    }
    else invalid_status batch_id_empty

abbrev pub with_reason : Text → Option Text → Option Text → StatusView
with_reason at none batch = invalid_status quarantine_reason_empty
with_reason at (some reason) batch =
    if not (is_trimmed reason)
    then invalid_status quarantine_reason_empty
    else if not (is_known_reason reason)
    then invalid_status quarantine_reason_unknown
    else with_batch at reason batch

abbrev pub with_time : Option Text → Option Text → Option Text → StatusView
with_time none reason batch = invalid_status quarantined_at_malformed
with_time (some at) reason batch =
    if is_some (parse_rfc3339 at)
    then with_reason at reason batch
    else invalid_status quarantined_at_malformed

abbrev pub has_metadata : Fields → Bool
has_metadata p =
    has_key "quarantined_at" p || (has_key "quarantine_reason" p || has_key "quarantine_batch_id" p)

abbrev pub status_of_text : Fields → Option Text → StatusView
status_of_text p none = invalid_status status_malformed
status_of_text p (some t) =
    if text_eq t (text "active")
    then (if has_metadata p then invalid_status active_with_metadata else plain_view active false)
    else if text_eq t (text "quarantined")
    then with_time (string_at (get "quarantined_at" p)) (string_at (get "quarantine_reason" p))
        (string_at (get "quarantine_batch_id" p))
    else invalid_status status_malformed

-- Parse of this package. Neither of the two texts has blanks around it.
unfoldable pub parse_status : Fields → StatusView
unfolding invalid_status is_known_reason has_key
parse_status p =
    if not (has_key "maintenance_status" p) && not (has_metadata p)
    then plain_view active true
    else status_of_text p (string_at (get "maintenance_status" p))

abbrev pub is_active_status : Status → Bool
is_active_status active = true
is_active_status _ = false

abbrev pub is_quarantined_status : Status → Bool
is_quarantined_status quarantined = true
is_quarantined_status _ = false

-- IsActive
unfoldable pub is_active : Fields → Bool
unfolding parse_status
is_active p = (parse_status p).valid && is_active_status (parse_status p).status

-- IsQuarantined
unfoldable pub is_quarantined : Fields → Bool
unfolding parse_status
is_quarantined p = (parse_status p).valid && is_quarantined_status (parse_status p).status

-- Options of analyze.go. A duration counts nanoseconds; the negative ones, which ValidateOptions
-- refuses with 0, are not represented, and the zero time stands as none.
pub record MaintenanceOptions : Type 0 where
  pub collection : Text
  pub namespace : Text
  pub reference_time : Option Instant
  pub superseded_retention : ℕ
  pub stale_after : ℕ
  pub low_recall_threshold : ℤ

pub data OptionFault : Type 0 where
  no_collection no_reference_time no_retention negative_threshold : OptionFault

abbrev pub is_negative : ℤ → Bool
is_negative (pos n) = false
is_negative (negsuc n) = true

-- ValidateOptions; none is the nil error.
unfoldable pub validate_options : MaintenanceOptions → Option OptionFault
validate_options o =
    if is_empty (trim_space o.collection)
    then some no_collection
    else if not (is_some o.reference_time)
    then some no_reference_time
    else if leb o.superseded_retention 0 || leb o.stale_after 0
    then some no_retention
    else if is_negative o.low_recall_threshold
    then some negative_threshold
    else none
