-- ===== src/Maintenance/Status/Laws.antt =====
-- Which payloads Parse of internal/memory/maintenance/model.go reads as active and as quarantined.
use personal_memory.Go.Json.{str, Fields, Value, null, bool, number, float, arr, strs, obj, get}
use personal_memory.Maintenance.Status.{
  active, quarantined, string_at, has_metadata, invalid_status, is_active_status, parse_status,
  status_of_text, with_batch, with_reason, with_time, is_known_reason, is_trimmed, plain_view,
  active_text,
}
use personal_memory.Prelude.{
  ◌&&◌, Bool-cases, Option, String, arith, false, inl, inr, none, not, refl, some, true, ◌≡◌, Bool,
  ap, ◌||◌,
}
use personal_memory.Go.Text.{Text, text, text_eq}
use personal_memory.Lifecycle.Parse.{has_key}
use personal_memory.Lifecycle.Model.{is_some}
use package.text.Mathlib.Text.{◌==◌ as str_eq}
use package.text.Mathlib.TextEquality.{eq_iff}
use personal_memory.Go.Time.{parse_rfc3339}
use personal_memory.Go.Text.Laws.{text_eq_iff}

-- The keys of maintenancePayloadKeysForService
abbrev pub is_maintenance_key : String → Bool
is_maintenance_key k =
    str_eq "maintenance_status" k
    || (str_eq "quarantined_at" k
        || (str_eq "quarantine_reason" k || str_eq "quarantine_batch_id" k))

-- A payload of a fact that is not quarantined, with or without an explicit status.
pub data IsActivePayload (p : Fields) : Type 0 where
  unmarked : ((k : String) → is_maintenance_key k ≡ true → get k p ≡ none) → IsActivePayload p
  marked :
      get "maintenance_status" p ≡ some active_text
      → get "quarantined_at" p ≡ none
      → get "quarantine_reason" p ≡ none
      → get "quarantine_batch_id" p ≡ none
      → IsActivePayload p

string_at-some : (o : Option Value) {t : Text} → string_at o ≡ some t → o ≡ some (str t)
string_at-some none h = cc
string_at-some (some (str t)) h = cc
string_at-some (some null) h = cc
string_at-some (some (bool _)) h = cc
string_at-some (some (number _)) h = cc
string_at-some (some (float _)) h = cc
string_at-some (some (arr _)) h = cc
string_at-some (some (strs _)) h = cc
string_at-some (some (obj _)) h = cc

with_batch-status :
    (at r : Text) (b : Option Text) → is_active_status (with_batch at r b).status ≡ false
unfolding invalid_status
with_batch-status at r none = refl
with_batch-status at r (some b) = ground arith

with_reason-status :
    (at : Text) (r b : Option Text) → is_active_status (with_reason at r b).status ≡ false
unfolding invalid_status
with_reason-status at none b = refl
with_reason-status at (some r) b = ground (arith, with_batch-status at r b)

with_time-status : (a r b : Option Text) → is_active_status (with_time a r b).status ≡ false
unfolding invalid_status
with_time-status none r b = refl
with_time-status (some a) r b = ground (arith, with_reason-status a r b)

is_some-false : (o : Option Value) → is_some o ≡ false → o ≡ none
is_some-false none h = refl
is_some-false (some v) h = cc

unmarked_none :
    (p : Fields)
    → (not (has_key "maintenance_status" p) && not (has_metadata p)) ≡ true
    → (k : String) → is_maintenance_key k ≡ true
    → get k p ≡ none
unfolding has_key
unmarked_none p h k m = ground (
  arith,
  eq_iff "maintenance_status" k,
  eq_iff "quarantined_at" k,
  eq_iff "quarantine_reason" k,
  eq_iff "quarantine_batch_id" k,
  is_some-false (get "maintenance_status" p),
  is_some-false (get "quarantined_at" p),
  is_some-false (get "quarantine_reason" p),
  is_some-false (get "quarantine_batch_id" p),
)

status_of_text-active :
    (p : Fields) (o : Option Text)
    → is_active_status (status_of_text p o).status ≡ true
    → (o ≡ some (text "active")) × (has_metadata p ≡ false)
unfolding invalid_status
status_of_text-active p none h = cc
status_of_text-active p (some t) h = elim (Bool-cases (text_eq t (text "active"))) [
  | inl e ↦ (ap some ((text_eq_iff t (text "active")).0 e), ground arith)
  | inr e ↦ absurd (
      ground (
        arith,
        with_time-status (string_at (get "quarantined_at" p))
            (string_at (get "quarantine_reason" p)) (string_at (get "quarantine_batch_id" p)),
      ))
]

-- A payload whose status is read as active has one of the two shapes.
pub parse_status-IsActivePayload :
    (p : Fields) → is_active_status (parse_status p).status ≡ true → IsActivePayload p
unfolding parse_status has_key
parse_status-IsActivePayload p h =
    elim (Bool-cases (not (has_key "maintenance_status" p) && not (has_metadata p))) [
      | inl e ↦ unmarked (unmarked_none p e)
      | inr e ↦
          let (t, m) =
            status_of_text-active p (string_at (get "maintenance_status" p))
              (rw (e, parse_status) at h) in
          marked (string_at-some (get "maintenance_status" p) t) (is_some-false _ (ground arith))
            (is_some-false _ (ground arith)) (is_some-false _ (ground arith))
    ]

-- A payload with the four values of a quarantine.
pub record IsQuarantinedPayload (at reason batch : Text) (q : Fields) : Type 0 where
  pub marks : get "maintenance_status" q ≡ some (str (text "quarantined"))
  pub dates : get "quarantined_at" q ≡ some (str at)
  pub reasons : get "quarantine_reason" q ≡ some (str reason)
  pub batches : get "quarantine_batch_id" q ≡ some (str batch)

pub parse_status-quarantined :
    (at reason batch : Text) (q : Fields)
    → is_some (parse_rfc3339 at) ≡ true
    → is_trimmed reason ≡ true
    → is_known_reason reason ≡ true
    → is_trimmed batch ≡ true
    → IsQuarantinedPayload at reason batch q
    → parse_status q ≡ record (plain_view quarantined false) {
      quarantined_at = at;
      quarantine_reason = reason;
      quarantine_batch_id = batch;
    }
unfolding parse_status has_key text_eq
parse_status-quarantined at reason batch q a r k b w =
    rw (w.marks, w.dates, w.reasons, w.batches) (rw a (rw k (rw r (rw b refl))))

-- A payload that restore leaves.
pub record IsRestoredPayload (q : Fields) : Type 0 where
  pub marks : get "maintenance_status" q ≡ some active_text
  pub undated : get "quarantined_at" q ≡ none
  pub unreasoned : get "quarantine_reason" q ≡ none
  pub unbatched : get "quarantine_batch_id" q ≡ none

pub parse_status-restored :
    (q : Fields) → IsRestoredPayload q → parse_status q ≡ plain_view active false
unfolding parse_status has_key text_eq
parse_status-restored q r = rw (r.marks, r.undated, r.unreasoned, r.unbatched) refl
