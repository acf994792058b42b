-- ===== src/Maintenance/Service.antt =====
-- internal/memory/maintenance/service.go: the service that quarantines and restores the facts of a
-- saved manifest, with QuarantineMaintenance and RestoreMaintenance of internal/qdrant/client.go.
-- What lies outside (the point store behind HTTP, the request's context, the recall cache and the
-- journal file) is a `PointStore` over a state that is not looked into.
pub mod Laws
pub mod Verified
pub mod Reliable
use personal_memory.Prelude.{
  ◌&&◌, ◌==◌, Bool, List, Option, String, [], false, if◌then◌else◌, none, not, some, true, ◌||◌,
  ◌∷◌,
}
use personal_memory.Go.Json.{Fields, Value, delete, get, set, str, field, end}
use personal_memory.Go.Text.{Text, text, text_eq}
use personal_memory.Go.Time.{Instant, midnight, parse_rfc3339}
use personal_memory.Lifecycle.Model.{is_some}
use personal_memory.Lifecycle.Parse.{has_key}
use personal_memory.Maintenance.Classify.{
  Finding, ScrollPoint, contains_class, class_malformed, class_expired, class_already_quarantined,
  class_superseded_retention,
}
use personal_memory.Maintenance.Request.{
  finding_at, RequestFault, SavedManifest, Selection, validate_request, faulty, selected,
}
use personal_memory.Maintenance.Status.{
  is_active_status, is_quarantined_status, is_trimmed, parse_status, string_at, active_text,
}
use personal_memory.Recall.Cache.{store}

pub data Operation : Type 0 where
  quarantine restore purge : Operation

-- OutcomeStatus
pub data OutcomeStatus : Type 0 where
  updated deleted pending dispatching already_applied : OutcomeStatus
  not_found protected_or_ineligible conflict failed ambiguous : OutcomeStatus

pub record PointOutcome : Type 0 where
  pub point_id : Text
  pub status : OutcomeStatus

-- Result, without its two version constants and the identity of a snapshot, which run leaves empty
pub record Result : Type 0 where
  pub batch_id : Text
  pub operation : Operation
  pub outcomes : List PointOutcome
  pub timestamp : Text

-- How run ends: the request is refused, or there is a result and whether its journal is kept.
pub data RunEnd : Type 0 where
  rejected : RequestFault → RunEnd
  finished : Result → Bool → RunEnd

-- What Get returns: an error, no point, or a point.
pub data Reply : Type 0 where
  unread absent : Reply
  found : ScrollPoint → Reply

-- A call may change the state, and answers by it; the Bool of a write is whether its error is nil.
pub record PointStore : Type 1 where
  pub State : Type 0
  pub get_point : Text → State → Reply × State
  -- replacePayloadBatch: what is set, then the keys that are deleted
  pub replace_payload : Text → Fields → List String → State → Bool × State
  -- whether ctx.Err() is an error
  pub is_cancelled : State → Bool
  pub invalidate : State → State
  -- writeJournal; the first Bool is whether a cancelled request does not stop it
  pub write_journal : Bool → Text → Result → State → Bool × State

-- isEligibleFinding
unfoldable pub is_eligible_finding : Finding → Bool
unfolding contains_class
is_eligible_finding f =
    (f.eligible_for_quarantine && not f.is_protected)
    && ((not (contains_class class_malformed f.classes)
          && not (contains_class class_already_quarantined f.classes))
        && (contains_class class_expired f.classes
            || contains_class class_superseded_retention f.classes))

-- quarantineReason
unfoldable pub quarantine_reason : Finding → Text
unfolding contains_class
quarantine_reason f =
    if contains_class class_expired f.classes then text "expired" else text "superseded_retention"

-- A copy of the payload without the keys of maintenancePayloadKeysForService
unfoldable pub without_maintenance : Fields → Fields
without_maintenance p =
    delete "maintenance_status"
      (delete "quarantined_at" (delete "quarantine_reason" (delete "quarantine_batch_id" p)))

-- The payload that QuarantineMaintenance sets
abbrev pub quarantine_fields : Text → Text → Text → Fields
quarantine_fields at reason batch = field "maintenance_status" (str (text "quarantined")) (
    field "quarantined_at" (str at)
      (field "quarantine_reason" (str reason) (field "quarantine_batch_id" (str batch) end)))

abbrev pub metadata_keys : List String
metadata_keys = "quarantined_at" ∷ "quarantine_reason" ∷ "quarantine_batch_id" ∷ []

-- The zero time.Time
abbrev pub zero_time : Instant
zero_time = midnight (record { year = 1; month = 1; day = 1 })

abbrev pub is_store_reason : Text → Bool
is_store_reason r = text_eq r (text "expired") || text_eq r (text "superseded_retention")

abbrev pub is_active_text : Option Text → Bool
is_active_text none = false
is_active_text (some t) = text_eq t (text "active")

-- `s.CollectionName()`, the digests and time.Format are arguments.
module _ (store : PointStore) (fingerprint : ScrollPoint → Text) (format : Instant → Text) where
  open store use {State, get_point, replace_payload, is_cancelled, invalidate, write_journal}

  -- matchesFinding
  unfoldable pub matches_finding : ScrollPoint → Finding → Bool → Bool
  unfolding without_maintenance
  matches_finding p f allow_projection =
      let bare = without_maintenance p.payload in
      text_eq (fingerprint p) f.fingerprint
      || (allow_projection
          && (text_eq (fingerprint (record p { payload = bare })) f.fingerprint
              || text_eq
                  (fingerprint (record p { payload = set "maintenance_status" active_text bare }))
                  f.fingerprint))

  -- QuarantineMaintenance
  unfoldable pub quarantine_maintenance : Text → Instant → Text → Text → State → Bool × State
  unfolding midnight
  quarantine_maintenance id at reason batch w =
      if not (is_trimmed id)
      then (false, w)
      else if at == zero_time
      then (false, w)
      else if not (is_some (parse_rfc3339 (format at)))
      then (false, w)
      else if not (is_store_reason reason)
      then (false, w)
      else if not (is_trimmed batch)
      then (false, w)
      else replace_payload id (quarantine_fields (format at) reason batch) [] w

  -- RestoreMaintenance
  unfoldable pub restore_maintenance : Text → State → Bool × State
  restore_maintenance id w =
      if not (is_trimmed id)
      then (false, w)
      else replace_payload id (field "maintenance_status" active_text end) metadata_keys w

  -- The tests of verifyQuarantine on the point that is read
  unfoldable pub is_quarantined_as : Finding → Text → Text → Text → Reply → Bool
  is_quarantined_as f at reason batch (found p) =
      let view = parse_status p.payload in
      text_eq p.id f.point_id
      && (matches_finding p f true
          && (view.valid
              && (is_quarantined_status view.status
                  && (text_eq view.quarantined_at at
                      && (text_eq view.quarantine_reason reason
                          && text_eq view.quarantine_batch_id batch)))))
  is_quarantined_as f at reason batch _ = false

  -- The tests of verifyRestore on the point that is read
  unfoldable pub is_restored : Finding → Reply → Bool
  is_restored f (found p) =
      let view = parse_status p.payload in
      text_eq p.id f.point_id
      && (matches_finding p f true
          && (view.valid
              && (is_active_status view.status
                  && (is_active_text (string_at (get "maintenance_status" p.payload))
                      && (not (has_key "quarantined_at" p.payload)
                          && (not (has_key "quarantine_reason" p.payload)
                              && not (has_key "quarantine_batch_id" p.payload)))))))
  is_restored f _ = false

  -- After a write was dispatched: verifyQuarantine or verifyRestore reads the point again.
  abbrev pub verified : (Reply → Bool) → Text → Bool × State → OutcomeStatus × Bool × State
  verified test id (false, w) = (ambiguous, true, w)
  verified test id (true, w) =
      let (r, w') = get_point id w in if test r then (updated, true, w') else (ambiguous, true, w')

  -- The case OperationQuarantine of apply, once the point is read and its view is valid
  unfoldable pub apply_quarantine :
      Finding → Text → Text → ScrollPoint → State → OutcomeStatus × Bool × State
  apply_quarantine f batch at p w =
      let view = parse_status p.payload in
      let reason = quarantine_reason f in
      if is_quarantined_status view.status
      then (if text_eq view.quarantine_batch_id batch
            && (text_eq view.quarantine_reason reason && matches_finding p f true)
          then (already_applied, false, w)
          else (conflict, false, w))
      else if not (matches_finding p f false)
      then (conflict, false, w)
      else elim (parse_rfc3339 at) [
        | none ↦ (failed, false, w)
        | some t ↦
            verified (is_quarantined_as f at reason batch) f.point_id
              (quarantine_maintenance f.point_id t reason batch w)
      ]

  -- The case OperationRestore of apply
  unfoldable pub apply_restore : Finding → Text → ScrollPoint → State → OutcomeStatus × Bool × State
  apply_restore f batch p w =
      let view = parse_status p.payload in
      if is_active_status view.status
      then (if matches_finding p f true then (already_applied, false, w) else (conflict, false, w))
      else if not (text_eq view.quarantine_batch_id batch)
          || (not (text_eq view.quarantine_reason (quarantine_reason f))
              || not (matches_finding p f true))
      then (conflict, false, w)
      else verified (is_restored f) f.point_id (restore_maintenance f.point_id w)

  abbrev pub apply_operation :
      Operation → Finding → Text → Text → ScrollPoint → State → OutcomeStatus × Bool × State
  apply_operation quarantine f batch at p w = apply_quarantine f batch at p w
  apply_operation restore f batch at p w = apply_restore f batch p w
  apply_operation purge f batch at p w = (failed, false, w)

  abbrev pub apply_read :
      Operation → Finding → Text → Text → Reply → State → OutcomeStatus × Bool × State
  apply_read op f batch at unread w = (failed, false, w)
  apply_read op f batch at absent w = (not_found, false, w)
  apply_read op f batch at (found p) w =
      if not (text_eq p.id f.point_id)
      then (not_found, false, w)
      else if not (parse_status p.payload).valid
      then (conflict, false, w)
      else apply_operation op f batch at p w

  -- The outcome of a finding, and whether a mutation was dispatched
  unfoldable pub apply : Operation → Finding → Text → Text → State → OutcomeStatus × Bool × State
  apply op f batch at w =
      if not (is_eligible_finding f)
      then (protected_or_ineligible, false, w)
      else (let (r, w') = get_point f.point_id w in apply_read op f batch at r w')

  abbrev apply_at : Operation → Option Finding → Text → Text → State → OutcomeStatus × Bool × State
  apply_at op none batch at w = (protected_or_ineligible, false, w)
  apply_at op (some f) batch at w = apply op f batch at w

  -- The loop of run. A selected id is that of a finding; for another the zero Finding is applied.
  unfoldable pub apply_all :
      Operation → List Finding → Text → Text → List Text → State → List PointOutcome × Bool × State
  apply_all op fs batch at [] w = ([], false, w)
  apply_all op fs batch at (id ∷ ids) w =
      let (o, d, w') =
        if is_cancelled w then (failed, false, w) else apply_at op (finding_at id fs) batch at w in
      let (os, ds, w'') = apply_all op fs batch at ids w' in
      (record { point_id = id; status = o } ∷ os, d || ds, w'')

  -- The journal is written only if a path is named; the second result is whether that succeeded.
  abbrev write_result : Text → Bool → Result → State → Bool × State
  write_result [] dispatched r w = (true, w)
  write_result (c ∷ path) dispatched r w = write_journal dispatched (c ∷ path) r w

  -- run, at the time `now`; the request is the saved manifest, the selection and the journal's path.
  unfoldable pub run :
      (SavedManifest → Text)
      → (Text → Bool)
      → Text
      → Operation
      → SavedManifest
      → Selection
      → Text
      → Instant
      → State
      → RunEnd × State
  run batch_digest valid_digest collection op saved s path now w =
      let m = saved.manifest in
      elim (validate_request batch_digest valid_digest saved s collection) [
        | faulty e ↦ (rejected e, w)
        | selected ids ↦
            let (os, dispatched, w') = apply_all op m.findings m.batch_id (format now) ids w in
            let result : Result = record {
              batch_id = m.batch_id;
              operation = op;
              outcomes = os;
              timestamp = format now;
            } in
            let (written, w'') =
              write_result path dispatched result (if dispatched then invalidate w' else w') in
            (finished result written, w'')
      ]
