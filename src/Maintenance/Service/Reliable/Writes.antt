-- ===== src/Maintenance/Service/Reliable/Writes.antt =====
-- What quarantine and restore of internal/memory/maintenance/service.go write, and what is read back
-- from a point store that keeps it.
use package.text.Mathlib.Text.{◌==◌ as str_eq}
use personal_memory.Go.Json.{field, end, delete, Fields, get, set_all}
use personal_memory.Maintenance.Status.{
  active, active_text, is_known_reason, is_trimmed, parse_status,
}
use personal_memory.Maintenance.Service.{
  PointStore, Reply, is_eligible_finding, is_store_reason, metadata_keys, quarantine_fields,
  quarantine_reason, verified, zero_time, updated, found,
}
use personal_memory.Prelude.{
  ◌==◌, Bool, Bool-cases, List, String, ap, arith, false, inl, inr, none, refl, some, true, ◌∙◌,
  ◌≡◌, ◌≢◌, if◌then◌else◌, ◌||◌,
}
use personal_memory.Maintenance.Classify.{Finding, ScrollPoint, contains_class, class_expired}
use personal_memory.Go.Time.{Instant, parse_rfc3339}
use personal_memory.Maintenance.Status.Laws.{IsQuarantinedPayload, IsRestoredPayload}
use personal_memory.Maintenance.Service.Reliable.{IsReliable, SameFact, reply_of, delete_keys}
use personal_memory.Go.Text.{Text, text_eq, trim_space}
use personal_memory.Go.Json.Laws.{get-set_all, get-delete}

-- A finding of the payload `p` that may be quarantined at the time `now`, in a batch.
pub record IsTarget (fingerprint : ScrollPoint → Text) (format : Instant → Text) (f : Finding)
    (batch : Text) (now : Instant) (p : Fields) : Type 0 where
  pub eligible : is_eligible_finding f ≡ true
  pub trimmed_id : is_trimmed f.point_id ≡ true
  pub trimmed_batch : is_trimmed batch ≡ true
  pub seconds : Instant
  pub reads : parse_rfc3339 (format now) ≡ some seconds
  pub prints : format seconds ≡ format now
  pub dated : (seconds == zero_time) ≡ false
  pub is_found : fingerprint (record { id = f.point_id; payload = p }) ≡ f.fingerprint
  pub is_valid : (parse_status p).valid ≡ true
  pub is_active : (parse_status p).status ≡ active

pub quarantine_reason_known :
    (f : Finding)
    → (is_trimmed (quarantine_reason f) ≡ true)
      × (is_known_reason (quarantine_reason f) ≡ true)
      × (is_store_reason (quarantine_reason f) ≡ true)
unfolding quarantine_reason is_known_reason text_eq trim_space
quarantine_reason_known f = elim (Bool-cases (contains_class class_expired f.classes)) [
  | inl e ↦ rw e (refl, refl, refl)
  | inr e ↦ rw e (refl, refl, refl)
]

pub fields_quarantined :
    (at reason batch : Text) (p : Fields)
    → IsQuarantinedPayload at reason batch (set_all (quarantine_fields at reason batch) p)
unfolding get set_all
fields_quarantined at reason batch p = record {
  marks = refl;
  dates = refl;
  reasons = refl;
  batches = refl;
}

pub fields_same :
    (at reason batch : Text) (p : Fields)
    → SameFact p (set_all (quarantine_fields at reason batch) p)
fields_same at reason batch p k h =
    get-set_all k (quarantine_fields at reason batch) p ∙ unfold get in ground arith

get-delete_metadata :
    (k : String) (r : Fields)
    → get k (delete_keys metadata_keys r) ≡ (
        if str_eq "quarantined_at" k
          || (str_eq "quarantine_reason" k || str_eq "quarantine_batch_id" k)
        then none
        else get k r)
unfolding delete_keys
get-delete_metadata k r =
    let b = delete "quarantine_batch_id" r in
    ground (
      arith,
      get-delete "quarantine_batch_id" k r,
      get-delete "quarantine_reason" k b,
      get-delete "quarantined_at" k (delete "quarantine_reason" b),
    )

pub restored_fields :
    (p : Fields)
    → IsRestoredPayload
        (delete_keys metadata_keys (set_all (field "maintenance_status" active_text end) p))
unfolding get
restored_fields p =
    let r = set_all (field "maintenance_status" active_text end) p in
    record {
      marks =
          get-delete_metadata "maintenance_status" r
          ∙ get-set_all "maintenance_status" (field "maintenance_status" active_text end) p;
      undated = get-delete_metadata "quarantined_at" r;
      unreasoned = get-delete_metadata "quarantine_reason" r;
      unbatched = get-delete_metadata "quarantine_batch_id" r;
    }

pub restored_same :
    (p : Fields)
    → SameFact p
        (delete_keys metadata_keys (set_all (field "maintenance_status" active_text end) p))
unfolding get
restored_same p k h =
    let r = set_all (field "maintenance_status" active_text end) p in
    ground
      (arith, get-delete_metadata k r, get-set_all k (field "maintenance_status" active_text end) p)

pub IsQuarantinedPayload-same :
    (at reason batch : Text) (p q : Fields)
    → ((k : String) → get k q ≡ get k p)
    → IsQuarantinedPayload at reason batch p
    → IsQuarantinedPayload at reason batch q
IsQuarantinedPayload-same at reason batch p q e h = record {
  marks = e "maintenance_status" ∙ h.marks;
  dates = e "quarantined_at" ∙ h.dates;
  reasons = e "quarantine_reason" ∙ h.reasons;
  batches = e "quarantine_batch_id" ∙ h.batches;
}

pub IsRestoredPayload-same :
    (p q : Fields) → ((k : String) → get k q ≡ get k p) → IsRestoredPayload p → IsRestoredPayload q
IsRestoredPayload-same p q e h = record {
  marks = e "maintenance_status" ∙ h.marks;
  undated = e "quarantined_at" ∙ h.undated;
  unreasoned = e "quarantine_reason" ∙ h.unreasoned;
  unbatched = e "quarantine_batch_id" ∙ h.unbatched;
}

module _ (store : PointStore) (fingerprint : ScrollPoint → Text) (format : Instant → Text)
    (reliable : IsReliable store fingerprint) where
  open store use {State, get_point, replace_payload}
  open reliable use {payload_of}

  pub verified-good :
      (test : Reply → Bool) (id : Text) (x : Bool × State)
      → x.0 ≡ true
      → test (get_point id x.1).0 ≡ true
      → verified store fingerprint format test id x ≡ (updated, true, (get_point id x.1).1)
  verified-good test id (false, w) h k = cc
  verified-good test id (true, w) h k = rw k refl

  -- A write of a point that is there, after it was read and before it is read again.
  pub written_payload :
      (id : Text) (new : Fields) (ks : List String) (w : State) (p : Fields)
      → payload_of w id ≡ some p
      → let x = replace_payload id new ks (get_point id w).1 in
        let w' = (get_point id x.1).1 in
        (q : Fields) × (x.0 ≡ true)
        × ((get_point id x.1).0 ≡ found (record { id = id; payload = q }))
        × (payload_of w' id ≡ some q)
        × ((k : String) → get k q ≡ get k (delete_keys ks (set_all new p)))
        × ((j : Text) → id ≢ j → payload_of w' j ≡ payload_of w j)
  written_payload id new ks w p h =
      let w1 = (get_point id w).1 in
      let x = replace_payload id new ks w1 in
      let h1 = reliable.get_kept id id w ∙ h in
      let (q, s, g) = reliable.replace_written id new ks w1 p h1 in
      (
        q,
        reliable.replace_answers id new ks w1 p h1,
        reliable.get_reply id x.1 ∙ ap (reply_of id) s,
        reliable.get_kept id id x.1 ∙ s,
        g,
        λ j n.
            reliable.get_kept id j x.1
            ∙ reliable.replace_kept id j new ks w1 n
            ∙ reliable.get_kept id j w,
      )
