-- ===== src/Examples/Quarantine.antt =====
-- Runs of the maintenance service against a store in memory.
use personal_memory.Go.Json.{field, end, str, set_all, Fields, get}
use personal_memory.Maintenance.Status.{active, parse_status}
use personal_memory.Maintenance.Service.{
  Result, quarantine, restore, PointStore, is_eligible_finding, Operation, OutcomeStatus, apply,
  apply_all, apply_restore, matches_finding, quarantine_reason, updated, run, already_applied,
  finished,
}
use personal_memory.Prelude.{
  ◌*◌, Bool-cases, List, Option, String, [], ap, false, if◌then◌else◌, inl, inr, none, refl, some,
  true, ◌∷◌, ◌≡◌, ◌≢◌, Bool, not, ◌⊎◌,
}
use personal_memory.Maintenance.Classify.{Finding, ScrollPoint, string_value, class_expired}
use personal_memory.Go.Time.{Instant, midnight, nanosecond_day, parse_rfc3339}
use personal_memory.Maintenance.Service.Reliable.{IsReliable, reply_of, delete_keys, SameFact}
use personal_memory.Maintenance.Service.Reliable.Writes.{IsTarget}
use personal_memory.Go.Text.{Text, text, text_eq, trim_space, is_empty}
use personal_memory.Maintenance.Service.Reliable.Cycle.{quarantine-restore}
use personal_memory.Go.Text.Laws.{text_eq_iff, text_eq_refl}
use personal_memory.Maintenance.Status.Laws.{IsQuarantinedPayload, IsRestoredPayload}
use personal_memory.Maintenance.Request.Laws.{IsSelection}
use personal_memory.Maintenance.Request.{SavedManifest, Selection, selected_ids, validate_request}
use personal_memory.Maintenance.Service.Verified.{Shows, apply-updated, LastRead}
use personal_memory.Maintenance.Service.Laws.{apply_dispatched, is_dispatched, run-IsSelection}
use personal_memory.Go.Sort.{sort}

abbrev pub stale_id : Text
stale_id = text "a1"

abbrev stale_payload : Fields
stale_payload = field "text" (str (text "t")) (field "valid_until" (str (text "2020-01-01")) end)

abbrev pub Memory : Type 0
Memory = Text → Option Fields

abbrev replaced : Fields → List String → Option Fields → Option Fields
replaced new ks none = none
replaced new ks (some p) = some (delete_keys ks (set_all new p))

abbrev pub memory_store : PointStore
memory_store = record {
  State = Memory;
  get_point = λ id w. (reply_of id (w id), w);
  replace_payload = λ id new ks w. (true, λ j. if text_eq id j then replaced new ks (w j) else w j);
  is_cancelled = λ w. false;
  invalidate = λ w. w;
  write_journal = λ kept path r w. (true, w);
}

-- A digest of the text alone
abbrev pub text_digest : ScrollPoint → Text
text_digest p = string_value (get "text" p.payload)

text_digest_reads :
    (id : Text) (p q : Fields)
    → ((k : String) → get k p ≡ get k q)
    → text_digest (record { id = id; payload = p }) ≡ text_digest (record { id = id; payload = q })
text_digest_reads id p q h = ap string_value (h "text")

memory_written :
    (id : Text) (new : Fields) (ks : List String) (w : Memory) (p : Fields)
    → w id ≡ some p
    → (if text_eq id id then replaced new ks (w id) else w id)
      ≡ some (delete_keys ks (set_all new p))
memory_written id new ks w p h = rw (text_eq_refl id, h) refl

memory_kept :
    (id j : Text) (new : Fields) (ks : List String) (w : Memory)
    → id ≢ j
    → (if text_eq id j then replaced new ks (w j) else w j) ≡ w j
memory_kept id j new ks w n = elim (Bool-cases (text_eq id j)) [
  | inl e ↦ absurd (n ((text_eq_iff id j).0 e))
  | inr e ↦ rw e refl
]

abbrev memory_reliable : IsReliable memory_store text_digest
memory_reliable = record {
  payload_of = λ w id. w id;
  get_reply = λ id w. refl;
  get_kept = λ id j w. refl;
  replace_answers = λ id new ks w p h. refl;
  replace_written = λ id new ks w p h.
      (delete_keys ks (set_all new p), memory_written id new ks w p h, λ k. refl);
  replace_kept = memory_kept;
  fingerprint_reads = text_digest_reads;
}

abbrev full : Memory
full id = if text_eq id stale_id then some stale_payload else none

abbrev pub stale_finding : Finding
stale_finding = record {
  point_id = stale_id;
  classes = class_expired ∷ [];
  lifecycle_state = text "current";
  maintenance_status = active;
  lifecycle_transitioned_at = [];
  created_at = [];
  updated_at = [];
  valid_until = text "2020-01-01";
  quarantined_at = [];
  is_protected = false;
  eligible_for_quarantine = true;
  fingerprint = text "t";
}

abbrev pub noon : Instant
noon = 738648 * nanosecond_day

abbrev pub noon_text : Instant → Text
noon_text t = text "2022-05-06T00:00:00Z"

noon_reads : parse_rfc3339 (noon_text noon) ≡ some noon
unfolding parse_rfc3339
noon_reads = refl

stale-IsTarget : IsTarget text_digest noon_text stale_finding (text "b") noon stale_payload
unfolding is_eligible_finding trim_space text_eq midnight get parse_status
stale-IsTarget = record {
  eligible = refl;
  trimmed_id = refl;
  trimmed_batch = refl;
  seconds = noon;
  reads = noon_reads;
  prints = refl;
  dated = refl;
  is_found = refl;
  is_valid = refl;
  is_active = refl;
}

abbrev step : Operation → Memory → OutcomeStatus × Bool × Memory
step op w = apply memory_store text_digest noon_text op stale_finding (text "b") (noon_text noon) w

full_holds : full stale_id ≡ some stale_payload
unfolding text_eq
full_holds = refl

quarantine-restore_example :
    let first = step quarantine full in
    let again = step quarantine first.2 in
    let last = step restore again.2 in
    (first.0 ≡ updated)
    × (again.0 ≡ already_applied)
    × (last.0 ≡ updated)
    × ((q r : Fields) × (first.2 stale_id ≡ some q)
        × IsQuarantinedPayload (noon_text noon) (quarantine_reason stale_finding) (text "b") q
        × SameFact stale_payload q
        × (last.2 stale_id ≡ some r)
        × IsRestoredPayload r
        × SameFact stale_payload r)
    × ((j : Text) → stale_id ≢ j → last.2 j ≡ full j)
quarantine-restore_example =
    quarantine-restore memory_store text_digest noon_text memory_reliable stale_finding (text "b")
      noon stale_payload stale-IsTarget full full_holds

step_updated : (step quarantine full).0 ≡ updated
step_updated =
    (quarantine-restore memory_store text_digest noon_text memory_reliable stale_finding (text "b")
      noon stale_payload stale-IsTarget full full_holds).0

apply-updated_example :
    LastRead memory_store text_digest noon_text stale_id (step quarantine full).2 (
      Shows memory_store text_digest noon_text quarantine stale_finding (text "b") (noon_text noon))
apply-updated_example =
    apply-updated memory_store text_digest noon_text quarantine stale_finding (text "b")
      (noon_text noon) full step_updated

apply_dispatched_example :
    let (o, d, w) = step quarantine full in
    (d ≡ is_dispatched o) × (d ≡ false → (w ≡ full) ⊎ (w ≡ full))
apply_dispatched_example =
    apply_dispatched memory_store text_digest noon_text quarantine stale_finding (text "b")
      (noon_text noon) full

-- A manifest of one finding; its digest is its batch id.
abbrev one_manifest : SavedManifest
one_manifest = record {
  manifest = record {
    batch_id = text "b";
    collection = text "c";
    namespace = [];
    reference_time = noon;
    is_complete = true;
    scanned = 1;
    findings = stale_finding ∷ [];
  };
  schema_version = 1;
  policy_version = text "1.0.0";
  reference_text = text "2022-05-06T00:00:00Z";
}

abbrev batch_of : SavedManifest → Text
batch_of m = m.manifest.batch_id

abbrev any_digest : Text → Bool
any_digest t = not (is_empty t)

abbrev all_eligible : Selection
all_eligible = record { point_ids = []; include_eligible = true }

abbrev one_result : Result
one_result = record {
  batch_id = text "b";
  operation = restore;
  outcomes = record { point_id = stale_id; status = already_applied } ∷ [];
  timestamp = noon_text noon;
}

one_run :
    (run memory_store text_digest noon_text batch_of any_digest
      (text "c")
      restore
      one_manifest
      all_eligible
      []
      noon
      full).0
    ≡ finished one_result true
unfolding run validate_request apply_all apply apply_restore matches_finding is_eligible_finding
    parse_status text_eq parse_rfc3339 trim_space get sort selected_ids
one_run = refl

run-IsSelection_example : IsSelection one_manifest.manifest all_eligible (stale_id ∷ [])
run-IsSelection_example =
    run-IsSelection memory_store text_digest noon_text batch_of any_digest (text "c") restore
      one_manifest all_eligible [] noon full one_result true one_run
