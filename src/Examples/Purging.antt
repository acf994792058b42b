-- ===== src/Examples/Purging.antt =====
-- A run of the purge against a store in memory.
use personal_memory.Prelude.{◌≡◌, ◌+◌, [], false, if◌then◌else◌, none, refl, some, true, ◌∷◌}
use personal_memory.Maintenance.Service.{
  is_eligible_finding, quarantine_reason, protected_or_ineligible,
}
use personal_memory.Go.Json.{field, end, str, Fields, get}
use personal_memory.Examples.Quarantine.{
  memory_store, text_digest, noon_text, stale_id, stale_finding, noon, Memory,
}
use personal_memory.Maintenance.Purge.{PurgeStore, first_refusal, purge_one, purge_read}
use personal_memory.Go.Time.{parse_rfc3339}
use personal_memory.Maintenance.Status.{parse_status}
use personal_memory.Go.Text.{text, text_eq, trim_space}

abbrev purge_memory : PurgeStore
purge_memory = record {
  points = memory_store;
  list_snapshots = λ w. (some (text "s1" ∷ text "s2" ∷ []), w);
  delete_point = λ id w. (true, λ j. if text_eq id j then none else w j);
}

abbrev quarantined_payload : Fields
quarantined_payload = field "text" (str (text "t")) (
    field "maintenance_status" (str (text "quarantined")) (
      field "quarantined_at" (str (text "2022-05-06T00:00:00Z")) (
        field "quarantine_reason" (str (text "expired"))
          (field "quarantine_batch_id" (str (text "b")) end))))

abbrev one_quarantined : Memory
one_quarantined id = if text_eq id stale_id then some quarantined_payload else none

abbrev none_left : Memory
none_left id = if text_eq stale_id id then none else one_quarantined id

-- A quarantine that is too young is left as it is.
too_young :
    purge_one purge_memory text_digest noon_text
      (text "b")
      (text "s2")
      (noon + 59)
      60
      stale_finding
      false
      (λ w. (true, w))
      one_quarantined
    ≡ (some (protected_or_ineligible, false), one_quarantined)
unfolding purge_one purge_read first_refusal is_eligible_finding parse_status text_eq parse_rfc3339
    trim_space get quarantine_reason
too_young = refl
