-- ===== src/Maintenance/Purge/Laws.antt =====
-- When purgeOne of internal/memory/maintenance/purge.go deletes a fact.
use personal_memory.Prelude.{Bool, ◌+◌, List, some, true, ℕ, ◌≡◌, ◌≤◌}
use personal_memory.Maintenance.Service.{
  absent, found, deleted, OutcomeStatus, is_eligible_finding, matches_finding, quarantine_reason,
}
use personal_memory.Maintenance.Status.{quarantined, parse_status}
use personal_memory.Maintenance.Classify.{Finding, ScrollPoint}
use personal_memory.Go.Time.{Instant}
use personal_memory.Maintenance.Purge.{
  PurgeStore, contains_snapshot, delete_verified, quarantine_time,
}
use personal_memory.Go.Text.{Text}

module _ (store : PurgeStore) (fingerprint : ScrollPoint → Text) (format : Instant → Text)
    (batch snapshot : Text) (now : Instant) (minimum : ℕ) (f : Finding) (resume : Bool) where
  open store use {points, list_snapshots}
  open points use {State, get_point}

  -- What held when a deletion was sent that ended in the outcome `s` and the state `w'`.
  pub record IsPurged (before_delete : State → Bool × State) (s : OutcomeStatus) (w' : State)
      : Type 0 where
    pub before : State
    pub proved : State
    pub read_again : State
    pub noted : State
    pub names : List Text
    pub point : ScrollPoint
    pub since : Instant
    pub eligible : is_eligible_finding f ≡ true
    pub listed : list_snapshots before ≡ (some names, proved)
    pub has_snapshot : contains_snapshot names snapshot ≡ true
    pub is_read : get_point f.point_id proved ≡ (found point, read_again)
    pub same_id : point.id ≡ f.point_id
    pub in_quarantine : (parse_status point.payload).status ≡ quarantined
    pub of_batch : (parse_status point.payload).quarantine_batch_id ≡ batch
    pub for_reason : (parse_status point.payload).quarantine_reason ≡ quarantine_reason f
    pub matches : matches_finding points fingerprint format point f true ≡ true
    pub dated : quarantine_time point ≡ some since
    pub old : since + minimum ≤ now
    pub in_journal : before_delete read_again ≡ (true, noted)
    pub is_sent : delete_verified store f.point_id noted ≡ (s, w')
    pub gone : s ≡ deleted → (w4 : State) × (get_point f.point_id w4 ≡ (absent, w'))
