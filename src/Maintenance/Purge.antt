-- ===== src/Maintenance/Purge.antt =====
-- internal/memory/maintenance/purge.go: purgeOne, which deletes one quarantined fact, and
-- containsSnapshot, with DeleteExactStrong of internal/qdrant/client.go. What Qdrant answers is a
-- `PurgeStore`, over the store of the service.
pub mod Laws
use personal_memory.Prelude.{
  ◌&&◌, Bool, ◌-◌, List, Option, [], false, if◌then◌else◌, leb, ltb, none, not, some, true, ◌||◌, ℕ,
  ◌∷◌,
}
use personal_memory.Maintenance.Classify.{Finding, ScrollPoint}
use personal_memory.Go.Time.{Instant, parse_rfc3339}
use personal_memory.Maintenance.Service.{
  ambiguous, deleted, conflict, failed, already_applied, not_found, protected_or_ineligible, unread,
  absent, found, OutcomeStatus, PointStore, Reply, is_eligible_finding, matches_finding,
  quarantine_reason,
}
use personal_memory.Go.Text.{Text, is_empty, text_eq}
use personal_memory.Maintenance.Status.{is_quarantined_status, is_trimmed, parse_status}
use personal_memory.Lifecycle.Model.{State}

-- purgePointStore, as far as purgeOne calls it
pub record PurgeStore : Type 1 where
  pub points : PointStore
  -- ListSnapshotIdentities: none is an error, and an identity is its name.
  pub list_snapshots : points.State → Option (List Text) × points.State
  -- what DeleteExactStrong sends; whether its error is nil
  pub delete_point : Text → points.State → Bool × points.State

-- containsSnapshot
unfoldable pub contains_snapshot : List Text → Text → Bool
contains_snapshot [] want = false
contains_snapshot (name ∷ names) want =
    (text_eq name want && not (is_empty name)) || contains_snapshot names want

-- `err != nil || !containsSnapshot(snapshots, snapshot)` is false
abbrev pub is_proved : Option (List Text) → Text → Bool
is_proved none want = false
is_proved (some names) want = contains_snapshot names want

-- The longest time.Duration
abbrev pub max_duration : ℕ
max_duration = 9223372036854775807

-- `now.Sub(t)` of a `t` that is not after `now`
abbrev pub elapsed : Instant → Instant → ℕ
elapsed now t = if leb max_duration (now - t) then max_duration else now - t

-- The quarantine began, at a time that is read, the minimum age ago or earlier.
abbrev pub is_old : ℕ → Instant → Option Instant → Bool
is_old minimum now none = false
is_old minimum now (some t) = not (ltb now t) && not (ltb (elapsed now t) minimum)

abbrev pub absent_status : Bool → OutcomeStatus
absent_status resume = if resume then already_applied else not_found

abbrev pub is_absent : Reply → Bool
is_absent absent = true
is_absent _ = false

abbrev pub is_quarantined_in : Text → Finding → ScrollPoint → Bool
is_quarantined_in batch f p =
    let view = parse_status p.payload in
    view.valid
    && (is_quarantined_status view.status
        && (text_eq view.quarantine_batch_id batch
            && text_eq view.quarantine_reason (quarantine_reason f)))

abbrev pub quarantine_time : ScrollPoint → Option Instant
quarantine_time p = parse_rfc3339 (parse_status p.payload).quarantined_at

module _ (store : PurgeStore) (id : Text) where
  open store use {points, delete_point}
  open points use {State, get_point}

  -- DeleteExactStrong
  unfoldable pub delete_exact_strong : State → Bool × State
  delete_exact_strong w = if not (is_trimmed id) then (false, w) else delete_point id w

  -- The deletion and the read after it
  unfoldable pub delete_verified : State → OutcomeStatus × State
  delete_verified w =
      let (sent, w') = delete_exact_strong w in
      if not sent
      then (ambiguous, w')
      else (let (r, w'') = get_point id w' in
          if is_absent r then (deleted, w'') else (ambiguous, w''))

module _ (store : PurgeStore) (fingerprint : ScrollPoint → Text) (format : Instant → Text)
    (batch snapshot : Text) (now : Instant) (minimum : ℕ) (f : Finding) (resume : Bool) where
  open store use {points, list_snapshots}
  open points use {State, get_point}

  -- Why the point is left after the first read; none goes on.
  unfoldable pub first_refusal : ScrollPoint → Option OutcomeStatus
  first_refusal p =
      if not (text_eq p.id f.point_id)
      then some conflict
      else if not (is_quarantined_in batch f p)
      then some conflict
      else if not (is_old minimum now (quarantine_time p))
      then some protected_or_ineligible
      else if not (matches_finding points fingerprint format p f true)
      then some conflict
      else none

  -- Why the point is left after the second read; none goes on.
  unfoldable pub second_refusal : ScrollPoint → Option OutcomeStatus
  second_refusal p =
      if not (
        text_eq p.id f.point_id
        && (is_quarantined_in batch f p && matches_finding points fingerprint format p f true))
      then some conflict
      else if not (is_old minimum now (quarantine_time p))
      then some protected_or_ineligible
      else none

  -- From the second read on
  unfoldable pub purge_again :
      (State → Bool × State) → Reply → State → Option (OutcomeStatus × Bool) × State
  purge_again before_delete unread w = (some (failed, false), w)
  purge_again before_delete absent w = (some (absent_status resume, false), w)
  purge_again before_delete (found p) w = elim (second_refusal p) [
    | some s ↦ (some (s, false), w)
    | none ↦
        let (kept, w') = before_delete w in
        if not kept
        then (none, w')
        else (let (s, w'') = delete_verified store f.point_id w' in (some (s, true), w''))
  ]

  -- From the first read on
  unfoldable pub purge_read :
      (State → Bool × State) → Reply → State → Option (OutcomeStatus × Bool) × State
  purge_read before_delete unread w = (some (failed, false), w)
  purge_read before_delete absent w = (some (absent_status resume, false), w)
  purge_read before_delete (found p) w = elim (first_refusal p) [
    | some s ↦ (some (s, false), w)
    | none ↦
        let (names, w1) = list_snapshots w in
        if not (is_proved names snapshot)
        then (some (failed, false), w1)
        else (let (r, w2) = get_point f.point_id w1 in purge_again before_delete r w2)
  ]

  -- purgeOne: the outcome and whether a deletion was dispatched; none is the error of the journal.
  -- `before_delete` writes the journal, and gives whether its error is nil.
  unfoldable pub purge_one : (State → Bool × State) → State → Option (OutcomeStatus × Bool) × State
  purge_one before_delete w =
      if not (is_eligible_finding f)
      then (some (protected_or_ineligible, false), w)
      else (let (r, w') = get_point f.point_id w in purge_read before_delete r w')
