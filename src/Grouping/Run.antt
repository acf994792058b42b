-- ===== src/Grouping/Run.antt =====
-- internal/factgrouping/grouping.go: Run, with SetGrouping of internal/qdrant/grouping.go.
--
-- The digest of a payload, the store behind HTTP, the request's context and the journal's file are
-- arguments: a `GroupingStore` over a state that is not looked into. The directory, the lock and
-- the journal that is there when Run begins are a `Setup`.
pub mod Laws
pub mod Listed
pub mod Done
use personal_memory.Prelude.{
  ◌&&◌, Bool, List, Option, [], false, if◌then◌else◌, length, ltb, none, not, some, true, ◌||◌, ◌∷◌,
  ℕ, ◌==◌,
}
use personal_memory.Go.Json.{field, end, str, strs, null, Fields, Value}
use personal_memory.Maintenance.Service.{Reply, unread, absent, found}
use personal_memory.Grouping.Manifest.{
  Change, Group, GroupingFault, group_from, has_primary, same_group, tag_list, tags_valid,
  without_grouping, GroupingManifest, validate_manifest,
}
use personal_memory.Go.Text.{Text, text_eq, is_empty, text}
use personal_memory.Lifecycle.Model.{is_some}
use personal_memory.Maintenance.Status.{is_trimmed}
use personal_memory.Policy.Budget.{recorded}

-- A Go string of the field Status of an Outcome; `other` is any text that no constant is.
pub data GroupingStatus : Type 0 where
  dispatching ambiguous updated already_applied conflict not_found other : GroupingStatus

-- Outcome
pub record GroupingOutcome : Type 0 where
  pub point_id : Text
  pub status : GroupingStatus

-- Journal, without the time that save puts in
pub record Journal : Type 0 where
  pub schema_version : ℕ
  pub manifest_hash : Text
  pub operation : Text
  pub outcomes : List GroupingOutcome

pub record GroupingStore : Type 1 where
  pub State : Type 0
  pub get_point : Text → State → Reply × State
  -- the request of SetGrouping that sets a payload; the Bool is whether its error is nil
  pub set_payload : Text → Fields → State → Bool × State
  pub is_cancelled : State → Bool
  pub save : Journal → State → Bool × State

-- What ReadPrivate and Unmarshal make of the journal's file, over a journal that is prefilled.
pub data JournalFile : Type 0 where
  no_file unreadable not_json : JournalFile
  decoded : Journal → JournalFile

pub data Setup : Type 0 where
  insecure unopened busy : Setup
  locked : JournalFile → Setup

pub data RunFault : Type 0 where
  invalid : GroupingFault → RunFault
  writers_running no_path directory_insecure lock_unopened lock_busy : RunFault
  journal_mismatch journal_unreadable journal_invalid : RunFault
  cancelled point_unread unsaved dispatch_ambiguous incomplete : RunFault

unfoldable pub status_at : Text → List GroupingOutcome → Option GroupingStatus
status_at id [] = none
status_at id (o ∷ os) = if text_eq o.point_id id then some o.status else status_at id os

-- set
unfoldable pub set_outcome : Text → GroupingStatus → List GroupingOutcome → List GroupingOutcome
set_outcome id s [] = record { point_id = id; status = s } ∷ []
set_outcome id s (o ∷ os) =
    let rest = set_outcome id s os in
    if text_eq o.point_id id then record o { status = s } ∷ os else o ∷ rest

abbrev pub with_outcome : Text → GroupingStatus → Journal → Journal
with_outcome id s j = record j { outcomes = set_outcome id s j.outcomes }

abbrev pub is_open : Option GroupingStatus → Bool
is_open (some dispatching) = true
is_open (some ambiguous) = true
is_open _ = false

abbrev pub is_known_status : GroupingStatus → Bool
is_known_status other = false
is_known_status _ = true

abbrev pub is_done : GroupingStatus → Bool
is_done updated = true
is_done already_applied = true
is_done _ = false

unfoldable pub in_changes : Text → List Change → Bool
in_changes id [] = false
in_changes id (c ∷ cs) = text_eq c.point_id id || in_changes id cs

-- The loop over the outcomes of the journal that was read; `seen` holds those before this one.
unfoldable pub outcomes_valid : List Change → List GroupingOutcome → List GroupingOutcome → Bool
unfolding status_at in_changes
outcomes_valid cs seen [] = true
outcomes_valid cs seen (o ∷ os) =
    let rest = outcomes_valid cs (o ∷ seen) os in
    if is_some (status_at o.point_id seen)
      || (not (in_changes o.point_id cs) || not (is_known_status o.status))
    then false
    else rest

unfoldable pub all_done : List GroupingOutcome → Bool
all_done [] = true
all_done (o ∷ os) = is_done o.status && all_done os

abbrev pub operation_text : Bool → Text
operation_text rollback = if rollback then text "rollback" else text "apply"

abbrev pub expected_group : Bool → Change → Group
expected_group rollback c = if rollback then c.after else c.before

abbrev pub target_group : Bool → Change → Group
target_group rollback c = if rollback then c.before else c.after

abbrev tags_value : Option (List Text) → Value
tags_value none = null
tags_value (some ts) = strs ts

abbrev pub grouping_fields : Group → Fields
grouping_fields g =
    field "tags" (tags_value g.tags)
      (field "primary_tag" (str g.primary_tag) (field "ai_grouping_ref" (str g.audit_ref) end))

-- The tests of SetGrouping, each of which ends in an error before the request.
unfoldable pub accepts_grouping : Text → Group → Bool
unfolding tags_valid has_primary
accepts_grouping id g =
    let tags = tag_list g.tags in
    is_trimmed id
    && (not (
          ltb 100 (length tags) || (ltb 255 (length g.primary_tag) || ltb 128 (length g.audit_ref)))
        && (tags_valid [] tags && has_primary g.primary_tag tags))

module _ (store : GroupingStore) (digest : Fields → Text) where
  open store use {State, get_point, set_payload, is_cancelled, save}

  -- SetGrouping
  unfoldable pub set_grouping : Text → Group → State → Bool × State
  unfolding accepts_grouping
  set_grouping id g w =
      if accepts_grouping id g then set_payload id (grouping_fields g) w else (false, w)

  -- Whether the payload is that of the change, with this group
  unfoldable pub is_grouped : Change → Group → Fields → Bool
  unfolding without_grouping group_from same_group
  is_grouped c g p =
      text_eq (digest (without_grouping p)) c.fingerprint && same_group (group_from p) g

  -- The status after the first read; none is "ready".
  unfoldable pub recheck : Bool → Change → Option GroupingStatus → Reply → Option GroupingStatus
  unfolding is_grouped
  recheck rollback c recorded (found p) =
      if is_grouped c (target_group rollback c) p.payload
      then some already_applied
      else if is_grouped c (expected_group rollback c) p.payload
      then (if is_open recorded then some ambiguous else none)
      else some conflict
  recheck rollback c recorded unread = some not_found
  recheck rollback c recorded absent = some not_found

  -- The status after SetGrouping, from the second read
  unfoldable pub verify_grouping : Bool → Change → Reply → GroupingStatus
  unfolding is_grouped
  verify_grouping rollback c (found p) =
      if is_grouped c (target_group rollback c) p.payload then updated else ambiguous
  verify_grouping rollback c _ = ambiguous

  -- How the loop goes on: by an error, or by none; with the journal and the state of the store.
  abbrev pub Progress : Type 0
  Progress = Option RunFault × Journal × State

  abbrev pub save_outcome : Option RunFault → Journal → State → Progress
  save_outcome next j w = let (kept, w') = save j w in (if kept then next else some unsaved, j, w')

  abbrev pub after_dispatch : Bool → Change → Journal → Bool × State → Progress
  after_dispatch rollback c j (false, w) =
      save_outcome (some dispatch_ambiguous) (with_outcome c.point_id ambiguous j) w
  after_dispatch rollback c j (true, w) =
      let (r, w') = get_point c.point_id w in
      save_outcome none (with_outcome c.point_id (verify_grouping rollback c r) j) w'

  -- The rest of the loop's body for a point that is ready
  unfoldable pub dispatch : Bool → Change → Journal → State → Progress
  unfolding set_grouping verify_grouping set_outcome
  dispatch rollback c j w =
      let j' = with_outcome c.point_id dispatching j in
      let (kept, w') = save j' w in
      if not kept
      then (some unsaved, j', w')
      else after_dispatch rollback c j' (set_grouping c.point_id (target_group rollback c) w')

  abbrev pub act : Bool → Change → Option GroupingStatus → Journal → State → Progress
  act rollback c none j w = dispatch rollback c j w
  act rollback c (some s) j w = save_outcome none (with_outcome c.point_id s j) w

  abbrev pub on_reply : Bool → Change → Option GroupingStatus → Journal → Reply × State → Progress
  on_reply rollback c recorded j (unread, w) = (some point_unread, j, w)
  on_reply rollback c recorded j (absent, w) =
      act rollback c (recheck rollback c recorded absent) j w
  on_reply rollback c recorded j (found p, w) =
      act rollback c (recheck rollback c recorded (found p)) j w

  -- The body of the loop over the changes
  unfoldable pub apply_change : Bool → Change → Option GroupingStatus → Journal → State → Progress
  unfolding dispatch recheck
  apply_change rollback c recorded j w =
      if is_cancelled w
      then (some cancelled, j, w)
      else on_reply rollback c recorded j (get_point c.point_id w)

  -- `recorded` is byID.
  unfoldable pub apply_changes :
      Bool → (Text → Option GroupingStatus) → List Change → Journal → State → Progress
  apply_changes rollback recorded [] j w = (none, j, w)
  apply_changes rollback recorded (c ∷ cs) j w =
      let (stop, j', w') = apply_change rollback c (recorded c.point_id) j w in
      let rest = apply_changes rollback recorded cs j' w' in
      elim stop [ none ↦ rest | some e ↦ (some e, j', w') ]

  abbrev pub finish_run : Progress → Progress
  finish_run (some e, j, w) = (some e, j, w)
  finish_run (none, j, w) = (if all_done j.outcomes then none else some incomplete, j, w)

  abbrev pub with_journal :
      Bool → List Change → (Journal → Bool) → Journal → JournalFile → State → Progress
  with_journal rollback cs same j no_file w =
      finish_run (apply_changes rollback (λ id. none) cs j w)
  with_journal rollback cs same j unreadable w = (some journal_unreadable, j, w)
  with_journal rollback cs same j not_json w = (some journal_mismatch, j, w)
  with_journal rollback cs same j (decoded k) w =
      if not (same k)
      then (some journal_mismatch, k, w)
      else if not (outcomes_valid cs [] k.outcomes)
      then (some journal_invalid, k, w)
      else finish_run (apply_changes rollback (λ id. status_at id k.outcomes) cs k w)

  abbrev pub fresh_journal : Text → Bool → Journal
  fresh_journal hash rollback = record {
    schema_version = 1;
    manifest_hash = hash;
    operation = operation_text rollback;
    outcomes = [];
  }

  abbrev pub same_journal : Text → Bool → Journal → Bool
  same_journal hash rollback j =
      (j.schema_version == 1)
      && (text_eq j.manifest_hash hash && text_eq j.operation (operation_text rollback))

  abbrev pub empty_journal : Journal
  empty_journal = record { schema_version = 0; manifest_hash = []; operation = []; outcomes = [] }

  abbrev pub in_setup : Bool → List Change → Text → Setup → State → Progress
  in_setup rollback cs hash insecure w = (some directory_insecure, empty_journal, w)
  in_setup rollback cs hash unopened w = (some lock_unopened, empty_journal, w)
  in_setup rollback cs hash busy w = (some lock_busy, empty_journal, w)
  in_setup rollback cs hash (locked file) w =
      with_journal rollback cs (same_journal hash rollback) (fresh_journal hash rollback) file w

  -- Run. `stopped` is the caller's word that no writer runs, and `hash` is Hash.
  unfoldable pub run :
      (GroupingManifest → Text) → GroupingManifest → Text → Bool → Bool → Setup → State → Progress
  unfolding validate_manifest apply_changes outcomes_valid all_done
  run hash m path stopped rollback setup w = elim (validate_manifest m) [
    | some e ↦ (some (invalid e), empty_journal, w)
    | none ↦
        if not stopped
        then (some writers_running, empty_journal, w)
        else if is_empty path
        then (some no_path, empty_journal, w)
        else in_setup rollback m.changes (hash m) setup w
  ]
