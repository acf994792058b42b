-- ===== src/Grouping/Run/Done.antt =====
-- What it means that Run of internal/factgrouping/grouping.go ends without an error.
use personal_memory.Grouping.Run.{
  dispatching, ambiguous, updated, already_applied, conflict, not_found, other, no_file, unreadable,
  not_json, decoded, insecure, unopened, busy, locked, GroupingOutcome, GroupingStatus,
  GroupingStore, Progress, all_done, apply_changes, is_done, status_at, Setup, finish_run,
  fresh_journal, in_setup, outcomes_valid, same_journal, run,
}
use personal_memory.Prelude.{
  All, Bool, Bool-cases, List, Option, Option-cases, [], arith, inl, inr, none, refl, some, true,
  ◌∷◌, ◌≡◌, ◌⊎◌, ◌≡◌,
}
use personal_memory.Grouping.Manifest.{Change, GroupingManifest, validate_manifest}
use personal_memory.Go.Json.{Fields}
use personal_memory.Lifecycle.Model.{is_some}
use personal_memory.Go.Text.{Text, text_eq, is_empty}
use personal_memory.Grouping.Run.Listed.{AreListed, apply_changes-AreListed}

status_at-done :
    (id : Text) (os : List GroupingOutcome)
    → all_done os ≡ true
    → is_some (status_at id os) ≡ true
    → (status_at id os ≡ some updated) ⊎ (status_at id os ≡ some already_applied)
unfolding all_done status_at
status_at-done id [] h k = cc
status_at-done id (o ∷ os) h k = elim (Bool-cases (text_eq o.point_id id)) [
  | inl e ↦ rw e (done_cases o.status (ground arith))
  | inr e ↦ rw e (status_at-done id os (ground arith) (rw e at k))
]
  where
    done_cases :
        (s : GroupingStatus)
        → is_done s ≡ true
        → (◌≡◌ {A = Option GroupingStatus} (some s) (some updated))
          ⊎ (◌≡◌ {A = Option GroupingStatus} (some s) (some already_applied))
    done_cases updated d = inl refl
    done_cases already_applied d = inr refl
    done_cases dispatching d = cc
    done_cases ambiguous d = cc
    done_cases conflict d = cc
    done_cases not_found d = cc
    done_cases other d = cc

-- The fact of each change was brought to its target by the run, or was there already.
abbrev pub AreDone : List Change → List GroupingOutcome → Type 0
AreDone cs os =
    All
      (λ c.
        (status_at c.point_id os ≡ some updated) ⊎ (status_at c.point_id os ≡ some already_applied))
      cs

AreListed-done :
    (cs : List Change) (os : List GroupingOutcome)
    → all_done os ≡ true
    → AreListed cs os
    → AreDone cs os
AreListed-done [] os h l = tt
AreListed-done (c ∷ cs) os h l = (status_at-done c.point_id os h l.0, AreListed-done cs os h l.1)

module _ (store : GroupingStore) (digest : Fields → Text) where
  finish_run-AreDone :
      (cs : List Change) (x : Progress store digest)
      → (x.0 ≡ none → AreListed cs x.1.outcomes)
      → (finish_run store digest x).0 ≡ none
      → AreDone cs (finish_run store digest x).1.outcomes
  finish_run-AreDone cs (some e, j, w) l h = cc
  finish_run-AreDone cs (none, j, w) l h = elim (Bool-cases (all_done j.outcomes)) [
    | inl d ↦ AreListed-done cs j.outcomes d (l refl)
    | inr d ↦ let k = rw d at h in cc
  ]

  in_setup-AreDone :
      (rollback : Bool) (cs : List Change) (hash : Text) (setup : Setup) (w : store.State)
      → (in_setup store digest rollback cs hash setup w).0 ≡ none
      → AreDone cs (in_setup store digest rollback cs hash setup w).1.outcomes
  in_setup-AreDone rollback cs hash insecure w h = cc
  in_setup-AreDone rollback cs hash unopened w h = cc
  in_setup-AreDone rollback cs hash busy w h = cc
  in_setup-AreDone rollback cs hash (locked unreadable) w h = cc
  in_setup-AreDone rollback cs hash (locked not_json) w h = cc
  in_setup-AreDone rollback cs hash (locked no_file) w h =
      let j = fresh_journal store digest hash rollback in
      finish_run-AreDone cs (apply_changes store digest rollback (λ id. none) cs j w)
        (λ e. (apply_changes-AreListed store digest rollback (λ id. none) cs j w e).0) h
  in_setup-AreDone rollback cs hash (locked (decoded k)) w h =
      let found_at : Text → Option GroupingStatus = λ id. status_at id k.outcomes in
      elim (Bool-cases (same_journal store digest hash rollback k)) [
        | inr e ↦ let c = rw e at h in cc
        | inl e ↦ elim (Bool-cases (outcomes_valid cs [] k.outcomes)) [
          | inr v ↦ let c = rw (e, v) at h in cc
          | inl v ↦
              rw (e, v)
                (finish_run-AreDone cs (apply_changes store digest rollback found_at cs k w)
                  (λ e. (apply_changes-AreListed store digest rollback found_at cs k w e).0)
                  (rw (e, v) at h))
        ]
      ]

-- A run that ends without an error leaves a journal in which the fact of each change of the
-- manifest has the status updated or already_applied.
pub run-AreDone :
    (store : GroupingStore) (digest : Fields → Text) (hash : GroupingManifest → Text)
    (m : GroupingManifest) (path : Text) (stopped rollback : Bool) (setup : Setup) (w : store.State)
    → (run store digest hash m path stopped rollback setup w).0 ≡ none
    → AreDone m.changes (run store digest hash m path stopped rollback setup w).1.outcomes
unfolding run
run-AreDone store digest hash m path stopped rollback setup w h =
    elim (Option-cases (validate_manifest m)) [
      | inr (e, i) ↦ let c = rw (i, run) at h in cc
      | inl i ↦ elim (Bool-cases stopped) [
        | inr s ↦ let c = rw (i, s, run) at h in cc
        | inl s ↦ elim (Bool-cases (is_empty path)) [
          | inl k ↦ let c = rw (i, s, k, run) at h in cc
          | inr k ↦
              rw (i, s, k, run)
                (in_setup-AreDone store digest rollback m.changes (hash m) setup w
                  (rw (i, s, k, run) at h))
        ]
      ]
    ]
