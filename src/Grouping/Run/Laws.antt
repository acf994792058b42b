-- ===== src/Grouping/Run/Laws.antt =====
-- When Run of internal/factgrouping/grouping.go writes to a fact.
use personal_memory.Maintenance.Service.{unread, absent, found, Reply}
use personal_memory.Grouping.Run.{
  dispatching, ambiguous, no_file, unreadable, not_json, decoded, insecure, unopened, busy, locked,
  GroupingOutcome, GroupingStatus, GroupingStore, Journal, RunFault, Setup, after_dispatch,
  apply_change, apply_changes, dispatch, is_open, on_reply, recheck, save_outcome, set_grouping,
  set_outcome, status_at, target_group, verify_grouping, with_outcome, act, Progress,
  accepts_grouping, finish_run, fresh_journal, grouping_fields, in_setup, outcomes_valid,
  same_journal, run,
}
use personal_memory.Prelude.{
  Bool, Bool-cases, List, Option, Option-cases, [], arith, false, inl, inr, none, refl, some, sym,
  true, ◌∷◌, ◌≡◌,
}
use personal_memory.Grouping.Manifest.{Change, Group, GroupingManifest, validate_manifest}
use personal_memory.Go.Json.{Fields}
use personal_memory.Go.Text.{Text, is_empty}
use personal_memory.Policy.Budget.{recorded}
use personal_memory.Go.Text.Laws.{text_eq_refl}

-- What is relied on: a journal that save says is kept is what is saved, until the next save.
pub record IsJournalled (store : GroupingStore) : Type 0 where
  pub saved : store.State → Journal
  pub save_kept :
      (j : Journal) (w : store.State) → (store.save j w).0 ≡ true → saved (store.save j w).1 ≡ j

-- The outcomes that the run finds when it begins.
abbrev pub outcomes_found : Setup → List GroupingOutcome
outcomes_found (locked (decoded j)) = j.outcomes
outcomes_found _ = []

-- A property of the store's state that no call of Run breaks, but perhaps a write: a write keeps it
-- if the saved journal lists the fact as dispatching, and the journal that was found did not have
-- it open.
pub record IsKept (store : GroupingStore) (journalled : IsJournalled store)
    (start : List GroupingOutcome) (P : store.State → Type 0) : Type 0 where
  pub get_keeps : (id : Text) (w : store.State) → P w → P (store.get_point id w).1
  pub save_keeps : (j : Journal) (w : store.State) → P w → P (store.save j w).1
  pub write_keeps :
      (id : Text) (new : Fields) (w : store.State)
      → status_at id (journalled.saved w).outcomes ≡ some dispatching
      → is_open (status_at id start) ≡ false
      → P w
      → P (store.set_payload id new w).1

status_at-set_outcome :
    (id : Text) (s : GroupingStatus) (os : List GroupingOutcome)
    → status_at id (set_outcome id s os) ≡ some s
unfolding status_at set_outcome
status_at-set_outcome id s [] = rw (text_eq_refl id) refl
status_at-set_outcome id s (o ∷ os) = ground (arith, status_at-set_outcome id s os)

module _ (store : GroupingStore) (digest : Fields → Text) (journalled : IsJournalled store)
    (start : List GroupingOutcome) (P : store.State → Type 0)
    (kept : IsKept store journalled start P) where
  open store use {State, get_point, set_payload, save}
  open journalled use {saved}

  -- Only a fact that is not open is ready.
  recheck-none :
      (rollback : Bool) (c : Change) (recorded : Option GroupingStatus) (r : Reply)
      → recheck store digest rollback c recorded r ≡ none
      → is_open recorded ≡ false
  unfolding recheck
  recheck-none rollback c recorded unread h = cc
  recheck-none rollback c recorded absent h = cc
  recheck-none rollback c recorded (found p) h = ground arith

  save_outcome-keeps :
      (next : Option RunFault) (j : Journal) (w : State)
      → P w
      → P (save_outcome store digest next j w).2
  save_outcome-keeps next j w h = kept.save_keeps j w h

  set_grouping-keeps :
      (id : Text) (g : Group) (w : State)
      → status_at id (saved w).outcomes ≡ some dispatching
      → is_open (status_at id start) ≡ false
      → P w
      → P (set_grouping store digest id g w).1
  unfolding set_grouping
  set_grouping-keeps id g w a b h = elim (Bool-cases (accepts_grouping id g)) [
    | inl e ↦ rw (e, set_grouping) (kept.write_keeps id (grouping_fields g) w a b h)
    | inr e ↦ rw (e, set_grouping) h
  ]

  after_dispatch-keeps :
      (rollback : Bool) (c : Change) (j : Journal) (x : Bool × State)
      → P x.1
      → P (after_dispatch store digest rollback c j x).2
  after_dispatch-keeps rollback c j (false, w) h =
      kept.save_keeps (with_outcome c.point_id ambiguous j) w h
  after_dispatch-keeps rollback c j (true, w) h =
      kept.save_keeps
        (with_outcome c.point_id
          (verify_grouping store digest rollback c (get_point c.point_id w).0) j)
        (get_point c.point_id w).1 (kept.get_keeps c.point_id w h)

  dispatch-keeps :
      (rollback : Bool) (c : Change) (j : Journal) (w : State)
      → is_open (status_at c.point_id start) ≡ false
      → P w
      → P (dispatch store digest rollback c j w).2
  unfolding dispatch
  dispatch-keeps rollback c j w o h =
      let j' = with_outcome c.point_id dispatching j in
      let w' = (save j' w).1 in
      elim (Bool-cases (save j' w).0) [
        | inr e ↦ rw e (kept.save_keeps j' w h)
        | inl e ↦ rw e (
            after_dispatch-keeps rollback c j'
              (set_grouping store digest c.point_id (target_group rollback c) w')
              (set_grouping-keeps c.point_id (target_group rollback c) w'
                (rw (journalled.save_kept j' w e)
                  (status_at-set_outcome c.point_id dispatching j.outcomes))
                o (kept.save_keeps j' w h)))
      ]

  act-keeps :
      (rollback : Bool) (c : Change) (next recorded : Option GroupingStatus) (j : Journal)
      (w : State)
      → (next ≡ none → is_open recorded ≡ false)
      → recorded ≡ status_at c.point_id start
      → P w
      → P (act store digest rollback c next j w).2
  act-keeps rollback c none recorded j w o e h =
      dispatch-keeps rollback c j w (rw (sym e) (o refl)) h
  act-keeps rollback c (some s) recorded j w o e h =
      kept.save_keeps (with_outcome c.point_id s j) w h

  on_reply-keeps :
      (rollback : Bool) (c : Change) (recorded : Option GroupingStatus) (j : Journal)
      (x : Reply × State)
      → recorded ≡ status_at c.point_id start
      → P x.1
      → P (on_reply store digest rollback c recorded j x).2
  on_reply-keeps rollback c recorded j (unread, w) e h = h
  on_reply-keeps rollback c recorded j (absent, w) e h =
      act-keeps rollback c (recheck store digest rollback c recorded absent) recorded j w
        (recheck-none rollback c recorded absent) e h
  on_reply-keeps rollback c recorded j (found p, w) e h =
      act-keeps rollback c (recheck store digest rollback c recorded (found p)) recorded j w
        (recheck-none rollback c recorded (found p)) e h

  apply_change-keeps :
      (rollback : Bool) (c : Change) (recorded : Option GroupingStatus) (j : Journal) (w : State)
      → recorded ≡ status_at c.point_id start
      → P w
      → P (apply_change store digest rollback c recorded j w).2
  unfolding apply_change
  apply_change-keeps rollback c recorded j w e h = elim (Bool-cases (store.is_cancelled w)) [
    | inl i ↦ rw i h
    | inr i ↦ rw i (
        on_reply-keeps rollback c recorded j (get_point c.point_id w) e
          (kept.get_keeps c.point_id w h))
  ]

  apply_changes-keeps :
      (rollback : Bool) (recorded : Text → Option GroupingStatus) (cs : List Change) (j : Journal)
      (w : State)
      → ((id : Text) → recorded id ≡ status_at id start)
      → P w
      → P (apply_changes store digest rollback recorded cs j w).2
  unfolding apply_changes
  apply_changes-keeps rollback recorded [] j w e h = h
  apply_changes-keeps rollback recorded (c ∷ cs) j w e h =
      let x = apply_change store digest rollback c (recorded c.point_id) j w in
      let h' = apply_change-keeps rollback c (recorded c.point_id) j w (e c.point_id) h in
      let ih = apply_changes-keeps rollback recorded cs x.1 x.2 e h' in
      elim (Option-cases x.0) [
        | inl i ↦ rw (i, apply_changes) ih
        | inr (f, i) ↦ rw (i, apply_changes) h'
      ]

finish_run-state :
    (store : GroupingStore) (digest : Fields → Text) (x : Progress store digest)
    → (finish_run store digest x).2 ≡ x.2
finish_run-state store digest (none, j, w) = refl
finish_run-state store digest (some e, j, w) = refl

in_setup-keeps :
    (store : GroupingStore) (digest : Fields → Text) (journalled : IsJournalled store)
    (setup : Setup) (P : store.State → Type 0)
    → IsKept store journalled (outcomes_found setup) P
    → (rollback : Bool) (cs : List Change) (hash : Text) (w : store.State) → P w
    → P (in_setup store digest rollback cs hash setup w).2
in_setup-keeps store digest journalled insecure P kept rollback cs hash w h = h
in_setup-keeps store digest journalled unopened P kept rollback cs hash w h = h
in_setup-keeps store digest journalled busy P kept rollback cs hash w h = h
in_setup-keeps store digest journalled (locked unreadable) P kept rollback cs hash w h = h
in_setup-keeps store digest journalled (locked not_json) P kept rollback cs hash w h = h
in_setup-keeps store digest journalled (locked no_file) P kept rollback cs hash w h =
    let j = fresh_journal store digest hash rollback in
    rw (finish_run-state store digest (apply_changes store digest rollback (λ id. none) cs j w)) (
      apply_changes-keeps store digest journalled [] P kept rollback (λ id. none) cs j w
        (unfold status_at in λ id. refl) h)
in_setup-keeps store digest journalled (locked (decoded k)) P kept rollback cs hash w h =
    elim (Bool-cases (same_journal store digest hash rollback k)) [
      | inr e ↦ rw e h
      | inl e ↦ elim (Bool-cases (outcomes_valid cs [] k.outcomes)) [
        | inr v ↦ rw (e, v) h
        | inl v ↦
            let recorded : Text → Option GroupingStatus = λ id. status_at id k.outcomes in
            rw (e, v)
              (rw
                (finish_run-state store digest
                  (apply_changes store digest rollback recorded cs k w))
                (apply_changes-keeps store digest journalled k.outcomes P kept rollback recorded cs
                  k w (λ id. refl) h))
      ]
    ]

-- What holds of the store, and is broken by nothing but perhaps a write that is not journalled as
-- dispatching or that goes to a fact whose dispatch was open when the run began, holds after Run.
pub run-IsKept :
    (store : GroupingStore) (digest : Fields → Text) (journalled : IsJournalled store)
    (setup : Setup) (P : store.State → Type 0)
    → IsKept store journalled (outcomes_found setup) P
    → (hash : GroupingManifest → Text) (m : GroupingManifest) (path : Text)
      (stopped rollback : Bool) (w : store.State)
    → P w
    → P (run store digest hash m path stopped rollback setup w).2
unfolding run
run-IsKept store digest journalled setup P kept hash m path stopped rollback w h =
    elim (Option-cases (validate_manifest m)) [
      | inr (e, i) ↦ rw (i, run) h
      | inl i ↦ elim (Bool-cases stopped) [
        | inr s ↦ rw (i, s, run) h
        | inl s ↦ elim (Bool-cases (is_empty path)) [
          | inl k ↦ rw (i, s, k, run) h
          | inr k ↦
              rw (i, s, k, run)
                (in_setup-keeps store digest journalled setup P kept rollback m.changes (hash m) w
                  h)
        ]
      ]
    ]
