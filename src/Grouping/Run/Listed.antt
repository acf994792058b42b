-- ===== src/Grouping/Run/Listed.antt =====
-- Each step of Run of internal/factgrouping/grouping.go puts its fact into the journal.
use personal_memory.Maintenance.Service.{unread, absent, found, Reply}
use personal_memory.Grouping.Run.{
  dispatching, ambiguous, GroupingOutcome, GroupingStatus, GroupingStore, Journal, Progress,
  RunFault, after_dispatch, apply_change, apply_changes, dispatch, on_reply, recheck, save_outcome,
  set_grouping, set_outcome, status_at, target_group, verify_grouping, with_outcome,
  dispatch_ambiguous, act,
}
use personal_memory.Prelude.{
  All, Bool, Bool-cases, List, Option, Option-cases, [], arith, false, inl, inr, none, refl, some,
  true, ◌∷◌, ◌≡◌, ◌≡◌, ap, subst, ◌∙◌,
}
use personal_memory.Grouping.Manifest.{Change}
use personal_memory.Go.Json.{Fields}
use personal_memory.Lifecycle.Model.{is_some}
use personal_memory.Go.Text.{Text}
use personal_memory.Policy.Budget.{recorded}
use personal_memory.Go.Text.Laws.{text_eq_refl}

-- The fact of each change has an outcome in the journal.
abbrev pub AreListed : List Change → List GroupingOutcome → Type 0
AreListed cs os = All (λ c. is_some (status_at c.point_id os) ≡ true) cs

status_at-set_outcome_listed :
    (id j : Text) (s : GroupingStatus) (os : List GroupingOutcome)
    → is_some (status_at j os) ≡ true
    → is_some (status_at j (set_outcome id s os)) ≡ true
unfolding status_at set_outcome
status_at-set_outcome_listed id j s [] h = cc
status_at-set_outcome_listed id j s (o ∷ os) h =
    ground (arith, status_at-set_outcome_listed id j s os)

status_at-set_outcome_self :
    (id : Text) (s : GroupingStatus) (os : List GroupingOutcome)
    → is_some (status_at id (set_outcome id s os)) ≡ true
unfolding status_at set_outcome
status_at-set_outcome_self id s [] = rw (text_eq_refl id) refl
status_at-set_outcome_self id s (o ∷ os) = ground (arith, status_at-set_outcome_self id s os)

module _ (store : GroupingStore) (digest : Fields → Text) where
  open store use {State, get_point, set_payload, save}

  -- A journal that an error-free step leaves lists the fact of its change, and all that were listed.
  abbrev Lists : Text → Journal → Progress store digest → Type 0
  Lists id j x =
      x.0 ≡ none
      → is_some (status_at id x.1.outcomes) ≡ true
        × ((i : Text)
            → is_some (status_at i j.outcomes) ≡ true
            → is_some (status_at i x.1.outcomes) ≡ true)

  with_outcome-Lists :
      (id : Text) (s : GroupingStatus) (j k : Journal) (next : Option RunFault) (w : State)
      → ((i : Text)
          → is_some (status_at i j.outcomes) ≡ true
          → is_some (status_at i k.outcomes) ≡ true)
      → Lists id j (save_outcome store digest next (with_outcome id s k) w)
  with_outcome-Lists id s j k next w g h = (
    status_at-set_outcome_self id s k.outcomes,
    λ i l. status_at-set_outcome_listed id i s k.outcomes (g i l),
  )

  after_dispatch-Lists :
      (rollback : Bool) (c : Change) (j k : Journal) (x : Bool × State)
      → ((i : Text)
          → is_some (status_at i j.outcomes) ≡ true
          → is_some (status_at i k.outcomes) ≡ true)
      → Lists c.point_id j (after_dispatch store digest rollback c k x)
  after_dispatch-Lists rollback c j k (false, w) g =
      with_outcome-Lists c.point_id ambiguous j k (some dispatch_ambiguous) w g
  after_dispatch-Lists rollback c j k (true, w) g =
      with_outcome-Lists c.point_id
        (verify_grouping store digest rollback c (get_point c.point_id w).0) j k none
        (get_point c.point_id w).1 g

  dispatch-Lists :
      (rollback : Bool) (c : Change) (j : Journal) (w : State)
      → Lists c.point_id j (dispatch store digest rollback c j w)
  unfolding dispatch
  dispatch-Lists rollback c j w h =
      let j' = with_outcome c.point_id dispatching j in
      elim (Bool-cases (save j' w).0) [
        | inr e ↦ let k = rw (e, dispatch) at h in cc
        | inl e ↦
            rw (e, dispatch)
              (after_dispatch-Lists rollback c j j'
                (set_grouping store digest c.point_id (target_group rollback c) (save j' w).1)
                (λ i l. status_at-set_outcome_listed c.point_id i dispatching j.outcomes l)
                (rw (e, dispatch) at h))
      ]

  act-Lists :
      (rollback : Bool) (c : Change) (next : Option GroupingStatus) (j : Journal) (w : State)
      → Lists c.point_id j (act store digest rollback c next j w)
  act-Lists rollback c none j w = dispatch-Lists rollback c j w
  act-Lists rollback c (some s) j w = with_outcome-Lists c.point_id s j j none w (λ i l. l)

  on_reply-Lists :
      (rollback : Bool) (c : Change) (recorded : Option GroupingStatus) (j : Journal)
      (x : Reply × State)
      → Lists c.point_id j (on_reply store digest rollback c recorded j x)
  on_reply-Lists rollback c recorded j (unread, w) h = cc
  on_reply-Lists rollback c recorded j (absent, w) h =
      act-Lists rollback c (recheck store digest rollback c recorded absent) j w h
  on_reply-Lists rollback c recorded j (found p, w) h =
      act-Lists rollback c (recheck store digest rollback c recorded (found p)) j w h

  apply_change-Lists :
      (rollback : Bool) (c : Change) (recorded : Option GroupingStatus) (j : Journal) (w : State)
      → Lists c.point_id j (apply_change store digest rollback c recorded j w)
  unfolding apply_change
  apply_change-Lists rollback c recorded j w h = elim (Bool-cases (store.is_cancelled w)) [
    | inl i ↦ let k = rw (i, apply_change) at h in cc
    | inr i ↦
        rw (i, apply_change)
          (on_reply-Lists rollback c recorded j (get_point c.point_id w)
            (rw (i, apply_change) at h))
  ]

  pub apply_changes-AreListed :
      (rollback : Bool) (recorded : Text → Option GroupingStatus) (cs : List Change) (j : Journal)
      (w : State)
      → (apply_changes store digest rollback recorded cs j w).0 ≡ none
      → AreListed cs (apply_changes store digest rollback recorded cs j w).1.outcomes
        × ((i : Text)
            → is_some (status_at i j.outcomes) ≡ true
            → is_some (status_at i (apply_changes store digest rollback recorded cs j w).1.outcomes)
              ≡ true)
  unfolding apply_changes
  apply_changes-AreListed rollback recorded [] j w h = (tt, λ i l. l)
  apply_changes-AreListed rollback recorded (c ∷ cs) j w h =
      let x = apply_change store digest rollback c (recorded c.point_id) j w in
      let rest = apply_changes store digest rollback recorded cs x.1 x.2 in
      elim (Option-cases x.0) [
        | inr (f, i) ↦ let k = rw (i, apply_changes) at h in cc
        | inl i ↦
            let same : rest ≡ apply_changes store digest rollback recorded (c ∷ cs) j w =
              rw (i, apply_changes) refl in
            let (l, g) = apply_change-Lists rollback c (recorded c.point_id) j w i in
            let (ih, gs) =
              apply_changes-AreListed rollback recorded cs x.1 x.2 (ap (λ y. y.0) same ∙ h) in
            subst
              (λ y.
                AreListed (c ∷ cs) y.1.outcomes
                × ((i : Text)
                    → is_some (status_at i j.outcomes) ≡ true
                    → is_some (status_at i y.1.outcomes) ≡ true))
              same ((gs c.point_id l, ih), λ k m. gs k (g k m))
      ]
