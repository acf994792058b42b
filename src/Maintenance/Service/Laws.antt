-- ===== src/Maintenance/Service/Laws.antt =====
-- What apply and run of internal/memory/maintenance/service.go do against any point store.
use personal_memory.Prelude.{
  Bool, Bool-cases, List, [], false, if◌then◌else◌, inl, inr, map, refl, true, ◌≡◌, ◌⊎◌, arith, ◌∷◌,
  ap, Option-cases, subst, sym, ◌∙◌,
}
use personal_memory.Maintenance.Classify.{Finding, ScrollPoint}
use personal_memory.Go.Time.{Instant, parse_rfc3339}
use personal_memory.Maintenance.Request.Laws.{IsSelection, validate_request-IsSelection}
use personal_memory.Maintenance.Service.{
  unread, absent, found, purge, restore, quarantine, failed, apply_at, updated, ambiguous, Result,
  Operation, OutcomeStatus, PointStore, apply, apply_all, run, finished, rejected, Reply,
  apply_quarantine, apply_restore, verified, apply_read, is_eligible_finding, is_restored,
  restore_maintenance, found, PointOutcome, RunEnd, is_quarantined_as, quarantine_maintenance,
  quarantine_reason,
}
use personal_memory.Maintenance.Request.{
  RequestFault, faulty, selected, SavedManifest, Selection, Validated, finding_at, validate_request,
}
use personal_memory.Go.Text.{Text}

Validated-cases :
    (v : Validated)
    → ((e : RequestFault) × (v ≡ faulty e)) ⊎ ((ids : List Text) × (v ≡ selected ids))
Validated-cases (faulty e) = inl (e, refl)
Validated-cases (selected ids) = inr (ids, refl)

abbrev outcomes_of : RunEnd → List PointOutcome
outcomes_of (finished r written) = r.outcomes
outcomes_of (rejected e) = []

-- Whether a write was dispatched, by the outcome.
abbrev pub is_dispatched : OutcomeStatus → Bool
is_dispatched updated = true
is_dispatched ambiguous = true
is_dispatched _ = false

module _ (store : PointStore) (fingerprint : ScrollPoint → Text) (format : Instant → Text) where
  open store use {State, get_point}

  -- The ids of the outcomes are those that were selected, in order.
  apply_all-ids :
      (op : Operation) (fs : List Finding) (batch at : Text) (ids : List Text) (w : State)
      → map (λ o. o.point_id) (apply_all store fingerprint format op fs batch at ids w).0 ≡ ids
  unfolding apply_all
  apply_all-ids op fs batch at [] w = refl
  apply_all-ids op fs batch at (id ∷ ids) w =
      ap (λ l. id ∷ l)
        (apply_all-ids op fs batch at ids
          (if store.is_cancelled w
            then (failed, false, w)
            else apply_at store fingerprint format op (finding_at id fs) batch at w).2)

  -- A run that is not refused has an outcome for each id that its selection names and, if that asks
  -- for them, for each id of an eligible finding, and for no other: the ids of the outcomes are sorted
  -- and distinct, each is that of a finding, and there are at least one and at most a hundred.
  pub run-IsSelection :
      (batch_digest : SavedManifest → Text) (valid_digest : Text → Bool) (collection : Text)
      (op : Operation) (saved : SavedManifest) (s : Selection) (path : Text) (now : Instant)
      (w : State) (r : Result) (written : Bool)
      → (run store fingerprint format batch_digest valid_digest collection op saved s path now w).0
        ≡ finished r written
      → IsSelection saved.manifest s (map (λ o. o.point_id) r.outcomes)
  unfolding run
  run-IsSelection batch_digest valid_digest collection op saved s path now w r written h =
      elim (Validated-cases (validate_request batch_digest valid_digest saved s collection)) [
        | inl (e, i) ↦ let c = rw (i, run) at h in cc
        | inr (ids, i) ↦
            let known =
              validate_request-IsSelection batch_digest valid_digest saved s collection ids i in
            let done : (apply_all store fingerprint format op saved.manifest.findings
                  saved.manifest.batch_id (format now) ids w).0
                ≡ r.outcomes =
              let c = rw (i, run) at h in ap outcomes_of c in
            let same =
              apply_all-ids op saved.manifest.findings saved.manifest.batch_id (format now) ids w in
            subst (IsSelection saved.manifest s) (sym same ∙ ap (map (λ o. o.point_id)) done) known
      ]

  -- Where no write was dispatched, the store is as it was.
  abbrev IsAccounted : State → OutcomeStatus × Bool × State → Type 0
  IsAccounted w x = (x.1 ≡ is_dispatched x.0) × (x.1 ≡ false → x.2 ≡ w)

  verified-IsAccounted :
      (test : Reply → Bool) (id : Text) (x : Bool × State) (w : State)
      → IsAccounted w (verified store fingerprint format test id x)
  verified-IsAccounted test id (false, w') w = (refl, λ h. cc)
  verified-IsAccounted test id (true, w') w = elim (Bool-cases (test (get_point id w').0)) [
    | inl e ↦ rw e (refl, λ h. cc)
    | inr e ↦ rw e (refl, λ h. cc)
  ]

  apply_quarantine-IsAccounted :
      (f : Finding) (batch at : Text) (p : ScrollPoint) (w : State)
      → IsAccounted w (apply_quarantine store fingerprint format f batch at p w)
  unfolding apply_quarantine
  apply_quarantine-IsAccounted f batch at p w = elim (Option-cases (parse_rfc3339 at)) [
    | inl e ↦ ground arith
    | inr (t, e) ↦ ground (
      arith,
      verified-IsAccounted
          (is_quarantined_as store fingerprint format f at (quarantine_reason f) batch) f.point_id
          (quarantine_maintenance store fingerprint format f.point_id t (quarantine_reason f) batch
            w)
          w,
    )
  ]

  apply_restore-IsAccounted :
      (f : Finding) (batch : Text) (p : ScrollPoint) (w : State)
      → IsAccounted w (apply_restore store fingerprint format f batch p w)
  unfolding apply_restore
  apply_restore-IsAccounted f batch p w = ground (
    arith,
    verified-IsAccounted (is_restored store fingerprint format f) f.point_id
        (restore_maintenance store fingerprint format f.point_id w) w,
  )

  apply_read-IsAccounted :
      (op : Operation) (f : Finding) (batch at : Text) (r : Reply) (w : State)
      → IsAccounted w (apply_read store fingerprint format op f batch at r w)
  apply_read-IsAccounted op f batch at unread w = (refl, λ h. refl)
  apply_read-IsAccounted op f batch at absent w = (refl, λ h. refl)
  apply_read-IsAccounted quarantine f batch at (found p) w =
      ground (arith, apply_quarantine-IsAccounted f batch at p w)
  apply_read-IsAccounted restore f batch at (found p) w =
      ground (arith, apply_restore-IsAccounted f batch p w)
  apply_read-IsAccounted purge f batch at (found p) w = ground arith

  -- apply reports that a mutation was dispatched exactly for the outcomes updated and ambiguous.
  -- Where none was, all that it did to the store is one read, or nothing.
  pub apply_dispatched :
      (op : Operation) (f : Finding) (batch at : Text) (w : State)
      → let (o, d, w') = apply store fingerprint format op f batch at w in
        (d ≡ is_dispatched o) × (d ≡ false → (w' ≡ w) ⊎ (w' ≡ (get_point f.point_id w).1))
  unfolding apply
  apply_dispatched op f batch at w = elim (Bool-cases (is_eligible_finding f)) [
    | inl e ↦
        let (r, w') = get_point f.point_id w in
        let (a, b) = apply_read-IsAccounted op f batch at r w' in rw e (a, λ h. inr (b h))
    | inr e ↦ rw e (refl, λ h. inl refl)
  ]
