-- ===== src/Maintenance/Service/Verified.antt =====
-- What the outcome updated of apply of internal/memory/maintenance/service.go means: the fact was
-- read again after the write, and shows it.
use personal_memory.Prelude.{
  Bool, Bool-cases, false, inl, inr, refl, true, ◌≡◌, arith, Option-cases, Option, none, not, some,
}
use personal_memory.Maintenance.Classify.{Finding, ScrollPoint}
use personal_memory.Go.Time.{Instant, parse_rfc3339}
use personal_memory.Maintenance.Service.{
  unread, absent, found, purge, restore, quarantine, updated, Operation, PointStore, apply, Reply,
  apply_quarantine, apply_restore, verified, apply_read, is_eligible_finding, is_restored,
  restore_maintenance, found, is_quarantined_as, quarantine_maintenance, quarantine_reason,
  active_text, is_active_text, apply_operation,
}
use personal_memory.Maintenance.Status.{
  active, quarantined, no_status, Status, is_quarantined_status, string_at, parse_status,
}
use personal_memory.Go.Json.{null, bool, str, number, float, arr, strs, obj, Value, get}
use personal_memory.Go.Text.{Text, text, text_eq}
use personal_memory.Lifecycle.Model.{is_some}
use personal_memory.Lifecycle.Parse.{has_key}
use personal_memory.Go.Text.Laws.{text_eq_iff}

pub is_quarantined_status-true : (s : Status) → is_quarantined_status s ≡ true → s ≡ quarantined
is_quarantined_status-true active h = cc
is_quarantined_status-true quarantined h = refl
is_quarantined_status-true no_status h = cc

is_some_false : (o : Option Value) → not (is_some o) ≡ true → o ≡ none
is_some_false none h = refl
is_some_false (some v) h = cc

is_active_text-true :
    (o : Option Value) → is_active_text (string_at o) ≡ true → o ≡ some active_text
is_active_text-true none h = cc
is_active_text-true (some (str t)) h = ground (arith, text_eq_iff t (text "active"))
is_active_text-true (some null) h = cc
is_active_text-true (some (bool _)) h = cc
is_active_text-true (some (number _)) h = cc
is_active_text-true (some (float _)) h = cc
is_active_text-true (some (arr _)) h = cc
is_active_text-true (some (strs _)) h = cc
is_active_text-true (some (obj _)) h = cc

module _ (store : PointStore) (fingerprint : ScrollPoint → Text) (format : Instant → Text) where
  open store use {State, get_point}

  -- What the payload that was read last shows, by the operation.
  abbrev pub Shows : Operation → Finding → Text → Text → ScrollPoint → Type 0
  Shows quarantine f batch at p =
      (p.id ≡ f.point_id)
      × ((parse_status p.payload).status ≡ quarantined)
      × ((parse_status p.payload).quarantined_at ≡ at)
      × ((parse_status p.payload).quarantine_reason ≡ quarantine_reason f)
      × ((parse_status p.payload).quarantine_batch_id ≡ batch)
  Shows restore f batch at p =
      (p.id ≡ f.point_id)
      × (get "maintenance_status" p.payload ≡ some active_text)
      × (get "quarantined_at" p.payload ≡ none)
      × (get "quarantine_reason" p.payload ≡ none)
      × (get "quarantine_batch_id" p.payload ≡ none)
  Shows purge f batch at p = ⊥

  -- A read of `id` that ends in the state `w'`
  abbrev pub LastRead : Text → State → (ScrollPoint → Type 0) → Type 0
  LastRead id w' P = (w1 : State) × (p : ScrollPoint) × (get_point id w1 ≡ (found p, w')) × P p

  is_quarantined_as-true :
      (f : Finding) (at reason batch : Text) (r : Reply)
      → is_quarantined_as store fingerprint format f at reason batch r ≡ true
      → (p : ScrollPoint) × (r ≡ found p)
        × (p.id ≡ f.point_id)
        × ((parse_status p.payload).status ≡ quarantined)
        × ((parse_status p.payload).quarantined_at ≡ at)
        × ((parse_status p.payload).quarantine_reason ≡ reason)
        × ((parse_status p.payload).quarantine_batch_id ≡ batch)
  unfolding is_quarantined_as
  is_quarantined_as-true f at reason batch unread h = cc
  is_quarantined_as-true f at reason batch absent h = cc
  is_quarantined_as-true f at reason batch (found p) h =
      let v = parse_status p.payload in
      (
        p,
        refl,
        ground (arith, text_eq_iff p.id f.point_id),
        is_quarantined_status-true v.status (ground arith),
        ground (arith, text_eq_iff v.quarantined_at at),
        ground (arith, text_eq_iff v.quarantine_reason reason),
        ground (arith, text_eq_iff v.quarantine_batch_id batch),
      )

  is_restored-true :
      (f : Finding) (r : Reply)
      → is_restored store fingerprint format f r ≡ true
      → (p : ScrollPoint) × (r ≡ found p)
        × (p.id ≡ f.point_id)
        × (get "maintenance_status" p.payload ≡ some active_text)
        × (get "quarantined_at" p.payload ≡ none)
        × (get "quarantine_reason" p.payload ≡ none)
        × (get "quarantine_batch_id" p.payload ≡ none)
  unfolding is_restored has_key
  is_restored-true f unread h = cc
  is_restored-true f absent h = cc
  is_restored-true f (found p) h = (
    p,
    refl,
    ground (arith, text_eq_iff p.id f.point_id),
    is_active_text-true (get "maintenance_status" p.payload) (ground arith),
    is_some_false (get "quarantined_at" p.payload) (ground arith),
    is_some_false (get "quarantine_reason" p.payload) (ground arith),
    is_some_false (get "quarantine_batch_id" p.payload) (ground arith),
  )

  verified-updated :
      (test : Reply → Bool) (id : Text) (x : Bool × State)
      → (verified store fingerprint format test id x).0 ≡ updated
      → test (get_point id x.1).0 ≡ true
        × ((verified store fingerprint format test id x).2 ≡ (get_point id x.1).1)
  verified-updated test id (false, w) h = cc
  verified-updated test id (true, w) h = elim (Bool-cases (test (get_point id w).0)) [
    | inl e ↦ (e, rw e)
    | inr e ↦ let c = rw e at h in cc
  ]

  apply_quarantine-updated :
      (f : Finding) (batch at : Text) (p : ScrollPoint) (w : State)
      → (apply_quarantine store fingerprint format f batch at p w).0 ≡ updated
      → (t : Instant) × (apply_quarantine store fingerprint format f batch at p w
          ≡ verified store fingerprint format
              (is_quarantined_as store fingerprint format f at (quarantine_reason f) batch)
              f.point_id
              (quarantine_maintenance store fingerprint format f.point_id t
                (quarantine_reason f)
                batch
                w))
  unfolding apply_quarantine
  apply_quarantine-updated f batch at p w h = elim (Option-cases (parse_rfc3339 at)) [
    | inl e ↦ absurd (ground arith)
    | inr (t, e) ↦ (t, ground arith)
  ]

  apply_restore-updated :
      (f : Finding) (batch : Text) (p : ScrollPoint) (w : State)
      → (apply_restore store fingerprint format f batch p w).0 ≡ updated
      → apply_restore store fingerprint format f batch p w
        ≡ verified store fingerprint format
            (is_restored store fingerprint format f)
            f.point_id
            (restore_maintenance store fingerprint format f.point_id w)
  unfolding apply_restore
  apply_restore-updated f batch p w h = ground arith

  apply_operation-LastRead :
      (op : Operation) (f : Finding) (batch at : Text) (p : ScrollPoint) (w : State)
      → (apply_operation store fingerprint format op f batch at p w).0 ≡ updated
      → LastRead f.point_id
          (apply_operation store fingerprint format op f batch at p w).2
          (Shows op f batch at)
  apply_operation-LastRead quarantine f batch at p w h =
      let reason = quarantine_reason f in
      let test = is_quarantined_as store fingerprint format f at reason batch in
      let (t, e) = apply_quarantine-updated f batch at p w h in
      let x = quarantine_maintenance store fingerprint format f.point_id t reason batch w in
      let (good, s) = verified-updated test f.point_id x (rw e at h) in
      let (q, r, a, b, c, d, g) =
        is_quarantined_as-true f at reason batch (get_point f.point_id x.1).0 good in
      (x.1, q, cc, (a, b, c, d, g))
  apply_operation-LastRead restore f batch at p w h =
      let test = is_restored store fingerprint format f in
      let e = apply_restore-updated f batch p w h in
      let x = restore_maintenance store fingerprint format f.point_id w in
      let (good, s) = verified-updated test f.point_id x (rw e at h) in
      let (q, r, a, b, c, d, g) = is_restored-true f (get_point f.point_id x.1).0 good in
      (x.1, q, cc, (a, b, c, d, g))
  apply_operation-LastRead purge f batch at p w h = cc

  apply_read-updated :
      (op : Operation) (f : Finding) (batch at : Text) (r : Reply) (w : State)
      → (apply_read store fingerprint format op f batch at r w).0 ≡ updated
      → LastRead f.point_id
          (apply_read store fingerprint format op f batch at r w).2
          (Shows op f batch at)
  apply_read-updated op f batch at unread w h = cc
  apply_read-updated op f batch at absent w h = cc
  apply_read-updated op f batch at (found p) w h = elim (Bool-cases (text_eq p.id f.point_id)) [
    | inr e ↦ let c = rw e at h in cc
    | inl e ↦ elim (Bool-cases (parse_status p.payload).valid) [
      | inr v ↦ let c = rw (e, v) at h in cc
      | inl v ↦ rw (e, v) (apply_operation-LastRead op f batch at p w (rw (e, v) at h))
    ]
  ]

  -- The outcome updated means that the last thing done was to read the fact again, and that what
  -- was read shows the operation.
  pub apply-updated :
      (op : Operation) (f : Finding) (batch at : Text) (w : State)
      → (apply store fingerprint format op f batch at w).0 ≡ updated
      → LastRead f.point_id (apply store fingerprint format op f batch at w).2 (Shows op f batch at)
  unfolding apply
  apply-updated op f batch at w h =
      let (r, w') = get_point f.point_id w in
      elim (Bool-cases (is_eligible_finding f)) [
        | inl e ↦ rw e (apply_read-updated op f batch at r w' (rw (e, apply) at h))
        | inr e ↦ let c = rw (e, apply) at h in cc
      ]
