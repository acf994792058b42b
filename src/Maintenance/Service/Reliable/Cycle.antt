-- ===== src/Maintenance/Service/Reliable/Cycle.antt =====
-- internal/memory/maintenance/service.go: a finding is quarantined, quarantined again and restored,
-- against a point store that keeps what is written to it.
use personal_memory.Maintenance.Status.{quarantined, active_text, parse_status, plain_view}
use personal_memory.Maintenance.Status.Laws.{IsRestoredPayload}
use personal_memory.Maintenance.Service.{
  quarantine, restore, PointStore, apply, apply_quarantine, apply_restore, is_quarantined_as,
  is_restored, quarantine_maintenance, quarantine_reason, restore_maintenance, updated,
  already_applied, Operation, apply_operation, matches_finding, metadata_keys, quarantine_fields,
  verified,
}
use personal_memory.Go.Json.{Fields, set_all, field, end}
use personal_memory.Maintenance.Classify.{Finding, ScrollPoint}
use personal_memory.Go.Time.{Instant}
use personal_memory.Maintenance.Status.Laws.{
  IsQuarantinedPayload, parse_status-IsActivePayload, parse_status-quarantined,
  parse_status-restored,
}
use personal_memory.Maintenance.Service.Reliable.{IsReliable, SameFact, matches_same, delete_keys}
use personal_memory.Maintenance.Service.Reliable.Writes.{
  IsTarget, IsRestoredPayload-same, fields_quarantined, fields_same, quarantine_reason_known,
  restored_fields, restored_same, verified-good, written_payload, IsQuarantinedPayload-same,
  IsRestoredPayload-same,
}
use personal_memory.Go.Text.{Text, text_eq}
use personal_memory.Prelude.{false, some, ◌≡◌, ◌≢◌, [], refl, true, ◌∙◌}
use personal_memory.Go.Text.Laws.{text_eq_refl}
use personal_memory.Lifecycle.Parse.{has_key}

module _ (store : PointStore) (fingerprint : ScrollPoint → Text) (format : Instant → Text)
    (reliable : IsReliable store fingerprint) where
  open store use {State, get_point, replace_payload}
  open reliable use {payload_of}

  -- The state that a step from `w` leads to keeps every other fact.
  abbrev pub KeepsOthers : Text → State → State → Type 0
  KeepsOthers id w w' = (j : Text) → id ≢ j → payload_of w' j ≡ payload_of w j

  module _ (f : Finding) (batch : Text) (now : Instant) (p : Fields)
      (target : IsTarget fingerprint format f batch now p) where
    abbrev here : Fields → ScrollPoint
    here q = record { id = f.point_id; payload = q }

    apply_found :
        (op : Operation) (w : State) (q : Fields)
        → payload_of w f.point_id ≡ some q
        → (parse_status q).valid ≡ true
        → apply store fingerprint format op f batch (format now) w
          ≡ apply_operation store fingerprint format op f batch
              (format now)
              (here q)
              (get_point f.point_id w).1
    unfolding apply
    apply_found op w q h v =
        rw (target.eligible, reliable.get_reply f.point_id w, h, text_eq_refl f.point_id, v) refl

    matches_target : matches_finding store fingerprint format (here p) f false ≡ true
    unfolding matches_finding
    matches_target = rw (target.is_found, text_eq_refl f.fingerprint) refl

    quarantine_maintenance_lem :
        (w : State)
        → quarantine_maintenance store fingerprint format f.point_id target.seconds
            (quarantine_reason f)
            batch
            w
          ≡ replace_payload f.point_id
              (quarantine_fields (format now) (quarantine_reason f) batch)
              []
              w
    unfolding quarantine_maintenance
    quarantine_maintenance_lem w =
        let (_, _, k) = quarantine_reason_known f in
        rw (target.trimmed_id, target.dated, target.prints, target.reads, k, target.trimmed_batch)
          refl

    apply_quarantine_lem :
        (w : State)
        → apply_quarantine store fingerprint format f batch (format now) (here p) w
          ≡ verified store fingerprint format
              (is_quarantined_as store fingerprint format f
                (format now)
                (quarantine_reason f)
                batch)
              f.point_id
              (replace_payload f.point_id
                (quarantine_fields (format now) (quarantine_reason f) batch)
                []
                w)
    unfolding apply_quarantine
    apply_quarantine_lem w =
        rw (target.is_active, matches_target, target.reads, quarantine_maintenance_lem w) refl

    view_quarantined :
        (q : Fields)
        → IsQuarantinedPayload (format now) (quarantine_reason f) batch q
        → parse_status q ≡ record (plain_view quarantined false) {
          quarantined_at = format now;
          quarantine_reason = quarantine_reason f;
          quarantine_batch_id = batch;
        }
    view_quarantined q s =
        let (a, b, c) = quarantine_reason_known f in
        parse_status-quarantined (format now) (quarantine_reason f) batch q (rw target.reads refl) a
          b target.trimmed_batch s

    recognised :
        (q : Fields)
        → SameFact p q
        → matches_finding store fingerprint format (here q) f true ≡ true
    recognised q same =
        matches_same store fingerprint format reliable f p q target.is_found
          (parse_status-IsActivePayload p (rw target.is_active refl)) same

    quarantine_step :
        (w : State)
        → payload_of w f.point_id ≡ some p
        → let x = apply store fingerprint format quarantine f batch (format now) w in
          (q : Fields) × (x.0 ≡ updated)
          × (payload_of x.2 f.point_id ≡ some q)
          × IsQuarantinedPayload (format now) (quarantine_reason f) batch q
          × SameFact p q
          × KeepsOthers f.point_id w x.2
    unfolding is_quarantined_as delete_keys
    quarantine_step w h =
        let reason = quarantine_reason f in
        let new = quarantine_fields (format now) reason batch in
        let x = replace_payload f.point_id new [] (get_point f.point_id w).1 in
        let test = is_quarantined_as store fingerprint format f (format now) reason batch in
        let (q, answers, r, stored, reads, others) =
          written_payload store fingerprint format reliable f.point_id new [] w p h in
        let shape =
          IsQuarantinedPayload-same (format now) reason batch (set_all new p) q reads
            (fields_quarantined (format now) reason batch p) in
        let same : SameFact p q = λ k m. reads k ∙ fields_same (format now) reason batch p k m in
        let good : test (get_point f.point_id x.1).0 ≡ true =
          rw
            (
              r,
              view_quarantined q shape,
              recognised q same,
              text_eq_refl f.point_id,
              text_eq_refl (format now),
              text_eq_refl reason,
              text_eq_refl batch,
            )
            refl in
        let e =
          apply_found quarantine w p h target.is_valid
          ∙ apply_quarantine_lem (get_point f.point_id w).1
          ∙ verified-good store fingerprint format reliable test f.point_id x answers good in
        rw e (q, refl, stored, shape, same, others)

    again_step :
        (w : State) (q : Fields)
        → payload_of w f.point_id ≡ some q
        → IsQuarantinedPayload (format now) (quarantine_reason f) batch q
        → SameFact p q
        → apply store fingerprint format quarantine f batch (format now) w
          ≡ (already_applied, false, (get_point f.point_id w).1)
    unfolding apply_quarantine
    again_step w q h s same =
        apply_found quarantine w q h (rw (view_quarantined q s) refl)
        ∙ rw
            (
              view_quarantined q s,
              text_eq_refl batch,
              text_eq_refl (quarantine_reason f),
              recognised q same,
            )
            refl

    apply_restore_lem :
        (q : Fields)
        → IsQuarantinedPayload (format now) (quarantine_reason f) batch q
        → SameFact p q
        → (w : State)
        → apply_restore store fingerprint format f batch (here q) w
          ≡ verified store fingerprint format (is_restored store fingerprint format f) f.point_id (
              replace_payload f.point_id
                (field "maintenance_status" active_text end)
                metadata_keys
                w)
    unfolding apply_restore restore_maintenance
    apply_restore_lem q s same w =
        rw
          (
            view_quarantined q s,
            text_eq_refl batch,
            text_eq_refl (quarantine_reason f),
            recognised q same,
            target.trimmed_id,
          )
          refl

    restore_step :
        (w : State) (q : Fields)
        → payload_of w f.point_id ≡ some q
        → IsQuarantinedPayload (format now) (quarantine_reason f) batch q
        → SameFact p q
        → let x = apply store fingerprint format restore f batch (format now) w in
          (r : Fields) × (x.0 ≡ updated)
          × (payload_of x.2 f.point_id ≡ some r)
          × IsRestoredPayload r
          × SameFact q r
          × KeepsOthers f.point_id w x.2
    unfolding is_restored has_key text_eq
    restore_step w q h s same =
        let new = field "maintenance_status" active_text end in
        let w1 = (get_point f.point_id w).1 in
        let x = replace_payload f.point_id new metadata_keys w1 in
        let test = is_restored store fingerprint format f in
        let (r, answers, reply, stored, reads, others) =
          written_payload store fingerprint format reliable f.point_id new metadata_keys w q h in
        let shape =
          IsRestoredPayload-same (delete_keys metadata_keys (set_all new q)) r reads
            (restored_fields q) in
        let kept : SameFact q r = λ k m. reads k ∙ restored_same q k m in
        let all : SameFact p r = λ k m. kept k m ∙ same k m in
        let good : test (get_point f.point_id x.1).0 ≡ true =
          rw
            (
              reply,
              parse_status-restored r shape,
              recognised r all,
              text_eq_refl f.point_id,
              shape.marks,
              shape.undated,
              shape.unreasoned,
              shape.unbatched,
            )
            refl in
        let e =
          apply_found restore w q h (rw (view_quarantined q s) refl)
          ∙ apply_restore_lem q s same w1
          ∙ verified-good store fingerprint format reliable test f.point_id x answers good in
        rw e (r, refl, stored, shape, kept, others)

  -- A finding that may be quarantined, of a fact whose payload is active and as it was found: to
  -- quarantine it is an update, to do so again is none, and to restore it is an update, after which
  -- the fact is active without quarantine metadata, and all its other keys and all other facts are
  -- as they were.
  pub quarantine-restore :
      (f : Finding) (batch : Text) (now : Instant) (p : Fields)
      → IsTarget fingerprint format f batch now p
      → (w : State) → payload_of w f.point_id ≡ some p
      → let at = format now in
        let first = apply store fingerprint format quarantine f batch at w in
        let again = apply store fingerprint format quarantine f batch at first.2 in
        let last = apply store fingerprint format restore f batch at again.2 in
        (first.0 ≡ updated)
        × (again.0 ≡ already_applied)
        × (last.0 ≡ updated)
        × ((q r : Fields) × (payload_of first.2 f.point_id ≡ some q)
            × IsQuarantinedPayload at (quarantine_reason f) batch q
            × SameFact p q
            × (payload_of last.2 f.point_id ≡ some r)
            × IsRestoredPayload r
            × SameFact p r)
        × KeepsOthers f.point_id w last.2
  quarantine-restore f batch now p target w h =
      let at = format now in
      let (q, e1, s1, shape, same, o1) = quarantine_step f batch now p target w h in
      let first = apply store fingerprint format quarantine f batch at w in
      let e2 = again_step f batch now p target first.2 q s1 shape same in
      let again = (get_point f.point_id first.2).1 in
      let s2 = reliable.get_kept f.point_id f.point_id first.2 ∙ s1 in
      let (r, e3, s3, restored, same', o3) =
        restore_step f batch now p target again q s2 shape same in
      rw e2 (
        e1,
        refl,
        e3,
        (q, r, s1, shape, same, s3, restored, λ k m. same' k m ∙ same k m),
        λ j n. o3 j n ∙ reliable.get_kept f.point_id j first.2 ∙ o1 j n,
      )
