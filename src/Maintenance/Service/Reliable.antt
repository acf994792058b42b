-- ===== src/Maintenance/Service/Reliable.antt =====
-- internal/memory/maintenance/service.go against a point store that keeps what is written to it:
-- what quarantine and restore of a finding do to the payload of its fact.
pub mod Writes
pub mod Cycle
use package.text.Mathlib.Text.{◌==◌ as str_eq}
use package.text.Mathlib.TextEquality.{eq_iff}
use personal_memory.Maintenance.Status.Laws.{unmarked, marked}
use personal_memory.Go.Json.{set, delete, Fields, set_all, get}
use personal_memory.Prelude.{
  Bool, Bool-cases, List, Option, String, [], arith, false, if◌then◌else◌, inl, inr, none, some,
  sym, true, ◌||◌, ◌∙◌, ◌∷◌, ◌≡◌, ◌≢◌,
}
use personal_memory.Maintenance.Classify.{Finding, ScrollPoint}
use personal_memory.Go.Time.{Instant}
use personal_memory.Maintenance.Service.{
  PointStore, Reply, active_text, matches_finding, without_maintenance, absent, found,
}
use personal_memory.Go.Text.{Text}
use personal_memory.Go.Json.Laws.{get-delete, get-set}
use personal_memory.Go.Text.Laws.{text_eq_iff}
use personal_memory.Maintenance.Status.Laws.{IsActivePayload, is_maintenance_key}
use personal_memory.Lifecycle.Model.{State}
use personal_memory.Recall.Cache.{store}

unfoldable pub delete_keys : List String → Fields → Fields
delete_keys [] p = p
delete_keys (k ∷ ks) p = delete k (delete_keys ks p)

abbrev pub reply_of : Text → Option Fields → Reply
reply_of id none = absent
reply_of id (some p) = found (record { id = id; payload = p })

-- What the program relies on: Qdrant keeps the payloads, each call of it succeeds, and the digest
-- of a point reads the payload by its keys only, as encoding/json sorts them.
pub record IsReliable (store : PointStore) (fingerprint : ScrollPoint → Text) : Type 0 where
  pub payload_of : store.State → Text → Option Fields
  pub get_reply :
      (id : Text) (w : store.State) → (store.get_point id w).0 ≡ reply_of id (payload_of w id)
  pub get_kept :
      (id j : Text) (w : store.State) → payload_of (store.get_point id w).1 j ≡ payload_of w j
  pub replace_answers :
      (id : Text) (new : Fields) (ks : List String) (w : store.State) (p : Fields)
      → payload_of w id ≡ some p
      → (store.replace_payload id new ks w).0 ≡ true
  pub replace_written :
      (id : Text) (new : Fields) (ks : List String) (w : store.State) (p : Fields)
      → payload_of w id ≡ some p
      → (q : Fields) × (payload_of (store.replace_payload id new ks w).1 id ≡ some q)
        × ((k : String) → get k q ≡ get k (delete_keys ks (set_all new p)))
  pub replace_kept :
      (id j : Text) (new : Fields) (ks : List String) (w : store.State)
      → id ≢ j
      → payload_of (store.replace_payload id new ks w).1 j ≡ payload_of w j
  pub fingerprint_reads :
      (id : Text) (p q : Fields)
      → ((k : String) → get k p ≡ get k q)
      → fingerprint (record { id = id; payload = p })
        ≡ fingerprint (record { id = id; payload = q })

-- Nothing but the maintenance keys differs.
abbrev pub SameFact : Fields → Fields → Type 0
SameFact p q = (k : String) → is_maintenance_key k ≡ false → get k q ≡ get k p

get-without_maintenance :
    (k : String) (p : Fields)
    → get k (without_maintenance p) ≡ (if is_maintenance_key k then none else get k p)
unfolding without_maintenance
get-without_maintenance k p =
    let r = delete "quarantine_batch_id" p in
    ground (
      arith,
      get-delete "quarantine_batch_id" k p,
      get-delete "quarantine_reason" k r,
      get-delete "quarantined_at" k (delete "quarantine_reason" r),
      get-delete "maintenance_status" k (delete "quarantined_at" (delete "quarantine_reason" r)),
    )

-- Without its maintenance keys, a fact is the one that was found.
bare-unmarked :
    (p q : Fields)
    → ((k : String) → is_maintenance_key k ≡ true → get k p ≡ none)
    → SameFact p q
    → (k : String) → get k (without_maintenance q) ≡ get k p
bare-unmarked p q none_marked same k = elim (Bool-cases (is_maintenance_key k)) [
  | inl e ↦ get-without_maintenance k q ∙ rw e (sym (none_marked k e))
  | inr e ↦ get-without_maintenance k q ∙ rw e (same k e)
]

is_metadata_key-none :
    (k : String) (p : Fields)
    → get "quarantined_at" p ≡ none
    → get "quarantine_reason" p ≡ none
    → get "quarantine_batch_id" p ≡ none
    → str_eq "maintenance_status" k ≡ false
    → is_maintenance_key k ≡ true
    → get k p ≡ none
is_metadata_key-none k p a b c n h =
    ground (
      arith,
      eq_iff "quarantined_at" k,
      eq_iff "quarantine_reason" k,
      eq_iff "quarantine_batch_id" k,
    )

bare-marked :
    (p q : Fields)
    → get "maintenance_status" p ≡ some active_text
    → get "quarantined_at" p ≡ none
    → get "quarantine_reason" p ≡ none
    → get "quarantine_batch_id" p ≡ none
    → SameFact p q
    → (k : String) → get k (set "maintenance_status" active_text (without_maintenance q)) ≡ get k p
bare-marked p q s a b c same k = ground (
  arith,
  get-set "maintenance_status" k active_text (without_maintenance q),
  get-without_maintenance k q,
  eq_iff "maintenance_status" k,
  same k,
  is_metadata_key-none k p a b c,
)

module _ (store : PointStore) (fingerprint : ScrollPoint → Text) (format : Instant → Text)
    (reliable : IsReliable store fingerprint) where
  open store use {State, get_point}
  open reliable use {payload_of}

  -- A fact that is the one found but for the maintenance keys is recognised.
  matches_same :
      (f : Finding) (p q : Fields)
      → fingerprint (record { id = f.point_id; payload = p }) ≡ f.fingerprint
      → IsActivePayload p
      → SameFact p q
      → matches_finding store fingerprint format (record { id = f.point_id; payload = q }) f true
        ≡ true
  unfolding matches_finding
  matches_same f p q e (unmarked u) same =
      let bare = without_maintenance q in
      let r = reliable.fingerprint_reads f.point_id bare p (bare-unmarked p q u same) in
      ground (
        arith,
        text_eq_iff (fingerprint (record { id = f.point_id; payload = bare })) f.fingerprint,
      )
  matches_same f p q e (marked s a b c) same =
      let bare = set "maintenance_status" active_text (without_maintenance q) in
      let r = reliable.fingerprint_reads f.point_id bare p (bare-marked p q s a b c same) in
      ground (
        arith,
        text_eq_iff (fingerprint (record { id = f.point_id; payload = bare })) f.fingerprint,
      )
