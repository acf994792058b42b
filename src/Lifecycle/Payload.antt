-- ===== src/Lifecycle/Payload.antt =====
-- internal/memory/lifecycle/model.go: PayloadFields, PayloadFromView, ApplyToPayload and
-- NormalizeInput.
pub mod Laws
pub mod RoundTrip
use personal_memory.Prelude.{
  String, Bool, true, false, Option, none, some, List, [], ◌∷◌, if◌then◌else◌,
}
use personal_memory.Go.Text.{Text, is_empty}
use personal_memory.Go.Json.{
  Value, bool, str, strs, obj, Fields, end, field, get, set, set_all, delete,
}
use personal_memory.Lifecycle.Model.{state_text, Provenance, View, Input}
use personal_memory.Lifecycle.Parse.{Payload, Parsed, parse}

-- PayloadFields
abbrev pub payload_fields : List String
payload_fields =
    "lifecycle_state" ∷ "lifecycle_transitioned_at" ∷ "canonical" ∷ "provenance" ∷ "verified_at"
    ∷ "supersedes" ∷ "superseded_by" ∷ []

-- `if value != "" { m[key] = value }`
unfoldable pub set_text : String → Text → Fields → Fields
unfolding set
set_text k t m = if is_empty t then m else set k (str t) m

unfoldable pub provenance_value : Provenance → Value
unfolding set_text set
provenance_value p = obj (set_text "reference" p.reference (set "source" (str p.source) end))

unfoldable pub set_provenance : Option Provenance → Fields → Fields
unfolding provenance_value set
set_provenance none m = m
set_provenance (some p) m = set "provenance" (provenance_value p) m

-- PayloadFromView
unfoldable pub payload_from_view : View → Payload
unfolding set_text set_provenance set
payload_from_view v = set_text "lifecycle_transitioned_at" v.transitioned_at (
    set_text "verified_at" v.verified_at (
      set_provenance v.provenance (
        set "superseded_by" (strs v.superseded_by) (
          set "supersedes" (strs v.supersedes) (
            set "canonical" (bool v.canonical)
              (set "lifecycle_state" (str (state_text v.state)) end))))))

unfoldable pub delete_all : List String → Fields → Fields
unfolding delete
delete_all [] m = m
delete_all (k ∷ ks) m = delete_all ks (delete k m)

-- ApplyToPayload
unfoldable pub apply_to_payload : Payload → View → Payload
unfolding delete_all set_all payload_from_view
apply_to_payload p v = set_all (payload_from_view v) (delete_all payload_fields p)

-- NormalizeInput
unfoldable pub normalize_input : Text → Input → Parsed
unfolding set_text set_provenance set parse
normalize_input point_id input =
    parse
      (set_text "verified_at" input.verified_at (
        set_provenance input.provenance (
          set "superseded_by" (strs input.superseded_by) (
            set "supersedes" (strs input.supersedes) (
              set "canonical" (bool input.canonical)
                (set "lifecycle_state" (str (state_text input.state)) end))))))
      point_id
