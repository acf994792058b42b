-- ===== src/Lifecycle/Payload/Laws.antt =====
-- The payload form of a view: what each key holds, and ApplyToPayload key by key.
use text.Mathlib.Text.{◌==◌ as str_eq}
use personal_memory.Prelude.{
  List, Option, String, [], arith, if◌then◌else◌, none, refl, some, ◌∷◌, ◌≡◌, false, ◌∙◌, Bool,
  Bool-cases, inl, inr, ◌||◌,
}
use personal_memory.Go.Json.{Fields, Value, str, get, end, bool, strs, delete}
use personal_memory.Lifecycle.Parse.{Payload}
use personal_memory.Lifecycle.Model.{Provenance, View, state_text}
use personal_memory.Go.Text.{Text}
use personal_memory.Go.Json.Laws.{get-set, or_else, get-delete, get-set_all}
use personal_memory.Lifecycle.Payload.{
  payload_from_view, provenance_value, set_provenance, set_text, apply_to_payload, delete_all,
  payload_fields,
}

abbrev pub text_option : Text → Option Value
text_option [] = none
text_option (c ∷ t) = some (str (c ∷ t))

abbrev pub provenance_option : Option Provenance → Option Value
provenance_option none = none
provenance_option (some p) = some (provenance_value p)

get-set_text :
    (k j : String) (t : Text) (m : Fields)
    → get j (set_text k t m) ≡ (if str_eq k j then or_else (text_option t) (get j m) else get j m)
unfolding set_text
get-set_text k j [] m = ground arith
get-set_text k j (c ∷ t) m = get-set k j (str (c ∷ t)) m

get-set_provenance :
    (j : String) (o : Option Provenance) (m : Fields)
    → get j (set_provenance o m)
      ≡ (if str_eq "provenance" j then or_else (provenance_option o) (get j m) else get j m)
unfolding set_provenance
get-set_provenance j none m = ground arith
get-set_provenance j (some p) m = get-set "provenance" j (provenance_value p) m

get-end : (k : String) → get k end ≡ none
unfolding get
get-end k = refl

or_else-none : (o : Option Value) → or_else o none ≡ o
or_else-none none = refl
or_else-none (some v) = refl

ruleset map_laws = (get-set, get-set_text, get-set_provenance, get-end, or_else-none)

-- What each key of the payload of a view holds.
pub record HoldsView (p : Payload) (v : View) : Type 0 where
  pub state : get "lifecycle_state" p ≡ some (str (state_text v.state))
  pub canonical : get "canonical" p ≡ some (bool v.canonical)
  pub provenance : get "provenance" p ≡ provenance_option v.provenance
  pub verified_at : get "verified_at" p ≡ text_option v.verified_at
  pub transitioned_at : get "lifecycle_transitioned_at" p ≡ text_option v.transitioned_at
  pub supersedes : get "supersedes" p ≡ some (strs v.supersedes)
  pub superseded_by : get "superseded_by" p ≡ some (strs v.superseded_by)

pub payload_from_view-HoldsView : (v : View) → HoldsView (payload_from_view v) v
unfolding payload_from_view
payload_from_view-HoldsView v = record {
  state = simp map_laws;
  canonical = simp map_laws;
  provenance = simp map_laws;
  verified_at = simp map_laws;
  transitioned_at = simp map_laws;
  supersedes = simp map_laws;
  superseded_by = simp map_laws;
}

abbrev pub is_field : String → List String → Bool
is_field j [] = false
is_field j (k ∷ ks) = str_eq k j || is_field j ks

get-delete_all :
    (j : String) (ks : List String) (m : Fields)
    → get j (delete_all ks m) ≡ (if is_field j ks then none else get j m)
unfolding delete_all
get-delete_all j [] m = refl
get-delete_all j (k ∷ ks) m = ground (arith, get-delete_all j ks (delete k m), get-delete k j m)

other_key :
    (j : String) (v : View) → is_field j payload_fields ≡ false → get j (payload_from_view v) ≡ none
unfolding payload_from_view
other_key j v h = simp map_laws (ground arith)

-- After ApplyToPayload the lifecycle keys hold the view and every other key what it held.
pub get-apply_to_payload :
    (j : String) (p : Payload) (v : View)
    → get j (apply_to_payload p v)
      ≡ (if is_field j payload_fields then get j (payload_from_view v) else get j p)
unfolding apply_to_payload
get-apply_to_payload j p v = elim (Bool-cases (is_field j payload_fields)) [
  | inl e ↦ rw (get-set_all, get-delete_all, e, or_else-none)
  | inr e ↦ rw (get-set_all, get-delete_all, e, other_key j v e)
]

pub apply_to_payload-HoldsView : (p : Payload) (v : View) → HoldsView (apply_to_payload p v) v
apply_to_payload-HoldsView p v =
    let h = payload_from_view-HoldsView v in
    record {
      state = get-apply_to_payload "lifecycle_state" p v ∙ h.state;
      canonical = get-apply_to_payload "canonical" p v ∙ h.canonical;
      provenance = get-apply_to_payload "provenance" p v ∙ h.provenance;
      verified_at = get-apply_to_payload "verified_at" p v ∙ h.verified_at;
      transitioned_at = get-apply_to_payload "lifecycle_transitioned_at" p v ∙ h.transitioned_at;
      supersedes = get-apply_to_payload "supersedes" p v ∙ h.supersedes;
      superseded_by = get-apply_to_payload "superseded_by" p v ∙ h.superseded_by;
    }
