-- ===== src/Lifecycle/Parse.antt =====
-- internal/memory/lifecycle/model.go: Parse, NormalizeInput, and the parsers of the parts of a
-- payload.
pub mod Numbers
pub mod Laws
use personal_memory.Prelude.{
  ℕ, zero, suc, String, Bool, true, false, not, ◌&&◌, ◌||◌, Option, none, some, List, [], ◌∷◌, ◌++◌,
  if◌then◌else◌,
}
use personal_memory.Go.Text.{Text, text, text_eq, is_empty, trim_space}
use personal_memory.Go.Time.{parse_rfc3339}
use personal_memory.Go.Json.{
  Value, null, bool, str, number, float, arr, strs, obj, Items, nil, cons, Fields, end, field, get,
  items_of,
}
use personal_memory.Lifecycle.Model.{
  State, current, state_text, state_of, is_valid_state, Provenance, Relation, Reason, Result, ok,
  err, ◌>>=◌, ◌>>◌, View, Input, require, is_some, contains, validate, state_malformed,
  canonical_malformed, provenance_malformed, source_malformed, reference_malformed,
  verified_at_malformed, verified_at_format, transitioned_at_format, relation_malformed,
  relation_self, id_empty, id_numeric, id_malformed,
}
use personal_memory.Lifecycle.Parse.Numbers.{uint_text, float_text}

abbrev pub Payload : Type 0
Payload = Fields

-- What Parse returns: a view and a nil error, or the view made invalid and its error.
pub data Parsed : Type 0 where
  accepted : View → Parsed
  rejected : View → Parsed

abbrev pub view_of : Parsed → View
view_of (accepted v) = v
view_of (rejected v) = v

infixl 5 ◌>=>◌
abbrev pub ◌>=>◌ : Parsed → (View → Parsed) → Parsed
accepted v >=> f = f v
rejected v >=> f = rejected v

unfoldable pub invalid : View → Reason → Parsed
invalid v r = rejected (record v { valid = false; invalid_reason = some r })

-- `if err != nil { return invalid(view, err.Error()) }`, and the assignment after it.
unfoldable pub accept_or {ℓ} : {A : Type ℓ} → Result A → (A → View) → View → Parsed
unfolding invalid
accept_or (ok a) f v = accepted (f a)
accept_or (err r) f v = invalid v r

-- raw.(string)
abbrev pub as_str : Value → Option Text
as_str (str t) = some t
as_str _ = none

abbrev source_of : Option Value → Result Text
source_of (some (str s)) =
    if is_empty (trim_space s) then err source_malformed else ok (trim_space s)
source_of _ = err source_malformed

abbrev reference_of : Option Value → Result Text
reference_of none = ok []
reference_of (some (str t)) = ok t
reference_of (some _) = err reference_malformed

-- parseProvenance
unfoldable pub parse_provenance : Value → Result Provenance
parse_provenance (obj m) = do
  source ← source_of (get "source" m)
  reference ← reference_of (get "reference" m)
  ok (record { source = source; reference = reference })
parse_provenance _ = err provenance_malformed

-- normalizePointID
unfoldable pub normalize_point_id : Relation → Value → Result Text
normalize_point_id f (str t) =
    if is_empty (trim_space t) then err (id_empty f) else ok (trim_space t)
normalize_point_id f (number t) = elim (uint_text t) [ none ↦ err (id_numeric f) | some n ↦ ok n ]
normalize_point_id f (float x) = elim (float_text x) [ none ↦ err (id_numeric f) | some n ↦ ok n ]
normalize_point_id f _ = err (id_malformed f)

-- The loop of parseRelationships; `seen` holds the ids before this one.
unfoldable pub parse_ids : Relation → Text → List Text → Items → Result (List Text)
parse_ids f self seen nil = ok []
parse_ids f self seen (cons x xs) = do
  id ← normalize_point_id f x
  require (not (not (is_empty self) && text_eq id self)) (relation_self f)
  rest ← parse_ids f self (id ∷ seen) xs
  ok (if contains id seen then rest else id ∷ rest)

-- parseRelationships
unfoldable pub parse_relationships : Relation → Text → Value → Result (List Text)
unfolding parse_ids normalize_point_id
parse_relationships f point_id (arr xs) = parse_ids f (trim_space point_id) [] xs
parse_relationships f point_id (strs ts) = parse_ids f (trim_space point_id) [] (items_of ts)
parse_relationships f point_id _ = err (relation_malformed f)

unfoldable pub has_key : String → Payload → Bool
has_key k p = is_some (get k p)

-- One key of the loop over payloadFields is enough for an explicit view.
unfoldable pub is_legacy : Payload → Bool
unfolding has_key
is_legacy p = not (
    has_key "lifecycle_state" p
    || (has_key "lifecycle_transitioned_at" p
        || (has_key "canonical" p
            || (has_key "provenance" p
                || (has_key "verified_at" p
                    || (has_key "supersedes" p || has_key "superseded_by" p))))))

unfoldable pub parse_state : Option Value → View → Parsed
unfolding invalid state_of
parse_state none v = accepted v
parse_state (some (str t)) v =
    let v' = record v { state = state_of t } in
    if text_eq (trim_space t) t && is_valid_state (state_of t)
    then accepted v'
    else invalid v' state_malformed
parse_state (some _) v = invalid (record v { state = State.unknown [] }) state_malformed

unfoldable pub parse_canonical : Option Value → View → Parsed
unfolding invalid
parse_canonical none v = accepted v
parse_canonical (some (bool b)) v = accepted (record v { canonical = b })
parse_canonical (some _) v = invalid v canonical_malformed

unfoldable pub parse_provenance_field : Option Value → View → Parsed
unfolding accept_or
parse_provenance_field none v = accepted v
parse_provenance_field (some x) v =
    accept_or (parse_provenance x) (λ p. record v { provenance = some p }) v

unfoldable pub parse_verified_at : Option Value → View → Parsed
unfolding invalid
parse_verified_at none v = accepted v
parse_verified_at (some (str t)) v =
    if is_empty t
    then invalid v verified_at_malformed
    else if is_some (parse_rfc3339 t)
    then accepted (record v { verified_at = t })
    else invalid v verified_at_format
parse_verified_at (some _) v = invalid v verified_at_malformed

unfoldable pub parse_transitioned_at : Option Value → View → Parsed
unfolding invalid
parse_transitioned_at none v = accepted v
parse_transitioned_at (some (str t)) v =
    if text_eq (trim_space t) t && is_some (parse_rfc3339 t)
    then accepted (record v { transitioned_at = t })
    else invalid v transitioned_at_format
parse_transitioned_at (some _) v = invalid v transitioned_at_format

-- view.Supersedes, err = parseRelationships(...): on an error the field becomes nil.
unfoldable pub parse_supersedes : Text → Option Value → View → Parsed
unfolding accept_or
parse_supersedes point_id none v = accepted v
parse_supersedes point_id (some x) v =
    accept_or (parse_relationships Relation.supersedes point_id x)
      (λ ids. record v { supersedes = ids }) (record v { supersedes = [] })

unfoldable pub parse_superseded_by : Text → Option Value → View → Parsed
unfolding accept_or
parse_superseded_by point_id none v = accepted v
parse_superseded_by point_id (some x) v =
    accept_or (parse_relationships Relation.superseded_by point_id x)
      (λ ids. record v { superseded_by = ids }) (record v { superseded_by = [] })

unfoldable pub validate_view : View → Parsed
unfolding accept_or
validate_view v = accept_or (validate v) (λ _. v) v

-- The view that Parse starts from.
unfoldable pub initial : Bool → View
initial legacy = record {
  state = current;
  legacy = legacy;
  canonical = false;
  provenance = none;
  verified_at = [];
  transitioned_at = [];
  supersedes = [];
  superseded_by = [];
  valid = true;
  invalid_reason = none;
}

-- Parse
unfoldable pub parse : Payload → Text → Parsed
unfolding initial is_legacy
parse p point_id =
    accepted (initial (is_legacy p))
    >=> parse_state (get "lifecycle_state" p)
    >=> parse_canonical (get "canonical" p)
    >=> parse_provenance_field (get "provenance" p)
    >=> parse_verified_at (get "verified_at" p)
    >=> parse_transitioned_at (get "lifecycle_transitioned_at" p)
    >=> parse_supersedes point_id (get "supersedes" p)
    >=> parse_superseded_by point_id (get "superseded_by" p)
    >=> validate_view

-- lifecycleView of lifecycle_adapter.go drops the error.
unfoldable pub lifecycle_view : Text → Payload → View
unfolding parse
lifecycle_view point_id p = view_of (parse p point_id)
