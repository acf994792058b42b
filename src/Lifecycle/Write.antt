-- ===== src/Lifecycle/Write.antt =====
-- internal/memory/lifecycle_write.go: the lifecycle arguments of a tool call that writes a fact,
-- with validateBoundedString of internal/memory/server.go, and ValidateRelationshipsForPoint of
-- internal/memory/lifecycle/model.go.
--
-- An error is `none`, without its message. The size of a value's JSON is an argument.
pub mod Laws
use personal_memory.Prelude.{
  ◌>>=◌, ◌&&◌, ◌++◌, Bool, List, Option, String, [], false, if◌then◌else◌, length, ltb, none, not,
  some, true, ◌||◌, ℕ, ◌∷◌,
}
use personal_memory.Lifecycle.Model.{
  current, ok, err, Input, Provenance, Relation, Result, State, View, state_of, state_text,
}
use personal_memory.Go.Json.{null, nil, cons, str, bool, strs, arr, Fields, Items, Value, get}
use personal_memory.Go.Text.{Text, is_empty, text_eq, trim_space}
use personal_memory.Lifecycle.Parse.{has_key, parse_relationships}
use personal_memory.Lifecycle.Payload.{payload_from_view}

-- validateBoundedString, which here returns the text that it accepts
unfoldable pub bounded : Bool → ℕ → Text → Option Text
bounded required max t =
    if required && is_empty (trim_space t)
    then none
    else if ltb max (length t)
    then none
    else some t

-- lifecycleStringParam
unfoldable pub string_param : Option Value → Option Text
string_param none = some []
string_param (some null) = some []
string_param (some (str t)) = some t
string_param (some _) = none

abbrev pub bool_param : Option Value → Option Bool
bool_param none = some false
bool_param (some null) = some false
bool_param (some (bool b)) = some b
bool_param (some _) = none

abbrev pub is_given : Option Value → Bool
is_given none = false
is_given (some null) = false
is_given (some _) = true

-- The loop over lifecycleArgumentKeys
unfoldable pub is_present : Fields → Bool
is_present args =
    is_given (get "lifecycle_state" args)
    || (is_given (get "canonical" args)
        || (is_given (get "provenance_source" args)
            || (is_given (get "provenance_reference" args)
                || (is_given (get "verified_at" args)
                    || (is_given (get "supersedes" args) || is_given (get "superseded_by" args))))))

-- The loop over the items of an array, each of which must be a string.
unfoldable pub strings_of : Items → Option (List Text)
strings_of nil = some []
strings_of (cons (str t) xs) = do rest ← strings_of xs; some (t ∷ rest)
strings_of (cons _ xs) = none

-- The loop that checks the ids.
unfoldable pub bounded_ids : List Text → Option (List Text)
unfolding bounded
bounded_ids [] = some []
bounded_ids (t ∷ ts) = do id ← bounded true 255 t; rest ← bounded_ids ts; some (id ∷ rest)

-- The two tests at the end of lifecycleRelationshipParam; the test of an array's length before its
-- items are read gives the same error.
unfoldable pub checked_ids : List Text → Option (List Text)
unfolding bounded_ids
checked_ids ts = if ltb 100 (length ts) then none else bounded_ids ts

-- lifecycleRelationshipParam
unfoldable pub relationship_param : Option Value → Option (List Text)
unfolding checked_ids strings_of
relationship_param none = some []
relationship_param (some null) = some []
relationship_param (some (strs ts)) = checked_ids ts
relationship_param (some (arr xs)) = do ts ← strings_of xs; checked_ids ts
relationship_param (some _) = none

abbrev pub state_param : Bool → Text → Option State
state_param true [] = none
state_param false [] = some current
state_param require_state (c ∷ t) = some (state_of (c ∷ t))

abbrev pub provenance_param : Text → Text → Option (Option Provenance)
provenance_param source reference =
    if not (is_empty reference) && is_empty (trim_space source)
    then none
    else if is_empty (trim_space source)
    then some none
    else some (some (record { source = source; reference = reference }))

unfoldable pub state_argument : Bool → Fields → Option State
unfolding string_param
state_argument require_state args = do
  t ← string_param (get "lifecycle_state" args)
  state_param require_state t

unfoldable pub provenance_argument : Fields → Option (Option Provenance)
unfolding string_param bounded
provenance_argument args = do
  source_text ← string_param (get "provenance_source" args)
  reference_text ← string_param (get "provenance_reference" args)
  source ← bounded false 255 source_text
  reference ← bounded false 2048 reference_text
  provenance_param source reference

unfoldable pub verified_argument : Fields → Option Text
unfolding string_param bounded
verified_argument args = do t ← string_param (get "verified_at" args); bounded false 64 t

module _ (encoded_size : Input → ℕ) where
  abbrev pub sized : Input → Option Input
  sized i = if ltb 65536 (encoded_size i) then none else some i

  -- The part of parseLifecycleInput after the state, the flag and the provenance.
  unfoldable pub input_of : State → Bool → Option Provenance → Fields → Option Input
  unfolding verified_argument relationship_param
  input_of state canonical provenance args = do
    verified_at ← verified_argument args
    supersedes ← relationship_param (get "supersedes" args)
    superseded_by ← relationship_param (get "superseded_by" args)
    sized (record {
      state = state;
      canonical = canonical;
      provenance = provenance;
      verified_at = verified_at;
      supersedes = supersedes;
      superseded_by = superseded_by;
    })

  -- parseLifecycleInput, once an argument is present
  unfoldable pub parse_present : Bool → Fields → Option Input
  unfolding state_argument provenance_argument input_of
  parse_present require_state args = do
    state ← state_argument require_state args
    canonical ← bool_param (get "canonical" args)
    provenance ← provenance_argument args
    input_of state canonical provenance args

  -- parseLifecycleInput; the result `some none` is one that is not present.
  unfoldable pub parse_lifecycle_input : Bool → Fields → Option (Option Input)
  unfolding parse_present is_present
  parse_lifecycle_input require_state args =
      let parsed = parse_present require_state args in
      if is_present args
      then (do i ← parsed; some (some i))
      else if require_state
      then none
      else some none

abbrev pub same_state : State → State → Bool
same_state s t = text_eq (state_text s) (state_text t)

-- lifecycleTransitionedAt
unfoldable pub transitioned_at_for : View → View → Text → Text
unfolding state_text
transitioned_at_for old target now =
    if not old.valid
      || (old.legacy || (not (same_state old.state target.state) || is_empty old.transitioned_at))
    then now
    else old.transitioned_at

-- The keys that lifecycleMutationPayload deletes.
unfoldable pub deleted_keys : Fields → List String
unfolding has_key
deleted_keys set =
    (if has_key "provenance" set then [] else "provenance" ∷ [])
    ++ (if has_key "verified_at" set then [] else "verified_at" ∷ [])

-- lifecycleMutationPayload
unfoldable pub mutation_payload : View → Fields × List String
unfolding payload_from_view deleted_keys
mutation_payload v = (payload_from_view v, deleted_keys (payload_from_view v))

abbrev is_ok : Result (List Text) → Bool
is_ok (ok ids) = true
is_ok (err r) = false

abbrev pub parses_relationships : Relation → Text → Option Value → Bool
parses_relationships f id none = true
parses_relationships f id (some v) = is_ok (parse_relationships f id v)

-- ValidateRelationshipsForPoint: whether its error is nil
unfoldable pub validate_relationships_for_point : Fields → Text → Bool
unfolding parse_relationships
validate_relationships_for_point p id =
    parses_relationships Relation.supersedes id (get "supersedes" p)
    && parses_relationships Relation.superseded_by id (get "superseded_by" p)
