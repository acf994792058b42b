-- ===== src/Lifecycle/Model.antt =====
-- internal/memory/lifecycle/model.go: the types, and Validate with what it calls.
pub mod Laws
use personal_memory.Prelude.{
  ℕ, String, Bool, true, false, not, ◌&&◌, ◌||◌, Option, none, some, List, [], ◌∷◌, ◌++◌,
  if◌then◌else◌,
}
use personal_memory.Go.Text.{Text, text, text_eq, is_empty, trim_space}
use personal_memory.Go.Time.{parse_rfc3339}

-- A Go string of type State: the four constants, and any other text.
pub data State : Type 0 where
  current historical superseded disputed : State
  unknown : Text → State

-- string(state)
unfoldable pub state_text : State → Text
state_text current = text "current"
state_text historical = text "historical"
state_text superseded = text "superseded"
state_text disputed = text "disputed"
state_text (unknown t) = t

-- State(text)
unfoldable pub state_of : Text → State
state_of t =
    if text_eq t (text "current")
    then current
    else if text_eq t (text "historical")
    then historical
    else if text_eq t (text "superseded")
    then superseded
    else if text_eq t (text "disputed")
    then disputed
    else unknown t

abbrev pub is_valid_state : State → Bool
is_valid_state (unknown _) = false
is_valid_state _ = true

abbrev pub is_current : State → Bool
is_current current = true
is_current _ = false

abbrev pub is_superseded : State → Bool
is_superseded superseded = true
is_superseded _ = false

pub record Provenance : Type 0 where
  pub source : Text
  pub reference : Text

pub data Relation : Type 0 where
  supersedes superseded_by : Relation

-- The messages of the errors, one constructor for each text in the source.
pub data Reason : Type 0 where
  state_malformed canonical_malformed provenance_malformed source_malformed : Reason
  reference_malformed verified_at_malformed verified_at_format transitioned_at_format : Reason
  relation_malformed relation_self relation_empty relation_untrimmed : Relation → Reason
  relation_duplicate id_empty id_numeric id_malformed : Relation → Reason
  view_invalid state_invalid canonical_not_current superseded_without_successor : Reason
  current_with_successor point_id_missing self_reference : Reason

-- A value and a nil error, or an error.
pub data Result {ℓ} (A : Type ℓ) : Type ℓ where
  ok : A → Result A
  err : Reason → Result A

-- `if err != nil { return err }` before what comes next
infixl 5 ◌>>=◌
abbrev pub ◌>>=◌ {ℓ μ} : {V : Type ℓ} {W : Type μ} → Result V → (V → Result W) → Result W
err reason >>= next = err reason
ok value >>= next = next value

infixl 5 ◌>>◌
abbrev pub ◌>>◌ {μ} : {W : Type μ} → Result (Unit {0}) → Result W → Result W
err reason >> next = err reason
ok _ >> next = next

pub record View : Type 0 where
  pub state : State
  pub legacy : Bool
  pub canonical : Bool
  pub provenance : Option Provenance
  pub verified_at : Text
  pub transitioned_at : Text
  pub supersedes : List Text
  pub superseded_by : List Text
  pub valid : Bool
  pub invalid_reason : Option Reason

pub record Input : Type 0 where
  pub state : State
  pub canonical : Bool
  pub provenance : Option Provenance
  pub verified_at : Text
  pub supersedes : List Text
  pub superseded_by : List Text

abbrev pub require : Bool → Reason → Result (Unit {0})
require holds reason = if holds then ok tt else err reason

abbrev pub is_some {ℓ} : {A : Type ℓ} → Option A → Bool
is_some none = false
is_some (some _) = true

-- _, exists := seen[id]
unfoldable pub contains : Text → List Text → Bool
contains t [] = false
contains t (s ∷ ss) = text_eq s t || contains t ss

-- The loop of validateNormalizedRelationships; `seen` holds the ids before this one.
unfoldable pub validate_relations : Relation → List Text → List Text → Result (Unit {0})
validate_relations field seen [] = ok tt
validate_relations field seen (id ∷ ids) =
    let rest = validate_relations field (id ∷ seen) ids in
    if is_empty (trim_space id)
    then err (relation_empty field)
    else if not (text_eq id (trim_space id))
    then err (relation_untrimmed field)
    else if contains (trim_space id) seen
    then err (relation_duplicate field)
    else rest

abbrev pub has_source : Option Provenance → Bool
has_source none = true
has_source (some p) = not (is_empty (trim_space p.source))

abbrev pub is_no_ids : List Text → Bool
is_no_ids [] = true
is_no_ids (_ ∷ _) = false

-- Validate
unfoldable pub validate : View → Result (Unit {0})
unfolding validate_relations
validate v = do
  require v.valid view_invalid
  require (is_valid_state v.state) state_invalid
  require (has_source v.provenance) source_malformed
  require (is_empty v.verified_at || is_some (parse_rfc3339 v.verified_at)) verified_at_format
  validate_relations Relation.supersedes [] v.supersedes
  validate_relations Relation.superseded_by [] v.superseded_by
  require (not (v.canonical && not (is_current v.state))) canonical_not_current
  require (not (is_superseded v.state && is_no_ids v.superseded_by)) superseded_without_successor
  require (not (is_current v.state && not (is_no_ids v.superseded_by))) current_with_successor

-- ValidateTransition; the view before the transition is not read.
unfoldable pub validate_transition : Text → View → View → Result (Unit {0})
unfolding contains
validate_transition point_id _ target = do
  validate target
  require (not (is_empty (trim_space point_id))) point_id_missing
  require (not (contains (trim_space point_id) (target.supersedes ++ target.superseded_by)))
      self_reference

-- IsCurrentTruth
unfoldable pub is_current_truth : View → Bool → Bool
is_current_truth v expired = v.valid && not expired && is_current v.state
