-- ===== src/Lifecycle/Presentation.antt =====
-- internal/memory/lifecycle/presentation.go
pub mod Laws
use personal_memory.Prelude.{Bool, not, ◌&&◌, List, [], ◌∷◌, if◌then◌else◌}
use personal_memory.Go.Text.{Text}
use personal_memory.Lifecycle.Model.{State, View}

-- A Go string of type PresentationIntent: the two constants, and any other text.
pub data Intent : Type 0 where
  current_intent broad_intent : Intent
  unknown_intent : Text → Intent

-- `none_made` is the empty string of the zero value.
pub data Decision : Type 0 where
  include suppress demote uncertain none_made : Decision

pub data ReasonCode : Type 0 where
  current_truth canonical_preference current_context historical historical_context : ReasonCode
  superseded superseded_context disputed invalid_lifecycle expired : ReasonCode

pub record Presentation : Type 0 where
  pub decision : Decision
  pub reason_codes : List ReasonCode

-- presentation
unfoldable pub presentation : Decision → ReasonCode → Presentation
presentation d r = record { decision = d; reason_codes = r ∷ [] }

-- The two switches of DecidePresentation; no case gives the zero value.
unfoldable pub decide_state : Intent → State → Bool → Bool → Presentation
unfolding presentation
decide_state current_intent State.current canonical has_canonical =
    if not canonical && has_canonical
    then presentation demote canonical_preference
    else presentation include current_truth
decide_state current_intent State.historical _ _ = presentation suppress ReasonCode.historical
decide_state current_intent State.superseded _ _ = presentation suppress ReasonCode.superseded
decide_state current_intent State.disputed _ _ = presentation suppress ReasonCode.disputed
decide_state broad_intent State.current _ _ = presentation include current_context
decide_state broad_intent State.historical _ _ = presentation include historical_context
decide_state broad_intent State.superseded _ _ = presentation include superseded_context
decide_state broad_intent State.disputed _ _ = presentation uncertain ReasonCode.disputed
decide_state _ _ _ _ = record { decision = none_made; reason_codes = [] }

-- DecidePresentation
unfoldable pub decide_presentation : Intent → View → Bool → Bool → Presentation
unfolding decide_state
decide_presentation intent v is_expired has_canonical =
    if not v.valid
    then presentation suppress invalid_lifecycle
    else if is_expired
    then presentation suppress expired
    else decide_state intent v.state v.canonical has_canonical
