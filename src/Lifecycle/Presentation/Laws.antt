-- ===== src/Lifecycle/Presentation/Laws.antt =====
-- internal/memory/lifecycle/presentation.go against IsCurrentTruth of
-- internal/memory/lifecycle/model.go.
use personal_memory.Lifecycle.Model.{current, historical, superseded, disputed}
use personal_memory.Prelude.{◌&&◌, Bool, Bool-cases, false, inl, inr, not, refl, true, ◌≡◌}
use personal_memory.Lifecycle.Presentation.{
  include, demote, Decision, decide_presentation, decide_state, presentation, current_intent,
}
use personal_memory.Lifecycle.Model.{State, View, is_current, is_current_truth, unknown}

abbrev pub is_presented : Decision → Bool
is_presented include = true
is_presented demote = true
is_presented _ = false

presented_state :
    (s : State) (canonical has_canonical : Bool)
    → is_presented ((decide_state current_intent s canonical has_canonical).decision) ≡ is_current s
unfolding decide_state presentation
presented_state current canonical has_canonical =
    elim (Bool-cases (not canonical && has_canonical)) [ inl e ↦ rw e refl | inr e ↦ rw e refl ]
presented_state historical canonical has_canonical = refl
presented_state superseded canonical has_canonical = refl
presented_state disputed canonical has_canonical = refl
presented_state (unknown t) canonical has_canonical = refl

-- In the current intent a fact is presented, as included or as demoted, exactly if it is a
-- current truth.
pub decide_presentation-is_current_truth :
    (v : View) (is_expired has_canonical : Bool)
    → is_presented ((decide_presentation current_intent v is_expired has_canonical).decision)
      ≡ is_current_truth v is_expired
unfolding decide_presentation is_current_truth presentation
decide_presentation-is_current_truth v true has_canonical = elim (Bool-cases v.valid) [
  | inl e ↦ rw e refl
  | inr e ↦ rw e refl
]
decide_presentation-is_current_truth v false has_canonical = elim (Bool-cases v.valid) [
  | inl e ↦ rw e (presented_state v.state v.canonical has_canonical)
  | inr e ↦ rw e refl
]
