-- ===== src/Recall/Options.antt =====
-- internal/memory/lifecycle_recall.go: the options of a recall, and which states a mode shows.
pub mod Laws
use personal_memory.Go.Text.{Text, text, text_eq}
use personal_memory.Go.Time.{parse_date, Instant, midnight}
use personal_memory.Go.Json.{Value, str, Fields, get}
use personal_memory.Lifecycle.Model.{State, is_valid_state, View, is_some, is_current}
use personal_memory.Lifecycle.Presentation.{
  Intent, current_intent, broad_intent, Presentation, decide_presentation,
}
use personal_memory.Prelude.{
  ◌*◌, Bool, Option, [], false, if◌then◌else◌, ltb, none, some, true, ℕ, ◌∷◌,
}

-- A Go string of type RecallLifecycleMode: the four constants, and any other text.
pub data Mode : Type 0 where
  current_mode history_mode as_of_mode include_all_mode : Mode
  unknown_mode : Text → Mode

-- RecallLifecycleMode(value)
unfoldable pub mode_of : Text → Mode
mode_of t =
    if text_eq t (text "current")
    then current_mode
    else if text_eq t (text "history")
    then history_mode
    else if text_eq t (text "as_of")
    then as_of_mode
    else if text_eq t (text "include_all")
    then include_all_mode
    else unknown_mode t

-- RecallLifecycleMode.valid
abbrev pub is_valid_mode : Mode → Bool
is_valid_mode (unknown_mode _) = false
is_valid_mode _ = true

-- LifecycleRecallOptions, the two fields that select lifecycle states
pub record Options : Type 0 where
  pub mode : Mode
  pub as_of : Text

-- LifecycleRecallOptions.normalizedMode: the empty text stands for current.
unfoldable pub normalized_mode : Options → Mode
normalized_mode o = elim o.mode [
  | unknown_mode t ↦ elim t [ [] ↦ current_mode | c ∷ r ↦ unknown_mode (c ∷ r) ]
  | m ↦ m
]

pub data OptionError : Type 0 where
  mode_not_string mode_unknown as_of_misplaced as_of_missing as_of_not_string : OptionError
  as_of_malformed : OptionError

pub data OptionResult : Type 0 where
  accept : Options → OptionResult
  refuse : OptionError → OptionResult

-- parseUTCCalendarDate of server.go. A date that parses by the layout is written back as it was
-- read, so its comparison with its own Format never fails, nor does that of the lengths.
unfoldable pub parse_calendar_date : Text → Option Instant
parse_calendar_date t = elim (parse_date t) [ none ↦ none | some d ↦ some (midnight d) ]

unfoldable pub options_of_mode : Mode → Option Value → OptionResult
unfolding parse_calendar_date
options_of_mode as_of_mode none = refuse as_of_missing
options_of_mode as_of_mode (some (str t)) =
    if is_some (parse_calendar_date t)
    then accept (record { mode = as_of_mode; as_of = t })
    else refuse as_of_malformed
options_of_mode as_of_mode (some _) = refuse as_of_not_string
options_of_mode (unknown_mode t) _ = refuse mode_unknown
options_of_mode m none = accept (record { mode = m; as_of = [] })
options_of_mode m (some _) = refuse as_of_misplaced

abbrev pub options_of : Option Value → Option Value → OptionResult
options_of none as_of = options_of_mode current_mode as_of
options_of (some (str t)) as_of = options_of_mode (mode_of t) as_of
options_of (some _) as_of = refuse mode_not_string

-- parseLifecycleRecallOptions
unfoldable pub parse_options : Fields → OptionResult
unfolding options_of_mode mode_of
parse_options args = options_of (get "lifecycle_mode" args) (get "as_of" args)

-- lifecycleVisibleInRecallMode
unfoldable pub is_visible : State → Mode → Bool
is_visible s m = elim m [
  | current_mode ↦ is_current s
  | unknown_mode _ ↦ false
  | _ ↦ is_valid_state s
]

abbrev pub intent_of : Mode → Intent
intent_of current_mode = current_intent
intent_of _ = broad_intent

-- lifecycleRecallDecision
unfoldable pub recall_decision : Mode → View → Bool → Presentation
unfolding decide_presentation
recall_decision mode v has_canonical = decide_presentation (intent_of mode) v false has_canonical

-- lifecycleCandidateLimit of lifecycle_adapter.go, for a limit that is not negative
unfoldable pub candidate_limit : ℕ → ℕ
candidate_limit limit =
    let wanted = limit * 4 in
    let at_least = if ltb wanted 20 then 20 else wanted in
    if ltb 400 at_least then 400 else at_least
