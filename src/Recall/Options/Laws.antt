-- ===== src/Recall/Options/Laws.antt =====
-- The options that parseLifecycleRecallOptions of internal/memory/lifecycle_recall.go accepts.
use personal_memory.Prelude.{
  Bool-cases, [], arith, inl, inr, refl, some, true, ◌≡◌, ◌≢◌, Option, none, subst,
}
use personal_memory.Go.Json.{null, bool, str, number, float, arr, strs, obj}
use personal_memory.Recall.Options.{
  OptionResult, Options, is_valid_mode, normalized_mode, options_of_mode, parse_calendar_date,
  as_of_mode, current_mode, history_mode, include_all_mode, unknown_mode, accept, refuse, Mode,
  options_of, parse_options, mode_of,
}
use personal_memory.Go.Text.{Text}
use personal_memory.Lifecycle.Model.{is_some}
use personal_memory.Go.Json.{Fields, Value, str, get}

-- Options that the handler of a recall may rely on.
pub record IsSound (o : Options) : Type 0 where
  pub known_mode : is_valid_mode o.mode ≡ true
  pub normalized : normalized_mode o ≡ o.mode
  pub as_of_given : o.mode ≡ as_of_mode → is_some (parse_calendar_date o.as_of) ≡ true
  pub as_of_absent : o.mode ≢ as_of_mode → o.as_of ≡ []

abbrev IsSoundResult : OptionResult → Type 0
IsSoundResult (accept o) = IsSound o
IsSoundResult (refuse _) = Unit

IsSound-as_of : (t : Text) → IsSoundResult (options_of_mode as_of_mode (some (str t)))
unfolding options_of_mode normalized_mode
IsSound-as_of t = elim (Bool-cases (is_some (parse_calendar_date t))) [
  | inl e ↦ rw e (record {
    known_mode = refl;
    normalized = refl;
    as_of_given = λ _. e;
    as_of_absent = λ n. ground (arith, n refl);
  })
  | inr e ↦ rw e tt
]

IsSound-plain :
    (m : Mode)
    → normalized_mode (record { mode = m; as_of = [] }) ≡ m
    → is_valid_mode m ≡ true
    → m ≢ as_of_mode
    → IsSound (record { mode = m; as_of = [] })
IsSound-plain m n k d = record {
  known_mode = k;
  normalized = n;
  as_of_given = λ e. ground (arith, d e);
  as_of_absent = λ _. refl;
}

options_of_mode-IsSound : (m : Mode) (v : Option Value) → IsSoundResult (options_of_mode m v)
unfolding options_of_mode normalized_mode
options_of_mode-IsSound as_of_mode none = tt
options_of_mode-IsSound as_of_mode (some null) = tt
options_of_mode-IsSound as_of_mode (some (bool b)) = tt
options_of_mode-IsSound as_of_mode (some (str t)) = IsSound-as_of t
options_of_mode-IsSound as_of_mode (some (number t)) = tt
options_of_mode-IsSound as_of_mode (some (float f)) = tt
options_of_mode-IsSound as_of_mode (some (arr i)) = tt
options_of_mode-IsSound as_of_mode (some (strs l)) = tt
options_of_mode-IsSound as_of_mode (some (obj f)) = tt
options_of_mode-IsSound (unknown_mode t) v = tt
options_of_mode-IsSound current_mode none = IsSound-plain current_mode refl refl (ground arith)
options_of_mode-IsSound history_mode none = IsSound-plain history_mode refl refl (ground arith)
options_of_mode-IsSound include_all_mode none =
    IsSound-plain include_all_mode refl refl (ground arith)
options_of_mode-IsSound current_mode (some v) = tt
options_of_mode-IsSound history_mode (some v) = tt
options_of_mode-IsSound include_all_mode (some v) = tt

options_of-IsSound : (v w : Option Value) → IsSoundResult (options_of v w)
options_of-IsSound none w = options_of_mode-IsSound current_mode w
options_of-IsSound (some null) w = tt
options_of-IsSound (some (bool b)) w = tt
options_of-IsSound (some (str t)) w = options_of_mode-IsSound (mode_of t) w
options_of-IsSound (some (number t)) w = tt
options_of-IsSound (some (float f)) w = tt
options_of-IsSound (some (arr i)) w = tt
options_of-IsSound (some (strs l)) w = tt
options_of-IsSound (some (obj f)) w = tt

-- The options that are accepted have a known mode, which normalization keeps, and a date exactly
-- in the mode `as_of`, where it parses.
pub parse_options-IsSound :
    (args : Fields) (o : Options) → parse_options args ≡ accept o → IsSound o
unfolding parse_options
parse_options-IsSound args o e =
    subst IsSoundResult e (options_of-IsSound (get "lifecycle_mode" args) (get "as_of" args))
