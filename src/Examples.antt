-- ===== src/Examples.antt =====
-- Runs of the modelled code on concrete facts, candidates and files.
mod Services
mod Quarantine
mod Purging
mod Groups
mod Fusion
mod Counting
mod Ranking
use mathlib.Core.List.{Perm}
use personal_memory.Go.Json.{arr, nil, cons}
use personal_memory.Prelude.{
  ◌≡◌, ◌*◌, ◌<◌, All, List, [], arith, false, if◌then◌else◌, length, map, refl, true, ◌↔◌, ◌∷◌, ◌⊎◌,
  some, ℕ,
}
use personal_memory.Lifecycle.Model.{View, contains, is_current_truth, validate, ok, Input, current}
use personal_memory.Lifecycle.Rank.{Candidate, ranks_before, sort_candidates}
use personal_memory.Go.Json.{Fields, field, get, str, bool, end, arr, cons, nil}
use personal_memory.Go.Time.{Instant, day_start, nanosecond_day, parse_date, parse_rfc3339}
use personal_memory.Rag.Chunker.Markdown.{IsChunk, bodies, chunk-IsChunk, concat-chunk_plain}
use personal_memory.Lifecycle.Parse.Laws.{IsParsed, lifecycle_view-valid_iff, parse-IsParsed}
use personal_memory.Recall.Present.Order.{
  IsPresentable, present_candidates-IsPresentable, present_candidates-IsSorted, shown,
}
use personal_memory.Go.Sort.{IsSorted}
use personal_memory.Recall.Options.Laws.{IsSound, parse_options-IsSound}
use personal_memory.Lifecycle.Model.Laws.{IsWellFormed, validate_iff}
use personal_memory.Recall.Options.{Options, parse_options, include_all_mode, as_of_mode, accept}
use personal_memory.Recall.Present.{Point, present_candidates, to_candidate}
use personal_memory.Go.Text.{Text, text, text_eq, trim_space}
use personal_memory.Lifecycle.Payload.{apply_to_payload, payload_fields, payload_from_view}
use personal_memory.Rag.Chunker.{chunk}
use personal_memory.Go.Strings.{concat}
use personal_memory.Lifecycle.Presentation.{decide_presentation, current_intent}
use personal_memory.Lifecycle.Presentation.Laws.{decide_presentation-is_current_truth, is_presented}
use personal_memory.Recall.Expiry.{
  fact_expired_at, fact_expired_at_iff, valid_until_payload, malformed, until, IsOver,
}
use personal_memory.Lifecycle.Payload.Laws.{get-apply_to_payload, is_field}
use personal_memory.Lifecycle.Parse.{
  has_key, initial, is_legacy, lifecycle_view, parse, parse_canonical, parse_provenance_field,
  parse_relationships, parse_state, parse_superseded_by, parse_supersedes, parse_transitioned_at,
  parse_verified_at, validate_view, accepted,
}
use personal_memory.Lifecycle.Payload.RoundTrip.{parse-apply_to_payload}
use personal_memory.Recall.Present.Laws.{ranks_from}
use personal_memory.Lifecycle.Rank.Laws.{sort_candidates_lem}
use personal_memory.Go.Float.{finite, nan}
use personal_memory.Lifecycle.Write.Laws.{IsPlainInput, parse_lifecycle_input-IsPlainInput}
use personal_memory.Lifecycle.Write.{parse_lifecycle_input}

-- Three stored facts: a canonical one, one that is disputed, and one that a later fact replaced.
abbrev first_id : Text
first_id = text "a1"

abbrev second_id : Text
second_id = text "b2"

abbrev canonical_fact : Fields
canonical_fact = field "lifecycle_state" (str (text "current")) (
    field "canonical" (bool true) (
      field "supersedes" (arr (cons (str second_id) nil)) (
        field "lifecycle_transitioned_at" (str (text "2024-05-01T10:00:00Z"))
          (field "valid_until" (str (text "2024-06-30")) end))))

abbrev disputed_fact : Fields
disputed_fact = field "lifecycle_state" (str (text "disputed")) end

abbrev canonical_view : View
canonical_view = lifecycle_view first_id canonical_fact

canonical_fact_accepted : parse canonical_fact first_id ≡ accepted canonical_view
unfolding parse lifecycle_view parse_state parse_canonical parse_provenance_field parse_verified_at
    parse_transitioned_at parse_supersedes parse_superseded_by validate_view parse_relationships
    validate trim_space parse_rfc3339 get has_key text_eq contains initial is_legacy
canonical_fact_accepted = refl

parse-IsParsed_example : IsParsed canonical_fact first_id canonical_view
parse-IsParsed_example =
    parse-IsParsed canonical_fact first_id canonical_view canonical_fact_accepted

parse-apply_to_payload_example :
    parse (apply_to_payload disputed_fact canonical_view) first_id
    ≡ accepted (record canonical_view { legacy = false })
parse-apply_to_payload_example =
    parse-apply_to_payload canonical_fact disputed_fact first_id canonical_view
      canonical_fact_accepted

validate_iff_example : (validate canonical_view ≡ ok tt) ↔ IsWellFormed canonical_view
validate_iff_example = validate_iff canonical_view

lifecycle_view-valid_iff_example :
    ((lifecycle_view first_id canonical_fact).valid ≡ true)
    ↔ (parse canonical_fact first_id ≡ accepted (lifecycle_view first_id canonical_fact))
      × IsParsed canonical_fact first_id (lifecycle_view first_id canonical_fact)
lifecycle_view-valid_iff_example = lifecycle_view-valid_iff canonical_fact first_id

get-apply_to_payload_example : get "canonical" (apply_to_payload disputed_fact canonical_view) ≡ (
    if is_field "canonical" payload_fields
    then get "canonical" (payload_from_view canonical_view)
    else get "canonical" disputed_fact)
get-apply_to_payload_example = get-apply_to_payload "canonical" disputed_fact canonical_view

abbrev candidates : List Candidate
candidates =
    record { point_id = second_id; score = nan; view = canonical_view }
    ∷ record {
      point_id = first_id;
      score = finite false 1;
      view = lifecycle_view first_id disputed_fact;
    }
    ∷ record { point_id = second_id; score = finite false 1; view = canonical_view }
    ∷ []

sort_candidates_lem_example :
    Perm (sort_candidates candidates) candidates
    × IsSorted ranks_before (sort_candidates candidates)
sort_candidates_lem_example = sort_candidates_lem candidates

abbrev today : Instant
today = 738944 * nanosecond_day

abbrev stored : List Point
stored =
    record { id = second_id; score = finite false 1; payload = disputed_fact }
    ∷ record { id = first_id; score = finite false 1; payload = canonical_fact }
    ∷ record { id = first_id; score = nan; payload = end }
    ∷ []

abbrev all_facts : Options
all_facts = record { mode = include_all_mode; as_of = [] }

present_candidates-IsSorted_example :
    Perm
      (map to_candidate (present_candidates stored all_facts today))
      (map to_candidate (shown stored all_facts today))
    × IsSorted ranks_before (map to_candidate (present_candidates stored all_facts today))
    × (map (λ c. c.final_rank) (present_candidates stored all_facts today)
        ≡ ranks_from 1 (length (present_candidates stored all_facts today)))
present_candidates-IsSorted_example = present_candidates-IsSorted stored all_facts today

present_candidates-IsPresentable_example :
    All (IsPresentable all_facts today) (present_candidates stored all_facts today)
present_candidates-IsPresentable_example = present_candidates-IsPresentable stored all_facts today

fact_expired_at_iff_example :
    (fact_expired_at canonical_fact today ≡ true) ↔ IsOver (get "valid_until" canonical_fact) today
fact_expired_at_iff_example = fact_expired_at_iff canonical_fact today

decide_presentation-is_current_truth_example :
    is_presented ((decide_presentation current_intent canonical_view false true).decision)
    ≡ is_current_truth canonical_view false
decide_presentation-is_current_truth_example =
    decide_presentation-is_current_truth canonical_view false true

abbrev as_of_arguments : Fields
as_of_arguments =
    field "lifecycle_mode" (str (text "as_of")) (field "as_of" (str (text "2024-05-01")) end)

abbrev as_of_options : Options
as_of_options = record { mode = as_of_mode; as_of = text "2024-05-01" }

as_of_arguments_accepted : parse_options as_of_arguments ≡ accept as_of_options
unfolding parse_options parse_date get text_eq
as_of_arguments_accepted = refl

parse_options-IsSound_example : IsSound as_of_options
parse_options-IsSound_example =
    parse_options-IsSound as_of_arguments as_of_options as_of_arguments_accepted

abbrev note : Text
note = text "# Plan. One. Two words here. Three."

chunk-IsChunk_example : All (IsChunk 8) (chunk note 8 true)
chunk-IsChunk_example = chunk-IsChunk note 8 true (omega arith)

concat-chunk_plain_example : concat (bodies (chunk note 8 false)) ≡ note
concat-chunk_plain_example = concat-chunk_plain note 8 (omega arith)

abbrev arguments : Fields
arguments =
    field "supersedes" (arr (cons (str second_id) nil))
      (field "provenance_source" (str (text "chat")) end)

abbrev written : Input
written = record {
  state = current;
  canonical = false;
  provenance = some (record { source = text "chat"; reference = [] });
  verified_at = [];
  supersedes = second_id ∷ [];
  superseded_by = [];
}

abbrev no_size : Input → ℕ
no_size i = 0

arguments_accepted : parse_lifecycle_input no_size false arguments ≡ some (some written)
unfolding parse_lifecycle_input get trim_space
arguments_accepted = refl

parse_lifecycle_input-IsPlainInput_example : IsPlainInput no_size written
parse_lifecycle_input-IsPlainInput_example =
    parse_lifecycle_input-IsPlainInput no_size false arguments written arguments_accepted
