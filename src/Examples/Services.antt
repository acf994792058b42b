-- ===== src/Examples/Services.antt =====
-- Runs of the budget, the cache and the maintenance analysis.
use personal_memory.Prelude.{
  ◌≡◌, ◌*◌, All, List, [], arith, false, inl, none, refl, some, true, ℕ, ◌↔◌, ◌∷◌, Bool, length,
  ◌≤◌,
}
use personal_memory.Go.Json.{field, end, str, Fields, get}
use personal_memory.Go.Int.{pos, ℤ}
use personal_memory.Go.Float.{finite}
use personal_memory.Policy.Budget.{
  Budget, Limits, Reservation, begin, empty_ledger, finish, reservation_id, valid_ledger, written,
  reserved, lost, unsynced, ledger_of_day,
}
use personal_memory.Recall.Cache.{
  Cache, Flight, acquire, finish_recall, get_recall, invalidate, lookup, leads, waits,
}
use personal_memory.Policy.Budget.Steps.{IsLimits, IsSafe}
use personal_memory.Policy.Budget.Runs.{Call, IsDated, begins, finishes, run, run-IsSafe}
use personal_memory.Maintenance.Classify.{
  CandidateClass, ScrollPoint, class_less, classify, contains_class,
}
use personal_memory.Go.Float.{Float}
use personal_memory.Maintenance.Analyze.{
  IsManifest, Manifest, analyze, analyze-IsManifest, scanned_points, analysed,
}
use personal_memory.Policy.Budget.Effects.{IsHeld, begin-IsHeld}
use personal_memory.Policy.Budget.Laws.{IsLedger, valid_ledger_iff}
use personal_memory.Maintenance.Classify.Laws.{
  IsQuarantinable, classify-IsQuarantinable, classify-classes, has_class,
}
use personal_memory.Go.Sort.{IsSorted}
use personal_memory.Maintenance.Status.{MaintenanceOptions, validate_options}
use personal_memory.Go.Text.{Text, text, text_eq, text_lt, trim_space}
use personal_memory.Recall.Cache.Laws.{
  acquire-leads, finish_recall-steps-invalidate, steps, acquires, invalidates,
}
use personal_memory.Lifecycle.Parse.Numbers.{format_uint}
use personal_memory.Lifecycle.Parse.{lifecycle_view}
use personal_memory.Go.Time.{nanosecond_day, parse_date}
use personal_memory.Recall.Related.Laws.{
  Blocks, IsBest, IsRelated, select_related_candidates-IsRelated,
}
use personal_memory.Facts.Subject.{FactSubject, subject_arguments, validate_subject, str_param}
use personal_memory.Recall.Present.{Point}
use personal_memory.Recall.Related.{select_related_candidates}
use personal_memory.Policy.Budget.Runs.{Call, IsDated, run-IsSafe}
use personal_memory.Policy.Budget.Charge.{IsCharged, finish-begin-IsCharged}
use personal_memory.Facts.Subject.Laws.{IsDeclared, subject_arguments-IsDeclared}

abbrev first_day : Text
first_day = text "2024-05-01"

abbrev small : Limits
small = record { daily_calls = 2; daily_input_tokens = 100; reservation_tokens = 60 }

abbrev unused : Budget
unused = record { limits = small; ledger = empty_ledger []; is_held = false; file = none }

small-IsLimits : IsLimits small
small-IsLimits = record { positive = omega arith; affordable = omega arith; machine = omega arith }

unused-IsSafe : IsSafe unused
unused-IsSafe = record {
  limited = small-IsLimits;
  state = inl refl;
  filed = tt;
  within = record { tokens_within = omega arith; calls_within = omega arith; roomy = omega arith };
}

abbrev one_call : Reservation
one_call = record { id = reservation_id first_day 1; is_finished = false }

abbrev one_day : List Call
one_day =
    begins written first_day
    ∷ finishes lost (pos 70) true one_call
    ∷ begins unsynced first_day
    ∷ begins written (text "2024-05-02")
    ∷ []

one_day-IsDated : All IsDated one_day
unfolding parse_date
one_day-IsDated = (refl, (tt, (refl, (refl, tt))))

run-IsSafe_example : IsSafe (run one_day unused)
run-IsSafe_example = run-IsSafe one_day unused one_day-IsDated unused-IsSafe

first_call : (begin written first_day unused).1 ≡ reserved one_call
unfolding begin text_eq text_lt format_uint
first_call = refl

begin-IsHeld_example :
    (unused.is_held ≡ false) × IsHeld small one_call ((begin written first_day unused).0)
begin-IsHeld_example = begin-IsHeld written first_day unused one_call first_call

finish-begin-IsCharged_example :
    IsCharged
      (ledger_of_day first_day unused.ledger)
      60
      10
      one_call.id
      true
      ((finish written (pos 10) true one_call ((begin written first_day unused).0)).0)
finish-begin-IsCharged_example =
    finish-begin-IsCharged written written first_day unused one_call 10 first_call (omega arith)

valid_ledger_iff_example :
    (valid_ledger (begin written first_day unused).0.ledger ≡ true)
    ↔ IsLedger ((begin written first_day unused).0.ledger)
valid_ledger_iff_example = valid_ledger_iff ((begin written first_day unused).0.ledger)

abbrev question : Text
question = text "question"

abbrev counts : Cache ℕ
counts = record { recalls = []; inflight = []; generation = 0; ttl = 5; next_serial = 3 }

abbrev old_flight : Flight
old_flight = record { serial = 2; generation = 0; waiters = 1 }

finish_recall-steps-invalidate_example :
    finish_recall 9 question old_flight
      (some 4)
      (steps (acquires 8 question (λ n. some n) ∷ invalidates ∷ []) (invalidate counts))
    ≡ (steps (acquires 8 question (λ n. some n) ∷ invalidates ∷ []) (invalidate counts), false)
finish_recall-steps-invalidate_example =
    finish_recall-steps-invalidate (acquires 8 question (λ n. some n) ∷ invalidates ∷ []) counts 9
      question old_flight (some 4) (omega arith)

acquire-leads_example :
    (f : Flight) × (c' : Cache ℕ) × (acquire 1 question (λ n. some n) counts ≡ (c', leads f))
    × ((acquire 2 question (λ n. none) c').1 ≡ waits (record f { waiters = 1 }))
    × ((finish_recall 2 question f (some 7) c').1 ≡ true)
    × (get_recall 2 question ((finish_recall 2 question f (some 7) c').0) ≡ some 7)
acquire-leads_example =
    acquire-leads 1 2 question (λ n. some n) (λ n. none) counts 7 (unfold lookup in refl)
      (unfold lookup in refl)

abbrev old_fact : ScrollPoint
old_fact = record { id = text "p1"; payload = field "valid_until" (str (text "2020-01-31")) end }

abbrev new_fact : ScrollPoint
new_fact = record { id = text "a1"; payload = field "text" (str (text "tea")) end }

abbrev policy : MaintenanceOptions
policy = record {
  collection = text "facts";
  namespace = [];
  reference_time = some (738944 * nanosecond_day);
  superseded_retention = nanosecond_day;
  stale_after = 30 * nanosecond_day;
  low_recall_threshold = pos 1;
}

abbrev zero_of : Float → ℤ
zero_of x = pos 0

abbrev id_digest : ScrollPoint → Text
id_digest p = p.id

abbrev batch_digest : Manifest → Text
batch_digest m = m.collection

classify-IsQuarantinable_example :
    ((classify zero_of id_digest [] false false
        (738944 * nanosecond_day)
        policy
        old_fact).eligible_for_quarantine
      ≡ true)
    ↔ IsQuarantinable
        (738944 * nanosecond_day)
        policy
        old_fact.payload
        (lifecycle_view old_fact.id old_fact.payload)
        zero_of
        []
        false
        false
classify-IsQuarantinable_example =
    classify-IsQuarantinable zero_of id_digest [] false false (738944 * nanosecond_day) policy
      old_fact

classify-classes_example :
    ((c : CandidateClass)
      → contains_class c (
          (classify zero_of id_digest [] false true
            (738944 * nanosecond_day)
            policy
            old_fact).classes)
        ≡ has_class
            (738944 * nanosecond_day)
            policy
            old_fact.payload
            (lifecycle_view old_fact.id old_fact.payload)
            zero_of
            []
            false
            true
            c)
    × IsSorted class_less (
        (classify zero_of id_digest [] false true
          (738944 * nanosecond_day)
          policy
          old_fact).classes)
classify-classes_example =
    classify-classes zero_of id_digest [] false true (738944 * nanosecond_day) policy old_fact

policy_passes : validate_options policy ≡ none
unfolding validate_options trim_space
policy_passes = refl

analyze-IsManifest_example :
    (m : Manifest) × (analyze zero_of id_digest batch_digest policy
        (scanned_points (old_fact ∷ new_fact ∷ []))
      ≡ analysed m)
    × IsManifest zero_of id_digest batch_digest policy
        (738944 * nanosecond_day)
        (old_fact ∷ new_fact ∷ [])
        m
analyze-IsManifest_example =
    analyze-IsManifest zero_of id_digest batch_digest policy (738944 * nanosecond_day)
      (old_fact ∷ new_fact ∷ []) policy_passes refl

-- One point that is close enough to be a duplicate, and one that is only related.
abbrev nearby : List Point
nearby =
    record { id = text "p1"; score = finite false 30; payload = end }
    ∷ record { id = text "a1"; score = finite false 15; payload = end }
    ∷ []

select_related_candidates-IsRelated_example :
    (length ((select_related_candidates 5 nearby (finite false 10) (finite false 20) 3).1) ≤ 3)
    × (All
          (IsRelated 5 (finite false 10) (finite false 20))
          ((select_related_candidates 5 nearby (finite false 10) (finite false 20) 3).1)
        × All
            (λ p.
              Blocks 5 (finite false 10) (finite false 20) p
              → IsBest
                  ((select_related_candidates 5 nearby (finite false 10) (finite false 20) 3).0)
                  p.score)
            nearby)
select_related_candidates-IsRelated_example =
    select_related_candidates-IsRelated 5 nearby (finite false 10) (finite false 20) 3

abbrev any_text : Text → Bool
any_text t = true

abbrev subject_fields : Fields
subject_fields = field "subject_context" (str (text "tea")) end

abbrev subject : FactSubject
subject = record {
  scope = text "unknown";
  context = text "tea";
  source_kind = text "client_declared";
}

subject_accepted : subject_arguments any_text subject_fields ≡ some (some subject)
unfolding subject_arguments get str_param validate_subject text_eq
subject_accepted = refl

subject_arguments-IsDeclared_example : IsDeclared any_text subject_fields subject
subject_arguments-IsDeclared_example =
    subject_arguments-IsDeclared any_text subject_fields subject subject_accepted
