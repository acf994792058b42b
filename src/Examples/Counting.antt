-- ===== src/Examples/Counting.antt =====
-- Runs of the recall counter against counts in memory.
use personal_memory.Go.Json.{field, end, float, get, Value}
use personal_memory.Go.Int.{pos, negsuc, ℤ, int_add}
use personal_memory.Go.Float.{finite, nan, Float}
use personal_memory.Maintenance.Service.{found}
use personal_memory.Recall.Counter.{
  enqueue, receive, tick, stop, Event, RecallCounter, RecallStore, flush_entry, shutdown, steps,
  accepts_batch, step,
}
use personal_memory.Prelude.{
  ◌+◌, Bool, List, [], false, if◌then◌else◌, inl, inr, refl, subst, true, ℕ, ◌∷◌, ◌≡◌, ◌≤◌, ◌⊎◌,
  arith, length,
}
use personal_memory.Recall.Counter.Drained.{IsAnswering, shutdown-drained, found_inj}
use personal_memory.Recall.Counter.Laws.{
  IsCounting, pending_at, queued_at, exact_limit, occurrences,
}
use personal_memory.Maintenance.Classify.{ScrollPoint, recall_count}
use personal_memory.Go.Text.{Text, text, text_eq}
use personal_memory.Recall.Counter.Steps.{all_accepted_at, counted_at, shutdown-counts}
use personal_memory.Go.Text.Laws.{text_eq_refl, text_eq-ne}

abbrev Counts : Type 0
Counts = Text → ℕ

abbrev whole_of : Float → ℤ
whole_of (finite false n) = pos n
whole_of _ = pos 0

abbrev whole_value : ℤ → Value
whole_value (pos n) = float (finite false n)
whole_value (negsuc n) = float nan

abbrev shown : Text → ℕ → ScrollPoint
shown id n = record { id = id; payload = field "recall_count" (float (finite false n)) end }

abbrev kept_count : ℕ → ℤ → ℕ
kept_count old (pos n) = n
kept_count old (negsuc n) = old

abbrev count_store : RecallStore
count_store = record {
  State = Counts;
  get_point = λ id w. (found (shown id (w id)), w);
  set_payload = λ id new w. (
    true,
    λ j.
        if text_eq id j
        then kept_count (w j) (recall_count whole_of (get "recall_count" new))
        else w j,
  );
  invalidate = λ w. w;
}

shown-count :
    (id : Text) (n : ℕ) (p : ScrollPoint)
    → found (shown id n) ≡ found p
    → recall_count whole_of (get "recall_count" p.payload) ≡ pos n
unfolding get
shown-count id n p e =
    subst (λ q. recall_count whole_of (get "recall_count" q.payload) ≡ pos n) (found_inj e) refl

kept_count-cases : (old : ℕ) (z : ℤ) → (kept_count old z ≡ old) ⊎ (z ≡ pos (kept_count old z))
kept_count-cases old (pos n) = inr refl
kept_count-cases old (negsuc n) = inl refl

abbrev counts_counting : IsCounting count_store whole_of whole_value
counts_counting = record {
  recalls = λ w j. w j;
  get_keeps = λ id j w. refl;
  invalidate_keeps = λ j w. refl;
  read_shows = λ id w p e. shown-count id (w id) p e;
  write_shows = λ id new w.
      rw (text_eq_refl id)
        (kept_count-cases (w id) (recall_count whole_of (get "recall_count" new)));
  write_keeps = λ id j new w n. rw (text_eq-ne id j n) refl;
  int_reads = λ n l. refl;
}

abbrev everywhere : Text → Bool
everywhere id = true

abbrev counts_answering : IsAnswering count_store whole_of whole_value counts_counting everywhere
counts_answering = record {
  reads = λ id w s. (shown id (w id), refl);
  writes = λ id new w n s e. rw (text_eq_refl id, e) refl;
}

abbrev no_counts : Counts
no_counts id = 0

abbrev the_time : Text
the_time = text "2024-05-01T10:00:00Z"

abbrev idle : RecallCounter count_store whole_of whole_value the_time
idle = record { queue = []; capacity = 2; accepting = true; pending = []; world = no_counts }

abbrev recalled : List Text
recalled = text "a" ∷ text "b" ∷ text "a" ∷ []

abbrev some_events : List (Event count_store whole_of whole_value the_time)
some_events = enqueue recalled ∷ receive ∷ tick ∷ enqueue recalled ∷ stop ∷ enqueue recalled ∷ []

abbrev last_counter : RecallCounter count_store whole_of whole_value the_time
last_counter =
    shutdown count_store whole_of whole_value the_time 3
      (steps count_store whole_of whole_value the_time some_events idle)

some_bound :
    counted_at count_store whole_of whole_value the_time counts_counting (text "a") idle
      + all_accepted_at count_store whole_of whole_value the_time counts_counting
          (text "a")
          some_events
          idle
    ≤ exact_limit
unfolding all_accepted_at step accepts_batch occurrences pending_at queued_at text_eq
some_bound = omega arith

shutdown-counts_example :
    last_counter.world (text "a") + pending_at (text "a") last_counter.pending
    ≤ counted_at count_store whole_of whole_value the_time counts_counting (text "a") idle
      + all_accepted_at count_store whole_of whole_value the_time counts_counting
          (text "a")
          some_events
          idle
shutdown-counts_example =
    shutdown-counts count_store whole_of whole_value the_time counts_counting 3 (text "a")
      some_events idle some_bound

-- The third batch is not taken: of the fact a, four recalls are counted.
last_count : last_counter.world (text "a") ≡ 4
unfolding shutdown steps flush_entry text_eq get int_add
last_count = refl

abbrev busy_counter : RecallCounter count_store whole_of whole_value the_time
busy_counter = record {
  queue = recalled ∷ [];
  capacity = 2;
  accepting = false;
  pending = (text "a", 1) ∷ [];
  world = no_counts;
}

occurrences_bound : (id : Text) (ids : List Text) → occurrences id ids ≤ length ids
unfolding occurrences
occurrences_bound id [] = omega arith
occurrences_bound id (j ∷ js) = ground (arith, occurrences_bound id js)

busy_bound :
    (id : Text)
    → no_counts id + pending_at id busy_counter.pending + queued_at id busy_counter.queue
      ≤ exact_limit
unfolding pending_at queued_at
busy_bound id = ground (arith, occurrences_bound id recalled)

shutdown-drained_example :
    let end = shutdown count_store whole_of whole_value the_time 0 busy_counter in
    (end.pending ≡ [])
    × (end.queue ≡ [])
    × (end.world (text "a")
        ≡ 0 + pending_at (text "a") busy_counter.pending + queued_at (text "a") busy_counter.queue)
shutdown-drained_example =
    shutdown-drained count_store whole_of whole_value the_time counts_counting everywhere
      counts_answering 0 (text "a") busy_counter (refl, tt) ((refl, (refl, (refl, tt))), tt)
      busy_bound
