-- ===== src/Recall/Counter.antt =====
-- internal/memory/recall_counter.go: the counter of recalls, whose worker adds up the ids that were
-- recalled and writes the sums to Qdrant, as a state that events change.
--
-- An event is what one goroutine does at a time: a caller puts a batch into the channel, the worker
-- takes one out or flushes at a tick, or stop is called. Qdrant, the recall cache and the encoding of
-- an int are arguments: a `RecallStore` over a state that is not looked into. A pending count, which
-- counts calls of this process, is a natural number below the bound of an int. The map of pending
-- counts is the list of its entries, in whichever order a flush goes through them.

pub mod Laws
pub mod Steps
pub mod Drained
use personal_memory.Maintenance.Service.{Reply, unread, absent, found}
use personal_memory.Go.Json.{field, end, str, Fields, Value, get}
use personal_memory.Prelude.{
  ◌&&◌, ◌+◌, Bool, List, [], false, if◌then◌else◌, length, ltb, true, ℕ, ◌∷◌, suc, zero, ◌++◌,
}
use personal_memory.Go.Float.{Float}
use personal_memory.Go.Text.{Text, text_eq}
use personal_memory.Maintenance.Classify.{recall_count}
use personal_memory.Go.Int.{ℤ, int_add, pos}

pub record RecallStore : Type 1 where
  pub State : Type 0
  pub get_point : Text → State → Reply × State
  -- SetPayload; the Bool is whether its error is nil
  pub set_payload : Text → Fields → State → Bool × State
  pub invalidate : State → State

-- pending[id]++
unfoldable pub increment : Text → List (Text × ℕ) → List (Text × ℕ)
increment id [] = (id, 1) ∷ []
increment id ((j, n) ∷ ps) =
    let rest = increment id ps in if text_eq j id then (j, n + 1) ∷ ps else (j, n) ∷ rest

-- addRecallBatch
unfoldable pub add_recall_batch : List (Text × ℕ) → List Text → List (Text × ℕ)
unfolding increment
add_recall_batch pending [] = pending
add_recall_batch pending (id ∷ ids) = add_recall_batch (increment id pending) ids

-- The batches that are left in the channel, at the end
unfoldable pub drain : List (Text × ℕ) → List (List Text) → List (Text × ℕ)
unfolding add_recall_batch
drain pending [] = pending
drain pending (batch ∷ queue) = drain (add_recall_batch pending batch) queue

abbrev pub is_drained : List (Text × ℕ) → Bool
is_drained [] = true
is_drained (p ∷ ps) = false

-- `int_of` converts a float64 to an int, and `int_value` is what the JSON number of an int is read
-- back as.
module _ (store : RecallStore) (int_of : Float → ℤ) (int_value : ℤ → Value) (now : Text) where
  open store use {State, get_point, set_payload, invalidate}

  abbrev pub counted_fields : Fields → ℕ → Fields
  counted_fields p delta =
      field "recall_count"
        (int_value (int_add (recall_count int_of (get "recall_count" p)) (pos delta)))
        (field "last_recalled_at" (str now) end)

  abbrev pub flush_read : Text → ℕ → Reply × State → Bool × State
  flush_read id delta (unread, w) = (true, w)
  flush_read id delta (absent, w) = (false, w)
  flush_read id delta (found p, w) =
      (false, invalidate (set_payload id (counted_fields p.payload delta) w).1)

  -- The body of flush for one entry, and whether the entry stays. After SetPayload it does not,
  -- whether that failed or not.
  unfoldable pub flush_entry : Text → ℕ → State → Bool × State
  flush_entry id delta w = flush_read id delta (get_point id w)

  -- flush
  unfoldable pub flush : List (Text × ℕ) → State → List (Text × ℕ) × State
  unfolding flush_entry
  flush [] w = ([], w)
  flush ((id, delta) ∷ ps) w =
      let (stays, w') = flush_entry id delta w in
      let (rest, w'') = flush ps w' in (if stays then (id, delta) ∷ rest else rest, w'')

  -- The loop at the end, with as many waits as the timeout leaves time for
  unfoldable pub flush_rounds : ℕ → List (Text × ℕ) → State → List (Text × ℕ) × State
  unfolding flush
  flush_rounds zero pending w = if is_drained pending then (pending, w) else flush pending w
  flush_rounds (suc waits) pending w =
      let (left, w') = flush pending w in
      let rest = flush_rounds waits left w' in
      if is_drained pending then (pending, w) else if is_drained left then (left, w') else rest

  -- recallCounter, with the worker's pending and the store
  pub record RecallCounter : Type 0 where
    pub queue : List (List Text)
    pub capacity : ℕ
    pub accepting : Bool
    pub pending : List (Text × ℕ)
    pub world : State

  pub data Event : Type 0 where
    enqueue : List Text → Event
    receive tick stop : Event

  -- Whether enqueueBatch puts the batch into the channel; else the caller waits or has an error.
  unfoldable pub accepts_batch : List Text → RecallCounter → Bool
  accepts_batch [] c = false
  accepts_batch (id ∷ ids) c = c.accepting && ltb (length c.queue) c.capacity

  abbrev pub receive_from : List (List Text) → RecallCounter → RecallCounter
  receive_from [] c = c
  receive_from (batch ∷ queue) c = record c {
    queue = queue;
    pending = add_recall_batch c.pending batch;
  }

  -- enqueueBatch, the two cases of the worker's select, and stop
  unfoldable pub step : Event → RecallCounter → RecallCounter
  unfolding accepts_batch add_recall_batch flush
  step (enqueue batch) c =
      if accepts_batch batch c then record c { queue = c.queue ++ batch ∷ [] } else c
  step receive c = receive_from c.queue c
  step tick c = (let (left, w) = flush c.pending c.world in record c { pending = left; world = w })
  step stop c = record c { accepting = false }

  unfoldable pub steps : List Event → RecallCounter → RecallCounter
  unfolding step
  steps [] c = c
  steps (e ∷ es) c = steps es (step e c)

  -- The worker's last case: what is queued is added up and written.
  unfoldable pub shutdown : ℕ → RecallCounter → RecallCounter
  unfolding drain flush_rounds
  shutdown waits c =
      let (left, w) = flush_rounds waits (drain c.pending c.queue) c.world in
      record c { queue = []; pending = left; world = w }
