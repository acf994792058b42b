-- ===== src/Recall/Counter/Steps.antt =====
-- Runs of the counter of internal/memory/recall_counter.go.
use personal_memory.Recall.Counter.{
  enqueue, receive, tick, stop, RecallStore, drain, Event, RecallCounter, accepts_batch,
  receive_from, shutdown, step, steps,
}
use personal_memory.Go.Int.{ℤ}
use personal_memory.Prelude.{
  ◌+◌, Bool-cases, List, [], arith, if◌then◌else◌, inl, inr, ℕ, ◌∷◌, ◌≡◌, ◌≤◌, ap, refl,
}
use personal_memory.Go.Json.{Value}
use personal_memory.Go.Float.{Float}
use personal_memory.Go.Text.{Text}
use personal_memory.Recall.Counter.Laws.{
  IsCounting, flush-counts, flush_rounds-counts, occurrences, pending_at,
  pending_at-add_recall_batch, pending_at-drain, queued_at, queued_at-append, exact_limit,
}

module _ (store : RecallStore) (int_of : Float → ℤ) (int_value : ℤ → Value) (now : Text)
    (counting : IsCounting store int_of int_value) where
  open store use {State, get_point, set_payload, invalidate}
  open counting use {recalls}

  -- The recalls of `j` that are counted, pending or queued
  abbrev pub counted_at : Text → RecallCounter store int_of int_value now → ℕ
  counted_at j c = recalls c.world j + pending_at j c.pending + queued_at j c.queue

  -- The recalls of `j` in the batches that are put into the channel
  abbrev pub accepted_at :
      Text → Event store int_of int_value now → RecallCounter store int_of int_value now → ℕ
  accepted_at j (enqueue batch) c =
      if accepts_batch store int_of int_value now batch c then occurrences j batch else 0
  accepted_at j _ c = 0

  unfoldable pub all_accepted_at :
      Text → List (Event store int_of int_value now) → RecallCounter store int_of int_value now → ℕ
  all_accepted_at j [] c = 0
  all_accepted_at j (e ∷ es) c =
      accepted_at j e c + all_accepted_at j es (step store int_of int_value now e c)

  step-counts :
      (j : Text) (e : Event store int_of int_value now)
      (c : RecallCounter store int_of int_value now)
      → counted_at j c ≤ exact_limit
      → counted_at j (step store int_of int_value now e c) ≤ counted_at j c + accepted_at j e c
  unfolding step queued_at
  step-counts j (enqueue batch) c l =
      elim (Bool-cases (accepts_batch store int_of int_value now batch c)) [
        | inl e ↦ rw e (omega (arith, queued_at-append j c.queue batch))
        | inr e ↦ rw e (omega arith)
      ]
  step-counts j receive c l = received c.queue refl
    where
      received :
          (queue : List (List Text))
          → c.queue ≡ queue
          → counted_at j (receive_from store int_of int_value now queue c) ≤ counted_at j c + 0
      received [] e = omega arith
      received (batch ∷ queue) e =
          omega (arith, ap (queued_at j) e, pending_at-add_recall_batch j c.pending batch)
  step-counts j tick c l =
      omega
        (arith, flush-counts store int_of int_value now counting j c.pending c.world (omega arith))
  step-counts j stop c l = omega arith

  steps-counts :
      (j : Text) (es : List (Event store int_of int_value now))
      (c : RecallCounter store int_of int_value now)
      → counted_at j c + all_accepted_at j es c ≤ exact_limit
      → counted_at j (steps store int_of int_value now es c)
        ≤ counted_at j c + all_accepted_at j es c
  unfolding steps all_accepted_at
  steps-counts j [] c l = omega arith
  steps-counts j (e ∷ es) c l =
      let one = step-counts j e c (omega arith) in
      omega
        (arith, one, steps-counts j es (step store int_of int_value now e c) (omega (arith, one)))

  -- Let no other process write the counts, let a read that succeeds show the count of the fact, let
  -- a write be applied or not, whichever it answers, and let the counts of a fact stay within
  -- 2 ^ 53. Then the recalls of the fact that are counted or still pending after the worker's end
  -- are at most those that were counted, pending or queued at first and those in the batches that
  -- the channel took since: no recall is counted twice.
  pub shutdown-counts :
      (waits : ℕ) (j : Text) (es : List (Event store int_of int_value now))
      (c : RecallCounter store int_of int_value now)
      → counted_at j c + all_accepted_at j es c ≤ exact_limit
      → let end =
          shutdown store int_of int_value now waits (steps store int_of int_value now es c) in
        recalls end.world j + pending_at j end.pending ≤ counted_at j c + all_accepted_at j es c
  unfolding shutdown
  shutdown-counts waits j es c l =
      let d = steps store int_of int_value now es c in
      let grown = steps-counts j es c l in
      let drained = pending_at-drain j d.pending d.queue in
      omega (
        arith,
        grown,
        flush_rounds-counts store int_of int_value now counting waits j (drain d.pending d.queue)
            d.world (omega (arith, grown, drained)),
        drained,
      )
