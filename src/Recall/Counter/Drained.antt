-- ===== src/Recall/Counter/Drained.antt =====
-- The end of the worker of internal/memory/recall_counter.go when Qdrant answers every call.
use personal_memory.Maintenance.Service.{unread, absent, found, Reply}
use personal_memory.Go.Int.{pos, ℤ}
use personal_memory.Prelude.{
  ◌+◌, All, Bool, Bool-cases, List, [], arith, false, if◌then◌else◌, inl, inr, refl, suc, true,
  zero, ℕ, ◌∷◌, ◌≡◌, ap, subst, ◌∙◌, ◌≤◌,
}
use personal_memory.Go.Json.{Fields, Value, get}
use personal_memory.Go.Float.{Float}
use personal_memory.Recall.Counter.Laws.{
  IsCounting, pending_at, pending_at-drain, queued_at, counted_fields-count, true-ne-false,
  exact_limit,
}
use personal_memory.Recall.Counter.{
  RecallCounter, RecallStore, add_recall_batch, counted_fields, drain, flush, flush_entry,
  flush_read, flush_rounds, increment, shutdown,
}
use personal_memory.Maintenance.Classify.{ScrollPoint, recall_count}
use personal_memory.Go.Text.{Text, text_eq}
use personal_memory.Go.Text.Laws.{text_eq_iff, text_eq_refl}

-- What is relied on besides: the facts of a set are there, and what is written to them is kept.
pub record IsAnswering (store : RecallStore) (int_of : Float → ℤ) (int_value : ℤ → Value)
    (counting : IsCounting store int_of int_value) (stored : Text → Bool) : Type 0 where
  pub reads :
      (id : Text) (w : store.State)
      → stored id ≡ true
      → (p : ScrollPoint) × ((store.get_point id w).0 ≡ found p)
  pub writes :
      (id : Text) (new : Fields) (w : store.State) (n : ℕ)
      → stored id ≡ true
      → recall_count int_of (get "recall_count" new) ≡ pos n
      → counting.recalls (store.set_payload id new w).1 id ≡ n

pub found_inj : {p q : ScrollPoint} → found p ≡ found q → p ≡ q
found_inj h = cc

-- All ids are in the set.
abbrev pub KeysIn : (Text → Bool) → List (Text × ℕ) → Type 0
KeysIn stored ps = All (λ p. stored p.0 ≡ true) ps

abbrev pub BatchesIn : (Text → Bool) → List (List Text) → Type 0
BatchesIn stored queue = All (λ batch. All (λ id. stored id ≡ true) batch) queue

increment-KeysIn :
    (stored : Text → Bool) (id : Text) (ps : List (Text × ℕ))
    → stored id ≡ true
    → KeysIn stored ps
    → KeysIn stored (increment id ps)
unfolding increment
increment-KeysIn stored id [] s h = (s, tt)
increment-KeysIn stored id ((j, n) ∷ ps) s h = elim (Bool-cases (text_eq j id)) [
  | inl e ↦ rw e h
  | inr e ↦ rw e (h.0, increment-KeysIn stored id ps s h.1)
]

add_recall_batch-KeysIn :
    (stored : Text → Bool) (ps : List (Text × ℕ)) (batch : List Text)
    → All (λ id. stored id ≡ true) batch
    → KeysIn stored ps
    → KeysIn stored (add_recall_batch ps batch)
unfolding add_recall_batch
add_recall_batch-KeysIn stored ps [] b h = h
add_recall_batch-KeysIn stored ps (id ∷ ids) b h =
    add_recall_batch-KeysIn stored (increment id ps) ids b.1 (increment-KeysIn stored id ps b.0 h)

drain-KeysIn :
    (stored : Text → Bool) (ps : List (Text × ℕ)) (queue : List (List Text))
    → BatchesIn stored queue
    → KeysIn stored ps
    → KeysIn stored (drain ps queue)
unfolding drain
drain-KeysIn stored ps [] b h = h
drain-KeysIn stored ps (batch ∷ queue) b h =
    drain-KeysIn stored (add_recall_batch ps batch) queue b.1
      (add_recall_batch-KeysIn stored ps batch b.0 h)

module _ (store : RecallStore) (int_of : Float → ℤ) (int_value : ℤ → Value) (now : Text)
    (counting : IsCounting store int_of int_value) (stored : Text → Bool)
    (answering : IsAnswering store int_of int_value counting stored) where
  open store use {State, get_point, set_payload, invalidate}
  open counting use {recalls}

  flush_read_found :
      (id : Text) (d : ℕ) (x : Reply × State) (p : ScrollPoint)
      → x.0 ≡ found p
      → flush_read store int_of int_value now id d x ≡ (
        false,
        invalidate (set_payload id (counted_fields store int_of int_value now p.payload d) x.1).1,
      )
  flush_read_found id d (unread, w) p e = cc
  flush_read_found id d (absent, w) p e = cc
  flush_read_found id d (found q, w) p e =
      ap
        (λ r. (
          false,
          invalidate (set_payload id (counted_fields store int_of int_value now r.payload d) w).1,
        ))
        (found_inj e)

  flush_entry-exact :
      (id j : Text) (d : ℕ) (w : State)
      → stored id ≡ true
      → recalls w id + d ≤ exact_limit
      → ((flush_entry store int_of int_value now id d w).0 ≡ false)
        × (recalls (flush_entry store int_of int_value now id d w).1 j
            ≡ recalls w j + (if text_eq id j then d else 0))
  unfolding flush_entry
  flush_entry-exact id j d w s l =
      let w1 = (get_point id w).1 in
      let (p, e) = answering.reads id w s in
      let new = counted_fields store int_of int_value now p.payload d in
      let w2 = (set_payload id new w1).1 in
      let here = answering.writes id new w1 (recalls w id + d) s (
        counted_fields-count store int_of int_value now counting p.payload (recalls w id) d
          (counting.read_shows id w p e) l) in
      let kept = counting.invalidate_keeps j w2 in
      rw (flush_read_found id d (get_point id w) p e) (
        refl,
        elim (Bool-cases (text_eq id j)) [
          | inl t ↦
              rw t
                (kept ∙ subst (λ k. recalls w2 k ≡ recalls w k + d) ((text_eq_iff id j).0 t) here)
          | inr t ↦ rw t (
              omega (
                arith,
                kept,
                counting.write_keeps id j new w1 (λ k. true-ne-false ((text_eq_iff id j).1 k) t),
                counting.get_keeps id j w,
              ))
        ],
      )

  -- What is counted and pending of every fact stays within the floats that are exact.
  abbrev IsExact : List (Text × ℕ) → State → Type 0
  IsExact ps w = (id : Text) → recalls w id + pending_at id ps ≤ exact_limit

  head_bound :
      (id : Text) (d : ℕ) (ps : List (Text × ℕ)) (w : State)
      → IsExact ((id, d) ∷ ps) w
      → recalls w id + d ≤ exact_limit
  unfolding pending_at
  head_bound id d ps w l = ground (arith, l id, text_eq_refl id)

  flush-exact :
      (j : Text) (ps : List (Text × ℕ)) (w : State)
      → KeysIn stored ps
      → IsExact ps w
      → ((flush store int_of int_value now ps w).0 ≡ [])
        × (recalls (flush store int_of int_value now ps w).1 j ≡ recalls w j + pending_at j ps)
  unfolding flush pending_at
  flush-exact j [] w k l = (refl, omega arith)
  flush-exact j ((id, d) ∷ ps) w k l =
      let b = head_bound id d ps w l in
      let (gone, one) = flush_entry-exact id j d w k.0 b in
      let (ih, sum) =
        flush-exact j ps (flush_entry store int_of int_value now id d w).1 k.1
          (λ i. omega (arith, l i, (flush_entry-exact id i d w k.0 b).1)) in
      (rw gone ih, omega (arith, one, sum))

  flush_rounds-exact :
      (waits : ℕ) (j : Text) (ps : List (Text × ℕ)) (w : State)
      → KeysIn stored ps
      → IsExact ps w
      → ((flush_rounds store int_of int_value now waits ps w).0 ≡ [])
        × (recalls (flush_rounds store int_of int_value now waits ps w).1 j
            ≡ recalls w j + pending_at j ps)
  unfolding flush_rounds pending_at
  flush_rounds-exact zero j [] w k l = (refl, omega arith)
  flush_rounds-exact zero j (p ∷ ps) w k l = flush-exact j (p ∷ ps) w k l
  flush_rounds-exact (suc waits) j [] w k l = (refl, omega arith)
  flush_rounds-exact (suc waits) j (p ∷ ps) w k l =
      let (gone, sum) = flush-exact j (p ∷ ps) w k l in rw gone (refl, sum)

  -- Where the facts of the recalls are there, no other process writes the counts, what is written is
  -- kept and no count would pass 2 ^ 53, the worker's end leaves nothing pending or queued, however
  -- little time there is to wait, and the count of each fact has grown by exactly its recalls that
  -- were pending or queued.
  pub shutdown-drained :
      (waits : ℕ) (j : Text) (c : RecallCounter store int_of int_value now)
      → KeysIn stored c.pending
      → BatchesIn stored c.queue
      → ((id : Text)
          → recalls c.world id + pending_at id c.pending + queued_at id c.queue ≤ exact_limit)
      → let end = shutdown store int_of int_value now waits c in
        (end.pending ≡ [])
        × (end.queue ≡ [])
        × (recalls end.world j ≡ recalls c.world j + pending_at j c.pending + queued_at j c.queue)
  unfolding shutdown
  shutdown-drained waits j c k b l =
      let (gone, sum) =
        flush_rounds-exact waits j (drain c.pending c.queue) c.world
          (drain-KeysIn stored c.pending c.queue b k)
          (λ id. omega (arith, l id, pending_at-drain id c.pending c.queue)) in
      (gone, refl, omega (arith, sum, pending_at-drain j c.pending c.queue))
