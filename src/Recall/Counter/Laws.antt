-- ===== src/Recall/Counter/Laws.antt =====
-- The worker of internal/memory/recall_counter.go never counts a recall twice.
use personal_memory.Maintenance.Service.{unread, absent, found, Reply}
use personal_memory.Recall.Counter.{
  RecallStore, add_recall_batch, counted_fields, drain, increment, flush, flush_entry, flush_read,
  flush_rounds, is_drained,
}
use personal_memory.Go.Int.{pos, ℤ, int_add-pos}
use personal_memory.Prelude.{
  ◌+◌, ◌++◌, Bool-cases, List, [], arith, if◌then◌else◌, inl, inr, some, ℕ, ◌∷◌, ◌≡◌, ◌≢◌, ◌≤◌, ◌⊎◌,
  Bool, ap, false, refl, subst, suc, sym, true, zero, ◌∙◌,
}
use personal_memory.Go.Json.{Fields, Value, get}
use personal_memory.Go.Float.{Float}
use personal_memory.Maintenance.Classify.{ScrollPoint, recall_count}
use personal_memory.Go.Text.{Text, text_eq}
use personal_memory.Go.Text.Laws.{text_eq_iff}

-- How often an id is in a batch, is queued and is pending
unfoldable pub occurrences : Text → List Text → ℕ
occurrences id [] = 0
occurrences id (j ∷ js) = (if text_eq j id then 1 else 0) + occurrences id js

unfoldable pub queued_at : Text → List (List Text) → ℕ
unfolding occurrences
queued_at id [] = 0
queued_at id (batch ∷ queue) = occurrences id batch + queued_at id queue

unfoldable pub pending_at : Text → List (Text × ℕ) → ℕ
pending_at id [] = 0
pending_at id ((j, n) ∷ ps) = (if text_eq j id then n else 0) + pending_at id ps

pending_at-increment :
    (id j : Text) (ps : List (Text × ℕ))
    → pending_at id (increment j ps) ≡ pending_at id ps + (if text_eq j id then 1 else 0)
unfolding pending_at increment
pending_at-increment id j [] = ground arith
pending_at-increment id j ((k, n) ∷ ps) =
    ground
      (arith, pending_at-increment id j ps, text_eq_iff k j, text_eq_iff k id, text_eq_iff j id)

pub pending_at-add_recall_batch :
    (id : Text) (ps : List (Text × ℕ)) (batch : List Text)
    → pending_at id (add_recall_batch ps batch) ≡ pending_at id ps + occurrences id batch
unfolding add_recall_batch occurrences
pending_at-add_recall_batch id ps [] = omega arith
pending_at-add_recall_batch id ps (j ∷ js) =
    ground (arith, pending_at-add_recall_batch id (increment j ps) js, pending_at-increment id j ps)

pub pending_at-drain :
    (id : Text) (ps : List (Text × ℕ)) (queue : List (List Text))
    → pending_at id (drain ps queue) ≡ pending_at id ps + queued_at id queue
unfolding drain queued_at
pending_at-drain id ps [] = omega arith
pending_at-drain id ps (batch ∷ queue) = omega (
  arith,
  pending_at-drain id (add_recall_batch ps batch) queue,
  pending_at-add_recall_batch id ps batch,
)

pub queued_at-append :
    (id : Text) (queue : List (List Text)) (batch : List Text)
    → queued_at id (queue ++ batch ∷ []) ≡ queued_at id queue + occurrences id batch
unfolding queued_at
queued_at-append id [] batch = omega arith
queued_at-append id (b ∷ queue) batch = omega (arith, queued_at-append id queue batch)

-- Up to 2 ^ 53 every whole number is a float64.
abbrev pub exact_limit : ℕ
exact_limit = 9007199254740992

-- What is relied on: this process alone writes the counts, a read shows the count of the fact, a
-- write leaves the count as it was or as it is written, and a whole number that a float64 holds is
-- read back as it was encoded.
pub record IsCounting (store : RecallStore) (int_of : Float → ℤ) (int_value : ℤ → Value)
    : Type 0 where
  pub recalls : store.State → Text → ℕ
  pub get_keeps : (id j : Text) (w : store.State) → recalls (store.get_point id w).1 j ≡ recalls w j
  pub invalidate_keeps : (j : Text) (w : store.State) → recalls (store.invalidate w) j ≡ recalls w j
  pub read_shows :
      (id : Text) (w : store.State) (p : ScrollPoint)
      → (store.get_point id w).0 ≡ found p
      → recall_count int_of (get "recall_count" p.payload) ≡ pos (recalls w id)
  pub write_shows :
      (id : Text) (new : Fields) (w : store.State)
      → (recalls (store.set_payload id new w).1 id ≡ recalls w id)
        ⊎ (recall_count int_of (get "recall_count" new)
            ≡ pos (recalls (store.set_payload id new w).1 id))
  pub write_keeps :
      (id j : Text) (new : Fields) (w : store.State)
      → id ≢ j
      → recalls (store.set_payload id new w).1 j ≡ recalls w j
  pub int_reads : (n : ℕ) → n ≤ exact_limit → recall_count int_of (some (int_value (pos n))) ≡ pos n

pub true-ne-false : {b : Bool} → b ≡ true → b ≢ false
true-ne-false h k = cc

pub pos_inj : {m n : ℕ} → pos m ≡ pos n → m ≡ n
pos_inj h = cc

module _ (store : RecallStore) (int_of : Float → ℤ) (int_value : ℤ → Value) (now : Text)
    (counting : IsCounting store int_of int_value) where
  open store use {State, get_point, set_payload, invalidate}
  open counting use {recalls}

  pub counted_fields-count :
      (p : Fields) (n d : ℕ)
      → recall_count int_of (get "recall_count" p) ≡ pos n
      → n + d ≤ exact_limit
      → recall_count int_of (get "recall_count" (counted_fields store int_of int_value now p d))
        ≡ pos (n + d)
  unfolding get
  counted_fields-count p n d h l =
      rw (h, int_add-pos n d (omega arith)) (counting.int_reads (n + d) l)

  -- A write of the sum counts the recalls or leaves the count.
  recalls-set_payload :
      (id j : Text) (p : Fields) (d : ℕ) (w : State)
      → recall_count int_of (get "recall_count" p) ≡ pos (recalls w id)
      → recalls w j + (if text_eq id j then d else 0) ≤ exact_limit
      → recalls (set_payload id (counted_fields store int_of int_value now p d) w).1 j
        ≤ recalls w j + (if text_eq id j then d else 0)
  recalls-set_payload id j p d w h l =
      let new = counted_fields store int_of int_value now p d in
      let w' = (set_payload id new w).1 in
      elim (Bool-cases (text_eq id j)) [
        | inr e ↦ rw e (
            omega (
              arith,
              counting.write_keeps id j new w (λ k. true-ne-false ((text_eq_iff id j).1 k) e),
            ))
        | inl e ↦ rw e (
            subst (λ k. recalls w k + d ≤ exact_limit → recalls w' k ≤ recalls w k + d)
              ((text_eq_iff id j).0 e)
              (λ b. elim (counting.write_shows id new w) [
                | inl s ↦ omega arith
                | inr s ↦
                    omega (arith, pos_inj (sym s ∙ counted_fields-count p (recalls w id) d h b))
              ])
              (rw e at l))
      ]

  -- What an entry adds to the count of `j` if it stays pending
  abbrev staying : Text → ℕ → Text → Bool → ℕ
  staying id d j stays = if stays then (if text_eq id j then d else 0) else 0

  pending_at-staying :
      (id : Text) (d : ℕ) (j : Text) (stays : Bool) (ps : List (Text × ℕ))
      → pending_at j (if stays then (id, d) ∷ ps else ps) ≡ staying id d j stays + pending_at j ps
  unfolding pending_at
  pending_at-staying id d j true ps = refl
  pending_at-staying id d j false ps = omega arith

  flush_read-counts :
      (id j : Text) (d : ℕ) (x : Reply × State)
      → ((p : ScrollPoint)
          → x.0 ≡ found p
          → recall_count int_of (get "recall_count" p.payload) ≡ pos (recalls x.1 id))
      → recalls x.1 j + (if text_eq id j then d else 0) ≤ exact_limit
      → recalls (flush_read store int_of int_value now id d x).1 j
          + staying id d j (flush_read store int_of int_value now id d x).0
        ≤ recalls x.1 j + (if text_eq id j then d else 0)
  flush_read-counts id j d (unread, w) h l = omega arith
  flush_read-counts id j d (absent, w) h l = omega arith
  flush_read-counts id j d (found p, w) h l = omega (
    arith,
    recalls-set_payload id j p.payload d w (h p refl) l,
    counting.invalidate_keeps j
        (set_payload id (counted_fields store int_of int_value now p.payload d) w).1,
  )

  flush_entry-counts :
      (id j : Text) (d : ℕ) (w : State)
      → recalls w j + (if text_eq id j then d else 0) ≤ exact_limit
      → recalls (flush_entry store int_of int_value now id d w).1 j
          + staying id d j (flush_entry store int_of int_value now id d w).0
        ≤ recalls w j + (if text_eq id j then d else 0)
  unfolding flush_entry
  flush_entry-counts id j d w l = rw (← counting.get_keeps id j w) (
      flush_read-counts id j d (get_point id w)
        (λ p e. counting.read_shows id w p e ∙ ap pos (sym (counting.get_keeps id id w)))
        (omega (arith, counting.get_keeps id j w)))

  pub flush-counts :
      (j : Text) (ps : List (Text × ℕ)) (w : State)
      → recalls w j + pending_at j ps ≤ exact_limit
      → recalls (flush store int_of int_value now ps w).1 j
          + pending_at j (flush store int_of int_value now ps w).0
        ≤ recalls w j + pending_at j ps
  unfolding flush pending_at
  flush-counts j [] w l = omega arith
  flush-counts j ((id, d) ∷ ps) w l =
      let x = flush_entry store int_of int_value now id d w in
      let one = flush_entry-counts id j d w (omega arith) in
      let ih = flush-counts j ps x.1 (omega (arith, one)) in
      omega
        (arith, one, ih, pending_at-staying id d j x.0 (flush store int_of int_value now ps x.1).0)

  pub flush_rounds-counts :
      (waits : ℕ) (j : Text) (ps : List (Text × ℕ)) (w : State)
      → recalls w j + pending_at j ps ≤ exact_limit
      → recalls (flush_rounds store int_of int_value now waits ps w).1 j
          + pending_at j (flush_rounds store int_of int_value now waits ps w).0
        ≤ recalls w j + pending_at j ps
  unfolding flush_rounds
  flush_rounds-counts zero j ps w l = elim (Bool-cases (is_drained ps)) [
    | inl e ↦ rw e (omega arith)
    | inr e ↦ rw e (flush-counts j ps w l)
  ]
  flush_rounds-counts (suc waits) j ps w l =
      let x = flush store int_of int_value now ps w in
      let one = flush-counts j ps w l in
      let ih = flush_rounds-counts waits j x.0 x.1 (omega (arith, one)) in
      elim (Bool-cases (is_drained ps)) [
        | inl e ↦ rw e (omega arith)
        | inr e ↦ elim (Bool-cases (is_drained x.0)) [
          | inl f ↦ rw (e, f) one
          | inr f ↦ rw (e, f) (omega arith)
        ]
      ]
