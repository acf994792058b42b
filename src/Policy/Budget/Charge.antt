-- ===== src/Policy/Budget/Charge.antt =====
-- What a call of Begin and Finish of internal/aipolicy/budget.go is charged.
use personal_memory.Prelude.{
  ◌≡◌, ◌+◌, Bool, Bool-cases, [], arith, false, if◌then◌else◌, inl, inr, none, refl, some, sym,
  true, ℕ, ◌∷◌, ◌≤◌,
}
use personal_memory.Policy.Budget.{
  written, lost, unsynced, queue_full, refused, reserved, Budget, Ledger, Outcome, Pending,
  Reservation, begin, begin_free, finish, is_exhausted, is_written, ledger_of_day, pending_of,
  recorded, remove, reservation_id, reserve, settle, put, pos,
}
use personal_memory.Go.Text.{Text, text_lt}
use personal_memory.Policy.Budget.Effects.{reserved_inj, else_of}
use personal_memory.Go.Text.Laws.{text_eq_refl}

begin_free-reserved :
    (o : Outcome) (day : Text) (b : Budget) (r : Reservation)
    → (begin_free o day b).1 ≡ reserved r
    → let s = reserve b.limits day (ledger_of_day day b.ledger) in
      ((begin_free o day b).0 ≡ record b { ledger = s; is_held = true; file = some s })
      × (r ≡ record { id = reservation_id day s.next; is_finished = false })
unfolding begin_free
begin_free-reserved o day b r h = elim (Bool-cases (text_lt day b.ledger.day)) [
  | inl e ↦ let c = rw (e, begin_free) at h in cc
  | inr e ↦ elim (Bool-cases (is_exhausted b.limits (ledger_of_day day b.ledger))) [
    | inl x ↦ let c = rw (e, x, begin_free) at h in cc
    | inr x ↦ rw (e, x) (by_outcome o (rw (e, x, begin_free) at h))
  ]
]
  where
    s : Ledger
    s = reserve b.limits day (ledger_of_day day b.ledger)

    by_outcome :
        (o : Outcome)
        → (recorded o day s b).1 ≡ reserved r
        → ((recorded o day s b).0 ≡ record b { ledger = s; is_held = true; file = some s })
          × (r ≡ record { id = reservation_id day s.next; is_finished = false })
    by_outcome written k = (refl, sym (reserved_inj k))
    by_outcome lost k = cc
    by_outcome unsynced k = cc

begin-reserved :
    (o : Outcome) (day : Text) (b : Budget) (r : Reservation)
    → (begin o day b).1 ≡ reserved r
    → let s = reserve b.limits day (ledger_of_day day b.ledger) in
      ((begin o day b).0 ≡ record b { ledger = s; is_held = true; file = some s })
      × (r ≡ record { id = reservation_id day s.next; is_finished = false })
unfolding begin
begin-reserved o day b r h =
    let s = reserve b.limits day (ledger_of_day day b.ledger) in
    (else_of
      (λ x.
        (x.0 ≡ record b { ledger = s; is_held = true; file = some s })
        × (r ≡ record { id = reservation_id day s.next; is_finished = false }))
      b.is_held (b, refused queue_full) (begin_free o day b) queue_full r refl
      (begin_free-reserved o day b r) h).1

pending_of-remove : (id : Text) (ps : Pending) → pending_of id (remove id ps) ≡ none
unfolding pending_of remove
pending_of-remove id [] = refl
pending_of-remove id ((k, n) ∷ ps) = ground (arith, pending_of-remove id ps)

pub pending_of-put : (id : Text) (n : ℕ) (ps : Pending) → pending_of id (put id n ps) ≡ some n
unfolding pending_of put
pending_of-put id n ps = rw (text_eq_refl id) refl

-- What a budget shows once a call that used `used` tokens has ended.
pub record IsCharged (before : Ledger) (held used : ℕ) (id : Text) (kept : Bool) (b : Budget)
    : Type 0 where
  pub free : b.is_held ≡ false
  pub charged : b.ledger.tokens ≡ before.tokens + (if kept then used else held)
  pub pending : pending_of id b.ledger.pending ≡ (if kept then none else some held)
  pub filed : kept ≡ true → b.file ≡ some b.ledger

finish-IsCharged :
    (o : Outcome) (b : Budget) (before : Ledger) (r : Reservation) (held used : ℕ)
    → used ≤ held
    → r.is_finished ≡ false
    → b.ledger.tokens ≡ before.tokens + held
    → pending_of r.id b.ledger.pending ≡ some held
    → IsCharged before held used r.id (is_written o) ((finish o (pos used) true r b).0)
unfolding finish
finish-IsCharged o b before r held used l f t p = rw (f, p) (by_outcome o)
  where
    by_outcome :
        (o : Outcome)
        → IsCharged before held used r.id
            (is_written o)
            (record (settle o r.id used (some held) b) { is_held = false })
    by_outcome written = record {
      free = refl;
      charged = ground (arith, t);
      pending = pending_of-remove r.id b.ledger.pending;
      filed = λ h. refl;
    }
    by_outcome lost = record {
      free = refl;
      charged = t;
      pending = pending_of-put r.id held (remove r.id b.ledger.pending);
      filed = λ h. cc;
    }
    by_outcome unsynced = record {
      free = refl;
      charged = t;
      pending = pending_of-put r.id held (remove r.id b.ledger.pending);
      filed = λ h. cc;
    }

-- A call that Begin reserved tokens for and that reports to Finish no more than those leaves the
-- semaphore free. If the ledger is written the day is charged what the call used, the reservation is
-- gone and the file holds the ledger; else the day stays charged the reservation, which is pending.
pub finish-begin-IsCharged :
    (o o' : Outcome) (day : Text) (b : Budget) (r : Reservation) (used : ℕ)
    → (begin o day b).1 ≡ reserved r
    → used ≤ b.limits.reservation_tokens
    → IsCharged
        (ledger_of_day day b.ledger)
        b.limits.reservation_tokens
        used
        r.id
        (is_written o')
        ((finish o' (pos used) true r ((begin o day b).0)).0)
unfolding reserve
finish-begin-IsCharged o o' day b r used h l =
    let before = ledger_of_day day b.ledger in
    let s = reserve b.limits day before in
    let (e, q) = begin-reserved o day b r h in
    rw (e, q)
      (finish-IsCharged o' (record b { ledger = s; is_held = true; file = some s }) before
        (record { id = reservation_id day s.next; is_finished = false }) b.limits.reservation_tokens
        used l refl refl
        (pending_of-put (reservation_id day s.next) b.limits.reservation_tokens before.pending))
