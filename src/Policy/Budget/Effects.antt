-- ===== src/Policy/Budget/Effects.antt =====
-- The effects of calls of internal/aipolicy/budget.go that succeed.
use personal_memory.Policy.Budget.{
  written, lost, unsynced, Begun, Budget, Ledger, Limits, Outcome, Refusal, Reservation, begin,
  begin_free, pending_of, reservation_id, reserve, refused, put, reserved, queue_full, is_exhausted,
  ledger_of_day, recorded, clock_backwards, exhausted,
}
use personal_memory.Prelude.{
  ◌%◌, ◌+◌, Bool, ◌^◌, arith, false, if◌then◌else◌, refl, some, subst, true, ◌≡◌,
}
use personal_memory.Go.Text.{Text, text_lt}
use personal_memory.Go.Text.Laws.{text_eq_refl}

-- A result that is a reservation does not come from a branch that refuses.
pub else_of :
    (P : Budget × Begun → Type 0) (t : Bool) (x y : Budget × Begun) (q : Refusal) (r : Reservation)
    → x.1 ≡ refused q
    → (y.1 ≡ reserved r → P y)
    → (if t then x else y).1 ≡ reserved r
    → (t ≡ false) × P (if t then x else y)
else_of P true x y q r e f h = ground arith
else_of P false x y q r e f h = (refl, f h)

-- What holds once a reservation is made.
pub record IsHeld (l : Limits) (r : Reservation) (b : Budget) : Type 0 where
  pub held : b.is_held ≡ true
  pub pending : pending_of r.id b.ledger.pending ≡ some l.reservation_tokens
  pub filed : b.file ≡ some b.ledger
  pub unfinished : r.is_finished ≡ false

reserve-pending_of :
    (l : Limits) (day : Text) (s : Ledger)
    → pending_of (reservation_id day (reserve l day s).next) (reserve l day s).pending
      ≡ some l.reservation_tokens
unfolding reserve put pending_of
reserve-pending_of l day s = rw (text_eq_refl (reservation_id day ((s.next + 1) % 2 ^ 64))) refl

pub reserved_inj : {r q : Reservation} → reserved r ≡ reserved q → r ≡ q
reserved_inj h = cc

recorded-IsHeld :
    (o : Outcome) (day : Text) (s : Ledger) (b : Budget) (r : Reservation)
    → pending_of (reservation_id day s.next) s.pending ≡ some b.limits.reservation_tokens
    → (recorded o day s b).1 ≡ reserved r
    → IsHeld b.limits r ((recorded o day s b).0)
recorded-IsHeld written day s b r p h =
    subst (λ q. IsHeld b.limits q ((recorded written day s b).0)) (reserved_inj h)
      (record { held = refl; pending = p; filed = refl; unfinished = refl })
recorded-IsHeld lost day s b r p h = ground arith
recorded-IsHeld unsynced day s b r p h = ground arith

begin_free-IsHeld :
    (o : Outcome) (day : Text) (b : Budget) (r : Reservation)
    → (begin_free o day b).1 ≡ reserved r
    → IsHeld b.limits r ((begin_free o day b).0)
unfolding begin_free
begin_free-IsHeld o day b r h =
    let P : Budget × Begun → Type 0 = λ x. IsHeld b.limits r x.0 in
    let s = ledger_of_day day b.ledger in
    let saved = recorded o day (reserve b.limits day s) b in
    let spent = record b { ledger = s } in
    (else_of P (text_lt day b.ledger.day) (b, refused clock_backwards)
      (if is_exhausted b.limits s then (spent, refused exhausted) else saved) clock_backwards r refl
      (λ k.
        (else_of P (is_exhausted b.limits s) (spent, refused exhausted) saved exhausted r refl
          (recorded-IsHeld o day (reserve b.limits day s) b r (reserve-pending_of b.limits day s))
          k).1)
      h).1

-- A reservation is made only when none was held, and then it is held, pending in the ledger under
-- its id for the limit's tokens, and written to the file.
pub begin-IsHeld :
    (o : Outcome) (day : Text) (b : Budget) (r : Reservation)
    → (begin o day b).1 ≡ reserved r
    → (b.is_held ≡ false) × IsHeld b.limits r ((begin o day b).0)
unfolding begin
begin-IsHeld o day b r h =
    else_of (λ x. IsHeld b.limits r x.0) b.is_held (b, refused queue_full) (begin_free o day b)
      queue_full r refl (begin_free-IsHeld o day b r) h
