-- ===== src/Policy/Budget/Steps.antt =====
-- Begin and Finish of internal/aipolicy/budget.go keep a budget safe.
use personal_memory.Go.Int.{pos, negsuc}
use personal_memory.Prelude.{
  ◌+◌, ◌-◌, ◌<◌, Bool-cases, Option, [], ◌^◌, arith, false, inl, inr, none, refl, some, subst, sym,
  true, ◌∷◌, ◌≡◌, ◌≤◌, ◌⊎◌, Bool, ℕ, if◌then◌else◌,
}
use personal_memory.Policy.Budget.{
  written, lost, unsynced, Budget, Ledger, Limits, Outcome, begin_free, empty_ledger, file_after,
  is_exhausted, ledger_of_day, reserve, Reservation, begin, finish, is_written, pending_of, remove,
  settle, settle_known, settled, put, ℤ, Begun, refused, queue_full,
}
use personal_memory.Policy.Budget.Laws.{
  IsLedger, empty_ledger-IsLedger, reserve-IsLedger, IsReserved, length-pending_of, length-remove,
  pending_of-All, remove-All, total-pending_of, total-remove,
}
use personal_memory.Go.Text.{Text, text_eq, text_lt}
use personal_memory.Lifecycle.Model.{is_some}
use personal_memory.Go.Time.{parse_date}
use personal_memory.Go.Text.Laws.{text_eq_iff}

-- Limits that NewBudget accepts, as int64.
pub record IsLimits (l : Limits) : Type 0 where
  pub positive : 0 < l.reservation_tokens
  pub affordable : l.reservation_tokens ≤ l.daily_input_tokens
  pub machine : l.daily_calls < 2 ^ 63

-- A ledger of a running server: none yet, or one that validLedger accepts.
abbrev pub IsState : Ledger → Type 0
IsState s = (s ≡ empty_ledger []) ⊎ IsLedger s

abbrev pub IsFiled : Option Ledger → Type 0
IsFiled none = Unit
IsFiled (some s) = IsLedger s

-- The day's spending is within the limits, and the counter has room for the calls that are left.
pub record IsWithin (l : Limits) (s : Ledger) : Type 0 where
  pub tokens_within : s.tokens ≤ l.daily_input_tokens
  pub calls_within : s.calls ≤ l.daily_calls
  pub roomy : s.next + (l.daily_calls - s.calls) < 2 ^ 64

pub record IsSafe (b : Budget) : Type 0 where
  pub limited : IsLimits b.limits
  pub state : IsState b.ledger
  pub filed : IsFiled b.file
  pub within : IsWithin b.limits b.ledger

empty_ledger-IsWithin : (l : Limits) (day : Text) → IsLimits l → IsWithin l (empty_ledger day)
empty_ledger-IsWithin l day h = record {
  tokens_within = omega arith;
  calls_within = omega arith;
  roomy = let k = h.machine in omega arith;
}

dated_not_empty : (day : Text) → is_some (parse_date day) ≡ true → text_eq [] day ≡ false
unfolding text_eq parse_date
dated_not_empty [] h = ground arith
dated_not_empty (c ∷ day) h = refl

-- On a date the ledger is that date's, and a valid one.
ledger_of_day-IsLedger :
    (day : Text) (s : Ledger)
    → is_some (parse_date day) ≡ true
    → IsState s
    → IsLedger (ledger_of_day day s) × ((ledger_of_day day s).day ≡ day)
unfolding ledger_of_day
ledger_of_day-IsLedger day s d (inl e) =
    let apart = dated_not_empty day d in
    let other : text_eq s.day day ≡ false = subst (λ t. text_eq t.day day ≡ false) (sym e) apart in
    rw other (empty_ledger-IsLedger day d, refl)
ledger_of_day-IsLedger day s d (inr w) = elim (Bool-cases (text_eq s.day day)) [
  | inl e ↦ rw e (w, (text_eq_iff s.day day).0 e)
  | inr e ↦ rw e (empty_ledger-IsLedger day d, refl)
]

ledger_of_day-IsWithin :
    (l : Limits) (day : Text) (s : Ledger)
    → IsLimits l
    → IsWithin l s
    → IsWithin l (ledger_of_day day s)
unfolding ledger_of_day
ledger_of_day-IsWithin l day s h w = elim (Bool-cases (text_eq s.day day)) [
  | inl e ↦ rw e w
  | inr e ↦ rw e (empty_ledger-IsWithin l day h)
]

reserve-IsWithin :
    (l : Limits) (day : Text) (s : Ledger)
    → IsLimits l
    → IsWithin l s
    → is_exhausted l s ≡ false
    → IsWithin l (reserve l day s) × (s.next + 1 < 2 ^ 64)
unfolding reserve is_exhausted
reserve-IsWithin l day s h w e =
    let a = h.affordable in
    let r = w.roomy in
    let calls : s.calls < l.daily_calls = ground arith in
    let tokens : s.tokens ≤ l.daily_input_tokens - l.reservation_tokens = ground arith in
    (
      record { tokens_within = omega arith; calls_within = omega arith; roomy = omega arith },
      omega arith,
    )

file_after-IsFiled :
    (o : Outcome) (s : Ledger) (f : Option Ledger)
    → IsLedger s
    → IsFiled f
    → IsFiled (file_after o s f)
file_after-IsFiled written s f h k = h
file_after-IsFiled lost s f h k = k
file_after-IsFiled unsynced s f h k = h

begin_free-IsSafe :
    (o : Outcome) (day : Text) (b : Budget)
    → is_some (parse_date day) ≡ true
    → IsSafe b
    → IsSafe ((begin_free o day b).0)
unfolding begin_free
begin_free-IsSafe o day b d w =
    let (ledger, same) = ledger_of_day-IsLedger day b.ledger d w.state in
    let within = ledger_of_day-IsWithin b.limits day b.ledger w.limited w.within in
    elim (Bool-cases (text_lt day b.ledger.day)) [
      | inl e ↦ rw e w
      | inr e ↦ rw e (elim (Bool-cases (is_exhausted b.limits (ledger_of_day day b.ledger))) [
        | inl x ↦
            rw x
              (record { limited = w.limited; state = inr ledger; filed = w.filed; within = within })
        | inr x ↦
            let (within', fits) = reserve-IsWithin b.limits day _ w.limited within x in
            let ledger' = reserve-IsLedger b.limits day _ w.limited.positive same fits ledger in
            let filed = file_after-IsFiled o _ b.file ledger' w.filed in
            rw x (elim (Bool-cases (is_written o)) [
              | inl k ↦ rw k (record {
                limited = w.limited;
                state = inr ledger';
                filed = filed;
                within = within';
              })
              | inr k ↦ rw k (record {
                limited = w.limited;
                state = inr ledger';
                filed = filed;
                within = within';
              })
            ])
      ])
    ]

if_IsSafe :
    (t : Bool) (x y : Budget × Begun) → IsSafe x.0 → IsSafe y.0 → IsSafe ((if t then x else y).0)
if_IsSafe true x y h k = h
if_IsSafe false x y h k = k

pub begin-IsSafe :
    (o : Outcome) (day : Text) (b : Budget)
    → is_some (parse_date day) ≡ true
    → IsSafe b
    → IsSafe ((begin o day b).0)
unfolding begin
begin-IsSafe o day b d w =
    if_IsSafe b.is_held (b, refused queue_full) (begin_free o day b) w
      (begin_free-IsSafe o day b d w)

settled-IsLedger :
    (l : Limits) (id : Text) (held used : ℕ) (s : Ledger)
    → IsWithin l s
    → pending_of id s.pending ≡ some held
    → IsLedger s
    → IsLedger (settled l id held used s)
unfolding settled
settled-IsLedger l id held used s k e w =
    let within = total-pending_of id s.pending held e in
    let few = length-remove id s.pending in
    record {
      dated = w.dated;
      counted = w.counted;
      pending_few = let f = w.pending_few in omega arith;
      pending_dated = remove-All id (IsReserved s.day) s.pending w.pending_dated;
      pending_within = let t = k.tokens_within in let p = w.pending_within in ground arith;
    }

restored-IsLedger :
    (id : Text) (held : ℕ) (s : Ledger)
    → pending_of id s.pending ≡ some held
    → IsLedger s
    → IsLedger (record s { pending = put id held (remove id s.pending) })
unfolding put
restored-IsLedger id held s e w =
    let within = total-pending_of id s.pending held e in
    let few = length-pending_of id s.pending held e in
    let again = total-remove id (remove id s.pending) in
    let fewer = length-remove id (remove id s.pending) in
    let kept = remove-All id (IsReserved s.day) s.pending w.pending_dated in
    record {
      dated = w.dated;
      counted = w.counted;
      pending_few = let f = w.pending_few in omega arith;
      pending_dated = (
        pending_of-All id (IsReserved s.day) s.pending held w.pending_dated e,
        remove-All id (IsReserved s.day) (remove id s.pending) kept,
      );
      pending_within = let p = w.pending_within in omega arith;
    }

state-IsLedger :
    (id : Text) (held : ℕ) (s : Ledger)
    → pending_of id s.pending ≡ some held
    → IsState s
    → IsLedger s
unfolding pending_of
state-IsLedger id held s e (inl h) =
    ground (arith, subst (λ t. pending_of id t.pending ≡ some held) h e)
state-IsLedger id held s e (inr w) = w

settled-IsWithin :
    (l : Limits) (id : Text) (held used : ℕ) (s : Ledger)
    → IsWithin l s
    → IsWithin l (settled l id held used s)
unfolding settled
settled-IsWithin l id held used s k = record {
  tokens_within = let t = k.tokens_within in ground arith;
  calls_within = k.calls_within;
  roomy = k.roomy;
}

settle-IsSafe :
    (o : Outcome) (id : Text) (used : ℕ) (b : Budget) (r : Option ℕ)
    → pending_of id b.ledger.pending ≡ r
    → IsSafe b
    → IsSafe (settle o id used r b)
unfolding settle
settle-IsSafe o id used b none e w = w
settle-IsSafe o id used b (some held) e w =
    let ledger = state-IsLedger id held b.ledger e w.state in
    let ledger' = settled-IsLedger b.limits id held used b.ledger w.within e ledger in
    let within' = settled-IsWithin b.limits id held used b.ledger w.within in
    let filed = file_after-IsFiled o _ b.file ledger' w.filed in
    elim (Bool-cases (is_written o)) [
      | inl k ↦
          rw k
            (record { limited = w.limited; state = inr ledger'; filed = filed; within = within' })
      | inr k ↦ rw k (record {
        limited = w.limited;
        state = inr (unfold settled in restored-IsLedger id held b.ledger e ledger);
        filed = filed;
        within = record {
          tokens_within = w.within.tokens_within;
          calls_within = w.within.calls_within;
          roomy = w.within.roomy;
        };
      })
    ]

settle_known-IsSafe :
    (o : Outcome) (id : Text) (input : ℤ) (known : Bool) (b : Budget)
    → IsSafe b
    → IsSafe (settle_known o id input known b)
settle_known-IsSafe o id (pos used) true b w =
    settle-IsSafe o id used b (pending_of id b.ledger.pending) refl w
settle_known-IsSafe o id (pos used) false b w = w
settle_known-IsSafe o id (negsuc n) true b w = w
settle_known-IsSafe o id (negsuc n) false b w = w

pub finish-IsSafe :
    (o : Outcome) (input : ℤ) (known : Bool) (r : Reservation) (b : Budget)
    → IsSafe b
    → IsSafe ((finish o input known r b).0)
unfolding finish
finish-IsSafe o input known r b w =
    let s = settle_known-IsSafe o r.id input known b w in
    elim (Bool-cases r.is_finished) [
      | inl e ↦ rw e w
      | inr e ↦
          rw e (record { limited = s.limited; state = s.state; filed = s.filed; within = s.within })
    ]
