-- ===== src/Policy/Budget.antt =====
-- internal/aipolicy/budget.go: the ledger of a day's calls, its reservations and the semaphore.
--
-- An int64 is a natural number where NewBudget and validLedger let no negative one through. What
-- the file system makes of a write is an argument: `written`, `lost` (the old file stands), or
-- `unsynced` (the new file stands, but the caller gets an error).
pub mod Laws
pub mod Steps
pub mod Runs
pub mod Effects
pub mod Charge
use personal_memory.Go.Int.{pos, negsuc, ℤ}
use personal_memory.Prelude.{
  ◌%◌, ◌&&◌, ◌+◌, ◌++◌, ◌-◌, Bool, List, Option, [], ◌^◌, false, if◌then◌else◌, leb, length, ltb,
  none, some, true, ◌||◌, ℕ, ◌∷◌,
}
use personal_memory.Go.Text.{Text, text, text_eq, text_lt}
use personal_memory.Lifecycle.Parse.Numbers.{format_uint}
use personal_memory.Go.Strings.{has_prefix}
use personal_memory.Lifecycle.Model.{is_some}
use personal_memory.Go.Time.{parse_date}

pub record Limits : Type 0 where
  pub daily_calls : ℕ
  pub daily_input_tokens : ℕ
  pub reservation_tokens : ℕ

abbrev pub Pending : Type 0
Pending = List (Text × ℕ)

-- budgetState
pub record Ledger : Type 0 where
  pub day : Text
  pub calls : ℕ
  pub tokens : ℕ
  pub next : ℕ
  pub pending : Pending

-- The ledger, the one place of the semaphore, and the file budget.json.
pub record Budget : Type 0 where
  pub limits : Limits
  pub ledger : Ledger
  pub is_held : Bool
  pub file : Option Ledger

-- Reservation: its id and whether its `once` has run.
pub record Reservation : Type 0 where
  pub id : Text
  pub is_finished : Bool

-- What comes of AtomicWrite.
pub data Outcome : Type 0 where
  written lost unsynced : Outcome

abbrev pub is_written : Outcome → Bool
is_written written = true
is_written _ = false

abbrev pub file_after : Outcome → Ledger → Option Ledger → Option Ledger
file_after lost new old = old
file_after _ new old = some new

unfoldable pub pending_of : Text → Pending → Option ℕ
pending_of id [] = none
pending_of id ((k, n) ∷ ps) = if text_eq k id then some n else pending_of id ps

unfoldable pub remove : Text → Pending → Pending
remove id [] = []
remove id ((k, n) ∷ ps) = let rest = remove id ps in if text_eq k id then rest else (k, n) ∷ rest

unfoldable pub put : Text → ℕ → Pending → Pending
unfolding remove
put id n ps = (id, n) ∷ remove id ps

abbrev pub empty_ledger : Text → Ledger
empty_ledger day = record { day = day; calls = 0; tokens = 0; next = 0; pending = [] }

-- The loop of validLedger over the pending reservations.
unfoldable pub is_valid_pending : Text → ℕ → ℕ → Pending → Bool
is_valid_pending day tokens total [] = true
is_valid_pending day tokens total ((id, n) ∷ ps) =
    let rest = is_valid_pending day tokens (total + n) ps in
    has_prefix id (day ++ text "-") && (ltb 0 n && (leb n (tokens - total) && rest))

-- validLedger
unfoldable pub valid_ledger : Ledger → Bool
unfolding is_valid_pending
valid_ledger s =
    is_some (parse_date s.day)
    && (leb s.calls s.next
        && (leb (length s.pending) s.calls && is_valid_pending s.day s.tokens 0 s.pending))

-- What NewBudget finds: no directory that it may use, no file, one that cannot be read, one that
-- does not decode (or holds a negative number or no map of reservations), or a ledger.
pub data Found : Type 0 where
  unsafe_directory missing unreadable undecodable : Found
  stored : Ledger → Found

abbrev pub budget_of : Limits → Found → Option Budget
budget_of limits missing =
    some (record { limits = limits; ledger = empty_ledger []; is_held = false; file = none })
budget_of limits (stored s) =
    if valid_ledger s
    then some (record { limits = limits; ledger = s; is_held = false; file = some s })
    else none
budget_of limits _ = none

-- NewBudget
unfoldable pub new_budget : Limits → Found → Option Budget
unfolding valid_ledger
new_budget l found =
    if ltb l.daily_calls 1
      || (ltb l.daily_input_tokens 1
          || (ltb l.reservation_tokens 1 || ltb l.daily_input_tokens l.reservation_tokens))
    then none
    else budget_of l found

pub data Refusal : Type 0 where
  queue_full clock_backwards exhausted save_failed : Refusal

pub data Begun : Type 0 where
  reserved : Reservation → Begun
  refused : Refusal → Begun

-- `if b.state.Day != day { b.state = budgetState{...} }`
unfoldable pub ledger_of_day : Text → Ledger → Ledger
ledger_of_day day s = if text_eq s.day day then s else empty_ledger day

unfoldable pub is_exhausted : Limits → Ledger → Bool
is_exhausted l s =
    leb l.daily_calls s.calls || ltb (l.daily_input_tokens - l.reservation_tokens) s.tokens

abbrev pub reservation_id : Text → ℕ → Text
reservation_id day n = day ++ (text "-" ++ format_uint n)

-- The ledger with one more reservation; Next is a uint64.
unfoldable pub reserve : Limits → Text → Ledger → Ledger
unfolding put
reserve l day s =
    let n = (s.next + 1) % 2 ^ 64 in
    record {
      day = s.day;
      calls = s.calls + 1;
      tokens = s.tokens + l.reservation_tokens;
      next = n;
      pending = put (reservation_id day n) l.reservation_tokens s.pending;
    }

-- The write of a ledger with a new reservation, and what Begin then returns.
abbrev pub recorded : Outcome → Text → Ledger → Budget → Budget × Begun
recorded outcome day s b =
    if is_written outcome
    then (
      record b { ledger = s; is_held = true; file = file_after outcome s b.file },
      reserved (record { id = reservation_id day s.next; is_finished = false }),
    )
    else (record b { ledger = s; file = file_after outcome s b.file }, refused save_failed)

-- Begin, when the semaphore was free; `day` is the date of `now` in UTC.
unfoldable pub begin_free : Outcome → Text → Budget → Budget × Begun
unfolding reserve ledger_of_day is_exhausted
begin_free outcome day b =
    let s = ledger_of_day day b.ledger in
    if text_lt day b.ledger.day
    then (b, refused clock_backwards)
    else if is_exhausted b.limits s
    then (record b { ledger = s }, refused exhausted)
    else recorded outcome day (reserve b.limits day s) b

-- Begin
unfoldable pub begin : Outcome → Text → Budget → Budget × Begun
unfolding begin_free
begin outcome day b = if b.is_held then (b, refused queue_full) else begin_free outcome day b

-- The ledger once a call has reported its tokens: what is not used is given back, and a report
-- above the reservation uses up the day.
unfoldable pub settled : Limits → Text → ℕ → ℕ → Ledger → Ledger
unfolding remove
settled l id held used s = record s {
  tokens = if ltb held used then l.daily_input_tokens else s.tokens - (held - used);
  pending = remove id s.pending;
}

-- The body of Finish under its lock, for a number of tokens that is known and not negative.
unfoldable pub settle : Outcome → Text → ℕ → Option ℕ → Budget → Budget
unfolding settled
settle outcome id used none b = b
settle outcome id used (some held) b =
    let s = settled b.limits id held used b.ledger in
    record b {
      ledger =
          if is_written outcome
          then s
          else record s { tokens = b.ledger.tokens; pending = put id held s.pending };
      file = file_after outcome s b.file;
    }

abbrev pub settle_known : Outcome → Text → ℤ → Bool → Budget → Budget
settle_known outcome id (pos used) true b =
    settle outcome id used (pending_of id b.ledger.pending) b
settle_known outcome id _ _ b = b

-- Finish
unfoldable pub finish : Outcome → ℤ → Bool → Reservation → Budget → Budget × Reservation
unfolding settle pending_of
finish outcome input known r b = if r.is_finished then (b, r) else (
  record (settle_known outcome r.id input known b) { is_held = false },
  record r { is_finished = true },
)
