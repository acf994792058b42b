-- ===== src/Policy/Budget/Runs.antt =====
-- Runs of Begin and Finish of internal/aipolicy/budget.go over one budget.
use personal_memory.Prelude.{◌≡◌, All, Bool, List, [], true, ◌∷◌}
use personal_memory.Policy.Budget.{Budget, Outcome, Reservation, begin, finish}
use personal_memory.Policy.Budget.Steps.{IsSafe, begin-IsSafe, finish-IsSafe}
use personal_memory.Go.Text.{Text}
use personal_memory.Lifecycle.Model.{is_some}
use personal_memory.Go.Time.{parse_date}
use personal_memory.Go.Int.{ℤ}

-- A call of Begin or of Finish, with what the file system makes of its write.
pub data Call : Type 0 where
  begins : Outcome → Text → Call
  finishes : Outcome → ℤ → Bool → Reservation → Call

unfoldable pub run : List Call → Budget → Budget
unfolding begin finish
run [] b = b
run (begins o day ∷ cs) b = run cs (begin o day b).0
run (finishes o input known r ∷ cs) b = run cs (finish o input known r b).0

abbrev pub IsDated : Call → Type 0
IsDated (begins o day) = is_some (parse_date day) ≡ true
IsDated (finishes o input known r) = Unit

-- However Begin and Finish are called, and whichever writes fail, the day's tokens and calls stay
-- within the limits, and the ledger and its file stay such that validLedger accepts them.
pub run-IsSafe : (cs : List Call) (b : Budget) → All IsDated cs → IsSafe b → IsSafe (run cs b)
unfolding run
run-IsSafe [] b h w = w
run-IsSafe (begins o day ∷ cs) b (d, h) w =
    run-IsSafe cs (begin o day b).0 h (begin-IsSafe o day b d w)
run-IsSafe (finishes o input known r ∷ cs) b (d, h) w =
    run-IsSafe cs (finish o input known r b).0 h (finish-IsSafe o input known r b w)
