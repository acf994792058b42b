-- ===== src/Go/Time.antt =====
-- time.Parse for the layouts time.RFC3339 and "2006-01-02", as Go 1.24 reads them, and the
-- instants that the program compares. An instant is a number of nanoseconds since two days
-- before 1 January of the year 0, so that no zone offset leads below 0.
use personal_memory.Prelude.{
  ℕ, zero, suc, ◌+◌, ◌-◌, ◌*◌, ◌/◌, ◌%◌, ◌^◌, ◌≡◌, refl, Bool, true, false, not, ◌&&◌, ◌||◌, Option,
  none, some, [], ◌∷◌, leb, ◌==◌, if◌then◌else◌, ◌>>=◌,
}
use personal_memory.Go.Text.{Text, text}

pub record Date : Type 0 where
  pub year : ℕ
  pub month : ℕ
  pub day : ℕ

abbrev pub Instant : Type 0
Instant = ℕ

abbrev pub nanosecond_day : ℕ
nanosecond_day = 86400 * 10 ^ 9

is_leap : ℕ → Bool
is_leap y = (y % 4 == 0) && (not (y % 100 == 0) || (y % 400 == 0))

days_in : ℕ → ℕ → ℕ
unfolding is_leap
days_in m y =
    if m == 2
    then (if is_leap y then 29 else 28)
    else if (m == 4 || m == 6) || (m == 9 || m == 11)
    then 30
    else 31

days_before_month : ℕ → ℕ → ℕ
days_before_month zero y = 0
days_before_month (suc m) y = days_in m y + days_before_month m y

days_before_year : ℕ → ℕ
days_before_year y = 365 * y + (y + 3) / 4 + (y + 399) / 400 - (y + 99) / 100

-- The midnight, in UTC, at which the day begins.
unfoldable pub midnight : Date → Instant
unfolding days_in days_before_month days_before_year
midnight d =
    (days_before_year d.year
      + (days_before_month d.month d.year - days_before_month 1 d.year)
      + d.day
      + 1)
    * nanosecond_day

abbrev is_digit : ℕ → Bool
is_digit c = leb b'0' c && leb c b'9'

-- getnum(value, true)
two_digits : Text → Option (ℕ × Text)
two_digits (a ∷ b ∷ r) =
    if is_digit a && is_digit b then some (10 * (a - b'0') + (b - b'0'), r) else none
two_digits _ = none

-- getnum(value, false), which an hour is read by
one_or_two_digits : Text → Option (ℕ × Text)
one_or_two_digits [] = none
one_or_two_digits (a ∷ []) = if is_digit a then some (a - b'0', []) else none
one_or_two_digits (a ∷ b ∷ r) =
    if is_digit a
    then (if is_digit b then some (10 * (a - b'0') + (b - b'0'), r) else some (a - b'0', b ∷ r))
    else none

four_digits : Text → Option (ℕ × Text)
unfolding two_digits
four_digits s = do (high, r) ← two_digits s; (low, r') ← two_digits r; some (100 * high + low, r')

expect : ℕ → Text → Option Text
expect c [] = none
expect c (a ∷ r) = if a == c then some r else none

in_range : ℕ → ℕ → ℕ → Option (Unit {0})
in_range lo hi n = if leb lo n && leb n hi then some tt else none

-- The year, month and day; the day is held to its month at the end, as in Parse.
read_date : Text → Option (Date × Text)
unfolding four_digits two_digits expect in_range
read_date s = do
  (y, s) ← four_digits s
  s ← expect b'-' s
  (m, s) ← two_digits s
  _ ← in_range 1 12 m
  s ← expect b'-' s
  (d, s) ← two_digits s
  some (record { year = y; month = m; day = d }, s)

valid_day : Date → Option (Unit {0})
unfolding in_range days_in
valid_day d = in_range 1 (days_in d.month d.year) d.day

at_end : Text → Option (Unit {0})
at_end [] = some tt
at_end (_ ∷ _) = none

-- time.Parse("2006-01-02", s)
unfoldable pub parse_date : Text → Option Date
unfolding read_date valid_day at_end
parse_date s = do (d, s) ← read_date s; _ ← at_end s; _ ← valid_day d; some d

-- Digits after the separator: the first nine count, as nanoseconds.
fraction_digits : ℕ → ℕ → Text → ℕ × Text
fraction_digits unit acc [] = (acc, [])
fraction_digits unit acc (c ∷ r) =
    let rest = fraction_digits (unit / 10) (acc + (c - b'0') * unit) r in
    if is_digit c then rest else (acc, c ∷ r)

fraction : Text → ℕ × Text
unfolding fraction_digits
fraction (a ∷ b ∷ r) =
    if (a == b'.' || a == b',') && is_digit b
    then fraction_digits (10 ^ 8) 0 (b ∷ r)
    else (0, a ∷ b ∷ r)
fraction s = (0, s)

-- Seconds east, and whether the offset is to be added (it is written west) or subtracted.
zone : Text → Option (Bool × ℕ × Text)
unfolding two_digits expect in_range
zone [] = none
zone (c ∷ s) = if c == b'Z' then some (true, 0, s) else (do
  (h, s) ← two_digits s
  s ← expect b':' s
  (m, s) ← two_digits s
  _ ← in_range 0 24 h
  _ ← in_range 0 60 m
  if c == b'-'
      then some (true, (h * 60 + m) * 60, s)
      else if c == b'+'
      then some (false, (h * 60 + m) * 60, s)
      else none)

-- time.Parse(time.RFC3339, s)
unfoldable pub parse_rfc3339 : Text → Option Instant
unfolding read_date valid_day at_end expect in_range two_digits one_or_two_digits fraction zone
    midnight
parse_rfc3339 s = do
  (d, s) ← read_date s
  s ← expect b'T' s
  (hour, s) ← one_or_two_digits s
  _ ← in_range 0 23 hour
  s ← expect b':' s
  (minute, s) ← two_digits s
  _ ← in_range 0 59 minute
  s ← expect b':' s
  (second, s) ← two_digits s
  _ ← in_range 0 59 second
  let (nanos, s') = fraction s
  (west, offset, s) ← zone s'
  _ ← at_end s
  _ ← valid_day d
  let local = midnight d + ((hour * 60 + minute) * 60 + second) * 10 ^ 9 + nanos
  some (if west then local + offset * 10 ^ 9 else local - offset * 10 ^ 9)

-- t.UTC() cut to its date: the midnight that began the day of `t`.
unfoldable pub day_start : Instant → Instant
day_start t = (t / nanosecond_day) * nanosecond_day

parse_rfc3339_runs :
    parse_rfc3339 (text "0000-01-01T02:00:00.5+01:00") ≡ some (2 * nanosecond_day + 3600500000000)
unfolding parse_rfc3339
parse_rfc3339_runs = refl

parse_date_leap : parse_date (text "2023-02-29") ≡ none
unfolding parse_date
parse_date_leap = refl

midnight_2024 : midnight (record { year = 2024; month = 3; day = 1 }) ≡ 739313 * nanosecond_day
unfolding midnight
midnight_2024 = refl
