-- ===== src/Lifecycle/Parse/Numbers.antt =====
-- Numeric point ids of internal/memory/lifecycle/model.go (normalizePointID): strconv.ParseUint
-- and FormatUint in base 10, and FormatFloat of a whole number.
use personal_memory.Prelude.{
  ℕ, zero, suc, ◌+◌, ◌-◌, ◌*◌, ◌/◌, ◌%◌, ◌^◌, ◌≡◌, refl, not, ◌&&◌, ◌||◌, Option, none, some, [],
  ◌∷◌, ltb, leb, ◌==◌, if◌then◌else◌,
}
use personal_memory.Go.Text.{Text, text}
use personal_memory.Go.Float.{Float, finite, one}

abbrev max_uint64 : ℕ
max_uint64 = 2 ^ 64 - 1

-- const maxSafeJSONInteger
abbrev max_safe_integer : ℕ
max_safe_integer = 2 ^ 53 - 1

digits_value : ℕ → Text → Option ℕ
digits_value acc [] = some acc
digits_value acc (c ∷ r) =
    let rest = digits_value (10 * acc + (c - b'0')) r in
    if leb b'0' c && leb c b'9' then rest else none

-- strconv.ParseUint(s, 10, 64)
unfoldable pub parse_uint : Text → Option ℕ
unfolding digits_value
parse_uint [] = none
parse_uint (c ∷ r) = elim (digits_value 0 (c ∷ r)) [
  | none ↦ none
  | some n ↦ if leb n max_uint64 then some n else none
]

-- The last `fuel` digits of `n`, before `rest`; a uint64 has 20 at most.
digits_before : ℕ → ℕ → Text → Text
digits_before zero n rest = rest
digits_before (suc fuel) n rest =
    let more = digits_before fuel (n / 10) ((b'0' + n % 10) ∷ rest) in
    if ltb n 10 then (b'0' + n) ∷ rest else more

-- strconv.FormatUint(n, 10)
unfoldable pub format_uint : ℕ → Text
unfolding digits_before
format_uint n = digits_before 20 n []

-- The json.Number case.
unfoldable pub uint_text : Text → Option Text
unfolding parse_uint format_uint
uint_text s = elim (parse_uint s) [ none ↦ none | some n ↦ some (format_uint n) ]

-- The float64 case: in range and whole, or refused. A negative zero is not below 0.
unfoldable pub float_text : Float → Option Text
unfolding format_uint one
float_text (finite negative m) =
    if (negative && ltb 0 m) || (ltb (max_safe_integer * one) m || not (m % one == 0))
    then none
    else some (if negative then b'-' ∷ format_uint (m / one) else format_uint (m / one))
float_text _ = none

format_uint_runs : format_uint 18446744073709551615 ≡ text "18446744073709551615"
unfolding format_uint
format_uint_runs = refl

uint_text_runs : uint_text (text "007") ≡ some (text "7")
unfolding uint_text
uint_text_runs = refl
