-- ===== src/Recall/Expiry.antt =====
-- internal/memory: validUntilPayload of server.go and factExpiredAt of lifecycle_recall.go.
use personal_memory.Go.Time.{Instant, day_start}
use personal_memory.Go.Json.{Value, null, str, bool, number, float, arr, strs, obj, Fields, get}
use personal_memory.Recall.Options.{parse_calendar_date}
use personal_memory.Prelude.{
  ◌<◌, Bool, Option, false, ltb, ltb→lt, lt→ltb, none, some, true, ◌↔◌, ◌≡◌, inl, inr, refl,
  Option-cases, ap, some_inj, subst, sym, ◌∙◌, ◌≢◌,
}
use personal_memory.Go.Text.{Text}

-- The three results of validUntilPayload: no expiry, an error, or the day.
pub data Expiry : Type 0 where
  absent malformed : Expiry
  until : Instant → Expiry

abbrev expiry_of : Option Instant → Expiry
expiry_of none = malformed
expiry_of (some t) = until t

-- validUntilPayload
unfoldable pub valid_until_payload : Option Value → Expiry
unfolding parse_calendar_date
valid_until_payload none = absent
valid_until_payload (some null) = absent
valid_until_payload (some (str t)) = expiry_of (parse_calendar_date t)
valid_until_payload (some _) = malformed

abbrev expired_by : Expiry → Instant → Bool
expired_by absent reference = false
expired_by malformed reference = true
expired_by (until day) reference = ltb day (day_start reference)

-- factExpiredAt
unfoldable pub fact_expired_at : Fields → Instant → Bool
unfolding valid_until_payload day_start
fact_expired_at payload reference =
    expired_by (valid_until_payload (get "valid_until" payload)) reference

-- The day that a value of a payload names
abbrev pub NamesDay : Value → Instant → Type 0
NamesDay v day = (t : Text) × (v ≡ str t) × (parse_calendar_date t ≡ some day)

-- A value is given for the expiry, other than null, and it names no day but one that is over.
abbrev pub IsOver : Option Value → Instant → Type 0
IsOver o reference =
    (v : Value) × (o ≡ some v)
    × (v ≢ null)
    × ((day : Instant) → NamesDay v day → day < day_start reference)

str_inj : {s t : Text} → str s ≡ str t → s ≡ t
str_inj h = cc

until_expired :
    (t : Text) (reference : Instant)
    → (expired_by (expiry_of (parse_calendar_date t)) reference ≡ true)
      ↔ IsOver (some (str t)) reference
until_expired t reference = elim (Option-cases (parse_calendar_date t)) [
  | inl e ↦ (
    λ h. (
      str t,
      refl,
      λ c. cc,
      λ day (u, same, k). absurd (let x = ap parse_calendar_date (str_inj same) in cc),
    ),
    λ h. rw e refl,
  )
  | inr (d, e) ↦ (
    λ h. (
      str t,
      refl,
      λ c. cc,
      λ day (u, same, k).
          let l = ltb→lt d (day_start reference) (rw e at h) in
          let x = ap parse_calendar_date (str_inj same) in
          subst (λ y. y < day_start reference) (some_inj (sym e ∙ x ∙ k)) l,
    ),
    λ (v, same, n, o). rw e (lt→ltb d (day_start reference) (o d (t, sym (some_inj same), e))),
  )
]

-- A fact is expired exactly if it has an expiry other than null and that names no day, or names one
-- before the day of the reference time.
pub fact_expired_at_iff :
    (payload : Fields) (reference : Instant)
    → (fact_expired_at payload reference ≡ true) ↔ IsOver (get "valid_until" payload) reference
unfolding fact_expired_at
fact_expired_at_iff payload reference = by_cases (get "valid_until" payload)
  where
    malformed_value :
        (v : Value)
        → v ≢ null
        → ((t : Text) → v ≢ str t)
        → (true ≡ true) ↔ IsOver (some v) reference
    malformed_value v n m = (λ h. (v, refl, n, λ day (t, e, k). absurd (m t e)), λ h. refl)

    by_cases :
        (o : Option Value)
        → (expired_by (valid_until_payload o) reference ≡ true) ↔ IsOver o reference
    by_cases none = (λ h. cc, λ (v, e, n, o). cc)
    by_cases (some null) = (λ h. cc, λ (v, e, n, o). absurd (n (sym (some_inj e))))
    by_cases (some (str t)) = until_expired t reference
    by_cases (some (bool b)) = malformed_value (bool b) (λ c. cc) (λ t c. cc)
    by_cases (some (number t)) = malformed_value (number t) (λ c. cc) (λ t c. cc)
    by_cases (some (float x)) = malformed_value (float x) (λ c. cc) (λ t c. cc)
    by_cases (some (arr xs)) = malformed_value (arr xs) (λ c. cc) (λ t c. cc)
    by_cases (some (strs ts)) = malformed_value (strs ts) (λ c. cc) (λ t c. cc)
    by_cases (some (obj m)) = malformed_value (obj m) (λ c. cc) (λ t c. cc)
