-- ===== src/Calendar/TimeUtil.antt =====
-- firmware/src/calendar/TimeUtil.h and the date arithmetic at the top of IcsParser.cpp. An `int` or
-- `long` is an integer; `unsigned` sums wrap at 32 bits. `past` is what memory holds outside the table
-- of the months' lengths, and `mktime` the C library's, which knows the device's time zone.
pub mod Clamp
pub mod Weekdays
use x4_printer.Prelude.{
  ℕ, zero, suc, ◌+◌, ◌-◌, ◌*◌, ◌/◌, ◌%◌, ◌^◌, Bool, true, false, ◌&&◌, ◌||◌, not, ltb, leb, List,
  [], ◌∷◌, get_or, if◌then◌else◌,
}
use x4_printer.Prelude.Int.{
  ℤ, pos, negsuc, ◌+ℤ◌, ◌-ℤ◌, ◌*ℤ◌, quot, rem, to_unsigned, to_signed, ltb_ℤ, leb_ℤ, eq_ℤ,
}

pub record Civil : Type 0 where
  pub y : ℤ
  pub mo : ℤ
  pub d : ℤ
  pub h : ℤ
  pub mi : ℤ
  pub s : ℤ

-- `(153 * (m + (m > 2 ? -3 : 9)) + 2) / 5 + d - 1`, all `unsigned`.
unfoldable pub doy_of : ℕ → ℕ → ℕ
doy_of m d =
    let month = (if ltb 2 m then m - 3 else m + 9) % 2 ^ 32 in
    (((153 * month + 2) % 2 ^ 32) / 5 + d + (2 ^ 32 - 1)) % 2 ^ 32

unfoldable pub days_from_civil : ℤ → ℤ → ℤ → ℤ
unfolding ◌+ℤ◌ ◌-ℤ◌ ◌*ℤ◌ quot to_unsigned to_signed doy_of
days_from_civil year month day =
    let m = to_unsigned month in
    let y = (if leb m 2 then year -ℤ pos 1 else year) in
    let era = quot (if leb_ℤ (pos 0) y then y else y -ℤ pos 399) 400 in
    let yoe = to_unsigned (y -ℤ era *ℤ pos 400) in
    let doe = (yoe * 365 + yoe / 4 + (2 ^ 32 - yoe / 100) + doy_of m (to_unsigned day)) % 2 ^ 32 in
    era *ℤ pos 146097 +ℤ to_signed doe -ℤ pos 719468

-- The day, the month and the year of a day number, counted from 1970-01-01.
unfoldable pub civil_from_days : ℤ → ℤ × ℤ × ℤ
unfolding ◌+ℤ◌ ◌-ℤ◌ ◌*ℤ◌ quot to_unsigned
civil_from_days days =
    let z = days +ℤ pos 719468 in
    let era = quot (if leb_ℤ (pos 0) z then z else z -ℤ pos 146096) 146097 in
    let doe = to_unsigned (z -ℤ era *ℤ pos 146097) in
    let yoe = (doe - doe / 1460 + doe / 36524 - doe / 146096) / 365 in
    let yr = pos yoe +ℤ era *ℤ pos 400 in
    let doy = doe - (365 * yoe + yoe / 4 - yoe / 100) in
    let mp = (5 * doy + 2) / 153 in
    let m = (if ltb mp 10 then mp + 3 else mp - 9) in
    ((if leb m 2 then yr +ℤ pos 1 else yr), pos m, pos (doy - (153 * mp + 2) / 5 + 1))

-- Monday is 0.
unfoldable pub weekday_of_day_num : ℤ → ℤ
unfolding ◌+ℤ◌ rem
weekday_of_day_num n = rem (rem n 7 +ℤ pos 7 +ℤ pos 3) 7

unfoldable pub is_leap : ℤ → Bool
unfolding rem
is_leap year =
    (eq_ℤ (rem year 4) (pos 0) && not (eq_ℤ (rem year 100) (pos 0))) || eq_ℤ (rem year 400) (pos 0)

abbrev pub month_lengths : List ℤ
month_lengths =
    pos 31
    ∷ pos 28
    ∷ pos 31
    ∷ pos 30
    ∷ pos 31
    ∷ pos 30
    ∷ pos 31
    ∷ pos 31
    ∷ pos 30
    ∷ pos 31
    ∷ pos 30
    ∷ pos 31
    ∷ []

-- `days[index]`
unfoldable pub table_at : (ℤ → ℤ) → ℤ → ℤ
table_at past (pos i) = get_or month_lengths i (past (pos i))
table_at past (negsuc i) = past (negsuc i)

unfoldable pub days_in_month : (ℤ → ℤ) → ℤ → ℤ → ℤ
unfolding ◌-ℤ◌ is_leap table_at
days_in_month past year month =
    if eq_ℤ month (pos 2) && is_leap year then pos 29 else table_at past (month -ℤ pos 1)

-- `while (day > dim) day -= 7`, for a fuel of `day`.
unfoldable pub clamp_day : ℕ → ℤ → ℤ → ℤ
unfolding ◌-ℤ◌
clamp_day zero dim day = day
clamp_day (suc fuel) dim day = elim (ltb_ℤ dim day) [
  | true ↦ clamp_day fuel dim (day -ℤ pos 7)
  | false ↦ day
]

-- The day of the `week`-th `wday` in a month that starts on `first_wd`, if the month is long enough.
unfoldable pub nth_weekday : ℤ → ℤ → ℤ → ℤ
unfolding ◌+ℤ◌ ◌-ℤ◌ ◌*ℤ◌ rem
nth_weekday first_wd week wday =
    pos 1 +ℤ rem (wday -ℤ first_wd +ℤ pos 7) 7 +ℤ (week -ℤ pos 1) *ℤ pos 7

-- The day of the last `wday`, in a month of `dim` days.
unfoldable pub last_weekday : ℤ → ℤ → ℤ → ℤ
unfolding ◌+ℤ◌ ◌-ℤ◌ rem
last_weekday first_wd dim wday = dim -ℤ rem (rem (first_wd +ℤ dim -ℤ pos 1) 7 -ℤ wday +ℤ pos 7) 7

-- The day number of the `week`-th `wday` of a month, or of the last one if `week` is not positive.
unfoldable pub transition_day_num : (ℤ → ℤ) → ℤ → ℤ → ℤ → ℤ → ℤ
transition_day_num past year month week wday =
    let first = days_from_civil year month (pos 1) in
    let first_wd = weekday_of_day_num first in
    let dim = days_in_month past year month in
    let clamped = clamp_day (to_unsigned week) dim (nth_weekday first_wd week wday) in
    if ltb_ℤ (pos 0) week
    then first +ℤ clamped -ℤ pos 1
    else first +ℤ last_weekday first_wd dim wday -ℤ pos 1

unfoldable pub epoch_from_utc : Civil → ℤ
unfolding days_from_civil ◌+ℤ◌ ◌*ℤ◌
epoch_from_utc c =
    days_from_civil c.y c.mo c.d *ℤ pos 86400 +ℤ c.h *ℤ pos 3600 +ℤ c.mi *ℤ pos 60 +ℤ c.s
