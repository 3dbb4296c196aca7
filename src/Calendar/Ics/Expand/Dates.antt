-- ===== src/Calendar/Ics/Expand/Dates.antt =====
-- The dates that a rule describes, and that the loops visit no others.
use x4_printer.Prelude.{
  ℕ, zero, suc, ◌-◌, ◌<◌, ◌∙◌, ap, ◌+◌, ◌*◌, ◌/◌, ◌%◌, ◌^◌, ◌≡◌, ◌≢◌, refl, subst, Bool, true, ◌||◌,
  ◌&&◌, Bool-cases, inl, inr, some, none, arith, ◌==◌, if◌then◌else◌,
}
use x4_printer.Prelude.Int.{ℤ, pos, ◌+ℤ◌, ◌≤ℤ◌, ◌<ℤ◌, ltb_ℤ, leb_ℤ, pos_part}
use x4_printer.Calendar.TimeUtil.{days_in_month, days_from_civil, weekday_of_day_num, nth_weekday}
use x4_printer.Calendar.TimeUtil.Weekdays.{weekday_range, weekday_add, nth_weekday_lem}
use x4_printer.Calendar.Ics.Rules.{Freq, daily, weekly, monthly, yearly, in_mask}
use x4_printer.Calendar.Ics.Expand.{
  Series, base, day_zero, occurrence_at, start_dow, weekly_mask, day_due, month_day, month_after,
  civil_on, highest_below, month_occurrence, year_occurrence,
}
use x4_printer.Calendar.Ics.Expand.Loops.{Dates}

-- `occ` is the series' time of the day `n` days after its first.
abbrev pub IsOnDay : Series → ℕ → ℤ → Type 0
IsOnDay e n occ = occ ≡ occurrence_at e (day_zero e +ℤ pos n)

-- The day of a month. Without BYDAY it is that of the start, or BYMONTHDAY, from the end if it is
-- negative. With BYDAY and no negative ordinal it falls on the weekday that is named, the last such in
-- the list, and in the week of the month that the ordinal names, which is the first without one.
abbrev pub IsMonthDay : Series → ℤ → ℤ → ℤ → Type 0
IsMonthDay e year month day =
    (e.rule.byday_mask ≡ 0 → e.rule.bymonthday ≡ pos 0 → day ≡ (base e).d)
    × (e.rule.byday_mask ≡ 0 → pos 1 ≤ℤ e.rule.bymonthday → day ≡ e.rule.bymonthday)
    × (e.rule.byday_mask ≡ 0
        → e.rule.bymonthday <ℤ pos 0
        → day ≡ days_in_month e.setup.past year month +ℤ pos 1 +ℤ e.rule.bymonthday)
    × ((v : ℕ)
        → highest_below e.rule.byday_mask 7 ≡ some v
        → pos 0 ≤ℤ e.rule.byday_ord
        → (n : ℕ) × (day ≡ pos (n + 1))
          × (weekday_of_day_num (days_from_civil year month (pos 1) +ℤ pos n) ≡ pos v)
          × (n / 7 ≡ pos_part e.rule.byday_ord - 1))

-- The dates of a rule: every INTERVAL-th day; a day of BYDAY, or without it the weekday of the start, in
-- every INTERVAL-th week, counted from the Sunday of the first; a day of every INTERVAL-th month that
-- exists in it; and the day of the start in every INTERVAL-th year that has it.
abbrev pub IsDate : Series → Freq → ℤ → Type 0
IsDate e daily occ = (n : ℕ) × IsOnDay e n occ × (n % e.rule.interval ≡ 0)
IsDate e weekly occ =
    (n : ℕ) × IsOnDay e n occ
    × (e.rule.byday_mask ≢ 0 → in_mask e.rule.byday_mask ((start_dow e + n) % 7) ≡ true)
    × (e.rule.byday_mask ≡ 0 → in_mask (2 ^ start_dow e) ((start_dow e + n) % 7) ≡ true)
    × ((n + start_dow e) / 7 % e.rule.interval ≡ 0)
IsDate e monthly occ =
    (k : ℕ) × (day : ℤ) × let (year, month) = month_after (base e) (k * e.rule.interval) in
      (occ ≡ civil_on e year month day)
      × (pos 1 ≤ℤ day)
      × (day ≤ℤ days_in_month e.setup.past year month)
      × (e.dt_start ≤ℤ occ)
      × (day ≡ month_day e year month)
      × IsMonthDay e year month day
IsDate e yearly occ =
    (k : ℕ) × let year = (base e).y +ℤ pos (k * e.rule.interval) in
      (occ ≡ civil_on e year (base e).mo (base e).d)
      × ((base e).d ≤ℤ days_in_month e.setup.past year (base e).mo)

and_zero : (b : Bool) (n : ℕ) → (b && n == 0) ≡ true → (b ≡ true) × (n ≡ 0)
and_zero b n h = (ground (arith, h), ground (arith, h))

guarded :
    (day dim at start occ : ℤ)
    → (if ltb_ℤ day (pos 1) || ltb_ℤ dim day
        then none
        else if ltb_ℤ at start
        then none
        else some at)
      ≡ some occ
    → (occ ≡ at) × (pos 1 ≤ℤ day) × (day ≤ℤ dim) × (start ≤ℤ occ)
guarded day dim at start occ h =
    (ground (arith, h), ground (arith, h), ground (arith, h), ground (arith, h))

exists_in :
    (day dim at occ : ℤ)
    → (if ltb_ℤ dim day then none else some at) ≡ some occ
    → (occ ≡ at) × (day ≤ℤ dim)
exists_in day dim at occ h = (ground (arith, h), ground (arith, h))

highest_below_small : (mask n v : ℕ) → highest_below mask n ≡ some v → v < n
highest_below_small mask zero v h = cc
highest_below_small mask (suc n) v h = elim (Bool-cases (in_mask mask n)) [
  | inl set ↦ ground (arith, h, set)
  | inr clear ↦ ground (arith, h, clear, highest_below_small mask n v)
]

-- The day of the ordinal's week that falls on the weekday `v`.
nth_day_lem :
    (first ord : ℤ) (v : ℕ)
    → v < 7
    → pos 0 ≤ℤ ord
    → (n : ℕ) × (nth_weekday
          (weekday_of_day_num first)
          (if ltb_ℤ (pos 0) ord then ord else pos 1)
          (pos v)
        ≡ pos (n + 1))
      × (weekday_of_day_num (first +ℤ pos n) ≡ pos v)
      × (n / 7 ≡ pos_part ord - 1)
nth_day_lem first ord v small some_ord =
    let (f, hf, f_small) = weekday_range first in
    let w = pos_part ord - 1 in
    let at : (if ltb_ℤ (pos 0) ord then ord else pos 1) ≡ pos (suc w) = ground (arith, some_ord) in
    let n = (v + 7 - f) % 7 + w * 7 in
    (
      n,
      rw (hf, at, nth_weekday_lem f w v f_small small) (ap pos {y = n + 1} (omega arith)),
      weekday_add first f n hf ∙ ap pos {y = v} (omega arith),
      omega arith,
    )

byday_lem :
    (e : Series) (year month : ℤ) (v : ℕ)
    → highest_below e.rule.byday_mask 7 ≡ some v
    → pos 0 ≤ℤ e.rule.byday_ord
    → (n : ℕ) × (month_day e year month ≡ pos (n + 1))
      × (weekday_of_day_num (days_from_civil year month (pos 1) +ℤ pos n) ≡ pos v)
      × (n / 7 ≡ pos_part e.rule.byday_ord - 1)
unfolding month_day
byday_lem e year month v named some_ord =
    let first : ℤ = days_from_civil year month (pos 1) in
    let (n, is, on_weekday, in_week) =
      nth_day_lem first e.rule.byday_ord v (highest_below_small e.rule.byday_mask 7 v named)
        some_ord in
    (n, rw (named, month_day, not_negative) is, on_weekday, in_week)
  where
    not_negative : leb_ℤ (pos 0) e.rule.byday_ord ≡ true
    not_negative = ground (arith, some_ord)

month_day-IsMonthDay :
    (e : Series) (year month : ℤ) → IsMonthDay e year month (month_day e year month)
unfolding month_day
month_day-IsMonthDay e year month = (
  λ no_byday same. rw (no_byday, same) refl,
  λ no_byday given. rw no_byday (ground (arith, given)),
  λ no_byday given. rw no_byday (ground (arith, given)),
  byday_lem e year month,
)

due_daily : (e : Series) (n : ℕ) → day_due daily e n ≡ true → n % e.rule.interval ≡ 0
unfolding day_due
due_daily e n due = ground (arith, due)

due_weekly :
    (e : Series) (n : ℕ)
    → day_due weekly e n ≡ true
    → (in_mask (weekly_mask e) ((start_dow e + n) % 7) ≡ true)
      × ((n + start_dow e) / 7 % e.rule.interval ≡ 0)
unfolding day_due
due_weekly e n due =
    and_zero (in_mask (weekly_mask e) ((start_dow e + n) % 7))
      ((n + start_dow e) / 7 % e.rule.interval) due

weekly_mask-byday :
    (e : Series) (w : ℕ)
    → in_mask (weekly_mask e) w ≡ true
    → (e.rule.byday_mask ≢ 0 → in_mask e.rule.byday_mask w ≡ true)
      × (e.rule.byday_mask ≡ 0 → in_mask (2 ^ start_dow e) w ≡ true)
unfolding weekly_mask
weekly_mask-byday e w due = elim (Bool-cases (e.rule.byday_mask == 0)) [
  | inl none' ↦ (
    λ some'. absurd (some' (ground (arith, none'))),
    λ zero'.
        subst (λ b. in_mask (if b then 2 ^ start_dow e else e.rule.byday_mask) w ≡ true) none' due,
  )
  | inr some' ↦ (
    λ given.
        subst (λ b. in_mask (if b then 2 ^ start_dow e else e.rule.byday_mask) w ≡ true) some' due,
    λ zero'. absurd (ground (arith, some', zero')),
  )
]

month-IsDate :
    (e : Series) (k : ℕ) (occ : ℤ)
    → month_occurrence e (k * e.rule.interval) ≡ some occ
    → IsDate e monthly occ
unfolding month_occurrence
month-IsDate e k occ found =
    let year : ℤ = (month_after (base e) (k * e.rule.interval)).0 in
    let month : ℤ = (month_after (base e) (k * e.rule.interval)).1 in
    let day : ℤ = month_day e year month in
    let (same, lo, hi, since) =
      guarded day (days_in_month e.setup.past year month) (civil_on e year month day) e.dt_start occ
        found in
    (k, day, (same, lo, hi, since, refl, month_day-IsMonthDay e year month))

year-IsDate :
    (e : Series) (k : ℕ) (occ : ℤ)
    → year_occurrence e (k * e.rule.interval) ≡ some occ
    → IsDate e yearly occ
unfolding year_occurrence
year-IsDate e k occ found =
    let year : ℤ = (base e).y +ℤ pos (k * e.rule.interval) in
    let (same, fits) =
      exists_in (base e).d (days_in_month e.setup.past year (base e).mo)
        (civil_on e year (base e).mo (base e).d) occ found in
    (k, (same, fits))

-- The loops of a series visit only dates of its rule.
pub visits : (e : Series) (f : Freq) → e.rule.freq ≡ f → Dates e (IsDate e f) f
visits e daily is = λ n due. (n, refl, due_daily e n (subst (λ f. day_due f e n ≡ true) is due))
visits e weekly is = λ n due.
    let (on_day, in_week) = due_weekly e n (subst (λ f. day_due f e n ≡ true) is due) in
    let (given, start_day) = weekly_mask-byday e ((start_dow e + n) % 7) on_day in
    (n, refl, given, start_day, in_week)
visits e monthly is = month-IsDate e
visits e yearly is = year-IsDate e
