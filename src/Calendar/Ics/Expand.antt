-- ===== src/Calendar/Ics/Expand.antt =====
-- `expandRecurrence` of IcsParser.cpp.
pub mod Loops
pub mod Dates
pub mod Occurrences
use x4_printer.Prelude.{
  ℕ, zero, suc, ◌+◌, ◌-◌, ◌*◌, ◌/◌, ◌%◌, ◌^◌, Bool, true, false, ◌&&◌, ◌||◌, not, ltb, leb, ◌==◌,
  Option, none, some, List, [], ◌∷◌, ◌++◌, length, if◌then◌else◌,
}
use x4_printer.Prelude.Int.{
  ℤ, pos, negsuc, pos_part, ◌+ℤ◌, ◌-ℤ◌, ◌*ℤ◌, quot, rem, ltb_ℤ, leb_ℤ, eq_ℤ,
}
use x4_printer.Prelude.Text.{Text, codes}
use x4_printer.Calendar.TimeUtil.{
  Civil, days_from_civil, civil_from_days, weekday_of_day_num, days_in_month, nth_weekday,
  last_weekday,
}
use x4_printer.Calendar.Ics.Strings.{is_empty}
use x4_printer.Calendar.Ics.Rules.{
  Freq, daily, weekly, monthly, yearly, Rrule, in_mask, parse_rrule, extract_rrule_value,
}
use x4_printer.Calendar.Ics.State.{
  Event, RawEvent, Setup, Output, Vtz, DtParts, max_day_iterations, max_month_iterations,
  max_year_iterations,
}
use x4_printer.Calendar.Ics.Emit.{emit_occurrence}
use x4_printer.Calendar.Ics.Zones.{civil_to_epoch, parse_date_time}

-- What one expansion keeps fixed, `rule.until` included (0 is none).
pub record Series : Type 0 where
  pub setup : Setup
  pub raw : RawEvent
  pub dt_start : ℤ
  pub parts : DtParts
  pub duration : ℤ
  pub all_day : Bool
  pub rule : Rrule
  pub until : ℤ

pub record Loop : Type 0 where
  pub remaining : ℤ
  pub output : Output

abbrev pub past_until : Series → ℤ → Bool
past_until e occ = not (eq_ℤ e.until (pos 0)) && ltb_ℤ e.until occ

abbrev pub emitted : Series → ℤ → Loop → Loop
emitted e occ l = record {
  remaining = if ltb_ℤ (pos 0) l.remaining then l.remaining -ℤ pos 1 else l.remaining;
  output = emit_occurrence e.setup e.raw occ e.duration e.all_day l.output;
}

unfoldable pub emit_if_due : Series → ℤ → Loop → Bool × Loop
emit_if_due e occ l =
    if eq_ℤ l.remaining (pos 0)
    then (false, l)
    else if past_until e occ
    then (false, l)
    else (true, emitted e occ l)

-- `if (due && !emitIfDue(occ)) break; if (remaining == 0) break;`, and whether the loop goes on.
unfoldable pub round : Series → Bool → ℤ → Loop → Bool × Loop
round e due occ l =
    let r = (if due then emit_if_due e occ l else (true, l)) in
    (r.0 && not (eq_ℤ r.1.remaining (pos 0)), r.1)

-- `occ > windowEnd_ + 2 * 86400`, or past UNTIL: the loop ends.
abbrev pub is_over : Series → ℤ → Bool
is_over e occ = ltb_ℤ (e.setup.window_end +ℤ pos 172800) occ || past_until e occ

abbrev pub base : Series → Civil
base e = e.parts.civil

unfoldable pub day_zero : Series → ℤ
day_zero e = days_from_civil (base e).y (base e).mo (base e).d

-- `occurrenceAt`
unfoldable pub occurrence_at : Series → ℤ → ℤ
occurrence_at e day =
    let (y, mo, d) = civil_from_days day in
    civil_to_epoch e.setup (record (base e) { y = y; mo = mo; d = d }) e.parts.vtz e.parts.utc

abbrev pub start_dow : Series → ℕ
start_dow e = pos_part (weekday_of_day_num (day_zero e))

unfoldable pub weekly_mask : Series → ℕ
weekly_mask e = if e.rule.byday_mask == 0 then 2 ^ start_dow e else e.rule.byday_mask

abbrev due_in_week : Series → ℕ → Bool
due_in_week e n =
    in_mask (weekly_mask e) ((start_dow e + n) % 7)
    && ((n + start_dow e) / 7) % e.rule.interval == 0

unfoldable pub day_due : Freq → Series → ℕ → Bool
day_due weekly e n = due_in_week e n
day_due daily e n = n % e.rule.interval == 0
day_due monthly e n = false
day_due yearly e n = false

abbrev step_of : Freq → ℕ → ℕ
step_of daily interval = interval
step_of weekly interval = 7 * interval
step_of monthly interval = interval
step_of yearly interval = interval

-- The first `n`: near the window, a multiple of the step, unless occurrences are counted.
unfoldable pub fast_forward : Series → ℕ
fast_forward e =
    let days_ahead = pos_part (quot (e.setup.window_start -ℤ e.dt_start) 86400 -ℤ pos 2) in
    let step = step_of e.rule.freq e.rule.interval in
    if ltb_ℤ e.rule.count (pos 0) && ltb_ℤ e.dt_start e.setup.window_start
    then days_ahead / step * step
    else 0

-- A round's answer is whether the loop goes on, and its state.
abbrev pub go_on : Bool × Loop → (Loop → Loop) → Loop
go_on (true, l) k = k l
go_on (false, l) k = l

unfoldable pub day_step : Series → ℕ → Loop → Bool × Loop
day_step e n l =
    let occ = occurrence_at e (day_zero e +ℤ pos n) in
    if is_over e occ then (false, l) else round e (day_due e.rule.freq e n) occ l

unfoldable pub day_loop : Series → ℕ → ℕ → Loop → Loop
day_loop e zero n l = l
day_loop e (suc left) n l = go_on (day_step e n l) (day_loop e left (n + 1))

abbrev pub highest_below : ℕ → ℕ → Option ℕ
highest_below mask zero = none
highest_below mask (suc n) = if in_mask mask n then some n else highest_below mask n

abbrev pub weekday_day : Series → ℤ → ℤ → ℤ → ℤ
weekday_day e target first_wd dim =
    let ord = (if ltb_ℤ (pos 0) e.rule.byday_ord then e.rule.byday_ord else pos 1) in
    if leb_ℤ (pos 0) e.rule.byday_ord
    then nth_weekday first_wd ord target
    else last_weekday first_wd dim target +ℤ (e.rule.byday_ord +ℤ pos 1) *ℤ pos 7

-- The day that the rule names in a month, or outside it.
unfoldable pub month_day : Series → ℤ → ℤ → ℤ
month_day e year month =
    let dim = days_in_month e.setup.past year month in
    let by_month_day =
      (if leb_ℤ (pos 1) e.rule.bymonthday
        then e.rule.bymonthday
        else dim +ℤ pos 1 +ℤ e.rule.bymonthday) in
    let first_wd = weekday_of_day_num (days_from_civil year month (pos 1)) in
    elim (highest_below e.rule.byday_mask 7) [
      | some target ↦ weekday_day e (pos target) first_wd dim
      | none ↦ if eq_ℤ e.rule.bymonthday (pos 0) then (base e).d else by_month_day
    ]

-- The year and the month `m` months after the event's first.
unfoldable pub month_after : Civil → ℕ → ℤ × ℤ
month_after c m =
    let month = c.mo +ℤ pos m -ℤ pos 1 in (c.y +ℤ quot month 12, rem month 12 +ℤ pos 1)

abbrev pub civil_on : Series → ℤ → ℤ → ℤ → ℤ
civil_on e year month day =
    civil_to_epoch e.setup (record (base e) { y = year; mo = month; d = day }) e.parts.vtz
      e.parts.utc

-- The month's occurrence; `none` where the loop goes on without one.
unfoldable pub month_occurrence : Series → ℕ → Option ℤ
month_occurrence e m =
    let (year, month) = month_after (base e) m in
    let day = month_day e year month in
    let occ = civil_on e year month day in
    if ltb_ℤ day (pos 1) || ltb_ℤ (days_in_month e.setup.past year month) day
    then none
    else if ltb_ℤ occ e.dt_start
    then none
    else some occ

unfoldable pub year_occurrence : Series → ℕ → Option ℤ
year_occurrence e y =
    let year = (base e).y +ℤ pos y in
    if ltb_ℤ (days_in_month e.setup.past year (base e).mo) (base e).d
    then none
    else some (civil_on e year (base e).mo (base e).d)

unfoldable pub occurs_step : Series → Option ℤ → Loop → Bool × Loop
occurs_step e none l = (true, l)
occurs_step e (some occ) l = if is_over e occ then (false, l) else round e true occ l

-- The loops over months and years: `for (m = 0; m < limit; m += interval)`. The limit is fuel, as the
-- interval is at least 1.
unfoldable pub period_loop : Series → (ℕ → Option ℤ) → ℕ → ℕ → ℕ → Loop → Loop
period_loop e occurs limit zero m l = l
period_loop e occurs limit (suc fuel) m l =
    go_on (if leb limit m then (false, l) else occurs_step e (occurs m) l)
      (period_loop e occurs limit fuel (m + e.rule.interval))

unfoldable pub run_series : Freq → Series → Loop → Loop
run_series daily e l = day_loop e max_day_iterations (fast_forward e) l
run_series weekly e l = day_loop e max_day_iterations (fast_forward e) l
run_series monthly e l =
    period_loop e (month_occurrence e) max_month_iterations max_month_iterations 0 l
run_series yearly e l =
    period_loop e (year_occurrence e) max_year_iterations max_year_iterations 0 l

abbrev until_value : Option (ℤ × DtParts) → ℤ
until_value none = pos 0
until_value (some (t, p)) = if p.is_date && not (eq_ℤ t (pos 0)) then t +ℤ pos 86399 else t

unfoldable pub until_of : Setup → List Vtz → Text → ℤ
until_of s zones rrule =
    let raw = extract_rrule_value rrule (codes "UNTIL") in
    if is_empty raw then pos 0 else until_value (parse_date_time s zones raw [])

-- The event's series.
abbrev pub series_of : Setup → List Vtz → RawEvent → ℤ → DtParts → ℤ → Bool → Series
series_of s zones raw dt_start parts duration all_day = record {
  setup = s;
  raw = raw;
  dt_start = dt_start;
  parts = parts;
  duration = duration;
  all_day = all_day;
  rule = parse_rrule raw.rrule;
  until = until_of s zones raw.rrule;
}

-- An event whose rule is not valid occurs once.
unfoldable pub expand_series : Bool → Series → Output → Output
expand_series true e o =
    (run_series e.rule.freq e (record { remaining = e.rule.count; output = o })).output
expand_series false e o = emit_occurrence e.setup e.raw e.dt_start e.duration e.all_day o

unfoldable pub expand_recurrence :
    Setup → List Vtz → RawEvent → ℤ → DtParts → ℤ → Bool → Output → Output
expand_recurrence s zones raw dt_start parts duration all_day o =
    expand_series (parse_rrule raw.rrule).valid
      (series_of s zones raw dt_start parts duration all_day) o
