-- ===== src/Calendar/Ics/Zones.antt =====
-- Time zones and date-times in IcsParser.cpp: `tzOffsetFor`, `civilToEpoch`, `parseDateTime` and
-- `handleVtzProp`. The sums of seconds in `tzOffsetFor` are of type `long`, 32 bits on the device.
use x4_printer.Prelude.{
  ℕ, Bool, true, false, ◌&&◌, ◌||◌, not, ltb, leb, ◌==◌, Option, none, some, List, [], ◌∷◌, length,
  get_or, if◌then◌else◌,
}
use x4_printer.Prelude.Int.{ℤ, pos, ◌+ℤ◌, ◌-ℤ◌, ◌*ℤ◌, to_long, ltb_ℤ, leb_ℤ, eq_ℤ}
use x4_printer.Prelude.Text.{Text, codes, text_eq}
use x4_printer.Calendar.TimeUtil.{Civil, days_from_civil, transition_day_num, epoch_from_utc}
use x4_printer.Calendar.Ics.Strings.{
  is_empty, param_value, digit_at, two_digits, skip_while, to_int,
}
use x4_printer.Calendar.Ics.Rules.{weekday_bit, is_ordinal, extract_rrule_value, parse_utc_offset}
use x4_printer.Calendar.Ics.State.{
  Setup, VtzRule, Vtz, DtParts, Section, no_section, standard, daylight,
}

-- The local second at which a rule takes effect in a year.
unfoldable pub transition_sec : Setup → ℤ → VtzRule → ℤ
unfolding transition_day_num to_long ◌+ℤ◌ ◌*ℤ◌
transition_sec s year r =
    to_long (transition_day_num s.past year r.month r.week r.wday *ℤ pos 86400 +ℤ r.time_sec)

-- `cSec`, without the seconds.
unfoldable pub civil_sec : Civil → ℤ
unfolding days_from_civil to_long ◌+ℤ◌ ◌*ℤ◌
civil_sec c =
    to_long (days_from_civil c.y c.mo c.d *ℤ pos 86400 +ℤ c.h *ℤ pos 3600 +ℤ c.mi *ℤ pos 60)

unfoldable pub in_dst : ℤ → ℤ → ℤ → Bool
in_dst sec dst_start std_start =
    if ltb_ℤ dst_start std_start
    then leb_ℤ dst_start sec && ltb_ℤ sec std_start
    else leb_ℤ dst_start sec || ltb_ℤ sec std_start

unfoldable pub tz_offset_for : Setup → Vtz → Civil → ℤ
unfolding transition_sec civil_sec in_dst
tz_offset_for s z c =
    let dst = in_dst (civil_sec c) (transition_sec s c.y z.dst) (transition_sec s c.y z.std) in
    if not z.has_dst then z.std.offset_sec else if dst then z.dst.offset_sec else z.std.offset_sec

unfoldable pub civil_to_epoch : Setup → Civil → Option Vtz → Bool → ℤ
unfolding epoch_from_utc tz_offset_for ◌-ℤ◌
civil_to_epoch s c vtz true = epoch_from_utc c
civil_to_epoch s c (some z) false = epoch_from_utc c -ℤ tz_offset_for s z c
civil_to_epoch s c none false = s.mktime c

-- The first definition of a zone.
unfoldable pub find_vtz : Text → List Vtz → Option Vtz
find_vtz tzid [] = none
find_vtz tzid (z ∷ zs) = if text_eq z.tzid tzid then some z else find_vtz tzid zs

abbrev last_is : ℕ → Text → Bool
last_is c [] = false
last_is c (x ∷ []) = x == c
last_is c (x ∷ y ∷ t) = last_is c (y ∷ t)

abbrev four_digits : Text → ℤ
four_digits v =
    digit_at v 0 *ℤ pos 1000 +ℤ digit_at v 1 *ℤ pos 100 +ℤ digit_at v 2 *ℤ pos 10 +ℤ digit_at v 3

abbrev date_of : Text → Civil
date_of v = record {
  y = four_digits v;
  mo = two_digits v 4;
  d = two_digits v 6;
  h = pos 0;
  mi = pos 0;
  s = pos 0;
}

abbrev date_time_of : Text → Civil
date_time_of v = record (date_of v) {
  h = two_digits v 9;
  mi = two_digits v 11;
  s = two_digits v 13;
}

abbrev date_parts : Text → DtParts
date_parts v = record { civil = date_of v; vtz = none; utc = false; is_date = true }

abbrev date_time_parts : List Vtz → Text → Text → DtParts
date_time_parts zones v tzid =
    let utc = last_is b'Z' v || text_eq tzid (codes "UTC") in
    record {
      civil = date_time_of v;
      vtz = if not utc && not (is_empty tzid) then find_vtz tzid zones else none;
      utc = utc;
      is_date = false;
    }

-- What `parseDateTime` returns and writes; `none` where it answers 0 before it has parsed.
unfoldable pub parse_date_time : Setup → List Vtz → Text → Text → Option (ℤ × DtParts)
unfolding param_value digit_at two_digits find_vtz civil_to_epoch ◌+ℤ◌ ◌*ℤ◌
parse_date_time s zones v params =
    let p = date_time_parts zones v (param_value params (codes "TZID")) in
    let date_only =
      text_eq (param_value params (codes "VALUE")) (codes "DATE")
      || length v == 8
      || not (get_or v 8 0 == b'T') in
    if ltb (length v) 8
    then none
    else if date_only
    then some (s.mktime (date_of v), date_parts v)
    else if ltb (length v) 15
    then none
    else some (civil_to_epoch s p.civil p.vtz p.utc, p)

-- The value alone, 0 on failure.
unfoldable pub date_time_value : Setup → List Vtz → Text → Text → ℤ
unfolding parse_date_time
date_time_value s zones v params = elim (parse_date_time s zones v params) [
  | none ↦ pos 0
  | some r ↦ r.0
]

abbrev is_month : ℤ → Bool
is_month m = leb_ℤ (pos 1) m && leb_ℤ m (pos 12)

abbrev set_transition : Option ℕ → ℤ → ℤ → VtzRule → VtzRule
set_transition none month ord r = record r { month = pos 0 }
set_transition (some bit) month ord r =
    if is_month month
    then record r { month = month; week = if eq_ℤ ord (pos 0) then pos 1 else ord; wday = pos bit }
    else record r { month = pos 0 }

-- The RRULE of a section: `FREQ=YEARLY;BYMONTH=3;BYDAY=2SU`.
unfoldable pub handle_vtz_rrule : Text → VtzRule → VtzRule
unfolding extract_rrule_value to_int weekday_bit skip_while
handle_vtz_rrule value r =
    let bymonth = extract_rrule_value value (codes "BYMONTH") in
    let byday = extract_rrule_value value (codes "BYDAY") in
    if not (is_empty bymonth) && not (is_empty byday)
    then set_transition (weekday_bit (skip_while is_ordinal byday)) (to_int bymonth) (to_int byday)
        r
    else r

abbrev time_of_day : Text → ℤ
time_of_day value = two_digits value 9 *ℤ pos 3600 +ℤ two_digits value 11 *ℤ pos 60

unfoldable pub set_vtz_rule : Text → Text → VtzRule → VtzRule
unfolding parse_utc_offset two_digits handle_vtz_rrule ◌+ℤ◌ ◌*ℤ◌
set_vtz_rule name value r =
    if text_eq name (codes "TZOFFSETTO")
    then record r { offset_sec = parse_utc_offset value; valid = true }
    else if text_eq name (codes "DTSTART")
    then (if leb 15 (length value) && get_or value 8 0 == b'T'
        then record r { time_sec = time_of_day value }
        else r)
    else if text_eq name (codes "RRULE")
    then handle_vtz_rrule value r
    else r

unfoldable pub handle_vtz_prop : Section → Text → Text → Vtz → Vtz
unfolding set_vtz_rule
handle_vtz_prop no_section name value z =
    if text_eq name (codes "TZID") then record z { tzid = value } else z
handle_vtz_prop standard name value z = record z { std = set_vtz_rule name value z.std }
handle_vtz_prop daylight name value z = record z { dst = set_vtz_rule name value z.dst }
