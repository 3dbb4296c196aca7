-- ===== src/Calendar/Ics/Rules.antt =====
-- The recurrence rule, the UTC offset and the duration at the top of IcsParser.cpp.
use x4_printer.Prelude.{
  ℕ, zero, suc, ◌+◌, ◌*◌, ◌/◌, ◌%◌, ◌^◌, Bool, true, false, ◌||◌, ltb, leb, ◌==◌, Option, none,
  some, List, [], ◌∷◌, ◌++◌, length, get_or, if◌then◌else◌,
}
use x4_printer.Prelude.Int.{ℤ, pos, negsuc, ◌+ℤ◌, ◌-ℤ◌, ◌*ℤ◌, to_long, eq_ℤ}
use x4_printer.Prelude.Text.{Text, codes, text_eq, same_upto}
use x4_printer.Calendar.Ics.Strings.{
  is_digit, cut, parts, find_text, skip_while, trim, strtol, to_int, two_digits,
}

pub data Freq : Type 0 where
  daily weekly monthly yearly : Freq

pub record Rrule : Type 0 where
  pub freq : Freq
  -- At least 1.
  pub interval : ℕ
  pub count : ℤ
  -- Bit 0 is Monday; `n` is in the mask if bit `n` is.
  pub byday_mask : ℕ
  pub byday_ord : ℤ
  pub bymonthday : ℤ
  pub valid : Bool

abbrev pub empty_rule : Rrule
empty_rule = record {
  freq = daily;
  interval = 1;
  count = negsuc 0;
  byday_mask = 0;
  byday_ord = pos 0;
  bymonthday = pos 0;
  valid = false;
}

abbrev day_names : List Text
day_names =
    codes "MO" ∷ codes "TU" ∷ codes "WE" ∷ codes "TH" ∷ codes "FR" ∷ codes "SA" ∷ codes "SU" ∷ []

unfoldable bit_from : ℕ → List Text → Text → Option ℕ
unfolding same_upto
bit_from i [] s = none
bit_from i (name ∷ names) s = if same_upto 2 s name then some i else bit_from (i + 1) names s

-- `weekdayBit`; `none` is -1.
unfoldable pub weekday_bit : Text → Option ℕ
unfolding bit_from
weekday_bit s = bit_from 0 day_names s

abbrev pub in_mask : ℕ → ℕ → Bool
in_mask mask n = mask / 2 ^ n % 2 == 1

-- `mask | (1 << n)`
abbrev pub add_to_mask : ℕ → ℕ → ℕ
add_to_mask mask n = if in_mask mask n then mask else mask + 2 ^ n

abbrev pub is_ordinal : ℕ → Bool
is_ordinal c = c == b'+' || c == b'-' || is_digit c

abbrev starts_ordinal : Text → Bool
starts_ordinal [] = false
starts_ordinal (c ∷ t) = is_ordinal c

abbrev set_day : Option ℕ → ℤ → Rrule → Rrule
set_day none ord r = r
set_day (some bit) ord r = record r {
  byday_mask = add_to_mask r.byday_mask bit;
  byday_ord = if eq_ℤ ord (pos 0) then r.byday_ord else ord;
}

-- One element of BYDAY.
unfoldable pub add_day : Text → Rrule → Rrule
unfolding weekday_bit skip_while to_int
add_day day r =
    set_day (weekday_bit (skip_while is_ordinal day))
      (if starts_ordinal day then to_int day else pos 0) r

unfoldable pub add_days : List Text → Rrule → Rrule
unfolding add_day trim
add_days [] r = r
add_days (day ∷ days) r = add_days days (add_day (trim day) r)

abbrev freq_named : Text → Option Freq
freq_named val =
    if text_eq val (codes "DAILY")
    then some daily
    else if text_eq val (codes "WEEKLY")
    then some weekly
    else if text_eq val (codes "MONTHLY")
    then some monthly
    else if text_eq val (codes "YEARLY")
    then some yearly
    else none

abbrev pub at_least_one : ℤ → ℕ
at_least_one (pos (suc n)) = suc n
at_least_one (pos zero) = 1
at_least_one (negsuc n) = 1

-- The keys but for FREQ.
unfoldable pub set_key : Text → Text → Rrule → Rrule
unfolding add_days parts to_int
set_key key val r =
    if text_eq key (codes "INTERVAL")
    then record r { interval = at_least_one (to_int val) }
    else if text_eq key (codes "COUNT")
    then record r { count = to_int val }
    else if text_eq key (codes "BYDAY")
    then add_days (parts b',' val) r
    else if text_eq key (codes "BYMONTHDAY")
    then record r { bymonthday = to_int val }
    else r

-- The loop over the parts. A frequency that is not supported ends it.
unfoldable pub parse_parts : List Text → Rrule → Rrule
unfolding cut set_key
parse_parts [] r = r
parse_parts (part ∷ rest) r = elim (cut b'=' part) [
  | none ↦ parse_parts rest r
  | some (key, val) ↦ elim (text_eq key (codes "FREQ")) [
    | true ↦ elim (freq_named val) [
      | none ↦ r
      | some freq ↦ parse_parts rest (record r { freq = freq; valid = true })
    ]
    | false ↦ parse_parts rest (set_key key val r)
  ]
]

unfoldable pub parse_rrule : Text → Rrule
unfolding parse_parts parts
parse_rrule text = parse_parts (parts b';' text) empty_rule

abbrev ends_part : Text → Bool
ends_part [] = true
ends_part (c ∷ []) = c == b';'
ends_part (c ∷ d ∷ t) = ends_part (d ∷ t)

abbrev upto : ℕ → Text → Text
upto c t = elim (cut c t) [ none ↦ t | some p ↦ p.0 ]

abbrev value_found : Option (Text × Text) → Text
value_found none = []
value_found (some (before, after)) = if ends_part before then upto b';' after else []

unfoldable pub extract_rrule_value : Text → Text → Text
unfolding find_text cut
extract_rrule_value rrule key = value_found (find_text (key ++ (b'=' ∷ [])) rrule)

unfoldable pub parse_utc_offset : Text → ℤ
unfolding two_digits ◌+ℤ◌ ◌-ℤ◌ ◌*ℤ◌
parse_utc_offset value =
    let s = (if leb 7 (length value) then two_digits value 5 else pos 0) in
    let offset = two_digits value 1 *ℤ pos 3600 +ℤ two_digits value 3 *ℤ pos 60 +ℤ s in
    if ltb (length value) 5
    then pos 0
    else if get_or value 0 0 == b'-'
    then pos 0 -ℤ offset
    else offset

-- The seconds of a unit; `none` on a letter that is no unit.
abbrev unit_seconds : Bool → ℕ → Option ℕ
unit_seconds in_time c =
    if c == b'W'
    then some (7 * 86400)
    else if c == b'D'
    then some 86400
    else if c == b'H'
    then some 3600
    else if c == b'M'
    then some (if in_time then 60 else 0)
    else if c == b'S'
    then some 1
    else none

-- The loop of `parseIcsDuration`; each round takes a byte at least, so the text's length is fuel.
unfoldable pub duration_from : ℕ → Bool → ℤ → Text → ℤ
unfolding strtol to_long ◌+ℤ◌ ◌*ℤ◌
duration_from zero in_time total t = total
duration_from (suc fuel) in_time total [] = total
duration_from (suc fuel) in_time total (c ∷ t) = elim (c == b'T') [
  | true ↦ duration_from fuel true total t
  | false ↦ elim (strtol (c ∷ t)) [
    | none ↦ total
    | some (n, []) ↦ total
    | some (n, u ∷ rest) ↦ elim (unit_seconds in_time u) [
      | none ↦ total
      | some seconds ↦ duration_from fuel in_time (to_long (total +ℤ n *ℤ pos seconds)) rest
    ]
  ]
]

abbrev unsigned_duration : Text → ℤ
unsigned_duration [] = pos 0
unsigned_duration (c ∷ t) = if c == b'P' then duration_from (length t) false (pos 0) t else pos 0

unfoldable pub parse_ics_duration : Text → ℤ
unfolding duration_from ◌-ℤ◌
parse_ics_duration [] = pos 0
parse_ics_duration (c ∷ t) =
    if c == b'-' then pos 0 -ℤ unsigned_duration t else unsigned_duration (c ∷ t)
