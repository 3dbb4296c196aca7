-- ===== src/Examples/Ics.antt =====
-- A calendar feed at concrete bytes.
use x4_printer.Prelude.{
  ◌+◌, ◌≡◌, ◌⊎◌, Among, refl, true, false, some, none, List, [], ◌∷◌, ◌++◌, map, length, arith,
}
use x4_printer.Prelude.Int.{ℤ, pos, negsuc, ◌+ℤ◌, ◌-ℤ◌, ◌*ℤ◌, ◌≤ℤ◌, quot, rem, to_unsigned}
use x4_printer.Prelude.Text.{Text, codes}
use x4_printer.Calendar.Wake.{NextEventInfo}
use x4_printer.Calendar.TimeUtil.{
  doy_of, days_from_civil, civil_from_days, weekday_of_day_num, transition_day_num, epoch_from_utc,
  is_leap, table_at, days_in_month, clamp_day, nth_weekday, last_weekday,
}
use x4_printer.Calendar.TimeUtil.Weekdays.{Transition, transition_day_num-Transition}
use x4_printer.Calendar.Ics.Strings.{
  unescape_text, parts, cut, find_text, strtol, to_int, read_digits, skip_while, trim,
  drop_end_while, upper_case, digit_at, two_digits, decimal, param_text, param_value, cut_colon,
}
use x4_printer.Calendar.Ics.Strings.Escape.{escape_text, one_line, unescape_text-escape_text}
use x4_printer.Calendar.Ics.Rules.{parse_rrule, parse_ics_duration, extract_rrule_value}
use x4_printer.Calendar.Ics.State.{Event, RawEvent, empty_raw, Setup, Output, DtParts, new_parser}
use x4_printer.Calendar.Ics.Emit.{push_event, emit_occurrence}
use x4_printer.Calendar.Ics.Expand.{
  expand_recurrence, emit_if_due, round, day_zero, occurrence_at, weekly_mask, day_due,
  fast_forward, day_step, day_loop, month_day, month_after, month_occurrence, year_occurrence,
  occurs_step, period_loop, run_series, until_of, expand_series,
}
use x4_printer.Calendar.Ics.Lines.{
  feed, finish, begin_block, end_vtz, end_block, handle_prop, handle_split, process_logical_line,
  process_pending, handle_physical_line, add_byte, feed_byte, erase_base, apply_override,
  apply_overrides, flush,
}
use x4_printer.Calendar.Ics.Zones.{
  transition_sec, civil_sec, in_dst, tz_offset_for, civil_to_epoch, find_vtz, parse_date_time,
  date_time_value, handle_vtz_rrule, set_vtz_rule, handle_vtz_prop,
}
use x4_printer.Calendar.Ics.Events.{
  add_exdates, handle_event_prop, duration_of, print_time, with_uid, is_relevant, keep_override,
  base_event, finish_event, started, end_event,
}
use x4_printer.Calendar.Ics.Lines.Chunks.{IsBounded, feed-IsBounded, feed-folded}
use x4_printer.Calendar.Ics.Lines.Window.{IsSound, finish-IsSound}
use x4_printer.Calendar.Feeds.{
  CalendarFeed, response, Device, fetch_ics, sync_feed, sync_feeds, sync_calendars,
}
use x4_printer.Calendar.Feeds.Kept.{Replaced}
use x4_printer.Calendar.Feeds.Soonest.{Caches, sync_calendars-Caches}

-- 2024-03-10 is the second Sunday of its month, and day 19792.
civil-round_trip :
    (days_from_civil (pos 2024) (pos 3) (pos 10) ≡ pos 19792)
    × (civil_from_days (pos 19792) ≡ (pos 2024, pos 3, pos 10))
    × (civil_from_days (negsuc 0) ≡ (pos 1969, pos 12, pos 31))
unfolding days_from_civil civil_from_days
civil-round_trip = (refl, refl, refl)

transition_day_num-Transition_example :
    Transition
      (λ i. pos 0)
      (pos 2024)
      (pos 3)
      6
      (transition_day_num (λ i. pos 0) (pos 2024) (pos 3) (pos 2) (pos 6))
transition_day_num-Transition_example =
    transition_day_num-Transition (λ i. pos 0) (pos 2024) (pos 2) 3 6 (omega arith) (omega arith)
      (omega arith) (omega arith)

duration_read : parse_ics_duration (codes "PT1H30M") ≡ pos 5400
unfolding parse_ics_duration
duration_read = refl

unescape_text-escape_text_example :
    unescape_text (escape_text (codes "a,b")) ≡ map one_line (codes "a,b")
unescape_text-escape_text_example = unescape_text-escape_text (codes "a,b")

abbrev line : Text → Text
line t = t ++ (13 ∷ 10 ∷ [])

abbrev body : Text
body =
    line (codes "BEGIN:VEVENT")
    ++ line (codes "DTSTART:20240309T080000Z")
    ++ line (codes "RRULE:FREQ=WEEKLY;COUNT=4;BYDAY=SA,SU")
    ++ line (codes "END:VEVENT")

abbrev setup : Setup
setup = record {
  cal_index = 0;
  window_start = pos 1709900000;
  window_end = pos 1715000000;
  max_events = 64;
  past = λ i. pos 0;
  mktime = λ c. pos 0;
}

-- The four occurrences on 9, 10, 16 and 17 March 2024.
abbrev start_of : Event → ℤ
start_of e = e.start

body_run :
    map start_of (finish setup (feed setup (new_parser []) body)).blocks.output.events
    ≡ pos 1709971200 ∷ pos 1710057600 ∷ pos 1710576000 ∷ pos 1710662400 ∷ []
unfolding doy_of days_from_civil civil_from_days weekday_of_day_num is_leap table_at days_in_month
    clamp_day nth_weekday last_weekday transition_day_num epoch_from_utc transition_sec civil_sec
    in_dst tz_offset_for civil_to_epoch find_vtz parse_date_time date_time_value handle_vtz_rrule
    set_vtz_rule handle_vtz_prop push_event emit_occurrence emit_if_due round day_zero occurrence_at
    weekly_mask day_due fast_forward day_step day_loop month_day month_after month_occurrence
    year_occurrence occurs_step period_loop run_series until_of expand_series expand_recurrence
    add_exdates handle_event_prop duration_of print_time with_uid is_relevant keep_override
    base_event finish_event started end_event begin_block end_vtz end_block handle_prop handle_split
    process_logical_line process_pending handle_physical_line add_byte feed_byte feed erase_base
    apply_override apply_overrides flush finish cut parts find_text upper_case skip_while
    drop_end_while trim read_digits strtol to_int digit_at two_digits decimal unescape_text
    param_text param_value cut_colon ◌+ℤ◌ ◌-ℤ◌ ◌*ℤ◌ quot rem parse_rrule extract_rrule_value
    parse_ics_duration to_unsigned
body_run = refl

finish-IsSound_example : IsSound setup (finish setup (feed setup (new_parser []) body)).blocks
finish-IsSound_example =
    finish-IsSound setup (new_parser []) body
      (record { shown = tt; few = omega arith }, omega arith, omega arith)

feed-IsBounded_example : IsBounded (feed setup (new_parser []) body).lines
feed-IsBounded_example = feed-IsBounded setup (new_parser []) body (omega arith, omega arith)

feed-folded_example :
    feed setup (new_parser []) (codes "SUM" ++ (13 ∷ 10 ∷ 32 ∷ (codes "MARY" ++ (13 ∷ 10 ∷ []))))
    ≡ feed setup (new_parser []) ((codes "SUM" ++ codes "MARY") ++ (13 ∷ 10 ∷ []))
feed-folded_example =
    feed-folded setup (new_parser []) b'S' (codes "UM") (codes "MARY") [] refl refl
      ((refl, refl), ((refl, refl), ((refl, refl), tt)))
      ((refl, refl), ((refl, refl), ((refl, refl), ((refl, refl), tt)))) (omega arith) (omega arith)

abbrev raw : RawEvent
raw = record empty_raw { rrule = codes "FREQ=WEEKLY;COUNT=4;BYDAY=SA,SU" }

abbrev start_parts : DtParts
start_parts = record {
  civil = record { y = pos 2024; mo = pos 3; d = pos 9; h = pos 8; mi = pos 0; s = pos 0 };
  vtz = none;
  utc = true;
  is_date = false;
}

abbrev nothing_yet : Output
nothing_yet = record { events = []; truncated = false }

abbrev device : Device
device = record {
  now = pos 1709900000;
  past = λ i. pos 0;
  mktime = λ c. pos 0;
  fetch = λ url. response (pos 200) (body ∷ []);
}

abbrev calendar_feed : CalendarFeed
calendar_feed = record { url = codes "https://a"; label = [] }

abbrev nothing_cached : NextEventInfo
nothing_cached = record {
  has_event = false;
  title = [];
  start = pos 0;
  end = pos 0;
  all_day = false;
  last_synced_at = pos 0;
  alerted_for_start = pos 0;
  alerted_for_end = pos 0;
}

feed-fetched : (sync_feeds device 0 (calendar_feed ∷ []) [] false).1 ≡ true
unfolding sync_feeds sync_feed fetch_ics
feed-fetched = refl

sync_calendars-Caches_example :
    (info : NextEventInfo) × (sync_calendars device (calendar_feed ∷ []) nothing_cached ≡ some info)
    × Caches device (sync_feeds device 0 (calendar_feed ∷ []) [] false).0 info
    × ((before after : List CalendarFeed) (e : Event)
        → calendar_feed ∷ [] ≡ before ++ after
        → let r = sync_feeds device 0 before [] false in
          Among e r.0
          → ((info.has_event ≡ true) × (info.start ≤ℤ e.start))
            ⊎ Replaced device (0 + length before) after r.0 r.1 e)
    × (info.alerted_for_start ≡ pos 0)
    × (info.alerted_for_end ≡ pos 0)
    × (info.last_synced_at ≡ pos 1709900000)
sync_calendars-Caches_example =
    sync_calendars-Caches device calendar_feed [] nothing_cached refl feed-fetched
