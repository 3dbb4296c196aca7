-- ===== src/Calendar/Ics/Events.antt =====
-- `handleEventProp` and `endEvent` of IcsParser.cpp.
use x4_printer.Prelude.{
  suc, Bool, true, false, ◌&&◌, ◌||◌, not, leb, Option, none, some, List, [], ◌∷◌, ◌++◌, length,
  take, if◌then◌else◌,
}
use x4_printer.Prelude.Int.{ℤ, pos, negsuc, ◌+ℤ◌, ◌-ℤ◌, ltb_ℤ, leb_ℤ, eq_ℤ}
use x4_printer.Prelude.Text.{Text, codes, text_eq}
use x4_printer.Calendar.Ics.Strings.{is_empty, parts, unescape_text, decimal}
use x4_printer.Calendar.Ics.Rules.{parse_ics_duration}
use x4_printer.Calendar.Ics.State.{
  EventStatus, tentative, confirmed, cancelled, Event, Vtz, DtParts, RawEvent, Setup, Output,
  Blocks, max_title, max_uid, max_overrides,
}
use x4_printer.Calendar.Ics.Zones.{parse_date_time, date_time_value}
use x4_printer.Calendar.Ics.Emit.{in_window, title_of, emit_occurrence}
use x4_printer.Calendar.Ics.Expand.{expand_recurrence}

-- The loop over EXDATE's dates; a date whose value is 0 is left out.
unfoldable pub add_exdates : Setup → List Vtz → Text → List Text → List ℤ → List ℤ
add_exdates s zones params [] dates = dates
add_exdates s zones params (v ∷ vs) dates =
    let t = date_time_value s zones v params in
    add_exdates s zones params vs (if eq_ℤ t (pos 0) then dates else dates ++ (t ∷ []))

abbrev status_named : Text → EventStatus
status_named value =
    if text_eq value (codes "CANCELLED")
    then cancelled
    else if text_eq value (codes "TENTATIVE")
    then tentative
    else confirmed

unfoldable pub handle_event_prop : Setup → List Vtz → Text → Text → Text → RawEvent → RawEvent
handle_event_prop s zones name params value raw =
    if text_eq name (codes "UID")
    then record raw { uid = take max_uid value }
    else if text_eq name (codes "SUMMARY")
    then record raw { summary = take max_title (unescape_text value) }
    else if text_eq name (codes "DTSTART")
    then record raw { dt_start = value; dt_start_params = params }
    else if text_eq name (codes "DTEND")
    then record raw { dt_end = value; dt_end_params = params }
    else if text_eq name (codes "DURATION")
    then record raw { duration = value }
    else if text_eq name (codes "RRULE")
    then record raw { rrule = value }
    else if text_eq name (codes "EXDATE")
    then record raw { exdates = add_exdates s zones params (parts b',' value) raw.exdates }
    else if text_eq name (codes "RECURRENCE-ID")
    then record raw { recurrence_id = value; recurrence_id_params = params }
    else if text_eq name (codes "STATUS")
    then record raw { status = status_named value }
    else raw

abbrev default_duration : Bool → ℤ
default_duration is_date = if is_date then pos 86400 else pos 3600

-- `durationSec`
unfoldable pub duration_of : Setup → List Vtz → RawEvent → ℤ → Bool → ℤ
duration_of s zones raw dt_start is_date =
    let dt_end = date_time_value s zones raw.dt_end raw.dt_end_params in
    let written = parse_ics_duration raw.duration in
    if not (is_empty raw.dt_end)
    then (if ltb_ℤ dt_start dt_end then dt_end -ℤ dt_start else default_duration is_date)
    else if not (is_empty raw.duration)
    then (if leb_ℤ written (pos 0) then default_duration is_date else written)
    else default_duration is_date

-- `String((long long)t)`, of 64 bits.
unfoldable pub print_time : ℤ → Text
print_time (pos n) = decimal 20 n
print_time (negsuc n) = b'-' ∷ decimal 20 (suc n)

unfoldable pub with_uid : RawEvent → ℤ → RawEvent
with_uid raw dt_start =
    if is_empty raw.uid
    then record raw { uid = raw.summary ++ (b'@' ∷ print_time dt_start) }
    else raw

abbrev override_event : Setup → RawEvent → ℤ → ℤ → Bool → ℤ → Event
override_event s raw dt_start duration is_date rec_id = record {
  uid = raw.uid;
  title = title_of raw;
  start = dt_start;
  end = dt_start +ℤ duration;
  all_day = is_date;
  status = raw.status;
  cal_index = s.cal_index;
  is_override = true;
  recurrence_id = rec_id;
}

-- `selfRelevant || baseRelevant`
unfoldable pub is_relevant : Setup → ℤ → ℤ → ℤ → Bool
is_relevant s start end rec_id =
    in_window s start end
    || (ltb_ℤ (s.window_start -ℤ pos 86400) rec_id && ltb_ℤ rec_id (s.window_end +ℤ pos 86400))

-- An event with a RECURRENCE-ID.
unfoldable pub keep_override : Setup → RawEvent → ℤ → ℤ → Bool → Blocks → Blocks
keep_override s raw dt_start duration is_date b =
    let rec_id = date_time_value s b.vtimezones raw.recurrence_id raw.recurrence_id_params in
    let ov = override_event s raw dt_start duration is_date rec_id in
    if eq_ℤ rec_id (pos 0)
    then b
    else if not (is_relevant s dt_start (dt_start +ℤ duration) rec_id)
    then b
    else if leb max_overrides (length b.overrides)
    then record b { output = record (b.output) { truncated = true } }
    else record b { overrides = b.overrides ++ (ov ∷ []) }

abbrev pub is_cancelled : EventStatus → Bool
is_cancelled tentative = false
is_cancelled confirmed = false
is_cancelled cancelled = true

-- An event without one.
unfoldable pub base_event : Setup → List Vtz → RawEvent → ℤ → DtParts → ℤ → Bool → Output → Output
base_event s zones raw dt_start p duration is_date o =
    if is_cancelled raw.status
    then o
    else if is_empty raw.rrule
    then emit_occurrence s raw dt_start duration is_date o
    else expand_recurrence s zones raw dt_start p duration is_date o

-- From a start that is parsed and is not 0.
unfoldable pub finish_event : Setup → ℤ → DtParts → Blocks → Blocks
finish_event s dt_start p b =
    let duration = duration_of s b.vtimezones b.raw dt_start p.is_date in
    let raw = with_uid b.raw dt_start in
    let b' = record b { raw = raw } in
    if not (is_empty raw.recurrence_id)
    then keep_override s raw dt_start duration p.is_date b'
    else record b' { output = base_event s b.vtimezones raw dt_start p duration p.is_date b.output }

unfoldable pub started : Setup → Option (ℤ × DtParts) → Blocks → Blocks
started s none b = b
started s (some (dt_start, p)) b = if eq_ℤ dt_start (pos 0) then b else finish_event s dt_start p b

unfoldable pub end_event : Setup → Blocks → Blocks
end_event s b =
    if is_empty b.raw.dt_start
    then b
    else started s (parse_date_time s b.vtimezones b.raw.dt_start b.raw.dt_start_params) b
