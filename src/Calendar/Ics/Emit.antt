-- ===== src/Calendar/Ics/Emit.antt =====
-- `emitOccurrence` of IcsParser.cpp: one occurrence, if it is not excluded and lies in the window.
use x4_printer.Prelude.{
  Bool, true, false, ◌&&◌, ◌||◌, not, leb, List, [], ◌∷◌, ◌++◌, length, if◌then◌else◌,
}
use x4_printer.Prelude.Int.{ℤ, pos, ◌+ℤ◌, ltb_ℤ, eq_ℤ}
use x4_printer.Prelude.Text.{Text, codes}
use x4_printer.Calendar.Ics.Strings.{is_empty}
use x4_printer.Calendar.Ics.State.{Event, RawEvent, Setup, Output}

abbrev pub any_equal : ℤ → List ℤ → Bool
any_equal a [] = false
any_equal a (x ∷ xs) = eq_ℤ x a || any_equal a xs

-- `end > windowStart_ && start < windowEnd_`
abbrev pub in_window : Setup → ℤ → ℤ → Bool
in_window s start end = ltb_ℤ s.window_start end && ltb_ℤ start s.window_end

abbrev pub title_of : RawEvent → Text
title_of raw = if is_empty raw.summary then codes "(untitled)" else raw.summary

abbrev pub occurrence : Setup → RawEvent → ℤ → ℤ → Bool → Event
occurrence s raw start duration all_day = record {
  uid = raw.uid;
  title = title_of raw;
  start = start;
  end = start +ℤ duration;
  all_day = all_day;
  status = raw.status;
  cal_index = s.cal_index;
  is_override = false;
  recurrence_id = pos 0;
}

-- `out_.push_back(event)`, or `truncated_` if the list is full.
unfoldable pub push_event : Setup → Event → Output → Output
push_event s event o =
    if leb s.max_events (length o.events)
    then record o { truncated = true }
    else record o { events = o.events ++ (event ∷ []) }

unfoldable pub emit_occurrence : Setup → RawEvent → ℤ → ℤ → Bool → Output → Output
emit_occurrence s raw start duration all_day o =
    if any_equal start raw.exdates
    then o
    else if not (in_window s start (start +ℤ duration))
    then o
    else push_event s (occurrence s raw start duration all_day) o
