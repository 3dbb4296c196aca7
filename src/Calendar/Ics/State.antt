-- ===== src/Calendar/Ics/State.antt =====
-- IcsParser.h and Event.h: the parser's state. The constructor's arguments, with the memory behind a
-- table and the C library's `mktime`, make up `Setup`; the fields that an expansion writes are a record
-- of their own, `Output`, and so are those of the line assembly, `Lines`.
use x4_printer.Prelude.{ℕ, Bool, false, Option, List, []}
use x4_printer.Prelude.Int.{ℤ, pos}
use x4_printer.Prelude.Text.{Text}
use x4_printer.Calendar.TimeUtil.{Civil}

pub data EventStatus : Type 0 where
  tentative confirmed cancelled : EventStatus

pub record Event : Type 0 where
  pub uid : Text
  pub title : Text
  pub start : ℤ
  pub end : ℤ
  pub all_day : Bool
  pub status : EventStatus
  pub cal_index : ℕ
  pub is_override : Bool
  pub recurrence_id : ℤ

-- `week` is 1 to 5 for the nth weekday of the month, and -1 for the last.
pub record VtzRule : Type 0 where
  pub offset_sec : ℤ
  pub month : ℤ
  pub week : ℤ
  pub wday : ℤ
  pub time_sec : ℤ
  pub valid : Bool

pub record Vtz : Type 0 where
  pub tzid : Text
  pub std : VtzRule
  pub dst : VtzRule
  pub has_dst : Bool

abbrev pub empty_vtz_rule : VtzRule
empty_vtz_rule = record {
  offset_sec = pos 0;
  month = pos 0;
  week = pos 0;
  wday = pos 0;
  time_sec = pos 7200;
  valid = false;
}

abbrev pub empty_vtz : Vtz
empty_vtz = record { tzid = []; std = empty_vtz_rule; dst = empty_vtz_rule; has_dst = false }

-- The zone is the definition that `vtzIndex` names; `none` is -1.
pub record DtParts : Type 0 where
  pub civil : Civil
  pub vtz : Option Vtz
  pub utc : Bool
  pub is_date : Bool

pub record RawEvent : Type 0 where
  pub uid : Text
  pub summary : Text
  pub dt_start : Text
  pub dt_start_params : Text
  pub dt_end : Text
  pub dt_end_params : Text
  pub duration : Text
  pub rrule : Text
  pub recurrence_id : Text
  pub recurrence_id_params : Text
  pub exdates : List ℤ
  pub status : EventStatus

abbrev pub empty_raw : RawEvent
empty_raw = record {
  uid = [];
  summary = [];
  dt_start = [];
  dt_start_params = [];
  dt_end = [];
  dt_end_params = [];
  duration = [];
  rrule = [];
  recurrence_id = [];
  recurrence_id_params = [];
  exdates = [];
  status = confirmed;
}

pub record Setup : Type 0 where
  pub cal_index : ℕ
  pub window_start : ℤ
  pub window_end : ℤ
  pub max_events : ℕ
  pub past : ℤ → ℤ
  pub mktime : Civil → ℤ

pub record Output : Type 0 where
  pub events : List Event
  pub truncated : Bool

pub record Lines : Type 0 where
  pub line_buf : Text
  pub logical : Text
  pub have_pending : Bool

-- `vtzSection_`
pub data Section : Type 0 where
  no_section standard daylight : Section

-- What the handling of one logical line reads and writes.
pub record Blocks : Type 0 where
  pub output : Output
  pub overrides : List Event
  pub vtimezones : List Vtz
  pub in_event : Bool
  pub skip_depth : ℕ
  pub raw : RawEvent
  pub in_vtz : Bool
  pub vtz_section : Section
  pub cur_vtz : Vtz

pub record IcsParser : Type 0 where
  pub blocks : Blocks
  pub lines : Lines

abbrev pub max_logical_line : ℕ
max_logical_line = 4096

abbrev pub max_title : ℕ
max_title = 120

abbrev pub max_uid : ℕ
max_uid = 80

abbrev pub max_overrides : ℕ
max_overrides = 200

abbrev pub max_vtimezones : ℕ
max_vtimezones = 12

abbrev pub max_day_iterations : ℕ
max_day_iterations = 40000

abbrev pub max_month_iterations : ℕ
max_month_iterations = 1200

abbrev pub max_year_iterations : ℕ
max_year_iterations = 100

-- The constructor, for the vector that it appends to.
abbrev pub new_parser : List Event → IcsParser
new_parser out = record {
  blocks = record {
    output = record { events = out; truncated = false };
    overrides = [];
    vtimezones = [];
    in_event = false;
    skip_depth = 0;
    raw = empty_raw;
    in_vtz = false;
    vtz_section = no_section;
    cur_vtz = empty_vtz;
  };
  lines = record { line_buf = []; logical = []; have_pending = false };
}
