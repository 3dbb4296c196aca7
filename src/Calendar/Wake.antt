-- ===== src/Calendar/Wake.antt =====
-- firmware/src/calendar/WakeSchedule: the sleep until the next calendar target, and which reminder
-- is due. A `time_t` is an integer; a target before 1970 is negative.
pub mod Sleep
pub mod Once
use x4_printer.Prelude.{ℕ, ◌*◌, ◌%◌, ◌^◌, Bool, true, false, not, ltb, if◌then◌else◌}
use x4_printer.Prelude.Int.{ℤ, pos, pos_part, ◌-ℤ◌, leb_ℤ, eq_ℤ}
use x4_printer.Prelude.Text.{Text}

-- The members of `config::AppSettingsData` that the calendar reads.
pub record Settings : Type 0 where
  pub wake_before_start : Bool
  pub wake_lead_minutes : ℕ
  pub wake_at_end : Bool

-- `config::NextEventInfo`.
pub record NextEventInfo : Type 0 where
  pub has_event : Bool
  pub title : Text
  pub start : ℤ
  pub end : ℤ
  pub all_day : Bool
  pub last_synced_at : ℤ
  pub alerted_for_start : ℤ
  pub alerted_for_end : ℤ

pub data WakeAlertKind : Type 0 where
  no_alert before_start at_end : WakeAlertKind

pub record WakeDecision : Type 0 where
  pub alert : WakeAlertKind
  pub sleep_seconds : ℕ

abbrev pub min_sleep_seconds : ℕ
min_sleep_seconds = 30

-- What one target does if it is wanted: whether it fires, its `alertedFor…` mark, and `sleepSeconds`.
-- The source writes it out once for the start and once for the end of the event.
unfoldable pub try_target : Bool → ℤ → ℤ → ℤ → ℕ → Bool × ℤ × ℕ
try_target wanted target alerted now sleep =
    let until_target = pos_part (target -ℤ now) % 2 ^ 32 in
    if not wanted
    then (false, alerted, sleep)
    else if eq_ℤ alerted target
    then (false, alerted, sleep)
    else if leb_ℤ target now
    then (true, target, sleep)
    else (false, alerted, if ltb until_target sleep then until_target else sleep)

abbrev pub start_target : Settings → NextEventInfo → ℤ
start_target settings event = event.start -ℤ pos (settings.wake_lead_minutes * 60)

abbrev pub try_start : Settings → NextEventInfo → ℤ → ℕ → Bool × ℤ × ℕ
try_start settings event =
    try_target settings.wake_before_start (start_target settings event) event.alerted_for_start

abbrev pub try_end : Settings → NextEventInfo → ℤ → ℕ → Bool × ℤ × ℕ
try_end settings event = try_target settings.wake_at_end event.end event.alerted_for_end

abbrev pub alert_of : Bool → Bool → WakeAlertKind
alert_of true end_fired = before_start
alert_of false true = at_end
alert_of false false = no_alert

-- The decision, and the event with its marks set.
unfoldable pub compute_wake_decision :
    Settings → NextEventInfo → ℤ → ℕ → WakeDecision × NextEventInfo
compute_wake_decision settings event now base =
    let (start_fired, start_mark, after_start) = try_start settings event now base in
    let (end_fired, end_mark, after_end) = try_end settings event now after_start in
    if not event.has_event then (record { alert = no_alert; sleep_seconds = base }, event) else (
      record {
        alert = alert_of start_fired end_fired;
        sleep_seconds = if ltb after_end min_sleep_seconds then min_sleep_seconds else after_end;
      },
      record event { alerted_for_start = start_mark; alerted_for_end = end_mark },
    )
