-- ===== src/Device/Sleep.antt =====
-- firmware/src/main.cpp, `nextWakeIntervalSeconds`, and firmware/src/power/SleepManager.cpp,
-- `sleepUntilNextEvent`: for how long the device sleeps, and whether a timer will wake it. The clock
-- is one number `now`, since both calls of `time` stand in one function.
pub mod Timer
use x4_printer.Prelude.{ℕ, ◌*◌, ◌%◌, ◌^◌, Option, none, some, ltb, if◌then◌else◌}
use x4_printer.Prelude.Int.{pos}
use x4_printer.Pomodoro.{State, seconds_until_next_checkpoint}
use x4_printer.Calendar.Wake.{Settings, NextEventInfo, compute_wake_decision}

-- `kWakeTimerIntervalSeconds`.
abbrev pub wake_timer_interval_seconds : ℕ
wake_timer_interval_seconds = 3600

-- `std::min` with the session's answer, if there is one.
abbrev sooner : ℕ → Option ℕ → ℕ
sooner d none = d
sooner d (some p) = if ltb p d then p else d

-- The event's marks are set on a scratch copy, which is dropped.
unfoldable pub next_wake_interval_seconds : Settings → NextEventInfo → State → ℕ → ℕ
next_wake_interval_seconds settings event session now =
    sooner
      (compute_wake_decision settings event (pos now) wake_timer_interval_seconds).0.sleep_seconds
      (seconds_until_next_checkpoint now session)

-- The deep sleep that `sleepUntilNextEvent` enters: the power button always wakes the device, and
-- a timer does after so many microseconds (`uint64_t`), if it was armed.
unfoldable pub sleep_until_next_event : ℕ → Option ℕ
sleep_until_next_event seconds = if ltb 0 seconds then some (seconds * 1000000 % 2 ^ 64) else none
