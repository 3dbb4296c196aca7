-- ===== src/Examples/Timing.antt =====
-- Sessions and events at concrete times.
use x4_printer.Prelude.{
  ℕ, ◌+◌, ◌*◌, ◌≤◌, ◌<◌, ◌≡◌, ◌≢◌, refl, ap, true, false, none, some, [], ◌∷◌, leb, arith, inr,
}
use x4_printer.Prelude.Int.{pos, pos_part, ◌-ℤ◌}
use x4_printer.Pomodoro.{
  State, work, long_break, default_config, default_state, start, advance, duration_seconds,
  transition_once, seconds_until_next_checkpoint,
}
use x4_printer.Pomodoro.Advance.{CaughtUp, IsRunning, advance-CaughtUp}
use x4_printer.Pomodoro.Cycle.{InCycle, advance-InCycle, work_and_break, long_break-start}
use x4_printer.Pomodoro.Checkpoint.{IsCheckpoint, seconds_until_next_checkpoint-IsCheckpoint}
use x4_printer.Calendar.Wake.{Settings, NextEventInfo, before_start, compute_wake_decision}
use x4_printer.Calendar.Wake.Sleep.{InTime, of_start, of_end, target}
use x4_printer.Calendar.Wake.Once.{wake_alerts, count_shown, shown_once, end_reminder_lost}
use x4_printer.Device.Sleep.{next_wake_interval_seconds, sleep_until_next_event}
use x4_printer.Device.Sleep.Timer.{due_phase_no_timer, timer_armed, timer-InTime}

abbrev session : State
session = record {
  phase = work;
  phase_start = 1000;
  phase_end = 2500;
  completed_work_sessions = 0;
  config = default_config;
}

session-started : start 1000 default_config default_state ≡ session
unfolding start duration_seconds
session-started = refl

session-IsRunning : IsRunning session
unfolding duration_seconds
session-IsRunning = record { active = refl; timed = refl }

session-InCycle : InCycle session
session-InCycle = record { sessions = (omega arith, omega arith); counted = omega arith }

advance-CaughtUp_example :
    CaughtUp 2600 session (advance 2600 session).0
    × ((advance 2600 session).1 ≡ leb session.phase_end 2600)
advance-CaughtUp_example = advance-CaughtUp 2600 session session-IsRunning (omega arith)

advance-InCycle_example : InCycle (advance 2600 session).0
advance-InCycle_example = advance-InCycle 2600 session session-InCycle

-- The last work phase of the first cycle.
abbrev fourth : State
fourth = work_and_break 3 (start 1000 default_config default_state)

abbrev fifth : State
fifth = work_and_break 4 (start 1000 default_config default_state)

long_break-start_example :
    (fourth.phase ≡ work)
    × (fourth.completed_work_sessions ≡ 3)
    × ((transition_once fourth).phase ≡ long_break)
    × (3 + 1 ≡ default_config.sessions_before_long_break
        → (fifth.phase ≡ work) × (fifth.completed_work_sessions ≡ 0))
long_break-start_example =
    long_break-start 3 1000 default_config default_state (omega arith) (omega arith)

seconds_until_next_checkpoint-IsCheckpoint_example :
    (d : ℕ) × (seconds_until_next_checkpoint 1100 session ≡ some d) × IsCheckpoint 1100 session d
seconds_until_next_checkpoint-IsCheckpoint_example =
    seconds_until_next_checkpoint-IsCheckpoint 1100 session refl (omega arith) (omega arith)
      (omega arith)

abbrev settings : Settings
settings = record { wake_before_start = true; wake_lead_minutes = 10; wake_at_end = true }

-- From 10000 to 11000, with its first reminder at 9400.
abbrev event : NextEventInfo
event = record {
  has_event = true;
  title = [];
  start = pos 10000;
  end = pos 11000;
  all_day = false;
  last_synced_at = pos 5000;
  alerted_for_start = pos 0;
  alerted_for_end = pos 0;
}

unmarked : pos 0 ≢ pos 9400
unmarked e = absurd (omega (arith, ap pos_part e))

unmarked_end : pos 0 ≢ pos 11000
unmarked_end e = absurd (omega (arith, ap pos_part e))

shown_once_example :
    count_shown of_start (wake_alerts settings event ((pos 9500, 3600) ∷ (pos 9600, 3600) ∷ [])) ≤ 1
shown_once_example = shown_once of_start settings event ((pos 9500, 3600) ∷ (pos 9600, 3600) ∷ [])

-- The device was off, or asleep without a timer, from before 9400 until after the end.
end_reminder_lost_example :
    ((compute_wake_decision settings event (pos 12000) 3600).0.alert ≡ before_start)
    × (count_shown of_end (wake_alerts settings event ((pos 12000, 3600) ∷ (pos 12060, 3600) ∷ []))
        ≡ 0)
unfolding ◌-ℤ◌
end_reminder_lost_example =
    end_reminder_lost settings event (pos 12000) 3600 ((pos 12060, 3600) ∷ []) refl refl refl
      unmarked unmarked_end (omega arith) (omega arith)

timer_armed_example :
    (d : ℕ) × (sleep_until_next_event (next_wake_interval_seconds settings event session 1100)
      ≡ some (d * 1000000))
    × (0 < d)
    × (d ≤ 3600)
timer_armed_example =
    timer_armed settings event session 1100 (inr (refl, omega arith, omega arith, omega arith))

due_phase_no_timer_example :
    sleep_until_next_event (next_wake_interval_seconds settings event session 2500) ≡ none
due_phase_no_timer_example = due_phase_no_timer settings event session 2500 refl (omega arith)

-- At 9000 with a session that ends at 10500, the first reminder being due at 9400.
abbrev later_session : State
later_session = start 9000 default_config default_state

timer-InTime_example :
    (d : ℕ) × (sleep_until_next_event (next_wake_interval_seconds settings event later_session 9000)
      ≡ some (d * 1000000))
    × (0 < d)
    × InTime (target of_start settings event) (pos 9000) d
unfolding ◌-ℤ◌ start duration_seconds
timer-InTime_example =
    timer-InTime settings event later_session 9000 of_start refl refl unmarked (omega arith)
      (inr (refl, omega arith, omega arith, omega arith))
