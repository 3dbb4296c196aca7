-- ===== src/Device/Sleep/Timer.antt =====
-- When the timer is armed, and when it is not.
use x4_printer.Prelude.{
  ℕ, ◌+◌, ◌*◌, ◌≤◌, ◌<◌, ◌^◌, ◌≡◌, ◌⊎◌, true, false, none, some, arith, Bool-cases, Option-cases,
  ◌≢◌, inl, inr,
}
use x4_printer.Prelude.Int.{pos, ◌<ℤ◌}
use x4_printer.Pomodoro.{State, is_idle, seconds_until_next_checkpoint}
use x4_printer.Pomodoro.Checkpoint.{seconds_until_next_checkpoint-IsCheckpoint}
use x4_printer.Calendar.Wake.{Settings, NextEventInfo, compute_wake_decision}
use x4_printer.Calendar.Wake.Sleep.{
  sleep_seconds_bounds, InTime, Which, is_wanted, mark, target, target_not_slept,
}
use x4_printer.Device.Sleep.{
  wake_timer_interval_seconds, next_wake_interval_seconds, sleep_until_next_event,
}

module _ (settings : Settings) (event : NextEventInfo) (session : State) (now : ℕ) where
  no_event :
      event.has_event ≡ false
      → (compute_wake_decision settings event (pos now) wake_timer_interval_seconds).0.sleep_seconds
        ≡ 3600
  unfolding compute_wake_decision
  no_event h = ground arith

  idle_none : is_idle session.phase ≡ true → seconds_until_next_checkpoint now session ≡ none
  unfolding seconds_until_next_checkpoint
  idle_none h = ground arith

  -- The decision for the event, with or without one, sleeps from 30 seconds to an hour.
  decision_bounds :
      (30
        ≤ (compute_wake_decision settings event
            (pos now)
            wake_timer_interval_seconds).0.sleep_seconds)
      × ((compute_wake_decision settings event
            (pos now)
            wake_timer_interval_seconds).0.sleep_seconds
          ≤ 3600)
  decision_bounds = elim (Bool-cases event.has_event) [
    | inl has ↦
        ground
          (arith, sleep_seconds_bounds settings event (pos now) wake_timer_interval_seconds has)
    | inr has_none ↦ rw (no_event has_none) (omega arith)
  ]

  -- If the session's phase has ended when the device goes to sleep, the interval is 0 and
  -- `sleepUntilNextEvent` arms no timer: only the power button wakes the device.
  pub due_phase_no_timer :
      is_idle session.phase ≡ false
      → session.phase_end ≤ now
      → sleep_until_next_event (next_wake_interval_seconds settings event session now) ≡ none
  unfolding sleep_until_next_event next_wake_interval_seconds seconds_until_next_checkpoint
  due_phase_no_timer active due = ground (arith, decision_bounds)

  interval_bounds :
      (is_idle session.phase ≡ true)
        ⊎ ((is_idle session.phase ≡ false)
            × (session.phase_start ≤ now)
            × (now < session.phase_end)
            × (session.phase_end < now + 2 ^ 32))
      → (0 < next_wake_interval_seconds settings event session now)
        × (next_wake_interval_seconds settings event session now ≤ 3600)
  unfolding next_wake_interval_seconds
  interval_bounds (inl rest) = rw (idle_none rest) (omega (arith, decision_bounds))
  interval_bounds (inr (active, begun, lasts, near)) =
      let (p, answer, check) =
        seconds_until_next_checkpoint-IsCheckpoint now session active begun lasts near in
      rw answer (ground (arith, decision_bounds, check.later))

  -- With no session, or before the end of its phase, the timer is armed for at most an hour.
  pub timer_armed :
      (is_idle session.phase ≡ true)
        ⊎ ((is_idle session.phase ≡ false)
            × (session.phase_start ≤ now)
            × (now < session.phase_end)
            × (session.phase_end < now + 2 ^ 32))
      → (d : ℕ) × (sleep_until_next_event (next_wake_interval_seconds settings event session now)
          ≡ some (d * 1000000))
        × (0 < d)
        × (d ≤ 3600)
  unfolding sleep_until_next_event next_wake_interval_seconds
  timer_armed state = (
    next_wake_interval_seconds settings event session now,
    ground (arith, interval_bounds state),
    (interval_bounds state).0,
    (interval_bounds state).1,
  )

  sooner-bound :
      next_wake_interval_seconds settings event session now
      ≤ (compute_wake_decision settings event (pos now) wake_timer_interval_seconds).0.sleep_seconds
  unfolding next_wake_interval_seconds
  sooner-bound = elim (Option-cases (seconds_until_next_checkpoint now session)) [
    | inl resting ↦ rw resting (omega arith)
    | inr (p, answer) ↦ rw answer (ground arith)
  ]

  -- With no session, or before the end of its phase, the timer wakes the device in time for a reminder,
  -- of the start or of the end, that is wanted, not yet marked and still ahead: by the target, or within
  -- 30 seconds if the target is nearer than that.
  pub timer-InTime :
      (w : Which)
      → event.has_event ≡ true
      → is_wanted w settings ≡ true
      → mark w event ≢ target w settings event
      → pos now <ℤ target w settings event
      → (is_idle session.phase ≡ true)
        ⊎ ((is_idle session.phase ≡ false)
            × (session.phase_start ≤ now)
            × (now < session.phase_end)
            × (session.phase_end < now + 2 ^ 32))
      → (d : ℕ) × (sleep_until_next_event (next_wake_interval_seconds settings event session now)
          ≡ some (d * 1000000))
        × (0 < d)
        × InTime (target w settings event) (pos now) d
  unfolding sleep_until_next_event
  timer-InTime w has wanted fresh ahead state =
      let asleep =
        target_not_slept settings event (pos now) wake_timer_interval_seconds has w wanted fresh
          ahead in
      (
        next_wake_interval_seconds settings event session now,
        ground (arith, interval_bounds state),
        (interval_bounds state).0,
        ground (arith, asleep, sooner-bound),
      )
