-- ===== src/Calendar/Wake/Sleep.antt =====
-- How long the device may sleep.
use x4_printer.Prelude.{ℕ, ◌≤◌, ◌<◌, ◌≡◌, ◌≢◌, ◌↔◌, ◌⊎◌, Bool, true, if◌then◌else◌, arith, leb}
use x4_printer.Prelude.Int.{ℤ, pos_part, ◌-ℤ◌, ◌<ℤ◌, ◌≤ℤ◌, eq_ℤ_iff}
use x4_printer.Calendar.Wake.{
  Settings, NextEventInfo, min_sleep_seconds, try_target, start_target, try_start, try_end,
  compute_wake_decision,
}

-- `d` seconds after `now` is no later than `target` or, if that is less than 30 seconds away, no later
-- than 30 seconds after `now`.
abbrev pub InTime : ℤ → ℤ → ℕ → Type 0
InTime target now d =
    (d ≤ pos_part (target -ℤ now))
    ⊎ ((pos_part (target -ℤ now) < min_sleep_seconds) × (d ≤ min_sleep_seconds))

-- The two targets of an event.
pub data Which : Type 0 where
  of_start of_end : Which

abbrev pub is_wanted : Which → Settings → Bool
is_wanted of_start settings = settings.wake_before_start
is_wanted of_end settings = settings.wake_at_end

abbrev pub target : Which → Settings → NextEventInfo → ℤ
target of_start settings event = start_target settings event
target of_end settings event = event.end

abbrev pub mark : Which → NextEventInfo → ℤ
mark of_start event = event.alerted_for_start
mark of_end event = event.alerted_for_end

-- What one target does, on each of its branches.
pub record Tried (wanted : Bool) (goal alerted now : ℤ) (sleep : ℕ) (r : Bool × ℤ × ℕ)
    : Type 0 where
  pub fires : (r.0 ≡ true) ↔ ((wanted ≡ true) × (alerted ≢ goal) × (goal ≤ℤ now))
  pub marks : r.1 ≡ (if r.0 then goal else alerted)
  pub shortens : r.2 ≤ sleep
  pub in_time : wanted ≡ true → alerted ≢ goal → now <ℤ goal → r.2 ≤ pos_part (goal -ℤ now)

pub try_target-Tried :
    (wanted : Bool) (goal alerted now : ℤ) (sleep : ℕ)
    → Tried wanted goal alerted now sleep (try_target wanted goal alerted now sleep)
unfolding try_target
try_target-Tried wanted goal alerted now sleep = record {
  fires = (
    λ e. (ground arith, λ same. ground (arith, eq_ℤ_iff alerted goal), ground arith),
    λ e. ground (arith, eq_ℤ_iff alerted goal),
  );
  marks = ground arith;
  shortens = ground arith;
  in_time = λ on fresh ahead. ground (arith, eq_ℤ_iff alerted goal);
}

module _ (settings : Settings) (event : NextEventInfo) (now : ℤ) (base : ℕ)
    (has : event.has_event ≡ true) where
  start-Tried :
      Tried settings.wake_before_start
        (start_target settings event)
        event.alerted_for_start
        now
        base
        (try_start settings event now base)
  start-Tried = try_target-Tried _ _ _ _ _

  end-Tried :
      Tried settings.wake_at_end event.end event.alerted_for_end now
        (try_start settings event now base).2
        (try_end settings event now (try_start settings event now base).2)
  end-Tried = try_target-Tried _ _ _ _ _

  -- With an event the sleep is at least 30 seconds, and at most the larger of this and the base.
  pub sleep_seconds_bounds :
      (min_sleep_seconds ≤ (compute_wake_decision settings event now base).0.sleep_seconds)
      × ((compute_wake_decision settings event now base).0.sleep_seconds
          ≤ (if leb min_sleep_seconds base then base else min_sleep_seconds))
  unfolding compute_wake_decision
  sleep_seconds_bounds = (ground arith, ground (arith, start-Tried.shortens, end-Tried.shortens))

  -- A target, of the start or of the end, that is wanted, not yet marked and still ahead is not
  -- slept through by the decision: its sleep ends by the target, or within 30 seconds if the target is
  -- nearer than that.
  pub target_not_slept :
      (w : Which)
      → is_wanted w settings ≡ true
      → mark w event ≢ target w settings event
      → now <ℤ target w settings event
      → InTime
          (target w settings event)
          now
          (compute_wake_decision settings event now base).0.sleep_seconds
  unfolding compute_wake_decision
  target_not_slept of_start wanted fresh ahead =
      ground (arith, start-Tried.in_time wanted fresh ahead, end-Tried.shortens)
  target_not_slept of_end wanted fresh ahead = ground (arith, end-Tried.in_time wanted fresh ahead)
