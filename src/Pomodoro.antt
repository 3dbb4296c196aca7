-- ===== src/Pomodoro.antt =====
-- firmware/src/pomodoro/PomodoroSession.h: the session state machine. A `time_t` is a number: the
-- device's clock starts at 0 (1970) and is only ever set forward from there, so no time is negative.
-- `uint16_t` and `uint32_t` keep their wrap-around.
pub mod Advance
pub mod Cycle
pub mod Persist
pub mod Checkpoint
use x4_printer.Prelude.{
  ℕ, zero, suc, ◌+◌, ◌-◌, ◌*◌, ◌/◌, ◌%◌, ◌^◌, Bool, true, false, ◌&&◌, Option, none, some, ltb, leb,
  ◌==◌, if◌then◌else◌,
}

pub data Phase : Type 0 where
  idle work break long_break : Phase

pub record Config : Type 0 where
  pub work_minutes : ℕ
  pub break_minutes : ℕ
  pub long_break_minutes : ℕ
  pub sessions_before_long_break : ℕ
  pub checkpoint_minutes : ℕ

pub record State : Type 0 where
  pub phase : Phase
  pub phase_start : ℕ
  pub phase_end : ℕ
  pub completed_work_sessions : ℕ
  pub config : Config

-- `PomodoroConfig` and `PomodoroState` as their members are initialised.
abbrev pub default_config : Config
default_config = record {
  work_minutes = 25;
  break_minutes = 5;
  long_break_minutes = 15;
  sessions_before_long_break = 4;
  checkpoint_minutes = 5;
}

abbrev pub default_state : State
default_state = record {
  phase = idle;
  phase_start = 0;
  phase_end = 0;
  completed_work_sessions = 0;
  config = default_config;
}

unfoldable pub duration_seconds : ℕ → ℕ
duration_seconds minutes = (if ltb 0 minutes then minutes else 1) * 60

unfoldable pub start : ℕ → Config → State → State
unfolding duration_seconds
start now config s = record {
  phase = work;
  phase_start = now;
  phase_end = now + duration_seconds config.work_minutes;
  completed_work_sessions = 0;
  config = config;
}

unfoldable pub stop : State → State
stop s = record s { phase = idle; phase_start = 0; phase_end = 0 }

abbrev pub is_idle : Phase → Bool
is_idle idle = true
is_idle _ = false

-- The phase that starts at the end of the last one, for so many minutes.
abbrev next_phase : Phase → ℕ → State → State
next_phase p minutes s = record s {
  phase = p;
  phase_start = s.phase_end;
  phase_end = s.phase_end + duration_seconds minutes;
}

-- `count` is `completedWorkSessions` after its `++`, which is a `uint16_t`.
abbrev time_for_long_break : ℕ → ℕ → Bool
time_for_long_break count sessions = ltb 0 sessions && count % sessions == 0

unfoldable pub end_work : State → State
unfolding duration_seconds
end_work s =
    let count = (s.completed_work_sessions + 1) % 2 ^ 16 in
    let counted = record s { completed_work_sessions = count } in
    if time_for_long_break count s.config.sessions_before_long_break
    then next_phase long_break s.config.long_break_minutes counted
    else next_phase break s.config.break_minutes counted

-- The cases of `transitionOnce`.
unfoldable pub transition_from : Phase → State → State
unfolding duration_seconds end_work
transition_from idle s = s
transition_from work s = end_work s
transition_from break s = next_phase work s.config.work_minutes s
transition_from long_break s =
    next_phase work s.config.work_minutes (record s { completed_work_sessions = 0 })

unfoldable pub transition_once : State → State
unfolding transition_from
transition_once s = transition_from s.phase s

abbrev pub max_iterations : ℕ
max_iterations = 1000

-- The loop of `advance` with so many iterations to go.
unfoldable pub advance_loop : ℕ → ℕ → State → Bool → State × Bool
advance_loop zero now s transitioned = (s, transitioned)
advance_loop (suc n) now s transitioned = elim (leb s.phase_end now) [
  | true ↦ advance_loop n now (transition_once s) true
  | false ↦ (s, transitioned)
]

unfoldable pub advance : ℕ → State → State × Bool
advance now s = if is_idle s.phase then (s, false) else advance_loop max_iterations now s false

unfoldable pub remaining_seconds : ℕ → State → ℕ
remaining_seconds now s =
    if is_idle s.phase then 0 else if leb s.phase_end now then 0 else (s.phase_end - now) % 2 ^ 32

unfoldable pub seconds_until_next_checkpoint : ℕ → State → Option ℕ
seconds_until_next_checkpoint now s =
    let checkpoint_seconds = s.config.checkpoint_minutes * 60 in
    let elapsed = if ltb s.phase_start now then now - s.phase_start else 0 in
    let next_boundary = s.phase_start + (elapsed / checkpoint_seconds + 1) * checkpoint_seconds in
    let wake_at = if ltb next_boundary s.phase_end then next_boundary else s.phase_end in
    if is_idle s.phase
    then none
    else if leb s.phase_end now
    then some 0
    else if s.config.checkpoint_minutes == 0
    then some ((s.phase_end - now) % 2 ^ 32)
    else if leb wake_at now
    then some 0
    else some ((wake_at - now) % 2 ^ 32)
