-- ===== src/Pomodoro/Cycle.antt =====
-- The long-break cycle: a long break comes after so many work phases as are configured.
use x4_printer.Prelude.{
  ℕ, zero, suc, subst, ◌+◌, ◌%◌, ◌^◌, ◌≤◌, ◌<◌, ◌≡◌, ap, ◌↔◌, refl, Bool, true, false, leb, arith,
  Bool-cases, inl, inr, ◌==◌, if◌then◌else◌,
}
use x4_printer.Pomodoro.Advance.{loop_due, loop_early}
use x4_printer.Pomodoro.{
  max_iterations, Phase, idle, work, break, long_break, Config, State, is_idle, transition_from,
  transition_once, end_work, advance_loop, advance, start,
}

-- While work and short breaks alternate, fewer work phases are done than a cycle has; in the long
-- break all are.
abbrev pub InPhase : Phase → ℕ → ℕ → Type 0
InPhase idle done sessions = Unit
InPhase work done sessions = done < sessions
InPhase break done sessions = (1 ≤ done) × (done < sessions)
InPhase long_break done sessions = done ≡ sessions

pub record InCycle (s : State) : Type 0 where
  pub sessions :
      (1 ≤ s.config.sessions_before_long_break) × (s.config.sessions_before_long_break < 2 ^ 16)
  pub counted : InPhase s.phase s.completed_work_sessions s.config.sessions_before_long_break

-- Counting up to `k` inside a `uint16_t`, the remainder is 0 just at `k`.
count_lem :
    (d k : ℕ) → d < k → k < 2 ^ 16 → ((d + 1) % 2 ^ 16 ≡ d + 1) × (((d + 1) % k ≡ 0) ↔ (d + 1 ≡ k))
count_lem d k h lt = (omega arith, (λ e. grind arith, λ e. grind arith))

end_work-InCycle : (s : State) → s.phase ≡ work → InCycle s → InCycle (end_work s)
unfolding end_work
end_work-InCycle s e c =
    ground (arith, count_lem s.completed_work_sessions s.config.sessions_before_long_break)

transition_from-InCycle :
    (p : Phase) (s : State) → s.phase ≡ p → InCycle s → InCycle (transition_from p s)
unfolding transition_from
transition_from-InCycle idle s e c = c
transition_from-InCycle work s e c = end_work-InCycle s e c
transition_from-InCycle break s e c = ground arith
transition_from-InCycle long_break s e c = ground arith

transition_once-InCycle : (s : State) → InCycle s → InCycle (transition_once s)
unfolding transition_once
transition_once-InCycle s c = transition_from-InCycle s.phase s refl c

advance_loop-InCycle :
    (n now : ℕ) (s : State) (b : Bool) → InCycle s → InCycle (advance_loop n now s b).0
unfolding advance_loop
advance_loop-InCycle zero now s b c = c
advance_loop-InCycle (suc n) now s b c = elim (Bool-cases (leb s.phase_end now)) [
  | inl due ↦
      rw (loop_due n now s b due)
        (advance_loop-InCycle n now (transition_once s) true (transition_once-InCycle s c))
  | inr early ↦ rw (loop_early n now s b early) c
]

-- `advance` keeps to the cycle, however far the clock has moved on.
pub advance-InCycle : (now : ℕ) (s : State) → InCycle s → InCycle (advance now s).0
unfolding advance
advance-InCycle now s c = elim (Bool-cases (is_idle s.phase)) [
  | inl rest ↦ rw rest c
  | inr active ↦ rw active (advance_loop-InCycle max_iterations now s false c)
]

-- So many times a work phase and the break after it.
unfoldable pub work_and_break : ℕ → State → State
work_and_break zero s = s
work_and_break (suc n) s = work_and_break n (transition_once (transition_once s))

-- A session in phase `p`, with `d` work phases done.
record At (p : Phase) (d : ℕ) (c : Config) (s : State) : Type 0 where
  phase : s.phase ≡ p
  done : s.completed_work_sessions ≡ d
  config : s.config ≡ c

transition_once-from :
    (p : Phase) (s : State) → s.phase ≡ p → transition_once s ≡ transition_from p s
unfolding transition_once
transition_once-from p s e = ap (λ q. transition_from q s) e

module _ (d : ℕ) (c : Config) (s : State) (small : c.sessions_before_long_break < 2 ^ 16) where
  At-break :
      d + 1 < c.sessions_before_long_break → At work d c s → At break (d + 1) c (transition_once s)
  unfolding transition_from end_work
  At-break h w =
      rw (transition_once-from work s w.phase)
        (ground (arith, count_lem d c.sessions_before_long_break))

  At-long_break :
      d + 1 ≡ c.sessions_before_long_break
      → At work d c s
      → At long_break (d + 1) c (transition_once s)
  unfolding transition_from end_work
  At-long_break h w =
      rw (transition_once-from work s w.phase)
        (ground (arith, count_lem d c.sessions_before_long_break))

At-work : (d : ℕ) (c : Config) (s : State) → At break d c s → At work d c (transition_once s)
unfolding transition_from
At-work d c s b = rw (transition_once-from break s b.phase) (ground arith)

work_and_break-At :
    (n d : ℕ) (c : Config) (s : State)
    → d + n < c.sessions_before_long_break
    → c.sessions_before_long_break < 2 ^ 16
    → At work d c s
    → At work (d + n) c (work_and_break n s)
unfolding work_and_break
work_and_break-At zero d c s h lt w = let e : d + 0 ≡ d = omega arith in rw e w
work_and_break-At (suc n) d c s h lt w =
    let e : d + suc n ≡ d + 1 + n = omega arith in
    let b = At-break d c s lt (omega arith) w in
    rw e (work_and_break-At n (d + 1) c _ (omega arith) lt (At-work (d + 1) c _ b))

work_and_break-suc :
    (n : ℕ) (s : State)
    → work_and_break (suc n) s ≡ transition_once (transition_once (work_and_break n s))
unfolding work_and_break
work_and_break-suc zero s = refl
work_and_break-suc (suc n) s = work_and_break-suc n (transition_once (transition_once s))

At-cycle : (d : ℕ) (c : Config) (s : State) → At long_break d c s → At work 0 c (transition_once s)
unfolding transition_from
At-cycle d c s b =
    rw (transition_once-from long_break s b.phase)
      (record { phase = refl; done = refl; config = b.config })

-- The phase that follows a work phase when `n` of them are done: the long break after the last of a
-- cycle, a short one after any other.
abbrev pub break_after : ℕ → ℕ → Phase
break_after n sessions = if n == sessions then long_break else break

-- From `start`, `n` work phases and the breaks after them lead to another work phase, for each `n` below
-- the configured number of sessions. It is followed by a short break if it is not the last of that
-- number, and else by the long break, after which a work phase starts a new cycle with none done.
pub long_break-start :
    (n now : ℕ) (c : Config) (s : State)
    → n < c.sessions_before_long_break
    → c.sessions_before_long_break < 2 ^ 16
    → let at_work = work_and_break n (start now c s) in
      (at_work.phase ≡ work)
      × (at_work.completed_work_sessions ≡ n)
      × ((transition_once at_work).phase ≡ break_after (n + 1) c.sessions_before_long_break)
      × (n + 1 ≡ c.sessions_before_long_break
          → ((work_and_break (suc n) (start now c s)).phase ≡ work)
            × ((work_and_break (suc n) (start now c s)).completed_work_sessions ≡ 0))
unfolding start
long_break-start n now c s e lt =
    let at_work : At work n c (work_and_break n (start now c s)) =
      subst (λ k. At work k c (work_and_break n (start now c s))) (omega arith)
        (work_and_break-At n 0 c (start now c s) (omega arith) lt
          (record { phase = refl; done = refl; config = refl })) in
    (
      at_work.phase,
      at_work.done,
      elim (Bool-cases (n + 1 == c.sessions_before_long_break)) [
        | inl last ↦ rw last (At-long_break n c _ lt (ground (arith, last)) at_work).phase
        | inr more ↦ rw more (At-break n c _ lt (ground (arith, more, e)) at_work).phase
      ],
      λ last.
          let again = At-cycle (n + 1) c _ (At-long_break n c _ lt last at_work) in
          rw (work_and_break-suc n (start now c s)) (again.phase, again.done),
    )
