-- ===== src/Pomodoro/Advance.antt =====
-- `advance` catches up with the clock.
use x4_printer.Prelude.{
  ℕ, zero, suc, ◌+◌, ◌*◌, ◌≤◌, ◌<◌, ◌≡◌, ◌⊎◌, ◌∙◌, refl, Bool, true, false, leb, if◌then◌else◌,
  arith, Bool-cases, inl, inr,
}
use x4_printer.Pomodoro.{
  Phase, idle, work, break, long_break, Config, State, duration_seconds, is_idle, transition_from,
  transition_once, advance_loop, advance, max_iterations, start,
}

-- The length that the configuration gives a phase.
abbrev pub phase_seconds : Phase → Config → ℕ
phase_seconds idle c = 0
phase_seconds work c = duration_seconds c.work_minutes
phase_seconds break c = duration_seconds c.break_minutes
phase_seconds long_break c = duration_seconds c.long_break_minutes

-- A session is running, and its phase has the length that its configuration gives it.
pub record IsRunning (s : State) : Type 0 where
  pub active : is_idle s.phase ≡ false
  pub timed : s.phase_end ≡ s.phase_start + phase_seconds s.phase s.config

-- One transition starts the next phase at the end of the last.
pub record Follows (s s' : State) : Type 0 where
  pub running : IsRunning s'
  pub begins : s'.phase_start ≡ s.phase_end
  pub lasts : s.phase_end + 60 ≤ s'.phase_end
  pub config_kept : s'.config ≡ s.config

transition_from-Follows :
    (p : Phase) (s : State) → is_idle p ≡ false → Follows s (transition_from p s)
unfolding transition_from duration_seconds
transition_from-Follows idle s h = cc
transition_from-Follows work s h = ground arith
transition_from-Follows break s h = ground arith
transition_from-Follows long_break s h = ground arith

transition_once-Follows : (s : State) → is_idle s.phase ≡ false → Follows s (transition_once s)
unfolding transition_once
transition_once-Follows s h = transition_from-Follows s.phase s h

-- Where `advance` has brought a running session to.
pub record CaughtUp (now : ℕ) (s s' : State) : Type 0 where
  pub running : IsRunning s'
  pub current : now < s'.phase_end
  pub begun : ((now < s.phase_end) × (s' ≡ s)) ⊎ ((s.phase_end ≤ now) × (s'.phase_start ≤ now))
  pub config_kept : s'.config ≡ s.config

CaughtUp-step :
    (now : ℕ) (s t s' : State)
    → s.phase_end ≤ now
    → Follows s t
    → CaughtUp now t s'
    → CaughtUp now s s'
CaughtUp-step now s t s' due f c = record {
  running = c.running;
  current = c.current;
  begun = elim c.begun [
    | inl (early, same) ↦ inr (due, rw same (omega (arith, f.begins)))
    | inr (again, begun) ↦ inr (due, begun)
  ];
  config_kept = c.config_kept ∙ f.config_kept;
}

CaughtUp-here : (now : ℕ) (s : State) → IsRunning s → now < s.phase_end → CaughtUp now s s
CaughtUp-here now s v h = record {
  running = v;
  current = h;
  begun = inl (h, refl);
  config_kept = refl;
}

module _ (n now : ℕ) (s : State) (b : Bool) where
  pub loop_due :
      leb s.phase_end now ≡ true
      → advance_loop (suc n) now s b ≡ advance_loop n now (transition_once s) true
  unfolding advance_loop
  loop_due due = ground arith

  pub loop_early : leb s.phase_end now ≡ false → advance_loop (suc n) now s b ≡ (s, b)
  unfolding advance_loop
  loop_early early = ground arith

if_self : (b : Bool) → (if b then true else false) ≡ b
if_self true = refl
if_self false = refl

if_both : (b : Bool) → (if b then true else true) ≡ true
if_both true = refl
if_both false = refl

advance_loop-CaughtUp :
    (n now : ℕ) (s : State) (b : Bool)
    → IsRunning s
    → now < s.phase_end + n * 60
    → CaughtUp now s (advance_loop n now s b).0
      × ((advance_loop n now s b).1 ≡ (if leb s.phase_end now then true else b))
unfolding advance_loop
advance_loop-CaughtUp zero now s b v h = (CaughtUp-here now s v (omega arith), ground arith)
advance_loop-CaughtUp (suc n) now s b v h = elim (Bool-cases (leb s.phase_end now)) [
  | inl due ↦
      let f = transition_once-Follows s v.active in
      let (c, flag) =
        advance_loop-CaughtUp n now (transition_once s) true f.running (omega (arith, f.lasts)) in
      rw (loop_due n now s b due) (
        CaughtUp-step now s (transition_once s) _ (ground arith) f c,
        rw due (flag ∙ if_both (leb (transition_once s).phase_end now)),
      )
  | inr early ↦ rw (loop_early n now s b early) (CaughtUp-here now s v (ground arith), rw early)
]

-- If the clock is less than 1000 minutes past the end of the phase, `advance` brings a running session
-- to the phase that the clock stands in, each phase of its configured length, changes nothing before
-- the phase's end, and returns whether the phase had ended.
pub advance-CaughtUp :
    (now : ℕ) (s : State)
    → IsRunning s
    → now < s.phase_end + max_iterations * 60
    → CaughtUp now s (advance now s).0 × ((advance now s).1 ≡ leb s.phase_end now)
unfolding advance
advance-CaughtUp now s v h =
    let (c, flag) = advance_loop-CaughtUp max_iterations now s false v h in
    rw v.active (c, flag ∙ if_self (leb s.phase_end now))

-- `start` begins a running session.
pub start-IsRunning : (now : ℕ) (c : Config) (s : State) → IsRunning (start now c s)
unfolding start
start-IsRunning now c s = ground arith
