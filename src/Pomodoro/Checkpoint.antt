-- ===== src/Pomodoro/Checkpoint.antt =====
-- When a session next wants the device awake.
use x4_printer.Prelude.{
  ℕ, zero, suc, subst, ◌+◌, ◌-◌, ◌*◌, ◌/◌, ◌^◌, ◌≤◌, ◌<◌, ◌≡◌, ◌≢◌, ◌⊎◌, false, some, ltb, ◌==◌,
  if◌then◌else◌, arith, Bool-cases, inl, inr,
}
use x4_printer.Pomodoro.{State, is_idle, seconds_until_next_checkpoint}

-- A wake-up `d` seconds after `now`: within the phase, at the phase's end or a whole number of
-- checkpoint intervals after its start, and no later than any such checkpoint that is ahead.
pub record IsCheckpoint (now : ℕ) (s : State) (d : ℕ) : Type 0 where
  pub later : 0 < d
  pub within : now + d ≤ s.phase_end
  pub lands :
      (now + d ≡ s.phase_end)
      ⊎ ((n : ℕ) × (now + d ≡ s.phase_start + n * (s.config.checkpoint_minutes * 60)))
  pub first :
      (n : ℕ)
      → now < s.phase_start + n * (s.config.checkpoint_minutes * 60)
      → now + d ≤ s.phase_start + n * (s.config.checkpoint_minutes * 60)

-- The multiple of `c` that follows `e`, and no other lies between.
next_multiple : (e c : ℕ) → 0 < c → e < (e / c + 1) * c
next_multiple e c h = grind arith

below_multiple : (q n c e : ℕ) → q * c ≤ e → e < n * c → (q + 1) * c ≤ n * c
below_multiple q zero c e lo hi = absurd (omega (arith, hi))
below_multiple zero (suc n) c e lo hi = grind arith
below_multiple (suc q) (suc n) c e lo hi =
    grind (arith, below_multiple q n c (e - c) (grind arith) (grind arith))

next_multiple_first : (e c n : ℕ) → 0 < c → e < n * c → (e / c + 1) * c ≤ n * c
next_multiple_first e c n h lt = below_multiple (e / c) n c e (grind arith) lt

module _ (now : ℕ) (s : State) (active : is_idle s.phase ≡ false) (begun : s.phase_start ≤ now)
    (lasts : now < s.phase_end) (near : s.phase_end < now + 2 ^ 32) where
  elapsed_eq : (if ltb s.phase_start now then now - s.phase_start else 0) ≡ now - s.phase_start
  elapsed_eq = ground arith

  never :
      s.config.checkpoint_minutes ≡ 0
      → (n : ℕ) → now < s.phase_start + n * (s.config.checkpoint_minutes * 60)
      → ⊥
  never off n ahead =
      let here : now < s.phase_start + n * (0 * 60) =
        subst (λ k. now < s.phase_start + n * (k * 60)) off ahead in
      omega (arith, here)

  abbrev interval : ℕ
  interval = s.config.checkpoint_minutes * 60

  -- With no checkpoint ahead in the phase, the wake-up is the end of the phase.
  at_end :
      ((n : ℕ) → now < s.phase_start + n * interval → s.phase_end ≤ s.phase_start + n * interval)
      → IsCheckpoint now s (s.phase_end - now)
  at_end none_left = record {
    later = omega arith;
    within = omega arith;
    lands = inl (omega arith);
    first = λ n ahead. omega (arith, none_left n ahead);
  }

  at_boundary :
      (n : ℕ)
      → now < s.phase_start + n * interval
      → ((m : ℕ) → now < s.phase_start + m * interval → n * interval ≤ m * interval)
      → s.phase_start + n * interval < s.phase_end
      → IsCheckpoint now s (s.phase_start + n * interval - now)
  at_boundary n ahead least early = record {
    later = omega arith;
    within = omega arith;
    lands = inr (n, omega arith);
    first = λ m after. omega (arith, least m after);
  }

  with_checkpoints :
      s.config.checkpoint_minutes ≢ 0
      → (d : ℕ) × (seconds_until_next_checkpoint now s ≡ some d) × IsCheckpoint now s d
  unfolding seconds_until_next_checkpoint
  with_checkpoints h =
      let n = (now - s.phase_start) / interval + 1 in
      let after = next_multiple (now - s.phase_start) interval (omega arith) in
      let least : (m : ℕ) → now < s.phase_start + m * interval → n * interval ≤ m * interval =
        λ m ahead.
          next_multiple_first (now - s.phase_start) interval m (omega arith) (omega arith) in
      elim (Bool-cases (ltb (s.phase_start + n * interval) s.phase_end)) [
        | inl inside ↦ (
          s.phase_start + n * interval - now,
          rw elapsed_eq (ground arith),
          at_boundary n (omega arith) least (ground arith),
        )
        | inr outside ↦ (
          s.phase_end - now,
          rw elapsed_eq (ground arith),
          at_end (λ m ahead. ground (arith, least m ahead)),
        )
      ]

  -- Before the end of a phase the wake-up is the first that is due: the next checkpoint or, if that is
  -- not in the phase, the end of the phase.
  pub seconds_until_next_checkpoint-IsCheckpoint :
      (d : ℕ) × (seconds_until_next_checkpoint now s ≡ some d) × IsCheckpoint now s d
  unfolding seconds_until_next_checkpoint
  seconds_until_next_checkpoint-IsCheckpoint =
      elim (Bool-cases (s.config.checkpoint_minutes == 0)) [
        | inl none_set ↦
            let off : s.config.checkpoint_minutes ≡ 0 = ground arith in
            (s.phase_end - now, ground arith, at_end (λ n ahead. absurd (never off n ahead)))
        | inr set ↦ with_checkpoints (ground arith)
      ]
