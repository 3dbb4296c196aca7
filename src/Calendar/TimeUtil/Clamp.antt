-- ===== src/Calendar/TimeUtil/Clamp.antt =====
-- The clamp of a transition day into its month.
use native.Mathlib.Decide.{dec_le}
use x4_printer.Prelude.{ℕ, zero, suc, ◌+◌, ◌-◌, ◌*◌, ◌%◌, ◌≤◌, ◌<◌, ◌≡◌, refl, arith}
use x4_printer.Prelude.Int.{ℤ, pos, ◌-ℤ◌}
use x4_printer.Calendar.TimeUtil.{clamp_day}

-- A day that whole weeks take from `day` into the month.
pub record Clamped (dim day : ℕ) (z : ℤ) : Type 0 where
  pub d : ℕ
  pub is : z ≡ pos d
  pub first : 1 ≤ d
  pub last : d ≤ dim
  pub earlier : d ≤ day
  pub weeks : d % 7 ≡ day % 7

clamp_fits : (fuel dim day : ℕ) → day ≤ dim → clamp_day fuel (pos dim) (pos day) ≡ pos day
unfolding clamp_day
clamp_fits zero dim day h = refl
clamp_fits (suc fuel) dim day h = ground arith

week_earlier : (day : ℕ) → 7 ≤ day → pos day -ℤ pos 7 ≡ pos (day - 7)
unfolding ◌-ℤ◌
week_earlier day h = ground arith

clamp_late :
    (fuel dim day : ℕ)
    → dim < day
    → 7 ≤ day
    → clamp_day (suc fuel) (pos dim) (pos day) ≡ clamp_day fuel (pos dim) (pos (day - 7))
unfolding clamp_day
clamp_late fuel dim day h k = rw (← week_earlier day k) (ground arith)

Clamped-here :
    (fuel dim day : ℕ) → 1 ≤ day → day ≤ dim → Clamped dim day (clamp_day fuel (pos dim) (pos day))
Clamped-here fuel dim day k fits =
    rw (clamp_fits fuel dim day fits)
      (record { d = day; is = refl; first = k; last = fits; earlier = omega arith; weeks = refl })

pub clamp_day-Clamped :
    (fuel dim day : ℕ)
    → 28 ≤ dim
    → 1 ≤ day
    → day ≤ dim + 7 * fuel
    → Clamped dim day (clamp_day fuel (pos dim) (pos day))
clamp_day-Clamped zero dim day h k room = Clamped-here zero dim day k (omega (arith, room))
clamp_day-Clamped (suc fuel) dim day h k room = elim (dec_le day dim) [
  | yes fits ↦ Clamped-here (suc fuel) dim day k fits
  | no late ↦
      let c = clamp_day-Clamped fuel dim (day - 7) h (omega (arith, late)) (omega arith) in
      rw (clamp_late fuel dim day (omega (arith, late)) (omega (arith, late))) (record {
        d = c.d;
        is = c.is;
        first = c.first;
        last = c.last;
        earlier = omega (arith, c.earlier);
        weeks = omega (arith, c.weeks, late);
      })
]
