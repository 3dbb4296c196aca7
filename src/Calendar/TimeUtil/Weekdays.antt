-- ===== src/Calendar/TimeUtil/Weekdays.antt =====
-- Weekdays, and the transition days of a time zone.
use x4_printer.Calendar.TimeUtil.Clamp.{clamp_day-Clamped}
use x4_printer.Prelude.{ℕ, zero, suc, ◌+◌, ◌-◌, ◌*◌, ◌%◌, ◌^◌, ◌≤◌, ◌<◌, ◌≡◌, refl, ap, ◌∙◌, arith}
use x4_printer.Prelude.Int.{
  ℤ, pos, negsuc, pos_part, ◌+ℤ◌, ◌-ℤ◌, rem, ◌≤ℤ◌, ◌<ℤ◌, int_laws, to_unsigned,
}
use x4_printer.Calendar.TimeUtil.{
  days_from_civil, weekday_of_day_num, table_at, days_in_month, clamp_day, transition_day_num,
  nth_weekday, last_weekday,
}

-- The months of the year have 28 to 31 days, whatever memory holds behind the table.
month_length :
    (past : ℤ → ℤ) (y : ℤ) (m : ℕ)
    → 1 ≤ m
    → m ≤ 12
    → (dim : ℕ) × (days_in_month past y (pos m) ≡ pos dim) × (28 ≤ dim) × (dim ≤ 31)
unfolding days_in_month table_at
month_length past y m h k =
    (pos_part (days_in_month past y (pos m)), ground arith, ground arith, ground arith)

pub weekday_range : (n : ℤ) → (f : ℕ) × (weekday_of_day_num n ≡ pos f) × (f < 7)
unfolding weekday_of_day_num rem ◌+ℤ◌
weekday_range (pos n) = (pos_part (weekday_of_day_num (pos n)), ground arith, ground arith)
weekday_range (negsuc n) = (pos_part (weekday_of_day_num (negsuc n)), ground arith, ground arith)

-- `k` days later.
pub weekday_add :
    (n : ℤ) (f k : ℕ)
    → weekday_of_day_num n ≡ pos f
    → weekday_of_day_num (n +ℤ pos k) ≡ pos ((f + k) % 7)
unfolding weekday_of_day_num rem ◌+ℤ◌
weekday_add (pos n) f k h = ground arith
weekday_add (negsuc n) f k h = ground arith

-- What a transition day is: the day `d + 1` of the month, on the wanted weekday.
pub record Transition (past : ℤ → ℤ) (y m : ℤ) (wday : ℕ) (day : ℤ) : Type 0 where
  pub d : ℕ
  pub in_month : pos (d + 1) ≤ℤ days_in_month past y m
  pub is : day ≡ days_from_civil y m (pos 1) +ℤ pos d
  pub on_weekday : weekday_of_day_num day ≡ pos wday

pub nth_weekday_lem :
    (f w v : ℕ)
    → f < 7
    → v < 7
    → nth_weekday (pos f) (pos (suc w)) (pos v) ≡ pos (1 + (v + 7 - f) % 7 + w * 7)
unfolding nth_weekday
nth_weekday_lem f w v h k = ground arith

last_weekday_lem :
    (f dim v : ℕ)
    → f < 7
    → v < 7
    → 28 ≤ dim
    → last_weekday (pos f) (pos dim) (pos v) ≡ pos (dim - ((f + dim - 1) % 7 + 7 - v) % 7)
unfolding last_weekday
last_weekday_lem f dim v h k room = ground arith

-- A day of the month that falls on the weekday is a transition day.
Transition-of :
    (past : ℤ → ℤ) (y : ℤ) (m : ℤ) (f dim v d : ℕ)
    → weekday_of_day_num (days_from_civil y m (pos 1)) ≡ pos f
    → days_in_month past y m ≡ pos dim
    → 1 ≤ d
    → d ≤ dim
    → (f + (d - 1)) % 7 ≡ v
    → Transition past y m v (days_from_civil y m (pos 1) +ℤ pos d -ℤ pos 1)
Transition-of past y m f dim v d hf hd one inside at = rw shifted (record {
  d = d - 1;
  in_month = rw hd (omega arith);
  is = refl;
  on_weekday = weekday_add (days_from_civil y m (pos 1)) f (d - 1) hf ∙ ap pos at;
})
  where
    shifted :
        days_from_civil y m (pos 1) +ℤ pos d -ℤ pos 1 ≡ days_from_civil y m (pos 1) +ℤ pos (d - 1)
    shifted = omega int_laws

to_unsigned_small : (n : ℕ) → n < 2 ^ 32 → to_unsigned (pos n) ≡ n
unfolding to_unsigned
to_unsigned_small n h = omega arith

module _ (past : ℤ → ℤ) (y m : ℤ) (f dim v : ℕ)
    (hf : weekday_of_day_num (days_from_civil y m (pos 1)) ≡ pos f)
    (hd : days_in_month past y m ≡ pos dim) (f_small : f < 7) (v_small : v < 7)
    (long : 28 ≤ dim) where
  first_day : ℤ
  first_day = days_from_civil y m (pos 1)

  nth_day : ℕ → ℕ
  nth_day w = 1 + (v + 7 - f) % 7 + w * 7

  opened_nth :
      (w : ℕ)
      → suc w < 2 ^ 32
      → transition_day_num past y m (pos (suc w)) (pos v)
        ≡ first_day +ℤ clamp_day (suc w) (pos dim) (pos (nth_day w)) -ℤ pos 1
  unfolding transition_day_num first_day nth_day
  opened_nth w small =
      rw (hf, hd, nth_weekday_lem f w v f_small v_small, to_unsigned_small (suc w) small)
        (ground arith)

  opened_last :
      (week : ℤ)
      → week ≤ℤ pos 0
      → transition_day_num past y m week (pos v)
        ≡ first_day +ℤ pos (dim - ((f + dim - 1) % 7 + 7 - v) % 7) -ℤ pos 1
  unfolding transition_day_num first_day
  opened_last week neg =
      rw (hf, hd, last_weekday_lem f dim v f_small v_small long) (ground (arith, neg))

  nth_day-Transition :
      (w : ℕ)
      → suc w < 2 ^ 32
      → Transition past y m v (transition_day_num past y m (pos (suc w)) (pos v))
  unfolding nth_day first_day
  nth_day-Transition w small =
      let c = clamp_day-Clamped (suc w) dim (nth_day w) long (omega arith) (omega arith) in
      rw (opened_nth w small) (
        rw c.is (
          Transition-of past y m f dim v c.d hf hd c.first c.last
            (omega (arith, c.weeks, c.first))))

  last_day-Transition :
      (week : ℤ) → week ≤ℤ pos 0 → Transition past y m v (transition_day_num past y m week (pos v))
  unfolding first_day
  last_day-Transition week neg = rw (opened_last week neg) (
      Transition-of past y m f dim v (dim - ((f + dim - 1) % 7 + 7 - v) % 7) hf hd (omega arith)
        (omega arith) (omega arith))

-- In a month from 1 to 12, for a weekday from Monday to Sunday and any 32-bit `week`, the transition day
-- of a time zone lies in the month and falls on that weekday.
pub transition_day_num-Transition :
    (past : ℤ → ℤ) (y week : ℤ) (m v : ℕ)
    → 1 ≤ m
    → m ≤ 12
    → v < 7
    → week <ℤ pos (2 ^ 31)
    → Transition past y (pos m) v (transition_day_num past y (pos m) week (pos v))
transition_day_num-Transition past y week m v h k hv small =
    let (f, hf, f_small) = weekday_range (days_from_civil y (pos m) (pos 1)) in
    let (dim, hd, long, short) = month_length past y m h k in
    by_week week small f dim hf hd f_small long
  where
    by_week :
        (week : ℤ)
        → week <ℤ pos (2 ^ 31)
        → (f dim : ℕ) → weekday_of_day_num (days_from_civil y (pos m) (pos 1)) ≡ pos f
        → days_in_month past y (pos m) ≡ pos dim
        → f < 7
        → 28 ≤ dim
        → Transition past y (pos m) v (transition_day_num past y (pos m) week (pos v))
    by_week (pos zero) small f dim hf hd f_small long =
        last_day-Transition past y (pos m) f dim v hf hd f_small hv long (pos 0) (omega arith)
    by_week (pos (suc w)) small f dim hf hd f_small long =
        nth_day-Transition past y (pos m) f dim v hf hd f_small hv long w (omega (arith, small))
    by_week (negsuc n) small f dim hf hd f_small long =
        last_day-Transition past y (pos m) f dim v hf hd f_small hv long (negsuc n) (omega arith)
