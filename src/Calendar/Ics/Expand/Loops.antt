-- ===== src/Calendar/Ics/Expand/Loops.antt =====
-- The loops of `expandRecurrence`: what each round keeps, they keep.
use x4_printer.Prelude.{
  ℕ, zero, suc, ◌+◌, ◌*◌, ◌≡◌, refl, sym, ap, ◌∙◌, arith, Bool, true, false, leb, Option, none,
  some, if◌then◌else◌, Bool-cases, inl, inr,
}
use x4_printer.Prelude.Int.{ℤ, pos, ◌+ℤ◌, eq_ℤ}
use x4_printer.Calendar.Ics.Rules.{Freq, daily, weekly, monthly, yearly}
use x4_printer.Calendar.Ics.State.{
  Output, max_day_iterations, max_month_iterations, max_year_iterations,
}
use x4_printer.Calendar.Ics.Emit.{emit_occurrence}
use x4_printer.Calendar.Ics.Expand.{
  Series, Loop, round, is_over, day_zero, occurrence_at, day_due, fast_forward, go_on, day_step,
  day_loop, month_occurrence, year_occurrence, occurs_step, period_loop, run_series, emit_if_due,
  past_until, expand_series,
}

-- Every date that a series of this frequency visits is one of `D`.
abbrev pub Dates : Series → (ℤ → Type 0) → Freq → Type 0
Dates e D daily =
    (n : ℕ) → day_due e.rule.freq e n ≡ true → D (occurrence_at e (day_zero e +ℤ pos n))
Dates e D weekly =
    (n : ℕ) → day_due e.rule.freq e n ≡ true → D (occurrence_at e (day_zero e +ℤ pos n))
Dates e D monthly = (k : ℕ) (occ : ℤ) → month_occurrence e (k * e.rule.interval) ≡ some occ → D occ
Dates e D yearly = (k : ℕ) (occ : ℤ) → year_occurrence e (k * e.rule.interval) ≡ some occ → D occ

module _ {ℓ} (e : Series) (D : ℤ → Type 0) (P : Loop → Type ℓ)
    (keeps : (due : Bool) (occ : ℤ) (l : Loop)
      → (due ≡ true → D occ)
      → P l
      → P (round e due occ l).1) where
  either_keeps :
      (b : Bool) (l : Loop) (r : Bool × Loop) → P l → P r.1 → P (if b then (false, l) else r).1
  either_keeps true l r h k = h
  either_keeps false l r h k = k

  go_on-keeps :
      (r : Bool × Loop) (k : Loop → Loop) → P r.1 → ((l : Loop) → P l → P (k l)) → P (go_on r k)
  go_on-keeps (true, l) k h next = next l h
  go_on-keeps (false, l) k h next = h

  day_loop-keeps :
      ((n : ℕ) → day_due e.rule.freq e n ≡ true → D (occurrence_at e (day_zero e +ℤ pos n)))
      → (left n : ℕ) (l : Loop) → P l
      → P (day_loop e left n l)
  unfolding day_loop day_step
  day_loop-keeps dates zero n l h = h
  day_loop-keeps dates (suc left) n l h =
      let occ : ℤ = occurrence_at e (day_zero e +ℤ pos n) in
      go_on-keeps (day_step e n l) (day_loop e left (n + 1))
        (either_keeps (is_over e occ) l _ h (keeps (day_due e.rule.freq e n) occ l (dates n) h))
        (day_loop-keeps dates left (n + 1))

  occurs_step-keeps :
      (o : Option ℤ) (l : Loop) → ((occ : ℤ) → o ≡ some occ → D occ) → P l → P (occurs_step e o l).1
  unfolding occurs_step
  occurs_step-keeps none l date h = h
  occurs_step-keeps (some occ) l date h =
      either_keeps (is_over e occ) l _ h (keeps true occ l (λ due. date occ refl) h)

  period_loop-keeps :
      (occurs : ℕ → Option ℤ)
      → ((k : ℕ) (occ : ℤ) → occurs (k * e.rule.interval) ≡ some occ → D occ)
      → (limit fuel m k : ℕ) (l : Loop) → m ≡ k * e.rule.interval
      → P l
      → P (period_loop e occurs limit fuel m l)
  unfolding period_loop
  period_loop-keeps occurs dates limit zero m k l at h = h
  period_loop-keeps occurs dates limit (suc fuel) m k l at h =
      go_on-keeps _ (period_loop e occurs limit fuel (m + e.rule.interval))
        (either_keeps (leb limit m) l _ h (
          occurs_step-keeps (occurs m) l (λ occ found. dates k occ (ap occurs (sym at) ∙ found)) h))
        (λ l' h'.
          period_loop-keeps occurs dates limit fuel (m + e.rule.interval) (suc k) l'
            (grind (arith, at)) h')

  pub run_series-keeps : (f : Freq) (l : Loop) → Dates e D f → P l → P (run_series f e l)
  unfolding run_series
  run_series-keeps daily l dates h = day_loop-keeps dates max_day_iterations (fast_forward e) l h
  run_series-keeps weekly l dates h = day_loop-keeps dates max_day_iterations (fast_forward e) l h
  run_series-keeps monthly l dates h =
      period_loop-keeps (month_occurrence e) dates max_month_iterations max_month_iterations 0 0 l
        (omega arith) h
  run_series-keeps yearly l dates h =
      period_loop-keeps (year_occurrence e) dates max_year_iterations max_year_iterations 0 0 l
        (omega arith) h

any_date : (e : Series) (f : Freq) → Dates e (λ occ. Unit) f
any_date e daily = λ n due. tt
any_date e weekly = λ n due. tt
any_date e monthly = λ k occ found. tt
any_date e yearly = λ k occ found. tt

module _ {ℓ} (e : Series) (Q : Output → Type ℓ)
    (emits : (occ : ℤ) (o : Output)
      → Q o
      → Q (emit_occurrence e.setup e.raw occ e.duration e.all_day o)) where
  emit_if_due-keeps : (occ : ℤ) (l : Loop) → Q l.output → Q (emit_if_due e occ l).1.output
  unfolding emit_if_due
  emit_if_due-keeps occ l h = elim (Bool-cases (eq_ℤ l.remaining (pos 0))) [
    | inl none_left ↦ rw none_left h
    | inr left ↦ rw left (elim (Bool-cases (past_until e occ)) [
      | inl late ↦ rw late h
      | inr early ↦ rw early (emits occ l.output h)
    ])
  ]

  round-keeps : (due : Bool) (occ : ℤ) (l : Loop) → Q l.output → Q (round e due occ l).1.output
  unfolding round
  round-keeps true occ l h = emit_if_due-keeps occ l h
  round-keeps false occ l h = h

  pub expand_series-keeps : (valid : Bool) (o : Output) → Q o → Q (expand_series valid e o)
  unfolding expand_series
  expand_series-keeps true o h =
      run_series-keeps e (λ occ. Unit) (λ k. Q k.output)
        (λ due occ l date h. round-keeps due occ l h) e.rule.freq _ (any_date e e.rule.freq) h
  expand_series-keeps false o h = emits e.dt_start o h
