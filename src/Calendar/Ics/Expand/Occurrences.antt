-- ===== src/Calendar/Ics/Expand/Occurrences.antt =====
-- What `expandRecurrence` adds to the events.
use x4_printer.Prelude.{
  ◌+◌, ◌≤◌, ◌<◌, ◌≡◌, refl, inl, inr, Bool, true, false, leb, List, [], ◌∷◌, ◌++◌, length, All,
  arith, Bool-cases,
}
use x4_printer.Prelude.Int.{ℤ, pos_part, neg_part, ◌+ℤ◌}
use x4_printer.Calendar.Ics.State.{Event, RawEvent, Setup, Output}
use x4_printer.Calendar.Ics.Emit.{any_equal, in_window, occurrence, push_event, emit_occurrence}
use x4_printer.Calendar.Ics.Expand.{Series, Loop, past_until}
use x4_printer.Calendar.Ics.Expand.Dates.{IsDate}

-- An event that the series may give: an occurrence of it on a date of its rule, in the window, not
-- excluded, not after UNTIL.
pub record IsOccurrence (e : Series) (ev : Event) : Type 0 where
  pub of_series : ev ≡ occurrence e.setup e.raw ev.start e.duration e.all_day
  pub on_date : IsDate e e.rule.freq ev.start
  pub kept : any_equal ev.start e.raw.exdates ≡ false
  pub shown : in_window e.setup ev.start ev.end ≡ true
  pub in_time : past_until e ev.start ≡ false

-- An emitted event is pushed, and only if it is not excluded and lies in the window.
pub data Emits (s : Setup) (raw : RawEvent) (start duration : ℤ) (all_day : Bool) (o o' : Output)
    : Type 0 where
  skipped : o'.events ≡ o.events → Emits s raw start duration all_day o o'
  pushed :
      o'.events ≡ o.events ++ (occurrence s raw start duration all_day ∷ [])
      → any_equal start raw.exdates ≡ false
      → in_window s start (start +ℤ duration) ≡ true
      → length o.events < s.max_events
      → Emits s raw start duration all_day o o'

pub emit_occurrence-Emits :
    (s : Setup) (raw : RawEvent) (start duration : ℤ) (all_day : Bool) (o : Output)
    → Emits s raw start duration all_day o (emit_occurrence s raw start duration all_day o)
unfolding emit_occurrence push_event
emit_occurrence-Emits s raw start duration all_day o =
    elim (Bool-cases (any_equal start raw.exdates)) [
      | inl e ↦ rw e (skipped refl)
      | inr kept ↦ rw kept (elim (Bool-cases (in_window s start (start +ℤ duration))) [
        | inr out ↦ rw out (skipped refl)
        | inl shown ↦ rw shown (elim (Bool-cases (leb s.max_events (length o.events))) [
          | inl full ↦ rw full (skipped refl)
          | inr room ↦ rw room (pushed refl kept shown (ground (arith, room)))
        ])
      ])
    ]

-- The events are those of `before`, then new occurrences, at most as many as COUNT allows.
record Adds (e : Series) (before : List Event) (l : Loop) : Type 0 where
  new : List Event
  grown : l.output.events ≡ before ++ new
  occurrences : All (IsOccurrence e) new
  counted :
      neg_part e.rule.count ≡ 0
      → (neg_part l.remaining ≡ 0) × (pos_part l.remaining + length new ≤ pos_part e.rule.count)
