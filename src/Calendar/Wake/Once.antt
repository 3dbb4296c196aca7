-- ===== src/Calendar/Wake/Once.antt =====
-- A reminder is shown at most once, over any sequence of wake-ups for one event.
use x4_printer.Prelude.{
  ℕ, suc, ◌≤◌, ◌≡◌, ◌≢◌, ◌∙◌, sym, refl, Bool, true, false, List, [], ◌∷◌, if◌then◌else◌, arith,
  Bool-cases, inl, inr,
}
use x4_printer.Prelude.Int.{ℤ, ◌≤ℤ◌, eq_ℤ_iff}
use x4_printer.Calendar.Wake.{
  Settings, NextEventInfo, WakeAlertKind, before_start, at_end, try_target, try_start, try_end,
  start_target, compute_wake_decision,
}
use x4_printer.Calendar.Wake.Sleep.{Which, of_start, of_end, target, mark, try_target-Tried}

-- The reminders of the wake-ups at the given times and base intervals, in order; each wake-up is given
-- the event with the marks that the one before it saved.
unfoldable pub wake_alerts : Settings → NextEventInfo → List (ℤ × ℕ) → List WakeAlertKind
wake_alerts settings event [] = []
wake_alerts settings event ((now, base) ∷ wakes) =
    let (decision, event') = compute_wake_decision settings event now base in
    decision.alert ∷ wake_alerts settings event' wakes

abbrev pub shows : Which → WakeAlertKind → Bool
shows of_start before_start = true
shows of_end at_end = true
shows _ _ = false

abbrev pub count_shown : Which → List WakeAlertKind → ℕ
count_shown w [] = 0
count_shown w (a ∷ as') = if shows w a then suc (count_shown w as') else count_shown w as'

try_marked :
    (wanted : Bool) (t m now : ℤ) (sleep : ℕ)
    → m ≡ t
    → try_target wanted t m now sleep ≡ (false, m, sleep)
unfolding try_target
try_marked wanted t m now sleep e = ground (arith, eq_ℤ_iff m t)

module _ (settings : Settings) (event : NextEventInfo) (now : ℤ) (base : ℕ) where
  target-after :
      (w : Which)
      → target w settings (compute_wake_decision settings event now base).1
        ≡ target w settings event
  unfolding compute_wake_decision
  target-after of_start = ground arith
  target-after of_end = ground arith

  -- A marked target fires no more and stays marked.
  marked_silent :
      (w : Which)
      → mark w event ≡ target w settings event
      → (shows w (compute_wake_decision settings event now base).0.alert ≡ false)
        × (mark w (compute_wake_decision settings event now base).1 ≡ target w settings event)
  unfolding compute_wake_decision
  marked_silent of_start m = ground (
    arith,
    try_marked settings.wake_before_start (start_target settings event) event.alerted_for_start now
        base m,
  )
  marked_silent of_end m = ground (
    arith,
    try_marked settings.wake_at_end event.end event.alerted_for_end now
        (try_start settings event now base).2 m,
  )

  shown_marks :
      (w : Which)
      → shows w (compute_wake_decision settings event now base).0.alert ≡ true
      → mark w (compute_wake_decision settings event now base).1 ≡ target w settings event
  unfolding compute_wake_decision
  shown_marks of_start h = ground (
    arith,
    (try_target-Tried settings.wake_before_start (start_target settings event)
        event.alerted_for_start now base).marks,
  )
  shown_marks of_end h = ground (
    arith,
    (try_target-Tried settings.wake_at_end event.end event.alerted_for_end now
        (try_start settings event now base).2).marks,
  )

marked_count :
    (w : Which) (settings : Settings) (event : NextEventInfo) (wakes : List (ℤ × ℕ))
    → mark w event ≡ target w settings event
    → count_shown w (wake_alerts settings event wakes) ≡ 0
unfolding wake_alerts
marked_count w settings event [] m = refl
marked_count w settings event ((now, base) ∷ wakes) m =
    let (silent, still) = marked_silent settings event now base w m in
    rw silent (
      marked_count w settings (compute_wake_decision settings event now base).1 wakes
        (still ∙ sym (target-after settings event now base w)))

-- Over any sequence of wake-ups with one event and one setting, the reminder before the start is
-- shown at most once, and so is the one at the end.
pub shown_once :
    (w : Which) (settings : Settings) (event : NextEventInfo) (wakes : List (ℤ × ℕ))
    → count_shown w (wake_alerts settings event wakes) ≤ 1
unfolding wake_alerts
shown_once w settings event [] = omega arith
shown_once w settings event ((now, base) ∷ wakes) =
    elim (Bool-cases (shows w (compute_wake_decision settings event now base).0.alert)) [
      | inl shown ↦ rw shown (
          omega (
            arith,
            marked_count w settings (compute_wake_decision settings event now base).1 wakes (
                shown_marks settings event now base w shown
                ∙ sym (target-after settings event now base w)),
          ))
      | inr silent ↦
          rw silent (shown_once w settings (compute_wake_decision settings event now base).1 wakes)
    ]

both_due :
    (settings : Settings) (event : NextEventInfo) (now : ℤ) (base : ℕ)
    → event.has_event ≡ true
    → (try_start settings event now base).0 ≡ true
    → (try_end settings event now (try_start settings event now base).2).0 ≡ true
    → ((compute_wake_decision settings event now base).0.alert ≡ before_start)
      × (mark of_end (compute_wake_decision settings event now base).1
          ≡ target of_end settings (compute_wake_decision settings event now base).1)
unfolding compute_wake_decision
both_due settings event now base has fired_start fired_end = ground (
  arith,
  (try_target-Tried settings.wake_at_end event.end event.alerted_for_end now
      (try_start settings event now base).2).marks,
)

-- Where both targets are wanted, unmarked and due at one wake-up, whatever the lead time and the
-- length of the event, the reminder before the start is shown, and the one at the end never is.
pub end_reminder_lost :
    (settings : Settings) (event : NextEventInfo) (now : ℤ) (base : ℕ) (wakes : List (ℤ × ℕ))
    → event.has_event ≡ true
    → settings.wake_before_start ≡ true
    → settings.wake_at_end ≡ true
    → event.alerted_for_start ≢ start_target settings event
    → event.alerted_for_end ≢ event.end
    → start_target settings event ≤ℤ now
    → event.end ≤ℤ now
    → ((compute_wake_decision settings event now base).0.alert ≡ before_start)
      × (count_shown of_end (wake_alerts settings event ((now, base) ∷ wakes)) ≡ 0)
unfolding wake_alerts
end_reminder_lost settings event now base wakes has on_start on_end fresh_start fresh_end due_start
      due_end =
    let (kind, marked) =
      both_due settings event now base has
        ((try_target-Tried _ _ _ _ _).fires.1 (on_start, fresh_start, due_start))
        ((try_target-Tried _ _ _ _ _).fires.1 (on_end, fresh_end, due_end)) in
    (kind, rw kind (marked_count of_end settings _ wakes marked))
