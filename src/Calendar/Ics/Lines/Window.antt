-- ===== src/Calendar/Ics/Lines/Window.antt =====
-- What holds of the events after every byte of a feed.
use x4_printer.Prelude.{
  ℕ, ◌≤◌, ◌≡◌, inl, inr, Bool, true, false, leb, List, [], ◌∷◌, ◌++◌, length, length-append, All,
  All-append, if_cases, arith, Bool-cases, Option, none, some,
}
use x4_printer.Prelude.Int.{ℤ}
use x4_printer.Prelude.Text.{Text}
use x4_printer.Calendar.Ics.Strings.{is_empty, cut_colon}
use x4_printer.Calendar.Ics.State.{
  Event, Vtz, DtParts, RawEvent, Setup, Output, Blocks, IcsParser, max_overrides, max_vtimezones,
}
use x4_printer.Calendar.Ics.Zones.{parse_date_time}
use x4_printer.Calendar.Ics.Emit.{in_window, occurrence, push_event, emit_occurrence}
use x4_printer.Calendar.Ics.Expand.{series_of, expand_recurrence}
use x4_printer.Calendar.Ics.Expand.Loops.{expand_series-keeps}
use x4_printer.Calendar.Ics.Expand.Occurrences.{Emits, skipped, pushed, emit_occurrence-Emits}
use x4_printer.Calendar.Ics.Events.{
  is_cancelled, duration_of, with_uid, keep_override, base_event, finish_event, started, end_event,
}
use x4_printer.Calendar.Ics.Lines.{
  begin_block, end_vtz, end_block, handle_prop, handle_split, process_logical_line, process_pending,
  handle_physical_line, feed_byte, feed, erase_base, apply_override, apply_overrides, flush, finish,
  add_byte,
}

-- The event overlaps the window and is not cancelled.
abbrev pub IsShown : Setup → Event → Type 0
IsShown s e = (in_window s e.start e.end ≡ true) × (is_cancelled e.status ≡ false)

-- All events are shown, and they are no more than the parser may keep.
pub record IsWithin (s : Setup) (o : Output) : Type 0 where
  pub shown : All (IsShown s) o.events
  pub few : length o.events ≤ s.max_events

module _ (s : Setup) where
  emit_occurrence-IsWithin :
      (raw : RawEvent) (start duration : ℤ) (all_day : Bool) (o : Output)
      → is_cancelled raw.status ≡ false
      → IsWithin s o
      → IsWithin s (emit_occurrence s raw start duration all_day o)
  emit_occurrence-IsWithin raw start duration all_day o active w =
      by_case (emit_occurrence-Emits s raw start duration all_day o)
    where
      by_case : {o' : Output} → Emits s raw start duration all_day o o' → IsWithin s o'
      by_case (skipped same) = record { shown = rw same w.shown; few = rw same w.few }
      by_case (pushed at_end kept in_it room) = record {
        shown = rw at_end (All-append (IsShown s) o.events _ w.shown ((in_it, active), tt));
        few =
            rw at_end (
              omega (arith, length-append o.events (occurrence s raw start duration all_day ∷ [])));
      }

  base_event-IsWithin :
      (zones : List Vtz) (raw : RawEvent) (dt_start : ℤ) (p : DtParts) (duration : ℤ)
      (all_day : Bool) (o : Output)
      → IsWithin s o
      → IsWithin s (base_event s zones raw dt_start p duration all_day o)
  unfolding base_event expand_recurrence
  base_event-IsWithin zones raw dt_start p duration all_day o w =
      elim (Bool-cases (is_cancelled raw.status)) [
        | inl gone ↦ rw gone w
        | inr active ↦ rw active (elim (Bool-cases (is_empty raw.rrule)) [
          | inl once ↦ rw once (emit_occurrence-IsWithin raw dt_start duration all_day o active w)
          | inr series ↦ rw series (
              expand_series-keeps (series_of s zones raw dt_start p duration all_day) (IsWithin s)
                (λ occ o' w'. emit_occurrence-IsWithin raw occ duration all_day o' active w') _ o w)
        ])
      ]

few_more :
    (xs : List Event) (x : Event) (n : ℕ) → leb n (length xs) ≡ false → length (xs ++ (x ∷ [])) ≤ n
few_more xs x n h = rw (length-append xs (x ∷ [])) (ground (arith, h))

-- The events are shown, and the lists are bounded.
abbrev pub IsSound : Setup → Blocks → Type 0
IsSound s b =
    IsWithin s b.output
    × (length b.overrides ≤ max_overrides)
    × (length b.vtimezones ≤ max_vtimezones)

module _ (s : Setup) where
  IsWithin-truncated : (o : Output) → IsWithin s o → IsWithin s (record o { truncated = true })
  IsWithin-truncated o w = record { shown = w.shown; few = w.few }

  keep_override-IsSound :
      (raw : RawEvent) (dt_start duration : ℤ) (is_date : Bool) (b : Blocks)
      → IsSound s b
      → IsSound s (keep_override s raw dt_start duration is_date b)
  unfolding keep_override
  keep_override-IsSound raw dt_start duration is_date b w =
      grind (arith, IsWithin-truncated b.output w.0, length-append)

  finish_event-IsSound :
      (dt_start : ℤ) (p : DtParts) (b : Blocks)
      → IsSound s b
      → IsSound s (finish_event s dt_start p b)
  unfolding finish_event
  finish_event-IsSound dt_start p b w =
      let raw : RawEvent = with_uid b.raw dt_start in
      let duration : ℤ = duration_of s b.vtimezones b.raw dt_start p.is_date in
      ground (
        arith,
        keep_override-IsSound raw dt_start duration p.is_date (record b { raw = raw }) w,
        base_event-IsWithin s b.vtimezones raw dt_start p duration p.is_date b.output w.0,
      )

  started-IsSound :
      (o : Option (ℤ × DtParts)) (b : Blocks) → IsSound s b → IsSound s (started s o b)
  unfolding started
  started-IsSound none b w = w
  started-IsSound (some (t, p)) b w = ground (arith, finish_event-IsSound t p b w)

  end_event-IsSound : (b : Blocks) → IsSound s b → IsSound s (end_event s b)
  unfolding end_event
  end_event-IsSound b w = ground (
    arith,
    started-IsSound (parse_date_time s b.vtimezones b.raw.dt_start b.raw.dt_start_params) b w,
  )

  begin_block-IsSound : (value : Text) (b : Blocks) → IsSound s b → IsSound s (begin_block value b)
  unfolding begin_block
  begin_block-IsSound value b w = ground arith

  end_vtz-IsSound : (b : Blocks) → IsSound s b → IsSound s (end_vtz b)
  unfolding end_vtz
  end_vtz-IsSound b w = grind (arith, length-append)

  end_block-IsSound : (value : Text) (b : Blocks) → IsSound s b → IsSound s (end_block s value b)
  unfolding end_block
  end_block-IsSound value b w = ground (arith, end_event-IsSound b w, end_vtz-IsSound b w)

  handle_prop-IsSound :
      (name params value : Text) (b : Blocks)
      → IsSound s b
      → IsSound s (handle_prop s name params value b)
  unfolding handle_prop
  handle_prop-IsSound name params value b w =
      ground (arith, begin_block-IsSound value b w, end_block-IsSound value b w)

  handle_split-IsSound :
      (o : Option (Text × Text)) (b : Blocks) → IsSound s b → IsSound s (handle_split s o b)
  unfolding handle_split
  handle_split-IsSound none b w = w
  handle_split-IsSound (some (head, value)) b w = handle_prop-IsSound _ _ _ b w

  process_pending-IsSound : (p : IcsParser) → IsSound s p.blocks → IsSound s (process_pending s p)
  unfolding process_pending process_logical_line
  process_pending-IsSound p w =
      if_cases (IsSound s) p.lines.have_pending (process_logical_line s p.lines.logical p.blocks)
        p.blocks (λ _. handle_split-IsSound (cut_colon false p.lines.logical) p.blocks w) (λ _. w)

  handle_physical_line-IsSound :
      (p : IcsParser) → IsSound s p.blocks → IsSound s (handle_physical_line s p).blocks
  unfolding handle_physical_line
  handle_physical_line-IsSound p w = ground (arith, process_pending-IsSound p w)

  feed_byte-IsSound :
      (p : IcsParser) (c : ℕ) → IsSound s p.blocks → IsSound s (feed_byte s p c).blocks
  unfolding feed_byte add_byte
  feed_byte-IsSound p c w = ground (arith, handle_physical_line-IsSound p w)

  feed-IsSound :
      (p : IcsParser) (bytes : List ℕ) → IsSound s p.blocks → IsSound s (feed s p bytes).blocks
  unfolding feed
  feed-IsSound p [] w = w
  feed-IsSound p (c ∷ bytes) w = feed-IsSound (feed_byte s p c) bytes (feed_byte-IsSound p c w)

  All-erase_base :
      (ov : Event) (es : List Event) → All (IsShown s) es → All (IsShown s) (erase_base ov es)
  unfolding erase_base
  All-erase_base ov [] h = h
  All-erase_base ov (e ∷ es) h = ground (arith, All-erase_base ov es h.1)

  length-erase_base : (ov : Event) (es : List Event) → length (erase_base ov es) ≤ length es
  unfolding erase_base
  length-erase_base ov [] = omega arith
  length-erase_base ov (e ∷ es) = ground (arith, length-erase_base ov es)

  push_event-IsWithin :
      (e : Event) (o : Output) → IsShown s e → IsWithin s o → IsWithin s (push_event s e o)
  unfolding push_event
  push_event-IsWithin e o h w = elim (Bool-cases (leb s.max_events (length o.events))) [
    | inl full ↦ rw full (IsWithin-truncated o w)
    | inr room ↦ rw room (record {
      shown = All-append (IsShown s) o.events (e ∷ []) w.shown (h, tt);
      few = few_more o.events e s.max_events room;
    })
  ]

  apply_override-IsWithin :
      (ov : Event) (o : Output) → IsWithin s o → IsWithin s (apply_override s ov o)
  unfolding apply_override
  apply_override-IsWithin ov o w = elim (Bool-cases (is_cancelled ov.status)) [
    | inl gone ↦ rw gone erased
    | inr active ↦ rw active (elim (Bool-cases (in_window s ov.start ov.end)) [
      | inl shown ↦ rw shown (push_event-IsWithin ov _ (shown, active) erased)
      | inr out ↦ rw out erased
    ])
  ]
    where
      erased : IsWithin s (record o { events = erase_base ov o.events })
      erased = record {
        shown = All-erase_base ov o.events w.shown;
        few = omega (arith, length-erase_base ov o.events, w.few);
      }

  apply_overrides-IsWithin :
      (ovs : List Event) (o : Output) → IsWithin s o → IsWithin s (apply_overrides s ovs o)
  unfolding apply_overrides
  apply_overrides-IsWithin [] o w = w
  apply_overrides-IsWithin (ov ∷ ovs) o w =
      apply_overrides-IsWithin ovs (apply_override s ov o) (apply_override-IsWithin ov o w)

  flush-IsSound : (p : IcsParser) → IsSound s p.blocks → IsSound s (flush s p).blocks
  unfolding flush
  flush-IsSound p w =
      process_pending-IsSound (handle_physical_line s p) (handle_physical_line-IsSound p w)

-- From a state whose events all overlap the window, none of them cancelled, and whose lists are within
-- their bounds, any bytes fed to the parser and then `finish` give such a state again: all events
-- overlap the window and none is cancelled, there are at most `maxEvents_` of them, and at most 12 time
-- zones.
pub finish-IsSound :
    (s : Setup) (p : IcsParser) (bytes : List ℕ)
    → IsSound s p.blocks
    → IsSound s (finish s (feed s p bytes)).blocks
unfolding finish
finish-IsSound s p bytes w =
    let f = flush-IsSound s (feed s p bytes) (feed-IsSound s p bytes w) in
    (apply_overrides-IsWithin s _ _ f.0, omega arith, f.2)
