-- ===== src/Calendar/Ics/Lines/Keeps.antt =====
-- An event of the list stays in it, whatever bytes are fed, until `finish` puts the overrides in place.
use x4_printer.Prelude.{
  ℕ, ◌≡◌, ◌⊎◌, refl, subst, Among, Among-append, inl, inr, Bool, true, false, leb, List, [], ◌∷◌,
  length, length-append, if_cases, arith, Bool-cases, Option, none, some,
}
use x4_printer.Prelude.Int.{ℤ}
use x4_printer.Prelude.Text.{Text}
use x4_printer.Calendar.Ics.Strings.{is_empty, cut_colon}
use x4_printer.Calendar.Ics.State.{Event, Vtz, DtParts, RawEvent, Setup, Output, Blocks, IcsParser}
use x4_printer.Calendar.Ics.Zones.{parse_date_time}
use x4_printer.Calendar.Ics.Emit.{push_event, emit_occurrence}
use x4_printer.Calendar.Ics.Expand.{series_of, expand_recurrence}
use x4_printer.Calendar.Ics.Expand.Loops.{expand_series-keeps}
use x4_printer.Calendar.Ics.Expand.Occurrences.{Emits, skipped, pushed, emit_occurrence-Emits}
use x4_printer.Calendar.Ics.Events.{
  is_cancelled, duration_of, with_uid, keep_override, base_event, finish_event, started, end_event,
}
use x4_printer.Calendar.Ics.Lines.{
  replaces, begin_block, end_vtz, end_block, handle_prop, handle_split, process_logical_line,
  process_pending, handle_physical_line, feed_byte, feed, erase_base, apply_override,
  apply_overrides, flush, finish, add_byte,
}

module _ (s : Setup) (event : Event) where
  abbrev Has : Output → Type 0
  Has o = Among event o.events

  abbrev pub Holds : Blocks → Type 0
  Holds b = Has b.output

  push_event-Has : (e : Event) (o : Output) → Has o → Has (push_event s e o)
  unfolding push_event
  push_event-Has e o h = elim (Bool-cases (leb s.max_events (length o.events))) [
    | inl full ↦ rw full h
    | inr room ↦ rw room (Among-append event o.events (e ∷ []) h)
  ]

  emit_occurrence-Has :
      (raw : RawEvent) (start duration : ℤ) (all_day : Bool) (o : Output)
      → Has o
      → Has (emit_occurrence s raw start duration all_day o)
  emit_occurrence-Has raw start duration all_day o h =
      by_case (emit_occurrence-Emits s raw start duration all_day o)
    where
      by_case : {o' : Output} → Emits s raw start duration all_day o o' → Has o'
      by_case (skipped same) = rw same h
      by_case (pushed at_end kept in_it room) = rw at_end (Among-append event o.events _ h)

  base_event-Has :
      (zones : List Vtz) (raw : RawEvent) (dt_start : ℤ) (p : DtParts) (duration : ℤ)
      (all_day : Bool) (o : Output)
      → Has o
      → Has (base_event s zones raw dt_start p duration all_day o)
  unfolding base_event expand_recurrence
  base_event-Has zones raw dt_start p duration all_day o h =
      elim (Bool-cases (is_cancelled raw.status)) [
        | inl gone ↦ rw gone h
        | inr active ↦ rw active (elim (Bool-cases (is_empty raw.rrule)) [
          | inl once ↦ rw once (emit_occurrence-Has raw dt_start duration all_day o h)
          | inr series ↦ rw series (
              expand_series-keeps (series_of s zones raw dt_start p duration all_day) Has
                (λ occ o' h'. emit_occurrence-Has raw occ duration all_day o' h') _ o h)
        ])
      ]

  keep_override-Holds :
      (raw : RawEvent) (dt_start duration : ℤ) (is_date : Bool) (b : Blocks)
      → Holds b
      → Holds (keep_override s raw dt_start duration is_date b)
  unfolding keep_override
  keep_override-Holds raw dt_start duration is_date b w = ground arith

  finish_event-Holds :
      (dt_start : ℤ) (p : DtParts) (b : Blocks) → Holds b → Holds (finish_event s dt_start p b)
  unfolding finish_event
  finish_event-Holds dt_start p b w =
      let raw : RawEvent = with_uid b.raw dt_start in
      let duration : ℤ = duration_of s b.vtimezones b.raw dt_start p.is_date in
      ground (
        arith,
        keep_override-Holds raw dt_start duration p.is_date (record b { raw = raw }) w,
        base_event-Has b.vtimezones raw dt_start p duration p.is_date b.output w,
      )

  started-Holds : (o : Option (ℤ × DtParts)) (b : Blocks) → Holds b → Holds (started s o b)
  unfolding started
  started-Holds none b w = w
  started-Holds (some (t, p)) b w = ground (arith, finish_event-Holds t p b w)

  end_event-Holds : (b : Blocks) → Holds b → Holds (end_event s b)
  unfolding end_event
  end_event-Holds b w = ground (
    arith,
    started-Holds (parse_date_time s b.vtimezones b.raw.dt_start b.raw.dt_start_params) b w,
  )

  begin_block-Holds : (value : Text) (b : Blocks) → Holds b → Holds (begin_block value b)
  unfolding begin_block
  begin_block-Holds value b w = ground arith

  end_vtz-Holds : (b : Blocks) → Holds b → Holds (end_vtz b)
  unfolding end_vtz
  end_vtz-Holds b w = grind (arith, length-append)

  end_block-Holds : (value : Text) (b : Blocks) → Holds b → Holds (end_block s value b)
  unfolding end_block
  end_block-Holds value b w = ground (arith, end_event-Holds b w, end_vtz-Holds b w)

  handle_prop-Holds :
      (name params value : Text) (b : Blocks) → Holds b → Holds (handle_prop s name params value b)
  unfolding handle_prop
  handle_prop-Holds name params value b w =
      ground (arith, begin_block-Holds value b w, end_block-Holds value b w)

  handle_split-Holds :
      (o : Option (Text × Text)) (b : Blocks) → Holds b → Holds (handle_split s o b)
  unfolding handle_split
  handle_split-Holds none b w = w
  handle_split-Holds (some (head, value)) b w = handle_prop-Holds _ _ _ b w

  process_pending-Holds : (p : IcsParser) → Holds p.blocks → Holds (process_pending s p)
  unfolding process_pending process_logical_line
  process_pending-Holds p w =
      if_cases (Holds) p.lines.have_pending (process_logical_line s p.lines.logical p.blocks)
        p.blocks (λ _. handle_split-Holds (cut_colon false p.lines.logical) p.blocks w) (λ _. w)

  handle_physical_line-Holds :
      (p : IcsParser) → Holds p.blocks → Holds (handle_physical_line s p).blocks
  unfolding handle_physical_line
  handle_physical_line-Holds p w = ground (arith, process_pending-Holds p w)

  feed_byte-Holds : (p : IcsParser) (c : ℕ) → Holds p.blocks → Holds (feed_byte s p c).blocks
  unfolding feed_byte add_byte
  feed_byte-Holds p c w = ground (arith, handle_physical_line-Holds p w)

  pub feed-Holds : (p : IcsParser) (bytes : List ℕ) → Holds p.blocks → Holds (feed s p bytes).blocks
  unfolding feed
  feed-Holds p [] w = w
  feed-Holds p (c ∷ bytes) w = feed-Holds (feed_byte s p c) bytes (feed_byte-Holds p c w)

  pub flush-Holds : (p : IcsParser) → Holds p.blocks → Holds (flush s p).blocks
  unfolding flush
  flush-Holds p w =
      process_pending-Holds (handle_physical_line s p) (handle_physical_line-Holds p w)

  Among-erase_base :
      (ov : Event) (es : List Event)
      → Among event es
      → Among event (erase_base ov es) ⊎ (replaces ov event ≡ true)
  unfolding erase_base
  Among-erase_base ov [] h = absurd h
  Among-erase_base ov (e ∷ es) h = elim (Bool-cases (replaces ov e)) [
    | inl hit ↦ elim h [
      | inl same ↦ rw hit (inr (subst (λ x. replaces ov x ≡ true) same hit))
      | inr there ↦ rw hit (inl there)
    ]
    | inr miss ↦ elim h [
      | inl same ↦ rw miss (inl (inl same))
      | inr there ↦ elim (Among-erase_base ov es there) [
        | inl stays ↦ rw miss (inl (inr stays))
        | inr gone ↦ rw miss (inr gone)
      ]
    ]
  ]

  -- The event stays unless an override replaces it.
  apply_override-Has :
      (ov : Event) (o : Output) → Has o → Has (apply_override s ov o) ⊎ (replaces ov event ≡ true)
  unfolding apply_override
  apply_override-Has ov o h = elim (Among-erase_base ov o.events h) [
    | inr gone ↦ inr gone
    | inl stays ↦ inl (
        ground
          (arith, stays, push_event-Has ov (record o { events = erase_base ov o.events }) stays))
  ]

  apply_overrides-Has :
      (ovs : List Event) (o : Output)
      → Has o
      → Has (apply_overrides s ovs o) ⊎ ((ov : Event) × Among ov ovs × (replaces ov event ≡ true))
  unfolding apply_overrides
  apply_overrides-Has [] o h = inl h
  apply_overrides-Has (ov ∷ ovs) o h = elim (apply_override-Has ov o h) [
    | inr gone ↦ inr (ov, inl refl, gone)
    | inl stays ↦ elim (apply_overrides-Has ovs (apply_override s ov o) stays) [
      | inl stays' ↦ inl stays'
      | inr (ov', among, gone) ↦ inr (ov', inr among, gone)
    ]
  ]

  -- After a feed the event is still there, or one of the feed's overrides replaces it.
  pub finish-Has :
      (p : IcsParser)
      → Holds p.blocks
      → Holds (finish s p).blocks
        ⊎ ((ov : Event) × Among ov (flush s p).blocks.overrides × (replaces ov event ≡ true))
  unfolding finish
  finish-Has p w =
      apply_overrides-Has (flush s p).blocks.overrides (flush s p).blocks.output (flush-Holds p w)
