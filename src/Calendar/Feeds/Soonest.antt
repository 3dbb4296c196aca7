-- ===== src/Calendar/Feeds/Soonest.antt =====
-- What a calendar sync caches.
use x4_printer.Prelude.{
  ℕ, ◌+◌, ◌≤◌, ◌≡◌, refl, sym, ap, subst, ◌∙◌, ◌⊎◌, inl, inr, Bool, true, false, Option, none, some,
  List, [], ◌∷◌, ◌++◌, length, take, All, Among, arith, Bool-cases,
}
use x4_printer.Prelude.Int.{ℤ, pos, ◌≤ℤ◌, leb_ℤ, ltb_ℤ}
use x4_printer.Calendar.Wake.{NextEventInfo}
use x4_printer.Calendar.Ics.Strings.{is_empty}
use x4_printer.Calendar.Ics.State.{Event, Setup, IcsParser, new_parser}
use x4_printer.Calendar.Ics.Lines.Window.{IsShown, IsSound, finish-IsSound}
use x4_printer.Calendar.Feeds.{
  is_success, max_events_default, min_plausible_now, CalendarFeed, Response, no_connection,
  response, fetch_ics, calendar_event_title_len, Device, setup_of, sync_feed, sync_feeds,
  soonest_of, info_of, sync_calendars,
}
use x4_printer.Calendar.Feeds.Kept.{
  concat, feed_chunks-concat, Replaced, sync_feeds-keeps, sync_feeds-append,
}

fetch_ics-IsSound :
    (s : Setup) (r : Response) (p : IcsParser)
    → IsSound s p.blocks
    → IsSound s (fetch_ics s r p).1.blocks
unfolding fetch_ics
fetch_ics-IsSound s no_connection p w = w
fetch_ics-IsSound s (response code chunks) p w = elim (Bool-cases (is_success code)) [
  | inr failed ↦ rw failed w
  | inl got ↦ rw (got, feed_chunks-concat s p chunks) (finish-IsSound s p (concat chunks) w)
]

-- The window and the bound do not depend on the feed's number.
abbrev AreShown : Device → List Event → Type 0
AreShown d events = All (IsShown (setup_of d 0)) events × (length events ≤ max_events_default)

module _ (d : Device) where
  sync_feed-AreShown :
      (i : ℕ) (f : CalendarFeed) (events : List Event) (any_ok : Bool)
      → AreShown d events
      → AreShown d (sync_feed d i f events any_ok).0
  unfolding sync_feed
  sync_feed-AreShown i f events any_ok h = elim (Bool-cases (is_empty f.url)) [
    | inl empty ↦ rw empty h
    | inr named ↦
        let w =
          fetch_ics-IsSound (setup_of d i) (d.fetch f.url) (new_parser events)
            (record { shown = h.0; few = h.1 }, omega arith, omega arith) in
        rw named (w.0.shown, w.0.few)
  ]

  sync_feeds-AreShown :
      (i : ℕ) (fs : List CalendarFeed) (events : List Event) (any_ok : Bool)
      → AreShown d events
      → AreShown d (sync_feeds d i fs events any_ok).0
  unfolding sync_feeds
  sync_feeds-AreShown i [] events any_ok h = h
  sync_feeds-AreShown i (f ∷ fs) events any_ok h =
      sync_feeds-AreShown (i + 1) fs _ _ (sync_feed-AreShown i f events any_ok h)

-- No event starts before `ev`, which is among the events.
abbrev pub IsFirst : Event → List Event → Type 0
IsFirst ev events = Among ev events × All (λ e. ev.start ≤ℤ e.start) events

-- The best event of those seen and those to come.
soonest_of-some :
    (d : Device) (best : Event) (events : List Event)
    → All (IsShown (setup_of d 0)) events
    → (ev : Event) × (soonest_of d.now (some best) events ≡ some ev)
      × (ev.start ≤ℤ best.start)
      × All (λ e. ev.start ≤ℤ e.start) events
      × ((best ≡ ev) ⊎ Among ev events)
unfolding soonest_of
soonest_of-some d best [] h = (best, refl, omega arith, tt, inl refl)
soonest_of-some d best (e ∷ es) h = elim (Bool-cases (ltb_ℤ e.start best.start)) [
  | inl before ↦
      let (ev, found, first, all, among) = soonest_of-some d e es h.1 in
      rw (unended, before) (ev, found, ground (arith, first, before), (first, all), inr among)
  | inr after ↦
      let (ev, found, first, all, among) = soonest_of-some d best es h.1 in
      rw (unended, after) (ev, found, first, (ground (arith, first, after), all), later among)
]
  where
    unended : leb_ℤ e.end d.now ≡ false
    unended = ground (arith, h.0)

    later : {ev : Event} → (best ≡ ev) ⊎ Among ev es → (best ≡ ev) ⊎ ((e ≡ ev) ⊎ Among ev es)
    later (inl same) = inl same
    later (inr among) = inr (inr among)

All-Among :
    (P : Event → Type 0) (ev : Event) (events : List Event) → All P events → Among ev events → P ev
All-Among P ev [] h among = elim among [ ]
All-Among P ev (e ∷ es) h (inl same) = subst P same h.0
All-Among P ev (e ∷ es) h (inr among) = All-Among P ev es h.1 among

-- What the cache holds after a sync: the soonest of the events, or that there is none.
abbrev pub Caches : Device → List Event → NextEventInfo → Type 0
Caches d events info =
    ((events ≡ []) × (info.has_event ≡ false))
    ⊎ ((ev : Event) × Among ev events
        × All (λ e. ev.start ≤ℤ e.start) events
        × IsShown (setup_of d 0) ev
        × (info.has_event ≡ true)
        × (info.start ≡ ev.start)
        × (info.end ≡ ev.end)
        × (info.title ≡ take calendar_event_title_len ev.title))

info_of-Caches :
    (d : Device) (events : List Event) (previous : NextEventInfo)
    → All (IsShown (setup_of d 0)) events
    → Caches d events (info_of d.now previous (soonest_of d.now none events))
unfolding soonest_of info_of
info_of-Caches d [] previous h = inl (refl, refl)
info_of-Caches d (e ∷ es) previous h =
    let (ev, found, first, all, among) = soonest_of-some d e es h.1 in
    let unended : leb_ℤ e.end d.now ≡ false = ground (arith, h.0) in
    rw (unended, found)
      (inr (
        ev,
        among,
        (first, all),
        All-Among (IsShown (setup_of d 0)) ev (e ∷ es) h among,
        refl,
        refl,
        refl,
        refl,
      ))

info_of-marks :
    (now : ℤ) (previous : NextEventInfo) (o : Option Event)
    → ((info_of now previous o).alerted_for_start ≡ previous.alerted_for_start)
      × ((info_of now previous o).alerted_for_end ≡ previous.alerted_for_end)
      × ((info_of now previous o).last_synced_at ≡ now)
unfolding info_of
info_of-marks now previous none = (refl, refl, refl)
info_of-marks now previous (some ev) = (refl, refl, refl)

-- The start that is cached is no later than that of an event among them.
Caches-first :
    (d : Device) (events : List Event) (info : NextEventInfo) (e : Event)
    → Caches d events info
    → Among e events
    → (info.has_event ≡ true) × (info.start ≤ℤ e.start)
Caches-first d events info e (inl (none', no_event)) among = absurd (subst (Among e) none' among)
Caches-first d events info e (inr (ev, first, all, shown, has, start, end, title)) among =
    let least = All-Among (λ x. ev.start ≤ℤ x.start) e events all among in
    (has, subst (λ t. t ≤ℤ e.start) (sym start) least)

-- With a calendar configured, the clock set, and at least one feed fetched, a sync caches, of the events
-- that it has kept of all feeds, one with the earliest start, which ends after now, begins within 60
-- days and is not cancelled, or that there are no events. For every event that it had kept after the
-- first feeds, however many, what is cached starts no later than that event, unless an override of a
-- later feed replaces it. The marks of the reminders are carried forward and
-- the time of the sync is now.
pub sync_calendars-Caches :
    (d : Device) (f : CalendarFeed) (fs : List CalendarFeed) (previous : NextEventInfo)
    → ltb_ℤ d.now (pos min_plausible_now) ≡ false
    → (sync_feeds d 0 (f ∷ fs) [] false).1 ≡ true
    → (info : NextEventInfo) × (sync_calendars d (f ∷ fs) previous ≡ some info)
      × Caches d (sync_feeds d 0 (f ∷ fs) [] false).0 info
      × ((before after : List CalendarFeed) (e : Event)
          → f ∷ fs ≡ before ++ after
          → let r = sync_feeds d 0 before [] false in
            Among e r.0
            → ((info.has_event ≡ true) × (info.start ≤ℤ e.start))
              ⊎ Replaced d (0 + length before) after r.0 r.1 e)
      × (info.alerted_for_start ≡ previous.alerted_for_start)
      × (info.alerted_for_end ≡ previous.alerted_for_end)
      × (info.last_synced_at ≡ d.now)
unfolding sync_calendars
sync_calendars-Caches d f fs previous set_clock any_ok =
    let events : List Event = (sync_feeds d 0 (f ∷ fs) [] false).0 in
    let shown = sync_feeds-AreShown d 0 (f ∷ fs) [] false (tt, omega arith) in
    let (start_mark, end_mark, at) = info_of-marks d.now previous (soonest_of d.now none events) in
    let caches = info_of-Caches d events previous shown.0 in
    let info : NextEventInfo = info_of d.now previous (soonest_of d.now none events) in
    (
      info,
      rw (set_clock, any_ok) refl,
      caches,
      (λ before after e split among.
          let r = sync_feeds d 0 before [] false in
          let whole : (sync_feeds d (0 + length before) after r.0 r.1).0 ≡ events =
            ap (λ (x : List Event × Bool). x.0)
              (sym (sync_feeds-append d 0 before after [] false)
                ∙ ap (λ gs. sync_feeds d 0 gs [] false) (sym split)) in
          elim (sync_feeds-keeps d e (0 + length before) after r.0 r.1 among) [
            | inr replaced ↦ inr replaced
            | inl stays ↦ inl (Caches-first d events info e caches (subst (Among e) whole stays))
          ]),
      start_mark,
      end_mark,
      at,
    )
