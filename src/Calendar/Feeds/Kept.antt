-- ===== src/Calendar/Feeds/Kept.antt =====
-- An event that one feed gave stays in the list through the feeds after it.
use x4_printer.Prelude.{
  ℕ, ◌+◌, ◌≡◌, refl, sym, ap, subst, ◌∙◌, ◌⊎◌, inl, inr, Bool, true, false, List, [], ◌∷◌, ◌++◌,
  length, Among, arith, Bool-cases,
}
use x4_printer.Calendar.Ics.Strings.{is_empty}
use x4_printer.Calendar.Ics.State.{Event, Setup, IcsParser, new_parser}
use x4_printer.Calendar.Ics.Lines.{feed, flush, replaces}
use x4_printer.Calendar.Ics.Lines.Keeps.{feed-Holds, finish-Has}
use x4_printer.Calendar.Ics.Lines.Chunks.{feed-append}
use x4_printer.Calendar.Feeds.{
  is_success, CalendarFeed, Response, no_connection, response, feed_chunks, fetch_ics, Device,
  setup_of, sync_feed, sync_feeds,
}

pub concat : List (List ℕ) → List ℕ
concat [] = []
concat (c ∷ cs) = c ++ concat cs

pub feed_chunks-concat :
    (s : Setup) (p : IcsParser) (chunks : List (List ℕ))
    → feed_chunks s p chunks ≡ feed s p (concat chunks)
unfolding feed_chunks concat feed
feed_chunks-concat s p [] = refl
feed_chunks-concat s p (c ∷ cs) =
    feed_chunks-concat s (feed s p c) cs ∙ sym (feed-append s p c (concat cs))

-- The overrides that a feed leaves to be put in place at its end.
abbrev pub overrides_in : Setup → Response → IcsParser → List Event
overrides_in s no_connection p = []
overrides_in s (response code chunks) p = (flush s (feed_chunks s p chunks)).blocks.overrides

-- One of these feeds, which start from `events`, has an override that replaces `e`.
abbrev pub Replaced : Device → ℕ → List CalendarFeed → List Event → Bool → Event → Type 0
Replaced d i [] events any_ok e = ⊥
Replaced d i (f ∷ fs) events any_ok e =
    ((ov : Event) × Among ov (overrides_in (setup_of d i) (d.fetch f.url) (new_parser events))
      × (replaces ov e ≡ true))
    ⊎ Replaced d (i + 1) fs (sync_feed d i f events any_ok).0 (sync_feed d i f events any_ok).1 e

fetch_ics-Has :
    (s : Setup) (r : Response) (p : IcsParser) (e : Event)
    → Among e p.blocks.output.events
    → Among e (fetch_ics s r p).1.blocks.output.events
      ⊎ ((ov : Event) × Among ov (overrides_in s r p) × (replaces ov e ≡ true))
unfolding fetch_ics
fetch_ics-Has s no_connection p e h = inl h
fetch_ics-Has s (response code chunks) p e h = elim (Bool-cases (is_success code)) [
  | inr failed ↦ rw failed (inl h)
  | inl got ↦
      let fed = feed-Holds s e p (concat chunks) h in
      let held =
        subst (λ (q : IcsParser). Among e q.blocks.output.events)
          (sym (feed_chunks-concat s p chunks)) fed in
      rw got (finish-Has s e (feed_chunks s p chunks) held)
]

module _ (d : Device) (e : Event) where
  -- An event of the feeds before stays in the list, or an override of a later feed replaces it.
  pub sync_feeds-keeps :
      (i : ℕ) (fs : List CalendarFeed) (events : List Event) (any_ok : Bool)
      → Among e events
      → Among e (sync_feeds d i fs events any_ok).0 ⊎ Replaced d i fs events any_ok e
  unfolding sync_feeds sync_feed
  sync_feeds-keeps i [] events any_ok h = inl h
  sync_feeds-keeps i (f ∷ fs) events any_ok h = elim (kept (is_empty f.url) refl) [
    | inr replaced ↦ inr (inl replaced)
    | inl stays ↦ elim (sync_feeds-keeps (i + 1) fs _ (sync_feed d i f events any_ok).1 stays) [
      | inl stays' ↦ inl stays'
      | inr replaced ↦ inr (inr replaced)
    ]
  ]
    where
      kept :
          (b : Bool)
          → is_empty f.url ≡ b
          → Among e (sync_feed d i f events any_ok).0
            ⊎ ((ov : Event) × Among ov
                  (overrides_in (setup_of d i) (d.fetch f.url) (new_parser events))
                × (replaces ov e ≡ true))
      kept true empty = rw empty (inl h)
      kept false named =
          rw named (fetch_ics-Has (setup_of d i) (d.fetch f.url) (new_parser events) e h)

pub sync_feeds-append :
    (d : Device) (i : ℕ) (fs gs : List CalendarFeed) (events : List Event) (any_ok : Bool)
    → let r = sync_feeds d i fs events any_ok in
      sync_feeds d i (fs ++ gs) events any_ok ≡ sync_feeds d (i + length fs) gs r.0 r.1
unfolding sync_feeds
sync_feeds-append d i [] gs events any_ok =
    ap (λ k. sync_feeds d k gs events any_ok) {x = i} (omega arith)
sync_feeds-append d i (f ∷ fs) gs events any_ok =
    sync_feeds-append d (i + 1) fs gs _ _
    ∙ ap
        (λ k.
          let (events', any_ok') = sync_feed d i f events any_ok in
          let r = sync_feeds d (i + 1) fs events' any_ok' in sync_feeds d k gs r.0 r.1)
        {x = i + 1 + length fs} (omega arith)
