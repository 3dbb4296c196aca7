-- ===== src/Calendar/Feeds.antt =====
-- firmware/src/calendar/CalendarSync.cpp and firmware/src/net/IcsFetch.cpp: the feeds are fetched one
-- after another into one list of events, and the soonest event is cached. The HTTP client is a
-- parameter: what it answers for a feed.
pub mod Kept
pub mod Soonest
use x4_printer.Prelude.{
  ℕ, zero, suc, ◌+◌, ◌%◌, Bool, true, false, ◌&&◌, ◌||◌, not, Option, none, some, List, [], ◌∷◌,
  take, if◌then◌else◌,
}
use x4_printer.Prelude.Int.{ℤ, pos, ◌+ℤ◌, ltb_ℤ, leb_ℤ}
use x4_printer.Prelude.Text.{Text}
use x4_printer.Calendar.Wake.{NextEventInfo}
use x4_printer.Calendar.TimeUtil.{Civil}
use x4_printer.Calendar.Ics.Strings.{is_empty}
use x4_printer.Calendar.Ics.State.{Event, Setup, IcsParser, new_parser}
use x4_printer.Calendar.Ics.Lines.{feed, finish}

-- `config::CalendarFeed`
pub record CalendarFeed : Type 0 where
  pub url : Text
  pub label : Text

pub data IcsFetchResult : Type 0 where
  ok connect_failed http_error parse_aborted : IcsFetchResult

-- What the HTTP client does: it does not start, or it gives a status and the chunks that `readBytes`
-- returns until the loop ends, be it at the end of the body, on a stall or on a lost connection.
pub data Response : Type 0 where
  no_connection : Response
  response : ℤ → List (List ℕ) → Response

unfoldable pub feed_chunks : Setup → IcsParser → List (List ℕ) → IcsParser
feed_chunks s p [] = p
feed_chunks s p (chunk ∷ chunks) = feed_chunks s (feed s p chunk) chunks

abbrev pub is_success : ℤ → Bool
is_success code = not (ltb_ℤ code (pos 200) || leb_ℤ (pos 300) code)

unfoldable pub fetch_ics : Setup → Response → IcsParser → IcsFetchResult × IcsParser
fetch_ics s no_connection p = (connect_failed, p)
fetch_ics s (response code chunks) p =
    if is_success code then (ok, finish s (feed_chunks s p chunks)) else (http_error, p)

abbrev pub lookahead_seconds : ℕ
lookahead_seconds = 5184000

abbrev pub min_plausible_now : ℕ
min_plausible_now = 1700000000

abbrev pub calendar_event_title_len : ℕ
calendar_event_title_len = 80

abbrev pub max_events_default : ℕ
max_events_default = 64

-- The device, as the feeds need it.
pub record Device : Type 0 where
  pub now : ℤ
  pub past : ℤ → ℤ
  pub mktime : Civil → ℤ
  pub fetch : Text → Response

abbrev pub setup_of : Device → ℕ → Setup
setup_of d i = record {
  cal_index = i % 256;
  window_start = d.now;
  window_end = d.now +ℤ pos lookahead_seconds;
  max_events = max_events_default;
  past = d.past;
  mktime = d.mktime;
}

abbrev pub is_fetched : IcsFetchResult → Bool
is_fetched ok = true
is_fetched connect_failed = false
is_fetched http_error = false
is_fetched parse_aborted = false

-- One feed; `anyFeedOk` is the Boolean.
unfoldable pub sync_feed : Device → ℕ → CalendarFeed → List Event → Bool → List Event × Bool
sync_feed d i f events any_ok =
    let (result, p) = fetch_ics (setup_of d i) (d.fetch f.url) (new_parser events) in
    if is_empty f.url
    then (events, any_ok)
    else (p.blocks.output.events, is_fetched result || any_ok)

unfoldable pub sync_feeds : Device → ℕ → List CalendarFeed → List Event → Bool → List Event × Bool
sync_feeds d i [] events any_ok = (events, any_ok)
sync_feeds d i (f ∷ fs) events any_ok =
    let (events', any_ok') = sync_feed d i f events any_ok in
    sync_feeds d (i + 1) fs events' any_ok'

abbrev pub sooner : Event → Option Event → Option Event
sooner ev none = some ev
sooner ev (some best) = if ltb_ℤ ev.start best.start then some ev else some best

unfoldable pub soonest_of : ℤ → Option Event → List Event → Option Event
soonest_of now best [] = best
soonest_of now best (ev ∷ events) =
    soonest_of now (if leb_ℤ ev.end now then best else sooner ev best) events

unfoldable pub info_of : ℤ → NextEventInfo → Option Event → NextEventInfo
info_of now previous none = record {
  has_event = false;
  title = [];
  start = pos 0;
  end = pos 0;
  all_day = false;
  last_synced_at = now;
  alerted_for_start = previous.alerted_for_start;
  alerted_for_end = previous.alerted_for_end;
}
info_of now previous (some ev) = record {
  has_event = true;
  title = take calendar_event_title_len ev.title;
  start = ev.start;
  end = ev.end;
  all_day = ev.all_day;
  last_synced_at = now;
  alerted_for_start = previous.alerted_for_start;
  alerted_for_end = previous.alerted_for_end;
}

-- The cache's new content; `none` where the cache is left as it is.
unfoldable pub sync_calendars : Device → List CalendarFeed → NextEventInfo → Option NextEventInfo
sync_calendars d [] previous = none
sync_calendars d (f ∷ fs) previous =
    let (events, any_ok) = sync_feeds d 0 (f ∷ fs) [] false in
    if ltb_ℤ d.now (pos min_plausible_now)
    then none
    else if not any_ok
    then none
    else some (info_of d.now previous (soonest_of d.now none events))
