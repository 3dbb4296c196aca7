-- ===== src/Config/Calendars.antt =====
-- firmware/src/config/CalendarConfig: the list of feeds and its file.
use x4_printer.Prelude.{
  ℕ, suc, ◌+◌, ◌≤◌, ◌≡◌, refl, sym, ap, subst, length-take, zero, ◌∙◌, true, false, Option, none,
  some, List, [], ◌∷◌, ◌++◌, map, All, append-nil, append_assoc, leb, length, length-append, take,
  take-all, if◌then◌else◌, arith,
}
use x4_printer.Prelude.Text.{Text, codes, text_eq}
use x4_printer.Store.Json.{Json, IsJson, Object, str, rows}
use x4_printer.Config.File.{read_doc, read_doc-serialize}
use x4_printer.Calendar.Feeds.{CalendarFeed}

abbrev pub max_calendars : ℕ
max_calendars = 4

abbrev pub url_len : ℕ
url_len = 220

abbrev pub label_len : ℕ
label_len = 32

abbrev pub Feeds : Type 0
Feeds = List CalendarFeed

-- The loop of `replaceAll`, with the feeds that were copied already.
unfoldable pub copy_feeds : List CalendarFeed → Feeds → Feeds
copy_feeds [] done = done
copy_feeds (f ∷ fs) done =
    if leb max_calendars (length done) then done else copy_feeds fs (done ++ f ∷ [])

unfoldable pub replace_all : List CalendarFeed → Feeds
unfolding copy_feeds
replace_all feeds = copy_feeds feeds []

unfoldable pub feed_object : CalendarFeed → Object
feed_object f = (codes "url", str f.url) ∷ (codes "label", str f.label) ∷ []

-- A feed with a URL, whose texts fit their buffers.
pub record IsFeed (f : CalendarFeed) : Type 0 where
  pub url_some : text_eq f.url [] ≡ false
  pub url_fits : length f.url ≤ url_len
  pub label_fits : length f.label ≤ label_len

module _ {Doc Obj : Type 0} (json : Json Doc Obj) where
  -- The text that `CalendarConfig::save` writes.
  unfoldable pub calendars_text : Feeds → Text
  calendars_text fs = json.serialize (rows (codes "calendars") (map feed_object fs))

  -- One round of the loop: a feed without a URL is skipped.
  unfoldable pub add_feed : Obj → Feeds → Feeds
  add_feed cal done =
      let url = json.str_or cal (codes "url") [] in
      if text_eq url []
      then done
      else done
        ++ record {
          url = take url_len url;
          label = take label_len (json.str_or cal (codes "label") []);
        }
          ∷ []

  unfoldable pub add_feeds : List Obj → Feeds → Feeds
  unfolding add_feed
  add_feeds [] done = done
  add_feeds (cal ∷ cals) done =
      if leb max_calendars (length done) then done else add_feeds cals (add_feed cal done)

  abbrev from_doc : Option Doc → Feeds
  from_doc none = []
  from_doc (some doc) = add_feeds (json.objects (codes "calendars") doc) []

  -- `CalendarConfig::load`
  unfoldable pub load_calendars : Option Text → Feeds
  unfolding add_feeds
  load_calendars file = from_doc (read_doc json file)

  module _ (ok : IsJson json) where
    add_feed-back :
        (f : CalendarFeed) (done : Feeds)
        → IsFeed f
        → add_feed (ok.obj_of (feed_object f)) done ≡ done ++ f ∷ []
    unfolding add_feed feed_object
    add_feed-back f done h =
        rw
          (
            ok.str_read (feed_object f) (codes "url") [],
            ok.str_read (feed_object f) (codes "label") [],
            h.url_some,
            take-all url_len f.url h.url_fits,
            take-all label_len f.label h.label_fits,
          )
          refl

    add_feeds-back :
        (fs done : Feeds)
        → All IsFeed fs
        → length done + length fs ≤ max_calendars
        → add_feeds (map ok.obj_of (map feed_object fs)) done ≡ done ++ fs
    unfolding add_feeds
    add_feeds-back [] done h room = sym (append-nil done)
    add_feeds-back (f ∷ fs) done h room =
        let left : leb max_calendars (length done) ≡ false = ground arith in
        rw (left, add_feed-back f done h.0)
          (add_feeds-back fs (done ++ f ∷ []) h.1 (omega (arith, length-append done (f ∷ [])))
            ∙ append_assoc done (f ∷ []) fs)

copy_feeds-take :
    (k : ℕ) (fs done : Feeds)
    → length done + k ≡ max_calendars
    → copy_feeds fs done ≡ done ++ take k fs
unfolding copy_feeds
copy_feeds-take zero [] done e = sym (append-nil done)
copy_feeds-take (suc k) [] done e = sym (append-nil done)
copy_feeds-take zero (f ∷ fs) done e =
    let full : leb max_calendars (length done) ≡ true = ground (arith, e) in
    rw full (sym (append-nil done))
copy_feeds-take (suc k) (f ∷ fs) done e =
    let room : leb max_calendars (length done) ≡ false = ground (arith, e) in
    rw room (
      copy_feeds-take k fs (done ++ f ∷ []) (omega (arith, e, length-append done (f ∷ [])))
      ∙ append_assoc done (f ∷ []) (take k fs))

pub replace_all-take : (fs : Feeds) → replace_all fs ≡ take max_calendars fs
unfolding replace_all
replace_all-take fs = copy_feeds-take max_calendars fs [] refl

take-All : (n : ℕ) (P : CalendarFeed → Type 0) (fs : Feeds) → All P fs → All P (take n fs)
take-All zero P fs h = tt
take-All (suc n) P [] h = tt
take-All (suc n) P (f ∷ fs) h = (h.0, take-All n P fs h.1)

-- Whatever list of feeds replaces the old one, what is saved then and loaded after the next boot is its
-- first four feeds, in order, if every feed has a URL and its texts fit their buffers.
pub load_calendars-replace_all :
    {Doc Obj : Type 0} (json : Json Doc Obj) (ok : IsJson json) (feeds : List CalendarFeed)
    → All IsFeed feeds
    → load_calendars json (some (calendars_text json (replace_all feeds)))
      ≡ take max_calendars feeds
unfolding load_calendars calendars_text
load_calendars-replace_all json ok feeds h =
    let kept = replace_all feeds in
    let objects = map feed_object kept in
    let first = replace_all-take feeds in
    ap (from_doc json) (read_doc-serialize json ok (rows (codes "calendars") objects))
    ∙ ap (λ os. add_feeds json os []) (ok.objects_rows (codes "calendars") objects)
    ∙ add_feeds-back json ok kept []
        (subst (All IsFeed) (sym first) (take-All max_calendars IsFeed feeds h))
        (omega (arith, ap length first, length-take max_calendars feeds))
    ∙ first
