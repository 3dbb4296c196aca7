-- ===== src/Config/Cache.antt =====
-- firmware/src/config/CalendarCache: the file of the next event. A time is saved as an `int64_t` and
-- read as an `int`.
use x4_printer.Prelude.{
  ◌≤◌, ◌≡◌, ap, ◌∙◌, true, false, Option, none, some, [], ◌∷◌, length, take, take-all,
  if◌then◌else◌,
}
use x4_printer.Prelude.Int.{ℤ, pos}
use x4_printer.Prelude.Text.{Text, codes}
use x4_printer.Store.Json.{Json, IsJson, Object, str, flag, flat, int_value, int_of}
use x4_printer.Config.File.{read_doc, read_doc-serialize}
use x4_printer.Calendar.Wake.{NextEventInfo}
use x4_printer.Calendar.Feeds.{calendar_event_title_len}

abbrev pub no_info : NextEventInfo
no_info = record {
  has_event = false;
  title = [];
  start = pos 0;
  end = pos 0;
  all_day = false;
  last_synced_at = pos 0;
  alerted_for_start = pos 0;
  alerted_for_end = pos 0;
}

unfoldable pub cache_object : NextEventInfo → Object
cache_object i =
    (codes "has_event", flag i.has_event)
    ∷ (codes "title", str i.title)
    ∷ (codes "start", int_value i.start)
    ∷ (codes "end", int_value i.end)
    ∷ (codes "all_day", flag i.all_day)
    ∷ (codes "last_synced_at", int_value i.last_synced_at)
    ∷ (codes "alerted_for_start", int_value i.alerted_for_start)
    ∷ (codes "alerted_for_end", int_value i.alerted_for_end)
    ∷ []

-- What the reader gets for a saved time: the time, or 0 if no `int` holds it.
abbrev pub as_int : ℤ → ℤ
as_int t = int_of (some (int_value t)) (pos 0)

abbrev kept : NextEventInfo → NextEventInfo
kept i = record {
  has_event = true;
  title = i.title;
  start = as_int i.start;
  end = as_int i.end;
  all_day = i.all_day;
  last_synced_at = as_int i.last_synced_at;
  alerted_for_start = as_int i.alerted_for_start;
  alerted_for_end = as_int i.alerted_for_end;
}

-- What is left of a record after it was saved and loaded.
abbrev pub reloaded : NextEventInfo → NextEventInfo
reloaded i = if i.has_event then kept i else no_info

module _ {Doc Obj : Type 0} (json : Json Doc Obj) where
  -- The text that `CalendarCache::save` writes.
  unfoldable pub cache_text : NextEventInfo → Text
  cache_text i = json.serialize (flat (cache_object i))

  unfoldable pub event_from : Obj → NextEventInfo
  event_from o = record {
    has_event = true;
    title = take calendar_event_title_len (json.str_or o (codes "title") []);
    start = json.int_or o (codes "start") (pos 0);
    end = json.int_or o (codes "end") (pos 0);
    all_day = json.flag_or o (codes "all_day") false;
    last_synced_at = json.int_or o (codes "last_synced_at") (pos 0);
    alerted_for_start = json.int_or o (codes "alerted_for_start") (pos 0);
    alerted_for_end = json.int_or o (codes "alerted_for_end") (pos 0);
  }

  unfoldable pub info_from : Obj → NextEventInfo
  info_from o = if json.flag_or o (codes "has_event") false then event_from o else no_info

  abbrev from_doc : Option Doc → NextEventInfo
  from_doc none = no_info
  from_doc (some doc) = info_from (json.root doc)

  -- `CalendarCache::load`
  unfoldable pub load_cache : Option Text → NextEventInfo
  load_cache file = from_doc (read_doc json file)

  module _ (ok : IsJson json) where
    event_back :
        (i : NextEventInfo)
        → length i.title ≤ calendar_event_title_len
        → event_from (ok.obj_of (cache_object i)) ≡ kept i
    unfolding event_from cache_object
    event_back i fits =
        let o = cache_object i in
        let f1 =
          ap (take calendar_event_title_len) (ok.str_read o (codes "title") [])
          ∙ take-all calendar_event_title_len i.title fits in
        let f2 = ok.int_read o (codes "start") (pos 0) in
        let f3 = ok.int_read o (codes "end") (pos 0) in
        let f4 = ok.flag_read o (codes "all_day") false in
        let f5 = ok.int_read o (codes "last_synced_at") (pos 0) in
        let f6 = ok.int_read o (codes "alerted_for_start") (pos 0) in
        let f7 = ok.int_read o (codes "alerted_for_end") (pos 0) in cc

    info_back :
        (i : NextEventInfo)
        → length i.title ≤ calendar_event_title_len
        → info_from (ok.obj_of (cache_object i)) ≡ reloaded i
    unfolding info_from cache_object
    info_back i fits =
        let o = cache_object i in
        ap (λ b. if b then event_from (ok.obj_of o) else no_info)
          (ok.flag_read o (codes "has_event") false)
        ∙ ap (λ r. if i.has_event then r else no_info) (event_back i fits)

    -- A saved record is loaded with its title and flags, and with each of its times that an `int` holds;
    -- any other time is 0. A record with no event is lost as a whole, its marks of the reminders that
    -- were shown included.
    pub load_cache-cache_text :
        (i : NextEventInfo)
        → length i.title ≤ calendar_event_title_len
        → load_cache (some (cache_text i)) ≡ reloaded i
    unfolding load_cache cache_text
    load_cache-cache_text i fits =
        ap from_doc (read_doc-serialize json ok (flat (cache_object i)))
        ∙ ap info_from (ok.root_flat (cache_object i))
        ∙ info_back i fits
