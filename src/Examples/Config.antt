-- ===== src/Examples/Config.antt =====
-- The configuration of a device with one saved network, one feed and an event.
use x4_printer.Prelude.{
  ℕ, ◌≡◌, ◌≢◌, refl, arith, true, false, none, some, List, [], ◌∷◌, All, take, length, ◌<◌,
}
use x4_printer.Prelude.Int.{pos}
use x4_printer.Prelude.Text.{codes, same_upto}
use x4_printer.Table.{id_len}
use x4_printer.Calendar.Wake.{NextEventInfo}
use x4_printer.Config.Cache.{cache_text, load_cache, load_cache-cache_text}
use x4_printer.Config.Calendars.{max_calendars}
use x4_printer.Config.Wifi.{WifiCredential, find}
use x4_printer.Config.Wifi.Password.{Base64, IsBase64}
use x4_printer.Config.Wifi.Persist.{Saved, wifi_text, load_wifi, load_wifi-wifi_text}
use x4_printer.Sync.Config.{
  DeviceConfigManifest, Stores, sync_device_config, sync_device_config_lem,
}
use x4_printer.Examples.Json.{json, json-IsJson}
use x4_printer.Examples.Stores.{Files, card}

-- A text that is the bytes themselves.
abbrev base64 : Base64
base64 = record { encode = λ bs. bs; decode = λ t. some t }

no_text : (bs : List ℕ) → 0 < length bs → bs ≢ []
no_text [] h e = absurd (omega arith)
no_text (b ∷ bs) h e = cc

base64-IsBase64 : IsBase64 base64
base64-IsBase64 = record {
  text_some = no_text;
  short = λ bs h. omega (arith, h);
  decodes = λ bs h. refl;
}

abbrev mac : List ℕ
mac = 0x24 ∷ 0x6F ∷ 0x28 ∷ 1 ∷ 2 ∷ 3 ∷ []

abbrev home : WifiCredential
home = record { ssid = codes "home"; password = codes "pw" }

abbrev networks : Saved
networks = record { networks = home ∷ []; last_ssid = codes "home" }

load_wifi-wifi_text_example :
    load_wifi json base64 mac (some (wifi_text json base64 mac networks)) ≡ (true, networks)
load_wifi-wifi_text_example =
    load_wifi-wifi_text json base64 mac json-IsJson base64-IsBase64 (omega arith) networks
      (
        record {
          ssid_some = refl;
          ssid_fits = omega arith;
          password_fits = omega arith;
          password_bytes = omega arith;
        },
        tt,
      )
      (omega arith) (omega arith)

abbrev event : NextEventInfo
event = record {
  has_event = true;
  title = codes "Stand-up";
  start = pos 2147483000;
  end = pos 2147484000;
  all_day = false;
  last_synced_at = pos 2147480000;
  alerted_for_start = pos 0;
  alerted_for_end = pos 0;
}

load_cache-cache_text_example :
    load_cache json (some (cache_text json event)) ≡ record event { end = pos 0 }
load_cache-cache_text_example = load_cache-cache_text json json-IsJson event (omega arith)

abbrev manifest : DeviceConfigManifest
manifest = record {
  calendars = record { url = codes "https://cal"; label = codes "Work" } ∷ [];
  wifi_networks = record { ssid = codes "office"; password = codes "new" } ∷ [];
}

abbrev stores : Stores Files
stores = record { calendars = []; wifi = networks; card = λ p. none }

abbrev synced : Stores Files
synced = sync_device_config card json base64 mac (some manifest) stores

sync_device_config_lem_example :
    (find (codes "home") (home ∷ []) ≢ none → find (codes "home") synced.wifi.networks ≢ none)
    × (All (λ c. same_upto id_len c.ssid (codes "home") ≡ false) manifest.wifi_networks
        → find (codes "home") synced.wifi.networks ≡ find (codes "home") (home ∷ []))
    × (synced.wifi.last_ssid ≡ codes "home")
    × (synced.calendars ≡ take max_calendars manifest.calendars)
sync_device_config_lem_example =
    sync_device_config_lem card json base64 mac (some manifest) stores (codes "home")
