-- ===== src/Sync/Config.antt =====
-- firmware/src/sync/SyncManager.cpp: `syncDeviceConfig`, on the two stores and their files. What the Pi
-- answered is `none` where `fetchDeviceConfig` fails. The answers of the stores' calls are ignored.
use x4_printer.Prelude.{
  ℕ, ◌≡◌, ◌≢◌, refl, sym, ap, ◌∙◌, true, false, Option, none, some, List, [], ◌∷◌, All, ltb, lt→ltb,
  length, take, if◌then◌else◌, arith, inl, inr,
}
use x4_printer.Prelude.Text.{Text, codes, same_upto}
use x4_printer.Table
use x4_printer.Table.{id_len}
use x4_printer.Table.Find.{find_cong}
use x4_printer.Store.Json.{Json}
use x4_printer.Store.Card.{SdCard, save_file}
use x4_printer.Store.Outbox.{or_same}
use x4_printer.Calendar.Feeds.{CalendarFeed}
use x4_printer.Config.Calendars.{
  Feeds, max_calendars, replace_all, replace_all-take, calendars_text,
}
use x4_printer.Config.Wifi.{Networks, find, ssid_key, add_or_update, password_of, add_or_update_lem}
use x4_printer.Config.Wifi.Password.{Base64}
use x4_printer.Config.Wifi.Persist.{Saved, wifi_text}

pub record DeviceConfigManifest : Type 0 where
  pub calendars : List CalendarFeed
  pub wifi_networks : Networks

abbrev pub networks_of : Option DeviceConfigManifest → Networks
networks_of none = []
networks_of (some m) = m.wifi_networks

-- The two singletons, and the card.
pub record Stores (C : Type 0) : Type 0 where
  pub calendars : Feeds
  pub wifi : Saved
  pub card : C

-- The loop over `manifest.wifiNetworks`.
unfoldable pub merge_networks : Networks → Networks → Networks
merge_networks [] nets = nets
merge_networks (c ∷ cs) nets =
    merge_networks cs (or_same (add_or_update c.ssid c.password nets) nets)

module _ {C Doc Obj : Type 0} (card : SdCard C) (json : Json Doc Obj) (base64 : Base64)
    (mac : List ℕ) where
  unfoldable pub sync_calendars_list : List CalendarFeed → Stores C → Stores C
  sync_calendars_list feeds s =
      let kept = replace_all feeds in
      record s {
        calendars = kept;
        card = save_file card (codes "/system/calendars.json") (calendars_text json kept) s.card;
      }

  unfoldable pub sync_networks : Networks → Stores C → Stores C
  sync_networks nets s =
      let merged = record (s.wifi) { networks = merge_networks nets s.wifi.networks } in
      if ltb 0 (length nets)
      then record s {
        wifi = merged;
        card = save_file card (codes "/system/wifi.json") (wifi_text json base64 mac merged) s.card;
      }
      else s

  unfoldable pub sync_device_config : Option DeviceConfigManifest → Stores C → Stores C
  sync_device_config none s = s
  sync_device_config (some m) s = sync_networks m.wifi_networks (sync_calendars_list m.calendars s)

  wifi_after :
      (nets : Networks) (s : Stores C)
      → (sync_networks nets s).wifi
        ≡ record (s.wifi) { networks = merge_networks nets s.wifi.networks }
  unfolding sync_networks merge_networks
  wifi_after [] s = refl
  wifi_after (c ∷ nets) s = rw (lt→ltb 0 (length (c ∷ nets)) (omega arith)) refl

  calendars_after :
      (nets : Networks) (s : Stores C) → (sync_networks nets s).calendars ≡ s.calendars
  unfolding sync_networks
  calendars_after [] s = refl
  calendars_after (c ∷ nets) s = rw (lt→ltb 0 (length (c ∷ nets)) (omega arith)) refl

module _ (other : Text) where
  -- A network that was saved still is.
  abbrev Stays : Networks → Networks → Type 0
  Stays before after = find other before ≢ none → find other after ≢ none

  same_found :
      (ssid password : Text) (nets : Networks)
      → same_upto id_len ssid other ≡ true
      → password_of (find ssid nets) ≡ some password
      → find other nets ≢ none
  unfolding find
  same_found ssid password nets same got e =
      let there = find_cong ssid_key ssid other nets same in
      let nothing : password_of (Table.find ssid_key ssid nets) ≡ none =
        ap password_of (there ∙ e) in
      cc

  -- One network of the manifest: one of another name is untouched.
  step-keeps :
      (ssid password : Text) (nets : Networks)
      → Stays nets (or_same (add_or_update ssid password nets) nets)
        × (same_upto id_len ssid other ≡ false
            → find other (or_same (add_or_update ssid password nets) nets) ≡ find other nets)
  step-keeps ssid password nets = elim (add_or_update_lem ssid password nets other) [
    | inl (full, h, new) ↦ rw full ((λ k. k), (λ k. refl))
    | inr (nets', done, got, inl same) ↦
        rw done ((λ k. same_found ssid _ nets' same got), (λ k. absurd (ground (arith, same, k))))
    | inr (nets', done, got, inr kept) ↦ rw done ((λ k e. k (sym kept ∙ e)), (λ k. kept))
  ]

  merge_networks-keeps :
      (cs nets : Networks)
      → Stays nets (merge_networks cs nets)
        × (All (λ c. same_upto id_len c.ssid other ≡ false) cs
            → find other (merge_networks cs nets) ≡ find other nets)
  unfolding merge_networks
  merge_networks-keeps [] nets = ((λ k. k), (λ h. refl))
  merge_networks-keeps (c ∷ cs) nets =
      let (stays, same) = step-keeps c.ssid c.password nets in
      let (stays', same') =
        merge_networks-keeps cs (or_same (add_or_update c.ssid c.password nets) nets) in
      ((λ k. stays' (stays k)), (λ h. same' h.1 ∙ same h.0))

-- `syncDeviceConfig` loses no network: one that was saved is saved afterwards, with the credentials
-- that it had if the Pi's list does not name it, and the name of the last network stays. The calendars
-- become the first four of the Pi's list, or stay as they were if the Pi gave no list.
pub sync_device_config_lem :
    {C Doc Obj : Type 0} (card : SdCard C) (json : Json Doc Obj) (base64 : Base64) (mac : List ℕ)
    (o : Option DeviceConfigManifest) (s : Stores C) (other : Text)
    → let after = sync_device_config card json base64 mac o s in
      (find other s.wifi.networks ≢ none → find other after.wifi.networks ≢ none)
      × (All (λ c. same_upto id_len c.ssid other ≡ false) (networks_of o)
          → find other after.wifi.networks ≡ find other s.wifi.networks)
      × (after.wifi.last_ssid ≡ s.wifi.last_ssid)
      × (after.calendars ≡ elim o [ none ↦ s.calendars | some m ↦ take max_calendars m.calendars ])
unfolding sync_device_config sync_networks sync_calendars_list
sync_device_config_lem card json base64 mac none s other = ((λ k. k), (λ h. refl), refl, refl)
sync_device_config_lem card json base64 mac (some m) s other =
    let s' = sync_calendars_list card json base64 mac m.calendars s in
    rw
      (
        wifi_after card json base64 mac m.wifi_networks s',
        calendars_after card json base64 mac m.wifi_networks s',
      )
      (
        (merge_networks-keeps other m.wifi_networks s.wifi.networks).0,
        (merge_networks-keeps other m.wifi_networks s.wifi.networks).1,
        refl,
        replace_all-take m.calendars,
      )
