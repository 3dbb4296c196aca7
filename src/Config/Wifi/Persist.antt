-- ===== src/Config/Wifi/Persist.antt =====
-- firmware/src/config/WifiStore.cpp: the file of the saved networks.
use x4_printer.Prelude.{
  ℕ, ◌+◌, ◌≤◌, ◌<◌, ◌≡◌, refl, sym, ap, ◌∙◌, Bool, true, false, Option, none, some, List, [], ◌∷◌,
  ◌++◌, map, All, append-nil, append_assoc, leb, length, length-append, take, take-all,
  if◌then◌else◌, arith,
}
use x4_printer.Prelude.Text.{Text, codes, text_eq}
use x4_printer.Table.{id_len}
use x4_printer.Store.Json.{Json, IsJson, Object, str, with_rows}
use x4_printer.Config.File.{read_doc, read_doc-serialize}
use x4_printer.Config.Wifi.{WifiCredential, Networks, max_wifi_networks, max_password_len}
use x4_printer.Config.Wifi.Password.{
  Base64, IsBase64, IsCString, obfuscate_and_encode, decode_and_deobfuscate,
  decode_and_deobfuscate-obfuscate_and_encode,
}

pub record Saved : Type 0 where
  pub networks : Networks
  pub last_ssid : Text

abbrev saved : Networks → Text → Saved
saved networks last_ssid = record { networks = networks; last_ssid = last_ssid }

abbrev pub set_last_connected_ssid : Text → Saved → Saved
set_last_connected_ssid ssid s = record s { last_ssid = take id_len ssid }

-- A network with a name, whose texts fit their buffers.
pub record IsNetwork (c : WifiCredential) : Type 0 where
  pub ssid_some : text_eq c.ssid [] ≡ false
  pub ssid_fits : length c.ssid ≤ id_len
  pub password_fits : length c.password ≤ max_password_len
  pub password_bytes : IsCString c.password

module _ {Doc Obj : Type 0} (json : Json Doc Obj) (base64 : Base64) (mac : List ℕ) where
  unfoldable pub network_object : WifiCredential → Object
  network_object c =
      (codes "ssid", str c.ssid)
      ∷ (codes "password", str (obfuscate_and_encode base64 mac c.password))
      ∷ []

  -- The text that `WifiStore::save` writes.
  unfoldable pub wifi_text : Saved → Text
  wifi_text s = json.serialize (
      with_rows ((codes "last_connected_ssid", str s.last_ssid) ∷ []) (codes "networks")
        (map network_object s.networks))

  abbrev or_empty : Option Text → Text
  or_empty none = []
  or_empty (some t) = t

  -- One round of the loop: a network without a name is skipped.
  unfoldable pub add_network : Obj → Networks → Networks
  add_network net done =
      let ssid = json.str_or net (codes "ssid") [] in
      if text_eq ssid []
      then done
      else done
        ++ record {
          ssid = take id_len ssid;
          password = or_empty (
              decode_and_deobfuscate base64 mac (max_password_len + 1)
                (json.str_or net (codes "password") []));
        }
          ∷ []

  unfoldable pub add_networks : List Obj → Networks → Networks
  unfolding add_network
  add_networks [] done = done
  add_networks (net ∷ nets) done =
      if leb max_wifi_networks (length done) then done else add_networks nets (add_network net done)

  abbrev from_doc : Option Doc → Bool × Saved
  from_doc none = (false, saved [] [])
  from_doc (some doc) = (
    true,
    saved (add_networks (json.objects (codes "networks") doc) [])
        (take id_len (json.str_or (json.root doc) (codes "last_connected_ssid") [])),
  )

  -- `WifiStore::load`: its answer and the store.
  unfoldable pub load_wifi : Option Text → Bool × Saved
  unfolding add_networks
  load_wifi file = from_doc (read_doc json file)

  module _ (ok : IsJson json) (ok64 : IsBase64 base64) (hm : All (λ b. b < 256) mac) where
    add_network-back :
        (c : WifiCredential) (done : Networks)
        → IsNetwork c
        → add_network (ok.obj_of (network_object c)) done ≡ done ++ c ∷ []
    unfolding add_network network_object
    add_network-back c done h =
        rw
          (
            ok.str_read (network_object c) (codes "ssid") [],
            ok.str_read (network_object c) (codes "password") [],
            h.ssid_some,
            take-all id_len c.ssid h.ssid_fits,
            decode_and_deobfuscate-obfuscate_and_encode base64 ok64 mac c.password hm
                h.password_bytes h.password_fits,
          )
          refl

    add_networks-back :
        (cs done : Networks)
        → All IsNetwork cs
        → length done + length cs ≤ max_wifi_networks
        → add_networks (map ok.obj_of (map network_object cs)) done ≡ done ++ cs
    unfolding add_networks
    add_networks-back [] done h room = sym (append-nil done)
    add_networks-back (c ∷ cs) done h room =
        let left : leb max_wifi_networks (length done) ≡ false = ground arith in
        rw (left, add_network-back c done h.0)
          (add_networks-back cs (done ++ c ∷ []) h.1 (omega (arith, length-append done (c ∷ [])))
            ∙ append_assoc done (c ∷ []) cs)

    -- At most eight networks, each with a name and a password that fit their buffers, and the name of
    -- the last one are loaded just as they were saved, the passwords in clear again.
    pub load_wifi-wifi_text :
        (s : Saved)
        → All IsNetwork s.networks
        → length s.networks ≤ max_wifi_networks
        → length s.last_ssid ≤ id_len
        → load_wifi (some (wifi_text s)) ≡ (true, s)
    unfolding load_wifi wifi_text
    load_wifi-wifi_text s h room fits =
        let o : Object = (codes "last_connected_ssid", str s.last_ssid) ∷ [] in
        let nets = map network_object s.networks in
        let f0 =
          ap (λ os. add_networks os []) (ok.objects_with o (codes "networks") nets)
          ∙ add_networks-back s.networks [] h (omega arith) in
        let f1 =
          ap (take id_len)
            (ok.str_with o (codes "networks") nets (codes "last_connected_ssid") [] refl)
          ∙ take-all id_len s.last_ssid fits in
        ap from_doc (read_doc-serialize json ok (with_rows o (codes "networks") nets))
        ∙ ap
            (λ n. (
              true,
              saved n (
                  take id_len (
                    json.str_or (json.root (ok.doc_of (with_rows o (codes "networks") nets)))
                      (codes "last_connected_ssid") [])),
            ))
            f0
        ∙ ap (λ t. (true, saved s.networks t)) f1
