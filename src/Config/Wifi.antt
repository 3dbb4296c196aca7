-- ===== src/Config/Wifi.antt =====
-- firmware/src/config/WifiStore.cpp: the saved networks, on Table.
pub mod Password
pub mod Persist
use x4_printer.Prelude.{
  ℕ, ◌≤◌, ◌≡◌, ◌⊎◌, true, Option, none, some, List, [], ◌∷◌, ◌++◌, leb, length, take, if◌then◌else◌,
  arith, Option-cases, Bool-cases, inl, inr,
}
use x4_printer.Prelude.Text.{Text, same_upto, same_upto_refl, same_upto_sym, same_upto-take}
use x4_printer.Table
use x4_printer.Table.{id_len}
use x4_printer.Table.Find.{find-modify, modify-eq-none, find-append}

abbrev pub max_wifi_networks : ℕ
max_wifi_networks = 8

abbrev pub max_password_len : ℕ
max_password_len = 64

pub record WifiCredential : Type 0 where
  pub ssid : Text
  pub password : Text

abbrev pub ssid_key : WifiCredential → Text
ssid_key c = c.ssid

abbrev pub Networks : Type 0
Networks = List WifiCredential

unfoldable pub find : Text → Networks → Option WifiCredential
find = Table.find ssid_key

unfoldable pub remove : Text → Networks → Option Networks
remove = Table.remove ssid_key

-- `none` is the source's `false`: the store is full and the network new.
unfoldable pub add_or_update : Text → Text → Networks → Option Networks
add_or_update ssid password nets =
    elim (Table.modify ssid_key ssid (λ c. record c { password = take max_password_len password })
      nets) [
        | some nets' ↦ some nets'
        | none ↦
            if leb max_wifi_networks (length nets)
            then none
            else some (
                nets
                ++ record { ssid = take id_len ssid; password = take max_password_len password }
                  ∷ [])
      ]

abbrev pub password_of : Option WifiCredential → Option Text
password_of none = none
password_of (some c) = some c.password

module _ (ssid password : Text) (nets : Networks) where
  abbrev set_password : WifiCredential → WifiCredential
  set_password c = record c { password = take max_password_len password }

  keeps :
      (c : WifiCredential)
      → same_upto id_len c.ssid ssid ≡ true
      → same_upto id_len ssid (set_password c).ssid ≡ true
  keeps c h = same_upto_sym id_len c.ssid ssid h

  -- `addOrUpdate` refuses just where the store is full and the network new. Otherwise the network has
  -- the new password, cut to `kMaxWifiPasswordLen` bytes, and every other network is found as before.
  pub add_or_update_lem :
      (other : Text)
      → ((add_or_update ssid password nets ≡ none)
          × (max_wifi_networks ≤ length nets)
          × (find ssid nets ≡ none))
        ⊎ ((nets' : Networks) × (add_or_update ssid password nets ≡ some nets')
            × (password_of (find ssid nets') ≡ some (take max_password_len password))
            × ((same_upto id_len ssid other ≡ true) ⊎ (find other nets' ≡ find other nets)))
  unfolding add_or_update find Table.find
  add_or_update_lem other = elim (Option-cases (Table.find ssid_key ssid nets)) [
    | inl new ↦ elim (Bool-cases (leb max_wifi_networks (length nets))) [
      | inl full ↦ inl (
        ground (
          arith,
          modify-eq-none ssid_key ssid (λ c. record c { password = take max_password_len password })
              nets new,
        ),
        ground arith,
        new,
      )
      | inr room ↦ inr (
        nets ++ record { ssid = take id_len ssid; password = take max_password_len password } ∷ [],
        ground (
          arith,
          modify-eq-none ssid_key ssid (λ c. record c { password = take max_password_len password })
              nets new,
        ),
        ground (
          arith,
          find-append ssid_key ssid nets
              (record { ssid = take id_len ssid; password = take max_password_len password } ∷ []),
          same_upto-take id_len ssid ssid,
          same_upto_refl id_len ssid,
        ),
        ground (
          arith,
          find-append ssid_key other nets
              (record { ssid = take id_len ssid; password = take max_password_len password } ∷ []),
          same_upto-take id_len ssid other,
          Option-cases (Table.find ssid_key other nets),
        ),
      )
    ]
    | inr (c, there) ↦
        let (nets', written, found, kept) =
          find-modify ssid_key ssid set_password ssid nets c keeps there in
        inr (
          nets',
          ground arith,
          ground (arith, same_upto_refl id_len ssid),
          ground (arith, find-modify ssid_key ssid set_password other nets c keeps there),
        )
  ]
