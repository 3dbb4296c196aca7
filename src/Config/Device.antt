-- ===== src/Config/Device.antt =====
-- firmware/src/config/DeviceConfig: the pairing, read from the card and never written. `is_str` is
-- ArduinoJson's `is<const char*>()` on a member.
use x4_printer.Prelude.{
  ℕ, ◌-◌, ◌≡◌, ◌⊎◌, inl, inr, refl, Bool, true, false, ◌&&◌, not, Option, none, some, [], take,
  if◌then◌else◌, arith, Bool-cases, Option-cases,
}
use x4_printer.Prelude.Text.{Text, codes}
use x4_printer.Store.Json.{Json}
use x4_printer.Config.File.{read_doc}

abbrev pub max_url_len : ℕ
max_url_len = 128

abbrev pub max_token_len : ℕ
max_token_len = 80

abbrev pub max_id_len : ℕ
max_id_len = 40

abbrev pub max_name_len : ℕ
max_name_len = 64

pub record DeviceConfigData : Type 0 where
  pub loaded : Bool
  pub device_id : Text
  pub device_token : Text
  pub device_name : Text
  pub pi_base_url : Text
  pub has_relay : Bool
  pub relay_base_url : Text
  pub relay_account_id : Text
  pub relay_account_token : Text
  pub has_admin_console : Bool
  pub pi_admin_base_url : Text

abbrev pub no_config : DeviceConfigData
no_config = record {
  loaded = false;
  device_id = [];
  device_token = [];
  device_name = [];
  pi_base_url = [];
  has_relay = false;
  relay_base_url = [];
  relay_account_id = [];
  relay_account_token = [];
  has_admin_console = false;
  pi_admin_base_url = [];
}

module _ {Doc Obj : Type 0} (json : Json Doc Obj) (is_str : Obj → Text → Bool) where
  -- `copyField` into a buffer of `size` bytes.
  abbrev pub copy_field : ℕ → Obj → Text → Text
  copy_field size o key = take (size - 1) (json.str_or o key [])

  unfoldable pub required : Obj → Bool
  required o =
      is_str o (codes "device_id")
      && is_str o (codes "device_token")
      && is_str o (codes "pi_base_url")

  unfoldable pub with_relay : Obj → DeviceConfigData → DeviceConfigData
  with_relay o d =
      if is_str o (codes "relay_base_url")
        && is_str o (codes "relay_account_id")
        && is_str o (codes "relay_account_token")
      then record d {
        has_relay = true;
        relay_base_url = copy_field max_url_len o (codes "relay_base_url");
        relay_account_id = copy_field max_id_len o (codes "relay_account_id");
        relay_account_token = copy_field max_token_len o (codes "relay_account_token");
      }
      else d

  unfoldable pub with_admin_console : Obj → DeviceConfigData → DeviceConfigData
  with_admin_console o d =
      if is_str o (codes "pi_admin_base_url")
      then record d {
        has_admin_console = true;
        pi_admin_base_url = copy_field max_url_len o (codes "pi_admin_base_url");
      }
      else d

  unfoldable pub config_from : Obj → Bool × DeviceConfigData
  unfolding with_relay with_admin_console
  config_from o = if not (required o) then (false, no_config) else (
    true,
    record (with_admin_console o (
        with_relay o (record no_config {
          device_id = copy_field max_id_len o (codes "device_id");
          device_token = copy_field max_token_len o (codes "device_token");
          pi_base_url = copy_field max_url_len o (codes "pi_base_url");
          device_name = copy_field max_name_len o (codes "device_name");
        }))) { loaded = true },
  )

  abbrev from_doc : Option Doc → Bool × DeviceConfigData
  from_doc none = (false, no_config)
  from_doc (some doc) = config_from (json.root doc)

  -- `DeviceConfig::load`: its answer and the data.
  unfoldable pub load_config : Option Text → Bool × DeviceConfigData
  load_config file = from_doc (read_doc json file)

  -- Either the answer is true, the file is a document with the three required texts, and the pairing is
  -- marked loaded with the file's id, token and address, each cut to its buffer; or the answer is false
  -- and nothing at all is taken from the file, the relay and the console included.
  pub load_config_lem :
      (file : Option Text)
      → ((doc : Doc) × (read_doc json file ≡ some doc)
          × (required (json.root doc) ≡ true)
          × ((load_config file).0 ≡ true)
          × ((load_config file).1.loaded ≡ true)
          × ((load_config file).1.device_id
              ≡ copy_field max_id_len (json.root doc) (codes "device_id"))
          × ((load_config file).1.device_token
              ≡ copy_field max_token_len (json.root doc) (codes "device_token"))
          × ((load_config file).1.pi_base_url
              ≡ copy_field max_url_len (json.root doc) (codes "pi_base_url")))
        ⊎ (load_config file ≡ (false, no_config))
  unfolding load_config config_from with_relay with_admin_console
  load_config_lem file = elim (Option-cases (read_doc json file)) [
    | inl bad ↦ inr (rw bad refl)
    | inr (doc, read) ↦ elim (Bool-cases (required (json.root doc))) [
      | inl there ↦
          inl
            (doc, read, there, ground arith, ground arith, ground arith, ground arith, ground arith)
      | inr missing ↦ inr (rw (read, missing) refl)
    ]
  ]
