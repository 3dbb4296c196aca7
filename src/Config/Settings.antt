-- ===== src/Config/Settings.antt =====
-- firmware/src/config/AppSettings: the preferences and their file. The minutes are `uint16_t`; a number
-- of the file is read as an `int` and narrowed.
use x4_printer.Prelude.{
  ℕ, ◌%◌, ◌^◌, ◌<◌, ◌≡◌, ap, ◌∙◌, Bool, false, Option, none, some, [], ◌∷◌, arith,
}
use x4_printer.Prelude.Text.{Text, codes}
use x4_printer.Store.Json.{Json, IsJson, Object, num, flag, flat, num_of}
use x4_printer.Config.File.{read_doc, read_doc-serialize}
use x4_printer.Calendar.Wake.{Settings}

pub record AppSettingsData : Type 0 where
  pub default_landscape_view : Bool
  pub calendar_wake_before_start : Bool
  pub calendar_wake_lead_minutes : ℕ
  pub calendar_wake_at_end : Bool
  pub planner_horizontal_view : Bool
  pub pomodoro_work_minutes : ℕ
  pub pomodoro_break_minutes : ℕ
  pub pomodoro_long_break_minutes : ℕ
  pub pomodoro_sessions_before_long_break : ℕ
  pub pomodoro_checkpoint_minutes : ℕ
  pub hotspot_nat_bridge_enabled : Bool

abbrev pub default_settings : AppSettingsData
default_settings = record {
  default_landscape_view = false;
  calendar_wake_before_start = false;
  calendar_wake_lead_minutes = 10;
  calendar_wake_at_end = false;
  planner_horizontal_view = false;
  pomodoro_work_minutes = 25;
  pomodoro_break_minutes = 5;
  pomodoro_long_break_minutes = 15;
  pomodoro_sessions_before_long_break = 4;
  pomodoro_checkpoint_minutes = 5;
  hotspot_nat_bridge_enabled = false;
}

-- The part that the calendar reads.
abbrev pub wake_settings : AppSettingsData → Settings
wake_settings s = record {
  wake_before_start = s.calendar_wake_before_start;
  wake_lead_minutes = s.calendar_wake_lead_minutes;
  wake_at_end = s.calendar_wake_at_end;
}

unfoldable pub settings_object : AppSettingsData → Object
settings_object s =
    (codes "default_landscape_view", flag s.default_landscape_view)
    ∷ (codes "calendar_wake_before_start", flag s.calendar_wake_before_start)
    ∷ (codes "calendar_wake_lead_minutes", num s.calendar_wake_lead_minutes)
    ∷ (codes "calendar_wake_at_end", flag s.calendar_wake_at_end)
    ∷ (codes "planner_horizontal_view", flag s.planner_horizontal_view)
    ∷ (codes "pomodoro_work_minutes", num s.pomodoro_work_minutes)
    ∷ (codes "pomodoro_break_minutes", num s.pomodoro_break_minutes)
    ∷ (codes "pomodoro_long_break_minutes", num s.pomodoro_long_break_minutes)
    ∷ (codes "pomodoro_sessions_before_long_break", num s.pomodoro_sessions_before_long_break)
    ∷ (codes "pomodoro_checkpoint_minutes", num s.pomodoro_checkpoint_minutes)
    ∷ (codes "hotspot_nat_bridge_enabled", flag s.hotspot_nat_bridge_enabled)
    ∷ []

minutes_back : (n d : ℕ) → n < 2 ^ 16 → num_of (some (num n)) d % 2 ^ 16 ≡ n
minutes_back n d h = ground arith

-- Every `uint16_t` member holds one.
pub record AreMinutes (s : AppSettingsData) : Type 0 where
  pub lead : s.calendar_wake_lead_minutes < 2 ^ 16
  pub work : s.pomodoro_work_minutes < 2 ^ 16
  pub break : s.pomodoro_break_minutes < 2 ^ 16
  pub long_break : s.pomodoro_long_break_minutes < 2 ^ 16
  pub sessions : s.pomodoro_sessions_before_long_break < 2 ^ 16
  pub checkpoint : s.pomodoro_checkpoint_minutes < 2 ^ 16

module _ {Doc Obj : Type 0} (json : Json Doc Obj) where
  -- The text that `AppSettings::save` writes.
  unfoldable pub settings_text : AppSettingsData → Text
  settings_text s = json.serialize (flat (settings_object s))

  unfoldable pub settings_of : Obj → AppSettingsData
  settings_of o = record {
    default_landscape_view = json.flag_or o (codes "default_landscape_view") false;
    calendar_wake_before_start = json.flag_or o (codes "calendar_wake_before_start") false;
    calendar_wake_lead_minutes = json.num_or o (codes "calendar_wake_lead_minutes") 10 % 2 ^ 16;
    calendar_wake_at_end = json.flag_or o (codes "calendar_wake_at_end") false;
    planner_horizontal_view = json.flag_or o (codes "planner_horizontal_view") false;
    pomodoro_work_minutes = json.num_or o (codes "pomodoro_work_minutes") 25 % 2 ^ 16;
    pomodoro_break_minutes = json.num_or o (codes "pomodoro_break_minutes") 5 % 2 ^ 16;
    pomodoro_long_break_minutes = json.num_or o (codes "pomodoro_long_break_minutes") 15 % 2 ^ 16;
    pomodoro_sessions_before_long_break =
        json.num_or o (codes "pomodoro_sessions_before_long_break") 4 % 2 ^ 16;
    pomodoro_checkpoint_minutes = json.num_or o (codes "pomodoro_checkpoint_minutes") 5 % 2 ^ 16;
    hotspot_nat_bridge_enabled = json.flag_or o (codes "hotspot_nat_bridge_enabled") false;
  }

  abbrev from_doc : Option Doc → AppSettingsData
  from_doc none = default_settings
  from_doc (some doc) = settings_of (json.root doc)

  -- `AppSettings::load`; what cannot be read leaves the defaults.
  unfoldable pub load_settings : Option Text → AppSettingsData
  load_settings file = from_doc (read_doc json file)

  module _ (ok : IsJson json) where
    settings_back :
        (s : AppSettingsData) → AreMinutes s → settings_of (ok.obj_of (settings_object s)) ≡ s
    unfolding settings_of settings_object
    settings_back s fits =
        let o = settings_object s in
        let f0 = ok.flag_read o (codes "default_landscape_view") false in
        let f1 = ok.flag_read o (codes "calendar_wake_before_start") false in
        let f2 =
          ap (λ n. n % 2 ^ 16) (ok.num_read o (codes "calendar_wake_lead_minutes") 10)
          ∙ minutes_back s.calendar_wake_lead_minutes 10 fits.lead in
        let f3 = ok.flag_read o (codes "calendar_wake_at_end") false in
        let f4 = ok.flag_read o (codes "planner_horizontal_view") false in
        let f5 =
          ap (λ n. n % 2 ^ 16) (ok.num_read o (codes "pomodoro_work_minutes") 25)
          ∙ minutes_back s.pomodoro_work_minutes 25 fits.work in
        let f6 =
          ap (λ n. n % 2 ^ 16) (ok.num_read o (codes "pomodoro_break_minutes") 5)
          ∙ minutes_back s.pomodoro_break_minutes 5 fits.break in
        let f7 =
          ap (λ n. n % 2 ^ 16) (ok.num_read o (codes "pomodoro_long_break_minutes") 15)
          ∙ minutes_back s.pomodoro_long_break_minutes 15 fits.long_break in
        let f8 =
          ap (λ n. n % 2 ^ 16) (ok.num_read o (codes "pomodoro_sessions_before_long_break") 4)
          ∙ minutes_back s.pomodoro_sessions_before_long_break 4 fits.sessions in
        let f9 =
          ap (λ n. n % 2 ^ 16) (ok.num_read o (codes "pomodoro_checkpoint_minutes") 5)
          ∙ minutes_back s.pomodoro_checkpoint_minutes 5 fits.checkpoint in
        let f10 = ok.flag_read o (codes "hotspot_nat_bridge_enabled") false in cc

    -- Settings whose minutes and counts are 16-bit numbers, as they are in the program, are loaded just
    -- as they were saved.
    pub load_settings-settings_text :
        (s : AppSettingsData) → AreMinutes s → load_settings (some (settings_text s)) ≡ s
    unfolding load_settings settings_text
    load_settings-settings_text s fits =
        ap from_doc (read_doc-serialize json ok (flat (settings_object s)))
        ∙ ap settings_of (ok.root_flat (settings_object s))
        ∙ settings_back s fits
