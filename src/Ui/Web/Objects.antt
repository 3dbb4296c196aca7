-- ===== src/Ui/Web/Objects.antt =====
-- firmware/src/ui/WebUiServer.cpp: what the lists and the status show, as JSON. `gmtime_r` and
-- `strftime`, the signal strength and what the diagnostics measure are parameters.
use x4_printer.Prelude.{
  ℕ, ◌-◌, ◌+◌, Bool, true, false, Option, none, some, List, [], ◌∷◌, ◌++◌, map, length,
  if◌then◌else◌,
}
use x4_printer.Prelude.Int.{ℤ}
use x4_printer.Prelude.Text.{Text, codes}
use x4_printer.Store.Json.{Object, str, num, flag, int_value}
use x4_printer.Store.Jobs.{
  JobStatus, downloaded, approved_print, approved_keep, approved_delete, unnamed, JobEntry,
  JobIndex,
}
use x4_printer.Store.Outbox.{Outbox, has_pending_for_job, count_unsynced}
use x4_printer.Store.Planner.{TaskEntry, TaskIndex, category_name}
use x4_printer.Config.Device.{DeviceConfigData}
use x4_printer.Calendar.Wake.{NextEventInfo}
use x4_printer.Calendar.Ics.Strings.{is_empty}
use x4_printer.Ui.Web.{WebUiMode, station, hotspot, Server}

unfoldable pub job_status_label : JobStatus → Text
job_status_label downloaded = codes "New"
job_status_label approved_print = codes "Printing"
job_status_label approved_keep = codes "Kept"
job_status_label approved_delete = codes "Deleted"
job_status_label (unnamed n) = codes "Unknown"

-- What the diagnostics and the status measure.
pub record Measured : Type 0 where
  pub panel_width : ℕ
  pub panel_height : ℕ
  pub uptime_seconds : ℕ
  pub sd_total : ℕ
  pub sd_used : ℕ
  pub battery_percent : Option ℕ
  pub battery_millivolts : Option ℕ
  pub heap_free : ℕ
  pub wifi_rssi : ℤ

abbrev optional : Text → Option ℕ → Object
optional k none = []
optional k (some n) = (k, num n) ∷ []

abbrev device_name : DeviceConfigData → Text
device_name cfg = if is_empty cfg.device_name then codes "Focusink" else cfg.device_name

abbrev is_new : JobStatus → Bool
is_new downloaded = true
is_new s = false

abbrev is_deleted : JobStatus → Bool
is_deleted approved_delete = true
is_deleted s = false

unfoldable pub unread_count : JobIndex → ℕ
unread_count [] = 0
unread_count (e ∷ es) = let rest = unread_count es in if is_new e.status then rest + 1 else rest

abbrev mode_name : WebUiMode → Text
mode_name hotspot = codes "hotspot"
mode_name m = codes "station"

abbrev console_field : DeviceConfigData → Object
console_field cfg =
    if cfg.has_admin_console
    then (codes "pi_admin_base_url", str cfg.pi_admin_base_url) ∷ []
    else []

abbrev station_fields : WebUiMode → DeviceConfigData → ℤ → Object
station_fields station cfg rssi = console_field cfg ++ (codes "wifi_rssi", int_value rssi) ∷ []
station_fields m cfg rssi = []

unfoldable pub status_object : {C : Type 0} → Measured → Server C → Object
status_object m s =
    (codes "device_name", str (device_name s.config))
    ∷ (codes "mode", str (mode_name s.mode))
    ∷ (codes "job_count", num (length s.jobs))
    ∷ (codes "unread_count", num (unread_count s.jobs))
    ∷ (codes "outbox_pending", num (count_unsynced s.outbox))
    ∷ (codes "device_id", str s.config.device_id)
    ∷ station_fields s.mode s.config m.wifi_rssi

unfoldable pub diag_object : Measured → DeviceConfigData → Object
diag_object m cfg =
    (codes "device_name", str (device_name cfg))
    ∷ (codes "device_id", str cfg.device_id)
    ∷ (codes "panel_width", num m.panel_width)
    ∷ (codes "panel_height", num m.panel_height)
    ∷ (codes "uptime_seconds", num m.uptime_seconds)
    ∷ (codes "sd_total_bytes", num m.sd_total)
    ∷ (codes "sd_free_bytes", num (m.sd_total - m.sd_used))
    ∷ (optional (codes "battery_percent") m.battery_percent
        ++ optional (codes "battery_millivolts") m.battery_millivolts
        ++ (codes "heap_free_bytes", num m.heap_free) ∷ [])

abbrev task_row : TaskEntry → Object
task_row t =
    (codes "id", str t.id)
    ∷ (codes "title", str t.title)
    ∷ (codes "category", str (category_name t.category))
    ∷ (codes "start_time", str t.start_time)
    ∷ (codes "end_time", str t.end_time)
    ∷ (codes "done", flag t.done)
    ∷ (codes "source", str (codes "task"))
    ∷ []

abbrev event_row : Text → NextEventInfo → Object
event_row hm event =
    (codes "id", str (codes "calendar"))
    ∷ (codes "title", str event.title)
    ∷ (codes "category", str (codes "Other"))
    ∷ (codes "start_time", str hm)
    ∷ (codes "end_time", str hm)
    ∷ (codes "done", flag false)
    ∷ (codes "source", str (codes "calendar"))
    ∷ []

unfoldable pub task_rows : (ℤ → Text) → TaskIndex → NextEventInfo → List Object
task_rows utc_hm tasks event =
    map task_row tasks
    ++ (if event.has_event then event_row (utc_hm event.start) event ∷ [] else [])

abbrev job_row : Outbox → JobEntry → Object
job_row outbox e =
    (codes "job_id", str e.job_id)
    ∷ (codes "title", str e.title)
    ∷ (codes "page_count", num e.page_count)
    ∷ (codes "status", str (job_status_label e.status))
    ∷ (codes "xtc_bytes", num e.xtc_bytes)
    ∷ (codes "xtc_sha256", str e.xtc_sha256)
    ∷ (codes "created_at", num e.created_at)
    ∷ (codes "pending_approval", flag (has_pending_for_job e.job_id outbox))
    ∷ (codes "original_pending", flag e.original_pending)
    ∷ []

-- A deleted job is hidden.
unfoldable pub job_rows : Outbox → JobIndex → List Object
job_rows outbox [] = []
job_rows outbox (e ∷ es) =
    let rest = job_rows outbox es in if is_deleted e.status then rest else job_row outbox e ∷ rest
