-- ===== src/Sync/Requests.antt =====
-- firmware/src/net/SyncClient.h and firmware/src/sync/SyncManager.h: what a sync asks of the network
-- and of the device, and the state that it works on. A request takes the state of the world and
-- gives an answer and the world after it, so an answer may differ from one request to the next. The
-- log, last event first, is the model's: it records the requests and their answers.
use x4_printer.Prelude.{ℕ, Bool, false, Option, List, ◌∷◌}
use x4_printer.Prelude.Text.{Text}
use x4_printer.Store.Jobs.{JobIndex}
use x4_printer.Store.Outbox.{ApprovalEntry, Outbox}

pub data Endpoint : Type 0 where
  pi relay : Endpoint

pub record JobManifest : Type 0 where
  pub job_id : Text
  pub title : Text
  pub created_at : ℕ
  pub xtc_bytes : ℕ
  pub xtc_sha256 : Text
  pub page_count : ℕ
  pub landscape_xtc_bytes : ℕ
  pub landscape_xtc_sha256 : Text
  pub landscape_page_count : ℕ

pub record ApprovalSubmitResult : Type 0 where
  pub network_ok : Bool
  pub applied : Bool
  pub already_applied : Bool

-- The `variant` argument of `downloadJobToSd`: null, or "landscape".
pub data Variant : Type 0 where
  normal landscape : Variant

-- The requests of `net::SyncClient`. `fetch_pending_jobs` gives the manifests it wrote, none of them
-- where the source's count is negative.
pub record Client (W : Type 0) : Type 0 where
  pub status_check : Endpoint → W → Bool × W
  pub fetch_pending_jobs : ℕ → W → List JobManifest × W
  pub download_job_to_sd : Text → Text → Text → ℕ → Variant → W → Bool × W
  pub ack_job : Text → Text → Option Text → W → Bool × W
  pub upload_original : Text → Text → Text → Text → ℕ → W → Bool × W
  pub submit_approval : ApprovalEntry → Endpoint → W → ApprovalSubmitResult × W

-- The rest of what `SyncManager` calls: Wi-Fi, the SD card, the stores' files, and the calendar side.
pub record Platform (W : Type 0) : Type 0 where
  pub connect : W → Bool × W
  pub disconnect : W → W
  pub remove_file : Text → W → W
  pub save_job_index : JobIndex → W → W
  pub save_approval_outbox : Outbox → W → W
  pub sync_device_config : W → W
  pub sync_clock : W → W
  pub sync_calendars : W → W

pub record SyncSummary : Type 0 where
  pub wifi_connected : Bool
  pub new_jobs_downloaded : ℕ
  pub jobs_failed_verification : ℕ
  pub approvals_synced : ℕ
  pub approvals_failed_sync : ℕ
  pub used_relay : Bool
  pub originals_uploaded : ℕ

abbrev pub no_summary : SyncSummary
no_summary = record {
  wifi_connected = false;
  new_jobs_downloaded = 0;
  jobs_failed_verification = 0;
  approvals_synced = 0;
  approvals_failed_sync = 0;
  used_relay = false;
  originals_uploaded = 0;
}

pub data Event : Type 0 where
  checked : Endpoint → Bool → Event
  downloaded : JobManifest → Variant → Bool → Event
  acked : JobManifest → Bool → Event
  uploaded : Text → Bool → Event
  submitted : ApprovalEntry → Endpoint → Bool → Event

-- `jobs_`, `outbox_` and `summary`, with the world and the log.
pub record State (W : Type 0) : Type 0 where
  pub jobs : JobIndex
  pub outbox : Outbox
  pub summary : SyncSummary
  pub world : W
  pub log : List Event

-- An answer, with its event logged.
abbrev pub answered : {W : Type 0} → State W → Bool × W → (Bool → Event) → Bool × State W
answered s (b, w) event = (b, record s { world = w; log = event b ∷ s.log })
