-- ===== src/Sync.antt =====
-- firmware/src/sync/SyncManager.cpp: one sync, from Wi-Fi up to Wi-Fi down.
pub mod Requests
pub mod Download
pub mod Upload
pub mod Drain
pub mod Order
pub mod Approvals
pub mod Run
pub mod Keep
pub mod Config
use x4_printer.Prelude.{Bool, true, false, [], ltb, if◌then◌else◌}
use x4_printer.Store.Jobs.{JobIndex}
use x4_printer.Store.Outbox.{Outbox}
use x4_printer.Sync.Requests.{Client, Platform, State, SyncSummary, no_summary}
use x4_printer.Sync.Download.{download_pending_jobs}
use x4_printer.Sync.Upload.{upload_pending_originals}
use x4_printer.Sync.Drain.{drain_approval_outbox}

-- The fields of `DeviceConfigData` that `runFullSync` reads.
pub record PairConfig : Type 0 where
  pub loaded : Bool
  pub has_relay : Bool

module _ {W : Type 0} (client : Client W) (platform : Platform W) where
  -- One more pass if an approval was synced.
  unfoldable pub extra_pass : State W → State W
  extra_pass s =
      if ltb 0 s.summary.approvals_synced then download_pending_jobs client platform s else s

  -- What runs while Wi-Fi is up.
  unfoldable pub connected_sync : Bool → State W → State W
  unfolding extra_pass
  connected_sync has_relay s = extra_pass (
      drain_approval_outbox client platform has_relay
        (upload_pending_originals client platform (download_pending_jobs client platform s)))

  -- `syncDeviceConfig`, the clock, the calendars, and the disconnection.
  unfoldable pub finish : State W → State W
  finish s = record s {
    world =
        platform.disconnect
          (platform.sync_calendars (platform.sync_clock (platform.sync_device_config s.world)));
  }

  unfoldable pub after_connect : PairConfig → Bool × State W → State W
  unfolding finish connected_sync
  after_connect cfg (false, s) = s
  after_connect cfg (true, s) = finish (
      connected_sync cfg.has_relay
        (record s { summary = record (s.summary) { wifi_connected = true } }))

  unfoldable pub start : JobIndex → Outbox → W → State W
  start jobs outbox w = record {
    jobs = jobs;
    outbox = outbox;
    summary = no_summary;
    world = w;
    log = [];
  }

  unfoldable pub run_full_sync : PairConfig → JobIndex → Outbox → W → State W
  unfolding after_connect start
  run_full_sync cfg jobs outbox w =
      let s = start jobs outbox w in
      let (up, w') = platform.connect w in
      if cfg.loaded then after_connect cfg (up, record s { world = w' }) else s
