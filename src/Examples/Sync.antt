-- ===== src/Examples/Sync.antt =====
-- A sync of firmware/src/sync/SyncManager.cpp against a Pi that answers every request with success.
use x4_printer.Prelude.{◌≡◌, refl, true, false, List, [], ◌∷◌, All, inl, inr, arith}
use x4_printer.Prelude.Text.{codes, same_upto}
use x4_printer.Table.{find, modify, upsert}
use x4_printer.Store.Jobs
use x4_printer.Store.Jobs.{JobEntry, JobIndex, approved_print}
use x4_printer.Store.Outbox.{ApprovalEntry, print, mark_synced, compact_synced}
use x4_printer.Sync.{PairConfig, run_full_sync}
use x4_printer.Sync.Requests.{Client, Platform, State, JobManifest, no_summary}
use x4_printer.Sync.Download.{entry_of, download_pending_jobs}
use x4_printer.Sync.Upload.{upload_pending_originals}
use x4_printer.Sync.Drain.{drain_approval_outbox, waits}
use x4_printer.Sync.Order.{IsSound}
use x4_printer.Sync.Run.{run_full_sync-IsSound}
use x4_printer.Sync.Approvals.{IsSafe}
use x4_printer.Sync.Keep.{run_full_sync-IsSafe}
use x4_printer.Sync.Drain.Guard.{IsAllowed, drain_submits-IsAllowed}

-- The world is the list of manifests that the Pi still offers.
abbrev World : Type 0
World = List JobManifest

abbrev client : Client World
client = record {
  status_check = λ endpoint w. (true, w);
  fetch_pending_jobs = λ n w. (w, []);
  download_job_to_sd = λ k path sha bytes v w. (true, w);
  ack_job = λ k sha lsha w. (true, w);
  upload_original = λ k path mime title bytes w. (true, w);
  submit_approval =
      λ e endpoint w. (record { network_ok = true; applied = true; already_applied = false }, w);
}

abbrev platform : Platform World
platform = record {
  connect = λ w. (true, w);
  disconnect = λ w. w;
  remove_file = λ path w. w;
  save_job_index = λ jobs w. w;
  save_approval_outbox = λ o w. w;
  sync_device_config = λ w. w;
  sync_clock = λ w. w;
  sync_calendars = λ w. w;
}

abbrev manifest : JobManifest
manifest = record {
  job_id = codes "j1";
  title = codes "Ticket";
  created_at = 7;
  xtc_bytes = 56;
  xtc_sha256 = codes "ab";
  page_count = 1;
  landscape_xtc_bytes = 56;
  landscape_xtc_sha256 = codes "cd";
  landscape_page_count = 1;
}

abbrev approval : ApprovalEntry
approval = record {
  approval_id = codes "a1";
  job_id = codes "j1";
  action = print;
  created_at = 8;
  synced = false;
}

-- A job of the device itself, whose document the Pi does not have yet, and its approval.
abbrev local_job : JobEntry
local_job = record (entry_of (record manifest { job_id = codes "j2" })) {
  original_pending = true;
  original_path = codes "/inbox/j2.orig";
}

abbrev local_approval : ApprovalEntry
local_approval = record approval { approval_id = codes "a2"; job_id = codes "j2" }

abbrev paired : PairConfig
paired = record { loaded = true; has_relay = true }

abbrev before : State World
before = record {
  jobs = local_job ∷ [];
  outbox = approval ∷ local_approval ∷ [];
  summary = no_summary;
  world = [];
  log = [];
}

-- The offered job arrives, and its approval, which was made before, is synced.
sync_once :
    let s = run_full_sync client platform paired [] (approval ∷ []) (manifest ∷ []) in
    (s.jobs ≡ entry_of manifest ∷ []) × (s.outbox ≡ []) × (s.summary.approvals_synced ≡ 1)
unfolding run_full_sync drain_approval_outbox upload_pending_originals download_pending_jobs
    Jobs.upsert upsert Jobs.find find same_upto mark_synced compact_synced waits
sync_once = (refl, refl, refl)

-- The approval of the local job waits.
drain_once : (drain_approval_outbox client platform true before).outbox ≡ local_approval ∷ []
unfolding drain_approval_outbox Jobs.find find same_upto mark_synced compact_synced waits modify
drain_once = refl

run_full_sync-IsSound_example :
    IsSound (run_full_sync client platform paired [] (approval ∷ []) (manifest ∷ []))
run_full_sync-IsSound_example =
    run_full_sync-IsSound client platform paired [] (approval ∷ []) (manifest ∷ [])
      record { fits = omega arith; apart = tt }

run_full_sync-IsSafe_example :
    IsSafe local_approval
      (run_full_sync client platform paired [] (approval ∷ local_approval ∷ []) (manifest ∷ []))
run_full_sync-IsSafe_example =
    run_full_sync-IsSafe client platform local_approval refl paired []
      (approval ∷ local_approval ∷ []) (manifest ∷ []) (inr (inl refl))

drain_submits-IsAllowed_example :
    let s = drain_approval_outbox client platform true before in
    (s.jobs ≡ before.jobs) × All (IsAllowed before.jobs) s.log
drain_submits-IsAllowed_example = drain_submits-IsAllowed client platform true before refl
