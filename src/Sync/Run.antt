-- ===== src/Sync/Run.antt =====
-- One whole sync: what holds of its log and its inbox at the end.
use x4_printer.Prelude.{Bool, true, false, ltb, Bool-cases, inl, inr}
use x4_printer.Store.Jobs
use x4_printer.Store.Jobs.{JobIndex}
use x4_printer.Store.Outbox.{Outbox}
use x4_printer.Sync.Requests.{Client, Platform, State}
use x4_printer.Sync.Download.{download_pending_jobs}
use x4_printer.Sync.Download.Sound.{download-IsSound}
use x4_printer.Sync.Upload.{upload_pending_originals}
use x4_printer.Sync.Upload.Sound.{upload-IsSound}
use x4_printer.Sync.Drain.{drain_approval_outbox}
use x4_printer.Sync.Drain.Sound.{drain-IsSound}
use x4_printer.Sync.Order.{IsSound}
use x4_printer.Sync.{
  PairConfig, extra_pass, connected_sync, finish, after_connect, start, run_full_sync,
}

module _ {W : Type 0} (client : Client W) (platform : Platform W) where
  connected-IsSound :
      (has_relay : Bool) (s : State W)
      → IsSound s
      → IsSound (connected_sync client platform has_relay s)
  unfolding connected_sync extra_pass
  connected-IsSound has_relay s sound =
      let s1 = download_pending_jobs client platform s in
      let s2 = upload_pending_originals client platform s1 in
      let s3 = drain_approval_outbox client platform has_relay s2 in
      let sound3 =
        drain-IsSound client platform has_relay s2
          (upload-IsSound client platform s1 (download-IsSound client platform s sound)) in
      elim (Bool-cases (ltb 0 s3.summary.approvals_synced)) [
        | inl again ↦ rw (again, extra_pass) (download-IsSound client platform s3 sound3)
        | inr once ↦ rw (once, extra_pass) sound3
      ]

  after_connect-IsSound :
      (cfg : PairConfig) (b : Bool) (s : State W)
      → IsSound s
      → IsSound (after_connect client platform cfg (b, s))
  unfolding after_connect finish
  after_connect-IsSound cfg false s sound = sound
  after_connect-IsSound cfg true s sound =
      let up = record s { summary = record (s.summary) { wifi_connected = true } } in
      let done =
        connected-IsSound cfg.has_relay up
          record { ordered = sound.ordered; held = sound.held; valid = sound.valid } in
      record { ordered = done.ordered; held = done.held; valid = done.valid }

  -- A whole sync, from a valid inbox, whatever the network answers: a job is acknowledged only after
  -- each of its files was downloaded and verified, a document is uploaded only after the Pi answered,
  -- an approval is submitted only to an endpoint that answered, every job whose acknowledgement was
  -- accepted is in the inbox at the end, and the inbox is valid.
  pub run_full_sync-IsSound :
      (cfg : PairConfig) (jobs : JobIndex) (outbox : Outbox) (w : W)
      → Jobs.Refine.IsValid jobs
      → IsSound (run_full_sync client platform cfg jobs outbox w)
  unfolding run_full_sync start
  run_full_sync-IsSound cfg jobs outbox w v =
      let s = start client platform jobs outbox w in
      let (up, w') = platform.connect w in
      elim (Bool-cases cfg.loaded) [
        | inl loaded ↦
            rw (loaded, run_full_sync)
              (after_connect-IsSound cfg up (record s { world = w' })
                record { ordered = tt; held = tt; valid = v })
        | inr unpaired ↦
            rw (unpaired, run_full_sync) (record { ordered = tt; held = tt; valid = v })
      ]
