-- ===== src/Sync/Keep.antt =====
-- The downloads and uploads of a sync leave the outbox alone, so a whole sync loses no approval.
use x4_printer.Prelude.{
  ℕ, zero, suc, ◌+◌, ◌≡◌, ◌⊎◌, Bool, true, false, ◌&&◌, List, [], ◌∷◌, Among, length, get_elem?,
  ltb, if◌then◌else◌, Option-cases, Bool-cases, inl, inr,
}
use x4_printer.Store.Jobs
use x4_printer.Store.Jobs.{JobIndex, JobEntry}
use x4_printer.Store.Outbox.{ApprovalEntry, Outbox}
use x4_printer.Sync.Requests.{
  Client, Platform, State, JobManifest, Event, pi, normal, landscape, checked, downloaded, acked,
  uploaded,
}
use x4_printer.Sync.Download.{
  has_landscape, is_none, entry_of, download, ack, store_entry, after_ack, after_landscape,
  after_normal, download_job, download_jobs, download_pending_jobs,
}
use x4_printer.Sync.Upload.{
  upload, after_upload, upload_job, upload_loop, save_changed, after_status,
  upload_pending_originals,
}
use x4_printer.Sync.Drain.{drain_approval_outbox}
use x4_printer.Sync.Approvals.{Accepted, IsSafe, drain-IsSafe}
use x4_printer.Sync.{
  PairConfig, extra_pass, connected_sync, finish, after_connect, start, run_full_sync,
}

module _ {W : Type 0} (client : Client W) (platform : Platform W) (a : ApprovalEntry) where
  -- One more event in the log.
  logged_more :
      (e : Event) (s : State W) → IsSafe a s → Among a s.outbox ⊎ Accepted a.approval_id (e ∷ s.log)
  logged_more e s (inl there) = inl there
  logged_more e s (inr done) = inr (inr done)

  after_ack-IsSafe :
      (m : JobManifest) (b : Bool) (s : State W)
      → IsSafe a s
      → IsSafe a (after_ack client platform m (b, s))
  unfolding after_ack store_entry
  after_ack-IsSafe m true s h = elim (Option-cases (Jobs.upsert (entry_of m) s.jobs)) [
    | inl failed ↦ rw (failed, store_entry) h
    | inr (jobs', done) ↦ rw (done, store_entry) h
  ]
  after_ack-IsSafe m false s h = h

  ack-IsSafe :
      (m : JobManifest) (s : State W)
      → IsSafe a s
      → IsSafe a (after_ack client platform m (ack client platform m s))
  unfolding ack
  ack-IsSafe m s h =
      let (b, s') = ack client platform m s in after_ack-IsSafe m b s' (logged_more (acked m b) s h)

  after_landscape-IsSafe :
      (m : JobManifest) (b : Bool) (s : State W)
      → IsSafe a s
      → IsSafe a (after_landscape client platform m (b, s))
  unfolding after_landscape
  after_landscape-IsSafe m true s h = ack-IsSafe m s h
  after_landscape-IsSafe m false s h = h

  either_way : (b : Bool) (x y : State W) → IsSafe a x → IsSafe a y → IsSafe a (if b then x else y)
  either_way true x y h k = h
  either_way false x y h k = k

  after_normal-IsSafe :
      (m : JobManifest) (b : Bool) (s : State W)
      → IsSafe a s
      → IsSafe a (after_normal client platform m (b, s))
  unfolding after_normal download
  after_normal-IsSafe m true s h =
      let (b, s') = download client platform m landscape s in
      either_way (has_landscape m)
        (after_landscape client platform m (download client platform m landscape s))
        (after_ack client platform m (ack client platform m s))
        (after_landscape-IsSafe m b s' (logged_more (downloaded m landscape b) s h))
        (ack-IsSafe m s h)
  after_normal-IsSafe m false s h = h

  download_job-IsSafe :
      (m : JobManifest) (s : State W) → IsSafe a s → IsSafe a (download_job client platform m s)
  unfolding download_job download
  download_job-IsSafe m s h =
      let (b, s') = download client platform m normal s in
      either_way (Jobs.full s.jobs && is_none (Jobs.find m.job_id s.jobs)) s
        (after_normal client platform m (download client platform m normal s)) h
        (after_normal-IsSafe m b s' (logged_more (downloaded m normal b) s h))

  download_jobs-IsSafe :
      (ms : List JobManifest) (s : State W)
      → IsSafe a s
      → IsSafe a (download_jobs client platform ms s)
  unfolding download_jobs
  download_jobs-IsSafe [] s h = h
  download_jobs-IsSafe (m ∷ ms) s h =
      download_jobs-IsSafe ms (download_job client platform m s) (download_job-IsSafe m s h)

  download-IsSafe : (s : State W) → IsSafe a s → IsSafe a (download_pending_jobs client platform s)
  unfolding download_pending_jobs
  download-IsSafe s h =
      let (manifests, w) = client.fetch_pending_jobs 16 s.world in
      download_jobs-IsSafe manifests (record s { world = w }) h

  after_upload-IsSafe :
      (e : JobEntry) (changed b : Bool) (s : State W)
      → IsSafe a s
      → IsSafe a (after_upload client platform e changed (b, s)).1
  unfolding after_upload
  after_upload-IsSafe e changed true s h = h
  after_upload-IsSafe e changed false s h = h

  upload_job-IsSafe :
      (e : JobEntry) (changed : Bool) (s : State W)
      → IsSafe a s
      → IsSafe a (upload_job client platform e changed s).1
  unfolding upload_job upload
  upload_job-IsSafe e changed s h = elim (Bool-cases e.original_pending) [
    | inl pending ↦
        let (b, s') = upload client platform e s in
        simp pending (after_upload-IsSafe e changed b s' (logged_more (uploaded e.job_id b) s h))
    | inr sent ↦ simp sent h
  ]

  upload_loop-IsSafe :
      (left i : ℕ) (changed : Bool) (s : State W)
      → IsSafe a s
      → IsSafe a (upload_loop client platform left i (changed, s)).1
  unfolding upload_loop
  upload_loop-IsSafe zero i changed s h = h
  upload_loop-IsSafe (suc left) i changed s h = elim (Option-cases (get_elem? s.jobs i)) [
    | inl past ↦ rw (past, upload_loop) h
    | inr (e, there) ↦
        let (changed', s') = upload_job client platform e changed s in
        rw (there, upload_loop)
          (upload_loop-IsSafe left (i + 1) changed' s' (upload_job-IsSafe e changed s h))
  ]

  save_changed-IsSafe :
      (b : Bool) (s : State W) → IsSafe a s → IsSafe a (save_changed client platform (b, s))
  unfolding save_changed
  save_changed-IsSafe true s h = h
  save_changed-IsSafe false s h = h

  after_status-IsSafe :
      (b : Bool) (s : State W) → IsSafe a s → IsSafe a (after_status client platform (b, s))
  unfolding after_status
  after_status-IsSafe true s h =
      let (b, s') = upload_loop client platform (length s.jobs) 0 (false, s) in
      save_changed-IsSafe b s' (upload_loop-IsSafe (length s.jobs) 0 false s h)
  after_status-IsSafe false s h = h

  upload-IsSafe : (s : State W) → IsSafe a s → IsSafe a (upload_pending_originals client platform s)
  unfolding upload_pending_originals
  upload-IsSafe s h =
      let (b, w) = client.status_check pi s.world in
      after_status-IsSafe b (record s { world = w; log = checked pi b ∷ s.log })
        (logged_more (checked pi b) s h)

  module _ (unsynced : a.synced ≡ false) where
    connected-IsSafe :
        (has_relay : Bool) (s : State W)
        → IsSafe a s
        → IsSafe a (connected_sync client platform has_relay s)
    unfolding connected_sync extra_pass
    connected-IsSafe has_relay s h =
        let s1 = download_pending_jobs client platform s in
        let s2 = upload_pending_originals client platform s1 in
        let s3 = drain_approval_outbox client platform has_relay s2 in
        let h3 =
          drain-IsSafe client platform a unsynced has_relay s2
            (upload-IsSafe s1 (download-IsSafe s h)) in
        either_way (ltb 0 s3.summary.approvals_synced) (download_pending_jobs client platform s3) s3
          (download-IsSafe s3 h3) h3

    after_connect-IsSafe :
        (cfg : PairConfig) (b : Bool) (s : State W)
        → IsSafe a s
        → IsSafe a (after_connect client platform cfg (b, s))
    unfolding after_connect finish
    after_connect-IsSafe cfg false s h = h
    after_connect-IsSafe cfg true s h =
        connected-IsSafe cfg.has_relay
          (record s { summary = record (s.summary) { wifi_connected = true } }) h

    -- A whole sync, whatever the network answers, loses no unsynced approval: one that is in the
    -- outbox before is in it afterwards, unless an endpoint said that its id is applied.
    pub run_full_sync-IsSafe :
        (cfg : PairConfig) (jobs : JobIndex) (outbox : Outbox) (w : W)
        → Among a outbox
        → IsSafe a (run_full_sync client platform cfg jobs outbox w)
    unfolding run_full_sync start
    run_full_sync-IsSafe cfg jobs outbox w there =
        let s = start client platform jobs outbox w in
        let (up, w') = platform.connect w in
        either_way cfg.loaded (after_connect client platform cfg (up, record s { world = w' })) s
          (after_connect-IsSafe cfg up (record s { world = w' }) (inl there)) (inl there)
