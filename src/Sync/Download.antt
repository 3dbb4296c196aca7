-- ===== src/Sync/Download.antt =====
-- firmware/src/sync/SyncManager.cpp: `downloadPendingJobs`.
pub mod Sound
use x4_printer.Prelude.{
  ℕ, ◌+◌, Bool, true, false, not, ◌&&◌, Option, none, some, List, [], ◌∷◌, ◌++◌, take,
  if◌then◌else◌,
}
use x4_printer.Prelude.Text.{Text, codes, text_eq}
use x4_printer.Table.{id_len}
use x4_printer.Store.Jobs
use x4_printer.Store.Jobs.{JobEntry, title_len, path_len, sha256_len}
use x4_printer.Sync.Requests.{
  Client, Platform, State, JobManifest, SyncSummary, Variant, normal, landscape, downloaded, acked,
  answered,
}

abbrev pub sync_batch_size : ℕ
sync_batch_size = 16

abbrev pub has_landscape : JobManifest → Bool
has_landscape m = not (text_eq m.landscape_xtc_sha256 [])

abbrev pub dest_path : JobManifest → Variant → Text
dest_path m normal = codes "/inbox/" ++ (m.job_id ++ codes ".xtc")
dest_path m landscape = codes "/inbox/" ++ (m.job_id ++ codes "_l.xtc")

abbrev pub when_landscape {ℓ} : {A : Type ℓ} → JobManifest → A → A → A
when_landscape m a b = if has_landscape m then a else b

-- The entry that the loop builds, from a zeroed one; its status is `JobStatus::Downloaded`.
abbrev pub entry_of : JobManifest → JobEntry
entry_of m = record {
  job_id = take id_len m.job_id;
  title = take title_len m.title;
  xtc_path = take path_len (dest_path m normal);
  xtc_bytes = m.xtc_bytes;
  xtc_sha256 = take sha256_len m.xtc_sha256;
  page_count = m.page_count;
  created_at = m.created_at;
  status = Jobs.downloaded;
  landscape_xtc_path = when_landscape m (take path_len (dest_path m landscape)) [];
  landscape_xtc_bytes = when_landscape m m.landscape_xtc_bytes 0;
  landscape_xtc_sha256 = when_landscape m (take sha256_len m.landscape_xtc_sha256) [];
  landscape_page_count = when_landscape m m.landscape_page_count 0;
  original_pending = false;
  original_path = [];
  original_mime = [];
  original_bytes = 0;
}

abbrev pub is_none {ℓ} : {A : Type ℓ} → Option A → Bool
is_none none = true
is_none (some a) = false

abbrev pub failed_verification : {W : Type 0} → State W → State W
failed_verification s = record s {
  summary = record (s.summary) {
    jobs_failed_verification = s.summary.jobs_failed_verification + 1;
  };
}

module _ {W : Type 0} (client : Client W) (platform : Platform W) where
  unfoldable pub download : JobManifest → Variant → State W → Bool × State W
  download m normal s =
      answered s
        (client.download_job_to_sd m.job_id (dest_path m normal) m.xtc_sha256 m.xtc_bytes normal
          s.world)
        (downloaded m normal)
  download m landscape s =
      answered s
        (client.download_job_to_sd m.job_id (dest_path m landscape) m.landscape_xtc_sha256
          m.landscape_xtc_bytes landscape s.world)
        (downloaded m landscape)

  unfoldable pub ack : JobManifest → State W → Bool × State W
  ack m s =
      answered s
        (client.ack_job m.job_id m.xtc_sha256 (when_landscape m (some m.landscape_xtc_sha256) none)
          s.world)
        (acked m)

  -- `jobs_.upsert(entry)`, and what hangs on its answer.
  unfoldable pub store_entry : JobManifest → State W → State W
  store_entry m s = elim (Jobs.upsert (entry_of m) s.jobs) [
    | none ↦ s
    | some jobs ↦ record s {
      jobs = jobs;
      summary = record (s.summary) { new_jobs_downloaded = s.summary.new_jobs_downloaded + 1 };
      world = platform.save_job_index jobs s.world;
    }
  ]

  -- What follows a request, on its answer: `false` is the `continue` of the loop.
  unfoldable pub after_ack : JobManifest → Bool × State W → State W
  unfolding store_entry
  after_ack m (true, s) = store_entry m s
  after_ack m (false, s) = failed_verification s

  unfoldable pub after_landscape : JobManifest → Bool × State W → State W
  unfolding after_ack ack
  after_landscape m (true, s) = after_ack m (ack m s)
  after_landscape m (false, s) = failed_verification s

  unfoldable pub after_normal : JobManifest → Bool × State W → State W
  unfolding after_landscape download ack after_ack
  after_normal m (true, s) =
      if has_landscape m then after_landscape m (download m landscape s) else after_ack m (ack m s)
  after_normal m (false, s) = failed_verification s

  -- One round of the loop.
  unfoldable pub download_job : JobManifest → State W → State W
  unfolding after_normal download
  download_job m s =
      if Jobs.full s.jobs && is_none (Jobs.find m.job_id s.jobs)
      then s
      else after_normal m (download m normal s)

  unfoldable pub download_jobs : List JobManifest → State W → State W
  unfolding download_job
  download_jobs [] s = s
  download_jobs (m ∷ ms) s = download_jobs ms (download_job m s)

  unfoldable pub download_pending_jobs : State W → State W
  unfolding download_jobs
  download_pending_jobs s =
      let (manifests, w) = client.fetch_pending_jobs sync_batch_size s.world in
      download_jobs manifests (record s { world = w })
