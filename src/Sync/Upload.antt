-- ===== src/Sync/Upload.antt =====
-- firmware/src/sync/SyncManager.cpp: `uploadPendingOriginals`.
pub mod Sound
use x4_printer.Prelude.{
  ℕ, zero, suc, ◌+◌, Bool, true, false, not, Option, none, some, List, [], ◌∷◌, length, get_elem?,
  take, if◌then◌else◌,
}
use x4_printer.Prelude.Text.{Text}
use x4_printer.Table
use x4_printer.Table.{id_len}
use x4_printer.Store.Jobs.{JobEntry, JobIndex, job_key, title_len, path_len, mime_len}
use x4_printer.Store.Outbox.{or_same}
use x4_printer.Sync.Requests.{Client, Platform, State, pi, checked, uploaded, answered}

-- `originalPending = false`, and the fields that go with it.
abbrev pub without_original : JobEntry → JobEntry
without_original e = record e {
  original_pending = false;
  original_path = [];
  original_mime = [];
  original_bytes = 0;
}

-- The write through the pointer of `jobs_.find(jobId)`; a null pointer is not written to.
unfoldable pub clear_original : Text → JobIndex → JobIndex
clear_original k jobs = or_same (Table.modify job_key k without_original jobs) jobs

module _ {W : Type 0} (client : Client W) (platform : Platform W) where
  unfoldable pub upload : JobEntry → State W → Bool × State W
  upload e s =
      answered s
        (client.upload_original (take id_len e.job_id) (take path_len e.original_path)
          (take mime_len e.original_mime) (take title_len e.title) e.original_bytes s.world)
        (uploaded e.job_id)

  -- What follows a request, on its answer; the flag is `changed`.
  unfoldable pub after_upload : JobEntry → Bool → Bool × State W → Bool × State W
  unfolding clear_original
  after_upload e changed (false, s) = (changed, s)
  after_upload e changed (true, s) = (
    true,
    record s {
      world = platform.remove_file (take path_len e.original_path) s.world;
      jobs = clear_original (take id_len e.job_id) s.jobs;
      summary = record (s.summary) { originals_uploaded = s.summary.originals_uploaded + 1 };
    },
  )

  -- One round of the loop, on `jobs_.at(i)`.
  unfoldable pub upload_job : JobEntry → Bool → State W → Bool × State W
  unfolding after_upload upload
  upload_job e changed s =
      if e.original_pending then after_upload e changed (upload e s) else (changed, s)

  -- The loop with `left` rounds to go.
  unfoldable pub upload_loop : ℕ → ℕ → Bool × State W → Bool × State W
  unfolding upload_job
  upload_loop zero i (changed, s) = (changed, s)
  upload_loop (suc left) i (changed, s) = elim (get_elem? s.jobs i) [
    | none ↦ (changed, s)
    | some e ↦ upload_loop left (i + 1) (upload_job e changed s)
  ]

  -- `if (changed) store::saveJobIndex(jobs_);`
  unfoldable pub save_changed : Bool × State W → State W
  save_changed (true, s) = record s { world = platform.save_job_index s.jobs s.world }
  save_changed (false, s) = s

  unfoldable pub after_status : Bool × State W → State W
  unfolding upload_loop save_changed
  after_status (false, s) = s
  after_status (true, s) = save_changed (upload_loop (length s.jobs) 0 (false, s))

  unfoldable pub upload_pending_originals : State W → State W
  unfolding after_status
  upload_pending_originals s =
      after_status (answered s (client.status_check pi s.world) (checked pi))
