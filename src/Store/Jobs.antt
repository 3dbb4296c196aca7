-- ===== src/Store/Jobs.antt =====
-- firmware/src/store/JobStore.h: the print inbox, `JobEntry` and the operations of `JobIndex`.
pub mod Refine
pub mod Persist
use x4_printer.Prelude.{ℕ, Bool, Option, none, some, List, [], leb, length}
use x4_printer.Prelude.Text.{Text}
use x4_printer.Table

-- `kMaxInboxJobs`, `kTitleLen`, `kPathLen`, `kSha256Len`, and the length of `originalMime`.
abbrev pub max_inbox_jobs : ℕ
max_inbox_jobs = 64

abbrev pub title_len : ℕ
title_len = 64

abbrev pub path_len : ℕ
path_len = 48

abbrev pub sha256_len : ℕ
sha256_len = 64

abbrev pub mime_len : ℕ
mime_len = 23

-- `unnamed` is a byte from 4 on, which the cast of a number in the file can give.
pub data JobStatus : Type 0 where
  downloaded approved_print approved_keep approved_delete : JobStatus
  unnamed : ℕ → JobStatus

pub record JobEntry : Type 0 where
  pub job_id : Text
  pub title : Text
  pub xtc_path : Text
  pub xtc_bytes : ℕ
  pub xtc_sha256 : Text
  pub page_count : ℕ
  pub created_at : ℕ
  pub status : JobStatus
  pub landscape_xtc_path : Text
  pub landscape_xtc_bytes : ℕ
  pub landscape_xtc_sha256 : Text
  pub landscape_page_count : ℕ
  pub original_pending : Bool
  pub original_path : Text
  pub original_mime : Text
  pub original_bytes : ℕ

abbrev pub job_key : JobEntry → Text
job_key e = e.job_id

-- `count_` is the length of the list (see Table).
abbrev pub JobIndex : Type 0
JobIndex = List JobEntry

abbrev pub full : JobIndex → Bool
full t = leb max_inbox_jobs (length t)

unfoldable pub find : Text → JobIndex → Option JobEntry
find = Table.find job_key

-- For the operations that answer a bool, `none` is `false`, which leaves the index as it was.
unfoldable pub upsert : JobEntry → JobIndex → Option JobIndex
upsert = Table.upsert job_key max_inbox_jobs

unfoldable pub remove : Text → JobIndex → Option JobIndex
remove = Table.remove job_key

unfoldable pub set_status : Text → JobStatus → JobIndex → Option JobIndex
set_status k s = Table.modify job_key k (λ e. record e { status = s })

unfoldable pub clear : JobIndex → JobIndex
clear t = []
