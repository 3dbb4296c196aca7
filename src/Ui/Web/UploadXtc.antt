-- ===== src/Ui/Web/UploadXtc.antt =====
-- firmware/src/ui/WebUiServer.cpp: POST /api/upload/xtc. A file comes in as events, and the outcome is
-- staged in members of the server until the request is complete. Opening a file makes its directory.
pub mod Refused
pub mod Staged
pub mod Accepted
use x4_printer.Prelude.{
  ℕ, ◌+◌, ◌*◌, ◌%◌, ◌^◌, Bool, true, false, not, ◌||◌, ◌==◌, ltb, Option, none, some, List, [], ◌∷◌,
  ◌++◌, length, take, if◌then◌else◌,
}
use x4_printer.Prelude.Text.{Text, codes, text_eq}
use x4_printer.Store.Card.{SdCard, save_file}
use x4_printer.Store.Json.{Json, str, flat}
use x4_printer.Table.{id_len}
use x4_printer.Store.Jobs
use x4_printer.Store.Jobs.{JobEntry, JobIndex, full, title_len, path_len}
use x4_printer.Store.Jobs.Persist.{job_index_text}
use x4_printer.Calendar.Ics.Strings.{is_empty}
use x4_printer.Net.Client.Download.{PartFile}
use x4_printer.Xtc.Access.{Access, fault, reject, ok}
use x4_printer.Xtc.Reader.{File, XtcReader, open_reader}
use x4_printer.Ui.Web.{
  Response, text, reply, Upload, WebRequest, Server, with_session, request_has_valid_session,
  mark_activity,
}

-- `UPLOAD_FILE_START`, `UPLOAD_FILE_WRITE` with its bytes, and the end or the abortion.
pub data UploadEvent : Type 0 where
  file_start : UploadEvent
  file_write : List ℕ → UploadEvent
  file_end : UploadEvent

abbrev pub max_xtc_upload_bytes : ℕ
max_xtc_upload_bytes = 512 * 1024

abbrev pub error_text : Text → Text
error_text e = if is_empty e then codes "upload_failed" else e

abbrev pub reset : Upload → Upload
reset u = record u { authorized = false; too_large = false; error = []; bytes = 0 }

abbrev pub with_xtc : {C : Type 0} → Server C → Upload × C → Server C
with_xtc s (u, c) = record s { xtc = u; card = c }

abbrev pub xtc_path_of : Text → Text
xtc_path_of job_id = take path_len (codes "/inbox/" ++ (job_id ++ codes ".xtc"))

abbrev pub opened : {C : Type 0} → Upload → Bool × C → Upload × C
opened u (true, c) = (record u { file_open = true; authorized = true }, c)
opened u (false, c) = (record u { file_open = false; error = codes "io_error" }, c)

module _ {C : Type 0} (file : PartFile C) where
  -- A write to the open file; the number of bytes that it wrote is ignored. A chunk that goes past the
  -- limit is dropped, and so is every later one.
  unfoldable pub write_chunk : ℕ → List ℕ → Upload → C → Upload × C
  write_chunk limit bs u c =
      if not u.authorized || not u.file_open
      then (u, c)
      else if ltb limit (u.bytes + length bs)
      then (record u { too_large = true }, c)
      else if u.too_large
      then (u, c)
      else (record u { bytes = u.bytes + length bs }, (file.write_part u.path bs c).1)

  -- `UPLOAD_FILE_START`
  unfoldable pub start_xtc : WebRequest → Server C → Server C
  start_xtc r s =
      let u = reset s.xtc in
      let named = record u { job_id = r.random_hex; path = xtc_path_of r.random_hex } in
      if not (request_has_valid_session r s)
      then with_xtc s (record u { error = codes "unauthorized" }, s.card)
      else if full s.jobs
      then with_xtc s (record u { error = codes "inbox_full" }, s.card)
      else with_xtc s (opened named (file.open_part named.path s.card))

  unfoldable pub handle_upload_xtc_data : WebRequest → UploadEvent → Server C → Server C
  unfolding start_xtc write_chunk
  handle_upload_xtc_data r file_start s = start_xtc r s
  handle_upload_xtc_data r (file_write bs) s =
      with_xtc s (write_chunk max_xtc_upload_bytes bs s.xtc s.card)
  handle_upload_xtc_data r file_end s = record s { xtc = record (s.xtc) { file_open = false } }

module _ {C : Type 0} (card : SdCard C) where
  -- `SdMan.remove` of the path, with a refusal.
  abbrev pub remove_xtc : Text → Server C → Server C
  remove_xtc path s = record s { card = (card.remove s.card path).1 }

  abbrev pub xtc_refused : ℕ → Text → Server C → Response × Server C
  xtc_refused code t s = (reply code (text t), remove_xtc s.xtc.path s)

module _ {C Doc Obj : Type 0} (card : SdCard C) (json : Json Doc Obj)
    (open_file : C → Text → Option File) where
  abbrev pub error_body : Text → Text
  error_body e = json.serialize (flat ((codes "error", str e) ∷ []))

  -- `strncpy` and `toCharArray` into a cleared entry.
  abbrev pub uploaded_entry : WebRequest → ℕ → Upload → JobEntry
  uploaded_entry r page_count u = record {
    job_id = take id_len u.job_id;
    title =
        take title_len
          (if is_empty (r.arg (codes "title")) then codes "Untitled" else r.arg (codes "title"));
    xtc_path = take path_len u.path;
    xtc_bytes = u.bytes;
    xtc_sha256 = [];
    page_count = page_count;
    created_at = r.now % 2 ^ 32;
    status = Jobs.downloaded;
    landscape_xtc_path = [];
    landscape_xtc_bytes = 0;
    landscape_xtc_sha256 = [];
    landscape_page_count = 0;
    original_pending = false;
    original_path = [];
    original_mime = [];
    original_bytes = 0;
  }

  abbrev added : JobEntry → Option JobIndex → Server C → Response × Server C
  added e none s = xtc_refused card 409 (codes "{\"error\":\"inbox_full\"}") s
  added e (some jobs) s = (
    reply 200 (text (json.serialize (flat ((codes "job_id", str e.job_id) ∷ [])))),
    record s {
      jobs = jobs;
      card = save_file card (codes "/inbox/index.json") (job_index_text json jobs) s.card;
    },
  )

  -- `reader.pageCount()` of a file that opens, and 0 of one that does not.
  abbrev pub pages_of : Access XtcReader → ℕ
  pages_of fault = 0
  pages_of reject = 0
  pages_of (ok reader) = reader.header.page_count

  unfoldable pub finish_xtc : WebRequest → Server C → Response × Server C
  finish_xtc r s =
      let pages = pages_of (open_reader (open_file s.card s.xtc.path)) in
      let entry = uploaded_entry r pages s.xtc in
      if s.xtc.bytes == 0
      then xtc_refused card 400 (codes "{\"error\":\"empty_upload\"}") s
      else if pages == 0
      then xtc_refused card 400 (codes "{\"error\":\"invalid_xtc\"}") s
      else added entry (Jobs.upsert entry s.jobs) s

  unfoldable pub complete_xtc : WebRequest → Server C → Response × Server C
  unfolding finish_xtc
  complete_xtc r s =
      if not s.xtc.authorized
      then xtc_refused card (if text_eq s.xtc.error (codes "inbox_full") then 409 else 400)
          (error_body (error_text s.xtc.error)) s
      else if s.xtc.too_large
      then xtc_refused card 413 (codes "{\"error\":\"too_large\"}") s
      else finish_xtc r s

  unfoldable pub handle_upload_xtc_complete : WebRequest → Server C → Response × Server C
  unfolding complete_xtc
  handle_upload_xtc_complete = with_session complete_xtc

  -- One request: its file in chunks, then the completion, which marks the activity first.
  unfoldable pub write_all : PartFile C → WebRequest → List (List ℕ) → Server C → Server C
  write_all file r [] s = s
  write_all file r (bs ∷ chunks) s =
      write_all file r chunks (handle_upload_xtc_data file r (file_write bs) s)

  unfoldable pub upload_xtc :
      PartFile C → WebRequest → List (List ℕ) → Server C → Response × Server C
  unfolding write_all
  upload_xtc file r chunks s = handle_upload_xtc_complete r (
      mark_activity (
        handle_upload_xtc_data file r file_end
          (write_all file r chunks (handle_upload_xtc_data file r file_start s))))
