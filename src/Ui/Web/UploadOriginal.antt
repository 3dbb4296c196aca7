-- ===== src/Ui/Web/UploadOriginal.antt =====
-- firmware/src/ui/WebUiServer.cpp: POST /api/upload/original, the image that a job was made of. The
-- events and the write of a chunk are those of UploadXtc.
use x4_printer.Prelude.{
  ℕ, ◌*◌, true, false, not, ◌==◌, Option, none, some, [], ◌∷◌, ◌++◌, take, if◌then◌else◌,
}
use x4_printer.Prelude.Text.{Text, codes, text_eq}
use x4_printer.Table.{id_len, modify}
use x4_printer.Store.Card.{SdCard, save_file}
use x4_printer.Store.Json.{Json, str, flat}
use x4_printer.Store.Jobs
use x4_printer.Store.Jobs.{JobEntry, JobIndex, job_key, path_len, mime_len}
use x4_printer.Store.Jobs.Persist.{job_index_text}
use x4_printer.Calendar.Ics.Strings.{is_empty}
use x4_printer.Net.Client.Download.{PartFile}
use x4_printer.Ui.Web.{
  Response, text, reply, Upload, WebRequest, Server, with_session, request_has_valid_session,
}
use x4_printer.Ui.Web.UploadXtc.{
  UploadEvent, file_start, file_write, file_end, reset, opened, write_chunk, error_text,
}

abbrev pub max_original_upload_bytes : ℕ
max_original_upload_bytes = 20 * 1024 * 1024

-- The extension for a type of image; none for any other type.
abbrev pub ext_of : Text → Option Text
ext_of mime =
    if text_eq mime (codes "image/jpeg")
    then some (codes "jpg")
    else if text_eq mime (codes "image/png")
    then some (codes "png")
    else none

abbrev pub original_path_of : Text → Text → Text
original_path_of job_id ext = take path_len (codes "/inbox/" ++ (job_id ++ (codes "_orig." ++ ext)))

abbrev pub with_original : {C : Type 0} → Server C → Upload × C → Server C
with_original s (u, c) = record s { original = u; card = c }

module _ {C : Type 0} (file : PartFile C) where
  abbrev start_error : Text → Server C → Server C
  start_error e s = with_original s (record (reset s.original) { error = e }, s.card)

  abbrev named : Text → Text → Text → Upload → Upload
  named job_id mime ext u = record u {
    job_id = take id_len job_id;
    mime = take mime_len mime;
    path = original_path_of (take id_len job_id) ext;
  }

  abbrev start_image : Text → Text → Option Text → Server C → Server C
  start_image job_id mime none s = start_error (codes "unsupported_mime") s
  start_image job_id mime (some ext) s =
      let u = named job_id mime ext (reset s.original) in
      with_original s (opened u (file.open_part u.path s.card))

  abbrev start_for : Text → Text → Option JobEntry → Server C → Server C
  start_for job_id mime none s = start_error (codes "unknown_job") s
  start_for job_id mime (some e) s = start_image job_id mime (ext_of mime) s

  -- `UPLOAD_FILE_START`
  unfoldable pub start_original : WebRequest → Server C → Server C
  start_original r s =
      let job_id = r.arg (codes "job_id") in
      if not (request_has_valid_session r s)
      then start_error (codes "unauthorized") s
      else start_for job_id (r.arg (codes "mime")) (Jobs.find job_id s.jobs) s

  unfoldable pub handle_upload_original_data : WebRequest → UploadEvent → Server C → Server C
  unfolding start_original
  handle_upload_original_data r file_start s = start_original r s
  handle_upload_original_data r (file_write bs) s =
      with_original s (write_chunk file max_original_upload_bytes bs s.original s.card)
  handle_upload_original_data r file_end s = record s {
    original = record (s.original) { file_open = false };
  }

module _ {C Doc Obj : Type 0} (card : SdCard C) (json : Json Doc Obj) where
  abbrev error_body : Text → Text
  error_body e = json.serialize (flat ((codes "error", str e) ∷ []))

  -- `SdMan.remove` of the path, with a refusal.
  abbrev refused : ℕ → Text → Server C → Response × Server C
  refused code t s =
      (reply code (text t), record s { card = (card.remove s.card s.original.path).1 })

  -- Without a path there is nothing to remove.
  abbrev not_started : ℕ → Text → Server C → Response × Server C
  not_started code t s =
      if is_empty s.original.path then (reply code (text t), s) else refused code t s

  -- A write through the pointer that `find` gave, in an entry that has room for the texts.
  abbrev attach_to : Upload → JobEntry → JobEntry
  attach_to u e = record e {
    original_pending = true;
    original_path = take path_len u.path;
    original_mime = take mime_len u.mime;
    original_bytes = u.bytes;
  }

  abbrev attached : Option JobIndex → Server C → Response × Server C
  attached none s = refused 404 (codes "{\"error\":\"unknown_job\"}") s
  attached (some jobs) s = (
    reply 200 (text (codes "{\"status\":\"ok\"}")),
    record s {
      jobs = jobs;
      card = save_file card (codes "/inbox/index.json") (job_index_text json jobs) s.card;
    },
  )

  unfoldable pub complete_original : WebRequest → Server C → Response × Server C
  complete_original r s =
      let u = s.original in
      if not u.authorized
      then not_started (if text_eq u.error (codes "unknown_job") then 404 else 400)
          (error_body (error_text u.error)) s
      else if u.too_large
      then refused 413 (codes "{\"error\":\"too_large\"}") s
      else if u.bytes == 0
      then refused 400 (codes "{\"error\":\"empty_upload\"}") s
      else attached (modify job_key u.job_id (attach_to u) s.jobs) s

  unfoldable pub handle_upload_original_complete : WebRequest → Server C → Response × Server C
  unfolding complete_original
  handle_upload_original_complete = with_session complete_original
