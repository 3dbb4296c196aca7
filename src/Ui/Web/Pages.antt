-- ===== src/Ui/Web/Pages.antt =====
-- firmware/src/ui/WebUiServer.cpp: the pages, the lists and the approvals. The reading of a file is a
-- parameter.
use x4_printer.Prelude.{
  ℕ, ◌-◌, ◌%◌, ◌^◌, not, ◌==◌, Option, none, some, List, [], ◌∷◌, ◌++◌, length, if◌then◌else◌,
}
use x4_printer.Prelude.Int.{ℤ}
use x4_printer.Prelude.Text.{Text, codes}
use x4_printer.Store.Card.{SdCard, save_file}
use x4_printer.Store.Json.{Json, str, flat, rows}
use x4_printer.Store.Jobs
use x4_printer.Store.Jobs.{
  JobStatus, downloaded, approved_print, approved_keep, approved_delete, unnamed, JobEntry,
  JobIndex,
}
use x4_printer.Store.Jobs.Persist.{job_index_text}
use x4_printer.Store.Outbox.{
  Outbox, ApprovalAction, EnqueueResult, ok, unknown_job, outbox_full, parse_approval_action,
  enqueue_approval,
}
use x4_printer.Store.Outbox.Persist.{outbox_text}
use x4_printer.Calendar.Ics.Strings.{is_empty}
use x4_printer.Ui.Web.{
  Page, login_page, job_list_page, planner_page, Response, text, page, bytes, reply, WebRequest,
  Server, with_session, request_has_valid_session,
}
use x4_printer.Ui.Web.Objects.{Measured, status_object, diag_object, task_rows, job_rows}

abbrev pub refusal_code : EnqueueResult → ℕ
refusal_code unknown_job = 404
refusal_code r = 409

abbrev pub refusal_text : EnqueueResult → Text
refusal_text unknown_job = codes "unknown_job"
refusal_text outbox_full = codes "outbox_full"
refusal_text r = codes "already_pending"

-- The loop that streams a file: `read` gives the bytes of its next chunk, none where it fails.
unfoldable pub stream_chunks : ℕ → List (List ℕ) → List ℕ
stream_chunks remaining [] = []
stream_chunks remaining ([] ∷ reads) = []
stream_chunks remaining ((b ∷ bs) ∷ reads) =
    let rest = stream_chunks (remaining - length (b ∷ bs)) reads in
    if remaining == 0 then [] else (b ∷ bs) ++ rest

module _ {C Doc Obj : Type 0} (card : SdCard C) (json : Json Doc Obj) where
  unfoldable pub handle_root : WebRequest → Server C → Response × Server C
  handle_root r s =
      (reply 200 (page (if request_has_valid_session r s then job_list_page else login_page)), s)

  -- Without a session, to the login page.
  unfoldable pub handle_planner_page : WebRequest → Server C → Response × Server C
  handle_planner_page r s =
      if not (request_has_valid_session r s)
      then (record (reply 303 (text [])) { location = some (codes "/") }, s)
      else (reply 200 (page planner_page), s)

  -- The four files of the decoder and the encoder.
  unfoldable pub handle_asset : Page → WebRequest → Server C → Response × Server C
  handle_asset p = with_session (λ r s. (reply 200 (page p), s))

  unfoldable pub handle_api_status : Measured → WebRequest → Server C → Response × Server C
  handle_api_status m =
      with_session (λ r s. (reply 200 (text (json.serialize (flat (status_object m s)))), s))

  unfoldable pub handle_api_diag : Measured → WebRequest → Server C → Response × Server C
  handle_api_diag m =
      with_session (λ r s. (reply 200 (text (json.serialize (flat (diag_object m s.config)))), s))

  unfoldable pub handle_api_planner_tasks_get :
      (ℤ → Text) → WebRequest → Server C → Response × Server C
  handle_api_planner_tasks_get utc_hm = with_session (λ r s. (
    reply 200 (text (json.serialize (rows (codes "tasks") (task_rows utc_hm s.tasks s.event)))),
    s,
  ))

  unfoldable pub handle_api_jobs_get : WebRequest → Server C → Response × Server C
  handle_api_jobs_get = with_session (λ r s.
      (reply 200 (text (json.serialize (rows (codes "jobs") (job_rows s.outbox s.jobs)))), s))

  abbrev save_both : Server C → Server C
  save_both s = record s {
    card =
        save_file card (codes "/inbox/index.json") (job_index_text json s.jobs)
          (save_file card (codes "/system/outbox.json") (outbox_text json s.outbox) s.card);
  }

  abbrev enqueued : EnqueueResult × JobIndex × Outbox → Server C → Response × Server C
  enqueued (ok, jobs, outbox) s = (
    reply 200 (text (codes "{\"status\":\"ok\"}")),
    save_both (record s { jobs = jobs; outbox = outbox }),
  )
  enqueued (result, jobs, outbox) s = (
    reply (refusal_code result)
        (text (json.serialize (flat ((codes "error", str (refusal_text result)) ∷ [])))),
    record s { jobs = jobs; outbox = outbox },
  )

  abbrev pub bad_request : Text → Server C → Response × Server C
  bad_request t s = (reply 400 (text t), s)

  abbrev approve : Option ApprovalAction → Text → WebRequest → Server C → Response × Server C
  approve none job_id r s = bad_request (codes "{\"error\":\"invalid job_id/action\"}") s
  approve (some action) job_id r s =
      if is_empty job_id
      then bad_request (codes "{\"error\":\"invalid job_id/action\"}") s
      else enqueued (enqueue_approval s.jobs s.outbox job_id action r.random_hex (r.now % 2 ^ 32)) s

  abbrev approve_body : Option Doc → WebRequest → Server C → Response × Server C
  approve_body none r s = bad_request (codes "{\"error\":\"invalid body\"}") s
  approve_body (some doc) r s =
      approve (parse_approval_action (json.str_or (json.root doc) (codes "action") []))
        (json.str_or (json.root doc) (codes "job_id") []) r s

  unfoldable pub handle_api_jobs_post : WebRequest → Server C → Response × Server C
  handle_api_jobs_post =
      with_session (λ r s. approve_body (json.deserialize (r.arg (codes "plain"))) r s)

  -- `read` gives the chunks that the reads of the file at a path give, `none` if it does not open.
  abbrev stream_job : Option (List (List ℕ)) → JobEntry → Server C → Response × Server C
  stream_job none e s = (reply 500 (text (codes "{\"error\":\"io_error\"}")), s)
  stream_job (some reads) e s = (reply 200 (bytes (stream_chunks e.xtc_bytes reads)), s)

  abbrev job_xtc :
      (C → Text → Option (List (List ℕ))) → Option JobEntry → Server C → Response × Server C
  job_xtc read none s = (reply 404 (text (codes "{\"error\":\"unknown_job\"}")), s)
  job_xtc read (some e) s = stream_job (read s.card e.xtc_path) e s

  unfoldable pub handle_api_job_xtc :
      (C → Text → Option (List (List ℕ))) → WebRequest → Server C → Response × Server C
  unfolding stream_chunks
  handle_api_job_xtc read =
      with_session (λ r s. job_xtc read (Jobs.find (r.arg (codes "job_id")) s.jobs) s)
