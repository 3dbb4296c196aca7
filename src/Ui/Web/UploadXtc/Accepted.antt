-- ===== src/Ui/Web/UploadXtc/Accepted.antt =====
-- Uploads that are accepted: the job that the inbox then has.
use x4_printer.Prelude.{
  ℕ, ◌+◌, ◌≤◌, ◌<◌, ◌≡◌, ◌≢◌, ◌⊎◌, inl, inr, refl, sym, ap, ◌∙◌, true, false, not, ◌==◌, Option,
  none, some, List, if_cases, if◌then◌else◌, arith,
}
use x4_printer.Prelude.Text.{Text, codes, text_eq, same_upto, same_upto-take, same_upto_refl}
use x4_printer.Table
use x4_printer.Table.{id_len}
use x4_printer.Table.Find.{find-upsert}
use x4_printer.Store.Card.{SdCard}
use x4_printer.Store.Json.{Json}
use x4_printer.Store.Jobs
use x4_printer.Store.Jobs.{JobEntry, JobIndex, job_key, max_inbox_jobs, full}
use x4_printer.Net.Client.Download.{PartFile}
use x4_printer.Xtc.Reader.{File, open_reader}
use x4_printer.Ui.Web.{
  Response, unauthorized, WebRequest, Server, request_has_valid_session, mark_activity,
}
use x4_printer.Ui.Web.UploadXtc.{
  start_xtc, handle_upload_xtc_data, finish_xtc, complete_xtc, handle_upload_xtc_complete,
  write_all, upload_xtc, uploaded_entry, pages_of, max_xtc_upload_bytes, added, xtc_refused,
  error_body, error_text,
}
use x4_printer.Ui.Web.UploadXtc.Refused.{write_all-refused}
use x4_printer.Ui.Web.UploadXtc.Staged.{total, write_all-IsStaged, start_xtc-IsStarted}

-- The answer is 200, and the inbox has a job with the identifier, the size of the chunks and a page.
abbrev pub HasJob : {C : Type 0} → Text → List (List ℕ) → Response × Server C → Type 0
HasJob id chunks x =
    (x.0.code ≡ 200)
    × ((entry : JobEntry) × (Jobs.find id x.1.jobs ≡ some entry)
        × (entry.xtc_bytes ≡ total chunks)
        × (total chunks ≤ max_xtc_upload_bytes)
        × (0 < total chunks)
        × (0 < entry.page_count))

module _ {C Doc Obj : Type 0} (card : SdCard C) (json : Json Doc Obj)
    (open_file : C → Text → Option File) (file : PartFile C) (r : WebRequest) where
  -- What the completion makes of the members: a job, or nothing.
  record IsJobOf (s : Server C) (x : Response × Server C) : Type 0 where
    answer : x.0.code ≡ 200
    entry : JobEntry
    found : Jobs.find s.xtc.job_id x.1.jobs ≡ some entry
    size : entry.xtc_bytes ≡ s.xtc.bytes
    some_bytes : 0 < s.xtc.bytes
    some_pages : 0 < entry.page_count
    allowed : s.xtc.authorized ≡ true
    small : s.xtc.too_large ≡ false

  abbrev IsDone : Server C → Response × Server C → Type 0
  IsDone s x = IsJobOf s x ⊎ ((x.0.code ≢ 200) × (x.1.jobs ≡ s.jobs))

  added-IsDone :
      (s : Server C) (pages : ℕ)
      → 0 < s.xtc.bytes
      → 0 < pages
      → s.xtc.authorized ≡ true
      → s.xtc.too_large ≡ false
      → let entry = uploaded_entry card json open_file r pages s.xtc in
        (o : Option JobIndex)
        → Jobs.upsert entry s.jobs ≡ o
        → IsDone s (added card json open_file entry o s)
  unfolding Jobs.upsert Jobs.find
  added-IsDone s pages some_bytes some_pages allowed small none e =
      inr ((λ k. omega (arith, k)), refl)
  added-IsDone s pages some_bytes some_pages allowed small (some jobs) e =
      let entry = uploaded_entry card json open_file r pages s.xtc in
      let (found, count) = find-upsert job_key max_inbox_jobs entry s.jobs jobs s.xtc.job_id e in
      let same : same_upto id_len entry.job_id s.xtc.job_id ≡ true =
        same_upto-take id_len s.xtc.job_id s.xtc.job_id ∙ same_upto_refl id_len s.xtc.job_id in
      inl record {
        answer = refl;
        entry = entry;
        found =
            found ∙ ap (λ b. if b then some entry else Table.find job_key s.xtc.job_id s.jobs) same;
        size = refl;
        some_bytes = some_bytes;
        some_pages = some_pages;
        allowed = allowed;
        small = small;
      }

  finish_xtc-IsDone :
      (s : Server C)
      → s.xtc.authorized ≡ true
      → s.xtc.too_large ≡ false
      → IsDone s (finish_xtc card json open_file r s)
  unfolding finish_xtc
  finish_xtc-IsDone s allowed small =
      let pages = pages_of card json open_file (open_reader (open_file s.card s.xtc.path)) in
      let entry = uploaded_entry card json open_file r pages s.xtc in
      let done = added card json open_file entry (Jobs.upsert entry s.jobs) s in
      if_cases (IsDone s) (s.xtc.bytes == 0)
        (xtc_refused card 400 (codes "{\"error\":\"empty_upload\"}") s)
        (if pages == 0 then xtc_refused card 400 (codes "{\"error\":\"invalid_xtc\"}") s else done)
        (λ none'. inr ((λ k. omega (arith, k)), refl))
        (λ some_bytes.
          if_cases (IsDone s) (pages == 0)
            (xtc_refused card 400 (codes "{\"error\":\"invalid_xtc\"}") s) done
            (λ none'. inr ((λ k. omega (arith, k)), refl))
            (λ some_pages.
              added-IsDone s pages (ground (arith, some_bytes)) (ground (arith, some_pages)) allowed
                small (Jobs.upsert entry s.jobs) refl))

  complete_xtc-IsDone : (s : Server C) → IsDone s (complete_xtc card json open_file r s)
  unfolding complete_xtc
  complete_xtc-IsDone s =
      let code = (if text_eq s.xtc.error (codes "inbox_full") then 409 else 400) in
      let large = xtc_refused card 413 (codes "{\"error\":\"too_large\"}") s in
      let done = finish_xtc card json open_file r s in
      if_cases (IsDone s) (not s.xtc.authorized)
        (xtc_refused card code (error_body card json open_file (error_text s.xtc.error)) s)
        (if s.xtc.too_large then large else done) (λ closed. inr ((λ k. ground (arith, k)), refl))
        (λ allowed.
          if_cases (IsDone s) s.xtc.too_large large done (λ h. inr ((λ k. omega (arith, k)), refl))
            (λ small. finish_xtc-IsDone s (ground (arith, allowed)) small))

  complete-IsDone : (s : Server C) → IsDone s (handle_upload_xtc_complete card json open_file r s)
  unfolding handle_upload_xtc_complete
  complete-IsDone s =
      if_cases (IsDone s) (not (request_has_valid_session r s)) (unauthorized, s)
        (complete_xtc card json open_file r s) (λ h. inr ((λ k. omega (arith, k)), refl))
        (λ session. complete_xtc-IsDone s)

  clash : true ≡ false → ⊥
  clash e = cc

  job_sent :
      (chunks : List (List ℕ)) (s : Server C) (x : Response × Server C)
      → IsJobOf s x
      → s.xtc.job_id ≡ r.random_hex
      → ((s.xtc.too_large ≡ true)
          ⊎ ((s.xtc.bytes ≡ 0 + total chunks) × (s.xtc.bytes ≤ max_xtc_upload_bytes)))
      → HasJob r.random_hex chunks x
  job_sent chunks s x done named (inl large) = absurd (clash (sym large ∙ done.small))
  job_sent chunks s x done named (inr (size, fits)) = (
    done.answer,
    (
      done.entry,
      ap (λ k. Jobs.find k x.1.jobs) (sym named) ∙ done.found,
      omega (arith, done.size, size),
      omega (arith, size, fits),
      omega (arith, size, done.some_bytes),
      done.some_pages,
    ),
  )

  -- Either an upload is answered 200 and the inbox has its job then, with the size of all that was sent,
  -- which is 512 KB at most and not nothing, and with one page at least; or it has another answer and
  -- the inbox is as it was.
  pub upload_xtc-IsUploaded :
      (chunks : List (List ℕ)) (s : Server C)
      → let (answer, after) = upload_xtc card json open_file file r chunks s in
        HasJob r.random_hex chunks (answer, after) ⊎ ((answer.code ≢ 200) × (after.jobs ≡ s.jobs))
  unfolding upload_xtc handle_upload_xtc_data
  upload_xtc-IsUploaded chunks s =
      let s1 = start_xtc file r s in
      let s2 = write_all card json open_file file r chunks s1 in
      let s3 = mark_activity (record s2 { xtc = record (s2.xtc) { file_open = false } }) in
      let (same, started) = start_xtc-IsStarted card json open_file file r s in
      elim started [
        | inl refused ↦
            let kept = write_all-refused card json open_file file r chunks s1 refused in
            elim (complete-IsDone s3) [
              | inl done ↦ absurd (
                  clash (sym done.allowed ∙ ap (λ (x : Server C). x.xtc.authorized) kept ∙ refused))
              | inr (code, jobs) ↦ inr (code, jobs ∙ ap (λ (x : Server C). x.jobs) kept ∙ same)
            ]
        | inr (staged, named) ↦
            let (written, named', same') =
              write_all-IsStaged card json open_file file r chunks 0 s1 staged in
            let named'' = named' ∙ named in
            elim (complete-IsDone s3) [
              | inl done ↦ inl (job_sent chunks s3 _ done named'' written.2)
              | inr (code, jobs) ↦ inr (code, jobs ∙ same' ∙ same)
            ]
      ]
