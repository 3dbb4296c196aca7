-- ===== src/Store/Jobs/Persist.antt =====
-- firmware/src/store/JobStore.cpp: the inbox's file, as the text that `writeFileAtomic` writes and that
-- `readFile` reads; `none` is a file that does not exist. A size in the file is read as an `int` and is
-- not negative.
use x4_printer.Prelude.{
  ℕ, zero, suc, ◌+◌, ◌%◌, ◌^◌, ◌≤◌, ◌<◌, ◌≡◌, ◌≢◌, refl, sym, ap, subst, ◌∙◌, Bool, true, false,
  Option, none, some, List, [], ◌∷◌, ◌++◌, map, All, length, length-append, append_assoc,
  append-nil, take, take-all, if◌then◌else◌, arith,
}
use x4_printer.Prelude.Text.{Text, codes, text_eq}
use x4_printer.Table
use x4_printer.Table.{id_len}
use x4_printer.Table.Find.{upsert-append}
use x4_printer.Table.Distinct.{AreDistinct}
use x4_printer.Table.Front.{front_new}
use x4_printer.Store.Json.{Json, IsJson, Object, str, num, flag, rows, num_of, str_of, value_at}
use x4_printer.Store.Jobs.{
  JobStatus, downloaded, approved_print, approved_keep, approved_delete, unnamed, JobEntry,
  JobIndex, job_key, upsert, max_inbox_jobs, title_len, path_len, sha256_len, mime_len,
}
use x4_printer.Store.Outbox.{or_same}

abbrev pub status_code : JobStatus → ℕ
status_code downloaded = 0
status_code approved_print = 1
status_code approved_keep = 2
status_code approved_delete = 3
status_code (unnamed n) = n

-- `static_cast<JobStatus>` of a byte.
abbrev pub status_of : ℕ → JobStatus
status_of zero = downloaded
status_of (suc zero) = approved_print
status_of (suc (suc zero)) = approved_keep
status_of (suc (suc (suc zero))) = approved_delete
status_of (suc (suc (suc (suc n)))) = unnamed (suc (suc (suc (suc n))))

unfoldable pub job_object : JobEntry → Object
job_object e =
    (codes "job_id", str e.job_id)
    ∷ (codes "title", str e.title)
    ∷ (codes "xtc_path", str e.xtc_path)
    ∷ (codes "xtc_bytes", num e.xtc_bytes)
    ∷ (codes "xtc_sha256", str e.xtc_sha256)
    ∷ (codes "page_count", num e.page_count)
    ∷ (codes "created_at", num e.created_at)
    ∷ (codes "status", num (status_code e.status))
    ∷ (codes "landscape_xtc_path", str e.landscape_xtc_path)
    ∷ (codes "landscape_xtc_bytes", num e.landscape_xtc_bytes)
    ∷ (codes "landscape_xtc_sha256", str e.landscape_xtc_sha256)
    ∷ (codes "landscape_page_count", num e.landscape_page_count)
    ∷ (codes "original_pending", flag e.original_pending)
    ∷ (codes "original_path", str e.original_path)
    ∷ (codes "original_mime", str e.original_mime)
    ∷ (codes "original_bytes", num e.original_bytes)
    ∷ []

module _ {Doc Obj : Type 0} (json : Json Doc Obj) where
  -- The text of `saveJobIndex`.
  unfoldable pub job_index_text : JobIndex → Text
  job_index_text t = json.serialize (rows (codes "jobs") (map job_object t))

  -- The entry that a round of the loop builds, with its `strncpy` calls and its casts.
  unfoldable pub job_of : Obj → JobEntry
  job_of j = record {
    job_id = take id_len (json.str_or j (codes "job_id") []);
    title = take title_len (json.str_or j (codes "title") []);
    xtc_path = take path_len (json.str_or j (codes "xtc_path") []);
    xtc_bytes = json.num_or j (codes "xtc_bytes") 0;
    xtc_sha256 = take sha256_len (json.str_or j (codes "xtc_sha256") []);
    page_count = json.num_or j (codes "page_count") 0 % 2 ^ 16;
    created_at = json.num_or j (codes "created_at") 0;
    status = status_of (json.num_or j (codes "status") 0 % 2 ^ 8);
    landscape_xtc_path = take path_len (json.str_or j (codes "landscape_xtc_path") []);
    landscape_xtc_bytes = json.num_or j (codes "landscape_xtc_bytes") 0;
    landscape_xtc_sha256 = take sha256_len (json.str_or j (codes "landscape_xtc_sha256") []);
    landscape_page_count = json.num_or j (codes "landscape_page_count") 0 % 2 ^ 16;
    original_pending = json.flag_or j (codes "original_pending") false;
    original_path = take path_len (json.str_or j (codes "original_path") []);
    original_mime = take mime_len (json.str_or j (codes "original_mime") []);
    original_bytes = json.num_or j (codes "original_bytes") 0;
  }

  -- A job with no id is skipped; the answer of `upsert` is ignored.
  unfoldable pub add_job : JobEntry → JobIndex → JobIndex
  add_job e t = if text_eq e.job_id [] then t else or_same (upsert e t) t

  unfoldable pub add_jobs : List Obj → JobIndex → JobIndex
  unfolding add_job
  add_jobs [] t = t
  add_jobs (j ∷ js) t = add_jobs js (add_job (job_of j) t)

  -- The answer of `loadJobIndex`, and the index after it, which is cleared first.
  unfoldable pub load_job_index : Option Text → Bool × JobIndex
  unfolding add_jobs
  load_job_index none = (false, [])
  load_job_index (some []) = (false, [])
  load_job_index (some (c ∷ raw)) = elim (json.deserialize (c ∷ raw)) [
    | none ↦ (false, [])
    | some doc ↦ (true, add_jobs (json.objects (codes "jobs") doc) [])
  ]

  -- A job whose texts fit their buffers, with an id, a status with a name, and numbers that an `int`
  -- and the field hold.
  pub record IsStorable (e : JobEntry) : Type 0 where
    pub id_some : text_eq e.job_id [] ≡ false
    pub status_named : status_code e.status < 4
    pub named : status_of (status_code e.status) ≡ e.status
    pub job_id_fits : length e.job_id ≤ id_len
    pub title_fits : length e.title ≤ title_len
    pub xtc_path_fits : length e.xtc_path ≤ path_len
    pub xtc_bytes_fits : e.xtc_bytes < 2 ^ 31
    pub xtc_sha256_fits : length e.xtc_sha256 ≤ sha256_len
    pub page_count_fits : e.page_count < 2 ^ 16
    pub created_at_fits : e.created_at < 2 ^ 31
    pub landscape_xtc_path_fits : length e.landscape_xtc_path ≤ path_len
    pub landscape_xtc_bytes_fits : e.landscape_xtc_bytes < 2 ^ 31
    pub landscape_xtc_sha256_fits : length e.landscape_xtc_sha256 ≤ sha256_len
    pub landscape_page_count_fits : e.landscape_page_count < 2 ^ 16
    pub original_path_fits : length e.original_path ≤ path_len
    pub original_mime_fits : length e.original_mime ≤ mime_len
    pub original_bytes_fits : e.original_bytes < 2 ^ 31

  add_new :
      (e : JobEntry) (t : JobIndex)
      → text_eq e.job_id [] ≡ false
      → Table.find job_key e.job_id t ≡ none
      → length t < max_inbox_jobs
      → add_job e t ≡ t ++ e ∷ []
  unfolding add_job upsert
  add_new e t h new room = rw (h, add_job, upsert-append job_key max_inbox_jobs e t new room) refl

  small : (n : ℕ) → n < 2 ^ 31 → num_of (some (num n)) 0 ≡ n
  small n h = ground arith

  cut16 : (n : ℕ) → n < 2 ^ 16 → num_of (some (num n)) 0 % 2 ^ 16 ≡ n
  cut16 n h = ground arith

  status_back :
      (s : JobStatus)
      → status_code s < 4
      → status_of (status_code s) ≡ s
      → status_of (num_of (some (num (status_code s))) 0 % 2 ^ 8) ≡ s
  status_back s h named =
      let same : num_of (some (num (status_code s))) 0 % 2 ^ 8 ≡ status_code s = ground arith in
      rw same named

  module _ (ok : IsJson json) where
    module _ (o : Object) (k : Text) where
      text_back :
          (n : ℕ) (t : Text)
          → str_of (value_at o k) [] ≡ t
          → length t ≤ n
          → take n (json.str_or (ok.obj_of o) k []) ≡ t
      text_back n t at fits = ap (take n) (ok.str_read o k [] ∙ at) ∙ take-all n t fits

    job_back : (e : JobEntry) → IsStorable e → job_of (ok.obj_of (job_object e)) ≡ e
    unfolding job_of job_object
    job_back e fits =
        let o = job_object e in
        let f0 = text_back o (codes "job_id") id_len e.job_id refl fits.job_id_fits in
        let f1 = text_back o (codes "title") title_len e.title refl fits.title_fits in
        let f2 = text_back o (codes "xtc_path") path_len e.xtc_path refl fits.xtc_path_fits in
        let f3 = ok.num_read o (codes "xtc_bytes") 0 ∙ small e.xtc_bytes fits.xtc_bytes_fits in
        let f4 =
          text_back o (codes "xtc_sha256") sha256_len e.xtc_sha256 refl fits.xtc_sha256_fits in
        let f5 =
          ap (λ n. n % 2 ^ 16) (ok.num_read o (codes "page_count") 0)
          ∙ cut16 e.page_count fits.page_count_fits in
        let f6 = ok.num_read o (codes "created_at") 0 ∙ small e.created_at fits.created_at_fits in
        let f7 =
          ap (λ n. status_of (n % 2 ^ 8)) (ok.num_read o (codes "status") 0)
          ∙ status_back e.status fits.status_named fits.named in
        let f8 =
          text_back o (codes "landscape_xtc_path") path_len e.landscape_xtc_path refl
            fits.landscape_xtc_path_fits in
        let f9 =
          ok.num_read o (codes "landscape_xtc_bytes") 0
          ∙ small e.landscape_xtc_bytes fits.landscape_xtc_bytes_fits in
        let f10 =
          text_back o (codes "landscape_xtc_sha256") sha256_len e.landscape_xtc_sha256 refl
            fits.landscape_xtc_sha256_fits in
        let f11 =
          ap (λ n. n % 2 ^ 16) (ok.num_read o (codes "landscape_page_count") 0)
          ∙ cut16 e.landscape_page_count fits.landscape_page_count_fits in
        let f12 = ok.flag_read o (codes "original_pending") false in
        let f13 =
          text_back o (codes "original_path") path_len e.original_path refl
            fits.original_path_fits in
        let f14 =
          text_back o (codes "original_mime") mime_len e.original_mime refl
            fits.original_mime_fits in
        let f15 =
          ok.num_read o (codes "original_bytes") 0
          ∙ small e.original_bytes fits.original_bytes_fits in
        cc

    add_jobs-back :
        (es t : JobIndex)
        → All IsStorable es
        → AreDistinct job_key (t ++ es)
        → length t + length es ≤ max_inbox_jobs
        → add_jobs (map ok.obj_of (map job_object es)) t ≡ t ++ es
    unfolding add_jobs
    add_jobs-back [] t fits d room = sym (append-nil t)
    add_jobs-back (e ∷ es) t fits d room =
        let later = map ok.obj_of (map job_object es) in
        let apart = subst (AreDistinct job_key) (sym (append_assoc t (e ∷ []) es)) d in
        ap (λ x. add_jobs later (add_job x t)) (job_back e fits.0)
        ∙ ap (add_jobs later)
            (add_new e t fits.0.id_some (front_new job_key t e es d) (omega arith))
        ∙ add_jobs-back es (t ++ e ∷ []) fits.1 apart (omega (arith, length-append t (e ∷ [])))
        ∙ append_assoc t (e ∷ []) es

    load_text :
        (text : Text) (doc : Doc)
        → text ≢ []
        → json.deserialize text ≡ some doc
        → load_job_index (some text) ≡ (true, add_jobs (json.objects (codes "jobs") doc) [])
    unfolding load_job_index
    load_text [] doc h e = absurd (h refl)
    load_text (c ∷ text) doc h e = rw (e, load_job_index) refl

    -- Jobs with distinct ids, at most `kMaxInboxJobs` of them, each with an id, a named status, texts
    -- that fit and sizes below 2^31, are loaded just as they were saved, in order.
    pub load_job_index-roundtrip :
        (t : JobIndex)
        → All IsStorable t
        → AreDistinct job_key t
        → length t ≤ max_inbox_jobs
        → load_job_index (some (job_index_text t)) ≡ (true, t)
    unfolding job_index_text
    load_job_index-roundtrip t fits apart room =
        let d = rows (codes "jobs") (map job_object t) in
        load_text (json.serialize d) (ok.doc_of d) (ok.serialize_some d) (ok.reads_back d)
        ∙ ap (λ x. (true, add_jobs x [])) (ok.objects_rows (codes "jobs") (map job_object t))
        ∙ ap (λ x. (true, x)) (add_jobs-back t [] fits apart (omega arith))
