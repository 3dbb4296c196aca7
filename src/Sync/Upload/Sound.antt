-- ===== src/Sync/Upload/Sound.antt =====
-- `uploadPendingOriginals` sends documents only after the Pi itself has answered, and keeps the inbox.
use x4_printer.Prelude.{
  take, ℕ, zero, suc, ◌+◌, ◌≡◌, ◌⊎◌, Bool, true, false, ◌∷◌, length, get_elem?, arith, Option-cases,
  Bool-cases, inl, inr,
}
use x4_printer.Prelude.Text.{Text, same_upto, same_upto_sym}
use x4_printer.Table
use x4_printer.Table.{id_len}
use x4_printer.Table.Find.{find-modify, modify-eq-none, length-modify}
use x4_printer.Table.Distinct.{modify-AreDistinct}
use x4_printer.Store.Jobs
use x4_printer.Store.Jobs.{JobIndex, JobEntry, job_key}
use x4_printer.Sync.Requests.{Client, Platform, State, pi, checked}
use x4_printer.Sync.Download.{is_none}
use x4_printer.Sync.Order.{Logged, answer_known, IsSound, Held-kept}
use x4_printer.Sync.Upload.{
  without_original, clear_original, upload, after_upload, upload_job, upload_loop, save_changed,
  after_status, upload_pending_originals,
}

keeps_id :
    (k : Text) (x : JobEntry)
    → same_upto id_len x.job_id k ≡ true
    → same_upto id_len k x.job_id ≡ true
keeps_id k x h = same_upto_sym id_len x.job_id k h

clear_original-kept :
    (j k : Text) (jobs : JobIndex)
    → is_none (Jobs.find k jobs) ≡ false
    → is_none (Jobs.find k (clear_original j jobs)) ≡ false
unfolding clear_original Jobs.find
clear_original-kept j k jobs h = elim (Option-cases (Jobs.find j jobs)) [
  | inl absent ↦ rw (modify-eq-none job_key j without_original jobs absent) h
  | inr (e, there) ↦
      ground (arith, find-modify job_key j without_original k jobs e (keeps_id j) there)
]

clear_original-IsValid :
    (j : Text) (jobs : JobIndex)
    → Jobs.Refine.IsValid jobs
    → Jobs.Refine.IsValid (clear_original j jobs)
unfolding clear_original
clear_original-IsValid j jobs v =
    elim (Option-cases (Table.modify job_key j without_original jobs)) [
      | inl absent ↦ rw absent v
      | inr (jobs', written) ↦ rw written (record {
        fits = omega (arith, length-modify job_key j without_original jobs jobs' written);
        apart =
            modify-AreDistinct job_key j without_original (keeps_id j) jobs jobs' written v.apart;
      })
    ]

module _ {W : Type 0} (client : Client W) (platform : Platform W) where
  -- The log says that the Pi answered.
  Ready : State W → Type 0
  Ready s = IsSound s × Logged (checked pi true) s.log

  after_upload-Ready :
      (e : JobEntry) (changed b : Bool) (s : State W)
      → Ready s
      → Ready (after_upload client platform e changed (b, s)).1
  unfolding after_upload Ready
  after_upload-Ready e changed true s (sound, up) = (
    record {
      ordered = sound.ordered;
      held =
          Held-kept s.jobs (clear_original (take id_len e.job_id) s.jobs)
            (λ k. clear_original-kept (take id_len e.job_id) k s.jobs) s.log sound.held;
      valid = clear_original-IsValid (take id_len e.job_id) s.jobs sound.valid;
    },
    up,
  )
  after_upload-Ready e changed false s (sound, up) = (sound, up)

  upload_job-Ready :
      (e : JobEntry) (changed : Bool) (s : State W)
      → Ready s
      → Ready (upload_job client platform e changed s).1
  unfolding upload_job upload Ready
  upload_job-Ready e changed s (sound, up) = elim (Bool-cases e.original_pending) [
    | inl pending ↦
        let (b, s') = upload client platform e s in
        simp pending (
          after_upload-Ready e changed b s' (
            record { ordered = (up, sound.ordered); held = (tt, sound.held); valid = sound.valid },
            inr up,
          ))
    | inr sent ↦ simp sent (sound, up)
  ]

  upload_loop-Ready :
      (left i : ℕ) (changed : Bool) (s : State W)
      → Ready s
      → Ready (upload_loop client platform left i (changed, s)).1
  unfolding upload_loop
  upload_loop-Ready zero i changed s r = r
  upload_loop-Ready (suc left) i changed s r = elim (Option-cases (get_elem? s.jobs i)) [
    | inl past ↦ rw (past, upload_loop) r
    | inr (e, there) ↦
        let (changed', s') = upload_job client platform e changed s in
        rw (there, upload_loop)
          (upload_loop-Ready left (i + 1) changed' s' (upload_job-Ready e changed s r))
  ]

  save_changed-IsSound :
      (b : Bool) (s : State W) → IsSound s → IsSound (save_changed client platform (b, s))
  unfolding save_changed
  save_changed-IsSound true s sound = record {
    ordered = sound.ordered;
    held = sound.held;
    valid = sound.valid;
  }
  save_changed-IsSound false s sound = sound

  after_status-IsSound :
      (b : Bool) (s : State W)
      → (b ≡ false) ⊎ Logged (checked pi true) s.log
      → IsSound s
      → IsSound (after_status client platform (b, s))
  unfolding after_status Ready
  after_status-IsSound true s (inl e) sound = cc
  after_status-IsSound true s (inr up) sound =
      let (b, s') = upload_loop client platform (length s.jobs) 0 (false, s) in
      save_changed-IsSound b s' (upload_loop-Ready (length s.jobs) 0 false s (sound, up)).0
  after_status-IsSound false s up sound = sound

  pub upload-IsSound :
      (s : State W) → IsSound s → IsSound (upload_pending_originals client platform s)
  unfolding upload_pending_originals
  upload-IsSound s sound =
      let (b, w) = client.status_check pi s.world in
      after_status-IsSound b (record s { world = w; log = checked pi b ∷ s.log })
        (answer_known pi b s.log)
        record { ordered = (tt, sound.ordered); held = (tt, sound.held); valid = sound.valid }
