-- ===== src/Sync/Download/Sound.antt =====
-- `downloadPendingJobs` keeps the order of requests, and acknowledges only jobs that the inbox holds.
use x4_printer.Prelude.{
  ◌≡◌, ◌⊎◌, refl, sym, subst, Bool, true, false, ◌&&◌, List, [], ◌∷◌, if◌then◌else◌, Bool-cases,
  inl, inr,
}
use x4_printer.Store.Jobs
use x4_printer.Store.Jobs.{JobIndex, JobEntry}
use x4_printer.Store.Jobs.Refine.{upsert-IsValid}
use x4_printer.Sync.Requests.{
  Client, Platform, State, JobManifest, Event, normal, landscape, downloaded, acked,
}
use x4_printer.Sync.Download.{
  has_landscape, is_none, entry_of, download, ack, store_entry, after_ack, after_landscape,
  after_normal, download_job, download_jobs, download_pending_jobs,
}
use x4_printer.Sync.Order.{Logged, WellOrdered, Held, IsSound, Held-kept, upsert-room, upsert-kept}

module _ {W : Type 0} (client : Client W) (platform : Platform W) where
  Guard : JobManifest → State W → Type 0
  Guard m s = (Jobs.full s.jobs && is_none (Jobs.find m.job_id s.jobs)) ≡ false

  store_entry-IsSound :
      (m : JobManifest) (s : State W) (log : List Event)
      → Guard m s
      → s.log ≡ acked m true ∷ log
      → WellOrdered s.log
      → Held s.jobs log
      → Jobs.Refine.IsValid s.jobs
      → IsSound (store_entry client platform m s)
  unfolding store_entry Guard
  store_entry-IsSound m s log guard e o h v =
      let (jobs', done) = upsert-room m s.jobs guard in
      rw (done, store_entry)
        (record {
          ordered = o;
          held = subst (Held jobs') (sym e) (
            (upsert-kept m s.jobs jobs' m.job_id done).1,
            Held-kept s.jobs jobs' (λ k. (upsert-kept m s.jobs jobs' k done).0) log h,
          );
          valid = upsert-IsValid (entry_of m) s.jobs jobs' done v;
        })

  after_ack-IsSound :
      (m : JobManifest) (b : Bool) (s : State W) (log : List Event)
      → Guard m s
      → s.log ≡ acked m b ∷ log
      → WellOrdered s.log
      → Held s.jobs log
      → Jobs.Refine.IsValid s.jobs
      → IsSound (after_ack client platform m (b, s))
  unfolding after_ack
  after_ack-IsSound m true s log guard e o h v = store_entry-IsSound m s log guard e o h v
  after_ack-IsSound m false s log guard e o h v = record {
    ordered = o;
    held = subst (Held s.jobs) (sym e) (tt, h);
    valid = v;
  }

  ack-IsSound :
      (m : JobManifest) (s : State W)
      → Guard m s
      → Logged (downloaded m normal true) s.log
      → (has_landscape m ≡ false) ⊎ Logged (downloaded m landscape true) s.log
      → IsSound s
      → IsSound (after_ack client platform m (ack client platform m s))
  unfolding ack Guard
  ack-IsSound m s guard first second sound =
      let (b, s') = ack client platform m s in
      after_ack-IsSound m b s' s.log guard refl ((first, second), sound.ordered) sound.held
        sound.valid

  after_landscape-IsSound :
      (m : JobManifest) (b : Bool) (s : State W) (log : List Event)
      → Guard m s
      → s.log ≡ downloaded m landscape b ∷ log
      → Logged (downloaded m normal true) s.log
      → IsSound s
      → IsSound (after_landscape client platform m (b, s))
  unfolding after_landscape
  after_landscape-IsSound m true s log guard e first sound =
      ack-IsSound m s guard first
        (inr (subst (Logged (downloaded m landscape true)) (sym e) (inl refl))) sound
  after_landscape-IsSound m false s log guard e first sound = record {
    ordered = sound.ordered;
    held = sound.held;
    valid = sound.valid;
  }

  either_way :
      (m : JobManifest) (b : Bool) (s : State W)
      → has_landscape m ≡ b
      → IsSound (after_landscape client platform m (download client platform m landscape s))
      → (has_landscape m ≡ false → IsSound (after_ack client platform m (ack client platform m s)))
      → IsSound (
          if b
          then after_landscape client platform m (download client platform m landscape s)
          else after_ack client platform m (ack client platform m s))
  either_way m true s e with_it without_it = with_it
  either_way m false s e with_it without_it = without_it e

  after_normal-IsSound :
      (m : JobManifest) (b : Bool) (s : State W) (log : List Event)
      → Guard m s
      → s.log ≡ downloaded m normal b ∷ log
      → IsSound s
      → IsSound (after_normal client platform m (b, s))
  unfolding after_normal download Guard
  after_normal-IsSound m true s log guard e sound =
      let first = subst (Logged (downloaded m normal true)) (sym e) (inl refl) in
      let (b, s') = download client platform m landscape s in
      either_way m (has_landscape m) s refl
        (after_landscape-IsSound m b s' s.log guard refl (inr first)
          record { ordered = (tt, sound.ordered); held = (tt, sound.held); valid = sound.valid })
        (λ hasnt. ack-IsSound m s guard first (inl hasnt) sound)
  after_normal-IsSound m false s log guard e sound = record {
    ordered = sound.ordered;
    held = sound.held;
    valid = sound.valid;
  }

  download_job-IsSound :
      (m : JobManifest) (s : State W) → IsSound s → IsSound (download_job client platform m s)
  unfolding download_job download Guard
  download_job-IsSound m s sound =
      elim (Bool-cases (Jobs.full s.jobs && is_none (Jobs.find m.job_id s.jobs))) [
        | inl skipped ↦ rw (skipped, download_job) sound
        | inr guard ↦
            let (b, s') = download client platform m normal s in
            rw (guard, download_job)
              (after_normal-IsSound m b s' s.log guard refl record {
                ordered = (tt, sound.ordered);
                held = (tt, sound.held);
                valid = sound.valid;
              })
      ]

  download_jobs-IsSound :
      (ms : List JobManifest) (s : State W)
      → IsSound s
      → IsSound (download_jobs client platform ms s)
  unfolding download_jobs
  download_jobs-IsSound [] s sound = sound
  download_jobs-IsSound (m ∷ ms) s sound =
      download_jobs-IsSound ms (download_job client platform m s) (download_job-IsSound m s sound)

  pub download-IsSound :
      (s : State W) → IsSound s → IsSound (download_pending_jobs client platform s)
  unfolding download_pending_jobs
  download-IsSound s sound =
      let (manifests, w) = client.fetch_pending_jobs 16 s.world in
      download_jobs-IsSound manifests (record s { world = w })
        record { ordered = sound.ordered; held = sound.held; valid = sound.valid }
