-- ===== src/Sync/Order.antt =====
-- The order of requests in a log, and the jobs that a log has acknowledged.
use x4_printer.Prelude.{
  Among, ◌≡◌, ◌⊎◌, refl, Bool, true, false, ◌&&◌, some, List, [], ◌∷◌, All, arith, Option-cases,
  inl, inr,
}
use x4_printer.Prelude.Text.{Text, same_upto-take, same_upto_refl}
use x4_printer.Table.{id_len}
use x4_printer.Table.Find.{find_cong, find-upsert, upsert-eq-none}
use x4_printer.Store.Jobs
use x4_printer.Store.Jobs.{JobIndex, JobEntry, job_key, max_inbox_jobs}
use x4_printer.Store.Jobs.Refine.{upsert-IsValid}
use x4_printer.Sync.Requests.{
  State, JobManifest, Event, Endpoint, pi, normal, landscape, checked, downloaded, acked, uploaded,
  submitted,
}
use x4_printer.Sync.Download.{has_landscape, is_none, entry_of}

abbrev pub Logged : Event → List Event → Type 0
Logged e log = Among e log

-- What must have been logged before an event.
abbrev pub Justified : Event → List Event → Type 0
Justified (checked endpoint b) log = Unit
Justified (downloaded m v b) log = Unit
Justified (acked m b) log =
    Logged (downloaded m normal true) log
    × ((has_landscape m ≡ false) ⊎ Logged (downloaded m landscape true) log)
Justified (uploaded k b) log = Logged (checked pi true) log
Justified (submitted e endpoint b) log = Logged (checked endpoint true) log

abbrev pub WellOrdered : List Event → Type 0
WellOrdered [] = Unit
WellOrdered (e ∷ log) = Justified e log × WellOrdered log

-- An endpoint that is just asked has refused, or is logged to be up.
pub answer_known :
    (endpoint : Endpoint) (b : Bool) (log : List Event)
    → (b ≡ false) ⊎ Logged (checked endpoint true) (checked endpoint b ∷ log)
answer_known endpoint true log = inr (inl refl)
answer_known endpoint false log = inl refl

-- The job of a successful acknowledgement is in the index.
abbrev pub IsHeld : JobIndex → Event → Type 0
IsHeld jobs (checked endpoint b) = Unit
IsHeld jobs (downloaded m v b) = Unit
IsHeld jobs (acked m true) = is_none (Jobs.find m.job_id jobs) ≡ false
IsHeld jobs (acked m false) = Unit
IsHeld jobs (uploaded k b) = Unit
IsHeld jobs (submitted e endpoint b) = Unit

abbrev pub Held : JobIndex → List Event → Type 0
Held jobs log = All (IsHeld jobs) log

pub record IsSound {W : Type 0} (s : State W) : Type 0 where
  pub ordered : WellOrdered s.log
  pub held : Held s.jobs s.log
  pub valid : Jobs.Refine.IsValid s.jobs

module _ (jobs jobs' : JobIndex)
    (kept : (k : Text)
      → is_none (Jobs.find k jobs) ≡ false
      → is_none (Jobs.find k jobs') ≡ false) where
  IsHeld-kept : (e : Event) → IsHeld jobs e → IsHeld jobs' e
  IsHeld-kept (checked endpoint b) h = tt
  IsHeld-kept (downloaded m v b) h = tt
  IsHeld-kept (acked m true) h = kept m.job_id h
  IsHeld-kept (acked m false) h = tt
  IsHeld-kept (uploaded k b) h = tt
  IsHeld-kept (submitted e endpoint b) h = tt

  -- An index that still has every id still holds what was acknowledged.
  pub Held-kept : (log : List Event) → Held jobs log → Held jobs' log
  Held-kept [] h = tt
  Held-kept (e ∷ log) h = (IsHeld-kept e h.0, Held-kept log h.1)

module _ (m : JobManifest) (jobs : JobIndex) where
  -- A job that the guard of the loop lets through is stored.
  pub upsert-room :
      (Jobs.full jobs && is_none (Jobs.find m.job_id jobs)) ≡ false
      → (jobs' : JobIndex) × (Jobs.upsert (entry_of m) jobs ≡ some jobs')
  unfolding Jobs.find Jobs.upsert
  upsert-room guard = elim (Option-cases (Jobs.upsert (entry_of m) jobs)) [
    | inl failed ↦ absurd (
        ground (
          arith,
          upsert-eq-none job_key max_inbox_jobs (entry_of m) jobs,
          find_cong job_key (entry_of m).job_id m.job_id jobs,
          same_upto-take id_len m.job_id m.job_id,
          same_upto_refl id_len m.job_id,
        ))
    | inr done ↦ done
  ]

  -- It is found then, and so is every job that was there.
  pub upsert-kept :
      (jobs' : JobIndex) (k : Text)
      → Jobs.upsert (entry_of m) jobs ≡ some jobs'
      → (is_none (Jobs.find k jobs) ≡ false → is_none (Jobs.find k jobs') ≡ false)
        × (is_none (Jobs.find m.job_id jobs') ≡ false)
  unfolding Jobs.find Jobs.upsert
  upsert-kept jobs' k done = (
    λ h. ground (arith, find-upsert job_key max_inbox_jobs (entry_of m) jobs jobs' k done),
    ground (
      arith,
      find-upsert job_key max_inbox_jobs (entry_of m) jobs jobs' m.job_id done,
      same_upto-take id_len m.job_id m.job_id,
      same_upto_refl id_len m.job_id,
    ),
  )
