-- ===== src/Store/Outbox/Enqueue.antt =====
-- `enqueueApproval` on every branch.
use x4_printer.Prelude.{
  ℕ, ◌≡◌, refl, take, true, false, none, some, [], ◌∷◌, ◌++◌, if◌then◌else◌, arith, Option-cases,
  Bool-cases, inl, inr,
}
use x4_printer.Prelude.Text.{Text, same_upto, same_upto_sym}
use x4_printer.Table.{id_len}
use x4_printer.Table.Find.{find-modify}
use x4_printer.Store.Jobs
use x4_printer.Store.Jobs.{
  JobStatus, approved_print, approved_keep, approved_delete, JobEntry, JobIndex, job_key,
}
use x4_printer.Store.Outbox.{
  ApprovalAction, print, keep, delete, ApprovalEntry, Outbox, EnqueueResult, ok, unknown_job,
  already_pending, outbox_full, append, full, has_pending_for_job, enqueue_approval,
  approved_status, new_entry,
}

-- The status that an action stands for.
abbrev pub IsStatusOf : ApprovalAction → JobStatus → Type 0
IsStatusOf print status = status ≡ approved_print
IsStatusOf keep status = status ≡ approved_keep
IsStatusOf delete status = status ≡ approved_delete

-- An unsynced approval of a job: the texts are cut to the fields' sizes.
pub record IsPending (k : Text) (action : ApprovalAction) (approval_id : Text) (created_at : ℕ)
    (entry : ApprovalEntry) : Type 0 where
  pub id : entry.approval_id ≡ take id_len approval_id
  pub job : entry.job_id ≡ take id_len k
  pub acts : entry.action ≡ action
  pub at : entry.created_at ≡ created_at
  pub unsynced : entry.synced ≡ false

approved_status-IsStatusOf : (action : ApprovalAction) → IsStatusOf action (approved_status action)
unfolding approved_status
approved_status-IsStatusOf print = refl
approved_status-IsStatusOf keep = refl
approved_status-IsStatusOf delete = refl

new_entry-IsPending :
    (k : Text) (action : ApprovalAction) (approval_id : Text) (created_at : ℕ)
    → IsPending k action approval_id created_at (new_entry k action approval_id created_at)
new_entry-IsPending k action approval_id created_at = record {
  id = refl;
  job = refl;
  acts = refl;
  at = refl;
  unsynced = refl;
}

module _ (jobs : JobIndex) (o : Outbox) (k : Text) (action : ApprovalAction) (approval_id : Text)
    (created_at : ℕ) where
  -- What `enqueueApproval` answers and leaves behind. The first refusal that applies is the answer,
  -- and a refusal changes neither store.
  pub data Outcome (r : EnqueueResult × JobIndex × Outbox) : Type 0 where
    not_found : Jobs.find k jobs ≡ none → r ≡ (unknown_job, jobs, o) → Outcome r
    pending :
        (job : JobEntry)
        → Jobs.find k jobs ≡ some job
        → has_pending_for_job k o ≡ true
        → r ≡ (already_pending, jobs, o)
        → Outcome r
    no_room :
        (job : JobEntry)
        → Jobs.find k jobs ≡ some job
        → has_pending_for_job k o ≡ false
        → full o ≡ true
        → r ≡ (outbox_full, jobs, o)
        → Outcome r
    queued :
        (job : JobEntry) (jobs' : JobIndex) (entry : ApprovalEntry) (status : JobStatus)
        → Jobs.find k jobs ≡ some job
        → has_pending_for_job k o ≡ false
        → full o ≡ false
        → r ≡ (ok, jobs', o ++ entry ∷ [])
        → IsPending k action approval_id created_at entry
        → IsStatusOf action status
        → ((j : Text)
            → Jobs.find j jobs' ≡ (
                if same_upto id_len k j
                then some (record job { status = status })
                else Jobs.find j jobs))
        → Outcome r

  module _ (job : JobEntry) (there : Jobs.find k jobs ≡ some job)
      (free : has_pending_for_job k o ≡ false) (room : full o ≡ false) where
    accepted : Outcome (enqueue_approval jobs o k action approval_id created_at)
    unfolding enqueue_approval Jobs.set_status Jobs.find append
    accepted =
        let (jobs', written, found, kept) =
          find-modify job_key k (λ e. record e { status = approved_status action }) k jobs job
            (λ x. same_upto_sym id_len x.job_id k) there in
        queued job jobs' (new_entry k action approval_id created_at) (approved_status action) there
          free room (ground arith) (new_entry-IsPending k action approval_id created_at)
          (approved_status-IsStatusOf action)
          (λ j. ground (
            arith,
            written,
            find-modify job_key k (λ e. record e { status = approved_status action }) j jobs job
                (λ x. same_upto_sym id_len x.job_id k) there,
          ))

  -- `enqueueApproval` refuses an unknown job, a job with a pending approval and a full outbox, in
  -- this order, and then changes neither store; otherwise it appends one entry, unsynced and with the
  -- given job, action, identifier and time, and sets the status of that job, and of no other, to the one
  -- that stands for the action: printing, kept or deleted.
  pub enqueue_approval_lem : Outcome (enqueue_approval jobs o k action approval_id created_at)
  unfolding enqueue_approval
  enqueue_approval_lem = elim (Option-cases (Jobs.find k jobs)) [
    | inl absent ↦ not_found absent (ground arith)
    | inr (job, there) ↦ elim (Bool-cases (has_pending_for_job k o)) [
      | inl busy ↦ pending job there busy (ground arith)
      | inr free ↦ elim (Bool-cases (full o)) [
        | inl stuck ↦ no_room job there free stuck (ground arith)
        | inr room ↦ accepted job there free room
      ]
    ]
  ]
