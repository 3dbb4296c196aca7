-- ===== src/Store/Outbox.antt =====
-- firmware/src/store/ApprovalOutbox.h: the durable queue of approvals, and `enqueueApproval`, the one
-- place where an approval is made. `entries_[0 .. count_)` is a list, as in Table; `compactSynced`
-- works on it in place, by index, as the source does.
pub mod Compact
pub mod Actions
pub mod Enqueue
pub mod Pending
pub mod Persist
use x4_printer.Prelude.{
  ℕ, zero, suc, ◌+◌, Bool, true, false, not, ◌&&◌, ◌||◌, Option, none, some, List, [], ◌∷◌, ◌++◌,
  leb, ◌==◌, length, get_elem?, set, take, if◌then◌else◌,
}
use x4_printer.Prelude.Text.{Text, codes, text_eq, same_upto}
use x4_printer.Table
use x4_printer.Table.{id_len}
use x4_printer.Store.Jobs
use x4_printer.Store.Jobs.{
  JobIndex, JobStatus, downloaded, approved_print, approved_keep, approved_delete,
}

abbrev pub max_outbox_entries : ℕ
max_outbox_entries = 32

pub data ApprovalAction : Type 0 where
  print keep delete : ApprovalAction

unfoldable pub approval_action_name : ApprovalAction → Text
approval_action_name print = codes "print"
approval_action_name keep = codes "keep"
approval_action_name delete = codes "delete"

-- `none` is the source's `false`, which leaves `out` unchanged.
unfoldable pub parse_approval_action : Text → Option ApprovalAction
parse_approval_action s =
    if text_eq s (codes "print")
    then some print
    else if text_eq s (codes "keep")
    then some keep
    else if text_eq s (codes "delete")
    then some delete
    else none

pub record ApprovalEntry : Type 0 where
  pub approval_id : Text
  pub job_id : Text
  pub action : ApprovalAction
  pub created_at : ℕ
  pub synced : Bool

abbrev pub approval_key : ApprovalEntry → Text
approval_key e = e.approval_id

abbrev pub Outbox : Type 0
Outbox = List ApprovalEntry

abbrev pub full : Outbox → Bool
full o = leb max_outbox_entries (length o)

-- `none` is the source's `false`, as in Jobs.
unfoldable pub append : ApprovalEntry → Outbox → Option Outbox
append e o = if full o then none else some (o ++ e ∷ [])

unfoldable pub has_pending_for_job : Text → Outbox → Bool
has_pending_for_job k [] = false
has_pending_for_job k (e ∷ es) =
    if not e.synced && same_upto id_len e.job_id k then true else has_pending_for_job k es

unfoldable pub mark_synced : Text → Outbox → Option Outbox
mark_synced k = Table.modify approval_key k (λ e. record e { synced = true })

unfoldable pub count_unsynced : Outbox → ℕ
count_unsynced [] = 0
count_unsynced (e ∷ es) = if e.synced then count_unsynced es else count_unsynced es + 1

-- The loop of `compactSynced` with `left` rounds to go: the array, `writeIdx` and `removed` at its
-- end. A read past the array ends it; `Compact.compact_synced_lem` shows that there is none.
unfoldable pub compact_loop : ℕ → Outbox → ℕ → ℕ → ℕ → Outbox × ℕ × ℕ
compact_loop zero slots read_idx write_idx removed = (slots, write_idx, removed)
compact_loop (suc left) slots read_idx write_idx removed = elim (get_elem? slots read_idx) [
  | none ↦ (slots, write_idx, removed)
  | some e ↦ elim e.synced [
    | true ↦ compact_loop left slots (read_idx + 1) write_idx (removed + 1)
    | false ↦
        compact_loop left (if write_idx == read_idx then slots else set slots write_idx e)
          (read_idx + 1) (write_idx + 1) removed
  ]
]

-- The outbox after the call, with `count_ = writeIdx`, and the number removed.
unfoldable pub compact_synced : Outbox → Outbox × ℕ
unfolding compact_loop
compact_synced o =
    let (slots, write_idx, removed) = compact_loop (length o) o 0 0 0 in
    (take write_idx slots, removed)

unfoldable pub clear : Outbox → Outbox
clear o = []

pub data EnqueueResult : Type 0 where
  ok unknown_job already_pending outbox_full : EnqueueResult

unfoldable pub approved_status : ApprovalAction → JobStatus
approved_status print = approved_print
approved_status keep = approved_keep
approved_status delete = approved_delete

-- The entry that `enqueueApproval` builds, with its two `strncpy` calls.
abbrev pub new_entry : Text → ApprovalAction → Text → ℕ → ApprovalEntry
new_entry k action approval_id created_at = record {
  approval_id = take id_len approval_id;
  job_id = take id_len k;
  action = action;
  created_at = created_at;
  synced = false;
}

abbrev pub or_same {ℓ} : {A : Type ℓ} → Option A → A → A
or_same none a = a
or_same (some a') a = a'

-- The answers of `append` and `setStatus` are ignored.
unfoldable pub enqueue_approval :
    JobIndex → Outbox → Text → ApprovalAction → Text → ℕ → EnqueueResult × JobIndex × Outbox
unfolding append approved_status
enqueue_approval jobs o k action approval_id created_at = elim (Jobs.find k jobs) [
  | none ↦ (unknown_job, jobs, o)
  | some job ↦
      if has_pending_for_job k o
      then (already_pending, jobs, o)
      else if full o
      then (outbox_full, jobs, o)
      else (
        ok,
        or_same (Jobs.set_status k (approved_status action) jobs) jobs,
        or_same (append (new_entry k action approval_id created_at) o) o,
      )
]
