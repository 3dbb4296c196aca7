-- ===== src/Sync/Drain.antt =====
-- firmware/src/sync/SyncManager.cpp: `drainApprovalOutbox`.
pub mod Sound
pub mod Guard
use x4_printer.Prelude.{
  ℕ, zero, suc, ◌+◌, Bool, true, false, not, Option, none, some, List, [], ◌∷◌, length, get_elem?,
  ◌==◌, if◌then◌else◌,
}
use x4_printer.Store.Jobs
use x4_printer.Store.Jobs.{JobIndex, JobEntry}
use x4_printer.Store.Outbox.{ApprovalEntry, mark_synced, compact_synced, or_same}
use x4_printer.Sync.Requests.{
  Client, Platform, State, Endpoint, pi, relay, checked, submitted, answered,
}

abbrev pub is_relay : Endpoint → Bool
is_relay pi = false
is_relay relay = true

abbrev pub is_pending : Option JobEntry → Bool
is_pending none = false
is_pending (some job) = job.original_pending

-- The guard: the approval's job still waits for its document to reach the Pi.
unfoldable pub waits : ApprovalEntry → JobIndex → Bool
waits e jobs = is_pending (Jobs.find e.job_id jobs)

module _ {W : Type 0} (client : Client W) (platform : Platform W) where
  -- The answer is `result.applied`; the rest of it is not read.
  unfoldable pub submit : ApprovalEntry → Endpoint → State W → Bool × State W
  submit e endpoint s =
      let (result, w) = client.submit_approval e endpoint s.world in
      answered s (result.applied, w) (submitted e endpoint)

  -- What follows a request, on its answer; the flag is `changed`.
  unfoldable pub after_submit : ApprovalEntry → Endpoint → Bool → Bool × State W → Bool × State W
  after_submit e endpoint changed (true, s) = (
    true,
    record s {
      outbox = or_same (mark_synced e.approval_id s.outbox) s.outbox;
      summary = record (s.summary) {
        approvals_synced = s.summary.approvals_synced + 1;
        used_relay = is_relay endpoint;
      };
    },
  )
  after_submit e endpoint changed (false, s) = (
    changed,
    record s {
      summary = record (s.summary) { approvals_failed_sync = s.summary.approvals_failed_sync + 1 };
    },
  )

  -- One round of the loop, on `outbox_.at(i)`, with its two `continue`s.
  unfoldable pub drain_entry : ApprovalEntry → Endpoint → Bool → State W → Bool × State W
  unfolding after_submit submit waits
  drain_entry e endpoint changed s =
      if e.synced
      then (changed, s)
      else if waits e s.jobs
      then (changed, s)
      else after_submit e endpoint changed (submit e endpoint s)

  -- The loop with `left` rounds to go.
  unfoldable pub drain_loop : ℕ → ℕ → Endpoint → Bool × State W → Bool × State W
  unfolding drain_entry
  drain_loop zero i endpoint (changed, s) = (changed, s)
  drain_loop (suc left) i endpoint (changed, s) = elim (get_elem? s.outbox i) [
    | none ↦ (changed, s)
    | some e ↦ drain_loop left (i + 1) endpoint (drain_entry e endpoint changed s)
  ]

  -- `if (changed) { outbox_.compactSynced(); store::saveApprovalOutbox(outbox_); }`
  unfoldable pub compact_changed : Bool × State W → State W
  compact_changed (true, s) =
      let (outbox, removed) = compact_synced s.outbox in
      record s { outbox = outbox; world = platform.save_approval_outbox outbox s.world }
  compact_changed (false, s) = s

  unfoldable pub drain_to : Endpoint → State W → State W
  unfolding compact_changed drain_loop
  drain_to endpoint s = compact_changed (drain_loop (length s.outbox) 0 endpoint (false, s))

  unfoldable pub after_relay : Bool × State W → State W
  unfolding drain_to
  after_relay (true, s) = drain_to relay s
  after_relay (false, s) = s

  -- `cfg_.hasRelay` and the answer of the Pi choose the endpoint.
  unfoldable pub after_pi : Bool → Bool × State W → State W
  unfolding after_relay drain_to
  after_pi has_relay (true, s) = drain_to pi s
  after_pi has_relay (false, s) =
      if has_relay
      then after_relay (answered s (client.status_check relay s.world) (checked relay))
      else s

  unfoldable pub drain_approval_outbox : Bool → State W → State W
  unfolding after_pi
  drain_approval_outbox has_relay s =
      if length s.outbox == 0
      then s
      else after_pi has_relay (answered s (client.status_check pi s.world) (checked pi))
