-- ===== src/Sync/Drain/Guard.antt =====
-- The guard of `drainApprovalOutbox`: what it submits.
use x4_printer.Prelude.{
  subst, ℕ, zero, suc, ◌+◌, ◌≡◌, refl, Bool, true, false, [], ◌∷◌, All, length, get_elem?, ◌==◌,
  Option-cases, Bool-cases, inl, inr,
}
use x4_printer.Store.Jobs.{JobIndex}
use x4_printer.Store.Outbox.{ApprovalEntry}
use x4_printer.Sync.Requests.{
  Client, Platform, State, Event, Endpoint, pi, relay, checked, submitted, downloaded, acked,
  uploaded,
}
use x4_printer.Sync.Drain.{
  waits, submit, after_submit, drain_entry, drain_loop, compact_changed, drain_to, after_relay,
  after_pi, drain_approval_outbox,
}

-- An approval that may be submitted: unsynced, and its job does not wait for its document to be sent.
abbrev pub IsAllowed : JobIndex → Event → Type 0
IsAllowed jobs (checked endpoint b) = Unit
IsAllowed jobs (downloaded m v b) = Unit
IsAllowed jobs (acked m b) = Unit
IsAllowed jobs (uploaded k b) = Unit
IsAllowed jobs (submitted e endpoint b) = (e.synced ≡ false) × (waits e jobs ≡ false)

module _ {W : Type 0} (client : Client W) (platform : Platform W) (jobs : JobIndex) where
  -- The inbox is as it was, and what was submitted was allowed.
  abbrev pub IsGuarded : State W → Type 0
  IsGuarded s = (s.jobs ≡ jobs) × All (IsAllowed jobs) s.log

  after_submit-IsGuarded :
      (e : ApprovalEntry) (endpoint : Endpoint) (changed b : Bool) (s : State W)
      → IsGuarded s
      → IsGuarded (after_submit client platform e endpoint changed (b, s)).1
  unfolding after_submit
  after_submit-IsGuarded e endpoint changed true s g = g
  after_submit-IsGuarded e endpoint changed false s g = g

  drain_entry-IsGuarded :
      (e : ApprovalEntry) (endpoint : Endpoint) (changed : Bool) (s : State W)
      → IsGuarded s
      → IsGuarded (drain_entry client platform e endpoint changed s).1
  unfolding drain_entry submit
  drain_entry-IsGuarded e endpoint changed s (same, g) = elim (Bool-cases e.synced) [
    | inl synced ↦ simp synced (same, g)
    | inr unsynced ↦ elim (Bool-cases (waits e s.jobs)) [
      | inl waiting ↦ simp (unsynced, waiting) (same, g)
      | inr free ↦
          let (b, s') = submit client platform e endpoint s in
          simp (unsynced, free)
            (after_submit-IsGuarded e endpoint changed b s'
              (same, ((unsynced, subst (λ j. waits e j ≡ false) same free), g)))
    ]
  ]

  drain_loop-IsGuarded :
      (left i : ℕ) (endpoint : Endpoint) (changed : Bool) (s : State W)
      → IsGuarded s
      → IsGuarded (drain_loop client platform left i endpoint (changed, s)).1
  unfolding drain_loop
  drain_loop-IsGuarded zero i endpoint changed s g = g
  drain_loop-IsGuarded (suc left) i endpoint changed s g =
      elim (Option-cases (get_elem? s.outbox i)) [
        | inl past ↦ rw (past, drain_loop) g
        | inr (e, there) ↦
            let (changed', s') = drain_entry client platform e endpoint changed s in
            rw (there, drain_loop)
              (drain_loop-IsGuarded left (i + 1) endpoint changed' s'
                (drain_entry-IsGuarded e endpoint changed s g))
      ]

  compact_changed-IsGuarded :
      (b : Bool) (s : State W) → IsGuarded s → IsGuarded (compact_changed client platform (b, s))
  unfolding compact_changed
  compact_changed-IsGuarded true s g = g
  compact_changed-IsGuarded false s g = g

  drain_to-IsGuarded :
      (endpoint : Endpoint) (s : State W)
      → IsGuarded s
      → IsGuarded (drain_to client platform endpoint s)
  unfolding drain_to
  drain_to-IsGuarded endpoint s g =
      let (b, s') = drain_loop client platform (length s.outbox) 0 endpoint (false, s) in
      compact_changed-IsGuarded b s' (drain_loop-IsGuarded (length s.outbox) 0 endpoint false s g)

  after_relay-IsGuarded :
      (b : Bool) (s : State W) → IsGuarded s → IsGuarded (after_relay client platform (b, s))
  unfolding after_relay
  after_relay-IsGuarded true s g = drain_to-IsGuarded relay s g
  after_relay-IsGuarded false s g = g

  after_pi-IsGuarded :
      (has_relay b : Bool) (s : State W)
      → IsGuarded s
      → IsGuarded (after_pi client platform has_relay (b, s))
  unfolding after_pi
  after_pi-IsGuarded has_relay true s g = drain_to-IsGuarded pi s g
  after_pi-IsGuarded true false s (same, g) =
      let (b, w) = client.status_check relay s.world in
      after_relay-IsGuarded b (record s { world = w; log = checked relay b ∷ s.log })
        (same, (tt, g))
  after_pi-IsGuarded false false s g = g

  drain-IsGuarded :
      (has_relay : Bool) (s : State W)
      → IsGuarded s
      → IsGuarded (drain_approval_outbox client platform has_relay s)
  unfolding drain_approval_outbox
  drain-IsGuarded has_relay s (same, g) =
      let (b, w) = client.status_check pi s.world in
      elim (Bool-cases (length s.outbox == 0)) [
        | inl empty ↦ simp empty (same, g)
        | inr some_left ↦ simp some_left (
            after_pi-IsGuarded has_relay b (record s { world = w; log = checked pi b ∷ s.log })
              (same, (tt, g)))
      ]

-- From an empty log, `drainApprovalOutbox` submits only approvals that are unsynced and whose job is
-- not waiting to have its document uploaded, whatever the network answers, and it leaves the inbox
-- unchanged.
pub drain_submits-IsAllowed :
    {W : Type 0} (client : Client W) (platform : Platform W) (has_relay : Bool) (s : State W)
    → s.log ≡ []
    → let s' = drain_approval_outbox client platform has_relay s in
      (s'.jobs ≡ s.jobs) × All (IsAllowed s.jobs) s'.log
drain_submits-IsAllowed client platform has_relay s fresh =
    drain-IsGuarded client platform s.jobs has_relay s (refl, simp fresh tt)
