-- ===== src/Sync/Drain/Sound.antt =====
-- `drainApprovalOutbox` submits only to an endpoint that has answered, and leaves the inbox alone.
use x4_printer.Prelude.{
  ℕ, zero, suc, ◌+◌, ◌≡◌, ◌⊎◌, Bool, true, false, ◌∷◌, length, get_elem?, ◌==◌, Option-cases,
  Bool-cases, inl, inr,
}
use x4_printer.Store.Outbox.{ApprovalEntry}
use x4_printer.Sync.Requests.{Client, Platform, State, Endpoint, pi, relay, checked}
use x4_printer.Sync.Order.{Logged, answer_known, IsSound}
use x4_printer.Sync.Drain.{
  waits, submit, after_submit, drain_entry, drain_loop, compact_changed, drain_to, after_relay,
  after_pi, drain_approval_outbox,
}

module _ {W : Type 0} (client : Client W) (platform : Platform W) where
  module _ (endpoint : Endpoint) where
    -- The log says that the endpoint answered.
    Ready : State W → Type 0
    Ready s = IsSound s × Logged (checked endpoint true) s.log

    after_submit-Ready :
        (e : ApprovalEntry) (changed b : Bool) (s : State W)
        → Ready s
        → Ready (after_submit client platform e endpoint changed (b, s)).1
    unfolding after_submit Ready
    after_submit-Ready e changed true s (sound, up) =
        (record { ordered = sound.ordered; held = sound.held; valid = sound.valid }, up)
    after_submit-Ready e changed false s (sound, up) =
        (record { ordered = sound.ordered; held = sound.held; valid = sound.valid }, up)

    drain_entry-Ready :
        (e : ApprovalEntry) (changed : Bool) (s : State W)
        → Ready s
        → Ready (drain_entry client platform e endpoint changed s).1
    unfolding drain_entry submit Ready
    drain_entry-Ready e changed s (sound, up) = elim (Bool-cases e.synced) [
      | inl synced ↦ simp synced (sound, up)
      | inr unsynced ↦ elim (Bool-cases (waits e s.jobs)) [
        | inl waiting ↦ simp (unsynced, waiting) (sound, up)
        | inr free ↦
            let (b, s') = submit client platform e endpoint s in
            simp (unsynced, free)
              (after_submit-Ready e changed b s' (
                record {
                  ordered = (up, sound.ordered);
                  held = (tt, sound.held);
                  valid = sound.valid;
                },
                inr up,
              ))
      ]
    ]

    drain_loop-Ready :
        (left i : ℕ) (changed : Bool) (s : State W)
        → Ready s
        → Ready (drain_loop client platform left i endpoint (changed, s)).1
    unfolding drain_loop
    drain_loop-Ready zero i changed s r = r
    drain_loop-Ready (suc left) i changed s r = elim (Option-cases (get_elem? s.outbox i)) [
      | inl past ↦ rw (past, drain_loop) r
      | inr (e, there) ↦
          let (changed', s') = drain_entry client platform e endpoint changed s in
          rw (there, drain_loop)
            (drain_loop-Ready left (i + 1) changed' s' (drain_entry-Ready e changed s r))
    ]

    compact_changed-IsSound :
        (b : Bool) (s : State W) → IsSound s → IsSound (compact_changed client platform (b, s))
    unfolding compact_changed
    compact_changed-IsSound true s sound = record {
      ordered = sound.ordered;
      held = sound.held;
      valid = sound.valid;
    }
    compact_changed-IsSound false s sound = sound

    drain_to-IsSound : (s : State W) → Ready s → IsSound (drain_to client platform endpoint s)
    unfolding drain_to Ready
    drain_to-IsSound s r =
        let (b, s') = drain_loop client platform (length s.outbox) 0 endpoint (false, s) in
        compact_changed-IsSound b s' (drain_loop-Ready (length s.outbox) 0 false s r).0

  after_relay-IsSound :
      (b : Bool) (s : State W)
      → (b ≡ false) ⊎ Logged (checked relay true) s.log
      → IsSound s
      → IsSound (after_relay client platform (b, s))
  unfolding after_relay Ready
  after_relay-IsSound true s (inl e) sound = cc
  after_relay-IsSound true s (inr up) sound = drain_to-IsSound relay s (sound, up)
  after_relay-IsSound false s up sound = sound

  after_pi-IsSound :
      (has_relay b : Bool) (s : State W)
      → (b ≡ false) ⊎ Logged (checked pi true) s.log
      → IsSound s
      → IsSound (after_pi client platform has_relay (b, s))
  unfolding after_pi Ready
  after_pi-IsSound has_relay true s (inl e) sound = cc
  after_pi-IsSound has_relay true s (inr up) sound = drain_to-IsSound pi s (sound, up)
  after_pi-IsSound true false s up sound =
      let (b, w) = client.status_check relay s.world in
      after_relay-IsSound b (record s { world = w; log = checked relay b ∷ s.log })
        (answer_known relay b s.log)
        record { ordered = (tt, sound.ordered); held = (tt, sound.held); valid = sound.valid }
  after_pi-IsSound false false s up sound = sound

  pub drain-IsSound :
      (has_relay : Bool) (s : State W)
      → IsSound s
      → IsSound (drain_approval_outbox client platform has_relay s)
  unfolding drain_approval_outbox
  drain-IsSound has_relay s sound =
      let (b, w) = client.status_check pi s.world in
      elim (Bool-cases (length s.outbox == 0)) [
        | inl empty ↦ simp empty sound
        | inr some_left ↦ simp some_left (
            after_pi-IsSound has_relay b (record s { world = w; log = checked pi b ∷ s.log })
              (answer_known pi b s.log)
              record {
                ordered = (tt, sound.ordered);
                held = (tt, sound.held);
                valid = sound.valid;
              })
      ]
