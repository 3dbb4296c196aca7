-- ===== src/Sync/Approvals.antt =====
-- What becomes of one unsynced approval during a sync.
use x4_printer.Prelude.{
  ℕ, zero, suc, ◌+◌, ◌≡◌, ◌⊎◌, refl, sym, subst, Bool, true, false, List, [], ◌∷◌, Among, keep,
  length, get_elem?, ◌==◌, Option-cases, Bool-cases, inl, inr,
}
use x4_printer.Prelude.Text.{Text, same_upto}
use x4_printer.Table.{id_len, modify}
use x4_printer.Store.Outbox.{ApprovalEntry, Outbox, approval_key, mark_synced, or_same}
use x4_printer.Store.Outbox.Compact.{is_unsynced, compact_synced_lem}
use x4_printer.Sync.Requests.{
  Client, Platform, State, Event, Endpoint, pi, relay, checked, downloaded, acked, uploaded,
  submitted,
}
use x4_printer.Sync.Drain.{
  waits, submit, after_submit, drain_entry, drain_loop, compact_changed, drain_to, after_relay,
  after_pi, drain_approval_outbox,
}

-- The endpoint said that the approval is applied.
abbrev pub IsAcceptance : Text → Event → Type 0
IsAcceptance k (checked endpoint b) = ⊥
IsAcceptance k (downloaded m v b) = ⊥
IsAcceptance k (acked m b) = ⊥
IsAcceptance k (uploaded j b) = ⊥
IsAcceptance k (submitted e endpoint b) = (b ≡ true) × (same_upto id_len k e.approval_id ≡ true)

abbrev pub Accepted : Text → List Event → Type 0
Accepted k [] = ⊥
Accepted k (e ∷ log) = IsAcceptance k e ⊎ Accepted k log

mark_synced-Among :
    (e : ApprovalEntry) (k : Text) (o : Outbox)
    → Among e o
    → (same_upto id_len e.approval_id k ≡ true) ⊎ Among e (or_same (mark_synced k o) o)
unfolding mark_synced modify
mark_synced-Among e k [] h = absurd h
mark_synced-Among e k (x ∷ o) h = elim (Bool-cases (same_upto id_len x.approval_id k)) [
  | inl hit ↦ elim h [
    | inl here ↦ inl (subst (λ y. same_upto id_len y.approval_id k ≡ true) here hit)
    | inr later ↦ rw (hit) (inr (inr later))
  ]
  | inr miss ↦ elim (Option-cases (modify approval_key k (λ y. record y { synced = true }) o)) [
    | inl absent ↦ simp (miss, absent) (inr h)
    | inr (o', marked) ↦
        simp (miss, marked)
          (elim h [
            | inl here ↦ inr (inl here)
            | inr later ↦ elim (mark_synced-Among e k o later) [
              | inl same ↦ inl same
              | inr there ↦ inr (inr (simp (marked) at there))
            ]
          ])
  ]
]

keep-Among :
    (e : ApprovalEntry) (o : Outbox) → e.synced ≡ false → Among e o → Among e (keep is_unsynced o)
keep-Among e [] h m = m
keep-Among e (x ∷ o) h (inl here) =
    let open_entry : x.synced ≡ false = subst (λ y. y.synced ≡ false) (sym here) h in
    simp open_entry (inl here)
keep-Among e (x ∷ o) h (inr later) = elim (Bool-cases x.synced) [
  | inl synced ↦ simp synced (keep-Among e o h later)
  | inr unsynced ↦ simp unsynced (inr (keep-Among e o h later))
]

-- The approval is still to be synced, or it was accepted.
abbrev pub IsSafe : {W : Type 0} → ApprovalEntry → State W → Type 0
IsSafe e s = Among e s.outbox ⊎ Accepted e.approval_id s.log

module _ {W : Type 0} (client : Client W) (platform : Platform W) (a : ApprovalEntry)
    (open_entry : a.synced ≡ false) where
  after_submit-IsSafe :
      (e : ApprovalEntry) (endpoint : Endpoint) (changed b : Bool) (s : State W) (log : List Event)
      → s.log ≡ submitted e endpoint b ∷ log
      → IsSafe a s
      → IsSafe a (after_submit client platform e endpoint changed (b, s)).1
  unfolding after_submit
  after_submit-IsSafe e endpoint changed true s log logged (inl there) =
      elim (mark_synced-Among a e.approval_id s.outbox there) [
        | inl same ↦ inr (subst (Accepted a.approval_id) (sym logged) (inl (refl, same)))
        | inr kept ↦ inl kept
      ]
  after_submit-IsSafe e endpoint changed true s log logged (inr done) = inr done
  after_submit-IsSafe e endpoint changed false s log logged h = h

  drain_entry-IsSafe :
      (e : ApprovalEntry) (endpoint : Endpoint) (changed : Bool) (s : State W)
      → IsSafe a s
      → IsSafe a (drain_entry client platform e endpoint changed s).1
  unfolding drain_entry submit
  drain_entry-IsSafe e endpoint changed s h = elim (Bool-cases e.synced) [
    | inl synced ↦ simp synced h
    | inr unsynced ↦ elim (Bool-cases (waits e s.jobs)) [
      | inl waiting ↦ simp (unsynced, waiting) h
      | inr free ↦
          let (b, s') = submit client platform e endpoint s in
          simp (unsynced, free)
            (after_submit-IsSafe e endpoint changed b s' s.log refl
              (elim h [ inl there ↦ inl there | inr done ↦ inr (inr done) ]))
    ]
  ]

  drain_loop-IsSafe :
      (left i : ℕ) (endpoint : Endpoint) (changed : Bool) (s : State W)
      → IsSafe a s
      → IsSafe a (drain_loop client platform left i endpoint (changed, s)).1
  unfolding drain_loop
  drain_loop-IsSafe zero i endpoint changed s h = h
  drain_loop-IsSafe (suc left) i endpoint changed s h = elim (Option-cases (get_elem? s.outbox i)) [
    | inl past ↦ rw (past, drain_loop) h
    | inr (e, there) ↦
        let (changed', s') = drain_entry client platform e endpoint changed s in
        rw (there, drain_loop)
          (drain_loop-IsSafe left (i + 1) endpoint changed' s'
            (drain_entry-IsSafe e endpoint changed s h))
  ]

  compact_changed-IsSafe :
      (b : Bool) (s : State W) → IsSafe a s → IsSafe a (compact_changed client platform (b, s))
  unfolding compact_changed
  compact_changed-IsSafe true s (inl there) = inl (
      subst (Among a) (sym (compact_synced_lem s.outbox).0)
        (keep-Among a s.outbox open_entry there))
  compact_changed-IsSafe true s (inr done) = inr done
  compact_changed-IsSafe false s h = h

  drain_to-IsSafe :
      (endpoint : Endpoint) (s : State W)
      → IsSafe a s
      → IsSafe a (drain_to client platform endpoint s)
  unfolding drain_to
  drain_to-IsSafe endpoint s h =
      let (b, s') = drain_loop client platform (length s.outbox) 0 endpoint (false, s) in
      compact_changed-IsSafe b s' (drain_loop-IsSafe (length s.outbox) 0 endpoint false s h)

  after_checked :
      (endpoint : Endpoint) (b : Bool) (s : State W)
      → IsSafe a s
      → Among a s.outbox ⊎ Accepted a.approval_id (checked endpoint b ∷ s.log)
  after_checked endpoint b s (inl there) = inl there
  after_checked endpoint b s (inr done) = inr (inr done)

  after_relay-IsSafe :
      (b : Bool) (s : State W) → IsSafe a s → IsSafe a (after_relay client platform (b, s))
  unfolding after_relay
  after_relay-IsSafe true s h = drain_to-IsSafe relay s h
  after_relay-IsSafe false s h = h

  after_pi-IsSafe :
      (has_relay b : Bool) (s : State W)
      → IsSafe a s
      → IsSafe a (after_pi client platform has_relay (b, s))
  unfolding after_pi
  after_pi-IsSafe has_relay true s h = drain_to-IsSafe pi s h
  after_pi-IsSafe true false s h =
      let (b, w) = client.status_check relay s.world in
      after_relay-IsSafe b (record s { world = w; log = checked relay b ∷ s.log })
        (after_checked relay b s h)
  after_pi-IsSafe false false s h = h

  -- An unsynced approval that is in the outbox, or whose id an endpoint already accepted, is after
  -- `drainApprovalOutbox` still in the outbox, or an endpoint accepted its id.
  pub drain-IsSafe :
      (has_relay : Bool) (s : State W)
      → IsSafe a s
      → IsSafe a (drain_approval_outbox client platform has_relay s)
  unfolding drain_approval_outbox
  drain-IsSafe has_relay s h =
      let (b, w) = client.status_check pi s.world in
      elim (Bool-cases (length s.outbox == 0)) [
        | inl empty ↦ simp empty h
        | inr some_left ↦ simp some_left (
            after_pi-IsSafe has_relay b (record s { world = w; log = checked pi b ∷ s.log })
              (after_checked pi b s h))
      ]
