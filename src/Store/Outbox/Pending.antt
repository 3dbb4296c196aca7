-- ===== src/Store/Outbox/Pending.antt =====
-- A job never has two approvals that wait to be synced, whatever the calls and their order.
use x4_printer.Prelude.{
  ℕ, ◌≤◌, ◌≡◌, ◌⊎◌, refl, ap, take, subst, true, false, not, ◌&&◌, some, List, [], ◌∷◌, ◌++◌,
  length, keep, if◌then◌else◌, arith, Option-cases, Bool-cases, inl, inr, length-append,
}
use x4_printer.Prelude.Text.{Text, same_upto, same_upto_comm, same_upto-take}
use x4_printer.Table.{id_len, modify}
use x4_printer.Table.Find.{length-modify}
use x4_printer.Store.Jobs.{JobIndex}
use x4_printer.Store.Outbox.{
  ApprovalEntry, ApprovalAction, Outbox, approval_key, max_outbox_entries, has_pending_for_job,
  mark_synced, compact_synced, enqueue_approval, or_same,
}
use x4_printer.Store.Outbox.Compact.{is_unsynced, compact_synced_lem}
use x4_printer.Store.Outbox.Enqueue.{not_found, pending, no_room, queued, enqueue_approval_lem}

abbrev pub OnePending : Outbox → Type 0
OnePending [] = Unit
OnePending (e ∷ es) =
    ((e.synced ≡ true) ⊎ (has_pending_for_job e.job_id es ≡ false)) × OnePending es

pub record IsValid (o : Outbox) : Type 0 where
  pub fits : length o ≤ max_outbox_entries
  pub single : OnePending o

has_pending-append :
    (k : Text) (o : Outbox) (e : ApprovalEntry)
    → has_pending_for_job k (o ++ e ∷ [])
      ≡ (if has_pending_for_job k o then true else not e.synced && same_upto id_len e.job_id k)
unfolding has_pending_for_job
has_pending-append k [] e = ground arith
has_pending-append k (x ∷ o) e = ground (arith, has_pending-append k o e)

OnePending-append :
    (o : Outbox) (k : Text) (e : ApprovalEntry)
    → e.job_id ≡ take id_len k
    → has_pending_for_job k o ≡ false
    → OnePending o
    → OnePending (o ++ e ∷ [])
unfolding has_pending_for_job
OnePending-append [] k e job free v = (inr refl, tt)
OnePending-append (x ∷ o) k e job free v = (
  ground (
    arith,
    has_pending-append x.job_id o e,
    ap (λ t. same_upto id_len t x.job_id) job,
    same_upto-take id_len k x.job_id,
    same_upto_comm id_len k x.job_id,
  ),
  OnePending-append o k e job (ground arith) v.1,
)

-- Marking an entry synced frees its job and no other.
has_pending-mark :
    (i k : Text) (o o' : Outbox)
    → mark_synced i o ≡ some o'
    → has_pending_for_job k o ≡ false
    → has_pending_for_job k o' ≡ false
unfolding mark_synced modify has_pending_for_job
has_pending-mark i k [] o' h free = cc
has_pending-mark i k (x ∷ o) o' h free = elim (Option-cases (mark_synced i o)) [
  | inl stuck ↦ ground arith
  | inr (rest, marked) ↦ ground (arith, has_pending-mark i k o rest marked)
]

OnePending-mark :
    (i : Text) (o o' : Outbox) → mark_synced i o ≡ some o' → OnePending o → OnePending o'
unfolding mark_synced modify
OnePending-mark i [] o' h v = cc
OnePending-mark i (x ∷ o) o' h v = elim (Bool-cases (same_upto id_len x.approval_id i)) [
  | inl hit ↦
      let e : record x { synced = true } ∷ o ≡ o' = ground arith in
      subst OnePending e (inl refl, v.1)
  | inr miss ↦ elim (Option-cases (mark_synced i o)) [
    | inl stuck ↦ absurd (ground arith)
    | inr (rest, marked) ↦
        let e : x ∷ rest ≡ o' = ground arith in
        subst OnePending e (
          elim v.0 [
            | inl old ↦ inl old
            | inr clear ↦ inr (has_pending-mark i x.job_id o rest marked clear)
          ],
          OnePending-mark i o rest marked v.1,
        )
  ]
]

has_pending-keep :
    (k : Text) (o : Outbox) → has_pending_for_job k (keep is_unsynced o) ≡ has_pending_for_job k o
unfolding has_pending_for_job
has_pending-keep k [] = refl
has_pending-keep k (x ∷ o) = ground (arith, has_pending-keep k o)

OnePending-keep : (o : Outbox) → OnePending o → OnePending (keep is_unsynced o)
OnePending-keep [] v = tt
OnePending-keep (x ∷ o) v = elim (Bool-cases x.synced) [
  | inl old ↦ simp old (OnePending-keep o v.1)
  | inr new ↦ simp new (ground (arith, has_pending-keep x.job_id o), OnePending-keep o v.1)
]

-- The calls that the firmware makes on the inbox and the outbox.
pub data Call : Type 0 where
  enqueue : Text → ApprovalAction → Text → ℕ → Call
  mark : Text → Call
  compact : Call

unfoldable pub call : Call → JobIndex × Outbox → JobIndex × Outbox
call (enqueue k action i t) (jobs, o) =
    let (r, jobs', o') = enqueue_approval jobs o k action i t in (jobs', o')
call (mark i) (jobs, o) = (jobs, or_same (mark_synced i o) o)
call compact (jobs, o) = (jobs, (compact_synced o).0)

unfoldable pub calls : List Call → JobIndex × Outbox → JobIndex × Outbox
calls [] s = s
calls (c ∷ cs) s = calls cs (call c s)

enqueue-IsValid :
    (jobs : JobIndex) (o : Outbox) (k : Text) (action : ApprovalAction) (i : Text) (t : ℕ)
    → IsValid o
    → IsValid (enqueue_approval jobs o k action i t).2
enqueue-IsValid jobs o k action i t v = elim (enqueue_approval_lem jobs o k action i t) [
  | not_found a e ↦ rw e v
  | pending j a b e ↦ rw e v
  | no_room j a b f e ↦ rw e v
  | queued j jobs' entry status a free room e is_pending of_action found ↦ rw e record {
    fits = ground (arith, length-append o (entry ∷ []));
    single = OnePending-append o k entry is_pending.job free v.single;
  }
]

length-mark : (i : Text) (o o' : Outbox) → mark_synced i o ≡ some o' → length o' ≡ length o
unfolding mark_synced
length-mark i o o' marked =
    length-modify approval_key i (λ e. record e { synced = true }) o o' marked

call-IsValid : (c : Call) (s : JobIndex × Outbox) → IsValid s.1 → IsValid (call c s).1
unfolding call
call-IsValid (enqueue k action i t) (jobs, o) v = enqueue-IsValid jobs o k action i t v
call-IsValid (mark i) (jobs, o) v = elim (Option-cases (mark_synced i o)) [
  | inl absent ↦ rw absent v
  | inr (o', marked) ↦ rw marked record {
    fits = omega (arith, length-mark i o o' marked);
    single = OnePending-mark i o o' marked v.single;
  }
]
call-IsValid compact (jobs, o) v = record {
  fits = omega (arith, (compact_synced_lem o).1);
  single = rw (compact_synced_lem o).0 (OnePending-keep o v.single);
}

-- From a valid outbox, every sequence of `enqueueApproval`, `markSynced` and `compactSynced` keeps at
-- most `kMaxOutboxEntries` entries and at most one unsynced entry for each job.
pub calls-IsValid : (cs : List Call) (s : JobIndex × Outbox) → IsValid s.1 → IsValid (calls cs s).1
unfolding calls
calls-IsValid [] s v = v
calls-IsValid (c ∷ cs) s v = calls-IsValid cs (call c s) (call-IsValid c s v)
