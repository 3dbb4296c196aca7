-- ===== src/Store/Jobs/Refine.antt =====
-- The inbox as a map from ids to entries: what each operation of `JobIndex` does to the map, and
-- the invariant that every sequence of operations keeps.
use x4_printer.Prelude.{
  ℕ, ◌≤◌, ◌≡◌, refl, Bool, true, false, Option, none, some, List, [], ◌∷◌, leb, length,
  if◌then◌else◌, arith, Option-cases, inl, inr, ◌&&◌,
}
use x4_printer.Prelude.Text.{Text, same_upto, same_upto_sym}
use x4_printer.Table
use x4_printer.Table.{id_len}
use x4_printer.Table.Find.{
  find-upsert, find-modify, modify-eq-none, length-modify, upsert-eq-none, find_cong,
}
use x4_printer.Table.Distinct.{
  AreDistinct, upsert-AreDistinct, modify-AreDistinct, remove-Removed, remove-eq-none,
}
use x4_printer.Store.Jobs.{
  JobEntry, JobStatus, JobIndex, job_key, max_inbox_jobs, find, upsert, remove, set_status, clear,
}

pub record IsValid (t : JobIndex) : Type 0 where
  pub fits : length t ≤ max_inbox_jobs
  pub apart : AreDistinct job_key t

pub data Op : Type 0 where
  put : JobEntry → Op
  drop_job : Text → Op
  mark : Text → JobStatus → Op
  empty : Op

abbrev or_same : Option JobIndex → JobIndex → JobIndex
or_same none t = t
or_same (some t') t = t'

-- The index after an operation, failed or not.
unfoldable pub apply : Op → JobIndex → JobIndex
apply (put e) t = or_same (upsert e t) t
apply (drop_job k) t = or_same (remove k t) t
apply (mark k s) t = or_same (set_status k s t) t
apply empty t = clear t

unfoldable pub run : List Op → JobIndex → JobIndex
run [] t = t
run (o ∷ os) t = run os (apply o t)

abbrev pub JobMap : Type 0
JobMap = Text → Option JobEntry

abbrev is_none : Option JobEntry → Bool
is_none none = true
is_none (some e) = false

abbrev with_status : JobStatus → Option JobEntry → Option JobEntry
with_status s none = none
with_status s (some e) = some (record e { status = s })

-- What an operation promises of the map; `n` is the number of entries before it.
unfoldable pub promise : Op → ℕ → JobMap → JobMap
promise (put e) n m j =
    if leb max_inbox_jobs n && is_none (m e.job_id)
    then m j
    else if same_upto id_len e.job_id j
    then some e
    else m j
promise (drop_job k) n m j = if same_upto id_len k j then none else m j
promise (mark k s) n m j = if same_upto id_len k j then with_status s (m j) else m j
promise empty n m j = none

keeps_id :
    (k : Text) (s : JobStatus) (x : JobEntry)
    → same_upto id_len x.job_id k ≡ true
    → same_upto id_len k x.job_id ≡ true
keeps_id k s x h = same_upto_sym id_len x.job_id k h

module _ (t : JobIndex) (v : IsValid t) (j : Text) where
  put_refines :
      (e : JobEntry) → find j (apply (put e) t) ≡ promise (put e) (length t) (λ k. find k t) j
  unfolding find apply promise upsert
  put_refines e = elim (Option-cases (upsert e t)) [
    | inl failed ↦ ground (arith, upsert-eq-none job_key max_inbox_jobs e t)
    | inr (t', done) ↦ ground (
      arith,
      find-upsert job_key max_inbox_jobs e t t' j done,
      upsert-eq-none job_key max_inbox_jobs e t,
    )
  ]

  drop_refines :
      (k : Text) → find j (apply (drop_job k) t) ≡ promise (drop_job k) (length t) (λ i. find i t) j
  unfolding find apply promise remove
  drop_refines k = elim (Option-cases (remove k t)) [
    | inl failed ↦ ground (arith, remove-eq-none job_key k t, find_cong job_key k j t)
    | inr (t', done) ↦ ground (arith, (remove-Removed job_key k t t' done v.apart).found j)
  ]

  mark_refines :
      (k : Text) (s : JobStatus)
      → find j (apply (mark k s) t) ≡ promise (mark k s) (length t) (λ i. find i t) j
  unfolding find apply promise set_status
  mark_refines k s = elim (Option-cases (find k t)) [
    | inl absent ↦ ground (
      arith,
      modify-eq-none job_key k (λ e. record e { status = s }) t absent,
      find_cong job_key k j t,
    )
    | inr (e, there) ↦ ground (
      arith,
      find-modify job_key k (λ e. record e { status = s }) j t e (keeps_id k s) there,
      find_cong job_key k j t,
    )
  ]

clear_refines :
    (t : JobIndex) (j : Text) → find j (apply empty t) ≡ promise empty (length t) (λ k. find k t) j
unfolding find apply promise clear Table.find
clear_refines t j = refl

-- Every operation of the inbox does to the map of ids just what it promises: `upsert` sets its id
-- unless the inbox is full and the id new, `remove` clears its id, `setStatus` changes the status
-- of its id if there is one, `clear` empties the map, and all other ids are untouched.
pub apply_refines :
    (o : Op) (t : JobIndex)
    → IsValid t
    → (j : Text) → find j (apply o t) ≡ promise o (length t) (λ k. find k t) j
apply_refines (put e) t v j = put_refines t v j e
apply_refines (drop_job k) t v j = drop_refines t v j k
apply_refines (mark k s) t v j = mark_refines t v j k s
apply_refines empty t v j = clear_refines t j

pub upsert-IsValid :
    (e : JobEntry) (t t' : JobIndex) → upsert e t ≡ some t' → IsValid t → IsValid t'
unfolding upsert
upsert-IsValid e t t' done v = record {
  fits = ground (
    arith,
    find-upsert job_key max_inbox_jobs e t t' e.job_id done,
    upsert-eq-none job_key max_inbox_jobs e t,
    Option-cases (Table.find job_key e.job_id t),
  );
  apart = upsert-AreDistinct job_key max_inbox_jobs e t t' done v.apart;
}

remove-IsValid : (k : Text) (t t' : JobIndex) → remove k t ≡ some t' → IsValid t → IsValid t'
unfolding remove
remove-IsValid k t t' done v =
    let r = remove-Removed job_key k t t' done v.apart in
    record { fits = omega (arith, r.shorter); apart = r.apart }

set_status-IsValid :
    (k : Text) (s : JobStatus) (t t' : JobIndex)
    → set_status k s t ≡ some t'
    → IsValid t
    → IsValid t'
unfolding set_status
set_status-IsValid k s t t' done v = record {
  fits = omega (arith, length-modify job_key k (λ e. record e { status = s }) t t' done);
  apart =
      modify-AreDistinct job_key k (λ e. record e { status = s }) (keeps_id k s) t t' done v.apart;
}

apply-IsValid : (o : Op) (t : JobIndex) → IsValid t → IsValid (apply o t)
unfolding apply clear
apply-IsValid (put e) t v = elim (Option-cases (upsert e t)) [
  | inl failed ↦ rw failed v
  | inr (t', done) ↦ rw done (upsert-IsValid e t t' done v)
]
apply-IsValid (drop_job k) t v = elim (Option-cases (remove k t)) [
  | inl failed ↦ rw failed v
  | inr (t', done) ↦ rw done (remove-IsValid k t t' done v)
]
apply-IsValid (mark k s) t v = elim (Option-cases (set_status k s t)) [
  | inl failed ↦ rw failed v
  | inr (t', done) ↦ rw done (set_status-IsValid k s t t' done v)
]
apply-IsValid empty t v = record { fits = omega arith; apart = tt }

-- From a valid inbox every sequence of operations leads to one with at most `kMaxInboxJobs` entries
-- and no id twice.
pub run-IsValid : (os : List Op) (t : JobIndex) → IsValid t → IsValid (run os t)
unfolding run
run-IsValid [] t v = v
run-IsValid (o ∷ os) t v = run-IsValid os (apply o t) (apply-IsValid o t v)
