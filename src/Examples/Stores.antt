-- ===== src/Examples/Stores.antt =====
-- The stores, the SD card and the timeline at concrete contents.
use mathlib.Core.List.{Perm}
use x4_printer.Prelude.{
  ◌+◌, ◌≤◌, ◌≡◌, ◌≢◌, ◌⊎◌, refl, true, false, Option, none, some, [], ◌∷◌, ◌++◌, length, map, arith,
  if◌then◌else◌, inl,
}
use x4_printer.Prelude.Int.{ℤ, pos}
use x4_printer.Prelude.Text.{Text, codes, text_eq, text_eq_iff}
use x4_printer.Table.{find}
use x4_printer.Store.Card.{SdCard, IsSdCard, write_file_atomic, is_some}
use x4_printer.Store.Card.Crash.{IsCrashSafe, write_file_atomic-IsCrashSafe}
use x4_printer.Store.Jobs
use x4_printer.Store.Jobs.{JobEntry, JobIndex, downloaded, approved_print}
use x4_printer.Store.Jobs.Refine
use x4_printer.Store.Jobs.Refine.{
  Op, put, drop_job, mark, apply, run, promise, apply_refines, run-IsValid,
}
use x4_printer.Store.Outbox
use x4_printer.Store.Outbox.{
  ApprovalEntry, Outbox, print, compact_synced, parse_approval_action, approval_action_name,
  enqueue_approval,
}
use x4_printer.Store.Outbox.Compact.{compact_synced_lem}
use x4_printer.Store.Outbox.Enqueue.{Outcome, enqueue_approval_lem}
use x4_printer.Store.Outbox.Pending
use x4_printer.Store.Outbox.Pending.{enqueue, compact, calls, calls-IsValid}
use x4_printer.Store.Planner
use x4_printer.Store.Planner.{TaskEntry, parse_category_name, category_name}
use x4_printer.Calendar.Wake.{NextEventInfo}
use x4_printer.Ui.Timeline.{build_timeline_items, task_item}
use x4_printer.Ui.Timeline.Place.{IsSorted}
use x4_printer.Ui.Timeline.Sorted.{shown_items, build_timeline_items-IsSorted}

abbrev job : JobEntry
job = record {
  job_id = codes "j1";
  title = codes "Ticket";
  xtc_path = codes "/inbox/j1.xtc";
  xtc_bytes = 95;
  xtc_sha256 = [];
  page_count = 1;
  created_at = 7;
  status = downloaded;
  landscape_xtc_path = [];
  landscape_xtc_bytes = 0;
  landscape_xtc_sha256 = [];
  landscape_page_count = 0;
  original_pending = false;
  original_path = [];
  original_mime = [];
  original_bytes = 0;
}

abbrev inbox : JobIndex
inbox = job ∷ []

inbox-IsValid : Jobs.Refine.IsValid inbox
unfolding find
inbox-IsValid = record { fits = omega arith; apart = (refl, tt) }

apply_refines_example :
    Jobs.find (codes "j1") (apply (mark (codes "j1") approved_print) inbox)
    ≡ promise (mark (codes "j1") approved_print) 1 (λ k. Jobs.find k inbox) (codes "j1")
apply_refines_example =
    apply_refines (mark (codes "j1") approved_print) inbox inbox-IsValid (codes "j1")

run-IsValid_example :
    Jobs.Refine.IsValid
      (run (put (record job { job_id = codes "j2" }) ∷ drop_job (codes "j1") ∷ []) inbox)
run-IsValid_example =
    run-IsValid (put (record job { job_id = codes "j2" }) ∷ drop_job (codes "j1") ∷ []) inbox
      inbox-IsValid

abbrev old_approval : ApprovalEntry
old_approval = record {
  approval_id = codes "a1";
  job_id = codes "j1";
  action = print;
  created_at = 8;
  synced = true;
}

abbrev new_approval : ApprovalEntry
new_approval = record old_approval { approval_id = codes "a2"; synced = false }

compact_synced_lem_example :
    ((compact_synced (old_approval ∷ new_approval ∷ [])).0 ≡ new_approval ∷ [])
    × ((compact_synced (old_approval ∷ new_approval ∷ [])).1
          + length (compact_synced (old_approval ∷ new_approval ∷ [])).0
        ≡ 2)
compact_synced_lem_example = compact_synced_lem (old_approval ∷ new_approval ∷ [])

enqueue_approval_lem_example :
    Outcome inbox
      (old_approval ∷ [])
      (codes "j1")
      print
      (codes "a2")
      9
      (enqueue_approval inbox (old_approval ∷ []) (codes "j1") print (codes "a2") 9)
enqueue_approval_lem_example =
    enqueue_approval_lem inbox (old_approval ∷ []) (codes "j1") print (codes "a2") 9

calls-IsValid_example :
    Outbox.Pending.IsValid
      (calls
        (enqueue (codes "j1") print (codes "a2") 9 ∷ compact ∷ [])
        (inbox, old_approval ∷ [])).1
calls-IsValid_example =
    calls-IsValid (enqueue (codes "j1") print (codes "a2") 9 ∷ compact ∷ [])
      (inbox, old_approval ∷ []) record { fits = omega arith; single = (inl refl, tt) }

abbrev task : TaskEntry
task = record {
  id = codes "t1";
  title = codes "Walk";
  category = Planner.health;
  start_time = codes "09:00";
  end_time = codes "10:00";
  done = false;
}

abbrev event : NextEventInfo
event = record {
  has_event = true;
  title = codes "Call";
  start = pos 0;
  end = pos 60;
  all_day = false;
  last_synced_at = pos 0;
  alerted_for_start = pos 0;
  alerted_for_end = pos 0;
}

abbrev midnight : ℤ → Text
midnight t = codes "00:00"

build_timeline_items-IsSorted_example :
    let result = build_timeline_items midnight (task ∷ []) (some event) 8 in
    IsSorted result
    × (length result ≤ 8)
    × ((8 ≤ 1) ⊎ Perm result (shown_items midnight (some event) ++ map task_item (task ∷ [])))
build_timeline_items-IsSorted_example =
    build_timeline_items-IsSorted midnight 8 (task ∷ []) (some event)

-- A card whose calls all succeed: its state gives the content of each path.
abbrev pub Files : Type 0
Files = Text → Option Text

abbrev pub put_file : Files → Text → Option Text → Files
put_file c p v q = if text_eq q p then v else c q

abbrev pub card : SdCard Files
card = record {
  content = λ c p. c p;
  exists = λ c p. is_some (c p);
  write_file = λ c p t. (true, put_file c p (some t));
  remove = λ c p. (true, put_file c p none);
  rename = λ c p q. (true, put_file (put_file c p none) q (c p));
}

pub put_file-same : (c : Files) (p : Text) (v : Option Text) → put_file c p v p ≡ v
put_file-same c p v = ground (arith, (text_eq_iff p p).1 refl)

pub put_file-else : (c : Files) (p q : Text) (v : Option Text) → q ≢ p → put_file c p v q ≡ c q
put_file-else c p q v h = ground (arith, text_eq_iff q p)

pub card-IsSdCard : IsSdCard card
card-IsSdCard = record {
  exists_content = λ c p. refl;
  write_done = λ c p t e. put_file-same c p (some t);
  write_else = λ c p t q h. put_file-else c p q (some t) h;
  remove_done = λ c p e. put_file-same c p none;
  remove_failed = λ c p e. absurd (true_not_false e);
  remove_else = λ c p q h. put_file-else c p q none h;
  rename_done = λ c p q e. put_file-same (put_file c p none) q (c p);
  rename_failed = λ c p q r e. absurd (true_not_false e);
}
  where
    true_not_false : true ≡ false → ⊥
    true_not_false e = cc

abbrev before : Files
before p = some (codes "old")

write_file_atomic-IsCrashSafe_example :
    IsCrashSafe card
      (codes "/inbox/index.json")
      (codes "new")
      (some (codes "old"))
      (write_file_atomic card (codes "/inbox/index.json") (codes "new") before)
write_file_atomic-IsCrashSafe_example =
    write_file_atomic-IsCrashSafe card (codes "/inbox/index.json") (codes "new")
      (some (codes "old")) card-IsSdCard before refl
