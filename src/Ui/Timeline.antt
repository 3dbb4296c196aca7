-- ===== src/Ui/Timeline.antt =====
-- firmware/src/ui/TimelineMerge.h: planner tasks and the next calendar event, sorted by the first five
-- bytes of their labels. `gmtime_r` and `strftime` are a parameter, the text of a UTC time.
pub mod Insert
pub mod Place
pub mod Sorted
use x4_printer.Prelude.{
  ℕ, zero, suc, Bool, true, false, Option, none, some, List, [], ◌∷◌, ◌++◌, ltb, leb, ◌==◌, ◌&&◌,
  length, get_elem?, set, take, if◌then◌else◌,
}
use x4_printer.Prelude.Int.{ℤ}
use x4_printer.Prelude.Text.{Text, codes}
use x4_printer.Store.Planner.{Category, other, TaskEntry, TaskIndex}
use x4_printer.Calendar.Wake.{NextEventInfo}

-- `kTimelineLabelLen`, less the NUL that `snprintf` keeps room for.
abbrev pub label_len : ℕ
label_len = 95

pub record TimelineItem : Type 0 where
  pub label : Text
  pub category : Category
  pub is_calendar_event : Bool
  pub done : Bool

-- `strncmp(a, b, n) > 0`; a text that ends has its NUL there.
abbrev pub gt_upto : ℕ → Text → Text → Bool
gt_upto zero a b = false
gt_upto (suc n) [] b = false
gt_upto (suc n) (x ∷ a) [] = true
gt_upto (suc n) (x ∷ a) (y ∷ b) = if x == y then gt_upto n a b else ltb y x

abbrev pub is_after : TimelineItem → TimelineItem → Bool
is_after a b = gt_upto 5 a.label b.label

-- The `while` loop of `insertSorted` at `pos`: the array and the place that it finds.
unfoldable pub shift_loop : List TimelineItem → ℕ → TimelineItem → List TimelineItem × ℕ
shift_loop out zero item = (out, zero)
shift_loop out (suc pos) item = elim (get_elem? out pos) [
  | none ↦ (out, suc pos)
  | some x ↦ elim (is_after x item) [
    | true ↦ shift_loop (set out (suc pos) x) pos item
    | false ↦ (out, suc pos)
  ]
]

-- `insertSorted`: `out` is what is written so far, `out[0 .. count)`. The slot `out[count]` is there,
-- with content that is not read; the item stands for it.
unfoldable pub insert_sorted : ℕ → TimelineItem → List TimelineItem → List TimelineItem
unfolding shift_loop
insert_sorted max_items item out =
    let (shifted, pos) = shift_loop (out ++ item ∷ []) (length out) item in
    if leb max_items (length out) then out else set shifted pos item

abbrev pub task_item : TaskEntry → TimelineItem
task_item t = record {
  label = take label_len (t.start_time ++ (codes "-" ++ (t.end_time ++ (codes " " ++ t.title))));
  category = t.category;
  is_calendar_event = false;
  done = t.done;
}

abbrev pub event_item : (ℤ → Text) → NextEventInfo → TimelineItem
event_item utc_hm event = record {
  label = take label_len (utc_hm event.start ++ (codes " Cal: " ++ event.title));
  category = other;
  is_calendar_event = true;
  done = false;
}

-- The loop over the tasks, with its test `count < maxItems`.
unfoldable pub insert_tasks : ℕ → TaskIndex → List TimelineItem → List TimelineItem
unfolding insert_sorted
insert_tasks max_items [] out = out
insert_tasks max_items (t ∷ ts) out = elim (ltb (length out) max_items) [
  | true ↦ insert_tasks max_items ts (insert_sorted max_items (task_item t) out)
  | false ↦ out
]

-- For `next_event`, `none` is a null `nextEvent`.
unfoldable pub build_timeline_items :
    (ℤ → Text) → TaskIndex → Option NextEventInfo → ℕ → List TimelineItem
unfolding insert_tasks insert_sorted
build_timeline_items utc_hm tasks next_event max_items =
    let out = insert_tasks max_items tasks [] in
    elim next_event [
      | none ↦ out
      | some event ↦
          if event.has_event && ltb (length out) max_items
          then insert_sorted max_items (event_item utc_hm event) out
          else out
    ]
