-- ===== src/Store/Planner.antt =====
-- firmware/src/store/PlannerStore.h: the task index and the category names.
pub mod Categories
pub mod Persist
use x4_printer.Prelude.{ℕ, Bool, Option, none, some, List, [], leb, length, if◌then◌else◌}
use x4_printer.Prelude.Text.{Text, codes, text_eq}
use x4_printer.Table

abbrev pub max_planner_tasks : ℕ
max_planner_tasks = 64

abbrev pub task_title_len : ℕ
task_title_len = 64

abbrev pub task_time_len : ℕ
task_time_len = 5

pub data Category : Type 0 where
  work break chore health social school personal other : Category

unfoldable pub category_name : Category → Text
category_name work = codes "Work"
category_name break = codes "Break"
category_name chore = codes "Chore"
category_name health = codes "Health"
category_name social = codes "Social"
category_name school = codes "School"
category_name personal = codes "Personal"
category_name other = codes "Other"

-- `none` is the source's `false`, which leaves `out` unchanged.
unfoldable pub parse_category_name : Text → Option Category
parse_category_name s =
    if text_eq s (codes "Work")
    then some work
    else if text_eq s (codes "Break")
    then some break
    else if text_eq s (codes "Chore")
    then some chore
    else if text_eq s (codes "Health")
    then some health
    else if text_eq s (codes "Social")
    then some social
    else if text_eq s (codes "School")
    then some school
    else if text_eq s (codes "Personal")
    then some personal
    else if text_eq s (codes "Other")
    then some other
    else none

pub record TaskEntry : Type 0 where
  pub id : Text
  pub title : Text
  pub category : Category
  pub start_time : Text
  pub end_time : Text
  pub done : Bool

abbrev pub task_key : TaskEntry → Text
task_key t = t.id

abbrev pub TaskIndex : Type 0
TaskIndex = List TaskEntry

abbrev pub full : TaskIndex → Bool
full ts = leb max_planner_tasks (length ts)

unfoldable pub find : Text → TaskIndex → Option TaskEntry
find = Table.find task_key

unfoldable pub upsert : TaskEntry → TaskIndex → Option TaskIndex
upsert = Table.upsert task_key max_planner_tasks

unfoldable pub remove : Text → TaskIndex → Option TaskIndex
remove = Table.remove task_key

unfoldable pub set_done : Text → Bool → TaskIndex → Option TaskIndex
set_done k done = Table.modify task_key k (λ t. record t { done = done })

unfoldable pub clear : TaskIndex → TaskIndex
clear ts = []
