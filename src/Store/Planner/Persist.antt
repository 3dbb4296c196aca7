-- ===== src/Store/Planner/Persist.antt =====
-- firmware/src/store/PlannerStore.cpp: the tasks' file, as the text that `writeFileAtomic` writes and
-- that `readFile` reads; `none` is a file that does not exist.
use x4_printer.Prelude.{
  subst, ◌+◌, ◌≤◌, ◌<◌, ◌≡◌, ◌≢◌, refl, sym, ap, ◌∙◌, Bool, true, false, Option, none, some, List,
  [], ◌∷◌, ◌++◌, map, All, length, length-append, append_assoc, append-nil, take, take-all,
  if◌then◌else◌, arith,
}
use x4_printer.Prelude.Text.{Text, codes, text_eq}
use x4_printer.Table
use x4_printer.Table.{id_len}
use x4_printer.Table.Find.{upsert-append}
use x4_printer.Table.Distinct.{AreDistinct}
use x4_printer.Table.Front.{front_new}
use x4_printer.Store.Json.{Json, IsJson, Object, str, flag, rows}
use x4_printer.Store.Outbox.{or_same}
use x4_printer.Store.Planner.{
  Category, other, TaskEntry, TaskIndex, task_key, max_planner_tasks, task_title_len, task_time_len,
  category_name, parse_category_name, upsert,
}
use x4_printer.Store.Planner.Categories.{parse_category_name_iff}

unfoldable pub task_object : TaskEntry → Object
task_object e =
    (codes "id", str e.id)
    ∷ (codes "title", str e.title)
    ∷ (codes "category", str (category_name e.category))
    ∷ (codes "start_time", str e.start_time)
    ∷ (codes "end_time", str e.end_time)
    ∷ (codes "done", flag e.done)
    ∷ []

-- A name that does not parse leaves the category at Other.
unfoldable pub category_of : Text → Category
category_of s = or_same (parse_category_name s) other

module _ {Doc Obj : Type 0} (json : Json Doc Obj) where
  -- The text of `savePlannerIndex`.
  unfoldable pub planner_text : TaskIndex → Text
  planner_text o = json.serialize (rows (codes "tasks") (map task_object o))

  -- The entry that a round of the loop builds, with its `strncpy` calls.
  unfoldable pub task_of : Obj → TaskEntry
  task_of t = record {
    id = take id_len (json.str_or t (codes "id") []);
    title = take task_title_len (json.str_or t (codes "title") []);
    category = category_of (json.str_or t (codes "category") (codes "Other"));
    start_time = take task_time_len (json.str_or t (codes "start_time") []);
    end_time = take task_time_len (json.str_or t (codes "end_time") []);
    done = json.flag_or t (codes "done") false;
  }

  -- A task with no id is skipped; the answer of `upsert` is ignored.
  unfoldable pub add_task : TaskEntry → TaskIndex → TaskIndex
  add_task e o = if text_eq e.id [] then o else or_same (upsert e o) o

  unfoldable pub add_tasks : List Obj → TaskIndex → TaskIndex
  unfolding add_task
  add_tasks [] o = o
  add_tasks (a ∷ as') o = add_tasks as' (add_task (task_of a) o)

  -- The answer of `loadPlannerIndex`, and the index after it, which is cleared first.
  unfoldable pub load_planner : Option Text → Bool × TaskIndex
  unfolding add_tasks
  load_planner none = (false, [])
  load_planner (some []) = (false, [])
  load_planner (some (c ∷ raw)) = elim (json.deserialize (c ∷ raw)) [
    | none ↦ (false, [])
    | some doc ↦ (true, add_tasks (json.objects (codes "tasks") doc) [])
  ]

  -- A task whose texts fit their buffers, with an id.
  pub record IsStorable (e : TaskEntry) : Type 0 where
    pub id_fits : length e.id ≤ id_len
    pub id_some : text_eq e.id [] ≡ false
    pub title_fits : length e.title ≤ task_title_len
    pub start_fits : length e.start_time ≤ task_time_len
    pub end_fits : length e.end_time ≤ task_time_len

  add_new :
      (e : TaskEntry) (o : TaskIndex)
      → text_eq e.id [] ≡ false
      → Table.find task_key e.id o ≡ none
      → length o < max_planner_tasks
      → add_task e o ≡ o ++ e ∷ []
  unfolding add_task upsert
  add_new e o h new room =
      rw (h, add_task, upsert-append task_key max_planner_tasks e o new room) refl

  category_back : (c : Category) → category_of (category_name c) ≡ c
  unfolding category_of
  category_back c = rw ((parse_category_name_iff (category_name c) c).1 refl) refl

  module _ (ok : IsJson json) where
    task_back : (e : TaskEntry) → IsStorable e → task_of (ok.obj_of (task_object e)) ≡ e
    unfolding task_of task_object
    task_back e fits =
        let o = task_object e in
        let i =
          ap (take id_len) (ok.str_read o (codes "id") []) ∙ take-all id_len e.id fits.id_fits in
        let t =
          ap (take task_title_len) (ok.str_read o (codes "title") [])
          ∙ take-all task_title_len e.title fits.title_fits in
        let c =
          ap category_of (ok.str_read o (codes "category") (codes "Other"))
          ∙ category_back e.category in
        let s =
          ap (take task_time_len) (ok.str_read o (codes "start_time") [])
          ∙ take-all task_time_len e.start_time fits.start_fits in
        let f =
          ap (take task_time_len) (ok.str_read o (codes "end_time") [])
          ∙ take-all task_time_len e.end_time fits.end_fits in
        let d = ok.flag_read o (codes "done") false in cc

    -- The ids to come are in the index that is built so far nowhere.
    add_tasks-back :
        (es o : TaskIndex)
        → All IsStorable es
        → AreDistinct task_key (o ++ es)
        → length o + length es ≤ max_planner_tasks
        → add_tasks (map ok.obj_of (map task_object es)) o ≡ o ++ es
    unfolding add_tasks
    add_tasks-back [] o fits d room = sym (append-nil o)
    add_tasks-back (e ∷ es) o fits d room =
        let later = map ok.obj_of (map task_object es) in
        let apart = subst (AreDistinct task_key) (sym (append_assoc o (e ∷ []) es)) d in
        ap (λ x. add_tasks later (add_task x o)) (task_back e fits.0)
        ∙ ap (add_tasks later)
            (add_new e o fits.0.id_some (front_new task_key o e es d) (omega arith))
        ∙ add_tasks-back es (o ++ e ∷ []) fits.1 apart (omega (arith, length-append o (e ∷ [])))
        ∙ append_assoc o (e ∷ []) es

    load_text :
        (text : Text) (doc : Doc)
        → text ≢ []
        → json.deserialize text ≡ some doc
        → load_planner (some text) ≡ (true, add_tasks (json.objects (codes "tasks") doc) [])
    unfolding load_planner
    load_text [] doc h e = absurd (h refl)
    load_text (c ∷ text) doc h e = rw (e, load_planner) refl

    -- Tasks with distinct ids, at most `kMaxPlannerTasks` of them and each with texts that fit, are
    -- loaded just as they were saved, in order.
    pub load_planner-roundtrip :
        (o : TaskIndex)
        → All IsStorable o
        → AreDistinct task_key o
        → length o ≤ max_planner_tasks
        → load_planner (some (planner_text o)) ≡ (true, o)
    unfolding planner_text
    load_planner-roundtrip o fits apart room =
        let d = rows (codes "tasks") (map task_object o) in
        load_text (json.serialize d) (ok.doc_of d) (ok.serialize_some d) (ok.reads_back d)
        ∙ ap (λ x. (true, add_tasks x [])) (ok.objects_rows (codes "tasks") (map task_object o))
        ∙ ap (λ x. (true, x)) (add_tasks-back o [] fits apart (omega arith))
