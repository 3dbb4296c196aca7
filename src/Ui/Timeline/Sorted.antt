-- ===== src/Ui/Timeline/Sorted.antt =====
-- The timeline is sorted, and holds every item that was to be shown.
use mathlib.Core.List.{Perm, perm_middle}
use mathlib.Core.List.Perm
use x4_printer.Prelude.{
  ℕ, append-nil, suc, ◌+◌, ◌-◌, ◌≤◌, ◌<◌, ◌≡◌, ◌⊎◌, refl, ap, subst, false, Option, none, some,
  List, [], ◌∷◌, ◌++◌, leb, ltb, length, if◌then◌else◌, arith, Bool-cases, inl, inr, map,
}
use x4_printer.Prelude.Int.{ℤ}
use x4_printer.Prelude.Text.{Text}
use x4_printer.Store.Planner.{TaskIndex}
use x4_printer.Calendar.Wake.{NextEventInfo}
use x4_printer.Ui.Timeline.{
  TimelineItem, insert_sorted, insert_tasks, build_timeline_items, task_item, event_item,
}
use x4_printer.Ui.Timeline.Insert.{rev_onto, insert_sorted-place, rev_onto_twice, length-rev_onto}
use x4_printer.Ui.Timeline.Place.{IsSorted, place-IsSorted, place-perm, length-place}

module _ (max_items : ℕ) where
  insert_sorted-IsSorted :
      (item : TimelineItem) (out : List TimelineItem)
      → IsSorted out
      → IsSorted (insert_sorted max_items item out)
  insert_sorted-IsSorted item out s =
      rw insert_sorted-place (elim (Bool-cases (leb max_items (length out))) [
        | inl full ↦ rw full s
        | inr room ↦
            rw room (place-IsSorted (rev_onto out []) item [] (rw (rev_onto_twice out []) s) tt)
      ])

  insert_sorted-perm :
      (item : TimelineItem) (out : List TimelineItem)
      → length out < max_items
      → Perm (insert_sorted max_items item out) (item ∷ out)
        × (length (insert_sorted max_items item out) ≡ length out + 1)
  insert_sorted-perm item out room =
      let open_slot : leb max_items (length out) ≡ false = ground arith in
      rw (insert_sorted-place, open_slot)
        (
          rw (rev_onto_twice out []) at (place-perm (rev_onto out []) item []),
          omega (arith, length-place (rev_onto out []) item [], length-rev_onto out []),
        )

  -- What the loop over the tasks leaves.
  record Built (items out : List TimelineItem) (room : ℕ) (result : List TimelineItem)
      : Type 0 where
    sorted : IsSorted result
    bounded : length result ≤ max_items
    complete :
        (room < length items)
        ⊎ (Perm result (items ++ out) × (length result ≡ length items + length out))

  insert_tasks-Built :
      (ts : TaskIndex) (out : List TimelineItem)
      → IsSorted out
      → length out ≤ max_items
      → Built (map task_item ts) out (max_items - length out) (insert_tasks max_items ts out)
  unfolding insert_tasks
  insert_tasks-Built [] out s h = record {
    sorted = s;
    bounded = h;
    complete = inr (Perm.refl out, omega arith);
  }
  insert_tasks-Built (t ∷ ts) out s h = elim (Bool-cases (ltb (length out) max_items)) [
    | inl room ↦
        let (perm, grown) = insert_sorted-perm (task_item t) out (ground arith) in
        let b =
          insert_tasks-Built ts (insert_sorted max_items (task_item t) out)
            (insert_sorted-IsSorted (task_item t) out s) (ground (arith, grown)) in
        rw (room, insert_tasks)
          (record {
            sorted = b.sorted;
            bounded = b.bounded;
            complete = elim b.complete [
              | inl short ↦ inl (omega (arith, grown))
              | inr (p, n) ↦ inr (
                Perm.trans p (
                    Perm.trans (Perm.append_left (map task_item ts) perm)
                      (perm_middle (map task_item ts) out)),
                omega (arith, grown),
              )
            ];
          })
    | inr full ↦
        rw (full, insert_tasks) (record { sorted = s; bounded = h; complete = inl (ground arith) })
  ]

abbrev pub shown_items : (ℤ → Text) → Option NextEventInfo → List TimelineItem
shown_items utc_hm none = []
shown_items utc_hm (some event) = if event.has_event then event_item utc_hm event ∷ [] else []

length-tasks : (ts : TaskIndex) → length (map task_item ts) ≡ length ts
length-tasks [] = refl
length-tasks (t ∷ ts) = ap suc (length-tasks ts)

module _ (utc_hm : ℤ → Text) (max_items : ℕ) where
  tasks-Built :
      (tasks : TaskIndex)
      → Built max_items (map task_item tasks) [] max_items (insert_tasks max_items tasks [])
  tasks-Built tasks =
      let room : max_items - 0 ≡ max_items = omega arith in
      subst (λ r. Built max_items (map task_item tasks) [] r (insert_tasks max_items tasks [])) room
        (insert_tasks-Built max_items tasks [] tt (omega arith))

  -- With no event to show, the loop over the tasks is all.
  tasks_only :
      (tasks : TaskIndex) (out : List TimelineItem)
      → Built max_items (map task_item tasks) [] max_items out
      → IsSorted out
        × (length out ≤ max_items)
        × ((max_items ≤ length tasks) ⊎ Perm out (map task_item tasks))
  tasks_only tasks out b = (
    b.sorted,
    b.bounded,
    elim b.complete [
      | inl short ↦ inl (omega (arith, length-tasks tasks))
      | inr (p, n) ↦ inr (subst (λ xs. Perm out xs) (append-nil (map task_item tasks)) p)
    ],
  )

  with_event :
      (tasks : TaskIndex) (event : NextEventInfo) (out : List TimelineItem)
      → Built max_items (map task_item tasks) [] max_items out
      → let result =
          if ltb (length out) max_items
          then insert_sorted max_items (event_item utc_hm event) out
          else out in
        IsSorted result
        × (length result ≤ max_items)
        × ((max_items ≤ length tasks) ⊎ Perm result (event_item utc_hm event ∷ map task_item tasks))
  with_event tasks event out b = elim (Bool-cases (ltb (length out) max_items)) [
    | inl room ↦
        let (p, n) = insert_sorted-perm max_items (event_item utc_hm event) out (ground arith) in
        let (s, bound, rest) = tasks_only tasks out b in
        rw room (
          insert_sorted-IsSorted max_items (event_item utc_hm event) out b.sorted,
          ground (arith, n),
          elim rest [
            | inl short ↦ inl short
            | inr q ↦ inr (Perm.trans p (Perm.cons (event_item utc_hm event) q))
          ],
        )
    | inr full ↦
        let (s, bound, rest) = tasks_only tasks out b in
        rw full (
          s,
          bound,
          elim b.complete [
            | inl short ↦ inl (omega (arith, length-tasks tasks))
            | inr (p, n) ↦ inl (ground (arith, length-tasks tasks))
          ],
        )
  ]

  -- The timeline is sorted by the first five bytes of its labels and has at most `maxItems` items. If
  -- there are fewer tasks than `maxItems`, it holds every task and the event to show, each once, and
  -- nothing else.
  pub build_timeline_items-IsSorted :
      (tasks : TaskIndex) (next : Option NextEventInfo)
      → let result = build_timeline_items utc_hm tasks next max_items in
        IsSorted result
        × (length result ≤ max_items)
        × ((max_items ≤ length tasks)
            ⊎ Perm result (shown_items utc_hm next ++ map task_item tasks))
  unfolding build_timeline_items
  build_timeline_items-IsSorted tasks none =
      tasks_only tasks (insert_tasks max_items tasks []) (tasks-Built tasks)
  build_timeline_items-IsSorted tasks (some event) = elim (Bool-cases event.has_event) [
    | inl has ↦
        rw (has, build_timeline_items, shown_items)
          (with_event tasks event (insert_tasks max_items tasks []) (tasks-Built tasks))
    | inr hasnt ↦
        rw (hasnt, build_timeline_items, shown_items)
          (tasks_only tasks (insert_tasks max_items tasks []) (tasks-Built tasks))
  ]
