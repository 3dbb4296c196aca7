-- ===== src/Table.antt =====
-- The fixed-capacity, allocation-free index that store/JobStore.h, store/PlannerStore.h and
-- config/WifiStore.h each write out: an array `entries_` and `count_`. The list is the live prefix
-- `entries_[0 .. count_)`, so `count_` is its length; slots past it are never read. An entry is found
-- by `strncmp` of its id over `id_len` bytes.
pub mod Find
pub mod Distinct
pub mod Front
use x4_printer.Prelude.{ℕ, Option, none, some, List, [], ◌∷◌, ◌++◌, leb, length, if◌then◌else◌}
use x4_printer.Prelude.Text.{Text, same_upto}

-- `kJobIdLen`, `kApprovalIdLen`, `kTaskIdLen` and `kMaxSsidLen`.
abbrev pub id_len : ℕ
id_len = 32

module _ {E : Type 0} (key : E → Text) where
  -- The first entry with the id.
  unfoldable pub find : Text → List E → Option E
  find k [] = none
  find k (e ∷ es) = if same_upto id_len (key e) k then some e else find k es

  -- A write through the pointer that `find` returns; `none` where it returns null.
  unfoldable pub modify : Text → (E → E) → List E → Option (List E)
  modify k f [] = none
  modify k f (e ∷ es) =
      if same_upto id_len (key e) k
      then some (f e ∷ es)
      else elim (modify k f es) [ none ↦ none | some es' ↦ some (e ∷ es') ]

  -- `none` is the source's `false`: the table is full and the id is new.
  unfoldable pub upsert : ℕ → E → List E → Option (List E)
  unfolding modify
  upsert cap e es = elim (modify (key e) (λ _. e) es) [
    | some es' ↦ some es'
    | none ↦ if leb cap (length es) then none else some (es ++ e ∷ [])
  ]

-- The last of `e ∷ es` and what stands before it.
unfoldable pub split_last {ℓ} : {E : Type ℓ} → E → List E → List E × E
split_last e [] = ([], e)
split_last e (x ∷ es) = let (front, last) = split_last x es in (e ∷ front, last)

-- `entries_[i] = entries_[count_ - 1]; count_--`, seen from slot i on: the slot's old content is
-- dropped, and the last entry of the rest, if there is one, moves into the slot.
unfoldable pub fill_hole {ℓ} : {E : Type ℓ} → List E → List E
unfolding split_last
fill_hole [] = []
fill_hole (e ∷ es) = let (front, last) = split_last e es in last ∷ front

-- `none` is the source's `false`: no such id.
unfoldable pub remove : {E : Type 0} (key : E → Text) → Text → List E → Option (List E)
unfolding fill_hole
remove key k [] = none
remove key k (e ∷ es) =
    if same_upto id_len (key e) k
    then some (fill_hole es)
    else elim (remove key k es) [ none ↦ none | some es' ↦ some (e ∷ es') ]
