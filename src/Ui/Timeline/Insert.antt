-- ===== src/Ui/Timeline/Insert.antt =====
-- The shifting loop of `insertSorted` against a plain insertion from the right.
use x4_printer.Prelude.{
  ℕ, suc, ◌+◌, ◌≡◌, refl, ap, List, [], ◌∷◌, ◌++◌, leb, length, get_elem?, set, if◌then◌else◌,
  arith,
}
use x4_printer.Ui.Timeline.{TimelineItem, is_after, shift_loop, insert_sorted}

-- `xs`, last element first, in front of `ys`.
abbrev pub rev_onto {ℓ} : {A : Type ℓ} → List A → List A → List A
rev_onto [] ys = ys
rev_onto (x ∷ xs) ys = rev_onto xs (x ∷ ys)

-- The item goes in front of `tail` and of the elements before that are after it; `front` is reversed.
abbrev pub place : List TimelineItem → TimelineItem → List TimelineItem → List TimelineItem
place [] item tail = item ∷ tail
place (x ∷ front) item tail =
    if is_after x item then place front item (x ∷ tail) else rev_onto (x ∷ front) (item ∷ tail)

module _ {ℓ} {A : Type ℓ} where
  get_elem?-rev_onto :
      (xs ys : List A) (j k : ℕ) → j ≡ length xs + k → get_elem? (rev_onto xs ys) j ≡ get_elem? ys k
  get_elem?-rev_onto [] ys j k e = ap (get_elem? ys) (omega arith)
  get_elem?-rev_onto (x ∷ xs) ys j k e = get_elem?-rev_onto xs (x ∷ ys) j (suc k) (omega arith)

  set-rev_onto :
      (xs ys : List A) (j k : ℕ) (v : A)
      → j ≡ length xs + k
      → set (rev_onto xs ys) j v ≡ rev_onto xs (set ys k v)
  set-rev_onto [] ys j k v e = let same : j ≡ k = omega arith in ap (λ i. set ys i v) same
  set-rev_onto (x ∷ xs) ys j k v e = set-rev_onto xs (x ∷ ys) j (suc k) v (omega arith)

  pub length-rev_onto : (xs ys : List A) → length (rev_onto xs ys) ≡ length xs + length ys
  length-rev_onto [] ys = omega arith
  length-rev_onto (x ∷ xs) ys = omega (arith, length-rev_onto xs (x ∷ ys))

  rev_onto-append : (xs ys zs : List A) → rev_onto xs ys ++ zs ≡ rev_onto xs (ys ++ zs)
  rev_onto-append [] ys zs = refl
  rev_onto-append (x ∷ xs) ys zs = rev_onto-append xs (x ∷ ys) zs

  -- Every list is another one reversed.
  pub rev_onto_twice : (xs ys : List A) → rev_onto (rev_onto xs ys) [] ≡ rev_onto ys xs
  rev_onto_twice [] ys = refl
  rev_onto_twice (x ∷ xs) ys = rev_onto_twice xs (x ∷ ys)

module _ (item : TimelineItem) where
  -- The loop, and the write that follows it, with a free slot `y` at `pos`.
  shift_loop-place :
      (front : List TimelineItem) (y : TimelineItem) (tail : List TimelineItem)
      → let (arr, pos) = shift_loop (rev_onto front (y ∷ tail)) (length front) item in
        set arr pos item ≡ place front item tail
  unfolding shift_loop
  shift_loop-place [] y tail = refl
  shift_loop-place (x ∷ front) y tail = ground (
    arith,
    get_elem?-rev_onto front (x ∷ y ∷ tail) (length front) 0 (omega arith),
    set-rev_onto front (x ∷ y ∷ tail) (suc (length front)) 1 x (omega arith),
    set-rev_onto front (x ∷ y ∷ tail) (suc (length front)) 1 item (omega arith),
    shift_loop-place front x (x ∷ tail),
  )

  -- `insertSorted` leaves a full array alone, and else inserts from the right.
  pub insert_sorted-place :
      (max_items : ℕ) (out : List TimelineItem)
      → insert_sorted max_items item out
        ≡ (if leb max_items (length out) then out else place (rev_onto out []) item [])
  unfolding insert_sorted
  insert_sorted-place max_items out = ground (
    arith,
    shift_loop-place (rev_onto out []) item [],
    rev_onto_twice out [],
    rev_onto-append (rev_onto out []) [] (item ∷ []),
    length-rev_onto out [],
  )
