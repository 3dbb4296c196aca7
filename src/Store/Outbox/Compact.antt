-- ===== src/Store/Outbox/Compact.antt =====
-- `compactSynced` against its specification.
use x4_printer.Prelude.{
  ℕ, suc, ◌+◌, ◌≡◌, refl, sym, ap, ◌∙◌, Bool, true, false, not, some, List, [], ◌∷◌, ◌++◌, length,
  get_elem?, set, take, keep, if◌then◌else◌, arith, inl, inr, ◌==◌, Bool-cases, append_assoc,
  append-nil, length-append,
}
use x4_printer.Store.Outbox.{ApprovalEntry, Outbox, compact_loop, compact_synced}

abbrev pub is_unsynced : ApprovalEntry → Bool
is_unsynced e = not e.synced

module _ {ℓ} {A : Type ℓ} where
  get_elem?-append :
      (xs : List A) (y : A) (ys : List A) → get_elem? (xs ++ y ∷ ys) (length xs) ≡ some y
  get_elem?-append [] y ys = refl
  get_elem?-append (x ∷ xs) y ys = get_elem?-append xs y ys

  set-append :
      (xs : List A) (y v : A) (ys : List A) → set (xs ++ y ∷ ys) (length xs) v ≡ xs ++ v ∷ ys
  set-append [] y v ys = refl
  set-append (x ∷ xs) y v ys = ap (λ t. x ∷ t) (set-append xs y v ys)

  take-append : (xs ys : List A) → take (length xs) (xs ++ ys) ≡ xs
  take-append [] ys = refl
  take-append (x ∷ xs) ys = ap (λ t. x ∷ t) (take-append xs ys)

-- What the loop has done when it stops.
record Compacted (kept rest : Outbox) (n : ℕ) (out : Outbox × ℕ × ℕ) : Type 0 where
  front : take out.1 out.0 ≡ kept ++ keep is_unsynced rest
  removed : out.2 + length (keep is_unsynced rest) ≡ n + length rest

-- The array that the loop sees: the kept entries, a gap that has been read, what is still to be read.
abbrev slots : Outbox → Outbox → Outbox → Outbox
slots kept gap rest = kept ++ (gap ++ rest)

module _ (x : ApprovalEntry) (kept gap rest : Outbox) (r : ℕ)
    (e : r ≡ length kept + length gap) where
  read_next : get_elem? (slots kept gap (x ∷ rest)) r ≡ some x
  read_next =
      rw (← append_assoc kept gap (x ∷ rest), e, ← length-append kept gap)
        (get_elem?-append (kept ++ gap) x rest)

  -- `if (writeIdx != readIdx) entries_[writeIdx] = entries_[readIdx]` closes the gap by one.
  move_entry :
      (gap' : Outbox) × ((if length kept == r
          then slots kept gap (x ∷ rest)
          else set (slots kept gap (x ∷ rest)) (length kept) x)
        ≡ slots (kept ++ x ∷ []) gap' rest)
      × (r + 1 ≡ length (kept ++ x ∷ []) + length gap')
  move_entry = go gap e
    where
      go :
          (g : Outbox)
          → r ≡ length kept + length g
          → (gap' : Outbox) × ((if length kept == r
                then slots kept g (x ∷ rest)
                else set (slots kept g (x ∷ rest)) (length kept) x)
              ≡ slots (kept ++ x ∷ []) gap' rest)
            × (r + 1 ≡ length (kept ++ x ∷ []) + length gap')
      go [] e' = (
        [],
        ground (arith, append_assoc kept (x ∷ []) rest),
        omega (arith, length-append kept (x ∷ [])),
      )
      go (g ∷ gs) e' = (
        gs ++ x ∷ [],
        ground (
          arith,
          set-append kept g x (gs ++ x ∷ rest),
          append_assoc kept (x ∷ []) ((gs ++ x ∷ []) ++ rest),
          append_assoc gs (x ∷ []) rest,
        ),
        omega (arith, length-append kept (x ∷ []), length-append gs (x ∷ [])),
      )

module _ (left : ℕ) (arr : Outbox) (x : ApprovalEntry) (r w n : ℕ)
    (here : get_elem? arr r ≡ some x) where
  loop_drop :
      x.synced ≡ true → compact_loop (suc left) arr r w n ≡ compact_loop left arr (r + 1) w (n + 1)
  unfolding compact_loop
  loop_drop old = ground arith

  loop_keep :
      x.synced ≡ false
      → compact_loop (suc left) arr r w n
        ≡ compact_loop left (if w == r then arr else set arr w x) (r + 1) (w + 1) n
  unfolding compact_loop
  loop_keep new = ground arith

module _ (x : ApprovalEntry) (kept rest : Outbox) (n : ℕ) (out : Outbox × ℕ × ℕ) where
  Compacted-drop :
      x.synced ≡ true → Compacted kept rest (n + 1) out → Compacted kept (x ∷ rest) n out
  Compacted-drop old c = record {
    front = simp old c.front;
    removed = simp old (omega (arith, c.removed));
  }

  Compacted-keep :
      x.synced ≡ false → Compacted (kept ++ x ∷ []) rest n out → Compacted kept (x ∷ rest) n out
  Compacted-keep new c = record {
    front = simp new (c.front ∙ append_assoc kept (x ∷ []) (keep is_unsynced rest));
    removed = simp new (omega (arith, c.removed));
  }

compact_loop-Compacted :
    (rest kept gap : Outbox) (r n : ℕ)
    → r ≡ length kept + length gap
    → Compacted kept rest n (compact_loop (length rest) (slots kept gap rest) r (length kept) n)
unfolding compact_loop
compact_loop-Compacted [] kept gap r n e = record {
  front = take-append kept (gap ++ []) ∙ sym (append-nil kept);
  removed = omega arith;
}
compact_loop-Compacted (x ∷ rest) kept gap r n e = elim (Bool-cases x.synced) [
  | inl old ↦
      let c =
        compact_loop-Compacted rest kept (gap ++ x ∷ []) (r + 1) (n + 1)
          (omega (arith, length-append gap (x ∷ []))) in
      let same : slots kept (gap ++ x ∷ []) rest ≡ slots kept gap (x ∷ rest) =
        ap (λ t. kept ++ t) (append_assoc gap (x ∷ []) rest) in
      rw
        (loop_drop (length rest) (slots kept gap (x ∷ rest)) x r (length kept) n
          (read_next x kept gap rest r e) old)
        (Compacted-drop x kept rest n _ old (rw same at c))
  | inr new ↦
      let (gap', moved, count) = move_entry x kept gap rest r e in
      let c = compact_loop-Compacted rest (kept ++ x ∷ []) gap' (r + 1) n count in
      rw
        (
          loop_keep (length rest) (slots kept gap (x ∷ rest)) x r (length kept) n
              (read_next x kept gap rest r e) new,
          moved,
        )
        (Compacted-keep x kept rest n _ new (rw length-append at c))
]

-- `compactSynced` leaves just the unsynced entries, in their order, and returns how many it dropped.
pub compact_synced_lem :
    (o : Outbox)
    → ((compact_synced o).0 ≡ keep is_unsynced o)
      × ((compact_synced o).1 + length (compact_synced o).0 ≡ length o)
unfolding compact_synced
compact_synced_lem o =
    let c = compact_loop-Compacted o [] [] 0 0 (omega arith) in
    (c.front, omega (arith, c.removed, ap length c.front))
