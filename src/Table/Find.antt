-- ===== src/Table/Find.antt =====
-- What `find` sees after a write.
use x4_printer.Prelude.{
  ℕ, ◌+◌, ◌≤◌, ◌<◌, ◌≡◌, ◌↔◌, refl, true, none, some, List, [], ◌∷◌, ◌++◌, length, length-append,
  if◌then◌else◌, arith, Option-cases, Bool-cases, inl, inr,
}
use x4_printer.Prelude.Text.{
  Text, same_upto, same_upto_cong, same_upto_sym, same_upto_trans, same_upto_comm, same_upto_refl,
}
use x4_printer.Table.{id_len, find, modify, upsert}

module _ {E : Type 0} (key : E → Text) where
  -- Ids that agree over `id_len` bytes find the same entry.
  pub find_cong :
      (a b : Text) (es : List E) → same_upto id_len a b ≡ true → find key a es ≡ find key b es
  unfolding find
  find_cong a b [] h = refl
  find_cong a b (e ∷ es) h = ground (arith, same_upto_cong id_len a b (key e) h, find_cong a b es h)

  pub find-append :
      (k : Text) (xs ys : List E)
      → find key k (xs ++ ys) ≡ elim (find key k xs) [ none ↦ find key k ys | some e ↦ some e ]
  unfolding find
  find-append k [] ys = refl
  find-append k (x ∷ xs) ys = ground (arith, find-append k xs ys)

  -- The id of what is found is the id looked for.
  pub find_key :
      (k : Text) (es : List E) (e : E) → find key k es ≡ some e → same_upto id_len (key e) k ≡ true
  unfolding find
  find_key k [] e h = cc
  find_key k (x ∷ es) e h = ground (arith, find_key k es e)

  module _ (k : Text) (f : E → E) where
    pub modify-eq-none : (es : List E) → find key k es ≡ none → modify key k f es ≡ none
    unfolding find modify
    modify-eq-none [] h = refl
    modify-eq-none (e ∷ es) h = ground (arith, modify-eq-none es)

    -- A write that keeps the id changes what the id finds, and nothing else.
    pub find-modify :
        (j : Text) (es : List E) (e : E)
        → ((x : E) → same_upto id_len (key x) k ≡ true → same_upto id_len k (key (f x)) ≡ true)
        → find key k es ≡ some e
        → (es' : List E) × (modify key k f es ≡ some es')
          × (find key j es' ≡ (if same_upto id_len k j then some (f e) else find key j es))
          × (length es' ≡ length es)
    unfolding find modify
    find-modify j [] e keeps h = cc
    find-modify j (x ∷ es) e keeps h = elim (Bool-cases (same_upto id_len (key x) k)) [
      | inl hit ↦ (
        f x ∷ es,
        ground arith,
        ground (
          arith,
          keeps x hit,
          same_upto_cong id_len (key x) k j hit,
          same_upto_comm id_len j (key x),
          same_upto_comm id_len j k,
          same_upto_cong id_len k (key (f x)) j (keeps x hit),
          same_upto_comm id_len j (key (f x)),
        ),
        refl,
      )
      | inr miss ↦
          let (es', written, found, kept) = find-modify j es e keeps (ground arith) in
          (
            x ∷ es',
            ground arith,
            ground (arith, same_upto_trans id_len (key x) j k, same_upto_sym id_len k j),
            ground arith,
          )
    ]

  -- What `upsert` leaves behind: the new entry under its id, every other id as before, and a count
  -- that grows by one just when the id is new.
  pub find-upsert :
      (cap : ℕ) (e : E) (es es' : List E) (j : Text)
      → upsert key cap e es ≡ some es'
      → (find key j es' ≡ (if same_upto id_len (key e) j then some e else find key j es))
        × (length es' ≡ elim (find key (key e) es) [ none ↦ length es + 1 | some _ ↦ length es ])
  unfolding upsert find
  find-upsert cap e es es' j h = elim (Option-cases (find key (key e) es)) [
    | inl new ↦ ground (
      arith,
      modify-eq-none (key e) (λ _. e) es new,
      find-append j es (e ∷ []),
      find_cong (key e) j es,
      length-append es (e ∷ []),
    )
    | inr (old, there) ↦
        ground (
          arith,
          find-modify (key e) (λ _. e) j es old (λ x _. same_upto_refl id_len (key e)) there,
        )
  ]

  -- `upsert` fails just when the table is full and the id is new.
  pub upsert-eq-none :
      (cap : ℕ) (e : E) (es : List E)
      → (upsert key cap e es ≡ none) ↔ ((cap ≤ length es) × (find key (key e) es ≡ none))
  unfolding upsert find
  upsert-eq-none cap e es = elim (Option-cases (find key (key e) es)) [
    | inl new ↦ ground (arith, modify-eq-none (key e) (λ _. e) es new)
    | inr (old, there) ↦ ground (
      arith,
      find-modify (key e) (λ _. e) (key e) es old (λ x _. same_upto_refl id_len (key e)) there,
    )
  ]

  -- A new id that fits is appended.
  pub upsert-append :
      (cap : ℕ) (e : E) (es : List E)
      → find key (key e) es ≡ none
      → length es < cap
      → upsert key cap e es ≡ some (es ++ e ∷ [])
  unfolding upsert
  upsert-append cap e es new fits = ground (arith, modify-eq-none (key e) (λ _. e) es new)

  pub length-modify :
      (k : Text) (f : E → E) (es es' : List E)
      → modify key k f es ≡ some es'
      → length es' ≡ length es
  unfolding modify
  length-modify k f [] es' h = cc
  length-modify k f (e ∷ es) es' h = elim (Option-cases (modify key k f es)) [
    | inl stuck ↦ ground arith
    | inr (rest, written) ↦ ground (arith, length-modify k f es rest written)
  ]
