-- ===== src/Table/Distinct.antt =====
-- No two entries share an id. The writers keep it, and under it `remove` takes out one id and no other.
use x4_printer.Prelude.{
  ℕ, ◌≡◌, ◌↔◌, refl, ◌∙◌, ap, sym, subst, true, none, some, List, [], ◌∷◌, ◌++◌, length,
  length-append, if◌then◌else◌, arith, Option-cases, Bool-cases, inl, inr, ◌+◌,
}
use x4_printer.Prelude.Text.{
  Text, same_upto, same_upto_cong, same_upto_comm, same_upto_refl, same_upto_trans,
}
use x4_printer.Table.{id_len, find, modify, upsert, split_last, fill_hole, remove}
use x4_printer.Table.Find.{find_cong, find-append, modify-eq-none, find-modify}

abbrev pub AreDistinct : {E : Type 0} (key : E → Text) → List E → Type 0
AreDistinct key [] = Unit
AreDistinct key (e ∷ es) = (find key (key e) es ≡ none) × AreDistinct key es

split_last-append {ℓ} :
    {E : Type ℓ} (e : E) (es : List E) → (split_last e es).0 ++ (split_last e es).1 ∷ [] ≡ e ∷ es
unfolding split_last
split_last-append e [] = refl
split_last-append e (x ∷ es) = ap (λ t. e ∷ t) (split_last-append x es)

module _ {E : Type 0} (key : E → Text) where
  -- A write that keeps ids brings in no new id.
  module _ (k : Text) (f : E → E)
      (keeps : (x : E)
        → same_upto id_len (key x) k ≡ true
        → same_upto id_len k (key (f x)) ≡ true) where
    find-none-modify :
        (j : Text) (es es' : List E)
        → modify key k f es ≡ some es'
        → find key j es ≡ none
        → find key j es' ≡ none
    unfolding find modify
    find-none-modify j [] es' h absent = cc
    find-none-modify j (x ∷ es) es' h absent = elim (Bool-cases (same_upto id_len (key x) k)) [
      | inl hit ↦ ground (
        arith,
        same_upto_cong id_len (key x) k j hit,
        same_upto_cong id_len k (key (f x)) j (keeps x hit),
        same_upto_comm id_len j (key (f x)),
        same_upto_comm id_len j (key x),
      )
      | inr miss ↦ elim (Option-cases (modify key k f es)) [
        | inl stuck ↦ ground arith
        | inr (rest, written) ↦ ground (arith, find-none-modify j es rest written)
      ]
    ]

    pub modify-AreDistinct :
        (es es' : List E) → modify key k f es ≡ some es' → AreDistinct key es → AreDistinct key es'
    unfolding modify
    modify-AreDistinct [] es' h d = cc
    modify-AreDistinct (x ∷ es) es' h d = elim (Bool-cases (same_upto id_len (key x) k)) [
      | inl hit ↦
          let e : f x ∷ es ≡ es' = ground arith in
          subst (AreDistinct key) e
            (find_cong key (key (f x)) (key x) es (same_as x hit) ∙ d.0, d.1)
      | inr miss ↦ elim (Option-cases (modify key k f es)) [
        | inl stuck ↦ absurd (ground arith)
        | inr (rest, written) ↦
            let e : x ∷ rest ≡ es' = ground arith in
            subst (AreDistinct key) e
              (find-none-modify (key x) es rest written d.0, modify-AreDistinct es rest written d.1)
      ]
    ]
      where
        same_as :
            (x : E)
            → same_upto id_len (key x) k ≡ true
            → same_upto id_len (key (f x)) (key x) ≡ true
        same_as x hit = ground (
          arith,
          same_upto_cong id_len (key x) k (key (f x)) hit,
          same_upto_comm id_len k (key (f x)),
          keeps x hit,
        )

  pub append-AreDistinct :
      (es : List E) (e : E)
      → AreDistinct key es
      → find key (key e) es ≡ none
      → AreDistinct key (es ++ e ∷ [])
  unfolding find
  append-AreDistinct [] e d h = (refl, tt)
  append-AreDistinct (x ∷ es) e d h = (
    ground (arith, find-append key (key x) es (e ∷ []), same_upto_comm id_len (key x) (key e)),
    append-AreDistinct es e d.1 (ground arith),
  )

  -- The other way round: the last entry's id is not among those before it.
  append-distinct_inv :
      (es : List E) (e : E)
      → AreDistinct key (es ++ e ∷ [])
      → AreDistinct key es × (find key (key e) es ≡ none)
  unfolding find
  append-distinct_inv [] e d = (tt, refl)
  append-distinct_inv (x ∷ es) e d =
      let (rest, absent) = append-distinct_inv es e d.1 in
      (
        (ground (arith, find-append key (key x) es (e ∷ [])), rest),
        ground (arith, find-append key (key x) es (e ∷ []), same_upto_comm id_len (key x) (key e)),
      )

  last_first :
      (k : Text) (front : List E) (last : E)
      → find key (key last) front ≡ none
      → find key k (last ∷ front) ≡ find key k (front ++ last ∷ [])
  unfolding find
  last_first k front last absent =
      ground (arith, find-append key k front (last ∷ []), find_cong key (key last) k front)

  -- Moving the last entry to the front is not seen by `find`.
  pub find-fill_hole :
      (k : Text) (es : List E)
      → AreDistinct key es
      → (find key k (fill_hole es) ≡ find key k es) × AreDistinct key (fill_hole es)
  unfolding fill_hole
  find-fill_hole k [] d = (refl, tt)
  find-fill_hole k (e ∷ es) d =
      let (front, last) = split_last e es in
      let whole : front ++ last ∷ [] ≡ e ∷ es = split_last-append e es in
      let (apart, absent) =
        append-distinct_inv front last (subst (AreDistinct key) (sym whole) d) in
      (last_first k front last absent ∙ ap (find key k) whole, (absent, apart))

  pub upsert-AreDistinct :
      (cap : ℕ) (e : E) (es es' : List E)
      → upsert key cap e es ≡ some es'
      → AreDistinct key es
      → AreDistinct key es'
  unfolding upsert
  upsert-AreDistinct cap e es es' h d = elim (Option-cases (find key (key e) es)) [
    | inl new ↦
        let grown : es ++ e ∷ [] ≡ es' =
          ground (arith, modify-eq-none key (key e) (λ _. e) es new) in
        subst (AreDistinct key) grown (append-AreDistinct es e d new)
    | inr (old, there) ↦
        let (rest, written, found, kept) =
          find-modify key (key e) (λ _. e) (key e) es old (λ x _. same_upto_refl id_len (key e))
            there in
        let put : rest ≡ es' = ground arith in
        subst (AreDistinct key) put (
          modify-AreDistinct (key e) (λ _. e) (λ x _. same_upto_refl id_len (key e)) es rest written
            d)
  ]

  -- `remove` fails just when the id is absent.
  pub remove-eq-none : (k : Text) (es : List E) → (remove key k es ≡ none) ↔ (find key k es ≡ none)
  unfolding remove find
  remove-eq-none k [] = (λ _. refl, λ _. refl)
  remove-eq-none k (e ∷ es) = ground (arith, remove-eq-none k es)

  length-fill_hole : (es : List E) → length (fill_hole es) ≡ length es
  unfolding fill_hole
  length-fill_hole [] = refl
  length-fill_hole (e ∷ es) = omega (
    arith,
    ap length (split_last-append e es),
    length-append (split_last e es).0 ((split_last e es).1 ∷ []),
  )

  find-none-remove :
      (k j : Text) (es es' : List E)
      → remove key k es ≡ some es'
      → AreDistinct key es
      → find key j es ≡ none
      → find key j es' ≡ none
  unfolding remove find
  find-none-remove k j [] es' h d absent = cc
  find-none-remove k j (e ∷ es) es' h d absent = elim (Bool-cases (same_upto id_len (key e) k)) [
    | inl hit ↦ ground (arith, find-fill_hole j es d.1)
    | inr miss ↦ elim (Option-cases (remove key k es)) [
      | inl stuck ↦ absurd (ground arith)
      | inr (rest, taken) ↦ ground (arith, find-none-remove k j es rest taken d.1)
    ]
  ]

  -- What `remove` of the id `k` leaves of a table: the other ids, found as before.
  pub record Removed (k : Text) (es es' : List E) : Type 0 where
    pub found : (j : Text) → find key j es' ≡ (if same_upto id_len k j then none else find key j es)
    pub shorter : length es' + 1 ≡ length es
    pub apart : AreDistinct key es'

  Removed-head :
      (k : Text) (e : E) (es : List E)
      → same_upto id_len (key e) k ≡ true
      → AreDistinct key (e ∷ es)
      → Removed k (e ∷ es) (fill_hole es)
  unfolding find
  Removed-head k e es hit d = record {
    found = λ j. ground (
      arith,
      find-fill_hole j es d.1,
      find_cong key (key e) k es hit,
      find_cong key k j es,
      same_upto_cong id_len (key e) k j hit,
      same_upto_comm id_len j (key e),
      same_upto_comm id_len j k,
    );
    shorter = omega (arith, length-fill_hole es);
    apart = (find-fill_hole k es d.1).1;
  }

  -- `remove` takes out its id, finds every other id as before, lowers the count by one, and keeps
  -- the ids distinct.
  pub remove-Removed :
      (k : Text) (es es' : List E)
      → remove key k es ≡ some es'
      → AreDistinct key es
      → Removed k es es'
  unfolding remove find
  remove-Removed k [] es' h d = cc
  remove-Removed k (e ∷ es) es' h d = elim (Bool-cases (same_upto id_len (key e) k)) [
    | inl hit ↦
        let gone : fill_hole es ≡ es' = ground arith in
        subst (Removed k (e ∷ es)) gone (Removed-head k e es hit d)
    | inr miss ↦ elim (Option-cases (remove key k es)) [
      | inl stuck ↦ absurd (ground arith)
      | inr (rest, taken) ↦
          let r : Removed k es rest = remove-Removed k es rest taken d.1 in
          let put : e ∷ rest ≡ es' = ground arith in
          subst (Removed k (e ∷ es)) put record {
            found = λ j.
                ground
                  (arith, r.found j, same_upto_trans id_len (key e) j k, same_upto_comm id_len k j);
            shorter = omega (arith, r.shorter);
            apart = (find-none-remove k (key e) es rest taken d.1 d.0, r.apart);
          }
    ]
  ]
