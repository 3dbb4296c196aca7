-- ===== src/Store/Card/Crash.antt =====
-- What a loss of power during `writeFileAtomic` can leave.
use x4_printer.Prelude.{
  ◌≡◌, ◌≢◌, ◌⊎◌, refl, sym, ap, ◌∙◌, Bool, true, false, Option, none, some, List, [], ◌∷◌, All,
  length, length-append, arith, Bool-cases, inl, inr,
}
use x4_printer.Prelude.Text.{Text, codes}
use x4_printer.Store.Card.{
  SdCard, IsSdCard, Written, tmp_path, rename_tmp, after_remove, after_write, write_file_atomic,
}

path_not_tmp : (path : Text) → path ≢ tmp_path path
path_not_tmp path e = absurd (omega (arith, ap length e, length-append path (codes ".tmp")))

tmp_not_path : (path : Text) → tmp_path path ≢ path
tmp_not_path path e = path_not_tmp path (sym e)

module _ {C : Type 0} (card : SdCard C) (path text : Text) (old : Option Text) where
  -- The file is the old one, or the new one, or it is gone and the new text is in the temporary file.
  abbrev pub IsIntact : C → Type 0
  IsIntact c =
      (card.content c path ≡ old)
      ⊎ (card.content c path ≡ some text)
      ⊎ ((card.content c path ≡ none) × (card.content c (tmp_path path) ≡ some text))

  -- The first card of the list is where the function ends.
  abbrev pub EndsWritten : List C → Type 0
  EndsWritten [] = ⊥
  EndsWritten (c ∷ cs) = card.content c path ≡ some text

  pub record IsCrashSafe (w : Written C) : Type 0 where
    pub intact : All IsIntact w.cards
    pub done : (w.answer ≡ false) ⊎ EndsWritten w.cards

  module _ (ok : IsSdCard card) where
    rename_tmp-IsCrashSafe :
        (c : C) (before : List C)
        → All IsIntact before
        → (card.content c path ≡ old) ⊎ (card.content c path ≡ none)
        → card.content c (tmp_path path) ≡ some text
        → IsCrashSafe (rename_tmp card path c before)
    unfolding rename_tmp
    rename_tmp-IsCrashSafe c before safe at_path at_tmp =
        elim (Bool-cases (card.rename c (tmp_path path) path).0) [
          | inl renamed ↦ record {
            intact = (inr (inl (ok.rename_done c (tmp_path path) path renamed ∙ at_tmp)), safe);
            done = inr (ok.rename_done c (tmp_path path) path renamed ∙ at_tmp);
          }
          | inr stuck ↦ record {
            intact = (
              elim at_path [
                | inl same ↦ inl (ok.rename_failed c (tmp_path path) path path stuck ∙ same)
                | inr gone ↦ inr (
                    inr (
                      ok.rename_failed c (tmp_path path) path path stuck ∙ gone,
                      ok.rename_failed c (tmp_path path) path (tmp_path path) stuck ∙ at_tmp,
                    ))
              ],
              safe,
            );
            done = inl stuck;
          }
        ]

    after_remove-IsCrashSafe :
        (c : C) (before : List C) (b : Bool)
        → All IsIntact before
        → (b ≡ false) ⊎ (card.content c path ≡ none)
        → (b ≡ true) ⊎ (card.content c path ≡ old)
        → card.content c (tmp_path path) ≡ some text
        → IsCrashSafe (after_remove card path before (b, c))
    unfolding after_remove
    after_remove-IsCrashSafe c before true safe (inl e) kept at_tmp = cc
    after_remove-IsCrashSafe c before true safe (inr gone) kept at_tmp =
        rename_tmp-IsCrashSafe c (c ∷ before) (inr (inr (gone, at_tmp)), safe) (inr gone) at_tmp
    after_remove-IsCrashSafe c before false safe gone (inl e) at_tmp = cc
    after_remove-IsCrashSafe c before false safe gone (inr kept) at_tmp = record {
      intact = (
        inl (ok.remove_else c (tmp_path path) path (path_not_tmp path) ∙ kept),
        (inl kept, safe),
      );
      done = inl refl;
    }

    remove_old-IsCrashSafe :
        (c : C)
        → card.content c path ≡ old
        → card.content c (tmp_path path) ≡ some text
        → IsCrashSafe (after_remove card path (c ∷ []) (card.remove c path))
    remove_old-IsCrashSafe c at_path at_tmp =
        let (b, c') = card.remove c path in
        after_remove-IsCrashSafe c' (c ∷ []) b (inl at_path, tt)
          (elim (Bool-cases b) [ inl e ↦ inr (ok.remove_done c path e) | inr e ↦ inl e ])
          (elim (Bool-cases b) [
            | inl e ↦ inl e
            | inr e ↦ inr (ok.remove_failed c path e ∙ at_path)
          ])
          (ok.remove_else c path (tmp_path path) (tmp_not_path path) ∙ at_tmp)

    after_write-IsCrashSafe :
        (c : C) (b : Bool)
        → card.content c path ≡ old
        → (b ≡ false) ⊎ (card.content c (tmp_path path) ≡ some text)
        → IsCrashSafe (after_write card path (b, c))
    unfolding after_write
    after_write-IsCrashSafe c true at_path (inl e) = cc
    after_write-IsCrashSafe c true at_path (inr at_tmp) = elim (Bool-cases (card.exists c path)) [
      | inl there ↦ rw (there, after_write) (remove_old-IsCrashSafe c at_path at_tmp)
      | inr absent ↦
          rw (absent, after_write)
            (rename_tmp-IsCrashSafe c (c ∷ []) (inl at_path, tt) (inl at_path) at_tmp)
    ]
    after_write-IsCrashSafe c false at_path at_tmp = record {
      intact = (inl at_path, tt);
      done = inl refl;
    }

    -- After every call of `writeFileAtomic` the file holds its old content, or the new one, or it is
    -- missing and the temporary file holds the new content; if the function answers true, the file
    -- holds the new content.
    pub write_file_atomic-IsCrashSafe :
        (c : C) → card.content c path ≡ old → IsCrashSafe (write_file_atomic card path text c)
    unfolding write_file_atomic
    write_file_atomic-IsCrashSafe c at_path =
        let (b, c') = card.write_file c (tmp_path path) text in
        after_write-IsCrashSafe c' b
          (ok.write_else c (tmp_path path) text path (path_not_tmp path) ∙ at_path)
          (elim (Bool-cases b) [
            | inl e ↦ inr (ok.write_done c (tmp_path path) text e)
            | inr e ↦ inl e
          ])
