-- ===== src/Store/Card.antt =====
-- firmware/src/store/AtomicJsonFile.cpp: `writeFileAtomic`, the durable write of every store. The SD
-- card driver is a parameter: each of its calls takes the state of the card and gives its answer and
-- the card after it.
pub mod Crash
use x4_printer.Prelude.{
  ◌≡◌, ◌≢◌, Bool, true, false, Option, none, some, List, [], ◌∷◌, ◌++◌, if◌then◌else◌,
}
use x4_printer.Prelude.Text.{Text, codes}

abbrev pub is_some {ℓ} : {A : Type ℓ} → Option A → Bool
is_some none = false
is_some (some a) = true

-- The calls of SDCardManager. `content` is not a call: it is what a later read of a path would give.
pub record SdCard (C : Type 0) : Type 0 where
  pub content : C → Text → Option Text
  pub exists : C → Text → Bool
  pub write_file : C → Text → Text → Bool × C
  pub remove : C → Text → Bool × C
  pub rename : C → Text → Text → Bool × C

-- What the code relies on: a call touches no file but those it names, a call that reports success did
-- what it was asked to, and a `remove` or `rename` that reports failure changed nothing. A write that
-- fails may leave anything in its file.
pub record IsSdCard {C : Type 0} (card : SdCard C) : Type 0 where
  pub exists_content : (c : C) (p : Text) → card.exists c p ≡ is_some (card.content c p)
  pub write_done :
      (c : C) (p t : Text)
      → (card.write_file c p t).0 ≡ true
      → card.content (card.write_file c p t).1 p ≡ some t
  pub write_else :
      (c : C) (p t q : Text) → q ≢ p → card.content (card.write_file c p t).1 q ≡ card.content c q
  pub remove_done :
      (c : C) (p : Text) → (card.remove c p).0 ≡ true → card.content (card.remove c p).1 p ≡ none
  pub remove_failed :
      (c : C) (p : Text)
      → (card.remove c p).0 ≡ false
      → card.content (card.remove c p).1 p ≡ card.content c p
  pub remove_else :
      (c : C) (p q : Text) → q ≢ p → card.content (card.remove c p).1 q ≡ card.content c q
  pub rename_done :
      (c : C) (p q : Text)
      → (card.rename c p q).0 ≡ true
      → card.content (card.rename c p q).1 q ≡ card.content c p
  pub rename_failed :
      (c : C) (p q r : Text)
      → (card.rename c p q).0 ≡ false
      → card.content (card.rename c p q).1 r ≡ card.content c r

abbrev pub tmp_path : Text → Text
tmp_path path = path ++ codes ".tmp"

-- A run of the function: its answer, and the card after each of its calls, the last one first. A loss
-- of power between two calls leaves one of these.
pub record Written (C : Type 0) : Type 0 where
  pub answer : Bool
  pub cards : List C

module _ {C : Type 0} (card : SdCard C) where
  -- `rename(tmpPath, path)`, whose answer is the function's.
  unfoldable pub rename_tmp : Text → C → List C → Written C
  rename_tmp path c before =
      let (b, c') = card.rename c (tmp_path path) path in record { answer = b; cards = c' ∷ before }

  unfoldable pub after_remove : Text → List C → Bool × C → Written C
  unfolding rename_tmp
  after_remove path before (true, c) = rename_tmp path c (c ∷ before)
  after_remove path before (false, c) = record {
    answer = false;
    cards = (card.remove c (tmp_path path)).1 ∷ c ∷ before;
  }

  unfoldable pub after_write : Text → Bool × C → Written C
  unfolding after_remove rename_tmp
  after_write path (true, c) =
      if card.exists c path
      then after_remove path (c ∷ []) (card.remove c path)
      else rename_tmp path c (c ∷ [])
  after_write path (false, c) = record { answer = false; cards = c ∷ [] }

  unfoldable pub write_file_atomic : Text → Text → C → Written C
  unfolding after_write
  write_file_atomic path text c = after_write path (card.write_file c (tmp_path path) text)

  -- The card that a run leaves.
  abbrev last_card : C → List C → C
  last_card c [] = c
  last_card c (d ∷ ds) = d

  -- A save whose answer is ignored.
  unfoldable pub save_file : Text → Text → C → C
  unfolding write_file_atomic
  save_file path text c = last_card c (write_file_atomic path text c).cards
