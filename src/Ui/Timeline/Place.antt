-- ===== src/Ui/Timeline/Place.antt =====
-- Where `place` puts an item: order, content and length.
use mathlib.Core.List.{Perm}
use mathlib.Core.List.Perm
use x4_printer.Prelude.{
  ℕ, zero, suc, ◌+◌, ◌≡◌, refl, true, false, List, [], ◌∷◌, length, All, arith, Bool-cases, inl,
  inr,
}
use x4_printer.Prelude.Text.{Text}
use x4_printer.Ui.Timeline.{TimelineItem, gt_upto, is_after}
use x4_printer.Ui.Timeline.Insert.{rev_onto, place, length-rev_onto}

-- No element stands before one that its label is after.
abbrev pub IsSorted : List TimelineItem → Type 0
IsSorted [] = Unit
IsSorted (x ∷ xs) = All (λ y. is_after x y ≡ false) xs × IsSorted xs

pub gt_upto_total : (n : ℕ) (a b : Text) → gt_upto n a b ≡ true → gt_upto n b a ≡ false
gt_upto_total zero a b h = refl
gt_upto_total (suc n) [] b h = cc
gt_upto_total (suc n) (x ∷ a) [] h = refl
gt_upto_total (suc n) (x ∷ a) (y ∷ b) h = ground (arith, gt_upto_total n a b)

pub gt_upto_trans :
    (n : ℕ) (a b c : Text) → gt_upto n a b ≡ false → gt_upto n b c ≡ false → gt_upto n a c ≡ false
gt_upto_trans zero a b c h k = refl
gt_upto_trans (suc n) [] b c h k = refl
gt_upto_trans (suc n) (x ∷ a) [] c h k = cc
gt_upto_trans (suc n) (x ∷ a) (y ∷ b) [] h k = cc
gt_upto_trans (suc n) (x ∷ a) (y ∷ b) (z ∷ c) h k = ground (arith, gt_upto_trans n a b c)

pub All-trans :
    (w x : TimelineItem) (ys : List TimelineItem)
    → is_after w x ≡ false
    → All (λ y. is_after x y ≡ false) ys
    → All (λ y. is_after w y ≡ false) ys
All-trans w x [] h k = tt
All-trans w x (y ∷ ys) h k = (gt_upto_trans 5 w.label x.label y.label h k.0, All-trans w x ys h k.1)

pub IsSorted-suffix : (xs ys : List TimelineItem) → IsSorted (rev_onto xs ys) → IsSorted ys
IsSorted-suffix [] ys s = s
IsSorted-suffix (x ∷ xs) ys s = (IsSorted-suffix xs (x ∷ ys) s).1

-- The end of a sorted list may be replaced by a sorted one that everything before still precedes.
pub IsSorted-replace :
    (xs ys zs : List TimelineItem)
    → IsSorted (rev_onto xs ys)
    → IsSorted zs
    → ((w : TimelineItem) → All (λ y. is_after w y ≡ false) ys → All (λ z. is_after w z ≡ false) zs)
    → IsSorted (rev_onto xs zs)
IsSorted-replace [] ys zs s t below = t
IsSorted-replace (x ∷ xs) ys zs s t below =
    IsSorted-replace xs (x ∷ ys) (x ∷ zs) s (below x (IsSorted-suffix xs (x ∷ ys) s).0, t)
      (λ w h. (h.0, below w h.1))

pub place-IsSorted :
    (front : List TimelineItem) (item : TimelineItem) (tail : List TimelineItem)
    → IsSorted (rev_onto front tail)
    → All (λ y. is_after item y ≡ false) tail
    → IsSorted (place front item tail)
place-IsSorted [] item tail s below = (below, s)
place-IsSorted (x ∷ front) item tail s below = elim (Bool-cases (is_after x item)) [
  | inl after ↦
      rw after
        (place-IsSorted front item (x ∷ tail) s (gt_upto_total 5 x.label item.label after, below))
  | inr before ↦ rw before (
      IsSorted-replace front (x ∷ tail) (x ∷ item ∷ tail) s
        (
          (before, All-trans x item tail before below),
          (below, (IsSorted-suffix front (x ∷ tail) s).1),
        )
        (λ w h. (h.0, (gt_upto_trans 5 w.label x.label item.label h.0 before, h.1))))
]

pub rev_onto-perm {ℓ} :
    {A : Type ℓ} (xs ys zs : List A) → Perm ys zs → Perm (rev_onto xs ys) (rev_onto xs zs)
rev_onto-perm [] ys zs p = p
rev_onto-perm (x ∷ xs) ys zs p = rev_onto-perm xs (x ∷ ys) (x ∷ zs) (Perm.cons x p)

pub rev_onto-perm_cons {ℓ} :
    {A : Type ℓ} (xs : List A) (y : A) (ys : List A)
    → Perm (rev_onto xs (y ∷ ys)) (y ∷ rev_onto xs ys)
rev_onto-perm_cons [] y ys = Perm.refl (y ∷ ys)
rev_onto-perm_cons (x ∷ xs) y ys =
    Perm.trans (rev_onto-perm xs (x ∷ y ∷ ys) (y ∷ x ∷ ys) (Perm.swap y x ys))
      (rev_onto-perm_cons xs y (x ∷ ys))

pub place-perm :
    (front : List TimelineItem) (item : TimelineItem) (tail : List TimelineItem)
    → Perm (place front item tail) (item ∷ rev_onto front tail)
place-perm [] item tail = Perm.refl (item ∷ tail)
place-perm (x ∷ front) item tail = elim (Bool-cases (is_after x item)) [
  | inl after ↦ rw after (place-perm front item (x ∷ tail))
  | inr before ↦ rw before (rev_onto-perm_cons (x ∷ front) item tail)
]

pub length-place :
    (front : List TimelineItem) (item : TimelineItem) (tail : List TimelineItem)
    → length (place front item tail) ≡ length front + length tail + 1
length-place [] item tail = omega arith
length-place (x ∷ front) item tail = elim (Bool-cases (is_after x item)) [
  | inl after ↦ rw after (omega (arith, length-place front item (x ∷ tail)))
  | inr before ↦ rw before (omega (arith, length-rev_onto front (x ∷ item ∷ tail)))
]
