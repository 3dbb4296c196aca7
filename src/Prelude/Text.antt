-- ===== src/Prelude/Text.antt =====
-- C strings. A `char[n + 1]` buffer that is kept NUL-terminated is the list of its bytes before the
-- NUL, so `strncpy(dst, src, sizeof(dst) - 1)` into such a buffer is `take n src`, `strcmp(a, b) == 0`
-- is `text_eq a b`, and `strncmp(a, b, n) == 0` is `same_upto n a b`.
use Prim.Native.Char.{code}
use Prim.Native.String.{String}
use Prim.Native.Nat.{ℕ, zero, suc}
use mathlib.Core.Path.{◌≡◌, refl, sym, ap, ◌∙◌}
use mathlib.Core.Logic.{◌↔◌}
use mathlib.Core.Bool.{Bool, true, false, ◌&&◌}
use mathlib.Core.List.{List, [], ◌∷◌}
use native.Mathlib.Omega.{arith}
use x4_printer.Prelude.Tests.{◌==◌}
use x4_printer.Prelude.Lists.{take}

abbrev pub Text : Type 0
Text = List ℕ

-- The bytes of an ASCII literal.
abbrev pub codes : String → Text
codes String.[] = []
codes (String.◌∷◌ c s) = code c ∷ codes s

abbrev pub text_eq : Text → Text → Bool
text_eq [] [] = true
text_eq [] (b ∷ bs) = false
text_eq (a ∷ as') [] = false
text_eq (a ∷ as') (b ∷ bs) = a == b && text_eq as' bs

pub text_eq_iff : (a b : Text) → (text_eq a b ≡ true) ↔ (a ≡ b)
text_eq_iff [] [] = (λ _. refl, λ _. refl)
text_eq_iff [] (b ∷ bs) = (λ e. cc, λ e. cc)
text_eq_iff (a ∷ as') [] = (λ e. cc, λ e. cc)
text_eq_iff (a ∷ as') (b ∷ bs) =
    (λ e. ground (arith, text_eq_iff as' bs), λ e. ground (arith, text_eq_iff as' bs))

unfoldable pub same_upto : ℕ → Text → Text → Bool
same_upto n a b = text_eq (take n a) (take n b)

module _ (n : ℕ) where
  pub same_upto_iff : (a b : Text) → (same_upto n a b ≡ true) ↔ (take n a ≡ take n b)
  unfolding same_upto
  same_upto_iff a b = text_eq_iff (take n a) (take n b)

  pub same_upto_refl : (a : Text) → same_upto n a a ≡ true
  same_upto_refl a = (same_upto_iff a a).1 refl

  pub same_upto_sym : (a b : Text) → same_upto n a b ≡ true → same_upto n b a ≡ true
  same_upto_sym a b h = (same_upto_iff b a).1 (sym ((same_upto_iff a b).0 h))

  pub same_upto_trans :
      (a b c : Text) → same_upto n a b ≡ true → same_upto n b c ≡ true → same_upto n a c ≡ true
  same_upto_trans a b c h k =
      (same_upto_iff a c).1 ((same_upto_iff a b).0 h ∙ (same_upto_iff b c).0 k)

  -- Equal names cannot be told apart.
  pub same_upto_cong : (a b c : Text) → same_upto n a b ≡ true → same_upto n c a ≡ same_upto n c b
  same_upto_cong a b c h =
      ground (arith, same_upto_trans c a b, same_upto_trans c b a, same_upto_sym a b h)

  pub same_upto_comm : (a b : Text) → same_upto n a b ≡ same_upto n b a
  same_upto_comm a b = ground (arith, same_upto_sym a b, same_upto_sym b a)

  take-take : (a : Text) → take n (take n a) ≡ take n a
  take-take a = go n a
    where
      go : (m : ℕ) (b : Text) → take m (take m b) ≡ take m b
      go zero b = refl
      go (suc m) [] = refl
      go (suc m) (c ∷ b) = ap (λ t. c ∷ t) (go m b)

  -- A name cut to `n` bytes is the same name.
  pub same_upto-take : (a b : Text) → same_upto n (take n a) b ≡ same_upto n a b
  unfolding same_upto
  same_upto-take a b = rw (take-take a)
