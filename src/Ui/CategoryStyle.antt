-- ===== src/Ui/CategoryStyle.antt =====
-- firmware/src/ui/CategoryStyle.cpp: icon and dither pattern of a category. A `Category` is its
-- `uint8_t` here, since the table guards against values that no enumerator has.
use x4_printer.Prelude.{
  ℕ, suc, ◌+◌, ◌≡◌, refl, List, [], ◌∷◌, leb, get_or, true, if◌then◌else◌, arith,
}
use x4_printer.Prelude.Text.{Text, codes, text_eq}
use x4_printer.Store.Planner.{Category, work, break, chore, health, social, school, personal, other}

pub data DitherPattern : Type 0 where
  solid dense sparse : DitherPattern

pub record CategoryVisual : Type 0 where
  pub icon_slug : Text
  pub dither : DitherPattern

abbrev pub visual : Text → DitherPattern → CategoryVisual
visual slug dither = record { icon_slug = slug; dither = dither }

abbrev pub styles : List CategoryVisual
styles =
    visual (codes "briefcase") solid
    ∷ visual (codes "coffee") sparse
    ∷ visual (codes "spray-can") dense
    ∷ visual (codes "heart-pulse") solid
    ∷ visual (codes "users") dense
    ∷ visual (codes "graduation-cap") sparse
    ∷ visual (codes "user") dense
    ∷ visual (codes "circle-ellipsis") sparse
    ∷ []

abbrev pub code_of : Category → ℕ
code_of work = 0
code_of break = 1
code_of chore = 2
code_of health = 3
code_of social = 4
code_of school = 5
code_of personal = 6
code_of other = 7

-- The default of `get_or` is never taken: the index is at most 7.
unfoldable pub style_for : ℕ → CategoryVisual
style_for category =
    get_or styles (if leb 8 category then code_of other else category) (visual [] solid)

-- What tells two icons apart: their slugs, compared as C compares them, up to the category's code.
unfoldable pub code_of_slug : List CategoryVisual → Text → ℕ → ℕ
code_of_slug [] slug n = n
code_of_slug (v ∷ vs) slug n = if text_eq v.icon_slug slug then n else code_of_slug vs slug (suc n)

icon_found : (c : Category) → code_of_slug styles (style_for (code_of c)).icon_slug 0 ≡ code_of c
unfolding style_for code_of_slug
icon_found work = refl
icon_found break = refl
icon_found chore = refl
icon_found health = refl
icon_found social = refl
icon_found school = refl
icon_found personal = refl
icon_found other = refl

-- No two categories share an icon: the icon's name gives the category back. A byte that is no
-- category's has the look of `Other`.
pub style_for-code_of :
    (c : Category) (n : ℕ)
    → (code_of_slug styles (style_for (code_of c)).icon_slug 0 ≡ code_of c)
      × (style_for (n + 8) ≡ style_for (code_of other))
unfolding style_for
style_for-code_of c n =
    let above : leb 8 (n + 8) ≡ true = ground arith in (icon_found c, rw (above, style_for) refl)
