-- ===== src/Store/Planner/Categories.antt =====
-- The category names, which the sync API and the SD card share.
use x4_printer.Prelude.{◌≡◌, ◌↔◌, refl, some, arith}
use x4_printer.Prelude.Text.{Text, codes, text_eq_iff}
use x4_printer.Store.Planner.{Category, work, category_name, parse_category_name}

parse_category_name-name : (c : Category) → parse_category_name (category_name c) ≡ some c
unfolding parse_category_name category_name
parse_category_name-name work = refl
parse_category_name-name _ = refl

-- `parseCategoryName` accepts exactly the names that `categoryName` writes, each as its category.
pub parse_category_name_iff :
    (s : Text) (c : Category) → (parse_category_name s ≡ some c) ↔ (s ≡ category_name c)
unfolding parse_category_name category_name
parse_category_name_iff s c = (
  λ e. ground (
    arith,
    text_eq_iff s (codes "Work"),
    text_eq_iff s (codes "Break"),
    text_eq_iff s (codes "Chore"),
    text_eq_iff s (codes "Health"),
    text_eq_iff s (codes "Social"),
    text_eq_iff s (codes "School"),
    text_eq_iff s (codes "Personal"),
    text_eq_iff s (codes "Other"),
  ),
  λ e. rw e (parse_category_name-name c),
)
