-- ===== src/Table/Front.antt =====
-- What stands before an entry of a table with distinct ids has another id.
use x4_printer.Prelude.{◌≡◌, refl, none, List, [], ◌∷◌, ◌++◌, arith}
use x4_printer.Prelude.Text.{Text, same_upto_comm}
use x4_printer.Table.{id_len, find}
use x4_printer.Table.Find.{find-append}
use x4_printer.Table.Distinct.{AreDistinct}

pub front_new :
    {E : Type 0} (key : E → Text) (o : List E) (e : E) (es : List E)
    → AreDistinct key (o ++ e ∷ es)
    → find key (key e) o ≡ none
unfolding find
front_new key [] e es d = refl
front_new key (x ∷ o) e es d = ground (
  arith,
  find-append key (key x) o (e ∷ es),
  front_new key o e es d.1,
  same_upto_comm id_len (key x) (key e),
)
