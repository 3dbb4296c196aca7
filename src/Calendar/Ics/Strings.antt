-- ===== src/Calendar/Ics/Strings.antt =====
-- The string operations that IcsParser.cpp uses, and its two scans of a text. A `String` is the list of
-- its bytes, none of them NUL, so `c_str` and `strlen` see all of it.
pub mod Escape
use x4_printer.Prelude.{
  ℕ, zero, suc, ◌+◌, ◌-◌, ◌*◌, ◌/◌, ◌%◌, ◌^◌, Bool, true, false, ◌&&◌, ◌||◌, not, ltb, leb, ◌==◌,
  Option, none, some, List, [], ◌∷◌, ◌++◌, map, take, drop, length, get_or, if◌then◌else◌,
}
use x4_printer.Prelude.Int.{ℤ, pos, ◌+ℤ◌, ◌-ℤ◌, ◌*ℤ◌, ltb_ℤ}
use x4_printer.Prelude.Text.{Text, codes, text_eq}

abbrev pub is_empty : Text → Bool
is_empty [] = true
is_empty (c ∷ t) = false

abbrev pub first_or : Text → ℕ → ℕ
first_or t d = get_or t 0 d

abbrev pub onto_first : ℕ → Option (Text × Text) → Option (Text × Text)
onto_first c none = none
onto_first c (some (before, after)) = some (c ∷ before, after)

-- The text before the first `c` and the text after it: `indexOf(c)`, with the two `substring`s.
unfoldable pub cut : ℕ → Text → Option (Text × Text)
cut c [] = none
cut c (x ∷ t) = if x == c then some ([], t) else onto_first x (cut c t)

abbrev pub cons_first : ℕ → List Text → List Text
cons_first x [] = (x ∷ []) ∷ []
cons_first x (p ∷ ps) = (x ∷ p) ∷ ps

-- The parts that the loop `while (pos < length) { indexOf(c, pos) … pos = found + 1; }` visits.
unfoldable pub parts : ℕ → Text → List Text
parts c [] = []
parts c (x ∷ t) = let rest = parts c t in if x == c then [] ∷ rest else cons_first x rest

abbrev pub has_prefix : Text → Text → Bool
has_prefix [] t = true
has_prefix (n ∷ needle) [] = false
has_prefix (n ∷ needle) (x ∷ t) = n == x && has_prefix needle t

-- `indexOf(needle)`: the text before it and the text after it.
unfoldable pub find_text : Text → Text → Option (Text × Text)
find_text needle [] = if has_prefix needle [] then some ([], []) else none
find_text needle (x ∷ t) =
    if has_prefix needle (x ∷ t)
    then some ([], drop (length needle) (x ∷ t))
    else onto_first x (find_text needle t)

abbrev pub is_digit : ℕ → Bool
is_digit c = leb b'0' c && leb c b'9'

abbrev pub is_space : ℕ → Bool
is_space c = c == 32 || (leb 9 c && leb c 13)

abbrev to_upper : ℕ → ℕ
to_upper c = if leb b'a' c && leb c b'z' then c - 32 else c

-- `toUpperCase()`
unfoldable pub upper_case : Text → Text
upper_case = map to_upper

unfoldable pub skip_while : (ℕ → Bool) → Text → Text
skip_while p [] = []
skip_while p (c ∷ t) = let rest = skip_while p t in if p c then rest else c ∷ t

unfoldable pub drop_end_while : (ℕ → Bool) → Text → Text
drop_end_while p [] = []
drop_end_while p (c ∷ t) =
    let rest = drop_end_while p t in if is_empty rest && p c then [] else c ∷ rest

-- `trim()`
unfoldable pub trim : Text → Text
unfolding skip_while drop_end_while
trim t = drop_end_while is_space (skip_while is_space t)

-- The value of the leading digits on top of `n`, their number, and the text after them.
unfoldable pub read_digits : ℕ → ℕ → Text → ℕ × ℕ × Text
read_digits n count [] = (n, count, [])
read_digits n count (c ∷ t) =
    let more = read_digits (n * 10 + (c - b'0')) (count + 1) t in
    if is_digit c then more else (n, count, c ∷ t)

-- A 32-bit `long` stops at its ends.
abbrev saturate : Bool → ℕ → ℤ
saturate true n = pos 0 -ℤ pos (if leb (2 ^ 31) n then 2 ^ 31 else n)
saturate false n = pos (if leb (2 ^ 31) n then 2 ^ 31 - 1 else n)

abbrev signed_digits : Bool → Text → Option (ℤ × Text)
signed_digits negative t =
    let (n, count, rest) = read_digits 0 0 t in
    if count == 0 then none else some (saturate negative n, rest)

abbrev at_sign : Text → Option (ℤ × Text)
at_sign [] = none
at_sign (c ∷ t) =
    if c == b'-'
    then signed_digits true t
    else if c == b'+'
    then signed_digits false t
    else signed_digits false (c ∷ t)

-- `strtol(p, &end, 10)`: the number and the text from `end` on; `none` if `end == p`.
unfoldable pub strtol : Text → Option (ℤ × Text)
unfolding read_digits skip_while ◌-ℤ◌
strtol t = at_sign (skip_while is_space t)

-- `atoi` and `toInt()`
unfoldable pub to_int : Text → ℤ
unfolding strtol
to_int t = elim (strtol t) [ none ↦ pos 0 | some r ↦ r.0 ]

-- `value[i] - '0'`. An index at the end or past it reads the terminating NUL.
unfoldable pub digit_at : Text → ℕ → ℤ
unfolding ◌-ℤ◌
digit_at t i = pos (get_or t i 0) -ℤ pos b'0'

unfoldable pub two_digits : Text → ℕ → ℤ
unfolding digit_at ◌+ℤ◌ ◌*ℤ◌
two_digits t i = digit_at t i *ℤ pos 10 +ℤ digit_at t (i + 1)

-- The decimal digits of a number below 10 ^ fuel.
unfoldable pub decimal : ℕ → ℕ → Text
decimal zero n = []
decimal (suc fuel) n = elim (ltb n 10) [
  | true ↦ (n + b'0') ∷ []
  | false ↦ decimal fuel (n / 10) ++ ((n % 10 + b'0') ∷ [])
]

-- `unescapeText`
unfoldable pub unescape_text : Text → Text
unescape_text [] = []
unescape_text (c ∷ []) = c ∷ []
unescape_text (c ∷ n ∷ t) = elim (c == b'\\') [
  | true ↦ (if n == b'n' || n == b'N' then b' ' else n) ∷ unescape_text t
  | false ↦ c ∷ unescape_text (n ∷ t)
]

-- The loop of `paramValue`, from behind the `=`.
unfoldable pub param_text : Bool → Text → Text
param_text quoted [] = []
param_text quoted (c ∷ t) = elim (c == b'"') [
  | true ↦ param_text (not quoted) t
  | false ↦
      let rest = param_text quoted t in
      if (c == b';' || c == b',') && not quoted then [] else c ∷ rest
]

abbrev param_found : Option (Text × Text) → Text
param_found none = []
param_found (some (before, after)) = param_text false after

-- `paramValue`
unfoldable pub param_value : Text → Text → Text
unfolding find_text param_text
param_value params key = param_found (find_text (b';' ∷ (key ++ (b'=' ∷ []))) params)

-- The text before and after the first ':' outside double quotes.
unfoldable pub cut_colon : Bool → Text → Option (Text × Text)
cut_colon quoted [] = none
cut_colon quoted (c ∷ t) = elim (c == b'"') [
  | true ↦ onto_first c (cut_colon (not quoted) t)
  | false ↦
      let rest = onto_first c (cut_colon quoted t) in
      if c == b':' && not quoted then some ([], t) else rest
]
