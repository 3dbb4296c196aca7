-- ===== src/Examples/Encoder.antt =====
-- A page of two rows, encoded with the errors as whole numbers in place of `float`.
use x4_printer.Prelude.{ℕ, ◌≡◌, refl, arith, true, if◌then◌else◌, List, [], ◌∷◌, inl, inr}
use x4_printer.Prelude.Int.{ℤ, pos, ◌+ℤ◌, ◌-ℤ◌, ◌*ℤ◌, quot, leb_ℤ}
use x4_printer.Xtc.Access.{ok}
use x4_printer.Xtc.Decoder.{decode_page}
use x4_printer.Xtc.Encoder.{Floats, encode_single_page}
use x4_printer.Xtc.Encoder.Rows.{IsExact}
use x4_printer.Xtc.Encoder.RoundTrip.{decode_page-encode_single_page}

abbrev whole_numbers : Floats
whole_numbers = record {
  Float = ℤ;
  zero_float = pos 0;
  of_byte = pos;
  add = ◌+ℤ◌;
  scale = λ k e. quot (e *ℤ pos k) 16;
  at_least_128 = leb_ℤ (pos 128);
  minus_shade = λ e white. e -ℤ pos (if white then 255 else 0);
}

whole_numbers-IsExact : IsExact whole_numbers
unfolding ◌+ℤ◌ ◌-ℤ◌ ◌*ℤ◌ quot
whole_numbers-IsExact = record {
  whole = λ p h. ground arith;
  nothing = refl;
  part_of_nothing = λ k. ground arith;
  white = refl;
  black = refl;
  no_white_error = refl;
  no_black_error = refl;
}

abbrev rows : List (List ℕ)
rows = (255 ∷ 0 ∷ 255 ∷ []) ∷ (0 ∷ 0 ∷ 255 ∷ []) ∷ []

decode_page-encode_single_page_example :
    decode_page (λ n. true) (encode_single_page whole_numbers (λ n. true) rows 3 2 (65 ∷ []) 7) 0
    ≡ ok record { width = 3; height = 2; pixels = 255 ∷ 0 ∷ 255 ∷ 0 ∷ 0 ∷ 255 ∷ [] }
decode_page-encode_single_page_example =
    decode_page-encode_single_page whole_numbers whole_numbers-IsExact (λ n. true) rows 3 (65 ∷ [])
      7
      (
        (refl, (inr refl, (inl refl, (inr refl, tt)))),
        ((refl, (inl refl, (inl refl, (inr refl, tt)))), tt),
      )
      (omega arith) (omega arith) (omega arith) (omega arith) refl refl
