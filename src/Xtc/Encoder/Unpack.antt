-- ===== src/Xtc/Encoder/Unpack.antt =====
-- The rows that the encoder packed, unpacked again.
use x4_printer.Prelude.{
  ℕ, zero, suc, ◌+◌, ◌*◌, ◌/◌, ◌<◌, ◌≡◌, refl, ap, ◌∙◌, sym, Bool, List, [], ◌∷◌, ◌++◌, get_or,
  get_elem?, drop, drop-cons, drop-length, drop-drop, drop-append, replicate, length, length-append,
  length-replicate, All, arith, some,
}
use x4_printer.Xtc.Access.{ok, Bytes, byte_at}
use x4_printer.Xtc.Decoder.{row_bytes, unpack_row, unpack_rows}
use x4_printer.Xtc.Encoder.{Floats, dither_row, dither_rows, load_row}
use x4_printer.Xtc.Encoder.Header.{byte_at-drop}
use x4_printer.Xtc.Encoder.Bits.{pixel_at}
use x4_printer.Xtc.Encoder.Rows.{
  IsExact, AreShades, pack, pack-shades, length-pack, zeros-IsStable, load_row-bytes,
  dither_row-pack,
}

get_elem?-get_or :
    (bs : Bytes) (rest : Bytes) (i : ℕ)
    → i < length bs
    → get_elem? (bs ++ rest) i ≡ some (get_or bs i 0)
get_elem?-get_or [] rest i h = absurd (omega arith)
get_elem?-get_or (b ∷ bs) rest zero h = refl
get_elem?-get_or (b ∷ bs) rest (suc i) h = get_elem?-get_or bs rest i (omega arith)

module _ (bs : Bytes) where
  byte_of_row :
      (src i : ℕ) (row rest : Bytes)
      → drop src bs ≡ row ++ rest
      → i < length row
      → byte_at bs (src + i) ≡ ok (get_or row i 0)
  unfolding byte_at
  byte_of_row src i row rest at h =
      byte_at-drop bs src i (src + i) refl ∙ rw (at, byte_at, get_elem?-get_or row rest i h) refl

  -- A row of bytes that stands at `src`.
  unpack_row-shades :
      (left x src : ℕ) (px : List ℕ) (row rest : Bytes)
      → drop src bs ≡ row ++ rest
      → length row ≡ row_bytes (length px)
      → x + left ≡ length px
      → ((y : ℕ) → y < length px → pixel_at row y ≡ get_or px y 0)
      → unpack_row bs src x left ≡ ok (drop x px)
  unfolding unpack_row
  unpack_row-shades zero x src px row rest at hl e shades =
      ap ok (sym (drop-length x px (omega (arith, e))))
  unpack_row-shades (suc left) x src px row rest at hl e shades =
      let inside : x < length px = omega (arith, e) in
      rw
        (
          byte_of_row src (x / 8) row rest at (omega (arith, hl, inside)),
          unpack_row-shades left (x + 1) src px row rest at hl (omega (arith, e)) shades,
        )
        (ap ok (
          ap (λ p. p ∷ drop (x + 1) px) (shades x inside)
          ∙ ap (λ k. get_or px x 0 ∷ drop k px) {y = suc x} (omega arith)
          ∙ sym (drop-cons x px 0 inside)))

-- Rows of one width, of black and white pixels.
abbrev pub AreRows : ℕ → List (List ℕ) → Type 0
AreRows width = All (λ row. (length row ≡ width) × AreShades row)

module _ (fl : Floats) (exact : IsExact fl) where
  abbrev row_of : List ℕ → Bytes
  row_of px = pack (length px) 0 px (replicate (row_bytes (length px)) 0)

  abbrev pub zeros : ℕ → List fl.Float
  zeros n = replicate n fl.zero_float

  dither_row-exact :
      (last : Bool) (width : ℕ) (px : List ℕ)
      → length px ≡ width
      → AreShades px
      → dither_row fl last width width 0
          (load_row fl px (zeros width))
          (zeros width)
          (replicate (row_bytes width) 0)
        ≡ (zeros width, row_of px)
  dither_row-exact last width px e h =
      rw (← e, load_row-bytes fl exact px h)
        (dither_row-pack fl exact last (length px) (length px) 0 px (zeros (length px)) _ h
          (zeros-IsStable fl exact (length px)) (omega arith))

  dither_rows-exact :
      (width : ℕ) (px : List ℕ) (rows : List (List ℕ))
      → length px ≡ width
      → AreShades px
      → dither_rows fl width (px ∷ rows) (zeros width)
        ≡ row_of px ++ dither_rows fl width rows (zeros width)
  unfolding dither_rows
  dither_rows-exact width px rows e h = rw (dither_row-exact _ width px e h) refl

  pub unpack_rows-exact :
      (bs : Bytes) (src width : ℕ) (rows : List (List ℕ))
      → AreRows width rows
      → drop src bs ≡ dither_rows fl width rows (zeros width)
      → unpack_rows bs src width (length rows) ≡ ok rows
  unfolding unpack_rows
  unpack_rows-exact bs src width [] h at = refl
  unpack_rows-exact bs src width (px ∷ rows) ((e, hp), h) at =
      let here = at ∙ dither_rows-exact width px rows e hp in
      let sized : length (row_of px) ≡ row_bytes width =
        length-pack (length px) 0 px _
        ∙ length-replicate {A = ℕ} (row_bytes (length px)) 0
        ∙ ap row_bytes e in
      let next : drop (src + row_bytes width) bs ≡ dither_rows fl width rows (zeros width) =
        drop-drop src (row_bytes width) bs
        ∙ ap (drop (row_bytes width)) here
        ∙ drop-append (row_bytes width) (row_of px) _ sized in
      rw
        (
          unpack_row-shades bs width 0 src px (row_of px) _ here (sized ∙ ap row_bytes (sym e))
              (omega (arith, e)) (λ y k. pack-shades px y hp k),
          unpack_rows-exact bs (src + row_bytes width) width rows h next,
        )
        refl

  pub length-dither_rows :
      (width : ℕ) (rows : List (List ℕ))
      → AreRows width rows
      → length (dither_rows fl width rows (zeros width)) ≡ row_bytes width * length rows
  unfolding dither_rows
  length-dither_rows width [] h = omega arith
  length-dither_rows width (px ∷ rows) ((e, hp), h) =
      ap length (dither_rows-exact width px rows e hp)
      ∙ length-append (row_of px) _
      ∙ grind (
        arith,
        length-pack (length px) 0 px (replicate (row_bytes (length px)) 0),
        length-replicate {A = ℕ} (row_bytes (length px)) 0,
        length-dither_rows width rows h,
        ap row_bytes e,
      )
