-- ===== src/Xtc/Encoder.antt =====
-- tools/xtc-wasm/xtc_encoder.cpp: a grayscale page, dithered and packed into a file of one page. The
-- fields are written one behind another into a buffer of zeros, so the file is the list of their bytes.
-- The floating-point numbers of the dithering are a parameter, and so is `malloc`.
pub mod Bits
pub mod Rows
pub mod Header
pub mod Unpack
pub mod RoundTrip
use x4_printer.Prelude.{
  ℕ, zero, suc, ◌+◌, ◌-◌, ◌*◌, ◌/◌, ◌%◌, ◌^◌, Bool, true, false, ◌||◌, Option, none, some, List, [],
  ◌∷◌, ◌++◌, ltb, ◌==◌, length, get_or, set, take, drop, replicate, if◌then◌else◌,
}
use x4_printer.Prelude.Text.{Text, codes}
use x4_printer.Xtc.Access.{Bytes}
use x4_printer.Xtc.Format.{
  magic_xtc, magic_xtg, xtc_header_size, index_entry_size, xtg_header_size, metadata_size,
}
use x4_printer.Xtc.Decoder.{row_bytes}

unfoldable pub write_le16 : ℕ → Bytes
write_le16 v = v % 256 ∷ v / 2 ^ 8 % 256 ∷ []

unfoldable pub write_le32 : ℕ → Bytes
write_le32 v = v % 256 ∷ v / 2 ^ 8 % 256 ∷ v / 2 ^ 16 % 256 ∷ v / 2 ^ 24 % 256 ∷ []

unfoldable pub write_le64 : ℕ → Bytes
write_le64 v = write_le32 (v % 2 ^ 32) ++ write_le32 (v / 2 ^ 32)

-- A field of `size` bytes. A null pointer is the empty string.
unfoldable pub pack_fixed_string : ℕ → Text → Bytes
pack_fixed_string size value =
    let cut = take (size - 1) value in cut ++ replicate (size - length cut) 0

-- `float`, as the dithering uses it.
pub record Floats : Type 1 where
  pub Float : Type 0
  pub zero_float : Float
  pub of_byte : ℕ → Float
  pub add : Float → Float → Float
  pub scale : ℕ → Float → Float
  pub at_least_128 : Float → Bool
  pub minus_shade : Float → Bool → Float

abbrev pub metadata_offset : ℕ
metadata_offset = 56

abbrev pub index_offset : ℕ
index_offset = 312

abbrev pub data_offset : ℕ
data_offset = 328

unfoldable pub header_bytes : Bytes
header_bytes =
    write_le32 magic_xtc
    ++ write_le16 0x0100
    ++ write_le16 1
    ++ (0 ∷ 1 ∷ 0 ∷ 0 ∷ [])
    ++ write_le32 0
    ++ write_le64 metadata_offset
    ++ write_le64 index_offset
    ++ write_le64 data_offset
    ++ write_le64 0
    ++ write_le64 0

unfoldable pub metadata_bytes : Text → ℕ → Bytes
metadata_bytes title create_time =
    pack_fixed_string 128 title
    ++ (pack_fixed_string 64 []
        ++ pack_fixed_string 32 (codes "focusink")
        ++ pack_fixed_string 16 (codes "en-US")
        ++ write_le32 create_time
        ++ write_le16 0xFFFF
        ++ write_le16 0
        ++ replicate 8 0)

unfoldable pub index_bytes : ℕ → ℕ → ℕ → Bytes
index_bytes total width height =
    write_le64 data_offset ++ write_le32 total ++ write_le16 width ++ write_le16 height

unfoldable pub xtg_header_bytes : ℕ → ℕ → ℕ → Bytes
xtg_header_bytes data_size width height =
    write_le32 magic_xtg
    ++ write_le16 width
    ++ write_le16 height
    ++ (0 ∷ 0 ∷ [])
    ++ write_le32 data_size
    ++ replicate 8 0

-- `byte | (0x80 >> (x % 8))`
abbrev pub or_bit : ℕ → ℕ → ℕ
or_bit byte x = let mask = 2 ^ (7 - x % 8) in if byte / mask % 2 == 1 then byte else byte + mask

-- `dstRow[x / 8] |= …`
abbrev pub set_bit : Bytes → ℕ → Bytes
set_bit row x = set row (x / 8) (or_bit (get_or row (x / 8) 0) x)

module _ (fl : Floats) where
  abbrev pub add_at : List fl.Float → ℕ → fl.Float → List fl.Float
  add_at row x v = set row x (fl.add (get_or row x fl.zero_float) v)

  -- The error that goes to the next row, where there is one.
  abbrev pub spread : Bool → ℕ → ℕ → fl.Float → List fl.Float → List fl.Float
  spread last width x err next =
      let left = (if ltb 0 x then add_at next (x - 1) (fl.scale 3 err) else next) in
      let below = add_at left x (fl.scale 5 err) in
      if last
      then next
      else if ltb (x + 1) width
      then add_at below (x + 1) (fl.scale 1 err)
      else below

  abbrev pub pass_right : ℕ → ℕ → fl.Float → List fl.Float → List fl.Float
  pass_right width x err row =
      if ltb (x + 1) width then add_at row (x + 1) (fl.scale 7 err) else row

  -- The inner loop from column `x` on, with `left` to go: `nextErr` and the bytes of the row.
  unfoldable pub dither_row :
      Bool → ℕ → ℕ → ℕ → List fl.Float → List fl.Float → Bytes → List fl.Float × Bytes
  dither_row last width zero x row next dst = (next, dst)
  dither_row last width (suc left) x row next dst =
      let src = get_or row x fl.zero_float in
      let white = fl.at_least_128 src in
      let err = fl.minus_shade src white in
      dither_row last width left (x + 1) (pass_right width x err row) (spread last width x err next)
        (if white then set_bit dst x else dst)

  -- `row[x] = float(srcRow[x]) + carryErr[x]`
  unfoldable pub load_row : List ℕ → List fl.Float → List fl.Float
  load_row [] carry = []
  load_row (p ∷ ps) [] = []
  load_row (p ∷ ps) (c ∷ carry) = fl.add (fl.of_byte p) c ∷ load_row ps carry

  abbrev is_last : List (List ℕ) → Bool
  is_last [] = true
  is_last (row ∷ rows) = false

  -- The outer loop over the rows of pixels; the bytes of the page.
  unfoldable pub dither_rows : ℕ → List (List ℕ) → List fl.Float → Bytes
  dither_rows width [] carry = []
  dither_rows width (pixels ∷ rows) carry =
      let (next, dst) =
        dither_row (is_last rows) width width 0 (load_row pixels carry)
          (replicate width fl.zero_float) (replicate (row_bytes width) 0) in
      dst ++ dither_rows width rows next

  -- `xtc_encode_single_page` on the rows of pixels; `none` is `nullptr`.
  unfoldable pub encode_single_page : (ℕ → Bool) → List (List ℕ) → ℕ → ℕ → Text → ℕ → Option Bytes
  encode_single_page malloc pixels width height title create_time =
      let data_size = row_bytes width * height in
      let total = xtg_header_size + data_size in
      if width == 0 || height == 0
      then none
      else if malloc (data_offset + total)
      then some (
          header_bytes
          ++ (metadata_bytes title create_time
              ++ (index_bytes total width height
                  ++ (xtg_header_bytes data_size width height
                      ++ dither_rows width pixels (replicate width fl.zero_float)))))
      else none
