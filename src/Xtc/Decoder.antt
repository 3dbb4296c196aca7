-- ===== src/Xtc/Decoder.antt =====
-- tools/xtc-wasm/xtc_decoder.cpp: one page of an XTC file, unpacked to a byte for each pixel. The buffer
-- is `none` for a null pointer; its `len` is the length of the list. A pointer into it is an index,
-- computed in `uint64_t`. `malloc` is a parameter: whether so many bytes can be had.
pub mod Safety
pub mod Overread
use x4_printer.Prelude.{
  ℕ, zero, suc, ◌+◌, ◌-◌, ◌*◌, ◌/◌, ◌%◌, ◌^◌, Bool, not, ◌||◌, Option, none, some, List, [], ◌∷◌,
  ltb, leb, ◌==◌, length, if◌then◌else◌,
}
use x4_printer.Xtc.Access.{Access, fault, ok, reject, ◌>>=◌, ◌>>◌, guard, Bytes, byte_at}
use x4_printer.Xtc.Format.{
  XtcHeader, XtcPageIndexEntry, XtgHeader, xtc_header_size, index_entry_size, xtg_header_size,
  is_monochrome, parse_xtc_header, parse_index_entry, parse_xtg_header, expected_xtg_data_size,
}

pub record Image : Type 0 where
  pub width : ℕ
  pub height : ℕ
  pub pixels : List ℕ

abbrev pub row_bytes : ℕ → ℕ
row_bytes width = (width + 7) / 8

-- Bit 7 of a byte is its first pixel; 1 is white.
abbrev pub pixel_of : ℕ → ℕ → ℕ
pixel_of byte x = if byte / 2 ^ (7 - x % 8) % 2 == 1 then 255 else 0

-- The inner loop from column `x` on, with `left` columns to go.
unfoldable pub unpack_row : Bytes → ℕ → ℕ → ℕ → Access (List ℕ)
unpack_row bs src_row x zero = ok []
unpack_row bs src_row x (suc left) = do
  byte ← byte_at bs (src_row + x / 8)
  rest ← unpack_row bs src_row (x + 1) left
  ok (pixel_of byte x ∷ rest)

-- The outer loop, row after row.
unfoldable pub unpack_rows : Bytes → ℕ → ℕ → ℕ → Access (List (List ℕ))
unpack_rows bs src_row width zero = ok []
unpack_rows bs src_row width (suc left) = do
  row ← unpack_row bs src_row 0 width
  rest ← unpack_rows bs (src_row + row_bytes width) width left
  ok (row ∷ rest)

abbrev pub flatten : List (List ℕ) → List ℕ
flatten [] = []
flatten ([] ∷ rows) = flatten rows
flatten ((p ∷ row) ∷ rows) = p ∷ flatten (row ∷ rows)

abbrev pub add64 : ℕ → ℕ → ℕ
add64 a b = (a + b) % 2 ^ 64

abbrev pub entry_offset : XtcHeader → ℕ → ℕ
entry_offset header page_index = add64 header.index_offset (page_index * index_entry_size)

-- From the page's header on.
unfoldable pub decode_xtg : (ℕ → Bool) → Bytes → ℕ → XtgHeader → Access Image
unfolding unpack_rows unpack_row
decode_xtg malloc bs offset xtg = do
  guard (is_monochrome xtg)
  guard (xtg.data_size == expected_xtg_data_size xtg.width xtg.height)
  guard (leb (add64 (add64 offset xtg_header_size) xtg.data_size) (length bs))
  guard (not (xtg.width == 0 || xtg.height == 0))
  guard (malloc (xtg.width * xtg.height))
  rows ← unpack_rows bs (add64 offset xtg_header_size) xtg.width xtg.height
  ok record { width = xtg.width; height = xtg.height; pixels = flatten rows }

unfoldable pub decode_entry : (ℕ → Bool) → Bytes → XtcPageIndexEntry → Access Image
unfolding decode_xtg
decode_entry malloc bs entry = do
  guard (leb (add64 entry.offset xtg_header_size) (length bs))
  xtg ← parse_xtg_header bs entry.offset
  decode_xtg malloc bs entry.offset xtg

unfoldable pub decode_header : (ℕ → Bool) → Bytes → ℕ → XtcHeader → Access Image
unfolding decode_entry
decode_header malloc bs page_index header = do
  guard (ltb page_index header.page_count)
  guard (leb (add64 (entry_offset header page_index) index_entry_size) (length bs))
  entry ← parse_index_entry bs (entry_offset header page_index)
  decode_entry malloc bs entry

-- `xtc_decode_page`; `reject` is `nullptr`.
unfoldable pub decode_page : (ℕ → Bool) → Option Bytes → ℕ → Access Image
unfolding decode_header
decode_page malloc none page_index = reject
decode_page malloc (some bs) page_index = do
  guard (leb xtc_header_size (length bs))
  header ← parse_xtc_header bs 0
  decode_header malloc bs page_index header

abbrev count_of : Access XtcHeader → Access ℕ
count_of fault = fault
count_of reject = ok 0
count_of (ok header) = ok header.page_count

-- `xtc_page_count`, which answers 0 on input that it does not accept.
unfoldable pub page_count : Option Bytes → Access ℕ
page_count none = ok 0
page_count (some bs) =
    if ltb (length bs) xtc_header_size then ok 0 else count_of (parse_xtc_header bs 0)
