-- ===== src/Xtc/Reader.antt =====
-- firmware/src/xtc/XtcReader: pages of an XTC file on the SD card, drawn into the framebuffer. The open
-- file is a parameter, what `seekSet` and `read` give for an offset and a length: `none` if the seek
-- fails or fewer bytes come. A write outside a buffer is a `fault`.
pub mod Writes
pub mod Bounds
pub mod Chunks
use x4_printer.Prelude.{
  ℕ, zero, suc, ◌+◌, ◌-◌, ◌*◌, ◌/◌, ◌%◌, ◌^◌, Bool, true, false, ◌&&◌, ◌||◌, not, Option, none,
  some, List, [], ◌∷◌, ◌++◌, ltb, leb, ◌==◌, length, take, drop, replicate, if◌then◌else◌, min,
}
use x4_printer.Prelude.Int.{ℤ, pos, negsuc, ◌+ℤ◌, ◌-ℤ◌, quot, ltb_ℤ, leb_ℤ, eq_ℤ, pos_part}
use x4_printer.Prelude.Text.{Text}
use x4_printer.Xtc.Access.{Access, fault, reject, ok, ◌>>=◌, Bytes}
use x4_printer.Xtc.Format.{
  XtcHeader, XtcPageIndexEntry, XtgHeader, xtc_header_size, index_entry_size, xtg_header_size,
  metadata_size, is_monochrome, parse_xtc_header, parse_index_entry, parse_xtg_header,
  expected_xtg_data_size,
}
use x4_printer.Xtc.Decoder.{add64, row_bytes}

abbrev pub bulk_chunk_bytes : ℕ
bulk_chunk_bytes = 2048

abbrev pub max_row_bytes : ℕ
max_row_bytes = 128

-- `readAt`
abbrev pub File : Type 0
File = ℕ → ℕ → Option Bytes

pub data RenderResult : Type 0 where
  done bad_page_index io_error unsupported_format size_mismatch : RenderResult

-- The bytes before the first NUL.
unfoldable pub until_nul : Bytes → Text
until_nul [] = []
until_nul (c ∷ bs) = let rest = until_nul bs in if c == 0 then [] else c ∷ rest

unfoldable pub read_fixed_string : Bytes → ℕ → Text
read_fixed_string bs max_len = until_nul (take max_len bs)

-- An open reader.
pub record XtcReader : Type 0 where
  pub file : File
  pub header : XtcHeader
  pub title : Text
  pub author : Text

-- A parser, on what a read gave.
abbrev pub parsed : {A : Type 0} → (Bytes → ℕ → Access A) → Option Bytes → Access A
parsed parse none = reject
parsed parse (some bs) = parse bs 0

abbrev named : File → XtcHeader → Option Bytes → XtcReader
named file header none = record { file = file; header = header; title = []; author = [] }
named file header (some meta) = record {
  file = file;
  header = header;
  title = take 128 (read_fixed_string meta 128);
  author = take 64 (read_fixed_string (drop 0x80 meta) 64);
}

-- `open`, for what the card gives for the path; `reject` is `false`, and leaves the reader closed.
unfoldable pub open_reader : Option File → Access XtcReader
open_reader none = reject
open_reader (some file) = do
  header ← parsed parse_xtc_header (file 0 xtc_header_size)
  ok (
      named file header
        (if header.has_metadata == 0 then none else file header.metadata_offset metadata_size))

-- `getPageInfo`; `reject` is `false`. A closed reader is `none`.
unfoldable pub get_page_info : Option XtcReader → ℕ → Access XtcPageIndexEntry
get_page_info none page_index = reject
get_page_info (some r) page_index =
    let offset = add64 r.header.index_offset (page_index * index_entry_size) in
    if leb r.header.page_count page_index
    then reject
    else parsed parse_index_entry (r.file offset index_entry_size)

-- Bytes written into a buffer at an offset.
unfoldable pub write_at : Bytes → ℕ → Bytes → Access Bytes
write_at buffer at bs =
    if leb (at + length bs) (length buffer)
    then ok (take at buffer ++ (bs ++ drop (at + length bs) buffer))
    else fault

-- What follows a read: the bytes are written, or the read failed.
abbrev pub read_in :
    Option Bytes
    → Bytes
    → ℕ
    → (Bytes → Access (RenderResult × Bytes))
    → Access (RenderResult × Bytes)
read_in none framebuffer at next = ok (io_error, framebuffer)
read_in (some bs) framebuffer at next = write_at framebuffer at bs >>= next

-- A read of `len` bytes into the framebuffer, which must have room for them whatever the read returns.
abbrev pub after_read :
    ℕ
    → Option Bytes
    → Bytes
    → ℕ
    → (Bytes → Access (RenderResult × Bytes))
    → Access (RenderResult × Bytes)
after_read len o framebuffer at next =
    if ltb (length framebuffer) (at + len) then fault else read_in o framebuffer at next

abbrev pub chunk_of : ℕ → ℕ
chunk_of remaining = if ltb remaining bulk_chunk_bytes then remaining else bulk_chunk_bytes

-- The loop over bulk chunks. Out of fuel it has no result, which counts as a fault; each chunk takes a
-- byte at least, so `remaining` is fuel enough. A read that fails may have written a part of its chunk,
-- which is not modelled.
unfoldable pub bulk_loop : File → ℕ → ℕ → ℕ → ℕ → Bytes → Access (RenderResult × Bytes)
bulk_loop file zero zero at offset framebuffer = ok (done, framebuffer)
bulk_loop file zero (suc n) at offset framebuffer = fault
bulk_loop file (suc fuel) zero at offset framebuffer = ok (done, framebuffer)
bulk_loop file (suc fuel) (suc n) at offset framebuffer =
    after_read (chunk_of (suc n)) (file offset (chunk_of (suc n))) framebuffer at (
      bulk_loop file fuel (suc n - chunk_of (suc n)) (at + chunk_of (suc n))
        (add64 offset (chunk_of (suc n))))

-- The shifted copy of one row, byte by byte.
unfoldable pub shift_row : ℤ → ℕ → Bytes → ℕ → ℕ → Bytes → Access Bytes
shift_row byte_offset panel_row_bytes [] src at framebuffer = ok framebuffer
shift_row byte_offset panel_row_bytes (b ∷ bs) src at framebuffer =
    let dst = pos src +ℤ byte_offset in
    let here = write_at framebuffer (at + pos_part dst) (b ∷ []) in
    let skips = ltb_ℤ dst (pos 0) || leb_ℤ (pos panel_row_bytes) dst in
    (if skips then ok framebuffer else here)
    >>= shift_row byte_offset panel_row_bytes bs (src + 1) at

unfoldable pub copy_row : ℤ → ℕ → Bytes → ℕ → Bytes → Access Bytes
copy_row x_offset panel_row_bytes row at framebuffer =
    if eq_ℤ x_offset (pos 0)
    then write_at framebuffer at (take panel_row_bytes row)
    else shift_row (quot x_offset 8) panel_row_bytes row 0 at framebuffer

-- How a page lies on the panel.
pub record Placing : Type 0 where
  pub file : File
  pub data_offset : ℕ
  pub src_row_bytes : ℕ
  pub panel_row_bytes : ℕ
  pub panel_height : ℕ
  pub y_offset : ℤ
  pub x_offset : ℤ

abbrev pub copied_row :
    Placing
    → ℕ
    → Option Bytes
    → Bytes
    → (Bytes → Access (RenderResult × Bytes))
    → Access (RenderResult × Bytes)
copied_row p y none framebuffer next = ok (io_error, framebuffer)
copied_row p y (some row) framebuffer next =
    copy_row p.x_offset p.panel_row_bytes row (y * p.panel_row_bytes) framebuffer >>= next

-- A row that is read and copied. The read writes `src_row_bytes` bytes into `rowBuf`, whatever it
-- returns.
abbrev pub placed_row :
    Placing
    → ℕ
    → Option Bytes
    → Bytes
    → (Bytes → Access (RenderResult × Bytes))
    → Access (RenderResult × Bytes)
placed_row p y o framebuffer next =
    if ltb max_row_bytes p.src_row_bytes then fault else copied_row p y o framebuffer next

-- One row, past the panel's end or on it, and the rest. A row off the panel is not read.
abbrev pub row_at :
    Bool
    → Placing
    → ℕ
    → Option Bytes
    → Bytes
    → (Bytes → Access (RenderResult × Bytes))
    → Access (RenderResult × Bytes)
row_at true p y row framebuffer next = next framebuffer
row_at false p y row framebuffer next = placed_row p y row framebuffer next

abbrev pub row_step :
    Placing
    → ℤ
    → Option Bytes
    → Bytes
    → (Bytes → Access (RenderResult × Bytes))
    → Access (RenderResult × Bytes)
row_step p (negsuc n) row framebuffer next = next framebuffer
row_step p (pos y) row framebuffer next = row_at (leb p.panel_height y) p y row framebuffer next

-- The rows from `src_y` on, with `left` to go.
unfoldable pub row_loop : Placing → ℕ → ℕ → Bytes → Access (RenderResult × Bytes)
row_loop p zero src_y framebuffer = ok (done, framebuffer)
row_loop p (suc left) src_y framebuffer =
    row_step p (p.y_offset +ℤ pos src_y)
      (p.file (add64 p.data_offset (src_y * p.src_row_bytes)) p.src_row_bytes) framebuffer
      (row_loop p left (src_y + 1))

abbrev half : ℕ → ℕ → ℤ
half panel page = quot (pos panel -ℤ pos page) 2

abbrev pub placing : File → ℕ → XtgHeader → ℕ → ℕ → Placing
placing file data_offset xtg panel_width panel_height = record {
  file = file;
  data_offset = data_offset;
  src_row_bytes = row_bytes xtg.width;
  panel_row_bytes = row_bytes panel_width;
  panel_height = panel_height;
  y_offset = half panel_height xtg.height;
  x_offset = half panel_width xtg.width;
}

-- The page's data, once its header is accepted. The framebuffer is made white before the rows.
unfoldable pub draw_page : File → ℕ → XtgHeader → Bytes → ℕ → ℕ → Access (RenderResult × Bytes)
draw_page file data_offset xtg framebuffer panel_width panel_height =
    let required = row_bytes panel_width * panel_height in
    if ltb (length framebuffer) required
    then ok (size_mismatch, framebuffer)
    else if xtg.width == panel_width && xtg.height == panel_height
    then bulk_loop file xtg.data_size xtg.data_size 0 data_offset framebuffer
    else if ltb max_row_bytes (row_bytes xtg.width)
    then ok (unsupported_format, framebuffer)
    else write_at framebuffer 0 (replicate required 0xFF)
      >>= row_loop (placing file data_offset xtg panel_width panel_height) xtg.height 0

unfoldable pub draw_xtg :
    File → ℕ → Access XtgHeader → Bytes → ℕ → ℕ → Access (RenderResult × Bytes)
draw_xtg file data_offset fault framebuffer panel_width panel_height = fault
draw_xtg file data_offset reject framebuffer panel_width panel_height = ok (io_error, framebuffer)
draw_xtg file data_offset (ok xtg) framebuffer panel_width panel_height =
    if not (is_monochrome xtg)
    then ok (unsupported_format, framebuffer)
    else if not (xtg.data_size == expected_xtg_data_size xtg.width xtg.height)
    then ok (size_mismatch, framebuffer)
    else draw_page file data_offset xtg framebuffer panel_width panel_height

unfoldable pub draw_entry :
    File → Access XtcPageIndexEntry → Bytes → ℕ → ℕ → Access (RenderResult × Bytes)
draw_entry file fault framebuffer panel_width panel_height = fault
draw_entry file reject framebuffer panel_width panel_height = ok (bad_page_index, framebuffer)
draw_entry file (ok entry) framebuffer panel_width panel_height =
    draw_xtg file (add64 entry.offset xtg_header_size)
      (parsed parse_xtg_header (file entry.offset xtg_header_size)) framebuffer panel_width
      panel_height

-- `renderPageToFramebuffer`
unfoldable pub render_page_to_framebuffer :
    Option XtcReader → ℕ → Bytes → ℕ → ℕ → Access (RenderResult × Bytes)
render_page_to_framebuffer none page_index framebuffer panel_width panel_height =
    ok (io_error, framebuffer)
render_page_to_framebuffer (some r) page_index framebuffer panel_width panel_height =
    draw_entry r.file (get_page_info (some r) page_index) framebuffer panel_width panel_height
