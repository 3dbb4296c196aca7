-- ===== src/Xtc/Format.antt =====
-- firmware/src/xtc/XtcFormat.h: the little-endian readers and the three parsers. `p` is an index into
-- the buffer. `x | (y << 8 * k)` of bytes is their sum, as the bits are disjoint.
pub mod Ranges
use x4_printer.Prelude.{ℕ, ◌+◌, ◌*◌, ◌/◌, ◌%◌, ◌^◌, Bool, ◌||◌, ◌==◌}
use x4_printer.Xtc.Access.{Access, ok, reject, ◌>>=◌, ◌>>◌, guard, Bytes, byte_at}

abbrev pub magic_xtg : ℕ
magic_xtg = 0x00475458

abbrev pub magic_xth : ℕ
magic_xth = 0x00485458

abbrev pub magic_xtc : ℕ
magic_xtc = 0x00435458

abbrev pub magic_xtch : ℕ
magic_xtch = 0x48435458

abbrev pub xtg_header_size : ℕ
xtg_header_size = 22

abbrev pub xtc_header_size : ℕ
xtc_header_size = 56

abbrev pub index_entry_size : ℕ
index_entry_size = 16

abbrev pub metadata_size : ℕ
metadata_size = 256

pub record XtcHeader : Type 0 where
  pub mark : ℕ
  pub version : ℕ
  pub page_count : ℕ
  pub read_direction : ℕ
  pub has_metadata : ℕ
  pub has_thumbnails : ℕ
  pub has_chapters : ℕ
  pub current_page : ℕ
  pub metadata_offset : ℕ
  pub index_offset : ℕ
  pub data_offset : ℕ
  pub thumb_offset : ℕ
  pub chapter_offset : ℕ

pub record XtcPageIndexEntry : Type 0 where
  pub offset : ℕ
  pub size : ℕ
  pub width : ℕ
  pub height : ℕ

pub record XtgHeader : Type 0 where
  pub mark : ℕ
  pub width : ℕ
  pub height : ℕ
  pub color_mode : ℕ
  pub compression : ℕ
  pub data_size : ℕ

abbrev pub is_monochrome : XtgHeader → Bool
is_monochrome h = h.mark == magic_xtg

unfoldable pub read_le16 : Bytes → ℕ → Access ℕ
read_le16 bs p = do a ← byte_at bs p; b ← byte_at bs (p + 1); ok (a + b * 2 ^ 8)

unfoldable pub read_le32 : Bytes → ℕ → Access ℕ
read_le32 bs p = do
  a ← byte_at bs p
  b ← byte_at bs (p + 1)
  c ← byte_at bs (p + 2)
  d ← byte_at bs (p + 3)
  ok (a + b * 2 ^ 8 + c * 2 ^ 16 + d * 2 ^ 24)

unfoldable pub read_le64 : Bytes → ℕ → Access ℕ
read_le64 bs p = do lo ← read_le32 bs p; hi ← read_le32 bs (p + 4); ok (lo + hi * 2 ^ 32)

-- `reject` is the source's `false`.
unfoldable pub parse_xtc_header : Bytes → ℕ → Access XtcHeader
parse_xtc_header bs p = do
  mark ← read_le32 bs p
  guard (mark == magic_xtc || mark == magic_xtch)
  version ← read_le16 bs (p + 0x04)
  page_count ← read_le16 bs (p + 0x06)
  read_direction ← byte_at bs (p + 0x08)
  has_metadata ← byte_at bs (p + 0x09)
  has_thumbnails ← byte_at bs (p + 0x0A)
  has_chapters ← byte_at bs (p + 0x0B)
  current_page ← read_le32 bs (p + 0x0C)
  metadata_offset ← read_le64 bs (p + 0x10)
  index_offset ← read_le64 bs (p + 0x18)
  data_offset ← read_le64 bs (p + 0x20)
  thumb_offset ← read_le64 bs (p + 0x28)
  chapter_offset ← read_le64 bs (p + 0x30)
  ok record {
    mark = mark;
    version = version;
    page_count = page_count;
    read_direction = read_direction;
    has_metadata = has_metadata;
    has_thumbnails = has_thumbnails;
    has_chapters = has_chapters;
    current_page = current_page;
    metadata_offset = metadata_offset;
    index_offset = index_offset;
    data_offset = data_offset;
    thumb_offset = thumb_offset;
    chapter_offset = chapter_offset;
  }

unfoldable pub parse_index_entry : Bytes → ℕ → Access XtcPageIndexEntry
parse_index_entry bs p = do
  offset ← read_le64 bs p
  size ← read_le32 bs (p + 0x08)
  width ← read_le16 bs (p + 0x0C)
  height ← read_le16 bs (p + 0x0E)
  ok record { offset = offset; size = size; width = width; height = height }

unfoldable pub parse_xtg_header : Bytes → ℕ → Access XtgHeader
parse_xtg_header bs p = do
  mark ← read_le32 bs p
  guard (mark == magic_xtg || mark == magic_xth)
  width ← read_le16 bs (p + 0x04)
  height ← read_le16 bs (p + 0x06)
  color_mode ← byte_at bs (p + 0x08)
  compression ← byte_at bs (p + 0x09)
  data_size ← read_le32 bs (p + 0x0A)
  ok record {
    mark = mark;
    width = width;
    height = height;
    color_mode = color_mode;
    compression = compression;
    data_size = data_size;
  }

-- `(width + 7) / 8` is an `int`, and the product a `uint32_t`.
unfoldable pub expected_xtg_data_size : ℕ → ℕ → ℕ
expected_xtg_data_size width height = (width + 7) / 8 * height % 2 ^ 32
