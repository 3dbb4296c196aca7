-- ===== src/Examples/Files.antt =====
-- XTC files, byte by byte: one page of 8 x 1 pixels, and a header whose index offset wraps.
use x4_printer.Prelude.{
  ℕ, ◌+◌, ◌-◌, ◌%◌, ◌^◌, ◌≡◌, refl, sym, ap, subst, Bool, true, some, [], ◌∷◌, ◌++◌, replicate,
  arith,
}
use x4_printer.Xtc.Access.{Access, ok, fault, Bytes, IsSafe, byte_at}
use x4_printer.Xtc.Format.{
  XtcHeader, XtcPageIndexEntry, parse_xtc_header, parse_index_entry, parse_xtg_header, read_le16,
  read_le32, read_le64, expected_xtg_data_size,
}
use x4_printer.Xtc.Decoder.{decode_page, entry_offset}
use x4_printer.Xtc.Decoder.Safety.{decode_page-IsSafe}
use x4_printer.Xtc.Decoder.Overread.{decode_page_overread}

-- The header of a file with one page and the given index offset.
abbrev header_bytes : Bytes → Bytes
header_bytes index =
    (88 ∷ 84 ∷ 67 ∷ 0 ∷ 1 ∷ 0 ∷ 1 ∷ 0 ∷ []) ++ (replicate 16 0 ++ (index ++ replicate 24 0))

abbrev entry_bytes : Bytes
entry_bytes = (72 ∷ 0 ∷ 0 ∷ 0 ∷ 0 ∷ 0 ∷ 0 ∷ 0 ∷ []) ++ (23 ∷ 0 ∷ 0 ∷ 0 ∷ 8 ∷ 0 ∷ 1 ∷ 0 ∷ [])

abbrev page_bytes : Bytes
page_bytes =
    (88 ∷ 84 ∷ 71 ∷ 0 ∷ 8 ∷ 0 ∷ 1 ∷ 0 ∷ 0 ∷ 0 ∷ 1 ∷ 0 ∷ 0 ∷ 0 ∷ []) ++ (replicate 8 0 ++ 0x81 ∷ [])

abbrev pub good_file : Bytes
good_file = header_bytes (56 ∷ replicate 7 0) ++ (entry_bytes ++ page_bytes)

abbrev wrapping_file : Bytes
wrapping_file = header_bytes (240 ∷ replicate 7 255)

abbrev malloc : ℕ → Bool
malloc n = true

abbrev index_of : Access XtcHeader → ℕ
index_of (ok header) = header.index_offset
index_of a = 0

abbrev offset_of : Access XtcPageIndexEntry → ℕ
offset_of (ok entry) = entry.offset
offset_of a = 0

abbrev wrapping_header : XtcHeader
wrapping_header = record {
  mark = 0x00435458;
  version = 1;
  page_count = 1;
  read_direction = 0;
  has_metadata = 0;
  has_thumbnails = 0;
  has_chapters = 0;
  current_page = 0;
  metadata_offset = 0;
  index_offset = 2 ^ 64 - 16;
  data_offset = 0;
  thumb_offset = 0;
  chapter_offset = 0;
}

good_page :
    decode_page malloc (some good_file) 0
    ≡ ok record { width = 8; height = 1; pixels = 255 ∷ 0 ∷ 0 ∷ 0 ∷ 0 ∷ 0 ∷ 0 ∷ 255 ∷ [] }
unfolding decode_page parse_xtc_header parse_index_entry parse_xtg_header read_le16 read_le32
    read_le64 byte_at expected_xtg_data_size
good_page = refl

wrapping_header_read : parse_xtc_header wrapping_file 0 ≡ ok wrapping_header
unfolding parse_xtc_header read_le16 read_le32 read_le64 byte_at
wrapping_header_read = refl

good_index :
    (header : XtcHeader) → parse_xtc_header good_file 0 ≡ ok header → header.index_offset ≡ 56
unfolding parse_xtc_header read_le16 read_le32 read_le64 byte_at
good_index header e = sym (ap index_of e)

good_offset :
    (header : XtcHeader) (entry : XtcPageIndexEntry)
    → parse_xtc_header good_file 0 ≡ ok header
    → parse_index_entry good_file (entry_offset header 0) ≡ ok entry
    → entry.offset ≡ 72
unfolding parse_index_entry read_le16 read_le32 read_le64 byte_at
good_offset header entry e found = sym (
    ap offset_of (
      subst (λ n. parse_index_entry good_file (n % 2 ^ 64) ≡ ok entry)
        (ap (λ n. n + 0) (good_index header e)) found))

decode_page-IsSafe_example : IsSafe (decode_page malloc (some good_file) 0)
decode_page-IsSafe_example =
    decode_page-IsSafe good_file (omega arith) malloc 0 (omega arith)
      (λ header e. omega (arith, good_index header e))
      (λ header entry e found. omega (arith, good_offset header entry e found))

decode_page_overread_example : decode_page malloc (some wrapping_file) 0 ≡ fault
decode_page_overread_example =
    decode_page_overread malloc wrapping_file wrapping_header (omega arith) (omega arith)
      wrapping_header_read (omega arith) (omega arith) (omega arith)
