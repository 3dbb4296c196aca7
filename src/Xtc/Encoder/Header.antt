-- ===== src/Xtc/Encoder/Header.antt =====
-- What the writers of the fields write, the readers of `XtcFormat.h` read.
use x4_printer.Prelude.{
  ℕ, zero, suc, ◌+◌, ◌-◌, ◌*◌, ◌/◌, ◌%◌, ◌^◌, ◌<◌, ◌≡◌, refl, ap, ◌∙◌, [], ◌∷◌, ◌++◌, get_elem?,
  take, replicate, drop, length, length-append, length-take, length-replicate, arith,
}
use x4_printer.Prelude.Text.{Text}
use x4_printer.Xtc.Access.{ok, Bytes, byte_at}
use x4_printer.Xtc.Format.{
  read_le16, read_le32, read_le64, XtcHeader, parse_xtc_header, parse_index_entry, parse_xtg_header,
  magic_xtc, magic_xtg,
}
use x4_printer.Xtc.Encoder.{
  write_le16, write_le32, write_le64, pack_fixed_string, header_bytes, metadata_bytes, index_bytes,
  xtg_header_bytes, metadata_offset, index_offset, data_offset,
}

get_elem?-drop : (bs : Bytes) (p k : ℕ) → get_elem? bs (p + k) ≡ get_elem? (drop p bs) k
get_elem?-drop bs zero k = ap (get_elem? bs) (omega arith)
get_elem?-drop [] (suc p) k = refl
get_elem?-drop (b ∷ bs) (suc p) k =
    ap (get_elem? (b ∷ bs)) {y = suc (p + k)} (omega arith) ∙ get_elem?-drop bs p k

-- A read at `q`, which is `k` bytes after `p`.
module _ (bs : Bytes) (p : ℕ) where
  pub byte_at-drop : (k q : ℕ) → q ≡ p + k → byte_at bs q ≡ byte_at (drop p bs) k
  unfolding byte_at
  byte_at-drop k q e = rw (e, byte_at, get_elem?-drop bs p k) refl

  read_le16-drop : (k q : ℕ) → q ≡ p + k → read_le16 bs q ≡ read_le16 (drop p bs) k
  unfolding read_le16
  read_le16-drop k q e =
      rw (byte_at-drop k q e, byte_at-drop (k + 1) (q + 1) (omega (arith, e))) refl

  read_le32-drop : (k q : ℕ) → q ≡ p + k → read_le32 bs q ≡ read_le32 (drop p bs) k
  unfolding read_le32
  read_le32-drop k q e =
      rw
        (
          byte_at-drop k q e,
          byte_at-drop (k + 1) (q + 1) (omega (arith, e)),
          byte_at-drop (k + 2) (q + 2) (omega (arith, e)),
          byte_at-drop (k + 3) (q + 3) (omega (arith, e)),
        )
        refl

  read_le64-drop : (k q : ℕ) → q ≡ p + k → read_le64 bs q ≡ read_le64 (drop p bs) k
  unfolding read_le64
  read_le64-drop k q e =
      rw (read_le32-drop k q e, read_le32-drop (k + 4) (q + 4) (omega (arith, e))) refl

  pub parse_xtg_header-drop : parse_xtg_header bs p ≡ parse_xtg_header (drop p bs) 0
  unfolding parse_xtg_header
  parse_xtg_header-drop =
      rw
        (
          read_le32-drop 0 p (omega arith),
          read_le16-drop 4 (p + 4) refl,
          read_le16-drop 6 (p + 6) refl,
          byte_at-drop 8 (p + 8) refl,
          byte_at-drop 9 (p + 9) refl,
          read_le32-drop 10 (p + 10) refl,
        )
        refl

  pub parse_index_entry-drop : parse_index_entry bs p ≡ parse_index_entry (drop p bs) 0
  unfolding parse_index_entry
  parse_index_entry-drop =
      rw
        (
          read_le64-drop 0 p (omega arith),
          read_le32-drop 8 (p + 8) refl,
          read_le16-drop 12 (p + 12) refl,
          read_le16-drop 14 (p + 14) refl,
        )
        refl

le16 : (v : ℕ) → v < 2 ^ 16 → v % 256 + v / 2 ^ 8 % 256 * 2 ^ 8 ≡ v
le16 v h = omega arith

le32 :
    (v : ℕ)
    → v < 2 ^ 32
    → v % 256 + v / 2 ^ 8 % 256 * 2 ^ 8 + v / 2 ^ 16 % 256 * 2 ^ 16 + v / 2 ^ 24 % 256 * 2 ^ 24 ≡ v
le32 v h = omega arith

pub parse_xtg_header-written :
    (size width height : ℕ) (rest : Bytes)
    → size < 2 ^ 32
    → width < 2 ^ 16
    → height < 2 ^ 16
    → parse_xtg_header (xtg_header_bytes size width height ++ rest) 0
      ≡ ok record {
        mark = magic_xtg;
        width = width;
        height = height;
        color_mode = 0;
        compression = 0;
        data_size = size;
      }
unfolding parse_xtg_header read_le16 read_le32 byte_at xtg_header_bytes write_le16 write_le32
parse_xtg_header-written size width height rest hs hw hh =
    rw (le16 width hw, le16 height hh, le32 size hs) refl

pub parse_index_entry-written :
    (size width height : ℕ) (rest : Bytes)
    → size < 2 ^ 32
    → width < 2 ^ 16
    → height < 2 ^ 16
    → parse_index_entry (index_bytes size width height ++ rest) 0
      ≡ ok record { offset = data_offset; size = size; width = width; height = height }
unfolding parse_index_entry read_le16 read_le32 read_le64 byte_at index_bytes write_le16 write_le32
    write_le64
parse_index_entry-written size width height rest hs hw hh =
    rw (le16 width hw, le16 height hh, le32 size hs) refl

abbrev pub header : XtcHeader
header = record {
  mark = magic_xtc;
  version = 0x0100;
  page_count = 1;
  read_direction = 0;
  has_metadata = 1;
  has_thumbnails = 0;
  has_chapters = 0;
  current_page = 0;
  metadata_offset = metadata_offset;
  index_offset = index_offset;
  data_offset = data_offset;
  thumb_offset = 0;
  chapter_offset = 0;
}

pub parse_xtc_header-written :
    (rest : Bytes) → parse_xtc_header (header_bytes ++ rest) 0 ≡ ok header
unfolding parse_xtc_header read_le16 read_le32 read_le64 byte_at header_bytes write_le16 write_le32
    write_le64
parse_xtc_header-written rest = refl

length-pack_fixed_string :
    (size : ℕ) (value : Text) → 0 < size → length (pack_fixed_string size value) ≡ size
unfolding pack_fixed_string
length-pack_fixed_string size value h =
    let cut = take (size - 1) value in
    omega (
      arith,
      length-append cut (replicate (size - length cut) 0),
      length-take (size - 1) value,
      length-replicate {A = ℕ} (size - length cut) 0,
    )

pub length-metadata_bytes :
    (title : Text) (create_time : ℕ) → length (metadata_bytes title create_time) ≡ 256
unfolding metadata_bytes write_le16 write_le32 pack_fixed_string
length-metadata_bytes title create_time =
    length-append (pack_fixed_string 128 title) _
    ∙ ap (λ n. n + 128) (length-pack_fixed_string 128 title (omega arith))

pub length-header_bytes : length header_bytes ≡ 56
unfolding header_bytes write_le16 write_le32 write_le64
length-header_bytes = refl

pub length-index_bytes : (size width height : ℕ) → length (index_bytes size width height) ≡ 16
unfolding index_bytes write_le16 write_le32 write_le64
length-index_bytes size width height = refl

pub length-xtg_header_bytes :
    (size width height : ℕ) → length (xtg_header_bytes size width height) ≡ 22
unfolding xtg_header_bytes write_le16 write_le32
length-xtg_header_bytes size width height = refl
