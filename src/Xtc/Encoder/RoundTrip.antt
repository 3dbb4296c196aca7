-- ===== src/Xtc/Encoder/RoundTrip.antt =====
-- The decoder on what the encoder wrote.
use x4_printer.Prelude.{
  ℕ, ◌+◌, ◌*◌, ◌^◌, ◌≤◌, ◌<◌, ◌≡◌, ap, subst, ◌∙◌, true, Bool, List, ◌++◌, drop, drop-drop,
  drop-append, length, length-append, arith, some,
}
use x4_printer.Prelude.Text.{Text}
use x4_printer.Xtc.Access.{ok, Bytes}
use x4_printer.Xtc.Decoder.{
  row_bytes, flatten, decode_page, decode_header, decode_entry, decode_xtg,
}
use x4_printer.Xtc.Encoder.{
  Floats, encode_single_page, dither_rows, data_offset, header_bytes, metadata_bytes, index_bytes,
  xtg_header_bytes,
}
use x4_printer.Xtc.Encoder.Header.{
  parse_xtg_header-drop, parse_xtg_header-written, parse_index_entry-drop,
  parse_index_entry-written, parse_xtc_header-written, length-metadata_bytes, length-header_bytes,
  length-index_bytes, length-xtg_header_bytes,
}
use x4_printer.Xtc.Format.{XtgHeader, parse_index_entry, parse_xtg_header, magic_xtg}
use x4_printer.Xtc.Format.Ranges.{expected_xtg_data_size-exact}
use x4_printer.Xtc.Encoder.Rows.{IsExact}
use x4_printer.Xtc.Encoder.Unpack.{AreRows, zeros, unpack_rows-exact, length-dither_rows}

module _ (fl : Floats) (exact : IsExact fl) where
  module _ (rows : List (List ℕ)) (width : ℕ) (title : Text) (create_time : ℕ) where
    abbrev packed : Bytes
    packed = dither_rows fl width rows (zeros fl exact width)

    abbrev size : ℕ
    size = row_bytes width * length rows

    abbrev page : Bytes
    page = xtg_header_bytes size width (length rows) ++ packed

    abbrev index : Bytes
    index = index_bytes (22 + size) width (length rows) ++ page

    abbrev file : Bytes
    file = header_bytes ++ (metadata_bytes title create_time ++ index)

    drop-header : drop 56 file ≡ metadata_bytes title create_time ++ index
    drop-header = drop-append 56 header_bytes _ length-header_bytes

    drop-index : drop 312 file ≡ index
    drop-index =
        drop-drop 56 256 file
        ∙ ap (drop 256) drop-header
        ∙ drop-append 256 (metadata_bytes title create_time) index
            (length-metadata_bytes title create_time)

    drop-page : drop 328 file ≡ page
    drop-page =
        drop-drop 312 16 file
        ∙ ap (drop 16) drop-index
        ∙ drop-append 16 _ page (length-index_bytes _ _ _)

    drop-packed : drop 350 file ≡ packed
    drop-packed =
        drop-drop 328 22 file
        ∙ ap (drop 22) drop-page
        ∙ drop-append 22 _ packed (length-xtg_header_bytes _ _ _)

    length-file : AreRows width rows → length file ≡ 350 + size
    length-file h =
        length-append header_bytes _
        ∙ omega (
          arith,
          length-header_bytes,
          length-append (metadata_bytes title create_time) index,
          length-metadata_bytes title create_time,
          length-append (index_bytes (22 + size) width (length rows)) page,
          length-index_bytes (22 + size) width (length rows),
          length-append (xtg_header_bytes size width (length rows)) packed,
          length-xtg_header_bytes size width (length rows),
          length-dither_rows fl exact width rows h,
        )

    module _ (malloc : ℕ → Bool) (h : AreRows width rows) (hw : width < 2 ^ 16)
        (hh : length rows < 2 ^ 16) where
      bounded : size < 2 ^ 30
      bounded =
          let narrow : row_bytes width ≤ 8192 = omega (arith, hw) in
          let product : size ≤ 8192 * length rows = grind arith in omega arith

      entry :
          parse_index_entry file 312
          ≡ ok
              record { offset = data_offset; size = 22 + size; width = width; height = length rows }
      entry =
          parse_index_entry-drop file 312
          ∙ ap (λ t. parse_index_entry t 0) drop-index
          ∙ parse_index_entry-written (22 + size) width (length rows) page (omega (arith, bounded))
              hw hh

      abbrev xtg : XtgHeader
      xtg = record {
        mark = magic_xtg;
        width = width;
        height = length rows;
        color_mode = 0;
        compression = 0;
        data_size = size;
      }

      page_header : parse_xtg_header file 328 ≡ ok xtg
      page_header =
          parse_xtg_header-drop file 328
          ∙ ap (λ t. parse_xtg_header t 0) drop-page
          ∙ parse_xtg_header-written size width (length rows) packed (omega (arith, bounded)) hw hh

      decode_xtg-file :
          0 < width
          → 0 < length rows
          → malloc (width * length rows) ≡ true
          → decode_xtg malloc file 328 xtg
            ≡ ok record { width = width; height = length rows; pixels = flatten rows }
      unfolding decode_xtg
      decode_xtg-file pw ph room = ground (
        arith,
        length-file h,
        bounded,
        expected_xtg_data_size-exact width (length rows) hw hh,
        room,
        unpack_rows-exact fl exact file 350 width rows h drop-packed,
      )

      decode_page-file :
          0 < width
          → 0 < length rows
          → malloc (width * length rows) ≡ true
          → decode_page malloc (some file) 0
            ≡ ok record { width = width; height = length rows; pixels = flatten rows }
      unfolding decode_page decode_header decode_entry
      decode_page-file pw ph room =
          let read = parse_xtc_header-written (metadata_bytes title create_time ++ index) in
          ground (arith, length-file h, read, entry, page_header, decode_xtg-file pw ph room)

-- A page of at most 65,535 by 65,535 pixels that are all black or white, encoded and decoded again, is
-- the same page: the dithering changes no pixel and the decoder accepts the file. Needed is that the
-- `float` operations are exact on the two shades, that no row has another length than the width, and
-- that both programs get the memory that they ask for.
pub decode_page-encode_single_page :
    (fl : Floats) (exact : IsExact fl) (malloc : ℕ → Bool) (rows : List (List ℕ)) (width : ℕ)
    (title : Text) (create_time : ℕ)
    → AreRows width rows
    → 0 < width
    → width < 2 ^ 16
    → 0 < length rows
    → length rows < 2 ^ 16
    → malloc (350 + row_bytes width * length rows) ≡ true
    → malloc (width * length rows) ≡ true
    → decode_page malloc (encode_single_page fl malloc rows width (length rows) title create_time) 0
      ≡ ok record { width = width; height = length rows; pixels = flatten rows }
unfolding encode_single_page
decode_page-encode_single_page fl exact malloc rows width title create_time h pw hw ph hh big
      small =
    let room : malloc (328 + (22 + row_bytes width * length rows)) ≡ true =
      subst (λ k. malloc k ≡ true) (omega arith) big in
    let written : encode_single_page fl malloc rows width (length rows) title create_time
        ≡ some (file fl exact rows width title create_time) =
      ground (arith, room) in
    ap (λ f. decode_page malloc f 0) written
    ∙ decode_page-file fl exact rows width title create_time malloc h hw hh pw ph small
