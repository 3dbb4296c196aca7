-- ===== src/Xtc/Decoder/Safety.antt =====
-- The decoder reads inside its buffer, if no offset of the file makes a `uint64_t` sum wrap.
use x4_printer.Prelude.{
  ℕ, zero, suc, ◌+◌, ◌*◌, ◌/◌, ◌≤◌, ◌<◌, ◌^◌, ◌≡◌, Bool, some, leb, length, arith, inl, inr, ◌==◌,
  Bool-cases,
}
use x4_printer.Xtc.Access.{ok, Bytes, AreBytes, byte_at-ok, IsSafe, IsSafe-bind}
use x4_printer.Xtc.Format.{
  XtcHeader, XtcPageIndexEntry, XtgHeader, parse_xtc_header, parse_index_entry,
  expected_xtg_data_size,
}
use x4_printer.Xtc.Format.Ranges.{
  parse_index_entry-ok, parse_xtc_header-cases, parse_xtg_header-cases,
  expected_xtg_data_size-exact,
}
use x4_printer.Xtc.Decoder.{
  row_bytes, add64, unpack_row, unpack_rows, decode_xtg, decode_entry, decode_header, decode_page,
  entry_offset,
}

module _ (bs : Bytes) (valid : AreBytes bs) where
  unpack_row-IsSafe :
      (left src x width : ℕ)
      → x + left ≤ width
      → src + row_bytes width ≤ length bs
      → IsSafe (unpack_row bs src x left)
  unfolding unpack_row
  unpack_row-IsSafe zero src x width h fits = tt
  unpack_row-IsSafe (suc left) src x width h fits =
      let (b, read, small) = byte_at-ok bs (src + x / 8) valid (omega arith) in
      rw read (
        IsSafe-bind (unpack_row bs src (x + 1) left) _
          (unpack_row-IsSafe left src (x + 1) width (omega arith) fits) (λ rest got. tt))

  unpack_rows-IsSafe :
      (left src width : ℕ)
      → src + left * row_bytes width ≤ length bs
      → IsSafe (unpack_rows bs src width left)
  unfolding unpack_rows
  unpack_rows-IsSafe zero src width fits = tt
  unpack_rows-IsSafe (suc left) src width fits =
      IsSafe-bind (unpack_row bs src 0 width) _
        (unpack_row-IsSafe width src 0 width (omega arith) (grind arith))
        (λ row got.
          IsSafe-bind (unpack_rows bs (src + row_bytes width) width left) _
            (unpack_rows-IsSafe left (src + row_bytes width) width (grind arith)) (λ rest got'. tt))

  module _ (malloc : ℕ → Bool) where
    decode_xtg-IsSafe :
        (offset : ℕ) (xtg : XtgHeader)
        → offset < 2 ^ 63
        → xtg.width < 2 ^ 16
        → xtg.height < 2 ^ 16
        → xtg.data_size < 2 ^ 32
        → IsSafe (decode_xtg malloc bs offset xtg)
    unfolding decode_xtg
    decode_xtg-IsSafe offset xtg small hw hh hs =
        elim (Bool-cases (xtg.data_size == expected_xtg_data_size xtg.width xtg.height)) [
          | inl sized ↦
              elim (Bool-cases (leb (add64 (add64 offset 22) xtg.data_size) (length bs))) [
                | inl fits ↦
                    let rows =
                      unpack_rows-IsSafe xtg.height (add64 offset 22) xtg.width
                        (ground (arith, expected_xtg_data_size-exact xtg.width xtg.height)) in
                    ground (arith, rows)
                | inr cut ↦ ground arith
              ]
          | inr other ↦ ground arith
        ]

    decode_entry-IsSafe :
        (entry : XtcPageIndexEntry) → entry.offset < 2 ^ 63 → IsSafe (decode_entry malloc bs entry)
    unfolding decode_entry
    decode_entry-IsSafe entry small = elim (Bool-cases (leb (add64 entry.offset 22) (length bs))) [
      | inl fits ↦ rw fits (elim (parse_xtg_header-cases bs valid entry.offset (ground arith)) [
        | inl bad ↦ rw bad tt
        | inr (xtg, read, hw, hh, hs) ↦ rw read (decode_xtg-IsSafe entry.offset xtg small hw hh hs)
      ])
      | inr cut ↦ rw cut tt
    ]

    decode_header-IsSafe :
        (page_index : ℕ) (header : XtcHeader)
        → page_index < 2 ^ 16
        → header.index_offset < 2 ^ 63
        → ((entry : XtcPageIndexEntry)
            → parse_index_entry bs (entry_offset header page_index) ≡ ok entry
            → entry.offset < 2 ^ 63)
        → IsSafe (decode_header malloc bs page_index header)
    unfolding decode_header
    decode_header-IsSafe page_index header hp small entries =
        elim (Bool-cases (leb (add64 (entry_offset header page_index) 16) (length bs))) [
          | inl fits ↦
              let (entry, read, bound) =
                parse_index_entry-ok bs valid (entry_offset header page_index) (ground arith) in
              rw (fits, read) (ground (arith, decode_entry-IsSafe entry (entries entry read)))
          | inr cut ↦ rw cut (ground arith)
        ]

    -- `xtc_decode_page` on bytes, for a page number of 16 bits: if the file's index offset and the
    -- page's offset are below 2^63, no read leaves the buffer, whatever else the file holds.
    pub decode_page-IsSafe :
        (page_index : ℕ)
        → page_index < 2 ^ 16
        → ((header : XtcHeader) → parse_xtc_header bs 0 ≡ ok header → header.index_offset < 2 ^ 63)
        → ((header : XtcHeader) (entry : XtcPageIndexEntry)
            → parse_xtc_header bs 0 ≡ ok header
            → parse_index_entry bs (entry_offset header page_index) ≡ ok entry
            → entry.offset < 2 ^ 63)
        → IsSafe (decode_page malloc (some bs) page_index)
    unfolding decode_page
    decode_page-IsSafe page_index hp headers entries = elim (Bool-cases (leb 56 (length bs))) [
      | inl long ↦ rw long (elim (parse_xtc_header-cases bs valid 0 (ground arith)) [
        | inl bad ↦ rw bad tt
        | inr (header, read, hc, hi) ↦ rw read (
            decode_header-IsSafe page_index header hp (headers header read)
              (λ entry found. entries header entry read found))
      ])
      | inr short ↦ rw short tt
    ]
