-- ===== src/Xtc/Format/Ranges.antt =====
-- Reads that stay inside the buffer succeed, and what they give fits its type.
use x4_printer.Prelude.{
  ℕ, ◌+◌, ◌*◌, ◌/◌, ◌≤◌, ◌<◌, ◌^◌, ◌≡◌, ◌⊎◌, inl, inr, Bool-cases, length, arith, ◌||◌, ◌==◌,
}
use x4_printer.Xtc.Access.{ok, reject, Bytes, AreBytes, byte_at-ok}
use x4_printer.Xtc.Format.{
  read_le16, read_le32, read_le64, parse_xtc_header, parse_index_entry, parse_xtg_header, XtcHeader,
  XtcPageIndexEntry, XtgHeader, magic_xtg, magic_xth, magic_xtc, magic_xtch, expected_xtg_data_size,
}

module _ (bs : Bytes) (valid : AreBytes bs) where
  pub read_le16-ok : (p : ℕ) → p + 2 ≤ length bs → (v : ℕ) × (read_le16 bs p ≡ ok v) × (v < 2 ^ 16)
  unfolding read_le16
  read_le16-ok p h =
      let (a, ra, la) = byte_at-ok bs p valid (omega arith) in
      let (b, rb, lb) = byte_at-ok bs (p + 1) valid (omega arith) in
      (a + b * 2 ^ 8, rw (ra, rb), omega arith)

  pub read_le32-ok : (p : ℕ) → p + 4 ≤ length bs → (v : ℕ) × (read_le32 bs p ≡ ok v) × (v < 2 ^ 32)
  unfolding read_le32
  read_le32-ok p h =
      let (a, ra, la) = byte_at-ok bs p valid (omega arith) in
      let (b, rb, lb) = byte_at-ok bs (p + 1) valid (omega arith) in
      let (c, rc, lc) = byte_at-ok bs (p + 2) valid (omega arith) in
      let (d, rd, ld) = byte_at-ok bs (p + 3) valid (omega arith) in
      (a + b * 2 ^ 8 + c * 2 ^ 16 + d * 2 ^ 24, rw (ra, rb, rc, rd), omega arith)

  pub read_le64-ok : (p : ℕ) → p + 8 ≤ length bs → (v : ℕ) × (read_le64 bs p ≡ ok v) × (v < 2 ^ 64)
  unfolding read_le64
  read_le64-ok p h =
      let (lo, rlo, llo) = read_le32-ok p (omega arith) in
      let (hi, rhi, lhi) = read_le32-ok (p + 4) (omega arith) in
      (lo + hi * 2 ^ 32, rw (rlo, rhi), omega arith)

  pub parse_index_entry-ok :
      (p : ℕ)
      → p + 16 ≤ length bs
      → (e : XtcPageIndexEntry) × (parse_index_entry bs p ≡ ok e) × (e.offset < 2 ^ 64)
  unfolding parse_index_entry
  parse_index_entry-ok p h =
      let (a, ra, la) = read_le64-ok p (omega arith) in
      let (b, rb, lb) = read_le32-ok (p + 0x08) (omega arith) in
      let (c, rc, lc) = read_le16-ok (p + 0x0C) (omega arith) in
      let (d, rd, ld) = read_le16-ok (p + 0x0E) (omega arith) in
      (record { offset = a; size = b; width = c; height = d }, rw (ra, rb, rc, rd), la)

  -- A header inside the buffer is rejected by its mark or read whole.
  pub parse_xtc_header-cases :
      (p : ℕ)
      → p + 56 ≤ length bs
      → (parse_xtc_header bs p ≡ reject)
        ⊎ ((h : XtcHeader) × (parse_xtc_header bs p ≡ ok h)
            × (h.page_count < 2 ^ 16)
            × (h.index_offset < 2 ^ 64))
  unfolding parse_xtc_header
  parse_xtc_header-cases p h =
      let (mark, r0, l0) = read_le32-ok p (omega arith) in
      let (version, r1, l1) = read_le16-ok (p + 0x04) (omega arith) in
      let (pages, r2, l2) = read_le16-ok (p + 0x06) (omega arith) in
      let (b8, r3, l3) = byte_at-ok bs (p + 0x08) valid (omega arith) in
      let (b9, r4, l4) = byte_at-ok bs (p + 0x09) valid (omega arith) in
      let (ba, r5, l5) = byte_at-ok bs (p + 0x0A) valid (omega arith) in
      let (bb, r6, l6) = byte_at-ok bs (p + 0x0B) valid (omega arith) in
      let (current, r7, l7) = read_le32-ok (p + 0x0C) (omega arith) in
      let (q0, s0, m0) = read_le64-ok (p + 0x10) (omega arith) in
      let (q1, s1, m1) = read_le64-ok (p + 0x18) (omega arith) in
      let (q2, s2, m2) = read_le64-ok (p + 0x20) (omega arith) in
      let (q3, s3, m3) = read_le64-ok (p + 0x28) (omega arith) in
      let (q4, s4, m4) = read_le64-ok (p + 0x30) (omega arith) in
      elim (Bool-cases (mark == magic_xtc || mark == magic_xtch)) [
        | inl known ↦ inr (
          record {
            mark = mark;
            version = version;
            page_count = pages;
            read_direction = b8;
            has_metadata = b9;
            has_thumbnails = ba;
            has_chapters = bb;
            current_page = current;
            metadata_offset = q0;
            index_offset = q1;
            data_offset = q2;
            thumb_offset = q3;
            chapter_offset = q4;
          },
          rw (r0, known, r1, r2, r3, r4, r5, r6, r7, s0, s1, s2, s3, s4),
          l2,
          m1,
        )
        | inr unknown ↦ inl (rw (r0, unknown))
      ]

  pub parse_xtg_header-cases :
      (p : ℕ)
      → p + 22 ≤ length bs
      → (parse_xtg_header bs p ≡ reject)
        ⊎ ((h : XtgHeader) × (parse_xtg_header bs p ≡ ok h)
            × (h.width < 2 ^ 16)
            × (h.height < 2 ^ 16)
            × (h.data_size < 2 ^ 32))
  unfolding parse_xtg_header
  parse_xtg_header-cases p h =
      let (mark, r0, l0) = read_le32-ok p (omega arith) in
      let (width, r1, l1) = read_le16-ok (p + 0x04) (omega arith) in
      let (height, r2, l2) = read_le16-ok (p + 0x06) (omega arith) in
      let (mode, r3, l3) = byte_at-ok bs (p + 0x08) valid (omega arith) in
      let (comp, r4, l4) = byte_at-ok bs (p + 0x09) valid (omega arith) in
      let (size, r5, l5) = read_le32-ok (p + 0x0A) (omega arith) in
      elim (Bool-cases (mark == magic_xtg || mark == magic_xth)) [
        | inl known ↦ inr (
          record {
            mark = mark;
            width = width;
            height = height;
            color_mode = mode;
            compression = comp;
            data_size = size;
          },
          rw (r0, known, r1, r2, r3, r4, r5),
          l1,
          l2,
          l5,
        )
        | inr unknown ↦ inl (rw (r0, unknown))
      ]

-- `expectedXtgDataSize` does not wrap: it is the bytes of a row times the rows.
pub expected_xtg_data_size-exact :
    (width height : ℕ)
    → width < 2 ^ 16
    → height < 2 ^ 16
    → expected_xtg_data_size width height ≡ (width + 7) / 8 * height
unfolding expected_xtg_data_size
expected_xtg_data_size-exact width height hw hh =
    let rows : (width + 7) / 8 ≤ 8192 = omega arith in
    let product : (width + 7) / 8 * height ≤ 8192 * height = grind arith in omega arith
