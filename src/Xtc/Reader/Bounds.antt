-- ===== src/Xtc/Reader/Bounds.antt =====
-- Drawing a page writes only inside the framebuffer.
use x4_printer.Prelude.{
  length-replicate, ℕ, zero, suc, ◌+◌, ◌*◌, ◌/◌, ◌%◌, ◌^◌, ◌≤◌, ◌<◌, ◌≡◌, refl, ◌⊎◌, inl, inr, Bool,
  true, false, ◌&&◌, Option, none, some, ltb, leb, ◌==◌, length, replicate, arith, Bool-cases,
  Option-cases,
}
use x4_printer.Prelude.Int.{ℤ, pos, negsuc, ◌+ℤ◌}
use x4_printer.Xtc.Access.{Access, reject, ok, ◌>>=◌, Bytes}
use x4_printer.Xtc.Format.{
  XtgHeader, XtcPageIndexEntry, parse_index_entry, parse_xtg_header, expected_xtg_data_size,
  index_entry_size, xtg_header_size, is_monochrome,
}
use x4_printer.Xtc.Format.Ranges.{parse_index_entry-ok, parse_xtg_header-cases}
use x4_printer.Xtc.Decoder.{row_bytes}
use x4_printer.Xtc.Reader.Writes.{
  IsFile, Draws, write_at-Keeps, Draws-bind, rows_fit, bulk_loop-Draws, copy_row-Keeps,
}
use x4_printer.Xtc.Reader.{
  File, RenderResult, XtcReader, parsed, get_page_info, write_at, Placing, copied_row, placed_row,
  row_at, row_step, row_loop, draw_page, draw_xtg, draw_entry, render_page_to_framebuffer,
  max_row_bytes, placing,
}

page_fits :
    (xtg : XtgHeader) (w h n : ℕ)
    → (xtg.data_size == expected_xtg_data_size xtg.width xtg.height) ≡ true
    → (xtg.width == w && xtg.height == h) ≡ true
    → row_bytes w * h ≤ n
    → 0 + xtg.data_size ≤ n
unfolding expected_xtg_data_size
page_fits xtg w h n sized exact room =
    let same_width : xtg.width ≡ w = ground (arith, exact) in
    let same_height : xtg.height ≡ h = ground (arith, exact) in
    let size : xtg.data_size ≡ (xtg.width + 7) / 8 * xtg.height % 2 ^ 32 = ground (arith, sized) in
    let bound : (xtg.width + 7) / 8 * xtg.height ≤ n = rw (same_width, same_height) room in
    omega (arith, size, bound)

parsed_xtg :
    (file : File) (at : ℕ)
    → IsFile file
    → let m = parsed parse_xtg_header (file at xtg_header_size) in
      (m ≡ reject) ⊎ ((xtg : XtgHeader) × (m ≡ ok xtg))
parsed_xtg file at f = elim (Option-cases (file at xtg_header_size)) [
  | inl failed ↦ rw failed (inl refl)
  | inr (bs, got) ↦
      rw got
        (elim (parse_xtg_header-cases bs (f.bytes at xtg_header_size bs got) 0
          (omega (arith, f.whole at xtg_header_size bs got))) [
            | inl bad ↦ inl bad
            | inr (xtg, good, hw, hh, hs) ↦ inr (xtg, good)
          ])
]

parsed_entry :
    (file : File) (at : ℕ)
    → IsFile file
    → let m = parsed parse_index_entry (file at index_entry_size) in
      (m ≡ reject) ⊎ ((e : XtcPageIndexEntry) × (m ≡ ok e))
parsed_entry file at f = elim (Option-cases (file at index_entry_size)) [
  | inl failed ↦ rw failed (inl refl)
  | inr (bs, got) ↦ rw got (
      let (e, good, small) =
        parse_index_entry-ok bs (f.bytes at index_entry_size bs got) 0
          (omega (arith, f.whole at index_entry_size bs got)) in
      inr (e, good))
]

page_info :
    (r : XtcReader) (page : ℕ)
    → IsFile r.file
    → (get_page_info (some r) page ≡ reject)
      ⊎ ((e : XtcPageIndexEntry) × (get_page_info (some r) page ≡ ok e))
unfolding get_page_info
page_info r page f = elim (Bool-cases (leb r.header.page_count page)) [
  | inl past ↦ rw past (inl refl)
  | inr there ↦ rw there (parsed_entry r.file _ f)
]

module _ (n : ℕ) where
  copied_row-Draws :
      (p : Placing) (y : ℕ) (o : Option Bytes) (buffer : Bytes)
      (next : Bytes → Access (RenderResult × Bytes))
      → length buffer ≡ n
      → y < p.panel_height
      → p.panel_row_bytes * p.panel_height ≤ n
      → ((bs : Bytes) → length bs ≡ n → Draws n (next bs))
      → Draws n (copied_row p y o buffer next)
  copied_row-Draws p y none buffer next same on room k = same
  copied_row-Draws p y (some row) buffer next same on room k =
      Draws-bind n _ next
        (copy_row-Keeps n p.x_offset p.panel_row_bytes row (y * p.panel_row_bytes) buffer same
          (omega (arith, rows_fit y p.panel_height p.panel_row_bytes on, room)))
        k

  placed_row-Draws :
      (p : Placing) (y : ℕ) (o : Option Bytes) (buffer : Bytes)
      (next : Bytes → Access (RenderResult × Bytes))
      → length buffer ≡ n
      → y < p.panel_height
      → p.panel_row_bytes * p.panel_height ≤ n
      → ltb max_row_bytes p.src_row_bytes ≡ false
      → ((bs : Bytes) → length bs ≡ n → Draws n (next bs))
      → Draws n (placed_row p y o buffer next)
  placed_row-Draws p y o buffer next same on room narrow k =
      rw narrow (copied_row-Draws p y o buffer next same on room k)

  row_at-Draws :
      (past : Bool) (p : Placing) (y : ℕ) (o : Option Bytes) (buffer : Bytes)
      (next : Bytes → Access (RenderResult × Bytes))
      → leb p.panel_height y ≡ past
      → length buffer ≡ n
      → p.panel_row_bytes * p.panel_height ≤ n
      → ltb max_row_bytes p.src_row_bytes ≡ false
      → ((bs : Bytes) → length bs ≡ n → Draws n (next bs))
      → Draws n (row_at past p y o buffer next)
  row_at-Draws true p y o buffer next off same room narrow k = k buffer same
  row_at-Draws false p y o buffer next on same room narrow k =
      placed_row-Draws p y o buffer next same (ground (arith, on)) room narrow k

  row_step-Draws :
      (p : Placing) (y : ℤ) (o : Option Bytes) (buffer : Bytes)
      (next : Bytes → Access (RenderResult × Bytes))
      → length buffer ≡ n
      → p.panel_row_bytes * p.panel_height ≤ n
      → ltb max_row_bytes p.src_row_bytes ≡ false
      → ((bs : Bytes) → length bs ≡ n → Draws n (next bs))
      → Draws n (row_step p y o buffer next)
  row_step-Draws p (negsuc m) o buffer next same room narrow k = k buffer same
  row_step-Draws p (pos y) o buffer next same room narrow k =
      row_at-Draws (leb p.panel_height y) p y o buffer next refl same room narrow k

  row_loop-Draws :
      (p : Placing) (left src_y : ℕ) (buffer : Bytes)
      → length buffer ≡ n
      → p.panel_row_bytes * p.panel_height ≤ n
      → ltb max_row_bytes p.src_row_bytes ≡ false
      → Draws n (row_loop p left src_y buffer)
  unfolding row_loop
  row_loop-Draws p zero src_y buffer same room narrow = same
  row_loop-Draws p (suc left) src_y buffer same room narrow =
      row_step-Draws p (p.y_offset +ℤ pos src_y) _ buffer (row_loop p left (src_y + 1)) same room
        narrow (λ bs same'. row_loop-Draws p left (src_y + 1) bs same' room narrow)

  white_rows-Draws :
      (file : File) (data_offset : ℕ) (xtg : XtgHeader) (buffer : Bytes) (w h : ℕ)
      → length buffer ≡ n
      → row_bytes w * h ≤ n
      → ltb max_row_bytes (row_bytes xtg.width) ≡ false
      → Draws n (
          write_at buffer 0 (replicate (row_bytes w * h) 0xFF)
          >>= row_loop (placing file data_offset xtg w h) xtg.height 0)
  white_rows-Draws file data_offset xtg buffer w h same room narrow =
      Draws-bind n _ (row_loop (placing file data_offset xtg w h) xtg.height 0)
        (write_at-Keeps n buffer 0 (replicate (row_bytes w * h) 0xFF) same
          (omega (arith, length-replicate {A = ℕ} (row_bytes w * h) 0xFF, room)))
        (λ bs same'.
          row_loop-Draws (placing file data_offset xtg w h) xtg.height 0 bs same' room narrow)

  draw_page-Draws :
      (file : File) (data_offset : ℕ) (xtg : XtgHeader) (buffer : Bytes) (w h : ℕ)
      → IsFile file
      → (xtg.data_size == expected_xtg_data_size xtg.width xtg.height) ≡ true
      → length buffer ≡ n
      → Draws n (draw_page file data_offset xtg buffer w h)
  unfolding draw_page
  draw_page-Draws file data_offset xtg buffer w h f sized same =
      let required = row_bytes w * h in
      elim (Bool-cases (ltb (length buffer) required)) [
        | inl short ↦ rw short same
        | inr long ↦ rw long (elim (Bool-cases (xtg.width == w && xtg.height == h)) [
          | inl exact ↦ rw exact (
              bulk_loop-Draws n file xtg.data_size xtg.data_size 0 data_offset buffer f same
                (omega arith) (page_fits xtg w h n sized exact (ground (arith, long, same))))
          | inr other ↦ rw other (elim (Bool-cases (ltb max_row_bytes (row_bytes xtg.width))) [
            | inl wide ↦ rw wide same
            | inr narrow ↦ rw narrow (
                white_rows-Draws file data_offset xtg buffer w h same (ground (arith, long, same))
                  narrow)
          ])
        ])
      ]

  draw_xtg-Draws :
      (file : File) (data_offset : ℕ) (m : Access XtgHeader) (buffer : Bytes) (w h : ℕ)
      → IsFile file
      → (m ≡ reject) ⊎ ((xtg : XtgHeader) × (m ≡ ok xtg))
      → length buffer ≡ n
      → Draws n (draw_xtg file data_offset m buffer w h)
  unfolding draw_xtg
  draw_xtg-Draws file data_offset m buffer w h f (inl bad) same = rw bad same
  draw_xtg-Draws file data_offset m buffer w h f (inr (xtg, good)) same =
      rw good (elim (Bool-cases (is_monochrome xtg)) [
        | inr grey ↦ rw grey same
        | inl mono ↦
            rw mono
              (elim (Bool-cases (xtg.data_size == expected_xtg_data_size xtg.width xtg.height)) [
                | inr odd ↦ rw odd same
                | inl sized ↦
                    rw sized (draw_page-Draws file data_offset xtg buffer w h f sized same)
              ])
      ])

  draw_entry-Draws :
      (file : File) (m : Access XtcPageIndexEntry) (buffer : Bytes) (w h : ℕ)
      → IsFile file
      → (m ≡ reject) ⊎ ((e : XtcPageIndexEntry) × (m ≡ ok e))
      → length buffer ≡ n
      → Draws n (draw_entry file m buffer w h)
  unfolding draw_entry
  draw_entry-Draws file m buffer w h f (inl bad) same = rw bad same
  draw_entry-Draws file m buffer w h f (inr (e, good)) same =
      rw good (draw_xtg-Draws file _ _ buffer w h f (parsed_xtg file e.offset f) same)

-- For an open or a closed reader on any file whose reads give as many bytes as asked for, any page, any
-- framebuffer and any panel size, drawing a page ends with a result, writes only inside the framebuffer
-- and inside the row buffer of 128 bytes, and leaves the framebuffer's length as it was.
pub render_page_to_framebuffer-Draws :
    (r : Option XtcReader) (page : ℕ) (buffer : Bytes) (w h : ℕ)
    → ((open' : XtcReader) → r ≡ some open' → IsFile open'.file)
    → Draws (length buffer) (render_page_to_framebuffer r page buffer w h)
unfolding render_page_to_framebuffer
render_page_to_framebuffer-Draws none page buffer w h files = refl
render_page_to_framebuffer-Draws (some r) page buffer w h files =
    draw_entry-Draws (length buffer) r.file (get_page_info (some r) page) buffer w h (files r refl)
      (page_info r page (files r refl)) refl
