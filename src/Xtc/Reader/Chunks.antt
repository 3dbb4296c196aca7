-- ===== src/Xtc/Reader/Chunks.antt =====
-- The bulk copy of a page, chunk by chunk, is one read of it.
use x4_printer.Prelude.{
  ℕ, zero, suc, ◌+◌, ◌-◌, ◌^◌, ◌*◌, ◌==◌, ◌&&◌, ltb, true, false, ◌≤◌, ◌<◌, ◌≡◌, refl, sym, ap, ◌∙◌,
  some, [], ◌∷◌, ◌++◌, append_assoc, length, take, drop, take-append, drop-append, length-append,
  length-take, arith,
}
use x4_printer.Xtc.Format.{XtgHeader}
use x4_printer.Xtc.Access.{Access, ok, Bytes}
use x4_printer.Xtc.Decoder.{add64, row_bytes}
use x4_printer.Xtc.Reader.{
  File, RenderResult, done, write_at, after_read, bulk_loop, chunk_of, draw_page,
}
use x4_printer.Xtc.Reader.Writes.{IsFile, length-drop, write_at-ok}

-- A read that succeeds also succeeds in two parts.
pub record IsSeekable (file : File) : Type 0 where
  pub front :
      (offset n m : ℕ) (bs : Bytes)
      → file offset (n + m) ≡ some bs
      → file offset n ≡ some (take n bs)
  pub back :
      (offset n m : ℕ) (bs : Bytes)
      → file offset (n + m) ≡ some bs
      → file (offset + n) m ≡ some (drop n bs)

take-drop : (n : ℕ) (xs : Bytes) → take n xs ++ drop n xs ≡ xs
take-drop zero xs = refl
take-drop (suc n) [] = refl
take-drop (suc n) (x ∷ xs) = ap (λ t. x ∷ t) (take-drop n xs)

-- A write replaces the bytes that it covers.
write_at-append :
    (before old bs after : Bytes) (at : ℕ)
    → length before ≡ at
    → length old ≡ length bs
    → write_at (before ++ (old ++ after)) at bs ≡ ok (before ++ (bs ++ after))
write_at-append before old bs after at h k =
    write_at-ok (before ++ (old ++ after)) at bs
      (omega (arith, length-append before (old ++ after), length-append old after, h, k))
    ∙ ap ok (
        rw
          (
            take-append at before (old ++ after) h,
            ← append_assoc before old after,
            drop-append (at + length bs) (before ++ old) after
                (omega (arith, length-append before old, h, k)),
          )
          refl)

chunk_small : (n : ℕ) → (1 ≤ n → 1 ≤ chunk_of n) × (chunk_of n ≤ n)
chunk_small n = (λ h. ground arith, ground arith)

empty : (xs : Bytes) → length xs ≡ 0 → xs ≡ []
empty [] h = refl
empty (x ∷ xs) h = absurd (omega (arith, h))

regroup :
    (before bs after : Bytes) (n : ℕ)
    → (before ++ take n bs) ++ (drop n bs ++ after) ≡ before ++ (bs ++ after)
regroup before bs after n =
    append_assoc before (take n bs) (drop n bs ++ after)
    ∙ ap (λ t. before ++ t)
        (sym (append_assoc (take n bs) (drop n bs) after) ∙ ap (λ t. t ++ after) (take-drop n bs))

no_wrap : (offset n : ℕ) → offset + n < 2 ^ 64 → add64 offset n ≡ offset + n
no_wrap offset n h = omega (arith, h)

module _ (file : File) (f : IsFile file) (g : IsSeekable file) where
  -- One chunk of `n` bytes, with `m` to follow.
  bulk_step :
      (next : Bytes → Access (RenderResult × Bytes)) (n m at offset : ℕ)
      (before old after bs : Bytes)
      → length before ≡ at
      → length old ≡ n + m
      → file offset (n + m) ≡ some bs
      → after_read n (file offset n) (before ++ (old ++ after)) at next
        ≡ next ((before ++ take n bs) ++ (drop n old ++ after))
  bulk_step next n m at offset before old after bs hb ho got =
      rw
        (
          has_room,
          g.front offset n m bs got,
          ← regroup before old after n,
          append_assoc before (take n old) (drop n old ++ after),
          write_at-append before (take n old) (take n bs) (drop n old ++ after) at hb lengths,
          append_assoc before (take n bs) (drop n old ++ after),
        )
        refl
    where
      has_room : ltb (length (before ++ (old ++ after))) (at + n) ≡ false
      has_room =
          ground (arith, length-append before (old ++ after), length-append old after, hb, ho)

      lengths : length (take n old) ≡ length (take n bs)
      lengths =
          omega (arith, length-take n old, length-take n bs, f.whole offset (n + m) bs got, ho)

  bulk_loop-whole :
      (fuel remaining at offset : ℕ) (before old after bs : Bytes)
      → remaining ≤ fuel
      → length before ≡ at
      → length old ≡ remaining
      → offset + remaining < 2 ^ 64
      → file offset remaining ≡ some bs
      → bulk_loop file fuel remaining at offset (before ++ (old ++ after))
        ≡ ok (done, before ++ (bs ++ after))
  unfolding bulk_loop
  bulk_loop-whole fuel zero at offset before old after bs enough hb ho small got =
      rw (empty old ho, empty bs (f.whole offset 0 bs got)) (nothing fuel)
    where
      nothing :
          (k : ℕ) → bulk_loop file k zero at offset (before ++ after) ≡ ok (done, before ++ after)
      nothing zero = refl
      nothing (suc k) = refl
  bulk_loop-whole zero (suc m) at offset before old after bs enough hb ho small got =
      absurd (omega (arith, enough))
  bulk_loop-whole (suc fuel) (suc m) at offset before old after bs enough hb ho small got =
      let c = chunk_of (suc m) in
      let whole : c + (suc m - c) ≡ suc m = omega (arith, (chunk_small (suc m)).1) in
      let got' : file offset (c + (suc m - c)) ≡ some bs = rw whole got in
      bulk_step (bulk_loop file fuel (suc m - c) (at + c) (add64 offset c)) c (suc m - c) at offset
        before old after bs hb (ho ∙ sym whole) got'
      ∙ ap
          (λ o.
            bulk_loop file fuel (suc m - c) (at + c) o
              ((before ++ take c bs) ++ (drop c old ++ after)))
          (no_wrap offset c (omega (arith, small, whole)))
      ∙ bulk_loop-whole fuel (suc m - c) (at + c) (offset + c) (before ++ take c bs) (drop c old)
          after (drop c bs) (omega (arith, enough, (chunk_small (suc m)).0))
          (omega (
            arith,
            length-append before (take c bs),
            length-take c bs,
            f.whole offset (suc m) bs got,
            hb,
            whole,
          ))
          (omega (arith, length-drop c old, ho)) (omega (arith, small, whole))
          (g.back offset c (suc m - c) bs got')
      ∙ ap (λ t. ok (done, t)) (regroup before bs after c)

-- A page as large as the panel, whose size is that of its bitmap: if one read of all its data gives
-- `bs`, then the copy in chunks succeeds and the framebuffer starts with exactly these bytes, the rest
-- of it as it was. The file gives the bytes asked for, also in two parts, and the page ends below 2^64.
pub draw_page-whole :
    (file : File) (data_offset : ℕ) (xtg : XtgHeader) (old after bs : Bytes)
    → IsFile file
    → IsSeekable file
    → xtg.data_size ≡ row_bytes xtg.width * xtg.height
    → length old ≡ xtg.data_size
    → data_offset + xtg.data_size < 2 ^ 64
    → file data_offset xtg.data_size ≡ some bs
    → draw_page file data_offset xtg (old ++ after) xtg.width xtg.height ≡ ok (done, bs ++ after)
unfolding draw_page
draw_page-whole file data_offset xtg old after bs f g sized ho small got =
    rw (room, exact)
      (bulk_loop-whole file f g xtg.data_size xtg.data_size 0 data_offset [] old after bs
        (omega arith) refl ho small got)
  where
    room : ltb (length (old ++ after)) (row_bytes xtg.width * xtg.height) ≡ false
    room = ground (arith, length-append old after, ho, sized)

    exact : (xtg.width == xtg.width && xtg.height == xtg.height) ≡ true
    exact = ground arith
