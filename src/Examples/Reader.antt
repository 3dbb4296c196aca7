-- ===== src/Examples/Reader.antt =====
-- The reader on a card whose files hold zeros, and a page of the panel's size.
use x4_printer.Prelude.{
  ℕ, zero, suc, ◌+◌, ◌≤◌, ◌≡◌, refl, sym, ap, subst, ◌∙◌, Option, some, none, [], ◌∷◌, ◌++◌, length,
  take, drop, length-replicate, replicate, arith,
}
use x4_printer.Xtc.Access.{AreBytes, ok, Bytes}
use x4_printer.Xtc.Format.{XtgHeader, magic_xtg, magic_xtc}
use x4_printer.Xtc.Reader.{File, done, XtcReader, draw_page, render_page_to_framebuffer}
use x4_printer.Xtc.Reader.Writes.{IsFile, Draws}
use x4_printer.Xtc.Reader.Bounds.{render_page_to_framebuffer-Draws}
use x4_printer.Xtc.Reader.Chunks.{IsSeekable, draw_page-whole}

abbrev zero_bytes : ℕ → Bytes
zero_bytes n = replicate n 0

abbrev zeros : File
zeros offset n = some (zero_bytes n)

abbrev bytes_of : Option Bytes → Bytes
bytes_of none = []
bytes_of (some bs) = bs

AreBytes-replicate : (n : ℕ) → AreBytes (replicate n 0)
AreBytes-replicate zero = tt
AreBytes-replicate (suc n) = (omega arith, AreBytes-replicate n)

zeros-IsFile : IsFile zeros
zeros-IsFile = record {
  whole = λ offset n bs e. ap (λ o. length (bytes_of o)) (sym e) ∙ length-replicate {A = ℕ} n 0;
  bytes = λ offset n bs e. subst AreBytes (ap bytes_of e) (AreBytes-replicate n);
}

take-replicate : (n k : ℕ) → n ≤ k → take n (zero_bytes k) ≡ zero_bytes n
take-replicate zero k h = refl
take-replicate (suc n) zero h = absurd (omega arith)
take-replicate (suc n) (suc k) h = ap (λ t. 0 ∷ t) (take-replicate n k (omega arith))

drop-replicate : (n m k : ℕ) → k ≡ n + m → drop n (zero_bytes k) ≡ zero_bytes m
drop-replicate zero m k h = ap zero_bytes (omega (arith, h))
drop-replicate (suc n) m zero h = absurd (omega (arith, h))
drop-replicate (suc n) m (suc k) h = drop-replicate n m k (omega (arith, h))

zeros-IsSeekable : IsSeekable zeros
zeros-IsSeekable = record {
  front = λ offset n m bs e.
      ap some (sym (take-replicate n (n + m) (omega arith)) ∙ ap (λ o. take n (bytes_of o)) e);
  back = λ offset n m bs e.
      ap some (sym (drop-replicate n m (n + m) refl) ∙ ap (λ o. drop n (bytes_of o)) e);
}

abbrev page : XtgHeader
page = record {
  mark = magic_xtg;
  width = 16;
  height = 2;
  color_mode = 0;
  compression = 0;
  data_size = 4;
}

draw_page-whole_example :
    draw_page zeros 72 page ((255 ∷ 255 ∷ 255 ∷ 255 ∷ []) ++ (255 ∷ [])) 16 2
    ≡ ok (done, (0 ∷ 0 ∷ 0 ∷ 0 ∷ []) ++ (255 ∷ []))
draw_page-whole_example =
    draw_page-whole zeros 72 page (255 ∷ 255 ∷ 255 ∷ 255 ∷ []) (255 ∷ []) (0 ∷ 0 ∷ 0 ∷ 0 ∷ [])
      zeros-IsFile zeros-IsSeekable refl refl (omega arith) refl

abbrev reader : XtcReader
reader = record {
  file = zeros;
  header = record {
    mark = magic_xtc;
    version = 1;
    page_count = 1;
    read_direction = 0;
    has_metadata = 0;
    has_thumbnails = 0;
    has_chapters = 0;
    current_page = 0;
    metadata_offset = 0;
    index_offset = 56;
    data_offset = 72;
    thumb_offset = 0;
    chapter_offset = 0;
  };
  title = [];
  author = [];
}

abbrev file_of : Option XtcReader → File
file_of none = zeros
file_of (some r) = r.file

render_page_to_framebuffer-Draws_example :
    Draws 5 (render_page_to_framebuffer (some reader) 0 (replicate 5 255) 16 2)
render_page_to_framebuffer-Draws_example =
    render_page_to_framebuffer-Draws (some reader) 0 (replicate 5 255) 16 2
      (λ r e. subst IsFile (ap file_of e) zeros-IsFile)
