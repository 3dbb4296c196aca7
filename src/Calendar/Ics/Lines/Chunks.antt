-- ===== src/Calendar/Ics/Lines/Chunks.antt =====
-- How the bytes of a feed are cut into chunks and into lines.
use x4_printer.Prelude.{
  ℕ, suc, ◌+◌, ◌≤◌, ◌<◌, ◌≡◌, refl, sym, ap, ◌∙◌, true, false, List, [], ◌∷◌, ◌++◌, append-nil,
  append_assoc, length, length-append, All, All-append, ◌==◌, inl, inr, Bool-cases, lt→ltb, arith,
}
use x4_printer.Prelude.Text.{Text}
use x4_printer.Calendar.Ics.State.{Lines, Setup, IcsParser, max_logical_line}
use x4_printer.Calendar.Ics.Lines.{
  process_pending, clear_line, is_folded, rest_of, handle_physical_line, add_byte, feed_byte, feed,
}

-- Feeding two chunks of the body, one after the other, is feeding them at once: the parser's state does
-- not depend on where the network cuts the body.
pub feed-append :
    (s : Setup) (p : IcsParser) (a b : List ℕ) → feed s p (a ++ b) ≡ feed s (feed s p a) b
unfolding feed
feed-append s p [] b = refl
feed-append s p (c ∷ a) b = feed-append s (feed_byte s p c) a b

-- A physical line is held up to 4096 bytes. The logical line may pass that: a continuation is added
-- whole, without its first byte.
abbrev pub IsBounded : Lines → Type 0
IsBounded l = (length l.line_buf ≤ max_logical_line) × (length l.logical ≤ 8190)

length-rest_of : (t : Text) → is_folded t ≡ true → suc (length (rest_of t)) ≡ length t
length-rest_of [] h = cc
length-rest_of (c ∷ t) h = refl

module _ (s : Setup) (p : IcsParser) (h : IsBounded p.lines) where
  handle_physical_line-IsBounded : IsBounded (handle_physical_line s p).lines
  unfolding handle_physical_line
  handle_physical_line-IsBounded = elim (Bool-cases (is_folded p.lines.line_buf)) [
    | inr new ↦ rw new (omega arith)
    | inl folded ↦ rw folded (
        ground (
          arith,
          length-rest_of p.lines.line_buf folded,
          length-append p.lines.logical (rest_of p.lines.line_buf),
        ))
  ]

  feed_byte-IsBounded : (c : ℕ) → IsBounded (feed_byte s p c).lines
  unfolding feed_byte add_byte
  feed_byte-IsBounded c =
      ground (arith, handle_physical_line-IsBounded, length-append p.lines.line_buf (c ∷ []))

-- Whatever is fed, the physical line that is held stays within 4096 bytes and the logical line within
-- 8190.
pub feed-IsBounded :
    (s : Setup) (p : IcsParser) (bytes : List ℕ)
    → IsBounded p.lines
    → IsBounded (feed s p bytes).lines
unfolding feed
feed-IsBounded s p [] h = h
feed-IsBounded s p (c ∷ bytes) h =
    feed-IsBounded s (feed_byte s p c) bytes (feed_byte-IsBounded s p h c)

-- Neither LF nor CR.
abbrev pub IsPlain : ℕ → Type 0
IsPlain c = ((c == 10) ≡ false) × ((c == 13) ≡ false)

abbrev with_line : IcsParser → Text → IcsParser
with_line p t = record p { lines = record (p.lines) { line_buf = t } }

module _ (s : Setup) where
  feed_byte-plain :
      (p : IcsParser) (c : ℕ)
      → IsPlain c
      → length p.lines.line_buf < max_logical_line
      → feed_byte s p c ≡ with_line p (p.lines.line_buf ++ (c ∷ []))
  unfolding feed_byte add_byte
  feed_byte-plain p c h room =
      rw (h.0, h.1, lt→ltb (length p.lines.line_buf) max_logical_line room) refl

  -- Plain bytes are added to the physical line while there is room.
  feed-plain :
      (p : IcsParser) (t rest : Text)
      → All IsPlain t
      → length p.lines.line_buf + length t ≤ max_logical_line
      → feed s p (t ++ rest) ≡ feed s (with_line p (p.lines.line_buf ++ t)) rest
  unfolding feed
  feed-plain p [] rest h room = rw (append-nil p.lines.line_buf) refl
  feed-plain p (c ∷ t) rest h room =
      let q : IcsParser = with_line p (p.lines.line_buf ++ (c ∷ [])) in
      ap (λ (r : IcsParser). feed s r (t ++ rest)) (feed_byte-plain p c h.0 (omega arith))
      ∙ feed-plain q t rest h.1 (rw (length-append p.lines.line_buf (c ∷ [])) (omega (arith, room)))
      ∙ rw (append_assoc p.lines.line_buf (c ∷ []) t) refl

  -- A whole line that ends in CRLF.
  feed_line :
      (p : IcsParser) (t rest : Text)
      → p.lines.line_buf ≡ []
      → All IsPlain t
      → length t ≤ max_logical_line
      → feed s p (t ++ (13 ∷ 10 ∷ rest))
        ≡ feed s (clear_line (handle_physical_line s (with_line p t))) rest
  unfolding feed feed_byte
  feed_line p t rest fresh h room =
      feed-plain p t (13 ∷ 10 ∷ rest) h (omega (arith, ap length fresh))
      ∙ ap (λ b. feed s (with_line p (b ++ t)) (13 ∷ 10 ∷ rest)) fresh

  abbrev pending : IcsParser → Text → IcsParser
  pending p t = record {
    blocks = process_pending s p;
    lines = record { line_buf = []; logical = t; have_pending = true };
  }

  -- A line that is no continuation becomes the pending line.
  handle_new_line :
      (p : IcsParser) (t : Text)
      → is_folded t ≡ false
      → clear_line (handle_physical_line s (with_line p t)) ≡ pending p t
  unfolding handle_physical_line process_pending
  handle_new_line p t new = rw new refl

  -- A continuation is added to it.
  handle_folded_line :
      (p : IcsParser) (t u : Text)
      → length t < max_logical_line
      → clear_line (handle_physical_line s (with_line (pending p t) (32 ∷ u))) ≡ pending p (t ++ u)
  unfolding handle_physical_line
  handle_folded_line p t u room = rw (lt→ltb (length t) max_logical_line room) refl

-- A content line that the feed folds over two lines, the second one starting with a space, is read as
-- the same line unfolded. The lines end in CRLF and hold no CR or LF, the first is not empty and does
-- not start with a space or a tab, it is shorter than the line buffer, and the unfolded line and the
-- second line fit into it.
pub feed-folded :
    (s : Setup) (p : IcsParser) (c : ℕ) (t u rest : Text)
    → p.lines.line_buf ≡ []
    → is_folded (c ∷ t) ≡ false
    → All IsPlain (c ∷ t)
    → All IsPlain u
    → length (c ∷ t) + length u ≤ max_logical_line
    → length (c ∷ t) < max_logical_line
    → feed s p ((c ∷ t) ++ (13 ∷ 10 ∷ 32 ∷ (u ++ (13 ∷ 10 ∷ rest))))
      ≡ feed s p (((c ∷ t) ++ u) ++ (13 ∷ 10 ∷ rest))
feed-folded s p c t u rest fresh new ht hu both room =
    feed_line s p (c ∷ t) _ fresh ht (omega arith)
    ∙ ap (λ (q : IcsParser). feed s q (32 ∷ (u ++ (13 ∷ 10 ∷ rest))))
        (handle_new_line s p (c ∷ t) new)
    ∙ feed_line s (pending s p (c ∷ t)) (32 ∷ u) rest refl ((refl, refl), hu) (omega arith)
    ∙ ap (λ (q : IcsParser). feed s q rest) (handle_folded_line s p (c ∷ t) u room)
    ∙ sym (
        feed_line s p ((c ∷ t) ++ u) rest fresh (All-append IsPlain (c ∷ t) u ht hu)
          (omega (arith, length-append t u))
        ∙ ap (λ (q : IcsParser). feed s q rest) (handle_new_line s p ((c ∷ t) ++ u) new))
