-- ===== src/Calendar/Ics/Strings/Escape.antt =====
-- TEXT values of RFC 5545, and `unescapeText`.
use x4_printer.Prelude.{ℕ, ◌≡◌, refl, Bool, false, ◌||◌, [], ◌∷◌, map, ◌==◌, if◌then◌else◌, arith}
use x4_printer.Prelude.Text.{Text}
use x4_printer.Calendar.Ics.Strings.{unescape_text}

-- RFC 5545, 3.3.11: a backslash stands before a backslash, a ';' and a ','; a newline is `\n`.
abbrev needs_escape : ℕ → Bool
needs_escape c = c == b'\\' || c == b';' || c == b','

unfoldable pub escape_text : Text → Text
escape_text [] = []
escape_text (c ∷ t) =
    let rest = escape_text t in
    if c == 10 then b'\\' ∷ b'n' ∷ rest else if needs_escape c then b'\\' ∷ c ∷ rest else c ∷ rest

-- The text on one line of the screen.
abbrev pub one_line : ℕ → ℕ
one_line c = if c == 10 then b' ' else c

unescape_text-plain :
    (c : ℕ) (t : Text) → (c == b'\\') ≡ false → unescape_text (c ∷ t) ≡ c ∷ unescape_text t
unfolding unescape_text
unescape_text-plain c [] h = refl
unescape_text-plain c (n ∷ t) h = ground arith

-- Reading a TEXT value that was written by the rules of RFC 5545 gives the text back, with a space for
-- each newline.
pub unescape_text-escape_text : (t : Text) → unescape_text (escape_text t) ≡ map one_line t
unfolding unescape_text escape_text
unescape_text-escape_text [] = refl
unescape_text-escape_text (c ∷ t) =
    ground (arith, unescape_text-escape_text t, unescape_text-plain c (escape_text t))
