-- ===== src/Xtc/Reader/Writes.antt =====
-- Writes into a buffer, a chunk or a row at a time, stay inside it.
use x4_printer.Prelude.{
  ℕ, zero, suc, ◌+◌, ◌-◌, ◌*◌, ◌≤◌, ◌<◌, ◌≡◌, refl, ◌∙◌, inl, inr, ◌||◌, Option, none, some, [],
  ◌∷◌, ◌++◌, length, take, drop, length-append, length-take, arith, Bool-cases, if◌then◌else◌, ltb,
  false,
}
use x4_printer.Prelude.Int.{ℤ, pos, ◌+ℤ◌, ltb_ℤ, leb_ℤ, eq_ℤ, pos_part, quot}
use x4_printer.Xtc.Access.{Access, fault, reject, ok, ◌>>=◌, Bytes, AreBytes}
use x4_printer.Xtc.Reader.{
  File, RenderResult, write_at, read_in, after_read, bulk_loop, chunk_of, shift_row, copy_row,
}

-- What a read that succeeds gives.
pub record IsFile (file : File) : Type 0 where
  pub whole : (offset n : ℕ) (bs : Bytes) → file offset n ≡ some bs → length bs ≡ n
  pub bytes : (offset n : ℕ) (bs : Bytes) → file offset n ≡ some bs → AreBytes bs

-- The call ends in bounds, and its buffer is as long as before.
abbrev pub Keeps : ℕ → Access Bytes → Type 0
Keeps n fault = ⊥
Keeps n reject = ⊥
Keeps n (ok bs) = length bs ≡ n

abbrev pub Draws : ℕ → Access (RenderResult × Bytes) → Type 0
Draws n fault = ⊥
Draws n reject = ⊥
Draws n (ok (r, bs)) = length bs ≡ n

pub length-drop : (n : ℕ) (bs : Bytes) → length (drop n bs) ≡ length bs - n
length-drop zero bs = omega arith
length-drop (suc n) [] = omega arith
length-drop (suc n) (b ∷ bs) = omega (arith, length-drop n bs)

pub write_at-ok :
    (buffer : Bytes) (at : ℕ) (bs : Bytes)
    → at + length bs ≤ length buffer
    → write_at buffer at bs ≡ ok (take at buffer ++ (bs ++ drop (at + length bs) buffer))
unfolding write_at
write_at-ok buffer at bs h = ground arith

written-length :
    (buffer : Bytes) (at : ℕ) (bs : Bytes)
    → at + length bs ≤ length buffer
    → length (take at buffer ++ (bs ++ drop (at + length bs) buffer)) ≡ length buffer
written-length buffer at bs h = omega (
  arith,
  length-append (take at buffer) (bs ++ drop (at + length bs) buffer),
  length-append bs (drop (at + length bs) buffer),
  length-take at buffer,
  length-drop (at + length bs) buffer,
)

pub write_at-Keeps :
    (n : ℕ) (buffer : Bytes) (at : ℕ) (bs : Bytes)
    → length buffer ≡ n
    → at + length bs ≤ n
    → Keeps n (write_at buffer at bs)
write_at-Keeps n buffer at bs same h =
    let room : at + length bs ≤ length buffer = omega (arith, same, h) in
    rw (write_at-ok buffer at bs room) (written-length buffer at bs room ∙ same)

Keeps-bind :
    (n : ℕ) (m : Access Bytes) (next : Bytes → Access Bytes)
    → Keeps n m
    → ((bs : Bytes) → length bs ≡ n → Keeps n (next bs))
    → Keeps n (m >>= next)
Keeps-bind n fault next h k = absurd h
Keeps-bind n reject next h k = absurd h
Keeps-bind n (ok bs) next h k = k bs h

pub Draws-bind :
    (n : ℕ) (m : Access Bytes) (next : Bytes → Access (RenderResult × Bytes))
    → Keeps n m
    → ((bs : Bytes) → length bs ≡ n → Draws n (next bs))
    → Draws n (m >>= next)
Draws-bind n fault next h k = absurd h
Draws-bind n reject next h k = absurd h
Draws-bind n (ok bs) next h k = k bs h

pub rows_fit : (y height bytes : ℕ) → y < height → y * bytes + bytes ≤ bytes * height
rows_fit y zero bytes h = absurd (omega arith)
rows_fit zero (suc height) bytes h = grind arith
rows_fit (suc y) (suc height) bytes h = grind (arith, rows_fit y height bytes)

module _ (n : ℕ) where
  read_in-Draws :
      (o : Option Bytes) (buffer : Bytes) (at : ℕ) (next : Bytes → Access (RenderResult × Bytes))
      → length buffer ≡ n
      → ((bs : Bytes) → o ≡ some bs → at + length bs ≤ n)
      → ((bs : Bytes) → length bs ≡ n → Draws n (next bs))
      → Draws n (read_in o buffer at next)
  read_in-Draws none buffer at next same fits k = same
  read_in-Draws (some bs) buffer at next same fits k =
      Draws-bind n (write_at buffer at bs) next (write_at-Keeps n buffer at bs same (fits bs refl))
        k

  after_read-Draws :
      (len : ℕ) (o : Option Bytes) (buffer : Bytes) (at : ℕ)
      (next : Bytes → Access (RenderResult × Bytes))
      → length buffer ≡ n
      → at + len ≤ n
      → ((bs : Bytes) → o ≡ some bs → length bs ≡ len)
      → ((bs : Bytes) → length bs ≡ n → Draws n (next bs))
      → Draws n (after_read len o buffer at next)
  after_read-Draws len o buffer at next same room whole k =
      let has_room : ltb (length buffer) (at + len) ≡ false = ground (arith, same, room) in
      rw has_room
        (read_in-Draws o buffer at next same (λ bs got. omega (arith, whole bs got, room)) k)

  pub bulk_loop-Draws :
      (file : File) (fuel remaining at offset : ℕ) (buffer : Bytes)
      → IsFile file
      → length buffer ≡ n
      → remaining ≤ fuel
      → at + remaining ≤ n
      → Draws n (bulk_loop file fuel remaining at offset buffer)
  unfolding bulk_loop
  bulk_loop-Draws file zero zero at offset buffer f same enough room = same
  bulk_loop-Draws file zero (suc m) at offset buffer f same enough room = absurd (omega arith)
  bulk_loop-Draws file (suc fuel) zero at offset buffer f same enough room = same
  bulk_loop-Draws file (suc fuel) (suc m) at offset buffer f same enough room =
      after_read-Draws (chunk_of (suc m)) (file offset (chunk_of (suc m))) buffer at _ same
        (omega (arith, chunk_small, room)) (f.whole offset (chunk_of (suc m)))
        (λ bs same'.
          bulk_loop-Draws file fuel (suc m - chunk_of (suc m)) (at + chunk_of (suc m)) _ bs f same'
            (omega (arith, chunk_some, enough)) (omega (arith, chunk_small, room)))
    where
      chunk_small : chunk_of (suc m) ≤ suc m
      chunk_small = ground arith

      chunk_some : 1 ≤ chunk_of (suc m)
      chunk_some = ground arith

  shift_row-Keeps :
      (byte_offset : ℤ) (width : ℕ) (bs : Bytes) (src at : ℕ) (buffer : Bytes)
      → length buffer ≡ n
      → at + width ≤ n
      → Keeps n (shift_row byte_offset width bs src at buffer)
  unfolding shift_row
  shift_row-Keeps byte_offset width [] src at buffer same room = same
  shift_row-Keeps byte_offset width (b ∷ bs) src at buffer same room =
      Keeps-bind n _ (shift_row byte_offset width bs (src + 1) at) moved
        (λ buffer' same'. shift_row-Keeps byte_offset width bs (src + 1) at buffer' same' room)
    where
      dst : ℤ
      dst = pos src +ℤ byte_offset

      moved : Keeps n (
          if ltb_ℤ dst (pos 0) || leb_ℤ (pos width) dst
          then ok buffer
          else write_at buffer (at + pos_part dst) (b ∷ []))
      moved = elim (Bool-cases (ltb_ℤ dst (pos 0) || leb_ℤ (pos width) dst)) [
        | inl out ↦ rw out same
        | inr inside ↦ rw inside (
            write_at-Keeps n buffer (at + pos_part dst) (b ∷ []) same
              (ground (arith, inside, room)))
      ]

  pub copy_row-Keeps :
      (x_offset : ℤ) (width : ℕ) (row : Bytes) (at : ℕ) (buffer : Bytes)
      → length buffer ≡ n
      → at + width ≤ n
      → Keeps n (copy_row x_offset width row at buffer)
  unfolding copy_row
  copy_row-Keeps x_offset width row at buffer same room =
      elim (Bool-cases (eq_ℤ x_offset (pos 0))) [
        | inl aligned ↦ rw aligned (
            write_at-Keeps n buffer at (take width row) same
              (omega (arith, length-take width row, room)))
        | inr shifted ↦
            rw shifted (shift_row-Keeps (quot x_offset 8) width row 0 at buffer same room)
      ]
