-- ===== src/Xtc/Encoder/Bits.antt =====
-- The bits of a packed row, as the decoder reads them: a byte is one of 256 values and a bit one of
-- eight, so every case is evaluated.
use x4_printer.Prelude.{
  ℕ, zero, suc, ◌+◌, ◌-◌, ◌/◌, ◌%◌, ◌^◌, ◌<◌, ◌≡◌, ◌≢◌, refl, ap, ◌∙◌, sym, Bool, true, false, ◌&&◌,
  ltb, all_below, all_below_sound, ◌==◌, ==_iff, [], ◌∷◌, get_or, set, length, ltb→lt, Bool-cases,
  inl, inr, arith, if◌then◌else◌,
}
use x4_printer.Xtc.Access.{Bytes, AreBytes}
use x4_printer.Xtc.Decoder.{pixel_of}
use x4_printer.Xtc.Encoder.{or_bit, set_bit}

-- What setting the bit of column `k` does to the pixel of column `l`.
case_of : ℕ → ℕ → ℕ → Bool
case_of b k l =
    ltb (or_bit b k) 256
    && (if k == l then pixel_of (or_bit b k) l == 255 else pixel_of (or_bit b k) l == pixel_of b l)

table : all_below 256 (λ b. all_below 8 (λ k. all_below 8 (λ l. case_of b k l))) ≡ true
unfolding case_of
table = refl

case_holds : (b k l : ℕ) → b < 256 → k < 8 → l < 8 → case_of b k l ≡ true
case_holds b k l hb hk hl =
    all_below_sound 8 (λ l. case_of b k l) l
      (all_below_sound 8 (λ k. all_below 8 (λ l. case_of b k l)) k
        (all_below_sound 256 (λ b. all_below 8 (λ k. all_below 8 (λ l. case_of b k l))) b table hb)
        hk)
      hl

same_column :
    (k l p q : ℕ) (r : Bool)
    → (r && (if k == l then p == 255 else p == q)) ≡ true
    → (r ≡ true) × (k ≡ l → p ≡ 255) × (k ≢ l → p ≡ q)
same_column k l p q true h = (refl, (λ e. ground arith), (λ e. ground arith))
same_column k l p q false h = absurd (ground arith)

-- A column acts by its place in its byte.
or_bit-mod : (b x : ℕ) → or_bit b (x % 8) ≡ or_bit b x
or_bit-mod b x =
    ap (λ k. let mask = 2 ^ (7 - k) in if b / mask % 2 == 1 then b else b + mask) (omega arith)

pixel_of-mod : (b x : ℕ) → pixel_of b (x % 8) ≡ pixel_of b x
pixel_of-mod b x = ap (λ k. if b / 2 ^ (7 - k) % 2 == 1 then 255 else 0) (omega arith)

or_bit_lem :
    (b x y : ℕ)
    → b < 256
    → (or_bit b x < 256)
      × (x % 8 ≡ y % 8 → pixel_of (or_bit b x) y ≡ 255)
      × (x % 8 ≢ y % 8 → pixel_of (or_bit b x) y ≡ pixel_of b y)
unfolding case_of
or_bit_lem b x y h =
    let (fits, same, other) =
      same_column (x % 8) (y % 8) _ _ _
        (case_holds b (x % 8) (y % 8) h (omega arith) (omega arith)) in
    let e = or_bit-mod b x in
    let back = sym (pixel_of-mod (or_bit b x) y) ∙ ap (λ c. pixel_of c (y % 8)) (sym e) in
    (
      ltb→lt (or_bit b x) 256 (ap (λ c. ltb c 256) (sym e) ∙ fits),
      (λ k. back ∙ same k),
      (λ k. back ∙ other k ∙ pixel_of-mod b y),
    )

get_or-set-same : (bs : Bytes) (i v : ℕ) → i < length bs → get_or (set bs i v) i 0 ≡ v
get_or-set-same [] i v h = absurd (omega arith)
get_or-set-same (b ∷ bs) zero v h = refl
get_or-set-same (b ∷ bs) (suc i) v h = get_or-set-same bs i v (omega arith)

get_or-set-other : (bs : Bytes) (i j v : ℕ) → i ≢ j → get_or (set bs i v) j 0 ≡ get_or bs j 0
get_or-set-other [] i j v h = refl
get_or-set-other (b ∷ bs) zero zero v h = absurd (h refl)
get_or-set-other (b ∷ bs) zero (suc j) v h = refl
get_or-set-other (b ∷ bs) (suc i) zero v h = refl
get_or-set-other (b ∷ bs) (suc i) (suc j) v h = get_or-set-other bs i j v (λ e. h (ap suc e))

pub set-AreBytes : (bs : Bytes) (i v : ℕ) → AreBytes bs → v < 256 → AreBytes (set bs i v)
set-AreBytes [] i v h k = tt
set-AreBytes (b ∷ bs) zero v h k = (k, h.1)
set-AreBytes (b ∷ bs) (suc i) v h k = (h.0, set-AreBytes bs i v h.1 k)

get_or-fits : (bs : Bytes) (i : ℕ) → AreBytes bs → get_or bs i 0 < 256
get_or-fits [] i h = omega arith
get_or-fits (b ∷ bs) zero h = h.0
get_or-fits (b ∷ bs) (suc i) h = get_or-fits bs i h.1

-- The pixel of column `y` in a packed row.
abbrev pub pixel_at : Bytes → ℕ → ℕ
pixel_at row y = pixel_of (get_or row (y / 8) 0) y

pub set_bit-AreBytes : (row : Bytes) (x : ℕ) → AreBytes row → AreBytes (set_bit row x)
set_bit-AreBytes row x h =
    set-AreBytes row (x / 8) _ h
      (or_bit_lem (get_or row (x / 8) 0) x 0 (get_or-fits row (x / 8) h)).0

pub set_bit-same :
    (row : Bytes) (x : ℕ) → AreBytes row → x / 8 < length row → pixel_at (set_bit row x) x ≡ 255
set_bit-same row x h k =
    ap (λ b. pixel_of b x) (get_or-set-same row (x / 8) _ k)
    ∙ (or_bit_lem (get_or row (x / 8) 0) x x (get_or-fits row (x / 8) h)).1 refl

pub set_bit-other :
    (row : Bytes) (x y : ℕ)
    → AreBytes row
    → x / 8 < length row
    → x ≢ y
    → pixel_at (set_bit row x) y ≡ pixel_at row y
set_bit-other row x y h k apart = elim (Bool-cases (x / 8 == y / 8)) [
  | inl same ↦
      let e = (==_iff (x / 8) (y / 8)).0 same in
      ap (λ b. pixel_of b y)
        (ap (λ i. get_or (set_bit row x) i 0) (sym e) ∙ get_or-set-same row (x / 8) _ k)
      ∙ (or_bit_lem (get_or row (x / 8) 0) x y (get_or-fits row (x / 8) h)).2
          (λ m. apart (omega (arith, m, e)))
      ∙ ap (λ i. pixel_of (get_or row i 0) y) e
  | inr other ↦
      ap (λ b. pixel_of b y)
        (get_or-set-other row (x / 8) (y / 8) _ (λ e. ground (arith, e, other)))
]
