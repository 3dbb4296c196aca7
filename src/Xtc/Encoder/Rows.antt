-- ===== src/Xtc/Encoder/Rows.antt =====
-- A page that is black and white already: the dithering passes no error on, and the decoder reads its
-- rows back.
use x4_printer.Prelude.{
  ℕ, zero, suc, ◌+◌, ◌-◌, ◌*◌, ◌/◌, ◌≤◌, ◌<◌, ◌≡◌, refl, ap, ◌∙◌, sym, Bool, true, false, ◌⊎◌, inl,
  inr, ltb, ◌==◌, List, [], ◌∷◌, map, get_or, set, replicate, length, length-replicate, length-set,
  All, if_cases, Bool-cases, ==_iff, ◌≢◌, arith, if◌then◌else◌,
}
use x4_printer.Xtc.Access.{Bytes, AreBytes}
use x4_printer.Xtc.Decoder.{row_bytes}
use x4_printer.Xtc.Encoder.{Floats, set_bit, add_at, pass_right, spread, dither_row, load_row}
use x4_printer.Xtc.Encoder.Bits.{pixel_at, set_bit-AreBytes, set_bit-same, set_bit-other}

-- The sums and products of the two shades and of zero are exact in `float`.
pub record IsExact (fl : Floats) : Type 0 where
  pub whole : (p : ℕ) → p < 256 → fl.add (fl.of_byte p) fl.zero_float ≡ fl.of_byte p
  pub nothing : fl.add fl.zero_float fl.zero_float ≡ fl.zero_float
  pub part_of_nothing : (k : ℕ) → fl.scale k fl.zero_float ≡ fl.zero_float
  pub white : fl.at_least_128 (fl.of_byte 255) ≡ true
  pub black : fl.at_least_128 (fl.of_byte 0) ≡ false
  pub no_white_error : fl.minus_shade (fl.of_byte 255) true ≡ fl.zero_float
  pub no_black_error : fl.minus_shade (fl.of_byte 0) false ≡ fl.zero_float

abbrev pub IsShade : ℕ → Type 0
IsShade p = (p ≡ 0) ⊎ (p ≡ 255)

abbrev pub AreShades : List ℕ → Type 0
AreShades = All IsShade

get_or-IsShade : (px : List ℕ) (x : ℕ) → AreShades px → IsShade (get_or px x 0)
get_or-IsShade [] x h = inl refl
get_or-IsShade (p ∷ px) zero h = h.0
get_or-IsShade (p ∷ px) (suc x) h = get_or-IsShade px x h.1

-- The row that the bits of the pixels make, from column `x` on.
abbrev mark : List ℕ → ℕ → Bytes → Bytes
mark px x dst = if get_or px x 0 == 255 then set_bit dst x else dst

unfoldable pub pack : ℕ → ℕ → List ℕ → Bytes → Bytes
pack zero x px dst = dst
pack (suc left) x px dst = pack left (x + 1) px (mark px x dst)

module _ (fl : Floats) (exact : IsExact fl) where
  pub IsStable : List fl.Float → Type 0
  IsStable = All (λ e. fl.add e fl.zero_float ≡ e)

  add_zero-stable :
      (row : List fl.Float) (x : ℕ)
      → IsStable row
      → set row x (fl.add (get_or row x fl.zero_float) fl.zero_float) ≡ row
  unfolding IsStable
  add_zero-stable [] x h = refl
  add_zero-stable (e ∷ row) zero h = ap (λ t. t ∷ row) h.0
  add_zero-stable (e ∷ row) (suc x) h = ap (λ t. e ∷ t) (add_zero-stable row x h.1)

  pub zeros-IsStable : (n : ℕ) → IsStable (replicate n fl.zero_float)
  unfolding IsStable
  zeros-IsStable zero = tt
  zeros-IsStable (suc n) = (exact.nothing, zeros-IsStable n)

  bytes-IsStable : (px : List ℕ) → AreShades px → IsStable (map fl.of_byte px)
  unfolding IsStable
  bytes-IsStable [] h = tt
  bytes-IsStable (p ∷ px) (inl e, hs) = (exact.whole p (omega (arith, e)), bytes-IsStable px hs)
  bytes-IsStable (p ∷ px) (inr e, hs) = (exact.whole p (omega (arith, e)), bytes-IsStable px hs)

  pub load_row-bytes :
      (px : List ℕ)
      → AreShades px
      → load_row fl px (replicate (length px) fl.zero_float) ≡ map fl.of_byte px
  unfolding load_row
  load_row-bytes [] h = refl
  load_row-bytes (p ∷ px) (inl e, hs) =
      rw (exact.whole p (omega (arith, e)), load_row-bytes px hs) refl
  load_row-bytes (p ∷ px) (inr e, hs) =
      rw (exact.whole p (omega (arith, e)), load_row-bytes px hs) refl

  get_or-bytes :
      (px : List ℕ) (x : ℕ)
      → x < length px
      → get_or (map fl.of_byte px) x fl.zero_float ≡ fl.of_byte (get_or px x 0)
  get_or-bytes [] x h = absurd (omega arith)
  get_or-bytes (p ∷ px) zero h = refl
  get_or-bytes (p ∷ px) (suc x) h = get_or-bytes px x (omega arith)

  is_white : (p : ℕ) → IsShade p → fl.at_least_128 (fl.of_byte p) ≡ (p == 255)
  is_white p (inl e) = rw e exact.black
  is_white p (inr e) = rw e exact.white

  no_error : (p : ℕ) → IsShade p → fl.minus_shade (fl.of_byte p) (p == 255) ≡ fl.zero_float
  no_error p (inl e) = rw e exact.no_black_error
  no_error p (inr e) = rw e exact.no_white_error

  -- A column that has no error changes neither row of errors.
  add_nothing :
      (row : List fl.Float) (x k : ℕ) (err : fl.Float)
      → IsStable row
      → err ≡ fl.zero_float
      → add_at fl row x (fl.scale k err) ≡ row
  add_nothing row x k err h e = rw (e, exact.part_of_nothing k) (add_zero-stable row x h)

  pass_right-nothing :
      (width x : ℕ) (err : fl.Float) (row : List fl.Float)
      → IsStable row
      → err ≡ fl.zero_float
      → pass_right fl width x err row ≡ row
  pass_right-nothing width x err row h e =
      if_cases (λ t. t ≡ row) (ltb (x + 1) width) _ row (λ k. add_nothing row (x + 1) 7 err h e)
        (λ k. refl)

  spread-nothing :
      (last : Bool) (width x : ℕ) (err : fl.Float) (next : List fl.Float)
      → IsStable next
      → err ≡ fl.zero_float
      → spread fl last width x err next ≡ next
  spread-nothing true width x err next h e = refl
  spread-nothing false width x err next h e =
      rw (left, add_nothing next x 5 err h e)
        (if_cases (λ t. t ≡ next) (ltb (x + 1) width) _ next
          (λ k. add_nothing next (x + 1) 1 err h e) (λ k. refl))
    where
      left : (if ltb 0 x then add_at fl next (x - 1) (fl.scale 3 err) else next) ≡ next
      left =
          if_cases (λ t. t ≡ next) (ltb 0 x) _ next (λ k. add_nothing next (x - 1) 3 err h e)
            (λ k. refl)

  pub dither_row-pack :
      (last : Bool) (width left x : ℕ) (px : List ℕ) (next : List fl.Float) (dst : Bytes)
      → AreShades px
      → IsStable next
      → x + left ≡ length px
      → dither_row fl last width left x (map fl.of_byte px) next dst ≡ (next, pack left x px dst)
  unfolding dither_row pack
  dither_row-pack last width zero x px next dst hp hn e = refl
  dither_row-pack last width (suc left) x px next dst hp hn e =
      let p = get_or px x 0 in
      let shade = get_or-IsShade px x hp in
      rw
        (
          get_or-bytes px x (omega (arith, e)),
          is_white p shade,
          pass_right-nothing width x _ (map fl.of_byte px) (bytes-IsStable px hp)
              (no_error p shade),
          spread-nothing last width x _ next hn (no_error p shade),
        )
        (dither_row-pack last width left (x + 1) px next _ hp hn (omega (arith, e)))

zeros-AreBytes : (n : ℕ) → AreBytes (replicate n 0)
zeros-AreBytes zero = tt
zeros-AreBytes (suc n) = (omega arith, zeros-AreBytes n)

get_or-zeros : (n i : ℕ) → get_or {A = ℕ} (replicate n 0) i 0 ≡ 0
get_or-zeros zero i = refl
get_or-zeros (suc n) zero = refl
get_or-zeros (suc n) (suc i) = get_or-zeros n i

zeros-pixel : (n y : ℕ) → pixel_at (replicate n 0) y ≡ 0
zeros-pixel n y = rw (get_or-zeros n (y / 8)) (ground arith)

mark-AreBytes : (px : List ℕ) (x : ℕ) (dst : Bytes) → AreBytes dst → AreBytes (mark px x dst)
mark-AreBytes px x dst h =
    if_cases AreBytes (get_or px x 0 == 255) (set_bit dst x) dst (λ k. set_bit-AreBytes dst x h)
      (λ k. h)

length-mark : (px : List ℕ) (x : ℕ) (dst : Bytes) → length (mark px x dst) ≡ length dst
length-mark px x dst =
    if_cases (λ t. length t ≡ length dst) (get_or px x 0 == 255) (set_bit dst x) dst
      (λ k. length-set dst (x / 8) _) (λ k. refl)

mark-same :
    (px : List ℕ) (x : ℕ) (dst : Bytes)
    → AreBytes dst
    → AreShades px
    → x / 8 < length dst
    → pixel_at dst x ≡ 0
    → pixel_at (mark px x dst) x ≡ get_or px x 0
mark-same px x dst hb hp inside clear = elim (get_or-IsShade px x hp) [
  | inl e ↦ rw e clear
  | inr e ↦ rw e (set_bit-same dst x hb inside)
]

mark-other :
    (px : List ℕ) (x y : ℕ) (dst : Bytes)
    → AreBytes dst
    → x / 8 < length dst
    → x ≢ y
    → pixel_at (mark px x dst) y ≡ pixel_at dst y
mark-other px x y dst hb inside apart =
    if_cases (λ t. pixel_at t y ≡ pixel_at dst y) (get_or px x 0 == 255) (set_bit dst x) dst
      (λ k. set_bit-other dst x y hb inside apart) (λ k. refl)

pub length-pack :
    (left x : ℕ) (px : List ℕ) (dst : Bytes) → length (pack left x px dst) ≡ length dst
unfolding pack
length-pack zero x px dst = refl
length-pack (suc left) x px dst = length-pack left (x + 1) px (mark px x dst) ∙ length-mark px x dst

-- Bits that are still clear from column `x` on get the pixels' shades, and the others stay.
pub pack-pixel :
    (left x y : ℕ) (px : List ℕ) (dst : Bytes)
    → AreBytes dst
    → AreShades px
    → x + left ≤ 8 * length dst
    → ((z : ℕ) → x ≤ z → pixel_at dst z ≡ 0)
    → (y < x → pixel_at (pack left x px dst) y ≡ pixel_at dst y)
      × (x ≤ y → y < x + left → pixel_at (pack left x px dst) y ≡ get_or px y 0)
unfolding pack
pack-pixel zero x y px dst hb hp fits clear = (λ h. refl, λ h k. absurd (omega arith))
pack-pixel (suc left) x y px dst hb hp fits clear =
    let inside : x / 8 < length dst = omega arith in
    let later : (z : ℕ) → x + 1 ≤ z → pixel_at (mark px x dst) z ≡ 0 =
      (λ z h. mark-other px x z dst hb inside (λ e. omega (arith, e)) ∙ clear z (omega arith)) in
    let (before, after) =
      pack-pixel left (x + 1) y px (mark px x dst) (mark-AreBytes px x dst hb) hp
        (omega (arith, length-mark px x dst)) later in
    (
      (λ h. before (omega arith) ∙ mark-other px x y dst hb inside (λ e. omega (arith, e))),
      (λ h k. elim (Bool-cases (x == y)) [
        | inl same ↦
            let e = (==_iff x y).0 same in
            before (omega (arith, e))
            ∙ ap (pixel_at (mark px x dst)) (sym e)
            ∙ mark-same px x dst hb hp inside (clear x (omega arith))
            ∙ ap (λ t. get_or px t 0) e
        | inr other ↦ after (ground (arith, other)) (omega arith)
      ]),
    )

-- A row that is packed into zeros has the pixels' shades.
pub pack-shades :
    (px : List ℕ) (y : ℕ)
    → AreShades px
    → y < length px
    → pixel_at (pack (length px) 0 px (replicate (row_bytes (length px)) 0)) y ≡ get_or px y 0
pack-shades px y hp h =
    (pack-pixel (length px) 0 y px _ (zeros-AreBytes (row_bytes (length px))) hp
        (omega (arith, length-replicate {A = ℕ} (row_bytes (length px)) 0))
        (λ z k. zeros-pixel (row_bytes (length px)) z)).1
      (omega arith) (omega arith)
