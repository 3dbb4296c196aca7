-- ===== src/Config/Wifi/Password.antt =====
-- firmware/src/config/WifiStore.cpp: how a password is written in the file. The base64 functions of
-- mbedtls and the device's address are parameters; a decoding that fails, for which 64 bytes are too few
-- as well, is `none`.
use Prim.Native.Nat.{bit_xor}
use x4_printer.Prelude.{
  ℕ, zero, suc, ◌+◌, ◌%◌, ◌≤◌, ◌<◌, ◌≡◌, ◌≢◌, refl, ap, ◌∙◌, true, false, Option, none, some, List,
  [], ◌∷◌, All, leb, all_below, all_below_sound, ◌==◌, ==_iff, length, get_or, if◌then◌else◌, arith,
}
use x4_printer.Prelude.Text.{Text}
use x4_printer.Xtc.Access.{Bytes}

pub record Base64 : Type 0 where
  pub encode : Bytes → Text
  pub decode : Text → Option Bytes

-- `xorWithMac`, from byte `i` on.
unfoldable pub xor_from : List ℕ → ℕ → Bytes → Bytes
xor_from mac i [] = []
xor_from mac i (b ∷ bs) = bit_xor b (get_or mac (i % 6) 0) ∷ xor_from mac (i + 1) bs

abbrev pub xor_with_mac : List ℕ → Bytes → Bytes
xor_with_mac mac = xor_from mac 0

-- The C string in a buffer.
abbrev pub until_nul : Bytes → Text
until_nul [] = []
until_nul (zero ∷ bs) = []
until_nul (suc b ∷ bs) = suc b ∷ until_nul bs

module _ (base64 : Base64) (mac : List ℕ) where
  -- The base64 text must fit a buffer of 128 bytes.
  unfoldable pub obfuscate_and_encode : Text → Text
  obfuscate_and_encode [] = []
  obfuscate_and_encode (c ∷ plain) =
      let out = base64.encode (xor_with_mac mac (c ∷ plain)) in
      if leb 128 (length out) then [] else out

  abbrev plain_of : ℕ → Option Bytes → Option Text
  plain_of size none = none
  plain_of size (some bs) =
      if leb size (length bs) then none else some (until_nul (xor_with_mac mac bs))

  -- `none` is the source's `false`; `size` is that of the buffer for the password.
  unfoldable pub decode_and_deobfuscate : ℕ → Text → Option Text
  decode_and_deobfuscate size [] = some []
  decode_and_deobfuscate size (c ∷ encoded) = plain_of size (base64.decode (c ∷ encoded))

-- What the code relies on, for at most 64 bytes: the text of some bytes is not empty, at most 88
-- characters long, and decodes to the bytes.
pub record IsBase64 (base64 : Base64) : Type 0 where
  pub text_some : (bs : Bytes) → 0 < length bs → base64.encode bs ≢ []
  pub short : (bs : Bytes) → length bs ≤ 64 → length (base64.encode bs) ≤ 88
  pub decodes : (bs : Bytes) → length bs ≤ 64 → base64.decode (base64.encode bs) ≡ some bs

-- The bytes of a C string.
abbrev pub IsCString : Text → Type 0
IsCString = All (λ c. (0 < c) × (c < 256))

xor_table : all_below 256 (λ a. all_below 256 (λ b. bit_xor (bit_xor a b) b == a)) ≡ true
xor_table = refl

bit_xor_twice : (a b : ℕ) → a < 256 → b < 256 → bit_xor (bit_xor a b) b ≡ a
bit_xor_twice a b ha hb = (==_iff (bit_xor (bit_xor a b) b) a).0 (
    all_below_sound 256 (λ b. bit_xor (bit_xor a b) b == a) b
      (all_below_sound 256 (λ a. all_below 256 (λ b. bit_xor (bit_xor a b) b == a)) a xor_table ha)
      hb)

length-xor_from : (mac : List ℕ) (i : ℕ) (bs : Bytes) → length (xor_from mac i bs) ≡ length bs
unfolding xor_from
length-xor_from mac i [] = refl
length-xor_from mac i (b ∷ bs) = ap suc (length-xor_from mac (i + 1) bs)

mac_byte : (mac : List ℕ) (i : ℕ) → All (λ b. b < 256) mac → get_or mac i 0 < 256
mac_byte [] i h = omega arith
mac_byte (b ∷ mac) zero h = h.0
mac_byte (b ∷ mac) (suc i) h = mac_byte mac i h.1

module _ (mac : List ℕ) (h : All (λ b. b < 256) mac) where
  xor_from_twice : (i : ℕ) (t : Text) → IsCString t → xor_from mac i (xor_from mac i t) ≡ t
  unfolding xor_from
  xor_from_twice i [] c = refl
  xor_from_twice i (b ∷ t) c =
      rw
        (
          bit_xor_twice b (get_or mac (i % 6) 0) c.0.1 (mac_byte mac (i % 6) h),
          xor_from_twice (i + 1) t c.1,
        )
        refl

until_nul-same : (t : Text) → IsCString t → until_nul t ≡ t
until_nul-same [] h = refl
until_nul-same (zero ∷ t) h = absurd (omega (arith, h.0.0))
until_nul-same (suc c ∷ t) h = ap (λ r. suc c ∷ r) (until_nul-same t h.1)

module _ (base64 : Base64) (mac : List ℕ) where
  decode_some :
      (size : ℕ) (text : Text)
      → text ≢ []
      → decode_and_deobfuscate base64 mac size text ≡ plain_of base64 mac size (base64.decode text)
  unfolding decode_and_deobfuscate
  decode_some size [] h = absurd (h refl)
  decode_some size (c ∷ text) h = refl

  encode_short :
      (ok : IsBase64 base64) (c : ℕ) (plain : Text)
      → length (c ∷ plain) ≤ 64
      → obfuscate_and_encode base64 mac (c ∷ plain) ≡ base64.encode (xor_with_mac mac (c ∷ plain))
  unfolding obfuscate_and_encode
  encode_short ok c plain fits =
      let out = xor_with_mac mac (c ∷ plain) in
      let short = ok.short out (omega (arith, length-xor_from mac 0 (c ∷ plain))) in
      let room : leb 128 (length (base64.encode out)) ≡ false = ground (arith, short) in
      rw room refl

-- A password of at most 64 bytes is read back as it was, whatever the device's address is.
pub decode_and_deobfuscate-obfuscate_and_encode :
    (base64 : Base64) (ok : IsBase64 base64) (mac : List ℕ) (plain : Text)
    → All (λ b. b < 256) mac
    → IsCString plain
    → length plain ≤ 64
    → decode_and_deobfuscate base64 mac 65 (obfuscate_and_encode base64 mac plain) ≡ some plain
unfolding decode_and_deobfuscate obfuscate_and_encode
decode_and_deobfuscate-obfuscate_and_encode base64 ok mac [] hm hc fits = refl
decode_and_deobfuscate-obfuscate_and_encode base64 ok mac (c ∷ plain) hm hc fits =
    let out = xor_with_mac mac (c ∷ plain) in
    let size = length-xor_from mac 0 (c ∷ plain) in
    let room : leb 65 (length out) ≡ false = ground (arith, size) in
    ap (decode_and_deobfuscate base64 mac 65) (encode_short base64 mac ok c plain fits)
    ∙ decode_some base64 mac 65 (base64.encode out) (ok.text_some out (omega (arith, size)))
    ∙ ap (plain_of base64 mac 65) (ok.decodes out (omega (arith, size)))
    ∙ ap (λ b. if b then none else some (until_nul (xor_with_mac mac out))) room
    ∙ ap (λ t. some (until_nul t)) (xor_from_twice mac hm 0 (c ∷ plain) hc)
    ∙ ap some (until_nul-same (c ∷ plain) hc)
