-- ===== src/Xtc/Access.antt =====
-- Reading memory by index. A read outside the buffer is a `fault`; `reject` is the answer `false` or
-- `nullptr` that the code gives on input that it does not accept.
use x4_printer.Prelude.{
  ℕ, ◌≤◌, ◌<◌, ◌≡◌, refl, Bool, true, false, none, some, List, [], ◌∷◌, get_elem?, length, All,
  arith, zero, suc,
}

pub data Access {ℓ} (A : Type ℓ) : Type ℓ where
  fault reject : Access A
  ok : A → Access A

infixl 5 ◌>>=◌ ◌>>◌
abbrev pub ◌>>=◌ {ℓ κ} : {A : Type ℓ} {B : Type κ} → Access A → (A → Access B) → Access B
fault >>= f = fault
reject >>= f = reject
ok a >>= f = f a

abbrev pub ◌>>◌ {ℓ} : {B : Type ℓ} → Access (Unit {0}) → Access B → Access B
m >> k = m >>= λ _. k

abbrev pub guard : Bool → Access (Unit {0})
guard true = ok tt
guard false = reject

abbrev pub Bytes : Type 0
Bytes = List ℕ

abbrev pub AreBytes : Bytes → Type 0
AreBytes = All (λ b. b < 256)

unfoldable pub byte_at : Bytes → ℕ → Access ℕ
byte_at bs i = elim (get_elem? bs i) [ none ↦ fault | some b ↦ ok b ]

-- The result is no fault.
abbrev pub IsSafe {ℓ} : {A : Type ℓ} → Access A → Type 0
IsSafe fault = ⊥
IsSafe reject = Unit
IsSafe (ok a) = Unit

pub IsSafe-bind {ℓ κ} :
    {A : Type ℓ} {B : Type κ} (m : Access A) (f : A → Access B)
    → IsSafe m
    → ((a : A) → m ≡ ok a → IsSafe (f a))
    → IsSafe (m >>= f)
IsSafe-bind fault f h k = h
IsSafe-bind reject f h k = tt
IsSafe-bind (ok a) f h k = k a refl

pub IsSafe-guard {ℓ} :
    {B : Type ℓ} (b : Bool) (k : Access B) → (b ≡ true → IsSafe k) → IsSafe (guard b >> k)
IsSafe-guard true k h = h refl
IsSafe-guard false k h = tt

get_elem?-byte :
    (bs : Bytes) (i : ℕ)
    → AreBytes bs
    → i < length bs
    → (b : ℕ) × (get_elem? bs i ≡ some b) × (b < 256)
get_elem?-byte [] i h lt = absurd (omega arith)
get_elem?-byte (b ∷ bs) zero h lt = (b, refl, h.0)
get_elem?-byte (b ∷ bs) (suc i) h lt = get_elem?-byte bs i h.1 (omega arith)

-- A read inside the buffer gives a byte.
pub byte_at-ok :
    (bs : Bytes) (i : ℕ) → AreBytes bs → i < length bs → (b : ℕ) × (byte_at bs i ≡ ok b) × (b < 256)
unfolding byte_at
byte_at-ok bs i h lt = let (b, at, small) = get_elem?-byte bs i h lt in (b, rw (at, byte_at), small)

get_elem?-past : (bs : Bytes) (i : ℕ) → length bs ≤ i → get_elem? bs i ≡ none
get_elem?-past [] i h = refl
get_elem?-past (b ∷ bs) zero h = absurd (omega arith)
get_elem?-past (b ∷ bs) (suc i) h = get_elem?-past bs i (omega arith)

-- A read past the buffer is a fault.
pub byte_at-fault : (bs : Bytes) (i : ℕ) → length bs ≤ i → byte_at bs i ≡ fault
unfolding byte_at
byte_at-fault bs i h = rw (get_elem?-past bs i h, byte_at)
