-- ===== src/Store/Json.antt =====
-- ArduinoJson, as the stores use it: a parameter. A document that a store builds is one object, or
-- an array of objects under a key, or members and such an array; a value is what is assigned to
-- `doc["key"]`, where `neg n` is the integer -(n + 1).
use x4_printer.Prelude.{
  ℕ, ◌-◌, ◌^◌, ◌≡◌, ◌≢◌, Bool, Option, none, some, false, List, [], ◌∷◌, map, ltb, if◌then◌else◌,
}
use x4_printer.Prelude.Int.{ℤ, pos, negsuc}
use x4_printer.Prelude.Text.{Text, text_eq}

pub data Value : Type 0 where
  str : Text → Value
  num : ℕ → Value
  neg : ℕ → Value
  flag : Bool → Value

abbrev pub Object : Type 0
Object = List (Text × Value)

pub data Document : Type 0 where
  flat : Object → Document
  rows : Text → List Object → Document
  with_rows : Object → Text → List Object → Document

-- `serializeJson`, `deserializeJson`, the document's object and its arrays of objects, and `|` with a
-- default: of a `const char*`, of an `int` and of a `bool`. `num_or` is the `int` as a `uint32_t`.
pub record Json (Doc Obj : Type 0) : Type 0 where
  pub serialize : Document → Text
  pub deserialize : Text → Option Doc
  pub root : Doc → Obj
  pub objects : Text → Doc → List Obj
  pub str_or : Obj → Text → Text → Text
  pub num_or : Obj → Text → ℕ → ℕ
  pub int_or : Obj → Text → ℤ → ℤ
  pub flag_or : Obj → Text → Bool → Bool

abbrev pub value_at : Object → Text → Option Value
value_at [] k = none
value_at ((j, v) ∷ o) k = if text_eq j k then some v else value_at o k

abbrev pub str_of : Option Value → Text → Text
str_of (some (str t)) d = t
str_of v d = d

-- The default is an `int`, so a number that no `int` holds gives the default.
abbrev pub num_of : Option Value → ℕ → ℕ
num_of (some (num n)) d = if ltb n (2 ^ 31) then n else d
num_of (some (neg n)) d = if ltb n (2 ^ 31) then 2 ^ 32 - 1 - n else d
num_of v d = d

abbrev pub int_of : Option Value → ℤ → ℤ
int_of (some (num n)) d = if ltb n (2 ^ 31) then pos n else d
int_of (some (neg n)) d = if ltb n (2 ^ 31) then negsuc n else d
int_of v d = d

-- What is assigned for a signed number.
abbrev pub int_value : ℤ → Value
int_value (pos n) = num n
int_value (negsuc n) = neg n

abbrev pub flag_of : Option Value → Bool → Bool
flag_of (some (flag b)) d = b
flag_of v d = d

-- What the code relies on: a document that was built and serialized reads back as what it was.
pub record IsJson {Doc Obj : Type 0} (json : Json Doc Obj) : Type 0 where
  pub doc_of : Document → Doc
  pub obj_of : Object → Obj
  pub serialize_some : (d : Document) → json.serialize d ≢ []
  pub reads_back : (d : Document) → json.deserialize (json.serialize d) ≡ some (doc_of d)
  pub root_flat : (o : Object) → json.root (doc_of (flat o)) ≡ obj_of o
  pub objects_rows :
      (k : Text) (os : List Object) → json.objects k (doc_of (rows k os)) ≡ map obj_of os
  pub objects_with :
      (o : Object) (k : Text) (os : List Object)
      → json.objects k (doc_of (with_rows o k os)) ≡ map obj_of os
  pub str_with :
      (o : Object) (k : Text) (os : List Object) (j d : Text)
      → text_eq j k ≡ false
      → json.str_or (json.root (doc_of (with_rows o k os))) j d ≡ str_of (value_at o j) d
  pub str_read : (o : Object) (k d : Text) → json.str_or (obj_of o) k d ≡ str_of (value_at o k) d
  pub num_read :
      (o : Object) (k : Text) (d : ℕ) → json.num_or (obj_of o) k d ≡ num_of (value_at o k) d
  pub int_read :
      (o : Object) (k : Text) (d : ℤ) → json.int_or (obj_of o) k d ≡ int_of (value_at o k) d
  pub flag_read :
      (o : Object) (k : Text) (d : Bool) → json.flag_or (obj_of o) k d ≡ flag_of (value_at o k) d
