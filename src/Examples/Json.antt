-- ===== src/Examples/Json.antt =====
-- A concrete document format, with every text and list behind its length, and the stores on it.
use x4_printer.Prelude.{
  ℕ, zero, suc, ◌≡◌, ◌≢◌, refl, ap, ◌∙◌, Bool, true, false, Option, none, some, List, [], ◌∷◌, ◌++◌,
  map, length, take, drop, arith,
}
use x4_printer.Prelude.Text.{Text, codes}
use x4_printer.Table.{find}
use x4_printer.Store.Json.{
  Json, IsJson, Value, str, num, neg, flag, Object, Document, flat, rows, with_rows, value_at,
  str_of, num_of, int_of, flag_of,
}
use x4_printer.Store.Jobs.{JobIndex, approved_print}
use x4_printer.Store.Jobs.Persist.{job_index_text, load_job_index, load_job_index-roundtrip}
use x4_printer.Store.Outbox.{Outbox, print}
use x4_printer.Store.Planner.{TaskIndex, health}
use x4_printer.Pomodoro.{State, work, default_config}

abbrev put_text : Text → Text → Text
put_text t r = length t ∷ (t ++ r)

abbrev get_text : Text → Text × Text
get_text [] = ([], [])
get_text (n ∷ xs) = (take n xs, drop n xs)

text_back : (t r : Text) → get_text (put_text t r) ≡ (t, r)
text_back [] r = refl
text_back (c ∷ t) r = ap (λ x. (c ∷ x.0, x.1)) (text_back t r)

abbrev bit : Bool → ℕ
bit true = 1
bit false = 0

abbrev is_bit : ℕ → Bool
is_bit zero = false
is_bit (suc n) = true

abbrev put_value : Value → Text → Text
put_value (str t) r = 0 ∷ put_text t r
put_value (num n) r = 1 ∷ n ∷ r
put_value (flag b) r = 2 ∷ bit b ∷ r
put_value (neg n) r = 3 ∷ n ∷ r

abbrev get_value : Text → Value × Text
get_value (zero ∷ xs) = let (t, r) = get_text xs in (str t, r)
get_value (suc zero ∷ n ∷ xs) = (num n, xs)
get_value (suc (suc zero) ∷ b ∷ xs) = (flag (is_bit b), xs)
get_value (suc (suc (suc k)) ∷ n ∷ xs) = (neg n, xs)
get_value xs = (num 0, xs)

value_back : (v : Value) (r : Text) → get_value (put_value v r) ≡ (v, r)
value_back (str t) r = ap (λ x. (str x.0, x.1)) (text_back t r)
value_back (num n) r = refl
value_back (neg n) r = refl
value_back (flag true) r = refl
value_back (flag false) r = refl

abbrev put_fields : Object → Text → Text
put_fields [] r = r
put_fields ((k, v) ∷ o) r = put_text k (put_value v (put_fields o r))

abbrev get_fields : ℕ → Text → Object × Text
get_fields zero xs = ([], xs)
get_fields (suc n) xs =
    let (k, a) = get_text xs in
    let (v, b) = get_value a in let (o, c) = get_fields n b in ((k, v) ∷ o, c)

fields_back : (o : Object) (r : Text) → get_fields (length o) (put_fields o r) ≡ (o, r)
fields_back [] r = refl
fields_back ((k, v) ∷ o) r =
    ap
      (λ x. let (w, b) = get_value x.1 in let (p, c) = get_fields (length o) b in ((x.0, w) ∷ p, c))
      (text_back k (put_value v (put_fields o r)))
    ∙ ap (λ x. let (p, c) = get_fields (length o) x.1 in ((k, x.0) ∷ p, c))
        (value_back v (put_fields o r))
    ∙ ap (λ x. ((k, v) ∷ x.0, x.1)) (fields_back o r)

abbrev put_objects : List Object → Text → Text
put_objects [] r = r
put_objects (o ∷ os) r = length o ∷ put_fields o (put_objects os r)

abbrev get_object : Text → Object × Text
get_object [] = ([], [])
get_object (n ∷ xs) = get_fields n xs

abbrev get_objects : ℕ → Text → List Object × Text
get_objects zero xs = ([], xs)
get_objects (suc n) xs = let (o, a) = get_object xs in let (os, b) = get_objects n a in (o ∷ os, b)

objects_back : (os : List Object) (r : Text) → get_objects (length os) (put_objects os r) ≡ (os, r)
objects_back [] r = refl
objects_back (o ∷ os) r =
    ap (λ x. let (ps, b) = get_objects (length os) x.1 in (x.0 ∷ ps, b))
      (fields_back o (put_objects os r))
    ∙ ap (λ x. (o ∷ x.0, x.1)) (objects_back os r)

abbrev write : Document → Text
write (flat o) = 0 ∷ length o ∷ put_fields o []
write (rows k os) = 1 ∷ put_text k (length os ∷ put_objects os [])
write (with_rows o k os) = 2 ∷ length o ∷ put_fields o (put_text k (length os ∷ put_objects os []))

abbrev read_rows : Text → Text → Document
read_rows k [] = rows k []
read_rows k (n ∷ xs) = rows k (get_objects n xs).0

abbrev read_with : Object → Text → Text → Document
read_with o k [] = with_rows o k []
read_with o k (n ∷ xs) = with_rows o k (get_objects n xs).0

abbrev read : Text → Option Document
read [] = none
read (zero ∷ xs) = some (flat (get_object xs).0)
read (suc zero ∷ xs) = let (k, r) = get_text xs in some (read_rows k r)
read (suc (suc n) ∷ xs) =
    let (o, r) = get_object xs in let (k, s) = get_text r in some (read_with o k s)

read_back : (d : Document) → read (write d) ≡ some d
read_back (flat o) = ap (λ x. some (flat x.0)) (fields_back o [])
read_back (rows k os) =
    ap (λ x. some (read_rows x.0 x.1)) (text_back k (length os ∷ put_objects os []))
    ∙ ap (λ x. some (rows k x.0)) (objects_back os [])
read_back (with_rows o k os) =
    ap (λ x. let (j, s) = get_text x.1 in some (read_with x.0 j s))
      (fields_back o (put_text k (length os ∷ put_objects os [])))
    ∙ ap (λ x. some (read_with o x.0 x.1)) (text_back k (length os ∷ put_objects os []))
    ∙ ap (λ x. some (with_rows o k x.0)) (objects_back os [])

abbrev root_of : Document → Object
root_of (flat o) = o
root_of (rows k os) = []
root_of (with_rows o k os) = o

abbrev rows_of : Document → List Object
rows_of (flat o) = []
rows_of (rows k os) = os
rows_of (with_rows o k os) = os

abbrev pub json : Json Document Object
json = record {
  serialize = write;
  deserialize = read;
  root = root_of;
  objects = λ k d. rows_of d;
  str_or = λ o k d. str_of (value_at o k) d;
  num_or = λ o k d. num_of (value_at o k) d;
  int_or = λ o k d. int_of (value_at o k) d;
  flag_or = λ o k d. flag_of (value_at o k) d;
}

write_some : (d : Document) → write d ≢ []
write_some (flat o) e = cc
write_some (rows k os) e = cc
write_some (with_rows o k os) e = cc

map_same : (os : List Object) → os ≡ map (λ o. o) os
map_same [] = refl
map_same (o ∷ os) = ap (λ t. o ∷ t) (map_same os)

pub json-IsJson : IsJson json
json-IsJson = record {
  doc_of = λ d. d;
  obj_of = λ o. o;
  serialize_some = write_some;
  reads_back = read_back;
  root_flat = λ o. refl;
  objects_rows = λ k os. map_same os;
  objects_with = λ o k os. map_same os;
  str_with = λ o k os j d h. refl;
  str_read = λ o k d. refl;
  num_read = λ o k d. refl;
  int_read = λ o k d. refl;
  flag_read = λ o k d. refl;
}

abbrev session : State
session = record {
  phase = work;
  phase_start = 1000;
  phase_end = 2500;
  completed_work_sessions = 2;
  config = default_config;
}

abbrev late_session : State
late_session = record session { phase_start = 2147483000; phase_end = 2147484500 }

abbrev approvals : Outbox
approvals =
    record {
      approval_id = codes "a1";
      job_id = codes "j1";
      action = print;
      created_at = 8;
      synced = false;
    }
    ∷ []

abbrev tasks : TaskIndex
tasks =
    record {
      id = codes "1";
      title = codes "Walk";
      category = health;
      start_time = codes "09:00";
      end_time = codes "10:00";
      done = false;
    }
    ∷ []

abbrev inbox : JobIndex
inbox =
    record {
      job_id = codes "j1";
      title = codes "Mail";
      xtc_path = codes "/inbox/j1.xtc";
      xtc_bytes = 52618;
      xtc_sha256 = codes "ab";
      page_count = 2;
      created_at = 1700000000;
      status = approved_print;
      landscape_xtc_path = [];
      landscape_xtc_bytes = 0;
      landscape_xtc_sha256 = [];
      landscape_page_count = 0;
      original_pending = true;
      original_path = codes "/inbox/j1.jpg";
      original_mime = codes "image/jpeg";
      original_bytes = 9000;
    }
    ∷ []

load_job_index-roundtrip_example :
    load_job_index json (some (job_index_text json inbox)) ≡ (true, inbox)
unfolding find
load_job_index-roundtrip_example =
    load_job_index-roundtrip json json-IsJson inbox
      (
        record {
          id_some = refl;
          status_named = omega arith;
          named = refl;
          job_id_fits = omega arith;
          title_fits = omega arith;
          xtc_path_fits = omega arith;
          xtc_bytes_fits = omega arith;
          xtc_sha256_fits = omega arith;
          page_count_fits = omega arith;
          created_at_fits = omega arith;
          landscape_xtc_path_fits = omega arith;
          landscape_xtc_bytes_fits = omega arith;
          landscape_xtc_sha256_fits = omega arith;
          landscape_page_count_fits = omega arith;
          original_path_fits = omega arith;
          original_mime_fits = omega arith;
          original_bytes_fits = omega arith;
        },
        tt,
      )
      (refl, tt) (omega arith)
