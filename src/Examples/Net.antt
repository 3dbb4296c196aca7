-- ===== src/Examples/Net.antt =====
-- A download of three bytes from a Pi whose certificate is known, and a request on two networks.
use x4_printer.Prelude.{
  ℕ, ◌≡◌, refl, sym, ap, subst, ◌∙◌, Bool, true, ◌++◌, Option, none, some, List, [], ◌∷◌, length,
  replicate, arith, All,
}
use x4_printer.Prelude.Int.{pos}
use x4_printer.Prelude.Text.{Text, codes}
use x4_printer.Config.Device.{DeviceConfigData, no_config}
use x4_printer.Sync.Requests.{normal}
use x4_printer.Net.Http.{Http, Device, Answer, Trust, pinned, insecure, chunk}
use x4_printer.Net.Client.Download.{PartFile, download_job_to_sd}
use x4_printer.Net.Client.Download.Hashed.{IsPartFile, IsHttp, IsRead}
use x4_printer.Net.Client.Download.Verified.{IsOutcome, download_job_to_sd-IsOutcome}
use x4_printer.Net.Client.Pinned.{status, perform, perform-IsPinned}
use x4_printer.Examples.Json.{json}
use x4_printer.Examples.Stores.{Files, put_file, card, put_file-same, put_file-else, card-IsSdCard}

abbrev or_empty : Option Text → Text
or_empty none = []
or_empty (some t) = t

abbrev pub file : PartFile Files
file = record {
  open_part = λ p c. (true, put_file c p (some []));
  write_part = λ p bs c. (length bs, put_file c p (some (or_empty (c p) ++ bs)));
}

file-IsPartFile : IsPartFile card file
file-IsPartFile = record {
  opened = λ p c e. put_file-same c p (some []);
  opened_else = λ p q c h. put_file-else c p q (some []) h;
  written = λ p old bs c h e.
      put_file-same c p (some (or_empty (c p) ++ bs)) ∙ ap (λ o. some (or_empty o ++ bs)) h;
  written_else = λ p q bs c h. put_file-else c p q (some (or_empty (c p) ++ bs)) h;
}

abbrev answer : Answer
answer = record { code = pos 200; size = pos 3; body = []; reads = chunk (7 ∷ 8 ∷ 9 ∷ []) ∷ [] }

abbrev http : Http Files
http = record { send = λ r c. (some answer, c) }

abbrev ReadsOf : Option Answer → Type 0
ReadsOf none = Unit
ReadsOf (some a) = All IsRead a.reads

http-IsHttp : IsHttp card http
http-IsHttp = record {
  files = λ r c p. refl;
  in_reads = λ r c a e. subst ReadsOf e (omega arith, tt);
}

abbrev paired : DeviceConfigData
paired = record no_config {
  loaded = true;
  device_id = codes "x4";
  pi_base_url = codes "https://pi";
}

abbrev device : Device Files
device = record { pi_ca = codes "pem"; relay_ca = []; world = λ p. none }

abbrev digest : List ℕ → List ℕ
digest bs = replicate 32 (length bs)

abbrev outcome : Bool × Device Files
outcome =
    download_job_to_sd card file digest http paired (codes "j1") (codes "/inbox/j1.xtc")
      (codes "03") 3 normal device

download_job_to_sd-IsOutcome_example :
    IsOutcome card digest
      (codes "/inbox/j1.xtc")
      (codes "03")
      3
      device.world
      (outcome.0, outcome.1.world)
download_job_to_sd-IsOutcome_example =
    download_job_to_sd-IsOutcome card card-IsSdCard file file-IsPartFile digest http paired
      (codes "/inbox/j1.xtc") (codes "03") 3 (omega arith) http-IsHttp (codes "j1") normal device

-- A network that answers only where a certificate is pinned.
abbrev picky_answer : Trust → Option Answer
picky_answer (pinned ca) = some answer
picky_answer insecure = none

abbrev picky : Http Files
picky = record { send = λ r c. (picky_answer r.trust, c) }

perform-IsPinned_example :
    perform card file digest json paired http status device
    ≡ perform card file digest json paired picky status device
perform-IsPinned_example =
    perform-IsPinned card file digest json paired http picky status device
      (λ r ca c on known. ap (λ trust. (picky_answer trust, c)) (sym on))
