-- ===== src/Examples/Web.antt =====
-- The server on the device: an upload of two chunks, one without a session, and one to a full inbox.
use x4_printer.Prelude.{
  ℕ, ◌≡◌, ◌≢◌, ◌⊎◌, refl, true, false, Option, none, some, List, [], ◌∷◌, take, drop, replicate,
}
use x4_printer.Prelude.Text.{Text, codes}
use x4_printer.Store.Jobs
use x4_printer.Store.Jobs.{JobEntry}
use x4_printer.Config.Device.{no_config}
use x4_printer.Config.Cache.{no_info}
use x4_printer.Calendar.Ics.Strings.{find_text}
use x4_printer.Xtc.Reader.{File}
use x4_printer.Ui.Web.{
  Response, unauthorized, Upload, WebRequest, Server, station, request_has_valid_session,
}
use x4_printer.Ui.Web.UploadXtc.{upload_xtc}
use x4_printer.Ui.Web.UploadXtc.Refused.{upload_xtc-without_session, upload_xtc-loses_file}
use x4_printer.Ui.Web.UploadXtc.Accepted.{HasJob, upload_xtc-IsUploaded}
use x4_printer.Examples.Files.{good_file}
use x4_printer.Examples.Json.{json}
use x4_printer.Examples.Net.{file}
use x4_printer.Examples.Stores.{Files, card, card-IsSdCard}

abbrev open_file : Files → Text → Option File
open_file c p = some (λ offset n. some (take n (drop offset good_file)))

abbrev no_upload : Upload
no_upload = record {
  authorized = false;
  too_large = false;
  error = [];
  file_open = false;
  job_id = [];
  path = [];
  mime = [];
  bytes = 0;
}

abbrev server : Server Files
server = record {
  jobs = [];
  outbox = [];
  tasks = [];
  config = no_config;
  event = no_info;
  mode = station;
  activity = false;
  pin = codes "123456";
  session_token = codes "abc";
  xtc = no_upload;
  original = no_upload;
  card = λ p. none;
}

abbrev request : WebRequest
request = record {
  cookie = some (codes "session=abc");
  arg = λ name. [];
  now = 7;
  random_hex = codes "f00d";
}

abbrev chunks : List (List ℕ)
chunks = take 60 good_file ∷ drop 60 good_file ∷ []

abbrev uploaded : Response × Server Files
uploaded = upload_xtc card json open_file file request chunks server

upload_xtc-IsUploaded_example :
    HasJob (codes "f00d") chunks uploaded ⊎ ((uploaded.0.code ≢ 200) × (uploaded.1.jobs ≡ []))
upload_xtc-IsUploaded_example = upload_xtc-IsUploaded card json open_file file request chunks server

abbrev stranger : WebRequest
stranger = record request { cookie = some (codes "session=xyz") }

abbrev turned_away : Response × Server Files
turned_away = upload_xtc card json open_file file stranger chunks server

upload_xtc-without_session_example :
    (turned_away.0 ≡ unauthorized)
    × (turned_away.1 ≡ record server { activity = true; xtc = turned_away.1.xtc })
    × (turned_away.1.xtc.authorized ≡ false)
unfolding request_has_valid_session find_text
upload_xtc-without_session_example =
    upload_xtc-without_session card json open_file file stranger chunks server refl

abbrev old_path : Text
old_path = codes "/inbox/beef.xtc"

abbrev job : JobEntry
job = record {
  job_id = codes "beef";
  title = codes "Untitled";
  xtc_path = old_path;
  xtc_bytes = 95;
  xtc_sha256 = [];
  page_count = 1;
  created_at = 3;
  status = Jobs.downloaded;
  landscape_xtc_path = [];
  landscape_xtc_bytes = 0;
  landscape_xtc_sha256 = [];
  landscape_page_count = 0;
  original_pending = false;
  original_path = [];
  original_mime = [];
  original_bytes = 0;
}

-- The last of its jobs came by upload.
abbrev full_server : Server Files
full_server = record server {
  jobs = replicate 64 job;
  xtc = record no_upload { authorized = true; job_id = codes "beef"; path = old_path; bytes = 95 };
  card = λ p. some good_file;
}

abbrev sent_away : Response × Server Files
sent_away = upload_xtc card json open_file file request chunks full_server

upload_xtc-loses_file_example :
    (sent_away.0.code ≡ 409)
    × (sent_away.1.jobs ≡ replicate 64 job)
    × (sent_away.1.card old_path ≡ none)
unfolding request_has_valid_session find_text
upload_xtc-loses_file_example =
    upload_xtc-loses_file card json open_file file request card-IsSdCard chunks full_server refl
      refl refl
