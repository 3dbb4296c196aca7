-- ===== src/Net/Client.antt =====
-- firmware/src/net/SyncClient.cpp: the requests. A manifest is `take`n from an array that the caller
-- has cleared. The stream of a response's body and the card's files are parameters.
pub mod Download
pub mod Pinned
use x4_printer.Prelude.{
  ℕ, suc, zero, ◌%◌, ◌^◌, Bool, true, false, ◌&&◌, ◌||◌, Option, none, some, List, [], ◌∷◌, ◌++◌,
  take, map, leb, length, if◌then◌else◌,
}
use x4_printer.Prelude.Text.{Text, codes, text_eq}
use x4_printer.Table.{id_len}
use x4_printer.Store.Card.{SdCard}
use x4_printer.Store.Json.{Json, Object, str, num, flat}
use x4_printer.Store.Jobs.{title_len, sha256_len}
use x4_printer.Store.Outbox.{ApprovalEntry, approval_action_name}
use x4_printer.Config.Device.{DeviceConfigData}
use x4_printer.Config.Calendars.{add_feeds}
use x4_printer.Config.Wifi.{WifiCredential, Networks, max_wifi_networks, max_password_len}
use x4_printer.Sync.Config.{DeviceConfigManifest}
use x4_printer.Sync.Requests.{
  Client, Endpoint, pi, relay, JobManifest, ApprovalSubmitResult, Variant, normal, landscape,
}
use x4_printer.Net.Client.Download.{PartFile, download_job_to_sd}
use x4_printer.Net.Http.{
  Http, Device, Request, get, post, post_file, Answer, Trust, ask, is_code, pi_headers,
  relay_headers, device_url, account_url, url_encode, pi_configured,
}

abbrev pub nothing_submitted : ApprovalSubmitResult
nothing_submitted = record { network_ok = false; applied = false; already_applied = false }

-- What the status text of the response makes of the result.
unfoldable pub submit_result : Text → ApprovalSubmitResult
submit_result status =
    if text_eq status (codes "applied") || text_eq status (codes "queued")
    then record { network_ok = true; applied = true; already_applied = false }
    else if text_eq status (codes "already_applied")
    then record { network_ok = true; applied = true; already_applied = true }
    else record {
      network_ok = true;
      applied = text_eq status (codes "superseded");
      already_applied = false;
    }

-- What is read from the answers.
module _ {Doc Obj : Type 0} (json : Json Doc Obj) where
  unfoldable pub manifest_of : Obj → JobManifest
  manifest_of job = record {
    job_id = take id_len (json.str_or job (codes "job_id") []);
    title = take title_len (json.str_or job (codes "title") []);
    created_at = json.num_or job (codes "created_at") 0;
    xtc_bytes = json.num_or job (codes "xtc_bytes") 0;
    xtc_sha256 = take sha256_len (json.str_or job (codes "xtc_sha256") []);
    page_count = json.num_or job (codes "page_count") 0 % 2 ^ 16;
    landscape_xtc_bytes = json.num_or job (codes "landscape_xtc_bytes") 0;
    landscape_xtc_sha256 = take sha256_len (json.str_or job (codes "landscape_xtc_sha256") []);
    landscape_page_count = json.num_or job (codes "landscape_page_count") 0 % 2 ^ 16;
  }

  -- The document of a response with the code 200.
  unfoldable pub document_of : Answer → Option Doc
  document_of a = if is_code 200 a then json.deserialize a.body else none

  abbrev pub manifests_in : ℕ → Option Doc → List JobManifest
  manifests_in n none = []
  manifests_in n (some doc) = take n (map manifest_of (json.objects (codes "jobs") doc))

  -- One round of the loop over `wifi_networks`.
  unfoldable pub add_network : Obj → Networks → Networks
  add_network net done =
      let ssid = json.str_or net (codes "ssid") [] in
      if text_eq ssid []
      then done
      else done
        ++ record {
          ssid = take id_len ssid;
          password = take max_password_len (json.str_or net (codes "password") []);
        }
          ∷ []

  unfoldable pub add_networks : List Obj → Networks → Networks
  unfolding add_network
  add_networks [] done = done
  add_networks (net ∷ nets) done =
      if leb max_wifi_networks (length done) then done else add_networks nets (add_network net done)

  abbrev config_in : Option Doc → Option DeviceConfigManifest
  config_in none = none
  config_in (some doc) = some record {
    calendars = add_feeds json (json.objects (codes "calendars") doc) [];
    wifi_networks = add_networks (json.objects (codes "wifi_networks") doc) [];
  }

  abbrev result_in : Option Doc → ApprovalSubmitResult
  result_in none = record nothing_submitted { network_ok = true }
  result_in (some doc) = submit_result (json.str_or (json.root doc) (codes "status") [])

  abbrev result_of : {C : Type 0} → Answer → Device C → ApprovalSubmitResult × Device C
  result_of a d =
      (if is_code 200 a then result_in (json.deserialize a.body) else nothing_submitted, d)

module _ {C Doc Obj : Type 0} (card : SdCard C) (json : Json Doc Obj) (http : Http C)
    (cfg : DeviceConfigData) where
  abbrev is_ok : Answer → Device C → Bool × Device C
  is_ok a d = (is_code 200 a, d)

  unfoldable pub status_check : Endpoint → Device C → Bool × Device C
  status_check pi =
      ask card http cfg pi false
        (λ trust. record {
          trust = trust;
          url = device_url cfg (codes "/status");
          headers = pi_headers cfg;
          body = get;
        })
        is_ok
  status_check relay =
      ask card http cfg relay false
        (λ trust. record {
          trust = trust;
          url = account_url cfg (codes "/approvals/pending");
          headers = relay_headers cfg;
          body = get;
        })
        is_ok

  -- The manifests that were written; none where the source answers -1.
  unfoldable pub fetch_pending_jobs : ℕ → Device C → List JobManifest × Device C
  unfolding document_of
  fetch_pending_jobs max_count =
      ask card http cfg pi []
        (λ trust. record {
          trust = trust;
          url = device_url cfg (codes "/jobs?status=pending");
          headers = pi_headers cfg;
          body = get;
        })
        (λ a d. (manifests_in json max_count (document_of json a), d))

  unfoldable pub fetch_device_config : Device C → Option DeviceConfigManifest × Device C
  unfolding add_networks document_of
  fetch_device_config =
      ask card http cfg pi none
        (λ trust. record {
          trust = trust;
          url = device_url cfg (codes "/config");
          headers = pi_headers cfg;
          body = get;
        })
        (λ a d. (config_in json (document_of json a), d))

  abbrev json_type : Text × Text
  json_type = (codes "Content-Type", codes "application/json")

  abbrev ack_object : Text → Option Text → Object
  ack_object sha256_hex none = (codes "sha256", str sha256_hex) ∷ []
  ack_object sha256_hex (some landscape_hex) =
      (codes "sha256", str sha256_hex) ∷ (codes "landscape_sha256", str landscape_hex) ∷ []

  abbrev job_url : Text → Text → Text
  job_url job_id rest = cfg.pi_base_url ++ (codes "/jobs/" ++ (job_id ++ rest))

  unfoldable pub ack_job : Text → Text → Option Text → Device C → Bool × Device C
  ack_job job_id sha256_hex landscape_hex =
      ask card http cfg pi false
        (λ trust. record {
          trust = trust;
          url = job_url job_id (codes "/ack");
          headers = pi_headers cfg ++ json_type ∷ [];
          body = post (json.serialize (flat (ack_object sha256_hex landscape_hex)));
        })
        is_ok

  -- The request of `uploadOriginal`; `none` is a file that does not open.
  abbrev upload_file : Text → Text → Text → ℕ → Option Text → Device C → Bool × Device C
  upload_file job_id mime title bytes none d = (false, d)
  upload_file job_id mime title bytes (some content) d =
      ask card http cfg pi false
        (λ trust. record {
          trust = trust;
          url =
              device_url cfg (codes "/jobs/" ++ (job_id ++ (codes "?title=" ++ url_encode title)));
          headers = pi_headers cfg ++ (codes "Content-Type", mime) ∷ [];
          body = post_file content bytes;
        })
        (λ a d. (is_code 200 a || is_code 201 a, d)) d

  unfoldable pub upload_original : Text → Text → Text → Text → ℕ → Device C → Bool × Device C
  upload_original job_id path mime title bytes d =
      upload_file job_id mime title bytes (card.content d.world path) d

  abbrev approval_object : ApprovalEntry → Object
  approval_object entry =
      (codes "approval_id", str entry.approval_id)
      ∷ (codes "device_id", str cfg.device_id)
      ∷ (codes "job_id", str entry.job_id)
      ∷ (codes "action", str (approval_action_name entry.action))
      ∷ (codes "created_at", num entry.created_at)
      ∷ []

  unfoldable pub submit_approval :
      ApprovalEntry → Endpoint → Device C → ApprovalSubmitResult × Device C
  unfolding submit_result
  submit_approval entry pi =
      ask card http cfg pi nothing_submitted
        (λ trust. record {
          trust = trust;
          url = cfg.pi_base_url ++ codes "/approvals";
          headers = json_type ∷ pi_headers cfg;
          body = post (json.serialize (flat (approval_object entry)));
        })
        (result_of json)
  submit_approval entry relay =
      ask card http cfg relay nothing_submitted
        (λ trust. record {
          trust = trust;
          url = account_url cfg (codes "/approvals");
          headers = json_type ∷ relay_headers cfg;
          body = post (json.serialize (flat (approval_object entry)));
        })
        (result_of json)

-- The requests that a sync makes, as its interface names them.
abbrev pub client_of :
    {C Doc Obj : Type 0}
    → SdCard C
    → PartFile C
    → (List ℕ → List ℕ)
    → Json Doc Obj
    → Http C
    → DeviceConfigData
    → Client (Device C)
client_of card file sha256 json http cfg = record {
  status_check = status_check card json http cfg;
  fetch_pending_jobs = fetch_pending_jobs card json http cfg;
  download_job_to_sd = download_job_to_sd card file sha256 http cfg;
  ack_job = ack_job card json http cfg;
  upload_original = upload_original card json http cfg;
  submit_approval = submit_approval card json http cfg;
}
