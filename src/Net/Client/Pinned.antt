-- ===== src/Net/Client/Pinned.antt =====
-- What a request to the Pi may be sent on: a connection that trusts the certificate of the Pi.
use x4_printer.Prelude.{
  ℕ, ◌≡◌, ◌≢◌, ◌⊎◌, inl, inr, refl, ap, Bool, Bool-cases, Option-cases, Option, List, [], ◌∷◌,
  length, arith,
}
use x4_printer.Prelude.Text.{Text, codes}
use x4_printer.Store.Card.{SdCard}
use x4_printer.Store.Json.{Json}
use x4_printer.Store.Outbox.{ApprovalEntry}
use x4_printer.Config.Device.{DeviceConfigData}
use x4_printer.Calendar.Ics.Strings.{is_empty}
use x4_printer.Sync.Requests.{pi, Variant, JobManifest, ApprovalSubmitResult}
use x4_printer.Sync.Config.{DeviceConfigManifest}
use x4_printer.Net.Http.{
  Http, Device, Request, Trust, pinned, Answer, ask, load_ca_cert, cached, configure_client,
  with_trust, with_answer, refuse_empty, endpoint_configured,
}
use x4_printer.Net.Client.{
  status_check, fetch_pending_jobs, fetch_device_config, ack_job, upload_original, submit_approval,
}
use x4_printer.Net.Client.Download.{PartFile, download_job_to_sd}

module _ {C : Type 0} (card : SdCard C) where
  -- The certificate of the Pi, kept or on the card, which is not empty.
  abbrev pub IsPiCa : Device C → Text → Type 0
  IsPiCa d ca =
      (ca ≢ []) × ((ca ≡ d.pi_ca) ⊎ (ca ≡ load_ca_cert card (codes "/system/pi_ca.pem") d.world))

  -- Two networks that agree on each request whose connection trusts that certificate. On any other
  -- request they may differ.
  abbrev pub AgreeOnPinned : Device C → Http C → Http C → Type 0
  AgreeOnPinned d http http' =
      (r : Request) (ca : Text) (c : C)
      → r.trust ≡ pinned ca
      → IsPiCa d ca
      → http.send r c ≡ http'.send r c

  cached-cases :
      (d : Device C)
      → let path = codes "/system/pi_ca.pem" in
        let ca = cached card d.pi_ca path d.world in
        (ca ≡ d.pi_ca) ⊎ (ca ≡ load_ca_cert card path d.world)
  cached-cases d = elim (Bool-cases (is_empty d.pi_ca)) [
    | inl missing ↦ inr (rw missing refl)
    | inr kept ↦ inl (rw kept refl)
  ]

module _ {C : Type 0} (card : SdCard C) (http http' : Http C) (cfg : DeviceConfigData)
    (d : Device C) (agree : AgreeOnPinned card d http http') where
  trust-agrees :
      {A : Type 0} (fail : A) (request : Trust → Request) (k : Answer → Device C → A × Device C)
      (ca : Text)
      → ((trust : Trust) → (request trust).trust ≡ trust)
      → (ca ≡ d.pi_ca) ⊎ (ca ≡ load_ca_cert card (codes "/system/pi_ca.pem") d.world)
      → with_trust card http cfg fail request k (refuse_empty card ca, record d { pi_ca = ca })
        ≡ with_trust card http' cfg fail request k (refuse_empty card ca, record d { pi_ca = ca })
  trust-agrees fail request k [] on known = refl
  trust-agrees fail request k (x ∷ xs) on known =
      let d' : Device C = record d { pi_ca = x ∷ xs } in
      ap (with_answer fail k d') (
        agree (request (pinned (x ∷ xs))) (x ∷ xs) d.world (on (pinned (x ∷ xs)))
          ((λ e. absurd (omega (arith, ap length e))), known))

  ask-agrees :
      {A : Type 0} (fail : A) (request : Trust → Request) (k : Answer → Device C → A × Device C)
      → ((trust : Trust) → (request trust).trust ≡ trust)
      → ask card http cfg pi fail request k d ≡ ask card http' cfg pi fail request k d
  unfolding ask configure_client
  ask-agrees fail request k on = elim (Bool-cases (endpoint_configured cfg pi)) [
    | inl up ↦ rw up (
        trust-agrees fail request k (cached card d.pi_ca (codes "/system/pi_ca.pem") d.world) on
          (cached-cases card d))
    | inr down ↦ rw down refl
  ]

-- A request of SyncClient to the Pi.
pub data PiRequest : Type 0 where
  status config : PiRequest
  jobs : ℕ → PiRequest
  download : Text → Text → Text → ℕ → Variant → PiRequest
  ack : Text → Text → Option Text → PiRequest
  upload : Text → Text → Text → Text → ℕ → PiRequest
  submit : ApprovalEntry → PiRequest

-- What it answers, of whatever type.
abbrev pub Result : PiRequest → Type 0
Result status = Bool
Result (jobs n) = List JobManifest
Result config = Option DeviceConfigManifest
Result (download i p h n v) = Bool
Result (ack i h l) = Bool
Result (upload i p m t n) = Bool
Result (submit e) = ApprovalSubmitResult

module _ {C Doc Obj : Type 0} (card : SdCard C) (file : PartFile C) (sha256 : List ℕ → List ℕ)
    (json : Json Doc Obj) (cfg : DeviceConfigData) where
  unfoldable pub perform : Http C → (q : PiRequest) → Device C → Result q × Device C
  perform http status = status_check card json http cfg pi
  perform http (jobs n) = fetch_pending_jobs card json http cfg n
  perform http config = fetch_device_config card json http cfg
  perform http (download i p h n v) = download_job_to_sd card file sha256 http cfg i p h n v
  perform http (ack i h l) = ack_job card json http cfg i h l
  perform http (upload i p m t n) = upload_original card json http cfg i p m t n
  perform http (submit e) = submit_approval card json http cfg e pi

  -- No request to the Pi is sent without the pinned certificate: its answer and the device afterwards
  -- depend only on what the network does with requests whose connection trusts the certificate of the
  -- Pi, kept or on the card, which is not empty. In particular nothing is sent where there is none.
  pub perform-IsPinned :
      (http http' : Http C) (q : PiRequest) (d : Device C)
      → AgreeOnPinned card d http http'
      → perform http q d ≡ perform http' q d
  unfolding perform status_check fetch_pending_jobs fetch_device_config download_job_to_sd ack_job
      upload_original submit_approval
  perform-IsPinned http http' status d agree =
      ask-agrees card http http' cfg d agree _ _ _ (λ trust. refl)
  perform-IsPinned http http' config d agree =
      ask-agrees card http http' cfg d agree _ _ _ (λ trust. refl)
  perform-IsPinned http http' (jobs n) d agree =
      ask-agrees card http http' cfg d agree _ _ _ (λ trust. refl)
  perform-IsPinned http http' (download i p h n v) d agree =
      ask-agrees card http http' cfg d agree _ _ _ (λ trust. refl)
  perform-IsPinned http http' (ack i h l) d agree =
      ask-agrees card http http' cfg d agree _ _ _ (λ trust. refl)
  perform-IsPinned http http' (upload i p m t n) d agree =
      elim (Option-cases (card.content d.world p)) [
        | inl absent ↦ rw absent refl
        | inr (content, there) ↦
            rw there (ask-agrees card http http' cfg d agree _ _ _ (λ trust. refl))
      ]
  perform-IsPinned http http' (submit e) d agree =
      ask-agrees card http http' cfg d agree _ _ _ (λ trust. refl)
