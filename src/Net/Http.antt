-- ===== src/Net/Http.antt =====
-- firmware/src/net/SyncClient.cpp: which certificate a connection trusts, and how a request is put
-- together. The HTTP client is a parameter: it takes a request and the state of the device and of the
-- network, and gives its answer, or `none` where `HTTPClient::begin` fails.
use x4_printer.Prelude.{
  ℕ, ◌/◌, ◌%◌, Bool, ◌&&◌, ◌||◌, not, Option, none, some, List, [], ◌∷◌, ◌++◌, leb, ◌==◌, get_or,
  if◌then◌else◌,
}
use x4_printer.Prelude.Int.{ℤ, pos, eq_ℤ}
use x4_printer.Prelude.Text.{Text, codes}
use x4_printer.Store.Card.{SdCard}
use x4_printer.Config.Device.{DeviceConfigData}
use x4_printer.Calendar.Ics.Strings.{is_empty, is_digit}
use x4_printer.Sync.Requests.{Endpoint, pi, relay}

-- What a connection trusts: one certificate, or any.
pub data Trust : Type 0 where
  pinned : Text → Trust
  insecure : Trust

pub data Body : Type 0 where
  get : Body
  post : Text → Body
  post_file : Text → ℕ → Body

pub record Request : Type 0 where
  pub trust : Trust
  pub url : Text
  pub headers : List (Text × Text)
  pub body : Body

-- One round of the loop that reads a body: nothing came for `kHttpTimeoutMs`, or `read` failed, or it
-- gave some bytes. The list ends where `http.connected()` is false.
pub data Read : Type 0 where
  timed_out failed : Read
  chunk : List ℕ → Read

pub record Answer : Type 0 where
  pub code : ℤ
  pub size : ℤ
  pub body : Text
  pub reads : List Read

pub record Http (C : Type 0) : Type 0 where
  pub send : Request → C → Option Answer × C

-- The two certificates that `configureClientForEndpoint` keeps from one call to the next, empty until
-- they are loaded, and the rest of the device.
pub record Device (C : Type 0) : Type 0 where
  pub pi_ca : Text
  pub relay_ca : Text
  pub world : C

abbrev text_or_empty : Option Text → Text
text_or_empty none = []
text_or_empty (some t) = t

module _ {C : Type 0} (card : SdCard C) where
  -- `loadCaCert`: the text, empty where the source answers false.
  unfoldable pub load_ca_cert : Text → C → Text
  load_ca_cert path c = if card.exists c path then text_or_empty (card.content c path) else []

  abbrev pub cached : Text → Text → C → Text
  cached ca path c = if is_empty ca then load_ca_cert path c else ca

  abbrev pub refuse_empty : Text → Option Trust
  refuse_empty ca = if is_empty ca then none else some (pinned ca)

  abbrev pub trust_any_if_empty : Text → Option Trust
  trust_any_if_empty ca = if is_empty ca then some insecure else some (pinned ca)

  -- `configureClientForEndpoint`; `none` is its `false`.
  unfoldable pub configure_client : Endpoint → Device C → Option Trust × Device C
  configure_client pi d =
      let ca = cached d.pi_ca (codes "/system/pi_ca.pem") d.world in
      (refuse_empty ca, record d { pi_ca = ca })
  configure_client relay d =
      let ca = cached d.relay_ca (codes "/system/relay_ca.pem") d.world in
      (trust_any_if_empty ca, record d { relay_ca = ca })

abbrev pub pi_configured : DeviceConfigData → Bool
pi_configured cfg = cfg.loaded && not (is_empty cfg.pi_base_url)

abbrev pub relay_configured : DeviceConfigData → Bool
relay_configured cfg = cfg.loaded && cfg.has_relay

abbrev pub endpoint_configured : DeviceConfigData → Endpoint → Bool
endpoint_configured cfg pi = pi_configured cfg
endpoint_configured cfg relay = relay_configured cfg

abbrev pub authorization : Text → Text × Text
authorization token = (codes "Authorization", codes "Bearer " ++ token)

abbrev pub pi_headers : DeviceConfigData → List (Text × Text)
pi_headers cfg = authorization cfg.device_token ∷ (codes "X-Device-Id", cfg.device_id) ∷ []

abbrev pub relay_headers : DeviceConfigData → List (Text × Text)
relay_headers cfg = authorization cfg.relay_account_token ∷ []

abbrev pub device_url : DeviceConfigData → Text → Text
device_url cfg rest = cfg.pi_base_url ++ (codes "/devices/" ++ (cfg.device_id ++ rest))

abbrev pub account_url : DeviceConfigData → Text → Text
account_url cfg rest = cfg.relay_base_url ++ (codes "/accounts/" ++ (cfg.relay_account_id ++ rest))

-- `std::isalnum` in the C locale.
abbrev pub is_alnum : ℕ → Bool
is_alnum c = is_digit c || (leb b'A' c && leb c b'Z') || (leb b'a' c && leb c b'z')

abbrev pub is_unreserved : ℕ → Bool
is_unreserved c = is_alnum c || c == b'-' || c == b'_' || c == b'.' || c == b'~'

abbrev pub hex_digit : Text → ℕ → ℕ
hex_digit digits n = get_or digits n 0

unfoldable pub url_encode : Text → Text
url_encode [] = []
url_encode (c ∷ s) =
    let rest = url_encode s in
    let hex = hex_digit (codes "0123456789ABCDEF") in
    if is_unreserved c then c ∷ rest else b'%' ∷ hex (c / 16 % 16) ∷ hex (c % 16) ∷ rest

-- `sha256HexOf`
unfoldable pub sha256_hex_of : List ℕ → Text
sha256_hex_of [] = []
sha256_hex_of (b ∷ digest) =
    let hex = hex_digit (codes "0123456789abcdef") in
    hex (b / 16 % 16) ∷ hex (b % 16) ∷ sha256_hex_of digest

abbrev pub is_code : ℕ → Answer → Bool
is_code n a = eq_ℤ (a.code) (pos n)

-- What is made of the answer; `fail` where `begin` fails.
abbrev pub with_answer :
    {C A : Type 0}
    → A
    → (Answer → Device C → A × Device C)
    → Device C
    → Option Answer × C
    → A × Device C
with_answer fail k d (none, c) = (fail, record d { world = c })
with_answer fail k d (some a, c) = k a (record d { world = c })

module _ {C : Type 0} (card : SdCard C) (http : Http C) (cfg : DeviceConfigData) where
  -- A request on a connection that trusts what it should, and what is made of the answer. `fail` is the
  -- result where no request is sent or `begin` fails.
  abbrev pub with_trust :
      {A : Type 0}
      → A
      → (Trust → Request)
      → (Answer → Device C → A × Device C)
      → Option Trust × Device C
      → A × Device C
  with_trust fail request k (none, d) = (fail, d)
  with_trust fail request k (some trust, d) =
      with_answer fail k d (http.send (request trust) d.world)

  unfoldable pub ask :
      {A : Type 0}
      → Endpoint
      → A
      → (Trust → Request)
      → (Answer → Device C → A × Device C)
      → Device C
      → A × Device C
  ask endpoint fail request k d =
      if endpoint_configured cfg endpoint
      then with_trust fail request k (configure_client card endpoint d)
      else (fail, d)
