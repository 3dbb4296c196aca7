-- ===== src/Ui/Web.antt =====
-- firmware/src/ui/WebUiServer: the server on the device, from `attach` on, so that its pointers are not
-- null. What a handler reads of a request is a record: the cookie, the arguments, the time and the
-- identifier that `randomHex` gives. The pages that are embedded in the firmware are named.
pub mod Objects
pub mod Pages
pub mod UploadXtc
pub mod UploadOriginal
use x4_printer.Prelude.{
  ℕ, ◌%◌, ◌/◌, ◌+◌, ◌^◌, Bool, true, false, not, ◌&&◌, Option, none, some, List, [], ◌∷◌, ◌++◌,
  get_or, length, if◌then◌else◌,
}
use x4_printer.Prelude.Text.{Text, codes, text_eq}
use x4_printer.Store.Jobs.{JobIndex}
use x4_printer.Store.Outbox.{Outbox}
use x4_printer.Store.Planner.{TaskIndex}
use x4_printer.Config.Device.{DeviceConfigData}
use x4_printer.Calendar.Wake.{NextEventInfo}
use x4_printer.Calendar.Ics.Strings.{find_text, is_empty}

pub data WebUiMode : Type 0 where
  off station hotspot : WebUiMode

pub data Page : Type 0 where
  login_page job_list_page planner_page wrong_pin_page : Page
  decoder_wasm decoder_js encoder_wasm encoder_js : Page

pub data Content : Type 0 where
  page : Page → Content
  text : Text → Content
  bytes : List ℕ → Content

pub record Response : Type 0 where
  pub code : ℕ
  pub location : Option Text
  pub set_cookie : Option Text
  pub content : Content

pub record WebRequest : Type 0 where
  pub cookie : Option Text
  pub arg : Text → Text
  pub now : ℕ
  pub random_hex : Text

-- The members that the handlers of one upload route share. An error of no text is the null pointer.
pub record Upload : Type 0 where
  pub authorized : Bool
  pub too_large : Bool
  pub error : Text
  pub file_open : Bool
  pub job_id : Text
  pub path : Text
  pub mime : Text
  pub bytes : ℕ

pub record Server (C : Type 0) : Type 0 where
  pub jobs : JobIndex
  pub outbox : Outbox
  pub tasks : TaskIndex
  pub config : DeviceConfigData
  pub event : NextEventInfo
  pub mode : WebUiMode
  pub activity : Bool
  pub pin : Text
  pub session_token : Text
  pub xtc : Upload
  pub original : Upload
  pub card : C

abbrev pub reply : ℕ → Content → Response
reply code content = record { code = code; location = none; set_cookie = none; content = content }

abbrev pub has_cookie : Text → Option Text → Bool
has_cookie token none = false
has_cookie token (some cookie) = elim (find_text (codes "session=" ++ token) cookie) [
  | none ↦ false
  | some parts ↦ true
]

unfoldable pub request_has_valid_session : {C : Type 0} → WebRequest → Server C → Bool
request_has_valid_session r s =
    not (is_empty s.session_token) && has_cookie s.session_token r.cookie

abbrev pub unauthorized : Response
unauthorized = reply 401 (text (codes "{\"error\":\"unauthorized\"}"))

-- A handler that begins with the test of the session.
abbrev pub with_session :
    {C : Type 0}
    → (WebRequest → Server C → Response × Server C)
    → WebRequest
    → Server C
    → Response × Server C
with_session handler r s =
    if not (request_has_valid_session r s) then (unauthorized, s) else handler r s

-- `randomPin`: six decimal digits.
abbrev pub digit : ℕ → ℕ
digit n = b'0' + n % 10

unfoldable pub random_pin : ℕ → Text
random_pin word =
    let v = word % 1000000 in
    digit (v / 100000)
    ∷ digit (v / 10000)
    ∷ digit (v / 1000)
    ∷ digit (v / 100)
    ∷ digit (v / 10)
    ∷ digit v
    ∷ []

-- `randomPassword`, on the words of the hardware generator.
unfoldable pub random_password : List ℕ → Text
random_password [] = []
random_password (word ∷ words) =
    let charset = codes "23456789ABCDEFGHJKMNPQRSTUVWXYZ" in
    get_or charset (word % length charset) 0 ∷ random_password words

module _ {C : Type 0} where
  abbrev pub generate_session_secrets : ℕ → Text → Server C → Server C
  generate_session_secrets word token s = record s { pin = random_pin word; session_token = token }

  abbrev pub mark_activity : Server C → Server C
  mark_activity s = record s { activity = true }

  unfoldable pub consume_activity_flag : Server C → Bool × Server C
  consume_activity_flag s = (s.activity, record s { activity = false })

  -- `stop`, without the radio and the texts that the screen shows; the secrets are gone.
  unfoldable pub stop : Server C → Server C
  stop s = elim s.mode [
    | off ↦ s
    | station ↦ record s { mode = off; pin = []; session_token = [] }
    | hotspot ↦ record s { mode = off; pin = []; session_token = [] }
  ]

  unfoldable pub handle_login : WebRequest → Server C → Response × Server C
  handle_login r s =
      if not (text_eq (r.arg (codes "pin")) s.pin) then (reply 401 (page wrong_pin_page), s) else (
        record (reply 303 (text [])) {
          location = some (codes "/");
          set_cookie = some (codes "session=" ++ (s.session_token ++ codes "; Path=/; HttpOnly"));
        },
        s,
      )
