-- ===== src/Registration.antt =====
-- packet_capture/registration/: registration_server.py, local_config.py and registration_client.py.
-- The loopback server is a function of the requests that it serves, and JSON is decoded.
pub mod Trust
use smart_ids.Base.{
  nat_eq, string_eq, ◌==◌, ℕ, Bool, true, false, ◌||◌, not, Option, none, some, List, [], ◌∷◌,
  String, if◌then◌else◌,
}
use smart_ids.Text.{strip, is_blank}
use smart_ids.Service.Settings.{split_once, rstrip_char}

-- What the dashboard posts. The identifier of the registration is `none` if it is not there or no text,
-- the engine and the secret are the `str` of the fields that are there, the URL is `none` if it is
-- not there or false, and the seconds are what `int` makes of the field, for a natural number.
pub record Credential : Type 0 where
  pub registration_id : Option String
  pub engine_id : Option String
  pub engine_secret : Option String
  pub backend_url : Option String
  pub heartbeat_interval_seconds : Option ℕ

-- What the server gets: a POST with its path and its body, if that is a JSON object, an OPTIONS, and
-- the end of the timer.
pub data Request : Type 0 where
  post : String → Option Credential → Request
  options : Request
  timed_out : Request

pub record RegistrationServer : Type 0 where
  pub registration_id : String
  pub result : Option Credential
  pub done : Bool
  pub shutdown_started : Bool

unfoldable pub new_server : String → RegistrationServer
new_server registration_id = record {
  registration_id = registration_id;
  result = none;
  done = false;
  shutdown_started = false;
}

-- `self.path.split("?", 1)[0].rstrip("/")`
unfoldable pub request_path : String → String
unfolding split_once rstrip_char
request_path path =
    let before : String = elim (split_once 63 path) [ none ↦ path | some (start, query) ↦ start ] in
    rstrip_char 47 before

abbrev pub names_id : Option String → String → Bool
names_id none registration_id = false
names_id (some id) registration_id = id == registration_id

-- `shutdown`, which does something once only.
unfoldable pub shutdown : RegistrationServer → RegistrationServer
shutdown server = record server { shutdown_started = true }

-- `do_POST`: the server and the status of the response.
unfoldable pub do_post : RegistrationServer → String → Option Credential → RegistrationServer × ℕ
unfolding request_path shutdown
do_post server path body =
    if not (request_path path == "/complete") then (server, 404) else elim body [
      | none ↦ (server, 403)
      | some payload ↦
          if names_id payload.registration_id server.registration_id
          then (shutdown (record server { result = some payload; done = true }), 200)
          else (server, 403)
    ]

-- `_on_timeout`
unfoldable pub on_timeout : RegistrationServer → RegistrationServer
unfolding shutdown
on_timeout server = if server.done then server else shutdown (record server { done = true })

unfoldable pub serve : RegistrationServer → Request → RegistrationServer
unfolding do_post on_timeout
serve server (post path body) = (do_post server path body).0
serve server options = server
serve server timed_out = on_timeout server

-- The requests that are served up to the end, one after the other.
unfoldable pub serve_all : RegistrationServer → List Request → RegistrationServer
unfolding serve
serve_all server [] = server
serve_all server (request ∷ requests) = serve_all (serve server request) requests

pub record SavedConfig : Type 0 where
  pub engine_id : String
  pub engine_secret : String
  pub backend_url : String
  pub heartbeat_interval_seconds : ℕ

-- The file: not there or no JSON, JSON that is no object, or an object with these fields.
pub data ConfigFile : Type 0 where
  unreadable no_object : ConfigFile
  object : Option String → Option String → Option String → Option ℕ → ConfigFile

-- `EngineLocalConfig.save`, the file that is left.
unfoldable pub save : SavedConfig → ConfigFile
save c =
    object (some c.engine_id) (some c.engine_secret) (some c.backend_url)
      (some c.heartbeat_interval_seconds)

-- `EngineLocalConfig.load`
unfoldable pub load : ConfigFile → Option SavedConfig
load unreadable = none
load no_object = none
load (object (some engine_id) (some engine_secret) (some backend_url) (some seconds)) =
    some (record {
      engine_id = engine_id;
      engine_secret = engine_secret;
      backend_url = backend_url;
      heartbeat_interval_seconds = seconds;
    })
load (object (some engine_id) (some engine_secret) (some backend_url) none) = none
load (object (some engine_id) (some engine_secret) none seconds) = none
load (object (some engine_id) none backend_url seconds) = none
load (object none engine_secret backend_url seconds) = none

-- `str(result.get(field, "")).strip()`
abbrev pub text_of : Option String → String
text_of none = ""
text_of (some text) = text

-- `result.get("backend_url") or fallback_backend_url`
abbrev pub url_or : Option String → String → String
url_or none fallback = fallback
url_or (some url) fallback = if url == "" then fallback else url

abbrev pub seconds_or_default : Option ℕ → ℕ
seconds_or_default none = 30
seconds_or_default (some seconds) = seconds

-- `_persist_result`: the file and what is returned.
unfoldable pub persist_result : ConfigFile → Credential → String → ConfigFile × Option SavedConfig
unfolding strip save load
persist_result file result fallback_backend_url =
    let engine_id = strip (text_of result.engine_id) in
    let engine_secret = strip (text_of result.engine_secret) in
    if engine_id == "" || engine_secret == ""
    then (file, none)
    else let saved = save (record {
      engine_id = engine_id;
      engine_secret = engine_secret;
      backend_url = strip (url_or result.backend_url fallback_backend_url);
      heartbeat_interval_seconds = seconds_or_default result.heartbeat_interval_seconds;
    }) in
      (saved, load saved)

-- `run_registration`: whether the server starts and the backend answers the first call, and what the
-- server then gets.
unfoldable pub run_registration :
    ConfigFile → String → String → Bool → Bool → List Request → ConfigFile × Option SavedConfig
unfolding new_server serve_all persist_result
run_registration file registration_id backend_url starts init_accepted requests =
    if not starts
    then (file, none)
    else if not init_accepted
    then (file, none)
    else elim (serve_all (new_server registration_id) requests).result [
      | none ↦ (file, none)
      | some result ↦ persist_result file result backend_url
    ]
