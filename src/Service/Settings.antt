-- ===== src/Service/Settings.antt =====
-- packet_capture/sniffer_service.py: what the service reads from the environment and from `.env`, and
-- what it chooses by it. `getenv` reads the environment, a dictionary; `lower` is `str.lower`.
pub mod Environment
use Prim.Native.Char.{code}
use Prim.Native.String
use smart_ids.Base.{
  nat_eq, string_eq, ◌==◌, ℕ, Bool, true, false, ◌&&◌, ◌||◌, not, Option, none, some, List, [], ◌∷◌,
  ◌++◌, String, if◌then◌else◌,
}
use smart_ids.Text.{strip, is_blank}
use smart_ids.Dict.{Dict, get, get_or, put, contains, keys}

-- `key, value = line.split(c, 1)`, if the character is there.
unfoldable pub split_once : ℕ → String → Option (String × String)
split_once sep String.[] = none
split_once sep (String.◌∷◌ c s) =
    let rest = split_once sep s in
    if code c == sep
    then some (String.[], s)
    else elim rest [ none ↦ none | some (key, value) ↦ some (String.◌∷◌ c key, value) ]

-- `s.lstrip(c)`, `s.rstrip(c)` and `s.strip(c)` for one character.
unfoldable pub lstrip_char : ℕ → String → String
lstrip_char sep String.[] = String.[]
lstrip_char sep (String.◌∷◌ c s) =
    let rest = lstrip_char sep s in if code c == sep then rest else String.◌∷◌ c s

unfoldable pub rstrip_char : ℕ → String → String
rstrip_char sep String.[] = String.[]
rstrip_char sep (String.◌∷◌ c s) =
    let rest = rstrip_char sep s in
    if code c == sep && is_blank rest then String.[] else String.◌∷◌ c rest

abbrev pub strip_char : ℕ → String → String
strip_char sep s = rstrip_char sep (lstrip_char sep s)

-- `line.startswith("#")`
abbrev pub is_comment : String → Bool
is_comment String.[] = false
is_comment (String.◌∷◌ c s) = code c == 35

-- What a line of `.env` sets, if it does: its key and its value, without quotes.
unfoldable pub setting_of : String → Option (String × String)
unfolding strip split_once lstrip_char rstrip_char
setting_of raw_line =
    let line = strip raw_line in
    if is_blank line || is_comment line then none else elim (split_once 61 line) [
      | none ↦ none
      | some (key, value) ↦
          let name = strip key in
          if is_blank name then none else some (name, strip_char 39 (strip_char 34 (strip value)))
    ]

abbrev pub set_default : Dict String String → Option (String × String) → Dict String String
set_default environ none = environ
set_default environ (some (key, value)) =
    if contains key (keys environ) then environ else put environ key value

-- `_load_project_env`, where the file has these lines.
unfoldable pub load_project_env : Dict String String → List String → Dict String String
unfolding setting_of
load_project_env environ [] = environ
load_project_env environ (raw_line ∷ lines) =
    load_project_env (set_default environ (setting_of raw_line)) lines

-- `raw.split(",")`
unfoldable pub split_commas : String → List String
split_commas String.[] = String.[] ∷ []
split_commas (String.◌∷◌ c s) =
    let rest = split_commas s in
    if code c == 44
    then String.[] ∷ rest
    else elim rest [ [] ↦ String.◌∷◌ c String.[] ∷ [] | item ∷ items ↦ String.◌∷◌ c item ∷ items ]

-- `[item.strip() for item in items if item.strip()]`
unfoldable pub filled_items : List String → List String
unfolding strip
filled_items [] = []
filled_items (item ∷ items) =
    let rest = filled_items items in if is_blank (strip item) then rest else strip item ∷ rest

-- `_csv_env`
unfoldable pub csv_env : Dict String String → String → Option (List String)
unfolding get_or strip split_commas filled_items
csv_env environ env_name =
    let raw = strip (get_or environ env_name "") in
    if is_blank raw then none else some (filled_items (split_commas raw))

-- What `EngineLocalConfig().load()` returns.
pub record EngineConfig : Type 0 where
  pub engine_id : Option String
  pub engine_secret : String
  pub backend_url : String

-- `InternalRequestSigner(secret, engine_id=...)`
pub record Signer : Type 0 where
  pub secret : String
  pub engine_id : Option String

abbrev pub signer_of : EngineConfig → Signer
signer_of config = record { secret = config.engine_secret; engine_id = config.engine_id }

-- `{"1", "true", "yes", "on"}`
abbrev pub is_switched_on : String → Bool
is_switched_on text = text == "1" || text == "true" || text == "yes" || text == "on"

-- `_resolve_internal_request_signer`: the signer, and whether the registration was run; `registered`
-- is what `run_registration` returns.
unfoldable pub resolve_internal_request_signer :
    (String → String)
    → Dict String String
    → Option EngineConfig
    → String
    → Option EngineConfig
    → Option Signer × Bool
unfolding get_or strip
resolve_internal_request_signer lower environ local_config token registered = elim local_config [
  | some config ↦ (some (signer_of config), false)
  | none ↦
      if not (token == "")
      then (some (record { secret = token; engine_id = none }), false)
      else if is_switched_on
          (lower (strip (get_or environ "SMARTIDS_ENGINE_REGISTRATION_ENABLED" "")))
      then (elim registered [ none ↦ (none, true) | some config ↦ (some (signer_of config), true) ])
      else (none, false)
]

abbrev pub or_none : List String → Option (List String)
or_none [] = none
or_none (x ∷ xs) = some (x ∷ xs)

abbrev pub or_empty : Option (List String) → List String
or_empty none = []
or_empty (some xs) = xs

-- `_resolve_watch_ports`, where the backend tells this port.
unfoldable pub resolve_watch_ports :
    (ℕ → String)
    → Dict String String
    → Option EngineConfig
    → Option Signer
    → Option ℕ
    → Option (List String)
unfolding csv_env
resolve_watch_ports show environ local_config signer remote_port =
    let watch_ports = or_empty (csv_env environ "SMARTIDS_CAPTURE_WATCH_PORTS") in
    or_none (elim local_config [
      | none ↦ watch_ports
      | some config ↦ elim signer [
        | none ↦ watch_ports
        | some s ↦ elim remote_port [
          | none ↦ watch_ports
          | some port ↦ watch_ports ++ show port ∷ []
        ]
      ]
    ])

-- How commands are delivered, as `__init__` and `start` decide.
pub data CommandDelivery : Type 0 where
  websocket poll no_delivery : CommandDelivery

unfoldable pub command_delivery : Bool → String → Option Signer → String → CommandDelivery
command_delivery engine_ws_enabled engine_ws_url signer backend_commands_endpoint =
    let has_poller = not (backend_commands_endpoint == "") in
    let has_signer : Bool = elim signer [ none ↦ false | some s ↦ true ] in
    if engine_ws_enabled && not (engine_ws_url == "") && has_signer && has_poller
    then websocket
    else if has_poller
    then poll
    else no_delivery
