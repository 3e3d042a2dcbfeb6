-- ===== src/Mower.antt =====
-- gardena_local_mqtt/protocol.py, `Mower` and `_nested_value`: what a mower is doing, and the
-- requests that drive it. A request id is `str(uuid.uuid4())`, an argument here.
pub mod Event
pub mod Effect
pub mod Crossing
pub mod Discovery
pub mod Commands
mod Tests
use gardena_matter_mqtt_brid.Base.{
  ℕ, ◌+◌, ◌*◌, ◌/◌, ◌%◌, ◌^◌, Bool, true, false, Option, none, some, List, [], ◌∷◌, ◌++◌, ◌||◌,
  take, ◌&&◌, if◌then◌else◌,
}
use gardena_matter_mqtt_brid.Base.Exec.{Result, ok, err, type_error, value_error}
use gardena_matter_mqtt_brid.Text.{Str, str, str_eq, contains, starts_with, decimal, base64}
use gardena_matter_mqtt_brid.Json.{
  Json, null, int, pos, string, arr, obj, entries, dict, list, equals_nat,
}
use gardena_matter_mqtt_brid.Json.Dict.{Dict, get}

pub record Mower : Type 0 where
  pub device_id : Str
  pub model_number : Str
  pub name : Str
  pub generation : Str
  pub state : Json
  pub publisher_key : Option Str
  pub publisher_identifier : Option Str

abbrev pub or_null : Option Json → Json
or_null none = null
or_null (some v) = v

-- `_nested_value(data, *path)`
unfoldable pub nested_value : Json → List Str → Json
nested_value value [] = value
nested_value (obj f) (part ∷ path) = nested_value (or_null (get part (entries f))) path
nested_value value (part ∷ path) = null

-- `value in {...}` for numbers: a list or a dict cannot be hashed.
abbrev equals_any : Json → List ℕ → Bool
equals_any v [] = false
equals_any v (n ∷ l) = equals_nat v n || equals_any v l

unfoldable pub in_numbers : Json → List ℕ → Result Bool
in_numbers (arr l) numbers = err type_error
in_numbers (obj f) numbers = err type_error
in_numbers v numbers = ok (equals_any v numbers)

-- `x or y` for an optional text
abbrev pub or_text : Option Str → Str → Str
or_text none y = y
or_text (some []) y = y
or_text (some (c ∷ s)) y = c ∷ s

-- The properties of `Mower`, over SHA-256 in hexadecimal.
module _ (hexdigest : Str → Str) where
  unfoldable pub legacy_key : Mower → Str
  legacy_key m = take 8 (hexdigest m.device_id)

  unfoldable pub key : Mower → Str
  key m = or_text m.publisher_key (legacy_key m)

  unfoldable pub device_identifier : Mower → Str
  device_identifier m = or_text m.publisher_identifier (str "gardena_control_" ++ legacy_key m)

unfoldable pub supports_pause : Mower → Bool
supports_pause m = str_eq m.generation (str "gen2")

abbrev status_path : List Str
status_path = str "lemonbeat" ∷ str "0" ∷ str "status" ∷ str "vi" ∷ []

-- The ladder of `activity` for a gen1 status; every set is tested on the same value.
unfoldable pub gen1_activity : Json → Result (Option Str)
gen1_activity status = elim (in_numbers status (7 ∷ 8 ∷ 16 ∷ 17 ∷ 18 ∷ [])) [
  | err e ↦ err e
  | ok docked ↦ ok (
      if docked
      then some (str "docked")
      else if equals_any status (1 ∷ 4 ∷ 15 ∷ [])
      then some (str "mowing")
      else if equals_nat status 2
      then some (str "returning")
      else if equals_nat status 3
      then some (str "docked")
      else if equals_any status (0 ∷ 5 ∷ 6 ∷ 9 ∷ 10 ∷ 14 ∷ [])
      then some (str "paused")
      else if equals_any status (12 ∷ 13 ∷ [])
      then some (str "error")
      else none)
]

abbrev gen2_state : Json → Result (Option Str)
gen2_state state =
    if equals_nat state 5 then ok (some (str "paused")) else elim (in_numbers state (3 ∷ 8 ∷ [])) [
      | err e ↦ err e
      | ok failed ↦ ok (if failed then some (str "error") else none)
    ]

unfoldable pub gen2_activity : Json → Json → Result (Option Str)
gen2_activity activity state = elim (in_numbers activity (1 ∷ 5 ∷ [])) [
  | err e ↦ err e
  | ok docked ↦
      if docked
      then ok (some (str "docked"))
      else if equals_any activity (2 ∷ 3 ∷ [])
      then ok (some (str "mowing"))
      else if equals_nat activity 4
      then ok (some (str "returning"))
      else gen2_state state
]

-- `activity()`
unfoldable pub activity : Mower → Result (Option Str)
activity m =
    if starts_with m.generation (str "gen1")
    then gen1_activity (nested_value m.state status_path)
    else gen2_activity
        (nested_value m.state (str "mower_app" ∷ str "0" ∷ str "activity" ∷ str "vi" ∷ []))
        (nested_value m.state (str "mower_app" ∷ str "0" ∷ str "state" ∷ str "vi" ∷ []))

-- START_ACTION_DURATIONS, in seconds
abbrev pub start_action_durations : Dict ℕ
start_action_durations =
    (str "start_mowing", 8 * 60 * 60)
    ∷ (str "start_1h", 1 * 60 * 60)
    ∷ (str "start_3h", 3 * 60 * 60)
    ∷ (str "start_6h", 6 * 60 * 60)
    ∷ []

-- `struct.pack("!HI", 0, n)` for n below 2 ^ 32
abbrev pack_hi : ℕ → List ℕ
pack_hi n = 0 ∷ 0 ∷ n / 2 ^ 24 ∷ n / 2 ^ 16 % 256 ∷ n / 2 ^ 8 % 256 ∷ n % 256 ∷ []

-- The path and the payload of a command.
pub record Order : Type 0 where
  pub path : Str
  pub payload : Option Json

unfoldable pub gen2_order : Str → Option ℕ → Result Order
gen2_order action (some duration) = ok (record {
  path = str "smart_system_mower_api/0/manual_start";
  payload =
      some
        (dict ((str "as", list (string (str "0='" ++ (decimal duration ++ str "'")) ∷ [])) ∷ []));
})
gen2_order action none =
    if str_eq action (str "dock")
    then ok
        (record { path = str "smart_system_mower_api/0/park_until_further_notice"; payload = none })
    else if str_eq action (str "pause")
    then ok (record { path = str "mower_app/0/pause"; payload = none })
    else err value_error

unfoldable pub gen1_order : Str → Str → Option ℕ → Result Order
gen1_order generation action (some duration) =
    if str_eq generation (str "gen1_lona")
    then ok (record {
      path = str "lemonbeat/0/mower_timer_with_distance";
      payload = some (dict ((str "vo", string (base64 (pack_hi duration))) ∷ []));
    })
    else ok (record {
      path = str "lemonbeat/0/mower_timer";
      payload = some (dict ((str "vi", int (pos duration)) ∷ []));
    })
gen1_order generation action none =
    if str_eq action (str "dock")
    then ok (record {
      path = str "lemonbeat/0/action_paused_until_1";
      payload = some (
          dict
            ((str "vo", string (base64 (2042 % 256 ∷ 2042 / 256 ∷ 12 ∷ 31 ∷ 22 ∷ 0 ∷ []))) ∷ []));
    })
    else err value_error

abbrev with_payload : Option Json → Dict Json
with_payload none = []
with_payload (some p) = (str "payload", p) ∷ []

-- The request that carries an order.
unfoldable pub request : Str → Str → Str → Str → Order → Json
request device_id service op request_id order = dict (
    (
      str "entity",
      dict (
          (str "device", string device_id)
          ∷ (str "service", string service)
          ∷ (str "path", string order.path)
          ∷ []),
    )
    ∷ (str "op", string op)
    ∷ (str "request_id", string request_id)
    ∷ with_payload order.payload)

-- `command(action)`, the one request of the list that it returns.
unfoldable pub command : Mower → Str → Str → Result Json
command m request_id action =
    let duration = get action start_action_durations in
    if str_eq m.generation (str "gen2")
    then elim (gen2_order action duration) [
      | ok o ↦ ok (request m.device_id (str "lwm2mserver") (str "execute") request_id o)
      | err e ↦ err e
    ]
    else elim (gen1_order m.generation action duration) [
      | ok o ↦ ok (request m.device_id (str "lemonbeatd") (str "write") request_id o)
      | err e ↦ err e
    ]
