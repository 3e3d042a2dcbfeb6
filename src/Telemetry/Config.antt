-- ===== src/Telemetry/Config.antt =====
-- gardena_local_mqtt/telemetry.py, `validate_config`: an entity that the broker holds is taken for one
-- of the publisher's, refused, or passed over. `loads` is `json.loads`.
use gardena_matter_mqtt_brid.Base.{
  ℕ, Bool, true, false, not, ◌&&◌, ◌||◌, Option, none, some, List, [], ◌∷◌, ◌++◌, ◌==◌,
  if◌then◌else◌,
}
use gardena_matter_mqtt_brid.Base.Exec.{Result, ok, err, value_error, type_error}
use gardena_matter_mqtt_brid.Text.{
  Str, str, str_eq, contains, all_chars, is_lower, is_digit, without_prefix, split_slash,
}
use gardena_matter_mqtt_brid.Json.{
  Json, string, arr, obj, nil, cons, end, entries, equals_str, is_str,
}
use gardena_matter_mqtt_brid.Json.Dict.{Dict, get}
use gardena_matter_mqtt_brid.Mower.{or_null}
use gardena_matter_mqtt_brid.Mower.Event.{get_or}
use gardena_matter_mqtt_brid.Telemetry.{Existing, sensors, unalias}

-- `[a-z0-9]+` and `[a-z0-9_]+`
abbrev pub is_word : (ℕ → Bool) → Str → Bool
is_word p [] = false
is_word p (c ∷ s) = all_chars p (c ∷ s)

abbrev pub plain : ℕ → Bool
plain c = is_lower c || is_digit c

abbrev pub plain_or_underscore : ℕ → Bool
plain_or_underscore c = plain c || c == b'_'

abbrev pub option_if : {A : Type 0} → Bool → Option A → Option A
option_if true o = o
option_if false o = none

abbrev word : Option Str → Option Str
word none = none
word (some k) = option_if (is_word plain k) (some k)

-- The key in the parts of a topic after the prefix; no class of the pattern has a slash.
abbrev pub key_in : List Str → Option Str
key_in ([] ∷ component ∷ device ∷ entity ∷ last ∷ []) =
    option_if
      ((str_eq component (str "sensor") || str_eq component (str "binary_sensor"))
        && (is_word plain_or_underscore entity && str_eq last (str "config")))
      (word (without_prefix device (str "gardena_")))
key_in _ = none

abbrev key_behind : Option Str → Option Str
key_behind none = none
key_behind (some rest) = key_in (split_slash rest)

-- The first regular expression, and its group 2.
unfoldable pub entity_key : Str → Str → Option Str
entity_key ha_prefix topic = key_behind (without_prefix topic ha_prefix)

-- `device.get('identifiers') != ['gardena_' + key]`, negated
abbrev pub names_only : Str → Json → Bool
names_only identifier (arr (cons v nil)) = equals_str v identifier
names_only identifier _ = false

abbrev pub resource_in : List Str → Option Str
resource_in (name ∷ last ∷ []) =
    option_if (is_word plain_or_underscore name && str_eq last (str "state")) (some name)
resource_in _ = none

abbrev resource_behind : Option Str → Option Str
resource_behind none = none
resource_behind (some rest) = resource_in (split_slash rest)

-- The second regular expression, and its group 1.
unfoldable pub resource_of : Str → Str → Str → Option Str
resource_of prefix key state =
    resource_behind (without_prefix state (prefix ++ (str "/" ++ (key ++ str "/"))))

abbrev pub allowed_fields : List Str
allowed_fields =
    str "unique_id"
    ∷ str "object_id"
    ∷ str "name"
    ∷ str "state_topic"
    ∷ str "device"
    ∷ str "device_class"
    ∷ str "unit_of_measurement"
    ∷ str "state_class"
    ∷ str "icon"
    ∷ str "entity_category"
    ∷ str "value_template"
    ∷ str "payload_on"
    ∷ str "payload_off"
    ∷ str "enabled_by_default"
    ∷ []

-- `{k: v for k, v in config.items() if k in allowed_fields}`
unfoldable pub only : List Str → Dict Json → Dict Json
only keys [] = []
only keys ((k, v) ∷ d) = let rest = only keys d in if contains keys k then (k, v) ∷ rest else rest

abbrev pub is_some : {A : Type 0} → Option A → Bool
is_some none = false
is_some (some a) = true

abbrev pub existing : Str → Json → Dict Json → Str → Str → Existing
existing topic original config key schema = record {
  topic = topic;
  original = original;
  config = only allowed_fields config;
  key = key;
  resource = schema;
}

-- A resource that was found and is one of SENSORS.
abbrev pub supported : Str → Json → Dict Json → Str → Option Str → Result (Option Existing)
supported topic original config key none = err value_error
supported topic original config key (some resource) =
    if not (is_str (or_null (get (str "unique_id") config)))
    then err value_error
    else if is_some (get (unalias resource) sensors)
    then ok (some (existing topic original config key (unalias resource)))
    else err value_error

-- `re.fullmatch` on what is no text raises TypeError.
abbrev pub with_state : Str → Str → Json → Dict Json → Str → Json → Result (Option Existing)
with_state topic prefix original config key (string state) =
    supported topic original config key (resource_of prefix key state)
with_state topic prefix original config key _ = err type_error

abbrev pub with_device : Str → Str → Json → Dict Json → Str → Json → Result (Option Existing)
with_device topic prefix original config key (obj f) =
    if not (equals_str (or_null (get (str "manufacturer") (entries f))) (str "GARDENA"))
    then ok none
    else if not (names_only (str "gardena_" ++ key) (or_null (get (str "identifiers") (entries f))))
    then err value_error
    else with_state topic prefix original config key (get_or (str "state_topic") config (string []))
with_device topic prefix original config key _ = ok none

abbrev pub with_config : Str → Str → Str → Result Json → Result (Option Existing)
with_config topic prefix key (ok (obj f)) =
    with_device topic prefix (obj f) (entries f) key (get_or (str "device") (entries f) (obj end))
with_config topic prefix key (ok _) = err value_error
with_config topic prefix key (err e) = err e

abbrev pub with_key : (Str → Result Json) → Str → Str → Str → Option Str → Result (Option Existing)
with_key loads topic payload prefix none = ok none
with_key loads topic payload prefix (some key) = with_config topic prefix key (loads payload)

-- `validate_config(topic, payload, prefix, ha_prefix)`
unfoldable pub validate_config :
    (Str → Result Json) → Str → Str → Str → Str → Result (Option Existing)
validate_config loads topic payload prefix ha_prefix =
    with_key loads topic payload prefix (entity_key ha_prefix topic)
