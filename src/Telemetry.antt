-- ===== src/Telemetry.antt =====
-- gardena_local_mqtt/telemetry.py: the plan that maps sensors to MQTT entities, and the values that
-- it publishes. `hexdigest` is SHA-256 of a text in hexadecimal.
pub mod Publish
pub mod Plans
pub mod Config
pub mod Collect
pub mod Snapshot
mod Tests
use gardena_matter_mqtt_brid.Base.{
  ℕ, ◌+◌, Bool, true, false, not, Option, none, some, List, [], ◌∷◌, ◌++◌, map, ◌==◌, ◌||◌, ◌&&◌,
  length, take, if◌then◌else◌,
}
use gardena_matter_mqtt_brid.Base.Exec.{
  Exec, Result, ok, err, lift, ◌>>=◌, ◌>>◌, value_error, key_error, type_error, index_error,
}
use gardena_matter_mqtt_brid.Text.{Str, str, str_eq, contains}
use gardena_matter_mqtt_brid.Json.{Json, string, dict, list, entries, of_entries, obj}
use gardena_matter_mqtt_brid.Json.Dict.{Dict, get, put}
use gardena_matter_mqtt_brid.Mower.{Mower}

-- A snapshot's device: its serial and the current value of each resource.
pub record Device : Type 0 where
  pub serial : Str
  pub values : Dict Str

-- A row of SENSORS.
pub record Sensor : Type 0 where
  pub object_id : Str
  pub label : Str
  pub device_class : Option Str
  pub unit : Option Str
  pub state_class : Option Str

abbrev sensor : Str → Str → Option Str → Option Str → Option Str → Sensor
sensor object_id label device_class unit state_class = record {
  object_id = object_id;
  label = label;
  device_class = device_class;
  unit = unit;
  state_class = state_class;
}

-- SENSORS
unfoldable pub sensors : Dict Sensor
sensors =
    let measured : Option Str = some (str "measurement") in
    let growing : Option Str = some (str "total_increasing") in
    let percent : Option Str = some (str "%") in
    let duration : Option Str = some (str "duration") in
    (
      str "soil_temperature",
      sensor (str "soil_temperature") (str "Bodentemperatur") (some (str "temperature"))
          (some (str "°C")) measured,
    )
    ∷ (
      str "soil_moisture",
      sensor (str "soil_moisture") (str "Bodenfeuchte") (some (str "moisture")) percent measured,
    )
    ∷ (
      str "battery_level",
      sensor (str "battery") (str "Batterie") (some (str "battery")) percent measured,
    )
    ∷ (
      str "rf_link_quality",
      sensor (str "rf_link_quality") (str "Funkqualität") none percent measured,
    )
    ∷ (
      str "light",
      sensor (str "light") (str "Helligkeit") (some (str "illuminance")) (some (str "lx")) measured,
    )
    ∷ (str "status", sensor (str "mower_status") (str "Mäherstatus") none none none)
    ∷ (str "error", sensor (str "error") (str "Fehlercode") none none none)
    ∷ (
      str "running_time",
      sensor (str "running_time") (str "Laufzeit") duration (some (str "h")) growing,
    )
    ∷ (
      str "cutting_time",
      sensor (str "cutting_time") (str "Mähzeit") duration (some (str "h")) growing,
    )
    ∷ (
      str "measurement_interval",
      sensor (str "measurement_interval") (str "Messintervall") duration (some (str "s")) none,
    )
    ∷ (str "frost_warning", sensor (str "frost_warning") (str "Frostwarnung") none none none)
    ∷ []

-- ALIASES, and `ALIASES.get(resource, resource)`
abbrev pub aliases : Dict Str
aliases =
    (str "temperature", str "soil_temperature")
    ∷ (str "mower_status", str "status")
    ∷ (str "battery", str "battery_level")
    ∷ []

unfoldable pub unalias : Str → Str
unalias resource = elim (get resource aliases) [ none ↦ resource | some schema ↦ schema ]

-- What `validate_config` returns for an entity that the broker holds.
pub record Existing : Type 0 where
  pub topic : Str
  pub original : Json
  pub config : Dict Json
  pub key : Str
  pub resource : Str

-- A record of a plan; `original` is there if the entity was taken over.
pub record Entity : Type 0 where
  pub topic : Str
  pub original : Option Json
  pub config : Dict Json
  pub key : Str
  pub resource : Str
  pub serial : Str

-- `{**record, 'serial': device.serial}`
abbrev pub attach : Str → Existing → Entity
attach serial r = record {
  topic = r.topic;
  original = some r.original;
  config = r.config;
  key = r.key;
  resource = r.resource;
  serial = serial;
}

abbrev pub bind {ℓ κ} : {A : Type ℓ} {B : Type κ} → Result A → (A → Result B) → Result B
bind (ok a) f = f a
bind (err e) f = err e

-- The inner loop over the records that exist.
unfoldable pub adopt_records : Device → List Existing → Result (List Entity)
adopt_records d [] = ok []
adopt_records d (r ∷ rs) = elim (get r.resource d.values) [
  | none ↦ err value_error
  | some v ↦ bind (adopt_records d rs) (λ es. ok (attach d.serial r ∷ es))
]

abbrev opt_json : Option Str → Json
opt_json none = Json.null
opt_json (some s) = string s

-- `resource in ('soil_temperature', 'soil_moisture', 'battery_level')`
abbrev has_plain_unit : Str → Bool
has_plain_unit = contains (str "soil_temperature" ∷ str "soil_moisture" ∷ str "battery_level" ∷ [])

unfoldable pub fresh_config : Str → Str → Str → Sensor → Dict Json
fresh_config prefix key resource s =
    (str "unique_id", string (str "gardena_" ++ (key ++ (str "_" ++ s.object_id))))
    ∷ (str "name", string s.label)
    ∷ (
      str "state_topic",
      string (prefix ++ (str "/" ++ (key ++ (str "/" ++ (resource ++ str "/state"))))),
    )
    ∷ (
      str "device",
      dict (
          (str "identifiers", list (string (str "gardena_" ++ key) ∷ []))
          ∷ (str "name", string (str "GARDENA Local"))
          ∷ (str "manufacturer", string (str "GARDENA"))
          ∷ []),
    )
    ∷ (if has_plain_unit resource
        then (str "device_class", opt_json s.device_class)
          ∷ (str "unit_of_measurement", opt_json s.unit)
          ∷ (str "state_class", opt_json s.state_class)
          ∷ []
        else [])

abbrev pub fresh_entity : Str → Str → Str → Str → Str → Sensor → Entity
fresh_entity prefix ha_prefix key serial resource s = record {
  topic =
      ha_prefix ++ (str "/sensor/gardena_" ++ (key ++ (str "/" ++ (s.object_id ++ str "/config"))));
  original = none;
  config = fresh_config prefix key resource s;
  key = key;
  resource = resource;
  serial = serial;
}

-- The inner loop over the values of a device that is new.
unfoldable pub fresh_records : Str → Str → Str → Str → Dict Str → Result (List Entity)
fresh_records prefix ha_prefix key serial [] = ok []
fresh_records prefix ha_prefix key serial ((resource, v) ∷ values) = elim (get resource sensors) [
  | none ↦ err key_error
  | some s ↦
      bind (fresh_records prefix ha_prefix key serial values)
        (λ es. ok (fresh_entity prefix ha_prefix key serial resource s ∷ es))
]

-- `len({record['key'] for record in existing}) == 1`
abbrev pub same_keys : Str → List Existing → Bool
same_keys key [] = true
same_keys key (r ∷ rs) = str_eq r.key key && same_keys key rs

abbrev pub one_key : List Existing → Bool
one_key [] = false
one_key (r ∷ rs) = same_keys r.key rs

abbrev pub is_one {ℓ} : {A : Type ℓ} → List A → Bool
is_one (x ∷ []) = true
is_one _ = false

abbrev pub is_empty {ℓ} : {A : Type ℓ} → List A → Bool
is_empty [] = true
is_empty (x ∷ xs) = false

module _ (hexdigest : Str → Str) (prefix ha_prefix : Str) where
  -- `Device.key`
  abbrev pub device_key : Device → Str
  device_key d = take 12 (hexdigest d.serial)

  abbrev pub device_records : List Existing → Device → Result (List Entity)
  device_records [] d = fresh_records prefix ha_prefix (device_key d) d.serial d.values
  device_records (r ∷ rs) d = adopt_records d (r ∷ rs)

  -- The loop over the devices.
  unfoldable pub plan_records : List Existing → List Device → Result (List Entity)
  plan_records existing [] = ok []
  plan_records existing (d ∷ ds) =
      bind (device_records existing d)
        (λ es. bind (plan_records existing ds) (λ rest. ok (es ++ rest)))

  -- `mowers[0].publisher_key = ...`, on the first of the mowers
  unfoldable pub name_mower : List Mower → List Entity → Result (List Mower)
  name_mower [] records = ok []
  name_mower (m ∷ ms) [] = err index_error
  name_mower (m ∷ ms) (e ∷ es) = ok (
      record m { publisher_key = some e.key; publisher_identifier = some (str "gardena_" ++ e.key) }
      ∷ ms)

  -- `make_plan`: the records, and the mowers as they are left.
  unfoldable pub make_plan :
      List Device → List Existing → List Mower → Result (List Entity × List Mower)
  make_plan devices existing mowers =
      if not (is_empty existing) && not (one_key existing && (is_one devices && is_one mowers))
      then err value_error
      else if not (is_empty mowers) && not (is_one mowers && is_one devices)
      then err value_error
      else bind (plan_records existing devices)
          (λ records. bind (name_mower mowers records) (λ named. ok (records, named)))

abbrev pub has_serial : List Device → Str → Bool
has_serial [] serial = false
has_serial (d ∷ ds) serial = str_eq d.serial serial || has_serial ds serial

-- `{d.serial: d.values for d in devices}.get(serial, {})`: the last device of that serial counts.
unfoldable pub current : List Device → Str → Dict Str
current [] serial = []
current (d ∷ ds) serial =
    let rest = current ds serial in
    if str_eq d.serial serial && not (has_serial ds serial) then d.values else rest

-- `record['config']['state_topic']`
abbrev pub state_topic : Entity → Result Json
state_topic e = elim (get (str "state_topic") e.config) [ none ↦ err key_error | some v ↦ ok v ]

-- `readings(plan, devices)`
unfoldable pub readings : List Entity → List Device → Result (List (Json × Str))
readings [] devices = ok []
readings (e ∷ plan) devices = elim (get e.resource (current devices e.serial)) [
  | none ↦ err value_error
  | some v ↦ bind (state_topic e) (λ t. bind (readings plan devices) (λ rest. ok ((t, v) ∷ rest)))
]
