-- ===== src/Telemetry/Snapshot/Tests.antt =====
-- A snapshot with a device of two sensors, an entity on the broker, and the theorems at them.
use gardena_matter_mqtt_brid.Base.{
  ◌≡◌, refl, ◌≤◌, Bool, true, false, none, some, List, [], ◌∷◌, ◌++◌, map, All, length,
}
use gardena_matter_mqtt_brid.Base.Exec.{Result, ok}
use gardena_matter_mqtt_brid.Text.{
  Str, str, str_eq, is_digit, starts_with, contains, split_slash, all_chars, any_char,
  without_prefix, is_lower,
}
use gardena_matter_mqtt_brid.Text.Utf8.{decode, decode_from, decode_next, decode_lead}
use gardena_matter_mqtt_brid.Mqtt.{parse_publish, parse_topic}
use gardena_matter_mqtt_brid.Json.{Json, Fields, string, dict, list, obj, of_entries, equals_str}
use gardena_matter_mqtt_brid.Json.Dict.{Dict, get, put}
use gardena_matter_mqtt_brid.Mower.{Mower}
use gardena_matter_mqtt_brid.Telemetry.{
  Device, Entity, Existing, Sensor, sensors, unalias, plan_records, name_mower, adopt_records,
  make_plan, readings, is_empty,
}
use gardena_matter_mqtt_brid.Telemetry.Plans.{IsSnapshot, HasTopic, texted}
use gardena_matter_mqtt_brid.Telemetry.Config.{validate_config, entity_key, resource_of, only}
use gardena_matter_mqtt_brid.Telemetry.Collect.{
  Round, collect_existing, gather_all, gather, without,
}
use gardena_matter_mqtt_brid.Telemetry.Collect.Gathered.{
  validate_config-IsUsable, collect_existing-HasTopic,
}
use gardena_matter_mqtt_brid.Telemetry.Snapshot.{
  Member, parse_snapshot, read_members, read_member, parts_of, real_parts, stem, last_of,
  read_devices, join, read_values, read_value, leading, numeric, parent_of, same_parts,
}
use gardena_matter_mqtt_brid.Telemetry.Snapshot.Parsed.{IsReading, parse_snapshot-IsSnapshot}
use gardena_matter_mqtt_brid.Telemetry.Snapshot.Planned.{parsed-readings, parsed-make_plan}

abbrev file : Str → Dict Json → Member
file name content = record { name = name; is_file = true; size = 100; content = ok (dict content) }

abbrev members : List Member
members =
    file (str "./d/Device_descriptionID_1.json") ((str "serialid", string (str "s1")) ∷ [])
    ∷ file (str "./d/Value_description/Value_7.json") ((str "name", string (str "battery")) ∷ [])
    ∷ file (str "./d/Value/Value_7r.json") ((str "value", string (str "87")) ∷ [])
    ∷ []

abbrev is_finite : Json → Result Bool
is_finite v = ok true

abbrev show : Json → Str
show v = str "7"

abbrev devices : List Device
devices = record { serial = str "s1"; values = (str "battery_level", str "87") ∷ [] } ∷ []

parses : parse_snapshot is_finite show is_digit members ≡ ok devices
unfolding str parse_snapshot read_members read_member starts_with contains parts_of real_parts
    split_slash str_eq stem last_of read_devices put join get read_values read_value leading numeric
    parent_of same_parts sensors unalias all_chars is_digit
parses = refl

parse_snapshot-IsSnapshot_example :
    IsSnapshot devices × All (λ d. IsReading d.values) devices × (is_empty devices ≡ false)
parse_snapshot-IsSnapshot_example =
    parse_snapshot-IsSnapshot is_finite show is_digit members devices parses

abbrev digest : Str → Str
digest s = str "0123456789abcdef"

parsed-make_plan_example :
    (plan : List Entity) × (values : List (Str × Str)) × (make_plan digest
        (str "g")
        (str "h")
        devices
        []
        []
      ≡ ok (plan, []))
    × (readings plan devices ≡ ok (map texted values))
parsed-make_plan_example =
    parsed-make_plan is_finite show is_digit members digest (str "g") (str "h") devices parses

abbrev topic : Str
topic = str "h/sensor/gardena_ab12/battery/config"

abbrev config : Fields
config = of_entries (
    (str "unique_id", string (str "u"))
    ∷ (str "state_topic", string (str "g/ab12/battery/state"))
    ∷ (
      str "device",
      dict (
          (str "manufacturer", string (str "GARDENA"))
          ∷ (str "identifiers", list (string (str "gardena_ab12") ∷ []))
          ∷ []),
    )
    ∷ (str "availability_topic", string (str "elsewhere"))
    ∷ [])

abbrev loads : Str → Result Json
loads payload = ok (obj config)

-- All but the availability is kept.
abbrev entity : Existing
entity = record {
  topic = topic;
  original = obj config;
  config =
      (str "unique_id", string (str "u"))
      ∷ (str "state_topic", string (str "g/ab12/battery/state"))
      ∷ (
        str "device",
        dict (
            (str "manufacturer", string (str "GARDENA"))
            ∷ (str "identifiers", list (string (str "gardena_ab12") ∷ []))
            ∷ []),
      )
      ∷ [];
  key = str "ab12";
  resource = str "battery_level";
}

accepts : validate_config loads topic (str "x") (str "g") (str "h") ≡ ok (some entity)
unfolding str validate_config entity_key without_prefix split_slash str_eq all_chars is_lower
    is_digit get equals_str resource_of unalias sensors only contains
accepts = refl

validate_config-IsUsable_example :
    HasTopic entity
    × (topic ≡ topic)
    × ((s : Sensor) × (get (str "battery_level") sensors ≡ some s))
validate_config-IsUsable_example =
    validate_config-IsUsable loads topic (str "x") (str "g") (str "h") entity accepts

-- Both subscriptions are confirmed, the entity comes, and then nothing for a second.
abbrev rounds : List Round
rounds =
    record { at = 10; given = some (ok (9, 0, 0 ∷ 1 ∷ 0 ∷ [])) }
    ∷ record { at = 20; given = some (ok (9, 0, 0 ∷ 2 ∷ 0 ∷ [])) }
    ∷ record { at = 30; given = some (ok (3, 1, 0 ∷ length topic ∷ (topic ++ str "x"))) }
    ∷ record { at = 230; given = none }
    ∷ record { at = 1030; given = none }
    ∷ []

gathers : collect_existing loads (str "g") (str "h") 1 2 0 rounds ≡ ok (entity ∷ [])
unfolding str validate_config entity_key without_prefix split_slash str_eq all_chars is_lower
    is_digit get equals_str resource_of unalias sensors only contains collect_existing gather_all
    gather without put parse_publish parse_topic decode decode_from decode_next decode_lead any_char
gathers = refl

collect_existing-HasTopic_example : All HasTopic (entity ∷ []) × (length (entity ∷ []) ≤ 256)
collect_existing-HasTopic_example =
    collect_existing-HasTopic loads (str "g") (str "h") 1 2 0 rounds (entity ∷ []) gathers

abbrev mower : Mower
mower = record {
  device_id = str "d2";
  model_number = str "488";
  name = str "GARDENA smart SILENO pro/max/free";
  generation = str "gen2";
  state = dict [];
  publisher_key = none;
  publisher_identifier = none;
}

abbrev named : Mower
named = record mower {
  publisher_key = some (str "ab12");
  publisher_identifier = some (str "gardena_" ++ str "ab12");
}

abbrev adopted : Entity
adopted = record {
  topic = topic;
  original = some (obj config);
  config = entity.config;
  key = str "ab12";
  resource = str "battery_level";
  serial = str "s1";
}

plans :
    make_plan digest (str "g") (str "h") devices (entity ∷ []) (mower ∷ [])
    ≡ ok (adopted ∷ [], named ∷ [])
unfolding str make_plan plan_records adopt_records name_mower get str_eq
plans = refl

parsed-readings_example :
    (values : List (Str × Str)) × (readings (adopted ∷ []) devices ≡ ok (map texted values))
parsed-readings_example =
    parsed-readings is_finite show is_digit members loads digest (str "g") (str "h") 1 2 0 rounds
      devices (entity ∷ []) (mower ∷ []) (named ∷ []) (adopted ∷ []) parses gathers plans
