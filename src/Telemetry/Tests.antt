-- ===== src/Telemetry/Tests.antt =====
-- A snapshot, an entity that the broker holds, and the theorems on plans at these.
use gardena_matter_mqtt_brid.Base.{◌≡◌, refl, true, none, some, List, [], ◌∷◌, ◌++◌, map, All}
use gardena_matter_mqtt_brid.Base.Exec.{Exec, ok, err, value_error}
use gardena_matter_mqtt_brid.Text.{Str, str, str_eq}
use gardena_matter_mqtt_brid.Json.{Json, string, obj, end}
use gardena_matter_mqtt_brid.Json.Dict.{get}
use gardena_matter_mqtt_brid.Mower.{Mower}
use gardena_matter_mqtt_brid.Telemetry.{
  Device, Existing, Entity, attach, make_plan, plan_records, adopt_records, name_mower, readings,
  current, same_keys,
}
use gardena_matter_mqtt_brid.Telemetry.Publish.{publish, send_all}
use gardena_matter_mqtt_brid.Telemetry.Plans.{
  IsSnapshot, HasTopic, readings-make_plan, texted, make_plan_adopts,
}

-- SHA-256 is none of the model; any text stands for a digest here.
abbrev digest : Str → Str
digest s = str "0123456789abcdef"

abbrev device : Device
device = record { serial = str "s1"; values = (str "battery_level", str "87") ∷ [] }

abbrev known : Existing
known = record {
  topic = str "homeassistant/sensor/gardena_ab12/battery/config";
  original = obj end;
  config = (str "state_topic", string (str "gardena/ab12/battery/state")) ∷ [];
  key = str "ab12";
  resource = str "battery_level";
}

abbrev mower : Mower
mower = record {
  device_id = str "d1";
  model_number = str "29694";
  name = str "SILENO";
  generation = str "gen1";
  state = obj end;
  publisher_key = none;
  publisher_identifier = none;
}

abbrev renamed : Mower
renamed = record mower {
  publisher_key = some (str "ab12");
  publisher_identifier = some (str "gardena_ab12");
}

abbrev plan : List Entity
plan = attach (str "s1") known ∷ []

plan_run :
    make_plan digest (str "gardena") (str "homeassistant") (device ∷ []) (known ∷ []) (mower ∷ [])
    ≡ ok (plan, renamed ∷ [])
unfolding make_plan plan_records adopt_records name_mower get str str_eq
plan_run = refl

device-IsSnapshot : IsSnapshot (device ∷ [])
unfolding get
device-IsSnapshot = (refl, (refl, tt), tt)

known_topics : All HasTopic (known ∷ [])
unfolding get str str_eq
known_topics = ((str "gardena/ab12/battery/state", refl), tt)

readings-make_plan_example :
    (values : List (Str × Str)) × (readings plan (device ∷ []) ≡ ok (map texted values))
readings-make_plan_example =
    readings-make_plan digest (str "gardena") (str "homeassistant") (device ∷ []) (known ∷ [])
      (mower ∷ []) plan (renamed ∷ []) device-IsSnapshot known_topics plan_run

make_plan_adopts_example :
    (d : Device) × (m : Mower) × (device ∷ [] ≡ d ∷ [])
    × (mower ∷ [] ≡ m ∷ [])
    × (same_keys (str "ab12") [] ≡ true)
    × (plan ≡ map (attach d.serial) (known ∷ []))
    × (renamed ∷ []
        ≡ record m {
          publisher_key = some (str "ab12");
          publisher_identifier = some (str "gardena_" ++ str "ab12");
        }
          ∷ [])
make_plan_adopts_example =
    make_plan_adopts digest (str "gardena") (str "homeassistant") (device ∷ []) known []
      (mower ∷ []) plan (renamed ∷ []) plan_run

-- The device has gone from the snapshot: nothing is sent.
gone : readings plan [] ≡ err value_error
unfolding readings current get
gone = refl

abbrev note : Str → Str → Exec (List Str) (Unit {0})
note topic payload sent = (ok tt, topic ∷ sent)

abbrev no_text : Json → Str
no_text v = str "?"

-- With its value the entity's discovery message comes first.
publish_run : publish note no_text plan (device ∷ []) (str "a") [] ≡ (
  ok tt,
  str "gardena/ab12/battery/state" ∷ str "homeassistant/sensor/gardena_ab12/battery/config" ∷ [],
)
unfolding publish readings current get str str_eq send_all
publish_run = refl
