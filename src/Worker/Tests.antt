-- ===== src/Worker/Tests.antt =====
-- A takeover that completes, one that is cut off amid the stop of the service, and the theorems at
-- these.
use gardena_matter_mqtt_brid.Base.{◌≡◌, refl, true, false, none, some, List, [], ◌∷◌, map, All, inl}
use gardena_matter_mqtt_brid.Base.Exec.{ok, err, connection_error}
use gardena_matter_mqtt_brid.Text.{Str, str, str_eq, contains}
use gardena_matter_mqtt_brid.Json.{Json, string, obj, end}
use gardena_matter_mqtt_brid.Json.Dict.{get}
use gardena_matter_mqtt_brid.Mower.{Mower, key}
use gardena_matter_mqtt_brid.Telemetry.{Device, Entity, readings, current}
use gardena_matter_mqtt_brid.Worker.{
  World, Outcome, done, failed_midway, Publisher, Migration, taking_over, active, journal,
  write_migration, publisher_state, stop_publisher, take_over, activate, rollback,
  rollback_messages, run_rollback, send_all, send, abandon, restore_publisher, write_action, report,
}
use gardena_matter_mqtt_brid.Worker.Journal.{IsRecoverable}
use gardena_matter_mqtt_brid.Worker.Histories.{
  activated, Reaches, here, then, Reaches-IsRecoverable, rollback-restores,
}
use gardena_matter_mqtt_brid.Worker.Controls.{IsSent, rollback-discovery}
use gardena_matter_mqtt_brid.Mower.Discovery.{discovery_messages}
use gardena_matter_mqtt_brid.Worker.Asked.{run_rollback-Reaches}
use gardena_matter_mqtt_brid.Worker.Handover.{activate_hands_over}

abbrev device : Device
device = record { serial = str "s1"; values = (str "battery_level", str "87") ∷ [] }

abbrev battery : Entity
battery = record {
  topic = str "homeassistant/sensor/gardena_ab12/battery/config";
  original = none;
  config = (str "state_topic", string (str "gardena/ab12/battery/state")) ∷ [];
  key = str "ab12";
  resource = str "battery_level";
  serial = str "s1";
}

abbrev service : Publisher
service = record { running = true; enabled = true }

abbrev before : List Outcome → World
before outcomes = record {
  migration = none;
  action = none;
  mode = str "preview";
  installed = true;
  publisher = service;
  published = [];
  outcomes = outcomes;
}

abbrev written : Migration
written = journal active (str "b") service (battery ∷ []) []

abbrev taken : World
taken = record (before []) {
  migration = some written;
  publisher = record { running = false; enabled = false };
}

takeover : activate (str "b") (battery ∷ []) [] (device ∷ []) (before []) ≡ (ok written, taken)
unfolding activate take_over write_migration publisher_state stop_publisher readings current get str
    str_eq
takeover = refl

activate_hands_over_example :
    (written ≡ journal active (str "b") service (battery ∷ []) [])
    × (some written ≡ some written)
    × (false ≡ false)
    × ((values : List (Json × Str)) × (readings (battery ∷ []) (device ∷ []) ≡ ok values))
activate_hands_over_example =
    activate_hands_over (str "b") (battery ∷ []) [] (device ∷ []) (before []) taken written takeover

-- The stop fails after the service stopped and before it was disabled.
abbrev cut_off : List Outcome
cut_off = done ∷ done ∷ failed_midway ∷ []

abbrev begun : Migration
begun = journal taking_over (str "b") service (battery ∷ []) []

abbrev halfway : World
halfway = record (before []) {
  migration = some begun;
  publisher = record { running = false; enabled = true };
}

interruption :
    activate (str "b") (battery ∷ []) [] (device ∷ []) (before cut_off)
    ≡ (err connection_error, halfway)
unfolding activate take_over write_migration publisher_state stop_publisher readings current get str
    str_eq
interruption = refl

history : Reaches (before cut_off) halfway
history =
    then here
      (activated (str "b") (battery ∷ []) [] (device ∷ []) (err connection_error) refl interruption)

Reaches-IsRecoverable_example : IsRecoverable service halfway
Reaches-IsRecoverable_example =
    Reaches-IsRecoverable service (before cut_off) halfway history (inl (refl, refl))

abbrev no_text : Json → Str
no_text v = str "?"

rollback-restores_example :
    (v : World) × (rollback no_text (str "a") (str "homeassistant") begun halfway ≡ (ok tt, v))
    × (v.migration ≡ none)
    × (v.publisher ≡ service)
rollback-restores_example =
    rollback-restores (before cut_off) halfway no_text (str "a") (str "homeassistant") begun refl
      history refl refl

abbrev digest : Str → Str
digest s = str "0123456789abcdef"

abbrev mower : Mower
mower = record {
  device_id = str "d1";
  model_number = str "29694";
  name = str "SILENO";
  generation = str "gen1";
  state = obj end;
  publisher_key = some (str "ab12");
  publisher_identifier = some (str "gardena_ab12");
}

in_plan : contains (str "ab12" ∷ []) (key digest mower) ≡ true
unfolding key contains str str_eq
in_plan = refl

rollback-discovery_example :
    All
      (λ t.
        IsSent (t, []) (rollback_messages no_text (str "a") (str "homeassistant") (battery ∷ [])))
      (map
        (λ x. x.0)
        (discovery_messages digest no_text (str "gardena") (str "homeassistant") (str "a") mower))
rollback-discovery_example =
    rollback-discovery digest no_text no_text (str "gardena") (str "homeassistant") (str "a")
      (str "a") mower (battery ∷ []) in_plan

abbrev undone : World
undone = (run_rollback no_text (str "a") (str "homeassistant") begun halfway).1

undone_run : run_rollback no_text (str "a") (str "homeassistant") begun halfway ≡ (ok tt, undone)
unfolding run_rollback rollback rollback_messages send_all send abandon restore_publisher
    write_migration write_action report contains
undone_run = refl

run_rollback-Reaches_example :
    (undone.migration ≡ none)
    × (undone.publisher ≡ service)
    × (undone.action ≡ none)
    × (undone.mode ≡ str "rolled_back")
run_rollback-Reaches_example =
    run_rollback-Reaches (before cut_off) halfway undone no_text (str "a") (str "homeassistant")
      begun refl history refl undone_run
