-- ===== src/Worker/Round/Tests.antt =====
-- A round that takes over, publishes and forwards a command, and the theorem on rounds at it.
use gardena_matter_mqtt_brid.Base.{◌≡◌, refl, true, false, none, some, [], ◌∷◌}
use gardena_matter_mqtt_brid.Base.Exec.{ok}
use gardena_matter_mqtt_brid.Text.{Str, str, str_eq, contains, starts_with}
use gardena_matter_mqtt_brid.Json.{Json, obj, end, equals_nat}
use gardena_matter_mqtt_brid.Json.Dict.{get, put}
use gardena_matter_mqtt_brid.Mower.{
  Mower, command, gen1_order, request, key, legacy_key, activity, gen1_activity, in_numbers,
  nested_value,
}
use gardena_matter_mqtt_brid.Mower.Discovery.{
  publish_discovery, publish_activity, discovery_messages,
}
use gardena_matter_mqtt_brid.Telemetry.{
  Device, make_plan, readings, current, plan_records, name_mower, fresh_records, sensors,
  fresh_config,
}
use gardena_matter_mqtt_brid.Telemetry.Publish.{publish, send_all}
use gardena_matter_mqtt_brid.Worker.{
  write_action, write_migration, report, activate, take_over, publisher_state, stop_publisher,
}
use gardena_matter_mqtt_brid.Worker.Loop.{
  Incoming, turn, handle_command, forward, send_request, send_message, handle_messages, unexpired,
  keep_alive,
}
use gardena_matter_mqtt_brid.Worker.Round.{
  Running, Met, topics, hand_over, act, discover_each, refresh, before_select, round,
}
use gardena_matter_mqtt_brid.Worker.Round.Rounds.{RoundDoes, round-RoundDoes}

abbrev device : Device
device = record { serial = str "s1"; values = (str "battery_level", str "87") ∷ [] }

abbrev mower : Mower
mower = record {
  device_id = str "d1";
  model_number = str "29694";
  name = str "SILENO";
  generation = str "gen1";
  state = obj end;
  publisher_key = none;
  publisher_identifier = none;
}

abbrev preview : Running
preview = record {
  world = record {
    migration = none;
    action = some (str "activate");
    mode = str "preview";
    installed = true;
    publisher = record { running = true; enabled = true };
    published = [];
    outcomes = [];
  };
  loop = record {
    active = false;
    by_topic = [];
    mowers = mower ∷ [];
    pending = [];
    now = 0;
    requests = [];
    messages = [];
    pings = 0;
    ws_broken = false;
    mqtt_broken = false;
  };
  plan = [];
  journal = none;
  next_poll = 9000;
}

-- The command comes to the topic that the mower has since the takeover.
abbrev start : Incoming
start = record {
  topic = str "g/0123456789ab/mower/command";
  payload = str "start_1h";
  retained = false;
  request_id = str "r1";
}

abbrev met : Met
met = record {
  clock = 5000;
  polled = 6000;
  handover = ok (device ∷ []);
  retained = ok [];
  snapshot = ok (device ∷ []);
  input = record { clock = 7000; packet = ok (some start); events = ok []; quiet_for = 0 };
}

abbrev digest : Str → Str
digest s = str "0123456789abcdef"

abbrev same : Str → Str
same s = s

abbrev no_text : Json → Str
no_text v = str "?"

abbrev after : Running
after = (round same no_text no_text digest (str "g") (str "h") (str "a") (str "b") met preview).1

-- It returns, active, with the publisher stopped.
takes_over :
    (round same no_text no_text digest (str "g") (str "h") (str "a") (str "b") met preview
      ≡ (ok true, after))
    × (after.loop.active ≡ true)
    × (after.world.publisher.running ≡ false)
    × (after.world.mode ≡ str "active")
unfolding round before_select act hand_over topics discover_each refresh turn handle_command forward
    send_request send_message handle_messages unexpired keep_alive write_action write_migration
    report activate take_over publisher_state stop_publisher make_plan readings current plan_records
    name_mower fresh_records sensors fresh_config publish send_all publish_discovery
    publish_activity discovery_messages command gen1_order request key legacy_key activity get put
    str str_eq contains starts_with gen1_activity in_numbers nested_value equals_nat
takes_over = (refl, refl, refl, refl)

round-RoundDoes_example :
    RoundDoes same met preview
      (before_select same no_text no_text digest
        (str "g")
        (str "h")
        (str "a")
        (str "b")
        met
        preview).1
      after
round-RoundDoes_example =
    round-RoundDoes same no_text no_text digest (str "g") (str "h") (str "a") (str "b") met preview
      after (ok true) takes_over.0
