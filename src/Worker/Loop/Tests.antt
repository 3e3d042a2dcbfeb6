-- ===== src/Worker/Loop/Tests.antt =====
-- A turn that forwards a command, and the theorem on turns at it.
use gardena_matter_mqtt_brid.Base.{◌≡◌, refl, true, false, none, some, [], ◌∷◌}
use gardena_matter_mqtt_brid.Base.Exec.{ok}
use gardena_matter_mqtt_brid.Text.{Str, str, str_eq}
use gardena_matter_mqtt_brid.Json.{Json, obj, field, int, pos, end}
use gardena_matter_mqtt_brid.Json.Dict.{get, put}
use gardena_matter_mqtt_brid.Mower.{Mower, Order, request, command, gen1_order}
use gardena_matter_mqtt_brid.Worker.Loop.{
  Loop, Incoming, Input, turn, handle_command, forward, send_request, handle_messages, unexpired,
  keep_alive,
}
use gardena_matter_mqtt_brid.Worker.Loop.Turns.{TurnDoes, turn-TurnDoes}

abbrev mower : Mower
mower = record {
  device_id = str "d1";
  model_number = str "29694";
  name = str "SILENO";
  generation = str "gen1";
  state = obj end;
  publisher_key = none;
  publisher_identifier = none;
}

abbrev idle : Loop
idle = record {
  active = true;
  by_topic = (str "gardena/k/mower/command", mower) ∷ [];
  mowers = mower ∷ [];
  pending = [];
  now = 0;
  requests = [];
  messages = [];
  pings = 0;
  ws_broken = false;
  mqtt_broken = false;
}

abbrev start : Incoming
start = record {
  topic = str "gardena/k/mower/command";
  payload = str "start_1h";
  retained = false;
  request_id = str "r1";
}

abbrev input : Input
input = record { clock = 5; packet = ok (some start); events = ok []; quiet_for = 0 }

abbrev order : Order
order = record {
  path = str "lemonbeat/0/mower_timer";
  payload = some (obj (field (str "vi") (int (pos 3600)) end));
}

abbrev asked : Loop
asked = record idle {
  pending = (str "r1", 30005) ∷ [];
  now = 5;
  requests = request (str "d1") (str "lemonbeatd") (str "write") (str "r1") order ∷ [];
}

abbrev same : Str → Str
same s = s

abbrev no_text : Json → Str
no_text v = str "?"

turn_run : turn same no_text same (str "gardena") input idle ≡ (ok tt, asked)
unfolding turn handle_command forward send_request handle_messages unexpired keep_alive get put str
    str_eq command gen1_order request
turn_run = refl

turn-TurnDoes_example : TurnDoes same input idle asked
turn-TurnDoes_example =
    turn-TurnDoes same no_text same (str "gardena") input idle asked (ok tt) turn_run
