-- ===== src/Deploy/Tests.antt =====
-- An installation that succeeds, one that a gateway refuses, the app's loop around them, and the
-- theorems at these.
use gardena_matter_mqtt_brid.Base.{◌≡◌, ◌≢◌, refl, true, false, none, some, [], ◌∷◌, All}
use gardena_matter_mqtt_brid.Base.Exec.{ok, err, install_error}
use gardena_matter_mqtt_brid.Text.{str, str_eq, all_chars, is_digit}
use gardena_matter_mqtt_brid.Json.Dict.{get}
use gardena_matter_mqtt_brid.Json.{string}
use gardena_matter_mqtt_brid.Telemetry.{Device, Entity, readings, current}
use gardena_matter_mqtt_brid.Worker.{Migration, active}
use gardena_matter_mqtt_brid.Deploy.{
  Site, Config, switched, finished, running, configuration, call, service_call, step,
  write_deployment, write_progress, report, stop_worker, runtime_config, check_space, check_free,
}
use gardena_matter_mqtt_brid.Deploy.Install.{
  Inputs, transfer, prepare, stop_publisher, health, try_health, await_health, start_runtime,
  or_give_up, switch_over, install_steps, install, refresh_status,
}
use gardena_matter_mqtt_brid.Deploy.Installed.{install-switches}
use gardena_matter_mqtt_brid.Deploy.Unready.{install-unready}
use gardena_matter_mqtt_brid.Deploy.Supervisor.{
  Supervisor, try_action, do_action, refresh, stand_by, start_worker, keep_worker, turn,
}
use gardena_matter_mqtt_brid.Deploy.Single.{IsAlone}
use gardena_matter_mqtt_brid.Deploy.Control.{start, turned, turn-Runs}
use gardena_matter_mqtt_brid.Deploy.Lock.{turn_unlocks}
use gardena_matter_mqtt_brid.Deploy.Wait.{wait_enough}

abbrev device : Device
device = record { serial = str "s1"; values = (str "battery_level", str "87") ∷ [] }

abbrev battery : Entity
battery = record {
  topic = str "homeassistant/sensor/gardena_ab12/battery/config";
  original = none;
  config = (str "state_topic", string (str "gardena/ab12/battery/state")) ∷ [];
  key = str "ab12";
  resource = str "battery_level";
  serial = str "s1";
}

abbrev migration : Migration
migration = record {
  phase = active;
  binding = str "b";
  previous = record { running = true; enabled = true };
  plan = battery ∷ [];
  mower_ids = [];
}

abbrev config : Config
config = record {
  binding = str "b";
  mqtt_host = str "broker";
  mqtt_port = 1883;
  mqtt_user = str "";
  mqtt_password = str "";
  gateway_password = str "12345678";
  topic_prefix = str "gardena";
  ha_prefix = str "homeassistant";
}

abbrev inputs : Inputs
inputs = record {
  cfg = config;
  snapshot = ok (device ∷ []);
  architecture = str "mips";
  free = str "9000";
  binary_size = 4000000;
  digest = str "d1";
}

-- The gateway is ready at the second try.
abbrev home : Site
home = record {
  migration = some migration;
  erased = false;
  deployment = none;
  installation = none;
  cleanup = none;
  mode = str "worker";
  worker = false;
  publisher = false;
  service = record { running = false; enabled = false };
  told = [];
  now = 0;
  observed = [];
  endings = [];
  probes = record { took = 200; found = ok false } ∷ record { took = 300; found = ok true } ∷ [];
}

abbrev ready : Site
ready = (install inputs home).1

installs : install inputs home ≡ (ok tt, ready)
unfolding install step call install_steps prepare runtime_config transfer check_space check_free
    report switch_over write_deployment stop_worker or_give_up start_runtime stop_publisher
    service_call await_health try_health health write_progress str_eq str readings get current
    all_chars is_digit
installs = refl

install-switches_example :
    (ready.worker ≡ false)
    × (ready.publisher ≡ false)
    × (ready.service ≡ record { running = true; enabled = true })
    × (ready.deployment ≡ some (record { phase = switched; binding = str "b"; digest = str "d1" }))
    × (ready.mode ≡ str "gateway")
    × (ready.installation ≡ some finished)
install-switches_example = install-switches inputs home ready tt installs

-- Another architecture.
abbrev other : Inputs
other = record inputs { architecture = str "x86_64" }

abbrev first_step : Site
first_step = record home { installation = some (running configuration) }

noted : step configuration home ≡ (ok tt, first_step)
unfolding step call
noted = refl

abbrev refused : Site
refused = (prepare other first_step).1

refuses : prepare other first_step ≡ (err install_error, refused)
unfolding prepare step call runtime_config transfer check_space str_eq str readings get current
refuses = refl

install-unready_example :
    ((install other home).0 ≢ ok tt)
    × ((install other home).1.worker ≡ false)
    × ((install other home).1.publisher ≡ false)
    × ((install other home).1.service ≡ record { running = false; enabled = false })
    × ((install other home).1.deployment ≡ none)
    × ((install other home).1.observed ≡ [])
install-unready_example =
    install-unready other home first_step refused (install other home).1 tt install_error
      (install other home).0 noted refuses refl

-- The app starts, its first turn starts the worker, and then an installation is asked for.
abbrev app : Supervisor
app = record { site = home; action = none; locked = false; next_check = 0 }

abbrev at_work : Supervisor
at_work = (turn inputs none app).1

first_turn : turn inputs none app ≡ (ok tt, at_work)
unfolding turn keep_worker start_worker call
first_turn = refl

works : at_work.site.worker ≡ true
unfolding turn keep_worker start_worker call
works = refl

abbrev asked : Supervisor
asked = record at_work { action = some (str "install"); locked = true }

abbrev moved : Supervisor
moved = (turn inputs none asked).1

second_turn : turn inputs none asked ≡ (ok tt, moved)
unfolding turn keep_worker start_worker do_action try_action stand_by refresh install step call
    install_steps prepare runtime_config transfer check_space check_free report switch_over
    write_deployment stop_worker or_give_up start_runtime stop_publisher service_call await_health
    try_health health write_progress str_eq str readings get current all_chars is_digit
    refresh_status
second_turn = refl

-- Of the worker and the service: none, the worker, none, the service, the service.
observes : moved.site.observed ≡ (false, true) ∷ (false, true) ∷ (false, false) ∷ (true, false) ∷ []
unfolding turn keep_worker start_worker do_action try_action stand_by refresh install step call
    install_steps prepare runtime_config transfer check_space check_free report switch_over
    write_deployment stop_worker or_give_up start_runtime stop_publisher service_call await_health
    try_health health write_progress str_eq str readings get current all_chars is_digit
    refresh_status
observes = refl

turn-Runs_example :
    All IsAlone moved.site.observed
    × (moved.site.deployment ≡ none → moved.site.service.running ≡ false)
turn-Runs_example =
    turn-Runs inputs none app at_work asked moved (ok tt) refl (λ e. refl) refl
      (turned inputs none start
        (record {
          same_deployment = refl;
          same_worker = refl;
          same_service = refl;
          same_observed = refl;
        })
        first_turn)
      (record {
        same_deployment = refl;
        same_worker = refl;
        same_service = refl;
        same_observed = refl;
      })
      second_turn

turn_unlocks_example : (moved.locked ≡ false) × (moved.action ≡ none)
unfolding str
turn_unlocks_example = turn_unlocks inputs none asked moved b'i' (str "nstall") refl second_turn

wait_enough_example : await_health inputs 50 120000 home ≡ await_health inputs 41 120000 home
wait_enough_example = wait_enough inputs 9 home
