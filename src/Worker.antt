-- ===== src/Worker.antt =====
-- gardena_local_mqtt/worker.py with gateway.py and storage.py: the takeover of the publisher and the
-- way back, on a world that holds what outlives the process. A call that leaves the process may fail
-- before, amid or after its effect; the world lists how the calls to come will end, and a call that
-- the list does not reach succeeds. A file holds the value that was written to it.
pub mod Journal
pub mod Histories
pub mod Handover
pub mod Asked
pub mod Loop
pub mod Round
pub mod Controls
mod Tests
use gardena_matter_mqtt_brid.Base.{
  ℕ, Bool, true, false, not, ◌||◌, ◌&&◌, Option, none, some, List, [], ◌∷◌, ◌++◌, map,
  if◌then◌else◌,
}
use gardena_matter_mqtt_brid.Base.Exec.{
  Exec, Result, ok, err, pure, lift, gets, modify, ◌>>=◌, ◌>>◌, connection_error,
}
use gardena_matter_mqtt_brid.Text.{Str, str, str_eq, contains}
use gardena_matter_mqtt_brid.Json.{Json}
use gardena_matter_mqtt_brid.Json.Dict.{Dict, get, put}
use gardena_matter_mqtt_brid.Mower.{Mower}
use gardena_matter_mqtt_brid.Telemetry.{Device, Entity, readings}

pub data Outcome : Type 0 where
  done failed_before failed_midway failed_after : Outcome

-- gardena-mqtt-publisher.service on the gateway.
pub record Publisher : Type 0 where
  pub running : Bool
  pub enabled : Bool

pub data Phase : Type 0 where
  taking_over active : Phase

-- The journal migration.json.
pub record Migration : Type 0 where
  pub phase : Phase
  pub binding : Str
  pub previous : Publisher
  pub plan : List Entity
  pub mower_ids : List Str

pub record World : Type 0 where
  pub migration : Option Migration
  pub action : Option Str
  pub mode : Str
  pub installed : Bool
  pub publisher : Publisher
  pub published : List (Str × Str)
  pub outcomes : List Outcome

-- A call with the effect `full`, of which a failure amid it leaves `half`.
abbrev pub run_call : List Outcome → (World → World) → (World → World) → Exec World (Unit {0})
run_call [] half full w = (ok tt, full w)
run_call (done ∷ os) half full w = (ok tt, full (record w { outcomes = os }))
run_call (failed_before ∷ os) half full w = (err connection_error, record w { outcomes = os })
run_call (failed_midway ∷ os) half full w =
    (err connection_error, half (record w { outcomes = os }))
run_call (failed_after ∷ os) half full w = (err connection_error, full (record w { outcomes = os }))

abbrev pub external : (World → World) → (World → World) → Exec World (Unit {0})
external half full w = run_call w.outcomes half full w

abbrev pub same_world : World → World
same_world w = w

-- `storage.write`: the file is replaced as a whole.
unfoldable pub write_migration : Option Migration → Exec World (Unit {0})
write_migration m = external same_world (λ w. record w { migration = m })

unfoldable pub write_action : Option Str → Exec World (Unit {0})
write_action a = external same_world (λ w. record w { action = a })

-- `report(mode, ...)`
unfoldable pub report : Str → Exec World (Unit {0})
report mode = external same_world (λ w. record w { mode = mode })

-- `Gateway.publisher_state`
unfoldable pub publisher_state : Exec World Publisher
publisher_state = do external same_world same_world; gets (λ w. w.publisher)

abbrev pub stopped : World → World
stopped w =
    if w.installed then record w { publisher = record { running = false; enabled = false } } else w

-- Stopped, and not yet disabled.
abbrev pub half_stopped : World → World
half_stopped w =
    if w.installed
    then record w { publisher = record { running = false; enabled = w.publisher.enabled } }
    else w

abbrev pub still_running : World → Result (Unit {0}) × World
still_running w = (if w.publisher.running then err connection_error else ok tt, w)

-- `Gateway.stop_publisher`: stop and disable the service if it is there, and fail if it still runs.
unfoldable pub stop_publisher : Exec World (Unit {0})
stop_publisher = do external half_stopped stopped; still_running

abbrev pub restored : Publisher → World → World
restored p w = record w {
  publisher = record {
    running = w.publisher.running || p.running;
    enabled = w.publisher.enabled || p.enabled;
  };
}

abbrev pub half_restored : Publisher → World → World
half_restored p w = record w {
  publisher = record { running = w.publisher.running; enabled = w.publisher.enabled || p.enabled };
}

-- `Gateway.restore_publisher`: enable, then start, what was so before; no call if neither was.
unfoldable pub restore_publisher : Publisher → Exec World (Unit {0})
restore_publisher p w =
    if p.enabled || p.running then external (half_restored p) (restored p) w else (ok tt, w)

-- `mqtt.publish(topic, payload, retain=True)`
unfoldable pub send : Str → Str → Exec World (Unit {0})
send topic payload =
    external same_world (λ w. record w { published = w.published ++ (topic, payload) ∷ [] })

-- The journal that `activate` writes.
abbrev pub journal : Phase → Str → Publisher → List Entity → List Mower → Migration
journal phase binding previous plan mowers = record {
  phase = phase;
  binding = binding;
  previous = previous;
  plan = plan;
  mower_ids = map (λ m. m.device_id) mowers;
}

-- The rest of `activate`, from the journal on.
unfoldable pub take_over : Str → List Entity → List Mower → Publisher → Exec World Migration
take_over binding plan mowers previous = do
  write_migration (some (journal taking_over binding previous plan mowers))
  stop_publisher
  write_migration (some (journal active binding previous plan mowers))
  pure (journal active binding previous plan mowers)

-- `Worker.activate`; `binding` is `binding(self.config)`.
unfoldable pub activate : Str → List Entity → List Mower → List Device → Exec World Migration
activate binding plan mowers devices = do
  lift (readings plan devices)
  previous ← publisher_state
  take_over binding plan mowers previous

-- The messages of `rollback`, in its order: the availability, the entities as they were, and the
-- controls of each key, once each. (A set is read in some order; here in that of the plan.)
abbrev pub original_message : (Json → Str) → Entity → Str × Str
original_message dumps e = (e.topic, elim e.original [ none ↦ [] | some o ↦ dumps o ])

abbrev pub keys_of : List Str → List Entity → List Str
keys_of seen [] = []
keys_of seen (e ∷ es) =
    let rest = keys_of (if contains seen e.key then seen else e.key ∷ seen) es in
    if contains seen e.key then rest else e.key ∷ rest

abbrev pub control_topics : Str → Str → List Str
control_topics ha_prefix key =
    (ha_prefix ++ (str "/lawn_mower/gardena_" ++ (key ++ str "/config")))
    ∷ (ha_prefix ++ (str "/button/gardena_" ++ (key ++ str "/start_1h/config")))
    ∷ (ha_prefix ++ (str "/button/gardena_" ++ (key ++ str "/start_3h/config")))
    ∷ (ha_prefix ++ (str "/button/gardena_" ++ (key ++ str "/start_6h/config")))
    ∷ []

abbrev pub clear_all : List Str → List (Str × Str)
clear_all [] = []
clear_all (t ∷ ts) = (t, []) ∷ clear_all ts

abbrev pub control_messages : Str → List Str → List (Str × Str)
control_messages ha_prefix [] = []
control_messages ha_prefix (k ∷ ks) =
    clear_all (control_topics ha_prefix k) ++ control_messages ha_prefix ks

unfoldable pub rollback_messages : (Json → Str) → Str → Str → List Entity → List (Str × Str)
rollback_messages dumps availability ha_prefix plan =
    (availability, str "offline")
    ∷ (map (original_message dumps) plan ++ control_messages ha_prefix (keys_of [] plan))

unfoldable pub send_all : List (Str × Str) → Exec World (Unit {0})
send_all [] = pure tt
send_all ((topic, payload) ∷ rest) = do send topic payload; send_all rest

-- What ends a takeover that did not complete, in `Worker.run`, and every rollback.
unfoldable pub abandon : Migration → Exec World (Unit {0})
abandon state = do restore_publisher state.previous; write_migration none

-- `Worker.rollback`
unfoldable pub rollback : (Json → Str) → Str → Str → Migration → Exec World (Unit {0})
rollback dumps availability ha_prefix state = do
  send_all (rollback_messages dumps availability ha_prefix state.plan)
  abandon state

-- The rollback that is asked for when `Worker.run` begins with a journal, with what it writes after.
unfoldable pub run_rollback : (Json → Str) → Str → Str → Migration → Exec World (Unit {0})
run_rollback dumps availability ha_prefix state = do
  rollback dumps availability ha_prefix state
  write_action none
  report (str "rolled_back")
