-- ===== src/Worker/Round.antt =====
-- gardena_local_mqtt/worker.py, the whole body of the loop of `Worker.run`: the action that the page
-- asked for, the poll of the sensors, and then the turn from the select on (Worker/Loop). `dumps` is
-- `json.dumps`, `digest` SHA-256 in hexadecimal and `binding` is `binding(self.config)`.
--
-- The retained messages of a rollback go to the world's list, those of the loop to the loop's.
pub mod Keeps
pub mod Waits
pub mod Before
pub mod Rounds
mod Tests
use gardena_matter_mqtt_brid.Base.{
  ℕ, zero, ◌+◌, Bool, true, false, not, ◌&&◌, Option, none, some, List, [], ◌∷◌, ◌++◌, leb,
  if◌then◌else◌,
}
use gardena_matter_mqtt_brid.Base.Exec.{
  Exec, Result, ok, err, pure, lift, gets, modify, ◌>>=◌, ◌>>◌,
}
use gardena_matter_mqtt_brid.Text.{Str, str, str_eq}
use gardena_matter_mqtt_brid.Json.{Json}
use gardena_matter_mqtt_brid.Json.Dict.{Dict, put}
use gardena_matter_mqtt_brid.Mower.{Mower, key}
use gardena_matter_mqtt_brid.Mower.Discovery.{publish_discovery}
use gardena_matter_mqtt_brid.Telemetry.{Device, Entity, Existing, make_plan, readings}
use gardena_matter_mqtt_brid.Telemetry.Publish.{publish}
use gardena_matter_mqtt_brid.Worker.{World, Migration, write_action, report, activate, rollback}
use gardena_matter_mqtt_brid.Worker.Loop.{Loop, Input, send_message, turn}

-- The variables of `run` in its loop; `journal` is `state`.
pub record Running : Type 0 where
  pub world : World
  pub loop : Loop
  pub plan : List Entity
  pub journal : Option Migration
  pub next_poll : ℕ

-- What a round meets: the time of the poll and after it, the parsed snapshots of a takeover and of the
-- poll, the entities that a takeover collects of the broker, and what the turn finds.
pub record Met : Type 0 where
  pub clock : ℕ
  pub polled : ℕ
  pub handover : Result (List Device)
  pub retained : Result (List Existing)
  pub snapshot : Result (List Device)
  pub input : Input

abbrev pub on_world : {A : Type 0} → Exec World A → Exec Running A
on_world m s = ((m s.world).0, record s { world = (m s.world).1 })

abbrev pub on_loop : {A : Type 0} → Exec Loop A → Exec Running A
on_loop m s = ((m s.loop).0, record s { loop = (m s.loop).1 })

-- `if action:`
abbrev pub wanted : Option Str → Option Str
wanted none = none
wanted (some []) = none
wanted (some (c ∷ s)) = some (c ∷ s)

abbrev pub mode_of : Bool → Str
mode_of true = str "active"
mode_of false = str "preview"

module _ (strip : Str → Str) (show dumps : Json → Str) (digest : Str → Str)
    (prefix ha_prefix availability binding : Str) where
  -- `{f'{self.topic_prefix}/{m.key}/mower/command': m for m in mowers}`
  unfoldable pub topics : Dict Mower → List Mower → Dict Mower
  topics d [] = d
  topics d (m ∷ ms) =
      topics (put (prefix ++ (str "/" ++ (key digest m ++ str "/mower/command"))) m d) ms

  -- The plan of a takeover is in use, its mowers are named.
  abbrev pub with_plan : List Entity → List Mower → Running → Running
  with_plan plan mowers s = record s { plan = plan; loop = record s.loop { mowers = mowers } }

  abbrev pub in_charge : Migration → List Mower → Running → Running
  in_charge j mowers s = record s {
    journal = some j;
    next_poll = 0;
    loop = record s.loop { active = true; by_topic = topics [] mowers };
  }

  abbrev pub take_charge : List Entity × List Mower → List Device → Exec Running (Unit {0})
  take_charge (plan, mowers) devices = do
    modify (with_plan plan mowers)
    state ← on_world (activate binding plan mowers devices)
    modify (in_charge state mowers)

  -- `if action == 'activate' and not active:`
  unfoldable pub hand_over : Met → Exec Running (Unit {0})
  hand_over i = do
    devices ← lift i.handover
    existing ← lift i.retained
    mowers ← gets (λ s. s.loop.mowers)
    planned ← lift (make_plan digest prefix ha_prefix devices existing mowers)
    take_charge planned devices

  -- `elif action == 'rollback' and state:`, after which `run` returns
  abbrev pub give_back : Option Migration → Exec Running Bool
  give_back none = pure true
  give_back (some state) = do
    on_world (rollback dumps availability ha_prefix state)
    on_world (report (str "rolled_back"))
    pure false

  abbrev pub chosen : Met → Str → Bool → Option Migration → Exec Running Bool
  chosen i name active state =
      if str_eq name (str "activate") && not active
      then (do hand_over i; pure true)
      else if str_eq name (str "rollback")
      then give_back state
      else pure true

  -- False: `run` returns.
  unfoldable pub act : Met → Option Str → Exec Running Bool
  act i none = pure true
  act i (some name) = do on_world (write_action none); λ s. chosen i name s.loop.active s.journal s

  unfoldable pub discover_each : List Mower → Exec Running (Unit {0})
  discover_each [] = pure tt
  discover_each (m ∷ ms) = do
    on_loop (publish_discovery digest send_message dumps prefix ha_prefix availability m)
    discover_each ms

  abbrev pub publish_all : Bool → List Entity → List Device → Exec Running (Unit {0})
  publish_all false plan devices = pure tt
  publish_all true plan devices = do
    on_loop (publish send_message dumps plan devices availability)
    mowers ← gets (λ s. s.loop.mowers)
    discover_each mowers
    on_loop (send_message availability (str "online"))

  abbrev pub publish_if : List Entity → List Device → Exec Running (Unit {0})
  publish_if plan devices s = publish_all s.loop.active plan devices s

  -- The poll of the sensors that is due.
  unfoldable pub refresh : Met → Exec Running (Unit {0})
  refresh i = do
    devices ← lift i.snapshot
    plan ← gets (λ s. s.plan)
    lift (readings plan devices)
    publish_if plan devices
    active ← gets (λ s. s.loop.active)
    on_world (report (mode_of active))
    modify (λ s. record s { next_poll = i.polled + 30000 })

  abbrev pub poll : Met → Exec Running (Unit {0})
  poll i s = (if leb s.next_poll i.clock then refresh i else pure tt) s

  abbrev pub poll_after : Met → Bool → Exec Running Bool
  poll_after i false = pure false
  poll_after i true = do poll i; pure true

  -- A round up to the select.
  unfoldable pub before_select : Met → Exec Running Bool
  before_select i = do
    action ← gets (λ s. wanted s.world.action)
    go_on ← act i action
    poll_after i go_on

  abbrev pub turn_after : Met → Bool → Exec Running Bool
  turn_after i false = pure false
  turn_after i true = do on_loop (turn strip show digest prefix i.input); pure true

  -- The body of the loop. False: `run` returns.
  unfoldable pub round : Met → Exec Running Bool
  round i = do go_on ← before_select i; turn_after i go_on
