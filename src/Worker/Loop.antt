-- ===== src/Worker/Loop.antt =====
-- gardena_local_mqtt/worker.py, the body of the loop of `Worker.run` from the select on: a command
-- from MQTT, messages of the gateway, the commands that wait for an answer, and the ping. `strip` is
-- `str.strip` and `show` is `str` of a value that is no text.
--
-- The mowers of the topics are the objects of the list; what a command reads of them (the device
-- id and the generation) no event changes, so each is kept on its own.
pub mod Quiet
pub mod Turns
mod Tests
use gardena_matter_mqtt_brid.Base.{
  ℕ, zero, suc, ◌+◌, ◌≡◌, refl, Bool, true, false, not, ◌&&◌, Option, none, some, List, [], ◌∷◌,
  ◌++◌, ltb, leb, length, if◌then◌else◌,
}
use gardena_matter_mqtt_brid.Base.Exec.{
  Exec, Result, ok, err, pure, lift, gets, modify, raise_if, ◌>>=◌, ◌>>◌, value_error,
  connection_error,
}
use gardena_matter_mqtt_brid.Text.{Str, str}
use gardena_matter_mqtt_brid.Json.{Json, string}
use gardena_matter_mqtt_brid.Json.Dict.{Dict, get, put, remove}
use gardena_matter_mqtt_brid.Mower.{Mower, command}
use gardena_matter_mqtt_brid.Mower.Event.{apply_event}
use gardena_matter_mqtt_brid.Mower.Discovery.{publish_activity}

abbrev pub max_pending_commands : ℕ
max_pending_commands = 32

-- What the loop holds, and what it has sent: requests to the gateway and messages to the broker. A
-- send fails on a broken connection.
pub record Loop : Type 0 where
  pub active : Bool
  pub by_topic : Dict Mower
  pub mowers : List Mower
  pub pending : Dict ℕ
  pub now : ℕ
  pub requests : List Json
  pub messages : List (Str × Str)
  pub pings : ℕ
  pub ws_broken : Bool
  pub mqtt_broken : Bool

-- `ws.send_text(json.dumps(command))`
unfoldable pub send_request : Json → Exec Loop (Unit {0})
send_request r l =
    if l.ws_broken
    then (err connection_error, l)
    else (ok tt, record l { requests = l.requests ++ r ∷ [] })

unfoldable pub send_message : Str → Str → Exec Loop (Unit {0})
send_message topic payload l =
    if l.mqtt_broken
    then (err connection_error, l)
    else (ok tt, record l { messages = l.messages ++ (topic, payload) ∷ [] })

-- A PUBLISH packet that came, taken apart, and the id that a request made now would have.
pub record Incoming : Type 0 where
  pub topic : Str
  pub payload : Str
  pub retained : Bool
  pub request_id : Str

-- `active and mower and not retained and len(pending) < MAX_PENDING_COMMANDS`
abbrev pub admits : Loop → Incoming → Bool
admits l p = l.active && (not p.retained && ltb (length l.pending) max_pending_commands)

-- A request that was made is sent, and waits for its answer for 30 seconds.
unfoldable pub forward : Str → Json → Exec Loop Bool
forward request_id r = do
  send_request r
  modify (λ l. record l { pending = put request_id (l.now + 30000) l.pending })
  pure true

-- The command of a packet. False: `continue`, the rest of the turn is skipped.
unfoldable pub handle_command : (Str → Str) → Incoming → Exec Loop Bool
handle_command strip p l = elim (get p.topic l.by_topic) [
  | none ↦ (ok true, l)
  | some m ↦
      if admits l p
      then elim (command m p.request_id (strip p.payload)) [
        | ok r ↦ forward p.request_id r l
        | err value_error ↦ (ok false, l)
        | err e ↦ (err e, l)
      ]
      else (ok true, l)
]

-- `pending.pop(message.get('request_id'), None)`
abbrev pop_request : Dict Json → Dict ℕ → Dict ℕ
pop_request message pending = elim (get (str "request_id") message) [
  | some (string id) ↦ remove id pending
  | _ ↦ pending
]

module _ (show : Json → Str) (digest : Str → Str) (prefix : Str) where
  abbrev announce : Bool → Mower → Exec Loop (Unit {0})
  announce true m = publish_activity digest send_message prefix m
  announce false m = pure tt

  -- The mowers in turn: those before `seen` are done. A mower keeps what an event wrote to it even
  -- when the event raises.
  unfoldable pub update_mowers : Dict Json → List Mower → List Mower → Exec Loop (Unit {0})
  update_mowers message seen [] = modify (λ l. record l { mowers = seen })
  update_mowers message seen (m ∷ ms) =
      let (applied, m') = apply_event show m message in
      do
        modify (λ l. record l { mowers = seen ++ m' ∷ ms })
        changed ← lift applied
        active ← gets (λ l. l.active)
        announce (changed && active) m'
        update_mowers message (seen ++ m' ∷ []) ms

  unfoldable pub handle_messages : List (Dict Json) → Exec Loop (Unit {0})
  handle_messages [] = pure tt
  handle_messages (message ∷ rest) = do
    modify (λ l. record l { pending = pop_request message l.pending })
    mowers ← gets (λ l. l.mowers)
    update_mowers message [] mowers
    handle_messages rest

-- `for request_id, (mower, deadline) in list(pending.items()): ...`
unfoldable pub unexpired : ℕ → Dict ℕ → Dict ℕ
unexpired now [] = []
unexpired now ((id, deadline) ∷ d) =
    let rest = unexpired now d in if leb deadline now then rest else (id, deadline) ∷ rest

abbrev pub expire : Exec Loop (Unit {0})
expire = modify (λ l. record l { pending = unexpired l.now l.pending })

-- What a turn found: the PUBLISH packet that was received, none without one, the messages that
-- `gateway_messages` made of a text that was received, or what the receiving raised; and for how long
-- nothing went to the broker or came from it at the end of the turn.
pub record Input : Type 0 where
  pub clock : ℕ
  pub packet : Result (Option Incoming)
  pub events : Result (List (Dict Json))
  pub quiet_for : ℕ

-- `mqtt.ping()`
abbrev ping : Exec Loop (Unit {0})
ping l =
    if l.mqtt_broken then (err connection_error, l) else (ok tt, record l { pings = suc l.pings })

-- `if time.monotonic() - mqtt.last_io > 15: mqtt.ping()`
unfoldable pub keep_alive : ℕ → Exec Loop (Unit {0})
keep_alive quiet_for = if ltb 15000 quiet_for then ping else pure tt

abbrev maybe_command : (Str → Str) → Option Incoming → Exec Loop Bool
maybe_command strip none = pure true
maybe_command strip (some p) = handle_command strip p

module _ (strip : Str → Str) (show : Json → Str) (digest : Str → Str) (prefix : Str) where
  abbrev pub rest_of_turn : Input → Bool → Exec Loop (Unit {0})
  rest_of_turn i true = do
    events ← lift i.events
    handle_messages show digest prefix events
    expire
    keep_alive i.quiet_for
  rest_of_turn i false = pure tt

  unfoldable pub turn : Input → Exec Loop (Unit {0})
  turn i = do
    modify (λ l. record l { now = i.clock })
    packet ← lift i.packet
    go_on ← maybe_command strip packet
    rest_of_turn i go_on
