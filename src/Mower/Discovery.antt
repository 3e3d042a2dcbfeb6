-- ===== src/Mower/Discovery.antt =====
-- gardena_local_mqtt/protocol.py, what `ControlPublisher` publishes for a mower: its discovery with
-- three buttons, and its activity. `send topic payload` is `mqtt.publish(topic, payload,
-- retain=True)`, `dumps` is `json.dumps` and `hexdigest` SHA-256 in hexadecimal.
use gardena_matter_mqtt_brid.Base.{
  ℕ, not, Option, none, some, List, [], ◌∷◌, ◌++◌, map, if◌then◌else◌,
}
use gardena_matter_mqtt_brid.Base.Exec.{Exec, pure, lift, ◌>>=◌, ◌>>◌}
use gardena_matter_mqtt_brid.Text.{Str, str, str_eq, decimal}
use gardena_matter_mqtt_brid.Json.{Json, null, string, dict, list}
use gardena_matter_mqtt_brid.Mower.{
  Mower, key, legacy_key, device_identifier, supports_pause, activity,
}

module _ (hexdigest : Str → Str) where
  abbrev device_of : Mower → Json
  device_of m = dict (
      (str "identifiers", list (string (device_identifier hexdigest m) ∷ []))
      ∷ (str "name", string m.name)
      ∷ (str "manufacturer", string (str "GARDENA"))
      ∷ (str "model", string m.name)
      ∷ [])

  abbrev base_topic : Str → Mower → Str
  base_topic prefix m = prefix ++ (str "/" ++ (key hexdigest m ++ str "/mower"))

  abbrev command_topic : Str → Mower → Json
  command_topic prefix m = string (base_topic prefix m ++ str "/command")

  unfoldable pub discovery_payload : Mower → Str → Str → Json
  discovery_payload m prefix availability = dict (
      (str "name", null)
      ∷ (str "unique_id", string (str "gardena_" ++ (key hexdigest m ++ str "_lawn_mower")))
      ∷ (str "activity_state_topic", string (base_topic prefix m ++ str "/activity/state"))
      ∷ (str "start_mowing_command_topic", command_topic prefix m)
      ∷ (str "dock_command_topic", command_topic prefix m)
      ∷ (str "availability_topic", string availability)
      ∷ (str "payload_available", string (str "online"))
      ∷ (str "payload_not_available", string (str "offline"))
      ∷ (str "device", device_of m)
      ∷ (if supports_pause m then (str "pause_command_topic", command_topic prefix m) ∷ [] else []))

  abbrev button_id : Mower → ℕ → Str
  button_id m hours =
      str "gardena_" ++ (key hexdigest m ++ (str "_start_" ++ (decimal hours ++ str "h")))

  unfoldable pub button_discovery_payload : Mower → Str → Str → ℕ → Json
  button_discovery_payload m prefix availability hours = dict (
      (str "name", string (str "Start " ++ (decimal hours ++ str " h")))
      ∷ (str "object_id", string (button_id m hours))
      ∷ (str "unique_id", string (button_id m hours))
      ∷ (str "command_topic", command_topic prefix m)
      ∷ (str "payload_press", string (str "start_" ++ (decimal hours ++ str "h")))
      ∷ (str "availability_topic", string availability)
      ∷ (str "payload_available", string (str "online"))
      ∷ (str "payload_not_available", string (str "offline"))
      ∷ (str "icon", string (str "mdi:timer-play-outline"))
      ∷ (str "device", device_of m)
      ∷ [])

  abbrev lawn_mower_topic : Str → Str → Str
  lawn_mower_topic ha_prefix k = ha_prefix ++ (str "/lawn_mower/gardena_" ++ (k ++ str "/config"))

  abbrev button_topic : Str → Mower → ℕ → Str
  button_topic ha_prefix m hours =
      ha_prefix
      ++ (str "/button/gardena_"
          ++ (key hexdigest m ++ (str "/start_" ++ (decimal hours ++ str "h/config"))))

  abbrev button_message : (Json → Str) → Str → Str → Str → Mower → ℕ → Str × Str
  button_message dumps prefix ha_prefix availability m hours =
      (button_topic ha_prefix m hours, dumps (button_discovery_payload m prefix availability hours))

  -- The legacy topic is cleared when the mower goes by another key.
  abbrev pub legacy_messages : Str → Mower → List (Str × Str)
  legacy_messages ha_prefix m =
      if not (str_eq (key hexdigest m) (legacy_key hexdigest m))
      then (lawn_mower_topic ha_prefix (legacy_key hexdigest m), []) ∷ []
      else []

  unfoldable pub discovery_messages : (Json → Str) → Str → Str → Str → Mower → List (Str × Str)
  discovery_messages dumps prefix ha_prefix availability m =
      (
        lawn_mower_topic ha_prefix (key hexdigest m),
        dumps (discovery_payload m prefix availability),
      )
      ∷ map (button_message dumps prefix ha_prefix availability m) (1 ∷ 3 ∷ 6 ∷ [])

  module _ {S : Type 0} (send : Str → Str → Exec S (Unit {0})) where
    abbrev pub send_each : List (Str × Str) → Exec S (Unit {0})
    send_each [] = pure tt
    send_each ((topic, payload) ∷ rest) = do send topic payload; send_each rest

    abbrev pub send_activity : Str → Mower → Option Str → Exec S (Unit {0})
    send_activity prefix m none = pure tt
    send_activity prefix m (some a) = send (base_topic prefix m ++ str "/activity/state") a

    -- `publish_activity(mqtt, mower)`
    unfoldable pub publish_activity : Str → Mower → Exec S (Unit {0})
    publish_activity prefix m = do a ← lift (activity m); send_activity prefix m a

    unfoldable pub publish_discovery : (Json → Str) → Str → Str → Str → Mower → Exec S (Unit {0})
    publish_discovery dumps prefix ha_prefix availability m = do
      send_each (legacy_messages ha_prefix m)
      send_each (discovery_messages dumps prefix ha_prefix availability m)
      publish_activity prefix m
