-- ===== src/Telemetry/Publish.antt =====
-- gardena_local_mqtt/telemetry.py, `publish`. `send topic payload` is `mqtt.publish(topic, payload,
-- retain=True)`, and `dumps` is `json.dumps`.
use gardena_matter_mqtt_brid.Base.{List, [], ◌∷◌, map}
use gardena_matter_mqtt_brid.Base.Exec.{type_error, ok, err, Result, Exec, lift, pure, ◌>>=◌, ◌>>◌}
use gardena_matter_mqtt_brid.Text.{Str, str}
use gardena_matter_mqtt_brid.Json.{Json, string, dict}
use gardena_matter_mqtt_brid.Json.Dict.{Dict, put}
use gardena_matter_mqtt_brid.Telemetry.{Device, Entity, readings}

abbrev pub with_availability : Str → Dict Json → Dict Json
with_availability availability config = put (str "payload_not_available") (string (str "offline")) (
    put (str "payload_available") (string (str "online"))
      (put (str "availability_topic") (string availability) config))

-- The discovery message of an entity.
abbrev pub config_message : (Json → Str) → Str → Entity → Str × Str
config_message dumps availability e =
    (e.topic, dumps (dict (with_availability availability e.config)))

-- `_mqtt_string` of a topic that stands in a plan.
abbrev pub topic_text : Json → Result Str
topic_text (string t) = ok t
topic_text v = err type_error

module _ {S : Type 0} (send : Str → Str → Exec S (Unit {0})) where
  unfoldable pub send_all : List (Str × Str) → Exec S (Unit {0})
  send_all [] = pure tt
  send_all ((topic, payload) ∷ rest) = do send topic payload; send_all rest

  -- A topic that is no text raises when its value is sent.
  abbrev pub send_values : List (Json × Str) → Exec S (Unit {0})
  send_values [] = pure tt
  send_values ((topic, payload) ∷ rest) = do
    t ← lift (topic_text topic)
    send t payload
    send_values rest

  unfoldable pub publish : (Json → Str) → List Entity → List Device → Str → Exec S (Unit {0})
  publish dumps plan devices availability = do
    values ← lift (readings plan devices)
    send_all (map (config_message dumps availability) plan)
    send_values values
