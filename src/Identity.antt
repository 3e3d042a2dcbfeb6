-- ===== src/Identity.antt =====
-- gardena_local_mqtt/protocol.py: the identity under which the gateway's own publisher announced a
-- mower, the correction of its discovery message, and the mower that takes the identity over. `loads`
-- is `json.loads`, none when it raises; `dumps` is `json.dumps`.
pub mod Exact
pub mod Repair
pub mod Adopted
mod Tests
use gardena_matter_mqtt_brid.Base.{
  ℕ, zero, suc, ◌+◌, Bool, true, false, not, ◌&&◌, ◌||◌, Option, none, some, List, [], ◌∷◌, ◌++◌,
  leb, ltb, ◌==◌, length, if◌then◌else◌,
}
use gardena_matter_mqtt_brid.Base.Exec.{
  Exec, Result, ok, err, value_error, timeout_error, pure, lift, ◌>>=◌, ◌>>◌,
}
use gardena_matter_mqtt_brid.Text.{Str, str, str_eq, contains, all_chars, is_hex, without_prefix}
use gardena_matter_mqtt_brid.Json.{
  Json, string, arr, obj, cons, nil, entries, of_entries, equals_str,
}
use gardena_matter_mqtt_brid.Json.Dict.{Dict, get, put}
use gardena_matter_mqtt_brid.Mower.{Mower, or_null}
use gardena_matter_mqtt_brid.Mower.Event.{in_texts}
use gardena_matter_mqtt_brid.Mqtt.{MqttClient, publish, parse_publish}

-- The first characters of the topics.
pub record Scope : Type 0 where
  pub topic_prefix : Str
  pub ha_prefix : Str

abbrev pub is_key : Str → Bool
is_key k = (length k == 4) && all_chars is_hex k

abbrev checked_key : Option Str → Option Str
checked_key none = none
checked_key (some k) = if is_key k then some k else none

-- `re.fullmatch(r"gardena_[0-9a-f]{4}", identifier)`, and the key that follows
unfoldable pub key_of : Str → Option Str
key_of identifier = checked_key (without_prefix identifier (str "gardena_"))

-- The one identifier, as a text or in a list.
abbrev pub one_identifier : Json → Option Str
one_identifier (string s) = some s
one_identifier (arr (cons (string s) nil)) = some s
one_identifier _ = none

abbrev pub config_topic : Scope → Str → Str
config_topic scope identifier =
    scope.ha_prefix ++ (str "/sensor/" ++ (identifier ++ str "/mower_status/config"))

abbrev pub state_topics : Scope → Str → List Str
state_topics scope key =
    (scope.topic_prefix ++ (str "/" ++ (key ++ str "/status/state")))
    ∷ (scope.topic_prefix ++ (str "/" ++ (key ++ str "/mower_status/state")))
    ∷ []

abbrev announced : Str → Str → Result Bool → Result (Option (Str × Str))
announced key identifier (ok true) = ok (some (key, identifier))
announced key identifier (ok false) = ok none
announced key identifier (err e) = err e

abbrev keyed : Scope → Str → Dict Json → Str → Option Str → Result (Option (Str × Str))
keyed scope topic config identifier none = ok none
keyed scope topic config identifier (some key) =
    if str_eq topic (config_topic scope identifier)
    then announced key identifier
        (in_texts (or_null (get (str "state_topic") config)) (state_topics scope key))
    else ok none

abbrev identified : Scope → Str → Dict Json → Option Str → Result (Option (Str × Str))
identified scope topic config none = ok none
identified scope topic config (some identifier) =
    keyed scope topic config identifier (key_of identifier)

abbrev of_device : Scope → Str → Dict Json → Json → Result (Option (Str × Str))
of_device scope topic config (obj f) =
    if equals_str (or_null (get (str "manufacturer") (entries f))) (str "GARDENA")
    then identified scope topic config
        (one_identifier (or_null (get (str "identifiers") (entries f))))
    else ok none
of_device scope topic config _ = ok none

-- From the config on: the state topic is looked up in a set, where a list or a dict raises TypeError.
unfoldable pub identity_of : Scope → Str → Dict Json → Result (Option (Str × Str))
identity_of scope topic config = of_device scope topic config (or_null (get (str "device") config))

abbrev loaded : Scope → Str → Option Json → Result (Option (Str × Str))
loaded scope topic (some (obj f)) = identity_of scope topic (entries f)
loaded scope topic _ = ok none

-- MOWER_STATUS_VALUE_TEMPLATE
abbrev pub value_template : Str
value_template =
    str "{% if value|int in [1,2] %}RUNNING"
    ++ (str "{% elif value|int == 3 %}CHARGING"
        ++ (str "{% elif value|int >= 4 and value|int <= 8 %}DOCKED"
            ++ (str "{% elif value|int >= 9 and value|int <= 13 %}ERROR"
                ++ str "{% else %}STOPPED{% endif %}")))

module _ (loads : Str → Option Json) where
  unfoldable pub publisher_mower_identity : Scope → Str → Str → Result (Option (Str × Str))
  publisher_mower_identity scope topic payload = loaded scope topic (loads payload)

  module _ (dumps : Json → Str) where
    abbrev pub with_template : Option Json → Option Str
    with_template (some (obj f)) =
        if equals_str (or_null (get (str "value_template") (entries f))) value_template
        then none
        else some (
            dumps
              (obj (of_entries (put (str "value_template") (string value_template) (entries f)))))
    with_template _ = none

    abbrev pub corrected_for : List Str → Str → Option (Str × Str) → Option Str
    corrected_for allowed payload none = none
    corrected_for allowed payload (some (key, identifier)) =
        if contains allowed key then with_template (loads payload) else none

    unfoldable pub corrected_mower_status_discovery :
        Scope → List Str → Str → Str → Result (Option Str)
    corrected_mower_status_discovery scope allowed topic payload =
        elim (publisher_mower_identity scope topic payload) [
          | ok identity ↦ ok (corrected_for allowed payload identity)
          | err e ↦ err e
        ]

    abbrev publish_corrected : Str → Option Str → Exec MqttClient Bool
    publish_corrected topic none = pure false
    publish_corrected topic (some text) = do publish topic text true; pure true

    unfoldable pub repair_mower_status_discovery :
        Scope → List Str → Str → Str → Exec MqttClient Bool
    repair_mower_status_discovery scope allowed topic payload = do
      corrected ← lift (corrected_mower_status_discovery scope allowed topic payload)
      publish_corrected topic corrected

-- The clock before a call of `mqtt.receive()`, and what the call gave.
pub record Heard : Type 0 where
  pub at : ℕ
  pub given : Result (ℕ × ℕ × List ℕ)

abbrev pub has : Str × Str → List (Str × Str) → Bool
has p [] = false
has p (q ∷ l) = (str_eq q.0 p.0 && str_eq q.1 p.1) || has p l

-- At most 64 identities, each once.
abbrev pub note_identity : List (Str × Str) → Option (Str × Str) → Result (List (Str × Str))
note_identity identities none = ok identities
note_identity identities (some identity) =
    if has identity identities
    then ok identities
    else if leb 64 (length identities)
    then err value_error
    else ok (identities ++ identity ∷ [])

abbrev noted : List (Str × Str) → Result (Option (Str × Str)) → Result (List (Str × Str))
noted identities (ok identity) = note_identity identities identity
noted identities (err e) = err e

module _ (loads : Str → Option Json) (scope : Scope) where
  abbrev pub parsed : List (Str × Str) → Result (Str × Str × Bool) → Result (List (Str × Str))
  parsed identities (ok (topic, payload, retained)) =
      noted identities (publisher_mower_identity loads scope topic payload)
  parsed identities (err e) = err e

  -- A round: a timeout of the socket and every other packet are passed over.
  unfoldable pub hear : List (Str × Str) → Result (ℕ × ℕ × List ℕ) → Result (List (Str × Str))
  hear identities (ok (kind, flags, body)) =
      if kind == 3 then parsed identities (parse_publish flags body) else ok identities
  hear identities (err timeout_error) = ok identities
  hear identities (err e) = err e

  -- The loop of `collect_publisher_mower_identities` over what its calls of `mqtt.receive()` give.
  unfoldable pub collect : ℕ → List Heard → List (Str × Str) → Result (List (Str × Str))
  collect deadline [] identities = ok identities
  collect deadline (h ∷ hs) identities =
      if leb deadline h.at
      then ok identities
      else elim (hear identities h.given) [ ok more ↦ collect deadline hs more | err e ↦ err e ]

-- `collect_publisher_mower_identities` with its timeout of two seconds, from the given time on; without
-- a socket there is none.
unfoldable pub collect_publisher_mower_identities :
    (Str → Option Json) → Scope → Bool → ℕ → List Heard → Result (List (Str × Str))
collect_publisher_mower_identities loads scope connected now heard =
    if connected then collect loads scope (now + 2000) heard [] else ok []

unfoldable pub adopt_publisher_identities : List Mower → List (Str × Str) → Bool × List Mower
adopt_publisher_identities (m ∷ []) ((key, identifier) ∷ []) =
    (true, record m { publisher_key = some key; publisher_identifier = some identifier } ∷ [])
adopt_publisher_identities mowers identities = (false, mowers)
