-- ===== src/Identity/Tests.antt =====
-- An announced mower, and the theorems at it.
use gardena_matter_mqtt_brid.Base.{
  ℕ, ◌≡◌, refl, ◌≤◌, true, Option, none, some, List, [], ◌∷◌, ◌++◌, All, length,
}
use gardena_matter_mqtt_brid.Base.Exec.{ok, err, timeout_error}
use gardena_matter_mqtt_brid.Text.{
  without_prefix, Str, str, str_eq, all_chars, any_char, is_hex, is_digit, contains,
}
use gardena_matter_mqtt_brid.Text.Utf8.{decode, decode_from, decode_next, decode_lead}
use gardena_matter_mqtt_brid.Mqtt.{parse_publish, parse_topic}
use gardena_matter_mqtt_brid.Json.{Json, Fields, string, dict, list, obj, of_entries, equals_str}
use gardena_matter_mqtt_brid.Json.Dict.{NodupKeys, get, put}
use gardena_matter_mqtt_brid.Mower.{Mower, key, device_identifier}
use gardena_matter_mqtt_brid.Identity.{
  key_of, identity_of, collect, hear, Scope, Heard, config_topic, publisher_mower_identity,
  corrected_mower_status_discovery, collect_publisher_mower_identities, adopt_publisher_identities,
}
use gardena_matter_mqtt_brid.Identity.Exact.{IsExact, identity-IsNamed}
use gardena_matter_mqtt_brid.Identity.Repair.{fixed, correct-once}
use gardena_matter_mqtt_brid.Identity.Adopted.{collected-IsCollected, adopt-keys}

abbrev scope : Scope
scope = record { topic_prefix = str "g"; ha_prefix = str "h" }

abbrev config : Fields
config = of_entries (
    (
      str "device",
      dict (
          (str "manufacturer", string (str "GARDENA"))
          ∷ (str "identifiers", list (string (str "gardena_ab12") ∷ []))
          ∷ []),
    )
    ∷ (str "state_topic", string (str "g/ab12/status/state"))
    ∷ (str "value_template", string (str "{{ value }}"))
    ∷ [])

-- The message, and any other text for the corrected one.
abbrev loads : Str → Option Json
loads [] = none
loads (c ∷ []) = some (obj config)
loads _ = some (fixed config)

abbrev dumps : Json → Str
dumps v = str "yy"

abbrev topic : Str
topic = config_topic scope (str "gardena_ab12")

named :
    publisher_mower_identity loads scope topic (str "x")
    ≡ ok (some (str "ab12", str "gardena_ab12"))
unfolding publisher_mower_identity str str_eq get key_of without_prefix identity_of all_chars is_hex
    is_digit equals_str
named = refl

identity-IsNamed_example :
    IsExact (str "ab12", str "gardena_ab12") × (topic ≡ config_topic scope (str "gardena_ab12"))
identity-IsNamed_example =
    identity-IsNamed loads scope topic (str "x") (str "ab12") (str "gardena_ab12") named

read_back : loads (dumps (fixed config)) ≡ some (fixed config)
unfolding str
read_back = refl

corrects :
    corrected_mower_status_discovery loads dumps scope (str "ab12" ∷ []) topic (str "x")
    ≡ ok (some (str "yy"))
unfolding publisher_mower_identity str str_eq get key_of without_prefix identity_of all_chars is_hex
    is_digit equals_str corrected_mower_status_discovery contains put
corrects = refl

message : loads (str "x") ≡ some (obj config)
unfolding str
message = refl

correct-once_example :
    (publisher_mower_identity loads scope topic (str "yy")
      ≡ publisher_mower_identity loads scope topic (str "x"))
    × (corrected_mower_status_discovery loads dumps scope (str "ab12" ∷ []) topic (str "yy")
        ≡ ok none)
correct-once_example =
    correct-once loads dumps scope (str "ab12" ∷ []) topic (str "x") (str "yy") config message
      read_back corrects

-- A timeout, and the message twice.
abbrev packet : ℕ × ℕ × List ℕ
packet = (3, 1, 0 ∷ length topic ∷ (topic ++ str "x"))

abbrev heard : List Heard
heard =
    record { at = 0; given = err timeout_error }
    ∷ record { at = 250; given = ok packet }
    ∷ record { at = 300; given = ok packet }
    ∷ record { at = 2100; given = err timeout_error }
    ∷ []

abbrev one : List (Str × Str)
one = (str "ab12", str "gardena_ab12") ∷ []

collects : collect_publisher_mower_identities loads scope true 0 heard ≡ ok one
unfolding publisher_mower_identity str str_eq get key_of without_prefix identity_of all_chars is_hex
    is_digit equals_str collect_publisher_mower_identities collect hear parse_publish decode
    decode_from decode_next decode_lead any_char parse_topic
collects = refl

collected-IsCollected_example : All IsExact one × (length one ≤ 64) × NodupKeys one
collected-IsCollected_example = collected-IsCollected loads scope true 0 heard one collects

abbrev mower : Mower
mower = record {
  device_id = str "d2";
  model_number = str "488";
  name = str "GARDENA smart SILENO pro/max/free";
  generation = str "gen2";
  state = dict [];
  publisher_key = none;
  publisher_identifier = none;
}

abbrev digest : Str → Str
digest s = str "0123456789abcdef"

adopt-keys_example :
    (m : Mower) × (adopt_publisher_identities (mower ∷ []) one ≡ (true, m ∷ []))
    × (key digest m ≡ str "ab12")
    × (device_identifier digest m ≡ str "gardena_" ++ str "ab12")
    × (m.device_id ≡ str "d2")
    × (m.state ≡ dict [])
adopt-keys_example =
    adopt-keys loads scope true 0 heard (str "ab12") (str "gardena_ab12") mower digest collects
