-- ===== src/Options/Tests.antt =====
-- Settings that are accepted, and the theorem at them.
use gardena_matter_mqtt_brid.Base.{ℕ, ◌≡◌, ◌≤◌, refl, Bool, true, false, some, [], ◌∷◌}
use gardena_matter_mqtt_brid.Base.Exec.{Result, ok}
use gardena_matter_mqtt_brid.Text.{
  Str, str, str_eq, all_chars, any_char, is_alnum, is_digit, is_lower, is_upper, starts_with,
}
use gardena_matter_mqtt_brid.Json.{ℤ, pos, Json, string, int}
use gardena_matter_mqtt_brid.Json.Dict.{Dict, get, put}
use gardena_matter_mqtt_brid.Options.{
  is_prefix, validate_host, set_host, check_credential, check_device, set_prefix, set_port, options,
}
use gardena_matter_mqtt_brid.Options.Checked.{IsHost, options-IsHost}

abbrev no_address : Str → Bool
no_address s = false

abbrev strip : Str → Str
strip s = s

abbrev to_int : Json → Result ℤ
to_int v = ok (pos 1883)

abbrev given : Dict Json
given =
    (str "gateway_host", string (str "gw.local"))
    ∷ (str "mqtt_broker_host", string (str "broker"))
    ∷ (str "device_id", string (str "12345678"))
    ∷ []

abbrev settings : Dict Json
settings =
    (str "gateway_host", string (str "gw.local"))
    ∷ (str "mqtt_broker_host", string (str "broker"))
    ∷ (str "device_id", string (str "12345678"))
    ∷ (str "mqtt_topic_prefix", string (str "gardena"))
    ∷ (str "mqtt_ha_prefix", string (str "homeassistant"))
    ∷ (str "mqtt_broker_port", int (pos 1883))
    ∷ []

accepts : options no_address strip to_int given ≡ ok settings
unfolding options set_host validate_host check_credential check_device set_prefix set_port str
    str_eq get put all_chars any_char is_alnum is_digit is_lower is_upper starts_with
accepts = refl

options-IsHost_example :
    (h : Str) × (b : Str) × (p : Str) × (q : Str) × (n : ℕ) × (IsHost no_address h
      × IsHost no_address b
      × (is_prefix p ≡ true)
      × (is_prefix q ≡ true)
      × (1 ≤ n)
      × (n ≤ 65535))
    × ((get (str "gateway_host") settings ≡ some (string h))
        × (get (str "mqtt_broker_host") settings ≡ some (string b))
        × (get (str "mqtt_topic_prefix") settings ≡ some (string p))
        × (get (str "mqtt_ha_prefix") settings ≡ some (string q))
        × (get (str "mqtt_broker_port") settings ≡ some (int (pos n))))
options-IsHost_example = options-IsHost no_address strip to_int given settings accepts
