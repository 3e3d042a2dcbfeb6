-- ===== src/Options.antt =====
-- gardena_local_mqtt/security.py, `validate_host`, and worker.py, `options`: the settings of the app are
-- checked before anything uses them. `is_address` tells what `ipaddress.ip_address` accepts, `strip` is
-- `str.strip`, and `to_int` is `int` of a value, or what it raises.
pub mod Checked
mod Tests
use gardena_matter_mqtt_brid.Base.{
  ℕ, Bool, true, false, not, ◌&&◌, ◌||◌, ◌==◌, Option, none, some, List, [], ◌∷◌, leb, ltb, length,
  if◌then◌else◌,
}
use gardena_matter_mqtt_brid.Base.Exec.{Result, ok, err, value_error, attribute_error, key_error}
use gardena_matter_mqtt_brid.Text.{Str, str, all_chars, any_char, is_alnum, starts_with}
use gardena_matter_mqtt_brid.Json.{ℤ, pos, negsuc, Json, string, int}
use gardena_matter_mqtt_brid.Json.Dict.{Dict, get, put}
use gardena_matter_mqtt_brid.Mower.Event.{get_or}
use gardena_matter_mqtt_brid.Telemetry.{bind, is_empty}

abbrev host_char : ℕ → Bool
host_char c = is_alnum c || (c == b'.' || c == b'-')

abbrev pub last_char : ℕ → Str → ℕ
last_char c [] = c
last_char c (d ∷ s) = last_char d s

-- `[A-Za-z0-9](?:[A-Za-z0-9.-]*[A-Za-z0-9])?`
abbrev pub is_host_name : Str → Bool
is_host_name [] = false
is_host_name (c ∷ s) = is_alnum c && (all_chars host_char s && is_alnum (last_char c s))

module _ (is_address : Str → Bool) where
  unfoldable pub validate_host : Json → Result Str
  validate_host (string s) =
      if is_empty s || ltb 253 (length s)
      then err value_error
      else if is_address s || is_host_name s
      then ok s
      else err value_error
  validate_host _ = err value_error

  module _ (strip : Str → Str) where
    abbrev set_text : Str → Dict Json → Result Str → Result (Dict Json)
    set_text name config (ok s) = ok (put name (string s) config)
    set_text name config (err e) = err e

    abbrev pub stripped : Str → Dict Json → Json → Result (Dict Json)
    stripped name config (string s) = set_text name config (validate_host (string (strip s)))
    stripped name config _ = err attribute_error

    -- `config[name] = validate_host(config.get(name, '').strip())`
    unfoldable pub set_host : Str → Dict Json → Result (Dict Json)
    set_host name config = stripped name config (get_or name config (string []))

-- `not isinstance(value, str) or len(value) > 4096 or any(ord(c) < 32 for c in value)`, negated
abbrev pub is_credential : Json → Bool
is_credential (string s) = not (ltb 4096 (length s)) && not (any_char (λ c. ltb c 32) s)
is_credential _ = false

unfoldable pub check_credential : Str → Dict Json → Result (Dict Json)
check_credential name config =
    if is_credential (get_or name config (string [])) then ok config else err value_error

abbrev long_enough : (Str → Str) → Dict Json → Option Json → Result (Dict Json)
long_enough strip config none = err key_error
long_enough strip config (some (string s)) =
    if ltb (length (strip s)) 8 then err value_error else ok config
long_enough strip config (some _) = err attribute_error

-- `len(config['device_id'].strip()) < 8`
unfoldable pub check_device : (Str → Str) → Dict Json → Result (Dict Json)
check_device strip config = long_enough strip config (get (str "device_id") config)

-- `value.endswith('/')` of a text that is not empty
abbrev ends_with_slash : Str → Bool
ends_with_slash [] = false
ends_with_slash (c ∷ s) = last_char c s == b'/'

abbrev bad_char : ℕ → Bool
bad_char c = c == b'+' || (c == b'#' || c == 0)

-- What a topic prefix has to be.
abbrev pub is_prefix : Str → Bool
is_prefix s =
    not (is_empty s)
    && (not (ltb 200 (length s))
        && (not (any_char bad_char s)
            && (not (starts_with s (str "/")) && not (ends_with_slash s))))

abbrev pub set_if_prefix : Str → Dict Json → Json → Result (Dict Json)
set_if_prefix name config (string s) =
    if is_prefix s then ok (put name (string s) config) else err value_error
set_if_prefix name config _ = err value_error

unfoldable pub set_prefix : Str → Str → Dict Json → Result (Dict Json)
set_prefix name default config = set_if_prefix name config (get_or name config (string default))

abbrev pub port_of : Dict Json → Result ℤ → Result (Dict Json)
port_of config (ok (pos n)) =
    if leb 1 n && leb n 65535
    then ok (put (str "mqtt_broker_port") (int (pos n)) config)
    else err value_error
port_of config (ok (negsuc n)) = err value_error
port_of config (err e) = err e

unfoldable pub set_port : (Json → Result ℤ) → Dict Json → Result (Dict Json)
set_port to_int config =
    port_of config (to_int (get_or (str "mqtt_broker_port") config (int (pos 1883))))

-- `options()`, of what stands in options.json
unfoldable pub options :
    (Str → Bool) → (Str → Str) → (Json → Result ℤ) → Dict Json → Result (Dict Json)
options is_address strip to_int config =
    bind (set_host is_address strip (str "gateway_host") config) (λ c1.
      bind (set_host is_address strip (str "mqtt_broker_host") c1) (λ c2.
        bind (check_credential (str "device_id") c2) (λ c3.
          bind (check_credential (str "mqtt_broker_user") c3) (λ c4.
            bind (check_credential (str "mqtt_broker_password") c4) (λ c5.
              bind (check_device strip c5) (λ c6.
                bind (set_prefix (str "mqtt_topic_prefix") (str "gardena") c6) (λ c7.
                  bind (set_prefix (str "mqtt_ha_prefix") (str "homeassistant") c7)
                    (λ c8. set_port to_int c8))))))))
