-- ===== src/Deploy/Health.antt =====
-- gardena_local_mqtt/deploy.py: `health` on the status that the gateway's runtime wrote. `recent` is
-- `abs(time.time() - updated) < 90`.
use gardena_matter_mqtt_brid.Base.{
  Bool, false, ◌&&◌, ◌||◌, Option, none, some, List, [], ◌∷◌, if◌then◌else◌,
}
use gardena_matter_mqtt_brid.Base.Exec.{Result, ok, err, attribute_error}
use gardena_matter_mqtt_brid.Text.{Str, str}
use gardena_matter_mqtt_brid.Json.{Json, bool, int, pos, obj, entries, equals_str}
use gardena_matter_mqtt_brid.Json.Dict.{get}
use gardena_matter_mqtt_brid.Mower.{or_null}
use gardena_matter_mqtt_brid.Mower.Event.{get_or}

abbrev is_true : Json → Bool
is_true (bool b) = b
is_true v = false

abbrev any_version : List Str → Json → Bool
any_version [] v = false
any_version (t ∷ ts) v = equals_str v t || any_version ts v

-- `(expected_version,) if expected_version else ('0.2.0', '0.2.2')`
abbrev pub versions : Option Str → List Str
versions none = str "0.2.0" ∷ str "0.2.2" ∷ []
versions (some []) = str "0.2.0" ∷ str "0.2.2" ∷ []
versions (some (c ∷ s)) = (c ∷ s) ∷ []

unfoldable pub is_healthy : (Json → Result Bool) → Option Str → Json → Result Bool
is_healthy recent expected (obj f) =
    if is_true (or_null (get (str "ready") (entries f)))
      && any_version (versions expected) (or_null (get (str "version") (entries f)))
    then recent (get_or (str "updated") (entries f) (int (pos 0)))
    else ok false
is_healthy recent expected v = err attribute_error
