-- ===== src/Mower/Tests.antt =====
-- Concrete mowers, events and commands, and the theorems on them at concrete inputs.
use gardena_matter_mqtt_brid.Base.{◌≡◌, refl, true, none, some, [], ◌∷◌, ◌++◌}
use gardena_matter_mqtt_brid.Base.Exec.{ok, err, attribute_error, value_error}
use gardena_matter_mqtt_brid.Text.{Str, str, str_eq, starts_with, split_slash}
use gardena_matter_mqtt_brid.Json.{
  Json, int, pos, string, obj, dict, entries, Fields, end, field, equals_str, equals_nat, truthy,
}
use gardena_matter_mqtt_brid.Json.Dict.{Dict, get, put, update}
use gardena_matter_mqtt_brid.Mower.{
  Mower, nested_value, in_numbers, gen1_activity, activity, command, gen1_order,
}
use gardena_matter_mqtt_brid.Mower.Event.{merge_at, apply_to, apply_event, payload_of, concerns}
use gardena_matter_mqtt_brid.Mower.Effect.{Applied, apply_event-Applied, path_of}
use gardena_matter_mqtt_brid.Mower.Commands.{Answers, command-Answers, activity-apply_event}
use gardena_matter_mqtt_brid.Mower.Crossing.{IsLeaf, apply_event_raises}

abbrev no_text : Json → Str
no_text v = str "?"

abbrev status_of : Json → Json
status_of v = dict ((str "lemonbeat", dict ((str "0", dict ((str "status", v) ∷ [])) ∷ [])) ∷ [])

abbrev mower : Json → Mower
mower status = record {
  device_id = str "d1";
  model_number = str "29694";
  name = str "SILENO";
  generation = str "gen1";
  state = status_of status;
  publisher_key = none;
  publisher_identifier = none;
}

abbrev docked : Mower
docked = mower (dict ((str "vi", int (pos 7)) ∷ []))

abbrev mowing : Mower
mowing = mower (dict ((str "vi", int (pos 1)) ∷ []))

abbrev entity : Fields
entity =
    field (str "device") (string (str "d1"))
      (field (str "path") (string (str "lemonbeat/0/status")) end)

abbrev payload : Fields
payload = field (str "vi") (int (pos 1)) end

abbrev event : Dict Json
event =
    (str "entity", obj entity)
    ∷ (str "op", string (str "update"))
    ∷ (str "payload", obj payload)
    ∷ []

event_run : apply_event no_text docked event ≡ (ok true, mowing)
unfolding apply_event apply_to merge_at get put update split_slash str str_eq truthy equals_str
event_run = refl

entity_found : get (str "entity") event ≡ some (obj entity)
unfolding get str str_eq
entity_found = refl

path_found : get (str "path") (entries entity) ≡ some (string (str "lemonbeat/0/status"))
unfolding get str str_eq
path_found = refl

payload_found : payload_of event ≡ obj payload
unfolding get str str_eq truthy
payload_found = refl

vi_found : get (str "vi") (entries payload) ≡ some (int (pos 1))
unfolding get str str_eq
vi_found = refl

is_gen1 : starts_with docked.generation (str "gen1") ≡ true
unfolding starts_with str
is_gen1 = refl

no_more : get (str "vi") (entries end) ≡ none
unfolding get
no_more = refl

apply_event-Applied_example : Applied no_text docked (entries entity) event payload mowing
apply_event-Applied_example =
    apply_event-Applied no_text docked mowing event entity payload entity_found payload_found
      (no_more, tt) event_run

activity-apply_event_example : activity mowing ≡ gen1_activity (int (pos 1))
activity-apply_event_example =
    activity-apply_event no_text docked mowing event entity payload (int (pos 1)) is_gen1
      entity_found path_found payload_found (no_more, tt) vi_found event_run

mowing_activity : gen1_activity (int (pos 1)) ≡ ok (some (str "mowing"))
unfolding gen1_activity in_numbers equals_nat
mowing_activity = refl

command-Answers_example :
    Answers docked (str "r1") (str "pause") (command docked (str "r1") (str "pause"))
command-Answers_example = command-Answers docked (str "r1") (str "pause")

pause_run : command docked (str "r1") (str "pause") ≡ err value_error
unfolding command gen1_order get str str_eq
pause_run = refl

-- A status that is a number, and an event whose path goes on below it.
abbrev crossing : Mower
crossing = mower (int (pos 7))

abbrev deeper : Fields
deeper =
    field (str "device") (string (str "d1"))
      (field (str "path") (string (str "lemonbeat/0/status/vi")) end)

abbrev deeper_event : Dict Json
deeper_event = (str "entity", obj deeper) ∷ (str "op", string (str "update")) ∷ []

deeper_found : get (str "entity") deeper_event ≡ some (obj deeper)
unfolding get str str_eq
deeper_found = refl

concerned : concerns crossing (entries deeper) deeper_event ≡ ok true
unfolding get str str_eq equals_str
concerned = refl

crossed :
    path_of no_text (entries deeper)
    ≡ (str "lemonbeat" ∷ str "0" ∷ str "status" ∷ []) ++ str "vi" ∷ []
unfolding get str str_eq split_slash
crossed = refl

status_leaf :
    nested_value crossing.state (str "lemonbeat" ∷ str "0" ∷ str "status" ∷ []) ≡ int (pos 7)
unfolding nested_value get str str_eq
status_leaf = refl

status_IsLeaf : IsLeaf (nested_value crossing.state (str "lemonbeat" ∷ str "0" ∷ str "status" ∷ []))
status_IsLeaf = rw status_leaf (refl, λ e. cc)

apply_event_raises_example : (apply_event no_text crossing deeper_event).0 ≡ err attribute_error
apply_event_raises_example =
    apply_event_raises no_text crossing deeper_event deeper
      (str "lemonbeat" ∷ str "0" ∷ str "status" ∷ []) [] (str "vi") deeper_found concerned crossed
      status_IsLeaf
