-- ===== src/Mower/Event.antt =====
-- gardena_local_mqtt/protocol.py, `apply_event`: an event of the gateway changes the state of the
-- mower that it names. `show` is `str(value)` of a value that is no text.
use gardena_matter_mqtt_brid.Base.{
  Bool, true, false, none, some, List, [], ◌∷◌, ◌||◌, if◌then◌else◌,
}
use gardena_matter_mqtt_brid.Base.Exec.{Result, ok, err, type_error, attribute_error}
use gardena_matter_mqtt_brid.Text.{Str, str, split_slash}
use gardena_matter_mqtt_brid.Json.{
  Json, string, arr, obj, entries, of_entries, equals_str, truthy, end,
}
use gardena_matter_mqtt_brid.Json.Dict.{Dict, get, put, update}
use gardena_matter_mqtt_brid.Mower.{Mower, or_null}

-- `d.get(k, default)`
abbrev pub get_or : Str → Dict Json → Json → Json
get_or k d default = elim (get k d) [ none ↦ default | some v ↦ v ]

-- The loop over the path and the update behind it. `setdefault` on what is no dict raises, and the
-- dicts that it made before stay. The last value is the target as it is left.
unfoldable pub merge_at : List Str → Json → Json → Result Bool × Json
merge_at [] (obj f) (obj payload) =
    (ok true, obj (of_entries (update (entries f) (entries payload))))
merge_at [] target payload = (ok false, target)
merge_at (part ∷ path) (obj f) payload =
    let (r, child) = merge_at path (get_or part (entries f) (obj end)) payload in
    (r, obj (of_entries (put part child (entries f))))
merge_at (part ∷ path) target payload = (err attribute_error, target)

abbrev equals_any_str : Json → List Str → Bool
equals_any_str v [] = false
equals_any_str v (t ∷ l) = equals_str v t || equals_any_str v l

-- `value in {...}` for texts
abbrev pub in_texts : Json → List Str → Result Bool
in_texts (arr l) texts = err type_error
in_texts (obj f) texts = err type_error
in_texts v texts = ok (equals_any_str v texts)

-- `message.get("payload") or {}`
abbrev pub payload_of : Dict Json → Json
payload_of message =
    let payload = or_null (get (str "payload") message) in
    if truthy payload then payload else obj end

-- `entity.get("device") != mower.device_id or message.get("op") not in {...}`, negated
abbrev pub concerns : Mower → Dict Json → Dict Json → Result Bool
concerns m entity message =
    if equals_str (or_null (get (str "device") entity)) m.device_id
    then in_texts (or_null (get (str "op") message)) (str "update" ∷ str "overwrite" ∷ [])
    else ok false

module _ (show : Json → Str) where
  -- `str(entity.get("path", ""))`
  abbrev pub path_text : Json → Str
  path_text (string s) = s
  path_text v = show v

  unfoldable pub apply_to : Mower → Dict Json → Dict Json → Result Bool × Mower
  apply_to m entity message = elim (concerns m entity message) [
    | err e ↦ (err e, m)
    | ok false ↦ (ok false, m)
    | ok true ↦
        let (r, state) =
          merge_at (split_slash (path_text (get_or (str "path") entity (string [])))) m.state
            (payload_of message) in
        (r, record m { state = state })
  ]

  -- `apply_event(mower, message)`
  unfoldable pub apply_event : Mower → Dict Json → Result Bool × Mower
  apply_event m message = elim (get_or (str "entity") message (obj end)) [
    | obj f ↦ apply_to m (entries f) message
    | _ ↦ (err attribute_error, m)
  ]
