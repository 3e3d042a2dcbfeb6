-- ===== src/Diagnostics.antt =====
-- gardena_local_mqtt/diagnostics.py, `number` and `sanitize`: the report of the gateway, of which only
-- listed fields with checked values go on. `sanitize` is modelled from the loaded JSON on.
mod Safety
mod Tests
use gardena_matter_mqtt_brid.Base.{
  ℕ, ◌+◌, ◌^◌, Bool, true, false, not, ◌&&◌, ◌||◌, Option, none, some, List, [], ◌∷◌, ◌++◌, leb,
  ltb, length, if◌then◌else◌,
}
use gardena_matter_mqtt_brid.Base.Exec.{Result, ok, err, value_error, type_error}
use gardena_matter_mqtt_brid.Text.{Str, str, contains}
use gardena_matter_mqtt_brid.Json.{
  Json, int, pos, string, arr, obj, Items, items, entries, of_entries, equals_str, dict, list,
}
use gardena_matter_mqtt_brid.Json.Dict.{Dict, get}
use gardena_matter_mqtt_brid.Mower.{or_null}

-- STAGES, KINDS and NUMBERS
unfoldable pub stages : List Str
stages =
    str "starting"
    ∷ str "api_enable"
    ∷ str "ws_connect"
    ∷ str "ws_discover"
    ∷ str "mqtt_connect"
    ∷ str "mqtt_subscribe"
    ∷ str "sensor_read"
    ∷ str "mqtt_publish"
    ∷ str "event_loop"
    ∷ str "heartbeat"
    ∷ str "retry_wait"
    ∷ str "mqtt_read"
    ∷ str "mqtt_write"
    ∷ str "ws_read"
    ∷ str "ws_write"
    ∷ []

unfoldable pub kinds : List Str
kinds =
    str "timeout"
    ∷ str "connection_closed"
    ∷ str "protocol"
    ∷ str "file_missing"
    ∷ str "error"
    ∷ str "slow"
    ∷ str "delayed"
    ∷ []

unfoldable pub numbers : List Str
numbers =
    str "updated"
    ∷ str "started"
    ∷ str "stage_ms"
    ∷ str "attempts"
    ∷ str "mqtt_tx"
    ∷ str "mqtt_rx"
    ∷ str "pings"
    ∷ str "pongs"
    ∷ str "ws_rx"
    ∷ str "sensor_ms"
    ∷ str "sensor_max_ms"
    ∷ str "heartbeat_max_ms"
    ∷ str "sensor_failures"
    ∷ str "heartbeat_ms"
    ∷ str "heap_bytes"
    ∷ str "goroutines"
    ∷ []

abbrev bind {ℓ κ} : {A : Type ℓ} {B : Type κ} → Result A → (A → Result B) → Result B
bind (ok a) f = f a
bind (err e) f = err e

-- `number(value)`: a bool is no int here.
unfoldable pub number : Json → Result ℕ
number (int (pos n)) = if ltb n (2 ^ 63) then ok n else err value_error
number v = err value_error

-- `value in SET` for a set of texts, and the value: a list or a dict cannot be hashed.
unfoldable pub one_of : List Str → Json → Result Str
one_of texts (string s) = if contains texts s then ok s else err value_error
one_of texts (arr l) = err type_error
one_of texts (obj f) = err type_error
one_of texts v = err value_error

abbrev pub read : Str → Dict Json → Json
read k d = or_null (get k d)

unfoldable pub number_fields : Dict Json → List Str → Result (List (Str × ℕ))
number_fields d [] = ok []
number_fields d (k ∷ ks) =
    bind (number (read k d)) (λ n. bind (number_fields d ks) (λ rest. ok ((k, n) ∷ rest)))

pub record Event : Type 0 where
  pub time : ℕ
  pub stage : Str
  pub kind : Str

unfoldable pub sanitize_event : Json → Result Event
sanitize_event (obj f) = bind (one_of stages (read (str "stage") (entries f))) (λ s.
    bind (one_of kinds (read (str "kind") (entries f))) (λ k.
      bind (number (read (str "time") (entries f)))
        (λ t. ok (record { time = t; stage = s; kind = k }))))
sanitize_event v = err value_error

unfoldable pub sanitize_events : List Json → Result (List Event)
sanitize_events [] = ok []
sanitize_events (v ∷ l) =
    bind (sanitize_event v) (λ e. bind (sanitize_events l) (λ rest. ok (e ∷ rest)))

abbrev history : Json → Result (List Event)
history (arr l) = if ltb 32 (length (items l)) then err value_error else sanitize_events (items l)
history v = err value_error

-- What `sanitize` returns, with the version "0.2.2".
pub record Report : Type 0 where
  pub stage : Str
  pub fields : List (Str × ℕ)
  pub events : List Event

unfoldable pub sanitize : Json → Result Report
sanitize (obj f) =
    if not (equals_str (read (str "version") (entries f)) (str "0.2.2"))
    then err value_error
    else bind (one_of stages (read (str "stage") (entries f))) (λ s.
      bind (number_fields (entries f) numbers) (λ ns.
        bind (history (read (str "events") (entries f)))
          (λ es. ok (record { stage = s; fields = ns; events = es }))))
sanitize v = err value_error

-- The dict that `sanitize` builds.
abbrev event_json : Event → Json
event_json e = dict (
    (str "time", int (pos e.time))
    ∷ (str "stage", string e.stage)
    ∷ (str "kind", string e.kind)
    ∷ [])

abbrev events_json : List Event → List Json
events_json [] = []
events_json (e ∷ es) = event_json e ∷ events_json es

abbrev fields_json : List (Str × ℕ) → Dict Json
fields_json [] = []
fields_json ((k, n) ∷ l) = (k, int (pos n)) ∷ fields_json l

unfoldable pub report_json : Report → Json
report_json r = dict (
    (str "version", string (str "0.2.2"))
    ∷ (str "stage", string r.stage)
    ∷ (fields_json r.fields ++ (str "events", list (events_json r.events)) ∷ []))
