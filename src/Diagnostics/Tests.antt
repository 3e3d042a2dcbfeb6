-- ===== src/Diagnostics/Tests.antt =====
-- A report of the gateway, and the theorem on reports at it.
use gardena_matter_mqtt_brid.Base.{ℕ, ◌≡◌, refl, List, [], ◌∷◌}
use gardena_matter_mqtt_brid.Base.Exec.{ok}
use gardena_matter_mqtt_brid.Text.{Str, str, str_eq, contains}
use gardena_matter_mqtt_brid.Json.{equals_str}
use gardena_matter_mqtt_brid.Json.Dict.{get}
use gardena_matter_mqtt_brid.Diagnostics.{
  stages, kinds, numbers, number, one_of, number_fields, Event, sanitize_event, sanitize_events,
  Report, sanitize, report_json,
}
use gardena_matter_mqtt_brid.Diagnostics.Safety.{IsSafe, sanitize-IsSafe}

abbrev ones : List Str → List (Str × ℕ)
ones [] = []
ones (k ∷ ks) = (k, 1) ∷ ones ks

abbrev event : Event
event = record { time = 9; stage = str "heartbeat"; kind = str "slow" }

abbrev report : Report
report = record { stage = str "event_loop"; fields = ones numbers; events = event ∷ [] }

-- The dict that `sanitize` returns passes it again, as `display` asks of it.
again : sanitize (report_json report) ≡ ok report
unfolding sanitize report_json numbers stages kinds number one_of number_fields sanitize_event
    sanitize_events get str str_eq contains equals_str
again = refl

sanitize-IsSafe_example : IsSafe report
sanitize-IsSafe_example = sanitize-IsSafe (report_json report) report again
