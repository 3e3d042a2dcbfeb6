-- ===== src/Deploy/Cleanup.antt =====
-- gardena_local_mqtt/cleanup.py: `run`, around the shell script that it sends to the gateway.
use gardena_matter_mqtt_brid.Base.{Bool, true, false, not, ◌&&◌, Option, none, some, if◌then◌else◌}
use gardena_matter_mqtt_brid.Base.Exec.{
  Exec, Result, ok, err, raise, raise_if, gets, ◌>>=◌, ◌>>◌, value_error, connection_error,
}
use gardena_matter_mqtt_brid.Text.{str_eq}
use gardena_matter_mqtt_brid.Deploy.{
  Site, Config, Deployment, Switch, switching, switched, Cleaning, cleaning, cleaned, not_cleaned,
  call, nothing,
}
use gardena_matter_mqtt_brid.Deploy.Install.{health}

unfoldable pub write_cleanup : Cleaning → Exec Site (Unit {0})
write_cleanup p = call (λ s. record s { cleanup = some p })

abbrev is_switched : Switch → Bool
is_switched switching = false
is_switched switched = true

-- `state.get('phase') == 'active' and state.get('binding') == binding(cfg)`
abbrev pub in_place : Config → Option Deployment → Bool
in_place cfg none = false
in_place cfg (some d) = is_switched d.phase && str_eq d.binding cfg.binding

-- `deploy.health(gw)`, asked only of a deployment in place.
abbrev pub checked : Bool → Exec Site Bool
checked b = if b then health else λ s. (ok false, s)

-- The body of the `try`: the script, and the gateway's health after it.
unfoldable pub clean : Exec Site (Unit {0})
clean = do call nothing; well ← health; raise_if (not well) connection_error; write_cleanup cleaned

abbrev pub note_unclean : Result (Unit {0}) × Site → Result (Unit {0}) × Site
note_unclean (ok u, s) = (ok u, s)
note_unclean (err e, s) = (do write_cleanup not_cleaned; raise e) s

unfoldable pub run : Config → Exec Site (Unit {0})
run cfg = do
  call nothing
  d ← gets (λ s. s.deployment)
  well ← checked (in_place cfg d)
  raise_if (not well) value_error
  write_cleanup cleaning
  λ s. note_unclean (clean s)
