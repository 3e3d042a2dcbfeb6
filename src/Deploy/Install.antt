-- ===== src/Deploy/Install.antt =====
-- gardena_local_mqtt/deploy.py: `install`, `restore_ha` and `refresh_status`.
use gardena_matter_mqtt_brid.Base.{
  ℕ, zero, suc, ◌+◌, ◌/◌, Bool, true, false, not, Option, none, some, List, [], ◌∷◌, ◌++◌, leb,
  if◌then◌else◌,
}
use gardena_matter_mqtt_brid.Base.Exec.{
  Exec, Error, Result, ok, err, pure, raise, lift, gets, raise_if, attribute_error, ◌>>=◌, ◌>>◌,
  value_error, unicode_error, type_error, connection_error, timeout_error, file_not_found,
  install_error, http_error, out_of_fuel,
}
use gardena_matter_mqtt_brid.Text.{Str, str, str_eq, decimal}
use gardena_matter_mqtt_brid.Telemetry.{Device, readings}
use gardena_matter_mqtt_brid.Worker.{Migration}
use gardena_matter_mqtt_brid.Deploy.{
  Ending, undone, with_service, run_service, Site, Step, configuration, gateway_access,
  sensor_snapshot, local_binary, gateway_space, staging, upload, checksum, configuration_upload,
  runtime_check, handover, health_check, Progress, running, finished, failed, Switch, switching,
  switched, Deployment, Probe, Config, RuntimeConfig, call, nothing, service_call, step,
  write_deployment, write_progress, report, stop_worker, runtime_config, plan_of, check_space,
}

-- What an installation reads: the options, the parsed snapshot, the stripped outputs of `uname -m` and
-- `df`, and the size and SHA-256 of the binary.
pub record Inputs : Type 0 where
  pub cfg : Config
  pub snapshot : Result (List Device)
  pub architecture : Str
  pub free : Str
  pub binary_size : ℕ
  pub digest : Str

abbrev pub required_kb : ℕ → ℕ
required_kb size = (size + 1023) / 1024 + 512

-- From the check of the space to the check of the new runtime: each step is noted, then done.
unfoldable pub transfer : Inputs → RuntimeConfig → Exec Site RuntimeConfig
transfer i payload = do
  step gateway_space
  check_space i.architecture i.free (required_kb i.binary_size)
  step staging
  report (str "deploying")
  call nothing
  step upload
  call nothing
  step checksum
  call nothing
  step configuration_upload
  call nothing
  call nothing
  step runtime_check
  report (str "deploying")
  call nothing
  pure payload

-- `_install` up to the handover.
unfoldable pub prepare : Inputs → Exec Site RuntimeConfig
prepare i = do
  call nothing
  migration ← gets (λ s. s.migration)
  payload ← lift (runtime_config i.cfg migration)
  step gateway_access
  call nothing
  step sensor_snapshot
  call nothing
  devices ← lift i.snapshot
  lift (readings (plan_of migration) devices)
  step local_binary
  call nothing
  transfer i payload

abbrev pub deployment : Switch → Inputs → Deployment
deployment phase i = record { phase = phase; binding = i.cfg.binding; digest = i.digest }

-- `gw.stop_publisher()`
unfoldable pub stop_publisher : Exec Site (Unit {0})
stop_publisher = call (λ s. record s { publisher = false })

abbrev take_probe : List Probe → Site → Result Bool × Site
take_probe [] s = (err connection_error, s)
take_probe (p ∷ l) s = (p.found, record s { probes = l; now = s.now + p.took })

-- `health(gw)`
unfoldable pub health : Exec Site Bool
health s = take_probe s.probes s

-- `except (ConnectionError, ValueError): pass`
abbrev pub is_retried : Error → Bool
is_retried connection_error = true
is_retried value_error = true
is_retried unicode_error = true
is_retried _ = false

-- The body of the wait: true when the gateway is ready and this is written down.
abbrev pub when_ready : Inputs → Bool → Exec Site Bool
when_ready i true = do
  write_deployment (some (deployment switched i))
  report (str "gateway")
  pure true
when_ready i false = pure false

unfoldable pub try_health : Inputs → Exec Site Bool
try_health i = do ready ← health; when_ready i ready

abbrev pub asleep : Site → Site
asleep s = record s { now = s.now + 3000 }

-- One round, when the deadline is past (`over`), after what the try found; `rest` is the wait from
-- then on.
abbrev pub round_of :
    Bool → Result Bool × Site → Result (Unit {0}) × Site → Site → Result (Unit {0}) × Site
round_of true tried rest s = (err connection_error, s)
round_of false (ok true, v) rest s = (ok tt, v)
round_of false (ok false, v) rest s = rest
round_of false (err e, v) rest s = if is_retried e then rest else (err e, v)

-- The wait for 120 seconds. A round takes three at least, so 41 rounds are enough.
unfoldable pub await_health : Inputs → ℕ → ℕ → Exec Site (Unit {0})
await_health i zero deadline s = (err out_of_fuel, s)
await_health i (suc fuel) deadline s =
    let rest = await_health i fuel deadline (asleep (try_health i s).1) in
    round_of (leb deadline s.now) (try_health i s) rest s

-- The service of the new release is started, and has to become healthy.
unfoldable pub start_runtime : Inputs → Exec Site (Unit {0})
start_runtime i = do
  stop_publisher
  service_call (record { running = true; enabled = true })
  step health_check
  now ← gets (λ s. s.now)
  await_health i 41 (now + 120000)

-- The script that stops the service without `set -e`: that it could not disable the service is passed
-- over.
abbrev pub run_stop : List Ending → Exec Site (Unit {0})
run_stop (undone ∷ l) s = (
  ok tt,
  with_service (record { running = false; enabled = s.service.enabled }) (record s { endings = l }),
)
run_stop l s = run_service l (record { running = false; enabled = false }) s

unfoldable pub stop_runtime : Exec Site (Unit {0})
stop_runtime s = run_stop s.endings s

-- The service is stopped, and only then the journal dropped.
unfoldable pub give_up : Exec Site (Unit {0})
give_up = do stop_runtime; write_deployment none

-- `try: ... except BaseException: ... raise`, where a failure to give up is passed over.
abbrev give_up_on : Result (Unit {0}) × Site → Result (Unit {0}) × Site
give_up_on (ok u, s) = (ok u, s)
give_up_on (err e, s) = (err e, (give_up s).1)

unfoldable pub or_give_up : Exec Site (Unit {0}) → Exec Site (Unit {0})
or_give_up body s = give_up_on (body s)

-- `_install` from the handover on.
unfoldable pub switch_over : Inputs → Exec Site (Unit {0})
switch_over i = do
  step handover
  write_deployment (some (deployment switching i))
  report (str "deploying")
  stop_worker
  or_give_up (start_runtime i)

unfoldable pub install_steps : Inputs → Exec Site (Unit {0})
install_steps i = do prepare i; switch_over i

-- STEPS
unfoldable pub label : Step → Str
label configuration = str "Einstellungen und Sensorzuordnung prüfen"
label gateway_access = str "Gateway-Anmeldung und SSH-Zugang prüfen"
label sensor_snapshot = str "Aktuelle Sensordaten lesen"
label local_binary = str "Mitgeliefertes Gateway-Programm lesen"
label gateway_space = str "Gateway-Architektur und freien Speicher prüfen"
label staging = str "Installationsverzeichnis vorbereiten"
label upload = str "Gateway-Programm übertragen"
label checksum = str "Übertragung und Prüfsumme prüfen"
label configuration_upload = str "Private Konfiguration übertragen"
label runtime_check = str "Neues Programm und lokale Gateway-API prüfen"
label handover = str "Gateway-Dienst umschalten"
label health_check = str "Betriebsbereitschaft der neuen Runtime prüfen"

-- Why an installation failed; `told` is the text of an InstallError.
unfoldable pub reason : Str → Error → Str
reason told install_error = told
reason told timeout_error = str "Zeitlimit überschritten."
reason told (http_error code) = str "Gateway antwortet mit HTTP " ++ (decimal code ++ str ".")
reason told file_not_found = str "Eine erforderliche lokale Datei fehlt."
reason told connection_error = str "Verbindung oder entfernter Befehl fehlgeschlagen."
reason told value_error = str "Daten oder Zuordnung konnten nicht validiert werden."
reason told unicode_error = str "Daten oder Zuordnung konnten nicht validiert werden."
reason told _ = str "Schritt konnte nicht abgeschlossen werden."

-- `state.get('step', 'configuration')`
abbrev pub step_of : Option Progress → Step
step_of (some (running n)) = n
step_of (some (failed n m)) = n
step_of _ = configuration

unfoldable pub failure : Site → Error → Progress
failure s e =
    let name = step_of s.installation in
    failed name (str "Fehler bei „" ++ (label name ++ (str "“: " ++ reason s.told e)))

-- The failure is written down and raised again.
abbrev pub note_failure : Result (Unit {0}) × Site → Result (Unit {0}) × Site
note_failure (ok u, s) = (ok u, s)
note_failure (err e, s) = (do write_progress (failure s e); raise e) s

unfoldable pub install : Inputs → Exec Site (Unit {0})
install i = do
  step configuration
  λ s. note_failure ((do install_steps i; write_progress finished) s)

-- `restore_ha()`
abbrev pub matches : Config → Option Deployment → Bool
matches cfg none = false
matches cfg (some d) = str_eq d.binding cfg.binding

-- The script of `restore_ha`, with `set -e`, and only then the journal is dropped.
unfoldable pub retire : Exec Site (Unit {0})
retire = do service_call (record { running = false; enabled = false }); write_deployment none

unfoldable pub restore_ha : Config → Exec Site (Unit {0})
restore_ha cfg = do
  call nothing
  d ← gets (λ s. s.deployment)
  lift (if matches cfg d then ok tt else err value_error)
  retire
  report (str "starting")

-- Whether migration.json holds null, which has no `get`.
abbrev null_unless : Option Migration → Bool → Bool
null_unless none erased = erased
null_unless (some m) erased = false

abbrev pub is_null : Site → Bool
is_null s = null_unless s.migration s.erased

abbrev pub healthy : Deployment → Bool → Exec Site (Unit {0})
healthy d true = do
  write_deployment (some (record d { phase = switched }))
  call nothing
  missing ← gets is_null
  raise_if missing attribute_error
  report (str "gateway")
healthy d false = report (str "gateway_error")

abbrev pub refresh_of : Config → Option Deployment → Exec Site (Unit {0})
refresh_of cfg none = raise type_error
refresh_of cfg (some d) =
    if not (str_eq d.binding cfg.binding) then raise value_error else (do b ← health; healthy d b)

-- `refresh_status()`
unfoldable pub refresh_status : Config → Exec Site (Unit {0})
refresh_status cfg = do call nothing; d ← gets (λ s. s.deployment); refresh_of cfg d
