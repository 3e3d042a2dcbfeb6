-- ===== src/Deploy.antt =====
-- gardena_local_mqtt/deploy.py: the gateway runtime is installed, checked and switched to, or given up
-- again for the worker, on a site that holds the files, the local worker process and the gateway's
-- service gardena-local.service.
--
-- A call that leaves the process ends as the site's list says: done, or with an error before or after
-- its effect; a call on the service that fails may leave the service in any state. A call that the
-- list does not reach is done.
pub mod Install
pub mod Health
pub mod Cleanup
pub mod Supervisor
pub mod Keeps
pub mod Prepare
pub mod Single
pub mod Actions
pub mod Control
pub mod Lock
pub mod Ends
pub mod Installed
pub mod Unready
pub mod Tests
pub mod Wait
use gardena_matter_mqtt_brid.Base.{
  ℕ, zero, suc, ◌+◌, ◌-◌, ◌*◌, ◌/◌, Bool, true, false, not, ◌&&◌, ◌||◌, Option, none, some, List,
  [], ◌∷◌, ◌++◌, map, ltb, leb, ◌==◌, length, if◌then◌else◌,
}
use gardena_matter_mqtt_brid.Base.Exec.{
  Exec, Error, Result, ok, err, pure, raise, lift, gets, modify, raise_if, ◌>>=◌, ◌>>◌, value_error,
  unicode_error, connection_error, timeout_error, file_not_found, install_error, http_error,
  out_of_fuel,
}
use gardena_matter_mqtt_brid.Text.{Str, str, str_eq, all_chars, is_digit, decimal}
use gardena_matter_mqtt_brid.Json.{Json}
use gardena_matter_mqtt_brid.Json.Dict.{Dict}
use gardena_matter_mqtt_brid.Telemetry.{Device, Entity, readings}
use gardena_matter_mqtt_brid.Worker.{Migration, Phase, taking_over, active}

-- The keys of STEPS.
pub data Step : Type 0 where
  configuration gateway_access sensor_snapshot local_binary gateway_space staging : Step
  upload checksum configuration_upload runtime_check handover health_check : Step

-- installation.json
pub data Progress : Type 0 where
  running : Step → Progress
  finished : Progress
  failed : Step → Str → Progress

-- The phase of cleanup.json.
pub data Cleaning : Type 0 where
  cleaning cleaned not_cleaned : Cleaning

-- gateway_deployment.json
pub data Switch : Type 0 where
  switching switched : Switch

pub record Deployment : Type 0 where
  pub phase : Switch
  pub binding : Str
  pub digest : Str

pub record Service : Type 0 where
  pub running : Bool
  pub enabled : Bool

-- How a call ends. `undone` is done, except that a service to disable was not disabled; only the script
-- of a give-up succeeds then, and elsewhere it is the same as done.
pub data Ending : Type 0 where
  done undone : Ending
  fails : Error → Bool → Service → Ending

-- What one `health` found, after so many milliseconds.
pub record Probe : Type 0 where
  pub took : ℕ
  pub found : Result Bool

-- `erased` tells that migration.json, when it holds no journal, is there and holds null; `worker` is the
-- process of worker.py, `publisher` whether gardena-mqtt-publisher.service runs, and
-- `told` the text of an InstallError. `observed` lists whether the worker and the service ran, at the
-- start and after each change of either.
pub record Site : Type 0 where
  pub migration : Option Migration
  pub erased : Bool
  pub deployment : Option Deployment
  pub installation : Option Progress
  pub cleanup : Option Cleaning
  pub mode : Str
  pub worker : Bool
  pub publisher : Bool
  pub service : Service
  pub told : Str
  pub now : ℕ
  pub observed : List (Bool × Bool)
  pub endings : List Ending
  pub probes : List Probe

abbrev pub observe : Site → Site
observe s = record s { observed = (s.worker, s.service.running) ∷ s.observed }

-- A call whose failure leaves the service alone.
abbrev run_call : List Ending → (Site → Site) → Exec Site (Unit {0})
run_call [] effect s = (ok tt, effect s)
run_call (done ∷ l) effect s = (ok tt, effect (record s { endings = l }))
run_call (undone ∷ l) effect s = (ok tt, effect (record s { endings = l }))
run_call (fails e true v ∷ l) effect s = (err e, effect (record s { endings = l }))
run_call (fails e false v ∷ l) effect s = (err e, record s { endings = l })

unfoldable pub call : (Site → Site) → Exec Site (Unit {0})
call effect s = run_call s.endings effect s

abbrev pub with_service : Service → Site → Site
with_service v s = observe (record s { service = v })

-- A call on the service.
abbrev run_service : List Ending → Service → Exec Site (Unit {0})
run_service [] v s = (ok tt, with_service v s)
run_service (done ∷ l) v s = (ok tt, with_service v (record s { endings = l }))
run_service (undone ∷ l) v s = (ok tt, with_service v (record s { endings = l }))
run_service (fails e b w ∷ l) v s = (err e, with_service w (record s { endings = l }))

unfoldable pub service_call : Service → Exec Site (Unit {0})
service_call v s = run_service s.endings v s

abbrev pub nothing : Site → Site
nothing s = s

-- `step(name)`
unfoldable pub step : Step → Exec Site (Unit {0})
step name = call (λ s. record s { installation = some (running name) })

unfoldable pub write_deployment : Option Deployment → Exec Site (Unit {0})
write_deployment d = call (λ s. record s { deployment = d })

unfoldable pub write_progress : Progress → Exec Site (Unit {0})
write_progress p = call (λ s. record s { installation = some p })

-- `report(mode, ...)`
unfoldable pub report : Str → Exec Site (Unit {0})
report mode = call (λ s. record s { mode = mode })

-- `stop_worker()` of app.py
unfoldable pub stop_worker : Exec Site (Unit {0})
stop_worker s = (ok tt, observe (record s { worker = false }))

-- The record of a plan that goes to the gateway.
pub record Target : Type 0 where
  pub topic : Str
  pub serial : Str
  pub resource : Str
  pub key : Str
  pub config : Dict Json

pub record Config : Type 0 where
  pub binding : Str
  pub mqtt_host : Str
  pub mqtt_port : ℕ
  pub mqtt_user : Str
  pub mqtt_password : Str
  pub gateway_password : Str
  pub topic_prefix : Str
  pub ha_prefix : Str

pub record RuntimeConfig : Type 0 where
  pub settings : Config
  pub plan : List Target
  pub mower_ids : List Str

abbrev target : Entity → Target
target e = record {
  topic = e.topic;
  serial = e.serial;
  resource = e.resource;
  key = e.key;
  config = e.config;
}

abbrev pub is_active : Phase → Bool
is_active taking_over = false
is_active active = true

-- `runtime_config(cfg, migration)`; `cfg.binding` is `binding(cfg)`.
unfoldable pub runtime_config : Config → Option Migration → Result RuntimeConfig
runtime_config cfg none = err value_error
runtime_config cfg (some m) =
    if not (is_active m.phase) || not (str_eq m.binding cfg.binding)
    then err value_error
    else ok (record { settings = cfg; plan = map target m.plan; mower_ids = m.mower_ids })

abbrev pub plan_of : Option Migration → List Entity
plan_of none = []
plan_of (some m) = m.plan

-- `raise InstallError(text)`
abbrev pub raise_install : Str → Exec Site (Unit {0})
raise_install text s = (err install_error, record s { told = text })

-- `int(raw)` of decimal digits
abbrev int_from : ℕ → Str → ℕ
int_from n [] = n
int_from n (c ∷ s) = int_from (n * 10 + (c - b'0')) s

abbrev pub to_int : Str → ℕ
to_int s = int_from 0 s

-- `raw.isascii() and raw.isdecimal() and len(raw) <= 12`
abbrev pub is_size : Str → Bool
is_size [] = false
is_size (c ∷ s) = all_chars is_digit (c ∷ s) && leb (length (c ∷ s)) 12

abbrev pub short_of_space : ℕ → ℕ → Str
short_of_space free required =
    str "Zu wenig freier Speicher auf dem Gateway: "
    ++ (decimal free
        ++ (str " KiB frei, mindestens "
            ++ (decimal required
                ++ str
                    " KiB benötigt. Es wurde keine neue Runtime übertragen und kein Dienst gestoppt.")))

-- What is printed of the free space, in KiB.
unfoldable pub check_free : Str → ℕ → Exec Site (Unit {0})
check_free raw required =
    if not (is_size raw)
    then raise_install (str "Freier Gateway-Speicher konnte nicht eindeutig ermittelt werden.")
    else if ltb (to_int raw) required
    then raise_install (short_of_space (to_int raw) required)
    else pure tt

abbrev unsupported : Exec Site (Unit {0})
unsupported = raise_install (str "Nicht unterstützte Gateway-Architektur; erwartet wird MIPS.")

-- `check_space(gw, required_kb)`; the stripped outputs of `uname -m` and of `df` are given.
unfoldable pub check_space : Str → Str → ℕ → Exec Site (Unit {0})
check_space architecture raw required = do
  call nothing
  if not (str_eq architecture (str "mips"))
      then unsupported
      else (do call nothing; check_free raw required)
