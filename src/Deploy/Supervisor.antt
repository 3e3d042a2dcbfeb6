-- ===== src/Deploy/Supervisor.antt =====
-- gardena_local_mqtt/app.py, `main`: a turn of the loop that runs the worker, does the actions of the
-- page and leaves the worker stopped while the gateway's runtime is in charge.
use gardena_matter_mqtt_brid.Base.{
  ℕ, ◌+◌, Bool, true, false, Option, none, some, [], ◌∷◌, ◌==◌, leb, if◌then◌else◌,
}
use gardena_matter_mqtt_brid.Base.Exec.{Exec, Result, ok, err, pure, gets, modify, ◌>>=◌, ◌>>◌}
use gardena_matter_mqtt_brid.Text.{Str, str, str_eq}
use gardena_matter_mqtt_brid.Deploy.{Site, Deployment, call, nothing, observe, report, stop_worker}
use gardena_matter_mqtt_brid.Deploy.Cleanup
use gardena_matter_mqtt_brid.Deploy.Install.{Inputs, install, restore_ha, refresh_status}

-- The site with deployment_action.json, DEPLOY_LOCK and the time of the next check.
pub record Supervisor : Type 0 where
  pub site : Site
  pub action : Option Str
  pub locked : Bool
  pub next_check : ℕ

abbrev pub with_site : {A : Type 0} → Exec Site A → Exec Supervisor A
with_site m s = let (r, v) = m s.site in (r, record s { site = v })

abbrev pub run_action : Inputs → Str → Exec Site (Unit {0})
run_action i name =
    if str_eq name (str "install")
    then install i
    else if str_eq name (str "cleanup")
    then Cleanup.run i.cfg
    else if str_eq name (str "restore")
    then restore_ha i.cfg
    else pure tt

abbrev pub next_at : ℕ → Exec Supervisor (Unit {0})
next_at t = modify (λ s. record s { next_check = t })

-- `try: ... except Exception: ...`
abbrev pub after_action : Result (Unit {0}) → Exec Supervisor (Unit {0})
after_action (ok u) = next_at 0
after_action (err e) = do
  with_site (report (str "gateway_error"))
  now ← gets (λ s. s.site.now)
  next_at (now + 30000)

unfoldable pub try_action : Inputs → Str → Exec Supervisor (Unit {0})
try_action i name s =
    let (r, v) = run_action i name s.site in after_action r (record s { site = v })

-- `finally`: the lock is given back.
abbrev pub unlock : {A : Type 0} → Result A × Supervisor → Result A × Supervisor
unlock (r, s) = (r, record s { locked = false })

unfoldable pub do_action : Inputs → Str → Exec Supervisor (Unit {0})
do_action i name = do
  with_site (call nothing)
  modify (λ s. record s { action = none })
  λ s. unlock (try_action i name s)

abbrev pub maybe_action : Inputs → Option Str → Exec Supervisor (Unit {0})
maybe_action i none = pure tt
maybe_action i (some []) = pure tt
maybe_action i (some (c ∷ name)) = do_action i (c ∷ name)

-- `diagnostics.refresh()`, whose failure is passed over, and `deploy.refresh_status()`.
abbrev pub recover : Result (Unit {0}) × Site → Result (Unit {0}) × Site
recover (ok u, s) = (ok u, s)
recover (err e, s) = report (str "gateway_error") s

unfoldable pub refresh : Inputs → Exec Site (Unit {0})
refresh i s = recover (refresh_status i.cfg (call nothing s).1)

abbrev pub due : Inputs → Exec Supervisor (Unit {0})
due i s =
    if leb s.next_check s.site.now
    then (do with_site (refresh i); now ← gets (λ s. s.site.now); next_at (now + 30000)) s
    else (ok tt, s)

-- The gateway is in charge.
unfoldable pub stand_by : Inputs → Exec Supervisor (Unit {0})
stand_by i = do with_site stop_worker; due i

abbrev pub launched : Site → Site
launched s = observe (record s { worker = true })

-- `subprocess.Popen`
unfoldable pub start_worker : Exec Site (Unit {0})
start_worker = call launched

-- A worker that ended by itself with the code 0 is not started again: `stopping.wait()`.
abbrev pub replace : Option ℕ → Exec Site (Unit {0})
replace none = pure tt
replace (some code) = do stop_worker; if code == 0 then pure tt else start_worker

abbrev pub kept_by : Option ℕ → Bool → Exec Site (Unit {0})
kept_by ended true = replace ended
kept_by ended false = start_worker

-- The worker is in charge; `ended` is its exit code if it has ended by itself.
unfoldable pub keep_worker : Option ℕ → Exec Site (Unit {0})
keep_worker ended s = kept_by ended s.worker s

abbrev pub charged : Inputs → Option ℕ → Option Deployment → Exec Supervisor (Unit {0})
charged i ended none = with_site (keep_worker ended)
charged i ended (some d) = stand_by i

abbrev pub in_charge : Inputs → Option ℕ → Exec Supervisor (Unit {0})
in_charge i ended s = charged i ended s.site.deployment s

-- One turn of the loop of `main`.
unfoldable pub turn : Inputs → Option ℕ → Exec Supervisor (Unit {0})
turn i ended = do action ← gets (λ s. s.action); maybe_action i action; in_charge i ended
