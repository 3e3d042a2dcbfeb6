-- ===== src/Deploy/Control.antt =====
-- Over the whole run of the app the worker and the gateway's runtime never run at once.
use gardena_matter_mqtt_brid.Base.{
  ℕ, ◌≡◌, refl, inl, inr, Bool, true, false, Option, none, some, [], ◌∷◌, All, arith, leb, ◌==◌,
  Bool-cases,
}
use gardena_matter_mqtt_brid.Base.Exec.{Result, ok, err, Run-cases}
use gardena_matter_mqtt_brid.Text.{Str, str, str_eq}
use gardena_matter_mqtt_brid.Deploy.{Site, Deployment, call, nothing, report, stop_worker, observe}
use gardena_matter_mqtt_brid.Deploy.Install.{Inputs}
use gardena_matter_mqtt_brid.Deploy.Supervisor.{
  Supervisor, run_action, after_action, try_action, do_action, maybe_action, refresh, due, stand_by,
  launched, start_worker, replace, kept_by, keep_worker, charged, in_charge, turn,
}
use gardena_matter_mqtt_brid.Deploy.Keeps.{
  Keeps, keeps, kept, Keeps-pure, Keeps-bind, Keeps-call, Keeps-if,
}
use gardena_matter_mqtt_brid.Deploy.Actions.{
  IsSettled, report-IsSingle, nothing-IsSettled, cleanup-IsSingle, restore_ha-IsSingle,
  refresh-IsHeld,
}
use gardena_matter_mqtt_brid.Deploy.Single.{
  IsAlone, IsSingle, IsHeld, IsHeld-IsSingle, install-IsSingle,
}

-- An action of the page, from between two turns.
action-IsSingle :
    (i : Inputs) (name : Str) (s : Site) → IsSettled s → IsSingle (run_action i name s).1
action-IsSingle i name s h = elim (Bool-cases (str_eq name (str "install"))) [
  | inl a ↦ rw a (kept (install-IsSingle i) s h.0)
  | inr a ↦ elim (Bool-cases (str_eq name (str "cleanup"))) [
    | inl b ↦ rw (a, b) (kept (cleanup-IsSingle i.cfg) s h.0)
    | inr b ↦ elim (Bool-cases (str_eq name (str "restore"))) [
      | inl c ↦ rw (a, b, c) (restore_ha-IsSingle i.cfg s h)
      | inr c ↦ rw (a, b, c) h.0
    ]
  ]
]

-- The worker in charge: there is no journal, so the service does not run.
abbrev IsFree : Site → Type 0
IsFree s = IsSingle s × (s.deployment ≡ none)

start_worker-IsFree : Keeps IsFree start_worker
unfolding start_worker
start_worker-IsFree =
    Keeps-call IsFree launched (λ s l h. ground arith)
      (λ s h.
        (record { idle = h.0.idle; alone = h.0.idle h.1; seen = (h.0.idle h.1, h.0.seen) }, h.1))

stop_worker-IsFree : Keeps IsFree stop_worker
unfolding stop_worker
stop_worker-IsFree =
    keeps (λ s h. (record { idle = h.0.idle; alone = refl; seen = (refl, h.0.seen) }, h.1))

replace-IsFree : (ended : Option ℕ) → Keeps IsFree (replace ended)
replace-IsFree none = Keeps-pure IsFree tt
replace-IsFree (some code) =
    Keeps-bind IsFree stop_worker-IsFree
      (λ u. Keeps-if IsFree (code == 0) (Keeps-pure IsFree tt) start_worker-IsFree)

kept_by-IsFree : (ended : Option ℕ) (b : Bool) → Keeps IsFree (kept_by ended b)
kept_by-IsFree ended true = replace-IsFree ended
kept_by-IsFree ended false = start_worker-IsFree

keep_worker-IsFree : (ended : Option ℕ) → Keeps IsFree (keep_worker ended)
unfolding keep_worker
keep_worker-IsFree ended = keeps (λ s h. kept (kept_by-IsFree ended s.worker) s h)

-- A site from which a turn may end.
IsHeld-IsSettled : (s : Site) → IsHeld s → IsSettled s
IsHeld-IsSettled s h = (IsHeld-IsSingle s h, λ e. h.stopped)

due-IsHeld : (i : Inputs) (s : Supervisor) → IsHeld s.site → IsHeld (due i s).1.site
due-IsHeld i s h = elim (Bool-cases (leb s.next_check s.site.now)) [
  | inr later ↦ rw later h
  | inl now ↦ elim (Run-cases (refresh i s.site)) [
    | inl (u, v, e) ↦ let k : IsHeld v = rw e at (kept (refresh-IsHeld i) s.site h) in rw (now, e) k
    | inr (x, v, e) ↦ let k : IsHeld v = rw e at (kept (refresh-IsHeld i) s.site h) in rw (now, e) k
  ]
]

IsFree-IsSettled : (s : Site) → IsFree s → IsSettled s
IsFree-IsSettled s h = (h.0, λ e. absurd (e h.1))

charged-IsSettled :
    (i : Inputs) (ended : Option ℕ) (d : Option Deployment) (s : Supervisor)
    → s.site.deployment ≡ d
    → IsSingle s.site
    → IsSettled (charged i ended d s).1.site
charged-IsSettled i ended none s e h =
    IsFree-IsSettled _ (kept (keep_worker-IsFree ended) s.site (h, e))
charged-IsSettled i ended (some d) s e h =
    let stopped : Supervisor = record s { site = observe (record s.site { worker = false }) } in
    let held : IsHeld stopped.site = record {
      journal = λ gone. ground (arith, gone, e);
      stopped = refl;
      before = (refl, h.seen);
    } in
    unfold stand_by stop_worker in IsHeld-IsSettled _ (due-IsHeld i stopped held)

after_action-IsSingle :
    (r : Result (Unit {0})) (s : Supervisor) → IsSingle s.site → IsSingle (after_action r s).1.site
after_action-IsSingle (ok u) s h = h
after_action-IsSingle (err e) s h = elim (Run-cases (report (str "gateway_error") s.site)) [
  | inl (u, v, e) ↦
      let k : IsSingle v = rw e at (kept (report-IsSingle (str "gateway_error")) s.site h) in rw e k
  | inr (x, v, e) ↦
      let k : IsSingle v = rw e at (kept (report-IsSingle (str "gateway_error")) s.site h) in rw e k
]

do_action-IsSingle :
    (i : Inputs) (name : Str) (s : Supervisor)
    → IsSettled s.site
    → IsSingle (do_action i name s).1.site
do_action-IsSingle i name s h = elim (Run-cases (call nothing s.site)) [
  | inr (x, v, e) ↦
      let k : IsSettled v = rw e at (kept nothing-IsSettled s.site h) in
      unfold do_action in rw e k.0
  | inl (u, v, e) ↦
      let k : IsSettled v = rw e at (kept nothing-IsSettled s.site h) in
      let m = run_action i name v in
      unfold do_action try_action in
      rw e (
        after_action-IsSingle m.0 (record s { site = m.1; action = none })
          (action-IsSingle i name v k))
]

maybe_action-IsSingle :
    (i : Inputs) (a : Option Str) (s : Supervisor)
    → IsSettled s.site
    → IsSingle (maybe_action i a s).1.site
maybe_action-IsSingle i none s h = h.0
maybe_action-IsSingle i (some []) s h = h.0
maybe_action-IsSingle i (some (c ∷ name)) s h = do_action-IsSingle i (c ∷ name) s h

-- Whichever way a turn ends, the site is single; when it returns, the next turn can follow.
turn-IsSettled :
    (i : Inputs) (ended : Option ℕ) (s t : Supervisor) (r : Result (Unit {0}))
    → IsSettled s.site
    → turn i ended s ≡ (r, t)
    → IsSingle t.site × (r ≡ ok tt → IsSettled t.site)
turn-IsSettled i ended s t r h run = elim (Run-cases (maybe_action i s.action s)) [
  | inr (x, v, e) ↦
      let k : IsSingle v.site = rw e at (maybe_action-IsSingle i s.action s h) in
      (unfold turn in ground (arith, e, run, k), λ good. unfold turn in ground (arith, e, run))
  | inl (u, v, e) ↦
      let k : IsSingle v.site = rw e at (maybe_action-IsSingle i s.action s h) in
      let settled = charged-IsSettled i ended v.site.deployment v refl k in
      let same : (in_charge i ended v).1 ≡ t = unfold turn in ground (arith, e, run) in
      let last : IsSettled t.site = rw same at settled in (last.0, λ good. last)
]

-- Between two turns time passes, a request or the worker writes its files, and nothing starts or stops
-- the worker or the service, or writes gateway_deployment.json.
pub record Meanwhile (s t : Supervisor) : Type 0 where
  pub same_deployment : t.site.deployment ≡ s.site.deployment
  pub same_worker : t.site.worker ≡ s.site.worker
  pub same_service : t.site.service ≡ s.site.service
  pub same_observed : t.site.observed ≡ s.site.observed

Meanwhile-IsSettled : (s t : Supervisor) → Meanwhile s t → IsSettled s.site → IsSettled t.site
Meanwhile-IsSettled s t m h = ground (arith, m, h)

-- The turns of `main` that returned, with any options, outcomes and exits of the worker.
pub data Runs (s : Supervisor) : Supervisor → Type 0 where
  start : Runs s s
  turned :
      {t t' u : Supervisor} (i : Inputs) (ended : Option ℕ)
      → Runs s t
      → Meanwhile t t'
      → turn i ended t' ≡ (ok tt, u)
      → Runs s u

Runs-IsSettled : {s t : Supervisor} → Runs s t → IsSettled s.site → IsSettled t.site
Runs-IsSettled start h = h
Runs-IsSettled (turned {t = t} {t' = t'} {u = u} i ended path m run) h =
    (turn-IsSettled i ended t' u (ok tt) (Meanwhile-IsSettled t t' m (Runs-IsSettled path h)) run).1
      refl

-- When the app starts with no worker, and with no gateway runtime running unless
-- gateway_deployment.json is there, then however many turns its main loop makes, whatever is asked of
-- it and whichever calls fail, also in a last turn that raises: the worker and the gateway's runtime
-- have at no moment run at once, and without the file the runtime does not run.
pub turn-Runs :
    (i : Inputs) (ended : Option ℕ) (s t t' u : Supervisor) (r : Result (Unit {0}))
    → s.site.worker ≡ false
    → (s.site.deployment ≡ none → s.site.service.running ≡ false)
    → s.site.observed ≡ []
    → Runs s t
    → Meanwhile t t'
    → turn i ended t' ≡ (r, u)
    → All IsAlone u.site.observed × (u.site.deployment ≡ none → u.site.service.running ≡ false)
turn-Runs i ended s t t' u r off idle new path m run =
    let first : IsSettled s.site =
      (record { idle = idle; alone = ground (arith, off); seen = rw new tt }, λ e. off) in
    let last =
      turn-IsSettled i ended t' u r (Meanwhile-IsSettled t t' m (Runs-IsSettled path first)) run in
    (last.0.seen, last.0.idle)
