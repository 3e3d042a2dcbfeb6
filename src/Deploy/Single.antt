-- ===== src/Deploy/Single.antt =====
-- The worker and the gateway's runtime never run at once.
use gardena_matter_mqtt_brid.Base.{
  ℕ, suc, zero, ◌+◌, ◌≡◌, refl, ◌≢◌, inl, inr, Bool, true, false, ◌&&◌, Option, none, some, List,
  [], ◌∷◌, All, arith, leb,
}
use gardena_matter_mqtt_brid.Base.Exec.{Exec, Result, ok, err, Run-cases, raise, ◌>>◌}
use gardena_matter_mqtt_brid.Text.{Str, str}
use gardena_matter_mqtt_brid.Deploy.{
  switching, finished, Site, Ending, done, undone, fails, Service, Progress, Deployment, call,
  service_call, step, report, write_progress, write_deployment, stop_worker, observe, run_service,
}
use gardena_matter_mqtt_brid.Deploy.Install.{
  Inputs, stop_publisher, health, when_ready, try_health, await_health, start_runtime, retire,
  run_stop, stop_runtime, give_up, or_give_up, switch_over, install_steps, failure, install,
  note_failure, deployment, asleep,
}
use gardena_matter_mqtt_brid.Deploy.Keeps.{
  Keeps, keeps, kept, Keeps-pure, Keeps-gets, Keeps-bind, Keeps-call, round_of-kept,
}
use gardena_matter_mqtt_brid.Deploy.Prepare.{Ignores, prepare-Keeps}

-- The worker and the service did not both run.
abbrev pub IsAlone : Bool × Bool → Type 0
IsAlone (worker, service) = (worker && service) ≡ false

-- Without a journal the service does not run; the worker and the service do not both run, and never
-- did.
pub record IsSingle (s : Site) : Type 0 where
  pub idle : s.deployment ≡ none → s.service.running ≡ false
  pub alone : IsAlone (s.worker, s.service.running)
  pub seen : All IsAlone s.observed

pub IsSingle-Ignores : Ignores IsSingle
IsSingle-Ignores =
    (λ s l h. ground arith, λ s p h. ground arith, λ s m h. ground arith, λ s t h. ground arith)

-- The journal is there and the worker does not run: the service may do what it likes.
pub record IsHeld (s : Site) : Type 0 where
  pub journal : s.deployment ≢ none
  pub stopped : s.worker ≡ false
  pub before : All IsAlone s.observed

pub IsHeld-IsSingle : (s : Site) → IsHeld s → IsSingle s
IsHeld-IsSingle s h = record {
  idle = λ e. absurd (h.journal e);
  alone = ground (arith, h.stopped);
  seen = h.before;
}

pub IsHeld-Ignores : Ignores IsHeld
IsHeld-Ignores =
    (λ s l h. ground arith, λ s p h. ground arith, λ s m h. ground arith, λ s t h. ground arith)

run_service-IsHeld :
    (l : List Ending) (v : Service) (s : Site) → IsHeld s → IsHeld (run_service l v s).1
run_service-IsHeld [] v s h = ground (arith, h.stopped)
run_service-IsHeld (done ∷ l) v s h = ground (arith, h.stopped)
run_service-IsHeld (undone ∷ l) v s h = ground (arith, h.stopped)
run_service-IsHeld (fails e b w ∷ l) v s h = ground (arith, h.stopped)

service_call-IsHeld : (v : Service) → Keeps IsHeld (service_call v)
unfolding service_call
service_call-IsHeld v = keeps (λ s h. run_service-IsHeld s.endings v s h)

pub journal-IsHeld : (d : Deployment) → Keeps IsHeld (write_deployment (some d))
unfolding write_deployment
journal-IsHeld d = Keeps-call IsHeld _ IsHeld-Ignores.0 (λ s h. ground arith)

pub health-IsHeld : Keeps IsHeld health
unfolding health
health-IsHeld = keeps (λ s h. ground arith)

pub report-IsHeld : (m : Str) → Keeps IsHeld (report m)
unfolding report
report-IsHeld m = Keeps-call IsHeld _ IsHeld-Ignores.0 (λ s h. IsHeld-Ignores.2 s m h)

when_ready-IsHeld : (i : Inputs) (b : Bool) → Keeps IsHeld (when_ready i b)
when_ready-IsHeld i true =
    Keeps-bind IsHeld (journal-IsHeld _)
      (λ u. Keeps-bind IsHeld (report-IsHeld _) (λ v. Keeps-pure IsHeld true))
when_ready-IsHeld i false = Keeps-pure IsHeld false

try_health-IsHeld : (i : Inputs) → Keeps IsHeld (try_health i)
unfolding try_health
try_health-IsHeld i = Keeps-bind IsHeld health-IsHeld (when_ready-IsHeld i)

await_health-IsHeld :
    (i : Inputs) (fuel deadline : ℕ) (s : Site)
    → IsHeld s
    → IsHeld (await_health i fuel deadline s).1
unfolding await_health
await_health-IsHeld i zero deadline s h = h
await_health-IsHeld i (suc fuel) deadline s h =
    let next : IsHeld (try_health i s).1 = kept (try_health-IsHeld i) s h in
    let later =
      await_health-IsHeld i fuel deadline (asleep (try_health i s).1) (ground (arith, next)) in
    round_of-kept IsHeld (leb deadline s.now) (try_health i s) _ s h next later

await_health-Keeps : (i : Inputs) (fuel deadline : ℕ) → Keeps IsHeld (await_health i fuel deadline)
await_health-Keeps i fuel deadline = keeps (await_health-IsHeld i fuel deadline)

start_runtime-IsHeld : (i : Inputs) → Keeps IsHeld (start_runtime i)
unfolding start_runtime stop_publisher step
start_runtime-IsHeld i =
    Keeps-bind IsHeld (Keeps-call IsHeld _ IsHeld-Ignores.0 (λ s h. ground arith)) (λ u.
      Keeps-bind IsHeld (service_call-IsHeld _) (λ v.
        Keeps-bind IsHeld (Keeps-call IsHeld _ IsHeld-Ignores.0 (λ s h. IsHeld-Ignores.1 s _ h))
          (λ w.
            Keeps-bind IsHeld {f = λ now. await_health i 41 (now + 120000)}
              (Keeps-gets IsHeld (λ s. s.now)) (λ now. await_health-Keeps i 41 (now + 120000)))))

-- The service does not run, so that the journal may go.
abbrev IsOff : Site → Type 0
IsOff s = IsSingle s × (s.service.running ≡ false)

journal-IsOff : (d : Option Deployment) → Keeps IsOff (write_deployment d)
unfolding write_deployment
journal-IsOff d = Keeps-call IsOff _ (λ s l h. ground arith) (λ s h. ground arith)

service_off :
    (s v : Site) (u : Unit {0})
    → service_call (record { running = false; enabled = false }) s ≡ (ok u, v)
    → v.service.running ≡ false
unfolding service_call
service_off s v u e = ground arith

-- What stops the service and then drops the journal, from a site where the worker is stopped.
pub retire-IsSingle : (s : Site) → IsHeld s → IsSingle (retire s).1
unfolding retire
retire-IsSingle s h =
    elim (Run-cases (service_call (record { running = false; enabled = false }) s)) [
      | inr (x, v, e) ↦
          let held : IsHeld v =
            rw e at
              (kept (service_call-IsHeld (record { running = false; enabled = false })) s h) in
          rw e (IsHeld-IsSingle v held)
      | inl (u, v, e) ↦
          let held : IsHeld v =
            rw e at
              (kept (service_call-IsHeld (record { running = false; enabled = false })) s h) in
          let off : IsOff v = (IsHeld-IsSingle v held, service_off s v u e) in
          rw e (kept (journal-IsOff none) v off).0
    ]

run_stop-IsHeld : (l : List Ending) (s : Site) → IsHeld s → IsHeld (run_stop l s).1
run_stop-IsHeld [] s h = ground (arith, h.stopped)
run_stop-IsHeld (done ∷ l) s h = ground (arith, h.stopped)
run_stop-IsHeld (undone ∷ l) s h = ground (arith, h.stopped)
run_stop-IsHeld (fails e b w ∷ l) s h = ground (arith, h.stopped)

stop_runtime-IsHeld : Keeps IsHeld stop_runtime
unfolding stop_runtime
stop_runtime-IsHeld = keeps (λ s h. run_stop-IsHeld s.endings s h)

stop_off : (s v : Site) (u : Unit {0}) → stop_runtime s ≡ (ok u, v) → v.service.running ≡ false
unfolding stop_runtime
stop_off s v u e = ground (arith, e)

-- The same for the script of a give-up.
give_up-IsSingle : (s : Site) → IsHeld s → IsSingle (give_up s).1
unfolding give_up
give_up-IsSingle s h = elim (Run-cases (stop_runtime s)) [
  | inr (x, v, e) ↦
      let held : IsHeld v = rw e at (kept stop_runtime-IsHeld s h) in rw e (IsHeld-IsSingle v held)
  | inl (u, v, e) ↦
      let held : IsHeld v = rw e at (kept stop_runtime-IsHeld s h) in
      let off : IsOff v = (IsHeld-IsSingle v held, stop_off s v u e) in
      rw e (kept (journal-IsOff none) v off).0
]

or_give_up-IsSingle :
    (m : Exec Site (Unit {0}))
    → Keeps IsHeld m
    → (s : Site) → IsHeld s
    → IsSingle (or_give_up m s).1
or_give_up-IsSingle m k s h = elim (Run-cases (m s)) [
  | inl (u, v, e) ↦
      let held : IsHeld v = rw e at (kept k s h) in
      unfold or_give_up in rw e (IsHeld-IsSingle v held)
  | inr (x, v, e) ↦
      let held : IsHeld v = rw e at (kept k s h) in
      unfold or_give_up in rw e (give_up-IsSingle v held)
]

-- The journal is written, and the worker still runs.
abbrev IsNoted : Site → Type 0
IsNoted s = IsSingle s × (s.deployment ≢ none)

journal-IsSingle : (d : Deployment) → Keeps IsSingle (write_deployment (some d))
unfolding write_deployment
journal-IsSingle d = Keeps-call IsSingle _ IsSingle-Ignores.0 (λ s h. ground arith)

journal_written :
    (d : Deployment) (s v : Site) (u : Unit {0})
    → write_deployment (some d) s ≡ (ok u, v)
    → v.deployment ≡ some d
unfolding write_deployment call
journal_written d s v u e = ground arith

report-IsNoted : Keeps IsNoted (report (str "deploying"))
unfolding report
report-IsNoted =
    Keeps-call IsNoted (λ s. record s { mode = str "deploying" }) (λ s l h. ground arith)
      (λ s h. ground arith)

after_journal :
    (i : Inputs) (s : Site)
    → IsNoted s
    → IsSingle ((do report (str "deploying"); stop_worker; or_give_up (start_runtime i)) s).1
after_journal i s h = elim (Run-cases (report (str "deploying") s)) [
  | inr (x, v, e) ↦ let noted : IsNoted v = rw e at (kept report-IsNoted s h) in rw e noted.0
  | inl (u, v, e) ↦
      let noted : IsNoted v = rw e at (kept report-IsNoted s h) in
      let held : IsHeld (observe (record v { worker = false })) = record {
        journal = noted.1;
        stopped = refl;
        before = (refl, noted.0.seen);
      } in
      rw e (
        unfold stop_worker in or_give_up-IsSingle (start_runtime i) (start_runtime-IsHeld i) _ held)
]

from_journal :
    (i : Inputs) (d : Deployment) (s : Site)
    → IsSingle s
    → IsSingle
        ((do
          write_deployment (some d)
          report (str "deploying")
          stop_worker
          or_give_up (start_runtime i))
          s).1
from_journal i d s h = elim (Run-cases (write_deployment (some d) s)) [
  | inr (x, v, e) ↦ let single : IsSingle v = rw e at (kept (journal-IsSingle d) s h) in rw e single
  | inl (u, v, e) ↦
      let single : IsSingle v = rw e at (kept (journal-IsSingle d) s h) in
      let there = journal_written d s v u e in
      rw e (after_journal i v (single, λ gone. ground (arith, gone, there)))
]

switch_over-IsSingle : (i : Inputs) → Keeps IsSingle (switch_over i)
unfolding switch_over step
switch_over-IsSingle i =
    Keeps-bind IsSingle (Keeps-call IsSingle _ IsSingle-Ignores.0 (λ s h. IsSingle-Ignores.1 s _ h))
      (λ u. keeps (λ s h. from_journal i (deployment switching i) s h))

progress-IsSingle : (p : Progress) → Keeps IsSingle (write_progress p)
unfolding write_progress
progress-IsSingle p = Keeps-call IsSingle _ IsSingle-Ignores.0 (λ s h. IsSingle-Ignores.1 s _ h)

note_failure-IsSingle : (m : Result (Unit {0}) × Site) → IsSingle m.1 → IsSingle (note_failure m).1
note_failure-IsSingle (ok u, s) h = h
note_failure-IsSingle (err e, s) h =
    kept
      (Keeps-bind IsSingle {f = λ u. raise e} (progress-IsSingle (failure s e))
        (λ u. keeps (λ v k. k)))
      s h

install_steps-IsSingle : (i : Inputs) → Keeps IsSingle (install_steps i)
unfolding install_steps
install_steps-IsSingle i =
    Keeps-bind IsSingle (prepare-Keeps IsSingle IsSingle-Ignores i) (λ p. switch_over-IsSingle i)

-- An installation, whichever of its calls fail, leaves the site single.
pub install-IsSingle : (i : Inputs) → Keeps IsSingle (install i)
unfolding install step
install-IsSingle i =
    Keeps-bind IsSingle (Keeps-call IsSingle _ IsSingle-Ignores.0 (λ s h. IsSingle-Ignores.1 s _ h))
      (λ u. keeps (λ s h. note_failure-IsSingle ((do install_steps i; write_progress finished) s) (
        kept (Keeps-bind IsSingle (install_steps-IsSingle i) (λ u. progress-IsSingle finished)) s
          h)))
