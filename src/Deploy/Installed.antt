-- ===== src/Deploy/Installed.antt =====
-- What an installation leaves when it returns: the gateway is in charge.
use gardena_matter_mqtt_brid.Base.{
  ℕ, zero, suc, ◌+◌, ◌≡◌, refl, inl, inr, true, false, some, List, [], ◌∷◌, arith, leb, Bool-cases,
}
use gardena_matter_mqtt_brid.Base.Exec.{Exec, Result, ok, err, Run-cases, ◌>>◌}
use gardena_matter_mqtt_brid.Text.{str}
use gardena_matter_mqtt_brid.Deploy.{
  Site, Ending, done, undone, fails, switched, finished, run_service, service_call, step,
  write_deployment, write_progress, report, stop_worker,
}
use gardena_matter_mqtt_brid.Deploy.Keeps.{kept}
use gardena_matter_mqtt_brid.Deploy.Wait.{Waits, try_health-Keeps}
use gardena_matter_mqtt_brid.Deploy.Install.{
  Inputs, deployment, stop_publisher, health, try_health, when_ready, await_health, asleep,
  is_retried, start_runtime, or_give_up, switch_over, install_steps, note_failure, failure, install,
}
use gardena_matter_mqtt_brid.Deploy.Ends.{Ends, ends, ended, Ends-bind, Ends-call, Ends-pure}

-- The worker is stopped.
abbrev IsStopped : Site → Type 0
IsStopped s = s.worker ≡ false

-- So is the publisher.
abbrev IsQuiet : Site → Type 0
IsQuiet s = (s.worker ≡ false) × (s.publisher ≡ false)

abbrev IsStarted : Site → Type 0
IsStarted s = IsQuiet s × (s.service ≡ record { running = true; enabled = true })

abbrev IsReady : Inputs → Site → Type 0
IsReady i s = IsStarted s × (s.deployment ≡ some (deployment switched i)) × (s.mode ≡ str "gateway")

service_call-IsStarted :
    Ends IsQuiet IsStarted (service_call (record { running = true; enabled = true }))
unfolding service_call
service_call-IsStarted = ends (λ s v a h e. run_service-IsStarted s.endings s v a h e)
  where
    run_service-IsStarted :
        (l : List Ending) (s v : Site) (a : Unit {0})
        → IsQuiet s
        → run_service l (record { running = true; enabled = true }) s ≡ (ok a, v)
        → IsStarted v
    run_service-IsStarted [] s v a h e = ground (arith, h, e)
    run_service-IsStarted (done ∷ l) s v a h e = ground (arith, h, e)
    run_service-IsStarted (undone ∷ l) s v a h e = ground (arith, h, e)
    run_service-IsStarted (fails x b w ∷ l) s v a h e = absurd (ground (arith, e))

IsStarted-Waits : Waits IsStarted
unfolding health
IsStarted-Waits = (λ s l h. h, λ s d h. h, λ s m h. h, λ s h. ground arith, λ s h. h)

abbrev IsWritten : Inputs → Site → Type 0
IsWritten i s = IsStarted s × (s.deployment ≡ some (deployment switched i))

ready-Ends :
    (i : Inputs) (s v : Site) → IsStarted s → when_ready i true s ≡ (ok true, v) → IsReady i v
unfolding write_deployment report
ready-Ends i s v h e =
    ended
      (Ends-bind (Ends-call IsStarted (IsWritten i) _ (λ s l h. h) (λ s h. (h, refl))) (λ a.
        Ends-bind (Ends-call (IsWritten i) (IsReady i) _ (λ s l h. h) (λ s h. (h.0, h.1, refl)))
          (λ b. Ends-pure (IsReady i) true)))
      s v true h e

try_health-ready :
    (i : Inputs) (s v : Site) → IsStarted s → try_health i s ≡ (ok true, v) → IsReady i v
unfolding try_health
try_health-ready i s v h e = elim (Run-cases (health s)) [
  | inl (true, w, run) ↦ ready-Ends i w v (rw run at (IsStarted-Waits.3 s h)) (rw run at e)
  | inl (false, w, run) ↦ absurd (ground (arith, run, e))
  | inr (x, w, run) ↦ absurd (ground (arith, run, e))
]

await_health-Ends :
    (i : Inputs) (fuel deadline : ℕ) (s v : Site) (u : Unit {0})
    → IsStarted s
    → await_health i fuel deadline s ≡ (ok u, v)
    → IsReady i v
unfolding await_health
await_health-Ends i zero deadline s v u h e = absurd (ground (arith, e))
await_health-Ends i (suc fuel) deadline s v u h e = elim (Bool-cases (leb deadline s.now)) [
  | inl over ↦ absurd (ground (arith, over, e))
  | inr more ↦ elim (Run-cases (try_health i s)) [
    | inl (true, w, run) ↦
        let ready = try_health-ready i s w h run in
        let same : w ≡ v = ground (arith, more, run, e) in rw same at ready
    | inl (false, w, run) ↦
        let later : IsStarted (asleep w) =
          rw run at (kept (try_health-Keeps IsStarted IsStarted-Waits i) s h) in
        await_health-Ends i fuel deadline (asleep w) v u later (rw (more, run) at e)
    | inr (x, w, run) ↦ elim (Bool-cases (is_retried x)) [
      | inr fatal ↦ absurd (ground (arith, more, run, fatal, e))
      | inl again ↦
          let later : IsStarted (asleep w) =
            rw run at (kept (try_health-Keeps IsStarted IsStarted-Waits i) s h) in
          await_health-Ends i fuel deadline (asleep w) v u later (rw (more, run, again) at e)
    ]
  ]
]

start_runtime-Ends : (i : Inputs) → Ends IsStopped (IsReady i) (start_runtime i)
unfolding start_runtime stop_publisher step
start_runtime-Ends i =
    Ends-bind (Ends-call IsStopped IsQuiet _ (λ s l h. h) (λ s h. (h, refl))) (λ a.
      Ends-bind service_call-IsStarted (λ b.
        Ends-bind (Ends-call IsStarted IsStarted _ (λ s l h. h) (λ s h. h))
          (λ c. ends (λ s v u h e. await_health-Ends i 41 (s.now + 120000) s v u h e))))

or_give_up-Ends :
    {P Q : Site → Type 0} {m : Exec Site (Unit {0})} → Ends P Q m → Ends P Q (or_give_up m)
unfolding or_give_up
or_give_up-Ends {m = m} (ends k) = ends (λ s v u h e. elim (Run-cases (m s)) [
  | inl (a, w, run) ↦ k s v u h (ground (arith, run, e))
  | inr (x, w, run) ↦ absurd (ground (arith, run, e))
])

abbrev IsAny : Site → Type 0
IsAny s = Unit {0}

stop_worker-Ends : Ends IsAny IsStopped stop_worker
unfolding stop_worker
stop_worker-Ends = ends (λ s v u h e. ground (arith, e))

switch_over-Ends : (i : Inputs) → Ends IsAny (IsReady i) (switch_over i)
unfolding switch_over step write_deployment report
switch_over-Ends i = Ends-bind (Ends-call IsAny IsAny _ (λ s l h. h) (λ s h. h)) (λ a.
    Ends-bind (Ends-call IsAny IsAny _ (λ s l h. h) (λ s h. h)) (λ b.
      Ends-bind (Ends-call IsAny IsAny _ (λ s l h. h) (λ s h. h))
        (λ c. Ends-bind stop_worker-Ends (λ d. or_give_up-Ends (start_runtime-Ends i)))))

abbrev IsInstalled : Inputs → Site → Type 0
IsInstalled i s = IsReady i s × (s.installation ≡ some finished)

body-Ends : (i : Inputs) → Ends IsAny (IsInstalled i) (do install_steps i; write_progress finished)
unfolding install_steps write_progress
body-Ends i =
    Ends-bind (Ends-bind {Q = IsAny} (ends (λ s v u h e. tt)) (λ p. switch_over-Ends i))
      (λ a. Ends-call (IsReady i) (IsInstalled i) _ (λ s l h. h) (λ s h. (h, refl)))

-- The body of the `try` returned when the installation did.
returned :
    (m : Result (Unit {0}) × Site) (u : Unit {0}) (v : Site)
    → note_failure m ≡ (ok u, v)
    → m ≡ (ok u, v)
returned (ok a, w) u v e = e
returned (err x, w) u v e = elim (Run-cases (write_progress (failure w x) w)) [
  | inl (a, t, f) ↦ absurd (ground (arith, e, f))
  | inr (y, t, f) ↦ absurd (ground (arith, e, f))
]

install-Ends : (i : Inputs) → Ends IsAny (IsInstalled i) (install i)
unfolding install step
install-Ends i =
    Ends-bind (Ends-call IsAny IsAny _ (λ s l h. h) (λ s h. h))
      (λ a. ends (λ s v u h e. ended (body-Ends i) s v u h (returned _ u v e)))

-- When an installation returns, whatever the site was: the worker and the publisher are stopped, the
-- gateway's service runs and is enabled, gateway_deployment.json is active with the binding and the
-- digest of this installation, the mode is the gateway's and installation.json says that it is done.
pub install-switches :
    (i : Inputs) (s v : Site) (u : Unit {0})
    → install i s ≡ (ok u, v)
    → (v.worker ≡ false)
      × (v.publisher ≡ false)
      × (v.service ≡ record { running = true; enabled = true })
      × (v.deployment ≡ some (deployment switched i))
      × (v.mode ≡ str "gateway")
      × (v.installation ≡ some finished)
install-switches i s v u run =
    let last = ended (install-Ends i) s v u tt run in
    (last.0.0.0.0, last.0.0.0.1, last.0.0.1, last.0.1, last.0.2, last.1)
