-- ===== src/Deploy/Unready.antt =====
-- An installation that fails before the handover changes nothing but its notes.
use gardena_matter_mqtt_brid.Base.{◌≡◌, refl, ◌≢◌, inl, inr, some, arith}
use gardena_matter_mqtt_brid.Base.Exec.{Error, Result, ok, err, Run-cases}
use gardena_matter_mqtt_brid.Deploy.{Site, step, write_progress, configuration}
use gardena_matter_mqtt_brid.Deploy.Keeps.{kept, Keeps, Keeps-call}
use gardena_matter_mqtt_brid.Deploy.Prepare.{Ignores, Keeps-step, prepare-Keeps}
use gardena_matter_mqtt_brid.Deploy.Install.{
  Inputs, prepare, install_steps, note_failure, failure, install,
}

-- What an installation must not touch before the handover.
abbrev IsSame : Site → Site → Type 0
IsSame s v =
    (v.worker ≡ s.worker)
    × (v.publisher ≡ s.publisher)
    × (v.service ≡ s.service)
    × (v.deployment ≡ s.deployment)
    × (v.observed ≡ s.observed)

IsSame-Ignores : (s : Site) → Ignores (IsSame s)
IsSame-Ignores s = (λ v l h. h, λ v p h. h, λ v m h. h, λ v t h. h)

-- The note of a failure raises, and touches nothing else.
noted-IsSame :
    (s v : Site) (e : Error)
    → IsSame s v
    → ((note_failure (err e, v)).0 ≢ ok tt) × IsSame s (note_failure (err e, v)).1
unfolding write_progress
noted-IsSame s v e h = elim (Run-cases (write_progress (failure v e) v)) [
  | inl (a, t, f) ↦
      let k : IsSame s t = rw f at (kept write v h) in rw f (λ bad. ground (arith, bad), k)
  | inr (x, t, f) ↦
      let k : IsSame s t = rw f at (kept write v h) in rw f (λ bad. ground (arith, bad), k)
]
  where
    write : Keeps (IsSame s) (write_progress (failure v e))
    write =
        Keeps-call (IsSame s) (λ t. record t { installation = some (failure v e) })
          (IsSame-Ignores s).0 (λ w k. (IsSame-Ignores s).1 w (some (failure v e)) k)

-- When an installation is refused or fails before the handover, wherever that is, it raises, and the
-- worker, the publisher, the gateway's service and gateway_deployment.json are as they were: MQTT
-- keeps running where it ran.
pub install-unready :
    (i : Inputs) (s w v t : Site) (u : Unit {0}) (e : Error) (r : Result (Unit {0}))
    → step configuration s ≡ (ok u, w)
    → prepare i w ≡ (err e, v)
    → install i s ≡ (r, t)
    → (r ≢ ok tt)
      × (t.worker ≡ s.worker)
      × (t.publisher ≡ s.publisher)
      × (t.service ≡ s.service)
      × (t.deployment ≡ s.deployment)
      × (t.observed ≡ s.observed)
install-unready i s w v t u e r noted refused run =
    let first : IsSame s w = rw noted at (
      kept (Keeps-step (IsSame s) (IsSame-Ignores s) configuration) s
        (refl, refl, refl, refl, refl)) in
    let after : IsSame s v =
      rw refused at (kept (prepare-Keeps (IsSame s) (IsSame-Ignores s) i) w first) in
    let last = noted-IsSame s v e after in
    let same : note_failure (err e, v) ≡ (r, t) =
      unfold install install_steps in ground (arith, noted, refused, run) in
    let both : (r ≢ ok tt) × IsSame s t = rw same at last in
    (both.0, both.1.0, both.1.1, both.1.2, both.1.3, both.1.4)
