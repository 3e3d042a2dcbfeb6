-- ===== src/Deploy/Prepare.antt =====
-- The installation up to the handover leaves alone what the journal, the worker and the service are.
use gardena_matter_mqtt_brid.Base.{ℕ, not, Option, ltb}
use gardena_matter_mqtt_brid.Base.Exec.{Exec, ◌>>=◌}
use gardena_matter_mqtt_brid.Text.{Str, str, str_eq}
use gardena_matter_mqtt_brid.Telemetry.{readings}
use gardena_matter_mqtt_brid.Deploy.{
  Site, Step, Progress, call, nothing, step, report, runtime_config, plan_of, check_free, is_size,
  to_int, short_of_space, RuntimeConfig, gateway_access, sensor_snapshot, local_binary,
  gateway_space, staging, upload, checksum, configuration_upload, runtime_check, check_space,
  raise_install,
}
use gardena_matter_mqtt_brid.Deploy.Install.{Inputs, prepare, transfer}
use gardena_matter_mqtt_brid.Deploy.Keeps.{
  Keeps, keeps, IsBlind, Keeps-pure, Keeps-lift, Keeps-gets, Keeps-bind, Keeps-call, Keeps-if,
}

-- What the installation does before the handover keeps any predicate that looks at the journal, the
-- worker and the service alone.
abbrev pub Ignores : (Site → Type 0) → Type 0
Ignores P =
    IsBlind P
    × ((s : Site) (p : Option Progress) → P s → P (record s { installation = p }))
    × ((s : Site) (m : Str) → P s → P (record s { mode = m }))
    × ((s : Site) (t : Str) → P s → P (record s { told = t }))

module _ (P : Site → Type 0) (ignores : Ignores P) where
  Keeps-nothing : Keeps P (call nothing)
  Keeps-nothing = Keeps-call P nothing ignores.0 (λ s h. h)

  pub Keeps-step : (n : Step) → Keeps P (step n)
  unfolding step
  Keeps-step n = Keeps-call P _ ignores.0 (λ s h. ignores.1 s _ h)

  Keeps-report : (m : Str) → Keeps P (report m)
  unfolding report
  Keeps-report m = Keeps-call P _ ignores.0 (λ s h. ignores.2 s _ h)

  Keeps-raise_install : (t : Str) → Keeps P (raise_install t)
  Keeps-raise_install t = keeps (λ s h. ignores.3 s t h)

  infixr 5 ◌then_keeps◌
  ◌then_keeps◌ :
      {A B : Type 0} {m : Exec Site A} {n : Exec Site B}
      → Keeps P m
      → Keeps P n
      → Keeps P (m >>= λ _. n)
  k then_keeps l = Keeps-bind P k (λ _. l)

  check_free-Keeps : (f : Str) (n : ℕ) → Keeps P (check_free f n)
  unfolding check_free
  check_free-Keeps f n = Keeps-if P (not (is_size f)) (Keeps-raise_install _) (
      Keeps-if P (ltb (to_int f) n) (Keeps-raise_install (short_of_space (to_int f) n))
        (Keeps-pure P tt))

  check_space-Keeps : (a f : Str) (n : ℕ) → Keeps P (check_space a f n)
  unfolding check_space
  check_space-Keeps a f n =
      Keeps-nothing
      then_keeps Keeps-if P (not (str_eq a (str "mips"))) (Keeps-raise_install _)
          (Keeps-nothing then_keeps check_free-Keeps f n)

  upload-Keeps : (i : Inputs) (payload : RuntimeConfig) → Keeps P (transfer i payload)
  unfolding transfer
  upload-Keeps i payload =
      Keeps-step gateway_space
      then_keeps check_space-Keeps _ _ _
      then_keeps Keeps-step staging
      then_keeps Keeps-report _
      then_keeps Keeps-nothing
      then_keeps Keeps-step upload
      then_keeps Keeps-nothing
      then_keeps Keeps-step checksum
      then_keeps Keeps-nothing
      then_keeps Keeps-step configuration_upload
      then_keeps Keeps-nothing
      then_keeps Keeps-nothing
      then_keeps Keeps-step runtime_check
      then_keeps Keeps-report _
      then_keeps Keeps-nothing
      then_keeps Keeps-pure P payload

  pub prepare-Keeps : (i : Inputs) → Keeps P (prepare i)
  unfolding prepare
  prepare-Keeps i =
      Keeps-nothing
      then_keeps Keeps-bind P (Keeps-gets P (λ s. s.migration)) (λ m.
        Keeps-bind P (Keeps-lift P (runtime_config i.cfg m)) (λ payload.
          Keeps-step gateway_access
          then_keeps Keeps-nothing
          then_keeps Keeps-step sensor_snapshot
          then_keeps Keeps-nothing
          then_keeps Keeps-bind P (Keeps-lift P i.snapshot) (λ devices.
            Keeps-lift P (readings (plan_of m) devices)
            then_keeps Keeps-step local_binary
            then_keeps Keeps-nothing
            then_keeps upload-Keeps i payload)))
