-- ===== src/Worker/Journal.antt =====
-- The journal is enough to undo a takeover, however its calls end.
use mathlib.Core.Path.{subst}
use gardena_matter_mqtt_brid.Base.{
  ◌≡◌, refl, sym, ap, ◌∙◌, ◌≢◌, ◌⊎◌, inl, inr, true, false, Option, none, some, List, [], ◌∷◌,
  arith,
}
use gardena_matter_mqtt_brid.Base.Exec.{Result, ok, err, Run-cases}
use gardena_matter_mqtt_brid.Text.{Str}
use gardena_matter_mqtt_brid.Mower.{Mower}
use gardena_matter_mqtt_brid.Telemetry.{Device, Entity, readings}
use gardena_matter_mqtt_brid.Worker.{
  World, Publisher, Migration, taking_over, active, journal, write_migration, publisher_state,
  stop_publisher, take_over, restore_publisher, activate, send, send_all,
}

-- `p` has only lost what `q` had, so that restoring `q` gives `q` back.
abbrev pub IsBelow : Publisher → Publisher → Type 0
IsBelow p q = (p.running ≡ true → q.running ≡ true) × (p.enabled ≡ true → q.enabled ≡ true)

-- Without a journal the service is as it was; a journal says how it was.
abbrev pub IsRecoverable : Publisher → World → Type 0
IsRecoverable q w =
    ((w.migration ≡ none) × (w.publisher ≡ q))
    ⊎ ((j : Migration) × (w.migration ≡ some j) × (j.previous ≡ q) × IsBelow w.publisher q)

IsBelow-refl : (p : Publisher) → IsBelow p p
IsBelow-refl p = (λ h. h, λ h. h)

-- What one call may leave, case by case.
pub write_migration_cases :
    (m : Option Migration) (w w' : World) (r : Result (Unit {0}))
    → write_migration m w ≡ (r, w')
    → (w'.publisher ≡ w.publisher)
      × (w'.installed ≡ w.installed)
      × ((w'.migration ≡ m) ⊎ ((w'.migration ≡ w.migration) × (r ≢ ok tt)))
unfolding write_migration
write_migration_cases m w w' r h = ground arith

pub stop_publisher_cases :
    (w w' : World) (r : Result (Unit {0}))
    → stop_publisher w ≡ (r, w')
    → (w'.migration ≡ w.migration) × IsBelow w'.publisher w.publisher
unfolding stop_publisher
stop_publisher_cases w w' r h = ground arith

pub publisher_state_cases :
    (w w' : World) (r : Result Publisher)
    → publisher_state w ≡ (r, w')
    → (w'.migration ≡ w.migration)
      × (w'.publisher ≡ w.publisher)
      × ((p : Publisher) → r ≡ ok p → p ≡ w.publisher)
unfolding publisher_state
publisher_state_cases w w' r h = (ground arith, ground arith, λ p e. ground arith)

-- After a stop that returned the service is not running.
pub stop_publisher_stops :
    (w w' : World) → stop_publisher w ≡ (ok tt, w') → w'.publisher.running ≡ false
unfolding stop_publisher
stop_publisher_stops w w' h = ground arith

pub restore_cases :
    (p : Publisher) (w w' : World) (r : Result (Unit {0}))
    → restore_publisher p w ≡ (r, w')
    → IsBelow w.publisher p
    → (w'.migration ≡ w.migration) × IsBelow w'.publisher p × ((w'.publisher ≡ p) ⊎ (r ≢ ok tt))
unfolding restore_publisher
restore_cases p w w' r h (b, c) = (ground arith, (ground arith, ground arith), ground arith)

send_cases :
    (topic payload : Str) (w w' : World) (r : Result (Unit {0}))
    → send topic payload w ≡ (r, w')
    → (w'.migration ≡ w.migration) × (w'.publisher ≡ w.publisher)
unfolding send
send_cases topic payload w w' r h = ground arith

pub send_all_cases :
    (l : List (Str × Str)) (w w' : World) (r : Result (Unit {0}))
    → send_all l w ≡ (r, w')
    → (w'.migration ≡ w.migration) × (w'.publisher ≡ w.publisher)
unfolding send_all
send_all_cases [] w w' r h = ground arith
send_all_cases ((topic, payload) ∷ l) w w' r h = elim (Run-cases (send topic payload w)) [
  | inl (u, w1, e) ↦
      ground (arith, e, send_cases topic payload w w1 (ok u) e, send_all_cases l w1 w' r)
  | inr (x, w1, e) ↦ ground (arith, e, send_cases topic payload w w1 (err x) e)
]

pub recovers :
    (j : Migration) (w v w' : World)
    → v ≡ w'
    → v.migration ≡ some j
    → j.previous ≡ w.publisher
    → IsBelow v.publisher w.publisher
    → IsRecoverable w.publisher w'
recovers j w v w' e there known lower =
    subst (λ x. IsRecoverable w.publisher x) e (inr (j, there, known, lower))

take_over-IsRecoverable :
    (binding : Str) (plan : List Entity) (mowers : List Mower) (p : Publisher) (w w' : World)
    (r : Result Migration)
    → w.migration ≡ none
    → p ≡ w.publisher
    → take_over binding plan mowers p w ≡ (r, w')
    → IsRecoverable w.publisher w'
take_over-IsRecoverable binding plan mowers p w w' r clear known h =
    let first : Migration = journal taking_over binding p plan mowers in
    let second : Migration = journal active binding p plan mowers in
    elim (Run-cases (write_migration (some first) w)) [
      | inr (x, w1, e1) ↦
          let s1 = write_migration_cases (some first) w w1 (err x) e1 in
          let last : w1 ≡ w' = unfold take_over in ground (arith, e1, h) in
          elim s1.2 [
            | inl new ↦ recovers first w w1 w' last new known (
              (λ h. ap (λ p. p.running) (sym s1.0) ∙ h),
              (λ h. ap (λ p. p.enabled) (sym s1.0) ∙ h),
            )
            | inr (old, _) ↦ inl (
              sym (ap (λ x. x.migration) last) ∙ (old ∙ clear),
              sym (ap (λ x. x.publisher) last) ∙ s1.0,
            )
          ]
      | inl (u, w1, e1) ↦
          let s1 = write_migration_cases (some first) w w1 (ok u) e1 in
          let there : w1.migration ≡ some first = ground (arith, s1.2) in
          elim (Run-cases (stop_publisher w1)) [
            | inr (x, w2, e2) ↦
                let s2 = stop_publisher_cases w1 w2 (err x) e2 in
                recovers first w w2 w' (unfold take_over in ground (arith, e1, e2, h))
                  (s2.0 ∙ there) known (rw (← s1.0) s2.1)
            | inl (u2, w2, e2) ↦
                let s2 = stop_publisher_cases w1 w2 (ok u2) e2 in
                let lower : IsBelow w2.publisher w.publisher = rw (← s1.0) s2.1 in
                elim (Run-cases (write_migration (some second) w2)) [
                  | inr (x, w3, e3) ↦
                      let s3 = write_migration_cases (some second) w2 w3 (err x) e3 in
                      let last : w3 ≡ w' = unfold take_over in ground (arith, e1, e2, e3, h) in
                      elim s3.2 [
                        | inl new ↦ recovers second w w3 w' last new known (rw s3.0 lower)
                        | inr (old, _) ↦
                            recovers first w w3 w' last (old ∙ (s2.0 ∙ there)) known (rw s3.0 lower)
                      ]
                  | inl (u3, w3, e3) ↦
                      let s3 = write_migration_cases (some second) w2 w3 (ok u3) e3 in
                      recovers second w w3 w' (unfold take_over in ground (arith, e1, e2, e3, h))
                        (ground (arith, s3.2)) known (rw s3.0 lower)
                ]
          ]
    ]

-- Whatever ends a takeover, the service is as it was or the journal says how it was.
pub activate-IsRecoverable :
    (binding : Str) (plan : List Entity) (mowers : List Mower) (devices : List Device)
    (w w' : World) (r : Result Migration)
    → w.migration ≡ none
    → activate binding plan mowers devices w ≡ (r, w')
    → IsRecoverable w.publisher w'
activate-IsRecoverable binding plan mowers devices w w' r clear h =
    elim (Run-cases (readings plan devices, w)) [
      | inr (x, w0, e) ↦
          inl (unfold activate in ground (arith, e), unfold activate in ground (arith, e))
      | inl (values, w0, e) ↦ elim (Run-cases (publisher_state w)) [
        | inr (x, w1, e1) ↦
            let s1 = publisher_state_cases w w1 (err x) e1 in
            inl (
              unfold activate in ground (arith, e, e1, s1.0),
              unfold activate in ground (arith, e, e1, s1.1),
            )
        | inl (p, w1, e1) ↦
            let s1 = publisher_state_cases w w1 (ok p) e1 in
            let known : p ≡ w.publisher = s1.2 p refl in
            let run : take_over binding plan mowers p w1 ≡ (r, w') =
              unfold activate in ground (arith, e, e1, h) in
            rw (← s1.1) (
              take_over-IsRecoverable binding plan mowers p w1 w' r (s1.0 ∙ clear)
                (known ∙ sym s1.1) run)
      ]
    ]
