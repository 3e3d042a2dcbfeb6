-- ===== src/Worker/Handover.antt =====
-- What Worker.activate has done when it returns.
use gardena_matter_mqtt_brid.Base.{◌≡◌, refl, ap, ◌∙◌, inl, inr, false, some, List, arith}
use gardena_matter_mqtt_brid.Base.Exec.{ok, Run-cases}
use gardena_matter_mqtt_brid.Text.{Str}
use gardena_matter_mqtt_brid.Json.{Json}
use gardena_matter_mqtt_brid.Mower.{Mower}
use gardena_matter_mqtt_brid.Telemetry.{Device, Entity, readings}
use gardena_matter_mqtt_brid.Worker.{
  World, Publisher, Migration, taking_over, active, journal, write_migration, publisher_state,
  stop_publisher, take_over, activate,
}
use gardena_matter_mqtt_brid.Worker.Journal.{
  write_migration_cases, stop_publisher_stops, publisher_state_cases,
}

take_over_completes :
    (binding : Str) (plan : List Entity) (mowers : List Mower) (p : Publisher) (w w' : World)
    (j : Migration)
    → take_over binding plan mowers p w ≡ (ok j, w')
    → (j ≡ journal active binding p plan mowers)
      × (w'.migration ≡ some j)
      × (w'.publisher.running ≡ false)
take_over_completes binding plan mowers p w w' j h =
    let first : Migration = journal taking_over binding p plan mowers in
    let second : Migration = journal active binding p plan mowers in
    elim (Run-cases (write_migration (some first) w)) [
      | inr (x, w1, e1) ↦ absurd (unfold take_over in ground (arith, e1, h))
      | inl (u1, w1, e1) ↦ elim (Run-cases (stop_publisher w1)) [
        | inr (x, w2, e2) ↦ absurd (unfold take_over in ground (arith, e1, e2, h))
        | inl (u2, w2, e2) ↦ elim (Run-cases (write_migration (some second) w2)) [
          | inr (x, w3, e3) ↦ absurd (unfold take_over in ground (arith, e1, e2, e3, h))
          | inl (u3, w3, e3) ↦
              let s2 = stop_publisher_stops w1 w2 e2 in
              let s3 = write_migration_cases (some second) w2 w3 (ok u3) e3 in
              let same : j ≡ second = unfold take_over in ground (arith, e1, e2, e3, h) in
              let last : w3 ≡ w' = unfold take_over in ground (arith, e1, e2, e3, h) in
              (same, ground (arith, s3.2, last, same), ground (arith, s3.0, s2, last))
        ]
      ]
    ]

-- An `activate` that returns had a value for each entity of the plan, found the service as the journal
-- that it returns and has written says, with the phase active, and left the service not running.
pub activate_hands_over :
    (binding : Str) (plan : List Entity) (mowers : List Mower) (devices : List Device)
    (w w' : World) (j : Migration)
    → activate binding plan mowers devices w ≡ (ok j, w')
    → (j ≡ journal active binding w.publisher plan mowers)
      × (w'.migration ≡ some j)
      × (w'.publisher.running ≡ false)
      × ((values : List (Json × Str)) × (readings plan devices ≡ ok values))
activate_hands_over binding plan mowers devices w w' j h =
    elim (Run-cases (readings plan devices, w)) [
      | inr (x, w0, e) ↦ absurd (unfold activate in ground (arith, e, h))
      | inl (values, w0, e) ↦ elim (Run-cases (publisher_state w)) [
        | inr (x, w1, e1) ↦ absurd (unfold activate in ground (arith, e, e1, h))
        | inl (p, w1, e1) ↦
            let known : p ≡ w.publisher = (publisher_state_cases w w1 (ok p) e1).2 p refl in
            let run : take_over binding plan mowers p w1 ≡ (ok j, w') =
              unfold activate in ground (arith, e, e1, h) in
            let t = take_over_completes binding plan mowers p w1 w' j run in
            (
              t.0 ∙ ap (λ q. journal active binding q plan mowers) known,
              t.1,
              t.2,
              (values, ap (λ m. m.0) e),
            )
      ]
    ]
