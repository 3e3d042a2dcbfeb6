-- ===== src/Worker/Asked.antt =====
-- The rollback that Worker.run does when it was asked for, to its end.
use gardena_matter_mqtt_brid.Base.{◌≡◌, ◌∙◌, inl, inr, Option, none, some, arith}
use gardena_matter_mqtt_brid.Base.Exec.{Result, ok, Run-cases}
use gardena_matter_mqtt_brid.Text.{Str, str}
use gardena_matter_mqtt_brid.Json.{Json}
use gardena_matter_mqtt_brid.Worker.{World, Migration, run_rollback, rollback, write_action, report}
use gardena_matter_mqtt_brid.Worker.Histories.{Reaches, rollback-Reaches}

write_action_cases :
    (a : Option Str) (w w' : World) (r : Result (Unit {0}))
    → write_action a w ≡ (r, w')
    → (w'.migration ≡ w.migration) × (w'.publisher ≡ w.publisher)
unfolding write_action
write_action_cases a w w' r h = ground arith

report_cases :
    (mode : Str) (w w' : World)
    → report mode w ≡ (ok tt, w')
    → (w'.migration ≡ w.migration)
      × (w'.publisher ≡ w.publisher)
      × (w'.action ≡ w.action)
      × (w'.mode ≡ mode)
unfolding report
report_cases mode w w' h = ground arith

action_written : (w w' : World) → write_action none w ≡ (ok tt, w') → w'.action ≡ none
unfolding write_action
action_written w w' h = ground arith

-- After any history of takeovers, rollbacks and restarts that began without a journal, a run that was
-- asked to roll back and returns has restored the service exactly as it was before the takeover, has
-- dropped the journal and the action that asked for it, and reports "rolled_back".
pub run_rollback-Reaches :
    (w w' v : World) (dumps : Json → Str) (a h : Str) (j : Migration)
    → w.migration ≡ none
    → Reaches w w'
    → w'.migration ≡ some j
    → run_rollback dumps a h j w' ≡ (ok tt, v)
    → (v.migration ≡ none)
      × (v.publisher ≡ w.publisher)
      × (v.action ≡ none)
      × (v.mode ≡ str "rolled_back")
run_rollback-Reaches w w' v dumps a h j clear path there run =
    elim (Run-cases (rollback dumps a h j w')) [
      | inr (x, w1, e1) ↦ absurd (unfold run_rollback in ground (arith, e1, run))
      | inl (u1, w1, e1) ↦ elim (Run-cases (write_action none w1)) [
        | inr (x, w2, e2) ↦ absurd (unfold run_rollback in ground (arith, e1, e2, run))
        | inl (u2, w2, e2) ↦
            let back = rollback-Reaches w w' w1 dumps a h j clear path there e1 in
            let s2 = write_action_cases none w1 w2 (ok u2) e2 in
            let gone = action_written w1 w2 e2 in
            let s3 =
              report_cases (str "rolled_back") w2 v
                (unfold run_rollback in ground (arith, e1, e2, run)) in
            (s3.0 ∙ (s2.0 ∙ back.0), s3.1 ∙ (s2.1 ∙ back.1), s3.2 ∙ gone, s3.3)
      ]
    ]
