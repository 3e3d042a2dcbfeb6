-- ===== src/Worker/Histories.antt =====
-- The takeover, the way back and the restarts of Worker.run and Worker.rollback, in every order and
-- with every failure of their calls.
use mathlib.Core.Path.{subst}
use gardena_matter_mqtt_brid.Base.{
  ◌≡◌, refl, sym, ap, ◌∙◌, inl, inr, none, some, List, [], ◌∷◌, ◌++◌, arith,
}
use gardena_matter_mqtt_brid.Base.Exec.{Result, ok, err, Run-cases}
use gardena_matter_mqtt_brid.Text.{Str}
use gardena_matter_mqtt_brid.Json.{Json}
use gardena_matter_mqtt_brid.Mower.{Mower}
use gardena_matter_mqtt_brid.Telemetry.{Device, Entity}
use gardena_matter_mqtt_brid.Worker.{
  World, Publisher, Migration, taking_over, active, write_migration, stop_publisher,
  restore_publisher, activate, rollback, abandon, send, send_all, rollback_messages,
}
use gardena_matter_mqtt_brid.Worker.Journal.{
  IsRecoverable, IsBelow, activate-IsRecoverable, write_migration_cases, stop_publisher_cases,
  restore_cases, send_all_cases,
}

-- One run of an operation of the worker, whichever way it ends. A takeover comes only when there is
-- no journal; the others come with the journal that they read.
pub data Step : World → World → Type 0 where
  activated :
      {w w' : World} (b : Str) (plan : List Entity) (ms : List Mower) (ds : List Device)
      (r : Result Migration)
      → w.migration ≡ none
      → activate b plan ms ds w ≡ (r, w')
      → Step w w'
  rolled_back :
      {w w' : World} (dumps : Json → Str) (a h : Str) (j : Migration) (r : Result (Unit {0}))
      → w.migration ≡ some j
      → rollback dumps a h j w ≡ (r, w')
      → Step w w'
  abandoned :
      {w w' : World} (j : Migration) (r : Result (Unit {0}))
      → w.migration ≡ some j
      → j.phase ≡ taking_over
      → abandon j w ≡ (r, w')
      → Step w w'
  resumed :
      {w w' : World} (j : Migration) (r : Result (Unit {0}))
      → w.migration ≡ some j
      → j.phase ≡ active
      → stop_publisher w ≡ (r, w')
      → Step w w'

pub data Reaches : World → World → Type 0 where
  here : {w : World} → Reaches w w
  then : {w v u : World} → Reaches w v → Step v u → Reaches w u

-- Restoring the publisher and then dropping the journal.
undo_cases :
    (q : Publisher) (j : Migration) (w w' : World) (r : Result (Unit {0}))
    → w.migration ≡ some j
    → j.previous ≡ q
    → IsBelow w.publisher q
    → abandon j w ≡ (r, w')
    → IsRecoverable q w' × (r ≡ ok tt → (w'.migration ≡ none) × (w'.publisher ≡ q))
undo_cases q j w w' r there known lower h = elim (Run-cases (restore_publisher j.previous w)) [
  | inr (x, w1, e1) ↦
      let s1 =
        restore_cases j.previous w w1 (err x) e1
          (subst (λ p. IsBelow w.publisher p) (sym known) lower) in
      let last : w1 ≡ w' = unfold abandon in ground (arith, e1, h) in
      (
        subst (λ v. IsRecoverable q v) last
            (inr (j, s1.0 ∙ there, known, subst (λ p. IsBelow w1.publisher p) known s1.1)),
        λ good. unfold abandon in ground (arith, e1, h),
      )
  | inl (u, w1, e1) ↦
      let s1 =
        restore_cases j.previous w w1 (ok u) e1
          (subst (λ p. IsBelow w.publisher p) (sym known) lower) in
      let back : w1.publisher ≡ q = ground (arith, s1.2, known) in
      let run : write_migration none w1 ≡ (r, w') = unfold abandon in ground (arith, e1, h) in
      let s2 = write_migration_cases none w1 w' r run in
      (
        elim s2.2 [
          | inl clear ↦ inl (clear, s2.0 ∙ back)
          | inr (old, _) ↦ inr (
            j,
            old ∙ (s1.0 ∙ there),
            known,
            (
              (λ t. ap (λ p. p.running) (sym (s2.0 ∙ back)) ∙ t),
              (λ t. ap (λ p. p.enabled) (sym (s2.0 ∙ back)) ∙ t),
            ),
          )
        ],
        λ good. ground (arith, s2, back),
      )
]

rollback_cases :
    (q : Publisher) (dumps : Json → Str) (a h : Str) (j : Migration) (w w' : World)
    (r : Result (Unit {0}))
    → w.migration ≡ some j
    → j.previous ≡ q
    → IsBelow w.publisher q
    → rollback dumps a h j w ≡ (r, w')
    → IsRecoverable q w' × (r ≡ ok tt → (w'.migration ≡ none) × (w'.publisher ≡ q))
rollback_cases q dumps a h j w w' r there known lower run =
    let messages = rollback_messages dumps a h j.plan in
    elim (Run-cases (send_all messages w)) [
      | inr (x, w1, e1) ↦
          let s1 = send_all_cases messages w w1 (err x) e1 in
          let last : w1 ≡ w' = unfold rollback in ground (arith, e1, run) in
          (
            subst (λ v. IsRecoverable q v) last
                (inr (j, s1.0 ∙ there, known, subst (λ p. IsBelow p q) (sym s1.1) lower)),
            λ good. unfold rollback in ground (arith, e1, run),
          )
      | inl (u, w1, e1) ↦
          let s1 = send_all_cases messages w w1 (ok u) e1 in
          undo_cases q j w1 w' r (s1.0 ∙ there) known (subst (λ p. IsBelow p q) (sym s1.1) lower)
            (unfold rollback in ground (arith, e1, run))
    ]

-- A world with a journal is recoverable by it.
from_journal :
    (q : Publisher) (w : World) (j : Migration)
    → w.migration ≡ some j
    → IsRecoverable q w
    → (j.previous ≡ q) × IsBelow w.publisher q
from_journal q w j there (inl (clear, back)) = absurd (ground arith)
from_journal q w j there (inr (k, held, known, lower)) =
    let same : k ≡ j = ground arith in (ap (λ i. i.previous) (sym same) ∙ known, lower)

Step-IsRecoverable :
    (q : Publisher) (w w' : World) → Step w w' → IsRecoverable q w → IsRecoverable q w'
Step-IsRecoverable q w w' (activated b plan ms ds r clear run) (inl (_, back)) =
    subst (λ p. IsRecoverable p w') back (activate-IsRecoverable b plan ms ds w w' r clear run)
Step-IsRecoverable q w w' (activated b plan ms ds r clear run) (inr (j, there, known, lower)) =
    absurd (ground arith)
Step-IsRecoverable q w w' (rolled_back dumps a h j r there run) inv =
    let s = from_journal q w j there inv in
    (rollback_cases q dumps a h j w w' r there s.0 s.1 run).0
Step-IsRecoverable q w w' (abandoned j r there phase run) inv =
    let s = from_journal q w j there inv in (undo_cases q j w w' r there s.0 s.1 run).0
Step-IsRecoverable q w w' (resumed j r there phase run) inv =
    let s = from_journal q w j there inv in
    let t = stop_publisher_cases w w' r run in
    inr (j, t.0 ∙ there, s.0, ((λ k. s.1.0 (t.1.0 k)), (λ k. s.1.1 (t.1.1 k))))

-- However takeovers, rollbacks and restarts follow on each other and whichever of their calls fail,
-- a service that was as `q` describes without a journal is later as `q` describes without a journal,
-- or a journal holds `q`, and the service runs and is enabled at most as `q` says.
pub Reaches-IsRecoverable :
    (q : Publisher) (w w' : World) → Reaches w w' → IsRecoverable q w → IsRecoverable q w'
Reaches-IsRecoverable q w w' here inv = inv
Reaches-IsRecoverable q w w' (then {v = v} path s) inv =
    Step-IsRecoverable q v w' s (Reaches-IsRecoverable q w v path inv)

-- After any such history, a rollback by the journal that returns leaves the service exactly as it was
-- before the takeover, and no journal.
pub rollback-Reaches :
    (w w' v : World) (dumps : Json → Str) (a h : Str) (j : Migration)
    → w.migration ≡ none
    → Reaches w w'
    → w'.migration ≡ some j
    → rollback dumps a h j w' ≡ (ok tt, v)
    → (v.migration ≡ none) × (v.publisher ≡ w.publisher)
rollback-Reaches w w' v dumps a h j clear path there run =
    let s =
      from_journal w.publisher w' j there
        (Reaches-IsRecoverable w.publisher w w' path (inl (clear, refl))) in
    (rollback_cases w.publisher dumps a h j w' v (ok tt) there s.0 s.1 run).1 refl

-- When no failure is to come.
send_all_calm :
    (l : List (Str × Str)) (w : World)
    → w.outcomes ≡ []
    → (v : World) × (send_all l w ≡ (ok tt, v)) × (v.outcomes ≡ [])
unfolding send_all send
send_all_calm [] w calm = (w, refl, calm)
send_all_calm ((topic, payload) ∷ l) w calm =
    let next : World = record w { published = w.published ++ (topic, payload) ∷ [] } in
    let (v, run, still) = send_all_calm l next calm in (v, ground (arith, run), still)

abandon_calm :
    (j : Migration) (w : World) → w.outcomes ≡ [] → (v : World) × (abandon j w ≡ (ok tt, v))
unfolding abandon restore_publisher write_migration
abandon_calm j w calm = elim (Run-cases (abandon j w)) [
  | inl (u, v, e) ↦ (v, e)
  | inr (x, v, e) ↦ absurd (ground arith)
]

-- After any history of takeovers, rollbacks and restarts that began without a journal, a rollback by
-- the journal that is there, none of whose calls fails, returns, and leaves the service exactly as it
-- was before the takeover, and no journal.
pub rollback-restores :
    (w w' : World) (dumps : Json → Str) (a h : Str) (j : Migration)
    → w.migration ≡ none
    → Reaches w w'
    → w'.migration ≡ some j
    → w'.outcomes ≡ []
    → (v : World) × (rollback dumps a h j w' ≡ (ok tt, v))
      × (v.migration ≡ none)
      × (v.publisher ≡ w.publisher)
rollback-restores w w' dumps a h j clear path there calm =
    let (w1, sent, still) = send_all_calm (rollback_messages dumps a h j.plan) w' calm in
    let (v, undone) = abandon_calm j w1 still in
    let run : rollback dumps a h j w' ≡ (ok tt, v) =
      unfold rollback in ground (arith, sent, undone) in
    let after = rollback-Reaches w w' v dumps a h j clear path there run in
    (v, run, after.0, after.1)
