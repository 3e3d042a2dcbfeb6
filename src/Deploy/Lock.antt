-- ===== src/Deploy/Lock.antt =====
-- The lock that a request of the page took is given back.
use gardena_matter_mqtt_brid.Base.{
  ℕ, ◌≡◌, refl, inl, inr, false, Option, none, some, ◌∷◌, arith, leb, Bool-cases,
}
use gardena_matter_mqtt_brid.Base.Exec.{Result, ok, err, Run-cases}
use gardena_matter_mqtt_brid.Text.{Str, str}
use gardena_matter_mqtt_brid.Deploy.{Deployment, call, nothing, report, stop_worker, observe}
use gardena_matter_mqtt_brid.Deploy.Install.{Inputs}
use gardena_matter_mqtt_brid.Deploy.Supervisor.{
  Supervisor, run_action, after_action, try_action, do_action, refresh, due, stand_by, charged,
  turn,
}

after_action_same :
    (r : Result (Unit {0})) (s : Supervisor) → (after_action r s).1.action ≡ s.action
after_action_same (ok u) s = refl
after_action_same (err e) s = elim (Run-cases (report (str "gateway_error") s.site)) [
  | inl (u, v, e) ↦ rw e refl
  | inr (x, v, e) ↦ rw e refl
]

do_action-unlock :
    (i : Inputs) (name : Str) (s t : Supervisor) (u : Unit {0})
    → do_action i name s ≡ (ok u, t)
    → (t.locked ≡ false) × (t.action ≡ none)
do_action-unlock i name s t u h = elim (Run-cases (call nothing s.site)) [
  | inr (x, v, e) ↦ absurd (unfold do_action in ground (arith, e, h))
  | inl (u', v, e) ↦
      let m = run_action i name v in
      let kept = after_action_same m.0 (record s { site = m.1; action = none }) in
      unfold do_action try_action in ground (arith, e, h, kept)
]

due_same :
    (i : Inputs) (s : Supervisor)
    → ((due i s).1.locked ≡ s.locked) × ((due i s).1.action ≡ s.action)
due_same i s = elim (Bool-cases (leb s.next_check s.site.now)) [
  | inr later ↦ rw later (refl, refl)
  | inl now ↦ elim (Run-cases (refresh i s.site)) [
    | inl (u, v, e) ↦ rw (now, e) (refl, refl)
    | inr (x, v, e) ↦ rw (now, e) (refl, refl)
  ]
]

charged_same :
    (i : Inputs) (ended : Option ℕ) (d : Option Deployment) (s : Supervisor)
    → ((charged i ended d s).1.locked ≡ s.locked) × ((charged i ended d s).1.action ≡ s.action)
charged_same i ended none s = (refl, refl)
charged_same i ended (some d) s =
    unfold stand_by stop_worker in
    due_same i (record s { site = observe (record s.site { worker = false }) })

-- A turn that did an action and returned has given the lock back and forgotten the action, also when
-- the action failed.
pub turn_unlocks :
    (i : Inputs) (ended : Option ℕ) (s t : Supervisor) (c : ℕ) (name : Str)
    → s.action ≡ some (c ∷ name)
    → turn i ended s ≡ (ok tt, t)
    → (t.locked ≡ false) × (t.action ≡ none)
turn_unlocks i ended s t c name asked run = elim (Run-cases (do_action i (c ∷ name) s)) [
  | inr (x, v, e) ↦ absurd (unfold turn in ground (arith, asked, e, run))
  | inl (u, v, e) ↦
      let freed = do_action-unlock i (c ∷ name) s v u e in
      let same = charged_same i ended v.site.deployment v in
      unfold turn in ground (arith, asked, e, run, freed, same)
]
