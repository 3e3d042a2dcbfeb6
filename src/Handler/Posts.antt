-- ===== src/Handler/Posts.antt =====
-- How the two kinds of POST end, those of a deployment and those of the worker.
use gardena_matter_mqtt_brid.Base.{
  ℕ, ◌≡◌, refl, ◌⊎◌, inl, inr, true, false, not, ◌&&◌, ◌||◌, List, [], ◌∷◌, arith, Bool-cases,
}
use gardena_matter_mqtt_brid.Base.Exec.{Error, Result, ok, err}
use gardena_matter_mqtt_brid.Text.{Str, str, str_eq, str_eq→eq, str_eq_refl}
use gardena_matter_mqtt_brid.Handler.{
  App, Ending, done, fails, has_migration, is_preview, read_file, write_file, lock, ask_deployment,
  ask_worker, acquire, post_deploy, write_or_refuse, maybe_rollback, post_worker,
}
use gardena_matter_mqtt_brid.Handler.Due.{
  unread, Demand, deployment, worker, IsDue, activates, rolls_back, Post, grants, refuses,
  unwritten,
}

abbrev with_endings : App → List Ending → App
with_endings a l = record a { endings = l }

pub read_cases :
    (a : App) (l : List Ending)
    → (l' : List Ending) × ((read_file (with_endings a l) ≡ (ok tt, with_endings a l'))
        ⊎ ((e : Error) × (read_file (with_endings a l) ≡ (err e, with_endings a l'))))
unfolding read_file
read_cases a [] = ([], inl refl)
read_cases a (done ∷ l) = (l, inl refl)
read_cases a (fails e true ∷ l) = (l, inr (e, refl))
read_cases a (fails e false ∷ l) = (l, inr (e, refl))

write_cases :
    (effect : App → App) (a : App) (l : List Ending)
    → (l' : List Ending) × ((write_file effect (with_endings a l)
          ≡ (ok tt, effect (with_endings a l')))
        ⊎ ((e : Error) × (write_file effect (with_endings a l)
              ≡ (err e, effect (with_endings a l'))))
        ⊎ ((e : Error) × (write_file effect (with_endings a l) ≡ (err e, with_endings a l'))))
unfolding write_file
write_cases effect a [] = ([], inl refl)
write_cases effect a (done ∷ l) = (l, inl refl)
write_cases effect a (fails e true ∷ l) = (l, inr (inl (e, refl)))
write_cases effect a (fails e false ∷ l) = (l, inr (inr (e, refl)))

module _ (address path : Str) (a : App) where
  abbrev Ends : Result ℕ × App → Type 0
  Ends m = Post address path a m.0 m.1

  -- The write of a demand of the main loop.
  acquire-Post :
      (name : Str) (l : List Ending)
      → IsDue address path a (deployment name)
      → Ends (acquire name false (with_endings a l))
  acquire-Post name l due =
      let (l', c) = write_cases (ask_deployment name) (lock a) l in
      elim c [
        | inl e ↦ rw e (grants (deployment name) _ due refl)
        | inr (inl (x, e)) ↦ rw e (unwritten x (deployment name) _ due (inl refl))
        | inr (inr (x, e)) ↦ rw e (unwritten x (deployment name) _ due (inr refl))
      ]

  -- The write of a demand of the worker.
  write-Post :
      (name : Str) (l : List Ending)
      → IsDue address path a (worker name)
      → Ends (write_or_refuse name true (with_endings a l))
  write-Post name l due =
      let (l', c) = write_cases (ask_worker name) a l in
      elim c [
        | inl e ↦ rw e (grants (worker name) _ due refl)
        | inr (inl (x, e)) ↦ rw e (unwritten x (worker name) _ due (inl refl))
        | inr (inr (x, e)) ↦ rw e (unwritten x (worker name) _ due (inr refl))
      ]

  pub post_deploy-Post :
      (name : Str) (l : List Ending)
      → (has_migration a ≡ true → a.locked ≡ false → IsDue address path a (deployment name))
      → ((d : Demand) → IsDue address path a d → (has_migration a ≡ true) × (a.locked ≡ false))
      → Ends (post_deploy name (with_endings a l))
  unfolding post_deploy
  post_deploy-Post name l due only =
      let (l', c) = read_cases a l in
      elim c [
        | inr (x, e) ↦ rw e (unread x _ refl)
        | inl e ↦ elim (Bool-cases (not (has_migration a) || a.locked)) [
          | inl bad ↦
              rw (e, bad)
                (refuses 409 _ (λ k. omega (arith, k))
                  (λ d k. let both = only d k in ground (arith, both, bad)) refl)
          | inr good ↦
              rw (e, good)
                (acquire-Post name l' (due (ground (arith, good)) (ground (arith, good))))
        ]
      ]

  abbrev Plain : Type 0
  Plain = (name : Str) → IsDue address path a (deployment name) → ⊥

  busy_lem : Plain → (a.deployed || a.locked) ≡ true → (d : Demand) → IsDue address path a d → ⊥
  busy_lem plain busy (deployment name) k = plain name k
  busy_lem plain busy _ (activates inside e free unlocked mode new) =
      ground (arith, busy, free, unlocked)
  busy_lem plain busy _ (rolls_back inside e free unlocked journal) =
      ground (arith, busy, free, unlocked)

  neither_lem :
      Plain
      → is_preview path a ≡ false
      → (str_eq path (str "/api/rollback") && has_migration a) ≡ false
      → (d : Demand) → IsDue address path a d
      → ⊥
  neither_lem plain p r (deployment name) k = plain name k
  neither_lem plain p r _ (activates inside e free unlocked mode new) =
      let here : str_eq path (str "/api/activate") ≡ true =
        rw e (str_eq_refl (str "/api/activate")) in
      let preview : str_eq a.mode (str "preview") ≡ true = rw mode (str_eq_refl (str "preview")) in
      ground (arith, p, here, preview, new)
  neither_lem plain p r _ (rolls_back inside e free unlocked journal) =
      let here : str_eq path (str "/api/rollback") ≡ true =
        rw e (str_eq_refl (str "/api/rollback")) in
      ground (arith, r, here, journal)

  maybe_rollback-Post :
      (l : List Ending)
      → str_eq address (str "172.30.32.2") ≡ true
      → Plain
      → (a.deployed || a.locked) ≡ false
      → is_preview path a ≡ false
      → Ends (maybe_rollback path (with_endings a l))
  maybe_rollback-Post l inside plain free p =
      elim (Bool-cases (str_eq path (str "/api/rollback"))) [
        | inr other ↦ rw other (
            refuses 409 _ (λ k. omega (arith, k)) (neither_lem plain p (ground (arith, other)))
              refl)
        | inl here ↦
            let (l', c) = read_cases a l in
            elim c [
              | inr (x, e) ↦ rw (here, e) (unread x _ refl)
              | inl e ↦ elim (Bool-cases (has_migration a)) [
                | inr absent ↦
                    rw (here, e, absent)
                      (refuses 409 _ (λ k. omega (arith, k))
                        (neither_lem plain p (ground (arith, here, absent))) refl)
                | inl journal ↦
                    rw (here, e, journal)
                      (write-Post (str "rollback") l' (
                        rolls_back inside (str_eq→eq path (str "/api/rollback") here)
                          (ground (arith, free)) (ground (arith, free)) journal))
              ]
            ]
      ]

  pub post_worker-Post :
      (l : List Ending)
      → str_eq address (str "172.30.32.2") ≡ true
      → Plain
      → Ends (post_worker path (with_endings a l))
  unfolding post_worker
  post_worker-Post l inside plain =
      let (l', c) = read_cases a l in
      elim c [
        | inr (x, e) ↦ rw e (unread x _ refl)
        | inl e ↦ elim (Bool-cases (a.deployed || a.locked)) [
          | inl busy ↦
              rw (e, busy) (refuses 409 _ (λ k. omega (arith, k)) (busy_lem plain busy) refl)
          | inr free ↦ elim (Bool-cases (is_preview path a)) [
            | inr other ↦ rw (e, free, other) (maybe_rollback-Post l' inside plain free other)
            | inl preview ↦
                rw (e, free, preview)
                  (write-Post (str "activate") l' (
                    activates inside
                      (str_eq→eq path (str "/api/activate") (ground (arith, preview)))
                      (ground (arith, free)) (ground (arith, free))
                      (str_eq→eq a.mode (str "preview") (ground (arith, preview)))
                      (ground (arith, preview))))
          ]
        ]
      ]
