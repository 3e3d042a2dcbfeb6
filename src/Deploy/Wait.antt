-- ===== src/Deploy/Wait.antt =====
-- The wait for the gateway's health ends, and an installation that returns has switched over.
use gardena_matter_mqtt_brid.Base.{
  ℕ, zero, suc, ◌+◌, ◌*◌, ◌≤◌, ◌≡◌, sym, ap, ◌∙◌, Bool, true, false, Option, some, arith, leb,
}
use gardena_matter_mqtt_brid.Base.Exec.{Result}
use gardena_matter_mqtt_brid.Text.{Str, str}
use gardena_matter_mqtt_brid.Deploy.{Site, Deployment, switched, write_deployment, report}
use gardena_matter_mqtt_brid.Deploy.Keeps.{
  Keeps, keeps, kept, IsBlind, Keeps-pure, Keeps-bind, Keeps-call, round_of-kept,
}
use gardena_matter_mqtt_brid.Deploy.Install.{
  Inputs, deployment, health, try_health, when_ready, await_health, asleep, round_of,
}

-- A predicate that the wait keeps, since it looks neither at the files nor at the clock.
abbrev pub Waits : (Site → Type 0) → Type 0
Waits P =
    IsBlind P
    × ((s : Site) (d : Option Deployment) → P s → P (record s { deployment = d }))
    × ((s : Site) (m : Str) → P s → P (record s { mode = m }))
    × ((s : Site) → P s → P (health s).1)
    × ((s : Site) → P s → P (asleep s))

module _ (P : Site → Type 0) (w : Waits P) where
  when_ready-Keeps : (i : Inputs) (b : Bool) → Keeps P (when_ready i b)
  unfolding write_deployment report
  when_ready-Keeps i true =
      Keeps-bind P
        (Keeps-call P (λ s. record s { deployment = some (deployment switched i) }) w.0
          (λ s h. w.1 s _ h))
        (λ u.
          Keeps-bind P
            (Keeps-call P (λ s. record s { mode = str "gateway" }) w.0 (λ s h. w.2 s _ h))
            (λ v. Keeps-pure P true))
  when_ready-Keeps i false = Keeps-pure P false

  pub try_health-Keeps : (i : Inputs) → Keeps P (try_health i)
  unfolding try_health
  try_health-Keeps i = Keeps-bind P (keeps (λ s h. w.3 s h)) (when_ready-Keeps i)

  await_health-Keeps :
      (i : Inputs) (fuel deadline : ℕ) (s : Site) → P s → P (await_health i fuel deadline s).1
  unfolding await_health
  await_health-Keeps i zero deadline s h = h
  await_health-Keeps i (suc fuel) deadline s h =
      let next : P (try_health i s).1 = kept (try_health-Keeps i) s h in
      let later =
        await_health-Keeps i fuel deadline (asleep (try_health i s).1)
          (w.4 (try_health i s).1 next) in
      round_of-kept P (leb deadline s.now) (try_health i s) _ s h next later

abbrev IsAfter : ℕ → Site → Type 0
IsAfter t s = t ≤ s.now

IsAfter-Waits : (t : ℕ) → Waits (IsAfter t)
unfolding health
IsAfter-Waits t = (λ s l h. h, λ s d h. h, λ s m h. h, λ s h. ground arith, λ s h. omega arith)

-- Enough rounds are given: with any more the wait would end the same.
pub await_health_enough :
    (i : Inputs) (n k deadline : ℕ) (s : Site)
    → deadline ≤ s.now + 3000 * n
    → await_health i (suc (n + k)) deadline s ≡ await_health i (suc n) deadline s
unfolding await_health
await_health_enough i zero k deadline s h =
    let over : leb deadline s.now ≡ true = ground arith in
    ap (λ b. turn_of b (await_health i (zero + k) deadline (asleep (try_health i s).1))) over
    ∙ sym (ap (λ b. turn_of b (await_health i zero deadline (asleep (try_health i s).1))) over)
  where
    turn_of : Bool → Result (Unit {0}) × Site → Result (Unit {0}) × Site
    turn_of b rest = round_of b (try_health i s) rest s
await_health_enough i (suc n) k deadline s h =
    let v : Site = asleep (try_health i s).1 in
    let later : s.now ≤ (try_health i s).1.now =
      kept (try_health-Keeps (IsAfter s.now) (IsAfter-Waits s.now) i) s (omega arith) in
    let more : suc n + k ≡ suc (n + k) = omega arith in
    let same : await_health i (suc n + k) deadline v ≡ await_health i (suc n) deadline v =
      ap (λ (f : ℕ). await_health i f deadline v) more
      ∙ await_health_enough i n k deadline v (omega (arith, later)) in
    ap (λ rest. round_of (leb deadline s.now) (try_health i s) rest s) same

-- Forty-one rounds are enough for the 120 seconds that an installation waits.
pub wait_enough :
    (i : Inputs) (k : ℕ) (s : Site)
    → await_health i (41 + k) (s.now + 120000) s ≡ await_health i 41 (s.now + 120000) s
wait_enough i k s =
    ap (λ (f : ℕ). await_health i f (s.now + 120000) s) (omega arith)
    ∙ await_health_enough i 40 k (s.now + 120000) s (omega arith)
